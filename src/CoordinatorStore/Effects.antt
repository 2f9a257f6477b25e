-- ===== src/CoordinatorStore/Effects.antt =====
-- The parts of a call of the store that succeeds.
use flatline_c.Prelude.{
  ℕ, ◌≡◌, refl, sym, ap, ◌∙◌, subst, Bool, true, false, not, Option, none, some, arith,
}
use flatline_c.Prelude.Int.{ℤ, ltz, is_neg, ◌≤ℤ◌}
use flatline_c.Prelude.Result.{Result, ok, err, ok_inj}
use flatline_c.Job.{Job}
use flatline_c.Protocol.Message.{Message, JobSubmit}
use flatline_c.Scheduler
use flatline_c.Scheduler.{Scheduler, SchedulerError, find, active}
use flatline_c.WorkerRegistry
use flatline_c.Wal.Format.{
  Record, Entry, worker_id_allocated, job_snapshot, JobRecord, job_created, job_assigned,
}
use flatline_c.CoordinatorStore.State.{
  Store, StoreFailure, Step, StoreError, rejected, fatal, ◌>>=◌, ◌>>◌, clock_failure, answer,
  refuse_if, fail_if, continue_with,
}
use flatline_c.CoordinatorStore.{
  usable, out_of_range, time_of, append_record, job_time, commit_job, register, submit, assign,
  report, commit_worker_loss, worker_lost, kind_in, submitted, given, reported, lost, assigned_id,
  appended, commit_found, registered, report_of, loss_of, is_live,
}

pub continued :
    {Wal A B : Type 0} (f : A → Step Wal B) (r : Result StoreError A × Store Wal) {b : B}
    {q : Store Wal}
    → continue_with f r.0 r.1 ≡ (ok b, q)
    → (a : A) × (t : Store Wal) × (r ≡ (ok a, t)) × (f a t ≡ (ok b, q))
continued f (ok a, t) h = (a, t, refl, h)
continued f (err e, t) h = absurd (ground arith)

pub guarded_ok :
    {Wal A : Type 0} (b : Bool) (e : StoreError) (m : Step Wal A) (s : Store Wal) {a : A}
    {q : Store Wal}
    → (refuse_if b e >> m) s ≡ (ok a, q)
    → (b ≡ false) × (m s ≡ (ok a, q))
guarded_ok true e m s h = absurd (ground arith)
guarded_ok false e m s h = (refl, h)

pub fail_if_ok :
    {Wal : Type 0} (b : Bool) (f : StoreFailure) (s : Store Wal) {q : Store Wal}
    → fail_if b f s ≡ (ok tt, q)
    → (b ≡ false) × (q ≡ s)
fail_if_ok true f s h = absurd (ground arith)
fail_if_ok false f s h = (refl, ap (λ r. r.1) (sym h))

module _ {Wal : Type 0} (next_sequence : Wal → ℕ) (append : Wal → Record → Bool × Wal) where
  -- The record that was appended from one state to the other.
  abbrev pub Took : Store Wal → Entry → Store Wal → Type 0
  Took s entry q =
      append s.wal (record { sequence = next_sequence s.wal; entry = entry }) ≡ (true, q.wal)

  append_record_ok :
      (s : Store Wal) (entry : Entry) {q : Store Wal}
      → append_record next_sequence append entry s ≡ (ok tt, q)
      → Took s entry q × (q ≡ record s { wal = q.wal })
  unfolding append_record
  append_record_ok s entry {q} h =
      by_answer (append s.wal (record { sequence = next_sequence s.wal; entry = entry })) refl h
    where
      by_answer :
          (r : Bool × Wal)
          → append s.wal (record { sequence = next_sequence s.wal; entry = entry }) ≡ r
          → appended next_sequence append r s ≡ (ok tt, q)
          → Took s entry q × (q ≡ record s { wal = q.wal })
      by_answer (true, w) e k =
          let same : record s { wal = w } ≡ q = ap (λ r. r.1) k in
          (
            e ∙ ap (λ (x : Store Wal). (true, x.wal)) same,
            sym same ∙ ap (λ (x : Store Wal). record s { wal = x.wal }) same,
          )
      by_answer (false, w) e k = absurd (ground arith)

  job_time_ok :
      (s : Store Wal) (raw t : ℤ) {q : Store Wal}
      → job_time next_sequence append raw s ≡ (ok t, q)
      → (q ≡ s) × (s.last_job_time_ms ≤ℤ t)
  unfolding job_time
  job_time_ok s raw t h =
      let (u, r, e, h') =
        continued
          (λ u.
            fail_if (ltz (time_of s raw) s.last_job_time_ms) clock_failure
            >> answer (time_of s raw))
          (fail_if (out_of_range s raw) clock_failure s) h in
      let (_, same) = fail_if_ok (out_of_range s raw) clock_failure s e in
      let (u', r', e', h'') =
        continued (λ v. answer (time_of s raw))
          (fail_if (ltz (time_of s raw) s.last_job_time_ms) clock_failure r) h' in
      let (due, same') = fail_if_ok (ltz (time_of s raw) s.last_job_time_ms) clock_failure r e' in
      let answered : time_of s raw ≡ t = ok_inj (ap (λ x. x.0) h'') in
      (
        sym (ap (λ x. x.1) h'') ∙ same' ∙ same,
        subst (λ x. s.last_job_time_ms ≤ℤ x) answered (ground arith),
      )

  -- What a committed transaction has published.
  abbrev pub Committed : Store Wal → Scheduler → Job → JobRecord → Store Wal → Type 0
  Committed s scratch job kind q =
      Took s (job_snapshot kind job) q
      × (q.jobs ≡ scratch)
      × (q.workers ≡ s.workers)
      × (q.last_job_time_ms ≡ job.updated_at_ms)

  abbrev pub Commits : Store Wal → Scheduler → ℕ → JobRecord → Store Wal → Type 0
  Commits s scratch id kind q =
      (job : Job) × (find scratch id ≡ some job) × Committed s scratch job kind q

  commit_found_ok :
      (s : Store Wal) (scratch : Scheduler) (kind : JobRecord) (o : Option Job) {q : Store Wal}
      → commit_found next_sequence append scratch kind o s ≡ (ok tt, q)
      → (job : Job) × (o ≡ some job) × Committed s scratch job kind q
  commit_found_ok s scratch kind none h = absurd (ground arith)
  commit_found_ok s scratch kind (some job) {q} h =
      let (u, r, e, h') =
        continued
          (λ u (s : Store Wal).
            (ok tt, record s { jobs = scratch; last_job_time_ms = job.updated_at_ms }))
          (append_record next_sequence append (job_snapshot kind job) s) h in
      let (took, kept) = append_record_ok s (job_snapshot kind job) e in
      let same : record r { jobs = scratch; last_job_time_ms = job.updated_at_ms } ≡ q =
        ap (λ x. x.1) h' in
      (
        job,
        refl,
        (
          took ∙ ap (λ (x : Store Wal). (true, x.wal)) same,
          ap (λ (x : Store Wal). x.jobs) (sym same),
          ap (λ (x : Store Wal). x.workers) (sym same) ∙ ap (λ (x : Store Wal). x.workers) kept,
          ap (λ (x : Store Wal). x.last_job_time_ms) (sym same),
        ),
      )

  commit_job_ok :
      (s : Store Wal) (scratch : Scheduler) (id : ℕ) (kind : JobRecord) {q : Store Wal}
      → commit_job next_sequence append scratch id kind s ≡ (ok tt, q)
      → Commits s scratch id kind q
  unfolding commit_job
  commit_job_ok s scratch id kind h = commit_found_ok s scratch kind (find scratch id) h

  timed_ok :
      {A : Type 0} (s : Store Wal) (raw : ℤ) (f : ℤ → Step Wal A) {a : A} {q : Store Wal}
      → (job_time next_sequence append raw >>= f) s ≡ (ok a, q)
      → (t : ℤ) × (s.last_job_time_ms ≤ℤ t) × (f t s ≡ (ok a, q))
  timed_ok s raw f {a} {q} h =
      let (t, r, e, h') = continued f (job_time next_sequence append raw s) h in
      let (same, due) = job_time_ok s raw t e in (t, due, subst (λ x. f t x ≡ (ok a, q)) same h')

  committed_ok :
      {A : Type 0} (s : Store Wal) (scratch : Scheduler) (id : ℕ) (kind : JobRecord) (a : A) {b : A}
      {q : Store Wal}
      → (commit_job next_sequence append scratch id kind >> answer a) s ≡ (ok b, q)
      → (a ≡ b) × Commits s scratch id kind q
  committed_ok s scratch id kind a {q = q} h =
      let (u, r, e, h') =
        continued (λ u. answer a) (commit_job next_sequence append scratch id kind s) h in
      let same : r ≡ q = ap (λ x. x.1) h' in
      (ok_inj (ap (λ x. x.0) h'), commit_job_ok s scratch id kind (e ∙ ap (λ x. (ok tt, x)) same))

  pub submit_ok :
      (s : Store Wal) (p : JobSubmit) (now : ℤ) (id : ℕ) {q : Store Wal}
      → submit next_sequence append p now s ≡ (ok id, q)
      → (t : ℤ) × (scratch : Scheduler) × (s.last_job_time_ms ≤ℤ t)
        × (Scheduler.submit s.jobs p t ≡ ok (id, scratch))
        × Commits s scratch id job_created q
  unfolding submit
  submit_ok s p now id {q} h =
      let (_, h') = guarded_ok (not (usable s)) fatal _ s h in
      let (t, due, h'') =
        timed_ok s now (λ t. submitted next_sequence append (Scheduler.submit s.jobs p t)) h' in
      let (scratch, made, commits) = by_result (Scheduler.submit s.jobs p t) h'' in
      (t, scratch, due, made, commits)
    where
      by_result :
          (r : Result SchedulerError (ℕ × Scheduler))
          → submitted next_sequence append r s ≡ (ok id, q)
          → (scratch : Scheduler) × (r ≡ ok (id, scratch)) × Commits s scratch id job_created q
      by_result (err Scheduler.queue_error) k = absurd (ground arith)
      by_result (err _) k = absurd (ground arith)
      by_result (ok (x, scratch)) k =
          let (same, commits) = committed_ok s scratch x job_created x k in
          (
            scratch,
            ap (λ y. ok (y, scratch)) same,
            subst (λ y. Commits s scratch y job_created q) same commits,
          )

  pub assign_ok :
      (s : Store Wal) (w : ℕ) (now : ℤ) (m : Message) {q : Store Wal}
      → assign next_sequence append w now s ≡ (ok m, q)
      → (t : ℤ) × (scratch : Scheduler) × (is_live (WorkerRegistry.find s.workers w) ≡ true)
        × (s.last_job_time_ms ≤ℤ t)
        × (Scheduler.assign s.jobs w t ≡ ok (m, scratch))
        × Commits s scratch (assigned_id next_sequence append m) job_assigned q
  unfolding assign
  assign_ok s w now m {q} h =
      let (_, h') = guarded_ok (not (usable s)) fatal _ s h in
      let (live, h'') =
        guarded_ok (not (is_live (WorkerRegistry.find s.workers w))) rejected _ s h' in
      let (t, due, h3) =
        timed_ok s now (λ t. given next_sequence append (Scheduler.assign s.jobs w t)) h'' in
      let (scratch, made, commits) = by_result (Scheduler.assign s.jobs w t) h3 in
      (t, scratch, ground arith, due, made, commits)
    where
      by_result :
          (r : Result SchedulerError (Message × Scheduler))
          → given next_sequence append r s ≡ (ok m, q)
          → (scratch : Scheduler) × (r ≡ ok (m, scratch))
            × Commits s scratch (assigned_id next_sequence append m) job_assigned q
      by_result (err Scheduler.empty) k = absurd (ground arith)
      by_result (err Scheduler.worker_busy) k = absurd (ground arith)
      by_result (err _) k = absurd (ground arith)
      by_result (ok (x, scratch)) k =
          let (same, commits) =
            committed_ok s scratch (assigned_id next_sequence append x) job_assigned x k in
          (
            scratch,
            ap (λ y. ok (y, scratch)) same,
            subst (λ y. Commits s scratch (assigned_id next_sequence append y) job_assigned q) same
                commits,
          )

  pub report_ok :
      (s : Store Wal) (w : ℕ) (m : Message) (now : ℤ) {q : Store Wal}
      → report next_sequence append w m now s ≡ (ok tt, q)
      → (t : ℤ) × (scratch : Scheduler) × (job : Job) × (active s.jobs w ≡ some job)
        × (s.last_job_time_ms ≤ℤ t)
        × (Scheduler.report s.jobs w m t ≡ ok scratch)
        × Commits s scratch job.id (kind_in (find scratch job.id)) q
  unfolding report
  report_ok s w m now {q} h =
      let (_, h') = guarded_ok (not (usable s)) fatal _ s h in
      let (live, h'') =
        guarded_ok (not (is_live (WorkerRegistry.find s.workers w))) rejected _ s h' in
      by_job (active s.jobs w) h''
    where
      by_result :
          (id : ℕ) (r : Result SchedulerError Scheduler)
          → reported next_sequence append id r s ≡ (ok tt, q)
          → (scratch : Scheduler) × (r ≡ ok scratch)
            × Commits s scratch id (kind_in (find scratch id)) q
      by_result id (err Scheduler.queue_error) k = absurd (ground arith)
      by_result id (err _) k = absurd (ground arith)
      by_result id (ok scratch) k =
          (scratch, refl, commit_job_ok s scratch id (kind_in (find scratch id)) k)

      by_job :
          (o : Option Job)
          → report_of next_sequence append o w m now s ≡ (ok tt, q)
          → (t : ℤ) × (scratch : Scheduler) × (job : Job) × (o ≡ some job)
            × (s.last_job_time_ms ≤ℤ t)
            × (Scheduler.report s.jobs w m t ≡ ok scratch)
            × Commits s scratch job.id (kind_in (find scratch job.id)) q
      by_job none k = absurd (ground arith)
      by_job (some job) k =
          let (t, due, k') =
            timed_ok s now
              (λ t. reported next_sequence append job.id (Scheduler.report s.jobs w m t)) k in
          let (scratch, made, commits) = by_result job.id (Scheduler.report s.jobs w m t) k' in
          (t, scratch, job, refl, due, made, commits)

  pub commit_worker_loss_ok :
      (s : Store Wal) (w : ℕ) (now : ℤ) {q : Store Wal}
      → commit_worker_loss next_sequence append w now s ≡ (ok tt, q)
      → (t : ℤ) × (scratch : Scheduler) × (job : Job) × (active s.jobs w ≡ some job)
        × (s.last_job_time_ms ≤ℤ t)
        × (Scheduler.worker_lost s.jobs w t ≡ ok scratch)
        × Commits s scratch job.id (kind_in (find scratch job.id)) q
  unfolding commit_worker_loss
  commit_worker_loss_ok s w now {q} h = by_job (active s.jobs w) h
    where
      by_result :
          (id : ℕ) (r : Result SchedulerError Scheduler)
          → lost next_sequence append id r s ≡ (ok tt, q)
          → (scratch : Scheduler) × (r ≡ ok scratch)
            × Commits s scratch id (kind_in (find scratch id)) q
      by_result id (err _) k = absurd (ground arith)
      by_result id (ok scratch) k =
          (scratch, refl, commit_job_ok s scratch id (kind_in (find scratch id)) k)

      by_job :
          (o : Option Job)
          → loss_of next_sequence append o w now s ≡ (ok tt, q)
          → (t : ℤ) × (scratch : Scheduler) × (job : Job) × (o ≡ some job)
            × (s.last_job_time_ms ≤ℤ t)
            × (Scheduler.worker_lost s.jobs w t ≡ ok scratch)
            × Commits s scratch job.id (kind_in (find scratch job.id)) q
      by_job none k = absurd (ground arith)
      by_job (some job) k =
          let (t, due, k') =
            timed_ok s now
              (λ t. lost next_sequence append job.id (Scheduler.worker_lost s.jobs w t)) k in
          let (scratch, made, commits) = by_result job.id (Scheduler.worker_lost s.jobs w t) k' in
          (t, scratch, job, refl, due, made, commits)

  pub worker_lost_ok :
      (s : Store Wal) (w : ℕ) (now : ℤ) {q : Store Wal}
      → worker_lost next_sequence append w now s ≡ (ok tt, q)
      → commit_worker_loss next_sequence append w now s ≡ (ok tt, q)
  unfolding worker_lost
  worker_lost_ok s w now h = (guarded_ok (not (usable s)) fatal _ s h).1

  pub register_ok :
      (s : Store Wal) (fd now : ℤ) (id : ℕ) {q : Store Wal}
      → register next_sequence append fd now s ≡ (ok id, q)
      → (candidate : WorkerRegistry.Registry) × (WorkerRegistry.register s.workers fd now
          ≡ ok (id, candidate))
        × Took s (worker_id_allocated id) q
        × (q ≡ record s { wal = q.wal; workers = candidate })
  unfolding register
  register_ok s fd now id {q} h =
      let (_, h') = guarded_ok (not (usable s)) fatal _ s h in
      let (u, r, e, h'') =
        continued (λ u. registered next_sequence append (WorkerRegistry.register s.workers fd now))
          (fail_if (is_neg now) clock_failure s) h' in
      let (_, same) = fail_if_ok (is_neg now) clock_failure s e in
      by_result (WorkerRegistry.register s.workers fd now) (
        subst
          (λ x.
            registered next_sequence append (WorkerRegistry.register s.workers fd now) x
            ≡ (ok id, q))
          same h'')
    where
      by_result :
          (r : Result WorkerRegistry.RegistryError (ℕ × WorkerRegistry.Registry))
          → registered next_sequence append r s ≡ (ok id, q)
          → (candidate : WorkerRegistry.Registry) × (r ≡ ok (id, candidate))
            × Took s (worker_id_allocated id) q
            × (q ≡ record s { wal = q.wal; workers = candidate })
      by_result (err _) k = absurd (ground arith)
      by_result (ok (x, candidate)) k =
          let (u, r, e, k') =
            continued (λ u (s : Store Wal). (ok x, record s { workers = candidate }))
              (append_record next_sequence append (worker_id_allocated x) s) k in
          let (took, kept) = append_record_ok s (worker_id_allocated x) e in
          let same : x ≡ id = ok_inj (ap (λ y. y.0) k') in
          let result : record r { workers = candidate } ≡ q = ap (λ y. y.1) k' in
          let logged : r.wal ≡ q.wal = ap (λ (y : Store Wal). y.wal) result in
          (
            candidate,
            ap (λ y. ok (y, candidate)) same,
            subst (λ y. Took s (worker_id_allocated y) q) same (took ∙ ap (λ y. (true, y)) logged),
            sym result
                ∙ ap (λ (y : Store Wal). record y { workers = candidate }) kept
                ∙ ap (λ y. record s { wal = y; workers = candidate }) logged,
          )
