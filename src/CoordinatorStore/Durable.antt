-- ===== src/CoordinatorStore/Durable.antt =====
-- Nothing is published that the log does not hold, and a failure is final.
use flatline_c.Prelude.{
  ℕ, ◌≡◌, ◌⊎◌, inl, inr, refl, sym, ap, ◌∙◌, Bool, true, false, not, Option, none, some, arith,
}
use flatline_c.Prelude.Int.{ℤ, ltz, is_neg}
use flatline_c.Prelude.Result.{Result, ok, err}
use flatline_c.Job.{Job}
use flatline_c.Protocol.Message.{Message, JobSubmit}
use flatline_c.Scheduler
use flatline_c.Scheduler.{Scheduler, SchedulerError, queue_error, worker_busy, find, active}
use flatline_c.WorkerRegistry
use flatline_c.Wal.Format.{
  Record, Entry, worker_id_allocated, job_snapshot, JobRecord, job_created, job_assigned,
}
use flatline_c.CoordinatorStore.State.{
  Store, StoreFailure, Step, StoreError, rejected, empty, fatal, internal_failure, ◌>>=◌, ◌>>◌,
  clock_failure, answer, fail, refuse, refuse_if, fail_if, continue_with,
}
use flatline_c.CoordinatorStore.{
  usable, out_of_range, time_of, append_record, job_time, commit_job, register, submit, assign,
  report, commit_worker_loss, worker_lost, kind_in, submitted, given, reported, lost, assigned_id,
  appended, commit_found, registered, report_of, loss_of, is_live,
}

abbrev pub Same : {Wal : Type 0} → Store Wal → Store Wal → Type 0
Same s q = (q.jobs ≡ s.jobs) × (q.workers ≡ s.workers)

module _ {Wal : Type 0} (next_sequence : Wal → ℕ) (append : Wal → Record → Bool × Wal) where
  -- The log took one record, under the next number, on the way from one state to the other.
  abbrev pub Logged : Store Wal → Store Wal → Type 0
  Logged s q =
      (entry : Entry) × (append s.wal (record { sequence = next_sequence s.wal; entry = entry })
        ≡ (true, q.wal))

  -- A call that succeeds has logged a record; one that does not has published nothing.
  abbrev pub Durable : {A : Type 0} → Store Wal → Result StoreError A × Store Wal → Type 0
  Durable {A} s (r, q) =
      ((a : A) × (r ≡ ok a) × Logged s q) ⊎ ((e : StoreError) × (r ≡ err e) × Same s q)

  abbrev IsDurable : {A : Type 0} → Step Wal A → Type 0
  IsDurable m = (s : Store Wal) → Durable s (m s)

  -- A step that answers without touching the state, or fails and publishes nothing.
  abbrev IsQuiet : {A : Type 0} → Step Wal A → Type 0
  IsQuiet {A} m =
      (s : Store Wal)
      → ((a : A) × (m s ≡ (ok a, s)))
        ⊎ ((e : StoreError) × (q : Store Wal) × (m s ≡ (err e, q)) × Same s q)

  bind-IsDurable :
      {A B : Type 0} (m : Step Wal A) (f : A → Step Wal B)
      → IsQuiet m
      → ((a : A) → IsDurable (f a))
      → IsDurable (m >>= f)
  bind-IsDurable m f h k s = elim (h s) [
    | inl (a, e) ↦ rw e (k a s)
    | inr (x, q, e, same) ↦ rw e (inr (x, refl, same))
  ]

  bind-IsQuiet :
      {A B : Type 0} (m : Step Wal A) (f : A → Step Wal B)
      → IsQuiet m
      → ((a : A) → IsQuiet (f a))
      → IsQuiet (m >>= f)
  bind-IsQuiet m f h k s = elim (h s) [
    | inl (a, e) ↦ rw e (k a s)
    | inr (x, q, e, same) ↦ rw e (inr (x, q, refl, same))
  ]

  fail_if-IsQuiet : (b : Bool) (f : StoreFailure) → IsQuiet (fail_if b f)
  fail_if-IsQuiet true f s = inr (fatal, (fail {A = Unit {0}} f s).1, refl, (refl, refl))
  fail_if-IsQuiet false f s = inl (tt, refl)

  refuse_if-IsQuiet : (b : Bool) (e : StoreError) → IsQuiet (refuse_if b e)
  refuse_if-IsQuiet true e s = inr (e, s, refl, (refl, refl))
  refuse_if-IsQuiet false e s = inl (tt, refl)

  refuse-IsDurable : {A : Type 0} (e : StoreError) → IsDurable (refuse {A = A} e)
  refuse-IsDurable e s = inr (e, refl, (refl, refl))

  fail-IsDurable : {A : Type 0} (f : StoreFailure) → IsDurable (fail {A = A} f)
  fail-IsDurable f s = inr (fatal, refl, (refl, refl))

  job_time-IsQuiet : (raw : ℤ) → IsQuiet (job_time next_sequence append raw)
  unfolding job_time
  job_time-IsQuiet raw s =
      bind-IsQuiet (fail_if (out_of_range s raw) clock_failure)
        (λ u.
          fail_if (ltz (time_of s raw) s.last_job_time_ms) clock_failure >> answer (time_of s raw))
        (fail_if-IsQuiet (out_of_range s raw) clock_failure)
        (λ u.
          bind-IsQuiet (fail_if (ltz (time_of s raw) s.last_job_time_ms) clock_failure)
            (λ v. answer (time_of s raw))
            (fail_if-IsQuiet (ltz (time_of s raw) s.last_job_time_ms) clock_failure)
            (λ v t. inl (time_of s raw, refl)))
        s

  answered-IsDurable :
      {A B : Type 0} (m : Step Wal A) (f : A → B)
      → IsDurable m
      → IsDurable (m >>= λ a. answer (f a))
  answered-IsDurable {A = A} {B = B} m f h s = after (m s) (h s)
    where
      after :
          (r : Result StoreError A × Store Wal)
          → Durable s r
          → Durable s (continue_with (λ a. answer (f a)) r.0 r.1)
      after (ok a, q) (inl (x, e, logged)) = inl (f a, refl, logged)
      after (ok a, q) (inr (x, e, same)) = absurd (ground arith)
      after (err e, q) (inl (x, h, logged)) = absurd (ground arith)
      after (err e, q) (inr (x, h, same)) = inr (e, refl, same)

  -- An append, and a publication that leaves the log alone.
  published-IsDurable :
      {A : Type 0} (entry : Entry) (a : A) (publish : Store Wal → Store Wal)
      → ((q : Store Wal) → (publish q).wal ≡ q.wal)
      → IsDurable (append_record next_sequence append entry >>= λ u s. (ok a, publish s))
  unfolding append_record
  published-IsDurable entry a publish keeps s =
      after (append s.wal (record { sequence = next_sequence s.wal; entry = entry })) refl
    where
      after :
          (r : Bool × Wal)
          → append s.wal (record { sequence = next_sequence s.wal; entry = entry }) ≡ r
          → Durable s (
              continue_with
                (λ u q. (ok a, publish q))
                (appended next_sequence append r s).0
                (appended next_sequence append r s).1)
      after (true, w) e =
          inl (a, refl, (entry, e ∙ ap (λ x. (true, x)) (sym (keeps (record s { wal = w })))))
      after (false, w) e = inr (fatal, refl, (refl, refl))

  commit_job-IsDurable :
      (scratch : Scheduler) (id : ℕ) (kind : JobRecord)
      → IsDurable (commit_job next_sequence append scratch id kind)
  unfolding commit_job
  commit_job-IsDurable scratch id kind = found (find scratch id)
    where
      found : (j : Option Job) → IsDurable (commit_found next_sequence append scratch kind j)
      found none = fail-IsDurable internal_failure
      found (some job) =
          published-IsDurable (job_snapshot kind job) tt
            (λ s. record s { jobs = scratch; last_job_time_ms = job.updated_at_ms }) (λ q. refl)

  registered-IsDurable :
      (r : Result WorkerRegistry.RegistryError (ℕ × WorkerRegistry.Registry))
      → IsDurable (registered next_sequence append r)
  registered-IsDurable (err e) = refuse-IsDurable rejected
  registered-IsDurable (ok (id, candidate)) =
      published-IsDurable (worker_id_allocated id) id (λ s. record s { workers = candidate })
        (λ q. refl)

  submitted-IsDurable :
      (r : Result SchedulerError (ℕ × Scheduler)) → IsDurable (submitted next_sequence append r)
  submitted-IsDurable (err queue_error) = fail-IsDurable internal_failure
  submitted-IsDurable (err _) = refuse-IsDurable rejected
  submitted-IsDurable (ok (id, scratch)) =
      answered-IsDurable (commit_job next_sequence append scratch id job_created) (λ u. id)
        (commit_job-IsDurable scratch id job_created)

  given-IsDurable :
      (r : Result SchedulerError (Message × Scheduler)) → IsDurable (given next_sequence append r)
  given-IsDurable (err Scheduler.empty) = refuse-IsDurable empty
  given-IsDurable (err worker_busy) = refuse-IsDurable rejected
  given-IsDurable (err _) = fail-IsDurable internal_failure
  given-IsDurable (ok (candidate, scratch)) =
      answered-IsDurable
        (commit_job next_sequence append scratch (assigned_id next_sequence append candidate)
          job_assigned)
        (λ u. candidate)
        (commit_job-IsDurable scratch (assigned_id next_sequence append candidate) job_assigned)

  reported-IsDurable :
      (id : ℕ) (r : Result SchedulerError Scheduler)
      → IsDurable (reported next_sequence append id r)
  reported-IsDurable id (err queue_error) = fail-IsDurable internal_failure
  reported-IsDurable id (err _) = refuse-IsDurable rejected
  reported-IsDurable id (ok scratch) = commit_job-IsDurable scratch id (kind_in (find scratch id))

  lost-IsDurable :
      (id : ℕ) (r : Result SchedulerError Scheduler) → IsDurable (lost next_sequence append id r)
  lost-IsDurable id (err e) = fail-IsDurable internal_failure
  lost-IsDurable id (ok scratch) = commit_job-IsDurable scratch id (kind_in (find scratch id))

  timed-IsDurable :
      {A : Type 0} (raw : ℤ) (f : ℤ → Step Wal A)
      → ((t : ℤ) → IsDurable (f t))
      → IsDurable (job_time next_sequence append raw >>= f)
  timed-IsDurable raw f h =
      bind-IsDurable (job_time next_sequence append raw) f (job_time-IsQuiet raw) h

  -- A call of the store that succeeds has appended one record under the next sequence number before
  -- it changed anything; any other call, the failed append included, leaves the published jobs and
  -- workers as they were. This holds for every call and every writer.
  pub store-Durable :
      (s : Store Wal) (fd now : ℤ) (p : JobSubmit) (w : ℕ) (m : Message)
      → Durable s (register next_sequence append fd now s)
        × Durable s (submit next_sequence append p now s)
        × Durable s (assign next_sequence append w now s)
        × Durable s (report next_sequence append w m now s)
        × Durable s (worker_lost next_sequence append w now s)
  unfolding register submit assign report worker_lost commit_worker_loss
  store-Durable s fd now p w m = (
    guarded _ s (λ u.
        bind-IsDurable (fail_if (is_neg now) clock_failure) _
          (fail_if-IsQuiet (is_neg now) clock_failure)
          (λ v. registered-IsDurable (WorkerRegistry.register s.workers fd now))),
    guarded _ s
        (λ u. timed-IsDurable now _ (λ t. submitted-IsDurable (Scheduler.submit s.jobs p t))),
    guarded _ s (λ u.
        living _ s w
          (λ v. timed-IsDurable now _ (λ t. given-IsDurable (Scheduler.assign s.jobs w t)))),
    guarded _ s (λ u. living _ s w (λ v. report_of-IsDurable (active s.jobs w))),
    guarded _ s (λ u q. loss_of-IsDurable q (active q.jobs w)),
  )
    where
      guarded :
          {A : Type 0} (f : Unit {0} → Step Wal A) (q : Store Wal)
          → ((u : Unit {0}) → IsDurable (f u))
          → Durable q ((refuse_if (not (usable q)) fatal >>= f) q)
      guarded f q h =
          bind-IsDurable (refuse_if (not (usable q)) fatal) f
            (refuse_if-IsQuiet (not (usable q)) fatal) h q

      living :
          {A : Type 0} (f : Unit {0} → Step Wal A) (q : Store Wal) (w : ℕ)
          → ((u : Unit {0}) → IsDurable (f u))
          → IsDurable (refuse_if (not (is_live (WorkerRegistry.find q.workers w))) rejected >>= f)
      living f q w h =
          bind-IsDurable (refuse_if (not (is_live (WorkerRegistry.find q.workers w))) rejected) f
            (refuse_if-IsQuiet (not (is_live (WorkerRegistry.find q.workers w))) rejected) h

      report_of-IsDurable : (j : Option Job) → IsDurable (report_of next_sequence append j w m now)
      report_of-IsDurable none = refuse-IsDurable rejected
      report_of-IsDurable (some job) = λ q.
          timed-IsDurable now _ (λ t. reported-IsDurable job.id (Scheduler.report q.jobs w m t)) q

      loss_of-IsDurable :
          (q : Store Wal) (j : Option Job) → Durable q (loss_of next_sequence append j w now q)
      loss_of-IsDurable q none = refuse-IsDurable empty q
      loss_of-IsDurable q (some job) =
          timed-IsDurable now _ (λ t. lost-IsDurable job.id (Scheduler.worker_lost q.jobs w t)) q

  -- After a failure every call answers that it was fatal, and changes nothing: neither the jobs, nor
  -- the workers, nor the log.
  pub store_latched :
      (s : Store Wal) (f : StoreFailure) (fd now : ℤ) (p : JobSubmit) (w : ℕ) (m : Message)
      → s.failure ≡ some f
      → (register next_sequence append fd now s ≡ (err fatal, s))
        × (submit next_sequence append p now s ≡ (err fatal, s))
        × (assign next_sequence append w now s ≡ (err fatal, s))
        × (report next_sequence append w m now s ≡ (err fatal, s))
        × (worker_lost next_sequence append w now s ≡ (err fatal, s))
  unfolding register submit assign report worker_lost
  store_latched s f fd now p w m h =
      let closed : usable s ≡ false = ground arith in
      (rw closed refl, rw closed refl, rw closed refl, rw closed refl, rw closed refl)
