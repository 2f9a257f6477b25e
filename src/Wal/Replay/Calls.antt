-- ===== src/Wal/Replay/Calls.antt =====
-- A call of coordinator/scheduler.c on the recovered store, and the record that it is logged with:
-- what replay makes of the record is what the call made of the store.
use flatline_c.Prelude.{
  ℕ, ◌+◌, ◌≡◌, inl, inr, refl, sym, ◌∙◌, ap, subst, true, some, some_inj, List, arith, get_elem?,
  set, All-get,
}
use flatline_c.Prelude.Int.{ℤ, ◌≤ℤ◌}
use flatline_c.Prelude.Result.{ok, ok_inj}
use flatline_c.Job
use flatline_c.Job.{Job}
use flatline_c.Job.Invariant
use flatline_c.JobQueue.{JobQueue, peek, pop}
use flatline_c.Protocol.Message.{Message, JobSubmit}
use flatline_c.Scheduler.{
  Scheduler, find_slot, find, first_active, active, assignment, submit, assign, report, worker_lost,
  publish_outcome,
}
use flatline_c.Scheduler.Lists.{find_slot_hit}
use flatline_c.Scheduler.Invariant.Submit.{submit_effect, job_init_fields}
use flatline_c.Scheduler.Invariant.Assign.{assign_effect}
use flatline_c.Scheduler.Invariant.Report.{report_cases, apply_report-IsOutcome, Applied-Published}
use flatline_c.Scheduler.Invariant.Loss.{loss_effect, active_hit, Loss-Keeps, Loss-Published}
use flatline_c.Wal.Format.{JobRecord, job_created, job_assigned}
use flatline_c.Wal.Replay.Index.{WorkerIndex, worker_was_allocated}
use flatline_c.Wal.Replay.{ReplayState, stored}
use flatline_c.Wal.Replay.Recovered.{IsRecovered, issued_below}
use flatline_c.Wal.Replay.Again.{Written, apply_expected, job_init_again, job_assign_again}
use flatline_c.Wal.Replay.Transitions.{
  Replayed, find-set, find-append, created_again, assigned_again, outcome_again, Again,
  apply_report-Again, fail-Again, first_active_unique,
}
use flatline_c.CoordinatorStore.{outcome_record}

popped_peeked :
    (q : JobQueue) (id removed : ℕ) {rest : JobQueue}
    → peek q ≡ ok id
    → pop q ≡ ok (removed, rest)
    → removed ≡ id
unfolding pop
popped_peeked q id removed e p = ground arith

stored_rest :
    (s : ReplayState) (kind : JobRecord) (saved k : Job) (pending : JobQueue)
    → ((stored s kind saved k pending).job_time_base_ms ≡ saved.updated_at_ms)
      × ((stored s kind saved k pending).workers ≡ s.workers)
unfolding stored
stored_rest s job_created saved k pending = (refl, refl)
stored_rest s _ saved k pending = (refl, refl)

pub active-first :
    (s : Scheduler) (w : ℕ) (j : Job) → active s w ≡ some j → first_active s.jobs w ≡ some j
unfolding active
active-first s w j h = ground arith

module _ (s : ReplayState) (index : WorkerIndex) (v : IsRecovered s index) where
  pub replay-submit :
      (p : JobSubmit) (t : ℤ) (id : ℕ) (q : Scheduler)
      → submit s.scheduler p t ≡ ok (id, q)
      → s.job_time_base_ms ≤ℤ t
      → (job : Job) × (find q id ≡ some job)
        × ((sequence : ℕ) (wire : List ℕ)
            → Written job_created sequence job wire
            → Replayed s index job_created sequence job wire q)
  unfolding stored
  replay-submit p t id q h later =
      let (job, pending, made, pushed, given, result, room, left) =
        submit_effect s.scheduler p t h in
      let (same, waits, free, positive, _) =
        job_init_fields s.scheduler.next_job_id p.task_type _ p.max_retries t made in
      let (again, now) =
        job_init_again s.scheduler.next_job_id p.task_type p.arguments p.max_retries t job made in
      let above : job.id ≡ s.highest_job_id + 1 = ground (arith, v.next_job) in
      let (e, f) = created_again s index job pending again pushed waits (omega arith) room in
      let issued = issued_below s.scheduler s.highest_job_id v.store v.next_job v.word in
      (
        job,
        subst (λ x. find q x ≡ some job) (sym given)
            (find-append s.scheduler q job (s.highest_job_id + 1) issued (omega arith) (omega arith)
              (ap (λ (x : Scheduler). x.jobs) result)),
        λ sequence wire written. (
          stored s job_created job job pending,
          apply_expected s index job_created sequence job wire pending written (rw now later) e f,
          sym result,
          refl,
          refl,
        ),
      )

  pub replay-assign :
      (w : ℕ) (t : ℤ) (m : Message) (q : Scheduler)
      → assign s.scheduler w t ≡ ok (m, q)
      → worker_was_allocated index w ≡ true
      → s.job_time_base_ms ≤ℤ t
      → (job : Job) × (m ≡ assignment job w)
        × (find q job.id ≡ some job)
        × ((sequence : ℕ) (wire : List ℕ)
            → Written job_assigned sequence job wire
            → Replayed s index job_assigned sequence job wire q)
  unfolding stored
  replay-assign w t m q h given later =
      let (
        id, removed, j, k, pending, idle, positive, peeked, there, made, popped, message, result,
      ) =
        assign_effect s.scheduler w t h in
      let (again, owner, now, same) = job_assign_again j w t k made in
      let hit : k.id ≡ id = same ∙ find_slot_hit s.scheduler.jobs id j there in
      let took = popped_peeked s.scheduler.pending id removed peeked popped in
      let there' : get_elem? s.scheduler.jobs (find_slot s.scheduler.jobs k.id) ≡ some j =
        subst (λ x. get_elem? s.scheduler.jobs (find_slot s.scheduler.jobs x) ≡ some j) (sym hit)
          there in
      let (e, f) =
        assigned_again s index j k pending again there' (rw owner idle) (rw owner given)
          (peeked ∙ ap ok (sym hit)) (popped ∙ ap (λ x. ok (x, pending)) (took ∙ sym hit)) in
      let sound =
        All-get Invariant.IsValid s.scheduler.jobs (find_slot s.scheduler.jobs id) there
          v.store.records in
      (
        k,
        message,
        find-set s.scheduler q k.id j k there' refl (ground (arith, sound.identified)) (
            ap (λ (x : Scheduler). x.jobs) result
            ∙ ap (λ i. set s.scheduler.jobs (find_slot s.scheduler.jobs i) k) (sym hit)),
        λ sequence wire written. (
          stored s job_assigned k k pending,
          apply_expected s index job_assigned sequence k wire pending written (rw now later) e f,
          ap
                (λ i. record s.scheduler {
                  jobs = set s.scheduler.jobs (find_slot s.scheduler.jobs i) k;
                  pending = pending;
                })
                hit
              ∙ sym result,
          refl,
          refl,
        ),
      )

  replay_outcome :
      (j k : Job) (w : ℕ) (t : ℤ) (q : Scheduler)
      → Again s index w t j k
      → get_elem? s.scheduler.jobs (find_slot s.scheduler.jobs k.id) ≡ some j
      → publish_outcome s.scheduler (find_slot s.scheduler.jobs k.id) k ≡ ok q
      → s.job_time_base_ms ≤ℤ t
      → (sequence : ℕ) (wire : List ℕ) → Written (outcome_record k.state) sequence k wire
      → Replayed s index (outcome_record k.state) sequence k wire q
  unfolding stored
  replay_outcome j k w t q (again, o, now, own) there published later sequence wire written =
      let kind = outcome_record k.state in
      let (e, f, same) = outcome_again s index kind j k q o there again published in
      (
        stored s kind k k q.pending,
        apply_expected s index kind sequence k wire q.pending written (rw now later) e f,
        same,
        (stored_rest s kind k k q.pending).0,
        (stored_rest s kind k k q.pending).1,
      )

  pub replay-report :
      (w : ℕ) (m : Message) (t : ℤ) (q : Scheduler) (a : Job)
      → report s.scheduler w m t ≡ ok q
      → active s.scheduler w ≡ some a
      → s.job_time_base_ms ≤ℤ t
      → (job : Job) × (find q a.id ≡ some job)
        × ((sequence : ℕ) (wire : List ℕ)
            → Written (outcome_record job.state) sequence job wire
            → Replayed s index (outcome_record job.state) sequence job wire q)
  replay-report w m t q a h working later = elim (report_cases s.scheduler w m t) [
    | inl (e, refused, _) ↦ absurd (ground arith)
    | inr (i, j, k, named, own, there, made, same) ↦
        let again = apply_report-Again s index j w i m t k made in
        let sound =
          All-get Invariant.IsValid s.scheduler.jobs (find_slot s.scheduler.jobs i.job_id) there
            v.store.records in
        let (busy, keeps) = apply_report-IsOutcome j w i m t k made sound in
        let (q', published, _, jobs, _) =
          Applied-Published s.scheduler w m t v.store (i, j, k, named, own, there, made, same) in
        let result : q' ≡ q = ok_inj (sym published ∙ sym same ∙ h) in
        let hit = find_slot_hit s.scheduler.jobs i.job_id j there in
        let owner = active-first s.scheduler w a working in
        let one : a ≡ j =
          first_active_unique s.scheduler.jobs w (find_slot s.scheduler.jobs i.job_id) j a owner
            there busy again.3 v.store.unique in
        let id : k.id ≡ i.job_id = keeps.same_id ∙ hit in
        let asked : i.job_id ≡ a.id = sym hit ∙ sym (ap (λ (x : Job). x.id) one) in
        (
          k,
          subst (λ x. find q x ≡ some k) asked
              (find-set s.scheduler q i.job_id j k there id (ground (arith, sound.identified))
                (ap (λ (x : Scheduler). x.jobs) (sym result) ∙ jobs)),
          replay_outcome j k w t q again
              (subst (λ x. get_elem? s.scheduler.jobs (find_slot s.scheduler.jobs x) ≡ some j)
                (sym id) there)
              (subst (λ x. publish_outcome s.scheduler (find_slot s.scheduler.jobs x) k ≡ ok q)
                (sym id) (published ∙ ap ok result))
              later,
        )
  ]

  pub replay-worker_lost :
      (w : ℕ) (t : ℤ) (q : Scheduler) (a : Job)
      → worker_lost s.scheduler w t ≡ ok q
      → active s.scheduler w ≡ some a
      → s.job_time_base_ms ≤ℤ t
      → (job : Job) × (find q a.id ≡ some job)
        × ((sequence : ℕ) (wire : List ℕ)
            → Written (outcome_record job.state) sequence job wire
            → Replayed s index (outcome_record job.state) sequence job wire q)
  replay-worker_lost w t q a h working later =
      let (j, k, busy, made, published) = loss_effect s.scheduler w t q h in
      let one : j ≡ a = some_inj.0 (sym busy ∙ working) in
      let (there, own, live, positive) = active_hit s.scheduler w j busy v.store in
      let keeps = Loss-Keeps s.scheduler w t j k busy made v.store in
      let (q', published', _, jobs, _) = Loss-Published s.scheduler w t j k busy made v.store in
      let result : q' ≡ q = ok_inj (sym published' ∙ published) in
      let sound =
        All-get Invariant.IsValid s.scheduler.jobs (find_slot s.scheduler.jobs j.id) there
          v.store.records in
      let there' =
        subst (λ x. get_elem? s.scheduler.jobs (find_slot s.scheduler.jobs x) ≡ some j)
          (sym keeps.same_id) there in
      (
        k,
        subst (λ x. find q x ≡ some k) (keeps.same_id ∙ ap (λ (x : Job). x.id) one)
            (find-set s.scheduler q k.id j k there' refl
              (ground (arith, sound.identified, keeps.same_id))
              (ap (λ (x : Scheduler). x.jobs) (sym result) ∙ jobs)),
        replay_outcome j k w t q (fail-Again s index j w j.attempt Job.worker_lost t k made) there'
            published later,
      )
