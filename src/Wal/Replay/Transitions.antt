-- ===== src/Wal/Replay/Transitions.antt =====
-- Replay of the record that each call of coordinator/scheduler.c is logged with.
use flatline_c.Prelude.{
  ℕ, zero, suc, ◌≤◌, ◌<◌, ◌≡◌, ◌≢◌, inl, inr, refl, sym, ap, subst, Bool-cases, true, false, none,
  some, some_inj, List, [], ◌∷◌, ◌++◌, ◌&&◌, arith, ltb, ◌==◌, ==_self, length, get_elem?,
  get_elem?-set, set, All, All-get,
}
use flatline_c.Prelude.Int.{ℤ}
use flatline_c.Prelude.Result.{ok}
use flatline_c.Job.{
  Job, JobFailure, queued, running, done, failed, task, job_init, job_assign, job_start,
  job_complete, job_fail,
}
use flatline_c.JobQueue.{JobQueue, peek, pop, push}
use flatline_c.Protocol.Message.{Message, JobIdentity}
use flatline_c.Scheduler.{
  Scheduler, store_capacity, find_slot, find, active, held, first_active, is_active, apply_report,
  publish_outcome,
}
use flatline_c.Scheduler.Lists.{IsUnique, AreApart}
use flatline_c.Scheduler.Invariant.Report.{or_else_ok}
use flatline_c.CoordinatorStore.{outcome_record}
use flatline_c.Wal.Format.{JobRecord, job_created, job_assigned}
use flatline_c.Wal.Replay.Index.{WorkerIndex, worker_was_allocated}
use flatline_c.Wal.Replay.{ReplayState, next_snapshot, expected, pending_after, stored, apply_job}
use flatline_c.Wal.Replay.Moves.{is_outcome}
use flatline_c.Wal.Replay.Again.{job_start_again, job_complete_again, job_fail_again}

-- A slot that is written with a record of its ID is still found by it.
find_slot-set :
    (js : List Job) (id : ℕ) (j k : Job)
    → get_elem? js (find_slot js id) ≡ some j
    → k.id ≡ id
    → find_slot (set js (find_slot js id) k) id ≡ find_slot js id
unfolding find_slot
find_slot-set [] id j k e h = cc
find_slot-set (x ∷ js) id j k e h = elim (Bool-cases (x.id == id)) [
  | inl hit ↦ rw hit (ground arith)
  | inr miss ↦ rw miss (rw miss (ap suc (find_slot-set js id j k (rw miss at e) h)))
]

pub find-set :
    (s t : Scheduler) (id : ℕ) (j k : Job)
    → get_elem? s.jobs (find_slot s.jobs id) ≡ some j
    → k.id ≡ id
    → 0 < id
    → t.jobs ≡ set s.jobs (find_slot s.jobs id) k
    → find t id ≡ some k
unfolding find
find-set s t id j k e h positive same =
    let some_id : (id == 0) ≡ false = ground arith in
    rw (some_id, same, find_slot-set s.jobs id j k e h)
      (get_elem?-set s.jobs (find_slot s.jobs id) k e)

-- An ID above those in the list is found in the place after them.
find_slot-append :
    (js : List Job) (k : Job) (n : ℕ)
    → All (λ j. j.id < n) js
    → n ≤ k.id
    → get_elem? (js ++ k ∷ []) (find_slot (js ++ k ∷ []) k.id) ≡ some k
unfolding find_slot
find_slot-append [] k n a h = rw (==_self k.id) refl
find_slot-append (j ∷ js) k n a h =
    let other : (j.id == k.id) ≡ false = ground arith in rw other (find_slot-append js k n a.1 h)

pub find-append :
    (s t : Scheduler) (k : Job) (n : ℕ)
    → All (λ j. j.id < n) s.jobs
    → n ≤ k.id
    → 0 < k.id
    → t.jobs ≡ s.jobs ++ k ∷ []
    → find t k.id ≡ some k
unfolding find
find-append s t k n a h positive same =
    let some_id : (k.id == 0) ≡ false = ground arith in
    rw (some_id, same) (find_slot-append s.jobs k n a h)

-- What a record is replayed to: the given store, at the time of its job.
abbrev pub Replayed : ReplayState → WorkerIndex → JobRecord → ℕ → Job → List ℕ → Scheduler → Type 0
Replayed s index kind sequence job wire q =
    (s' : ReplayState) × (apply_job s index kind sequence job wire ≡ ok s')
    × (s'.scheduler ≡ q)
    × (s'.job_time_base_ms ≡ job.updated_at_ms)
    × (s'.workers ≡ s.workers)

module _ (s : ReplayState) (index : WorkerIndex) where
  pub created_again :
      (job : Job) (pending : JobQueue)
      → job_init job.id job.task_type (held job.arguments) job.max_retries job.created_at_ms
        ≡ ok job
      → push s.scheduler.pending job ≡ ok pending
      → job.state ≡ queued
      → s.highest_job_id < job.id
      → length s.scheduler.jobs ≢ store_capacity
      → (expected s index job_created job ≡ ok job)
        × (pending_after s.scheduler.pending job_created job job.id ≡ ok pending)
  unfolding expected pending_after
  created_again job pending made pushed waits new room = (ground arith, ground arith)

  pub assigned_again :
      (j k : Job) (pending : JobQueue)
      → job_assign j k.worker_id k.updated_at_ms ≡ ok k
      → get_elem? s.scheduler.jobs (find_slot s.scheduler.jobs k.id) ≡ some j
      → active s.scheduler k.worker_id ≡ none
      → worker_was_allocated index k.worker_id ≡ true
      → peek s.scheduler.pending ≡ ok k.id
      → pop s.scheduler.pending ≡ ok (k.id, pending)
      → (expected s index job_assigned k ≡ ok k)
        × (pending_after s.scheduler.pending job_assigned k k.id ≡ ok pending)
  unfolding expected next_snapshot pending_after
  assigned_again j k pending made there idle given peeked popped = (ground arith, ground arith)

  pub outcome_again :
      (kind : JobRecord) (j k : Job) (q : Scheduler)
      → is_outcome kind ≡ true
      → get_elem? s.scheduler.jobs (find_slot s.scheduler.jobs k.id) ≡ some j
      → next_snapshot s index kind k j ≡ ok k
      → publish_outcome s.scheduler (find_slot s.scheduler.jobs k.id) k ≡ ok q
      → (expected s index kind k ≡ ok k)
        × (pending_after s.scheduler.pending kind k k.id ≡ ok q.pending)
        × ((stored s kind k k q.pending).scheduler ≡ q)
  unfolding expected pending_after stored publish_outcome
  outcome_again job_created j k q o there made published = cc
  outcome_again job_assigned j k q o there made published = cc
  outcome_again _ j k q o there made published = (ground arith, ground arith, ground arith)

pub first_active_unique :
    (js : List Job) (w i : ℕ) (j a : Job)
    → first_active js w ≡ some a
    → get_elem? js i ≡ some j
    → is_active j.state ≡ true
    → j.worker_id ≡ w
    → IsUnique js
    → a ≡ j
unfolding first_active
first_active_unique [] w i j a e there busy own u = cc
first_active_unique (x ∷ js) w zero j a e there busy own u =
    let same = some_inj.0 there in ground (arith, same)
first_active_unique (x ∷ js) w (suc i) j a e there busy own u =
    elim (Bool-cases (x.worker_id == w && is_active x.state)) [
      | inl hit ↦ let clash = All-get (AreApart x) js i there u.0 in absurd (ground arith)
      | inr miss ↦ first_active_unique js w i j a (rw miss at e) there busy own u.1
    ]

-- What a report makes of its job is what the record of the outcome makes of it again.
abbrev pub Again : ReplayState → WorkerIndex → ℕ → ℤ → Job → Job → Type 0
Again s index w t j k =
    (next_snapshot s index (outcome_record k.state) k j ≡ ok k)
    × (is_outcome (outcome_record k.state) ≡ true)
    × (k.updated_at_ms ≡ t)
    × (j.worker_id ≡ w)

module _ (s : ReplayState) (index : WorkerIndex) where
  start-Again :
      (j : Job) (w a : ℕ) (t : ℤ) (k : Job) → job_start j w a t ≡ ok k → Again s index w t j k
  unfolding next_snapshot job_start
  start-Again j w a t k h =
      let (again, now) = job_start_again j w a t k h in
      let state : k.state ≡ running = ground arith in
      (
        subst (λ x. next_snapshot s index (outcome_record x) k j ≡ ok k) (sym state)
            (rw again refl),
        rw state refl,
        now,
        ground arith,
      )

  complete-Again :
      (j : Job) (w a : ℕ) (bytes : List ℕ) (t : ℤ) (k : Job)
      → job_complete j w a (held bytes) t ≡ ok k
      → Again s index w t j k
  unfolding next_snapshot job_complete
  complete-Again j w a bytes t k h =
      let (again, now) = job_complete_again j w a bytes t k h in
      let state : k.state ≡ done = ground arith in
      (
        subst (λ x. next_snapshot s index (outcome_record x) k j ≡ ok k) (sym state)
            (rw again refl),
        rw state refl,
        now,
        ground arith,
      )

  pub fail-Again :
      (j : Job) (w a : ℕ) (f : JobFailure) (t : ℤ) (k : Job)
      → job_fail j w a f t ≡ ok k
      → Again s index w t j k
  unfolding next_snapshot job_fail
  fail-Again j w a f t k h =
      let (again, now) = job_fail_again j w a f t k h in
      elim (Bool-cases (ltb j.retry_count j.max_retries)) [
        | inl left ↦
            let state : k.state ≡ queued = ground arith in
            (
              subst (λ x. next_snapshot s index (outcome_record x) k j ≡ ok k) (sym state)
                  (rw again refl),
              rw state refl,
              now,
              ground arith,
            )
        | inr none_left ↦
            let state : k.state ≡ failed = ground arith in
            (
              subst (λ x. next_snapshot s index (outcome_record x) k j ≡ ok k) (sym state)
                  (rw again refl),
              rw state refl,
              now,
              ground arith,
            )
      ]

  pub apply_report-Again :
      (j : Job) (w : ℕ) (i : JobIdentity) (m : Message) (t : ℤ) (k : Job)
      → apply_report j w i m t ≡ ok k
      → Again s index w t j k
  apply_report-Again j w i (Message.job_started x) t k h =
      start-Again j w i.attempt t k (or_else_ok (job_start j w i.attempt t) _ h)
  apply_report-Again j w i (Message.job_completed p) t k h =
      complete-Again j w i.attempt p.output t k
        (or_else_ok (job_complete j w i.attempt (held p.output) t) _ h)
  apply_report-Again j w i (Message.job_failed p) t k h =
      fail-Again j w i.attempt task t k (ground arith)
  apply_report-Again j w i _ t k h = absurd (ground arith)
