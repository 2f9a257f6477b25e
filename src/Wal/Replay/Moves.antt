-- ===== src/Wal/Replay/Moves.antt =====
-- Each record of a job that replay accepts is a call of coordinator/scheduler.c on the recovered
-- store, so that replay recovers only stores that such calls reach.
use flatline_c.Prelude.{
  Option, ℕ, ◌<◌, ◌≡◌, inl, inr, refl, sym, subst, Bool, Bool-cases, Option-cases, true, false,
  none, some, List, ◌||◌, arith, ◌==◌, get_elem?,
}
use flatline_c.Prelude.Int.{ℤ, ltz, is_neg}
use flatline_c.Prelude.Result.{Result, ok, ◌>>=◌, Result-cases, ok_inj}
use flatline_c.Job.{Job, job_init, job_assign, job_start, job_complete, job_fail}
use flatline_c.Job.Invariant
use flatline_c.JobQueue.{JobQueue, peek, pop}
use flatline_c.Protocol.Message.{Message, JobSubmit}
use flatline_c.Scheduler.{find_slot, held, submit, assign, publish_outcome, assignment}
use flatline_c.Scheduler.Invariant.Submit.{job_init_fields}
use flatline_c.Scheduler.Invariant.Report.{
  IsOutcome, job_start-IsOutcome, job_complete-IsOutcome, job_fail-IsOutcome, or_else_ok,
}
use flatline_c.Wal.Format.{
  JobRecord, job_created, job_assigned, job_started, job_completed, job_requeued, job_failed,
}
use flatline_c.Wal.Replay.Index.{WorkerIndex, ReplayError}
use flatline_c.Wal.Replay.{
  ReplayState, matches_snapshot, next_snapshot, expected, pending_after, stored, apply_job, known,
}

-- The parts of a record that is accepted.
abbrev pub Accepted :
    ReplayState → WorkerIndex → JobRecord → ℕ → Job → List ℕ → ReplayState → Type 0
Accepted s index kind sequence saved wire s' =
    (candidate : Job) × (pending : JobQueue) × (ltz saved.updated_at_ms s.job_time_base_ms ≡ false)
    × (expected s index kind saved ≡ ok candidate)
    × (matches_snapshot candidate kind sequence wire ≡ true)
    × (pending_after s.scheduler.pending kind candidate saved.id ≡ ok pending)
    × (s' ≡ stored s kind saved candidate pending)

pub apply_job_effect :
    (s : ReplayState) (index : WorkerIndex) (kind : JobRecord) (sequence : ℕ) (saved : Job)
    (wire : List ℕ) {s' : ReplayState}
    → apply_job s index kind sequence saved wire ≡ ok s'
    → Accepted s index kind sequence saved wire s'
unfolding apply_job
apply_job_effect s index kind sequence saved wire h =
    elim (Bool-cases (ltz saved.updated_at_ms s.job_time_base_ms)) [
      | inl early ↦ let h' = rw early at h in cc
      | inr late ↦ elim (Result-cases (expected s index kind saved)) [
        | inr (e, f) ↦ let h' = rw (late, f) at h in cc
        | inl (candidate, f) ↦ elim (Bool-cases (matches_snapshot candidate kind sequence wire)) [
          | inr other ↦ let h' = rw (late, f, other) at h in cc
          | inl same ↦
              elim (Result-cases (pending_after s.scheduler.pending kind candidate saved.id)) [
                | inr (e, g) ↦ let h' = rw (late, f, same, g) at h in cc
                | inl (pending, g) ↦
                    let h' = rw (late, f, same, g) at h in
                    (candidate, pending, late, f, same, g, sym (ok_inj h'))
              ]
        ]
      ]
    ]

-- What the client submitted, as the record has it.
abbrev pub submitted : Job → JobSubmit
submitted j = record {
  task_type = j.task_type;
  max_retries = j.max_retries;
  arguments = j.arguments;
}

pub created_move :
    (s : ReplayState) (index : WorkerIndex) (saved candidate : Job) (pending : JobQueue)
    → expected s index job_created saved ≡ ok candidate
    → pending_after s.scheduler.pending job_created candidate saved.id ≡ ok pending
    → (s.highest_job_id < saved.id)
      × (submit
            (record s.scheduler { next_job_id = saved.id })
            (submitted saved)
            saved.created_at_ms
          ≡ ok (saved.id, (stored s job_created saved candidate pending).scheduler))
unfolding expected pending_after stored submit
created_move s index saved candidate pending e p =
    elim (Result-cases (
      job_init saved.id saved.task_type (held saved.arguments) saved.max_retries
        saved.created_at_ms)) [
          | inr (x, f) ↦ absurd (ground arith)
          | inl (j, f) ↦
              let same : j ≡ candidate = ground arith in
              let (id, waits, free, positive, clock) =
                job_init_fields saved.id saved.task_type (held saved.arguments) saved.max_retries
                  saved.created_at_ms f in
              (ground arith, ground arith)
        ]

job_assign_arguments :
    (j : Job) (w : ℕ) (t : ℤ) {k : Job} → job_assign j w t ≡ ok k → (w == 0 || is_neg t) ≡ false
unfolding job_assign
job_assign_arguments j w t h = ground arith

pub assigned_move :
    (s : ReplayState) (index : WorkerIndex) (saved candidate : Job) (pending : JobQueue)
    → expected s index job_assigned saved ≡ ok candidate
    → pending_after s.scheduler.pending job_assigned candidate saved.id ≡ ok pending
    → (m : Message) × (assign s.scheduler saved.worker_id saved.updated_at_ms
        ≡ ok (m, (stored s job_assigned saved candidate pending).scheduler))
unfolding expected next_snapshot pending_after stored assign
assigned_move s index saved candidate pending e p = elim (Result-cases (peek s.scheduler.pending)) [
  | inr (x, f) ↦ absurd (ground arith)
  | inl (id, f) ↦
      elim (Option-cases (get_elem? s.scheduler.jobs (find_slot s.scheduler.jobs saved.id))) [
        | inl g ↦ absurd (ground arith)
        | inr (job, g) ↦ elim (Result-cases (job_assign job saved.worker_id saved.updated_at_ms)) [
          | inr (x, k) ↦ absurd (ground arith)
          | inl (j, k) ↦ elim (Result-cases (pop s.scheduler.pending)) [
            | inr (x, l) ↦ absurd (ground arith)
            | inl ((removed, q), l) ↦
                let good = job_assign_arguments job saved.worker_id saved.updated_at_ms k in
                let same : j ≡ candidate = ground arith in
                let head : id ≡ saved.id = ground arith in
                let there =
                  subst (λ x. get_elem? s.scheduler.jobs (find_slot s.scheduler.jobs x) ≡ some job)
                    (sym head) g in
                (assignment j saved.worker_id, ground arith)
          ]
        ]
      ]
]

-- The records that report what became of an attempt under way.
abbrev pub is_outcome : JobRecord → Bool
is_outcome job_created = false
is_outcome job_assigned = false
is_outcome _ = true

known_effect :
    (o : Option Job) (f : Job → Result ReplayError Job) {k : Job}
    → (known o >>= f) ≡ ok k
    → (j : Job) × (o ≡ some j) × (f j ≡ ok k)
known_effect none f h = cc
known_effect (some j) f h = (j, refl, h)

pub IsOutcome-of :
    (s : ReplayState) (index : WorkerIndex) (kind : JobRecord) (saved job k : Job)
    → is_outcome kind ≡ true
    → next_snapshot s index kind saved job ≡ ok k
    → Invariant.IsValid job
    → IsOutcome job k
unfolding next_snapshot
IsOutcome-of s index job_created saved job k o h v = cc
IsOutcome-of s index job_assigned saved job k o h v = cc
IsOutcome-of s index job_started saved job k o h v =
    job_start-IsOutcome job saved.worker_id saved.attempt saved.updated_at_ms k
      (or_else_ok (job_start job saved.worker_id saved.attempt saved.updated_at_ms) _ h) v
IsOutcome-of s index job_completed saved job k o h v =
    job_complete-IsOutcome job saved.worker_id saved.attempt (held saved.output) saved.updated_at_ms
      k
      (or_else_ok
        (job_complete job saved.worker_id saved.attempt (held saved.output) saved.updated_at_ms) _
        h)
      v
IsOutcome-of s index job_requeued saved job k o h v =
    job_fail-IsOutcome job job.worker_id saved.attempt saved.failure saved.updated_at_ms k
      (or_else_ok (job_fail job job.worker_id saved.attempt saved.failure saved.updated_at_ms) _ h)
      v
IsOutcome-of s index job_failed saved job k o h v =
    job_fail-IsOutcome job job.worker_id saved.attempt saved.failure saved.updated_at_ms k
      (or_else_ok (job_fail job job.worker_id saved.attempt saved.failure saved.updated_at_ms) _ h)
      v

pub expected_outcome :
    (s : ReplayState) (index : WorkerIndex) (kind : JobRecord) (saved : Job) {k : Job}
    → is_outcome kind ≡ true
    → expected s index kind saved ≡ ok k
    → (j : Job) × (get_elem? s.scheduler.jobs (find_slot s.scheduler.jobs saved.id) ≡ some j)
      × (next_snapshot s index kind saved j ≡ ok k)
unfolding expected
expected_outcome s index job_created saved o e = cc
expected_outcome s index job_assigned saved o e = cc
expected_outcome s index kind saved o e =
    known_effect (get_elem? s.scheduler.jobs (find_slot s.scheduler.jobs saved.id))
      (next_snapshot s index kind saved) e

pub joined-publish_outcome :
    (s : ReplayState) (kind : JobRecord) (saved k : Job) (pending : JobQueue)
    → is_outcome kind ≡ true
    → pending_after s.scheduler.pending kind k saved.id ≡ ok pending
    → publish_outcome s.scheduler (find_slot s.scheduler.jobs saved.id) k
      ≡ ok (stored s kind saved k pending).scheduler
unfolding pending_after stored publish_outcome
joined-publish_outcome s job_created saved k pending o p = cc
joined-publish_outcome s job_assigned saved k pending o p = cc
joined-publish_outcome s kind saved k pending o p = ground arith
