-- ===== src/Scheduler.antt =====
-- include/scheduler.h and coordinator/scheduler.c: the store of jobs and the queue of pending ones.
-- `jobs` holds the first `count` slots of the C array, so that `count` is its length.
pub mod Lists
pub mod Invariant
pub mod Tests
use flatline_c.Prelude.{
  ℕ, suc, ◌+◌, ◌-◌, ◌^◌, Bool, true, false, not, ◌&&◌, ◌||◌, Option, none, some, List, [], ◌∷◌,
  ◌++◌, ◌==◌, if◌then◌else◌, length, get_elem?, set,
}
use flatline_c.Prelude.Int.{ℤ, is_neg}
use flatline_c.Prelude.Result.{Result, ok, err, ◌>>=◌, ◌>>◌, reject, or_else}
use flatline_c.Job
use flatline_c.Job.{
  Job, JobState, Bytes, queued, assigned, running, done, failed, job_init, job_start, job_complete,
  job_fail,
}
use flatline_c.JobQueue
use flatline_c.JobQueue.{JobQueue, push, peek, pop, is_queued}
use flatline_c.Protocol.Message
use flatline_c.Protocol.Message.{Message, JobIdentity, JobSubmit}

abbrev pub store_capacity : ℕ
store_capacity = 256

pub record Scheduler : Type 0 where
  pub jobs : List Job
  pub next_job_id : ℕ
  pub pending : JobQueue

pub data SchedulerError : Type 0 where
  invalid_argument full id_exhausted empty worker_busy invalid_job queue_error : SchedulerError

unfoldable pub init : Scheduler
unfolding JobQueue.init
init = record { jobs = []; next_job_id = 1; pending = JobQueue.init }

-- The length of the list means that no slot was found.
unfoldable pub find_slot : List Job → ℕ → ℕ
find_slot [] id = 0
find_slot (j ∷ js) id = if j.id == id then 0 else suc (find_slot js id)

unfoldable pub find : Scheduler → ℕ → Option Job
unfolding find_slot
find s id = if id == 0 then none else get_elem? s.jobs (find_slot s.jobs id)

abbrev pub is_active : JobState → Bool
is_active assigned = true
is_active running = true
is_active _ = false

unfoldable pub first_active : List Job → ℕ → Option Job
first_active [] worker_id = none
first_active (j ∷ js) worker_id =
    if j.worker_id == worker_id && is_active j.state then some j else first_active js worker_id

unfoldable pub active : Scheduler → ℕ → Option Job
unfolding first_active
active s worker_id = if worker_id == 0 then none else first_active s.jobs worker_id

-- A byte array of a payload, which is never NULL.
abbrev pub held : List ℕ → Bytes
held bytes = record { start = some bytes; size = length bytes }

abbrev pub next_id : ℕ → ℕ
next_id id = if id == 2 ^ 64 - 1 then 0 else id + 1

unfoldable pub submit : Scheduler → JobSubmit → ℤ → Result SchedulerError (ℕ × Scheduler)
submit s payload now_ms = do
  reject (is_neg now_ms) invalid_argument
  reject (length s.jobs == store_capacity) full
  reject (s.next_job_id == 0) id_exhausted
  job ←
      or_else
        (job_init s.next_job_id payload.task_type (held payload.arguments) payload.max_retries
          now_ms)
        invalid_job
  pending ← or_else (push s.pending job) queue_error
  ok (job.id, record { jobs = s.jobs ++ job ∷ []; next_job_id = next_id job.id; pending = pending })

abbrev pub is_some : Option Job → Bool
is_some none = false
is_some (some j) = true

-- The record in a slot; past the last one there is none.
abbrev pub job_at : List Job → ℕ → Result SchedulerError Job
job_at js slot = elim (get_elem? js slot) [ none ↦ err invalid_job | some j ↦ ok j ]

abbrev pub assignment : Job → ℕ → Message
assignment j worker_id = Message.job_assign (record {
  identity = record { job_id = j.id; worker_id = worker_id; attempt = j.attempt };
  task_type = j.task_type;
  arguments = j.arguments;
})

unfoldable pub assign : Scheduler → ℕ → ℤ → Result SchedulerError (Message × Scheduler)
assign s worker_id now_ms = do
  reject (worker_id == 0 || is_neg now_ms) invalid_argument
  reject (is_some (active s worker_id)) worker_busy
  id ← or_else (peek s.pending) empty
  job ← job_at s.jobs (find_slot s.jobs id)
  candidate ← or_else (Job.job_assign job worker_id now_ms) invalid_job
  (removed, pending) ← or_else (pop s.pending) queue_error
  ok (
    assignment candidate worker_id,
    record s { jobs = set s.jobs (find_slot s.jobs id) candidate; pending = pending },
  )

-- A job that is queued again joins the queue before its record is stored.
abbrev requeued : JobQueue → Job → JobState → Result SchedulerError JobQueue
requeued q candidate queued = or_else (push q candidate) queue_error
requeued q candidate _ = ok q

unfoldable pub publish_outcome : Scheduler → ℕ → Job → Result SchedulerError Scheduler
publish_outcome s slot candidate = do
  pending ← requeued s.pending candidate candidate.state
  ok (record s { jobs = set s.jobs slot candidate; pending = pending })

abbrev pub report_identity : Message → Result SchedulerError JobIdentity
report_identity (Message.job_started identity) = ok identity
report_identity (Message.job_completed p) = ok p.identity
report_identity (Message.job_failed p) = ok p.identity
report_identity _ = err invalid_argument

abbrev pub apply_report : Job → ℕ → JobIdentity → Message → ℤ → Result SchedulerError Job
apply_report job worker_id identity (Message.job_started i) now_ms =
    or_else (job_start job worker_id identity.attempt now_ms) invalid_job
apply_report job worker_id identity (Message.job_completed p) now_ms =
    or_else (job_complete job worker_id identity.attempt (held p.output) now_ms) invalid_job
apply_report job worker_id identity (Message.job_failed p) now_ms = do
  reject (not (p.failure == 1)) invalid_job
  or_else (job_fail job worker_id identity.attempt Job.task now_ms) invalid_job
apply_report job worker_id identity _ now_ms = err invalid_argument

unfoldable pub report : Scheduler → ℕ → Message → ℤ → Result SchedulerError Scheduler
report s worker_id message now_ms = do
  reject (worker_id == 0 || is_neg now_ms) invalid_argument
  identity ← report_identity message
  reject (not (identity.worker_id == worker_id)) invalid_job
  job ← job_at s.jobs (find_slot s.jobs identity.job_id)
  candidate ← apply_report job worker_id identity message now_ms
  publish_outcome s (find_slot s.jobs identity.job_id) candidate

abbrev job_or_empty : Option Job → Result SchedulerError Job
job_or_empty none = err empty
job_or_empty (some j) = ok j

unfoldable pub worker_lost : Scheduler → ℕ → ℤ → Result SchedulerError Scheduler
worker_lost s worker_id now_ms = do
  reject (worker_id == 0 || is_neg now_ms) invalid_argument
  job ← job_or_empty (active s worker_id)
  candidate ← or_else (job_fail job worker_id job.attempt Job.worker_lost now_ms) invalid_job
  publish_outcome s (find_slot s.jobs candidate.id) candidate
