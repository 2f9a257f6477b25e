-- ===== src/Wal/Replay.antt =====
-- include/wal_replay.h and coordinator/wal_replay.c: the state that a log recovers. A refusal carries
-- the code that the source writes to its report. What `realloc` answers is a parameter.
pub mod Index
pub mod Allocated
pub mod Moves
pub mod Recovered
pub mod Again
pub mod Transitions
pub mod Calls
pub mod Log
pub mod History
pub mod Reads
pub mod File
pub mod Tests
use flatline_c.Prelude.{
  ℕ, ◌+◌, ◌-◌, ◌^◌, Bool, true, false, not, ◌&&◌, ◌||◌, Option, none, some, List, [], ◌∷◌, ◌++◌,
  ltb, leb, ◌==◌, if◌then◌else◌, length, get_elem?, set,
}
use flatline_c.Prelude.Int.{ℤ, pos, ltz}
use flatline_c.Prelude.Result.{Result, Check, ok, err, ◌>>=◌, ◌>>◌, reject, or_else}
use flatline_c.Job.{Job, job_init, job_assign, job_start, job_complete, job_fail}
use flatline_c.JobQueue.{JobQueue, QueueError, peek, pop, push, is_queued}
use flatline_c.Scheduler
use flatline_c.Scheduler.{Scheduler, store_capacity, find_slot, active, held, is_some, next_id}
use flatline_c.WorkerRegistry
use flatline_c.WorkerRegistry.{Registry}
use flatline_c.Wal.Format.{
  JobRecord, job_created, job_assigned, job_started, job_completed, job_requeued, job_failed, Entry,
  worker_id_allocated, job_snapshot, Record, WalError, max_payload_size, record_header_size,
}
use flatline_c.Wal.Codec.{record_encode, same_bytes}
use flatline_c.Wal.Replay.Index.{
  WorkerIndex, HistoryError, ReplayError, bad_history, replay_capacity, allocation, unknown_job,
  unknown_worker, busy_worker, fifo, time, transition, snapshot, index_worker, worker_was_allocated,
}

pub record ReplayState : Type 0 where
  pub scheduler : Scheduler
  pub workers : Registry
  pub last_sequence : ℕ
  pub highest_job_id : ℕ
  pub highest_worker_id : ℕ
  pub job_time_base_ms : ℤ

-- What `calloc` and the two calls of `init` leave.
unfoldable pub init : ReplayState
unfolding Scheduler.init WorkerRegistry.init
init = record {
  scheduler = Scheduler.init;
  workers = WorkerRegistry.init;
  last_sequence = 0;
  highest_job_id = 0;
  highest_worker_id = 0;
  job_time_base_ms = pos 0;
}

abbrev pub max_record_size : ℕ
max_record_size = record_header_size + max_payload_size

abbrev same_result : Result WalError (List ℕ) → List ℕ → Bool
same_result (ok bytes) wire = same_bytes bytes wire
same_result (err e) wire = false

-- `wire` has the size of the record.
unfoldable pub matches_snapshot : Job → JobRecord → ℕ → List ℕ → Bool
matches_snapshot candidate kind sequence wire =
    same_result
      (record_encode max_record_size
        (record { sequence = sequence; entry = job_snapshot kind candidate }))
      wire

abbrev pub peeked_other : Result QueueError ℕ → ℕ → Bool
peeked_other (ok head) id = not (head == id)
peeked_other (err e) id = true

abbrev pub known : Option Job → Result ReplayError Job
known none = err (bad_history unknown_job)
known (some j) = ok j

-- The switch on the type of a record that changes a job which the store has.
unfoldable pub next_snapshot :
    ReplayState → WorkerIndex → JobRecord → Job → Job → Result ReplayError Job
unfolding worker_was_allocated
next_snapshot s index job_created saved job = err (bad_history transition)
next_snapshot s index job_assigned saved job = do
  reject (not (worker_was_allocated index saved.worker_id)) (bad_history unknown_worker)
  reject (is_some (active s.scheduler saved.worker_id)) (bad_history busy_worker)
  reject (peeked_other (peek s.scheduler.pending) saved.id) (bad_history fifo)
  or_else (job_assign job saved.worker_id saved.updated_at_ms) (bad_history transition)
next_snapshot s index job_started saved job =
    or_else (job_start job saved.worker_id saved.attempt saved.updated_at_ms)
      (bad_history transition)
next_snapshot s index job_completed saved job =
    or_else (job_complete job saved.worker_id saved.attempt (held saved.output) saved.updated_at_ms)
      (bad_history transition)
next_snapshot s index job_requeued saved job =
    or_else (job_fail job job.worker_id saved.attempt saved.failure saved.updated_at_ms)
      (bad_history transition)
next_snapshot s index job_failed saved job =
    or_else (job_fail job job.worker_id saved.attempt saved.failure saved.updated_at_ms)
      (bad_history transition)

-- The record that the saved one has to agree with.
unfoldable pub expected : ReplayState → WorkerIndex → JobRecord → Job → Result ReplayError Job
unfolding next_snapshot
expected s index job_created saved = do
  reject (leb saved.id s.highest_job_id) (bad_history allocation)
  reject (length s.scheduler.jobs == store_capacity) replay_capacity
  or_else
      (job_init saved.id saved.task_type (held saved.arguments) saved.max_retries
        saved.created_at_ms)
      (bad_history transition)
expected s index kind saved =
    known (get_elem? s.scheduler.jobs (find_slot s.scheduler.jobs saved.id))
    >>= next_snapshot s index kind saved

abbrev pub taken : Result QueueError (ℕ × JobQueue) → ℕ → Result ReplayError JobQueue
taken (err e) id = err (bad_history fifo)
taken (ok (removed, q)) id = if removed == id then ok q else err (bad_history fifo)

abbrev joined : JobQueue → Job → Result ReplayError JobQueue
joined q candidate =
    if is_queued candidate.state then or_else (push q candidate) (bad_history fifo) else ok q

-- The pending queue after the record.
unfoldable pub pending_after : JobQueue → JobRecord → Job → ℕ → Result ReplayError JobQueue
pending_after q job_assigned candidate id = taken (pop q) id
pending_after q _ candidate id = joined q candidate

-- The slot of a created job is the first free one, since its ID is above those in the store.
unfoldable pub stored : ReplayState → JobRecord → Job → Job → JobQueue → ReplayState
stored s job_created saved candidate pending = record s {
  scheduler = record {
    jobs = s.scheduler.jobs ++ candidate ∷ [];
    next_job_id = next_id saved.id;
    pending = pending;
  };
  highest_job_id = saved.id;
  job_time_base_ms = saved.updated_at_ms;
}
stored s _ saved candidate pending = record s {
  scheduler = record {
    jobs = set s.scheduler.jobs (find_slot s.scheduler.jobs saved.id) candidate;
    next_job_id = s.scheduler.next_job_id;
    pending = pending;
  };
  job_time_base_ms = saved.updated_at_ms;
}

unfoldable pub apply_job :
    ReplayState → WorkerIndex → JobRecord → ℕ → Job → List ℕ → Result ReplayError ReplayState
unfolding expected matches_snapshot pending_after stored
apply_job s index kind sequence saved wire = do
  reject (ltz saved.updated_at_ms s.job_time_base_ms) (bad_history time)
  candidate ← expected s index kind saved
  reject (not (matches_snapshot candidate kind sequence wire)) (bad_history snapshot)
  pending ← pending_after s.scheduler.pending kind candidate saved.id
  ok (stored s kind saved candidate pending)

abbrev pub with_index : WorkerIndex → ReplayState → Result ReplayError (ReplayState × WorkerIndex)
with_index index s = ok (s, index)

module _ (grows : ℕ → Bool) where
  unfoldable pub allocate_worker :
      ReplayState → WorkerIndex → ℕ → Result ReplayError (ReplayState × WorkerIndex)
  allocate_worker s index id = do
    reject (leb id s.highest_worker_id) (bad_history allocation)
    index' ← index_worker grows index id
    ok (
      record s {
        highest_worker_id = id;
        workers = record s.workers { next_worker_id = WorkerRegistry.next_id id };
      },
      index',
    )

  abbrev apply_entry :
      ReplayState
      → WorkerIndex
      → ℕ
      → List ℕ
      → Entry
      → Result ReplayError (ReplayState × WorkerIndex)
  apply_entry s index sequence wire (worker_id_allocated id) = allocate_worker s index id
  apply_entry s index sequence wire (job_snapshot kind saved) =
      apply_job s index kind sequence saved wire >>= with_index index

  -- `wire` has the bytes that the record was decoded from.
  unfoldable pub apply_record :
      ReplayState → WorkerIndex → Record → List ℕ → Result ReplayError (ReplayState × WorkerIndex)
  unfolding allocate_worker apply_job
  apply_record s index r wire = apply_entry s index r.sequence wire r.entry
