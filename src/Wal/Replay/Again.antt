-- ===== src/Wal/Replay/Again.antt =====
-- Replay of the records that a coordinator writes: each snapshot that a call of
-- coordinator/scheduler.c leaves is accepted, and leads to the store of that call.
use flatline_c.Prelude.{ℕ, ◌≡◌, refl, true, false, List, [], ◌∷◌, arith, ==_self, take-all}
use flatline_c.Prelude.Int.{ℤ, ltz, ◌≤ℤ◌}
use flatline_c.Prelude.Result.{ok}
use flatline_c.Job.{Job, JobFailure, job_init, job_assign, job_start, job_complete, job_fail}
use flatline_c.JobQueue.{JobQueue}
use flatline_c.Scheduler.{held}
use flatline_c.Wal.Format.{JobRecord, job_snapshot}
use flatline_c.Wal.Codec.{record_encode, same_bytes}
use flatline_c.Wal.Replay.Index.{WorkerIndex}
use flatline_c.Wal.Replay.{
  ReplayState, max_record_size, matches_snapshot, expected, pending_after, stored, apply_job,
}

same_bytes_self : (bytes : List ℕ) → same_bytes bytes bytes ≡ true
same_bytes_self [] = refl
same_bytes_self (x ∷ xs) = rw (==_self x) (same_bytes_self xs)

-- The bytes that the writer makes of a snapshot.
abbrev pub Written : JobRecord → ℕ → Job → List ℕ → Type 0
Written kind sequence job wire =
    record_encode max_record_size (record { sequence = sequence; entry = job_snapshot kind job })
    ≡ ok wire

-- A record is accepted when its own snapshot is the expected one.
pub apply_expected :
    (s : ReplayState) (index : WorkerIndex) (kind : JobRecord) (sequence : ℕ) (job : Job)
    (wire : List ℕ) (pending : JobQueue)
    → Written kind sequence job wire
    → s.job_time_base_ms ≤ℤ job.updated_at_ms
    → expected s index kind job ≡ ok job
    → pending_after s.scheduler.pending kind job job.id ≡ ok pending
    → apply_job s index kind sequence job wire ≡ ok (stored s kind job job pending)
unfolding apply_job matches_snapshot
apply_expected s index kind sequence job wire pending written later e p =
    let due : ltz job.updated_at_ms s.job_time_base_ms ≡ false = ground arith in
    rw (due, e, written, same_bytes_self wire, p) refl

-- The calls on the record of a job give it again from what the record itself says.
pub job_init_again :
    (id kind : ℕ) (bytes : List ℕ) (retries : ℕ) (t : ℤ) (k : Job)
    → job_init id kind (held bytes) retries t ≡ ok k
    → (job_init k.id k.task_type (held k.arguments) k.max_retries k.created_at_ms ≡ ok k)
      × (k.updated_at_ms ≡ t)
unfolding job_init
job_init_again id kind bytes retries t k h =
    let same : k.arguments ≡ bytes = ground (arith, take-all bytes) in
    (ground (arith, same, take-all bytes), ground arith)

pub job_assign_again :
    (j : Job) (w : ℕ) (t : ℤ) (k : Job)
    → job_assign j w t ≡ ok k
    → (job_assign j k.worker_id k.updated_at_ms ≡ ok k)
      × (k.worker_id ≡ w)
      × (k.updated_at_ms ≡ t)
      × (k.id ≡ j.id)
unfolding job_assign
job_assign_again j w t k h = (ground arith, ground arith, ground arith, ground arith)

pub job_start_again :
    (j : Job) (w a : ℕ) (t : ℤ) (k : Job)
    → job_start j w a t ≡ ok k
    → (job_start j k.worker_id k.attempt k.updated_at_ms ≡ ok k) × (k.updated_at_ms ≡ t)
unfolding job_start
job_start_again j w a t k h = (ground arith, ground arith)

pub job_complete_again :
    (j : Job) (w a : ℕ) (bytes : List ℕ) (t : ℤ) (k : Job)
    → job_complete j w a (held bytes) t ≡ ok k
    → (job_complete j k.worker_id k.attempt (held k.output) k.updated_at_ms ≡ ok k)
      × (k.updated_at_ms ≡ t)
unfolding job_complete
job_complete_again j w a bytes t k h =
    let same : k.output ≡ bytes = ground (arith, take-all bytes) in
    (ground (arith, same, take-all bytes), ground arith)

pub job_fail_again :
    (j : Job) (w a : ℕ) (f : JobFailure) (t : ℤ) (k : Job)
    → job_fail j w a f t ≡ ok k
    → (job_fail j j.worker_id k.attempt k.failure k.updated_at_ms ≡ ok k) × (k.updated_at_ms ≡ t)
unfolding job_fail
job_fail_again j w a f t k h = (ground arith, ground arith)
