-- ===== src/Protocol/Fields.antt =====
-- common/protocol.c: the parts that the messages share, field by field as they stand in the payload:
-- the identity of an attempt, the entries of the listings, a job's status and the statistics.
use flatline_c.Prelude.{ℕ, zero, suc, List, [], ◌∷◌, ◌++◌, length, drop}
use flatline_c.Bytes.{put_u16, put_u32, put_u64, get_u16, get_u32, get_u64}
use flatline_c.Protocol.Message.{JobIdentity, JobStatus, JobSummary, WorkerSummary, StatsPayload}

unfoldable pub write_identity : JobIdentity → List ℕ
write_identity i = put_u64 i.job_id ++ put_u32 i.worker_id ++ put_u64 i.attempt

unfoldable pub read_identity : List ℕ → JobIdentity
read_identity bytes = record {
  job_id = get_u64 bytes 0;
  worker_id = get_u32 bytes 8;
  attempt = get_u64 bytes 12;
}

unfoldable pub write_job_summary : JobSummary → List ℕ
write_job_summary e =
    put_u64 e.job_id
    ++ put_u16 e.task_type
    ++ put_u16 e.state
    ++ put_u32 e.worker_id
    ++ put_u64 e.attempt
    ++ put_u32 e.retry_count
    ++ put_u32 e.max_retries
    ++ put_u16 e.failure
    ++ put_u32 e.result_size

unfoldable pub read_job_summary : List ℕ → JobSummary
read_job_summary bytes = record {
  job_id = get_u64 bytes 0;
  task_type = get_u16 bytes 8;
  state = get_u16 bytes 10;
  worker_id = get_u32 bytes 12;
  attempt = get_u64 bytes 16;
  retry_count = get_u32 bytes 24;
  max_retries = get_u32 bytes 28;
  failure = get_u16 bytes 32;
  result_size = get_u32 bytes 34;
}

unfoldable pub write_worker_summary : WorkerSummary → List ℕ
write_worker_summary e =
    put_u32 e.worker_id
    ++ put_u16 e.state
    ++ put_u64 e.heartbeat_age_ms
    ++ put_u64 e.job_id
    ++ put_u64 e.attempt

unfoldable pub read_worker_summary : List ℕ → WorkerSummary
read_worker_summary bytes = record {
  worker_id = get_u32 bytes 0;
  state = get_u16 bytes 4;
  heartbeat_age_ms = get_u64 bytes 6;
  job_id = get_u64 bytes 14;
  attempt = get_u64 bytes 22;
}

unfoldable pub write_status : JobStatus → List ℕ
write_status s =
    put_u64 s.job_id
    ++ put_u16 s.state
    ++ put_u32 s.worker_id
    ++ put_u64 s.attempt
    ++ put_u32 s.retry_count
    ++ put_u32 s.max_retries
    ++ put_u16 s.failure
    ++ put_u32 (length s.output)
    ++ s.output

-- The fields of a status, with the result that is copied last.
unfoldable pub read_status : List ℕ → List ℕ → JobStatus
read_status bytes output = record {
  job_id = get_u64 bytes 0;
  state = get_u16 bytes 8;
  worker_id = get_u32 bytes 10;
  attempt = get_u64 bytes 14;
  retry_count = get_u32 bytes 22;
  max_retries = get_u32 bytes 26;
  failure = get_u16 bytes 30;
  output = output;
}

unfoldable pub write_stats : StatsPayload → List ℕ
write_stats s =
    put_u64 s.jobs_submitted_total
    ++ put_u64 s.jobs_queued
    ++ put_u64 s.jobs_assigned
    ++ put_u64 s.jobs_running
    ++ put_u64 s.jobs_completed_total
    ++ put_u64 s.jobs_failed_total
    ++ put_u64 s.job_attempts_total
    ++ put_u64 s.job_retries_total
    ++ put_u64 s.completed_latency_avg_ms
    ++ put_u64 s.workers_retained
    ++ put_u64 s.workers_alive
    ++ put_u64 s.workers_expired
    ++ put_u64 s.workers_dead
    ++ put_u64 s.workers_busy
    ++ put_u64 s.workers_idle
    ++ put_u64 s.session_uptime_ms
    ++ put_u64 s.session_jobs_submitted
    ++ put_u64 s.session_jobs_completed
    ++ put_u64 s.session_jobs_failed
    ++ put_u64 s.session_job_retries
    ++ put_u64 s.startup_jobs_recovered
    ++ put_u64 s.startup_interrupted_jobs
    ++ put_u64 s.startup_duration_ms
    ++ put_u64 s.heartbeat_timeout_ms

unfoldable pub read_stats : List ℕ → StatsPayload
read_stats bytes = record {
  jobs_submitted_total = get_u64 bytes 0;
  jobs_queued = get_u64 bytes 8;
  jobs_assigned = get_u64 bytes 16;
  jobs_running = get_u64 bytes 24;
  jobs_completed_total = get_u64 bytes 32;
  jobs_failed_total = get_u64 bytes 40;
  job_attempts_total = get_u64 bytes 48;
  job_retries_total = get_u64 bytes 56;
  completed_latency_avg_ms = get_u64 bytes 64;
  workers_retained = get_u64 bytes 72;
  workers_alive = get_u64 bytes 80;
  workers_expired = get_u64 bytes 88;
  workers_dead = get_u64 bytes 96;
  workers_busy = get_u64 bytes 104;
  workers_idle = get_u64 bytes 112;
  session_uptime_ms = get_u64 bytes 120;
  session_jobs_submitted = get_u64 bytes 128;
  session_jobs_completed = get_u64 bytes 136;
  session_jobs_failed = get_u64 bytes 144;
  session_job_retries = get_u64 bytes 152;
  startup_jobs_recovered = get_u64 bytes 160;
  startup_interrupted_jobs = get_u64 bytes 168;
  startup_duration_ms = get_u64 bytes 176;
  heartbeat_timeout_ms = get_u64 bytes 184;
}

-- Entries of a listing, each of the size `stride`.
unfoldable pub write_entries : {A : Type 0} → (A → List ℕ) → List A → List ℕ
write_entries write [] = []
write_entries write (e ∷ es) = write e ++ write_entries write es

unfoldable pub read_entries : {A : Type 0} → (List ℕ → A) → ℕ → ℕ → List ℕ → List A
read_entries read stride zero bytes = []
read_entries read stride (suc n) bytes = read bytes ∷ read_entries read stride n (drop stride bytes)
