-- ===== src/Protocol/Codec/Parts.antt =====
-- The parts of payloads: identities, statuses, entries of listings and statistics.
use flatline_c.Prelude.{
  ℕ, ◌*◌, ◌^◌, ◌<◌, ◌≡◌, refl, ap, List, [], ◌∷◌, ◌++◌, append_assoc, length, length-append, drop,
  All, arith,
}
use flatline_c.Bytes.{
  put_u16, put_u32, put_u64, get_u16, get_u32, get_u64, u16_of_bytes, u32_of_bytes, u64_of_bytes,
}
use flatline_c.Protocol.Message.{JobIdentity, JobStatus, JobSummary, WorkerSummary, StatsPayload}
use flatline_c.Protocol.Fields.{
  write_identity, read_identity, write_job_summary, read_job_summary, write_worker_summary,
  read_worker_summary, write_status, read_status, write_stats, read_stats, write_entries,
  read_entries,
}

pub record IdentityFits (i : JobIdentity) : Type 0 where
  pub job_id : i.job_id < 2 ^ 64
  pub worker_id : i.worker_id < 2 ^ 32
  pub attempt : i.attempt < 2 ^ 64

pub record StatusFits (s : JobStatus) : Type 0 where
  pub job_id : s.job_id < 2 ^ 64
  pub state : s.state < 2 ^ 16
  pub worker_id : s.worker_id < 2 ^ 32
  pub attempt : s.attempt < 2 ^ 64
  pub retry_count : s.retry_count < 2 ^ 32
  pub max_retries : s.max_retries < 2 ^ 32
  pub failure : s.failure < 2 ^ 16

pub record SummaryFits (e : JobSummary) : Type 0 where
  pub job_id : e.job_id < 2 ^ 64
  pub task_type : e.task_type < 2 ^ 16
  pub state : e.state < 2 ^ 16
  pub worker_id : e.worker_id < 2 ^ 32
  pub attempt : e.attempt < 2 ^ 64
  pub retry_count : e.retry_count < 2 ^ 32
  pub max_retries : e.max_retries < 2 ^ 32
  pub failure : e.failure < 2 ^ 16
  pub result_size : e.result_size < 2 ^ 32

pub record WorkerFits (e : WorkerSummary) : Type 0 where
  pub worker_id : e.worker_id < 2 ^ 32
  pub state : e.state < 2 ^ 16
  pub heartbeat_age_ms : e.heartbeat_age_ms < 2 ^ 64
  pub job_id : e.job_id < 2 ^ 64
  pub attempt : e.attempt < 2 ^ 64

pub record StatsFits (s : StatsPayload) : Type 0 where
  pub jobs_submitted_total : s.jobs_submitted_total < 2 ^ 64
  pub jobs_queued : s.jobs_queued < 2 ^ 64
  pub jobs_assigned : s.jobs_assigned < 2 ^ 64
  pub jobs_running : s.jobs_running < 2 ^ 64
  pub jobs_completed_total : s.jobs_completed_total < 2 ^ 64
  pub jobs_failed_total : s.jobs_failed_total < 2 ^ 64
  pub job_attempts_total : s.job_attempts_total < 2 ^ 64
  pub job_retries_total : s.job_retries_total < 2 ^ 64
  pub completed_latency_avg_ms : s.completed_latency_avg_ms < 2 ^ 64
  pub workers_retained : s.workers_retained < 2 ^ 64
  pub workers_alive : s.workers_alive < 2 ^ 64
  pub workers_expired : s.workers_expired < 2 ^ 64
  pub workers_dead : s.workers_dead < 2 ^ 64
  pub workers_busy : s.workers_busy < 2 ^ 64
  pub workers_idle : s.workers_idle < 2 ^ 64
  pub session_uptime_ms : s.session_uptime_ms < 2 ^ 64
  pub session_jobs_submitted : s.session_jobs_submitted < 2 ^ 64
  pub session_jobs_completed : s.session_jobs_completed < 2 ^ 64
  pub session_jobs_failed : s.session_jobs_failed < 2 ^ 64
  pub session_job_retries : s.session_job_retries < 2 ^ 64
  pub startup_jobs_recovered : s.startup_jobs_recovered < 2 ^ 64
  pub startup_interrupted_jobs : s.startup_interrupted_jobs < 2 ^ 64
  pub startup_duration_ms : s.startup_duration_ms < 2 ^ 64
  pub heartbeat_timeout_ms : s.heartbeat_timeout_ms < 2 ^ 64

pub read-write_identity :
    (i : JobIdentity) (rest : List ℕ)
    → IdentityFits i
    → read_identity (write_identity i ++ rest) ≡ i
unfolding read_identity write_identity put_u32 put_u64 get_u32 get_u64
read-write_identity i rest f =
    rw
      (
        u64_of_bytes i.job_id f.job_id,
        u32_of_bytes i.worker_id f.worker_id,
        u64_of_bytes i.attempt f.attempt,
      )
      refl

pub read-write_status :
    (s : JobStatus) (rest output : List ℕ)
    → StatusFits s
    → read_status (write_status s ++ rest) output ≡ record s { output = output }
unfolding read_status write_status put_u16 put_u32 put_u64 get_u16 get_u32 get_u64
read-write_status s rest output f =
    rw
      (
        u64_of_bytes s.job_id f.job_id,
        u16_of_bytes s.state f.state,
        u32_of_bytes s.worker_id f.worker_id,
        u64_of_bytes s.attempt f.attempt,
        u32_of_bytes s.retry_count f.retry_count,
        u32_of_bytes s.max_retries f.max_retries,
        u16_of_bytes s.failure f.failure,
      )
      refl

pub read-write_job_summary :
    (e : JobSummary) (rest : List ℕ)
    → SummaryFits e
    → read_job_summary (write_job_summary e ++ rest) ≡ e
unfolding read_job_summary write_job_summary put_u16 put_u32 put_u64 get_u16 get_u32 get_u64
read-write_job_summary e rest f =
    rw
      (
        u64_of_bytes e.job_id f.job_id,
        u16_of_bytes e.task_type f.task_type,
        u16_of_bytes e.state f.state,
        u32_of_bytes e.worker_id f.worker_id,
        u64_of_bytes e.attempt f.attempt,
        u32_of_bytes e.retry_count f.retry_count,
        u32_of_bytes e.max_retries f.max_retries,
        u16_of_bytes e.failure f.failure,
        u32_of_bytes e.result_size f.result_size,
      )
      refl

pub read-write_worker_summary :
    (e : WorkerSummary) (rest : List ℕ)
    → WorkerFits e
    → read_worker_summary (write_worker_summary e ++ rest) ≡ e
unfolding read_worker_summary write_worker_summary put_u16 put_u32 put_u64 get_u16 get_u32 get_u64
read-write_worker_summary e rest f =
    rw
      (
        u32_of_bytes e.worker_id f.worker_id,
        u16_of_bytes e.state f.state,
        u64_of_bytes e.heartbeat_age_ms f.heartbeat_age_ms,
        u64_of_bytes e.job_id f.job_id,
        u64_of_bytes e.attempt f.attempt,
      )
      refl

pub read-write_stats :
    (s : StatsPayload) (rest : List ℕ) → StatsFits s → read_stats (write_stats s ++ rest) ≡ s
unfolding read_stats write_stats put_u32 put_u64 get_u32 get_u64
read-write_stats s rest f =
    rw
      (
        u64_of_bytes s.jobs_submitted_total f.jobs_submitted_total,
        u64_of_bytes s.jobs_queued f.jobs_queued,
        u64_of_bytes s.jobs_assigned f.jobs_assigned,
        u64_of_bytes s.jobs_running f.jobs_running,
        u64_of_bytes s.jobs_completed_total f.jobs_completed_total,
        u64_of_bytes s.jobs_failed_total f.jobs_failed_total,
        u64_of_bytes s.job_attempts_total f.job_attempts_total,
        u64_of_bytes s.job_retries_total f.job_retries_total,
        u64_of_bytes s.completed_latency_avg_ms f.completed_latency_avg_ms,
        u64_of_bytes s.workers_retained f.workers_retained,
        u64_of_bytes s.workers_alive f.workers_alive,
        u64_of_bytes s.workers_expired f.workers_expired,
        u64_of_bytes s.workers_dead f.workers_dead,
        u64_of_bytes s.workers_busy f.workers_busy,
        u64_of_bytes s.workers_idle f.workers_idle,
        u64_of_bytes s.session_uptime_ms f.session_uptime_ms,
        u64_of_bytes s.session_jobs_submitted f.session_jobs_submitted,
        u64_of_bytes s.session_jobs_completed f.session_jobs_completed,
        u64_of_bytes s.session_jobs_failed f.session_jobs_failed,
        u64_of_bytes s.session_job_retries f.session_job_retries,
        u64_of_bytes s.startup_jobs_recovered f.startup_jobs_recovered,
        u64_of_bytes s.startup_interrupted_jobs f.startup_interrupted_jobs,
        u64_of_bytes s.startup_duration_ms f.startup_duration_ms,
        u64_of_bytes s.heartbeat_timeout_ms f.heartbeat_timeout_ms,
      )
      refl

pub drop-job_summary :
    (e : JobSummary) (rest : List ℕ) → drop 38 (write_job_summary e ++ rest) ≡ rest
unfolding write_job_summary put_u16 put_u32 put_u64
drop-job_summary e rest = refl

pub drop-worker_summary :
    (e : WorkerSummary) (rest : List ℕ) → drop 30 (write_worker_summary e ++ rest) ≡ rest
unfolding write_worker_summary put_u16 put_u32 put_u64
drop-worker_summary e rest = refl

pub length-job_summary : (e : JobSummary) → length (write_job_summary e) ≡ 38
unfolding write_job_summary put_u16 put_u32 put_u64
length-job_summary e = refl

pub length-worker_summary : (e : WorkerSummary) → length (write_worker_summary e) ≡ 30
unfolding write_worker_summary put_u16 put_u32 put_u64
length-worker_summary e = refl

pub length-write_entries :
    {A : Type 0} (write : A → List ℕ) (stride : ℕ)
    → ((e : A) → length (write e) ≡ stride)
    → (es : List A) → length (write_entries write es) ≡ length es * stride
unfolding write_entries
length-write_entries write stride same [] = omega arith
length-write_entries write stride same (e ∷ es) = omega (
  arith,
  length-append (write e) (write_entries write es),
  same e,
  length-write_entries write stride same es,
)

-- Entries that are read back one by one are read back together.
pub read-write_entries :
    {A : Type 0} (read : List ℕ → A) (write : A → List ℕ) (stride : ℕ) (P : A → Type 0)
    → ((e : A) (rest : List ℕ) → P e → read (write e ++ rest) ≡ e)
    → ((e : A) (rest : List ℕ) → drop stride (write e ++ rest) ≡ rest)
    → (es : List A) (rest : List ℕ) → All P es
    → read_entries read stride (length es) (write_entries write es ++ rest) ≡ es
unfolding read_entries write_entries
read-write_entries read write stride P back next [] rest h = refl
read-write_entries read write stride P back next (e ∷ es) rest h =
    let tail = write_entries write es ++ rest in
    rw (append_assoc (write e) (write_entries write es) rest, back e tail h.0, next e tail)
      (ap (◌∷◌ e) (read-write_entries read write stride P back next es rest h.1))
