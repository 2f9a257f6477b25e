-- ===== src/Protocol/Message.antt =====
-- The messages of include/protocol.h, in host order. A byte array and its size field are one list,
-- and so are the entries of a listing and their count.
use flatline_c.Prelude.{ℕ, List}

pub record JobIdentity : Type 0 where
  pub job_id : ℕ
  pub worker_id : ℕ
  pub attempt : ℕ

pub record JobSubmit : Type 0 where
  pub task_type : ℕ
  pub max_retries : ℕ
  pub arguments : List ℕ

pub record JobAssign : Type 0 where
  pub identity : JobIdentity
  pub task_type : ℕ
  pub arguments : List ℕ

pub record JobCompleted : Type 0 where
  pub identity : JobIdentity
  pub output : List ℕ

pub record JobFailed : Type 0 where
  pub identity : JobIdentity
  pub failure : ℕ

pub record JobStatus : Type 0 where
  pub job_id : ℕ
  pub state : ℕ
  pub worker_id : ℕ
  pub attempt : ℕ
  pub retry_count : ℕ
  pub max_retries : ℕ
  pub failure : ℕ
  pub output : List ℕ

pub record JobSummary : Type 0 where
  pub job_id : ℕ
  pub task_type : ℕ
  pub state : ℕ
  pub worker_id : ℕ
  pub attempt : ℕ
  pub retry_count : ℕ
  pub max_retries : ℕ
  pub failure : ℕ
  pub result_size : ℕ

pub record WorkerSummary : Type 0 where
  pub worker_id : ℕ
  pub state : ℕ
  pub heartbeat_age_ms : ℕ
  pub job_id : ℕ
  pub attempt : ℕ

pub record WorkersPayload : Type 0 where
  pub heartbeat_timeout_ms : ℕ
  pub entries : List WorkerSummary

pub record StatsPayload : Type 0 where
  pub jobs_submitted_total : ℕ
  pub jobs_queued : ℕ
  pub jobs_assigned : ℕ
  pub jobs_running : ℕ
  pub jobs_completed_total : ℕ
  pub jobs_failed_total : ℕ
  pub job_attempts_total : ℕ
  pub job_retries_total : ℕ
  pub completed_latency_avg_ms : ℕ
  pub workers_retained : ℕ
  pub workers_alive : ℕ
  pub workers_expired : ℕ
  pub workers_dead : ℕ
  pub workers_busy : ℕ
  pub workers_idle : ℕ
  pub session_uptime_ms : ℕ
  pub session_jobs_submitted : ℕ
  pub session_jobs_completed : ℕ
  pub session_jobs_failed : ℕ
  pub session_job_retries : ℕ
  pub startup_jobs_recovered : ℕ
  pub startup_interrupted_jobs : ℕ
  pub startup_duration_ms : ℕ
  pub heartbeat_timeout_ms : ℕ

-- The tagged union. The messages with an empty payload carry the union's `worker_id`, which is to
-- be 0.
pub data Message : Type 0 where
  ping pong worker_register jobs_request workers_request stats_request : ℕ → Message
  worker_register_ack heartbeat : ℕ → Message
  job_submit : JobSubmit → Message
  job_submit_ack : ℕ → Message
  job_assign : JobAssign → Message
  job_started : JobIdentity → Message
  job_completed : JobCompleted → Message
  job_failed : JobFailed → Message
  job_status_request : ℕ → Message
  job_status_response : JobStatus → Message
  job_status_not_found : ℕ → Message
  jobs_response : List JobSummary → Message
  workers_response : WorkersPayload → Message
  stats_response : StatsPayload → Message
