-- ===== src/Protocol/Validate.antt =====
-- common/protocol.c: the validation of messages.
use flatline_c.Prelude.{
  ℕ, ◌+◌, ◌-◌, ◌*◌, ◌^◌, Bool, false, not, ◌&&◌, ◌||◌, Option, none, some, List, [], ◌∷◌, any, ltb,
  leb, ◌==◌, if◌then◌else◌, length,
}
use flatline_c.Prelude.Result.{Result, Check, ok, ◌>>=◌, ◌>>◌, reject}
use flatline_c.Job.{max_result_size, task_sleep, task_prime_count, task_fibonacci, task_hash}
use flatline_c.Protocol.Message.{
  Message, JobIdentity, JobStatus, JobSummary, WorkerSummary, WorkersPayload, StatsPayload, ping,
  pong, worker_register, jobs_request, workers_request, stats_request, worker_register_ack,
  heartbeat, job_submit, job_submit_ack, job_assign, job_started, job_completed, job_failed,
  job_status_request, job_status_response, job_status_not_found, jobs_response, workers_response,
  stats_response,
}
use flatline_c.Protocol.Frame.{
  jobs_max_entries, workers_max_entries, job_summary_size, worker_summary_size, ProtocolError,
  message_type, message_payload_bounds, payload_too_large, invalid_payload_length,
  invalid_worker_id, invalid_job_id, invalid_attempt, invalid_task_type, invalid_failure,
  invalid_job_state, invalid_retry_count, invalid_list_count, invalid_list_order,
  invalid_worker_state, invalid_heartbeat_timeout, invalid_stats,
}

abbrev pub valid_task : ℕ → Bool
valid_task t = t == task_sleep || t == task_prime_count || t == task_fibonacci || t == task_hash

unfoldable pub validate_identity : JobIdentity → Check ProtocolError
validate_identity i = do
  reject (i.job_id == 0) invalid_job_id
  reject (i.worker_id == 0) invalid_worker_id
  reject (i.attempt == 0) invalid_attempt
  ok tt

-- QUEUED, DONE and FAILED as numbers.
abbrev queued_code : ℕ
queued_code = 1

abbrev done_code : ℕ
done_code = 4

abbrev failed_code : ℕ
failed_code = 5

abbrev expected_failure : Bool → ℕ → Bool
expected_failure has_failure failure =
    if has_failure then failure == 1 || failure == 2 else failure == 0

-- The check of `validate_job_status`, with the declared size of the result.
unfoldable pub validate_job_status : JobStatus → ℕ → Check ProtocolError
validate_job_status s result_size = do
  let waits = s.state == queued_code
  reject (s.job_id == 0) invalid_job_id
  reject (ltb s.state queued_code || ltb failed_code s.state) invalid_job_state
  reject
      (ltb s.max_retries s.retry_count
        || s.state == failed_code && not (s.retry_count == s.max_retries))
      invalid_retry_count
  reject (waits && not (s.worker_id == 0) || not waits && s.worker_id == 0) invalid_worker_id
  reject (not (s.attempt == s.retry_count + (if waits then 0 else 1))) invalid_attempt
  reject
      (not (expected_failure (s.state == failed_code || waits && not (s.attempt == 0)) s.failure))
      invalid_failure
  reject (not (s.state == done_code) && not (result_size == 0)) invalid_payload_length
  ok tt

abbrev status_of : JobSummary → JobStatus
status_of e = record {
  job_id = e.job_id;
  state = e.state;
  worker_id = e.worker_id;
  attempt = e.attempt;
  retry_count = e.retry_count;
  max_retries = e.max_retries;
  failure = e.failure;
  output = [];
}

-- Not above the ID of the entry before.
abbrev out_of_order : Option ℕ → ℕ → Bool
out_of_order none id = false
out_of_order (some before) id = leb id before

unfoldable pub validate_job_entries : Option ℕ → List JobSummary → Check ProtocolError
validate_job_entries before [] = ok tt
validate_job_entries before (e ∷ es) = do
  validate_job_status (status_of e) e.result_size
  reject (not (valid_task e.task_type)) invalid_task_type
  reject (ltb max_result_size e.result_size) payload_too_large
  reject (out_of_order before e.job_id) invalid_list_order
  validate_job_entries (some e.job_id) es

unfoldable pub validate_jobs : List JobSummary → Check ProtocolError
validate_jobs entries = do
  reject (ltb jobs_max_entries (length entries)) invalid_list_count
  validate_job_entries none entries

unfoldable pub validate_worker_entries : Option ℕ → List WorkerSummary → Check ProtocolError
validate_worker_entries before [] = ok tt
validate_worker_entries before (e ∷ es) = do
  reject (e.worker_id == 0) invalid_worker_id
  reject (not (e.state == 1) && not (e.state == 2)) invalid_worker_state
  reject (e.job_id == 0 && not (e.attempt == 0) || not (e.job_id == 0) && e.attempt == 0)
      invalid_attempt
  reject (e.state == 2 && not (e.job_id == 0)) invalid_job_id
  reject (out_of_order before e.worker_id) invalid_list_order
  validate_worker_entries (some e.worker_id) es

unfoldable pub validate_workers : WorkersPayload → Check ProtocolError
validate_workers list = do
  reject (ltb workers_max_entries (length list.entries)) invalid_list_count
  reject (list.heartbeat_timeout_ms == 0) invalid_heartbeat_timeout
  validate_worker_entries none list.entries

-- Operands are bounded before they are added, so that no sum wraps.
abbrev stats_out_of_bounds : StatsPayload → Bool
stats_out_of_bounds s = any (
    ltb jobs_max_entries s.jobs_submitted_total
    ∷ ltb s.jobs_submitted_total s.jobs_queued
    ∷ ltb s.jobs_submitted_total s.jobs_assigned
    ∷ ltb s.jobs_submitted_total s.jobs_running
    ∷ ltb s.jobs_submitted_total s.jobs_completed_total
    ∷ ltb s.jobs_submitted_total s.jobs_failed_total
    ∷ ltb (s.jobs_submitted_total * (2 ^ 32 - 1)) s.job_retries_total
    ∷ ltb workers_max_entries s.workers_retained
    ∷ ltb s.workers_retained s.workers_alive
    ∷ ltb s.workers_retained s.workers_expired
    ∷ ltb s.workers_retained s.workers_dead
    ∷ ltb s.workers_alive s.workers_busy
    ∷ ltb s.workers_alive s.workers_idle
    ∷ [])

abbrev stats_inconsistent : StatsPayload → Bool
stats_inconsistent s = any (
    not (
      s.jobs_queued + s.jobs_assigned + s.jobs_running + s.jobs_completed_total
        + s.jobs_failed_total
      == s.jobs_submitted_total)
    ∷ not (s.job_attempts_total == s.job_retries_total + s.jobs_submitted_total - s.jobs_queued)
    ∷ not (s.workers_alive + s.workers_expired + s.workers_dead == s.workers_retained)
    ∷ not (s.workers_busy + s.workers_idle == s.workers_alive)
    ∷ ltb (s.jobs_assigned + s.jobs_running) s.workers_busy
    ∷ ltb s.jobs_submitted_total s.startup_jobs_recovered
    ∷ ltb s.startup_jobs_recovered s.startup_interrupted_jobs
    ∷ not (s.session_jobs_submitted == s.jobs_submitted_total - s.startup_jobs_recovered)
    ∷ ltb s.jobs_completed_total s.session_jobs_completed
    ∷ ltb s.jobs_failed_total s.session_jobs_failed
    ∷ ltb s.job_retries_total s.session_job_retries
    ∷ ltb (2 ^ 63 - 1) s.completed_latency_avg_ms
    ∷ (s.jobs_completed_total == 0 && not (s.completed_latency_avg_ms == 0))
    ∷ ltb (2 ^ 63 - 1) s.session_uptime_ms
    ∷ ltb (2 ^ 63 - 1) s.startup_duration_ms
    ∷ (s.heartbeat_timeout_ms == 0)
    ∷ ltb (2 ^ 31 - 1) s.heartbeat_timeout_ms
    ∷ [])

unfoldable pub validate_stats : StatsPayload → Check ProtocolError
validate_stats s = do
  reject (stats_out_of_bounds s) invalid_stats
  reject (stats_inconsistent s) invalid_stats
  ok tt

-- The size of what follows the prefix of a message.
abbrev pub data_size : Message → ℕ
data_size (job_submit p) = length p.arguments
data_size (job_assign p) = length p.arguments
data_size (job_completed p) = length p.output
data_size (job_status_response s) = length s.output
data_size (jobs_response entries) = length entries * job_summary_size
data_size (workers_response list) = length list.entries * worker_summary_size
data_size _ = 0

abbrev check_empty : ℕ → Check ProtocolError
check_empty worker_id = reject (not (worker_id == 0)) invalid_worker_id

-- The switch of `validate_message`, with the check of the identity; `size` is that of the result of a
-- status.
unfoldable pub validate_payload : Message → ℕ → Check ProtocolError
validate_payload (ping w) size = check_empty w
validate_payload (pong w) size = check_empty w
validate_payload (worker_register w) size = check_empty w
validate_payload (jobs_request w) size = check_empty w
validate_payload (workers_request w) size = check_empty w
validate_payload (stats_request w) size = check_empty w
validate_payload (worker_register_ack w) size = reject (w == 0) invalid_worker_id
validate_payload (heartbeat w) size = reject (w == 0) invalid_worker_id
validate_payload (job_submit p) size = reject (not (valid_task p.task_type)) invalid_task_type
validate_payload (job_submit_ack id) size = reject (id == 0) invalid_job_id
validate_payload (job_assign p) size = do
  reject (not (valid_task p.task_type)) invalid_task_type
  validate_identity p.identity
validate_payload (job_started i) size = validate_identity i
validate_payload (job_completed p) size = validate_identity p.identity
validate_payload (job_failed p) size = do
  reject (not (p.failure == 1)) invalid_failure
  validate_identity p.identity
validate_payload (job_status_request id) size = reject (id == 0) invalid_job_id
validate_payload (job_status_response s) size = validate_job_status s size
validate_payload (job_status_not_found id) size = reject (id == 0) invalid_job_id
validate_payload (jobs_response entries) size = validate_jobs entries
validate_payload (workers_response list) size = validate_workers list
validate_payload (stats_response s) size = validate_stats s

-- The size of the payload of a valid message, whose data has the size `size`.
unfoldable pub validate_message : Message → ℕ → Result ProtocolError ℕ
validate_message m size = do
  (minimum, maximum) ← message_payload_bounds (message_type m)
  validate_payload m size
  reject (ltb (maximum - minimum) size) payload_too_large
  ok (minimum + size)
