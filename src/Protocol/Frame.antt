-- ===== src/Protocol/Frame.antt =====
-- include/protocol.h and common/protocol.c: the types of messages, the bounds of their payloads and
-- the validation of a header.
use flatline_c.Prelude.{ℕ, ◌+◌, ◌*◌, Bool, true, false, not, ◌||◌, ltb, ◌==◌, if◌then◌else◌}
use flatline_c.Prelude.Result.{Result, Check, ok, err, ◌>>◌, reject}
use flatline_c.Job.{max_argument_size, max_result_size}
use flatline_c.Protocol.Message.{
  Message, ping, pong, worker_register, jobs_request, workers_request, stats_request,
  worker_register_ack, heartbeat, job_submit, job_submit_ack, job_assign, job_started,
  job_completed, job_failed, job_status_request, job_status_response, job_status_not_found,
  jobs_response, workers_response, stats_response,
}

abbrev pub protocol_magic : ℕ
protocol_magic = 1179404622

abbrev pub protocol_version : ℕ
protocol_version = 1

abbrev pub header_size : ℕ
header_size = 12

abbrev pub max_payload_size : ℕ
max_payload_size = 1048576

abbrev pub jobs_max_entries : ℕ
jobs_max_entries = 256

abbrev pub workers_max_entries : ℕ
workers_max_entries = 64

abbrev pub job_summary_size : ℕ
job_summary_size = 38

abbrev pub worker_summary_size : ℕ
worker_summary_size = 30

pub record Header : Type 0 where
  pub magic : ℕ
  pub version : ℕ
  pub message_type : ℕ
  pub payload_length : ℕ

pub data ProtocolError : Type 0 where
  buffer_too_small bad_magic unsupported_version unknown_message_type payload_too_large
        invalid_payload_length invalid_worker_id invalid_job_id invalid_attempt invalid_task_type
        invalid_failure invalid_job_state invalid_retry_count invalid_list_count invalid_list_order
        invalid_worker_state invalid_heartbeat_timeout invalid_stats :
      ProtocolError

-- Values of `enum faultline_message_type`.
abbrev pub message_type : Message → ℕ
message_type (ping _) = 1
message_type (pong _) = 2
message_type (worker_register _) = 3
message_type (worker_register_ack _) = 4
message_type (heartbeat _) = 5
message_type (job_submit _) = 6
message_type (job_submit_ack _) = 7
message_type (job_assign _) = 8
message_type (job_started _) = 9
message_type (job_completed _) = 10
message_type (job_failed _) = 11
message_type (job_status_request _) = 12
message_type (job_status_response _) = 13
message_type (job_status_not_found _) = 14
message_type (jobs_request _) = 15
message_type (jobs_response _) = 16
message_type (workers_request _) = 17
message_type (workers_response _) = 18
message_type (stats_request _) = 19
message_type (stats_response _) = 20

-- A prefix, with up to so many bytes after it.
abbrev from_to : ℕ → ℕ → Result ProtocolError (ℕ × ℕ)
from_to minimum extra = ok (minimum, minimum + extra)

-- The least and the greatest size of a payload.
unfoldable pub message_payload_bounds : ℕ → Result ProtocolError (ℕ × ℕ)
message_payload_bounds code =
    if code == 1 || code == 2 || code == 3 || code == 15 || code == 17 || code == 19
    then from_to 0 0
    else if code == 4 || code == 5
    then from_to 4 0
    else if code == 6
    then from_to 10 max_argument_size
    else if code == 7
    then from_to 8 0
    else if code == 8
    then from_to 26 max_argument_size
    else if code == 9
    then from_to 20 0
    else if code == 10
    then from_to 24 max_result_size
    else if code == 11
    then from_to 22 0
    else if code == 12
    then from_to 8 0
    else if code == 13
    then from_to 36 max_result_size
    else if code == 14
    then from_to 8 0
    else if code == 16
    then from_to 4 (jobs_max_entries * job_summary_size)
    else if code == 18
    then from_to 8 (workers_max_entries * worker_summary_size)
    else if code == 20
    then from_to 192 0
    else err unknown_message_type

abbrev is_known : Result ProtocolError (ℕ × ℕ) → Bool
is_known (ok b) = true
is_known (err e) = false

unfoldable pub validate_header : Header → Check ProtocolError
validate_header h = do
  reject (not (h.magic == protocol_magic)) bad_magic
  reject (not (h.version == protocol_version)) unsupported_version
  reject (not (is_known (message_payload_bounds h.message_type))) unknown_message_type
  reject (ltb max_payload_size h.payload_length) payload_too_large
  ok tt
