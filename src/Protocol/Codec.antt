-- ===== src/Protocol/Codec.antt =====
-- common/protocol.c: the codecs of headers and of messages. A pointer to bytes with the number of
-- those available is one list, and an encoder yields the bytes that it writes.
pub mod HeaderTrip
pub mod Parts
pub mod PayloadTrip
pub mod RoundTrip
use flatline_c.Prelude.{
  ℕ, zero, suc, ◌+◌, ◌-◌, ◌*◌, Bool, true, false, not, ◌&&◌, ◌||◌, Option, none, some, List, [],
  ◌∷◌, ◌++◌, ltb, ◌==◌, if◌then◌else◌, length, take, drop,
}
use flatline_c.Prelude.Result.{Result, ok, err, ◌>>=◌, ◌>>◌, reject}
use flatline_c.Bytes.{put_u16, put_u32, put_u64, get_u16, get_u32, get_u64}
use flatline_c.Protocol.Message.{
  Message, JobIdentity, JobSubmit, JobAssign, JobCompleted, JobFailed, JobStatus, JobSummary,
  WorkerSummary, WorkersPayload, StatsPayload, ping, pong, worker_register, jobs_request,
  workers_request, stats_request, worker_register_ack, heartbeat, job_submit, job_submit_ack,
  job_assign, job_started, job_completed, job_failed, job_status_request, job_status_response,
  job_status_not_found, jobs_response, workers_response, stats_response,
}
use flatline_c.Protocol.Frame.{
  protocol_magic, protocol_version, header_size, jobs_max_entries, workers_max_entries,
  job_summary_size, worker_summary_size, Header, ProtocolError, buffer_too_small, payload_too_large,
  invalid_payload_length, invalid_list_count, invalid_heartbeat_timeout, unknown_message_type,
  message_type, message_payload_bounds, validate_header,
}
use flatline_c.Protocol.Validate.{data_size, validate_message}
use flatline_c.Protocol.Fields.{
  write_identity, read_identity, write_job_summary, read_job_summary, write_worker_summary,
  read_worker_summary, write_status, read_status, write_stats, read_stats, write_entries,
  read_entries,
}

unfoldable pub header_bytes : Header → List ℕ
header_bytes h =
    put_u32 h.magic ++ put_u16 h.version ++ put_u16 h.message_type ++ put_u32 h.payload_length

unfoldable pub header_encode : ℕ → Header → Result ProtocolError (List ℕ)
header_encode wire_size h = do
  reject (ltb wire_size header_size) buffer_too_small
  validate_header h
  ok (header_bytes h)

unfoldable pub read_header : List ℕ → Header
read_header wire = record {
  magic = get_u32 wire 0;
  version = get_u16 wire 4;
  message_type = get_u16 wire 6;
  payload_length = get_u32 wire 8;
}

unfoldable pub header_decode : List ℕ → Result ProtocolError Header
header_decode wire = do
  reject (ltb (length wire) header_size) buffer_too_small
  validate_header (read_header wire)
  ok (read_header wire)

unfoldable pub write_payload : Message → List ℕ
write_payload (worker_register_ack w) = put_u32 w
write_payload (heartbeat w) = put_u32 w
write_payload (job_submit p) =
    put_u16 p.task_type ++ put_u32 p.max_retries ++ put_u32 (length p.arguments) ++ p.arguments
write_payload (job_submit_ack id) = put_u64 id
write_payload (job_assign p) =
    write_identity p.identity ++ put_u16 p.task_type ++ put_u32 (length p.arguments) ++ p.arguments
write_payload (job_started i) = write_identity i
write_payload (job_completed p) = write_identity p.identity ++ put_u32 (length p.output) ++ p.output
write_payload (job_failed p) = write_identity p.identity ++ put_u16 p.failure
write_payload (job_status_request id) = put_u64 id
write_payload (job_status_response s) = write_status s
write_payload (job_status_not_found id) = put_u64 id
write_payload (jobs_response entries) =
    put_u32 (length entries) ++ write_entries write_job_summary entries
write_payload (workers_response list) =
    put_u32 (length list.entries)
    ++ put_u32 list.heartbeat_timeout_ms
    ++ write_entries write_worker_summary list.entries
write_payload (stats_response s) = write_stats s
write_payload _ = []

abbrev pub header_for : Message → ℕ → Header
header_for m size = record {
  magic = protocol_magic;
  version = protocol_version;
  message_type = message_type m;
  payload_length = size;
}

unfoldable pub message_encode : ℕ → Message → Result ProtocolError (List ℕ)
message_encode wire_size m = do
  size ← validate_message m (data_size m)
  reject (ltb wire_size (header_size + size)) buffer_too_small
  header ← header_encode wire_size (header_for m size)
  ok (header ++ write_payload m)

-- A message whose data are copied last: their declared size, and the message with them.
pub record Pending : Type 0 where
  pub size : ℕ
  pub complete : List ℕ → Message

abbrev fixed : Message → Result ProtocolError Pending
fixed m = ok (record { size = 0; complete = λ rest. m })

abbrev with_data : ℕ → (List ℕ → Message) → Result ProtocolError Pending
with_data size complete = ok (record { size = size; complete = complete })

-- A listing is read when all of it is there.
unfoldable pub read_jobs : List ℕ → ℕ → Result ProtocolError Pending
read_jobs payload payload_length = do
  reject (ltb jobs_max_entries (get_u32 payload 0)) invalid_list_count
  reject (not (payload_length == 4 + get_u32 payload 0 * job_summary_size)) invalid_payload_length
  reject (ltb (length payload) payload_length) buffer_too_small
  ok (record {
    size = get_u32 payload 0 * job_summary_size;
    complete = λ rest.
        jobs_response
          (read_entries read_job_summary job_summary_size (get_u32 payload 0) (drop 4 payload));
  })

unfoldable pub read_workers : List ℕ → ℕ → Result ProtocolError Pending
read_workers payload payload_length = do
  reject (ltb workers_max_entries (get_u32 payload 0)) invalid_list_count
  reject (not (payload_length == 8 + get_u32 payload 0 * worker_summary_size))
      invalid_payload_length
  reject (get_u32 payload 4 == 0) invalid_heartbeat_timeout
  reject (ltb (length payload) payload_length) buffer_too_small
  ok (record {
    size = get_u32 payload 0 * worker_summary_size;
    complete = λ rest. workers_response (record {
      heartbeat_timeout_ms = get_u32 payload 4;
      entries =
          read_entries read_worker_summary worker_summary_size (get_u32 payload 0) (drop 8 payload);
    });
  })

-- The switch of `faultline_message_decode`.
unfoldable pub read_payload : ℕ → List ℕ → ℕ → Result ProtocolError Pending
read_payload code payload payload_length =
    if code == 1
    then fixed (ping 0)
    else if code == 2
    then fixed (pong 0)
    else if code == 3
    then fixed (worker_register 0)
    else if code == 4
    then fixed (worker_register_ack (get_u32 payload 0))
    else if code == 5
    then fixed (heartbeat (get_u32 payload 0))
    else if code == 6
    then with_data (get_u32 payload 6) (λ rest.
      job_submit (record {
        task_type = get_u16 payload 0;
        max_retries = get_u32 payload 2;
        arguments = rest;
      }))
    else if code == 7
    then fixed (job_submit_ack (get_u64 payload 0))
    else if code == 8
    then with_data (get_u32 payload 22) (λ rest. job_assign (record {
      identity = read_identity payload;
      task_type = get_u16 payload 20;
      arguments = rest;
    }))
    else if code == 9
    then fixed (job_started (read_identity payload))
    else if code == 10
    then with_data (get_u32 payload 20)
        (λ rest. job_completed (record { identity = read_identity payload; output = rest }))
    else if code == 11
    then fixed
        (job_failed (record { identity = read_identity payload; failure = get_u16 payload 20 }))
    else if code == 12
    then fixed (job_status_request (get_u64 payload 0))
    else if code == 13
    then with_data (get_u32 payload 32) (λ rest. job_status_response (read_status payload rest))
    else if code == 14
    then fixed (job_status_not_found (get_u64 payload 0))
    else if code == 15
    then fixed (jobs_request 0)
    else if code == 16
    then read_jobs payload payload_length
    else if code == 17
    then fixed (workers_request 0)
    else if code == 18
    then read_workers payload payload_length
    else if code == 19
    then fixed (stats_request 0)
    else if code == 20
    then fixed (stats_response (read_stats payload))
    else err unknown_message_type

unfoldable pub message_decode : List ℕ → Result ProtocolError (Message × ℕ)
message_decode wire = do
  header ← header_decode wire
  (minimum, maximum) ← message_payload_bounds header.message_type
  reject
      (ltb header.payload_length minimum
        || minimum == maximum && not (header.payload_length == minimum))
      invalid_payload_length
  reject (ltb maximum header.payload_length) payload_too_large
  reject (ltb (length wire) (header_size + minimum)) buffer_too_small
  pending ← read_payload header.message_type (drop header_size wire) header.payload_length
  expected ← validate_message (pending.complete []) pending.size
  reject (not (header.payload_length == expected)) invalid_payload_length
  reject (ltb (length wire) (header_size + expected)) buffer_too_small
  ok (
    pending.complete (take (expected - minimum) (drop minimum (drop header_size wire))),
    header_size + expected,
  )
