-- ===== src/Protocol/Codec/PayloadTrip.antt =====
-- What the decoder's switch reads from the payload of each message.
use flatline_c.Prelude.{
  ℕ, ◌+◌, ◌*◌, ◌^◌, ◌≤◌, ◌<◌, ◌≡◌, ◌≢◌, refl, false, List, [], ◌++◌, ltb, ◌==◌, ==_self, length,
  length-append, All, arith,
}
use flatline_c.Prelude.Result.{ok}
use flatline_c.Bytes.{
  put_u16, put_u32, put_u64, get_u16, get_u32, get_u64, u16_of_bytes, u32_of_bytes, u64_of_bytes,
}
use flatline_c.Protocol.Message.{
  Message, JobSummary, WorkersPayload, ping, pong, worker_register, jobs_request, workers_request,
  stats_request, worker_register_ack, heartbeat, job_submit, job_submit_ack, job_assign,
  job_started, job_completed, job_failed, job_status_request, job_status_response,
  job_status_not_found, jobs_response, workers_response, stats_response,
}
use flatline_c.Protocol.Frame.{message_type}
use flatline_c.Protocol.Validate.{data_size}
use flatline_c.Protocol.Codec.{Pending, read_payload, write_payload, read_jobs, read_workers}
use flatline_c.Protocol.Fields.{
  write_entries, write_job_summary, read_job_summary, write_worker_summary, read_worker_summary,
  write_identity, read_identity, write_status, read_status,
}
use flatline_c.Protocol.Codec.Parts.{
  IdentityFits, StatusFits, SummaryFits, WorkerFits, StatsFits, read-write_identity,
  read-write_job_summary, read-write_worker_summary, read-write_stats, drop-job_summary,
  drop-worker_summary, length-job_summary, length-worker_summary, length-write_entries,
  read-write_entries,
}

-- The fields of a message are in the range of their C types.
abbrev pub Fits : Message → Type 0
Fits (worker_register_ack w) = w < 2 ^ 32
Fits (heartbeat w) = w < 2 ^ 32
Fits (job_submit p) = (p.task_type < 2 ^ 16) × (p.max_retries < 2 ^ 32)
Fits (job_submit_ack id) = id < 2 ^ 64
Fits (job_assign p) = IdentityFits p.identity × (p.task_type < 2 ^ 16)
Fits (job_started i) = IdentityFits i
Fits (job_completed p) = IdentityFits p.identity
Fits (job_failed p) = IdentityFits p.identity × (p.failure < 2 ^ 16)
Fits (job_status_request id) = id < 2 ^ 64
Fits (job_status_response s) = StatusFits s
Fits (job_status_not_found id) = id < 2 ^ 64
Fits (jobs_response entries) = All SummaryFits entries
Fits (workers_response list) = (list.heartbeat_timeout_ms < 2 ^ 32) × All WorkerFits list.entries
Fits (stats_response s) = StatsFits s
Fits _ = Unit {0}

-- The bytes that are copied last, and the message with others in their place.
abbrev pub data_of : Message → List ℕ
data_of (job_submit p) = p.arguments
data_of (job_assign p) = p.arguments
data_of (job_completed p) = p.output
data_of (job_status_response s) = s.output
data_of _ = []

abbrev pub with_data_of : Message → List ℕ → Message
with_data_of (job_submit p) bytes = job_submit (record p { arguments = bytes })
with_data_of (job_assign p) bytes = job_assign (record p { arguments = bytes })
with_data_of (job_completed p) bytes = job_completed (record p { output = bytes })
with_data_of (job_status_response s) bytes = job_status_response (record s { output = bytes })
with_data_of m bytes = m

abbrev pub pending_of : Message → Pending
pending_of m = record { size = data_size m; complete = with_data_of m }

pub with_data_of-data_of : (m : Message) → with_data_of m (data_of m) ≡ m
with_data_of-data_of (job_submit p) = refl
with_data_of-data_of (job_assign p) = refl
with_data_of-data_of (job_completed p) = refl
with_data_of-data_of (job_status_response s) = refl
with_data_of-data_of _ = refl

abbrev pub prefix_size : Message → ℕ
prefix_size (worker_register_ack w) = 4
prefix_size (heartbeat w) = 4
prefix_size (job_submit p) = 10
prefix_size (job_submit_ack id) = 8
prefix_size (job_assign p) = 26
prefix_size (job_started i) = 20
prefix_size (job_completed p) = 24
prefix_size (job_failed p) = 22
prefix_size (job_status_request id) = 8
prefix_size (job_status_response s) = 36
prefix_size (job_status_not_found id) = 8
prefix_size (jobs_response entries) = 4
prefix_size (workers_response list) = 8
prefix_size (stats_response s) = 192
prefix_size _ = 0

-- A listing is read whole: its count, its entries and the room that they take.
jobs_read :
    (entries : List JobSummary) (rest : List ℕ)
    → All SummaryFits entries
    → length entries * 38 ≤ 9728
    → read_payload 16 (write_payload (jobs_response entries) ++ rest) (4 + length entries * 38)
      ≡ ok (pending_of (jobs_response entries))
unfolding read_payload write_payload read_jobs put_u32 get_u32
jobs_read entries rest f small =
    let body = write_entries write_job_summary entries in
    let few : ltb 256 (length entries) ≡ false = ground (arith, small) in
    let there : ltb (length ((put_u32 (length entries) ++ body) ++ rest)) (4 + length entries * 38)
        ≡ false =
      ground (
        arith,
        length-append body rest,
        length-write_entries write_job_summary 38 length-job_summary entries,
      ) in
    let back =
      read-write_entries read_job_summary write_job_summary 38 SummaryFits read-write_job_summary
        drop-job_summary entries rest f in
    rw
      (u32_of_bytes (length entries) (omega (arith, small)), few, ==_self (4 + length entries * 38))
      (rw (there, back) refl)

workers_read :
    (list : WorkersPayload) (rest : List ℕ)
    → list.heartbeat_timeout_ms < 2 ^ 32
    → list.heartbeat_timeout_ms ≢ 0
    → All WorkerFits list.entries
    → length list.entries * 30 ≤ 1920
    → read_payload 18 (write_payload (workers_response list) ++ rest) (8 + length list.entries * 30)
      ≡ ok (pending_of (workers_response list))
unfolding read_payload write_payload read_workers put_u32 get_u32
workers_read list rest word positive f small =
    let body = write_entries write_worker_summary list.entries in
    let few : ltb 64 (length list.entries) ≡ false = ground (arith, small) in
    let timed : (list.heartbeat_timeout_ms == 0) ≡ false = ground arith in
    let there : ltb
          (length
            ((put_u32 (length list.entries) ++ put_u32 list.heartbeat_timeout_ms ++ body) ++ rest))
          (8 + length list.entries * 30)
        ≡ false =
      ground (
        arith,
        length-append body rest,
        length-write_entries write_worker_summary 30 length-worker_summary list.entries,
      ) in
    let back =
      read-write_entries read_worker_summary write_worker_summary 30 WorkerFits
        read-write_worker_summary drop-worker_summary list.entries rest f in
    rw
      (
        u32_of_bytes (length list.entries) (omega (arith, small)),
        u32_of_bytes list.heartbeat_timeout_ms word,
        few,
        ==_self (8 + length list.entries * 30),
      )
      (rw (timed, there, back) refl)

-- The most bytes that may follow the prefix of a message.
abbrev pub extra : Message → ℕ
extra (job_submit p) = 1024
extra (job_assign p) = 1024
extra (job_completed p) = 1024
extra (job_status_response s) = 1024
extra (jobs_response entries) = 9728
extra (workers_response list) = 1920
extra _ = 0

-- What the decoder relies on of a validated message.
abbrev pub Checked : Message → Type 0
Checked (ping w) = w ≡ 0
Checked (pong w) = w ≡ 0
Checked (worker_register w) = w ≡ 0
Checked (jobs_request w) = w ≡ 0
Checked (workers_request w) = w ≡ 0
Checked (stats_request w) = w ≡ 0
Checked (workers_response list) = list.heartbeat_timeout_ms ≢ 0
Checked _ = Unit {0}

pub payload_read :
    (m : Message) (rest : List ℕ)
    → Fits m
    → data_size m ≤ extra m
    → Checked m
    → read_payload (message_type m) (write_payload m ++ rest) (prefix_size m + data_size m)
      ≡ ok (pending_of m)
unfolding read_payload write_payload put_u16 put_u32 put_u64 get_u16 get_u32 get_u64 write_identity
    read_identity write_status read_status
payload_read (ping w) rest f small empty = rw empty refl
payload_read (pong w) rest f small empty = rw empty refl
payload_read (worker_register w) rest f small empty = rw empty refl
payload_read (jobs_request w) rest f small empty = rw empty refl
payload_read (workers_request w) rest f small empty = rw empty refl
payload_read (stats_request w) rest f small empty = rw empty refl
payload_read (worker_register_ack w) rest f small timed = rw (u32_of_bytes w f) refl
payload_read (heartbeat w) rest f small timed = rw (u32_of_bytes w f) refl
payload_read (job_submit p) rest f small timed =
    rw
      (
        u16_of_bytes p.task_type f.0,
        u32_of_bytes p.max_retries f.1,
        u32_of_bytes (length p.arguments) (omega (arith, small)),
      )
      refl
payload_read (job_submit_ack id) rest f small timed = rw (u64_of_bytes id f) refl
payload_read (job_assign p) rest f small timed =
    rw
      (
        u64_of_bytes p.identity.job_id f.0.job_id,
        u32_of_bytes p.identity.worker_id f.0.worker_id,
        u64_of_bytes p.identity.attempt f.0.attempt,
        u16_of_bytes p.task_type f.1,
        u32_of_bytes (length p.arguments) (omega (arith, small)),
      )
      refl
payload_read (job_started i) rest f small timed = rw (read-write_identity i rest f) refl
payload_read (job_completed p) rest f small timed =
    rw
      (
        u64_of_bytes p.identity.job_id f.job_id,
        u32_of_bytes p.identity.worker_id f.worker_id,
        u64_of_bytes p.identity.attempt f.attempt,
        u32_of_bytes (length p.output) (omega (arith, small)),
      )
      refl
payload_read (job_failed p) rest f small timed =
    rw
      (
        u64_of_bytes p.identity.job_id f.0.job_id,
        u32_of_bytes p.identity.worker_id f.0.worker_id,
        u64_of_bytes p.identity.attempt f.0.attempt,
        u16_of_bytes p.failure f.1,
      )
      refl
payload_read (job_status_request id) rest f small timed = rw (u64_of_bytes id f) refl
payload_read (job_status_response s) rest f small timed =
    rw
      (
        u64_of_bytes s.job_id f.job_id,
        u16_of_bytes s.state f.state,
        u32_of_bytes s.worker_id f.worker_id,
        u64_of_bytes s.attempt f.attempt,
        u32_of_bytes s.retry_count f.retry_count,
        u32_of_bytes s.max_retries f.max_retries,
        u16_of_bytes s.failure f.failure,
        u32_of_bytes (length s.output) (omega (arith, small)),
      )
      refl
payload_read (job_status_not_found id) rest f small timed = rw (u64_of_bytes id f) refl
payload_read (jobs_response entries) rest f small timed = jobs_read entries rest f small
payload_read (workers_response list) rest f small timed = workers_read list rest f.0 timed f.1 small
payload_read (stats_response s) rest f small timed = rw (read-write_stats s rest f) refl
