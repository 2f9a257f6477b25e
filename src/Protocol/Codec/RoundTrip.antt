-- ===== src/Protocol/Codec/RoundTrip.antt =====
-- The round trip of messages.
use flatline_c.Prelude.{
  ℕ, ◌+◌, ◌-◌, ◌^◌, ◌≤◌, ◌<◌, ◌≡◌, refl, sym, ap, subst, Bool-cases, inl, inr, false, not, ◌&&◌,
  ◌||◌, List, [], ◌++◌, append_assoc, ltb, ◌==◌, ==_self, length, length-append, take, drop,
  take-append, arith,
}
use flatline_c.Prelude.Result.{ok, Result-cases, ok_inj}
use flatline_c.Bytes.{put_u16, put_u32, put_u64}
use flatline_c.Protocol.Message.{
  Message, ping, pong, worker_register, jobs_request, workers_request, stats_request,
  worker_register_ack, heartbeat, job_submit, job_submit_ack, job_assign, job_started,
  job_completed, job_failed, job_status_request, job_status_response, job_status_not_found,
  jobs_response, workers_response, stats_response,
}
use flatline_c.Protocol.Frame.{message_type, message_payload_bounds, validate_header}
use flatline_c.Protocol.Validate.{data_size, validate_message, validate_payload, validate_workers}
use flatline_c.Protocol.Codec.{
  Pending, header_bytes, header_for, message_encode, message_decode, read_payload, write_payload,
}
use flatline_c.Protocol.Fields.{
  write_identity, write_status, write_stats, write_job_summary, write_worker_summary,
}
use flatline_c.Protocol.Codec.HeaderTrip
use flatline_c.Protocol.Codec.HeaderTrip.{header_decoded, header_encode_effect, length-header_bytes}
use flatline_c.Protocol.Codec.Parts.{
  length-job_summary, length-worker_summary, length-write_entries,
}
use flatline_c.Protocol.Codec.PayloadTrip.{
  Fits, Checked, with_data_of, prefix_size, extra, payload_read,
}

payload_bounds :
    (m : Message)
    → message_payload_bounds (message_type m) ≡ ok (prefix_size m, prefix_size m + extra m)
unfolding message_payload_bounds
payload_bounds (ping w) = refl
payload_bounds (pong w) = refl
payload_bounds (worker_register w) = refl
payload_bounds (jobs_request w) = refl
payload_bounds (workers_request w) = refl
payload_bounds (stats_request w) = refl
payload_bounds (worker_register_ack w) = refl
payload_bounds (heartbeat w) = refl
payload_bounds (job_submit p) = refl
payload_bounds (job_submit_ack id) = refl
payload_bounds (job_assign p) = refl
payload_bounds (job_started i) = refl
payload_bounds (job_completed p) = refl
payload_bounds (job_failed p) = refl
payload_bounds (job_status_request id) = refl
payload_bounds (job_status_response s) = refl
payload_bounds (job_status_not_found id) = refl
payload_bounds (jobs_response entries) = refl
payload_bounds (workers_response list) = refl
payload_bounds (stats_response s) = refl

length-write_payload : (m : Message) → length (write_payload m) ≡ prefix_size m + data_size m
unfolding write_payload write_identity write_status write_stats put_u16 put_u32 put_u64
length-write_payload (ping w) = omega arith
length-write_payload (pong w) = omega arith
length-write_payload (worker_register w) = omega arith
length-write_payload (jobs_request w) = omega arith
length-write_payload (workers_request w) = omega arith
length-write_payload (stats_request w) = omega arith
length-write_payload (worker_register_ack w) = omega arith
length-write_payload (heartbeat w) = omega arith
length-write_payload (job_submit p) = omega arith
length-write_payload (job_submit_ack id) = omega arith
length-write_payload (job_assign p) = omega arith
length-write_payload (job_started i) = omega arith
length-write_payload (job_completed p) = omega arith
length-write_payload (job_failed p) = omega arith
length-write_payload (job_status_request id) = omega arith
length-write_payload (job_status_response s) = omega arith
length-write_payload (job_status_not_found id) = omega arith
length-write_payload (jobs_response entries) =
    omega (arith, length-write_entries write_job_summary 38 length-job_summary entries)
length-write_payload (workers_response list) =
    omega (arith, length-write_entries write_worker_summary 30 length-worker_summary list.entries)
length-write_payload (stats_response s) = omega arith

-- The bytes after the prefix are those that the message carries.
data_copied :
    (m : Message) (rest : List ℕ)
    → with_data_of m (take (data_size m) (drop (prefix_size m) (write_payload m ++ rest))) ≡ m
unfolding write_payload write_identity write_status put_u16 put_u32 put_u64
data_copied (job_submit p) rest = rw (take-append p.arguments rest) refl
data_copied (job_assign p) rest = rw (take-append p.arguments rest) refl
data_copied (job_completed p) rest = rw (take-append p.output rest) refl
data_copied (job_status_response s) rest = rw (take-append s.output rest) refl
data_copied _ rest = refl

payload_Checked : (m : Message) → validate_payload m (data_size m) ≡ ok tt → Checked m
unfolding validate_payload validate_workers
payload_Checked (ping w) h = ground arith
payload_Checked (pong w) h = ground arith
payload_Checked (worker_register w) h = ground arith
payload_Checked (jobs_request w) h = ground arith
payload_Checked (workers_request w) h = ground arith
payload_Checked (stats_request w) h = ground arith
payload_Checked (worker_register_ack w) h = tt
payload_Checked (heartbeat w) h = tt
payload_Checked (job_submit p) h = tt
payload_Checked (job_submit_ack id) h = tt
payload_Checked (job_assign p) h = tt
payload_Checked (job_started i) h = tt
payload_Checked (job_completed p) h = tt
payload_Checked (job_failed p) h = tt
payload_Checked (job_status_request id) h = tt
payload_Checked (job_status_response s) h = tt
payload_Checked (job_status_not_found id) h = tt
payload_Checked (jobs_response entries) h = tt
payload_Checked (workers_response list) h = ground arith
payload_Checked (stats_response s) h = tt

-- The validation reads no byte of the data.
validate_without_data :
    (m : Message)
    → validate_message (with_data_of m []) (data_size m) ≡ validate_message m (data_size m)
unfolding validate_message validate_payload flatline_c.Protocol.Validate.validate_job_status
validate_without_data (ping w) = refl
validate_without_data (pong w) = refl
validate_without_data (worker_register w) = refl
validate_without_data (jobs_request w) = refl
validate_without_data (workers_request w) = refl
validate_without_data (stats_request w) = refl
validate_without_data (worker_register_ack w) = refl
validate_without_data (heartbeat w) = refl
validate_without_data (job_submit p) = refl
validate_without_data (job_submit_ack id) = refl
validate_without_data (job_assign p) = refl
validate_without_data (job_started i) = refl
validate_without_data (job_completed p) = refl
validate_without_data (job_failed p) = refl
validate_without_data (job_status_request id) = refl
validate_without_data (job_status_response s) = refl
validate_without_data (job_status_not_found id) = refl
validate_without_data (jobs_response entries) = refl
validate_without_data (workers_response list) = refl
validate_without_data (stats_response s) = refl

-- What the validation of a message establishes.
validated :
    (m : Message) (size : ℕ)
    → validate_message m (data_size m) ≡ ok size
    → (size ≡ prefix_size m + data_size m)
      × (data_size m ≤ extra m)
      × (validate_payload m (data_size m) ≡ ok tt)
unfolding validate_message
validated m size h = elim (Result-cases (validate_payload m (data_size m))) [
  | inr (e, wrong) ↦ absurd (ground (arith, rw (payload_bounds m, wrong) at h))
  | inl (u, valid) ↦
      let h' = rw (payload_bounds m, valid) at h in
      elim (Bool-cases (ltb (prefix_size m + extra m - prefix_size m) (data_size m))) [
        | inl large ↦ absurd (ground (arith, rw large at h'))
        | inr fits ↦ (sym (ok_inj (rw fits at h')), ground arith, valid)
      ]
]

-- The parts of an encoding that succeeds.
message_encode_effect :
    (n : ℕ) (m : Message) (bytes : List ℕ)
    → message_encode n m ≡ ok bytes
    → (size : ℕ) × (validate_message m (data_size m) ≡ ok size)
      × (validate_header (header_for m size) ≡ ok tt)
      × (bytes ≡ header_bytes (header_for m size) ++ write_payload m)
unfolding message_encode
message_encode_effect n m bytes h = elim (Result-cases (validate_message m (data_size m))) [
  | inr (e, wrong) ↦ absurd (ground arith)
  | inl (size, valid) ↦
      elim (Result-cases (flatline_c.Protocol.Codec.header_encode n (header_for m size))) [
        | inr (e, wrong) ↦ absurd (ground arith)
        | inl (header, made) ↦
            let (same, accepted) = header_encode_effect n (header_for m size) header made in
            (size, valid, accepted, ground arith)
      ]
]

header_Fits : (m : Message) (size : ℕ) → size < 2 ^ 32 → HeaderTrip.Fits (header_for m size)
header_Fits m size h = record {
  magic = omega arith;
  version = omega arith;
  message_type = type_bound m;
  payload_length = h;
}
  where
    type_bound : (k : Message) → message_type k < 2 ^ 16
    type_bound k = ground arith

sizes : (m : Message) → prefix_size m + extra m < 2 ^ 32
sizes m = ground arith

drop-header :
    (h : flatline_c.Protocol.Frame.Header) (rest : List ℕ) → drop 12 (header_bytes h ++ rest) ≡ rest
unfolding header_bytes put_u16 put_u32
drop-header h rest = refl

-- The tests of the decoder on the lengths of a frame.
length_accepted :
    (m : Message)
    → data_size m ≤ extra m
    → (ltb (prefix_size m + data_size m) (prefix_size m)
        || prefix_size m == prefix_size m + extra m
          && not (prefix_size m + data_size m == prefix_size m))
      ≡ false
length_accepted m h = ground arith

frame_decoded :
    (m : Message) (rest : List ℕ)
    → validate_message m (data_size m) ≡ ok (prefix_size m + data_size m)
    → validate_header (header_for m (prefix_size m + data_size m)) ≡ ok tt
    → data_size m ≤ extra m
    → Checked m
    → Fits m
    → message_decode
        (header_bytes (header_for m (prefix_size m + data_size m)) ++ (write_payload m ++ rest))
      ≡ ok (m, 12 + (prefix_size m + data_size m))
unfolding message_decode
frame_decoded m rest valid accepted small checked f =
    let size = prefix_size m + data_size m in
    let header = header_for m size in
    let body = write_payload m ++ rest in
    let total : length (header_bytes header ++ body) ≡ 12 + size + length rest = omega (
      arith,
      length-append (header_bytes header) body,
      length-header_bytes header,
      length-append (write_payload m) rest,
      length-write_payload m,
    ) in
    let bounded : ltb (prefix_size m + extra m) size ≡ false = ground (arith, small) in
    let prefixed : ltb (length (header_bytes header ++ body)) (12 + prefix_size m) ≡ false =
      ground (arith, total) in
    let whole : ltb (length (header_bytes header ++ body)) (12 + size) ≡ false =
      ground (arith, total) in
    let left : prefix_size m + data_size m - prefix_size m ≡ data_size m = omega arith in
    rw
      (
        header_decoded header body (header_Fits m size (omega (arith, sizes m, small))) accepted,
        payload_bounds m,
        length_accepted m small,
        bounded,
        prefixed,
        drop-header header body,
      )
      (rw
        (
          payload_read m rest f small checked,
          validate_without_data m,
          valid,
          ==_self size,
          whole,
          left,
          data_copied m rest,
        )
        refl)

-- A message that the encoder accepts, with fields in the range of their C types, is decoded as
-- itself, whatever bytes follow its frame, and exactly the frame is consumed.
pub message_decode-message_encode :
    (n : ℕ) (m : Message) (bytes rest : List ℕ)
    → message_encode n m ≡ ok bytes
    → Fits m
    → message_decode (bytes ++ rest) ≡ ok (m, length bytes)
message_decode-message_encode n m bytes rest h f =
    let (size, valid, accepted, same) = message_encode_effect n m bytes h in
    let (total, small, checked) = validated m size valid in
    let header = header_bytes (header_for m (prefix_size m + data_size m)) in
    let written : bytes ≡ header ++ write_payload m =
      subst (λ k. bytes ≡ header_bytes (header_for m k) ++ write_payload m) total same in
    let long : length bytes ≡ 12 + (prefix_size m + data_size m) = omega (
      arith,
      ap length written,
      length-append header (write_payload m),
      length-header_bytes (header_for m (prefix_size m + data_size m)),
      length-write_payload m,
    ) in
    rw (long, written, append_assoc header (write_payload m) rest)
      (frame_decoded m rest (subst (λ k. validate_message m (data_size m) ≡ ok k) total valid)
        (subst (λ k. validate_header (header_for m k) ≡ ok tt) total accepted) small
        (payload_Checked m checked) f)
