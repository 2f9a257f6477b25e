-- ===== src/Wal/Codec.antt =====
-- coordinator/wal_format.c: the encoders and decoders of the log. A pointer to bytes with the number
-- of those available is one list, and an encoder yields the bytes that it writes.
pub mod Fields
pub mod JobTrip
pub mod RoundTrip
pub mod Split
pub mod Bounds
pub mod FileHeader
use flatline_c.Prelude.{
  ℕ, zero, suc, ◌+◌, ◌-◌, ◌/◌, ◌%◌, ◌^◌, Bool, true, false, not, ◌&&◌, ◌||◌, Option, none, some,
  List, [], ◌∷◌, ◌++◌, ltb, leb, ◌==◌, if◌then◌else◌, length, take, drop,
}
use flatline_c.Prelude.Int.{ℤ, pos, negsuc}
use flatline_c.Prelude.Result.{Result, ok, err, ◌>>=◌, ◌>>◌, reject}
use flatline_c.Bytes.{put_u16, put_u32, put_u64, get_u16, get_u32, get_u64}
use flatline_c.Job.{Job, max_argument_size, max_result_size, time_unset}
use flatline_c.Wal.Format.{
  version, file_header_size, record_magic, record_header_size, job_prefix_size, JobRecord, Entry,
  worker_id_allocated, job_snapshot, Record, RecordHeader, WalError, buffer_too_small, incomplete,
  bad_checksum, bad_magic, unsupported_version, invalid_header, invalid_sequence,
  invalid_payload_length, invalid_payload, invalid_argument, type_code, job_record_of, state_code,
  state_of, failure_code, failure_of, crc32, payload_bounds, valid_job,
}

-- "FLINWAL" and 0
abbrev pub file_magic : List ℕ
file_magic = 70 ∷ 76 ∷ 73 ∷ 78 ∷ 87 ∷ 65 ∷ 76 ∷ 0 ∷ []

-- `memcmp` of two areas of one size.
abbrev pub same_bytes : List ℕ → List ℕ → Bool
same_bytes [] [] = true
same_bytes (x ∷ xs) (y ∷ ys) = x == y && same_bytes xs ys
same_bytes _ _ = false

-- The fields before the checksum of a header, with it.
abbrev pub sealed : List ℕ → List ℕ
sealed fields = fields ++ put_u32 (crc32 fields)

abbrev pub file_fields : List ℕ
file_fields = file_magic ++ put_u16 version ++ put_u16 file_header_size ++ put_u32 0 ++ put_u32 0

unfoldable pub file_header_encode : ℕ → Result WalError (List ℕ)
file_header_encode capacity = do
  reject (ltb capacity file_header_size) buffer_too_small
  ok (sealed file_fields)

unfoldable pub file_header_decode : List ℕ → Result WalError (Unit {0})
file_header_decode wire = do
  reject (ltb (length wire) file_header_size) incomplete
  reject (not (get_u32 wire 20 == crc32 (take 20 wire))) bad_checksum
  reject (not (same_bytes (take 8 wire) file_magic)) bad_magic
  reject (not (get_u16 wire 8 == version)) unsupported_version
  reject
      (not (get_u16 wire 10 == file_header_size)
        || not (get_u32 wire 12 == 0)
        || not (get_u32 wire 16 == 0))
      invalid_header
  ok tt

unfoldable pub record_header_decode : List ℕ → ℕ → Result WalError RecordHeader
record_header_decode wire expected_sequence = do
  reject (expected_sequence == 0) invalid_argument
  reject (ltb (length wire) record_header_size) incomplete
  reject (not (get_u32 wire 28 == crc32 (take 28 wire))) bad_checksum
  reject (not (get_u32 wire 0 == record_magic)) bad_magic
  reject (not (get_u16 wire 4 == version)) unsupported_version
  reject (not (get_u32 wire 12 == 0)) invalid_header
  (minimum, maximum) ← payload_bounds (get_u16 wire 6)
  reject (ltb (get_u32 wire 8) minimum || ltb maximum (get_u32 wire 8)) invalid_payload_length
  reject (not (get_u64 wire 16 == expected_sequence)) invalid_sequence
  ok (record {
    type = get_u16 wire 6;
    sequence = get_u64 wire 16;
    payload_length = get_u32 wire 8;
    payload_crc32 = get_u32 wire 24;
  })

-- `(uint64_t)t`
abbrev pub u64_of_time : ℤ → ℕ
u64_of_time (pos n) = n % 2 ^ 64
u64_of_time (negsuc n) = 2 ^ 64 - 1 - n % 2 ^ 64

unfoldable pub encode_job : Job → List ℕ
encode_job j =
    put_u64 j.id
    ++ put_u16 j.task_type
    ++ put_u16 (state_code j.state)
    ++ put_u32 j.worker_id
    ++ put_u64 j.attempt
    ++ put_u32 j.retry_count
    ++ put_u32 j.max_retries
    ++ put_u64 (u64_of_time j.created_at_ms)
    ++ put_u64 (u64_of_time j.updated_at_ms)
    ++ put_u64 (u64_of_time j.assigned_at_ms)
    ++ put_u64 (u64_of_time j.started_at_ms)
    ++ put_u64 (u64_of_time j.finished_at_ms)
    ++ put_u16 (failure_code j.failure)
    ++ put_u16 0
    ++ put_u32 (length j.arguments)
    ++ put_u32 (length j.output)
    ++ j.arguments
    ++ j.output

abbrev pub payload_size : ℕ → Entry → ℕ
payload_size minimum (worker_id_allocated id) = minimum
payload_size minimum (job_snapshot kind j) = minimum + (length j.arguments + length j.output)

abbrev pub valid_entry : Entry → Bool
valid_entry (worker_id_allocated id) = not (id == 0)
valid_entry (job_snapshot kind j) = valid_job kind j

abbrev pub payload_bytes : Entry → List ℕ
payload_bytes (worker_id_allocated id) = put_u32 id
payload_bytes (job_snapshot kind j) = encode_job j

-- The fields of a record's header up to its own checksum.
unfoldable pub record_fields : ℕ → ℕ → ℕ → ℕ → List ℕ
record_fields code size sequence payload_crc32 =
    put_u32 record_magic
    ++ put_u16 version
    ++ put_u16 code
    ++ put_u32 size
    ++ put_u32 0
    ++ put_u64 sequence
    ++ put_u32 payload_crc32

unfoldable pub record_encode : ℕ → Record → Result WalError (List ℕ)
record_encode capacity r = do
  (minimum, maximum) ← payload_bounds (type_code r.entry)
  reject (r.sequence == 0) invalid_sequence
  reject (not (valid_entry r.entry)) invalid_payload
  reject (ltb capacity (record_header_size + payload_size minimum r.entry)) buffer_too_small
  ok (
      sealed (
        record_fields (type_code r.entry) (payload_size minimum r.entry) r.sequence
          (crc32 (payload_bytes r.entry)))
      ++ payload_bytes r.entry)

unfoldable pub decode_time : ℕ → Result WalError ℤ
decode_time value =
    if value == 2 ^ 64 - 1
    then ok time_unset
    else if leb value (2 ^ 63 - 1)
    then ok (pos value)
    else err invalid_payload

abbrev checked : JobRecord → Job → Result WalError Job
checked kind job = if valid_job kind job then ok job else err invalid_payload

-- The sizes of the byte arrays are checked first, so that the record has them when it is validated.
unfoldable pub decode_job : List ℕ → ℕ → JobRecord → Result WalError Job
decode_job bytes size kind = do
  reject
      (ltb max_argument_size (get_u32 bytes 76)
        || ltb max_result_size (get_u32 bytes 80)
        || not (size == job_prefix_size + get_u32 bytes 76 + get_u32 bytes 80))
      invalid_payload_length
  reject (not (get_u16 bytes 74 == 0)) invalid_payload
  state ← state_of (get_u16 bytes 10)
  failure ← failure_of (get_u16 bytes 72)
  created_at_ms ← decode_time (get_u64 bytes 32)
  updated_at_ms ← decode_time (get_u64 bytes 40)
  assigned_at_ms ← decode_time (get_u64 bytes 48)
  started_at_ms ← decode_time (get_u64 bytes 56)
  finished_at_ms ← decode_time (get_u64 bytes 64)
  checked kind (record {
    id = get_u64 bytes 0;
    task_type = get_u16 bytes 8;
    arguments = take (get_u32 bytes 76) (drop job_prefix_size bytes);
    state = state;
    worker_id = get_u32 bytes 12;
    attempt = get_u64 bytes 16;
    retry_count = get_u32 bytes 24;
    max_retries = get_u32 bytes 28;
    created_at_ms = created_at_ms;
    updated_at_ms = updated_at_ms;
    assigned_at_ms = assigned_at_ms;
    started_at_ms = started_at_ms;
    finished_at_ms = finished_at_ms;
    output = take (get_u32 bytes 80) (drop (get_u32 bytes 76) (drop job_prefix_size bytes));
    failure = failure;
  })

abbrev decode_worker : ℕ → Result WalError Entry
decode_worker id = if id == 0 then err invalid_payload else ok (worker_id_allocated id)

unfoldable pub decode_entry : ℕ → ℕ → List ℕ → Result WalError Entry
unfolding decode_job
decode_entry code size payload = if code == 1 then decode_worker (get_u32 payload 0) else do
  kind ← job_record_of code
  job ← decode_job payload size kind
  ok (job_snapshot kind job)

unfoldable pub record_decode : List ℕ → ℕ → Result WalError (Record × ℕ)
unfolding record_header_decode decode_entry
record_decode wire expected_sequence = do
  header ← record_header_decode wire expected_sequence
  reject (ltb (length wire) (record_header_size + header.payload_length)) incomplete
  reject
      (not
        (crc32 (take header.payload_length (drop record_header_size wire)) == header.payload_crc32))
      bad_checksum
  entry ← decode_entry header.type header.payload_length (drop record_header_size wire)
  ok (
    record { sequence = header.sequence; entry = entry },
    record_header_size + header.payload_length,
  )
