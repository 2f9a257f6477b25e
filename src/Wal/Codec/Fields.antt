-- ===== src/Wal/Codec/Fields.antt =====
-- What the decoders read from headers and job snapshots as the encoders lay them out.
use flatline_c.Prelude.{
  ℕ, ◌+◌, ◌^◌, ◌<◌, ◌≡◌, refl, List, ◌++◌, length, take, drop, arith, length-append,
}
use flatline_c.Prelude.Int.{ℤ, pos, negsuc, pos_part}
use flatline_c.Bytes.{
  put_u16, put_u32, put_u64, get_u16, get_u32, get_u64, u16_of_bytes, u32_of_bytes, u64_of_bytes,
}
use flatline_c.Job.{Job, JobState, JobFailure}
use flatline_c.Wal.Format.{record_magic, state_code, failure_code, crc32}
use flatline_c.Wal.Codec.{record_fields, encode_job, u64_of_time}

pub crc32_bound : (bytes : List ℕ) → crc32 bytes < 2 ^ 32
unfolding crc32
crc32_bound bytes = omega arith

-- A record header as it stands before the payload.
pub record HeaderFields (wire rest : List ℕ) (code size sequence crc own : ℕ) (fields : List ℕ)
    : Type 0 where
  pub magic : get_u32 wire 0 ≡ record_magic
  pub version : get_u16 wire 4 ≡ 1
  pub type : get_u16 wire 6 ≡ code
  pub payload_length : get_u32 wire 8 ≡ size
  pub reserved : get_u32 wire 12 ≡ 0
  pub number : get_u64 wire 16 ≡ sequence
  pub payload_crc : get_u32 wire 24 ≡ crc
  pub header_crc : get_u32 wire 28 ≡ own
  pub covered : take 28 wire ≡ fields
  pub payload : drop 32 wire ≡ rest
  pub total : length wire ≡ 32 + length rest

pub header_fields :
    (rest : List ℕ) (code size sequence crc own : ℕ)
    → code < 2 ^ 16
    → size < 2 ^ 32
    → sequence < 2 ^ 64
    → crc < 2 ^ 32
    → own < 2 ^ 32
    → HeaderFields
        ((record_fields code size sequence crc ++ put_u32 own) ++ rest)
        rest
        code
        size
        sequence
        crc
        own
        (record_fields code size sequence crc)
unfolding record_fields put_u16 put_u32 put_u64 get_u16 get_u32 get_u64
header_fields rest code size sequence crc own hc hs hq hk ho = record {
  magic = refl;
  version = refl;
  type = u16_of_bytes code hc;
  payload_length = u32_of_bytes size hs;
  reserved = refl;
  number = u64_of_bytes sequence hq;
  payload_crc = u32_of_bytes crc hk;
  header_crc = u32_of_bytes own ho;
  covered = refl;
  payload = refl;
  total = omega arith;
}

pub u64_of_time_bound : (t : ℤ) → u64_of_time t < 2 ^ 64
u64_of_time_bound (pos n) = omega arith
u64_of_time_bound (negsuc n) = omega arith

-- The fields are in the range of their C types.
pub record Fits (j : Job) : Type 0 where
  pub id : j.id < 2 ^ 64
  pub task_type : j.task_type < 2 ^ 16
  pub worker_id : j.worker_id < 2 ^ 32
  pub attempt : j.attempt < 2 ^ 64
  pub retry_count : j.retry_count < 2 ^ 32
  pub max_retries : j.max_retries < 2 ^ 32
  pub created_at_ms : pos_part j.created_at_ms < 2 ^ 63
  pub updated_at_ms : pos_part j.updated_at_ms < 2 ^ 63
  pub assigned_at_ms : pos_part j.assigned_at_ms < 2 ^ 63
  pub started_at_ms : pos_part j.started_at_ms < 2 ^ 63
  pub finished_at_ms : pos_part j.finished_at_ms < 2 ^ 63

-- A snapshot as it stands before what follows it.
pub record JobFields (bytes rest : List ℕ) (j : Job) : Type 0 where
  pub id : get_u64 bytes 0 ≡ j.id
  pub task_type : get_u16 bytes 8 ≡ j.task_type
  pub state : get_u16 bytes 10 ≡ state_code j.state
  pub worker_id : get_u32 bytes 12 ≡ j.worker_id
  pub attempt : get_u64 bytes 16 ≡ j.attempt
  pub retry_count : get_u32 bytes 24 ≡ j.retry_count
  pub max_retries : get_u32 bytes 28 ≡ j.max_retries
  pub created_at_ms : get_u64 bytes 32 ≡ u64_of_time j.created_at_ms
  pub updated_at_ms : get_u64 bytes 40 ≡ u64_of_time j.updated_at_ms
  pub assigned_at_ms : get_u64 bytes 48 ≡ u64_of_time j.assigned_at_ms
  pub started_at_ms : get_u64 bytes 56 ≡ u64_of_time j.started_at_ms
  pub finished_at_ms : get_u64 bytes 64 ≡ u64_of_time j.finished_at_ms
  pub failure : get_u16 bytes 72 ≡ failure_code j.failure
  pub reserved : get_u16 bytes 74 ≡ 0
  pub argument_size : get_u32 bytes 76 ≡ length j.arguments
  pub result_size : get_u32 bytes 80 ≡ length j.output
  pub tail : drop 84 bytes ≡ (j.arguments ++ j.output) ++ rest

state_code_bound : (s : JobState) → state_code s < 2 ^ 16
state_code_bound s = ground arith

failure_code_bound : (f : JobFailure) → failure_code f < 2 ^ 16
failure_code_bound f = ground arith

pub job_fields :
    (j : Job) (rest : List ℕ)
    → Fits j
    → length j.arguments < 2 ^ 32
    → length j.output < 2 ^ 32
    → JobFields (encode_job j ++ rest) rest j
unfolding encode_job put_u16 put_u32 put_u64 get_u16 get_u32 get_u64
job_fields j rest f ha hr = record {
  id = u64_of_bytes j.id f.id;
  task_type = u16_of_bytes j.task_type f.task_type;
  state = u16_of_bytes (state_code j.state) (state_code_bound j.state);
  worker_id = u32_of_bytes j.worker_id f.worker_id;
  attempt = u64_of_bytes j.attempt f.attempt;
  retry_count = u32_of_bytes j.retry_count f.retry_count;
  max_retries = u32_of_bytes j.max_retries f.max_retries;
  created_at_ms = u64_of_bytes (u64_of_time j.created_at_ms) (u64_of_time_bound j.created_at_ms);
  updated_at_ms = u64_of_bytes (u64_of_time j.updated_at_ms) (u64_of_time_bound j.updated_at_ms);
  assigned_at_ms = u64_of_bytes (u64_of_time j.assigned_at_ms) (u64_of_time_bound j.assigned_at_ms);
  started_at_ms = u64_of_bytes (u64_of_time j.started_at_ms) (u64_of_time_bound j.started_at_ms);
  finished_at_ms = u64_of_bytes (u64_of_time j.finished_at_ms) (u64_of_time_bound j.finished_at_ms);
  failure = u16_of_bytes (failure_code j.failure) (failure_code_bound j.failure);
  reserved = refl;
  argument_size = u32_of_bytes (length j.arguments) ha;
  result_size = u32_of_bytes (length j.output) hr;
  tail = refl;
}

pub length-encode_job :
    (j : Job) → length (encode_job j) ≡ 84 + (length j.arguments + length j.output)
unfolding encode_job put_u16 put_u32 put_u64
length-encode_job j = omega (arith, length-append j.arguments j.output)
