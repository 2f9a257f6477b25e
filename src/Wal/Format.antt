-- ===== src/Wal/Format.antt =====
-- include/wal.h and coordinator/wal_format.c: version 1 of the log's records, their checksum and what
-- makes a snapshot of a job valid.
pub mod Snapshots
use Prim.Native.Nat.{bit_xor}
use flatline_c.Prelude.{
  every, ℕ, zero, suc, ◌+◌, ◌-◌, ◌/◌, ◌%◌, ◌^◌, Bool, true, false, not, ◌&&◌, ◌||◌, Option, none,
  some, List, [], ◌∷◌, ◌++◌, ltb, leb, ◌==◌, if◌then◌else◌, length, take, drop,
}
use flatline_c.Prelude.Int.{ℤ, pos, negsuc, is_neg, ltz, lez, eqz}
use flatline_c.Prelude.Result.{Result, ok, err, ◌>>=◌, ◌>>◌, reject}
use flatline_c.Bytes.{put_u16, put_u32, put_u64, get_u16, get_u32, get_u64}
use flatline_c.Job.{
  Job, JobState, JobFailure, queued, assigned, running, done, failed, no_failure, task, worker_lost,
  max_argument_size, max_result_size, task_sleep, task_hash, time_unset,
}

abbrev pub version : ℕ
version = 1

abbrev pub file_header_size : ℕ
file_header_size = 24

abbrev pub record_magic : ℕ
record_magic = 1179408210

abbrev pub record_header_size : ℕ
record_header_size = 32

abbrev pub job_prefix_size : ℕ
job_prefix_size = 84

abbrev pub max_payload_size : ℕ
max_payload_size = job_prefix_size + max_argument_size + max_result_size

-- The record types that carry a job; type 1 carries a worker ID.
pub data JobRecord : Type 0 where
  job_created job_assigned job_started job_completed job_requeued job_failed : JobRecord

-- The type of a record with the member of the union that it names.
pub data Entry : Type 0 where
  worker_id_allocated : ℕ → Entry
  job_snapshot : JobRecord → Job → Entry

pub record Record : Type 0 where
  pub sequence : ℕ
  pub entry : Entry

-- `type` is a number from the wire.
pub record RecordHeader : Type 0 where
  pub type : ℕ
  pub sequence : ℕ
  pub payload_length : ℕ
  pub payload_crc32 : ℕ

pub data WalError : Type 0 where
  invalid_argument buffer_too_small incomplete bad_checksum bad_magic unsupported_version
        invalid_header unknown_record_type invalid_sequence invalid_payload_length invalid_payload :
      WalError

abbrev pub job_record_code : JobRecord → ℕ
job_record_code job_created = 2
job_record_code job_assigned = 3
job_record_code job_started = 4
job_record_code job_completed = 5
job_record_code job_requeued = 6
job_record_code job_failed = 7

abbrev pub type_code : Entry → ℕ
type_code (worker_id_allocated id) = 1
type_code (job_snapshot kind job) = job_record_code kind

unfoldable pub job_record_of : ℕ → Result WalError JobRecord
job_record_of code =
    if code == 2
    then ok job_created
    else if code == 3
    then ok job_assigned
    else if code == 4
    then ok job_started
    else if code == 5
    then ok job_completed
    else if code == 6
    then ok job_requeued
    else if code == 7
    then ok job_failed
    else err unknown_record_type

abbrev pub state_code : JobState → ℕ
state_code queued = 1
state_code assigned = 2
state_code running = 3
state_code done = 4
state_code failed = 5

-- A number that is no state fails the validation of every job.
unfoldable pub state_of : ℕ → Result WalError JobState
state_of code =
    if code == 1
    then ok queued
    else if code == 2
    then ok assigned
    else if code == 3
    then ok running
    else if code == 4
    then ok done
    else if code == 5
    then ok failed
    else err invalid_payload

abbrev pub failure_code : JobFailure → ℕ
failure_code no_failure = 0
failure_code task = 1
failure_code worker_lost = 2

unfoldable pub failure_of : ℕ → Result WalError JobFailure
failure_of code =
    if code == 0
    then ok no_failure
    else if code == 1
    then ok task
    else if code == 2
    then ok worker_lost
    else err invalid_payload

-- `a ^ b` of two uint32_t values.
abbrev xor_u32 : ℕ → ℕ → ℕ
xor_u32 a b = bit_xor a b % 2 ^ 32

abbrev crc_bit : ℕ → ℕ
crc_bit crc = xor_u32 (crc / 2) (if crc % 2 == 1 then 3988292384 else 0)

abbrev crc_bits : ℕ → ℕ → ℕ
crc_bits zero crc = crc
crc_bits (suc n) crc = crc_bits n (crc_bit crc)

abbrev crc_bytes : ℕ → List ℕ → ℕ
crc_bytes crc [] = crc
crc_bytes crc (b ∷ bytes) = crc_bytes (crc_bits 8 (xor_u32 crc b)) bytes

unfoldable pub crc32 : List ℕ → ℕ
crc32 bytes = xor_u32 (crc_bytes (2 ^ 32 - 1) bytes) (2 ^ 32 - 1)

-- The least and the greatest size of a payload.
unfoldable pub payload_bounds : ℕ → Result WalError (ℕ × ℕ)
payload_bounds code =
    if code == 1
    then ok (4, 4)
    else if code == 5
    then ok (job_prefix_size, max_payload_size)
    else if leb 2 code && leb code 7
    then ok (job_prefix_size, job_prefix_size + max_argument_size)
    else err unknown_record_type

abbrev pub valid_failure : JobFailure → Bool
valid_failure no_failure = false
valid_failure _ = true

abbrev is_none : JobFailure → Bool
is_none failure = failure_code failure == 0

abbrev pub in_state : Job → JobState → Bool
in_state j state = state_code j.state == state_code state

abbrev pub is_unset : ℤ → Bool
is_unset t = eqz t time_unset

abbrev well_formed : Job → List Bool
well_formed j =
    not (j.id == 0)
    ∷ leb task_sleep j.task_type
    ∷ leb j.task_type task_hash
    ∷ leb (length j.arguments) max_argument_size
    ∷ leb (length j.output) max_result_size
    ∷ leb j.retry_count j.max_retries
    ∷ not (is_neg j.created_at_ms)
    ∷ lez j.created_at_ms j.updated_at_ms
    ∷ []

-- A job that waits: CREATED and REQUEUED.
abbrev valid_waiting : Job → List Bool
valid_waiting j =
    in_state j queued
    ∷ (j.worker_id == 0)
    ∷ (length j.output == 0)
    ∷ is_unset j.assigned_at_ms
    ∷ is_unset j.started_at_ms
    ∷ is_unset j.finished_at_ms
    ∷ []

abbrev valid_owned : Job → List Bool
valid_owned j =
    not (j.worker_id == 0)
    ∷ (j.attempt == (j.retry_count + 1) % 2 ^ 64)
    ∷ lez j.created_at_ms j.assigned_at_ms
    ∷ lez j.assigned_at_ms j.updated_at_ms
    ∷ []

abbrev valid_kind : JobRecord → Job → List Bool
valid_kind job_created j =
    valid_waiting j
    ++ (j.attempt == 0)
      ∷ (j.retry_count == 0)
      ∷ is_none j.failure
      ∷ eqz j.updated_at_ms j.created_at_ms
      ∷ []
valid_kind job_requeued j =
    valid_waiting j
    ++ not (j.retry_count == 0) ∷ (j.attempt == j.retry_count) ∷ valid_failure j.failure ∷ []
valid_kind job_assigned j =
    valid_owned j
    ++ in_state j assigned
      ∷ is_none j.failure
      ∷ (length j.output == 0)
      ∷ eqz j.updated_at_ms j.assigned_at_ms
      ∷ is_unset j.started_at_ms
      ∷ is_unset j.finished_at_ms
      ∷ []
valid_kind job_started j =
    valid_owned j
    ++ in_state j running
      ∷ is_none j.failure
      ∷ (length j.output == 0)
      ∷ lez j.assigned_at_ms j.started_at_ms
      ∷ eqz j.updated_at_ms j.started_at_ms
      ∷ is_unset j.finished_at_ms
      ∷ []
valid_kind job_completed j =
    valid_owned j
    ++ in_state j done
      ∷ is_none j.failure
      ∷ lez j.assigned_at_ms j.started_at_ms
      ∷ lez j.started_at_ms j.finished_at_ms
      ∷ eqz j.updated_at_ms j.finished_at_ms
      ∷ []
valid_kind job_failed j =
    valid_owned j
    ++ in_state j failed
      ∷ valid_failure j.failure
      ∷ (j.retry_count == j.max_retries)
      ∷ (length j.output == 0)
      ∷ (is_unset j.started_at_ms || lez j.assigned_at_ms j.started_at_ms)
      ∷ lez j.assigned_at_ms j.finished_at_ms
      ∷ lez j.started_at_ms j.finished_at_ms
      ∷ eqz j.updated_at_ms j.finished_at_ms
      ∷ []

-- All that one snapshot has to meet.
abbrev pub conditions : JobRecord → Job → List Bool
conditions kind j = well_formed j ++ valid_kind kind j

-- One snapshot, without its relation to earlier records.
unfoldable pub valid_job : JobRecord → Job → Bool
valid_job kind j = every (conditions kind j)
