-- ===== src/Wal/Replay/Tests.antt =====
-- Runs of the replay on small logs, and the theorems at concrete inputs.
use flatline_c.Prelude.{
  ℕ, ◌+◌, ◌^◌, ◌<◌, ◌≡◌, refl, inr, Bool, true, Option, some, List, [], ◌∷◌, ◌++◌, length, take,
  drop, arith,
}
use flatline_c.Prelude.Int.{pos}
use flatline_c.Prelude.Result.{Result, ok, err}
use flatline_c.Job.{Job, queued, no_failure, time_unset}
use flatline_c.Scheduler
use flatline_c.Wal.Format.{WalError, Record, worker_id_allocated, job_snapshot, job_created}
use flatline_c.Wal.Codec.{file_header_encode, record_encode}
use flatline_c.Wal.Codec.RoundTrip.{EntryFits}
use flatline_c.Wal.Replay
use flatline_c.Wal.Replay.{ReplayState, apply_record, max_record_size}
use flatline_c.Wal.Replay.Index.{
  WorkerIndex, ReplayError, empty_index, index_worker, worker_was_allocated,
}
use flatline_c.Wal.Replay.Allocated.{covered, worker_was_allocated-covered}
use flatline_c.Wal.Replay.Recovered.{IsRecovered, apply_record-IsRecovered, init-IsRecovered}
use flatline_c.Wal.Replay.Log.{LoggedRecord, replay, accept}
use flatline_c.Wal.Replay.History.{no_report, read_history}
use flatline_c.Wal.Replay.Reads.{IsReader}
use flatline_c.Wal.Replay.File.{Reached, bytes_of, read_history-written}

abbrev always : ℕ → Bool
always n = true

abbrev two_ranges : WorkerIndex
two_ranges = record {
  ranges = (record { first = 1; last = 3 }) ∷ (record { first = 7; last = 9 }) ∷ [];
  capacity = 16;
}

worker_was_allocated-covered_example :
    worker_was_allocated two_ranges 8 ≡ covered two_ranges.ranges 8
worker_was_allocated-covered_example =
    worker_was_allocated-covered two_ranges 8 1
      (omega arith, omega arith, (omega arith, omega arith, tt))

abbrev three_ranges : WorkerIndex
three_ranges = record {
  ranges = two_ranges.ranges ++ (record { first = 12; last = 12 }) ∷ [];
  capacity = 16;
}

range_added : index_worker always two_ranges 12 ≡ ok three_ranges
unfolding index_worker
range_added = refl

abbrev fresh : Job
fresh = record {
  id = 1;
  task_type = 4;
  arguments = 104 ∷ 105 ∷ [];
  state = queued;
  worker_id = 0;
  attempt = 0;
  retry_count = 0;
  max_retries = 1;
  created_at_ms = pos 10;
  updated_at_ms = pos 10;
  assigned_at_ms = time_unset;
  started_at_ms = time_unset;
  finished_at_ms = time_unset;
  output = [];
  failure = no_failure;
}

abbrev creation : Record
creation = record { sequence = 2; entry = job_snapshot job_created fresh }

abbrev encoded : Record → Result WalError (List ℕ)
encoded r = record_encode max_record_size r

abbrev wire_of : Result WalError (List ℕ) → List ℕ
wire_of (ok bytes) = bytes
wire_of (err e) = []

abbrev logged : Record → LoggedRecord
logged r = (r, wire_of (encoded r))

abbrev allocation : Record
allocation = record { sequence = 1; entry = worker_id_allocated 1 }

abbrev recovered : Result ReplayError (ReplayState × WorkerIndex) → ReplayState × WorkerIndex
recovered (ok p) = p
recovered (err e) = (Replay.init, empty_index)

abbrev after_creation : ReplayState × WorkerIndex
after_creation =
    recovered (apply_record always Replay.init empty_index creation (wire_of (encoded creation)))

creation_applied :
    apply_record always Replay.init empty_index creation (wire_of (encoded creation))
    ≡ ok after_creation
unfolding apply_record Replay.init record_encode flatline_c.Wal.Format.payload_bounds
    flatline_c.Wal.Format.valid_job flatline_c.Wal.Format.crc32 flatline_c.Job.job_init
    flatline_c.JobQueue.push Scheduler.init flatline_c.Wal.Codec.record_fields
    flatline_c.Wal.Codec.encode_job flatline_c.Bytes.put_u16 flatline_c.Bytes.put_u32
    flatline_c.Bytes.put_u64
creation_applied = refl

apply_record-IsRecovered_example : IsRecovered after_creation.0 after_creation.1
apply_record-IsRecovered_example =
    apply_record-IsRecovered always Replay.init after_creation.0 empty_index after_creation.1 2
      creation.entry (wire_of (encoded creation)) creation_applied (omega arith, omega arith)
      init-IsRecovered

allocation-encoded : encoded allocation ≡ ok (wire_of (encoded allocation))
unfolding record_encode flatline_c.Wal.Format.payload_bounds
allocation-encoded = refl

creation-encoded : encoded creation ≡ ok (wire_of (encoded creation))
unfolding record_encode flatline_c.Wal.Format.payload_bounds flatline_c.Wal.Format.valid_job
creation-encoded = refl

-- A log with one record, of which the first byte of a second one has been written too.
abbrev log : List LoggedRecord
log = logged allocation ∷ []

abbrev torn : List ℕ
torn = take 1 (wire_of (encoded creation))

abbrev header : List ℕ
header = wire_of (file_header_encode 24)

header_encoded : file_header_encode 24 ≡ ok header
unfolding file_header_encode
header_encoded = refl

abbrev file : List ℕ
file = header ++ (bytes_of log ++ torn)

-- The reader is at an offset.
abbrev read_file : ℕ → ℕ → Option (List ℕ) × ℕ
read_file offset size =
    (some (take size (drop offset file)), offset + length (take size (drop offset file)))

abbrev same : ℕ → ℕ
same n = n

file-IsReader : IsReader read_file same file
file-IsReader = record { reads = λ offset size. refl; moves = λ offset size. refl }

abbrev after_log : ReplayState × WorkerIndex
after_log = recovered (replay always (Replay.init, empty_index) log)

log_replayed : replay always (Replay.init, empty_index) log ≡ ok after_log
unfolding replay Replay.init accept apply_record index_worker
log_replayed = refl

creation-Fits : EntryFits creation.entry
creation-Fits = record {
  id = omega arith;
  task_type = omega arith;
  worker_id = omega arith;
  attempt = omega arith;
  retry_count = omega arith;
  max_retries = omega arith;
  created_at_ms = omega arith;
  updated_at_ms = omega arith;
  assigned_at_ms = omega arith;
  started_at_ms = omega arith;
  finished_at_ms = omega arith;
}

long_wire : 1 < length (wire_of (encoded creation))
unfolding record_encode flatline_c.Wal.Format.payload_bounds flatline_c.Wal.Format.valid_job
    flatline_c.Wal.Codec.record_fields flatline_c.Wal.Codec.encode_job flatline_c.Bytes.put_u16
    flatline_c.Bytes.put_u32 flatline_c.Bytes.put_u64
long_wire = omega arith

short_file : length file < 2 ^ 63
unfolding file_header_encode bytes_of record_encode flatline_c.Wal.Format.payload_bounds
    flatline_c.Wal.Format.valid_job flatline_c.Wal.Codec.record_fields
    flatline_c.Wal.Codec.encode_job flatline_c.Bytes.put_u16 flatline_c.Bytes.put_u32
    flatline_c.Bytes.put_u64
short_file = omega arith

read_history-written_example :
    Reached
      (read_history read_file same always 2 Replay.init empty_index no_report 0)
      after_log.0
      after_log.1
      (24 + length (bytes_of log))
      (length torn)
read_history-written_example =
    read_history-written read_file same same always 2 24 file header torn log after_log.0
      after_log.1 0 file-IsReader refl header_encoded refl
      ((allocation-encoded, refl, omega arith, omega arith), tt)
      (inr (
        logged creation,
        1,
        (creation-encoded, refl, omega arith, creation-Fits),
        omega arith,
        long_wire,
        refl,
      ))
      short_file (omega arith) log_replayed
