-- ===== src/Wal/Tests.antt =====
-- Runs of the log's codec, and the theorems at concrete inputs.
use flatline_c.Prelude.{ℕ, ◌+◌, ◌≡◌, refl, Bool, true, List, [], ◌∷◌, ◌++◌, length, take, arith}
use flatline_c.Prelude.Int.{pos}
use flatline_c.Prelude.Result.{Result, ok, err}
use flatline_c.Job.{Job, Bytes, queued, assigned, no_failure, time_unset, job_init, job_assign}
use flatline_c.Job.Invariant.{job_init-IsValid}
use flatline_c.Job.Lifecycle.{assigns}
use flatline_c.Wal.Format.{
  WalError, incomplete, Record, worker_id_allocated, job_snapshot, job_created, job_assigned, crc32,
  valid_job,
}
use flatline_c.Wal.Format.Snapshots.{perform-logged}
use flatline_c.Wal.Codec.{file_header_encode, file_header_decode, record_encode, record_decode}
use flatline_c.Wal.Codec.RoundTrip.{record_decode-record_encode, record_decode_cut, EntryFits}

-- The check value of this CRC, of "123456789".
crc32_check : crc32 (49 ∷ 50 ∷ 51 ∷ 52 ∷ 53 ∷ 54 ∷ 55 ∷ 56 ∷ 57 ∷ []) ≡ 3421780262
unfolding crc32
crc32_check = refl

abbrev hello : Bytes
hello = record { start = flatline_c.Prelude.some (104 ∷ 105 ∷ []); size = 2 }

abbrev fresh : Job
fresh = record {
  id = 7;
  task_type = 4;
  arguments = 104 ∷ 105 ∷ [];
  state = queued;
  worker_id = 0;
  attempt = 0;
  retry_count = 0;
  max_retries = 1;
  created_at_ms = pos 10;
  updated_at_ms = pos 10;
  assigned_at_ms = time_unset;
  started_at_ms = time_unset;
  finished_at_ms = time_unset;
  output = [];
  failure = no_failure;
}

fresh_made : job_init 7 4 hello 1 (pos 10) ≡ ok fresh
unfolding job_init
fresh_made = refl

abbrev taken : Job
taken = record fresh {
  state = assigned;
  worker_id = 3;
  attempt = 1;
  assigned_at_ms = pos 20;
  updated_at_ms = pos 20;
}

taken_made : job_assign fresh 3 (pos 20) ≡ ok taken
unfolding job_assign
taken_made = refl

perform-logged_example : valid_job job_assigned taken ≡ true
perform-logged_example =
    perform-logged fresh (assigns 3 (pos 20)) taken taken_made
      (job_init-IsValid 7 4 hello 1 (pos 10) fresh_made (omega arith))

abbrev creation : Record
creation = record { sequence = 2; entry = job_snapshot job_created fresh }

abbrev bytes_of : Result WalError (List ℕ) → List ℕ
bytes_of (ok bytes) = bytes
bytes_of (err e) = []

creation_written : record_encode 200 creation ≡ ok (bytes_of (record_encode 200 creation))
unfolding record_encode flatline_c.Wal.Format.payload_bounds valid_job
creation_written = refl

abbrev written : List ℕ
written = bytes_of (record_encode 200 creation)

length-written : length written ≡ 118
unfolding record_encode flatline_c.Wal.Format.payload_bounds valid_job
    flatline_c.Wal.Codec.record_fields flatline_c.Wal.Codec.encode_job flatline_c.Bytes.put_u16
    flatline_c.Bytes.put_u32 flatline_c.Bytes.put_u64
length-written = refl

creation-Fits : EntryFits creation.entry
creation-Fits = record {
  id = omega arith;
  task_type = omega arith;
  worker_id = omega arith;
  attempt = omega arith;
  retry_count = omega arith;
  max_retries = omega arith;
  created_at_ms = omega arith;
  updated_at_ms = omega arith;
  assigned_at_ms = omega arith;
  started_at_ms = omega arith;
  finished_at_ms = omega arith;
}

record_decode-record_encode_example :
    record_decode (written ++ 1 ∷ 2 ∷ []) 2 ≡ ok (creation, length written)
record_decode-record_encode_example =
    record_decode-record_encode 200 creation written (1 ∷ 2 ∷ []) creation_written (omega arith)
      creation-Fits

record_decode_cut_example : record_decode (take 100 written) 2 ≡ err incomplete
record_decode_cut_example =
    record_decode_cut 200 creation written 100 creation_written (omega arith)
      (rw length-written (omega arith))

header_written : file_header_encode 24 ≡ ok (bytes_of (file_header_encode 24))
unfolding file_header_encode
header_written = refl
