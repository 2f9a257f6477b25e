-- ===== src/Wal/Writer/Tests.antt =====
-- A system that interrupts its first writes and takes at most 50 bytes at a time, and the theorems on
-- the writer with it.
use mathlib.Core.List.{append-nil}
use flatline_c.Prelude.{
  ℕ, zero, suc, ◌+◌, ◌≤◌, ◌<◌, ◌≡◌, refl, sym, ap, ◌∙◌, true, Option, List, [], ◌∷◌, ◌++◌, length,
  take, arith,
}
use flatline_c.Prelude.Result.{Result, ok, err}
use flatline_c.Wal.Format.{
  WalError, Record, record_header_size, max_payload_size, worker_id_allocated,
}
use flatline_c.Wal.Codec.{file_header_encode, record_encode}
use flatline_c.Wal.Codec.Bounds.{record_encode_bounds}
use flatline_c.Wal.Replay.File.{bytes_of}
use flatline_c.Wal.Writer.State.{
  ready, Writer, writer_init, Machine, SystemCall, got, done, interrupted, Io,
}
use flatline_c.Wal.Writer.{append, create_log}
use flatline_c.Wal.Writer.Written.{IsFile, Appended, append-Appended}
use flatline_c.Wal.Writer.LogFile.{Extends, append-Extends}

-- The interruptions to come, and the file.
abbrev System : Type 0
System = ℕ × List ℕ

abbrev write_some : System → Option ℕ → List ℕ → SystemCall × System
write_some (zero, file) fd bytes = (done (length (take 50 bytes)), (zero, file ++ take 50 bytes))
write_some (suc left, file) fd bytes = (interrupted, (left, file))

-- Descriptors 3 and 4, and a regular file.
abbrev small_system : Io System
small_system = record {
  duplicate = λ os. (true, os);
  open_directory = λ os path. (done 3, os);
  open_file = λ os fd path create. (done 4, os);
  stat = λ os fd. (done 33152, os);
  lock = λ os fd. (done 0, os);
  write = write_some;
  sync = λ os fd. (done 0, os);
  close = λ os fd. (done 0, os);
  read = λ os fd size. (got [], os);
  truncate = λ os fd size. (done 0, os);
}

abbrev content : System → List ℕ
content os = os.1

abbrev patience : System → ℕ
patience os = os.0

pub take-length-take : (k : ℕ) (xs : List ℕ) → take (length (take k xs)) xs ≡ take k xs
take-length-take zero xs = refl
take-length-take (suc k) [] = refl
take-length-take (suc k) (x ∷ xs) = ap (◌∷◌ x) (take-length-take k xs)

appended :
    (os : System) (fd : Option ℕ) (bytes : List ℕ) (n : ℕ)
    → (write_some os fd bytes).0 ≡ done n
    → (content (write_some os fd bytes).1 ≡ content os ++ take n bytes)
      × (patience (write_some os fd bytes).1 ≤ patience os)
appended (zero, file) fd bytes n h =
    let size : length (take 50 bytes) ≡ n = cc in
    (ap (◌++◌ file) (sym (take-length-take 50 bytes) ∙ ap (λ k. take k bytes) size), omega arith)
appended (suc left, file) fd bytes n h = cc

waited :
    (os : System) (fd : Option ℕ) (bytes : List ℕ)
    → (write_some os fd bytes).0 ≡ interrupted
    → (content (write_some os fd bytes).1 ≡ content os)
      × (patience (write_some os fd bytes).1 < patience os)
waited (zero, file) fd bytes h = cc
waited (suc left, file) fd bytes h = (refl, omega arith)

refused_none :
    (os : System) (fd : Option ℕ) (bytes : List ℕ) (e : ℕ)
    → (write_some os fd bytes).0 ≡ SystemCall.refused e
    → content (write_some os fd bytes).1 ≡ content os
refused_none (zero, file) fd bytes e h = cc
refused_none (suc left, file) fd bytes e h = refl

small_system-IsFile : IsFile small_system content patience
small_system-IsFile = record {
  appends = appended;
  waits = waited;
  refuses = refused_none;
  syncs = λ os fd. refl;
  sync_waits = λ os fd h. cc;
}

-- A created log, with the path "a/b".
abbrev new_log : Result flatline_c.Wal.Writer.State.WriteError (Unit {0}) × Machine System
new_log =
    create_log small_system 9 (97 ∷ 47 ∷ 98 ∷ []) (record { writer = writer_init; os = (2, []) })

abbrev header : List ℕ
header = new_log.1.os.1

created : new_log.0 ≡ ok tt
unfolding create_log file_header_encode flatline_c.Bytes.put_u16 flatline_c.Bytes.put_u32
created = refl

abbrev allocation : Record
allocation = record { sequence = 1; entry = worker_id_allocated 1 }

abbrev ready_log : Machine System
ready_log = record { writer = new_log.1.writer; os = (3, header) }

append-Appended_example :
    Appended small_system content patience ready_log allocation
      (append small_system 3000 allocation ready_log)
append-Appended_example =
    append-Appended small_system content patience 3000 allocation ready_log small_system-IsFile
      (omega arith)

due : new_log.1.writer.next_sequence ≡ 1
unfolding create_log file_header_encode flatline_c.Bytes.put_u16 flatline_c.Bytes.put_u32
due = refl

whole : header ≡ header ++ bytes_of []
unfolding bytes_of
whole = sym (append-nil header)

append-Extends_example :
    Extends small_system content patience header [] ready_log allocation
      (append small_system 3000 allocation ready_log)
append-Extends_example =
    append-Extends small_system content patience 3000 header [] allocation ready_log
      small_system-IsFile (omega arith) (whole, tt) (due ∙ omega arith) (sym due) (omega arith)
      (omega arith)

abbrev bytes_of_result : Result WalError (List ℕ) → List ℕ
bytes_of_result (ok bytes) = bytes
bytes_of_result (err e) = []

abbrev wire : List ℕ
wire = bytes_of_result (record_encode 40 allocation)

encoded : record_encode 40 allocation ≡ ok wire
unfolding record_encode flatline_c.Wal.Format.payload_bounds
encoded = refl

record_encode_bounds_example :
    (record_header_size < length wire)
    × (length wire ≤ 40)
    × (length wire ≤ record_header_size + max_payload_size)
record_encode_bounds_example = record_encode_bounds 40 allocation wire encoded
