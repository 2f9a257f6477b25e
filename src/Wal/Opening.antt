-- ===== src/Wal/Opening.antt =====
-- coordinator/wal_replay.c: exact reads, and the opening of an existing log with its replay. Errno
-- numbers are those of Linux. What `calloc` answers, and `realloc` for a capacity, are parameters.
pub mod Exact
pub mod Tests
use flatline_c.Prelude.{
  ℕ, zero, suc, ◌+◌, ◌-◌, ◌^◌, Bool, true, false, not, ◌||◌, Option, none, some, List, [], ◌∷◌,
  ◌++◌, ltb, ◌==◌, if◌then◌else◌, length,
}
use flatline_c.Prelude.Result.{Result, ok, err}
use flatline_c.Wal.Replay
use flatline_c.Wal.Replay.{ReplayState}
use flatline_c.Wal.Replay.Index.{
  ReplayError, io_error, replay_capacity, no_memory, bad_format, bad_history, empty_index,
}
use flatline_c.Wal.Replay.History.{
  Report, Progress, Answer, Ending, finished, refused, unfinished, no_report, read_history,
}
use flatline_c.Wal.Writer.State.{
  ready, Operation, read_file, allocate_replay, validate_replay, truncate_tail, sync_recovery,
  sync_directory, WriteError, Writer, Machine, Step, SystemCall, ReadCall, got, read_interrupted,
  read_refused, Io, writer_fail, fail, is_failed, eio, enomem, eoverflow, eilseq, ◌>>=◌, ◌>>◌,
  answer, with_machine,
}
use flatline_c.Wal.Writer.{retry, sync, open_file, next_number}

-- `out_of_rounds` is none of the results of the source; it stands for rounds that were not
-- enough.
pub data OpenError : Type 0 where
  invalid_argument invalid_state out_of_rounds : OpenError
  replay_failed : ReplayError → OpenError

abbrev pub prefixed :
    List ℕ
    → {Os : Type 0} → Result WriteError (List ℕ) × Machine Os
    → Result WriteError (List ℕ) × Machine Os
prefixed bytes (ok rest, m) = (ok (bytes ++ rest), m)
prefixed bytes (err e, m) = (err e, m)

module _ {Os : Type 0} (io : Io Os) where
  -- `size` bytes are left to read; only a read of no bytes is the end of the file.
  unfoldable pub read_exact : ℕ → ℕ → Step Os (List ℕ)
  read_exact rounds zero m = (ok [], m)
  read_exact zero (suc size) m = (err WriteError.unfinished, m)
  read_exact (suc rounds) (suc size) m =
      let (called, os) = io.read m.os m.writer.fd (suc size) in
      elim called [
        | got bytes ↦
            if length bytes == 0
            then (ok [], record m { os = os })
            else if ltb (suc size) (length bytes)
            then fail read_file eio (record m { os = os })
            else prefixed bytes (read_exact rounds (suc size - length bytes) (record m { os = os }))
        | read_interrupted ↦ read_exact rounds (suc size) (record m { os = os })
        | read_refused e ↦ fail read_file e (record m { os = os })
      ]

  -- What the loop sees of an exact read. Rounds that run out are seen as an error.
  abbrev bytes_read : Result WriteError (List ℕ) × Machine Os → Option (List ℕ) × Machine Os
  bytes_read (ok bytes, m) = (some bytes, m)
  bytes_read (err e, m) = (none, m)

  abbrev pub reading : ℕ → Machine Os → ℕ → Option (List ℕ) × Machine Os
  reading rounds m size = bytes_read (read_exact rounds size m)

  abbrev pub overflow : Machine Os → Machine Os
  overflow m = record m { writer = writer_fail read_file eoverflow m.writer }

  -- An incomplete record at the end of the file is cut off.
  abbrev pub cut_tail : ℕ → Report → Step Os (Unit {0})
  cut_tail rounds report m =
      (if report.tail_bytes == 0
          then answer tt
          else (retry io rounds (λ os. io.truncate os m.writer.fd report.valid_bytes) truncate_tail
              >>= λ n. answer tt))
        m

  abbrev pub flush : ℕ → Step Os (Unit {0})
  flush rounds =
      with_machine (λ m. sync io rounds m.writer.fd sync_recovery)
      >> with_machine (λ m. sync io rounds m.writer.directory_fd sync_directory)

  -- The state is published, and the writer takes records.
  abbrev pub publish : ReplayState → Writer → Writer
  publish s w = record w {
    synced_sequence = s.last_sequence;
    next_sequence = next_number s.last_sequence;
    state = ready;
  }

  abbrev concluded :
      ReplayState
      → Result WriteError (Unit {0}) × Machine Os
      → Result OpenError ReplayState × Machine Os
  concluded s (ok u, m) = (ok s, record m { writer = publish s m.writer })
  concluded s (err WriteError.unfinished, m) = (err out_of_rounds, m)
  concluded s (err _, m) = (err (replay_failed io_error), m)

  -- A failure that is not one of the writer disables it.
  abbrev pub disabled : ReplayError → Writer → Writer
  disabled no_memory = writer_fail allocate_replay enomem
  disabled replay_capacity = writer_fail validate_replay eoverflow
  disabled _ = writer_fail validate_replay eilseq

  abbrev pub completed :
      ℕ → Answer → Progress (Machine Os) → Result OpenError ReplayState × Machine Os
  completed rounds finished p =
      concluded p.state ((cut_tail rounds p.report >> flush rounds) p.reader)
  completed rounds (refused e) p =
      (err (replay_failed e), record p.reader { writer = disabled e p.reader.writer })
  completed rounds unfinished p = (err out_of_rounds, p.reader)

  -- The answer and the report, with what is left of the writer.
  abbrev pub Opening : Type 0
  Opening = (Result OpenError ReplayState × Machine Os) × Report

  abbrev replay_history : ℕ → (ℕ → Bool) → Bool → Machine Os → Opening
  replay_history rounds grows false m = (
    (err (replay_failed no_memory), record m { writer = disabled no_memory m.writer }),
    no_report,
  )
  replay_history rounds grows true m =
      let e =
        read_history (reading rounds) overflow grows rounds Replay.init empty_index no_report m in
      (completed rounds e.answer e.progress, e.progress.report)

  abbrev after_open : ℕ → (ℕ → Bool) → Bool → Result WriteError (Unit {0}) × Machine Os → Opening
  after_open rounds grows allocated (ok u, m) = replay_history rounds grows allocated m
  after_open rounds grows allocated (err WriteError.invalid_argument, m) =
      ((err invalid_argument, m), no_report)
  after_open rounds grows allocated (err WriteError.invalid_state, m) =
      ((err invalid_state, m), no_report)
  after_open rounds grows allocated (err WriteError.unfinished, m) =
      ((err out_of_rounds, m), no_report)
  after_open rounds grows allocated (err _, m) = ((err (replay_failed io_error), m), no_report)

  unfoldable pub replay_open : ℕ → List ℕ → (ℕ → Bool) → Bool → Machine Os → Opening
  replay_open rounds path grows allocated m =
      after_open rounds grows allocated (open_file io rounds path false m)
