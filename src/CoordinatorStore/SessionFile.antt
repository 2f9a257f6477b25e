-- ===== src/CoordinatorStore/SessionFile.antt =====
-- A session of the coordinator's store over the writer of coordinator/wal_writer.c, down to the bytes
-- of the file.
use mathlib.Core.List.{append-nil}
use flatline_c.Prelude.{
  ℕ, ◌+◌, ◌∙◌, ◌<◌, ◌≡◌, refl, sym, ap, subst, Bool, true, false, none, List, [], All,
}
use flatline_c.Prelude.Int.{ℤ}
use flatline_c.Prelude.Result.{Result, ok, err}
use flatline_c.Wal.Replay
use flatline_c.Wal.Replay.{ReplayState, max_record_size}
use flatline_c.Wal.Replay.Index.{ReplayError, WorkerIndex, empty_index}
use flatline_c.Wal.Replay.Recovered.{EntryBounds}
use flatline_c.Wal.Replay.Log.{LoggedRecord, replay}
use flatline_c.Wal.Replay.File.{bytes_of}
use flatline_c.Wal.Writer.State.{WriteError, Machine, Io}
use flatline_c.Wal.Writer.{create_log}
use flatline_c.Wal.Writer.Written.{IsFile}
use flatline_c.Wal.Writer.Created.{IsCreation, Created, file_header, create_log-Created}
use flatline_c.CoordinatorStore.State.{Store}
use flatline_c.CoordinatorStore.Open.{init_store, open_store}
use flatline_c.CoordinatorStore.Recovery.{StoreCall, CallFits, run}
use flatline_c.CoordinatorStore.Kept.{session-Keeps}
use flatline_c.CoordinatorStore.Session.{IsDurableLog, session_replayed}
use flatline_c.CoordinatorStore.LogWriter.{
  LogWriter, next_number_of, append_logged, append_logged-IsWriter, IsJournal,
  append_logged-IsJournal,
}

abbrev new_answer : {Os : Type 0} → Result WriteError (Unit {0}) × Machine Os → Bool × LogWriter Os
new_answer (ok u, m) = (true, (m, []))
new_answer (err e, m) = (false, (m, []))

-- A log that is created holds no record.
abbrev pub create_logged : {Os : Type 0} → Io Os → ℕ → List ℕ → LogWriter Os → Bool × LogWriter Os
create_logged io rounds path (m, log) = new_answer (create_log io rounds path m)

answered_true :
    {Os : Type 0} (x : Result WriteError (Unit {0}) × Machine Os) (w : LogWriter Os)
    → new_answer x ≡ (true, w)
    → (x.0 ≡ ok tt) × ((x.1, []) ≡ w)
answered_true (ok u, m) w h = (refl, ap (λ (y : Bool × LogWriter _). y.1) h)
answered_true (err e, m) w h = cc

Created-IsJournal :
    {Os : Type 0} (content : Os → List ℕ) (m : Machine Os)
    → Created content m
    → IsJournal content file_header (m, [])
unfolding bytes_of
Created-IsJournal content m (bytes, next) = record {
  bytes = bytes ∙ sym (append-nil file_header);
  encoded = tt;
  next = next;
}

module _ {Os : Type 0} (io : Io Os) (content : Os → List ℕ) (patience : Os → ℕ) (rounds : ℕ)
    (path : List ℕ) (grows : ℕ → Bool) (in_use : LogWriter Os → Bool)
    (replay_open : LogWriter Os → Result ReplayError ReplayState × LogWriter Os)
    (close_wal : LogWriter Os → Bool × LogWriter Os) where
  -- The log of an earlier session: the file holds the records that replay has read.
  abbrev pub IsReopened : Type 0
  IsReopened =
      (w w' : LogWriter Os) (r : ReplayState)
      → replay_open w ≡ (ok r, w')
      → IsJournal content file_header w'
        × ((index : WorkerIndex) × (replay grows (Replay.init, empty_index) w'.1 ≡ ok (r, index))
            × All (λ (l : LoggedRecord). EntryBounds l.0.entry) w'.1)

  -- A session of the store over the writer of wal_writer.c, on a log that create_log makes or that is
  -- read again; the system appends what it writes, creates files empty, and interrupts no more often
  -- than the rounds allow for, and a log that is read again holds the header and the records that
  -- replay has read. If the store opens and has not failed after the calls, then the file holds exactly
  -- the header and the bytes that the encoder makes of the accepted records, which are numbered from
  -- 1; and these records replay to the published jobs, queue, next worker ID and last job time,
  -- unless the replay runs out of memory.
  pub session-IsJournal :
      (b : Bool) (now : ℤ) (wal : LogWriter Os) (s : Store (LogWriter Os)) (cs : List StoreCall)
      → IsFile io content patience
      → IsCreation io content
      → ((os : Os) → max_record_size + patience os < rounds)
      → IsReopened
      → open_store
          (next_number_of io rounds)
          (append_logged io rounds)
          in_use
          (create_logged io rounds path)
          replay_open
          close_wal
          b
          now
          (init_store wal)
        ≡ (ok tt, s)
      → All CallFits cs
      → (run (next_number_of io rounds) (append_logged io rounds) s cs).failure ≡ none
      → IsJournal content file_header
          (run (next_number_of io rounds) (append_logged io rounds) s cs).wal
        × IsDurableLog
            (next_number_of io rounds)
            (append_logged io rounds)
            (λ w. w.1)
            grows
            in_use
            (create_logged io rounds path)
            replay_open
            close_wal
            (run (next_number_of io rounds) (append_logged io rounds) s cs)
  session-IsJournal b now wal s cs law new room old h fits healthy = (
    session-Keeps (next_number_of io rounds) (append_logged io rounds)
        (IsJournal content file_header) in_use (create_logged io rounds path) replay_open close_wal
        b now wal s cs
        (λ w w' r took v.
          append_logged-IsJournal io content patience rounds file_header w w' r law (room w.0.os)
            took v)
        (
          λ w w' made.
              let (answered, same) = answered_true (create_log io rounds path w.0) w' made in
              subst (IsJournal content file_header) same (
                Created-IsJournal content _ (
                  create_log-Created io content patience rounds path law new room w.0 tt tt
                    answered)),
          λ w w' r read. (old w w' r read).0,
        )
        h healthy,
    session_replayed (next_number_of io rounds) (append_logged io rounds) (λ w. w.1) grows in_use
        (create_logged io rounds path) replay_open close_wal b now wal s cs
        (append_logged-IsWriter io rounds grows)
        (
          λ w w' made. sym (
              ap (λ (x : LogWriter Os). x.1)
                (answered_true (create_log io rounds path w.0) w' made).1),
          λ w w' r read. (old w w' r read).1,
        )
        h fits healthy,
  )
