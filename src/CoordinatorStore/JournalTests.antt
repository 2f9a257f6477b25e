-- ===== src/CoordinatorStore/JournalTests.antt =====
-- A system that takes at most 50 bytes at a time, and a session of the store with the log on it.
use flatline_c.Prelude.{
  ℕ, ◌≡◌, refl, sym, ap, ◌∙◌, Bool, true, false, none, Option, List, [], ◌∷◌, ◌++◌, length, take,
  arith, if◌then◌else◌,
}
use flatline_c.Prelude.Int.{pos}
use flatline_c.Prelude.Result.{Result, ok, err}
use flatline_c.Protocol.Message.{JobSubmit}
use flatline_c.Scheduler
use flatline_c.Wal.Format.{Record}
use flatline_c.Wal.Codec.{file_header_encode, record_encode}
use flatline_c.Wal.Replay.{ReplayState}
use flatline_c.Wal.Replay.Index.{ReplayError, io_error}
use flatline_c.Wal.Writer.State.{writer_init, got, done, Io}
use flatline_c.Wal.Writer.{create_log}
use flatline_c.Wal.Writer.Tests.{take-length-take}
use flatline_c.Wal.Writer.Written.{IsFile}
use flatline_c.Wal.Writer.Created.{IsCreation, file_header}
use flatline_c.CoordinatorStore.LogWriter.{LogWriter, next_number_of, append_logged, IsJournal}
use flatline_c.CoordinatorStore.State.{Store, StoreError}
use flatline_c.CoordinatorStore.Open.{init_store, open_store}
use flatline_c.CoordinatorStore.Recovery.{StoreCall, registers, submits, run}
use flatline_c.CoordinatorStore.Session.{IsDurableLog}
use flatline_c.CoordinatorStore.SessionFile.{create_logged, IsReopened, session-IsJournal}

-- The system is the file; descriptors 3 and 4, and a regular file.
abbrev steady : Io (List ℕ)
steady = record {
  duplicate = λ os. (true, os);
  open_directory = λ os path. (done 3, os);
  open_file = λ os fd path create. (done 4, if create then [] else os);
  stat = λ os fd. (done 33152, os);
  lock = λ os fd. (done 0, os);
  write = λ os fd bytes. (done (length (take 50 bytes)), os ++ take 50 bytes);
  sync = λ os fd. (done 0, os);
  close = λ os fd. (done 0, os);
  read = λ os fd size. (got [], os);
  truncate = λ os fd size. (done 0, os);
}

abbrev content : List ℕ → List ℕ
content os = os

abbrev patience : List ℕ → ℕ
patience os = 0

written_length :
    (os : List ℕ) (fd : Option ℕ) (bytes : List ℕ) (n : ℕ)
    → (steady.write os fd bytes).0 ≡ done n
    → length (take 50 bytes) ≡ n
written_length os fd bytes n h = cc

steady-IsFile : IsFile steady content patience
steady-IsFile = record {
  appends = λ os fd bytes n h. (
    ap (◌++◌ os)
        (sym (take-length-take 50 bytes) ∙ ap (λ k. take k bytes) (written_length os fd bytes n h)),
    omega arith,
  );
  waits = λ os fd bytes h. cc;
  refuses = λ os fd bytes e h. cc;
  syncs = λ os fd. refl;
  sync_waits = λ os fd h. cc;
}

steady-IsCreation : IsCreation steady content
steady-IsCreation = record {
  creates = λ os fd name n h. refl;
  stats = λ os fd. refl;
  locks = λ os fd. refl;
}

-- The path "a/b", and a handle that is closed.
abbrev path : List ℕ
path = 97 ∷ 47 ∷ 98 ∷ []

abbrev closed_log : LogWriter (List ℕ)
closed_log = (record { writer = writer_init; os = [] }, [])

abbrev always : ℕ → Bool
always n = true

abbrev never_used : LogWriter (List ℕ) → Bool
never_used w = false

abbrev no_replay : LogWriter (List ℕ) → Result ReplayError ReplayState × LogWriter (List ℕ)
no_replay w = (err io_error, w)

abbrev close_kept : LogWriter (List ℕ) → Bool × LogWriter (List ℕ)
close_kept w = (true, w)

abbrev next : LogWriter (List ℕ) → ℕ
next = next_number_of steady 3000

abbrev append_one : LogWriter (List ℕ) → Record → Bool × LogWriter (List ℕ)
append_one = append_logged steady 3000

never_reopened : IsReopened steady content patience 3000 path always never_used no_replay close_kept
never_reopened = λ w w' r h. cc

abbrev hash_job : JobSubmit
hash_job = record { task_type = 4; max_retries = 1; arguments = 97 ∷ [] }

abbrev calls : List StoreCall
calls = registers (pos 4) (pos 105) ∷ submits hash_job (pos 106) ∷ []

abbrev opening : Result StoreError (Unit {0}) × Store (LogWriter (List ℕ))
opening =
    open_store next append_one never_used (create_logged steady 3000 path) no_replay close_kept true
      (pos 100) (init_store closed_log)

opening_ok : opening ≡ (ok tt, opening.1)
unfolding open_store init_store Scheduler.init create_log file_header_encode
    flatline_c.Bytes.put_u16 flatline_c.Bytes.put_u32
opening_ok = refl

abbrev served : Store (LogWriter (List ℕ))
served = run next append_one opening.1 calls

served_healthy : served.failure ≡ none
unfolding run open_store init_store Scheduler.init flatline_c.CoordinatorStore.assign
    flatline_c.CoordinatorStore.submit flatline_c.CoordinatorStore.register
    flatline_c.WorkerRegistry.register flatline_c.WorkerRegistry.free_slot record_encode
    flatline_c.Wal.Format.payload_bounds Scheduler.submit flatline_c.Job.job_init
    flatline_c.JobQueue.push Scheduler.find flatline_c.Wal.Format.valid_job
    flatline_c.WorkerRegistry.find flatline_c.WorkerRegistry.find_slot flatline_c.Wal.Writer.append
    create_log file_header_encode flatline_c.Wal.Codec.record_fields flatline_c.Bytes.put_u16
    flatline_c.Bytes.put_u32 flatline_c.Bytes.put_u64 flatline_c.Wal.Format.crc32
    flatline_c.Wal.Codec.encode_job
served_healthy = refl

session-IsJournal_example :
    IsJournal content file_header served.wal
    × IsDurableLog next append_one
        (λ w. w.1)
        always
        never_used
        (create_logged steady 3000 path)
        no_replay
        close_kept
        served
session-IsJournal_example =
    session-IsJournal steady content patience 3000 path always never_used no_replay close_kept true
      (pos 100) closed_log opening.1 calls steady-IsFile steady-IsCreation (λ os. omega arith)
      never_reopened opening_ok (tt, (omega arith, tt)) served_healthy
