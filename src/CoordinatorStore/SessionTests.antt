-- ===== src/CoordinatorStore/SessionTests.antt =====
-- A log that is a list of records with their bytes, and the theorems on a session with it.
use flatline_c.Prelude.{
  ℕ, ◌+◌, ◌^◌, ◌≡◌, refl, sym, ap, subst, inl, inr, Bool, true, false, ◌&&◌, none, List, [], ◌∷◌,
  ◌++◌, All, length, ltb, if◌then◌else◌, Bool-cases, arith,
}
use flatline_c.Prelude.Int.{pos}
use flatline_c.Prelude.Result.{Result, ok, err, Result-cases, ok_inj}
use flatline_c.Protocol.Message.{JobSubmit}
use flatline_c.Scheduler
use flatline_c.Scheduler.{is_active}
use flatline_c.Scheduler.Invariant.{IsValid}
use flatline_c.Wal.Format.{WalError, Record, Entry, worker_id_allocated, job_snapshot}
use flatline_c.Wal.Codec.{record_encode}
use flatline_c.Wal.Replay
use flatline_c.Wal.Replay.{ReplayState, max_record_size}
use flatline_c.Wal.Replay.Index.{WorkerIndex, ReplayError, io_error, empty_index}
use flatline_c.Wal.Replay.Recovered.{EntryBounds, init-IsRecovered}
use flatline_c.Wal.Replay.Log.{LoggedRecord, replay, replay-IsRecovered}
use flatline_c.CoordinatorStore.State.{Store, StoreError}
use flatline_c.CoordinatorStore.Open.{init_store, open_store}
use flatline_c.CoordinatorStore.Recovery.{StoreCall, registers, submits, assigns, run, IsWriter}
use flatline_c.CoordinatorStore.Restart.{open_store-idle}
use flatline_c.CoordinatorStore.Session.{IsLog, IsDurableLog, session_replayed}

abbrev always : ℕ → Bool
always n = true

abbrev next_number : List LoggedRecord → ℕ
next_number log = length log + 1

abbrev put : List LoggedRecord → Record → Result WalError (List ℕ) → Bool × List LoggedRecord
put log r (ok wire) = (true, log ++ (r, wire) ∷ [])
put log r (err e) = (false, log)

abbrev append_one : List LoggedRecord → Record → Bool × List LoggedRecord
append_one log r = put log r (record_encode max_record_size r)

abbrev written : List LoggedRecord → List LoggedRecord
written log = log

list-IsWriter : IsWriter next_number append_one written always
list-IsWriter w w' r h = elim (Result-cases (record_encode max_record_size r)) [
  | inr (e, f) ↦ let h' = rw f at h in cc
  | inl (wire, f) ↦ (wire, f, sym (ap (λ (x : Bool × List LoggedRecord). x.1) (rw f at h)))
]

abbrev never_used : List LoggedRecord → Bool
never_used log = false

abbrev create_empty : List LoggedRecord → Bool × List LoggedRecord
create_empty log = (true, [])

abbrev close_list : List LoggedRecord → Bool × List LoggedRecord
close_list log = (true, log)

abbrev in_bounds : Entry → Bool
in_bounds (worker_id_allocated id) = ltb id (2 ^ 32)
in_bounds (job_snapshot kind j) = ltb j.id (2 ^ 64) && ltb j.max_retries (2 ^ 32)

unfoldable all_in_bounds : List LoggedRecord → Bool
all_in_bounds [] = true
all_in_bounds (l ∷ log) = in_bounds l.0.entry && all_in_bounds log

abbrev answered : Result ReplayError (ReplayState × WorkerIndex) → Result ReplayError ReplayState
answered (ok (s, index)) = ok s
answered (err e) = err e

abbrev replay_list : List LoggedRecord → Result ReplayError ReplayState × List LoggedRecord
replay_list log = (
  if all_in_bounds log
      then answered (replay always (Replay.init, empty_index) log)
      else err io_error,
  log,
)

entry_bounds : (e : Entry) → in_bounds e ≡ true → EntryBounds e
entry_bounds (worker_id_allocated id) h = ground arith
entry_bounds (job_snapshot kind j) h = (ground arith, ground arith)

log_bounds :
    (log : List LoggedRecord)
    → all_in_bounds log ≡ true
    → All (λ (l : LoggedRecord). EntryBounds l.0.entry) log
unfolding all_in_bounds
log_bounds [] h = tt
log_bounds (l ∷ log) h = (entry_bounds l.0.entry (ground arith), log_bounds log (ground arith))

list_replayed :
    (w w' : List LoggedRecord) (r : ReplayState)
    → replay_list w ≡ (ok r, w')
    → (index : WorkerIndex) × (replay always (Replay.init, empty_index) w' ≡ ok (r, index))
      × All (λ (l : LoggedRecord). EntryBounds l.0.entry) w'
list_replayed w w' r h = elim (Bool-cases (all_in_bounds w)) [
  | inr bad ↦ let h' = rw bad at h in cc
  | inl good ↦ elim (Result-cases (replay always (Replay.init, empty_index) w)) [
    | inr (e, f) ↦ let h' = rw (good, f) at h in cc
    | inl ((s, index), f) ↦
        let h' : (ok s, w) ≡ (ok r, w') = rw (good, f) at h in
        let same : w ≡ w' =
          ap (λ (x : Result ReplayError ReplayState × List LoggedRecord). x.1) h' in
        let state : s ≡ r =
          ok_inj (ap (λ (x : Result ReplayError ReplayState × List LoggedRecord). x.0) h') in
        (
          index,
          rw (← same, ← state) f,
          subst (All (λ (l : LoggedRecord). EntryBounds l.0.entry)) same (log_bounds w good),
        )
  ]
]

list-IsLog :
    IsLog next_number append_one written always never_used create_empty replay_list close_list
list-IsLog = (λ w w' h. sym (ap (λ (x : Bool × List LoggedRecord). x.1) h), list_replayed)

replayed-IsValid :
    (w w' : List LoggedRecord) (r : ReplayState) → replay_list w ≡ (ok r, w') → IsValid r.scheduler
replayed-IsValid w w' r h =
    let (index, replayed, bounds) = list_replayed w w' r h in
    (replay-IsRecovered always Replay.init r empty_index index w' replayed bounds
      init-IsRecovered).store

abbrev hash_job : JobSubmit
hash_job = record { task_type = 4; max_retries = 1; arguments = 97 ∷ [] }

abbrev calls : List StoreCall
calls = registers (pos 4) (pos 105) ∷ submits hash_job (pos 106) ∷ assigns 1 (pos 107) ∷ []

-- A new log is created.
abbrev first_opened : Result StoreError (Unit {0}) × Store (List LoggedRecord)
first_opened =
    open_store next_number append_one never_used create_empty replay_list close_list true (pos 100)
      (init_store [])

first_open : first_opened ≡ (ok tt, first_opened.1)
unfolding open_store init_store Scheduler.init
first_open = refl

abbrev served : Store (List LoggedRecord)
served = run next_number append_one first_opened.1 calls

served_healthy : served.failure ≡ none
unfolding run open_store init_store Scheduler.init flatline_c.CoordinatorStore.assign
    flatline_c.CoordinatorStore.submit flatline_c.CoordinatorStore.register
    flatline_c.WorkerRegistry.register flatline_c.WorkerRegistry.free_slot record_encode
    flatline_c.Wal.Format.payload_bounds Scheduler.submit flatline_c.Job.job_init
    flatline_c.JobQueue.push Scheduler.find flatline_c.Wal.Format.valid_job
    flatline_c.WorkerRegistry.find flatline_c.WorkerRegistry.find_slot Scheduler.assign
    Scheduler.active flatline_c.JobQueue.peek flatline_c.Job.job_assign flatline_c.JobQueue.pop
served_healthy = refl

session_replayed_example :
    IsDurableLog next_number append_one written always never_used create_empty replay_list
      close_list served
session_replayed_example =
    session_replayed next_number append_one written always never_used create_empty replay_list
      close_list true (pos 100) [] first_opened.1 calls list-IsWriter list-IsLog first_open
      (tt, (omega arith, (tt, tt))) served_healthy

-- The next session finds the job under way and takes it back.
abbrev second_opened : Result StoreError (Unit {0}) × Store (List LoggedRecord)
second_opened =
    open_store next_number append_one never_used create_empty replay_list close_list false (pos 200)
      (init_store served.wal)

second_open : second_opened ≡ (ok tt, second_opened.1)
unfolding run open_store init_store Scheduler.init flatline_c.CoordinatorStore.assign
    flatline_c.CoordinatorStore.submit flatline_c.CoordinatorStore.register
    flatline_c.WorkerRegistry.register flatline_c.WorkerRegistry.free_slot record_encode
    flatline_c.Wal.Format.payload_bounds Scheduler.submit flatline_c.Job.job_init
    flatline_c.JobQueue.push Scheduler.find flatline_c.Wal.Format.valid_job
    flatline_c.WorkerRegistry.find flatline_c.WorkerRegistry.find_slot Scheduler.assign
    Scheduler.active flatline_c.JobQueue.peek flatline_c.Job.job_assign flatline_c.JobQueue.pop
    all_in_bounds replay Replay.init flatline_c.Wal.Replay.Log.accept
    flatline_c.Wal.Replay.apply_record flatline_c.Wal.Replay.Index.index_worker
    flatline_c.CoordinatorStore.commit_worker_loss flatline_c.Wal.Codec.record_fields
    flatline_c.Bytes.put_u16 flatline_c.Bytes.put_u32 flatline_c.Bytes.put_u64
    flatline_c.Wal.Format.crc32 flatline_c.Wal.Codec.encode_job Scheduler.worker_lost
    flatline_c.Job.job_fail Scheduler.publish_outcome
second_open = refl

open_store-idle_example :
    (second_opened.1.opened ≡ true)
    × IsValid second_opened.1.jobs
    × All (λ j. is_active j.state ≡ false) second_opened.1.jobs.jobs
open_store-idle_example =
    open_store-idle next_number append_one never_used create_empty replay_list close_list false
      (pos 200) served.wal second_opened.1 replayed-IsValid second_open
