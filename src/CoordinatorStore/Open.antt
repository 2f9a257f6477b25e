-- ===== src/CoordinatorStore/Open.antt =====
-- coordinator/coordinator_store.c: opening a store, with the recovery of interrupted jobs, and closing
-- it. What the log answers to its creation, to its replay and to its closing are parameters.
use flatline_c.Prelude.{
  ℕ, zero, suc, ◌+◌, Bool, true, false, ◌||◌, Option, none, some, length, get_elem?, if◌then◌else◌,
}
use flatline_c.Prelude.Int.{ℤ, pos, is_neg}
use flatline_c.Prelude.Result.{Result, ok, err}
use flatline_c.Job.{Job}
use flatline_c.Scheduler
use flatline_c.Scheduler.{is_active}
use flatline_c.WorkerRegistry
use flatline_c.Wal.Format.{Record}
use flatline_c.Wal.Replay.{ReplayState}
use flatline_c.Wal.Replay.Index.{ReplayError}
use flatline_c.CoordinatorStore.State.{
  Store, Step, StoreError, fatal, open_failure, wal_failure, clock_failure, ◌>>◌, answer, fail,
  refuse_if, fail_if, with_store,
}
use flatline_c.CoordinatorStore.{has_failed, commit_worker_loss}

-- `faultline_store_init`, with a closed writer.
unfoldable pub init_store : {Wal : Type 0} → Wal → Store Wal
unfolding Scheduler.init WorkerRegistry.init
init_store wal = record {
  jobs = Scheduler.init;
  workers = WorkerRegistry.init;
  wal = wal;
  failure = none;
  opened = false;
  time_base_ms = pos 0;
  session_start_ms = pos 0;
  last_job_time_ms = pos 0;
  interrupted_jobs = 0;
}

abbrev pub set_store : {Wal : Type 0} → (Store Wal → Store Wal) → Step Wal (Unit {0})
set_store f = λ s. (ok tt, f s)

module _ {Wal : Type 0} (next_sequence : Wal → ℕ) (append : Wal → Record → Bool × Wal) where
  -- A call that answers anything but OK ends the recovery.
  abbrev pub lost_attempt :
      Result StoreError (Unit {0}) × Store Wal → Result StoreError (Unit {0}) × Store Wal
  lost_attempt (ok u, s) = (ok tt, record s { interrupted_jobs = s.interrupted_jobs + 1 })
  lost_attempt (err e, s) = (err fatal, s)

  abbrev pub recover_job : Option Job → ℤ → Step Wal (Unit {0})
  recover_job none now_ms = answer tt
  recover_job (some job) now_ms =
      if is_active job.state
      then (λ s. lost_attempt (commit_worker_loss next_sequence append job.worker_id now_ms s))
      else answer tt

  -- The loop from slot `i` on, with `rounds` slots left; a round reads the store that the last one left.
  unfoldable pub recover_from : ℕ → ℕ → ℤ → Step Wal (Unit {0})
  recover_from i zero now_ms = answer tt
  recover_from i (suc rounds) now_ms =
      with_store (λ s. recover_job (get_elem? s.jobs.jobs i) now_ms)
      >> recover_from (i + 1) rounds now_ms

  unfoldable pub recover_interrupted_jobs : ℤ → Step Wal (Unit {0})
  unfolding recover_from
  recover_interrupted_jobs now_ms = with_store λ s. recover_from 0 (length s.jobs.jobs) now_ms

  module _ (in_use : Wal → Bool) (create : Wal → Bool × Wal)
      (replay_open : Wal → Result ReplayError ReplayState × Wal)
      (close_wal : Wal → Bool × Wal) where
    abbrev pub created : Bool × Wal → Step Wal (Unit {0})
    created (true, w) = set_store (λ s. record s { wal = w })
    created (false, w) = λ s. fail open_failure (record s { wal = w })

    abbrev pub replayed : Result ReplayError ReplayState × Wal → Step Wal (Unit {0})
    replayed (ok r, w) = set_store (λ s. record s {
      wal = w;
      jobs = r.scheduler;
      workers = r.workers;
      time_base_ms = r.job_time_base_ms;
    })
    replayed (err e, w) = λ s. fail open_failure (record s { wal = w })

    abbrev pub loaded : Bool → Step Wal (Unit {0})
    loaded true = with_store (λ s. created (create s.wal))
    loaded false = with_store (λ s. replayed (replay_open s.wal))

    abbrev pub begin_session : ℤ → Step Wal (Unit {0})
    begin_session now_ms =
        set_store (λ s. record s { session_start_ms = now_ms; last_job_time_ms = s.time_base_ms })

    unfoldable pub open_store : Bool → ℤ → Step Wal (Unit {0})
    unfolding recover_interrupted_jobs
    open_store initialize now_ms = with_store λ s.
        refuse_if (s.opened || in_use s.wal || has_failed s.failure) fatal
        >> (fail_if (is_neg now_ms) clock_failure
            >> (loaded initialize
                >> (begin_session now_ms
                    >> (recover_interrupted_jobs now_ms
                        >> set_store (λ s. record s { opened = true })))))

    abbrev pub closed : Bool × Wal → Step Wal (Unit {0})
    closed (true, w) = λ s. refuse_if (has_failed s.failure) fatal (record s { wal = w })
    closed (false, w) = λ s. fail wal_failure (record s { wal = w })

    unfoldable pub close_store : Step Wal (Unit {0})
    close_store =
        set_store (λ s. record s { opened = false }) >> with_store (λ s. closed (close_wal s.wal))
