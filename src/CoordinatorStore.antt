-- ===== src/CoordinatorStore.antt =====
-- include/coordinator_store.h and coordinator/coordinator_store.c: prepare, append, publish. The
-- writer of the log is a parameter: its next sequence number, and what an append answers with the
-- state that it leaves.
pub mod State
pub mod Durable
pub mod Open
pub mod Interrupted
pub mod Clean
pub mod Effects
pub mod Mirror
pub mod Recovery
pub mod Restart
pub mod Kept
pub mod LogWriter
pub mod Session
pub mod SessionFile
pub mod JournalTests
pub mod SessionTests
pub mod Tests
use flatline_c.Prelude.{ℕ, ◌-◌, ◌^◌, Bool, true, false, not, ◌&&◌, ◌||◌, Option, none, some, ◌==◌}
use flatline_c.Prelude.Int.{ℤ, pos, ◌+ℤ◌, ◌-ℤ◌, is_neg, ltz}
use flatline_c.Prelude.Result.{Result, ok, err}
use flatline_c.Job.{Job, JobState, queued, assigned, running, done, failed}
use flatline_c.Protocol.Message.{Message, JobSubmit}
use flatline_c.Scheduler
use flatline_c.Scheduler.{Scheduler, SchedulerError, queue_error, worker_busy, find, active}
use flatline_c.WorkerRegistry
use flatline_c.WorkerRegistry.{Registry, Worker, is_alive}
use flatline_c.Wal.Format.{
  Record, Entry, worker_id_allocated, job_snapshot, JobRecord, job_created, job_assigned,
  job_started, job_completed, job_requeued, job_failed,
}
use flatline_c.CoordinatorStore.State.{
  Store, StoreFailure, Step, StoreError, rejected, empty, fatal, wal_failure, clock_failure,
  internal_failure, ◌>>=◌, ◌>>◌, answer, refuse, fail, refuse_if, fail_if, with_store,
}

abbrev pub has_failed : Option StoreFailure → Bool
has_failed none = false
has_failed (some f) = true

abbrev pub usable : {Wal : Type 0} → Store Wal → Bool
usable s = s.opened && not (has_failed s.failure)

abbrev pub is_live : Option Worker → Bool
is_live none = false
is_live (some w) = is_alive w.state

-- The record type of an outcome, by the state that it leads to.
abbrev pub outcome_record : JobState → JobRecord
outcome_record running = job_started
outcome_record done = job_completed
outcome_record queued = job_requeued
outcome_record _ = job_failed

-- The record of the job that a prepared transaction has changed; the store has it.
abbrev pub kind_in : Option Job → JobRecord
kind_in none = job_failed
kind_in (some j) = outcome_record j.state

-- A raw reading before the session, or one whose logical time would not fit.
abbrev pub out_of_range : {Wal : Type 0} → Store Wal → ℤ → Bool
out_of_range s raw =
    ltz raw s.session_start_ms
    || is_neg raw
    || ltz (pos (2 ^ 63 - 1) -ℤ s.time_base_ms) (raw -ℤ s.session_start_ms)

abbrev pub time_of : {Wal : Type 0} → Store Wal → ℤ → ℤ
time_of s raw = s.time_base_ms +ℤ (raw -ℤ s.session_start_ms)

module _ {Wal : Type 0} (next_sequence : Wal → ℕ) (append : Wal → Record → Bool × Wal) where
  abbrev appended : Bool × Wal → Step Wal (Unit {0})
  appended (true, w) = λ s. (ok tt, record s { wal = w })
  appended (false, w) = λ s. fail wal_failure (record s { wal = w })

  unfoldable pub append_record : Entry → Step Wal (Unit {0})
  append_record entry =
      with_store
        λ s. appended (append s.wal (record { sequence = next_sequence s.wal; entry = entry }))

  unfoldable pub job_time : ℤ → Step Wal ℤ
  job_time raw = with_store λ s.
      fail_if (out_of_range s raw) clock_failure
      >> (fail_if (ltz (time_of s raw) s.last_job_time_ms) clock_failure >> answer (time_of s raw))

  abbrev pub commit_found : Scheduler → JobRecord → Option Job → Step Wal (Unit {0})
  commit_found scratch kind none = fail internal_failure
  commit_found scratch kind (some job) = append_record (job_snapshot kind job) >> λ s.
      (ok tt, record s { jobs = scratch; last_job_time_ms = job.updated_at_ms })

  unfoldable pub commit_job : Scheduler → ℕ → JobRecord → Step Wal (Unit {0})
  unfolding append_record
  commit_job scratch id kind = commit_found scratch kind (find scratch id)

  abbrev pub registered : Result WorkerRegistry.RegistryError (ℕ × Registry) → Step Wal ℕ
  registered (err e) = refuse rejected
  registered (ok (id, candidate)) =
      append_record (worker_id_allocated id) >> λ s. (ok id, record s { workers = candidate })

  unfoldable pub register : ℤ → ℤ → Step Wal ℕ
  unfolding append_record
  register fd now_ms = with_store λ s.
      refuse_if (not (usable s)) fatal
      >> (fail_if (is_neg now_ms) clock_failure
          >> registered (WorkerRegistry.register s.workers fd now_ms))

  abbrev submitted : Result SchedulerError (ℕ × Scheduler) → Step Wal ℕ
  submitted (err queue_error) = fail internal_failure
  submitted (err _) = refuse rejected
  submitted (ok (id, scratch)) = commit_job scratch id job_created >> answer id

  unfoldable pub submit : JobSubmit → ℤ → Step Wal ℕ
  unfolding job_time commit_job
  submit payload now_ms = with_store λ s.
      refuse_if (not (usable s)) fatal
      >> (job_time now_ms >>= λ time. submitted (Scheduler.submit s.jobs payload time))

  abbrev pub assigned_id : Message → ℕ
  assigned_id (Message.job_assign p) = p.identity.job_id
  assigned_id _ = 0

  abbrev given : Result SchedulerError (Message × Scheduler) → Step Wal Message
  given (err Scheduler.empty) = refuse empty
  given (err worker_busy) = refuse rejected
  given (err _) = fail internal_failure
  given (ok (candidate, scratch)) =
      commit_job scratch (assigned_id candidate) job_assigned >> answer candidate

  unfoldable pub assign : ℕ → ℤ → Step Wal Message
  unfolding job_time commit_job
  assign worker_id now_ms = with_store λ s.
      refuse_if (not (usable s)) fatal
      >> (refuse_if (not (is_live (WorkerRegistry.find s.workers worker_id))) rejected
          >> (job_time now_ms >>= λ time. given (Scheduler.assign s.jobs worker_id time)))

  abbrev reported : ℕ → Result SchedulerError Scheduler → Step Wal (Unit {0})
  reported id (err queue_error) = fail internal_failure
  reported id (err _) = refuse rejected
  reported id (ok scratch) = commit_job scratch id (kind_in (find scratch id))

  abbrev pub report_of : Option Job → ℕ → Message → ℤ → Step Wal (Unit {0})
  report_of none worker_id message now_ms = refuse rejected
  report_of (some job) worker_id message now_ms = with_store λ s.
      job_time now_ms >>= λ time. reported job.id (Scheduler.report s.jobs worker_id message time)

  unfoldable pub report : ℕ → Message → ℤ → Step Wal (Unit {0})
  unfolding job_time commit_job
  report worker_id message now_ms = with_store λ s.
      refuse_if (not (usable s)) fatal
      >> (refuse_if (not (is_live (WorkerRegistry.find s.workers worker_id))) rejected
          >> report_of (active s.jobs worker_id) worker_id message now_ms)

  abbrev lost : ℕ → Result SchedulerError Scheduler → Step Wal (Unit {0})
  lost id (err e) = fail internal_failure
  lost id (ok scratch) = commit_job scratch id (kind_in (find scratch id))

  abbrev pub loss_of : Option Job → ℕ → ℤ → Step Wal (Unit {0})
  loss_of none worker_id now_ms = refuse empty
  loss_of (some job) worker_id now_ms =
      with_store
        λ s. job_time now_ms >>= λ time. lost job.id (Scheduler.worker_lost s.jobs worker_id time)

  unfoldable pub commit_worker_loss : ℕ → ℤ → Step Wal (Unit {0})
  unfolding job_time commit_job
  commit_worker_loss worker_id now_ms =
      with_store λ s. loss_of (active s.jobs worker_id) worker_id now_ms

  unfoldable pub worker_lost : ℕ → ℤ → Step Wal (Unit {0})
  unfolding commit_worker_loss
  worker_lost worker_id now_ms =
      with_store λ s. refuse_if (not (usable s)) fatal >> commit_worker_loss worker_id now_ms
