-- ===== src/Wal/Format/Snapshots.antt =====
-- The calls of coordinator/job.c yield records that the log accepts as snapshots.
use flatline_c.Prelude.{ℕ, ◌^◌, ◌<◌, ◌≡◌, refl, true, AllTrue, AllTrue-every, arith}
use flatline_c.Prelude.Int.{ℤ}
use flatline_c.Prelude.Result.{ok}
use flatline_c.Job.{
  Job, JobState, Bytes, queued, assigned, running, done, failed, job_init, job_assign, job_start,
  job_complete, job_fail,
}
use flatline_c.Job.Invariant.{IsValid, InState, job_init-IsValid}
use flatline_c.Job.Lifecycle.{Call, assigns, starts, completes, fails, perform, perform-IsValid}
use flatline_c.Wal.Format.{
  JobRecord, job_created, job_assigned, job_started, job_completed, job_requeued, job_failed,
  conditions, valid_job,
}

-- The type of the record that logs a change to a state.
abbrev pub logged : JobState → JobRecord
logged queued = job_requeued
logged assigned = job_assigned
logged running = job_started
logged done = job_completed
logged failed = job_failed

state_conditions :
    (j : Job) (s : JobState)
    → IsValid j
    → j.state ≡ s
    → InState j s
    → (s ≡ queued → 0 < j.retry_count)
    → AllTrue (conditions (logged s) j)
state_conditions j queued v e h r = let counted = r refl in ground arith
state_conditions j assigned v e h r = ground arith
state_conditions j running v e h r = ground arith
state_conditions j done v e h r = ground arith
state_conditions j failed v e h r = ground arith

-- A job that is queued again has used a retry.
requeued_counted :
    (j : Job) (c : Call) (k : Job)
    → perform j c ≡ ok k
    → IsValid j
    → k.state ≡ queued
    → 0 < k.retry_count
unfolding job_assign job_start job_complete job_fail
requeued_counted j (assigns w t) k h v e = ground arith
requeued_counted j (starts w a t) k h v e = ground arith
requeued_counted j (completes w a b t) k h v e = ground arith
requeued_counted j (fails w a f t) k h v e = ground arith

-- After every call on a valid job that succeeds the log accepts the record, under the type that
-- names its new state.
pub perform-logged :
    (j : Job) (c : Call) (k : Job)
    → perform j c ≡ ok k
    → IsValid j
    → valid_job (logged k.state) k ≡ true
unfolding valid_job
perform-logged j c k h v =
    let valid = perform-IsValid j c h v in
    AllTrue-every (conditions (logged k.state) k)
      (state_conditions k k.state valid refl valid.shape (requeued_counted j c k h v))

init_conditions :
    (id kind : ℕ) (b : Bytes) (retries : ℕ) (t : ℤ) (j : Job)
    → job_init id kind b retries t ≡ ok j
    → IsValid j
    → AllTrue (conditions job_created j)
unfolding job_init
init_conditions id kind b retries t j h v = ground arith

-- The log accepts the record that `job_init` makes, with a 32-bit retry limit, as created.
pub job_init_logged :
    (id kind : ℕ) (b : Bytes) (retries : ℕ) (t : ℤ) (j : Job)
    → job_init id kind b retries t ≡ ok j
    → retries < 2 ^ 32
    → valid_job job_created j ≡ true
unfolding valid_job
job_init_logged id kind b retries t j h word =
    AllTrue-every (conditions job_created j)
      (init_conditions id kind b retries t j h (job_init-IsValid id kind b retries t h word))
