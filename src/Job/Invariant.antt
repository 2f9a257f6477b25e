-- ===== src/Job/Invariant.antt =====
-- What a job record satisfies in each state, and that every call of job.c keeps it.
use flatline_c.Prelude.{
  ℕ, ◌+◌, ◌^◌, ◌≤◌, ◌<◌, ◌≡◌, ◌≢◌, ◌⊎◌, [], arith, length, length-take-le, Option-cases, inl, inr,
}
use flatline_c.Prelude.Int.{ℤ, neg_part, ◌≤ℤ◌}
use flatline_c.Prelude.Result.{ok}
use flatline_c.Job.{
  Job, JobState, JobFailure, Bytes, copied, queued, assigned, running, done, failed, no_failure,
  max_argument_size, max_result_size, task_sleep, task_hash, time_unset, job_init, job_assign,
  job_start, job_complete, job_fail,
}

-- A requeued job keeps the reason of its last failed attempt.
abbrev pub Retained : ℕ → JobFailure → Type 0
Retained retries no_failure = retries ≡ 0
Retained retries _ = 0 < retries

-- The fields that an attempt under way shares.
pub record IsOwned (j : Job) : Type 0 where
  pub owner : 0 < j.worker_id
  pub counted : j.attempt ≡ j.retry_count + 1
  pub taken : j.created_at_ms ≤ℤ j.assigned_at_ms
  pub taken_last : j.assigned_at_ms ≤ℤ j.updated_at_ms

pub record IsUnowned (j : Job) : Type 0 where
  pub free : j.worker_id ≡ 0
  pub counted : j.attempt ≡ j.retry_count
  pub not_assigned : j.assigned_at_ms ≡ time_unset
  pub not_started : j.started_at_ms ≡ time_unset
  pub not_finished : j.finished_at_ms ≡ time_unset
  pub empty : j.output ≡ []
  pub reason : Retained j.retry_count j.failure

abbrev pub InState : Job → JobState → Type 0
InState j queued = IsUnowned j
InState j assigned =
    IsOwned j
    × (j.updated_at_ms ≡ j.assigned_at_ms)
    × (j.started_at_ms ≡ time_unset)
    × (j.finished_at_ms ≡ time_unset)
    × (j.output ≡ [])
    × (j.failure ≡ no_failure)
InState j running =
    IsOwned j
    × (j.assigned_at_ms ≤ℤ j.started_at_ms)
    × (j.updated_at_ms ≡ j.started_at_ms)
    × (j.finished_at_ms ≡ time_unset)
    × (j.output ≡ [])
    × (j.failure ≡ no_failure)
InState j done =
    IsOwned j
    × (j.assigned_at_ms ≤ℤ j.started_at_ms)
    × (j.started_at_ms ≤ℤ j.finished_at_ms)
    × (j.updated_at_ms ≡ j.finished_at_ms)
    × (j.failure ≡ no_failure)
InState j failed =
    IsOwned j
    × ((j.started_at_ms ≡ time_unset) ⊎ (j.assigned_at_ms ≤ℤ j.started_at_ms))
    × (j.started_at_ms ≤ℤ j.finished_at_ms)
    × (j.updated_at_ms ≡ j.finished_at_ms)
    × (j.output ≡ [])
    × (j.failure ≢ no_failure)
    × (j.retry_count ≡ j.max_retries)

pub record IsValid (j : Job) : Type 0 where
  pub identified : 0 < j.id
  pub known : (task_sleep ≤ j.task_type) × (j.task_type ≤ task_hash)
  pub arguments_fit : length j.arguments ≤ max_argument_size
  pub output_fits : length j.output ≤ max_result_size
  pub retries : j.retry_count ≤ j.max_retries
  pub word : j.max_retries < 2 ^ 32
  pub clock : neg_part j.created_at_ms ≡ 0
  pub ordered : j.created_at_ms ≤ℤ j.updated_at_ms
  pub shape : InState j j.state

pub job_assign-IsValid :
    (j : Job) (w : ℕ) (t : ℤ) {k : Job} → job_assign j w t ≡ ok k → IsValid j → IsValid k
unfolding job_assign
job_assign-IsValid j w t h v = ground arith

length-copied : (b : Bytes) (n : ℕ) → b.size ≤ n → length (copied b) ≤ n
length-copied b n h = elim (Option-cases b.start) [
  | inl e ↦ rw e (omega arith)
  | inr (bytes, e) ↦ rw e (omega (arith, length-take-le b.size bytes))
]

pub job_init-IsValid :
    (id kind : ℕ) (b : Bytes) (retries : ℕ) (t : ℤ) {k : Job}
    → job_init id kind b retries t ≡ ok k
    → retries < 2 ^ 32
    → IsValid k
unfolding job_init
job_init-IsValid id kind b retries t h w = ground (arith, length-copied b max_argument_size)

pub job_start-IsValid :
    (j : Job) (w a : ℕ) (t : ℤ) {k : Job} → job_start j w a t ≡ ok k → IsValid j → IsValid k
unfolding job_start
job_start-IsValid j w a t h v = ground arith

pub job_complete-IsValid :
    (j : Job) (w a : ℕ) (b : Bytes) (t : ℤ) {k : Job}
    → job_complete j w a b t ≡ ok k
    → IsValid j
    → IsValid k
unfolding job_complete
job_complete-IsValid j w a b t h v = ground (arith, length-copied b max_result_size)

pub job_fail-IsValid :
    (j : Job) (w a : ℕ) (f : JobFailure) (t : ℤ) {k : Job}
    → job_fail j w a f t ≡ ok k
    → IsValid j
    → IsValid k
unfolding job_fail
job_fail-IsValid j w a f t h v = ground arith
