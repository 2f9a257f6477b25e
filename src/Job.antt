-- ===== src/Job.antt =====
-- include/job.h and coordinator/job.c: the record of one job and the calls that move it through
-- its states. A byte array and its size field are one list, the bytes in use.
pub mod Invariant
pub mod Lifecycle
pub mod Tests
use flatline_c.Prelude.{
  ℕ, ◌+◌, ◌%◌, ◌^◌, Bool, true, false, not, ◌&&◌, ◌||◌, Option, none, some, List, [], ltb, ◌==◌,
  if◌then◌else◌, take, length,
}
use flatline_c.Prelude.Int.{ℤ, negsuc, ltz, is_neg}
use flatline_c.Prelude.Result.{Result, Check, ok, ◌>>=◌, ◌>>◌, reject}

abbrev pub max_argument_size : ℕ
max_argument_size = 1024

abbrev pub max_result_size : ℕ
max_result_size = 1024

-- -1
abbrev pub time_unset : ℤ
time_unset = negsuc 0

-- Values of `enum faultline_task_type`; a number from the wire may be none of them.
abbrev pub task_sleep : ℕ
task_sleep = 1

abbrev pub task_prime_count : ℕ
task_prime_count = 2

abbrev pub task_fibonacci : ℕ
task_fibonacci = 3

abbrev pub task_hash : ℕ
task_hash = 4

pub data JobState : Type 0 where
  queued assigned running done failed : JobState

pub data JobFailure : Type 0 where
  no_failure task worker_lost : JobFailure

pub record Job : Type 0 where
  pub id : ℕ
  pub task_type : ℕ
  pub arguments : List ℕ
  pub state : JobState
  pub worker_id : ℕ
  pub attempt : ℕ
  pub retry_count : ℕ
  pub max_retries : ℕ
  pub created_at_ms : ℤ
  pub updated_at_ms : ℤ
  pub assigned_at_ms : ℤ
  pub started_at_ms : ℤ
  pub finished_at_ms : ℤ
  pub output : List ℕ
  pub failure : JobFailure

pub data JobError : Type 0 where
  invalid_argument payload_too_large invalid_transition time_reversed wrong_worker stale_attempt :
      JobError

unfoldable pub can_transition : JobState → JobState → Bool
can_transition queued assigned = true
can_transition assigned running = true
can_transition assigned queued = true
can_transition assigned failed = true
can_transition running done = true
can_transition running queued = true
can_transition running failed = true
can_transition _ _ = false

-- A pointer to bytes, `none` for NULL, and the size that the caller claims.
pub record Bytes : Type 0 where
  pub start : Option (List ℕ)
  pub size : ℕ

abbrev pub is_null : Option (List ℕ) → Bool
is_null none = true
is_null (some bytes) = false

-- What `memcpy` reads; nothing is read through NULL, where the size is 0.
abbrev pub copied : Bytes → List ℕ
copied b = elim b.start [ none ↦ [] | some bytes ↦ take b.size bytes ]

unfoldable pub check_payload : Bytes → ℕ → Check JobError
check_payload b capacity = do
  reject (ltb capacity b.size) payload_too_large
  reject (is_null b.start && not (b.size == 0)) invalid_argument
  ok tt

unfoldable pub check_transition : Job → JobState → ℤ → Check JobError
unfolding can_transition
check_transition j next now_ms = do
  reject (is_neg now_ms) invalid_argument
  reject (not (can_transition j.state next)) invalid_transition
  reject (ltz now_ms j.updated_at_ms) time_reversed
  ok tt

unfoldable pub check_attempt : Job → ℕ → ℕ → Check JobError
check_attempt j worker_id attempt = do
  reject (worker_id == 0 || attempt == 0) invalid_argument
  reject (not (worker_id == j.worker_id)) wrong_worker
  reject (not (attempt == j.attempt)) stale_attempt
  ok tt

unfoldable pub job_init : ℕ → ℕ → Bytes → ℕ → ℤ → Result JobError Job
unfolding check_payload
job_init id task_type arguments max_retries now_ms = do
  reject (id == 0 || is_neg now_ms || ltb task_type task_sleep || ltb task_hash task_type)
      invalid_argument
  check_payload arguments max_argument_size
  ok (record {
    id = id;
    task_type = task_type;
    arguments = copied arguments;
    state = queued;
    worker_id = 0;
    attempt = 0;
    retry_count = 0;
    max_retries = max_retries;
    created_at_ms = now_ms;
    updated_at_ms = now_ms;
    assigned_at_ms = time_unset;
    started_at_ms = time_unset;
    finished_at_ms = time_unset;
    output = [];
    failure = no_failure;
  })

unfoldable pub job_assign : Job → ℕ → ℤ → Result JobError Job
unfolding check_transition
job_assign j worker_id now_ms = do
  check_transition j assigned now_ms
  reject (worker_id == 0) invalid_argument
  ok (record j {
    state = assigned;
    worker_id = worker_id;
    attempt = (j.attempt + 1) % 2 ^ 64;
    assigned_at_ms = now_ms;
    updated_at_ms = now_ms;
    failure = no_failure;
  })

unfoldable pub job_start : Job → ℕ → ℕ → ℤ → Result JobError Job
unfolding check_transition check_attempt
job_start j worker_id attempt now_ms = do
  check_transition j running now_ms
  check_attempt j worker_id attempt
  ok (record j { state = running; started_at_ms = now_ms; updated_at_ms = now_ms })

unfoldable pub job_complete : Job → ℕ → ℕ → Bytes → ℤ → Result JobError Job
unfolding check_transition check_attempt check_payload
job_complete j worker_id attempt output now_ms = do
  check_transition j done now_ms
  check_attempt j worker_id attempt
  check_payload output max_result_size
  ok (record j {
    output = copied output;
    state = done;
    finished_at_ms = now_ms;
    updated_at_ms = now_ms;
  })

abbrev is_report : JobFailure → Bool
is_report no_failure = false
is_report task = true
is_report worker_lost = true

-- The state that a failed attempt leads to.
unfoldable pub after_failure : Job → JobState
after_failure j = if ltb j.retry_count j.max_retries then queued else failed

abbrev pub requeue : Job → JobFailure → ℤ → Job
requeue j failure now_ms = record j {
  state = queued;
  updated_at_ms = now_ms;
  failure = failure;
  retry_count = (j.retry_count + 1) % 2 ^ 32;
  worker_id = 0;
  assigned_at_ms = time_unset;
  started_at_ms = time_unset;
  finished_at_ms = time_unset;
}

abbrev pub give_up : Job → JobFailure → ℤ → Job
give_up j failure now_ms = record j {
  state = failed;
  updated_at_ms = now_ms;
  failure = failure;
  finished_at_ms = now_ms;
}

unfoldable pub job_fail : Job → ℕ → ℕ → JobFailure → ℤ → Result JobError Job
unfolding check_transition check_attempt after_failure
job_fail j worker_id attempt failure now_ms = do
  reject (not (is_report failure)) invalid_argument
  check_transition j (after_failure j) now_ms
  check_attempt j worker_id attempt
  ok (
      if ltb j.retry_count j.max_retries
      then requeue j failure now_ms
      else give_up j failure now_ms)
