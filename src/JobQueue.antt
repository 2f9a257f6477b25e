-- ===== src/JobQueue.antt =====
-- include/job_queue.h and coordinator/job_queue.c: the ring of pending job IDs. The array is a
-- function from slots; only slots below `capacity` are read or written.
pub mod Refine
pub mod Tests
use flatline_c.Prelude.{ℕ, zero, suc, ◌+◌, ◌-◌, ◌%◌, Bool, false, not, ◌||◌, ◌==◌, if◌then◌else◌}
use flatline_c.Prelude.Result.{Result, ok, ◌>>=◌, ◌>>◌, reject}
use flatline_c.Job.{Job, JobState, queued, assigned, running, done, failed}

abbrev pub capacity : ℕ
capacity = 256

pub record JobQueue : Type 0 where
  pub ids : ℕ → ℕ
  pub head : ℕ
  pub count : ℕ

pub data QueueError : Type 0 where
  invalid_argument invalid_state duplicate full empty : QueueError

-- ids[slot] = value
abbrev pub update : (ℕ → ℕ) → ℕ → ℕ → ℕ → ℕ
update ids slot value i = if slot == i then value else ids i

unfoldable pub init : JobQueue
init = record { ids = λ _. 0; head = 0; count = 0 }

abbrev pub is_queued : JobState → Bool
is_queued queued = Bool.true
is_queued _ = false

-- The duplicate test: is `id` in one of the next `rounds` slots from `position` on?
unfoldable pub holds : (ℕ → ℕ) → ℕ → ℕ → ℕ → Bool
holds ids position zero id = false
holds ids position (suc rounds) id =
    ids (position % capacity) == id || holds ids (position + 1) rounds id

unfoldable pub push : JobQueue → Job → Result QueueError JobQueue
unfolding holds
push q job = do
  reject (job.id == 0) invalid_argument
  reject (not (is_queued job.state) || not (job.worker_id == 0)) invalid_state
  reject (holds q.ids q.head q.count job.id) duplicate
  reject (q.count == capacity) full
  ok (record q { ids = update q.ids ((q.head + q.count) % capacity) job.id; count = q.count + 1 })

unfoldable pub peek : JobQueue → Result QueueError ℕ
peek q = do reject (q.count == 0) empty; ok (q.ids q.head)

unfoldable pub pop : JobQueue → Result QueueError (ℕ × JobQueue)
unfolding peek
pop q = do
  id ← peek q
  ok (
    id,
    record q { ids = update q.ids q.head 0; head = (q.head + 1) % capacity; count = q.count - 1 },
  )
