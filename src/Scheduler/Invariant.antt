-- ===== src/Scheduler/Invariant.antt =====
-- What the store satisfies between calls, and that every call of scheduler.c keeps it.
pub mod Outcome
pub mod Submit
pub mod Assign
pub mod Report
pub mod Loss
pub mod History
pub mod Messages
use flatline_c.Prelude.{ℕ, ◌^◌, ◌≤◌, ◌<◌, ◌≡◌, refl, List, arith, ◌==◌, if◌then◌else◌, length, All}
use flatline_c.Job.{Job}
use flatline_c.Job.Invariant
use flatline_c.JobQueue.Refine.{IsReady, contents, init-IsReady, contents-init}
use flatline_c.Scheduler.{Scheduler, store_capacity, init}
use flatline_c.Scheduler.Lists.{count, queued_ids, IsUnique}

-- IDs below this bound may have been issued; 0 stands for the exhausted allocator.
abbrev pub bound : ℕ → ℕ
bound next = if next == 0 then 2 ^ 64 else next

-- The records are valid, their IDs issued and distinct, no worker runs two of them, and the
-- pending queue holds the IDs of the queued records, each once.
pub record IsValid (s : Scheduler) : Type 0 where
  pub ready : IsReady s.pending
  pub room : length s.jobs ≤ store_capacity
  pub word : s.next_job_id < 2 ^ 64
  pub records : All Invariant.IsValid s.jobs
  pub issued : All (λ j. j.id < bound s.next_job_id) s.jobs
  pub unique : IsUnique s.jobs
  pub waiting : (id : ℕ) → count id (contents s.pending) ≡ count id (queued_ids s.jobs)
  pub waiting_length : length (contents s.pending) ≡ length (queued_ids s.jobs)

-- The empty store is valid.
pub init-IsValid : IsValid init
unfolding init queued_ids count
init-IsValid = record {
  ready = init-IsReady;
  room = omega arith;
  word = omega arith;
  records = tt;
  issued = tt;
  unique = tt;
  waiting = λ id. rw contents-init;
  waiting_length = rw contents-init;
}
