-- ===== src/CoordinatorStore/Tests.antt =====
-- A writer that keeps its records in a list and has room for so many, and the theorems with it.
use flatline_c.Prelude.{
  ℕ, ◌+◌, ◌≡◌, refl, Bool, true, false, none, List, [], ◌∷◌, ◌++◌, length, ltb, if◌then◌else◌,
}
use flatline_c.Prelude.Int.{pos}
use flatline_c.Prelude.Result.{ok}
use flatline_c.Protocol.Message.{JobSubmit, ping}
use flatline_c.Scheduler
use flatline_c.WorkerRegistry
use flatline_c.Wal.Format.{Record}
use flatline_c.CoordinatorStore.State.{Store}
use flatline_c.CoordinatorStore.{register, submit, assign, report, worker_lost}
use flatline_c.CoordinatorStore.Durable.{Durable, store-Durable}

abbrev next_number : List Record → ℕ
next_number log = length log + 1

abbrev append_one : List Record → Record → Bool × List Record
append_one log r = if ltb (length log) 2 then (true, log ++ r ∷ []) else (false, log)

abbrev opened : Store (List Record)
opened = record {
  jobs = Scheduler.init;
  workers = WorkerRegistry.init;
  wal = [];
  failure = none;
  opened = true;
  time_base_ms = pos 0;
  session_start_ms = pos 100;
  last_job_time_ms = pos 0;
  interrupted_jobs = 0;
}

abbrev hash_job : JobSubmit
hash_job = record { task_type = 4; max_retries = 1; arguments = 97 ∷ [] }

-- The first job gets the ID 1.
submitted_first : (submit next_number append_one hash_job (pos 105) opened).0 ≡ ok 1
unfolding submit Scheduler.init Scheduler.submit flatline_c.Job.job_init flatline_c.JobQueue.push
    flatline_c.JobQueue.init Scheduler.find
submitted_first = refl

store-Durable_example :
    Durable next_number append_one opened (register next_number append_one (pos 4) (pos 105) opened)
    × Durable next_number append_one opened
        (submit next_number append_one hash_job (pos 105) opened)
    × Durable next_number append_one opened (assign next_number append_one 1 (pos 105) opened)
    × Durable next_number append_one opened
        (report next_number append_one 1 (ping 0) (pos 105) opened)
    × Durable next_number append_one opened (worker_lost next_number append_one 1 (pos 105) opened)
store-Durable_example =
    store-Durable next_number append_one opened (pos 4) (pos 105) hash_job 1 (ping 0)
