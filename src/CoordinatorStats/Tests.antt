-- ===== src/CoordinatorStats/Tests.antt =====
-- The totals of a store with a completed and a waiting job.
use flatline_c.Prelude.{◌≡◌, refl, true, none, List, [], ◌∷◌, All, arith}
use flatline_c.Prelude.Int.{pos}
use flatline_c.Prelude.Result.{ok}
use flatline_c.Protocol.Message.{Message, JobSubmit, JobIdentity, StatsPayload}
use flatline_c.Scheduler.{init}
use flatline_c.Scheduler.Invariant.History.{
  Call, submits, assigns, reports, run, Fits, store-IsValid,
}
use flatline_c.WorkerRegistry
use flatline_c.CoordinatorStore.State.{Store}
use flatline_c.CoordinatorStats.{collect_jobs}
use flatline_c.CoordinatorStats.Totals.{IsTotal, mean_latency, collect_jobs-IsTotal}

abbrev sleep : JobSubmit
sleep = record { task_type = 1; max_retries = 1; arguments = 0 ∷ 0 ∷ 0 ∷ 9 ∷ [] }

abbrev identity : JobIdentity
identity = record { job_id = 1; worker_id = 3; attempt = 1 }

abbrev calls : List Call
calls =
    submits sleep (pos 5)
    ∷ submits sleep (pos 6)
    ∷ assigns 3 (pos 7)
    ∷ reports 3 (Message.job_started identity) (pos 8)
    ∷ reports 3 (Message.job_completed (record { identity = identity; output = 7 ∷ [] })) (pos 9)
    ∷ []

calls_fit : All Fits calls
calls_fit = (omega arith, (omega arith, (tt, (tt, (tt, tt)))))

abbrev store : Store (Unit {0})
store = record {
  jobs = run init calls;
  workers = WorkerRegistry.init;
  wal = tt;
  failure = none;
  opened = true;
  time_base_ms = pos 0;
  session_start_ms = pos 0;
  last_job_time_ms = pos 9;
  interrupted_jobs = 0;
}

-- The completed job has taken 4 ms.
four_ms : mean_latency store.jobs.jobs ≡ 4
unfolding flatline_c.CoordinatorStats.Totals.in_state
    flatline_c.CoordinatorStats.Totals.total_latency run flatline_c.Scheduler.report
    flatline_c.Scheduler.assign flatline_c.Scheduler.active flatline_c.Scheduler.submit init
    flatline_c.Job.job_init flatline_c.JobQueue.push flatline_c.JobQueue.peek
    flatline_c.Scheduler.find_slot flatline_c.Job.job_assign flatline_c.JobQueue.pop
    flatline_c.Job.job_start flatline_c.Scheduler.publish_outcome flatline_c.Job.job_complete
four_ms = refl

collect_jobs-IsTotal_example :
    (t : StatsPayload) × (collect_jobs store ≡ ok t) × IsTotal store.jobs.jobs t
collect_jobs-IsTotal_example = collect_jobs-IsTotal store refl refl (store-IsValid calls calls_fit)
