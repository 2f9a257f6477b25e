-- ===== src/CoordinatorStats.antt =====
-- coordinator/coordinator_stats.c: the totals of the jobs and of the session, and the state of the
-- workers. No number here can reach 2^64: there are at most 256 jobs, with 32-bit counts.

pub mod Totals
pub mod Tests
use flatline_c.Prelude.{
  ℕ, ◌+◌, ◌-◌, ◌/◌, ◌%◌, Bool, true, false, not, ◌||◌, Option, List, [], ◌∷◌, ltb, ◌==◌,
  if◌then◌else◌, length,
}
use flatline_c.Prelude.Int.{ℤ, pos, pos_part, ltz, lez, is_neg, ◌-ℤ◌}
use flatline_c.Prelude.Result.{Result, ok, err, ◌>>=◌, ◌>>◌, reject}
use flatline_c.Job.{Job, JobState, queued, assigned, running, done, failed}
use flatline_c.JobQueue.{is_queued}
use flatline_c.Protocol.Message.{StatsPayload}
use flatline_c.Protocol.Frame.{jobs_max_entries}
use flatline_c.Scheduler.{Scheduler, active, is_some}
use flatline_c.WorkerRegistry.{Worker, WorkerState, unused, alive, dead, timed_out}
use flatline_c.CoordinatorStore.State.{Store}
use flatline_c.CoordinatorStore.{has_failed}

pub record StatsSession : Type 0 where
  pub ready_at_ms : ℤ
  pub startup_duration_ms : ℕ
  pub startup_interrupted_jobs : ℕ
  pub submitted_at_start : ℕ
  pub completed_at_start : ℕ
  pub failed_at_start : ℕ
  pub retries_at_start : ℕ

-- The answer -1.
pub data StatsError : Type 0 where
  invalid : StatsError

abbrev pub no_stats : StatsPayload
no_stats = record {
  jobs_submitted_total = 0;
  jobs_queued = 0;
  jobs_assigned = 0;
  jobs_running = 0;
  jobs_completed_total = 0;
  jobs_failed_total = 0;
  job_attempts_total = 0;
  job_retries_total = 0;
  completed_latency_avg_ms = 0;
  workers_retained = 0;
  workers_alive = 0;
  workers_expired = 0;
  workers_dead = 0;
  workers_busy = 0;
  workers_idle = 0;
  session_uptime_ms = 0;
  session_jobs_submitted = 0;
  session_jobs_completed = 0;
  session_jobs_failed = 0;
  session_job_retries = 0;
  startup_jobs_recovered = 0;
  startup_interrupted_jobs = 0;
  startup_duration_ms = 0;
  heartbeat_timeout_ms = 0;
}

abbrev pub counted : JobState → StatsPayload → StatsPayload
counted queued s = record s { jobs_queued = s.jobs_queued + 1 }
counted assigned s = record s { jobs_assigned = s.jobs_assigned + 1 }
counted running s = record s { jobs_running = s.jobs_running + 1 }
counted done s = record s { jobs_completed_total = s.jobs_completed_total + 1 }
counted failed s = record s { jobs_failed_total = s.jobs_failed_total + 1 }

abbrev pub ended_attempts : JobState → ℕ
ended_attempts queued = 0
ended_attempts _ = 1

abbrev pub totals : Job → StatsPayload → StatsPayload
totals j s = record s {
  job_attempts_total = s.job_attempts_total + j.attempt;
  job_retries_total = s.job_retries_total + j.retry_count;
}

-- The first loop.
unfoldable pub tally : List Job → StatsPayload → Result StatsError StatsPayload
tally [] s = ok s
tally (j ∷ jobs) s = do
  reject
      (ltb j.max_retries j.retry_count || not (j.attempt == j.retry_count + ended_attempts j.state))
      invalid
  tally jobs (totals j (counted j.state s))

abbrev pub is_done : JobState → Bool
is_done done = true
is_done _ = false

abbrev pub latency : Job → ℕ
latency j = pos_part (j.finished_at_ms -ℤ j.created_at_ms)

-- The second loop, on the average and the remainder.
unfoldable pub add_latencies : ℕ → List Job → ℕ → ℕ → Result StatsError (ℕ × ℕ)
add_latencies completed [] average remainder = ok (average, remainder)
add_latencies completed (j ∷ jobs) average remainder =
    if not (is_done j.state)
    then add_latencies completed jobs average remainder
    else if is_neg j.created_at_ms || ltz j.finished_at_ms j.created_at_ms
    then err invalid
    else add_latencies completed jobs (average + latency j / completed)
        (remainder + latency j % completed)

abbrev pub with_average : StatsPayload → ℕ → ℕ → StatsPayload
with_average s average remainder = record s {
  completed_latency_avg_ms =
      if s.jobs_completed_total == 0 then average else average + remainder / s.jobs_completed_total;
}

unfoldable pub collect_jobs : {Wal : Type 0} → Store Wal → Result StatsError StatsPayload
unfolding tally add_latencies
collect_jobs store = do
  reject
      (not store.opened
        || has_failed store.failure
        || ltb jobs_max_entries (length store.jobs.jobs))
      invalid
  s ← tally store.jobs.jobs (record no_stats { jobs_submitted_total = length store.jobs.jobs })
  (average, remainder) ← add_latencies s.jobs_completed_total store.jobs.jobs 0 0
  ok (with_average s average remainder)

unfoldable pub begin : {Wal : Type 0} → Store Wal → ℤ → Result StatsError StatsSession
unfolding collect_jobs
begin store now_ms = do
  reject (is_neg store.session_start_ms || ltz now_ms store.session_start_ms) invalid
  baseline ← collect_jobs store
  reject (ltb (length store.jobs.jobs) store.interrupted_jobs) invalid
  ok (record {
    ready_at_ms = now_ms;
    startup_duration_ms = pos_part (now_ms -ℤ store.session_start_ms);
    startup_interrupted_jobs = store.interrupted_jobs;
    submitted_at_start = baseline.jobs_submitted_total;
    completed_at_start = baseline.jobs_completed_total;
    failed_at_start = baseline.jobs_failed_total;
    retries_at_start = baseline.job_retries_total;
  })

abbrev pub session_totals : StatsSession → ℤ → ℤ → StatsPayload → StatsPayload
session_totals session now_ms timeout_ms s = record s {
  session_uptime_ms = pos_part (now_ms -ℤ session.ready_at_ms);
  session_jobs_submitted = s.jobs_submitted_total - session.submitted_at_start;
  session_jobs_completed = s.jobs_completed_total - session.completed_at_start;
  session_jobs_failed = s.jobs_failed_total - session.failed_at_start;
  session_job_retries = s.job_retries_total - session.retries_at_start;
  startup_jobs_recovered = session.submitted_at_start;
  startup_interrupted_jobs = session.startup_interrupted_jobs;
  startup_duration_ms = session.startup_duration_ms;
  heartbeat_timeout_ms = pos_part timeout_ms;
}

abbrev pub retained : StatsPayload → StatsPayload
retained s = record s { workers_retained = s.workers_retained + 1 }

-- A worker that is alive and heard of, by whether it has a job.
abbrev pub heard : Bool → StatsPayload → StatsPayload
heard true s = record s { workers_alive = s.workers_alive + 1; workers_busy = s.workers_busy + 1 }
heard false s = record s { workers_alive = s.workers_alive + 1; workers_idle = s.workers_idle + 1 }

abbrev pub expired : StatsPayload → StatsPayload
expired s = record s { workers_expired = s.workers_expired + 1 }

abbrev pub count_alive : Scheduler → ℤ → ℤ → Worker → StatsPayload → Result StatsError StatsPayload
count_alive jobs now_ms timeout_ms w s = do
  reject (is_neg w.last_heartbeat_ms || ltz now_ms w.last_heartbeat_ms) invalid
  ok (if timed_out w now_ms timeout_ms then expired s else heard (is_some (active jobs w.id)) s)

abbrev pub count_worker :
    Scheduler → ℤ → ℤ → Worker → StatsPayload → WorkerState → Result StatsError StatsPayload
count_worker jobs now_ms timeout_ms w s unused = ok s
count_worker jobs now_ms timeout_ms w s dead =
    ok (record s { workers_retained = s.workers_retained + 1; workers_dead = s.workers_dead + 1 })
count_worker jobs now_ms timeout_ms w s alive = count_alive jobs now_ms timeout_ms w (retained s)

unfoldable pub count_workers :
    Scheduler → ℤ → ℤ → List Worker → StatsPayload → Result StatsError StatsPayload
count_workers jobs now_ms timeout_ms [] s = ok s
count_workers jobs now_ms timeout_ms (w ∷ workers) s =
    count_worker jobs now_ms timeout_ms w s w.state >>= count_workers jobs now_ms timeout_ms workers

unfoldable pub snapshot :
    {Wal : Type 0} → StatsSession → Store Wal → ℤ → ℤ → Result StatsError StatsPayload
unfolding collect_jobs count_workers
snapshot session store now_ms timeout_ms = do
  reject (is_neg session.ready_at_ms || ltz now_ms session.ready_at_ms || lez timeout_ms (pos 0))
      invalid
  s ← collect_jobs store
  reject
      (ltb s.jobs_submitted_total session.submitted_at_start
        || ltb s.jobs_completed_total session.completed_at_start
        || ltb s.jobs_failed_total session.failed_at_start
        || ltb s.job_retries_total session.retries_at_start)
      invalid
  count_workers store.jobs now_ms timeout_ms store.workers.workers
      (session_totals session now_ms timeout_ms s)
