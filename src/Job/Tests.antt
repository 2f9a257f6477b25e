-- ===== src/Job/Tests.antt =====
-- Runs of one job, and the theorems at concrete inputs.
use flatline_c.Prelude.{◌+◌, ◌*◌, ◌≤◌, ◌≡◌, ◌≢◌, refl, List, [], ◌∷◌, some, arith}
use flatline_c.Prelude.Int.{pos}
use flatline_c.Prelude.Result.{ok, err}
use flatline_c.Job.{
  Job, Bytes, queued, assigned, worker_lost, no_failure, time_unset, stale_attempt, job_init,
  job_assign, job_start, job_fail,
}
use flatline_c.Job.Invariant.{IsValid, job_init-IsValid, job_assign-IsValid}
use flatline_c.Job.Lifecycle.{
  Call, assigns, starts, completes, perform, run, accepted, IsMove, perform-IsMove, run-IsValid,
  accepted_bound, late_report_refused,
}

abbrev hello : Bytes
hello = record { start = some (104 ∷ 105 ∷ []); size = 2 }

abbrev fresh : Job
fresh = record {
  id = 7;
  task_type = 4;
  arguments = 104 ∷ 105 ∷ [];
  state = queued;
  worker_id = 0;
  attempt = 0;
  retry_count = 0;
  max_retries = 1;
  created_at_ms = pos 10;
  updated_at_ms = pos 10;
  assigned_at_ms = time_unset;
  started_at_ms = time_unset;
  finished_at_ms = time_unset;
  output = [];
  failure = no_failure;
}

job_init-fresh : job_init 7 4 hello 1 (pos 10) ≡ ok fresh
unfolding job_init
job_init-fresh = refl

fresh-IsValid : IsValid fresh
fresh-IsValid = job_init-IsValid 7 4 hello 1 (pos 10) job_init-fresh (omega arith)

abbrev taken : Job
taken = record fresh {
  state = assigned;
  worker_id = 3;
  attempt = 1;
  assigned_at_ms = pos 20;
  updated_at_ms = pos 20;
}

job_assign-taken : job_assign fresh 3 (pos 20) ≡ ok taken
unfolding job_assign
job_assign-taken = refl

abbrev retried : Job
retried = record fresh {
  updated_at_ms = pos 30;
  attempt = 1;
  retry_count = 1;
  failure = worker_lost;
}

job_fail-retried : job_fail taken 3 1 worker_lost (pos 30) ≡ ok retried
unfolding job_fail
job_fail-retried = refl

abbrev second : List Call
second = assigns 4 (pos 40) ∷ starts 4 2 (pos 50) ∷ completes 4 2 hello (pos 60) ∷ []

late_start : job_start (run retried (assigns 3 (pos 40) ∷ [])) 3 1 (pos 45) ≡ err stale_attempt
unfolding run job_assign job_start
late_start = refl

perform-IsMove_example : IsMove (assigns 3 (pos 20)) fresh taken
perform-IsMove_example = perform-IsMove fresh (assigns 3 (pos 20)) taken job_assign-taken

run-IsValid_example : IsValid (run fresh second) × ((run fresh second).attempt ≤ 1 + 1)
run-IsValid_example = run-IsValid 7 4 hello 1 (pos 10) fresh second job_init-fresh (omega arith)

accepted_bound_example : accepted fresh second ≤ 3 * (1 + 1)
accepted_bound_example =
    accepted_bound 7 4 hello 1 (pos 10) fresh second job_init-fresh (omega arith)

late_report_refused_example : perform (run retried second) (completes 3 1 hello (pos 70)) ≢ ok taken
late_report_refused_example =
    late_report_refused taken 3 1 worker_lost (pos 30) retried second (completes 3 1 hello (pos 70))
      taken (job_assign-IsValid fresh 3 (pos 20) job_assign-taken fresh-IsValid) job_fail-retried
      refl
