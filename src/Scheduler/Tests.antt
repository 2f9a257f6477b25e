-- ===== src/Scheduler/Tests.antt =====
-- Runs of the store, and the theorems at concrete inputs.
use flatline_c.Prelude.{
  ℕ, ◌≡◌, ◌≢◌, refl, none, some, List, [], ◌∷◌, ◌++◌, arith, get_elem?, set, All,
}
use flatline_c.Prelude.Int.{pos}
use flatline_c.Prelude.Result.{ok, err}
use flatline_c.Job
use flatline_c.Job.{Job, queued, assigned, running, done, failed, no_failure, time_unset}
use flatline_c.JobQueue.{JobQueue}
use flatline_c.JobQueue.Refine.{contents}
use flatline_c.Protocol.Message.{Message, JobSubmit, JobIdentity}
use flatline_c.Scheduler.{
  Scheduler, SchedulerError, queue_error, init, find_slot, active, submit, assign, assignment,
  report, worker_lost,
}
use flatline_c.Scheduler.Invariant.{IsValid}
use flatline_c.Scheduler.Invariant.Outcome.{appended}
use flatline_c.Scheduler.Invariant.Submit.{submit_queue_ready}
use flatline_c.Scheduler.Invariant.Assign.{handed, offer, assign_oldest}
use flatline_c.Scheduler.Invariant.Report.{report_queue_ready}
use flatline_c.Protocol.Codec.{message_encode}
use flatline_c.Scheduler.Invariant.Messages.{assign_sendable}
use flatline_c.Scheduler.Invariant.Loss.{lost, lost_job_recovered}
use flatline_c.Scheduler.Invariant.History.{
  Call, submits, assigns, reports, loses, run, Fits, store-IsValid, final_stays,
}

abbrev sleep : JobSubmit
sleep = record { task_type = 1; max_retries = 1; arguments = 0 ∷ 0 ∷ 0 ∷ 9 ∷ [] }

abbrev identity : JobIdentity
identity = record { job_id = 1; worker_id = 3; attempt = 1 }

abbrev completion : Message
completion = Message.job_completed (record { identity = identity; output = 7 ∷ [] })

-- Two jobs, the first of which worker 3 has.
abbrev opening : List Call
opening = submits sleep (pos 5) ∷ submits sleep (pos 6) ∷ assigns 3 (pos 7) ∷ []

abbrev ending : List Call
ending = reports 3 (Message.job_started identity) (pos 8) ∷ reports 3 completion (pos 9) ∷ []

abbrev submissions : List Call
submissions = submits sleep (pos 5) ∷ submits sleep (pos 6) ∷ []

opening-Fits : All Fits opening
opening-Fits = (omega arith, (omega arith, (tt, tt)))

submissions-Fits : All Fits submissions
submissions-Fits = (omega arith, (omega arith, tt))

-- Job 1 as it was submitted, in the hands of worker 3, and completed.
abbrev fresh : Job
fresh = record {
  id = 1;
  task_type = 1;
  arguments = 0 ∷ 0 ∷ 0 ∷ 9 ∷ [];
  state = queued;
  worker_id = 0;
  attempt = 0;
  retry_count = 0;
  max_retries = 1;
  created_at_ms = pos 5;
  updated_at_ms = pos 5;
  assigned_at_ms = time_unset;
  started_at_ms = time_unset;
  finished_at_ms = time_unset;
  output = [];
  failure = no_failure;
}

abbrev taken : Job
taken = record fresh {
  state = assigned;
  worker_id = 3;
  attempt = 1;
  updated_at_ms = pos 7;
  assigned_at_ms = pos 7;
}

abbrev finished : Job
finished = record taken {
  state = done;
  output = 7 ∷ [];
  updated_at_ms = pos 9;
  started_at_ms = pos 8;
  finished_at_ms = pos 9;
}

store-IsValid_example : IsValid (run init opening)
store-IsValid_example = store-IsValid opening opening-Fits

contents-submissions : contents (run init submissions).pending ≡ 1 ∷ 2 ∷ []
unfolding run init contents submit flatline_c.JobQueue.push flatline_c.Job.job_init
    flatline_c.JobQueue.init
contents-submissions = refl

submit_queue_ready_example : submit (run init submissions) sleep (pos 7) ≢ err queue_error
submit_queue_ready_example =
    submit_queue_ready (run init submissions) sleep (pos 7)
      (store-IsValid submissions submissions-Fits) (omega arith)

active-submissions : active (run init submissions) 3 ≡ none
unfolding run init submit active flatline_c.JobQueue.push flatline_c.Job.job_init
    flatline_c.JobQueue.init
active-submissions = refl

submissions-jobs :
    (run init submissions).jobs
    ≡ fresh ∷ record fresh { id = 2; created_at_ms = pos 6; updated_at_ms = pos 6 } ∷ []
unfolding run init submit flatline_c.JobQueue.push flatline_c.Job.job_init flatline_c.JobQueue.init
submissions-jobs = refl

assigned_first :
    (j : Job) × (q : Scheduler) × (assign (run init submissions) 3 (pos 7) ≡ ok (offer j 3, q))
assigned_first =
    let (j, q, given, _, _, _, _, _) =
      assign_oldest (run init submissions) 3 (pos 7) 1 (2 ∷ [])
        (store-IsValid submissions submissions-Fits) contents-submissions (omega arith)
        active-submissions refl (rw submissions-jobs (omega arith, (omega arith, tt))) in
    (j, q, given)

assign_oldest_example :
    (j : Job) × (q : Scheduler) × (assign (run init submissions) 3 (pos 7) ≡ ok (offer j 3, q))
    × (get_elem? (run init submissions).jobs (find_slot (run init submissions).jobs 1) ≡ some j)
    × (j.id ≡ 1)
    × (get_elem? q.jobs (find_slot (run init submissions).jobs 1) ≡ some (handed j 3 (pos 7)))
    × (q.jobs
        ≡ set
            (run init submissions).jobs
            (find_slot (run init submissions).jobs 1)
            (handed j 3 (pos 7)))
    × (contents q.pending ≡ 2 ∷ [])
assign_oldest_example =
    assign_oldest (run init submissions) 3 (pos 7) 1 (2 ∷ [])
      (store-IsValid submissions submissions-Fits) contents-submissions (omega arith)
      active-submissions refl (rw submissions-jobs (omega arith, (omega arith, tt)))

report_queue_ready_example : report (run init opening) 3 completion (pos 9) ≢ err queue_error
report_queue_ready_example =
    report_queue_ready (run init opening) 3 completion (pos 9) (store-IsValid opening opening-Fits)

active-opening : active (run init opening) 3 ≡ some taken
unfolding run init submit assign active flatline_c.JobQueue.push flatline_c.JobQueue.peek
    flatline_c.JobQueue.pop flatline_c.Job.job_init flatline_c.Job.job_assign
    flatline_c.JobQueue.init find_slot
active-opening = refl

lost_job_recovered_example :
    (q : Scheduler) × (worker_lost (run init opening) 3 (pos 9) ≡ ok q)
    × (get_elem? q.jobs (find_slot (run init opening).jobs 1) ≡ some (lost taken (pos 9)))
    × (contents q.pending ≡ appended (lost taken (pos 9)) (contents (run init opening).pending))
lost_job_recovered_example =
    lost_job_recovered (run init opening) 3 (pos 9) taken (store-IsValid opening opening-Fits)
      active-opening refl (omega arith)

finished-there : get_elem? (run init (opening ++ ending)).jobs 0 ≡ some finished
unfolding run init submit assign report flatline_c.JobQueue.push flatline_c.JobQueue.peek
    flatline_c.JobQueue.pop flatline_c.Job.job_init flatline_c.Job.job_assign
    flatline_c.Job.job_start flatline_c.Job.job_complete flatline_c.JobQueue.init active find_slot
    flatline_c.Scheduler.publish_outcome
finished-there = refl

-- The report comes again, and the worker goes away.
final_stays_example :
    get_elem?
      (run
        (run init (opening ++ ending))
        (reports 3 completion (pos 10) ∷ loses 3 (pos 11) ∷ [])).jobs
      0
    ≡ some finished
final_stays_example =
    final_stays (run init (opening ++ ending))
      (reports 3 completion (pos 10) ∷ loses 3 (pos 11) ∷ []) 0 finished
      (store-IsValid (opening ++ ending) (omega arith, (omega arith, (tt, (tt, (tt, tt))))))
      (tt, (tt, tt)) finished-there refl

assign_sendable_example :
    (bytes : List ℕ) × (message_encode 1062 (offer assigned_first.0 3) ≡ ok bytes)
assign_sendable_example =
    assign_sendable (run init submissions) 3 (pos 7) (offer assigned_first.0 3) assigned_first.1
      1062 assigned_first.2 (store-IsValid submissions submissions-Fits) (omega arith)
