-- ===== src/JobQueue/Tests.antt =====
-- Runs of the queue, with a ring that wraps, and the theorems at concrete inputs.
use flatline_c.Prelude.{ℕ, ◌≡◌, refl, [], ◌∷◌, arith, ◌==◌, if◌then◌else◌}
use flatline_c.Prelude.Int.{pos}
use flatline_c.Prelude.Result.{ok, err}
use flatline_c.Job.{Job, queued, no_failure, time_unset}
use flatline_c.JobQueue.{JobQueue, QueueError, duplicate, push, peek, pop}
use flatline_c.JobQueue.Refine.{
  IsReady, contents, push_spec, peek_spec, pop_spec, map_result, seen, push_refines, peek_refines,
  pop_refines,
}

abbrev pending_job : ℕ → Job
pending_job id = record {
  id = id;
  task_type = 1;
  arguments = [];
  state = queued;
  worker_id = 0;
  attempt = 0;
  retry_count = 0;
  max_retries = 0;
  created_at_ms = pos 0;
  updated_at_ms = pos 0;
  assigned_at_ms = time_unset;
  started_at_ms = time_unset;
  finished_at_ms = time_unset;
  output = [];
  failure = no_failure;
}

-- 5 in the last slot, 6 in the first.
abbrev wrapped : JobQueue
wrapped = record {
  ids = λ i. if i == 255 then 5 else if i == 0 then 6 else 0;
  head = 255;
  count = 2;
}

wrapped-IsReady : IsReady wrapped
wrapped-IsReady = record { head_in = omega arith; count_in = omega arith }

contents-wrapped : contents wrapped ≡ 5 ∷ 6 ∷ []
unfolding contents
contents-wrapped = refl

push_again : push wrapped (pending_job 6) ≡ err duplicate
unfolding push
push_again = refl

push_refines_example :
    map_result contents (push wrapped (pending_job 7))
    ≡ push_spec (contents wrapped) (pending_job 7)
push_refines_example = push_refines wrapped (pending_job 7) wrapped-IsReady

pushed : push_spec (contents wrapped) (pending_job 7) ≡ ok (5 ∷ 6 ∷ 7 ∷ [])
unfolding push_spec contents flatline_c.JobQueue.Refine.member
pushed = refl

pop_refines_example : map_result seen (pop wrapped) ≡ pop_spec (contents wrapped)
pop_refines_example = pop_refines wrapped wrapped-IsReady
