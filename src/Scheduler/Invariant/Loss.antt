-- ===== src/Scheduler/Invariant/Loss.antt =====
-- The loss of a worker.
use flatline_c.Prelude.{
  ℕ, ◌<◌, ◌≡◌, inl, inr, sym, ◌∙◌, subst, Bool-cases, Option-cases, true, some, ◌||◌, arith, ◌==◌,
  ltb, if◌then◌else◌, get_elem?, get_elem?-set, All-get,
}
use flatline_c.Prelude.Int.{ℤ, neg_part, ◌≤ℤ◌, is_neg}
use flatline_c.Prelude.Result.{ok, Result-cases, ok_inj}
use flatline_c.Job
use flatline_c.Job.{
  Job, JobState, queued, assigned, running, done, failed, requeue, give_up, job_fail, after_failure,
}
use flatline_c.Job.Invariant
use flatline_c.JobQueue.Refine.{contents}
use flatline_c.Scheduler.{Scheduler, is_active, find_slot, active, publish_outcome, worker_lost}
use flatline_c.Scheduler.Lists.{first_active_hit}
use flatline_c.Scheduler.Invariant.{IsValid}
use flatline_c.Scheduler.Invariant.Outcome.{Keeps, Published, appended, publish_outcome_total}
use flatline_c.Scheduler.Invariant.Report.{job_fail-IsOutcome}

-- The record that a lost worker leaves.
abbrev pub lost : Job → ℤ → Job
lost j t =
    if ltb j.retry_count j.max_retries
    then requeue j Job.worker_lost t
    else give_up j Job.worker_lost t

pub active_hit :
    (s : Scheduler) (w : ℕ) (j : Job)
    → active s w ≡ some j
    → IsValid s
    → (get_elem? s.jobs (find_slot s.jobs j.id) ≡ some j)
      × (j.worker_id ≡ w)
      × (is_active j.state ≡ true)
      × (0 < w)
unfolding active
active_hit s w j e v =
    let (there, own, busy) = first_active_hit s.jobs w j (ground arith) v.unique in
    (there, own, busy, ground arith)

lost_accepted :
    (j : Job) (t : ℤ)
    → Invariant.IsValid j
    → is_active j.state ≡ true
    → neg_part t ≡ 0
    → j.updated_at_ms ≤ℤ t
    → job_fail j j.worker_id j.attempt Job.worker_lost t ≡ ok (lost j t)
unfolding job_fail
lost_accepted j t v busy clock later = ground (arith, v.shape)

-- The parts of a loss that is accepted.
pub loss_effect :
    (s : Scheduler) (w : ℕ) (t : ℤ) (q : Scheduler)
    → worker_lost s w t ≡ ok q
    → (j k : Job) × (active s w ≡ some j)
      × (job_fail j w j.attempt Job.worker_lost t ≡ ok k)
      × (publish_outcome s (find_slot s.jobs k.id) k ≡ ok q)
unfolding worker_lost
loss_effect s w t q h = elim (Bool-cases (w == 0 || is_neg t)) [
  | inl bad ↦ absurd (ground arith)
  | inr good ↦ elim (Option-cases (active s w)) [
    | inl idle ↦ absurd (ground arith)
    | inr (j, busy) ↦ elim (Result-cases (job_fail j w j.attempt Job.worker_lost t)) [
      | inr (e, made) ↦ absurd (ground arith)
      | inl (k, made) ↦ (j, k, busy, made, ground arith)
    ]
  ]
]

pub Loss-Keeps :
    (s : Scheduler) (w : ℕ) (t : ℤ) (j k : Job)
    → active s w ≡ some j
    → job_fail j w j.attempt Job.worker_lost t ≡ ok k
    → IsValid s
    → Keeps j k
Loss-Keeps s w t j k busy made v =
    let (there, own, working, _) = active_hit s w j busy v in
    let sound = All-get Invariant.IsValid s.jobs (find_slot s.jobs j.id) there v.records in
    (job_fail-IsOutcome j w j.attempt Job.worker_lost t k made sound).1

pub Loss-Published :
    (s : Scheduler) (w : ℕ) (t : ℤ) (j k : Job)
    → active s w ≡ some j
    → job_fail j w j.attempt Job.worker_lost t ≡ ok k
    → IsValid s
    → Published s (find_slot s.jobs k.id) k
Loss-Published s w t j k busy made v =
    let (there, own, working, _) = active_hit s w j busy v in
    let keeps = Loss-Keeps s w t j k busy made v in
    subst (λ id. Published s (find_slot s.jobs id) k) (sym keeps.same_id)
      (publish_outcome_total s (find_slot s.jobs j.id) j k v there working keeps)

-- The loss of a worker keeps the store valid.
pub worker_lost-IsValid :
    (s : Scheduler) (w : ℕ) (t : ℤ) (q : Scheduler)
    → worker_lost s w t ≡ ok q
    → IsValid s
    → IsValid q
worker_lost-IsValid s w t q h v =
    let (j, k, busy, made, published) = loss_effect s w t q h in
    let (q', published', valid, _, _) = Loss-Published s w t j k busy made v in
    subst IsValid (ok_inj (sym published' ∙ published)) valid

-- The job of a lost worker is never lost with it: the call succeeds, the job goes back to the end
-- of the queue while retries are left and is FAILED after the last one, and nothing else waits
-- differently. The clock is not behind the job's record.
pub lost_job_recovered :
    (s : Scheduler) (w : ℕ) (t : ℤ) (j : Job)
    → IsValid s
    → active s w ≡ some j
    → neg_part t ≡ 0
    → j.updated_at_ms ≤ℤ t
    → (q : Scheduler) × (worker_lost s w t ≡ ok q)
      × (get_elem? q.jobs (find_slot s.jobs j.id) ≡ some (lost j t))
      × (contents q.pending ≡ appended (lost j t) (contents s.pending))
unfolding worker_lost
lost_job_recovered s w t j v busy clock later =
    let (there, own, working, positive) = active_hit s w j busy v in
    let sound = All-get Invariant.IsValid s.jobs (find_slot s.jobs j.id) there v.records in
    let made : job_fail j w j.attempt Job.worker_lost t ≡ ok (lost j t) =
      subst (λ x. job_fail j x j.attempt Job.worker_lost t ≡ ok (lost j t)) own
        (lost_accepted j t sound working clock later) in
    let (q, published, valid, jobs, waiting) = Loss-Published s w t j (lost j t) busy made v in
    let same : (lost j t).id ≡ j.id = ground arith in
    (
      q,
      ground arith,
      rw jobs (rw same (get_elem?-set s.jobs (find_slot s.jobs j.id) (lost j t) there)),
      waiting,
    )
