-- ===== src/Scheduler/Invariant/Report.antt =====
-- Reports of workers, and the loss of one.
use flatline_c.Prelude.{
  ℕ, ◌≡◌, ◌≢◌, ◌⊎◌, inl, inr, sym, ◌∙◌, subst, Bool-cases, Option-cases, true, some, ◌||◌, arith,
  ◌==◌, get_elem?, All-get,
}
use flatline_c.Prelude.Int.{ℤ, is_neg}
use flatline_c.Prelude.Result.{Result, ok, err, or_else, Result-cases, ok_inj}
use flatline_c.Job.{Job, JobFailure, Bytes, task, job_start, job_complete, job_fail}
use flatline_c.Job.Invariant
use flatline_c.Job.Invariant.{job_start-IsValid, job_complete-IsValid, job_fail-IsValid}
use flatline_c.Protocol.Message.{Message, JobIdentity}
use flatline_c.Scheduler.{
  Scheduler, SchedulerError, queue_error, invalid_argument, invalid_job, is_active, find_slot, held,
  publish_outcome, report_identity, apply_report, report,
}
use flatline_c.Scheduler.Invariant.{IsValid}
use flatline_c.Scheduler.Invariant.Outcome.{Keeps, Published, publish_outcome_total}

abbrev pub IsOutcome : Job → Job → Type 0
IsOutcome j k = (is_active j.state ≡ true) × Keeps j k

pub job_start-IsOutcome :
    (j : Job) (w a : ℕ) (t : ℤ) (k : Job)
    → job_start j w a t ≡ ok k
    → Invariant.IsValid j
    → IsOutcome j k
unfolding job_start
job_start-IsOutcome j w a t k h v = (
  ground arith,
  record { same_id = ground arith; sound = job_start-IsValid j w a t h v; owner = ground arith },
)

pub job_complete-IsOutcome :
    (j : Job) (w a : ℕ) (b : Bytes) (t : ℤ) (k : Job)
    → job_complete j w a b t ≡ ok k
    → Invariant.IsValid j
    → IsOutcome j k
unfolding job_complete
job_complete-IsOutcome j w a b t k h v = (
  ground arith,
  record {
    same_id = ground arith;
    sound = job_complete-IsValid j w a b t h v;
    owner = ground arith;
  },
)

pub job_fail-IsOutcome :
    (j : Job) (w a : ℕ) (f : JobFailure) (t : ℤ) (k : Job)
    → job_fail j w a f t ≡ ok k
    → Invariant.IsValid j
    → IsOutcome j k
unfolding job_fail
job_fail-IsOutcome j w a f t k h v = (
  ground arith,
  record { same_id = ground arith; sound = job_fail-IsValid j w a f t h v; owner = ground arith },
)

pub or_else_ok {ℓ} :
    {E F : Type 0} {A : Type ℓ} (r : Result E A) (f : F) {a : A} → or_else r f ≡ ok a → r ≡ ok a
or_else_ok (ok b) f h = cc
or_else_ok (err e) f h = cc

pub apply_report-IsOutcome :
    (j : Job) (w : ℕ) (i : JobIdentity) (m : Message) (t : ℤ) (k : Job)
    → apply_report j w i m t ≡ ok k
    → Invariant.IsValid j
    → IsOutcome j k
apply_report-IsOutcome j w i (Message.job_started x) t k h v =
    job_start-IsOutcome j w i.attempt t k (or_else_ok (job_start j w i.attempt t) _ h) v
apply_report-IsOutcome j w i (Message.job_completed p) t k h v =
    job_complete-IsOutcome j w i.attempt (held p.output) t k
      (or_else_ok (job_complete j w i.attempt (held p.output) t) _ h) v
apply_report-IsOutcome j w i (Message.job_failed p) t k h v =
    job_fail-IsOutcome j w i.attempt task t k (ground arith) v
apply_report-IsOutcome j w i _ t k h v = absurd (ground arith)

-- The parts of a report up to the record that it produces.
abbrev Applied : Scheduler → ℕ → Message → ℤ → Type 0
Applied s w m t =
    (i : JobIdentity) × (j k : Job) × (report_identity m ≡ ok i)
    × (i.worker_id ≡ w)
    × (get_elem? s.jobs (find_slot s.jobs i.job_id) ≡ some j)
    × (apply_report j w i m t ≡ ok k)
    × (report s w m t ≡ publish_outcome s (find_slot s.jobs i.job_id) k)

or_else_err {ℓ} :
    {E F : Type 0} {A : Type ℓ} (r : Result E A) (f : F) {e : F} → or_else r f ≡ err e → e ≡ f
or_else_err (ok b) f h = cc
or_else_err (err e) f h = cc

apply_report_error :
    (j : Job) (w : ℕ) (i : JobIdentity) (m : Message) (t : ℤ) (e : SchedulerError)
    → apply_report j w i m t ≡ err e
    → e ≢ queue_error
apply_report_error j w i (Message.job_started x) t e h =
    ground (arith, or_else_err (job_start j w i.attempt t) _ h)
apply_report_error j w i (Message.job_completed p) t e h =
    ground (arith, or_else_err (job_complete j w i.attempt (held p.output) t) _ h)
apply_report_error j w i (Message.job_failed p) t e h = elim (Bool-cases (p.failure == 1)) [
  | inl named ↦ ground (arith, or_else_err (job_fail j w i.attempt task t) _ (rw named at h))
  | inr other ↦ ground arith
]
apply_report_error j w i _ t e h = ground arith

report_identity_error :
    (m : Message) (e : SchedulerError) → report_identity m ≡ err e → e ≢ queue_error
report_identity_error (Message.job_started x) e h = cc
report_identity_error (Message.job_completed x) e h = cc
report_identity_error (Message.job_failed x) e h = cc
report_identity_error _ e h = ground arith

abbrev Refused : Scheduler → ℕ → Message → ℤ → Type 0
Refused s w m t = (e : SchedulerError) × (report s w m t ≡ err e) × (e ≢ queue_error)

-- A report is refused before the queue is asked, or it comes to an outcome of its job.
pub report_cases : (s : Scheduler) (w : ℕ) (m : Message) (t : ℤ) → Refused s w m t ⊎ Applied s w m t
unfolding report
report_cases s w m t = elim (Bool-cases (w == 0 || is_neg t)) [
  | inl bad ↦ inl (invalid_argument, ground arith, ground arith)
  | inr good ↦ elim (Result-cases (report_identity m)) [
    | inr (e, named) ↦ inl (e, ground arith, report_identity_error m e named)
    | inl (i, named) ↦ elim (Bool-cases (i.worker_id == w)) [
      | inr other ↦ inl (invalid_job, ground arith, ground arith)
      | inl own ↦ elim (Option-cases (get_elem? s.jobs (find_slot s.jobs i.job_id))) [
        | inl gone ↦ inl (invalid_job, ground arith, ground arith)
        | inr (j, there) ↦ elim (Result-cases (apply_report j w i m t)) [
          | inr (e, made) ↦ inl (e, ground arith, apply_report_error j w i m t e made)
          | inl (k, made) ↦ inr (i, j, k, named, ground arith, there, made, ground arith)
        ]
      ]
    ]
  ]
]

pub Applied-Published :
    (s : Scheduler) (w : ℕ) (m : Message) (t : ℤ)
    → IsValid s
    → (a : Applied s w m t) → Published s (find_slot s.jobs a.0.job_id) a.2
Applied-Published s w m t v (i, j, k, named, own, there, made, same) =
    let (busy, keeps) =
      apply_report-IsOutcome j w i m t k made
        (All-get Invariant.IsValid s.jobs (find_slot s.jobs i.job_id) there v.records) in
    publish_outcome_total s (find_slot s.jobs i.job_id) j k v there busy keeps

-- A report that is accepted keeps the store valid.
pub report-IsValid :
    (s : Scheduler) (w : ℕ) (m : Message) (t : ℤ) (q : Scheduler)
    → report s w m t ≡ ok q
    → IsValid s
    → IsValid q
report-IsValid s w m t q h v = elim (report_cases s w m t) [
  | inl (e, refused, _) ↦ absurd (ground arith)
  | inr (i, j, k, named, own, there, made, same) ↦
      let (q', published, valid, _, _) =
        Applied-Published s w m t v (i, j, k, named, own, there, made, same) in
      subst IsValid (ok_inj (sym published ∙ sym same ∙ h)) valid
]

-- A valid store never answers a report with an error of its queue, so that an outcome of a job
-- is published as soon as the job itself accepts it.
pub report_queue_ready :
    (s : Scheduler) (w : ℕ) (m : Message) (t : ℤ) → IsValid s → report s w m t ≢ err queue_error
report_queue_ready s w m t v h = elim (report_cases s w m t) [
  | inl (e, refused, other) ↦ ground arith
  | inr (i, j, k, named, own, there, made, same) ↦
      let (q', published, valid, _, _) =
        Applied-Published s w m t v (i, j, k, named, own, there, made, same) in
      ground arith
]
