-- ===== src/Scheduler/Invariant/History.antt =====
-- Sequences of calls on the store, in the order in which the event loop makes them.
use flatline_c.Prelude.{
  ℕ, ◌^◌, ◌<◌, ◌≡◌, inl, inr, sym, ap, ◌∙◌, subst, Bool, true, false, some, List, ◌∷◌, [], arith,
  get_elem?, get_elem?-append, get_elem?-set_other, set, All, All-get,
}
use flatline_c.Prelude.Int.{ℤ}
use flatline_c.Prelude.Result.{Result, ok, err, Result-cases, ok_inj}
use flatline_c.Job.{Job, JobState, done, failed}
use flatline_c.Job.Invariant
use flatline_c.Protocol.Message.{Message, JobSubmit}
use flatline_c.Scheduler.{
  Scheduler, SchedulerError, init, find_slot, submit, assign, report, worker_lost,
}
use flatline_c.Scheduler.Invariant.{IsValid, init-IsValid}
use flatline_c.Scheduler.Invariant.Submit.{submit_effect, submit-IsValid}
use flatline_c.Scheduler.Invariant.Assign.{assign_effect, assign-IsValid, job_assign_fields}
use flatline_c.Scheduler.Invariant.Report.{
  report_cases, apply_report-IsOutcome, Applied-Published, report-IsValid,
}
use flatline_c.Scheduler.Invariant.Loss.{
  loss_effect, active_hit, Loss-Keeps, Loss-Published, worker_lost-IsValid,
}

pub data Call : Type 0 where
  submits : JobSubmit → ℤ → Call
  assigns : ℕ → ℤ → Call
  reports : ℕ → Message → ℤ → Call
  loses : ℕ → ℤ → Call

-- A call that fails leaves the store as it is.
abbrev after {ℓ} : {A : Type ℓ} → Scheduler → (A → Scheduler) → Result SchedulerError A → Scheduler
after s f (ok a) = f a
after s f (err e) = s

unfoldable pub perform : Scheduler → Call → Scheduler
perform s (submits p t) = after s (λ r. r.1) (submit s p t)
perform s (assigns w t) = after s (λ r. r.1) (assign s w t)
perform s (reports w m t) = after s (λ r. r) (report s w m t)
perform s (loses w t) = after s (λ r. r) (worker_lost s w t)

unfoldable pub run : Scheduler → List Call → Scheduler
unfolding perform
run s [] = s
run s (c ∷ cs) = run (perform s c) cs

-- A retry limit is a 32-bit number.
abbrev pub Fits : Call → Type 0
Fits (submits p t) = p.max_retries < 2 ^ 32
Fits _ = Unit {0}

perform-IsValid : (s : Scheduler) (c : Call) → Fits c → IsValid s → IsValid (perform s c)
unfolding perform
perform-IsValid s (submits p t) f v = elim (Result-cases (submit s p t)) [
  | inl ((id, q), e) ↦ rw e (submit-IsValid s p t id q e f v)
  | inr (x, e) ↦ rw e v
]
perform-IsValid s (assigns w t) f v = elim (Result-cases (assign s w t)) [
  | inl ((m, q), e) ↦ rw e (assign-IsValid s w t m q e v)
  | inr (x, e) ↦ rw e v
]
perform-IsValid s (reports w m t) f v = elim (Result-cases (report s w m t)) [
  | inl (q, e) ↦ rw e (report-IsValid s w m t q e v)
  | inr (x, e) ↦ rw e v
]
perform-IsValid s (loses w t) f v = elim (Result-cases (worker_lost s w t)) [
  | inl (q, e) ↦ rw e (worker_lost-IsValid s w t q e v)
  | inr (x, e) ↦ rw e v
]

after_calls-IsValid :
    (s : Scheduler) (cs : List Call) → All Fits cs → IsValid s → IsValid (run s cs)
unfolding run
after_calls-IsValid s [] f v = v
after_calls-IsValid s (c ∷ cs) f v =
    after_calls-IsValid (perform s c) cs f.1 (perform-IsValid s c f.0 v)

-- Whatever calls come, in whatever order and with whatever arguments, the store is valid after
-- them: records are valid, IDs distinct, no worker runs two jobs, and the queue holds the
-- queued jobs, each once.
pub store-IsValid : (cs : List Call) → All Fits cs → IsValid (run init cs)
store-IsValid cs f = after_calls-IsValid init cs f init-IsValid

-- DONE and FAILED.
abbrev pub is_final : JobState → Bool
is_final done = true
is_final failed = true
is_final _ = false

final_kept :
    (js : List Job) (i slot : ℕ) (j old k : Job)
    → get_elem? js i ≡ some j
    → get_elem? js slot ≡ some old
    → is_final j.state ≡ true
    → is_final old.state ≡ false
    → get_elem? (set js slot k) i ≡ some j
final_kept js i slot j old k there other final live =
    get_elem?-set_other js i slot k (λ h. ground arith) there

perform_keeps_final :
    (s : Scheduler) (c : Call) (i : ℕ) (j : Job)
    → IsValid s
    → get_elem? s.jobs i ≡ some j
    → is_final j.state ≡ true
    → get_elem? (perform s c).jobs i ≡ some j
unfolding perform
perform_keeps_final s (submits p t) i j v there final = elim (Result-cases (submit s p t)) [
  | inr (x, e) ↦ rw e there
  | inl ((id, q), e) ↦
      let (job, pending, _, _, _, result, _, _) = submit_effect s p t e in
      rw (e, result) (get_elem?-append s.jobs (job ∷ []) i there)
]
perform_keeps_final s (assigns w t) i j v there final = elim (Result-cases (assign s w t)) [
  | inr (x, e) ↦ rw e there
  | inl ((m, q), e) ↦
      let (id, _, old, k, _, _, _, _, other, made, _, _, result) = assign_effect s w t e in
      let (waits, _, _, _, _, _, _) = job_assign_fields old w t made in
      rw (e, result)
        (final_kept s.jobs i (find_slot s.jobs id) j old k there other final (ground arith))
]
perform_keeps_final s (reports w m t) i j v there final = elim (report_cases s w m t) [
  | inl (x, e, _) ↦ rw e there
  | inr (id, old, k, named, own, other, made, same) ↦
      let (busy, _) =
        apply_report-IsOutcome old w id m t k made
          (All-get Invariant.IsValid s.jobs (find_slot s.jobs id.job_id) other v.records) in
      let (q, published, _, jobs, _) =
        Applied-Published s w m t v (id, old, k, named, own, other, made, same) in
      rw (same, published, jobs)
        (final_kept s.jobs i (find_slot s.jobs id.job_id) j old k there other final (ground arith))
]
perform_keeps_final s (loses w t) i j v there final = elim (Result-cases (worker_lost s w t)) [
  | inr (x, e) ↦ rw e there
  | inl (q, e) ↦
      let (old, k, busy, made, published) = loss_effect s w t q e in
      let (other, _, working, _) = active_hit s w old busy v in
      let (q', published', _, jobs, _) = Loss-Published s w t old k busy made v in
      let kept =
        final_kept s.jobs i (find_slot s.jobs old.id) j old k there other final (ground arith) in
      let same : k.id ≡ old.id = (Loss-Keeps s w t old k busy made v).same_id in
      rw e (
        subst (λ x. get_elem? x.jobs i ≡ some j) (ok_inj (sym published' ∙ published))
          (rw jobs (rw (ap (find_slot s.jobs) same) kept)))
]

-- The outcome of a job is final: once it is DONE or FAILED, its record stays the same through
-- any calls, late reports and losses of its worker among them.
pub final_stays :
    (s : Scheduler) (cs : List Call) (i : ℕ) (j : Job)
    → IsValid s
    → All Fits cs
    → get_elem? s.jobs i ≡ some j
    → is_final j.state ≡ true
    → get_elem? (run s cs).jobs i ≡ some j
unfolding run
final_stays s [] i j v f there final = there
final_stays s (c ∷ cs) i j v f there final =
    final_stays (perform s c) cs i j (perform-IsValid s c f.0 v) f.1
      (perform_keeps_final s c i j v there final) final
