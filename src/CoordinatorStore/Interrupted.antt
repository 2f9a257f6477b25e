-- ===== src/CoordinatorStore/Interrupted.antt =====
-- The recovery of interrupted jobs: after it no attempt is under way.
use flatline_c.Prelude.{
  ℕ, zero, suc, ◌+◌, ◌<◌, ◌≡◌, ◌≢◌, ◌⊎◌, inl, inr, refl, sym, ap, ◌∙◌, subst, Bool, true, false,
  Bool-cases, Option, none, some, some_inj, List, [], ◌∷◌, All, All-get, arith, ltb, set, get_elem?,
  length, length-set,
}
use flatline_c.Prelude.Int.{ℤ}
use flatline_c.Prelude.Result.{Result, ok, err, ok_inj}
use flatline_c.Job
use flatline_c.Job.{Job, job_fail}
use flatline_c.Scheduler
use flatline_c.Scheduler.{Scheduler, is_active, find_slot, active}
use flatline_c.Scheduler.Lists.{AreApart, IsUnique}
use flatline_c.Scheduler.Invariant.{IsValid}
use flatline_c.Scheduler.Invariant.Loss.{
  loss_effect, Loss-Published, Loss-Keeps, worker_lost-IsValid,
}
use flatline_c.Wal.Format.{Record}
use flatline_c.Wal.Replay.Transitions.{first_active_unique}
use flatline_c.Wal.Replay.Calls.{active-first}
use flatline_c.CoordinatorStore.State.{Store, StoreError}
use flatline_c.CoordinatorStore.{commit_worker_loss}
use flatline_c.CoordinatorStore.Effects.{continued, commit_worker_loss_ok}
use flatline_c.CoordinatorStore.Open.{
  recover_job, recover_from, recover_interrupted_jobs, lost_attempt,
}

-- An ID is found in the slot of its record.
find_slot_of :
    (js : List Job) (i : ℕ) {j : Job}
    → get_elem? js i ≡ some j
    → IsUnique js
    → find_slot js j.id ≡ i
unfolding find_slot
find_slot_of [] i e u = cc
find_slot_of (x ∷ js) zero {j} e u = let e' = some_inj.0 e in ground (arith, e')
find_slot_of (x ∷ js) (suc i) {j} e u =
    let a = All-get (AreApart x) js i e u.0 in ground (arith, a, find_slot_of js i {j = j} e u.1)

get_set :
    (js : List Job) (i k : ℕ) (v : Job) {x : Job}
    → get_elem? (set js i v) k ≡ some x
    → ((k ≡ i) × (x ≡ v)) ⊎ ((k ≢ i) × (get_elem? js k ≡ some x))
get_set [] i k v e = cc
get_set (y ∷ js) zero zero v e = inl (refl, sym (some_inj.0 e))
get_set (y ∷ js) zero (suc k) v e = inr (λ h. absurd (omega (arith, h)), e)
get_set (y ∷ js) (suc i) zero v e = inr (λ h. absurd (omega (arith, h)), e)
get_set (y ∷ js) (suc i) (suc k) v e = elim (get_set js i k v e) [
  | inl (same, x) ↦ inl (ap suc same, x)
  | inr (apart, other) ↦ inr (λ h. apart (omega (arith, h)), other)
]

failed-inactive :
    (j : Job) (w a : ℕ) (f : Job.JobFailure) (t : ℤ) {k : Job}
    → job_fail j w a f t ≡ ok k
    → is_active k.state ≡ false
unfolding job_fail
failed-inactive j w a f t h = ground arith

-- No attempt is under way in the slots below `i`.
abbrev pub IdleBelow : ℕ → Scheduler → Type 0
IdleBelow i s = (k : ℕ) (j : Job) → k < i → get_elem? s.jobs k ≡ some j → is_active j.state ≡ false

-- The loss of the owner of the job in slot `i` ends that attempt, and starts none.
lost_slot-IdleBelow :
    (s q : Scheduler) (i : ℕ) (t : ℤ) (job : Job)
    → IsValid s
    → get_elem? s.jobs i ≡ some job
    → is_active job.state ≡ true
    → Scheduler.worker_lost s job.worker_id t ≡ ok q
    → IdleBelow i s
    → IdleBelow (i + 1) q
lost_slot-IdleBelow s q i t job v there live h idle k j below e =
    let (a, c, busy, made, published) = loss_effect s job.worker_id t q h in
    let (q', published', _, jobs, _) = Loss-Published s job.worker_id t a c busy made v in
    let same : q' ≡ q = ok_inj (sym published' ∙ published) in
    let one : a ≡ job =
      first_active_unique s.jobs job.worker_id i job a (active-first s job.worker_id a busy) there
        live refl v.unique in
    let id : c.id ≡ job.id =
      (Loss-Keeps s job.worker_id t a c busy made v).same_id ∙ ap (λ (x : Job). x.id) one in
    let slot : find_slot s.jobs c.id ≡ i =
      ap (find_slot s.jobs) id ∙ find_slot_of s.jobs i there v.unique in
    let written : q.jobs ≡ set s.jobs i c =
      ap (λ (x : Scheduler). x.jobs) (sym same) ∙ jobs ∙ ap (λ x. set s.jobs x c) slot in
    elim (get_set s.jobs i k c (subst (λ x. get_elem? x k ≡ some j) written e)) [
      | inl (_, new) ↦ rw new (failed-inactive a job.worker_id a.attempt Job.worker_lost t made)
      | inr (apart, old) ↦ idle k j (omega (arith, below, apart)) old
    ]

length-lost :
    (s q : Scheduler) (w : ℕ) (t : ℤ)
    → IsValid s
    → Scheduler.worker_lost s w t ≡ ok q
    → length q.jobs ≡ length s.jobs
length-lost s q w t v h =
    let (a, c, busy, made, published) = loss_effect s w t q h in
    let (q', published', _, jobs, _) = Loss-Published s w t a c busy made v in
    let same : q' ≡ q = ok_inj (sym published' ∙ published) in
    ap (λ (x : Scheduler). length x.jobs) (sym same)
    ∙ ap length jobs
    ∙ length-set s.jobs (find_slot s.jobs c.id) c

-- The store is valid, idle below a slot, and has as many jobs as before.
abbrev Swept : ℕ → Scheduler → Scheduler → Type 0
Swept i s q = IsValid q × IdleBelow i q × (length q.jobs ≡ length s.jobs)

below_length : (js : List Job) (k : ℕ) {j : Job} → get_elem? js k ≡ some j → k < length js
below_length [] k e = cc
below_length (x ∷ js) zero e = omega arith
below_length (x ∷ js) (suc k) {j} e = omega (arith, below_length js k {j = j} e)

all_idle :
    (js : List Job)
    → ((k : ℕ) (j : Job) → get_elem? js k ≡ some j → is_active j.state ≡ false)
    → All (λ j. is_active j.state ≡ false) js
all_idle [] h = tt
all_idle (x ∷ js) h = (h 0 x refl, all_idle js (λ k j e. h (suc k) j e))

module _ {Wal : Type 0} (next_sequence : Wal → ℕ) (append : Wal → Record → Bool × Wal)
    (now : ℤ) where
  lost_attempt_ok :
      (r : Result StoreError (Unit {0}) × Store Wal) {q : Store Wal}
      → lost_attempt next_sequence append r ≡ (ok tt, q)
      → (t : Store Wal) × (r ≡ (ok tt, t))
        × (q ≡ record t { interrupted_jobs = t.interrupted_jobs + 1 })
  lost_attempt_ok (ok tt, t) h =
      (t, refl, ap (λ (x : Result StoreError (Unit {0}) × Store Wal). x.1) (sym h))
  lost_attempt_ok (err e, t) h = absurd (ground arith)

  -- One round: the slot holds no attempt under way, or the loss of its owner is committed.
  pub recover_job_ok :
      (s : Store Wal) (o : Option Job) {q : Store Wal}
      → recover_job next_sequence append o now s ≡ (ok tt, q)
      → ((q ≡ s) × ((j : Job) → o ≡ some j → is_active j.state ≡ false))
        ⊎ ((job : Job) × (t : Store Wal) × (o ≡ some job)
            × (is_active job.state ≡ true)
            × (commit_worker_loss next_sequence append job.worker_id now s ≡ (ok tt, t))
            × (q ≡ record t { interrupted_jobs = t.interrupted_jobs + 1 }))
  recover_job_ok s none h =
      inl (ap (λ (x : Result StoreError (Unit {0}) × Store Wal). x.1) (sym h), λ j e. cc)
  recover_job_ok s (some job) h = elim (Bool-cases (is_active job.state)) [
    | inr quiet ↦ inl (
      ap (λ (x : Result StoreError (Unit {0}) × Store Wal). x.1) (sym (rw quiet at h)),
      λ j e. subst (λ (x : Job). is_active x.state ≡ false) (some_inj.0 e) quiet,
    )
    | inl live ↦
        let (t, committed, result) =
          lost_attempt_ok (commit_worker_loss next_sequence append job.worker_id now s)
            (rw live at h) in
        inr (job, t, refl, live, committed, result)
  ]

  recover_job-IdleBelow :
      (s q : Store Wal) (i : ℕ)
      → recover_job next_sequence append (get_elem? s.jobs.jobs i) now s ≡ (ok tt, q)
      → IsValid s.jobs
      → IdleBelow i s.jobs
      → Swept (i + 1) s.jobs q.jobs
  recover_job-IdleBelow s q i h v idle = elim (recover_job_ok s (get_elem? s.jobs.jobs i) h) [
    | inl (same, quiet) ↦
        subst (λ (x : Store Wal). Swept (i + 1) s.jobs x.jobs) (sym same)
          (
            v,
            λ k j below e. elim (Bool-cases (ltb k i)) [
              | inl before ↦ idle k j (ground arith) e
              | inr here ↦
                  let at_i : k ≡ i = ground arith in
                  quiet j (subst (λ x. get_elem? s.jobs.jobs x ≡ some j) at_i e)
            ],
            refl,
          )
    | inr (job, t, there, live, committed, result) ↦
        let (time, scratch, a, working, due, made, (c, found, (took, jobs, _, _))) =
          commit_worker_loss_ok next_sequence append s job.worker_id now committed in
        let published : q.jobs ≡ scratch = ap (λ (x : Store Wal). x.jobs) result ∙ jobs in
        subst (Swept (i + 1) s.jobs) (sym published) (
          worker_lost-IsValid s.jobs job.worker_id time scratch made v,
          lost_slot-IdleBelow s.jobs scratch i time job v there live made idle,
          length-lost s.jobs scratch job.worker_id time v made,
        )
  ]

  recover_from-IdleBelow :
      (s q : Store Wal) (i rounds : ℕ)
      → recover_from next_sequence append i rounds now s ≡ (ok tt, q)
      → IsValid s.jobs
      → IdleBelow i s.jobs
      → Swept (i + rounds) s.jobs q.jobs
  unfolding recover_from
  recover_from-IdleBelow s q i zero h v idle =
      let same : s ≡ q = ap (λ (x : Result StoreError (Unit {0}) × Store Wal). x.1) h in
      subst (λ (x : Store Wal). Swept (i + 0) s.jobs x.jobs) same
        (v, λ k j below. idle k j (omega arith), refl)
  recover_from-IdleBelow s q i (suc rounds) h v idle =
      let (u, t, e, h') =
        continued (λ u. recover_from next_sequence append (i + 1) rounds now)
          (recover_job next_sequence append (get_elem? s.jobs.jobs i) now s) h in
      let (v', idle', size) = recover_job-IdleBelow s t i e v idle in
      let (v'', idle'', size') = recover_from-IdleBelow t q (i + 1) rounds h' v' idle' in
      (v'', λ k j below. idle'' k j (omega arith), size' ∙ size)

  -- After the loop every job has come to rest: it waits, or it is final.
  pub recover_interrupted_jobs-idle :
      (s q : Store Wal)
      → recover_interrupted_jobs next_sequence append now s ≡ (ok tt, q)
      → IsValid s.jobs
      → IsValid q.jobs × All (λ j. is_active j.state ≡ false) q.jobs.jobs
  unfolding recover_interrupted_jobs
  recover_interrupted_jobs-idle s q h v =
      let (v', idle, size) =
        recover_from-IdleBelow s q 0 (length s.jobs.jobs) h v (λ k j below. absurd (omega arith)) in
      (
        v',
        all_idle q.jobs.jobs (λ k j there.
            idle k j (omega (arith, size, below_length q.jobs.jobs k {j = j} there)) there),
      )
