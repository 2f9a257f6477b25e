-- ===== src/Job/Lifecycle.antt =====
-- Histories of one job: the calls of job.c in any order, with any arguments. A call that fails
-- leaves the record as it was.
use flatline_c.Prelude.{
  ℕ, suc, ◌+◌, ◌-◌, ◌*◌, ◌^◌, ◌≤◌, ◌<◌, ◌≡◌, ◌≢◌, ◌⊎◌, refl, ◌∙◌, List, [], ◌∷◌, arith,
}
use flatline_c.Prelude.Int.{ℤ, ◌≤ℤ◌}
use flatline_c.Prelude.Result.{Result, ok, err}
use flatline_c.Job.{
  Job, JobState, JobFailure, JobError, Bytes, queued, assigned, running, done, failed,
  can_transition, job_init, job_assign, job_start, job_complete, job_fail,
}
use flatline_c.Job.Invariant.{
  IsValid, job_init-IsValid, job_assign-IsValid, job_start-IsValid, job_complete-IsValid,
  job_fail-IsValid,
}

pub data Call : Type 0 where
  assigns : ℕ → ℤ → Call
  starts : ℕ → ℕ → ℤ → Call
  completes : ℕ → ℕ → Bytes → ℤ → Call
  fails : ℕ → ℕ → JobFailure → ℤ → Call

abbrev pub perform : Job → Call → Result JobError Job
perform j (assigns w t) = job_assign j w t
perform j (starts w a t) = job_start j w a t
perform j (completes w a b t) = job_complete j w a b t
perform j (fails w a f t) = job_fail j w a f t

abbrev pub settle : Job → Result JobError Job → Job
settle j (ok k) = k
settle j (err e) = j

unfoldable pub run : Job → List Call → Job
run j [] = j
run j (c ∷ cs) = run (settle j (perform j c)) cs

abbrev tally : Result JobError Job → ℕ → ℕ
tally (ok k) n = suc n
tally (err e) n = n

-- The calls of a history that succeed.
unfoldable pub accepted : Job → List Call → ℕ
accepted j [] = 0
accepted j (c ∷ cs) = tally (perform j c) (accepted (settle j (perform j c)) cs)

pub perform-IsValid : (j : Job) (c : Call) {k : Job} → perform j c ≡ ok k → IsValid j → IsValid k
perform-IsValid j (assigns w t) h v = job_assign-IsValid j w t h v
perform-IsValid j (starts w a t) h v = job_start-IsValid j w a t h v
perform-IsValid j (completes w a b t) h v = job_complete-IsValid j w a b t h v
perform-IsValid j (fails w a f t) h v = job_fail-IsValid j w a f t h v

settle_rule {ℓ} :
    (P : Job → Type ℓ) (j : Job) (r : Result JobError Job)
    → P j
    → ((k : Job) → r ≡ ok k → P k)
    → P (settle j r)
settle_rule P j (ok k) h keep = keep k refl
settle_rule P j (err e) h keep = h

run_rule {ℓ} :
    (P : Job → Type ℓ)
    → ((j : Job) (c : Call) (k : Job) → perform j c ≡ ok k → P j → P k)
    → (j : Job) (cs : List Call) → P j
    → P (run j cs)
unfolding run
run_rule P keep j [] h = h
run_rule P keep j (c ∷ cs) h =
    run_rule P keep (settle j (perform j c)) cs
      (settle_rule P j (perform j c) h (λ k e. keep j c k e h))

-- The edges of docs/jobs.md, by the call that takes them, with the guard on the retries.
abbrev pub Edge : Call → Job → JobState → Type 0
Edge (assigns w t) j next = (j.state ≡ queued) × (next ≡ assigned)
Edge (starts w a t) j next = (j.state ≡ assigned) × (next ≡ running)
Edge (completes w a b t) j next = (j.state ≡ running) × (next ≡ done)
Edge (fails w a f t) j next =
    ((j.state ≡ assigned) ⊎ (j.state ≡ running))
    × (((j.retry_count < j.max_retries) × (next ≡ queued))
        ⊎ ((j.max_retries ≤ j.retry_count) × (next ≡ failed)))

-- The worker and the attempt that a report names are those of the record.
abbrev pub Reports : Call → Job → Type 0
Reports (assigns w t) j = Unit {0}
Reports (starts w a t) j = (w ≡ j.worker_id) × (a ≡ j.attempt)
Reports (completes w a b t) j = (w ≡ j.worker_id) × (a ≡ j.attempt)
Reports (fails w a f t) j = (w ≡ j.worker_id) × (a ≡ j.attempt)

-- What a call that succeeds makes of a record.
pub record IsMove (c : Call) (j k : Job) : Type 0 where
  pub edge : Edge c j k.state
  pub reports : Reports c j
  pub later : j.updated_at_ms ≤ℤ k.updated_at_ms
  pub same_id : k.id ≡ j.id
  pub same_task : k.task_type ≡ j.task_type
  pub same_arguments : k.arguments ≡ j.arguments
  pub same_limit : k.max_retries ≡ j.max_retries
  pub same_creation : k.created_at_ms ≡ j.created_at_ms

-- Every call that succeeds, whatever the record it starts from, takes an edge of the documented
-- graph: assign from QUEUED to ASSIGNED, start from ASSIGNED to RUNNING, complete from RUNNING to
-- DONE, and fail from ASSIGNED or RUNNING to QUEUED while retries are left and to FAILED after the
-- last one. A report names the worker and the attempt of the record; no call sets the clock back, or
-- changes the identity, the task, the arguments, the retry limit or the creation time.
pub perform-IsMove : (j : Job) (c : Call) (k : Job) → perform j c ≡ ok k → IsMove c j k
unfolding job_assign job_start job_complete job_fail can_transition
perform-IsMove j (assigns w t) k h = ground arith
perform-IsMove j (starts w a t) k h = ground arith
perform-IsMove j (completes w a b t) k h = ground arith
perform-IsMove j (fails w a f t) k h = ground arith

job_init-limit :
    (id kind : ℕ) (b : Bytes) (retries : ℕ) (t : ℤ) {j : Job}
    → job_init id kind b retries t ≡ ok j
    → (j.max_retries ≡ retries) × (j.retry_count ≡ 0) × (j.state ≡ queued)
unfolding job_init
job_init-limit id kind b retries t h = ground arith

attempt-le : (j : Job) → IsValid j → j.attempt ≤ j.max_retries + 1
attempt-le j v = ground arith

run-IsValid_limit :
    (n : ℕ) (j : Job) (cs : List Call)
    → IsValid j
    → j.max_retries ≡ n
    → IsValid (run j cs) × ((run j cs).max_retries ≡ n)
run-IsValid_limit n j cs v e =
    run_rule (λ i. IsValid i × (i.max_retries ≡ n))
      (λ i c k s h. (perform-IsValid i c s h.0, (perform-IsMove i c k s).same_limit ∙ h.1)) j cs
      (v, e)

-- After any history of a job that `job_init` made, the record is valid, and it has made at most
-- one attempt more than the retries allowed, so that neither counter has wrapped.
pub run-IsValid :
    (id kind : ℕ) (b : Bytes) (retries : ℕ) (t : ℤ) (j : Job) (cs : List Call)
    → job_init id kind b retries t ≡ ok j
    → retries < 2 ^ 32
    → IsValid (run j cs) × ((run j cs).attempt ≤ retries + 1)
run-IsValid id kind b retries t j cs h w =
    let (v, e) =
      run-IsValid_limit retries j cs (job_init-IsValid id kind b retries t h w)
        (job_init-limit id kind b retries t h).0 in
    (v, omega (arith, attempt-le (run j cs) v))

-- What is left to do: three steps for each attempt that may still begin.
abbrev rank : JobState → ℕ
rank queued = 3
rank assigned = 2
rank running = 1
rank done = 0
rank failed = 0

abbrev budget : Job → ℕ
budget j = 3 * (j.max_retries - j.retry_count) + rank j.state

perform-budget :
    (j : Job) (c : Call) (k : Job) → perform j c ≡ ok k → IsValid j → suc (budget k) ≤ budget j
unfolding job_assign job_start job_complete job_fail
perform-budget j (assigns w t) k h v = ground arith
perform-budget j (starts w a t) k h v = ground arith
perform-budget j (completes w a b t) k h v = ground arith
perform-budget j (fails w a f t) k h v = ground arith

accepted-le-budget : (j : Job) (cs : List Call) → IsValid j → accepted j cs ≤ budget j
unfolding accepted
accepted-le-budget j [] v = omega arith
accepted-le-budget j (c ∷ cs) v =
    count (perform j c) refl (accepted-le-budget (settle j (perform j c)) cs)
  where
    count :
        (r : Result JobError Job)
        → perform j c ≡ r
        → (IsValid (settle j r) → accepted (settle j r) cs ≤ budget (settle j r))
        → tally r (accepted (settle j r) cs) ≤ budget j
    count (ok k) e ih = omega (arith, ih (perform-IsValid j c e v), perform-budget j c k e v)
    count (err x) e ih = ih v

-- A job that `job_init` made settles: of any history at most three calls for each attempt that its
-- limit allows succeed.
pub accepted_bound :
    (id kind : ℕ) (b : Bytes) (retries : ℕ) (t : ℤ) (j : Job) (cs : List Call)
    → job_init id kind b retries t ≡ ok j
    → retries < 2 ^ 32
    → accepted j cs ≤ 3 * (retries + 1)
accepted_bound id kind b retries t j cs h w =
    let (limit, fresh, start) = job_init-limit id kind b retries t h in
    let bound = accepted-le-budget j cs (job_init-IsValid id kind b retries t h w) in
    ground (arith, bound)

-- The attempt `a` is over: no later call can be its report.
abbrev IsOver : ℕ → Job → Type 0
IsOver a j =
    IsValid j
    × ((a < j.attempt)
        ⊎ ((a ≤ j.attempt) × (j.state ≡ queued))
        ⊎ (j.state ≡ done)
        ⊎ (j.state ≡ failed))

perform-IsOver :
    (a : ℕ) (j : Job) (c : Call) (k : Job) → perform j c ≡ ok k → IsOver a j → IsOver a k
unfolding job_assign job_start job_complete job_fail
perform-IsOver a j (assigns w t) k h o = (job_assign-IsValid j w t h o.0, ground arith)
perform-IsOver a j (starts w b t) k h o = (job_start-IsValid j w b t h o.0, ground arith)
perform-IsOver a j (completes w b d t) k h o = (job_complete-IsValid j w b d t h o.0, ground arith)
perform-IsOver a j (fails w b f t) k h o = (job_fail-IsValid j w b f t h o.0, ground arith)

job_fail-IsOver :
    (j : Job) (w a : ℕ) (f : JobFailure) (t : ℤ) (k : Job)
    → job_fail j w a f t ≡ ok k
    → IsValid j
    → IsOver a k
unfolding job_fail
job_fail-IsOver j w a f t k h v = (job_fail-IsValid j w a f t h v, ground arith)

-- The reports that name an attempt.
abbrev Names : ℕ → Call → Type 0
Names a (assigns w t) = ⊥
Names a (starts w b t) = b ≡ a
Names a (completes w b d t) = b ≡ a
Names a (fails w b f t) = b ≡ a

refuses : (a : ℕ) (j : Job) (c : Call) (k : Job) → IsOver a j → Names a c → perform j c ≢ ok k
unfolding job_start job_complete job_fail
refuses a j (assigns w t) k o n h = absurd n
refuses a j (starts w b t) k o n h = ground arith
refuses a j (completes w b d t) k o n h = ground arith
refuses a j (fails w b f t) k o n h = ground arith

-- Once an attempt has failed, no report that names it is accepted, whatever calls come between
-- and whichever worker sends it.
pub late_report_refused :
    (j : Job) (w a : ℕ) (f : JobFailure) (t : ℤ) (k : Job) (cs : List Call) (c : Call) (i : Job)
    → IsValid j
    → job_fail j w a f t ≡ ok k
    → Names a c
    → perform (run k cs) c ≢ ok i
late_report_refused j w a f t k cs c i v h n =
    refuses a (run k cs) c i
      (run_rule (IsOver a) (perform-IsOver a) k cs (job_fail-IsOver j w a f t k h v)) n
