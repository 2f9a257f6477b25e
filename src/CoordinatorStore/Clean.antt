-- ===== src/CoordinatorStore/Clean.antt =====
-- A call of the store that does not succeed changes nothing, or leaves the store failed.
use flatline_c.Prelude.{
  ℕ, ◌≡◌, ◌⊎◌, inl, inr, refl, subst, Bool, true, false, not, Option, none, some, Option-cases,
  arith,
}
use flatline_c.Prelude.Int.{ℤ, ltz, is_neg}
use flatline_c.Prelude.Result.{Result, ok, err}
use flatline_c.Job.{Job}
use flatline_c.Protocol.Message.{Message, JobSubmit}
use flatline_c.Scheduler
use flatline_c.Scheduler.{Scheduler, SchedulerError, queue_error, worker_busy, find, active}
use flatline_c.WorkerRegistry
use flatline_c.Wal.Format.{
  Record, Entry, worker_id_allocated, job_snapshot, JobRecord, job_created, job_assigned,
}
use flatline_c.CoordinatorStore.State.{
  Store, StoreFailure, Step, StoreError, rejected, empty, fatal, internal_failure, ◌>>=◌, ◌>>◌,
  first, clock_failure, wal_failure, answer, fail, refuse, refuse_if, fail_if, continue_with,
}
use flatline_c.CoordinatorStore.{
  usable, out_of_range, time_of, append_record, job_time, commit_job, register, submit, assign,
  report, commit_worker_loss, worker_lost, kind_in, submitted, given, reported, lost, assigned_id,
  appended, commit_found, registered, report_of, loss_of, is_live,
}

abbrev pub HasFailed : {Wal : Type 0} → Store Wal → Type 0
HasFailed s = (f : StoreFailure) × (s.failure ≡ some f)

-- Success, no change, or a failure.
abbrev pub Clean : {Wal A : Type 0} → Store Wal → Result StoreError A × Store Wal → Type 0
Clean {A = A} s (r, q) = ((a : A) × (r ≡ ok a)) ⊎ ((q ≡ s) ⊎ HasFailed q)

-- Success with no change of the state, or not.
abbrev pub Quiet : {Wal A : Type 0} → Store Wal → Result StoreError A × Store Wal → Type 0
Quiet {A = A} s (r, q) =
    ((a : A) × (r ≡ ok a) × (q ≡ s)) ⊎ ((e : StoreError) × (r ≡ err e) × ((q ≡ s) ⊎ HasFailed q))

abbrev pub IsClean : {Wal A : Type 0} → Step Wal A → Type 0
IsClean {Wal} m = (s : Store Wal) → Clean s (m s)

abbrev pub IsQuiet : {Wal A : Type 0} → Step Wal A → Type 0
IsQuiet {Wal} m = (s : Store Wal) → Quiet s (m s)

module _ {Wal : Type 0} where
  failed_with :
      (s : Store Wal) (f : StoreFailure) → HasFailed (record s { failure = first s.failure f })
  failed_with s f = elim (Option-cases s.failure) [
    | inl e ↦ (f, rw e refl)
    | inr (g, e) ↦ (g, rw e refl)
  ]

  bind-IsClean :
      {A B : Type 0} (m : Step Wal A) (f : A → Step Wal B)
      → IsQuiet m
      → ((a : A) → IsClean (f a))
      → IsClean (m >>= f)
  bind-IsClean {A} {B} m f h k s = after (m s) (h s)
    where
      after : (r : Result StoreError A × Store Wal) → Quiet s r → Clean s (continue_with f r.0 r.1)
      after (ok a, q) (inl (x, e, same)) = subst (λ (t : Store Wal). Clean t (f a q)) same (k a q)
      after (ok a, q) (inr (x, e, rest)) = absurd (ground arith)
      after (err e, q) (inl (x, h, same)) = absurd (ground arith)
      after (err e, q) (inr (x, h, rest)) = inr rest

  bind-IsQuiet :
      {A B : Type 0} (m : Step Wal A) (f : A → Step Wal B)
      → IsQuiet m
      → ((a : A) → IsQuiet (f a))
      → IsQuiet (m >>= f)
  bind-IsQuiet {A} {B} m f h k s = after (m s) (h s)
    where
      after : (r : Result StoreError A × Store Wal) → Quiet s r → Quiet s (continue_with f r.0 r.1)
      after (ok a, q) (inl (x, e, same)) = subst (λ (t : Store Wal). Quiet t (f a q)) same (k a q)
      after (ok a, q) (inr (x, e, rest)) = absurd (ground arith)
      after (err e, q) (inl (x, h, same)) = absurd (ground arith)
      after (err e, q) (inr (x, h, rest)) = inr (e, refl, rest)

  fail_if-IsQuiet : (b : Bool) (f : StoreFailure) → IsQuiet {Wal = Wal} (fail_if b f)
  fail_if-IsQuiet true f s = inr (fatal, refl, inr (failed_with s f))
  fail_if-IsQuiet false f s = inl (tt, refl, refl)

  refuse_if-IsQuiet : (b : Bool) (e : StoreError) → IsQuiet {Wal = Wal} (refuse_if b e)
  refuse_if-IsQuiet true e s = inr (e, refl, inl refl)
  refuse_if-IsQuiet false e s = inl (tt, refl, refl)

  answer-IsQuiet : {A : Type 0} (a : A) → IsQuiet {Wal = Wal} (answer a)
  answer-IsQuiet a s = inl (a, refl, refl)

  refuse-IsClean : {A : Type 0} (e : StoreError) → IsClean {Wal = Wal} (refuse {A = A} e)
  refuse-IsClean e s = inr (inl refl)

  fail-IsClean : {A : Type 0} (f : StoreFailure) → IsClean {Wal = Wal} (fail {A = A} f)
  fail-IsClean f s = inr (inr (failed_with s f))

  -- A step after a clean one that cannot fail.
  then-IsClean :
      {A B : Type 0} (m : Step Wal A) (f : A → Step Wal B)
      → IsClean m
      → ((a : A) (s : Store Wal) → (b : B) × ((f a s).0 ≡ ok b))
      → IsClean (m >>= f)
  then-IsClean {A} {B} m f h k s = after (m s) (h s)
    where
      after : (r : Result StoreError A × Store Wal) → Clean s r → Clean s (continue_with f r.0 r.1)
      after (ok a, q) c = inl (k a q)
      after (err e, q) (inl (x, h)) = absurd (ground arith)
      after (err e, q) (inr rest) = inr rest

module _ {Wal : Type 0} (next_sequence : Wal → ℕ) (append : Wal → Record → Bool × Wal) where
  append_record-IsClean : (entry : Entry) → IsClean (append_record next_sequence append entry)
  unfolding append_record
  append_record-IsClean entry s =
      after (append s.wal (record { sequence = next_sequence s.wal; entry = entry }))
    where
      after : (r : Bool × Wal) → Clean s (appended next_sequence append r s)
      after (true, w) = inl (tt, refl)
      after (false, w) = inr (inr (failed_with (record s { wal = w }) wal_failure))

  commit_job-IsClean :
      (scratch : Scheduler) (id : ℕ) (kind : JobRecord)
      → IsClean (commit_job next_sequence append scratch id kind)
  unfolding commit_job
  commit_job-IsClean scratch id kind = found (find scratch id)
    where
      found : (j : Option Job) → IsClean (commit_found next_sequence append scratch kind j)
      found none = fail-IsClean internal_failure
      found (some job) =
          then-IsClean (append_record next_sequence append (job_snapshot kind job)) _
            (append_record-IsClean (job_snapshot kind job)) (λ u s. (tt, refl))

  job_time-IsQuiet : (raw : ℤ) → IsQuiet (job_time next_sequence append raw)
  unfolding job_time
  job_time-IsQuiet raw s =
      bind-IsQuiet (fail_if (out_of_range s raw) clock_failure)
        (λ u.
          fail_if (ltz (time_of s raw) s.last_job_time_ms) clock_failure >> answer (time_of s raw))
        (fail_if-IsQuiet (out_of_range s raw) clock_failure)
        (λ u.
          bind-IsQuiet (fail_if (ltz (time_of s raw) s.last_job_time_ms) clock_failure)
            (λ v. answer (time_of s raw))
            (fail_if-IsQuiet (ltz (time_of s raw) s.last_job_time_ms) clock_failure)
            (λ v. answer-IsQuiet (time_of s raw)))
        s

  registered-IsClean :
      (r : Result WorkerRegistry.RegistryError (ℕ × WorkerRegistry.Registry))
      → IsClean (registered next_sequence append r)
  registered-IsClean (err e) = refuse-IsClean rejected
  registered-IsClean (ok (id, candidate)) =
      then-IsClean (append_record next_sequence append (worker_id_allocated id)) _
        (append_record-IsClean (worker_id_allocated id)) (λ u s. (id, refl))

  submitted-IsClean :
      (r : Result SchedulerError (ℕ × Scheduler)) → IsClean (submitted next_sequence append r)
  submitted-IsClean (err queue_error) = fail-IsClean internal_failure
  submitted-IsClean (err _) = refuse-IsClean rejected
  submitted-IsClean (ok (id, scratch)) =
      then-IsClean (commit_job next_sequence append scratch id job_created) _
        (commit_job-IsClean scratch id job_created) (λ u s. (id, refl))

  given-IsClean :
      (r : Result SchedulerError (Message × Scheduler)) → IsClean (given next_sequence append r)
  given-IsClean (err Scheduler.empty) = refuse-IsClean empty
  given-IsClean (err worker_busy) = refuse-IsClean rejected
  given-IsClean (err _) = fail-IsClean internal_failure
  given-IsClean (ok (candidate, scratch)) =
      then-IsClean
        (commit_job next_sequence append scratch (assigned_id next_sequence append candidate)
          job_assigned)
        _ (commit_job-IsClean scratch (assigned_id next_sequence append candidate) job_assigned)
        (λ u s. (candidate, refl))

  reported-IsClean :
      (id : ℕ) (r : Result SchedulerError Scheduler) → IsClean (reported next_sequence append id r)
  reported-IsClean id (err queue_error) = fail-IsClean internal_failure
  reported-IsClean id (err _) = refuse-IsClean rejected
  reported-IsClean id (ok scratch) = commit_job-IsClean scratch id (kind_in (find scratch id))

  lost-IsClean :
      (id : ℕ) (r : Result SchedulerError Scheduler) → IsClean (lost next_sequence append id r)
  lost-IsClean id (err e) = fail-IsClean internal_failure
  lost-IsClean id (ok scratch) = commit_job-IsClean scratch id (kind_in (find scratch id))

  timed-IsClean :
      {A : Type 0} (raw : ℤ) (f : ℤ → Step Wal A)
      → ((t : ℤ) → IsClean (f t))
      → IsClean (job_time next_sequence append raw >>= f)
  timed-IsClean raw f h =
      bind-IsClean (job_time next_sequence append raw) f (job_time-IsQuiet raw) h

  guarded-IsClean :
      {A : Type 0} (b : Bool) (e : StoreError) (m : Step Wal A)
      → IsClean m
      → IsClean (refuse_if b e >> m)
  guarded-IsClean b e m h = bind-IsClean (refuse_if b e) (λ u. m) (refuse_if-IsQuiet b e) (λ u. h)

  pub register-IsClean : (fd now : ℤ) → IsClean (register next_sequence append fd now)
  unfolding register
  register-IsClean fd now s =
      guarded-IsClean (not (usable s)) fatal _
        (bind-IsClean (fail_if (is_neg now) clock_failure) _
          (fail_if-IsQuiet (is_neg now) clock_failure)
          (λ v. registered-IsClean (WorkerRegistry.register s.workers fd now)))
        s

  pub submit-IsClean : (p : JobSubmit) (now : ℤ) → IsClean (submit next_sequence append p now)
  unfolding submit
  submit-IsClean p now s =
      guarded-IsClean (not (usable s)) fatal _
        (timed-IsClean now _ (λ t. submitted-IsClean (Scheduler.submit s.jobs p t))) s

  pub assign-IsClean : (w : ℕ) (now : ℤ) → IsClean (assign next_sequence append w now)
  unfolding assign
  assign-IsClean w now s =
      guarded-IsClean (not (usable s)) fatal _
        (guarded-IsClean (not (is_live (WorkerRegistry.find s.workers w))) rejected _
          (timed-IsClean now _ (λ t. given-IsClean (Scheduler.assign s.jobs w t))))
        s

  pub report-IsClean :
      (w : ℕ) (m : Message) (now : ℤ) → IsClean (report next_sequence append w m now)
  unfolding report
  report-IsClean w m now s =
      guarded-IsClean (not (usable s)) fatal _
        (guarded-IsClean (not (is_live (WorkerRegistry.find s.workers w))) rejected _
          (by_job (active s.jobs w)))
        s
    where
      by_job : (j : Option Job) → IsClean (report_of next_sequence append j w m now)
      by_job none = refuse-IsClean rejected
      by_job (some job) =
          λ q. timed-IsClean now _ (λ t. reported-IsClean job.id (Scheduler.report q.jobs w m t)) q

  pub commit_worker_loss-IsClean :
      (w : ℕ) (now : ℤ) → IsClean (commit_worker_loss next_sequence append w now)
  unfolding commit_worker_loss
  commit_worker_loss-IsClean w now s = by_job (active s.jobs w) s
    where
      by_job : (j : Option Job) → IsClean (loss_of next_sequence append j w now)
      by_job none = refuse-IsClean empty
      by_job (some job) =
          λ q. timed-IsClean now _ (λ t. lost-IsClean job.id (Scheduler.worker_lost q.jobs w t)) q

  pub worker_lost-IsClean : (w : ℕ) (now : ℤ) → IsClean (worker_lost next_sequence append w now)
  unfolding worker_lost
  worker_lost-IsClean w now s =
      guarded-IsClean (not (usable s)) fatal _ (commit_worker_loss-IsClean w now) s
