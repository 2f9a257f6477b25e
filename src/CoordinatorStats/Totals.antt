-- ===== src/CoordinatorStats/Totals.antt =====
-- What the totals of a valid job store are.
use native.Mathlib.Nat.{mul-add, mul-add-div, div-add-mod}
use flatline_c.Prelude.{
  ℕ, ◌+◌, ◌*◌, ◌/◌, ◌%◌, ◌<◌, ◌≡◌, inl, inr, refl, sym, ap, ◌∙◌, Bool-cases, true, false, not, ◌||◌,
  List, [], ◌∷◌, ltb, ◌==◌, if◌then◌else◌, length, All, arith,
}
use flatline_c.Prelude.Int.{pos_part, ltz, is_neg, ◌≤ℤ◌, ◌-ℤ◌}
use flatline_c.Prelude.Result.{ok}
use flatline_c.Job.{Job, JobState, queued, assigned, running, done, failed}
use flatline_c.Job.Invariant
use flatline_c.Job.Invariant.{InState}
use flatline_c.Protocol.Message.{StatsPayload}
use flatline_c.Protocol.Frame.{jobs_max_entries}
use flatline_c.Scheduler.Invariant.{IsValid}
use flatline_c.CoordinatorStore.State.{Store}
use flatline_c.CoordinatorStore.{has_failed}
use flatline_c.CoordinatorStats.{
  no_stats, counted, ended_attempts, totals, tally, is_done, latency, add_latencies, with_average,
  collect_jobs,
}

-- A description of the totals that does not use the loops: jobs in a state, sums of attempts and of
-- retries, and the times between creation and the end of the jobs that are DONE.
abbrev pub one_if : JobState → JobState → ℕ
one_if queued queued = 1
one_if assigned assigned = 1
one_if running running = 1
one_if done done = 1
one_if failed failed = 1
one_if _ _ = 0

unfoldable pub in_state : JobState → List Job → ℕ
in_state st [] = 0
in_state st (j ∷ jobs) = one_if st j.state + in_state st jobs

unfoldable pub all_attempts : List Job → ℕ
all_attempts [] = 0
all_attempts (j ∷ jobs) = j.attempt + all_attempts jobs

unfoldable pub all_retries : List Job → ℕ
all_retries [] = 0
all_retries (j ∷ jobs) = j.retry_count + all_retries jobs

abbrev pub time_to_end : JobState → Job → ℕ
time_to_end done j = pos_part (j.finished_at_ms -ℤ j.created_at_ms)
time_to_end _ j = 0

unfoldable pub total_latency : List Job → ℕ
total_latency [] = 0
total_latency (j ∷ jobs) = time_to_end j.state j + total_latency jobs

abbrev pub completed : List Job → ℕ
completed jobs = in_state done jobs

-- The counts that a list of jobs adds.
pub record Adds (jobs : List Job) (s t : StatsPayload) : Type 0 where
  pub submitted : t.jobs_submitted_total ≡ s.jobs_submitted_total
  pub queued_jobs : t.jobs_queued ≡ s.jobs_queued + in_state queued jobs
  pub assigned_jobs : t.jobs_assigned ≡ s.jobs_assigned + in_state assigned jobs
  pub running_jobs : t.jobs_running ≡ s.jobs_running + in_state running jobs
  pub done_jobs : t.jobs_completed_total ≡ s.jobs_completed_total + in_state done jobs
  pub failed_jobs : t.jobs_failed_total ≡ s.jobs_failed_total + in_state failed jobs
  pub attempts : t.job_attempts_total ≡ s.job_attempts_total + all_attempts jobs
  pub retries : t.job_retries_total ≡ s.job_retries_total + all_retries jobs

attempts_counted :
    (j : Job) (st : JobState) → InState j st → j.attempt ≡ j.retry_count + ended_attempts st
attempts_counted j queued v = v.counted ∙ omega arith
attempts_counted j assigned v = v.0.counted
attempts_counted j running v = v.0.counted
attempts_counted j done v = v.0.counted
attempts_counted j failed v = v.0.counted

-- The counts that one job adds.
pub record AddsOne (j : Job) (st : JobState) (s t : StatsPayload) : Type 0 where
  pub submitted : t.jobs_submitted_total ≡ s.jobs_submitted_total
  pub queued_jobs : t.jobs_queued ≡ s.jobs_queued + one_if queued st
  pub assigned_jobs : t.jobs_assigned ≡ s.jobs_assigned + one_if assigned st
  pub running_jobs : t.jobs_running ≡ s.jobs_running + one_if running st
  pub done_jobs : t.jobs_completed_total ≡ s.jobs_completed_total + one_if done st
  pub failed_jobs : t.jobs_failed_total ≡ s.jobs_failed_total + one_if failed st
  pub attempts : t.job_attempts_total ≡ s.job_attempts_total + j.attempt
  pub retries : t.job_retries_total ≡ s.job_retries_total + j.retry_count

counted-AddsOne :
    (j : Job) (st : JobState) (s : StatsPayload) → AddsOne j st s (totals j (counted st s))
counted-AddsOne j queued s = ground arith
counted-AddsOne j assigned s = ground arith
counted-AddsOne j running s = ground arith
counted-AddsOne j done s = ground arith
counted-AddsOne j failed s = ground arith

tally-Adds :
    (jobs : List Job) (s : StatsPayload)
    → All Invariant.IsValid jobs
    → (t : StatsPayload) × (tally jobs s ≡ ok t) × Adds jobs s t
unfolding tally in_state all_attempts all_retries
tally-Adds [] s v = (
  s,
  refl,
  record {
    submitted = refl;
    queued_jobs = omega arith;
    assigned_jobs = omega arith;
    running_jobs = omega arith;
    done_jobs = omega arith;
    failed_jobs = omega arith;
    attempts = omega arith;
    retries = omega arith;
  },
)
tally-Adds (j ∷ jobs) s (v, vs) =
    let (t, e, a) = tally-Adds jobs (totals j (counted j.state s)) vs in
    let one = counted-AddsOne j j.state s in
    let agree = attempts_counted j j.state v.shape in
    let within = v.retries in
    let passes : (ltb j.max_retries j.retry_count
          || not (j.attempt == j.retry_count + ended_attempts j.state))
        ≡ false =
      ground (arith, agree, within) in
    (
      t,
      rw passes e,
      record {
        submitted = a.submitted ∙ one.submitted;
        queued_jobs = a.queued_jobs ∙ omega (arith, one.queued_jobs);
        assigned_jobs = a.assigned_jobs ∙ omega (arith, one.assigned_jobs);
        running_jobs = a.running_jobs ∙ omega (arith, one.running_jobs);
        done_jobs = a.done_jobs ∙ omega (arith, one.done_jobs);
        failed_jobs = a.failed_jobs ∙ omega (arith, one.failed_jobs);
        attempts = a.attempts ∙ omega (arith, one.attempts);
        retries = a.retries ∙ omega (arith, one.retries);
      },
    )

-- The test of the second loop and the description agree on what is DONE.
done_time :
    (j : Job) (st : JobState)
    → is_done st ≡ true
    → (time_to_end st j ≡ latency j) × (one_if done st ≡ 1)
done_time j done h = (refl, refl)
done_time j queued h = cc
done_time j assigned h = cc
done_time j running h = cc
done_time j failed h = cc

other_time :
    (j : Job) (st : JobState) → is_done st ≡ false → (time_to_end st j ≡ 0) × (one_if done st ≡ 0)
other_time j done h = cc
other_time j queued h = (refl, refl)
other_time j assigned h = (refl, refl)
other_time j running h = (refl, refl)
other_time j failed h = (refl, refl)

done_times :
    (j : Job) (st : JobState)
    → InState j st
    → is_done st ≡ true
    → j.created_at_ms ≤ℤ j.finished_at_ms
done_times j queued v h = cc
done_times j assigned v h = cc
done_times j running v h = cc
done_times j failed v h = cc
done_times j done v h = omega (arith, v.0.taken, v.1, v.2)

-- Quotients and remainders are added apart.
pub record Means (d : ℕ) (jobs : List Job) (average remainder average' remainder' : ℕ)
    : Type 0 where
  pub whole : d * average' + remainder' ≡ d * average + remainder + total_latency jobs

split_latency : (d q r l : ℕ) → d * (q + l / d) + (r + l % d) ≡ d * q + r + l
split_latency d q r l =
    ap (λ x. x + (r + l % d)) (mul-add d q (l / d)) ∙ omega (arith, div-add-mod l d)

add_latencies-Means :
    (d : ℕ) (jobs : List Job) (q r : ℕ)
    → All Invariant.IsValid jobs
    → (q' : ℕ) × (r' : ℕ) × (add_latencies d jobs q r ≡ ok (q', r')) × Means d jobs q r q' r'
unfolding add_latencies total_latency
add_latencies-Means d [] q r v = (q, r, refl, record { whole = omega arith })
add_latencies-Means d (j ∷ jobs) q r (v, vs) = elim (Bool-cases (is_done j.state)) [
  | inr other ↦
      let (q', r', e, m) = add_latencies-Means d jobs q r vs in
      (
        q',
        r',
        rw other e,
        record { whole = m.whole ∙ omega (arith, (other_time j j.state other).0) },
      )
  | inl finished ↦
      let l = latency j in
      let (q', r', e, m) = add_latencies-Means d jobs (q + l / d) (r + l % d) vs in
      let started : is_neg j.created_at_ms ≡ false = ground (arith, v.clock) in
      let later : ltz j.finished_at_ms j.created_at_ms ≡ false =
        ground (arith, done_times j j.state v.shape finished) in
      (
        q',
        r',
        rw (finished, started, later) e,
        record {
          whole =
              m.whole
              ∙ ap (λ x. x + total_latency jobs) (split_latency d q r l)
              ∙ omega (arith, (done_time j j.state finished).0);
        },
      )
]

none_completed :
    (d : ℕ) (jobs : List Job) (q r : ℕ) → completed jobs ≡ 0 → add_latencies d jobs q r ≡ ok (q, r)
unfolding add_latencies in_state
none_completed d [] q r h = refl
none_completed d (j ∷ jobs) q r h = elim (Bool-cases (is_done j.state)) [
  | inr other ↦ rw other (none_completed d jobs q r (omega (arith, h)))
  | inl finished ↦ absurd (omega (arith, h, (done_time j j.state finished).1))
]

-- The mean latency of the completed jobs, rounded down.
abbrev pub mean_latency : List Job → ℕ
mean_latency jobs = if completed jobs == 0 then 0 else total_latency jobs / completed jobs

abbrev pub in_all_states : StatsPayload → ℕ
in_all_states s =
    s.jobs_queued + s.jobs_assigned + s.jobs_running + s.jobs_completed_total + s.jobs_failed_total

pub record IsTotal (jobs : List Job) (t : StatsPayload) : Type 0 where
  pub submitted : t.jobs_submitted_total ≡ length jobs
  pub queued_jobs : t.jobs_queued ≡ in_state queued jobs
  pub assigned_jobs : t.jobs_assigned ≡ in_state assigned jobs
  pub running_jobs : t.jobs_running ≡ in_state running jobs
  pub done_jobs : t.jobs_completed_total ≡ in_state done jobs
  pub failed_jobs : t.jobs_failed_total ≡ in_state failed jobs
  pub all : in_all_states t ≡ length jobs
  pub attempts : t.job_attempts_total ≡ all_attempts jobs
  pub retries : t.job_retries_total ≡ all_retries jobs
  pub ended : all_attempts jobs + in_state queued jobs ≡ all_retries jobs + length jobs
  pub mean : t.completed_latency_avg_ms ≡ mean_latency jobs

one_state :
    (st : JobState)
    → one_if queued st + one_if assigned st + one_if running st + one_if done st + one_if failed st
      ≡ 1
one_state queued = refl
one_state assigned = refl
one_state running = refl
one_state done = refl
one_state failed = refl

-- Every job is in one state.
states_cover :
    (jobs : List Job)
    → in_state queued jobs
        + in_state assigned jobs
        + in_state running jobs
        + in_state done jobs
        + in_state failed jobs
      ≡ length jobs
unfolding in_state
states_cover [] = refl
states_cover (j ∷ jobs) = omega (arith, one_state j.state, states_cover jobs)

ended_state : (st : JobState) → ended_attempts st + one_if queued st ≡ 1
ended_state queued = refl
ended_state assigned = refl
ended_state running = refl
ended_state done = refl
ended_state failed = refl

-- A job that waits has as many attempts as retries, any other one more.
attempts_cover :
    (jobs : List Job)
    → All Invariant.IsValid jobs
    → all_attempts jobs + in_state queued jobs ≡ all_retries jobs + length jobs
unfolding in_state all_attempts all_retries
attempts_cover [] v = refl
attempts_cover (j ∷ jobs) (v, vs) =
    omega (arith, ended_state j.state, attempts_counted j j.state v.shape, attempts_cover jobs vs)

average-mean :
    (jobs : List Job) (s : StatsPayload)
    → All Invariant.IsValid jobs
    → s.jobs_completed_total ≡ completed jobs
    → (q : ℕ) × (r : ℕ) × (add_latencies s.jobs_completed_total jobs 0 0 ≡ ok (q, r))
      × ((with_average s q r).completed_latency_avg_ms ≡ mean_latency jobs)
average-mean jobs s v e = elim (Bool-cases (completed jobs == 0)) [
  | inl no_jobs ↦
      let zero_jobs : completed jobs ≡ 0 = ground (arith, no_jobs) in
      let test : (s.jobs_completed_total == 0) ≡ true = ground (arith, e, no_jobs) in
      (0, 0, none_completed s.jobs_completed_total jobs 0 0 zero_jobs, rw (test, no_jobs) refl)
  | inr some_jobs ↦
      let d = s.jobs_completed_total in
      let (q, r, answered, m) = add_latencies-Means d jobs 0 0 v in
      let positive : 0 < d = ground (arith, e, some_jobs) in
      let test : (d == 0) ≡ false = ground (arith, positive) in
      let zero_product : d * 0 ≡ 0 = omega arith in
      let whole : d * q + r ≡ total_latency jobs = m.whole ∙ omega (arith, zero_product) in
      (
        q,
        r,
        answered,
        rw (test, some_jobs)
            (sym (mul-add-div positive q r)
              ∙ ap (λ x. x / d) whole
              ∙ ap (λ x. total_latency jobs / x) e),
      )
]

-- The totals of an open store that has not failed, with a valid job store, are answered. For
-- each of the five states the counter is the number of jobs in this state, and together they
-- count every job once; the totals of attempts and retries are the sums over the jobs, and
-- differ by the jobs that are not QUEUED. The average is the exact mean, rounded down, of the
-- times that the DONE jobs took from creation to end, and 0 when there is none, although it is
-- computed from quotients and remainders.
pub collect_jobs-IsTotal :
    {Wal : Type 0} (st : Store Wal)
    → st.opened ≡ true
    → has_failed st.failure ≡ false
    → IsValid st.jobs
    → (t : StatsPayload) × (collect_jobs st ≡ ok t) × IsTotal st.jobs.jobs t
unfolding collect_jobs
collect_jobs-IsTotal st opened sound v =
    let jobs = st.jobs.jobs in
    let room = v.room in
    let fits : ltb jobs_max_entries (length jobs) ≡ false = ground (arith, room) in
    let (s, e, a) =
      tally-Adds jobs (record no_stats { jobs_submitted_total = length jobs }) v.records in
    let (q, r, f, mean) = average-mean jobs s v.records (a.done_jobs ∙ omega arith) in
    (
      with_average s q r,
      rw (opened, sound, fits, e, f) refl,
      record {
        submitted = a.submitted;
        queued_jobs = a.queued_jobs ∙ omega arith;
        assigned_jobs = a.assigned_jobs ∙ omega arith;
        running_jobs = a.running_jobs ∙ omega arith;
        done_jobs = a.done_jobs ∙ omega arith;
        failed_jobs = a.failed_jobs ∙ omega arith;
        all = omega (
          arith,
          a.queued_jobs,
          a.assigned_jobs,
          a.running_jobs,
          a.done_jobs,
          a.failed_jobs,
          states_cover jobs,
        );
        attempts = a.attempts ∙ omega arith;
        retries = a.retries ∙ omega arith;
        ended = attempts_cover jobs v.records;
        mean = mean;
      },
    )
