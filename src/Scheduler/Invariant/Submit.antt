-- ===== src/Scheduler/Invariant/Submit.antt =====
-- Submissions.
use flatline_c.Prelude.{
  ℕ, ◌^◌, ◌≤◌, ◌<◌, ◌≡◌, ◌≢◌, inl, inr, refl, sym, ◌∙◌, ap, subst, Bool-cases, false, List, [], ◌∷◌,
  ◌++◌, arith, ◌==◌, length, All, All-append, All-map, length-append,
}
use flatline_c.Prelude.Int.{ℤ, is_neg}
use flatline_c.Prelude.Result.{Result, ok, err, ok_inj, Result-cases}
use flatline_c.Job.{Job, Bytes, queued, job_init}
use flatline_c.Job.Invariant
use flatline_c.Job.Invariant.{job_init-IsValid}
use flatline_c.JobQueue.{JobQueue, push, is_queued}
use flatline_c.JobQueue.Refine.{IsReady, contents}
use flatline_c.Protocol.Message.{JobSubmit}
use flatline_c.Scheduler.{Scheduler, queue_error, store_capacity, held, next_id, submit}
use flatline_c.Scheduler.Lists.{
  count, queued_ids, count-append, queued_ids-append, length-queued_ids-le, IsUnique-append,
  AreApart,
}
use flatline_c.Scheduler.Invariant.{IsValid, bound}
use flatline_c.Scheduler.Invariant.Outcome.{push_accepts}

abbrev init_of : Scheduler → JobSubmit → ℤ → Result flatline_c.Job.JobError Job
init_of s p t = job_init s.next_job_id p.task_type (held p.arguments) p.max_retries t

pub submit_effect :
    (s : Scheduler) (p : JobSubmit) (t : ℤ) {id : ℕ} {q : Scheduler}
    → submit s p t ≡ ok (id, q)
    → (job : Job) × (pending : JobQueue) × (init_of s p t ≡ ok job)
      × (push s.pending job ≡ ok pending)
      × (id ≡ job.id)
      × (q ≡ record { jobs = s.jobs ++ job ∷ []; next_job_id = next_id job.id; pending = pending })
      × (length s.jobs ≢ store_capacity)
      × (s.next_job_id ≢ 0)
unfolding submit
submit_effect s p t h = elim (Result-cases (init_of s p t)) [
  | inl (job, e) ↦ elim (Result-cases (push s.pending job)) [
    | inl (pending, f) ↦
        (job, pending, e, f, ground arith, ground arith, ground arith, ground arith)
    | inr (x, f) ↦ absurd (ground arith)
  ]
  | inr (x, e) ↦ absurd (ground arith)
]

pub job_init_fields :
    (id kind : ℕ) (b : Bytes) (retries : ℕ) (t : ℤ) {j : Job}
    → job_init id kind b retries t ≡ ok j
    → (j.id ≡ id) × (j.state ≡ queued) × (j.worker_id ≡ 0) × (0 < id) × (is_neg t ≡ false)
unfolding job_init
job_init_fields id kind b retries t h = ground arith

newcomer-AreApart :
    (js : List Job) (n : ℕ) (k : Job)
    → k.state ≡ queued
    → n ≤ k.id
    → All (λ j. j.id < n) js
    → All (AreApart k) js
newcomer-AreApart [] n k e h a = tt
newcomer-AreApart (j ∷ js) n k e h a = (ground arith, newcomer-AreApart js n k e h a.1)

count_absent :
    (js : List Job) (n id : ℕ) → n ≤ id → All (λ j. j.id < n) js → count id (queued_ids js) ≡ 0
unfolding count queued_ids
count_absent [] n id h a = refl
count_absent (j ∷ js) n id h a = elim (Bool-cases (is_queued j.state)) [
  | inl q ↦ rw q (ground (arith, count_absent js n id h a.1))
  | inr q ↦ rw q (count_absent js n id h a.1)
]

-- A new job finds its place in the queue: the queue never refuses it.
pub push_new :
    (s : Scheduler) (p : JobSubmit) (t : ℤ) (job : Job)
    → IsValid s
    → init_of s p t ≡ ok job
    → length s.jobs ≢ store_capacity
    → p.max_retries < 2 ^ 32
    → (q : JobQueue) × (push s.pending job ≡ ok q)
      × IsReady q
      × (contents q ≡ contents s.pending ++ job.id ∷ [])
push_new s p t job v e room word =
    let (same, waits, free, positive, _) =
      job_init_fields s.next_job_id p.task_type _ p.max_retries t e in
    let absent : count job.id (contents s.pending) ≡ 0 = ground (
      arith,
      v.waiting job.id,
      count_absent s.jobs (bound s.next_job_id) job.id (ground arith) v.issued,
    ) in
    push_accepts s.pending job v.ready (ground arith) waits free absent
      (omega (arith, v.room, v.waiting_length, length-queued_ids-le s.jobs))

append-IsValid :
    (s : Scheduler) (job : Job) (q : JobQueue)
    → IsValid s
    → length s.jobs ≢ store_capacity
    → s.next_job_id ≢ 0
    → job.id ≡ s.next_job_id
    → job.state ≡ queued
    → Invariant.IsValid job
    → IsReady q
    → contents q ≡ contents s.pending ++ job.id ∷ []
    → IsValid (record { jobs = s.jobs ++ job ∷ []; next_job_id = next_id job.id; pending = q })
append-IsValid s job q v room left same waits sound ready holds =
    let listed = queued_ids-append s.jobs job (ap is_queued waits) in
    record {
      ready = ready;
      room = ground (arith, v.room, length-append s.jobs (job ∷ []));
      word = ground (arith, v.word);
      records = All-append Invariant.IsValid s.jobs (job ∷ []) v.records (sound, tt);
      issued =
          All-append (λ j. j.id < bound (next_id job.id)) s.jobs (job ∷ [])
            (All-map s.jobs (λ j h. ground (arith, v.word)) v.issued) (ground (arith, v.word), tt);
      unique =
          IsUnique-append s.jobs job
            (newcomer-AreApart s.jobs (bound s.next_job_id) job waits (ground arith) v.issued)
            v.unique;
      waiting = λ id.
          rw (holds, listed)
            (omega (
              arith,
              v.waiting id,
              count-append id (contents s.pending) (job.id ∷ []),
              count-append id (queued_ids s.jobs) (job.id ∷ []),
            ));
      waiting_length =
          rw (holds, listed)
            (omega (
              arith,
              v.waiting_length,
              length-append (contents s.pending) (job.id ∷ []),
              length-append (queued_ids s.jobs) (job.id ∷ []),
            ));
    }

-- A submission keeps the store valid.
pub submit-IsValid :
    (s : Scheduler) (p : JobSubmit) (t : ℤ) (id : ℕ) (q : Scheduler)
    → submit s p t ≡ ok (id, q)
    → p.max_retries < 2 ^ 32
    → IsValid s
    → IsValid q
submit-IsValid s p t id q h word v =
    let (job, pending, made, pushed, given, result, room, left) = submit_effect s p t h in
    let (same, waits, free, positive, _) =
      job_init_fields s.next_job_id p.task_type _ p.max_retries t made in
    let (pending', pushed', ready, holds) = push_new s p t job v made room word in
    let same_queue : pending' ≡ pending = ok_inj (sym pushed' ∙ pushed) in
    subst IsValid (sym result) (
      append-IsValid s job pending v room left same waits
        (job_init-IsValid s.next_job_id p.task_type (held p.arguments) p.max_retries t made word)
        (subst IsReady same_queue ready) (ap contents (sym same_queue) ∙ holds))

-- A valid store never answers a submission with an error of its queue: what is refused is a time
-- below 0, a full store, an exhausted allocator or a malformed job.
pub submit_queue_ready :
    (s : Scheduler) (p : JobSubmit) (t : ℤ)
    → IsValid s
    → p.max_retries < 2 ^ 32
    → submit s p t ≢ err queue_error
unfolding submit
submit_queue_ready s p t v word h = elim (Result-cases (init_of s p t)) [
  | inl (job, e) ↦ elim (Bool-cases (length s.jobs == store_capacity)) [
    | inl full ↦ ground arith
    | inr room ↦ let (q, pushed, _, _) = push_new s p t job v e (ground arith) word in ground arith
  ]
  | inr (x, e) ↦ ground arith
]
