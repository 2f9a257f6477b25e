-- ===== src/Scheduler/Invariant/Assign.antt =====
-- Assignments.
use flatline_c.Prelude.{
  ℕ, ◌+◌, ◌%◌, ◌^◌, ◌<◌, ◌≡◌, inl, inr, refl, sym, ◌∙◌, ap, subst, Bool-cases, Option-cases, false,
  none, some, List, [], ◌∷◌, ◌&&◌, arith, ◌==◌, get_elem?, get_elem?-set, set, All, All-get,
}
use flatline_c.Prelude.Int.{ℤ, neg_part, ◌≤ℤ◌}
use flatline_c.Prelude.Result.{ok, Result-cases}
use flatline_c.Job.{Job, queued, assigned, no_failure, job_assign}
use flatline_c.Job.Invariant
use flatline_c.Job.Invariant.{InState, job_assign-IsValid}
use flatline_c.JobQueue.{JobQueue, peek, pop, is_queued}
use flatline_c.JobQueue.Refine.{
  IsReady, contents, peek_spec, pop_spec, peek_refines, pop_refines, pop-IsReady,
}
use flatline_c.Protocol.Message.{Message}
use flatline_c.Scheduler.{Scheduler, is_active, find_slot, first_active, active, assignment, assign}
use flatline_c.Scheduler.Lists.{
  count, queued_ids, count-cons_if, IsUnique, Follows, first_active-none, count_apart,
  find_slot_hit,
}
use flatline_c.Scheduler.Invariant.{IsValid}
use flatline_c.Scheduler.Invariant.Outcome.{set-IsValid}

abbrev IsIdle : ℕ → Job → Type 0
IsIdle w j = j.worker_id == w && is_active j.state ≡ false

idle-Follows :
    (js : List Job) (w : ℕ) (j k : Job)
    → k.id ≡ j.id
    → k.worker_id ≡ w
    → All (IsIdle w) js
    → All (Follows j k) js
idle-Follows [] w j k e f a = tt
idle-Follows (u ∷ js) w j k e f a = (λ h. ground arith, idle-Follows js w j k e f a.1)

-- An ID that waits is that of a queued record, which stands in its slot.
queued_record :
    (js : List Job) (id : ℕ)
    → 0 < count id (queued_ids js)
    → IsUnique js
    → (j : Job) × (get_elem? js (find_slot js id) ≡ some j) × (j.state ≡ queued) × (j.id ≡ id)
unfolding count queued_ids find_slot
queued_record [] id h u = absurd (omega arith)
queued_record (x ∷ js) id h u = elim (Bool-cases (x.id == id)) [
  | inl hit ↦ rw hit (
    x,
    refl,
    ground (arith, count_apart x js u.0, count-cons_if (is_queued x.state) id x.id (queued_ids js)),
    ground arith,
  )
  | inr miss ↦ rw miss (
      queued_record js id
        (ground (arith, count-cons_if (is_queued x.state) id x.id (queued_ids js))) u.1)
]

pub pop_effect :
    (q : JobQueue) (id : ℕ) (rest : List ℕ)
    → IsReady q
    → contents q ≡ id ∷ rest
    → (q' : JobQueue) × (peek q ≡ ok id) × (pop q ≡ ok (id, q')) × IsReady q' × (contents q' ≡ rest)
unfolding peek_spec pop_spec
pop_effect q id rest r e =
    let peeked = peek_refines q r in
    let popped = pop_refines q r in
    elim (Result-cases (pop q)) [
      | inl ((id', q'), p) ↦
          (q', ground arith, ground arith, pop-IsReady q q' id' p r, ground arith)
      | inr (x, p) ↦ absurd (ground arith)
    ]

pub job_assign_fields :
    (j : Job) (w : ℕ) (t : ℤ) {k : Job}
    → job_assign j w t ≡ ok k
    → (j.state ≡ queued)
      × (k.id ≡ j.id)
      × (k.state ≡ assigned)
      × (k.worker_id ≡ w)
      × (k.attempt ≡ (j.attempt + 1) % 2 ^ 64)
      × (k.task_type ≡ j.task_type)
      × (k.arguments ≡ j.arguments)
unfolding job_assign
job_assign_fields j w t h = ground arith

job_assign_accepts :
    (j : Job) (w : ℕ) (t : ℤ)
    → j.state ≡ queued
    → 0 < w
    → neg_part t ≡ 0
    → j.updated_at_ms ≤ℤ t
    → (k : Job) × (job_assign j w t ≡ ok k)
unfolding job_assign
job_assign_accepts j w t e positive clock later = elim (Result-cases (job_assign j w t)) [
  | inl (k, h) ↦ (k, h)
  | inr (x, h) ↦ absurd (ground arith)
]

assigned-IsValid :
    (s : Scheduler) (w : ℕ) (t : ℤ) (id : ℕ) (rest : List ℕ) (j k : Job) (q : JobQueue)
    → IsValid s
    → All (IsIdle w) s.jobs
    → contents s.pending ≡ id ∷ rest
    → IsReady q
    → contents q ≡ rest
    → get_elem? s.jobs (find_slot s.jobs id) ≡ some j
    → j.id ≡ id
    → job_assign j w t ≡ ok k
    → IsValid (record s { jobs = set s.jobs (find_slot s.jobs id) k; pending = q })
unfolding count
assigned-IsValid s w t id rest j k q v idle oldest r left there same h =
    let (waits, same_id, taken, owner, _, _, _) = job_assign_fields j w t h in
    set-IsValid s (find_slot s.jobs id) j k q v there same_id
      (job_assign-IsValid j w t h
        (All-get Invariant.IsValid s.jobs (find_slot s.jobs id) there v.records))
      (idle-Follows s.jobs w j k same_id owner idle) r (λ x. ground arith) (ground arith)

-- The parts of an assignment that succeeds.
pub assign_effect :
    (s : Scheduler) (w : ℕ) (t : ℤ) {m : Message} {q : Scheduler}
    → assign s w t ≡ ok (m, q)
    → (id removed : ℕ) × (j k : Job) × (pending : JobQueue) × (active s w ≡ none)
      × (0 < w)
      × (peek s.pending ≡ ok id)
      × (get_elem? s.jobs (find_slot s.jobs id) ≡ some j)
      × (job_assign j w t ≡ ok k)
      × (pop s.pending ≡ ok (removed, pending))
      × (m ≡ assignment k w)
      × (q ≡ record s { jobs = set s.jobs (find_slot s.jobs id) k; pending = pending })
unfolding assign
assign_effect s w t h = elim (Result-cases (peek s.pending)) [
  | inr (x, e) ↦ absurd (ground arith)
  | inl (id, e) ↦ elim (Option-cases (get_elem? s.jobs (find_slot s.jobs id))) [
    | inl f ↦ absurd (ground arith)
    | inr (j, f) ↦ elim (Result-cases (job_assign j w t)) [
      | inr (x, g) ↦ absurd (ground arith)
      | inl (k, g) ↦ elim (Result-cases (pop s.pending)) [
        | inr (x, p) ↦ absurd (ground arith)
        | inl ((removed, pending), p) ↦ (
          id,
          removed,
          j,
          k,
          pending,
          ground arith,
          ground arith,
          e,
          f,
          g,
          p,
          ground arith,
          ground arith,
        )
      ]
    ]
  ]
]

peek_oldest :
    (q : JobQueue) (id : ℕ)
    → IsReady q
    → peek q ≡ ok id
    → (rest : List ℕ) × (contents q ≡ id ∷ rest)
unfolding peek_spec
peek_oldest q id r e = oldest (contents q) (sym (peek_refines q r) ∙ e)
  where
    oldest : (xs : List ℕ) → peek_spec xs ≡ ok id → (rest : List ℕ) × (xs ≡ id ∷ rest)
    oldest [] p = absurd (ground arith)
    oldest (x ∷ xs) p = (xs, ground arith)

active-none : (s : Scheduler) (w : ℕ) → 0 < w → active s w ≡ none → first_active s.jobs w ≡ none
unfolding active
active-none s w h e = ground arith

-- An assignment keeps the store valid.
pub assign-IsValid :
    (s : Scheduler) (w : ℕ) (t : ℤ) (m : Message) (q : Scheduler)
    → assign s w t ≡ ok (m, q)
    → IsValid s
    → IsValid q
assign-IsValid s w t m q h v =
    let (id, removed, j, k, pending, idle, positive, peeked, there, made, popped, _, result) =
      assign_effect s w t h in
    let (rest, oldest) = peek_oldest s.pending id v.ready peeked in
    let (pending', _, popped', r, left) = pop_effect s.pending id rest v.ready oldest in
    let same : pending' ≡ pending = ground (arith, popped, popped') in
    subst IsValid (sym result) (
      assigned-IsValid s w t id rest j k pending v
        (first_active-none s.jobs w (active-none s w positive idle)) oldest (subst IsReady same r)
        (ap contents (sym same) ∙ left) there (find_slot_hit s.jobs id j there) made)

-- A job in the hands of a worker: a new attempt, and nothing else of it changed.
abbrev pub handed : Job → ℕ → ℤ → Job
handed j w t = record j {
  state = assigned;
  worker_id = w;
  attempt = j.attempt + 1;
  assigned_at_ms = t;
  updated_at_ms = t;
  failure = no_failure;
}

-- The message that hands it over.
abbrev pub offer : Job → ℕ → Message
offer j w = Message.job_assign (record {
  identity = record { job_id = j.id; worker_id = w; attempt = j.attempt + 1 };
  task_type = j.task_type;
  arguments = j.arguments;
})

-- A job that waits has made as many attempts as retries, so that its next attempt does not wrap.
job_assign-handed :
    (j : Job) (w : ℕ) (t : ℤ) {k : Job}
    → Invariant.IsValid j
    → j.state ≡ queued
    → job_assign j w t ≡ ok k
    → k ≡ handed j w t
unfolding job_assign
job_assign-handed j w t {k = k} v waits h =
    let shape : InState j queued = subst (InState j) waits v.shape in
    let exact : (j.attempt + 1) % 2 ^ 64 ≡ j.attempt + 1 =
      omega (arith, shape.counted, v.retries, v.word) in
    let made : k ≡ record (handed j w t) { attempt = (j.attempt + 1) % 2 ^ 64 } = ground arith in
    made ∙ ap (λ n. record (handed j w t) { attempt = n }) exact

-- A worker that is idle gets the oldest pending job at once: the message names this job, the worker,
-- the attempt after the last one, and the task and the arguments that the record holds. The record is
-- ASSIGNED to the worker with this attempt and is otherwise as it was, all other records stay, and
-- the other pending jobs keep their order. No error of the store or of the queue can come instead. The
-- store is valid, and the clock is not behind a record.
pub assign_oldest :
    (s : Scheduler) (w : ℕ) (t : ℤ) (id : ℕ) (rest : List ℕ)
    → IsValid s
    → contents s.pending ≡ id ∷ rest
    → 0 < w
    → active s w ≡ none
    → neg_part t ≡ 0
    → All (λ j. j.updated_at_ms ≤ℤ t) s.jobs
    → (j : Job) × (q : Scheduler) × (assign s w t ≡ ok (offer j w, q))
      × (get_elem? s.jobs (find_slot s.jobs id) ≡ some j)
      × (j.id ≡ id)
      × (get_elem? q.jobs (find_slot s.jobs id) ≡ some (handed j w t))
      × (q.jobs ≡ set s.jobs (find_slot s.jobs id) (handed j w t))
      × (contents q.pending ≡ rest)
unfolding assign count
assign_oldest s w t id rest v oldest positive idle clock later =
    let slot = find_slot s.jobs id in
    let (j, there, waits, same) = queued_record s.jobs id (ground (arith, v.waiting id)) v.unique in
    let (pending, peeked, popped, r, left) = pop_effect s.pending id rest v.ready oldest in
    let (k, made) =
      job_assign_accepts j w t waits positive clock
        (All-get (λ i. i.updated_at_ms ≤ℤ t) s.jobs slot there later) in
    let given : job_assign j w t ≡ ok (handed j w t) =
      made
      ∙ ap ok (
          job_assign-handed j w t (All-get Invariant.IsValid s.jobs slot there v.records) waits
            made) in
    (
      j,
      record s { jobs = set s.jobs slot (handed j w t); pending = pending },
      ground arith,
      there,
      same,
      get_elem?-set s.jobs slot (handed j w t) there,
      refl,
      left,
    )
