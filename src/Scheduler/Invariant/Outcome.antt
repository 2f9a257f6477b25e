-- ===== src/Scheduler/Invariant/Outcome.antt =====
-- The parts of the invariant after a change of one record and its effect on the queue.
use flatline_c.Prelude.{
  ℕ, suc, ◌+◌, ◌<◌, ◌≡◌, refl, ◌⊎◌, inl, inr, some_inj, zero, Bool-cases, true, false, some, List,
  [], ◌∷◌, ◌++◌, arith, ◌==◌, if◌then◌else◌, length, get_elem?, set, All, All-set, All-get,
  length-set, length-append,
}
use flatline_c.Prelude.Result.{ok, Result-cases}
use flatline_c.Job.{Job, queued}
use flatline_c.Job.Invariant
use flatline_c.JobQueue.{JobQueue, push, capacity, is_queued}
use flatline_c.JobQueue.Refine.{IsReady, contents, push_spec, push_refines, push-IsReady}
use flatline_c.Scheduler.{Scheduler, is_active, publish_outcome}
use flatline_c.Scheduler.Lists.{
  count, counts, bit, queued_ids, count-append, count-set, length-queued_ids-set, member-count,
  Follows, IsUnique-set, length-queued_ids-le, length-cons_if, count-queued_ids_zero,
}
use flatline_c.Scheduler.Invariant.{IsValid, bound}

-- The queue takes a job that is not in it while it has room.
pub push_accepts :
    (q : JobQueue) (job : Job)
    → IsReady q
    → 0 < job.id
    → job.state ≡ queued
    → job.worker_id ≡ 0
    → count job.id (contents q) ≡ 0
    → length (contents q) < capacity
    → (q' : JobQueue) × (push q job ≡ ok q')
      × IsReady q'
      × (contents q' ≡ contents q ++ job.id ∷ [])
unfolding push_spec
push_accepts q job r positive waits free new fits =
    let refined = push_refines q job r in
    let absent = member-count job.id (contents q) new in
    elim (Result-cases (push q job)) [
      | inl (q', e) ↦ (q', e, push-IsReady q q' job e r, ground arith)
      | inr (x, e) ↦ absurd (ground arith)
    ]

count_one : (x y : ℕ) → count x (y ∷ []) ≡ bit (y == x)
unfolding count
count_one x y = omega arith

-- What the calls of job.c do to an attempt under way, as far as the store depends on it.
pub record Keeps (j k : Job) : Type 0 where
  pub same_id : k.id ≡ j.id
  pub sound : Invariant.IsValid k
  pub owner : (is_active k.state ≡ false) ⊎ (k.worker_id ≡ j.worker_id)

Keeps-Follows :
    (js : List Job) (j k : Job) → is_active j.state ≡ true → Keeps j k → All (Follows j k) js
Keeps-Follows [] j k busy h = tt
Keeps-Follows (u ∷ js) j k busy h = (λ a. ground arith, Keeps-Follows js j k busy h)

-- The store with one record replaced, and a queue that gained and lost the IDs that the records'
-- states say.
pub set-IsValid :
    (s : Scheduler) (slot : ℕ) (j k : Job) (q : JobQueue)
    → IsValid s
    → get_elem? s.jobs slot ≡ some j
    → k.id ≡ j.id
    → Invariant.IsValid k
    → All (Follows j k) s.jobs
    → IsReady q
    → ((id : ℕ) → count id (contents q) + counts id j ≡ count id (contents s.pending) + counts id k)
    → length (contents q) + bit (is_queued j.state)
      ≡ length (contents s.pending) + bit (is_queued k.state)
    → IsValid (record s { jobs = set s.jobs slot k; pending = q })
set-IsValid s slot j k q v there same sound follows r c l = record {
  ready = r;
  room = rw length-set v.room;
  word = v.word;
  records = All-set _ s.jobs slot k v.records sound;
  issued =
      All-set (λ i. i.id < bound s.next_job_id) s.jobs slot k v.issued
        (rw same (All-get (λ i. i.id < bound s.next_job_id) s.jobs slot there v.issued));
  unique = IsUnique-set s.jobs slot j k there follows v.unique;
  waiting = λ id. ground (arith, c id, v.waiting id, count-set id s.jobs slot j k there);
  waiting_length = ground (arith, l, v.waiting_length, length-queued_ids-set s.jobs slot j k there);
}

length-queued_ids-lt :
    (js : List Job) (i : ℕ) (j : Job)
    → get_elem? js i ≡ some j
    → is_queued j.state ≡ false
    → length (queued_ids js) < length js
unfolding queued_ids
length-queued_ids-lt [] i j e q = cc
length-queued_ids-lt (x ∷ js) zero j e q =
    let e' = some_inj.0 e in
    ground
      (arith, e', length-cons_if (is_queued x.state) x.id (queued_ids js), length-queued_ids-le js)
length-queued_ids-lt (x ∷ js) (suc i) j e q = ground (
  arith,
  length-cons_if (is_queued x.state) x.id (queued_ids js),
  length-queued_ids-lt js i j e q,
)

abbrev pub appended : Job → List ℕ → List ℕ
appended k ids = if is_queued k.state then ids ++ k.id ∷ [] else ids

publish_queued :
    (s : Scheduler) (slot : ℕ) (k : Job) (q : JobQueue)
    → is_queued k.state ≡ true
    → push s.pending k ≡ ok q
    → publish_outcome s slot k ≡ ok (record s { jobs = set s.jobs slot k; pending = q })
unfolding publish_outcome
publish_queued s slot k q e p = ground arith

publish_other :
    (s : Scheduler) (slot : ℕ) (k : Job)
    → is_queued k.state ≡ false
    → publish_outcome s slot k ≡ ok (record s { jobs = set s.jobs slot k })
unfolding publish_outcome
publish_other s slot k e = ground arith

abbrev pub Published : Scheduler → ℕ → Job → Type 0
Published s slot k =
    (t : Scheduler) × (publish_outcome s slot k ≡ ok t)
    × IsValid t
    × (t.jobs ≡ set s.jobs slot k)
    × (contents t.pending ≡ appended k (contents s.pending))

-- An outcome of an attempt under way is always published, the queue included.
module _ (s : Scheduler) (slot : ℕ) (j k : Job) where
  Published-queued :
      IsValid s
      → get_elem? s.jobs slot ≡ some j
      → is_active j.state ≡ true
      → Keeps j k
      → is_queued k.state ≡ true
      → Published s slot k
  Published-queued v there busy h e =
      let absent : count k.id (contents s.pending) ≡ 0 = ground (
        arith,
        h.same_id,
        v.waiting k.id,
        count-queued_ids_zero s.jobs slot j there (ground arith) v.unique,
      ) in
      let room : length (contents s.pending) < capacity = omega (
        arith,
        v.waiting_length,
        v.room,
        length-queued_ids-lt s.jobs slot j there (ground arith),
      ) in
      let (q, pushed, ready, holds) =
        push_accepts s.pending k v.ready h.sound.identified (ground arith) (ground arith) absent
          room in
      (
        record s { jobs = set s.jobs slot k; pending = q },
        publish_queued s slot k q e pushed,
        set-IsValid s slot j k q v there h.same_id h.sound (Keeps-Follows s.jobs j k busy h) ready
            (λ id.
              ground
                (arith, holds, count-append id (contents s.pending) (k.id ∷ []), count_one id k.id))
            (ground (arith, holds, length-append (contents s.pending) (k.id ∷ []))),
        refl,
        ground arith,
      )

  Published-other :
      IsValid s
      → get_elem? s.jobs slot ≡ some j
      → is_active j.state ≡ true
      → Keeps j k
      → is_queued k.state ≡ false
      → Published s slot k
  Published-other v there busy h e = (
    record s { jobs = set s.jobs slot k },
    publish_other s slot k e,
    set-IsValid s slot j k s.pending v there h.same_id h.sound (Keeps-Follows s.jobs j k busy h)
        v.ready (λ id. ground arith) (ground arith),
    refl,
    ground arith,
  )

  pub publish_outcome_total :
      IsValid s
      → get_elem? s.jobs slot ≡ some j
      → is_active j.state ≡ true
      → Keeps j k
      → Published s slot k
  publish_outcome_total v there busy h = elim (Bool-cases (is_queued k.state)) [
    | inl e ↦ Published-queued v there busy h e
    | inr e ↦ Published-other v there busy h e
  ]
