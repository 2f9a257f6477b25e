-- ===== src/Wal/Replay/Recovered.antt =====
-- What a replayed prefix of the log establishes of the recovered state.
use flatline_c.Prelude.{
  ℕ, ◌+◌, ◌^◌, ◌<◌, ◌≡◌, inl, inr, refl, sym, ◌∙◌, subst, Bool, Bool-cases, true, List, arith, leb,
  All, All-get, All-map,
}
use flatline_c.Prelude.Result.{ok, ◌>>=◌, Result-cases, ok_inj}
use flatline_c.Job.{Job}
use flatline_c.Job.Invariant
use flatline_c.JobQueue.{JobQueue}
use flatline_c.Scheduler
use flatline_c.Scheduler.{Scheduler, find_slot, next_id, submit, assign, publish_outcome}
use flatline_c.Scheduler.Invariant.{IsValid, init-IsValid}
use flatline_c.Scheduler.Invariant.Submit.{submit-IsValid}
use flatline_c.Scheduler.Invariant.Assign.{assign-IsValid}
use flatline_c.Scheduler.Invariant.Outcome.{publish_outcome_total}
use flatline_c.WorkerRegistry
use flatline_c.Wal.Format.{
  JobRecord, job_created, job_assigned, job_started, job_completed, job_requeued, job_failed, Entry,
  worker_id_allocated, job_snapshot,
}
use flatline_c.Wal.Replay.Index.{WorkerIndex, empty_index, index_worker}
use flatline_c.Wal.Replay.Allocated.{IsIndex, empty-IsIndex, index_worker-IsIndex}
use flatline_c.Wal.Replay.{
  ReplayState, init, stored, pending_after, expected, apply_job, allocate_worker, with_index,
  apply_record,
}
use flatline_c.Wal.Replay.Moves.{
  apply_job_effect, created_move, assigned_move, submitted, is_outcome, expected_outcome,
  IsOutcome-of, joined-publish_outcome,
}

-- The store is valid, the allocators follow the greatest IDs seen, the index has its order, and no
-- worker is connected.
pub record IsRecovered (s : ReplayState) (index : WorkerIndex) : Type 0 where
  pub store : IsValid s.scheduler
  pub word : s.highest_job_id < 2 ^ 64
  pub worker_word : s.highest_worker_id < 2 ^ 32
  pub next_job : s.scheduler.next_job_id ≡ next_id s.highest_job_id
  pub indexed : IsIndex index s.highest_worker_id
  pub next_worker : s.workers.next_worker_id ≡ WorkerRegistry.next_id s.highest_worker_id
  pub idle : s.workers.workers ≡ WorkerRegistry.init.workers

pub init-IsRecovered : IsRecovered init empty_index
unfolding init Scheduler.init WorkerRegistry.init
init-IsRecovered = record {
  store = init-IsValid;
  word = omega arith;
  worker_word = omega arith;
  next_job = refl;
  indexed = empty-IsIndex;
  next_worker = refl;
  idle = refl;
}

-- The sizes of the fields of a record that the decoder reads.
abbrev pub EntryBounds : Entry → Type 0
EntryBounds (worker_id_allocated id) = id < 2 ^ 32
EntryBounds (job_snapshot kind j) = (j.id < 2 ^ 64) × (j.max_retries < 2 ^ 32)

pub issued_below :
    (s : Scheduler) (highest : ℕ)
    → IsValid s
    → s.next_job_id ≡ next_id highest
    → highest < 2 ^ 64
    → All (λ j. j.id < highest + 1) s.jobs
issued_below s highest v next word = All-map s.jobs (λ j h. ground (arith, h)) v.issued

-- The store of a recovered state, with the allocator moved past IDs that were skipped.
skipped-IsValid :
    (s : Scheduler) (id highest : ℕ)
    → IsValid s
    → All (λ j. j.id < highest + 1) s.jobs
    → highest < id
    → id < 2 ^ 64
    → IsValid (record s { next_job_id = id })
skipped-IsValid s id highest v issued above word = record {
  ready = v.ready;
  room = v.room;
  word = word;
  records = v.records;
  issued = All-map s.jobs (λ j h. ground (arith, h)) issued;
  unique = v.unique;
  waiting = v.waiting;
  waiting_length = v.waiting_length;
}

module _ (s : ReplayState) (index : WorkerIndex) (saved candidate : Job) (pending : JobQueue) where
  created-IsRecovered :
      IsRecovered s index
      → expected s index job_created saved ≡ ok candidate
      → pending_after s.scheduler.pending job_created candidate saved.id ≡ ok pending
      → saved.id < 2 ^ 64
      → saved.max_retries < 2 ^ 32
      → IsRecovered (stored s job_created saved candidate pending) index
  unfolding stored
  created-IsRecovered v e p word retries =
      let (above, moved) = created_move s index saved candidate pending e p in
      let valid =
        submit-IsValid (record s.scheduler { next_job_id = saved.id }) (submitted saved)
          saved.created_at_ms saved.id _ moved retries
          (skipped-IsValid s.scheduler saved.id s.highest_job_id v.store
            (issued_below s.scheduler s.highest_job_id v.store v.next_job v.word) above word) in
      record {
        store = valid;
        word = word;
        worker_word = v.worker_word;
        next_job = refl;
        indexed = v.indexed;
        next_worker = v.next_worker;
        idle = v.idle;
      }

  assigned-IsRecovered :
      IsRecovered s index
      → expected s index job_assigned saved ≡ ok candidate
      → pending_after s.scheduler.pending job_assigned candidate saved.id ≡ ok pending
      → IsRecovered (stored s job_assigned saved candidate pending) index
  unfolding stored
  assigned-IsRecovered v e p =
      let (m, moved) = assigned_move s index saved candidate pending e p in
      record {
        store = assign-IsValid s.scheduler saved.worker_id saved.updated_at_ms m _ moved v.store;
        word = v.word;
        worker_word = v.worker_word;
        next_job = v.next_job;
        indexed = v.indexed;
        next_worker = v.next_worker;
        idle = v.idle;
      }

  outcome_stored :
      (kind : JobRecord)
      → is_outcome kind ≡ true
      → IsRecovered s index
      → IsValid (stored s kind saved candidate pending).scheduler
      → IsRecovered (stored s kind saved candidate pending) index
  unfolding stored
  outcome_stored job_created o v w = cc
  outcome_stored job_assigned o v w = cc
  outcome_stored _ o v w = record {
    store = w;
    word = v.word;
    worker_word = v.worker_word;
    next_job = v.next_job;
    indexed = v.indexed;
    next_worker = v.next_worker;
    idle = v.idle;
  }

  outcome-IsRecovered :
      (kind : JobRecord)
      → is_outcome kind ≡ true
      → IsRecovered s index
      → expected s index kind saved ≡ ok candidate
      → pending_after s.scheduler.pending kind candidate saved.id ≡ ok pending
      → IsRecovered (stored s kind saved candidate pending) index
  outcome-IsRecovered kind o v e p =
      let slot = find_slot s.scheduler.jobs saved.id in
      let (job, there, made) = expected_outcome s index kind saved o e in
      let sound = All-get Invariant.IsValid s.scheduler.jobs slot there v.store.records in
      let (busy, keeps) = IsOutcome-of s index kind saved job candidate o made sound in
      let (q, published, valid, _, _) =
        publish_outcome_total s.scheduler slot job candidate v.store there busy keeps in
      let same =
        ok_inj (sym published ∙ joined-publish_outcome s kind saved candidate pending o p) in
      outcome_stored kind o v (subst IsValid same valid)

  stored-IsRecovered :
      (kind : JobRecord)
      → IsRecovered s index
      → expected s index kind saved ≡ ok candidate
      → pending_after s.scheduler.pending kind candidate saved.id ≡ ok pending
      → EntryBounds (job_snapshot kind saved)
      → IsRecovered (stored s kind saved candidate pending) index
  stored-IsRecovered job_created v e p b = created-IsRecovered v e p b.0 b.1
  stored-IsRecovered job_assigned v e p b = assigned-IsRecovered v e p
  stored-IsRecovered job_started v e p b = outcome-IsRecovered job_started refl v e p
  stored-IsRecovered job_completed v e p b = outcome-IsRecovered job_completed refl v e p
  stored-IsRecovered job_requeued v e p b = outcome-IsRecovered job_requeued refl v e p
  stored-IsRecovered job_failed v e p b = outcome-IsRecovered job_failed refl v e p

module _ (grows : ℕ → Bool) where
  allocate_worker-IsRecovered :
      (s s' : ReplayState) (index index' : WorkerIndex) (id : ℕ)
      → allocate_worker grows s index id ≡ ok (s', index')
      → id < 2 ^ 32
      → IsRecovered s index
      → IsRecovered s' index'
  unfolding allocate_worker
  allocate_worker-IsRecovered s s' index index' id h fits v =
      elim (Bool-cases (leb id s.highest_worker_id)) [
        | inl old ↦ let h' = rw old at h in cc
        | inr new ↦ elim (Result-cases (index_worker grows index id)) [
          | inr (e, f) ↦ let h' = rw (new, f) at h in cc
          | inl (i, f) ↦
              let h' = ok_inj (rw (new, f) at h) in
              let (indexed, _) =
                index_worker-IsIndex grows index i s.highest_worker_id id f (ground arith)
                  v.indexed in
              let r : IsRecovered
                  (record s {
                    highest_worker_id = id;
                    workers = record s.workers { next_worker_id = WorkerRegistry.next_id id };
                  })
                  i =
                record {
                  store = v.store;
                  word = v.word;
                  worker_word = fits;
                  next_job = v.next_job;
                  indexed = indexed;
                  next_worker = refl;
                  idle = v.idle;
                } in
              subst (λ p. IsRecovered p.0 p.1) h' r
        ]
      ]

  apply_job-IsRecovered :
      (s s' : ReplayState) (index index' : WorkerIndex) (sequence : ℕ) (wire : List ℕ)
      (kind : JobRecord) (saved : Job)
      → (apply_job s index kind sequence saved wire >>= with_index index) ≡ ok (s', index')
      → EntryBounds (job_snapshot kind saved)
      → IsRecovered s index
      → IsRecovered s' index'
  apply_job-IsRecovered s s' index index' sequence wire kind saved h b v =
      elim (Result-cases (apply_job s index kind sequence saved wire)) [
        | inr (e, f) ↦ let h' = rw f at h in cc
        | inl (t, f) ↦
            let same = ok_inj (rw f at h) in
            let (candidate, pending, _, e, _, p, result) =
              apply_job_effect s index kind sequence saved wire f in
            subst (λ p. IsRecovered p.0 p.1) same
              (subst (λ t. IsRecovered t index) (sym result)
                (stored-IsRecovered s index saved candidate pending kind v e p b))
      ]

  -- A record that fits its fields and that replay accepts keeps the recovered state in order: the
  -- job store is valid, the allocators of job and worker IDs follow the greatest IDs seen, the
  -- index of worker IDs is sorted, and no worker is connected.
  pub apply_record-IsRecovered :
      (s s' : ReplayState) (index index' : WorkerIndex) (sequence : ℕ) (e : Entry) (wire : List ℕ)
      → apply_record grows s index (record { sequence = sequence; entry = e }) wire
        ≡ ok (s', index')
      → EntryBounds e
      → IsRecovered s index
      → IsRecovered s' index'
  unfolding apply_record
  apply_record-IsRecovered s s' index index' sequence (worker_id_allocated id) wire h b v =
      allocate_worker-IsRecovered s s' index index' id h b v
  apply_record-IsRecovered s s' index index' sequence (job_snapshot kind saved) wire h b v =
      apply_job-IsRecovered s s' index index' sequence wire kind saved h b v
