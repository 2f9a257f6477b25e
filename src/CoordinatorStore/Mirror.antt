-- ===== src/CoordinatorStore/Mirror.antt =====
-- The log against the published state: the record that a call appends is replayed to the state that
-- the call publishes.
use flatline_c.Prelude.{
  ℕ, ◌^◌, ◌<◌, ◌≡◌, ◌⊎◌, inl, inr, refl, sym, ap, ◌∙◌, subst, Bool, true, false, ◌==◌, leb, some,
  some_inj, List, get_elem?, All, All-get, All-set, All-map, arith, Bool-cases, Option-cases,
}
use flatline_c.Prelude.Int.{ℤ}
use flatline_c.Prelude.Result.{ok, err, Result-cases}
use flatline_c.Job.{Job}
use flatline_c.Job.Invariant
use flatline_c.Protocol.Message.{Message, JobSubmit}
use flatline_c.Scheduler
use flatline_c.Scheduler.{Scheduler, find, find_slot, active}
use flatline_c.Scheduler.Invariant.{IsValid}
use flatline_c.Scheduler.Invariant.Submit.{submit-IsValid}
use flatline_c.Scheduler.Invariant.Assign.{assign-IsValid}
use flatline_c.Scheduler.Invariant.Report.{report-IsValid}
use flatline_c.Scheduler.Invariant.Loss.{worker_lost-IsValid}
use flatline_c.WorkerRegistry
use flatline_c.WorkerRegistry.{Registry, Worker, is_alive, max_workers}
use flatline_c.WorkerRegistry.Invariant.{register_effect, find_slot_hit}
use flatline_c.Wal.Format.{
  Record, Entry, worker_id_allocated, job_snapshot, JobRecord, job_created, job_assigned,
}
use flatline_c.Wal.Codec.{record_encode}
use flatline_c.Wal.Replay.Index.{
  WorkerIndex, ReplayError, no_memory, worker_was_allocated, index_worker, grown,
}
use flatline_c.Wal.Replay.Allocated.{index_worker-IsIndex}
use flatline_c.Wal.Replay.{ReplayState, max_record_size, apply_record, allocate_worker}
use flatline_c.Wal.Replay.Again.{Written}
use flatline_c.Wal.Replay.Transitions.{Replayed}
use flatline_c.Wal.Replay.Recovered.{IsRecovered, EntryBounds, apply_record-IsRecovered}
use flatline_c.Wal.Replay.Calls.{replay-submit, replay-assign, replay-report, replay-worker_lost}
use flatline_c.CoordinatorStore.State.{Store}
use flatline_c.CoordinatorStore.{
  register, submit, assign, report, commit_worker_loss, kind_in, outcome_record, assigned_id,
  is_live,
}
use flatline_c.CoordinatorStore.Effects.{
  Took, Committed, Commits, submit_ok, assign_ok, report_ok, commit_worker_loss_ok, register_ok,
}

-- A live worker has an ID that the log allocated.
abbrev pub IsAllocated : WorkerIndex → Worker → Type 0
IsAllocated index w = is_alive w.state ≡ true → worker_was_allocated index w.id ≡ true

-- The recovered state is the published one.
pub record Mirrors {Wal : Type 0} (s : ReplayState) (index : WorkerIndex) (st : Store Wal)
    : Type 0 where
  pub recovered : IsRecovered s index
  pub jobs : s.scheduler ≡ st.jobs
  pub next_worker : s.workers.next_worker_id ≡ st.workers.next_worker_id
  pub time : s.job_time_base_ms ≡ st.last_job_time_ms
  pub owners : All (IsAllocated index) st.workers.workers
  pub word : st.workers.next_worker_id < 2 ^ 32

-- A record of the store fits the fields of the log.
found_bounds :
    (q : Scheduler) (id : ℕ) (kind : JobRecord) {job : Job}
    → find q id ≡ some job
    → IsValid q
    → EntryBounds (job_snapshot kind job)
unfolding find
found_bounds q id kind h v = elim (Bool-cases (id == 0)) [
  | inl no_id ↦ let h' = rw no_id at h in cc
  | inr some_id ↦
      let there = rw some_id at h in
      let issued =
        All-get (λ j. j.id < flatline_c.Scheduler.Invariant.bound q.next_job_id) q.jobs
          (find_slot q.jobs id) there v.issued in
      let sound = All-get Invariant.IsValid q.jobs (find_slot q.jobs id) there v.records in
      (ground (arith, v.word), sound.word)
]

live_allocated :
    (r : Registry) (w : ℕ) (index : WorkerIndex)
    → is_live (WorkerRegistry.find r w) ≡ true
    → All (IsAllocated index) r.workers
    → worker_was_allocated index w ≡ true
unfolding WorkerRegistry.find
live_allocated r w index live a = elim (Bool-cases (w == 0)) [
  | inl no_id ↦ let h = rw no_id at live in cc
  | inr some_id ↦
      let slot = WorkerRegistry.find_slot r.workers w in
      elim (Bool-cases (slot == max_workers)) [
        | inl gone ↦ let h = rw (some_id, gone) at live in cc
        | inr here ↦ elim (Option-cases (get_elem? r.workers slot)) [
          | inl e ↦ let h = rw (some_id, here, e) at live in cc
          | inr (x, e) ↦
              let h = rw (some_id, here, e) at live in
              let known = All-get (IsAllocated index) r.workers slot e a h in
              rw (← find_slot_hit r.workers w e) known
        ]
      ]
]

index_worker_error :
    (grows : ℕ → Bool) (index : WorkerIndex) (id : ℕ) (e : ReplayError)
    → index_worker grows index id ≡ err e
    → e ≡ no_memory
unfolding index_worker grown
index_worker_error grows index id e h = ground arith

-- The state after a worker ID, and whether the record of the ID is accepted.
abbrev allocated : ReplayState → ℕ → ReplayState
allocated s id = record s {
  highest_worker_id = id;
  workers = record s.workers { next_worker_id = WorkerRegistry.next_id id };
}

module _ (grows : ℕ → Bool) (s : ReplayState) (index : WorkerIndex) where
  allocate_worker_accepts :
      (index' : WorkerIndex) (id sequence : ℕ) (wire : List ℕ)
      → s.highest_worker_id < id
      → index_worker grows index id ≡ ok index'
      → apply_record grows s index
          (record { sequence = sequence; entry = worker_id_allocated id })
          wire
        ≡ ok (allocated s id, index')
  unfolding apply_record allocate_worker
  allocate_worker_accepts index' id sequence wire h f =
      let new : leb id s.highest_worker_id ≡ false = ground arith in rw (new, f) refl

  allocate_worker_full :
      (id sequence : ℕ) (wire : List ℕ)
      → s.highest_worker_id < id
      → index_worker grows index id ≡ err no_memory
      → apply_record grows s index
          (record { sequence = sequence; entry = worker_id_allocated id })
          wire
        ≡ err no_memory
  unfolding apply_record allocate_worker
  allocate_worker_full id sequence wire h f =
      let new : leb id s.highest_worker_id ≡ false = ground arith in rw (new, f) refl

module _ {Wal : Type 0} (next_sequence : Wal → ℕ) (append : Wal → Record → Bool × Wal)
    (grows : ℕ → Bool) where
  -- The bytes of a record, as they go into the file.
  abbrev pub Encoded : Record → List ℕ → Type 0
  Encoded r wire = record_encode max_record_size r ≡ ok wire

  -- Replay of one more record: the published state again, unless memory runs out.
  abbrev pub Replays : ReplayState → WorkerIndex → Record → List ℕ → Store Wal → Type 0
  Replays s index r wire q =
      (apply_record grows s index r wire ≡ err no_memory)
      ⊎ ((s' : ReplayState) × (index' : WorkerIndex) × (apply_record grows s index r wire
            ≡ ok (s', index'))
          × Mirrors s' index' q)

  -- What the call appended, and what replay makes of it.
  abbrev pub Mirrored : ReplayState → WorkerIndex → Store Wal → Store Wal → Type 0
  Mirrored s index st q =
      (entry : Entry) × Took next_sequence append st entry q
      × ((wire : List ℕ)
          → Encoded (record { sequence = next_sequence st.wal; entry = entry }) wire
          → Replays s index (record { sequence = next_sequence st.wal; entry = entry }) wire q)

  -- A committed transaction is replayed.
  Committed-Mirrored :
      (s : ReplayState) (index : WorkerIndex) (st q : Store Wal) (scratch : Scheduler) (id : ℕ)
      (kind : JobRecord) (job : Job)
      → Mirrors s index st
      → IsValid scratch
      → find scratch id ≡ some job
      → Committed next_sequence append st scratch job kind q
      → ((sequence : ℕ) (wire : List ℕ)
          → Written kind sequence job wire
          → Replayed s index kind sequence job wire scratch)
      → Mirrored s index st q
  unfolding apply_record
  Committed-Mirrored s index st q scratch id kind job v valid found (took, jobs, workers, time)
        replay =
      (
        job_snapshot kind job,
        took,
        λ wire written.
            let (s', applied, store, now, same) = replay (next_sequence st.wal) wire written in
            let accepted : apply_record grows s index
                  (record { sequence = next_sequence st.wal; entry = job_snapshot kind job }) wire
                ≡ ok (s', index) =
              rw applied refl in
            inr (
              s',
              index,
              accepted,
              record {
                recovered =
                    apply_record-IsRecovered grows s s' index index (next_sequence st.wal)
                      (job_snapshot kind job) wire accepted
                      (found_bounds scratch id kind found valid) v.recovered;
                jobs = store ∙ sym jobs;
                next_worker =
                    ap (λ (x : Registry). x.next_worker_id) same
                    ∙ v.next_worker
                    ∙ ap (λ (x : Registry). x.next_worker_id) (sym workers);
                time = now ∙ sym time;
                owners =
                    subst (λ (x : Registry). All (IsAllocated index) x.workers) (sym workers)
                      v.owners;
                word = subst (λ (x : Registry). x.next_worker_id < 2 ^ 32) (sym workers) v.word;
              },
            ),
      )

  -- The job that replay stores is the committed one.
  Commits-Mirrored :
      (s : ReplayState) (index : WorkerIndex) (st q : Store Wal) (scratch : Scheduler) (id : ℕ)
      (kind : JobRecord) (job : Job)
      → Mirrors s index st
      → IsValid scratch
      → Commits next_sequence append st scratch id kind q
      → find scratch id ≡ some job
      → ((sequence : ℕ) (wire : List ℕ)
          → Written kind sequence job wire
          → Replayed s index kind sequence job wire scratch)
      → Mirrored s index st q
  Commits-Mirrored s index st q scratch id kind job v valid (job', found', committed) found replay =
      let same : job' ≡ job = some_inj.0 (sym found' ∙ found) in
      Committed-Mirrored s index st q scratch id kind job v valid found
        (subst (λ j. Committed next_sequence append st scratch j kind q) same committed) replay

  pub submit-Mirrored :
      (s : ReplayState) (index : WorkerIndex) (st q : Store Wal) (p : JobSubmit) (now : ℤ) (id : ℕ)
      → Mirrors s index st
      → p.max_retries < 2 ^ 32
      → submit next_sequence append p now st ≡ (ok id, q)
      → Mirrored s index st q
  submit-Mirrored s index st q p now id v word h =
      let (t, scratch, due, made, commits) = submit_ok next_sequence append st p now id h in
      let made' = subst (λ x. Scheduler.submit x p t ≡ ok (id, scratch)) (sym v.jobs) made in
      let (job, found, replay) =
        replay-submit s index v.recovered p t id scratch made' (rw v.time due) in
      Commits-Mirrored s index st q scratch id job_created job v
        (submit-IsValid s.scheduler p t id scratch made' word v.recovered.store) commits found
        replay

  pub assign-Mirrored :
      (s : ReplayState) (index : WorkerIndex) (st q : Store Wal) (w : ℕ) (now : ℤ) (m : Message)
      → Mirrors s index st
      → assign next_sequence append w now st ≡ (ok m, q)
      → Mirrored s index st q
  assign-Mirrored s index st q w now m v h =
      let (t, scratch, live, due, made, commits) = assign_ok next_sequence append st w now m h in
      let made' = subst (λ x. Scheduler.assign x w t ≡ ok (m, scratch)) (sym v.jobs) made in
      let (job, message, found, replay) =
        replay-assign s index v.recovered w t m scratch made'
          (live_allocated st.workers w index live v.owners) (rw v.time due) in
      let commits' =
        subst
          (λ x.
            Commits next_sequence append st scratch (assigned_id next_sequence append x)
              job_assigned q)
          message commits in
      Commits-Mirrored s index st q scratch job.id job_assigned job v
        (assign-IsValid s.scheduler w t m scratch made' v.recovered.store) commits' found replay

  pub report-Mirrored :
      (s : ReplayState) (index : WorkerIndex) (st q : Store Wal) (w : ℕ) (m : Message) (now : ℤ)
      → Mirrors s index st
      → report next_sequence append w m now st ≡ (ok tt, q)
      → Mirrored s index st q
  report-Mirrored s index st q w m now v h =
      let (t, scratch, a, working, due, made, commits) =
        report_ok next_sequence append st w m now h in
      let made' = subst (λ x. Scheduler.report x w m t ≡ ok scratch) (sym v.jobs) made in
      let (job, found, replay) =
        replay-report s index v.recovered w m t scratch a made' (rw v.jobs working)
          (rw v.time due) in
      Commits-Mirrored s index st q scratch a.id (outcome_record job.state) job v
        (report-IsValid s.scheduler w m t scratch made' v.recovered.store)
        (subst (λ o. Commits next_sequence append st scratch a.id (kind_in o) q) found commits)
        found replay

  pub commit_worker_loss-Mirrored :
      (s : ReplayState) (index : WorkerIndex) (st q : Store Wal) (w : ℕ) (now : ℤ)
      → Mirrors s index st
      → commit_worker_loss next_sequence append w now st ≡ (ok tt, q)
      → Mirrored s index st q
  commit_worker_loss-Mirrored s index st q w now v h =
      let (t, scratch, a, working, due, made, commits) =
        commit_worker_loss_ok next_sequence append st w now h in
      let made' = subst (λ x. Scheduler.worker_lost x w t ≡ ok scratch) (sym v.jobs) made in
      let (job, found, replay) =
        replay-worker_lost s index v.recovered w t scratch a made' (rw v.jobs working)
          (rw v.time due) in
      Commits-Mirrored s index st q scratch a.id (outcome_record job.state) job v
        (worker_lost-IsValid s.scheduler w t scratch made' v.recovered.store)
        (subst (λ o. Commits next_sequence append st scratch a.id (kind_in o) q) found commits)
        found replay

  pub register-Mirrored :
      (s : ReplayState) (index : WorkerIndex) (st q : Store Wal) (fd now : ℤ) (id : ℕ)
      → Mirrors s index st
      → register next_sequence append fd now st ≡ (ok id, q)
      → Mirrored s index st q
  register-Mirrored s index st q fd now id v h =
      let (candidate, made, took, result) = register_ok next_sequence append st fd now id h in
      let (slot, _, table, given, next, positive, _) = register_effect st.workers fd now made in
      let above : s.highest_worker_id < id =
        ground (arith, v.next_worker, v.recovered.next_worker) in
      let id_word : id < 2 ^ 32 = ground (arith, v.word) in
      (
        worker_id_allocated id,
        took,
        λ wire written. elim (Result-cases (index_worker grows index id)) [
          | inr (e, f) ↦ inl (
              allocate_worker_full grows s index id (next_sequence st.wal) wire above
                (f ∙ ap err (index_worker_error grows index id e f)))
          | inl (index', f) ↦
              let accepted =
                allocate_worker_accepts grows s index index' id (next_sequence st.wal) wire above
                  f in
              let (_, holds) =
                index_worker-IsIndex grows index index' s.highest_worker_id id f above
                  v.recovered.indexed in
              inr (
                allocated s id,
                index',
                accepted,
                record {
                  recovered =
                      apply_record-IsRecovered grows s (allocated s id) index index'
                        (next_sequence st.wal) (worker_id_allocated id) wire accepted id_word
                        v.recovered;
                  jobs = v.jobs ∙ ap (λ (x : Store Wal). x.jobs) (sym result);
                  next_worker =
                      sym next ∙ ap (λ (x : Store Wal). x.workers.next_worker_id) (sym result);
                  time = v.time ∙ ap (λ (x : Store Wal). x.last_job_time_ms) (sym result);
                  word =
                      subst (λ (x : Store Wal). x.workers.next_worker_id < 2 ^ 32) (sym result)
                        (ground arith);
                  owners =
                      subst (λ (x : Store Wal). All (IsAllocated index') x.workers.workers)
                        (sym result)
                        (subst (All (IsAllocated index')) (sym table) (
                          All-set (IsAllocated index') st.workers.workers slot _
                            (All-map st.workers.workers
                              (λ w k live. rw (holds w.id) (ground (arith, k live))) v.owners)
                            (λ live. rw (holds st.workers.next_worker_id) (ground arith))));
                },
              )
        ],
      )
