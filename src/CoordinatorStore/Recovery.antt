-- ===== src/CoordinatorStore/Recovery.antt =====
-- The calls of the coordinator's event loop on its store, in any order, and the log that they leave.
use flatline_c.Prelude.{
  ℕ, ◌^◌, ◌<◌, ◌≡◌, ◌⊎◌, inl, inr, sym, ap, ◌∙◌, subst, Bool, true, some, List, [], ◌∷◌, ◌++◌, All,
  All-get, All-set, arith,
}
use flatline_c.Prelude.Int.{ℤ}
use flatline_c.Prelude.Result.{Result, ok, err, ◌>>=◌, Result-cases}
use flatline_c.Protocol.Message.{Message, JobSubmit}
use flatline_c.WorkerRegistry
use flatline_c.WorkerRegistry.{Registry, Worker, alive, is_alive, heartbeat, mark_dead}
use flatline_c.WorkerRegistry.Invariant.{
  heartbeat_effect, mark_dead_effect, find_live_effect, beaten, buried,
}
use flatline_c.Wal.Format.{Record, Entry}
use flatline_c.Wal.Replay
use flatline_c.Wal.Replay.{ReplayState, apply_record}
use flatline_c.Wal.Replay.Index.{WorkerIndex, no_memory, empty_index}
use flatline_c.Wal.Replay.Log.{
  LoggedRecord, replay, replay-append, accept, numbered, IsRecovered-numbered,
}
use flatline_c.CoordinatorStore.State.{Store, StoreError, StoreFailure, fatal}
use flatline_c.CoordinatorStore.{register, submit, assign, report, worker_lost}
use flatline_c.CoordinatorStore.Clean.{
  HasFailed, Clean, register-IsClean, submit-IsClean, assign-IsClean, report-IsClean,
  worker_lost-IsClean,
}
use flatline_c.CoordinatorStore.Durable.{Durable, Logged, store-Durable, store_latched}
use flatline_c.CoordinatorStore.Effects.{Took, worker_lost_ok}
use flatline_c.CoordinatorStore.Mirror.{
  Mirrors, IsAllocated, Encoded, Mirrored, submit-Mirrored, assign-Mirrored, report-Mirrored,
  register-Mirrored, commit_worker_loss-Mirrored,
}

-- Heartbeats and closed connections change the published workers and are not logged.
pub data StoreCall : Type 0 where
  registers : ℤ → ℤ → StoreCall
  submits : JobSubmit → ℤ → StoreCall
  assigns : ℕ → ℤ → StoreCall
  reports : ℕ → Message → ℤ → StoreCall
  loses : ℕ → ℤ → StoreCall
  beats : ℕ → ℤ → ℤ → StoreCall
  closes : ℕ → ℤ → StoreCall

-- A retry limit is a 32-bit number.
abbrev pub CallFits : StoreCall → Type 0
CallFits (submits p now) = p.max_retries < 2 ^ 32
CallFits _ = Unit {0}

abbrev pub with_workers :
    {Wal : Type 0} → Store Wal → Result WorkerRegistry.RegistryError Registry → Store Wal
with_workers s (ok r) = record s { workers = r }
with_workers s (err e) = s

abbrev pub no_job : JobSubmit
no_job = record { task_type = 0; max_retries = 0; arguments = [] }

abbrev pub no_message : Message
no_message = Message.stats_request 0

module _ {Wal : Type 0} (next_sequence : Wal → ℕ) (append : Wal → Record → Bool × Wal) where
  unfoldable pub perform : Store Wal → StoreCall → Store Wal
  perform s (registers fd now) = (register next_sequence append fd now s).1
  perform s (submits p now) = (submit next_sequence append p now s).1
  perform s (assigns w now) = (assign next_sequence append w now s).1
  perform s (reports w m now) = (report next_sequence append w m now s).1
  perform s (loses w now) = (worker_lost next_sequence append w now s).1
  perform s (beats id fd now) = with_workers s (heartbeat s.workers id fd now)
  perform s (closes id fd) = with_workers s (mark_dead s.workers id fd)

  unfoldable pub run : Store Wal → List StoreCall → Store Wal
  unfolding perform
  run s [] = s
  run s (c ∷ cs) = run (perform s c) cs

module _ {Wal : Type 0} (next_sequence : Wal → ℕ) (append : Wal → Record → Bool × Wal)
    (written : Wal → List LoggedRecord) (grows : ℕ → Bool) where
  -- An append that is answered with success has put the bytes of the record behind the others.
  abbrev pub IsWriter : Type 0
  IsWriter =
      (w w' : Wal) (r : Record)
      → append w r ≡ (true, w')
      → (wire : List ℕ) × Encoded next_sequence append grows r wire
        × (written w' ≡ written w ++ (r, wire) ∷ [])

  -- The log replays to the published state, unless memory runs out.
  abbrev pub Recovers : Store Wal → Type 0
  Recovers st =
      (replay grows (Replay.init, empty_index) (written st.wal) ≡ err no_memory)
      ⊎ ((s : ReplayState) × (index : WorkerIndex) × (replay grows (Replay.init, empty_index)
              (written st.wal)
            ≡ ok (s, index))
          × Mirrors s index st)

  pub append_full :
      (st q : Store Wal) (entry : Entry)
      → IsWriter
      → Took next_sequence append st entry q
      → replay grows (Replay.init, empty_index) (written st.wal) ≡ err no_memory
      → Recovers q
  unfolding accept
  append_full st q entry law took full =
      let r : Record = record { sequence = next_sequence st.wal; entry = entry } in
      let (wire, _, added) = law st.wal q.wal r took in
      inl (
        ap (replay grows (Replay.init, empty_index)) added
        ∙ replay-append grows (Replay.init, empty_index) (written st.wal) (r, wire)
        ∙ ap (λ m. m >>= λ p. accept grows p (r, wire)) full)

  numbered-Mirrors :
      (s : ReplayState) (index : WorkerIndex) (q : Store Wal) (sequence : ℕ)
      → Mirrors s index q
      → Mirrors (record s { last_sequence = sequence }) index q
  numbered-Mirrors s index q sequence v = record {
    recovered = IsRecovered-numbered grows s index sequence v.recovered;
    jobs = v.jobs;
    next_worker = v.next_worker;
    time = v.time;
    owners = v.owners;
    word = v.word;
  }

  pub append_more :
      (st q : Store Wal) (s : ReplayState) (index : WorkerIndex)
      → IsWriter
      → Mirrored next_sequence append grows s index st q
      → replay grows (Replay.init, empty_index) (written st.wal) ≡ ok (s, index)
      → Recovers q
  unfolding accept
  append_more st q s index law (entry, took, replays) replayed =
      let r : Record = record { sequence = next_sequence st.wal; entry = entry } in
      let (wire, encoded, added) = law st.wal q.wal r took in
      let again : replay grows (Replay.init, empty_index) (written q.wal)
          ≡ accept grows (s, index) (r, wire) =
        ap (replay grows (Replay.init, empty_index)) added
        ∙ replay-append grows (Replay.init, empty_index) (written st.wal) (r, wire)
        ∙ ap (λ m. m >>= λ p. accept grows p (r, wire)) replayed in
      elim (replays wire encoded) [
        | inl full ↦ inl (again ∙ ap (λ m. m >>= numbered r.sequence) full)
        | inr (s', index', applied, mirrors) ↦ inr (
          record s' { last_sequence = r.sequence },
          index',
          again ∙ ap (λ m. m >>= numbered r.sequence) applied,
          numbered-Mirrors s' index' q r.sequence mirrors,
        )
      ]

  -- One call, by what it answers.
  pub call-Recovers :
      {A : Type 0} (st : Store Wal) (r : Result StoreError A × Store Wal)
      → IsWriter
      → Clean st r
      → ((a : A) → r ≡ (ok a, r.1) → Logged next_sequence append st r.1)
      → ((s : ReplayState) (index : WorkerIndex) (a : A)
          → Mirrors s index st
          → r ≡ (ok a, r.1)
          → Mirrored next_sequence append grows s index st r.1)
      → Recovers st
      → Recovers r.1 ⊎ HasFailed r.1
  call-Recovers st (r, q) law (inr (inl same)) d h v = inl (subst Recovers (sym same) v)
  call-Recovers st (r, q) law (inr (inr failed)) d h v = inr failed
  call-Recovers st (r, q) law (inl (a, e)) d h (inl full) =
      let (entry, took) = d a (ap (λ x. (x, q)) e) in inl (append_full st q entry law took full)
  call-Recovers st (r, q) law (inl (a, e)) d h (inr (s, index, replayed, mirrors)) =
      inl (append_more st q s index law (h s index a mirrors (ap (λ x. (x, q)) e)) replayed)

  pub Durable-Logged :
      {A : Type 0} (st : Store Wal) (r : Result StoreError A × Store Wal)
      → Durable next_sequence append st r
      → (a : A) → r ≡ (ok a, r.1)
      → Logged next_sequence append st r.1
  Durable-Logged st (r, q) (inl (b, e, logged)) a h = logged
  Durable-Logged st (r, q) (inr (x, e, same)) a h = absurd (ground arith)

  with_workers-Recovers :
      (st : Store Wal) (r : Registry)
      → r.next_worker_id ≡ st.workers.next_worker_id
      → ((index : WorkerIndex)
          → All (IsAllocated index) st.workers.workers
          → All (IsAllocated index) r.workers)
      → Recovers st
      → Recovers (record st { workers = r })
  with_workers-Recovers st r same h (inl full) = inl full
  with_workers-Recovers st r same h (inr (s, index, replayed, v)) = inr (
    s,
    index,
    replayed,
    record {
      recovered = v.recovered;
      jobs = v.jobs;
      next_worker = v.next_worker ∙ sym same;
      time = v.time;
      owners = h index v.owners;
      word = rw same v.word;
    },
  )

  beat-Recovers :
      (st : Store Wal) (id : ℕ) (fd now : ℤ)
      → Recovers st
      → Recovers (with_workers st (heartbeat st.workers id fd now))
  beat-Recovers st id fd now v = elim (Result-cases (heartbeat st.workers id fd now)) [
    | inr (e, h) ↦ rw h v
    | inl (r, h) ↦
        let (slot, w, live, result, _, _) = heartbeat_effect st.workers id fd now h in
        let (there, _, _, _) = find_live_effect st.workers id fd live in
        rw h (
          with_workers-Recovers st r (ap (λ (x : Registry). x.next_worker_id) result)
            (λ index a.
              subst (λ (x : Registry). All (IsAllocated index) x.workers) (sym result)
                (All-set (IsAllocated index) st.workers.workers slot (beaten w now) a
                  (All-get (IsAllocated index) st.workers.workers slot there a)))
            v)
  ]

  close-Recovers :
      (st : Store Wal) (id : ℕ) (fd : ℤ)
      → Recovers st
      → Recovers (with_workers st (mark_dead st.workers id fd))
  close-Recovers st id fd v = elim (Result-cases (mark_dead st.workers id fd)) [
    | inr (e, h) ↦ rw h v
    | inl (r, h) ↦
        let (slot, w, live, result) = mark_dead_effect st.workers id fd h in
        rw h (
          with_workers-Recovers st r (ap (λ (x : Registry). x.next_worker_id) result)
            (λ index a.
              subst (λ (x : Registry). All (IsAllocated index) x.workers) (sym result)
                (All-set (IsAllocated index) st.workers.workers slot (buried w) a (λ b. cc)))
            v)
  ]

  perform-Recovers :
      (st : Store Wal) (c : StoreCall)
      → IsWriter
      → CallFits c
      → Recovers st
      → Recovers (perform next_sequence append st c) ⊎ HasFailed (perform next_sequence append st c)
  unfolding perform
  perform-Recovers st (registers fd now) law f v =
      call-Recovers st (register next_sequence append fd now st) law
        (register-IsClean next_sequence append fd now st)
        (Durable-Logged st (register next_sequence append fd now st)
          ((store-Durable next_sequence append st fd now no_job 0 no_message).0))
        (λ s index a m e. register-Mirrored next_sequence append grows s index st _ fd now a m e) v
  perform-Recovers st (submits p now) law f v =
      call-Recovers st (submit next_sequence append p now st) law
        (submit-IsClean next_sequence append p now st)
        (Durable-Logged st (submit next_sequence append p now st)
          ((store-Durable next_sequence append st now now p 0 no_message).1))
        (λ s index a m e. submit-Mirrored next_sequence append grows s index st _ p now a m f e) v
  perform-Recovers st (assigns w now) law f v =
      call-Recovers st (assign next_sequence append w now st) law
        (assign-IsClean next_sequence append w now st)
        (Durable-Logged st (assign next_sequence append w now st)
          ((store-Durable next_sequence append st now now no_job w no_message).2))
        (λ s index a m e. assign-Mirrored next_sequence append grows s index st _ w now a m e) v
  perform-Recovers st (reports w m now) law f v =
      call-Recovers st (report next_sequence append w m now st) law
        (report-IsClean next_sequence append w m now st)
        (Durable-Logged st (report next_sequence append w m now st)
          ((store-Durable next_sequence append st now now no_job w m).3))
        (λ s index a k e. report-Mirrored next_sequence append grows s index st _ w m now k e) v
  perform-Recovers st (loses w now) law f v =
      call-Recovers st (worker_lost next_sequence append w now st) law
        (worker_lost-IsClean next_sequence append w now st)
        (Durable-Logged st (worker_lost next_sequence append w now st)
          ((store-Durable next_sequence append st now now no_job w no_message).4))
        (λ s index a k e.
          commit_worker_loss-Mirrored next_sequence append grows s index st _ w now k
            (worker_lost_ok next_sequence append st w now e))
        v
  perform-Recovers st (beats id fd now) law f v = inl (beat-Recovers st id fd now v)
  perform-Recovers st (closes id fd) law f v = inl (close-Recovers st id fd v)

  still_failed :
      {A : Type 0} (st : Store Wal) (f : StoreFailure) {r : Result StoreError A × Store Wal}
      → r ≡ (err fatal, st)
      → st.failure ≡ some f
      → r.1.failure ≡ some f
  still_failed {A} st f h e = ap (λ (x : Result StoreError A × Store Wal). x.1.failure) h ∙ e

  pub perform_failed :
      (st : Store Wal) (c : StoreCall)
      → HasFailed st
      → HasFailed (perform next_sequence append st c)
  unfolding perform
  perform_failed st (registers fd now) (f, e) = (
    f,
    still_failed st f ((store_latched next_sequence append st f fd now no_job 0 no_message e).0) e,
  )
  perform_failed st (submits p now) (f, e) = (
    f,
    still_failed st f ((store_latched next_sequence append st f now now p 0 no_message e).1) e,
  )
  perform_failed st (assigns w now) (f, e) = (
    f,
    still_failed st f ((store_latched next_sequence append st f now now no_job w no_message e).2) e,
  )
  perform_failed st (reports w m now) (f, e) =
      (f, still_failed st f ((store_latched next_sequence append st f now now no_job w m e).3) e)
  perform_failed st (loses w now) (f, e) = (
    f,
    still_failed st f ((store_latched next_sequence append st f now now no_job w no_message e).4) e,
  )
  perform_failed st (beats id fd now) (f, e) =
      elim (Result-cases (heartbeat st.workers id fd now)) [
        | inl (r, h) ↦ rw h (f, e)
        | inr (x, h) ↦ rw h (f, e)
      ]
  perform_failed st (closes id fd) (f, e) = elim (Result-cases (mark_dead st.workers id fd)) [
    | inl (r, h) ↦ rw h (f, e)
    | inr (x, h) ↦ rw h (f, e)
  ]

  -- Whatever calls come, the log replays to the published state as long as the store has not failed.
  pub run-Recovers :
      (st : Store Wal) (cs : List StoreCall)
      → IsWriter
      → All CallFits cs
      → Recovers st ⊎ HasFailed st
      → Recovers (run next_sequence append st cs) ⊎ HasFailed (run next_sequence append st cs)
  unfolding run
  run-Recovers st [] law f v = v
  run-Recovers st (c ∷ cs) law f (inl v) =
      run-Recovers (perform next_sequence append st c) cs law f.1 (perform-Recovers st c law f.0 v)
  run-Recovers st (c ∷ cs) law f (inr v) =
      run-Recovers (perform next_sequence append st c) cs law f.1 (inr (perform_failed st c v))
