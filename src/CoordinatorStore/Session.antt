-- ===== src/CoordinatorStore/Session.antt =====
-- A session of the coordinator: its store is opened, on a new log or on that of an earlier session,
-- and serves calls.
use flatline_c.Prelude.{
  ℕ, zero, suc, ◌+◌, ◌^◌, ◌<◌, ◌≡◌, ◌⊎◌, inl, inr, sym, ap, ◌∙◌, subst, Bool, true, false, none,
  List, [], All, All-replicate, arith, get_elem?, length,
}
use flatline_c.Prelude.Int.{ℤ}
use flatline_c.Prelude.Result.{Result, ok, err}
use flatline_c.WorkerRegistry
use flatline_c.WorkerRegistry.{Worker, Registry, max_workers, blank}
use flatline_c.Wal.Format.{Record}
use flatline_c.Wal.Replay
use flatline_c.Wal.Replay.{ReplayState}
use flatline_c.Wal.Replay.Index.{WorkerIndex, ReplayError, empty_index, no_memory}
use flatline_c.Wal.Replay.Recovered.{EntryBounds, IsRecovered, init-IsRecovered}
use flatline_c.Wal.Replay.Log.{LoggedRecord, replay, replay-IsRecovered}
use flatline_c.CoordinatorStore.State.{Store, StoreError}
use flatline_c.CoordinatorStore.{commit_worker_loss}
use flatline_c.CoordinatorStore.Effects.{continued, commit_worker_loss_ok}
use flatline_c.CoordinatorStore.Open.{
  init_store, recover_job, recover_from, recover_interrupted_jobs, open_store,
}
use flatline_c.CoordinatorStore.Interrupted.{recover_job_ok}
use flatline_c.CoordinatorStore.Mirror.{Mirrors, IsAllocated, commit_worker_loss-Mirrored}
use flatline_c.CoordinatorStore.Recovery.{
  StoreCall, CallFits, run, IsWriter, Recovers, append_full, append_more, run-Recovers,
}
use flatline_c.CoordinatorStore.Clean.{HasFailed}
use flatline_c.CoordinatorStore.Restart.{Loaded, open_store_ok}

-- No live worker has been registered yet.
blank_table :
    (index : WorkerIndex) (r : Registry)
    → r.workers ≡ WorkerRegistry.init.workers
    → All (IsAllocated index) r.workers
unfolding WorkerRegistry.init
blank_table index r e =
    subst (All (IsAllocated index)) (sym e)
      (All-replicate (IsAllocated index) max_workers blank (λ h. cc))

next_id_bound : (highest : ℕ) → highest < 2 ^ 32 → WorkerRegistry.next_id highest < 2 ^ 32
next_id_bound highest h = ground arith

-- A recovered state is mirrored by the store that takes it over.
recovered-Mirrors :
    {Wal : Type 0} (s : ReplayState) (index : WorkerIndex) (st : Store Wal)
    → IsRecovered s index
    → st.jobs ≡ s.scheduler
    → st.workers ≡ s.workers
    → st.last_job_time_ms ≡ s.job_time_base_ms
    → Mirrors s index st
recovered-Mirrors s index st v jobs workers time = record {
  recovered = v;
  jobs = sym jobs;
  next_worker = ap (λ (x : Registry). x.next_worker_id) (sym workers);
  time = sym time;
  owners =
      subst (λ (x : Registry). All (IsAllocated index) x.workers) (sym workers)
        (blank_table index s.workers v.idle);
  word =
      subst (λ (x : Registry). x.next_worker_id < 2 ^ 32) (sym workers)
        (rw v.next_worker (next_id_bound s.highest_worker_id v.worker_word));
}

module _ {Wal : Type 0} (next_sequence : Wal → ℕ) (append : Wal → Record → Bool × Wal)
    (written : Wal → List LoggedRecord) (grows : ℕ → Bool) where
  -- `Recovers` is about what is published, and the log.
  abbrev Published : Store Wal → Store Wal → Type 0
  Published s q =
      (q.jobs ≡ s.jobs)
      × (q.workers ≡ s.workers)
      × (q.wal ≡ s.wal)
      × (q.last_job_time_ms ≡ s.last_job_time_ms)

  Published-Recovers :
      (s q : Store Wal)
      → Published s q
      → Recovers next_sequence append written grows s
      → Recovers next_sequence append written grows q
  Published-Recovers s q (jobs, workers, wal, time) (inl full) =
      inl (ap (λ w. replay grows (Replay.init, empty_index) (written w)) wal ∙ full)
  Published-Recovers s q (jobs, workers, wal, time) (inr (r, index, replayed, v)) = inr (
    r,
    index,
    ap (λ w. replay grows (Replay.init, empty_index) (written w)) wal ∙ replayed,
    record {
      recovered = v.recovered;
      jobs = v.jobs ∙ sym jobs;
      next_worker = v.next_worker ∙ ap (λ (x : Registry). x.next_worker_id) (sym workers);
      time = v.time ∙ sym time;
      owners = subst (λ (x : Registry). All (IsAllocated index) x.workers) (sym workers) v.owners;
      word = subst (λ (x : Registry). x.next_worker_id < 2 ^ 32) (sym workers) v.word;
    },
  )

  loss-Recovers :
      (s q : Store Wal) (w : ℕ) (now : ℤ)
      → IsWriter next_sequence append written grows
      → commit_worker_loss next_sequence append w now s ≡ (ok tt, q)
      → Recovers next_sequence append written grows s
      → Recovers next_sequence append written grows q
  loss-Recovers s q w now law h (inl full) =
      let (_, _, _, _, _, _, (c, _, (took, _, _, _))) =
        commit_worker_loss_ok next_sequence append s w now h in
      append_full next_sequence append written grows s q _ law took full
  loss-Recovers s q w now law h (inr (r, index, replayed, v)) =
      append_more next_sequence append written grows s q r index law
        (commit_worker_loss-Mirrored next_sequence append grows r index s q w now v h) replayed

  recover_from-Recovers :
      (s q : Store Wal) (i rounds : ℕ) (now : ℤ)
      → IsWriter next_sequence append written grows
      → recover_from next_sequence append i rounds now s ≡ (ok tt, q)
      → Recovers next_sequence append written grows s
      → Recovers next_sequence append written grows q
  unfolding recover_from
  recover_from-Recovers s q i zero now law h v =
      subst (Recovers next_sequence append written grows)
        (ap (λ (x : Result StoreError (Unit {0}) × Store Wal). x.1) h) v
  recover_from-Recovers s q i (suc rounds) now law h v =
      let (u, t, e, h') =
        continued (λ u. recover_from next_sequence append (i + 1) rounds now)
          (recover_job next_sequence append (get_elem? s.jobs.jobs i) now s) h in
      recover_from-Recovers t q (i + 1) rounds now law h'
        (elim (recover_job_ok next_sequence append now s (get_elem? s.jobs.jobs i) e) [
          | inl (same, _) ↦ subst (Recovers next_sequence append written grows) (sym same) v
          | inr (job, r, _, _, committed, result) ↦
              Published-Recovers r t
                (
                  ap (λ (x : Store Wal). x.jobs) result,
                  ap (λ (x : Store Wal). x.workers) result,
                  ap (λ (x : Store Wal). x.wal) result,
                  ap (λ (x : Store Wal). x.last_job_time_ms) result,
                )
                (loss-Recovers s r job.worker_id now law committed v)
        ])

  module _ (in_use : Wal → Bool) (create : Wal → Bool × Wal)
      (replay_open : Wal → Result ReplayError ReplayState × Wal)
      (close_wal : Wal → Bool × Wal) where
    -- A created log holds no record; a replayed one holds records that lead to the answer.
    abbrev pub IsLog : Type 0
    IsLog =
        ((w w' : Wal) → create w ≡ (true, w') → written w' ≡ [])
        × ((w w' : Wal) (r : ReplayState)
            → replay_open w ≡ (ok r, w')
            → (index : WorkerIndex) × (replay grows (Replay.init, empty_index) (written w')
                ≡ ok (r, index))
              × All (λ (l : LoggedRecord). EntryBounds l.0.entry) (written w'))

    Loaded-Recovers :
        (b : Bool) (now : ℤ) (wal : Wal) (t : Store Wal)
        → IsLog
        → Loaded next_sequence append in_use create replay_open close_wal b (init_store wal) t
        → Recovers next_sequence append written grows
            (record t { session_start_ms = now; last_job_time_ms = t.time_base_ms })
    unfolding init_store replay Replay.init
    Loaded-Recovers true now wal t (fresh, _) (w, made, same) = inr (
      Replay.init,
      empty_index,
      ap (λ (x : Store Wal). replay grows (Replay.init, empty_index) (written x.wal)) same
          ∙ ap (replay grows (Replay.init, empty_index)) (fresh wal w made),
      recovered-Mirrors Replay.init empty_index _ init-IsRecovered
          (ap (λ (x : Store Wal). x.jobs) same) (ap (λ (x : Store Wal). x.workers) same)
          (ap (λ (x : Store Wal). x.time_base_ms) same),
    )
    Loaded-Recovers false now wal t (_, old) (w, r, made, same) =
        let (index, replayed, fits) = old wal w r made in
        inr (
          r,
          index,
          ap (λ (x : Store Wal). replay grows (Replay.init, empty_index) (written x.wal)) same
              ∙ replayed,
          recovered-Mirrors r index _
              (replay-IsRecovered grows Replay.init r empty_index index (written w) replayed fits
                init-IsRecovered)
              (ap (λ (x : Store Wal). x.jobs) same) (ap (λ (x : Store Wal). x.workers) same)
              (ap (λ (x : Store Wal). x.time_base_ms) same),
        )

    -- What the log holds after a session in which the store did not fail: replay leads to the published
    -- jobs and queue, the next worker ID and the last job time, or it runs out of memory.
    abbrev pub IsDurableLog : Store Wal → Type 0
    IsDurableLog q =
        (replay grows (Replay.init, empty_index) (written q.wal) ≡ err no_memory)
        ⊎ ((s : ReplayState) × (index : WorkerIndex) × (replay grows (Replay.init, empty_index)
                (written q.wal)
              ≡ ok (s, index))
            × (s.scheduler ≡ q.jobs)
            × (s.workers.next_worker_id ≡ q.workers.next_worker_id)
            × (s.job_time_base_ms ≡ q.last_job_time_ms))

    durable_log :
        (q : Store Wal)
        → Recovers next_sequence append written grows q ⊎ HasFailed q
        → q.failure ≡ none
        → IsDurableLog q
    durable_log q (inl (inl full)) e = inl full
    durable_log q (inl (inr (s, index, replayed, v))) e =
        inr (s, index, replayed, v.jobs, v.next_worker, v.time)
    durable_log q (inr (f, failed)) e = absurd (ground arith)

    -- A session of the coordinator: the store is opened, on a new log or on the log of an earlier
    -- session, the interrupted jobs are recovered, and any calls are served, with heartbeats and lost
    -- connections between them. If the store has not failed by then, its log replays to the jobs and the
    -- queue that it has published, to its next worker ID and to its last job time, unless the replay
    -- runs out of memory. The writer puts the bytes of each record that it accepts behind the others, and
    -- opening and creation of the log do what they promise.
    pub session_replayed :
        (b : Bool) (now : ℤ) (wal : Wal) (st : Store Wal) (cs : List StoreCall)
        → IsWriter next_sequence append written grows
        → IsLog
        → open_store next_sequence append in_use create replay_open close_wal b now (init_store wal)
          ≡ (ok tt, st)
        → All CallFits cs
        → (run next_sequence append st cs).failure ≡ none
        → IsDurableLog (run next_sequence append st cs)
    unfolding recover_interrupted_jobs
    session_replayed b now wal st cs writer log h fits healthy =
        let (t, u, load, recovered, result) =
          open_store_ok next_sequence append in_use create replay_open close_wal b now
            (init_store wal) h in
        let begun = Loaded-Recovers b now wal t log load in
        let ready = recover_from-Recovers _ u 0 (length t.jobs.jobs) now writer recovered begun in
        let opened =
          Published-Recovers u st
            (
              ap (λ (x : Store Wal). x.jobs) result,
              ap (λ (x : Store Wal). x.workers) result,
              ap (λ (x : Store Wal). x.wal) result,
              ap (λ (x : Store Wal). x.last_job_time_ms) result,
            )
            ready in
        durable_log (run next_sequence append st cs)
          (run-Recovers next_sequence append written grows st cs writer fits (inl opened)) healthy
