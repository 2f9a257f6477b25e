-- ===== src/CoordinatorStore/Restart.antt =====
-- Opening the store: what a restart finds in the log is what the last session published.
use flatline_c.Prelude.{ℕ, ◌≡◌, refl, sym, ap, subst, Bool, true, false, ◌||◌, All, arith}
use flatline_c.Prelude.Int.{ℤ, is_neg}
use flatline_c.Prelude.Result.{Result, ok, err}
use flatline_c.Scheduler.{is_active}
use flatline_c.Scheduler.Invariant.{IsValid, init-IsValid}
use flatline_c.Wal.Format.{Record}
use flatline_c.Wal.Replay.{ReplayState}
use flatline_c.Wal.Replay.Index.{ReplayError}
use flatline_c.CoordinatorStore.State.{Store, StoreError, fatal, clock_failure, fail_if}
use flatline_c.CoordinatorStore.{has_failed}
use flatline_c.CoordinatorStore.Effects.{continued, fail_if_ok, guarded_ok}
use flatline_c.CoordinatorStore.Open.{
  init_store, recover_interrupted_jobs, created, replayed, loaded, open_store,
}
use flatline_c.CoordinatorStore.Interrupted.{recover_interrupted_jobs-idle}

module _ {Wal : Type 0} (next_sequence : Wal → ℕ) (append : Wal → Record → Bool × Wal)
    (in_use : Wal → Bool) (create : Wal → Bool × Wal)
    (replay_open : Wal → Result ReplayError ReplayState × Wal) (close_wal : Wal → Bool × Wal) where
  -- The writer and the state that `open_store` starts from.
  abbrev pub Loaded : Bool → Store Wal → Store Wal → Type 0
  Loaded true s t = (w : Wal) × (create s.wal ≡ (true, w)) × (t ≡ record s { wal = w })
  Loaded false s t =
      (w : Wal) × (r : ReplayState) × (replay_open s.wal ≡ (ok r, w))
      × (t ≡ record s {
        wal = w;
        jobs = r.scheduler;
        workers = r.workers;
        time_base_ms = r.job_time_base_ms;
      })

  after_call :
      {A : Type 0} {r : Result StoreError A × Store Wal} {a : A} {q : Store Wal}
      → r ≡ (ok a, q)
      → q ≡ r.1
  after_call {A} h = ap (λ (x : Result StoreError A × Store Wal). x.1) (sym h)

  loaded_ok :
      (b : Bool) (s t : Store Wal)
      → loaded next_sequence append in_use create replay_open close_wal b s ≡ (ok tt, t)
      → Loaded b s t
  loaded_ok true s t h = by_answer (create s.wal) refl h
    where
      by_answer :
          (x : Bool × Wal)
          → create s.wal ≡ x
          → created next_sequence append in_use create replay_open close_wal x s ≡ (ok tt, t)
          → Loaded true s t
      by_answer (true, w) e k = (w, e, after_call k)
      by_answer (false, w) e k = absurd (ground arith)
  loaded_ok false s t h = by_answer (replay_open s.wal) refl h
    where
      by_answer :
          (x : Result ReplayError ReplayState × Wal)
          → replay_open s.wal ≡ x
          → replayed next_sequence append in_use create replay_open close_wal x s ≡ (ok tt, t)
          → Loaded false s t
      by_answer (ok r, w) e k = (w, r, e, after_call k)
      by_answer (err x, w) e k = absurd (ground arith)

  -- The parts of an opening that succeeds.
  pub open_store_ok :
      (b : Bool) (now : ℤ) (s : Store Wal) {q : Store Wal}
      → open_store next_sequence append in_use create replay_open close_wal b now s ≡ (ok tt, q)
      → (t u : Store Wal) × Loaded b s t
        × (recover_interrupted_jobs next_sequence append now
              (record t { session_start_ms = now; last_job_time_ms = t.time_base_ms })
            ≡ (ok tt, u))
        × (q ≡ record u { opened = true })
  unfolding open_store
  open_store_ok b now s h =
      let (_, h1) = guarded_ok (s.opened || in_use s.wal || has_failed s.failure) fatal _ s h in
      let (_, s1, e1, h2) = continued _ (fail_if (is_neg now) clock_failure s) h1 in
      let (_, same) = fail_if_ok (is_neg now) clock_failure s e1 in
      let (_, t, e2, h3) =
        continued _ (loaded next_sequence append in_use create replay_open close_wal b s1) h2 in
      let (_, u, e3, h4) =
        continued _
          (recover_interrupted_jobs next_sequence append now
            (record t { session_start_ms = now; last_job_time_ms = t.time_base_ms }))
          h3 in
      (t, u, subst (λ x. Loaded b x t) same (loaded_ok b s1 t e2), e3, after_call h4)

  -- When the log replays only to valid job stores, the store that a successful opening leaves
  -- serves calls, holds a valid job store, and has no attempt under way: no job is ASSIGNED or
  -- RUNNING.
  pub open_store-idle :
      (b : Bool) (now : ℤ) (wal : Wal) (q : Store Wal)
      → ((w w' : Wal) (r : ReplayState) → replay_open w ≡ (ok r, w') → IsValid r.scheduler)
      → open_store next_sequence append in_use create replay_open close_wal b now (init_store wal)
        ≡ (ok tt, q)
      → (q.opened ≡ true) × IsValid q.jobs × All (λ j. is_active j.state ≡ false) q.jobs.jobs
  unfolding init_store
  open_store-idle b now wal q law h =
      let (t, u, load, recovered, result) = open_store_ok b now (init_store wal) h in
      let (v, idle) =
        recover_interrupted_jobs-idle next_sequence append now _ u recovered (valid b t load) in
      subst
        (λ (x : Store Wal).
          (x.opened ≡ true) × IsValid x.jobs × All (λ j. is_active j.state ≡ false) x.jobs.jobs)
        (sym result) (refl, v, idle)
    where
      valid : (b : Bool) (t : Store Wal) → Loaded b (init_store wal) t → IsValid t.jobs
      valid true t (w, e, same) = subst (λ (x : Store Wal). IsValid x.jobs) (sym same) init-IsValid
      valid false t (w, r, e, same) =
          subst (λ (x : Store Wal). IsValid x.jobs) (sym same) (law wal w r e)
