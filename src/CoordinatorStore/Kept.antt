-- ===== src/CoordinatorStore/Kept.antt =====
-- What every accepted append keeps of the log holds after a session of the store that has not failed.
use flatline_c.Prelude.{
  ℕ, zero, suc, ◌+◌, ◌≡◌, ◌⊎◌, inl, inr, sym, ap, subst, Bool, true, false, none, List, [], ◌∷◌,
  get_elem?, length, arith,
}
use flatline_c.Prelude.Int.{ℤ}
use flatline_c.Prelude.Result.{Result, ok, Result-cases}
use flatline_c.WorkerRegistry.{heartbeat, mark_dead}
use flatline_c.Wal.Format.{Record}
use flatline_c.Wal.Replay.{ReplayState}
use flatline_c.Wal.Replay.Index.{ReplayError}
use flatline_c.CoordinatorStore.State.{Store, StoreError}
use flatline_c.CoordinatorStore.{register, submit, assign, report, worker_lost}
use flatline_c.CoordinatorStore.Clean.{
  HasFailed, Clean, register-IsClean, submit-IsClean, assign-IsClean, report-IsClean,
  worker_lost-IsClean,
}
use flatline_c.CoordinatorStore.Durable.{Logged, store-Durable}
use flatline_c.CoordinatorStore.Effects.{continued, commit_worker_loss_ok}
use flatline_c.CoordinatorStore.Open.{
  init_store, recover_from, recover_job, recover_interrupted_jobs, open_store,
}
use flatline_c.CoordinatorStore.Interrupted.{recover_job_ok}
use flatline_c.CoordinatorStore.Recovery.{
  StoreCall, registers, submits, assigns, reports, loses, beats, closes, no_job, no_message,
  perform, run, perform_failed, Durable-Logged,
}
use flatline_c.CoordinatorStore.Restart.{Loaded, open_store_ok}

module _ {Wal : Type 0} (next_sequence : Wal → ℕ) (append : Wal → Record → Bool × Wal)
    (P : Wal → Type 0) where
  abbrev pub IsKept : Type 0
  IsKept = (w w' : Wal) (r : Record) → append w r ≡ (true, w') → P w → P w'

  logged-Keeps : (s q : Store Wal) → IsKept → Logged next_sequence append s q → P s.wal → P q.wal
  logged-Keeps s q keep (entry, took) v = keep s.wal q.wal _ took v

  call-Keeps :
      {A : Type 0} (s : Store Wal) (r : Result StoreError A × Store Wal)
      → IsKept
      → Clean s r
      → ((a : A) → r ≡ (ok a, r.1) → Logged next_sequence append s r.1)
      → P s.wal
      → P r.1.wal ⊎ HasFailed r.1
  call-Keeps s (r, q) keep (inr (inl same)) d v =
      inl (subst (λ (x : Store Wal). P x.wal) (sym same) v)
  call-Keeps s (r, q) keep (inr (inr failed)) d v = inr failed
  call-Keeps s (r, q) keep (inl (a, e)) d v =
      inl (logged-Keeps s q keep (d a (ap (λ x. (x, q)) e)) v)

  perform-Keeps :
      (s : Store Wal) (c : StoreCall)
      → IsKept
      → P s.wal
      → P (perform next_sequence append s c).wal ⊎ HasFailed (perform next_sequence append s c)
  unfolding perform
  perform-Keeps s (registers fd now) keep v =
      call-Keeps s (register next_sequence append fd now s) keep
        (register-IsClean next_sequence append fd now s)
        (Durable-Logged next_sequence append (λ w. []) (λ n. true) s
          (register next_sequence append fd now s)
          ((store-Durable next_sequence append s fd now no_job 0 no_message).0))
        v
  perform-Keeps s (submits p now) keep v =
      call-Keeps s (submit next_sequence append p now s) keep
        (submit-IsClean next_sequence append p now s)
        (Durable-Logged next_sequence append (λ w. []) (λ n. true) s
          (submit next_sequence append p now s)
          ((store-Durable next_sequence append s now now p 0 no_message).1))
        v
  perform-Keeps s (assigns w now) keep v =
      call-Keeps s (assign next_sequence append w now s) keep
        (assign-IsClean next_sequence append w now s)
        (Durable-Logged next_sequence append (λ w. []) (λ n. true) s
          (assign next_sequence append w now s)
          ((store-Durable next_sequence append s now now no_job w no_message).2))
        v
  perform-Keeps s (reports w m now) keep v =
      call-Keeps s (report next_sequence append w m now s) keep
        (report-IsClean next_sequence append w m now s)
        (Durable-Logged next_sequence append (λ w. []) (λ n. true) s
          (report next_sequence append w m now s)
          ((store-Durable next_sequence append s now now no_job w m).3))
        v
  perform-Keeps s (loses w now) keep v =
      call-Keeps s (worker_lost next_sequence append w now s) keep
        (worker_lost-IsClean next_sequence append w now s)
        (Durable-Logged next_sequence append (λ w. []) (λ n. true) s
          (worker_lost next_sequence append w now s)
          ((store-Durable next_sequence append s now now no_job w no_message).4))
        v
  perform-Keeps s (beats id fd now) keep v = elim (Result-cases (heartbeat s.workers id fd now)) [
    | inl (r, h) ↦ rw h (inl v)
    | inr (x, h) ↦ rw h (inl v)
  ]
  perform-Keeps s (closes id fd) keep v = elim (Result-cases (mark_dead s.workers id fd)) [
    | inl (r, h) ↦ rw h (inl v)
    | inr (x, h) ↦ rw h (inl v)
  ]

  run-Keeps :
      (s : Store Wal) (cs : List StoreCall)
      → IsKept
      → P s.wal ⊎ HasFailed s
      → P (run next_sequence append s cs).wal ⊎ HasFailed (run next_sequence append s cs)
  unfolding run
  run-Keeps s [] keep v = v
  run-Keeps s (c ∷ cs) keep (inl v) =
      run-Keeps (perform next_sequence append s c) cs keep (perform-Keeps s c keep v)
  run-Keeps s (c ∷ cs) keep (inr (f, e)) =
      run-Keeps (perform next_sequence append s c) cs keep
        (inr (perform_failed next_sequence append (λ w. []) (λ n. true) s c (f, e)))

  recover_from-Keeps :
      (s q : Store Wal) (i rounds : ℕ) (now : ℤ)
      → IsKept
      → recover_from next_sequence append i rounds now s ≡ (ok tt, q)
      → P s.wal
      → P q.wal
  unfolding recover_from
  recover_from-Keeps s q i zero now keep h v =
      subst (λ (x : Store Wal). P x.wal)
        (ap (λ (x : Result StoreError (Unit {0}) × Store Wal). x.1) h) v
  recover_from-Keeps s q i (suc rounds) now keep h v =
      let (u, t, e, h') =
        continued (λ u. recover_from next_sequence append (i + 1) rounds now)
          (recover_job next_sequence append (get_elem? s.jobs.jobs i) now s) h in
      recover_from-Keeps t q (i + 1) rounds now keep h'
        (elim (recover_job_ok next_sequence append now s (get_elem? s.jobs.jobs i) e) [
          | inl (same, _) ↦ subst (λ (x : Store Wal). P x.wal) (sym same) v
          | inr (job, r, _, _, committed, result) ↦
              let (_, _, _, _, _, _, (c, _, (took, _, _, _))) =
                commit_worker_loss_ok next_sequence append s job.worker_id now committed in
              subst (λ (x : Store Wal). P x.wal) (sym result) (keep s.wal r.wal _ took v)
        ])

  module _ (in_use : Wal → Bool) (create : Wal → Bool × Wal)
      (replay_open : Wal → Result ReplayError ReplayState × Wal)
      (close_wal : Wal → Bool × Wal) where
    -- What creation and replay of a log establish.
    abbrev pub IsOpened : Type 0
    IsOpened =
        ((w w' : Wal) → create w ≡ (true, w') → P w')
        × ((w w' : Wal) (r : ReplayState) → replay_open w ≡ (ok r, w') → P w')

    Loaded-Keeps :
        (b : Bool) (s t : Store Wal)
        → IsOpened
        → Loaded next_sequence append in_use create replay_open close_wal b s t
        → P t.wal
    Loaded-Keeps true s t law (w, made, same) =
        subst (λ (x : Store Wal). P x.wal) (sym same) (law.0 s.wal w made)
    Loaded-Keeps false s t law (w, r, made, same) =
        subst (λ (x : Store Wal). P x.wal) (sym same) (law.1 s.wal w r made)

    pub session-Keeps :
        (b : Bool) (now : ℤ) (wal : Wal) (s : Store Wal) (cs : List StoreCall)
        → IsKept
        → IsOpened
        → open_store next_sequence append in_use create replay_open close_wal b now (init_store wal)
          ≡ (ok tt, s)
        → (run next_sequence append s cs).failure ≡ none
        → P (run next_sequence append s cs).wal
    unfolding recover_interrupted_jobs
    session-Keeps b now wal s cs keep law h healthy =
        let (t, u, load, recovered, result) =
          open_store_ok next_sequence append in_use create replay_open close_wal b now
            (init_store wal) h in
        let begun = Loaded-Keeps b (init_store wal) t law load in
        let ready = recover_from-Keeps _ u 0 (length t.jobs.jobs) now keep recovered begun in
        elim (run-Keeps s cs keep (inl (subst (λ (x : Store Wal). P x.wal) (sym result) ready))) [
          | inl v ↦ v
          | inr (f, failed) ↦ absurd (ground arith)
        ]
