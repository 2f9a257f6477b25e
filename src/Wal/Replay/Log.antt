-- ===== src/Wal/Replay/Log.antt =====
-- A sequence of records, replayed one after the other.
use flatline_c.Prelude.{ℕ, Bool, inl, inr, subst, All, ◌≡◌, refl, List, [], ◌∷◌, ◌++◌}
use flatline_c.Prelude.Result.{Result, ok, err, ◌>>=◌, Result-cases, ok_inj}
use flatline_c.Wal.Format.{Record}
use flatline_c.Wal.Replay.Index.{WorkerIndex, ReplayError}
use flatline_c.Wal.Replay.{ReplayState, apply_record}
use flatline_c.Wal.Replay.Recovered.{IsRecovered, EntryBounds, apply_record-IsRecovered}

-- A record with its bytes.
abbrev pub LoggedRecord : Type 0
LoggedRecord = Record × List ℕ

-- `state->last_sequence = sequence`, after the record is applied.
abbrev pub numbered : ℕ → ReplayState × WorkerIndex → Result ReplayError (ReplayState × WorkerIndex)
numbered sequence (s, index) = ok (record s { last_sequence = sequence }, index)

module _ (grows : ℕ → Bool) where
  -- What a round of `read_history` does with a record that it has decoded.
  unfoldable pub accept :
      ReplayState × WorkerIndex → LoggedRecord → Result ReplayError (ReplayState × WorkerIndex)
  accept (s, index) (r, wire) = apply_record grows s index r wire >>= numbered r.sequence

  -- The calls of `apply_record` in `read_history`.
  unfoldable pub replay :
      ReplayState × WorkerIndex → List LoggedRecord → Result ReplayError (ReplayState × WorkerIndex)
  replay p [] = ok p
  replay p (l ∷ log) = accept p l >>= λ q. replay q log

  bind_last : (m : Result ReplayError (ReplayState × WorkerIndex)) → (m >>= λ p. replay p []) ≡ m
  unfolding replay
  bind_last (ok p) = refl
  bind_last (err e) = refl

  bind_more :
      (m : Result ReplayError (ReplayState × WorkerIndex)) (log more : List LoggedRecord)
      (f : ReplayState × WorkerIndex → Result ReplayError (ReplayState × WorkerIndex))
      → ((p : ReplayState × WorkerIndex) → replay p more ≡ (replay p log >>= f))
      → (m >>= λ p. replay p more) ≡ ((m >>= λ p. replay p log) >>= f)
  bind_more (ok p) log more f h = h p
  bind_more (err e) log more f h = refl

  pub replay-append :
      (p : ReplayState × WorkerIndex) (log : List LoggedRecord) (l : LoggedRecord)
      → replay p (log ++ l ∷ []) ≡ (replay p log >>= λ q. accept q l)
  unfolding replay
  replay-append p [] l = bind_last (accept p l)
  replay-append p (x ∷ log) l =
      bind_more (accept p x) log (log ++ l ∷ []) (λ q. accept q l) (λ q. replay-append q log l)

  pub IsRecovered-numbered :
      (s : ReplayState) (index : WorkerIndex) (sequence : ℕ)
      → IsRecovered s index
      → IsRecovered (record s { last_sequence = sequence }) index
  IsRecovered-numbered s index sequence v = record {
    store = v.store;
    word = v.word;
    worker_word = v.worker_word;
    next_job = v.next_job;
    indexed = v.indexed;
    next_worker = v.next_worker;
    idle = v.idle;
  }

  accept-IsRecovered :
      (p q : ReplayState × WorkerIndex) (l : LoggedRecord)
      → accept p l ≡ ok q
      → EntryBounds l.0.entry
      → IsRecovered p.0 p.1
      → IsRecovered q.0 q.1
  unfolding accept
  accept-IsRecovered (s, index) q (r, wire) h b v =
      elim (Result-cases (apply_record grows s index r wire)) [
        | inr (e, f) ↦ let h' = rw f at h in cc
        | inl ((t, i), f) ↦
            subst (λ (x : ReplayState × WorkerIndex). IsRecovered x.0 x.1) (ok_inj (rw f at h))
              (IsRecovered-numbered t i r.sequence
                (apply_record-IsRecovered grows s t index i r.sequence r.entry wire f b v))
      ]

  -- A replayed log of records that fit their fields leaves the recovered state in order.
  pub replay-IsRecovered :
      (s s' : ReplayState) (index index' : WorkerIndex) (log : List LoggedRecord)
      → replay (s, index) log ≡ ok (s', index')
      → All (λ (l : LoggedRecord). EntryBounds l.0.entry) log
      → IsRecovered s index
      → IsRecovered s' index'
  unfolding replay
  replay-IsRecovered s s' index index' [] h b v = subst (λ p. IsRecovered p.0 p.1) (ok_inj h) v
  replay-IsRecovered s s' index index' (l ∷ log) h b v = elim (Result-cases (accept (s, index) l)) [
    | inr (e, f) ↦ let h' = rw f at h in cc
    | inl ((t, i), f) ↦
        replay-IsRecovered t s' i index' log (rw f at h) b.1
          (accept-IsRecovered (s, index) (t, i) l f b.0 v)
  ]
