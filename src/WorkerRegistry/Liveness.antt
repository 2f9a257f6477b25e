-- ===== src/WorkerRegistry/Liveness.antt =====
-- Who may speak for a worker: histories of the registry's calls, and the lease.
use flatline_c.Prelude.{
  ℕ, zero, suc, ◌+◌, ◌<◌, ◌≡◌, ◌≢◌, ◌⊎◌, inl, inr, refl, false, ◌&&◌, Option, some, List, [], ◌∷◌,
  arith, ◌==◌, leb, get_elem?, set, get_elem?-set, some_inj, All, All-map, All-set, All-get, subst,
  sym,
}
use flatline_c.Prelude.Int.{ℤ, pos}
use flatline_c.Prelude.Result.{Result, ok, err, Result-cases}
use flatline_c.WorkerRegistry.{
  Worker, alive, Registry, RegistryError, is_alive, timed_out, register, heartbeat, mark_dead,
}
use flatline_c.WorkerRegistry.Invariant.{
  IsValid, bound, IsUnique, AreApart, IsIssued, newcomer, register-IsValid, heartbeat-IsValid,
  mark_dead-IsValid, register_effect, find_live_effect, heartbeat_effect, mark_dead_effect, beaten,
  buried,
}

pub data Call : Type 0 where
  registers : ℤ → ℤ → Call
  beats : ℕ → ℤ → ℤ → Call
  loses : ℕ → ℤ → Call

abbrev keep_id : Registry → Result RegistryError (ℕ × Registry) → Option ℕ × Registry
keep_id r (ok (id, q)) = (some id, q)
keep_id r (err e) = (Option.none, r)

abbrev keep : Registry → Result RegistryError Registry → Option ℕ × Registry
keep r (ok q) = (Option.none, q)
keep r (err e) = (Option.none, r)

-- The ID that the call issues, if any, and the table that it leaves.
abbrev pub perform : Registry → Call → Option ℕ × Registry
perform r (registers fd t) = keep_id r (register r fd t)
perform r (beats id fd t) = keep r (heartbeat r id fd t)
perform r (loses id fd) = keep r (mark_dead r id fd)

abbrev cons_id : Option ℕ → List ℕ → List ℕ
cons_id Option.none ids = ids
cons_id (some id) ids = id ∷ ids

-- The IDs that a history issues, in order.
unfoldable pub issued : Registry → List Call → List ℕ
issued r [] = []
issued r (c ∷ cs) = cons_id (perform r c).0 (issued (perform r c).1 cs)

unfoldable pub after : Registry → List Call → Registry
after r [] = r
after r (c ∷ cs) = after (perform r c).1 cs

-- Each is above `n` and above those before it.
abbrev pub IsAscending : ℕ → List ℕ → Type 0
IsAscending n [] = Unit {0}
IsAscending n (id ∷ ids) = (n < id) × IsAscending id ids

-- The allocator is past `n`, or exhausted.
abbrev IsPast : ℕ → Registry → Type 0
IsPast n r = (r.next_worker_id ≡ 0) ⊎ (n < r.next_worker_id)

abbrev Advances : ℕ → Option ℕ × Registry → Type 0
Advances n (Option.none, q) = IsPast n q
Advances n (some id, q) = (n < id) × IsPast id q

registers-Advances :
    (n : ℕ) (r : Registry) (fd t : ℤ) (x : Result RegistryError (ℕ × Registry))
    → register r fd t ≡ x
    → IsPast n r
    → Advances n (keep_id r x)
registers-Advances n r fd t (err e) h p = p
registers-Advances n r fd t (ok (id, q)) h p =
    let (slot, _, _, given, next, positive, _) = register_effect r fd t h in
    (ground arith, ground arith)

beats-Advances :
    (n : ℕ) (r : Registry) (id : ℕ) (fd t : ℤ) (x : Result RegistryError Registry)
    → heartbeat r id fd t ≡ x
    → IsPast n r
    → Advances n (keep r x)
beats-Advances n r id fd t (err e) h p = p
beats-Advances n r id fd t (ok q) h p =
    let (slot, w, _, result, _, _) = heartbeat_effect r id fd t h in subst (IsPast n) (sym result) p

loses-Advances :
    (n : ℕ) (r : Registry) (id : ℕ) (fd : ℤ) (x : Result RegistryError Registry)
    → mark_dead r id fd ≡ x
    → IsPast n r
    → Advances n (keep r x)
loses-Advances n r id fd (err e) h p = p
loses-Advances n r id fd (ok q) h p =
    let (slot, w, _, result) = mark_dead_effect r id fd h in subst (IsPast n) (sym result) p

perform-Advances : (n : ℕ) (r : Registry) (c : Call) → IsPast n r → Advances n (perform r c)
perform-Advances n r (registers fd t) p = registers-Advances n r fd t (register r fd t) refl p
perform-Advances n r (beats id fd t) p = beats-Advances n r id fd t (heartbeat r id fd t) refl p
perform-Advances n r (loses id fd) p = loses-Advances n r id fd (mark_dead r id fd) refl p

cons_id-IsAscending :
    (n : ℕ) (o : Option ℕ) (q : Registry) (ids : List ℕ)
    → Advances n (o, q)
    → ((m : ℕ) → IsPast m q → IsAscending m ids)
    → IsAscending n (cons_id o ids)
cons_id-IsAscending n Option.none q ids a tail = tail n a
cons_id-IsAscending n (some id) q ids a tail = (a.0, tail id a.1)

issued-IsAscending_past :
    (r : Registry) (cs : List Call) (n : ℕ) → IsPast n r → IsAscending n (issued r cs)
unfolding issued
issued-IsAscending_past r [] n p = tt
issued-IsAscending_past r (c ∷ cs) n p =
    cons_id-IsAscending n (perform r c).0 (perform r c).1 (issued (perform r c).1 cs)
      (perform-Advances n r c p) (issued-IsAscending_past (perform r c).1 cs)

-- Whatever the history of the registry, every ID that it issues is positive and above all the IDs
-- issued before it: none is ever issued twice.
pub issued-IsAscending : (r : Registry) (cs : List Call) → IsAscending 0 (issued r cs)
issued-IsAscending r cs = issued-IsAscending_past r cs 0 (ground arith)

perform-IsValid : (r : Registry) (c : Call) → IsValid r → IsValid (perform r c).1
perform-IsValid r (registers fd t) v = elim (Result-cases (register r fd t)) [
  | inl ((id, q), e) ↦ rw e (register-IsValid r fd t id q e v)
  | inr (x, e) ↦ rw e v
]
perform-IsValid r (beats id fd t) v = elim (Result-cases (heartbeat r id fd t)) [
  | inl (q, e) ↦ rw e (heartbeat-IsValid r id fd t q e v)
  | inr (x, e) ↦ rw e v
]
perform-IsValid r (loses id fd) v = elim (Result-cases (mark_dead r id fd)) [
  | inl (q, e) ↦ rw e (mark_dead-IsValid r id fd q e v)
  | inr (x, e) ↦ rw e v
]

-- After any history of a valid table it has 64 slots, records in use have distinct issued IDs and
-- live records distinct connections.
pub after-IsValid : (r : Registry) (cs : List Call) → IsValid r → IsValid (after r cs)
unfolding after
after-IsValid r [] v = v
after-IsValid r (c ∷ cs) v = after-IsValid (perform r c).1 cs (perform-IsValid r c v)

-- No live record has the ID.
abbrev IsGone : ℕ → Worker → Type 0
IsGone id w = is_alive w.state && w.id == id ≡ false

IsGone-buried :
    (ws : List Worker) (i : ℕ) (w : Worker)
    → get_elem? ws i ≡ some w
    → w.state ≡ alive
    → IsUnique ws
    → All (IsGone w.id) (set ws i (buried w))
IsGone-buried [] i w e a u = tt
IsGone-buried (x ∷ ws) zero w e a u =
    (refl, All-map ws (λ y b. ground arith) (subst (λ z. All (AreApart z) ws) (some_inj.0 e) u.0))
IsGone-buried (x ∷ ws) (suc i) w e a u =
    let b = All-get (AreApart x) ws i e u.0 in (ground arith, IsGone-buried ws i w e a u.1)

-- The worker `id` is lost, and its ID cannot be issued again.
abbrev IsLost : ℕ → Registry → Type 0
IsLost id r = All (IsGone id) r.workers × (0 < id) × (id < bound r.next_worker_id)

perform-IsLost : (id : ℕ) (r : Registry) (c : Call) → IsLost id r → IsLost id (perform r c).1
perform-IsLost id r (registers fd t) l = elim (Result-cases (register r fd t)) [
  | inl ((new, q), e) ↦
      let (slot, _, table, given, next, positive, _) = register_effect r fd t e in
      rw e (
        rw table (
            All-set (IsGone id) r.workers slot (newcomer r.next_worker_id fd t) l.0 (ground arith)),
        l.1,
        ground arith,
      )
  | inr (x, e) ↦ rw e l
]
perform-IsLost id r (beats jd fd t) l = elim (Result-cases (heartbeat r jd fd t)) [
  | inl (q, e) ↦
      let (slot, w, found, result, _, _) = heartbeat_effect r jd fd t e in
      rw (e, result)
        (
          All-set (IsGone id) r.workers slot (beaten w t) l.0
              (All-get (IsGone id) r.workers slot (find_live_effect r jd fd found).0 l.0),
          l.1,
          l.2,
        )
  | inr (x, e) ↦ rw e l
]
perform-IsLost id r (loses jd fd) l = elim (Result-cases (mark_dead r jd fd)) [
  | inl (q, e) ↦
      let (slot, w, found, result) = mark_dead_effect r jd fd e in
      rw (e, result) (All-set (IsGone id) r.workers slot (buried w) l.0 refl, l.1, l.2)
  | inr (x, e) ↦ rw e l
]

after-IsLost : (id : ℕ) (r : Registry) (cs : List Call) → IsLost id r → IsLost id (after r cs)
unfolding after
after-IsLost id r [] l = l
after-IsLost id r (c ∷ cs) l = after-IsLost id (perform r c).1 cs (perform-IsLost id r c l)

mark_dead-IsLost :
    (r : Registry) (id : ℕ) (fd : ℤ) (q : Registry)
    → mark_dead r id fd ≡ ok q
    → IsValid r
    → IsLost id q
mark_dead-IsLost r id fd q h v =
    let (slot, w, found, result) = mark_dead_effect r id fd h in
    let (there, live, _, same) = find_live_effect r id fd found in
    let known : IsIssued (bound r.next_worker_id) w = All-get _ r.workers slot there v.issued in
    rw (result, ← same)
      (IsGone-buried r.workers slot w there live v.unique, ground arith, ground arith)

-- A worker that was marked dead stays dead: whatever the registry does later, no heartbeat for its
-- ID is accepted, on any connection.
pub lost_worker_stays_lost :
    (r : Registry) (id : ℕ) (fd : ℤ) (q : Registry) (cs : List Call) (fd' t : ℤ) (s : Registry)
    → IsValid r
    → mark_dead r id fd ≡ ok q
    → heartbeat (after q cs) id fd' t ≢ ok s
lost_worker_stays_lost r id fd q cs fd' t s v h e =
    let l = after-IsLost id q cs (mark_dead-IsLost r id fd q h v) in
    let (slot, w, found, _, _, _) = heartbeat_effect (after q cs) id fd' t e in
    let (there, live, _, same) = find_live_effect (after q cs) id fd' found in
    let gone = All-get (IsGone id) (after q cs).workers slot there l.0 in ground arith

-- After an accepted heartbeat of time `t` the lease of that worker lasts until `t + timeout`: from
-- then on, and not before, its record has timed out. A dead record never does.
pub heartbeat_lease :
    (r : Registry) (id : ℕ) (fd : ℤ) (t timeout now : ℕ) (q : Registry)
    → heartbeat r id fd (pos t) ≡ ok q
    → 0 < timeout
    → (slot : ℕ) × (w : Worker) × (get_elem? q.workers slot ≡ some w)
      × (w.id ≡ id)
      × (timed_out w (pos now) (pos timeout) ≡ leb (t + timeout) now)
      × (timed_out (buried w) (pos now) (pos timeout) ≡ false)
unfolding timed_out
heartbeat_lease r id fd t timeout now q h positive =
    let (slot, w, found, result, _, _) = heartbeat_effect r id fd (pos t) h in
    let (there, live, _, same) = find_live_effect r id fd found in
    (
      slot,
      beaten w (pos t),
      rw result (get_elem?-set r.workers slot (beaten w (pos t)) there),
      same,
      ground arith,
      ground arith,
    )
