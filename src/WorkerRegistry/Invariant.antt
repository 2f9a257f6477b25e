-- ===== src/WorkerRegistry/Invariant.antt =====
-- What the table satisfies between calls, and that every call of worker_registry.c keeps it.
use flatline_c.Prelude.{
  ℕ, zero, suc, ◌+◌, ◌^◌, ◌≤◌, ◌<◌, ◌≡◌, ◌⊎◌, inl, inr, refl, sym, ◌∙◌, Bool, false, not, ◌&&◌,
  ◌||◌, some, List, [], ◌∷◌, arith, ◌==◌, if◌then◌else◌, length, get_elem?, set, All, All-set,
  All-replicate, replicate, length-replicate, All-get, All-map, some_inj, subst, length-set,
  Bool-cases, Bool-cases,
}
use flatline_c.Prelude.Int.{ℤ, negsuc, ◌≤ℤ◌, neg_part, eqz}
use flatline_c.Prelude.Result.{ok, Result-cases}
use flatline_c.WorkerRegistry.{
  Worker, alive, dead, Registry, max_workers, init, is_alive, is_used, free_slot, next_id, blank,
  find_slot, register, find_live_connection, heartbeat, mark_dead,
}

-- IDs below this bound may have been issued; 0 stands for the exhausted allocator.
abbrev pub bound : ℕ → ℕ
bound next = if next == 0 then 2 ^ 32 else next

-- A record in use has an issued ID, and a live one has a connection.
abbrev pub IsIssued : ℕ → Worker → Type 0
IsIssued n w =
    ((is_used w.state ≡ false) ⊎ ((0 < w.id) × (w.id < n)))
    × ((is_alive w.state ≡ false) ⊎ (neg_part w.fd ≡ 0))

-- Two records in use share an ID, or two live ones a connection.
abbrev pub clash : Worker → Worker → Bool
clash w u =
    (is_used w.state && is_used u.state && w.id == u.id)
    || (is_alive w.state && is_alive u.state && eqz w.fd u.fd)

abbrev pub AreApart : Worker → Worker → Type 0
AreApart w u = (clash w u ≡ false) × (clash u w ≡ false)

abbrev pub IsUnique : List Worker → Type 0
IsUnique [] = Unit {0}
IsUnique (w ∷ ws) = All (AreApart w) ws × IsUnique ws

pub record IsValid (r : Registry) : Type 0 where
  pub size : length r.workers ≡ max_workers
  pub word : r.next_worker_id < 2 ^ 32
  pub issued : All (IsIssued (bound r.next_worker_id)) r.workers
  pub unique : IsUnique r.workers

-- A record that is apart from all the others may take any slot.
IsUnique-set :
    (ws : List Worker) (i : ℕ) (v : Worker)
    → All (AreApart v) ws
    → IsUnique ws
    → IsUnique (set ws i v)
IsUnique-set [] i v a u = tt
IsUnique-set (w ∷ ws) zero v a u = (a.1, u.1)
IsUnique-set (w ∷ ws) (suc i) v a u =
    (All-set (AreApart w) ws i v u.0 (a.0.1, a.0.0), IsUnique-set ws i v a.1 u.1)

-- So may one that clashes with no more than the record that it replaces.
abbrev Follows : Worker → Worker → Type 0
Follows w v = (u : Worker) → AreApart u w → AreApart u v

IsUnique-replace :
    (ws : List Worker) (i : ℕ) (w v : Worker)
    → get_elem? ws i ≡ some w
    → Follows w v
    → IsUnique ws
    → IsUnique (set ws i v)
IsUnique-replace [] i w v e f u = tt
IsUnique-replace (x ∷ ws) zero w v e f u = (
  All-map ws (λ y a. let b = f y (subst (AreApart y) (some_inj.0 e) (a.1, a.0)) in (b.1, b.0)) u.0,
  u.1,
)
IsUnique-replace (x ∷ ws) (suc i) w v e f u = (
  All-set (AreApart x) ws i v u.0 (f x (All-get (AreApart x) ws i e u.0)),
  IsUnique-replace ws i w v e f u.1,
)

-- No live record has the connection that passed the scan.
abbrev IsOther : ℤ → Worker → Type 0
IsOther fd w = is_alive w.state && eqz w.fd fd ≡ false

free_slot-IsOther :
    (ws : List Worker) (fd : ℤ) (i slot : ℕ) {k : ℕ}
    → free_slot ws fd i slot ≡ ok k
    → All (IsOther fd) ws
unfolding free_slot
free_slot-IsOther [] fd i slot h = tt
free_slot-IsOther (w ∷ ws) fd i slot {k} h = elim (Bool-cases (is_alive w.state && eqz w.fd fd)) [
  | inl e ↦ ground arith
  | inr e ↦ (
    e,
    free_slot-IsOther ws fd (i + 1)
        (if not (is_alive w.state) && slot == max_workers then i else slot) {k = k} (ground arith),
  )
]

abbrev pub newcomer : ℕ → ℤ → ℤ → Worker
newcomer id fd t = record { id = id; fd = fd; state = alive; last_heartbeat_ms = t }

newcomer-AreApart :
    (ws : List Worker) (n id : ℕ) (fd t : ℤ)
    → n ≤ id
    → All (IsIssued n) ws
    → All (IsOther fd) ws
    → All (AreApart (newcomer id fd t)) ws
newcomer-AreApart [] n id fd t h a b = tt
newcomer-AreApart (w ∷ ws) n id fd t h a b =
    (ground arith, newcomer-AreApart ws n id fd t h a.1 b.1)

IsIssued-mono : (m n : ℕ) (ws : List Worker) → m ≤ n → All (IsIssued m) ws → All (IsIssued n) ws
IsIssued-mono m n [] h a = tt
IsIssued-mono m n (w ∷ ws) h a = (ground arith, IsIssued-mono m n ws h a.1)

pub register_effect :
    (r : Registry) (fd t : ℤ) {id : ℕ} {q : Registry}
    → register r fd t ≡ ok (id, q)
    → (slot : ℕ) × (free_slot r.workers fd 0 max_workers ≡ ok slot)
      × (q.workers ≡ set r.workers slot (newcomer r.next_worker_id fd t))
      × (id ≡ r.next_worker_id)
      × (q.next_worker_id ≡ next_id id)
      × (0 < id)
      × (neg_part fd ≡ 0)
unfolding register
register_effect r fd t h = elim (Result-cases (free_slot r.workers fd 0 max_workers)) [
  | inl (slot, e) ↦ (slot, e, ground arith, ground arith, ground arith, ground arith, ground arith)
  | inr (x, e) ↦ absurd (ground arith)
]

-- A registration keeps the table valid: IDs and live connections stay unique.
pub register-IsValid :
    (r : Registry) (fd t : ℤ) (id : ℕ) (q : Registry)
    → register r fd t ≡ ok (id, q)
    → IsValid r
    → IsValid q
register-IsValid r fd t id q h v =
    let (slot, e, table, given, next, positive, connected) = register_effect r fd t h in
    let v' : Worker = newcomer r.next_worker_id fd t in
    let fresh =
      newcomer-AreApart r.workers (bound r.next_worker_id) r.next_worker_id fd t (ground arith)
        v.issued (free_slot-IsOther r.workers fd 0 max_workers e) in
    record {
      size = rw (table, length-set) v.size;
      word = ground (arith, v.word);
      issued = rw table (
          All-set _ r.workers slot v'
            (IsIssued-mono (bound r.next_worker_id) (bound q.next_worker_id) r.workers
              (ground (arith, v.word)) v.issued)
            (ground (arith, v.word)));
      unique = rw table (IsUnique-set r.workers slot v' fresh v.unique);
    }

pub find_slot_hit :
    (ws : List Worker) (id : ℕ) {w : Worker} → get_elem? ws (find_slot ws id) ≡ some w → w.id ≡ id
unfolding find_slot
find_slot_hit [] id e = cc
find_slot_hit (x ∷ ws) id {w} e = elim (Bool-cases (is_used x.state && x.id == id)) [
  | inl hit ↦ let e' = rw hit at e in ground arith
  | inr miss ↦ find_slot_hit ws id (rw miss at e)
]

pub find_live_effect :
    (r : Registry) (id : ℕ) (fd : ℤ) {slot : ℕ} {w : Worker}
    → find_live_connection r id fd ≡ ok (slot, w)
    → (get_elem? r.workers slot ≡ some w) × (w.state ≡ alive) × (w.fd ≡ fd) × (w.id ≡ id)
unfolding find_live_connection
find_live_effect r id fd {slot} {w} h =
    (ground arith, ground arith, ground arith, ground (arith, find_slot_hit r.workers id {w = w}))

-- Replacing a live record by one of the same identity that is no more alive keeps the table valid.
replace-IsValid :
    (r : Registry) (slot : ℕ) (w v : Worker)
    → get_elem? r.workers slot ≡ some w
    → Follows w v
    → ((n : ℕ) → IsIssued n w → IsIssued n v)
    → IsValid r
    → IsValid (record r { workers = set r.workers slot v })
replace-IsValid r slot w v e f i h = record {
  size = length-set r.workers slot v ∙ h.size;
  word = h.word;
  issued = All-set _ r.workers slot v h.issued (i _ (All-get _ r.workers slot e h.issued));
  unique = IsUnique-replace r.workers slot w v e f h.unique;
}

abbrev pub beaten : Worker → ℤ → Worker
beaten w t = record w { last_heartbeat_ms = t }

abbrev pub buried : Worker → Worker
buried w = record w { state = dead; fd = negsuc 0 }

pub heartbeat_effect :
    (r : Registry) (id : ℕ) (fd t : ℤ) {q : Registry}
    → heartbeat r id fd t ≡ ok q
    → (slot : ℕ) × (w : Worker) × (find_live_connection r id fd ≡ ok (slot, w))
      × (q ≡ record r { workers = set r.workers slot (beaten w t) })
      × (neg_part t ≡ 0)
      × (w.last_heartbeat_ms ≤ℤ t)
unfolding heartbeat
heartbeat_effect r id fd t h = elim (Result-cases (find_live_connection r id fd)) [
  | inl ((slot, w), e) ↦ (slot, w, e, ground arith, ground arith, ground arith)
  | inr (x, e) ↦ absurd (ground arith)
]

pub mark_dead_effect :
    (r : Registry) (id : ℕ) (fd : ℤ) {q : Registry}
    → mark_dead r id fd ≡ ok q
    → (slot : ℕ) × (w : Worker) × (find_live_connection r id fd ≡ ok (slot, w))
      × (q ≡ record r { workers = set r.workers slot (buried w) })
unfolding mark_dead
mark_dead_effect r id fd h = elim (Result-cases (find_live_connection r id fd)) [
  | inl ((slot, w), e) ↦ (slot, w, e, ground arith)
  | inr (x, e) ↦ absurd (ground arith)
]

-- A heartbeat keeps the table valid.
pub heartbeat-IsValid :
    (r : Registry) (id : ℕ) (fd t : ℤ) (q : Registry)
    → heartbeat r id fd t ≡ ok q
    → IsValid r
    → IsValid q
heartbeat-IsValid r id fd t q h v =
    let (slot, w, e, result, _, _) = heartbeat_effect r id fd t h in
    subst IsValid (sym result)
      (replace-IsValid r slot w (beaten w t) (find_live_effect r id fd e).0 (λ u a. a) (λ n i. i) v)

buried-Follows : (w : Worker) → w.state ≡ alive → Follows w (buried w)
buried-Follows w e u a = ground arith

buried-IsIssued : (w : Worker) → w.state ≡ alive → (n : ℕ) → IsIssued n w → IsIssued n (buried w)
buried-IsIssued w e n i = ground arith

-- So does the loss of a connection.
pub mark_dead-IsValid :
    (r : Registry) (id : ℕ) (fd : ℤ) (q : Registry)
    → mark_dead r id fd ≡ ok q
    → IsValid r
    → IsValid q
mark_dead-IsValid r id fd q h v =
    let (slot, w, e, result) = mark_dead_effect r id fd h in
    let live = find_live_effect r id fd e in
    subst IsValid (sym result) (
      replace-IsValid r slot w (buried w) live.0 (buried-Follows w live.1)
        (buried-IsIssued w live.1) v)

IsUnique-blank : (n : ℕ) → IsUnique (replicate n blank)
IsUnique-blank zero = tt
IsUnique-blank (suc n) = (All-replicate (AreApart blank) n blank (refl, refl), IsUnique-blank n)

-- The table starts valid.
pub init-IsValid : IsValid init
unfolding init
init-IsValid = record {
  size = length-replicate max_workers blank;
  word = omega arith;
  issued = All-replicate (IsIssued 1) max_workers blank (inl refl, inl refl);
  unique = IsUnique-blank max_workers;
}
