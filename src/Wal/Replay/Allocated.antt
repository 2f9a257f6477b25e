-- ===== src/Wal/Replay/Allocated.antt =====
-- The binary search over the ranges of allocated worker IDs, and what an allocation adds to them.
use flatline_c.Prelude.{
  ℕ, zero, suc, ◌+◌, ◌-◌, ◌/◌, ◌≤◌, ◌<◌, ◌≡◌, refl, inl, inr, Bool, true, false, ◌&&◌, ◌||◌, Option,
  none, some, List, [], ◌∷◌, ◌++◌, ltb, leb, ◌==◌, if◌then◌else◌, length, get_elem?, arith,
  some_inj, Bool-cases, subst, sym, ap,
}
use flatline_c.Prelude.Result.{ok}
use flatline_c.Wal.Replay.Index.{
  WorkerRange, WorkerIndex, search_ranges, worker_was_allocated, index_worker, adjacent, extended,
  empty_index, grown, last_range,
}

-- The ranges are in order, apart, and from `low` on.
abbrev pub Ascending : ℕ → List WorkerRange → Type 0
Ascending low [] = Unit {0}
Ascending low (r ∷ rs) = (low ≤ r.first) × (r.first ≤ r.last) × Ascending (r.last + 1) rs

abbrev pub covers : WorkerRange → ℕ → Bool
covers r id = leb r.first id && leb id r.last

-- The ID lies in one of the ranges.
unfoldable pub covered : List WorkerRange → ℕ → Bool
covered [] id = false
covered (r ∷ rs) id = covers r id || covered rs id

later :
    (low : ℕ) (rs : List WorkerRange) (i : ℕ) {r : WorkerRange}
    → get_elem? rs i ≡ some r
    → Ascending low rs
    → (low ≤ r.first) × (r.first ≤ r.last)
later low [] i e a = cc
later low (x ∷ rs) zero e a = let e' = some_inj.0 e in ground (arith, e')
later low (x ∷ rs) (suc i) e a = omega (arith, later (x.last + 1) rs i e a.2)

apart :
    (low : ℕ) (rs : List WorkerRange) (i j : ℕ) {r s : WorkerRange}
    → get_elem? rs i ≡ some r
    → get_elem? rs j ≡ some s
    → i < j
    → Ascending low rs
    → r.last < s.first
apart low [] i j e f h a = cc
apart low (x ∷ rs) i zero e f h a = absurd (omega arith)
apart low (x ∷ rs) zero (suc j) e f h a =
    let e' = some_inj.0 e in ground (arith, e', later (x.last + 1) rs j f a.2)
apart low (x ∷ rs) (suc i) (suc j) e f h a = apart (x.last + 1) rs i j e f (omega arith) a.2

get_covered :
    (rs : List WorkerRange) (i id : ℕ) {r : WorkerRange}
    → get_elem? rs i ≡ some r
    → covers r id ≡ true
    → covered rs id ≡ true
unfolding covered
get_covered [] i id e c = cc
get_covered (x ∷ rs) zero id e c = let e' = some_inj.0 e in ground (arith, e')
get_covered (x ∷ rs) (suc i) id e c = ground (arith, get_covered rs i id e c)

covered_get :
    (rs : List WorkerRange) (id : ℕ)
    → covered rs id ≡ true
    → (i : ℕ) × (r : WorkerRange) × (get_elem? rs i ≡ some r) × (covers r id ≡ true)
unfolding covered
covered_get [] id h = cc
covered_get (x ∷ rs) id h = elim (Bool-cases (covers x id)) [
  | inl here ↦ (0, x, refl, here)
  | inr other ↦ let (i, r, e, c) = covered_get rs id (rw other at h) in (suc i, r, e, c)
]

get_below :
    (rs : List WorkerRange) (i : ℕ) → i < length rs → (r : WorkerRange) × (get_elem? rs i ≡ some r)
get_below [] i h = absurd (omega arith)
get_below (x ∷ rs) zero h = (x, refl)
get_below (x ∷ rs) (suc i) h = get_below rs i (omega arith)

below_length :
    (rs : List WorkerRange) (i : ℕ) {r : WorkerRange} → get_elem? rs i ≡ some r → i < length rs
below_length [] i e = cc
below_length (x ∷ rs) zero e = omega arith
below_length (x ∷ rs) (suc i) e = omega (arith, below_length rs i e)

-- What the search finds is there.
search-covered :
    (n : ℕ) (rs : List WorkerRange) (id low high : ℕ)
    → high ≤ length rs
    → search_ranges n rs id low high ≡ true
    → covered rs id ≡ true
unfolding search_ranges
search-covered zero rs id low high b h = cc
search-covered (suc n) rs id low high b h = elim (Bool-cases (ltb low high)) [
  | inr done ↦ let h' = rw done at h in cc
  | inl more ↦
      let middle = low + (high - low) / 2 in
      let (r, e) = get_below rs middle (ground arith) in
      ground (
        arith,
        e,
        get_covered rs middle id e,
        search-covered n rs id low middle,
        search-covered n rs id (middle + 1) high,
      )
]

-- What is there between the bounds is found.
search_complete :
    (n : ℕ) (rs : List WorkerRange) (id low high i : ℕ) (r : WorkerRange) (least : ℕ)
    → Ascending least rs
    → get_elem? rs i ≡ some r
    → covers r id ≡ true
    → low ≤ i
    → i < high
    → high ≤ length rs
    → high < low + n
    → search_ranges n rs id low high ≡ true
unfolding search_ranges
search_complete zero rs id low high i r least a e c lo hi b m = absurd (omega arith)
search_complete (suc n) rs id low high i r least a e c lo hi b m =
    let middle = low + (high - low) / 2 in
    let (s, f) = get_below rs middle (omega arith) in
    ground (
      arith,
      f,
      later least rs middle f a,
      apart least rs middle i f e,
      apart least rs i middle e f,
      search_complete n rs id low middle i r least a e c,
      search_complete n rs id (middle + 1) high i r least a e c,
    )

-- On ranges in ascending order the binary search of `worker_was_allocated` answers as a scan of
-- all ranges does.
pub worker_was_allocated-covered :
    (index : WorkerIndex) (id low : ℕ)
    → Ascending low index.ranges
    → worker_was_allocated index id ≡ covered index.ranges id
unfolding worker_was_allocated
worker_was_allocated-covered index id low a =
    let rs = index.ranges in
    elim (Bool-cases (covered rs id)) [
      | inl there ↦
          let (i, r, e, c) = covered_get rs id there in
          rw there (
            search_complete (length rs + 1) rs id 0 (length rs) i r low a e c (omega arith)
              (below_length rs i e) (omega arith) (omega arith))
      | inr missing ↦ elim (Bool-cases (search_ranges (length rs + 1) rs id 0 (length rs))) [
        | inl found ↦
            let there = search-covered (length rs + 1) rs id 0 (length rs) (omega arith) found in cc
        | inr lost ↦ rw missing lost
      ]
    ]

-- All ranges end below the ID.
abbrev pub AllBelow : ℕ → List WorkerRange → Type 0
AllBelow id [] = Unit {0}
AllBelow id (r ∷ rs) = (r.last < id) × AllBelow id rs

-- The new ID ends the last range, or is a range of its own.
unfoldable pub with_worker : List WorkerRange → ℕ → List WorkerRange
with_worker [] id = (record { first = id; last = id }) ∷ []
with_worker (r ∷ []) id =
    if r.last + 1 == id
    then (record r { last = id }) ∷ []
    else r ∷ (record { first = id; last = id }) ∷ []
with_worker (r ∷ s ∷ rs) id = r ∷ with_worker (s ∷ rs) id

covered-with_worker :
    (rs : List WorkerRange) (id x low : ℕ)
    → AllBelow id rs
    → Ascending low rs
    → covered (with_worker rs id) x ≡ (covered rs x || x == id)
unfolding covered with_worker
covered-with_worker [] id x low b a = ground arith
covered-with_worker (r ∷ []) id x low b a = ground arith
covered-with_worker (r ∷ s ∷ rs) id x low b a =
    ground (arith, covered-with_worker (s ∷ rs) id x (r.last + 1) b.1 a.2)

with_worker-Ascending :
    (rs : List WorkerRange) (id low : ℕ)
    → AllBelow id rs
    → low ≤ id
    → Ascending low rs
    → Ascending low (with_worker rs id)
unfolding with_worker
with_worker-Ascending [] id low b l a = ground arith
with_worker-Ascending (r ∷ []) id low b l a = ground arith
with_worker-Ascending (r ∷ s ∷ rs) id low b l a =
    (a.0, a.1, with_worker-Ascending (s ∷ rs) id (r.last + 1) b.1 (omega arith) a.2)

with_worker-AllBelow :
    (rs : List WorkerRange) (id : ℕ) → AllBelow id rs → AllBelow (id + 1) (with_worker rs id)
unfolding with_worker
with_worker-AllBelow [] id b = omega arith
with_worker-AllBelow (r ∷ []) id b = ground arith
with_worker-AllBelow (r ∷ s ∷ rs) id b = (omega arith, with_worker-AllBelow (s ∷ rs) id b.1)

-- The branch of the source on its list of ranges.
abbrev pushed : List WorkerRange → ℕ → List WorkerRange
pushed rs id =
    if adjacent (last_range rs) id
    then extended rs id (last_range rs)
    else rs ++ (record { first = id; last = id }) ∷ []

extended-cons :
    (r s : WorkerRange) (rs : List WorkerRange) (id : ℕ) (o : Option WorkerRange)
    → extended (r ∷ s ∷ rs) id o ≡ r ∷ extended (s ∷ rs) id o
extended-cons r s rs id none = refl
extended-cons r s rs id (some t) =
    let e : suc (suc (length rs)) - 1 ≡ suc (suc (length rs) - 1) = omega arith in rw e refl

last_range-cons :
    (r s : WorkerRange) (rs : List WorkerRange) → last_range (r ∷ s ∷ rs) ≡ last_range (s ∷ rs)
last_range-cons r s rs =
    let e : suc (suc (length rs)) - 1 ≡ suc (suc (length rs) - 1) = omega arith in rw e refl

pushed-with_worker : (rs : List WorkerRange) (id : ℕ) → pushed rs id ≡ with_worker rs id
unfolding with_worker
pushed-with_worker [] id = refl
pushed-with_worker (r ∷ []) id = ground arith
pushed-with_worker (r ∷ s ∷ rs) id =
    rw (last_range-cons r s rs, extended-cons r s rs id (last_range (s ∷ rs)))
      (elim (Bool-cases (adjacent (last_range (s ∷ rs)) id)) [
        | inl e ↦ rw e (ap (◌∷◌ r) (rw e at (pushed-with_worker (s ∷ rs) id)))
        | inr e ↦ rw e (ap (◌∷◌ r) (rw e at (pushed-with_worker (s ∷ rs) id)))
      ])

pub index_worker-with_worker :
    (grows : ℕ → Bool) (index : WorkerIndex) (id : ℕ) {index' : WorkerIndex}
    → index_worker grows index id ≡ ok index'
    → index'.ranges ≡ with_worker index.ranges id
unfolding index_worker grown
index_worker-with_worker grows index id e = ground (arith, pushed-with_worker index.ranges id)

-- What the index keeps, with the greatest ID that it holds.
pub record IsIndex (index : WorkerIndex) (highest : ℕ) : Type 0 where
  pub ascending : Ascending 1 index.ranges
  pub below : AllBelow (highest + 1) index.ranges

pub empty-IsIndex : IsIndex empty_index 0
empty-IsIndex = record { ascending = tt; below = tt }

AllBelow-mono : (rs : List WorkerRange) (m n : ℕ) → m ≤ n → AllBelow m rs → AllBelow n rs
AllBelow-mono [] m n h b = tt
AllBelow-mono (r ∷ rs) m n h b = (omega arith, AllBelow-mono rs m n h b.1)

-- The allocation of a worker ID above all earlier ones keeps the ranges of the index in order, and
-- adds this ID to those that the index holds, and no other.
pub index_worker-IsIndex :
    (grows : ℕ → Bool) (index index' : WorkerIndex) (highest id : ℕ)
    → index_worker grows index id ≡ ok index'
    → highest < id
    → IsIndex index highest
    → IsIndex index' id
      × ((x : ℕ) → worker_was_allocated index' x ≡ (worker_was_allocated index x || x == id))
index_worker-IsIndex grows index index' highest id e h v =
    let same = index_worker-with_worker grows index id e in
    let below = AllBelow-mono index.ranges (highest + 1) id (omega arith) v.below in
    let ordered =
      subst (Ascending 1) (sym same)
        (with_worker-Ascending index.ranges id 1 below (omega arith) v.ascending) in
    (
      record {
        ascending = ordered;
        below = subst (AllBelow (id + 1)) (sym same) (with_worker-AllBelow index.ranges id below);
      },
      λ x.
          rw
            (
              worker_was_allocated-covered index' x 1 ordered,
              worker_was_allocated-covered index x 1 v.ascending,
              same,
            )
            (covered-with_worker index.ranges id x 1 below v.ascending),
    )
