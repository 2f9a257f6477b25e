-- ===== src/Scheduler/Lists.antt =====
-- Lists of jobs: the queued ones among them, distinct IDs and owners, and a change of one record.
use flatline_c.Prelude.{
  ℕ, zero, suc, ◌+◌, ◌≤◌, ◌≡◌, inl, inr, refl, ap, subst, Bool, true, false, ◌&&◌, ◌||◌, none, some,
  some_inj, List, [], ◌∷◌, ◌++◌, arith, ◌==◌, length, get_elem?, set, All, All-get, All-set,
  Bool-cases,
}
use flatline_c.Job.{Job}
use flatline_c.JobQueue.{is_queued}
use flatline_c.JobQueue.Refine.{member}
use flatline_c.Scheduler.{find_slot, first_active, is_active}

-- 1 for true.
abbrev pub bit : Bool → ℕ
bit true = 1
bit false = 0

unfoldable pub count : ℕ → List ℕ → ℕ
count x [] = 0
count x (y ∷ ys) = bit (y == x) + count x ys

pub count-append : (x : ℕ) (xs ys : List ℕ) → count x (xs ++ ys) ≡ count x xs + count x ys
unfolding count
count-append x [] ys = omega arith
count-append x (y ∷ xs) ys = omega (arith, count-append x xs ys)

pub member-count : (x : ℕ) (ys : List ℕ) → count x ys ≡ 0 → member x ys ≡ false
unfolding count member
member-count x [] e = refl
member-count x (y ∷ ys) e = ground (arith, member-count x ys)

abbrev pub cons_if : Bool → ℕ → List ℕ → List ℕ
cons_if true id ids = id ∷ ids
cons_if false id ids = ids

-- The IDs of the records in the state QUEUED.
unfoldable pub queued_ids : List Job → List ℕ
queued_ids [] = []
queued_ids (j ∷ js) = cons_if (is_queued j.state) j.id (queued_ids js)

abbrev pub counts : ℕ → Job → ℕ
counts x j = bit (is_queued j.state && j.id == x)

pub count-cons_if :
    (b : Bool) (x id : ℕ) (ids : List ℕ)
    → count x (cons_if b id ids) ≡ bit (b && id == x) + count x ids
unfolding count
count-cons_if true x id ids = refl
count-cons_if false x id ids = omega arith

pub length-cons_if :
    (b : Bool) (id : ℕ) (ids : List ℕ) → length (cons_if b id ids) ≡ bit b + length ids
length-cons_if true id ids = omega arith
length-cons_if false id ids = omega arith

pub count-set :
    (x : ℕ) (js : List Job) (i : ℕ) (j k : Job)
    → get_elem? js i ≡ some j
    → count x (queued_ids (set js i k)) + counts x j ≡ count x (queued_ids js) + counts x k
unfolding queued_ids
count-set x [] i j k e = cc
count-set x (y ∷ js) zero j k e =
    let e' = some_inj.0 e in
    ground (
      arith,
      e',
      count-cons_if (is_queued y.state) x y.id (queued_ids js),
      count-cons_if (is_queued k.state) x k.id (queued_ids js),
    )
count-set x (y ∷ js) (suc i) j k e = omega (
  arith,
  count-set x js i j k e,
  count-cons_if (is_queued y.state) x y.id (queued_ids js),
  count-cons_if (is_queued y.state) x y.id (queued_ids (set js i k)),
)

pub length-queued_ids-set :
    (js : List Job) (i : ℕ) (j k : Job)
    → get_elem? js i ≡ some j
    → length (queued_ids (set js i k)) + bit (is_queued j.state)
      ≡ length (queued_ids js) + bit (is_queued k.state)
unfolding queued_ids
length-queued_ids-set [] i j k e = cc
length-queued_ids-set (y ∷ js) zero j k e =
    let e' = some_inj.0 e in
    ground (
      arith,
      e',
      length-cons_if (is_queued y.state) y.id (queued_ids js),
      length-cons_if (is_queued k.state) k.id (queued_ids js),
    )
length-queued_ids-set (y ∷ js) (suc i) j k e = omega (
  arith,
  length-queued_ids-set js i j k e,
  length-cons_if (is_queued y.state) y.id (queued_ids js),
  length-cons_if (is_queued y.state) y.id (queued_ids (set js i k)),
)

pub length-queued_ids-le : (js : List Job) → length (queued_ids js) ≤ length js
unfolding queued_ids
length-queued_ids-le [] = omega arith
length-queued_ids-le (j ∷ js) =
    ground (arith, length-cons_if (is_queued j.state) j.id (queued_ids js), length-queued_ids-le js)

pub queued_ids-append :
    (js : List Job) (j : Job)
    → is_queued j.state ≡ true
    → queued_ids (js ++ j ∷ []) ≡ queued_ids js ++ j.id ∷ []
unfolding queued_ids
queued_ids-append [] j e = rw e
queued_ids-append (y ∷ js) j e = elim (Bool-cases (is_queued y.state)) [
  | inl q ↦ rw q (ap (◌∷◌ y.id) (queued_ids-append js j e))
  | inr q ↦ rw q (queued_ids-append js j e)
]

-- Two records share their ID, or an owner that runs both.
abbrev pub clash : Job → Job → Bool
clash j k = j.id == k.id || (is_active j.state && is_active k.state && j.worker_id == k.worker_id)

abbrev pub AreApart : Job → Job → Type 0
AreApart j k = clash j k ≡ false

pub AreApart-sym : (j k : Job) → AreApart j k → AreApart k j
AreApart-sym j k a = ground arith

abbrev pub IsUnique : List Job → Type 0
IsUnique [] = Unit {0}
IsUnique (j ∷ js) = All (AreApart j) js × IsUnique js

-- The new record clashes with no record that the old one does not clash with.
abbrev pub Follows : Job → Job → Job → Type 0
Follows j k u = AreApart u j → AreApart u k

pub IsUnique-set :
    (js : List Job) (i : ℕ) (j k : Job)
    → get_elem? js i ≡ some j
    → All (Follows j k) js
    → IsUnique js
    → IsUnique (set js i k)
IsUnique-set [] i j k e f u = tt
IsUnique-set (x ∷ js) zero j k e f u =
    (apart js f.1 (subst (λ y. All (AreApart y) js) (some_inj.0 e) u.0), u.1)
  where
    apart : (ys : List Job) → All (Follows j k) ys → All (AreApart j) ys → All (AreApart k) ys
    apart [] g a = tt
    apart (y ∷ ys) g a = (AreApart-sym y k (g.0 (AreApart-sym j y a.0)), apart ys g.1 a.1)
IsUnique-set (x ∷ js) (suc i) j k e f u = (
  All-set (AreApart x) js i k u.0 (f.0 (All-get (AreApart x) js i e u.0)),
  IsUnique-set js i j k e f.1 u.1,
)

pub IsUnique-append :
    (js : List Job) (k : Job) → All (AreApart k) js → IsUnique js → IsUnique (js ++ k ∷ [])
IsUnique-append [] k a u = (tt, tt)
IsUnique-append (j ∷ js) k a u =
    (All-snoc js u.0 (AreApart-sym k j a.0), IsUnique-append js k a.1 u.1)
  where
    All-snoc :
        (ys : List Job) → All (AreApart j) ys → AreApart j k → All (AreApart j) (ys ++ k ∷ [])
    All-snoc [] h b = (b, tt)
    All-snoc (y ∷ ys) h b = (h.0, All-snoc ys h.1 b)

pub count_apart : (j : Job) (js : List Job) → All (AreApart j) js → count j.id (queued_ids js) ≡ 0
unfolding count queued_ids
count_apart j [] a = refl
count_apart j (y ∷ js) a =
    ground
      (arith, count-cons_if (is_queued y.state) j.id y.id (queued_ids js), count_apart j js a.1)

-- The ID of a record that is not queued is not among the queued ones.
pub count-queued_ids_zero :
    (js : List Job) (i : ℕ) (j : Job)
    → get_elem? js i ≡ some j
    → is_queued j.state ≡ false
    → IsUnique js
    → count j.id (queued_ids js) ≡ 0
unfolding queued_ids
count-queued_ids_zero [] i j e q u = cc
count-queued_ids_zero (x ∷ js) zero j e q u =
    let e' = some_inj.0 e in
    let a = subst (λ y. All (AreApart y) js) e' u.0 in
    ground
      (arith, e', count-cons_if (is_queued x.state) j.id x.id (queued_ids js), count_apart j js a)
count-queued_ids_zero (x ∷ js) (suc i) j e q u =
    let a = All-get (AreApart x) js i e u.0 in
    ground (
      arith,
      a,
      count-cons_if (is_queued x.state) j.id x.id (queued_ids js),
      count-queued_ids_zero js i j e q u.1,
    )

pub find_slot_hit :
    (js : List Job) (id : ℕ) (j : Job) → get_elem? js (find_slot js id) ≡ some j → j.id ≡ id
unfolding find_slot
find_slot_hit [] id j e = cc
find_slot_hit (x ∷ js) id j e = elim (Bool-cases (x.id == id)) [
  | inl hit ↦ let e' = rw hit at e in ground arith
  | inr miss ↦ find_slot_hit js id j (rw miss at e)
]

-- A record that the search for an active job returns stands in the slot of its ID.
pub first_active_hit :
    (js : List Job) (w : ℕ) (j : Job)
    → first_active js w ≡ some j
    → IsUnique js
    → (get_elem? js (find_slot js j.id) ≡ some j) × (j.worker_id ≡ w) × (is_active j.state ≡ true)
unfolding first_active find_slot
first_active_hit [] w j e u = cc
first_active_hit (x ∷ js) w j e u = elim (Bool-cases (x.worker_id == w && is_active x.state)) [
  | inl hit ↦ let e' = rw hit at e in ground arith
  | inr miss ↦
      let (there, owner, busy) = first_active_hit js w j (rw miss at e) u.1 in
      let a = All-get (AreApart x) js (find_slot js j.id) there u.0 in (ground arith, owner, busy)
]

pub first_active-none :
    (js : List Job) (w : ℕ)
    → first_active js w ≡ none
    → All (λ j. j.worker_id == w && is_active j.state ≡ false) js
unfolding first_active
first_active-none [] w e = tt
first_active-none (x ∷ js) w e = elim (Bool-cases (x.worker_id == w && is_active x.state)) [
  | inl hit ↦ let e' = rw hit at e in cc
  | inr miss ↦ (miss, first_active-none js w (rw miss at e))
]
