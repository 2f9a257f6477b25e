-- ===== src/Wal/Opening/Tests.antt =====
-- A system that interrupts its first reads and gives at most two bytes at a time.
use flatline_c.Prelude.{
  ℕ, zero, suc, true, ◌+◌, ◌≤◌, ◌<◌, ◌≡◌, refl, sym, ap, ◌∙◌, Option, some, List, [], ◌∷◌, length,
  take, drop, arith,
}
use flatline_c.Wal.Writer.State.{writer_init, Machine, ReadCall, got, read_interrupted, done, Io}
use flatline_c.Wal.Opening.{read_exact}
use flatline_c.Wal.Opening.Exact.{Exact, read_exact-Exact}

abbrev file : List ℕ
file = 10 ∷ 11 ∷ 12 ∷ 13 ∷ 14 ∷ []

-- The interruptions to come, and the position.
abbrev System : Type 0
System = ℕ × ℕ

abbrev patience : System → ℕ
patience os = os.0

abbrev position : System → ℕ
position os = os.1

abbrev two_of : ℕ → ℕ → List ℕ
two_of at size = take 2 (take size (drop at file))

abbrev read_two : System → Option ℕ → ℕ → ReadCall × System
read_two (zero, at) fd size = (got (two_of at size), (zero, at + length (two_of at size)))
read_two (suc left, at) fd size = (read_interrupted, (left, at))

abbrev slow_system : Io System
slow_system = record {
  duplicate = λ os. (true, os);
  open_directory = λ os path. (done 3, os);
  open_file = λ os fd path create. (done 4, os);
  stat = λ os fd. (done 33152, os);
  lock = λ os fd. (done 0, os);
  write = λ os fd bytes. (done (length bytes), os);
  sync = λ os fd. (done 0, os);
  close = λ os fd. (done 0, os);
  read = read_two;
  truncate = λ os fd size. (done 0, os);
}

took : (k s : ℕ) (xs : List ℕ) → take k (take s xs) ≡ take (length (take k (take s xs))) xs
took zero s xs = refl
took (suc k) zero xs = refl
took (suc k) (suc s) [] = refl
took (suc k) (suc s) (x ∷ xs) = ap (◌∷◌ x) (took k s xs)

took_none : (k s : ℕ) (xs : List ℕ) → take (suc k) (take (suc s) xs) ≡ [] → xs ≡ []
took_none k s [] h = refl
took_none k s (x ∷ xs) h = cc

gave :
    (os : System) (fd : Option ℕ) (size : ℕ) (bytes : List ℕ)
    → (read_two os fd size).0 ≡ got bytes
    → (bytes ≡ take (length bytes) (drop (position os) file))
      × (position (read_two os fd size).1 ≡ position os + length bytes)
      × (patience (read_two os fd size).1 ≤ patience os)
gave (zero, at) fd size bytes h =
    let same : two_of at size ≡ bytes = cc in
    (
      sym same ∙ took 2 size (drop at file) ∙ ap (λ b. take (length b) (drop at file)) same,
      ap (λ b. at + length b) same,
      omega arith,
    )
gave (suc left, at) fd size bytes h = cc

ended :
    (os : System) (fd : Option ℕ) (size : ℕ)
    → (read_two os fd (suc size)).0 ≡ got []
    → drop (position os) file ≡ []
ended (zero, at) fd size h =
    let nothing : two_of at (suc size) ≡ [] = cc in took_none 1 size (drop at file) nothing
ended (suc left, at) fd size h = cc

waited :
    (os : System) (fd : Option ℕ) (size : ℕ)
    → (read_two os fd size).0 ≡ read_interrupted
    → (position (read_two os fd size).1 ≡ position os)
      × (patience (read_two os fd size).1 < patience os)
waited (zero, at) fd size h = cc
waited (suc left, at) fd size h = (refl, omega arith)

abbrev machine : Machine System
machine = record { writer = record writer_init { fd = some 4 }; os = (2, 1) }

read_exact-Exact_example :
    Exact slow_system file position patience machine 3 (read_exact slow_system 5 3 machine)
read_exact-Exact_example =
    read_exact-Exact slow_system file position patience 5 3 machine
      (record { gives = gave; ends = ended; waits = waited }) (omega arith)
