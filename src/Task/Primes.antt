-- ===== src/Task/Primes.antt =====
-- Primes: what trial division up to the root decides.
use flatline_c.Prelude.{
  ℕ, zero, suc, ◌+◌, ◌-◌, ◌*◌, ◌/◌, ◌%◌, ◌≤◌, ◌<◌, ◌≡◌, ◌≢◌, inl, inr, refl, ap, ◌∙◌, Bool,
  Bool-cases, true, false, not, ◌&&◌, ◌||◌, ltb, leb, ◌==◌, arith,
}
use native.Mathlib.Nat.{
  div-add-mod, mul-mod_left, mul_assoc, mul-le-mul_left, mul-le-mul_right, mul-le-mul, mul-div-le,
}
use flatline_c.Task.{bit}

-- A divisor from 2 to `n`.
unfoldable has_factor : ℕ → ℕ → Bool
has_factor c zero = false
has_factor c (suc n) = leb 2 (suc n) && c % suc n == 0 || has_factor c n

unfoldable pub is_prime : ℕ → Bool
unfolding has_factor
is_prime c = leb 2 c && not (has_factor c (c - 1))

unfoldable pub primes_upto : ℕ → ℕ
unfolding is_prime
primes_upto zero = 0
primes_upto (suc n) = primes_upto n + bit (is_prime (suc n))

factor_found : (c n e : ℕ) → 2 ≤ e → e ≤ n → c % e ≡ 0 → has_factor c n ≡ true
unfolding has_factor
factor_found c zero e low high h = absurd (omega (arith, low, high))
factor_found c (suc n) e low high h = elim (Bool-cases (e == suc n)) [
  | inl last ↦ let same : e ≡ suc n = ground arith in let h' = rw same at h in ground arith
  | inr before ↦ rw (factor_found c n e low (ground arith) h) (ground arith)
]

factor_none : (c n : ℕ) → ((e : ℕ) → 2 ≤ e → e ≤ n → c % e ≢ 0) → has_factor c n ≡ false
unfolding has_factor
factor_none c zero h = refl
factor_none c (suc n) h =
    let before = factor_none c n (λ e low high. h e low (omega (arith, high))) in
    elim (Bool-cases (leb 2 (suc n))) [
      | inl low ↦ let last = h (suc n) (ground arith) (omega arith) in ground arith
      | inr small ↦ rw (small, before) refl
    ]

-- No number from 2 up to, and without, `d` divides `c`.
abbrev pub Clear : ℕ → ℕ → Type 0
Clear c d = (e : ℕ) → 2 ≤ e → e < d → c % e ≢ 0

pub even_no_divisor : (c e : ℕ) → c % 2 ≡ 1 → e % 2 ≡ 0 → c % e ≢ 0
even_no_divisor c e odd even h =
    let whole = div-add-mod c e in
    let half : e ≡ 2 * (e / 2) = omega (arith, even) in
    let twice : e * (c / e) ≡ 2 * (e / 2 * (c / e)) =
      ap (λ x. x * (c / e)) half ∙ mul_assoc 2 (e / 2) (c / e) in
    omega (arith, whole, twice, odd, h)

pub Clear-is_prime : (c d : ℕ) → 2 ≤ c → 2 ≤ d → c < d * d → Clear c d → is_prime c ≡ true
unfolding is_prime
Clear-is_prime c d low two small clear =
    let none = factor_none c (c - 1) no_factor in rw none (ground arith)
  where
    no_factor : (e : ℕ) → 2 ≤ e → e ≤ c - 1 → c % e ≢ 0
    no_factor e two_e high h = elim (Bool-cases (ltb e d)) [
      | inl early ↦ clear e two_e (ground arith) h
      | inr late ↦
          let q = c / e in
          let whole : e * q ≡ c = omega (arith, div-add-mod c e, h) in
          let q_low : 2 ≤ q = elim (Bool-cases (leb 2 q)) [
            | inl fine ↦ ground arith
            | inr one ↦
                let q_one : q ≤ 1 = ground arith in
                absurd (omega (arith, mul-le-mul_left e q_one, whole, high, low))
          ] in
          let q_small : q < d = elim (Bool-cases (ltb q d)) [
            | inl fine ↦ ground arith
            | inr large ↦
                let d_e : d ≤ e = ground arith in
                let d_q : d ≤ q = ground arith in
                absurd (omega (arith, mul-le-mul d_e d_q, whole, small))
          ] in
          clear q q_low q_small (rw whole at (mul-mod_left e q))
    ]

pub divided : (c d : ℕ) → 2 ≤ d → d ≤ c / d → c % d ≡ 0 → is_prime c ≡ false
unfolding is_prime
divided c d two root h =
    let square = mul-le-mul_left d root in
    let twice = mul-le-mul_right d two in
    let below = mul-div-le c d in
    let high : d ≤ c - 1 = omega (arith, square, twice, below, two) in
    rw (factor_found c (c - 1) d two high h) (ground arith)

even_not_prime : (x : ℕ) → 4 ≤ x → x % 2 ≡ 0 → is_prime x ≡ false
unfolding is_prime
even_not_prime x low even =
    rw (factor_found x (x - 1) 2 (omega arith) (omega (arith, low)) even) (ground arith)

pub primes_step : (x : ℕ) → 1 ≤ x → primes_upto x ≡ primes_upto (x - 1) + bit (is_prime x)
unfolding primes_upto
primes_step zero h = absurd (omega (arith, h))
primes_step (suc n) h = let e : suc n - 1 ≡ n = omega arith in rw e refl

-- An even number adds no prime.
pub primes_even : (x : ℕ) → 4 ≤ x → x % 2 ≡ 0 → primes_upto x ≡ primes_upto (x - 1)
primes_even x low even =
    let step = primes_step x (omega (arith, low)) in
    let none = even_not_prime x low even in ground (arith, step, none)

-- Past the last candidate all primes are counted.
pub primes_past :
    (c n : ℕ) → c % 2 ≡ 1 → 3 ≤ n → n < c → c ≤ n + 2 → primes_upto (c - 1) ≡ primes_upto n
primes_past c n odd low past close = elim (Bool-cases (c == n + 1)) [
  | inl next ↦ let e : c - 1 ≡ n = ground arith in ap primes_upto e
  | inr last ↦
      let e : c - 1 ≡ n + 1 = ground arith in
      let f : n + 1 - 1 ≡ n = omega arith in
      ap primes_upto e ∙ primes_even (n + 1) (omega (arith, low)) (ground arith) ∙ ap primes_upto f
]

pub primes_2 : primes_upto 2 ≡ 1
unfolding primes_upto
primes_2 = refl
