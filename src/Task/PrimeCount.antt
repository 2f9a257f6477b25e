-- ===== src/Task/PrimeCount.antt =====
-- The prime count against the definition of primes: trial division by odd numbers up to the root.
use flatline_c.Prelude.{
  ℕ, zero, suc, ◌+◌, ◌-◌, ◌*◌, ◌/◌, ◌%◌, ◌≤◌, ◌<◌, ◌≡◌, ◌≢◌, inl, inr, refl, sym, ap, ◌∙◌, Bool,
  Bool-cases, true, false, ltb, leb, ◌==◌, if◌then◌else◌, arith,
}
use flatline_c.Prelude.Result.{ok}
use native.Mathlib.Nat.{mul-le-mul_left, div-lt_iff_lt-mul}
use flatline_c.Task.{bit, no_divisor, count_primes}
use flatline_c.Task.Primes.{
  Clear, is_prime, primes_upto, even_no_divisor, Clear-is_prime, divided, primes_step, primes_even,
  primes_past, primes_2,
}

module _ (cancel : ℕ → Bool) where
  -- The loop over the divisors tells whether an odd candidate is prime.
  no_divisor_lem :
      (fuel k c d : ℕ)
      → ((i : ℕ) → cancel i ≡ false)
      → c % 2 ≡ 1
      → d % 2 ≡ 1
      → 3 ≤ c
      → 3 ≤ d
      → Clear c d
      → c < d + 2 * fuel
      → (loads : ℕ) × (no_divisor cancel fuel k c d ≡ ok (is_prime c, loads))
  unfolding no_divisor
  no_divisor_lem zero k c d quiet odd odd_d low low_d clear enough =
      let one : 1 ≤ d = omega (arith, low_d) in
      let small : c < d * d = omega (arith, mul-le-mul_left d one, enough) in
      (k, rw (Clear-is_prime c d (omega (arith, low)) (omega (arith, low_d)) small clear) refl)
  no_divisor_lem (suc fuel) k c d quiet odd odd_d low low_d clear enough =
      let positive : 0 < d = omega (arith, low_d) in
      elim (Bool-cases (ltb (c / d) d)) [
        | inl past ↦
            let small : c < d * d = (div-lt_iff_lt-mul positive).0 (ground arith) in
            (
              k,
              rw (past, Clear-is_prime c d (omega (arith, low)) (omega (arith, low_d)) small clear)
                  refl,
            )
        | inr root ↦ elim (Bool-cases (c % d == 0)) [
          | inl hit ↦
              let none = divided c d (omega (arith, low_d)) (ground arith) (ground arith) in
              (suc k, rw (root, quiet k, hit, none) refl)
          | inr miss ↦
              let next : Clear c (d + 2) = further c d odd odd_d clear miss in
              let (loads, same) =
                no_divisor_lem fuel (suc k) c (d + 2) quiet odd (omega (arith, odd_d)) low
                  (omega (arith, low_d)) next (omega (arith, enough)) in
              (loads, rw (root, quiet k, miss) same)
        ]
      ]
    where
      further :
          (c d : ℕ) → c % 2 ≡ 1 → d % 2 ≡ 1 → Clear c d → (c % d == 0) ≡ false → Clear c (d + 2)
      further c d odd odd_d clear miss e two high h = elim (Bool-cases (ltb e d)) [
        | inl early ↦ clear e two (ground arith) h
        | inr late ↦ elim (Bool-cases (e == d)) [
          | inl same ↦
              let e_d : e ≡ d = ground arith in let h' = rw e_d at h in absurd (ground arith)
          | inr other ↦ let even : e % 2 ≡ 0 = ground arith in even_no_divisor c e odd even h
        ]
      ]

  -- The loop over the candidates adds the primes from `c` on to those below it.
  count_primes_lem :
      (fuel k c n : ℕ)
      → ((i : ℕ) → cancel i ≡ false)
      → c % 2 ≡ 1
      → 3 ≤ c
      → 3 ≤ n
      → c ≤ n + 2
      → n < c + 2 * fuel
      → (loads : ℕ) × (count_primes cancel fuel k c n (primes_upto (c - 1))
          ≡ ok (primes_upto n, loads))
  unfolding count_primes
  count_primes_lem zero k c n quiet odd low low_n close enough =
      (k, ap (λ x. ok (x, k)) (primes_past c n odd low_n (omega (arith, enough)) close))
  count_primes_lem (suc fuel) k c n quiet odd low low_n close enough = elim (Bool-cases (ltb n c)) [
    | inl past ↦ (k, rw past (ap (λ x. ok (x, k)) (primes_past c n odd low_n (ground arith) close)))
    | inr within ↦
        let two : Clear c 3 = λ e low_e high h. not_two c e odd low_e high h in
        let (loads, prime) =
          no_divisor_lem c (suc k) c 3 quiet odd refl low (omega arith) two (omega arith) in
        let e : c + 2 - 1 ≡ c + 1 = omega arith in
        let f : c + 1 - 1 ≡ c = omega arith in
        let step : primes_upto (c - 1) + bit (is_prime c) ≡ primes_upto (c + 2 - 1) = sym (
          ap primes_upto e
          ∙ primes_even (c + 1) (omega (arith, low)) (omega (arith, odd))
          ∙ ap primes_upto f
          ∙ primes_step c (omega (arith, low))) in
        let (rest, same) =
          count_primes_lem fuel loads (c + 2) n quiet (omega (arith, odd)) (omega (arith, low))
            low_n (ground arith) (omega (arith, enough)) in
        (rest, rw (within, quiet k, prime, step) same)
  ]
    where
      not_two : (c e : ℕ) → c % 2 ≡ 1 → 2 ≤ e → e < 3 → c % e ≢ 0
      not_two c e odd low_e high =
          let same : e ≡ 2 = omega (arith, low_e, high) in
          even_no_divisor c e odd (omega (arith, same))

  few :
      (n k : ℕ)
      → leb 3 n ≡ false
      → count_primes cancel n k 3 n (if leb 2 n then 1 else 0) ≡ ok (primes_upto n, k)
  unfolding count_primes primes_upto
  few zero k h = refl
  few (suc zero) k h = refl
  few (suc (suc zero)) k h = refl
  few (suc (suc (suc n))) k h = absurd (ground arith)

  -- While the flag stays clear, the task counts the primes up to its number, which the source bounds
  -- by 100000000 and this statement does not.
  pub count_primes-primes_upto :
      (n k : ℕ)
      → ((i : ℕ) → cancel i ≡ false)
      → (loads : ℕ) × (count_primes cancel n k 3 n (if leb 2 n then 1 else 0)
          ≡ ok (primes_upto n, loads))
  count_primes-primes_upto n k quiet = elim (Bool-cases (leb 3 n)) [
    | inl large ↦
        let (loads, same) =
          count_primes_lem n k 3 n quiet refl (omega arith) (ground arith) (ground arith)
            (omega arith) in
        let two : leb 2 n ≡ true = ground arith in (loads, rw (two, ← primes_2) same)
    | inr small ↦ (k, few n k small)
  ]
