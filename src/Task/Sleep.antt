-- ===== src/Task/Sleep.antt =====
-- The sleep: it does not return early, and it returns once the clock has reached the deadline.
use flatline_c.Prelude.{
  ℕ, zero, suc, ◌+◌, ◌≤◌, ◌<◌, ◌≡◌, ◌⊎◌, refl, Bool, Bool-cases, inl, inr, true, false, some, arith,
}
use flatline_c.Prelude.Int.{ℤ, pos, ◌+ℤ◌, ◌≤ℤ◌, is_neg, lez}
use flatline_c.Prelude.Result.{ok}
use flatline_c.Task.{sleep_loop, run_sleep}

module _ (cancel : ℕ → Bool) (clock : ℕ → ℤ) (pause : ℕ → ℤ → Bool) where
  loop_not_early :
      (fuel i : ℕ) (deadline : ℤ) (rounds : ℕ)
      → sleep_loop cancel clock pause fuel i deadline ≡ some (ok rounds)
      → deadline ≤ℤ clock rounds
  unfolding sleep_loop
  loop_not_early zero i deadline rounds h = absurd (ground arith)
  loop_not_early (suc fuel) i deadline rounds h = elim (Bool-cases (lez deadline (clock (suc i)))) [
    | inl over ↦ ground arith
    | inr before ↦ loop_not_early fuel (suc i) deadline rounds (ground arith)
  ]

  -- A sleep that returns has lasted: its last reading of the clock is at least `duration` after the
  -- first one, whatever the flag, the clock and the pauses do.
  pub sleep_not_early :
      (fuel duration rounds : ℕ)
      → run_sleep cancel clock pause fuel duration ≡ some (ok rounds)
      → clock 0 +ℤ pos duration ≤ℤ clock rounds
  unfolding run_sleep
  sleep_not_early fuel duration rounds h =
      loop_not_early fuel 0 (clock 0 +ℤ pos duration) rounds (ground arith)

  loop_returns :
      (fuel i n : ℕ) (deadline : ℤ)
      → ((k : ℕ) → cancel k ≡ false)
      → ((k : ℕ) → is_neg (clock k) ≡ false)
      → ((k : ℕ) (slice : ℤ) → pause k slice ≡ true)
      → deadline ≤ℤ clock (suc (i + n))
      → n < fuel
      → (rounds : ℕ) × (sleep_loop cancel clock pause fuel i deadline ≡ some (ok rounds))
        × (rounds ≤ suc (i + n))
  unfolding sleep_loop
  loop_returns zero i n deadline c r p h l = absurd (omega (arith, l))
  loop_returns (suc fuel) i n deadline c r p h l =
      elim (Bool-cases (lez deadline (clock (suc i)))) [
        | inl over ↦ (suc i, rw (c (suc i), r (suc i), over) refl, omega arith)
        | inr before ↦ elim (later n h) [
          | inl over ↦ absurd (ground arith)
          | inr (m, e) ↦
              let there : suc (suc i + m) ≡ suc (i + n) = omega (arith, e) in
              let (rounds, same, bound) =
                loop_returns fuel (suc i) m deadline c r p (rw there h) (omega (arith, l, e)) in
              (rounds, rw (c (suc i), r (suc i), before, p i _) same, omega (arith, bound, e))
        ]
      ]
    where
      later :
          (n : ℕ)
          → deadline ≤ℤ clock (suc (i + n))
          → (deadline ≤ℤ clock (suc i)) ⊎ ((m : ℕ) × (n ≡ suc m))
      later zero h = let e : i + 0 ≡ i = omega arith in inl (rw e at h)
      later (suc m) h = inr (m, refl)

  -- While the flag stays clear and neither the clock nor a pause fails, a sleep whose deadline is
  -- reached by the clock's reading `n + 1` returns after at most `n + 1` rounds, with fuel for more
  -- than `n` of them.
  pub sleep_returns :
      (fuel n duration : ℕ)
      → ((k : ℕ) → cancel k ≡ false)
      → ((k : ℕ) → is_neg (clock k) ≡ false)
      → ((k : ℕ) (slice : ℤ) → pause k slice ≡ true)
      → clock 0 +ℤ pos duration ≤ℤ clock (suc n)
      → n < fuel
      → (rounds : ℕ) × (run_sleep cancel clock pause fuel duration ≡ some (ok rounds))
        × (rounds ≤ suc n)
  unfolding run_sleep
  sleep_returns fuel n duration c r p h l =
      let e : 0 + n ≡ n = omega arith in
      let (rounds, same, bound) =
        loop_returns fuel 0 n (clock 0 +ℤ pos duration) c r p (rw e h) l in
      (rounds, rw (r 0) same, omega (arith, bound))
