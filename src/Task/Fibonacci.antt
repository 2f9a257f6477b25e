-- ===== src/Task/Fibonacci.antt =====
-- The Fibonacci task against the recurrence.
use flatline_c.Prelude.{
  false, ℕ, zero, suc, ◌+◌, ◌-◌, ◌%◌, ◌^◌, ◌≤◌, ◌<◌, ◌≡◌, refl, sym, ap, ◌∙◌, ◌==◌, arith,
}
use flatline_c.Task.{fibonacci_loop, fibonacci, fibonacci_max}

unfoldable pub fib : ℕ → ℕ
fib zero = 0
fib (suc zero) = 1
fib (suc (suc n)) = fib (suc n) + fib n

fib-step : (n : ℕ) → fib n ≤ fib (suc n)
unfolding fib
fib-step zero = omega arith
fib-step (suc zero) = omega arith
fib-step (suc (suc n)) = omega arith

fib-le : (n k : ℕ) → fib n ≤ fib (n + k)
fib-le n zero = let e : n + 0 ≡ n = omega arith in rw e (omega arith)
fib-le n (suc k) =
    let e : n + suc k ≡ suc (n + k) = omega arith in
    rw e (omega (arith, fib-le n k, fib-step (n + k)))

-- Two neighbours, computed from the front.
unfoldable pair : ℕ → ℕ × ℕ
pair zero = (0, 1)
pair (suc n) = let (a, b) = pair n in (b, b + a)

pair-fib : (n : ℕ) → pair n ≡ (fib n, fib (suc n))
unfolding pair fib
pair-fib zero = refl
pair-fib (suc n) = rw (pair-fib n) refl

fib_93 : fib 93 ≡ 12200160415121876738
unfolding pair
fib_93 = ap (λ p. p.0) (sym (pair-fib 93))

fib_next : (n : ℕ) → fib (suc (suc n)) ≡ fib (suc n) + fib n
unfolding fib
fib_next n = refl

fib_bound : (n : ℕ) → n ≤ 93 → fib n < 2 ^ 64
fib_bound n h =
    let e : n + (93 - n) ≡ 93 = omega arith in
    let below : fib n ≤ fib 93 = rw⁻¹ e (fib-le n (93 - n)) in omega (arith, below, fib_93)

loop-fib : (k i : ℕ) → suc i + k ≤ 93 → fibonacci_loop k (fib i) (fib (suc i)) ≡ fib (suc i + k)
unfolding fibonacci_loop
loop-fib zero i h = let e : suc i + 0 ≡ suc i = omega arith in rw e refl
loop-fib (suc k) i h =
    let bound = fib_bound (suc (suc i)) (omega (arith, h)) in
    let next = fib_next i in
    let small : (fib i + fib (suc i)) % 2 ^ 64 ≡ fib (suc (suc i)) = omega (arith, bound, next) in
    let e : suc i + suc k ≡ suc (suc i) + k = omega arith in
    rw (small, e) (loop-fib k (suc i) (omega (arith, h)))

-- Up to the limit of the task, its loop computes the Fibonacci numbers: no sum wraps.
pub fibonacci-fib : (n : ℕ) → n ≤ fibonacci_max → fibonacci n ≡ fib n
unfolding fibonacci fib
fibonacci-fib zero h = refl
fibonacci-fib (suc n) h =
    let e : suc n - 1 ≡ n = omega arith in
    let positive : (suc n == 0) ≡ false = ground arith in
    let f : suc 0 + n ≡ suc n = omega arith in
    rw (positive, e) (loop-fib n 0 (omega (arith, h)) ∙ ap fib f)
