-- ===== src/Task/Tests.antt =====
-- Runs of the executor, and the theorems at concrete inputs.
use flatline_c.Prelude.{
  ℕ, length, ◌*◌, ◌≤◌, ◌≡◌, refl, Bool, true, false, none, some, List, [], ◌∷◌, arith,
}
use flatline_c.Prelude.Int.{ℤ, pos, ◌+ℤ◌, ◌≤ℤ◌}
use flatline_c.Prelude.Result.{ok}
use flatline_c.Job.{Bytes}
use flatline_c.Task.{
  invalid_argument, cancelled, parse_number, parse_digits, fibonacci, hash, count_primes,
  no_divisor, sleep_loop, run_sleep, execute,
}
use flatline_c.Task.Parse.{parse_spec, parse_number_refines}
use flatline_c.Task.Fibonacci.{fib, fibonacci-fib}
use flatline_c.Task.Primes.{primes_upto}
use flatline_c.Task.PrimeCount.{count_primes-primes_upto}
use flatline_c.Task.Sleep.{sleep_not_early, sleep_returns}

abbrev text : List ℕ → Bytes
text bytes = record { start = some bytes; size = length bytes }

abbrev clear : ℕ → Bool
clear k = false

-- A clock that shows 10 ms more at each reading, and pauses that end well.
abbrev ticking : ℕ → ℤ
ticking k = pos (k * 10)

abbrev paused : ℕ → ℤ → Bool
paused k slice = true

parse_number_refines_example : parse_number 93 (52 ∷ 50 ∷ []) ≡ parse_spec 93 (52 ∷ 50 ∷ [])
parse_number_refines_example = parse_number_refines 93 (52 ∷ 50 ∷ []) (omega arith)

parsed : parse_number 93 (52 ∷ 50 ∷ []) ≡ some 42
unfolding parse_number
parsed = refl

too_large : parse_number 93 (57 ∷ 52 ∷ []) ≡ none
unfolding parse_number
too_large = refl

fibonacci-fib_example : fibonacci 93 ≡ fib 93
fibonacci-fib_example = fibonacci-fib 93 (omega arith)

slept : run_sleep clear ticking paused 9 35 ≡ some (ok 4)
unfolding run_sleep
slept = refl

sleep_not_early_example : ticking 0 +ℤ pos 35 ≤ℤ ticking 4
sleep_not_early_example = sleep_not_early clear ticking paused 9 35 4 slept

sleep_returns_example :
    (rounds : ℕ) × (run_sleep clear ticking paused 9 35 ≡ some (ok rounds)) × (rounds ≤ 4)
sleep_returns_example =
    sleep_returns clear ticking paused 9 3 35 (λ k. refl) (λ k. refl) (λ k slice. refl)
      (omega arith) (omega arith)

-- 8 primes up to 20, and the hash of "a".
primes_20 : execute clear ticking paused 0 2 (text (50 ∷ 48 ∷ [])) ≡ some (ok (56 ∷ []))
unfolding execute flatline_c.Task.prime_task flatline_c.Task.decimal
primes_20 = refl

hash_a : hash (97 ∷ []) ≡ 12638187200555641996
unfolding hash
hash_a = refl

count_primes-primes_upto_example :
    (loads : ℕ) × (count_primes clear 20 1 3 20 1 ≡ ok (primes_upto 20, loads))
count_primes-primes_upto_example = count_primes-primes_upto clear 20 1 (λ i. refl)

counted : primes_upto 20 ≡ 8
unfolding primes_upto
counted = refl
