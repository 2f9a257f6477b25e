-- ===== src/Task.antt =====
-- include/task.h and worker/task.c: the executor of tasks. The flag of cancellation, the clock and
-- the pauses are parameters: what the k-th load, the k-th reading and the k-th pause answer.
pub mod Parse
pub mod Fibonacci
pub mod Sleep
pub mod Primes
pub mod PrimeCount
pub mod Tests
use Prim.Native.Nat.{bit_xor}
use flatline_c.Prelude.{
  ℕ, zero, suc, ◌+◌, ◌-◌, ◌*◌, ◌/◌, ◌%◌, ◌^◌, Bool, true, false, not, ◌&&◌, ◌||◌, Option, none,
  some, List, [], ◌∷◌, ◌++◌, ltb, leb, ◌==◌, if◌then◌else◌, length,
}
use flatline_c.Prelude.Int.{ℤ, pos, ◌+ℤ◌, ◌-ℤ◌, is_neg, lez}
use flatline_c.Prelude.Result.{Result, ok, err, ◌>>=◌, ◌>>◌, reject}
use flatline_c.Job.{
  Bytes, copied, is_null, max_argument_size, max_result_size, task_sleep, task_prime_count,
  task_fibonacci, task_hash,
}

abbrev pub sleep_max_ms : ℕ
sleep_max_ms = 86400000

abbrev pub prime_count_max : ℕ
prime_count_max = 100000000

abbrev pub fibonacci_max : ℕ
fibonacci_max = 93

pub data TaskError : Type 0 where
  invalid_argument cancelled system_error : TaskError

-- Not a decimal digit.
abbrev pub not_digit : ℕ → Bool
not_digit b = ltb b 48 || ltb 57 b

-- `value * 10 + digit` is above the limit.
abbrev pub above : ℕ → ℕ → ℕ → Bool
above limit value digit = ltb (limit / 10) value || value == limit / 10 && ltb (limit % 10) digit

unfoldable pub parse_digits : ℕ → ℕ → List ℕ → Option ℕ
parse_digits limit value [] = some value
parse_digits limit value (b ∷ bytes) =
    let rest = parse_digits limit ((value * 10 + (b - 48)) % 2 ^ 64) bytes in
    if not_digit b || above limit value (b - 48) then none else rest

unfoldable pub parse_number : ℕ → List ℕ → Option ℕ
unfolding parse_digits
parse_number limit [] = none
parse_number limit (b ∷ bytes) = parse_digits limit 0 (b ∷ bytes)

-- The loop of the Fibonacci task, so many times.
unfoldable pub fibonacci_loop : ℕ → ℕ → ℕ → ℕ
fibonacci_loop zero previous current = current
fibonacci_loop (suc n) previous current = fibonacci_loop n current ((previous + current) % 2 ^ 64)

unfoldable pub fibonacci : ℕ → ℕ
unfolding fibonacci_loop
fibonacci number = if number == 0 then 0 else fibonacci_loop (number - 1) 0 1

-- FNV-1a
unfoldable pub hash_bytes : ℕ → List ℕ → ℕ
hash_bytes hash [] = hash
hash_bytes hash (b ∷ bytes) = hash_bytes (bit_xor hash b * 1099511628211 % 2 ^ 64) bytes

unfoldable pub hash : List ℕ → ℕ
unfolding hash_bytes
hash bytes = hash_bytes 14695981039346656037 bytes

-- Decimal digits, at most so many: `%PRIu64`.
unfoldable pub decimal : ℕ → ℕ → List ℕ
decimal zero n = []
decimal (suc digits) n =
    let front = decimal digits (n / 10) in
    if ltb n 10 then (48 + n) ∷ [] else front ++ (48 + n % 10) ∷ []

abbrev hex_digit : ℕ → ℕ
hex_digit n = if ltb n 10 then 48 + n else 87 + n

-- `%016PRIx64`
unfoldable pub hexadecimal : ℕ → ℕ → List ℕ
hexadecimal zero n = []
hexadecimal (suc digits) n = hexadecimal digits (n / 16) ++ hex_digit (n % 16) ∷ []

-- "slept_ms="
abbrev pub slept_ms : List ℕ
slept_ms = 115 ∷ 108 ∷ 101 ∷ 112 ∷ 116 ∷ 95 ∷ 109 ∷ 115 ∷ 61 ∷ []

abbrev limit_of : ℕ → Result TaskError ℕ
limit_of task_type =
    if task_type == task_sleep
    then ok sleep_max_ms
    else if task_type == task_prime_count
    then ok prime_count_max
    else if task_type == task_fibonacci
    then ok fibonacci_max
    else if task_type == task_hash
    then ok 0
    else err invalid_argument

abbrev number_of : ℕ → ℕ → List ℕ → Result TaskError ℕ
number_of task_type limit arguments =
    if task_type == task_hash
    then ok 0
    else elim (parse_number limit arguments) [ none ↦ err invalid_argument | some n ↦ ok n ]

-- At most 20 ms at a time.
abbrev slice : ℤ → ℤ
slice remaining = if lez remaining (pos 20) then remaining else pos 20

abbrev bit : Bool → ℕ
bit true = 1
bit false = 0

module _ (cancel : ℕ → Bool) where
  -- The loop over the divisors, with at most `fuel` rounds: whether none divides, and the loads of
  -- the flag so far.
  unfoldable pub no_divisor : ℕ → ℕ → ℕ → ℕ → Result TaskError (Bool × ℕ)
  no_divisor zero k candidate divisor = ok (true, k)
  no_divisor (suc fuel) k candidate divisor =
      let rest = no_divisor fuel (suc k) candidate (divisor + 2) in
      if ltb (candidate / divisor) divisor
      then ok (true, k)
      else if cancel k
      then err cancelled
      else if candidate % divisor == 0
      then ok (false, suc k)
      else rest

  -- The loop over the odd candidates, with at most `fuel` rounds.
  unfoldable pub count_primes : ℕ → ℕ → ℕ → ℕ → ℕ → Result TaskError (ℕ × ℕ)
  unfolding no_divisor
  count_primes zero k candidate number count = ok (count, k)
  count_primes (suc fuel) k candidate number count =
      if ltb number candidate then ok (count, k) else if cancel k then err cancelled else do
        (prime, loads) ← no_divisor candidate (suc k) candidate 3
        count_primes fuel loads (candidate + 2) number (count + bit prime)

  -- The end of the executor: the text has to fit, and the flag is loaded once more.
  unfoldable pub finish : ℕ → List ℕ → Result TaskError (List ℕ)
  finish k text = do
    reject (not (ltb (length text) max_result_size)) system_error
    reject (cancel k) cancelled
    ok text

  unfoldable pub prime_task : ℕ → Result TaskError (List ℕ)
  unfolding count_primes finish
  prime_task number = do
    (count, loads) ← count_primes number 1 3 number (if leb 2 number then 1 else 0)
    finish loads (decimal 20 count)

  -- The tasks that compute, after the load of the flag at the start.
  unfoldable pub compute : ℕ → ℕ → List ℕ → Result TaskError (List ℕ)
  unfolding count_primes finish hash
  compute task_type number arguments =
      if task_type == task_prime_count
      then prime_task number
      else if task_type == task_fibonacci
      then finish 1 (decimal 20 (fibonacci number))
      else finish 1 (hexadecimal 16 (hash arguments))

-- The flag, the clock and the pauses.
module _ (cancel : ℕ → Bool) (clock : ℕ → ℤ) (pause : ℕ → ℤ → Bool) where
  -- The loop of the sleep, in its round `i`, with at most `fuel` more; `none` says that the deadline
  -- lies behind them. The flag was loaded once before the loop, and the clock read once.
  unfoldable pub sleep_loop : ℕ → ℕ → ℤ → Option (Result TaskError ℕ)
  sleep_loop zero i deadline = none
  sleep_loop (suc fuel) i deadline =
      let rest = sleep_loop fuel (suc i) deadline in
      if cancel (suc i)
      then some (err cancelled)
      else if is_neg (clock (suc i))
      then some (err system_error)
      else if lez deadline (clock (suc i))
      then some (ok (suc i))
      else if not (pause i (slice (deadline -ℤ clock (suc i))))
      then some (err system_error)
      else rest

  unfoldable pub run_sleep : ℕ → ℕ → Option (Result TaskError ℕ)
  unfolding sleep_loop
  run_sleep fuel duration =
      if is_neg (clock 0)
      then some (err system_error)
      else sleep_loop fuel 0 (clock 0 +ℤ pos duration)

  abbrev after_sleep : ℕ → Option (Result TaskError ℕ) → Option (Result TaskError (List ℕ))
  after_sleep number none = none
  after_sleep number (some (err e)) = some (err e)
  after_sleep number (some (ok rounds)) =
      some (finish cancel (suc rounds) (slept_ms ++ decimal 20 number))

  abbrev run_task : ℕ → ℕ → List ℕ → Result TaskError ℕ → Option (Result TaskError (List ℕ))
  run_task fuel task_type arguments (err e) = some (err e)
  run_task fuel task_type arguments (ok number) =
      if task_type == task_sleep
      then after_sleep number (run_sleep fuel number)
      else some (compute cancel task_type number arguments)

  -- What is checked before a task runs.
  abbrev prepared : ℕ → Bytes → Result TaskError ℕ
  prepared task_type arguments = do
    reject (is_null arguments.start && not (arguments.size == 0)) invalid_argument
    reject (ltb max_argument_size arguments.size) invalid_argument
    reject (cancel 0) cancelled
    limit ← limit_of task_type
    number_of task_type limit (copied arguments)

  -- The executor; `none` only when a sleep lasts for more than `fuel` rounds.
  unfoldable pub execute : ℕ → ℕ → Bytes → Option (Result TaskError (List ℕ))
  unfolding run_sleep compute parse_number
  execute fuel task_type arguments =
      run_task fuel task_type (copied arguments) (prepared task_type arguments)
