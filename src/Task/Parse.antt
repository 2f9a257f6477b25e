-- ===== src/Task/Parse.antt =====
-- `parse_number` against the value of a decimal numeral.
use flatline_c.Prelude.{
  ℕ, ◌+◌, ◌-◌, ◌*◌, ◌%◌, ◌^◌, ◌≤◌, ◌<◌, ◌≡◌, refl, Bool, Bool-cases, inl, inr, true, not, ◌&&◌,
  Option, none, some, List, [], ◌∷◌, leb, if◌then◌else◌, arith,
}
use flatline_c.Task.{not_digit, above, parse_digits, parse_number}

-- The value of a numeral, read from its front after the value `acc`.
unfoldable value_of : ℕ → List ℕ → ℕ
value_of acc [] = acc
value_of acc (b ∷ bytes) = value_of (acc * 10 + (b - 48)) bytes

unfoldable are_digits : List ℕ → Bool
are_digits [] = true
are_digits (b ∷ bytes) = not (not_digit b) && are_digits bytes

-- The number that is meant, if there is one within the limit.
unfoldable parse_rest : ℕ → ℕ → List ℕ → Option ℕ
unfolding value_of are_digits
parse_rest limit acc bytes =
    if are_digits bytes && leb (value_of acc bytes) limit then some (value_of acc bytes) else none

unfoldable pub parse_spec : ℕ → List ℕ → Option ℕ
unfolding parse_rest
parse_spec limit [] = none
parse_spec limit (b ∷ bytes) = parse_rest limit 0 (b ∷ bytes)

value_of-le : (acc : ℕ) (bytes : List ℕ) → acc ≤ value_of acc bytes
unfolding value_of
value_of-le acc [] = omega arith
value_of-le acc (b ∷ bytes) = omega (arith, value_of-le (acc * 10 + (b - 48)) bytes)

above_iff : (limit acc d : ℕ) → d ≤ 9 → above limit acc d ≡ not (leb (acc * 10 + d) limit)
above_iff limit acc d h = ground arith

parse_digits-refines :
    (limit acc : ℕ) (bytes : List ℕ)
    → limit < 2 ^ 64
    → acc ≤ limit
    → parse_digits limit acc bytes ≡ parse_rest limit acc bytes
unfolding parse_digits parse_rest value_of are_digits
parse_digits-refines limit acc [] word h = ground arith
parse_digits-refines limit acc (b ∷ bytes) word h = elim (Bool-cases (not_digit b)) [
  | inl other ↦ rw other refl
  | inr digit ↦ rw digit (elim (Bool-cases (above limit acc (b - 48))) [
    | inl large ↦ rw large (
        ground (
          arith,
          above_iff limit acc (b - 48) (ground arith),
          value_of-le (acc * 10 + (b - 48)) bytes,
        ))
    | inr fits ↦ rw fits (
        let step : acc * 10 + (b - 48) ≤ limit =
          ground (arith, above_iff limit acc (b - 48) (ground arith)) in
        let small : (acc * 10 + (b - 48)) % 2 ^ 64 ≡ acc * 10 + (b - 48) =
          omega (arith, step, word) in
        rw small (parse_digits-refines limit (acc * 10 + (b - 48)) bytes word step))
  ])
]

-- Parsing answers with the value of a nonempty numeral of decimal digits that is at most the limit,
-- and with a failure otherwise: neither the limit nor the 64 bits are ever passed on the way. The
-- limit is a 64-bit number.
pub parse_number_refines :
    (limit : ℕ) (bytes : List ℕ)
    → limit < 2 ^ 64
    → parse_number limit bytes ≡ parse_spec limit bytes
unfolding parse_number parse_spec
parse_number_refines limit [] word = refl
parse_number_refines limit (b ∷ bytes) word =
    parse_digits-refines limit 0 (b ∷ bytes) word (omega arith)
