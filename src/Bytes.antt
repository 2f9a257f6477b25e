-- ===== src/Bytes.antt =====
-- Big-endian fields: the helpers that coordinator/wal_format.c and common/protocol.c both have, the
-- latter under the names `write_u16_be`, `read_u16_be` and so on.
use flatline_c.Prelude.{
  ℕ, ◌+◌, ◌*◌, ◌/◌, ◌%◌, ◌^◌, ◌<◌, ◌≡◌, none, some, List, [], ◌∷◌, ◌++◌, get_elem?, arith,
}

unfoldable pub put_u16 : ℕ → List ℕ
put_u16 v = v / 2 ^ 8 % 2 ^ 8 ∷ v % 2 ^ 8 ∷ []

unfoldable pub put_u32 : ℕ → List ℕ
put_u32 v = v / 2 ^ 24 % 2 ^ 8 ∷ v / 2 ^ 16 % 2 ^ 8 ∷ v / 2 ^ 8 % 2 ^ 8 ∷ v % 2 ^ 8 ∷ []

unfoldable pub put_u64 : ℕ → List ℕ
unfolding put_u32
put_u64 v = put_u32 (v / 2 ^ 32 % 2 ^ 32) ++ put_u32 (v % 2 ^ 32)

-- The byte at an offset; the callers check the size before they read.
abbrev pub byte_at : List ℕ → ℕ → ℕ
byte_at bytes i = elim (get_elem? bytes i) [ none ↦ 0 | some b ↦ b ]

-- The bytes that are shifted together do not overlap, so that `|` adds them.
abbrev pub u16_of : ℕ → ℕ → ℕ
u16_of a b = a * 2 ^ 8 + b

abbrev pub u32_of : ℕ → ℕ → ℕ → ℕ → ℕ
u32_of a b c d = a * 2 ^ 24 + b * 2 ^ 16 + c * 2 ^ 8 + d

unfoldable pub get_u16 : List ℕ → ℕ → ℕ
get_u16 bytes i = u16_of (byte_at bytes i) (byte_at bytes (i + 1))

unfoldable pub get_u32 : List ℕ → ℕ → ℕ
get_u32 bytes i =
    u32_of (byte_at bytes i) (byte_at bytes (i + 1)) (byte_at bytes (i + 2)) (byte_at bytes (i + 3))

unfoldable pub get_u64 : List ℕ → ℕ → ℕ
unfolding get_u32
get_u64 bytes i = get_u32 bytes i * 2 ^ 32 + get_u32 bytes (i + 4)

pub u16_of_bytes : (v : ℕ) → v < 2 ^ 16 → u16_of (v / 2 ^ 8 % 2 ^ 8) (v % 2 ^ 8) ≡ v
u16_of_bytes v h = omega arith

pub u32_of_bytes :
    (v : ℕ)
    → v < 2 ^ 32
    → u32_of (v / 2 ^ 24 % 2 ^ 8) (v / 2 ^ 16 % 2 ^ 8) (v / 2 ^ 8 % 2 ^ 8) (v % 2 ^ 8) ≡ v
u32_of_bytes v h = omega arith

abbrev halves : ℕ → ℕ → ℕ
halves hi lo =
    u32_of (hi / 2 ^ 24 % 2 ^ 8) (hi / 2 ^ 16 % 2 ^ 8) (hi / 2 ^ 8 % 2 ^ 8) (hi % 2 ^ 8) * 2 ^ 32
    + u32_of (lo / 2 ^ 24 % 2 ^ 8) (lo / 2 ^ 16 % 2 ^ 8) (lo / 2 ^ 8 % 2 ^ 8) (lo % 2 ^ 8)

pub u64_of_bytes : (v : ℕ) → v < 2 ^ 64 → halves (v / 2 ^ 32 % 2 ^ 32) (v % 2 ^ 32) ≡ v
u64_of_bytes v h =
    let hi = u32_of_bytes (v / 2 ^ 32 % 2 ^ 32) (omega arith) in
    let lo = u32_of_bytes (v % 2 ^ 32) (omega arith) in rw (hi, lo) (omega arith)
