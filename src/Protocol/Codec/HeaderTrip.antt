-- ===== src/Protocol/Codec/HeaderTrip.antt =====
-- The round trip of headers.
use flatline_c.Prelude.{
  ℕ, ◌^◌, ◌<◌, ◌≡◌, refl, Bool-cases, inl, inr, false, List, ◌++◌, ltb, length, arith,
}
use flatline_c.Prelude.Result.{ok, Result-cases}
use flatline_c.Bytes.{put_u16, put_u32, get_u16, get_u32, u16_of_bytes, u32_of_bytes}
use flatline_c.Protocol.Frame.{Header, validate_header}
use flatline_c.Protocol.Codec.{header_bytes, header_encode, read_header, header_decode}

-- The fields are in the range of their C types.
pub record Fits (h : Header) : Type 0 where
  pub magic : h.magic < 2 ^ 32
  pub version : h.version < 2 ^ 16
  pub message_type : h.message_type < 2 ^ 16
  pub payload_length : h.payload_length < 2 ^ 32

pub read-header_bytes :
    (h : Header) (rest : List ℕ) → Fits h → read_header (header_bytes h ++ rest) ≡ h
unfolding read_header header_bytes put_u16 put_u32 get_u16 get_u32
read-header_bytes h rest f =
    rw
      (
        u32_of_bytes h.magic f.magic,
        u16_of_bytes h.version f.version,
        u16_of_bytes h.message_type f.message_type,
        u32_of_bytes h.payload_length f.payload_length,
      )
      refl

pub length-header_bytes : (h : Header) → length (header_bytes h) ≡ 12
unfolding header_bytes put_u16 put_u32
length-header_bytes h = refl

long_enough : (h : Header) (rest : List ℕ) → ltb (length (header_bytes h ++ rest)) 12 ≡ false
unfolding header_bytes put_u16 put_u32
long_enough h rest = ground arith

pub header_encode_effect :
    (n : ℕ) (h : Header) (bytes : List ℕ)
    → header_encode n h ≡ ok bytes
    → (bytes ≡ header_bytes h) × (validate_header h ≡ ok tt)
unfolding header_encode
header_encode_effect n h bytes e = elim (Bool-cases (ltb n 12)) [
  | inl small ↦ absurd (ground arith)
  | inr room ↦ elim (Result-cases (validate_header h)) [
    | inl (u, valid) ↦ (ground arith, valid)
    | inr (x, wrong) ↦ absurd (ground arith)
  ]
]

pub header_decoded :
    (h : Header) (rest : List ℕ)
    → Fits h
    → validate_header h ≡ ok tt
    → header_decode (header_bytes h ++ rest) ≡ ok h
unfolding header_decode
header_decoded h rest f valid = rw (long_enough h rest, read-header_bytes h rest f, valid) refl

-- A header that is encoded, with fields in the range of their C types, is decoded as itself, whatever
-- follows it.
pub header_decode-header_encode :
    (n : ℕ) (h : Header) (bytes rest : List ℕ)
    → header_encode n h ≡ ok bytes
    → Fits h
    → header_decode (bytes ++ rest) ≡ ok h
header_decode-header_encode n h bytes rest e f =
    let (same, valid) = header_encode_effect n h bytes e in rw same (header_decoded h rest f valid)
