-- ===== src/Wal/Codec/FileHeader.antt =====
-- The header of the log's file.
use flatline_c.Prelude.{
  ℕ, ◌≡◌, refl, Bool-cases, inl, inr, false, List, ◌++◌, ltb, ==_self, length, take, arith,
}
use flatline_c.Prelude.Result.{ok, ok_inj}
use flatline_c.Bytes.{put_u16, put_u32, get_u16, get_u32, u32_of_bytes}
use flatline_c.Wal.Format.{crc32}
use flatline_c.Wal.Codec.{sealed, file_fields, file_header_encode, file_header_decode}
use flatline_c.Wal.Codec.Fields.{crc32_bound}

record FileFields (wire : List ℕ) : Type 0 where
  version : get_u16 wire 8 ≡ 1
  size : get_u16 wire 10 ≡ 24
  first : get_u32 wire 12 ≡ 0
  second : get_u32 wire 16 ≡ 0
  own : get_u32 wire 20 ≡ crc32 file_fields
  covered : take 20 wire ≡ file_fields
  long : ltb (length wire) 24 ≡ false

file_header_fields : (rest : List ℕ) → FileFields (sealed file_fields ++ rest)
unfolding put_u16 put_u32 get_u16 get_u32
file_header_fields rest = record {
  version = refl;
  size = refl;
  first = refl;
  second = refl;
  own = u32_of_bytes (crc32 file_fields) (crc32_bound file_fields);
  covered = refl;
  long = ground arith;
}

-- The file header that is written is accepted, whatever follows it.
pub file_header_decode-encode :
    (capacity : ℕ) (bytes rest : List ℕ)
    → file_header_encode capacity ≡ ok bytes
    → file_header_decode (bytes ++ rest) ≡ ok tt
unfolding file_header_encode file_header_decode
file_header_decode-encode capacity bytes rest h = elim (Bool-cases (ltb capacity 24)) [
  | inl small ↦ absurd (ground arith)
  | inr fits ↦
      let same = ok_inj (rw fits at h) in
      let f = file_header_fields rest in
      rw (← same) (
        rw (f.long, f.own, f.covered, ==_self (crc32 file_fields))
          (rw (f.version, f.size, f.first, f.second) refl))
]
