-- ===== src/Wal/Codec/Split.antt =====
-- The two parts of a record that a reader takes one after the other: its header and its payload.
use mathlib.Core.List.{append-nil}
use flatline_c.Prelude.{ℕ, ◌^◌, ◌<◌, ◌≡◌, ◌≢◌, refl, sym, subst, List, [], ◌++◌, length}
use flatline_c.Prelude.Result.{ok}
use flatline_c.Bytes.{put_u16, put_u32, put_u64}
use flatline_c.Wal.Format.{Record, RecordHeader, record_header_size}
use flatline_c.Wal.Codec.{
  sealed, record_fields, payload_bytes, record_header_decode, record_encode, record_decode,
}
use flatline_c.Wal.Codec.RoundTrip.{
  EntryFits, fields_of, header_of, record_encode_effect, header_decoded, length-payload_bytes,
  record_decode-record_encode,
}

pub record IsSplit (r : Record) (wire : List ℕ) : Type 0 where
  pub head : List ℕ
  pub payload : List ℕ
  pub header : RecordHeader
  pub parts : wire ≡ head ++ payload
  pub head_size : length head ≡ record_header_size
  pub header_read : record_header_decode head r.sequence ≡ ok header
  pub payload_size : header.payload_length ≡ length payload
  pub read : record_decode wire r.sequence ≡ ok (r, length wire)
  pub numbered : r.sequence ≢ 0

length-sealed : (r : Record) → length (sealed (fields_of r)) ≡ 32
unfolding record_fields put_u16 put_u32 put_u64
length-sealed r = refl

-- What the encoder writes is read back in two parts.
pub record_encode-IsSplit :
    (capacity : ℕ) (r : Record) (wire : List ℕ)
    → record_encode capacity r ≡ ok wire
    → r.sequence < 2 ^ 64
    → EntryFits r.entry
    → IsSplit r wire
record_encode-IsSplit capacity r wire h word fits =
    let (same, positive, valid) = record_encode_effect capacity r wire h in
    record {
      head = sealed (fields_of r);
      payload = payload_bytes r.entry;
      header = header_of r;
      parts = same;
      head_size = length-sealed r;
      header_read =
          subst (λ x. record_header_decode x r.sequence ≡ ok (header_of r))
            (append-nil (sealed (fields_of r))) (header_decoded r [] positive word valid);
      payload_size = sym (length-payload_bytes r.entry);
      read =
          subst (λ x. record_decode x r.sequence ≡ ok (r, length wire)) (append-nil wire)
            (record_decode-record_encode capacity r wire [] h word fits);
      numbered = positive;
    }
