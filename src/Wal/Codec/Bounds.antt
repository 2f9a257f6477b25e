-- ===== src/Wal/Codec/Bounds.antt =====
-- How many bytes the encoder of records writes.
use flatline_c.Prelude.{
  ℕ, ◌+◌, ◌<◌, ◌≤◌, ◌≡◌, inl, inr, ap, ◌∙◌, Bool-cases, false, ltb, ◌==◌, List, length, arith,
}
use flatline_c.Prelude.Result.{ok}
use flatline_c.Wal.Format.{
  Record, Entry, worker_id_allocated, job_snapshot, record_header_size, max_payload_size,
}
use flatline_c.Wal.Codec.{record_encode}
use flatline_c.Wal.Codec.RoundTrip.{size_of, entry_Bounded, record_encode_effect, length-frame}

some_payload : (e : Entry) → 0 < size_of e
some_payload (worker_id_allocated id) = omega arith
some_payload (job_snapshot kind j) = omega arith

-- What `record_encode` writes is longer than a header, and has no more bytes than the buffer has room
-- for, nor than a record can have.
pub record_encode_bounds :
    (capacity : ℕ) (r : Record) (bytes : List ℕ)
    → record_encode capacity r ≡ ok bytes
    → (record_header_size < length bytes)
      × (length bytes ≤ capacity)
      × (length bytes ≤ record_header_size + max_payload_size)
unfolding record_encode
record_encode_bounds capacity r bytes h =
    let (same, some_sequence, valid) = record_encode_effect capacity r bytes h in
    let (minimum, maximum, bounds, size, least, most, small) = entry_Bounded r.entry valid in
    let long : length bytes ≡ 32 + size_of r.entry = ap length same ∙ length-frame r in
    let numbered : (r.sequence == 0) ≡ false = ground arith in
    let h' = rw (bounds, valid, size, numbered) at h in
    elim (Bool-cases (ltb capacity (32 + size_of r.entry))) [
      | inl short ↦ let h2 = rw short at h' in cc
      | inr fits ↦ (
        omega (arith, long, some_payload r.entry),
        ground (arith, long, fits),
        omega (arith, long, most, small),
      )
    ]
