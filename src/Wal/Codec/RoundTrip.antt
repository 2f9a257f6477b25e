-- ===== src/Wal/Codec/RoundTrip.antt =====
-- Records: what is decoded from the bytes of a record, whole or cut short.
use flatline_c.Prelude.{
  ==_self, ℕ, ◌+◌, ◌-◌, ◌^◌, ◌≤◌, ◌<◌, ◌≡◌, ◌≢◌, refl, sym, ap, subst, Bool-cases, inl, inr, true,
  false, ◌||◌, List, ◌++◌, ltb, ◌==◌, length, take, arith, length-append, take-append, length-take,
  take-past, append_assoc, AllTrue, every-AllTrue,
}
use flatline_c.Prelude.Result.{ok, err, Result-cases, ok_inj}
use flatline_c.Bytes.{put_u16, put_u32, put_u64, get_u32, u32_of_bytes}
use flatline_c.Job.{Job}
use flatline_c.Wal.Format.{
  max_payload_size, JobRecord, job_created, job_requeued, job_assigned, job_started, job_completed,
  job_failed, Entry, worker_id_allocated, job_snapshot, Record, RecordHeader, incomplete, type_code,
  job_record_code, crc32, payload_bounds, valid_job, conditions,
}
use flatline_c.Wal.Codec.{
  sealed, record_fields, record_header_decode, payload_size, payload_bytes, valid_entry,
  record_encode, decode_entry, record_decode,
}
use flatline_c.Wal.Codec.Fields.{crc32_bound, Fits, HeaderFields, header_fields, length-encode_job}
use flatline_c.Wal.Codec.JobTrip.{decode_job-encode_job, job_record_of-job_record_code}

-- The bytes of a record, with the size of its payload.
abbrev pub size_of : Entry → ℕ
size_of (worker_id_allocated id) = 4
size_of (job_snapshot kind j) = 84 + (length j.arguments + length j.output)

abbrev pub frame : Record → List ℕ
frame r =
    sealed (
      record_fields (type_code r.entry) (size_of r.entry) r.sequence
        (crc32 (payload_bytes r.entry)))
    ++ payload_bytes r.entry

abbrev pub EntryFits : Entry → Type 0
EntryFits (worker_id_allocated id) = id < 2 ^ 32
EntryFits (job_snapshot kind j) = Fits j

-- The bounds of the type of a valid record hold its payload.
abbrev pub Bounded : Entry → Type 0
Bounded e =
    (minimum maximum : ℕ) × (payload_bounds (type_code e) ≡ ok (minimum, maximum))
    × (payload_size minimum e ≡ size_of e)
    × (minimum ≤ size_of e)
    × (size_of e ≤ maximum)
    × (maximum ≤ max_payload_size)

job_Bounded : (k : JobRecord) (j : Job) → AllTrue (conditions k j) → Bounded (job_snapshot k j)
unfolding payload_bounds
job_Bounded job_created j h = (84, 1108, refl, refl, ground arith, ground arith, ground arith)
job_Bounded job_assigned j h = (84, 1108, refl, refl, ground arith, ground arith, ground arith)
job_Bounded job_started j h = (84, 1108, refl, refl, ground arith, ground arith, ground arith)
job_Bounded job_completed j h = (84, 2132, refl, refl, ground arith, ground arith, ground arith)
job_Bounded job_requeued j h = (84, 1108, refl, refl, ground arith, ground arith, ground arith)
job_Bounded job_failed j h = (84, 1108, refl, refl, ground arith, ground arith, ground arith)

pub entry_Bounded : (e : Entry) → valid_entry e ≡ true → Bounded e
unfolding payload_bounds valid_job
entry_Bounded (worker_id_allocated id) h = (4, 4, refl, refl, omega arith, omega arith, omega arith)
entry_Bounded (job_snapshot k j) h = job_Bounded k j (every-AllTrue (conditions k j) h)

entry_code : (e : Entry) → type_code e < 2 ^ 16
entry_code (worker_id_allocated id) = omega arith
entry_code (job_snapshot k j) = ground arith

pub length-payload_bytes : (e : Entry) → length (payload_bytes e) ≡ size_of e
unfolding put_u32
length-payload_bytes (worker_id_allocated id) = refl
length-payload_bytes (job_snapshot k j) = length-encode_job j

-- The parts of an encoding that succeeds.
pub record_encode_effect :
    (capacity : ℕ) (r : Record) (bytes : List ℕ)
    → record_encode capacity r ≡ ok bytes
    → (bytes ≡ frame r) × (r.sequence ≢ 0) × (valid_entry r.entry ≡ true)
unfolding record_encode
record_encode_effect capacity r bytes h = elim (Bool-cases (valid_entry r.entry)) [
  | inl valid ↦
      let (minimum, maximum, bounds, size, _, _, _) = entry_Bounded r.entry valid in
      let h' = rw (bounds, valid, size) at h in
      elim (Bool-cases (r.sequence == 0)) [
        | inl zero_sequence ↦ absurd (ground arith)
        | inr some_sequence ↦ elim (Bool-cases (ltb capacity (32 + size_of r.entry))) [
          | inl small ↦ absurd (ground arith)
          | inr fits ↦ (sym (ok_inj (rw (some_sequence, fits) at h')), ground arith, valid)
        ]
      ]
  | inr wrong ↦ elim (Result-cases (payload_bounds (type_code r.entry))) [
    | inl (b, bounds) ↦ absurd (ground arith)
    | inr (x, bounds) ↦ absurd (ground arith)
  ]
]

abbrev pub fields_of : Record → List ℕ
fields_of r =
    record_fields (type_code r.entry) (size_of r.entry) r.sequence (crc32 (payload_bytes r.entry))

-- The header of a record before any bytes.
frame_fields :
    (r : Record) (rest : List ℕ)
    → r.sequence < 2 ^ 64
    → valid_entry r.entry ≡ true
    → HeaderFields
        (sealed (fields_of r) ++ rest)
        rest
        (type_code r.entry)
        (size_of r.entry)
        r.sequence
        (crc32 (payload_bytes r.entry))
        (crc32 (fields_of r))
        (fields_of r)
frame_fields r rest word valid =
    let (_, _, _, _, _, most, least) = entry_Bounded r.entry valid in
    header_fields rest (type_code r.entry) (size_of r.entry) r.sequence
      (crc32 (payload_bytes r.entry)) (crc32 (fields_of r)) (entry_code r.entry)
      (omega (arith, most, least)) word (crc32_bound _) (crc32_bound _)

abbrev pub header_of : Record → RecordHeader
header_of r = record {
  type = type_code r.entry;
  sequence = r.sequence;
  payload_length = size_of r.entry;
  payload_crc32 = crc32 (payload_bytes r.entry);
}

-- The header is decoded whatever follows it.
pub header_decoded :
    (r : Record) (rest : List ℕ)
    → r.sequence ≢ 0
    → r.sequence < 2 ^ 64
    → valid_entry r.entry ≡ true
    → record_header_decode (sealed (fields_of r) ++ rest) r.sequence ≡ ok (header_of r)
unfolding record_header_decode
header_decoded r rest positive word valid =
    let f = frame_fields r rest word valid in
    let (minimum, maximum, bounds, size, least, most, _) = entry_Bounded r.entry valid in
    let some_sequence : (r.sequence == 0) ≡ false = ground arith in
    let long : ltb (length (sealed (fields_of r) ++ rest)) 32 ≡ false = ground (arith, f.total) in
    let in_bounds : (ltb (size_of r.entry) minimum || ltb maximum (size_of r.entry)) ≡ false =
      ground (arith, least, most) in
    rw
      (
        some_sequence,
        long,
        f.header_crc,
        f.covered,
        ==_self (crc32 (fields_of r)),
        f.magic,
        f.version,
        f.reserved,
        f.type,
        bounds,
      )
      (rw (f.payload_length, in_bounds, f.number, ==_self r.sequence, f.payload_crc) refl)

entry_decoded :
    (e : Entry) (rest : List ℕ)
    → EntryFits e
    → valid_entry e ≡ true
    → decode_entry (type_code e) (size_of e) (payload_bytes e ++ rest) ≡ ok e
unfolding decode_entry put_u32 get_u32
entry_decoded (worker_id_allocated id) rest f valid =
    let positive : (id == 0) ≡ false = ground arith in rw (u32_of_bytes id f, positive) refl
entry_decoded (job_snapshot k j) rest f valid =
    let other : (job_record_code k == 1) ≡ false = ground arith in
    rw (other, job_record_of-job_record_code k, decode_job-encode_job k j rest valid f) refl

pub length-frame : (r : Record) → length (frame r) ≡ 32 + size_of r.entry
unfolding record_fields put_u16 put_u32 put_u64
length-frame r = omega (arith, length-payload_bytes r.entry)

-- What the encoder writes for a record is decoded as this record, whatever bytes follow it, and all
-- the written bytes are consumed. The fields are in the range of their C types.
pub record_decode-record_encode :
    (capacity : ℕ) (r : Record) (bytes rest : List ℕ)
    → record_encode capacity r ≡ ok bytes
    → r.sequence < 2 ^ 64
    → EntryFits r.entry
    → record_decode (bytes ++ rest) r.sequence ≡ ok (r, length bytes)
unfolding record_decode
record_decode-record_encode capacity r bytes rest h word fits =
    let (same, positive, valid) = record_encode_effect capacity r bytes h in
    let payload = payload_bytes r.entry in
    let long : ltb (length (sealed (fields_of r) ++ (payload ++ rest))) (32 + size_of r.entry)
        ≡ false =
      ground (
        arith,
        (frame_fields r (payload ++ rest) word valid).total,
        length-append payload rest,
        length-payload_bytes r.entry,
      ) in
    let whole : take (size_of r.entry) (payload ++ rest) ≡ payload =
      rw (← length-payload_bytes r.entry) (take-append payload rest) in
    rw
      (
        same,
        append_assoc (sealed (fields_of r)) payload rest,
        header_decoded r (payload ++ rest) positive word valid,
        long,
      )
      (rw
        (
          (frame_fields r (payload ++ rest) word valid).payload,
          whole,
          ==_self (crc32 payload),
          entry_decoded r.entry rest fits valid,
        )
        (ap (λ k. ok (r, k)) (sym (length-frame r))))

take-frame :
    (r : Record) (m : ℕ)
    → take (32 + m) (frame r) ≡ sealed (fields_of r) ++ take m (payload_bytes r.entry)
unfolding record_fields put_u16 put_u32 put_u64
take-frame r m = take-past (sealed (fields_of r)) (payload_bytes r.entry) m

decoded_early :
    (wire : List ℕ) (sequence : ℕ)
    → sequence ≢ 0
    → length wire < 32
    → record_decode wire sequence ≡ err incomplete
unfolding record_decode record_header_decode
decoded_early wire sequence positive short =
    let some_sequence : (sequence == 0) ≡ false = ground arith in
    let early : ltb (length wire) 32 ≡ true = ground arith in rw (some_sequence, early) refl

decoded_late :
    (r : Record) (n : ℕ)
    → r.sequence ≢ 0
    → r.sequence < 2 ^ 64
    → valid_entry r.entry ≡ true
    → n < size_of r.entry
    → record_decode (sealed (fields_of r) ++ take n (payload_bytes r.entry)) r.sequence
      ≡ err incomplete
unfolding record_decode
decoded_late r n positive word valid short =
    let payload = payload_bytes r.entry in
    let total = (frame_fields r (take n payload) word valid).total in
    let cut = length-take n payload (omega (arith, length-payload_bytes r.entry, short)) in
    let missing : ltb (length (sealed (fields_of r) ++ take n payload)) (32 + size_of r.entry)
        ≡ true =
      ground (arith, total, cut, short) in
    rw (header_decoded r (take n payload) positive word valid, missing) refl

-- A record that is cut short anywhere is reported as incomplete, and never as another record or as a
-- corrupt one. The sequence number is a 64-bit number.
pub record_decode_cut :
    (capacity : ℕ) (r : Record) (bytes : List ℕ) (n : ℕ)
    → record_encode capacity r ≡ ok bytes
    → r.sequence < 2 ^ 64
    → n < length bytes
    → record_decode (take n bytes) r.sequence ≡ err incomplete
record_decode_cut capacity r bytes n h word short =
    let (same, positive, valid) = record_encode_effect capacity r bytes h in
    let size = length-frame r in
    subst (λ b. record_decode (take n b) r.sequence ≡ err incomplete) (sym same)
      (elim (Bool-cases (ltb n 32)) [
        | inl early ↦
            decoded_early (take n (frame r)) r.sequence positive
              (ground (arith, length-take n (frame r), same, size, short))
        | inr late ↦
            let m = n - 32 in
            let e : n ≡ 32 + m = ground arith in
            subst (λ k. record_decode (take k (frame r)) r.sequence ≡ err incomplete) (sym e)
              (rw (take-frame r m)
                (decoded_late r m positive word valid (ground (arith, same, size, short))))
      ])
