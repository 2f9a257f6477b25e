-- ===== src/Wal/Replay/Reads.antt =====
-- What the reading loop makes of the file that a writer has written.
use flatline_c.Prelude.{
  ℕ, zero, suc, ◌+◌, ◌-◌, ◌^◌, ◌≤◌, ◌<◌, ◌≡◌, refl, sym, ap, ◌∙◌, subst, Bool, true, false, Option,
  some, List, [], ◌∷◌, ◌++◌, ltb, ◌==◌, length, take, drop, arith, length-append, append_assoc,
  drop-append, take-drop-append2, length-take, take-past, Bool-cases, inl, inr,
}
use flatline_c.Prelude.Result.{ok, err}
use flatline_c.Wal.Format.{Record, record_header_size}
use flatline_c.Wal.Codec.{record_decode, record_header_decode}
use flatline_c.Wal.Codec.Split.{IsSplit}
use flatline_c.Wal.Replay.{apply_record}
use flatline_c.Wal.Replay.History.{
  Progress, finished, applied, moved, with_tail, started, read_payload, round,
}

-- An exact read answers with the bytes of the file that are there, and moves behind them.
pub record IsReader {S : Type 0} (exact : S → ℕ → Option (List ℕ) × S) (position : S → ℕ)
    (file : List ℕ) : Type 0 where
  pub reads : (s : S) (size : ℕ) → (exact s size).0 ≡ some (take size (drop (position s) file))
  pub moves :
      (s : S) (size : ℕ)
      → position (exact s size).1 ≡ position s + length (take size (drop (position s) file))

drop-all : (xs : List ℕ) → drop (length xs) xs ≡ []
drop-all [] = refl
drop-all (x ∷ xs) = drop-all xs

take-short : (xs : List ℕ) (n : ℕ) → length xs ≤ n → take n xs ≡ xs
take-short [] zero h = refl
take-short [] (suc n) h = refl
take-short (x ∷ xs) zero h = absurd (omega (arith, h))
take-short (x ∷ xs) (suc n) h = ap (◌∷◌ x) (take-short xs n (omega (arith, h)))

module _ {S : Type 0} (exact : S → ℕ → Option (List ℕ) × S) (overflow : S → S) (position : S → ℕ)
    (grows : ℕ → Bool) where
  -- What stands at the position is read, and the position is behind it.
  read_part :
      (file before part rest : List ℕ) (s : S) (size : ℕ)
      → IsReader exact position file
      → file ≡ (before ++ part) ++ rest
      → length before ≡ position s
      → length part ≡ size
      → ((exact s size).0 ≡ some part) × (position (exact s size).1 ≡ position s + length part)
  read_part file before part rest s size reader at o n =
      let bytes : take size (drop (position s) file) ≡ part =
        ap (λ f. take size (drop (position s) f)) at
        ∙ ap (λ k. take size (drop k ((before ++ part) ++ rest))) (sym o)
        ∙ ap (λ k. take k (drop (length before) ((before ++ part) ++ rest))) (sym n)
        ∙ take-drop-append2 before part rest in
      (
        reader.reads s size ∙ ap some bytes,
        reader.moves s size ∙ ap (λ b. position s + length b) bytes,
      )

  read_rest :
      (file before rest : List ℕ) (s : S) (size : ℕ)
      → IsReader exact position file
      → file ≡ before ++ rest
      → length before ≡ position s
      → length rest ≤ size
      → (exact s size).0 ≡ some rest
  read_rest file before rest s size reader at o n =
      reader.reads s size
      ∙ ap some (
          ap (λ f. take size (drop (position s) f)) at
          ∙ ap (λ k. take size (drop k (before ++ rest))) (sym o)
          ∙ ap (take size) (drop-append before rest)
          ∙ take-short rest size n)

  -- A round at the start of a whole record applies it.
  pub round_record :
      (file before wire rest : List ℕ) (r : Record) (p : Progress S)
      → IsReader exact position file
      → file ≡ before ++ (wire ++ rest)
      → length before ≡ p.report.valid_bytes
      → position p.reader ≡ p.report.valid_bytes
      → IsSplit r wire
      → r.sequence ≡ p.state.last_sequence + 1
      → r.sequence < 2 ^ 64
      → p.report.valid_bytes + length wire < 2 ^ 63
      → (s : S) × (position s ≡ position p.reader + length wire)
        × (round exact overflow grows p
            ≡ applied
                (moved (started exact overflow grows p) s)
                r
                (length wire)
                (apply_record grows p.state p.index r wire))
  unfolding round read_payload
  round_record file before wire rest r p reader at at_valid here split number word room =
      let head = split.head in
      let payload = split.payload in
      let s = (exact p.reader record_header_size).1 in
      let parts : file ≡ before ++ ((head ++ payload) ++ rest) =
        at ∙ ap (λ w. before ++ (w ++ rest)) split.parts in
      let (first, there) : ((exact p.reader record_header_size).0 ≡ some head)
          × (position s ≡ position p.reader + length head) =
        read_part file before head (payload ++ rest) p.reader record_header_size reader
          (parts ∙ simp append_assoc) (at_valid ∙ sym here) split.head_size in
      let (second, behind) : ((exact s split.header.payload_length).0 ≡ some payload)
          × (position (exact s split.header.payload_length).1 ≡ position s + length payload) =
        read_part file (before ++ head) payload rest s split.header.payload_length reader
          (parts ∙ simp append_assoc)
          (length-append before head ∙ omega (arith, at_valid, here, there))
          (sym split.payload_size) in
      let size : length wire ≡ record_header_size + length payload =
        ap length split.parts ∙ length-append head payload ∙ omega (arith, split.head_size) in
      let header : record_header_decode head (p.state.last_sequence + 1) ≡ ok split.header =
        subst (λ n. record_header_decode head n ≡ ok split.header) number split.header_read in
      let record_read : record_decode (head ++ payload) (p.state.last_sequence + 1)
          ≡ ok (r, length wire) =
        subst (λ w. record_decode w (p.state.last_sequence + 1) ≡ ok (r, length wire)) split.parts
          (subst (λ n. record_decode wire n ≡ ok (r, length wire)) number split.read) in
      let some_bytes : (length head == 0) ≡ false = ground (arith, split.head_size) in
      let not_last : (p.state.last_sequence == 2 ^ 64 - 1) ≡ false = ground arith in
      let long : ltb (length head) 32 ≡ false = ground (arith, split.head_size) in
      let all_there : ltb (length payload) split.header.payload_length ≡ false =
        ground (arith, split.payload_size) in
      let fits : ltb (2 ^ 63 - 1 - (32 + length payload)) p.report.valid_bytes ≡ false =
        ground (arith, size) in
      (
        (exact s split.header.payload_length).1,
        behind ∙ omega (arith, there, size, split.head_size),
        rw (first, some_bytes, not_last, long, header, second)
            (rw (all_there, record_read, fits, ← size, ← split.parts) refl),
      )

  -- A round at the end of the file ends the loop.
  pub round_end :
      (file : List ℕ) (p : Progress S)
      → IsReader exact position file
      → length file ≡ position p.reader
      → (s : S) × (round exact overflow grows p
          ≡ err (record { answer = finished; progress = moved (started exact overflow grows p) s }))
  unfolding round
  round_end file p reader at_end =
      let nothing : (exact p.reader record_header_size).0 ≡ some [] =
        reader.reads p.reader record_header_size
        ∙ ap some (ap (λ k. take 32 (drop k file)) (sym at_end) ∙ ap (take 32) (drop-all file)) in
      ((exact p.reader record_header_size).1, rw nothing refl)

  -- A round at a record that is cut short ends the loop with the bytes that are left over.
  pub round_cut :
      (file before wire : List ℕ) (n : ℕ) (r : Record) (p : Progress S)
      → IsReader exact position file
      → file ≡ before ++ take n wire
      → length before ≡ position p.reader
      → IsSplit r wire
      → r.sequence ≡ p.state.last_sequence + 1
      → r.sequence < 2 ^ 64
      → 0 < n
      → n < length wire
      → (s : S) × (round exact overflow grows p
          ≡ err (record {
            answer = finished;
            progress = with_tail (moved (started exact overflow grows p) s) n;
          }))
  unfolding round read_payload
  round_cut file before wire n r p reader at here split number word some_left short =
      let s = (exact p.reader record_header_size).1 in
      elim (Bool-cases (ltb n 32)) [
        | inl early ↦
            let size : length (take n wire) ≡ n = length-take n wire (omega (arith, short)) in
            let first : (exact p.reader record_header_size).0 ≡ some (take n wire) =
              read_rest file before (take n wire) p.reader record_header_size reader at here
                (ground (arith, size)) in
            let some_bytes : (length (take n wire) == 0) ≡ false = ground (arith, size) in
            let not_last : (p.state.last_sequence == 2 ^ 64 - 1) ≡ false = ground arith in
            let cut : ltb (length (take n wire)) 32 ≡ true = ground (arith, size) in
            (
              s,
              rw (first, some_bytes, not_last, cut)
                  (ap
                    (λ k. err (record {
                      answer = finished;
                      progress = with_tail (moved (started exact overflow grows p) s) k;
                    }))
                    size),
            )
        | inr late ↦
            let head = split.head in
            let m = n - 32 in
            let total : length wire ≡ 32 + length split.payload =
              ap length split.parts
              ∙ length-append head split.payload
              ∙ omega (arith, split.head_size) in
            let e : n ≡ length head + m = ground (arith, split.head_size) in
            let rest = take m split.payload in
            let part : take n wire ≡ head ++ rest =
              ap (λ k. take k wire) e
              ∙ ap (take (length head + m)) split.parts
              ∙ take-past head split.payload m in
            let size : length rest ≡ m =
              length-take m split.payload (ground (arith, total, short)) in
            let whole : file ≡ (before ++ head) ++ rest =
              at ∙ ap (◌++◌ before) part ∙ sym (append_assoc before head rest) in
            let (first, there) : ((exact p.reader record_header_size).0 ≡ some head)
                × (position s ≡ position p.reader + length head) =
              read_part file before head rest p.reader record_header_size reader whole here
                split.head_size in
            let second : (exact s split.header.payload_length).0 ≡ some rest =
              read_rest file (before ++ head) rest s split.header.payload_length reader whole
                (length-append before head ∙ omega (arith, here, there))
                (ground (arith, size, split.payload_size, total, short)) in
            let header : record_header_decode head (p.state.last_sequence + 1) ≡ ok split.header =
              subst (λ k. record_header_decode head k ≡ ok split.header) number split.header_read in
            let some_bytes : (length head == 0) ≡ false = ground (arith, split.head_size) in
            let not_last : (p.state.last_sequence == 2 ^ 64 - 1) ≡ false = ground arith in
            let long : ltb (length head) 32 ≡ false = ground (arith, split.head_size) in
            let missing : ltb (length rest) split.header.payload_length ≡ true =
              ground (arith, size, split.payload_size, total, short) in
            let left : 32 + length rest ≡ n = ground (arith, size) in
            let s2 = (exact s split.header.payload_length).1 in
            (
              s2,
              rw (first, some_bytes, not_last, long, header, second)
                  (rw missing (
                    ap
                      (λ k. err (record {
                        answer = finished;
                        progress = with_tail (moved (started exact overflow grows p) s2) k;
                      }))
                      left)),
            )
      ]
