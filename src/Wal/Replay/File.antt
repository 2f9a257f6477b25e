-- ===== src/Wal/Replay/File.antt =====
-- The whole file: a header, the records of a log and what a crash has left of one more record.
use mathlib.Core.List.{append-nil}
use flatline_c.Prelude.{
  ℕ, zero, suc, ◌+◌, ◌^◌, ◌<◌, ◌≡◌, ◌⊎◌, inl, inr, refl, sym, ap, ◌∙◌, subst, Bool, Option, some,
  List, [], ◌∷◌, ◌++◌, length, take, arith, length-append, length-take, drop, append_assoc,
  take-append, Bool-cases, ltb,
}
use flatline_c.Prelude.Result.{ok, err, Result-cases, ok_inj}
use flatline_c.Bytes.{put_u16, put_u32}
use flatline_c.Wal.Format.{file_header_size}
use flatline_c.Wal.Codec.{record_encode, file_header_encode, file_header_decode}
use flatline_c.Wal.Codec.RoundTrip.{EntryFits}
use flatline_c.Wal.Codec.FileHeader.{file_header_decode-encode}
use flatline_c.Wal.Codec.Split.{record_encode-IsSplit}
use flatline_c.Wal.Replay.Index.{WorkerIndex, empty_index}
use flatline_c.Wal.Replay.{ReplayState, init, apply_record, max_record_size}
use flatline_c.Wal.Replay.Log.{LoggedRecord, replay, accept}
use flatline_c.Wal.Replay.History.{
  no_report, Progress, Ending, finished, moved, read_header, applied, started, round, read_records,
  read_history,
}
use flatline_c.Wal.Replay.Reads.{IsReader, round_record, round_end, round_cut}

-- A record as the writer encodes it after so many others.
abbrev pub IsNext : ℕ → LoggedRecord → Type 0
IsNext n (r, wire) =
    (record_encode max_record_size r ≡ ok wire)
    × (r.sequence ≡ n + 1)
    × (r.sequence < 2 ^ 64)
    × EntryFits r.entry

abbrev pub AreNumbered : ℕ → List LoggedRecord → Type 0
AreNumbered n [] = Unit {0}
AreNumbered n (l ∷ log) = IsNext n l × AreNumbered (n + 1) log

unfoldable pub bytes_of : List LoggedRecord → List ℕ
bytes_of [] = []
bytes_of ((r, wire) ∷ log) = wire ++ bytes_of log

-- Nothing, or the beginning of the record that follows.
abbrev pub IsTail : ℕ → List ℕ → Type 0
IsTail n tail =
    (tail ≡ [])
    ⊎ ((l : LoggedRecord) × (k : ℕ) × IsNext n l × (0 < k) × (k < length l.1) × (tail ≡ take k l.1))

-- What the loop ends with.
pub record Reached {S : Type 0} (e : Ending S) (s : ReplayState) (index : WorkerIndex)
    (valid tail : ℕ) : Type 0 where
  pub answer : e.answer ≡ finished
  pub state : e.progress.state ≡ s
  pub indexed : e.progress.index ≡ index
  pub valid_bytes : e.progress.report.valid_bytes ≡ valid
  pub tail_bytes : e.progress.report.tail_bytes ≡ tail

file_header_size_lem :
    (capacity : ℕ) (bytes : List ℕ)
    → file_header_encode capacity ≡ ok bytes
    → length bytes ≡ file_header_size
unfolding file_header_encode put_u16 put_u32
file_header_size_lem capacity bytes h = elim (Bool-cases (ltb capacity 24)) [
  | inl small ↦ let h' = rw small at h in cc
  | inr fits ↦ ap length (sym (ok_inj (rw fits at h)))
]

module _ {S : Type 0} (exact : S → ℕ → Option (List ℕ) × S) (overflow : S → S) (position : S → ℕ)
    (grows : ℕ → Bool) where
  read_next :
      (rounds : ℕ) (p q : Progress S)
      → round exact overflow grows p ≡ ok q
      → read_records exact overflow grows (suc rounds) p
        ≡ read_records exact overflow grows rounds q
  unfolding read_records
  read_next rounds p q e = rw e refl

  read_stop :
      (rounds : ℕ) (p : Progress S) (e : Ending S)
      → round exact overflow grows p ≡ err e
      → read_records exact overflow grows (suc rounds) p ≡ e
  unfolding read_records
  read_stop rounds p e h = rw h refl

  -- What is left behind the last whole record is counted and not read.
  read_tail :
      (rounds : ℕ) (file before tail : List ℕ) (p : Progress S)
      → IsReader exact position file
      → file ≡ before ++ tail
      → length before ≡ p.report.valid_bytes
      → position p.reader ≡ p.report.valid_bytes
      → IsTail p.state.last_sequence tail
      → p.report.tail_bytes ≡ 0
      → Reached
          (read_records exact overflow grows (suc rounds) p)
          p.state
          p.index
          p.report.valid_bytes
          (length tail)
  read_tail rounds file before tail p reader at valid here (inl none_left) clear =
      let whole : file ≡ before = at ∙ ap (◌++◌ before) none_left ∙ append-nil before in
      let (s, ended) =
        round_end exact overflow position grows file p reader
          (ap length whole ∙ valid ∙ sym here) in
      subst (λ e. Reached e p.state p.index p.report.valid_bytes (length tail))
        (sym (read_stop rounds p _ ended))
        (record {
          answer = refl;
          state = refl;
          indexed = refl;
          valid_bytes = refl;
          tail_bytes = clear ∙ sym (ap length none_left);
        })
  read_tail rounds file before tail p reader at valid here
        (inr ((r, wire), k, (encoded, number, word, fits), left, short, e)) clear =
      let split = record_encode-IsSplit max_record_size r wire encoded word fits in
      let (s, ended) =
        round_cut exact overflow position grows file before wire k r p reader
          (at ∙ ap (◌++◌ before) e) (valid ∙ sym here) split number word left short in
      subst (λ e. Reached e p.state p.index p.report.valid_bytes (length tail))
        (sym (read_stop rounds p _ ended))
        (record {
          answer = refl;
          state = refl;
          indexed = refl;
          valid_bytes = refl;
          tail_bytes = sym (ap length e ∙ length-take k wire (omega (arith, short)));
        })

  abbrev behind : Progress S → S → ℕ → ReplayState → WorkerIndex → Progress S
  behind p s size t i = record {
    state = record t { last_sequence = p.state.last_sequence + 1 };
    index = i;
    report = record (started exact overflow grows p).report {
      last_sequence = p.state.last_sequence + 1;
      valid_bytes = p.report.valid_bytes + size;
    };
    reader = s;
  }

  read_log :
      (rounds : ℕ) (file before tail : List ℕ) (log : List LoggedRecord) (p : Progress S)
      (s : ReplayState) (index : WorkerIndex)
      → IsReader exact position file
      → file ≡ before ++ (bytes_of log ++ tail)
      → length before ≡ p.report.valid_bytes
      → position p.reader ≡ p.report.valid_bytes
      → AreNumbered p.state.last_sequence log
      → IsTail (p.state.last_sequence + length log) tail
      → p.report.tail_bytes ≡ 0
      → length file < 2 ^ 63
      → length log < rounds
      → replay grows (p.state, p.index) log ≡ ok (s, index)
      → Reached
          (read_records exact overflow grows rounds p)
          s
          index
          (p.report.valid_bytes + length (bytes_of log))
          (length tail)
  unfolding replay bytes_of accept
  read_log zero file before tail log p s index reader at valid here n t clear room enough h =
      absurd (omega (arith, enough))
  read_log (suc rounds) file before tail [] p s index reader at valid here n t clear room enough h =
      let reached =
        read_tail rounds file before tail p reader at valid here
          (subst (λ n. IsTail n tail) (omega arith) t) clear in
      record {
        answer = reached.answer;
        state = reached.state ∙ ap (λ x. x.0) (ok_inj h);
        indexed = reached.indexed ∙ ap (λ x. x.1) (ok_inj h);
        valid_bytes = reached.valid_bytes ∙ omega arith;
        tail_bytes = reached.tail_bytes;
      }
  read_log (suc rounds) file before tail ((r, wire) ∷ log) p s index reader at valid here
        ((encoded, number, word, fits), n) t clear room enough h =
      elim (Result-cases (apply_record grows p.state p.index r wire)) [
        | inr (e, f) ↦ let h' = rw f at h in cc
        | inl ((u, i), f) ↦
            let split = record_encode-IsSplit max_record_size r wire encoded word fits in
            let at' : file ≡ before ++ (wire ++ (bytes_of log ++ tail)) = at ∙ simp append_assoc in
            let size : length file ≡ length before + (length wire + length (bytes_of log ++ tail)) =
              ap length at'
              ∙ length-append before (wire ++ (bytes_of log ++ tail))
              ∙ ap (◌+◌ (length before)) (length-append wire (bytes_of log ++ tail)) in
            let (next, there, stepped) =
              round_record exact overflow position grows file before wire (bytes_of log ++ tail) r p
                reader at' valid here split number word (omega (arith, size, room, valid)) in
            let q = behind p next (length wire) u i in
            let step : round exact overflow grows p ≡ ok q =
              stepped
              ∙ ap (applied (moved (started exact overflow grows p) next) r (length wire)) f in
            let later =
              read_log rounds file (before ++ wire) tail log q s index reader
                (at' ∙ sym (append_assoc before wire (bytes_of log ++ tail)))
                (length-append before wire ∙ ap (λ k. k + length wire) valid)
                (there ∙ ap (λ k. k + length wire) here) n
                (subst (λ n. IsTail n tail) (omega arith) t) clear room (omega (arith, enough))
                (subst (λ n. replay grows (record u { last_sequence = n }, i) log ≡ ok (s, index))
                  number (rw f at h)) in
            subst
              (λ e.
                Reached e s index (p.report.valid_bytes + length (bytes_of ((r, wire) ∷ log)))
                  (length tail))
              (sym (read_next rounds p q step))
              (record {
                answer = later.answer;
                state = later.state;
                indexed = later.indexed;
                valid_bytes = later.valid_bytes ∙ omega (arith, length-append wire (bytes_of log));
                tail_bytes = later.tail_bytes;
              })
      ]

  -- The reader at the start of a file that holds the file header, the records of a log, numbered
  -- from 1, and nothing or a strict beginning of the next record, answers OK after at most one round
  -- more than there are records, with the state to which the log replays; it counts the header and
  -- the whole records as valid, and the bytes of the cut record, if any, as the tail.
  pub read_history-written :
      (rounds capacity : ℕ) (file header tail : List ℕ) (log : List LoggedRecord) (s : ReplayState)
      (index : WorkerIndex) (start : S)
      → IsReader exact position file
      → position start ≡ 0
      → file_header_encode capacity ≡ ok header
      → file ≡ header ++ (bytes_of log ++ tail)
      → AreNumbered 0 log
      → IsTail (length log) tail
      → length file < 2 ^ 63
      → length log < rounds
      → replay grows (init, empty_index) log ≡ ok (s, index)
      → Reached
          (read_history exact overflow grows rounds init empty_index no_report start)
          s
          index
          (file_header_size + length (bytes_of log))
          (length tail)
  unfolding read_history read_header no_report init
  read_history-written rounds capacity file header tail log s index start reader begin encoded at n
        t room enough h =
      let size = file_header_size_lem capacity header encoded in
      let bytes : take file_header_size (drop (position start) file) ≡ header =
        ap (λ k. take file_header_size (drop k file)) begin
        ∙ ap (take file_header_size) at
        ∙ ap (λ k. take k (header ++ (bytes_of log ++ tail))) (sym size)
        ∙ take-append header (bytes_of log ++ tail) in
      let first : (exact start file_header_size).0 ≡ some header =
        reader.reads start file_header_size ∙ ap some bytes in
      let there : position (exact start file_header_size).1 ≡ file_header_size =
        reader.moves start file_header_size ∙ omega (arith, begin, ap length bytes, size) in
      let accepted : file_header_decode header ≡ ok tt =
        subst (λ x. file_header_decode x ≡ ok tt) (append-nil header)
          (file_header_decode-encode capacity header [] encoded) in
      let p : Progress S = record {
        state = init;
        index = empty_index;
        report = record no_report { valid_bytes = file_header_size };
        reader = (exact start file_header_size).1;
      } in
      rw (first, accepted)
        (read_log rounds file header tail log p s index reader at size there n
          (subst (λ k. IsTail k tail) (omega arith) t) refl room enough h)
