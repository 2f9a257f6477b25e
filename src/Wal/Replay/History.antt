-- ===== src/Wal/Replay/History.antt =====
-- coordinator/wal_replay.c: the loop that reads a log from its start, and what it reports. `S` is the
-- state of the reader; an exact read answers with fewer bytes at the end of the file, or with nothing
-- after an error. `overflow` is what a file beyond the greatest offset makes of the reader.
use flatline_c.Prelude.{
  ℕ, zero, suc, ◌+◌, ◌-◌, ◌^◌, Bool, Option, none, some, List, ◌++◌, ltb, ◌==◌, length,
}
use flatline_c.Prelude.Result.{Result, ok, err, ◌>>=◌, ◌>>◌, reject}
use flatline_c.Wal.Format.{Record, WalError, file_header_size, record_header_size, invalid_sequence}
use flatline_c.Wal.Codec.{file_header_decode, record_header_decode, record_decode}
use flatline_c.Wal.Replay.Index.{WorkerIndex, ReplayError, io_error, bad_format}
use flatline_c.Wal.Replay.{ReplayState, apply_record}

-- The codes of an error are with the error.
pub record Report : Type 0 where
  pub valid_bytes : ℕ
  pub tail_bytes : ℕ
  pub error_offset : ℕ
  pub last_sequence : ℕ

unfoldable pub no_report : Report
no_report = record { valid_bytes = 0; tail_bytes = 0; error_offset = 0; last_sequence = 0 }

-- The variables of the loop.
pub record Progress (S : Type 0) : Type 0 where
  pub state : ReplayState
  pub index : WorkerIndex
  pub report : Report
  pub reader : S

-- What `read_history` answers: OK or an error. `unfinished` is none of its answers; it stands for
-- rounds that were not enough.
pub data Answer : Type 0 where
  finished : Answer
  refused : ReplayError → Answer
  unfinished : Answer

-- A step goes on, or ends the loop with an answer.
pub record Ending (S : Type 0) : Type 0 where
  pub answer : Answer
  pub progress : Progress S

abbrev pub Round {ℓ} : Type 0 → Type ℓ → Type ℓ
Round S A = Result (Ending S) A

abbrev pub ends : {S : Type 0} → Progress S → Answer → Ending S
ends p a = record { answer = a; progress = p }

-- `if (b) { return answer; }`
abbrev pub end_if : {S : Type 0} → Bool → Progress S → Answer → Round S (Unit {0})
end_if b p a = reject b (ends p a)

abbrev pub format_error : {S : Type 0} → Progress S → WalError → Ending S
format_error p e = ends p (refused (bad_format e))

abbrev pub checked : {S A : Type 0} → Progress S → Result WalError A → Round S A
checked p (ok a) = ok a
checked p (err e) = err (format_error p e)

abbrev pub moved : {S : Type 0} → Progress S → S → Progress S
moved p s = record p { reader = s }

abbrev pub received :
    {S : Type 0} → Progress S → Option (List ℕ) → S → Round S (List ℕ × Progress S)
received p none s = err (ends (moved p s) (refused io_error))
received p (some bytes) s = ok (bytes, moved p s)

abbrev pub with_tail : {S : Type 0} → Progress S → ℕ → Progress S
with_tail p n = record p { report = record p.report { tail_bytes = n } }

abbrev pub applied :
    {S : Type 0}
    → Progress S
    → Record
    → ℕ
    → Result ReplayError (ReplayState × WorkerIndex)
    → Round S (Progress S)
applied p r size (err e) = err (ends p (refused e))
applied p r size (ok (s, index)) = ok (record {
  state = record s { last_sequence = p.state.last_sequence + 1 };
  index = index;
  report = record p.report {
    last_sequence = p.state.last_sequence + 1;
    valid_bytes = p.report.valid_bytes + size;
  };
  reader = p.reader;
})

module _ {S : Type 0} (exact : S → ℕ → Option (List ℕ) × S) (overflow : S → S)
    (grows : ℕ → Bool) where
  abbrev pub read : Progress S → ℕ → Round S (List ℕ × Progress S)
  read p size = received p (exact p.reader size).0 (exact p.reader size).1

  -- The part of a round that follows a whole header.
  unfoldable pub read_payload : Progress S → List ℕ → Round S (Progress S)
  read_payload p head = do
    header ← checked p (record_header_decode head (p.state.last_sequence + 1))
    (payload, q) ← read p header.payload_length
    end_if (ltb (length payload) header.payload_length)
        (with_tail q (record_header_size + length payload)) finished
    (r, consumed) ← checked q (record_decode (head ++ payload) (q.state.last_sequence + 1))
    end_if (ltb (2 ^ 63 - 1 - (record_header_size + length payload)) q.report.valid_bytes)
        (moved q (overflow q.reader)) (refused io_error)
    applied q r (record_header_size + length payload)
        (apply_record grows q.state q.index r (head ++ payload))

  abbrev pub started : Progress S → Progress S
  started p = record p { report = record p.report { error_offset = p.report.valid_bytes } }

  unfoldable pub round : Progress S → Round S (Progress S)
  unfolding read_payload
  round p = do
    (head, q) ← read (started p) record_header_size
    end_if (length head == 0) q finished
    end_if (q.state.last_sequence == 2 ^ 64 - 1) q (refused (bad_format invalid_sequence))
    end_if (ltb (length head) record_header_size) (with_tail q (length head)) finished
    read_payload q head

  abbrev after_round : (Progress S → Ending S) → Round S (Progress S) → Ending S
  after_round more (err e) = e
  after_round more (ok p) = more p

  -- At most so many rounds.
  unfoldable pub read_records : ℕ → Progress S → Ending S
  unfolding round
  read_records zero p = ends p unfinished
  read_records (suc rounds) p = after_round (read_records rounds) (round p)

  abbrev pub opened : ReplayState → WorkerIndex → Report → S → Progress S
  opened s index report reader = record {
    state = s;
    index = index;
    report = report;
    reader = reader;
  }

  -- The file header is read and checked.
  unfoldable pub read_header : Progress S → Round S (Progress S)
  read_header p = do
    (bytes, q) ← read p file_header_size
    checked q (file_header_decode bytes)
    ok (record q { report = record q.report { valid_bytes = file_header_size } })

  unfoldable pub read_history : ℕ → ReplayState → WorkerIndex → Report → S → Ending S
  unfolding read_records read_header
  read_history rounds s index report reader =
      after_round (read_records rounds) (read_header (opened s index report reader))
