-- ===== src/CoordinatorStore/LogWriter.antt =====
-- The writer of coordinator/wal_writer.c as the writer of the store, with the list of the records that
-- it has accepted beside it; the list is an account of the bytes in the file.
use flatline_c.Prelude.{
  ℕ, ◌+◌, ◌<◌, ◌≢◌, length, length-append, append_assoc, arith, subst, ◌≡◌, inl, inr, refl, sym, ap,
  ◌∙◌, Bool, Bool-cases, true, false, List, [], ◌∷◌, ◌++◌, ◌==◌,
}
use flatline_c.Prelude.Result.{Result, ok, err, Result-cases}
use flatline_c.Wal.Format.{WalError, Record}
use flatline_c.Wal.Codec.{record_encode}
use flatline_c.Wal.Replay.{max_record_size}
use flatline_c.Wal.Replay.Log.{LoggedRecord}
use flatline_c.Wal.Writer.State.{WriteError, Writer, Machine, Io, is_failed, is_ready}
use flatline_c.Wal.Writer.{append, next_number}
use flatline_c.Wal.Writer.Written.{IsFile, append-Appended}
use flatline_c.Wal.Writer.LogFile.{bytes_of-append}
use flatline_c.Wal.Replay.File.{bytes_of}
use flatline_c.Wal.Codec.RoundTrip.{record_encode_effect}
use flatline_c.CoordinatorStore.Recovery.{IsWriter}

abbrev pub LogWriter : Type 0 → Type 0
LogWriter Os = Machine Os × List LoggedRecord

abbrev wire_of : Result WalError (List ℕ) → List ℕ
wire_of (ok bytes) = bytes
wire_of (err e) = []

abbrev accepted :
    {Os : Type 0}
    → List LoggedRecord
    → Record
    → Result WriteError (Unit {0}) × Machine Os
    → Bool × LogWriter Os
accepted log r (ok u, m) = (true, (m, log ++ (r, wire_of (record_encode max_record_size r)) ∷ []))
accepted log r (err e, m) = (false, (m, log))

module _ {Os : Type 0} (io : Io Os) (rounds : ℕ) where
  abbrev pub next_number_of : LogWriter Os → ℕ
  next_number_of (m, log) = m.writer.next_sequence

  abbrev pub append_logged : LogWriter Os → Record → Bool × LogWriter Os
  append_logged (m, log) r = accepted log r (append io rounds r m)

  -- A record that was not encoded is not accepted.
  unencoded_refused :
      (r : Record) (m : Machine Os) (e : WalError)
      → record_encode max_record_size r ≡ err e
      → (x : WriteError) × (append io rounds r m ≡ (err x, m))
  unfolding append
  unencoded_refused r m e f = elim (Bool-cases (is_failed m.writer.state)) [
    | inl broken ↦ rw broken (WriteError.io_error, refl)
    | inr sound ↦ elim (Bool-cases (is_ready m.writer.state)) [
      | inr other ↦ rw (sound, other) (WriteError.invalid_state, refl)
      | inl able ↦ elim (Bool-cases (m.writer.next_sequence == 0)) [
        | inl last ↦ rw (sound, able, last) (WriteError.sequence_exhausted, refl)
        | inr more ↦ elim (Bool-cases (r.sequence == m.writer.next_sequence)) [
          | inr wrong ↦ rw (sound, able, more, wrong) (WriteError.invalid_record, refl)
          | inl due ↦ rw (sound, able, more, due, f) (WriteError.invalid_record, refl)
        ]
      ]
    ]
  ]

  accepted_ok :
      (log : List LoggedRecord) (r : Record) (x : Result WriteError (Unit {0}) × Machine Os)
      (w : LogWriter Os)
      → accepted log r x ≡ (true, w)
      → w.1 ≡ log ++ (r, wire_of (record_encode max_record_size r)) ∷ []
  accepted_ok log r (ok u, m) w h = ap (λ (y : Bool × LogWriter Os). y.1.1) (sym h)
  accepted_ok log r (err e, m) w h = cc

  -- What the interface of the store asks of a writer.
  pub append_logged-IsWriter :
      (grows : ℕ → Bool) → IsWriter next_number_of append_logged (λ w. w.1) grows
  append_logged-IsWriter grows (m, log) w r h =
      elim (Result-cases (record_encode max_record_size r)) [
        | inr (e, f) ↦
            let (x, refused) = unencoded_refused r m e f in
            let h' : accepted log r (err x, m) ≡ (true, w) =
              ap (accepted log r) (sym refused) ∙ h in
            cc
        | inl (wire, f) ↦ (
          wire,
          f,
          accepted_ok log r (append io rounds r m) w h ∙ ap (λ y. log ++ (r, wire_of y) ∷ []) f,
        )
      ]

-- The records are those of the encoder, numbered from `n + 1`.
abbrev pub AreEncoded : ℕ → List LoggedRecord → Type 0
AreEncoded n [] = Unit {0}
AreEncoded n ((r, wire) ∷ log) =
    (record_encode max_record_size r ≡ ok wire) × (r.sequence ≡ n + 1) × AreEncoded (n + 1) log

AreEncoded-append :
    (n : ℕ) (log : List LoggedRecord) (r : Record) (wire : List ℕ)
    → AreEncoded n log
    → record_encode max_record_size r ≡ ok wire
    → r.sequence ≡ n + length log + 1
    → AreEncoded n (log ++ (r, wire) ∷ [])
AreEncoded-append n [] r wire a e number = (e, number ∙ omega arith, tt)
AreEncoded-append n ((x, w) ∷ log) r wire (f, same, a) e number =
    (f, same, AreEncoded-append (n + 1) log r wire a e (number ∙ omega arith))

-- The file holds the header and the bytes of the records, and nothing else; the next number is the
-- one after them.
pub record IsJournal {Os : Type 0} (content : Os → List ℕ) (header : List ℕ) (w : LogWriter Os)
    : Type 0 where
  pub bytes : content w.0.os ≡ header ++ bytes_of w.1
  pub encoded : AreEncoded 0 w.1
  pub next : w.0.writer.next_sequence ≡ next_number (length w.1)

accepted_answer :
    {Os : Type 0} (log : List LoggedRecord) (r : Record)
    (x : Result WriteError (Unit {0}) × Machine Os)
    → x.0 ≡ ok tt
    → accepted log r x ≡ (true, (x.1, log ++ (r, wire_of (record_encode max_record_size r)) ∷ []))
accepted_answer log r (ok u, m) h = refl
accepted_answer log r (err e, m) h = cc

refused_answer :
    {Os : Type 0} (log : List LoggedRecord) (r : Record)
    (x : Result WriteError (Unit {0}) × Machine Os) {e : WriteError} (w : LogWriter Os)
    → x.0 ≡ err e
    → accepted log r x ≢ (true, w)
refused_answer log r (ok u, m) w h k = cc
refused_answer log r (err e, m) w h k = cc

module _ {Os : Type 0} (io : Io Os) (content : Os → List ℕ) (patience : Os → ℕ) (rounds : ℕ)
    (header : List ℕ) where
  -- An accepted append puts the record into the file, and keeps the account.
  pub append_logged-IsJournal :
      (w w' : LogWriter Os) (r : Record)
      → IsFile io content patience
      → max_record_size + patience w.0.os < rounds
      → append_logged io rounds w r ≡ (true, w')
      → IsJournal content header w
      → IsJournal content header w'
  append_logged-IsJournal (m, log) w' r law enough h v =
      elim (append-Appended io content patience rounds r m law enough) [
        | inl (e, same, _) ↦ absurd (
            refused_answer log r (append io rounds r m) w'
              (ap (λ (x : Result WriteError (Unit {0}) × Machine Os). x.0) same) h)
        | inr (wire, encoded, inr (failing, _, _)) ↦
            absurd (refused_answer log r (append io rounds r m) w' failing h)
        | inr (wire, encoded, inl (answered, number, c, counted)) ↦
            let q = (append io rounds r m).1 in
            let same : (q, log ++ (r, wire) ∷ []) ≡ w' =
              ap (λ y. (q, log ++ (r, wire_of y) ∷ [])) (sym encoded)
              ∙ ap (λ (y : Bool × LogWriter Os). y.1)
                  (sym (accepted_answer log r (append io rounds r m) answered) ∙ h) in
            let (_, positive, _) = record_encode_effect max_record_size r wire encoded in
            let due : r.sequence ≡ next_number (length log) = number ∙ v.next in
            let consecutive : r.sequence ≡ length log + 1 = ground (arith, due, positive) in
            subst (IsJournal content header) same (record {
              bytes =
                  c
                  ∙ ap (λ f. f ++ wire) v.bytes
                  ∙ append_assoc header (bytes_of log) wire
                  ∙ ap (◌++◌ header) (sym (bytes_of-append log r wire));
              encoded =
                  AreEncoded-append 0 log r wire v.encoded encoded (consecutive ∙ omega arith);
              next =
                  ap (λ (x : Writer). x.next_sequence) counted
                  ∙ ap next_number (consecutive ∙ sym (length-append log ((r, wire) ∷ [])));
            })
      ]
