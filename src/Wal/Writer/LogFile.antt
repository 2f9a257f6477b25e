-- ===== src/Wal/Writer/LogFile.antt =====
-- The file that the writer leaves, as the reader of a log takes it: after an append, whatever has
-- become of it, the file holds the header, whole records, and at most a beginning of one more.
use mathlib.Core.List.{append-nil}
use flatline_c.Prelude.{
  ℕ, ◌+◌, ◌^◌, ◌<◌, ◌≡◌, ◌≢◌, ◌⊎◌, inl, inr, refl, sym, ap, ◌∙◌, subst, List, [], ◌∷◌, ◌++◌, length,
  take, arith, append_assoc, take-append, length-append,
}
use flatline_c.Prelude.Result.{Result, ok}
use flatline_c.Wal.Format.{Record}
use flatline_c.Wal.Codec.RoundTrip.{EntryFits}
use flatline_c.Wal.Replay.{max_record_size}
use flatline_c.Wal.Replay.Log.{LoggedRecord}
use flatline_c.Wal.Replay.File.{IsNext, AreNumbered, IsTail, bytes_of}
use flatline_c.Wal.Writer.State.{WriteError, Machine, Io}
use flatline_c.Wal.Writer.{append}
use flatline_c.Wal.Writer.Written.{IsFile, append-Appended}

-- The file holds the header, the records, and what is left of one that was cut.
pub record IsLogFile (header : List ℕ) (log : List LoggedRecord) (file : List ℕ) : Type 0 where
  pub tail : List ℕ
  pub parts : file ≡ header ++ (bytes_of log ++ tail)
  pub numbers : AreNumbered 0 log
  pub cut : IsTail (length log) tail

-- The file holds the header and the records, and nothing else.
abbrev pub IsWholeFile : List ℕ → List LoggedRecord → List ℕ → Type 0
IsWholeFile header log file = (file ≡ header ++ bytes_of log) × AreNumbered 0 log

pub bytes_of-append :
    (log : List LoggedRecord) (r : Record) (wire : List ℕ)
    → bytes_of (log ++ (r, wire) ∷ []) ≡ bytes_of log ++ wire
unfolding bytes_of
bytes_of-append [] r wire = append-nil wire
bytes_of-append ((s, w) ∷ log) r wire =
    ap (◌++◌ w) (bytes_of-append log r wire) ∙ sym (append_assoc w (bytes_of log) wire)

AreNumbered-append :
    (n : ℕ) (log : List LoggedRecord) (l : LoggedRecord)
    → AreNumbered n log
    → IsNext (n + length log) l
    → AreNumbered n (log ++ l ∷ [])
AreNumbered-append n [] l a next = (subst (λ k. IsNext k l) (omega arith) next, tt)
AreNumbered-append n (x ∷ log) l a next =
    (a.0, AreNumbered-append (n + 1) log l a.1 (subst (λ k. IsNext k l) (omega arith) next))

part-take : (part rest wire : List ℕ) → wire ≡ part ++ rest → part ≡ take (length part) wire
part-take part rest wire e = sym (ap (take (length part)) e ∙ take-append part rest)

-- A beginning of the next record is a tail, or the whole record.
beginning-IsLogFile :
    (header file part rest wire : List ℕ) (log : List LoggedRecord) (r : Record)
    → AreNumbered 0 log
    → IsNext (length log) (r, wire)
    → wire ≡ part ++ rest
    → file ≡ (header ++ bytes_of log) ++ part
    → IsLogFile header log file ⊎ IsLogFile header (log ++ (r, wire) ∷ []) file
beginning-IsLogFile header file [] rest wire log r numbers next e at = inl (record {
  tail = [];
  parts = at ∙ append_assoc header (bytes_of log) [];
  numbers = numbers;
  cut = inl refl;
})
beginning-IsLogFile header file (b ∷ part) [] wire log r numbers next e at =
    let whole = e ∙ append-nil (b ∷ part) in
    inr (record {
      tail = [];
      parts =
          at
          ∙ ap (λ w. (header ++ bytes_of log) ++ w) (sym whole)
          ∙ append_assoc header (bytes_of log) wire
          ∙ ap (◌++◌ header)
              (sym (append-nil (bytes_of (log ++ (r, wire) ∷ [])) ∙ bytes_of-append log r wire));
      numbers =
          AreNumbered-append 0 log (r, wire) numbers
            (subst (λ k. IsNext k (r, wire)) (omega arith) next);
      cut = inl refl;
    })
beginning-IsLogFile header file (b ∷ part) (c ∷ rest) wire log r numbers next e at = inl (record {
  tail = b ∷ part;
  parts = at ∙ append_assoc header (bytes_of log) (b ∷ part);
  numbers = numbers;
  cut = inr (
    (r, wire),
    length (b ∷ part),
    next,
    omega arith,
    omega (arith, ap length e, length-append (b ∷ part) (c ∷ rest)),
    part-take (b ∷ part) (c ∷ rest) wire e,
  );
})

module _ {Os : Type 0} (io : Io Os) (content : Os → List ℕ) (patience : Os → ℕ) where
  -- What an append makes of the file of a log.
  abbrev pub Extends :
      List ℕ
      → List LoggedRecord
      → Machine Os
      → Record
      → Result WriteError (Unit {0}) × Machine Os
      → Type 0
  Extends header log m r x =
      ((x.0 ≡ ok tt)
        × ((wire : List ℕ) × IsWholeFile header (log ++ (r, wire) ∷ []) (content x.1.os)))
      ⊎ ((x.0 ≢ ok tt)
          × (IsLogFile header log (content x.1.os)
              ⊎ ((wire : List ℕ) × IsLogFile header (log ++ (r, wire) ∷ []) (content x.1.os))))

  -- The writer's file is one that the reader of a log takes. When the file holds the header and the
  -- numbered records of a log, and an append of the next record is given enough rounds on a system that
  -- appends what it writes, then after a success the file holds exactly one record more; after anything
  -- else, a write that was cut or a failed sync included, it holds the log, or the log with this record,
  -- and behind them at most a strict beginning of a record.
  pub append-Extends :
      (rounds : ℕ) (header : List ℕ) (log : List LoggedRecord) (r : Record) (m : Machine Os)
      → IsFile io content patience
      → max_record_size + patience m.os < rounds
      → IsWholeFile header log (content m.os)
      → m.writer.next_sequence ≡ length log + 1
      → r.sequence ≡ m.writer.next_sequence
      → r.sequence < 2 ^ 64
      → EntryFits r.entry
      → Extends header log m r (append io rounds r m)
  append-Extends rounds header log r m law enough (at, numbers) due number word fits =
      elim (append-Appended io content patience rounds r m law enough) [
        | inl (e, same, _) ↦ subst (Extends header log m r) (sym same) (
            inr (
              λ h. cc,
              inl (record {
                tail = [];
                parts = at ∙ ap (◌++◌ header) (sym (append-nil (bytes_of log)));
                numbers = numbers;
                cut = inl refl;
              }),
            ))
        | inr (wire, encoded, inl (answered, _, c, _)) ↦ inl (
          answered,
          (
            wire,
            (
              c
                  ∙ ap (λ f. f ++ wire) at
                  ∙ append_assoc header (bytes_of log) wire
                  ∙ ap (◌++◌ header) (sym (bytes_of-append log r wire)),
              AreNumbered-append 0 log (r, wire) numbers
                  (encoded, number ∙ due ∙ omega arith, word, fits),
            ),
          ),
        )
        | inr (wire, encoded, inr (answered, _, (part, rest, e, c))) ↦ inr (
          λ h. cc,
          elim (beginning-IsLogFile header (content (append io rounds r m).1.os) part rest wire log
              r numbers (encoded, number ∙ due, word, fits) e (c ∙ ap (λ f. f ++ part) at)) [
                | inl before ↦ inl before
                | inr after ↦ inr (wire, after)
              ],
        )
      ]
