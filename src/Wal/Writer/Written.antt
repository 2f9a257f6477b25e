-- ===== src/Wal/Writer/Written.antt =====
-- What an append leaves in the file, over any system that appends what it writes.
use mathlib.Core.List.{append-nil}
use flatline_c.Prelude.{
  ℕ, zero, suc, ◌+◌, ◌-◌, ◌≤◌, ◌<◌, ◌≡◌, ◌≢◌, ◌⊎◌, inl, inr, refl, sym, ap, ◌∙◌, subst, Bool-cases,
  true, false, ◌||◌, Option, List, [], ◌∷◌, ◌++◌, ltb, ◌==◌, length, take, drop, arith,
  append_assoc,
}
use flatline_c.Prelude.Result.{Result, ok, err, Result-cases}
use flatline_c.Wal.Format.{Record}
use flatline_c.Wal.Codec.{record_encode}
use flatline_c.Wal.Codec.Bounds.{record_encode_bounds}
use flatline_c.Wal.Replay.{max_record_size}
use flatline_c.Wal.Writer.State.{
  Operation, WriteError, invalid_state, invalid_record, sequence_exhausted, io_error, unfinished,
  Writer, Machine, Step, set_writer, after_ok, after_err, ◌>>◌, SystemCall, done, interrupted,
  refused, Io, write_record, sync_record, writer_fail, is_ready, is_failed, eio, fail,
}
use flatline_c.Wal.Writer.{retry, sync, write_all, append, written, next_number}

-- The bytes of the file, and how often the system may still interrupt. A write puts bytes behind
-- those that are there, or none; a sync changes none.
pub record IsFile {Os : Type 0} (io : Io Os) (content : Os → List ℕ) (patience : Os → ℕ)
    : Type 0 where
  pub appends :
      (os : Os) (fd : Option ℕ) (bytes : List ℕ) (n : ℕ)
      → (io.write os fd bytes).0 ≡ done n
      → (content (io.write os fd bytes).1 ≡ content os ++ take n bytes)
        × (patience (io.write os fd bytes).1 ≤ patience os)
  pub waits :
      (os : Os) (fd : Option ℕ) (bytes : List ℕ)
      → (io.write os fd bytes).0 ≡ interrupted
      → (content (io.write os fd bytes).1 ≡ content os)
        × (patience (io.write os fd bytes).1 < patience os)
  pub refuses :
      (os : Os) (fd : Option ℕ) (bytes : List ℕ) (e : ℕ)
      → (io.write os fd bytes).0 ≡ refused e
      → content (io.write os fd bytes).1 ≡ content os
  pub syncs : (os : Os) (fd : Option ℕ) → content (io.sync os fd).1 ≡ content os
  pub sync_waits :
      (os : Os) (fd : Option ℕ)
      → (io.sync os fd).0 ≡ interrupted
      → patience (io.sync os fd).1 < patience os

pub SystemCall-cases :
    (a : SystemCall) → ((n : ℕ) × (a ≡ done n)) ⊎ (a ≡ interrupted) ⊎ ((e : ℕ) × (a ≡ refused e))
SystemCall-cases (done n) = inl (n, refl)
SystemCall-cases interrupted = inr (inl refl)
SystemCall-cases (refused e) = inr (inr (e, refl))

take-drop : (n : ℕ) (xs : List ℕ) → take n xs ++ drop n xs ≡ xs
take-drop zero xs = refl
take-drop (suc n) [] = refl
take-drop (suc n) (x ∷ xs) = ap (◌∷◌ x) (take-drop n xs)

length-drop : (n : ℕ) (xs : List ℕ) → length (drop n xs) ≡ length xs - n
length-drop zero xs = omega arith
length-drop (suc n) [] = omega arith
length-drop (suc n) (x ∷ xs) = length-drop n xs ∙ omega arith

shorter : (n size : ℕ) → (n == 0 || ltb size n) ≡ false → (0 < n) × (n ≤ size)
shorter n size h = ground arith

pub writer_fail-failed :
    (op : Operation) (e : ℕ) (w : Writer) → is_failed (writer_fail op e w).state ≡ true
unfolding writer_fail
writer_fail-failed op e w = elim (Bool-cases (is_failed w.state)) [
  | inl f ↦ rw f f
  | inr f ↦ rw f refl
]

module _ {Os : Type 0} (io : Io Os) (content : Os → List ℕ) (patience : Os → ℕ) where
  -- All bytes are behind the file and the handle is as it was, or a beginning of them is and the
  -- handle has failed.
  abbrev pub Wrote : Machine Os → List ℕ → Result WriteError (Unit {0}) × Machine Os → Type 0
  Wrote m bytes x =
      ((x.0 ≡ ok tt)
        × (content x.1.os ≡ content m.os ++ bytes)
        × (x.1.writer ≡ m.writer)
        × (patience x.1.os ≤ patience m.os))
      ⊎ ((x.0 ≡ err io_error)
          × (is_failed x.1.writer.state ≡ true)
          × ((part : List ℕ) × (rest : List ℕ) × (bytes ≡ part ++ rest)
              × (content x.1.os ≡ content m.os ++ part)))

  -- The same after one call that has written a part.
  Wrote-more :
      (m q : Machine Os) (part rest bytes : List ℕ) (x : Result WriteError (Unit {0}) × Machine Os)
      → part ++ rest ≡ bytes
      → content q.os ≡ content m.os ++ part
      → q.writer ≡ m.writer
      → patience q.os ≤ patience m.os
      → Wrote q rest x
      → Wrote m bytes x
  Wrote-more m q part rest bytes (r, n) e c w p (inl (answered, more, same, q')) = inl (
    answered,
    more
        ∙ ap (λ b. b ++ rest) c
        ∙ append_assoc (content m.os) part rest
        ∙ ap (◌++◌ (content m.os)) e,
    same ∙ w,
    omega (arith, p, q'),
  )
  Wrote-more m q part rest bytes (r, n) e c w p
        (inr (answered, broken, (first, last, parts, more))) =
      inr (
        answered,
        broken,
        (
          part ++ first,
          last,
          sym e ∙ ap (◌++◌ part) parts ∙ sym (append_assoc part first last),
          more ∙ ap (λ b. b ++ first) c ∙ append_assoc (content m.os) part first,
        ),
      )

  write_fails :
      (rounds b : ℕ) (bytes : List ℕ) (n : ℕ) (op : Operation) (m : Machine Os)
      → (io.write m.os m.writer.fd (b ∷ bytes)).0 ≡ done n
      → (n == 0 || ltb (length (b ∷ bytes)) n) ≡ true
      → write_all io (suc rounds) (b ∷ bytes) op m
        ≡ fail op eio (record m { os = (io.write m.os m.writer.fd (b ∷ bytes)).1 })
  unfolding write_all
  write_fails rounds b bytes n op m f bad = rw (write_all, f, bad) refl

  write_goes_on :
      (rounds b : ℕ) (bytes : List ℕ) (n : ℕ) (op : Operation) (m : Machine Os)
      → (io.write m.os m.writer.fd (b ∷ bytes)).0 ≡ done n
      → (n == 0 || ltb (length (b ∷ bytes)) n) ≡ false
      → write_all io (suc rounds) (b ∷ bytes) op m
        ≡ write_all io rounds
            (drop n (b ∷ bytes))
            op
            (record m { os = (io.write m.os m.writer.fd (b ∷ bytes)).1 })
  unfolding write_all
  write_goes_on rounds b bytes n op m f good = rw (write_all, f, good) refl

  write_waits :
      (rounds b : ℕ) (bytes : List ℕ) (op : Operation) (m : Machine Os)
      → (io.write m.os m.writer.fd (b ∷ bytes)).0 ≡ interrupted
      → write_all io (suc rounds) (b ∷ bytes) op m
        ≡ write_all io rounds
            (b ∷ bytes)
            op
            (record m { os = (io.write m.os m.writer.fd (b ∷ bytes)).1 })
  unfolding write_all
  write_waits rounds b bytes op m f = rw (write_all, f) refl

  write_refused :
      (rounds b : ℕ) (bytes : List ℕ) (e : ℕ) (op : Operation) (m : Machine Os)
      → (io.write m.os m.writer.fd (b ∷ bytes)).0 ≡ refused e
      → write_all io (suc rounds) (b ∷ bytes) op m
        ≡ fail op e (record m { os = (io.write m.os m.writer.fd (b ∷ bytes)).1 })
  unfolding write_all
  write_refused rounds b bytes e op m f = rw (write_all, f) refl

  pub write_all-Wrote :
      (rounds : ℕ) (bytes : List ℕ) (op : Operation) (m : Machine Os)
      → IsFile io content patience
      → length bytes + patience m.os ≤ rounds
      → Wrote m bytes (write_all io rounds bytes op m)
  unfolding write_all
  write_all-Wrote rounds [] op m law enough =
      inl (refl, sym (append-nil (content m.os)), refl, omega arith)
  write_all-Wrote zero (b ∷ bytes) op m law enough = absurd (omega (arith, enough))
  write_all-Wrote (suc rounds) (b ∷ bytes) op m law enough =
      let left = b ∷ bytes in
      let call = io.write m.os m.writer.fd left in
      let q : Machine Os = record m { os = call.1 } in
      elim (SystemCall-cases call.0) [
        | inl (n, f) ↦
            let (c, p) = law.appends m.os m.writer.fd left n f in
            elim (Bool-cases (n == 0 || ltb (length left) n)) [
              | inl bad ↦ subst (Wrote m left) (sym (write_fails rounds b bytes n op m f bad)) (
                  inr (
                    refl,
                    writer_fail-failed op eio m.writer,
                    (take n left, drop n left, sym (take-drop n left), c),
                  ))
              | inr good ↦ subst (Wrote m left) (sym (write_goes_on rounds b bytes n op m f good)) (
                  Wrote-more m q (take n left) (drop n left) left
                    (write_all io rounds (drop n left) op q) (take-drop n left) c refl p
                    (write_all-Wrote rounds (drop n left) op q law
                      (omega (arith, length-drop n left, shorter n (length left) good, enough, p))))
            ]
        | inr (inl f) ↦
            let (c, p) = law.waits m.os m.writer.fd left f in
            subst (Wrote m left) (sym (write_waits rounds b bytes op m f)) (
              Wrote-more m q [] left left (write_all io rounds left op q) refl
                (c ∙ sym (append-nil (content m.os))) refl (omega (arith, p))
                (write_all-Wrote rounds left op q law (omega (arith, enough, p))))
        | inr (inr (e, f)) ↦
            let c = law.refuses m.os m.writer.fd left e f in
            subst (Wrote m left) (sym (write_refused rounds b bytes e op m f)) (
              inr (
                refl,
                writer_fail-failed op e m.writer,
                ([], left, refl, c ∙ sym (append-nil (content m.os))),
              ))
      ]

  -- A sync that succeeds leaves the handle as it was; one that does not leaves it failed.
  abbrev pub Synced : Machine Os → Result WriteError (Unit {0}) × Machine Os → Type 0
  Synced m x =
      (content x.1.os ≡ content m.os)
      × (((x.0 ≡ ok tt) × (x.1.writer ≡ m.writer))
          ⊎ ((x.0 ≡ err io_error) × (is_failed x.1.writer.state ≡ true)))

  sync_done :
      (rounds n : ℕ) (fd : Option ℕ) (op : Operation) (m : Machine Os)
      → (io.sync m.os fd).0 ≡ done n
      → sync io (suc rounds) fd op m ≡ (ok tt, record m { os = (io.sync m.os fd).1 })
  unfolding sync retry
  sync_done rounds n fd op m f = rw (sync, retry, f) refl

  sync_again :
      (rounds : ℕ) (fd : Option ℕ) (op : Operation) (m : Machine Os)
      → (io.sync m.os fd).0 ≡ interrupted
      → sync io (suc rounds) fd op m ≡ sync io rounds fd op (record m { os = (io.sync m.os fd).1 })
  unfolding sync retry
  sync_again rounds fd op m f = rw (sync, retry, f) refl

  sync_refused :
      (rounds e : ℕ) (fd : Option ℕ) (op : Operation) (m : Machine Os)
      → (io.sync m.os fd).0 ≡ refused e
      → sync io (suc rounds) fd op m ≡ fail op e (record m { os = (io.sync m.os fd).1 })
  unfolding sync retry
  sync_refused rounds e fd op m f = rw (sync, retry, f) refl

  pub sync-Synced :
      (rounds : ℕ) (fd : Option ℕ) (op : Operation) (m : Machine Os)
      → IsFile io content patience
      → patience m.os < rounds
      → Synced m (sync io rounds fd op m)
  sync-Synced zero fd op m law enough = absurd (omega (arith, enough))
  sync-Synced (suc rounds) fd op m law enough = elim (SystemCall-cases (io.sync m.os fd).0) [
    | inl (n, f) ↦
        subst (Synced m) (sym (sync_done rounds n fd op m f)) (law.syncs m.os fd, inl (refl, refl))
    | inr (inl f) ↦
        let (c, result) =
          sync-Synced rounds fd op (record m { os = (io.sync m.os fd).1 }) law
            (omega (arith, enough, law.sync_waits m.os fd f)) in
        subst (Synced m) (sym (sync_again rounds fd op m f)) (c ∙ law.syncs m.os fd, result)
    | inr (inr (e, f)) ↦
        subst (Synced m) (sym (sync_refused rounds e fd op m f))
          (law.syncs m.os fd, inr (refl, writer_fail-failed op e m.writer))
  ]

  -- The call did nothing; or it succeeded, and the record is in the file and counted; or it failed for
  -- good, with a beginning of the record in the file.
  abbrev pub Appended : Machine Os → Record → Result WriteError (Unit {0}) × Machine Os → Type 0
  Appended m r x =
      ((e : WriteError) × (x ≡ (err e, m)) × (e ≢ unfinished))
      ⊎ ((wire : List ℕ) × (record_encode max_record_size r ≡ ok wire)
          × (((x.0 ≡ ok tt)
                × (r.sequence ≡ m.writer.next_sequence)
                × (content x.1.os ≡ content m.os ++ wire)
                × (x.1.writer ≡ record m.writer {
                  synced_sequence = r.sequence;
                  next_sequence = next_number r.sequence;
                }))
              ⊎ ((x.0 ≡ err io_error)
                  × (is_failed x.1.writer.state ≡ true)
                  × ((part : List ℕ) × (rest : List ℕ) × (wire ≡ part ++ rest)
                      × (content x.1.os ≡ content m.os ++ part)))))

  -- The record that has been encoded.
  written-Appended :
      (rounds : ℕ) (r : Record) (wire : List ℕ) (m : Machine Os)
      → IsFile io content patience
      → length wire + patience m.os < rounds
      → record_encode max_record_size r ≡ ok wire
      → r.sequence ≡ m.writer.next_sequence
      → Appended m r (written io rounds r (ok wire) m)
  written-Appended rounds r wire m law enough encoded number =
      let start : Step Os (Unit {0}) = write_all io rounds wire write_record in
      let flush : Step Os (Unit {0}) = λ n. sync io rounds n.writer.fd sync_record n in
      let count : Step Os (Unit {0}) =
        set_writer (λ w. record w {
          synced_sequence = r.sequence;
          next_sequence = next_number r.sequence;
        }) in
      let q = (start m).1 in
      elim (write_all-Wrote rounds wire write_record m law (omega (arith, enough))) [
        | inl (answered, c, w, p) ↦
            let whole : written io rounds r (ok wire) m ≡ (flush >> count) q =
              after_ok start (λ u. flush >> count) m answered in
            let (c', result) =
              sync-Synced rounds q.writer.fd sync_record q law (omega (arith, enough, p)) in
            elim result [
              | inl (synced, same) ↦
                  subst (Appended m r) (sym (whole ∙ after_ok flush (λ u. count) q synced)) (
                    inr (
                      wire,
                      encoded,
                      inl (
                        refl,
                        number,
                        c' ∙ c,
                        ap
                            (λ (x : Writer). record x {
                              synced_sequence = r.sequence;
                              next_sequence = next_number r.sequence;
                            })
                            (same ∙ w),
                      ),
                    ))
              | inr (failing, broken) ↦
                  subst (Appended m r) (sym (whole ∙ after_err flush (λ u. count) q failing)) (
                    inr (
                      wire,
                      encoded,
                      inr (refl, broken, (wire, [], sym (append-nil wire), c' ∙ c)),
                    ))
            ]
        | inr (failing, broken, parts) ↦
            subst (Appended m r) (sym (after_err start (λ u. flush >> count) m failing))
              (inr (wire, encoded, inr (refl, broken, parts)))
      ]

  -- An append on a system that appends what it writes, that interrupts a call only so many times, and
  -- that may cut writes short and refuse any call: with more rounds than bytes of the largest record and
  -- interruptions to come, it answers, and it does not run out of rounds. Either it does nothing and
  -- refuses; or it succeeds, the encoded record stands whole behind the file, and its number is the one
  -- that was due and is counted as synced; or it fails, the handle stays failed, and the file has a
  -- beginning of the encoded record behind it.
  pub append-Appended :
      (rounds : ℕ) (r : Record) (m : Machine Os)
      → IsFile io content patience
      → max_record_size + patience m.os < rounds
      → Appended m r (append io rounds r m)
  unfolding append
  append-Appended rounds r m law enough = elim (Bool-cases (is_failed m.writer.state)) [
    | inl broken ↦ rw broken (inl (io_error, refl, λ h. cc))
    | inr sound ↦ elim (Bool-cases (is_ready m.writer.state)) [
      | inr other ↦ rw (sound, other) (inl (invalid_state, refl, λ h. cc))
      | inl able ↦ elim (Bool-cases (m.writer.next_sequence == 0)) [
        | inl last ↦ rw (sound, able, last) (inl (sequence_exhausted, refl, λ h. cc))
        | inr more ↦ elim (Bool-cases (r.sequence == m.writer.next_sequence)) [
          | inr wrong ↦ rw (sound, able, more, wrong) (inl (invalid_record, refl, λ h. cc))
          | inl due ↦ elim (Result-cases (record_encode max_record_size r)) [
            | inr (e, f) ↦ rw (sound, able, more, due, f) (inl (invalid_record, refl, λ h. cc))
            | inl (wire, f) ↦
                let (_, few, _) = record_encode_bounds max_record_size r wire f in
                let reached : append io rounds r m ≡ written io rounds r (ok wire) m =
                  rw (sound, able, more, due, f) refl in
                subst (Appended m r) (sym reached) (
                  written-Appended rounds r wire m law (omega (arith, few, enough)) f
                    (ground (arith, due)))
          ]
        ]
      ]
    ]
  ]
