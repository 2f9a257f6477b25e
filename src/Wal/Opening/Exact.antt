-- ===== src/Wal/Opening/Exact.antt =====
-- An exact read gets all bytes that it asks for, or all that are left, however the system cuts its
-- reads.
use flatline_c.Prelude.{
  ℕ, zero, suc, ◌+◌, ◌-◌, ◌≤◌, ◌<◌, ◌≡◌, ◌⊎◌, inl, inr, refl, sym, ap, ◌∙◌, subst, Bool-cases, true,
  false, Option, List, [], ◌∷◌, ◌++◌, ltb, ◌==◌, length, length-append, take, drop, arith,
}
use flatline_c.Prelude.Result.{Result, ok, err, ok_inj}
use flatline_c.Wal.Writer.State.{
  WriteError, io_error, Machine, ReadCall, got, read_interrupted, read_refused, Io, read_file, eio,
  fail, is_failed,
}
use flatline_c.Wal.Writer.Written.{writer_fail-failed}
use flatline_c.Wal.Opening.{read_exact, prefixed}

-- A read gives bytes that follow the position, none only at the end, and moves behind them.
pub record IsSource {Os : Type 0} (io : Io Os) (file : List ℕ) (position patience : Os → ℕ)
    : Type 0 where
  pub gives :
      (os : Os) (fd : Option ℕ) (size : ℕ) (bytes : List ℕ)
      → (io.read os fd size).0 ≡ got bytes
      → (bytes ≡ take (length bytes) (drop (position os) file))
        × (position (io.read os fd size).1 ≡ position os + length bytes)
        × (patience (io.read os fd size).1 ≤ patience os)
  pub ends :
      (os : Os) (fd : Option ℕ) (size : ℕ)
      → (io.read os fd (suc size)).0 ≡ got []
      → drop (position os) file ≡ []
  pub waits :
      (os : Os) (fd : Option ℕ) (size : ℕ)
      → (io.read os fd size).0 ≡ read_interrupted
      → (position (io.read os fd size).1 ≡ position os)
        × (patience (io.read os fd size).1 < patience os)

ReadCall-cases :
    (a : ReadCall)
    → ((bytes : List ℕ) × (a ≡ got bytes))
      ⊎ (a ≡ read_interrupted)
      ⊎ ((e : ℕ) × (a ≡ read_refused e))
ReadCall-cases (got bytes) = inl (bytes, refl)
ReadCall-cases read_interrupted = inr (inl refl)
ReadCall-cases (read_refused e) = inr (inr (e, refl))

abbrev empty : List ℕ
empty = []

take-split : (n s : ℕ) (xs : List ℕ) → n ≤ s → take n xs ++ take (s - n) (drop n xs) ≡ take s xs
take-split zero s xs h = ap (λ k. take k xs) (omega arith)
take-split (suc n) zero xs h = absurd (omega (arith, h))
take-split (suc n) (suc s) [] h = take-none (suc s - suc n)
  where
    take-none : (k : ℕ) → take k empty ≡ empty
    take-none zero = refl
    take-none (suc k) = refl
take-split (suc n) (suc s) (x ∷ xs) h =
    ap (◌∷◌ x) (
      ap (λ k. take n xs ++ take k (drop n xs)) (omega arith)
      ∙ take-split n s xs (omega (arith, h)))

drop-none : (i : ℕ) → drop i empty ≡ empty
drop-none zero = refl
drop-none (suc i) = refl

drop-drop : (n k : ℕ) (xs : List ℕ) → drop (k + n) xs ≡ drop n (drop k xs)
drop-drop n zero xs = ap (λ i. drop i xs) (omega arith)
drop-drop n (suc k) [] = drop-none (suc k + n) ∙ sym (drop-none n)
drop-drop n (suc k) (x ∷ xs) =
    let e : suc k + n ≡ suc (k + n) = omega arith in ap (λ i. drop i (x ∷ xs)) e ∙ drop-drop n k xs

empty_bytes : (bytes : List ℕ) → (length bytes == 0) ≡ true → bytes ≡ []
empty_bytes [] h = refl
empty_bytes (b ∷ bytes) h = absurd (ground (arith, h))

module _ {Os : Type 0} (io : Io Os) (file : List ℕ) (position patience : Os → ℕ) where
  -- All bytes are there and the handle is as it was, or the handle has failed.
  abbrev pub Exact : Machine Os → ℕ → Result WriteError (List ℕ) × Machine Os → Type 0
  Exact m size x =
      ((bytes : List ℕ) × (bytes ≡ take size (drop (position m.os) file))
        × (x.0 ≡ ok bytes)
        × (position x.1.os ≡ position m.os + length bytes)
        × (x.1.writer ≡ m.writer))
      ⊎ ((x.0 ≡ err io_error) × (is_failed x.1.writer.state ≡ true))

  read_end :
      (rounds size : ℕ) (bytes : List ℕ) (m : Machine Os)
      → (io.read m.os m.writer.fd (suc size)).0 ≡ got bytes
      → (length bytes == 0) ≡ true
      → read_exact io (suc rounds) (suc size) m
        ≡ (ok [], record m { os = (io.read m.os m.writer.fd (suc size)).1 })
  unfolding read_exact
  read_end rounds size bytes m f e = rw (read_exact, f, e) refl

  read_oversized :
      (rounds size : ℕ) (bytes : List ℕ) (m : Machine Os)
      → (io.read m.os m.writer.fd (suc size)).0 ≡ got bytes
      → (length bytes == 0) ≡ false
      → ltb (suc size) (length bytes) ≡ true
      → read_exact io (suc rounds) (suc size) m
        ≡ fail read_file eio (record m { os = (io.read m.os m.writer.fd (suc size)).1 })
  unfolding read_exact
  read_oversized rounds size bytes m f e o = rw (read_exact, f, e, o) refl

  read_goes_on :
      (rounds size : ℕ) (bytes : List ℕ) (m : Machine Os)
      → (io.read m.os m.writer.fd (suc size)).0 ≡ got bytes
      → (length bytes == 0) ≡ false
      → ltb (suc size) (length bytes) ≡ false
      → read_exact io (suc rounds) (suc size) m
        ≡ prefixed bytes (
            read_exact io rounds
              (suc size - length bytes)
              (record m { os = (io.read m.os m.writer.fd (suc size)).1 }))
  unfolding read_exact
  read_goes_on rounds size bytes m f e o = rw (read_exact, f, e, o) refl

  read_waits :
      (rounds size : ℕ) (m : Machine Os)
      → (io.read m.os m.writer.fd (suc size)).0 ≡ read_interrupted
      → read_exact io (suc rounds) (suc size) m
        ≡ read_exact io rounds
            (suc size)
            (record m { os = (io.read m.os m.writer.fd (suc size)).1 })
  unfolding read_exact
  read_waits rounds size m f = rw (read_exact, f) refl

  read_stops :
      (rounds size e : ℕ) (m : Machine Os)
      → (io.read m.os m.writer.fd (suc size)).0 ≡ read_refused e
      → read_exact io (suc rounds) (suc size) m
        ≡ fail read_file e (record m { os = (io.read m.os m.writer.fd (suc size)).1 })
  unfolding read_exact
  read_stops rounds size e m f = rw (read_exact, f) refl

  prefixed-Exact :
      (m q : Machine Os) (size : ℕ) (first : List ℕ) (x : Result WriteError (List ℕ) × Machine Os)
      → first ≡ take (length first) (drop (position m.os) file)
      → length first ≤ size
      → position q.os ≡ position m.os + length first
      → q.writer ≡ m.writer
      → Exact q (size - length first) x
      → Exact m size (prefixed first x)
  prefixed-Exact m q size first (ok rest, n) e few here same
        (inl (bytes, whole, answered, there, writer)) =
      inl (
        first ++ bytes,
        ap (λ b. b ++ bytes) e
            ∙ ap (◌++◌ (take (length first) (drop (position m.os) file))) (
                whole
                ∙ ap (λ k. take (size - length first) (drop k file)) here
                ∙ ap (take (size - length first)) (drop-drop (length first) (position m.os) file))
            ∙ take-split (length first) size (drop (position m.os) file) few,
        ap (λ b. ok (first ++ b)) (ok_inj answered),
        there ∙ omega (arith, here, length-append first bytes),
        writer ∙ same,
      )
  prefixed-Exact m q size first (err e', n) e few here same
        (inl (bytes, whole, answered, there, writer)) =
      cc
  prefixed-Exact m q size first (ok rest, n) e few here same (inr (answered, broken)) = cc
  prefixed-Exact m q size first (err e', n) e few here same (inr (answered, broken)) =
      inr (answered, broken)

  -- An exact read, given as many rounds as bytes and interruptions to come, answers: with the bytes at
  -- the position, as many as asked for or all that are left, however short the single reads are, and
  -- behind them; or with an error, and the handle has failed.
  pub read_exact-Exact :
      (rounds size : ℕ) (m : Machine Os)
      → IsSource io file position patience
      → size + patience m.os ≤ rounds
      → Exact m size (read_exact io rounds size m)
  unfolding read_exact
  read_exact-Exact rounds zero m law enough = inl ([], refl, refl, omega arith, refl)
  read_exact-Exact zero (suc size) m law enough = absurd (omega (arith, enough))
  read_exact-Exact (suc rounds) (suc size) m law enough =
      let call = io.read m.os m.writer.fd (suc size) in
      let q : Machine Os = record m { os = call.1 } in
      elim (ReadCall-cases call.0) [
        | inl (bytes, f) ↦
            let (part, there, patient) = law.gives m.os m.writer.fd (suc size) bytes f in
            elim (Bool-cases (length bytes == 0)) [
              | inl none_left ↦
                  let nothing = empty_bytes bytes none_left in
                  let at_end = law.ends m.os m.writer.fd size (f ∙ ap got nothing) in
                  subst (Exact m (suc size)) (sym (read_end rounds size bytes m f none_left)) (
                    inl (
                      [],
                      sym (ap (take (suc size)) at_end),
                      refl,
                      there ∙ ap (λ b. position m.os + length b) nothing,
                      refl,
                    ))
              | inr some_left ↦ elim (Bool-cases (ltb (suc size) (length bytes))) [
                | inl over ↦
                    subst (Exact m (suc size))
                      (sym (read_oversized rounds size bytes m f some_left over))
                      (inr (refl, writer_fail-failed read_file eio m.writer))
                | inr few ↦
                    subst (Exact m (suc size))
                      (sym (read_goes_on rounds size bytes m f some_left few))
                      (prefixed-Exact m q (suc size) bytes
                        (read_exact io rounds (suc size - length bytes) q) part
                        (ground (arith, few)) there refl
                        (read_exact-Exact rounds (suc size - length bytes) q law
                          (ground (arith, some_left, few, patient, enough))))
              ]
            ]
        | inr (inl f) ↦
            let (there, patient) = law.waits m.os m.writer.fd (suc size) f in
            subst (Exact m (suc size)) (sym (read_waits rounds size m f)) (
              subst
                (λ k.
                  ((bytes : List ℕ) × (bytes ≡ take (suc size) (drop k file))
                    × ((read_exact io rounds (suc size) q).0 ≡ ok bytes)
                    × (position (read_exact io rounds (suc size) q).1.os ≡ k + length bytes)
                    × ((read_exact io rounds (suc size) q).1.writer ≡ m.writer))
                  ⊎ (((read_exact io rounds (suc size) q).0 ≡ err io_error)
                      × (is_failed (read_exact io rounds (suc size) q).1.writer.state ≡ true)))
                there (read_exact-Exact rounds (suc size) q law (omega (arith, patient, enough))))
        | inr (inr (e, f)) ↦
            subst (Exact m (suc size)) (sym (read_stops rounds size e m f))
              (inr (refl, writer_fail-failed read_file e m.writer))
      ]
