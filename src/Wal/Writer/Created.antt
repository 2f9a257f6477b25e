-- ===== src/Wal/Writer/Created.antt =====
-- The file after create_log of wal_writer.c.
use flatline_c.Prelude.{
  ℕ, zero, suc, ◌+◌, ◌<◌, ◌≡◌, inl, inr, refl, sym, ap, subst, ◌∙◌, Bool, true, false, Option, some,
  List, [], not, ◌||◌, ◌==◌, Bool-cases, if◌then◌else◌, ◌++◌, length, arith,
}
use flatline_c.Prelude.Result.{Result, ok, err, Result-cases}
use flatline_c.Wal.Codec.{file_header_encode}
use flatline_c.Wal.Format.{WalError, file_header_size}
use flatline_c.Wal.Replay.{max_record_size}
use flatline_c.Wal.Writer.State.{
  WriteError, Writer, Machine, SystemCall, done, Operation, Io, Step, stat_file, einval, is_closed,
  is_failed, is_open, invalid_argument, invalid_state, write_header, sync_header, sync_directory,
  ready, lock_file, open_directory, create_file, recovering, ◌>>=◌, ◌>>◌, after_ok, after_err, fail,
  answer, refuse_if, set_writer,
}
use flatline_c.Wal.Writer.{
  retry, is_regular, sync, write_all, open_parts, duplicated, located, split_path, ends_with_slash,
  open_file, create_log,
}
use flatline_c.Wal.Writer.Written.{IsFile, SystemCall-cases, write_all-Wrote, sync-Synced}

-- A file that was created with O_EXCL is empty; its mode and its lock are not its bytes.
pub record IsCreation {Os : Type 0} (io : Io Os) (content : Os → List ℕ) : Type 0 where
  pub creates :
      (os : Os) (fd : Option ℕ) (name : List ℕ) (n : ℕ)
      → (io.open_file os fd name true).0 ≡ done n
      → content (io.open_file os fd name true).1 ≡ []
  pub stats : (os : Os) (fd : Option ℕ) → content (io.stat os fd).1 ≡ content os
  pub locks : (os : Os) (fd : Option ℕ) → content (io.lock os fd).1 ≡ content os

module _ {Os : Type 0} where
  -- A step that succeeds leads from states with the one property to states with the other.
  abbrev Leads : {A : Type 0} → (Machine Os → Type 0) → (Machine Os → Type 0) → Step Os A → Type 0
  Leads {A = A} P Q s = (m : Machine Os) (a : A) → P m → (s m).0 ≡ ok a → Q (s m).1

  Leads-bind :
      {A B : Type 0} (P Q R : Machine Os → Type 0) (s : Step Os A) (f : A → Step Os B)
      → Leads P Q s
      → ((a : A) → Leads Q R (f a))
      → Leads P R (s >>= f)
  Leads-bind P Q R s f first next m b p h = elim (Result-cases (s m).0) [
    | inl (a, e) ↦
        let same = after_ok s f m e in
        subst (λ x. R x.1) (sym same)
          (next a (s m).1 b (first m a p e) (ap (λ x. x.0) (sym same) ∙ h))
    | inr (e, k) ↦ let bad = ap (λ x. x.0) (sym (after_err s f m k)) ∙ h in cc
  ]

  Leads-refuse_if :
      (P : Machine Os → Type 0) (b : Bool) (e : WriteError) → Leads P P (refuse_if b e)
  Leads-refuse_if P true e m a p h = cc
  Leads-refuse_if P false e m a p h = p

  Leads-set :
      (P Q : Machine Os → Type 0) (f : Writer → Writer)
      → ((m : Machine Os) → P m → Q (record m { writer = f m.writer }))
      → Leads P Q (set_writer f)
  Leads-set P Q f g m a p h = g m p

module _ {Os : Type 0} (io : Io Os) where
  retry-Leads :
      (P Q : Os → Type 0) (rounds : ℕ) (call : Os → SystemCall × Os) (op : Operation)
      → ((os : Os) → P os → P (call os).1)
      → ((os : Os) (n : ℕ) → P os → (call os).0 ≡ done n → Q (call os).1)
      → Leads (λ m. P m.os) (λ m. Q m.os) (retry io rounds call op)
  unfolding retry
  retry-Leads P Q zero call op waits ends m a p h = cc
  retry-Leads P Q (suc rounds) call op waits ends m a p h = elim (SystemCall-cases (call m.os).0) [
    | inl (n, f) ↦ rw (retry, f) (ends m.os n p f)
    | inr (inl f) ↦
        rw (retry, f)
          (retry-Leads P Q rounds call op waits ends (record m { os = (call m.os).1 }) a
            (waits m.os p) (rw (retry, f) at h))
    | inr (inr (e, f)) ↦ let h' = rw (retry, f) at h in cc
  ]

abbrev header_bytes : Result WalError (List ℕ) → List ℕ
header_bytes (ok bytes) = bytes
header_bytes (err e) = []

-- The bytes of the header.
abbrev pub file_header : List ℕ
file_header = header_bytes (file_header_encode file_header_size)

length-file_header : length file_header ≡ 24
unfolding file_header_encode flatline_c.Bytes.put_u16 flatline_c.Bytes.put_u32
length-file_header = refl

-- The file holds the header, and the next number is 1.
abbrev pub Created : {Os : Type 0} → (Os → List ℕ) → Machine Os → Type 0
Created content m = (content m.os ≡ file_header) × (m.writer.next_sequence ≡ 1)

module _ {Os : Type 0} (io : Io Os) (content : Os → List ℕ) (patience : Os → ℕ) where
  abbrev Any : Machine Os → Type 0
  Any m = Unit {0}

  abbrev Holds : List ℕ → Machine Os → Type 0
  Holds bytes m = content m.os ≡ bytes

  inspected-Leads :
      (rounds file mode : ℕ)
      → IsCreation io content
      → Leads (Holds []) (Holds []) (
          (if is_regular mode then answer tt else fail {A = Unit {0}} stat_file einval)
          >> (retry io rounds (λ os. io.lock os (some file)) lock_file >>= λ locked.
              set_writer (λ w. record w { state = recovering })))
  inspected-Leads rounds file mode law =
      let check : Step Os (Unit {0}) =
        if is_regular mode then answer tt else fail {A = Unit {0}} stat_file einval in
      let lock : Step Os ℕ = retry io rounds (λ os. io.lock os (some file)) lock_file in
      let last : Step Os (Unit {0}) = set_writer (λ w. record w { state = recovering }) in
      Leads-bind (Holds []) (Holds []) (Holds []) check (λ u. lock >>= λ locked. last)
        (elim (Bool-cases (is_regular mode)) [
          | inl regular ↦ rw regular (λ m a p h. p)
          | inr other ↦ rw other (λ m a p h. cc)
        ])
        (λ u.
          Leads-bind (Holds []) (Holds []) (Holds []) lock (λ locked. last)
            (retry-Leads io (λ os. content os ≡ []) (λ os. content os ≡ []) rounds
              (λ os. io.lock os (some file)) lock_file (λ os p. law.locks os (some file) ∙ p)
              (λ os n p f. law.locks os (some file) ∙ p))
            (λ locked m a p h. p))

  open_parts-Leads :
      (rounds : ℕ) (path : List ℕ × List ℕ)
      → IsCreation io content
      → Leads Any (Holds []) (open_parts io rounds path true)
  unfolding open_parts
  open_parts-Leads rounds (directory, name) law =
      let folder : Step Os ℕ =
        retry io rounds (λ os. io.open_directory os directory) open_directory in
      let keep_folder : ℕ → Step Os (Unit {0}) =
        λ fd. set_writer (λ w. record w { directory_fd = some fd }) in
      let create : ℕ → Step Os ℕ =
        λ fd. retry io rounds (λ os. io.open_file os (some fd) name true) create_file in
      let keep_file : ℕ → Step Os (Unit {0}) =
        λ file. set_writer (λ w. record w { fd = some file }) in
      let inspect : ℕ → Step Os ℕ =
        λ file. retry io rounds (λ os. io.stat os (some file)) stat_file in
      let rest : ℕ → ℕ → Step Os (Unit {0}) = λ file mode.
        (if is_regular mode then answer tt else fail {A = Unit {0}} stat_file einval)
        >> (retry io rounds (λ os. io.lock os (some file)) lock_file >>= λ locked.
            set_writer (λ w. record w { state = recovering })) in
      let use_file : ℕ → Step Os (Unit {0}) =
        λ file. keep_file file >> (inspect file >>= rest file) in
      Leads-bind Any Any (Holds []) folder (λ fd. keep_folder fd >> (create fd >>= use_file))
        (λ m a p h. tt)
        (λ fd.
          Leads-bind Any Any (Holds []) (keep_folder fd) (λ u. create fd >>= use_file)
            (λ m a p h. tt)
            (λ u.
              Leads-bind Any (Holds []) (Holds []) (create fd) use_file
                (retry-Leads io (λ os. Unit {0}) (λ os. content os ≡ []) rounds
                  (λ os. io.open_file os (some fd) name true) create_file (λ os p. tt)
                  (λ os n p f. law.creates os (some fd) name n f))
                (λ file.
                  Leads-bind (Holds []) (Holds []) (Holds []) (keep_file file)
                    (λ u. inspect file >>= rest file) (λ m a p h. p)
                    (λ u.
                      Leads-bind (Holds []) (Holds []) (Holds []) (inspect file) (rest file)
                        (retry-Leads io (λ os. content os ≡ []) (λ os. content os ≡ []) rounds
                          (λ os. io.stat os (some file)) stat_file
                          (λ os p. law.stats os (some file) ∙ p)
                          (λ os n p f. law.stats os (some file) ∙ p))
                        (λ mode. inspected-Leads rounds file mode law)))))

  open_file-Leads :
      (rounds : ℕ) (path : List ℕ)
      → IsCreation io content
      → Leads Any (Holds []) (open_file io rounds path true)
  unfolding open_file
  open_file-Leads rounds path law m =
      let no_path = length path == 0 || ends_with_slash path in
      let in_use =
        not (is_closed m.writer.state) || is_open m.writer.fd || is_open m.writer.directory_fd in
      let begin : Step Os (Unit {0}) =
        set_writer (λ w. record w { io_set = true; next_sequence = 0; synced_sequence = 0 }) in
      let copy : Step Os (Unit {0}) = duplicated io (io.duplicate m.os) in
      let parts : Step Os (Unit {0}) = open_parts io rounds (located path (split_path path)) true in
      Leads-bind Any Any (Holds []) (refuse_if no_path invalid_argument)
        (λ u.
          refuse_if (is_failed m.writer.state) WriteError.io_error
          >> (refuse_if in_use invalid_state >> (begin >> (copy >> parts))))
        (λ n a p h. tt)
        (λ u.
          Leads-bind Any Any (Holds []) (refuse_if (is_failed m.writer.state) WriteError.io_error)
            (λ u. refuse_if in_use invalid_state >> (begin >> (copy >> parts))) (λ n a p h. tt)
            (λ u.
              Leads-bind Any Any (Holds []) (refuse_if in_use invalid_state)
                (λ u. begin >> (copy >> parts)) (λ n a p h. tt)
                (λ u.
                  Leads-bind Any Any (Holds []) begin (λ u. copy >> parts) (λ n a p h. tt)
                    (λ u.
                      Leads-bind Any Any (Holds []) copy (λ u. parts) (λ n a p h. tt)
                        (λ u. open_parts-Leads rounds (located path (split_path path)) law)))))
        m

  pub create_log-Created :
      (rounds : ℕ) (path : List ℕ)
      → IsFile io content patience
      → IsCreation io content
      → ((os : Os) → max_record_size + patience os < rounds)
      → Leads Any (Created content) (create_log io rounds path)
  unfolding create_log file_header_encode flatline_c.Bytes.put_u16 flatline_c.Bytes.put_u32
  create_log-Created rounds path law new room =
      let write : Step Os (Unit {0}) = write_all io rounds file_header write_header in
      let flush : Step Os (Unit {0}) = λ m. sync io rounds m.writer.fd sync_header m in
      let flush_folder : Step Os (Unit {0}) =
        λ m. sync io rounds m.writer.directory_fd sync_directory m in
      let last : Step Os (Unit {0}) =
        set_writer (λ w. record w { next_sequence = 1; state = ready }) in
      Leads-bind Any (Holds []) (Created content) (open_file io rounds path true)
        (λ u. write >> (flush >> (flush_folder >> last))) (open_file-Leads rounds path new)
        (λ u.
          Leads-bind (Holds []) (Holds file_header) (Created content) write
            (λ u. flush >> (flush_folder >> last))
            (λ m a p h.
              elim (write_all-Wrote io content patience rounds file_header write_header m law
                (omega (arith, length-file_header, room m.os))) [
                  | inl (_, c, _, _) ↦ c ∙ ap (λ x. x ++ file_header) p
                  | inr (bad, _, _) ↦ cc
                ])
            (λ u.
              Leads-bind (Holds file_header) (Holds file_header) (Created content) flush
                (λ u. flush_folder >> last)
                (λ m a p h.
                  (sync-Synced io content patience rounds m.writer.fd sync_header m law
                    (omega (arith, room m.os))).0
                  ∙ p)
                (λ u.
                  Leads-bind (Holds file_header) (Holds file_header) (Created content) flush_folder
                    (λ u. last)
                    (λ m a p h.
                      (sync-Synced io content patience rounds m.writer.directory_fd sync_directory m
                        law (omega (arith, room m.os))).0
                      ∙ p)
                    (λ u m a p h. (p, refl)))))
