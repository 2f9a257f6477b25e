-- ===== src/Wal/Writer.antt =====
-- coordinator/wal_writer.c: the writer of the log. The functions of `struct faultline_wal_writer_io` and
-- the other system calls are a parameter: each answers with what it returns, or that it was interrupted
-- or failed, and with the state `Os` of the system that it leaves. A descriptor that is -1 is `none`.
pub mod State
pub mod Written
pub mod LogFile
pub mod Created
pub mod Tests
use flatline_c.Prelude.{
  ℕ, zero, suc, ◌+◌, ◌-◌, ◌/◌, ◌%◌, ◌^◌, Bool, true, false, not, ◌&&◌, ◌||◌, Option, none, some,
  List, [], ◌∷◌, ltb, ◌==◌, if◌then◌else◌, length, drop,
}
use flatline_c.Prelude.Result.{Result, ok, err}
use flatline_c.Wal.Format.{WalError, Record, file_header_size}
use flatline_c.Wal.Codec.{file_header_encode, record_encode}
use flatline_c.Wal.Replay.{max_record_size}
use flatline_c.Wal.Writer.State.{
  WriterState, closed, ready, failed, recovering, Operation, allocate_path, open_directory,
  create_file, lock_file, write_header, sync_header, sync_directory, write_record, sync_record,
  close_file, close_directory, open_existing, stat_file, WriteError, invalid_argument,
  invalid_state, invalid_record, sequence_exhausted, unfinished, Writer, Machine, Step, SystemCall,
  done, interrupted, refused, Io, ◌>>=◌, ◌>>◌, answer, refuse, refuse_if, with_machine, set_writer,
  is_open, fail, is_closed, is_ready, is_failed, eio, enomem, einval,
}

-- The directory and the name of the last slash, which is 47.
abbrev before_slash : ℕ → List ℕ → Option (List ℕ × List ℕ) → Option (List ℕ × List ℕ)
before_slash c cs (some (directory, name)) = some (c ∷ directory, name)
before_slash c cs none = if c == 47 then some ([], cs) else none

unfoldable pub split_path : List ℕ → Option (List ℕ × List ℕ)
split_path [] = none
split_path (c ∷ cs) = before_slash c cs (split_path cs)

abbrev pub located : List ℕ → Option (List ℕ × List ℕ) → List ℕ × List ℕ
located path none = (46 ∷ [], path)
located path (some ([], name)) = (47 ∷ [], name)
located path (some (directory, name)) = (directory, name)

unfoldable pub ends_with_slash : List ℕ → Bool
ends_with_slash [] = false
ends_with_slash (c ∷ []) = c == 47
ends_with_slash (c ∷ cs) = ends_with_slash cs

-- S_ISREG: the type of the file is in bits 12 to 15 of its mode.
abbrev pub is_regular : ℕ → Bool
is_regular mode = mode / 2 ^ 12 % 2 ^ 4 == 8

abbrev pub next_number : ℕ → ℕ
next_number sequence = if sequence == 2 ^ 64 - 1 then 0 else sequence + 1

module _ {Os : Type 0} (io : Io Os) where
  -- A system call that is made again when it was interrupted, in at most so many rounds.
  unfoldable pub retry : ℕ → (Os → SystemCall × Os) → Operation → Step Os ℕ
  retry zero call op m = (err unfinished, m)
  retry (suc rounds) call op m =
      let retried = retry rounds call op in
      let (called, os) = call m.os in
      elim called [
        | done n ↦ (ok n, record m { os = os })
        | interrupted ↦ retried (record m { os = os })
        | refused e ↦ fail op e (record m { os = os })
      ]

  unfoldable pub sync : ℕ → Option ℕ → Operation → Step Os (Unit {0})
  unfolding retry
  sync rounds fd op = retry rounds (λ os. io.sync os fd) op >>= λ n. answer tt

  -- `bytes` are those that are left to write.
  unfoldable pub write_all : ℕ → List ℕ → Operation → Step Os (Unit {0})
  write_all rounds [] op m = (ok tt, m)
  write_all zero (b ∷ bytes) op m = (err unfinished, m)
  write_all (suc rounds) (b ∷ bytes) op m =
      let left = b ∷ bytes in
      let (called, os) = io.write m.os m.writer.fd left in
      elim called [
        | done n ↦
            if n == 0 || ltb (length left) n
            then fail op eio (record m { os = os })
            else write_all rounds (drop n left) op (record m { os = os })
        | interrupted ↦ write_all rounds left op (record m { os = os })
        | refused e ↦ fail op e (record m { os = os })
      ]

  abbrev duplicated : Bool × Os → Step Os (Unit {0})
  duplicated (true, os) m = (ok tt, record m { os = os })
  duplicated (false, os) m = fail allocate_path enomem (record m { os = os })

  abbrev opened_operation : Bool → Operation
  opened_operation true = create_file
  opened_operation false = open_existing

  -- The directory, the file in it, and the checks of what was opened.
  unfoldable pub open_parts : ℕ → List ℕ × List ℕ → Bool → Step Os (Unit {0})
  unfolding retry
  open_parts rounds (directory, name) create =
      retry rounds (λ os. io.open_directory os directory) open_directory >>= λ fd.
      set_writer (λ w. record w { directory_fd = some fd })
      >> (retry rounds (λ os. io.open_file os (some fd) name create) (opened_operation create)
          >>= λ file.
              set_writer (λ w. record w { fd = some file })
              >> (retry rounds (λ os. io.stat os (some file)) stat_file >>= λ mode.
                  (if is_regular mode then answer tt else fail stat_file einval)
                  >> (retry rounds (λ os. io.lock os (some file)) lock_file >>= λ locked.
                      set_writer (λ w. record w { state = recovering }))))

  unfoldable pub open_file : ℕ → List ℕ → Bool → Step Os (Unit {0})
  unfolding open_parts split_path ends_with_slash
  open_file rounds path create = with_machine λ m.
      refuse_if (length path == 0 || ends_with_slash path) invalid_argument
      >> (refuse_if (is_failed m.writer.state) WriteError.io_error
          >> (refuse_if
                (not (is_closed m.writer.state)
                  || is_open m.writer.fd
                  || is_open m.writer.directory_fd)
                invalid_state
              >> (set_writer
                    (λ w. record w { io_set = true; next_sequence = 0; synced_sequence = 0 })
                  >> (duplicated (io.duplicate m.os)
                      >> open_parts rounds (located path (split_path path)) create))))

  abbrev encoded_header : Result WalError (List ℕ) → List ℕ
  encoded_header (ok bytes) = bytes
  encoded_header (err e) = []

  -- A failure of a write or of a sync is answered as such.
  unfoldable pub create_log : ℕ → List ℕ → Step Os (Unit {0})
  unfolding open_file write_all sync
  create_log rounds path =
      open_file rounds path true
      >> (write_all rounds (encoded_header (file_header_encode file_header_size)) write_header
          >> (with_machine (λ m. sync rounds m.writer.fd sync_header)
              >> (with_machine (λ m. sync rounds m.writer.directory_fd sync_directory)
                  >> set_writer (λ w. record w { next_sequence = 1; state = ready }))))

  abbrev pub written : ℕ → Record → Result WalError (List ℕ) → Step Os (Unit {0})
  written rounds r (err e) = refuse invalid_record
  written rounds r (ok wire) =
      write_all rounds wire write_record
      >> (with_machine (λ m. sync rounds m.writer.fd sync_record)
          >> set_writer (λ w. record w {
            synced_sequence = r.sequence;
            next_sequence = next_number r.sequence;
          }))

  unfoldable pub append : ℕ → Record → Step Os (Unit {0})
  unfolding write_all sync
  append rounds r = with_machine λ m.
      refuse_if (is_failed m.writer.state) WriteError.io_error
      >> (refuse_if (not (is_ready m.writer.state)) invalid_state
          >> (refuse_if (m.writer.next_sequence == 0) sequence_exhausted
              >> (refuse_if (not (r.sequence == m.writer.next_sequence)) invalid_record
                  >> written rounds r (record_encode max_record_size r))))

  -- A descriptor that is closed, once; its failure is kept and does not end the call.
  abbrev closed_one : Operation → SystemCall × Os → Step Os (Unit {0})
  closed_one op (done n, os) m = (ok tt, record m { os = os })
  closed_one op (interrupted, os) m = (ok tt, (fail {A = Unit {0}} op 4 (record m { os = os })).1)
  closed_one op (refused e, os) m = (ok tt, (fail {A = Unit {0}} op e (record m { os = os })).1)

  abbrev close_one : Option ℕ → Operation → Step Os (Unit {0})
  close_one none op = answer tt
  close_one (some fd) op = with_machine (λ m. closed_one op (io.close m.os (some fd)))

  unfoldable pub close_log : Step Os (Unit {0})
  close_log = with_machine λ m.
      refuse_if (not m.writer.io_set && (is_open m.writer.fd || is_open m.writer.directory_fd))
        invalid_state
      >> (set_writer (λ w. record w { fd = none })
          >> (close_one m.writer.fd close_file
              >> (set_writer (λ w. record w { directory_fd = none })
                  >> (close_one m.writer.directory_fd close_directory
                      >> with_machine (λ n.
                        refuse_if (is_failed n.writer.state) WriteError.io_error
                        >> set_writer (λ w. record w { state = closed }))))))
