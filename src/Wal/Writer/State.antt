-- ===== src/Wal/Writer/State.antt =====
-- The handle of the writer, the system that it calls, and calls on both: what a call answers, with the
-- state that it leaves.
use flatline_c.Prelude.{
  ℕ, ◌≡◌, refl, Bool, true, false, Option, none, some, List, ◌==◌, if◌then◌else◌,
}
use flatline_c.Prelude.Result.{Result, ok, err}

pub data WriterState : Type 0 where
  closed ready failed recovering : WriterState

pub data Operation : Type 0 where
  no_operation allocate_path open_directory create_file lock_file write_header sync_header :
      Operation
  sync_directory write_record sync_record close_file close_directory open_existing stat_file :
      Operation
  read_file allocate_replay validate_replay truncate_tail sync_recovery : Operation

-- `unfinished` is no result of the source; it stands for rounds that were not enough.
pub data WriteError : Type 0 where
  invalid_argument invalid_state invalid_record sequence_exhausted io_error unfinished : WriteError

-- `io_set` is whether `io` is not null.
pub record Writer : Type 0 where
  pub fd : Option ℕ
  pub directory_fd : Option ℕ
  pub state : WriterState
  pub next_sequence : ℕ
  pub synced_sequence : ℕ
  pub system_error : ℕ
  pub failed_operation : Operation
  pub io_set : Bool

abbrev pub writer_init : Writer
writer_init = record {
  fd = none;
  directory_fd = none;
  state = closed;
  next_sequence = 0;
  synced_sequence = 0;
  system_error = 0;
  failed_operation = no_operation;
  io_set = false;
}

-- What a system call returns: a number, or an errno; `interrupted` is the errno EINTR.
pub data SystemCall : Type 0 where
  done : ℕ → SystemCall
  interrupted : SystemCall
  refused : ℕ → SystemCall

-- What a read returns: the bytes that it has put into the buffer, or an errno.
pub data ReadCall : Type 0 where
  got : List ℕ → ReadCall
  read_interrupted : ReadCall
  read_refused : ℕ → ReadCall

pub record Io (Os : Type 0) : Type 0 where
  pub duplicate : Os → Bool × Os
  pub open_directory : Os → List ℕ → SystemCall × Os
  pub open_file : Os → Option ℕ → List ℕ → Bool → SystemCall × Os
  pub stat : Os → Option ℕ → SystemCall × Os
  pub lock : Os → Option ℕ → SystemCall × Os
  pub write : Os → Option ℕ → List ℕ → SystemCall × Os
  pub sync : Os → Option ℕ → SystemCall × Os
  pub close : Os → Option ℕ → SystemCall × Os
  pub read : Os → Option ℕ → ℕ → ReadCall × Os
  pub truncate : Os → Option ℕ → ℕ → SystemCall × Os

pub record Machine (Os : Type 0) : Type 0 where
  pub writer : Writer
  pub os : Os

abbrev pub Step : Type 0 → Type 0 → Type 0
Step Os A = Machine Os → Result WriteError A × Machine Os

abbrev pub continue_with : {Os A B : Type 0} → (A → Step Os B) → Result WriteError A → Step Os B
continue_with f (ok a) m = f a m
continue_with f (err e) m = (err e, m)

infixl 5 ◌>>=◌ ◌>>◌
abbrev pub ◌>>=◌ : {Os A B : Type 0} → Step Os A → (A → Step Os B) → Step Os B
m >>= f = λ s. continue_with f (m s).0 (m s).1

abbrev pub ◌>>◌ : {Os B : Type 0} → Step Os (Unit {0}) → Step Os B → Step Os B
m >> k = m >>= λ u. k

-- A step that succeeds is followed by the next one; one that fails is not.
pub after_ok :
    {Os A B : Type 0} (m : Step Os A) (f : A → Step Os B) (s : Machine Os) {a : A}
    → (m s).0 ≡ ok a
    → (m >>= f) s ≡ f a (m s).1
after_ok m f s h = rw h refl

pub after_err :
    {Os A B : Type 0} (m : Step Os A) (f : A → Step Os B) (s : Machine Os) {e : WriteError}
    → (m s).0 ≡ err e
    → (m >>= f) s ≡ (err e, (m s).1)
after_err m f s h = rw h refl

abbrev pub answer : {Os A : Type 0} → A → Step Os A
answer a = λ m. (ok a, m)

abbrev pub refuse : {Os A : Type 0} → WriteError → Step Os A
refuse e = λ m. (err e, m)

-- `if (b) { return e; }`
abbrev pub refuse_if : {Os : Type 0} → Bool → WriteError → Step Os (Unit {0})
refuse_if true e = refuse e
refuse_if false e = answer tt

abbrev pub with_machine : {Os A : Type 0} → (Machine Os → Step Os A) → Step Os A
with_machine f = λ m. f m m

abbrev pub set_writer : {Os : Type 0} → (Writer → Writer) → Step Os (Unit {0})
set_writer f = λ m. (ok tt, record m { writer = f m.writer })

abbrev pub is_open : Option ℕ → Bool
is_open none = false
is_open (some fd) = true

abbrev pub is_closed : WriterState → Bool
is_closed closed = true
is_closed _ = false

abbrev pub is_ready : WriterState → Bool
is_ready ready = true
is_ready _ = false

abbrev pub is_failed : WriterState → Bool
is_failed failed = true
is_failed _ = false

abbrev pub eio : ℕ
eio = 5

abbrev pub enomem : ℕ
enomem = 12

abbrev pub einval : ℕ
einval = 22

abbrev pub eoverflow : ℕ
eoverflow = 75

abbrev pub eilseq : ℕ
eilseq = 84

-- The first failure is kept.
unfoldable pub writer_fail : Operation → ℕ → Writer → Writer
writer_fail op e w = if is_failed w.state then w else record w {
  system_error = if e == 0 then eio else e;
  failed_operation = op;
  state = failed;
}

abbrev pub fail : {Os A : Type 0} → Operation → ℕ → Step Os A
fail op e = λ m. (err io_error, record m { writer = writer_fail op e m.writer })
