-- ===== src/CoordinatorStore/State.antt =====
-- The state of the coordinator's store, and calls on it: what a call answers, with the state that it
-- leaves, a failure included.
use flatline_c.Prelude.{ℕ, Bool, true, false, Option, none, some}
use flatline_c.Prelude.Int.{ℤ}
use flatline_c.Prelude.Result.{Result, ok, err}
use flatline_c.Scheduler.{Scheduler}
use flatline_c.WorkerRegistry.{Registry}

pub data StoreError : Type 0 where
  rejected empty fatal : StoreError

pub data StoreFailure : Type 0 where
  open_failure wal_failure clock_failure internal_failure : StoreFailure

-- `Wal` is the state of the writer. The scratch scheduler lives inside one call here.
pub record Store (Wal : Type 0) : Type 0 where
  pub jobs : Scheduler
  pub workers : Registry
  pub wal : Wal
  pub failure : Option StoreFailure
  pub opened : Bool
  pub time_base_ms : ℤ
  pub session_start_ms : ℤ
  pub last_job_time_ms : ℤ
  pub interrupted_jobs : ℕ

abbrev pub Step : Type 0 → Type 0 → Type 0
Step Wal A = Store Wal → Result StoreError A × Store Wal

abbrev pub continue_with : {Wal A B : Type 0} → (A → Step Wal B) → Result StoreError A → Step Wal B
continue_with f (ok a) s = f a s
continue_with f (err e) s = (err e, s)

infixl 5 ◌>>=◌ ◌>>◌
abbrev pub ◌>>=◌ : {Wal A B : Type 0} → Step Wal A → (A → Step Wal B) → Step Wal B
m >>= f = λ s. continue_with f (m s).0 (m s).1

abbrev pub ◌>>◌ : {Wal B : Type 0} → Step Wal (Unit {0}) → Step Wal B → Step Wal B
m >> k = m >>= λ u. k

abbrev pub answer : {Wal A : Type 0} → A → Step Wal A
answer a = λ s. (ok a, s)

abbrev pub refuse : {Wal A : Type 0} → StoreError → Step Wal A
refuse e = λ s. (err e, s)

abbrev pub first : Option StoreFailure → StoreFailure → Option StoreFailure
first none f = some f
first (some e) f = some e

-- The first failure is kept, and is fatal.
abbrev pub fail : {Wal A : Type 0} → StoreFailure → Step Wal A
fail f = λ s. (err fatal, record s { failure = first s.failure f })

-- `if (b) { return e; }`, and with a failure.
abbrev pub refuse_if : {Wal : Type 0} → Bool → StoreError → Step Wal (Unit {0})
refuse_if true e = refuse e
refuse_if false e = answer tt

abbrev pub fail_if : {Wal : Type 0} → Bool → StoreFailure → Step Wal (Unit {0})
fail_if true f = fail f
fail_if false f = answer tt

-- Reading the state.
abbrev pub with_store : {Wal A : Type 0} → (Store Wal → Step Wal A) → Step Wal A
with_store f = λ s. f s s
