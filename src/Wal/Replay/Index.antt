-- ===== src/Wal/Replay/Index.antt =====
-- coordinator/wal_replay.c: the index of the worker IDs that the log has allocated, as ranges of
-- adjacent IDs. `ranges` holds the first `count` slots of the C array.
use flatline_c.Prelude.{
  ℕ, zero, suc, ◌+◌, ◌-◌, ◌*◌, ◌/◌, ◌^◌, Bool, true, false, not, Option, none, some, List, [], ◌∷◌,
  ◌++◌, ltb, ◌==◌, if◌then◌else◌, length, get_elem?, set,
}
use flatline_c.Prelude.Result.{Result, ok, ◌>>=◌, ◌>>◌, reject}
use flatline_c.Wal.Format.{WalError}

pub record WorkerRange : Type 0 where
  pub first : ℕ
  pub last : ℕ

pub record WorkerIndex : Type 0 where
  pub ranges : List WorkerRange
  pub capacity : ℕ

abbrev pub empty_index : WorkerIndex
empty_index = record { ranges = []; capacity = 0 }

pub data HistoryError : Type 0 where
  allocation unknown_job unknown_worker busy_worker fifo time transition snapshot : HistoryError

-- The results of a replay that has begun, with the code that the report gets.
pub data ReplayError : Type 0 where
  io_error replay_capacity no_memory : ReplayError
  bad_format : WalError → ReplayError
  bad_history : HistoryError → ReplayError

abbrev pub adjacent : Option WorkerRange → ℕ → Bool
adjacent none id = false
adjacent (some r) id = r.last + 1 == id

abbrev pub last_range : List WorkerRange → Option WorkerRange
last_range rs = get_elem? rs (length rs - 1)

-- The last range is made to end with `id`.
abbrev pub extended : List WorkerRange → ℕ → Option WorkerRange → List WorkerRange
extended rs id none = rs
extended rs id (some r) = set rs (length rs - 1) (record r { last = id })

abbrev doubled : ℕ → ℕ
doubled capacity = if capacity == 0 then 16 else capacity * 2

-- The capacity after `realloc`; a range has 8 bytes.
unfoldable pub grown : (ℕ → Bool) → ℕ → Result ReplayError ℕ
grown grows capacity = do
  reject (ltb ((2 ^ 64 - 1) / 2 / 8) capacity) no_memory
  reject (not (grows (doubled capacity))) no_memory
  ok (doubled capacity)

-- The capacity with which there is room for another range.
abbrev pub room : (ℕ → Bool) → WorkerIndex → Result ReplayError ℕ
room grows index =
    if length index.ranges == index.capacity then grown grows index.capacity else ok index.capacity

abbrev pub added : (ℕ → Bool) → WorkerIndex → ℕ → Result ReplayError WorkerIndex
added grows index id = do
  capacity ← room grows index
  ok (record {
    ranges = index.ranges ++ (record { first = id; last = id }) ∷ [];
    capacity = capacity;
  })

-- The part of `allocate_worker` that changes the index; `grows` is what `realloc` answers.
unfoldable pub index_worker : (ℕ → Bool) → WorkerIndex → ℕ → Result ReplayError WorkerIndex
unfolding grown
index_worker grows index id =
    if adjacent (last_range index.ranges) id
    then ok (record index { ranges = extended index.ranges id (last_range index.ranges) })
    else added grows index id

pub data Probe : Type 0 where
  lower upper hit : Probe

-- The tests in the body of the search; `middle` is always the index of a range.
abbrev pub probe : ℕ → Option WorkerRange → Probe
probe id none = hit
probe id (some r) = if ltb id r.first then lower else if ltb r.last id then upper else hit

-- The rounds that are left; each one shrinks what lies between `low` and `high`.
unfoldable pub search_ranges : ℕ → List WorkerRange → ℕ → ℕ → ℕ → Bool
search_ranges zero rs id low high = false
search_ranges (suc rounds) rs id low high =
    let middle = low + (high - low) / 2 in
    let found : Bool = elim (probe id (get_elem? rs middle)) [
      | lower ↦ search_ranges rounds rs id low middle
      | upper ↦ search_ranges rounds rs id (middle + 1) high
      | hit ↦ true
    ] in
    if ltb low high then found else false

unfoldable pub worker_was_allocated : WorkerIndex → ℕ → Bool
unfolding search_ranges
worker_was_allocated index id =
    search_ranges (length index.ranges + 1) index.ranges id 0 (length index.ranges)
