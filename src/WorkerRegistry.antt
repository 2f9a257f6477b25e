-- ===== src/WorkerRegistry.antt =====
-- include/worker_registry.h and coordinator/worker_registry.c: the fixed table of workers. A slot
-- index equal to the table's size means that no slot was found.
pub mod Invariant
pub mod Liveness
pub mod Tests
use flatline_c.Prelude.{
  ℕ, suc, ◌+◌, ◌-◌, ◌^◌, Bool, true, false, not, ◌&&◌, Option, none, some, List, [], ◌∷◌, ltb, ◌==◌,
  if◌then◌else◌, get_elem?, set, replicate,
}
use flatline_c.Prelude.Int.{ℤ, pos, negsuc, ◌-ℤ◌, ltz, lez, eqz, is_neg}
use flatline_c.Prelude.Result.{Result, ok, err, ◌>>=◌, ◌>>◌, reject}

abbrev pub max_workers : ℕ
max_workers = 64

abbrev pub worker_id_unassigned : ℕ
worker_id_unassigned = 0

pub data WorkerState : Type 0 where
  unused alive dead : WorkerState

pub record Worker : Type 0 where
  pub id : ℕ
  pub fd : ℤ
  pub state : WorkerState
  pub last_heartbeat_ms : ℤ

pub record Registry : Type 0 where
  pub workers : List Worker
  pub next_worker_id : ℕ

pub data RegistryError : Type 0 where
  invalid_argument already_registered full id_exhausted not_found not_alive connection_mismatch :
      RegistryError

abbrev pub blank : Worker
blank = record { id = 0; fd = negsuc 0; state = unused; last_heartbeat_ms = pos 0 }

unfoldable pub init : Registry
init = record { workers = replicate max_workers blank; next_worker_id = 1 }

abbrev pub is_alive : WorkerState → Bool
is_alive alive = true
is_alive _ = false

abbrev pub is_used : WorkerState → Bool
is_used unused = false
is_used _ = true

unfoldable pub find_slot : List Worker → ℕ → ℕ
find_slot [] id = 0
find_slot (w ∷ ws) id = if is_used w.state && w.id == id then 0 else suc (find_slot ws id)

unfoldable pub find : Registry → ℕ → Option Worker
find r id =
    if id == worker_id_unassigned
    then none
    else let slot = find_slot r.workers id in
      if slot == max_workers then none else get_elem? r.workers slot

-- The tests before the last keep the subtraction between nonnegative times.
unfoldable pub timed_out : Worker → ℤ → ℤ → Bool
timed_out w now_ms timeout_ms =
    is_alive w.state
    && ltz (pos 0) timeout_ms
    && not (is_neg w.last_heartbeat_ms)
    && lez w.last_heartbeat_ms now_ms
    && lez timeout_ms (now_ms -ℤ w.last_heartbeat_ms)

-- The loop of `register`: the first slot that is not alive, if no live worker has the connection.
unfoldable pub free_slot : List Worker → ℤ → ℕ → ℕ → Result RegistryError ℕ
free_slot [] fd i slot = ok slot
free_slot (w ∷ ws) fd i slot =
    let rest =
      free_slot ws fd (i + 1) (if not (is_alive w.state) && slot == max_workers then i else slot) in
    if is_alive w.state && eqz w.fd fd then err already_registered else rest

abbrev pub next_id : ℕ → ℕ
next_id id = if id == 2 ^ 32 - 1 then worker_id_unassigned else id + 1

unfoldable pub register : Registry → ℤ → ℤ → Result RegistryError (ℕ × Registry)
register r fd now_ms = do
  reject (is_neg fd) invalid_argument
  reject (is_neg now_ms) invalid_argument
  slot ← free_slot r.workers fd 0 max_workers
  reject (slot == max_workers) full
  reject (r.next_worker_id == worker_id_unassigned) id_exhausted
  ok (
    r.next_worker_id,
    record {
      workers =
          set r.workers slot
            (record { id = r.next_worker_id; fd = fd; state = alive; last_heartbeat_ms = now_ms });
      next_worker_id = next_id r.next_worker_id;
    },
  )

abbrev check_connection : WorkerState → ℤ → ℤ → Worker → ℕ → Result RegistryError (ℕ × Worker)
check_connection unused fd given w slot = err not_alive
check_connection dead fd given w slot = err not_alive
check_connection alive fd given w slot = do
  reject (not (eqz fd given)) connection_mismatch
  ok (slot, w)

abbrev at_slot : Option Worker → ℤ → ℕ → Result RegistryError (ℕ × Worker)
at_slot none fd slot = err not_found
at_slot (some w) fd slot = check_connection w.state w.fd fd w slot

-- The slot of a live worker on its own connection, and the record there.
unfoldable pub find_live_connection : Registry → ℕ → ℤ → Result RegistryError (ℕ × Worker)
find_live_connection r id fd = do
  reject (is_neg fd) invalid_argument
  reject (find_slot r.workers id == max_workers) not_found
  at_slot (get_elem? r.workers (find_slot r.workers id)) fd (find_slot r.workers id)

unfoldable pub heartbeat : Registry → ℕ → ℤ → ℤ → Result RegistryError Registry
heartbeat r id fd now_ms = do
  reject (is_neg now_ms) invalid_argument
  (slot, w) ← find_live_connection r id fd
  reject (ltz now_ms w.last_heartbeat_ms) invalid_argument
  ok (record r { workers = set r.workers slot (record w { last_heartbeat_ms = now_ms }) })

unfoldable pub mark_dead : Registry → ℕ → ℤ → Result RegistryError Registry
mark_dead r id fd = do
  (slot, w) ← find_live_connection r id fd
  ok (record r { workers = set r.workers slot (record w { state = dead; fd = negsuc 0 }) })
