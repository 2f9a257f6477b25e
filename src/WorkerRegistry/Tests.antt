-- ===== src/WorkerRegistry/Tests.antt =====
-- Runs of the registry, and the theorems at concrete inputs.
use flatline_c.Prelude.{
  ℕ, ◌+◌, ◌≡◌, ◌≢◌, refl, false, some, List, [], ◌∷◌, arith, leb, get_elem?, replicate,
}
use flatline_c.Prelude.Int.{ℤ, pos, negsuc}
use flatline_c.Prelude.Result.{ok, err}
use flatline_c.WorkerRegistry.{
  Worker, WorkerState, blank, alive, dead, Registry, already_registered, init, find_slot, free_slot,
  timed_out, register, find_live_connection, heartbeat, mark_dead,
}
use flatline_c.WorkerRegistry.Invariant.{IsValid, init-IsValid, register-IsValid, buried}
use flatline_c.WorkerRegistry.Liveness.{
  Call, registers, loses, issued, after, IsAscending, issued-IsAscending, after-IsValid,
  lost_worker_stays_lost, heartbeat_lease,
}

-- Worker 1 in the first slot, the others blank.
abbrev with_worker : WorkerState → ℤ → ℤ → Registry
with_worker state fd beat = record {
  workers =
      record { id = 1; fd = fd; state = state; last_heartbeat_ms = beat } ∷ replicate 63 blank;
  next_worker_id = 2;
}

register_one : register init (pos 5) (pos 100) ≡ ok (1, with_worker alive (pos 5) (pos 100))
unfolding register init free_slot
register_one = refl

one-IsValid : IsValid (with_worker alive (pos 5) (pos 100))
one-IsValid = register-IsValid init (pos 5) (pos 100) 1 _ register_one init-IsValid

heartbeat_one :
    heartbeat (with_worker alive (pos 5) (pos 100)) 1 (pos 5) (pos 150)
    ≡ ok (with_worker alive (pos 5) (pos 150))
unfolding heartbeat find_live_connection find_slot
heartbeat_one = refl

lost_one :
    mark_dead (with_worker alive (pos 5) (pos 100)) 1 (pos 5)
    ≡ ok (with_worker dead (negsuc 0) (pos 100))
unfolding mark_dead find_live_connection find_slot
lost_one = refl

same_connection :
    register (with_worker alive (pos 5) (pos 100)) (pos 5) (pos 120) ≡ err already_registered
unfolding register free_slot
same_connection = refl

abbrev history : List Call
history = registers (pos 5) (pos 100) ∷ loses 1 (pos 5) ∷ registers (pos 5) (pos 200) ∷ []

issued_ids : issued init history ≡ 1 ∷ 2 ∷ []
unfolding issued init register free_slot mark_dead find_live_connection find_slot
issued_ids = refl

issued-IsAscending_example : IsAscending 0 (issued init history)
issued-IsAscending_example = issued-IsAscending init history

after-IsValid_example : IsValid (after init history)
after-IsValid_example = after-IsValid init history init-IsValid

lost_worker_stays_lost_example :
    heartbeat (after (with_worker dead (negsuc 0) (pos 100)) history) 1 (pos 5) (pos 300) ≢ ok init
lost_worker_stays_lost_example =
    lost_worker_stays_lost (with_worker alive (pos 5) (pos 100)) 1 (pos 5)
      (with_worker dead (negsuc 0) (pos 100)) history (pos 5) (pos 300) init one-IsValid lost_one

heartbeat_lease_example :
    (slot : ℕ) × (w : Worker) × (get_elem? (with_worker alive (pos 5) (pos 150)).workers slot
      ≡ some w)
    × (w.id ≡ 1)
    × (timed_out w (pos 160) (pos 20) ≡ leb (150 + 20) 160)
    × (timed_out (buried w) (pos 160) (pos 20) ≡ false)
heartbeat_lease_example =
    heartbeat_lease (with_worker alive (pos 5) (pos 100)) 1 (pos 5) 150 20 160 _ heartbeat_one
      (omega arith)
