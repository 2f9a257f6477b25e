-- ===== src/JobQueue/Refine.antt =====
-- The ring against a bounded first-in first-out list without duplicates.
use native.Mathlib.Nat.{add-zero}
use flatline_c.Prelude.{
  ℕ, zero, suc, ◌+◌, ◌-◌, ◌%◌, ◌≤◌, ◌<◌, ◌≡◌, refl, ap, ◌∙◌, Bool, false, not, ◌||◌, List, [], ◌∷◌,
  ◌++◌, arith, length, ◌==◌,
}
use flatline_c.Prelude.Result.{Result, ok, err, ◌>>◌, reject}
use flatline_c.Job.{Job}
use flatline_c.JobQueue.{
  JobQueue, QueueError, invalid_argument, invalid_state, duplicate, full, empty, capacity, update,
  init, is_queued, holds, push, peek, pop,
}

abbrev window : (ℕ → ℕ) → ℕ → ℕ → List ℕ
window ids position zero = []
window ids position (suc n) = ids (position % capacity) ∷ window ids (position + 1) n

-- The pending IDs, oldest first.
unfoldable pub contents : JobQueue → List ℕ
contents q = window q.ids q.head q.count

pub record IsReady (q : JobQueue) : Type 0 where
  pub head_in : q.head < capacity
  pub count_in : q.count ≤ capacity

unfoldable pub member : ℕ → List ℕ → Bool
member id [] = false
member id (x ∷ xs) = x == id || member id xs

-- What the header promises of `push`, `peek` and `pop`, over the list of pending IDs.
unfoldable pub push_spec : List ℕ → Job → Result QueueError (List ℕ)
push_spec pending job = do
  reject (job.id == 0) invalid_argument
  reject (not (is_queued job.state) || not (job.worker_id == 0)) invalid_state
  reject (member job.id pending) duplicate
  reject (length pending == capacity) full
  ok (pending ++ job.id ∷ [])

unfoldable pub pop_spec : List ℕ → Result QueueError (ℕ × List ℕ)
pop_spec [] = err empty
pop_spec (id ∷ rest) = ok (id, rest)

unfoldable pub peek_spec : List ℕ → Result QueueError ℕ
peek_spec [] = err empty
peek_spec (id ∷ rest) = ok id

length-window : (ids : ℕ → ℕ) (s n : ℕ) → length (window ids s n) ≡ n
length-window ids s zero = refl
length-window ids s (suc n) = ap suc (length-window ids (s + 1) n)

-- A write outside the window does not show in it.
window-update :
    (ids : ℕ → ℕ) (k v t s n : ℕ)
    → k ≡ t % capacity
    → s + n ≤ t
    → t < s + capacity
    → window (update ids k v) s n ≡ window ids s n
window-update ids k v t s zero e lo hi = refl
window-update ids k v t s (suc n) e lo hi = ground (arith, window-update ids k v t (s + 1) n e)

window-mod :
    (ids : ℕ → ℕ) (s t n : ℕ) → s % capacity ≡ t % capacity → window ids s n ≡ window ids t n
window-mod ids s t zero e = refl
window-mod ids s t (suc n) e = cc (e, window-mod ids (s + 1) (t + 1) n (omega arith))

window_snoc :
    (ids : ℕ → ℕ) (s n : ℕ) → window ids s (suc n) ≡ window ids s n ++ ids ((s + n) % capacity) ∷ []
window_snoc ids s zero = rw add-zero
window_snoc ids s (suc n) =
    let e : s + 1 + n ≡ s + suc n = omega arith in cc (e, window_snoc ids (s + 1) n)

holds-member : (ids : ℕ → ℕ) (s n id : ℕ) → holds ids s n id ≡ member id (window ids s n)
unfolding holds member
holds-member ids s zero id = refl
holds-member ids s (suc n) id = ground (arith, holds-member ids (s + 1) n id)

abbrev pub map_result : {A B : Type 0} → (A → B) → Result QueueError A → Result QueueError B
map_result f (ok a) = ok (f a)
map_result f (err e) = err e

contents-push :
    (q : JobQueue) (id : ℕ)
    → q.count < capacity
    → contents
        (record q { ids = update q.ids ((q.head + q.count) % capacity) id; count = q.count + 1 })
      ≡ contents q ++ id ∷ []
unfolding contents
contents-push q id h =
    let ids' = update q.ids ((q.head + q.count) % capacity) id in
    let e : q.count + 1 ≡ suc q.count = omega arith in
    ground (
      arith,
      e,
      window_snoc ids' q.head q.count,
      window-update q.ids ((q.head + q.count) % capacity) id (q.head + q.count) q.head q.count refl,
    )

-- `push` answers and changes the pending list as the specification says, for every job.
pub push_refines :
    (q : JobQueue) (job : Job)
    → IsReady q
    → map_result contents (push q job) ≡ push_spec (contents q) job
unfolding push push_spec contents
push_refines q job r = ground (
  arith,
  contents-push q job.id,
  holds-member q.ids q.head q.count job.id,
  length-window q.ids q.head q.count,
)

pub push-IsReady : (q q' : JobQueue) (job : Job) → push q job ≡ ok q' → IsReady q → IsReady q'
unfolding push
push-IsReady q q' job h r = ground arith

slot_of_head : (ids : ℕ → ℕ) (h : ℕ) → h < capacity → ids (h % capacity) ≡ ids h
slot_of_head ids h b = ap ids (omega arith)

peek_ring :
    (ids : ℕ → ℕ) (h n : ℕ)
    → h < capacity
    → peek (record { ids = ids; head = h; count = n }) ≡ peek_spec (window ids h n)
unfolding peek peek_spec
peek_ring ids h zero b = refl
peek_ring ids h (suc n) b = ground (arith, slot_of_head ids h b)

-- `peek` answers with the oldest pending ID, and with `empty` when there is none.
pub peek_refines : (q : JobQueue) → IsReady q → peek q ≡ peek_spec (contents q)
unfolding contents
peek_refines q r = peek_ring q.ids q.head q.count r.head_in

abbrev pub seen : ℕ × JobQueue → ℕ × List ℕ
seen (id, q) = (id, contents q)

pop_tail :
    (ids : ℕ → ℕ) (h n : ℕ)
    → h < capacity
    → suc n ≤ capacity
    → window (update ids h 0) ((h + 1) % capacity) n ≡ window ids (h + 1) n
pop_tail ids h n b c =
    window-mod (update ids h 0) ((h + 1) % capacity) (h + 1) n (omega arith)
    ∙ window-update ids h 0 (h + capacity) (h + 1) n (omega arith) (omega arith) (omega arith)

pop_ring :
    (ids : ℕ → ℕ) (h n : ℕ)
    → h < capacity
    → n ≤ capacity
    → map_result seen (pop (record { ids = ids; head = h; count = n })) ≡ pop_spec (window ids h n)
unfolding pop pop_spec contents
pop_ring ids h zero b c = refl
pop_ring ids h (suc n) b c =
    let e : suc n - 1 ≡ n = omega arith in
    ground (arith, e, slot_of_head ids h b, pop_tail ids h n b c)

-- `pop` answers with the oldest pending ID and leaves the others in their order.
pub pop_refines : (q : JobQueue) → IsReady q → map_result seen (pop q) ≡ pop_spec (contents q)
unfolding contents
pop_refines q r = pop_ring q.ids q.head q.count r.head_in r.count_in

pub pop-IsReady : (q q' : JobQueue) (id : ℕ) → pop q ≡ ok (id, q') → IsReady q → IsReady q'
unfolding pop
pop-IsReady q q' id h r = ground arith

pub init-IsReady : IsReady init
unfolding init
init-IsReady = record { head_in = omega arith; count_in = omega arith }

pub contents-init : contents init ≡ []
unfolding contents init
contents-init = refl
