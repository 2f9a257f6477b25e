-- ===== src/Scheduler/Invariant/Messages.antt =====
-- The messages that the store produces can be sent.
use flatline_c.Prelude.{ℕ, ◌+◌, ◌≤◌, ◌<◌, ◌≡◌, refl, false, List, ◌++◌, ltb, length, All-get, arith}
use flatline_c.Prelude.Int.{ℤ}
use flatline_c.Prelude.Result.{ok}
use flatline_c.Job.{Job, assigned}
use flatline_c.Job.Invariant
use flatline_c.Job.Invariant.{job_assign-IsValid}
use flatline_c.Protocol.Message.{Message}
use flatline_c.Protocol.Frame.{message_payload_bounds, validate_header}
use flatline_c.Protocol.Validate.{validate_identity, validate_payload, validate_message}
use flatline_c.Protocol.Codec.{
  message_encode, header_encode, header_bytes, header_for, write_payload,
}
use flatline_c.Scheduler.{Scheduler, find_slot, assignment, assign}
use flatline_c.Scheduler.Invariant.{IsValid}
use flatline_c.Scheduler.Invariant.Assign.{assign_effect, job_assign_fields}

assignment_validated :
    (k : Job) (w : ℕ)
    → Invariant.IsValid k
    → k.state ≡ assigned
    → 0 < w
    → validate_message (assignment k w) (length k.arguments) ≡ ok (26 + length k.arguments)
unfolding validate_message validate_payload validate_identity message_payload_bounds
assignment_validated k w v e positive = ground (arith, v.shape)

assignment_header :
    (k : Job) (w size : ℕ)
    → size ≤ 1050
    → validate_header (header_for (assignment k w) size) ≡ ok tt
unfolding validate_header message_payload_bounds
assignment_header k w size h = ground arith

-- An assignment that a valid store makes is encoded, into a buffer of at least 1062 bytes: no job
-- that the store has given away stays unsent because its message is malformed.
pub assign_sendable :
    (s : Scheduler) (w : ℕ) (t : ℤ) (m : Message) (q : Scheduler) (n : ℕ)
    → assign s w t ≡ ok (m, q)
    → IsValid s
    → 1062 ≤ n
    → (bytes : List ℕ) × (message_encode n m ≡ ok bytes)
unfolding message_encode header_encode
assign_sendable s w t m q n h v room =
    let (id, removed, j, k, pending, idle, positive, peeked, there, made, popped, message, result) =
      assign_effect s w t h in
    let valid =
      job_assign-IsValid j w t made
        (All-get Invariant.IsValid s.jobs (find_slot s.jobs id) there v.records) in
    let (_, _, taken, _, _, _, _) = job_assign_fields j w t made in
    let accepted = assignment_validated k w valid taken positive in
    let header =
      assignment_header k w (26 + length k.arguments) (omega (arith, valid.arguments_fit)) in
    let fits : ltb n (12 + (26 + length k.arguments)) ≡ false =
      ground (arith, valid.arguments_fit) in
    let long : ltb n 12 ≡ false = ground arith in
    (
      header_bytes (header_for (assignment k w) (26 + length k.arguments))
          ++ write_payload (assignment k w),
      rw (message, accepted, fits, long, header) refl,
    )
