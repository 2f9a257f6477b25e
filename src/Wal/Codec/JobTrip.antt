-- ===== src/Wal/Codec/JobTrip.antt =====
-- A valid snapshot of a job is decoded from the bytes that encode it.
use flatline_c.Prelude.{
  AllTrue, every-AllTrue, ℕ, ◌+◌, ◌^◌, ◌≤◌, ◌<◌, ◌≡◌, refl, true, false, not, ◌||◌, List, ◌++◌, ltb,
  leb, ◌==◌, length, arith, take-append2, take-drop-append2,
}
use flatline_c.Prelude.Int.{ℤ, pos_part, neg_part, is_neg, lez}
use flatline_c.Prelude.Result.{ok}
use flatline_c.Bytes.{get_u32}
use flatline_c.Job.{Job, JobState, JobFailure, max_argument_size, max_result_size}
use flatline_c.Wal.Format.{
  job_prefix_size, JobRecord, job_created, job_requeued, job_assigned, job_started, job_completed,
  job_failed, job_record_of, job_record_code, state_code, state_of, failure_code, failure_of,
  valid_job, conditions, is_unset,
}
use flatline_c.Wal.Codec.{encode_job, decode_job, decode_time, u64_of_time}
use flatline_c.Wal.Codec.Fields.{Fits, JobFields, job_fields}

-- The times that a valid job may hold: unset, or a positive int64_t.
abbrev IsTime : ℤ → Type 0
IsTime t = (pos_part t < 2 ^ 63) × (neg_part t ≤ 1)

decode-u64_of_time : (t : ℤ) → IsTime t → decode_time (u64_of_time t) ≡ ok t
unfolding decode_time
decode-u64_of_time t h = ground arith

state_of-state_code : (s : JobState) → state_of (state_code s) ≡ ok s
unfolding state_of
state_of-state_code s = ground arith

failure_of-failure_code : (f : JobFailure) → failure_of (failure_code f) ≡ ok f
unfolding failure_of
failure_of-failure_code f = ground arith

pub job_record_of-job_record_code : (k : JobRecord) → job_record_of (job_record_code k) ≡ ok k
unfolding job_record_of
job_record_of-job_record_code k = ground arith

-- A time that another, not negative one precedes.
later-IsTime :
    (a b : ℤ)
    → not (is_neg a) ≡ true
    → lez a b ≡ true
    → pos_part b < 2 ^ 63
    → IsTime b × (not (is_neg b) ≡ true)
later-IsTime a b h l w = ground arith

later_or_unset-IsTime :
    (a b : ℤ)
    → not (is_neg a) ≡ true
    → (is_unset b || lez a b) ≡ true
    → pos_part b < 2 ^ 63
    → IsTime b
later_or_unset-IsTime a b h l w = ground arith

-- A valid job holds no negative time but the unset one, and sizes within their bounds.
pub record Sound (j : Job) : Type 0 where
  created : IsTime j.created_at_ms
  updated : IsTime j.updated_at_ms
  assigned : IsTime j.assigned_at_ms
  started : IsTime j.started_at_ms
  finished : IsTime j.finished_at_ms
  pub arguments : length j.arguments ≤ max_argument_size
  pub output : length j.output ≤ max_result_size

conditions-Sound : (k : JobRecord) (j : Job) → AllTrue (conditions k j) → Fits j → Sound j
conditions-Sound job_created j t f = ground arith
conditions-Sound job_requeued j t f = ground arith
conditions-Sound job_assigned j t f = ground arith
conditions-Sound job_started j t f = ground arith
conditions-Sound job_completed j t f = ground arith
conditions-Sound job_failed j t f =
    let (
      _,
      (
        _,
        (
          _,
          (
            small,
            (
              short,
              (
                _,
                (start, (later, (_, (_, (taken, (_, (_, (_, (_, (_, (begun, (ended, _)))))))))))),
              ),
            ),
          ),
        ),
      ),
    ) =
      t in
    let (assigned_time, not_neg) =
      later-IsTime j.created_at_ms j.assigned_at_ms start taken f.assigned_at_ms in
    record {
      created = (f.created_at_ms, bound j.created_at_ms start);
      updated = (later-IsTime j.created_at_ms j.updated_at_ms start later f.updated_at_ms).0;
      assigned = assigned_time;
      started =
          later_or_unset-IsTime j.assigned_at_ms j.started_at_ms not_neg begun f.started_at_ms;
      finished = (later-IsTime j.assigned_at_ms j.finished_at_ms not_neg ended f.finished_at_ms).0;
      arguments = size_le (length j.arguments) max_argument_size small;
      output = size_le (length j.output) max_result_size short;
    }
  where
    bound : (t : ℤ) → not (is_neg t) ≡ true → neg_part t ≤ 1
    bound t h = ground arith

    size_le : (n m : ℕ) → leb n m ≡ true → n ≤ m
    size_le n m h = ground arith

pub valid_job-Sound : (k : JobRecord) (j : Job) → valid_job k j ≡ true → Fits j → Sound j
unfolding valid_job
valid_job-Sound k j h f = conditions-Sound k j (every-AllTrue (conditions k j) h) f

module _ (k : JobRecord) (j : Job) (rest : List ℕ) where
  sizes_accepted :
      JobFields (encode_job j ++ rest) rest j
      → Sound j
      → (ltb max_argument_size (get_u32 (encode_job j ++ rest) 76)
          || ltb max_result_size (get_u32 (encode_job j ++ rest) 80)
          || not (
              84 + (length j.arguments + length j.output)
              == job_prefix_size
                + get_u32 (encode_job j ++ rest) 76
                + get_u32 (encode_job j ++ rest) 80))
        ≡ false
  sizes_accepted f s = rw (f.argument_size, f.result_size) (ground (arith, s.arguments, s.output))

  pub decode_job-encode_job :
      valid_job k j ≡ true
      → Fits j
      → decode_job (encode_job j ++ rest) (84 + (length j.arguments + length j.output)) k ≡ ok j
  unfolding decode_job
  decode_job-encode_job valid fits =
      let s = valid_job-Sound k j valid fits in
      let f = job_fields j rest fits (omega (arith, s.arguments)) (omega (arith, s.output)) in
      rw (sizes_accepted f s) (
        rw
          (
            f.reserved,
            f.state,
            f.failure,
            f.created_at_ms,
            f.updated_at_ms,
            f.assigned_at_ms,
            f.started_at_ms,
            f.finished_at_ms,
            state_of-state_code j.state,
            failure_of-failure_code j.failure,
            decode-u64_of_time j.created_at_ms s.created,
            decode-u64_of_time j.updated_at_ms s.updated,
            decode-u64_of_time j.assigned_at_ms s.assigned,
            decode-u64_of_time j.started_at_ms s.started,
            decode-u64_of_time j.finished_at_ms s.finished,
            f.id,
            f.task_type,
            f.worker_id,
            f.attempt,
            f.retry_count,
            f.max_retries,
            f.argument_size,
            f.result_size,
            f.tail,
            take-append2 j.arguments j.output rest,
            take-drop-append2 j.arguments j.output rest,
            valid,
          )
          refl)
