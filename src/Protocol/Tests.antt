-- ===== src/Protocol/Tests.antt =====
-- Runs of the codec of messages, and the theorems at concrete inputs.
use flatline_c.Prelude.{ℕ, ◌^◌, ◌<◌, ◌≡◌, refl, List, [], ◌∷◌, ◌++◌, length, arith}
use flatline_c.Prelude.Result.{Result, ok, err}
use flatline_c.Protocol.Message.{Message, JobSummary, jobs_response}
use flatline_c.Protocol.Frame.{
  Header, ProtocolError, message_payload_bounds, validate_header, invalid_list_order,
}
use flatline_c.Protocol.Validate.{
  validate_message, validate_payload, validate_jobs, validate_job_entries, validate_job_status,
}
use flatline_c.Protocol.Codec.Parts.{SummaryFits}
use flatline_c.Protocol.Codec.{header_encode, header_decode, message_encode, message_decode}
use flatline_c.Protocol.Codec.HeaderTrip.{header_decode-header_encode}
use flatline_c.Protocol.Codec.RoundTrip.{message_decode-message_encode}

abbrev bytes_of : Result ProtocolError (List ℕ) → List ℕ
bytes_of (ok bytes) = bytes
bytes_of (err e) = []

abbrev listed : ℕ → JobSummary
listed id = record {
  job_id = id;
  task_type = 3;
  state = 4;
  worker_id = 2;
  attempt = 1;
  retry_count = 0;
  max_retries = 5;
  failure = 0;
  result_size = 8;
}

-- Two finished jobs.
abbrev listing : Message
listing = jobs_response (listed 7 ∷ listed 9 ∷ [])

listing_encoded : message_encode 92 listing ≡ ok (bytes_of (message_encode 92 listing))
unfolding message_encode header_encode message_payload_bounds validate_header validate_message
    validate_payload validate_jobs validate_job_entries validate_job_status
listing_encoded = refl

message_decode-message_encode_example :
    message_decode (bytes_of (message_encode 92 listing) ++ 70 ∷ [])
    ≡ ok (listing, length (bytes_of (message_encode 92 listing)))
message_decode-message_encode_example =
    message_decode-message_encode 92 listing (bytes_of (message_encode 92 listing)) (70 ∷ [])
      listing_encoded (summary 7 (omega arith), (summary 9 (omega arith), tt))
  where
    summary : (id : ℕ) → id < 2 ^ 64 → SummaryFits (listed id)
    summary id h = record {
      job_id = h;
      task_type = omega arith;
      state = omega arith;
      worker_id = omega arith;
      attempt = omega arith;
      retry_count = omega arith;
      max_retries = omega arith;
      failure = omega arith;
      result_size = omega arith;
    }

-- A listing that is out of order is refused.
unordered : message_encode 92 (jobs_response (listed 9 ∷ listed 7 ∷ [])) ≡ err invalid_list_order
unfolding message_encode message_payload_bounds validate_message validate_payload validate_jobs
    validate_job_entries validate_job_status
unordered = refl

abbrev heartbeat_header : Header
heartbeat_header = record { magic = 1179404622; version = 1; message_type = 5; payload_length = 4 }

header_encoded :
    header_encode 12 heartbeat_header ≡ ok (bytes_of (header_encode 12 heartbeat_header))
unfolding header_encode validate_header message_payload_bounds
header_encoded = refl

header_decode-header_encode_example :
    header_decode (bytes_of (header_encode 12 heartbeat_header) ++ 0 ∷ []) ≡ ok heartbeat_header
header_decode-header_encode_example =
    header_decode-header_encode 12 heartbeat_header (bytes_of (header_encode 12 heartbeat_header))
      (0 ∷ []) header_encoded
      (record {
        magic = omega arith;
        version = omega arith;
        message_type = omega arith;
        payload_length = omega arith;
      })
