-- ===== src/Retry/Tests.antt =====
-- Concrete runs of the retry middleware.
use teldrive_fork.Base.{
  ℕ, ◌*◌, ◌≤◌, ◌≡◌, refl, [], ◌∷◌, none, some, true, leb, if◌then◌else◌, arith,
}
use teldrive_fork.Base.Int.{pos, negsuc}
use teldrive_fork.Retry.{
  Error, upload_get_file, Environment, success, limit_reached, is_read_timeout, timeout_message,
  handle, new, retryable, three_seconds, delay, to_int64,
}
use teldrive_fork.Retry.Bounds.{Capped, Ends, handle-Ends, read_timeout-calls-le, delay_bounds}

abbrev timeout : Error
timeout = record {
  text = timeout_message;
  rpc = some (record { code = negsuc 502; message = timeout_message; kind = timeout_message });
}

abbrev internal : Error
internal = record { text = b'T' ∷ b'i' ∷ b'm' ∷ b'e' ∷ b'd' ∷ b'o' ∷ b'u' ∷ b't' ∷ []; rpc = none }

abbrev failing : Environment
failing = record { context_error = λ i. none; invoke = λ i. some timeout; canceled = λ i. none }

-- The third attempt succeeds.
abbrev recovering : Environment
recovering = record {
  context_error = λ i. none;
  invoke = λ i. if leb 2 i then none else some timeout;
  canceled = λ i. none;
}

failing_run : handle (new 5 []) failing upload_get_file ≡ (limit_reached 3 (some timeout), 3)
unfolding handle new retryable
failing_run = refl

recovering_run : handle (new 5 []) recovering upload_get_file ≡ (success, 3)
unfolding handle new retryable
recovering_run = refl

timed_out : is_read_timeout upload_get_file timeout ≡ true
unfolding is_read_timeout
timed_out = refl

handle-Ends_example :
    Ends (new 5 []) recovering upload_get_file 0 5 (handle (new 5 []) recovering upload_get_file)
unfolding new
handle-Ends_example = handle-Ends (new 5 []) recovering upload_get_file

-- Two errors that are retried, then a read that times out.
abbrev late_timeout : Environment
late_timeout = record {
  context_error = λ i. none;
  invoke = λ i. if leb 2 i then some timeout else some internal;
  canceled = λ i. none;
}

read_timeout-calls-le_example :
    Capped
      (new 9 [])
      late_timeout
      upload_get_file
      3
      (handle (new 9 []) late_timeout upload_get_file).1
    × Ends
        (new 9 [])
        late_timeout
        upload_get_file
        0
        9
        (handle (new 9 []) late_timeout upload_get_file)
unfolding new
read_timeout-calls-le_example =
    read_timeout-calls-le (new 9 []) late_timeout upload_get_file 3 timeout refl timed_out

delay_run : delay 4 ≡ pos (1600 * 1000000)
unfolding delay to_int64
delay_run = refl

delay_bounds_example : (d : ℕ) × (delay 4 ≡ pos d) × (200 * 1000000 ≤ d) × (d ≤ three_seconds)
delay_bounds_example = delay_bounds 4 (omega arith) (omega arith)
