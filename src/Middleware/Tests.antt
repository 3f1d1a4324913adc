-- ===== src/Middleware/Tests.antt =====
-- Concrete runs of the scan detector.
use teldrive_fork.Base.{
  ◌+◌, ◌≡◌, refl, List, [], ◌∷◌, ◌++◌, true, false, Text, text_key, empty_map, map_set, arith,
}
use teldrive_fork.Middleware.{
  Config, Request, record_request, get_client_key, forwarded_ip, before_comma, trim_space, cleanup,
  is_actual_streaming, bytes_prefix,
}
use teldrive_fork.Retry.{has_prefix}
use teldrive_fork.Tgc.AuthRecovery.{split}
use teldrive_fork.Middleware.Tracker.{
  Event, request, tick, run, times, Ordered, last_second, record_request-rate,
}

-- A request through a proxy; the client's key is "1|a".
abbrev probe : Request
probe = record {
  remote_addr = b'9' ∷ [];
  forwarded_for = b' ' ∷ b'1' ∷ b',' ∷ b'2' ∷ [];
  real_ip = [];
  user_agent = b'a' ∷ [];
  path = b'/' ∷ b'a' ∷ b'.' ∷ b'T' ∷ b's' ∷ [];
  range = b'b' ∷ b'y' ∷ b't' ∷ b'e' ∷ b's' ∷ b'=' ∷ b'0' ∷ b'-' ∷ b'9' ∷ [];
}

abbrev probe_key : Text
probe_key = b'1' ∷ b'|' ∷ b'a' ∷ []

key_run : get_client_key probe ≡ probe_key
unfolding get_client_key forwarded_ip before_comma trim_space
key_run = refl

-- Two requests within the last second, one before it, and one of another client.
abbrev history : List Event
history =
    request 100 probe_key
    ∷ tick 200
    ∷ request 500000200 probe_key
    ∷ request 500000300 (b'2' ∷ [])
    ∷ request 600000000 probe_key
    ∷ []

history-Ordered : Ordered 0 history 1000000300
unfolding Ordered
history-Ordered =
    (omega arith, (omega arith, (omega arith, (omega arith, (omega arith, omega arith)))))

rate_run : (record_request 1000000300 probe_key (run history empty_map)).0 ≡ 3
unfolding record_request run map_set cleanup
rate_run = refl

record_request-rate_example :
    (record_request 1000000300 probe_key (run history empty_map)).0
    ≡ last_second 1000000300 (times probe_key history) + 1
record_request-rate_example = record_request-rate history 1000000300 probe_key history-Ordered

abbrev strict : Config
strict = record { enabled = true; throttle_delay_ms = 200; scan_threshold_per_sec = 2 }

abbrev asks : Text → Request
asks spec = record probe { range = bytes_prefix ++ spec }

-- Ten bytes are not significant; an open range and 32 KiB and one byte are. A range as long as an
-- int64 can count is not, since its length wraps round.
ranges :
    (is_actual_streaming (asks (b'0' ∷ b'-' ∷ b'9' ∷ [])) ≡ false)
    × (is_actual_streaming (asks (b'0' ∷ b'-' ∷ [])) ≡ true)
    × (is_actual_streaming (asks (b'0' ∷ b'-' ∷ b'3' ∷ b'2' ∷ b'7' ∷ b'6' ∷ b'7' ∷ [])) ≡ false)
    × (is_actual_streaming (asks (b'0' ∷ b'-' ∷ b'3' ∷ b'2' ∷ b'7' ∷ b'6' ∷ b'8' ∷ [])) ≡ true)
    × (is_actual_streaming (
          asks (
            b'0' ∷ b'-' ∷ b'9' ∷ b'2' ∷ b'2' ∷ b'3' ∷ b'3' ∷ b'7' ∷ b'2' ∷ b'0' ∷ b'3' ∷ b'6' ∷ b'8'
            ∷ b'5' ∷ b'4' ∷ b'7' ∷ b'7' ∷ b'5' ∷ b'8' ∷ b'0' ∷ b'7' ∷ []))
        ≡ false)
unfolding is_actual_streaming split has_prefix
ranges = (refl, refl, refl, refl, refl)
