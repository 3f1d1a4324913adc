-- ===== src/Middleware.antt =====
-- internal/middleware/scan_detector.go: the HTTP middleware that slows down a client which scans the
-- library. A request is one step at a time `now`; the time that its delay takes is not spent in the
-- model.
pub mod Streaming
pub mod Tracker
mod Tests
use teldrive_fork.Base.{
  ℕ, zero, suc, ◌+◌, ◌-◌, ◌*◌, ◌^◌, leb, ltb, ◌==◌, if◌then◌else◌, List, [], ◌∷◌, ◌++◌, take, drop,
  length, Option, none, some, Bool, true, false, not, ◌&&◌, ◌||◌, Text, text_key, Map, map_set,
  or_else,
}
use teldrive_fork.Retry.{has_prefix}
use teldrive_fork.Tgc.AuthRecovery.{split}
use teldrive_fork.HttpRange.{in_int64}
use teldrive_fork.Services.Failure.{to_lower}

pub record Config : Type 0 where
  pub enabled : Bool
  pub throttle_delay_ms : ℕ
  pub scan_threshold_per_sec : ℕ

-- `DefaultScanDetectorConfig`
abbrev pub default_config : Config
default_config = record { enabled = true; throttle_delay_ms = 200; scan_threshold_per_sec = 10 }

-- `clientStats`
pub record ClientStats : Type 0 where
  pub requests : List ℕ
  pub last_access : ℕ

-- `requestTracker`: its clients.
abbrev pub Tracker : Type 0
Tracker = Map Text ClientStats

abbrev pub second : ℕ
second = 1000000000

-- The requests after `cutoff := now.Add(-time.Second)`; on ℕ the subtraction goes to the other side.
unfoldable pub recent : ℕ → List ℕ → List ℕ
recent now [] = []
recent now (t ∷ ts) = let rest = recent now ts in if ltb now (t + second) then t ∷ rest else rest

-- `recordRequest`: the rate, which is a count, and the tracker.
unfoldable pub record_request : ℕ → Text → Tracker → ℕ × Tracker
unfolding recent map_set
record_request now key rt =
    let stats = or_else (rt key) (record { requests = []; last_access = now }) in
    let valid = recent now (stats.requests ++ (now ∷ [])) in
    (length valid, map_set key (record { requests = valid; last_access = now }) rt)

-- `isScanning`
abbrev pub over : ℕ → ℕ × Tracker → Bool × Tracker
over threshold (rate, rt) = (ltb threshold rate, rt)

unfoldable pub is_scanning : ℕ → Text → ℕ → Tracker → Bool × Tracker
unfolding record_request
is_scanning now key threshold rt = over threshold (record_request now key rt)

abbrev pub cleanup_ttl : ℕ
cleanup_ttl = 300 * second

-- A tick of `cleanup`.
unfoldable pub cleanup : ℕ → Tracker → Tracker
cleanup now rt key = elim (rt key) [
  | none ↦ none
  | some stats ↦ if ltb (stats.last_access + cleanup_ttl) now then none else some stats
]

-- What the middleware looks at in a request: an absent header is the empty text.
pub record Request : Type 0 where
  pub remote_addr : Text
  pub forwarded_for : Text
  pub real_ip : Text
  pub user_agent : Text
  pub path : Text
  pub range : Text

-- strings.TrimSpace, for ASCII.
abbrev pub is_space : ℕ → Bool
is_space c = c == 32 || (leb 9 c && leb c 13)

unfoldable pub trim_left : Text → Text
trim_left [] = []
trim_left (c ∷ s) = if is_space c then trim_left s else c ∷ s

abbrev pub keep_char : ℕ → Text → Text
keep_char c [] = if is_space c then [] else c ∷ []
keep_char c (d ∷ s) = c ∷ (d ∷ s)

unfoldable pub trim_right : Text → Text
trim_right [] = []
trim_right (c ∷ s) = keep_char c (trim_right s)

unfoldable pub trim_space : Text → Text
unfolding trim_left trim_right
trim_space s = trim_right (trim_left s)

-- The text in front of the first comma, and whether there is one.
unfoldable pub before_comma : Text → Option Text
before_comma [] = none
before_comma (c ∷ s) =
    if c == b',' then some [] else elim (before_comma s) [ none ↦ none | some t ↦ some (c ∷ t) ]

-- The first address of X-Forwarded-For; a comma in the first place does not count.
unfoldable pub forwarded_ip : Text → Text
unfolding before_comma trim_space
forwarded_ip forwarded = elim (before_comma forwarded) [
  | none ↦ trim_space forwarded
  | some first ↦ if ltb 0 (length first) then trim_space first else trim_space forwarded
]

abbrev pub or_text : Text → Text → Text
or_text [] d = d
or_text (c ∷ s) d = c ∷ s

-- `getClientKey`
unfoldable pub get_client_key : Request → Text
unfolding forwarded_ip
get_client_key r =
    let ip0 = if length r.forwarded_for == 0 then r.remote_addr else forwarded_ip r.forwarded_for in
    let ip = or_text r.real_ip ip0 in
    let agent = if ltb 100 (length r.user_agent) then take 100 r.user_agent else r.user_agent in
    if length r.user_agent == 0 then ip else ip ++ (b'|' ∷ agent)

unfoldable pub has_char : ℕ → Text → Bool
has_char c [] = false
has_char c (d ∷ s) = d == c || has_char c s

-- filepath.Ext: from the last dot of the last element on.
unfoldable pub ext : Text → Text
unfolding has_char
ext [] = []
ext (c ∷ s) = or_text (ext s) (if c == b'.' && not (has_char b'/' s) then c ∷ s else [])

abbrev pub video_extensions : List Text
video_extensions =
    (b'.' ∷ b'm' ∷ b'k' ∷ b'v' ∷ [])
    ∷ (b'.' ∷ b'm' ∷ b'p' ∷ b'4' ∷ [])
    ∷ (b'.' ∷ b'a' ∷ b'v' ∷ b'i' ∷ [])
    ∷ (b'.' ∷ b'm' ∷ b'4' ∷ b'v' ∷ [])
    ∷ (b'.' ∷ b'm' ∷ b'o' ∷ b'v' ∷ [])
    ∷ (b'.' ∷ b'w' ∷ b'm' ∷ b'v' ∷ [])
    ∷ (b'.' ∷ b'f' ∷ b'l' ∷ b'v' ∷ [])
    ∷ (b'.' ∷ b'w' ∷ b'e' ∷ b'b' ∷ b'm' ∷ [])
    ∷ (b'.' ∷ b't' ∷ b's' ∷ [])
    ∷ (b'.' ∷ b'm' ∷ b'2' ∷ b't' ∷ b's' ∷ [])
    ∷ (b'.' ∷ b'm' ∷ b'p' ∷ b'g' ∷ [])
    ∷ (b'.' ∷ b'm' ∷ b'p' ∷ b'e' ∷ b'g' ∷ [])
    ∷ (b'.' ∷ b'v' ∷ b'o' ∷ b'b' ∷ [])
    ∷ (b'.' ∷ b'3' ∷ b'g' ∷ b'p' ∷ [])
    ∷ (b'.' ∷ b'o' ∷ b'g' ∷ b'v' ∷ [])
    ∷ []

unfoldable pub is_one_of : List Text → Text → Bool
is_one_of [] t = false
is_one_of (s ∷ ss) t = text_key.same s t || is_one_of ss t

-- `isVideoRequest`
unfoldable pub is_video_request : Text → Bool
unfolding is_one_of
is_video_request ext = is_one_of video_extensions ext

-- fmt.Sscanf(s, "%d", &n) into an int64, for a text without "-": what follows the digits is ignored.
unfoldable pub leading : ℕ → Text → ℕ
leading n [] = n
leading n (c ∷ s) =
    let rest = leading (n * 10 + (c - b'0')) s in if leb b'0' c && leb c b'9' then rest else n

abbrev pub scan_digits : Text → Option ℕ
scan_digits [] = none
scan_digits (c ∷ s) =
    if leb b'0' c && leb c b'9' then in_int64 (some (leading (c - b'0') s)) else none

abbrev pub scan_signed : Text → Option ℕ
scan_signed [] = none
scan_signed (c ∷ s) = if c == b'+' then scan_digits s else scan_digits (c ∷ s)

unfoldable pub scan_int : Text → Option ℕ
unfolding leading trim_left
scan_int s = scan_signed (trim_left s)

-- end - start + 1 > 32 * 1024; from 2^63 on the int64 is negative.
abbrev pub is_large : Option ℕ → Option ℕ → Bool
is_large (some start) (some end) =
    ltb (start + 32 * 1024) (end + 1) && ltb (end + 1) (start + 2 ^ 63)
is_large _ _ = false

abbrev pub significant_parts : List Text → Bool
significant_parts (start ∷ (end ∷ [])) =
    if length end == 0 then true else is_large (scan_int start) (scan_int end)
significant_parts _ = false

-- "bytes="
abbrev pub bytes_prefix : Text
bytes_prefix = b'b' ∷ b'y' ∷ b't' ∷ b'e' ∷ b's' ∷ b'=' ∷ []

-- `isSignificantRange`
unfoldable pub is_significant_range : Text → Bool
unfolding scan_int split has_prefix
is_significant_range header =
    if has_prefix header bytes_prefix
    then significant_parts (split b'-' (drop (length bytes_prefix) header))
    else false

-- `isActualStreaming`
unfoldable pub is_actual_streaming : Request → Bool
unfolding is_video_request is_significant_range ext to_lower
is_actual_streaming r =
    is_video_request (to_lower (ext r.path))
    && (not (length r.range == 0) && is_significant_range r.range)

-- What the middleware does before it calls the next handler: the delay in milliseconds, with the
-- tracker. `random` is rand.Intn(300).
abbrev pub throttle : Config → ℕ → Bool → Bool × Tracker → ℕ × Tracker
throttle config random streaming (scanning, rt) =
    (if streaming then 0 else if scanning then config.throttle_delay_ms + random else 0, rt)

-- The handler of `ScanDetector`.
unfoldable pub scan_detector : Config → ℕ → ℕ → Request → Tracker → ℕ × Tracker
unfolding get_client_key is_scanning is_actual_streaming
scan_detector config now random r rt =
    if config.enabled
    then throttle config random (is_actual_streaming r)
        (is_scanning now (get_client_key r) config.scan_threshold_per_sec rt)
    else (0, rt)
