-- ===== src/Tgc/AuthRecovery.antt =====
-- internal/tgc/auth_recovery.go: the middleware that drops a session whose key Telegram refuses, and
-- the package's lists of blocked datacenters and bots. A method holds its mutex for its whole body
-- and is one step; the time is an argument.
pub mod Cooldown
pub mod Blocks
use teldrive_fork.Base.{
  ℕ, zero, suc, ◌+◌, ◌*◌, leb, ltb, ◌==◌, not, if◌then◌else◌, List, [], ◌∷◌, length, get_elem?,
  Option, none, some, Bool, true, false, ◌||◌, ◌&&◌, Text, Map, map_set, map_delete, or_else,
  text_key, nat_key,
}

-- strings.Split by a single byte.
abbrev pub push_char : ℕ → List Text → List Text
push_char c [] = (c ∷ []) ∷ []
push_char c (w ∷ ws) = (c ∷ w) ∷ ws

unfoldable pub split : ℕ → Text → List Text
split sep [] = [] ∷ []
split sep (c ∷ s) = if c == sep then [] ∷ split sep s else push_char c (split sep s)

-- An error of the invoker: of the Telegram API, which tgerr.Is recognises, or another one.
pub data Error : Type 0 where
  auth_key_unregistered : Error
  other : ℕ → Error
  cooldown : Error
  invalidated : Error → Error

-- The requests that `isAuthRequest` names, and all others.
pub data Request : Type 0 where
  auth_import_bot_authorization auth_export_authorization auth_import_authorization : Request
  auth_bind_temp_auth_key auth_check_password auth_recover_password : Request
  auth_request_password_recovery auth_send_code auth_sign_in auth_sign_up auth_log_out : Request
  api : ℕ → Request

unfoldable pub is_auth_request : Request → Bool
is_auth_request (api n) = false
is_auth_request _ = true

-- `sessions` holds the keys of the table teldrive.kv and of the cache that the middleware may
-- delete. `db` and `cache` are absent where the field is nil.
pub record Store : Type 0 where
  pub cache : Option (Map Text Text)
  pub db : Option (Map Text Text)

pub record AuthRecovery : Type 0 where
  pub session_key : Text
  pub blocked_until : ℕ

abbrev pub delete_in : Text → Option (Map Text Text) → Option (Map Text Text)
delete_in key none = none
delete_in key (some m) = some (map_delete key m)

-- `deleteSession`: first in the cache, then in the database, which may refuse.
unfoldable pub delete_session : Bool → Text → Store → Store
unfolding map_delete
delete_session db_fails key s = record {
  cache = delete_in key s.cache;
  db = if db_fails then s.db else delete_in key s.db;
}

-- What one call of the middleware did: its error, whether it called the next invoker, and the
-- states after it.
pub record Outcome : Type 0 where
  pub error : Option Error
  pub invoked : Bool
  pub recovery : AuthRecovery
  pub store : Store

-- tgerr.Is(err, "AUTH_KEY_UNREGISTERED"), which looks through wrapped errors.
unfoldable pub is_unregistered : Error → Bool
is_unregistered auth_key_unregistered = true
is_unregistered (invalidated e) = is_unregistered e
is_unregistered _ = false

-- The branch of `Handle` behind a call that the session's key was refused for.
unfoldable pub invalidate : ℕ → Bool → Error → AuthRecovery → Store → Outcome
unfolding delete_session
invalidate now db_fails e a s = record {
  error = some (invalidated e);
  invoked = true;
  recovery = record a { blocked_until = now + 300 * 1000000000 };
  store = if length a.session_key == 0 then s else delete_session db_fails a.session_key s;
}

abbrev pub called : ℕ → Bool → AuthRecovery → Store → Option Error → Outcome
called now db_fails a s none = record { error = none; invoked = true; recovery = a; store = s }
called now db_fails a s (some e) =
    if is_unregistered e
    then invalidate now db_fails e a s
    else record { error = some e; invoked = true; recovery = a; store = s }

-- `Handle`: `before` and `after` are the times of its two reads of the clock, and `reply` is what
-- the next invoker answers.
unfoldable pub handle :
    ℕ → ℕ → Bool → (Request → Option Error) → Request → AuthRecovery → Store → Outcome
unfolding is_auth_request invalidate is_unregistered
handle before after db_fails reply input a s =
    if is_auth_request input
    then record { error = reply input; invoked = true; recovery = a; store = s }
    else if ltb before a.blocked_until
    then record { error = some cooldown; invoked = false; recovery = a; store = s }
    else called after db_fails a s (reply input)

-- `AuthRecovery.IsBlocked`
unfoldable pub is_blocked : ℕ → AuthRecovery → Bool
is_blocked now a = ltb now a.blocked_until

-- `BlockDC`, and `BlockBot` in the same way over the bots' ids.
unfoldable pub block_dc : ℕ → ℕ → ℕ → Map ℕ ℕ → Map ℕ ℕ
unfolding map_set
block_dc now dc duration m = map_set dc (now + duration) m

-- `IsDCBlocked`, which deletes a block that it finds expired.
unfoldable pub is_dc_blocked : ℕ → ℕ → Map ℕ ℕ → Bool × Map ℕ ℕ
unfolding map_delete
is_dc_blocked now dc m = elim (m dc) [
  | none ↦ (false, m)
  | some unblock ↦ if ltb unblock now then (false, map_delete dc m) else (true, m)
]

-- `GetDCBlockedUntil`; the zero time is 0.
unfoldable pub get_dc_blocked_until : ℕ → Map ℕ ℕ → ℕ
get_dc_blocked_until dc m = or_else (m dc) 0

-- `ExtractBotIdFromSessionKey`
unfoldable pub extract_bot_id : Text → Text
unfolding split
extract_bot_id key =
    let parts = split b':' key in
    if leb 3 (length parts) then or_else (get_elem? parts 2) [] else []

-- `BlockBot`
unfoldable pub block_bot : ℕ → Text → ℕ → Map Text ℕ → Map Text ℕ
unfolding map_set
block_bot now bot duration m = map_set bot (now + duration) m

-- `IsBotBlocked`
unfoldable pub is_bot_blocked : ℕ → Text → Map Text ℕ → Bool
is_bot_blocked now bot m = elim (m bot) [
  | none ↦ false
  | some unblock ↦ if ltb unblock now then false else true
]

-- `GetBotBlockedUntil`
unfoldable pub get_bot_blocked_until : Text → Map Text ℕ → ℕ
get_bot_blocked_until bot m = or_else (m bot) 0

-- `CleanupExpiredBotBlocks`: every entry is visited once, and deleted if it is expired.
unfoldable pub cleanup_expired : ℕ → Map Text ℕ → Map Text ℕ
cleanup_expired now m bot = elim (m bot) [
  | none ↦ none
  | some unblock ↦ if ltb unblock now then none else some unblock
]

-- The bot's id in a token.
abbrev pub bot_id : Text → Text
bot_id token = or_else (get_elem? (split b':' token) 0) []

-- `GetAvailableBots`; the test of token `i` is made at the time `clock i`.
unfoldable pub available_from : (ℕ → ℕ) → ℕ → List Text → Map Text ℕ → List Text
unfolding is_bot_blocked
available_from clock i [] m = []
available_from clock i (token ∷ tokens) m =
    let rest = available_from clock (i + 1) tokens m in
    if is_bot_blocked (clock i) (bot_id token) m then rest else token ∷ rest

unfoldable pub get_available_bots : (ℕ → ℕ) → List Text → Map Text ℕ → List Text
unfolding available_from
get_available_bots clock tokens m = available_from clock 0 tokens m
