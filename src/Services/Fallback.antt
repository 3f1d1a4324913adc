-- ===== src/Services/Fallback.antt =====
-- pkg/services/file.go: how FilesStream goes on when a bot's session turns out to be invalid while it
-- streams: with the bots that are left, and at last with the user's session. What the clients do is
-- the environment's.
pub mod Turns
pub mod Loop
pub mod Ends
mod Tests
use teldrive_fork.Base.{
  ℕ, zero, suc, ◌+◌, ◌==◌, if◌then◌else◌, List, [], ◌∷◌, ◌++◌, length, Option, none, some, Bool,
  true, false, not, ◌&&◌, ◌||◌, Text, Map, or_else,
}
use teldrive_fork.Tgc.AuthRecovery.{block_bot, bot_id, is_bot_blocked, get_available_bots}
use teldrive_fork.Services.Bots.{Client, live, bot, user_session, no_client, panicked, five_minutes}
use teldrive_fork.Services.Failure.{
  Failed, is_auth_key_unregistered, is_message_ids_empty, is_file_parts_mismatch,
}

-- The error of streaming, none for success: the first stream has the number 0, turn `i` of the loop
-- the number i + 1. It is told whether the client counts as connected. `bot_client` and
-- `user_client` are the errors of making a client. `failed_at` is the time when the first stream has
-- failed, `now` that of a turn.
pub record Environment : Type 0 where
  pub stream : ℕ → Client → Bool → Option Failed
  pub bot_client : ℕ → Text → Text → Option Failed
  pub user_client : Option Failed
  pub failed_at : ℕ
  pub now : ℕ → ℕ
  pub clock : ℕ → ℕ

pub record Attempt : Type 0 where
  pub client : Client
  pub result : Option Failed

-- What one turn of the loop, or all of it, leaves: whether it has ended, the error so far, the blocked
-- bots, and the streams that were tried.
pub record Turn : Type 0 where
  pub ended : Bool
  pub error : Option Failed
  pub blocks : Map Text ℕ
  pub attempts : List Attempt

-- The end of the request; `deleted` says that the file was deleted as an orphan.
pub record Served : Type 0 where
  pub deleted : Bool
  pub error : Option Failed
  pub blocks : Map Text ℕ
  pub attempts : List Attempt

-- `token` and `clientIsLive` of the client that was chosen.
abbrev pub token_of : Client → Text
token_of (live token) = token
token_of (bot token) = token
token_of user_session = []
token_of (no_client e) = []
token_of panicked = []

abbrev pub is_live : Client → Bool
is_live (live token) = true
is_live (bot token) = false
is_live user_session = false
is_live (no_client e) = false
is_live panicked = false

abbrev pub block : ℕ → Text → Map Text ℕ → Map Text ℕ
block now token m = block_bot now (bot_id token) five_minutes m

module _ (env : Environment) (client_is_live : Bool) (proxies : Map Text Text) where
  abbrev pub streamed : ℕ → Text → Map Text ℕ → Option Failed → Turn
  streamed i token m none = record {
    ended = true;
    error = none;
    blocks = m;
    attempts = record { client = bot token; result = none } ∷ [];
  }
  streamed i token m (some e) =
      if is_auth_key_unregistered (some e)
      then record {
        ended = false;
        error = some e;
        blocks = block (env.now i) token m;
        attempts = record { client = bot token; result = some e } ∷ [];
      }
      else record {
        ended = true;
        error = some e;
        blocks = m;
        attempts = record { client = bot token; result = some e } ∷ [];
      }

  abbrev pub with_client : ℕ → Text → Option Failed → Map Text ℕ → Option Failed → Turn
  with_client i token error m none =
      streamed i token m (env.stream (i + 1) (bot token) client_is_live)
  with_client i token error m (some e) = record {
    ended = false;
    error = error;
    blocks = if is_auth_key_unregistered (some e) then block (env.now i) token m else m;
    attempts = [];
  }

  -- The body of the loop.
  unfoldable pub retry_bot : ℕ → Text → Option Failed → Map Text ℕ → Turn
  unfolding block_bot is_bot_blocked
  retry_bot i token error m =
      if is_bot_blocked (env.now i) (bot_id token) m
      then record { ended = false; error = error; blocks = m; attempts = [] }
      else with_client i token error m (env.bot_client i token (or_else (proxies token) []))

  abbrev pub or_rest : Turn → Turn → Turn
  or_rest turn rest =
      if turn.ended then turn else record rest { attempts = turn.attempts ++ rest.attempts }

  -- The loop over the bots that are left, from turn `i` on.
  unfoldable pub retry_bots : ℕ → List Text → Option Failed → Map Text ℕ → Turn
  unfolding retry_bot
  retry_bots i [] error m = record { ended = false; error = error; blocks = m; attempts = [] }
  retry_bots i (token ∷ tokens) error m =
      let turn = retry_bot i token error m in
      or_rest turn (retry_bots (i + 1) tokens turn.error turn.blocks)

  abbrev pub by_user : ℕ → Turn → Option Failed → Served
  by_user i r none =
      let result = env.stream (i + 1) user_session client_is_live in
      record {
        deleted = false;
        error = result;
        blocks = r.blocks;
        attempts = r.attempts ++ (record { client = user_session; result = result } ∷ []);
      }
  by_user i r (some e) = record {
    deleted = false;
    error = r.error;
    blocks = r.blocks;
    attempts = r.attempts;
  }

  -- The last resort, behind a loop of `i` turns.
  unfoldable pub last_resort : ℕ → Turn → Served
  last_resort i r =
      if is_auth_key_unregistered r.error
      then by_user i r env.user_client
      else record { deleted = false; error = r.error; blocks = r.blocks; attempts = r.attempts }

module _ (env : Environment) (proxies : Map Text Text) where
  abbrev pub other_bots : Bool → Text → List Text → Map Text ℕ → Attempt → Served
  other_bots client_is_live token tokens m first =
      let m' = block env.failed_at token m in
      let available = get_available_bots env.clock tokens m' in
      let r = retry_bots env client_is_live proxies 0 available first.result m' in
      last_resort env client_is_live proxies (length available)
        (record r { attempts = first ∷ r.attempts })

  -- The content of the answer, with the client that was chosen.
  unfoldable pub serve : List Text → Client → Map Text ℕ → Served
  unfolding retry_bots last_resort get_available_bots block_bot
  serve tokens client m =
      let error = env.stream 0 client (is_live client) in
      let first : Attempt = record { client = client; result = error } in
      if is_message_ids_empty error || is_file_parts_mismatch error
      then record { deleted = true; error = error; blocks = m; attempts = first ∷ [] }
      else if is_auth_key_unregistered error && not (length (token_of client) == 0)
      then other_bots (is_live client) (token_of client) tokens m first
      else record { deleted = false; error = error; blocks = m; attempts = first ∷ [] }
