-- ===== src/Services/Bots.antt =====
-- pkg/services/file.go: how FilesStream chooses the bot that streams a file, and how it goes on with
-- others when a session turns out to be invalid. What the Telegram clients do is the environment's.
pub mod Choice
mod Tests
use teldrive_fork.Base.{
  ℕ, zero, suc, ◌+◌, ◌*◌, ◌==◌, if◌then◌else◌, List, [], ◌∷◌, length, Option, none, some, Bool,
  true, false, not, ◌&&◌, ◌||◌, Text, Map, or_else,
}
use teldrive_fork.Base.Int.{ℤ}
use teldrive_fork.Tgc.Workers.{BotWorker, next, set_with_proxies, get_proxy}
use teldrive_fork.Tgc.AuthRecovery.{block_bot, bot_id, is_bot_blocked, get_available_bots}
use teldrive_fork.Services.Failure.{Failed, is_auth_key_unregistered, is_proxy_error}

-- What the clients answer in turn `i`: the error of a live client of the cache, of a bot's client
-- with a proxy ("" for none), and of the user's client; and the times in turn `i`.
pub record Environment : Type 0 where
  pub disable_stream_bots : Bool
  pub client_cache : Bool
  pub live_client : ℕ → Text → Text → Option Failed
  pub bot_client : ℕ → Text → Text → Option Failed
  pub user_client : Option Failed
  pub next_clock : ℕ → ℕ → ℕ
  pub now : ℕ → ℕ

-- The client that streams; `no_client` is the answer 500.
pub data Client : Type 0 where
  live : Text → Client
  bot : Text → Client
  user_session : Client
  no_client : Failed → Client
  panicked : Client

-- What is changed: the worker and the blocked bots.
pub record Bots : Type 0 where
  pub worker : BotWorker
  pub blocks : Map Text ℕ

abbrev pub five_minutes : ℕ
five_minutes = 300 * 1000000000

module _ (env : Environment) where
  abbrev pub user_or_error : Option Failed → Client
  user_or_error none = user_session
  user_or_error (some e) = no_client e

  -- A client without a proxy where the proxy fails.
  abbrev pub without_proxy : Text → Option Failed → Option Failed → Option Failed
  without_proxy proxy e again = if not (length proxy == 0) && is_proxy_error e then again else e

  -- The result of making a bot's client, by which the loop ends or goes on.
  abbrev pub made : ℕ → Text → Bots → Option Failed → Option Client × Bots
  made i token b none = (some (bot token), b)
  made i token b (some e) =
      if is_auth_key_unregistered (some e)
      then (none, record b { blocks = block_bot (env.now i) (bot_id token) five_minutes b.blocks })
      else (none, b)

  abbrev pub live_or_made : ℕ → Text → Bots → Text → Bool → Option Failed → Option Client × Bots
  live_or_made i token b proxy true none = (some (live token), b)
  live_or_made i token b proxy use_cache e =
      made i token b
        (without_proxy proxy (env.bot_client i token proxy) (env.bot_client i token []))

  -- The body of the loop behind `Next`.
  unfoldable pub try_bot : ℕ → Text → Bots → Option Client × Bots
  unfolding block_bot is_bot_blocked get_proxy
  try_bot i token b =
      let proxy = get_proxy token b.worker in
      if is_bot_blocked (env.now i) (bot_id token) b.blocks
      then (none, b)
      else live_or_made i token b proxy env.client_cache (env.live_client i token proxy)

  abbrev pub try_next : ℕ → Bots → Option (Text × ℤ × BotWorker) → Option Client × Bots
  try_next i b none = (some panicked, b)
  try_next i b (some (token, index, w)) = try_bot i token (record b { worker = w })

  abbrev pub or_go_on : Option Client × Bots → Option Client × Bots → Option Client × Bots
  or_go_on (some c, b) rest = (some c, b)
  or_go_on (none, b) rest = rest

  -- The loop over the bots, for `count` turns from turn `i` on.
  unfoldable pub try_bots : ℕ → ℕ → ℕ → Bots → Option Client × Bots
  unfolding try_bot next
  try_bots user zero i b = (none, b)
  try_bots user (suc count) i b =
      let turn = try_next i b (next (env.next_clock i) user b.worker) in
      or_go_on turn (try_bots user count (i + 1) turn.1)

  abbrev pub or_user : Option Client × Bots → Client × Bots
  or_user (some c, b) = (c, b)
  or_user (none, b) = (user_or_error env.user_client, b)

  -- The choice of the client, for the bots' tokens of a user.
  unfoldable pub choose : (ℕ → ℕ) → List Text → Map Text Text → ℕ → Bots → Client × Bots
  unfolding try_bots set_with_proxies get_available_bots
  choose clock tokens proxies user b =
      let b' = record b { worker = set_with_proxies tokens proxies user b.worker } in
      let count = length (get_available_bots clock tokens b'.blocks) in
      if env.disable_stream_bots || length tokens == 0
      then (user_or_error env.user_client, b)
      else if count == 0
      then (user_or_error env.user_client, b')
      else or_user (try_bots user count 0 b')
