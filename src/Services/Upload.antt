-- ===== src/Services/Upload.antt =====
-- pkg/services/upload.go: how UploadsUpload rotates through a user's bots until one of them uploads
-- the part. What the Telegram client does is the environment's, one answer for each turn.
pub mod Rotation
use teldrive_fork.Base.{
  ℕ, zero, suc, ◌+◌, ◌*◌, ltb, ◌==◌, if◌then◌else◌, List, [], ◌∷◌, length, Option, none, some, Bool,
  true, false, not, ◌&&◌, ◌||◌, Text, Map, text_key,
}
use teldrive_fork.Base.Int.{ℤ}
use teldrive_fork.Tgc.Workers.{BotWorker, next, mark_blocked, set_with_proxies, get_proxy}
use teldrive_fork.Tgc.AuthRecovery.{block_bot, bot_id}

-- The errors that the loop tells apart: a key that is not registered, a flood wait for a time, a
-- failing proxy, and all others.
pub data Error : Type 0 where
  auth_key_unregistered proxy_failed upload_failed : Error
  flood_wait : ℕ → Error
  other : ℕ → Error

-- What the clients answer in the turn `i`: whether the cache has a live client, the error of making
-- a client with a proxy or without, and the uploaded part or the error of doUpload.
pub data Upload : Type 0 where
  uploaded : ℕ → Upload
  refused : Error → Upload

pub record Environment : Type 0 where
  pub client_cache : Bool
  pub live : ℕ → Text → Bool
  pub bot_client : ℕ → Text → Text → Option Error
  pub do_upload : ℕ → Text → Upload
  pub clock : ℕ → ℕ → ℕ
  pub now : ℕ → ℕ

-- The local variables of the loops, the worker, the blocked bots, and two counts that the code does
-- not keep: the turns taken and the bots tried in them.
pub record State : Type 0 where
  pub worker : BotWorker
  pub blocks : Map Text ℕ
  pub tried : List Text
  pub min_wait : ℕ
  pub last_error : Option Error
  pub turns : ℕ
  pub attempts : ℕ

pub data Outcome : Type 0 where
  done : ℕ → Outcome
  failed : Error → Outcome
  rate_limited : ℕ → Outcome
  panicked : Outcome

-- What a turn or a round of turns leads to: the handler returns, or it goes on.
pub data Verdict : Type 0 where
  stop : Outcome → State → Verdict
  go_on : State → Verdict

-- Whether the map `triedBots` has a token.
unfoldable pub contains : List Text → Text → Bool
contains [] token = false
contains (t ∷ ts) token = text_key.same t token || contains ts token

abbrev pub is_proxy_error : Error → Bool
is_proxy_error proxy_failed = true
is_proxy_error _ = false

abbrev pub without_proxy : Option Error → Text → Option Error → Option Error
without_proxy none proxy again = none
without_proxy (some e) proxy again =
    if not (length proxy == 0) && is_proxy_error e then again else some e

-- The client of a turn: a live one from the cache, or a new one, once more without its proxy if
-- the proxy fails.
unfoldable pub make_client : Environment → ℕ → Text → Text → Option Error
make_client env i token proxy =
    if env.client_cache && env.live i token
    then none
    else without_proxy (env.bot_client i token proxy) proxy (env.bot_client i token [])

-- The shortest wait that a bot was told; 0 for none yet.
unfoldable pub shorter_wait : ℕ → ℕ → ℕ
shorter_wait wait min_wait = if min_wait == 0 || ltb wait min_wait then wait else min_wait

-- The error branches, the same for making a client and for the upload.
unfoldable pub recover : Environment → Text → Error → State → Verdict
unfolding block_bot mark_blocked shorter_wait
recover env token auth_key_unregistered s = go_on (record s {
  blocks = block_bot (env.now s.turns) (bot_id token) (300 * 1000000000) s.blocks;
  last_error = some auth_key_unregistered;
})
recover env token (flood_wait wait) s = go_on (record s {
  worker = mark_blocked (env.now s.turns) token wait s.worker;
  min_wait = shorter_wait wait s.min_wait;
  last_error = some (flood_wait wait);
})
recover env token e s = stop (failed e) s

abbrev pub after_upload : Environment → Text → State → Upload → Verdict
after_upload env token s (uploaded part) = stop (done part) s
after_upload env token s (refused e) = recover env token e s

abbrev pub with_client : Environment → Text → State → Option Error → Verdict
with_client env token s (some e) = recover env token e s
with_client env token s none = after_upload env token s (env.do_upload s.turns token)

-- A turn of a bot that was not tried yet.
unfoldable pub attempt : Environment → Text → State → Verdict
unfolding make_client recover
attempt env token s =
    with_client env token s (make_client env s.turns token (get_proxy token s.worker))

abbrev pub take_turn : Environment → State → Option (Text × ℤ × BotWorker) → Verdict
take_turn env s none = stop panicked s
take_turn env s (some (token, index, worker)) =
    let s' = record s { worker = worker; turns = s.turns + 1 } in
    if contains s.tried token
    then go_on s'
    else attempt env token (record s' { tried = token ∷ s.tried; attempts = s.attempts + 1 })

-- The body of the inner loop.
unfoldable pub turn : Environment → ℕ → State → Verdict
unfolding contains attempt
turn env user s = take_turn env s (next (env.clock s.turns) user s.worker)

-- The inner loop, for `retries` turns.
abbrev pub then_go : Verdict → (State → Verdict) → Verdict
then_go (stop o s) f = stop o s
then_go (go_on s) f = f s

unfoldable pub round : Environment → ℕ → ℕ → State → Verdict
unfolding turn
round env user zero s = go_on s
round env user (suc retries) s = then_go (turn env user s) (round env user retries)

-- The end of the handler, when no bot is left.
unfoldable pub give_up : State → Outcome
give_up s =
    if ltb 0 s.min_wait
    then rate_limited s.min_wait
    else elim s.last_error [ some e ↦ failed e | none ↦ failed upload_failed ]

-- The reset of a wait cycle.
abbrev pub fresh_cycle : State → State
fresh_cycle s = record s { tried = []; min_wait = 0 }

abbrev pub after_round : Verdict → (State → Outcome × State) → Outcome × State
after_round (stop o s) again = (o, s)
after_round (go_on s) again = if ltb 0 s.min_wait then again s else (give_up s, s)

-- The outer loop, with `waits` wait cycles left.
unfoldable pub cycles : Environment → ℕ → ℕ → ℕ → State → Outcome × State
unfolding round give_up
cycles env user retries zero s = after_round (round env user retries s) (λ s'. (give_up s', s'))
cycles env user retries (suc waits) s =
    after_round (round env user retries s) (λ s'. cycles env user retries waits (fresh_cycle s'))

-- `UploadsUpload` for a user with bots, behind its reading of the part.
unfoldable pub rotate :
    Environment → ℕ → List Text → Map Text Text → BotWorker → Map Text ℕ → Outcome × State
unfolding cycles
rotate env user tokens proxies worker blocks = cycles env user (length tokens) 3 (record {
  worker = set_with_proxies tokens proxies user worker;
  blocks = blocks;
  tried = [];
  min_wait = 0;
  last_error = none;
  turns = 0;
  attempts = 0;
})
