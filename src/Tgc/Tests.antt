-- ===== src/Tgc/Tests.antt =====
-- Concrete runs of the Telegram client layer.
use teldrive_fork.Base.{
  ℕ, ◌+◌, ◌*◌, ◌%◌, ◌≤◌, ◌<◌, ◌≡◌, ◌≢◌, ◌⊎◌, refl, List, [], ◌∷◌, none, some, true, false, Text,
  Map, empty_map, map_set, or_else, text_key, nat_key, arith,
}
use teldrive_fork.Base.Int.{pos}
use teldrive_fork.Tgc.Workers.{BotWorker, new_bot_worker, set, mark_blocked, is_blocked, next}
use teldrive_fork.Tgc.Workers.Choice.{Choice, next-Choice}
use teldrive_fork.Tgc.AuthRecovery.{
  Error, Store, AuthRecovery, auth_key_unregistered, api, is_unregistered, is_bot_blocked,
  is_auth_request, split, get_available_bots,
}
use teldrive_fork.Tgc.AuthRecovery.Cooldown.{
  Call, answer, invocations, Before, invocations-eq-one, handle-deletes,
}
use teldrive_fork.Tgc.ClientCache.{
  ClientCache, empty_cache, get_live_client, run_ended, cache_key, live_client_count,
  drop as drop_client, signal_ready, existing,
}
use teldrive_fork.Tgc.ClientCache.Leaks.{
  Sound, at_start, then_step, get_step, ended_step, Reachable-Sound,
}
use teldrive_fork.Tgc.Helpers.{calculate_chunk_size, max_chunk_size}
use teldrive_fork.Tgc.Helpers.ChunkSize.{calculate_chunk_size_lem}

chunk_size_run : calculate_chunk_size 1000 6000 ≡ 4096
unfolding calculate_chunk_size
chunk_size_run = refl

calculate_chunk_size_lem_example :
    let size = calculate_chunk_size 1000 6000 in
    (1024 ≤ size)
    × (size ≤ max_chunk_size)
    × (max_chunk_size % size ≡ 0)
    × ((size ≡ 1024) ⊎ (1000 + size ≤ 6000))
    × ((size ≡ max_chunk_size) ⊎ (6000 < 1000 + 2 * size))
calculate_chunk_size_lem_example = calculate_chunk_size_lem 1000 6000

abbrev token_a : Text
token_a = b'1' ∷ b':' ∷ b'a' ∷ []

abbrev token_b : Text
token_b = b'2' ∷ b':' ∷ b'b' ∷ []

abbrev two_bots : List Text
two_bots = token_a ∷ token_b ∷ []

-- User 7 has two bots, and the first is blocked until 50.
abbrev one_blocked : BotWorker
one_blocked = mark_blocked 20 token_a 30 (set two_bots 7 (new_bot_worker false))

one_blocked-bots : one_blocked.bots 7 ≡ some two_bots
unfolding mark_blocked set new_bot_worker map_set
one_blocked-bots = refl

one_blocked-turn : or_else (one_blocked.curr_idx 7) 0 ≡ 0
unfolding mark_blocked set new_bot_worker map_set
one_blocked-turn = refl

next_run : (w : BotWorker) × (next (λ i. 49) 7 one_blocked ≡ some (token_b, pos 1, w))
unfolding mark_blocked set new_bot_worker map_set next is_blocked
next_run = (_, refl)

next_expired_run : (w : BotWorker) × (next (λ i. 50) 7 one_blocked ≡ some (token_a, pos 0, w))
unfolding mark_blocked set new_bot_worker map_set next is_blocked
next_expired_run = (_, refl)

next-Choice_example :
    Choice
      (λ i. 49)
      one_blocked
      7
      two_bots
      (or_else (one_blocked.curr_idx 7) 0)
      (next (λ i. 49) 7 one_blocked)
next-Choice_example =
    next-Choice (λ i. 49) one_blocked 7 two_bots one_blocked-bots (omega (arith, one_blocked-turn))

abbrev refusing : ℕ → Call
refusing t = record {
  before = t;
  after = t + 1;
  db_fails = false;
  reply = λ r. some auth_key_unregistered;
  input = api 3;
}

abbrev recovery : AuthRecovery
recovery = record { session_key = b's' ∷ []; blocked_until = 0 }

abbrev no_store : Store
no_store = record { cache = none; db = none }

api_request : is_auth_request (api 3) ≡ false
unfolding is_auth_request
api_request = refl

unregistered : is_unregistered auth_key_unregistered ≡ true
unfolding is_unregistered
unregistered = refl

soon-Before : Before (101 + 300 * 1000000000) (refusing 200 ∷ refusing 300 ∷ [])
unfolding Before is_auth_request
soon-Before = (λ h. omega arith, (λ h. omega arith, tt))

invocations-eq-one_example :
    invocations (refusing 100 ∷ refusing 200 ∷ refusing 300 ∷ []) recovery no_store ≡ 1
invocations-eq-one_example =
    invocations-eq-one (refusing 100) (refusing 200 ∷ refusing 300 ∷ []) recovery no_store
      api_request (auth_key_unregistered, refl, unregistered) (omega arith) soon-Before

abbrev sessions : Map Text Text
sessions = map_set (b's' ∷ []) token_a (map_set (b't' ∷ []) token_b empty_map)

abbrev key_s : Text
key_s = b's' ∷ []

abbrev key_t : Text
key_t = b't' ∷ []

other_key : key_t ≢ key_s
other_key h = ground arith

handle-deletes_example :
    let out =
      answer (refusing 100) recovery (record { cache = some sessions; db = some sessions }) in
    ((e : Error) × (out.error ≡ some e) × (is_unregistered e ≡ true))
    × ((cached' : Map Text Text) × (out.store.cache ≡ some cached')
        × (cached' (b's' ∷ []) ≡ none)
        × (cached' (b't' ∷ []) ≡ sessions (b't' ∷ [])))
    × ((kv' : Map Text Text) × (out.store.db ≡ some kv')
        × (false ≡ false → kv' (b's' ∷ []) ≡ none)
        × (kv' (b't' ∷ []) ≡ sessions (b't' ∷ [])))
handle-deletes_example =
    handle-deletes (refusing 100) recovery sessions sessions (b't' ∷ []) api_request
      (auth_key_unregistered, refl, unregistered) (omega arith) (omega arith) other_key

available_run :
    get_available_bots (λ i. 40) two_bots (map_set (b'1' ∷ []) 50 empty_map) ≡ token_b ∷ []
unfolding get_available_bots is_bot_blocked split map_set
available_run = refl

-- A client is made, its connection ends, and another one is made for the same bot.
abbrev one_client : ClientCache
one_client = (get_live_client 10 token_a [] none empty_cache).1

abbrev no_client : ClientCache
no_client = run_ended (cache_key token_a []) 0 none one_client

abbrev two_clients : ClientCache
two_clients = (get_live_client 20 token_a [] none no_client).1

count_run : (live_client_count one_client ≡ 1) × (live_client_count no_client ≡ 0)
unfolding live_client_count get_live_client run_ended drop_client signal_ready split
count_run = (refl, refl)

shared_run : (get_live_client 30 token_a [] none one_client).0 ≡ existing (cache_key token_a []) 0
unfolding get_live_client split
shared_run = refl

Reachable-Sound_example : Sound two_clients
Reachable-Sound_example = Reachable-Sound two_clients (
    then_step no_client two_clients
      (then_step one_client no_client
        (then_step empty_cache one_client at_start (get_step 10 token_a [] none))
        (ended_step (cache_key token_a []) 0 none))
      (get_step 20 token_a [] none))
