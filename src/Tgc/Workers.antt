-- ===== src/Tgc/Workers.antt =====
-- internal/tgc/workers.go: the bots of each user, handed out in turn. A method holds the mutex for
-- its whole body and is one step; the time is an argument.
-- `MarkBlocked` holds a mutex of its own, so that in the program it can also act between two rounds of
-- the loop of `Next`.
pub mod Choice
pub mod Invariant
use teldrive_fork.Base.{
  ℕ, zero, suc, ◌+◌, ◌%◌, ◌==◌, ltb, if◌then◌else◌, List, [], ◌∷◌, length, get_or, get_elem?,
  Option, none, some, Bool, true, false, Text, Map, empty_map, map_set, or_else, text_key, nat_key,
}
use teldrive_fork.Base.Int.{ℤ, pos, negsuc}

-- A user's id is a number (it is never negative), a time a number of nanoseconds.
pub record BotWorker : Type 0 where
  pub bots : Map ℕ (List Text)
  pub curr_idx : Map ℕ ℕ
  pub blocked : Map Text ℕ
  pub bot_proxy : Map Text Text
  pub proxy_enabled : Bool

-- `NewBotWorker`
unfoldable pub new_bot_worker : Bool → BotWorker
new_bot_worker enabled = record {
  bots = empty_map;
  curr_idx = empty_map;
  blocked = empty_map;
  bot_proxy = empty_map;
  proxy_enabled = enabled;
}

-- `Set`
unfoldable pub set : List Text → ℕ → BotWorker → BotWorker
unfolding map_set
set bots user w = elim (w.bots user) [
  | some old ↦ w
  | none ↦ record w { bots = map_set user bots w.bots; curr_idx = map_set user 0 w.curr_idx }
]

-- The loop of `SetWithProxies`.
unfoldable pub store_proxies : List Text → Map Text Text → Map Text Text → Map Text Text
unfolding map_set
store_proxies [] proxies m = m
store_proxies (token ∷ bots) proxies m =
    store_proxies bots proxies (elim (proxies token) [ some url ↦ map_set token url m | none ↦ m ])

-- `SetWithProxies`
unfoldable pub set_with_proxies : List Text → Map Text Text → ℕ → BotWorker → BotWorker
unfolding store_proxies set
set_with_proxies bots proxies user w =
    set bots user (record w { bot_proxy = store_proxies bots proxies w.bot_proxy })

-- `GetProxy`
unfoldable pub get_proxy : Text → BotWorker → Text
get_proxy token w = if w.proxy_enabled then or_else (w.bot_proxy token) [] else []

-- `MarkBlocked` at a time.
unfoldable pub mark_blocked : ℕ → Text → ℕ → BotWorker → BotWorker
unfolding map_set
mark_blocked now token duration w = record w { blocked = map_set token (now + duration) w.blocked }

-- `IsBlocked` at a time.
unfoldable pub is_blocked : ℕ → Text → BotWorker → Bool
is_blocked now token w = elim (w.blocked token) [ none ↦ false | some unblock ↦ ltb now unblock ]

-- The loop of `Next`, for `count` rounds from round `i` on: the first bot that is not blocked. The
-- test of round `i` is made at the time `clock i`.
unfoldable pub find_free : (ℕ → ℕ) → BotWorker → List Text → ℕ → ℕ → ℕ → Option (Text × ℕ)
unfolding is_blocked
find_free clock w bots start zero i = none
find_free clock w bots start (suc count) i =
    let index = (start + i) % length bots in
    let token = get_or bots index [] in
    let rest = find_free clock w bots start count (i + 1) in
    if is_blocked (clock i) token w then rest else some (token, index)

abbrev pub advance : ℕ → ℕ → ℕ → BotWorker → BotWorker
advance user index count w = record w { curr_idx = map_set user ((index + 1) % count) w.curr_idx }

-- The last lines of `Next`, where all bots are blocked: the bot whose turn it is, if there is one.
abbrev pub next_anyway : ℕ → List Text → ℕ → BotWorker → Option Text → Option (Text × ℤ × BotWorker)
next_anyway user bots start w none = none
next_anyway user bots start w (some token) =
    some (token, pos start, advance user start (length bots) w)

abbrev pub next_found :
    ℕ → List Text → ℕ → BotWorker → Option (Text × ℕ) → Option (Text × ℤ × BotWorker)
next_found user bots start w (some (token, index)) =
    some (token, pos index, advance user index (length bots) w)
next_found user bots start w none = next_anyway user bots start w (get_elem? bots start)

-- `Next`; `none` is the panic of an index out of range.
unfoldable pub next : (ℕ → ℕ) → ℕ → BotWorker → Option (Text × ℤ × BotWorker)
unfolding find_free map_set
next clock user w =
    let bots = or_else (w.bots user) [] in
    let start = or_else (w.curr_idx user) 0 in
    if length bots == 0
    then some ([], negsuc 0, w)
    else next_found user bots start w (find_free clock w bots start (length bots) 0)
