-- ===== src/Tgc/ClientCache.antt =====
-- internal/tgc/clientcache.go: the Telegram clients that are kept connected, one for each bot and
-- proxy. What holds the mutex is one step; the goroutine of a client and the requests that wait for
-- it act in steps of their own, in any order.
pub mod Entries
pub mod Leaks
use teldrive_fork.Base.{
  ℕ, zero, suc, ◌+◌, ◌-◌, ◌*◌, ltb, ◌==◌, if◌then◌else◌, List, [], ◌∷◌, ◌++◌, length, Option, none,
  some, Bool, true, false, not, ◌&&◌, ◌||◌, Text, text_key,
}
use teldrive_fork.Tgc.AuthRecovery.{bot_id}

pub data Error : Type 0 where
  empty_token wait_timeout connect_timeout stopped context_done : Error
  client_error : ℕ → Error

-- `cachedClient`: `ready` is what `signalReady` left, once the channel is closed.
pub record Client : Type 0 where
  pub ready : Option (Option Error)
  pub canceled : Bool
  pub last_at : ℕ

pub record Entry : Type 0 where
  pub key : Text
  pub id : ℕ

-- `clientCache`, with the clients that were ever made, by their number; `next` is the next number.
pub record ClientCache : Type 0 where
  pub entries : List Entry
  pub clients : ℕ → Client
  pub next : ℕ

abbrev pub new_client : ℕ → Client
new_client now = record { ready = none; canceled = false; last_at = now }

abbrev pub empty_cache : ClientCache
empty_cache = record { entries = []; clients = λ i. new_client 0; next = 0 }

unfoldable pub lookup : Text → List Entry → Option ℕ
lookup key [] = none
lookup key (e ∷ es) = if text_key.same e.key key then some e.id else lookup key es

unfoldable pub remove : Text → List Entry → List Entry
remove key [] = []
remove key (e ∷ es) = if text_key.same e.key key then remove key es else e ∷ remove key es

-- Whether a client is in the cache.
unfoldable pub cached : ℕ → List Entry → Bool
cached i [] = false
cached i (e ∷ es) = e.id == i || cached i es

unfoldable pub update : ℕ → (Client → Client) → (ℕ → Client) → ℕ → Client
update id f clients i = if i == id then f (clients i) else clients i

-- `signalReady`: only the first call has an effect.
abbrev pub set_ready : Option Error → Client → Client
set_ready e c = elim c.ready [ some old ↦ c | none ↦ record c { ready = some e } ]

unfoldable pub signal_ready : ℕ → Option Error → ClientCache → ClientCache
unfolding update
signal_ready id e s = record s { clients = update id (set_ready e) s.clients }

-- `drop`: only if the key still holds the expected client. The call of `cancel` behind the mutex is
-- part of the step.
unfoldable pub drop : Text → ℕ → ClientCache → ClientCache
unfolding lookup remove update
drop key expected s = elim (lookup key s.entries) [
  | none ↦ s
  | some id ↦
      if id == expected
      then record s {
        entries = remove key s.entries;
        clients = update id (λ c. record c { canceled = true }) s.clients;
      }
      else s
]

-- What `GetLiveClient` has found when it gives the mutex back.
pub data Found : Type 0 where
  existing started : Text → ℕ → Found
  refused : Error → Found

abbrev pub cache_key : Text → Text → Text
cache_key token proxy = bot_id token ++ (b'|' ∷ proxy)

abbrev pub touch : ℕ → Client → Client
touch now c = record c { last_at = now }

abbrev pub add_client : ℕ → Text → ClientCache → ClientCache
add_client now key s = record {
  entries = record { key = key; id = s.next } ∷ s.entries;
  clients = update s.next (λ c. new_client now) s.clients;
  next = s.next + 1;
}

-- The part of `GetLiveClient` under the mutex; `made` is the outcome of BotClient.
unfoldable pub get_live_client : ℕ → Text → Text → Option Error → ClientCache → Found × ClientCache
unfolding lookup update
get_live_client now token proxy made s =
    let key = cache_key token proxy in
    if length token == 0 then (refused empty_token, s) else elim (lookup key s.entries) [
      | some id ↦ (existing key id, record s { clients = update id (touch now) s.clients })
      | none ↦ elim made [
        | some e ↦ (refused e, s)
        | none ↦ (started key s.next, add_client now key s)
      ]
    ]

-- What ends the wait of a request.
pub data Wake : Type 0 where
  is_ready timed_out canceled_request : Wake

pub data Waited : Type 0 where
  client : ℕ → Waited
  waiting : Waited
  error : Error → Waited

-- The wait for a client that was there.
unfoldable pub wait_existing : Text → ℕ → Wake → ClientCache → Waited × ClientCache
unfolding drop
wait_existing key id timed_out s = (error wait_timeout, s)
wait_existing key id canceled_request s = (error context_done, s)
wait_existing key id is_ready s = elim (s.clients id).ready [
  | none ↦ (waiting, s)
  | some none ↦ (client id, s)
  | some (some e) ↦ (error e, drop key id s)
]

-- The wait for a client that this request has made.
unfoldable pub wait_started : Text → ℕ → Wake → ClientCache → Waited × ClientCache
unfolding drop
wait_started key id timed_out s = (error connect_timeout, drop key id s)
wait_started key id canceled_request s = (error context_done, s)
wait_started key id is_ready s = elim (s.clients id).ready [
  | none ↦ (waiting, s)
  | some none ↦ (client id, s)
  | some (some e) ↦ (error e, s)
]

abbrev pub run_error : Option Error → Error
run_error none = stopped
run_error (some e) = e

-- The end of a client's goroutine, behind its `Run`.
unfoldable pub run_ended : Text → ℕ → Option Error → ClientCache → ClientCache
unfolding signal_ready drop
run_ended key id e s = drop key id (signal_ready id (some (run_error e)) s)

-- The calls of `cancel` for a list of entries.
unfoldable pub cancel_all : List Entry → (ℕ → Client) → ℕ → Client
unfolding cached
cancel_all es clients i = if cached i es then record (clients i) { canceled = true } else clients i

-- `CloseLiveClients`
unfoldable pub close_live_clients : ClientCache → ClientCache
unfolding cancel_all
close_live_clients s = record s { entries = []; clients = cancel_all s.entries s.clients }

-- clientIdleTimeout
abbrev pub idle_timeout : ℕ
idle_timeout = 600 * 1000000000

abbrev pub is_idle : ℕ → (ℕ → Client) → Entry → Bool
is_idle now clients e = ltb ((clients e.id).last_at + idle_timeout) now

-- The entries that `ReapIdleClients` keeps, and those that it takes out.
unfoldable pub idle_entries : Bool → ℕ → (ℕ → Client) → List Entry → List Entry
idle_entries idle now clients [] = []
idle_entries idle now clients (e ∷ es) =
    let rest = idle_entries idle now clients es in
    if is_idle now clients e
    then (if idle then e ∷ rest else rest)
    else (if idle then rest else e ∷ rest)

-- `ReapIdleClients`
unfoldable pub reap_idle_clients : ℕ → ClientCache → ClientCache
unfolding idle_entries cancel_all
reap_idle_clients now s = record s {
  entries = idle_entries false now s.clients s.entries;
  clients = cancel_all (idle_entries true now s.clients s.entries) s.clients;
}

-- `LiveClientCount`
unfoldable pub live_client_count : ClientCache → ℕ
live_client_count s = length s.entries
