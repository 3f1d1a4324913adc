-- ===== src/Tgc/AuthRecovery/Cooldown.antt =====
-- The cooldown after a refused session key.
use teldrive_fork.Base.{
  ℕ, ◌+◌, ◌*◌, ◌≤◌, ◌<◌, ◌≡◌, ◌≢◌, refl, if◌then◌else◌, List, [], ◌∷◌, length, Option, none, some,
  Bool, true, false, not, ◌&&◌, Bool-cases, inl, inr, ltb, Text, Map, arith, map_delete, ◌==◌,
  map_delete_same, map_delete_other, lt→ltb, text_key,
}
use teldrive_fork.Tgc.AuthRecovery.{
  Error, Request, Store, AuthRecovery, Outcome, handle, is_auth_request, invalidate,
  is_unregistered, cooldown, invalidated, delete_session,
}

-- One call of the middleware, with what its clock, the database and the next invoker do.
pub record Call : Type 0 where
  pub before : ℕ
  pub after : ℕ
  pub db_fails : Bool
  pub reply : Request → Option Error
  pub input : Request

abbrev pub answer : Call → AuthRecovery → Store → Outcome
answer c a s = handle c.before c.after c.db_fails c.reply c.input a s

-- Calls one after the other: how many of them are API requests that reach the next invoker.
unfoldable pub invocations : List Call → AuthRecovery → Store → ℕ
invocations [] a s = 0
invocations (c ∷ cs) a s =
    let out = answer c a s in
    (if out.invoked && not (is_auth_request c.input) then 1 else 0)
    + invocations cs out.recovery out.store

-- Every API request among the calls is made before a time.
unfoldable pub Before : ℕ → List Call → Type 0
Before t [] = Unit
Before t (c ∷ cs) = (is_auth_request c.input ≡ false → c.before < t) × Before t cs

-- While the block lasts, an API request is answered with an error and changes nothing.
handle-blocked :
    (c : Call) (a : AuthRecovery) (s : Store)
    → is_auth_request c.input ≡ false
    → c.before < a.blocked_until
    → answer c a s ≡ record { error = some cooldown; invoked = false; recovery = a; store = s }
unfolding handle
handle-blocked c a s api h = rw (api, lt→ltb _ _ h) refl

-- A request of the authorization changes no block.
handle-auth :
    (c : Call) (a : AuthRecovery) (s : Store)
    → is_auth_request c.input ≡ true
    → answer c a s ≡ record { error = c.reply c.input; invoked = true; recovery = a; store = s }
unfolding handle
handle-auth c a s auth = rw auth refl

quiet :
    (cs : List Call) (a : AuthRecovery) (s : Store)
    → Before a.blocked_until cs
    → invocations cs a s ≡ 0
unfolding invocations Before
quiet [] a s b = refl
quiet (c ∷ cs) a s (h, b) = elim (Bool-cases (is_auth_request c.input)) [
  | inl auth ↦ rw (handle-auth c a s auth, auth) (omega (arith, quiet cs a s b))
  | inr api ↦ rw (handle-blocked c a s api (h api)) (omega (arith, quiet cs a s b))
]

abbrev pub Refuses : Call → Type 0
Refuses c = (e : Error) × (c.reply c.input ≡ some e) × (is_unregistered e ≡ true)

-- An API request that reaches Telegram and is refused for its key blocks the session.
handle-refused :
    (c : Call) (a : AuthRecovery) (s : Store) (e : Error)
    → is_auth_request c.input ≡ false
    → a.blocked_until ≤ c.before
    → c.reply c.input ≡ some e
    → is_unregistered e ≡ true
    → answer c a s ≡ invalidate c.after c.db_fails e a s
unfolding handle
handle-refused c a s e api h r u =
    let open_now : ltb c.before a.blocked_until ≡ false = ground arith in
    rw (api, open_now, r, u) refl

-- No retry storm: after an API request that Telegram refuses for the session's key, no API request
-- that starts within five minutes of the refusal reaches Telegram, whatever requests of the
-- authorization go through in between. The refused one is the only one.
pub invocations-eq-one :
    (c : Call) (cs : List Call) (a : AuthRecovery) (s : Store)
    → is_auth_request c.input ≡ false
    → Refuses c
    → a.blocked_until ≤ c.before
    → Before (c.after + 300 * 1000000000) cs
    → invocations (c ∷ cs) a s ≡ 1
unfolding invocations invalidate
invocations-eq-one c cs a s api (e, r, u) h b =
    let out = invalidate c.after c.db_fails e a s in
    rw (handle-refused c a s e api h r u, api) (omega (arith, quiet cs out.recovery out.store b))

-- A refusal deletes the session: with a session key, its entry is gone from the cache and, unless
-- the database refuses, from the table, and every other entry is as before. The caller gets an
-- error that still names the refused key.
pub handle-deletes :
    (c : Call) (a : AuthRecovery) (kv cached : Map Text Text) (key : Text)
    → is_auth_request c.input ≡ false
    → Refuses c
    → a.blocked_until ≤ c.before
    → 0 < length a.session_key
    → key ≢ a.session_key
    → let out = answer c a (record { cache = some cached; db = some kv }) in
      ((e : Error) × (out.error ≡ some e) × (is_unregistered e ≡ true))
      × ((cached' : Map Text Text) × (out.store.cache ≡ some cached')
          × (cached' a.session_key ≡ none)
          × (cached' key ≡ cached key))
      × ((kv' : Map Text Text) × (out.store.db ≡ some kv')
          × (c.db_fails ≡ false → kv' a.session_key ≡ none)
          × (kv' key ≡ kv key))
unfolding invalidate delete_session is_unregistered
handle-deletes c a kv cached key api (e, r, u) h p ne =
    let s : Store = record { cache = some cached; db = some kv } in
    let has_key : (length a.session_key == 0) ≡ false = ground arith in
    let gone = map_delete_same a.session_key cached in
    let stays = map_delete_other a.session_key key cached ne in
    rw (handle-refused c a s e api h r u, has_key)
      ((invalidated e, refl, u), (_, refl, gone, stays), table c.db_fails)
  where
    table :
        (fails : Bool)
        → (kv' : Map Text Text) × ((if fails then some kv else some (map_delete a.session_key kv))
            ≡ some kv')
          × (fails ≡ false → kv' a.session_key ≡ none)
          × (kv' key ≡ kv key)
    table true = (kv, refl, λ f. absurd (ground arith), refl)
    table false = (
      map_delete a.session_key kv,
      refl,
      λ f. map_delete_same a.session_key kv,
      map_delete_other a.session_key key kv ne,
    )
