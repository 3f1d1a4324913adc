-- ===== src/Services/Fallback/Turns.antt =====
-- pkg/services/file.go: a turn of FilesStream's loop over the bots that are left.
use teldrive_fork.Base.{
  ℕ, ◌+◌, ◌≡◌, ◌⊎◌, inl, inr, refl, [], ◌∷◌, Option, none, some, Bool, true, false, Text, Map,
  or_else, text_key, Bool-cases,
}
use teldrive_fork.Tgc.AuthRecovery.{bot_id, is_bot_blocked}
use teldrive_fork.Services.Bots.{bot}
use teldrive_fork.Services.Failure.{Failed, is_auth_key_unregistered}
use teldrive_fork.Services.Fallback.{Environment, Turn, block, streamed, with_client, retry_bot}

module _ (env : Environment) (client_is_live : Bool) (proxies : Map Text Text) where
  -- Turn `i` found this bot's session invalid, as it made a client or as it streamed.
  pub data Invalid (i : ℕ) (token : Text) : Type 0 where
    at_client :
        (e : Failed)
        → env.bot_client i token (or_else (proxies token) []) ≡ some e
        → is_auth_key_unregistered (some e) ≡ true
        → Invalid i token
    at_stream :
        (e : Failed)
        → env.bot_client i token (or_else (proxies token) []) ≡ none
        → env.stream (i + 1) (bot token) client_is_live ≡ some e
        → is_auth_key_unregistered (some e) ≡ true
        → Invalid i token

  -- What one turn of the loop does.
  pub data Turned (i : ℕ) (token : Text) (error : Option Failed) (m : Map Text ℕ)
      : Turn → Type 0 where
    held :
        is_bot_blocked (env.now i) (bot_id token) m ≡ true
        → Turned i token error m
            (record { ended = false; error = error; blocks = m; attempts = [] })
    unmade :
        (e : Failed) (m' : Map Text ℕ)
        → env.bot_client i token (or_else (proxies token) []) ≡ some e
        → (m' ≡ m) ⊎ (Invalid i token × (m' ≡ block (env.now i) token m))
        → Turned i token error m
            (record { ended = false; error = error; blocks = m'; attempts = [] })
    failed :
        (e : Failed)
        → env.bot_client i token (or_else (proxies token) []) ≡ none
        → env.stream (i + 1) (bot token) client_is_live ≡ some e
        → is_auth_key_unregistered (some e) ≡ true
        → Turned i token error m (record {
          ended = false;
          error = some e;
          blocks = block (env.now i) token m;
          attempts = record { client = bot token; result = some e } ∷ [];
        })
    settled :
        (r : Option Failed)
        → env.stream (i + 1) (bot token) client_is_live ≡ r
        → is_auth_key_unregistered r ≡ false
        → Turned i token error m (record {
          ended = true;
          error = r;
          blocks = m;
          attempts = record { client = bot token; result = r } ∷ [];
        })

  streamed-Turned :
      (i : ℕ) (token : Text) (error : Option Failed) (m : Map Text ℕ) (r : Option Failed)
      → env.bot_client i token (or_else (proxies token) []) ≡ none
      → env.stream (i + 1) (bot token) client_is_live ≡ r
      → Turned i token error m (streamed env client_is_live proxies i token m r)
  unfolding is_auth_key_unregistered
  streamed-Turned i token error m none c h = settled none h refl
  streamed-Turned i token error m (some e) c h =
      elim (Bool-cases (is_auth_key_unregistered (some e))) [
        | inl auth ↦ simp auth (failed e c h auth)
        | inr other ↦ simp other (settled (some e) h other)
      ]

  with_client-Turned :
      (i : ℕ) (token : Text) (error : Option Failed) (m : Map Text ℕ) (r : Option Failed)
      → env.bot_client i token (or_else (proxies token) []) ≡ r
      → Turned i token error m (with_client env client_is_live proxies i token error m r)
  with_client-Turned i token error m none h = streamed-Turned i token error m _ h refl
  with_client-Turned i token error m (some e) h =
      elim (Bool-cases (is_auth_key_unregistered (some e))) [
        | inl auth ↦ simp auth (unmade e _ h (inr (at_client e h auth, refl)))
        | inr other ↦ simp other (unmade e _ h (inl refl))
      ]

  pub retry_bot-Turned :
      (i : ℕ) (token : Text) (error : Option Failed) (m : Map Text ℕ)
      → Turned i token error m (retry_bot env client_is_live proxies i token error m)
  unfolding retry_bot
  retry_bot-Turned i token error m =
      elim (Bool-cases (is_bot_blocked (env.now i) (bot_id token) m)) [
        | inl there ↦ simp there (held there)
        | inr free ↦ simp free (with_client-Turned i token error m _ refl)
      ]
