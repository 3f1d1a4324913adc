-- ===== src/Services/Fallback/Loop.antt =====
-- pkg/services/file.go: FilesStream's loop over the bots that are left, turn by turn.
use teldrive_fork.Base.{
  ℕ, suc, ◌+◌, ◌≤◌, ◌<◌, ◌≡◌, ◌⊎◌, inl, inr, sym, ap, subst, ◌∙◌, List, [], ◌∷◌, length, get_elem?,
  Option, some, Bool, true, false, Text, Map, or_else, map_set, text_key, arith, Bool-cases,
}
use teldrive_fork.Tgc.AuthRecovery.{block_bot, bot_id, is_bot_blocked}
use teldrive_fork.Services.Bots.{bot}
use teldrive_fork.Services.Failure.{Failed, is_auth_key_unregistered}
use teldrive_fork.Services.Fallback.{
  Environment, Attempt, Turn, block, retry_bot, or_rest, retry_bots,
}
use teldrive_fork.Services.Fallback.Turns.{
  Invalid, at_stream, Turned, held, unmade, failed, settled, retry_bot-Turned,
}

module _ (env : Environment) (client_is_live : Bool) (proxies : Map Text Text) (m0 : Map Text ℕ)
    (bots : List Text) where
  -- An earlier turn found the session of a bot of this name invalid.
  pub record Earlier (i : ℕ) (name : Text) : Type 0 where
    pub turn : ℕ
    pub token : Text
    pub before : turn < i
    pub listed : get_elem? bots turn ≡ some token
    pub same_name : bot_id token ≡ name
    pub invalid : Invalid env client_is_live proxies turn token

  -- Why a bot is not tried in its turn: it was blocked before the loop, an earlier turn found its
  -- session invalid, or a client cannot be made.
  pub data Skipped (i : ℕ) (token : Text) : Type 0 where
    blocked : is_bot_blocked (env.now i) (bot_id token) m0 ≡ true → Skipped i token
    found_invalid : Earlier i (bot_id token) → Skipped i token
    no_client :
        (e : Failed)
        → env.bot_client i token (or_else (proxies token) []) ≡ some e
        → Skipped i token

  -- The loop from turn `i` on, behind the error so far: the streams that it tries, and the error that
  -- it leaves. It passes a bot that is skipped, or whose stream fails with AUTH_KEY_UNREGISTERED, and
  -- ends behind all bots or with the first stream that ends otherwise.
  pub data Walk : ℕ → Option Failed → List Attempt → Option Failed → Type 0 where
    all_passed : (i : ℕ) (error : Option Failed) → length bots ≤ i → Walk i error [] error
    skip :
        (i : ℕ) (token : Text) (error : Option Failed) (more : List Attempt) (e : Option Failed)
        → get_elem? bots i ≡ some token
        → Skipped i token
        → Walk (i + 1) error more e
        → Walk i error more e
    fails :
        (i : ℕ) (token : Text) (error : Option Failed) (x : Failed) (more : List Attempt)
        (e : Option Failed)
        → get_elem? bots i ≡ some token
        → env.stream (i + 1) (bot token) client_is_live ≡ some x
        → is_auth_key_unregistered (some x) ≡ true
        → Walk (i + 1) (some x) more e
        → Walk i error (record { client = bot token; result = some x } ∷ more) e
    ends :
        (i : ℕ) (token : Text) (error r : Option Failed)
        → get_elem? bots i ≡ some token
        → env.stream (i + 1) (bot token) client_is_live ≡ r
        → is_auth_key_unregistered r ≡ false
        → Walk i error (record { client = bot token; result = r } ∷ []) r

  -- Every block from turn `i` on has a cause.
  abbrev pub Caused : ℕ → Map Text ℕ → Type 0
  Caused i m =
      (j : ℕ) (name : Text)
      → i ≤ j
      → is_bot_blocked (env.now j) name m ≡ true
      → (is_bot_blocked (env.now j) name m0 ≡ true) ⊎ Earlier j name

  later-Caused : (i : ℕ) (m : Map Text ℕ) → Caused i m → Caused (i + 1) m
  later-Caused i m c j name le h = c j name (omega arith) h

  block-Caused :
      (i : ℕ) (token : Text) (m : Map Text ℕ)
      → get_elem? bots i ≡ some token
      → Invalid env client_is_live proxies i token
      → Caused i m
      → Caused (i + 1) (block (env.now i) token m)
  unfolding block_bot is_bot_blocked map_set
  block-Caused i token m at bad c j name le h =
      elim (Bool-cases (text_key.same name (bot_id token))) [
        | inl this ↦ inr (record {
          turn = i;
          token = token;
          before = omega arith;
          listed = at;
          same_name = sym ((text_key.same_iff name (bot_id token)).0 this);
          invalid = bad;
        })
        | inr other ↦ c j name (omega arith) (rw (is_bot_blocked, other) at h)
      ]

  skipped :
      (i : ℕ) (token : Text) (m : Map Text ℕ)
      → Caused i m
      → is_bot_blocked (env.now i) (bot_id token) m ≡ true
      → Skipped i token
  skipped i token m c h = elim (c i (bot_id token) (omega arith) h) [
    | inl before ↦ blocked before
    | inr earlier ↦ found_invalid earlier
  ]

  -- A turn, and the loop behind it.
  turn-Walk :
      (i : ℕ) (token : Text) (error : Option Failed) (m : Map Text ℕ) (t rest : Turn)
      → Turned env client_is_live proxies i token error m t
      → get_elem? bots i ≡ some token
      → Caused i m
      → (Caused (i + 1) t.blocks → Walk (i + 1) t.error rest.attempts rest.error)
      → Walk i error
          (or_rest env client_is_live proxies t rest).attempts
          (or_rest env client_is_live proxies t rest).error
  turn-Walk i token error m t rest (held h) at c next =
      skip i token error _ _ at (skipped i token m c h) (next (later-Caused i m c))
  turn-Walk i token error m t rest (unmade e m' h (inl same)) at c next =
      skip i token error _ _ at (no_client e h)
        (next (subst (Caused (i + 1)) (sym same) (later-Caused i m c)))
  turn-Walk i token error m t rest (unmade e m' h (inr (bad, more))) at c next =
      skip i token error _ _ at (no_client e h)
        (next (subst (Caused (i + 1)) (sym more) (block-Caused i token m at bad c)))
  turn-Walk i token error m t rest (failed e made s auth) at c next =
      fails i token error e _ _ at s auth
        (next (block-Caused i token m at (at_stream e made s auth) c))
  turn-Walk i token error m t rest (settled r s other) at c next = ends i token error r at s other

  pub retry_bots-Walk :
      (i : ℕ) (tokens : List Text) (error : Option Failed) (m : Map Text ℕ)
      → i + length tokens ≡ length bots
      → ((j : ℕ) → get_elem? tokens j ≡ get_elem? bots (i + j))
      → Caused i m
      → Walk i error
          (retry_bots env client_is_live proxies i tokens error m).attempts
          (retry_bots env client_is_live proxies i tokens error m).error
  unfolding retry_bots
  retry_bots-Walk i [] error m n at c = all_passed i error (omega (arith, n))
  retry_bots-Walk i (token ∷ tokens) error m n at c =
      let t = retry_bot env client_is_live proxies i token error m in
      turn-Walk i token error m t
        (retry_bots env client_is_live proxies (i + 1) tokens t.error t.blocks)
        (retry_bot-Turned env client_is_live proxies i token error m)
        (sym (at 0 ∙ ap (get_elem? bots) (let e : i + 0 ≡ i = omega arith in e))) c
        (retry_bots-Walk (i + 1) tokens t.error t.blocks (omega (arith, n)) (λ j.
          at (suc j) ∙ ap (get_elem? bots) (let e : i + suc j ≡ i + 1 + j = omega arith in e)))
