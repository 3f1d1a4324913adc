-- ===== src/Services/Fallback/Ends.antt =====
-- pkg/services/file.go: which streams FilesStream tries, and how it ends.
use teldrive_fork.Base.{
  ℕ, ◌⊎◌, ap, ◌+◌, ◌==◌, ◌≡◌, inl, inr, refl, List, [], ◌∷◌, ◌++◌, get_elem?, length, Option, none,
  some, true, false, ◌||◌, Text, Map, arith, Bool-cases,
}
use teldrive_fork.Tgc.AuthRecovery.{get_available_bots}
use teldrive_fork.Services.Bots.{Client, user_session}
use teldrive_fork.Services.Failure.{
  Failed, is_auth_key_unregistered, is_message_ids_empty, is_file_parts_mismatch,
}
use teldrive_fork.Services.Fallback.{
  Environment, Attempt, Turn, Served, token_of, is_live, block, retry_bots, by_user, last_resort,
  serve,
}
use teldrive_fork.Services.Fallback.Loop.{Walk, retry_bots-Walk}

module _ (env : Environment) (proxies : Map Text Text) (tokens : List Text) (client : Client)
    (m : Map Text ℕ) where
  abbrev pub first : Attempt
  first = record { client = client; result = env.stream 0 client (is_live client) }

  -- The bots that are left, after the bot of the first stream was blocked.
  abbrev pub left : List Text
  left = get_available_bots env.clock tokens (block env.failed_at (token_of client) m)

  abbrev pub user_result : Option Failed
  user_result = env.stream (length left + 1) user_session (is_live client)

  -- The blocked bots, with the bot of the first stream.
  abbrev pub blocked_bots : Map Text ℕ
  blocked_bots = block env.failed_at (token_of client) m

  -- The first stream was a bot's and failed with AUTH_KEY_UNREGISTERED, the file's messages not being
  -- gone, and the other bots are gone through.
  abbrev pub Tries : List Attempt → Option Failed → Type 0
  Tries more e =
      ((is_message_ids_empty first.result || is_file_parts_mismatch first.result) ≡ false)
      × ((length (token_of client) == 0) ≡ false)
      × (is_auth_key_unregistered first.result ≡ true)
      × Walk env (is_live client) proxies blocked_bots left 0 first.result more e

  -- How the request can end. The file is deleted for the first stream's error alone. A walk through
  -- the bots that are left ends with a stream that does not fail with AUTH_KEY_UNREGISTERED; or it
  -- passes all of them, and the user's session is the last to stream, or its client cannot be made.
  pub data Ends : Served → Type 0 where
    orphan :
        (is_message_ids_empty first.result || is_file_parts_mismatch first.result) ≡ true
        → Ends (record { deleted = true; error = first.result; blocks = m; attempts = first ∷ [] })
    no_retry :
        (is_message_ids_empty first.result || is_file_parts_mismatch first.result) ≡ false
        → (length (token_of client) ≡ 0) ⊎ (is_auth_key_unregistered first.result ≡ false)
        → Ends (record { deleted = false; error = first.result; blocks = m; attempts = first ∷ [] })
    by_bot :
        (more : List Attempt) (e : Option Failed) (blocks : Map Text ℕ)
        → Tries more e
        → is_auth_key_unregistered e ≡ false
        → Ends (record { deleted = false; error = e; blocks = blocks; attempts = first ∷ more })
    by_session :
        (more : List Attempt) (e : Option Failed) (blocks : Map Text ℕ)
        → Tries more e
        → is_auth_key_unregistered e ≡ true
        → env.user_client ≡ none
        → Ends (record {
          deleted = false;
          error = user_result;
          blocks = blocks;
          attempts =
              first ∷ (more ++ (record { client = user_session; result = user_result } ∷ []));
        })
    exhausted :
        (more : List Attempt) (e : Option Failed) (blocks : Map Text ℕ) (u : Failed)
        → Tries more e
        → is_auth_key_unregistered e ≡ true
        → env.user_client ≡ some u
        → Ends (record { deleted = false; error = e; blocks = blocks; attempts = first ∷ more })

  by_user-Ends :
      (r : Turn) (u : Option Failed)
      → Tries r.attempts r.error
      → is_auth_key_unregistered r.error ≡ true
      → env.user_client ≡ u
      → Ends (
          by_user env
            (is_live client)
            proxies
            (length left)
            (record r { attempts = first ∷ r.attempts })
            u)
  by_user-Ends r none c auth h = by_session r.attempts r.error r.blocks c auth h
  by_user-Ends r (some u) c auth h = exhausted r.attempts r.error r.blocks u c auth h

  last_resort-Ends :
      (r : Turn)
      → Tries r.attempts r.error
      → Ends (
          last_resort env
            (is_live client)
            proxies
            (length left)
            (record r { attempts = first ∷ r.attempts }))
  unfolding last_resort
  last_resort-Ends r c = elim (Bool-cases (is_auth_key_unregistered r.error)) [
    | inl auth ↦ simp auth (by_user-Ends r env.user_client c auth refl)
    | inr other ↦ simp other (by_bot r.attempts r.error r.blocks c other)
  ]

-- FilesStream's stream of a file's content with the client that was chosen ends in one of these ways.
-- The file is deleted, exactly if the first stream's error says that its messages are gone. Or the
-- first stream is the only one: it did not fail with AUTH_KEY_UNREGISTERED, or it was not a bot's.
-- Or the bots that are not blocked then are gone through, one a turn: a bot is passed over only if it
-- was blocked before, if an earlier turn found the session of a bot of its name invalid, or if its
-- client cannot be made; else it streams. The first stream that does not fail with
-- AUTH_KEY_UNREGISTERED is the last, and its error, if any, is the end's. If no bot gives one, the
-- user's session streams last, and its error is the end's; if its client cannot be made, the error of
-- the last stream is.
pub serve-Ends :
    (env : Environment) (proxies : Map Text Text) (tokens : List Text) (client : Client)
    (m : Map Text ℕ)
    → Ends env proxies tokens client m (serve env proxies tokens client m)
unfolding serve
serve-Ends env proxies tokens client m =
    let e = env.stream 0 client (is_live client) in
    let m' = blocked_bots env proxies tokens client m in
    let others = left env proxies tokens client m in
    let r = retry_bots env (is_live client) proxies 0 others e m' in
    elim (Bool-cases (is_message_ids_empty e || is_file_parts_mismatch e)) [
      | inl gone ↦ simp gone (orphan gone)
      | inr there ↦ elim (Bool-cases (is_auth_key_unregistered e)) [
        | inr other ↦ simp (there, other) (no_retry there (inr other))
        | inl auth ↦ elim (Bool-cases (length (token_of client) == 0)) [
          | inl no_token ↦ simp (there, auth, no_token) (no_retry there (inl (ground arith)))
          | inr token ↦
              simp (there, auth, token)
                (last_resort-Ends env proxies tokens client m r (
                  there,
                  token,
                  auth,
                  retry_bots-Walk env (is_live client) proxies m' others 0 others e m' (omega arith)
                      (λ j. ap (get_elem? others) (let z : j ≡ 0 + j = omega arith in z))
                      (λ j name le h. inl h),
                ))
        ]
      ]
    ]
