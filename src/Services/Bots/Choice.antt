-- ===== src/Services/Bots/Choice.antt =====
-- pkg/services/file.go: which client FilesStream chooses.
use teldrive_fork.Base.{
  ℕ, zero, suc, ◌+◌, ◌==◌, ◌≤◌, ◌<◌, ◌≡◌, ◌≢◌, ◌⊎◌, inl, inr, refl, sym, ap, subst, ◌∙◌, List, [],
  length, Option, none, some, Bool, true, false, not, ◌&&◌, ◌||◌, Text, Map, arith, Bool-cases,
  ==_iff,
}
use teldrive_fork.Base.Int.{ℤ}
use teldrive_fork.Tgc.Workers.{BotWorker, next, set_with_proxies, get_proxy}
use teldrive_fork.Tgc.Workers.Invariant.{IsValid, next-Answers, Step-IsValid, proxies_step}
use teldrive_fork.Tgc.AuthRecovery.{bot_id, is_bot_blocked, get_available_bots}
use teldrive_fork.Services.Failure.{Failed, is_auth_key_unregistered, is_proxy_error}
use teldrive_fork.Services.Bots.{
  Environment, Client, live, bot, user_session, no_client, Bots, user_or_error, without_proxy, made,
  live_or_made, try_bot, try_next, or_go_on, try_bots, or_user, choose,
}

module _ (env : Environment) where
  abbrev pub turn_from : ℕ → ℕ → Bots → Option Client × Bots
  turn_from user i b = try_next env i b (next (env.next_clock i) user b.worker)

  -- The bots before a turn, while no turn before it has ended the loop.
  unfoldable pub after : ℕ → Bots → ℕ → Bots
  after user b zero = b
  after user b (suc i) = (turn_from user i (after user b i)).1

  module _ (user : ℕ) (b0 : Bots) where
    abbrev pub turn : ℕ → Option Client × Bots
    turn i = turn_from user i (after user b0 i)

    -- The bot of a turn whose client works, and is not blocked then.
    pub data Works (i : ℕ) : Client → Type 0 where
      live_works :
          (token : Text) (index : ℤ) (w : BotWorker)
          → next (env.next_clock i) user (after user b0 i).worker ≡ some (token, index, w)
          → is_bot_blocked (env.now i) (bot_id token) (after user b0 i).blocks ≡ false
          → env.client_cache ≡ true
          → env.live_client i token (get_proxy token w) ≡ none
          → Works i (live token)
      bot_works :
          (token : Text) (index : ℤ) (w : BotWorker) (proxy : Text)
          → next (env.next_clock i) user (after user b0 i).worker ≡ some (token, index, w)
          → is_bot_blocked (env.now i) (bot_id token) (after user b0 i).blocks ≡ false
          → (proxy ≡ get_proxy token w) ⊎ (proxy ≡ [])
          → env.bot_client i token proxy ≡ none
          → Works i (bot token)

    -- A turn whose bot is blocked, or has no client that works: neither a live one, if there are such,
    -- nor a new one with its proxy nor, where the proxy fails, one without.
    pub data Fails (i : ℕ) : Type 0 where
      held :
          (token : Text) (index : ℤ) (w : BotWorker)
          → next (env.next_clock i) user (after user b0 i).worker ≡ some (token, index, w)
          → is_bot_blocked (env.now i) (bot_id token) (after user b0 i).blocks ≡ true
          → Fails i
      broken :
          (token : Text) (index : ℤ) (w : BotWorker) (e : Failed)
          → next (env.next_clock i) user (after user b0 i).worker ≡ some (token, index, w)
          → (env.client_cache ≡ false) ⊎ (env.live_client i token (get_proxy token w) ≢ none)
          → env.bot_client i token (get_proxy token w) ≡ some e
          → ((length (get_proxy token w) == 0) ≡ true)
            ⊎ ((is_proxy_error (some e) ≡ false) ⊎ (env.bot_client i token [] ≢ none))
          → Fails i

    -- What the loop has found from a turn on.
    data Tried (lo total : ℕ) : Option Client → Type 0 where
      found :
          (i : ℕ) (c : Client)
          → lo ≤ i
          → i < total
          → (turn i).0 ≡ some c
          → ((j : ℕ) → lo ≤ j → j < i → (turn j).0 ≡ none)
          → Tried lo total (some c)
      nothing : ((i : ℕ) → lo ≤ i → i < total → (turn i).0 ≡ none) → Tried lo total none

    first_none :
        (i j : ℕ) → (turn i).0 ≡ none → i ≤ j → (suc i ≤ j → (turn j).0 ≡ none) → (turn j).0 ≡ none
    first_none i j e lo n = elim (Bool-cases (i == j)) [
      | inl same ↦ subst (λ k. (turn k).0 ≡ none) ((==_iff i j).0 same) e
      | inr other ↦ n (ground arith)
    ]

    go_on-Tried :
        (i total : ℕ) (t rest : Option Client × Bots)
        → turn i ≡ t
        → i < total
        → Tried (suc i) total rest.0
        → Tried i total (or_go_on env t rest).0
    go_on-Tried i total (some c, b) rest e h r =
        found i c (omega arith) h (ap (λ x. x.0) e) (λ j a l. absurd (omega arith))
    go_on-Tried i total (none, b) (_, b') e h (found j c lo hi f before) =
        found j c (omega arith) hi f
          (λ k a l. first_none i k (ap (λ x. x.0) e) a (λ a'. before k a' l))
    go_on-Tried i total (none, b) (_, b') e h (nothing n) =
        nothing (λ j lo hi. first_none i j (ap (λ x. x.0) e) lo (λ a. n j a hi))

    try_bots-Tried :
        (count i total : ℕ)
        → i + count ≡ total
        → Tried i total (try_bots env user count i (after user b0 i)).0
    unfolding try_bots after
    try_bots-Tried zero i total h = nothing (λ j lo hi. absurd (omega arith))
    try_bots-Tried (suc count) i total h = go_on-Tried i total (turn i) _ refl (omega arith) (
        subst (λ k. Tried (suc i) total (try_bots env user count k (after user b0 (suc i))).0)
          (let e : suc i ≡ i + 1 = omega arith in e)
          (try_bots-Tried count (suc i) total (omega arith)))

  made-worker :
      (i : ℕ) (token : Text) (b : Bots) (e : Option Failed)
      → (made env i token b e).1.worker ≡ b.worker
  made-worker i token b none = refl
  made-worker i token b (some e) = elim (Bool-cases (is_auth_key_unregistered (some e))) [
    | inl auth ↦ rw auth refl
    | inr other ↦ rw other refl
  ]

  made-some :
      (i : ℕ) (token : Text) (b : Bots) (e : Option Failed) (c : Client)
      → (made env i token b e).0 ≡ some c
      → (e ≡ none) × (c ≡ bot token)
  made-some i token b none c h = (refl, sym (cc h))
  made-some i token b (some e) c h = elim (Bool-cases (is_auth_key_unregistered (some e))) [
    | inl auth ↦ absurd (cc (rw auth at h))
    | inr other ↦ absurd (cc (rw other at h))
  ]

  live_or_made-worker :
      (i : ℕ) (token : Text) (b : Bots) (proxy : Text) (cached : Bool) (e : Option Failed)
      → (live_or_made env i token b proxy cached e).1.worker ≡ b.worker
  live_or_made-worker i token b proxy true none = refl
  live_or_made-worker i token b proxy true (some e) = made-worker i token b _
  live_or_made-worker i token b proxy false e = made-worker i token b _

  try_bot-worker : (i : ℕ) (token : Text) (b : Bots) → (try_bot env i token b).1.worker ≡ b.worker
  unfolding try_bot
  try_bot-worker i token b =
      elim (Bool-cases (is_bot_blocked (env.now i) (bot_id token) b.blocks)) [
        | inl blocked ↦ simp blocked refl
        | inr free ↦ simp free (live_or_made-worker i token b _ env.client_cache _)
      ]

  try_bot-blocked :
      (i : ℕ) (token : Text) (b : Bots)
      → is_bot_blocked (env.now i) (bot_id token) b.blocks ≡ true
      → (try_bot env i token b).0 ≡ none
  unfolding try_bot
  try_bot-blocked i token b h = simp h refl

  without_proxy-cases :
      (proxy : Text) (P : Option Failed → Type 0) (e again : Option Failed)
      → P (without_proxy env proxy e again)
      → P e ⊎ P again
  without_proxy-cases proxy P e again h =
      elim (Bool-cases (not (length proxy == 0) && is_proxy_error e)) [
        | inl yes_again ↦ inr (rw yes_again at h)
        | inr once ↦ inl (rw once at h)
      ]

  module _ (user : ℕ) (b0 : Bots) (i : ℕ) (token : Text) (index : ℤ) (w : BotWorker)
      (said : next (env.next_clock i) user (after user b0 i).worker ≡ some (token, index, w))
      (free : is_bot_blocked (env.now i) (bot_id token) (after user b0 i).blocks ≡ false) where
    made-Works :
        (b : Bots) (c : Client)
        → (made env i token b (
            without_proxy env
              (get_proxy token w)
              (env.bot_client i token (get_proxy token w))
              (env.bot_client i token []))).0
          ≡ some c
        → Works user b0 i c
    made-Works b c h =
        let proxy = get_proxy token w in
        let (works, this) = made-some i token b _ c h in
        subst (Works user b0 i) (sym this)
          (elim (without_proxy-cases proxy (λ e. e ≡ none) _ _ works) [
            | inl first ↦ bot_works token index w proxy said free (inl refl) first
            | inr again ↦ bot_works token index w [] said free (inr refl) again
          ])

    live_or_made-Works :
        (b : Bots) (c : Client) (cached : Bool) (e : Option Failed)
        → env.client_cache ≡ cached
        → env.live_client i token (get_proxy token w) ≡ e
        → (live_or_made env i token b (get_proxy token w) cached e).0 ≡ some c
        → Works user b0 i c
    live_or_made-Works b c true none p q h =
        subst (Works user b0 i) (cc h) (live_works token index w said free p q)
    live_or_made-Works b c true (some e) p q h = made-Works b c h
    live_or_made-Works b c false e p q h = made-Works b c h

    try_bot-Works :
        (c : Client)
        → (try_bot env i token (record (after user b0 i) { worker = w })).0 ≡ some c
        → Works user b0 i c
    unfolding try_bot
    try_bot-Works c h =
        live_or_made-Works (record (after user b0 i) { worker = w }) c env.client_cache
          (env.live_client i token (get_proxy token w)) refl refl (simp free at h)

  made-none :
      (i : ℕ) (token : Text) (b : Bots) (e : Option Failed)
      → (made env i token b e).0 ≡ none
      → (x : Failed) × (e ≡ some x)
  made-none i token b none h = absurd (cc h)
  made-none i token b (some x) h = (x, refl)

  -- The clients with the proxy and, where that fails, without.
  both_fail :
      (proxy : Text) (e again : Option Failed) (x : Failed)
      → without_proxy env proxy e again ≡ some x
      → (y : Failed) × (e ≡ some y)
        × (((length proxy == 0) ≡ true) ⊎ ((is_proxy_error (some y) ≡ false) ⊎ (again ≢ none)))
  unfolding is_proxy_error
  both_fail proxy none again x h = elim (Bool-cases (length proxy == 0)) [
    | inl no_proxy ↦ absurd (cc (simp no_proxy at h))
    | inr given ↦ absurd (cc (simp given at h))
  ]
  both_fail proxy (some y) again x h = elim (Bool-cases (length proxy == 0)) [
    | inl no_proxy ↦ (y, refl, inl no_proxy)
    | inr given ↦ elim (Bool-cases (is_proxy_error (some y))) [
      | inr other ↦ (y, refl, inr (inl other))
      | inl proxy_failed ↦
          (y, refl, inr (inr (λ fine. absurd (cc (sym fine ∙ (simp (given, proxy_failed) at h))))))
    ]
  ]

  module _ (user : ℕ) (b0 : Bots) (i : ℕ) (token : Text) (index : ℤ) (w : BotWorker)
      (said : next (env.next_clock i) user (after user b0 i).worker ≡ some (token, index, w)) where
    made-Fails :
        (b : Bots)
        → (env.client_cache ≡ false) ⊎ (env.live_client i token (get_proxy token w) ≢ none)
        → (made env i token b (
            without_proxy env
              (get_proxy token w)
              (env.bot_client i token (get_proxy token w))
              (env.bot_client i token []))).0
          ≡ none
        → Fails user b0 i
    made-Fails b no_live h =
        let proxy = get_proxy token w in
        let (x, fails) = made-none i token b _ h in
        let (y, first, again) = both_fail proxy _ _ x fails in
        broken token index w y said no_live first again

    live_or_made-Fails :
        (b : Bots) (cached : Bool) (e : Option Failed)
        → env.client_cache ≡ cached
        → env.live_client i token (get_proxy token w) ≡ e
        → (live_or_made env i token b (get_proxy token w) cached e).0 ≡ none
        → Fails user b0 i
    live_or_made-Fails b true none p q h = absurd (cc h)
    live_or_made-Fails b true (some x) p q h =
        made-Fails b (inr (λ live. absurd (cc (sym q ∙ live)))) h
    live_or_made-Fails b false e p q h = made-Fails b (inl p) h

    try_bot-Fails :
        (try_bot env i token (record (after user b0 i) { worker = w })).0 ≡ none → Fails user b0 i
    unfolding try_bot
    try_bot-Fails h =
        elim (Bool-cases (is_bot_blocked (env.now i) (bot_id token) (after user b0 i).blocks)) [
          | inl there ↦ held token index w said there
          | inr free ↦
              live_or_made-Fails (record (after user b0 i) { worker = w }) env.client_cache
                (env.live_client i token (get_proxy token w)) refl refl (simp free at h)
        ]

  module _ (user : ℕ) (b0 : Bots) where
    after-IsValid : (i : ℕ) → IsValid b0.worker → IsValid (after user b0 i).worker
    unfolding after
    after-IsValid zero v = v
    after-IsValid (suc i) v =
        let b = after user b0 i in
        let (token, index, w, e, v') =
          next-Answers (env.next_clock i) user b.worker (after-IsValid i v) in
        subst IsValid
          (sym (
            ap (λ x. (try_next env i b x).1.worker) e
            ∙ try_bot-worker i token (record b { worker = w })))
          v'

    turn-Works :
        (i : ℕ) (c : Client) → IsValid b0.worker → (turn user b0 i).0 ≡ some c → Works user b0 i c
    turn-Works i c v h =
        let b = after user b0 i in
        let (token, index, w, e, v') =
          next-Answers (env.next_clock i) user b.worker (after-IsValid i v) in
        let at_bot = sym (ap (λ x. (try_next env i b x).0) e) ∙ h in
        elim (Bool-cases (is_bot_blocked (env.now i) (bot_id token) b.blocks)) [
          | inr free ↦ try_bot-Works user b0 i token index w e free c at_bot
          | inl blocked ↦
              absurd (cc (sym (try_bot-blocked i token (record b { worker = w }) blocked) ∙ at_bot))
        ]

    turn-Fails : (i : ℕ) → IsValid b0.worker → (turn user b0 i).0 ≡ none → Fails user b0 i
    turn-Fails i v h =
        let b = after user b0 i in
        let (token, index, w, e, v') =
          next-Answers (env.next_clock i) user b.worker (after-IsValid i v) in
        try_bot-Fails user b0 i token index w e (sym (ap (λ x. (try_next env i b x).0) e) ∙ h)

    -- Why the user's own session streams.
    abbrev pub NoBot : List Text → ℕ → Type 0
    NoBot tokens count =
        ((env.disable_stream_bots || length tokens == 0) ≡ true)
        ⊎ ((i : ℕ) → i < count → Fails user b0 i)

    -- What FilesStream streams with, for so many bots that were not blocked at the start.
    pub data Chosen (tokens : List Text) (count : ℕ) : Client → Type 0 where
      by_bot :
          (i : ℕ) (c : Client)
          → i < count
          → Works user b0 i c
          → ((j : ℕ) → j < i → Fails user b0 j)
          → Chosen tokens count c
      by_user : NoBot tokens count → env.user_client ≡ none → Chosen tokens count user_session
      refused :
          (e : Failed)
          → NoBot tokens count
          → env.user_client ≡ some e
          → Chosen tokens count (no_client e)

    user-Chosen :
        (tokens : List Text) (count : ℕ) (e : Option Failed)
        → NoBot tokens count
        → env.user_client ≡ e
        → Chosen tokens count (user_or_error env e)
    user-Chosen tokens count none n h = by_user n h
    user-Chosen tokens count (some e) n h = refused e n h

    Tried-Chosen :
        (tokens : List Text) (count : ℕ) (r : Option Client × Bots)
        → IsValid b0.worker
        → Tried user b0 0 count r.0
        → Chosen tokens count (or_user env r).0
    Tried-Chosen tokens count (_, b) v (found i c lo hi h before) =
        by_bot i c hi (turn-Works i c v h) (λ j l. turn-Fails j v (before j (omega arith) l))
    Tried-Chosen tokens count (_, b) v (nothing n) =
        user-Chosen tokens count env.user_client (inr (λ i h. turn-Fails i v (n i (omega arith) h)))
          refl

-- FilesStream streams with the first bot that works of those that the worker hands out in its turns,
-- of which there are as many as bots were not blocked at the start. A bot works if it is not blocked
-- in its turn and has a client: a live one of the cache, or a new one with its proxy or without. In
-- every turn before, the bot was blocked, or neither a live client, where these are used, nor a new
-- one could be had. Only if bots are disabled or there are none, or if all turns fail in that way,
-- it streams with the user's session, or answers with the error of making a client for it.
pub choose-Chosen :
    (env : Environment) (clock : ℕ → ℕ) (tokens : List Text) (proxies : Map Text Text) (user : ℕ)
    (b : Bots)
    → IsValid b.worker
    → Chosen env user
        (record b { worker = set_with_proxies tokens proxies user b.worker })
        tokens
        (length (get_available_bots clock tokens b.blocks))
        (choose env clock tokens proxies user b).0
unfolding choose after
choose-Chosen env clock tokens proxies user b v =
    let w = set_with_proxies tokens proxies user b.worker in
    let b' = record b { worker = w } in
    let count = length (get_available_bots clock tokens b.blocks) in
    let v' : IsValid w = Step-IsValid b.worker w v (proxies_step tokens proxies user b.worker) in
    elim (Bool-cases (env.disable_stream_bots || length tokens == 0)) [
      | inl off ↦ simp off (user-Chosen env user b' tokens count env.user_client (inl off) refl)
      | inr on ↦ elim (Bool-cases (count == 0)) [
        | inl none_left ↦
            simp (on, none_left)
              (user-Chosen env user b' tokens count env.user_client
                (inr (λ i h. absurd (ground arith))) refl)
        | inr some_left ↦
            simp (on, some_left)
              (Tried-Chosen env user b' tokens count (try_bots env user count 0 b') v'
                (try_bots-Tried env user b' count 0 count (omega arith)))
      ]
    ]
