-- ===== src/Tgc/Run/Trust.antt =====
-- internal/tgc/run.go: for whom the work is done, over any calls one after the other.
use teldrive_fork.Base.{
  ℕ, ◌+◌, ◌==◌, ◌<◌, ◌≡◌, ◌⊎◌, inl, inr, refl, sym, ap, ◌∙◌, List, [], ◌∷◌, length, Option, none,
  some, true, false, Text, Map, text_key, empty_map, map_set, map_delete, arith, Bool-cases,
}
use teldrive_fork.Services.Failure.{Failed, is_auth_key_unregistered}
use teldrive_fork.Tgc.Run.{
  Status, unknown, known, Call, Done, ttl_auth, failed, is_bot, work_with, signed_in, with_status,
  is_recent, connected, run_with_auth,
}

-- The remembered trust after calls, the newest first.
unfoldable pub run : List Call → Map Text ℕ
unfolding run_with_auth
run [] = empty_map
run (c ∷ cs) = (run_with_auth c (run cs)).trusted

-- Telegram says in a call that the session is authorized, at once or after the bot has signed in.
abbrev pub Confirms : Call → Type 0
Confirms c = (c.status ≡ known true) ⊎ ((c.sign_in ≡ none) × (c.again ≡ true))

-- A bot's session was confirmed at time `t`, and no call since then that did its work found the
-- session invalid.
pub data Trusted (token : Text) (t : ℕ) : List Call → Type 0 where
  confirmed :
      (c : Call) (cs : List Call)
      → c.token ≡ token
      → c.stored ≡ t
      → Confirms c
      → is_auth_key_unregistered c.work ≡ false
      → Trusted token t (c ∷ cs)
  kept :
      (c : Call) (cs : List Call)
      → Trusted token t cs
      → (c.token ≡ token
          → (run_with_auth c (run cs)).worked ≡ true
          → is_auth_key_unregistered c.work ≡ false)
      → Trusted token t (c ∷ cs)

-- How a call's work is admitted.
pub data Admitted (cs : List Call) (c : Call) : Type 0 where
  remembered : (t : ℕ) → Trusted c.token t cs → c.asked < t + ttl_auth → Admitted cs c
  authorized : c.status ≡ known true → Admitted cs c
  just_signed_in : is_bot c ≡ true → c.sign_in ≡ none → Admitted cs c

module _ (c : Call) (m : Map Text ℕ) where
  -- What a call does.
  data Ran : Done → Type 0 where
    refused : (e : Failed) → Ran (failed e m)
    by_memory : is_bot c ≡ true → is_recent c (m c.token) ≡ true → Ran (work_with c m)
    by_user : is_bot c ≡ false → c.status ≡ known true → Ran (work_with c m)
    by_bot : is_bot c ≡ true → Confirms c → Ran (work_with c (map_set c.token c.stored m))
    by_sign_in : is_bot c ≡ true → c.sign_in ≡ none → Ran (work_with c m)

  signed_in-Ran : (e : Option Failed) → is_bot c ≡ true → c.sign_in ≡ e → Ran (signed_in c e m)
  signed_in-Ran (some e) b h = refused e
  signed_in-Ran none b h = elim (Bool-cases c.again) [
    | inl again ↦ simp (b, again) (by_bot b (inr (h, again)))
    | inr not_again ↦ simp (b, not_again) (by_sign_in b h)
  ]

  with_status-Ran : (s : Status) → c.status ≡ s → Ran (with_status c s m)
  with_status-Ran (unknown e) h = refused e
  with_status-Ran (known true) h = elim (Bool-cases (is_bot c)) [
    | inl b ↦ simp b (by_bot b (inl h))
    | inr u ↦ simp u (by_user u h)
  ]
  with_status-Ran (known false) h = elim (Bool-cases (is_bot c)) [
    | inl b ↦ simp b (signed_in-Ran c.sign_in b refl)
    | inr u ↦ simp u (refused _)
  ]

  connected-Ran : (e : Option Failed) → Ran (connected c e m)
  connected-Ran (some e) = refused e
  connected-Ran none = elim (Bool-cases (is_bot c)) [
    | inr u ↦ simp u (with_status-Ran c.status refl)
    | inl b ↦ elim (Bool-cases (is_recent c (m c.token))) [
      | inl r ↦ simp (b, r) (by_memory b r)
      | inr o ↦ simp (b, o) (with_status-Ran c.status refl)
    ]
  ]

run_with_auth-Ran : (c : Call) (m : Map Text ℕ) → Ran c m (run_with_auth c m)
unfolding run_with_auth
run_with_auth-Ran c m = connected-Ran c m c.connect

-- A bot that is trusted after the work was so before it, and its own work did not find the session
-- invalid.
work_with-trusted :
    (c : Call) (m : Map Text ℕ) (token : Text) (t : ℕ)
    → (length token == 0) ≡ false
    → (work_with c m).trusted token ≡ some t
    → (m token ≡ some t) × (c.token ≡ token → is_auth_key_unregistered c.work ≡ false)
unfolding work_with map_delete
work_with-trusted c m token t bot h = elim (Bool-cases (is_bot c)) [
  | inr u ↦ ((simp u at h), λ same. absurd (ground (arith, ap (λ s. length s == 0) same, bot, u)))
  | inl b ↦ elim (Bool-cases (is_auth_key_unregistered c.work)) [
    | inr other ↦ ((simp (b, other) at h), λ same. other)
    | inl auth ↦ elim (Bool-cases (text_key.same token c.token)) [
      | inl this ↦ absurd (cc (simp (b, auth, this) at h))
      | inr differs ↦ (
        (simp (b, auth, differs) at h),
        λ same. absurd (cc (sym differs ∙ (text_key.same_iff token c.token).1 (sym same))),
      )
    ]
  ]
]

stored-Trusted :
    (c : Call) (cs : List Call) (token : Text) (t : ℕ)
    → Confirms c
    → (run cs token ≡ some t → Trusted token t cs)
    → map_set c.token c.stored (run cs) token ≡ some t
    → (c.token ≡ token → is_auth_key_unregistered c.work ≡ false)
    → Trusted token t (c ∷ cs)
unfolding map_set
stored-Trusted c cs token t yes_then ih h good = elim (Bool-cases (text_key.same token c.token)) [
  | inl this ↦
      let same = sym ((text_key.same_iff token c.token).0 this) in
      confirmed c cs same (cc (simp this at h)) yes_then (good same)
  | inr differs ↦ kept c cs (ih (simp differs at h)) (λ same w. good same)
]

Ran-Trusted :
    (c : Call) (cs : List Call) (token : Text) (t : ℕ) (r : Done)
    → (length token == 0) ≡ false
    → (run cs token ≡ some t → Trusted token t cs)
    → run_with_auth c (run cs) ≡ r
    → Ran c (run cs) r
    → r.trusted token ≡ some t
    → Trusted token t (c ∷ cs)
Ran-Trusted c cs token t r bot ih e (refused x) h =
    kept c cs (ih h) (λ same w. absurd (cc (sym w ∙ ap (λ d. d.worked) e)))
Ran-Trusted c cs token t r bot ih e (by_memory b s) h =
    let (before, good) = work_with-trusted c (run cs) token t bot h in
    kept c cs (ih before) (λ same w. good same)
Ran-Trusted c cs token t r bot ih e (by_user b s) h =
    let (before, good) = work_with-trusted c (run cs) token t bot h in
    kept c cs (ih before) (λ same w. good same)
Ran-Trusted c cs token t r bot ih e (by_sign_in b s) h =
    let (before, good) = work_with-trusted c (run cs) token t bot h in
    kept c cs (ih before) (λ same w. good same)
Ran-Trusted c cs token t r bot ih e (by_bot b s) h =
    let (before, good) = work_with-trusted c (map_set c.token c.stored (run cs)) token t bot h in
    stored-Trusted c cs token t s ih before good

run-Trusted :
    (cs : List Call) (token : Text) (t : ℕ)
    → (length token == 0) ≡ false
    → run cs token ≡ some t
    → Trusted token t cs
unfolding run
run-Trusted [] token t bot h = absurd (cc h)
run-Trusted (c ∷ cs) token t bot h =
    Ran-Trusted c cs token t (run_with_auth c (run cs)) bot (run-Trusted cs token t bot) refl
      (run_with_auth-Ran c (run cs)) h

recent-Admitted :
    (cs : List Call) (c : Call) (seen : Option ℕ)
    → (length c.token == 0) ≡ false
    → run cs c.token ≡ seen
    → is_recent c seen ≡ true
    → Admitted cs c
recent-Admitted cs c none bot e h = absurd (cc h)
recent-Admitted cs c (some t) bot e h = remembered t (run-Trusted cs c.token t bot e) (ground arith)

Ran-Admitted :
    (cs : List Call) (c : Call) (r : Done) → Ran c (run cs) r → r.worked ≡ true → Admitted cs c
Ran-Admitted cs c r (refused x) h = absurd (cc h)
Ran-Admitted cs c r (by_memory b s) h =
    recent-Admitted cs c (run cs c.token) (ground (arith, b)) refl s
Ran-Admitted cs c r (by_user b s) h = authorized s
Ran-Admitted cs c r (by_bot b (inl s)) h = authorized s
Ran-Admitted cs c r (by_bot b (inr (s, again))) h = just_signed_in b s
Ran-Admitted cs c r (by_sign_in b s) h = just_signed_in b s

-- After any calls of RunWithAuth, when a call does its work, then Telegram has said in this call that
-- the session is authorized; or the bot has just signed in; or the bot's session was confirmed in an
-- earlier call less than ten minutes ago, since when no call of this bot that did its work found the
-- session invalid.
pub run_with_auth-Admitted :
    (cs : List Call) (c : Call) → (run_with_auth c (run cs)).worked ≡ true → Admitted cs c
run_with_auth-Admitted cs c h =
    Ran-Admitted cs c (run_with_auth c (run cs)) (run_with_auth-Ran c (run cs)) h
