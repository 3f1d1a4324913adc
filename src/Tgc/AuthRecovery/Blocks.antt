-- ===== src/Tgc/AuthRecovery/Blocks.antt =====
-- The lists of blocked datacenters and bots.
use teldrive_fork.Base.{
  ℕ, ◌+◌, ◌≤◌, ◌≡◌, ◌≢◌, refl, sym, ap, ◌∙◌, if◌then◌else◌, List, [], ◌∷◌, ◌++◌, Option, none, some,
  Bool, true, false, ltb, Text, Map, arith, Bool-cases, Option-cases, inl, inr, text_key, nat_key,
  ◌==◌, ==_iff, map_delete,
}
use teldrive_fork.Tgc.AuthRecovery.{
  is_dc_blocked, is_bot_blocked, cleanup_expired, split, extract_bot_id, available_from, bot_id,
}

-- Removing the expired blocks changes no later answer.
pub cleanup_keeps_answers :
    (now later : ℕ) (bot : Text) (m : Map Text ℕ)
    → now ≤ later
    → is_bot_blocked later bot (cleanup_expired now m) ≡ is_bot_blocked later bot m
unfolding is_bot_blocked cleanup_expired
cleanup_keeps_answers now later bot m h = elim (Option-cases (m bot)) [
  | inl e ↦ rw (is_bot_blocked, e) refl
  | inr (t, e) ↦ elim (Bool-cases (ltb t now)) [
    | inl gone ↦
        let expired : ltb t later ≡ true = ground arith in
        rw (is_bot_blocked, e, gone, expired) refl
    | inr kept ↦ rw (is_bot_blocked, e, kept) refl
  ]
]

-- Whether an entry still blocks.
abbrev live : ℕ → Option ℕ → Bool
live now none = false
live now (some unblock) = if ltb unblock now then false else true

dc_answer : (now dc : ℕ) (m : Map ℕ ℕ) → (is_dc_blocked now dc m).0 ≡ live now (m dc)
unfolding is_dc_blocked
dc_answer now dc m = elim (Option-cases (m dc)) [
  | inl e ↦ rw (is_dc_blocked, e) refl
  | inr (t, e) ↦ elim (Bool-cases (ltb t now)) [
    | inl gone ↦ rw (is_dc_blocked, e, gone) refl
    | inr kept ↦ rw (is_dc_blocked, e, kept) refl
  ]
]

dc_map :
    (now later dc other : ℕ) (m : Map ℕ ℕ)
    → now ≤ later
    → live later ((is_dc_blocked now dc m).1 other) ≡ live later (m other)
unfolding is_dc_blocked map_delete
dc_map now later dc other m h = elim (Option-cases (m dc)) [
  | inl e ↦ rw (is_dc_blocked, e) refl
  | inr (t, e) ↦ elim (Bool-cases (ltb t now)) [
    | inr kept ↦ rw (is_dc_blocked, e, kept) refl
    | inl gone ↦ elim (Bool-cases (other == dc)) [
      | inr differs ↦ rw (is_dc_blocked, e, gone, differs) refl
      | inl same ↦
          let expired : ltb t later ≡ true = ground arith in
          let there : m other ≡ some t = ap m ((==_iff other dc).0 same) ∙ e in
          rw (is_dc_blocked, e, gone, same, there, expired) refl
    ]
  ]
]

-- `IsDCBlocked` deletes only what is expired: no datacenter gets another answer at that time or
-- later.
is_dc_blocked-keeps :
    (now later dc other : ℕ) (m : Map ℕ ℕ)
    → now ≤ later
    → (is_dc_blocked later other (is_dc_blocked now dc m).1).0 ≡ (is_dc_blocked later other m).0
is_dc_blocked-keeps now later dc other m h =
    dc_answer later other (is_dc_blocked now dc m).1
    ∙ dc_map now later dc other m h
    ∙ sym (dc_answer later other m)

-- Which tokens `GetAvailableBots` lets through.
pub data Picks (clock : ℕ → ℕ) (m : Map Text ℕ) : ℕ → List Text → List Text → Type 0 where
  none_left : (i : ℕ) → Picks clock m i [] []
  picked :
      (i : ℕ) (token : Text) (tokens out : List Text)
      → is_bot_blocked (clock i) (bot_id token) m ≡ false
      → Picks clock m (i + 1) tokens out
      → Picks clock m i (token ∷ tokens) (token ∷ out)
  passed :
      (i : ℕ) (token : Text) (tokens out : List Text)
      → is_bot_blocked (clock i) (bot_id token) m ≡ true
      → Picks clock m (i + 1) tokens out
      → Picks clock m i (token ∷ tokens) out

available_from-Picks :
    (clock : ℕ → ℕ) (i : ℕ) (tokens : List Text) (m : Map Text ℕ)
    → Picks clock m i tokens (available_from clock i tokens m)
unfolding available_from
available_from-Picks clock i [] m = none_left i
available_from-Picks clock i (token ∷ tokens) m =
    elim (Bool-cases (is_bot_blocked (clock i) (bot_id token) m)) [
      | inl b ↦ rw b (passed i token tokens _ b (available_from-Picks clock (i + 1) tokens m))
      | inr f ↦ rw f (picked i token tokens _ f (available_from-Picks clock (i + 1) tokens m))
    ]

-- A text without the separator.
unfoldable pub Plain : ℕ → Text → Type 0
Plain sep [] = Unit
Plain sep (c ∷ s) = (c ≢ sep) × Plain sep s

split-Plain : (sep : ℕ) (s : Text) → Plain sep s → split sep s ≡ s ∷ []
unfolding split Plain
split-Plain sep [] p = refl
split-Plain sep (c ∷ s) (ne, p) =
    let other : (c == sep) ≡ false = ground arith in rw (other, split-Plain sep s p) refl

split-append :
    (sep : ℕ) (s rest : Text) → Plain sep s → split sep (s ++ (sep ∷ rest)) ≡ s ∷ split sep rest
unfolding split Plain
split-append sep [] rest p = let same : (sep == sep) ≡ true = ground arith in rw same refl
split-append sep (c ∷ s) rest (ne, p) =
    let other : (c == sep) ≡ false = ground arith in rw (other, split-append sep s rest p) refl

-- From a session key, three parts without colons joined by colons, the bot's id comes back.
extract_bot_id-key :
    (kind instance_name bot : Text)
    → Plain b':' kind
    → Plain b':' instance_name
    → Plain b':' bot
    → extract_bot_id (kind ++ (b':' ∷ (instance_name ++ (b':' ∷ bot)))) ≡ bot
unfolding extract_bot_id
extract_bot_id-key kind instance_name bot pk pi pb =
    rw
      (split-append b':' kind _ pk, split-append b':' instance_name bot pi, split-Plain b':' bot pb)
      refl
