-- ===== src/Tgc/Workers/Invariant.antt =====
-- The turn of every user stays within the user's bots.
use teldrive_fork.Base.{
  ℕ, ◌+◌, ◌%◌, ◌<◌, ◌≡◌, refl, sym, List, [], ◌∷◌, length, ◌⊎◌, inl, inr, Option, none, some, true,
  Bool, Text, or_else, ap, ◌∙◌, if◌then◌else◌, Bool-cases, arith, map_set, ◌==◌, ==_iff,
  Option-cases, subst, Map, nat_key,
}
use teldrive_fork.Base.Int.{ℤ, negsuc}
use teldrive_fork.Tgc.Workers.{
  BotWorker, new_bot_worker, set, set_with_proxies, mark_blocked, next, advance,
}
use teldrive_fork.Tgc.Workers.Choice.{next-Choice, Choice, free, busy}

-- The turn points at a bot, or there is none.
abbrev pub TurnFits : List Text → Option ℕ → Type 0
TurnFits bots turn = (length bots ≡ 0) ⊎ (or_else turn 0 < length bots)

abbrev pub IsValid : BotWorker → Type 0
IsValid w =
    (user : ℕ) (bots : List Text) → w.bots user ≡ some bots → TurnFits bots (w.curr_idx user)

pub new_bot_worker-IsValid : (enabled : Bool) → IsValid (new_bot_worker enabled)
unfolding new_bot_worker
new_bot_worker-IsValid enabled user bots h = absurd (ground arith)

first-fits : (bots : List Text) → TurnFits bots (some 0)
first-fits [] = inl refl
first-fits (x ∷ xs) = inr (omega arith)

some-injective : {A : Type 0} {a b : A} → some a ≡ some b → a ≡ b
some-injective h = cc h

-- A user's bots are stored with a turn that fits them.
store-IsValid :
    (bots : List Text) (user : ℕ) (w : BotWorker)
    → IsValid w
    → IsValid (record w { bots = map_set user bots w.bots; curr_idx = map_set user 0 w.curr_idx })
unfolding map_set
store-IsValid bots user w v u bs h = elim (Bool-cases (u == user)) [
  | inl same ↦ rw same (
      subst (λ x. TurnFits x (some 0))
        (some-injective (subst (λ b. (if b then some bots else w.bots u) ≡ some bs) same h))
        (first-fits bots))
  | inr other ↦
      rw other (v u bs (subst (λ b. (if b then some bots else w.bots u) ≡ some bs) other h))
]

-- A user's bots are set once.
pub set_old :
    (bots old : List Text) (user : ℕ) (w : BotWorker) → w.bots user ≡ some old → set bots user w ≡ w
unfolding set
set_old bots old user w e = rw (e, set) refl

pub set_new :
    (bots : List Text) (user : ℕ) (w : BotWorker)
    → w.bots user ≡ none
    → set bots user w
      ≡ record w { bots = map_set user bots w.bots; curr_idx = map_set user 0 w.curr_idx }
unfolding set
set_new bots user w e = rw (e, set) refl

set-IsValid : (bots : List Text) (user : ℕ) (w : BotWorker) → IsValid w → IsValid (set bots user w)
set-IsValid bots user w v = elim (Option-cases (w.bots user)) [
  | inr (old, e) ↦ subst IsValid (sym (set_old bots old user w e)) v
  | inl e ↦ subst IsValid (sym (set_new bots user w e)) (store-IsValid bots user w v)
]

-- The turn moves within the bots.
advance-IsValid :
    (w : BotWorker) (user index : ℕ) (bots : List Text)
    → w.bots user ≡ some bots
    → 0 < length bots
    → IsValid w
    → IsValid (advance user index (length bots) w)
unfolding map_set
advance-IsValid w user index bots b p v u bs h = elim (Bool-cases (u == user)) [
  | inl same ↦
      let e : bots ≡ bs = some-injective (sym b ∙ ap w.bots (sym ((==_iff u user).0 same)) ∙ h) in
      rw same (inr (subst (λ x. (index + 1) % length bots < length x) e (grind arith)))
  | inr other ↦ rw other (v u bs h)
]

-- The operations of the package's one BotWorker, as its clients call them in any order.
pub data Step : BotWorker → BotWorker → Type 0 where
  set_step : (bots : List Text) (user : ℕ) (w : BotWorker) → Step w (set bots user w)
  proxies_step :
      (bots : List Text) (proxies : Map Text Text) (user : ℕ) (w : BotWorker)
      → Step w (set_with_proxies bots proxies user w)
  block_step :
      (now : ℕ) (token : Text) (duration : ℕ) (w : BotWorker)
      → Step w (mark_blocked now token duration w)
  next_step :
      (clock : ℕ → ℕ) (user : ℕ) (w : BotWorker) (token : Text) (index : ℤ) (w' : BotWorker)
      → next clock user w ≡ some (token, index, w')
      → Step w w'

pub data Reachable (enabled : Bool) : BotWorker → Type 0 where
  fresh : Reachable enabled (new_bot_worker enabled)
  step : (w w' : BotWorker) → Reachable enabled w → Step w w' → Reachable enabled w'

-- `Next` on a valid worker answers, with a valid worker.
abbrev pub Answers : BotWorker → Option (Text × ℤ × BotWorker) → Type 0
Answers w out =
    (token : Text) × (index : ℤ) × (w' : BotWorker) × (out ≡ some (token, index, w')) × IsValid w'

Choice-Answers :
    (clock : ℕ → ℕ) (w : BotWorker) (user : ℕ) (bots : List Text) (start : ℕ)
    (out : Option (Text × ℤ × BotWorker))
    → w.bots user ≡ some bots
    → 0 < length bots
    → IsValid w
    → Choice clock w user bots start out
    → Answers w out
Choice-Answers clock w user bots start out b p v (free j l f k e) =
    (_, _, _, refl, advance-IsValid w user ((start + j) % length bots) bots b p v)
Choice-Answers clock w user bots start out b p v (busy token e k) =
    (_, _, _, refl, advance-IsValid w user start bots b p v)

pub next-Answers :
    (clock : ℕ → ℕ) (user : ℕ) (w : BotWorker) → IsValid w → Answers w (next clock user w)
unfolding next
next-Answers clock user w v = elim (Option-cases (w.bots user)) [
  | inl e ↦ rw e ([], negsuc 0, w, refl, v)
  | inr (bots, e) ↦ elim (v user bots e) [
    | inl zero_bots ↦
        let none_left : (length bots == 0) ≡ true = ground arith in
        rw (e, none_left) ([], negsuc 0, w, refl, v)
    | inr fits ↦
        Choice-Answers clock w user bots (or_else (w.curr_idx user) 0) (next clock user w) e
          (omega arith) v (next-Choice clock w user bots e fits)
  ]
]

pub Step-IsValid : (w w' : BotWorker) → IsValid w → Step w w' → IsValid w'
unfolding set_with_proxies mark_blocked
Step-IsValid w _ v (set_step bots user _) = set-IsValid bots user w v
Step-IsValid w _ v (proxies_step bots proxies user _) = set-IsValid bots user _ v
Step-IsValid w _ v (block_step now token duration _) = v
Step-IsValid w _ v (next_step clock user _ token index w' e) =
    let (t, i, w'', e', v') = next-Answers clock user w v in
    let same : w'' ≡ w' = cc (e, e') in subst IsValid same v'
