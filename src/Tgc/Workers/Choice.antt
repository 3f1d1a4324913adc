-- ===== src/Tgc/Workers/Choice.antt =====
-- Which bot `Next` hands out.
use teldrive_fork.Base.{
  ℕ, zero, suc, ◌+◌, ◌%◌, ◌≤◌, ◌<◌, ◌≡◌, ◌==◌, ==_iff, refl, subst, sym, List, [], ◌∷◌, length,
  get_or, get_elem?, Option, none, some, true, false, Text, or_else, Bool-cases, inl, inr, arith,
}
use teldrive_fork.Base.Int.{ℤ, pos}
use teldrive_fork.Tgc.Workers.{
  BotWorker, is_blocked, find_free, next, next_found, next_anyway, advance,
}

get_elem-get_or :
    {A : Type 0} (xs : List A) (i : ℕ) (d : A)
    → i < length xs
    → get_elem? xs i ≡ some (get_or xs i d)
get_elem-get_or [] i d h = absurd (omega arith)
get_elem-get_or (x ∷ xs) zero d h = refl
get_elem-get_or (x ∷ xs) (suc i) d h = get_elem-get_or xs i d (omega arith)

module _ (clock : ℕ → ℕ) (w : BotWorker) (bots : List Text) (start : ℕ) where
  -- The place of the bot that round `i` looks at, and the bot.
  abbrev pub place : ℕ → ℕ
  place i = (start + i) % length bots

  abbrev pub turn : ℕ → Text
  turn i = get_or bots (place i) []

  abbrev pub Blocked : ℕ → Type 0
  Blocked i = is_blocked (clock i) (turn i) w ≡ true

  -- What the loop finds: the first free bot from the start on, or that all are blocked.
  pub data Found (i : ℕ) (count : ℕ) : Option (Text × ℕ) → Type 0 where
    free :
        (j : ℕ)
        → i ≤ j
        → j < i + count
        → is_blocked (clock j) (turn j) w ≡ false
        → ((k : ℕ) → i ≤ k → k < j → Blocked k)
        → Found i count (some (turn j, place j))
    busy : ((k : ℕ) → i ≤ k → k < i + count → Blocked k) → Found i count none

  earlier :
      (i j : ℕ)
      → Blocked i
      → ((k : ℕ) → i + 1 ≤ k → k < j → Blocked k)
      → (k : ℕ) → i ≤ k
      → k < j
      → Blocked k
  earlier i j here later k l h = elim (Bool-cases (i == k)) [
    | inl same ↦ subst Blocked ((==_iff i k).0 same) here
    | inr other ↦ later k (ground arith) h
  ]

  find_free-Found : (count i : ℕ) → Found i count (find_free clock w bots start count i)
  unfolding find_free
  find_free-Found zero i = busy (λ k l h. absurd (omega arith))
  find_free-Found (suc count) i = elim (Bool-cases (is_blocked (clock i) (turn i) w)) [
    | inr here ↦ rw here (free i (omega arith) (omega arith) here (λ k l h. absurd (omega arith)))
    | inl here ↦ rw here (later here (find_free-Found count (i + 1)))
  ]
    where
      later : {o : Option (Text × ℕ)} → Blocked i → Found (i + 1) count o → Found i (suc count) o
      later here (free j l h f b) = free j (omega arith) (omega arith) f (earlier i j here b)
      later here (busy b) =
          busy (λ k l h. earlier i (i + suc count) here (λ k' l' h'. b k' l' (omega arith)) k l h)

-- What `Next` answers for a user whose bots are `bots` and whose turn is `start`.
pub data Choice (clock : ℕ → ℕ) (w : BotWorker) (user : ℕ) (bots : List Text) (start : ℕ)
    : Option (Text × ℤ × BotWorker) → Type 0 where
  free :
      (j : ℕ)
      → j < length bots
      → is_blocked (clock j) (turn clock w bots start j) w ≡ false
      → ((k : ℕ) → k < j → Blocked clock w bots start k)
      → get_elem? bots ((start + j) % length bots) ≡ some (turn clock w bots start j)
      → Choice clock w user bots start (
          some (
            turn clock w bots start j,
            pos ((start + j) % length bots),
            advance user ((start + j) % length bots) (length bots) w,
          ))
  busy :
      (token : Text)
      → get_elem? bots start ≡ some token
      → ((k : ℕ) → k < length bots → Blocked clock w bots start k)
      → Choice clock w user bots start (some (token, pos start, advance user start (length bots) w))

Found-Choice :
    (clock : ℕ → ℕ) (w : BotWorker) (user : ℕ) (bots : List Text) (start : ℕ)
    (o : Option (Text × ℕ))
    → start < length bots
    → Found clock w bots start 0 (length bots) o
    → Choice clock w user bots start (next_found user bots start w o)
Found-Choice clock w user bots start o h (free j l k f b) =
    free j (omega arith) f (λ i q. b i (omega arith) q)
      (get_elem-get_or bots ((start + j) % length bots) [] (grind arith))
Found-Choice clock w user bots start o h (busy b) =
    let here = get_elem-get_or bots start [] h in
    subst (λ x. Choice clock w user bots start (next_anyway user bots start w x)) (sym here)
      (busy (get_or bots start []) here (λ i q. b i (omega arith) (omega arith)))

-- For a user with bots and a turn within them, `Next` hands out the first bot from the turn on
-- that is not blocked when it is looked at, after all those before it in the round were; if every
-- bot is blocked it hands out the bot whose turn it is. Either way the answer is a bot of the
-- user with its index, and the turn moves to the bot behind it.
pub next-Choice :
    (clock : ℕ → ℕ) (w : BotWorker) (user : ℕ) (bots : List Text)
    → w.bots user ≡ some bots
    → or_else (w.curr_idx user) 0 < length bots
    → Choice clock w user bots (or_else (w.curr_idx user) 0) (next clock user w)
unfolding next
next-Choice clock w user bots b h =
    let start = or_else (w.curr_idx user) 0 in
    let some_bots : (length bots == 0) ≡ false = ground arith in
    rw (b, some_bots)
      (Found-Choice clock w user bots start _ h
        (find_free-Found clock w bots start (length bots) 0))
