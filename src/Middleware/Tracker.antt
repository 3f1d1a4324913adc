-- ===== src/Middleware/Tracker.antt =====
-- The tracker counts a client's requests of the last second.
use teldrive_fork.Base.{
  ℕ, ◌+◌, ◌≤◌, ◌<◌, ◌≡◌, ◌⊎◌, refl, sym, subst, ap, ◌∙◌, ltb, if◌then◌else◌, List, [], ◌∷◌, ◌++◌,
  length, Option, none, some, true, false, Text, text_key, map_set, empty_map, append-nil,
  Bool-cases, Option-cases, inl, inr, arith, append_assoc,
}
use teldrive_fork.Middleware.{
  ClientStats, Tracker, second, recent, record_request, cleanup, cleanup_ttl,
}

-- Filtering again at a later time, with what came in between.
recent-append : (now : ℕ) (xs ys : List ℕ) → recent now (xs ++ ys) ≡ recent now xs ++ recent now ys
unfolding recent
recent-append now [] ys = refl
recent-append now (x ∷ xs) ys = elim (Bool-cases (ltb now (x + second))) [
  | inl t ↦ rw t (ap (◌∷◌ x) (recent-append now xs ys))
  | inr f ↦ rw f (recent-append now xs ys)
]

recent-recent :
    (now later : ℕ) (xs : List ℕ) → now ≤ later → recent later (recent now xs) ≡ recent later xs
unfolding recent
recent-recent now later [] h = refl
recent-recent now later (x ∷ xs) h = elim (Bool-cases (ltb now (x + second))) [
  | inl t ↦ elim (Bool-cases (ltb later (x + second))) [
    | inl u ↦ rw (t, u) (ap (◌∷◌ x) (recent-recent now later xs h))
    | inr u ↦ rw (t, u) (recent-recent now later xs h)
  ]
  | inr f ↦
      let gone : ltb later (x + second) ≡ false = ground arith in
      rw (f, gone) (recent-recent now later xs h)
]

abbrev pub requests_of : Option ClientStats → List ℕ
requests_of none = []
requests_of (some s) = s.requests

abbrev pub stored : Tracker → Text → List ℕ
stored rt key = requests_of (rt key)

-- What happens to the tracker: a client's request, or a tick of the cleanup.
pub data Event : Type 0 where
  request : ℕ → Text → Event
  tick : ℕ → Event

abbrev pub time : Event → ℕ
time (request t key) = t
time (tick t) = t

abbrev pub act : Event → Tracker → Tracker
act (request t key) rt = (record_request t key rt).1
act (tick t) rt = cleanup t rt

unfoldable pub run : List Event → Tracker → Tracker
run [] rt = rt
run (e ∷ es) rt = run es (act e rt)

-- The times of all requests of a client.
unfoldable pub times : Text → List Event → List ℕ
times key [] = []
times key (request t k ∷ es) = if text_key.same key k then t ∷ times key es else times key es
times key (tick t ∷ es) = times key es

-- The events come in the order of their times, from one time to another.
unfoldable pub Ordered : ℕ → List Event → ℕ → Type 0
Ordered start [] end = start ≤ end
Ordered start (e ∷ es) end = (start ≤ time e) × Ordered (time e) es end

-- The tracker knows the requests `past` as far as they can still count, after the time `last`.
pub record Tracks (rt : Tracker) (past : Text → List ℕ) (last : ℕ) : Type 0 where
  pub known :
      (key : Text) (now : ℕ) → last ≤ now → recent now (stored rt key) ≡ recent now (past key)
  pub accessed : (key : Text) (s : ClientStats) → rt key ≡ some s → s.last_access ≤ last
  pub fades :
      (key : Text) (s : ClientStats) (now : ℕ)
      → rt key ≡ some s
      → s.last_access + second ≤ now
      → recent now s.requests ≡ []

abbrev pub noted : Event → (Text → List ℕ) → Text → List ℕ
noted (request t k) past key = if text_key.same key k then past key ++ (t ∷ []) else past key
noted (tick t) past key = past key

later-Tracks :
    (rt : Tracker) (past : Text → List ℕ) (last last' : ℕ)
    → last ≤ last'
    → Tracks rt past last
    → Tracks rt past last'
later-Tracks rt past last last' h v = record {
  known = λ key now x. v.known key now (omega arith);
  accessed = λ key s e. let a = v.accessed key s e in omega arith;
  fades = v.fades;
}

cleanup_cases :
    (t : ℕ) (rt : Tracker) (key : Text)
    → (cleanup t rt key ≡ rt key)
      ⊎ ((cleanup t rt key ≡ none)
          × ((s : ClientStats) × (rt key ≡ some s) × (s.last_access + cleanup_ttl < t)))
unfolding cleanup
cleanup_cases t rt key = elim (Option-cases (rt key)) [
  | inl e ↦ inl (rw (cleanup, e) refl)
  | inr (s, e) ↦ elim (Bool-cases (ltb (s.last_access + cleanup_ttl) t)) [
    | inl old ↦ inr (rw (cleanup, e, old) refl, (s, e, ground arith))
    | inr young ↦ inl (rw (cleanup, e, young) refl)
  ]
]

some-cleanup :
    (t : ℕ) (rt : Tracker) (key : Text) (s : ClientStats)
    → cleanup t rt key ≡ some s
    → rt key ≡ some s
some-cleanup t rt key s h = elim (cleanup_cases t rt key) [
  | inl same ↦ sym same ∙ h
  | inr (gone, x) ↦ absurd (ground (arith, sym gone ∙ h))
]

tick-Tracks :
    (rt : Tracker) (past : Text → List ℕ) (last t : ℕ)
    → last ≤ t
    → Tracks rt past last
    → Tracks (cleanup t rt) past t
unfolding recent
tick-Tracks rt past last t h v = record {
  known = λ key now x. elim (cleanup_cases t rt key) [
    | inl same ↦ ap (λ o. recent now (requests_of o)) same ∙ v.known key now (omega arith)
    | inr (gone, (s, e, old)) ↦
        ap (λ o. recent now (requests_of o)) gone
        ∙ sym (v.fades key s now e (omega arith))
        ∙ ap (λ o. recent now (requests_of o)) (sym e)
        ∙ v.known key now (omega arith)
  ];
  accessed = λ key s e. let a = v.accessed key s (some-cleanup t rt key s e) in omega arith;
  fades = λ key s now e x. v.fades key s now (some-cleanup t rt key s e) x;
}

-- The stored requests after one more.
abbrev after_request : ℕ → Text → Tracker → ClientStats
after_request t k rt = record { requests = recent t (stored rt k ++ (t ∷ [])); last_access = t }

record_request-eq :
    (t : ℕ) (k : Text) (rt : Tracker)
    → record_request t k rt
      ≡ (length (after_request t k rt).requests, map_set k (after_request t k rt) rt)
unfolding record_request
record_request-eq t k rt = elim (Option-cases (rt k)) [ inl e ↦ rw e refl | inr (s, e) ↦ rw e refl ]

set_here :
    (k key : Text) (a : ClientStats) (rt : Tracker)
    → text_key.same key k ≡ true
    → map_set k a rt key ≡ some a
unfolding map_set
set_here k key a rt h = rw h refl

set_there :
    (k key : Text) (a : ClientStats) (rt : Tracker)
    → text_key.same key k ≡ false
    → map_set k a rt key ≡ rt key
unfolding map_set
set_there k key a rt h = rw h refl

-- What is stored fades a second after the last time.
stored-fades :
    (rt : Tracker) (past : Text → List ℕ) (last now : ℕ) (k : Text)
    → Tracks rt past last
    → last + second ≤ now
    → recent now (stored rt k) ≡ []
unfolding recent
stored-fades rt past last now k v h = elim (Option-cases (rt k)) [
  | inl e ↦ rw e refl
  | inr (s, e) ↦
      let a = v.accessed k s e in
      ap (λ o. recent now (requests_of o)) e ∙ v.fades k s now e (omega arith)
]

one-faded : (now t : ℕ) → t + second ≤ now → recent now (t ∷ []) ≡ []
unfolding recent
one-faded now t h = let gone : ltb now (t + second) ≡ false = ground arith in rw gone refl

recent-request :
    (now t : ℕ) (xs ys : List ℕ)
    → t ≤ now
    → recent now xs ≡ recent now ys
    → recent now (recent t (xs ++ (t ∷ []))) ≡ recent now (ys ++ (t ∷ []))
recent-request now t xs ys h e =
    recent-recent t now (xs ++ (t ∷ [])) h
    ∙ recent-append now xs (t ∷ [])
    ∙ ap (λ l. l ++ recent now (t ∷ [])) e
    ∙ sym (recent-append now ys (t ∷ []))

request-Tracks :
    (rt : Tracker) (past : Text → List ℕ) (last t : ℕ) (k : Text)
    → last ≤ t
    → Tracks rt past last
    → Tracks (map_set k (after_request t k rt) rt) (noted (request t k) past) t
unfolding recent
request-Tracks rt past last t k h v = record {
  known = λ key now x. elim (Bool-cases (text_key.same key k)) [
    | inl here ↦
        let same_key : k ≡ key = sym ((text_key.same_iff key k).0 here) in
        rw here (
          ap (λ o. recent now (requests_of o)) (set_here k key (after_request t k rt) rt here)
          ∙ recent-request now t (stored rt k) (past key) x
              (ap (λ j. recent now (stored rt j)) same_key ∙ v.known key now (omega arith)))
    | inr other ↦ rw other (
        ap (λ o. recent now (requests_of o)) (set_there k key (after_request t k rt) rt other)
        ∙ v.known key now (omega arith))
  ];
  accessed = λ key s e. elim (Bool-cases (text_key.same key k)) [
    | inl here ↦
        let same_stats : after_request t k rt ≡ s =
          let y = sym (set_here k key (after_request t k rt) rt here) ∙ e in cc y in
        subst (λ c. c.last_access ≤ t) same_stats (omega arith)
    | inr other ↦
        let a = v.accessed key s (sym (set_there k key (after_request t k rt) rt other) ∙ e) in
        omega arith
  ];
  fades = λ key s now e x. elim (Bool-cases (text_key.same key k)) [
    | inl here ↦
        let same_stats : after_request t k rt ≡ s =
          let y = sym (set_here k key (after_request t k rt) rt here) ∙ e in cc y in
        let late : t + second ≤ now =
          subst (λ c. c.last_access + second ≤ now) (sym same_stats) x in
        ap (λ c. recent now c.requests) (sym same_stats)
        ∙ recent-request now t (stored rt k) [] (omega arith)
            (stored-fades rt past last now k v (omega arith))
        ∙ one-faded now t late
    | inr other ↦ v.fades key s now (sym (set_there k key (after_request t k rt) rt other) ∙ e) x
  ];
}

act-Tracks :
    (e : Event) (rt : Tracker) (past : Text → List ℕ) (last : ℕ)
    → last ≤ time e
    → Tracks rt past last
    → Tracks (act e rt) (noted e past) (time e)
act-Tracks (tick t) rt past last h v = tick-Tracks rt past last t h v
act-Tracks (request t k) rt past last h v =
    subst (λ x. Tracks x.1 (noted (request t k) past) t) (sym (record_request-eq t k rt))
      (request-Tracks rt past last t k h v)

same-past :
    (rt : Tracker) (past past' : Text → List ℕ) (last : ℕ)
    → ((key : Text) → past key ≡ past' key)
    → Tracks rt past last
    → Tracks rt past' last
same-past rt past past' last e v = record {
  known = λ key now x. v.known key now x ∙ ap (recent now) (e key);
  accessed = v.accessed;
  fades = v.fades;
}

noted-times :
    (e : Event) (es : List Event) (past : Text → List ℕ) (key : Text)
    → noted e past key ++ times key es ≡ past key ++ times key (e ∷ es)
unfolding times
noted-times (tick t) es past key = refl
noted-times (request t k) es past key = elim (Bool-cases (text_key.same key k)) [
  | inl here ↦ rw here (append_assoc (past key) (t ∷ []) (times key es))
  | inr other ↦ rw other refl
]

run-Tracks :
    (es : List Event) (rt : Tracker) (past : Text → List ℕ) (last end : ℕ)
    → Ordered last es end
    → Tracks rt past last
    → Tracks (run es rt) (λ key. past key ++ times key es) end
unfolding run Ordered times
run-Tracks [] rt past last end o v =
    same-past rt past _ end (λ key. sym (append-nil (past key))) (later-Tracks rt past last end o v)
run-Tracks (e ∷ es) rt past last end o v =
    same-past _ _ _ end (noted-times e es past)
      (run-Tracks es (act e rt) (noted e past) (time e) end o.1 (act-Tracks e rt past last o.0 v))

empty-Tracks : Tracks empty_map (λ key. []) 0
empty-Tracks = record {
  known = λ key now x. refl;
  accessed = λ key s e. absurd (ground arith);
  fades = λ key s now e x. absurd (ground arith);
}

-- How many of some times lie within the second (in nanoseconds) before a time.
unfoldable pub last_second : ℕ → List ℕ → ℕ
last_second now [] = 0
last_second now (t ∷ ts) =
    if ltb now (t + 1000000000) then 1 + last_second now ts else last_second now ts

length-recent : (now : ℕ) (ts : List ℕ) → length (recent now ts) ≡ last_second now ts
unfolding recent last_second
length-recent now [] = refl
length-recent now (t ∷ ts) = elim (Bool-cases (ltb now (t + second))) [
  | inl new ↦ rw new (omega (arith, length-recent now ts))
  | inr old ↦ rw old (length-recent now ts)
]

last_second-append :
    (now : ℕ) (ts us : List ℕ)
    → last_second now (ts ++ us) ≡ last_second now ts + last_second now us
unfolding last_second
last_second-append now [] us = omega arith
last_second-append now (t ∷ ts) us = elim (Bool-cases (ltb now (t + 1000000000))) [
  | inl new ↦ rw new (omega (arith, last_second-append now ts us))
  | inr old ↦ rw old (last_second-append now ts us)
]

-- After any series of requests of any clients and of ticks of the cleanup, in the order of their
-- times, the rate that a client's next request is given is one more than the number of that client's
-- requests in the second before it: neither the pruning of the lists nor the cleanup loses one.
pub record_request-rate :
    (es : List Event) (now : ℕ) (key : Text)
    → Ordered 0 es now
    → (record_request now key (run es empty_map)).0 ≡ last_second now (times key es) + 1
unfolding last_second
record_request-rate es now key o =
    let v = run-Tracks es empty_map (λ k. []) 0 now o empty-Tracks in
    let rt = run es empty_map in
    let this : ltb now (now + 1000000000) ≡ true = ground arith in
    let one : last_second now (now ∷ []) ≡ 1 = rw this refl in
    ap (λ x. x.0) (record_request-eq now key rt)
    ∙ ap length (
        recent-append now (stored rt key) (now ∷ [])
        ∙ ap (λ l. l ++ recent now (now ∷ [])) (v.known key now (omega arith))
        ∙ sym (recent-append now (times key es) (now ∷ [])))
    ∙ length-recent now (times key es ++ (now ∷ []))
    ∙ last_second-append now (times key es) (now ∷ [])
    ∙ ap (λ n. last_second now (times key es) + n) one
