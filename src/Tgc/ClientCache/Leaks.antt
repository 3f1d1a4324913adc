-- ===== src/Tgc/ClientCache/Leaks.antt =====
-- No client is lost: what leaves the cache is canceled, and what is canceled is not in the cache.
use teldrive_fork.Base.{
  ℕ, ◌<◌, ◌≡◌, refl, sym, subst, ap, ◌∙◌, ◌==◌, List, length, Option, none, some, Bool, true, false,
  not, ◌&&◌, ◌||◌, Text, text_key, Bool-cases, Option-cases, inl, inr, arith,
}
use teldrive_fork.Tgc.ClientCache.{
  Error, Client, Entry, ClientCache, empty_cache, lookup, remove, cached, update, set_ready,
  signal_ready, drop as drop_client, get_live_client, Wake, wait_existing, wait_started, run_ended,
  cancel_all, close_live_clients, idle_entries, reap_idle_clients, add_client, touch, cache_key,
  is_ready, timed_out, canceled_request,
}
use teldrive_fork.Tgc.ClientCache.Entries.{
  Distinct, false-true, cached-idle_none, cached-remove, remove-Distinct, cached-idle_entries,
  idle_entries-Distinct,
}

pub record Sound (s : ClientCache) : Type 0 where
  pub distinct : Distinct s.entries
  pub numbered : (i : ℕ) → cached i s.entries ≡ true → i < s.next
  -- A client that was made is canceled exactly if it is not in the cache.
  pub exact : (i : ℕ) → i < s.next → (s.clients i).canceled ≡ not (cached i s.entries)

empty-Sound : Sound empty_cache
unfolding Distinct cached
empty-Sound = record {
  distinct = tt;
  numbered = λ i h. absurd (ground arith);
  exact = λ i h. absurd (omega arith);
}

-- A change of a client that keeps its flag.
change-Sound :
    (id : ℕ) (f : Client → Client) (s : ClientCache)
    → ((c : Client) → (f c).canceled ≡ c.canceled)
    → Sound s
    → Sound (record s { clients = update id f s.clients })
unfolding update
change-Sound id f s keeps v = record {
  distinct = v.distinct;
  numbered = v.numbered;
  exact = λ i h. elim (Bool-cases (i == id)) [
    | inl here ↦ rw here (keeps (s.clients i) ∙ v.exact i h)
    | inr other ↦ rw other (v.exact i h)
  ];
}

signal_ready-Sound :
    (id : ℕ) (e : Option Error) (s : ClientCache) → Sound s → Sound (signal_ready id e s)
unfolding signal_ready
signal_ready-Sound id e s v = change-Sound id (set_ready e) s keeps v
  where
    keeps : (c : Client) → (set_ready e c).canceled ≡ c.canceled
    keeps c = elim (Option-cases c.ready) [ inl x ↦ rw x refl | inr (y, x) ↦ rw x refl ]

abbrev cancel : Client → Client
cancel c = record c { canceled = true }

abbrev dropped : Text → ℕ → ClientCache → ClientCache
dropped key id s = record s { entries = remove key s.entries; clients = update id cancel s.clients }

drop_none :
    (key : Text) (id : ℕ) (s : ClientCache) → lookup key s.entries ≡ none → drop_client key id s ≡ s
unfolding drop_client
drop_none key id s h = rw (h, drop_client) refl

drop_other :
    (key : Text) (id k : ℕ) (s : ClientCache)
    → lookup key s.entries ≡ some k
    → (k == id) ≡ false
    → drop_client key id s ≡ s
unfolding drop_client
drop_other key id k s h x = rw (h, x, drop_client) refl

drop_found :
    (key : Text) (id k : ℕ) (s : ClientCache)
    → lookup key s.entries ≡ some k
    → (k == id) ≡ true
    → drop_client key id s ≡ dropped key k s
unfolding drop_client
drop_found key id k s h x = rw (h, x, drop_client) refl

and_false : (b : Bool) → (b && false) ≡ false
and_false true = refl
and_false false = refl

and_true : (b : Bool) → (b && true) ≡ b
and_true true = refl
and_true false = refl

left_true : (a b : Bool) → (a && b) ≡ true → a ≡ true
left_true true b h = refl
left_true false b h = h

dropped-Sound :
    (key : Text) (k : ℕ) (s : ClientCache)
    → lookup key s.entries ≡ some k
    → Sound s
    → Sound (dropped key k s)
unfolding update
dropped-Sound key k s h v = record {
  distinct = remove-Distinct key s.entries v.distinct;
  numbered =
      λ i x. v.numbered i (left_true _ _ (sym (cached-remove key k i s.entries v.distinct h) ∙ x));
  exact = λ i x. elim (Bool-cases (i == k)) [
    | inl here ↦
        rw
          (here, cached-remove key k i s.entries v.distinct h, here, and_false (cached i s.entries))
          refl
    | inr other ↦
        rw
          (
            other,
            cached-remove key k i s.entries v.distinct h,
            other,
            and_true (cached i s.entries),
          )
          (v.exact i x)
  ];
}

drop-Sound : (key : Text) (id : ℕ) (s : ClientCache) → Sound s → Sound (drop_client key id s)
drop-Sound key id s v = elim (Option-cases (lookup key s.entries)) [
  | inl h ↦ subst Sound (sym (drop_none key id s h)) v
  | inr (k, h) ↦ elim (Bool-cases (k == id)) [
    | inl x ↦ subst Sound (sym (drop_found key id k s h x)) (dropped-Sound key k s h v)
    | inr x ↦ subst Sound (sym (drop_other key id k s h x)) v
  ]
]

add-Sound :
    (now : ℕ) (key : Text) (s : ClientCache)
    → lookup key s.entries ≡ none
    → Sound s
    → Sound (add_client now key s)
unfolding Distinct cached update
add-Sound now key s h v =
    let unused : cached s.next s.entries ≡ false = elim (Bool-cases (cached s.next s.entries)) [
      | inl x ↦ absurd (let y = v.numbered s.next x in omega arith)
      | inr x ↦ x
    ] in
    record {
      distinct = (h, unused, v.distinct);
      numbered = λ i x. elim (Bool-cases (s.next == i)) [
        | inl here ↦ ground arith
        | inr other ↦
            let old = v.numbered i (subst (λ b. (b || cached i s.entries) ≡ true) other x) in
            omega arith
      ];
      exact = λ i x. elim (Bool-cases (i == s.next)) [
        | inl here ↦ let back : (s.next == i) ≡ true = ground arith in rw (here, back) refl
        | inr other ↦
            let back : (s.next == i) ≡ false = ground arith in
            rw (other, back) (v.exact i (ground arith))
      ];
    }

get-Sound :
    (now : ℕ) (token proxy : Text) (made : Option Error) (s : ClientCache)
    → Sound s
    → Sound (get_live_client now token proxy made s).1
unfolding get_live_client
get-Sound now token proxy made s v = elim (Bool-cases (length token == 0)) [
  | inl empty ↦ rw empty v
  | inr given ↦ elim (Option-cases (lookup (cache_key token proxy) s.entries)) [
    | inr (id, h) ↦ rw (given, h) (change-Sound id (touch now) s (λ c. refl) v)
    | inl h ↦ elim (Option-cases made) [
      | inr (e, m) ↦ rw (given, h, m) v
      | inl m ↦ rw (given, h, m) (add-Sound now (cache_key token proxy) s h v)
    ]
  ]
]

wait_existing-Sound :
    (key : Text) (id : ℕ) (wake : Wake) (s : ClientCache)
    → Sound s
    → Sound (wait_existing key id wake s).1
unfolding wait_existing
wait_existing-Sound key id timed_out s v = v
wait_existing-Sound key id canceled_request s v = v
wait_existing-Sound key id is_ready s v = elim (Option-cases (s.clients id).ready) [
  | inl x ↦ rw (wait_existing, x) v
  | inr (r, x) ↦ elim (Option-cases r) [
    | inl y ↦ rw (wait_existing, x, y) v
    | inr (e, y) ↦ rw (wait_existing, x, y) (drop-Sound key id s v)
  ]
]

wait_started-Sound :
    (key : Text) (id : ℕ) (wake : Wake) (s : ClientCache)
    → Sound s
    → Sound (wait_started key id wake s).1
unfolding wait_started
wait_started-Sound key id timed_out s v = drop-Sound key id s v
wait_started-Sound key id canceled_request s v = v
wait_started-Sound key id is_ready s v = elim (Option-cases (s.clients id).ready) [
  | inl x ↦ rw (wait_started, x) v
  | inr (r, x) ↦ elim (Option-cases r) [
    | inl y ↦ rw (wait_started, x, y) v
    | inr (e, y) ↦ rw (wait_started, x, y) v
  ]
]

-- What the calls of `cancel` leave of the flags.
cancel_all-canceled :
    (es : List Entry) (clients : ℕ → Client) (i : ℕ)
    → (cancel_all es clients i).canceled ≡ (cached i es || (clients i).canceled)
unfolding cancel_all
cancel_all-canceled es clients i = elim (Bool-cases (cached i es)) [
  | inl x ↦ rw x refl
  | inr x ↦ rw x refl
]

or_not : (b : Bool) → (b || not b) ≡ true
or_not true = refl
or_not false = refl

close-Sound : (s : ClientCache) → Sound s → Sound (close_live_clients s)
unfolding close_live_clients Distinct cached
close-Sound s v = record {
  distinct = tt;
  numbered = λ i h. absurd (ground arith);
  exact = λ i h.
      cancel_all-canceled s.entries s.clients i
      ∙ ap (λ b. cached i s.entries || b) (v.exact i h)
      ∙ or_not (cached i s.entries);
}

reap-Sound : (now : ℕ) (s : ClientCache) → Sound s → Sound (reap_idle_clients now s)
unfolding reap_idle_clients
reap-Sound now s v = record {
  distinct = idle_entries-Distinct now s.clients s.entries v.distinct;
  numbered = λ i h. v.numbered i (elim (Bool-cases (cached i s.entries)) [
    | inl x ↦ x
    | inr x ↦ absurd (false-true (sym (cached-idle_none false now s.clients i s.entries x) ∙ h))
  ]);
  exact = λ i h.
      cancel_all-canceled (idle_entries true now s.clients s.entries) s.clients i
      ∙ ap (λ b. cached i (idle_entries true now s.clients s.entries) || b) (v.exact i h)
      ∙ cached-idle_entries now s.clients i s.entries v.distinct;
}

-- The steps that requests, the clients' goroutines and the server take, in any order. A goroutine
-- and a wait name the key and the client that they began with, whatever happened since.
pub data Step (s : ClientCache) : ClientCache → Type 0 where
  get_step :
      (now : ℕ) (token proxy : Text) (made : Option Error)
      → Step s (get_live_client now token proxy made s).1
  existing_step : (key : Text) (id : ℕ) (wake : Wake) → Step s (wait_existing key id wake s).1
  started_step : (key : Text) (id : ℕ) (wake : Wake) → Step s (wait_started key id wake s).1
  signal_step : (id : ℕ) (e : Option Error) → Step s (signal_ready id e s)
  ended_step : (key : Text) (id : ℕ) (e : Option Error) → Step s (run_ended key id e s)
  close_step : Step s (close_live_clients s)
  reap_step : (now : ℕ) → Step s (reap_idle_clients now s)

pub data Reachable : ClientCache → Type 0 where
  at_start : Reachable empty_cache
  then_step : (s s' : ClientCache) → Reachable s → Step s s' → Reachable s'

Step-Sound : (s s' : ClientCache) → Sound s → Step s s' → Sound s'
unfolding run_ended
Step-Sound s _ v (get_step now token proxy made) = get-Sound now token proxy made s v
Step-Sound s _ v (existing_step key id wake) = wait_existing-Sound key id wake s v
Step-Sound s _ v (started_step key id wake) = wait_started-Sound key id wake s v
Step-Sound s _ v (signal_step id e) = signal_ready-Sound id e s v
Step-Sound s _ v (ended_step key id e) = drop-Sound key id _ (signal_ready-Sound id _ s v)
Step-Sound s _ v close_step = close-Sound s v
Step-Sound s _ v (reap_step now) = reap-Sound now s v

-- However the steps of requests, goroutines and the server follow one another, the cache holds at
-- most one client for a key, and a client that was made is canceled exactly if it is not in the
-- cache: none that the cache has lost is left connected.
pub Reachable-Sound : (s : ClientCache) → Reachable s → Sound s
Reachable-Sound _ at_start = empty-Sound
Reachable-Sound _ (then_step s0 s r x) = Step-Sound s0 s (Reachable-Sound s0 r) x
