-- ===== src/Retry/Bounds.antt =====
-- How often a request is repeated, with what result, and after which delay.
use native.Mathlib.Nat.{one-le-pow, pow-le-pow_right}
use teldrive_fork.Base.{
  ==_iff, ℕ, zero, suc, ◌+◌, ◌-◌, ◌*◌, ◌%◌, ◌^◌, ◌≤◌, ◌<◌, ◌≡◌, refl, sym, subst, ◌==◌, leb, ltb,
  if◌then◌else◌, Option, none, some, true, false, Bool-cases, Option-cases, inl, inr, ◌⊎◌, ◌∙◌, min,
  leb→le, arith,
}
use teldrive_fork.Base.Int.{pos, ltb_ℤ}
use teldrive_fork.Retry.{
  Error, Request, Retry, Environment, Outcome, success, context_ended, skipped, limit_reached,
  retryable, is_read_timeout, new_max, counted, after_error, after_invoke, loop, handle, delay,
  to_int64, three_seconds,
}

module _ (r : Retry) (env : Environment) (input : Request) where
  -- Attempt `i` was made, the context not being over, and failed with an error that is retried.
  abbrev pub Retried : ℕ → Type 0
  Retried i =
      (env.context_error i ≡ none)
      × ((e : Error) × (env.invoke i ≡ some e) × (retryable r input e ≡ true))

  abbrev pub AllRetried : ℕ → ℕ → Type 0
  AllRetried k j = (i : ℕ) → k ≤ i → i < j → Retried i

  -- After `j` attempts no more are allowed: they are as many as the limit, or three and among them is
  -- a read that timed out.
  pub data Spent (max j : ℕ) : Type 0 where
    all_made : j ≡ max → Spent max j
    timed_out :
        (i : ℕ) (e : Error)
        → 3 ≤ j
        → i < j
        → env.invoke i ≡ some e
        → is_read_timeout input e ≡ true
        → Spent max j

  -- The context is over before attempt `j`, at the loop's head or as it waits behind attempt j - 1.
  abbrev pub Over : ℕ → Error → Type 0
  Over j e = (env.context_error j ≡ some e) ⊎ ((i : ℕ) × (j ≡ i + 1) × (env.canceled i ≡ some e))

  -- The error of the last of `j` attempts.
  abbrev pub LastOf : ℕ → Option Error → Type 0
  LastOf j last = ((j ≡ 0) × (last ≡ none)) ⊎ ((i : ℕ) × (j ≡ i + 1) × (last ≡ env.invoke i))

  -- What the loop gives from attempt `k` on, with at most `max` attempts in all. `j` is the number
  -- of its last attempt, or of the one that is not made.
  pub data Ends (k max : ℕ) : Outcome × ℕ → Type 0 where
    succeeded :
        (j calls : ℕ)
        → calls + k ≡ j + 1
        → j < max
        → AllRetried k j
        → env.context_error j ≡ none
        → env.invoke j ≡ none
        → Ends k max (success, calls)
    gave_up :
        (j calls : ℕ) (e : Error)
        → calls + k ≡ j + 1
        → j < max
        → AllRetried k j
        → env.context_error j ≡ none
        → env.invoke j ≡ some e
        → retryable r input e ≡ false
        → Ends k max (skipped e, calls)
    exhausted :
        (j calls : ℕ) (last : Option Error)
        → calls + k ≡ j
        → j ≤ max
        → AllRetried k j
        → Spent max j
        → LastOf j last
        → Ends k max (limit_reached j last, calls)
    interrupted :
        (j calls : ℕ) (e : Error)
        → calls + k ≡ j
        → j ≤ max
        → AllRetried k j
        → Over j e
        → Ends k max (context_ended e, calls)

  nothing-AllRetried : (k j : ℕ) → j ≤ k → AllRetried k j
  nothing-AllRetried k j h i a b = absurd (omega arith)

  first-AllRetried : (k j : ℕ) → Retried k → AllRetried (k + 1) j → AllRetried k j
  first-AllRetried k j f rest i a b = elim (Bool-cases (k == i)) [
    | inl same ↦ subst Retried (let e : k ≡ i = ground arith in e) f
    | inr other ↦ rest i (ground arith) b
  ]

  -- A limit that a timed-out read has lowered is spent for the limit before it, too.
  lowered-Spent :
      (k max j : ℕ) (e : Error)
      → env.invoke k ≡ some e
      → k < j
      → Spent (new_max input e max) j
      → Spent max j
  lowered-Spent k max j e x l (timed_out i e' n m y t) = timed_out i e' n m y t
  lowered-Spent k max j e x l (all_made h) = elim (Bool-cases (is_read_timeout input e)) [
    | inr other ↦ all_made (rw other at h)
    | inl t ↦ elim (Bool-cases (leb max 3)) [
      | inl small ↦ all_made ((rw t at h) ∙ (let z : min max 3 ≡ max = ground arith in z))
      | inr large ↦ timed_out k e (let z = (rw t at h) in ground (arith, z)) l x t
    ]
  ]

  counted-Ends :
      (k max : ℕ) (e : Error) (out : Outcome × ℕ)
      → new_max input e max ≤ max
      → env.invoke k ≡ some e
      → Retried k
      → Ends (k + 1) (new_max input e max) out
      → Ends k max (counted 1 out)
  counted-Ends k max e _ h x f (succeeded j calls c l a y z) =
      succeeded j (1 + calls) (omega arith) (omega arith) (first-AllRetried k j f a) y z
  counted-Ends k max e _ h x f (gave_up j calls x' c l a y z w) =
      gave_up j (1 + calls) x' (omega arith) (omega arith) (first-AllRetried k j f a) y z w
  counted-Ends k max e _ h x f (exhausted j calls last c l a s o) =
      exhausted j (1 + calls) last (omega arith) (omega arith) (first-AllRetried k j f a)
        (lowered-Spent k max j e x (omega arith) s) o
  counted-Ends k max e _ h x f (interrupted j calls x' c l a o) =
      interrupted j (1 + calls) x' (omega arith) (omega arith) (first-AllRetried k j f a) o

  new_max-le : (e : Error) (max : ℕ) → new_max input e max ≤ max
  new_max-le e max = elim (Bool-cases (is_read_timeout input e)) [
    | inl t ↦ rw t (omega arith)
    | inr f ↦ rw f (omega arith)
  ]

  error-Ends :
      (e : Error) (k max : ℕ) (continue : ℕ → Outcome × ℕ)
      → k < max
      → env.context_error k ≡ none
      → env.invoke k ≡ some e
      → ((max' : ℕ) → k + 1 < max' → max' ≤ max → Ends (k + 1) max' (continue max'))
      → Ends k max (counted 1 (after_error r env input e k max continue))
  unfolding after_error
  error-Ends e k max continue h alive x rest =
      let shrinks = new_max-le e max in
      elim (Bool-cases (retryable r input e)) [
        | inr no_retry ↦
            rw no_retry (
              gave_up k 1 e (omega arith) h (nothing-AllRetried k k (omega arith)) alive x no_retry)
        | inl again ↦
            let this : Retried k = (alive, (e, x, again)) in
            let none_left = nothing-AllRetried (k + 1) (k + 1) (omega arith) in
            elim (Bool-cases (leb (new_max input e max) (k + 1))) [
              | inl out_of_tries ↦
                  rw (again, out_of_tries)
                    (exhausted (k + 1) (1 + 0) (some e) (omega arith) (omega arith)
                      (first-AllRetried k (k + 1) this none_left)
                      (out-Spent e k max h x (leb→le _ _ out_of_tries)) (inr (k, refl, sym x)))
              | inr more_tries ↦ elim (Option-cases (env.canceled k)) [
                | inr (c, stops) ↦
                    rw (again, more_tries, stops)
                      (interrupted (k + 1) (1 + 0) c (omega arith) (omega arith)
                        (first-AllRetried k (k + 1) this none_left) (inr (k, refl, stops)))
                | inl goes_on ↦
                    rw (again, more_tries, goes_on)
                      (counted-Ends k max e _ shrinks x this
                        (rest (new_max input e max) (ground arith) shrinks))
              ]
            ]
      ]
    where
      out-Spent :
          (e : Error) (k max : ℕ)
          → k < max
          → env.invoke k ≡ some e
          → new_max input e max ≤ k + 1
          → Spent max (k + 1)
      out-Spent e k max h x l = elim (Bool-cases (is_read_timeout input e)) [
        | inr other ↦ all_made (let z = (rw other at l) in omega (arith, z))
        | inl t ↦ elim (Bool-cases (leb max (k + 1))) [
          | inl all ↦ all_made (ground arith)
          | inr more ↦ timed_out k e (let z = (rw t at l) in ground (arith, z)) (omega arith) x t
        ]
      ]

  loop-Ends :
      (fuel k max : ℕ) (last : Option Error)
      → k ≤ max
      → max ≤ fuel + k
      → LastOf k last
      → Ends k max (loop r env input fuel k max last)
  unfolding loop
  loop-Ends zero k max last h f o =
      exhausted k 0 last (omega arith) h (nothing-AllRetried k k (omega arith))
        (all_made (omega arith)) o
  loop-Ends (suc fuel) k max last h f o = elim (Bool-cases (ltb k max)) [
    | inr spent ↦ rw spent (
        exhausted k 0 last (omega arith) h (nothing-AllRetried k k (omega arith))
          (all_made (ground arith)) o)
    | inl left ↦ elim (Option-cases (env.context_error k)) [
      | inr (c, stops) ↦
          rw (left, stops)
            (interrupted k 0 c (omega arith) h (nothing-AllRetried k k (omega arith)) (inl stops))
      | inl alive ↦ elim (Option-cases (env.invoke k)) [
        | inl fine ↦
            rw (left, alive, fine)
              (succeeded k 1 (omega arith) (ground arith) (nothing-AllRetried k k (omega arith))
                alive fine)
        | inr (e, x) ↦
            rw (left, alive)
              (subst
                (λ o. Ends k max (
                  counted 1 (
                    after_invoke r env input o k max
                      (λ max'. loop r env input fuel (k + 1) max' (env.invoke k)))))
                (sym x)
                (error-Ends e k max _ (ground arith) alive x (λ max' l m.
                  loop-Ends fuel (k + 1) max' (env.invoke k) (omega arith) (omega arith)
                    (inr (k, refl, refl)))))
      ]
    ]
  ]

  -- The middleware makes at most `max` attempts. All but the last are made in a live context and fail
  -- with errors that are retried. It succeeds where the last attempt does, and passes on the last
  -- one's error where that is not retried. It ends with the retry limit, and the last attempt's error,
  -- only after `max` attempts, or after at least three of which one is a read that timed out; and for
  -- the context only with an error that the context has then.
  pub handle-Ends : Ends 0 r.max (handle r env input)
  unfolding handle
  handle-Ends = loop-Ends r.max 0 r.max none (omega arith) (omega arith) (inl (refl, refl))

  -- No more attempts than three, or than lead to the one of number `i`.
  abbrev pub Capped : ℕ → ℕ → Type 0
  Capped i calls = (calls ≤ 3) ⊎ (calls ≤ i + 1)

  calls-le : (k max : ℕ) (out : Outcome × ℕ) → k ≤ max → Ends k max out → out.1 + k ≤ max
  calls-le k max _ h (succeeded j calls c l a y x) = omega arith
  calls-le k max _ h (gave_up j calls x c l a y z w) = omega arith
  calls-le k max _ h (exhausted j calls last c l a s o) = omega arith
  calls-le k max _ h (interrupted j calls x c l a o) = omega arith

  module _ (i : ℕ) (e : Error) (fails : env.invoke i ≡ some e)
      (times_out : is_read_timeout input e ≡ true) where
    -- A timed-out read lowers the limit of what comes after it.
    error-calls-le :
        (max fuel : ℕ)
        → max ≤ suc fuel + i
        → i < max
        → (counted 1 (
                after_error r env input e i max
                  (λ max'. loop r env input fuel (i + 1) max' (env.invoke i)))).1
              + i
            ≤ 3
          ⊎ (counted 1 (
                after_error r env input e i max
                  (λ max'. loop r env input fuel (i + 1) max' (env.invoke i)))).1
              + i
            ≤ i + 1
    unfolding after_error
    error-calls-le max fuel f h =
        let cap : new_max input e max ≤ 3 = rw times_out (omega arith) in
        let shrinks = new_max-le e max in
        elim (Bool-cases (retryable r input e)) [
          | inr no_retry ↦ rw no_retry (inr (omega arith))
          | inl again ↦ elim (Bool-cases (leb (new_max input e max) (i + 1))) [
            | inl out_of_tries ↦ rw (again, out_of_tries) (inr (omega arith))
            | inr more_tries ↦ elim (Option-cases (env.canceled i)) [
              | inr (c, stops) ↦ rw (again, more_tries, stops) (inr (omega arith))
              | inl goes_on ↦
                  let room : i + 1 < new_max input e max = ground arith in
                  let calls =
                    calls-le (i + 1) (new_max input e max)
                      (loop r env input fuel (i + 1) (new_max input e max) (env.invoke i))
                      (omega arith)
                      (loop-Ends fuel (i + 1) (new_max input e max) (env.invoke i) (omega arith)
                        (omega arith) (inr (i, refl, refl))) in
                  rw (again, more_tries, goes_on) (inl (omega (arith, calls, cap)))
            ]
          ]
        ]

    before-calls-le :
        (e' : Error) (k max fuel : ℕ)
        → k < i
        → max ≤ suc fuel + k
        → ((max' : ℕ)
            → max' ≤ fuel + (k + 1)
            → Capped i ((loop r env input fuel (k + 1) max' (env.invoke k)).1 + (k + 1)))
        → Capped i (
            (counted 1 (
              after_error r env input e' k max
                (λ max'. loop r env input fuel (k + 1) max' (env.invoke k)))).1
            + k)
    unfolding after_error
    before-calls-le e' k max fuel h f rest =
        let shrinks = new_max-le e' max in
        elim (Bool-cases (retryable r input e')) [
          | inr no_retry ↦ rw no_retry (inr (omega arith))
          | inl again ↦ elim (Bool-cases (leb (new_max input e' max) (k + 1))) [
            | inl out_of_tries ↦ rw (again, out_of_tries) (inr (omega arith))
            | inr more_tries ↦ elim (Option-cases (env.canceled k)) [
              | inr (c, stops) ↦ rw (again, more_tries, stops) (inr (omega arith))
              | inl goes_on ↦
                  rw (again, more_tries, goes_on)
                    (one_more k
                      (loop r env input fuel (k + 1) (new_max input e' max) (env.invoke k)).1
                      (rest (new_max input e' max) (omega (arith, shrinks))))
            ]
          ]
        ]
      where
        one_more : (k calls : ℕ) → Capped i (calls + (k + 1)) → Capped i (1 + calls + k)
        one_more k calls (inl l) = inl (omega arith)
        one_more k calls (inr l) = inr (omega arith)

    abbrev after : ℕ → ℕ → ℕ → Option Error → ℕ
    after k max fuel o =
        (counted 1 (
          after_invoke r env input o k max
            (λ max'. loop r env input fuel (k + 1) max' (env.invoke k)))).1

    at_read :
        (k max fuel : ℕ)
        → k ≡ i
        → max ≤ suc fuel + k
        → k < max
        → Capped i (after k max fuel (env.invoke k) + k)
    at_read k max fuel same f l =
        subst (λ n. Capped i (after n max fuel (env.invoke n) + n)) (sym same)
          (subst (λ o. Capped i (after i max fuel o + i)) (sym fails)
            (error-calls-le max fuel (omega arith) (omega arith)))

    earlier :
        (k max fuel : ℕ)
        → k < i
        → max ≤ suc fuel + k
        → ((max' : ℕ)
            → max' ≤ fuel + (k + 1)
            → Capped i ((loop r env input fuel (k + 1) max' (env.invoke k)).1 + (k + 1)))
        → (o : Option Error) → env.invoke k ≡ o
        → Capped i (after k max fuel (env.invoke k) + k)
    earlier k max fuel h f rest none x =
        subst (λ o. Capped i (after k max fuel o + k)) (sym x) (inr (omega arith))
    earlier k max fuel h f rest (some e') x =
        subst (λ o. Capped i (after k max fuel o + k)) (sym x)
          (before-calls-le e' k max fuel h f rest)

    loop-calls-le :
        (fuel k max : ℕ) (last : Option Error)
        → k ≤ i
        → max ≤ fuel + k
        → Capped i ((loop r env input fuel k max last).1 + k)
    unfolding loop
    loop-calls-le zero k max last h f = inr (omega arith)
    loop-calls-le (suc fuel) k max last h f = elim (Bool-cases (ltb k max)) [
      | inr spent ↦ rw spent (inr (omega arith))
      | inl left ↦ elim (Option-cases (env.context_error k)) [
        | inr (c, stops) ↦ rw (left, stops) (inr (omega arith))
        | inl alive ↦
            rw (left, alive)
              (elim (Bool-cases (k == i)) [
                | inl same ↦ at_read k max fuel ((==_iff k i).0 same) f (ground arith)
                | inr other ↦
                    earlier k max fuel (ground (arith, other)) f
                      (λ max' g.
                        loop-calls-le fuel (k + 1) max' (env.invoke k) (ground (arith, other)) g)
                      (env.invoke k) refl
              ])
      ]
    ]

    -- Where an attempt would be a read that times out, at most three attempts are made, or none behind
    -- that one, whatever the middleware's limit; and the middleware ends in one of its ways.
    pub read_timeout-calls-le : Capped i (handle r env input).1 × Ends 0 r.max (handle r env input)
    unfolding handle
    read_timeout-calls-le = (
      no_start (loop r env input r.max 0 r.max none).1
          (loop-calls-le r.max 0 r.max none (omega arith) (omega arith)),
      handle-Ends,
    )
      where
        no_start : (n : ℕ) → Capped i (n + 0) → Capped i n
        no_start n (inl l) = inl (omega arith)
        no_start n (inr l) = inr (omega arith)

to_int64_small : (n : ℕ) → n < 2 ^ 63 → to_int64 n ≡ pos n
unfolding to_int64
to_int64_small n h =
    let same : n % 2 ^ 64 ≡ n = omega arith in
    let small : ltb n (2 ^ 63) ≡ true = ground arith in rw (same, small) refl

-- Up to the 36th retry the delay lies between 200 ms and 3 s: no product overflows.
pub delay_bounds :
    (n : ℕ)
    → 1 ≤ n
    → n ≤ 36
    → (d : ℕ) × (delay n ≡ pos d) × (200 * 1000000 ≤ d) × (d ≤ three_seconds)
unfolding delay to_int64
delay_bounds n h k =
    let low : 1 ≤ 2 ^ (n - 1) = one-le-pow (n - 1) 2 (omega arith) in
    let high : 2 ^ (n - 1) ≤ 2 ^ 35 =
      pow-le-pow_right (let z : 0 < 2 = omega arith in z) (let z : n - 1 ≤ 35 = omega arith in z) in
    delays (2 ^ (n - 1)) low high
  where
    delays :
        (p : ℕ)
        → 1 ≤ p
        → p ≤ 2 ^ 35
        → (d : ℕ) × ((if ltb_ℤ (pos three_seconds) (to_int64 (200 * p * 1000000))
              then pos three_seconds
              else to_int64 (200 * p * 1000000))
            ≡ pos d)
          × (200 * 1000000 ≤ d)
          × (d ≤ three_seconds)
    delays p a b =
        rw (to_int64_small (200 * p * 1000000) (omega arith))
          (elim (Bool-cases (ltb_ℤ (pos three_seconds) (pos (200 * p * 1000000)))) [
            | inl long ↦ rw long (three_seconds, refl, omega arith, omega arith)
            | inr short ↦ rw short (200 * p * 1000000, refl, omega arith, ground arith)
          ])
