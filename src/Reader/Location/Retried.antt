-- ===== src/Reader/Location/Retried.antt =====
-- internal/reader/tg_multi_reader.go: a stale location in the cache does not fail a chunk.
use teldrive_fork.Base.{
  ℕ, ◌<◌, ◌≡◌, refl, sym, ap, ◌∙◌, ◌⊎◌, inl, inr, ltb, List, Option, none, some, Bool, true, false,
  ◌&&◌, Bool-cases, Text, arith,
}
use teldrive_fork.Reader.Location.{
  Reply, value, failed, Location, Telegram, Source, Meets, est_reference_perimee, recent, gated,
  location, first_location, other_location, chunk, differs, read_located, known_or_fetched,
  fetched_at, uncached,
}

-- Nothing cancels a call.
pub record Undisturbed (w : Meets) : Type 0 where
  pub before : w.before_error ≡ none
  pub selects : w.select_error ≡ none
  pub gate : w.gate_error ≡ none

-- What the source has fetched since a chunk was started is the current location.
abbrev pub UpToDate : Location → ℕ → Source → Type 0
UpToDate current started s =
    (l : Location) (at : ℕ) → s.last ≡ some (l, at) → started < at → l ≡ current

module _ (t : Telegram) (offset limit : ℕ) (bytes : List ℕ) (current : Location) (started : ℕ)
    (now : t.get_location ≡ value current) (good : t.get_chunk current offset limit ≡ value bytes)
    (answers : (l : Location)
      → (t.get_chunk l offset limit ≡ value bytes)
        ⊎ ((e : Text) × (t.get_chunk l offset limit ≡ failed e)
            × (est_reference_perimee e ≡ true))) where
  recent-current :
      (s : Source) (stale l : Location)
      → UpToDate current started s
      → (last : Option (Location × ℕ)) → s.last ≡ last
      → recent last stale started ≡ some l
      → l ≡ current
  unfolding recent
  recent-current s stale l u none e h = absurd (cc h)
  recent-current s stale l u (some (x, at)) e h =
      elim (Bool-cases (ltb started at && differs x stale)) [
        | inl fresh ↦ let y = rw fresh at h in sym (cc y) ∙ u x at e (ground arith)
        | inr old ↦ let y = rw old at h in absurd (cc y)
      ]

  other-current :
      (s : Source) (stale : Location) (at : ℕ)
      → UpToDate current started s
      → (r : Option Location) → recent s.last stale started ≡ r
      → (old : Bool) × (s' : Source) × (other_location t stale started at s
          ≡ (value (current, old), s'))
  unfolding other_location
  other-current s stale at u none e = (
    false,
    _,
    ap (known_or_fetched t at s (record s { cached = none })) e
        ∙ ap (fetched_at t at (record s { cached = none })) now,
  )
  other-current s stale at u (some l) e = (
    true,
    s,
    ap (known_or_fetched t at s (record s { cached = none })) e
        ∙ ap (λ x. (value (x, true), s)) (recent-current s stale l u s.last refl e),
  )

  fresh :
      (b : Bool) (w : Meets) (s : Source)
      → (read_located t b started offset limit w (value (current, false), s)).0 ≡ value bytes
  fresh b w s = simp good refl

  -- Behind a location of the cache, a chunk is read at once or with a fresh location.
  located :
      (l : Location) (w : Meets) (s : Source)
      → Undisturbed w
      → UpToDate current started (w.others s)
      → (read_located t true started offset limit w (value (l, true), s)).0 ≡ value bytes
  unfolding location gated
  located l w s v u = elim (answers l) [
    | inl fine ↦ simp fine refl
    | inr (e, bad, expired) ↦
        let s' = w.others s in
        let (old, s2, found) = other-current s' l w.done_at u (recent s'.last l started) refl in
        simp (bad, expired, v.before, v.selects, v.gate, found) good
  ]

  module _ (first second : Meets) (calm : Undisturbed first) (calm' : Undisturbed second)
      (keeps : (s : Source)
        → UpToDate current started s
        → UpToDate current started (first.others s))
      (keeps' : (s : Source)
        → UpToDate current started s
        → UpToDate current started (second.others s)) where
    abbrev read : Reply (Location × Bool) × Source → Reply (List ℕ)
    read r = (read_located t true started offset limit second r).0

    first_found :
        (s : Source)
        → UpToDate current started s
        → (c : Option Location) → (first.others s).cached ≡ c
        → (read_located t true started offset limit second (gated t none started first s)).0
          ≡ value bytes
    unfolding gated first_location
    first_found s u none e =
        simp (calm.selects, calm.gate)
          (ap (λ x. read (known_or_fetched t first.done_at (first.others s) (first.others s) x)) e
            ∙ ap (λ x. read (fetched_at t first.done_at (first.others s) x)) now
            ∙ fresh true second _)
    first_found s u (some l) e =
        simp (calm.selects, calm.gate)
          (ap (λ x. read (known_or_fetched t first.done_at (first.others s) (first.others s) x)) e
            ∙ located l second (first.others s) calm' (keeps' (first.others s) (keeps s u)))

    chunk_cached :
        (s : Source)
        → UpToDate current started s
        → (c : Option Location) → s.cached ≡ c
        → (chunk t true started offset limit first second s).0 ≡ value bytes
    unfolding chunk location
    chunk_cached s u none e = simp (calm.before, e) (first_found s u (first.others s).cached refl)
    chunk_cached s u (some l) e = simp (calm.before, e) (located l second s calm' (keeps' s u))

    -- Telegram knows the current location of the part, and answers a location with the chunk's bytes
    -- or with an error that says that the file reference has expired. While nothing is canceled,
    -- `Chunk` returns the bytes, whatever location is in the cache and whatever the other readers
    -- put there meanwhile: an expired one is replaced, and the same range read again. What the
    -- source has fetched itself since the chunk was started has to be the current location.
    pub chunk-value :
        (use_cache : Bool) (s : Source)
        → UpToDate current started s
        → (chunk t use_cache started offset limit first second s).0 ≡ value bytes
    unfolding chunk location
    chunk-value false s u = simp calm.before (
        ap (λ x. (read_located t false started offset limit second (uncached t s x)).0) now
        ∙ fresh false second s)
    chunk-value true s u = chunk_cached s u s.cached refl

-- An error that does not say that the file reference has expired is returned as it is, with no
-- second request, and the cache keeps its entry.
pub chunk-failed :
    (t : Telegram) (offset limit started : ℕ) (first second : Meets) (s : Source) (l : Location)
    (e : Text)
    → Undisturbed first
    → s.cached ≡ some l
    → t.get_chunk l offset limit ≡ failed e
    → est_reference_perimee e ≡ false
    → chunk t true started offset limit first second s ≡ (failed e, s)
unfolding chunk location
chunk-failed t offset limit started first second s l e v c f p = simp (v.before, c, f, p) refl
