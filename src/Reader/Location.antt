-- ===== src/Reader/Location.antt =====
-- internal/reader/tg_multi_reader.go: `chunkSource`, which gets a chunk of a part from Telegram and
-- caches where the part lies there. Telegram's answers are a parameter; so is what the other readers
-- of the same cache do while a call waits at the gate.
pub mod Retried
mod Tests
use teldrive_fork.Base.{
  ℕ, ◌+◌, ◌-◌, ◌==◌, ltb, leb, if◌then◌else◌, List, [], ◌∷◌, map, Option, none, some, Bool, true,
  false, ◌&&◌, ◌||◌, not, Text, text_key, KeyTest,
}
use teldrive_fork.Retry.{contains}

pub data Reply {ℓ} (A : Type ℓ) : Type ℓ where
  value : A → Reply A
  failed : Text → Reply A

-- `tg.InputDocumentFileLocation`
pub record Location : Type 0 where
  pub id : ℕ
  pub access_hash : ℕ
  pub file_reference : Text
  pub thumb_size : Text

-- `tgc.GetLocation` for the part, and `tgc.GetChunk`, of one client.
pub record Telegram : Type 0 where
  pub get_location : Reply Location
  pub get_chunk : Location → ℕ → ℕ → Reply (List ℕ)

-- `cached` is the cache's entry for the part, `none` also for a stored nil. `last` is `lastLocation`
-- with `lastLocationAt`.
pub record Source : Type 0 where
  pub cached : Option Location
  pub last : Option (Location × ℕ)

-- What a call of `location` meets: the context's error at the start, at the select and behind it, the
-- changes by others up to when it has the gate, and the time when its own fetch is done.
pub record Meets : Type 0 where
  pub before_error : Option Text
  pub select_error : Option Text
  pub gate_error : Option Text
  pub others : Source → Source
  pub done_at : ℕ

-- strings.ToUpper, of ASCII text
unfoldable pub to_upper : Text → Text
to_upper [] = []
to_upper (c ∷ s) = (if leb 97 c && leb c 122 then c - 32 else c) ∷ to_upper s

-- "FILE_REFERENCE"
abbrev pub file_reference_text : Text
file_reference_text = 70 ∷ 73 ∷ 76 ∷ 69 ∷ 95 ∷ 82 ∷ 69 ∷ 70 ∷ 69 ∷ 82 ∷ 69 ∷ 78 ∷ 67 ∷ 69 ∷ []

-- `estReferencePerimee`, of the text of an error
unfoldable pub est_reference_perimee : Text → Bool
unfolding to_upper contains
est_reference_perimee message = contains (to_upper message) file_reference_text

unfoldable pub differs : Location → Location → Bool
differs a b =
    not (a.id == b.id)
    || (not (a.access_hash == b.access_hash)
        || (not (text_key.same a.thumb_size b.thumb_size)
            || not (text_key.same a.file_reference b.file_reference)))

-- The reference that this source has fetched since the chunk was started, if it is another one.
unfoldable pub recent : Option (Location × ℕ) → Location → ℕ → Option Location
unfolding differs
recent none stale started = none
recent (some (l, at)) stale started = if ltb started at && differs l stale then some l else none

module _ (t : Telegram) where
  abbrev pub fetched_at : ℕ → Source → Reply Location → Reply (Location × Bool) × Source
  fetched_at at s (failed e) = (failed e, s)
  fetched_at at s (value l) = (value (l, false), record { cached = some l; last = some (l, at) })

  abbrev pub known_or_fetched :
      ℕ → Source → Source → Option Location → Reply (Location × Bool) × Source
  known_or_fetched at s s' (some l) = (value (l, true), s)
  known_or_fetched at s s' none = fetched_at at s' t.get_location

  -- The part of `location` that has the gate, for a first location and for one in place of a stale,
  -- which is deleted from the cache.
  unfoldable pub first_location : ℕ → Source → Reply (Location × Bool) × Source
  first_location at s = known_or_fetched at s s s.cached

  unfoldable pub other_location : Location → ℕ → ℕ → Source → Reply (Location × Bool) × Source
  other_location stale started at s =
      known_or_fetched at s (record s { cached = none }) (recent s.last stale started)

  abbrev at_gate : Option Location → ℕ → Meets → Source → Reply (Location × Bool) × Source
  at_gate none started w s = first_location w.done_at s
  at_gate (some stale) started w s = other_location stale started w.done_at s

  abbrev unless :
      Option Text → Source → Reply (Location × Bool) × Source → Reply (Location × Bool) × Source
  unless (some e) s r = (failed e, s)
  unless none s r = r

  -- `location` from the gate on.
  unfoldable pub gated : Option Location → ℕ → Meets → Source → Reply (Location × Bool) × Source
  unfolding first_location other_location
  gated stale started w s =
      let s' = w.others s in
      unless w.select_error s (unless w.gate_error s' (at_gate stale started w s'))

  abbrev cached_or_gated :
      Option Location → ℕ → Meets → Source → Option Location → Reply (Location × Bool) × Source
  cached_or_gated none started w s (some l) = (value (l, true), s)
  cached_or_gated stale started w s _ = gated stale started w s

  abbrev pub uncached : Source → Reply Location → Reply (Location × Bool) × Source
  uncached s (failed e) = (failed e, s)
  uncached s (value l) = (value (l, false), s)

  -- `location`; the Boolean of its result says that the location may be an old one.
  unfoldable pub location :
      Bool → Option Location → ℕ → Meets → Source → Reply (Location × Bool) × Source
  unfolding gated
  location use_cache stale started w s =
      unless w.before_error s (
        if use_cache then cached_or_gated stale started w s s.cached else uncached s t.get_location)

  abbrev read_again : ℕ → ℕ → Reply (Location × Bool) × Source → Reply (List ℕ) × Source
  read_again offset limit (failed e, s) = (failed e, s)
  read_again offset limit (value (l, old), s) = (t.get_chunk l offset limit, s)

  abbrev read_or_retry :
      Bool → ℕ → ℕ → ℕ → Meets → Source → Location → Bool → Reply (List ℕ) → Reply (List ℕ) × Source
  read_or_retry use_cache started offset limit w s l old (value chunk) = (value chunk, s)
  read_or_retry use_cache started offset limit w s l old (failed e) =
      if old && est_reference_perimee e
      then read_again offset limit (location use_cache (some l) started w s)
      else (failed e, s)

  abbrev pub read_located :
      Bool → ℕ → ℕ → ℕ → Meets → Reply (Location × Bool) × Source → Reply (List ℕ) × Source
  read_located use_cache started offset limit w (failed e, s) = (failed e, s)
  read_located use_cache started offset limit w (value (l, old), s) =
      read_or_retry use_cache started offset limit w s l old (t.get_chunk l offset limit)

  -- `Chunk`, started at some time; `first` and `second` are what its two calls of `location` meet.
  unfoldable pub chunk : Bool → ℕ → ℕ → ℕ → Meets → Meets → Source → Reply (List ℕ) × Source
  unfolding location est_reference_perimee
  chunk use_cache started offset limit first second s =
      read_located use_cache started offset limit second (location use_cache none started first s)
