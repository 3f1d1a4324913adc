-- ===== src/Services/Parts.antt =====
-- pkg/services/common.go and internal/tgc/helpers.go: the Telegram messages that hold a file's parts,
-- fetched in batches by goroutines, and the list of parts made from them.
pub mod Batches
pub mod Complete
mod Tests
use teldrive_fork.Base.{
  ℕ, zero, suc, ◌+◌, ◌-◌, ◌*◌, ◌/◌, ◌==◌, min, if◌then◌else◌, List, [], ◌∷◌, ◌++◌, map, take, drop,
  length, get_elem?, Option, none, some, Bool, true, false, Map, empty_map, map_set, nat_key,
  or_else,
}
use teldrive_fork.Base.Int.{pos}
use teldrive_fork.Crypt.Size.{SizeResult, decrypted_size}
use teldrive_fork.Crypt.Size.{ok as size_ok, err as size_err}
use teldrive_fork.Reader.Linear.{Part}

-- What Telegram answers for a batch of ids: messages, or an error. `M` is the type of a message.
pub data Reply (M : Type 0) : Type 0 where
  messages : List M → Reply M
  failed : ℕ → Reply M

-- The results of `GetMessages`; `panicked` is the use of a batch that is not in the map.
pub data Gathered (M : Type 0) : Type 0 where
  all_messages : List M → Gathered M
  fetch_failed : ℕ → Gathered M
  panicked : Gathered M

-- The number of batches of 100, rounded up. A float64 holds the length of a list of parts exactly.
unfoldable pub batch_count : ℕ → ℕ
batch_count n = (n + 99) / 100

unfoldable pub split_ids : List ℕ → ℕ → List ℕ
split_ids ids i = take (min ((i + 1) * 100) (length ids) - i * 100) (drop (i * 100) ids)

module _ {M : Type 0} (fetch : List ℕ → Reply M) (ids : List ℕ) where
  -- One goroutine: its messages go into the map, its error to the group, which keeps the first.
  abbrev pub gather_one : ℕ → Map ℕ (List M) × Option ℕ → Reply M → Map ℕ (List M) × Option ℕ
  gather_one i (found, e) (messages ms) = (map_set i ms found, e)
  gather_one i (found, e) (failed f) = (found, some (or_else e f))

  -- The goroutines, in the order in which they finish.
  unfoldable pub gather : List ℕ → Map ℕ (List M) × Option ℕ → Map ℕ (List M) × Option ℕ
  unfolding map_set split_ids
  gather [] state = state
  gather (i ∷ order) state = gather order (gather_one i state (fetch (split_ids ids i)))

  abbrev pub then_append : Option (List M) → Option (List M) → Option (List M)
  then_append (some ms) (some rest) = some (ms ++ rest)
  then_append _ _ = none

  -- The last loop of `GetMessages`, for `count` batches from one on.
  unfoldable pub append_from : Map ℕ (List M) → ℕ → ℕ → Option (List M)
  append_from found zero i = some []
  append_from found (suc count) i = then_append (found i) (append_from found count (i + 1))

  abbrev pub appended : Option (List M) → Gathered M
  appended (some ms) = all_messages ms
  appended none = panicked

  abbrev pub gathered : Map ℕ (List M) × Option ℕ → Gathered M
  gathered (found, some e) = fetch_failed e
  gathered (found, none) = appended (append_from found (batch_count (length ids)) 0)

  -- `GetMessages` behind the look-up of the channel.
  unfoldable pub get_messages : List ℕ → Gathered M
  unfolding gather append_from batch_count
  get_messages order = gathered (gather order (empty_map, none))

-- The results of `getParts` behind `GetMessages`.
pub data Parts : Type 0 where
  parts_ok : List Part → Parts
  mismatch : Parts
  out_of_range : Parts

abbrev pub size_or_zero : SizeResult → ℕ
size_or_zero (size_ok n) = n
size_or_zero (size_err e) = 0

-- The part made from a document of a size.
unfoldable pub part_of : Bool → ℕ → ℕ → Part
part_of encrypted id size = record {
  id = id;
  size = size;
  decrypted_size = if encrypted then size_or_zero (decrypted_size (pos size)) else 0;
}

abbrev pub then_cons : Option Part → Option (List Part) → Option (List Part)
then_cons (some p) (some ps) = some (p ∷ ps)
then_cons _ _ = none

abbrev pub with_id : Bool → ℕ → Option ℕ → Option Part
with_id encrypted size none = none
with_id encrypted size (some id) = some (part_of encrypted id size)

-- The loop of `getParts` from message `i` on; a message is `none` if it is no document, else its
-- document's size. The result is `none` where `file.Parts[i]` is out of range.
unfoldable pub collect_parts : Bool → List ℕ → ℕ → List (Option ℕ) → Option (List Part)
unfolding part_of
collect_parts encrypted ids i [] = some []
collect_parts encrypted ids i (none ∷ ms) = collect_parts encrypted ids (i + 1) ms
collect_parts encrypted ids i (some size ∷ ms) =
    then_cons (with_id encrypted size (get_elem? ids i)) (collect_parts encrypted ids (i + 1) ms)

abbrev pub counted : List ℕ → Option (List Part) → Parts
counted ids none = out_of_range
counted ids (some parts) = if length parts == length ids then parts_ok parts else mismatch

-- `getParts` for a file whose parts have these ids, on a miss of the cache.
unfoldable pub get_parts : Bool → List ℕ → List (Option ℕ) → Parts
unfolding collect_parts
get_parts encrypted ids ms = counted ids (collect_parts encrypted ids 0 ms)
