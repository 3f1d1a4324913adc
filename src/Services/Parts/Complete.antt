-- ===== src/Services/Parts/Complete.antt =====
-- pkg/services/common.go: the list of parts is complete, or `getParts` fails.
use teldrive_fork.Base.{ℕ, ◌<◌, ◌≡◌, ◌≢◌, List, [], ◌∷◌, map, length, Option, some, Bool}
use teldrive_fork.Reader.Linear.{Part}
use teldrive_fork.Services.Parts.{Parts, parts_ok, mismatch, part_of}

-- Each id with the size of its document.
unfoldable pub paired : Bool → List ℕ → List ℕ → List Part
paired encrypted [] sizes = []
paired encrypted (id ∷ ids) [] = []
paired encrypted (id ∷ ids) (size ∷ sizes) = part_of encrypted id size ∷ paired encrypted ids sizes

-- What the loop has made of the messages from `i` on.
data Collected (encrypted : Bool) (ids : List ℕ) (ms : List (Option ℕ))
    : Option (List Part) → Type 0 where
  complete :
      (sizes : List ℕ)
      → ms ≡ map (λ s. some s) sizes
      → Collected encrypted ids ms (some (paired encrypted ids sizes))
  short :
      (parts : List Part)
      → length parts < length ms
      → ((sizes : List ℕ) → ms ≢ map (λ s. some s) sizes)
      → Collected encrypted ids ms (some parts)

-- What `getParts` answers for one message for each part.
pub data Answered (encrypted : Bool) (ids : List ℕ) (ms : List (Option ℕ)) : Parts → Type 0 where
  all_there :
      (sizes : List ℕ)
      → ms ≡ map (λ s. some s) sizes
      → Answered encrypted ids ms (parts_ok (paired encrypted ids sizes))
  refused : ((sizes : List ℕ) → ms ≢ map (λ s. some s) sizes) → Answered encrypted ids ms mismatch
