-- ===== src/Services/Stream.antt =====
-- pkg/services/file.go: how FilesStream answers a request for a file's content: the status and the
-- range of its head, and the bytes behind it.
pub mod Content
mod Tests
use teldrive_fork.Base.{
  ℕ, ◌+◌, ◌-◌, ◌==◌, ltb, leb, if◌then◌else◌, List, [], ◌∷◌, length, Option, none, some, Bool, true,
  false, ◌||◌, Text,
}
use teldrive_fork.Base.Int.{ℤ, pos, negsuc, ◌-ℤ◌, ◌+ℤ◌}
use teldrive_fork.HttpRange.{Range, Parsed, no_overlap, invalid, panicked, parse}
use teldrive_fork.HttpRange.{ok as parse_ok, err as parse_err}

-- What the handler sends before the content: an answer without one, or the status, the first and the
-- last byte, and the length of the content.
pub data Head : Type 0 where
  gone bad_request no_range many_ranges handler_panicked : Head
  empty : Head
  content : ℕ → ℤ → ℤ → ℤ → Head

-- A part whose message has the id 0.
unfoldable pub has_zero : List ℕ → Bool
has_zero [] = false
has_zero (id ∷ ids) = id == 0 || has_zero ids

abbrev pub head_of : ℕ → ℤ → ℤ → Head
head_of status start end = content status start end (end -ℤ start +ℤ pos 1)

abbrev pub parsed_head : Parsed → Head
parsed_head (parse_err no_overlap) = no_range
parsed_head (parse_err invalid) = bad_request
parsed_head panicked = handler_panicked
parsed_head (parse_ok []) = handler_panicked
parsed_head (parse_ok (r ∷ [])) = head_of 206 r.start r.end
parsed_head (parse_ok (r ∷ (r' ∷ rs))) = many_ranges

abbrev pub range_head : ℕ → Text → Head
range_head size [] = head_of 200 (pos 0) (pos size -ℤ pos 1)
range_head size (c ∷ header) = parsed_head (parse (c ∷ header) size)

abbrev pub sized_head : Option ℕ → Text → Head
sized_head none header = empty
sized_head (some size) header = if size == 0 then empty else range_head size header

-- The head for a file whose parts have these message ids, for a Range header ("" for none).
unfoldable pub stream_head : List ℕ → Option ℕ → Text → Head
unfolding has_zero
stream_head ids size header = if has_zero ids then gone else sized_head size header
