-- ===== src/Reader/Ranges.antt =====
-- internal/reader/reader.go: which bytes of which part make up a byte range of a file.
pub mod Cover
pub mod Parts
use teldrive_fork.Base.{
  ℕ, zero, suc, ◌+◌, ◌-◌, ◌*◌, ◌/◌, ◌==◌, min, if◌then◌else◌, List, [], ◌∷◌, Option, none, some,
}

-- `Range`; `end` is the last byte, inclusive.
pub record Range : Type 0 where
  pub start : ℕ
  pub end : ℕ
  pub part_no : ℕ

-- The body of the loop. On ℕ `-` stops at 0, as max(start-part*partSize, 0) does.
abbrev pub part_range : ℕ → ℕ → ℕ → ℕ → Range
part_range start end part_size part = record {
  start = start - part * part_size;
  end = min (part_size - 1) (end - part * part_size);
  part_no = part;
}

-- The loop, for `count` parts from `part` on.
unfoldable pub part_ranges : ℕ → ℕ → ℕ → ℕ → ℕ → List Range
part_ranges start end part_size zero part = []
part_ranges start end part_size (suc count) part =
    part_range start end part_size part ∷ part_ranges start end part_size count (part + 1)

-- `calculatePartByteRanges`; `none` is the panic of a division by a part size of 0.
unfoldable pub calculate_part_byte_ranges : ℕ → ℕ → ℕ → Option (List Range)
unfolding part_ranges
calculate_part_byte_ranges start end part_size =
    let start_part = start / part_size in
    let end_part = end / part_size in
    if part_size == 0
    then none
    else some (part_ranges start end part_size (end_part + 1 - start_part) start_part)
