-- ===== src/Reader/Tests.antt =====
-- Concrete runs of the readers, over a source that serves a file of ten bytes in chunks of three.
use teldrive_fork.Base.{
  ℕ, ◌+◌, ◌-◌, ◌<◌, ◌≡◌, refl, List, [], ◌∷◌, get_or, false, take, drop, length, map, concat, some,
  arith, ◌/◌,
}
use teldrive_fork.Reader.Ranges.{Range, calculate_part_byte_ranges}
use teldrive_fork.Reader.Ranges.Cover.{Consecutive, range_bytes, calculate_part_byte_ranges-cover}
use teldrive_fork.Reader.Ranges.Parts.{Present, part_bytes, calculate_part_byte_ranges-parts}
use teldrive_fork.Reader.Linear.{Part, LinearReader, new_linear_reader}
use teldrive_fork.Reader.Linear.Stream.{drain as linear_drain}
use teldrive_fork.Reader.Linear.Plain.{plain, Stored, new_linear_reader-drain}
use teldrive_fork.Reader.TgReader.{eof, ok, ChunkSource, TgReader, new_tg_reader, read}
use teldrive_fork.Reader.TgReader.Invariant.{Reads}
use teldrive_fork.Reader.TgReader.Stream.{drain, new_tg_reader-drain}

abbrev ten : List ℕ
ten = 0 ∷ 1 ∷ 2 ∷ 3 ∷ 4 ∷ 5 ∷ 6 ∷ 7 ∷ 8 ∷ 9 ∷ []

abbrev ten_source : ChunkSource
ten_source = record {
  chunk = λ offset limit. ok (take limit (drop offset ten));
  chunk_size = λ start end. 3;
}

ten-Reads : Reads ten_source ten
ten-Reads = record { chunk_lem = λ offset limit. refl; positive = λ start end. omega arith }

-- The bytes 2 to 7 of parts of four bytes.
ranges_run :
    calculate_part_byte_ranges 2 7 4
    ≡ some (
        record { start = 2; end = 3; part_no = 0 }
        ∷ record { start = 0; end = 3; part_no = 1 }
        ∷ [])
unfolding calculate_part_byte_ranges
ranges_run = refl

calculate_part_byte_ranges-cover_example :
    (rs : List Range) × (calculate_part_byte_ranges 2 7 4 ≡ some rs)
    × Consecutive 4 7 (2 / 4) rs
    × (length rs ≡ 7 / 4 + 1 - 2 / 4)
    × (concat (map (range_bytes 4 ten) rs) ≡ take (7 + 1 - 2) (drop 2 ten))
calculate_part_byte_ranges-cover_example =
    calculate_part_byte_ranges-cover 2 7 4 ten (omega arith) (omega arith)

abbrev ten_parts : List (List ℕ)
ten_parts = (0 ∷ 1 ∷ 2 ∷ 3 ∷ []) ∷ (4 ∷ 5 ∷ 6 ∷ 7 ∷ []) ∷ (8 ∷ 9 ∷ []) ∷ []

calculate_part_byte_ranges-parts_example :
    (rs : List Range) × (calculate_part_byte_ranges 2 9 4 ≡ some rs)
    × Present ten_parts rs
    × (concat (map (part_bytes ten_parts) rs) ≡ take (9 + 1 - 2) (drop 2 (concat ten_parts)))
calculate_part_byte_ranges-parts_example =
    calculate_part_byte_ranges-parts 2 9 4 ten_parts (omega arith) (omega arith) (omega arith)
      (omega arith)

drain_run :
    drain ten_source 9 2 (new_tg_reader ten_source 2 7) ≡ (2 ∷ 3 ∷ 4 ∷ 5 ∷ 6 ∷ 7 ∷ [], some eof)
unfolding drain new_tg_reader read
drain_run = refl

new_tg_reader-drain_example :
    drain ten_source 9 2 (new_tg_reader ten_source 2 7) ≡ (take (7 + 1 - 2) (drop 2 ten), some eof)
new_tg_reader-drain_example =
    new_tg_reader-drain ten_source ten ten-Reads 7 (omega arith) 9 2 2 (omega arith) (omega arith)
      (omega arith)

within_ten : 7 < length ten
within_ten = omega arith

abbrev reader_2 : TgReader
reader_2 = new_tg_reader ten_source 2 7

-- A file of ten bytes in parts of four, each served in chunks of three.
abbrev part_source : ℕ → ChunkSource
part_source id = record {
  chunk = λ offset limit. ok (take limit (drop offset (get_or ten_parts id [])));
  chunk_size = λ start end. 3;
}

part_source-Reads : (id : ℕ) → Reads (part_source id) (get_or ten_parts id [])
part_source-Reads id = record {
  chunk_lem = λ offset limit. refl;
  positive = λ start end. omega arith;
}

abbrev part_of : ℕ → ℕ → Part
part_of id size = record { id = id; size = size; decrypted_size = 0 }

abbrev later_parts : List Part
later_parts = part_of 1 4 ∷ part_of 2 2 ∷ []

ten_parts-Stored : Stored part_source (part_of 0 4 ∷ later_parts) ten_parts
unfolding Stored
ten_parts-Stored = (part_source-Reads 0, (part_source-Reads 1, (part_source-Reads 2, tt)))

new_linear_reader-drain_example :
    (r : LinearReader (plain part_source)) × (new_linear_reader
        (plain part_source)
        false
        (part_of 0 4 ∷ later_parts)
        2
        8
      ≡ ok r)
    × (linear_drain (plain part_source) 12 2 r
        ≡ (take (8 + 1 - 2) (drop 2 (concat ten_parts)), some eof))
new_linear_reader-drain_example =
    new_linear_reader-drain part_source (part_of 0 4) later_parts ten_parts 12 2 2 8
      ten_parts-Stored (omega arith) (omega arith, (omega arith, omega arith)) (omega arith)
      (omega arith) (omega arith) (omega arith)
