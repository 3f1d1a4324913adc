-- ===== src/Services/Stream/Tests.antt =====
-- Requests for a file of ten bytes in parts of four.
use teldrive_fork.Base.{
  ℕ, ◌+◌, ◌-◌, ◌==◌, ◌≡◌, refl, List, [], ◌∷◌, take, drop, length, concat, some, false,
  if◌then◌else◌, Text, arith,
}
use teldrive_fork.Base.Int.{pos}
use teldrive_fork.HttpRange.{parse, after_equals, parse_values, parse_int, digits, range_of, clamp}
use teldrive_fork.Tgc.AuthRecovery.{split}
use teldrive_fork.Reader.TgReader.{eof, ok, ChunkSource}
use teldrive_fork.Reader.TgReader.Invariant.{Reads}
use teldrive_fork.Reader.Linear.{Part, LinearReader, new_linear_reader}
use teldrive_fork.Reader.Linear.Stream.{drain}
use teldrive_fork.Reader.Linear.Plain.{plain, Stored}
use teldrive_fork.Services.Stream.{gone, no_range, content, stream_head}
use teldrive_fork.Services.Stream.Content.{Announces, stream_head-Announces, stream_head-drain}

abbrev ten_parts : List (List ℕ)
ten_parts = (0 ∷ 1 ∷ 2 ∷ 3 ∷ []) ∷ (4 ∷ 5 ∷ 6 ∷ 7 ∷ []) ∷ (8 ∷ 9 ∷ []) ∷ []

abbrev part_source : ℕ → ChunkSource
part_source id = record {
  chunk = λ offset limit. ok (
      take limit (
        drop offset (
          if id == 1
          then 0 ∷ 1 ∷ 2 ∷ 3 ∷ []
          else if id == 2
          then 4 ∷ 5 ∷ 6 ∷ 7 ∷ []
          else 8 ∷ 9 ∷ [])));
  chunk_size = λ start end. 3;
}

abbrev part_1 : Part
part_1 = record { id = 1; size = 4; decrypted_size = 0 }

abbrev others : List Part
others =
    record { id = 2; size = 4; decrypted_size = 0 }
    ∷ record { id = 3; size = 2; decrypted_size = 0 }
    ∷ []

abbrev Served : (id : ℕ) (x : List ℕ) → Type 0
Served id x = Reads (part_source id) x

part_reads_1 : Served 1 (0 ∷ 1 ∷ 2 ∷ 3 ∷ [])
part_reads_1 = record { chunk_lem = λ o l. refl; positive = λ s e. omega arith }

part_reads_2 : Served 2 (4 ∷ 5 ∷ 6 ∷ 7 ∷ [])
part_reads_2 = record { chunk_lem = λ o l. refl; positive = λ s e. omega arith }

part_reads_3 : Served 3 (8 ∷ 9 ∷ [])
part_reads_3 = record { chunk_lem = λ o l. refl; positive = λ s e. omega arith }

ten-Stored : Stored part_source (part_1 ∷ others) ten_parts
unfolding Stored
ten-Stored = (part_reads_1, (part_reads_2, (part_reads_3, tt)))

-- "bytes=2-6"
abbrev bytes_2_6 : Text
bytes_2_6 = b'b' ∷ b'=' ∷ b'2' ∷ b'-' ∷ b'6' ∷ []

head_run : stream_head (1 ∷ 2 ∷ 3 ∷ []) (some 10) bytes_2_6 ≡ content 206 (pos 2) (pos 6) (pos 5)
unfolding stream_head parse after_equals parse_values parse_int digits range_of clamp split
head_run = refl

heads :
    (stream_head (1 ∷ 0 ∷ []) (some 10) [] ≡ gone)
    × (stream_head [] (some 10) [] ≡ content 200 (pos 0) (pos 9) (pos 10))
    × (stream_head [] (some 2) bytes_2_6 ≡ no_range)
unfolding stream_head parse after_equals parse_values parse_int digits range_of clamp split
heads = (refl, refl, refl)

stream_head-Announces_example : Announces 10 (stream_head (1 ∷ []) (some 10) bytes_2_6)
stream_head-Announces_example = stream_head-Announces (1 ∷ []) 10 bytes_2_6

stream_head-drain_example :
    (s : ℕ) × (e : ℕ) × (pos 2 ≡ pos s)
    × (pos 6 ≡ pos e)
    × (r : LinearReader (plain part_source)) × (new_linear_reader
          (plain part_source)
          false
          (part_1 ∷ others)
          s
          e
        ≡ ok r)
    × (drain (plain part_source) 30 2 r ≡ (take (e + 1 - s) (drop s (concat ten_parts)), some eof))
    × (pos 5 ≡ pos (length (take (e + 1 - s) (drop s (concat ten_parts)))))
stream_head-drain_example =
    stream_head-drain part_source part_1 others ten_parts (1 ∷ 2 ∷ 3 ∷ []) bytes_2_6 30 2 206
      (pos 2) (pos 6) (pos 5) ten-Stored (omega arith) (omega arith) (omega arith) (omega arith)
      head_run
