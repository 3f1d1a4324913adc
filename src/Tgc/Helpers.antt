-- ===== src/Tgc/Helpers.antt =====
-- internal/tgc/helpers.go: the size of the chunks that a file is fetched in.
pub mod ChunkSize
use teldrive_fork.Base.{ℕ, zero, suc, ◌+◌, ◌*◌, ◌/◌, ltb, if◌then◌else◌, ◌&&◌}

abbrev pub max_chunk_size : ℕ
max_chunk_size = 1024 * 1024

-- The loop of `CalculateChunkSize`, on fuel. `end < start + size` is `size > end - start` in
-- signed numbers.
unfoldable pub halve : ℕ → ℕ → ℕ → ℕ → ℕ
halve zero start end size = size
halve (suc fuel) start end size =
    let rest = halve fuel start end (size / 2) in
    if ltb 1024 size && ltb end (start + size) then rest else size

-- `CalculateChunkSize`: ten rounds lead from 1 MiB to 1 KiB.
unfoldable pub calculate_chunk_size : ℕ → ℕ → ℕ
unfolding halve
calculate_chunk_size start end = halve 11 start end max_chunk_size
