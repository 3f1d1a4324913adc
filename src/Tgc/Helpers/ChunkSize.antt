-- ===== src/Tgc/Helpers/ChunkSize.antt =====
-- The chunk size is the largest power of two from 1 KiB to 1 MiB that the range has room for.
use teldrive_fork.Base.{ℕ, ◌+◌, ◌*◌, ◌%◌, ◌≤◌, ◌<◌, ◌≡◌, ◌⊎◌, arith}
use teldrive_fork.Tgc.Helpers.{calculate_chunk_size, max_chunk_size}

-- The chunk size lies between 1 KiB and 1 MiB and divides 1 MiB, which makes it a power of two. If
-- it is not 1 KiB it is no more than the distance of the range's ends; if it is not 1 MiB its
-- double is more than that.
pub calculate_chunk_size_lem :
    (start end : ℕ)
    → let size = calculate_chunk_size start end in
      (1024 ≤ size)
      × (size ≤ max_chunk_size)
      × (max_chunk_size % size ≡ 0)
      × ((size ≡ 1024) ⊎ (start + size ≤ end))
      × ((size ≡ max_chunk_size) ⊎ (end < start + 2 * size))
unfolding calculate_chunk_size
calculate_chunk_size_lem start end = ground arith
