-- ===== src/Crypt/Size/Cover.antt =====
-- The underlying range that is asked for holds the blocks of the plain range.
use teldrive_fork.Base.{ℕ, ◌+◌, ◌-◌, ◌*◌, ◌%◌, ◌^◌, ◌≤◌, ◌<◌, ◌≡◌, ◌⊎◌, arith}
use teldrive_fork.Base.Int.{pos}
use teldrive_fork.Crypt.Size.{
  blocks_to_read, block_data_size, block_size, file_header_size, calculate_underlying,
}

-- Enough blocks, at least one, and no more than are needed.
pub blocks_to_read_lem :
    (discard limit : ℕ)
    → discard < block_data_size
    → (discard + limit ≤ blocks_to_read discard limit * block_data_size)
      × (1 ≤ blocks_to_read discard limit)
      × ((blocks_to_read discard limit ≡ 1)
          ⊎ ((blocks_to_read discard limit - 1) * block_data_size < discard + limit))
unfolding blocks_to_read
blocks_to_read_lem d l h = ground arith

-- A plain range of `limit` bytes from `offset`, both below 2 ^ 61, is read from the start of the block
-- that holds `offset`, of which `discard` bytes are skipped. The range that is read is a number of
-- whole blocks that reaches the end of the plain range, and with a block less (but for the first) it
-- would not. The numbers fit an int64, so that no step of the calculation wraps.
pub calculate_underlying_covers :
    (offset limit : ℕ)
    → offset < 2 ^ 61
    → limit < 2 ^ 61
    → let u = calculate_underlying offset (pos limit) in
      let count = blocks_to_read u.discard limit in
      (u.blocks * block_data_size + u.discard ≡ offset)
      × (u.discard < block_data_size)
      × (u.offset ≡ file_header_size + u.blocks * block_size)
      × (u.limit ≡ pos (count * block_size))
      × (offset + limit ≤ (u.blocks + count) * block_data_size)
      × ((count ≡ 1) ⊎ ((u.blocks + count - 1) * block_data_size < offset + limit))
      × (u.offset + count * block_size < 2 ^ 63)
unfolding calculate_underlying
calculate_underlying_covers o l h k = ground (arith, blocks_to_read_lem (o % block_data_size) l)
