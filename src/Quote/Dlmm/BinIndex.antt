-- ===== src/Quote/Dlmm/BinIndex.antt =====
-- The place of a bin in the cached arrays.
use engine_mev.Base.{◌<◌, ◌≡◌, arith}
use engine_mev.Base.Int.{ℤ, pos, negsuc, ◌+ℤ◌, ◌-ℤ◌, scale}
use engine_mev.Quote.Dlmm.{array_idx, bin_offset}

-- Every bin id, negative ones included, is 70 times its array's index plus its offset, and the
-- offset is one of the 70 places of an array: the division of the code is the one that rounds down.
pub bin_index_split :
    (id : ℤ) → (bin_offset id < 70) × (scale (array_idx id) 70 +ℤ pos (bin_offset id) ≡ id)
unfolding array_idx bin_offset ◌+ℤ◌ ◌-ℤ◌
bin_index_split (pos n) = ground arith
bin_index_split (negsuc n) = ground arith
