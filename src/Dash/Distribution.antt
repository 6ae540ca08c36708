-- ===== src/Dash/Distribution.antt =====
-- dash/include/dash/Distribution.h and `div_ceil` of internal/Math.h. Sizes and indices are
-- natural numbers: the code's index type is signed, and no caller modelled passes a negative one.
-- An exception (DASH_THROW) is `none`.
use coronas.Prelude.{ℕ, ◌+◌, ◌*◌, ◌/◌, ◌%◌, Option, none, some, ltb, if◌then◌else◌}

-- (a / b) + (a % b > 0)
unfoldable pub div_ceil : ℕ → ℕ → ℕ
div_ceil a b = a / b + (if ltb 0 (a % b) then 1 else 0)

pub data DistributionType : Type 0 where
  dist_undefined dist_none dist_blocked dist_cyclic dist_blockcyclic dist_tile : DistributionType

pub record Distribution : Type 0 where
  pub dist_type : DistributionType
  pub blocksz : ℕ

-- The block at a local index of a unit, counted over all units.
unfoldable pub local_index_to_block_coord :
    DistributionType → (blocksz unit_teamspec_coord local_index num_units_in_dim : ℕ) → Option ℕ
local_index_to_block_coord dist_undefined b u l n = none
local_index_to_block_coord dist_none b u l n = some 0
local_index_to_block_coord dist_blocked b u l n = some u
local_index_to_block_coord dist_cyclic b u l n = some (u + l * n)
local_index_to_block_coord dist_blockcyclic b u l n = some (l / b * n + u)
local_index_to_block_coord dist_tile b u l n = some (l / b * n + u)

-- std::min
unfoldable pub min_size : ℕ → ℕ → ℕ
min_size a b = if ltb b a then b else a

-- The largest block of a distribution of `range` elements to `num_units` units.
unfoldable pub max_blocksize_in_range : DistributionType → (blocksz range num_units : ℕ) → Option ℕ
max_blocksize_in_range dist_undefined b range n = none
max_blocksize_in_range dist_none b range n = some range
max_blocksize_in_range dist_blocked b range n = some (div_ceil range n)
max_blocksize_in_range dist_cyclic b range n = some 1
max_blocksize_in_range dist_blockcyclic b range n = some (min_size range b)
max_blocksize_in_range dist_tile b range n = some (min_size range b)
