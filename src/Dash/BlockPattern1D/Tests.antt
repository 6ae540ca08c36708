-- ===== src/Dash/BlockPattern1D/Tests.antt =====
-- Runs of the pattern on ten elements in blocks of three for two units.
use coronas.Prelude.{ℕ, ◌≤◌, ◌<◌, ◌≡◌, refl, some, arith}
use coronas.Dash.Distribution.{
  div_ceil, max_blocksize_in_range, min_size, min_size, Distribution, dist_blockcyclic,
}
use coronas.Dash.BlockPattern1D.{
  div_ceil, initialize_num_blocks, underfilled_blocksize, max_blocksize_in_range, last_block_unit,
  initialize_local_capacity, at, initialize_blocksize, without_missing, initialize_local_extent,
  layout, block, unit_at, global, Layout,
}
use coronas.Dash.BlockPattern1D.RoundTrip.{global-local, local-global}
use coronas.Dash.BlockPattern1D.Totals.{extents_upto, extents_total}

-- BLOCKCYCLIC(3)
abbrev threes : Distribution
threes = record { dist_type = dist_blockcyclic; blocksz = 3 }

abbrev ten : Layout
ten = record { size = 10; dist = threes; nunits = 2; blocksize = 3; nblocks = 4 }

ten_built : layout 10 threes 2 ≡ some ten
unfolding layout initialize_blocksize max_blocksize_in_range min_size initialize_num_blocks div_ceil
ten_built = refl

ten_elements : initialize_local_extent ten 1 ≡ some 4
unfolding initialize_local_extent without_missing last_block_unit underfilled_blocksize
ten_elements = refl

-- The offset of the view of the block 1 is 10, not 3.
second_offset : (block ten 1).offset ≡ 10
unfolding block
second_offset = refl

global-local_example :
    (unit_at ten 7 < 2)
    × ((e : ℕ) × (initialize_local_extent ten (unit_at ten 7) ≡ some e)
        × (at ten 7 < e)
        × (e ≤ initialize_local_capacity ten))
    × (global ten (unit_at ten 7) (at ten 7) ≡ some 7)
global-local_example = global-local ten ten_built (omega arith) (omega arith) 7 (omega arith)

local-global_example :
    (g : ℕ) × (global ten 1 3 ≡ some g) × (g < 10) × (unit_at ten g ≡ 1) × (at ten g ≡ 3)
local-global_example =
    local-global ten ten_built (omega arith) (omega arith) 1 4 3 (omega arith) ten_elements
      (omega arith)

extents_total_example : extents_upto ten 2 ≡ some 10
extents_total_example = extents_total ten ten_built (omega arith) (omega arith)

-- A tiled pattern of no elements.
abbrev empty : Layout
empty = record { size = 0; dist = threes; nunits = 2; blocksize = 0; nblocks = 0 }

empty_built : layout 0 threes 2 ≡ some empty
unfolding layout initialize_blocksize max_blocksize_in_range min_size initialize_num_blocks div_ceil
empty_built = refl
