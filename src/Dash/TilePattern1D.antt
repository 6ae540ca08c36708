-- ===== src/Dash/TilePattern1D.antt =====
-- dash/include/dash/TilePattern1D.h: the pattern of one dimension for tiles. Its members are those of
-- the block pattern, and so is the way between global and local indices; a unit's number of elements
-- is computed without the blocks that do not come out even.
mod Balance
mod Tests
use coronas.Prelude.{ℕ, ◌+◌, ◌*◌, ◌/◌, ◌%◌, Bool, Option, some, ltb, ◌==◌, if◌then◌else◌, ◌>>=◌}
use coronas.Dash.Distribution.{div_ceil, Distribution, local_index_to_block_coord}
use coronas.Dash.BlockPattern1D.{Layout, ViewSpec, LocalIndex}

unfoldable pub unit_at : Layout → ℕ → ℕ
unit_at p global_pos = global_pos / p.blocksize % p.nunits

unfoldable pub local_coords : Layout → ℕ → ℕ
local_coords p g_index =
    let elem_phase = g_index % p.blocksize in
    let g_block_offset = g_index / p.blocksize in
    let l_block_offset = g_block_offset / p.nunits in l_block_offset * p.blocksize + elem_phase

unfoldable pub at : Layout → ℕ → ℕ
at p g_coords = local_coords p g_coords

unfoldable pub local_index : Layout → ℕ → LocalIndex
local_index p g_coords =
    let g_block_index = g_coords / p.blocksize in
    let l_phase = g_coords % p.blocksize in
    let l_block_index = g_block_index / p.nunits in
    let unit = g_block_index % p.nunits in
    let l_index = l_block_index * p.blocksize + l_phase in record { unit = unit; index = l_index }

unfoldable pub local : Layout → ℕ → LocalIndex
local p g_index =
    let g_block_index = g_index / p.blocksize in
    let l_phase = g_index % p.blocksize in
    let l_block_index = g_block_index / p.nunits in
    let unit = g_block_index % p.nunits in
    let l_index = l_block_index * p.blocksize + l_phase in record { unit = unit; index = l_index }

unfoldable pub is_local : Layout → ℕ → ℕ → Bool
is_local p index unit = unit_at p index == unit

unfoldable pub global : Layout → ℕ → ℕ → Option ℕ
global p unit l = if ltb p.nunits 2 then some l else (do
  block_index ← local_index_to_block_coord p.dist.dist_type p.dist.blocksz unit l p.nunits
  some (block_index * p.blocksize + l % p.blocksize))

-- The number of blocks, where the block size is not 0.
unfoldable pub blockspec : Layout → ℕ
blockspec p = div_ceil p.size p.blocksize

unfoldable pub block_at : Layout → ℕ → ℕ
block_at p g_coords = g_coords / p.blocksize

-- The offset is the block's index times the size of the pattern, as in the block pattern.
unfoldable pub block : Layout → ℕ → ViewSpec
block p g_block_index = record { offset = g_block_index * p.size; extent = p.blocksize }

unfoldable pub local_block : Layout → ℕ → ℕ → Option ViewSpec
local_block p myid l_block_index = do
  g_elem_index ← global p myid (l_block_index * p.blocksize)
  some record { offset = g_elem_index; extent = p.blocksize }

unfoldable pub local_block_local : Layout → ℕ → ViewSpec
local_block_local p l_block_index = record {
  offset = l_block_index * p.blocksize;
  extent = p.blocksize;
}

unfoldable pub initialize_local_capacity : Layout → ℕ
initialize_local_capacity p = if p.nunits == 0 then 0 else div_ceil p.nblocks p.nunits * p.blocksize

-- The number of elements of a unit: as many full blocks as every unit has.
unfoldable pub initialize_local_extent : Layout → (unit : ℕ) → ℕ
initialize_local_extent p unit = if p.nunits == 0 then 0 else p.nblocks / p.nunits * p.blocksize
