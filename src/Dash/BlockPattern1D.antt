-- ===== src/Dash/BlockPattern1D.antt =====
-- dash/include/dash/BlockPattern1D.h: `Pattern` in one dimension, which distributes the indices
-- 0, 1, ... of an array to the units of a team in blocks, the blocks to the units in turn.
-- Sizes and indices are natural numbers, a view is its offset and extent, and a point of the one
-- dimension is its index. `none` is an exception of the distribution, or the trap of a division
-- by 0. The methods that divide by the block size with no check of their own suppose, as the code
-- does, that there is a block (the library's `n / 0` is 0).
pub mod Extent
pub mod Coords
pub mod Bounds
pub mod RoundTrip
pub mod Totals
pub mod Construction
pub mod Traps
pub mod Views
mod Tests
use coronas.Prelude.{
  ℕ, ◌+◌, ◌-◌, ◌*◌, ◌/◌, ◌%◌, Bool, ◌&&◌, Option, none, some, ltb, ◌==◌, if◌then◌else◌, ◌>>=◌,
}
use coronas.Dash.Distribution.{
  div_ceil, Distribution, local_index_to_block_coord, max_blocksize_in_range,
}

-- The members the constructor sets first; the methods need no others.
pub record Layout : Type 0 where
  pub size : ℕ
  pub dist : Distribution
  pub nunits : ℕ
  pub blocksize : ℕ
  pub nblocks : ℕ

-- The whole pattern as the unit `myid` of the team has it.
pub record Pattern : Type 0 where
  pub layout : Layout
  pub myid : ℕ
  pub local_size : ℕ
  pub nlblocks : ℕ
  pub local_capacity : ℕ
  pub lbegin : ℕ
  pub lend : ℕ

pub record ViewSpec : Type 0 where
  pub offset : ℕ
  pub extent : ℕ

-- The unit of a global index and the index there.
pub record LocalIndex : Type 0 where
  pub unit : ℕ
  pub index : ℕ

unfoldable pub unit_at : Layout → ℕ → ℕ
unit_at p global_pos = global_pos / p.blocksize % p.nunits

unfoldable pub unit_at_view : Layout → ℕ → ViewSpec → ℕ
unit_at_view p global_pos vs = (global_pos + vs.offset) / p.blocksize % p.nunits

unfoldable pub local_coords : Layout → ℕ → ℕ
local_coords p g_index =
    let elem_phase = g_index % p.blocksize in
    let g_block_offset = g_index / p.blocksize in
    let l_block_offset = g_block_offset / p.nunits in l_block_offset * p.blocksize + elem_phase

unfoldable pub at : Layout → ℕ → ℕ
at p g_coords = local_coords p g_coords

unfoldable pub at_view : Layout → ℕ → ViewSpec → ℕ
at_view p g_coords vs = local_coords p (g_coords + vs.offset)

unfoldable pub local_at : Layout → ℕ → ViewSpec → ℕ
local_at p l_coords vs = l_coords + vs.offset

unfoldable pub local_index : Layout → ℕ → LocalIndex
local_index p g_coords = record { unit = unit_at p g_coords; index = at p g_coords }

unfoldable pub coords : Layout → ℕ → ℕ
coords p index = index

unfoldable pub local : Layout → ℕ → LocalIndex
local p g_index = local_index p (coords p g_index)

unfoldable pub is_local : Layout → ℕ → ℕ → Bool
is_local p index unit = unit_at p index == unit

-- The global index of a unit's local index.
unfoldable pub global : Layout → ℕ → ℕ → Option ℕ
global p unit l = if ltb p.nunits 2 then some l else (do
  block_index ← local_index_to_block_coord p.dist.dist_type p.dist.blocksz unit l p.nunits
  some (block_index * p.blocksize + l % p.blocksize))

unfoldable pub block_at : Layout → ℕ → ℕ
block_at p g_coords = g_coords / p.blocksize

-- The view of a block. Its offset is the block's index times the size of the pattern.
unfoldable pub block : Layout → ℕ → ViewSpec
block p g_block_index = record { offset = g_block_index * p.size; extent = p.blocksize }

-- The view of a unit's local block, in the global indices.
unfoldable pub local_block : Layout → ℕ → ℕ → Option ViewSpec
local_block p myid l_block_index = do
  g_elem_index ← global p myid (l_block_index * p.blocksize)
  some record { offset = g_elem_index; extent = p.blocksize }

-- The same in the unit's indices.
unfoldable pub local_block_local : Layout → ℕ → ViewSpec
local_block_local p l_block_index = record {
  offset = l_block_index * p.blocksize;
  extent = p.blocksize;
}

-- By how much the last block is short of a full one.
unfoldable pub underfilled_blocksize : Layout → Option ℕ
underfilled_blocksize p =
    if p.blocksize == 0
    then none
    else (if p.size % p.blocksize == 0 then some 0 else some (p.blocksize - p.size % p.blocksize))

unfoldable pub initialize_blocksize : ℕ → Distribution → ℕ → Option ℕ
initialize_blocksize size d nunits =
    if nunits == 0 then some 0 else max_blocksize_in_range d.dist_type d.blocksz size nunits

unfoldable pub initialize_num_blocks : (size blocksize : ℕ) → ℕ
initialize_num_blocks size blocksize = if blocksize == 0 then 0 else div_ceil size blocksize

unfoldable pub initialize_num_local_blocks : (blocksize local_size : ℕ) → ℕ
initialize_num_local_blocks blocksize local_size =
    if ltb 0 blocksize then div_ceil local_size blocksize else 0

unfoldable pub initialize_local_capacity : Layout → ℕ
initialize_local_capacity p = if p.nunits == 0 then 0 else div_ceil p.nblocks p.nunits * p.blocksize

-- The unit that has the last block.
unfoldable pub last_block_unit : Layout → ℕ
last_block_unit p = if p.nblocks % p.nunits == 0 then p.nunits - 1 else p.nblocks % p.nunits - 1

-- What the last unit misses is taken off.
unfoldable pub without_missing : Layout → ℕ → ℕ → Option ℕ
without_missing p unit l_extent =
    if unit == last_block_unit p
    then (do undfill_blocksize ← underfilled_blocksize p; some (l_extent - undfill_blocksize))
    else some l_extent

-- The number of elements of a unit.
unfoldable pub initialize_local_extent : Layout → ℕ → Option ℕ
initialize_local_extent p unit =
    let l_extent = p.nblocks / p.nunits * p.blocksize in
    if p.nunits == 0
    then some 0
    else (if (p.nblocks == 1) && (p.nunits == 1)
        then some p.size
        else without_missing p unit
            (if ltb unit (p.nblocks % p.nunits) then l_extent + p.blocksize else l_extent))

-- The global range of a unit with `l_size` elements: from its first to past its last.
unfoldable pub initialize_local_range : Layout → ℕ → ℕ → Option (ℕ × ℕ)
initialize_local_range p myid l_size =
    if l_size == 0
    then some (0, 0)
    else (do lbegin ← global p myid 0; last ← global p myid (l_size - 1); some (lbegin, last + 1))

-- The first members of the constructor.
unfoldable pub layout : ℕ → Distribution → ℕ → Option Layout
layout size d nunits = do
  blocksize ← initialize_blocksize size d nunits
  some record {
    size = size;
    dist = d;
    nunits = nunits;
    blocksize = blocksize;
    nblocks = initialize_num_blocks size blocksize;
  }

-- The constructor, for the unit `myid` of a team of `nunits` units.
unfoldable pub pattern : ℕ → Distribution → ℕ → ℕ → Option Pattern
pattern size d nunits myid = do
  p ← layout size d nunits
  l_size ← initialize_local_extent p myid
  range ← initialize_local_range p myid l_size
  some record {
    layout = p;
    myid = myid;
    local_size = l_size;
    nlblocks = initialize_num_local_blocks p.blocksize l_size;
    local_capacity = initialize_local_capacity p;
    lbegin = range.0;
    lend = range.1;
  }

-- The local extent of any unit: the member for the own one, computed for another.
unfoldable pub local_extents : Pattern → ℕ → Option ℕ
local_extents p unit =
    if unit == p.myid then some p.local_size else initialize_local_extent p.layout unit
