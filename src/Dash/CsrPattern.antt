-- ===== src/Dash/CsrPattern.antt =====
-- dash/include/dash/CSRPattern.h: the pattern of one dimension in which each unit has one block, of
-- a size of its own. Sizes and indices are natural numbers; a point of the one dimension is its
-- index, a view its offset and extent. `none` is an exception or a read out of a vector.
pub mod Owners
pub mod RoundTrip
pub mod Coords
pub mod Sizes
mod Tests
use coronas.Prelude.{
  ℕ, zero, suc, ◌+◌, ◌-◌, ◌/◌, ◌%◌, Bool, true, false, Option, none, some, List, [], ◌∷◌, ltb, leb,
  ◌==◌, if◌then◌else◌, get_elem?, drop, replicate, ◌>>=◌,
}
use coronas.Dash.Distribution.{
  div_ceil, DistributionType, dist_undefined, dist_none, dist_blocked, dist_cyclic,
  dist_blockcyclic, dist_tile,
}
use coronas.Dash.BlockPattern1D.{ViewSpec, LocalIndex}

-- The members that the methods read.
pub record Layout : Type 0 where
  pub size : ℕ
  pub local_sizes : List ℕ
  pub block_offsets : List ℕ
  pub nunits : ℕ

pub record Pattern : Type 0 where
  pub layout : Layout
  pub myid : ℕ
  pub blocksize : ℕ
  pub nblocks : ℕ
  pub local_size : ℕ
  pub local_capacity : ℕ
  pub lbegin : ℕ
  pub lend : ℕ

-- The loop that adds up the sizes.
unfoldable pub size_loop : (size : ℕ) → List ℕ → ℕ
size_loop size [] = size
size_loop size (s ∷ ss) = size_loop (size + s) ss

unfoldable pub initialize_size : List ℕ → ℕ
initialize_size local_sizes = size_loop 0 local_sizes

-- The local sizes for a distribution; the exception is that of another distribution.
unfoldable pub initialize_local_sizes :
    (total_size : ℕ) → DistributionType → (nunits : ℕ) → Option (List ℕ)
initialize_local_sizes total_size dist_blocked n =
    if ltb n 1 then some [] else some (replicate n (div_ceil total_size n))
initialize_local_sizes total_size dist_tile n =
    if ltb n 1 then some [] else some (replicate n (div_ceil total_size n))
initialize_local_sizes total_size dist_undefined n =
    if ltb n 1 then some [] else some (replicate n 0)
initialize_local_sizes total_size dist_none n =
    if ltb n 1 then some [] else some (total_size ∷ replicate (n - 1) 0)
initialize_local_sizes total_size dist_cyclic n = if ltb n 1 then some [] else none
initialize_local_sizes total_size dist_blockcyclic n = if ltb n 1 then some [] else none

-- The loop of initialize_block_offsets: each block starts where the one before ends.
unfoldable pub offsets_loop : (block_offset : ℕ) → List ℕ → List ℕ
offsets_loop block_offset [] = []
offsets_loop block_offset (s ∷ ss) = block_offset ∷ offsets_loop (block_offset + s) ss

unfoldable pub initialize_block_offsets : List ℕ → List ℕ
initialize_block_offsets local_sizes = offsets_loop 0 local_sizes

unfoldable pub initialize_blocksize : (nunits : ℕ) → ℕ
initialize_blocksize nunits = if nunits == 0 then 0 else 1

-- The rounds of a loop over the units but the last, from `unit_idx` on: the first unit such that the
-- next unit's offset passes the test, or else the last unit.
unfoldable pub unit_loop : (ℕ → Bool) → (rounds unit_idx : ℕ) → (following : List ℕ) → Option ℕ
unit_loop test zero unit_idx following = some unit_idx
unit_loop test (suc rounds) unit_idx [] = none
unit_loop test (suc rounds) unit_idx (next ∷ following) =
    let rest = unit_loop test rounds (unit_idx + 1) following in
    if test next then some unit_idx else rest

unfoldable pub first_unit : (ℕ → Bool) → Layout → Option ℕ
first_unit test p =
    if p.nunits == 0 then none else unit_loop test (p.nunits - 1) 0 (drop 1 p.block_offsets)

-- The unit of an index.
unfoldable pub unit_at : Layout → ℕ → Option ℕ
unit_at p g_index = first_unit (λ next. ltb g_index next) p

-- The unit of coordinates: the same loop with another comparison.
unfoldable pub unit_at_coords : Layout → ℕ → Option ℕ
unit_at_coords p g_coord = first_unit (λ next. leb g_coord next) p

unfoldable pub unit_at_view : Layout → (global_pos : ℕ) → ViewSpec → Option ℕ
unit_at_view p global_pos viewspec =
    let g_coord = global_pos + viewspec.offset in first_unit (λ next. leb g_coord next) p

-- The unit of coordinates in a view: by the block size of the pattern.
unfoldable pub unit_at_coords_view : Pattern → ℕ → ViewSpec → ℕ
unit_at_coords_view p coord viewspec = (coord + viewspec.offset) / p.blocksize % p.layout.nunits

unfoldable pub block_at : Layout → ℕ → Option ℕ
block_at p g_coord = first_unit (λ next. leb g_coord next) p

-- The loop over the units from the last down, to the first one whose block does not start behind.
unfoldable pub local_loop : (units : ℕ) → List ℕ → (g_index : ℕ) → Option LocalIndex
local_loop zero offsets g_index = none
local_loop (suc unit_idx) offsets g_index =
    let rest = local_loop unit_idx offsets g_index in
    (do
      block_offset ← get_elem? offsets unit_idx
      if leb block_offset g_index
          then some record { unit = unit_idx; index = g_index - block_offset }
          else rest)

unfoldable pub local : Layout → ℕ → Option LocalIndex
local p g_index = local_loop p.nunits p.block_offsets g_index

unfoldable pub local_index : Layout → ℕ → Option LocalIndex
local_index p g_coords = local_loop p.nunits p.block_offsets g_coords

unfoldable pub local_coords : Layout → ℕ → Option ℕ
local_coords p g_coords = do l ← local_loop p.nunits p.block_offsets g_coords; some l.index

unfoldable pub at : Layout → ℕ → Option ℕ
at p g_coords = local_coords p g_coords

unfoldable pub at_view : Layout → ℕ → ViewSpec → Option ℕ
at_view p g_coords viewspec = local_coords p (g_coords + viewspec.offset)

unfoldable pub local_at : ℕ → ViewSpec → ℕ
local_at local_coords viewspec = local_coords + viewspec.offset

unfoldable pub global : Layout → (unit l : ℕ) → Option ℕ
global p unit l =
    if ltb p.nunits 2
    then some l
    else (do block_offset ← get_elem? p.block_offsets unit; some (block_offset + l))

unfoldable pub is_local : Layout → (index unit : ℕ) → Option Bool
is_local p index unit = do
  block_offset ← get_elem? p.block_offsets unit
  if leb block_offset index
      then (if unit == p.nunits - 1
          then some true
          else (do next ← get_elem? p.block_offsets (unit + 1); some (ltb index next)))
      else some false

unfoldable pub block : Layout → ℕ → Option ViewSpec
block p g_block_index = do
  offset ← get_elem? p.block_offsets g_block_index
  block_size ← get_elem? p.local_sizes g_block_index
  some record { offset = offset; extent = block_size }

-- The view of the calling unit's block; the index of the local block is not looked at.
unfoldable pub local_block : Layout → (myid : ℕ) → Option ViewSpec
local_block p myid = do
  block_offset ← get_elem? p.block_offsets myid
  block_size ← get_elem? p.local_sizes myid
  some record { offset = block_offset; extent = block_size }

unfoldable pub local_block_local : Layout → (myid : ℕ) → Option ViewSpec
local_block_local p myid = do
  block_size ← get_elem? p.local_sizes myid
  some record { offset = 0; extent = block_size }

-- std::max_element, of a list that is not empty.
unfoldable pub max_loop : (largest : ℕ) → List ℕ → ℕ
max_loop largest [] = largest
max_loop largest (s ∷ ss) = max_loop (if ltb largest s then s else largest) ss

unfoldable pub initialize_local_capacity : Layout → Option ℕ
initialize_local_capacity p =
    if p.nunits == 0
    then some 0
    else (do first ← get_elem? p.local_sizes 0; some (max_loop first (drop 1 p.local_sizes)))

unfoldable pub initialize_local_extent : Layout → ℕ → Option ℕ
initialize_local_extent p unit = if p.nunits == 0 then some 0 else get_elem? p.local_sizes unit

unfoldable pub initialize_local_range : Layout → (myid l_size : ℕ) → Option (ℕ × ℕ)
initialize_local_range p myid l_size =
    if l_size == 0
    then some (0, 0)
    else (do lbegin ← global p myid 0; last ← global p myid (l_size - 1); some (lbegin, last + 1))

-- The members for a size and local sizes.
unfoldable pub layout_of : (size : ℕ) → List ℕ → (nunits : ℕ) → Layout
layout_of size local_sizes nunits = record {
  size = size;
  local_sizes = local_sizes;
  block_offsets = initialize_block_offsets local_sizes;
  nunits = nunits;
}

unfoldable pub complete : Layout → (myid : ℕ) → Option Pattern
complete p myid = do
  l_size ← initialize_local_extent p myid
  capacity ← initialize_local_capacity p
  range ← initialize_local_range p myid l_size
  some record {
    layout = p;
    myid = myid;
    blocksize = initialize_blocksize p.nunits;
    nblocks = p.nunits;
    local_size = l_size;
    local_capacity = capacity;
    lbegin = range.0;
    lend = range.1;
  }

-- The constructor from local sizes, for the unit `myid` of a team.
unfoldable pub of_local_sizes : List ℕ → (nunits myid : ℕ) → Option Pattern
of_local_sizes local_sizes nunits myid =
    complete (layout_of (initialize_size local_sizes) local_sizes nunits) myid

-- The constructor from a size and a distribution.
unfoldable pub of_size : ℕ → DistributionType → (nunits myid : ℕ) → Option Pattern
of_size size dist nunits myid = do
  local_sizes ← initialize_local_sizes size dist nunits
  complete (layout_of size local_sizes nunits) myid

-- The number of elements of a unit: that of the calling unit, whatever the unit.
unfoldable pub local_extents : Pattern → (unit : ℕ) → ℕ
local_extents p unit = p.local_size
