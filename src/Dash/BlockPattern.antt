-- ===== src/Dash/BlockPattern.antt =====
-- dash/include/dash/BlockPattern.h: `Pattern` in any number of dimensions. What the members say of
-- one dimension (the entries of _memory_layout, _distspec, _teamspec, _blocksize_spec and
-- _blockspec) stands together, as the members of the pattern of one dimension; a loop over the
-- dimensions is a recursion on the list of these. The index spaces are those of
-- CartesianIndexSpace. `nunits` is _nunits, the size of the team: the constructor does not compare it
-- with the size of the specification. `none` is an exception of the distribution or the trap of a
-- division by 0.
pub mod Dims
pub mod Loops
pub mod RoundTrip
pub mod Linear
pub mod Construction
mod Tests
use coronas.Prelude.{
  ℕ, ◌+◌, ◌-◌, ◌*◌, ◌/◌, ◌%◌, Bool, ◌&&◌, Option, none, some, List, [], ◌∷◌, map, ltb, ◌==◌,
  if◌then◌else◌, length, ◌>>=◌,
}
use coronas.Dash.Distribution.{
  max_blocksize_in_range, div_ceil, Distribution, local_index_to_block_coord,
}
use coronas.Dash.BlockPattern1D.{
  Layout, LocalIndex, without_missing, layout, initialize_num_local_blocks,
}
use coronas.Dash.CartesianSpace.{size_loop}
use coronas.Dash.CartesianIndexSpace
use coronas.Dash.CartesianIndexSpace.{CartesianIndexSpace, MemArrange, row_major, add_offsets}

pub record BlockPattern : Type 0 where
  pub arrangement : MemArrange
  pub nunits : ℕ
  pub dims : List Layout
  pub teamspec : CartesianIndexSpace
  pub memory_layout : CartesianIndexSpace
  pub myid : ℕ
  pub local_memory_layout : CartesianIndexSpace

-- The unit of a point and the coordinates there.
pub record LocalCoords : Type 0 where
  pub unit : ℕ
  pub coords : List ℕ

unfoldable pub blocksizes_loop : List ℕ → List Distribution → List ℕ → Option (List ℕ)
blocksizes_loop [] dists units = some []
blocksizes_loop (s ∷ sizes) [] units = none
blocksizes_loop (s ∷ sizes) (d ∷ dists) [] = none
blocksizes_loop (s ∷ sizes) (d ∷ dists) (n ∷ units) =
    let rest = blocksizes_loop sizes dists units in
    (do b ← max_blocksize_in_range d.dist_type d.blocksz s n; bs ← rest; some (b ∷ bs))

abbrev zeros : List ℕ → List ℕ
zeros = map (λ _. 0)

unfoldable pub initialize_blocksizespec :
    (teamspec_size : ℕ) → List ℕ → List Distribution → List ℕ → Option (List ℕ)
initialize_blocksizespec teamspec_size sizes dists units =
    if teamspec_size == 0 then some (zeros sizes) else blocksizes_loop sizes dists units

unfoldable pub blocks_loop : List ℕ → (blocksizes : List ℕ) → List ℕ
blocks_loop [] bs = []
blocks_loop (s ∷ sizes) [] = []
blocks_loop (s ∷ sizes) (b ∷ bs) = div_ceil s b ∷ blocks_loop sizes bs

unfoldable pub initialize_blockspec : List ℕ → (blocksizes : List ℕ) → List ℕ
initialize_blockspec sizes blocksizes =
    if size_loop 1 blocksizes == 0 then zeros sizes else blocks_loop sizes blocksizes

-- The members of the dimensions, of five lists.
unfoldable pub dims_of :
    List ℕ → List Distribution → (units blocksizes nblocks : List ℕ) → List Layout
dims_of (s ∷ sizes) (d ∷ dists) (n ∷ units) (b ∷ bs) (k ∷ ks) =
    record { size = s; dist = d; nunits = n; blocksize = b; nblocks = k }
    ∷ dims_of sizes dists units bs ks
dims_of _ _ _ _ _ = []

-- The loop of unit_at.
unfoldable pub unit_coords : List Layout → List ℕ → List ℕ
unit_coords [] coords = []
unit_coords (d ∷ dims) [] = []
unit_coords (d ∷ dims) (c ∷ coords) = (c / d.blocksize % d.nunits) ∷ unit_coords dims coords

unfoldable pub unit_at : BlockPattern → List ℕ → ℕ
unit_at p coords = CartesianIndexSpace.at row_major p.teamspec (unit_coords p.dims coords)

unfoldable pub unit_at_view : BlockPattern → List ℕ → (offsets : List ℕ) → ℕ
unit_at_view p coords offsets = unit_at p (add_offsets coords offsets)

unfoldable pub coords : BlockPattern → ℕ → Option (List ℕ)
coords p index = CartesianIndexSpace.coords p.arrangement p.memory_layout index

unfoldable pub unit_at_index : BlockPattern → (global_pos : ℕ) → Option ℕ
unit_at_index p global_pos = do global_coords ← coords p global_pos; some (unit_at p global_coords)

-- The loop of local_coords.
unfoldable pub local_coords_loop : List Layout → List ℕ → List ℕ
local_coords_loop [] coords = []
local_coords_loop (d ∷ dims) [] = []
local_coords_loop (d ∷ dims) (c ∷ coords) =
    let b_offset_d = c % d.blocksize in
    let g_block_offset_d = c / d.blocksize in
    let l_block_offset_d = g_block_offset_d / d.nunits in
    (b_offset_d + l_block_offset_d * d.blocksize) ∷ local_coords_loop dims coords

unfoldable pub local_coords : BlockPattern → List ℕ → List ℕ
local_coords p global_coords = local_coords_loop p.dims global_coords

unfoldable pub local : BlockPattern → List ℕ → LocalCoords
local p global_coords = record {
  unit = unit_at p global_coords;
  coords = local_coords p global_coords;
}

-- A round of initialize_local_extents.
unfoldable pub local_extent_d : Layout → (unit_ts_coord : ℕ) → Option ℕ
local_extent_d d unit_ts_coord =
    let l_extent = d.nblocks / d.nunits * d.blocksize in
    if d.nunits == 0
    then none
    else (if (d.nblocks == 1) && (d.nunits == 1)
        then some d.size
        else without_missing d unit_ts_coord
            (if ltb unit_ts_coord (d.nblocks % d.nunits) then l_extent + d.blocksize else l_extent))

unfoldable pub extents_loop : List Layout → List ℕ → Option (List ℕ)
extents_loop [] unit_ts_coords = some []
extents_loop (d ∷ dims) [] = none
extents_loop (d ∷ dims) (u ∷ unit_ts_coords) =
    let rest = extents_loop dims unit_ts_coords in
    (do e ← local_extent_d d u; es ← rest; some (e ∷ es))

-- The numbers of elements of a unit by dimension; `nunits` is the size of the team.
unfoldable pub initialize_local_extents :
    (nunits : ℕ) → List Layout → (teamspec : CartesianIndexSpace) → (unit : ℕ) → Option (List ℕ)
initialize_local_extents nunits dims teamspec unit =
    if nunits == 0 then some (map (λ _. 0) dims) else (do
      unit_ts_coords ← CartesianIndexSpace.coords row_major teamspec unit
      extents_loop dims unit_ts_coords)

unfoldable pub local_extents : BlockPattern → (unit : ℕ) → Option (List ℕ)
local_extents p unit =
    if unit == p.myid
    then some p.local_memory_layout.extents
    else initialize_local_extents p.nunits p.dims p.teamspec unit

unfoldable local_at : BlockPattern → List ℕ → ℕ
local_at p l_coords = CartesianIndexSpace.at p.arrangement p.local_memory_layout l_coords

unfoldable local_at_view : BlockPattern → List ℕ → (offsets : List ℕ) → ℕ
local_at_view p l_coords offsets = local_at p (add_offsets l_coords offsets)

-- The last part of `at` and of local_index: the linear index of local coordinates of a unit.
unfoldable pub unit_offset : BlockPattern → (unit : ℕ) → List ℕ → Option ℕ
unit_offset p unit l_coords =
    if unit == p.myid
    then some (CartesianIndexSpace.at p.arrangement p.local_memory_layout l_coords)
    else (do
      extents ← initialize_local_extents p.nunits p.dims p.teamspec unit
      some (CartesianIndexSpace.at p.arrangement (CartesianIndexSpace.resize extents) l_coords))

unfoldable pub local_index : BlockPattern → List ℕ → Option LocalIndex
local_index p global_coords = do
  index ← unit_offset p (unit_at p global_coords) (local_coords p global_coords)
  some record { unit = unit_at p global_coords; index = index }

unfoldable pub local_of_index : BlockPattern → ℕ → Option LocalIndex
local_of_index p g_index = do l_coords ← coords p g_index; local_index p l_coords

unfoldable pub at : BlockPattern → List ℕ → Option ℕ
at p global_coords = unit_offset p (unit_at p global_coords) (local_coords p global_coords)

unfoldable pub at_view : BlockPattern → List ℕ → (offsets : List ℕ) → Option ℕ
at_view p global_coords offsets = at p (add_offsets global_coords offsets)

-- The loop of `global`.
unfoldable pub global_loop : List Layout → (unit_ts_coord local_coords : List ℕ) → Option (List ℕ)
global_loop [] us ls = some []
global_loop (d ∷ dims) [] ls = none
global_loop (d ∷ dims) (u ∷ us) [] = none
global_loop (d ∷ dims) (u ∷ us) (l ∷ ls) =
    let rest = global_loop dims us ls in
    (do
      block_index ← local_index_to_block_coord d.dist.dist_type d.dist.blocksz u l d.nunits
      g ← rest
      some ((block_index * d.blocksize + l % d.blocksize) ∷ g))

unfoldable pub global : BlockPattern → (unit : ℕ) → List ℕ → Option (List ℕ)
global p unit local_coords = if ltb p.teamspec.size 2 then some local_coords else (do
  unit_ts_coord ← CartesianIndexSpace.coords row_major p.teamspec unit
  global_loop p.dims unit_ts_coord local_coords)

-- The global index of a local index of the calling unit.
unfoldable pub global_of_index : BlockPattern → ℕ → Option ℕ
global_of_index p local_index = do
  l_coords ← CartesianIndexSpace.coords p.arrangement p.local_memory_layout local_index
  global_coords ← global p p.myid l_coords
  some (CartesianIndexSpace.at p.arrangement p.memory_layout global_coords)

unfoldable pub global_index : BlockPattern → (unit : ℕ) → List ℕ → Option ℕ
global_index p unit local_coords = do
  global_coords ← global p unit local_coords
  some (CartesianIndexSpace.at p.arrangement p.memory_layout global_coords)

unfoldable pub global_at : BlockPattern → List ℕ → ℕ
global_at p global_coords = CartesianIndexSpace.at p.arrangement p.memory_layout global_coords

unfoldable pub is_local : BlockPattern → (index unit : ℕ) → Option Bool
is_local p index unit = do glob_coords ← coords p index; some (unit_at p glob_coords == unit)

-- local_size of no unit is that of the calling one; of a unit it is the size of the array of its
-- extents.
unfoldable pub local_size : BlockPattern → Option ℕ → Option ℕ
local_size p none = some p.local_memory_layout.size
local_size p (some unit) = do
  extents ← initialize_local_extents p.nunits p.dims p.teamspec unit
  some (length extents)

-- The loop of initialize_local_capacity.
unfoldable pub capacity_loop : (l_capacity : ℕ) → List Layout → ℕ
capacity_loop l_capacity [] = l_capacity
capacity_loop l_capacity (d ∷ dims) =
    capacity_loop (l_capacity * div_ceil (div_ceil d.size d.blocksize) d.nunits) dims

unfoldable pub initialize_local_capacity : BlockPattern → ℕ
initialize_local_capacity p =
    if p.teamspec.size == 0
    then 0
    else capacity_loop 1 p.dims * size_loop 1 (map (λ (d : Layout). d.blocksize) p.dims)

unfoldable pub initialize_local_blockspec : List Layout → (local_extents : List ℕ) → List ℕ
initialize_local_blockspec [] extents = []
initialize_local_blockspec (d ∷ dims) [] = []
initialize_local_blockspec (d ∷ dims) (e ∷ extents) =
    initialize_num_local_blocks d.blocksize e ∷ initialize_local_blockspec dims extents

unfoldable pub initialize_local_range : BlockPattern → Option (ℕ × ℕ)
initialize_local_range p =
    let l_size = p.local_memory_layout.size in
    if l_size == 0 then some (0, 0) else (do
      lbegin ← global_of_index p 0
      last ← global_of_index p (l_size - 1)
      some (lbegin, last + 1))

-- The constructor's members, for the unit `myid` of a team of `nunits` units.
unfoldable pub pattern :
    MemArrange
    → List ℕ
    → List Distribution
    → (team_extents : List ℕ) → (nunits myid : ℕ) → Option BlockPattern
pattern arrangement sizes dists team_extents nunits myid = do
  let teamspec = CartesianIndexSpace.resize team_extents
  blocksizes ← initialize_blocksizespec teamspec.size sizes dists team_extents
  let dims = dims_of sizes dists team_extents blocksizes (initialize_blockspec sizes blocksizes)
  extents ← initialize_local_extents nunits dims teamspec myid
  some record {
    arrangement = arrangement;
    nunits = nunits;
    dims = dims;
    teamspec = teamspec;
    memory_layout = CartesianIndexSpace.resize sizes;
    myid = myid;
    local_memory_layout = CartesianIndexSpace.resize extents;
  }
