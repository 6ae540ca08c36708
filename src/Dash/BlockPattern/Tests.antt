-- ===== src/Dash/BlockPattern/Tests.antt =====
-- Five by six elements, the rows in blocks for two units and the columns in turn for three units.
use coronas.Prelude.{ℕ, ◌<◌, ◌≡◌, refl, true, some, List, [], ◌∷◌, arith}
use coronas.Dash.Distribution.{
  div_ceil, Distribution, dist_blocked, dist_cyclic, max_blocksize_in_range,
}
use coronas.Dash.BlockPattern1D.{without_missing, underfilled_blocksize, last_block_unit}
use coronas.Dash.BlockPattern.{
  BlockPattern, blocksizes_loop, initialize_blocksizespec, blocks_loop, initialize_blockspec,
  unit_coords, dims_of, initialize_local_extents, extents_loop, local_extent_d, pattern, unit_at,
  local_coords, global, local_of_index, global_of_index, is_local,
}
use coronas.Dash.BlockPattern.Loops.{sizes_of, units_of}
use coronas.Dash.BlockPattern.RoundTrip.{IsBuilt, global-local_point, local-global_point}
use coronas.Dash.BlockPattern.Construction.{pattern-IsBuilt}
use coronas.Dash.BlockPattern.Linear.{linear-global-local}
use coronas.Dash.CartesianIndexSpace.{
  row_major, resize, row_offsets, col_offsets, row_coords, coords, InRange, at, at_loop, offsets_of,
}
use coronas.Dash.CartesianSpace.{size_loop}

abbrev sizes : List ℕ
sizes = 5 ∷ 6 ∷ []

abbrev dists : List Distribution
dists =
    record { dist_type = dist_blocked; blocksz = 0 }
    ∷ record { dist_type = dist_cyclic; blocksz = 1 }
    ∷ []

abbrev units : List ℕ
units = 2 ∷ 3 ∷ []

abbrev blocked : List Distribution
blocked =
    record { dist_type = dist_blocked; blocksz = 0 }
    ∷ record { dist_type = dist_blocked; blocksz = 0 }
    ∷ []

-- The unit 4 stands in the team at 1, 1.
abbrev sample : BlockPattern
sample = record {
  arrangement = row_major;
  nunits = 6;
  dims =
      record {
        size = 5;
        dist = record { dist_type = dist_blocked; blocksz = 0 };
        nunits = 2;
        blocksize = 3;
        nblocks = 2;
      }
      ∷ record {
        size = 6;
        dist = record { dist_type = dist_cyclic; blocksz = 1 };
        nunits = 3;
        blocksize = 1;
        nblocks = 6;
      }
      ∷ [];
  teamspec = resize units;
  memory_layout = resize sizes;
  myid = 4;
  local_memory_layout = resize (2 ∷ 2 ∷ []);
}

sample_sizes : initialize_blocksizespec (resize units).size sizes dists units ≡ some (3 ∷ 1 ∷ [])
unfolding initialize_blocksizespec blocksizes_loop max_blocksize_in_range div_ceil resize size_loop
sample_sizes = refl

sample_built : pattern row_major sizes dists units 6 4 ≡ some sample
unfolding pattern initialize_blocksizespec blocksizes_loop max_blocksize_in_range div_ceil resize
    size_loop initialize_blockspec blocks_loop dims_of initialize_local_extents coords row_coords
    row_offsets col_offsets extents_loop local_extent_d without_missing last_block_unit
    underfilled_blocksize
sample_built = refl

pattern-IsBuilt_example :
    IsBuilt sample
    × (sizes_of sample.dims ≡ sizes)
    × (units_of sample.dims ≡ units)
    × (sample.nunits ≡ 6)
pattern-IsBuilt_example =
    pattern-IsBuilt row_major sizes dists units (3 ∷ 1 ∷ []) 6 4 sample refl (omega arith)
      sample_sizes (omega arith) sample_built

sample-IsBuilt : IsBuilt sample
sample-IsBuilt =
    (pattern-IsBuilt row_major sizes dists units (3 ∷ 1 ∷ []) 6 4 sample refl (omega arith)
      sample_sizes (omega arith) sample_built).0

sample_all : sample.nunits ≡ sample.teamspec.size
unfolding resize size_loop
sample_all = refl

global-local_point_example :
    (unit_at sample (4 ∷ 1 ∷ []) < sample.nunits)
    × ((es : List ℕ) × (initialize_local_extents sample.nunits sample.dims sample.teamspec
            (unit_at sample (4 ∷ 1 ∷ []))
          ≡ some es)
        × InRange (local_coords sample (4 ∷ 1 ∷ [])) es)
    × (global sample (unit_at sample (4 ∷ 1 ∷ [])) (local_coords sample (4 ∷ 1 ∷ []))
        ≡ some (4 ∷ 1 ∷ []))
global-local_point_example =
    global-local_point sample (4 ∷ 1 ∷ []) sample-IsBuilt sample_all (omega arith)

sample_team : 4 < sample.nunits
sample_team = omega arith

sample_extents :
    initialize_local_extents sample.nunits sample.dims sample.teamspec 4 ≡ some (2 ∷ 2 ∷ [])
unfolding div_ceil resize size_loop initialize_local_extents coords row_coords row_offsets
    col_offsets extents_loop local_extent_d without_missing last_block_unit underfilled_blocksize
sample_extents = refl

local-global_point_example :
    (cs : List ℕ) × (global sample 4 (1 ∷ 0 ∷ []) ≡ some cs)
    × InRange cs (sizes_of sample.dims)
    × (unit_at sample cs ≡ 4)
    × (local_coords sample cs ≡ 1 ∷ 0 ∷ [])
local-global_point_example =
    local-global_point sample 4 (1 ∷ 0 ∷ []) (2 ∷ 2 ∷ []) sample-IsBuilt sample_all sample_team
      sample_extents (omega arith)

sample_inside : 25 < sample.memory_layout.size
unfolding resize size_loop
sample_inside = omega arith

linear-global-local_example :
    (u i : ℕ) × (es : List ℕ) × (local_of_index sample 25 ≡ some record { unit = u; index = i })
    × (u < sample.nunits)
    × (initialize_local_extents sample.nunits sample.dims sample.teamspec u ≡ some es)
    × (i < (resize es).size)
    × (is_local sample 25 u ≡ some true)
    × (u ≡ sample.myid → global_of_index sample i ≡ some 25)
linear-global-local_example = linear-global-local sample 25 sample-IsBuilt sample_all sample_inside

-- The arrangement of 4 by 4 units for a team of 4 is not refused: an element has the unit 15.
large :
    (p : BlockPattern) × (pattern row_major (8 ∷ 8 ∷ []) blocked (4 ∷ 4 ∷ []) 4 0 ≡ some p)
    × (p.nunits ≡ 4)
    × (unit_at p (7 ∷ 7 ∷ []) ≡ 15)
unfolding pattern initialize_blocksizespec blocksizes_loop max_blocksize_in_range div_ceil resize
    size_loop initialize_blockspec blocks_loop dims_of initialize_local_extents coords row_coords
    row_offsets col_offsets extents_loop local_extent_d without_missing last_block_unit
    underfilled_blocksize unit_at unit_coords at at_loop offsets_of
large = (_, refl, refl, refl)
