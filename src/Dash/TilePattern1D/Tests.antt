-- ===== src/Dash/TilePattern1D/Tests.antt =====
-- Twelve elements in tiles of three for two units.
use coronas.Prelude.{ℕ, ◌%◌, ◌<◌, ◌≡◌, refl, ◌↔◌, some, arith}
use coronas.Dash.Distribution.{dist_tile, div_ceil, max_blocksize_in_range, min_size}
use coronas.Dash.BlockPattern1D.{Layout, layout, initialize_blocksize, initialize_num_blocks}
use coronas.Dash.TilePattern1D.{local, initialize_local_extent}
use coronas.Dash.TilePattern1D.Balance.{local-balanced}

abbrev twelve : Layout
twelve = record {
  size = 12;
  dist = record { dist_type = dist_tile; blocksz = 3 };
  nunits = 2;
  blocksize = 3;
  nblocks = 4;
}

twelve_built : layout 12 twelve.dist 2 ≡ some twelve
unfolding layout initialize_blocksize max_blocksize_in_range min_size initialize_num_blocks div_ceil
twelve_built = refl

local-balanced_example :
    ((g : ℕ)
      → g < 12
      → (local twelve g).index < initialize_local_extent twelve (local twelve g).unit)
    ↔ (4 % 2 ≡ 0)
local-balanced_example = local-balanced twelve twelve_built (omega arith) (omega arith)
