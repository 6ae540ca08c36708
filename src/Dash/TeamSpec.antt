-- ===== src/Dash/TeamSpec.antt =====
-- dash/include/dash/Cartesian.h: TeamSpec, the arrangement of the units of a team in dimensions.
-- A list has an entry for each dimension; the constructors are given by the extents that they leave
-- to `resize`. `none` is an exception, or a division by 0 in `factorize`'s loops that do not end.
mod Units
mod Surface
mod Balance
mod Tests
use coronas.Prelude.{
  ℕ, zero, suc, ◌+◌, ◌-◌, ◌*◌, ◌/◌, Bool, true, false, not, ◌&&◌, ◌||◌, Option, none, some, List,
  [], ◌∷◌, ltb, ◌==◌, if◌then◌else◌, length, drop, replicate, ◌>>=◌,
}
use coronas.Dash.Distribution.{Distribution, DistributionType, dist_none, dist_tile}
use coronas.Dash.CartesianIndexSpace
use coronas.Dash.CartesianIndexSpace.{CartesianIndexSpace}
use coronas.Dash.CartesianSpace.{size_loop}
use coronas.Dash.Math.{factorize}

pub record TeamSpec : Type 0 where
  pub space : CartesianIndexSpace
  pub rank : ℕ
  pub is_linear : Bool

-- The loop of update_rank.
unfoldable pub rank_loop : (rank : ℕ) → List ℕ → ℕ
rank_loop rank [] = rank
rank_loop rank (e ∷ extents) = rank_loop (if ltb 1 e then rank + 1 else rank) extents

unfoldable pub update_rank : List ℕ → ℕ
update_rank extents = let rank = rank_loop 0 extents in if rank == 0 then 1 else rank

unfoldable pub resize : List ℕ → TeamSpec
resize extents = record {
  space = CartesianIndexSpace.resize extents;
  rank = update_rank extents;
  is_linear = false;
}

-- Of a team alone: all units in the first of `dims` dimensions. The rank that is set first is set
-- again by the resize.
unfoldable pub of_team : (team_size dims : ℕ) → TeamSpec
of_team team_size dims = resize (team_size ∷ replicate (dims - 1) 1)

abbrev pub is_tile : DistributionType → Bool
is_tile dist_tile = true
is_tile _ = false

abbrev pub is_none : DistributionType → Bool
is_none dist_none = true
is_none _ = false

unfoldable pub any_tile : List Distribution → Bool
any_tile [] = false
any_tile (d ∷ dists) = is_tile d.dist_type || any_tile dists

-- DistributionSpec::is_tiled, set by a loop that starts at the second dimension.
unfoldable pub is_tiled : List Distribution → Bool
is_tiled dists = any_tile (drop 1 dists)

-- The loop that gives the units to the first tiled dimension.
unfoldable pub tiled_loop :
    (major_tiled_dim_set : Bool) → (team_size : ℕ) → List Distribution → List ℕ
tiled_loop done n [] = []
tiled_loop done n (d ∷ dists) =
    if not done && is_tile d.dist_type
    then n ∷ tiled_loop true n dists
    else 1 ∷ tiled_loop done n dists

-- The loop that gives the units to the only distributed dimension.
unfoldable pub single_loop :
    (distrib_dim_set : Bool) → (team_size : ℕ) → List Distribution → Option (List ℕ)
single_loop done n [] = some []
single_loop done n (d ∷ dists) = elim (is_none d.dist_type) [
  | true ↦ (do es ← single_loop done n dists; some (1 ∷ es))
  | false ↦ elim done [ true ↦ none | false ↦ (do es ← single_loop true n dists; some (n ∷ es)) ]
]

-- Of a distribution and a team.
unfoldable pub of_distribution : List Distribution → (team_size : ℕ) → Option TeamSpec
of_distribution dists n =
    if is_tiled dists
    then some (resize (tiled_loop false n dists))
    else (do extents ← single_loop false n dists; some (resize extents))

-- The extents that a linear specification gets: every distributed dimension has all units.
unfoldable pub distributed_loop : (team_size : ℕ) → List Distribution → List ℕ
distributed_loop n [] = []
distributed_loop n (d ∷ dists) = (if is_none d.dist_type then 1 else n) ∷ distributed_loop n dists

-- Of another specification, a distribution and a team.
unfoldable pub of_other : TeamSpec → List Distribution → (team_size : ℕ) → Option TeamSpec
of_other other dists n =
    if other.space.size == n
    then some (
        resize (
          if other.is_linear && ltb 1 (length dists)
          then (if is_tiled dists then tiled_loop false n dists else distributed_loop n dists)
          else other.space.extents))
    else none

-- The best extents found, and their surface (0 where there are none yet).
pub record Best : Type 0 where
  pub surface : ℕ
  pub x : ℕ
  pub y : ℕ

-- The loop over the multiples i, i + 1, ... of a factor.
unfoldable pub multiples_loop : (rounds i factor num_units : ℕ) → Best → Best
multiples_loop zero i factor num_units b = b
multiples_loop (suc rounds) i factor num_units b =
    let extent_x = factor * i in
    let extent_y = num_units / extent_x in
    let surface_new = 2 * extent_x + 2 * extent_y in
    multiples_loop rounds (i + 1) factor num_units (
      if (b.surface == 0) || ltb surface_new b.surface
      then record { surface = surface_new; x = extent_x; y = extent_y }
      else b)

unfoldable pub factors_loop : List (ℕ × ℕ) → (num_units : ℕ) → Best → Best
factors_loop [] num_units b = b
factors_loop ((factor, count) ∷ factors) num_units b =
    factors_loop factors num_units (multiples_loop count 1 factor num_units b)

-- balance_extents, where there are at least two dimensions; the third and later ones stay.
unfoldable pub balance_extents : TeamSpec → Option TeamSpec
balance_extents t = do
  let num_units = size_loop 1 t.space.extents
  factors ← factorize num_units
  let b = factors_loop factors num_units (record { surface = 0; x = num_units; y = 1 })
  some (resize (b.x ∷ b.y ∷ drop 2 t.space.extents))
