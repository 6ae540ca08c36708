-- ===== src/Dash/TeamSpec/Tests.antt =====
-- Teams of 12 and of 27 units.
use coronas.Prelude.{ℕ, ◌/◌, ◌%◌, ◌≤◌, ◌<◌, ◌≡◌, refl, ◌↔◌, ◌⊎◌, some, List, [], ◌∷◌, arith}
use coronas.Dash.CartesianIndexSpace
use coronas.Dash.CartesianSpace.{size_loop}
use coronas.Dash.Distribution.{Distribution, dist_none, dist_blocked}
use coronas.Dash.Math.{bump, divide_loop, odd_loop, factorize}
use coronas.Dash.TeamSpec.{
  TeamSpec, resize, is_tiled, any_tile, single_loop, of_distribution, multiples_loop, factors_loop,
  balance_extents,
}
use coronas.Dash.TeamSpec.Balance.{balance_extents_lem}
use coronas.Dash.TeamSpec.Surface.{Least, Tried}

twelve : balance_extents (resize (12 ∷ 1 ∷ [])) ≡ some (resize (4 ∷ 3 ∷ []))
unfolding balance_extents resize CartesianIndexSpace.resize size_loop factorize divide_loop odd_loop
    bump factors_loop multiples_loop
twelve = refl

-- Three units are lost.
twenty_seven : balance_extents (resize (27 ∷ 1 ∷ [])) ≡ some (resize (6 ∷ 4 ∷ []))
unfolding balance_extents resize CartesianIndexSpace.resize size_loop factorize divide_loop odd_loop
    bump factors_loop multiples_loop
twenty_seven = refl

balance_extents_lem_example :
    (x : ℕ) × (t : TeamSpec) × (balance_extents (resize (27 ∷ 1 ∷ [])) ≡ some t)
    × (t.space.extents ≡ x ∷ (27 / x) ∷ [])
    × (0 < x)
    × (t.space.size ≤ 27)
    × ((t.space.size ≡ 27) ↔ (27 % x ≡ 0))
    × (fs : List (ℕ × ℕ)) × (factorize 27 ≡ some fs)
    × ((x ≡ 27) ⊎ Tried fs x)
    × Least fs 27 x
balance_extents_lem_example = balance_extents_lem 27 1 (omega arith)

abbrev columns : List Distribution
columns =
    record { dist_type = dist_none; blocksz = 0 }
    ∷ record { dist_type = dist_blocked; blocksz = 0 }
    ∷ []

columns_made : of_distribution columns 4 ≡ some (resize (1 ∷ 4 ∷ []))
unfolding of_distribution is_tiled any_tile single_loop
columns_made = refl
