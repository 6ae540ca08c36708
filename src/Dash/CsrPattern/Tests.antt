-- ===== src/Dash/CsrPattern/Tests.antt =====
-- Blocks of three, no, two and four elements.
use coronas.Prelude.{ℕ, ◌<◌, ◌≡◌, refl, ◌↔◌, ◌⊎◌, some, List, [], ◌∷◌, arith, get_elem?}
use coronas.Dash.Distribution.{dist_blocked, div_ceil}
use coronas.Dash.CsrPattern.{
  layout_of, initialize_size, size_loop, local, global, unit_at, unit_at_coords,
  initialize_local_capacity, initialize_local_sizes,
}
use coronas.Dash.CsrPattern.RoundTrip.{csr, global-local-csr, local-global-csr}
use coronas.Dash.CsrPattern.Coords.{unit_at_coords-unit_at}

abbrev threes : List ℕ
threes = 3 ∷ 3 ∷ 3 ∷ 3 ∷ []

abbrev uneven : List ℕ
uneven = 3 ∷ 0 ∷ 2 ∷ 4 ∷ []

seven_inside : 7 < (csr uneven).size
unfolding layout_of initialize_size size_loop
seven_inside = omega arith

five_inside : 5 < (csr uneven).size
unfolding layout_of initialize_size size_loop
five_inside = omega arith

global-local-csr_example :
    (u l s c : ℕ) × (local (csr uneven) 7 ≡ some record { unit = u; index = l })
    × (get_elem? uneven u ≡ some s)
    × (l < s)
    × (initialize_local_capacity (csr uneven) ≡ some c)
    × (l < c)
    × (unit_at (csr uneven) 7 ≡ some u)
    × (global (csr uneven) u l ≡ some 7)
global-local-csr_example = global-local-csr uneven 7 seven_inside

local-global-csr_example :
    (g : ℕ) × (global (csr uneven) 2 1 ≡ some g)
    × (g < (csr uneven).size)
    × (local (csr uneven) g ≡ some record { unit = 2; index = 1 })
local-global-csr_example = local-global-csr uneven 2 1 2 refl (omega arith)

-- Element 5 is the first of unit 3.
unit_at_coords-unit_at_example :
    (u l : ℕ) × (local (csr uneven) 5 ≡ some record { unit = u; index = l })
    × ((unit_at_coords (csr uneven) 5 ≡ unit_at (csr uneven) 5) ↔ ((0 < l) ⊎ (u ≡ 0)))
unit_at_coords-unit_at_example = unit_at_coords-unit_at uneven 5 five_inside

blocked_sizes : initialize_local_sizes 10 dist_blocked 4 ≡ some (3 ∷ 3 ∷ 3 ∷ 3 ∷ [])
unfolding initialize_local_sizes div_ceil
blocked_sizes = refl
