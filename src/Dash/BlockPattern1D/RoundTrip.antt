-- ===== src/Dash/BlockPattern1D/RoundTrip.antt =====
-- Between the global indices of a pattern and the local indices of its units: `unit_at` and `at`
-- one way, `global` the other, the local indices bounded by `initialize_local_extent`.
use coronas.Dash.BlockPattern1D.Bounds.{block_in, local_in, block_of, at_in}
use coronas.Prelude.{ℕ, ◌+◌, ◌*◌, ◌/◌, ◌%◌, ◌≤◌, ◌<◌, ◌≡◌, refl, sym, ap, subst, ◌∙◌, some, arith}
use mathlib.Core.Option.{some-injective}
use coronas.Dash.Distribution.{div_ceil}
use coronas.Dash.BlockPattern1D.{
  global, initialize_local_extent, initialize_local_capacity, layout, unit_at, local_coords, at,
  Layout,
}
use coronas.Dash.BlockPattern1D.Extent.{units_nonzero, extent_lem, lacking, IsPartition}
use coronas.Dash.BlockPattern1D.Coords.{partition, global_lem}
use coronas.Dash.Division.{count, div_unique, mod_unique}
use native.Mathlib.Nat.{div-add-mod', mod-lt, mul-le-mul_right}

unit_in : (p : Layout) (g : ℕ) → 0 < p.nunits → unit_at p g < p.nunits
unfolding unit_at
unit_in p g h = mod-lt (g / p.blocksize) h

at_block :
    (p : Layout) (g : ℕ) → 0 < p.blocksize → at p g / p.blocksize ≡ g / p.blocksize / p.nunits
unfolding at local_coords
at_block p g h = div_unique (g / p.blocksize / p.nunits) (g % p.blocksize) (mod-lt g h)

pub at_phase : (p : Layout) (g : ℕ) → 0 < p.blocksize → at p g % p.blocksize ≡ g % p.blocksize
unfolding at local_coords
at_phase p g h = mod_unique (g / p.blocksize / p.nunits) (g % p.blocksize) (mod-lt g h)

pub block_back :
    (p : Layout) (g : ℕ)
    → 0 < p.blocksize
    → at p g / p.blocksize * p.nunits + unit_at p g ≡ g / p.blocksize
unfolding unit_at
block_back p g h =
    ap (λ x. x * p.nunits + unit_at p g) (at_block p g h) ∙ div-add-mod' (g / p.blocksize) p.nunits

capacity_lem :
    (p : Layout)
    → IsPartition p
    → initialize_local_capacity p ≡ div_ceil p.nblocks p.nunits * p.blocksize
unfolding initialize_local_capacity
capacity_lem p w = rw (units_nonzero p w) refl

count-le : (k n u : ℕ) → count k n u ≤ div_ceil k n
unfolding div_ceil
count-le k n u = ground arith

-- In a pattern that the constructor lays out, with units and with elements in a block,
-- every element is the element of one unit: the unit computed from the global index is of the team, its local index lies below the unit's number of elements, which
-- is at most the local capacity, and back from the two comes the global index.
pub global-local :
    (p : Layout)
    → layout p.size p.dist p.nunits ≡ some p
    → 0 < p.nunits
    → 0 < p.blocksize
    → (g : ℕ) → g < p.size
    → (unit_at p g < p.nunits)
      × ((e : ℕ) × (initialize_local_extent p (unit_at p g) ≡ some e)
          × (at p g < e)
          × (e ≤ initialize_local_capacity p))
      × (global p (unit_at p g) (at p g) ≡ some g)
global-local p h n b g k =
    let w = partition p h n b in
    let hu : unit_at p g < p.nunits = unit_in p g n in
    let (e, ee, c) = extent_lem p (unit_at p g) w hu in
    (
      hu,
      (
        e,
        ee,
        at_in p w g e c k,
        omega (
          arith,
          c,
          capacity_lem p w,
          mul-le-mul_right {m = count p.nblocks p.nunits (unit_at p g)}
              {n = div_ceil p.nblocks p.nunits} p.blocksize
              (count-le p.nblocks p.nunits (unit_at p g)),
        ),
      ),
      global_lem p (unit_at p g) (at p g) h w hu
            (subst (λ x. x < p.nblocks) (sym (block_back p g b)) (block_of p w g k))
          ∙ ap some (
              omega (
                arith,
                ap (λ x. x * p.blocksize) (block_back p g b),
                at_phase p g b,
                div-add-mod' g p.blocksize,
              )),
    )

-- In a pattern that the constructor lays out, with units and with elements in a block,
-- every local index of a unit of the team below its number of elements is that of one element: `global` gives it, it lies within the pattern's size, and `unit_at` and `at` give the
-- unit and the local index back.
pub local-global :
    (p : Layout)
    → layout p.size p.dist p.nunits ≡ some p
    → 0 < p.nunits
    → 0 < p.blocksize
    → (u e l : ℕ) → u < p.nunits
    → initialize_local_extent p u ≡ some e
    → l < e
    → (g : ℕ) × (global p u l ≡ some g) × (g < p.size) × (unit_at p g ≡ u) × (at p g ≡ l)
unfolding at local_coords unit_at
local-global p h n b u e l hu ee k =
    let w = partition p h n b in
    let (e2, ee2, c2) = extent_lem p u w hu in
    let c =
      subst (λ x. x + lacking p u ≡ count p.nblocks p.nunits u * p.blocksize)
        (some-injective _ _ (sym ee2 ∙ ee)) c2 in
    let i = l / p.blocksize * p.nunits + u in
    let d : (i * p.blocksize + l % p.blocksize) / p.blocksize ≡ i =
      div_unique i (l % p.blocksize) (mod-lt l b) in
    (
      i * p.blocksize + l % p.blocksize,
      global_lem p u l h w hu (block_in p w u l e c hu k),
      local_in p w u l e c hu k,
      ap (λ x. x % p.nunits) d ∙ mod_unique (l / p.blocksize) u hu,
      omega (
        arith,
        ap (λ x. x * p.blocksize) (ap (λ x. x / p.nunits) d ∙ div_unique (l / p.blocksize) u hu),
        mod_unique i (l % p.blocksize) (mod-lt l b),
        div-add-mod' l p.blocksize,
      ),
    )
