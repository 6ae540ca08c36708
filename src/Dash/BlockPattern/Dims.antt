-- ===== src/Dash/BlockPattern/Dims.antt =====
-- One dimension of the block pattern: it is the pattern of one dimension with the same members.
use coronas.Prelude.{
  ℕ, ◌+◌, ◌*◌, ◌/◌, ◌%◌, ◌<◌, ◌≡◌, refl, sym, ap, subst, ◌∙◌, inl, inr, some, arith, ◌==◌, ==_iff,
  Bool-cases,
}
use coronas.Dash.Distribution.{local_index_to_block_coord}
use coronas.Dash.BlockPattern1D.{Layout, layout, initialize_local_extent, global}
use coronas.Dash.BlockPattern1D
use coronas.Dash.BlockPattern1D.Bounds.{block_in, block_of}
use coronas.Dash.BlockPattern1D.Coords.{partition, block_coord_lem, global_lem}
use coronas.Dash.BlockPattern1D.Extent.{extent_lem, lacking}
use coronas.Dash.BlockPattern1D.RoundTrip
use coronas.Dash.BlockPattern.{local_extent_d}
use coronas.Dash.Division.{count}
use mathlib.Core.Option.{some-injective}
use native.Mathlib.Nat.{div-one, div-add-mod'}

-- The members are those that the constructor of one dimension sets, with units and with elements in
-- a block.
pub record IsRegular (d : Layout) : Type 0 where
  pub laid : layout d.size d.dist d.nunits ≡ some d
  pub units : 0 < d.nunits
  pub elements : 0 < d.blocksize

abbrev pub unit_d : Layout → ℕ → ℕ
unit_d d c = c / d.blocksize % d.nunits

abbrev pub local_d : Layout → ℕ → ℕ
local_d d c = c % d.blocksize + c / d.blocksize / d.nunits * d.blocksize

local_d_lem : (d : Layout) (c : ℕ) → local_d d c ≡ BlockPattern1D.at d c
unfolding BlockPattern1D.at BlockPattern1D.local_coords
local_d_lem d c = omega arith

pub local_extent_d_lem :
    (d : Layout) (u : ℕ) → IsRegular d → local_extent_d d u ≡ initialize_local_extent d u
unfolding local_extent_d initialize_local_extent
local_extent_d_lem d u r = elim (Bool-cases (d.nunits == 0)) [
  | inl e ↦ absurd (omega (arith, r.units, (==_iff d.nunits 0).0 e))
  | inr e ↦ rw e refl
]

-- The block of a local index and the index in it, where there is that block.
pub round_d :
    (d : Layout) (u l b : ℕ)
    → IsRegular d
    → l / d.blocksize * d.nunits + u ≡ b
    → b < d.nblocks
    → local_index_to_block_coord d.dist.dist_type d.dist.blocksz u l d.nunits ≡ some b
round_d d u l b r e h =
    block_coord_lem d u l r.laid (partition d r.laid r.units r.elements) (omega (arith, e, h))
    ∙ ap some e

-- What the loops find in one dimension for a coordinate in range.
pub forth_d :
    (d : Layout) (c : ℕ)
    → IsRegular d
    → c < d.size
    → (unit_d d c < d.nunits)
      × ((e : ℕ) × (local_extent_d d (unit_d d c) ≡ some e) × (local_d d c < e))
      × (local_index_to_block_coord d.dist.dist_type d.dist.blocksz
            (unit_d d c)
            (local_d d c)
            d.nunits
          ≡ some (c / d.blocksize))
      × (c / d.blocksize * d.blocksize + local_d d c % d.blocksize ≡ c)
unfolding BlockPattern1D.unit_at
forth_d d c r h =
    let w = partition d r.laid r.units r.elements in
    let (hu, (e, ee, l, cap), back) = RoundTrip.global-local d r.laid r.units r.elements c h in
    let same = local_d_lem d c in
    (
      hu,
      (e, local_extent_d_lem d (unit_d d c) r ∙ ee, omega (arith, same, l)),
      round_d d (unit_d d c) (local_d d c) (c / d.blocksize) r
          (ap (λ x. x / d.blocksize * d.nunits + unit_d d c) same
            ∙ RoundTrip.block_back d c r.elements)
          (block_of d w c h),
      omega (
        arith,
        ap (λ x. x % d.blocksize) same,
        RoundTrip.at_phase d c r.elements,
        div-add-mod' c d.blocksize,
      ),
    )

-- What they find for a local coordinate below the number of elements of a unit.
pub back_d :
    (d : Layout) (u l e : ℕ)
    → IsRegular d
    → u < d.nunits
    → local_extent_d d u ≡ some e
    → l < e
    → (b g : ℕ) × (local_index_to_block_coord d.dist.dist_type d.dist.blocksz u l d.nunits ≡ some b)
      × (b * d.blocksize + l % d.blocksize ≡ g)
      × (g < d.size)
      × (unit_d d g ≡ u)
      × (local_d d g ≡ l)
unfolding BlockPattern1D.unit_at
back_d d u l e r hu ee k =
    let w = partition d r.laid r.units r.elements in
    let e1 : initialize_local_extent d u ≡ some e = sym (local_extent_d_lem d u r) ∙ ee in
    let (g, ge, gs, gu, ga) = RoundTrip.local-global d r.laid r.units r.elements u e l hu e1 k in
    let (e2, ee2, c2) = extent_lem d u w hu in
    let c =
      subst (λ x. x + lacking d u ≡ count d.nblocks d.nunits u * d.blocksize)
        (some-injective _ _ (sym ee2 ∙ e1)) c2 in
    let here = block_in d w u l e c hu k in
    let b = l / d.blocksize * d.nunits + u in
    (
      b,
      g,
      round_d d u l b r refl here,
      some-injective _ _ (sym (global_lem d u l r.laid w hu here) ∙ ge),
      gs,
      gu,
      local_d_lem d g ∙ ga,
    )

-- The only unit has the elements in their order.
pub alone_d : (d : Layout) (c : ℕ) → d.nunits ≡ 1 → local_d d c ≡ c
alone_d d c e = omega (
  arith,
  ap (λ n. c / d.blocksize / n * d.blocksize) e,
  ap (λ x. x * d.blocksize) (div-one (c / d.blocksize)),
  div-add-mod' c d.blocksize,
)
