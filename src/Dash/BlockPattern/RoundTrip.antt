-- ===== src/Dash/BlockPattern/RoundTrip.antt =====
-- The way between points and the local coordinates of the units, in all dimensions.
use coronas.Dash.BlockPattern.Loops.{
  sizes_of, units_of, AllRegular, unit_coords-InRange, forth, back, team_positive, alone,
}
use coronas.Prelude.{
  ℕ, ◌<◌, ◌≡◌, refl, sym, ap, subst, ◌∙◌, inl, inr, some, List, arith, ltb, ◌==◌, ltb→lt, ==_iff,
  Bool-cases,
}
use coronas.Dash.BlockPattern.{
  BlockPattern, unit_coords, unit_at, local_coords_loop, local_coords, extents_loop,
  initialize_local_extents, global_loop, global,
}
use coronas.Dash.CartesianIndexSpace.{row_major, resize, at, coords, InRange}
use coronas.Dash.CartesianIndexSpace.RoundTrip.{coords-at, at-coords, size_volume}
use coronas.Dash.CartesianSpace.{volume}

-- The members that the constructor sets for a team with units and blocks with elements.
pub record IsBuilt (p : BlockPattern) : Type 0 where
  pub regular : AllRegular p.dims
  pub team : p.teamspec ≡ resize (units_of p.dims)
  pub memory : p.memory_layout ≡ resize (sizes_of p.dims)
  pub own : List ℕ
  pub own_extents : initialize_local_extents p.nunits p.dims p.teamspec p.myid ≡ some own
  pub own_layout : p.local_memory_layout ≡ resize own

-- The team of a built pattern.
module _ (p : BlockPattern) (w : IsBuilt p) where
  team_volume : p.teamspec.size ≡ volume (units_of p.dims)
  team_volume = ap (λ s. s.size) w.team ∙ size_volume (units_of p.dims)

  extents_at :
      (u : ℕ) (us : List ℕ)
      → p.nunits ≡ p.teamspec.size
      → coords row_major p.teamspec u ≡ some us
      → initialize_local_extents p.nunits p.dims p.teamspec u ≡ extents_loop p.dims us
  unfolding initialize_local_extents
  extents_at u us t e = elim (Bool-cases (p.nunits == 0)) [
    | inl z ↦
        absurd
          (omega (arith, t, team_volume, team_positive p.dims w.regular, (==_iff p.nunits 0).0 z))
    | inr z ↦ rw (z, e) refl
  ]

  -- `global` at the coordinates of a unit, in a team of one and of more.
  global_at :
      (u : ℕ) (us ls cs : List ℕ)
      → coords row_major p.teamspec u ≡ some us
      → global_loop p.dims us ls ≡ some cs
      → InRange cs (sizes_of p.dims)
      → local_coords_loop p.dims cs ≡ ls
      → global p u ls ≡ some cs
  unfolding global
  global_at u us ls cs e g ins l = elim (Bool-cases (ltb p.teamspec.size 2)) [
    | inl z ↦
        let few : volume (units_of p.dims) < 2 =
          omega (arith, team_volume, ltb→lt p.teamspec.size 2 z) in
        rw z (ap some (sym l ∙ alone p.dims cs w.regular few ins))
    | inr z ↦ rw (z, e, g) refl
  ]

-- The unit of a point stands in the team at its coordinates.
unit_at-coords :
    (p : BlockPattern) (cs : List ℕ)
    → IsBuilt p
    → InRange cs (sizes_of p.dims)
    → (unit_at p cs < p.teamspec.size)
      × (coords row_major p.teamspec (unit_at p cs) ≡ some (unit_coords p.dims cs))
unfolding unit_at
unit_at-coords p cs w h =
    subst
      (λ s.
        (at row_major s (unit_coords p.dims cs) < s.size)
        × (coords row_major s (at row_major s (unit_coords p.dims cs))
            ≡ some (unit_coords p.dims cs)))
      (sym w.team)
      (coords-at row_major (units_of p.dims) (unit_coords p.dims cs)
        (unit_coords-InRange p.dims cs w.regular h))

-- In a pattern of any number of dimensions as the constructor builds it, with units and with
-- elements in a block in every dimension, for a team of as many units as its specification arranges,
-- every point of the array has its unit in the team, its
-- local coordinates lie in the extents of that unit's elements, and `global` gives the point back.
pub global-local_point :
    (p : BlockPattern) (cs : List ℕ)
    → IsBuilt p
    → p.nunits ≡ p.teamspec.size
    → InRange cs (sizes_of p.dims)
    → (unit_at p cs < p.nunits)
      × ((es : List ℕ) × (initialize_local_extents p.nunits p.dims p.teamspec (unit_at p cs)
            ≡ some es)
          × InRange (local_coords p cs) es)
      × (global p (unit_at p cs) (local_coords p cs) ≡ some cs)
unfolding local_coords
global-local_point p cs w t h =
    let (u, e) = unit_at-coords p cs w h in
    let ((es, ees, ls), g) = forth p.dims cs w.regular h in
    (
      omega (arith, u, t),
      (es, extents_at p w (unit_at p cs) (unit_coords p.dims cs) t e ∙ ees, ls),
      global_at p w (unit_at p cs) (unit_coords p.dims cs) (local_coords_loop p.dims cs) cs e g h
          refl,
    )

-- In a pattern of any number of dimensions as the constructor builds it, with units and with
-- elements in a block in every dimension, for a team of as many units as its specification arranges,
-- local coordinates in the extents of a unit of the team have a point of the array, whose unit and local coordinates are these.
pub local-global_point :
    (p : BlockPattern) (u : ℕ) (ls es : List ℕ)
    → IsBuilt p
    → p.nunits ≡ p.teamspec.size
    → u < p.nunits
    → initialize_local_extents p.nunits p.dims p.teamspec u ≡ some es
    → InRange ls es
    → (cs : List ℕ) × (global p u ls ≡ some cs)
      × InRange cs (sizes_of p.dims)
      × (unit_at p cs ≡ u)
      × (local_coords p cs ≡ ls)
unfolding local_coords unit_at
local-global_point p u ls es w t h e k =
    let units = units_of p.dims in
    let here : u < p.teamspec.size = omega (arith, h, t) in
    let (us, ec, ins, au) = at-coords row_major units u (subst (λ s. u < s.size) w.team here) in
    let ec1 : coords row_major p.teamspec u ≡ some us =
      subst (λ s. coords row_major s u ≡ some us) (sym w.team) ec in
    let (cs, g, inside, ucs, lcs) =
      back p.dims us ls es w.regular ins (sym (extents_at p w u us t ec1) ∙ e) k in
    (
      cs,
      global_at p w u us ls cs ec1 g inside lcs,
      inside,
      ap (at row_major p.teamspec) ucs ∙ ap (λ s. at row_major s us) w.team ∙ au,
      lcs,
    )
