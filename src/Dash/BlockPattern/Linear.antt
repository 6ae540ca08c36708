-- ===== src/Dash/BlockPattern/Linear.antt =====
-- The way between linear global indices and linear local indices.
use coronas.Prelude.{
  ℕ, ◌<◌, ◌≡◌, refl, sym, ap, subst, ◌∙◌, inl, inr, true, some, List, ◌==◌, ==_iff, Bool-cases,
}
use coronas.Dash.BlockPattern.{
  BlockPattern, coords, unit_at, local_coords, unit_offset, local_index, local_of_index,
  initialize_local_extents, global, global_of_index, is_local,
}
use coronas.Dash.BlockPattern.Loops.{sizes_of}
use coronas.Dash.BlockPattern.RoundTrip.{IsBuilt, global-local_point}
use coronas.Dash.CartesianIndexSpace
use coronas.Dash.CartesianIndexSpace.{MemArrange, CartesianIndexSpace, resize, InRange}
use coronas.Dash.CartesianIndexSpace.RoundTrip.{coords-at, at-coords}
use mathlib.Core.Option.{some-injective}

-- The calling unit's layout is the one that is made for another unit.
own_is :
    (p : BlockPattern) (u : ℕ) (es : List ℕ)
    → IsBuilt p
    → initialize_local_extents p.nunits p.dims p.teamspec u ≡ some es
    → u ≡ p.myid
    → p.local_memory_layout ≡ resize es
own_is p u es w e o =
    w.own_layout
    ∙ ap resize (
        some-injective _ _ (
          sym w.own_extents ∙ ap (initialize_local_extents p.nunits p.dims p.teamspec) (sym o) ∙ e))

unit_offset_lem :
    (p : BlockPattern) (u : ℕ) (ls es : List ℕ)
    → IsBuilt p
    → initialize_local_extents p.nunits p.dims p.teamspec u ≡ some es
    → unit_offset p u ls ≡ some (CartesianIndexSpace.at p.arrangement (resize es) ls)
unfolding unit_offset
unit_offset_lem p u ls es w e = elim (Bool-cases (u == p.myid)) [
  | inl o ↦ rw (o, own_is p u es w e ((==_iff u p.myid).0 o)) refl
  | inr o ↦ rw (o, e) refl
]

back_own :
    (p : BlockPattern) (u i g : ℕ) (cs ls : List ℕ)
    → CartesianIndexSpace.coords p.arrangement p.local_memory_layout i ≡ some ls
    → global p p.myid ls ≡ some cs
    → CartesianIndexSpace.at p.arrangement p.memory_layout cs ≡ g
    → global_of_index p i ≡ some g
unfolding global_of_index
back_own p u i g cs ls c b a = rw (c, b) (ap some a)

-- In a pattern of any number of dimensions as the constructor builds it, with units and with
-- elements in a block in every dimension, for a team of as many units as its specification arranges,
-- every global index below the size has a unit of the team and a local index below that unit's number of elements; `is_local` says yes for this unit, and
-- where it is the calling one `global` gives the index back.
pub linear-global-local :
    (p : BlockPattern) (g : ℕ)
    → IsBuilt p
    → p.nunits ≡ p.teamspec.size
    → g < p.memory_layout.size
    → (u i : ℕ) × (es : List ℕ) × (local_of_index p g ≡ some record { unit = u; index = i })
      × (u < p.nunits)
      × (initialize_local_extents p.nunits p.dims p.teamspec u ≡ some es)
      × (i < (resize es).size)
      × (is_local p g u ≡ some true)
      × (u ≡ p.myid → global_of_index p i ≡ some g)
unfolding local_of_index local_index coords is_local
linear-global-local p g w t h =
    let sizes = sizes_of p.dims in
    let (cs, c, inside, a) = at-coords p.arrangement sizes g (subst (λ s. g < s.size) w.memory h) in
    let here : CartesianIndexSpace.coords p.arrangement p.memory_layout g ≡ some cs =
      subst (λ s. CartesianIndexSpace.coords p.arrangement s g ≡ some cs) (sym w.memory) c in
    let (hu, (es, ees, ls), back) = global-local_point p cs w t inside in
    let (i_in, i_back) = coords-at p.arrangement es (local_coords p cs) ls in
    let u = unit_at p cs in
    let i = CartesianIndexSpace.at p.arrangement (resize es) (local_coords p cs) in
    (
      u,
      i,
      es,
      rw (here, unit_offset_lem p u (local_coords p cs) es w ees) refl,
      hu,
      ees,
      i_in,
      rw (here, (==_iff u u).1 refl) refl,
      λ own.
          back_own p u i g cs (local_coords p cs)
            (subst (λ s. CartesianIndexSpace.coords p.arrangement s i ≡ some (local_coords p cs))
              (sym (own_is p u es w ees own)) i_back)
            (subst (λ v. global p v (local_coords p cs) ≡ some cs) own back)
            (ap (λ s. CartesianIndexSpace.at p.arrangement s cs) w.memory ∙ a),
    )
