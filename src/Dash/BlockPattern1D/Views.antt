-- ===== src/Dash/BlockPattern1D/Views.antt =====
-- The views of a unit's blocks, in the global indices and in the unit's own.
use coronas.Prelude.{ℕ, ◌+◌, ◌*◌, ◌/◌, ◌%◌, ◌<◌, ◌≡◌, refl, sym, ap, subst, ◌∙◌, some, arith}
use coronas.Dash.BlockPattern1D.{
  global, layout, local_at, local_coords, at, block_at, unit_at, local_block_local, local_block,
  Layout, ViewSpec,
}
use coronas.Dash.BlockPattern1D.Coords.{partition, global_lem}
use native.Mathlib.Nat.{add-zero}
use coronas.Dash.Division.{div_unique, mod_unique}

-- The view of the local block `j` of a unit, where there is that block, is the unit's: it has the
-- block's extent, and each element in it is of the unit and of that block, and has in the unit the
-- place that the view in local indices gives it.
pub local_block-elements :
    (p : Layout)
    → layout p.size p.dist p.nunits ≡ some p
    → 0 < p.nunits
    → 0 < p.blocksize
    → (u j : ℕ) → u < p.nunits
    → j * p.nunits + u < p.nblocks
    → (v : ViewSpec) × (local_block p u j ≡ some v)
      × (v.extent ≡ (local_block_local p j).extent)
      × ((i : ℕ)
          → i < v.extent
          → (unit_at p (v.offset + i) ≡ u)
            × (block_at p (v.offset + i) ≡ j * p.nunits + u)
            × (at p (v.offset + i) ≡ local_at p i (local_block_local p j)))
unfolding local_block local_block_local unit_at block_at at local_coords local_at
local_block-elements p h n b u j k f =
    let block : j * p.blocksize / p.blocksize ≡ j =
      ap (λ x. x / p.blocksize) (sym (add-zero (j * p.blocksize))) ∙ div_unique j 0 b in
    let phase : j * p.blocksize % p.blocksize ≡ 0 =
      ap (λ x. x % p.blocksize) (sym (add-zero (j * p.blocksize))) ∙ mod_unique j 0 b in
    let start : global p u (j * p.blocksize) ≡ some ((j * p.nunits + u) * p.blocksize) =
      global_lem p u (j * p.blocksize) h (partition p h n b) k
        (subst (λ x. x * p.nunits + u < p.nblocks) (sym block) f)
      ∙ ap some (omega (arith, ap (λ x. (x * p.nunits + u) * p.blocksize) block, phase)) in
    (
      record { offset = (j * p.nunits + u) * p.blocksize; extent = p.blocksize },
      rw start refl,
      refl,
      λ i o.
          let d = div_unique (j * p.nunits + u) i o in
          (
            ap (λ x. x % p.nunits) d ∙ mod_unique j u k,
            d,
            omega (
              arith,
              ap (λ x. x * p.blocksize) (ap (λ x. x / p.nunits) d ∙ div_unique j u k),
              mod_unique (j * p.nunits + u) i o,
            ),
          ),
    )
