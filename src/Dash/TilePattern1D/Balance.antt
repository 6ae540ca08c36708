-- ===== src/Dash/TilePattern1D/Balance.antt =====
-- When the units' numbers of elements have room for the elements of the pattern.
use coronas.Prelude.{
  ℕ, suc, ◌+◌, ◌-◌, ◌*◌, ◌/◌, ◌%◌, ◌<◌, ◌≡◌, refl, sym, ap, ◌∙◌, ◌↔◌, some, arith, ℕ_discrete,
}
use coronas.Dash.BlockPattern1D.{Layout, layout}
use coronas.Dash.BlockPattern1D.Coords.{partition}
use coronas.Dash.BlockPattern1D.Extent.{IsPartition, size_lem, units_nonzero}
use coronas.Dash.BlockPattern1D.Bounds.{block_of}
use coronas.Dash.Division.{missing-lt, div_unique}
use coronas.Dash.TilePattern1D.{local, initialize_local_extent}
use native.Mathlib.Nat.{
  mod-le, add-zero, div-add-mod', mod-lt, mul-le-mul_right, lt_of_mul-lt-mul_right,
}

extent_lem :
    (p : Layout) (u : ℕ)
    → IsPartition p
    → initialize_local_extent p u ≡ p.nblocks / p.nunits * p.blocksize
unfolding initialize_local_extent
extent_lem p u w = rw (units_nonzero p w) refl

-- A block below a multiple of the units lies in a full round.
in_round : (b k n : ℕ) → 0 < n → b < k → k % n ≡ 0 → b / n < k / n
in_round b k n h l e =
    lt_of_mul-lt-mul_right n (omega (arith, l, e, div-add-mod' b n, div-add-mod' k n))

fits_if :
    (p : Layout)
    → IsPartition p
    → p.nblocks % p.nunits ≡ 0
    → (g : ℕ) → g < p.size
    → (local p g).index < initialize_local_extent p (local p g).unit
unfolding local
fits_if p w e g h =
    let b = g / p.blocksize in
    omega (
      arith,
      extent_lem p (b % p.nunits) w,
      mod-lt g w.elements,
      mul-le-mul_right {m = suc (b / p.nunits)} {n = p.nblocks / p.nunits} p.blocksize
          (in_round b p.nblocks p.nunits w.units (block_of p w g h) e),
    )

one_more : (k : ℕ) → 0 < k → k ≡ k - 1 + 1
one_more k h = omega (arith, h)

full_blocks : (k b : ℕ) → 0 < k → k * b ≡ (k - 1) * b + b
full_blocks k b h = ap (λ x. x * b) (one_more k h) ∙ omega arith

pred_parts : (q r n k : ℕ) → q * n + r ≡ k → 0 < r → k - 1 ≡ q * n + (r - 1)
pred_parts q r n k e h = omega (arith, e, h)

pred_lt : (r n : ℕ) → r < n → r - 1 < n
pred_lt r n h = omega (arith, h)

fits_only :
    (p : Layout)
    → IsPartition p
    → 0 < p.nblocks % p.nunits
    → ((g : ℕ) → g < p.size → (local p g).index < initialize_local_extent p (local p g).unit)
    → ⊥
unfolding local
fits_only p w r all =
    let k = p.nblocks in
    let n = p.nunits in
    let some_block : 0 < k = omega (arith, r, mod-le k n) in
    let g = (k - 1) * p.blocksize in
    let inside : g < p.size = omega (
      arith,
      size_lem p w,
      missing-lt p.size p.blocksize w.elements,
      full_blocks k p.blocksize some_block,
    ) in
    let block : g / p.blocksize ≡ k - 1 =
      ap (λ x. x / p.blocksize) (sym (add-zero g)) ∙ div_unique (k - 1) 0 w.elements in
    let round : (k - 1) / n ≡ k / n =
      ap (λ x. x / n) (pred_parts (k / n) (k % n) n k (div-add-mod' k n) r)
      ∙ div_unique (k / n) (k % n - 1) (pred_lt (k % n) n (mod-lt k w.units)) in
    absurd (
      omega (
        arith,
        all g inside,
        extent_lem p (g / p.blocksize % n) w,
        ap (λ x. x / n * p.blocksize) block,
        ap (λ x. x * p.blocksize) round,
      ))

-- In a pattern that the constructor lays out, with units and with elements in a block, the local
-- indices of all elements lie below the numbers of elements of their units exactly if every unit
-- has the same number of blocks.
pub local-balanced :
    (p : Layout)
    → layout p.size p.dist p.nunits ≡ some p
    → 0 < p.nunits
    → 0 < p.blocksize
    → ((g : ℕ) → g < p.size → (local p g).index < initialize_local_extent p (local p g).unit)
      ↔ (p.nblocks % p.nunits ≡ 0)
local-balanced p h n b =
    let w = partition p h n b in
    (
      λ all. elim (ℕ_discrete (p.nblocks % p.nunits) 0) [
        | yes e ↦ e
        | no e ↦ absurd (fits_only p w (omega (arith, e)) all)
      ],
      fits_if p w,
    )
