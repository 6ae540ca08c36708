-- ===== src/Dash/BlockPattern1D/Bounds.antt =====
-- A local index of a unit is below its extent exactly when its global index is below the size.
use coronas.Prelude.{
  ℕ, suc, ◌+◌, ◌-◌, ◌*◌, ◌/◌, ◌%◌, ◌<◌, ◌≡◌, refl, sym, ap, ◌∙◌, inl, inr, false, arith, dec_lt,
  ◌==◌, ==_iff, Bool-cases,
}
use coronas.Dash.BlockPattern1D.{unit_at, local_coords, last_block_unit, at, Layout}
use coronas.Dash.BlockPattern1D.Extent.{count_pos, last_unit, lacking, size_lem, IsPartition}
use coronas.Dash.Division.{
  missing, missing-lt, count, count_bound, count_total, div_unique, mod_unique,
}
use native.Mathlib.Nat.{div-add-mod', mod-lt, mul-le-mul_right, lt_of_mul-lt-mul_right}

block_is_last : {b k : ℕ} → b < k → ¬ (suc b < k) → suc b ≡ k
block_is_last h n = omega (arith, h, n)

-- A local index stands in one of the unit's blocks.
pub block_in :
    (p : Layout) (w : IsPartition p) (u l e : ℕ)
    → e + lacking p u ≡ count p.nblocks p.nunits u * p.blocksize
    → u < p.nunits
    → l < e
    → l / p.blocksize * p.nunits + u < p.nblocks
block_in p w u l e c hu h =
    count_bound p.nblocks p.nunits u (l / p.blocksize) hu
      (lt_of_mul-lt-mul_right p.blocksize (omega (arith, c, h, div-add-mod' l p.blocksize)))

-- The last block lacks what is missing, and is the last of its unit.
at_last :
    (p : Layout)
    → IsPartition p
    → (u j : ℕ) → u < p.nunits
    → suc (j * p.nunits + u) ≡ p.nblocks
    → (lacking p u ≡ missing p.size p.blocksize) × (count p.nblocks p.nunits u ≡ suc j)
at_last p w u j hu e =
    let pred : p.nblocks - 1 ≡ j * p.nunits + u = omega (arith, e) in
    let last : u ≡ last_block_unit p =
      sym (
        last_unit p w.units (omega (arith, e)) ∙ ap (λ x. x % p.nunits) pred ∙ mod_unique j u hu) in
    (
      rw ((==_iff u (last_block_unit p)).1 last) refl,
      count_pos p u w (omega (arith, e)) last
          ∙ ap (λ x. suc (x / p.nunits)) pred
          ∙ ap suc (div_unique j u hu),
    )

pub local_in :
    (p : Layout) (w : IsPartition p) (u l e : ℕ)
    → e + lacking p u ≡ count p.nblocks p.nunits u * p.blocksize
    → u < p.nunits
    → l < e
    → (l / p.blocksize * p.nunits + u) * p.blocksize + l % p.blocksize < p.size
local_in p w u l e c hu h =
    let b = l / p.blocksize * p.nunits + u in
    let k = block_in p w u l e c hu h in
    let m = missing-lt p.size p.blocksize w.elements in
    elim (dec_lt (suc b) p.nblocks) [
      | yes s ↦ omega (
        arith,
        mod-lt l w.elements,
        m,
        size_lem p w,
        mul-le-mul_right {m = suc (suc b)} {n = p.nblocks} p.blocksize s,
      )
      | no s ↦
          let l2 = at_last p w u (l / p.blocksize) hu (block_is_last k s) in
          omega (
            arith,
            l2.0,
            h,
            c,
            ap (λ x. x * p.blocksize) l2.1,
            size_lem p w,
            div-add-mod' l p.blocksize,
            ap (λ x. x * p.blocksize) (block_is_last k s),
          )
    ]

-- A global index stands in one of the blocks.
pub block_of : (p : Layout) → IsPartition p → (g : ℕ) → g < p.size → g / p.blocksize < p.nblocks
block_of p w g h =
    lt_of_mul-lt-mul_right p.blocksize (omega (arith, h, size_lem p w, div-add-mod' g p.blocksize))

lacks_nothing : (p : Layout) (u : ℕ) → (u == last_block_unit p) ≡ false → lacking p u ≡ 0
lacks_nothing p u e = rw e refl

succ_inj : {a b : ℕ} → suc a ≡ suc b → a ≡ b
succ_inj e = omega (arith, e)

-- The unit of the last block has it as its last.
block_last :
    (p : Layout)
    → IsPartition p
    → (b : ℕ) → b < p.nblocks
    → b % p.nunits ≡ last_block_unit p
    → suc (b / p.nunits) ≡ count p.nblocks p.nunits (b % p.nunits)
    → suc b ≡ p.nblocks
block_last p w b h q n =
    let pos : 0 < p.nblocks = omega (arith, h) in
    omega (
      arith,
      pos,
      div-add-mod' b p.nunits,
      div-add-mod' (p.nblocks - 1) p.nunits,
      q ∙ last_unit p w.units pos,
      ap (λ x. x * p.nunits) (succ_inj (n ∙ count_pos p (b % p.nunits) w pos q)),
    )

pub at_in :
    (p : Layout)
    → IsPartition p
    → (g e : ℕ) → e + lacking p (unit_at p g) ≡ count p.nblocks p.nunits (unit_at p g) * p.blocksize
    → g < p.size
    → at p g < e
unfolding at local_coords unit_at
at_in p w g e c h =
    let b = g / p.blocksize in
    let u = b % p.nunits in
    let j = b / p.nunits in
    let d : j * p.nunits + u ≡ b = div-add-mod' b p.nunits in
    let k = block_of p w g h in
    let hu = mod-lt b w.units in
    let n : j < count p.nblocks p.nunits u =
      count_total p.nblocks p.nunits u j hu (omega (arith, d, k)) in
    elim (Bool-cases (u == last_block_unit p)) [
      | inl q ↦
          let m : lacking p u ≡ missing p.size p.blocksize = rw q refl in
          elim (dec_lt (suc j) (count p.nblocks p.nunits u)) [
            | yes s ↦ omega (
              arith,
              c,
              m,
              mod-lt g w.elements,
              missing-lt p.size p.blocksize w.elements,
              mul-le-mul_right {m = suc (suc j)} {n = count p.nblocks p.nunits u} p.blocksize s,
            )
            | no s ↦
                let z = block_is_last n s in
                omega (
                  arith,
                  c,
                  m,
                  h,
                  size_lem p w,
                  div-add-mod' g p.blocksize,
                  ap (λ x. x * p.blocksize) z,
                  ap (λ x. x * p.blocksize)
                      (block_last p w b k ((==_iff u (last_block_unit p)).0 q) z),
                )
          ]
      | inr q ↦ omega (
        arith,
        c,
        mod-lt g w.elements,
        sym (lacks_nothing p u q),
        mul-le-mul_right {m = suc j} {n = count p.nblocks p.nunits u} p.blocksize n,
      )
    ]
