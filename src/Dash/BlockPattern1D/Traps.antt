-- ===== src/Dash/BlockPattern1D/Traps.antt =====
-- When the number of elements of a unit is computed, and when the code divides by 0 for it.
use coronas.Prelude.{
  ℕ, suc, ◌+◌, ◌-◌, ◌*◌, ◌/◌, ◌%◌, ◌<◌, ◌≡◌, refl, ap, ◌∙◌, ◌↔◌, inl, inr, Bool, true, false, ◌&&◌,
  none, some, arith, ℕ_discrete, ltb, ◌==◌, if◌then◌else◌, ==_iff, Bool-cases,
}
use coronas.Dash.BlockPattern1D.{
  initialize_num_blocks, underfilled_blocksize, last_block_unit, without_missing,
  initialize_local_extent, layout, Layout,
}
use coronas.Dash.BlockPattern1D.Extent.{extent_lem}
use coronas.Dash.BlockPattern1D.Coords.{laid, partition}
use native.Mathlib.Nat.{zero-mod}

no_blocks : (p : Layout) → layout p.size p.dist p.nunits ≡ some p → p.blocksize ≡ 0 → p.nblocks ≡ 0
unfolding initialize_num_blocks
no_blocks p h b = (laid p h).1 ∙ rw b refl

last_of_none : (p : Layout) → p.nblocks ≡ 0 → last_block_unit p ≡ p.nunits - 1
unfolding last_block_unit
last_of_none p z = rw (z, zero-mod p.nunits) refl

underfilled_none : (p : Layout) → p.blocksize ≡ 0 → underfilled_blocksize p ≡ none
unfolding underfilled_blocksize
underfilled_none p b = rw b refl

without_none :
    (p : Layout) (u : ℕ)
    → p.nblocks ≡ 0
    → p.blocksize ≡ 0
    → without_missing p u 0 ≡ (if u == p.nunits - 1 then none else some 0)
unfolding without_missing
without_none p u z b = elim (Bool-cases (u == p.nunits - 1)) [
  | inl e ↦ rw (last_of_none p z, e, underfilled_none p b) refl
  | inr e ↦ rw (last_of_none p z, e) refl
]

either_none : (b : Bool) (x s : ℕ) → s ≡ 0 → (if b then x * s + s else x * s) ≡ 0
either_none true x s e = rw e (omega arith)
either_none false x s e = rw e (omega arith)

-- With no elements in a block the last unit divides by 0.
traps_last :
    (p : Layout)
    → layout p.size p.dist p.nunits ≡ some p
    → 0 < p.nunits
    → p.blocksize ≡ 0
    → (u : ℕ) → initialize_local_extent p u ≡ (if u == p.nunits - 1 then none else some 0)
unfolding initialize_local_extent
traps_last p h n b u =
    let z = no_blocks p h b in
    let nz : (p.nunits == 0) ≡ false = ground (arith, n) in
    let one : ((p.nblocks == 1) && (p.nunits == 1)) ≡ false = rw z refl in
    rw (nz, one)
      (ap (without_missing p u)
          (either_none (ltb u (p.nblocks % p.nunits)) (p.nblocks / p.nunits) p.blocksize b)
        ∙ without_none p u z b)

-- In a pattern that the constructor lays out, the number of elements of a unit of the team is not
-- computed, by a division by 0, exactly if the blocks have no elements and the unit is the last.
extent-traps :
    (p : Layout)
    → layout p.size p.dist p.nunits ≡ some p
    → (u : ℕ) → u < p.nunits
    → (initialize_local_extent p u ≡ none) ↔ ((p.blocksize ≡ 0) × (suc u ≡ p.nunits))
extent-traps p h u k = elim (ℕ_discrete p.blocksize 0) [
  | yes b ↦
      let t = traps_last p h (omega (arith, k)) b u in
      elim (Bool-cases (u == p.nunits - 1)) [
        | inl e ↦ (λ _. (b, omega (arith, k, (==_iff u (p.nunits - 1)).0 e)), λ _. t ∙ rw e refl)
        | inr e ↦ (
          λ s. absurd (cc (s, rw e at t)),
          λ s. absurd (cc (e, (==_iff u (p.nunits - 1)).1 (omega (arith, s.1)))),
        )
      ]
  | no b ↦
      let (e, ee, c) = extent_lem p u (partition p h (omega (arith, k)) (omega (arith, b))) k in
      (λ s. absurd (cc (s, ee)), λ s. absurd (b s.0))
]
