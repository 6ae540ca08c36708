-- ===== src/Dash/CsrPattern/Coords.antt =====
-- The two ways to ask for a unit, by index and by coordinates, compare the offsets differently.
use coronas.Prelude.{
  ℕ, zero, suc, ◌+◌, ◌-◌, ◌≤◌, ◌<◌, ◌≡◌, refl, sym, ap, ◌∙◌, ◌≢◌, ◌↔◌, ◌⊎◌, inl, inr, some, List,
  [], ◌∷◌, arith, ℕ_discrete, leb, Bool-cases, length,
}
use coronas.Dash.CsrPattern.{
  layout_of, initialize_block_offsets, offsets_loop, unit_at, unit_at_coords, first_unit, unit_loop,
  local,
}
use coronas.Dash.CsrPattern.Owners
use coronas.Dash.CsrPattern.Owners.{start, Owner, Placed}
use coronas.Dash.CsrPattern.RoundTrip.{csr, size_total, unit_at-Owner, local-Owner}

-- Inside a block the loop for coordinates finds the unit.
inner :
    (a s : ℕ) (ss : List ℕ) (u g i : ℕ)
    → Owner a (s ∷ ss) u g
    → (start a (s ∷ ss) u < g) ⊎ (u ≡ 0)
    → unit_loop (λ next. leb g next) (length ss) i (offsets_loop (a + s) ss) ≡ some (i + u)
unfolding unit_loop offsets_loop
inner a s [] zero g i o h = ap some (omega arith)
inner a s [] (suc u) g i o h = absurd o
inner a s (t ∷ ss) zero g i o h = ground (arith, o.1)
inner a s (t ∷ ss) (suc u) g i o (inr h) = absurd (omega (arith, h))
inner a s (t ∷ ss) (suc u) g i o (inl h) =
    let p = Owners.Owner-Placed (a + s) (t ∷ ss) u g o in
    let first : a + s ≤ start (a + s) (t ∷ ss) u = p.first in
    ground (arith, h, first, inner (a + s) t ss u g (i + 1) o (inl h))

-- At the start of a later block it stops at an earlier unit.
first_of_block :
    (a s : ℕ) (ss : List ℕ) (u g i : ℕ)
    → Owner a (s ∷ ss) (suc u) g
    → start a (s ∷ ss) (suc u) ≡ g
    → (v : ℕ) × (unit_loop (λ next. leb g next) (length ss) i (offsets_loop (a + s) ss) ≡ some v)
      × (v < i + suc u)
unfolding unit_loop offsets_loop
first_of_block a s [] u g i o h = absurd o
first_of_block a s (t ∷ ss) zero g i o h = (i, ground (arith, h), omega arith)
first_of_block a s (t ∷ ss) (suc u) g i o h =
    let (v, e, l) = first_of_block (a + s) t ss u g (i + 1) o h in
    elim (Bool-cases (leb g (a + s))) [
      | inl stop ↦ (i, rw stop refl, omega arith)
      | inr go ↦ (v, rw go e, omega (arith, l))
    ]

unit_at_coords-cons :
    (s : ℕ) (ss : List ℕ) (g : ℕ)
    → unit_at_coords (csr (s ∷ ss)) g
      ≡ unit_loop (λ next. leb g next) (length ss) 0 (offsets_loop (0 + s) ss)
unfolding unit_at_coords first_unit layout_of initialize_block_offsets offsets_loop
unit_at_coords-cons s ss g = ground arith

agree_if :
    (ss : List ℕ) (u g : ℕ)
    → Owner 0 ss u g
    → (start 0 ss u < g) ⊎ (u ≡ 0)
    → unit_at_coords (csr ss) g ≡ some u
agree_if [] u g o h = absurd o
agree_if (s ∷ ss) u g o h =
    unit_at_coords-cons s ss g ∙ inner 0 s ss u g 0 o h ∙ ap some (omega arith)

differ_if :
    (ss : List ℕ) (u g : ℕ)
    → Owner 0 ss (suc u) g
    → start 0 ss (suc u) ≡ g
    → unit_at_coords (csr ss) g ≢ some (suc u)
differ_if [] u g o h e = absurd o
differ_if (s ∷ ss) u g o h e =
    let (v, f, l) = first_of_block 0 s ss u g 0 o h in
    absurd (ground (arith, l, e, unit_at_coords-cons s ss g, f))

-- In the pattern for any local sizes, one for each unit, unit_at of coordinates answers what unit_at
-- of the index answers exactly if the element is not the first of its unit or the unit is the first.
pub unit_at_coords-unit_at :
    (ss : List ℕ) (g : ℕ)
    → g < (csr ss).size
    → (u l : ℕ) × (local (csr ss) g ≡ some record { unit = u; index = l })
      × ((unit_at_coords (csr ss) g ≡ unit_at (csr ss) g) ↔ ((0 < l) ⊎ (u ≡ 0)))
unit_at_coords-unit_at ss g h =
    let (u, o) = Owners.index_owned 0 ss g (omega arith) (omega (arith, h, size_total ss)) in
    (u, g - start 0 ss u, local-Owner ss u g o, (only ss u g o, sure ss u g o))
  where
    sure :
        (ss : List ℕ) (u g : ℕ)
        → Owner 0 ss u g
        → (0 < g - start 0 ss u) ⊎ (u ≡ 0)
        → unit_at_coords (csr ss) g ≡ unit_at (csr ss) g
    sure ss u g o (inl k) =
        agree_if ss u g o (inl (omega (arith, k))) ∙ sym (unit_at-Owner ss u g o)
    sure ss u g o (inr k) = agree_if ss u g o (inr k) ∙ sym (unit_at-Owner ss u g o)

    only :
        (ss : List ℕ) (u g : ℕ)
        → Owner 0 ss u g
        → unit_at_coords (csr ss) g ≡ unit_at (csr ss) g
        → (0 < g - start 0 ss u) ⊎ (u ≡ 0)
    only ss zero g o e = inr refl
    only ss (suc u) g o e = elim (ℕ_discrete (start 0 ss (suc u)) g) [
      | yes s ↦ absurd (differ_if ss u g o s (e ∙ unit_at-Owner ss (suc u) g o))
      | no s ↦ let p = Owners.Owner-Placed 0 ss (suc u) g o in inl (omega (arith, s, p.above))
    ]
