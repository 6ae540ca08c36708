-- ===== src/Dash/CsrPattern/RoundTrip.antt =====
-- The way between the global indices and the indices of the units.
use coronas.Prelude.{
  ℕ, zero, suc, ◌+◌, ◌-◌, ◌≤◌, ◌<◌, ◌≡◌, refl, sym, ap, subst, ◌∙◌, ◌≢◌, ◌↔◌, Bool, true, false,
  some, List, [], ◌∷◌, arith, dec_lt, ℕ_discrete, ltb, if◌then◌else◌, length, get_elem?,
}
use coronas.Dash.CsrPattern.{
  LocalIndex, Layout, layout_of, initialize_size, size_loop, initialize_block_offsets, offsets_loop,
  unit_at, first_unit, local, global, is_local, initialize_local_capacity, max_loop,
}
use coronas.Dash.CsrPattern.Owners
use coronas.Dash.CsrPattern.Owners.{total, start, Owner, Placed}

-- The members for the local sizes, one for each unit.
abbrev pub csr : List ℕ → Layout
csr ss = layout_of (initialize_size ss) ss (length ss)

size_loop_lem : (a : ℕ) (ss : List ℕ) → size_loop a ss ≡ a + total ss
unfolding size_loop
size_loop_lem a [] = omega arith
size_loop_lem a (s ∷ ss) = omega (arith, size_loop_lem (a + s) ss)

pub size_total : (ss : List ℕ) → (csr ss).size ≡ total ss
unfolding layout_of initialize_size
size_total ss = omega (arith, size_loop_lem 0 ss)

pub unit_at-Owner : (ss : List ℕ) (u g : ℕ) → Owner 0 ss u g → unit_at (csr ss) g ≡ some u
unfolding unit_at first_unit layout_of initialize_block_offsets offsets_loop
unit_at-Owner [] u g o = absurd o
unit_at-Owner (s ∷ ss) u g o = ground (arith, Owners.unit_loop-Owner 0 s ss u g 0 o)

pub local-Owner :
    (ss : List ℕ) (u g : ℕ)
    → Owner 0 ss u g
    → local (csr ss) g ≡ some record { unit = u; index = g - start 0 ss u }
unfolding local layout_of initialize_block_offsets
local-Owner ss u g o =
    let p = Owners.Owner-Placed 0 ss u g o in
    Owners.local_loop-Owner ss u (length ss) g o p.unit (omega arith)

-- The sum of an index and where its unit's block starts, also where there is one unit.
pub global-start :
    (ss : List ℕ) (u l : ℕ) → u < length ss → global (csr ss) u l ≡ some (start 0 ss u + l)
unfolding global layout_of initialize_block_offsets
global-start [] u l h = absurd (omega (arith, h))
global-start (s ∷ []) zero l h = ap some (omega arith)
global-start (s ∷ []) (suc u) l h = absurd (omega (arith, h))
global-start (s ∷ t ∷ ss) u l h = ground (arith, h, Owners.offset_at 0 (s ∷ t ∷ ss) u h)

max_loop_ge : (m : ℕ) (ss : List ℕ) → m ≤ max_loop m ss
unfolding max_loop
max_loop_ge m [] = omega arith
max_loop_ge m (s ∷ ss) = ground (arith, max_loop_ge (if ltb m s then s else m) ss)

max_loop-mem : (m : ℕ) (ss : List ℕ) (u s : ℕ) → get_elem? ss u ≡ some s → s ≤ max_loop m ss
unfolding max_loop
max_loop-mem m [] u s e = absurd (cc)
max_loop-mem m (t ∷ ss) zero s e = ground (arith, e, max_loop_ge (if ltb m t then t else m) ss)
max_loop-mem m (t ∷ ss) (suc u) s e = max_loop-mem (if ltb m t then t else m) ss u s e

-- The local capacity is no less than the size of any unit's block.
pub capacity_bound :
    (ss : List ℕ) (u s : ℕ)
    → get_elem? ss u ≡ some s
    → (c : ℕ) × (initialize_local_capacity (csr ss) ≡ some c) × (s ≤ c)
unfolding initialize_local_capacity layout_of
capacity_bound [] u s e = absurd (cc)
capacity_bound (t ∷ ss) zero s e =
    (max_loop t ss, ground arith, ground (arith, e, max_loop_ge t ss))
capacity_bound (t ∷ ss) (suc u) s e = (max_loop t ss, ground arith, max_loop-mem t ss u s e)

-- In the pattern for any local sizes, one for each unit, every global index below their sum has a
-- unit of the team and a local index below that unit's size and below the local capacity; unit_at
-- answers that unit, and `global` gives the index back.
pub global-local-csr :
    (ss : List ℕ) (g : ℕ)
    → g < (csr ss).size
    → (u l s c : ℕ) × (local (csr ss) g ≡ some record { unit = u; index = l })
      × (get_elem? ss u ≡ some s)
      × (l < s)
      × (initialize_local_capacity (csr ss) ≡ some c)
      × (l < c)
      × (unit_at (csr ss) g ≡ some u)
      × (global (csr ss) u l ≡ some g)
global-local-csr ss g h =
    let (u, o) = Owners.index_owned 0 ss g (omega arith) (omega (arith, h, size_total ss)) in
    let p = Owners.Owner-Placed 0 ss u g o in
    let (c, ec, le) = capacity_bound ss u p.size p.size_here in
    (
      u,
      g - start 0 ss u,
      p.size,
      c,
      local-Owner ss u g o,
      p.size_here,
      omega (arith, p.inside, p.above),
      ec,
      omega (arith, p.inside, p.above, le),
      unit_at-Owner ss u g o,
      global-start ss u (g - start 0 ss u) p.unit ∙ ap some (omega (arith, p.above)),
    )

-- In the pattern for any local sizes, one for each unit, a local index below a unit's size has a
-- global index below the sum of the sizes, whose unit and local index are these.
pub local-global-csr :
    (ss : List ℕ) (u l s : ℕ)
    → get_elem? ss u ≡ some s
    → l < s
    → (g : ℕ) × (global (csr ss) u l ≡ some g)
      × (g < (csr ss).size)
      × (local (csr ss) g ≡ some record { unit = u; index = l })
local-global-csr ss u l s e h =
    let o = Owners.offset_owned 0 ss u l s e h in
    let g = start 0 ss u + l in
    let p = Owners.Owner-Placed 0 ss u g o in
    (
      g,
      global-start ss u l p.unit,
      omega (arith, p.below, size_total ss),
      local-Owner ss u g o
          ∙ ap (λ (i : ℕ). some (let x : LocalIndex = record { unit = u; index = i } in x))
              (omega arith),
    )

is_local_own : (ss : List ℕ) (u g : ℕ) → Owner 0 ss u g → is_local (csr ss) g u ≡ some true
unfolding is_local layout_of initialize_block_offsets
is_local_own ss u g o =
    let p = Owners.Owner-Placed 0 ss u g o in
    elim (ℕ_discrete u (length ss - 1)) [
      | yes e ↦ ground (arith, e, p.above, Owners.offset_at 0 ss u p.unit)
      | no e ↦
          let l : u + 1 < length ss = omega (arith, e, p.unit) in
          ground (
            arith,
            e,
            p.above,
            Owners.offset_at 0 ss u p.unit,
            Owners.offset_at 0 ss (u + 1) l,
            Owners.start_behind 0 ss u (u + 1) g o (omega arith) l,
          )
    ]

is_local_other :
    (ss : List ℕ) (u v g : ℕ)
    → Owner 0 ss u g
    → v < length ss
    → v ≢ u
    → is_local (csr ss) g v ≡ some false
unfolding is_local layout_of initialize_block_offsets
is_local_other ss u v g o k n =
    let p = Owners.Owner-Placed 0 ss u g o in
    elim (dec_lt v u) [
      | yes h ↦ ground (
        arith,
        h,
        p.unit,
        Owners.offset_at 0 ss v k,
        Owners.offset_at 0 ss (v + 1) (omega (arith, h, p.unit)),
        Owners.start_le 0 ss u v g o (omega (arith, h)),
        Owners.start_le 0 ss u (v + 1) g o (omega (arith, h)),
      )
      | no h ↦ ground (
        arith,
        Owners.offset_at 0 ss v k,
        Owners.start_behind 0 ss u v g o (omega (arith, h, n)) k,
      )
    ]

-- In the pattern for any local sizes, one for each unit, `is_local` of a global index below their
-- sum answers for every unit of the team, and says yes exactly for the unit that unit_at answers.
is_local-unit_at :
    (ss : List ℕ) (g v : ℕ)
    → g < (csr ss).size
    → v < length ss
    → (b : Bool) × (is_local (csr ss) g v ≡ some b) × ((b ≡ true) ↔ (unit_at (csr ss) g ≡ some v))
is_local-unit_at ss g v h k =
    let (u, o) = Owners.index_owned 0 ss g (omega arith) (omega (arith, h, size_total ss)) in
    let at = unit_at-Owner ss u g o in
    elim (ℕ_discrete v u) [
      | yes e ↦ (
        true,
        subst (λ w. is_local (csr ss) g w ≡ some true) (sym e) (is_local_own ss u g o),
        (λ _. at ∙ ap some (sym e), λ _. refl),
      )
      | no e ↦ (false, is_local_other ss u v g o k e, (λ f. cc, λ i. absurd (e (cc (at, i)))))
    ]
