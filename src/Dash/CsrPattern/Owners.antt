-- ===== src/Dash/CsrPattern/Owners.antt =====
-- The unit that has an index, by the sizes of the blocks alone, and what the loops over the offsets
-- answer for it.
use coronas.Prelude.{
  ℕ, zero, suc, ◌+◌, ◌-◌, ◌≤◌, ◌<◌, ◌≡◌, refl, ap, subst, some, List, [], ◌∷◌, arith, dec_lt,
  ℕ_discrete, ltb, length, get_elem?,
}
use coronas.Dash.CsrPattern.{LocalIndex, offsets_loop, unit_loop, local_loop}

-- The sum of the sizes.
abbrev pub total : List ℕ → ℕ
total [] = 0
total (s ∷ ss) = s + total ss

-- Where the block of a unit starts, where the first starts at `a`.
abbrev pub start : (a : ℕ) → List ℕ → (unit : ℕ) → ℕ
start a [] u = a
start a (s ∷ ss) zero = a
start a (s ∷ ss) (suc u) = start (a + s) ss u

-- The unit's block holds the index.
abbrev pub Owner : (a : ℕ) → List ℕ → (unit g : ℕ) → Type 0
Owner a [] u g = ⊥
Owner a (s ∷ ss) zero g = (a ≤ g) × (g < a + s)
Owner a (s ∷ ss) (suc u) g = Owner (a + s) ss u g

pub index_owned :
    (a : ℕ) (ss : List ℕ) (g : ℕ) → a ≤ g → g < a + total ss → (u : ℕ) × Owner a ss u g
index_owned a [] g h k = absurd (omega (arith, h, k))
index_owned a (s ∷ ss) g h k = elim (dec_lt g (a + s)) [
  | yes l ↦ (0, (h, l))
  | no l ↦ let (u, o) = index_owned (a + s) ss g (omega (arith, l)) (omega (arith, k)) in (suc u, o)
]

-- The facts about a unit and an index of its block.
pub record Placed (a : ℕ) (ss : List ℕ) (u g : ℕ) : Type 0 where
  pub unit : u < length ss
  pub above : start a ss u ≤ g
  pub first : a ≤ start a ss u
  pub size : ℕ
  pub size_here : get_elem? ss u ≡ some size
  pub inside : g < start a ss u + size
  pub below : g < a + total ss

pub Owner-Placed : (a : ℕ) (ss : List ℕ) (u g : ℕ) → Owner a ss u g → Placed a ss u g
Owner-Placed a [] u g o = absurd o
Owner-Placed a (s ∷ ss) zero g o = record {
  unit = omega arith;
  above = o.0;
  first = omega arith;
  size = s;
  size_here = refl;
  inside = o.1;
  below = omega (arith, o.1);
}
Owner-Placed a (s ∷ ss) (suc u) g o =
    let p = Owner-Placed (a + s) ss u g o in
    record {
      unit = omega (arith, p.unit);
      above = p.above;
      first = omega (arith, p.first);
      size = p.size;
      size_here = p.size_here;
      inside = p.inside;
      below = omega (arith, p.below);
    }

pub offset_owned :
    (a : ℕ) (ss : List ℕ) (u l s : ℕ)
    → get_elem? ss u ≡ some s
    → l < s
    → Owner a ss u (start a ss u + l)
offset_owned a [] u l s e h = absurd (cc)
offset_owned a (t ∷ ss) zero l s e h = (omega arith, ground (arith, e, h))
offset_owned a (t ∷ ss) (suc u) l s e h = offset_owned (a + t) ss u l s e h

pub offset_at :
    (a : ℕ) (ss : List ℕ) (u : ℕ)
    → u < length ss
    → get_elem? (offsets_loop a ss) u ≡ some (start a ss u)
unfolding offsets_loop
offset_at a [] u h = absurd (omega (arith, h))
offset_at a (s ∷ ss) zero h = refl
offset_at a (s ∷ ss) (suc u) h = offset_at (a + s) ss u (omega (arith, h))

start_first : (b : ℕ) (ts : List ℕ) (w : ℕ) → b ≤ start b ts w
start_first b [] w = omega arith
start_first b (t ∷ ts) zero = omega arith
start_first b (t ∷ ts) (suc w) = omega (arith, start_first (b + t) ts w)

-- A later block starts behind the index.
pub start_behind :
    (a : ℕ) (ss : List ℕ) (u v g : ℕ) → Owner a ss u g → u < v → v < length ss → g < start a ss v
start_behind a [] u v g o h k = absurd o
start_behind a (s ∷ ss) zero zero g o h k = absurd (omega (arith, h))
start_behind a (s ∷ ss) zero (suc v) g o h k = omega (arith, o.1, start_first (a + s) ss v)
start_behind a (s ∷ ss) (suc u) zero g o h k = absurd (omega (arith, h))
start_behind a (s ∷ ss) (suc u) (suc v) g o h k =
    start_behind (a + s) ss u v g o (omega (arith, h)) (omega (arith, k))

-- An earlier block starts at the index or before.
pub start_le : (a : ℕ) (ss : List ℕ) (u w g : ℕ) → Owner a ss u g → w ≤ u → start a ss w ≤ g
start_le a [] u w g o h = absurd o
start_le a (s ∷ ss) u zero g o h =
    let p = Owner-Placed a (s ∷ ss) u g o in omega (arith, p.above, p.first)
start_le a (s ∷ ss) zero (suc w) g o h = absurd (omega (arith, h))
start_le a (s ∷ ss) (suc u) (suc w) g o h = start_le (a + s) ss u w g o (omega (arith, h))

-- The loop for an index finds the unit.
pub unit_loop-Owner :
    (a s : ℕ) (ss : List ℕ) (u g i : ℕ)
    → Owner a (s ∷ ss) u g
    → unit_loop (λ next. ltb g next) (length ss) i (offsets_loop (a + s) ss) ≡ some (i + u)
unfolding unit_loop offsets_loop
unit_loop-Owner a s [] zero g i o = ap some (omega arith)
unit_loop-Owner a s [] (suc u) g i o = absurd o
unit_loop-Owner a s (t ∷ ss) zero g i o = ground (arith, o.1)
unit_loop-Owner a s (t ∷ ss) (suc u) g i o =
    let p = Owner-Placed (a + s) (t ∷ ss) u g o in
    ground (arith, p.above, p.first, unit_loop-Owner (a + s) t ss u g (i + 1) o)

abbrev found : List ℕ → (u g : ℕ) → LocalIndex
found ss u g = record { unit = u; index = g - start 0 ss u }

local_loop_here :
    (ss : List ℕ) (u g : ℕ)
    → Owner 0 ss u g
    → local_loop (suc u) (offsets_loop 0 ss) g ≡ some record { unit = u; index = g - start 0 ss u }
unfolding local_loop
local_loop_here ss u g o =
    let p = Owner-Placed 0 ss u g o in ground (arith, p.above, p.unit, offset_at 0 ss u p.unit)

-- The loop from the last unit down, begun at the unit or later, finds the unit.
pub local_loop-Owner :
    (ss : List ℕ) (u n g : ℕ)
    → Owner 0 ss u g
    → u < n
    → n ≤ length ss
    → local_loop n (offsets_loop 0 ss) g ≡ some record { unit = u; index = g - start 0 ss u }
unfolding local_loop
local_loop-Owner ss u zero g o h k = absurd (omega (arith, h))
local_loop-Owner ss u (suc v) g o h k = elim (ℕ_discrete u v) [
  | yes e ↦
      subst (λ w. local_loop (suc w) (offsets_loop 0 ss) g ≡ some (found ss u g)) e
        (local_loop_here ss u g o)
  | no e ↦
      let before : u < v = omega (arith, e, h) in
      ground (
        arith,
        start_behind 0 ss u v g o before (omega (arith, k)),
        offset_at 0 ss v (omega (arith, k)),
        local_loop-Owner ss u v g o before (omega (arith, k)),
      )
]
