-- ===== src/Dash/BlockPattern/Loops.antt =====
-- The loops over the dimensions of the block pattern, one way and the other.
use coronas.Prelude.{
  ℕ, zero, suc, ◌*◌, ◌<◌, ◌≡◌, refl, sym, ap, subst, Option, none, some, List, [], ◌∷◌, map, arith,
  ◌>>=◌,
}
use coronas.Dash.BlockPattern1D.{Layout}
use coronas.Dash.BlockPattern.{
  local_extent_d, unit_coords, local_coords_loop, extents_loop, global_loop,
}
use coronas.Dash.BlockPattern.Dims.{IsRegular, forth_d, back_d, alone_d}
use coronas.Dash.CartesianIndexSpace.{InRange}
use coronas.Dash.CartesianSpace.{volume}
use mathlib.Core.Option.{some-injective}
use native.Mathlib.Nat.{mul-pos, mul-le-mul_right}

abbrev pub sizes_of : List Layout → List ℕ
sizes_of = map (λ (d : Layout). d.size)

abbrev pub units_of : List Layout → List ℕ
units_of = map (λ (d : Layout). d.nunits)

abbrev pub AllRegular : List Layout → Type 0
AllRegular [] = Unit {0}
AllRegular (d ∷ ds) = IsRegular d × AllRegular ds

pub unit_coords-InRange :
    (ds : List Layout) (cs : List ℕ)
    → AllRegular ds
    → InRange cs (sizes_of ds)
    → InRange (unit_coords ds cs) (units_of ds)
unfolding unit_coords
unit_coords-InRange [] [] r h = tt
unit_coords-InRange [] (c ∷ cs) r h = absurd h
unit_coords-InRange (d ∷ ds) [] r h = absurd h
unit_coords-InRange (d ∷ ds) (c ∷ cs) r h =
    ((forth_d d c r.0 h.0).0, unit_coords-InRange ds cs r.1 h.1)

-- The loops for a point in range.
pub forth :
    (ds : List Layout) (cs : List ℕ)
    → AllRegular ds
    → InRange cs (sizes_of ds)
    → ((es : List ℕ) × (extents_loop ds (unit_coords ds cs) ≡ some es)
        × InRange (local_coords_loop ds cs) es)
      × (global_loop ds (unit_coords ds cs) (local_coords_loop ds cs) ≡ some cs)
unfolding unit_coords extents_loop local_coords_loop global_loop
forth [] [] r h = (([], refl, tt), refl)
forth [] (c ∷ cs) r h = absurd h
forth (d ∷ ds) [] r h = absurd h
forth (d ∷ ds) (c ∷ cs) r h =
    let (hu, (e, ee, l), b, back) = forth_d d c r.0 h.0 in
    let ((es, ees, ls), g) = forth ds cs r.1 h.1 in
    ((e ∷ es, rw (ee, ees) refl, (l, ls)), rw (b, g, back) refl)

bind-some :
    {A B C : Type 0} (o : Option A) (q : Option B) (f : A → B → C) {c : C}
    → (o >>= λ a. q >>= λ b. some (f a b)) ≡ some c
    → (a : A) × (b : B) × (o ≡ some a) × (q ≡ some b) × (f a b ≡ c)
bind-some none q f h = absurd (cc)
bind-some (some a) none f h = absurd (cc)
bind-some (some a) (some b) f h = (a, b, refl, refl, some-injective _ _ h)

extents_parts :
    (d : Layout) (ds : List Layout) (u : ℕ) (us es : List ℕ)
    → extents_loop (d ∷ ds) (u ∷ us) ≡ some es
    → (e : ℕ) × (rest : List ℕ) × (local_extent_d d u ≡ some e)
      × (extents_loop ds us ≡ some rest)
      × (e ∷ rest ≡ es)
unfolding extents_loop
extents_parts d ds u us es h =
    bind-some (local_extent_d d u) (extents_loop ds us) (λ (e : ℕ) (r : List ℕ). e ∷ r) h

-- The loops for local coordinates of a unit.
pub back :
    (ds : List Layout) (us ls es : List ℕ)
    → AllRegular ds
    → InRange us (units_of ds)
    → extents_loop ds us ≡ some es
    → InRange ls es
    → (cs : List ℕ) × (global_loop ds us ls ≡ some cs)
      × InRange cs (sizes_of ds)
      × (unit_coords ds cs ≡ us)
      × (local_coords_loop ds cs ≡ ls)
unfolding unit_coords extents_loop local_coords_loop global_loop
back [] [] ls [] r hu e h = no_more ls h
  where
    no_more :
        (ls : List ℕ)
        → InRange ls []
        → (cs : List ℕ) × (◌≡◌ {A = Option (List ℕ)} (some []) (some cs))
          × InRange cs []
          × (◌≡◌ {A = List ℕ} (unit_coords [] cs) [])
          × (local_coords_loop [] cs ≡ ls)
    no_more [] h = ([], refl, tt, refl, refl)
    no_more (l ∷ ls) h = absurd h
back [] [] ls (e ∷ es) r hu f h = absurd (cc)
back [] (u ∷ us) ls es r hu e h = absurd hu
back (d ∷ ds) [] ls es r hu e h = absurd hu
back (d ∷ ds) (u ∷ us) [] es r hu e h =
    let (e1, rest, a, b, same) = extents_parts d ds u us es e in
    absurd (subst (InRange []) (sym same) h)
back (d ∷ ds) (u ∷ us) (l ∷ ls) es r hu e h =
    let (e1, rest, a, b, same) = extents_parts d ds u us es e in
    let inside = subst (InRange (l ∷ ls)) (sym same) h in
    let (k, g, round, sum, below, own, phase) = back_d d u l e1 r.0 hu.0 a inside.0 in
    let (cs, gs, ins, ucs, lcs) = back ds us ls rest r.1 hu.1 b inside.1 in
    (
      g ∷ cs,
      rw (round, gs) (ap (λ x. some (x ∷ cs)) sum),
      (below, ins),
      rw (own, ucs) refl,
      rw (phase, lcs) refl,
    )

-- Units in all dimensions, and in all fewer than 2.
pub team_positive : (ds : List Layout) → AllRegular ds → 0 < volume (units_of ds)
team_positive [] r = omega arith
team_positive (d ∷ ds) r = mul-pos r.0.units (team_positive ds r.1)

one_times : (n v : ℕ) → 0 < n → 0 < v → n * v < 2 → (n ≡ 1) × (v < 2)
one_times zero v h k l = absurd (omega (arith, h))
one_times (suc zero) v h k l = (refl, omega (arith, l))
one_times (suc (suc n)) v h k l =
    absurd (omega (arith, k, l, mul-le-mul_right {m = 2} {n = suc (suc n)} v (omega arith)))

pub alone :
    (ds : List Layout) (cs : List ℕ)
    → AllRegular ds
    → volume (units_of ds) < 2
    → InRange cs (sizes_of ds)
    → local_coords_loop ds cs ≡ cs
unfolding local_coords_loop
alone [] [] r h k = refl
alone [] (c ∷ cs) r h k = absurd k
alone (d ∷ ds) [] r h k = absurd k
alone (d ∷ ds) (c ∷ cs) r h k =
    let (one, rest) =
      one_times d.nunits (volume (units_of ds)) r.0.units (team_positive ds r.1) h in
    rw (alone_d d c one, alone ds cs r.1 rest k.1) refl
