-- ===== src/Dash/CartesianIndexSpace/RowMajor.antt =====
-- The row-major order: the offset of a dimension is the volume of the dimensions behind it.
use coronas.Prelude.{
  ℕ, suc, ◌+◌, ◌*◌, ◌/◌, ◌%◌, ◌<◌, ◌≡◌, refl, sym, ap, ◌∙◌, some, List, [], ◌∷◌, arith, get_or,
}
use coronas.Dash.CartesianIndexSpace.{row_offsets, at_loop, at_loop_lem, row_coords, InRange}
use coronas.Dash.CartesianSpace.{volume}
use coronas.Dash.Division.{div_unique, mod_unique}
use native.Mathlib.Nat.{mul_comm, mul-le-mul_right, div-lt_iff_lt-mul, mod-lt, div-add-mod'}

pub row_offsets-cons : (e : ℕ) (es : List ℕ) → row_offsets (e ∷ es) ≡ volume es ∷ row_offsets es
unfolding row_offsets
row_offsets-cons e [] = refl
row_offsets-cons e (f ∷ es) =
    ap (λ r. (get_or r 0 1 * f) ∷ r) (row_offsets-cons f es)
    ∙ ap (λ k. k ∷ (volume es ∷ row_offsets es)) (mul_comm (volume es) f)
    ∙ ap (λ r. volume (f ∷ es) ∷ r) (sym (row_offsets-cons f es))

-- The index of a point in row-major order.
abbrev pub row_index : List ℕ → List ℕ → ℕ
row_index es ps = at_loop 0 (row_offsets es) ps

pub row_index-cons :
    (e p : ℕ) (es ps : List ℕ) → row_index (e ∷ es) (p ∷ ps) ≡ p * volume es + row_index es ps
unfolding at_loop
row_index-cons e p es ps =
    ap (λ o. at_loop 0 o (p ∷ ps)) (row_offsets-cons e es)
    ∙ at_loop_lem (0 + volume es * p) (row_offsets es) ps
    ∙ omega (arith, mul_comm p (volume es))

pub row_index-lt : (es ps : List ℕ) → InRange ps es → row_index es ps < volume es
unfolding at_loop row_offsets
row_index-lt [] [] h = omega arith
row_index-lt [] (p ∷ ps) h = absurd h
row_index-lt (e ∷ es) [] h = absurd h
row_index-lt (e ∷ es) (p ∷ ps) h = omega (
  arith,
  row_index-cons e p es ps,
  row_index-lt es ps h.1,
  mul-le-mul_right {m = suc p} {n = e} (volume es) (omega (arith, h.0)),
)

volume_pos : (es : List ℕ) {i : ℕ} → i < volume es → 0 < volume es
volume_pos es h = omega arith

-- One round of the loop.
row_coords-cons :
    (e i : ℕ) (es ps : List ℕ)
    → 0 < volume es
    → row_coords (row_offsets es) (i % volume es) ≡ some ps
    → row_coords (row_offsets (e ∷ es)) i ≡ some ((i / volume es) ∷ ps)
unfolding row_coords
row_coords-cons e i es ps h r =
    ap (λ o. row_coords o i) (row_offsets-cons e es) ∙ ground (arith, h, r)

pub row_coords-at :
    (es ps : List ℕ) → InRange ps es → row_coords (row_offsets es) (row_index es ps) ≡ some ps
unfolding row_coords row_offsets
row_coords-at [] [] h = refl
row_coords-at [] (p ∷ ps) h = absurd h
row_coords-at (e ∷ es) [] h = absurd h
row_coords-at (e ∷ es) (p ∷ ps) h =
    let below = row_index-lt es ps h.1 in
    let q : row_index (e ∷ es) (p ∷ ps) / volume es ≡ p =
      ap (λ i. i / volume es) (row_index-cons e p es ps) ∙ div_unique p (row_index es ps) below in
    let r : row_index (e ∷ es) (p ∷ ps) % volume es ≡ row_index es ps =
      ap (λ i. i % volume es) (row_index-cons e p es ps) ∙ mod_unique p (row_index es ps) below in
    row_coords-cons e (row_index (e ∷ es) (p ∷ ps)) es ps (volume_pos es below)
      (ap (row_coords (row_offsets es)) r ∙ row_coords-at es ps h.1)
    ∙ ap (λ k. some (k ∷ ps)) q

-- Every index below the volume is that of a point.
pub row_point :
    (es : List ℕ) (i : ℕ)
    → i < volume es
    → (ps : List ℕ) × (row_coords (row_offsets es) i ≡ some ps)
      × InRange ps es
      × (row_index es ps ≡ i)
unfolding row_coords row_offsets at_loop
row_point [] i h = ([], refl, tt, omega (arith, h))
row_point (e ∷ es) i h =
    let v = volume es in
    let vp : 0 < v = grind (arith, h) in
    let (ps, c, inside, at) = row_point es (i % v) (mod-lt i vp) in
    (
      (i / v) ∷ ps,
      row_coords-cons e i es ps vp c,
      ((div-lt_iff_lt-mul vp).1 h, inside),
      row_index-cons e (i / v) es ps ∙ ap (λ k. i / v * v + k) at ∙ div-add-mod' i v,
    )
