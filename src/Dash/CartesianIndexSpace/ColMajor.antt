-- ===== src/Dash/CartesianIndexSpace/ColMajor.antt =====
-- The column-major order: the offset of a dimension is the volume of the dimensions before it. The
-- lemmas are about the dimensions from some one on, whose first offset is `a`.
use coronas.Prelude.{
  ℕ, zero, suc, ◌+◌, ◌*◌, ◌/◌, ◌%◌, ◌<◌, ◌≡◌, refl, ap, ◌∙◌, some, List, [], ◌∷◌, arith,
}
use coronas.Dash.CartesianIndexSpace.{col_offsets, at_loop, at_loop_lem, col_coords, InRange}
use coronas.Dash.CartesianSpace.{volume}
use coronas.Dash.Division.{div_unique, mod_unique}
use native.Mathlib.Nat.{
  lt_of_mul-lt-mul_right, mul_comm, mul-le-mul_left, mul_assoc, mod-lt, div-add-mod',
}

-- The index of a point in column-major order.
abbrev pub col_index : (a : ℕ) → List ℕ → List ℕ → ℕ
col_index a es ps = at_loop 0 (col_offsets a es) ps

col_index-cons :
    (a e p : ℕ) (es ps : List ℕ) → col_index a (e ∷ es) (p ∷ ps) ≡ a * p + col_index (a * e) es ps
unfolding at_loop col_offsets
col_index-cons a e p es ps = at_loop_lem (0 + a * p) (col_offsets (a * e) es) ps ∙ omega arith

-- A coordinate in range and what is left below it.
below_next : (a e p r : ℕ) → p < e → r < a → a * p + r < a * e
below_next a e p r h k =
    omega (arith, mul-le-mul_left {m = suc p} {n = e} a (omega (arith, h)), h, k)

split_back : (a p r : ℕ) → r < a → ((a * p + r) / a ≡ p) × ((a * p + r) % a ≡ r)
split_back a p r h = (
  ap (λ x. (x + r) / a) (mul_comm a p) ∙ div_unique p r h,
  ap (λ x. (x + r) % a) (mul_comm a p) ∙ mod_unique p r h,
)

-- One round of the loop.
col_coords-cons :
    (a e i j : ℕ) (es ps : List ℕ)
    → 0 < a
    → col_coords (col_offsets (a * e) es) i ≡ some (ps, j)
    → col_coords (col_offsets a (e ∷ es)) i ≡ some ((j / a) ∷ ps, j % a)
unfolding col_coords col_offsets
col_coords-cons a e i j es ps h c = rw c (ground (arith, h))

-- What is left below `a` is not looked at.
pub col_coords-at :
    (a : ℕ) (es ps : List ℕ) (r : ℕ)
    → r < a
    → InRange ps es
    → col_coords (col_offsets a es) (col_index a es ps + r) ≡ some (ps, r)
unfolding col_coords col_offsets at_loop
col_coords-at a [] [] r h k = ap (λ x. some ([], x)) (omega arith)
col_coords-at a [] (p ∷ ps) r h k = absurd k
col_coords-at a (e ∷ es) [] r h k = absurd k
col_coords-at a (e ∷ es) (p ∷ ps) r h k =
    let whole : col_index a (e ∷ es) (p ∷ ps) + r ≡ col_index (a * e) es ps + (a * p + r) =
      omega (arith, col_index-cons a e p es ps) in
    let s = split_back a p r h in
    ap (col_coords (col_offsets a (e ∷ es))) whole
    ∙ col_coords-cons a e (col_index (a * e) es ps + (a * p + r)) (a * p + r) es ps
        (omega (arith, h)) (col_coords-at (a * e) es ps (a * p + r) (below_next a e p r k.0 h) k.1)
    ∙ ap (λ x. some (x ∷ ps, (a * p + r) % a)) s.0
    ∙ ap (λ x. some (p ∷ ps, x)) s.1

pub col_index-lt :
    (a : ℕ) (es ps : List ℕ) (r : ℕ) → r < a → InRange ps es → col_index a es ps + r < a * volume es
unfolding at_loop col_offsets
col_index-lt a [] [] r h k = omega (arith, h)
col_index-lt a [] (p ∷ ps) r h k = absurd k
col_index-lt a (e ∷ es) [] r h k = absurd k
col_index-lt a (e ∷ es) (p ∷ ps) r h k = omega (
  arith,
  col_index-cons a e p es ps,
  mul_assoc a e (volume es),
  col_index-lt (a * e) es ps (a * p + r) (below_next a e p r k.0 h) k.1,
)

div_below : (a e j : ℕ) → 0 < a → j < a * e → j / a < e
div_below a e j h k = lt_of_mul-lt-mul_right a (omega (arith, mul_comm a e, div-add-mod' j a, k))

positive_factor : (a b i : ℕ) → i < a * b → 0 < a
positive_factor zero b i h = absurd (omega (arith, h))
positive_factor (suc a) b i h = omega arith

positive_part : (a e : ℕ) (es : List ℕ) (i : ℕ) → i < a * volume (e ∷ es) → 0 < e
positive_part a e es i h =
    positive_factor e (volume es) (i / a)
      (div_below a (e * volume es) i (positive_factor a (e * volume es) i h) h)

-- Every index below the volume is that of a point.
pub col_point :
    (a : ℕ) (es : List ℕ) (i : ℕ)
    → i < a * volume es
    → (ps : List ℕ) × (j : ℕ) × (col_coords (col_offsets a es) i ≡ some (ps, j))
      × InRange ps es
      × (j < a)
      × (col_index a es ps + j ≡ i)
unfolding col_coords col_offsets at_loop
col_point a [] i h = ([], i, refl, tt, omega (arith, h), omega arith)
col_point a (e ∷ es) i h =
    let ap0 = positive_factor a (e * volume es) i h in
    let (ps, j, c, inside, small, at) =
      col_point (a * e) es i (omega (arith, mul_assoc a e (volume es), h)) in
    (
      (j / a) ∷ ps,
      j % a,
      col_coords-cons a e i j es ps ap0 c,
      (div_below a e j ap0 small, inside),
      mod-lt j ap0,
      omega (arith, col_index-cons a e (j / a) es ps, at, mul_comm a (j / a), div-add-mod' j a),
    )
