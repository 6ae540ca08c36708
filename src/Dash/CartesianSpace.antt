-- ===== src/Dash/CartesianSpace.antt =====
-- dash/include/dash/Cartesian.h: CartesianSpace, the extents of a space by dimension and the number
-- of its elements. A list has as many entries as there are dimensions. Sizes are natural numbers,
-- without the wrap-around of the source's type; `none` is a dimension out of range.
use native.Mathlib.Nat.{mul_assoc}
use coronas.Prelude.{
  ℕ, ◌*◌, ◌≡◌, ◌∙◌, Bool, true, ◌&&◌, Option, none, some, List, [], ◌∷◌, arith, ltb, ◌==◌,
  if◌then◌else◌, length, get_elem?, set,
}

pub record CartesianSpace : Type 0 where
  pub size : ℕ
  pub extents : List ℕ

-- The loop over the dimensions that multiplies `size` by each extent.
unfoldable pub size_loop : (size : ℕ) → List ℕ → ℕ
size_loop size [] = size
size_loop size (e ∷ es) = size_loop (size * e) es

unfoldable pub resize : List ℕ → CartesianSpace
resize extents = record { size = size_loop 1 extents; extents = extents }

-- The resize in one dimension, which starts from the extents of before.
unfoldable pub resize_dim : CartesianSpace → (dim extent : ℕ) → Option CartesianSpace
resize_dim s dim extent =
    if ltb dim (length s.extents) then some (resize (set s.extents dim extent)) else none

unfoldable pub extent : CartesianSpace → ℕ → Option ℕ
extent s dim = get_elem? s.extents dim

-- The loop of operator== over the dimensions.
unfoldable pub same_loop : List ℕ → List ℕ → Bool
same_loop [] es' = true
same_loop (e ∷ es) [] = true
same_loop (e ∷ es) (e' ∷ es') = (e == e') && same_loop es es'

unfoldable pub equal : CartesianSpace → CartesianSpace → Bool
equal s t = same_loop s.extents t.extents

-- The product of the extents.
abbrev pub volume : List ℕ → ℕ
volume [] = 1
volume (e ∷ es) = e * volume es

pub size_loop_lem : (size : ℕ) (es : List ℕ) → size_loop size es ≡ size * volume es
unfolding size_loop
size_loop_lem size [] = omega arith
size_loop_lem size (e ∷ es) = size_loop_lem (size * e) es ∙ mul_assoc size e (volume es)

pub resize_size : (es : List ℕ) → (resize es).size ≡ volume es
unfolding resize
resize_size es = size_loop_lem 1 es ∙ omega arith
