-- ===== src/Dash/CartesianIndexSpace/Words.antt =====
-- CartesianIndexSpace of dash/include/dash/Cartesian.h with the wrap-around of the source's types:
-- SizeType has `w` bits, and IndexType is the signed type of as many. The products of `resize` and
-- the sum of `at` are taken modulo 2 ^ w; the divisions of `coords` need nothing of that.
pub mod Exact
use coronas.Prelude.{ℕ, ◌+◌, ◌*◌, ◌%◌, ◌^◌, List, [], ◌∷◌, get_or}
use coronas.Dash.CartesianIndexSpace.{CartesianIndexSpace, MemArrange, offsets_of}

module _ (w : ℕ) where
  unfoldable pub size_loop : (size : ℕ) → List ℕ → ℕ
  size_loop size [] = size
  size_loop size (e ∷ es) = size_loop (size * e % 2 ^ w) es

  unfoldable pub row_offsets : List ℕ → List ℕ
  row_offsets [] = []
  row_offsets (e ∷ []) = 1 ∷ []
  row_offsets (e ∷ f ∷ es) = let rest = row_offsets (f ∷ es) in (get_or rest 0 1 * f % 2 ^ w) ∷ rest

  unfoldable pub col_offsets : (offset : ℕ) → List ℕ → List ℕ
  col_offsets offset [] = []
  col_offsets offset (e ∷ es) = offset ∷ col_offsets (offset * e % 2 ^ w) es

  unfoldable pub resize : List ℕ → CartesianIndexSpace
  resize extents = record {
    size = size_loop 1 extents;
    extents = extents;
    offset_row_major = row_offsets extents;
    offset_col_major = col_offsets 1 extents;
  }

  unfoldable pub at_loop : (offs : ℕ) → List ℕ → List ℕ → ℕ
  at_loop offs [] point = offs
  at_loop offs (offset_dim ∷ offsets) [] = offs
  at_loop offs (offset_dim ∷ offsets) (p ∷ point) =
      at_loop ((offs + offset_dim * p) % 2 ^ w) offsets point

  unfoldable pub at : MemArrange → CartesianIndexSpace → List ℕ → ℕ
  at arrangement s point = at_loop 0 (offsets_of arrangement s) point
