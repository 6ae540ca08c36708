-- ===== src/Dash/CartesianIndexSpace/RoundTrip.antt =====
-- The way between points and linear indices, in both orders.
use coronas.Prelude.{ℕ, ◌+◌, ◌<◌, ◌≡◌, refl, subst, ◌∙◌, some, List, arith}
use coronas.Dash.CartesianIndexSpace.{
  col_offsets, col_coords, MemArrange, row_major, col_major, resize, at, coords, InRange,
  offsets_of,
}
use coronas.Dash.CartesianIndexSpace.RowMajor
use coronas.Dash.CartesianIndexSpace.ColMajor
use coronas.Dash.CartesianSpace.{volume, size_loop_lem}

pub size_volume : (es : List ℕ) → (resize es).size ≡ volume es
unfolding resize
size_volume es = size_loop_lem 1 es ∙ omega arith

-- In a space of any extents, by rows and by columns, a point in range has an index below the size,
-- and `coords` gives the point back.
pub coords-at :
    (m : MemArrange) (es point : List ℕ)
    → InRange point es
    → (at m (resize es) point < (resize es).size)
      × (coords m (resize es) (at m (resize es) point) ≡ some point)
unfolding at coords resize offsets_of
coords-at row_major es point h = (
  omega (arith, RowMajor.row_index-lt es point h, size_volume es),
  RowMajor.row_coords-at es point h,
)
coords-at col_major es point h =
    let c = ColMajor.col_coords-at 1 es point 0 (omega arith) h in
    let e : ColMajor.col_index 1 es point + 0 ≡ ColMajor.col_index 1 es point = omega arith in
    (
      omega (arith, ColMajor.col_index-lt 1 es point 0 (omega arith) h, size_volume es),
      rw (subst (λ i. col_coords (col_offsets 1 es) i ≡ some (point, 0)) e c) refl,
    )

-- In a space of any extents, by rows and by columns, `coords` of an index below the size is a point
-- in range, and `at` gives the index back.
pub at-coords :
    (m : MemArrange) (es : List ℕ) (index : ℕ)
    → index < (resize es).size
    → (point : List ℕ) × (coords m (resize es) index ≡ some point)
      × InRange point es
      × (at m (resize es) point ≡ index)
unfolding at coords resize offsets_of
at-coords row_major es index h = RowMajor.row_point es index (omega (arith, h, size_volume es))
at-coords col_major es index h =
    let (ps, j, c, inside, small, e) =
      ColMajor.col_point 1 es index (omega (arith, h, size_volume es)) in
    (ps, rw c refl, inside, omega (arith, e, small))
