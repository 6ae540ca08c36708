-- ===== src/Dash/CartesianIndexSpace/Tests.antt =====
-- Spaces of few points.
use coronas.Prelude.{ℕ, ◌<◌, ◌≡◌, refl, some, List, [], ◌∷◌, arith}
use coronas.Dash.CartesianIndexSpace.{
  col_offsets, row_offsets, at_loop, size_loop, row_major, col_major, resize, at, coords, InRange,
  offsets_of,
}
use coronas.Dash.CartesianSpace.{size_loop, volume}
use coronas.Dash.CartesianIndexSpace.RoundTrip.{at-coords}
use coronas.Dash.CartesianIndexSpace.Words
use coronas.Dash.CartesianIndexSpace.Words.Exact.{coords-at_words}

abbrev shape : List ℕ
shape = 2 ∷ 3 ∷ 4 ∷ []

by_rows : at row_major (resize shape) (1 ∷ 2 ∷ 3 ∷ []) ≡ 23
unfolding at at_loop offsets_of resize row_offsets col_offsets
by_rows = refl

by_columns : at col_major (resize shape) (1 ∷ 0 ∷ 2 ∷ []) ≡ 13
unfolding at at_loop offsets_of resize row_offsets col_offsets
by_columns = refl

coords-at_words_example :
    ((Words.resize 32 shape).size ≡ volume shape)
    × (Words.at 32 col_major (Words.resize 32 shape) (1 ∷ 0 ∷ 2 ∷ [])
        < (Words.resize 32 shape).size)
    × (coords col_major
          (Words.resize 32 shape)
          (Words.at 32 col_major (Words.resize 32 shape) (1 ∷ 0 ∷ 2 ∷ []))
        ≡ some (1 ∷ 0 ∷ 2 ∷ []))
coords-at_words_example =
    coords-at_words 32 col_major shape (1 ∷ 0 ∷ 2 ∷ []) (omega arith) (omega arith)

-- 65536 by 65536 points have the size 0 in 32 bits.
wrapped : (Words.resize 32 (65536 ∷ 65536 ∷ [])).size ≡ 0
unfolding Words.resize Words.size_loop
wrapped = refl

thirteen_inside : 13 < (resize shape).size
unfolding resize size_loop
thirteen_inside = omega arith

at-coords_example :
    (point : List ℕ) × (coords row_major (resize shape) 13 ≡ some point)
    × InRange point shape
    × (at row_major (resize shape) point ≡ 13)
at-coords_example = at-coords row_major shape 13 thirteen_inside
