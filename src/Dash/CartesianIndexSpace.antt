-- ===== src/Dash/CartesianIndexSpace.antt =====
-- dash/include/dash/Cartesian.h: CartesianIndexSpace, which maps the points of a space to linear
-- indices and back, by rows or by columns (the arrangement of a class is one of the two). A point, the extents and the offsets are lists with an
-- entry for each dimension. The number of dimensions is not 0. Sizes, indices and coordinates are
-- natural numbers, without the wrap-around of the source's types, which Words has. The library is built without
-- DASH_ENABLE_ASSERTIONS, so nothing is checked; `none` is the trap of a division by 0.
pub mod RowMajor
pub mod ColMajor
pub mod RoundTrip
mod Words
mod Tests
use coronas.Prelude.{
  ℕ, ◌+◌, ◌*◌, ◌/◌, ◌%◌, ◌<◌, ◌≡◌, Bool, ◌&&◌, Option, none, some, List, [], ◌∷◌, arith, ltb, ◌==◌,
  if◌then◌else◌, length, set, get_or, ◌>>=◌,
}
use coronas.Dash.CartesianSpace.{size_loop, same_loop}

pub data MemArrange : Type 0 where
  row_major col_major : MemArrange

pub record CartesianIndexSpace : Type 0 where
  pub size : ℕ
  pub extents : List ℕ
  pub offset_row_major : List ℕ
  pub offset_col_major : List ℕ

-- The loop from the last dimension down: an offset is the next one times the next extent.
unfoldable pub row_offsets : List ℕ → List ℕ
row_offsets [] = []
row_offsets (e ∷ []) = 1 ∷ []
row_offsets (e ∷ f ∷ es) = let rest = row_offsets (f ∷ es) in (get_or rest 0 1 * f) ∷ rest

-- The loop from the first dimension up, with the next offset.
unfoldable pub col_offsets : (offset : ℕ) → List ℕ → List ℕ
col_offsets offset [] = []
col_offsets offset (e ∷ es) = offset ∷ col_offsets (offset * e) es

unfoldable pub resize : List ℕ → CartesianIndexSpace
resize extents = record {
  size = size_loop 1 extents;
  extents = extents;
  offset_row_major = row_offsets extents;
  offset_col_major = col_offsets 1 extents;
}

unfoldable pub resize_dim : CartesianIndexSpace → (dim extent : ℕ) → Option CartesianIndexSpace
resize_dim s dim extent =
    if ltb dim (length s.extents) then some (resize (set s.extents dim extent)) else none

-- The loop of operator==, which compares extents and row-major offsets.
unfoldable pub equal : CartesianIndexSpace → CartesianIndexSpace → Bool
equal s t = same_loop s.extents t.extents && same_loop s.offset_row_major t.offset_row_major

unfoldable pub offsets_of : MemArrange → CartesianIndexSpace → List ℕ
offsets_of row_major s = s.offset_row_major
offsets_of col_major s = s.offset_col_major

-- The loop over the dimensions that adds up the offset of a point.
unfoldable pub at_loop : (offs : ℕ) → List ℕ → List ℕ → ℕ
at_loop offs [] point = offs
at_loop offs (offset_dim ∷ offsets) [] = offs
at_loop offs (offset_dim ∷ offsets) (p ∷ point) = at_loop (offs + offset_dim * p) offsets point

unfoldable pub at : MemArrange → CartesianIndexSpace → List ℕ → ℕ
at arrangement s point = at_loop 0 (offsets_of arrangement s) point

-- The loop that adds the offsets of a view.
unfoldable pub add_offsets : List ℕ → List ℕ → List ℕ
add_offsets [] offsets = []
add_offsets (p ∷ point) [] = p ∷ point
add_offsets (p ∷ point) (o ∷ offsets) = (p + o) ∷ add_offsets point offsets

-- `at` with a view: the arrangement is that of the class, whatever the call asks for.
unfoldable pub at_view :
    (arrangement at_arrangement : MemArrange) → CartesianIndexSpace → List ℕ → List ℕ → ℕ
at_view arrangement at_arrangement s point offsets = at arrangement s (add_offsets point offsets)

-- The loop of `coords` by rows, from the first dimension up.
unfoldable pub row_coords : List ℕ → (index : ℕ) → Option (List ℕ)
row_coords [] index = some []
row_coords (o ∷ offsets) index =
    let rest = row_coords offsets (index % o) in
    if o == 0 then none else (do pos ← rest; some ((index / o) ∷ pos))

-- The loop of `coords` by columns, from the last dimension down, with the index that is left.
unfoldable pub col_coords : List ℕ → (index : ℕ) → Option (List ℕ × ℕ)
col_coords [] index = some ([], index)
col_coords (o ∷ offsets) index = do
  above ← col_coords offsets index
  if o == 0 then none else some ((above.1 / o) ∷ above.0, above.1 % o)

unfoldable pub coords : MemArrange → CartesianIndexSpace → ℕ → Option (List ℕ)
coords row_major s index = row_coords s.offset_row_major index
coords col_major s index = do pos ← col_coords s.offset_col_major index; some pos.0

-- `coords` with a view: again the arrangement of the class.
unfoldable pub coords_view :
    (arrangement coord_arrangement : MemArrange)
    → CartesianIndexSpace
    → ℕ
    → List ℕ
    → Option (List ℕ)
coords_view arrangement coord_arrangement s index offsets = do
  pos ← coords arrangement s index
  some (add_offsets pos offsets)

-- The point lies in the space with these extents.
abbrev pub InRange : List ℕ → List ℕ → Type 0
InRange [] [] = Unit {0}
InRange [] (e ∷ es) = ⊥
InRange (p ∷ ps) [] = ⊥
InRange (p ∷ ps) (e ∷ es) = (p < e) × InRange ps es

pub at_loop_lem : (offs : ℕ) (os ps : List ℕ) → at_loop offs os ps ≡ offs + at_loop 0 os ps
unfolding at_loop
at_loop_lem offs [] ps = omega arith
at_loop_lem offs (o ∷ os) [] = omega arith
at_loop_lem offs (o ∷ os) (p ∷ ps) =
    omega (arith, at_loop_lem (offs + o * p) os ps, at_loop_lem (0 + o * p) os ps)
