-- ===== src/Dash/CartesianIndexSpace/Words/Exact.antt =====
-- Nothing wraps around in a space whose size the types can hold.
use coronas.Prelude.{
  ℕ, ◌+◌, ◌*◌, ◌%◌, ◌^◌, ◌≤◌, ◌<◌, ◌≡◌, refl, sym, ap, subst, ◌∙◌, some, List, [], ◌∷◌, arith,
  get_or,
}
use coronas.Dash.CartesianIndexSpace
use coronas.Dash.CartesianIndexSpace.{MemArrange, InRange, coords, offsets_of, at_loop_lem}
use coronas.Dash.CartesianIndexSpace.RowMajor.{row_offsets-cons}
use coronas.Dash.CartesianIndexSpace.RoundTrip.{coords-at, size_volume}
use coronas.Dash.CartesianIndexSpace.Words.{
  size_loop, row_offsets, col_offsets, resize, at_loop, at,
}
use coronas.Dash.CartesianSpace
use coronas.Dash.CartesianSpace.{volume}
use native.Mathlib.Nat.{mul_assoc, mul_comm, mul-le-mul_left, mod-eq_of_lt, mul-pos}

abbrev AllPositive : List ℕ → Type 0
AllPositive [] = Unit {0}
AllPositive (e ∷ es) = (0 < e) × AllPositive es

InRange-AllPositive : (es ps : List ℕ) → InRange ps es → AllPositive es
InRange-AllPositive [] [] h = tt
InRange-AllPositive [] (p ∷ ps) h = absurd h
InRange-AllPositive (e ∷ es) [] h = absurd h
InRange-AllPositive (e ∷ es) (p ∷ ps) h = (omega (arith, h.0), InRange-AllPositive es ps h.1)

volume_pos : (es : List ℕ) → AllPositive es → 0 < volume es
volume_pos [] h = omega arith
volume_pos (e ∷ es) h = mul-pos h.0 (volume_pos es h.1)

le_times : (a v : ℕ) → 0 < v → a ≤ a * v
le_times a v h = omega (arith, mul-le-mul_left {m = 1} {n = v} a (omega (arith, h)))

-- A product with the first extent is in reach where that with all of them is.
step_fits :
    (w a e : ℕ) (es : List ℕ)
    → AllPositive es
    → a * (e * volume es) < 2 ^ w
    → (a * e % 2 ^ w ≡ a * e) × (a * e * volume es < 2 ^ w)
step_fits w a e es h k =
    let all : a * e * volume es < 2 ^ w = omega (arith, k, mul_assoc a e (volume es)) in
    (mod-eq_of_lt (omega (arith, all, le_times (a * e) (volume es) (volume_pos es h))), all)

size_loop_exact :
    (w a : ℕ) (es : List ℕ)
    → AllPositive es
    → a * volume es < 2 ^ w
    → size_loop w a es ≡ CartesianSpace.size_loop a es
unfolding size_loop CartesianSpace.size_loop
size_loop_exact w a [] h k = refl
size_loop_exact w a (e ∷ es) h k =
    let (fits, all) = step_fits w a e es h.1 k in
    ap (λ x. size_loop w x es) fits ∙ size_loop_exact w (a * e) es h.1 all

col_offsets_exact :
    (w a : ℕ) (es : List ℕ)
    → AllPositive es
    → a * volume es < 2 ^ w
    → col_offsets w a es ≡ CartesianIndexSpace.col_offsets a es
unfolding col_offsets CartesianIndexSpace.col_offsets
col_offsets_exact w a [] h k = refl
col_offsets_exact w a (e ∷ es) h k =
    let (fits, all) = step_fits w a e es h.1 k in
    ap (λ x. a ∷ x) (ap (λ x. col_offsets w x es) fits ∙ col_offsets_exact w (a * e) es h.1 all)

row_offsets_exact :
    (w : ℕ) (es : List ℕ)
    → AllPositive es
    → volume es < 2 ^ w
    → row_offsets w es ≡ CartesianIndexSpace.row_offsets es
unfolding row_offsets CartesianIndexSpace.row_offsets
row_offsets_exact w [] h k = refl
row_offsets_exact w (e ∷ []) h k = refl
row_offsets_exact w (e ∷ f ∷ es) h k =
    let behind : volume (f ∷ es) < 2 ^ w =
      omega (arith, k, mul_comm e (volume (f ∷ es)), le_times (volume (f ∷ es)) e h.0) in
    let first : get_or (CartesianIndexSpace.row_offsets (f ∷ es)) 0 1 * f ≡ volume (f ∷ es) =
      ap (λ r. get_or r 0 1 * f) (row_offsets-cons f es) ∙ mul_comm (volume es) f in
    ap (λ r. (get_or r 0 1 * f % 2 ^ w) ∷ r) (row_offsets_exact w (f ∷ es) h.1 behind)
    ∙ ap (λ x. x ∷ CartesianIndexSpace.row_offsets (f ∷ es))
        (mod-eq_of_lt (subst (λ x. x < 2 ^ w) (sym first) behind))

at_loop_exact :
    (w offs : ℕ) (os ps : List ℕ)
    → CartesianIndexSpace.at_loop offs os ps < 2 ^ w
    → at_loop w offs os ps ≡ CartesianIndexSpace.at_loop offs os ps
unfolding at_loop CartesianIndexSpace.at_loop
at_loop_exact w offs [] ps k = refl
at_loop_exact w offs (o ∷ os) [] k = refl
at_loop_exact w offs (o ∷ os) (p ∷ ps) k =
    ap (λ x. at_loop w x os ps) (mod-eq_of_lt (omega (arith, k, at_loop_lem (offs + o * p) os ps)))
    ∙ at_loop_exact w (offs + o * p) os ps k

resize_exact :
    (w : ℕ) (es : List ℕ)
    → AllPositive es
    → volume es < 2 ^ w
    → resize w es ≡ CartesianIndexSpace.resize es
unfolding resize CartesianIndexSpace.resize
resize_exact w es h k =
    let one : 1 * volume es < 2 ^ w = omega (arith, k) in
    rw (size_loop_exact w 1 es h one, col_offsets_exact w 1 es h one, row_offsets_exact w es h k)
      refl

-- With a SizeType of w bits, in a space whose number of points, the product of the extents, is at
-- most 2 ^ w / 2, as many as IndexType counts, by rows and by columns: the size is that product, a
-- point in range has an index below it, and `coords` gives the point back.
pub coords-at_words :
    (w : ℕ) (m : MemArrange) (es point : List ℕ)
    → 2 * volume es ≤ 2 ^ w
    → InRange point es
    → ((resize w es).size ≡ volume es)
      × (at w m (resize w es) point < (resize w es).size)
      × (coords m (resize w es) (at w m (resize w es) point) ≡ some point)
unfolding at CartesianIndexSpace.at
coords-at_words w m es point k h =
    let positive = InRange-AllPositive es point h in
    let fits : volume es < 2 ^ w = omega (arith, k, volume_pos es positive) in
    let (inside, back) = coords-at m es point h in
    let index : at w m (CartesianIndexSpace.resize es) point
        ≡ CartesianIndexSpace.at m (CartesianIndexSpace.resize es) point =
      at_loop_exact w 0 (offsets_of m (CartesianIndexSpace.resize es)) point
        (omega (arith, inside, size_volume es, fits)) in
    subst
      (λ s.
        (s.size ≡ volume es)
        × (at w m s point < s.size)
        × (coords m s (at w m s point) ≡ some point))
      (sym (resize_exact w es positive fits))
      (
        size_volume es,
        subst (λ i. i < (CartesianIndexSpace.resize es).size) (sym index) inside,
        subst (λ i. coords m (CartesianIndexSpace.resize es) i ≡ some point) (sym index) back,
      )
