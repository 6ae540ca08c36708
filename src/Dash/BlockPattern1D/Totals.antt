-- ===== src/Dash/BlockPattern1D/Totals.antt =====
-- The extents of all units together, and when the constructor gives a pattern.
use coronas.Prelude.{
  ℕ, zero, suc, ◌+◌, ◌*◌, ◌/◌, ◌%◌, ◌≤◌, ◌<◌, ◌≡◌, refl, ap, ◌∙◌, Option, some, arith, ltb, ◌==◌,
  if◌then◌else◌, ◌>>=◌,
}
use coronas.Dash.BlockPattern1D.{layout, last_block_unit, initialize_local_extent, Layout}
use coronas.Dash.BlockPattern1D.Extent.{size_lem, IsPartition, extent_lem}
use coronas.Dash.BlockPattern1D.Coords.{partition}
use coronas.Dash.Division.{missing, count}
use native.Mathlib.Nat.{div-add-mod', mod-lt}

-- The sum of the extents of the first `n` units.
unfoldable pub extents_upto : Layout → ℕ → Option ℕ
extents_upto p zero = some 0
extents_upto p (suc n) = do
  before ← extents_upto p n
  e ← initialize_local_extent p n
  some (before + e)

-- The number of blocks of the first `n` of units.
abbrev counts_upto : (k m n : ℕ) → ℕ
counts_upto k m zero = 0
counts_upto k m (suc n) = counts_upto k m n + count k m n

below_step :
    (x n m : ℕ)
    → (if ltb x (suc n) then m else 0) ≡ (if ltb x n then m else 0) + (if n == x then m else 0)
below_step x n m = ground arith

below_zero : (x m : ℕ) → (if ltb x 0 then m else 0) ≡ 0
below_zero x m = ground arith

upto_step :
    (n r : ℕ)
    → (if ltb (suc n) r then suc n else r) ≡ (if ltb n r then n else r) + (if ltb n r then 1 else 0)
upto_step n r = ground arith

upto_zero : (r : ℕ) → (if ltb 0 r then 0 else r) ≡ 0
upto_zero r = ground arith

counts_lem : (k m n : ℕ) → counts_upto k m n ≡ n * (k / m) + (if ltb n (k % m) then n else k % m)
counts_lem k m zero = omega (arith, upto_zero (k % m))
counts_lem k m (suc n) = omega (arith, counts_lem k m n, upto_step n (k % m))

counts_all : (k m : ℕ) → 0 < m → counts_upto k m m ≡ k
counts_all k m h = ground (arith, counts_lem k m m, mod-lt k h, div-add-mod' k m)

last_in : (p : Layout) → 0 < p.nunits → last_block_unit p < p.nunits
unfolding last_block_unit
last_in p h = ground (arith, mod-lt p.nblocks h)

extents_lem :
    (p : Layout)
    → IsPartition p
    → (n : ℕ) → n ≤ p.nunits
    → (s : ℕ) × (extents_upto p n ≡ some s)
      × (s + (if ltb (last_block_unit p) n then missing p.size p.blocksize else 0)
          ≡ counts_upto p.nblocks p.nunits n * p.blocksize)
unfolding extents_upto
extents_lem p w zero h =
    (0, refl, omega (arith, below_zero (last_block_unit p) (missing p.size p.blocksize)))
extents_lem p w (suc n) h =
    let (s, es, cs) = extents_lem p w n (omega (arith, h)) in
    let (e, ee, ce) = extent_lem p n w h in
    (
      s + e,
      rw (es, ee) refl,
      omega (arith, cs, ce, below_step (last_block_unit p) n (missing p.size p.blocksize)),
    )

below_all : {x n : ℕ} → x < n → (m : ℕ) → (if ltb x n then m else 0) ≡ m
below_all h m = ground (arith, h)

-- In a pattern that the constructor lays out, with units and with elements in a block,
-- the numbers of elements of all units add up to the size.
pub extents_total :
    (p : Layout)
    → layout p.size p.dist p.nunits ≡ some p
    → 0 < p.nunits
    → 0 < p.blocksize
    → extents_upto p p.nunits ≡ some p.size
extents_total p h n b =
    let w = partition p h n b in
    let (s, es, cs) = extents_lem p w p.nunits (omega arith) in
    es
    ∙ ap some (
        omega (
          arith,
          cs,
          size_lem p w,
          ap (λ x. x * p.blocksize) (counts_all p.nblocks p.nunits n),
          below_all (last_in p n) (missing p.size p.blocksize),
        ))
