-- ===== src/Dash/BlockPattern1D/Construction.antt =====
-- When the constructor of a pattern gives one, and the range that it computes for its unit.
use coronas.Prelude.{
  ℕ, suc, ◌+◌, ◌-◌, ◌*◌, ◌/◌, ◌%◌, ◌≤◌, ◌<◌, ◌≡◌, refl, sym, ap, subst, false, some, arith, dec_lt,
  ℕ_discrete, ◌==◌,
}
use Prim.Native.Nat.{zero-le}
use coronas.Dash.BlockPattern1D.RoundTrip.{block_back, at_phase}
use coronas.Dash.BlockPattern1D.Coords.{global_lem}
use coronas.Dash.BlockPattern1D.Bounds.{at_in}
use coronas.Dash.BlockPattern1D.{
  global, initialize_local_capacity, at, initialize_local_range, initialize_num_local_blocks,
  unit_at, pattern, initialize_local_extent, layout, Layout, Pattern,
}
use coronas.Dash.BlockPattern1D.Extent.{lacking, extent_lem}
use coronas.Dash.BlockPattern1D.Coords.{partition}
use coronas.Dash.BlockPattern1D.Bounds.{block_in, local_in}
use coronas.Dash.Division.{count}
use native.Mathlib.Nat.{div-add-mod', mod-lt, mul-le-mul_right}

-- A later local index of a unit has the later global index.
global_mono :
    (n bs j f j2 f2 u : ℕ)
    → f < bs
    → f2 < bs
    → u < n
    → j * bs + f ≤ j2 * bs + f2
    → (j * n + u) * bs + f ≤ (j2 * n + u) * bs + f2
global_mono n bs j f j2 f2 u h h2 k o = elim (dec_lt j j2) [
  | yes s ↦ omega (
    arith,
    h,
    mul-le-mul_right {m = suc (j * n + u)} {n = j2 * n + u} bs
        (omega (arith, k, mul-le-mul_right {m = suc j} {n = j2} n s)),
  )
  | no s ↦ elim (dec_lt j2 j) [
    | yes r ↦ absurd (omega (arith, h2, o, mul-le-mul_right {m = suc j2} {n = j} bs r))
    | no r ↦
        let e : j ≡ j2 = omega (arith, s, r) in
        omega (arith, o, ap (λ x. x * bs) e, ap (λ x. (x * n + u) * bs) e)
  ]
]

-- The global index of a local index of a unit, by its block.
unfoldable index_of : Layout → ℕ → ℕ → ℕ
index_of p u l = (l / p.blocksize * p.nunits + u) * p.blocksize + l % p.blocksize

index_mono :
    (p : Layout) (u l l2 : ℕ)
    → 0 < p.blocksize
    → u < p.nunits
    → l ≤ l2
    → index_of p u l ≤ index_of p u l2
unfolding index_of
index_mono p u l l2 b k o =
    global_mono p.nunits p.blocksize (l / p.blocksize) (l % p.blocksize) (l2 / p.blocksize)
      (l2 % p.blocksize) u (mod-lt l b) (mod-lt l2 b) k
      (omega (arith, o, div-add-mod' l p.blocksize, div-add-mod' l2 p.blocksize))

index_back : (p : Layout) (u g : ℕ) → 0 < p.blocksize → unit_at p g ≡ u → index_of p u (at p g) ≡ g
unfolding index_of
index_back p u g b e = omega (
  arith,
  ap (λ x. (at p g / p.blocksize * p.nunits + x) * p.blocksize) (sym e),
  ap (λ x. x * p.blocksize) (block_back p g b),
  at_phase p g b,
  div-add-mod' g p.blocksize,
)

-- The pattern of the unit `u` with `e` elements and a range.
abbrev made : Layout → (u e lbegin lend : ℕ) → Pattern
made p u e lbegin lend = record {
  layout = p;
  myid = u;
  local_size = e;
  nlblocks = initialize_num_local_blocks p.blocksize e;
  local_capacity = initialize_local_capacity p;
  lbegin = lbegin;
  lend = lend;
}

made_lem :
    (p : Layout) (u e lbegin lend : ℕ)
    → layout p.size p.dist p.nunits ≡ some p
    → initialize_local_extent p u ≡ some e
    → initialize_local_range p u e ≡ some (lbegin, lend)
    → pattern p.size p.dist p.nunits u ≡ some (made p u e lbegin lend)
unfolding pattern
made_lem p u e lbegin lend h k r = rw (h, k, r) refl

range_none : (p : Layout) (u e : ℕ) → e ≡ 0 → initialize_local_range p u e ≡ some (0, 0)
unfolding initialize_local_range
range_none p u e z = rw z refl

range_lem :
    (p : Layout) (u e lbegin last : ℕ)
    → 0 < e
    → global p u 0 ≡ some lbegin
    → global p u (e - 1) ≡ some last
    → initialize_local_range p u e ≡ some (lbegin, last + 1)
unfolding initialize_local_range
range_lem p u e lbegin last k f l =
    let nz : (e == 0) ≡ false = ground (arith, k) in rw (nz, f, l) refl

-- For members that the constructor lays out, with units and with elements in a block, every unit
-- `u` of the team constructs its pattern, with these members and its number of elements; its range lies within the
-- pattern's size, and every element of the pattern that is the unit's lies in the range.
pattern-range :
    (p : Layout)
    → layout p.size p.dist p.nunits ≡ some p
    → 0 < p.nunits
    → 0 < p.blocksize
    → (u : ℕ) → u < p.nunits
    → (q : Pattern) × (pattern p.size p.dist p.nunits u ≡ some q)
      × (q.layout ≡ p)
      × (initialize_local_extent p u ≡ some q.local_size)
      × (q.lend ≤ p.size)
      × ((g : ℕ) → g < p.size → unit_at p g ≡ u → (q.lbegin ≤ g) × (g < q.lend))
unfolding index_of
pattern-range p h n b u k =
    let w = partition p h n b in
    let (e, ee, c) = extent_lem p u w k in
    let own : (g : ℕ) → g < p.size → unit_at p g ≡ u → at p g < e = λ g i o.
      at_in p w g e
        (subst (λ x. e + lacking p x ≡ count p.nblocks p.nunits x * p.blocksize) (sym o) c) i in
    elim (ℕ_discrete e 0) [
      | yes z ↦ (
        made p u e 0 0,
        made_lem p u e 0 0 h ee (range_none p u e z),
        refl,
        ee,
        zero-le,
        λ g i o. absurd (omega (arith, own g i o, z)),
      )
      | no z ↦
          let in_block : (l : ℕ) → l < e → global p u l ≡ some (index_of p u l) =
            λ l j. global_lem p u l h w k (block_in p w u l e c k j) in
          let last = index_of p u (e - 1) in
          (
            made p u e (index_of p u 0) (last + 1),
            made_lem p u e (index_of p u 0) (last + 1) h ee (
                range_lem p u e (index_of p u 0) last (omega (arith, z))
                  (in_block 0 (omega (arith, z))) (in_block (e - 1) (omega (arith, z)))),
            refl,
            ee,
            omega (arith, local_in p w u (e - 1) e c k (omega (arith, z))),
            λ g i o. (
              subst (λ x. index_of p u 0 ≤ x) (index_back p u g b o)
                  (index_mono p u 0 (at p g) b k zero-le),
              omega (
                arith,
                index_back p u g b o,
                index_mono p u (at p g) (e - 1) b k (omega (arith, own g i o)),
              ),
            ),
          )
    ]
