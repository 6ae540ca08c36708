-- ===== src/Dash/BlockPattern1D/Coords.antt =====
-- The block of a local index (`local_index_to_block_coord`), for every type of distribution.
use coronas.Prelude.{
  ℕ, zero, suc, ◌+◌, ◌*◌, ◌/◌, ◌%◌, ◌≤◌, ◌<◌, ◌≡◌, refl, sym, ap, subst, ◌∙◌, inl, inr, false,
  Option, none, some, arith, ltb, ◌==◌, ltb→lt, Bool-cases, ◌>>=◌,
}
use coronas.Dash.Distribution.{
  min_size, div_ceil, DistributionType, dist_undefined, dist_none, dist_blocked, dist_cyclic,
  dist_blockcyclic, dist_tile, max_blocksize_in_range, local_index_to_block_coord,
}
use coronas.Dash.BlockPattern1D.Extent.{IsPartition}
use coronas.Dash.BlockPattern1D.{
  Distribution, global, initialize_num_blocks, initialize_blocksize, layout, Layout,
}
use coronas.Dash.Division.{missing-lt, div_ceil_mul}
use mathlib.Core.Option.{some-injective}
use native.Mathlib.Nat.{
  div_self, div-one, mod_self, div-add-mod', mod-lt, div-eq_of_lt, lt_of_mul-lt-mul_right,
}

-- One block of all elements.
one_of : (a : ℕ) → 0 < a → div_ceil a a ≡ 1
unfolding div_ceil
one_of a h = rw (div_self h, mod_self a)

-- At most `n` blocks of the n-th part.
few_of : (a n : ℕ) → 0 < n → 0 < div_ceil a n → div_ceil a (div_ceil a n) ≤ n
few_of a n h k =
    let c = div_ceil a n in
    let below : div_ceil a c * c < suc n * c =
      omega (arith, div_ceil_mul a n h, div_ceil_mul a c k, missing-lt a c k) in
    omega (arith, lt_of_mul-lt-mul_right c {m = div_ceil a c} {n = suc n} below)

first_of : (j n u : ℕ) → j * n + u < n → j ≡ 0
first_of zero n u h = refl
first_of (suc j) n u h = absurd (omega (arith, h))

div_zero_lt : (l b : ℕ) → 0 < b → l / b ≡ 0 → l < b
div_zero_lt l b h e = omega (arith, div-add-mod' l b, mod-lt l h, ap (λ x. x * b) e)

-- The only block of one is the first of the unit 0.
only_of : (j n u : ℕ) → 0 < n → j * n + u < 1 → (j ≡ 0) × (u ≡ 0)
only_of zero n u h k = (refl, omega (arith, k))
only_of (suc j) n u h k = absurd (omega (arith, h, k))

one_block_only :
    (size n bs l u : ℕ)
    → bs ≡ size
    → 0 < n
    → 0 < bs
    → l / bs * n + u < div_ceil size bs
    → (l / bs ≡ 0) × (u ≡ 0)
one_block_only size n bs l u same hn hb h = only_of (l / bs) n u hn (
    subst (λ x. l / bs * n + u < x)
      (ap (div_ceil size) same ∙ one_of size (subst (λ x. 0 < x) same hb)) h)

-- Blocks no larger than the array, or one block of all of it.
tile_of :
    (b size n bs l u : ℕ)
    → min_size size b ≡ bs
    → 0 < n
    → 0 < bs
    → l / bs * n + u < div_ceil size bs
    → l / b ≡ l / bs
unfolding min_size
tile_of b size n bs l u e hn hb h = elim (Bool-cases (ltb b size)) [
  | inl c ↦ ap (λ x. l / x) (sym (rw c refl) ∙ e)
  | inr c ↦
      let same : bs ≡ size = sym e ∙ rw c refl in
      let first = one_block_only size n bs l u same hn hb h in
      div-eq_of_lt (ground (arith, c, same, div_zero_lt l bs hb first.0)) ∙ sym first.0
]

-- The block of a local index, where there is that block.
coord_of :
    (t : DistributionType) (b size n bs l u : ℕ)
    → max_blocksize_in_range t b size n ≡ some bs
    → 0 < n
    → 0 < bs
    → l / bs * n + u < div_ceil size bs
    → local_index_to_block_coord t b u l n ≡ some (l / bs * n + u)
unfolding max_blocksize_in_range local_index_to_block_coord
coord_of dist_undefined b size n bs l u e hn hb h = absurd (cc)
coord_of dist_none b size n bs l u e hn hb h =
    let first = one_block_only size n bs l u (sym (some-injective _ _ e)) hn hb h in
    ap some (omega (arith, first.1, ap (λ x. x * n) first.0))
coord_of dist_blocked b size n bs l u e hn hb h =
    let part : div_ceil size n ≡ bs = some-injective _ _ e in
    let few : div_ceil size bs ≤ n =
      subst (λ x. div_ceil size x ≤ n) part (few_of size n hn (subst (λ x. 0 < x) (sym part) hb)) in
    ap some (omega (arith, ap (λ x. x * n) (first_of (l / bs) n u (omega (arith, h, few)))))
coord_of dist_cyclic b size n bs l u e hn hb h =
    let one : 1 ≡ bs = some-injective _ _ e in
    ap some (omega (arith, ap (λ x. l / x * n) one, ap (λ x. x * n) (div-one l)))
coord_of dist_blockcyclic b size n bs l u e hn hb h =
    ap (λ x. some (x * n + u)) (tile_of b size n bs l u (some-injective _ _ e) hn hb h)
coord_of dist_tile b size n bs l u e hn hb h =
    ap (λ x. some (x * n + u)) (tile_of b size n bs l u (some-injective _ _ e) hn hb h)

-- The members with the block size `b`.
abbrev sized : ℕ → Distribution → ℕ → ℕ → Layout
sized size d n b = record {
  size = size;
  dist = d;
  nunits = n;
  blocksize = b;
  nblocks = initialize_num_blocks size b;
}

nonzero : {n : ℕ} → 0 < n → (n == 0) ≡ false
nonzero h = ground (arith, h)

laid_of :
    (o : Option ℕ) (size : ℕ) (d : Distribution) (n : ℕ) (p : Layout)
    → (o >>= λ b. some (sized size d n b)) ≡ some p
    → (o ≡ some p.blocksize) × (p.nblocks ≡ initialize_num_blocks p.size p.blocksize)
laid_of none size d n p h = absurd (cc)
laid_of (some b) size d n p h =
    let e : sized size d n b ≡ p = some-injective _ _ h in
    (
      ap (λ q. some q.blocksize) e,
      subst (λ q. q.nblocks ≡ initialize_num_blocks q.size q.blocksize) e refl,
    )

-- What the constructor sets first.
pub laid :
    (p : Layout)
    → layout p.size p.dist p.nunits ≡ some p
    → (initialize_blocksize p.size p.dist p.nunits ≡ some p.blocksize)
      × (p.nblocks ≡ initialize_num_blocks p.size p.blocksize)
unfolding layout
laid p h = laid_of (initialize_blocksize p.size p.dist p.nunits) p.size p.dist p.nunits p h

pub partition :
    (p : Layout)
    → layout p.size p.dist p.nunits ≡ some p
    → 0 < p.nunits
    → 0 < p.blocksize
    → IsPartition p
unfolding initialize_num_blocks
partition p h n b = record { units = n; elements = b; blocks = (laid p h).1 ∙ rw (nonzero b) refl }

-- One unit has the elements in their order.
alone : (q n u b r l : ℕ) → q * b + r ≡ l → n < 2 → u < n → l ≡ (q * n + u) * b + r
alone q zero u b r l e h k = absurd (omega (arith, k))
alone q (suc zero) zero b r l e h k = omega (arith, e)
alone q (suc zero) (suc u) b r l e h k = absurd (omega (arith, k))
alone q (suc (suc n)) u b r l e h k = absurd (omega (arith, h))

-- Where there is the block, it has the blocks of the units before it in front of it.
pub block_coord_lem :
    (p : Layout) (u l : ℕ)
    → layout p.size p.dist p.nunits ≡ some p
    → IsPartition p
    → l / p.blocksize * p.nunits + u < p.nblocks
    → local_index_to_block_coord p.dist.dist_type p.dist.blocksz u l p.nunits
      ≡ some (l / p.blocksize * p.nunits + u)
unfolding initialize_blocksize
block_coord_lem p u l h w k =
    coord_of p.dist.dist_type p.dist.blocksz p.size p.nunits p.blocksize l u
      (sym (rw (nonzero w.units) refl) ∙ (laid p h).0) w.units w.elements
      (subst (λ x. l / p.blocksize * p.nunits + u < x) w.blocks k)

-- Where there is the block, `global` counts the blocks before it.
pub global_lem :
    (p : Layout) (u l : ℕ)
    → layout p.size p.dist p.nunits ≡ some p
    → IsPartition p
    → u < p.nunits
    → l / p.blocksize * p.nunits + u < p.nblocks
    → global p u l ≡ some ((l / p.blocksize * p.nunits + u) * p.blocksize + l % p.blocksize)
unfolding global
global_lem p u l h w hu k = elim (Bool-cases (ltb p.nunits 2)) [
  | inl e ↦ rw e (
      ap some (
        alone (l / p.blocksize) p.nunits u p.blocksize (l % p.blocksize) l
          (div-add-mod' l p.blocksize) (ltb→lt _ _ e) hu))
  | inr e ↦ rw (e, block_coord_lem p u l h w k) refl
]
