-- ===== src/Dash/BlockPattern1D/Extent.antt =====
-- The number of elements of a unit (`initialize_local_extent`), by its blocks.
use coronas.Prelude.{
  ℕ, suc, ◌+◌, ◌-◌, ◌*◌, ◌/◌, ◌%◌, ◌≤◌, ◌<◌, ◌≡◌, sym, ap, ◌∙◌, inl, inr, Bool, true, false, ◌&&◌,
  some, arith, ℕ_discrete, ltb, ◌==◌, if◌then◌else◌, ==_iff, Bool-cases,
}
use Prim.Native.Nat.{zero-le}
use coronas.Dash.Distribution.{div_ceil}
use coronas.Dash.BlockPattern1D.{
  last_block_unit, underfilled_blocksize, initialize_local_extent, without_missing, Layout,
}
use coronas.Dash.Division.{count_last, last_of, missing, missing-lt, div_ceil_mul, count}

-- The blocks cover the elements, and there are units to have them.
pub record IsPartition (p : Layout) : Type 0 where
  pub units : 0 < p.nunits
  pub elements : 0 < p.blocksize
  pub blocks : p.nblocks ≡ div_ceil p.size p.blocksize

underfilled_lem :
    (p : Layout) → 0 < p.blocksize → underfilled_blocksize p ≡ some (missing p.size p.blocksize)
unfolding underfilled_blocksize
underfilled_lem p h = ground arith

-- What a unit misses of full blocks.
abbrev pub lacking : Layout → ℕ → ℕ
lacking p u = if u == last_block_unit p then missing p.size p.blocksize else 0

without_lem :
    (p : Layout) (u l : ℕ) → 0 < p.blocksize → without_missing p u l ≡ some (l - lacking p u)
unfolding without_missing
without_lem p u l h = elim (Bool-cases (u == last_block_unit p)) [
  | inl e ↦ rw (e, underfilled_lem p h)
  | inr e ↦ rw e (ap some (omega arith))
]

-- A layout of n units and k blocks whose last is block k - 1 of the unit `last_block_unit`.
pub last_unit :
    (p : Layout) → 0 < p.nunits → 0 < p.nblocks → last_block_unit p ≡ (p.nblocks - 1) % p.nunits
unfolding last_block_unit
last_unit p h k = last_of p.nblocks p.nunits h k

-- The elements are the full blocks less what the last one misses.
pub size_lem :
    (p : Layout) → IsPartition p → p.size + missing p.size p.blocksize ≡ p.nblocks * p.blocksize
size_lem p h =
    sym (div_ceil_mul p.size p.blocksize h.elements) ∙ ap (λ k. k * p.blocksize) (sym h.blocks)

-- With no block nothing is missing.
missing_none : (p : Layout) → IsPartition p → p.nblocks ≡ 0 → missing p.size p.blocksize ≡ 0
missing_none p h z = ground (arith, size_lem p h, ap (λ k. k * p.blocksize) z)

-- The unit of the last block has one.
pub count_pos :
    (p : Layout) (u : ℕ)
    → IsPartition p
    → 0 < p.nblocks
    → u ≡ last_block_unit p
    → count p.nblocks p.nunits u ≡ suc ((p.nblocks - 1) / p.nunits)
count_pos p u h k e =
    ap (count p.nblocks p.nunits) (e ∙ last_unit p h.units k)
    ∙ count_last p.nblocks p.nunits h.units k

lacking-le :
    (p : Layout) (u : ℕ) → IsPartition p → lacking p u ≤ count p.nblocks p.nunits u * p.blocksize
lacking-le p u h = elim (Bool-cases (u == last_block_unit p)) [
  | inl e ↦ elim (ℕ_discrete p.nblocks 0) [
    | yes z ↦ rw (e, missing_none p h z) (zero-le)
    | no k ↦
        rw (e, count_pos p u h (omega (arith, k)) ((==_iff u (last_block_unit p)).0 e))
          (omega (arith, missing-lt p.size p.blocksize h.elements))
  ]
  | inr e ↦ rw e (zero-le)
]

shares : (b : Bool) (q s : ℕ) → (if b then q * s + s else q * s) ≡ (q + (if b then 1 else 0)) * s
shares true q s = omega arith
shares false q s = omega arith

pub units_nonzero : (p : Layout) → IsPartition p → (p.nunits == 0) ≡ false
units_nonzero p h = ground (arith, h.units)

split : {k n : ℕ} → ((k == 1) && (n == 1)) ≡ true → (k ≡ 1) × (n ≡ 1)
split e = ground arith

-- One unit has the one block.
one_block :
    (p : Layout) (u : ℕ)
    → IsPartition p
    → u < p.nunits
    → (p.nblocks ≡ 1) × (p.nunits ≡ 1)
    → p.size + lacking p u ≡ count p.nblocks p.nunits u * p.blocksize
one_block p u h hu (k, n) =
    let last : last_block_unit p ≡ 0 =
      last_unit p h.units (omega (arith, k)) ∙ ap (λ x. (x - 1) % p.nunits) k ∙ ap (λ y. 0 % y) n in
    let own : u ≡ last_block_unit p = omega (arith, last, hu, n) in
    let c : count p.nblocks p.nunits u ≡ 1 =
      count_pos p u h (omega (arith, k)) own
      ∙ ap (λ x. suc ((x - 1) / p.nunits)) k
      ∙ ap (λ y. suc (0 / y)) n in
    rw ((==_iff u (last_block_unit p)).1 own) (size_lem p h ∙ ap (λ x. x * p.blocksize) (k ∙ sym c))

pub extent_lem :
    (p : Layout) (u : ℕ)
    → IsPartition p
    → u < p.nunits
    → (e : ℕ) × (initialize_local_extent p u ≡ some e)
      × (e + lacking p u ≡ count p.nblocks p.nunits u * p.blocksize)
unfolding initialize_local_extent
extent_lem p u h hu = elim (Bool-cases ((p.nblocks == 1) && (p.nunits == 1))) [
  | inl e ↦ (p.size, rw (e, units_nonzero p h), one_block p u h hu (split e))
  | inr e ↦ (
    count p.nblocks p.nunits u * p.blocksize - lacking p u,
    rw (e, units_nonzero p h, without_lem p u _ h.elements)
        (ap (λ x. some (x - lacking p u)) (shares (ltb u (p.nblocks % p.nunits)) _ _)),
    omega (arith, lacking-le p u h),
  )
]
