-- ===== src/Mpi/Buddy/Refusal.antt =====
-- When dart_buddy_alloc finds no block.
use coronas.Mpi.Buddy.Covered.{taken_covers, touched, beyond_half, back_half}
use coronas.Prelude.{
  ℕ, zero, suc, ◌+◌, ◌-◌, ◌*◌, ◌^◌, ◌<◌, ◌≡◌, refl, sym, ap, subst, ◌∙◌, true, Option, none, some,
  arith, dec_lt, lt→ltb,
}
use coronas.Mpi.Buddy.{Node, Buddy, Answer, failed, left, right, dart_buddy_alloc, int_size}
use coronas.Mpi.Buddy.Tree.{
  Tree, unused, used, split, full, first_half, take_block, take_unused, width, height, Holds,
}
use coronas.Mpi.Buddy.Tidy.{IsTidy}
use coronas.Mpi.Buddy.Rounds.{pow_pos}
use coronas.Mpi.Buddy.Grants.{covers, within}
use coronas.Mpi.Buddy.Alloc.{pow_suc, dart_buddy_alloc_lem, height_lem, width_lem, Allocates}
use native.Mathlib.Nat.{mul-le-mul_right}

-- Every aligned block of 2 ^ t units has a unit in a used block.
abbrev pub IsRefused : (h k t : ℕ) → Tree → Type 0
IsRefused h k t T =
    (j : ℕ) → j < 2 ^ k → (x : ℕ) × (within (j * 2 ^ t) (2 ^ t) x ≡ true) × (covers h T x ≡ true)

neither :
    (w : ℕ) (l r : Tree) (a b : Option (Tree × ℕ))
    → first_half w l r a b ≡ none
    → (a ≡ none) × (b ≡ none)
neither w l r none none e = (refl, refl)
neither w l r none (some (x, o)) e = absurd (cc)
neither w l r (some (x, o)) b e = absurd (cc)

regroup : (a b : ℕ) → a * b * 2 ≡ a * 2 * b
regroup a b = omega arith

width_blocks : (k t : ℕ) → width k t ≡ 2 ^ k * 2 ^ t
width_blocks zero t = omega arith
width_blocks (suc k) t =
    ap (λ x. x * 2) (width_blocks k t)
    ∙ regroup (2 ^ k) (2 ^ t)
    ∙ ap (λ y. y * 2 ^ t) (sym (pow_suc k))

first_block : (j t x : ℕ) → j < 2 ^ 0 → x < 2 ^ t → within (j * 2 ^ t) (2 ^ t) x ≡ true
first_block zero t x m k = ground (arith, k)
first_block (suc j) t x m k = absurd (omega (arith, m))

at_start : (o n : ℕ) → 0 < n → within o n o ≡ true
at_start o n h = ground (arith, h)

shift_within : (o n p x : ℕ) → within o n x ≡ true → within (o + p) n (x + p) ≡ true
shift_within o n p x h = ground (arith, h)

within_end : (o n x : ℕ) → within o n x ≡ true → x < o + n
within_end o n x h = ground (arith, h)

blocks_lem : (k t : ℕ) → 2 ^ k * 2 ^ t ≡ 2 ^ height k t
blocks_lem k t = sym (width_blocks k t) ∙ width_lem k t

block_start : (k t j : ℕ) → j < 2 ^ k → j * 2 ^ t < 2 ^ height k t
block_start k t j m =
    omega (arith, blocks_lem k t, pow_pos t, mul-le-mul_right {m = suc j} {n = 2 ^ k} (2 ^ t) m)

block_end : (k t j x : ℕ) → j < 2 ^ k → within (j * 2 ^ t) (2 ^ t) x ≡ true → x < 2 ^ height k t
block_end k t j x m w = omega (
  arith,
  blocks_lem k t,
  within_end (j * 2 ^ t) (2 ^ t) x w,
  mul-le-mul_right {m = suc j} {n = 2 ^ k} (2 ^ t) m,
)

regained : (j p : ℕ) → ¬ (j < p) → j - p + p ≡ j
regained j p n = omega (arith, n)

block_above :
    (k t j x : ℕ)
    → ¬ (j < 2 ^ k)
    → within ((j - 2 ^ k) * 2 ^ t) (2 ^ t) x ≡ true
    → within (j * 2 ^ t) (2 ^ t) (x + 2 ^ height k t) ≡ true
block_above k t j x m w =
    subst (λ o. within o (2 ^ t) (x + 2 ^ height k t) ≡ true)
      (omega (arith, blocks_lem k t, ap (λ y. y * 2 ^ t) (regained j (2 ^ k) m)))
      (shift_within ((j - 2 ^ k) * 2 ^ t) (2 ^ t) (2 ^ height k t) x w)

upper_index : (k j : ℕ) → j < 2 ^ suc k → ¬ (j < 2 ^ k) → j - 2 ^ k < 2 ^ k
upper_index k j m n = omega (arith, m, n)

refused :
    (k t : ℕ) (τ : ℕ → Node) (i : ℕ) (T : Tree)
    → Holds τ i (height k t) T
    → IsTidy T
    → take_block k t T ≡ none
    → IsRefused (height k t) k t T
unfolding take_block covers
refused zero t τ i unused a h e j m = absurd (cc)
refused zero t τ i used a h e j m =
    let (x, k, c) = touched τ i t used a h refl in (x, first_block j t x m k, c)
refused zero t τ i (split l r) a h e j m =
    let (x, k, c) = touched τ i t (split l r) a h refl in (x, first_block j t x m k, c)
refused zero t τ i (full l r) a h e j m =
    let (x, k, c) = touched τ i t (full l r) a h refl in (x, first_block j t x m k, c)
refused (suc k) t τ i unused a h e j m = absurd (take_unused (suc k) t e)
refused (suc k) t τ i used a h e j m = (
  j * 2 ^ t,
  at_start (j * 2 ^ t) (2 ^ t) (pow_pos t),
  taken_covers τ i (height (suc k) t) used (j * 2 ^ t) a h refl (block_start (suc k) t j m),
)
refused (suc k) t τ i (split l r) (s, a, b) (n, o, tl, tr) e j m =
    let none_in = neither (width k t) l r (take_block k t l) (take_block k t r) e in
    elim (dec_lt j (2 ^ k)) [
      | yes p ↦
          let (x, w, c) = refused k t τ (left i) l a tl (none_in.0) j p in
          (x, w, rw (lt→ltb x (2 ^ height k t) (block_end k t j x p w)) c)
      | no p ↦
          let (x, w, c) =
            refused k t τ (right i) r b tr (none_in.1) (j - 2 ^ k) (upper_index k j m p) in
          (
            x + 2 ^ height k t,
            block_above k t j x p w,
            rw (beyond_half x (2 ^ height k t), back_half x (2 ^ height k t)) c,
          )
    ]
refused (suc k) t τ i (full l r) a h e j m = (
  j * 2 ^ t,
  at_start (j * 2 ^ t) (2 ^ t) (pow_pos t),
  taken_covers τ i (height (suc k) t) (full l r) (j * 2 ^ t) a h refl (block_start (suc k) t j m),
)

refused_of :
    (b : Buddy) (k t : ℕ) (T : Tree) (r : Buddy × Answer) (x : Option (Tree × ℕ))
    → r.1 ≡ failed
    → Allocates b x r
    → (r ≡ (b, failed)) × (x ≡ none)
refused_of b k t T r none f a = (a, refl)
refused_of b k t T r (some (T2, o)) f (τ, a, h) = absurd (cc (f, ap (λ z. z.1) a))

-- Where dart_buddy_alloc fails on an array that holds a tidy tree, for a size that is rounded to
-- 2 ^ t units, at most those of the pool, it changes nothing, and each block of 2 ^ t units of the
-- pool has a unit in a used block.
pub alloc-IsRefused :
    (b : Buddy) (s k t : ℕ) (T : Tree)
    → b.level ≡ k + t
    → int_size s ≡ some (2 ^ t)
    → Holds b.tree 0 b.level T
    → IsTidy T
    → (dart_buddy_alloc b s).1 ≡ failed
    → (dart_buddy_alloc b s ≡ (b, failed)) × IsRefused b.level k t T
alloc-IsRefused b s k t T e z h tidy f =
    let hl : b.level ≡ height k t = e ∙ sym (height_lem k t) in
    let (same, empty) =
      refused_of b k t T (dart_buddy_alloc b s) (take_block k t T) f
        (dart_buddy_alloc_lem b s k t T e z h) in
    (
      same,
      subst (λ v. IsRefused v k t T) (sym hl)
          (refused k t b.tree 0 T (subst (λ v. Holds b.tree 0 v T) hl h) tidy empty),
    )
