-- ===== src/Mpi/Buddy/Tidy.antt =====
-- The trees that allocations and releases leave, and releases as functions of a tree.
use coronas.Prelude.{
  ℕ, zero, suc, ◌+◌, ◌-◌, ◌*◌, ◌^◌, ◌<◌, ◌≡◌, refl, ap, ◌∙◌, inl, inr, Bool, true, false, ◌&&◌,
  Option, none, some, arith, ltb, ◌==◌, if◌then◌else◌, Bool-cases,
}
use coronas.Mpi.Buddy.Rounds.{pow_pos}
use coronas.Mpi.Buddy.Alloc.{width_lem}
use coronas.Mpi.Buddy.Tree.{
  Tree, unused, used, split, full, is_taken, join, first_half, take_block, width, height,
}

abbrev pub is_unused : Tree → Bool
is_unused unused = true
is_unused _ = false

-- A block is full exactly if both halves are taken, and no block is split into unused halves.
abbrev pub IsTidy : Tree → Type 0
IsTidy unused = Unit
IsTidy used = Unit
IsTidy (split l r) =
    ((is_taken l && is_taken r) ≡ false)
    × ((is_unused l && is_unused r) ≡ false)
    × IsTidy l
    × IsTidy r
IsTidy (full l r) = (is_taken l ≡ true) × (is_taken r ≡ true) × IsTidy l × IsTidy r

-- Two unused halves are one unused block.
abbrev pub merge : Tree → Tree → Tree
merge l r = if is_unused l && is_unused r then unused else split l r

abbrev pub merged_left : Tree → Option Tree → Option Tree
merged_left r none = none
merged_left r (some l) = some (merge l r)

abbrev pub merged_right : Tree → Option Tree → Option Tree
merged_right l none = none
merged_right l (some r) = some (merge l r)

-- Releases the used block at an offset in a tree of the height `h`.
unfoldable pub release : (h : ℕ) → Tree → ℕ → Option Tree
release h unused o = none
release h used o = if o == 0 then some unused else none
release zero (split l r) o = none
release zero (full l r) o = none
release (suc h) (split l r) o =
    let lower = release h l o in
    let upper = release h r (o - 2 ^ h) in
    if ltb o (2 ^ h) then merged_left r lower else merged_right l upper
release (suc h) (full l r) o =
    let lower = release h l o in
    let upper = release h r (o - 2 ^ h) in
    if ltb o (2 ^ h) then merged_left r lower else merged_right l upper

join-IsTidy :
    (l r : Tree) → (is_unused l && is_unused r) ≡ false → IsTidy l → IsTidy r → IsTidy (join l r)
join-IsTidy l r n a b = elim (Bool-cases (is_taken l)) [
  | inl e ↦ elim (Bool-cases (is_taken r)) [
    | inl f ↦ rw (e, f) (e, f, a, b)
    | inr f ↦ rw (e, f) (rw (e, f) refl, n, a, b)
  ]
  | inr e ↦ rw e (rw e refl, n, a, b)
]

join_used : (l r : Tree) → is_unused (join l r) ≡ false
join_used l r = elim (Bool-cases (is_taken l && is_taken r)) [
  | inl e ↦ rw e refl
  | inr e ↦ rw e refl
]

pub release-join :
    (h : ℕ) (l r : Tree) (o : ℕ)
    → release (suc h) (join l r) o ≡ (
        if ltb o (2 ^ h)
        then merged_left r (release h l o)
        else merged_right l (release h r (o - 2 ^ h)))
unfolding release
release-join h l r o = elim (Bool-cases (is_taken l && is_taken r)) [
  | inl e ↦ rw e refl
  | inr e ↦ rw e refl
]

release-used : (h : ℕ) → release h used 0 ≡ some unused
unfolding release
release-used zero = refl
release-used (suc h) = refl

-- A taken block leaves a tidy tree that is not unused, lies within it, and its release gives the
-- tree back.
abbrev pub Kept : (h w : ℕ) → Tree → Option (Tree × ℕ) → Type 0
Kept h w T none = Unit
Kept h w T (some (T2, o)) = IsTidy T2 × (is_unused T2 ≡ false) × (o < w) × (release h T2 o ≡ some T)

one_used : (l r : Tree) → is_unused l ≡ false → (is_unused l && is_unused r) ≡ false
one_used l r e = rw e refl

other_used : (l r : Tree) → is_unused r ≡ false → (is_unused l && is_unused r) ≡ false
other_used l r e = elim (Bool-cases (is_unused l)) [ inl f ↦ rw (f, e) refl | inr f ↦ rw f refl ]

upper_half : (w o p : ℕ) → w ≡ p → ltb (w + o) p ≡ false
upper_half w o p e = ground (arith, e)

above : (w o p : ℕ) → w ≡ p → w + o - p ≡ o
above w o p e = omega (arith, e)

lower_half : (w o p : ℕ) → w ≡ p → o < w → ltb o p ≡ true
lower_half w o p e h = ground (arith, e, h)

Kept-halves :
    (h w : ℕ) (l r T : Tree) (a b : Option (Tree × ℕ))
    → w ≡ 2 ^ h
    → merge l r ≡ T
    → IsTidy l
    → IsTidy r
    → Kept h w l a
    → Kept h w r b
    → Kept (suc h) (w * 2) T (first_half w l r a b)
Kept-halves h w l r T none none ew m tl tr _ _ = tt
Kept-halves h w l r T none (some (r2, o)) ew m tl tr _ (t2, u, within, back) = (
  join-IsTidy l r2 (other_used l r2 u) tl t2,
  join_used l r2,
  omega (arith, within),
  release-join h l r2 (w + o)
      ∙ rw (upper_half w o (2 ^ h) ew, above w o (2 ^ h) ew, back) (ap some m),
)
Kept-halves h w l r T (some (l2, o)) b ew m tl tr (t2, u, within, back) _ = (
  join-IsTidy l2 r (one_used l2 r u) t2 tr,
  join_used l2 r,
  omega (arith, within),
  release-join h l2 r o ∙ rw (lower_half w o (2 ^ h) ew within, back) (ap some m),
)

merge-split : (l r : Tree) → (is_unused l && is_unused r) ≡ false → merge l r ≡ split l r
merge-split l r e = rw e refl

pub take-Kept : (k t : ℕ) (T : Tree) → IsTidy T → Kept (height k t) (width k t) T (take_block k t T)
unfolding take_block
take-Kept zero t unused h = (tt, refl, pow_pos t, release-used t)
take-Kept zero t used h = tt
take-Kept zero t (split l r) h = tt
take-Kept zero t (full l r) h = tt
take-Kept (suc k) t unused h =
    Kept-halves (height k t) (width k t) unused unused unused (take_block k t unused)
      (take_block k t unused) (width_lem k t) refl tt tt (take-Kept k t unused tt)
      (take-Kept k t unused tt)
take-Kept (suc k) t used h = tt
take-Kept (suc k) t (split l r) (n, m, a, b) =
    Kept-halves (height k t) (width k t) l r (split l r) (take_block k t l) (take_block k t r)
      (width_lem k t) (merge-split l r m) a b (take-Kept k t l a) (take-Kept k t r b)
take-Kept (suc k) t (full l r) h = tt
