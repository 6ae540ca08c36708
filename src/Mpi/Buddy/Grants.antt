-- ===== src/Mpi/Buddy/Grants.antt =====
-- The units of the pool that allocated blocks have.
use coronas.Prelude.{
  ℕ, zero, suc, ◌+◌, ◌-◌, ◌^◌, ◌≤◌, ◌≡◌, refl, sym, ap, subst, ◌∙◌, inl, inr, Bool, true, false,
  ◌&&◌, ◌||◌, Option, none, some, arith, ltb, leb, if◌then◌else◌, Bool-cases,
}
use coronas.Mpi.Buddy.{Buddy, Answer, offset, dart_buddy_alloc, int_size}
use coronas.Mpi.Buddy.Tree.{
  Tree, unused, used, split, full, is_taken, join, first_half, take_block, width, height, Holds,
}
use coronas.Mpi.Buddy.Alloc.{place_of, dart_buddy_alloc_lem, height_lem, width_lem, Allocates}

-- The unit `x` is in a used block.
unfoldable pub covers : (h : ℕ) → Tree → ℕ → Bool
covers h unused x = false
covers h used x = ltb x (2 ^ h)
covers zero (split l r) x = false
covers zero (full l r) x = false
covers (suc h) (split l r) x =
    let lower = covers h l x in
    let upper = covers h r (x - 2 ^ h) in if ltb x (2 ^ h) then lower else upper
covers (suc h) (full l r) x =
    let lower = covers h l x in
    let upper = covers h r (x - 2 ^ h) in if ltb x (2 ^ h) then lower else upper

-- The unit `x` is one of the `n` from `o` on.
abbrev pub within : (o n x : ℕ) → Bool
within o n x = leb o x && ltb x (o + n)

-- The block granted lies in the pool, its units were free, and they alone are taken now.
abbrev pub Grants : (h n : ℕ) → Tree → Tree → ℕ → Type 0
Grants h n T T2 o =
    (o + n ≤ 2 ^ h)
    × ((x : ℕ) → within o n x ≡ true → covers h T x ≡ false)
    × ((x : ℕ) → covers h T2 x ≡ (covers h T x || within o n x))

abbrev pub IsGranted : (h n : ℕ) → Tree → Option (Tree × ℕ) → Type 0
IsGranted h n T none = Unit
IsGranted h n T (some (T2, o)) = Grants h n T T2 o

covers_join :
    (h : ℕ) (l r : Tree) (x : ℕ)
    → covers (suc h) (join l r) x ≡ (if ltb x (2 ^ h) then covers h l x else covers h r (x - 2 ^ h))
unfolding covers
covers_join h l r x = elim (Bool-cases (is_taken l && is_taken r)) [
  | inl e ↦ rw e refl
  | inr e ↦ rw e refl
]

covers_unused :
    (h x : ℕ)
    → covers (suc h) unused x
      ≡ (if ltb x (2 ^ h) then covers h unused x else covers h unused (x - 2 ^ h))
unfolding covers
covers_unused h x = elim (Bool-cases (ltb x (2 ^ h))) [ inl e ↦ rw e refl | inr e ↦ rw e refl ]

beyond : (o n p x : ℕ) → o + n ≤ p → ltb x p ≡ false → within o n x ≡ false
beyond o n p x h e = ground (arith, h, e)

before : (w o n p x : ℕ) → w ≡ p → ltb x p ≡ true → within (w + o) n x ≡ false
before w o n p x h e = ground (arith, h, e)

shifted : (w o n p x : ℕ) → w ≡ p → ltb x p ≡ false → within (w + o) n x ≡ within o n (x - p)
shifted w o n p x h e = ground (arith, h, e)

within_below : (o n p x : ℕ) → o + n ≤ p → within o n x ≡ true → ltb x p ≡ true
within_below o n p x h e = ground (arith, h, e)

within_above : (w o n p x : ℕ) → w ≡ p → within (w + o) n x ≡ true → ltb x p ≡ false
within_above w o n p x h e = ground (arith, h, e)

or_false : (b : Bool) → b ≡ (b || false)
or_false true = refl
or_false false = refl

module _ (h n w : ℕ) (l r T : Tree) (ew : w ≡ 2 ^ h)
    (c : (x : ℕ)
      → covers (suc h) T x ≡ (if ltb x (2 ^ h) then covers h l x else covers h r (x - 2 ^ h))) where
  Grants-left : (l2 : Tree) (o : ℕ) → Grants h n l l2 o → Grants (suc h) n T (join l2 r) o
  Grants-left l2 o (fits, free, new) = (
    omega (arith, fits),
    λ x i. c x ∙ rw (within_below o n (2 ^ h) x fits i) (free x i),
    λ x. covers_join h l2 r x ∙ elim (Bool-cases (ltb x (2 ^ h))) [
      | inl e ↦ rw e (new x ∙ ap (λ b. b || within o n x) (sym (c x ∙ rw e refl)))
      | inr e ↦
          rw (e, beyond o n (2 ^ h) x fits e)
            (or_false _ ∙ ap (λ b. b || false) (sym (c x ∙ rw e refl)))
    ],
  )

  Grants-right : (r2 : Tree) (o : ℕ) → Grants h n r r2 o → Grants (suc h) n T (join l r2) (w + o)
  Grants-right r2 o (fits, free, new) = (
    omega (arith, fits, ew),
    λ x i.
        let e = within_above w o n (2 ^ h) x ew i in
        c x ∙ rw e (free (x - 2 ^ h) (sym (shifted w o n (2 ^ h) x ew e) ∙ i)),
    λ x. covers_join h l r2 x ∙ elim (Bool-cases (ltb x (2 ^ h))) [
      | inl e ↦
          rw (e, before w o n (2 ^ h) x ew e)
            (or_false _ ∙ ap (λ b. b || false) (sym (c x ∙ rw e refl)))
      | inr e ↦
          rw (e, shifted w o n (2 ^ h) x ew e)
            (new (x - 2 ^ h) ∙ ap (λ b. b || within o n (x - 2 ^ h)) (sym (c x ∙ rw e refl)))
    ],
  )

  IsGranted-halves :
      (a b : Option (Tree × ℕ))
      → IsGranted h n l a
      → IsGranted h n r b
      → IsGranted (suc h) n T (first_half w l r a b)
  IsGranted-halves none none _ _ = tt
  IsGranted-halves none (some (r2, o)) _ g = Grants-right r2 o g
  IsGranted-halves (some (l2, o)) b g _ = Grants-left l2 o g

whole_within : (n x : ℕ) → ltb x n ≡ within 0 n x
whole_within n x = ground arith

take-IsGranted : (k t : ℕ) (T : Tree) → IsGranted (height k t) (2 ^ t) T (take_block k t T)
unfolding take_block covers
take-IsGranted zero t unused = (omega arith, λ x _. refl, λ x. whole_within (2 ^ t) x)
take-IsGranted zero t used = tt
take-IsGranted zero t (split l r) = tt
take-IsGranted zero t (full l r) = tt
take-IsGranted (suc k) t unused =
    IsGranted-halves (height k t) (2 ^ t) (width k t) unused unused unused (width_lem k t)
      (covers_unused (height k t)) (take_block k t unused) (take_block k t unused)
      (take-IsGranted k t unused) (take-IsGranted k t unused)
take-IsGranted (suc k) t used = tt
take-IsGranted (suc k) t (split l r) =
    IsGranted-halves (height k t) (2 ^ t) (width k t) l r (split l r) (width_lem k t) (λ x. refl)
      (take_block k t l) (take_block k t r) (take-IsGranted k t l) (take-IsGranted k t r)
take-IsGranted (suc k) t (full l r) = tt

granted_of :
    (b : Buddy) (k t : ℕ) (T : Tree) (b2 : Buddy) (o : ℕ) (x : Option (Tree × ℕ))
    (r : Buddy × Answer)
    → b.level ≡ height k t
    → r ≡ (b2, offset o)
    → Allocates b x r
    → IsGranted (height k t) (2 ^ t) T x
    → (T2 : Tree) × Holds b2.tree 0 b2.level T2 × Grants b.level (2 ^ t) T T2 o
granted_of b k t T b2 o none r e got a _ = absurd (cc)
granted_of b k t T b2 o (some (T2, p)) r e got (τ, a, h) g =
    let c : Buddy = record b { tree = τ } in
    let same : (c, offset p) ≡ (b2, offset o) = sym a ∙ got in
    (
      T2,
      subst (λ z. Holds (z.0).tree 0 (z.0).level T2) same h,
      subst (λ q. Grants b.level (2 ^ t) T T2 q) (ap (λ z. place_of (z.1)) same)
          (subst (λ v. Grants v (2 ^ t) T T2 p) (sym e) g),
    )

-- An offset that dart_buddy_alloc answers on an array that holds a tree is that of a block in the
-- pool of as many units as the size is rounded to, none of them in a used block before, and they
-- alone are in used blocks besides after.
pub alloc-Grants :
    (b : Buddy) (s k t : ℕ) (T : Tree) (b2 : Buddy) (o : ℕ)
    → b.level ≡ k + t
    → int_size s ≡ some (2 ^ t)
    → Holds b.tree 0 b.level T
    → dart_buddy_alloc b s ≡ (b2, offset o)
    → (T2 : Tree) × Holds b2.tree 0 b2.level T2 × Grants b.level (2 ^ t) T T2 o
alloc-Grants b s k t T b2 o e z h got =
    granted_of b k t T b2 o (take_block k t T) (dart_buddy_alloc b s) (e ∙ sym (height_lem k t)) got
      (dart_buddy_alloc_lem b s k t T e z h) (take-IsGranted k t T)
