-- ===== src/Mpi/Buddy/Covered.antt =====
-- Which units of a tidy tree are in used blocks.
use coronas.Prelude.{
  ℕ, zero, suc, ◌+◌, ◌-◌, ◌^◌, ◌<◌, ◌≡◌, refl, ◌∙◌, inl, inr, Bool, true, false, ◌&&◌, arith, ltb,
  if◌then◌else◌, lt→ltb, Bool-cases,
}
use coronas.Mpi.Buddy.{Node, left, right}
use coronas.Mpi.Buddy.Tree.{Tree, unused, used, split, full, is_taken, Holds}
use coronas.Mpi.Buddy.Tidy.{IsTidy, is_unused}
use coronas.Mpi.Buddy.Rounds.{pow_pos}
use coronas.Mpi.Buddy.Grants.{covers}

upper_lt : (h x : ℕ) → x < 2 ^ suc h → ltb x (2 ^ h) ≡ false → x - 2 ^ h < 2 ^ h
upper_lt h x k e = ground (arith, k, e)

lower_lt : (h x : ℕ) → ltb x (2 ^ h) ≡ true → x < 2 ^ h
lower_lt h x e = ground (arith, e)

-- A taken block has all its units in used blocks.
pub taken_covers :
    (τ : ℕ → Node) (i h : ℕ) (T : Tree) (x : ℕ)
    → Holds τ i h T
    → IsTidy T
    → is_taken T ≡ true
    → x < 2 ^ h
    → covers h T x ≡ true
unfolding covers
taken_covers τ i h unused x a t e k = absurd (cc)
taken_covers τ i h used x a t e k = lt→ltb x (2 ^ h) k
taken_covers τ i h (split l r) x a t e k = absurd (cc)
taken_covers τ i zero (full l r) x a t e k = absurd a
taken_covers τ i (suc h) (full l r) x (s, a, b) (n, m, tl, tr) e k =
    elim (Bool-cases (ltb x (2 ^ h))) [
      | inl c ↦ rw c (taken_covers τ (left i) h l x a tl n (lower_lt h x c))
      | inr c ↦ rw c (taken_covers τ (right i) h r (x - 2 ^ h) b tr m (upper_lt h x k c))
    ]

-- A block that is not unused has a unit in a used block.
abbrev pub IsTouched : (h : ℕ) → Tree → Type 0
IsTouched h T = (x : ℕ) × (x < 2 ^ h) × (covers h T x ≡ true)

IsTouched-left :
    (h : ℕ) (l r T : Tree)
    → ((x : ℕ)
        → covers (suc h) T x ≡ (if ltb x (2 ^ h) then covers h l x else covers h r (x - 2 ^ h)))
    → IsTouched h l
    → IsTouched (suc h) T
IsTouched-left h l r T c (x, k, e) = (x, omega (arith, k), c x ∙ rw (lt→ltb x (2 ^ h) k) e)

pub beyond_half : (x p : ℕ) → ltb (x + p) p ≡ false
beyond_half x p = ground arith

pub back_half : (x p : ℕ) → x + p - p ≡ x
back_half x p = omega arith

IsTouched-right :
    (h : ℕ) (l r T : Tree)
    → ((x : ℕ)
        → covers (suc h) T x ≡ (if ltb x (2 ^ h) then covers h l x else covers h r (x - 2 ^ h)))
    → IsTouched h r
    → IsTouched (suc h) T
IsTouched-right h l r T c (x, k, e) =
    (x + 2 ^ h, omega (arith, k), c (x + 2 ^ h) ∙ rw (beyond_half x (2 ^ h), back_half x (2 ^ h)) e)

not_both : (a b : Bool) → (a && b) ≡ false → a ≡ true → b ≡ false
not_both true b e h = e
not_both false b e h = absurd (cc)

taken_used : (T : Tree) → is_taken T ≡ true → is_unused T ≡ false
taken_used unused e = absurd (cc)
taken_used used e = refl
taken_used (split l r) e = refl
taken_used (full l r) e = refl

pub touched :
    (τ : ℕ → Node) (i h : ℕ) (T : Tree)
    → Holds τ i h T
    → IsTidy T
    → is_unused T ≡ false
    → IsTouched h T
unfolding covers
touched τ i h unused a t e = absurd (cc)
touched τ i h used a t e = (0, pow_pos h, lt→ltb 0 (2 ^ h) (pow_pos h))
touched τ i zero (split l r) a t e = absurd a
touched τ i zero (full l r) a t e = absurd a
touched τ i (suc h) (split l r) (s, a, b) (n, m, tl, tr) e = elim (Bool-cases (is_unused l)) [
  | inl u ↦
      IsTouched-right h l r (split l r) (λ x. refl)
        (touched τ (right i) h r b tr (not_both _ _ m u))
  | inr u ↦ IsTouched-left h l r (split l r) (λ x. refl) (touched τ (left i) h l a tl u)
]
touched τ i (suc h) (full l r) (s, a, b) (n, m, tl, tr) e =
    IsTouched-left h l r (full l r) (λ x. refl) (touched τ (left i) h l a tl (taken_used l n))
