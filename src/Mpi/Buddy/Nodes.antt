-- ===== src/Mpi/Buddy/Nodes.antt =====
-- Which nodes of the array lie below a node, and which not.
use coronas.Prelude.{ℕ, zero, suc, ◌+◌, ◌/◌, ◌≤◌, ◌<◌, ◌≡◌, refl, ap, arith, dec_lt}
use coronas.Mpi.Buddy.{left, right}

-- The number of a node, counted from 1, halved `k` times.
abbrev pub half : ℕ → ℕ → ℕ
half zero x = x
half (suc k) x = half k x / 2

half_le : (k x : ℕ) → half k x ≤ x
half_le zero x = omega arith
half_le (suc k) x = omega (arith, half_le k x)

-- The node `j` is `i` or below it.
abbrev pub Below : (i j : ℕ) → Type 0
Below i j = (k : ℕ) × (half k (j + 1) ≡ i + 1)

pub Below-self : (i : ℕ) → Below i i
Below-self i = (0, refl)

pub Below-left : (i j : ℕ) → Below (left i) j → Below i j
Below-left i j (k, e) = (suc k, omega (arith, e))

pub Below-right : (i j : ℕ) → Below (right i) j → Below i j
Below-right i j (k, e) = (suc k, omega (arith, e))

pub not-Below-left : (i : ℕ) → ¬ Below (left i) i
not-Below-left i (k, e) = absurd (omega (arith, e, half_le k (i + 1)))

pub not-Below-right : (i : ℕ) → ¬ Below (right i) i
not-Below-right i (k, e) = absurd (omega (arith, e, half_le k (i + 1)))

last_one : (k l : ℕ) → k < suc l → ¬ (k < l) → k ≡ l
last_one k l h g = omega (arith, h, g)

-- From one of two numbers by halving to the other.
further : (k l x : ℕ) → k < l → half l x ≤ half k x / 2
further k zero x h = absurd (omega (arith, h))
further k (suc l) x h = elim (dec_lt k l) [
  | yes g ↦ omega (arith, further k l x g)
  | no g ↦ omega (arith, ap (λ z. half z x) (last_one k l h g))
]

same : (k l : ℕ) → ¬ (k < l) → ¬ (l < k) → k ≡ l
same k l h g = omega (arith, h, g)

pub apart : (i j : ℕ) → Below (left i) j → Below (right i) j → ⊥
apart i j (k, e) (l, f) = elim (dec_lt k l) [
  | yes h ↦ absurd (omega (arith, e, f, further k l (j + 1) h))
  | no h ↦ elim (dec_lt l k) [
    | yes g ↦ absurd (omega (arith, e, f, further l k (j + 1) g))
    | no g ↦ absurd (omega (arith, e, f, ap (λ z. half z (j + 1)) (same k l h g)))
  ]
]
