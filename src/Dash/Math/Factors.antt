-- ===== src/Dash/Math/Factors.antt =====
-- The factors that `factorize` finds multiply to the number.
use coronas.Prelude.{
  ℕ, zero, suc, ◌+◌, ◌*◌, ◌/◌, ◌%◌, ◌^◌, ◌≤◌, ◌<◌, ◌≡◌, refl, sym, ap, ◌∙◌, ◌≢◌, inl, inr, true,
  false, some, List, [], ◌∷◌, arith, ℕ_discrete, ltb, leb, ◌==◌, leb→le, ==_iff, Bool-cases,
}
use coronas.Dash.Math.{bump, divide_loop, odd_loop, factorize}
use native.Mathlib.Nat.{
  div-add-mod', mul_assoc, mul_comm, div-lt_self, pow-zero, pow-succ', mul-one, mul_left_comm,
  mul-mod_right, mul-le-mul_right,
}

-- The product of the factors, each as often as it occurs.
abbrev pub weight : List (ℕ × ℕ) → ℕ
weight [] = 1
weight ((p, e) ∷ factors) = p ^ e * weight factors

power-suc : (p e : ℕ) → p ^ (e + 1) ≡ p * p ^ e
power-suc p e = ap (λ k. p ^ k) (omega arith) ∙ pow-succ' p e

power-one : (p : ℕ) → p ^ 1 ≡ p
power-one p = power-suc p 0 ∙ ap (λ k. p * k) (pow-zero p) ∙ mul-one p

weight-bump : (p : ℕ) (fs : List (ℕ × ℕ)) → weight (bump p fs) ≡ p * weight fs
unfolding bump
weight-bump p [] = ap (λ k. k * 1) (power-one p)
weight-bump p ((q, e) ∷ fs) = elim (Bool-cases (p == q)) [
  | inl s ↦
      let same : p ≡ q = (==_iff p q).0 s in
      rw s (
        ap (λ k. k * weight fs) (power-suc q e)
        ∙ mul_assoc q (q ^ e) (weight fs)
        ∙ ap (λ k. k * (q ^ e * weight fs)) (sym same))
  | inr n ↦ elim (Bool-cases (ltb p q)) [
    | inl l ↦ rw (n, l) (ap (λ k. k * (q ^ e * weight fs)) (power-one p))
    | inr l ↦
        rw (n, l) (ap (λ k. q ^ e * k) (weight-bump p fs) ∙ mul_left_comm (q ^ e) p (weight fs))
  ]
]

-- What a loop keeps: nothing is lost, the number stays odd if it was, and it does not grow.
abbrev Keeps : (n : ℕ) → List (ℕ × ℕ) → ℕ × List (ℕ × ℕ) → Type 0
Keeps n fs r =
    (weight r.1 * r.0 ≡ weight fs * n) × (0 < r.0) × (r.0 ≤ n) × (n % 2 ≡ 1 → r.0 % 2 ≡ 1)

pub exact : (n p : ℕ) → n % p ≡ 0 → n / p * p ≡ n
exact n p h = omega (arith, div-add-mod' n p, h)

smaller : (n p : ℕ) → 2 ≤ p → 0 < n → n / p < n
smaller n p h k = div-lt_self k (omega (arith, h))

pub quotient_pos : (n p : ℕ) → 0 < n → n % p ≡ 0 → 0 < n / p
quotient_pos n p h e = elim (ℕ_discrete (n / p) 0) [
  | yes z ↦ absurd (omega (arith, h, exact n p e, ap (λ x. x * p) z))
  | no z ↦ omega (arith, z)
]

even_times : (m p : ℕ) → m % 2 ≡ 0 → (m * p) % 2 ≡ 0
even_times m p h =
    ap (λ k. (k * p) % 2) (sym (exact m 2 h))
    ∙ ap (λ k. k % 2) (mul_assoc (m / 2) 2 p ∙ mul_left_comm (m / 2) 2 p)
    ∙ mul-mod_right 2 (m / 2 * p)

odd_quotient : (n p : ℕ) → n % p ≡ 0 → n % 2 ≡ 1 → (n / p) % 2 ≡ 1
odd_quotient n p e o = elim (ℕ_discrete ((n / p) % 2) 0) [
  | yes z ↦ absurd (omega (arith, o, sym (ap (λ k. k % 2) (exact n p e)) ∙ even_times (n / p) p z))
  | no z ↦ omega (arith, z)
]

-- The inner loop ends, and leaves nothing to divide.
pub divide_loop_lem :
    (fuel p n : ℕ) (fs : List (ℕ × ℕ))
    → 2 ≤ p
    → 0 < n
    → n < fuel
    → (r : ℕ × List (ℕ × ℕ)) × (divide_loop fuel p n fs ≡ some r) × Keeps n fs r × (r.0 % p ≢ 0)
unfolding divide_loop
divide_loop_lem zero p n fs h k l = absurd (omega (arith, l))
divide_loop_lem (suc fuel) p n fs h k l = elim (Bool-cases (n % p == 0)) [
  | inl d ↦
      let e : n % p ≡ 0 = (==_iff (n % p) 0).0 d in
      let (r, go, (w, pos, le, odd), stop) =
        divide_loop_lem fuel p (n / p) (bump p fs) h (quotient_pos n p k e)
          (omega (arith, smaller n p h k, l)) in
      (
        r,
        rw d go,
        (
          w
              ∙ ap (λ x. x * (n / p)) (weight-bump p fs ∙ mul_comm p (weight fs))
              ∙ mul_assoc (weight fs) p (n / p)
              ∙ ap (λ x. weight fs * x) (mul_comm p (n / p) ∙ exact n p e),
          pos,
          omega (arith, le, smaller n p h k),
          λ o. odd (odd_quotient n p e o),
        ),
        stop,
      )
  | inr d ↦ (
    (n, fs),
    rw d refl,
    (refl, k, omega arith, λ o. o),
    λ z. absurd (ground (arith, d, (==_iff (n % p) 0).1 z)),
  )
]

square_ge : (i : ℕ) → 0 < i → i ≤ i * i
square_ge i h = omega (arith, mul-le-mul_right {m = 1} {n = i} i h)

pub odd_loop_round :
    (fuel i n m : ℕ) (fs gs : List (ℕ × ℕ))
    → leb (i * i) n ≡ true
    → divide_loop (suc n) i n fs ≡ some (m, gs)
    → odd_loop (suc fuel) i n fs ≡ odd_loop fuel (i + 2) m gs
unfolding odd_loop
odd_loop_round fuel i n m fs gs d e = rw (d, odd_loop) (rw e refl)

pub odd_loop_end :
    (fuel i n : ℕ) (fs : List (ℕ × ℕ))
    → leb (i * i) n ≡ false
    → odd_loop (suc fuel) i n fs ≡ some (n, fs)
unfolding odd_loop
odd_loop_end fuel i n fs d = rw (d, odd_loop) refl

pub odd_loop_lem :
    (fuel i n : ℕ) (fs : List (ℕ × ℕ))
    → 2 ≤ i
    → 0 < n
    → n + 2 ≤ fuel + i
    → 0 < fuel
    → (r : ℕ × List (ℕ × ℕ)) × (odd_loop fuel i n fs ≡ some r) × Keeps n fs r
odd_loop_lem zero i n fs h k l f = absurd (omega (arith, f))
odd_loop_lem (suc fuel) i n fs h k l f = elim (Bool-cases (leb (i * i) n)) [
  | inl d ↦
      let inside : i ≤ n = omega (arith, leb→le (i * i) n d, square_ge i (omega (arith, h))) in
      let ((m, gs), go, (w, pos, le, odd), stop) =
        divide_loop_lem (suc n) i n fs h k (omega arith) in
      let (r, go2, (w2, pos2, le2, odd2)) =
        odd_loop_lem fuel (i + 2) m gs (omega arith) pos (omega (arith, le, l))
          (omega (arith, inside, l)) in
      (
        r,
        odd_loop_round fuel i n m fs gs d go ∙ go2,
        (w2 ∙ w, pos2, omega (arith, le, le2), λ o. odd2 (odd o)),
      )
  | inr d ↦ ((n, fs), odd_loop_end fuel i n fs d, (refl, k, omega arith, λ o. o))
]

-- For every positive number the loops of `factorize` end within their fuel, and the factors that it
-- finds, each as often as it says, multiply to the number.
pub factorize_lem :
    (n : ℕ) → 0 < n → (fs : List (ℕ × ℕ)) × (factorize n ≡ some fs) × (weight fs ≡ n)
unfolding factorize
factorize_lem n h =
    let ((m, fs), go, (w, pos, le, odd), stop) =
      divide_loop_lem (suc n) 2 n [] (omega arith) h (omega arith) in
    let ((k, gs), go2, (w2, pos2, le2, odd2)) =
      odd_loop_lem (suc m) 3 m fs (omega arith) pos (omega arith) (omega arith) in
    let is_odd : k % 2 ≡ 1 = odd2 (omega (arith, stop)) in
    let all : weight gs * k ≡ n = omega (arith, w2 ∙ w) in
    elim (Bool-cases (ltb 2 k)) [
      | inl d ↦ (bump k gs, rw (go, go2, d) refl, weight-bump k gs ∙ mul_comm k (weight gs) ∙ all)
      | inr d ↦
          let last : k ≡ 1 = one_left k is_odd pos2 d in
          (
            gs,
            rw (go, go2, d) refl,
            sym (mul-one (weight gs)) ∙ ap (λ x. weight gs * x) (sym last) ∙ all,
          )
    ]
  where
    one_left : (k : ℕ) → k % 2 ≡ 1 → 0 < k → ltb 2 k ≡ false → k ≡ 1
    one_left k o p d = ground (arith, o, p, d)
