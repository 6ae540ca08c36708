-- ===== src/Dash/Division.antt =====
-- Arithmetic of blocks of `b` elements that `n` units take in turn.
use coronas.Prelude.{
  ℕ, zero, suc, ◌+◌, ◌-◌, ◌*◌, ◌/◌, ◌%◌, ◌<◌, ◌≡◌, sym, ap, subst, ◌∙◌, inl, inr, arith, dec_lt,
  ltb, ◌==◌, if◌then◌else◌, ltb→lt, Bool-cases,
}
use native.Mathlib.Nat.{
  add-zero, div-add-mod', mod-lt, mul-add-div_right, mul-add-mod_self_right, div-eq_of_lt,
  mod-eq_of_lt, mul-le-mul_right, lt_of_mul-lt-mul_right,
}
use coronas.Dash.Distribution.{div_ceil}

positive : {r b : ℕ} → r < b → 0 < b
positive h = omega arith

pub div_unique : (q r : ℕ) {b : ℕ} → r < b → (q * b + r) / b ≡ q
div_unique q r {b} h =
    mul-add-div_right (positive h) q r ∙ ap (λ d. q + d) (div-eq_of_lt h) ∙ add-zero q

pub mod_unique : (q r : ℕ) {b : ℕ} → r < b → (q * b + r) % b ≡ r
mod_unique q r h = mul-add-mod_self_right q _ r ∙ mod-eq_of_lt h

-- How much a last block of `a` elements in blocks of `b` is short.
abbrev pub missing : ℕ → ℕ → ℕ
missing a b = if a % b == 0 then 0 else b - a % b

pub missing-lt : (a b : ℕ) → 0 < b → missing a b < b
missing-lt a b h = ground arith

pub div_ceil_mul : (a b : ℕ) → 0 < b → div_ceil a b * b ≡ a + missing a b
unfolding div_ceil
div_ceil_mul a b h = ground (arith, div-add-mod' a b, mod-lt a h)

-- The number of blocks of the unit `u` of `n`, of `k` blocks.
abbrev pub count : (k n u : ℕ) → ℕ
count k n u = k / n + (if ltb u (k % n) then 1 else 0)

-- The same with quotient and remainder given.
bound_of : (q r n u j : ℕ) → u < n → j < q + (if ltb u r then 1 else 0) → j * n + u < q * n + r
bound_of q r n u j hu h = elim (Bool-cases (ltb u r)) [
  | inl e ↦
      grind
        (arith, mul-le-mul_right n (subst (λ b. j < q + (if b then 1 else 0)) e h), ltb→lt u r e)
  | inr e ↦ grind (arith, mul-le-mul_right n (subst (λ b. j < q + (if b then 1 else 0)) e h))
]

total_of : (q r n u j : ℕ) → r < n → j * n + u < q * n + r → j < q + (if ltb u r then 1 else 0)
total_of q r n u j hr h = elim (Bool-cases (ltb u r)) [
  | inl e ↦ ground (arith, e, lt_of_mul-lt-mul_right n {m = j} {n = suc q} (omega (arith, hr, h)))
  | inr e ↦ ground (arith, e, lt_of_mul-lt-mul_right n {m = j} {n = q} (ground (arith, e, hr, h)))
]

-- The block `j` of the unit `u` is one of the `k`.
pub count_bound : (k n u j : ℕ) → u < n → j < count k n u → j * n + u < k
count_bound k n u j hu h =
    subst (λ x. j * n + u < x) (div-add-mod' k n) (bound_of (k / n) (k % n) n u j hu h)

pub count_total : (k n u j : ℕ) → u < n → j * n + u < k → j < count k n u
count_total k n u j hu h =
    total_of (k / n) (k % n) n u j (mod-lt k (positive hu))
      (subst (λ x. j * n + u < x) (sym (div-add-mod' k n)) h)

-- The same with quotient and remainder given.
last_of_parts :
    (q r n : ℕ) → r < n → 0 < q * n + r → (if r == 0 then n - 1 else r - 1) ≡ (q * n + r - 1) % n
last_of_parts zero zero n h p = absurd (omega (arith, p))
last_of_parts (suc q) zero n h p =
    sym (mod_unique q (n - 1) (omega (arith, h))) ∙ ap (λ x. x % n) (omega (arith, h))
last_of_parts q (suc r) n h p =
    ground arith ∙ sym (mod_unique q r (omega (arith, h))) ∙ ap (λ x. x % n) (omega arith)

-- The unit of the last block.
pub last_of : (k n : ℕ) → 0 < n → 0 < k → (if k % n == 0 then n - 1 else k % n - 1) ≡ (k - 1) % n
last_of k n hn hk =
    subst (λ x. (if k % n == 0 then n - 1 else k % n - 1) ≡ (x - 1) % n) (div-add-mod' k n)
      (last_of_parts (k / n) (k % n) n (mod-lt k hn)
        (subst (λ x. 0 < x) (sym (div-add-mod' k n)) hk))

-- The last block is the last of its unit.
pub count_last : (k n : ℕ) → 0 < n → 0 < k → count k n ((k - 1) % n) ≡ suc ((k - 1) / n)
count_last k n hn hk =
    let u = (k - 1) % n in
    let j = (k - 1) / n in
    let d : j * n + u ≡ k - 1 = div-add-mod' (k - 1) n in
    let lo : j < count k n u = count_total k n u j (mod-lt (k - 1) hn) (omega (arith, d, hk)) in
    elim (dec_lt (suc j) (count k n u)) [
      | yes h ↦ absurd (omega (arith, d, hk, hn, count_bound k n u (suc j) (mod-lt (k - 1) hn) h))
      | no h ↦ omega (arith, lo, h)
    ]
