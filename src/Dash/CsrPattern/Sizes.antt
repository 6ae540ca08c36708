-- ===== src/Dash/CsrPattern/Sizes.antt =====
-- The local sizes that the pattern makes up for a distribution.
use coronas.Prelude.{
  ℕ, zero, suc, ◌+◌, ◌-◌, ◌*◌, ◌<◌, ◌≡◌, subst, ◌∙◌, some, List, [], arith, ltb, if◌then◌else◌,
  length, replicate, length-replicate,
}
use coronas.Dash.Distribution.{
  div_ceil, DistributionType, dist_undefined, dist_none, dist_blocked, dist_cyclic,
  dist_blockcyclic, dist_tile,
}
use coronas.Dash.CsrPattern.{initialize_local_sizes}
use coronas.Dash.CsrPattern.Owners.{total}
use coronas.Dash.Division.{missing, div_ceil_mul}
use native.Mathlib.Nat.{mul_comm, suc-mul}

total-replicate : (n s : ℕ) → total (replicate n s) ≡ n * s
total-replicate zero s = omega arith
total-replicate (suc n) s = omega (arith, total-replicate n s, suc-mul n s)

-- How many elements the units get by a distribution of `size` elements to `n` units.
abbrev pub claimed : DistributionType → (size n : ℕ) → ℕ
claimed dist_undefined size n = 0
claimed dist_none size n = size
claimed dist_blocked size n = size + missing size n
claimed dist_tile size n = size + missing size n
claimed dist_cyclic size n = size
claimed dist_blockcyclic size n = size

even_blocks :
    (size n : ℕ)
    → 0 < n
    → (length (replicate n (div_ceil size n)) ≡ n)
      × (total (replicate n (div_ceil size n)) ≡ size + missing size n)
even_blocks size n h = (
  length-replicate n (div_ceil size n),
  total-replicate n (div_ceil size n) ∙ mul_comm n (div_ceil size n) ∙ div_ceil_mul size n h,
)

given :
    {n : ℕ} {ss ts : List ℕ} → (if ltb n 1 then some [] else some ts) ≡ some ss → 0 < n → ts ≡ ss
given e h = ground (arith, e, h)

-- For a team with units, where initialize_local_sizes answers sizes there is one for each unit; the
-- sizes add up to the size for a distribution NONE, to 0 for an undefined one, and for blocks or
-- tiles to the size rounded up to a multiple of the units.
initialize_local_sizes-total :
    (d : DistributionType) (size n : ℕ) (ss : List ℕ)
    → 0 < n
    → initialize_local_sizes size d n ≡ some ss
    → (length ss ≡ n) × (total ss ≡ claimed d size n)
unfolding initialize_local_sizes
initialize_local_sizes-total dist_undefined size n ss h e =
    subst (λ ts. (length ts ≡ n) × (total ts ≡ 0)) (given e h)
      (length-replicate {A = ℕ} n 0, omega (arith, total-replicate n 0))
initialize_local_sizes-total dist_none size n ss h e =
    subst (λ ts. (length ts ≡ n) × (total ts ≡ size)) (given e h)
      (
        omega (arith, length-replicate {A = ℕ} (n - 1) 0, h),
        omega (arith, total-replicate (n - 1) 0),
      )
initialize_local_sizes-total dist_blocked size n ss h e =
    subst (λ ts. (length ts ≡ n) × (total ts ≡ size + missing size n)) (given e h)
      (even_blocks size n h)
initialize_local_sizes-total dist_tile size n ss h e =
    subst (λ ts. (length ts ≡ n) × (total ts ≡ size + missing size n)) (given e h)
      (even_blocks size n h)
initialize_local_sizes-total dist_cyclic size n ss h e = absurd (ground (arith, e, h))
initialize_local_sizes-total dist_blockcyclic size n ss h e = absurd (ground (arith, e, h))
