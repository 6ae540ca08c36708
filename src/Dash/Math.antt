-- ===== src/Dash/Math.antt =====
-- dash/include/dash/internal/Math.h: `factorize`. The std::map from factors to their frequencies is
-- a list in ascending order of the factors. The loops are on fuel, `none` where it does not suffice;
-- the square root in a loop's test is taken as exact.
pub mod Factors
mod Primes
mod Tests
use coronas.Prelude.{
  ℕ, zero, suc, ◌+◌, ◌*◌, ◌/◌, ◌%◌, true, false, Option, none, some, List, [], ◌∷◌, ltb, leb, ◌==◌,
  if◌then◌else◌, ◌>>=◌,
}

-- The frequency of a factor goes up by one.
unfoldable pub bump : ℕ → List (ℕ × ℕ) → List (ℕ × ℕ)
bump p [] = (p, 1) ∷ []
bump p ((q, e) ∷ factors) =
    if p == q
    then (q, e + 1) ∷ factors
    else (if ltb p q then (p, 1) ∷ ((q, e) ∷ factors) else (q, e) ∷ bump p factors)

-- `while (n % p == 0)`
unfoldable pub divide_loop : (fuel p n : ℕ) → List (ℕ × ℕ) → Option (ℕ × List (ℕ × ℕ))
divide_loop zero p n factors = none
divide_loop (suc fuel) p n factors =
    let rest = divide_loop fuel p (n / p) (bump p factors) in
    if n % p == 0 then rest else some (n, factors)

-- `for (i = 3; i <= sqrt(n); i = i + 2)`
unfoldable pub odd_loop : (fuel i n : ℕ) → List (ℕ × ℕ) → Option (ℕ × List (ℕ × ℕ))
odd_loop zero i n factors = none
odd_loop (suc fuel) i n factors = elim (leb (i * i) n) [
  | false ↦ some (n, factors)
  | true ↦ elim (divide_loop (suc n) i n factors) [
    | none ↦ none
    | some (m, fs) ↦ odd_loop fuel (i + 2) m fs
  ]
]

unfoldable pub factorize : ℕ → Option (List (ℕ × ℕ))
factorize n = do
  r ← divide_loop (suc n) 2 n []
  s ← odd_loop (suc r.0) 3 r.0 r.1
  some (if ltb 2 s.0 then bump s.0 s.1 else s.1)
