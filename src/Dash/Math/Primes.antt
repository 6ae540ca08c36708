-- ===== src/Dash/Math/Primes.antt =====
-- The factors that `factorize` finds are prime.
use coronas.Prelude.{ℕ, ◌<◌, ◌≡◌, List, [], ◌∷◌}
use Prim.Native.Nat.{◌∣◌}

abbrev IsPrime : ℕ → Type 0
IsPrime p = (1 < p) × ((d : ℕ) → 1 < d → d ∣ p → d ≡ p)

abbrev pub AllPrime : List (ℕ × ℕ) → Type 0
AllPrime [] = Unit {0}
AllPrime ((p, e) ∷ factors) = IsPrime p × AllPrime factors

-- No number from 2 below i divides n.
abbrev FreeBelow : (i n : ℕ) → Type 0
FreeBelow i n = (d : ℕ) → 1 < d → d < i → ¬ (d ∣ n)
