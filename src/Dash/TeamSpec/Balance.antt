-- ===== src/Dash/TeamSpec/Balance.antt =====
-- How many units balance_extents arranges.
use coronas.Dash.TeamSpec.Units.{resized}
use coronas.Prelude.{
  ℕ, zero, suc, ◌+◌, ◌*◌, ◌/◌, ◌%◌, ◌^◌, ◌≤◌, ◌<◌, ◌≡◌, refl, sym, ap, ◌∙◌, ◌↔◌, ◌⊎◌, inl, Bool,
  true, false, ◌||◌, none, some, List, [], ◌∷◌, arith, ltb, ◌==◌, if◌then◌else◌,
}
use coronas.Dash.Distribution.{Distribution}
use coronas.Dash.CartesianIndexSpace
use coronas.Dash.CartesianSpace.{size_loop}
use coronas.Dash.Math.Factors.{weight, factorize_lem}
use coronas.Dash.TeamSpec.Surface.{
  tried, power_base, weight_tail, Least, Tried, factors_loop-Found, factors_loop-Tried,
  AllFound-Least,
}
use coronas.Dash.TeamSpec.{
  factorize, TeamSpec, resize, of_other, Best, multiples_loop, factors_loop, balance_extents,
}
use native.Mathlib.Nat.{
  mul-one, one-mul, div_self, div-mul-le_self, mul_comm, mul-pos, div-add-mod',
}

-- The best extents have the second one as the quotient by the first.
abbrev Splits : ℕ → Best → Type 0
Splits n b = (0 < b.x) × (b.y ≡ n / b.x)

either : (n : ℕ) (c : Bool) (x y : Best) → Splits n x → Splits n y → Splits n (if c then x else y)
either n true x y s r = s
either n false x y s r = r

multiples_keep :
    (rounds i f n : ℕ) (b : Best)
    → 0 < f
    → 0 < i
    → Splits n b
    → Splits n (multiples_loop rounds i f n b)
unfolding multiples_loop
multiples_keep zero i f n b hf hi s = s
multiples_keep (suc rounds) i f n b hf hi s =
    let better = (b.surface == 0) || ltb (tried f i n).surface b.surface in
    multiples_keep rounds (i + 1) f n (if better then tried f i n else b) hf (omega arith)
      (either n better (tried f i n) b (mul-pos hf hi, refl) s)

factors_keep :
    (fs : List (ℕ × ℕ)) (n : ℕ) (b : Best)
    → 0 < weight fs
    → Splits n b
    → Splits n (factors_loop fs n b)
unfolding factors_loop multiples_loop
factors_keep [] n b w s = s
factors_keep ((p, zero) ∷ fs) n b w s =
    factors_keep fs n (multiples_loop 0 1 p n b) (weight_tail (p ^ 0) (weight fs) w) s
factors_keep ((p, suc e) ∷ fs) n b w s =
    factors_keep fs n (multiples_loop (suc e) 1 p n b) (weight_tail (p ^ suc e) (weight fs) w)
      (multiples_keep (suc e) 1 p n b (power_base p e (weight fs) w) (omega arith) s)

whole_iff : (n x : ℕ) → (x * (n / x) ≡ n) ↔ (n % x ≡ 0)
whole_iff n x = (
  λ h. omega (arith, h, div-add-mod' n x, mul_comm x (n / x)),
  λ h. omega (arith, h, div-add-mod' n x, mul_comm x (n / x)),
)

pair_volume : (x y : ℕ) → (resize (x ∷ y ∷ [])).space.size ≡ x * y
pair_volume x y = resized (x ∷ y ∷ []) ∙ ap (λ k. x * k) (mul-one y)

-- In a team of a times b units, not 0, arranged in two dimensions, balance_extents ends and answers
-- an arrangement of x units in the first dimension and in the second the quotient of the units by
-- x: it has at most the units of the team, and all of them exactly if x divides their number. x is
-- the number of all units or one of those tried, the multiples f, 2f, ... cf of each factor f with
-- frequency c in what `factorize` answers, and none of those tried has a smaller surface.
pub balance_extents_lem :
    (a b : ℕ)
    → 0 < a * b
    → (x : ℕ) × (t : TeamSpec) × (balance_extents (resize (a ∷ b ∷ [])) ≡ some t)
      × (t.space.extents ≡ x ∷ (a * b / x) ∷ [])
      × (0 < x)
      × (t.space.size ≤ a * b)
      × ((t.space.size ≡ a * b) ↔ ((a * b) % x ≡ 0))
      × (fs : List (ℕ × ℕ)) × (factorize (a * b) ≡ some fs)
      × ((x ≡ a * b) ⊎ Tried fs x)
      × Least fs (a * b) x
unfolding balance_extents resize CartesianIndexSpace.resize size_loop
balance_extents_lem a b h =
    let n = a * b in
    let units : 1 * a * b ≡ n = ap (λ k. k * b) (one-mul a) in
    let (fs, e, w) = factorize_lem n h in
    let first : Best = record { surface = 0; x = n; y = 1 } in
    let (pos, y) = factors_keep fs n first (omega (arith, w, h)) (h, sym (div_self h)) in
    let (fair, all, _) = factors_loop-Found fs n first (omega (arith, w, h)) (inl refl) in
    let r = factors_loop fs n first in
    let size : (resize (r.x ∷ r.y ∷ [])).space.size ≡ r.x * (n / r.x) =
      pair_volume r.x r.y ∙ ap (λ k. r.x * k) y in
    (
      r.x,
      resize (r.x ∷ r.y ∷ []),
      rw (units, e) refl,
      ap (λ k. r.x ∷ k ∷ []) y,
      pos,
      omega (arith, size, div-mul-le_self n r.x, mul_comm r.x (n / r.x)),
      (λ k. (whole_iff n r.x).0 (sym size ∙ k), λ k. size ∙ (whole_iff n r.x).1 k),
      fs,
      e,
      factors_loop-Tried fs n first,
      AllFound-Least fs n r fair all,
    )

-- No specification that `resize` leaves is linear, so none is arranged anew for a distribution.
of_other_lem :
    (es : List ℕ) (dists : List Distribution) (n : ℕ)
    → of_other (resize es) dists n
      ≡ (if (resize es).space.size == n then some (resize es) else none)
unfolding of_other resize CartesianIndexSpace.resize
of_other_lem es dists n = refl
