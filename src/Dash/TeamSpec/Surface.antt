-- ===== src/Dash/TeamSpec/Surface.antt =====
-- The surface of the arrangement that balance_extents chooses.
use coronas.Prelude.{
  ℕ, zero, suc, ◌+◌, ◌*◌, ◌/◌, ◌^◌, ◌≤◌, ◌<◌, ◌≡◌, refl, ap, subst, ◌∙◌, ◌⊎◌, inl, inr, Bool, true,
  false, ◌||◌, List, [], ◌∷◌, arith, dec_lt, ltb, ◌==◌, if◌then◌else◌, ltb→lt, ==_iff, Bool-cases,
}
use coronas.Dash.Math.Factors.{weight}
use coronas.Dash.TeamSpec.{factors_loop, Best, multiples_loop}
use native.Mathlib.Nat.{mul-zero, pow-suc, mul-pos}

-- What the source calls the surface of x by n / x units.
abbrev pub surface_of : (n x : ℕ) → ℕ
surface_of n x = 2 * x + 2 * (n / x)

abbrev pub tried : (f i n : ℕ) → Best
tried f i n = record { surface = surface_of n (f * i); x = f * i; y = n / (f * i) }

-- The surface is that of the extents, unless nothing was tried.
abbrev Fair : ℕ → Best → Type 0
Fair n b = (b.surface ≡ 0) ⊎ (b.surface ≡ surface_of n b.x)

-- A surface that was found, and is at most s.
abbrev Found : Best → ℕ → Type 0
Found b s = (0 < b.surface) × (b.surface ≤ s)

abbrev choice : ℕ → ℕ → ℕ → Best → Best
choice f i n b = if (b.surface == 0) || ltb (surface_of n (f * i)) b.surface then tried f i n else b

tried_pos : (f i n : ℕ) → 0 < f → 0 < i → 0 < surface_of n (f * i)
tried_pos f i n hf hi = omega (arith, mul-pos hf hi)

choice_lem :
    (f i n : ℕ) (b : Best)
    → 0 < f
    → 0 < i
    → Fair n b
    → Fair n (choice f i n b)
      × Found (choice f i n b) (surface_of n (f * i))
      × (0 < b.surface → Found (choice f i n b) b.surface)
choice_lem f i n b hf hi g = elim (Bool-cases (b.surface == 0)) [
  | inl z ↦ rw z (
    inr refl,
    (tried_pos f i n hf hi, omega arith),
    λ p. absurd (omega (arith, p, (==_iff b.surface 0).0 z)),
  )
  | inr z ↦ elim (Bool-cases (ltb (surface_of n (f * i)) b.surface)) [
    | inl l ↦
        rw (z, l)
          (
            inr refl,
            (tried_pos f i n hf hi, omega arith),
            λ p. (tried_pos f i n hf hi, omega (arith, ltb→lt (surface_of n (f * i)) b.surface l)),
          )
    | inr l ↦
        let p : 0 < b.surface = ground (arith, z) in
        rw (z, l) (g, (p, ground (arith, l)), λ q. (p, omega arith))
  ]
]

multiples_loop-Found :
    (rounds i f n : ℕ) (b : Best)
    → 0 < f
    → 0 < i
    → Fair n b
    → Fair n (multiples_loop rounds i f n b)
      × ((j : ℕ)
          → i ≤ j
          → j < i + rounds
          → Found (multiples_loop rounds i f n b) (surface_of n (f * j)))
      × ((s : ℕ) → Found b s → Found (multiples_loop rounds i f n b) s)
unfolding multiples_loop
multiples_loop-Found zero i f n b hf hi g = (g, λ j h l. absurd (omega (arith, h, l)), λ s k. k)
multiples_loop-Found (suc rounds) i f n b hf hi g =
    let (g1, here, lower) = choice_lem f i n b hf hi g in
    let (g2, all, keep) =
      multiples_loop-Found rounds (i + 1) f n (choice f i n b) hf (omega arith) g1 in
    (
      g2,
      λ j h l. elim (dec_lt i j) [
        | yes k ↦ all j (omega (arith, k)) (omega (arith, l))
        | no k ↦
            let same : i ≡ j = omega (arith, h, k) in
            subst
              (λ m.
                Found (multiples_loop rounds (i + 1) f n (choice f i n b)) (surface_of n (f * m)))
              same (keep (surface_of n (f * i)) here)
      ],
      λ s k. keep s (at_most (choice f i n b) b s (lower k.0) k),
    )
  where
    at_most : (c b : Best) (s : ℕ) → Found c b.surface → Found b s → Found c s
    at_most c b s h k = (h.0, omega (arith, h.1, k.1))

abbrev AllFound : List (ℕ × ℕ) → ℕ → Best → Type 0
AllFound [] n b = Unit {0}
AllFound ((f, c) ∷ fs) n b =
    ((i : ℕ) → 0 < i → i ≤ c → Found b (surface_of n (f * i))) × AllFound fs n b

-- Of the multiples that are tried none has a smaller surface than x.
abbrev pub Least : List (ℕ × ℕ) → (n x : ℕ) → Type 0
Least [] n x = Unit {0}
Least ((f, c) ∷ fs) n x =
    ((i : ℕ) → 0 < i → i ≤ c → surface_of n x ≤ surface_of n (f * i)) × Least fs n x

-- x is one of the multiples that are tried.
abbrev pub Tried : List (ℕ × ℕ) → ℕ → Type 0
Tried [] x = ⊥
Tried ((f, c) ∷ fs) x = ((i : ℕ) × (0 < i) × (i ≤ c) × (x ≡ f * i)) ⊎ Tried fs x

pub power_base : (p e w : ℕ) → 0 < p ^ suc e * w → 0 < p
power_base zero e w h = absurd (omega (arith, h, ap (λ k. k * w) (pow-suc 0 e ∙ mul-zero (0 ^ e))))
power_base (suc p) e w h = omega arith

pub weight_tail : (a w : ℕ) → 0 < a * w → 0 < w
weight_tail a zero h = absurd (omega (arith, h))
weight_tail a (suc w) h = omega arith

pub factors_loop-Found :
    (fs : List (ℕ × ℕ)) (n : ℕ) (b : Best)
    → 0 < weight fs
    → Fair n b
    → Fair n (factors_loop fs n b)
      × AllFound fs n (factors_loop fs n b)
      × ((s : ℕ) → Found b s → Found (factors_loop fs n b) s)
unfolding factors_loop multiples_loop
factors_loop-Found [] n b w g = (g, tt, λ s k. k)
factors_loop-Found ((f, zero) ∷ fs) n b w g =
    let (g2, all, keep) = factors_loop-Found fs n b (weight_tail (f ^ 0) (weight fs) w) g in
    (g2, (λ i h l. absurd (omega (arith, h, l)), all), keep)
factors_loop-Found ((f, suc c) ∷ fs) n b w g =
    let (g1, here, keep1) =
      multiples_loop-Found (suc c) 1 f n b (power_base f c (weight fs) w) (omega arith) g in
    let (g2, all, keep) =
      factors_loop-Found fs n (multiples_loop (suc c) 1 f n b)
        (weight_tail (f ^ suc c) (weight fs) w) g1 in
    (
      g2,
      (λ i h l. keep (surface_of n (f * i)) (here i (omega (arith, h)) (omega (arith, l))), all),
      λ s k. keep s (keep1 s k),
    )

pub AllFound-Least :
    (fs : List (ℕ × ℕ)) (n : ℕ) (b : Best) → Fair n b → AllFound fs n b → Least fs n b.x
AllFound-Least [] n b g a = tt
AllFound-Least ((f, c) ∷ fs) n b g a = (λ i h l. least g (a.0 i h l), AllFound-Least fs n b g a.1)
  where
    least : {s : ℕ} → Fair n b → Found b s → surface_of n b.x ≤ s
    least (inl z) k = absurd (omega (arith, z, k))
    least (inr e) k = omega (arith, e, k)

choice_x : (f i n : ℕ) (b : Best) → ((choice f i n b).x ≡ b.x) ⊎ ((choice f i n b).x ≡ f * i)
choice_x f i n b = one_of ((b.surface == 0) || ltb (surface_of n (f * i)) b.surface)
  where
    one_of :
        (c : Bool)
        → ((if c then tried f i n else b).x ≡ b.x) ⊎ ((if c then tried f i n else b).x ≡ f * i)
    one_of true = inr refl
    one_of false = inl refl

multiples_loop-Tried :
    (rounds i f n : ℕ) (b : Best)
    → ((multiples_loop rounds i f n b).x ≡ b.x)
      ⊎ ((j : ℕ) × (i ≤ j) × (j < i + rounds) × ((multiples_loop rounds i f n b).x ≡ f * j))
unfolding multiples_loop
multiples_loop-Tried zero i f n b = inl refl
multiples_loop-Tried (suc rounds) i f n b =
    elim (multiples_loop-Tried rounds (i + 1) f n (choice f i n b)) [
      | inr (j, h, l, e) ↦ inr (j, omega (arith, h), omega (arith, l), e)
      | inl e ↦ elim (choice_x f i n b) [
        | inl k ↦ inl (e ∙ k)
        | inr k ↦ inr (i, omega arith, omega arith, e ∙ k)
      ]
    ]

pub factors_loop-Tried :
    (fs : List (ℕ × ℕ)) (n : ℕ) (b : Best)
    → ((factors_loop fs n b).x ≡ b.x) ⊎ Tried fs (factors_loop fs n b).x
unfolding factors_loop
factors_loop-Tried [] n b = inl refl
factors_loop-Tried ((f, c) ∷ fs) n b = elim (factors_loop-Tried fs n (multiples_loop c 1 f n b)) [
  | inr t ↦ inr (inr t)
  | inl e ↦ elim (multiples_loop-Tried c 1 f n b) [
    | inl k ↦ inl (e ∙ k)
    | inr (j, h, l, k) ↦ inr (inl (j, omega (arith, h), omega (arith, l), e ∙ k))
  ]
]
