-- ===== src/Dash/TeamSpec/Units.antt =====
-- How many units an arrangement for a distribution has.
use coronas.Prelude.{
  ℕ, ◌*◌, ◌≡◌, refl, sym, ap, ◌∙◌, inl, inr, Bool, true, false, not, ◌||◌, Option, none, some, List,
  [], ◌∷◌, arith, if◌then◌else◌, Bool-cases, ◌>>=◌, drop,
}
use coronas.Dash.Distribution.{
  Distribution, DistributionType, dist_undefined, dist_none, dist_blocked, dist_cyclic,
  dist_blockcyclic, dist_tile,
}
use coronas.Dash.CartesianIndexSpace.RoundTrip.{size_volume}
use coronas.Dash.CartesianSpace.{volume}
use coronas.Dash.TeamSpec.{
  TeamSpec, resize, is_tile, is_none, any_tile, is_tiled, tiled_loop, single_loop, of_distribution,
}
use mathlib.Core.Option.{some-injective}
use native.Mathlib.Nat.{mul-one, one-mul}

-- A dimension is distributed.
abbrev pub distributed : List Distribution → Bool
distributed [] = false
distributed (d ∷ dists) = not (is_none d.dist_type) || distributed dists

tiled_done : (n : ℕ) (dists : List Distribution) → volume (tiled_loop true n dists) ≡ 1
unfolding tiled_loop
tiled_done n [] = refl
tiled_done n (d ∷ dists) = omega (arith, tiled_done n dists)

tile_distributed : (d : Distribution) → is_tile d.dist_type ≡ true → is_none d.dist_type ≡ false
tile_distributed d h = by_type d.dist_type h
  where
    by_type : (t : DistributionType) → is_tile t ≡ true → is_none t ≡ false
    by_type dist_undefined h = absurd (ground (arith, h))
    by_type dist_none h = absurd (ground (arith, h))
    by_type dist_blocked h = absurd (ground (arith, h))
    by_type dist_cyclic h = absurd (ground (arith, h))
    by_type dist_blockcyclic h = absurd (ground (arith, h))
    by_type dist_tile h = refl

tiled_units :
    (n : ℕ) (dists : List Distribution)
    → any_tile dists ≡ true
    → (volume (tiled_loop false n dists) ≡ n) × (distributed dists ≡ true)
unfolding any_tile tiled_loop
tiled_units n [] h = absurd (cc)
tiled_units n (d ∷ dists) h = elim (Bool-cases (is_tile d.dist_type)) [
  | inl e ↦
      (rw e (ap (λ v. n * v) (tiled_done n dists) ∙ mul-one n), rw (tile_distributed d e) refl)
  | inr e ↦
      let (v, r) = tiled_units n dists (ground (arith, e, h)) in
      (rw e (ap (λ x. 1 * x) v ∙ one-mul n), ground (arith, r))
]

any_of_tail : (dists : List Distribution) → any_tile (drop 1 dists) ≡ true → any_tile dists ≡ true
unfolding any_tile
any_of_tail [] h = h
any_of_tail (d ∷ dists) h = ground (arith, h)

bind-cons :
    (e : ℕ) (o : Option (List ℕ)) {es : List ℕ}
    → (o >>= λ r. some (e ∷ r)) ≡ some es
    → (r : List ℕ) × (o ≡ some r) × (e ∷ r ≡ es)
bind-cons e none h = absurd (cc)
bind-cons e (some r) h = (r, refl, some-injective _ _ h)

single_round :
    (done : Bool) (n : ℕ) (d : Distribution) (dists : List Distribution)
    → is_none d.dist_type ≡ true
    → single_loop done n (d ∷ dists) ≡ (single_loop done n dists >>= λ r. some (1 ∷ r))
unfolding single_loop
single_round done n d dists e = rw (e, single_loop) refl

single_first :
    (n : ℕ) (d : Distribution) (dists : List Distribution)
    → is_none d.dist_type ≡ false
    → single_loop false n (d ∷ dists) ≡ (single_loop true n dists >>= λ r. some (n ∷ r))
unfolding single_loop
single_first n d dists e = rw (e, single_loop) refl

single_second :
    (n : ℕ) (d : Distribution) (dists : List Distribution)
    → is_none d.dist_type ≡ false
    → single_loop true n (d ∷ dists) ≡ none
unfolding single_loop
single_second n d dists e = rw (e, single_loop) refl

single_done :
    (n : ℕ) (dists : List Distribution) (es : List ℕ)
    → single_loop true n dists ≡ some es
    → volume es ≡ 1
unfolding single_loop
single_done n [] es h = ap volume (sym (some-injective _ _ h))
single_done n (d ∷ dists) es h = elim (Bool-cases (is_none d.dist_type)) [
  | inl e ↦
      let (r, f, same) =
        bind-cons 1 (single_loop true n dists) (sym (single_round true n d dists e) ∙ h) in
      ap volume (sym same) ∙ ap (λ v. 1 * v) (single_done n dists r f)
  | inr e ↦ absurd (cc (sym (single_second n d dists e) ∙ h))
]

-- The units of a distribution that is not tiled.
single_units :
    (n : ℕ) (dists : List Distribution) (es : List ℕ)
    → single_loop false n dists ≡ some es
    → volume es ≡ (if distributed dists then n else 1)
unfolding single_loop
single_units n [] es h = ap volume (sym (some-injective _ _ h))
single_units n (d ∷ dists) es h = elim (Bool-cases (is_none d.dist_type)) [
  | inl e ↦
      let (r, f, same) =
        bind-cons 1 (single_loop false n dists) (sym (single_round false n d dists e) ∙ h) in
      rw e (ap volume (sym same) ∙ one-mul (volume r) ∙ single_units n dists r f)
  | inr e ↦
      let (r, f, same) =
        bind-cons n (single_loop true n dists) (sym (single_first n d dists e) ∙ h) in
      rw e (ap volume (sym same) ∙ ap (λ v. n * v) (single_done n dists r f) ∙ mul-one n)
]

pub resized : (es : List ℕ) → (resize es).space.size ≡ volume es
unfolding resize
resized es = size_volume es

-- Where TeamSpec is made of a distribution and a team with no exception, it has all units of the
-- team if a dimension is distributed, and one unit if none is.
of_distribution_lem :
    (dists : List Distribution) (n : ℕ) (t : TeamSpec)
    → of_distribution dists n ≡ some t
    → t.space.size ≡ (if distributed dists then n else 1)
unfolding of_distribution is_tiled
of_distribution_lem dists n t h = elim (Bool-cases (any_tile (drop 1 dists))) [
  | inl e ↦
      let (v, d) = tiled_units n dists (any_of_tail dists e) in
      let f : resize (tiled_loop false n dists) ≡ t = some-injective _ _ (sym (rw e refl) ∙ h) in
      ap (λ (s : TeamSpec). s.space.size) (sym f)
      ∙ resized (tiled_loop false n dists)
      ∙ v
      ∙ sym (rw d refl)
  | inr e ↦ of_single (single_loop false n dists) refl (sym (rw e refl) ∙ h)
]
  where
    of_single :
        (o : Option (List ℕ))
        → single_loop false n dists ≡ o
        → (o >>= λ es. some (resize es)) ≡ some t
        → t.space.size ≡ (if distributed dists then n else 1)
    of_single none e h = absurd (cc)
    of_single (some es) e h =
        ap (λ (s : TeamSpec). s.space.size) (sym (some-injective _ _ h))
        ∙ resized es
        ∙ single_units n dists es e
