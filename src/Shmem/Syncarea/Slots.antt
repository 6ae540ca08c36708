-- ===== src/Shmem/Syncarea/Slots.antt =====
-- The search for an entry.
use coronas.Prelude.{
  ℕ, zero, suc, ◌+◌, ◌≡◌, refl, ap, ◌∙◌, inl, inr, Bool, true, false, none, some, List, [], ◌∷◌,
  arith, Bool-cases, get_elem?, set,
}
use coronas.Shmem.Syncarea.{find_loop}

module _ {ℓ} {A : Type ℓ} where
  pub find_loop-some :
      (test : A → Bool) (i : ℕ) (xs : List A) (k : ℕ)
      → find_loop test i xs ≡ some k
      → (j : ℕ) × (x : A) × (k ≡ i + j) × (get_elem? xs j ≡ some x) × (test x ≡ true)
  unfolding find_loop
  find_loop-some test i [] k h = absurd (cc)
  find_loop-some test i (x ∷ xs) k h = elim (Bool-cases (test x)) [
    | inl e ↦ (0, x, ground (arith, e, h), refl, e)
    | inr e ↦
        let (j, y, a, b, c) = find_loop-some test (i + 1) xs k (ground (arith, e, h)) in
        (suc j, y, omega (arith, a), b, c)
  ]

  pub find_loop-none :
      (test : A → Bool) (i : ℕ) (xs : List A) (j : ℕ) (x : A)
      → find_loop test i xs ≡ none
      → get_elem? xs j ≡ some x
      → test x ≡ false
  unfolding find_loop
  find_loop-none test i [] j x h e = absurd (cc)
  find_loop-none test i (y ∷ xs) zero x h e = ground (arith, h, e)
  find_loop-none test i (y ∷ xs) (suc j) x h e =
      find_loop-none test (i + 1) xs j x (ground (arith, h)) e

  -- No entry passes the test.
  pub find_loop-all_false :
      (test : A → Bool) (i : ℕ) (xs : List A)
      → ((j : ℕ) (x : A) → get_elem? xs j ≡ some x → test x ≡ false)
      → find_loop test i xs ≡ none
  unfolding find_loop
  find_loop-all_false test i [] h = refl
  find_loop-all_false test i (y ∷ xs) h =
      rw (h 0 y refl) (find_loop-all_false test (i + 1) xs (λ j x e. h (suc j) x e))

  -- Just one entry passes the test.
  pub find_loop_unique :
      (test : A → Bool) (i : ℕ) (xs : List A) (j : ℕ) (x : A)
      → get_elem? xs j ≡ some x
      → test x ≡ true
      → ((k : ℕ) (y : A) → get_elem? xs k ≡ some y → test y ≡ true → k ≡ j)
      → find_loop test i xs ≡ some (i + j)
  unfolding find_loop
  find_loop_unique test i [] j x e h only = absurd (cc)
  find_loop_unique test i (y ∷ xs) zero x e h only = ground (arith, e, h)
  find_loop_unique test i (y ∷ xs) (suc j) x e h only = elim (Bool-cases (test y)) [
    | inl t ↦ absurd (omega (arith, only 0 y refl t))
    | inr f ↦ rw f (
        find_loop_unique test (i + 1) xs j x e h (λ k z a b. omega (arith, only (suc k) z a b))
        ∙ ap some (omega arith))
  ]

  -- An entry replaced, where neither the old nor the new one passes the test.
  pub find_loop-set :
      (test : A → Bool) (i : ℕ) (xs : List A) (k : ℕ) (old new : A)
      → get_elem? xs k ≡ some old
      → test old ≡ false
      → test new ≡ false
      → find_loop test i (set xs k new) ≡ find_loop test i xs
  unfolding find_loop
  find_loop-set test i [] k old new e f g = refl
  find_loop-set test i (y ∷ xs) zero old new e f g = ground (arith, e, f, g)
  find_loop-set test i (y ∷ xs) (suc k) old new e f g =
      rw (find_loop-set test (i + 1) xs k old new e f g) refl
