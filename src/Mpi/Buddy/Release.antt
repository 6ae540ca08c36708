-- ===== src/Mpi/Buddy/Release.antt =====
-- dart_buddy_free does on the array what `release` does on the tree.
use coronas.Prelude.{
  ℕ, zero, suc, ◌+◌, ◌-◌, ◌/◌, ◌^◌, ◌≡◌, refl, sym, ap, subst, ◌∙◌, inl, inr, Bool, true, false,
  Option, none, some, arith, ltb, ◌==◌, if◌then◌else◌, Bool-cases,
}
use coronas.Mpi.Buddy.{node_split, Node, left, right, node_unused, node_used}
use coronas.Mpi.Buddy.Free.{is_full_node, combine, free_here, free_loop}
use coronas.Mpi.Buddy.Tree.{Tree, unused, used, split, full, is_taken, Holds}
use coronas.Mpi.Buddy.Tidy.{IsTidy, release, merged_left, merged_right}
use coronas.Mpi.Buddy.Descent.{Freed, is_full, up_left, up_right}

at_unused :
    (h : ℕ) (τ : ℕ → Node) (i start len off : ℕ)
    → τ i ≡ node_unused
    → free_loop h τ i start len off ≡ some (τ, false)
unfolding free_loop
at_unused zero τ i start len off e = ap (free_here τ i start off none) e
at_unused (suc h) τ i start len off e = ap (free_here τ i start off _) e

at_used :
    (h : ℕ) (τ : ℕ → Node) (i start len off : ℕ)
    → τ i ≡ node_used
    → free_loop h τ i start len off
      ≡ (if off == start then some (combine τ i, true) else some (τ, false))
unfolding free_loop
at_used zero τ i start len off e = ap (free_here τ i start off none) e
at_used (suc h) τ i start len off e = ap (free_here τ i start off _) e

same_place : (s o : ℕ) → (s + o == s) ≡ (o == 0)
same_place s o = ground arith

same_half : (s o p : ℕ) → ltb (s + o) (s + p) ≡ ltb o p
same_half s o p = ground arith

halved : (h : ℕ) → 2 ^ suc h / 2 ≡ 2 ^ h
halved h = omega arith

rest_of : (s o p : ℕ) → ltb o p ≡ false → s + o ≡ s + p + (o - p)
rest_of s o p e = ground (arith, e)

-- Below a split or full node.
below :
    (h : ℕ) (τ : ℕ → Node) (i start o : ℕ)
    → ((b : Option ((ℕ → Node) × Bool)) → free_here τ i start (start + o) b (τ i) ≡ b)
    → free_loop (suc h) τ i start (2 ^ suc h) (start + o) ≡ (
        if ltb o (2 ^ h)
        then free_loop h τ (left i) start (2 ^ h) (start + o)
        else free_loop h τ (right i) (start + 2 ^ h) (2 ^ h) (start + 2 ^ h + (o - 2 ^ h)))
unfolding free_loop
below h τ i start o g =
    g _
    ∙ ap
        (λ p.
          if ltb (start + o) (start + p)
          then free_loop h τ (left i) start p (start + o)
          else free_loop h τ (right i) (start + p) p (start + o))
        (halved h)
    ∙ elim (Bool-cases (ltb o (2 ^ h))) [
      | inl e ↦ rw (same_half start o (2 ^ h), e) refl
      | inr e ↦
          rw (same_half start o (2 ^ h), e)
            (ap (free_loop h τ (right i) (start + 2 ^ h) (2 ^ h)) (rest_of start o (2 ^ h) e))
    ]

-- A node with two halves, given what happens in the one where the offset lies.
both_halves :
    (h : ℕ) (τ : ℕ → Node) (i start o : ℕ) (F : Bool) (l r : Tree)
    → ((b : Option ((ℕ → Node) × Bool)) → free_here τ i start (start + o) b (τ i) ≡ b)
    → is_full_node (τ i) ≡ F
    → (F ≡ false → τ i ≡ node_split)
    → (is_taken l ≡ false → F ≡ false)
    → (is_taken r ≡ false → F ≡ false)
    → Holds τ (left i) h l
    → Holds τ (right i) h r
    → Freed τ
        (left i)
        h
        (is_full l)
        (is_taken l)
        (free_loop h τ (left i) start (2 ^ h) (start + o))
        (release h l o)
    → Freed τ
        (right i)
        h
        (is_full r)
        (is_taken r)
        (free_loop h τ (right i) (start + 2 ^ h) (2 ^ h) (start + 2 ^ h + (o - 2 ^ h)))
        (release h r (o - 2 ^ h))
    → Freed τ i (suc h) F F (free_loop (suc h) τ i start (2 ^ suc h) (start + o)) (
        if ltb o (2 ^ h)
        then merged_left r (release h l o)
        else merged_right l (release h r (o - 2 ^ h)))
both_halves h τ i start o F l r g e s nl nr a b fl fr =
    subst
      (λ res. Freed τ i (suc h) F F res (
        if ltb o (2 ^ h)
        then merged_left r (release h l o)
        else merged_right l (release h r (o - 2 ^ h))))
      (sym (below h τ i start o g))
      (elim (Bool-cases (ltb o (2 ^ h))) [
        | inl c ↦ rw c (
            up_left τ i h F l r (free_loop h τ (left i) start (2 ^ h) (start + o)) (release h l o) e
              s nl a b fl)
        | inr c ↦ rw c (
            up_right τ i h F r l
              (free_loop h τ (right i) (start + 2 ^ h) (2 ^ h) (start + 2 ^ h + (o - 2 ^ h)))
              (release h r (o - 2 ^ h)) e s nr b a fr)
      ])

pub free_lem :
    (h : ℕ) (τ : ℕ → Node) (i start o : ℕ) (T : Tree)
    → Holds τ i h T
    → IsTidy T
    → Freed τ i h
        (is_full T)
        (is_taken T)
        (free_loop h τ i start (2 ^ h) (start + o))
        (release h T o)
unfolding release
free_lem h τ i start o unused e _ = at_unused h τ i start (2 ^ h) (start + o) e
free_lem h τ i start o used e _ =
    let f = at_used h τ i start (2 ^ h) (start + o) e in
    elim (Bool-cases (o == 0)) [
      | inl z ↦ rw z (f ∙ rw (same_place start o, z) refl)
      | inr z ↦ rw z (f ∙ rw (same_place start o, z) refl)
    ]
free_lem zero τ i start o (split l r) e _ = absurd e
free_lem zero τ i start o (full l r) e _ = absurd e
free_lem (suc h) τ i start o (split l r) (s, a, b) (n, m, tl, tr) =
    both_halves h τ i start o false l r (λ x. ap (free_here τ i start (start + o) x) s)
      (ap is_full_node s) (λ _. s) (λ _. refl) (λ _. refl) a b
      (free_lem h τ (left i) start o l a tl)
      (free_lem h τ (right i) (start + 2 ^ h) (o - 2 ^ h) r b tr)
free_lem (suc h) τ i start o (full l r) (s, a, b) (n, m, tl, tr) =
    both_halves h τ i start o true l r (λ x. ap (free_here τ i start (start + o) x) s)
      (ap is_full_node s) (λ q. absurd (cc)) (λ q. sym n ∙ q) (λ q. sym m ∙ q) a b
      (free_lem h τ (left i) start o l a tl)
      (free_lem h τ (right i) (start + 2 ^ h) (o - 2 ^ h) r b tr)
