-- ===== src/Mpi/Buddy/Descent.antt =====
-- dart_buddy_free does on the array what `release` does on the tree: one level.
use coronas.Prelude.{
  ℕ, zero, suc, ◌≡◌, refl, sym, ap, subst, ◌∙◌, inl, inr, Bool, true, false, ◌&&◌, Option, none,
  some, arith, if◌then◌else◌, Bool-cases,
}
use coronas.Mpi.Buddy.{Node, left, right, store, node_unused, node_split}
use coronas.Mpi.Buddy.Free.{is_unused_node, is_full_node, combine}
use coronas.Mpi.Buddy.Nodes.{
  Below-right, Below, Below-self, Below-left, not-Below-left, not-Below-right, apart,
}
use coronas.Mpi.Buddy.Tree.{Tree, unused, used, split, full, is_taken, Holds, Holds-agree}
use coronas.Mpi.Buddy.Join.{store_same, store_other, Holds-store}
use coronas.Mpi.Buddy.Halves.{outside}
use coronas.Mpi.Buddy.Tidy.{merged_right, is_unused, merged_left}
use coronas.Mpi.Buddy.Ascent.{combine-right, open_right, open_up, open_left, combine-left}

abbrev pub is_full : Tree → Bool
is_full (full _ _) = true
is_full _ = false

unused_node :
    (τ : ℕ → Node) (i h : ℕ) (T : Tree) → Holds τ i h T → is_unused_node (τ i) ≡ is_unused T
unused_node τ i h unused e = ap is_unused_node e
unused_node τ i h used e = ap is_unused_node e
unused_node τ i zero (split l r) e = absurd e
unused_node τ i zero (full l r) e = absurd e
unused_node τ i (suc h) (split l r) (e, _, _) = ap is_unused_node e
unused_node τ i (suc h) (full l r) (e, _, _) = ap is_unused_node e

-- A release below the node `i`, whose tree was full or not, from the result on the tree: the node
-- becomes unused and may combine with its buddy, or is split and its parents are opened if it was
-- full.
abbrev pub Freed :
    (τ : ℕ → Node) (i h : ℕ) (was_full was_taken : Bool)
    → Option ((ℕ → Node) × Bool)
    → Option Tree
    → Type 0
Freed τ i h F K res none = res ≡ some (τ, false)
Freed τ i h F K res (some unused) = res ≡ some (combine τ i, true)
Freed τ i h F K res (some used) = ⊥
Freed τ i h F K res (some (full l r)) = ⊥
Freed τ i h F K res (some (split l r)) =
    (σ : ℕ → Node) × Holds σ i h (split l r)
    × ((j : ℕ) → ¬ Below i j → σ j ≡ τ j)
    × (K ≡ F)
    × (res ≡ some ((if F then open_up σ i else σ), true))

-- The node `i` itself, split when a child was released in.
opened :
    (σ : ℕ → Node) (i h : ℕ) (F : Bool) (l r : Tree)
    → is_full_node (σ i) ≡ F
    → (F ≡ false → σ i ≡ node_split)
    → Holds σ (left i) h l
    → Holds σ (right i) h r
    → (ρ : ℕ → Node) × Holds ρ i (suc h) (split l r)
      × ((j : ℕ) → ¬ Below i j → ρ j ≡ σ j)
      × ((if is_full_node (σ i) then open_up (store σ i node_split) i else σ)
          ≡ (if F then open_up ρ i else ρ))
opened σ i h true l r e s a b = (
  store σ i node_split,
  (
    store_same σ i node_split,
    Holds-store σ i (left i) h node_split l (not-Below-left i) a,
    Holds-store σ i (right i) h node_split r (not-Below-right i) b,
  ),
  λ j n. store_other σ i j node_split (outside i j n),
  rw e refl,
)
opened σ i h false l r e s a b = (σ, (s refl, a, b), λ j n. refl, rw e refl)

passed_left :
    (σ : ℕ → Node) (i : ℕ) (F G : Bool) (ρ : ℕ → Node)
    → is_full_node (σ i) ≡ F
    → (G ≡ false → F ≡ false)
    → (if is_full_node (σ i) then open_up (store σ i node_split) i else σ)
      ≡ (if F then open_up ρ i else ρ)
    → (if G then open_up σ (left i) else σ) ≡ (if F then open_up ρ i else ρ)
passed_left σ i F true ρ e n s = open_left σ i ∙ s
passed_left σ i F false ρ e n s = sym (rw (e ∙ n refl) refl) ∙ s

pub up_left :
    (τ : ℕ → Node) (i h : ℕ) (F : Bool) (l r : Tree) (res : Option ((ℕ → Node) × Bool))
    (x : Option Tree)
    → is_full_node (τ i) ≡ F
    → (F ≡ false → τ i ≡ node_split)
    → (is_taken l ≡ false → F ≡ false)
    → Holds τ (left i) h l
    → Holds τ (right i) h r
    → Freed τ (left i) h (is_full l) (is_taken l) res x
    → Freed τ i (suc h) F F res (merged_left r x)
up_left τ i h F l r res none e s n a b f = f
up_left τ i h F l r res (some unused) e s n a b f = elim (Bool-cases (is_unused r)) [
  | inl u ↦
      rw u (
        f
        ∙ ap (λ z. some (z, true)) (combine-left τ i ∙ rw (unused_node τ (right i) h r b, u) refl))
  | inr u ↦
      let σ = store τ (left i) node_unused in
      let at : σ i ≡ τ i = store_other τ (left i) i node_unused (λ q. absurd (omega (arith, q))) in
      let (ρ, hold, out, same) =
        opened σ i h F unused r (ap is_full_node at ∙ e) (λ q. at ∙ s q)
          (store_same τ (left i) node_unused)
          (Holds-store τ (left i) (right i) h node_unused r
            (λ w. apart i (left i) (Below-self (left i)) w) b) in
      rw u (
        ρ,
        hold,
        λ j q.
            out j q
            ∙ store_other τ (left i) j node_unused (λ z.
              q (Below-left i j (subst (λ y. Below (left i) y) (sym z) (Below-self (left i))))),
        refl,
        f
            ∙ ap (λ z. some (z, true))
                (combine-left τ i
                  ∙ rw (unused_node τ (right i) h r b, u) refl
                  ∙ open_left σ i
                  ∙ same),
      )
]
up_left τ i h F l r res (some used) e s n a b f = absurd f
up_left τ i h F l r res (some (full c d)) e s n a b f = absurd f
up_left τ i h F l r res (some (split c d)) e s n a b (σ, hold, out, k, f) =
    let at : σ i ≡ τ i = out i (not-Below-left i) in
    let other = Holds-agree τ σ (right i) h r (λ j w. out j (λ v. apart i j v w)) b in
    let (ρ, hold2, out2, same) =
      opened σ i h F (split c d) r (ap is_full_node at ∙ e) (λ q. at ∙ s q) hold other in
    (
      ρ,
      hold2,
      λ j q. out2 j q ∙ out j (λ w. q (Below-left i j w)),
      refl,
      f
          ∙ ap (λ z. some (z, true))
              (passed_left σ i F (is_full l) ρ (ap is_full_node at ∙ e) (λ z. n (k ∙ z)) same),
    )

passed_right :
    (σ : ℕ → Node) (i : ℕ) (F G : Bool) (ρ : ℕ → Node)
    → is_full_node (σ i) ≡ F
    → (G ≡ false → F ≡ false)
    → (if is_full_node (σ i) then open_up (store σ i node_split) i else σ)
      ≡ (if F then open_up ρ i else ρ)
    → (if G then open_up σ (right i) else σ) ≡ (if F then open_up ρ i else ρ)
passed_right σ i F true ρ e n s = open_right σ i ∙ s
passed_right σ i F false ρ e n s = sym (rw (e ∙ n refl) refl) ∙ s

-- A merge with a split half is no unused block.
split-Freed :
    (τ : ℕ → Node) (i h : ℕ) (F : Bool) (res : Option ((ℕ → Node) × Bool)) (r c d : Tree) (u : Bool)
    → Freed τ i h F F res (some (split r (split c d)))
    → Freed τ i h F F res (some (if u && false then unused else split r (split c d)))
split-Freed τ i h F res r c d true f = f
split-Freed τ i h F res r c d false f = f

pub up_right :
    (τ : ℕ → Node) (i h : ℕ) (F : Bool) (l r : Tree) (res : Option ((ℕ → Node) × Bool))
    (x : Option Tree)
    → is_full_node (τ i) ≡ F
    → (F ≡ false → τ i ≡ node_split)
    → (is_taken l ≡ false → F ≡ false)
    → Holds τ (right i) h l
    → Holds τ (left i) h r
    → Freed τ (right i) h (is_full l) (is_taken l) res x
    → Freed τ i (suc h) F F res (merged_right r x)
up_right τ i h F l r res none e s n a b f = f
up_right τ i h F l r res (some unused) e s n a b f = elim (Bool-cases (is_unused r)) [
  | inl u ↦
      rw u (
        f
        ∙ ap (λ z. some (z, true)) (combine-right τ i ∙ rw (unused_node τ (left i) h r b, u) refl))
  | inr u ↦
      let σ = store τ (right i) node_unused in
      let at : σ i ≡ τ i = store_other τ (right i) i node_unused (λ q. absurd (omega (arith, q))) in
      let (ρ, hold, out, same) =
        opened σ i h F r unused (ap is_full_node at ∙ e) (λ q. at ∙ s q)
          (Holds-store τ (right i) (left i) h node_unused r
            (λ w. apart i (right i) w (Below-self (right i))) b)
          (store_same τ (right i) node_unused) in
      rw u (
        ρ,
        hold,
        λ j q.
            out j q
            ∙ store_other τ (right i) j node_unused (λ z.
              q (Below-right i j (subst (λ y. Below (right i) y) (sym z) (Below-self (right i))))),
        refl,
        f
            ∙ ap (λ z. some (z, true))
                (combine-right τ i
                  ∙ rw (unused_node τ (left i) h r b, u) refl
                  ∙ open_right σ i
                  ∙ same),
      )
]
up_right τ i h F l r res (some used) e s n a b f = absurd f
up_right τ i h F l r res (some (full c d)) e s n a b f = absurd f
up_right τ i h F l r res (some (split c d)) e s n a b (σ, hold, out, k, f) =
    let at : σ i ≡ τ i = out i (not-Below-right i) in
    let other = Holds-agree τ σ (left i) h r (λ j w. out j (λ v. apart i j w v)) b in
    let (ρ, hold2, out2, same) =
      opened σ i h F r (split c d) (ap is_full_node at ∙ e) (λ q. at ∙ s q) other hold in
    split-Freed τ i (suc h) F res r c d (is_unused r) (
      ρ,
      hold2,
      λ j q. out2 j q ∙ out j (λ w. q (Below-right i j w)),
      refl,
      f
          ∙ ap (λ z. some (z, true))
              (passed_right σ i F (is_full l) ρ (ap is_full_node at ∙ e) (λ z. n (k ∙ z)) same),
    )
