-- ===== src/Mpi/Buddy/Mark.antt =====
-- `_mark_parent` at the children of a node.
use coronas.Prelude.{ℕ, zero, suc, ◌+◌, ◌*◌, ◌≤◌, ◌≡◌, refl, ap, ◌∙◌, arith, if◌then◌else◌}
use coronas.Mpi.Buddy.{
  node_full, Node, left, right, parent, buddy_of, store, taken, mark_loop, mark_parent,
}

mark_enough :
    (f g : ℕ) (τ : ℕ → Node) (index : ℕ)
    → index ≤ f
    → index ≤ g
    → mark_loop f τ index ≡ mark_loop g τ index
unfolding mark_loop
mark_enough zero zero τ index h k = refl
mark_enough zero (suc g) τ zero h k = refl
mark_enough zero (suc g) τ (suc i) h k = absurd (omega (arith, h))
mark_enough (suc f) zero τ zero h k = refl
mark_enough (suc f) zero τ (suc i) h k = absurd (omega (arith, k))
mark_enough (suc f) (suc g) τ zero h k = refl
mark_enough (suc f) (suc g) τ (suc i) h k =
    ap (λ r. if taken (τ (buddy_of (suc i))) then r else τ)
      (mark_enough f g (store τ (parent (suc i)) node_full) (parent (suc i)) (omega (arith, h))
        (omega (arith, k)))

-- From a child up: the parent is full if the buddy is taken.
mark_child :
    (τ : ℕ → Node) (i c : ℕ)
    → parent (suc c) ≡ i
    → mark_parent τ (suc c)
      ≡ (if taken (τ (buddy_of (suc c))) then mark_parent (store τ i node_full) i else τ)
unfolding mark_parent mark_loop
mark_child τ i c e =
    ap (λ r. if taken (τ (buddy_of (suc c))) then r else τ)
      (mark_enough c (parent (suc c)) (store τ (parent (suc c)) node_full) (parent (suc c))
          (omega arith) (omega arith)
        ∙ ap (λ p. mark_loop p (store τ p node_full) p) e)

pub mark_left :
    (τ : ℕ → Node) (i : ℕ)
    → mark_parent τ (left i)
      ≡ (if taken (τ (right i)) then mark_parent (store τ i node_full) i else τ)
mark_left τ i =
    ap (mark_parent τ) (omega arith)
    ∙ mark_child τ i (i * 2) (omega arith)
    ∙ ap (λ b. if taken (τ b) then mark_parent (store τ i node_full) i else τ) (omega arith)

pub mark_right :
    (τ : ℕ → Node) (i : ℕ)
    → mark_parent τ (right i)
      ≡ (if taken (τ (left i)) then mark_parent (store τ i node_full) i else τ)
mark_right τ i =
    ap (mark_parent τ) (omega arith)
    ∙ mark_child τ i (i * 2 + 1) (omega arith)
    ∙ ap (λ b. if taken (τ b) then mark_parent (store τ i node_full) i else τ) (omega arith)
