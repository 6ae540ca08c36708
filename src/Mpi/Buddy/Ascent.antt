-- ===== src/Mpi/Buddy/Ascent.antt =====
-- dart_buddy_free on a pool that holds a tidy tree: what happens at the children of a node.
use coronas.Prelude.{ℕ, zero, suc, ◌+◌, ◌*◌, ◌≤◌, ◌≡◌, refl, ap, ◌∙◌, arith, if◌then◌else◌}
use coronas.Mpi.Buddy.{Node, left, right, parent, buddy_of, store, node_unused, node_split}
use coronas.Mpi.Buddy.Free.{is_unused_node, is_full_node, open_loop, combine_loop, combine}

abbrev pub open_up : (ℕ → Node) → ℕ → ℕ → Node
open_up τ index = open_loop index τ index

open_enough :
    (f g : ℕ) (τ : ℕ → Node) (index : ℕ)
    → index ≤ f
    → index ≤ g
    → open_loop f τ index ≡ open_loop g τ index
unfolding open_loop
open_enough zero zero τ index h k = refl
open_enough zero (suc g) τ zero h k = refl
open_enough zero (suc g) τ (suc i) h k = absurd (omega (arith, h))
open_enough (suc f) zero τ zero h k = refl
open_enough (suc f) zero τ (suc i) h k = absurd (omega (arith, k))
open_enough (suc f) (suc g) τ zero h k = refl
open_enough (suc f) (suc g) τ (suc i) h k =
    ap (λ r. if is_full_node (τ (parent (suc i))) then r else τ)
      (open_enough f g (store τ (parent (suc i)) node_split) (parent (suc i)) (omega (arith, h))
        (omega (arith, k)))

open_child :
    (τ : ℕ → Node) (i c : ℕ)
    → parent (suc c) ≡ i
    → open_up τ (suc c) ≡ (if is_full_node (τ i) then open_up (store τ i node_split) i else τ)
unfolding open_loop
open_child τ i c e =
    ap (λ r. if is_full_node (τ (parent (suc c))) then r else τ)
      (open_enough c (parent (suc c)) (store τ (parent (suc c)) node_split) (parent (suc c))
        (omega arith) (omega arith))
    ∙ ap (λ p. if is_full_node (τ p) then open_up (store τ p node_split) p else τ) e

combine_enough :
    (f g : ℕ) (τ : ℕ → Node) (index : ℕ)
    → index ≤ f
    → index ≤ g
    → combine_loop f τ index ≡ combine_loop g τ index
unfolding combine_loop
combine_enough f g τ zero h k = refl
combine_enough zero g τ (suc i) h k = absurd (omega (arith, h))
combine_enough (suc f) zero τ (suc i) h k = absurd (omega (arith, k))
combine_enough (suc f) (suc g) τ (suc i) h k =
    ap
      (λ r.
        if is_unused_node (τ (buddy_of (suc i)))
        then r
        else open_loop (suc i) (store τ (suc i) node_unused) (suc i))
      (combine_enough f g τ (parent (suc i)) (omega (arith, h)) (omega (arith, k)))

combine_child :
    (τ : ℕ → Node) (i c : ℕ)
    → parent (suc c) ≡ i
    → combine τ (suc c) ≡ (
        if is_unused_node (τ (buddy_of (suc c)))
        then combine τ i
        else open_up (store τ (suc c) node_unused) (suc c))
unfolding combine combine_loop
combine_child τ i c e =
    ap
      (λ r.
        if is_unused_node (τ (buddy_of (suc c)))
        then r
        else open_up (store τ (suc c) node_unused) (suc c))
      (combine_enough c (parent (suc c)) τ (parent (suc c)) (omega arith) (omega arith)
        ∙ ap (λ p. combine_loop p τ p) e)

pub open_left :
    (τ : ℕ → Node) (i : ℕ)
    → open_up τ (left i) ≡ (if is_full_node (τ i) then open_up (store τ i node_split) i else τ)
open_left τ i = ap (open_up τ) (omega arith) ∙ open_child τ i (i * 2) (omega arith)

pub combine-left :
    (τ : ℕ → Node) (i : ℕ)
    → combine τ (left i) ≡ (
        if is_unused_node (τ (right i))
        then combine τ i
        else open_up (store τ (left i) node_unused) (left i))
combine-left τ i =
    ap (combine τ) (omega arith)
    ∙ combine_child τ i (i * 2) (omega arith)
    ∙ ap
        (λ b.
          if is_unused_node (τ b)
          then combine τ i
          else open_up (store τ (suc (i * 2)) node_unused) (suc (i * 2)))
        (omega arith)
    ∙ ap
        (λ c.
          if is_unused_node (τ (right i)) then combine τ i else open_up (store τ c node_unused) c)
        (omega arith)

pub open_right :
    (τ : ℕ → Node) (i : ℕ)
    → open_up τ (right i) ≡ (if is_full_node (τ i) then open_up (store τ i node_split) i else τ)
open_right τ i = ap (open_up τ) (omega arith) ∙ open_child τ i ((i * 2 + 1)) (omega arith)

pub combine-right :
    (τ : ℕ → Node) (i : ℕ)
    → combine τ (right i) ≡ (
        if is_unused_node (τ (left i))
        then combine τ i
        else open_up (store τ (right i) node_unused) (right i))
combine-right τ i =
    ap (combine τ) (omega arith)
    ∙ combine_child τ i ((i * 2 + 1)) (omega arith)
    ∙ ap
        (λ b.
          if is_unused_node (τ b)
          then combine τ i
          else open_up (store τ (suc ((i * 2 + 1))) node_unused) (suc ((i * 2 + 1))))
        (omega arith)
    ∙ ap
        (λ c.
          if is_unused_node (τ (left i)) then combine τ i else open_up (store τ c node_unused) c)
        (omega arith)
