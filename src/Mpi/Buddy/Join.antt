-- ===== src/Mpi/Buddy/Join.antt =====
-- What `_mark_parent` makes of a split node when one half is allocated in.
use coronas.Prelude.{
  ℕ, suc, ◌≡◌, refl, subst, ◌∙◌, ◌≢◌, inl, inr, ◌==◌, if◌then◌else◌, ==_iff, Bool-cases,
}
use coronas.Mpi.Buddy.{node_full, node_split, Node, left, right, store, mark_parent}
use coronas.Mpi.Buddy.Nodes.{Below, not-Below-left, not-Below-right}
use coronas.Mpi.Buddy.Tree.{Tree, is_taken, join, Holds, Holds-agree, taken_lem}
use coronas.Mpi.Buddy.Mark.{mark_left, mark_right}

pub store_same : (τ : ℕ → Node) (i : ℕ) (v : Node) → store τ i v i ≡ v
store_same τ i v = rw ((==_iff i i).1 refl) refl

pub store_other : (τ : ℕ → Node) (i j : ℕ) (v : Node) → j ≢ i → store τ i v j ≡ τ j
store_other τ i j v n = elim (Bool-cases (j == i)) [
  | inl e ↦ absurd (n ((==_iff j i).0 e))
  | inr e ↦ rw e refl
]

-- A node outside a subtree may be written.
pub Holds-store :
    (τ : ℕ → Node) (i c h : ℕ) (v : Node) (T : Tree)
    → ¬ Below c i
    → Holds τ c h T
    → Holds (store τ i v) c h T
Holds-store τ i c h v T n =
    Holds-agree τ (store τ i v) c h T
      (λ j w. store_other τ i j v (λ e. n (subst (λ x. Below c x) e w)))

-- After an allocation in the left or in the right half: the marks go on from the whole if it is
-- taken now.
abbrev pub Joined : (τ : ℕ → Node) (i h : ℕ) (l r : Tree) → Type 0
Joined τ i h l r =
    (σ : ℕ → Node) × Holds σ i (suc h) (join l r)
    × ((j : ℕ) → j ≢ i → σ j ≡ τ j)
    × ((if is_taken l then mark_parent τ (left i) else τ)
        ≡ (if is_taken (join l r) then mark_parent σ i else σ))
    × ((if is_taken r then mark_parent τ (right i) else τ)
        ≡ (if is_taken (join l r) then mark_parent σ i else σ))

pub joined :
    (τ : ℕ → Node) (i h : ℕ) (l r : Tree)
    → τ i ≡ node_split
    → Holds τ (left i) h l
    → Holds τ (right i) h r
    → Joined τ i h l r
joined τ i h l r s a b =
    let tl = taken_lem τ (left i) h l a in
    let tr = taken_lem τ (right i) h r b in
    elim (Bool-cases (is_taken l)) [
      | inl e ↦ elim (Bool-cases (is_taken r)) [
        | inl f ↦
            rw (e, f)
              (
                store τ i node_full,
                (
                  store_same τ i node_full,
                  Holds-store τ i (left i) h node_full l (not-Below-left i) a,
                  Holds-store τ i (right i) h node_full r (not-Below-right i) b,
                ),
                λ j n. store_other τ i j node_full n,
                mark_left τ i ∙ rw (tr, f) refl,
                mark_right τ i ∙ rw (tl, e) refl,
              )
        | inr f ↦ rw (e, f) (τ, (s, a, b), λ j n. refl, mark_left τ i ∙ rw (tr, f) refl, refl)
      ]
      | inr e ↦ elim (Bool-cases (is_taken r)) [
        | inl f ↦ rw (e, f) (τ, (s, a, b), λ j n. refl, refl, mark_right τ i ∙ rw (tl, e) refl)
        | inr f ↦ rw (e, f) (τ, (s, a, b), λ j n. refl, refl, refl)
      ]
    ]
