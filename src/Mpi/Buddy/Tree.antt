-- ===== src/Mpi/Buddy/Tree.antt =====
-- The allocator as functions of a tree of blocks, and how the array holds a tree.
use coronas.Prelude.{
  ℕ, zero, suc, ◌+◌, ◌*◌, ◌^◌, ◌≡◌, refl, ap, ◌∙◌, ◌≢◌, Bool, true, false, ◌&&◌, Option, none, some,
  if◌then◌else◌,
}
use coronas.Mpi.Buddy.Nodes.{Below, Below-self, Below-left, Below-right}
use coronas.Mpi.Buddy.{node_full, node_split, node_used, node_unused, Node, left, right, taken}

pub data Tree : Type 0 where
  unused used : Tree
  split full : Tree → Tree → Tree

abbrev pub is_taken : Tree → Bool
is_taken used = true
is_taken (full _ _) = true
is_taken _ = false

-- A block of two halves is full when both are taken.
abbrev pub join : Tree → Tree → Tree
join l r = if is_taken l && is_taken r then full l r else split l r

abbrev pub first_half :
    (width : ℕ) (l r : Tree) → Option (Tree × ℕ) → Option (Tree × ℕ) → Option (Tree × ℕ)
first_half w l r (some (l2, o)) _ = some (join l2 r, o)
first_half w l r none (some (r2, o)) = some (join l r2, w + o)
first_half w l r none none = none

-- The units of a block `k` levels above those of 2 ^ t, and its height.
abbrev pub width : (k t : ℕ) → ℕ
width zero t = 2 ^ t
width (suc k) t = width k t * 2

abbrev pub height : (k t : ℕ) → ℕ
height zero t = t
height (suc k) t = suc (height k t)

-- Takes the first unused block of 2 ^ t units in a tree of `width k t`.
unfoldable pub take_block : (k t : ℕ) → Tree → Option (Tree × ℕ)
take_block zero t unused = some (used, 0)
take_block zero t _ = none
take_block (suc k) t unused =
    first_half (width k t) unused unused (take_block k t unused) (take_block k t unused)
take_block (suc k) t (split l r) = first_half (width k t) l r (take_block k t l) (take_block k t r)
take_block (suc k) t _ = none

-- The subtree of height `h` at a node of the array.
abbrev pub Holds : (ℕ → Node) → (i h : ℕ) → Tree → Type 0
Holds τ i h unused = τ i ≡ node_unused
Holds τ i h used = τ i ≡ node_used
Holds τ i zero (split l r) = ⊥
Holds τ i zero (full l r) = ⊥
Holds τ i (suc h) (split l r) = (τ i ≡ node_split) × Holds τ (left i) h l × Holds τ (right i) h r
Holds τ i (suc h) (full l r) = (τ i ≡ node_full) × Holds τ (left i) h l × Holds τ (right i) h r

pub taken_lem : (τ : ℕ → Node) (i h : ℕ) (T : Tree) → Holds τ i h T → taken (τ i) ≡ is_taken T
taken_lem τ i h unused e = ap taken e
taken_lem τ i h used e = ap taken e
taken_lem τ i zero (split l r) e = absurd e
taken_lem τ i zero (full l r) e = absurd e
taken_lem τ i (suc h) (split l r) (e, _, _) = ap taken e
taken_lem τ i (suc h) (full l r) (e, _, _) = ap taken e

-- What happens outside a subtree does not matter to it.
pub Holds-agree :
    (τ σ : ℕ → Node) (i h : ℕ) (T : Tree)
    → ((j : ℕ) → Below i j → σ j ≡ τ j)
    → Holds τ i h T
    → Holds σ i h T
Holds-agree τ σ i h unused g e = g i (Below-self i) ∙ e
Holds-agree τ σ i h used g e = g i (Below-self i) ∙ e
Holds-agree τ σ i zero (split l r) g e = e
Holds-agree τ σ i zero (full l r) g e = e
Holds-agree τ σ i (suc h) (split l r) g (e, a, b) = (
  g i (Below-self i) ∙ e,
  Holds-agree τ σ (left i) h l (λ j w. g j (Below-left i j w)) a,
  Holds-agree τ σ (right i) h r (λ j w. g j (Below-right i j w)) b,
)
Holds-agree τ σ i (suc h) (full l r) g (e, a, b) = (
  g i (Below-self i) ∙ e,
  Holds-agree τ σ (left i) h l (λ j w. g j (Below-left i j w)) a,
  Holds-agree τ σ (right i) h r (λ j w. g j (Below-right i j w)) b,
)

pub split-Holds : (τ : ℕ → Node) (i h : ℕ) (l r : Tree) → Holds τ i h (split l r) → τ i ≡ node_split
split-Holds τ i zero l r e = absurd e
split-Holds τ i (suc h) l r (e, _, _) = e

pub full-Holds : (τ : ℕ → Node) (i h : ℕ) (l r : Tree) → Holds τ i h (full l r) → τ i ≡ node_full
full-Holds τ i zero l r e = absurd e
full-Holds τ i (suc h) l r (e, _, _) = e

first_half_some :
    (w : ℕ) (l r : Tree) (a b : Option (Tree × ℕ)) → a ≢ none → first_half w l r a b ≢ none
first_half_some w l r none b n e = n refl
first_half_some w l r (some (x, o)) b n e = cc

-- An unused block has any block of its size or less.
pub take_unused : (k t : ℕ) → take_block k t unused ≢ none
unfolding take_block
take_unused zero t e = cc
take_unused (suc k) t e =
    first_half_some (width k t) unused unused (take_block k t unused) (take_block k t unused)
      (take_unused k t) e
