-- ===== src/Mpi/Buddy/Halves.antt =====
-- What the search finds at a node whose halves it looks through.
use coronas.Prelude.{
  ℕ, zero, suc, ◌+◌, ◌*◌, ◌^◌, ◌≤◌, ◌≡◌, refl, sym, ap, subst, ◌∙◌, ◌≢◌, Option, none, some, arith,
  if◌then◌else◌,
}
use coronas.Mpi.Buddy.{node_split, Node, Search, beside, left, right, mark_parent}
use coronas.Mpi.Buddy.Nodes.{
  Below, Below-self, Below-left, Below-right, not-Below-left, not-Below-right, apart,
}
use coronas.Mpi.Buddy.Tree.{Tree, is_taken, join, first_half, width, height, Holds, Holds-agree}
use coronas.Mpi.Buddy.Join.{joined}
use coronas.Mpi.Buddy.Rounds.{
  at_head, Leads, Ends, then-Leads, then-Ends, one-Leads, beside-left, rise_right,
}

-- Rounds that suffice for a subtree.
abbrev pub cost : ℕ → ℕ
cost zero = 1
cost (suc k) = cost k * 2 + 2

-- The search at the state `s` of a node `i`: it goes on beside the node and has changed nothing,
-- or it ends with the block, the new subtree and the marks above it.
abbrev pub Found :
    (m t : ℕ) (s : Search) (τ : ℕ → Node) (i k d pos most : ℕ) → Option (Tree × ℕ) → Type 0
Found m t s τ i k d pos most none =
    (c : ℕ) × (c ≤ most) × Leads m (2 ^ t) c s (beside τ i d (width k t))
Found m t s τ i k d pos most (some (T, o)) =
    (c : ℕ) × (σ : ℕ → Node) × (c ≤ most)
    × Holds σ i (height k t) T
    × ((j : ℕ) → ¬ Below i j → σ j ≡ τ j)
    × Ends m (2 ^ t) c s (if is_taken T then mark_parent σ i else σ) (some (pos * width k t + o))

pub Ends-eq :
    {m size c : ℕ} {s : Search} {τ σ : ℕ → Node} {o q : Option ℕ}
    → Ends m size c s τ o
    → τ ≡ σ
    → o ≡ q
    → Ends m size c s σ q
Ends-eq {m} {size} {c} {s} {τ} {σ} {o} {q} e a b =
    subst (λ x. Ends m size c s σ x) b (subst (λ x. Ends m size c s x o) a e)

pub outside : (i j : ℕ) → ¬ Below i j → j ≢ i
outside i j n e = n (subst (λ x. Below i x) (sym e) (Below-self i))

-- An allocation in one half, seen from the whole.
join-left :
    (m t : ℕ) (s : Search) (τ : ℕ → Node) (i k d pos most : ℕ) (l2 r : Tree) (o : ℕ)
    → τ i ≡ node_split
    → Holds τ (right i) (height k t) r
    → Found m t s τ (left i) k (d + 1) (pos * 2) most (some (l2, o))
    → Found m t s τ i (suc k) d pos most (some (join l2 r, o))
join-left m t s τ i k d pos most l2 r o sp hr (c, σ, b, h, out, p) =
    let other = Holds-agree τ σ (right i) (height k t) r (λ j w. out j (λ v. apart i j v w)) hr in
    let (ρ, hj, same, el, er) =
      joined σ i (height k t) l2 r (out i (not-Below-left i) ∙ sp) h other in
    (
      c,
      ρ,
      b,
      hj,
      λ j n. same j (outside i j n) ∙ out j (λ w. n (Below-left i j w)),
      Ends-eq p el (ap some (omega arith)),
    )

join-right :
    (m t : ℕ) (s : Search) (τ : ℕ → Node) (i k d pos most : ℕ) (l r2 : Tree) (o : ℕ)
    → τ i ≡ node_split
    → Holds τ (left i) (height k t) l
    → Found m t s τ (right i) k (d + 1) (pos * 2 + 1) most (some (r2, o))
    → Found m t s τ i (suc k) d pos most (some (join l r2, width k t + o))
join-right m t s τ i k d pos most l r2 o sp hl (c, σ, b, h, out, p) =
    let other = Holds-agree τ σ (left i) (height k t) l (λ j w. out j (λ v. apart i j w v)) hl in
    let (ρ, hj, same, el, er) =
      joined σ i (height k t) l r2 (out i (not-Below-right i) ∙ sp) other h in
    (
      c,
      ρ,
      b,
      hj,
      λ j n. same j (outside i j n) ∙ out j (λ w. n (Below-right i j w)),
      Ends-eq p er (ap some (omega arith)),
    )

-- Rounds before it.
pub more :
    (m t n : ℕ) (s u : Search) (τ : ℕ → Node) (i k d pos most : ℕ) (o : Option (Tree × ℕ))
    → Leads m (2 ^ t) n s u
    → Found m t u τ i k d pos most o
    → Found m t s τ i k d pos (n + most) o
more m t n s u τ i k d pos most none p (c, b, q) = (n + c, omega (arith, b), then-Leads p q)
more m t n s u τ i k d pos most (some (T, o)) p (c, σ, b, h, out, q) =
    (n + c, σ, omega (arith, b), h, out, then-Ends p q)

-- A larger bound, and an array that differs below the node, where a block is found.
pub relax :
    (m t : ℕ) (s : Search) (τ : ℕ → Node) (i k d pos most most2 : ℕ) (o : Option (Tree × ℕ))
    → most ≤ most2
    → Found m t s τ i k d pos most o
    → Found m t s τ i k d pos most2 o
relax m t s τ i k d pos most most2 none g (c, b, q) = (c, omega (arith, b, g), q)
relax m t s τ i k d pos most most2 (some (T, o)) g (c, σ, b, h, out, q) =
    (c, σ, omega (arith, b, g), h, out, q)

pub moved :
    (m t : ℕ) (s : Search) (τ σ : ℕ → Node) (i k d pos most : ℕ) (o : Option (Tree × ℕ))
    → o ≢ none
    → ((j : ℕ) → ¬ Below i j → σ j ≡ τ j)
    → Found m t s σ i k d pos most o
    → Found m t s τ i k d pos most o
moved m t s τ σ i k d pos most none n out f = absurd (n refl)
moved m t s τ σ i k d pos most (some (T, o)) n out (c, ρ, b, h, out2, q) =
    (c, ρ, b, h, λ j w. out2 j w ∙ out j w, q)

to_right :
    (m t : ℕ) (τ : ℕ → Node) (i k d c : ℕ)
    → Leads m
        (2 ^ t)
        c
        (at_head τ (left i) (d + 1) (width k t))
        (beside τ (left i) (d + 1) (width k t))
    → Leads m
        (2 ^ t)
        c
        (at_head τ (left i) (d + 1) (width k t))
        (at_head τ (right i) (d + 1) (width k t))
to_right m t τ i k d c =
    subst (λ z. Leads m (2 ^ t) c (at_head τ (left i) (d + 1) (width k t)) z)
      (beside-left τ i (d + 1) (width k t))

-- The left half first, then the right one.
pub halves :
    (m t : ℕ) (τ : ℕ → Node) (i k d pos : ℕ) (l r : Tree) (a b : Option (Tree × ℕ))
    → τ i ≡ node_split
    → Holds τ (left i) (height k t) l
    → Holds τ (right i) (height k t) r
    → Found m t (at_head τ (left i) (d + 1) (width k t)) τ (left i) k (d + 1) (pos * 2) (cost k) a
    → Found m t
        (at_head τ (right i) (d + 1) (width k t))
        τ
        (right i)
        k
        (d + 1)
        (pos * 2 + 1)
        (cost k)
        b
    → Found m t
        (at_head τ (left i) (d + 1) (width k t))
        τ
        i
        (suc k)
        d
        pos
        (cost k * 2 + 1)
        (first_half (width k t) l r a b)
halves m t τ i k d pos l r none none s hl hr (c, cb, p) (e, eb, q) = (
  c + (e + 1),
  omega (arith, cb, eb),
  then-Leads (to_right m t τ i k d c p)
      (then-Leads q (one-Leads m (2 ^ t) _ _ (rise_right m (2 ^ t) τ i d (width k t)))),
)
halves m t τ i k d pos l r none (some (r2, o)) s hl hr (c, cb, p) f =
    let here = at_head τ (left i) (d + 1) (width k t) in
    let next = at_head τ (right i) (d + 1) (width k t) in
    let result : Option (Tree × ℕ) = some (join l r2, width k t + o) in
    relax m t here τ i (suc k) d pos (c + cost k) (cost k * 2 + 1) result (omega (arith, cb)) (
      more m t c here next τ i (suc k) d pos (cost k) result (to_right m t τ i k d c p)
        (join-right m t next τ i k d pos (cost k) l r2 o s hl f))
halves m t τ i k d pos l r (some (l2, o)) b s hl hr f _ =
    let here = at_head τ (left i) (d + 1) (width k t) in
    relax m t here τ i (suc k) d pos (cost k) (cost k * 2 + 1) (some (join l2 r, o)) (omega arith)
      (join-left m t here τ i k d pos (cost k) l2 r o s hr f)
