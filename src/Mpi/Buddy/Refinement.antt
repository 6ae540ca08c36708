-- ===== src/Mpi/Buddy/Refinement.antt =====
-- The search of dart_buddy_alloc does on the array what `take_block` does on the tree.
use coronas.Prelude.{
  ℕ, zero, suc, ◌+◌, ◌-◌, ◌*◌, ◌^◌, ◌≡◌, sym, ap, subst, ◌∙◌, ◌≢◌, Option, some, arith,
}
use coronas.Mpi.Buddy.{
  ended, node_used, node_unused, descend, store, fit, down, going, split_node, index_offset,
  node_split, Node, Search, left, right, mark_parent,
}
use coronas.Mpi.Buddy.Nodes.{Below, Below-self, Below-left, Below-right}
use coronas.Mpi.Buddy.Tree.{
  unused, used, split, full, take_unused, full-Holds, split-Holds, take_block, Tree, width, height,
  Holds,
}
use coronas.Mpi.Buddy.Join.{store_same, store_other}
use coronas.Mpi.Buddy.Rounds.{round-descend, round-fit, one-Ends, at_head, one-Leads}
use native.Mathlib.Nat.{add-zero}
use coronas.Mpi.Buddy.Halves.{relax, Found, cost, halves, more, moved, outside}

at_pos : (i d pos : ℕ) → i + 1 ≡ 2 ^ d + pos → i + 1 - 2 ^ d ≡ pos
at_pos i d pos p = omega (arith, p)

left_over : (d t m : ℕ) → d + t ≡ m → m - d ≡ t
left_over d t m q = omega (arith, q)

succ_of : (d : ℕ) → d + 1 ≡ suc d
succ_of d = omega arith

twice_pow : (d : ℕ) → 2 ^ (d + 1) ≡ 2 * 2 ^ d
twice_pow d = ap (λ x. 2 ^ x) (succ_of d) ∙ omega arith

left_pos : (i d pos : ℕ) → i + 1 ≡ 2 ^ d + pos → left i + 1 ≡ 2 ^ (d + 1) + pos * 2
left_pos i d pos p = omega (arith, p, twice_pow d)

right_pos : (i d pos : ℕ) → i + 1 ≡ 2 ^ d + pos → right i + 1 ≡ 2 ^ (d + 1) + (pos * 2 + 1)
right_pos i d pos p = omega (arith, p, twice_pow d)

deeper : (d h m : ℕ) → d + suc h ≡ m → d + 1 + h ≡ m
deeper d h m q = omega (arith, q)

-- The offset of a block of the wanted size.
offset_lem :
    (m t i d pos : ℕ) → i + 1 ≡ 2 ^ d + pos → d + t ≡ m → index_offset i d m ≡ pos * 2 ^ t + 0
unfolding index_offset
offset_lem m t i d pos p q =
    ap (λ x. x * 2 ^ (m - d)) (at_pos i d pos p)
    ∙ ap (λ x. pos * 2 ^ x) (left_over d t m q)
    ∙ sym (add-zero (pos * 2 ^ t))

-- An unused block is split and the search goes on in its left half; so it does in a split one.
into_left :
    (m k t : ℕ) (τ : ℕ → Node) (i d : ℕ)
    → going (down τ i d (width (suc k) t)) ≡ going (at_head τ (left i) (d + 1) (width k t))
into_left m k t τ i d = ap (λ w. going (at_head τ (left i) (d + 1) w)) (omega arith)

outside_child : (i j c : ℕ) → ((x : ℕ) → Below c x → Below i x) → ¬ Below i j → j ≢ c
outside_child i j c b n e = n (b j (subst (λ x. Below c x) (sym e) (Below-self c)))

split_outside : (τ : ℕ → Node) (i j : ℕ) → ¬ Below i j → split_node τ i j ≡ τ j
split_outside τ i j n =
    store_other (store (store τ i node_split) (left i) node_unused) (right i) j node_unused
      (outside_child i j (right i) (Below-right i) n)
    ∙ store_other (store τ i node_split) (left i) j node_unused
        (outside_child i j (left i) (Below-left i) n)
    ∙ store_other τ i j node_split (outside i j n)

relaxed :
    (m t : ℕ) (s : Search) (τ : ℕ → Node) (i k d pos : ℕ) (o : Option (Tree × ℕ))
    → Found m t s τ i (suc k) d pos (1 + (cost k * 2 + 1)) o
    → Found m t s τ i (suc k) d pos (cost (suc k)) o
relaxed m t s τ i k d pos o =
    relax m t s τ i (suc k) d pos (1 + (cost k * 2 + 1)) (cost k * 2 + 2) o (omega arith)

pub search_lem :
    (m t : ℕ) (τ : ℕ → Node) (i k d pos : ℕ) (T : Tree)
    → Holds τ i (height k t) T
    → i + 1 ≡ 2 ^ d + pos
    → d + height k t ≡ m
    → Found m t (at_head τ i d (width k t)) τ i k d pos (cost k) (take_block k t T)
unfolding take_block fit descend
search_lem m t τ i zero d pos unused h p q = (
  1,
  store τ i node_used,
  omega arith,
  store_same τ i node_used,
  λ j n. store_other τ i j node_used (outside i j n),
  one-Ends m (2 ^ t) _ _ _ (
      round-fit m t τ i d
      ∙ ap (fit m (at_head τ i d (2 ^ t))) h
      ∙ ap (λ x. ended (mark_parent (store τ i node_used) i) (some x))
          (offset_lem m t i d pos p q)),
)
search_lem m t τ i zero d pos used h p q = (
  1,
  omega arith,
  one-Leads m (2 ^ t) _ _ (round-fit m t τ i d ∙ ap (fit m (at_head τ i d (2 ^ t))) h),
)
search_lem m t τ i zero d pos (split l r) h p q = (
  1,
  omega arith,
  one-Leads m (2 ^ t) _ _
      (round-fit m t τ i d ∙ ap (fit m (at_head τ i d (2 ^ t))) (split-Holds τ i t l r h)),
)
search_lem m t τ i zero d pos (full l r) h p q = (
  1,
  omega arith,
  one-Leads m (2 ^ t) _ _
      (round-fit m t τ i d ∙ ap (fit m (at_head τ i d (2 ^ t))) (full-Holds τ i t l r h)),
)
search_lem m t τ i (suc k) d pos unused h p q =
    let σ = split_node τ i in
    let l : σ (left i) ≡ node_unused =
      store_other (store (store τ i node_split) (left i) node_unused) (right i) (left i) node_unused
        (λ e. absurd (omega (arith, e)))
      ∙ store_same (store τ i node_split) (left i) node_unused in
    let r : σ (right i) ≡ node_unused =
      store_same (store (store τ i node_split) (left i) node_unused) (right i) node_unused in
    let s : σ i ≡ node_split =
      store_other (store (store τ i node_split) (left i) node_unused) (right i) i node_unused
        (λ e. absurd (omega (arith, e)))
      ∙ store_other (store τ i node_split) (left i) i node_unused (λ e. absurd (omega (arith, e)))
      ∙ store_same τ i node_split in
    let here = at_head τ i d (width (suc k) t) in
    let next = at_head σ (left i) (d + 1) (width k t) in
    let result = take_block (suc k) t unused in
    moved m t here τ σ i (suc k) d pos (cost (suc k)) result (take_unused (suc k) t)
      (split_outside τ i)
      (relaxed m t here σ i k d pos result (
        more m t 1 here next σ i (suc k) d pos (cost k * 2 + 1) result
          (one-Leads m (2 ^ t) here next
            (round-descend m k t τ i d ∙ ap (descend here) h ∙ into_left m k t σ i d))
          (halves m t σ i k d pos unused unused (take_block k t unused) (take_block k t unused) s l
            r
            (search_lem m t σ (left i) k (d + 1) (pos * 2) unused l (left_pos i d pos p)
              (deeper d (height k t) m q))
            (search_lem m t σ (right i) k (d + 1) (pos * 2 + 1) unused r (right_pos i d pos p)
              (deeper d (height k t) m q)))))
search_lem m t τ i (suc k) d pos used h p q = (
  1,
  omega arith,
  one-Leads m (2 ^ t) _ _
      (round-descend m k t τ i d ∙ ap (descend (at_head τ i d (width (suc k) t))) h),
)
search_lem m t τ i (suc k) d pos (split l r) (s, hl, hr) p q =
    let here = at_head τ i d (width (suc k) t) in
    let next = at_head τ (left i) (d + 1) (width k t) in
    let result = take_block (suc k) t (split l r) in
    relaxed m t here τ i k d pos result (
      more m t 1 here next τ i (suc k) d pos (cost k * 2 + 1) result
        (one-Leads m (2 ^ t) here next
          (round-descend m k t τ i d ∙ ap (descend here) s ∙ into_left m k t τ i d))
        (halves m t τ i k d pos l r (take_block k t l) (take_block k t r) s hl hr
          (search_lem m t τ (left i) k (d + 1) (pos * 2) l hl (left_pos i d pos p)
            (deeper d (height k t) m q))
          (search_lem m t τ (right i) k (d + 1) (pos * 2 + 1) r hr (right_pos i d pos p)
            (deeper d (height k t) m q))))
search_lem m t τ i (suc k) d pos (full l r) (s, hl, hr) p q = (
  1,
  omega arith,
  one-Leads m (2 ^ t) _ _
      (round-descend m k t τ i d ∙ ap (descend (at_head τ i d (width (suc k) t))) s),
)
