-- ===== src/Mpi/Buddy/Free.antt =====
-- dart_buddy_free and its `_combine`, of dart-impl/mpi/src/dart_mem.c.
use coronas.Prelude.{
  ℕ, zero, suc, ◌+◌, ◌/◌, ◌^◌, Bool, true, false, Option, none, some, ltb, leb, ◌==◌, if◌then◌else◌,
  length,
}
use coronas.Mpi.Buddy.{
  node_unused, node_used, node_split, node_full, node_unused, node_split, Node, Buddy, left, right,
  parent, buddy_of, store,
}

abbrev pub is_unused_node : Node → Bool
is_unused_node node_unused = true
is_unused_node _ = false

abbrev pub is_full_node : Node → Bool
is_full_node node_full = true
is_full_node _ = false

-- The full ancestors of a node are split now. As in `_mark_parent` the index is enough fuel.
unfoldable pub open_loop : (fuel : ℕ) → (ℕ → Node) → ℕ → ℕ → Node
open_loop zero τ index = τ
open_loop (suc fuel) τ zero = τ
open_loop (suc fuel) τ (suc i) =
    let next = parent (suc i) in
    let rest = open_loop fuel (store τ next node_split) next in
    if is_full_node (τ next) then rest else τ

-- A node is unused, or its parent is when its buddy is unused too.
unfoldable pub combine_loop : (fuel : ℕ) → (ℕ → Node) → ℕ → ℕ → Node
combine_loop fuel τ zero = store τ 0 node_unused
combine_loop zero τ (suc i) = τ
combine_loop (suc fuel) τ (suc i) =
    let rest = combine_loop fuel τ (parent (suc i)) in
    if is_unused_node (τ (buddy_of (suc i)))
    then rest
    else open_loop (suc i) (store τ (suc i) node_unused) (suc i)

unfoldable pub combine : (ℕ → Node) → ℕ → ℕ → Node
combine τ index = combine_loop index τ index

-- At a node: a used block is released if it starts at the offset, an unused one is none, and other
-- nodes are looked below.
abbrev pub free_here :
    (ℕ → Node)
    → (index start offset : ℕ) → Option ((ℕ → Node) × Bool)
    → Node
    → Option ((ℕ → Node) × Bool)
free_here τ index start offset below node_used =
    if offset == start then some (combine τ index, true) else some (τ, false)
free_here τ index start offset below node_unused = some (τ, false)
free_here τ index start offset below node_split = below
free_here τ index start offset below node_full = below

abbrev pub freed : Buddy → Option ((ℕ → Node) × Bool) → Option (Buddy × Bool)
freed b none = none
freed b (some (τ, ok)) = some (record b { tree = τ }, ok)

-- The loop of dart_buddy_free, `height` levels above the leaves: whether a block was released, or
-- none where the search leaves the array.
unfoldable pub free_loop :
    (height : ℕ) → (ℕ → Node) → (index start length offset : ℕ) → Option ((ℕ → Node) × Bool)
free_loop zero τ index start length offset = free_here τ index start offset none (τ index)
free_loop (suc height) τ index start length offset =
    let half = length / 2 in
    let lower = free_loop height τ (left index) start half offset in
    let upper = free_loop height τ (right index) (start + half) half offset in
    free_here τ index start offset (if ltb offset (start + half) then lower else upper) (τ index)

-- dart_buddy_free
unfoldable pub dart_buddy_free : Buddy → ℕ → Option (Buddy × Bool)
dart_buddy_free b offset =
    if leb (2 ^ b.level) offset
    then some (b, false)
    else freed b (free_loop b.level b.tree 0 0 (2 ^ b.level) offset)
