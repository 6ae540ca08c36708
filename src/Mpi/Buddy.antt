-- ===== src/Mpi/Buddy.antt =====
-- The buddy allocator of local memory: dart-impl/mpi/src/dart_mem.c. A pool of 2 ^ level units is a
-- binary tree of blocks in an array, the children of the node i at 2 * i + 1 and 2 * i + 2. The
-- array is a function of the index; `int` holds the sizes and indices, since a level is at most 30.
-- Assertions are compiled out, as they are with NDEBUG: what follows them is the answer.
mod Nodes
pub mod Tree
mod Mark
mod Join
mod Rounds
mod Halves
mod Refinement
mod Alloc
pub mod Free
pub mod Tidy
mod Ascent
mod Descent
mod Release
pub mod RoundTrip
pub mod Grants
mod Covered
mod Refusal
mod Tests
use Prim.Native.Nat.{bit_and, bit_or}
use coronas.Prelude.{
  ℕ, zero, suc, ◌+◌, ◌-◌, ◌*◌, ◌/◌, ◌%◌, ◌^◌, Bool, true, false, ◌||◌, Option, none, some, ltb, leb,
  ◌==◌, if◌then◌else◌, length,
}

pub data Node : Type 0 where
  node_unused node_used node_split node_full : Node

pub record Buddy : Type 0 where
  pub level : ℕ
  pub tree : ℕ → Node

-- Behind memset the nodes are unused.
unfoldable pub dart_buddy_new : ℕ → Buddy
dart_buddy_new level = record { level = level; tree = λ i. node_unused }

abbrev pub store : (ℕ → Node) → ℕ → Node → ℕ → Node
store tree i v j = if j == i then v else tree j

abbrev pub parent : ℕ → ℕ
parent index = (index + 1) / 2 - 1

abbrev pub left : ℕ → ℕ
left index = index * 2 + 1

abbrev pub right : ℕ → ℕ
right index = index * 2 + 2

-- index - 1 + (index & 1) * 2, for an index that is not 0
abbrev pub buddy_of : ℕ → ℕ
buddy_of index = index - 1 + index % 2 * 2

-- Used, or full of used blocks.
abbrev pub taken : Node → Bool
taken node_used = true
taken node_full = true
taken _ = false

-- The argument is 32 bits wide: the test is of the low bits.
unfoldable pub is_pow_of_2 : ℕ → Bool
is_pow_of_2 x = bit_and (x % 2 ^ 32) ((x % 2 ^ 32 + (2 ^ 32 - 1)) % 2 ^ 32) == 0

-- x |= x >> k
abbrev pub smear : ℕ → ℕ → ℕ
smear k x = bit_or x (x / 2 ^ k)

unfoldable pub next_pow_of_2 : ℕ → ℕ
next_pow_of_2 x =
    if is_pow_of_2 x
    then x
    else (smear 32 (smear 16 (smear 8 (smear 4 (smear 2 (smear 1 x))))) + 1) % 2 ^ 64

-- The size in units as an `int`; none for a size that is not positive there.
unfoldable pub int_size : ℕ → Option ℕ
int_size s =
    let size = next_pow_of_2 s % 2 ^ 32 in
    if s == 0 then some 1 else (if (size == 0) || leb (2 ^ 31) size then none else some size)

unfoldable pub index_offset : (index level max_level : ℕ) → ℕ
index_offset index level max_level = (index + 1 - 2 ^ level) * 2 ^ (max_level - level)

-- The parents of a block are full as long as its buddy is taken too. Each round goes to a smaller
-- index, so `fuel` is enough at the index.
unfoldable pub mark_loop : (fuel : ℕ) → (ℕ → Node) → ℕ → ℕ → Node
mark_loop zero tree index = tree
mark_loop (suc fuel) tree zero = tree
mark_loop (suc fuel) tree (suc i) =
    let next = parent (suc i) in
    let rest = mark_loop fuel (store tree next node_full) next in
    if taken (tree (buddy_of (suc i))) then rest else tree

unfoldable pub mark_parent : (ℕ → Node) → ℕ → ℕ → Node
mark_parent tree index = mark_loop index tree index

-- Where the loop of dart_buddy_alloc stands: at its head, or at the head of the inner one.
pub data Place : Type 0 where
  head rising : Place

pub record Search : Type 0 where
  pub tree : ℕ → Node
  pub place : Place
  pub index : ℕ
  pub level : ℕ
  pub length : ℕ

pub data Outcome : Type 0 where
  going : Search → Outcome
  ended : (tree : ℕ → Node) (offset : Option ℕ) → Outcome

-- From a left child to its buddy, from a right one up.
abbrev pub beside : (ℕ → Node) → (index level length : ℕ) → Search
beside tree index level length =
    if index % 2 == 1
    then record { tree = tree; place = head; index = index + 1; level = level; length = length }
    else record { tree = tree; place = rising; index = index; level = level; length = length }

-- Down to the left child.
abbrev pub down : (ℕ → Node) → (index level length : ℕ) → Search
down tree index level length = record {
  tree = tree;
  place = head;
  index = left index;
  level = level + 1;
  length = length / 2;
}

abbrev pub split_node : (ℕ → Node) → ℕ → ℕ → Node
split_node tree i =
    store (store (store tree i node_split) (left i) node_unused) (right i) node_unused

-- The block at a node of the wanted size is taken if it is unused.
unfoldable pub fit : (max_level : ℕ) → Search → Node → Outcome
fit m s node_unused =
    ended (mark_parent (store s.tree s.index node_used) s.index)
      (some (index_offset s.index s.level m))
fit m s _ = going (beside s.tree s.index s.level s.length)

-- At a larger block the search goes on below it.
unfoldable pub descend : Search → Node → Outcome
descend s node_used = going (beside s.tree s.index s.level s.length)
descend s node_full = going (beside s.tree s.index s.level s.length)
descend s node_unused = going (down (split_node s.tree s.index) s.index s.level s.length)
descend s node_split = going (down s.tree s.index s.level s.length)

-- From a right child to its parent, where there is one.
unfoldable pub rise : Search → ℕ → Outcome
rise s zero = ended s.tree none
rise s (suc i) = going (beside s.tree (parent (suc i)) (s.level - 1) (s.length * 2))

unfoldable pub round_at : (max_level size : ℕ) → Search → Place → Outcome
round_at m size s head =
    if size == s.length then fit m s (s.tree s.index) else descend s (s.tree s.index)
round_at m size s rising = rise s s.index

-- One round of the loop, or of the inner one.
unfoldable pub round : (max_level size : ℕ) → Search → Outcome
round m size s = round_at m size s s.place

abbrev pub follow :
    (Search → Option ((ℕ → Node) × Option ℕ)) → Outcome → Option ((ℕ → Node) × Option ℕ)
follow rest (going s) = rest s
follow rest (ended tree o) = some (tree, o)

-- The loop of dart_buddy_alloc: none where the fuel does not suffice.
unfoldable pub run : (fuel max_level size : ℕ) → Search → Option ((ℕ → Node) × Option ℕ)
run zero m size s = none
run (suc fuel) m size s = follow (run fuel m size) (round m size s)

pub data Answer : Type 0 where
  offset : ℕ → Answer
  failed : Answer  -- -1
  out_of_bounds : Answer  -- the search leaves the array, for a size that is no positive `int`
  no_fuel : Answer

abbrev pub answered : Buddy → Option ((ℕ → Node) × Option ℕ) → Buddy × Answer
answered b none = (b, no_fuel)
answered b (some (tree, none)) = (record b { tree = tree }, failed)
answered b (some (tree, some o)) = (record b { tree = tree }, offset o)

-- With a size that is no positive `int` no block fits: at a root that is taken the search ends, and
-- from any other it goes on to an unused block (a tidy tree has one) and below it, out of the array.
unfoldable pub allocate : Buddy → Option ℕ → Buddy × Answer
allocate b none = if taken (b.tree 0) then (b, failed) else (b, out_of_bounds)
allocate b (some size) =
    if ltb (2 ^ b.level) size
    then (b, failed)
    else answered b (
        run (3 * 2 ^ b.level) b.level size
          (record { tree = b.tree; place = head; index = 0; level = 0; length = 2 ^ b.level }))

unfoldable pub dart_buddy_alloc : Buddy → ℕ → Buddy × Answer
dart_buddy_alloc b s = allocate b (int_size s)
