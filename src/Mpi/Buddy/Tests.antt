-- ===== src/Mpi/Buddy/Tests.antt =====
-- Runs of the allocator on pools of eight units.
use coronas.Prelude.{ℕ, ◌+◌, ◌^◌, ◌≡◌, refl, true, none, some}
use coronas.Mpi.Buddy.{
  failed, mark_loop, mark_parent, index_offset, rise, descend, fit, round_at, round, run, allocate,
  Buddy, Node, node_unused, node_used, node_split, store, dart_buddy_alloc, offset, int_size,
  is_pow_of_2, next_pow_of_2,
}
use coronas.Mpi.Buddy.Tree.{Tree, unused, used, split, Holds, take_block}
use coronas.Mpi.Buddy.Tidy.{IsTidy}
use coronas.Mpi.Buddy.Free.{dart_buddy_free}
use coronas.Mpi.Buddy.Alloc.{Allocates, dart_buddy_alloc_lem}
use coronas.Mpi.Buddy.RoundTrip.{dart_buddy_free-alloc}
use coronas.Mpi.Buddy.Refusal.{IsRefused, alloc-IsRefused}
use coronas.Mpi.Buddy.Grants.{Grants, alloc-Grants}

-- The first four units are taken.
abbrev pool : Buddy
pool = record { level = 3; tree = store (store (λ i. node_unused) 1 node_used) 0 node_split }

abbrev taken_half : Tree
taken_half = split used unused

size_two : int_size 2 ≡ some (2 ^ 1)
unfolding int_size next_pow_of_2 is_pow_of_2
size_two = refl

-- A size of five units is rounded to eight; 2 ^ 32 units are no `int`, and 2 ^ 32 + 8 are taken for
-- eight.
sizes : (int_size 5 ≡ some 8) × (int_size (2 ^ 32) ≡ none) × (int_size (2 ^ 32 + 8) ≡ some 8)
unfolding int_size next_pow_of_2 is_pow_of_2
sizes = (refl, refl, refl)

abbrev pool_after : Buddy
pool_after = (dart_buddy_alloc pool 2).0

granted : dart_buddy_alloc pool 2 ≡ (pool_after, offset 4)
unfolding dart_buddy_alloc int_size next_pow_of_2 is_pow_of_2 allocate run round round_at fit
    descend rise index_offset mark_parent mark_loop
granted = refl

dart_buddy_alloc_lem_example : Allocates pool (take_block 2 1 taken_half) (dart_buddy_alloc pool 2)
dart_buddy_alloc_lem_example =
    dart_buddy_alloc_lem pool 2 2 1 taken_half refl size_two (refl, refl, refl)

half-IsTidy : IsTidy taken_half
half-IsTidy = (refl, refl, tt, tt)

dart_buddy_free-alloc_example :
    (τ : ℕ → Node) × (dart_buddy_free pool_after 4 ≡ some (record pool { tree = τ }, true))
    × Holds τ 0 3 taken_half
dart_buddy_free-alloc_example =
    dart_buddy_free-alloc pool 2 2 1 taken_half pool_after 4 refl size_two (refl, refl, refl)
      half-IsTidy granted

alloc-Grants_example :
    (T : Tree) × Holds pool_after.tree 0 pool_after.level T × Grants 3 (2 ^ 1) taken_half T 4
alloc-Grants_example =
    alloc-Grants pool 2 2 1 taken_half pool_after 4 refl size_two (refl, refl, refl) granted

-- One quarter of each half is taken.
abbrev scattered : Buddy
scattered = record {
  level = 3;
  tree =
      store
        (store (store (store (store (λ i. node_unused) 6 node_used) 3 node_used) 2 node_split) 1
          node_split)
        0 node_split;
}

abbrev quarters : Tree
quarters = split (split used unused) (split unused used)

size_four : int_size 3 ≡ some (2 ^ 2)
unfolding int_size next_pow_of_2 is_pow_of_2
size_four = refl

refusal : (dart_buddy_alloc scattered 3).1 ≡ failed
unfolding dart_buddy_alloc int_size next_pow_of_2 is_pow_of_2 allocate run round round_at fit
    descend rise
refusal = refl

alloc-IsRefused_example :
    (dart_buddy_alloc scattered 3 ≡ (scattered, failed)) × IsRefused 3 1 2 quarters
alloc-IsRefused_example =
    alloc-IsRefused scattered 3 1 2 quarters refl size_four
      (refl, (refl, refl, refl), (refl, refl, refl))
      (refl, refl, (refl, refl, tt, tt), (refl, refl, tt, tt)) refusal
