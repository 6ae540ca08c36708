-- ===== src/Shmem/Group/Tests.antt =====
-- Runs of the group operations, and their theorems at inputs.
use coronas.Prelude.{
  ℕ, ◌/◌, ◌%◌, ◌<◌, ◌≡◌, refl, true, false, ◌||◌, some, List, [], ◌∷◌, arith, length, set,
}
use coronas.Prelude.Int.{ℤ, pos}
use coronas.Shmem.Group.{
  group_rebuild, Group, dart_group_init, dart_group_union, dart_group_addmember,
  dart_group_ismember, dart_group_getmembers, dart_group_size, dart_group_split,
}
use coronas.Shmem.Group.Rebuild.{group_rebuild-IsGroup, IsGroup}
use coronas.Shmem.Group.Members.{both, dart_group_union_lem}
use coronas.Shmem.Group.Split.{Parts, dart_group_split_lem}

abbrev of_marks : List ℤ → Group
of_marks marks = group_rebuild (record dart_group_init { g2l = marks })

abbrev seven : Group
seven = of_marks (set dart_group_init.g2l 7 (pos 1))

abbrev pair : Group
pair = of_marks (set (set dart_group_init.g2l 7 (pos 1)) 3 (pos 1))

seven-IsGroup : IsGroup seven
unfolding dart_group_init
seven-IsGroup =
    group_rebuild-IsGroup (record dart_group_init { g2l = set dart_group_init.g2l 7 (pos 1) }) refl
      refl

pair-IsGroup : IsGroup pair
unfolding dart_group_init
pair-IsGroup =
    group_rebuild-IsGroup
      (record dart_group_init { g2l = set (set dart_group_init.g2l 7 (pos 1)) 3 (pos 1) }) refl refl

add_run : dart_group_addmember seven 3 ≡ some pair
unfolding dart_group_addmember dart_group_init
add_run = refl

pair_members : dart_group_getmembers pair ≡ 3 ∷ 7 ∷ []
unfolding dart_group_getmembers group_rebuild dart_group_init
pair_members = refl

seven_in_pair : dart_group_ismember pair 7 ≡ some true
unfolding dart_group_ismember group_rebuild dart_group_init
seven_in_pair = refl

three_in_seven : dart_group_ismember seven 3 ≡ some false
unfolding dart_group_ismember group_rebuild dart_group_init
three_in_seven = refl

three_in_pair : dart_group_ismember pair 3 ≡ some true
unfolding dart_group_ismember group_rebuild dart_group_init
three_in_pair = refl

dart_group_union_lem_example :
    IsGroup (dart_group_union seven pair dart_group_init)
    × ((i : ℕ)
        → dart_group_ismember (dart_group_union seven pair dart_group_init) i
          ≡ both ◌||◌ (dart_group_ismember seven i) (dart_group_ismember pair i))
unfolding dart_group_init
dart_group_union_lem_example =
    dart_group_union_lem seven pair dart_group_init seven-IsGroup pair-IsGroup refl

pair_size : 1 < dart_group_size pair
unfolding dart_group_size group_rebuild dart_group_init
pair_size = omega arith

dart_group_split_lem_example :
    (gs : List Group) × (dart_group_split pair 3 ≡ some gs)
    × (length gs ≡ 3)
    × Parts (dart_group_size pair / 3) (dart_group_size pair % 3) 0 (dart_group_getmembers pair) gs
dart_group_split_lem_example = dart_group_split_lem pair 3 pair-IsGroup (omega arith)
