-- ===== src/Mpi/TeamGroup/Tests.antt =====
-- Runs of the groups, and their theorem at an input.
use coronas.Prelude.{
  ℕ, suc, ◌-◌, ◌<◌, ◌≡◌, refl, Bool, true, not, ◌&&◌, none, some, List, [], ◌∷◌, ◌++◌, arith, ltb,
  if◌then◌else◌, ==_iff, take, drop,
}
use coronas.Mpi.TeamGroup.{has, Groups, dart_group_union, dart_group_split, merge}
use coronas.Mpi.TeamGroup.Merge.{missing, IsDistinct, AllBelow}
use coronas.Mpi.TeamGroup.Laws.{IsDocumented, IsSorted, IsJoined, dart_group_union-IsJoined}

-- Distinct ranks below 8.
abbrev accepted : List ℕ → Bool
accepted [] = true
accepted (r ∷ ranks) = ltb r 8 && not (has r ranks) && accepted ranks

-- Groups as lists, in a world of eight units.
abbrev groups : Groups (List ℕ)
groups = record {
  world = 8;
  empty = [];
  members = λ g. g;
  group_union = λ g h. some (g ++ missing g h);
  incl = λ ranks. if accepted ranks then some ranks else none;
  difference = λ g h. missing h g;
  range_incl = λ g first last. take (suc last - first) (drop first g);
}

accepted_distinct : (ranks : List ℕ) → IsDistinct ranks → AllBelow 8 ranks → accepted ranks ≡ true
unfolding has
accepted_distinct [] h k = refl
accepted_distinct (r ∷ ranks) h k =
    let small : r < 8 = k r (ground (arith, (==_iff r r).1 refl)) in
    ground (arith, small, h.0, accepted_distinct ranks h.1 (λ a p. k a (ground (arith, p))))

groups-IsDocumented : IsDocumented groups
groups-IsDocumented = record {
  members_union = λ g h k e. ground (arith, e);
  members_incl = λ ranks h k. (ranks, rw (accepted_distinct ranks h k) refl, refl);
}

joined : groups.group_union (1 ∷ 4 ∷ []) (0 ∷ 4 ∷ 7 ∷ []) ≡ some (1 ∷ 4 ∷ 0 ∷ 7 ∷ [])
unfolding missing has
joined = refl

united : dart_group_union groups (1 ∷ 4 ∷ []) (0 ∷ 4 ∷ 7 ∷ []) ≡ some (0 ∷ 1 ∷ 4 ∷ 7 ∷ [])
unfolding dart_group_union missing merge has
united = refl

first-IsSorted : IsSorted groups (1 ∷ 4 ∷ [])
unfolding has
first-IsSorted = (omega arith, (refl, (refl, tt)), λ a e. ground (arith, e))

second-IsSorted : IsSorted groups (0 ∷ 4 ∷ 7 ∷ [])
unfolding has
second-IsSorted = (omega arith, (refl, (refl, (refl, tt))), λ a e. ground (arith, e))

dart_group_union-IsJoined_example :
    (g : List ℕ) × (dart_group_union groups (1 ∷ 4 ∷ []) (0 ∷ 4 ∷ 7 ∷ []) ≡ some g)
    × IsJoined groups (1 ∷ 4 ∷ []) (0 ∷ 4 ∷ 7 ∷ []) g
dart_group_union-IsJoined_example =
    dart_group_union-IsJoined groups (1 ∷ 4 ∷ []) (0 ∷ 4 ∷ 7 ∷ []) (1 ∷ 4 ∷ 0 ∷ 7 ∷ [])
      groups-IsDocumented first-IsSorted second-IsSorted joined

-- Seven units in three parts of three, and what is left.
parted :
    dart_group_split groups (0 ∷ 1 ∷ 2 ∷ 3 ∷ 4 ∷ 5 ∷ 6 ∷ []) 3
    ≡ some ((0 ∷ 1 ∷ 2 ∷ []) ∷ (3 ∷ 4 ∷ 5 ∷ []) ∷ (6 ∷ []) ∷ [])
unfolding dart_group_split
parted = refl
