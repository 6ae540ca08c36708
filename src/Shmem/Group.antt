-- ===== src/Shmem/Group.antt =====
-- Sets of units: dart-impl/shmem/src/dart_groups_impl.c and dart_groups_impl.h.
-- The functions that always return DART_OK are given by what they write. A unit id that indexes out
-- of an array is undefined behaviour in C, and `none` here.
mod Rebuild
mod Members
mod Marks
mod Split
mod Tests
use coronas.Prelude.{
  ℕ, zero, suc, ◌+◌, ◌-◌, ◌/◌, ◌%◌, ◌≡◌, Bool, true, false, ◌&&◌, ◌||◌, List, [], ◌∷◌, ◌++◌, Option,
  none, some, ltb, leb, ◌==◌, if◌then◌else◌, get_elem?, set, replicate, length, map,
}
use coronas.Prelude.Int.{ℤ, pos, negsuc}

abbrev pub maxsize_group : ℕ
maxsize_group = 256

-- `struct dart_group_struct`. The arrays have `maxsize_group` cells.
pub record Group : Type 0 where
  pub nmem : ℕ
  pub g2l : List ℤ
  pub l2g : List ℤ

-- `x >= 0`
abbrev pub is_valid : ℤ → Bool
is_valid (pos n) = true
is_valid (negsuc n) = false

pub dart_group_init : Group
dart_group_init = record {
  nmem = 0;
  g2l = replicate maxsize_group (negsuc 0);
  l2g = replicate maxsize_group (negsuc 0);
}

pub dart_group_fini : Group → Group
dart_group_fini g = record g { nmem = 0 }

-- The new value of `gout`.
pub dart_group_copy : Group → Group
dart_group_copy g = record { nmem = g.nmem; g2l = g.g2l; l2g = g.l2g }

-- What the loop of `group_rebuild` leaves: the cells of `g2l` from `i` on, `l2g` and `n`.
pub record Rebuilt : Type 0 where
  pub g2l : List ℤ
  pub l2g : List ℤ
  pub n : ℕ

abbrev pub keep : ℤ → Rebuilt → Rebuilt
keep x r = record r { g2l = x ∷ r.g2l }

pub rebuild_loop : (i n : ℕ) → List ℤ → List ℤ → Rebuilt
rebuild_loop i n [] l2g = record { g2l = []; l2g = l2g; n = n }
rebuild_loop i n (x ∷ xs) l2g = elim (is_valid x) [
  | true ↦ keep (pos n) (rebuild_loop (suc i) (suc n) xs (set l2g n (pos i)))
  | false ↦ keep x (rebuild_loop (suc i) n xs l2g)
]

pub group_rebuild : Group → Group
unfolding rebuild_loop
group_rebuild g =
    let r = rebuild_loop 0 0 g.g2l g.l2g in record { nmem = r.n; g2l = r.g2l; l2g = r.l2g }

-- The loops of union and intersection, which mark the members by 1.
pub mark : (Bool → Bool → Bool) → List ℤ → List ℤ → List ℤ
mark test (x ∷ xs) (y ∷ ys) =
    (if test (is_valid x) (is_valid y) then pos 1 else negsuc 0) ∷ mark test xs ys
mark test _ _ = []

-- `gout` is another group than `g1` and `g2`. Its old `l2g` stays behind the members.
pub dart_group_union : Group → Group → Group → Group
unfolding group_rebuild mark
dart_group_union g1 g2 gout = group_rebuild (record gout { g2l = mark ◌||◌ g1.g2l g2.g2l })

pub dart_group_intersect : Group → Group → Group → Group
unfolding group_rebuild mark
dart_group_intersect g1 g2 gout = group_rebuild (record gout { g2l = mark ◌&&◌ g1.g2l g2.g2l })

pub dart_group_addmember : Group → ℕ → Option Group
unfolding group_rebuild
dart_group_addmember g unitid =
    if ltb unitid maxsize_group
    then some (group_rebuild (record g { g2l = set g.g2l unitid (pos 1) }))
    else none

pub dart_group_delmember : Group → ℕ → Option Group
unfolding group_rebuild
dart_group_delmember g unitid =
    if ltb unitid maxsize_group
    then some (group_rebuild (record g { g2l = set g.g2l unitid (negsuc 0) }))
    else none

abbrev pub valid_cell : Option ℤ → Option Bool
valid_cell none = none
valid_cell (some x) = some (is_valid x)

pub dart_group_ismember : Group → ℕ → Option Bool
dart_group_ismember g unitid = valid_cell (get_elem? g.g2l unitid)

pub dart_group_size : Group → ℕ
dart_group_size g = g.nmem

pub members_from : ℕ → List ℤ → List ℕ
members_from i [] = []
members_from i (x ∷ xs) =
    if is_valid x then i ∷ members_from (suc i) xs else members_from (suc i) xs

-- The units written to `unitids`.
pub dart_group_getmembers : Group → List ℕ
unfolding members_from
dart_group_getmembers g = members_from 0 g.g2l

-- `x[v] = 1`
abbrev pub mark_cell : List ℤ → Option ℤ → Option (List ℤ)
mark_cell xs (some (pos v)) = if ltb v (length xs) then some (set xs v (pos 1)) else none
mark_cell xs _ = none

-- The inner loop of `dart_group_split`, with `rounds` = bsize - k: the marks and the next `j`.
pub mark_chunk : (g : Group) → ℕ → ℕ → List ℤ → Option (List ℤ × ℕ)
mark_chunk g zero j marks = some (marks, j)
mark_chunk g (suc rounds) j marks = elim (ltb j g.nmem) [
  | false ↦ some (marks, j)
  | true ↦ elim (mark_cell marks (get_elem? g.l2g j)) [
    | none ↦ none
    | some marks' ↦ mark_chunk g rounds (suc j) marks'
  ]
]

-- The outer loop, for the groups from `i` on, `left` of them.
pub split_loop : (g : Group) → (bdiv brem : ℕ) → (i left j : ℕ) → Option (List Group)
unfolding mark_chunk dart_group_init group_rebuild
split_loop g bdiv brem i zero j = some []
split_loop g bdiv brem i (suc left) j =
    elim (mark_chunk g (if ltb i brem then bdiv + 1 else bdiv) j dart_group_init.g2l) [
      | none ↦ none
      | some (marks, j') ↦ elim (split_loop g bdiv brem (suc i) left j') [
        | none ↦ none
        | some rest ↦ some (group_rebuild (record dart_group_init { g2l = marks }) ∷ rest)
      ]
    ]

-- `nsplits = 0` divides by zero.
pub dart_group_split : Group → ℕ → Option (List Group)
unfolding split_loop
dart_group_split g zero = none
dart_group_split g (suc n) = split_loop g (g.nmem / suc n) (g.nmem % suc n) 0 (suc n) 0
