-- ===== src/Shmem/Group/Members.antt =====
-- Membership in the groups of dart_groups_impl.c, and the translation of unit ids.
use coronas.Prelude.{
  ℕ, zero, suc, ◌+◌, ◌<◌, ◌≡◌, refl, sym, ap, ◌∙◌, ◌↔◌, Bool, true, false, ◌&&◌, ◌||◌, Option, none,
  some, List, [], ◌∷◌, arith, ◌==◌, if◌then◌else◌, lt→ltb, length, get_elem?, set, length-set,
  get_elem?_lt,
}
use coronas.Prelude.Int.{ℤ, pos, negsuc}
use coronas.Shmem.Group.{
  Group, maxsize_group, is_valid, valid_cell, mark, group_rebuild, members_from, dart_group_init,
  dart_group_union, dart_group_intersect, dart_group_addmember, dart_group_delmember,
  dart_group_ismember, dart_group_size,
}
use coronas.Shmem.Group.Rebuild.{
  members_from-replicate, renumber-replicate, IsGroup, group_rebuild-IsGroup,
  ismember-group_rebuild, renumber_of_member, member_of_renumber,
}

pub length-mark :
    (test : Bool → Bool → Bool) (xs ys : List ℤ)
    → length xs ≡ length ys
    → length (mark test xs ys) ≡ length xs
unfolding mark
length-mark test [] ys h = refl
length-mark test (x ∷ xs) [] h = absurd (omega arith)
length-mark test (x ∷ xs) (y ∷ ys) h = ap suc (length-mark test xs ys (omega arith))

-- The test on two memberships that are both there.
abbrev pub both : (Bool → Bool → Bool) → Option Bool → Option Bool → Option Bool
both test (some a) (some b) = some (test a b)
both test _ _ = none

get_elem?-mark :
    (test : Bool → Bool → Bool) (xs ys : List ℤ) (i : ℕ)
    → length xs ≡ length ys
    → valid_cell (get_elem? (mark test xs ys) i)
      ≡ both test (valid_cell (get_elem? xs i)) (valid_cell (get_elem? ys i))
unfolding mark
get_elem?-mark test [] ys i h = refl
get_elem?-mark test (x ∷ xs) [] i h = absurd (omega arith)
get_elem?-mark test (x ∷ xs) (y ∷ ys) zero h = ground arith
get_elem?-mark test (x ∷ xs) (y ∷ ys) (suc i) h = get_elem?-mark test xs ys i (omega arith)

abbrev marked : (Bool → Bool → Bool) → Group → Group → Group → Group
marked test g1 g2 gout = record gout { g2l = mark test g1.g2l g2.g2l }

marked_lem :
    (test : Bool → Bool → Bool) (g1 g2 gout : Group)
    → IsGroup g1
    → IsGroup g2
    → length gout.l2g ≡ maxsize_group
    → IsGroup (group_rebuild (marked test g1 g2 gout))
      × ((i : ℕ)
          → dart_group_ismember (group_rebuild (marked test g1 g2 gout)) i
            ≡ both test (dart_group_ismember g1 i) (dart_group_ismember g2 i))
unfolding dart_group_ismember
marked_lem test g1 g2 gout h1 h2 h = (
  group_rebuild-IsGroup (marked test g1 g2 gout)
      (length-mark test g1.g2l g2.g2l same ∙ h1.cells_g2l) h,
  λ i. ismember-group_rebuild (marked test g1 g2 gout) i ∙ get_elem?-mark test g1.g2l g2.g2l i same,
)
  where
    same : length g1.g2l ≡ length g2.g2l
    same = h1.cells_g2l ∙ sym h2.cells_g2l

-- The union of two groups is a group, and a unit is in it exactly if it is in one of them.
pub dart_group_union_lem :
    (g1 g2 gout : Group)
    → IsGroup g1
    → IsGroup g2
    → length gout.l2g ≡ maxsize_group
    → IsGroup (dart_group_union g1 g2 gout)
      × ((i : ℕ)
          → dart_group_ismember (dart_group_union g1 g2 gout) i
            ≡ both ◌||◌ (dart_group_ismember g1 i) (dart_group_ismember g2 i))
unfolding dart_group_union
dart_group_union_lem g1 g2 gout h1 h2 h = marked_lem ◌||◌ g1 g2 gout h1 h2 h

-- The intersection of two groups is a group, and a unit is in it exactly if it is in both.
pub dart_group_intersect_lem :
    (g1 g2 gout : Group)
    → IsGroup g1
    → IsGroup g2
    → length gout.l2g ≡ maxsize_group
    → IsGroup (dart_group_intersect g1 g2 gout)
      × ((i : ℕ)
          → dart_group_ismember (dart_group_intersect g1 g2 gout) i
            ≡ both ◌&&◌ (dart_group_ismember g1 i) (dart_group_ismember g2 i))
unfolding dart_group_intersect
dart_group_intersect_lem g1 g2 gout h1 h2 h = marked_lem ◌&&◌ g1 g2 gout h1 h2 h

ismember-set :
    (xs : List ℤ) (u j : ℕ) (v : ℤ)
    → u < length xs
    → valid_cell (get_elem? (set xs u v) j)
      ≡ (if u == j then some (is_valid v) else valid_cell (get_elem? xs j))
ismember-set [] u j v h = absurd (omega arith)
ismember-set (x ∷ xs) zero zero v h = refl
ismember-set (x ∷ xs) zero (suc j) v h = ground arith
ismember-set (x ∷ xs) (suc u) zero v h = ground arith
ismember-set (x ∷ xs) (suc u) (suc j) v h = ground (arith, ismember-set xs u j v)

-- What adding or deleting `unitid` says of the membership of every unit.
abbrev pub Updates : Group → ℕ → Bool → Group → Type 0
Updates g unitid is_in g' =
    IsGroup g'
    × ((j : ℕ)
        → dart_group_ismember g' j ≡ (if unitid == j then some is_in else dart_group_ismember g j))

rebuild_Updates :
    (g : Group) (unitid : ℕ) (v : ℤ)
    → IsGroup g
    → unitid < maxsize_group
    → Updates g unitid (is_valid v) (group_rebuild (record g { g2l = set g.g2l unitid v }))
unfolding dart_group_ismember
rebuild_Updates g unitid v h lt = (
  group_rebuild-IsGroup _ (length-set g.g2l unitid v ∙ h.cells_g2l) h.cells_l2g,
  λ j. ismember-group_rebuild _ j ∙ ismember-set g.g2l unitid j v (omega (arith, h.cells_g2l)),
)

-- Adding a unit id below 256 succeeds, makes that unit a member and leaves the others as they are.
pub dart_group_addmember_lem :
    (g : Group) (unitid : ℕ)
    → IsGroup g
    → unitid < maxsize_group
    → (g' : Group) × (dart_group_addmember g unitid ≡ some g') × Updates g unitid true g'
unfolding dart_group_addmember
dart_group_addmember_lem g unitid h lt =
    (_, rw (lt→ltb unitid maxsize_group lt), rebuild_Updates g unitid (pos 1) h lt)

-- Deleting a unit id below 256 succeeds, and leaves the others as they are.
pub dart_group_delmember_lem :
    (g : Group) (unitid : ℕ)
    → IsGroup g
    → unitid < maxsize_group
    → (g' : Group) × (dart_group_delmember g unitid ≡ some g') × Updates g unitid false g'
unfolding dart_group_delmember
dart_group_delmember_lem g unitid h lt =
    (_, rw (lt→ltb unitid maxsize_group lt), rebuild_Updates g unitid (negsuc 0) h lt)

-- The empty group.
pub dart_group_init-IsGroup : IsGroup dart_group_init
unfolding dart_group_init
dart_group_init-IsGroup = record {
  cells_g2l = refl;
  cells_l2g = refl;
  counted = ap length (sym (members_from-replicate 0 256));
  numbered = renumber-replicate 0 256;
  listed = λ k m e.
      absurd (nothing k m (ap (λ l. get_elem? l k) (sym (members_from-replicate 0 256)) ∙ e));
}
  where
    nothing : (k m : ℕ) → ¬ (get_elem? [] k ≡ some m)
    nothing k m e = cc

-- `l2g` and `g2l` invert one another: the unit with local id `k` is the one whose `g2l` is `k`.
g2l-l2g :
    (g : Group) (k m : ℕ)
    → IsGroup g
    → k < dart_group_size g
    → (get_elem? g.l2g k ≡ some (pos m)) ↔ (get_elem? g.g2l m ≡ some (pos k))
unfolding dart_group_size
g2l-l2g g k m h lt = (λ e. to_local e, λ e. to_global e)
  where
    to_local : get_elem? g.l2g k ≡ some (pos m) → get_elem? g.g2l m ≡ some (pos k)
    to_local e =
        let (m', at) = get_elem?_lt (members_from 0 g.g2l) k (omega (arith, h.counted)) in
        let (d, same, cell) = renumber_of_member 0 0 k m' g.g2l at in
        ground (arith, h.listed k m' at, ap (λ l. get_elem? l d) h.numbered)

    to_global : get_elem? g.g2l m ≡ some (pos k) → get_elem? g.l2g k ≡ some (pos m)
    to_global e =
        let (k', same, member) =
          member_of_renumber 0 0 m k g.g2l (ap (λ l. get_elem? l m) h.numbered ∙ e) in
        ground (arith, h.listed k' (0 + m) member)
