-- ===== src/Mpi/TeamGroup/Laws.antt =====
-- The union of dart_team_group.c, with the groups of MPI as its standard describes them.
use coronas.Prelude.{
  ℕ, ◌+◌, ◌≤◌, ◌≡◌, refl, sym, ap, subst, ◌∙◌, inl, inr, false, ◌||◌, some, List, [], ◌∷◌, ◌++◌,
  arith, ltb, Bool-cases, length, length-append, take, drop,
}
use coronas.Mpi.TeamGroup.{
  in_order, dart_group_getmembers, dart_group_size, ordered, dart_group_ismember, dart_group_union,
  Groups, merge, has,
}
use coronas.Mpi.TeamGroup.Merge.{
  IsOrdered, missing, IsOrdered-merge, has-append, has-merge, IsOrdered-missing, has-missing,
  IsDistinct, AllBelow, Disjoint, IsDistinct-merge, IsDistinct-missing, has-missing_only,
}

-- A union lists the first group and then what the second has besides; of a list of distinct ranks
-- of the world MPI_Group_incl makes a group that has them in that order.
pub record IsDocumented {G : Type 0} (mpi : Groups G) : Type 0 where
  pub members_union :
      (g h k : G)
      → mpi.group_union g h ≡ some k
      → mpi.members k ≡ mpi.members g ++ missing (mpi.members g) (mpi.members h)
  pub members_incl :
      (ranks : List ℕ)
      → IsDistinct ranks
      → AllBelow mpi.world ranks
      → (g : G) × (mpi.incl ranks ≡ some g) × (mpi.members g ≡ ranks)

take_append : (xs ys : List ℕ) → take (length xs) (xs ++ ys) ≡ xs
take_append [] ys = ground arith
take_append (x ∷ xs) ys = ap (λ l. x ∷ l) (take_append xs ys)

drop_append : (xs ys : List ℕ) → drop (length xs) (xs ++ ys) ≡ ys
drop_append [] ys = ground arith
drop_append (x ∷ xs) ys = drop_append xs ys

short_IsOrdered : (l : List ℕ) → ltb 1 (length l) ≡ false → IsOrdered 0 l
short_IsOrdered [] h = tt
short_IsOrdered (x ∷ []) h = (omega arith, tt)
short_IsOrdered (x ∷ y ∷ l) h = absurd (ground (arith, h))

-- A group of MPI with its units in order.
abbrev pub IsSorted : {G : Type 0} → Groups G → G → Type 0
IsSorted mpi g =
    IsOrdered 0 (mpi.members g) × IsDistinct (mpi.members g) × AllBelow mpi.world (mpi.members g)

short_IsDistinct : (l : List ℕ) → ltb 1 (length l) ≡ false → IsDistinct l
unfolding has
short_IsDistinct [] h = tt
short_IsDistinct (x ∷ []) h = (refl, tt)
short_IsDistinct (x ∷ y ∷ l) h = absurd (ground (arith, h))

-- The result is a group in order and has the same members.
abbrev pub IsJoined : {G : Type 0} → Groups G → G → G → G → Type 0
IsJoined mpi g1 g2 g =
    IsSorted mpi g
    × ((a : ℕ)
        → dart_group_ismember mpi g a
          ≡ (dart_group_ismember mpi g1 a || dart_group_ismember mpi g2 a))

-- The same of lists of members, below `n`.
abbrev Joins : (n : ℕ) → (xs ys l : List ℕ) → Type 0
Joins n xs ys l =
    (IsOrdered 0 l × IsDistinct l × AllBelow n l) × ((a : ℕ) → has a l ≡ (has a xs || has a ys))

below_either :
    (n : ℕ) (xs ys l : List ℕ)
    → AllBelow n xs
    → AllBelow n ys
    → ((a : ℕ) → has a l ≡ (has a xs || has a ys))
    → AllBelow n l
below_either n xs ys l h k e a p = elim (Bool-cases (has a xs)) [
  | inl t ↦ h a t
  | inr f ↦ k a (ground (arith, e a, f, p))
]

Disjoint-missing : (xs ys : List ℕ) → Disjoint xs (missing xs ys)
Disjoint-missing xs ys a h = elim (Bool-cases (has a (missing xs ys))) [
  | inl t ↦ absurd (ground (arith, h, has-missing_only a xs ys t))
  | inr f ↦ f
]

module _ (n : ℕ) (xs ys : List ℕ) (h : IsOrdered 0 xs × IsDistinct xs × AllBelow n xs)
    (k : IsOrdered 0 ys × IsDistinct ys × AllBelow n ys) where
  merged : Joins n xs ys (merge (length (xs ++ missing xs ys)) xs (missing xs ys))
  merged =
      let r = length (xs ++ missing xs ys) in
      let l = merge r xs (missing xs ys) in
      let room : length xs + length (missing xs ys) ≤ r =
        omega (arith, length-append xs (missing xs ys)) in
      let same : (a : ℕ) → has a l ≡ (has a xs || has a ys) =
        λ a. has-merge r a xs (missing xs ys) room ∙ has-missing a xs ys in
      (
        (
          IsOrdered-merge r 0 xs (missing xs ys) h.0 (IsOrdered-missing 0 xs ys k.0),
          IsDistinct-merge r xs (missing xs ys) room h.1 (IsDistinct-missing xs ys k.1)
              (Disjoint-missing xs ys),
          below_either n xs ys l h.2 k.2 same,
        ),
        same,
      )

  -- A union with at most one member.
  short : ltb 1 (length (xs ++ missing xs ys)) ≡ false → Joins n xs ys (xs ++ missing xs ys)
  short e =
      let l = xs ++ missing xs ys in
      let same : (a : ℕ) → has a l ≡ (has a xs || has a ys) =
        λ a. has-append a xs (missing xs ys) ∙ has-missing a xs ys in
      ((short_IsOrdered l e, short_IsDistinct l e, below_either n xs ys l h.2 k.2 same), same)

-- What `ordered` makes of a group with the members that MPI gives.
ordered-Joins :
    {G : Type 0} (mpi : Groups G) (xs ys : List ℕ) (out : G)
    → IsDocumented mpi
    → IsOrdered 0 xs × IsDistinct xs × AllBelow mpi.world xs
    → IsOrdered 0 ys × IsDistinct ys × AllBelow mpi.world ys
    → mpi.members out ≡ xs ++ missing xs ys
    → (g : G) × (ordered mpi (length xs) (some out) ≡ some g)
      × Joins mpi.world xs ys (mpi.members g)
unfolding ordered in_order dart_group_size dart_group_getmembers
ordered-Joins mpi xs ys out d h k e = elim (Bool-cases (ltb 1 (length (mpi.members out)))) [
  | inl t ↦
      let l = merge (length (xs ++ missing xs ys)) xs (missing xs ys) in
      let sorted = merged mpi.world xs ys h k in
      let (g, made, ms) = d.members_incl l sorted.0.1 sorted.0.2 in
      (g, rw t (ap mpi.incl listed ∙ made), subst (Joins mpi.world xs ys) (sym ms) sorted)
  | inr t ↦ (
    out,
    rw t refl,
    subst (Joins mpi.world xs ys) (sym e)
        (short mpi.world xs ys h k (subst (λ l. ltb 1 (length l) ≡ false) e t)),
  )
]
  where
    listed :
        in_order mpi (length xs) (mpi.members out)
        ≡ merge (length (xs ++ missing xs ys)) xs (missing xs ys)
    listed =
        subst
          (λ l.
            merge (length l) (take (length xs) l) (drop (length xs) l)
            ≡ merge (length (xs ++ missing xs ys)) xs (missing xs ys))
          (sym e) (rw (take_append xs (missing xs ys)) (rw (drop_append xs (missing xs ys)) refl))

-- With MPI as documented, where MPI_Group_union succeeds for two groups, each of distinct units of
-- the world in order, dart_group_union succeeds: its group has distinct units of the world in order,
-- and a unit is in it exactly if it is in one of the two.
pub dart_group_union-IsJoined :
    {G : Type 0} (mpi : Groups G) (g1 g2 out : G)
    → IsDocumented mpi
    → IsSorted mpi g1
    → IsSorted mpi g2
    → mpi.group_union g1 g2 ≡ some out
    → (g : G) × (dart_group_union mpi g1 g2 ≡ some g) × IsJoined mpi g1 g2 g
unfolding dart_group_union dart_group_ismember dart_group_getmembers dart_group_size
dart_group_union-IsJoined mpi g1 g2 out d h k e =
    let (g, made, joins) =
      ordered-Joins mpi (mpi.members g1) (mpi.members g2) out d h k (d.members_union g1 g2 out e) in
    (g, ap (ordered mpi (length (mpi.members g1))) e ∙ made, joins)
