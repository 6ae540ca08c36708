-- ===== src/Mpi/TeamGroup.antt =====
-- Groups of units: dart-impl/mpi/src/dart_team_group.c up to `dart_group_ismember`, over the groups
-- of MPI.
mod Merge
mod Laws
mod Tests
use coronas.Prelude.{
  ℕ, zero, suc, ◌+◌, ◌-◌, ◌*◌, ◌/◌, Bool, true, false, Option, none, some, List, [], ◌∷◌, ltb, leb,
  ◌==◌, if◌then◌else◌, length, take, drop, ◌>>=◌,
}

-- What MPI gives: groups of units in an order; `members` are their ranks in MPI_COMM_WORLD, which
-- has `world` units. `incl` is MPI_Group_incl of the group of all units, none where it is erroneous,
-- as with a rank that occurs twice or that is no unit's: MPI ends the program then, or, if it is
-- told to return, leaves no group, which the source does not test.
pub record Groups (G : Type 0) : Type 0 where
  pub world : ℕ
  pub empty : G
  pub members : G → List ℕ
  pub group_union : G → G → Option G
  pub incl : List ℕ → Option G
  pub difference : G → G → G
  pub range_incl : G → (first last : ℕ) → G

-- The three loops of `dart_group_union`, which write one id in each round: the ids from `i` on and
-- those from `j` on.
pub merge : (rounds : ℕ) → List ℕ → List ℕ → List ℕ
merge zero _ _ = []
merge (suc rounds) [] [] = []
merge (suc rounds) [] (y ∷ ys) = y ∷ merge rounds [] ys
merge (suc rounds) (x ∷ xs) [] = x ∷ merge rounds xs []
merge (suc rounds) (x ∷ xs) (y ∷ ys) = elim (leb x y) [
  | true ↦ x ∷ merge rounds xs (y ∷ ys)
  | false ↦ y ∷ merge rounds (x ∷ xs) ys
]

-- The loop of `dart_group_ismember`.
pub has : ℕ → List ℕ → Bool
has unitid [] = false
has unitid (r ∷ ranks) = if r == unitid then true else has unitid ranks

module _ {G : Type 0} (mpi : Groups G) where
  pub dart_group_size : G → ℕ
  dart_group_size g = length (mpi.members g)

  pub dart_group_getmembers : G → List ℕ
  dart_group_getmembers g = mpi.members g

  -- The ids of `gout` in order; `size_in` is the size of the first group.
  pub in_order : (size_in : ℕ) → (pre_unitidsout : List ℕ) → List ℕ
  unfolding merge
  in_order size_in pre = merge (length pre) (take size_in pre) (drop size_in pre)

  -- The group, or none where MPI_Group_union or MPI_Group_incl fails.
  pub ordered : (size_in : ℕ) → Option G → Option G
  unfolding in_order dart_group_size dart_group_getmembers
  ordered size_in none = none
  ordered size_in (some gout) =
      if ltb 1 (dart_group_size gout)
      then mpi.incl (in_order size_in (dart_group_getmembers gout))
      else some gout

  pub dart_group_union : G → G → Option G
  unfolding ordered dart_group_size
  dart_group_union g1 g2 = ordered (dart_group_size g1) (mpi.group_union g1 g2)

  pub dart_group_addmember : G → ℕ → Option G
  unfolding dart_group_union
  dart_group_addmember g unitid = do group ← mpi.incl (unitid ∷ []); dart_group_union g group

  pub dart_group_delmember : G → ℕ → Option G
  dart_group_delmember g unitid = do
    newgroup ← mpi.incl (unitid ∷ [])
    some (mpi.difference g newgroup)

  -- The loop of `dart_group_split` from `i` on, `left` of the groups.
  pub split_from : G → (size len i left : ℕ) → List G
  split_from g size len i zero = []
  split_from g size len i (suc left) =
      (if ltb (i * len) size
        then mpi.range_incl g (i * len)
            (if leb (i * len + len) size then i * len + len - 1 else size - 1)
        else mpi.empty)
      ∷ split_from g size len (suc i) left

  -- `n = 0` divides by zero.
  pub dart_group_split : G → ℕ → Option (List G)
  unfolding split_from dart_group_size
  dart_group_split g zero = none
  dart_group_split g (suc n) =
      some (split_from g (dart_group_size g) ((dart_group_size g + suc n - 1) / suc n) 0 (suc n))

  pub dart_group_ismember : G → ℕ → Bool
  unfolding has dart_group_getmembers
  dart_group_ismember g unitid = has unitid (dart_group_getmembers g)
