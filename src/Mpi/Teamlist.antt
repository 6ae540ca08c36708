-- ===== src/Mpi/Teamlist.antt =====
-- The table of teams: dart-impl/mpi/src/dart_team_private.c and dart_team_private.h.
-- The list `allocated` holds the first `dart_allocated_teamlist_size` cells of
-- `dart_allocated_teamlist_array`; the cells behind are never read.
mod Search
mod Alloc
mod Recycle
mod Convert
mod Tests
use coronas.Prelude.{
  ℕ, zero, suc, ◌+◌, ◌/◌, Bool, true, false, ◌&&◌, Option, none, some, List, [], ◌∷◌, ◌++◌, ltb,
  ◌==◌, if◌then◌else◌, length, get_elem?,
}
use coronas.Prelude.Int.{ℤ, pos, eqb_ℤ, ltb_ℤ}
use coronas.Types.{dart_team_all}

abbrev pub dart_max_team_number : ℕ
dart_max_team_number = 256

-- `struct dart_allocated_teamlist_entry`
pub record Entry : Type 0 where
  pub index : ℕ
  pub allocated_teamid : ℤ

-- `free` is the list that `dart_free_teamlist_header` heads.
pub record Teamlist : Type 0 where
  pub free : List ℕ
  pub allocated : List Entry

pub indices_from : ℕ → ℕ → List ℕ
indices_from i zero = []
indices_from i (suc left) = i ∷ indices_from (suc i) left

pub dart_adapt_teamlist_init : Teamlist
unfolding indices_from
dart_adapt_teamlist_init = record { free = indices_from 0 dart_max_team_number; allocated = [] }

-- `dart_free_teamlist_header` keeps pointing to the first released node.
pub dart_adapt_teamlist_destroy : Teamlist → Teamlist
dart_adapt_teamlist_destroy t = record t { allocated = [] }

-- The position and the index, or the code -1.
pub alloc_from : ℤ → List ℕ → List Entry → Option (ℕ × ℕ) × Teamlist
alloc_from teamid [] allocated = (none, record { free = []; allocated = allocated })
alloc_from teamid (index ∷ free) allocated = (
  some (length allocated, index),
  record {
    free = free;
    allocated = allocated ++ (record { index = index; allocated_teamid = teamid } ∷ []);
  },
)

pub dart_adapt_teamlist_alloc : ℤ → Teamlist → Option (ℕ × ℕ) × Teamlist
unfolding alloc_from
dart_adapt_teamlist_alloc teamid t = alloc_from teamid t.free t.allocated

-- `for (i = pos; i < size - 1; i++) a[i] = a[i + 1];`
pub shift_down : ℕ → List Entry → List Entry
shift_down _ [] = []
shift_down _ (x ∷ []) = x ∷ []
shift_down zero (x ∷ y ∷ xs) = y ∷ shift_down zero (y ∷ xs)
shift_down (suc p) (x ∷ y ∷ xs) = x ∷ shift_down p (y ∷ xs)

-- `size--`
pub drop_last : List Entry → List Entry
drop_last [] = []
drop_last (x ∷ []) = []
drop_last (x ∷ y ∷ xs) = x ∷ drop_last (y ∷ xs)

pub dart_adapt_teamlist_recycle : ℕ → ℕ → Teamlist → Teamlist
unfolding shift_down drop_last
dart_adapt_teamlist_recycle index position t = record {
  free = index ∷ t.free;
  allocated = drop_last (shift_down position t.allocated);
}

-- `a[i].allocated_teamid < teamid`, and false where there is no such cell.
pub id_below : List Entry → ℤ → ℕ → Bool
id_below a teamid i = elim (get_elem? a i) [
  | none ↦ false
  | some e ↦ ltb_ℤ e.allocated_teamid teamid
]

-- The binary search between `imin` and `imax`; `none` if the rounds do not suffice.
pub search_loop : (rounds : ℕ) → List Entry → ℤ → ℕ → ℕ → Option (ℕ × ℕ)
unfolding id_below
search_loop zero a teamid imin imax = none
search_loop (suc rounds) a teamid imin imax = elim (ltb imin imax) [
  | false ↦ some (imin, imax)
  | true ↦ elim (id_below a teamid ((imin + imax) / 2)) [
    | true ↦ search_loop rounds a teamid ((imin + imax) / 2 + 1) imax
    | false ↦ search_loop rounds a teamid imin ((imin + imax) / 2)
  ]
]

-- What `dart_adapt_teamlist_convert` returns: the position and the index, the code -1, or (in the
-- model only) that the rounds did not suffice.
pub data Converted : Type 0 where
  found : (position index : ℕ) → Converted
  not_found : Converted
  no_rounds : Converted

pub check_cell : List Entry → ℤ → Option (ℕ × ℕ) → Converted
check_cell a teamid none = no_rounds
check_cell a teamid (some (imin, imax)) = elim (get_elem? a imin) [
  | none ↦ not_found
  | some e ↦
      if (imax == imin) && eqb_ℤ e.allocated_teamid teamid then found imin e.index else not_found
]

-- With an empty array `imax` is -1, and the loop is skipped.
pub find_team : List Entry → ℤ → Converted
unfolding search_loop check_cell
find_team [] teamid = not_found
find_team (e ∷ a) teamid =
    check_cell (e ∷ a) teamid (search_loop (suc (length a)) (e ∷ a) teamid 0 (length a))

pub dart_adapt_teamlist_convert : ℤ → Teamlist → Converted
unfolding find_team
dart_adapt_teamlist_convert teamid t =
    if eqb_ℤ teamid dart_team_all then found 0 0 else find_team t.allocated teamid
