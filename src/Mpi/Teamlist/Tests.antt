-- ===== src/Mpi/Teamlist/Tests.antt =====
-- Runs of the team table, and its theorems at inputs.
use coronas.Prelude.{◌≡◌, refl, some, [], ◌∷◌, ◌++◌}
use coronas.Prelude.Int.{pos}
use coronas.Mpi.Teamlist.{
  Entry, Teamlist, dart_adapt_teamlist_init, dart_adapt_teamlist_alloc, dart_adapt_teamlist_convert,
}
use coronas.Mpi.Teamlist.Search.{Finds}
use coronas.Mpi.Teamlist.Alloc.{
  IsTeamlist, AllBelow, Allocates, dart_adapt_teamlist_init-IsTeamlist,
  dart_adapt_teamlist_alloc_lem,
}
use coronas.Mpi.Teamlist.Convert.{dart_adapt_teamlist_convert-Finds}

abbrev team_one : Teamlist
team_one = (dart_adapt_teamlist_alloc (pos 1) dart_adapt_teamlist_init).1

none_below : AllBelow (pos 1) dart_adapt_teamlist_init.allocated
unfolding dart_adapt_teamlist_init
none_below i e h = absurd (cc)

dart_adapt_teamlist_alloc_lem_example :
    Allocates
      (pos 1)
      dart_adapt_teamlist_init
      (dart_adapt_teamlist_alloc (pos 1) dart_adapt_teamlist_init)
dart_adapt_teamlist_alloc_lem_example =
    dart_adapt_teamlist_alloc_lem (pos 1) dart_adapt_teamlist_init
      dart_adapt_teamlist_init-IsTeamlist none_below

granted : (dart_adapt_teamlist_alloc (pos 1) dart_adapt_teamlist_init).0 ≡ some (0, 0)
unfolding dart_adapt_teamlist_alloc dart_adapt_teamlist_init
granted = refl

team_one-IsTeamlist : IsTeamlist team_one
unfolding dart_adapt_teamlist_alloc dart_adapt_teamlist_init
team_one-IsTeamlist = dart_adapt_teamlist_alloc_lem_example.0

dart_adapt_teamlist_convert-Finds_example :
    Finds team_one.allocated (pos 5) (dart_adapt_teamlist_convert (pos 5) team_one)
dart_adapt_teamlist_convert-Finds_example =
    dart_adapt_teamlist_convert-Finds (pos 5) team_one team_one-IsTeamlist (λ e. cc)

abbrev entry : Entry
entry = record { index = 0; allocated_teamid = pos 1 }

one_entry : team_one.allocated ≡ [] ++ (entry ∷ [])
unfolding dart_adapt_teamlist_alloc dart_adapt_teamlist_init
one_entry = refl
