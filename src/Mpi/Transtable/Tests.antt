-- ===== src/Mpi/Transtable/Tests.antt =====
-- Runs of the translation table, and its theorems at inputs.
use coronas.Prelude.{◌≡◌, refl, none, [], ◌∷◌}
use coronas.Prelude.Int.{ℤ, pos, negsuc}
use coronas.Mpi.Transtable.{
  Info, Table, value, undefined, find_node, dart_adapt_transtable_remove,
  dart_adapt_transtable_get_disp,
}
use coronas.Mpi.Transtable.Laws.{IsDistinct, Removes, dart_adapt_transtable_remove_lem}

abbrev info : ℤ → Info
info seg_id = record {
  seg_id = seg_id;
  size = 64;
  disp = 4096 ∷ 8192 ∷ [];
  baseptr = none;
  selfbaseptr = 4096;
  win = 1;
}

abbrev table : Table
table = info (pos 1) ∷ info (negsuc 0) ∷ []

second_disp : dart_adapt_transtable_get_disp (negsuc 0) 1 table ≡ value 8192
unfolding dart_adapt_transtable_get_disp find_node
second_disp = refl

-- Without an entry to remove, an empty table is read through a NULL head.
remove_from_empty : dart_adapt_transtable_remove (pos 1) [] ≡ undefined
unfolding dart_adapt_transtable_remove
remove_from_empty = refl

table-IsDistinct : IsDistinct table
table-IsDistinct = ((λ e. cc, tt), (tt, tt))

dart_adapt_transtable_remove_lem_example :
    Removes (pos 1) table (dart_adapt_transtable_remove (pos 1) table)
dart_adapt_transtable_remove_lem_example =
    dart_adapt_transtable_remove_lem (pos 1) table table-IsDistinct
