-- ===== src/Mpi/Globmem/Segments.antt =====
-- The other collective operations of dart_globmem.c: registering memory, and releasing either kind.
use coronas.Prelude.{ℕ, not, Option, none, some, [], ◌∷◌, if◌then◌else◌}
use coronas.Prelude.Int.{ℤ}
use coronas.Types.{DartRet, dart_ok, dart_err_inval, dart_err_other, Gptr}
use coronas.Mpi.Transtable.{
  Table, Answer, value, invalid, undefined, dart_adapt_transtable_add, dart_adapt_transtable_remove,
  dart_adapt_transtable_get_selfbaseptr, dart_adapt_transtable_get_win,
}
use coronas.Mpi.Teamlist.{
  Converted, not_found, no_rounds, Teamlist, found, dart_adapt_teamlist_convert,
}
use coronas.Mpi.Globmem.{pred_int16, unit_of_team, Memory, Windows, Allocated, failed}

-- With no window of its own; `MPI_WIN_NULL` is 0.
unfoldable pub register_at : Windows → Memory → (index nbytes addr disp : ℕ) → Allocated
unfolding unit_of_team pred_int16
register_at w m index nbytes addr disp = record {
  ret = dart_ok;
  gptr = some (record {
    unitid = unit_of_team w index;
    segid = m.registermemid;
    flags = index;
    offset = 0;
  });
  memory = record m {
    registermemid = pred_int16 m.registermemid;
    transtable = dart_adapt_transtable_add m.transtable (record {
      seg_id = m.registermemid;
      size = nbytes;
      disp = w.allgather index disp;
      baseptr = none;
      selfbaseptr = addr;
      win = 0;
    });
  };
  windows = [];
  attachments = if w.win_attach index addr nbytes then addr ∷ [] else [];
}

-- What MPI_Win_attach and MPI_Get_address answer is not tested; without an address `disp` is not
-- set.
unfoldable pub register_team :
    Windows → Memory → (nbytes addr : ℕ) → Option ℕ → Converted → Answer Allocated
unfolding register_at
register_team w m nbytes addr none (found position index) = undefined
register_team w m nbytes addr (some disp) (found position index) =
    value (register_at w m index nbytes addr disp)
register_team w m nbytes addr o not_found = value (failed dart_err_inval m)
register_team w m nbytes addr o no_rounds = value (failed dart_err_inval m)

unfoldable pub dart_team_memregister_aligned :
    Windows → Teamlist → Memory → (teamid : ℤ) → (nbytes addr : ℕ) → Answer Allocated
unfolding register_team
dart_team_memregister_aligned w t m teamid nbytes addr =
    register_team w m nbytes addr (w.get_address addr) (dart_adapt_teamlist_convert teamid t)

-- The end of both releases.
unfoldable pub removed : Memory → Answer Table → Answer (DartRet × Memory)
removed m (value table) = value (dart_ok, record m { transtable = table })
removed m invalid = value (dart_err_inval, m)
removed m undefined = undefined

unfoldable pub dart_team_memfree : Windows → Memory → Gptr → Answer (DartRet × Memory)
unfolding removed
dart_team_memfree w m gptr = elim (dart_adapt_transtable_get_selfbaseptr gptr.segid m.transtable) [
  | undefined ↦ undefined
  | invalid ↦ value (dart_err_inval, m)
  | value sub_mem ↦ elim (dart_adapt_transtable_get_win gptr.segid m.transtable) [
    | undefined ↦ undefined
    | invalid ↦ value (dart_err_other, m)
    | value win ↦
        if not (w.win_free win)
        then value (dart_err_other, m)
        else removed m (dart_adapt_transtable_remove gptr.segid m.transtable)
  ]
]

unfoldable pub dart_team_memderegister : Memory → Gptr → Answer (DartRet × Memory)
unfolding removed
dart_team_memderegister m gptr =
    elim (dart_adapt_transtable_get_selfbaseptr gptr.segid m.transtable) [
      | undefined ↦ undefined
      | invalid ↦ value (dart_err_inval, m)
      | value sub_mem ↦ removed m (dart_adapt_transtable_remove gptr.segid m.transtable)
    ]
