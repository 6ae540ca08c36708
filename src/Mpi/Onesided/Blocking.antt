-- ===== src/Mpi/Onesided/Blocking.antt =====
-- The blocking operations and the flushes of dart_communication.c.
use coronas.Prelude.{ℕ, none, some, [], ◌∷◌, ltb, if◌then◌else◌, get_elem?}
use coronas.Prelude.Int.{pos, eqb_ℤ}
use coronas.Types.{dart_ok, dart_err_inval, Gptr}
use coronas.Mpi.Transtable.{Answer, value, undefined}
use coronas.Mpi.Onesided.{
  mpi_put, mpi_get, memcpy, int_max, add_u64, checked, mpi_win_flush_local, mpi_win_flush_local_all,
  mpi_win_flush_all, mpi_win_flush, returns, disp_and_win, attempt, shared_baseptr, Done, Mpi,
  shared_position, rank_of_positive, rank_of, Runtime,
}

-- Here the rank of a negative segment is not translated.
unfoldable pub dart_put_blocking : Mpi → Runtime → Gptr → (src nbytes : ℕ) → Done
unfolding rank_of_positive shared_position shared_baseptr disp_and_win checked add_u64
dart_put_blocking mpi rt gptr src nbytes =
    if ltb int_max nbytes
    then returns dart_err_inval [] tt
    else attempt (shared_position rt gptr) tt (λ position. elim position [
      | some i ↦
          attempt (shared_baseptr rt gptr i) tt
            (λ baseptr. returns dart_ok (memcpy (add_u64 baseptr gptr.offset) src nbytes ∷ []) tt)
      | none ↦ attempt (disp_and_win rt gptr (rank_of_positive mpi gptr)) tt (λ (disp_rel, win).
          checked mpi (mpi_put src nbytes (rank_of_positive mpi gptr) disp_rel win)
            (checked mpi (mpi_win_flush (rank_of_positive mpi gptr) win) (returns dart_ok [] tt)))
    ])

unfoldable pub dart_get_blocking : Mpi → Runtime → (dest : ℕ) → Gptr → (nbytes : ℕ) → Done
unfolding rank_of shared_position shared_baseptr disp_and_win checked add_u64
dart_get_blocking mpi rt dest gptr nbytes =
    if ltb int_max nbytes
    then returns dart_err_inval [] tt
    else attempt (shared_position rt gptr) tt (λ position. elim position [
      | some i ↦
          attempt (shared_baseptr rt gptr i) tt
            (λ baseptr. returns dart_ok (memcpy dest (add_u64 baseptr gptr.offset) nbytes ∷ []) tt)
      | none ↦ attempt (disp_and_win rt gptr (rank_of mpi gptr)) tt (λ (disp_rel, win).
          checked mpi (mpi_get dest nbytes (rank_of mpi gptr) disp_rel win)
            (checked mpi (mpi_win_flush (rank_of mpi gptr) win) (returns dart_ok [] tt)))
    ])

-- `dart_win_lists[index]` or `dart_win_local_alloc`
unfoldable pub win_of : Runtime → Gptr → Answer ℕ
win_of rt gptr =
    if eqb_ℤ gptr.segid (pos 0)
    then value rt.win_local_alloc
    else elim (get_elem? rt.win_lists gptr.flags) [ none ↦ undefined | some win ↦ value win ]

unfoldable pub dart_flush : Mpi → Runtime → Gptr → Done
unfolding rank_of win_of
dart_flush mpi rt gptr =
    attempt (win_of rt gptr) tt
      (λ win. returns dart_ok (mpi_win_flush (rank_of mpi gptr) win ∷ []) tt)

pub dart_flush_all : Runtime → Gptr → Done
unfolding win_of
dart_flush_all rt gptr =
    attempt (win_of rt gptr) tt (λ win. returns dart_ok (mpi_win_flush_all win ∷ []) tt)

pub dart_flush_local : Mpi → Runtime → Gptr → Done
unfolding rank_of win_of
dart_flush_local mpi rt gptr =
    attempt (win_of rt gptr) tt
      (λ win. returns dart_ok (mpi_win_flush_local (rank_of mpi gptr) win ∷ []) tt)

pub dart_flush_local_all : Runtime → Gptr → Done
unfolding win_of
dart_flush_local_all rt gptr =
    attempt (win_of rt gptr) tt (λ win. returns dart_ok (mpi_win_flush_local_all win ∷ []) tt)
