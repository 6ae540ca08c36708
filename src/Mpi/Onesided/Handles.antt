-- ===== src/Mpi/Onesided/Handles.antt =====
-- The operations of dart_communication.c that return a handle (dart_communication_priv.h).
use coronas.Prelude.{ℕ, Option, none, some, [], ◌∷◌, ltb, if◌then◌else◌, get_elem?}
use coronas.Prelude.Int.{ℤ, pos, eqb_ℤ}
use coronas.Types.{dart_ok, dart_err_inval, Gptr}
use coronas.Mpi.Transtable.{Answer, value, undefined}
use coronas.Mpi.Onesided.{
  mpi_rget, memcpy, int_max, add_u64, mpi_rput, shared_baseptr, attempt, returns, win_and_disp,
  shared_position, Runtime, Outcome, rank_of_positive, Mpi, rank_of, Call,
}

-- `struct dart_handle_struct`; `none` is MPI_REQUEST_NULL.
pub record Handle : Type 0 where
  pub request : Option ℕ
  pub win : ℕ
  pub dest : ℤ

-- What `*handle` is at the return: as before, a block of unset fields, a released block, or a
-- handle.
pub data HandleCell : Type 0 where
  untouched uninitialised released : HandleCell
  initialised : Handle → HandleCell

-- `(*handle)->dest` and `(*handle)->win` of a copy within the node.
unfoldable pub copied_handle : Mpi → Runtime → Gptr → Answer Handle
unfolding rank_of_positive
copied_handle mpi rt gptr =
    if eqb_ℤ gptr.segid (pos 0)
    then value (record { request = none; win = rt.win_local_alloc; dest = gptr.unitid })
    else elim (get_elem? rt.win_lists gptr.flags) [
      | none ↦ undefined
      | some win ↦ value (record { request = none; win = win; dest = rank_of_positive mpi gptr })
    ]

-- The request that a call started, and the handle for it.
unfoldable pub started : Mpi → Call → (win : ℕ) → (dest : ℤ) → Outcome HandleCell
started mpi call win dest =
    returns dart_ok (call ∷ [])
      (initialised (record { request = mpi.request_of call; win = win; dest = dest }))

unfoldable pub dart_get_handle :
    Mpi → Runtime → (dest : ℕ) → Gptr → (nbytes : ℕ) → Outcome HandleCell
unfolding rank_of_positive shared_position shared_baseptr win_and_disp add_u64 copied_handle started
dart_get_handle mpi rt dest gptr nbytes =
    if ltb int_max nbytes
    then returns dart_err_inval [] untouched
    else attempt (shared_position rt gptr) uninitialised (λ position. elim position [
      | some i ↦ attempt (shared_baseptr rt gptr i) uninitialised (λ baseptr.
          attempt (copied_handle mpi rt gptr) uninitialised (λ handle.
            returns dart_ok (memcpy dest (add_u64 baseptr gptr.offset) nbytes ∷ [])
              (initialised handle)))
      | none ↦
          attempt (win_and_disp rt gptr (rank_of_positive mpi gptr)) released (λ (disp_rel, win).
            let call = mpi_rget dest nbytes (rank_of_positive mpi gptr) disp_rel win in
            if mpi.succeeds call
            then started mpi call win (rank_of_positive mpi gptr)
            else returns dart_err_inval (call ∷ []) released)
    ])

-- What MPI_Rput answers is not tested, and the block is not released if the segment is unknown.
unfoldable pub dart_put_handle : Mpi → Runtime → Gptr → (src nbytes : ℕ) → Outcome HandleCell
unfolding rank_of win_and_disp started
dart_put_handle mpi rt gptr src nbytes =
    attempt (win_and_disp rt gptr (rank_of mpi gptr)) uninitialised (λ (disp_rel, win).
      started mpi (mpi_rput src nbytes (rank_of mpi gptr) disp_rel win) win (rank_of mpi gptr))
