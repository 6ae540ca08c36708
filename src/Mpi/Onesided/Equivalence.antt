-- ===== src/Mpi/Onesided/Equivalence.antt =====
-- How the transfers of dart_communication.c relate to one another.
use coronas.Prelude.{
  ℕ, ◌≤◌, ◌<◌, ◌≡◌, refl, inl, inr, true, false, none, [], ◌∷◌, ◌++◌, arith, ltb, Bool-cases,
  length, get_elem?_lt,
}
use coronas.Prelude.Int.{ℤ}
use coronas.Types.{dart_ok, Gptr}
use coronas.Mpi.Transtable.{Answer, value, invalid, undefined}
use coronas.Mpi.Onesided.{
  pos, ltb_ℤ, rank_of_positive, win_and_disp, Call, dart_put, mpi_get, mpi_put, rank_of, int_max,
  shared_position, out_of_bounds, mpi_get, attempt, dart_get, mpi_win_flush, returns, Runtime, Done,
  disp_and_win, checked, Mpi,
}
use coronas.Mpi.Onesided.Blocking.{dart_put_blocking, dart_flush, dart_get_blocking, win_of}

-- One operation, and after it, if it answered DART_OK, another.
unfoldable pub followed_by : Done → Done → Done
followed_by out_of_bounds next = out_of_bounds
followed_by (returns dart_ok calls _) out_of_bounds = out_of_bounds
followed_by (returns dart_ok calls _) (returns ret more _) = returns ret (calls ++ more) tt
followed_by (returns ret calls _) next = returns ret calls tt

win_of-disp_and_win :
    (rt : Runtime) (gptr : Gptr) (rank : ℤ) (disp win : ℕ)
    → disp_and_win rt gptr rank ≡ value (disp, win)
    → win_of rt gptr ≡ value win
unfolding disp_and_win win_of
win_of-disp_and_win rt gptr rank disp win h = ground arith

abbrev pub FlushesSucceed : Mpi → Type 0
FlushesSucceed mpi = (rank : ℤ) (win : ℕ) → mpi.succeeds (mpi_win_flush rank win) ≡ true

flushed_get :
    (mpi : Mpi) (rt : Runtime) (gptr : Gptr) (dest nbytes : ℕ) (rank : ℤ) (a : Answer (ℕ × ℕ))
    → FlushesSucceed mpi
    → ((disp win : ℕ) → a ≡ value (disp, win) → win_of rt gptr ≡ value win)
    → attempt a tt (λ (disp_rel, win).
      checked mpi
        (mpi_get dest nbytes rank disp_rel win)
        (checked mpi (mpi_win_flush rank win) (returns dart_ok [] tt)))
      ≡ followed_by
          (attempt a tt (λ (disp_rel, win).
            checked mpi (mpi_get dest nbytes rank disp_rel win) (returns dart_ok [] tt)))
          (attempt (win_of rt gptr) tt (λ win. returns dart_ok (mpi_win_flush rank win ∷ []) tt))
unfolding followed_by checked
flushed_get mpi rt gptr dest nbytes rank (value (disp, win)) s h =
    rw (h disp win refl) ground (arith, s rank win)
flushed_get mpi rt gptr dest nbytes rank invalid s h = refl
flushed_get mpi rt gptr dest nbytes rank undefined s h = refl

-- For a unit of another node and where a flush does not fail, dart_get_blocking makes the calls and
-- gives the answer of dart_get followed by dart_flush, errors included.
get_blocking-get-flush :
    (mpi : Mpi) (rt : Runtime) (dest : ℕ) (gptr : Gptr) (nbytes : ℕ)
    → shared_position rt gptr ≡ value none
    → FlushesSucceed mpi
    → dart_get_blocking mpi rt dest gptr nbytes
      ≡ followed_by (dart_get mpi rt dest gptr nbytes) (dart_flush mpi rt gptr)
unfolding dart_get_blocking dart_get dart_flush
get_blocking-get-flush mpi rt dest gptr nbytes far s = elim (Bool-cases (ltb int_max nbytes)) [
  | inl e ↦ rw e (unfold followed_by in refl)
  | inr e ↦ rw e (
      rw far (
        flushed_get mpi rt gptr dest nbytes (rank_of mpi gptr)
          (disp_and_win rt gptr (rank_of mpi gptr)) s
          (λ disp win h. win_of-disp_and_win rt gptr (rank_of mpi gptr) disp win h)))
]

pub rank_of_positive-rank_of :
    (mpi : Mpi) (gptr : Gptr)
    → ltb_ℤ gptr.segid (pos 0) ≡ false
    → rank_of_positive mpi gptr ≡ rank_of mpi gptr
unfolding rank_of_positive rank_of
rank_of_positive-rank_of mpi gptr h = ground (arith, h)

-- With a window at the index, the order of the two lookups does not matter.
pub win_and_disp-disp_and_win :
    (rt : Runtime) (gptr : Gptr) (rank : ℤ)
    → gptr.flags < length rt.win_lists
    → win_and_disp rt gptr rank ≡ disp_and_win rt gptr rank
unfolding win_and_disp disp_and_win
win_and_disp-disp_and_win rt gptr rank h =
    let (win, e) = get_elem?_lt rt.win_lists gptr.flags h in rw e (ground arith)

abbrev pub AllSucceed : Mpi → Type 0
AllSucceed mpi = (call : Call) → mpi.succeeds call ≡ true

flushed_put :
    (mpi : Mpi) (rt : Runtime) (gptr : Gptr) (src nbytes : ℕ) (rank : ℤ) (a : Answer (ℕ × ℕ))
    → AllSucceed mpi
    → ((disp win : ℕ) → a ≡ value (disp, win) → win_of rt gptr ≡ value win)
    → attempt a tt (λ (disp_rel, win).
      checked mpi
        (mpi_put src nbytes rank disp_rel win)
        (checked mpi (mpi_win_flush rank win) (returns dart_ok [] tt)))
      ≡ followed_by
          (attempt a tt
            (λ (disp_rel, win). returns dart_ok (mpi_put src nbytes rank disp_rel win ∷ []) tt))
          (attempt (win_of rt gptr) tt (λ win. returns dart_ok (mpi_win_flush rank win ∷ []) tt))
unfolding followed_by checked
flushed_put mpi rt gptr src nbytes rank (value (disp, win)) s h =
    rw (h disp win refl)
      (ground (arith, s (mpi_put src nbytes rank disp win), s (mpi_win_flush rank win)))
flushed_put mpi rt gptr src nbytes rank invalid s h = refl
flushed_put mpi rt gptr src nbytes rank undefined s h = refl

-- For a unit of another node, a segment id that is not negative, an index with a window, at most
-- INT_MAX bytes and where no MPI call fails, dart_put_blocking makes the calls and gives the answer
-- of dart_put followed by dart_flush.
pub put_blocking-put-flush :
    (mpi : Mpi) (rt : Runtime) (gptr : Gptr) (src nbytes : ℕ)
    → shared_position rt gptr ≡ value none
    → ltb_ℤ gptr.segid (pos 0) ≡ false
    → gptr.flags < length rt.win_lists
    → nbytes ≤ int_max
    → AllSucceed mpi
    → dart_put_blocking mpi rt gptr src nbytes
      ≡ followed_by (dart_put mpi rt gptr src nbytes) (dart_flush mpi rt gptr)
unfolding dart_put_blocking dart_put dart_flush
put_blocking-put-flush mpi rt gptr src nbytes far h w small s =
    let fits : ltb int_max nbytes ≡ false = ground (arith, small) in
    rw fits (
      rw far (
        rw (rank_of_positive-rank_of mpi gptr h) (
          rw (win_and_disp-disp_and_win rt gptr (rank_of mpi gptr) w) (
            flushed_put mpi rt gptr src nbytes (rank_of mpi gptr)
              (disp_and_win rt gptr (rank_of mpi gptr)) s
              (λ disp win e. win_of-disp_and_win rt gptr (rank_of mpi gptr) disp win e)))))
