-- ===== src/Mpi/Onesided/Answers.antt =====
-- When the operations of dart_communication.c that make a handle succeed.
use coronas.Prelude.{
  ℕ, ◌≡◌, refl, Bool, true, false, Option, none, some, List, [], ◌∷◌, arith, ltb, if◌then◌else◌,
}
use coronas.Types.{dart_ok, dart_err_inval, Gptr}
use coronas.Mpi.Transtable.{Answer, value, invalid, undefined}
use coronas.Mpi.Onesided.{
  ℤ, mpi_win_flush, mpi_rput, Call, rank_of, shared_baseptr, rank_of_positive, win_and_disp,
  shared_position, int_max, Runtime, attempt, Mpi, returns, Outcome, out_of_bounds, mpi_rget,
}
use coronas.Mpi.Onesided.Blocking.{win_of, dart_flush}
use coronas.Mpi.Onesided.Handles.{
  Handle, copied_handle, started, HandleCell, dart_get_handle, dart_put_handle, initialised,
  released, uninitialised,
}

-- DART_OK comes with a handle, and an error with none.
abbrev pub IsAnswer : Outcome HandleCell → Type 0
IsAnswer (returns dart_ok calls (initialised handle)) = Unit
IsAnswer (returns dart_ok calls cell) = ⊥
IsAnswer (returns ret calls (initialised handle)) = ⊥
IsAnswer (returns ret calls cell) = Unit
IsAnswer out_of_bounds = Unit

attempt-IsAnswer {ℓ} :
    {A : Type ℓ} (a : Answer A) (cell : HandleCell) (k : A → Outcome HandleCell)
    → IsAnswer (returns dart_err_inval [] cell)
    → ((x : A) → IsAnswer (k x))
    → IsAnswer (attempt a cell k)
attempt-IsAnswer (value x) cell k e h = h x
attempt-IsAnswer invalid cell k e h = e
attempt-IsAnswer undefined cell k e h = tt

position-IsAnswer :
    (a : Answer (Option ℕ)) (far : Outcome HandleCell) (near : ℕ → Outcome HandleCell)
    → IsAnswer far
    → ((i : ℕ) → IsAnswer (near i))
    → IsAnswer (attempt a uninitialised (λ o. elim o [ none ↦ far | some i ↦ near i ]))
position-IsAnswer (value none) far near f n = f
position-IsAnswer (value (some i)) far near f n = n i
position-IsAnswer invalid far near f n = tt
position-IsAnswer undefined far near f n = tt

if-IsAnswer :
    (test : Bool) (a b : Outcome HandleCell)
    → IsAnswer a
    → IsAnswer b
    → IsAnswer (if test then a else b)
if-IsAnswer true a b x y = x
if-IsAnswer false a b x y = y

-- Whatever MPI answers, where dart_get_handle and dart_put_handle return they answer DART_OK exactly
-- if they leave a handle with all its fields set.
handle-IsAnswer :
    (mpi : Mpi) (rt : Runtime) (gptr : Gptr) (buffer nbytes : ℕ)
    → IsAnswer (dart_get_handle mpi rt buffer gptr nbytes)
      × IsAnswer (dart_put_handle mpi rt gptr buffer nbytes)
unfolding dart_get_handle dart_put_handle started
handle-IsAnswer mpi rt gptr buffer nbytes = (
  if-IsAnswer (ltb int_max nbytes) _ _ tt (
      position-IsAnswer (shared_position rt gptr) _ _
        (attempt-IsAnswer (win_and_disp rt gptr (rank_of_positive mpi gptr)) released _ tt
          (λ (disp_rel, win).
            if-IsAnswer
              (mpi.succeeds (mpi_rget buffer nbytes (rank_of_positive mpi gptr) disp_rel win)) _ _
              tt tt))
        (λ i. attempt-IsAnswer (shared_baseptr rt gptr i) uninitialised _ tt (λ baseptr.
          attempt-IsAnswer (copied_handle mpi rt gptr) uninitialised _ tt (λ handle. tt)))),
  attempt-IsAnswer (win_and_disp rt gptr (rank_of mpi gptr)) uninitialised _ tt
      (λ (disp_rel, win). tt),
)

win_of-win_and_disp :
    (rt : Runtime) (gptr : Gptr) (rank : ℤ) (disp win : ℕ)
    → win_and_disp rt gptr rank ≡ value (disp, win)
    → win_of rt gptr ≡ value win
unfolding win_and_disp win_of
win_of-win_and_disp rt gptr rank disp win h = ground arith

-- Where dart_put_handle makes a handle, its window and its unit are those that dart_flush flushes
-- for the same pointer.
pub put_handle-flush :
    (mpi : Mpi) (rt : Runtime) (gptr : Gptr) (src nbytes : ℕ) (calls : List Call) (h : Handle)
    → dart_put_handle mpi rt gptr src nbytes ≡ returns dart_ok calls (initialised h)
    → dart_flush mpi rt gptr ≡ returns dart_ok (mpi_win_flush h.dest h.win ∷ []) tt
unfolding dart_put_handle dart_flush started
put_handle-flush mpi rt gptr src nbytes calls h made =
    answer (win_and_disp rt gptr (rank_of mpi gptr))
      (λ disp win e. win_of-win_and_disp rt gptr (rank_of mpi gptr) disp win e) made
  where
    answer :
        (a : Answer (ℕ × ℕ))
        → ((disp win : ℕ) → a ≡ value (disp, win) → win_of rt gptr ≡ value win)
        → attempt a uninitialised (λ (disp_rel, win).
          started mpi (mpi_rput src nbytes (rank_of mpi gptr) disp_rel win) win (rank_of mpi gptr))
          ≡ returns dart_ok calls (initialised h)
        → attempt
            (win_of rt gptr)
            tt
            (λ win. returns dart_ok (mpi_win_flush (rank_of mpi gptr) win ∷ []) (tt {0}))
          ≡ returns dart_ok (mpi_win_flush h.dest h.win ∷ []) (tt {0})
    answer (value (disp, win)) w m = rw (w disp win refl) ground (arith, m)
    answer invalid w m = absurd (cc)
    answer undefined w m = absurd (cc)
