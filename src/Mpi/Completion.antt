-- ===== src/Mpi/Completion.antt =====
-- Waiting and testing for the end of one-sided operations: the part of
-- dart-impl/mpi/src/dart_communication.c from `dart_wait_local` to `dart_testall_local`.
-- An array of handles is a list, where no handle stands for NULL; no two entries are one handle.
mod Laws
mod Tests
use coronas.Prelude.{
  ℕ, suc, Bool, true, not, Option, none, some, List, [], ◌∷◌, ◌++◌, ltb, if◌then◌else◌, length,
}
use coronas.Prelude.Int.{ℤ}
use coronas.Types.{DartRet, dart_ok, dart_err_inval}
use coronas.Mpi.Onesided.{int_max}
use coronas.Mpi.Onesided.Handles.{Handle}

-- What MPI answers: whether a call returns MPI_SUCCESS, and what it makes of the requests. For an
-- array the request and the error of the status are given by their position; `none` is
-- MPI_REQUEST_NULL.
pub record Requests : Type 0 where
  pub wait_succeeds : Option ℕ → Bool
  pub waited : Option ℕ → Option ℕ
  pub waitall_succeeds : List (Option ℕ) → Bool
  pub waitall_request : List (Option ℕ) → ℕ → Option ℕ
  pub waitall_status : List (Option ℕ) → ℕ → Bool
  pub flush_succeeds : ℤ → ℕ → Bool
  pub free_succeeds : Option ℕ → Bool
  pub freed : Option ℕ → Option ℕ
  pub test_flag : Option ℕ → Bool
  pub tested : Option ℕ → Option ℕ
  pub testall_flag : List (Option ℕ) → Bool
  pub testall_request : List (Option ℕ) → ℕ → Option ℕ

-- The calls of MPI, and of free for a handle.
pub data Step : Type 0 where
  mpi_wait mpi_request_free : Option ℕ → Step
  mpi_waitall : List (Option ℕ) → Step
  flush : (dest : ℤ) → (win : ℕ) → Step
  free : Handle → Step

-- The answer, the handles at the return (NULL where they are released) and the calls.
pub record Waited : Type 0 where
  pub ret : DartRet
  pub handles : List (Option Handle)
  pub steps : List Step

abbrev pub with_request : Option ℕ → Handle → Handle
with_request request h = record h { request = request }

pub wait_local : Requests → Handle → Option ℕ → Waited
wait_local mpi h none = record { ret = dart_ok; handles = some h ∷ []; steps = [] }
wait_local mpi h (some r) = record {
  ret = if mpi.wait_succeeds (some r) then dart_ok else dart_err_inval;
  handles = some (with_request (mpi.waited (some r)) h) ∷ [];
  steps = mpi_wait (some r) ∷ [];
}

pub dart_wait_local : Requests → Option Handle → Waited
unfolding wait_local
dart_wait_local mpi none = record { ret = dart_ok; handles = none ∷ []; steps = [] }
dart_wait_local mpi (some h) = wait_local mpi h h.request

-- With no request left the handle is released at once.
pub wait : Requests → Handle → Option ℕ → Waited
wait mpi h none = record { ret = dart_ok; handles = none ∷ []; steps = free h ∷ [] }
wait mpi h (some r) =
    let after = with_request (mpi.waited (some r)) h in
    if not (mpi.wait_succeeds (some r))
    then record { ret = dart_err_inval; handles = some after ∷ []; steps = mpi_wait (some r) ∷ [] }
    else if not (mpi.flush_succeeds h.dest h.win)
    then record {
      ret = dart_err_inval;
      handles = some after ∷ [];
      steps = mpi_wait (some r) ∷ flush h.dest h.win ∷ [];
    }
    else record {
      ret = dart_ok;
      handles = none ∷ [];
      steps = mpi_wait (some r) ∷ flush h.dest h.win ∷ free after ∷ [];
    }

pub dart_wait : Requests → Option Handle → Waited
unfolding wait
dart_wait mpi none = record { ret = dart_ok; handles = none ∷ []; steps = [] }
dart_wait mpi (some h) = wait mpi h h.request

-- The array that is given to MPI, and the copy of it back to the handles.
pub requests : List (Option Handle) → List (Option ℕ)
requests [] = []
requests (none ∷ hs) = requests hs
requests (some h ∷ hs) = h.request ∷ requests hs

pub copy_back : (ℕ → Option ℕ) → (r_n : ℕ) → List (Option Handle) → List (Option Handle)
copy_back after r_n [] = []
copy_back after r_n (none ∷ hs) = none ∷ copy_back after r_n hs
copy_back after r_n (some h ∷ hs) = some (with_request (after r_n) h) ∷ copy_back after (suc r_n) hs

-- What a round of a loop does before the later rounds.
abbrev pub before : List Step → Option Handle → Waited → Waited
before steps h w = record w { handles = h ∷ w.handles; steps = steps ++ w.steps }

-- The second loop of `dart_waitall_local`; the handles keep the requests that they had.
pub free_loop : Requests → (ℕ → Option ℕ) → (ℕ → Bool) → (r_n : ℕ) → List (Option Handle) → Waited
free_loop mpi after status r_n [] = record { ret = dart_ok; handles = []; steps = [] }
free_loop mpi after status r_n (none ∷ hs) = before [] none (free_loop mpi after status r_n hs)
free_loop mpi after status r_n (some h ∷ hs) =
    let rest = free_loop mpi after status (suc r_n) hs in
    elim (after r_n) [
      | none ↦ before (free h ∷ []) none rest
      | some r ↦
          if not (status r_n)
          then before (free h ∷ []) none rest
          else if mpi.free_succeeds (some r)
          then before (mpi_request_free (some r) ∷ free h ∷ []) none rest
          else record {
            ret = dart_err_inval;
            handles = some h ∷ hs;
            steps = mpi_request_free (some r) ∷ [];
          }
    ]

abbrev pub unchanged : DartRet → List (Option Handle) → Waited
unchanged ret handles = record { ret = ret; handles = handles; steps = [] }

-- A call before a loop.
abbrev pub with_step : Step → Waited → Waited
with_step step w = record w { steps = step ∷ w.steps }

-- Only the first handle is compared with NULL before the work.
pub waitall_local : Requests → List (Option Handle) → Waited
unfolding free_loop requests
waitall_local mpi [] = unchanged dart_ok []
waitall_local mpi (none ∷ hs) = unchanged dart_ok (none ∷ hs)
waitall_local mpi (some h ∷ hs) =
    let mpi_req = requests (some h ∷ hs) in
    if mpi.waitall_succeeds mpi_req
    then with_step (mpi_waitall mpi_req)
        (free_loop mpi (mpi.waitall_request mpi_req) (mpi.waitall_status mpi_req) 0 (some h ∷ hs))
    else record { ret = dart_err_inval; handles = some h ∷ hs; steps = mpi_waitall mpi_req ∷ [] }

pub dart_waitall_local : Requests → List (Option Handle) → Waited
unfolding waitall_local
dart_waitall_local mpi handles =
    if ltb int_max (length handles)
    then unchanged dart_err_inval handles
    else waitall_local mpi handles

-- The loop of `dart_waitall` that waits for the targets.
pub flush_loop : Requests → List (Option Handle) → Waited
flush_loop mpi [] = record { ret = dart_ok; handles = []; steps = [] }
flush_loop mpi (none ∷ hs) = before [] none (flush_loop mpi hs)
flush_loop mpi (some h ∷ hs) =
    let rest = flush_loop mpi hs in
    elim h.request [
      | none ↦ before [] (some h) rest
      | some r ↦
          if not (mpi.flush_succeeds h.dest h.win)
          then record {
            ret = dart_err_inval;
            handles = some h ∷ hs;
            steps = flush h.dest h.win ∷ [];
          }
          else if mpi.free_succeeds (some r)
          then before (flush h.dest h.win ∷ mpi_request_free (some r) ∷ [])
              (some (with_request (mpi.freed (some r)) h)) rest
          else record {
            ret = dart_err_inval;
            handles = some (with_request (mpi.freed (some r)) h) ∷ hs;
            steps = flush h.dest h.win ∷ mpi_request_free (some r) ∷ [];
          }
    ]

-- The last loop, which releases the handles.
pub release_loop : List (Option Handle) → Waited
release_loop [] = record { ret = dart_ok; handles = []; steps = [] }
release_loop (none ∷ hs) = before [] none (release_loop hs)
release_loop (some h ∷ hs) = before (free h ∷ []) none (release_loop hs)

-- The release follows where every flush succeeded.
pub then_release : List Step → Waited → Waited
unfolding release_loop
then_release steps w =
    let released = release_loop w.handles in
    elim w.ret [
      | dart_ok ↦ record released { steps = steps ++ (w.steps ++ released.steps) }
      | _ ↦ record w { steps = steps ++ w.steps }
    ]

pub waitall : Requests → List (Option Handle) → Waited
unfolding requests copy_back flush_loop then_release
waitall mpi [] = unchanged dart_ok []
waitall mpi (none ∷ hs) = unchanged dart_ok (none ∷ hs)
waitall mpi (some h ∷ hs) =
    let mpi_req = requests (some h ∷ hs) in
    if mpi.waitall_succeeds mpi_req
    then then_release (mpi_waitall mpi_req ∷ [])
        (flush_loop mpi (copy_back (mpi.waitall_request mpi_req) 0 (some h ∷ hs)))
    else record { ret = dart_err_inval; handles = some h ∷ hs; steps = mpi_waitall mpi_req ∷ [] }

pub dart_waitall : Requests → List (Option Handle) → Waited
unfolding waitall
dart_waitall mpi handles =
    if ltb int_max (length handles) then unchanged dart_err_inval handles else waitall mpi handles

-- `*is_finished` and the handle.
pub dart_test_local : Requests → Option Handle → Bool × Option Handle
dart_test_local mpi none = (true, none)
dart_test_local mpi (some h) =
    (mpi.test_flag h.request, some (with_request (mpi.tested h.request) h))

pub dart_testall_local : Requests → List (Option Handle) → Bool × List (Option Handle)
unfolding requests copy_back
dart_testall_local mpi handles = (
  mpi.testall_flag (requests handles),
  copy_back (mpi.testall_request (requests handles)) 0 handles,
)
