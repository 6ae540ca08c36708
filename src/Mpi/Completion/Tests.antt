-- ===== src/Mpi/Completion/Tests.antt =====
-- Runs of the waits, and their theorems at inputs.
use coronas.Prelude.{◌≡◌, refl, true, Option, none, some, List, [], ◌∷◌}
use coronas.Prelude.Int.{pos}
use coronas.Types.{dart_ok}
use coronas.Mpi.Onesided.Handles.{Handle}
use coronas.Mpi.Completion.{Requests, dart_waitall, dart_waitall_local}
use coronas.Mpi.Completion.Laws.{IsDocumented, flushes, waitall-waitall_local}

abbrev mpi : Requests
mpi = record {
  wait_succeeds = λ r. true;
  waited = λ r. none;
  waitall_succeeds = λ rs. true;
  waitall_request = λ rs i. none;
  waitall_status = λ rs i. true;
  flush_succeeds = λ dest win. true;
  free_succeeds = λ r. true;
  freed = λ r. none;
  test_flag = λ r. true;
  tested = λ r. none;
  testall_flag = λ rs. true;
  testall_request = λ rs i. none;
}

mpi-IsDocumented : IsDocumented mpi
mpi-IsDocumented = record { wait_null = λ r e. refl; waitall_null = λ rs i e. refl }

abbrev handle : Handle
handle = record { request = some 7; win = 101; dest = pos 2 }

abbrev handles : List (Option Handle)
handles = some handle ∷ none ∷ some handle ∷ []

waitall-waitall_local_example :
    ((dart_waitall mpi handles).ret ≡ (dart_waitall_local mpi handles).ret)
    × ((dart_waitall mpi handles).handles ≡ (dart_waitall_local mpi handles).handles)
    × (flushes (dart_waitall mpi handles).steps ≡ [])
    × (flushes (dart_waitall_local mpi handles).steps ≡ [])
waitall-waitall_local_example = waitall-waitall_local mpi handles mpi-IsDocumented

-- All handles of an array are waited for together.
all_released : (dart_waitall mpi handles).handles ≡ none ∷ none ∷ none ∷ []
unfolding dart_waitall
all_released = refl

-- A NULL in front hides the handles behind it, and the answer is DART_OK.
first_null :
    dart_waitall mpi (none ∷ some handle ∷ [])
    ≡ record { ret = dart_ok; handles = none ∷ some handle ∷ []; steps = [] }
unfolding dart_waitall
first_null = refl
