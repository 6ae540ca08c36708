-- ===== src/Mpi/Onesided/Tests.antt =====
-- Runs of the one-sided operations, and their theorems at inputs.
use coronas.Prelude.{◌-◌, ◌≡◌, refl, true, none, some, [], ◌∷◌, arith}
use coronas.Prelude.Int.{ℤ, pos, negsuc}
use coronas.Types.{dart_ok, dart_err_inval, Gptr}
use coronas.Mpi.Transtable.{dart_adapt_transtable_get_disp, find_node, value, Info}
use coronas.Mpi.Onesided.{
  mpi_rput, Mpi, dart_get, Runtime, returns, shared_position, dart_put, mpi_put, mpi_get,
  mpi_win_flush,
}
use coronas.Mpi.Onesided.Blocking.{dart_get_blocking, dart_put_blocking, dart_flush}
use coronas.Mpi.Onesided.Handles.{Handle, HandleCell, dart_get_handle, dart_put_handle}
use coronas.Mpi.Onesided.Equivalence.{
  AllSucceed, FlushesSucceed, followed_by, put_blocking-put-flush,
}
use coronas.Mpi.Onesided.Targets.{target, put_place, get_place, transfer_targets}

-- Team 1 holds the units 1 and 2, with the ranks 0 and 1.
abbrev mpi : Mpi
mpi = record {
  translate_ranks = λ index abs_id. elim abs_id [ pos n ↦ pos (n - 1) | negsuc n ↦ negsuc n ];
  succeeds = λ call. true;
  request_of = λ call. some 7;
}

abbrev segment : ℤ → Info
segment seg_id = record {
  seg_id = seg_id;
  size = 64;
  disp = 4096 ∷ 8192 ∷ 12288 ∷ [];
  baseptr = none;
  selfbaseptr = 4096;
  win = 1;
}

-- No unit of the team shares the node.
abbrev rt : Runtime
rt = record {
  win_lists = 100 ∷ 101 ∷ [];
  win_local_alloc = 99;
  sharedmem_table = (none ∷ none ∷ none ∷ []) ∷ (none ∷ none ∷ none ∷ []) ∷ [];
  sharedmem_local_baseptr_set = [];
  transtable = segment (pos 1) ∷ segment (negsuc 0) ∷ [];
}

abbrev pointer : ℤ → Gptr
pointer segid = record { unitid = pos 2; segid = segid; flags = 1; offset = 8 }

far : shared_position rt (pointer (pos 1)) ≡ value none
unfolding shared_position
far = refl

all_succeed : AllSucceed mpi
all_succeed call = refl

flushes_succeed : FlushesSucceed mpi
flushes_succeed rank win = refl

put_blocking-put-flush_example :
    dart_put_blocking mpi rt (pointer (pos 1)) 500 16
    ≡ followed_by (dart_put mpi rt (pointer (pos 1)) 500 16) (dart_flush mpi rt (pointer (pos 1)))
put_blocking-put-flush_example =
    put_blocking-put-flush mpi rt (pointer (pos 1)) 500 16 far refl (omega arith) (omega arith)
      all_succeed

transfer_targets_example :
    (target put_place (dart_put_blocking mpi rt (pointer (pos 1)) 500 16)
      ≡ target get_place (dart_get_blocking mpi rt 500 (pointer (pos 1)) 16))
    × (target get_place (dart_get mpi rt 500 (pointer (pos 1)) 16)
        ≡ target get_place (dart_get_blocking mpi rt 500 (pointer (pos 1)) 16))
    × (target get_place (dart_get_handle mpi rt 500 (pointer (pos 1)) 16)
        ≡ target get_place (dart_get_blocking mpi rt 500 (pointer (pos 1)) 16))
transfer_targets_example =
    transfer_targets mpi rt (pointer (pos 1)) 500 16 refl (omega arith) all_succeed

-- With the negative id of registered memory the two blocking operations reach different units.
registered_put :
    dart_put_blocking mpi rt (pointer (negsuc 0)) 500 16
    ≡ returns dart_ok (mpi_put 500 16 (pos 2) 12296 101 ∷ mpi_win_flush (pos 2) 101 ∷ []) tt
unfolding dart_put_blocking dart_adapt_transtable_get_disp find_node
registered_put = refl

registered_get :
    dart_get_blocking mpi rt 500 (pointer (negsuc 0)) 16
    ≡ returns dart_ok (mpi_get 500 16 (pos 1) 8200 101 ∷ mpi_win_flush (pos 1) 101 ∷ []) tt
unfolding dart_get_blocking dart_adapt_transtable_get_disp find_node
registered_get = refl

-- An unknown segment leaves a block behind that nothing releases.
unknown_segment :
    dart_put_handle mpi rt (pointer (pos 5)) 500 16
    ≡ returns dart_err_inval [] HandleCell.uninitialised
unfolding dart_put_handle dart_adapt_transtable_get_disp find_node
unknown_segment = refl

abbrev handle : Handle
handle = record { request = some 7; win = 101; dest = pos 1 }

made_handle :
    dart_put_handle mpi rt (pointer (pos 1)) 500 16
    ≡ returns dart_ok (mpi_rput 500 16 (pos 1) 8200 101 ∷ []) (HandleCell.initialised handle)
unfolding dart_put_handle dart_adapt_transtable_get_disp find_node
made_handle = refl
