-- ===== src/Mpi/Globmem.antt =====
-- Global pointers and collective global memory: dart-impl/mpi/src/dart_globmem.c, built with shared
-- windows. The ids of segments are of type int16_t, addresses and offsets are of 64 bits.
mod Pointers
mod Segments
mod Ids
mod Publish
mod Release
mod Local
mod Tests
use coronas.Prelude.{
  ℕ, zero, suc, ◌+◌, ◌-◌, ◌%◌, ◌^◌, Bool, not, Option, none, some, List, [], ◌∷◌, leb, ◌==◌,
  if◌then◌else◌,
}
use coronas.Prelude.Int.{ℤ, pos, negsuc, eqb_ℤ, pos_part, neg_part}
use coronas.Types.{DartRet, dart_ok, dart_err_inval, dart_err_other, Gptr}
use coronas.Mpi.Transtable.{
  Info, Table, Answer, value, invalid, undefined, dart_adapt_transtable_add,
  dart_adapt_transtable_remove, dart_adapt_transtable_get_selfbaseptr,
  dart_adapt_transtable_get_win,
}
use coronas.Mpi.Teamlist.{
  not_found, no_rounds, found, Teamlist, Converted, dart_adapt_teamlist_convert,
}

-- `dart_memid` and `dart_registermemid`, the table of segments and the base of the local pool.
pub record Memory : Type 0 where
  pub memid : ℤ
  pub registermemid : ℤ
  pub transtable : Table
  pub localalloc : ℕ

pub address_space : ℕ
address_space = 2 ^ 64

-- `offset + base`
pub offset_address : ℕ → ℕ → ℕ
unfolding address_space
offset_address base offset = (base + offset) % address_space

-- `addr - base`
pub address_offset : ℕ → ℕ → ℕ
unfolding address_space
address_offset base addr =
    if leb base addr
    then (addr - base) % address_space
    else (address_space + addr - base) % address_space

-- The base of a pointer's segment on the calling unit.
pub self_base : Memory → ℤ → Answer ℕ
self_base m seg_id =
    if eqb_ℤ seg_id (pos 0)
    then value m.localalloc
    else dart_adapt_transtable_get_selfbaseptr seg_id m.transtable

-- The address, none for NULL; `invalid` is DART_ERR_INVAL.
pub at_offset : ℕ → Answer ℕ → Answer (Option ℕ)
unfolding offset_address
at_offset offset (value base) = value (some (offset_address base offset))
at_offset offset invalid = invalid
at_offset offset undefined = undefined

pub dart_gptr_getaddr : (myid : ℤ) → Memory → Gptr → Answer (Option ℕ)
unfolding self_base at_offset
dart_gptr_getaddr myid m gptr =
    if eqb_ℤ myid gptr.unitid then at_offset gptr.offset (self_base m gptr.segid) else value none

pub from_base : Gptr → (addr : ℕ) → Answer ℕ → Answer Gptr
unfolding address_offset
from_base gptr addr (value base) = value (record gptr { offset = address_offset base addr })
from_base gptr addr invalid = invalid
from_base gptr addr undefined = undefined

pub dart_gptr_setaddr : Memory → Gptr → (addr : ℕ) → Answer Gptr
unfolding self_base from_base
dart_gptr_setaddr m gptr addr = from_base gptr addr (self_base m gptr.segid)

-- `offs` is an int, which the sum converts to 64 bits.
pub dart_gptr_incaddr : Gptr → (offs : ℤ) → Gptr
unfolding address_space
dart_gptr_incaddr gptr (pos n) = record gptr { offset = (gptr.offset + n) % address_space }
dart_gptr_incaddr gptr (negsuc n) = record gptr {
  offset = (gptr.offset + (address_space - suc n)) % address_space;
}

pub dart_gptr_setunit : Gptr → ℤ → Gptr
dart_gptr_setunit gptr unit_id = record gptr { unitid = unit_id }

-- `++` and `--` on an int16_t.
pub succ_int16 : ℤ → ℤ
succ_int16 (pos n) = if n == 32767 then negsuc 32767 else pos (suc n)
succ_int16 (negsuc zero) = pos 0
succ_int16 (negsuc (suc n)) = negsuc n

pub pred_int16 : ℤ → ℤ
pred_int16 (pos zero) = negsuc 0
pred_int16 (pos (suc n)) = pos n
pred_int16 (negsuc n) = if n == 32767 then pos 32767 else negsuc (suc n)

-- What MPI answers: the communicator of the units that share the node with the window and the
-- address of an allocation on it, the addresses of the other units' parts, what an exchange of
-- addresses gives, the global id of a team's first unit, and whether a call succeeds.
pub record Windows : Type 0 where
  pub sharedmem_comm : (index : ℕ) → Option ℕ
  pub win_allocate_shared : (nbytes comm : ℕ) → Option (ℕ × ℕ)
  pub comm_rank : (comm : ℕ) → ℕ
  pub win_shared_query : (win unit : ℕ) → ℕ
  pub sharedmemnode_size : (index : ℕ) → ℕ
  pub win_attach : (index sub_mem nbytes : ℕ) → Bool
  pub get_address : (sub_mem : ℕ) → Option ℕ
  pub allgather : (index disp : ℕ) → List ℕ
  pub first_unit : (index : ℕ) → ℤ
  pub win_free : (win : ℕ) → Bool

-- `gptr_unitid`
pub unit_of_team : Windows → ℕ → ℤ
unit_of_team w index = if index == 0 then pos 0 else w.first_unit index

-- `baseptr_set`, from position `i` on.
pub baseptr_set : Windows → (self sub_mem win i left : ℕ) → List ℕ
baseptr_set w self sub_mem win i zero = []
baseptr_set w self sub_mem win i (suc left) =
    (if not (self == i) then w.win_shared_query win i else sub_mem)
    ∷ baseptr_set w self sub_mem win (suc i) left

-- The answer, the pointer if it is written, the state, and what the call leaves behind in MPI: the
-- shared windows that it made, and the memory that it attached to the window of the team.
pub record Allocated : Type 0 where
  pub ret : DartRet
  pub gptr : Option Gptr
  pub memory : Memory
  pub windows : List ℕ
  pub attachments : List ℕ

abbrev pub failed : DartRet → Memory → Allocated
failed ret m = record { ret = ret; gptr = none; memory = m; windows = []; attachments = [] }

-- DART_ERR_OTHER with what was made so far, which nothing releases.
abbrev pub left_behind : Memory → (windows attachments : List ℕ) → Allocated
left_behind m windows attachments = record {
  ret = dart_err_other;
  gptr = none;
  memory = m;
  windows = windows;
  attachments = attachments;
}

-- The pointer and the entry, and the next id.
pub publish : Windows → Memory → (index nbytes sub_mem win disp : ℕ) → List ℕ → Allocated
unfolding unit_of_team succ_int16
publish w m index nbytes sub_mem win disp baseptrs = record {
  ret = dart_ok;
  gptr =
      some (record { unitid = unit_of_team w index; segid = m.memid; flags = index; offset = 0 });
  memory = record m {
    memid = succ_int16 m.memid;
    transtable = dart_adapt_transtable_add m.transtable (record {
      seg_id = m.memid;
      size = nbytes;
      disp = w.allgather index disp;
      baseptr = some baseptrs;
      selfbaseptr = sub_mem;
      win = win;
    });
  };
  windows = win ∷ [];
  attachments = sub_mem ∷ [];
}

-- Behind MPI_Win_allocate_shared, and behind MPI_Win_attach.
pub attached : Windows → Memory → (index nbytes comm sub_mem win : ℕ) → Option ℕ → Allocated
unfolding publish baseptr_set
attached w m index nbytes comm sub_mem win none = left_behind m (win ∷ []) (sub_mem ∷ [])
attached w m index nbytes comm sub_mem win (some disp) =
    publish w m index nbytes sub_mem win disp
      (baseptr_set w (w.comm_rank comm) sub_mem win 0 (w.sharedmemnode_size index))

pub allocated_shared : Windows → Memory → (index nbytes comm : ℕ) → Option (ℕ × ℕ) → Allocated
unfolding attached
allocated_shared w m index nbytes comm none = failed dart_err_other m
allocated_shared w m index nbytes comm (some (sub_mem, win)) =
    if w.win_attach index sub_mem nbytes
    then attached w m index nbytes comm sub_mem win (w.get_address sub_mem)
    else left_behind m (win ∷ []) []

pub memalloc_on : Windows → Memory → (index nbytes : ℕ) → Option ℕ → Allocated
unfolding allocated_shared
memalloc_on w m index nbytes none = failed dart_err_other m
memalloc_on w m index nbytes (some comm) =
    allocated_shared w m index nbytes comm (w.win_allocate_shared nbytes comm)

pub memalloc_team : Windows → Memory → (nbytes : ℕ) → Converted → Allocated
unfolding memalloc_on
memalloc_team w m nbytes (found position index) =
    memalloc_on w m index nbytes (w.sharedmem_comm index)
memalloc_team w m nbytes not_found = failed dart_err_inval m
memalloc_team w m nbytes no_rounds = failed dart_err_inval m

pub dart_team_memalloc_aligned :
    Windows → Teamlist → Memory → (teamid : ℤ) → (nbytes : ℕ) → Allocated
unfolding memalloc_team
dart_team_memalloc_aligned w t m teamid nbytes =
    memalloc_team w m nbytes (dart_adapt_teamlist_convert teamid t)
