-- ===== src/Mpi/Onesided.antt =====
-- The one-sided operations of dart-impl/mpi/src/dart_communication.c, built with shared windows.
-- A run is the list of the calls that leave the file, memcpy and MPI, in their order.
mod Blocking
pub mod Handles
mod Equivalence
mod Targets
mod Answers
mod Tests
use coronas.Prelude.{
  ℕ, ◌+◌, ◌%◌, ◌^◌, Bool, Option, none, some, List, [], ◌∷◌, ltb, ◌==◌, if◌then◌else◌, get_elem?,
}
use coronas.Prelude.Int.{ℤ, pos, negsuc, eqb_ℤ, ltb_ℤ}
use coronas.Types.{DartRet, dart_ok, dart_err_inval, Gptr}
use coronas.Mpi.Transtable.{
  Table, Answer, value, invalid, undefined, cell, dart_adapt_transtable_get_disp,
  dart_adapt_transtable_get_baseptr,
}

-- `dart_operation_t` and `dart_datatype_t`
pub data Operation : Type 0 where
  dart_op_undefined dart_op_min dart_op_max dart_op_sum dart_op_prod dart_op_band : Operation
  dart_op_land dart_op_bor dart_op_lor dart_op_bxor dart_op_lxor : Operation

pub data Datatype : Type 0 where
  dart_type_undefined dart_type_byte dart_type_short dart_type_int dart_type_uint : Datatype
  dart_type_long dart_type_ulong dart_type_longlong dart_type_float dart_type_double : Datatype

-- The calls, with the rank, the displacement and the window of the target. For `memcpy` the two
-- addresses and the count.
pub data Call : Type 0 where
  memcpy : (dest src nbytes : ℕ) → Call
  mpi_get mpi_put mpi_rget mpi_rput : (origin nbytes : ℕ) → (rank : ℤ) → (disp win : ℕ) → Call
  mpi_accumulate :
      (origin nelem : ℕ) → Option Datatype → Option Operation → (rank : ℤ) → (disp win : ℕ) → Call
  mpi_win_flush mpi_win_flush_local : (rank : ℤ) → (win : ℕ) → Call
  mpi_win_flush_all mpi_win_flush_local_all : (win : ℕ) → Call

-- What MPI answers: the rank in the group of `dart_teams[index]` of a rank of MPI_COMM_WORLD,
-- whether a call returns MPI_SUCCESS, and the request of an MPI_Rget or MPI_Rput.
pub record Mpi : Type 0 where
  pub translate_ranks : ℕ → ℤ → ℤ
  pub succeeds : Call → Bool
  pub request_of : Call → Option ℕ

-- The variables that the operations read; in `dart_sharedmem_table` no number stands for -1.
pub record Runtime : Type 0 where
  pub win_lists : List ℕ
  pub win_local_alloc : ℕ
  pub sharedmem_table : List (List (Option ℕ))
  pub sharedmem_local_baseptr_set : List ℕ
  pub transtable : Table

-- What a function answers, the calls it made and what it wrote; or undefined behaviour.
pub data Outcome {ℓ} (A : Type ℓ) : Type ℓ where
  returns : DartRet → List Call → A → Outcome A
  out_of_bounds : Outcome A

-- An outcome without a written value.
abbrev pub Done : Type 0
Done = Outcome {0} Unit

-- `if (f(...) == -1) return DART_ERR_INVAL;`, where `written` is written at that point.
abbrev pub attempt {ℓ κ} : {A : Type ℓ} {B : Type κ} → Answer A → B → (A → Outcome B) → Outcome B
attempt (value a) written k = k a
attempt invalid written k = returns dart_err_inval [] written
attempt undefined written k = out_of_bounds

abbrev pub int_max : ℕ
int_max = 2147483647

-- The sum of an address and an offset of 64 bits.
pub add_u64 : ℕ → ℕ → ℕ
add_u64 address offset = (address + offset) % 2 ^ 64

-- An array at an index of type int.
pub cell_ℤ {ℓ} : {A : Type ℓ} → List A → ℤ → Answer A
cell_ℤ xs (negsuc i) = undefined
cell_ℤ xs (pos i) = elim (get_elem? xs i) [ none ↦ undefined | some x ↦ value x ]

pub unit_g2l : Mpi → ℕ → ℤ → ℤ
unit_g2l mpi index abs_id = if index == 0 then abs_id else mpi.translate_ranks index abs_id

-- `dart_sharedmem_table[index][gptr.unitid]`, read if `seg_id >= 0`.
pub table_entry : Answer (List (Option ℕ)) → ℤ → Answer (Option ℕ)
unfolding cell_ℤ
table_entry (value row) unitid = cell_ℤ row unitid
table_entry invalid unitid = invalid
table_entry undefined unitid = undefined

pub shared_position : Runtime → Gptr → Answer (Option ℕ)
unfolding table_entry cell_ℤ
shared_position rt gptr =
    if ltb_ℤ gptr.segid (pos 0)
    then value none
    else table_entry (cell_ℤ rt.sharedmem_table (pos gptr.flags)) gptr.unitid

-- The base address of a unit of this node.
pub shared_baseptr : Runtime → Gptr → ℕ → Answer ℕ
shared_baseptr rt gptr i =
    if eqb_ℤ gptr.segid (pos 0)
    then cell rt.sharedmem_local_baseptr_set i
    else dart_adapt_transtable_get_baseptr gptr.segid i rt.transtable

-- The displacement for a rank, which is negative where MPI has no translation.
pub disp_of_rank : Runtime → Gptr → ℤ → Answer ℕ
disp_of_rank rt gptr (pos rank) = dart_adapt_transtable_get_disp gptr.segid rank rt.transtable
disp_of_rank rt gptr (negsuc n) = elim (dart_adapt_transtable_get_disp gptr.segid 0 rt.transtable) [
  | value d ↦ undefined
  | invalid ↦ invalid
  | undefined ↦ undefined
]

-- `if (seg_id) unit_g2l(...)`
pub rank_of : Mpi → Gptr → ℤ
unfolding unit_g2l
rank_of mpi gptr =
    if eqb_ℤ gptr.segid (pos 0) then gptr.unitid else unit_g2l mpi gptr.flags gptr.unitid

-- `if (seg_id > 0) unit_g2l(...)`
pub rank_of_positive : Mpi → Gptr → ℤ
unfolding unit_g2l
rank_of_positive mpi gptr =
    if ltb_ℤ (pos 0) gptr.segid then unit_g2l mpi gptr.flags gptr.unitid else gptr.unitid

-- The lookup of the displacement and then of the window: `win` and `disp_rel`.
pub disp_and_win : Runtime → Gptr → ℤ → Answer (ℕ × ℕ)
unfolding disp_of_rank add_u64
disp_and_win rt gptr rank =
    if eqb_ℤ gptr.segid (pos 0)
    then value (gptr.offset, rt.win_local_alloc)
    else elim (disp_of_rank rt gptr rank) [
      | value disp_s ↦ elim (get_elem? rt.win_lists gptr.flags) [
        | some win ↦ value (add_u64 disp_s gptr.offset, win)
        | none ↦ undefined
      ]
      | invalid ↦ invalid
      | undefined ↦ undefined
    ]

-- `if (call != MPI_SUCCESS) return DART_ERR_INVAL;`, and then the rest.
pub checked : Mpi → Call → Done → Done
checked mpi call out_of_bounds =
    if mpi.succeeds call then out_of_bounds else returns dart_err_inval (call ∷ []) tt
checked mpi call (returns ret calls _) =
    if mpi.succeeds call
    then returns ret (call ∷ calls) tt
    else returns dart_err_inval (call ∷ []) tt

pub dart_get : Mpi → Runtime → (dest : ℕ) → Gptr → (nbytes : ℕ) → Done
unfolding rank_of shared_position shared_baseptr disp_and_win checked add_u64
dart_get mpi rt dest gptr nbytes =
    if ltb int_max nbytes
    then returns dart_err_inval [] tt
    else attempt (shared_position rt gptr) tt (λ position. elim position [
      | some i ↦
          attempt (shared_baseptr rt gptr i) tt
            (λ baseptr. returns dart_ok (memcpy dest (add_u64 baseptr gptr.offset) nbytes ∷ []) tt)
      | none ↦ attempt (disp_and_win rt gptr (rank_of mpi gptr)) tt (λ (disp_rel, win).
          checked mpi (mpi_get dest nbytes (rank_of mpi gptr) disp_rel win) (returns dart_ok [] tt))
    ])

-- The window is read first here, and what MPI answers is not tested.
pub win_and_disp : Runtime → Gptr → ℤ → Answer (ℕ × ℕ)
unfolding disp_of_rank add_u64
win_and_disp rt gptr rank =
    if eqb_ℤ gptr.segid (pos 0)
    then value (gptr.offset, rt.win_local_alloc)
    else elim (get_elem? rt.win_lists gptr.flags) [
      | none ↦ undefined
      | some win ↦ elim (disp_of_rank rt gptr rank) [
        | value disp_s ↦ value (add_u64 disp_s gptr.offset, win)
        | invalid ↦ invalid
        | undefined ↦ undefined
      ]
    ]

pub dart_put : Mpi → Runtime → Gptr → (src nbytes : ℕ) → Done
unfolding rank_of win_and_disp
dart_put mpi rt gptr src nbytes =
    attempt (win_and_disp rt gptr (rank_of mpi gptr)) tt (λ (disp_rel, win).
      returns dart_ok (mpi_put src nbytes (rank_of mpi gptr) disp_rel win ∷ []) tt)

-- The tables of dart_communication_priv.h; `none` stands for the cast of -1.
pub dart_mpi_op : Operation → Option Operation
dart_mpi_op dart_op_undefined = none
dart_mpi_op op = some op

pub dart_mpi_datatype : Datatype → Option Datatype
dart_mpi_datatype dart_type_undefined = none
dart_mpi_datatype dtype = some dtype

pub dart_accumulate : Mpi → Runtime → Gptr → (values nelem : ℕ) → Datatype → Operation → Done
unfolding rank_of win_and_disp dart_mpi_op dart_mpi_datatype
dart_accumulate mpi rt gptr values nelem dtype op =
    attempt (win_and_disp rt gptr (rank_of mpi gptr)) tt (λ (disp_rel, win).
      returns dart_ok
        (mpi_accumulate values nelem (dart_mpi_datatype dtype) (dart_mpi_op op) (rank_of mpi gptr)
            disp_rel win
          ∷ [])
        tt)
