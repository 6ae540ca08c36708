-- ===== src/Types.antt =====
-- Types that both implementations share: dart-if/v3.2/include/dash/dart/if/dart_types.h and
-- dart_globmem.h, dart_team_group.h.
use coronas.Prelude.{ℕ}
use coronas.Prelude.Int.{ℤ, pos, negsuc}

-- `dart_ret_t`
pub data DartRet : Type 0 where
  dart_ok dart_pending dart_err_inval dart_err_notfound dart_err_notinit dart_err_other : DartRet

-- `dart_gptr_t`; `offset` is `addr_or_offs.offset`, a uint64_t.
pub record Gptr : Type 0 where
  pub unitid : ℤ
  pub segid : ℤ
  pub flags : ℕ
  pub offset : ℕ

abbrev pub dart_team_all : ℤ
dart_team_all = pos 0

abbrev pub dart_team_null : ℤ
dart_team_null = negsuc 0
