-- ===== src/Shmem/Syncarea.antt =====
-- The area that all processes share for teams and locks: the syncarea functions of
-- dart-impl/shmem/src/shmem_barriers_sysv.c and the lock tables of dart_locks.c. Each function runs
-- under the mutex of the area, so it is one step. The ids of teams are of type int32_t; the counter
-- of the ids wraps around, where C leaves its overflow undefined.
-- The loops run over the entries of the arrays, which `init` makes MAXNUM_TEAMS, MAXNUM_LOCKS and
-- MAXNUM_UNITS long.
mod Slots
mod Teams
mod Newteam
mod Delteam
mod Locks
mod Tests
use coronas.Prelude.{
  ℕ, zero, suc, ◌+◌, Bool, true, false, not, ◌&&◌, Option, none, some, List, [], ◌∷◌, ltb, ◌==◌,
  if◌then◌else◌, get_elem?, set, drop, replicate, ◌>>=◌,
}
use coronas.Prelude.Int.{ℤ, pos, negsuc, eqb_ℤ}
use coronas.Shmem.Barrier.{Barrier, sysv_barrier_create}

abbrev pub maxnum_teams : ℕ
maxnum_teams = 64

abbrev pub maxnum_locks : ℕ
maxnum_locks = 32

abbrev pub maxnum_units : ℕ
maxnum_units = 512

-- UNIT_STATE_NOT_INITIALIZED
abbrev pub unit_state_not_initialized : ℕ
unit_state_not_initialized = 0

-- `struct sysv_team`
pub record Team : Type 0 where
  pub barr : Barrier
  pub teamid : ℤ
  pub inuse : Bool

-- `struct dart_lock_struct` without its mutex.
pub record Lock : Type 0 where
  pub teamid : ℤ
  pub inuse : Bool

-- `struct syncarea_struct` without its mutex.
pub record Area : Type 0 where
  pub shmem_key : ℤ
  pub nextid : ℤ
  pub unitstate : List ℕ
  pub locks : List Lock
  pub teams : List Team

-- What the memory of the area holds before it is initialised.
pub record Garbage : Type 0 where
  pub team_barr : Barrier
  pub team_id : ℤ
  pub lock_team : ℤ

unfoldable pub shmem_syncarea_init : Garbage → (numprocs : ℕ) → (shmid : ℤ) → Area
shmem_syncarea_init g numprocs shmid = record {
  shmem_key = shmid;
  nextid = pos 1;
  unitstate = replicate maxnum_units unit_state_not_initialized;
  locks = replicate maxnum_locks (record { teamid = g.lock_team; inuse = false });
  teams =
      set
        (replicate maxnum_teams (record { barr = g.team_barr; teamid = g.team_id; inuse = false }))
        0 (record { barr = sysv_barrier_create numprocs; teamid = pos 0; inuse = true });
}

-- The index of the first entry that passes the test, of those from the index `i` on.
unfoldable pub find_loop {ℓ} : {A : Type ℓ} → (A → Bool) → (i : ℕ) → List A → Option ℕ
find_loop test i [] = none
find_loop test i (x ∷ xs) = let rest = find_loop test (i + 1) xs in if test x then some i else rest

-- `++` on an int32_t.
unfoldable pub succ_int32 : ℤ → ℤ
succ_int32 (pos n) = if n == 2147483647 then negsuc 2147483647 else pos (suc n)
succ_int32 (negsuc zero) = pos 0
succ_int32 (negsuc (suc n)) = negsuc n

-- The slot and the id of the new team, or the slot -1.
unfoldable pub shmem_syncarea_newteam : Area → (numprocs : ℕ) → Option (ℕ × ℤ) × Area
shmem_syncarea_newteam a numprocs = elim (find_loop (λ t. not t.inuse) 1 (drop 1 a.teams)) [
  | none ↦ (none, a)
  | some slot ↦ (
    some (slot, a.nextid),
    record a {
      nextid = succ_int32 a.nextid;
      teams =
          set a.teams slot
            (record { barr = sysv_barrier_create numprocs; teamid = a.nextid; inuse = true });
    },
  )
]

-- The test of the loops that look for a team.
abbrev pub is_team : ℤ → Team → Bool
is_team teamid t = t.inuse && eqb_ℤ t.teamid teamid

unfoldable pub shmem_syncarea_findteam : Area → ℤ → Option ℕ
shmem_syncarea_findteam a teamid = find_loop (is_team teamid) 0 a.teams

abbrev pub out_of_use : Team → Team
out_of_use t = record t { inuse = false }

-- The slot is given back, unless it is that of DART_TEAM_ALL. The function always answers 0.
unfoldable pub shmem_syncarea_delteam : Area → ℤ → Area
shmem_syncarea_delteam a teamid = elim (find_loop (is_team teamid) 0 a.teams) [
  | none ↦ a
  | some slot ↦
      if ltb 0 slot
      then record a {
        teams = elim (get_elem? a.teams slot) [
          | none ↦ a.teams
          | some t ↦ set a.teams slot (out_of_use t)
        ];
      }
      else a
]

-- The barrier that a process waits at, or the code -1.
unfoldable pub shmem_syncarea_barrier_wait : Area → (slot : ℤ) → Option Barrier
shmem_syncarea_barrier_wait a (negsuc n) = none
shmem_syncarea_barrier_wait a (pos slot) = elim (get_elem? a.teams slot) [
  | none ↦ none
  | some t ↦ some t.barr
]

-- `none` is a unit out of the array.
unfoldable pub shmem_syncarea_getunitstate : Area → (unit : ℕ) → Option ℕ
shmem_syncarea_getunitstate a unit = get_elem? a.unitstate unit

unfoldable pub shmem_syncarea_setunitstate : Area → (unit state : ℕ) → Option (ℕ × Area)
shmem_syncarea_setunitstate a unit state = do
  old ← get_elem? a.unitstate unit
  some (old, record a { unitstate = set a.unitstate unit state })

-- dart_team_lock_init, as unit 0 does it and all get its answer: the lock's index, or
-- DART_ERR_OTHER.
unfoldable pub dart_team_lock_init : Area → (teamid : ℤ) → Option ℕ × Area
dart_team_lock_init a teamid = elim (find_loop (λ (l : Lock). not l.inuse) 0 a.locks) [
  | none ↦ (none, a)
  | some lockid ↦ (
    some lockid,
    record a { locks = set a.locks lockid (record { teamid = teamid; inuse = true }) },
  )
]

-- dart_team_lock_free, of the lock with an index; another pointer changes nothing.
unfoldable pub dart_team_lock_free : Area → (lockid : ℕ) → Area
dart_team_lock_free a lockid = elim (get_elem? a.locks lockid) [
  | none ↦ a
  | some l ↦ record a { locks = set a.locks lockid (record l { inuse = false }) }
]
