-- ===== src/Shmem/Syncarea/Tests.antt =====
-- The area of four processes.
use coronas.Prelude.{arith, ℕ, ◌<◌, ◌≡◌, ◌≢◌, ◌⊎◌, none, some}
use coronas.Prelude.Int.{ℤ, pos, pos_part}
use coronas.Shmem.Syncarea.{
  Area, Garbage, shmem_syncarea_init, shmem_syncarea_newteam, shmem_syncarea_delteam,
}
use coronas.Shmem.Syncarea.Teams.{init-IsValid}
use coronas.Shmem.Syncarea.Newteam.{IsFull, Grants, newteam_lem}
use coronas.Shmem.Syncarea.Delteam.{Forgets, delteam_lem}
use coronas.Types.{dart_team_all}

abbrev zeros : Garbage
zeros = record {
  team_barr = record { num_waiting = 0; num_procs = 0 };
  team_id = pos 0;
  lock_team = pos 0;
}

abbrev four : Area
four = shmem_syncarea_init zeros 4 (pos 11)

four_next : pos_part four.nextid < 2147483647
unfolding shmem_syncarea_init
four_next = omega arith

newteam_lem_example :
    (IsFull four × (shmem_syncarea_newteam four 2 ≡ (none, four)))
    ⊎ ((slot : ℕ) × (id : ℤ) × (b : Area) × (shmem_syncarea_newteam four 2 ≡ (some (slot, id), b))
        × Grants four slot id b)
newteam_lem_example = newteam_lem four 2 (init-IsValid zeros 4 (pos 11)) four_next

delteam_lem_example :
    (pos 1 ≢ dart_team_all → Forgets four (pos 1) (shmem_syncarea_delteam four (pos 1)))
    × (shmem_syncarea_delteam four dart_team_all ≡ four)
delteam_lem_example = delteam_lem four (pos 1) (init-IsValid zeros 4 (pos 11))
