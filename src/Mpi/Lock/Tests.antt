-- ===== src/Mpi/Lock/Tests.antt =====
-- A run of two units over the lock, and its theorems there.
use coronas.Prelude.{ℕ, ◌<◌, ◌≡◌, refl, ◌⊎◌, true, false, none, some, arith}
use coronas.Mpi.Lock.{
  init, grant, holds, update, Cells, Pc, idle, linking, waiting, polling, System, Reach, start,
  later, pick, acquire_free, acquire_queued, link, release_queued, release_last,
}
use coronas.Mpi.Lock.Safety.{mutual_exclusion, lock_not_lost}

abbrev after : ℕ → Cells → Pc → System → System
after i m p s = record { cells = m; pc = update s.pc i p }

abbrev held : System
held = after 0 (grant 0 true (record init.cells { tail = some 0 })) idle init

abbrev queued : System
queued = after 1 (record held.cells { tail = some 1 }) (linking 0) held

abbrev releasing : System
releasing = after 0 queued.cells polling queued

abbrev linked : System
linked =
    after 1 (record releasing.cells { next = update releasing.cells.next 0 (some 1) }) (waiting 0)
      releasing

held-Reach : Reach held
held-Reach = later start (pick 0 (acquire_free refl refl))

queued-Reach : Reach queued
queued-Reach = later held-Reach (pick 1 (acquire_queued refl refl))

releasing-Reach : Reach releasing
releasing-Reach = later queued-Reach (pick 0 (release_queued refl (λ e. cc)))

linked-Reach : Reach linked
linked-Reach = later releasing-Reach (pick 1 link)

mutual_exclusion_example : ◌≡◌ {A = ℕ} 0 0
mutual_exclusion_example = mutual_exclusion linked 0 0 linked-Reach refl refl

lock_not_lost_example :
    (j : ℕ) × ((holds linked j ≡ true)
      ⊎ ((q : ℕ) × (linked.pc j ≡ waiting q) × (0 < linked.cells.sent q j)))
lock_not_lost_example = lock_not_lost linked 1 0 linked-Reach refl

abbrev released : System
released = after 0 (grant 0 false (record held.cells { tail = none })) idle held

released-Reach : Reach released
released-Reach = later held-Reach (pick 0 (release_last refl refl))

released_quiet : (i : ℕ) → (released.pc i ≡ idle) × (released.cells.is_acquired i ≡ false)
released_quiet i = (ground arith, ground arith)
