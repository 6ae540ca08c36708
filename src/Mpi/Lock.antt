-- ===== src/Mpi/Lock.antt =====
-- The lock of a team: dart-impl/mpi/src/dart_synchronization.c, a queue of the units that want it.
-- A move is one access to shared memory or one message, with the local code around it. The segment
-- of the lock is in the translation table, where dart_team_lock_init has put it.
mod Invariant
mod Places
mod Acquire
mod Release
mod Safety
mod Tests
use coronas.Prelude.{
  ℕ, ◌+◌, ◌-◌, ◌<◌, ◌≡◌, ◌≢◌, Bool, true, false, ◌&&◌, Option, none, some, ◌==◌, if◌then◌else◌,
}

-- A family with one value replaced.
abbrev pub update {ℓ} : {A : Type ℓ} → (ℕ → A) → ℕ → A → ℕ → A
update f i v j = if j == i then v else f j

-- The cell at `gptr_tail` and those of `gptr_list`, where none stands for -1; `is_acquired` of each
-- unit's handle; and how many messages are on the way.
pub record Cells : Type 0 where
  pub tail : Option ℕ
  pub next : ℕ → Option ℕ
  pub is_acquired : ℕ → Bool
  pub sent : (source dest : ℕ) → ℕ

-- Where a unit stands, with the variables that are live there.
pub data Pc : Type 0 where
  idle : Pc  -- in none of the functions
  linking : (predecessor : ℕ) → Pc  -- dart_lock_acquire, before the second MPI_Fetch_and_op
  waiting : (predecessor : ℕ) → Pc  -- dart_lock_acquire, in MPI_Recv
  polling : Pc  -- dart_lock_release, in the loop
  notifying : (next : ℕ) → Pc  -- dart_lock_release, before MPI_Send
  clearing : Pc  -- dart_lock_release, behind MPI_Send

abbrev pub grant : ℕ → Bool → Cells → Cells
grant i b m = record m { is_acquired = update m.is_acquired i b }

-- A move of the unit `i`.
pub data Move (i : ℕ) (m : Cells) : Pc → Cells → Pc → Type 0 where
  -- dart_lock_acquire
  acquire_again : m.is_acquired i ≡ true → Move i m idle m idle
  acquire_free :
      m.is_acquired i ≡ false
      → m.tail ≡ none
      → Move i m idle (grant i true (record m { tail = some i })) idle
  acquire_queued :
      {p : ℕ}
      → m.is_acquired i ≡ false
      → m.tail ≡ some p
      → Move i m idle (record m { tail = some i }) (linking p)
  link : {p : ℕ} → Move i m (linking p) (record m { next = update m.next p (some i) }) (waiting p)
  receive :
      {p : ℕ}
      → 0 < m.sent p i
      → Move i m
          (waiting p)
          (grant i true
            (record m { sent = update m.sent p (update (m.sent p) i (m.sent p i - 1)) }))
          idle
  -- dart_lock_try_acquire
  try_again : m.is_acquired i ≡ true → Move i m idle m idle
  try_won :
      m.is_acquired i ≡ false
      → m.tail ≡ none
      → Move i m idle (grant i true (record m { tail = some i })) idle
  try_lost : {p : ℕ} → m.is_acquired i ≡ false → m.tail ≡ some p → Move i m idle m idle
  -- dart_lock_release
  release_again : m.is_acquired i ≡ false → Move i m idle m idle
  release_last :
      m.is_acquired i ≡ true
      → m.tail ≡ some i
      → Move i m idle (grant i false (record m { tail = none })) idle
  release_queued : m.is_acquired i ≡ true → m.tail ≢ some i → Move i m idle m polling
  poll : m.next i ≡ none → Move i m polling m polling
  polled : {j : ℕ} → m.next i ≡ some j → Move i m polling m (notifying j)
  notify :
      {j : ℕ}
      → Move i m
          (notifying j)
          (record m { sent = update m.sent i (update (m.sent i) j (m.sent i j + 1)) })
          clearing
  clear : Move i m clearing (grant i false (record m { next = update m.next i none })) idle

-- The units of the team over one set of cells, interleaved in any order.
pub record System : Type 0 where
  pub cells : Cells
  pub pc : ℕ → Pc

pub data Step (s : System) : System → Type 0 where
  pick :
      (i : ℕ) {m : Cells} {p : Pc}
      → Move i s.cells (s.pc i) m p
      → Step s (record { cells = m; pc = update s.pc i p })

-- Behind dart_team_lock_init.
abbrev pub init : System
init = record {
  cells = record { tail = none; next = λ i. none; is_acquired = λ i. false; sent = λ p i. 0 };
  pc = λ i. idle;
}

pub data Reach : System → Type 0 where
  start : Reach init
  later : {s t : System} → Reach s → Step s t → Reach t

-- Between the return of an acquisition and the message or the reset of the tail by which a release
-- gives the lock away.
abbrev pub holding : Pc → Bool
holding idle = true
holding polling = true
holding (notifying _) = true
holding _ = false

abbrev pub holds : System → ℕ → Bool
holds s i = s.cells.is_acquired i && holding (s.pc i)
