-- ===== src/Shmem/Barrier.antt =====
-- The barrier of a team: sysv_barrier_await of dart-impl/shmem/src/shmem_barriers_sysv.c, by any
-- number of processes that call it again and again. A move is what one process does while it has
-- the mutex. A process in pthread_cond_wait is asleep until another one broadcasts or, as POSIX
-- allows, wakes up without that; `spurious` says whether such wakeups happen.
mod Invariant
mod Safety
mod Tests
use coronas.Prelude.{ℕ, ◌+◌, ◌≤◌, ◌<◌, ◌≡◌, Bool, true, ◌==◌, if◌then◌else◌}

-- `struct sysv_barrier` without the mutex and the condition variable.
pub record Barrier : Type 0 where
  pub num_waiting : ℕ
  pub num_procs : ℕ

unfoldable pub sysv_barrier_create : ℕ → Barrier
sysv_barrier_create num_procs = record { num_waiting = 0; num_procs = num_procs }

-- Where a process stands: outside, in pthread_cond_wait, or woken up and not yet back.
pub data Pc : Type 0 where
  outside asleep woken : Pc

-- A process, with how often it has called the barrier and has come back.
pub record Process : Type 0 where
  pub pc : Pc
  pub entered : ℕ
  pub left : ℕ

pub record System : Type 0 where
  pub barrier : Barrier
  pub process : ℕ → Process

-- A family with one value replaced.
abbrev pub update {ℓ} : {A : Type ℓ} → (ℕ → A) → ℕ → A → ℕ → A
update f i v j = if j == i then v else f j

abbrev pub fall_asleep : Process → Process
fall_asleep p = record { pc = asleep; entered = p.entered + 1; left = p.left }

-- Through the barrier with no wait.
abbrev pub pass : Process → Process
pass p = record { pc = outside; entered = p.entered + 1; left = p.left + 1 }

abbrev pub wake_pc : Pc → Pc
wake_pc asleep = woken
wake_pc c = c

-- pthread_cond_broadcast
abbrev pub wake : Process → Process
wake p = record { pc = wake_pc p.pc; entered = p.entered; left = p.left }

abbrev pub come_back : Process → Process
come_back p = record { pc = outside; entered = p.entered; left = p.left + 1 }

-- A move of one of the processes of the barrier.
pub data Step (spurious : Bool) (s : System) : System → Type 0 where
  wait :
      (i : ℕ)
      → i < s.barrier.num_procs
      → (s.process i).pc ≡ outside
      → s.barrier.num_waiting + 1 < s.barrier.num_procs
      → Step spurious s (record {
        barrier = record s.barrier { num_waiting = s.barrier.num_waiting + 1 };
        process = update s.process i (fall_asleep (s.process i));
      })
  broadcast :
      (i : ℕ)
      → i < s.barrier.num_procs
      → (s.process i).pc ≡ outside
      → s.barrier.num_procs ≤ s.barrier.num_waiting + 1
      → Step spurious s (record {
        barrier = record s.barrier { num_waiting = 0 };
        process = update (λ j. wake (s.process j)) i (pass (s.process i));
      })
  unlock :
      (i : ℕ)
      → i < s.barrier.num_procs
      → (s.process i).pc ≡ woken
      → Step spurious s
          (record { barrier = s.barrier; process = update s.process i (come_back (s.process i)) })
  wake_up :
      (i : ℕ)
      → spurious ≡ true
      → i < s.barrier.num_procs
      → (s.process i).pc ≡ asleep
      → Step spurious s
          (record { barrier = s.barrier; process = update s.process i (wake (s.process i)) })

abbrev pub init : ℕ → System
init num_procs = record {
  barrier = sysv_barrier_create num_procs;
  process = λ i. record { pc = outside; entered = 0; left = 0 };
}

pub data Reach (spurious : Bool) (n : ℕ) : System → Type 0 where
  start : Reach spurious n (init n)
  later : {s t : System} → Reach spurious n s → Step spurious s t → Reach spurious n t
