-- ===== src/Shmem/Barrier/Tests.antt =====
-- Two processes, both of which have called the barrier once.
use coronas.Prelude.{ℕ, ◌≤◌, ◌<◌, ◌≡◌, refl, ◌≢◌, true, false, arith}
use coronas.Shmem.Barrier.{
  sysv_barrier_create, asleep, System, update, fall_asleep, pass, wake, Step, wait, broadcast, init,
  Reach, start, later,
}
use coronas.Shmem.Barrier.Safety.{left-le-entered, barrier_moves, spurious_escape}

abbrev one_waiting : System
one_waiting = record {
  barrier = record { num_waiting = 1; num_procs = 2 };
  process = update (init 2).process 0 (fall_asleep ((init 2).process 0));
}

abbrev both_called : System
both_called = record {
  barrier = record { num_waiting = 0; num_procs = 2 };
  process = update (λ j. wake (one_waiting.process j)) 1 (pass (one_waiting.process 1));
}

both_called-Reach : Reach false 2 both_called
unfolding sysv_barrier_create
both_called-Reach =
    let first : Step false (init 2) one_waiting = wait 0 (omega arith) refl (omega arith) in
    let second : Step false one_waiting both_called =
      broadcast 1 (omega arith) refl (omega arith) in
    later (later start first) second

left-le-entered_example : (both_called.process 1).left ≤ (both_called.process 0).entered
left-le-entered_example = left-le-entered 1 0 both_called-Reach (omega arith) (omega arith)

barrier_moves_example :
    ((j : ℕ) × (j < 2) × ((both_called.process j).pc ≢ asleep))
    × ((t : System) × Step false both_called t)
barrier_moves_example = barrier_moves both_called-Reach (omega arith)

spurious_escape_example :
    (s : System) × Reach true 2 s × ((s.process 0).left ≡ 1) × ((s.process 1).entered ≡ 0)
spurious_escape_example = spurious_escape 2 (omega arith)
