-- ===== src/Shmem/Barrier/Safety.antt =====
-- What the barrier promises, and what a wakeup without a broadcast does to it.
use coronas.Prelude.{
  ℕ, zero, suc, ◌+◌, ◌≤◌, ◌<◌, ◌≡◌, refl, ap, ◌≢◌, ◌⊎◌, inl, inr, true, false, arith, dec_lt,
}
use coronas.Shmem.Barrier.{
  sysv_barrier_create, Pc, outside, asleep, woken, Process, System, update, fall_asleep, wake,
  come_back, Step, wait, broadcast, unlock, wake_up, init, Reach, start, later,
}
use coronas.Shmem.Barrier.Invariant.{InRound, sleepers, sleeps, Reach-Inv}

left-le : {k : ℕ} (c : Pc) (e l : ℕ) → InRound k c e l → (l ≤ k) × (k ≤ e)
left-le outside e l h = omega (arith, h)
left-le asleep e l h = omega (arith, h)
left-le woken e l h = omega (arith, h)

-- Where pthread_cond_wait never returns without a broadcast, in every reachable state of a barrier
-- of n processes, no process has come back from the barrier more often than any other has called it.
pub left-le-entered :
    {n : ℕ} {s : System} (i j : ℕ)
    → Reach false n s
    → i < n
    → j < n
    → (s.process i).left ≤ (s.process j).entered
left-le-entered {s = s} i j r hi hj =
    let v = Reach-Inv r in
    let p = s.process i in
    let q = s.process j in
    omega (
      arith,
      left-le p.pc p.entered p.left (v.fits i hi),
      left-le q.pc q.entered q.left (v.fits j hj),
    )

Pc-cases : (c : Pc) → (c ≡ outside) ⊎ ((c ≡ woken) ⊎ (c ≡ asleep))
Pc-cases outside = inl refl
Pc-cases woken = inr (inl refl)
Pc-cases asleep = inr (inr refl)

-- A process that is not asleep.
abbrev Awake : (ℕ → Process) → ℕ → Type 0
Awake f j = ((f j).pc ≡ outside) ⊎ ((f j).pc ≡ woken)

find-Awake : (f : ℕ → Process) (n : ℕ) → sleepers f n < n → (j : ℕ) × (j < n) × Awake f j
find-Awake f zero h = absurd (omega (arith, h))
find-Awake f (suc n) h = elim (Pc-cases (f n).pc) [
  | inl o ↦ (n, omega arith, inl o)
  | inr (inl w) ↦ (n, omega arith, inr w)
  | inr (inr a) ↦
      let (j, l, aw) = find-Awake f n (omega (arith, h, ap sleeps a)) in (j, omega (arith, l), aw)
]

awake_moves :
    {s : System} (j : ℕ)
    → j < s.barrier.num_procs
    → Awake s.process j
    → (t : System) × Step false s t
awake_moves {s} j h (inl o) = elim (dec_lt (s.barrier.num_waiting + 1) s.barrier.num_procs) [
  | yes l ↦ (_, wait j h o l)
  | no l ↦ (_, broadcast j h o (omega (arith, l)))
]
awake_moves j h (inr w) = (_, unlock j h w)

-- Where pthread_cond_wait never returns without a broadcast, in every reachable state of a barrier
-- of at least one process some process is not asleep, and the processes have a move.
pub barrier_moves :
    {n : ℕ} {s : System}
    → Reach false n s
    → 0 < n
    → ((j : ℕ) × (j < n) × ((s.process j).pc ≢ asleep)) × ((t : System) × Step false s t)
barrier_moves {s = s} r h =
    let v = Reach-Inv r in
    let (j, l, aw) = find-Awake s.process _ (omega (arith, v.counted, v.room h)) in
    ((j, l, not_asleep aw), awake_moves j (omega (arith, l, v.procs)) aw)
  where
    not_asleep : {c : Pc} → (c ≡ outside) ⊎ (c ≡ woken) → c ≢ asleep
    not_asleep (inl o) a = cc
    not_asleep (inr w) a = cc

abbrev one_waits : ℕ → System
one_waits n = record {
  barrier = record { num_waiting = 1; num_procs = n };
  process = update (init n).process 0 (fall_asleep ((init n).process 0));
}

abbrev one_wakes : ℕ → System
one_wakes n = record {
  barrier = (one_waits n).barrier;
  process = update (one_waits n).process 0 (wake ((one_waits n).process 0));
}

abbrev one_leaves : ℕ → System
one_leaves n = record {
  barrier = (one_wakes n).barrier;
  process = update (one_wakes n).process 0 (come_back ((one_wakes n).process 0));
}

-- Where pthread_cond_wait may return without a broadcast, for every number of processes above 1 a
-- state can be reached in which one has come back and another has not called the barrier.
pub spurious_escape :
    (n : ℕ)
    → 1 < n
    → (s : System) × Reach true n s × ((s.process 0).left ≡ 1) × ((s.process 1).entered ≡ 0)
unfolding sysv_barrier_create
spurious_escape n h =
    let first : Step true (init n) (one_waits n) =
      wait 0 (omega (arith, h)) refl (omega (arith, h)) in
    let second : Step true (one_waits n) (one_wakes n) = wake_up 0 refl (omega (arith, h)) refl in
    let third : Step true (one_wakes n) (one_leaves n) = unlock 0 (omega (arith, h)) refl in
    (one_leaves n, later (later (later start first) second) third, refl, refl)
