-- ===== src/Shmem/Barrier/Invariant.antt =====
-- How many processes sleep at the barrier, and in which round each process is.
use coronas.Prelude.{
  ℕ, zero, suc, ◌+◌, ◌≤◌, ◌<◌, ◌≡◌, refl, sym, ap, subst, ◌∙◌, ◌≢◌, false, arith, ℕ_discrete,
}
use coronas.Shmem.Barrier.{
  sysv_barrier_create, Pc, outside, asleep, woken, Process, System, update, fall_asleep, pass, wake,
  wake_pc, come_back, Step, wait, broadcast, unlock, wake_up, init, Reach, start, later,
}

abbrev pub sleeps : Pc → ℕ
sleeps asleep = 1
sleeps outside = 0
sleeps woken = 0

-- How many of the first `n` processes are asleep.
abbrev pub sleepers : (ℕ → Process) → ℕ → ℕ
sleepers f zero = 0
sleepers f (suc n) = sleeps (f n).pc + sleepers f n

-- What is true of a process while `k` rounds are complete.
abbrev pub InRound : (k : ℕ) → Pc → (entered left : ℕ) → Type 0
InRound k outside e l = (e ≡ k) × (l ≡ k)
InRound k asleep e l = (e ≡ k + 1) × (l ≡ k)
InRound k woken e l = (e ≡ k) × (l + 1 ≡ k)

abbrev pub Fits : ℕ → Process → Type 0
Fits k p = InRound k p.pc p.entered p.left

pub record Inv (n : ℕ) (s : System) : Type 0 where
  pub procs : s.barrier.num_procs ≡ n
  pub round : ℕ
  pub fits : (i : ℕ) → i < n → Fits round (s.process i)
  pub counted : sleepers s.process n ≡ s.barrier.num_waiting
  pub room : (0 < n) → s.barrier.num_waiting < n

sleeps-le : (c : Pc) → sleeps c ≤ 1
sleeps-le outside = omega arith
sleeps-le asleep = omega arith
sleeps-le woken = omega arith

pub sleepers-le : (f : ℕ → Process) (n : ℕ) → sleepers f n ≤ n
sleepers-le f zero = omega arith
sleepers-le f (suc n) = omega (arith, sleepers-le f n, sleeps-le (f n).pc)

-- A process past those that are counted does not matter.
sleepers-update_ge :
    (f : ℕ → Process) (i n : ℕ) (p : Process) → n ≤ i → sleepers (update f i p) n ≡ sleepers f n
sleepers-update_ge f i zero p h = refl
sleepers-update_ge f i (suc n) p h =
    ground (arith, h, sleepers-update_ge f i n p (omega (arith, h)))

pub sleepers-update :
    (f : ℕ → Process) (i n : ℕ) (p : Process)
    → i < n
    → sleepers (update f i p) n + sleeps (f i).pc ≡ sleepers f n + sleeps p.pc
sleepers-update f i zero p h = absurd (omega (arith, h))
sleepers-update f i (suc n) p h = elim (ℕ_discrete n i) [
  | yes e ↦ ground (arith, e, sleepers-update_ge f i n p (omega (arith, e)))
  | no e ↦ ground (arith, e, sleepers-update f i n p (omega (arith, e, h)))
]

is_asleep : (c : Pc) → sleeps c ≡ 1 → c ≡ asleep
is_asleep outside h = absurd (omega (arith, h))
is_asleep asleep h = refl
is_asleep woken h = absurd (omega (arith, h))

all_asleep : (f : ℕ → Process) (n j : ℕ) → n ≤ sleepers f n → j < n → (f j).pc ≡ asleep
all_asleep f zero j h k = absurd (omega (arith, k))
all_asleep f (suc n) j h k = elim (ℕ_discrete j n) [
  | yes e ↦
      is_asleep (f j).pc
        (ap (λ i. sleeps (f i).pc) e ∙ omega (arith, h, sleepers-le f n, sleeps-le (f n).pc))
  | no e ↦
      all_asleep f n j (omega (arith, h, sleepers-le f n, sleeps-le (f n).pc)) (omega (arith, e, k))
]

-- Where all but one of the processes sleep, all others do.
others_asleep :
    (f : ℕ → Process) (n i j : ℕ)
    → i < n
    → j < n
    → j ≢ i
    → (f i).pc ≡ outside
    → n ≤ sleepers f n + 1
    → (f j).pc ≡ asleep
others_asleep f n i j hi hj ne o all =
    let g = update f i (fall_asleep (f i)) in
    let more : n ≤ sleepers g n =
      omega (arith, all, sleepers-update f i n (fall_asleep (f i)) hi, ap sleeps o) in
    let same : g j ≡ f j = ground (arith, ne) in
    ap (λ p. p.pc) (sym same) ∙ all_asleep g n j more hj

none_asleep : (f : ℕ → Process) (n : ℕ) → sleepers (λ j. wake (f j)) n ≡ 0
none_asleep f zero = refl
none_asleep f (suc n) = omega (arith, none_asleep f n, woken_up (f n).pc)
  where
    woken_up : (c : Pc) → sleeps (wake_pc c) ≡ 0
    woken_up outside = refl
    woken_up asleep = refl
    woken_up woken = refl

-- One process replaced by one that fits.
Fits-update :
    (f : ℕ → Process) (n k i : ℕ) (p : Process)
    → Fits k p
    → ((j : ℕ) → j < n → j ≢ i → Fits k (f j))
    → (j : ℕ) → j < n
    → Fits k (update f i p j)
Fits-update f n k i p here rest j h = elim (ℕ_discrete j i) [
  | yes e ↦ subst (Fits k) (sym (at_self e)) here
  | no e ↦ subst (Fits k) (sym (at_other e)) (rest j h e)
]
  where
    at_self : j ≡ i → update f i p j ≡ p
    at_self e = ground (arith, e)

    at_other : j ≢ i → update f i p j ≡ f j
    at_other e = ground (arith, e)

outside-Fits : {k : ℕ} (p : Process) → p.pc ≡ outside → Fits k p → (p.entered ≡ k) × (p.left ≡ k)
outside-Fits {k} p e h = subst (λ c. InRound k c p.entered p.left) e h

woken-Fits : {k : ℕ} (p : Process) → p.pc ≡ woken → Fits k p → (p.entered ≡ k) × (p.left + 1 ≡ k)
woken-Fits {k} p e h = subst (λ c. InRound k c p.entered p.left) e h

asleep_wakes : (k : ℕ) (p : Process) → p.pc ≡ asleep → Fits k p → Fits (k + 1) (wake p)
asleep_wakes k p e h =
    let (a, b) = subst (λ c. InRound k c p.entered p.left) e h in
    subst (λ c. InRound (k + 1) (wake_pc c) p.entered p.left) (sym e) (a, ap (λ x. x + 1) b)

Inv-init : (n : ℕ) → Inv n (init n)
unfolding sysv_barrier_create
Inv-init n = record {
  procs = refl;
  round = 0;
  fits = λ i h. (refl, refl);
  counted = none_asleep (init n).process n;
  room = λ h. h;
}

-- Without spurious wakeups every move keeps the invariant.
Step-Inv : {n : ℕ} {s t : System} → Step false s t → Inv n s → Inv n t
Step-Inv {n} {s} (wait i hi o h) v =
    let (e, l) = outside-Fits (s.process i) o (v.fits i (omega (arith, hi, v.procs))) in
    record {
      procs = v.procs;
      round = v.round;
      fits =
          Fits-update s.process n v.round i (fall_asleep (s.process i)) (ap (λ x. x + 1) e, l)
            (λ j k _. v.fits j k);
      counted = omega (
        arith,
        v.counted,
        ap sleeps o,
        sleepers-update s.process i n (fall_asleep (s.process i)) (omega (arith, hi, v.procs)),
      );
      room = λ _. omega (arith, h, v.procs);
    }
Step-Inv {n} {s} (broadcast i hi o h) v =
    let (e, l) = outside-Fits (s.process i) o (v.fits i (omega (arith, hi, v.procs))) in
    let f = λ (j : ℕ). wake (s.process j) in
    let inside : i < n = omega (arith, hi, v.procs) in
    record {
      procs = v.procs;
      round = v.round + 1;
      fits =
          Fits-update f n (v.round + 1) i (pass (s.process i))
            (ap (λ x. x + 1) e, ap (λ x. x + 1) l)
            (λ j k ne.
              asleep_wakes v.round (s.process j)
                (others_asleep s.process n i j inside k ne o (omega (arith, h, v.counted, v.procs)))
                (v.fits j k));
      counted = omega (
        arith,
        none_asleep s.process n,
        ap (λ c. sleeps (wake_pc c)) o,
        sleepers-update f i n (pass (s.process i)) inside,
      );
      room = λ p. p;
    }
Step-Inv {n} {s} (unlock i hi o) v =
    let (e, l) = woken-Fits (s.process i) o (v.fits i (omega (arith, hi, v.procs))) in
    record {
      procs = v.procs;
      round = v.round;
      fits =
          Fits-update s.process n v.round i (come_back (s.process i)) (e, l) (λ j k _. v.fits j k);
      counted = omega (
        arith,
        v.counted,
        ap sleeps o,
        sleepers-update s.process i n (come_back (s.process i)) (omega (arith, hi, v.procs)),
      );
      room = v.room;
    }
Step-Inv (wake_up i e hi o) v = absurd (cc)

pub Reach-Inv : {n : ℕ} {s : System} → Reach false n s → Inv n s
Reach-Inv {n} start = Inv-init n
Reach-Inv (later r st) = Step-Inv st (Reach-Inv r)
