-- ===== src/Mpi/Lock/Invariant.antt =====
-- The queue behind the lock of dart_synchronization.c. The tickets `head` to `finish` - 1 stand in
-- it; `ticket` says which unit has which, and none for a unit outside.
use coronas.Prelude.{ℕ, suc, ◌-◌, ◌≤◌, ◌<◌, ◌≡◌, refl, ◌⊎◌, true, false, Option, none, some, arith}
use coronas.Mpi.Lock.{Cells, Pc, idle, linking, waiting, polling, notifying, clearing, init}

-- What the place of a unit in the queue says about it.
abbrev pub Fits :
    (m : Cells) (head finish : ℕ) (ticket : ℕ → Option ℕ) (i : ℕ) → Option ℕ → Pc → Type 0
Fits m head finish ticket i none idle = (m.is_acquired i ≡ false) × (m.next i ≡ none)
Fits m head finish ticket i none clearing = m.is_acquired i ≡ true
Fits m head finish ticket i none _ = ⊥
Fits m head finish ticket i (some t) idle = (m.is_acquired i ≡ true) × (t ≡ head)
Fits m head finish ticket i (some t) (linking p) =
    (m.is_acquired i ≡ false) × (head < t) × (ticket p ≡ some (t - 1)) × (m.next p ≡ none)
Fits m head finish ticket i (some t) (waiting p) =
    (m.is_acquired i ≡ false)
    × (((t ≡ head) × (m.sent p i ≡ 1))
        ⊎ ((head < t) × (ticket p ≡ some (t - 1)) × (m.next p ≡ some i) × (m.sent p i ≡ 0)))
Fits m head finish ticket i (some t) polling =
    (m.is_acquired i ≡ true) × (t ≡ head) × (suc head < finish)
Fits m head finish ticket i (some t) (notifying j) =
    (m.is_acquired i ≡ true) × (t ≡ head) × (suc head < finish) × (m.next i ≡ some j)
Fits m head finish ticket i (some t) clearing = ⊥

-- The last in the queue is the tail, and an empty queue has none.
abbrev pub TailIs : (head finish : ℕ) (ticket : ℕ → Option ℕ) → Option ℕ → Type 0
TailIs head finish ticket none = head ≡ finish
TailIs head finish ticket (some i) = (head < finish) × (ticket i ≡ some (finish - 1))

-- The next pointer of a unit names the unit behind it, which waits for it; that of a unit that has
-- given the lock away is out of use.
abbrev pub LinkIs : (pc : ℕ → Pc) (ticket : ℕ → Option ℕ) (i : ℕ) → Option ℕ → Type 0
LinkIs pc ticket i none = Unit
LinkIs pc ticket i (some j) =
    ((ticket i ≡ none) × (pc i ≡ clearing))
    ⊎ ((t : ℕ) × (ticket i ≡ some t) × (ticket j ≡ some (suc t)) × (pc j ≡ waiting i))

pub record Inv (m : Cells) (pc : ℕ → Pc) : Type 0 where
  pub head : ℕ
  pub finish : ℕ
  pub ticket : ℕ → Option ℕ
  pub ordered : head ≤ finish
  pub range : (i t : ℕ) → ticket i ≡ some t → (head ≤ t) × (t < finish)
  pub unique : (i j t : ℕ) → ticket i ≡ some t → ticket j ≡ some t → i ≡ j
  pub covered : (t : ℕ) → head ≤ t → t < finish → (i : ℕ) × (ticket i ≡ some t)
  pub fits : (i : ℕ) → Fits m head finish ticket i (ticket i) (pc i)
  pub tail_is : TailIs head finish ticket m.tail
  pub link_is : (i : ℕ) → LinkIs pc ticket i (m.next i)
  pub mail :
      (p i : ℕ) → 0 < m.sent p i → (pc i ≡ waiting p) × (ticket i ≡ some head) × (m.sent p i ≡ 1)

pub Inv-init : Inv init.cells init.pc
Inv-init = record {
  head = 0;
  finish = 0;
  ticket = λ i. none;
  ordered = omega arith;
  range = λ i t e. cc;
  unique = λ i j t e f. cc;
  covered = λ t a b. absurd (omega arith);
  fits = λ i. (refl, refl);
  tail_is = refl;
  link_is = λ i. tt;
  mail = λ p i h. absurd (omega (arith, h));
}
