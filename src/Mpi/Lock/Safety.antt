-- ===== src/Mpi/Lock/Safety.antt =====
-- What holds in every state that the lock of dart_synchronization.c can reach.
use coronas.Prelude.{
  ℕ, suc, ◌<◌, ◌≡◌, refl, sym, subst, ◌⊎◌, inl, inr, true, false, ◌&&◌, none, some, arith,
  Option-cases,
}
use mathlib.Core.Path.{fun_ext}
use coronas.Mpi.Lock.{
  holding, holds, update, Cells, Pc, idle, linking, waiting, polling, notifying, clearing, System,
  Step, Reach, start, later, pick, Move, acquire_again, acquire_free, acquire_queued, link, receive,
  try_again, try_won, try_lost, release_again, release_last, release_queued, poll, polled, notify,
  clear,
}
use coronas.Mpi.Lock.Invariant.{Inv, Inv-init, Fits}
use coronas.Mpi.Lock.Places.{owner_at, outside}
use coronas.Mpi.Lock.Acquire.{enter_empty, enter_queue, join, accept}
use coronas.Mpi.Lock.Release.{leave, want_to_leave, see_next, hand_over, finish_release}

-- A move that changes nothing.
update_same : (pc : ℕ → Pc) (i : ℕ) (p : Pc) → pc i ≡ p → update pc i p ≡ pc
update_same pc i p e = fun_ext (λ j. ground (arith, e))

stay :
    {m : Cells} {pc : ℕ → Pc} (inv : Inv m pc) (i : ℕ) (p : Pc) → pc i ≡ p → Inv m (update pc i p)
stay {m} {pc} inv i p e = subst (Inv m) (sym (update_same pc i p e)) inv

Move-Inv :
    {m : Cells} {pc : ℕ → Pc} {p : Pc} (i : ℕ) {m' : Cells} {p' : Pc}
    → Inv m pc
    → pc i ≡ p
    → Move i m p m' p'
    → Inv m' (update pc i p')
Move-Inv i inv e (acquire_again h) = stay inv i idle e
Move-Inv i inv e (acquire_free h t) = enter_empty inv i e h t
Move-Inv i inv e (acquire_queued {p} h t) = enter_queue inv i p e h t
Move-Inv i inv e (link {p}) = join inv i p e
Move-Inv i inv e (receive {p} h) = accept inv i p e h
Move-Inv i inv e (try_again h) = stay inv i idle e
Move-Inv i inv e (try_won h t) = enter_empty inv i e h t
Move-Inv i inv e (try_lost h t) = stay inv i idle e
Move-Inv i inv e (release_again h) = stay inv i idle e
Move-Inv i inv e (release_last h t) = leave inv i e h t
Move-Inv i inv e (release_queued h t) = want_to_leave inv i e h t
Move-Inv i inv e (poll h) = stay inv i polling e
Move-Inv i inv e (polled {j} h) = see_next inv i j e h
Move-Inv i inv e (notify {j}) = hand_over inv i j e
Move-Inv i inv e clear = finish_release inv i e

Step-Inv : {s t : System} → Step s t → Inv s.cells s.pc → Inv t.cells t.pc
Step-Inv (pick i mv) inv = Move-Inv i inv refl mv

pub Reach-Inv : {s : System} → Reach s → Inv s.cells s.pc
Reach-Inv start = Inv-init
Reach-Inv (later r st) = Step-Inv st (Reach-Inv r)

-- In every reachable state at most one unit holds the lock.
pub mutual_exclusion :
    (s : System) (i j : ℕ) → Reach s → holds s i ≡ true → holds s j ≡ true → i ≡ j
mutual_exclusion s i j r a b =
    let inv = Reach-Inv r in
    inv.unique i j inv.head (owner_at inv i (ground (arith, a)) (λ e. ground (arith, a, e)))
      (owner_at inv j (ground (arith, b)) (λ e. ground (arith, b, e)))

-- The unit at the head has the lock, or a message to it is on the way.
head_status :
    {m : Cells} {pc : ℕ → Pc} (inv : Inv m pc) (j : ℕ) (p : Pc)
    → pc j ≡ p
    → Fits m inv.head inv.finish inv.ticket j (some inv.head) p
    → ((m.is_acquired j && holding (pc j)) ≡ true)
      ⊎ ((q : ℕ) × (pc j ≡ waiting q) × (0 < m.sent q j))
head_status inv j idle e (a, _) = inl (ground (arith, a, e))
head_status inv j (linking q) e (_, less, _, _) = absurd (omega (arith, less))
head_status inv j (waiting q) e (_, inl (_, one)) = inr (q, e, omega (arith, one))
head_status inv j (waiting q) e (_, inr (less, _, _, _)) = absurd (omega (arith, less))
head_status inv j polling e (a, _, _) = inl (ground (arith, a, e))
head_status inv j (notifying n) e (a, _, _, _) = inl (ground (arith, a, e))
head_status inv j clearing e f = absurd f

-- In every reachable state in which a unit waits for its message, a unit holds the lock, or a message
-- is on the way to a unit that waits for it.
pub lock_not_lost :
    (s : System) (i p : ℕ)
    → Reach s
    → s.pc i ≡ waiting p
    → (j : ℕ) × ((holds s j ≡ true) ⊎ ((q : ℕ) × (s.pc j ≡ waiting q) × (0 < s.cells.sent q j)))
lock_not_lost s i p r here =
    let inv = Reach-Inv r in
    let more : inv.head < inv.finish = elim (Option-cases (inv.ticket i)) [
      | inl e ↦ absurd (ground (arith, inv.fits i, here, e))
      | inr (t, e) ↦ ground (arith, inv.range i t, e)
    ] in
    let (j, at) = inv.covered inv.head (omega arith) more in
    (
      j,
      head_status inv j (s.pc j) refl
          (subst (λ o. Fits s.cells inv.head inv.finish inv.ticket j o (s.pc j)) at (inv.fits j)),
    )

-- The unit behind the head is about to link itself, or has done so.
follower :
    {m : Cells} {pc : ℕ → Pc} (inv : Inv m pc) (j : ℕ) (p : Pc)
    → pc j ≡ p
    → Fits m inv.head inv.finish inv.ticket j (some (suc inv.head)) p
    → (i : ℕ) → inv.ticket i ≡ some inv.head
    → (m.next i ≡ some j) ⊎ (pc j ≡ linking i)
follower inv j idle e (_, t) i at = absurd (omega (arith, t))
follower inv j (linking q) e (_, less, before, _) i at =
    inr (ground (arith, e, inv.unique q i inv.head, before, at))
follower inv j (waiting q) e (_, inl (t, _)) i at = absurd (omega (arith, t))
follower inv j (waiting q) e (_, inr (less, before, next, _)) i at =
    inl (ground (arith, next, inv.unique q i inv.head, before, at))
follower inv j polling e (_, t, _) i at = absurd (omega (arith, t))
follower inv j (notifying n) e (_, t, _, _) i at = absurd (omega (arith, t))
follower inv j clearing e f i at = absurd f

-- In every reachable state a release that polls its next pointer finds it set, or a unit is about to
-- set it.
polling_ends :
    (s : System) (i : ℕ)
    → Reach s
    → s.pc i ≡ polling
    → (j : ℕ) × ((s.cells.next i ≡ some j) ⊎ (s.pc j ≡ linking i))
polling_ends s i r here =
    let inv = Reach-Inv r in
    let at : inv.ticket i ≡ some inv.head = elim (Option-cases (inv.ticket i)) [
      | inl e ↦ absurd (ground (arith, inv.fits i, here, e))
      | inr (t, e) ↦ ground (arith, inv.fits i, here, e)
    ] in
    let (j, behind) =
      inv.covered (suc inv.head) (omega arith) (ground (arith, inv.fits i, here, at)) in
    (
      j,
      follower inv j (s.pc j) refl
          (subst (λ o. Fits s.cells inv.head inv.finish inv.ticket j o (s.pc j)) behind
            (inv.fits j))
          i at,
    )

-- In every reachable state in which no unit is in an operation or has the lock, the tail, the next
-- pointers and the messages are as at the start.
lock_restored :
    (s : System)
    → Reach s
    → ((i : ℕ) → (s.pc i ≡ idle) × (s.cells.is_acquired i ≡ false))
    → (s.cells.tail ≡ none) × ((i : ℕ) → s.cells.next i ≡ none) × ((p i : ℕ) → s.cells.sent p i ≡ 0)
lock_restored s r quiet =
    let inv = Reach-Inv r in
    let out = λ (i : ℕ). outside inv i (quiet i).0 (quiet i).1 in
    (
      elim (Option-cases s.cells.tail) [
        | inl e ↦ e
        | inr (k, e) ↦ absurd (ground (arith, inv.tail_is, e, out k))
      ],
      λ i. ground (arith, inv.fits i, out i, quiet i),
      λ p i. ground (arith, inv.mail p i, out i),
    )
