-- ===== src/Mpi/Lock/Places.antt =====
-- Where the units stand in the queue of dart_synchronization.c.
use coronas.Prelude.{
  ℕ, suc, ◌-◌, ◌<◌, ◌≡◌, subst, ◌≢◌, inl, inr, true, false, none, some, arith, dec_lt, Option-cases,
}
use coronas.Mpi.Lock.{notifying, clearing, waiting, linking, Cells, Pc, idle}
use coronas.Mpi.Lock.Invariant.{LinkIs, Inv}

module _ {m : Cells} {pc : ℕ → Pc} (inv : Inv m pc) (i : ℕ) where
  open inv use {head, finish, ticket, ordered, range, unique, covered, fits, tail_is, link_is, mail}

  pub vacant : m.tail ≡ none → (j : ℕ) → ticket j ≡ none
  vacant empty j = elim (Option-cases (ticket j)) [
    | inl e ↦ e
    | inr (t, e) ↦ absurd (ground (arith, range j t, tail_is, empty, e))
  ]

  -- A unit outside the functions without the lock is not in the queue.
  pub outside : pc i ≡ idle → m.is_acquired i ≡ false → ticket i ≡ none
  outside here free = elim (Option-cases (ticket i)) [
    | inl e ↦ e
    | inr (t, e) ↦ absurd (ground (arith, fits i, here, free, e))
  ]

  -- The last unit of the queue has no next pointer.
  pub last_next : (q t : ℕ) → ticket q ≡ some t → suc t ≡ finish → m.next q ≡ none
  last_next q t at e = elim (Option-cases (m.next q)) [
    | inl n ↦ n
    | inr (x, n) ↦ absurd (ground (arith, link_is q, n, range x finish, at, e))
  ]

  pub linked : (j x : ℕ) → m.next j ≡ some x → LinkIs pc ticket j (some x)
  linked j x e = subst (LinkIs pc ticket j) e (link_is j)

  -- What points to the head is out of the queue.
  pub before_head :
      (j x : ℕ) → ticket x ≡ some head → m.next j ≡ some x → (ticket j ≡ none) × (pc j ≡ clearing)
  before_head j x at e = elim (linked j x e) [
    | inl l ↦ l
    | inr (t, a, b, c) ↦ absurd (ground (arith, range j t a, b, at))
  ]

  pub linking_at :
      (p : ℕ)
      → pc i ≡ linking p
      → (t : ℕ) × (ticket i ≡ some t) × (head < t) × (ticket p ≡ some (t - 1)) × (m.next p ≡ none)
  linking_at p here = elim (Option-cases (ticket i)) [
    | inl e ↦ absurd (ground (arith, fits i, here, e))
    | inr (t, e) ↦ (
      t,
      e,
      ground (arith, fits i, here, e),
      ground (arith, fits i, here, e),
      ground (arith, fits i, here, e),
    )
  ]

  -- The owner of the lock is at the head.
  pub owner_at : m.is_acquired i ≡ true → pc i ≢ clearing → ticket i ≡ some head
  owner_at held here = elim (Option-cases (ticket i)) [
    | inl e ↦ absurd (ground (arith, fits i, here, held, e))
    | inr (t, e) ↦ ground (arith, fits i, held, e)
  ]

  pub alone : ticket i ≡ some head → suc head ≡ finish → (j : ℕ) → j ≢ i → ticket j ≡ none
  alone at e j n = elim (Option-cases (ticket j)) [
    | inl f ↦ f
    | inr (t, f) ↦ absurd (n (unique j i head (ground (arith, range j t, e, f)) at))
  ]

  pub owned : pc i ≡ idle → m.is_acquired i ≡ true → m.tail ≢ some i → suc head < finish
  owned here held other =
      let at = owner_at held (λ e. cc) in
      elim (Option-cases m.tail) [
        | inl e ↦ absurd (ground (arith, tail_is, e, range i head, at))
        | inr (k, e) ↦ elim (dec_lt (suc head) finish) [
          | yes l ↦ l
          | no l ↦ absurd (other (ground (arith, e, l, tail_is, unique k i head, at)))
        ]
      ]

  -- The unit that is told stands behind the head and waits for it.
  pub told_at :
      (n : ℕ)
      → pc i ≡ notifying n
      → (ticket i ≡ some head)
        × (suc head < finish)
        × (m.next i ≡ some n)
        × (ticket n ≡ some (suc head))
        × (pc n ≡ waiting i)
        × (m.sent i n ≡ 0)
  told_at n here = elim (Option-cases (ticket i)) [
    | inl e ↦ absurd (ground (arith, fits i, here, e))
    | inr (t, e) ↦
        let next : m.next i ≡ some n = ground (arith, fits i, here, e) in
        let first : t ≡ head = ground (arith, fits i, here, e) in
        let more : suc head < finish = ground (arith, fits i, here, e) in
        elim (linked i n next) [
          | inl l ↦ absurd (ground (arith, l, e))
          | inr (t', a, b, c) ↦
              let same : t' ≡ head = ground (arith, a, e, first) in
              (
                ground (arith, e, first),
                more,
                next,
                ground (arith, b, same),
                c,
                ground (arith, fits n, b, c, same),
              )
        ]
  ]
