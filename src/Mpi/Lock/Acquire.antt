-- ===== src/Mpi/Lock/Acquire.antt =====
-- The moves of an acquisition in dart_synchronization.c keep the queue.
use coronas.Prelude.{
  ℕ, suc, ◌-◌, ◌<◌, ◌≡◌, inl, inr, true, false, none, some, arith, ◌==◌, Bool-cases,
}
use coronas.Mpi.Lock.{waiting, linking, Cells, Pc, idle, update, grant}
use coronas.Mpi.Lock.Invariant.{Inv}
use coronas.Mpi.Lock.Places.{vacant, outside, last_next, before_head, linking_at}

module _ {m : Cells} {pc : ℕ → Pc} (inv : Inv m pc) (i : ℕ) where
  open inv use {head, finish, ticket, ordered, range, unique, covered, fits, tail_is, link_is, mail}

  pub enter_empty :
      pc i ≡ idle
      → m.is_acquired i ≡ false
      → m.tail ≡ none
      → Inv (grant i true (record m { tail = some i })) (update pc i idle)
  enter_empty here free empty = record {
    head = head;
    finish = suc finish;
    ticket = update ticket i (some finish);
    ordered = omega (arith, ordered);
    range = λ j t e. ground (arith, range j t, ordered);
    unique = λ j k t e f. ground (arith, range j t, range k t, unique j k t);
    covered = λ t a b. (i, ground (arith, tail_is));
    fits = λ j. ground (arith, fits j, vacant inv i empty j, tail_is);
    tail_is = ground (arith, ordered);
    link_is = λ j. ground (arith, link_is j, vacant inv i empty j, fits i, vacant inv i empty i);
    mail = λ p j h. ground (arith, mail p j, vacant inv i empty j);
  }

  pub enter_queue :
      (q : ℕ)
      → pc i ≡ idle
      → m.is_acquired i ≡ false
      → m.tail ≡ some q
      → Inv (record m { tail = some i }) (update pc i (linking q))
  enter_queue q here free last = record {
    head = head;
    finish = suc finish;
    ticket = update ticket i (some finish);
    ordered = omega (arith, ordered);
    range = λ j t e. ground (arith, range j t, ordered);
    unique = λ j k t e f. ground (arith, range j t, range k t, unique j k t);
    covered = λ t a b. elim (Bool-cases (t == finish)) [
      | inl e ↦ (i, ground (arith, e))
      | inr e ↦
          let (j, at) = covered t a (ground (arith, e, b)) in
          (j, ground (arith, at, outside inv i here free))
    ];
    fits = λ j.
        ground
          (arith, fits j, outside inv i here free, tail_is, last, last_next inv i q (finish - 1));
    tail_is = ground (arith, ordered);
    link_is = λ j. ground (arith, link_is j, outside inv i here free);
    mail = λ p j h. ground (arith, mail p j, outside inv i here free);
  }

  pub join :
      (p : ℕ)
      → pc i ≡ linking p
      → Inv (record m { next = update m.next p (some i) }) (update pc i (waiting p))
  join p here = record {
    head = head;
    finish = finish;
    ticket = ticket;
    ordered = ordered;
    range = range;
    unique = unique;
    covered = covered;
    fits = λ j.
        let (t, at, h, q, n) = linking_at inv i p here in
        ground (arith, fits j, fits i, here, mail p i, here, unique j i t, at, q, n, h);
    tail_is = tail_is;
    link_is = λ j. ground (arith, link_is j, fits i, here, range i);
    mail = λ q j h. ground (arith, mail q j, fits i, here);
  }

  pub accept :
      (p : ℕ)
      → pc i ≡ waiting p
      → 0 < m.sent p i
      → Inv
          (grant i true
            (record m { sent = update m.sent p (update (m.sent p) i (m.sent p i - 1)) }))
          (update pc i idle)
  accept p here there = record {
    head = head;
    finish = finish;
    ticket = ticket;
    ordered = ordered;
    range = range;
    unique = unique;
    covered = covered;
    fits = λ j. ground (arith, fits j, mail p i, here, there, unique j i head);
    tail_is = tail_is;
    link_is = λ j. ground (arith, link_is j, mail p i, before_head inv i j i, here, there);
    mail = λ q j h. ground (arith, mail q j, mail p i, unique j i head, here, there);
  }
