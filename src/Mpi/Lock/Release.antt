-- ===== src/Mpi/Lock/Release.antt =====
-- The moves of a release in dart_synchronization.c keep the queue.
use coronas.Prelude.{ℕ, suc, ◌+◌, ◌≡◌, ◌≢◌, true, false, none, some, arith}
use coronas.Mpi.Lock.{notifying, polling, clearing, Cells, Pc, idle, update, grant}
use coronas.Mpi.Lock.Invariant.{Inv}
use coronas.Mpi.Lock.Places.{last_next, owner_at, alone, owned, told_at}

module _ {m : Cells} {pc : ℕ → Pc} (inv : Inv m pc) (i : ℕ) where
  open inv use {head, finish, ticket, ordered, range, unique, covered, fits, tail_is, link_is, mail}

  pub leave :
      pc i ≡ idle
      → m.is_acquired i ≡ true
      → m.tail ≡ some i
      → Inv (grant i false (record m { tail = none })) (update pc i idle)
  leave here held last =
      let at = owner_at inv i held (λ e. cc) in
      let one : suc head ≡ finish = ground (arith, at, tail_is, last) in
      record {
        head = suc head;
        finish = finish;
        ticket = update ticket i none;
        ordered = omega (arith, one);
        range = λ j t e. ground (arith, alone inv i at one j);
        unique = λ j k t e f. ground (arith, unique j k t);
        covered = λ t a b. absurd (omega (arith, one));
        fits = λ j. ground (arith, fits j, alone inv i at one j, last_next inv i i head, at, one);
        tail_is = one;
        link_is =
            λ j. ground (arith, link_is j, alone inv i at one j, last_next inv i i head, at, one);
        mail = λ q j h. ground (arith, mail q j, alone inv i at one j, here);
      }

  pub want_to_leave :
      pc i ≡ idle → m.is_acquired i ≡ true → m.tail ≢ some i → Inv m (update pc i polling)
  want_to_leave here held other =
      let at = owner_at inv i held (λ e. cc) in
      let more = owned inv i here held other in
      record {
        head = head;
        finish = finish;
        ticket = ticket;
        ordered = ordered;
        range = range;
        unique = unique;
        covered = covered;
        fits = λ j. ground (arith, fits j, at, more, held);
        tail_is = tail_is;
        link_is = λ j. ground (arith, link_is j, here);
        mail = λ q j h. ground (arith, mail q j, here);
      }

  pub see_next : (n : ℕ) → pc i ≡ polling → m.next i ≡ some n → Inv m (update pc i (notifying n))
  see_next n here e = record {
    head = head;
    finish = finish;
    ticket = ticket;
    ordered = ordered;
    range = range;
    unique = unique;
    covered = covered;
    fits = λ j. ground (arith, fits j, here, e);
    tail_is = tail_is;
    link_is = λ j. ground (arith, link_is j, here);
    mail = λ q j h. ground (arith, mail q j, here);
  }

  pub hand_over :
      (n : ℕ)
      → pc i ≡ notifying n
      → Inv
          (record m { sent = update m.sent i (update (m.sent i) n (m.sent i n + 1)) })
          (update pc i clearing)
  hand_over n here =
      let (at, more, next, behind, waits, none_yet) = told_at inv i n here in
      record {
        head = suc head;
        finish = finish;
        ticket = update ticket i none;
        ordered = omega (arith, more);
        range = λ j t e. ground (arith, range j t, unique j i t, at);
        unique = λ j k t e f. ground (arith, unique j k t);
        covered =
            λ t a b. let (j, e) = covered t (omega (arith, a)) b in (j, ground (arith, e, at));
        fits = λ j. ground (
          arith,
          fits j,
          fits i,
          here,
          at,
          behind,
          waits,
          none_yet,
          unique j i head,
          unique j n (suc head),
          range j,
        );
        tail_is = ground (arith, tail_is, at, more);
        link_is = λ j. ground (arith, link_is j, at, here, range j);
        mail =
            λ q j h. ground (arith, mail q j, at, behind, waits, none_yet, unique j i head, here);
      }

  pub finish_release :
      pc i ≡ clearing
      → Inv (grant i false (record m { next = update m.next i none })) (update pc i idle)
  finish_release here = record {
    head = head;
    finish = finish;
    ticket = ticket;
    ordered = ordered;
    range = range;
    unique = unique;
    covered = covered;
    fits = λ j. ground (arith, fits j, fits i, here);
    tail_is = tail_is;
    link_is = λ j. ground (arith, link_is j, here);
    mail = λ q j h. ground (arith, mail q j, here);
  }
