-- ===== src/Mpi/Globmem/Publish.antt =====
-- What a collective allocation or registration of dart_globmem.c achieves.
use coronas.Prelude.{
  ℕ, suc, ◌<◌, ◌≡◌, refl, ◌≢◌, ◌⊎◌, [], ◌∷◌, Option, none, some, arith, if◌then◌else◌,
}
use coronas.Prelude.Int.{ℤ, eqb_ℤ}
use coronas.Types.{DartRet, dart_ok, Gptr}
use coronas.Mpi.Transtable.{Info, Answer, value, invalid, undefined, find_node}
use coronas.Mpi.Teamlist.{
  Teamlist, Converted, found, not_found, no_rounds, dart_adapt_teamlist_convert,
}
use coronas.Mpi.Globmem.Segments.{register_at, register_team, dart_team_memregister_aligned}
use coronas.Mpi.Transtable.Laws.{IsAbsent, find_node-add}
use coronas.Mpi.Globmem.{
  neg_part, pred_int16, dart_adapt_teamlist_convert, dart_err_inval, found, Converted, Teamlist,
  dart_err_other, failed, Answer, Memory, Windows, Allocated,
}
use coronas.Mpi.Globmem.Ids.{AllInRange-mono, AllInRange-add, IsMemory, fresh}

-- Either an error with no pointer and no change; or a pointer with offset 0 to a segment whose id no
-- other has, which is in the table while every other id means what it meant.
abbrev pub Publishes : Memory → Option Gptr → DartRet → Memory → Type 0
Publishes m none ret after = (ret ≢ dart_ok) × (after ≡ m)
Publishes m (some g) ret after =
    (ret ≡ dart_ok)
    × IsMemory after
    × (g.offset ≡ 0)
    × IsAbsent g.segid m.transtable
    × ((item : Info) × ((s : ℤ)
          → find_node s after.transtable
            ≡ (if eqb_ℤ s g.segid then value item else find_node s m.transtable)))

-- What the call leaves behind in MPI: with a pointer just the window and the memory of its segment;
-- with an error nothing, or, with DART_ERR_OTHER, the one window that it made.
abbrev pub Leaves : Option Gptr → Allocated → Type 0
Leaves none a =
    ((a.windows ≡ []) × (a.attachments ≡ []))
    ⊎ ((a.ret ≡ dart_err_other) × (win : ℕ) × (a.windows ≡ win ∷ []))
Leaves (some g) a =
    (item : Info) × (find_node g.segid a.memory.transtable ≡ value item)
    × (a.windows ≡ item.win ∷ [])
    × (a.attachments ≡ item.selfbaseptr ∷ [])

abbrev pub Published : Memory → Allocated → Type 0
Published m a = Publishes m a.gptr a.ret a.memory

register_at-Published :
    (w : Windows) (m : Memory) (index nbytes addr disp : ℕ)
    → IsMemory m
    → neg_part m.registermemid < 32768
    → Published m (register_at w m index nbytes addr disp)
unfolding register_at pred_int16
register_at-Published w m index nbytes addr disp h small =
    let item : Info = record {
      seg_id = m.registermemid;
      size = nbytes;
      disp = w.allgather index disp;
      baseptr = none;
      selfbaseptr = addr;
      win = 0;
    } in
    let (distinct, lookup) = find_node-add m.transtable item h.distinct (fresh m h).1 in
    (
      refl,
      record {
        next = h.next;
        next_registered = suc h.next_registered;
        memid_is = h.memid_is;
        registermemid_is = rw h.registermemid_is (ground (arith, small, h.registermemid_is));
        positive = h.positive;
        distinct = distinct;
        in_range =
            AllInRange-add h.next (suc h.next_registered) m.transtable item
              (AllInRange-mono h.next h.next_registered h.next (suc h.next_registered) m.transtable
                (omega arith) (omega arith) h.in_range)
              (rw h.registermemid_is (omega arith));
      },
      refl,
      (fresh m h).1,
      (item, lookup),
    )

failed-Published : (m : Memory) (ret : DartRet) → ret ≢ dart_ok → Published m (failed ret m)
failed-Published m ret n = (n, refl)

-- The same of a registration, whose outcome is undefined where MPI gives no address.
abbrev pub PublishedIn : Memory → Answer Allocated → Type 0
PublishedIn m (value a) = Published m a
PublishedIn m invalid = ⊥
PublishedIn m undefined = Unit

-- While fewer than 32768 ids were given out for registrations, and in memory where the ids in the
-- table are distinct and given out, a registration either answers an error and changes nothing, or
-- answers a pointer with offset 0 to a new segment, keeps the ids distinct and leaves what every
-- other id means, or its outcome is undefined.
dart_team_memregister_aligned_lem :
    (w : Windows) (t : Teamlist) (m : Memory) (teamid : ℤ) (nbytes addr : ℕ)
    → IsMemory m
    → neg_part m.registermemid < 32768
    → PublishedIn m (dart_team_memregister_aligned w t m teamid nbytes addr)
unfolding dart_team_memregister_aligned
dart_team_memregister_aligned_lem w t m teamid nbytes addr h small =
    on_team (dart_adapt_teamlist_convert teamid t) (w.get_address addr)
  where
    on_team : (c : Converted) (o : Option ℕ) → PublishedIn m (register_team w m nbytes addr o c)
    on_team (found position index) none = unfold register_team in tt
    on_team (found position index) (some disp) =
        unfold register_team in register_at-Published w m index nbytes addr disp h small
    on_team not_found o = unfold register_team in failed-Published m dart_err_inval (λ e. cc)
    on_team no_rounds o = unfold register_team in failed-Published m dart_err_inval (λ e. cc)
