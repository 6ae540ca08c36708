-- ===== src/Mpi/Globmem/Release.antt =====
-- What a release in dart_globmem.c achieves.
use coronas.Prelude.{◌≡◌, refl, ap, ◌∙◌, true, arith}
use coronas.Prelude.Int.{eqb_ℤ_refl}
use coronas.Types.{dart_ok, Gptr}
use coronas.Mpi.Transtable.{
  Info, Table, value, find_node, dart_adapt_transtable_add, dart_adapt_transtable_get_selfbaseptr,
  dart_adapt_transtable_get_win,
}
use coronas.Mpi.Transtable.Laws.{IsAbsent, IsDistinct, find_node-add, remove-add}
use coronas.Mpi.Globmem.{dart_adapt_transtable_remove, Memory, Windows}
use coronas.Mpi.Globmem.Segments.{removed, dart_team_memfree, dart_team_memderegister}

find_added :
    (t : Table) (item : Info)
    → IsDistinct t
    → IsAbsent item.seg_id t
    → find_node item.seg_id (dart_adapt_transtable_add t item) ≡ value item
find_added t item d a = (find_node-add t item d a).1 item.seg_id ∙ rw (eqb_ℤ_refl item.seg_id) refl

-- Where the table of segments is a table with distinct ids to which an entry with a new id was added,
-- the release of a pointer to that entry, by dart_team_memfree if its window can be freed or by
-- dart_team_memderegister, answers DART_OK and restores the table.
memfree-add :
    (w : Windows) (m : Memory) (t : Table) (item : Info) (gptr : Gptr)
    → IsDistinct t
    → IsAbsent item.seg_id t
    → gptr.segid ≡ item.seg_id
    → m.transtable ≡ dart_adapt_transtable_add t item
    → w.win_free item.win ≡ true
    → (dart_team_memfree w m gptr ≡ value (dart_ok, record m { transtable = t }))
      × (dart_team_memderegister m gptr ≡ value (dart_ok, record m { transtable = t }))
memfree-add w m t item gptr d a s e f = (
  unfold dart_team_memfree removed in ground (arith, base, win, gone, f),
  unfold dart_team_memderegister removed in ground (arith, base, gone),
)
  where
    at_pointer : find_node gptr.segid m.transtable ≡ value item
    at_pointer =
        ap (find_node gptr.segid) e
        ∙ ap (λ i. find_node i (dart_adapt_transtable_add t item)) s
        ∙ find_added t item d a

    base : dart_adapt_transtable_get_selfbaseptr gptr.segid m.transtable ≡ value item.selfbaseptr
    base = unfold dart_adapt_transtable_get_selfbaseptr in rw at_pointer refl

    win : dart_adapt_transtable_get_win gptr.segid m.transtable ≡ value item.win
    win = unfold dart_adapt_transtable_get_win in rw at_pointer refl

    gone : dart_adapt_transtable_remove gptr.segid m.transtable ≡ value t
    gone =
        ap (dart_adapt_transtable_remove gptr.segid) e
        ∙ ap (λ i. dart_adapt_transtable_remove i (dart_adapt_transtable_add t item)) s
        ∙ remove-add t item a
