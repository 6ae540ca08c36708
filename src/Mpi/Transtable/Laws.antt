-- ===== src/Mpi/Transtable/Laws.antt =====
-- What additions and removals mean for the queries of dart_translation.c.
use coronas.Prelude.{
  ◌≡◌, refl, sym, ap, ◌∙◌, ◌≢◌, inl, inr, [], ◌∷◌, arith, if◌then◌else◌, Bool-cases,
}
use coronas.Prelude.Int.{eqb_ℤ_refl, ℤ, eqb_ℤ, eqb_ℤ_iff}
use coronas.Mpi.Transtable.{
  Info, Table, Answer, value, invalid, undefined, answer_map, unlink, find_node,
  dart_adapt_transtable_add, dart_adapt_transtable_remove,
}

-- No entry has the id.
abbrev pub IsAbsent : ℤ → Table → Type 0
IsAbsent seg_id [] = Unit
IsAbsent seg_id (p ∷ next) = (seg_id ≢ p.seg_id) × IsAbsent seg_id next

-- No two entries have one id.
abbrev pub IsDistinct : Table → Type 0
IsDistinct [] = Unit
IsDistinct (p ∷ next) = IsAbsent p.seg_id next × IsDistinct next

find_node-absent : (s : ℤ) (t : Table) → IsAbsent s t → find_node s t ≡ invalid
unfolding find_node
find_node-absent s [] h = refl
find_node-absent s (p ∷ t) h = ground (arith, eqb_ℤ_iff s p.seg_id, find_node-absent s t h.1)

IsAbsent-add :
    (s : ℤ) (t : Table) (item : Info)
    → s ≢ item.seg_id
    → IsAbsent s t
    → IsAbsent s (dart_adapt_transtable_add t item)
unfolding dart_adapt_transtable_add
IsAbsent-add s [] item n h = (n, tt)
IsAbsent-add s (p ∷ t) item n h = (h.0, IsAbsent-add s t item n h.1)

-- After an item whose id no entry has is added to a table with distinct ids, that id finds the item
-- and every other id what it found before; the ids stay distinct.
pub find_node-add :
    (t : Table) (item : Info)
    → IsDistinct t
    → IsAbsent item.seg_id t
    → IsDistinct (dart_adapt_transtable_add t item)
      × ((s : ℤ)
          → find_node s (dart_adapt_transtable_add t item)
            ≡ (if eqb_ℤ s item.seg_id then value item else find_node s t))
unfolding find_node dart_adapt_transtable_add
find_node-add [] item d h = ((tt, tt), λ s. refl)
find_node-add (p ∷ t) item d h =
    let (d', found) = find_node-add t item d.1 h.1 in
    (
      (IsAbsent-add p.seg_id t item (λ e. h.0 (sym e)) d.0, d'),
      λ s. ground (arith, found s, eqb_ℤ_iff s p.seg_id, eqb_ℤ_iff s item.seg_id),
    )

-- What a removal of `s` leaves.
abbrev pub Removes : ℤ → Table → Answer Table → Type 0
Removes s t (value t') =
    IsDistinct t'
    × ((p : Info) × (find_node s t ≡ value p))
    × ((r : ℤ) → find_node r t' ≡ (if eqb_ℤ r s then invalid else find_node r t))
Removes s t invalid = (t ≢ []) × (find_node s t ≡ invalid)
Removes s t undefined = t ≡ []

abbrev AbsentIn : ℤ → Answer Table → Type 0
AbsentIn r (value t) = IsAbsent r t
AbsentIn r _ = Unit

AbsentIn-cons :
    (r : ℤ) (p : Info) (a : Answer Table)
    → r ≢ p.seg_id
    → AbsentIn r a
    → AbsentIn r (answer_map (λ l. p ∷ l) a)
AbsentIn-cons r p (value t) n h = (n, h)
AbsentIn-cons r p invalid n h = tt
AbsentIn-cons r p undefined n h = tt

AbsentIn-unlink : (s r : ℤ) (t : Table) → IsAbsent r t → AbsentIn r (unlink s t)
unfolding unlink
AbsentIn-unlink s r [] h = tt
AbsentIn-unlink s r (p ∷ t) h = elim (Bool-cases (eqb_ℤ s p.seg_id)) [
  | inl e ↦ rw e h.1
  | inr e ↦ rw e (AbsentIn-cons r p (unlink s t) h.0 (AbsentIn-unlink s r t h.1))
]

-- The same of the loop, which may start at the end of the list.
abbrev Unlinks : ℤ → Table → Answer Table → Type 0
Unlinks s t (value t') =
    IsDistinct t'
    × ((p : Info) × (find_node s t ≡ value p))
    × ((r : ℤ) → find_node r t' ≡ (if eqb_ℤ r s then invalid else find_node r t))
Unlinks s t invalid = find_node s t ≡ invalid
Unlinks s t undefined = ⊥

Unlinks-here :
    (s : ℤ) (p : Info) (t : Table) → s ≡ p.seg_id → IsDistinct (p ∷ t) → Unlinks s (p ∷ t) (value t)
unfolding find_node
Unlinks-here s p t e d = (
  d.1,
  (p, ground (arith, eqb_ℤ_iff s p.seg_id)),
  λ r. ground (
    arith,
    e,
    eqb_ℤ_iff r s,
    eqb_ℤ_iff r p.seg_id,
    eqb_ℤ_iff s p.seg_id,
    find_node-absent p.seg_id t d.0,
  ),
)

Unlinks-cons :
    (s : ℤ) (p : Info) (t : Table) (a : Answer Table)
    → s ≢ p.seg_id
    → IsDistinct (p ∷ t)
    → AbsentIn p.seg_id a
    → Unlinks s t a
    → Unlinks s (p ∷ t) (answer_map (λ l. p ∷ l) a)
unfolding find_node
Unlinks-cons s p t (value t') n d h (d', (q, f), g) = (
  (h, d'),
  (q, ground (arith, eqb_ℤ_iff s p.seg_id)),
  λ r. ground (arith, g r, eqb_ℤ_iff r s, eqb_ℤ_iff r p.seg_id, eqb_ℤ_iff s p.seg_id),
)
Unlinks-cons s p t invalid n d h u = ground (arith, eqb_ℤ_iff s p.seg_id)
Unlinks-cons s p t undefined n d h u = u

unlink-Unlinks : (s : ℤ) (t : Table) → IsDistinct t → Unlinks s t (unlink s t)
unfolding unlink
unlink-Unlinks s [] d = unfold find_node in refl
unlink-Unlinks s (p ∷ t) d = elim (Bool-cases (eqb_ℤ s p.seg_id)) [
  | inl e ↦ rw e (Unlinks-here s p t ((eqb_ℤ_iff s p.seg_id).0 e) d)
  | inr e ↦ rw e (
      Unlinks-cons s p t (unlink s t) (λ q. cc ((eqb_ℤ_iff s p.seg_id).1 q)) d
        (AbsentIn-unlink s p.seg_id t d.0) (unlink-Unlinks s t d.1))
]

remove-unlink :
    (s : ℤ) (p : Info) (t : Table) → dart_adapt_transtable_remove s (p ∷ t) ≡ unlink s (p ∷ t)
unfolding dart_adapt_transtable_remove unlink
remove-unlink s p t = ground arith

Unlinks→Removes :
    (s : ℤ) (p : Info) (t : Table) (a : Answer Table) → Unlinks s (p ∷ t) a → Removes s (p ∷ t) a
Unlinks→Removes s p t (value t') u = u
Unlinks→Removes s p t invalid u = (λ e. cc, u)
Unlinks→Removes s p t undefined u = absurd u

-- On a table with distinct ids a removal takes the entry with the id out and leaves the others and
-- their distinctness, or reports that there is none; on an empty table it is undefined behaviour.
pub dart_adapt_transtable_remove_lem :
    (s : ℤ) (t : Table) → IsDistinct t → Removes s t (dart_adapt_transtable_remove s t)
dart_adapt_transtable_remove_lem s [] d = unfold dart_adapt_transtable_remove in refl
dart_adapt_transtable_remove_lem s (p ∷ t) d =
    rw (remove-unlink s p t) (Unlinks→Removes s p t _ (unlink-Unlinks s (p ∷ t) d))

add-cons :
    (p : Info) (t : Table) (item : Info)
    → dart_adapt_transtable_add (p ∷ t) item ≡ p ∷ dart_adapt_transtable_add t item
unfolding dart_adapt_transtable_add
add-cons p t item = refl

unlink-add :
    (t : Table) (item : Info)
    → IsAbsent item.seg_id t
    → unlink item.seg_id (dart_adapt_transtable_add t item) ≡ value t
unfolding unlink dart_adapt_transtable_add
unlink-add [] item h = rw (eqb_ℤ_refl item.seg_id) refl
unlink-add (p ∷ t) item h =
    ground (arith, eqb_ℤ_iff item.seg_id p.seg_id, h.0, unlink-add t item h.1)

-- To remove an item that was just added, whose id no entry has, restores the table.
pub remove-add :
    (t : Table) (item : Info)
    → IsAbsent item.seg_id t
    → dart_adapt_transtable_remove item.seg_id (dart_adapt_transtable_add t item) ≡ value t
remove-add [] item h =
    unfold dart_adapt_transtable_remove dart_adapt_transtable_add in
    rw (eqb_ℤ_refl item.seg_id) refl
remove-add (p ∷ t) item h =
    ap (dart_adapt_transtable_remove item.seg_id) (add-cons p t item)
    ∙ remove-unlink item.seg_id p (dart_adapt_transtable_add t item)
    ∙ sym (ap (unlink item.seg_id) (add-cons p t item))
    ∙ unlink-add (p ∷ t) item h
