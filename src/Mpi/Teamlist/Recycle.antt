-- ===== src/Mpi/Teamlist/Recycle.antt =====
-- `dart_adapt_teamlist_recycle` of dart_team_private.c.
use coronas.Prelude.{
  ℕ, zero, suc, ◌≡◌, refl, sym, ap, ◌∙◌, ◌≢◌, List, [], ◌∷◌, ◌++◌, arith, ltb, if◌then◌else◌,
  length, get_elem?,
}
use coronas.Mpi.Teamlist.{Entry, Teamlist, shift_down, drop_last, dart_adapt_teamlist_recycle}
use coronas.Mpi.Teamlist.Alloc.{free_count, team_count, IsTeamlist, team_count-append}

-- Deletion by shifting.
drop_last-cons : (x : Entry) (zs : List Entry) → zs ≢ [] → drop_last (x ∷ zs) ≡ x ∷ drop_last zs
unfolding drop_last
drop_last-cons x [] h = absurd (h refl)
drop_last-cons x (z ∷ zs) h = refl

shift_down-ne : (p : ℕ) (x : Entry) (xs : List Entry) → shift_down p (x ∷ xs) ≢ []
unfolding shift_down
shift_down-ne zero x [] e = cc
shift_down-ne (suc p) x [] e = cc
shift_down-ne zero x (y ∷ xs) e = cc
shift_down-ne (suc p) x (y ∷ xs) e = cc

shift_down-suc :
    (p : ℕ) (x y : Entry) (xs : List Entry)
    → drop_last (shift_down (suc p) (x ∷ y ∷ xs)) ≡ x ∷ drop_last (shift_down p (y ∷ xs))
unfolding shift_down
shift_down-suc p x y xs = drop_last-cons x (shift_down p (y ∷ xs)) (shift_down-ne p y xs)

shift_down-zero :
    (x y : Entry) (xs : List Entry)
    → drop_last (shift_down 0 (x ∷ y ∷ xs)) ≡ y ∷ drop_last (shift_down 0 (y ∷ xs))
unfolding shift_down
shift_down-zero x y xs = drop_last-cons y (shift_down 0 (y ∷ xs)) (shift_down-ne 0 y xs)

drop_last-shift_down :
    (xs ys : List Entry) (e : Entry)
    → drop_last (shift_down (length xs) (xs ++ (e ∷ ys))) ≡ xs ++ ys
drop_last-shift_down [] [] e = unfold drop_last shift_down in refl
drop_last-shift_down [] (y ∷ ys) e =
    shift_down-zero e y ys ∙ ap (λ l. y ∷ l) (drop_last-shift_down [] ys y)
drop_last-shift_down (x ∷ []) ys e =
    shift_down-suc 0 x e ys ∙ ap (λ l. x ∷ l) (drop_last-shift_down [] ys e)
drop_last-shift_down (x ∷ x' ∷ xs) ys e =
    shift_down-suc (suc (length xs)) x x' (xs ++ (e ∷ ys))
    ∙ ap (λ l. x ∷ l) (drop_last-shift_down (x' ∷ xs) ys e)

-- Where the cells of an array without one entry were before.
old_position : ℕ → ℕ → ℕ
old_position k i = if ltb i k then i else suc i

cell_of_delete :
    (xs ys : List Entry) (e : Entry) (i : ℕ)
    → get_elem? (xs ++ ys) i ≡ get_elem? (xs ++ (e ∷ ys)) (old_position (length xs) i)
unfolding old_position
cell_of_delete [] ys e i = ground arith
cell_of_delete (x ∷ xs) ys e zero = ground arith
cell_of_delete (x ∷ xs) ys e (suc i) = ground (arith, cell_of_delete xs ys e i)

-- In a well-formed table, recycling the position and the index of an entry gives the index back,
-- deletes just that entry and keeps the table well-formed.
dart_adapt_teamlist_recycle_lem :
    (t : Teamlist) (before behind : List Entry) (e : Entry)
    → IsTeamlist t
    → t.allocated ≡ before ++ (e ∷ behind)
    → IsTeamlist (dart_adapt_teamlist_recycle e.index (length before) t)
      × ((dart_adapt_teamlist_recycle e.index (length before) t).allocated ≡ before ++ behind)
      × ((dart_adapt_teamlist_recycle e.index (length before) t).free ≡ e.index ∷ t.free)
unfolding dart_adapt_teamlist_recycle free_count team_count
dart_adapt_teamlist_recycle_lem t before behind e h s = (
  record {
    increasing = λ i j p q l f g.
        h.increasing (old_position (length before) i) (old_position (length before) j) p q
          (unfold old_position in ground arith) (moved i ∙ f) (moved j ∙ g);
    indices = λ i. omega (
      arith,
      h.indices i,
      ap (team_count i) s,
      ap (team_count i) deleted,
      team_count-append i before (e ∷ behind),
      team_count-append i before behind,
    );
  },
  deleted,
  refl,
)
  where
    deleted : drop_last (shift_down (length before) t.allocated) ≡ before ++ behind
    deleted =
        ap (λ l. drop_last (shift_down (length before) l)) s ∙ drop_last-shift_down before behind e

    moved :
        (i : ℕ)
        → get_elem? t.allocated (old_position (length before) i)
          ≡ get_elem? (drop_last (shift_down (length before) t.allocated)) i
    moved i =
        ap (λ l. get_elem? l (old_position (length before) i)) s
        ∙ sym (cell_of_delete before behind e i)
        ∙ sym (ap (λ l. get_elem? l i) deleted)
