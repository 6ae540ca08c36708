-- ===== src/Mpi/Teamlist/Convert.antt =====
-- `dart_adapt_teamlist_convert` of dart_team_private.c.
use coronas.Prelude.{
  ℕ, ◌≡◌, refl, ap, ◌∙◌, ◌≢◌, inl, inr, Option, none, some, List, [], ◌∷◌, ◌++◌, arith, Bool-cases,
  length, get_elem?,
}
use coronas.Prelude.Int.{eqb_ℤ_iff, ℤ}
use coronas.Mpi.Teamlist.{
  eqb_ℤ, found, dart_team_all, dart_adapt_teamlist_convert, Entry, Teamlist,
  dart_adapt_teamlist_alloc,
}
use coronas.Mpi.Teamlist.Search.{find_team_of_get_elem?, find_team-Finds, Finds, IsIncreasing}
use coronas.Mpi.Teamlist.Alloc.{IsTeamlist, AllBelow, Allocates, dart_adapt_teamlist_alloc_lem}

-- In a well-formed table the search for a team id other than that of DART_TEAM_ALL answers the
-- position and index of its entry, or, if there is none, that there is none.
pub dart_adapt_teamlist_convert-Finds :
    (teamid : ℤ) (t : Teamlist)
    → IsTeamlist t
    → teamid ≢ dart_team_all
    → Finds t.allocated teamid (dart_adapt_teamlist_convert teamid t)
unfolding dart_adapt_teamlist_convert
dart_adapt_teamlist_convert-Finds teamid t h n = elim (Bool-cases (eqb_ℤ teamid dart_team_all)) [
  | inl e ↦ absurd (n ((eqb_ℤ_iff teamid dart_team_all).0 e))
  | inr e ↦ rw e (find_team-Finds t.allocated teamid h.increasing)
]

convert_of_entry :
    (t : Teamlist) (position : ℕ) (e : Entry)
    → IsIncreasing t.allocated
    → e.allocated_teamid ≢ dart_team_all
    → get_elem? t.allocated position ≡ some e
    → dart_adapt_teamlist_convert e.allocated_teamid t ≡ found position e.index
unfolding dart_adapt_teamlist_convert
convert_of_entry t position e s n at = ground (
  arith,
  eqb_ℤ_iff e.allocated_teamid dart_team_all,
  find_team_of_get_elem? t.allocated position e s at,
)

last_cell {ℓ} : {A : Type ℓ} (xs : List A) (y : A) → get_elem? (xs ++ (y ∷ [])) (length xs) ≡ some y
last_cell [] y = refl
last_cell (x ∷ xs) y = last_cell xs y

-- A team id that was just allocated, above all others, is found at the position and with the index
-- that the allocation answered.
convert-alloc :
    (teamid : ℤ) (t : Teamlist) (position index : ℕ)
    → IsTeamlist t
    → AllBelow teamid t.allocated
    → teamid ≢ dart_team_all
    → (dart_adapt_teamlist_alloc teamid t).0 ≡ some (position, index)
    → dart_adapt_teamlist_convert teamid (dart_adapt_teamlist_alloc teamid t).1
      ≡ found position index
convert-alloc teamid t position index h b n granted =
    answer (dart_adapt_teamlist_alloc teamid t) (dart_adapt_teamlist_alloc_lem teamid t h b) granted
  where
    answer :
        (r : Option (ℕ × ℕ) × Teamlist)
        → Allocates teamid t r
        → r.0 ≡ some (position, index)
        → dart_adapt_teamlist_convert teamid r.1 ≡ found position index
    answer (none, t') a e = absurd (cc)
    answer (some (position', index'), t') a e =
        let entry : Entry = record { index = index'; allocated_teamid = teamid } in
        let at : get_elem? t'.allocated position' ≡ some entry =
          ap (get_elem? t'.allocated) a.1
          ∙ ap (λ l. get_elem? l (length t.allocated)) a.2
          ∙ last_cell t.allocated entry in
        convert_of_entry t' position' entry a.0.increasing n at ∙ ground arith
