-- ===== src/Mpi/Teamlist/Search.antt =====
-- The binary search of `dart_adapt_teamlist_convert` in dart_team_private.c.
use coronas.Prelude.{
  ℕ, zero, suc, ◌+◌, ◌-◌, ◌/◌, ◌≤◌, ◌<◌, ◌≡◌, refl, ◌≢◌, inl, inr, Option, none, some, List, [],
  ◌∷◌, arith, ltb, Bool-cases, length, get_elem?, get_elem?_lt, lt_of_get_elem?,
}
use coronas.Prelude.Int.{eqb_ℤ_iff, ℤ, ltb_ℤ, ◌<ℤ◌}
use coronas.Mpi.Teamlist.{
  Converted, found, not_found, no_rounds, check_cell, find_team, eqb_ℤ, Entry, id_below,
  search_loop,
}

-- The ids increase.
abbrev pub IsIncreasing : List Entry → Type 0
IsIncreasing a =
    (i j : ℕ) (p q : Entry)
    → i < j
    → get_elem? a i ≡ some p
    → get_elem? a j ≡ some q
    → p.allocated_teamid <ℤ q.allocated_teamid

-- Where the id can be, if it is in the array: at a position from `imin` to `imax`.
abbrev Within : List Entry → ℤ → ℕ → ℕ → Type 0
Within a teamid imin imax =
    (i : ℕ) (p : Entry)
    → get_elem? a i ≡ some p
    → p.allocated_teamid ≡ teamid
    → (imin ≤ i) × (i ≤ imax)

-- The loop ends with one candidate.
abbrev OneCandidate : List Entry → ℤ → Option (ℕ × ℕ) → Type 0
OneCandidate a teamid none = ⊥
OneCandidate a teamid (some (imin, imax)) =
    (imin ≡ imax) × (imin < length a) × Within a teamid imin imax

module _ (a : List Entry) (teamid : ℤ) (s : IsIncreasing a) (imin imax mid : ℕ) (e : Entry)
    (at : get_elem? a mid ≡ some e) (w : Within a teamid imin imax) where
  Within-right : e.allocated_teamid <ℤ teamid → Within a teamid (mid + 1) imax
  Within-right h i p q r = ground (arith, w i p q r, s i mid p e, at, q, r, h)

  Within-left : ¬ (e.allocated_teamid <ℤ teamid) → Within a teamid imin mid
  Within-left h i p q r = ground (arith, w i p q r, s mid i e p, at, q, r, h)

search_loop-OneCandidate :
    (rounds : ℕ) (a : List Entry) (teamid : ℤ) (imin imax : ℕ)
    → IsIncreasing a
    → imin ≤ imax
    → imax < length a
    → imax - imin < rounds
    → Within a teamid imin imax
    → OneCandidate a teamid (search_loop rounds a teamid imin imax)
unfolding search_loop
search_loop-OneCandidate zero a teamid imin imax s le lt r w = absurd (omega arith)
search_loop-OneCandidate (suc rounds) a teamid imin imax s le lt r w =
    elim (Bool-cases (ltb imin imax)) [
      | inl more ↦
          let mid : ℕ = (imin + imax) / 2 in
          let (e, at) = get_elem?_lt a mid (ground arith) in
          rw (more, search_loop)
            (elim (Bool-cases (ltb_ℤ e.allocated_teamid teamid)) [
              | inl below ↦
                  rw (at, id_below)
                    (rw below (
                      search_loop-OneCandidate rounds a teamid (mid + 1) imax s (ground arith) lt
                        (ground arith)
                        (Within-right a teamid s imin imax mid e at w (ground arith))))
              | inr above ↦
                  rw (at, id_below)
                    (rw above (
                      search_loop-OneCandidate rounds a teamid imin mid s (ground arith)
                        (ground arith) (ground arith)
                        (Within-left a teamid s imin imax mid e at w (ground arith))))
            ])
      | inr done ↦ rw (done, search_loop) (ground arith, omega arith, w)
    ]

-- What the answer of a search says of the array.
abbrev pub Finds : List Entry → ℤ → Converted → Type 0
Finds a teamid (found position index) =
    get_elem? a position ≡ some (record { index = index; allocated_teamid = teamid })
Finds a teamid not_found =
    (i : ℕ) (e : Entry) → get_elem? a i ≡ some e → e.allocated_teamid ≢ teamid
Finds a teamid no_rounds = ⊥

module _ (a : List Entry) (teamid : ℤ) (imin imax : ℕ) (e : Entry) (same : imin ≡ imax)
    (at : get_elem? a imin ≡ some e) where
  check_cell_hit :
      e.allocated_teamid ≡ teamid → check_cell a teamid (some (imin, imax)) ≡ found imin e.index
  unfolding check_cell
  check_cell_hit h = rw (at, check_cell) (ground (arith, eqb_ℤ_iff e.allocated_teamid teamid))

  check_cell_miss :
      e.allocated_teamid ≢ teamid → check_cell a teamid (some (imin, imax)) ≡ not_found
  unfolding check_cell
  check_cell_miss h = rw (at, check_cell) (ground (arith, eqb_ℤ_iff e.allocated_teamid teamid))

check_cell-Finds :
    (a : List Entry) (teamid : ℤ) (o : Option (ℕ × ℕ))
    → OneCandidate a teamid o
    → Finds a teamid (check_cell a teamid o)
check_cell-Finds a teamid none h = absurd h
check_cell-Finds a teamid (some (imin, imax)) (same, lt, w) =
    let (e, at) = get_elem?_lt a imin lt in
    elim (Bool-cases (eqb_ℤ e.allocated_teamid teamid)) [
      | inl y ↦
          let h = (eqb_ℤ_iff e.allocated_teamid teamid).0 y in
          rw (check_cell_hit a teamid imin imax e same at h) (ground (arith, at, h))
      | inr n ↦
          let h : e.allocated_teamid ≢ teamid =
            λ q. cc ((eqb_ℤ_iff e.allocated_teamid teamid).1 q) in
          rw (check_cell_miss a teamid imin imax e same at h)
            (λ i p q r. ground (arith, w i p q r, at, q, r, h))
    ]

-- The rounds given suffice, and on increasing ids the answer is right: the position and index of the
-- id, or that no entry has it.
pub find_team-Finds :
    (a : List Entry) (teamid : ℤ) → IsIncreasing a → Finds a teamid (find_team a teamid)
unfolding find_team
find_team-Finds [] teamid s = λ i e h. cc
find_team-Finds (e ∷ a) teamid s = check_cell-Finds (e ∷ a) teamid _ (
    search_loop-OneCandidate (suc (length a)) (e ∷ a) teamid 0 (length a) s (omega arith)
      (omega arith) (omega arith) (λ i p q r. omega (arith, lt_of_get_elem? (e ∷ a) i p q)))

-- An id that is in the array is found where it is.
pub find_team_of_get_elem? :
    (a : List Entry) (position : ℕ) (e : Entry)
    → IsIncreasing a
    → get_elem? a position ≡ some e
    → find_team a e.allocated_teamid ≡ found position e.index
find_team_of_get_elem? a position e s at =
    answer (find_team a e.allocated_teamid) (find_team-Finds a e.allocated_teamid s)
  where
    answer : (r : Converted) → Finds a e.allocated_teamid r → r ≡ found position e.index
    answer (found position' index') f = ground (
      arith,
      f,
      at,
      s position position' e (record { index = index'; allocated_teamid = e.allocated_teamid }),
      s position' position (record { index = index'; allocated_teamid = e.allocated_teamid }) e,
    )
    answer not_found f = absurd (f position e at refl)
    answer no_rounds f = absurd f
