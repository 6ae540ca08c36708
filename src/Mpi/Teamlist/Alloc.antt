-- ===== src/Mpi/Teamlist/Alloc.antt =====
-- The free and the used indices, and allocation: dart_team_private.c.
use coronas.Prelude.{
  ℕ, zero, suc, ◌+◌, ◌<◌, ◌≡◌, refl, ap, ◌⊎◌, inl, inr, ◌&&◌, Option, none, some, List, [], ◌∷◌,
  ◌++◌, arith, ltb, leb, ◌==◌, if◌then◌else◌, length, get_elem?, lt_of_get_elem?,
}
use coronas.Prelude.Int.{ℤ, ◌<ℤ◌}
use coronas.Mpi.Teamlist.{
  Entry, Teamlist, dart_max_team_number, indices_from, alloc_from, dart_adapt_teamlist_init,
  dart_adapt_teamlist_alloc,
}
use coronas.Mpi.Teamlist.Search.{IsIncreasing}

-- How often an index is free, and how often a team has it.
unfoldable pub free_count : ℕ → List ℕ → ℕ
free_count i [] = 0
free_count i (j ∷ js) = (if i == j then 1 else 0) + free_count i js

unfoldable pub team_count : ℕ → List Entry → ℕ
team_count i [] = 0
team_count i (e ∷ es) = (if i == e.index then 1 else 0) + team_count i es

-- Each of the 256 indices is free or belongs to one team, no other index is in use, and the team
-- ids increase.
pub record IsTeamlist (t : Teamlist) : Type 0 where
  pub increasing : IsIncreasing t.allocated
  pub indices :
      (i : ℕ)
      → free_count i t.free + team_count i t.allocated
        ≡ (if ltb i dart_max_team_number then 1 else 0)

free_count-indices_from :
    (i s n : ℕ) → free_count i (indices_from s n) ≡ (if leb s i && ltb i (s + n) then 1 else 0)
unfolding free_count indices_from
free_count-indices_from i s zero = ground arith
free_count-indices_from i s (suc n) = ground (arith, free_count-indices_from i (suc s) n)

pub dart_adapt_teamlist_init-IsTeamlist : IsTeamlist dart_adapt_teamlist_init
unfolding dart_adapt_teamlist_init team_count
dart_adapt_teamlist_init-IsTeamlist = record {
  increasing = λ i j p q l e f. cc;
  indices = λ i. ground (arith, free_count-indices_from i 0 256);
}

pub team_count-append :
    (i : ℕ) (xs ys : List Entry) → team_count i (xs ++ ys) ≡ team_count i xs + team_count i ys
unfolding team_count
team_count-append i [] ys = omega arith
team_count-append i (x ∷ xs) ys = omega (arith, team_count-append i xs ys)

-- A cell of an array with one more cell at the end.
cell_of_append {ℓ} :
    {A : Type ℓ} (xs : List A) (y : A) (i : ℕ) (a : A)
    → get_elem? (xs ++ (y ∷ [])) i ≡ some a
    → (get_elem? xs i ≡ some a) ⊎ ((i ≡ length xs) × (a ≡ y))
cell_of_append [] y zero a h = inr (refl, cc)
cell_of_append [] y (suc i) a h = absurd (cc)
cell_of_append (x ∷ xs) y zero a h = inl h
cell_of_append (x ∷ xs) y (suc i) a h = elim (cell_of_append xs y i a h) [
  | inl l ↦ inl l
  | inr r ↦ inr (ap suc r.0, r.1)
]

-- Every id in the array is below `teamid`.
abbrev pub AllBelow : ℤ → List Entry → Type 0
AllBelow teamid a = (i : ℕ) (e : Entry) → get_elem? a i ≡ some e → e.allocated_teamid <ℤ teamid

IsIncreasing-append :
    (a : List Entry) (e : Entry)
    → IsIncreasing a
    → AllBelow e.allocated_teamid a
    → IsIncreasing (a ++ (e ∷ []))
IsIncreasing-append a e s b i j p q l f g = elim (cell_of_append a e i p f) [
  | inl f' ↦ elim (cell_of_append a e j q g) [
    | inl g' ↦ s i j p q l f' g'
    | inr g' ↦ ground (arith, b i p f', g'.1)
  ]
  | inr f' ↦ elim (cell_of_append a e j q g) [
    | inl g' ↦ absurd (omega (arith, lt_of_get_elem? a j q g', f'.0))
    | inr g' ↦ absurd (omega (arith, f'.0, g'.0))
  ]
]

-- What an allocation does: it refuses only when no index is free; else it takes a free index, which
-- no team has, and appends the entry.
abbrev pub Allocates : ℤ → Teamlist → Option (ℕ × ℕ) × Teamlist → Type 0
Allocates teamid t (none, t') = (t.free ≡ []) × (t' ≡ t)
Allocates teamid t (some (position, index), t') =
    IsTeamlist t'
    × (position ≡ length t.allocated)
    × (t'.allocated ≡ t.allocated ++ (record { index = index; allocated_teamid = teamid } ∷ []))
    × (team_count index t.allocated ≡ 0)
    × (index < dart_max_team_number)

alloc_from-Allocates :
    (teamid : ℤ) (free : List ℕ) (allocated : List Entry)
    → IsTeamlist (record { free = free; allocated = allocated })
    → AllBelow teamid allocated
    → Allocates teamid
        (record { free = free; allocated = allocated })
        (alloc_from teamid free allocated)
unfolding alloc_from free_count team_count
alloc_from-Allocates teamid [] allocated h b = (refl, refl)
alloc_from-Allocates teamid (index ∷ free) allocated h b = (
  record {
    increasing = IsIncreasing-append allocated _ h.increasing b;
    indices = λ i. ground (
      arith,
      h.indices i,
      team_count-append i allocated (record { index = index; allocated_teamid = teamid } ∷ []),
    );
  },
  refl,
  refl,
  ground (arith, h.indices index),
  ground (arith, h.indices index),
)

-- In a well-formed table an allocation for a team id above all others refuses only when no index is
-- free and then changes nothing; else it appends an entry with an index below 256 that no team has,
-- and the table stays well-formed.
pub dart_adapt_teamlist_alloc_lem :
    (teamid : ℤ) (t : Teamlist)
    → IsTeamlist t
    → AllBelow teamid t.allocated
    → Allocates teamid t (dart_adapt_teamlist_alloc teamid t)
unfolding dart_adapt_teamlist_alloc
dart_adapt_teamlist_alloc_lem teamid t h b = alloc_from-Allocates teamid t.free t.allocated h b
