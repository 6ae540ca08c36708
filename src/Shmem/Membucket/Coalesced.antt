-- ===== src/Shmem/Membucket/Coalesced.antt =====
-- The free list of dart_membucket.c: sorted, and no two of its chunks adjoin.
use coronas.Prelude.{
  ℕ, ◌+◌, ◌-◌, ◌≤◌, ◌<◌, ◌≡◌, refl, inl, inr, List, [], ◌∷◌, ◌++◌, ltb, Bool-cases, arith,
}
use coronas.Shmem.Membucket.{Chunk, melt_from, dart_list_melt, dart_insert_sorted}
use coronas.Shmem.Membucket.Cover.{cover}

-- In order between `lo` and `hi`, none empty, none overlapping another.
abbrev pub IsOrdered : ℕ → ℕ → List Chunk → Type 0
IsOrdered lo hi [] = Unit
IsOrdered lo hi (c ∷ cs) =
    (lo ≤ c.pos) × (0 < c.size) × (c.pos + c.size ≤ hi) × IsOrdered (c.pos + c.size) hi cs

-- Moreover there is a gap between any two.
abbrev pub IsCoalesced : ℕ → ℕ → List Chunk → Type 0
IsCoalesced lo hi [] = Unit
IsCoalesced lo hi (c ∷ cs) =
    (lo ≤ c.pos) × (0 < c.size) × (c.pos + c.size ≤ hi) × IsCoalesced (c.pos + c.size + 1) hi cs

pub IsCoalesced-weaken :
    (lo lo' hi : ℕ) (cs : List Chunk) → lo' ≤ lo → IsCoalesced lo hi cs → IsCoalesced lo' hi cs
IsCoalesced-weaken lo lo' hi [] h o = tt
IsCoalesced-weaken lo lo' hi (c ∷ cs) h o = (omega arith, o.1, o.2, o.3)

pub IsOrdered-weaken :
    (lo lo' hi : ℕ) (cs : List Chunk) → lo' ≤ lo → IsOrdered lo hi cs → IsOrdered lo' hi cs
IsOrdered-weaken lo lo' hi [] h o = tt
IsOrdered-weaken lo lo' hi (c ∷ cs) h o = (omega arith, o.1, o.2, o.3)

pub IsCoalesced→IsOrdered :
    (lo hi : ℕ) (cs : List Chunk) → IsCoalesced lo hi cs → IsOrdered lo hi cs
IsCoalesced→IsOrdered lo hi [] o = tt
IsCoalesced→IsOrdered lo hi (c ∷ cs) o = (
  o.0,
  o.1,
  o.2,
  IsOrdered-weaken (c.pos + c.size + 1) (c.pos + c.size) hi cs (omega arith)
      (IsCoalesced→IsOrdered (c.pos + c.size + 1) hi cs o.3),
)

-- A byte in front of the list is in none of its chunks.
pub cover-lt : (a lo hi : ℕ) (cs : List Chunk) → IsOrdered lo hi cs → a < lo → cover a cs ≡ 0
unfolding cover
cover-lt a lo hi [] o h = refl
cover-lt a lo hi (c ∷ cs) o h = ground (arith, cover-lt a (c.pos + c.size) hi cs o.3)

-- `dart_list_melt` closes every seam of an ordered list.
melt_from-IsCoalesced :
    (lo hi : ℕ) (prev : Chunk) (cs : List Chunk)
    → IsOrdered lo hi (prev ∷ cs)
    → IsCoalesced lo hi (melt_from prev cs)
unfolding melt_from
melt_from-IsCoalesced lo hi prev [] o = o
melt_from-IsCoalesced lo hi prev (c ∷ cs) o = ground (
  arith,
  IsOrdered-weaken (c.pos + c.size) (prev.pos + (prev.size + c.size)) hi cs,
  melt_from-IsCoalesced lo hi (record prev { size = prev.size + c.size }) cs,
  melt_from-IsCoalesced (prev.pos + prev.size + 1) hi c cs,
)

pub dart_list_melt-IsCoalesced :
    (lo hi : ℕ) (cs : List Chunk) → IsOrdered lo hi cs → IsCoalesced lo hi (dart_list_melt cs)
unfolding dart_list_melt
dart_list_melt-IsCoalesced lo hi [] o = tt
dart_list_melt-IsCoalesced lo hi (c ∷ cs) o = melt_from-IsCoalesced lo hi c cs o

-- A chunk that overlaps none of the list may be put in.
pub dart_insert_sorted-IsOrdered :
    (lo hi : ℕ) (cs : List Chunk) (e : Chunk)
    → IsOrdered lo hi cs
    → lo ≤ e.pos
    → 0 < e.size
    → e.pos + e.size ≤ hi
    → ((a : ℕ) → e.pos ≤ a → a < e.pos + e.size → cover a cs ≡ 0)
    → IsOrdered lo hi (dart_insert_sorted cs e)
unfolding dart_insert_sorted cover
dart_insert_sorted-IsOrdered lo hi [] e o l s h d = (l, s, h, tt)
dart_insert_sorted-IsOrdered lo hi (c ∷ cs) e o l s h d = elim (Bool-cases (ltb e.pos c.pos)) [
  | inl y ↦ rw y (l, s, h, (ground (arith, d c.pos), o.1, o.2, o.3))
  | inr n ↦ rw n (
    o.0,
    o.1,
    o.2,
    dart_insert_sorted-IsOrdered (c.pos + c.size) hi cs e o.3 (ground (arith, d e.pos)) s h
        (λ a p q. omega (arith, d a p q)),
  )
]

-- A list without seams is left alone.
melt_from-eq_self :
    (lo hi : ℕ) (prev : Chunk) (cs : List Chunk)
    → IsCoalesced lo hi (prev ∷ cs)
    → melt_from prev cs ≡ prev ∷ cs
unfolding melt_from
melt_from-eq_self lo hi prev [] o = refl
melt_from-eq_self lo hi prev (c ∷ cs) o =
    ground (arith, melt_from-eq_self (prev.pos + prev.size + 1) hi c cs o.3)

pub dart_list_melt-eq_self :
    (lo hi : ℕ) (cs : List Chunk) → IsCoalesced lo hi cs → dart_list_melt cs ≡ cs
unfolding dart_list_melt
dart_list_melt-eq_self lo hi [] o = refl
dart_list_melt-eq_self lo hi (c ∷ cs) o = melt_from-eq_self lo hi c cs o

-- The parts of an ordered list in front of and behind one of its chunks.
pub IsOrdered-middle :
    (lo hi : ℕ) (passed next : List Chunk) (c : Chunk)
    → IsOrdered lo hi (passed ++ (c ∷ next))
    → (lo ≤ c.pos) × IsOrdered lo hi (c ∷ next)
IsOrdered-middle lo hi [] next c o = (o.0, o)
IsOrdered-middle lo hi (d ∷ passed) next c o =
    let m = IsOrdered-middle (d.pos + d.size) hi passed next c o.3 in
    (omega arith, (omega arith, m.1.1, m.1.2, m.1.3))

-- A chunk taken from an ordered list goes back to its place.
pub dart_insert_sorted_restores :
    (lo hi : ℕ) (passed next : List Chunk) (c e : Chunk)
    → IsOrdered lo hi (passed ++ (c ∷ next))
    → e.pos ≡ c.pos
    → dart_insert_sorted (passed ++ next) e ≡ passed ++ (e ∷ next)
unfolding dart_insert_sorted
dart_insert_sorted_restores lo hi [] [] c e o p = refl
dart_insert_sorted_restores lo hi [] (d ∷ next) c e o p = ground arith
dart_insert_sorted_restores lo hi (d ∷ passed) next c e o p = ground (
  arith,
  dart_insert_sorted_restores (d.pos + d.size) hi passed next c e o.3 p,
  IsOrdered-middle (d.pos + d.size) hi passed next c,
)

-- The same where a remainder of the chunk is left in the list.
pub dart_insert_sorted_in_front :
    (lo hi : ℕ) (passed next : List Chunk) (c rest e : Chunk)
    → IsOrdered lo hi (passed ++ (c ∷ next))
    → e.pos ≡ c.pos
    → c.pos < rest.pos
    → dart_insert_sorted (passed ++ (rest ∷ next)) e ≡ passed ++ (e ∷ (rest ∷ next))
unfolding dart_insert_sorted
dart_insert_sorted_in_front lo hi [] next c rest e o p q = ground arith
dart_insert_sorted_in_front lo hi (d ∷ passed) next c rest e o p q = ground (
  arith,
  dart_insert_sorted_in_front (d.pos + d.size) hi passed next c rest e o.3 p q,
  IsOrdered-middle (d.pos + d.size) hi passed next c,
)

-- Melting joins the two parts of a chunk of a list without seams, and nothing else.
melt_from_joins :
    (lo hi : ℕ) (prev : Chunk) (passed next : List Chunk) (c e rest : Chunk)
    → IsCoalesced lo hi (prev ∷ (passed ++ (c ∷ next)))
    → e.pos ≡ c.pos
    → rest.pos ≡ e.pos + e.size
    → e.size + rest.size ≡ c.size
    → melt_from prev (passed ++ (e ∷ (rest ∷ next))) ≡ prev ∷ (passed ++ (c ∷ next))
unfolding melt_from
melt_from_joins lo hi prev [] next c e rest o p q s =
    ground (arith, melt_from-eq_self (prev.pos + prev.size + 1) hi c next o.3)
melt_from_joins lo hi prev (d ∷ passed) next c e rest o p q s =
    ground (arith, melt_from_joins (prev.pos + prev.size + 1) hi d passed next c e rest o.3 p q s)

pub dart_list_melt_joins :
    (lo hi : ℕ) (passed next : List Chunk) (c e rest : Chunk)
    → IsCoalesced lo hi (passed ++ (c ∷ next))
    → e.pos ≡ c.pos
    → rest.pos ≡ e.pos + e.size
    → e.size + rest.size ≡ c.size
    → dart_list_melt (passed ++ (e ∷ (rest ∷ next))) ≡ passed ++ (c ∷ next)
unfolding dart_list_melt melt_from
dart_list_melt_joins lo hi [] next c e rest o p q s =
    ground (arith, melt_from-eq_self lo hi c next o)
dart_list_melt_joins lo hi (d ∷ passed) next c e rest o p q s =
    melt_from_joins lo hi d passed next c e rest o p q s

-- An allocation takes a chunk out, or the front of one.
pub IsCoalesced-remove :
    (lo hi : ℕ) (passed next : List Chunk) (c : Chunk)
    → IsCoalesced lo hi (passed ++ (c ∷ next))
    → IsCoalesced lo hi (passed ++ next)
IsCoalesced-remove lo hi [] next c o =
    IsCoalesced-weaken (c.pos + c.size + 1) lo hi next (omega arith) o.3
IsCoalesced-remove lo hi (d ∷ passed) next c o =
    (o.0, o.1, o.2, IsCoalesced-remove (d.pos + d.size + 1) hi passed next c o.3)

pub IsCoalesced-shrink :
    (lo hi n : ℕ) (passed next : List Chunk) (c : Chunk)
    → IsCoalesced lo hi (passed ++ (c ∷ next))
    → n < c.size
    → IsCoalesced lo hi (passed ++ (record { pos = c.pos + n; size = c.size - n } ∷ next))
IsCoalesced-shrink lo hi n [] next c o h = (
  omega arith,
  omega arith,
  omega arith,
  IsCoalesced-weaken (c.pos + c.size + 1) (c.pos + n + (c.size - n) + 1) hi next (omega arith) o.3,
)
IsCoalesced-shrink lo hi n (d ∷ passed) next c o h =
    (o.0, o.1, o.2, IsCoalesced-shrink (d.pos + d.size + 1) hi n passed next c o.3 h)
