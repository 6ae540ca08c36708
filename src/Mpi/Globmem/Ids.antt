-- ===== src/Mpi/Globmem/Ids.antt =====
-- The ids of segments stay distinct: dart_globmem.c.
use coronas.Prelude.{ℕ, ◌≤◌, ◌<◌, ◌≡◌, ◌≢◌, [], ◌∷◌, arith}
use coronas.Prelude.Int.{ℤ, pos, negsuc}
use coronas.Mpi.Transtable.{Info, Table, dart_adapt_transtable_add}
use coronas.Mpi.Transtable.Laws.{IsAbsent, IsDistinct}
use coronas.Mpi.Globmem.{Memory}

-- The ids that were given out: 1 to k - 1 for allocated and -1 to -j for registered memory.
abbrev pub InRange : ℕ → ℕ → ℤ → Type 0
InRange k j (pos n) = (1 ≤ n) × (n < k)
InRange k j (negsuc n) = n < j

abbrev pub AllInRange : ℕ → ℕ → Table → Type 0
AllInRange k j [] = Unit
AllInRange k j (p ∷ t) = InRange k j p.seg_id × AllInRange k j t

-- The next ids have not been given out, and no two segments have one id.
pub record IsMemory (m : Memory) : Type 0 where
  pub next : ℕ
  pub next_registered : ℕ
  pub memid_is : m.memid ≡ pos next
  pub registermemid_is : m.registermemid ≡ negsuc next_registered
  pub positive : 1 ≤ next
  pub distinct : IsDistinct m.transtable
  pub in_range : AllInRange next next_registered m.transtable

InRange-mono : (k j k' j' : ℕ) (s : ℤ) → k ≤ k' → j ≤ j' → InRange k j s → InRange k' j' s
InRange-mono k j k' j' (pos n) a b (c, d) = (c, omega (arith, a, d))
InRange-mono k j k' j' (negsuc n) a b c = omega (arith, b, c)

pub AllInRange-mono :
    (k j k' j' : ℕ) (t : Table) → k ≤ k' → j ≤ j' → AllInRange k j t → AllInRange k' j' t
AllInRange-mono k j k' j' [] a b h = tt
AllInRange-mono k j k' j' (p ∷ t) a b (h, hs) =
    (InRange-mono k j k' j' p.seg_id a b h, AllInRange-mono k j k' j' t a b hs)

pub AllInRange-add :
    (k j : ℕ) (t : Table) (item : Info)
    → AllInRange k j t
    → InRange k j item.seg_id
    → AllInRange k j (dart_adapt_transtable_add t item)
unfolding dart_adapt_transtable_add
AllInRange-add k j [] item h i = (i, tt)
AllInRange-add k j (p ∷ t) item (h, hs) i = (h, AllInRange-add k j t item hs i)

InRange-ne : (k j : ℕ) (s : ℤ) → InRange k j s → (pos k ≢ s) × (negsuc j ≢ s)
InRange-ne k j (pos n) (a, b) = (λ e. ground (arith, e, b), λ e. cc)
InRange-ne k j (negsuc n) a = (λ e. cc, λ e. ground (arith, e, a))

AllInRange-IsAbsent :
    (k j : ℕ) (t : Table) → AllInRange k j t → IsAbsent (pos k) t × IsAbsent (negsuc j) t
AllInRange-IsAbsent k j [] h = (tt, tt)
AllInRange-IsAbsent k j (p ∷ t) (h, hs) =
    let (a, b) = InRange-ne k j p.seg_id h in
    let (c, d) = AllInRange-IsAbsent k j t hs in ((a, c), (b, d))

-- The next id of either kind names no segment.
pub fresh :
    (m : Memory)
    → IsMemory m
    → IsAbsent m.memid m.transtable × IsAbsent m.registermemid m.transtable
fresh m h =
    let (a, b) = AllInRange-IsAbsent h.next h.next_registered m.transtable h.in_range in
    (rw h.memid_is a, rw h.registermemid_is b)
