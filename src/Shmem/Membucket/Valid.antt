-- ===== src/Shmem/Membucket/Valid.antt =====
-- The whole invariant of a bucket, and what an allocation and a release do to a bucket that has it:
-- dart_membucket_alloc and dart_membucket_free of dart_membucket.c.
use coronas.Prelude.{ℕ, ◌+◌, ◌-◌, ◌≤◌, ◌<◌, ◌≡◌, ap, subst, List, [], ◌∷◌, ◌++◌, leb, ◌==◌, arith}
use coronas.Shmem.Membucket.{
  Chunk, Bucket, Cursor, stop, end_of_list, take_chunk, give_back, dart_membucket_create,
  dart_membucket_alloc, dart_membucket_free, dart_remove_list_entry,
}
use coronas.Shmem.Membucket.Cover.{cover, Found, seek-Found, cover-append}
use coronas.Shmem.Membucket.Partition.{
  IsPartition, dart_membucket_create-IsPartition, dart_membucket_alloc-IsPartition,
  dart_membucket_free-IsPartition,
}
use coronas.Shmem.Membucket.Coalesced.{
  IsCoalesced, IsCoalesced→IsOrdered, dart_list_melt-IsCoalesced, dart_insert_sorted-IsOrdered,
  IsCoalesced-remove, IsCoalesced-shrink,
}

-- No chunk of the list is empty.
abbrev pub AllPositive : List Chunk → Type 0
AllPositive [] = Unit
AllPositive (c ∷ cs) = (0 < c.size) × AllPositive cs

pub record IsValid (base : ℕ) (b : Bucket) : Type 0 where
  pub partition : IsPartition base b
  pub coalesced : IsCoalesced base (base + b.size) b.free
  pub positive : AllPositive b.allocated

pub dart_membucket_create-IsValid :
    (base size : ℕ) → 0 < size → IsValid base (dart_membucket_create base size)
unfolding dart_membucket_create
dart_membucket_create-IsValid base size h = record {
  partition = dart_membucket_create-IsPartition base size;
  coalesced = omega arith;
  positive = tt;
}

-- Allocation.
take_chunk-IsCoalesced :
    (base n : ℕ) (b : Bucket) (k : Cursor)
    → IsCoalesced base (base + b.size) b.free
    → Found (λ c. leb n c.size) b.free k
    → IsCoalesced base (base + (take_chunk b n k).1.size) (take_chunk b n k).1.free
unfolding take_chunk dart_remove_list_entry
take_chunk-IsCoalesced base n b end_of_list o f = o
take_chunk-IsCoalesced base n b (stop [] c next) o f =
    let o' = subst (IsCoalesced base (base + b.size)) f.0 o in
    ground (
      arith,
      IsCoalesced-remove base (base + b.size) [] next c o',
      IsCoalesced-shrink base (base + b.size) n [] next c o',
    )
take_chunk-IsCoalesced base n b (stop (p ∷ ps) c next) o f =
    let o' = subst (IsCoalesced base (base + b.size)) f.0 o in
    ground (
      arith,
      IsCoalesced-remove base (base + b.size) (p ∷ ps) next c o',
      IsCoalesced-shrink base (base + b.size) n (p ∷ ps) next c o',
    )

take_chunk-AllPositive :
    (n : ℕ) (b : Bucket) (k : Cursor)
    → 0 < n
    → AllPositive b.allocated
    → AllPositive (take_chunk b n k).1.allocated
unfolding take_chunk
take_chunk-AllPositive n b end_of_list h p = p
take_chunk-AllPositive n b (stop passed c next) h p = (h, p)

-- An allocation of at least one byte keeps the invariant, granted or refused.
pub dart_membucket_alloc-IsValid :
    {base : ℕ} {b : Bucket} (n : ℕ)
    → 0 < n
    → IsValid base b
    → IsValid base (dart_membucket_alloc b n).1
unfolding dart_membucket_alloc
dart_membucket_alloc-IsValid {base} {b} n h v = record {
  partition = dart_membucket_alloc-IsPartition n v.partition;
  coalesced = take_chunk-IsCoalesced base n b _ v.coalesced (seek-Found (λ c. leb n c.size) b.free);
  positive = take_chunk-AllPositive n b _ h v.positive;
}

-- Release.
AllPositive-middle :
    (passed next : List Chunk) (c : Chunk)
    → AllPositive (passed ++ (c ∷ next))
    → (0 < c.size) × AllPositive (passed ++ next)
AllPositive-middle [] next c p = p
AllPositive-middle (d ∷ passed) next c p =
    let m = AllPositive-middle passed next c p.1 in (m.0, (p.0, m.1))

-- A chunk of the allocated list lies in the pool, and no byte of it is free.
pub allocated-outside :
    {base : ℕ} {b : Bucket} (passed next : List Chunk) (c : Chunk)
    → IsPartition base b
    → b.allocated ≡ passed ++ (c ∷ next)
    → (a : ℕ) → c.pos ≤ a
    → a < c.pos + c.size
    → (base ≤ a) × (a < base + b.size) × (cover a b.free ≡ 0)
unfolding cover
allocated-outside {b} passed next c h e a p q =
    ground (arith, h.covers a, cover-append a passed (c ∷ next), ap (cover a) e)

-- So the chunk as a whole lies in the pool, if it is not empty.
pub allocated-bounds :
    {base : ℕ} {b : Bucket} (passed next : List Chunk) (c : Chunk)
    → IsPartition base b
    → b.allocated ≡ passed ++ (c ∷ next)
    → 0 < c.size
    → (base ≤ c.pos) × (c.pos + c.size ≤ base + b.size)
allocated-bounds passed next c h e p = omega (
  arith,
  allocated-outside passed next c h e c.pos (omega arith) (omega arith),
  allocated-outside passed next c h e (c.pos + c.size - 1) (omega arith) (omega arith),
)

give_back-IsCoalesced :
    (base pos : ℕ) (b : Bucket) (k : Cursor)
    → IsValid base b
    → Found (λ c. c.pos == pos) b.allocated k
    → IsCoalesced base (base + (give_back b pos k).1.size) (give_back b pos k).1.free
unfolding give_back
give_back-IsCoalesced base pos b end_of_list v f = v.coalesced
give_back-IsCoalesced base pos b (stop passed c next) v f =
    let some_size = (AllPositive-middle passed next c (subst AllPositive f.0 v.positive)).0 in
    let bounds = allocated-bounds passed next c v.partition f.0 some_size in
    let here : c.pos ≡ pos = ground arith in
    dart_list_melt-IsCoalesced base (base + b.size) _ (
      dart_insert_sorted-IsOrdered base (base + b.size) b.free (record { pos = pos; size = c.size })
        (IsCoalesced→IsOrdered base (base + b.size) b.free v.coalesced) (omega arith) some_size
        (omega arith)
        (λ a p q.
          (allocated-outside passed next c v.partition f.0 a (omega arith) (omega arith)).2))

give_back-AllPositive :
    (pos : ℕ) (b : Bucket) (k : Cursor)
    → AllPositive b.allocated
    → Found (λ c. c.pos == pos) b.allocated k
    → AllPositive (give_back b pos k).1.allocated
unfolding give_back dart_remove_list_entry
give_back-AllPositive pos b end_of_list p f = p
give_back-AllPositive pos b (stop [] c next) p f =
    (AllPositive-middle [] next c (subst AllPositive f.0 p)).1
give_back-AllPositive pos b (stop (d ∷ passed) c next) p f =
    (AllPositive-middle (d ∷ passed) next c (subst AllPositive f.0 p)).1

-- A release keeps the invariant, of a known pointer or of any other.
pub dart_membucket_free-IsValid :
    {base : ℕ} {b : Bucket} (pos : ℕ) → IsValid base b → IsValid base (dart_membucket_free b pos).1
unfolding dart_membucket_free
dart_membucket_free-IsValid {base} {b} pos v = record {
  partition = dart_membucket_free-IsPartition pos v.partition;
  coalesced = give_back-IsCoalesced base pos b _ v (seek-Found (λ c. c.pos == pos) b.allocated);
  positive = give_back-AllPositive pos b _ v.positive (seek-Found (λ c. c.pos == pos) b.allocated);
}
