-- ===== src/Shmem/Membucket/Partition.antt =====
-- Each byte of a pool is in one chunk, free or allocated: dart_membucket_alloc and
-- dart_membucket_free.
use coronas.Prelude.{ℕ, ◌+◌, ◌-◌, ◌≤◌, ◌≡◌, refl, ap, sym, ◌∙◌, ◌∷◌, leb, ◌==◌, arith}
use coronas.Shmem.Membucket.{
  Bucket, Cursor, stop, end_of_list, seek, take_chunk, give_back, dart_insert_sorted,
  dart_membucket_create, dart_membucket_alloc, dart_membucket_free,
}
use coronas.Shmem.Membucket.Cover.{
  holds_at, cover, total_size, cover-append, total_size-append, cover-dart_list_melt,
  cover-dart_insert_sorted, cover-dart_remove_list_entry, total_size-dart_remove_list_entry,
  total_size-dart_list_melt, total_size-dart_insert_sorted, Found, seek-Found,
}

-- The chunks partition the `b.size` bytes from `base` on.
pub record IsPartition (base : ℕ) (b : Bucket) : Type 0 where
  pub covers :
      (a : ℕ)
      → cover a b.free + cover a b.allocated ≡ holds_at a (record { pos = base; size = b.size })
  pub conserves : total_size b.free + total_size b.allocated ≡ b.size

pub dart_membucket_create-IsPartition :
    (base size : ℕ) → IsPartition base (dart_membucket_create base size)
unfolding dart_membucket_create cover total_size
dart_membucket_create-IsPartition base size = record {
  covers = λ a. omega arith;
  conserves = omega arith;
}

holds_at-split :
    (a pos n size : ℕ)
    → n ≤ size
    → holds_at a (record { pos = pos; size = n })
        + holds_at a (record { pos = pos + n; size = size - n })
      ≡ holds_at a (record { pos = pos; size = size })
holds_at-split a pos n size h = ground arith

-- What `take_chunk` and `give_back` do to the cover of both lists together.
take_chunk-cover :
    (a : ℕ) (b : Bucket) (n : ℕ) (k : Cursor)
    → Found (λ c. leb n c.size) b.free k
    → cover a (take_chunk b n k).1.free + cover a (take_chunk b n k).1.allocated
      ≡ cover a b.free + cover a b.allocated
unfolding take_chunk cover
take_chunk-cover a b n end_of_list f = refl
take_chunk-cover a b n (stop p c next) f = ground (
  arith,
  cover-dart_remove_list_entry a p next,
  cover-append a p (record { pos = c.pos + n; size = c.size - n } ∷ next),
  cover-append a p (c ∷ next),
  ap (cover a) f.0,
)

take_chunk-total_size :
    (b : Bucket) (n : ℕ) (k : Cursor)
    → Found (λ c. leb n c.size) b.free k
    → total_size (take_chunk b n k).1.free + total_size (take_chunk b n k).1.allocated
      ≡ total_size b.free + total_size b.allocated
unfolding take_chunk total_size
take_chunk-total_size b n end_of_list f = refl
take_chunk-total_size b n (stop p c next) f = ground (
  arith,
  total_size-dart_remove_list_entry p next,
  total_size-append p (record { pos = c.pos + n; size = c.size - n } ∷ next),
  total_size-append p (c ∷ next),
  ap total_size f.0,
)

give_back-cover :
    (a : ℕ) (b : Bucket) (pos : ℕ) (k : Cursor)
    → Found (λ c. c.pos == pos) b.allocated k
    → cover a (give_back b pos k).1.free + cover a (give_back b pos k).1.allocated
      ≡ cover a b.free + cover a b.allocated
unfolding give_back cover
give_back-cover a b pos end_of_list f = refl
give_back-cover a b pos (stop p c next) f = ground (
  arith,
  cover-dart_remove_list_entry a p next,
  cover-append a p (c ∷ next),
  cover-dart_list_melt a (dart_insert_sorted b.free (record { pos = pos; size = c.size })),
  cover-dart_insert_sorted a b.free (record { pos = pos; size = c.size }),
  ap (cover a) f.0,
)

give_back-total_size :
    (b : Bucket) (pos : ℕ) (k : Cursor)
    → Found (λ c. c.pos == pos) b.allocated k
    → total_size (give_back b pos k).1.free + total_size (give_back b pos k).1.allocated
      ≡ total_size b.free + total_size b.allocated
unfolding give_back total_size
give_back-total_size b pos end_of_list f = refl
give_back-total_size b pos (stop p c next) f = ground (
  arith,
  total_size-dart_remove_list_entry p next,
  total_size-append p (c ∷ next),
  total_size-dart_list_melt (dart_insert_sorted b.free (record { pos = pos; size = c.size })),
  total_size-dart_insert_sorted b.free (record { pos = pos; size = c.size }),
  ap total_size f.0,
)

-- `size` of the bucket is written by `dart_membucket_create` alone.
take_chunk-size : (b : Bucket) (n : ℕ) (k : Cursor) → (take_chunk b n k).1.size ≡ b.size
unfolding take_chunk
take_chunk-size b n end_of_list = refl
take_chunk-size b n (stop p c next) = refl

give_back-size : (b : Bucket) (pos : ℕ) (k : Cursor) → (give_back b pos k).1.size ≡ b.size
unfolding give_back
give_back-size b pos end_of_list = refl
give_back-size b pos (stop p c next) = refl

pub dart_membucket_alloc-size : (b : Bucket) (n : ℕ) → (dart_membucket_alloc b n).1.size ≡ b.size
unfolding dart_membucket_alloc
dart_membucket_alloc-size b n = take_chunk-size b n _

pub dart_membucket_free-size : (b : Bucket) (pos : ℕ) → (dart_membucket_free b pos).1.size ≡ b.size
unfolding dart_membucket_free
dart_membucket_free-size b pos = give_back-size b pos _

-- An allocation of any size, granted or refused, leaves every byte of the pool in one chunk, and
-- no byte of the pool is lost.
pub dart_membucket_alloc-IsPartition :
    {base : ℕ} {b : Bucket} (n : ℕ)
    → IsPartition base b
    → IsPartition base (dart_membucket_alloc b n).1
unfolding dart_membucket_alloc
dart_membucket_alloc-IsPartition {b} n h =
    let k = seek (λ c. leb n c.size) b.free in
    let f = seek-Found (λ c. leb n c.size) b.free in
    record {
      covers = λ a. rw (take_chunk-size b n k) (take_chunk-cover a b n k f ∙ h.covers a);
      conserves = take_chunk-total_size b n k f ∙ h.conserves ∙ sym (take_chunk-size b n k);
    }

-- A release of any pointer, known to the pool or not, leaves every byte of the pool in one chunk,
-- and no byte of the pool is lost.
pub dart_membucket_free-IsPartition :
    {base : ℕ} {b : Bucket} (pos : ℕ)
    → IsPartition base b
    → IsPartition base (dart_membucket_free b pos).1
unfolding dart_membucket_free
dart_membucket_free-IsPartition {b} pos h =
    let k = seek (λ c. c.pos == pos) b.allocated in
    let f = seek-Found (λ c. c.pos == pos) b.allocated in
    record {
      covers = λ a. rw (give_back-size b pos k) (give_back-cover a b pos k f ∙ h.covers a);
      conserves = give_back-total_size b pos k f ∙ h.conserves ∙ sym (give_back-size b pos k);
    }
