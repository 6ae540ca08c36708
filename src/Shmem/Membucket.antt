-- ===== src/Shmem/Membucket.antt =====
-- The allocator of one memory pool: dart-impl/shmem/src/dart_membucket.c and dart_membucket_priv.h.
-- A `dart_membucket_list` is the list of its entries. A pointer is a number, NULL is 0.
mod Cover
mod Partition
mod Free
mod History
mod Tests
mod Alloc
mod Valid
mod Coalesced
use coronas.Prelude.{
  ℕ, zero, suc, ◌+◌, ◌-◌, ◌≡◌, Bool, true, false, List, [], ◌∷◌, ◌++◌, ltb, leb, ◌==◌,
  if◌then◌else◌,
}

-- `struct dart_membucket_list_entry`; its `next` is the list's.
pub record Chunk : Type 0 where
  pub pos : ℕ
  pub size : ℕ

-- `struct dart_opaque_membucket`. Its `shm_address`, `localsize` and `shm_id` are never read or set.
pub record Bucket : Type 0 where
  pub free : List Chunk
  pub allocated : List Chunk
  pub size : ℕ

abbrev pub null : ℕ
null = 0

pub add_to_pvoid : ℕ → ℕ → ℕ
add_to_pvoid p size = p + size

pub pvoid_lt : ℕ → ℕ → Bool
pvoid_lt p1 p2 = ltb p1 p2

pub pvoid_eq : ℕ → ℕ → Bool
pvoid_eq p1 p2 = p1 == p2

-- The state of a search loop when it stops: the nodes that it passed (the last one is `prev`), and
-- the node `current` with those behind it, or NULL.
pub data Cursor : Type 0 where
  stop : (passed : List Chunk) (current : Chunk) (next : List Chunk) → Cursor
  end_of_list : Cursor

pub pass : Chunk → Cursor → Cursor
pass c (stop passed current next) = stop (c ∷ passed) current next
pass c end_of_list = end_of_list

-- `while (current != NULL) { if (test) break; prev = current; current = current->next; }`
pub seek : (Chunk → Bool) → List Chunk → Cursor
unfolding pass
seek test [] = end_of_list
seek test (c ∷ cs) = if test c then stop [] c cs else pass c (seek test cs)

pub dart_remove_list_entry : List Chunk → List Chunk → List Chunk
dart_remove_list_entry [] next = next
dart_remove_list_entry (p ∷ ps) next = (p ∷ ps) ++ next

pub dart_push_front : List Chunk → Chunk → List Chunk
dart_push_front list new_entry = new_entry ∷ list

-- The loop of `dart_list_melt` with `prev`, at `current`.
pub melt_from : Chunk → List Chunk → List Chunk
unfolding pvoid_eq add_to_pvoid
melt_from prev [] = prev ∷ []
melt_from prev (current ∷ next) = elim (pvoid_eq (add_to_pvoid prev.pos prev.size) current.pos) [
  | true ↦ melt_from (record prev { size = prev.size + current.size }) next
  | false ↦ prev ∷ melt_from current next
]

pub dart_list_melt : List Chunk → List Chunk
unfolding melt_from
dart_list_melt [] = []
dart_list_melt (c ∷ cs) = melt_from c cs

pub dart_insert_sorted : List Chunk → Chunk → List Chunk
unfolding pvoid_lt
dart_insert_sorted [] new_entry = new_entry ∷ []
dart_insert_sorted (c ∷ cs) new_entry =
    if pvoid_lt new_entry.pos c.pos then new_entry ∷ c ∷ cs else c ∷ dart_insert_sorted cs new_entry

pub dart_membucket_list_size : List Chunk → ℕ
dart_membucket_list_size [] = 0
dart_membucket_list_size (c ∷ cs) = suc (dart_membucket_list_size cs)

pub dart_membucket_create : ℕ → ℕ → Bucket
dart_membucket_create pos size = record {
  free = record { pos = pos; size = size } ∷ [];
  allocated = [];
  size = size;
}

-- The part of `dart_membucket_alloc` behind its loop.
pub take_chunk : Bucket → ℕ → Cursor → ℕ × Bucket
unfolding dart_remove_list_entry dart_push_front add_to_pvoid
take_chunk b size end_of_list = (null, b)
take_chunk b size (stop passed current next) = (
  current.pos,
  record b {
    allocated = dart_push_front b.allocated (record { pos = current.pos; size = size });
    free =
        if current.size == size
        then dart_remove_list_entry passed next
        else passed
          ++ (record { pos = add_to_pvoid current.pos size; size = current.size - size } ∷ next);
  },
)

-- The pointer, or NULL, and the bucket after the call.
pub dart_membucket_alloc : Bucket → ℕ → ℕ × Bucket
unfolding take_chunk
dart_membucket_alloc b size = take_chunk b size (seek (λ c. leb size c.size) b.free)

-- The part of `dart_membucket_free` behind its loop.
pub give_back : Bucket → ℕ → Cursor → ℕ × Bucket
unfolding dart_remove_list_entry
give_back b pos end_of_list = (1, b)
give_back b pos (stop passed current next) = (
  0,
  record b {
    allocated = dart_remove_list_entry passed next;
    free = dart_list_melt (dart_insert_sorted b.free (record { pos = pos; size = current.size }));
  },
)

-- The code 0 or 1, and the bucket after the call.
pub dart_membucket_free : Bucket → ℕ → ℕ × Bucket
unfolding give_back
dart_membucket_free b pos = give_back b pos (seek (λ c. c.pos == pos) b.allocated)
