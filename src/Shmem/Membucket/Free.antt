-- ===== src/Shmem/Membucket/Free.antt =====
-- What dart_membucket_free of dart_membucket.c does with a pointer that the pool knows, and with one
-- that it does not.
use coronas.Prelude.{ℕ, ◌+◌, ◌≡◌, refl, ap, ◌∙◌, ◌⊎◌, inl, inr, List, [], ◌∷◌, ◌++◌, arith, ◌==◌}
use coronas.Shmem.Membucket.{
  Chunk, Bucket, Cursor, stop, end_of_list, give_back, dart_membucket_free, dart_list_melt,
  dart_insert_sorted, dart_remove_list_entry,
}
use coronas.Shmem.Membucket.Cover.{
  holds_at, cover, AllFail, Found, seek-Found, cover-dart_list_melt, cover-dart_insert_sorted,
}

-- The first entry at `pos` leaves the allocated list, and its bytes become free.
pub record IsReleased (pos : ℕ) (b : Bucket) (r : ℕ × Bucket) : Type 0 where
  pub code : r.0 ≡ 0
  pub size : ℕ
  pub before : List Chunk
  pub behind : List Chunk
  pub entry : b.allocated ≡ before ++ (record { pos = pos; size = size } ∷ behind)
  pub first : AllFail (λ c. c.pos == pos) before
  pub removed : r.1.allocated ≡ before ++ behind
  pub freed :
      (a : ℕ) → cover a r.1.free ≡ holds_at a (record { pos = pos; size = size }) + cover a b.free

-- No entry is at `pos`, and the bucket is as it was.
pub record IsUnknown (pos : ℕ) (b : Bucket) (r : ℕ × Bucket) : Type 0 where
  pub code : r.0 ≡ 1
  pub unchanged : r.1 ≡ b
  pub absent : AllFail (λ c. c.pos == pos) b.allocated

give_back_outcome :
    (pos : ℕ) (b : Bucket) (k : Cursor)
    → Found (λ c. c.pos == pos) b.allocated k
    → IsReleased pos b (give_back b pos k) ⊎ IsUnknown pos b (give_back b pos k)
unfolding give_back dart_remove_list_entry
give_back_outcome pos b end_of_list f = inr (record { code = refl; unchanged = refl; absent = f })
give_back_outcome pos b (stop [] c next) f = inl (record {
  code = refl;
  size = c.size;
  before = [];
  behind = next;
  entry = ground (arith, f.0, f.1);
  first = f.2;
  removed = refl;
  freed = λ a. released a c.size;
})
  where
    released :
        (a size : ℕ)
        → cover a (dart_list_melt (dart_insert_sorted b.free (record { pos = pos; size = size })))
          ≡ holds_at a (record { pos = pos; size = size }) + cover a b.free
    released a size = cover-dart_list_melt a _ ∙ cover-dart_insert_sorted a b.free _
give_back_outcome pos b (stop (d ∷ passed) c next) f = inl (record {
  code = refl;
  size = c.size;
  before = d ∷ passed;
  behind = next;
  entry = f.0 ∙ ap (λ e. (d ∷ passed) ++ (e ∷ next)) (ground arith);
  first = f.2;
  removed = refl;
  freed = λ a. cover-dart_list_melt a _ ∙ cover-dart_insert_sorted a b.free _;
})

-- A release takes the first entry at the pointer off the allocated list and makes just its bytes
-- free, or finds no such entry, returns 1 and changes nothing.
dart_membucket_free_outcome :
    (pos : ℕ) (b : Bucket)
    → IsReleased pos b (dart_membucket_free b pos) ⊎ IsUnknown pos b (dart_membucket_free b pos)
unfolding dart_membucket_free
dart_membucket_free_outcome pos b =
    give_back_outcome pos b _ (seek-Found (λ c. c.pos == pos) b.allocated)
