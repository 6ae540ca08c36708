-- ===== src/Shmem/Membucket/Alloc.antt =====
-- What dart_membucket_alloc of dart_membucket.c grants and when it refuses, and how
-- dart_membucket_free undoes it.
use coronas.Prelude.{
  ℕ, ◌+◌, ◌-◌, ◌≤◌, ◌<◌, ◌≡◌, refl, sym, ap, subst, ◌∙◌, ◌≢◌, ◌⊎◌, inl, inr, List, [], ◌∷◌, ◌++◌,
  arith, ℕ_discrete, leb, ==_iff,
}
use coronas.Shmem.Membucket.{
  Chunk, Bucket, Cursor, stop, end_of_list, null, seek, take_chunk, give_back, dart_membucket_alloc,
  dart_membucket_free, dart_list_melt, dart_insert_sorted, dart_remove_list_entry,
}
use coronas.Shmem.Membucket.Cover.{
  holds_at, cover-dart_remove_list_entry, cover, AllFail, Found, seek-Found, cover-append,
}
use coronas.Shmem.Membucket.Partition.{IsPartition}
use coronas.Shmem.Membucket.Coalesced.{
  IsCoalesced, IsOrdered, IsCoalesced→IsOrdered, dart_list_melt-eq_self, dart_list_melt_joins,
  dart_insert_sorted_restores, dart_insert_sorted_in_front,
}
use coronas.Shmem.Membucket.Valid.{IsValid}

-- The chunk of `n` bytes at the pointer returned is recorded, its bytes were free and are so no
-- more, and with those allocated before they are bytes of the pool, none counted twice.
pub record IsGranted (base n : ℕ) (b : Bucket) (r : ℕ × Bucket) : Type 0 where
  pub recorded : r.1.allocated ≡ record { pos = r.0; size = n } ∷ b.allocated
  pub moved :
      (a : ℕ) → cover a b.free ≡ holds_at a (record { pos = r.0; size = n }) + cover a r.1.free
  pub exclusive :
      (a : ℕ)
      → holds_at a (record { pos = r.0; size = n }) + cover a b.allocated
        ≤ holds_at a (record { pos = base; size = b.size })

-- A refusal: the bucket is as it was, and no free chunk is large enough.
pub record IsRefused (n : ℕ) (b : Bucket) (r : ℕ × Bucket) : Type 0 where
  pub null_pointer : r.0 ≡ null
  pub unchanged : r.1 ≡ b
  pub too_small : AllFail (λ c. leb n c.size) b.free

take_chunk_outcome :
    {base : ℕ} (n : ℕ) (b : Bucket) (k : Cursor)
    → IsPartition base b
    → Found (λ c. leb n c.size) b.free k
    → IsGranted base n b (take_chunk b n k) ⊎ IsRefused n b (take_chunk b n k)
unfolding take_chunk cover
take_chunk_outcome n b end_of_list h f =
    inr (record { null_pointer = refl; unchanged = refl; too_small = f })
take_chunk_outcome {base} n b (stop passed c next) h f = inl (record {
  recorded = refl;
  moved = moved;
  exclusive = λ a. ground (arith, h.covers a, moved a);
})
  where
    moved :
        (a : ℕ)
        → cover a b.free
          ≡ holds_at a (record { pos = c.pos; size = n })
            + cover a (take_chunk b n (stop passed c next)).1.free
    moved a = ground (
      arith,
      ap (cover a) f.0,
      f.1,
      cover-append a passed (c ∷ next),
      cover-append a passed (record { pos = c.pos + n; size = c.size - n } ∷ next),
      cover-dart_remove_list_entry a passed next,
    )

-- In a bucket whose chunks partition the pool an allocation either grants bytes of the pool that
-- were free and belong to no other allocation, and records them, or finds every free chunk too
-- small, returns NULL and changes nothing.
pub dart_membucket_alloc_outcome :
    {base : ℕ} {b : Bucket} (n : ℕ)
    → IsPartition base b
    → IsGranted base n b (dart_membucket_alloc b n) ⊎ IsRefused n b (dart_membucket_alloc b n)
unfolding dart_membucket_alloc
dart_membucket_alloc_outcome {b} n h =
    take_chunk_outcome n b _ h (seek-Found (λ c. leb n c.size) b.free)

dart_remove_list_entry-append :
    (passed next : List Chunk) → dart_remove_list_entry passed next ≡ passed ++ next
unfolding dart_remove_list_entry
dart_remove_list_entry-append [] next = refl
dart_remove_list_entry-append (p ∷ ps) next = refl

-- The round trip, at the cursor where the allocation stops.
module _ (b : Bucket) (n : ℕ) (passed next : List Chunk) (c : Chunk) where
  abbrev taken : Chunk
  taken = record { pos = c.pos; size = n }

  abbrev rest : Chunk
  rest = record { pos = c.pos + n; size = c.size - n }

  take_chunk_whole : c.size ≡ n → (take_chunk b n (stop passed c next)).1.free ≡ passed ++ next
  unfolding take_chunk
  take_chunk_whole e = ground (arith, dart_remove_list_entry-append passed next)

  take_chunk_part :
      c.size ≢ n → (take_chunk b n (stop passed c next)).1.free ≡ passed ++ (rest ∷ next)
  unfolding take_chunk
  take_chunk_part e = ground arith

  restores_free :
      (lo hi : ℕ)
      → IsCoalesced lo hi (passed ++ (c ∷ next))
      → 0 < n
      → n ≤ c.size
      → dart_list_melt (dart_insert_sorted (take_chunk b n (stop passed c next)).1.free taken)
        ≡ passed ++ (c ∷ next)
  restores_free lo hi o h le = elim (ℕ_discrete c.size n) [
    | yes e ↦
        let same : taken ≡ c = ground arith in
        ap (λ l. dart_list_melt (dart_insert_sorted l taken)) (take_chunk_whole e)
        ∙ ap dart_list_melt (dart_insert_sorted_restores lo hi passed next c taken ordered refl)
        ∙ ap (λ d. dart_list_melt (passed ++ (d ∷ next))) same
        ∙ dart_list_melt-eq_self lo hi (passed ++ (c ∷ next)) o
    | no e ↦
        ap (λ l. dart_list_melt (dart_insert_sorted l taken)) (take_chunk_part e)
        ∙ ap dart_list_melt
            (dart_insert_sorted_in_front lo hi passed next c rest taken ordered refl (omega arith))
        ∙ dart_list_melt_joins lo hi passed next c taken rest o refl refl (omega arith)
  ]
    where
      ordered : IsOrdered lo hi (passed ++ (c ∷ next))
      ordered = IsCoalesced→IsOrdered lo hi (passed ++ (c ∷ next)) o

-- Releasing the pointer just allocated finds its entry at the head of the allocated list.
give_back_latest :
    (b b' : Bucket) (p n : ℕ)
    → b'.allocated ≡ record { pos = p; size = n } ∷ b.allocated
    → b'.size ≡ b.size
    → dart_list_melt (dart_insert_sorted b'.free (record { pos = p; size = n })) ≡ b.free
    → dart_membucket_free b' p ≡ (0, b)
unfolding dart_membucket_free give_back seek dart_remove_list_entry
give_back_latest b b' p n e s f =
    rw (e, (==_iff p p).1 refl)
      (λ i. (0, record { free = f i; allocated = b.allocated; size = s i }))

-- The release of the pointer that an allocation of at least one byte returned restores the bucket
-- exactly: both lists, entry by entry.
pub free-alloc :
    {base : ℕ} {b : Bucket} (n : ℕ)
    → IsValid base b
    → 0 < n
    → (dart_membucket_alloc b n).0 ≢ null
    → dart_membucket_free (dart_membucket_alloc b n).1 (dart_membucket_alloc b n).0 ≡ (0, b)
unfolding dart_membucket_alloc
free-alloc {base} {b} n v h granted =
    go (seek (λ c. leb n c.size) b.free) (seek-Found (λ c. leb n c.size) b.free) granted
  where
    go :
        (k : Cursor)
        → Found (λ c. leb n c.size) b.free k
        → (take_chunk b n k).0 ≢ null
        → dart_membucket_free (take_chunk b n k).1 (take_chunk b n k).0 ≡ (0, b)
    go end_of_list f g = absurd (g (unfold take_chunk in refl))
    go (stop passed c next) f g =
        give_back_latest b (take_chunk b n (stop passed c next)).1 c.pos n refl refl (
          restores_free b n passed next c base (base + b.size)
            (subst (IsCoalesced base (base + b.size)) f.0 v.coalesced) h (ground arith)
          ∙ sym f.0)
