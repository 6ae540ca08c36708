-- ===== src/Shmem/Membucket/Tests.antt =====
-- Runs of the bucket allocator, and its theorems at inputs.
use coronas.Prelude.{◌≡◌, refl, ◌≢◌, ◌⊎◌, List, [], ◌∷◌, arith}
use coronas.Shmem.Membucket.{
  dart_insert_sorted, dart_list_melt, seek, Bucket, null, dart_membucket_create,
  dart_membucket_alloc, dart_membucket_free,
}
use coronas.Shmem.Membucket.Valid.{
  IsValid, dart_membucket_create-IsValid, dart_membucket_alloc-IsValid,
}
use coronas.Shmem.Membucket.Alloc.{IsGranted, IsRefused, dart_membucket_alloc_outcome, free-alloc}
use coronas.Shmem.Membucket.History.{Call, alloc, release, history, history_released}

abbrev fresh : Bucket
fresh = dart_membucket_create 1000 64

abbrev one : Bucket
one = (dart_membucket_alloc fresh 16).1

abbrev two : Bucket
two = (dart_membucket_alloc one 8).1

two_chunks : two ≡ record {
  free = record { pos = 1024; size = 40 } ∷ [];
  allocated = record { pos = 1016; size = 8 } ∷ record { pos = 1000; size = 16 } ∷ [];
  size = 64;
}
unfolding dart_membucket_create dart_membucket_alloc seek
two_chunks = refl

-- Released chunks are joined with their neighbours.
joined :
    (dart_membucket_free (dart_membucket_free two 1000).1 1016).1.free
    ≡ record { pos = 1000; size = 64 } ∷ []
unfolding dart_membucket_create dart_membucket_alloc seek dart_membucket_free dart_list_melt
    dart_insert_sorted
joined = refl

too_large : dart_membucket_alloc one 49 ≡ (null, one)
unfolding dart_membucket_create dart_membucket_alloc seek
too_large = refl

-- A request of no bytes is granted at the address that the next request gets too.
zero_shares_address :
    (dart_membucket_alloc (dart_membucket_alloc fresh 0).1 16).0 ≡ (dart_membucket_alloc fresh 0).0
unfolding dart_membucket_create dart_membucket_alloc seek
zero_shares_address = refl

fresh-IsValid : IsValid 1000 fresh
fresh-IsValid = dart_membucket_create-IsValid 1000 64 (omega arith)

one-IsValid : IsValid 1000 one
one-IsValid = dart_membucket_alloc-IsValid 16 (omega arith) fresh-IsValid

dart_membucket_alloc_outcome_example :
    IsGranted 1000 8 one (dart_membucket_alloc one 8) ⊎ IsRefused 8 one (dart_membucket_alloc one 8)
dart_membucket_alloc_outcome_example = dart_membucket_alloc_outcome 8 one-IsValid.partition

granted : (dart_membucket_alloc one 8).0 ≢ null
unfolding dart_membucket_create dart_membucket_alloc seek
granted = omega arith

free-alloc_example :
    dart_membucket_free (dart_membucket_alloc one 8).1 (dart_membucket_alloc one 8).0 ≡ (0, one)
free-alloc_example = free-alloc 8 one-IsValid (omega arith) granted

abbrev calls : List Call
calls = alloc 15 ∷ alloc 7 ∷ release 1000 ∷ release 7 ∷ alloc 3 ∷ release 1016 ∷ release 1000 ∷ []

nothing_left : (history (dart_membucket_create 1000 64) calls).allocated ≡ []
unfolding history dart_membucket_create dart_membucket_alloc seek dart_membucket_free dart_list_melt
    dart_insert_sorted
nothing_left = refl

history_released_example :
    history (dart_membucket_create 1000 64) calls ≡ dart_membucket_create 1000 64
history_released_example = history_released 1000 64 calls (omega arith) nothing_left
