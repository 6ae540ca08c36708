-- ===== src/Shmem/Membucket/History.antt =====
-- Any sequence of calls of dart_membucket_alloc and dart_membucket_free on one bucket.
use coronas.Prelude.{ℕ, suc, ◌+◌, ◌<◌, ◌≡◌, refl, ap, subst, ◌∙◌, List, [], ◌∷◌, arith}
use coronas.Shmem.Membucket.{
  Chunk, Bucket, dart_membucket_create, dart_membucket_alloc, dart_membucket_free,
}
use coronas.Shmem.Membucket.Cover.{holds_at, cover, cover-nil}
use coronas.Shmem.Membucket.Partition.{dart_membucket_alloc-size, dart_membucket_free-size}
use coronas.Shmem.Membucket.Coalesced.{IsCoalesced, IsOrdered, IsCoalesced→IsOrdered, cover-lt}
use coronas.Shmem.Membucket.Valid.{
  IsValid, dart_membucket_create-IsValid, dart_membucket_alloc-IsValid, dart_membucket_free-IsValid,
}

-- A call; the size of an allocation is `size_minus_one + 1`, so none is empty.
pub data Call : Type 0 where
  alloc : (size_minus_one : ℕ) → Call
  release : (pos : ℕ) → Call

pub perform : Bucket → Call → Bucket
perform b (alloc n) = (dart_membucket_alloc b (suc n)).1
perform b (release pos) = (dart_membucket_free b pos).1

unfoldable pub history : Bucket → List Call → Bucket
unfolding perform
history b [] = b
history b (c ∷ cs) = history (perform b c) cs

perform-IsValid : {base : ℕ} {b : Bucket} (c : Call) → IsValid base b → IsValid base (perform b c)
unfolding perform
perform-IsValid (alloc n) v = dart_membucket_alloc-IsValid (suc n) (omega arith) v
perform-IsValid (release pos) v = dart_membucket_free-IsValid pos v

perform-size : (b : Bucket) (c : Call) → (perform b c).size ≡ b.size
unfolding perform
perform-size b (alloc n) = dart_membucket_alloc-size b (suc n)
perform-size b (release pos) = dart_membucket_free-size b pos

history-IsValid :
    {base : ℕ} {b : Bucket} (cs : List Call) → IsValid base b → IsValid base (history b cs)
unfolding history
history-IsValid [] v = v
history-IsValid {b} (c ∷ cs) v = history-IsValid {b = perform b c} cs (perform-IsValid c v)

history-size : (b : Bucket) (cs : List Call) → (history b cs).size ≡ b.size
unfolding history
history-size b [] = refl
history-size b (c ∷ cs) = history-size (perform b c) cs ∙ perform-size b c

no_room : (lo hi : ℕ) (cs : List Chunk) → IsCoalesced lo hi cs → hi < lo → cs ≡ []
no_room lo hi [] o h = refl
no_room lo hi (c ∷ cs) o h = absurd (omega arith)

-- A free list without seams that covers all of a pool is one chunk.
covers_all :
    (base size : ℕ) (cs : List Chunk)
    → 0 < size
    → IsCoalesced base (base + size) cs
    → ((a : ℕ) → cover a cs ≡ holds_at a (record { pos = base; size = size }))
    → cs ≡ record { pos = base; size = size } ∷ []
unfolding cover
covers_all base size [] h o all = absurd (ground (arith, all base))
covers_all base size (c ∷ cs) h o all = ground (
  arith,
  all base,
  all (c.pos + c.size),
  cover-lt base (c.pos + c.size + 1) (base + size) cs behind,
  cover-lt (c.pos + c.size) (c.pos + c.size + 1) (base + size) cs behind,
  no_room (c.pos + c.size + 1) (base + size) cs o.3,
)
  where
    behind : IsOrdered (c.pos + c.size + 1) (base + size) cs
    behind = IsCoalesced→IsOrdered (c.pos + c.size + 1) (base + size) cs o.3

-- Whatever was called before: once nothing is allocated, the bucket is again as it was created, its
-- free list one chunk.
pub history_released :
    (base size : ℕ) (cs : List Call)
    → 0 < size
    → (history (dart_membucket_create base size) cs).allocated ≡ []
    → history (dart_membucket_create base size) cs ≡ dart_membucket_create base size
unfolding dart_membucket_create
history_released base size cs h none_left =
    λ i. record { free = one_chunk i; allocated = none_left i; size = same_size i }
  where
    b : Bucket
    b = history (dart_membucket_create base size) cs

    v : IsValid base b
    v = history-IsValid cs (dart_membucket_create-IsValid base size h)

    same_size : b.size ≡ size
    same_size = history-size (dart_membucket_create base size) cs

    all : (a : ℕ) → cover a b.free ≡ holds_at a (record { pos = base; size = size })
    all a =
        subst (λ s. cover a b.free ≡ holds_at a (record { pos = base; size = s })) same_size
          (omega (arith, v.partition.covers a, ap (cover a) none_left, cover-nil a))

    one_chunk : b.free ≡ record { pos = base; size = size } ∷ []
    one_chunk =
        covers_all base size b.free h
          (subst (λ s. IsCoalesced base (base + s) b.free) same_size v.coalesced) all
