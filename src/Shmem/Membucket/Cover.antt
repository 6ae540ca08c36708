-- ===== src/Shmem/Membucket/Cover.antt =====
-- Which bytes a list of chunks covers, and what the list operations of dart_membucket.c do to them.
use coronas.Prelude.{
  ℕ, ◌+◌, ◌≡◌, refl, ap, inl, inr, Bool, true, false, ◌&&◌, List, [], ◌∷◌, ◌++◌, ltb, leb,
  if◌then◌else◌, Bool-cases, arith,
}
use coronas.Shmem.Membucket.{
  Chunk, Cursor, stop, end_of_list, pass, seek, melt_from, dart_list_melt, dart_insert_sorted,
  dart_remove_list_entry,
}

-- 1 if the byte at address `a` lies in the chunk, 0 if not.
abbrev pub holds_at : ℕ → Chunk → ℕ
holds_at a c = if leb c.pos a && ltb a (c.pos + c.size) then 1 else 0

-- In how many chunks of the list the byte lies.
unfoldable pub cover : ℕ → List Chunk → ℕ
cover a [] = 0
cover a (c ∷ cs) = holds_at a c + cover a cs

-- The number of bytes in the chunks of the list.
unfoldable pub total_size : List Chunk → ℕ
total_size [] = 0
total_size (c ∷ cs) = c.size + total_size cs

pub cover-nil : (a : ℕ) → cover a [] ≡ 0
unfolding cover
cover-nil a = refl

pub cover-cons :
    (a : ℕ) (c : Chunk) (cs : List Chunk) → cover a (c ∷ cs) ≡ holds_at a c + cover a cs
unfolding cover
cover-cons a c cs = refl

pub cover-append : (a : ℕ) (xs ys : List Chunk) → cover a (xs ++ ys) ≡ cover a xs + cover a ys
unfolding cover
cover-append a [] ys = omega arith
cover-append a (x ∷ xs) ys = omega (arith, cover-append a xs ys)

pub total_size-append : (xs ys : List Chunk) → total_size (xs ++ ys) ≡ total_size xs + total_size ys
unfolding total_size
total_size-append [] ys = omega arith
total_size-append (x ∷ xs) ys = omega (arith, total_size-append xs ys)

-- Two adjoining chunks cover what the one made of them covers.
holds_at-join :
    (a pos m n : ℕ) (c : Chunk)
    → pos + m ≡ c.pos
    → n ≡ c.size
    → holds_at a (record { pos = pos; size = m + n })
      ≡ holds_at a (record { pos = pos; size = m }) + holds_at a c
holds_at-join a pos m n c p q = ground arith

pub cover-melt_from :
    (a : ℕ) (prev : Chunk) (cs : List Chunk)
    → cover a (melt_from prev cs) ≡ holds_at a prev + cover a cs
unfolding cover melt_from
cover-melt_from a prev [] = refl
cover-melt_from a prev (c ∷ cs) = ground (
  arith,
  cover-melt_from a (record prev { size = prev.size + c.size }) cs,
  cover-melt_from a c cs,
  holds_at-join a prev.pos prev.size c.size c,
)

pub cover-dart_list_melt : (a : ℕ) (cs : List Chunk) → cover a (dart_list_melt cs) ≡ cover a cs
unfolding dart_list_melt
cover-dart_list_melt a [] = refl
cover-dart_list_melt a (c ∷ cs) = rw (cover-melt_from a c cs, cover-cons a c cs)

pub cover-dart_insert_sorted :
    (a : ℕ) (cs : List Chunk) (e : Chunk)
    → cover a (dart_insert_sorted cs e) ≡ holds_at a e + cover a cs
unfolding cover dart_insert_sorted
cover-dart_insert_sorted a [] e = refl
cover-dart_insert_sorted a (c ∷ cs) e = ground (arith, cover-dart_insert_sorted a cs e)

pub cover-dart_remove_list_entry :
    (a : ℕ) (passed next : List Chunk)
    → cover a (dart_remove_list_entry passed next) ≡ cover a passed + cover a next
unfolding dart_remove_list_entry
cover-dart_remove_list_entry a [] next = unfold cover in omega arith
cover-dart_remove_list_entry a (p ∷ ps) next = cover-append a (p ∷ ps) next

pub total_size-dart_remove_list_entry :
    (passed next : List Chunk)
    → total_size (dart_remove_list_entry passed next) ≡ total_size passed + total_size next
unfolding dart_remove_list_entry
total_size-dart_remove_list_entry [] next = unfold total_size in omega arith
total_size-dart_remove_list_entry (p ∷ ps) next = total_size-append (p ∷ ps) next

pub total_size-melt_from :
    (prev : Chunk) (cs : List Chunk) → total_size (melt_from prev cs) ≡ prev.size + total_size cs
unfolding total_size melt_from
total_size-melt_from prev [] = refl
total_size-melt_from prev (c ∷ cs) = ground (
  arith,
  total_size-melt_from (record prev { size = prev.size + c.size }) cs,
  total_size-melt_from c cs,
)

pub total_size-dart_list_melt : (cs : List Chunk) → total_size (dart_list_melt cs) ≡ total_size cs
unfolding dart_list_melt
total_size-dart_list_melt [] = refl
total_size-dart_list_melt (c ∷ cs) = unfold total_size in total_size-melt_from c cs

pub total_size-dart_insert_sorted :
    (cs : List Chunk) (e : Chunk) → total_size (dart_insert_sorted cs e) ≡ e.size + total_size cs
unfolding total_size dart_insert_sorted
total_size-dart_insert_sorted [] e = refl
total_size-dart_insert_sorted (c ∷ cs) e = ground (arith, total_size-dart_insert_sorted cs e)

-- What a search says of the list: `test` fails at the nodes passed and holds at `current`.
abbrev pub AllFail : (Chunk → Bool) → List Chunk → Type 0
AllFail test [] = Unit
AllFail test (c ∷ cs) = (test c ≡ false) × AllFail test cs

abbrev pub Found : (Chunk → Bool) → List Chunk → Cursor → Type 0
Found test cs (stop passed current next) =
    (cs ≡ passed ++ (current ∷ next)) × (test current ≡ true) × AllFail test passed
Found test cs end_of_list = AllFail test cs

pass-Found :
    (test : Chunk → Bool) (c : Chunk) (cs : List Chunk) (k : Cursor)
    → test c ≡ false
    → Found test cs k
    → Found test (c ∷ cs) (pass c k)
unfolding pass
pass-Found test c cs (stop p d n) h f = (ap (λ l. c ∷ l) f.0, f.1, (h, f.2))
pass-Found test c cs end_of_list h f = (h, f)

pub seek-Found : (test : Chunk → Bool) (cs : List Chunk) → Found test cs (seek test cs)
unfolding seek
seek-Found test [] = tt
seek-Found test (c ∷ cs) = elim (Bool-cases (test c)) [
  | inl y ↦ rw y (refl, y, tt)
  | inr n ↦ rw n (pass-Found test c cs (seek test cs) n (seek-Found test cs))
]
