-- ===== src/Shmem/Group/Split.antt =====
-- `dart_group_split` of dart_groups_impl.c.
use native.Mathlib.Nat.{div-add-mod, mod-lt}
use coronas.Prelude.{
  ℕ, zero, suc, ◌+◌, ◌-◌, ◌*◌, ◌/◌, ◌%◌, ◌≤◌, ◌<◌, ◌≡◌, refl, sym, ap, subst, ◌∙◌, some, List, [],
  ◌∷◌, ◌++◌, arith, ltb, if◌then◌else◌, length, set, length-set, take, drop, length-take,
  length-drop, get_elem?_lt,
}
use coronas.Prelude.Int.{ℤ, pos}
use coronas.Shmem.Group.{
  dart_group_split, Group, maxsize_group, mark_chunk, split_loop, group_rebuild, members_from,
  dart_group_init, dart_group_getmembers, dart_group_size,
}
use coronas.Shmem.Group.Rebuild.{
  members_from-replicate, IsGroup, group_rebuild-IsGroup, getmembers-group_rebuild,
}
use coronas.Shmem.Group.Marks.{
  IsAscending, IsAscending-drop, IsAscending-take, getmembers-IsAscending, ClearFrom-replicate,
  mark_all, length-mark_all, members_from-mark_all, drop-eq-cons, get_elem?-lt-hi,
}

-- The inner loop marks the next `rounds` members, if there are that many.
mark_chunk_lem :
    (g : Group) (rounds j : ℕ) (marks : List ℤ)
    → IsGroup g
    → length marks ≡ maxsize_group
    → j + rounds ≤ g.nmem
    → mark_chunk g rounds j marks
      ≡ some (mark_all marks (take rounds (drop j (dart_group_getmembers g))), j + rounds)
unfolding mark_chunk mark_all dart_group_getmembers
mark_chunk_lem g zero j marks h l r = ground arith
mark_chunk_lem g (suc rounds) j marks h l r =
    let (m, at) = get_elem?_lt (members_from 0 g.g2l) j (omega (arith, h.counted)) in
    let small = get_elem?-lt-hi 0 maxsize_group j m _ (getmembers-IsAscending g h) at in
    ground (
      arith,
      h.listed j m at,
      drop-eq-cons (members_from 0 g.g2l) j m at,
      mark_chunk_lem g rounds (suc j) (set marks m (pos 1)) h (length-set marks m (pos 1) ∙ l)
          (omega arith),
    )

-- The size of part `i`.
abbrev pub part_size : ℕ → ℕ → ℕ → ℕ
part_size bdiv brem i = if ltb i brem then bdiv + 1 else bdiv

-- The groups hold the units `ms`, in order, from part `i` on.
abbrev pub Parts : (bdiv brem i : ℕ) → List ℕ → List Group → Type 0
Parts bdiv brem i ms [] = ms ≡ []
Parts bdiv brem i ms (h ∷ hs) =
    IsGroup h
    × (dart_group_size h ≡ part_size bdiv brem i)
    × (dart_group_getmembers h ≡ take (part_size bdiv brem i) ms)
    × Parts bdiv brem (suc i) (drop (part_size bdiv brem i) ms) hs

drop-nil {ℓ} : (A : Type ℓ) (n : ℕ) → drop {A = A} n [] ≡ []
drop-nil A zero = refl
drop-nil A (suc n) = refl

drop-drop {ℓ} : {A : Type ℓ} (b j : ℕ) (xs : List A) → drop b (drop j xs) ≡ drop (j + b) xs
drop-drop b zero xs = ap (λ n. drop n xs) (omega arith)
drop-drop {A} b (suc j) [] = drop-nil A b ∙ sym (drop-nil A (suc j + b))
drop-drop b (suc j) (x ∷ xs) =
    drop-drop b j xs ∙ ap (λ n. drop n (x ∷ xs)) {x = suc (j + b)} (omega arith)

drop_all {ℓ} : {A : Type ℓ} (n : ℕ) (xs : List A) → n ≡ length xs → drop n xs ≡ []
drop_all zero [] h = refl
drop_all zero (x ∷ xs) h = absurd (omega arith)
drop_all (suc n) [] h = refl
drop_all (suc n) (x ∷ xs) h = drop_all n xs (omega arith)

-- One part: the group made of the marks.
abbrev part : List ℕ → Group
part ms = group_rebuild (record dart_group_init { g2l = mark_all dart_group_init.g2l ms })

part_lem :
    (ms : List ℕ)
    → IsAscending 0 maxsize_group ms
    → IsGroup (part ms)
      × (dart_group_size (part ms) ≡ length ms)
      × (dart_group_getmembers (part ms) ≡ ms)
unfolding dart_group_init dart_group_size dart_group_getmembers
part_lem ms o = (is_group, is_group.counted ∙ ap length members, members)
  where
    g : Group
    g = record dart_group_init { g2l = mark_all dart_group_init.g2l ms }

    is_group : IsGroup (group_rebuild g)
    is_group = group_rebuild-IsGroup g (length-mark_all dart_group_init.g2l ms) refl

    members : dart_group_getmembers (group_rebuild g) ≡ ms
    members =
        getmembers-group_rebuild g
        ∙ members_from-mark_all 0 256 dart_group_init.g2l ms refl (ClearFrom-replicate 256) o
        ∙ ap (λ l. l ++ ms) (members_from-replicate 0 256)

split_loop_step :
    (g : Group) (bdiv brem i left j : ℕ) {j' : ℕ} {marks : List ℤ} {rest : List Group}
    → mark_chunk g (part_size bdiv brem i) j dart_group_init.g2l ≡ some (marks, j')
    → split_loop g bdiv brem (suc i) left j' ≡ some rest
    → split_loop g bdiv brem i (suc left) j
      ≡ some (group_rebuild (record dart_group_init { g2l = marks }) ∷ rest)
unfolding split_loop
split_loop_step g bdiv brem i left j p q = rw (p, split_loop) (rw (q, split_loop))

split_loop_lem :
    (g : Group) (bdiv brem i left j : ℕ)
    → IsGroup g
    → brem ≤ i + left
    → j + (left * bdiv + (brem - i)) ≡ g.nmem
    → (gs : List Group) × (split_loop g bdiv brem i left j ≡ some gs)
      × (length gs ≡ left)
      × Parts bdiv brem i (drop j (dart_group_getmembers g)) gs
unfolding split_loop dart_group_getmembers dart_group_init
split_loop_lem g bdiv brem i zero j h le e =
    ([], refl, refl, drop_all j _ (omega (arith, h.counted)))
split_loop_lem g bdiv brem i (suc left) j h le e =
    let (rest, run, count, parts) =
      split_loop_lem g bdiv brem (suc i) left (j + b) h (omega arith) (ground (arith)) in
    (
      part (take b ms) ∷ rest,
      split_loop_step g bdiv brem i left j (mark_chunk_lem g b j dart_group_init.g2l h refl room)
          run,
      ap suc count,
      (
        (part_lem (take b ms) asc).0,
        (part_lem (take b ms) asc).1
            ∙ (length-take b ms
                ∙ omega (arith, room, length-drop j (members_from 0 g.g2l), h.counted)),
        (part_lem (take b ms) asc).2,
        subst (λ l. Parts bdiv brem (suc i) l rest) (sym (drop-drop b j (members_from 0 g.g2l)))
            parts,
      ),
    )
  where
    b : ℕ
    b = part_size bdiv brem i

    room : j + b ≤ g.nmem
    room = ground arith

    ms : List ℕ
    ms = drop j (members_from 0 g.g2l)

    asc : IsAscending 0 maxsize_group (take b ms)
    asc =
        IsAscending-take 0 maxsize_group b ms
          (IsAscending-drop 0 maxsize_group j _ (getmembers-IsAscending g h))

-- Splitting a group into `n` parts, `n` not 0, never fails. It gives `n` groups that hold the
-- members in order, each a group, `nmem % n` of them one unit larger than the others.
pub dart_group_split_lem :
    (g : Group) (n : ℕ)
    → IsGroup g
    → 0 < n
    → (gs : List Group) × (dart_group_split g n ≡ some gs)
      × (length gs ≡ n)
      × Parts (dart_group_size g / n) (dart_group_size g % n) 0 (dart_group_getmembers g) gs
unfolding dart_group_split dart_group_size
dart_group_split_lem g zero h p = absurd (omega arith)
dart_group_split_lem g (suc n) h p =
    split_loop_lem g (g.nmem / suc n) (g.nmem % suc n) 0 (suc n) 0 h
      (omega (arith, mod-lt g.nmem {m = suc n} (omega arith)))
      (omega (arith, div-add-mod g.nmem (suc n)))
