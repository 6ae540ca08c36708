-- ===== src/Shmem/Group/Rebuild.antt =====
-- `group_rebuild` of dart_groups_impl.c.
use coronas.Prelude.{
  ℕ, zero, suc, ◌+◌, ◌≤◌, ◌<◌, ◌≡◌, refl, sym, ap, ◌∙◌, some, List, [], ◌∷◌, arith, if◌then◌else◌,
  length, get_elem?, set, length-set, get_elem?-set_self, get_elem?-set_ne, replicate,
}
use native.Mathlib.Nat.{zero-add, add-zero, add-suc}
use coronas.Prelude.Int.{negsuc, ℤ, pos}
use coronas.Shmem.Group.{
  dart_group_ismember, maxsize_group, dart_group_getmembers, group_rebuild, Group, valid_cell,
  is_valid, rebuild_loop, members_from,
}

-- The array with its valid cells numbered from `n` on.
pub renumber : ℕ → List ℤ → List ℤ
renumber n [] = []
renumber n (x ∷ xs) = if is_valid x then pos n ∷ renumber (suc n) xs else x ∷ renumber n xs

-- `pos m` for each `m`, written to the cells from `n` on.
pub write_all : ℕ → List ℕ → List ℤ → List ℤ
write_all n [] l = l
write_all n (m ∷ ms) l = write_all (suc n) ms (set l n (pos m))

-- The loop numbers the valid cells of `g2l`, and writes their indices to `l2g`.
pub rebuild_loop_lem :
    (i n : ℕ) (xs l : List ℤ)
    → rebuild_loop i n xs l ≡ record {
      g2l = renumber n xs;
      l2g = write_all n (members_from i xs) l;
      n = n + length (members_from i xs);
    }
unfolding rebuild_loop renumber write_all members_from
rebuild_loop_lem i n [] l = ground arith
rebuild_loop_lem i n (x ∷ xs) l =
    ground (
      arith,
      rebuild_loop_lem (suc i) (suc n) xs (set l n (pos i)),
      rebuild_loop_lem (suc i) n xs l,
    )

length-renumber : (n : ℕ) (xs : List ℤ) → length (renumber n xs) ≡ length xs
unfolding renumber
length-renumber n [] = refl
length-renumber n (x ∷ xs) = ground (arith, length-renumber (suc n) xs, length-renumber n xs)

length-write_all : (n : ℕ) (ms : List ℕ) (l : List ℤ) → length (write_all n ms l) ≡ length l
unfolding write_all
length-write_all n [] l = refl
length-write_all n (m ∷ ms) l = length-write_all (suc n) ms _ ∙ length-set l n (pos m)

length-members_from : (i : ℕ) (xs : List ℤ) → length (members_from i xs) ≤ length xs
unfolding members_from
length-members_from i [] = omega arith
length-members_from i (x ∷ xs) = ground (arith, length-members_from (suc i) xs)

pub members_from-renumber :
    (i n : ℕ) (xs : List ℤ) → members_from i (renumber n xs) ≡ members_from i xs
unfolding members_from renumber
members_from-renumber i n [] = refl
members_from-renumber i n (x ∷ xs) =
    ground (arith, members_from-renumber (suc i) (suc n) xs, members_from-renumber (suc i) n xs)

renumber-renumber : (n : ℕ) (xs : List ℤ) → renumber n (renumber n xs) ≡ renumber n xs
unfolding renumber
renumber-renumber n [] = refl
renumber-renumber n (x ∷ xs) = ground (arith, renumber-renumber (suc n) xs, renumber-renumber n xs)

pub members_from-replicate : (i n : ℕ) → members_from i (replicate n (negsuc 0)) ≡ []
unfolding members_from
members_from-replicate i zero = refl
members_from-replicate i (suc n) = members_from-replicate (suc i) n

pub renumber-replicate : (n k : ℕ) → renumber n (replicate k (negsuc 0)) ≡ replicate k (negsuc 0)
unfolding renumber
renumber-replicate n zero = refl
renumber-replicate n (suc k) = ap (λ l. negsuc 0 ∷ l) (renumber-replicate n k)

-- Renumbering keeps what is valid.
pub valid_cell-renumber :
    (n : ℕ) (xs : List ℤ) (j : ℕ)
    → valid_cell (get_elem? (renumber n xs) j) ≡ valid_cell (get_elem? xs j)
unfolding renumber
valid_cell-renumber n [] j = refl
valid_cell-renumber n (x ∷ xs) zero = ground arith
valid_cell-renumber n (x ∷ xs) (suc j) =
    ground (arith, valid_cell-renumber (suc n) xs j, valid_cell-renumber n xs j)

get_elem?-write_all_before :
    (n j : ℕ) (ms : List ℕ) (l : List ℤ) → j < n → get_elem? (write_all n ms l) j ≡ get_elem? l j
unfolding write_all
get_elem?-write_all_before n j [] l h = refl
get_elem?-write_all_before n j (m ∷ ms) l h =
    get_elem?-write_all_before (suc n) j ms _ (omega arith)
    ∙ get_elem?-set_ne l (pos m) (omega arith)

-- The `k`-th number goes to cell `n + k`.
get_elem?-write_all :
    (n k m : ℕ) (ms : List ℕ) (l : List ℤ)
    → n + length ms ≤ length l
    → get_elem? ms k ≡ some m
    → get_elem? (write_all n ms l) (n + k) ≡ some (pos m)
unfolding write_all
get_elem?-write_all n k m [] l h e = cc
get_elem?-write_all n zero m (x ∷ ms) l h e = ground (
  arith,
  get_elem?-write_all_before (suc n) n ms (set l n (pos x)),
  get_elem?-set_self l n (pos x),
  add-zero n,
)
get_elem?-write_all n (suc k) m (x ∷ ms) l h e = ground (
  arith,
  get_elem?-write_all (suc n) k m ms (set l n (pos x)),
  length-set l n (pos x),
  add-suc n k,
)

-- The `k`-th member is the index of the cell that holds `n + k`.
pub renumber_of_member :
    (i n k m : ℕ) (xs : List ℤ)
    → get_elem? (members_from i xs) k ≡ some m
    → (d : ℕ) × (m ≡ i + d) × (get_elem? (renumber n xs) d ≡ some (pos (n + k)))
unfolding members_from renumber
renumber_of_member i n k m [] e = absurd (cc)
renumber_of_member i n zero m (pos v ∷ xs) e = (0, ground arith, ground arith)
renumber_of_member i n (suc k) m (pos v ∷ xs) e =
    let (d, at, cell) = renumber_of_member (suc i) (suc n) k m xs e in
    (suc d, omega arith, ground arith)
renumber_of_member i n k m (negsuc v ∷ xs) e =
    let (d, at, cell) = renumber_of_member (suc i) n k m xs e in (suc d, omega arith, cell)

-- And the cell that holds `v` is that of the member number `v - n`.
pub member_of_renumber :
    (i n j v : ℕ) (xs : List ℤ)
    → get_elem? (renumber n xs) j ≡ some (pos v)
    → (k : ℕ) × (v ≡ n + k) × (get_elem? (members_from i xs) k ≡ some (i + j))
unfolding members_from renumber
member_of_renumber i n j v [] e = absurd (cc)
member_of_renumber i n zero v (pos u ∷ xs) e = (0, ground arith, ground arith)
member_of_renumber i n zero v (negsuc u ∷ xs) e = absurd (cc)
member_of_renumber i n (suc j) v (pos u ∷ xs) e =
    let (k, at, member) = member_of_renumber (suc i) (suc n) j v xs e in
    (suc k, omega arith, ground arith)
member_of_renumber i n (suc j) v (negsuc u ∷ xs) e =
    let (k, at, member) = member_of_renumber (suc i) n j v xs e in (k, at, ground arith)

-- The invariant of a group: `l2g` lists the members, and `g2l` numbers them in that order.
pub record IsGroup (g : Group) : Type 0 where
  pub cells_g2l : length g.g2l ≡ maxsize_group
  pub cells_l2g : length g.l2g ≡ maxsize_group
  pub counted : g.nmem ≡ length (members_from 0 g.g2l)
  pub numbered : renumber 0 g.g2l ≡ g.g2l
  pub listed :
      (k m : ℕ) → get_elem? (members_from 0 g.g2l) k ≡ some m → get_elem? g.l2g k ≡ some (pos m)

-- Whatever the marks in `g2l`, `group_rebuild` makes a group of them.
pub group_rebuild-IsGroup :
    (g : Group)
    → length g.g2l ≡ maxsize_group
    → length g.l2g ≡ maxsize_group
    → IsGroup (group_rebuild g)
unfolding group_rebuild
group_rebuild-IsGroup g h k = rw (rebuild_loop_lem 0 0 g.g2l g.l2g) (record {
  cells_g2l = length-renumber 0 g.g2l ∙ h;
  cells_l2g = length-write_all 0 (members_from 0 g.g2l) g.l2g ∙ k;
  counted = omega (arith, ap length (members_from-renumber 0 0 g.g2l));
  numbered = renumber-renumber 0 g.g2l;
  listed = λ i m e. rw zero-add at (
      get_elem?-write_all 0 i m (members_from 0 g.g2l) g.l2g
        (omega (arith, length-members_from 0 g.g2l))
        (sym (ap (λ l. get_elem? l i) (members_from-renumber 0 0 g.g2l)) ∙ e));
})

-- And keeps who is a member.
pub ismember-group_rebuild :
    (g : Group) (i : ℕ) → dart_group_ismember (group_rebuild g) i ≡ dart_group_ismember g i
unfolding group_rebuild dart_group_ismember
ismember-group_rebuild g i = rw (rebuild_loop_lem 0 0 g.g2l g.l2g) (valid_cell-renumber 0 g.g2l i)

pub getmembers-group_rebuild :
    (g : Group) → dart_group_getmembers (group_rebuild g) ≡ dart_group_getmembers g
unfolding group_rebuild dart_group_getmembers
getmembers-group_rebuild g = rw (rebuild_loop_lem 0 0 g.g2l g.l2g) (members_from-renumber 0 0 g.g2l)
