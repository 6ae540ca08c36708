-- ===== src/Shmem/Group/Marks.antt =====
-- Marking units in an array of `dart_groups_impl.c`, and the order in which members are listed.
use coronas.Prelude.{
  ℕ, zero, suc, ◌+◌, ◌≤◌, ◌<◌, ◌≡◌, refl, sym, ap, subst, ◌∙◌, false, some, List, [], ◌∷◌, ◌++◌,
  arith, length, get_elem?, set, length-set, take, drop, replicate,
}
use mathlib.Core.List.{append-nil, append_assoc}
use coronas.Prelude.Int.{ℤ, pos, negsuc}
use coronas.Shmem.Group.{Group, maxsize_group, is_valid, members_from, dart_group_getmembers}
use coronas.Shmem.Group.Rebuild.{IsGroup}

-- In increasing order from `lo` on, below `hi`.
abbrev pub IsAscending : ℕ → ℕ → List ℕ → Type 0
IsAscending lo hi [] = Unit
IsAscending lo hi (m ∷ ms) = (lo ≤ m) × (m < hi) × IsAscending (suc m) hi ms

IsAscending-weaken :
    (lo lo' hi : ℕ) (ms : List ℕ) → lo' ≤ lo → IsAscending lo hi ms → IsAscending lo' hi ms
IsAscending-weaken lo lo' hi [] h o = tt
IsAscending-weaken lo lo' hi (m ∷ ms) h o = (omega arith, o.1, o.2)

members_from-IsAscending : (i : ℕ) (xs : List ℤ) → IsAscending i (i + length xs) (members_from i xs)
unfolding members_from
members_from-IsAscending i [] = tt
members_from-IsAscending i (pos v ∷ xs) = (
  omega arith,
  omega arith,
  subst (λ h. IsAscending (suc i) h (members_from (suc i) xs)) (omega arith)
      (members_from-IsAscending (suc i) xs),
)
members_from-IsAscending i (negsuc v ∷ xs) =
    IsAscending-weaken (suc i) i (i + suc (length xs)) _ (omega arith) (
      subst (λ h. IsAscending (suc i) h (members_from (suc i) xs)) (omega arith)
        (members_from-IsAscending (suc i) xs))

-- The members of a group come in increasing order, each below 256.
pub getmembers-IsAscending :
    (g : Group) → IsGroup g → IsAscending 0 maxsize_group (dart_group_getmembers g)
unfolding dart_group_getmembers
getmembers-IsAscending g h =
    subst (λ n. IsAscending 0 n (members_from 0 g.g2l)) (omega (arith, h.cells_g2l))
      (members_from-IsAscending 0 g.g2l)

pub IsAscending-drop :
    (lo hi n : ℕ) (ms : List ℕ) → IsAscending lo hi ms → IsAscending lo hi (drop n ms)
IsAscending-drop lo hi zero ms o = o
IsAscending-drop lo hi (suc n) [] o = tt
IsAscending-drop lo hi (suc n) (m ∷ ms) o =
    IsAscending-weaken (suc m) lo hi _ (omega arith) (IsAscending-drop (suc m) hi n ms o.2)

pub IsAscending-take :
    (lo hi n : ℕ) (ms : List ℕ) → IsAscending lo hi ms → IsAscending lo hi (take n ms)
IsAscending-take lo hi zero ms o = tt
IsAscending-take lo hi (suc n) [] o = tt
IsAscending-take lo hi (suc n) (m ∷ ms) o = (o.0, o.1, IsAscending-take (suc m) hi n ms o.2)

-- No cell from `lo` on is valid.
abbrev pub ClearFrom : ℕ → List ℤ → Type 0
ClearFrom lo [] = Unit
ClearFrom zero (x ∷ xs) = (is_valid x ≡ false) × ClearFrom zero xs
ClearFrom (suc lo) (x ∷ xs) = ClearFrom lo xs

members_from-clear : (i : ℕ) (xs : List ℤ) → ClearFrom 0 xs → members_from i xs ≡ []
unfolding members_from
members_from-clear i [] c = refl
members_from-clear i (x ∷ xs) c = rw c.0 (members_from-clear (suc i) xs c.1)

ClearFrom-set :
    (lo m : ℕ) (xs : List ℤ) → lo ≤ m → ClearFrom lo xs → ClearFrom (suc m) (set xs m (pos 1))
ClearFrom-set lo m [] h c = tt
ClearFrom-set zero zero (x ∷ xs) h c = c.1
ClearFrom-set (suc lo) zero (x ∷ xs) h c = absurd (omega arith)
ClearFrom-set zero (suc m) (x ∷ xs) h c = ClearFrom-set zero m xs (omega arith) c.1
ClearFrom-set (suc lo) (suc m) (x ∷ xs) h c = ClearFrom-set lo m xs (omega arith) c

-- A mark behind all others adds a member at the end.
members_from-set :
    (i lo m : ℕ) (xs : List ℤ)
    → lo ≤ m
    → m < length xs
    → ClearFrom lo xs
    → members_from i (set xs m (pos 1)) ≡ members_from i xs ++ ((i + m) ∷ [])
unfolding members_from
members_from-set i lo m [] h l c = absurd (omega arith)
members_from-set i zero zero (x ∷ xs) h l c =
    rw (c.0, members_from-clear (suc i) xs c.1) (ground arith)
members_from-set i (suc lo) zero (x ∷ xs) h l c = absurd (omega arith)
members_from-set i zero (suc m) (pos v ∷ xs) h l c = absurd (cc)
members_from-set i zero (suc m) (negsuc v ∷ xs) h l c =
    members_from-set (suc i) zero m xs (omega arith) (omega arith) c.1
    ∙ ap (λ k. members_from (suc i) xs ++ (k ∷ [])) (omega arith)
members_from-set i (suc lo) (suc m) (pos v ∷ xs) h l c =
    ap (λ ms. i ∷ ms)
      (members_from-set (suc i) lo m xs (omega arith) (omega arith) c
        ∙ ap (λ k. members_from (suc i) xs ++ (k ∷ [])) (omega arith))
members_from-set i (suc lo) (suc m) (negsuc v ∷ xs) h l c =
    members_from-set (suc i) lo m xs (omega arith) (omega arith) c
    ∙ ap (λ k. members_from (suc i) xs ++ (k ∷ [])) (omega arith)

-- `1` written at each of the cells `ms`.
unfoldable pub mark_all : List ℤ → List ℕ → List ℤ
mark_all xs [] = xs
mark_all xs (m ∷ ms) = mark_all (set xs m (pos 1)) ms

pub length-mark_all : (xs : List ℤ) (ms : List ℕ) → length (mark_all xs ms) ≡ length xs
unfolding mark_all
length-mark_all xs [] = refl
length-mark_all xs (m ∷ ms) = length-mark_all (set xs m (pos 1)) ms ∙ length-set xs m (pos 1)

pub members_from-mark_all :
    (lo hi : ℕ) (xs : List ℤ) (ms : List ℕ)
    → length xs ≡ hi
    → ClearFrom lo xs
    → IsAscending lo hi ms
    → members_from 0 (mark_all xs ms) ≡ members_from 0 xs ++ ms
unfolding mark_all
members_from-mark_all lo hi xs [] e c o = sym (append-nil (members_from 0 xs))
members_from-mark_all lo hi xs (m ∷ ms) e c o =
    members_from-mark_all (suc m) hi (set xs m (pos 1)) ms (length-set xs m (pos 1) ∙ e)
      (ClearFrom-set lo m xs o.0 c) o.2
    ∙ ap (λ l. l ++ ms) (members_from-set 0 lo m xs o.0 (omega arith) c)
    ∙ append_assoc (members_from 0 xs) ((0 + m) ∷ []) ms
    ∙ ap (λ k. members_from 0 xs ++ (k ∷ ms)) (omega arith)

pub drop-eq-cons {ℓ} :
    {A : Type ℓ} (xs : List A) (j : ℕ) (a : A)
    → get_elem? xs j ≡ some a
    → drop j xs ≡ a ∷ drop (suc j) xs
drop-eq-cons [] j a e = absurd (cc)
drop-eq-cons (x ∷ xs) zero a e = cc
drop-eq-cons (x ∷ xs) (suc j) a e = drop-eq-cons xs j a e

pub get_elem?-lt-hi :
    (lo hi j m : ℕ) (ms : List ℕ) → IsAscending lo hi ms → get_elem? ms j ≡ some m → m < hi
get_elem?-lt-hi lo hi j m [] o e = absurd (cc)
get_elem?-lt-hi lo hi zero m (x ∷ ms) o e = ground arith
get_elem?-lt-hi lo hi (suc j) m (x ∷ ms) o e = get_elem?-lt-hi (suc x) hi j m ms o.2 e

pub ClearFrom-replicate : (n : ℕ) → ClearFrom 0 (replicate n (negsuc 0))
ClearFrom-replicate zero = tt
ClearFrom-replicate (suc n) = (refl, ClearFrom-replicate n)
