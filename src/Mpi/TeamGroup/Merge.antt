-- ===== src/Mpi/TeamGroup/Merge.antt =====
-- The merge of `dart_group_union` in dart_team_group.c.
use coronas.Prelude.{
  ℕ, zero, suc, ◌+◌, ◌≤◌, ◌<◌, ◌≡◌, refl, sym, ap, subst, ◌∙◌, ◌⊎◌, inl, inr, true, false, ◌||◌,
  List, [], ◌∷◌, ◌++◌, arith, leb, ◌==◌, if◌then◌else◌, ==_iff, Bool-cases, length,
}
use coronas.Mpi.TeamGroup.{merge, has}

-- In order, from `b` on.
abbrev pub IsOrdered : (b : ℕ) → List ℕ → Type 0
IsOrdered b [] = Unit
IsOrdered b (x ∷ xs) = (b ≤ x) × IsOrdered x xs

pub IsOrdered-merge :
    (r b : ℕ) (xs ys : List ℕ) → IsOrdered b xs → IsOrdered b ys → IsOrdered b (merge r xs ys)
unfolding merge
IsOrdered-merge zero b xs ys h k = tt
IsOrdered-merge (suc r) b [] [] h k = tt
IsOrdered-merge (suc r) b [] (y ∷ ys) h k = (k.0, IsOrdered-merge r y [] ys tt k.1)
IsOrdered-merge (suc r) b (x ∷ xs) [] h k = (h.0, IsOrdered-merge r x xs [] h.1 tt)
IsOrdered-merge (suc r) b (x ∷ xs) (y ∷ ys) h k = elim (Bool-cases (leb x y)) [
  | inl e ↦ rw (e, merge) (h.0, IsOrdered-merge r x xs (y ∷ ys) h.1 (ground (arith, e), k.1))
  | inr e ↦ rw (e, merge) (k.0, IsOrdered-merge r y (x ∷ xs) ys (ground (arith, e), h.1) k.1)
]

-- No id occurs twice.
abbrev pub IsDistinct : List ℕ → Type 0
IsDistinct [] = Unit
IsDistinct (x ∷ xs) = (has x xs ≡ false) × IsDistinct xs

-- Every id is below `n`.
abbrev pub AllBelow : (n : ℕ) → List ℕ → Type 0
AllBelow n xs = (a : ℕ) → has a xs ≡ true → a < n

pub has-append : (a : ℕ) (xs ys : List ℕ) → has a (xs ++ ys) ≡ (has a xs || has a ys)
unfolding has
has-append a [] ys = ground arith
has-append a (x ∷ xs) ys = ground (arith, has-append a xs ys)

-- With a round for each id, no id is lost.
pub has-merge :
    (r a : ℕ) (xs ys : List ℕ)
    → length xs + length ys ≤ r
    → has a (merge r xs ys) ≡ (has a xs || has a ys)
unfolding merge has
has-merge zero a [] [] h = ground arith
has-merge zero a (x ∷ xs) ys h = absurd (omega (arith, h))
has-merge zero a [] (y ∷ ys) h = absurd (omega (arith, h))
has-merge (suc r) a [] [] h = ground arith
has-merge (suc r) a [] (y ∷ ys) h = ground (arith, has-merge r a [] ys (omega (arith, h)))
has-merge (suc r) a (x ∷ xs) [] h = ground (arith, has-merge r a xs [] (omega (arith, h)))
has-merge (suc r) a (x ∷ xs) (y ∷ ys) h = ground (
  arith,
  has-merge r a xs (y ∷ ys) (omega (arith, h)),
  has-merge r a (x ∷ xs) ys (omega (arith, h)),
)

-- The ids of a list that another does not have.
unfoldable pub missing : List ℕ → List ℕ → List ℕ
missing xs [] = []
missing xs (y ∷ ys) = if has y xs then missing xs ys else y ∷ missing xs ys

IsOrdered-mono : (b c : ℕ) (l : List ℕ) → c ≤ b → IsOrdered b l → IsOrdered c l
IsOrdered-mono b c [] e h = tt
IsOrdered-mono b c (x ∷ l) e h = (omega (arith, e, h.0), h.1)

pub IsOrdered-missing : (b : ℕ) (xs ys : List ℕ) → IsOrdered b ys → IsOrdered b (missing xs ys)
unfolding missing
IsOrdered-missing b xs [] h = tt
IsOrdered-missing b xs (y ∷ ys) h = elim (Bool-cases (has y xs)) [
  | inl e ↦ rw e (IsOrdered-mono y b (missing xs ys) h.0 (IsOrdered-missing y xs ys h.1))
  | inr e ↦ rw e (h.0, IsOrdered-missing y xs ys h.1)
]

has_of_eq : (a y : ℕ) (xs : List ℕ) → (y == a) ≡ true → has y xs ≡ has a xs
has_of_eq a y xs e = ap (λ i. has i xs) ((==_iff y a).0 e)

pub has-missing :
    (a : ℕ) (xs ys : List ℕ) → (has a xs || has a (missing xs ys)) ≡ (has a xs || has a ys)
unfolding missing has
has-missing a xs [] = refl
has-missing a xs (y ∷ ys) = ground (arith, has-missing a xs ys, has_of_eq a y xs)

-- What is missing is in the second list and not in the first.
pub has-missing_only :
    (a : ℕ) (xs ys : List ℕ) → has a (missing xs ys) ≡ true → (has a ys ≡ true) × (has a xs ≡ false)
unfolding missing has
has-missing_only a xs [] h = absurd (cc)
has-missing_only a xs (y ∷ ys) h = elim (Bool-cases (has y xs)) [
  | inl e ↦
      let (k, l) = has-missing_only a xs ys (subst (λ l. has a l ≡ true) (rw e refl) h) in
      (ground (arith, k), l)
  | inr e ↦
      kept (has-missing_only a xs ys) e
        (subst (λ l. has a l ≡ true) {y = y ∷ missing xs ys} (rw e refl) h)
]
  where
    kept :
        (has a (missing xs ys) ≡ true → (has a ys ≡ true) × (has a xs ≡ false))
        → has y xs ≡ false
        → has a (y ∷ missing xs ys) ≡ true
        → (has a (y ∷ ys) ≡ true) × (has a xs ≡ false)
    kept rest e k = elim (Bool-cases (y == a)) [
      | inl s ↦ (rw s refl, sym (has_of_eq a y xs s) ∙ e)
      | inr n ↦ let (p, q) = rest (ground (arith, n, k)) in (ground (arith, p), q)
    ]

pub IsDistinct-missing : (xs ys : List ℕ) → IsDistinct ys → IsDistinct (missing xs ys)
unfolding missing
IsDistinct-missing xs [] h = tt
IsDistinct-missing xs (y ∷ ys) h = elim (Bool-cases (has y xs)) [
  | inl e ↦ rw e (IsDistinct-missing xs ys h.1)
  | inr e ↦ rw e (absent (Bool-cases (has y (missing xs ys))), IsDistinct-missing xs ys h.1)
]
  where
    absent :
        (has y (missing xs ys) ≡ true) ⊎ (has y (missing xs ys) ≡ false)
        → has y (missing xs ys) ≡ false
    absent (inl t) = absurd (ground (arith, h.0, has-missing_only y xs ys t))
    absent (inr f) = f

abbrev pub Disjoint : List ℕ → List ℕ → Type 0
Disjoint xs ys = (a : ℕ) → has a xs ≡ true → has a ys ≡ false

-- With a round for each id, distinct ids stay distinct.
pub IsDistinct-merge :
    (r : ℕ) (xs ys : List ℕ)
    → length xs + length ys ≤ r
    → IsDistinct xs
    → IsDistinct ys
    → Disjoint xs ys
    → IsDistinct (merge r xs ys)
unfolding merge has
IsDistinct-merge zero xs ys l h k d = tt
IsDistinct-merge (suc r) [] [] l h k d = tt
IsDistinct-merge (suc r) [] (y ∷ ys) l h k d = (
  has-merge r y [] ys (omega (arith, l)) ∙ k.0,
  IsDistinct-merge r [] ys (omega (arith, l)) tt k.1 (λ a e. cc),
)
IsDistinct-merge (suc r) (x ∷ xs) [] l h k d = (
  has-merge r x xs [] (omega (arith, l)) ∙ ground (arith, h.0),
  IsDistinct-merge r xs [] (omega (arith, l)) h.1 tt (λ a e. refl),
)
IsDistinct-merge (suc r) (x ∷ xs) (y ∷ ys) l h k d =
    let self : (x == x) ≡ true = (==_iff x x).1 refl in
    let own : (y == y) ≡ true = (==_iff y y).1 refl in
    elim (Bool-cases (leb x y)) [
      | inl e ↦
          rw (e, merge)
            (
              has-merge r x xs (y ∷ ys) (omega (arith, l)) ∙ ground (arith, h.0, d x, self),
              IsDistinct-merge r xs (y ∷ ys) (omega (arith, l)) h.1 k
                  (λ a p. d a (ground (arith, p))),
            )
      | inr e ↦
          rw (e, merge)
            (
              has-merge r y (x ∷ xs) ys (omega (arith, l)) ∙ ground (arith, k.0, d y, own),
              IsDistinct-merge r (x ∷ xs) ys (omega (arith, l)) h k.1
                  (λ a p. ground (arith, d a p)),
            )
    ]
