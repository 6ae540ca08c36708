-- ===== src/Mpi/Transtable.antt =====
-- The translation table from segment ids to windows and addresses:
-- dart-impl/mpi/src/dart_translation.c and dart_translation.h, built with shared windows.
pub mod Laws
mod Tests
use coronas.Prelude.{ℕ, Option, none, some, List, [], ◌∷◌, if◌then◌else◌, get_elem?}
use coronas.Prelude.Int.{ℤ, eqb_ℤ}

-- `info_t`. An address is a number; `baseptr` may be NULL.
pub record Info : Type 0 where
  pub seg_id : ℤ
  pub size : ℕ
  pub disp : List ℕ
  pub baseptr : Option (List ℕ)
  pub selfbaseptr : ℕ
  pub win : ℕ

-- The list that `dart_transtable_globalalloc` heads.
abbrev pub Table : Type 0
Table = List Info

pub dart_adapt_transtable_create : Table
dart_adapt_transtable_create = []

-- The walk to the last node, behind which the copy of the item is linked.
unfoldable pub dart_adapt_transtable_add : Table → Info → Table
dart_adapt_transtable_add [] item = item ∷ []
dart_adapt_transtable_add (q ∷ next) item = q ∷ dart_adapt_transtable_add next item

-- What a function does that walks the table: a value, the code -1, or undefined behaviour.
pub data Answer {ℓ} (A : Type ℓ) : Type ℓ where
  value : A → Answer A
  invalid : Answer A
  undefined : Answer A

abbrev pub answer_map {ℓ κ} : {A : Type ℓ} {B : Type κ} → (A → B) → Answer A → Answer B
answer_map f (value a) = value (f a)
answer_map f invalid = invalid
answer_map f undefined = undefined

-- The loop of `dart_adapt_transtable_remove`, which unlinks the node that it stops at.
pub unlink : ℤ → Table → Answer Table
unlink seg_id [] = invalid
unlink seg_id (p ∷ next) =
    if eqb_ℤ seg_id p.seg_id then value next else answer_map (λ l. p ∷ l) (unlink seg_id next)

-- The head is read before it is compared with NULL.
pub dart_adapt_transtable_remove : ℤ → Table → Answer Table
unfolding unlink
dart_adapt_transtable_remove seg_id [] = undefined
dart_adapt_transtable_remove seg_id (p ∷ next) =
    if eqb_ℤ seg_id p.seg_id then value next else unlink seg_id (p ∷ next)

-- `while ((p != NULL) && (seg_id != ((p -> trans).seg_id))) p = p -> next;`
unfoldable pub find_node : ℤ → Table → Answer Info
find_node seg_id [] = invalid
find_node seg_id (p ∷ next) = if eqb_ℤ seg_id p.seg_id then value p else find_node seg_id next

unfoldable pub dart_adapt_transtable_get_win : ℤ → Table → Answer ℕ
dart_adapt_transtable_get_win seg_id table = answer_map (λ p. p.win) (find_node seg_id table)

-- `p[i]`
abbrev pub cell : List ℕ → ℕ → Answer ℕ
cell xs i = elim (get_elem? xs i) [ none ↦ undefined | some x ↦ value x ]

abbrev pub disp_of : ℕ → Answer Info → Answer ℕ
disp_of rel_unitid (value p) = cell p.disp rel_unitid
disp_of rel_unitid invalid = invalid
disp_of rel_unitid undefined = undefined

unfoldable pub dart_adapt_transtable_get_disp : ℤ → ℕ → Table → Answer ℕ
dart_adapt_transtable_get_disp seg_id rel_unitid table = disp_of rel_unitid (find_node seg_id table)

abbrev pub baseptr_of : ℕ → Answer Info → Answer ℕ
baseptr_of rel_unitid (value p) = elim p.baseptr [ none ↦ undefined | some xs ↦ cell xs rel_unitid ]
baseptr_of rel_unitid invalid = invalid
baseptr_of rel_unitid undefined = undefined

pub dart_adapt_transtable_get_baseptr : ℤ → ℕ → Table → Answer ℕ
dart_adapt_transtable_get_baseptr seg_id rel_unitid table =
    baseptr_of rel_unitid (find_node seg_id table)

unfoldable pub dart_adapt_transtable_get_selfbaseptr : ℤ → Table → Answer ℕ
dart_adapt_transtable_get_selfbaseptr seg_id table =
    answer_map (λ p. p.selfbaseptr) (find_node seg_id table)

pub dart_adapt_transtable_get_size : ℤ → Table → Answer ℕ
dart_adapt_transtable_get_size seg_id table = answer_map (λ p. p.size) (find_node seg_id table)

-- Every node is released, and the table is empty.
pub dart_adapt_transtable_destroy : Table → Table
dart_adapt_transtable_destroy table = []
