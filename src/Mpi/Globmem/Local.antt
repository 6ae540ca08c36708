-- ===== src/Mpi/Globmem/Local.antt =====
-- Local allocation, dart_memalloc and dart_memfree of dart-impl/mpi/src/dart_globmem.c, on the pool
-- of the buddy allocator. `none` is undefined behaviour: the allocator leaves its array.
use coronas.Prelude.{
  ℕ, ◌+◌, ◌-◌, ◌^◌, ◌≡◌, sym, ap, subst, ◌∙◌, Bool, true, false, Option, none, some,
}
use coronas.Prelude.Int.{ℤ, pos}
use mathlib.Core.Option.{some-injective}
use coronas.Types.{DartRet, dart_ok, dart_err_inval, dart_err_other, Gptr}
use coronas.Mpi.Buddy.{
  Node, Buddy, Answer, offset, failed, out_of_bounds, no_fuel, dart_buddy_alloc, int_size,
}
use coronas.Mpi.Buddy.Free.{dart_buddy_free}
use coronas.Mpi.Buddy.Tree.{Tree, Holds}
use coronas.Mpi.Buddy.Tidy.{IsTidy}
use coronas.Mpi.Buddy.RoundTrip.{dart_buddy_free-alloc}
use coronas.Mpi.Buddy.Grants.{Grants, alloc-Grants}

-- The pointer, with the segment and the flags of local memory.
abbrev pub local_gptr : (unitid : ℤ) → ℕ → Gptr
local_gptr unitid o = record { unitid = unitid; segid = pos 0; flags = 0; offset = o }

unfoldable pub local_answer : ℤ → Buddy → Answer → Option (Buddy × DartRet × Gptr)
local_answer unitid b (offset o) = some (b, dart_ok, local_gptr unitid o)
local_answer unitid b failed = some (b, dart_err_other, local_gptr unitid (2 ^ 64 - 1))
local_answer unitid b out_of_bounds = none
local_answer unitid b no_fuel = none

unfoldable pub dart_memalloc : (myid : ℤ) → Buddy → (nbytes : ℕ) → Option (Buddy × DartRet × Gptr)
dart_memalloc unitid b nbytes = let r = dart_buddy_alloc b nbytes in local_answer unitid (r.0) (r.1)

unfoldable pub free_answer : Option (Buddy × Bool) → Option (Buddy × DartRet)
free_answer none = none
free_answer (some (b, true)) = some (b, dart_ok)
free_answer (some (b, false)) = some (b, dart_err_inval)

unfoldable pub dart_memfree : Buddy → Gptr → Option (Buddy × DartRet)
dart_memfree b gptr = free_answer (dart_buddy_free b gptr.offset)

succeeded :
    (unitid : ℤ) (b b2 : Buddy) (a : Answer) (g : Gptr)
    → local_answer unitid b a ≡ some (b2, dart_ok, g)
    → (o : ℕ) × (◌≡◌ {A = Buddy × Answer} (b, a) (b2, offset o)) × (g ≡ local_gptr unitid o)
unfolding local_answer
succeeded unitid b b2 (offset o) g e =
    let same = some-injective _ _ e in (o, ap (λ z. (z.0, offset o)) same, sym (ap (λ z. z.2) same))
succeeded unitid b b2 failed g e = absurd (cc)
succeeded unitid b b2 out_of_bounds g e = absurd (cc)
succeeded unitid b b2 no_fuel g e = absurd (cc)

-- In a pool whose array holds a tidy tree and for a size that is rounded to 2 ^ t bytes, at most
-- those of the pool, a dart_memalloc that answers DART_OK gives a pointer of the calling unit, with
-- the segment and flags of local memory, to 2 ^ t bytes of the pool that were in no used block, and
-- dart_memfree of that pointer answers DART_OK and leaves the pool with the tree of before.
pub memfree-memalloc :
    (unitid : ℤ) (b : Buddy) (nbytes k t : ℕ) (T : Tree) (b2 : Buddy) (g : Gptr)
    → b.level ≡ k + t
    → int_size nbytes ≡ some (2 ^ t)
    → Holds b.tree 0 b.level T
    → IsTidy T
    → dart_memalloc unitid b nbytes ≡ some (b2, dart_ok, g)
    → (g ≡ local_gptr unitid g.offset)
      × ((T2 : Tree) × Holds b2.tree 0 b2.level T2 × Grants b.level (2 ^ t) T T2 g.offset)
      × ((τ : ℕ → Node) × (dart_memfree b2 g ≡ some (record b { tree = τ }, dart_ok))
          × Holds τ 0 b.level T)
unfolding dart_memalloc dart_memfree free_answer
memfree-memalloc unitid b nbytes k t T b2 g e z h tidy got =
    let r = dart_buddy_alloc b nbytes in
    let (o, made, at) = succeeded unitid (r.0) b2 (r.1) g got in
    let place : o ≡ g.offset = sym (ap (λ x. x.offset) at) in
    let (τ, f, held) = dart_buddy_free-alloc b nbytes k t T b2 o e z h tidy made in
    (
      at ∙ ap (local_gptr unitid) place,
      subst (λ x. (T2 : Tree) × Holds b2.tree 0 b2.level T2 × Grants b.level (2 ^ t) T T2 x) place
          (alloc-Grants b nbytes k t T b2 o e z h made),
      (τ, ap (λ x. free_answer (dart_buddy_free b2 x)) (sym place) ∙ ap free_answer f, held),
    )
