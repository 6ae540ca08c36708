-- ===== src/Mpi/Buddy/RoundTrip.antt =====
-- dart_buddy_free on a pool, alone and after dart_buddy_alloc.
use coronas.Prelude.{
  ℕ, ◌+◌, ◌^◌, ◌<◌, ◌≡◌, refl, sym, ap, subst, ◌∙◌, Bool, true, false, Option, none, some, arith,
  leb, if◌then◌else◌,
}
use coronas.Mpi.Buddy.{Node, Buddy, Answer, offset, node_unused, dart_buddy_alloc, int_size}
use coronas.Mpi.Buddy.Free.{combine, combine_loop, open_loop, free_loop, freed, dart_buddy_free}
use coronas.Mpi.Buddy.Tree.{
  Tree, unused, used, split, full, is_taken, Holds, take_block, width, height,
}
use coronas.Mpi.Buddy.Tidy.{IsTidy, release, take-Kept, Kept}
use coronas.Mpi.Buddy.Join.{store_same}
use coronas.Mpi.Buddy.Descent.{Freed, is_full}
use coronas.Mpi.Buddy.Ascent.{open_up}
use coronas.Mpi.Buddy.Release.{free_lem}
use coronas.Mpi.Buddy.Alloc.{place_of, dart_buddy_alloc_lem, height_lem, width_lem, Allocates}

-- What a release does in a pool, by what comes of its tree: nothing, and it reports that, or it
-- succeeds and leaves the new tree.
abbrev pub Frees : (b : Buddy) → Option Tree → Option (Buddy × Bool) → Type 0
Frees b none r = r ≡ some (b, false)
Frees b (some T) r = (τ : ℕ → Node) × (r ≡ some (record b { tree = τ }, true)) × Holds τ 0 b.level T

root_open : (c : Bool) (σ : ℕ → Node) → (if c then open_up σ 0 else σ) ≡ σ
unfolding open_loop
root_open true σ = refl
root_open false σ = refl

at_top :
    (b : Buddy) (F K : Bool) (res : Option ((ℕ → Node) × Bool)) (x : Option Tree)
    → Freed b.tree 0 b.level F K res x
    → Frees b x (freed b res)
unfolding combine combine_loop
at_top b F K res none f = ap (freed b) f
at_top b F K res (some unused) f =
    (combine b.tree 0, ap (freed b) f, store_same b.tree 0 node_unused)
at_top b F K res (some used) f = absurd f
at_top b F K res (some (full l r)) f = absurd f
at_top b F K res (some (split l r)) (σ, h, out, k, f) =
    (σ, ap (freed b) f ∙ ap (λ z. some (record b { tree = z }, true)) (root_open F σ), h)

zero_add : (o : ℕ) → 0 + o ≡ o
zero_add o = omega arith

inside : {o p : ℕ} → o < p → leb p o ≡ false
inside h = ground (arith, h)

-- On an array that holds a tidy tree, dart_buddy_free of an offset in the pool does what `release`
-- does on the tree: it reports a failure and changes nothing where no used block starts at the
-- offset, or it succeeds and leaves the tree with the block merged into what is unused beside it.
dart_buddy_free_lem :
    (b : Buddy) (o : ℕ) (T : Tree)
    → Holds b.tree 0 b.level T
    → IsTidy T
    → o < 2 ^ b.level
    → Frees b (release b.level T o) (dart_buddy_free b o)
unfolding dart_buddy_free
dart_buddy_free_lem b o T h t k = rw (inside k) (
    at_top b (is_full T) (is_taken T) (free_loop b.level b.tree 0 0 (2 ^ b.level) o)
      (release b.level T o)
      (subst
        (λ x.
          Freed b.tree 0 b.level (is_full T) (is_taken T)
            (free_loop b.level b.tree 0 0 (2 ^ b.level) x) (release b.level T o))
        (zero_add o) (free_lem b.level b.tree 0 0 o T h t)))

back_of :
    (b : Buddy) (k t : ℕ) (T : Tree) (b2 : Buddy) (o : ℕ) (x : Option (Tree × ℕ))
    (r : Buddy × Answer)
    → b.level ≡ height k t
    → r ≡ (b2, offset o)
    → Allocates b x r
    → Kept (height k t) (width k t) T x
    → (τ : ℕ → Node) × (dart_buddy_free b2 o ≡ some (record b { tree = τ }, true))
      × Holds τ 0 b.level T
back_of b k t T b2 o none r e got a _ = absurd (cc)
back_of b k t T b2 o (some (T2, p)) r e got (τ, a, h) (tidy, u, within, back) =
    let c : Buddy = record b { tree = τ } in
    let same : (c, offset p) ≡ (b2, offset o) = sym a ∙ got in
    let (σ, f, held) =
      subst (λ x. Frees c x (dart_buddy_free c p)) (ap (λ x. release x T2 p) e ∙ back)
        (dart_buddy_free_lem c p T2 h tidy
          (subst (λ w. p < w) (width_lem k t ∙ ap (λ x. 2 ^ x) (sym e)) within)) in
    (σ, sym (ap (λ z. dart_buddy_free (z.0) (place_of (z.1))) same) ∙ f, held)

-- The offset that an allocation in a pool with a tidy tree answers can be released, and the array
-- then holds the tree that it held before.
pub dart_buddy_free-alloc :
    (b : Buddy) (s k t : ℕ) (T : Tree) (b2 : Buddy) (o : ℕ)
    → b.level ≡ k + t
    → int_size s ≡ some (2 ^ t)
    → Holds b.tree 0 b.level T
    → IsTidy T
    → dart_buddy_alloc b s ≡ (b2, offset o)
    → (τ : ℕ → Node) × (dart_buddy_free b2 o ≡ some (record b { tree = τ }, true))
      × Holds τ 0 b.level T
dart_buddy_free-alloc b s k t T b2 o e z h tidy got =
    back_of b k t T b2 o (take_block k t T) (dart_buddy_alloc b s) (e ∙ sym (height_lem k t)) got
      (dart_buddy_alloc_lem b s k t T e z h) (take-Kept k t T tidy)
