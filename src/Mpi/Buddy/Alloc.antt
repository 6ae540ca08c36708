-- ===== src/Mpi/Buddy/Alloc.antt =====
-- dart_buddy_alloc on a pool that holds a tree.
use coronas.Prelude.{
  ℕ, zero, suc, ◌+◌, ◌-◌, ◌*◌, ◌^◌, ◌≤◌, ◌≡◌, refl, sym, ap, subst, ◌∙◌, Bool, true, false, Option,
  none, some, arith, ltb, if◌then◌else◌,
}
use coronas.Mpi.Buddy.{
  Search, Node, Buddy, Answer, failed, offset, mark_parent, beside, ended, answered, allocate,
  dart_buddy_alloc, int_size, round, round_at, rise, run, mark_loop,
}
use coronas.Mpi.Buddy.Tree.{Tree, take_block, width, height, Holds, is_taken}
use coronas.Mpi.Buddy.Rounds.{pow_pos, width_le, at_head, Ends, then-Ends, one-Ends}
use coronas.Mpi.Buddy.Halves.{Found, cost}
use coronas.Mpi.Buddy.Refinement.{search_lem}

pub height_lem : (k t : ℕ) → height k t ≡ k + t
height_lem zero t = omega arith
height_lem (suc k) t = omega (arith, height_lem k t)

pub pow_suc : (h : ℕ) → 2 ^ suc h ≡ 2 ^ h * 2
pow_suc h = omega arith

pub width_lem : (k t : ℕ) → width k t ≡ 2 ^ height k t
width_lem zero t = refl
width_lem (suc k) t = ap (λ x. x * 2) (width_lem k t) ∙ sym (pow_suc (height k t))

cost_fits : (k t : ℕ) → cost k + 2 ≤ 3 * width k t
cost_fits zero t = omega (arith, pow_pos t)
cost_fits (suc k) t = omega (arith, cost_fits k t)

-- What an allocation of a block of 2 ^ t units in a pool does, by what is to be found in its tree:
-- it fails and changes nothing, or it answers the block's offset and leaves the tree with the block.
abbrev pub Allocates : (b : Buddy) → Option (Tree × ℕ) → Buddy × Answer → Type 0
Allocates b none r = r ≡ (b, failed)
Allocates b (some (T, o)) r =
    (τ : ℕ → Node) × (r ≡ (record b { tree = τ }, offset o)) × Holds τ 0 b.level T

at_root : (c : Bool) (σ : ℕ → Node) → (if c then mark_parent σ 0 else σ) ≡ σ
unfolding mark_parent mark_loop
at_root true σ = refl
at_root false σ = refl

spare : {c f : ℕ} → c ≤ f → f ≡ c + (f - c)
spare h = omega (arith, h)

-- Enough fuel for a search that ends.
Ends-run :
    {m size c fuel : ℕ} {s : Search} {τ : ℕ → Node} {o : Option ℕ}
    → Ends m size c s τ o
    → c ≤ fuel
    → run fuel m size s ≡ some (τ, o)
Ends-run {m} {size} {c} {fuel} {s} e h = ap (λ x. run x m size s) (spare h) ∙ e.runs (fuel - c)

root_fails : (m size : ℕ) (τ : ℕ → Node) (len : ℕ) → round m size (beside τ 0 0 len) ≡ ended τ none
unfolding round round_at rise
root_fails m size τ len = refl

answer_of :
    (b : Buddy) (k t : ℕ) (o : Option (Tree × ℕ))
    → Found b.level t (at_head b.tree 0 0 (width k t)) b.tree 0 k 0 0 (cost k) o
    → b.level ≡ height k t
    → Allocates b o
        (answered b (run (3 * width k t) b.level (2 ^ t) (at_head b.tree 0 0 (width k t))))
answer_of b k t none (c, cb, p) e = ap (answered b) (
    Ends-run
      (then-Ends p (
        one-Ends b.level (2 ^ t) (beside b.tree 0 0 (width k t)) b.tree none
          (root_fails b.level (2 ^ t) b.tree (width k t))))
      (omega (arith, cb, cost_fits k t)))
answer_of b k t (some (T, o)) (c, σ, cb, h, out, p) e = (
  σ,
  ap (answered b) (
        Ends-run p (omega (arith, cb, cost_fits k t))
        ∙ ap (λ x. some (x, some (0 * width k t + o))) (at_root (is_taken T) σ))
      ∙ ap (λ x. (record b { tree = σ }, offset x)) (omega arith),
  subst (λ x. Holds σ 0 x T) (sym e) h,
)

-- The offset of an answer.
abbrev pub place_of : Answer → ℕ
place_of (offset o) = o
place_of _ = 0

-- For a request whose size is rounded to 2 ^ t units, at most those of the pool, dart_buddy_alloc
-- does on the array what `take_block` does on the tree that the array holds: it ends within its
-- fuel, and fails without a change or answers the offset of the block and leaves the new tree.
pub dart_buddy_alloc_lem :
    (b : Buddy) (s k t : ℕ) (T : Tree)
    → b.level ≡ k + t
    → int_size s ≡ some (2 ^ t)
    → Holds b.tree 0 b.level T
    → Allocates b (take_block k t T) (dart_buddy_alloc b s)
unfolding dart_buddy_alloc allocate
dart_buddy_alloc_lem b s k t T e z h =
    let hl : b.level ≡ height k t = e ∙ sym (height_lem k t) in
    let wl : 2 ^ b.level ≡ width k t = ap (λ x. 2 ^ x) hl ∙ sym (width_lem k t) in
    let small : ltb (2 ^ b.level) (2 ^ t) ≡ false = ground (arith, wl, width_le k t) in
    let result : Option (Tree × ℕ) = take_block k t T in
    rw (z, small)
      (subst
        (λ w. Allocates b result (answered b (run (3 * w) b.level (2 ^ t) (at_head b.tree 0 0 w))))
        (sym wl)
        (answer_of b k t result
          (search_lem b.level t b.tree 0 k 0 0 T (subst (λ x. Holds b.tree 0 x T) hl h) refl
            (omega (arith, hl)))
          hl))
