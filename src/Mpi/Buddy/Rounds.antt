-- ===== src/Mpi/Buddy/Rounds.antt =====
-- Rounds of the search of dart_buddy_alloc, and how they follow one another.
use coronas.Prelude.{
  ℕ, zero, suc, ◌+◌, ◌-◌, ◌*◌, ◌%◌, ◌^◌, ◌≤◌, ◌<◌, ◌≡◌, refl, ap, ◌∙◌, true, false, Option, some,
  arith, ◌==◌, ==_iff,
}
use coronas.Mpi.Buddy.{
  Node, Search, head, rising, going, ended, beside, left, right, parent, fit, descend, rise, round,
  round_at, run, follow,
}
use coronas.Mpi.Buddy.Tree.{width}
use native.Mathlib.Nat.{add_assoc}

abbrev pub at_head : (ℕ → Node) → (index level length : ℕ) → Search
at_head τ i d len = record { tree = τ; place = head; index = i; level = d; length = len }

-- In `c` rounds from one state to another, or to the end.
pub record Leads (m size c : ℕ) (s u : Search) : Type 0 where
  pub runs : (f : ℕ) → run (c + f) m size s ≡ run f m size u

pub record Ends (m size c : ℕ) (s : Search) (τ : ℕ → Node) (o : Option ℕ) : Type 0 where
  pub runs : (f : ℕ) → run (c + f) m size s ≡ some (τ, o)

pub then-Leads :
    {m size a b : ℕ} {s u v : Search}
    → Leads m size a s u
    → Leads m size b u v
    → Leads m size (a + b) s v
then-Leads {m} {size} {a} {b} {s} p q = record {
  runs = λ f. ap (λ x. run x m size s) (add_assoc a b f) ∙ p.runs (b + f) ∙ q.runs f;
}

pub then-Ends :
    {m size a b : ℕ} {s u : Search} {τ : ℕ → Node} {o : Option ℕ}
    → Leads m size a s u
    → Ends m size b u τ o
    → Ends m size (a + b) s τ o
then-Ends {m} {size} {a} {b} {s} p q = record {
  runs = λ f. ap (λ x. run x m size s) (add_assoc a b f) ∙ p.runs (b + f) ∙ q.runs f;
}

succ : (f : ℕ) → 1 + f ≡ suc f
succ f = omega arith

pub one-Leads : (m size : ℕ) (s u : Search) → round m size s ≡ going u → Leads m size 1 s u
unfolding run
one-Leads m size s u e = record {
  runs = λ f. ap (λ x. run x m size s) (succ f) ∙ ap (follow (run f m size)) e;
}

pub one-Ends :
    (m size : ℕ) (s : Search) (τ : ℕ → Node) (o : Option ℕ)
    → round m size s ≡ ended τ o
    → Ends m size 1 s τ o
unfolding run
one-Ends m size s τ o e = record {
  runs = λ f. ap (λ x. run x m size s) (succ f) ∙ ap (follow (run f m size)) e;
}

-- The round at a node of the wanted size, and at a larger one.
pub round-fit :
    (m t : ℕ) (τ : ℕ → Node) (i d : ℕ)
    → round m (2 ^ t) (at_head τ i d (2 ^ t)) ≡ fit m (at_head τ i d (2 ^ t)) (τ i)
unfolding round round_at
round-fit m t τ i d = rw ((==_iff (2 ^ t) (2 ^ t)).1 refl) refl

pub pow_pos : (t : ℕ) → 0 < 2 ^ t
pow_pos zero = omega arith
pow_pos (suc t) = omega (arith, pow_pos t)

pub width_pos : (k t : ℕ) → 0 < width k t
width_pos zero t = pow_pos t
width_pos (suc k) t = omega (arith, width_pos k t)

pub width_le : (k t : ℕ) → 2 ^ t ≤ width k t
width_le zero t = omega arith
width_le (suc k) t = omega (arith, width_le k t)

larger : (a b : ℕ) → a ≤ b → 0 < b → (a == b * 2) ≡ false
larger a b h k = ground (arith, h, k)

pub round-descend :
    (m k t : ℕ) (τ : ℕ → Node) (i d : ℕ)
    → round m (2 ^ t) (at_head τ i d (width (suc k) t))
      ≡ descend (at_head τ i d (width (suc k) t)) (τ i)
unfolding round round_at
round-descend m k t τ i d = rw (larger (2 ^ t) (width k t) (width_le k t) (width_pos k t)) refl

-- Beside a left child is the right one, and from the right one the round goes on beside the parent.
pub beside-left : (τ : ℕ → Node) (i d len : ℕ) → beside τ (left i) d len ≡ at_head τ (right i) d len
beside-left τ i d len =
    let odd : (left i % 2 == 1) ≡ true = (==_iff (left i % 2) 1).1 (omega arith) in
    rw odd (ap (λ j. at_head τ j d len) (omega arith))

right-suc : (i : ℕ) → right i ≡ suc (i * 2 + 1)
right-suc i = omega arith

parent_right : (i : ℕ) → parent (suc (i * 2 + 1)) ≡ i
parent_right i = omega arith

even_right : (i : ℕ) → (right i % 2 == 1) ≡ false
even_right i = ground arith

pub rise_right :
    (m size : ℕ) (τ : ℕ → Node) (i d len : ℕ)
    → round m size (beside τ (right i) (d + 1) len) ≡ going (beside τ i d (len * 2))
unfolding round round_at rise
rise_right m size τ i d len =
    let even : (right i % 2 == 1) ≡ false = even_right i in
    rw even (
      ap (rise (record { tree = τ; place = rising; index = right i; level = d + 1; length = len }))
        (right-suc i)
      ∙ ap (λ j. going (beside τ j (d + 1 - 1) (len * 2))) (parent_right i)
      ∙ ap (λ e. going (beside τ i e (len * 2))) (omega arith))
