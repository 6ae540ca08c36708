-- ===== src/Shmem/Syncarea/Teams.antt =====
-- The slots of the teams: when an area is valid, and how a team is found.
use coronas.Prelude.{
  ℕ, zero, suc, ◌<◌, ◌≡◌, refl, sym, ap, subst, ◌∙◌, ◌≢◌, ◌⊎◌, inl, inr, true, false, some, List,
  arith, ℕ_discrete, Bool-cases, length, get_elem?, set, get_elem?-set_self, get_elem?-set_ne,
  replicate, length-replicate,
}
use coronas.Prelude.Int.{ℤ, pos, eqb_ℤ_iff, eqb_ℤ_refl}
use coronas.Shmem.Barrier.{sysv_barrier_create}
use coronas.Shmem.Syncarea.{
  maxnum_teams, Garbage, shmem_syncarea_init, Area, Team, is_team, shmem_syncarea_findteam,
}
use coronas.Shmem.Syncarea.Slots.{find_loop_unique}

-- The teams in use have different ids, all of them given out, and DART_TEAM_ALL is in slot 0.
pub record IsValid (a : Area) : Type 0 where
  pub all_team : (t : Team) × (get_elem? a.teams 0 ≡ some t) × (t.inuse ≡ true) × (t.teamid ≡ pos 0)
  pub next : ℕ
  pub nextid_is : a.nextid ≡ pos next
  pub some_id : 0 < next
  pub fresh :
      (i : ℕ) (t : Team)
      → get_elem? a.teams i ≡ some t
      → t.inuse ≡ true
      → (k : ℕ) × (t.teamid ≡ pos k) × (k < next)
  pub distinct :
      (i j : ℕ) (t u : Team)
      → get_elem? a.teams i ≡ some t
      → get_elem? a.teams j ≡ some u
      → t.inuse ≡ true
      → u.inuse ≡ true
      → t.teamid ≡ u.teamid
      → i ≡ j

pub is_team_own : (t : Team) → t.inuse ≡ true → is_team t.teamid t ≡ true
is_team_own t h = rw (h, eqb_ℤ_refl t.teamid) refl

pub is_team-true : (id : ℤ) (t : Team) → is_team id t ≡ true → (t.inuse ≡ true) × (t.teamid ≡ id)
is_team-true id t h = elim (Bool-cases t.inuse) [
  | inl u ↦ (u, (eqb_ℤ_iff t.teamid id).0 (ground (arith, u, h)))
  | inr u ↦ absurd (ground (arith, u, h))
]

pub is_team_unused : (id : ℤ) (t : Team) → t.inuse ≡ false → is_team id t ≡ false
is_team_unused id t h = rw h refl

pub is_team_other : (id : ℤ) (t : Team) → t.teamid ≢ id → is_team id t ≡ false
is_team_other id t n = elim (Bool-cases (is_team id t)) [
  | inl e ↦ absurd (n (is_team-true id t e).1)
  | inr e ↦ e
]

-- A team in use is found by its id.
pub findteam_known :
    (a : Area) (i : ℕ) (t : Team)
    → IsValid a
    → get_elem? a.teams i ≡ some t
    → t.inuse ≡ true
    → shmem_syncarea_findteam a t.teamid ≡ some i
unfolding shmem_syncarea_findteam
findteam_known a i t v e u =
    find_loop_unique (is_team t.teamid) 0 a.teams i t e (is_team_own t u)
      (λ k y f g. let (w, same) = is_team-true t.teamid y g in v.distinct k i y t f e w u (cc same))
    ∙ ap some (omega arith)

pub at_set :
    (xs : List Team) (s k : ℕ) (new y : Team)
    → s < length xs
    → get_elem? (set xs s new) k ≡ some y
    → ((k ≡ s) × (new ≡ y)) ⊎ ((k ≢ s) × (get_elem? xs k ≡ some y))
at_set xs s k new y h e = elim (ℕ_discrete k s) [
  | yes p ↦
      inl (
        p,
        cc (get_elem?-set_self xs s new h, subst (λ i. get_elem? (set xs s new) i ≡ some y) p e),
      )
  | no p ↦ inr (p, sym (get_elem?-set_ne xs new (λ q. p (sym q))) ∙ e)
]

-- In slots that were all out of use, the one put into use is the only one.
only_first :
    (xs : List Team) (s i : ℕ) (new free y : Team)
    → s < length xs
    → ((k : ℕ) (z : Team) → get_elem? xs k ≡ some z → z ≡ free)
    → free.inuse ≡ false
    → get_elem? (set xs s new) i ≡ some y
    → y.inuse ≡ true
    → (i ≡ s) × (new ≡ y)
only_first xs s i new free y h all f e u = elim (at_set xs s i new y h e) [
  | inl pq ↦ pq
  | inr (p, q) ↦ absurd (ground (arith, f, u, ap (λ (t : Team). t.inuse) (all i y q)))
]

get-replicate : (n i : ℕ) (t u : Team) → get_elem? (replicate n t) i ≡ some u → u ≡ t
get-replicate zero i t u h = absurd (cc)
get-replicate (suc n) zero t u h = cc
get-replicate (suc n) (suc i) t u h = get-replicate n i t u h

-- The slot 0 of the initialised area is in use, and no other one.
pub init-IsValid :
    (g : Garbage) (numprocs : ℕ) (shmid : ℤ) → IsValid (shmem_syncarea_init g numprocs shmid)
unfolding shmem_syncarea_init
init-IsValid g numprocs shmid =
    let free : Team = record { barr = g.team_barr; teamid = g.team_id; inuse = false } in
    let world : Team = record {
      barr = sysv_barrier_create numprocs;
      teamid = pos 0;
      inuse = true;
    } in
    let xs = replicate maxnum_teams free in
    let inside : 0 < length xs = omega (arith, length-replicate maxnum_teams free) in
    let only =
      λ (i : ℕ) (y : Team) (f : get_elem? (set xs 0 world) i ≡ some y) (u : y.inuse ≡ true).
        only_first xs 0 i world free y inside (λ k z e. get-replicate maxnum_teams k free z e) refl
          f u in
    record {
      all_team = (world, get_elem?-set_self xs 0 world inside, refl, refl);
      next = 1;
      nextid_is = refl;
      some_id = omega arith;
      fresh = λ i y f u. (0, sym (ap (λ (x : Team). x.teamid) (only i y f u).1), omega arith);
      distinct = λ i j y z f h u w same. (only i y f u).0 ∙ sym (only j z h w).0;
    }
