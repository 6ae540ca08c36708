-- ===== src/Shmem/Syncarea/Newteam.antt =====
-- A slot for a new team.
use coronas.Shmem.Syncarea.Teams.{IsValid, is_team_unused, is_team_other, at_set, findteam_known}
use coronas.Prelude.{
  ℕ, suc, ◌<◌, ◌≡◌, refl, sym, ap, subst, ◌∙◌, ◌≢◌, ◌⊎◌, inl, inr, true, false, not, none, some,
  List, [], ◌∷◌, arith, Option-cases, length, get_elem?, set, get_elem?-set_self, get_elem?-set_ne,
  drop, lt_of_get_elem?,
}
use coronas.Prelude.Int.{ℤ, pos, pos_part}
use coronas.Shmem.Barrier.{sysv_barrier_create}
use coronas.Shmem.Syncarea.{
  succ_int32, Area, Team, find_loop, shmem_syncarea_newteam, is_team, shmem_syncarea_findteam,
}
use coronas.Shmem.Syncarea.Slots.{find_loop-some, find_loop-none, find_loop-set}

get-drop : (xs : List Team) (j : ℕ) → get_elem? (drop 1 xs) j ≡ get_elem? xs (suc j)
get-drop [] j = refl
get-drop (x ∷ xs) j = refl

-- A slot other than the first, put into use with an id that no team has had.
abbrev with_team : Area → (slot numprocs : ℕ) → Area
with_team a slot numprocs = record a {
  nextid = succ_int32 a.nextid;
  teams =
      set a.teams slot
        (record { barr = sysv_barrier_create numprocs; teamid = a.nextid; inuse = true });
}

-- No team in use has the id that comes next.
not_fresh :
    (a : Area) (v : IsValid a) (i : ℕ) (t : Team)
    → get_elem? a.teams i ≡ some t
    → t.inuse ≡ true
    → a.nextid ≢ t.teamid
not_fresh a v i t e u same =
    let (k, known, l) = v.fresh i t e u in
    absurd (ground (arith, l, sym v.nextid_is ∙ same ∙ known))

succ_below : (n : ℕ) → n < 2147483647 → succ_int32 (pos n) ≡ pos (suc n)
unfolding succ_int32
succ_below n h = ground (arith, h)

with_team-IsValid :
    (a : Area) (j n : ℕ) (old : Team)
    → (v : IsValid a) → v.next < 2147483647
    → get_elem? a.teams (suc j) ≡ some old
    → IsValid (with_team a (suc j) n)
with_team-IsValid a j n old v small e =
    let s = suc j in
    let new : Team = record { barr = sysv_barrier_create n; teamid = a.nextid; inuse = true } in
    let inside : s < length a.teams = lt_of_get_elem? a.teams s old e in
    let (t, f, u, z) = v.all_team in
    record {
      all_team = (t, get_elem?-set_ne a.teams new (omega arith) ∙ f, u, z);
      next = suc v.next;
      nextid_is = ap succ_int32 v.nextid_is ∙ succ_below v.next small;
      some_id = omega arith;
      fresh = λ i y g w. elim (at_set a.teams s i new y inside g) [
        | inl (p, q) ↦ (v.next, sym (ap (λ (x : Team). x.teamid) q) ∙ v.nextid_is, omega arith)
        | inr (p, q) ↦ let (k, known, l) = v.fresh i y q w in (k, known, omega (arith, l))
      ];
      distinct = λ i k y z g h w x same. elim (at_set a.teams s i new y inside g) [
        | inl (p, q) ↦ elim (at_set a.teams s k new z inside h) [
          | inl (p', q') ↦ p ∙ sym p'
          | inr (p', q') ↦ absurd (not_fresh a v k z q' x (ap (λ (t : Team). t.teamid) q ∙ same))
        ]
        | inr (p, q) ↦ elim (at_set a.teams s k new z inside h) [
          | inl (p', q') ↦
              absurd (not_fresh a v i y q w (ap (λ (t : Team). t.teamid) q' ∙ sym same))
          | inr (p', q') ↦ v.distinct i k y z q q' w x same
        ]
      ];
    }

-- The new area finds the new team, and the others as before.
with_team-findteam :
    (a : Area) (j n : ℕ) (old : Team)
    → (v : IsValid a) → v.next < 2147483647
    → get_elem? a.teams (suc j) ≡ some old
    → old.inuse ≡ false
    → (shmem_syncarea_findteam (with_team a (suc j) n) a.nextid ≡ some (suc j))
      × ((other : ℤ)
          → other ≢ a.nextid
          → shmem_syncarea_findteam (with_team a (suc j) n) other ≡ shmem_syncarea_findteam a other)
unfolding shmem_syncarea_findteam
with_team-findteam a j n old v small e u =
    let new : Team = record { barr = sysv_barrier_create n; teamid = a.nextid; inuse = true } in
    (
      findteam_known (with_team a (suc j) n) (suc j) new (with_team-IsValid a j n old v small e)
          (get_elem?-set_self a.teams (suc j) new (lt_of_get_elem? a.teams (suc j) old e)) refl,
      λ other ne.
          find_loop-set (is_team other) 0 a.teams (suc j) old new e (is_team_unused other old u)
            (is_team_other other new (λ p. ne (sym p))),
    )

newteam_none :
    (a : Area) (n : ℕ)
    → find_loop (λ (t : Team). not t.inuse) 1 (drop 1 a.teams) ≡ none
    → shmem_syncarea_newteam a n ≡ (none, a)
unfolding shmem_syncarea_newteam
newteam_none a n h = rw (h, shmem_syncarea_newteam) refl

newteam_some :
    (a : Area) (n s : ℕ)
    → find_loop (λ (t : Team). not t.inuse) 1 (drop 1 a.teams) ≡ some s
    → shmem_syncarea_newteam a n ≡ (some (s, a.nextid), with_team a s n)
unfolding shmem_syncarea_newteam
newteam_some a n s h = rw (h, shmem_syncarea_newteam) refl

unused : (t : Team) → not t.inuse ≡ true → t.inuse ≡ false
unused t h = ground (arith, h)

used : (t : Team) → not t.inuse ≡ false → t.inuse ≡ true
used t h = ground (arith, h)

-- No slot behind the first is free.
abbrev pub IsFull : Area → Type 0
IsFull a = (j : ℕ) (t : Team) → get_elem? a.teams (suc j) ≡ some t → t.inuse ≡ true

-- What an answer of a slot and an id means: the slot was free, and the new area `b` differs for
-- this id alone.
abbrev pub Grants : (a : Area) (slot : ℕ) (id : ℤ) (b : Area) → Type 0
Grants a slot id b =
    (0 < slot)
    × ((old : Team) × (get_elem? a.teams slot ≡ some old) × (old.inuse ≡ false))
    × IsValid b
    × (shmem_syncarea_findteam b id ≡ some slot)
    × ((other : ℤ) → other ≢ id → shmem_syncarea_findteam b other ≡ shmem_syncarea_findteam a other)

-- In a valid area whose next id is below INT32_MAX, shmem_syncarea_newteam answers the slot -1 and changes nothing where every slot
-- behind the first is in use, or it takes a slot behind the first that was not in use: the area
-- stays valid, the id that it answers finds this slot, and every other id what it found before.
pub newteam_lem :
    (a : Area) (n : ℕ)
    → IsValid a
    → pos_part a.nextid < 2147483647
    → (IsFull a × (shmem_syncarea_newteam a n ≡ (none, a)))
      ⊎ ((slot : ℕ) × (id : ℤ) × (b : Area) × (shmem_syncarea_newteam a n ≡ (some (slot, id), b))
          × Grants a slot id b)
newteam_lem a n v bound =
    let small : v.next < 2147483647 = subst (λ x. pos_part x < 2147483647) v.nextid_is bound in
    let test = λ (t : Team). not t.inuse in
    elim (Option-cases (find_loop test 1 (drop 1 a.teams))) [
      | inl e ↦ inl (
        λ j t f. used t (find_loop-none test 1 (drop 1 a.teams) j t e (get-drop a.teams j ∙ f)),
        newteam_none a n e,
      )
      | inr (s, e) ↦
          let (j, old, p, f, g) = find_loop-some test 1 (drop 1 a.teams) s e in
          let q : s ≡ suc j = omega (arith, p) in
          let here = sym (get-drop a.teams j) ∙ f in
          let (own, rest) = with_team-findteam a j n old v small here (unused old g) in
          inr (
            suc j,
            a.nextid,
            with_team a (suc j) n,
            newteam_some a n (suc j) (e ∙ ap some q),
            (
              omega arith,
              (old, here, unused old g),
              with_team-IsValid a j n old v small here,
              own,
              rest,
            ),
          )
    ]
