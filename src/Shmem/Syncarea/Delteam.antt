-- ===== src/Shmem/Syncarea/Delteam.antt =====
-- The slot of a team given back.
use coronas.Shmem.Syncarea.Teams.{
  IsValid, is_team-true, is_team_unused, is_team_other, at_set, findteam_known,
}
use coronas.Prelude.{
  ℕ, zero, suc, ◌+◌, ◌<◌, ◌≡◌, refl, sym, ap, subst, ◌∙◌, ◌≢◌, inl, inr, true, false, Option, none,
  some, List, arith, lt→ltb, Bool-cases, Option-cases, length, get_elem?, set, get_elem?-set_ne,
  lt_of_get_elem?,
}
use coronas.Prelude.Int.{ℤ}
use coronas.Shmem.Syncarea.{
  Area, Team, find_loop, is_team, shmem_syncarea_findteam, out_of_use, shmem_syncarea_delteam,
}
use coronas.Shmem.Syncarea.Slots.{find_loop-some, find_loop-all_false, find_loop-set}
use coronas.Types.{dart_team_all}

-- An entry in use is not one that was put out of use.
still_there :
    (xs : List Team) (s k : ℕ) (new y : Team)
    → s < length xs
    → new.inuse ≡ false
    → get_elem? (set xs s new) k ≡ some y
    → y.inuse ≡ true
    → get_elem? xs k ≡ some y
still_there xs s k new y h f e u = elim (at_set xs s k new y h e) [
  | inl (p, q) ↦ absurd (ground (arith, f, u, ap (λ (t : Team). t.inuse) q))
  | inr (p, q) ↦ q
]

without : Area → (slot : ℕ) → Team → Area
without a slot t = record a { teams = set a.teams slot (out_of_use t) }

without-IsValid :
    (a : Area) (j : ℕ) (t : Team)
    → IsValid a
    → get_elem? a.teams (suc j) ≡ some t
    → IsValid (without a (suc j) t)
unfolding without
without-IsValid a j t v e =
    let inside : suc j < length a.teams = lt_of_get_elem? a.teams (suc j) t e in
    let (t0, f, u, z) = v.all_team in
    let kept =
      λ (i : ℕ) (y : Team) (g : get_elem? (set a.teams (suc j) (out_of_use t)) i ≡ some y)
          (w : y.inuse ≡ true).
        still_there a.teams (suc j) i (out_of_use t) y inside refl g w in
    record {
      all_team = (t0, get_elem?-set_ne a.teams (out_of_use t) (omega arith) ∙ f, u, z);
      next = v.next;
      nextid_is = v.nextid_is;
      some_id = v.some_id;
      fresh = λ i y g w. v.fresh i y (kept i y g w) w;
      distinct = λ i k y z g h w x same. v.distinct i k y z (kept i y g w) (kept k z h x) w x same;
    }

same_entry : {o : Option Team} {t u : Team} → o ≡ some t → o ≡ some u → t ≡ u
same_entry e f = cc

-- The id of a team that was put out of use finds nothing more, and the others what they did.
without-findteam :
    (a : Area) (j : ℕ) (t : Team)
    → IsValid a
    → get_elem? a.teams (suc j) ≡ some t
    → t.inuse ≡ true
    → (shmem_syncarea_findteam (without a (suc j) t) t.teamid ≡ none)
      × ((other : ℤ)
          → other ≢ t.teamid
          → shmem_syncarea_findteam (without a (suc j) t) other ≡ shmem_syncarea_findteam a other)
unfolding without shmem_syncarea_findteam
without-findteam a j t v e u =
    let s = suc j in
    let new = out_of_use t in
    let inside : s < length a.teams = lt_of_get_elem? a.teams s t e in
    (
      find_loop-all_false (is_team t.teamid) 0 (set a.teams s new) (λ k y f.
          elim (at_set a.teams s k new y inside f) [
            | inl (p, q) ↦ is_team_unused t.teamid y (sym (ap (λ (x : Team). x.inuse) q))
            | inr (p, q) ↦ elim (Bool-cases (is_team t.teamid y)) [
              | inl h ↦
                  let (w, same) = is_team-true t.teamid y h in
                  absurd (p (v.distinct k s y t q e w u (cc same)))
              | inr h ↦ h
            ]
          ]),
      λ other ne.
          find_loop-set (is_team other) 0 a.teams s t new e
            (is_team_other other t (λ p. ne (sym p))) (is_team_unused other new refl),
    )

delteam_none :
    (a : Area) (id : ℤ) → find_loop (is_team id) 0 a.teams ≡ none → shmem_syncarea_delteam a id ≡ a
unfolding shmem_syncarea_delteam
delteam_none a id h = rw (h, shmem_syncarea_delteam) refl

delteam_first :
    (a : Area) (id : ℤ)
    → find_loop (is_team id) 0 a.teams ≡ some 0
    → shmem_syncarea_delteam a id ≡ a
unfolding shmem_syncarea_delteam
delteam_first a id h = rw (h, shmem_syncarea_delteam) refl

delteam_some :
    (a : Area) (id : ℤ) (j : ℕ) (t : Team)
    → find_loop (is_team id) 0 a.teams ≡ some (suc j)
    → get_elem? a.teams (suc j) ≡ some t
    → shmem_syncarea_delteam a id ≡ without a (suc j) t
unfolding shmem_syncarea_delteam without
delteam_some a id j t h e =
    rw (h, shmem_syncarea_delteam) (rw e (rw (lt→ltb 0 (suc j) (omega arith)) refl))

-- What the removal of an id means for the new area `b`.
abbrev pub Forgets : (a : Area) (id : ℤ) (b : Area) → Type 0
Forgets a id b =
    IsValid b
    × (shmem_syncarea_findteam b id ≡ none)
    × ((other : ℤ) → other ≢ id → shmem_syncarea_findteam b other ≡ shmem_syncarea_findteam a other)

forgets :
    (a : Area) (id : ℤ)
    → IsValid a
    → id ≢ dart_team_all
    → Forgets a id (shmem_syncarea_delteam a id)
unfolding shmem_syncarea_findteam
forgets a id v ne = elim (Option-cases (find_loop (is_team id) 0 a.teams)) [
  | inl e ↦ subst (Forgets a id) (sym (delteam_none a id e)) (v, e, λ other _. refl)
  | inr (s, e) ↦
      let (j, t, p, f, g) = find_loop-some (is_team id) 0 a.teams s e in
      at_slot j t (e ∙ ap some p) f (is_team-true id t g)
]
  where
    at_slot :
        (j : ℕ) (t : Team)
        → find_loop (is_team id) 0 a.teams ≡ some (0 + j)
        → get_elem? a.teams j ≡ some t
        → (t.inuse ≡ true) × (t.teamid ≡ id)
        → Forgets a id (shmem_syncarea_delteam a id)
    at_slot zero t e f w =
        let (t0, f0, u0, z0) = v.all_team in
        absurd (ne (sym w.1 ∙ ap (λ (x : Team). x.teamid) (same_entry f f0) ∙ z0))
    at_slot (suc j) t e f w =
        let (gone, rest) = without-findteam a j t v f w.0 in
        subst (Forgets a id) (sym (delteam_some a id j t (e ∙ ap some (omega arith)) f)) (
          subst (λ i. Forgets a i (without a (suc j) t)) w.1
            (without-IsValid a j t v f, gone, rest))

-- In a valid area, shmem_syncarea_delteam of an id other than that of DART_TEAM_ALL keeps the area
-- valid; the id then finds no team, and every other id what it found before. Of DART_TEAM_ALL it
-- changes nothing.
pub delteam_lem :
    (a : Area) (id : ℤ)
    → IsValid a
    → (id ≢ dart_team_all → Forgets a id (shmem_syncarea_delteam a id))
      × (shmem_syncarea_delteam a dart_team_all ≡ a)
unfolding shmem_syncarea_findteam
delteam_lem a id v =
    let (t0, f0, u0, z0) = v.all_team in
    (
      forgets a id v,
      delteam_first a dart_team_all (
          subst (λ i. find_loop (is_team i) 0 a.teams ≡ some 0) z0 (findteam_known a 0 t0 v f0 u0)),
    )
