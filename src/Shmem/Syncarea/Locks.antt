-- ===== src/Shmem/Syncarea/Locks.antt =====
-- The slots of the locks.
use coronas.Prelude.{
  ℕ, ◌<◌, ◌≡◌, refl, sym, ap, ◌∙◌, ◌≢◌, ◌⊎◌, inl, inr, true, false, not, none, some, arith,
  Option-cases, length, get_elem?, set, length-set, get_elem?-set_self, get_elem?-set_ne,
  lt_of_get_elem?,
}
use coronas.Prelude.Int.{ℤ}
use coronas.Shmem.Syncarea.{Area, Lock, find_loop, dart_team_lock_init, dart_team_lock_free}
use coronas.Shmem.Syncarea.Slots.{find_loop-some, find_loop-none}

unused : (l : Lock) → not l.inuse ≡ true → l.inuse ≡ false
unused l h = ground (arith, h)

used : (l : Lock) → not l.inuse ≡ false → l.inuse ≡ true
used l h = ground (arith, h)

abbrev with_lock : Area → (lockid : ℕ) → ℤ → Area
with_lock a i teamid = record a { locks = set a.locks i (record { teamid = teamid; inuse = true }) }

init_some :
    (a : Area) (teamid : ℤ) (i : ℕ)
    → find_loop (λ (l : Lock). not l.inuse) 0 a.locks ≡ some i
    → dart_team_lock_init a teamid ≡ (some i, with_lock a i teamid)
unfolding dart_team_lock_init
init_some a teamid i h = rw (h, dart_team_lock_init) refl

init_none :
    (a : Area) (teamid : ℤ)
    → find_loop (λ (l : Lock). not l.inuse) 0 a.locks ≡ none
    → dart_team_lock_init a teamid ≡ (none, a)
unfolding dart_team_lock_init
init_none a teamid h = rw (h, dart_team_lock_init) refl

free_here :
    (a : Area) (i : ℕ) (l : Lock)
    → get_elem? a.locks i ≡ some l
    → dart_team_lock_free a i ≡ record a { locks = set a.locks i (record l { inuse = false }) }
unfolding dart_team_lock_free
free_here a i l h = rw (h, dart_team_lock_free) refl

-- dart_team_lock_init finds every lock in use and changes nothing, or it answers a lock that was
-- not in use: after it this one is in use, and the others are as before; and dart_team_lock_free
-- then leaves it not in use, and the others as before.
lock_init-free :
    (a : Area) (teamid : ℤ)
    → ((dart_team_lock_init a teamid ≡ (none, a))
        × ((i : ℕ) (l : Lock) → get_elem? a.locks i ≡ some l → l.inuse ≡ true))
      ⊎ ((i : ℕ) × (b : Area) × (old new freed : Lock) × (dart_team_lock_init a teamid
            ≡ (some i, b))
          × (get_elem? a.locks i ≡ some old)
          × (old.inuse ≡ false)
          × (get_elem? b.locks i ≡ some new)
          × (new.inuse ≡ true)
          × (get_elem? (dart_team_lock_free b i).locks i ≡ some freed)
          × (freed.inuse ≡ false)
          × ((j : ℕ)
              → j ≢ i
              → (get_elem? b.locks j ≡ get_elem? a.locks j)
                × (get_elem? (dart_team_lock_free b i).locks j ≡ get_elem? a.locks j)))
lock_init-free a teamid =
    let test = λ (l : Lock). not l.inuse in
    elim (Option-cases (find_loop test 0 a.locks)) [
      | inl e ↦ inl (init_none a teamid e, λ i l f. used l (find_loop-none test 0 a.locks i l e f))
      | inr (s, e) ↦
          let (i, old, p, f, g) = find_loop-some test 0 a.locks s e in
          let new : Lock = record { teamid = teamid; inuse = true } in
          let freed : Lock = record { teamid = teamid; inuse = false } in
          let b = with_lock a i teamid in
          let inside : i < length a.locks = lt_of_get_elem? a.locks i old f in
          let here : get_elem? b.locks i ≡ some new = get_elem?-set_self a.locks i new inside in
          let after : (dart_team_lock_free b i).locks ≡ set b.locks i freed =
            ap (λ (c : Area). c.locks) (free_here b i new here) in
          inr (
            i,
            b,
            old,
            new,
            freed,
            init_some a teamid i (e ∙ ap some (omega (arith, p))),
            f,
            unused old g,
            here,
            refl,
            ap (λ ls. get_elem? ls i) after
                ∙ get_elem?-set_self b.locks i freed
                    (omega (arith, inside, length-set a.locks i new)),
            refl,
            λ j ne. (
              get_elem?-set_ne a.locks new (λ q. ne (sym q)),
              ap (λ ls. get_elem? ls j) after
                  ∙ get_elem?-set_ne b.locks freed (λ q. ne (sym q))
                  ∙ get_elem?-set_ne a.locks new (λ q. ne (sym q)),
            ),
          )
    ]
