-- ===== src/Mpi/Completion/Laws.antt =====
-- What the waits of dart_communication.c achieve with MPI as its standard describes it.
use coronas.Prelude.{
  ℕ, suc, ◌≡◌, refl, sym, ap, subst, ◌∙◌, inl, inr, Bool, true, Option, none, some, List, [], ◌∷◌,
  ltb, Bool-cases, length,
}
use coronas.Prelude.Int.{ℤ}
use coronas.Types.{dart_ok}
use coronas.Mpi.Onesided.Handles.{Handle}
use coronas.Mpi.Completion.{
  free, wait_local, int_max, wait, dart_waitall_local, dart_wait_local, dart_wait, dart_waitall,
  requests, mpi_waitall, waitall_local, waitall, then_release, with_request, before, Step, Requests,
  copy_back, free_loop, flush_loop, Waited, release_loop, flush,
}

-- A wait that succeeds leaves MPI_REQUEST_NULL in place of each request that it was given.
pub record IsDocumented (mpi : Requests) : Type 0 where
  pub wait_null : (r : Option ℕ) → mpi.wait_succeeds r ≡ true → mpi.waited r ≡ none
  pub waitall_null :
      (rs : List (Option ℕ)) (i : ℕ)
      → mpi.waitall_succeeds rs ≡ true
      → mpi.waitall_request rs i ≡ none

-- The flushes among the calls, with their targets.
unfoldable pub flushes : List Step → List (ℤ × ℕ)
flushes [] = []
flushes (flush dest win ∷ steps) = (dest, win) ∷ flushes steps
flushes (_ ∷ steps) = flushes steps

-- Every pointer of the array is NULL.
unfoldable pub nulls : List (Option Handle) → List (Option Handle)
nulls [] = []
nulls (_ ∷ hs) = none ∷ nulls hs

abbrev IsQuiet : List (Option Handle) → Waited → Type 0
IsQuiet hs w = (w.ret ≡ dart_ok) × (w.handles ≡ nulls hs) × (flushes w.steps ≡ [])

free_loop-IsQuiet :
    (mpi : Requests) (after : ℕ → Option ℕ) (status : ℕ → Bool) (r_n : ℕ)
    (hs : List (Option Handle))
    → ((i : ℕ) → after i ≡ none)
    → IsQuiet hs (free_loop mpi after status r_n hs)
unfolding free_loop nulls flushes
free_loop-IsQuiet mpi after status r_n [] e = (refl, refl, refl)
free_loop-IsQuiet mpi after status r_n (none ∷ hs) e =
    let (r, h, f) = free_loop-IsQuiet mpi after status r_n hs e in (r, ap (λ l. none ∷ l) h, f)
free_loop-IsQuiet mpi after status r_n (some h ∷ hs) e =
    let (r, q, f) = free_loop-IsQuiet mpi after status (suc r_n) hs e in
    rw (e r_n, free_loop) (r, ap (λ l. none ∷ l) q, f)

flush_loop-null :
    (mpi : Requests) (h : Handle) (r : Option ℕ) (hs : List (Option Handle))
    → r ≡ none
    → flush_loop mpi (some (with_request r h) ∷ hs)
      ≡ before [] (some (with_request r h)) (flush_loop mpi hs)
unfolding flush_loop
flush_loop-null mpi h none hs e = refl
flush_loop-null mpi h (some r) hs e = absurd (cc)

-- With no requests left the loop that should flush skips every handle.
flush_loop-copy_back :
    (mpi : Requests) (after : ℕ → Option ℕ) (r_n : ℕ) (hs : List (Option Handle))
    → ((i : ℕ) → after i ≡ none)
    → flush_loop mpi (copy_back after r_n hs)
      ≡ record { ret = dart_ok; handles = copy_back after r_n hs; steps = [] }
unfolding flush_loop copy_back
flush_loop-copy_back mpi after r_n [] e = refl
flush_loop-copy_back mpi after r_n (none ∷ hs) e =
    ap (before [] none) (flush_loop-copy_back mpi after r_n hs e)
flush_loop-copy_back mpi after r_n (some h ∷ hs) e =
    flush_loop-null mpi h (after r_n) (copy_back after (suc r_n) hs) (e r_n)
    ∙ ap (before [] (some (with_request (after r_n) h)))
        (flush_loop-copy_back mpi after (suc r_n) hs e)

nulls-copy_back :
    (after : ℕ → Option ℕ) (r_n : ℕ) (hs : List (Option Handle))
    → nulls (copy_back after r_n hs) ≡ nulls hs
unfolding nulls copy_back
nulls-copy_back after r_n [] = refl
nulls-copy_back after r_n (none ∷ hs) = ap (λ l. none ∷ l) (nulls-copy_back after r_n hs)
nulls-copy_back after r_n (some h ∷ hs) = ap (λ l. none ∷ l) (nulls-copy_back after (suc r_n) hs)

release_loop-IsQuiet : (hs : List (Option Handle)) → IsQuiet hs (release_loop hs)
unfolding release_loop nulls flushes
release_loop-IsQuiet [] = (refl, refl, refl)
release_loop-IsQuiet (none ∷ hs) =
    let (r, h, f) = release_loop-IsQuiet hs in (r, ap (λ l. none ∷ l) h, f)
release_loop-IsQuiet (some _ ∷ hs) =
    let (r, h, f) = release_loop-IsQuiet hs in (r, ap (λ l. none ∷ l) h, f)

-- In place of a loop that went through.
then_release-IsQuiet :
    (rs : List (Option ℕ)) (hs : List (Option Handle))
    → IsQuiet hs
        (then_release (mpi_waitall rs ∷ []) (record { ret = dart_ok; handles = hs; steps = [] }))
unfolding then_release flushes
then_release-IsQuiet rs hs = release_loop-IsQuiet hs

-- Where the wait for all requests succeeded, both functions end with every handle released.
waitall_local-IsQuiet :
    (mpi : Requests) (h : Handle) (hs : List (Option Handle))
    → IsDocumented mpi
    → mpi.waitall_succeeds (requests (some h ∷ hs)) ≡ true
    → IsQuiet (some h ∷ hs) (waitall_local mpi (some h ∷ hs))
unfolding waitall_local flushes
waitall_local-IsQuiet mpi h hs d e =
    rw e
      (free_loop-IsQuiet mpi _ _ 0 (some h ∷ hs) (λ i. d.waitall_null (requests (some h ∷ hs)) i e))

waitall-IsQuiet :
    (mpi : Requests) (h : Handle) (hs : List (Option Handle))
    → IsDocumented mpi
    → mpi.waitall_succeeds (requests (some h ∷ hs)) ≡ true
    → IsQuiet (some h ∷ hs) (waitall mpi (some h ∷ hs))
unfolding waitall
waitall-IsQuiet mpi h hs d e = rw e (
    subst (λ w. IsQuiet (some h ∷ hs) (then_release (mpi_waitall (requests (some h ∷ hs)) ∷ []) w))
      (sym (
        flush_loop-copy_back mpi after 0 (some h ∷ hs)
          (λ i. d.waitall_null (requests (some h ∷ hs)) i e)))
      (quiet.0, quiet.1 ∙ nulls-copy_back after 0 (some h ∷ hs), quiet.2))
  where
    after : ℕ → Option ℕ
    after = mpi.waitall_request (requests (some h ∷ hs))

    quiet : IsQuiet (copy_back after 0 (some h ∷ hs)) (
        then_release
          (mpi_waitall (requests (some h ∷ hs)) ∷ [])
          (record { ret = dart_ok; handles = copy_back after 0 (some h ∷ hs); steps = [] }))
    quiet = then_release-IsQuiet (requests (some h ∷ hs)) (copy_back after 0 (some h ∷ hs))

-- With MPI as documented dart_waitall ends with the answer and the handles of dart_waitall_local,
-- errors included, and neither makes any flush.
pub waitall-waitall_local :
    (mpi : Requests) (handles : List (Option Handle))
    → IsDocumented mpi
    → ((dart_waitall mpi handles).ret ≡ (dart_waitall_local mpi handles).ret)
      × ((dart_waitall mpi handles).handles ≡ (dart_waitall_local mpi handles).handles)
      × (flushes (dart_waitall mpi handles).steps ≡ [])
      × (flushes (dart_waitall_local mpi handles).steps ≡ [])
unfolding dart_waitall dart_waitall_local flushes
waitall-waitall_local mpi handles d = elim (Bool-cases (ltb int_max (length handles))) [
  | inl e ↦ rw e (refl, refl, refl, refl)
  | inr e ↦ rw e (inner handles)
]
  where
    inner :
        (hs : List (Option Handle))
        → ((waitall mpi hs).ret ≡ (waitall_local mpi hs).ret)
          × ((waitall mpi hs).handles ≡ (waitall_local mpi hs).handles)
          × (flushes (waitall mpi hs).steps ≡ [])
          × (flushes (waitall_local mpi hs).steps ≡ [])
    inner [] = unfold waitall waitall_local in (refl, refl, refl, refl)
    inner (none ∷ hs) = unfold waitall waitall_local in (refl, refl, refl, refl)
    inner (some h ∷ hs) = elim (Bool-cases (mpi.waitall_succeeds (requests (some h ∷ hs)))) [
      | inl e ↦
          let a = waitall-IsQuiet mpi h hs d e in
          let b = waitall_local-IsQuiet mpi h hs d e in (a.0 ∙ sym b.0, a.1 ∙ sym b.1, a.2, b.2)
      | inr e ↦ unfold waitall waitall_local in rw e (refl, refl, refl, refl)
    ]

-- A wait for a handle with a request, where MPI does not fail, waits for the request, flushes the
-- target of the handle and releases it; but after a dart_wait_local that succeeded, with MPI as
-- documented, it only releases the handle and flushes nothing.
pub wait-wait_local :
    (mpi : Requests) (h : Handle) (r : ℕ)
    → h.request ≡ some r
    → IsDocumented mpi
    → mpi.wait_succeeds (some r) ≡ true
    → mpi.flush_succeeds h.dest h.win ≡ true
    → (flushes (dart_wait mpi (some h)).steps ≡ (h.dest, h.win) ∷ [])
      × ((dart_wait mpi (some h)).handles ≡ none ∷ [])
      × ((dart_wait_local mpi (some h)).handles ≡ some (with_request none h) ∷ [])
      × (dart_wait mpi (some (with_request none h))
          ≡ record { ret = dart_ok; handles = none ∷ []; steps = free (with_request none h) ∷ [] })
unfolding dart_wait dart_wait_local flushes wait wait_local
wait-wait_local mpi h r e d w f =
    rw e (rw w (rw f (rw (d.wait_null (some r) w) (refl, refl, refl, refl))))
