-- ===== src/Mpi/Onesided/Targets.antt =====
-- Which memory the transfers of dart_communication.c reach.
use coronas.Prelude.{
  ℕ, ◌<◌, ◌≡◌, refl, sym, ap, ◌∙◌, inl, inr, false, Option, none, some, List, [], ◌∷◌, ltb,
  Bool-cases, length, get_elem?_lt,
}
use coronas.Prelude.Int.{ℤ, pos, ltb_ℤ}
use coronas.Types.{DartRet, dart_ok, dart_err_inval, Gptr}
use coronas.Mpi.Transtable.{Answer, value, invalid, undefined}
use coronas.Mpi.Onesided.{
  rank_of_positive, win_and_disp, mpi_win_flush, eqb_ℤ, shared_baseptr, disp_and_win, rank_of,
  shared_position, returns, int_max, Runtime, Outcome, attempt, Mpi, dart_get, Call, checked,
  mpi_rget, mpi_get, mpi_put, memcpy, out_of_bounds,
}
use coronas.Mpi.Onesided.Blocking.{dart_put_blocking, dart_get_blocking}
use coronas.Mpi.Onesided.Handles.{
  released, initialised, uninitialised, started, copied_handle, dart_get_handle,
}
use coronas.Mpi.Onesided.Equivalence.{
  win_and_disp-disp_and_win, rank_of_positive-rank_of, AllSucceed,
}

-- Where a call reads or writes the memory of the unit that the pointer names.
pub data Place : Type 0 where
  address : ℕ → Place
  displacement : (rank : ℤ) → (disp win : ℕ) → Place

-- The target of the transfer that was made, with its size; none if none was made.
unfoldable pub get_place : List Call → Option (Place × ℕ)
get_place (memcpy dest src nbytes ∷ calls) = some (address src, nbytes)
get_place (mpi_get origin nbytes rank disp win ∷ calls) = some (displacement rank disp win, nbytes)
get_place (mpi_rget origin nbytes rank disp win ∷ calls) = some (displacement rank disp win, nbytes)
get_place calls = none

unfoldable pub put_place : List Call → Option (Place × ℕ)
put_place (memcpy dest src nbytes ∷ calls) = some (address dest, nbytes)
put_place (mpi_put origin nbytes rank disp win ∷ calls) = some (displacement rank disp win, nbytes)
put_place calls = none

-- The answer and the target of a transfer; none where the behaviour is undefined.
unfoldable pub target {ℓ} :
    {A : Type ℓ}
    → (List Call → Option (Place × ℕ))
    → Outcome A
    → Option (DartRet × Option (Place × ℕ))
target place (returns ret calls _) = some (ret, place calls)
target place out_of_bounds = none

-- Two attempts at one value reach the same target if their continuations do.
target-attempt {ℓ κ μ} :
    {A : Type ℓ} {B : Type κ} {C : Type μ} (p q : List Call → Option (Place × ℕ)) (a : Answer A)
    (b : B) (c : C) (f : A → Outcome B) (g : A → Outcome C)
    → p [] ≡ q []
    → ((x : A) → target p (f x) ≡ target q (g x))
    → target p (attempt a b f) ≡ target q (attempt a c g)
unfolding target
target-attempt p q (value x) b c f g e h = h x
target-attempt p q invalid b c f g e h = ap (λ place. some (dart_err_inval, place)) e
target-attempt p q undefined b c f g e h = refl

-- The same with a case for each unit of this node and one for the others.
target_position {ℓ κ} :
    {B : Type ℓ} {C : Type κ} (p q : List Call → Option (Place × ℕ)) (a : Answer (Option ℕ)) (b : B)
    (c : C) (far : Outcome B) (near : ℕ → Outcome B) (far' : Outcome C) (near' : ℕ → Outcome C)
    → p [] ≡ q []
    → target p far ≡ target q far'
    → ((i : ℕ) → target p (near i) ≡ target q (near' i))
    → target p (attempt a b (λ o. elim o [ none ↦ far | some i ↦ near i ]))
      ≡ target q (attempt a c (λ o. elim o [ none ↦ far' | some i ↦ near' i ]))
unfolding target
target_position p q (value none) b c far near far' near' e f h = f
target_position p q (value (some i)) b c far near far' near' e f h = h i
target_position p q invalid b c far near far' near' e f h =
    ap (λ place. some (dart_err_inval, place)) e
target_position p q undefined b c far near far' near' e f h = refl

-- A call, and a call and a flush, none of which fails.
target-checked :
    (mpi : Mpi) (p : List Call → Option (Place × ℕ)) (call : Call)
    → AllSucceed mpi
    → target p (checked mpi call (returns dart_ok [] tt)) ≡ some (dart_ok, p (call ∷ []))
unfolding target checked
target-checked mpi p call s = rw (s call) refl

target_flushed :
    (mpi : Mpi) (p : List Call → Option (Place × ℕ)) (call flush : Call)
    → AllSucceed mpi
    → target p (checked mpi call (checked mpi flush (returns dart_ok [] tt)))
      ≡ some (dart_ok, p (call ∷ flush ∷ []))
unfolding checked target
target_flushed mpi p call flush s =
    ap (λ rest. target p (checked mpi call rest)) flushed ∙ rw (s call) refl
  where
    flushed : checked mpi flush (returns dart_ok [] tt) ≡ returns dart_ok (flush ∷ []) tt
    flushed = rw (s flush) refl

-- dart_put_blocking answers what dart_get_blocking answers, at the same place.
put_blocking-target :
    (mpi : Mpi) (rt : Runtime) (gptr : Gptr) (buffer nbytes : ℕ)
    → ltb_ℤ gptr.segid (pos 0) ≡ false
    → AllSucceed mpi
    → target put_place (dart_put_blocking mpi rt gptr buffer nbytes)
      ≡ target get_place (dart_get_blocking mpi rt buffer gptr nbytes)
unfolding dart_put_blocking dart_get_blocking target put_place get_place
put_blocking-target mpi rt gptr buffer nbytes h s = elim (Bool-cases (ltb int_max nbytes)) [
  | inl e ↦ rw e refl
  | inr e ↦ rw e (
      target_position put_place get_place (shared_position rt gptr) tt tt _ _ _ _ refl
        (rw (rank_of_positive-rank_of mpi gptr h) (
          target-attempt put_place get_place (disp_and_win rt gptr (rank_of mpi gptr)) tt tt _ _
            refl
            (λ (disp_rel, win).
              target_flushed mpi put_place (mpi_put buffer nbytes (rank_of mpi gptr) disp_rel win)
                (mpi_win_flush (rank_of mpi gptr) win) s
              ∙ sym (
                  target_flushed mpi get_place
                    (mpi_get buffer nbytes (rank_of mpi gptr) disp_rel win)
                    (mpi_win_flush (rank_of mpi gptr) win) s))))
        (λ i.
          target-attempt put_place get_place (shared_baseptr rt gptr i) tt tt _ _ refl
            (λ baseptr. refl)))
]

-- So do dart_get, which does not flush, and dart_get_handle.
get-target :
    (mpi : Mpi) (rt : Runtime) (gptr : Gptr) (buffer nbytes : ℕ)
    → AllSucceed mpi
    → target get_place (dart_get mpi rt buffer gptr nbytes)
      ≡ target get_place (dart_get_blocking mpi rt buffer gptr nbytes)
unfolding dart_get dart_get_blocking target get_place
get-target mpi rt gptr buffer nbytes s = elim (Bool-cases (ltb int_max nbytes)) [
  | inl e ↦ rw e refl
  | inr e ↦ rw e (
      target_position get_place get_place (shared_position rt gptr) tt tt _ _ _ _ refl
        (target-attempt get_place get_place (disp_and_win rt gptr (rank_of mpi gptr)) tt tt _ _ refl
          (λ (disp_rel, win).
            target-checked mpi get_place (mpi_get buffer nbytes (rank_of mpi gptr) disp_rel win) s
            ∙ sym (
                target_flushed mpi get_place (mpi_get buffer nbytes (rank_of mpi gptr) disp_rel win)
                  (mpi_win_flush (rank_of mpi gptr) win) s)))
        (λ i. refl))
]

-- The fields of the handle can be set where the index has a window.
copied_handle-returns :
    (mpi : Mpi) (rt : Runtime) (gptr : Gptr)
    → gptr.flags < length rt.win_lists
    → (p : List Call → Option (Place × ℕ)) (calls : List Call)
    → target p (
        attempt
          (copied_handle mpi rt gptr)
          uninitialised
          (λ handle. returns dart_ok calls (initialised handle)))
      ≡ some (dart_ok, p calls)
unfolding copied_handle target
copied_handle-returns mpi rt gptr w p calls =
    let (window, at) = get_elem?_lt rt.win_lists gptr.flags w in
    elim (Bool-cases (eqb_ℤ gptr.segid (pos 0))) [ inl z ↦ rw z refl | inr z ↦ rw z (rw at refl) ]

get_handle-target :
    (mpi : Mpi) (rt : Runtime) (gptr : Gptr) (buffer nbytes : ℕ)
    → ltb_ℤ gptr.segid (pos 0) ≡ false
    → gptr.flags < length rt.win_lists
    → AllSucceed mpi
    → target get_place (dart_get_handle mpi rt buffer gptr nbytes)
      ≡ target get_place (dart_get_blocking mpi rt buffer gptr nbytes)
unfolding dart_get_handle dart_get_blocking target get_place copied_handle started
get_handle-target mpi rt gptr buffer nbytes h w s = elim (Bool-cases (ltb int_max nbytes)) [
  | inl e ↦ rw e refl
  | inr e ↦ rw e (
      target_position get_place get_place (shared_position rt gptr) uninitialised tt _ _ _ _ refl
        (rw same (
          rw (rank_of_positive-rank_of mpi gptr h) (
            target-attempt get_place get_place (disp_and_win rt gptr (rank_of mpi gptr)) released tt
              _ _ refl
              (λ (disp_rel, win). rw (s (mpi_rget buffer nbytes (rank_of mpi gptr) disp_rel win)) (
                sym (
                  target_flushed mpi get_place
                    (mpi_get buffer nbytes (rank_of mpi gptr) disp_rel win)
                    (mpi_win_flush (rank_of mpi gptr) win) s))))))
        (λ i.
          target-attempt get_place get_place (shared_baseptr rt gptr i) uninitialised tt _ _ refl
            (λ baseptr. copied_handle-returns mpi rt gptr w get_place _)))
]
  where
    same :
        win_and_disp rt gptr (rank_of_positive mpi gptr) ≡ disp_and_win rt gptr (rank_of mpi gptr)
    same =
        win_and_disp-disp_and_win rt gptr (rank_of_positive mpi gptr) w
        ∙ ap (disp_and_win rt gptr) (rank_of_positive-rank_of mpi gptr h)

-- For a segment id that is not negative, an index with a window, and where no MPI call fails,
-- dart_put_blocking, dart_get and dart_get_handle answer what dart_get_blocking answers for the same
-- pointer and size, and reach the same bytes of the same unit.
pub transfer_targets :
    (mpi : Mpi) (rt : Runtime) (gptr : Gptr) (buffer nbytes : ℕ)
    → ltb_ℤ gptr.segid (pos 0) ≡ false
    → gptr.flags < length rt.win_lists
    → AllSucceed mpi
    → (target put_place (dart_put_blocking mpi rt gptr buffer nbytes)
        ≡ target get_place (dart_get_blocking mpi rt buffer gptr nbytes))
      × (target get_place (dart_get mpi rt buffer gptr nbytes)
          ≡ target get_place (dart_get_blocking mpi rt buffer gptr nbytes))
      × (target get_place (dart_get_handle mpi rt buffer gptr nbytes)
          ≡ target get_place (dart_get_blocking mpi rt buffer gptr nbytes))
transfer_targets mpi rt gptr buffer nbytes h w s = (
  put_blocking-target mpi rt gptr buffer nbytes h s,
  get-target mpi rt gptr buffer nbytes s,
  get_handle-target mpi rt gptr buffer nbytes h w s,
)
