-- ===== src/Dash/Math/Tests.antt =====
-- The factors of 360.
use coronas.Prelude.{◌≡◌, refl, none, some, [], ◌∷◌}
use coronas.Dash.Math.{bump, divide_loop, odd_loop, factorize}

factors_of_360 : factorize 360 ≡ some ((2, 3) ∷ (3, 2) ∷ (5, 1) ∷ [])
unfolding factorize divide_loop odd_loop bump
factors_of_360 = refl

-- The first loop does not end for 0.
factors_of_0 : factorize 0 ≡ none
unfolding factorize divide_loop
factors_of_0 = refl
