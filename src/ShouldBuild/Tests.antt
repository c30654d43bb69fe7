-- ===== src/ShouldBuild/Tests.antt =====
-- Five failures in a row.
use chaotic_next.Base.{ℕ, ◌≡◌, ◌↔◌, refl, false, some, List, [], ◌∷◌}
use chaotic_next.ShouldBuild.{count_failures, should_build_decision}
use chaotic_next.ShouldBuild.Streaks.{IsHeldBack, should_build_decision-IsHeldBack_iff}

abbrev five_failures : List ℕ
five_failures = 3 ∷ 4 ∷ 3 ∷ 7 ∷ 3 ∷ 0 ∷ 3 ∷ []

failing-held_back : (should_build_decision five_failures (some 1000)).should_build ≡ false
unfolding should_build_decision count_failures
failing-held_back = refl

should_build_decision-IsHeldBack_iff_example :
    ((should_build_decision five_failures (some 1000)).should_build ≡ false)
    ↔ IsHeldBack five_failures (some 1000)
should_build_decision-IsHeldBack_iff_example =
    should_build_decision-IsHeldBack_iff five_failures (some 1000)
