-- ===== src/ShouldBuild/Streaks.antt =====
-- Which packages are held back, described by the run of failures at the head of their builds.
use chaotic_next.Base.{
  ℕ, ◌≤◌, ◌≡◌, ◌↔◌, refl, ap, inl, inr, true, false, Option, List, [], ◌∷◌, ◌++◌, nat_eq, has,
  length, All, arith, Bool-cases,
}
use chaotic_next.ShouldBuild.{
  build_failure_statuses, build_rate_limit_failure_streak, count_failures, cooldown_over,
  should_build_decision,
}

abbrev pub IsFailure : ℕ → Type 0
IsFailure status = has status build_failure_statuses ≡ true

-- The newest builds are failures, as many as the limit at least, and the cooldown is not over.
pub record IsHeldBack (statuses : List ℕ) (age_ms : Option ℕ) : Type 0 where
  pub streak : List ℕ
  pub rest : List ℕ
  pub split : statuses ≡ streak ++ rest
  pub failures : All IsFailure streak
  pub long : build_rate_limit_failure_streak ≤ length streak
  pub recent : cooldown_over age_ms ≡ false

-- The failures that are counted, with what follows.
record Counted (statuses : List ℕ) : Type 0 where
  streak : List ℕ
  rest : List ℕ
  split : statuses ≡ streak ++ rest
  failures : All IsFailure streak
  counted : length streak ≡ count_failures statuses

count_failures-Counted : (statuses : List ℕ) → Counted statuses
unfolding count_failures
count_failures-Counted [] = record {
  streak = [];
  rest = [];
  split = refl;
  failures = tt;
  counted = refl;
}
count_failures-Counted (status ∷ statuses) =
    let c = count_failures-Counted statuses in
    elim (Bool-cases (has status build_failure_statuses)) [
      | inl failed ↦ record {
        streak = status ∷ c.streak;
        rest = c.rest;
        split = ap (λ l. status ∷ l) c.split;
        failures = (failed, c.failures);
        counted = rw failed (ground (arith, c.counted));
      }
      | inr fine ↦ record {
        streak = [];
        rest = status ∷ statuses;
        split = refl;
        failures = tt;
        counted = rw fine refl;
      }
    ]

count_failures-least :
    (streak rest : List ℕ) → All IsFailure streak → length streak ≤ count_failures (streak ++ rest)
unfolding count_failures
count_failures-least [] rest a = ground arith
count_failures-least (status ∷ streak) rest (failed, a) =
    rw failed (ground (arith, count_failures-least streak rest a))

pub should_build_decision-IsHeldBack_iff :
    (statuses : List ℕ) (age_ms : Option ℕ)
    → ((should_build_decision statuses age_ms).should_build ≡ false) ↔ IsHeldBack statuses age_ms
unfolding should_build_decision
should_build_decision-IsHeldBack_iff statuses age_ms = (
  λ h.
      let c = count_failures-Counted statuses in
      record {
        streak = c.streak;
        rest = c.rest;
        split = c.split;
        failures = c.failures;
        long = ground (arith, c.counted);
        recent = ground arith;
      },
  λ b.
      let least = count_failures-least b.streak b.rest b.failures in
      rw (b.split) (ground (arith, least, b.long, b.recent)),
)
