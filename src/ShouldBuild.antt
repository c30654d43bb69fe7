-- ===== src/ShouldBuild.antt =====
-- The rate limit on failing packages: `shouldBuildDecision` of
-- backend/src/builder/unresolved-failures.ts, with `BUILD_FAILURE_STATUSES` and the limits of
-- shared-lib/src/lib/types/build.ts. A status is its number.
pub mod Streaks
mod Tests
use chaotic_next.Base.{
  ℕ, suc, ◌*◌, ltb, leb, Bool, true, false, Option, none, some, List, [], ◌∷◌, nat_eq, has,
  if◌then◌else◌,
}

-- `FAILED`, `TIMED_OUT` and `SOFTWARE_FAILURE`.
abbrev pub build_failure_statuses : List ℕ
build_failure_statuses = 3 ∷ 4 ∷ 7 ∷ []

abbrev pub build_rate_limit_failure_streak : ℕ
build_rate_limit_failure_streak = 5

-- `BUILD_RATE_LIMIT_RETRY_HOURS` in milliseconds.
abbrev pub should_build_retry_ms : ℕ
should_build_retry_ms = 24 * 60 * 60 * 1000

-- The loop that counts until its `break`.
unfoldable pub count_failures : List ℕ → ℕ
count_failures [] = 0
count_failures (status ∷ statuses) =
    let rest = count_failures statuses in if has status build_failure_statuses then suc rest else 0

abbrev pub cooldown_over : Option ℕ → Bool
cooldown_over none = false
cooldown_over (some age_ms) = leb should_build_retry_ms age_ms

pub record Decision : Type 0 where
  pub should_build : Bool
  pub consecutive_failures : ℕ

unfoldable pub should_build_decision : List ℕ → Option ℕ → Decision
unfolding count_failures
should_build_decision statuses newest_build_age_ms =
    let failures = count_failures statuses in
    if ltb failures build_rate_limit_failure_streak
    then record { should_build = true; consecutive_failures = failures }
    else record {
      should_build = cooldown_over newest_build_age_ms;
      consecutive_failures = failures;
    }
