-- ===== src/Bump/Tests.antt =====
-- Runs of the bump configuration at concrete inputs.
use chaotic_next.Base.{
  split, starts_with, ends_with, join, decimal, last_index_of, index_of, read_decimal, ℕ, suc, Text,
  Option, ◌↔◌, ◌⊎◌, ◌≡◌, refl, some, none, codes, [], ◌∷◌,
}
use chaotic_next.Bump.{
  apply_package_bump, apply_builder_class, ok, unknown_version, parse_ci_config, base_of,
}
use chaotic_next.Bump.Counter.{counter_in, NoKey}
use chaotic_next.Bump.Raised.{apply_package_bump-counter, apply_package_bump-unknown_version_iff}

apply_package_bump-again :
    apply_package_bump (codes "A=1\nCI_PACKAGE_BUMP=1.2-3/9\nB=2") (some (codes "1.2")) (some 3)
    ≡ ok (codes "A=1\nCI_PACKAGE_BUMP=1.2-3/10\nB=2")
unfolding apply_package_bump split starts_with ends_with join decimal last_index_of index_of
    read_decimal
apply_package_bump-again = refl

apply_package_bump-trigger :
    apply_package_bump (codes "A=1\nCI_REBUILD_TRIGGERS=x\n") (some (codes "1.2")) (some 3)
    ≡ ok (codes "A=1\nCI_PACKAGE_BUMP=1.2-3/1\nCI_REBUILD_TRIGGERS=x\n")
unfolding apply_package_bump split starts_with ends_with join decimal last_index_of index_of
    read_decimal
apply_package_bump-trigger = refl

apply_package_bump_unknown : apply_package_bump (codes "A=1\n") none (some 3) ≡ unknown_version
unfolding apply_package_bump split starts_with ends_with join decimal last_index_of index_of
    read_decimal
apply_package_bump_unknown = refl

apply_package_bump-kept :
    apply_package_bump (codes "CI_PACKAGE_BUMP=1-1/x") none (some 3)
    ≡ ok (codes "CI_PACKAGE_BUMP=1-1/1")
unfolding apply_package_bump split starts_with ends_with join decimal last_index_of index_of
    read_decimal
apply_package_bump-kept = refl

apply_builder_class-appended : apply_builder_class (codes "A=1") 4 ≡ codes "A=1\nBUILDER_CLASS=4\n"
unfolding apply_builder_class split starts_with ends_with join decimal last_index_of index_of
    read_decimal
apply_builder_class-appended = refl

parse_ci_config-two :
    parse_ci_config (codes "A=1=2\nx\nA=3\nB=") ≡ (codes "A", codes "3") ∷ (codes "B", []) ∷ []
unfolding parse_ci_config split starts_with ends_with join decimal last_index_of index_of
    read_decimal
parse_ci_config-two = refl

apply_package_bump-counter_example :
    (out : Text) × (apply_package_bump (codes "CI_PACKAGE_BUMP=1-1/4") (some (codes "1")) (some 1)
      ≡ ok out)
    × (counter_in out (base_of (codes "1") 1)
        ≡ suc (counter_in (codes "CI_PACKAGE_BUMP=1-1/4") (base_of (codes "1") 1)))
apply_package_bump-counter_example =
    apply_package_bump-counter (codes "CI_PACKAGE_BUMP=1-1/4") (codes "1") 1 (refl, tt)

apply_package_bump-unknown_version_iff_example :
    (apply_package_bump (codes "A=1\n") none (some 3) ≡ unknown_version)
    ↔ (NoKey (codes "A=1\n") × (◌≡◌ {A = Option Text} none none ⊎ ◌≡◌ {A = Option ℕ} (some 3) none))
apply_package_bump-unknown_version_iff_example =
    apply_package_bump-unknown_version_iff (codes "A=1\n") none (some 3)
