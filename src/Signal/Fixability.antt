-- ===== src/Signal/Fixability.antt =====
-- What fixes a broken package: backend/src/repo-manager/signal/fixability.ts, with
-- `BROKEN_FIXABILITIES` of shared-lib/src/lib/types/package.ts.
pub mod Verdicts
use chaotic_next.Base.{
  ℕ, ◌+◌, Bool, true, false, not, ◌&&◌, ◌||◌, Option, none, some, List, [], ◌∷◌, ◌++◌, Text, codes,
  text_eq, ◌==◌, has, dedupe, any, map, is_digit, ltb, if◌then◌else◌,
}
use chaotic_next.Base.Regex.{Re, ◌⋅◌, either, start, end, unless, lit, digits, test}
use chaotic_next.Signal.Sonames.{haskell_package_name, haskell_soname_prefix}
use chaotic_next.Signal.Broken.{
  BrokenDependency, missing_soname, missing_version, stale_runtime, soname_version_prefix,
  format_broken_dependency,
}

pub data BrokenFixability : Type 0 where
  rebuild pkgbuild_change no_fix : BrokenFixability

pub record BrokenIssue : Type 0 where
  pub reason : Text
  pub fixability : BrokenFixability

-- `/^libc\.so\.(?!6$)\d+$/` and `/^libkstat\.so(\.|$)/`
abbrev foreign_soname_regexes : List Re
foreign_soname_regexes =
    (start ⋅ lit (codes "libc.so.") ⋅ unless (lit (codes "6") ⋅ end) ⋅ digits ⋅ end)
    ∷ (start ⋅ lit (codes "libkstat.so") ⋅ either (lit (codes ".")) end)
    ∷ []

pub record FixabilityContext : Type 0 where
  pub soname_stems : List Text
  pub reasons_as_built : List Text
  pub is_source_compiled : Bool

unfoldable pub successor_stem : Text → Text
unfolding haskell_package_name soname_version_prefix
successor_stem soname = elim (haskell_package_name soname) [
  | none ↦ soname_version_prefix soname
  | some haskell ↦ haskell_soname_prefix ++ haskell
]

unfoldable pub soname_stems : List Text → List Text
unfolding successor_stem
soname_stems provided = dedupe (map successor_stem provided)

unfoldable pub has_successor : BrokenDependency → List Text → Bool
has_successor (missing_soname soname) stems =
    if soname == [] then true else has (successor_stem soname) stems
has_successor _ stems = true

unfoldable pub rebuild_relinks : BrokenDependency → Bool → Bool
rebuild_relinks (stale_runtime runtime current found path) compiled = true
rebuild_relinks _ compiled = compiled

unfoldable pub is_foreign_soname : BrokenDependency → Bool
unfolding test
is_foreign_soname (missing_soname soname) =
    if soname == [] then false else any (λ regex. test regex soname) foreign_soname_regexes
is_foreign_soname _ = false

unfoldable pub fixability_of : Bool → Bool → BrokenFixability
fixability_of rebuild_fixes compiled =
    if rebuild_fixes then rebuild else if compiled then pkgbuild_change else no_fix

unfoldable pub classify_broken_dependency : BrokenDependency → FixabilityContext → BrokenIssue
unfolding fixability_of
classify_broken_dependency dep ctx =
    let reason = format_broken_dependency dep in
    let rebuild_fixes =
      rebuild_relinks dep ctx.is_source_compiled
      && has_successor dep ctx.soname_stems
      && not (has reason ctx.reasons_as_built) in
    if is_foreign_soname dep
    then record { reason = reason; fixability = no_fix }
    else record { reason = reason; fixability = fixability_of rebuild_fixes ctx.is_source_compiled }

-- `BROKEN_FIXABILITIES.indexOf(fixability)`
abbrev pub rank : BrokenFixability → ℕ
rank rebuild = 0
rank pkgbuild_change = 1
rank no_fix = 2

unfoldable pub worst_from : BrokenFixability → List BrokenIssue → BrokenFixability
worst_from worst [] = worst
worst_from worst (issue ∷ issues) =
    worst_from (if ltb (rank worst) (rank issue.fixability) then issue.fixability else worst) issues

unfoldable pub worst_fixability : List BrokenIssue → BrokenFixability
unfolding worst_from
worst_fixability issues = worst_from rebuild issues
