-- ===== src/Signal/Fixability/Verdicts.antt =====
-- When a rebuild is the fix, and what a package as a whole needs.
use mathlib.Core.List.{Memᴰ}
use chaotic_next.Base.{
  ◌≤◌, ◌≡◌, ◌↔◌, ◌⊎◌, inl, inr, refl, sym, ◌∙◌, true, false, List, [], ◌∷◌, text_eq, has, All,
  arith, if◌then◌else◌, ltb,
}
use chaotic_next.Signal.Broken.{
  BrokenDependency, missing_soname, missing_version, stale_runtime, format_broken_dependency,
}
use chaotic_next.Signal.Fixability.{
  BrokenFixability, rebuild, pkgbuild_change, BrokenIssue, FixabilityContext, has_successor,
  rebuild_relinks, is_foreign_soname, classify_broken_dependency, rank, worst_from,
  worst_fixability,
}

-- What must hold for a rebuild to be the fix.
pub record RebuildFixes (dep : BrokenDependency) (ctx : FixabilityContext) : Type 0 where
  pub native : is_foreign_soname dep ≡ false
  pub relinks : rebuild_relinks dep ctx.is_source_compiled ≡ true
  pub successor : has_successor dep ctx.soname_stems ≡ true
  pub fresh : has (format_broken_dependency dep) ctx.reasons_as_built ≡ false

-- A rebuild is the fix exactly when the soname is no foreign one, the rebuild links anew, there is
-- a successor to link against, and the reason was not there at the first scan.
pub classify_broken_dependency-rebuild_iff :
    (dep : BrokenDependency) (ctx : FixabilityContext)
    → ((classify_broken_dependency dep ctx).fixability ≡ rebuild) ↔ RebuildFixes dep ctx
unfolding classify_broken_dependency
classify_broken_dependency-rebuild_iff dep ctx = (λ h. ground arith, λ r. ground arith)

-- A change of the PKGBUILD is the fix only of a package that is compiled from source, for a soname
-- that is not foreign and that a rebuild does not fix.
pub classify_broken_dependency-pkgbuild_iff :
    (dep : BrokenDependency) (ctx : FixabilityContext)
    → ((classify_broken_dependency dep ctx).fixability ≡ pkgbuild_change) ↔ (
        (ctx.is_source_compiled ≡ true)
        × (is_foreign_soname dep ≡ false)
        × ((has_successor dep ctx.soname_stems ≡ false)
            ⊎ (has (format_broken_dependency dep) ctx.reasons_as_built ≡ true)))
unfolding classify_broken_dependency rebuild_relinks
classify_broken_dependency-pkgbuild_iff (missing_soname soname) ctx = ground arith
classify_broken_dependency-pkgbuild_iff (missing_version soname nodes) ctx = ground arith
classify_broken_dependency-pkgbuild_iff (stale_runtime runtime current found path) ctx =
    ground arith

abbrev worse : BrokenFixability → BrokenFixability → BrokenFixability
worse a b = if ltb (rank a) (rank b) then b else a

worse_bounds :
    (a b : BrokenFixability)
    → (rank a ≤ rank (worse a b))
      × (rank b ≤ rank (worse a b))
      × ((worse a b ≡ a) ⊎ (worse a b ≡ b))
worse_bounds a b = ground arith

-- The fixability is that of a listed issue.
abbrev pub IsOneOf : BrokenFixability → List BrokenIssue → Type 0
IsOneOf f issues = (issue : BrokenIssue) × Memᴰ issue issues × (issue.fixability ≡ f)

IsOneOf-step :
    (worst next : BrokenFixability) (issue : BrokenIssue) (issues : List BrokenIssue)
    {f : BrokenFixability}
    → (next ≡ worst) ⊎ (next ≡ issue.fixability)
    → (f ≡ next) ⊎ IsOneOf f issues
    → (f ≡ worst) ⊎ IsOneOf f (issue ∷ issues)
IsOneOf-step worst next issue issues (inl p) (inl q) = inl (q ∙ p)
IsOneOf-step worst next issue issues (inr p) (inl q) = inr (issue, Memᴰ.head refl, sym p ∙ sym q)
IsOneOf-step worst next issue issues _ (inr (i, m, q)) = inr (i, Memᴰ.tail m, q)

worst_from_bounds :
    (worst : BrokenFixability) (issues : List BrokenIssue)
    → (rank worst ≤ rank (worst_from worst issues))
      × All (λ issue. rank issue.fixability ≤ rank (worst_from worst issues)) issues
      × ((worst_from worst issues ≡ worst)
          ⊎ ((issue : BrokenIssue) × Memᴰ issue issues
              × (issue.fixability ≡ worst_from worst issues)))
unfolding worst_from
worst_from_bounds worst [] = (omega arith, tt, inl refl)
worst_from_bounds worst (issue ∷ issues) =
    let next = worse worst issue.fixability in
    let (up, across, which) = worse_bounds worst issue.fixability in
    let (low, all, one) = worst_from_bounds next issues in
    (omega arith, (omega arith, all), IsOneOf-step worst next issue issues which one)

-- The fixability of a package is the worst of its issues: no issue is worse, and it is the
-- fixability of one of them, or `rebuild` where there is none.
pub worst_fixability_lem :
    (issues : List BrokenIssue)
    → All (λ issue. rank issue.fixability ≤ rank (worst_fixability issues)) issues
      × ((worst_fixability issues ≡ rebuild)
          ⊎ ((issue : BrokenIssue) × Memᴰ issue issues
              × (issue.fixability ≡ worst_fixability issues)))
unfolding worst_fixability
worst_fixability_lem issues = let (_, all, one) = worst_from_bounds rebuild issues in (all, one)
