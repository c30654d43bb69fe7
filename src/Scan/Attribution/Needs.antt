-- ===== src/Scan/Attribution/Needs.antt =====
-- What is broken for a consumer: the dependencies that `brokenDepsForConsumer` of
-- backend/src/repo-manager/scan/trigger-detector.ts looks at, with what is provided to it.
use mathlib.Core.List.{Memᴰ}
use chaotic_next.Base.{
  ◌≡◌, refl, ◌∙◌, inl, inr, true, false, not, Option, none, some, List, [], ◌++◌, Text, text_eq,
  has, any, or_else, has-keep, has-dedupe, has-append, arith, Bool-cases,
}
use chaotic_next.Base.Map.{get}
use chaotic_next.Signal.Broken.{BrokenDependency}
use chaotic_next.Signal.Broken.Reported.{IsBroken, IsBroken-map, find_broken_dependencies-IsBroken}
use chaotic_next.Scan.Records.{PackageElfAnalysis}
use chaotic_next.Scan.Context.{
  BrokenDepsContext, reachable_from, provided_by_deps, provided_for_deps, is_withheld,
  withhold_unreachable_dropped_sonames,
}
use chaotic_next.Scan.Attribution.{broken_for}

-- Why a soname is not available to a consumer: neither Arch nor one of its dependencies provides it,
-- or a changed package dropped it and no provider can be reached.
pub data IsUnavailable (ctx : BrokenDepsContext) (deps : Option (List Text)) (soname : Text)
    : Type 0 where
  unprovided :
      has soname ctx.arch_provided_sonames ≡ false
      → has soname (provided_by_deps ctx.provided_by_pkgname deps) ≡ false
      → IsUnavailable ctx deps soname
  out_of_reach :
      (reachable : List Text)
      → reachable_from ctx.dependency_closure deps ≡ some reachable
      → has soname ctx.dropped_sonames ≡ true
      → any (λ provider. has provider reachable) (or_else (get soname ctx.provided_by_pkgname) [])
        ≡ false
      → IsUnavailable ctx deps soname

-- A dependency that is broken for the consumer.
abbrev pub IsBrokenFor :
    PackageElfAnalysis → BrokenDepsContext → Option (List Text) → BrokenDependency → Type 0
IsBrokenFor consumer ctx deps =
    IsBroken consumer.needed_sonames consumer.files (IsUnavailable ctx deps) ctx.runtimes
      consumer.provided_sonames

not_provided :
    (ctx : BrokenDepsContext) (deps : Option (List Text)) (soname : Text)
    → has soname (provided_for_deps ctx.provided_by_pkgname deps ctx.arch_provided_sonames) ≡ false
    → IsUnavailable ctx deps soname
unfolding provided_for_deps
not_provided ctx deps soname h =
    let from_deps = provided_by_deps ctx.provided_by_pkgname deps in
    let where_from =
      has-dedupe soname (ctx.arch_provided_sonames ++ from_deps)
      ∙ has-append soname ctx.arch_provided_sonames from_deps in
    unprovided (ground (arith, where_from, h)) (ground (arith, where_from, h))

withheld-IsUnavailable :
    (ctx : BrokenDepsContext) (deps : Option (List Text)) (needed provided : List Text)
    (reachable : Option (List Text)) (soname : Text)
    → reachable_from ctx.dependency_closure deps ≡ reachable
    → (has soname provided ≡ false → IsUnavailable ctx deps soname)
    → has soname (withhold_unreachable_dropped_sonames provided needed reachable ctx) ≡ false
    → IsUnavailable ctx deps soname
unfolding withhold_unreachable_dropped_sonames
withheld-IsUnavailable ctx deps needed provided none soname r absent h = absent h
withheld-IsUnavailable ctx deps needed provided (some reachable) soname r absent h =
    elim (Bool-cases (is_withheld ctx needed reachable soname)) [
      | inl away ↦ out_of_reach reachable r (ground (arith, away)) (ground (arith, away))
      | inr kept ↦ absent (
          ground (
            arith,
            has-keep (λ s. not (is_withheld ctx needed reachable s)) soname provided,
            kept,
            h,
          ))
    ]

-- Every dependency that counts as broken for a consumer is a soname that it needs, does not ship and
-- cannot get, or a runtime whose directory it ships for another version.
pub broken_for-IsBrokenFor :
    (consumer : PackageElfAnalysis) (ctx : BrokenDepsContext) (deps : Option (List Text))
    (dep : BrokenDependency)
    → Memᴰ dep (broken_for consumer ctx deps)
    → IsBrokenFor consumer ctx deps dep
unfolding broken_for
broken_for-IsBrokenFor consumer ctx deps dep m =
    let reachable = reachable_from ctx.dependency_closure deps in
    let provided = provided_for_deps ctx.provided_by_pkgname deps ctx.arch_provided_sonames in
    let needed = consumer.needed_sonames in
    let available = withhold_unreachable_dropped_sonames provided needed reachable ctx in
    IsBroken-map (λ s. has s available ≡ false) (IsUnavailable ctx deps)
      (λ s n absent.
        withheld-IsUnavailable ctx deps needed provided reachable s refl (not_provided ctx deps s)
          absent)
      (find_broken_dependencies-IsBroken needed consumer.files available ctx.runtimes
        consumer.provided_sonames dep m)
