-- ===== src/Signal/Broken/Reported.antt =====
-- What a dependency that `findBrokenDependencies` of backend/src/repo-manager/signal/graph.ts reports
-- says of the package.
use mathlib.Core.List.{Memᴰ}
use mathlib.Core.List.Memᴰ
use mathlib.Core.Path.{subst}
use chaotic_next.Base.{
  ◌≡◌, sym, inl, inr, true, false, not, List, none, map, Text, text_eq, has, has-dedupe, mem-has,
  All-mem, arith,
}
use chaotic_next.Base.Members.{map-mem, keep-mem}
use chaotic_next.Signal.Paths.{soname_basename}
use chaotic_next.Signal.Sonames.{RuntimeName}
use chaotic_next.Signal.Graph.{base_system_sonames}
use chaotic_next.Signal.Broken.{
  BrokenDependency, missing_soname, missing_version, stale_runtime, Runtimes, Options,
  is_soname_satisfied, is_resolved, shipped_by, missing_sonames, stale_runtime_dependencies,
  find_broken_dependencies,
}
use chaotic_next.Signal.Broken.Stale.{IsStaleAt, IsStale, stale_runtime_dependencies-IsStale}

-- A soname is missing: it is needed, no shipped file has its base name, the base system does not have
-- it, and nothing provides it. Or a runtime of the repository left a directory of the package behind.
pub data IsBroken (needed files : List Text) (Unprovided : Text → Type 0) (runtimes : Runtimes)
    (self : List Text) : BrokenDependency → Type 0 where
  is_missing :
      {soname : Text}
      → has soname needed ≡ true
      → has (soname_basename soname) (map soname_basename files) ≡ false
      → has soname base_system_sonames ≡ false
      → Unprovided soname
      → IsBroken needed files Unprovided runtimes self (missing_soname soname)
  is_stale :
      {runtime : RuntimeName} {current found path : Text}
      → IsStaleAt files runtimes self runtime current found path
      → IsBroken needed files Unprovided runtimes self (stale_runtime runtime current found path)

pub IsBroken-map :
    {needed files : List Text} {runtimes : Runtimes} {self : List Text} {dep : BrokenDependency}
    (P Q : Text → Type 0)
    → ((soname : Text) → has soname needed ≡ true → P soname → Q soname)
    → IsBroken needed files P runtimes self dep
    → IsBroken needed files Q runtimes self dep
IsBroken-map P Q f (is_missing {soname = s} n h b p) = is_missing n h b (f s n p)
IsBroken-map P Q f (is_stale s) = is_stale s

module _ (needed files provided : List Text) (runtimes : Runtimes) (self : List Text) where
  abbrev pub options : Options
  options = record {
    needed_sonames = needed;
    files = files;
    provided_sonames = provided;
    base_sonames = none;
    runtimes = runtimes;
    check_sonames = none;
    self_provided_sonames = self;
  }

  abbrev pub Reported : BrokenDependency → Type 0
  Reported = IsBroken needed files (λ s. has s provided ≡ false) runtimes self

  missing-Reported :
      (soname : Text) → Memᴰ soname (missing_sonames options) → Reported (missing_soname soname)
  unfolding missing_sonames is_resolved is_soname_satisfied
  missing-Reported soname m =
      let (listed, unmet) =
        keep-mem (λ s. not (is_resolved (shipped_by files) provided base_system_sonames s)) needed
          m in
      is_missing (mem-has soname needed listed)
        (ground (arith, unmet, has-dedupe (soname_basename soname) (map soname_basename files)))
        (ground (arith, unmet)) (ground (arith, unmet))

  stale-Reported : (dep : BrokenDependency) → IsStale files runtimes self dep → Reported dep
  stale-Reported (missing_soname soname) s = absurd s
  stale-Reported (missing_version soname nodes) s = absurd s
  stale-Reported (stale_runtime runtime current found path) s = is_stale s

  -- Each reported dependency is broken in the sense above.
  pub find_broken_dependencies-IsBroken :
      (dep : BrokenDependency) → Memᴰ dep (find_broken_dependencies options) → Reported dep
  unfolding find_broken_dependencies
  find_broken_dependencies-IsBroken dep m =
      elim (Memᴰ.append_cases (map missing_soname (missing_sonames options)) m) [
        | inl here ↦
            let (soname, (n, same)) = map-mem missing_soname (missing_sonames options) here in
            subst Reported (sym same) (missing-Reported soname n)
        | inr there ↦ stale-Reported dep (
            All-mem (IsStale files runtimes self) (stale_runtime_dependencies files runtimes self)
              (stale_runtime_dependencies-IsStale files runtimes self) there)
      ]
