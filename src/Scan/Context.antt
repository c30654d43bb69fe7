-- ===== src/Scan/Context.antt =====
-- What the broken-dependency check reads, `BrokenDepsContext`, and the helpers that fill it: the
-- first part of backend/src/repo-manager/scan/trigger-detector.ts. The rows that the database
-- returns are arguments.
pub mod Provided
use chaotic_next.Base.{
  ℕ, Bool, true, false, not, ◌&&◌, ◌||◌, Option, none, some, List, [], ◌∷◌, ◌++◌, map, Text, codes,
  text_eq, nat_eq, ◌==◌, has, is_empty, dedupe, any, keep, or_else, flat_map, if◌then◌else◌,
}
use chaotic_next.Base.Map.{get, put}
use chaotic_next.Signal.Broken.{Nodes, Runtimes}
use chaotic_next.Signal.Fixability.{soname_stems}
use chaotic_next.Scan.Closure.{DependencyRecord, clean_dep_name, reachable_packages}
use chaotic_next.Scan.Records.{ChangedOwner}

-- `PACKAGE_ALIASES[pkgname] ?? []`
unfoldable pub package_aliases : Text → List Text
package_aliases pkgname =
    if pkgname == codes "boost"
    then codes "boost-libs" ∷ []
    else if pkgname == codes "boost-libs"
    then codes "boost" ∷ []
    else []

unfoldable pub deps_contains : List Text → Text → Bool
unfolding package_aliases
deps_contains deps pkgname =
    has pkgname deps || any (λ name. has name deps) (package_aliases pkgname)

-- The columns of `ProvidedAnalysis`.
pub record ProvidedAnalysis : Type 0 where
  pub pkg_id : ℕ
  pub version : Text
  pub provided_sonames : List Text
  pub provided_version_nodes : Nodes

pub record BrokenDepsContext : Type 0 where
  pub changed : List ChangedOwner
  pub provided_by_pkgname : Nodes
  pub provided_soname_stems : List Text
  pub arch_provided_sonames : List Text
  pub runtimes : Runtimes
  pub previous_provided : List (ℕ × List Text)
  pub current_provided : List (ℕ × List Text)
  pub previous_version_nodes : List (ℕ × Nodes)
  pub current_version_nodes : List (ℕ × Nodes)
  pub version_nodes_by_provider : List (Text × Nodes)
  pub dropped_sonames : List Text
  pub dependency_closure : Option (List DependencyRecord)

-- The sonames that are gone from a package, added to the set.
abbrev pub dropped_from : List Text → List Text → List Text
dropped_from previous current = keep (λ soname. not (has soname current)) previous

unfoldable pub find_dropped_sonames : List (ℕ × List Text) → List (ℕ × List Text) → List Text
find_dropped_sonames previous current =
    dedupe (flat_map (λ row. dropped_from row.1 (or_else (get row.0 current) [])) previous)

unfoldable pub versioned_sonames : List ProvidedAnalysis → List Text
versioned_sonames rows = dedupe (
    flat_map
      (λ row.
        map (λ node. node.0) (keep (λ node. not (is_empty node.1)) row.provided_version_nodes))
      rows)

abbrev pub provided_by_row : List (ℕ × List Text) → List ProvidedAnalysis → List (ℕ × List Text)
provided_by_row m [] = m
provided_by_row m (row ∷ rows) =
    provided_by_row (put row.pkg_id (dedupe row.provided_sonames) m) rows

abbrev pub nodes_by_row : List (ℕ × Nodes) → List ProvidedAnalysis → List (ℕ × Nodes)
nodes_by_row m [] = m
nodes_by_row m (row ∷ rows) = nodes_by_row (put row.pkg_id row.provided_version_nodes m) rows

-- What the queries of `assembleBrokenDepsContext` return.
pub record Loaded : Type 0 where
  pub provided_by_pkgname : Nodes
  pub arch_provided_sonames : List Text
  pub dependency_closure : List DependencyRecord
  pub version_nodes_of : List Text → List (Text × Nodes)

unfoldable pub assemble_broken_deps_context :
    Loaded
    → List ChangedOwner
    → List ProvidedAnalysis
    → List ProvidedAnalysis
    → Runtimes
    → BrokenDepsContext
unfolding find_dropped_sonames versioned_sonames soname_stems
assemble_broken_deps_context loaded changed previous_rows current_rows runtimes =
    let previous_provided = provided_by_row [] previous_rows in
    let current_provided = provided_by_row [] current_rows in
    record {
      changed = changed;
      provided_by_pkgname = loaded.provided_by_pkgname;
      provided_soname_stems = soname_stems (map (λ row. row.0) loaded.provided_by_pkgname);
      arch_provided_sonames = loaded.arch_provided_sonames;
      runtimes = runtimes;
      previous_provided = previous_provided;
      current_provided = current_provided;
      previous_version_nodes = nodes_by_row [] previous_rows;
      current_version_nodes = nodes_by_row [] current_rows;
      version_nodes_by_provider = loaded.version_nodes_of (versioned_sonames previous_rows);
      dropped_sonames = find_dropped_sonames previous_provided current_provided;
      dependency_closure = some loaded.dependency_closure;
    }

-- `reachableFrom`: the closure of the recorded dependencies, and these themselves.
unfoldable pub reachable_from :
    Option (List DependencyRecord) → Option (List Text) → Option (List Text)
reachable_from closure none = none
reachable_from none (some deps) = some (dedupe deps)
reachable_from (some records) (some deps) = some (dedupe (reachable_packages records deps ++ deps))

abbrev pub provided_by_deps : Nodes → Option (List Text) → List Text
provided_by_deps providers none = map (λ row. row.0) providers
provided_by_deps providers (some deps) =
    map (λ row. row.0) (keep (λ row. any (deps_contains deps) row.1) providers)

unfoldable pub provided_for_deps : Nodes → Option (List Text) → List Text → List Text
provided_for_deps providers deps arch_provided =
    dedupe (arch_provided ++ provided_by_deps providers deps)

-- A needed soname that a changed package dropped, and that nothing reachable provides.
abbrev pub is_withheld : BrokenDepsContext → List Text → List Text → Text → Bool
is_withheld ctx needed reachable soname =
    has soname needed
    && (has soname ctx.dropped_sonames
        && not (
            any (λ provider. has provider reachable)
              (or_else (get soname ctx.provided_by_pkgname) [])))

unfoldable pub withhold_unreachable_dropped_sonames :
    List Text → List Text → Option (List Text) → BrokenDepsContext → List Text
withhold_unreachable_dropped_sonames provided needed none ctx = provided
withhold_unreachable_dropped_sonames provided needed (some reachable) ctx =
    keep (λ soname. not (is_withheld ctx needed reachable soname)) provided
