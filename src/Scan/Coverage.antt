-- ===== src/Scan/Coverage.antt =====
-- The parts of the report on rebuild coverage: `findUncoveredMissedBreaks`,
-- `findRemovedProviderSonames` and `loadRemovedArchAnalyses` of
-- backend/src/repo-manager/scan/trigger-detector.ts. What a query returns is an argument.
pub mod Removed
use chaotic_next.Base.{
  ℕ, Bool, true, false, not, ◌&&◌, ◌||◌, Option, none, some, List, [], ◌∷◌, ◌++◌, map, flat_map,
  Text, text_eq, nat_eq, codes, has, is_some, or_else, decimal, if◌then◌else◌,
}
use chaotic_next.Base.Map.{get, put}
use chaotic_next.Base.MultiMap.{entry, push}
use chaotic_next.Signal.Latest.{latest_analysis_by_key}
use chaotic_next.Signal.Broken.{Nodes}
use chaotic_next.Scan.Outputs.{pkgbase_of}
use chaotic_next.Scan.Records.{ArchlinuxPackage, Package, PackageElfAnalysis, package_release}
use chaotic_next.Scan.Context.{ProvidedAnalysis}
use chaotic_next.Scan.Triggers.{Analyses}
use chaotic_next.Scan.Missed.{Database, missed_breaks_in, bumped_since, unanalyzed_packages}
use chaotic_next.Scan.Providers.{add_under}

-- An active package of Chaotic-AUR with its repository.
pub record ActivePackage : Type 0 where
  pub pkg : Package
  pub repo_id : ℕ
  pub repo_name : Text

pub record UncoveredBreak : Type 0 where
  pub of : ActivePackage
  pub analysis : PackageElfAnalysis
  pub broken_since : ℕ

-- `${repo.id}|${name}`.
abbrev repo_key : ℕ → Text → Text
repo_key repo_id name = decimal repo_id ++ (codes "|" ++ name)

unfoldable pub pkgbase_ids : List ActivePackage → List (Text × ℕ) → List (Text × ℕ)
pkgbase_ids [] ids = ids
pkgbase_ids (a ∷ rest) ids = pkgbase_ids rest (put (repo_key a.repo_id a.pkg.pkgname) a.pkg.id ids)

abbrev uncovered_at :
    Database
    → List (Text × ℕ)
    → ActivePackage
    → Option ℕ
    → Option PackageElfAnalysis
    → List UncoveredBreak
uncovered_at db ids a none analysis = []
uncovered_at db ids a (some since) none = []
uncovered_at db ids a (some since) (some analysis) =
    let pkgbase_id = or_else (get (repo_key a.repo_id (pkgbase_of a.pkg)) ids) a.pkg.id in
    if a.pkg.skip_signal_scan || bumped_since db pkgbase_id since
    then []
    else record { of = a; analysis = analysis; broken_since = since } ∷ []

unfoldable pub find_uncovered_missed_breaks :
    Database → List ActivePackage → Analyses → List UncoveredBreak
unfolding pkgbase_ids missed_breaks_in bumped_since pkgbase_of
find_uncovered_missed_breaks db active analyses =
    let missed = missed_breaks_in analyses in
    flat_map
      (λ (a : ActivePackage).
        uncovered_at db (pkgbase_ids active []) a (get a.pkg.id missed) (get a.pkg.id analyses))
      active

-- The newest row of each removed package.
unfoldable pub load_removed_arch_analyses : List ProvidedAnalysis → List ProvidedAnalysis
unfolding latest_analysis_by_key
load_removed_arch_analyses rows =
    map (λ (row : Text × ProvidedAnalysis). row.1)
      (latest_analysis_by_key (λ (row : ProvidedAnalysis). row.version)
        (λ (row : ProvidedAnalysis). decimal row.pkg_id) rows)

unfoldable pub removed_names : List ArchlinuxPackage → List (ℕ × Text) → List (ℕ × Text)
removed_names [] names = names
removed_names (p ∷ rest) names = removed_names rest (put p.id p.pkgname names)

-- The sonames that one removed package provided and no active package provides.
unfoldable pub add_removed : Nodes → Text → List Text → Nodes → Nodes
add_removed provided name [] m = m
add_removed provided name (soname ∷ sonames) m =
    add_removed provided name sonames
      (if is_some (get soname provided) then m else add_under soname name m)

unfoldable pub removed_providers : Nodes → List (ℕ × Text) → List ProvidedAnalysis → Nodes → Nodes
unfolding add_removed
removed_providers provided names [] m = m
removed_providers provided names (row ∷ rows) m = removed_providers provided names rows (
    add_removed provided (or_else (get row.pkg_id names) (decimal row.pkg_id)) row.provided_sonames
      m)

-- The consumers of the sonames that only removed packages provide.
unfoldable pub add_consumer : Nodes → Text → List Text → Nodes → Nodes
add_consumer removed pkgname [] m = m
add_consumer removed pkgname (soname ∷ sonames) m =
    add_consumer removed pkgname sonames
      (if is_some (get soname removed) then push soname pkgname m else m)

abbrev needed_of : Option PackageElfAnalysis → List Text
needed_of none = []
needed_of (some analysis) = analysis.needed_sonames

unfoldable pub consumers_from : Nodes → List ActivePackage → Analyses → Nodes → Nodes
unfolding add_consumer
consumers_from removed [] latest m = m
consumers_from removed (a ∷ rest) latest m =
    consumers_from removed rest latest
      (add_consumer removed a.pkg.pkgname (needed_of (get a.pkg.id latest)) m)

pub record RemovedProviderSoname : Type 0 where
  pub soname : Text
  pub removed_providers_of : List Text
  pub consumers : List Text

unfoldable pub find_removed_provider_sonames :
    Nodes
    → List ArchlinuxPackage
    → List ProvidedAnalysis
    → List ActivePackage
    → Analyses
    → List RemovedProviderSoname
unfolding load_removed_arch_analyses removed_names removed_providers consumers_from
find_removed_provider_sonames provided removed_pkgs rows active latest =
    let removed =
      removed_providers provided (removed_names removed_pkgs []) (load_removed_arch_analyses rows)
        [] in
    map
      (λ (entry : Text × List Text). record {
        soname = entry.0;
        removed_providers_of = or_else (get entry.0 removed) [];
        consumers = entry.1;
      })
      (consumers_from removed active latest [])
