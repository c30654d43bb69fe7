-- ===== src/Scan/Missed.antt =====
-- Breaks that the other triggers missed: `missedBreaksIn`, `missedBreakTriggerFor`,
-- `currentBrokenDependencies`, `blameMissedBreak`, `archFamilyProviderOf`, `lastProviderOf`,
-- `bumpedSince` and `unanalyzedPackages` of backend/src/repo-manager/scan/trigger-detector.ts. What the
-- database holds is a record of tables and lookups.
pub mod Causes
pub mod Rebuilds
use mathlib.Core.Option as Option
use chaotic_next.Base.{
  ℕ, ◌<◌, ltb, leb, Bool, true, false, not, ◌&&◌, ◌||◌, Option, none, some, List, [], ◌∷◌, ◌++◌,
  map, Text, codes, text_eq, nat_eq, ◌==◌, has, is_empty, any, keep, find, or_else, nat_beq,
  if◌then◌else◌,
}
use chaotic_next.Base.Map.{get, put}
use chaotic_next.Base.Search.{first_some, or_try}
use chaotic_next.Signal.Owners.{TriggerType, arch, chaotic, PkgType, arch_pkg, chaotic_pkg}
use chaotic_next.Signal.Sonames.{RuntimeName, same_library_family}
use chaotic_next.Signal.Broken.{
  Nodes, Runtimes, BrokenDependency, missing_soname, missing_version, stale_runtime, runtime_text,
  find_broken_dependencies, format_broken_dependency,
}
use chaotic_next.Signal.Fixability.{has_successor, soname_stems}
use chaotic_next.Scan.Records.{
  ArchlinuxPackage, Package, PackageElfAnalysis, ChangedOwner, arch_owner, chaotic_owner,
  package_release,
}
use chaotic_next.Scan.Triggers.{DetectedTrigger, broken_deps, Analyses}

-- A row of `PackageElfAnalysis` in the query of `lastProviderOf`.
pub record ProviderRow : Type 0 where
  pub pkg_type : PkgType
  pub pkg_id : ℕ

-- The tables that the functions query. `providers_of` returns the newest scan first.
pub record Database : Type 0 where
  pub arch_by_id : ℕ → Option ArchlinuxPackage
  pub arch_by_name : Text → Option ArchlinuxPackage
  pub active_arch_by_name : Text → Option ArchlinuxPackage
  pub package_by_id : ℕ → Option Package
  pub pkgbase_id : Text → Option ℕ
  pub bumps : List (ℕ × ℕ)
  pub providers_of : Text → List ProviderRow
  pub provided_by_pkgname : Nodes
  pub arch_provided_sonames : List Text
  pub runtimes : Runtimes

abbrev pub MissedBreaks : Type 0
MissedBreaks = List (ℕ × ℕ)

-- The start of a break that is later than the scan.
abbrev pub missed_since : Bool → Option ℕ → ℕ → Option ℕ
missed_since true (some since) scanned_at = if ltb scanned_at since then some since else none
missed_since _ _ scanned_at = none

abbrev pub push_missed : ℕ → Option ℕ → MissedBreaks → MissedBreaks
push_missed pkg_id none missed = missed
push_missed pkg_id (some since) missed = (pkg_id, since) ∷ missed

unfoldable pub missed_breaks_in : Analyses → MissedBreaks
missed_breaks_in [] = []
missed_breaks_in ((pkg_id, analysis) ∷ rest) =
    push_missed pkg_id (missed_since analysis.broken analysis.broken_since analysis.scanned_at)
      (missed_breaks_in rest)

unfoldable pub bumped_since : Database → ℕ → ℕ → Bool
bumped_since db pkg_id since = any (λ bump. nat_beq bump.0 pkg_id && leb since bump.1) db.bumps

unfoldable pub current_broken_dependencies :
    Database → PackageElfAnalysis → List BrokenDependency × List Text
unfolding find_broken_dependencies soname_stems
current_broken_dependencies db consumer =
    let provided = map (λ row. row.0) db.provided_by_pkgname in
    (
      find_broken_dependencies (record {
        needed_sonames = consumer.needed_sonames;
        files = consumer.files;
        provided_sonames = provided;
        base_sonames = none;
        runtimes = db.runtimes;
        check_sonames = none;
        self_provided_sonames = consumer.provided_sonames;
      }),
      soname_stems provided,
    )

abbrev pub Culprit : Type 0
Culprit = ChangedOwner × TriggerType

abbrev pub by_arch : ArchlinuxPackage → Culprit
by_arch pkg = (arch_owner pkg, arch)

abbrev pub is_other : List ℕ → ProviderRow → Bool
is_other own_ids row = elim (row.pkg_type) [
  | arch_pkg ↦ true
  | chaotic_pkg ↦ not (has row.pkg_id own_ids)
]

abbrev pub row_owner : Database → ProviderRow → Option Culprit
row_owner db row = elim (row.pkg_type) [
  | arch_pkg ↦ Option.map by_arch (db.arch_by_id row.pkg_id)
  | chaotic_pkg ↦ Option.map (λ pkg. (chaotic_owner pkg, chaotic)) (db.package_by_id row.pkg_id)
]

abbrev pub owner_of_found : Database → Option ProviderRow → Option Culprit
owner_of_found db none = none
owner_of_found db (some row) = row_owner db row

unfoldable pub last_provider_of : Database → Text → List ℕ → Option Culprit
last_provider_of db soname own_ids =
    owner_of_found db (find (is_other own_ids) (db.providers_of soname))

abbrev pub family_owner : Database → Text → Text → Option Culprit
family_owner db soname provided =
    if same_library_family provided soname
    then first_some (λ pkgname. Option.map by_arch (db.active_arch_by_name pkgname))
        (or_else (get provided db.provided_by_pkgname) [])
    else none

unfoldable pub arch_family_provider_of : Database → Text → Option Culprit
unfolding same_library_family
arch_family_provider_of db soname = first_some (family_owner db soname) db.arch_provided_sonames

unfoldable pub blame_dependency : Database → List ℕ → BrokenDependency → Option Culprit
unfolding last_provider_of arch_family_provider_of
blame_dependency db own_ids (missing_soname soname) =
    if is_empty soname
    then none
    else or_try (last_provider_of db soname own_ids) (arch_family_provider_of db soname)
blame_dependency db own_ids (missing_version soname nodes) = none
blame_dependency db own_ids (stale_runtime runtime current found path) =
    Option.map by_arch (db.arch_by_name (runtime_text runtime))

unfoldable pub blame_missed_break : Database → List BrokenDependency → List Package → Option Culprit
unfolding blame_dependency
blame_missed_break db deps outputs =
    first_some (blame_dependency db (map (λ (pkg : Package). pkg.id) outputs)) deps

unfoldable pub missed_trigger : List BrokenDependency → Culprit → DetectedTrigger
missed_trigger deps (owner, trigger_from) = record {
  bump_type = broken_deps;
  owner = owner;
  trigger_from = trigger_from;
  reason = codes "broken dependency without a rebuild";
  details = map format_broken_dependency deps;
}

-- Bumps are recorded on the package named after the directory.
abbrev pub bumped_id : Database → Text → Package → ℕ
bumped_id db pkgbase_dir output = or_else (db.pkgbase_id pkgbase_dir) output.id

-- The rest of the loop once the break and the analysis of an output are known.
unfoldable pub rebuild_for :
    Database
    → Text
    → List Package
    → Package
    → Option ℕ
    → Option PackageElfAnalysis
    → Option DetectedTrigger
unfolding bumped_since current_broken_dependencies blame_missed_break missed_trigger
rebuild_for db pkgbase_dir outputs output (some since) (some analysis) =
    let (deps, stems) = current_broken_dependencies db analysis in
    if bumped_since db (bumped_id db pkgbase_dir output) since
    then none
    else if not (any (λ dep. has_successor dep stems) deps)
    then none
    else Option.map (missed_trigger deps) (blame_missed_break db deps outputs)
rebuild_for db pkgbase_dir outputs output _ _ = none

unfoldable pub missed_break_trigger_for :
    Database → Text → List Package → Analyses → MissedBreaks → Option DetectedTrigger
unfolding rebuild_for
missed_break_trigger_for db pkgbase_dir outputs analyses missed =
    first_some
      (λ (output : Package).
        rebuild_for db pkgbase_dir outputs output (get output.id missed) (get output.id analyses))
      outputs

-- `latest.get(pkg.id)?.version !== release`
abbrev pub stale_version : Option PackageElfAnalysis → Text → Bool
stale_version none release = true
stale_version (some analysis) release = not (analysis.version == release)

abbrev pub is_unanalyzed : Analyses → Package → Bool
is_unanalyzed latest pkg = elim (package_release pkg) [
  | none ↦ false
  | some release ↦ not pkg.skip_signal_scan && stale_version (get pkg.id latest) release
]

unfoldable pub unanalyzed_packages : List Package → Analyses → List Package
unfolding package_release
unanalyzed_packages active latest = keep (is_unanalyzed latest) active
