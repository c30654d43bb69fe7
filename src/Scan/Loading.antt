-- ===== src/Scan/Loading.antt =====
-- The contexts of the check for broken dependencies, from the rows of the database:
-- `loadBaselineAnalyses`, `buildBrokenDepsContext`, `newestTwoChaoticVersions` and
-- `buildChaoticBrokenDepsContext` of backend/src/repo-manager/scan/trigger-detector.ts.
use chaotic_next.Base.{
  ℕ, Ordering, Bool, true, false, not, Option, none, some, List, [], ◌∷◌, map, flat_map, Text,
  text_eq, nat_eq, ◌==◌, keep, find, is_empty, or_else, if◌then◌else◌,
}
use chaotic_next.Base.Sort.{sort}
use chaotic_next.Signal.Versions.{compare_arch_versions}
use chaotic_next.Signal.Broken.{Runtimes}
use chaotic_next.Scan.Baseline.{pick_baseline_version}
use chaotic_next.Scan.Records.{
  ArchlinuxPackage, Package, arch_owner, chaotic_owner, arch_release, is_removed, truthy,
}
use chaotic_next.Scan.Context.{
  ProvidedAnalysis, BrokenDepsContext, Loaded, assemble_broken_deps_context,
}

-- `loadBaselineAnalyses`: the row of the baseline of each changed package.
abbrev pub current_of : ArchlinuxPackage → Option Text
current_of pkg = if is_removed pkg then none else arch_release pkg

abbrev same_version : Option Text → Text → Bool
same_version none version = false
same_version (some current) version = current == version

unfoldable pub baseline_row : List ProvidedAnalysis → ArchlinuxPackage → Option ProvidedAnalysis
unfolding pick_baseline_version is_removed arch_release
baseline_row rows pkg =
    let own = keep (λ (row : ProvidedAnalysis). row.pkg_id == pkg.id) rows in
    let older =
      keep (λ v. not (same_version (current_of pkg) v))
        (map (λ (row : ProvidedAnalysis). row.version) own) in
    let baseline = pick_baseline_version older (or_else pkg.previous_version []) (current_of pkg) in
    find (λ (row : ProvidedAnalysis). same_version baseline row.version) own

abbrev pub option_list {ℓ} : {A : Type ℓ} → Option A → List A
option_list none = []
option_list (some x) = x ∷ []

unfoldable pub load_baseline_analyses :
    List ProvidedAnalysis → List ArchlinuxPackage → List ProvidedAnalysis
unfolding baseline_row
load_baseline_analyses rows changed = flat_map (λ pkg. option_list (baseline_row rows pkg)) changed

abbrev current_version : ArchlinuxPackage → List (ℕ × Text)
current_version pkg =
    if is_removed pkg then [] else map (λ v. (pkg.id, v)) (option_list (arch_release pkg))

-- `provided_rows` is the query of `loadProvidedSonameAnalyses`.
unfoldable pub build_broken_deps_context :
    List ProvidedAnalysis
    → (List (ℕ × Text) → List ProvidedAnalysis)
    → Loaded
    → Runtimes
    → List ArchlinuxPackage
    → Option BrokenDepsContext
unfolding load_baseline_analyses assemble_broken_deps_context is_removed arch_release
build_broken_deps_context rows provided_rows loaded runtimes changed =
    let relevant = keep (λ (pkg : ArchlinuxPackage). truthy pkg.previous_version) changed in
    if is_empty relevant
    then none
    else some (
        assemble_broken_deps_context loaded (map arch_owner relevant)
          (load_baseline_analyses rows relevant) (provided_rows (flat_map current_version relevant))
          runtimes)

-- The newest version first. For versions whose epoch is no number the order of the source is its
-- engine's own.
abbrev not_older : Text → Text → Bool
not_older a b = elim (compare_arch_versions b a) [ Ordering.gt ↦ false | _ ↦ true ]

abbrev first_two : List Text → Option (Text × Text)
first_two [] = none
first_two (current ∷ []) = none
first_two (current ∷ previous ∷ rest) = some (current, previous)

unfoldable pub newest_two_chaotic_versions : List Text → Option (Text × Text)
unfolding sort
newest_two_chaotic_versions versions = first_two (sort not_older versions)

abbrev both_rows :
    Package
    → Option ProvidedAnalysis
    → Option ProvidedAnalysis
    → List (Package × ProvidedAnalysis × ProvidedAnalysis)
both_rows pkg (some previous) (some current) = (pkg, previous, current) ∷ []
both_rows pkg none current = []
both_rows pkg (some previous) none = []

abbrev deployed_rows :
    Package
    → List ProvidedAnalysis
    → Option (Text × Text)
    → List (Package × ProvidedAnalysis × ProvidedAnalysis)
deployed_rows pkg rows none = []
deployed_rows pkg rows (some (current, previous)) =
    both_rows pkg (find (λ (row : ProvidedAnalysis). row.version == previous) rows)
      (find (λ (row : ProvidedAnalysis). row.version == current) rows)

-- `rows_of` gives all rows of a package.
unfoldable pub build_chaotic_broken_deps_context :
    (ℕ → List ProvidedAnalysis) → Loaded → List Package → Option BrokenDepsContext
unfolding newest_two_chaotic_versions assemble_broken_deps_context
build_chaotic_broken_deps_context rows_of loaded outputs =
    let found =
      flat_map
        (λ (pkg : Package). deployed_rows pkg (rows_of pkg.id) (
          newest_two_chaotic_versions
            (map (λ (row : ProvidedAnalysis). row.version) (rows_of pkg.id))))
        outputs in
    if is_empty found
    then none
    else some (
        assemble_broken_deps_context loaded
          (map (λ (f : Package × ProvidedAnalysis × ProvidedAnalysis). chaotic_owner f.0) found)
          (map (λ (f : Package × ProvidedAnalysis × ProvidedAnalysis). f.1) found)
          (map (λ (f : Package × ProvidedAnalysis × ProvidedAnalysis). f.2) found) (λ _. none))
