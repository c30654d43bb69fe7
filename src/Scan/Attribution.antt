-- ===== src/Scan/Attribution.antt =====
-- Who broke a consumer: `brokenDepsForConsumer` of `TriggerDetector` and the functions that it calls,
-- in backend/src/repo-manager/scan/trigger-detector.ts. Log lines are left out.
pub mod Culprits
pub mod Needs
pub mod Blame
use chaotic_next.Base.{
  ℕ, Bool, true, false, not, ◌&&◌, ◌||◌, Option, none, some, List, [], ◌∷◌, ◌++◌, map, Text,
  text_eq, nat_eq, ◌==◌, has, is_empty, dedupe, any, keep, find, or_else, flat_map, if◌then◌else◌,
}
use chaotic_next.Base.Map.{get}
use chaotic_next.Signal.Sonames.{same_library_family}
use chaotic_next.Signal.Broken.{
  Nodes, BrokenDependency, missing_soname, missing_version, stale_runtime, runtime_text,
  find_broken_dependencies, find_version_node_breaks,
}
use chaotic_next.Signal.Fixability.{has_successor}
use chaotic_next.Scan.Records.{
  ChangedOwner, arch_owner, chaotic_owner, PackageElfAnalysis, owner_id, owner_name, truthy,
}
use chaotic_next.Scan.Context.{
  BrokenDepsContext, deps_contains, reachable_from, provided_for_deps,
  withhold_unreachable_dropped_sonames,
}

-- `map.get(id)?.has(soname)`, and `false` where it is undefined.
abbrev pub provided_in : List (ℕ × List Text) → ℕ → Text → Bool
provided_in m id soname = has soname (or_else (get id m) [])

-- A runtime is blamed on an Arch package of that name with an earlier version.
abbrev pub is_runtime_update : Text → ChangedOwner → Bool
is_runtime_update name (arch_owner pkg) = pkg.pkgname == name && truthy pkg.previous_version
is_runtime_update name (chaotic_owner pkg) = false

abbrev pub dropped_it : BrokenDepsContext → Text → ChangedOwner → Bool
dropped_it ctx soname pkg =
    provided_in ctx.previous_provided (owner_id pkg) soname
    && not (provided_in ctx.current_provided (owner_id pkg) soname)

unfoldable pub broken_dependency_culprit :
    BrokenDependency → BrokenDepsContext → Option ChangedOwner
broken_dependency_culprit (missing_soname soname) ctx =
    if is_empty soname then none else find (dropped_it ctx soname) ctx.changed
broken_dependency_culprit (missing_version soname nodes) ctx = none
broken_dependency_culprit (stale_runtime runtime current found path) ctx =
    find (is_runtime_update (runtime_text runtime)) ctx.changed

-- `map.get(id)?.[soname] ?? []`
abbrev pub nodes_in : List (ℕ × Nodes) → ℕ → Text → List Text
nodes_in m id soname = or_else (get soname (or_else (get id m) [])) []

unfoldable pub dropped_version_nodes : ℕ → Text → BrokenDepsContext → List Text
dropped_version_nodes pkg_id soname ctx = dedupe (
    keep (λ node. not (has node (nodes_in ctx.current_version_nodes pkg_id soname)))
      (nodes_in ctx.previous_version_nodes pkg_id soname))

-- `reachable !== null && !depsContains(reachable, name)` is the negation.
abbrev pub can_reach : Option (List Text) → Text → Bool
can_reach none name = true
can_reach (some reachable) name = deps_contains reachable name

unfoldable pub version_nodes_from_other_providers :
    Text → BrokenDepsContext → Option (List Text) → List Text
version_nodes_from_other_providers soname ctx reachable =
    let changed_names = map owner_name ctx.changed in
    dedupe (
      flat_map (λ row. row.1)
        (keep (λ row. not (has row.0 changed_names) && can_reach reachable row.0)
          (or_else (get soname ctx.version_nodes_by_provider) [])))

-- The three `continue`s of the loop.
unfoldable pub may_blame : Text → BrokenDepsContext → Option (List Text) → ChangedOwner → Bool
may_blame soname ctx reachable pkg =
    provided_in ctx.previous_provided (owner_id pkg) soname
    && (provided_in ctx.current_provided (owner_id pkg) soname
        && can_reach reachable (owner_name pkg))

unfoldable pub breaks_of : Text → List Text → BrokenDepsContext → List Text → ChangedOwner → Nodes
unfolding dropped_version_nodes
breaks_of soname required ctx elsewhere pkg =
    let dropped = dropped_version_nodes (owner_id pkg) soname ctx in
    find_version_node_breaks ((soname, keep (λ node. has node dropped) required) ∷ [])
      ((soname, elsewhere) ∷ [])

-- `if (missing.length > 0) return …` or the rest of the loop.
abbrev pub first_break :
    ChangedOwner → Nodes → Option (ChangedOwner × List Text) → Option (ChangedOwner × List Text)
first_break pkg [] rest = rest
first_break pkg (missing ∷ others) rest = some (pkg, missing.1)

unfoldable pub culprit_among :
    Text
    → List Text
    → BrokenDepsContext
    → Option (List Text)
    → List Text
    → List ChangedOwner
    → Option (ChangedOwner × List Text)
unfolding may_blame breaks_of
culprit_among soname required ctx reachable elsewhere [] = none
culprit_among soname required ctx reachable elsewhere (pkg ∷ pkgs) =
    let rest = culprit_among soname required ctx reachable elsewhere pkgs in
    if may_blame soname ctx reachable pkg
    then first_break pkg (breaks_of soname required ctx elsewhere pkg) rest
    else rest

unfoldable pub find_version_node_culprit :
    Text → List Text → BrokenDepsContext → Option (List Text) → Option (ChangedOwner × List Text)
unfolding culprit_among version_nodes_from_other_providers
find_version_node_culprit soname required ctx reachable =
    culprit_among soname required ctx reachable
      (version_nodes_from_other_providers soname ctx reachable) ctx.changed

unfoldable pub provides_library_family : PackageElfAnalysis → Text → Bool
provides_library_family analysis soname =
    any (λ provided. same_library_family provided soname) analysis.provided_sonames

-- A broken dependency with the package to blame for it.
abbrev pub Blamed : Type 0
Blamed = BrokenDependency × ChangedOwner

abbrev pub push_blamed : BrokenDependency → Option ChangedOwner → List Blamed → List Blamed
push_blamed dep none rest = rest
push_blamed dep (some culprit) rest = (dep, culprit) ∷ rest

-- The first loop of `brokenDepsForConsumer`: `relevant` with the culprit of each.
unfoldable pub blame_dependencies : BrokenDepsContext → List BrokenDependency → List Blamed
unfolding broken_dependency_culprit
blame_dependencies ctx [] = []
blame_dependencies ctx (dep ∷ deps) =
    push_blamed dep (broken_dependency_culprit dep ctx) (blame_dependencies ctx deps)

abbrev pub push_version_break : Text → Option (ChangedOwner × List Text) → List Blamed → List Blamed
push_version_break soname none rest = rest
push_version_break soname (some (culprit, nodes)) rest =
    (missing_version soname nodes, culprit) ∷ rest

-- Its second loop, over the needed version nodes.
unfoldable pub blame_versions :
    PackageElfAnalysis → BrokenDepsContext → Option (List Text) → Nodes → List Blamed
unfolding find_version_node_culprit provides_library_family
blame_versions consumer ctx reachable [] = []
blame_versions consumer ctx reachable ((soname, required) ∷ needed) =
    let rest = blame_versions consumer ctx reachable needed in
    if is_empty required || provides_library_family consumer soname
    then rest
    else push_version_break soname (find_version_node_culprit soname required ctx reachable) rest

-- The dependencies that are broken for the consumer, by what counts as provided for it.
unfoldable pub broken_for :
    PackageElfAnalysis → BrokenDepsContext → Option (List Text) → List BrokenDependency
unfolding provided_for_deps withhold_unreachable_dropped_sonames reachable_from
    find_broken_dependencies
broken_for consumer ctx consumer_deps =
    let reachable = reachable_from ctx.dependency_closure consumer_deps in
    let provided =
      provided_for_deps ctx.provided_by_pkgname consumer_deps ctx.arch_provided_sonames in
    find_broken_dependencies (record {
      needed_sonames = consumer.needed_sonames;
      files = consumer.files;
      provided_sonames =
          withhold_unreachable_dropped_sonames provided consumer.needed_sonames reachable ctx;
      base_sonames = none;
      runtimes = ctx.runtimes;
      check_sonames = none;
      self_provided_sonames = consumer.provided_sonames;
    })

unfoldable pub blamed_for :
    PackageElfAnalysis → BrokenDepsContext → Option (List Text) → List Blamed
unfolding broken_for blame_dependencies blame_versions
blamed_for consumer ctx consumer_deps =
    blame_dependencies ctx (broken_for consumer ctx consumer_deps)
    ++ blame_versions consumer ctx (reachable_from ctx.dependency_closure consumer_deps)
        consumer.needed_version_nodes

-- What is returned for the relevant dependencies: their first culprit is the cause.
unfoldable pub verdict : List Text → List Blamed → Option (List BrokenDependency × ChangedOwner)
verdict stems [] = none
verdict stems ((dep, culprit) ∷ blamed) =
    let relevant = dep ∷ map (λ b. b.0) blamed in
    if any (λ d. has_successor d stems) relevant then some (relevant, culprit) else none

unfoldable pub broken_deps_for_consumer :
    PackageElfAnalysis
    → BrokenDepsContext
    → Option (List Text)
    → Option (List BrokenDependency × ChangedOwner)
unfolding blamed_for verdict
broken_deps_for_consumer consumer ctx consumer_deps =
    verdict ctx.provided_soname_stems (blamed_for consumer ctx consumer_deps)
