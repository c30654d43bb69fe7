-- ===== src/Scan/Attribution/Blame.antt =====
-- What a rebuild for broken dependencies rests on.
use mathlib.Core.List.{Memᴰ}
use mathlib.Core.List.Memᴰ
use mathlib.Core.Path.{subst}
use mathlib.Core.Bool.{false≢true}
use mathlib.Core.Option.{some-injective, none-ne-some}
use chaotic_next.Base.{
  ◌≡◌, refl, sym, ap, inl, inr, Bool, true, false, ◌||◌, Option, none, some, List, [], ◌∷◌, map,
  Text, text_eq, any, find, find-mem, is_empty, arith, Bool-cases, if◌then◌else◌,
}
use chaotic_next.Signal.Sonames.{RuntimeName}
use chaotic_next.Signal.Broken.{
  Nodes, BrokenDependency, missing_soname, missing_version, stale_runtime, runtime_text,
}
use chaotic_next.Signal.Fixability.{has_successor}
use chaotic_next.Scan.Records.{
  ArchlinuxPackage, ChangedOwner, arch_owner, chaotic_owner, owner_id, PackageElfAnalysis, truthy,
}
use chaotic_next.Scan.Context.{BrokenDepsContext, reachable_from}
use chaotic_next.Scan.Attribution.{
  provided_in, dropped_it, Blamed, push_blamed, push_version_break, broken_dependency_culprit,
  find_version_node_culprit, provides_library_family, blame_dependencies, blame_versions,
  broken_for, blamed_for, verdict, broken_deps_for_consumer,
}
use chaotic_next.Scan.Attribution.Culprits.{IsNodeCulprit, find_version_node_culprit-IsNodeCulprit}
use chaotic_next.Scan.Attribution.Needs.{IsBrokenFor, broken_for-IsBrokenFor}

-- Why a package is the culprit of a dependency that is broken for the consumer: it dropped the soname
-- that is missing, it is the update of the runtime, or it took version nodes that the consumer
-- requires of a library that it does not ship itself.
pub data IsCulprit (consumer : PackageElfAnalysis) (ctx : BrokenDepsContext)
    (deps : Option (List Text)) : BrokenDependency → ChangedOwner → Type 0 where
  soname_dropped :
      {soname : Text} {pkg : ChangedOwner}
      → IsBrokenFor consumer ctx deps (missing_soname soname)
      → Memᴰ pkg ctx.changed
      → provided_in ctx.previous_provided (owner_id pkg) soname ≡ true
      → provided_in ctx.current_provided (owner_id pkg) soname ≡ false
      → IsCulprit consumer ctx deps (missing_soname soname) pkg
  runtime_updated :
      {runtime : RuntimeName} {current found path : Text} {pkg : ArchlinuxPackage}
      → IsBrokenFor consumer ctx deps (stale_runtime runtime current found path)
      → Memᴰ (arch_owner pkg) ctx.changed
      → pkg.pkgname ≡ runtime_text runtime
      → truthy pkg.previous_version ≡ true
      → IsCulprit consumer ctx deps (stale_runtime runtime current found path) (arch_owner pkg)
  nodes_dropped :
      {soname : Text} {nodes required : List Text} {pkg : ChangedOwner}
      → Memᴰ (soname, required) consumer.needed_version_nodes
      → provides_library_family consumer soname ≡ false
      → IsNodeCulprit ctx (reachable_from ctx.dependency_closure deps) soname required pkg nodes
      → IsCulprit consumer ctx deps (missing_version soname nodes) pkg

-- The package that `brokenDependencyCulprit` names did break the dependency.
broken_dependency_culprit-IsCulprit :
    (consumer : PackageElfAnalysis) (ctx : BrokenDepsContext) (deps : Option (List Text))
    (dep : BrokenDependency) (pkg : ChangedOwner)
    → IsBrokenFor consumer ctx deps dep
    → broken_dependency_culprit dep ctx ≡ some pkg
    → IsCulprit consumer ctx deps dep pkg
unfolding broken_dependency_culprit
broken_dependency_culprit-IsCulprit consumer ctx deps (missing_soname soname) pkg needs e =
    let found : find (dropped_it ctx soname) ctx.changed ≡ some pkg = ground arith in
    let (m, ok) = find-mem (dropped_it ctx soname) ctx.changed found in
    soname_dropped needs m (ground (arith, ok)) (ground (arith, ok))
broken_dependency_culprit-IsCulprit consumer ctx deps (missing_version soname nodes) pkg needs e =
    absurd (none-ne-some _ e)
broken_dependency_culprit-IsCulprit consumer ctx deps (stale_runtime runtime current found path)
      (arch_owner pkg) needs e =
    let (m, ok) = find-mem _ ctx.changed e in
    runtime_updated needs m ((text_eq.beq_iff _ _).0 (ground (arith, ok))) (ground (arith, ok))
broken_dependency_culprit-IsCulprit consumer ctx deps (stale_runtime runtime current found path)
      (chaotic_owner pkg) needs e =
    let (m, ok) = find-mem _ ctx.changed e in absurd (false≢true ok)

module _ (consumer : PackageElfAnalysis) (ctx : BrokenDepsContext) (deps : Option (List Text)) where
  abbrev reachable : Option (List Text)
  reachable = reachable_from ctx.dependency_closure deps

  abbrev AllBlamed : List Blamed → Type 0
  AllBlamed blamed = (b : Blamed) → Memᴰ b blamed → IsCulprit consumer ctx deps b.0 b.1

  push_blamed-AllBlamed :
      (dep : BrokenDependency) (culprit : Option ChangedOwner) (rest : List Blamed)
      → ((pkg : ChangedOwner) → culprit ≡ some pkg → IsCulprit consumer ctx deps dep pkg)
      → AllBlamed rest
      → AllBlamed (push_blamed dep culprit rest)
  push_blamed-AllBlamed dep none rest here later b m = later b m
  push_blamed-AllBlamed dep (some pkg) rest here later b (Memᴰ.head p) =
      subst (λ c. IsCulprit consumer ctx deps c.0 c.1) (sym p) (here pkg refl)
  push_blamed-AllBlamed dep (some pkg) rest here later b (Memᴰ.tail m) = later b m

  blame_dependencies-AllBlamed :
      (broken : List BrokenDependency)
      → ((dep : BrokenDependency) → Memᴰ dep broken → IsBrokenFor consumer ctx deps dep)
      → AllBlamed (blame_dependencies ctx broken)
  unfolding blame_dependencies
  blame_dependencies-AllBlamed [] needs = λ b m. absurd (Memᴰ.not-nil m)
  blame_dependencies-AllBlamed (dep ∷ broken) needs =
      push_blamed-AllBlamed dep (broken_dependency_culprit dep ctx) _
        (λ pkg e.
          broken_dependency_culprit-IsCulprit consumer ctx deps dep pkg (needs dep (Memᴰ.head refl))
            e)
        (blame_dependencies-AllBlamed broken (λ d m. needs d (Memᴰ.tail m)))

  push_version_break-AllBlamed :
      (soname : Text) (found : Option (ChangedOwner × List Text)) (rest : List Blamed)
      → ((pkg : ChangedOwner) (nodes : List Text)
          → found ≡ some (pkg, nodes)
          → IsCulprit consumer ctx deps (missing_version soname nodes) pkg)
      → AllBlamed rest
      → AllBlamed (push_version_break soname found rest)
  push_version_break-AllBlamed soname none rest here later b m = later b m
  push_version_break-AllBlamed soname (some (pkg, nodes)) rest here later b (Memᴰ.head p) =
      subst (λ c. IsCulprit consumer ctx deps c.0 c.1) (sym p) (here pkg nodes refl)
  push_version_break-AllBlamed soname (some (pkg, nodes)) rest here later b (Memᴰ.tail m) =
      later b m

  unless_skipped :
      (skipped : Bool) {rest found : List Blamed}
      → AllBlamed rest
      → (skipped ≡ false → AllBlamed found)
      → AllBlamed (if skipped then rest else found)
  unless_skipped true r f = r
  unless_skipped false r f = f refl

  blame_versions-AllBlamed :
      (needed : Nodes)
      → ((row : Text × List Text) → Memᴰ row needed → Memᴰ row consumer.needed_version_nodes)
      → AllBlamed (blame_versions consumer ctx reachable needed)
  unfolding blame_versions
  blame_versions-AllBlamed [] inside = λ b m. absurd (Memᴰ.not-nil m)
  blame_versions-AllBlamed ((soname, required) ∷ needed) inside =
      let later = blame_versions-AllBlamed needed (λ row m. inside row (Memᴰ.tail m)) in
      unless_skipped (is_empty required || provides_library_family consumer soname) later (λ go.
        push_version_break-AllBlamed soname
          (find_version_node_culprit soname required ctx reachable) _
          (λ pkg nodes e.
            nodes_dropped (inside (soname, required) (Memᴰ.head refl)) (ground (arith, go))
              (find_version_node_culprit-IsNodeCulprit soname required ctx reachable pkg nodes e))
          later)

  blamed_for-AllBlamed : AllBlamed (blamed_for consumer ctx deps)
  unfolding blamed_for
  blamed_for-AllBlamed b m =
      elim (Memᴰ.append_cases (blame_dependencies ctx (broken_for consumer ctx deps)) m) [
        | inl n ↦
            blame_dependencies-AllBlamed (broken_for consumer ctx deps)
              (broken_for-IsBrokenFor consumer ctx deps) b n
        | inr n ↦ blame_versions-AllBlamed consumer.needed_version_nodes (λ row m. m) b n
      ]

-- A trigger for broken dependencies: each of them has a culprit, the cause is one of these, and a
-- rebuild finds a successor for one at least.
pub record IsJustified (consumer : PackageElfAnalysis) (ctx : BrokenDepsContext)
    (deps : Option (List Text)) (relevant : List BrokenDependency) (cause : ChangedOwner)
    : Type 0 where
  pub all_blamed :
      (dep : BrokenDependency)
      → Memᴰ dep relevant
      → (pkg : ChangedOwner) × IsCulprit consumer ctx deps dep pkg
  pub cause_blamed :
      (dep : BrokenDependency) × (Memᴰ dep relevant × IsCulprit consumer ctx deps dep cause)
  pub some_fixed : any (λ dep. has_successor dep ctx.provided_soname_stems) relevant ≡ true

mem-map-0 :
    (dep : BrokenDependency) (blamed : List Blamed)
    → Memᴰ dep (map (λ b. b.0) blamed)
    → (pkg : ChangedOwner) × Memᴰ (dep, pkg) blamed
mem-map-0 dep [] m = absurd (Memᴰ.not-nil m)
mem-map-0 dep ((d, pkg) ∷ blamed) (Memᴰ.head p) = (pkg, Memᴰ.head (ap (λ x. (x, pkg)) p))
mem-map-0 dep ((d, pkg) ∷ blamed) (Memᴰ.tail m) =
    let (owner, later) = mem-map-0 dep blamed m in (owner, Memᴰ.tail later)

verdict-IsJustified :
    (consumer : PackageElfAnalysis) (ctx : BrokenDepsContext) (deps : Option (List Text))
    (blamed : List Blamed) (relevant : List BrokenDependency) (cause : ChangedOwner)
    → AllBlamed consumer ctx deps blamed
    → verdict ctx.provided_soname_stems blamed ≡ some (relevant, cause)
    → IsJustified consumer ctx deps relevant cause
unfolding verdict
verdict-IsJustified consumer ctx deps [] relevant cause all e = absurd (none-ne-some _ e)
verdict-IsJustified consumer ctx deps ((dep, culprit) ∷ blamed) relevant cause all e =
    let here : List BrokenDependency × ChangedOwner = (dep ∷ map (λ b. b.0) blamed, culprit) in
    let there : List BrokenDependency × ChangedOwner = (relevant, cause) in
    elim (Bool-cases
      (any (λ d. has_successor d ctx.provided_soname_stems) (dep ∷ map (λ b. b.0) blamed))) [
        | inl fixed ↦
            let same : here ≡ there = some-injective _ _ (ground arith) in
            subst (λ r. IsJustified consumer ctx deps r.0 r.1) same
              (record {
                all_blamed = λ d m.
                    let (pkg, listed) = mem-map-0 d ((dep, culprit) ∷ blamed) m in
                    (pkg, all (d, pkg) listed);
                cause_blamed = (dep, (Memᴰ.head refl, all (dep, culprit) (Memᴰ.head refl)));
                some_fixed = fixed;
              })
        | inr hopeless ↦ absurd (none-ne-some there (ground arith))
      ]

-- The rebuild of a consumer for broken dependencies is justified. Each of them is broken for the
-- consumer: a soname that it needs, does not ship and cannot get, a runtime whose directory it ships
-- for another version, or version nodes that it requires of a library that it does not ship. Each has
-- a changed package that broke it, the cause is such a package of one of them, and a rebuild finds a
-- successor for one at least.
pub broken_deps_for_consumer-IsJustified :
    (consumer : PackageElfAnalysis) (ctx : BrokenDepsContext) (deps : Option (List Text))
    (relevant : List BrokenDependency) (cause : ChangedOwner)
    → broken_deps_for_consumer consumer ctx deps ≡ some (relevant, cause)
    → IsJustified consumer ctx deps relevant cause
unfolding broken_deps_for_consumer
broken_deps_for_consumer-IsJustified consumer ctx deps relevant cause e =
    verdict-IsJustified consumer ctx deps (blamed_for consumer ctx deps) relevant cause
      (blamed_for-AllBlamed consumer ctx deps) e
