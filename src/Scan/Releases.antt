-- ===== src/Scan/Releases.antt =====
-- The triggers of a new release that no symbol shows: `isReleaseChange`, `changedStrictOwners`,
-- `strictOwnerTriggerFor`, `privateApiProvidersOf` and `privateApiTriggerFor` of
-- backend/src/repo-manager/scan/trigger-detector.ts.
pub mod Causes
use mathlib.Core.Option as Option
use chaotic_next.Base.{
  ℕ, Bool, true, false, not, ◌&&◌, ◌||◌, Option, none, some, List, [], ◌∷◌, ◌++◌, Text, codes,
  text_eq, nat_eq, ◌==◌, has, is_empty, is_some, dedupe, keep, find, or_else, ends_with,
  if◌then◌else◌,
}
use chaotic_next.Base.Map.{get}
use chaotic_next.Base.MultiMap.{push, entry}
use chaotic_next.Base.Search.{first_some, or_try}
use chaotic_next.Signal.Owners.{TriggerType, arch, encode_owner_key}
use chaotic_next.Signal.Broken.{Nodes}
use chaotic_next.Scan.Records.{
  ArchlinuxPackage, Package, PackageElfAnalysis, arch_owner, is_removed, arch_release,
}
use chaotic_next.Scan.Attribution.{provides_library_family}
use chaotic_next.Scan.Triggers.{DetectedTrigger, plugin, Analyses}

-- `a !== b`, for a text and a text that may be left out.
abbrev pub differs_from : Text → Option Text → Bool
differs_from previous none = true
differs_from previous (some release) = not (previous == release)

abbrev pub is_change : Option Text → Option Text → Bool
is_change none release = false
is_change (some previous) release = differs_from previous release

unfoldable pub is_release_change : ArchlinuxPackage → Bool
unfolding is_removed arch_release
is_release_change pkg =
    if is_removed pkg then false else is_change pkg.previous_version (arch_release pkg)

unfoldable pub changed_strict_owners : List ArchlinuxPackage → List Text → List ArchlinuxPackage
unfolding is_release_change
changed_strict_owners changed strict =
    keep (λ (pkg : ArchlinuxPackage). has pkg.pkgname strict && is_release_change pkg) changed

-- A template prints a text that is left out as `null`.
abbrev or_null : Option Text → Text
or_null text = or_else text (codes "null")

abbrev versions : ArchlinuxPackage → Text
versions owner = or_null owner.previous_version ++ (codes " -> " ++ or_null (arch_release owner))

unfoldable pub strict_owner_trigger : ArchlinuxPackage → DetectedTrigger
unfolding arch_release
strict_owner_trigger owner = record {
  bump_type = plugin;
  owner = arch_owner owner;
  trigger_from = arch;
  reason = owner.pkgname ++ codes " updated (strict plugin owner)";
  details = (owner.pkgname ++ (codes ": " ++ versions owner)) ∷ [];
}

abbrev pub plugins_of : Option PackageElfAnalysis → List Text
plugins_of none = []
plugins_of (some analysis) = analysis.plugin_of

abbrev pub is_owner_of : List Text → ArchlinuxPackage → Bool
is_owner_of plugin_of pkg = has (encode_owner_key arch pkg.id) plugin_of

unfoldable pub strict_trigger_of :
    Analyses → List ArchlinuxPackage → Package → Option DetectedTrigger
strict_trigger_of analyses strict output =
    Option.map strict_owner_trigger
      (find (is_owner_of (plugins_of (get output.id analyses))) strict)

unfoldable pub strict_owner_trigger_for :
    List Package → Analyses → List ArchlinuxPackage → Option DetectedTrigger
unfolding strict_trigger_of
strict_owner_trigger_for outputs analyses strict =
    first_some (strict_trigger_of analyses strict) outputs

pub record PrivateApiProvider : Type 0 where
  pub owner : ArchlinuxPackage
  pub private_nodes : List Text

abbrev pub PrivateApiProviders : Type 0
PrivateApiProviders = List (Text × List PrivateApiProvider)

unfoldable pub private_nodes_of : List Text → List Text
unfolding ends_with
private_nodes_of nodes = dedupe (keep (ends_with (codes "_PRIVATE_API")) nodes)

abbrev push_provider :
    ArchlinuxPackage → Text → List Text → PrivateApiProviders → PrivateApiProviders
push_provider owner soname nodes providers =
    if is_empty nodes
    then providers
    else push soname (record { owner = owner; private_nodes = nodes }) providers

-- The loop over the sonames of an owner, and the loop over the owners.
unfoldable pub private_nodes_by_soname :
    ArchlinuxPackage → PrivateApiProviders → Nodes → PrivateApiProviders
unfolding private_nodes_of
private_nodes_by_soname owner providers [] = providers
private_nodes_by_soname owner providers ((soname, nodes) ∷ rows) =
    private_nodes_by_soname owner (push_provider owner soname (private_nodes_of nodes) providers)
      rows

unfoldable pub private_nodes_by_owner :
    List (ℕ × Nodes) → PrivateApiProviders → List ArchlinuxPackage → PrivateApiProviders
unfolding private_nodes_by_soname
private_nodes_by_owner current providers [] = providers
private_nodes_by_owner current providers (owner ∷ owners) =
    private_nodes_by_owner current
      (private_nodes_by_soname owner providers (or_else (get owner.id current) [])) owners

-- The argument is `currentVersionNodesByPkg`, which is left out where there is no context.
unfoldable pub private_api_providers_of :
    List ArchlinuxPackage → Option (List (ℕ × Nodes)) → PrivateApiProviders
unfolding private_nodes_by_owner is_release_change
private_api_providers_of changed none = []
private_api_providers_of changed (some current) =
    private_nodes_by_owner current [] (keep is_release_change changed)

unfoldable pub private_api_trigger : ArchlinuxPackage → Text → Text → DetectedTrigger
unfolding arch_release
private_api_trigger owner soname node = record {
  bump_type = plugin;
  owner = arch_owner owner;
  trigger_from = arch;
  reason = codes "private API of " ++ (owner.pkgname ++ codes " updated");
  details = (soname ++ (codes " (" ++ (node ++ (codes "): " ++ versions owner)))) ∷ [];
}

-- `if (node)` is false for an empty text too.
abbrev pub node_trigger : ArchlinuxPackage → Text → Option Text → Option DetectedTrigger
node_trigger owner soname none = none
node_trigger owner soname (some node) =
    if is_empty node then none else some (private_api_trigger owner soname node)

unfoldable pub provider_trigger : Text → List Text → PrivateApiProvider → Option DetectedTrigger
provider_trigger soname nodes provider =
    node_trigger provider.owner soname (find (λ node. has node provider.private_nodes) nodes)

unfoldable pub soname_trigger :
    PackageElfAnalysis → PrivateApiProviders → Text × List Text → Option DetectedTrigger
unfolding provider_trigger
soname_trigger analysis providers (soname, nodes) =
    if provides_library_family analysis soname
    then none
    else first_some (provider_trigger soname nodes) (entry soname providers)

abbrev pub private_trigger_in :
    PrivateApiProviders → Option PackageElfAnalysis → Option DetectedTrigger
private_trigger_in providers none = none
private_trigger_in providers (some analysis) =
    first_some (soname_trigger analysis providers) analysis.needed_version_nodes

unfoldable pub private_api_trigger_for :
    List Package → Analyses → PrivateApiProviders → Option DetectedTrigger
unfolding soname_trigger
private_api_trigger_for outputs analyses providers =
    if is_empty providers
    then none
    else first_some (λ output. private_trigger_in providers (get output.id analyses)) outputs
