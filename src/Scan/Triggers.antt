-- ===== src/Scan/Triggers.antt =====
-- The triggers of an Arch update: `archTriggerFor`, `brokenDepsTrigger`, `pluginBreakTrigger`,
-- `summarizeDetails` and `toDto` of backend/src/repo-manager/scan/trigger-detector.ts, with `BumpType`
-- of backend/src/interfaces/repo-manager.ts.
pub mod Causes
use mathlib.Core.Option as Option
use chaotic_next.Base.{
  ℕ, ◌+◌, ◌-◌, Bool, true, false, not, ◌&&◌, ◌||◌, Option, none, some, List, [], ◌∷◌, ◌++◌, map,
  Text, codes, text_eq, nat_eq, ◌==◌, has, is_empty, is_some, dedupe, keep, find, length, take, leb,
  decimal, or_else, ends_with, flat_map, if◌then◌else◌,
}
use chaotic_next.Base.Map.{get}
use chaotic_next.Base.MultiMap.{push}
use chaotic_next.Base.Search.{first_some, or_try}
use chaotic_next.Signal.Owners.{TriggerType, arch, encode_owner_key}
use chaotic_next.Signal.Abi.{
  ConsumerAbiBreak, symbol_break, vtable_break, format_consumer_abi_break,
}
use chaotic_next.Signal.Broken.{Nodes, BrokenDependency, format_broken_dependency}
use chaotic_next.Scan.Records.{
  ArchlinuxPackage, Package, PackageElfAnalysis, ChangedOwner, arch_owner, owner_id, owner_name,
  is_removed, arch_release,
}
use chaotic_next.Scan.Outputs.{recorded_deps}
use chaotic_next.Scan.Context.{BrokenDepsContext}
use chaotic_next.Scan.Attribution.{broken_deps_for_consumer, provides_library_family}
use chaotic_next.Scan.PluginBreaks.{PluginBreakIndex, consumer_symbol_breaks_for}

pub data BumpType : Type 0 where
  explicit global from_deps from_deps_chaotic plugin broken_deps manual : BumpType

pub record DetectedTrigger : Type 0 where
  pub bump_type : BumpType
  pub owner : ChangedOwner
  pub trigger_from : TriggerType
  pub reason : Text
  pub details : List Text

pub record DetectedTriggerDto : Type 0 where
  pub bump_type : BumpType
  pub trigger_from : TriggerType
  pub owner_id : ℕ
  pub reason : Text
  pub details : List Text

unfoldable pub to_dto : DetectedTrigger → DetectedTriggerDto
to_dto trigger = record {
  bump_type = trigger.bump_type;
  trigger_from = trigger.trigger_from;
  owner_id = owner_id trigger.owner;
  reason = trigger.reason;
  details = trigger.details;
}

abbrev pub abi_break_details_limit : ℕ
abi_break_details_limit = 1

unfoldable pub summarize_details : List Text → List Text
summarize_details details =
    if leb (length details) abi_break_details_limit
    then details
    else take abi_break_details_limit details
      ++ (codes "... " ++ (decimal (length details - abi_break_details_limit) ++ codes " more"))
        ∷ []

abbrev pub Analyses : Type 0
Analyses = List (ℕ × PackageElfAnalysis)

unfoldable pub broken_deps_trigger :
    List BrokenDependency × ChangedOwner → TriggerType → DetectedTrigger
broken_deps_trigger (deps, cause) trigger_from = record {
  bump_type = broken_deps;
  owner = cause;
  trigger_from = trigger_from;
  reason = codes "broken dependency";
  details = map format_broken_dependency deps;
}

unfoldable pub plugin_break_trigger :
    List ConsumerAbiBreak → ChangedOwner → TriggerType → DetectedTrigger
plugin_break_trigger breaks owner trigger_from = record {
  bump_type = plugin;
  owner = owner;
  trigger_from = trigger_from;
  reason = codes "plugin ABI break of " ++ owner_name owner;
  details = dedupe (map format_consumer_abi_break breaks);
}

-- The outputs that have an analysis.
abbrev pub with_analysis : Package → Option PackageElfAnalysis → List (Package × PackageElfAnalysis)
with_analysis output none = []
with_analysis output (some analysis) = (output, analysis) ∷ []

abbrev pub analyzed_outputs : List Package → Analyses → List (Package × PackageElfAnalysis)
analyzed_outputs outputs analyses =
    flat_map (λ output. with_analysis output (get output.id analyses)) outputs

abbrev pub break_pkg_id : ConsumerAbiBreak → ℕ
break_pkg_id (symbol_break symbol soname pkgname pkg_id) = pkg_id
break_pkg_id (vtable_break slot vtable pkgname pkg_id) = pkg_id

unfoldable pub broken_trigger_of :
    BrokenDepsContext → Package × PackageElfAnalysis → Option DetectedTrigger
unfolding broken_deps_for_consumer
broken_trigger_of ctx (output, analysis) =
    Option.map (λ broken. broken_deps_trigger broken arch)
      (broken_deps_for_consumer analysis ctx (recorded_deps output))

abbrev pub broken_trigger_in :
    Option BrokenDepsContext → List (Package × PackageElfAnalysis) → Option DetectedTrigger
broken_trigger_in none analyzed = none
broken_trigger_in (some context) analyzed = first_some (broken_trigger_of context) analyzed

-- The owner of the first break has to be among the changed packages.
unfoldable pub owned_breaks : List ArchlinuxPackage → List ConsumerAbiBreak → Option DetectedTrigger
owned_breaks changed [] = none
owned_breaks changed (first ∷ others) =
    Option.map (λ pkg. plugin_break_trigger (first ∷ others) (arch_owner pkg) arch)
      (find (λ (pkg : ArchlinuxPackage). pkg.id == break_pkg_id first) changed)

unfoldable pub arch_trigger_for :
    List Package
    → Analyses
    → Option BrokenDepsContext
    → PluginBreakIndex
    → List ArchlinuxPackage
    → Option DetectedTrigger
unfolding broken_trigger_of owned_breaks consumer_symbol_breaks_for
arch_trigger_for outputs analyses ctx index changed =
    let analyzed = analyzed_outputs outputs analyses in
    or_try (broken_trigger_in ctx analyzed)
      (first_some (λ row. owned_breaks changed (consumer_symbol_breaks_for row.1 index)) analyzed)
