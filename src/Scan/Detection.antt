-- ===== src/Scan/Detection.antt =====
-- The detection over a repository: `detectArchTriggers` and `deploymentTriggers` of
-- backend/src/repo-manager/scan/trigger-detector.ts, from the rows that were loaded.
pub mod Found
use mathlib.Core.Option as Option
use chaotic_next.Base.{
  ℕ, Bool, true, false, not, Option, none, some, List, [], ◌∷◌, map, Text, text_eq, nat_eq, ◌==◌,
  keep, find,
}
use chaotic_next.Base.Map.{get, put}
use chaotic_next.Base.Search.{or_try}
use chaotic_next.Signal.Owners.{chaotic}
use chaotic_next.Signal.Abi.{ConsumerAbiBreak}
use chaotic_next.Scan.Records.{
  ArchlinuxPackage, Package, PackageElfAnalysis, OwnerDescriptor, is_removed, to_owner_descriptor,
  chaotic_owner,
}
use chaotic_next.Scan.Outputs.{group_by_pkgbase, recorded_deps}
use chaotic_next.Scan.Context.{BrokenDepsContext}
use chaotic_next.Scan.Attribution.{broken_deps_for_consumer}
use chaotic_next.Scan.PluginBreaks.{
  PluginBreakIndex, build_plugin_break_index, consumer_symbol_breaks_for,
}
use chaotic_next.Scan.Triggers.{
  DetectedTrigger, DetectedTriggerDto, Analyses, to_dto, arch_trigger_for, break_pkg_id,
  broken_deps_trigger, plugin_break_trigger,
}
use chaotic_next.Scan.Releases.{
  PrivateApiProviders, changed_strict_owners, strict_owner_trigger_for, private_api_providers_of,
  private_api_trigger_for,
}
use chaotic_next.Scan.Missed.{Database, MissedBreaks, missed_breaks_in, missed_break_trigger_for}

-- What the queries of `detectArchTriggers` return.
pub record Change : Type 0 where
  pub changed : List ArchlinuxPackage
  pub strict_plugin_owners : List Text
  pub analyses_of_owner : OwnerDescriptor → List PackageElfAnalysis
  pub context : Option BrokenDepsContext
  pub consumer_analyses : Analyses
  pub database : Database

abbrev pub plugin_index : Change → PluginBreakIndex
plugin_index change =
    build_plugin_break_index change.analyses_of_owner
      (map to_owner_descriptor (keep (λ pkg. not (is_removed pkg)) change.changed))

abbrev pub private_providers : Change → PrivateApiProviders
private_providers change =
    private_api_providers_of change.changed
      (Option.map (λ (ctx : BrokenDepsContext). ctx.current_version_nodes) change.context)

-- The body of the loop: the first of the four triggers.
unfoldable pub trigger_for : Change → Text → List Package → Option DetectedTrigger
trigger_for change pkgbase_dir outputs =
    let analyses = change.consumer_analyses in
    or_try (arch_trigger_for outputs analyses change.context (plugin_index change) change.changed) (
      or_try
        (strict_owner_trigger_for outputs analyses
          (changed_strict_owners change.changed change.strict_plugin_owners))
        (or_try (private_api_trigger_for outputs analyses (private_providers change)) (
          missed_break_trigger_for change.database pkgbase_dir outputs analyses
            (missed_breaks_in analyses))))

abbrev pub Detected : Type 0
Detected = List (Text × DetectedTriggerDto)

abbrev pub set_detected : Text → Option DetectedTrigger → Detected → Detected
set_detected key none detected = detected
set_detected key (some trigger) detected = put key (to_dto trigger) detected

unfoldable pub detect_groups : Change → Detected → List (Text × List Package) → Detected
detect_groups change detected [] = detected
detect_groups change detected ((pkgbase_dir, outputs) ∷ groups) =
    detect_groups change
      (set_detected pkgbase_dir (trigger_for change pkgbase_dir outputs) detected) groups

unfoldable pub detect_arch_triggers : Change → List Package → Detected
unfolding detect_groups group_by_pkgbase
detect_arch_triggers change repo_outputs = detect_groups change [] (group_by_pkgbase repo_outputs)

-- The owner of the first break, if it was deployed.
unfoldable pub deployed_break : List Package → List ConsumerAbiBreak → Option DetectedTrigger
deployed_break deployed [] = none
deployed_break deployed (first ∷ others) =
    Option.map (λ pkg. plugin_break_trigger (first ∷ others) (chaotic_owner pkg) chaotic)
      (find (λ (pkg : Package). pkg.id == break_pkg_id first) deployed)

abbrev deployed_broken :
    Option BrokenDepsContext → PackageElfAnalysis → Package → Option DetectedTrigger
deployed_broken none analysis consumer = none
deployed_broken (some ctx) analysis consumer =
    Option.map (λ broken. broken_deps_trigger broken chaotic)
      (broken_deps_for_consumer analysis ctx (recorded_deps consumer))

-- The body of the loop over the consumers that are scanned.
abbrev pub deployment_trigger :
    List Package
    → PluginBreakIndex
    → Option BrokenDepsContext
    → Package
    → Option PackageElfAnalysis
    → Option DetectedTrigger
deployment_trigger deployed index ctx consumer none = none
deployment_trigger deployed index ctx consumer (some analysis) =
    or_try (deployed_break deployed (consumer_symbol_breaks_for analysis index))
      (deployed_broken ctx analysis consumer)

abbrev pub DeploymentTriggers : Type 0
DeploymentTriggers = List (ℕ × DetectedTriggerDto)

abbrev set_deployment : ℕ → Option DetectedTrigger → DeploymentTriggers → DeploymentTriggers
set_deployment id none detected = detected
set_deployment id (some trigger) detected = put id (to_dto trigger) detected

unfoldable pub deploy_consumers :
    List Package
    → PluginBreakIndex
    → Option BrokenDepsContext
    → Analyses
    → DeploymentTriggers
    → List Package
    → DeploymentTriggers
unfolding deployed_break
deploy_consumers deployed index ctx analyses detected [] = detected
deploy_consumers deployed index ctx analyses detected (consumer ∷ consumers) =
    deploy_consumers deployed index ctx analyses
      (set_deployment consumer.id
        (deployment_trigger deployed index ctx consumer (get consumer.id analyses)) detected)
      consumers

unfoldable pub deployment_triggers :
    List Package
    → PluginBreakIndex
    → Option BrokenDepsContext
    → Analyses
    → List Package
    → DeploymentTriggers
unfolding deploy_consumers
deployment_triggers deployed index ctx analyses consumers =
    deploy_consumers deployed index ctx analyses []
      (keep (λ (pkg : Package). not pkg.skip_signal_scan) consumers)
