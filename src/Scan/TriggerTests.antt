-- ===== src/Scan/TriggerTests.antt =====
-- Runs of the detection at concrete inputs: bar (5) is a plugin of foo (1), whose release changed.
use mathlib.Core.List.{Memᴰ}
use mathlib.Core.Option.{some-injective}
use chaotic_next.Base.{
  ℕ, ◌≡◌, refl, sym, ap, true, Option, none, some, List, [], ◌∷◌, map, Text, codes, text_eq, nat_eq,
  is_some, decimal,
}
use chaotic_next.Base.Map.{get}
use chaotic_next.Base.MultiMap.{fill, push_under}
use chaotic_next.Signal.Versions.{release_version, format_pkgrel}
use chaotic_next.Signal.Owners.{arch, chaotic, chaotic_pkg, encode_owner_key}
use chaotic_next.Signal.Broken.{missing_soname}
use chaotic_next.Scan.Records.{
  ArchlinuxPackage, Package, PackageElfAnalysis, arch_owner, chaotic_owner, is_removed,
  arch_release, to_owner_descriptor,
}
use chaotic_next.Scan.Outputs.{pkgbase_of, group_by_pkgbase}
use chaotic_next.Scan.PluginBreaks.{
  build_plugin_break_index, index_owners, owner_analysis_pair, consumer_symbol_breaks_for,
  owner_hits, symbol_hits,
}
use chaotic_next.Scan.Attribution.{provides_library_family}
use chaotic_next.Scan.Triggers.{
  to_dto, Analyses, arch_trigger_for, owned_breaks, plugin_break_trigger,
}
use chaotic_next.Scan.Triggers.Causes.{ArchCause, arch_trigger_for-ArchCause}
use chaotic_next.Scan.Releases.{
  is_release_change, changed_strict_owners, strict_owner_trigger, strict_trigger_of,
  strict_owner_trigger_for, PrivateApiProviders, private_api_trigger, private_api_trigger_for,
  soname_trigger, provider_trigger,
}
use chaotic_next.Scan.Releases.Causes.{
  StrictCause, strict_owner_trigger_for-StrictCause, PrivateCause,
  private_api_trigger_for-PrivateCause,
}
use chaotic_next.Scan.Missed.{
  ProviderRow, Database, missed_breaks_in, blame_missed_break, blame_dependency, last_provider_of,
}
use chaotic_next.Scan.Missed.Causes.{FindsById, IsOther, blame_missed_break-IsOther}
use chaotic_next.Scan.Detection.{Change, trigger_for, detect_groups, detect_arch_triggers}
use chaotic_next.Scan.Detection.Found.{
  IsDetected, detect_arch_triggers-IsDetected, detect_groups_complete,
}
use chaotic_next.Scan.Tests.{output_of, outputs}
use chaotic_next.Scan.AttributionTests.{foo, bar, no_runtimes, index, open_break}

abbrev plugin_bar : PackageElfAnalysis
plugin_bar = record bar {
  plugin_of = codes "a1" ∷ [];
  broken = true;
  broken_since = some 9;
  scanned_at = 4;
  needed_version_nodes = (codes "libQt.so.6", codes "Qt_6_PRIVATE_API" ∷ []) ∷ [];
}

abbrev analyses : Analyses
analyses = (5, plugin_bar) ∷ []

-- The break of bar started after its scan.
bar-missed : Memᴰ (5, 9) (missed_breaks_in analyses)
unfolding missed_breaks_in
bar-missed = Memᴰ.head refl

bar-strict :
    strict_owner_trigger_for outputs analyses (changed_strict_owners (foo ∷ []) (codes "foo" ∷ []))
    ≡ some (strict_owner_trigger foo)
unfolding strict_owner_trigger_for strict_trigger_of changed_strict_owners is_release_change
    is_removed arch_release release_version format_pkgrel decimal encode_owner_key
bar-strict = refl

strict_owner_trigger_for-StrictCause_example :
    StrictCause outputs analyses (foo ∷ []) (codes "foo" ∷ []) (strict_owner_trigger foo)
strict_owner_trigger_for-StrictCause_example =
    strict_owner_trigger_for-StrictCause outputs analyses (foo ∷ []) (codes "foo" ∷ []) bar-strict

abbrev qt_private : PrivateApiProviders
qt_private =
    (codes "libQt.so.6", record { owner = foo; private_nodes = codes "Qt_6_PRIVATE_API" ∷ [] } ∷ [])
    ∷ []

bar-private :
    private_api_trigger_for outputs analyses qt_private
    ≡ some (private_api_trigger foo (codes "libQt.so.6") (codes "Qt_6_PRIVATE_API"))
unfolding private_api_trigger_for soname_trigger provider_trigger provides_library_family
bar-private = refl

private_api_trigger_for-PrivateCause_example :
    PrivateCause outputs analyses qt_private
      (private_api_trigger foo (codes "libQt.so.6") (codes "Qt_6_PRIVATE_API"))
private_api_trigger_for-PrivateCause_example =
    private_api_trigger_for-PrivateCause outputs analyses qt_private bar-private

abbrev no_arch : ℕ → Option ArchlinuxPackage
no_arch id = none

abbrev no_arch_name : Text → Option ArchlinuxPackage
no_arch_name name = none

-- Package 5 is bar itself, and every other id is a package of its own.
abbrev packages : ℕ → Option Package
packages id = some (output_of id (codes "p") none)

abbrev no_base : Text → Option ℕ
no_base name = none

abbrev provider_rows : Text → List ProviderRow
provider_rows soname =
    record { pkg_type = chaotic_pkg; pkg_id = 5 }
    ∷ record { pkg_type = chaotic_pkg; pkg_id = 8 }
    ∷ []

abbrev database : Database
database = record {
  arch_by_id = no_arch;
  arch_by_name = no_arch_name;
  active_arch_by_name = no_arch_name;
  package_by_id = packages;
  pkgbase_id = no_base;
  bumps = [];
  providers_of = provider_rows;
  provided_by_pkgname = [];
  arch_provided_sonames = [];
  runtimes = no_runtimes;
}

packages-FindsById : FindsById database
packages-FindsById id pkg e = ap (λ (p : Package). p.id) (sym (some-injective _ _ e))

abbrev other : Package
other = output_of 8 (codes "p") none

other-blamed :
    blame_missed_break database (missing_soname (codes "libx.so.1") ∷ []) outputs
    ≡ some (chaotic_owner other, chaotic)
unfolding blame_missed_break blame_dependency last_provider_of
other-blamed = refl

blame_missed_break-IsOther_example :
    IsOther (map (λ (pkg : Package). pkg.id) outputs) (chaotic_owner other, chaotic)
blame_missed_break-IsOther_example =
    blame_missed_break-IsOther database (missing_soname (codes "libx.so.1") ∷ []) outputs
      packages-FindsById other-blamed

bar-hit :
    arch_trigger_for outputs analyses none index (foo ∷ [])
    ≡ some (plugin_break_trigger (open_break ∷ []) (arch_owner foo) arch)
unfolding arch_trigger_for owned_breaks consumer_symbol_breaks_for owner_hits symbol_hits
    provides_library_family
bar-hit = refl

arch_trigger_for-ArchCause_example :
    ArchCause outputs analyses none index
      (foo ∷ [])
      (plugin_break_trigger (open_break ∷ []) (arch_owner foo) arch)
arch_trigger_for-ArchCause_example =
    arch_trigger_for-ArchCause outputs analyses none index (foo ∷ []) bar-hit

abbrev change : Change
change = record {
  changed = foo ∷ [];
  strict_plugin_owners = codes "foo" ∷ [];
  analyses_of_owner = λ owner. [];
  context = none;
  consumer_analyses = analyses;
  database = database;
}

bar-detected : trigger_for change (codes "bar") outputs ≡ some (strict_owner_trigger foo)
unfolding trigger_for arch_trigger_for owned_breaks consumer_symbol_breaks_for owner_hits
    symbol_hits build_plugin_break_index index_owners owner_analysis_pair strict_owner_trigger_for
    strict_trigger_of changed_strict_owners is_release_change is_removed arch_release
    release_version format_pkgrel decimal encode_owner_key to_owner_descriptor
bar-detected = refl

bar-sent :
    get (codes "bar") (detect_arch_triggers change outputs)
    ≡ some (to_dto (strict_owner_trigger foo))
unfolding detect_arch_triggers detect_groups group_by_pkgbase pkgbase_of fill push_under trigger_for
    arch_trigger_for build_plugin_break_index strict_owner_trigger_for changed_strict_owners
    is_release_change is_removed arch_release release_version format_pkgrel decimal encode_owner_key
    to_owner_descriptor
bar-sent = refl

detect_arch_triggers-IsDetected_example :
    IsDetected change (group_by_pkgbase outputs) (codes "bar") (to_dto (strict_owner_trigger foo))
detect_arch_triggers-IsDetected_example =
    detect_arch_triggers-IsDetected change outputs (codes "bar") bar-sent

detect_groups_complete_example :
    is_some (get (codes "bar") (detect_groups change [] ((codes "bar", outputs) ∷ []))) ≡ true
detect_groups_complete_example =
    detect_groups_complete change [] ((codes "bar", outputs) ∷ []) (codes "bar") outputs
      (strict_owner_trigger foo) (Memᴰ.head refl) bar-detected
