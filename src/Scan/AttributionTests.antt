-- ===== src/Scan/AttributionTests.antt =====
-- Runs of the attribution and of the triggers at concrete inputs: foo drops libfoo.so.1, which bar
-- needs, and ships libfoo.so.2.
use mathlib.Core.List.{Memᴰ}
use chaotic_next.Base.{
  ◌≡◌, refl, false, none, some, [], ◌∷◌, codes, text_eq, nat_eq, includes, index_of, starts_with,
  ends_with, last_index_of,
}
use chaotic_next.Signal.Sonames.{haskell_package_name}
use chaotic_next.Signal.Paths.{soname_basename}
use chaotic_next.Signal.Owners.{arch, chaotic_pkg}
use chaotic_next.Signal.Broken.{
  Nodes, Runtimes, missing_soname, find_broken_dependencies, missing_sonames, is_resolved,
  is_soname_satisfied, unversioned_resolvable, soname_version_prefix, stale_runtime_dependencies,
  check, find_version_node_breaks, missing_nodes, is_private_node,
}
use chaotic_next.Signal.Fixability.{has_successor, successor_stem}
use chaotic_next.Signal.Abi.{ConsumerAbiBreak, symbol_break}
use chaotic_next.Signal.Graph.{base_system_sonames}
use chaotic_next.Scan.Records.{ArchlinuxPackage, PackageElfAnalysis, OwnerDescriptor, arch_owner}
use chaotic_next.Scan.Context.{
  BrokenDepsContext, deps_contains, reachable_from, provided_for_deps,
  withhold_unreachable_dropped_sonames,
}
use chaotic_next.Scan.Attribution.{
  broken_deps_for_consumer, blamed_for, broken_for, blame_dependencies, blame_versions, verdict,
  broken_dependency_culprit, find_version_node_culprit, culprit_among, may_blame, breaks_of,
  dropped_version_nodes, version_nodes_from_other_providers, provides_library_family,
}
use chaotic_next.Scan.Attribution.Culprits.{IsNodeCulprit, find_version_node_culprit-IsNodeCulprit}
use chaotic_next.Scan.Attribution.Blame.{IsJustified, broken_deps_for_consumer-IsJustified}
use chaotic_next.Scan.PluginBreaks.{
  PluginBreakEntry, PluginBreakIndexEntry, PluginBreakIndex, consumer_symbol_breaks_for, owner_hits,
  symbol_hits, symbol_losses,
}
use chaotic_next.Scan.PluginBreaks.Hits.{
  IsHit, symbol_hit, consumer_symbol_breaks_for-IsHit, consumer_symbol_breaks_for_complete,
}

abbrev pub foo : ArchlinuxPackage
foo = record {
  id = 1;
  pkgname = codes "foo";
  version = some (codes "2.0");
  pkgrel = some 1;
  bump = 0;
  previous_version = some (codes "1.0-1");
  deactivated_at = none;
}

abbrev pub no_runtimes : Runtimes
no_runtimes runtime = none

abbrev pub ctx : BrokenDepsContext
ctx = record {
  changed = arch_owner foo ∷ [];
  provided_by_pkgname = (codes "libfoo.so.2", codes "foo" ∷ []) ∷ [];
  provided_soname_stems = codes "libfoo.so" ∷ [];
  arch_provided_sonames = codes "libfoo.so.2" ∷ [];
  runtimes = no_runtimes;
  previous_provided = (1, codes "libfoo.so.1" ∷ codes "libv.so.1" ∷ []) ∷ [];
  current_provided = (1, codes "libfoo.so.2" ∷ codes "libv.so.1" ∷ []) ∷ [];
  previous_version_nodes = (1, (codes "libv.so.1", codes "V1" ∷ codes "V2" ∷ []) ∷ []) ∷ [];
  current_version_nodes = (1, (codes "libv.so.1", codes "V2" ∷ []) ∷ []) ∷ [];
  version_nodes_by_provider = (codes "libv.so.1", (codes "foo", codes "V2" ∷ []) ∷ []) ∷ [];
  dropped_sonames = codes "libfoo.so.1" ∷ [];
  dependency_closure = none;
}

abbrev pub bar : PackageElfAnalysis
bar = record {
  pkg_type = chaotic_pkg;
  pkg_id = 5;
  version = codes "1.0-1";
  files = [];
  needed_sonames = codes "libfoo.so.1" ∷ [];
  provided_sonames = [];
  imported_symbols = codes "foo_open" ∷ [];
  exported_symbols = [];
  provided_version_nodes = [];
  needed_version_nodes = [];
  vtables = [];
  plugin_of = [];
  broken = false;
  broken_since = none;
  scanned_at = 0;
}

bar-broken :
    broken_deps_for_consumer bar ctx (some (codes "foo" ∷ []))
    ≡ some (missing_soname (codes "libfoo.so.1") ∷ [], arch_owner foo)
unfolding broken_deps_for_consumer blamed_for broken_for blame_dependencies blame_versions verdict
    broken_dependency_culprit has_successor successor_stem reachable_from provided_for_deps
    withhold_unreachable_dropped_sonames find_broken_dependencies missing_sonames is_resolved
    is_soname_satisfied unversioned_resolvable soname_version_prefix soname_basename
    stale_runtime_dependencies check haskell_package_name index_of last_index_of starts_with
    ends_with includes deps_contains base_system_sonames
bar-broken = refl

broken_deps_for_consumer-IsJustified_example :
    IsJustified bar ctx
      (some (codes "foo" ∷ []))
      (missing_soname (codes "libfoo.so.1") ∷ [])
      (arch_owner foo)
broken_deps_for_consumer-IsJustified_example =
    broken_deps_for_consumer-IsJustified bar ctx (some (codes "foo" ∷ []))
      (missing_soname (codes "libfoo.so.1") ∷ []) (arch_owner foo) bar-broken

v1-taken :
    find_version_node_culprit (codes "libv.so.1") (codes "V1" ∷ codes "V2" ∷ []) ctx none
    ≡ some (arch_owner foo, codes "V1" ∷ [])
unfolding find_version_node_culprit culprit_among may_blame breaks_of dropped_version_nodes
    version_nodes_from_other_providers find_version_node_breaks missing_nodes is_private_node
    includes
v1-taken = refl

find_version_node_culprit-IsNodeCulprit_example :
    IsNodeCulprit ctx none
      (codes "libv.so.1")
      (codes "V1" ∷ codes "V2" ∷ [])
      (arch_owner foo)
      (codes "V1" ∷ [])
find_version_node_culprit-IsNodeCulprit_example =
    find_version_node_culprit-IsNodeCulprit (codes "libv.so.1") (codes "V1" ∷ codes "V2" ∷ []) ctx
      none (arch_owner foo) (codes "V1" ∷ []) v1-taken

abbrev lost_open : PluginBreakEntry
lost_open = record {
  pkgname = codes "foo";
  pkg_id = 1;
  soname = codes "libfoo.so.1";
  lost_symbols = codes "foo_open" ∷ [];
}

abbrev foo_entry : PluginBreakIndexEntry
foo_entry = record {
  pkgname = codes "foo";
  pkg_id = 1;
  symbol_breaks = lost_open ∷ [];
  vtable_drifts = [];
}

abbrev pub index : PluginBreakIndex
index = (codes "a1", foo_entry) ∷ []

abbrev pub open_break : ConsumerAbiBreak
open_break = symbol_break (codes "foo_open") (codes "libfoo.so.1") (codes "foo") 1

open-found : Memᴰ open_break (consumer_symbol_breaks_for bar index)
unfolding consumer_symbol_breaks_for owner_hits symbol_hits provides_library_family
open-found = Memᴰ.head refl

consumer_symbol_breaks_for-IsHit_example : IsHit bar index open_break
consumer_symbol_breaks_for-IsHit_example = consumer_symbol_breaks_for-IsHit bar index open-found

bar-foreign : provides_library_family bar (codes "libfoo.so.1") ≡ false
unfolding provides_library_family
bar-foreign = refl

open-IsHit : IsHit bar index open_break
open-IsHit =
    symbol_hit (codes "a1") (codes "foo_open") foo_entry lost_open (Memᴰ.head refl) (Memᴰ.head refl)
      refl bar-foreign refl refl

consumer_symbol_breaks_for_complete_example : Memᴰ open_break (consumer_symbol_breaks_for bar index)
consumer_symbol_breaks_for_complete_example =
    consumer_symbol_breaks_for_complete bar index open-IsHit

abbrev foo_owner : OwnerDescriptor
foo_owner = record {
  pkg_type = arch;
  pkg_id = 1;
  pkgname = codes "foo";
  previous_version = some (codes "1.0-1");
  current_version = codes "2.0-1";
}

abbrev exported_before : Nodes
exported_before = (codes "libfoo.so.1", codes "foo_open" ∷ codes "foo_close" ∷ []) ∷ []

abbrev exported_now : Nodes
exported_now = (codes "libfoo.so.1", codes "foo_close" ∷ []) ∷ []

open-lost : Memᴰ lost_open (symbol_losses foo_owner exported_before exported_now)
unfolding symbol_losses
open-lost = Memᴰ.head refl
