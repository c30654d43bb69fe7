-- ===== src/Scan/CoverageTests.antt =====
-- Runs of the loading and of the coverage report at concrete inputs: the removed package foo was the
-- last one with libfoo.so.1, which bar needs.
use chaotic_next.Base.{
  decimal, ◌≡◌, refl, false, none, some, [], ◌∷◌, codes, List, text_eq, nat_eq, includes, split,
}
use chaotic_next.Signal.Broken.{Nodes}
use chaotic_next.Signal.Latest.{latest_analysis_by_key}
use chaotic_next.Signal.Versions.{compare_arch_versions}
use chaotic_next.Scan.Records.{Package, PackageElfAnalysis}
use chaotic_next.Scan.Context.{ProvidedAnalysis}
use chaotic_next.Scan.AttributionTests.{foo, bar}
use chaotic_next.Scan.Providers.{
  latest_active_analyses_by_package, latest_analyses_by_package, names_by_key, active_from,
  analysis_key, load_soname_providers, providers_from, add_provider,
}
use chaotic_next.Scan.Loading.{newest_two_chaotic_versions}
use chaotic_next.Scan.Coverage.{
  ActivePackage, find_removed_provider_sonames, load_removed_arch_analyses, removed_names,
  removed_providers, add_removed, consumers_from, add_consumer,
}
use chaotic_next.Scan.Coverage.Removed.{IsRemovedRow, find_removed_provider_sonames-IsRemovedRow}
use chaotic_next.Base.{All}

abbrev bar_package : Package
bar_package = record {
  id = 5;
  pkgname = codes "bar";
  pkgbase_name = none;
  metadata = none;
  skip_signal_scan = false;
  version = some (codes "1.0");
  pkgrel = some 1;
  bump = 0;
}

abbrev active : List ActivePackage
active = record { pkg = bar_package; repo_id = 1; repo_name = codes "chaotic-aur" } ∷ []

abbrev foo_rows : List ProvidedAnalysis
foo_rows =
    record {
      pkg_id = 1;
      version = codes "1.0-1";
      provided_sonames = codes "libfoo.so.1" ∷ codes "libother.so.1" ∷ [];
      provided_version_nodes = [];
    }
    ∷ []

abbrev other_provided : Nodes
other_provided = (codes "libother.so.1", codes "other" ∷ []) ∷ []

stranded_soname :
    find_removed_provider_sonames other_provided (foo ∷ []) foo_rows active ((5, bar) ∷ [])
    ≡ record {
      soname = codes "libfoo.so.1";
      removed_providers_of = codes "foo" ∷ [];
      consumers = codes "bar" ∷ [];
    }
      ∷ []
unfolding find_removed_provider_sonames load_removed_arch_analyses removed_names removed_providers
    add_removed consumers_from add_consumer latest_analysis_by_key
stranded_soname = refl

find_removed_provider_sonames-IsRemovedRow_example :
    All
      (IsRemovedRow other_provided (foo ∷ []) foo_rows active ((5, bar) ∷ []))
      (find_removed_provider_sonames other_provided (foo ∷ []) foo_rows active ((5, bar) ∷ []))
find_removed_provider_sonames-IsRemovedRow_example =
    find_removed_provider_sonames-IsRemovedRow other_provided (foo ∷ []) foo_rows active
      ((5, bar) ∷ [])

newest_two :
    newest_two_chaotic_versions (codes "1.9-1" ∷ codes "1.10-1" ∷ codes "1.8-1" ∷ [])
    ≡ some (codes "1.10-1", codes "1.9-1")
unfolding newest_two_chaotic_versions compare_arch_versions includes split
newest_two = refl

abbrev lib_row : PackageElfAnalysis
lib_row = record bar { provided_sonames = codes "libbar.so.1" ∷ [] }

-- The row with the identifier 6 has no active package.
active_providers :
    load_soname_providers (
      latest_active_analyses_by_package
        (record bar { pkg_id = 6 } ∷ lib_row ∷ [])
        []
        (bar_package ∷ []))
    ≡ ((codes "libbar.so.1", codes "bar" ∷ []) ∷ [], [])
unfolding load_soname_providers latest_active_analyses_by_package latest_analyses_by_package
    names_by_key active_from analysis_key providers_from add_provider latest_analysis_by_key decimal
active_providers = refl
