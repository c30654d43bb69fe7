-- ===== src/Signal/ScannerTests.antt =====
-- Runs of the scanner's definitions at concrete inputs.
use chaotic_next.Base.{
  ◌≡◌, ◌↔◌, refl, true, none, some, List, [], ◌∷◌, ◌++◌, Text, codes, text_eq, Within, All,
  last_index_of,
}
use chaotic_next.Signal.Paths.{soname_basename}
use chaotic_next.Signal.Sonames.{python, perl, ruby, ghc}
use chaotic_next.Signal.Owners.{arch_pkg, chaotic_pkg}
use chaotic_next.Signal.Graph.{DependencyNode, build_dependency_graph, edges_by, place_from}
use chaotic_next.Signal.Graph.Index.{providers_of, build_dependency_graph-providers_of}
use chaotic_next.Signal.Broken.{Runtimes, Options, stale_runtime_dependencies}
use chaotic_next.Signal.Broken.Stale.{IsStale, stale_runtime_dependencies-IsStale}
use chaotic_next.Signal.Abi.{compatible, broken, classify_vtable_drift}
use chaotic_next.Signal.Abi.Drift.{classify_vtable_drift-compatible_iff}
use chaotic_next.Signal.Fixability.{BrokenIssue, rebuild, no_fix, FixabilityContext}

abbrev library : DependencyNode
library = record {
  pkg_type = arch_pkg;
  pkg_id = 1;
  pkgname = codes "foo";
  provided_sonames = codes "libfoo.so.1" ∷ [];
  needed_sonames = codes "libc.so.6" ∷ [];
}

abbrev program : DependencyNode
program = record {
  pkg_type = chaotic_pkg;
  pkg_id = 2;
  pkgname = codes "bar";
  provided_sonames = [];
  needed_sonames = codes "libfoo.so.1" ∷ [];
}

build_dependency_graph-providers_of_example :
    build_dependency_graph (library ∷ program ∷ [])
    ≡ edges_by
        (providers_of (place_from 0 (library ∷ program ∷ [])))
        (place_from 0 (library ∷ program ∷ []))
build_dependency_graph-providers_of_example =
    build_dependency_graph-providers_of (library ∷ program ∷ [])

abbrev only_python : Runtimes
only_python python = some (codes "3.14.1")
only_python perl = none
only_python ruby = none
only_python ghc = none

abbrev needs_foo : Options
needs_foo = record {
  needed_sonames = codes "libfoo.so.1" ∷ codes "libown.so.2" ∷ [];
  files = codes "usr/lib/libown.so.2" ∷ [];
  provided_sonames = [];
  base_sonames = none;
  runtimes = only_python;
  check_sonames = none;
  self_provided_sonames = [];
}

same_base : soname_basename (codes "usr/lib/libown.so.2") ≡ soname_basename (codes "libown.so.2")
unfolding soname_basename last_index_of
same_base = refl

empty-Within : (q : List Text) → Within {A = Text} [] q
empty-Within q a h = cc

stale_runtime_dependencies-IsStale_example :
    All
      (IsStale (codes "usr/lib/python3.13/x.py" ∷ []) only_python [])
      (stale_runtime_dependencies (codes "usr/lib/python3.13/x.py" ∷ []) only_python [])
stale_runtime_dependencies-IsStale_example =
    stale_runtime_dependencies-IsStale (codes "usr/lib/python3.13/x.py" ∷ []) only_python []

classify_vtable_drift-compatible_iff_example :
    (classify_vtable_drift (codes "a" ∷ []) (codes "a" ∷ codes "b" ∷ []) ≡ compatible)
    ↔ ((added : List Text) × ((codes "a" ∷ codes "b" ∷ []) ≡ (codes "a" ∷ []) ++ added))
classify_vtable_drift-compatible_iff_example =
    classify_vtable_drift-compatible_iff (codes "a" ∷ []) (codes "a" ∷ codes "b" ∷ [])

swapped : classify_vtable_drift (codes "a" ∷ codes "b" ∷ []) (codes "b" ∷ codes "a" ∷ []) ≡ broken
unfolding classify_vtable_drift
swapped = refl

abbrev with_successor : FixabilityContext
with_successor = record {
  soname_stems = codes "libfoo.so" ∷ [];
  reasons_as_built = [];
  is_source_compiled = true;
}

abbrev two_issues : List BrokenIssue
two_issues =
    record { reason = codes "r"; fixability = no_fix }
    ∷ record { reason = codes "s"; fixability = rebuild }
    ∷ []
