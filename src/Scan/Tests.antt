-- ===== src/Scan/Tests.antt =====
-- Runs of the closure, the context and the attribution at concrete inputs.
use mathlib.Core.List.{Memᴰ}
use mathlib.Core.List.Memᴰ
use chaotic_next.Base.{
  ℕ, ◌+◌, ◌≡◌, refl, true, false, Option, none, some, List, [], ◌∷◌, map, Text, codes, text_eq,
  nat_eq, has, keep, length, trim, includes, split, All, read_decimal,
}
use chaotic_next.Base.MultiMap.{fill}
use chaotic_next.Base.Number.{number}
use chaotic_next.Signal.Versions.{compare_arch_versions, split_arch_version, epoch_number}
use chaotic_next.Signal.Versions.Order.{HasEpoch}
use chaotic_next.Signal.Latest.{newest_from, newer}
use chaotic_next.Signal.Broken.{Nodes}
use chaotic_next.Scan.Baseline.{older_than, pick_baseline_version}
use chaotic_next.Scan.Closure.{
  DependencyRecord, clean_dep_name, before, new_closure, push_all, visit, walk, reachable_packages,
  total_deps,
}
use chaotic_next.Scan.Closure.Walks.{asked, IsPulled}
use chaotic_next.Scan.Closure.Reach.{
  OneList, reachable_packages-ends, reachable_packages-IsPulled, reachable_packages_complete,
}
use chaotic_next.Scan.Records.{Package}

-- The description and the version of a dependency do not count.
clean_versioned : clean_dep_name (codes "libcurl.so=8-64: network") ≡ codes "libcurl.so"
unfolding clean_dep_name trim
clean_versioned = refl

abbrev llvm : DependencyRecord
llvm = record { pkgname = codes "llvm"; deps = codes "llvm-libs=23" ∷ []; provides = [] }

abbrev llvm_libs : DependencyRecord
llvm_libs = record {
  pkgname = codes "llvm-libs";
  deps = [];
  provides = codes "libLLVM.so=23-64" ∷ [];
}

abbrev records : List DependencyRecord
records = llvm ∷ llvm_libs ∷ []

-- What one record depends on is reached through it.
llvm-reaches : has (codes "llvm-libs") (reachable_packages records (codes "llvm>=20" ∷ [])) ≡ true
unfolding reachable_packages walk visit new_closure fill push_all clean_dep_name before trim
llvm-reaches = refl

reachable_packages-ends_example :
    walk
      (new_closure records)
      (length (codes "llvm" ∷ []) + total_deps records)
      (push_all (map clean_dep_name (codes "llvm" ∷ [])) [])
      []
      []
    ≡ some (reachable_packages records (codes "llvm" ∷ []))
reachable_packages-ends_example = reachable_packages-ends records (codes "llvm" ∷ [])

reachable_packages-IsPulled_example : IsPulled records (codes "llvm>=20" ∷ []) (codes "llvm-libs")
reachable_packages-IsPulled_example =
    reachable_packages-IsPulled records (codes "llvm>=20" ∷ []) (codes "llvm-libs") llvm-reaches

one_record : OneList (llvm_libs ∷ []) (codes "llvm-libs" ∷ [])
one_record r s (Memᴰ.head p) (Memᴰ.head q) e = rw (p, q) refl
one_record r s (Memᴰ.tail m) n e = absurd (Memᴰ.not-nil m)
one_record r s m (Memᴰ.tail n) e = absurd (Memᴰ.not-nil n)

libs-asked : has (codes "llvm-libs") (map clean_dep_name (codes "llvm-libs" ∷ [])) ≡ true
unfolding clean_dep_name trim
libs-asked = refl

libs-IsPulled : IsPulled (llvm_libs ∷ []) (codes "llvm-libs" ∷ []) (codes "llvm-libs")
libs-IsPulled = record {
  name = codes "llvm-libs";
  by = llvm_libs;
  wanted = asked libs-asked;
  answers = (Memᴰ.head refl, refl);
  named = refl;
}

reachable_packages_complete_example :
    has (codes "llvm-libs") (reachable_packages (llvm_libs ∷ []) (codes "llvm-libs" ∷ [])) ≡ true
reachable_packages_complete_example =
    reachable_packages_complete (llvm_libs ∷ []) (codes "llvm-libs" ∷ []) one_record
      (codes "llvm-libs") libs-IsPulled

abbrev pub output_of : ℕ → Text → Option Text → Package
output_of id name base = record {
  id = id;
  pkgname = name;
  pkgbase_name = base;
  metadata = some (some (codes "foo" ∷ []));
  skip_signal_scan = false;
  version = some (codes "1.0");
  pkgrel = some 1;
  bump = 0;
}

abbrev pub outputs : List Package
outputs = output_of 5 (codes "bar") none ∷ output_of 6 (codes "lib32-bar") (some (codes "bar")) ∷ []

abbrev before_update : List (ℕ × List Text)
before_update = (1, codes "libfoo.so.1" ∷ []) ∷ []

abbrev after_update : List (ℕ × List Text)
after_update = (1, codes "libfoo.so.2" ∷ []) ∷ []

abbrev providers : Nodes
providers =
    (codes "libfoo.so.2", codes "foo" ∷ []) ∷ (codes "libboost.so.1", codes "boost-libs" ∷ []) ∷ []

-- A removed package has no current version.
abbrev analyzed : List Text
analyzed = codes "1.8-1" ∷ codes "1.9-1" ∷ []

analyzed-HasEpoch : All HasEpoch (keep (older_than none) analyzed)
unfolding older_than split_arch_version epoch_number number includes split trim read_decimal
analyzed-HasEpoch = (refl, (refl, tt))

newest-picked : pick_baseline_version analyzed (codes "1.7-1") none ≡ some (codes "1.9-1")
unfolding pick_baseline_version older_than newest_from newer compare_arch_versions includes split
    trim read_decimal
newest-picked = refl
