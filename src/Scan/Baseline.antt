-- ===== src/Scan/Baseline.antt =====
-- `pickBaselineVersion` of backend/src/repo-manager/scan/baseline-version.ts. Its loop starts at
-- the first of the older versions and visits that one again.
pub mod Choice
use chaotic_next.Base.{
  Ordering, Bool, true, false, Option, none, some, List, [], ◌∷◌, Text, text_eq, has, keep,
  if◌then◌else◌,
}
use chaotic_next.Signal.Versions.{compare_arch_versions}
use chaotic_next.Signal.Latest.{newest_from}

-- `compareArchVersions(a, b) < 0`
unfoldable pub older : Text → Text → Bool
older a b = elim (compare_arch_versions a b) [ Ordering.lt ↦ true | _ ↦ false ]

unfoldable pub older_than : Option Text → Text → Bool
older_than none version = true
older_than (some current) version = older version current

abbrev newest_of_older : List Text → Option Text
newest_of_older [] = none
newest_of_older (first ∷ rest) = some (newest_from (λ v. v) first (first ∷ rest))

unfoldable pub pick_baseline_version : List Text → Text → Option Text → Option Text
unfolding older older_than newest_from
pick_baseline_version analyzed previous current =
    if has previous analyzed
    then some previous
    else newest_of_older (keep (older_than current) analyzed)
