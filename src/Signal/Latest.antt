-- ===== src/Signal/Latest.antt =====
-- `latestAnalysisByKey` of backend/src/repo-manager/signal/parse.ts: the newest row of each key.
pub mod Newest
use chaotic_next.Base.{
  Ordering, Bool, true, false, Option, none, some, List, [], ◌∷◌, Text, text_eq, if◌then◌else◌,
}
use chaotic_next.Base.Map.{get, put}
use chaotic_next.Signal.Versions.{compare_arch_versions}

-- `compareArchVersions(a, b) > 0`
unfoldable pub newer : Text → Text → Bool
newer a b = elim (compare_arch_versions a b) [ Ordering.gt ↦ true | _ ↦ false ]

-- The loop that keeps a strictly newer element.
unfoldable pub newest_from {ℓ} : {T : Type ℓ} → (T → Text) → T → List T → T
newest_from version newest [] = newest
newest_from version newest (row ∷ rows) =
    newest_from version (if newer (version row) (version newest) then row else newest) rows

module _ {ℓ} {T : Type ℓ} (version : T → Text) (key_of : T → Text) where
  abbrev keep_newer : T → Option T → List (Text × T) → List (Text × T)
  keep_newer row none latest = put (key_of row) row latest
  keep_newer row (some existing) latest =
      if newer (version row) (version existing) then put (key_of row) row latest else latest

  unfoldable pub latest_from : List (Text × T) → List T → List (Text × T)
  unfolding newer
  latest_from latest [] = latest
  latest_from latest (row ∷ rows) =
      latest_from (keep_newer row (get (key_of row) latest) latest) rows

  unfoldable pub latest_analysis_by_key : List T → List (Text × T)
  unfolding latest_from
  latest_analysis_by_key analyses = latest_from [] analyses
