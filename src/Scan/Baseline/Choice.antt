-- ===== src/Scan/Baseline/Choice.antt =====
-- What `pickBaselineVersion` chooses.
use mathlib.Core.List.{Memᴰ}
use mathlib.Core.Path.{subst}
use mathlib.Core.Option.{some-injective}
use chaotic_next.Base.{
  ◌≡◌, ◌↔◌, ◌⊎◌, inl, inr, true, false, Option, none, some, List, [], ◌∷◌, Text, text_eq, has, keep,
  All, arith, Bool-cases,
}
use chaotic_next.Signal.Versions.Order.{HasEpoch}
use chaotic_next.Signal.Latest.Newest.{IsNewest, newest_from-IsNewest}
use chaotic_next.Scan.Baseline.{older_than, newest_of_older, pick_baseline_version}

abbrev version : Text → Text
version v = v

newest_of_older-IsNewest :
    (vs : List Text) (v : Text)
    → All HasEpoch vs
    → newest_of_older vs ≡ some v
    → IsNewest version v vs
newest_of_older-IsNewest [] v h e = cc
newest_of_older-IsNewest (n ∷ vs) v (hn, hs) e = drop_first (
    subst (λ x. IsNewest version x (n ∷ n ∷ vs)) (some-injective _ _ e)
      (newest_from-IsNewest version n (n ∷ vs) hn (hn, hs)))
  where
    drop_first : IsNewest version v (n ∷ n ∷ vs) → IsNewest version v (n ∷ vs)
    drop_first (Memᴰ.head p, (_, best)) = (Memᴰ.head p, best)
    drop_first (Memᴰ.tail m, (_, best)) = (m, best)

-- The chosen baseline is the previous version if that was analyzed; otherwise it is an analyzed
-- version below the current one (any, for a removed package), and the newest such, where the
-- versions have numeric epochs.
pub pick_baseline_version_lem :
    (analyzed : List Text) (previous : Text) (current : Option Text) (v : Text)
    → All HasEpoch (keep (older_than current) analyzed)
    → pick_baseline_version analyzed previous current ≡ some v
    → ((has previous analyzed ≡ true) × (v ≡ previous))
      ⊎ ((has previous analyzed ≡ false) × IsNewest version v (keep (older_than current) analyzed))
unfolding pick_baseline_version
pick_baseline_version_lem analyzed previous current v h e =
    elim (Bool-cases (has previous analyzed)) [
      | inl known ↦ inl (known, ground arith)
      | inr missing ↦ inr (
        missing,
        newest_of_older-IsNewest (keep (older_than current) analyzed) v h (ground arith),
      )
    ]

-- There is no baseline exactly when the previous version was not analyzed and no analyzed version
-- is below the current one.
pub pick_baseline_version-none_iff :
    (analyzed : List Text) (previous : Text) (current : Option Text)
    → (pick_baseline_version analyzed previous current ≡ none)
      ↔ ((has previous analyzed ≡ false) × (keep (older_than current) analyzed ≡ []))
unfolding pick_baseline_version
pick_baseline_version-none_iff analyzed previous current = ground arith
