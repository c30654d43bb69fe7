-- ===== src/Signal/Tests.antt =====
-- Runs of the signal definitions at concrete inputs.
use chaotic_next.Base.{
  ℕ, ◌≡◌, ◌≢◌, ◌↔◌, refl, sym, ◌∙◌, nat_eq, includes, split, trim, read_decimal, some, List, [],
  ◌∷◌, Text, codes, text_eq, Ordering, map, none,
}
use chaotic_next.Base.Map.{get}
use chaotic_next.Base.Number.{
  below, from, fraction, infinity, number, read_digits, decimal_literal, leading_digits,
}
use chaotic_next.Signal.Versions.{
  compare_segments, then_by, compare_arch_versions, split_arch_version, epoch_number,
}
use chaotic_next.Signal.Versions.Tokens.{tokens, compare_tokens, compare_segments-tokens}
use chaotic_next.Signal.Versions.Order.{
  HasEpoch, compare_arch_versions-self_iff, compare_arch_versions-chain,
}
use chaotic_next.Signal.Latest.{newer, latest_analysis_by_key}
use chaotic_next.Signal.Latest.Newest.{IsNewest, under, latest_analysis_by_key-IsNewest}
use chaotic_next.Signal.Owners.{arch}
use chaotic_next.Signal.Owners.Keys.{encode_owner_key-injective}

-- An epoch counts, and 10 is above 9.
compare_epoch : compare_arch_versions (codes "1:1.0-1") (codes "2.0-1") ≡ Ordering.gt
unfolding compare_arch_versions includes split trim read_decimal
compare_epoch = refl

compare_ten : compare_arch_versions (codes "1.9-1") (codes "1.10-1") ≡ Ordering.lt
unfolding compare_arch_versions includes split trim read_decimal
compare_ten = refl

compare_one : compare_arch_versions (codes "1.10-1") (codes "1:1-1") ≡ Ordering.lt
unfolding compare_arch_versions includes split trim read_decimal
compare_one = refl

-- A version whose epoch is no number is below itself.
compare_no_epoch : compare_arch_versions (codes "x:1-1") (codes "x:1-1") ≡ Ordering.lt
unfolding compare_arch_versions includes split trim read_decimal
compare_no_epoch = refl

-- What `Number` reads, and what it does not.
numbers_read :
    map number (
      codes " 12 "
      ∷ codes "1.5"
      ∷ codes ".5e-1"
      ∷ codes "5."
      ∷ codes "-2E3"
      ∷ codes "-0"
      ∷ codes "0x1F"
      ∷ codes "0b11"
      ∷ codes "+Infinity"
      ∷ codes " "
      ∷ [])
    ≡ some (from (fraction 12 0))
      ∷ some (from (fraction 15 1))
      ∷ some (from (fraction 5 2))
      ∷ some (from (fraction 5 0))
      ∷ some (below (fraction 2000 0))
      ∷ some (from (fraction 0 0))
      ∷ some (from (fraction 31 0))
      ∷ some (from (fraction 3 0))
      ∷ some (from infinity)
      ∷ some (from (fraction 0 0))
      ∷ []
unfolding number read_digits decimal_literal leading_digits trim read_decimal
numbers_read = refl

numbers_refused :
    map number (
      codes "x"
      ∷ codes "1_0"
      ∷ codes "0x"
      ∷ codes "-0x1"
      ∷ codes "."
      ∷ codes "1e"
      ∷ codes "1 2"
      ∷ codes "++1"
      ∷ codes "infinity"
      ∷ [])
    ≡ none ∷ none ∷ none ∷ none ∷ none ∷ none ∷ none ∷ none ∷ none ∷ []
unfolding number read_digits decimal_literal leading_digits trim read_decimal
numbers_refused = refl

-- 1.50 and 1.5 are one epoch.
compare_points : compare_arch_versions (codes "1.50:2-1") (codes "1.5:1-1") ≡ Ordering.gt
unfolding compare_arch_versions includes split trim read_decimal read_digits decimal_literal
    leading_digits
compare_points = refl

compare_segments-tokens_example :
    compare_segments (codes "1.9a") (codes "1.10")
    ≡ compare_tokens (tokens (codes "1.9a")) (tokens (codes "1.10"))
compare_segments-tokens_example = compare_segments-tokens (codes "1.9a") (codes "1.10")

HasEpoch-nine : HasEpoch (codes "1.9-1")
unfolding split_arch_version epoch_number number includes split trim read_decimal
HasEpoch-nine = refl

HasEpoch-ten : HasEpoch (codes "1.10-1")
unfolding split_arch_version epoch_number number includes split trim read_decimal
HasEpoch-ten = refl

HasEpoch-one : HasEpoch (codes "1:1-1")
unfolding split_arch_version epoch_number number includes split trim read_decimal
HasEpoch-one = refl

below_ten : compare_arch_versions (codes "1.9-1") (codes "1.10-1") ≢ Ordering.gt
below_ten = λ p. let q : Ordering.lt ≡ Ordering.gt = sym compare_ten ∙ p in cc

below_one : compare_arch_versions (codes "1.10-1") (codes "1:1-1") ≢ Ordering.gt
below_one = λ p. let q : Ordering.lt ≡ Ordering.gt = sym compare_one ∙ p in cc

compare_arch_versions-chain_example :
    compare_arch_versions (codes "1.9-1") (codes "1:1-1")
    ≡ then_by
        (compare_arch_versions (codes "1.9-1") (codes "1.10-1"))
        (compare_arch_versions (codes "1.10-1") (codes "1:1-1"))
compare_arch_versions-chain_example =
    compare_arch_versions-chain (codes "1.9-1") (codes "1.10-1") (codes "1:1-1") HasEpoch-nine
      HasEpoch-ten HasEpoch-one below_ten below_one

compare_arch_versions-self_iff_example :
    (compare_arch_versions (codes "1.9-1") (codes "1.9-1") ≡ Ordering.eq) ↔ HasEpoch (codes "1.9-1")
compare_arch_versions-self_iff_example = compare_arch_versions-self_iff (codes "1.9-1")

abbrev row_key : Text → Text
row_key row = codes "k"

abbrev two_rows : List Text
two_rows = codes "1.10-1" ∷ codes "1.9-1" ∷ []

two_rows-found :
    get (codes "k") (latest_analysis_by_key (λ v. v) row_key two_rows) ≡ some (codes "1.10-1")
unfolding latest_analysis_by_key newer compare_arch_versions includes split trim read_decimal
two_rows-found = refl

latest_analysis_by_key-IsNewest_example :
    IsNewest (λ v. v) (codes "1.10-1") (under (λ v. v) row_key (codes "k") two_rows)
latest_analysis_by_key-IsNewest_example =
    latest_analysis_by_key-IsNewest (λ v. v) row_key (codes "k") two_rows (codes "1.10-1")
      (HasEpoch-ten, (HasEpoch-nine, tt)) two_rows-found

abbrev seven : ℕ
seven = 7

encode_owner_key-injective_example : (arch ≡ arch) × (seven ≡ seven)
encode_owner_key-injective_example = encode_owner_key-injective arch arch seven seven refl
