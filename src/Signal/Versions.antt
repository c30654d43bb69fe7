-- ===== src/Signal/Versions.antt =====
-- Pacman release versions: `releaseVersion`, `splitArchVersion`, `compareSegments` and
-- `compareArchVersions` of backend/src/repo-manager/signal/parse.ts, `parsePkgrel` and
-- `formatPkgrel` of shared-lib/src/lib/pkgrel.ts. The results -1, 0 and 1 are `lt`, `eq` and `gt`.
-- Numbers are exact (the source's are, below 2 ^ 53), and `none` stands for NaN.
pub mod Tokens
pub mod Epochs
pub mod Order
pub mod Pkgrel
use mathlib.Core.List.{head?}
use chaotic_next.Base.{
  ℕ, zero, suc, ◌+◌, ◌*◌, Ordering, compare, Bool, true, false, ◌&&◌, Option, none, some, List, [],
  ◌∷◌, ◌++◌, Text, codes, includes, split, trim, trim_start, is_digit, digit_value, decimal,
  read_decimal, length, get_elem?, all, drop, ltb, if◌then◌else◌, or_else, text_eq, ◌==◌,
}
use chaotic_next.Base.Number.{Number, from, fraction, compare_numbers, number}

pub record Release : Type 0 where
  pub version : Option Text
  pub pkgrel : Option ℕ
  pub bump : Option ℕ

unfoldable pub format_pkgrel : ℕ → ℕ → Text
format_pkgrel pkgrel bump =
    if ltb 0 bump then decimal pkgrel ++ (codes "." ++ decimal bump) else decimal pkgrel

-- `Number.parseInt(raw, 10)`: the leading digits, `none` (NaN) where there are none.
unfoldable pub digit_run : Text → Text
digit_run [] = []
digit_run (c ∷ s) = if is_digit c then c ∷ digit_run s else []

unfoldable pub parse_int : Text → Option ℕ
unfolding digit_run
parse_int raw =
    let run = digit_run (trim_start raw) in if run == [] then none else some (read_decimal run)

unfoldable pub parse_pkgrel : Text → ℕ × ℕ
parse_pkgrel raw =
    let parts = split b'.' raw in
    let pkgrel = parse_int (or_else (get_elem? parts 0) (codes "0")) in
    let bump = parse_int (or_else (get_elem? parts 1) (codes "0")) in
    (or_else pkgrel 0, or_else bump 0)

abbrev release_text : Text → Option ℕ → Option ℕ → Text
release_text version pkgrel bump =
    version ++ (codes "-" ++ format_pkgrel (or_else pkgrel 0) (or_else bump 0))

unfoldable pub release_version : Release → Option Text
release_version pkg = elim (pkg.version) [
  | none ↦ none
  | some version ↦ if version == [] then none else some (release_text version pkg.pkgrel pkg.bump)
]

pub record ArchVersion : Type 0 where
  pub epoch : Text
  pub version : Text
  pub pkgrel : Text

-- `const [first, second] = s.includes(c) ? s.split(c) : …` keeps two parts of the split.
abbrev part : ℕ → List Text → Text
part i parts = or_else (get_elem? parts i) []

unfoldable pub split_arch_version : Text → ArchVersion
split_arch_version version =
    let halves = split b'-' version in
    let dashed = includes (codes "-") version in
    let epoch_and_rest = if dashed then part 0 halves else version in
    let pkgrel = if dashed then part 1 halves else [] in
    let pieces = split b':' epoch_and_rest in
    let coloned = includes (codes ":") epoch_and_rest in
    record {
      epoch = if coloned then part 0 pieces else [];
      version = if coloned then part 1 pieces else epoch_and_rest;
      pkgrel = pkgrel;
    }

abbrev pub starts_digit : Text → Bool
starts_digit [] = false
starts_digit (c ∷ s) = is_digit c

-- `na = na * 10 + Number(a[i])` over a run of digits, and the text behind the run.
unfoldable pub run_value : ℕ → Text → ℕ
run_value acc [] = acc
run_value acc (c ∷ s) =
    let rest = run_value (acc * 10 + digit_value c) s in if is_digit c then rest else acc

unfoldable pub skip_run : Text → Text
skip_run [] = []
skip_run (c ∷ s) = if is_digit c then skip_run s else c ∷ s

-- The comparison of two one-character texts, where the end of the text is the empty text.
abbrev pub compare_heads : Text → Text → Ordering
compare_heads [] [] = Ordering.eq
compare_heads [] (d ∷ t) = Ordering.lt
compare_heads (c ∷ s) [] = Ordering.gt
compare_heads (c ∷ s) (d ∷ t) = compare c d

-- `if (x !== 0) return x;`
abbrev pub then_by : Ordering → Ordering → Ordering
then_by Ordering.eq next = next
then_by first _ = first

-- The loop of `compareSegments`, on the texts that are left.
unfoldable pub segments_from : ℕ → Text → Text → Ordering
segments_from zero a b = Ordering.eq
segments_from (suc f) [] [] = Ordering.eq
segments_from (suc f) a b = elim (starts_digit a) [
  | false ↦ elim (starts_digit b) [
    | false ↦ elim (compare_heads a b) [
      | Ordering.lt ↦ Ordering.lt
      | Ordering.gt ↦ Ordering.gt
      | Ordering.eq ↦ segments_from f (drop 1 a) (drop 1 b)
    ]
    | true ↦ Ordering.lt
  ]
  | true ↦ elim (starts_digit b) [
    | false ↦ Ordering.gt
    | true ↦ elim (compare (run_value 0 a) (run_value 0 b)) [
      | Ordering.lt ↦ Ordering.lt
      | Ordering.gt ↦ Ordering.gt
      | Ordering.eq ↦ segments_from f (skip_run a) (skip_run b)
    ]
  ]
]

unfoldable pub compare_segments : Text → Text → Ordering
unfolding segments_from run_value skip_run
compare_segments a b = segments_from (length a + length b) a b

unfoldable pub epoch_number : Text → Option Number
unfolding number
epoch_number epoch = if epoch == [] then some (from (fraction 0 0)) else number epoch

-- NaN differs from every number and is not above any.
abbrev pub compare_epochs : Option Number → Option Number → Ordering
compare_epochs (some a) (some b) = compare_numbers a b
compare_epochs _ _ = Ordering.lt

compare_parts : ArchVersion → ArchVersion → Ordering
compare_parts pa pb =
    then_by (compare_epochs (epoch_number pa.epoch) (epoch_number pb.epoch))
      (then_by (compare_segments pa.version pb.version) (compare_segments pa.pkgrel pb.pkgrel))

unfoldable pub compare_arch_versions : Text → Text → Ordering
unfolding compare_parts compare_segments split_arch_version epoch_number
compare_arch_versions a b = compare_parts (split_arch_version a) (split_arch_version b)
