-- ===== src/Bump.antt =====
-- The bump configuration of a package, a text of `KEY=value` lines: `parseCiConfig`,
-- `applyBuilderClass` and `applyPackageBump` of backend/src/repo-manager/bump/bump-config.ts. A thrown
-- error is a result of its own; `null` and `undefined` are both `none`.
pub mod Lines
pub mod Counter
pub mod Raised
mod Tests
use chaotic_next.Base.{
  ℕ, zero, suc, ◌+◌, shift, Bool, true, false, ◌&&◌, not, Option, none, some, List, [], ◌∷◌, ◌++◌,
  Text, text_eq, codes, ◌==◌, length, take, drop, get_elem?, all, is_empty, is_digit, starts_with,
  ends_with, split, join, index_of, last_index_of, decimal, read_decimal, if◌then◌else◌, or_else,
}
use chaotic_next.Base.Map.{put}

-- `findIndex`, an assignment at an index, and `splice(i, 0, x)`.
module _ {ℓ} {A : Type ℓ} where
  unfoldable pub find_index : (A → Bool) → List A → Option ℕ
  find_index p [] = none
  find_index p (x ∷ xs) = if p x then some 0 else shift (find_index p xs)

  unfoldable pub set : List A → ℕ → A → List A
  set [] i v = []
  set (x ∷ xs) zero v = v ∷ xs
  set (x ∷ xs) (suc i) v = x ∷ set xs i v

  unfoldable pub insert_at : List A → ℕ → A → List A
  insert_at xs zero v = v ∷ xs
  insert_at [] (suc i) v = v ∷ []
  insert_at (x ∷ xs) (suc i) v = x ∷ insert_at xs i v

abbrev pub bump_key : Text
bump_key = codes "CI_PACKAGE_BUMP"

abbrev pub trigger_key : Text
trigger_key = codes "CI_REBUILD_TRIGGERS"

abbrev pub builder_class_key : Text
builder_class_key = codes "BUILDER_CLASS"

abbrev pub source_key : Text
source_key = codes "CI_PKGBUILD_SOURCE"

-- The keys and values of the lines that have a `=`; a later line overrides an earlier one.
abbrev config_entry : Text → Option ℕ → List (Text × Text) → List (Text × Text)
config_entry line none configs = configs
config_entry line (some separator) configs =
    put (take separator line) (drop (suc separator) line) configs

unfoldable pub config_from : List Text → List (Text × Text) → List (Text × Text)
config_from [] configs = configs
config_from (line ∷ lines) configs =
    config_from lines (config_entry line (index_of (codes "=") line) configs)

unfoldable pub parse_ci_config : Text → List (Text × Text)
unfolding config_from
parse_ci_config config_text = config_from (split b'\n' config_text) []

abbrev pub has_key : Text → Text → Bool
has_key key line = starts_with (key ++ codes "=") line

-- A line at the end of a text.
abbrev pub append_line : Text → Text → Text
append_line config_text line =
    let prefix =
      if is_empty config_text
      then config_text
      else (if ends_with (codes "\n") config_text
          then config_text
          else config_text ++ codes "\n") in
    prefix ++ (line ++ codes "\n")

abbrev pub join_lines : List Text → Text
join_lines lines = join (codes "\n") lines

abbrev class_at : Text → List Text → Text → Option ℕ → Text
class_at config_text lines class_line (some idx) = join_lines (set lines idx class_line)
class_at config_text lines class_line none = append_line config_text class_line

unfoldable pub apply_builder_class : Text → ℕ → Text
unfolding find_index set
apply_builder_class config_text build_class =
    let lines = split b'\n' config_text in
    let class_line = builder_class_key ++ (codes "=" ++ decimal build_class) in
    class_at config_text lines class_line (find_index (has_key builder_class_key) lines)

-- `/^\d+$/`.
abbrev pub is_number : Text → Bool
is_number s = not (is_empty s) && all is_digit s

-- The text after `CI_PACKAGE_BUMP=`.
abbrev pub bump_value : Text → Text
bump_value bump_line = drop (suc (length bump_key)) bump_line

abbrev pub bump_line_of : Text → ℕ → Text
bump_line_of base counter = bump_key ++ (codes "=" ++ (base ++ (codes "/" ++ decimal counter)))

abbrev counter_after : Text → Option ℕ → Text
counter_after value none = bump_line_of value 1
counter_after value (some slash) =
    let counter = drop (suc slash) value in
    bump_line_of (take slash value) (if is_number counter then read_decimal counter + 1 else 1)

unfoldable pub bump_counter : Text → Text
bump_counter bump_line =
    counter_after (bump_value bump_line) (last_index_of b'/' (bump_value bump_line))

abbrev count_after : Text → Text → Option ℕ → ℕ
count_after value new_base none = 1
count_after value new_base (some slash) =
    let counter = drop (suc slash) value in
    if take slash value == new_base && is_number counter then read_decimal counter + 1 else 1

unfoldable pub next_bump_count : Text → Text → ℕ
next_bump_count bump_line new_base =
    count_after (bump_value bump_line) new_base (last_index_of b'/' (bump_value bump_line))

pub data BumpResult : Type 0 where
  ok : Text → BumpResult
  unknown_version : BumpResult

-- `${version}-${pkgrel}`.
abbrev pub base_of : Text → ℕ → Text
base_of version pkgrel = version ++ (codes "-" ++ decimal pkgrel)

-- The line at an index rewritten: with a version, for the new base, else with its own base.
abbrev pub rewrite_line : Option Text → Option ℕ → Text → Text
rewrite_line (some version) (some pkgrel) line =
    bump_line_of (base_of version pkgrel) (next_bump_count line (base_of version pkgrel))
rewrite_line none pkgrel line = bump_counter line
rewrite_line (some version) none line = bump_counter line

-- Where there is no such line: above the triggers, else above the source, else at the end.
abbrev pub insert_line : Text → List Text → Text → Option ℕ → Option ℕ → Text
insert_line config_text lines bump_line (some trigger) source =
    join_lines (insert_at lines trigger bump_line)
insert_line config_text lines bump_line none (some source) =
    join_lines (insert_at lines source bump_line)
insert_line config_text lines bump_line none none = append_line config_text bump_line

abbrev pub new_line : Text → List Text → Option Text → Option ℕ → BumpResult
new_line config_text lines (some version) (some pkgrel) = ok (
    insert_line config_text lines (bump_line_of (base_of version pkgrel) 1)
      (find_index (has_key trigger_key) lines) (find_index (has_key source_key) lines))
new_line config_text lines none pkgrel = unknown_version
new_line config_text lines (some version) none = unknown_version

abbrev pub bump_at : Text → List Text → Option Text → Option ℕ → Option ℕ → BumpResult
bump_at config_text lines version pkgrel (some idx) =
    ok (join_lines (set lines idx (rewrite_line version pkgrel (or_else (get_elem? lines idx) []))))
bump_at config_text lines version pkgrel none = new_line config_text lines version pkgrel

unfoldable pub apply_package_bump : Text → Option Text → Option ℕ → BumpResult
unfolding find_index set insert_at bump_counter next_bump_count
apply_package_bump config_text version pkgrel =
    let lines = split b'\n' config_text in
    bump_at config_text lines version pkgrel (find_index (has_key bump_key) lines)
