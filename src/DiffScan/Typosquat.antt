-- ===== src/DiffScan/Typosquat.antt =====
-- Names that resemble an official package: `normalizePackageName`, `boundedEditDistance` and
-- `closestKnownName` of backend/src/diff-scan/typosquat.ts. A name is a list of code units, and the
-- set of known names a list. `toLowerCase` is that of ASCII, which package names are.
pub mod Edits
pub mod Rows
pub mod Bounded
pub mod Names
use chaotic_next.Base.{
  ℕ, zero, suc, ◌+◌, ◌-◌, ltb, leb, min, Bool, true, false, ◌||◌, Option, none, some, List, [], ◌∷◌,
  map, Text, text_eq, nat_eq, codes, length, take, drop, starts_with, ends_with, if◌then◌else◌,
  ◌==◌, get_elem?,
}
use chaotic_next.Base.Regex.{is_upper}

abbrev pub short_name_max_distance : ℕ
short_name_max_distance = 1

abbrev pub long_name_max_distance : ℕ
long_name_max_distance = 2

abbrev pub long_name_min_length : ℕ
long_name_min_length = 8

abbrev pub name_suffixes : List Text
name_suffixes = map codes ("-git" ∷ "-svn" ∷ "-hg" ∷ "-bzr" ∷ "-bin" ∷ [])

abbrev pub name_prefixes : List Text
name_prefixes = map codes ("lib32-" ∷ "lib64-" ∷ [])

pub record TyposquatMatch : Type 0 where
  pub known_name : Text
  pub distance : ℕ

-- `name.toLowerCase()` of one code unit.
abbrev pub lower : ℕ → ℕ
lower c = if is_upper c then c + 32 else c

-- The loop over the prefixes, which ends at the first one that fits.
unfoldable pub strip_prefix : List Text → Text → Text
unfolding starts_with
strip_prefix [] name = name
strip_prefix (prefix ∷ prefixes) name =
    if starts_with prefix name then drop (length prefix) name else strip_prefix prefixes name

-- One round of the loop over the suffixes: the shorter name, or nothing where none fits.
unfoldable pub strip_suffix : List Text → Text → Option Text
unfolding ends_with
strip_suffix [] name = none
strip_suffix (suffix ∷ suffixes) name =
    if ends_with suffix name
    then some (take (length name - length suffix) name)
    else strip_suffix suffixes name

-- `while (strippedSuffix)`: every round shortens the name, so its length is fuel enough.
unfoldable pub strip_suffixes : ℕ → Text → Text
unfolding strip_suffix
strip_suffixes zero name = name
strip_suffixes (suc fuel) name = elim (strip_suffix name_suffixes name) [
  | some shorter ↦ strip_suffixes fuel shorter
  | none ↦ name
]

unfoldable pub normalize_package_name : Text → Text
unfolding strip_prefix strip_suffixes
normalize_package_name name =
    let normalized = strip_prefix name_prefixes (map lower name) in
    strip_suffixes (suc (length normalized)) normalized

-- `Math.min` of the three ways to a cell, from the cells above, on the left and on the diagonal.
abbrev pub cell : ℕ → ℕ → ℕ → Bool → ℕ
cell above left diagonal same =
    min (min (above + 1) (left + 1)) (diagonal + (if same then 0 else 1))

-- The inner loop after its first cell: `left` is the last cell pushed, and the row before starts at
-- the diagonal.
unfoldable pub next_cells : ℕ → ℕ → List ℕ → Text → List ℕ
next_cells c left (diagonal ∷ above ∷ row) (d ∷ right) =
    let value = cell above left diagonal (c == d) in value ∷ next_cells c value (above ∷ row) right
next_cells c left row right = []

-- `rowMinimum`.
unfoldable pub minimum : ℕ → List ℕ → ℕ
minimum least [] = least
minimum least (value ∷ values) = minimum (min least value) values

-- The outer loop, or nothing where it returns early.
unfoldable pub fill_rows : ℕ → ℕ → Text → Text → List ℕ → Option (List ℕ)
unfolding next_cells minimum
fill_rows max_distance i [] right row = some row
fill_rows max_distance i (c ∷ left) right row =
    let cells = next_cells c i row right in
    let rest = fill_rows max_distance (suc i) left right (i ∷ cells) in
    if ltb max_distance (minimum i cells) then none else rest

-- The first row: `index` for each place of the right name, and one more.
unfoldable pub indices : ℕ → Text → List ℕ
indices index [] = index ∷ []
indices index (d ∷ right) = index ∷ indices (suc index) right

abbrev pub at_most : ℕ → Option ℕ → Option ℕ
at_most max_distance none = none
at_most max_distance (some distance) = if leb distance max_distance then some distance else none

abbrev pub last_cell : ℕ → ℕ → Option (List ℕ) → Option ℕ
last_cell max_distance place none = none
last_cell max_distance place (some row) = at_most max_distance (get_elem? row place)

-- `Math.abs(m - n)`.
abbrev pub difference : ℕ → ℕ → ℕ
difference m n = (m - n) + (n - m)

unfoldable pub bounded_edit_distance : Text → Text → ℕ → Option ℕ
unfolding fill_rows indices
bounded_edit_distance left right max_distance =
    if left == right
    then none
    else (if ltb max_distance (difference (length left) (length right))
        then none
        else last_cell max_distance (length right)
            (fill_rows max_distance 1 left right (indices 0 right)))

abbrev pub max_distance_for : Text → Text → ℕ
max_distance_for normalized known =
    if ltb (min (length normalized) (length known)) long_name_min_length
    then short_name_max_distance
    else long_name_max_distance

-- The distance of one known name, or nothing where the loop goes on without it.
unfoldable pub known_distance : Text → Text → Option ℕ
unfolding normalize_package_name bounded_edit_distance
known_distance normalized known_name =
    let known = normalize_package_name known_name in
    if known == normalized || length known == 0
    then none
    else bounded_edit_distance normalized known (max_distance_for normalized known)

-- `!best || best.distance > distance`.
unfoldable pub keep_closer : Option TyposquatMatch → Text → Option ℕ → Option TyposquatMatch
keep_closer best name none = best
keep_closer none name (some distance) = some (record { known_name = name; distance = distance })
keep_closer (some best) name (some distance) =
    if ltb distance best.distance
    then some (record { known_name = name; distance = distance })
    else some best

unfoldable pub closest_from : Text → Option TyposquatMatch → List Text → Option TyposquatMatch
unfolding known_distance keep_closer
closest_from normalized best [] = best
closest_from normalized best (name ∷ names) =
    closest_from normalized (keep_closer best name (known_distance normalized name)) names

unfoldable pub closest_known_name : Text → List Text → Option TyposquatMatch
unfolding closest_from
closest_known_name name known_names = closest_from (normalize_package_name name) none known_names
