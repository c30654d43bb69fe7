-- ===== src/DiffScan/Hunks.antt =====
-- The lines of a unified diff: `walkHunks`, `addedLines`, `visibleFileLines` and `removedLineTexts` of
-- backend/src/diff-scan/rules/diff-utils.ts.
pub mod Printed
use chaotic_next.Base.{
  ℕ, suc, ◌+◌, Bool, true, false, not, Option, none, some, List, [], ◌∷◌, Text, text_eq, codes,
  ◌==◌, nat_eq, length, drop, ◌++◌, keep, map, is_empty, is_digit, starts_with, split, read_decimal,
  if◌then◌else◌,
}
use chaotic_next.Base.Map.{put}

-- `HUNK_HEADER`, `/^@@ -\d+(?:,\d+)? \+(\d+)(?:,\d+)? @@/`, read from left to right: no part of it can
-- be matched in two ways. Each step gives what follows it.
abbrev pub after : Text → Text → Option Text
after prefix s = if starts_with prefix s then some (drop (length prefix) s) else none

unfoldable pub digits_of : Text → Text
digits_of [] = []
digits_of (c ∷ s) = if is_digit c then c ∷ digits_of s else []

-- `\d+`, with the digits.
abbrev pub digits_and_rest : Text → Option (Text × Text)
digits_and_rest s =
    let digits = digits_of s in
    if is_empty digits then none else some (digits, drop (length digits) s)

-- `(?:,\d+)?`.
abbrev pub skip_count : Text → Text
skip_count s = elim (after (codes ",") s) [
  | none ↦ s
  | some rest ↦ elim (digits_and_rest rest) [ none ↦ s | some (digits, next) ↦ next ]
]

infixl 5 ◌>>=◌
abbrev ◌>>=◌ {ℓ κ} : {A : Type ℓ} {B : Type κ} → Option A → (A → Option B) → Option B
none >>= f = none
some x >>= f = f x

-- `Number.parseInt(hunk[1], 10)`, where the line is a header.
unfoldable pub hunk_start : Text → Option ℕ
unfolding digits_of
hunk_start raw = do
  old ← after (codes "@@ -") raw
  (old_start, rest) ← digits_and_rest old
  new ← after (codes " +") (skip_count rest)
  (start, next) ← digits_and_rest new
  end ← after (codes " @@") (skip_count next)
  some (read_decimal start)

pub data Kind : Type 0 where
  added context removed : Kind

pub record WalkedLine : Type 0 where
  pub kind : Kind
  pub text : Text
  pub new_line_number : ℕ

-- `newLineNumber`, where a hunk has begun.
abbrev pub Position : Type 0
Position = Option ℕ

abbrev pub line_at : Kind → Text → ℕ → WalkedLine
line_at kind text number = record { kind = kind; text = text; new_line_number = number }

-- One line in a hunk: what it adds to the result, and the number of the next line.
unfoldable pub walk_line : Text → ℕ → List WalkedLine × ℕ
walk_line [] number = ([], number)
walk_line (c ∷ text) number =
    if c == b'+'
    then (line_at added text number ∷ [], suc number)
    else (if c == b'-'
        then (line_at removed text number ∷ [], number)
        else (if c == b'\\' then ([], number) else (line_at context text number ∷ [], suc number)))

abbrev pub walk_in : Option ℕ → Text → Position → List WalkedLine × Position
walk_in (some start) raw position = ([], some start)
walk_in none raw none = ([], none)
walk_in none raw (some number) = let (lines, next) = walk_line raw number in (lines, some next)

unfoldable pub walk_from : Position → List Text → List WalkedLine
unfolding hunk_start walk_line
walk_from position [] = []
walk_from position (raw ∷ raws) =
    let (lines, next) = walk_in (hunk_start raw) raw position in lines ++ walk_from next raws

unfoldable pub walk_hunks : Text → List WalkedLine
unfolding walk_from
walk_hunks diff = walk_from none (split b'\n' diff)

pub record AddedLine : Type 0 where
  pub line : ℕ
  pub text : Text

abbrev pub is_added : Kind → Bool
is_added added = true
is_added _ = false

abbrev pub is_removal : Kind → Bool
is_removal removed = true
is_removal _ = false

unfoldable pub added_lines : Text → List AddedLine
unfolding walk_hunks
added_lines diff =
    map (λ (l : WalkedLine). record { line = l.new_line_number; text = l.text })
      (keep (λ (l : WalkedLine). is_added l.kind) (walk_hunks diff))

-- `new Map(…)` of the pairs, in order.
unfoldable pub map_lines : List WalkedLine → List (ℕ × Text) → List (ℕ × Text)
map_lines [] lines = lines
map_lines (l ∷ rest) lines = map_lines rest (put l.new_line_number l.text lines)

unfoldable pub visible_file_lines : Text → List (ℕ × Text)
unfolding walk_hunks map_lines
visible_file_lines diff =
    map_lines (keep (λ (l : WalkedLine). not (is_removal l.kind)) (walk_hunks diff)) []

unfoldable pub removed_line_texts : Text → List Text
unfolding walk_hunks
removed_line_texts diff =
    map (λ (l : WalkedLine). l.text)
      (keep (λ (l : WalkedLine). is_removal l.kind) (walk_hunks diff))
