-- ===== src/Signal/Paths.antt =====
-- The path helpers of backend/src/repo-manager/signal/parse.ts, and the two listings of an archive
-- that need no pattern.
pub mod Parts
use chaotic_next.Base.{
  ℕ, suc, ◌+◌, Bool, true, false, not, ◌&&◌, ◌||◌, Option, none, some, List, [], ◌∷◌, ◌++◌, map,
  Text, codes, ends_with, includes, last_index_of, split, trim, length, take, drop, keep, get_elem?,
  nat_beq, ltb, if◌then◌else◌, ◌==◌, text_eq,
}

unfoldable pub parse_file_list : Text → List Text
unfolding split trim ends_with
parse_file_list output =
    keep (λ line. ltb 0 (length line) && not (ends_with (codes "/") line))
      (map trim (split 10 output))

-- `mode[i] === c`, false out of range.
abbrev char_is : Text → ℕ → ℕ → Bool
char_is mode i c = elim (get_elem? mode i) [ none ↦ false | some d ↦ nat_beq d c ]

unfoldable pub is_executable_regular_file : Text → Bool
is_executable_regular_file mode =
    if not (nat_beq (length mode) 10) || not (char_is mode 0 b'-')
    then false
    else char_is mode 3 b'x'
      || char_is mode 3 b's'
      || char_is mode 6 b'x'
      || char_is mode 6 b's'
      || char_is mode 9 b'x'
      || char_is mode 9 b's'

unfoldable pub parent_directory : Text → Option Text
unfolding last_index_of
parent_directory path = elim (last_index_of b'/' path) [ none ↦ none | some i ↦ some (take i path) ]

unfoldable pub soname_basename : Text → Text
unfolding last_index_of
soname_basename soname = elim (last_index_of b'/' soname) [
  | none ↦ soname
  | some i ↦ drop (suc i) soname
]

-- `parts.pop()`, and the loop over the parts that are left.
abbrev pub pop : List Text → List Text
pop [] = []
pop (part ∷ []) = []
pop (part ∷ next ∷ parts) = part ∷ pop (next ∷ parts)

unfoldable pub directories_from : Text → List Text → List Text
directories_from acc [] = []
directories_from acc (part ∷ parts) =
    let next = if acc == [] then part else acc ++ b'/' ∷ part in next ∷ directories_from next parts

unfoldable pub ancestor_directories : Text → List Text
unfolding split directories_from
ancestor_directories path = directories_from [] (pop (split b'/' path))

unfoldable pub is_elf_shared_object : Text → Bool
unfolding ends_with includes
is_elf_shared_object path = ends_with (codes ".so") path || includes (codes ".so.") path
