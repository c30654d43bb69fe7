-- ===== src/DiffScan/Heredocs.antt =====
-- Heredocs that only print: `maskEchoHeredocs` of backend/src/diff-scan/rules/diff-utils.ts.
pub mod Masks
use chaotic_next.Base.{
  ℕ, Bool, true, false, not, ◌&&◌, ◌||◌, Option, none, some, List, [], ◌∷◌, Text, text_eq, codes,
  ◌==◌, nat_eq, starts_with, split, join, trim, if◌then◌else◌,
}
use chaotic_next.Base.Regex.{
  Re, either, star, one, opt, group, lit, start, end, optional_spaces, is_lower, is_upper, is_word,
  ◌⋅◌, exec_group,
}

-- `['"]?`.
abbrev quote : Re
quote = opt (one (λ c. c == b'\'' || c == b'"'))

-- `ECHO_HEREDOC_START`.
abbrev echo_heredoc_start : Re
echo_heredoc_start =
    start
    ⋅ optional_spaces
    ⋅ lit (codes "cat")
    ⋅ optional_spaces
    ⋅ lit (codes "<<")
    ⋅ opt (lit (codes "-"))
    ⋅ optional_spaces
    ⋅ quote
    ⋅ group 1 (one (λ c. is_lower c || is_upper c || c == b'_') ⋅ star (one is_word))
    ⋅ quote
    ⋅ optional_spaces
    ⋅ end

-- An added line, which is no file header.
abbrev pub is_added_line : Text → Bool
is_added_line raw = starts_with (codes "+") raw && not (starts_with (codes "+++") raw)

-- The content of an added line: what is put in its place, and the terminator that is waited for then.
unfoldable pub mask_content : Option Text → Text → Text × Option Text
mask_content (some terminator) content =
    if trim content == terminator then (b'+' ∷ content, none) else (codes "+", some terminator)
mask_content none content = (b'+' ∷ content, exec_group 1 echo_heredoc_start content)

unfoldable pub mask_line : Option Text → Text → Text × Option Text
unfolding mask_content
mask_line terminator [] = ([], terminator)
mask_line terminator (c ∷ content) =
    if is_added_line (c ∷ content)
    then mask_content terminator content
    else (c ∷ content, terminator)

unfoldable pub mask_lines : Option Text → List Text → List Text
unfolding mask_line
mask_lines terminator [] = []
mask_lines terminator (raw ∷ raws) =
    let (masked, next) = mask_line terminator raw in masked ∷ mask_lines next raws

unfoldable pub mask_echo_heredocs : Text → Text
unfolding mask_lines
mask_echo_heredocs diff = join (codes "\n") (mask_lines none (split b'\n' diff))
