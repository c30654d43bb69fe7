-- ===== src/DiffScan/DiffTests.antt =====
-- Runs of the diff helpers at concrete inputs.
use chaotic_next.Base.{
  nat_eq, ◌≡◌, ◌+◌, refl, true, false, codes, [], ◌∷◌, Text, split, join, starts_with, ends_with,
  read_decimal, trim, is_space, last_index_of, includes, get_elem?, flat_map, trim_start,
}
use chaotic_next.Base.Map.{get}
use chaotic_next.Base.Regex.{exec_group}
use chaotic_next.Base.Splits.{Without-check}
use chaotic_next.DiffScan.Hunks.{
  added_lines, removed_line_texts, visible_file_lines, hunk_start, walk_hunks, added, removed,
  context,
}
use chaotic_next.DiffScan.Hunks.Printed.{
  Hunk, IsHunk, print_diff, number_lines, new_side, walk_hunks-print_diff,
  visible_file_lines-new_side,
}
use chaotic_next.DiffScan.Heredocs.{mask_echo_heredocs}
use chaotic_next.DiffScan.Heredocs.Masks.{AreMasked, mask_echo_heredocs-AreMasked}
use chaotic_next.DiffScan.Scopes.{
  has_binary_extension, is_in_scope, pkgbuild, install, code, has_binary_content, is_comment_line,
  file_extension,
}

abbrev small_diff : Text
small_diff = codes "--- a\n@@ -1,2 +7 @@ f\n a\n-b\n+c\n\\ No newline\n"

added_lines-small : added_lines small_diff ≡ record { line = 8; text = codes "c" } ∷ []
unfolding added_lines split starts_with read_decimal
added_lines-small = refl

visible_file_lines-small : visible_file_lines small_diff ≡ (7, codes "a") ∷ (8, codes "c") ∷ []
unfolding visible_file_lines split starts_with read_decimal
visible_file_lines-small = refl

removed_line_texts-small : removed_line_texts small_diff ≡ codes "b" ∷ []
unfolding removed_line_texts split starts_with read_decimal
removed_line_texts-small = refl

mask_echo_heredocs-small :
    mask_echo_heredocs (codes "+cat <<EOF\n+rm it\n b\n+EOF\n+ls")
    ≡ codes "+cat <<EOF\n+\n b\n+EOF\n+ls"
unfolding mask_echo_heredocs split join starts_with trim is_space exec_group
mask_echo_heredocs-small = refl

has_binary_extension-library : has_binary_extension (codes "a.d/lib.SO") ≡ true
unfolding has_binary_extension last_index_of
has_binary_extension-library = refl

file_extension_hidden : file_extension (codes "a/.gz") ≡ []
unfolding file_extension last_index_of
file_extension_hidden = refl

is_in_scope-pkgbuild : is_in_scope (codes "foo/PKGBUILD") (install ∷ pkgbuild ∷ []) ≡ true
unfolding is_in_scope last_index_of ends_with
is_in_scope-pkgbuild = refl

is_in_scope_documentation : is_in_scope (codes "README.Md") (code ∷ []) ≡ false
unfolding is_in_scope ends_with
is_in_scope_documentation = refl

has_binary_content-note : has_binary_content (codes "x\nBinary files a and b differ\ny") ≡ true
unfolding has_binary_content includes starts_with ends_with
has_binary_content-note = refl

is_comment_line_indented : is_comment_line (codes "  # x") ≡ true
unfolding is_comment_line trim_start starts_with
is_comment_line_indented = refl

abbrev hunk : Hunk
hunk = record {
  header = codes "@@ -1 +7,2 @@";
  start = 7;
  lines = (context, codes "a") ∷ (removed, codes "b") ∷ (added, codes "c") ∷ [];
}

hunk-IsHunk : IsHunk hunk
unfolding hunk_start starts_with read_decimal
hunk-IsHunk = record {
  numbered = refl;
  header_whole = Without-check b'\n' (codes "@@ -1 +7,2 @@") refl;
  lines_whole = ((refl, tt), ((refl, tt), ((refl, tt), tt)));
}

walk_hunks-print_diff_example :
    walk_hunks (print_diff (hunk ∷ hunk ∷ []))
    ≡ flat_map (λ (h : Hunk). number_lines h.start h.lines) (hunk ∷ hunk ∷ [])
walk_hunks-print_diff_example =
    walk_hunks-print_diff (hunk ∷ hunk ∷ []) (hunk-IsHunk, (hunk-IsHunk, tt))

visible_file_lines-new_side_example :
    get (7 + 1) (visible_file_lines (print_diff (hunk ∷ []))) ≡ get_elem? (new_side hunk.lines) 1
visible_file_lines-new_side_example = visible_file_lines-new_side hunk 1 hunk-IsHunk

mask_echo_heredocs-AreMasked_example :
    AreMasked
      (split b'\n' (codes "+cat <<EOF\n+rm it\n+EOF"))
      (split b'\n' (mask_echo_heredocs (codes "+cat <<EOF\n+rm it\n+EOF")))
mask_echo_heredocs-AreMasked_example =
    mask_echo_heredocs-AreMasked (codes "+cat <<EOF\n+rm it\n+EOF")
