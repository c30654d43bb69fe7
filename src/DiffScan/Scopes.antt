-- ===== src/DiffScan/Scopes.antt =====
-- Which files a rule looks at: the scopes and the extension sets of
-- backend/src/diff-scan/rules/diff-utils.ts. `posix.basename` and `posix.extname` are those of Node.
use chaotic_next.Base.{
  ℕ, Bool, true, not, ◌&&◌, ◌||◌, Option, none, some, List, [], ◌∷◌, ◌++◌, Text, text_eq, codes,
  ◌==◌, nat_eq, has, starts_with, ends_with, includes, last_index_of, drop, any, map, suc, ◌+◌,
  if◌then◌else◌, grow, trim_start, zero,
}
use chaotic_next.Base.Regex.{is_upper}

pub data RuleScope : Type 0 where
  any_file pkgbuild install code : RuleScope

-- `/\.(install|hook)$/` and its kin: the path ends in a dot and one of the words.
abbrev pub has_ending : List Text → Text → Bool
has_ending endings path = any (λ ending. ends_with (codes "." ++ ending) path) endings

abbrev pub install_script_endings : List Text
install_script_endings = map codes ("install" ∷ "hook" ∷ [])

abbrev pub systemd_unit_endings : List Text
systemd_unit_endings = map codes ("service" ∷ "timer" ∷ [])

abbrev pub documentation_endings : List Text
documentation_endings =
    map codes ("md" ∷ "markdown" ∷ "rst" ∷ "txt" ∷ "html" ∷ "adoc" ∷ "changelog" ∷ [])

-- Without regard to the case of ASCII letters.
abbrev pub lower_case : Text → Text
lower_case = map (λ c. if is_upper c then c + 32 else c)

-- The slashes at the end are dropped, and what precedes the last slash before them.
abbrev pub drop_slash : ℕ → Text → Text
drop_slash c [] = if c == b'/' then [] else c ∷ []
drop_slash c (d ∷ s) = c ∷ d ∷ s

unfoldable pub trim_slashes : Text → Text
trim_slashes [] = []
trim_slashes (c ∷ s) = drop_slash c (trim_slashes s)

abbrev pub after_last : Text → Option ℕ → Text
after_last path none = path
after_last path (some slash) = drop (suc slash) path

unfoldable pub basename : Text → Text
unfolding trim_slashes
basename path = after_last (trim_slashes path) (last_index_of b'/' (trim_slashes path))

-- From the last dot of the base name on, where a dot at its start does not count.
abbrev extension_at : Text → Option ℕ → Text
extension_at base none = []
extension_at base (some zero) = []
extension_at base (some (suc dot)) = drop (suc dot) base

unfoldable pub extname : Text → Text
unfolding basename
extname path = extension_at (basename path) (last_index_of b'.' (basename path))

unfoldable pub in_scope_of : RuleScope → Text → Bool
unfolding basename
in_scope_of any_file path = true
in_scope_of pkgbuild path = basename path == codes "PKGBUILD"
in_scope_of install path = has_ending install_script_endings path
in_scope_of code path = not (has_ending documentation_endings (lower_case path))

unfoldable pub is_in_scope : Text → List RuleScope → Bool
unfolding in_scope_of
is_in_scope new_path scopes = any (λ scope. in_scope_of scope new_path) scopes

unfoldable pub file_extension : Text → Text
unfolding extname
file_extension path = lower_case (drop 1 (extname path))

abbrev pub executable_binary_extensions : List Text
executable_binary_extensions = map codes (
    "bin" ∷ "class" ∷ "crx" ∷ "dll" ∷ "dylib" ∷ "exe" ∷ "jar" ∷ "node" ∷ "pyc" ∷ "so" ∷ "wasm" ∷ [])

abbrev pub data_binary_extensions : List Text
data_binary_extensions = map codes (
    "a" ∷ "apk" ∷ "deb" ∷ "gif" ∷ "gz" ∷ "img" ∷ "iso" ∷ "jpeg" ∷ "jpg" ∷ "o" ∷ "png" ∷ "rpm"
    ∷ "svgz" ∷ "tar" ∷ "tgz" ∷ "webp" ∷ "xz" ∷ "zst" ∷ [])

unfoldable pub has_binary_extension : Text → Bool
unfolding file_extension
has_binary_extension new_path =
    let extension = file_extension new_path in
    has extension executable_binary_extensions || has extension data_binary_extensions

-- `/^Binary files .* differ$/m`: a line that starts and ends so, with no overlap.
abbrev is_line_end : ℕ → Bool
is_line_end c = c == 10 || (c == 13 || (c == 0x2028 || c == 0x2029))

unfoldable pub lines_of : Text → List Text
lines_of [] = [] ∷ []
lines_of (c ∷ s) = let rest = lines_of s in if is_line_end c then [] ∷ rest else grow c rest

abbrev says_differ : Text → Bool
says_differ line =
    starts_with (codes "Binary files ") line && ends_with (codes " differ") (drop 13 line)

unfoldable pub has_binary_content : Text → Bool
unfolding lines_of
has_binary_content diff =
    includes (codes "GIT binary patch") diff || any says_differ (lines_of diff)

-- `/^\s*#/`.
unfoldable pub is_comment_line : Text → Bool
is_comment_line text = starts_with (codes "#") (trim_start text)
