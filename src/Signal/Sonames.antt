-- ===== src/Signal/Sonames.antt =====
-- Library names: `libraryBaseName`, `haskellPackageName` and `sameLibraryFamily` of
-- backend/src/repo-manager/signal/parse.ts.
pub mod Families
use chaotic_next.Base.{
  ℕ, ◌+◌, Bool, true, false, not, ◌&&◌, ◌||◌, Option, none, some, List, [], ◌∷◌, Text, codes,
  starts_with, index_of, split, get_elem?, take, drop, any, or_else, if◌then◌else◌, ◌==◌, text_eq,
}
use chaotic_next.Signal.Paths.{soname_basename}

-- The part of a name before its version: `.so` is kept.
abbrev pub cut_version : Text → Option ℕ → Text
cut_version base none = base
cut_version base (some i) = take (i + 3) base

unfoldable pub library_base_name : Text → Text
unfolding soname_basename index_of
library_base_name soname =
    let base = soname_basename soname in cut_version base (index_of (codes ".so.") base)

pub data RuntimeName : Type 0 where
  python perl ruby ghc : RuntimeName

-- `RUNTIME_INTERPRETER_PREFIX`, and its values as a list.
abbrev pub runtime_interpreter_prefix : RuntimeName → Option Text
runtime_interpreter_prefix RuntimeName.python = some (codes "libpython")
runtime_interpreter_prefix RuntimeName.perl = some (codes "libperl")
runtime_interpreter_prefix RuntimeName.ruby = some (codes "libruby")
runtime_interpreter_prefix RuntimeName.ghc = none

abbrev pub runtime_soname_prefixes : List Text
runtime_soname_prefixes = codes "libpython" ∷ codes "libperl" ∷ codes "libruby" ∷ []

abbrev pub haskell_soname_prefix : Text
haskell_soname_prefix = codes "libHS"

-- `name || null`
abbrev pub non_empty : Text → Option Text
non_empty name = if name == [] then none else some name

unfoldable pub haskell_package_name : Text → Option Text
unfolding starts_with split
haskell_package_name soname =
    if not (starts_with haskell_soname_prefix soname)
    then none
    else non_empty (or_else (get_elem? (split b'-' (drop 5 soname)) 0) [])

-- `haskellA && haskellA === haskellB`
abbrev pub same_name : Option Text → Option Text → Bool
same_name (some a) (some b) = a == b
same_name _ _ = false

unfoldable pub same_library_family : Text → Text → Bool
same_library_family a b =
    if library_base_name a == library_base_name b
    then true
    else if any (λ prefix. starts_with prefix a && starts_with prefix b) runtime_soname_prefixes
    then true
    else if same_name (haskell_package_name a) (haskell_package_name b)
    then true
    else (starts_with (codes "libboost_") a && starts_with (codes "libboost_") b)
      || (a == codes "boost" && b == codes "boost-libs")
      || (a == codes "boost-libs" && b == codes "boost")
