-- ===== src/Signal/Plugins.antt =====
-- Which packages a package is a plugin of: the directory index, `collectPluginCandidates` and
-- `derivePluginOf` of backend/src/repo-manager/signal/plugin.ts. A map is an association list in
-- insertion order, a set the list of its members in the same order. A consumer without a name has
-- none.
pub mod Sound
use chaotic_next.Base.{
  ℕ, ◌-◌, Bool, true, false, not, ◌&&◌, ◌||◌, Option, none, some, List, [], ◌∷◌, ◌++◌, map, Text,
  text_eq, codes, ◌==◌, has, dedupe, any, keep, flat_map, is_empty, length, take, leb, ltb, nat_beq,
  ends_with, includes, split, if◌then◌else◌, or_else,
}
use chaotic_next.Base.Map.{get}
use chaotic_next.Base.Sort.{sort}
use chaotic_next.Signal.Paths.{parent_directory, ancestor_directories}

pub record DirectoryIndex : Type 0 where
  pub direct : List (Text × List Text)
  pub ancestors : List (Text × List Text)
  pub key_to_pkgname : List (Text × Text)
  pub key_to_files : List (Text × List Text)

abbrev pub package_metadata_files : List Text
package_metadata_files = map codes (
    ".BUILDINFO" ∷ ".MTREE" ∷ ".PKGINFO" ∷ ".INSTALL" ∷ ".CHANGELOG" ∷ ".AURINFO" ∷ ".SRCINFO"
    ∷ ".FILELIST" ∷ [])

unfoldable pub is_package_metadata : Text → Bool
unfolding includes
is_package_metadata file = not (includes (codes "/") file) && has file package_metadata_files

abbrev python_generic_minors : List Text
python_generic_minors = map codes ("12" ∷ "13" ∷ "14" ∷ "15" ∷ [])

abbrev pub generic_dirs : List Text
generic_dirs =
    map codes (
      "usr" ∷ "usr/lib" ∷ "usr/lib64" ∷ "usr/lib32" ∷ "usr/bin" ∷ "usr/sbin" ∷ "usr/share"
      ∷ "usr/include" ∷ "usr/etc" ∷ "usr/src" ∷ "usr/local" ∷ "bin" ∷ "sbin" ∷ "lib" ∷ "lib64"
      ∷ "etc" ∷ "opt" ∷ "var" ∷ "var/lib" ∷ "var/log" ∷ "var/cache" ∷ "usr/share/doc"
      ∷ "usr/share/man" ∷ "usr/share/info" ∷ "usr/share/licenses" ∷ "usr/share/pixmaps"
      ∷ "usr/share/icons" ∷ "usr/share/locale" ∷ "usr/share/zoneinfo" ∷ "usr/share/applications"
      ∷ "usr/share/gtk-doc" ∷ "usr/share/mime" ∷ "usr/share/fonts" ∷ "usr/share/systemd"
      ∷ "usr/lib/systemd" ∷ "usr/lib/udev" ∷ "usr/lib/modules" ∷ "usr/lib/firmware"
      ∷ "usr/lib/pkgconfig" ∷ "usr/lib/cmake" ∷ "usr/share/gir-1.0" ∷ "usr/share/dbus-1"
      ∷ "usr/share/polkit-1" ∷ "usr/share/bash-completion" ∷ "usr/share/fish" ∷ "usr/share/zsh"
      ∷ "usr/share/desktop-directories" ∷ "usr/share/sounds" ∷ "usr/share/glib-2.0"
      ∷ "usr/share/gsettings-schemas" ∷ "usr/share/installed-tests" ∷ "usr/share/metainfo"
      ∷ "usr/share/vala" ∷ "etc/xdg" ∷ "etc/profile.d" ∷ [])
    ++ map (λ minor. codes "usr/lib/python3." ++ (minor ++ codes "/site-packages"))
        python_generic_minors

-- `a < b` of texts, by code units, and the order of `sort()`.
unfoldable pub text_before : Text → Text → Bool
text_before [] t = true
text_before (c ∷ s) [] = false
text_before (c ∷ s) (d ∷ t) = ltb c d || (nat_beq c d && text_before s t)

unfoldable pub derive_directories_owned : List Text → List Text
unfolding text_before sort
derive_directories_owned files = sort text_before (dedupe (flat_map ancestor_directories files))

abbrev pub shared_directory_max_owners : ℕ
shared_directory_max_owners = 10

abbrev pub build_variant_suffixes : List Text
build_variant_suffixes = map codes (
    "-git" ∷ "-bin" ∷ "-stable" ∷ "-svn" ∷ "-cvs" ∷ "-hg" ∷ "-bzr" ∷ "-nightly" ∷ "-latest"
    ∷ "-master" ∷ "-unstable" ∷ "-testing" ∷ "-rc" ∷ "-dev" ∷ "-preview" ∷ [])

unfoldable pub family_from : Text → List Text → Text
unfolding ends_with
family_from name [] = name
family_from name (suffix ∷ suffixes) =
    if ends_with suffix name
    then take (length name - length suffix) name
    else family_from name suffixes

unfoldable pub package_family_name : Text → Text
unfolding family_from
package_family_name name = family_from name build_variant_suffixes

-- `!a` also holds of the empty name.
abbrev pub named : Option Text → Bool
named none = false
named (some name) = not (is_empty name)

unfoldable pub same_package_family : Option Text → Option Text → Bool
unfolding package_family_name
same_package_family a b =
    if not (named a) || not (named b)
    then false
    else package_family_name (or_else a []) == package_family_name (or_else b [])

abbrev pub max_credible_plugin_owners : ℕ
max_credible_plugin_owners = 100

pub record DerivePluginOfOptions : Type 0 where
  pub consumer_pkgname : Option Text
  pub has_compiled_code : Bool
  pub is_source_compiled : Bool

-- An owner whose name is there, is not empty and is a segment of the directory.
abbrev named_in : List Text → Option Text → Bool
named_in segments none = false
named_in segments (some name) = not (is_empty name) && has name segments

-- The owners that are added for one directory.
unfoldable pub owners_named_in_segments : List Text → Text → List (Text × Text) → List Text
owners_named_in_segments owners dir key_to_pkgname =
    keep (λ owner. not (is_empty owner) && named_in (split b'/' dir) (get owner key_to_pkgname))
      owners

abbrev pub direct_owners : DirectoryIndex → Text → Option (List Text) → List Text
direct_owners index parent none = []
direct_owners index parent (some owners) =
    if not (has parent generic_dirs) && leb (length owners) shared_directory_max_owners
    then owners_named_in_segments owners parent index.key_to_pkgname
    else []

abbrev pub ancestor_owners : DirectoryIndex → Text → List Text
ancestor_owners index dir =
    if has dir generic_dirs
    then []
    else owners_named_in_segments (or_else (get dir index.ancestors) []) dir index.key_to_pkgname

-- What one file adds, where its directory is not the empty text.
abbrev pub owners_at : DirectoryIndex → Option Text → List Text
owners_at index none = []
owners_at index (some parent) =
    if is_empty parent
    then []
    else direct_owners index parent (get parent index.direct)
      ++ flat_map (ancestor_owners index) (parent ∷ ancestor_directories parent)

unfoldable pub collect_plugin_candidates : List Text → DirectoryIndex → List Text
unfolding owners_named_in_segments
collect_plugin_candidates files index =
    dedupe (flat_map (λ file. owners_at index (parent_directory file)) files)

-- The consumer ships a file of the owner.
abbrev pub shadows : List Text → Option (List Text) → Bool
shadows files none = false
shadows files (some owner_files) = any (λ file. has file owner_files) files

-- The direct evidence that is wanted of each of too many owners.
abbrev evidence_at : DirectoryIndex → Text → Text → Option Text → Bool
evidence_at index owner owner_name none = false
evidence_at index owner owner_name (some parent) =
    not (is_empty parent)
    && (has owner (or_else (get parent index.direct) [])
        && (not (has parent generic_dirs) && includes owner_name parent))

abbrev pub has_evidence : DirectoryIndex → List Text → Text → Option Text → Bool
has_evidence index files owner none = false
has_evidence index files owner (some owner_name) =
    not (is_empty owner_name)
    && any (λ file. evidence_at index owner owner_name (parent_directory file)) files

-- The owners that are neither a variant of the consumer nor shadowed by it.
abbrev pub own_plugins : List Text → DirectoryIndex → Option Text → List Text
own_plugins files index consumer =
    keep (λ owner. not (shadows files (get owner index.key_to_files)))
      (keep (λ owner. not (same_package_family consumer (get owner index.key_to_pkgname)))
        (collect_plugin_candidates files index))

unfoldable pub credible : List Text → DirectoryIndex → List Text → List Text
credible files index result =
    if leb (length result) max_credible_plugin_owners
    then result
    else keep (λ owner. has_evidence index files owner (get owner index.key_to_pkgname)) result

unfoldable pub derive_plugin_of : List Text → DirectoryIndex → DerivePluginOfOptions → List Text
unfolding same_package_family collect_plugin_candidates credible text_before sort
derive_plugin_of files index options =
    if not options.has_compiled_code && not options.is_source_compiled
    then []
    else credible files index
        (sort text_before (dedupe (own_plugins files index options.consumer_pkgname)))
