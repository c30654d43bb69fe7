-- ===== src/Signal/Plugins/Sound.antt =====
-- Why an owner is one of those that a package is a plugin of.
use mathlib.Core.List.{Memᴰ}
use mathlib.Core.List.Memᴰ
use chaotic_next.Base.{
  ◌≡◌, refl, sym, ◌∙◌, Bool, Bool-cases, Option-cases, inl, inr, true, false, not, ◌&&◌, ◌||◌, some,
  List, [], ◌∷◌, Text, text_eq, has, has-dedupe, has-keep, has-mem, mem-has, dedupe, flat_map,
  is_empty, length, leb, split, or_else, arith,
}
use chaotic_next.Base.Map.{get}
use chaotic_next.Base.Members.{flat_map-mem, unless-mem, when-mem, keep-mem}
use chaotic_next.Base.Sort.{sort, has-sort}
use chaotic_next.Signal.Paths.{parent_directory, ancestor_directories}
use chaotic_next.Signal.Plugins.{
  DirectoryIndex, generic_dirs, text_before, same_package_family, DerivePluginOfOptions,
  owners_named_in_segments, direct_owners, ancestor_owners, owners_at, collect_plugin_candidates,
  shadows, own_plugins, credible, derive_plugin_of, max_credible_plugin_owners,
}

not_and-left : (a b : Bool) → (not a && b) ≡ true → a ≡ false
not_and-left a b h = ground arith

and-parts : (a b : Bool) → (a && b) ≡ true → (a ≡ true) × (b ≡ true)
and-parts a b h = (ground arith, ground arith)

not-true : (a : Bool) → not a ≡ true → a ≡ false
not-true a h = ground arith

-- An owner is listed for a directory that is no generic one, and its name is a segment of it.
pub record IsNamedAt (index : DirectoryIndex) (owner dir : Text) : Type 0 where
  pub specific : has dir generic_dirs ≡ false
  pub listed :
      (has owner (or_else (get dir index.direct) [])
        || has owner (or_else (get dir index.ancestors) []))
      ≡ true
  pub name : Text
  pub name_of : get owner index.key_to_pkgname ≡ some name
  pub segment : has name (split b'/' dir) ≡ true

owners_named_in_segments-mem :
    (owners : List Text) (dir : Text) (names : List (Text × Text)) {owner : Text}
    → Memᴰ owner (owners_named_in_segments owners dir names)
    → Memᴰ owner owners
      × ((name : Text) × (get owner names ≡ some name) × (has name (split b'/' dir) ≡ true))
unfolding owners_named_in_segments
owners_named_in_segments-mem owners dir names {owner} m =
    let (n, ok) = keep-mem _ owners m in
    elim (Option-cases (get owner names)) [
      | inl gone ↦ ground (arith, rw gone at ok)
      | inr (name, found) ↦ (n, (name, found, ground (arith, rw found at ok)))
    ]

direct_owners-IsNamedAt :
    (index : DirectoryIndex) (parent : Text) {owner : Text}
    → Memᴰ owner (direct_owners index parent (get parent index.direct))
    → IsNamedAt index owner parent
direct_owners-IsNamedAt index parent {owner} m = elim (Option-cases (get parent index.direct)) [
  | inl gone ↦ absurd (Memᴰ.not-nil (rw gone at m))
  | inr (owners, found) ↦
      let (wanted, n) = when-mem _ (rw found at m) in
      let (o, (name, is, seg)) =
        owners_named_in_segments-mem owners parent index.key_to_pkgname n in
      let in_direct = mem-has owner owners o in
      record {
        specific = not_and-left _ _ wanted;
        listed = rw (found, in_direct) refl;
        name = name;
        name_of = is;
        segment = seg;
      }
]

ancestor_owners-IsNamedAt :
    (index : DirectoryIndex) (dir : Text) {owner : Text}
    → Memᴰ owner (ancestor_owners index dir)
    → IsNamedAt index owner dir
ancestor_owners-IsNamedAt index dir {owner} m =
    let (specific, n) = unless-mem _ m in
    let owners = or_else (get dir index.ancestors) [] in
    let (o, (name, is, seg)) = owners_named_in_segments-mem owners dir index.key_to_pkgname n in
    let in_ancestors = mem-has owner owners o in
    record { specific = specific; listed = ground arith; name = name; name_of = is; segment = seg }

-- The directory in which a file of the consumer speaks for an owner: that of the file or one above.
pub record SpeaksFor (index : DirectoryIndex) (owner file : Text) : Type 0 where
  pub parent : Text
  pub parent_of : parent_directory file ≡ some parent
  pub dir : Text
  pub above : Memᴰ dir (parent ∷ ancestor_directories parent)
  pub named_at : IsNamedAt index owner dir

owners_at-SpeaksFor :
    (index : DirectoryIndex) (file : Text) {owner : Text}
    → Memᴰ owner (owners_at index (parent_directory file))
    → SpeaksFor index owner file
owners_at-SpeaksFor index file {owner} m = elim (Option-cases (parent_directory file)) [
  | inl gone ↦ absurd (Memᴰ.not-nil (rw gone at m))
  | inr (parent, found) ↦
      let (full, n) = unless-mem (is_empty parent) (rw found at m) in
      elim (Memᴰ.append_cases (direct_owners index parent (get parent index.direct)) n) [
        | inl direct ↦ record {
          parent = parent;
          parent_of = found;
          dir = parent;
          above = Memᴰ.head refl;
          named_at = direct_owners-IsNamedAt index parent direct;
        }
        | inr higher ↦
            let (dir, (d, o)) =
              flat_map-mem (ancestor_owners index) (parent ∷ ancestor_directories parent) higher in
            record {
              parent = parent;
              parent_of = found;
              dir = dir;
              above = d;
              named_at = ancestor_owners-IsNamedAt index dir o;
            }
      ]
]

collect_plugin_candidates-SpeaksFor :
    (files : List Text) (index : DirectoryIndex) (owner : Text)
    → has owner (collect_plugin_candidates files index) ≡ true
    → (file : Text) × (Memᴰ file files × SpeaksFor index owner file)
unfolding collect_plugin_candidates
collect_plugin_candidates-SpeaksFor files index owner h =
    let at = λ (file : Text). owners_at index (parent_directory file) in
    let (file, (m, o)) =
      flat_map-mem at files
        (has-mem owner (flat_map at files) (rw (has-dedupe owner (flat_map at files)) at h)) in
    (file, (m, owners_at-SpeaksFor index file o))

has-credible :
    (files : List Text) (index : DirectoryIndex) (owner : Text) (result : List Text)
    → has owner (credible files index result) ≡ true
    → has owner result ≡ true
unfolding credible
has-credible files index owner result h =
    elim (Bool-cases (leb (length result) max_credible_plugin_owners)) [
      | inl few ↦ rw few at h
      | inr many ↦ (and-parts _ _ (sym (has-keep _ owner result) ∙ (rw many at h))).0
    ]

-- An owner of which the consumer may be a plugin.
pub record IsPlugin (files : List Text) (index : DirectoryIndex) (options : DerivePluginOfOptions)
    (owner : Text) : Type 0 where
  pub compiled : (options.has_compiled_code || options.is_source_compiled) ≡ true
  pub file : Text
  pub shipped : Memᴰ file files
  pub speaks : SpeaksFor index owner file
  pub other_family :
      same_package_family options.consumer_pkgname (get owner index.key_to_pkgname) ≡ false
  pub no_shadow : shadows files (get owner index.key_to_files) ≡ false

-- A package counts as a plugin only if it has compiled code or is compiled from source, and then each
-- of its owners is listed for a directory above one of its files, which is no generic directory and
-- has the owner's name as a segment, is no build variant of the package, and shares no file with it.
pub derive_plugin_of-IsPlugin :
    (files : List Text) (index : DirectoryIndex) (options : DerivePluginOfOptions) (owner : Text)
    → has owner (derive_plugin_of files index options) ≡ true
    → IsPlugin files index options owner
unfolding derive_plugin_of
derive_plugin_of-IsPlugin files index options owner h =
    elim (Bool-cases (not options.has_compiled_code && not options.is_source_compiled)) [
      | inl skipped ↦ cc (rw skipped at h)
      | inr compiled ↦
          let own = own_plugins files index options.consumer_pkgname in
          let in_own : has owner own ≡ true =
            sym (has-sort text_before owner (dedupe own) ∙ has-dedupe owner own)
            ∙ has-credible files index owner (sort text_before (dedupe own)) (rw compiled at h) in
          let (first, unshadowed) = and-parts _ _ (sym (has-keep _ owner _) ∙ in_own) in
          let (collected, other) = and-parts _ _ (sym (has-keep _ owner _) ∙ first) in
          let (file, (m, speaks)) =
            collect_plugin_candidates-SpeaksFor files index owner collected in
          record {
            compiled = ground arith;
            file = file;
            shipped = m;
            speaks = speaks;
            other_family = not-true _ other;
            no_shadow = not-true _ unshadowed;
          }
    ]
