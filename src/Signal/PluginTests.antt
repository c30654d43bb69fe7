-- ===== src/Signal/PluginTests.antt =====
-- Runs of the plugin detection at concrete inputs.
use chaotic_next.Base.{
  ◌≡◌, refl, some, true, false, codes, [], ◌∷◌, List, Text, text_eq, has, split, ends_with,
}
use chaotic_next.Signal.Paths.{parent_directory, ancestor_directories}
use chaotic_next.Signal.Plugins.{
  DirectoryIndex, DerivePluginOfOptions, derive_plugin_of, derive_directories_owned,
  is_package_metadata,
}
use chaotic_next.Signal.Plugins.Sound.{derive_plugin_of-IsPlugin, IsPlugin}

-- `a1` is obs-studio, `a2` is glibc.
abbrev index : DirectoryIndex
index = record {
  direct = (codes "usr/lib/obs-studio", codes "a1" ∷ []) ∷ (codes "usr/lib", codes "a2" ∷ []) ∷ [];
  ancestors = (codes "usr/lib/obs-studio", codes "a1" ∷ []) ∷ [];
  key_to_pkgname = (codes "a1", codes "obs-studio") ∷ (codes "a2", codes "glibc") ∷ [];
  key_to_files = (codes "a1", codes "usr/lib/obs-studio/core.so" ∷ []) ∷ [];
}

abbrev options : DerivePluginOfOptions
options = record {
  consumer_pkgname = some (codes "obs-plugin");
  has_compiled_code = true;
  is_source_compiled = false;
}

abbrev plugin_files : List Text
plugin_files = codes "usr/lib/obs-studio/plugin.so" ∷ codes "usr/lib/x.so" ∷ []

derive_plugin_of-obs : derive_plugin_of plugin_files index options ≡ codes "a1" ∷ []
unfolding derive_plugin_of split parent_directory ancestor_directories
derive_plugin_of-obs = refl

derive_plugin_of-obs_fork :
    derive_plugin_of (codes "usr/lib/obs-studio/core.so" ∷ plugin_files) index options ≡ []
unfolding derive_plugin_of split parent_directory ancestor_directories
derive_plugin_of-obs_fork = refl

derive_plugin_of-obs_variant :
    derive_plugin_of plugin_files index
      (record options { consumer_pkgname = some (codes "obs-studio-git") })
    ≡ []
unfolding derive_plugin_of split parent_directory ancestor_directories ends_with
derive_plugin_of-obs_variant = refl

derive_directories_owned-two :
    derive_directories_owned (codes "usr/lib/x" ∷ codes "etc/y" ∷ codes "usr/z" ∷ [])
    ≡ codes "etc" ∷ codes "usr" ∷ codes "usr/lib" ∷ []
unfolding derive_directories_owned split ancestor_directories
derive_directories_owned-two = refl

is_package_metadata-mtree : is_package_metadata (codes ".MTREE") ≡ true
unfolding is_package_metadata
is_package_metadata-mtree = refl

has-derive_plugin_of : has (codes "a1") (derive_plugin_of plugin_files index options) ≡ true
unfolding derive_plugin_of split parent_directory ancestor_directories
has-derive_plugin_of = refl

derive_plugin_of-IsPlugin_example : IsPlugin plugin_files index options (codes "a1")
derive_plugin_of-IsPlugin_example =
    derive_plugin_of-IsPlugin plugin_files index options (codes "a1") has-derive_plugin_of
