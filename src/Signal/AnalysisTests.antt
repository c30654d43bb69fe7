-- ===== src/Signal/AnalysisTests.antt =====
-- A run of the analysis at a concrete input.
use chaotic_next.Base.{
  ◌≡◌, refl, true, codes, [], ◌∷◌, text_eq, has, flat_map, split, trim, is_space, starts_with,
  index_of,
}
use chaotic_next.Base.Sort.{sort}
use chaotic_next.Signal.Paths.{
  parse_file_list, parent_directory, ancestor_directories, soname_basename, is_elf_shared_object,
}
use chaotic_next.Signal.Plugins.{derive_directories_owned, text_before}
use chaotic_next.Signal.Listings.{
  parse_readelf_dynamic, parse_defined_symbols, parse_undefined_symbols,
}
use chaotic_next.Signal.Sections.{parse_readelf_version_info}
use chaotic_next.Signal.Analysis.{AnalysisOptions, build_analysis, elf_files}
use chaotic_next.Signal.Analysis.Sonames.{has-build_analysis, needed_by, provided_by}

abbrev library : AnalysisOptions
library = record {
  version = codes "1-1";
  file_list = codes "usr/lib/\nusr/lib/libx.so\n";
  readelf_by_file =
      (codes "usr/lib/libx.so", codes "0x1 (NEEDED) Shared library: [libc.so.6]") ∷ [];
  imports_by_file = (codes "usr/lib/libx.so", codes " U malloc@G") ∷ [];
  exports_by_file = (codes "usr/lib/libx.so", codes "0 T b\n0 T a") ∷ [];
  relocations_by_file = [];
  nm_sizes_by_file = [];
  version_info_by_file =
      (codes "usr/lib/libx.so", codes "Version needs section\n File: libc.so.6\n Name: G") ∷ [];
}

build_analysis-library : build_analysis library ≡ record {
  version = codes "1-1";
  files = codes "usr/lib/libx.so" ∷ [];
  needed_sonames = codes "libc.so.6" ∷ [];
  provided_sonames = codes "libx.so" ∷ [];
  imported_symbols = codes "malloc" ∷ [];
  exported_symbols = (codes "libx.so", codes "a" ∷ codes "b" ∷ []) ∷ [];
  provided_version_nodes = [];
  needed_version_nodes = (codes "libc.so.6", codes "G" ∷ []) ∷ [];
  vtables = [];
  directories_owned = codes "usr" ∷ codes "usr/lib" ∷ [];
  direct_directories = codes "usr/lib" ∷ [];
  has_compiled_code = true;
}
unfolding build_analysis parse_file_list parent_directory ancestor_directories soname_basename
    is_elf_shared_object derive_directories_owned parse_readelf_dynamic parse_defined_symbols
    parse_undefined_symbols parse_readelf_version_info sort text_before split is_space trim index_of
    starts_with
build_analysis-library = refl

has-build_analysis_example :
    (has (codes "libc.so.6") (build_analysis library).needed_sonames
      ≡ has (codes "libc.so.6") (flat_map (needed_by library) (elf_files library)))
    × (has (codes "libc.so.6") (build_analysis library).provided_sonames
        ≡ has (codes "libc.so.6") (flat_map (provided_by library) (elf_files library)))
has-build_analysis_example = has-build_analysis library (codes "libc.so.6")
