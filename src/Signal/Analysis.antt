-- ===== src/Signal/Analysis.antt =====
-- The analysis of one package from the output of the tools: `buildAnalysis` of
-- backend/src/repo-manager/signal/plugin.ts. The sets and records of the source are lists in insertion
-- order. The fields that are the same for every new analysis (no plugins, not broken, the time of
-- the scan) are left out.
pub mod Sonames
use chaotic_next.Base.{
  Bool, true, false, not, ◌&&◌, ◌||◌, Option, none, some, List, [], ◌∷◌, ◌++◌, map, flat_map, keep,
  Text, text_eq, has, dedupe, is_empty, or_else, if◌then◌else◌,
}
use chaotic_next.Base.Map.{get, put}
use chaotic_next.Base.MultiMap.{entry}
use chaotic_next.Base.Sort.{sort}
use chaotic_next.Signal.Abi.{extract_vtable_slots, VtableSlots}
use chaotic_next.Signal.Paths.{
  parse_file_list, parent_directory, soname_basename, is_elf_shared_object,
}
use chaotic_next.Signal.Plugins.{text_before, derive_directories_owned}
use chaotic_next.Signal.Listings.{
  Dynamic, parse_readelf_dynamic, parse_defined_symbols, parse_undefined_symbols,
  parse_nm_symbols_with_size,
}
use chaotic_next.Signal.Sections.{parse_readelf_version_info, parse_readelf_relocations}

abbrev pub Outputs : Type 0
Outputs = List (Text × Text)

pub record AnalysisOptions : Type 0 where
  pub version : Text
  pub file_list : Text
  pub readelf_by_file : Outputs
  pub imports_by_file : Outputs
  pub exports_by_file : Outputs
  pub relocations_by_file : Outputs
  pub nm_sizes_by_file : Outputs
  pub version_info_by_file : Outputs

abbrev pub ByName : Type 0
ByName = List (Text × List Text)

pub record Collected : Type 0 where
  pub needed : List Text
  pub provided : List Text
  pub imported : List Text
  pub exported : ByName
  pub provided_version_nodes : ByName
  pub needed_version_nodes : ByName
  pub vtables : ByName

-- The output for a file, where there is one that is not empty.
abbrev pub given_text : Option Text → Option Text
given_text none = none
given_text (some output) = if is_empty output then none else some output

abbrev pub output_for : Text → Outputs → Option Text
output_for file outputs = given_text (get file outputs)

-- `dedupe(values).sort()`.
abbrev pub sorted_set : List Text → List Text
sorted_set values = sort text_before (dedupe values)

abbrev pub export_symbols : Text → Option Text → Collected → Collected
export_symbols name none c = c
export_symbols name (some defined) c = record c {
  exported = put name (sorted_set (parse_defined_symbols defined)) c.exported;
}

abbrev pub provide_nodes : Text → List Text → Collected → Collected
provide_nodes name nodes c =
    if is_empty nodes
    then c
    else record c { provided_version_nodes = put name (sorted_set nodes) c.provided_version_nodes }

abbrev pub provide_version_nodes : Text → Option Text → Collected → Collected
provide_version_nodes name none c = c
provide_version_nodes name (some info) c = provide_nodes name (parse_readelf_version_info info).0 c

unfoldable pub put_slots : List VtableSlots → ByName → ByName
put_slots [] vtables = vtables
put_slots (v ∷ slots) vtables = put_slots slots (put v.symbol v.slots vtables)

abbrev pub collect_vtables : Option Text → Option Text → Collected → Collected
collect_vtables (some relocations) (some sizes) c = record c {
  vtables =
      put_slots
        (extract_vtable_slots (parse_readelf_relocations relocations)
          (parse_nm_symbols_with_size sizes))
        c.vtables;
}
collect_vtables none sizes c = c
collect_vtables (some relocations) none c = c

-- What a shared object provides, under its soname or its file name.
abbrev pub provided_name : Text → Option Text → Text
provided_name file soname = or_else soname (soname_basename file)

abbrev pub provide : AnalysisOptions → Text → Text → Collected → Collected
provide opts file name c =
    collect_vtables (output_for file opts.relocations_by_file)
      (output_for file opts.nm_sizes_by_file)
      (provide_version_nodes name (output_for file opts.version_info_by_file) (
        export_symbols name (output_for file opts.exports_by_file)
          (record c { provided = c.provided ++ name ∷ [] })))

unfoldable pub collect_dynamic : AnalysisOptions → Text → Dynamic → Collected → Collected
unfolding put_slots
collect_dynamic opts file d c =
    let linked = record c { needed = c.needed ++ d.needed } in
    if is_elf_shared_object file
    then provide opts file (provided_name file d.soname) linked
    else linked

abbrev pub collect_readelf : AnalysisOptions → Text → Option Text → Collected → Collected
collect_readelf opts file none c = c
collect_readelf opts file (some readelf) c =
    collect_dynamic opts file (parse_readelf_dynamic readelf) c

abbrev pub collect_imports : Option Text → Collected → Collected
collect_imports none c = c
collect_imports (some imports) c = record c {
  imported = c.imported ++ parse_undefined_symbols imports;
}

-- `(neededVersionNodes[soname] ??= []).push(...nodes)` for each soname with nodes.
unfoldable pub need_nodes : ByName → ByName → ByName
need_nodes [] needed = needed
need_nodes ((soname, nodes) ∷ rest) needed =
    need_nodes rest
      (if is_empty nodes then needed else put soname (entry soname needed ++ nodes) needed)

abbrev pub collect_needs : Option Text → Collected → Collected
collect_needs none c = c
collect_needs (some info) c = record c {
  needed_version_nodes = need_nodes (parse_readelf_version_info info).1 c.needed_version_nodes;
}

-- One round of the loop over the ELF files.
unfoldable pub collect_file : AnalysisOptions → Text → Collected → Collected
unfolding collect_dynamic need_nodes
collect_file opts file c = collect_needs (output_for file opts.version_info_by_file) (
    collect_imports (output_for file opts.imports_by_file)
      (collect_readelf opts file (output_for file opts.readelf_by_file) c))

unfoldable pub collect_files : AnalysisOptions → List Text → Collected → Collected
unfolding collect_file
collect_files opts [] c = c
collect_files opts (file ∷ files) c = collect_files opts files (collect_file opts file c)

abbrev pub nothing_collected : Collected
nothing_collected = record {
  needed = [];
  provided = [];
  imported = [];
  exported = [];
  provided_version_nodes = [];
  needed_version_nodes = [];
  vtables = [];
}

abbrev pub elf_files : AnalysisOptions → List Text
elf_files opts =
    let names = λ (outputs : Outputs). map (λ (o : Text × Text). o.0) outputs in
    dedupe
      (names opts.readelf_by_file ++ (names opts.imports_by_file ++ names opts.exports_by_file))

abbrev parent_of : Text → List Text
parent_of file = elim (parent_directory file) [ none ↦ [] | some dir ↦ dir ∷ [] ]

pub record BuiltAnalysis : Type 0 where
  pub version : Text
  pub files : List Text
  pub needed_sonames : List Text
  pub provided_sonames : List Text
  pub imported_symbols : List Text
  pub exported_symbols : ByName
  pub provided_version_nodes : ByName
  pub needed_version_nodes : ByName
  pub vtables : ByName
  pub directories_owned : List Text
  pub direct_directories : List Text
  pub has_compiled_code : Bool

abbrev sorted_nodes : Text × List Text → Text × List Text
sorted_nodes (soname, nodes) = (soname, sorted_set nodes)

abbrev pub analysis_of : AnalysisOptions → List Text → Collected → BuiltAnalysis
analysis_of opts files c = record {
  version = opts.version;
  files = files;
  needed_sonames = sorted_set c.needed;
  provided_sonames = sorted_set c.provided;
  imported_symbols = sorted_set c.imported;
  exported_symbols = c.exported;
  provided_version_nodes = c.provided_version_nodes;
  needed_version_nodes = map sorted_nodes c.needed_version_nodes;
  vtables = c.vtables;
  directories_owned = derive_directories_owned files;
  direct_directories = sorted_set (flat_map parent_of files);
  has_compiled_code = not (is_empty c.needed) || not (is_empty c.provided);
}

unfoldable pub build_analysis : AnalysisOptions → BuiltAnalysis
unfolding collect_files
build_analysis opts =
    analysis_of opts (parse_file_list opts.file_list)
      (collect_files opts (elf_files opts) nothing_collected)
