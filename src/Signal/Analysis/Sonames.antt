-- ===== src/Signal/Analysis/Sonames.antt =====
-- Which sonames an analysis needs and provides.
use mathlib.Core.List.{append_assoc, append-nil}
use chaotic_next.Base.{
  ◌≡◌, refl, sym, ap, ◌∙◌, Bool-cases, inl, inr, Option, none, some, List, [], ◌∷◌, ◌++◌, flat_map,
  Text, text_eq, has, dedupe, has-dedupe, is_empty, if◌then◌else◌,
}
use chaotic_next.Base.Sort.{has-sort}
use chaotic_next.Signal.Paths.{is_elf_shared_object}
use chaotic_next.Signal.Plugins.{text_before}
use chaotic_next.Signal.Listings.{parse_readelf_dynamic}
use chaotic_next.Signal.Sections.{parse_readelf_version_info}
use chaotic_next.Signal.Analysis.{
  AnalysisOptions, Collected, output_for, provided_name, collect_needs, collect_imports,
  collect_vtables, provide_version_nodes, export_symbols, collect_dynamic, collect_readelf,
  collect_file, collect_files, build_analysis, elf_files, nothing_collected, sorted_set, provide,
}

-- What one file's output of readelf says that it needs, and provides if it is a shared object.
abbrev needed_in : Option Text → List Text
needed_in none = []
needed_in (some readelf) = (parse_readelf_dynamic readelf).needed

abbrev provided_in : Text → Option Text → List Text
provided_in file none = []
provided_in file (some readelf) =
    if is_elf_shared_object file
    then provided_name file (parse_readelf_dynamic readelf).soname ∷ []
    else []

pub needed_by : AnalysisOptions → Text → List Text
needed_by opts file = needed_in (output_for file opts.readelf_by_file)

pub provided_by : AnalysisOptions → Text → List Text
provided_by opts file = provided_in file (output_for file opts.readelf_by_file)

-- The sonames of what is collected are left alone by the other steps.
abbrev SameSonames : Collected → Collected → Type 0
SameSonames c d = (c.needed ≡ d.needed) × (c.provided ≡ d.provided)

collect_needs-SameSonames :
    (info : Option Text) (c : Collected) → SameSonames (collect_needs info c) c
collect_needs-SameSonames none c = (refl, refl)
collect_needs-SameSonames (some info) c = (refl, refl)

collect_imports-SameSonames :
    (imports : Option Text) (c : Collected) → SameSonames (collect_imports imports c) c
collect_imports-SameSonames none c = (refl, refl)
collect_imports-SameSonames (some imports) c = (refl, refl)

collect_vtables-SameSonames :
    (relocations sizes : Option Text) (c : Collected)
    → SameSonames (collect_vtables relocations sizes c) c
collect_vtables-SameSonames none sizes c = (refl, refl)
collect_vtables-SameSonames (some r) none c = (refl, refl)
collect_vtables-SameSonames (some r) (some s) c = (refl, refl)

provide_version_nodes-SameSonames :
    (name : Text) (info : Option Text) (c : Collected)
    → SameSonames (provide_version_nodes name info c) c
provide_version_nodes-SameSonames name none c = (refl, refl)
provide_version_nodes-SameSonames name (some info) c =
    elim (Bool-cases (is_empty (parse_readelf_version_info info).0)) [
      | inl empty ↦ rw empty (refl, refl)
      | inr full ↦ rw full (refl, refl)
    ]

export_symbols-SameSonames :
    (name : Text) (defined : Option Text) (c : Collected)
    → SameSonames (export_symbols name defined c) c
export_symbols-SameSonames name none c = (refl, refl)
export_symbols-SameSonames name (some defined) c = (refl, refl)

SameSonames-trans : (b c d : Collected) → SameSonames b c → SameSonames c d → SameSonames b d
SameSonames-trans b c d p q = (p.0 ∙ q.0, p.1 ∙ q.1)

provide-SameSonames :
    (opts : AnalysisOptions) (file name : Text) (c : Collected)
    → SameSonames (provide opts file name c) (record c { provided = c.provided ++ name ∷ [] })
provide-SameSonames opts file name c =
    let first = record c { provided = c.provided ++ name ∷ [] } in
    let exported = export_symbols name (output_for file opts.exports_by_file) first in
    let nodes = provide_version_nodes name (output_for file opts.version_info_by_file) exported in
    SameSonames-trans (provide opts file name c) nodes first
      (collect_vtables-SameSonames (output_for file opts.relocations_by_file)
        (output_for file opts.nm_sizes_by_file) nodes)
      (SameSonames-trans nodes exported first
        (provide_version_nodes-SameSonames name (output_for file opts.version_info_by_file)
          exported)
        (export_symbols-SameSonames name (output_for file opts.exports_by_file) first))

-- What one round adds.
abbrev Adds : Collected → Collected → List Text → List Text → Type 0
Adds c d needed provided = (d.needed ≡ c.needed ++ needed) × (d.provided ≡ c.provided ++ provided)

collect_readelf-Adds :
    (opts : AnalysisOptions) (file : Text) (readelf : Option Text) (c : Collected)
    → Adds c (collect_readelf opts file readelf c) (needed_in readelf) (provided_in file readelf)
unfolding collect_dynamic
collect_readelf-Adds opts file none c = (sym (append-nil c.needed), sym (append-nil c.provided))
collect_readelf-Adds opts file (some readelf) c = elim (Bool-cases (is_elf_shared_object file)) [
  | inr program ↦ rw program (refl, sym (append-nil c.provided))
  | inl library ↦
      let d = parse_readelf_dynamic readelf in
      rw library (
        provide-SameSonames opts file (provided_name file d.soname)
          (record c { needed = c.needed ++ d.needed }))
]

collect_file-Adds :
    (opts : AnalysisOptions) (file : Text) (c : Collected)
    → Adds c (collect_file opts file c) (needed_by opts file) (provided_by opts file)
unfolding collect_file needed_by provided_by
collect_file-Adds opts file c =
    let readelf = output_for file opts.readelf_by_file in
    let first = collect_readelf opts file readelf c in
    let adds = collect_readelf-Adds opts file readelf c in
    let imported = collect_imports (output_for file opts.imports_by_file) first in
    let same =
      SameSonames-trans (collect_file opts file c) imported first
        (collect_needs-SameSonames (output_for file opts.version_info_by_file) imported)
        (collect_imports-SameSonames (output_for file opts.imports_by_file) first) in
    (same.0 ∙ adds.0, same.1 ∙ adds.1)

collect_files-Adds :
    (opts : AnalysisOptions) (files : List Text) (c : Collected)
    → Adds c
        (collect_files opts files c)
        (flat_map (needed_by opts) files)
        (flat_map (provided_by opts) files)
unfolding collect_files
collect_files-Adds opts [] c = (sym (append-nil c.needed), sym (append-nil c.provided))
collect_files-Adds opts (file ∷ files) c =
    let one = collect_file-Adds opts file c in
    let rest = collect_files-Adds opts files (collect_file opts file c) in
    (
      rest.0
          ∙ ap (λ l. l ++ flat_map (needed_by opts) files) one.0
          ∙ append_assoc c.needed (needed_by opts file) (flat_map (needed_by opts) files),
      rest.1
          ∙ ap (λ l. l ++ flat_map (provided_by opts) files) one.1
          ∙ append_assoc c.provided (provided_by opts file) (flat_map (provided_by opts) files),
    )

has-sorted_set : (s : Text) (values : List Text) → has s (sorted_set values) ≡ has s values
has-sorted_set s values = has-sort text_before s (dedupe values) ∙ has-dedupe s values

pub has-build_analysis :
    (opts : AnalysisOptions) (soname : Text)
    → (has soname (build_analysis opts).needed_sonames
        ≡ has soname (flat_map (needed_by opts) (elf_files opts)))
      × (has soname (build_analysis opts).provided_sonames
          ≡ has soname (flat_map (provided_by opts) (elf_files opts)))
unfolding build_analysis
has-build_analysis opts soname =
    let c = collect_files opts (elf_files opts) nothing_collected in
    let adds = collect_files-Adds opts (elf_files opts) nothing_collected in
    (
      has-sorted_set soname c.needed ∙ ap (has soname) adds.0,
      has-sorted_set soname c.provided ∙ ap (has soname) adds.1,
    )
