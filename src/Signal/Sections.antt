-- ===== src/Signal/Sections.antt =====
-- The parsers of readelf's sections: `parseReadelfVersionInfo` and `parseReadelfRelocations` of
-- backend/src/repo-manager/signal/parse.ts.
pub mod Wrapped
use chaotic_next.Base.{
  ℕ, zero, suc, length, Bool, true, false, not, ◌&&◌, Option, none, some, List, [], ◌∷◌, ◌++◌, Text,
  text_eq, codes, is_empty, starts_with, split, trim, if◌then◌else◌,
}
use chaotic_next.Base.MultiMap.{push}
use chaotic_next.Base.Regex.{
  Re, plus, group, lit, start, end, times, up_to, spaces, optional_spaces, non_space, ◌⋅◌, test,
  exec_group,
}
use chaotic_next.Signal.Abi.{RelocationEntry}
use chaotic_next.Signal.Listings.{hex, read_hex, drop_version}

-- The section that the lines belong to: `inDef` and `inNeed`.
pub data Section : Type 0 where
  outside definitions needs : Section

pub record VersionInfo : Type 0 where
  pub section : Section
  pub current_file : Option Text
  pub defined : List Text
  pub needed : List (Text × List Text)

abbrev base_flags : Re
base_flags = lit (codes "Flags:") ⋅ optional_spaces ⋅ lit (codes "BASE")

abbrev name_field : Re
name_field = lit (codes "Name:") ⋅ spaces ⋅ group 1 (plus non_space)

abbrev file_field : Re
file_field = lit (codes "File:") ⋅ spaces ⋅ group 1 (plus non_space)

abbrev push_defined : VersionInfo → Option Text → VersionInfo
push_defined info none = info
push_defined info (some name) = record info { defined = info.defined ++ name ∷ [] }

abbrev push_needed : VersionInfo → Option Text → Option Text → VersionInfo
push_needed info (some name) (some file) = record info { needed = push file name info.needed }
push_needed info (some name) none = info
push_needed info none file = info

-- A line of the definitions, and one of the needs.
unfoldable pub definition_line : VersionInfo → Text → VersionInfo
unfolding test exec_group
definition_line info trimmed =
    if test base_flags trimmed then info else push_defined info (exec_group 1 name_field trimmed)

abbrev need_or_file : VersionInfo → Text → Option Text → VersionInfo
need_or_file info trimmed (some file) = record info { current_file = some file }
need_or_file info trimmed none =
    push_needed info (exec_group 1 name_field trimmed) info.current_file

unfoldable pub need_line : VersionInfo → Text → VersionInfo
unfolding exec_group
need_line info trimmed = need_or_file info trimmed (exec_group 1 file_field trimmed)

abbrev section_line : VersionInfo → Text → Section → VersionInfo
section_line info trimmed outside = info
section_line info trimmed definitions = definition_line info trimmed
section_line info trimmed needs = need_line info trimmed

unfoldable pub version_line : VersionInfo → Text → VersionInfo
unfolding definition_line need_line starts_with
version_line info trimmed =
    if starts_with (codes "Version definition section") trimmed
    then record info { section = definitions }
    else (if starts_with (codes "Version needs section") trimmed
        then record info { section = needs }
        else section_line info trimmed info.section)

unfoldable pub version_lines : VersionInfo → List Text → VersionInfo
unfolding version_line
version_lines info [] = info
version_lines info (line ∷ lines) = version_lines (version_line info (trim line)) lines

unfoldable pub parse_readelf_version_info : Text → List Text × List (Text × List Text)
unfolding version_lines
parse_readelf_version_info output =
    let info =
      version_lines (record { section = outside; current_file = none; defined = []; needed = [] })
        (split b'\n' output) in
    (info.defined, info.needed)

-- `^([0-9a-f]{8,16})\s+[0-9a-f]+\s+(\S+)\s+([0-9a-f]+)\s+(\S+)`.
abbrev pub relocation_line : Re
relocation_line =
    start
    ⋅ group 1 (times 8 hex ⋅ up_to 8 hex)
    ⋅ spaces
    ⋅ plus hex
    ⋅ spaces
    ⋅ group 2 (plus non_space)
    ⋅ spaces
    ⋅ group 3 (plus hex)
    ⋅ spaces
    ⋅ group 4 (plus non_space)

-- `^[0-9a-f]{8,16}\s+[0-9a-f]+\s+R_`: the next entry begins.
abbrev pub next_entry : Re
next_entry = start ⋅ times 8 hex ⋅ up_to 8 hex ⋅ spaces ⋅ plus hex ⋅ spaces ⋅ lit (codes "R_")

-- `^[0-9a-f]+\+$`.
abbrev addend : Re
addend = start ⋅ plus hex ⋅ lit (codes "+") ⋅ end

unfoldable pub relocation_symbol : Text → Option Text
unfolding test drop_version
relocation_symbol symbol =
    if not (is_empty symbol) && not (test addend symbol)
    then some (trim (drop_version symbol))
    else none

-- `while`: the lines that do not begin an entry are passed over.
unfoldable pub skip_wrapped : List Text → List Text
unfolding test
skip_wrapped [] = []
skip_wrapped (line ∷ lines) =
    if test next_entry (trim line) then line ∷ lines else skip_wrapped lines

abbrev relocation_of : Option Text → Option Text → Option Text → Option RelocationEntry
relocation_of (some offset) (some type) (some symbol) =
    some (record { offset = read_hex 0 offset; type = type; symbol = relocation_symbol symbol })
relocation_of _ _ _ = none

-- The entry that a line begins: what follows the match in later lines is not read again.
unfoldable pub relocation_at : Text → Option RelocationEntry
unfolding exec_group read_hex relocation_symbol
relocation_at line =
    relocation_of (exec_group 1 relocation_line line) (exec_group 2 relocation_line line)
      (exec_group 4 relocation_line line)

-- The outer loop; every round passes over a line, so the number of lines is fuel enough.
abbrev next_relocations :
    (List Text → List RelocationEntry) → List Text → Option RelocationEntry → List RelocationEntry
next_relocations more lines none = more lines
next_relocations more lines (some entry) = entry ∷ more (skip_wrapped lines)

unfoldable pub relocations_from : ℕ → List Text → List RelocationEntry
unfolding relocation_at skip_wrapped
relocations_from zero lines = []
relocations_from (suc fuel) [] = []
relocations_from (suc fuel) (line ∷ lines) =
    next_relocations (relocations_from fuel) lines (relocation_at (trim line))

unfoldable pub relocation_entries : List Text → List RelocationEntry
unfolding relocations_from
relocation_entries lines = relocations_from (suc (length lines)) lines

unfoldable pub parse_readelf_relocations : Text → List RelocationEntry
unfolding relocation_entries
parse_readelf_relocations output = relocation_entries (split b'\n' output)
