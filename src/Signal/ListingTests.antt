-- ===== src/Signal/ListingTests.antt =====
-- Runs of the parsers on lines of the tools.
use chaotic_next.Base.{
  ◌≡◌, refl, some, false, codes, [], ◌∷◌, Text, split, trim, is_space, starts_with, index_of,
  text_eq,
}
use chaotic_next.Base.Regex.{test}
use chaotic_next.Signal.Abi.{RelocationEntry}
use chaotic_next.Signal.Listings.{
  parse_tar_verbose_list, parse_readelf_dynamic, parse_undefined_symbols, parse_defined_symbols,
  parse_nm_symbols_with_size,
}
use chaotic_next.Signal.Sections.{
  parse_readelf_version_info, relocation_entries, relocation_at, next_entry,
}
use chaotic_next.Signal.Sections.Wrapped.{relocation_entries-wrapped}

parse_tar_verbose_list-two :
    parse_tar_verbose_list
      (codes "-rwxr-xr-x 0 root root 123 Jan  2 2024 usr/bin/a b\ndrwxr-xr-x x\n")
    ≡ record { path = codes "usr/bin/a b"; mode = codes "-rwxr-xr-x" } ∷ []
unfolding parse_tar_verbose_list split is_space
parse_tar_verbose_list-two = refl

parse_readelf_dynamic-library :
    parse_readelf_dynamic (
      codes " 0x1 (NEEDED)  Shared library: [libc.so.6]\n 0xe (SONAME) Library soname: [libx.so.1]")
    ≡ record { needed = codes "libc.so.6" ∷ []; soname = some (codes "libx.so.1") }
unfolding parse_readelf_dynamic split is_space
parse_readelf_dynamic-library = refl

parse_undefined_symbols-two :
    parse_undefined_symbols (codes "   U malloc@GLIBC_2.2.5\n   w __gmon\n00 T main")
    ≡ codes "malloc" ∷ codes "__gmon" ∷ []
unfolding parse_undefined_symbols split is_space trim index_of starts_with
parse_undefined_symbols-two = refl

parse_defined_symbols-one : parse_defined_symbols (codes "0011 T main \n\nx") ≡ codes "main" ∷ []
unfolding parse_defined_symbols split is_space trim
parse_defined_symbols-one = refl

parse_nm_symbols_with_size-one :
    parse_nm_symbols_with_size (codes "000000000090e698 0000000000000070 D _ZTVN4E@@V1")
    ≡ record { address = 0x90e698; size = 0x70; type = codes "D"; name = codes "_ZTVN4E" } ∷ []
unfolding parse_nm_symbols_with_size split is_space trim
parse_nm_symbols_with_size-one = refl

parse_readelf_version_info-both :
    parse_readelf_version_info (
      codes
        "Version definition section '.d'\n Flags: BASE Name: libx\n Name: V1\nVersion needs section '.n'\n File: libc.so.6 Cnt: 1\n Name: G_2 Flags: none\n")
    ≡ (codes "V1" ∷ [], (codes "libc.so.6", codes "G_2" ∷ []) ∷ [])
unfolding parse_readelf_version_info split is_space trim
parse_readelf_version_info-both = refl

abbrev entry_line : Text
entry_line = codes "00000090e698  0004 R_X86_64_64  000000 _ZN4Foo@V1"

abbrev foo_entry : RelocationEntry
foo_entry = record {
  offset = 0x90e698;
  type = codes "R_X86_64_64";
  symbol = some (codes "_ZN4Foo");
}

relocation_at-entry_line : relocation_at (trim entry_line) ≡ some foo_entry
unfolding relocation_at is_space trim
relocation_at-entry_line = refl

test-next_entry : test next_entry (trim (codes " 3barEv + 0")) ≡ false
unfolding test is_space trim
test-next_entry = refl

relocation_entries-wrapped_example :
    relocation_entries (entry_line ∷ codes " 3barEv + 0" ∷ entry_line ∷ [])
    ≡ relocation_entries (entry_line ∷ entry_line ∷ [])
relocation_entries-wrapped_example =
    relocation_entries-wrapped entry_line (codes " 3barEv + 0") (entry_line ∷ []) foo_entry
      relocation_at-entry_line test-next_entry
