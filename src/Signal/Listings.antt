-- ===== src/Signal/Listings.antt =====
-- The line parsers of what bsdtar, readelf and nm print: `parseTarVerboseList`,
-- `parseReadelfDynamic`, `parseUndefinedSymbols`, `parseDefinedSymbols` and `parseNmSymbolsWithSize` of
-- backend/src/repo-manager/signal/parse.ts. The patterns run on the engine of Base/Regex.
use chaotic_next.Base.{
  ℕ, ◌+◌, ◌*◌, ◌-◌, Bool, not, ◌&&◌, ◌||◌, Option, none, some, List, [], ◌∷◌, ◌++◌, Text, text_eq,
  codes, ◌==◌, nat_eq, has, is_empty, is_digit, flat_map, split, trim, index_of, take, leb,
  if◌then◌else◌,
}
use chaotic_next.Base.Regex.{
  Re, either, lazy, one, opt, plus, group, lit, start, end, times, spaces, optional_spaces, dot,
  non_space, is_lower, is_upper, ◌⋅◌, exec_group,
}
use chaotic_next.Signal.Abi.{NmSymbolWithSize}

-- `[0-9a-f]`, and `parseInt(s, 16)` of a text of such digits.
abbrev pub is_hex : ℕ → Bool
is_hex c = is_digit c || (leb b'a' c && leb c b'f')

abbrev pub hex : Re
hex = one is_hex

abbrev hex_value : ℕ → ℕ
hex_value c = if is_digit c then c - b'0' else c - b'a' + 10

unfoldable pub read_hex : ℕ → Text → ℕ
read_hex acc [] = acc
read_hex acc (c ∷ s) = read_hex (acc * 16 + hex_value c) s

-- `s.replace(/@.*/, '')`: the first `@` goes, with the rest of its line.
abbrev is_line_end : ℕ → Bool
is_line_end c = c == 10 || (c == 13 || (c == 0x2028 || c == 0x2029))

unfoldable pub drop_line : Text → Text
drop_line [] = []
drop_line (c ∷ s) = if is_line_end c then c ∷ s else drop_line s

unfoldable pub drop_version : Text → Text
unfolding drop_line
drop_version [] = []
drop_version (c ∷ s) = let rest = drop_version s in if c == b'@' then drop_line s else c ∷ rest

abbrev month : Re
month = either (lit (codes "Jan")) (
    either (lit (codes "Feb")) (
      either (lit (codes "Mar")) (
        either (lit (codes "Apr")) (
          either (lit (codes "May")) (
            either (lit (codes "Jun")) (
              either (lit (codes "Jul")) (
                either (lit (codes "Aug")) (
                  either (lit (codes "Sep")) (
                    either (lit (codes "Oct"))
                      (either (lit (codes "Nov")) (lit (codes "Dec"))))))))))))

-- `TAR_VERBOSE_LINE`.
abbrev tar_verbose_line : Re
tar_verbose_line =
    start
    ⋅ group 1 (lit (codes "-") ⋅ times 9 (one (λ c. has c (codes "rwxsStT-"))))
    ⋅ spaces
    ⋅ lazy dot
    ⋅ spaces
    ⋅ month
    ⋅ spaces
    ⋅ one is_digit
    ⋅ opt (one is_digit)
    ⋅ spaces
    ⋅ either (times 2 (one is_digit) ⋅ lit (codes ":") ⋅ times 2 (one is_digit))
        (times 4 (one is_digit))
    ⋅ spaces
    ⋅ group 2 (plus dot)
    ⋅ end

pub record TarEntry : Type 0 where
  pub path : Text
  pub mode : Text

abbrev tar_entry : Option Text → Option Text → List TarEntry
tar_entry (some mode) (some path) = record { path = path; mode = mode } ∷ []
tar_entry none path = []
tar_entry (some mode) none = []

unfoldable pub parse_tar_verbose_list : Text → List TarEntry
unfolding exec_group
parse_tar_verbose_list output =
    flat_map
      (λ line. tar_entry (exec_group 1 tar_verbose_line line) (exec_group 2 tar_verbose_line line))
      (split b'\n' output)

-- `\[([^\]]+)\]`.
abbrev bracketed : Re
bracketed = lit (codes "[") ⋅ group 1 (plus (one (λ c. not (c == b']')))) ⋅ lit (codes "]")

abbrev needed_line : Re
needed_line = lit (codes "(NEEDED)") ⋅ spaces ⋅ lit (codes "Shared library: ") ⋅ bracketed

abbrev soname_line : Re
soname_line = lit (codes "(SONAME)") ⋅ spaces ⋅ lit (codes "Library soname: ") ⋅ bracketed

pub record Dynamic : Type 0 where
  pub needed : List Text
  pub soname : Option Text

abbrev dynamic_line : Option Text → Option Text → Dynamic → Dynamic
dynamic_line (some name) soname d = record d { needed = d.needed ++ name ∷ [] }
dynamic_line none (some name) d = record d { soname = some name }
dynamic_line none none d = d

unfoldable pub dynamic_from : Dynamic → List Text → Dynamic
unfolding exec_group
dynamic_from d [] = d
dynamic_from d (line ∷ lines) =
    dynamic_from (dynamic_line (exec_group 1 needed_line line) (exec_group 1 soname_line line) d)
      lines

unfoldable pub parse_readelf_dynamic : Text → Dynamic
unfolding dynamic_from
parse_readelf_dynamic output =
    dynamic_from (record { needed = []; soname = none }) (split b'\n' output)

abbrev undefined_line : Re
undefined_line =
    start ⋅ optional_spaces ⋅ one (λ c. has c (codes "UwV")) ⋅ spaces ⋅ group 1 (plus dot) ⋅ end

-- `name.slice(0, at)` at the first `@`.
abbrev until : Text → Option ℕ → Text
until name none = name
until name (some place) = take place name

abbrev name_or_nothing : Text → List Text
name_or_nothing name = if is_empty name then [] else name ∷ []

abbrev undefined_symbol : Option Text → List Text
undefined_symbol none = []
undefined_symbol (some found) =
    let name = trim found in name_or_nothing (until name (index_of (codes "@") name))

unfoldable pub parse_undefined_symbols : Text → List Text
unfolding exec_group
parse_undefined_symbols output =
    flat_map (λ line. undefined_symbol (exec_group 1 undefined_line line)) (split b'\n' output)

abbrev defined_line : Re
defined_line =
    start
    ⋅ plus non_space
    ⋅ spaces
    ⋅ one (λ c. is_upper c || is_lower c)
    ⋅ spaces
    ⋅ group 1 (plus dot)
    ⋅ end

abbrev defined_symbol : Option Text → List Text
defined_symbol none = []
defined_symbol (some found) = trim found ∷ []

unfoldable pub parse_defined_symbols : Text → List Text
unfolding exec_group
parse_defined_symbols output =
    flat_map
      (λ line.
        if is_empty (trim line) then [] else defined_symbol (exec_group 1 defined_line (trim line)))
      (split b'\n' output)

-- `^([0-9a-f]+)\s+([0-9a-f]+)\s+(\S)\s+(.+)$`.
abbrev sized_line : Re
sized_line =
    start
    ⋅ group 1 (plus hex)
    ⋅ spaces
    ⋅ group 2 (plus hex)
    ⋅ spaces
    ⋅ group 3 non_space
    ⋅ spaces
    ⋅ group 4 (plus dot)
    ⋅ end

abbrev sized_symbol : Option Text → Option Text → Option Text → Option Text → List NmSymbolWithSize
sized_symbol (some address) (some size) (some type) (some name) =
    record {
      address = read_hex 0 address;
      size = read_hex 0 size;
      type = type;
      name = trim (drop_version name);
    }
    ∷ []
sized_symbol _ _ _ _ = []

unfoldable pub parse_nm_symbols_with_size : Text → List NmSymbolWithSize
unfolding exec_group read_hex drop_version
parse_nm_symbols_with_size output =
    flat_map
      (λ line.
        sized_symbol (exec_group 1 sized_line (trim line)) (exec_group 2 sized_line (trim line))
          (exec_group 3 sized_line (trim line)) (exec_group 4 sized_line (trim line)))
      (split b'\n' output)
