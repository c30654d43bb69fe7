-- ===== src/Signal/Versions/Pkgrel.antt =====
-- `formatPkgrel` and `parsePkgrel` of shared-lib/src/lib/pkgrel.ts, one after the other.
use chaotic_next.Base.{
  ℕ, ◌≡◌, refl, true, some, [], ◌∷◌, ◌++◌, Text, codes, split, trim_start, is_digit, decimal,
  read_decimal, all, ltb, if◌then◌else◌, arith, is_space, text_beq_iff,
}
use chaotic_next.Base.Decimal.{read_decimal-decimal, all-decimal, decimal-ne-nil}
use chaotic_next.Signal.Versions.{format_pkgrel, digit_run, parse_int, parse_pkgrel}

-- A text of digits holds no point.
split-digits : (s : Text) → all is_digit s ≡ true → split b'.' s ≡ s ∷ []
unfolding split
split-digits [] h = refl
split-digits (c ∷ s) h = ground (arith, split-digits s)

split-digits_point :
    (s t : Text) → all is_digit s ≡ true → split b'.' (s ++ b'.' ∷ t) ≡ s ∷ split b'.' t
unfolding split
split-digits_point [] t h = refl
split-digits_point (c ∷ s) t h = ground (arith, split-digits_point s t)

digit_run-digits : (s : Text) → all is_digit s ≡ true → digit_run s ≡ s
unfolding digit_run
digit_run-digits [] h = refl
digit_run-digits (c ∷ s) h = ground (arith, digit_run-digits s)

trim_start-digits : (s : Text) → all is_digit s ≡ true → trim_start s ≡ s
unfolding trim_start is_space
trim_start-digits [] h = refl
trim_start-digits (c ∷ s) h = ground arith

parse_int-decimal : (n : ℕ) → parse_int (decimal n) ≡ some n
unfolding parse_int
parse_int-decimal n = ground (
  arith,
  trim_start-digits (decimal n),
  digit_run-digits (decimal n),
  all-decimal n,
  decimal-ne-nil n,
  read_decimal-decimal n,
  text_beq_iff (decimal n) [],
)

parse_int_zero : parse_int (codes "0") ≡ some 0
unfolding parse_int trim_start is_space read_decimal
parse_int_zero = refl

split-format_pkgrel :
    (pkgrel bump : ℕ)
    → split b'.' (format_pkgrel pkgrel bump)
      ≡ (if ltb 0 bump then decimal pkgrel ∷ decimal bump ∷ [] else decimal pkgrel ∷ [])
unfolding format_pkgrel
split-format_pkgrel pkgrel bump = ground (
  arith,
  split-digits (decimal pkgrel),
  split-digits (decimal bump),
  split-digits_point (decimal pkgrel) (decimal bump),
  all-decimal pkgrel,
  all-decimal bump,
)

-- `parsePkgrel(formatPkgrel(pkgrel, bump))` gives `pkgrel` and `bump` back.
pub parse_pkgrel-format_pkgrel :
    (pkgrel bump : ℕ) → parse_pkgrel (format_pkgrel pkgrel bump) ≡ (pkgrel, bump)
unfolding parse_pkgrel
parse_pkgrel-format_pkgrel pkgrel bump =
    rw (split-format_pkgrel pkgrel bump)
      (ground (arith, parse_int-decimal pkgrel, parse_int-decimal bump, parse_int_zero))
