-- ===== src/Base/Number.antt =====
-- What `Number(text)` of the language reads, as exact numbers: a decimal literal with a sign, a point
-- and an exponent, a hexadecimal, octal or binary literal, `Infinity`, or a blank text. A text that is
-- none of these is NaN, which is `none`. The source's numbers are rounded to doubles.
use mathlib.Core.Option as Option
use chaotic_next.Base.{
  ℕ, zero, suc, ◌+◌, ◌-◌, ◌*◌, Ordering, compare, Bool, true, false, not, ◌&&◌, ◌||◌, Option, none,
  some, [], ◌∷◌, ◌++◌, Text, codes, text_eq, nat_eq, ◌==◌, trim, is_digit, read_decimal, length,
  drop, all, leb, ltb, if◌then◌else◌,
}
use chaotic_next.Base.Search.{or_try}

-- `fraction n d` is n / 10 ^ d.
pub data Magnitude : Type 0 where
  fraction : ℕ → ℕ → Magnitude
  infinity : Magnitude

-- A number below zero, or one from zero on.
pub data Number : Type 0 where
  below from : Magnitude → Number

abbrev pub power : ℕ → ℕ
power zero = 1
power (suc d) = 10 * power d

abbrev pub compare_magnitudes : Magnitude → Magnitude → Ordering
compare_magnitudes (fraction n d) (fraction m e) = compare (n * power e) (m * power d)
compare_magnitudes (fraction n d) infinity = Ordering.lt
compare_magnitudes infinity (fraction m e) = Ordering.gt
compare_magnitudes infinity infinity = Ordering.eq

abbrev pub compare_numbers : Number → Number → Ordering
compare_numbers (below a) (below b) = compare_magnitudes b a
compare_numbers (below a) (from b) = Ordering.lt
compare_numbers (from a) (below b) = Ordering.gt
compare_numbers (from a) (from b) = compare_magnitudes a b

-- -0 equals 0.
abbrev negate : Magnitude → Number
negate (fraction zero d) = from (fraction zero d)
negate (fraction (suc n) d) = below (fraction (suc n) d)
negate infinity = below infinity

-- The value of a digit, and 36 for another character.
abbrev digit_of : ℕ → ℕ
digit_of c =
    if is_digit c
    then c - b'0'
    else if leb b'a' c && leb c b'z'
    then c - b'a' + 10
    else if leb b'A' c && leb c b'Z'
    then c - b'A' + 10
    else 36

unfoldable pub read_digits : ℕ → ℕ → Text → Option ℕ
read_digits base value [] = some value
read_digits base value (c ∷ s) =
    let rest = read_digits base (value * base + digit_of c) s in
    if ltb (digit_of c) base then rest else none

abbrev literal_in : ℕ → Text → Option Number
literal_in base [] = none
literal_in base (c ∷ s) = Option.map (λ n. from (fraction n 0)) (read_digits base 0 (c ∷ s))

-- `0x`, `0o` and `0b`, which take no sign.
abbrev radix_literal : Text → Option Number
radix_literal (z ∷ x ∷ s) =
    if not (z == b'0')
    then none
    else if x == b'x' || x == b'X'
    then literal_in 16 s
    else if x == b'o' || x == b'O'
    then literal_in 8 s
    else if x == b'b' || x == b'B'
    then literal_in 2 s
    else none
radix_literal _ = none

unfoldable pub leading_digits : Text → Text
leading_digits [] = []
leading_digits (c ∷ s) = let rest = leading_digits s in if is_digit c then c ∷ rest else []

-- The digits behind a point.
abbrev fraction_digits : Text → Text
fraction_digits [] = []
fraction_digits (c ∷ s) = if c == b'.' then leading_digits s else []

abbrev behind_fraction : Text → Text
behind_fraction [] = []
behind_fraction (c ∷ s) = if c == b'.' then drop (length (leading_digits s)) s else c ∷ s

abbrev exponent_digits : Bool → Text → Option (Bool × ℕ)
exponent_digits negative [] = none
exponent_digits negative (c ∷ s) =
    if all is_digit (c ∷ s) then some (negative, read_decimal (c ∷ s)) else none

abbrev signed_exponent : Text → Option (Bool × ℕ)
signed_exponent [] = none
signed_exponent (c ∷ s) =
    if c == b'+'
    then exponent_digits false s
    else if c == b'-'
    then exponent_digits true s
    else exponent_digits false (c ∷ s)

abbrev exponent_part : Text → Option (Bool × ℕ)
exponent_part [] = some (false, 0)
exponent_part (c ∷ s) = if c == b'e' || c == b'E' then signed_exponent s else none

abbrev scaled : ℕ → ℕ → Bool × ℕ → Magnitude
scaled n d (false, e) = fraction (n * power e) d
scaled n d (true, e) = fraction n (d + e)

unfoldable pub decimal_literal : Text → Option Magnitude
unfolding leading_digits read_decimal
decimal_literal s =
    let whole = leading_digits s in
    let rest = drop (length whole) s in
    let decimals = fraction_digits rest in
    let digits = whole ++ decimals in
    if s == codes "Infinity"
    then some infinity
    else if digits == []
    then none
    else Option.map (scaled (read_decimal digits) (length decimals))
        (exponent_part (behind_fraction rest))

abbrev signed_literal : Text → Option Number
signed_literal [] = none
signed_literal (c ∷ s) =
    if c == b'-'
    then Option.map negate (decimal_literal s)
    else if c == b'+'
    then Option.map from (decimal_literal s)
    else Option.map from (decimal_literal (c ∷ s))

unfoldable pub number : Text → Option Number
unfolding read_digits decimal_literal
number s =
    let t = trim s in
    if t == [] then some (from (fraction 0 0)) else or_try (radix_literal t) (signed_literal t)
