-- ===== src/Base/Decimal.antt =====
-- `decimal` and `read_decimal`, the two directions of a printed number.
use chaotic_next.Base.{
  ℕ, zero, suc, ◌+◌, ◌*◌, ◌/◌, ◌%◌, ◌<◌, ◌≡◌, ◌≢◌, refl, true, [], ◌∷◌, ◌++◌, Text, is_digit,
  digit_value, all, decimal_from, decimal, read_from, read_decimal, arith,
}

decimal_from-append :
    (f n : ℕ) (out ys : Text) → decimal_from f n (out ++ ys) ≡ decimal_from f n out ++ ys
unfolding decimal_from
decimal_from-append zero n out ys = refl
decimal_from-append (suc f) n out ys =
    ground (arith, decimal_from-append f (n / 10) ((b'0' + n % 10) ∷ out) ys)

read_from-append :
    (acc : ℕ) (s : Text) (c : ℕ)
    → read_from acc (s ++ c ∷ []) ≡ read_from acc s * 10 + digit_value c
unfolding read_from
read_from-append acc [] c = refl
read_from-append acc (d ∷ s) c = read_from-append (acc * 10 + digit_value d) s c

read_from-decimal_from : (f n : ℕ) → n < f → read_from 0 (decimal_from f n []) ≡ n
unfolding decimal_from read_from
read_from-decimal_from zero n h = absurd (omega arith)
read_from-decimal_from (suc f) n h = ground (
  arith,
  decimal_from-append f (n / 10) [] ((b'0' + n % 10) ∷ []),
  read_from-append 0 (decimal_from f (n / 10) []) (b'0' + n % 10),
  read_from-decimal_from f (n / 10),
)

-- What `decimal` prints is read back as the same number.
pub read_decimal-decimal : (n : ℕ) → read_decimal (decimal n) ≡ n
unfolding decimal read_decimal
read_decimal-decimal n = read_from-decimal_from (suc n) n (omega arith)

all-decimal_from : (f n : ℕ) (out : Text) → all is_digit (decimal_from f n out) ≡ all is_digit out
unfolding decimal_from
all-decimal_from zero n out = refl
all-decimal_from (suc f) n out = ground (arith, all-decimal_from f (n / 10) ((b'0' + n % 10) ∷ out))

pub all-decimal : (n : ℕ) → all is_digit (decimal n) ≡ true
unfolding decimal
all-decimal n = all-decimal_from (suc n) n []

decimal_from-ne-nil : (f n d : ℕ) (out : Text) → decimal_from f n (d ∷ out) ≢ []
unfolding decimal_from
decimal_from-ne-nil zero n d out = ground arith
decimal_from-ne-nil (suc f) n d out =
    ground (arith, decimal_from-ne-nil f (n / 10) (b'0' + n % 10) (d ∷ out))

pub decimal-ne-nil : (n : ℕ) → decimal n ≢ []
unfolding decimal decimal_from
decimal-ne-nil n = ground (arith, decimal_from-ne-nil n (n / 10) (b'0' + n % 10) [])
