-- ===== src/Signal/Versions/Epochs.antt =====
-- The order of the epochs of `compareArchVersions` in backend/src/repo-manager/signal/parse.ts, which
-- are numbers of the language.
use chaotic_next.Base.{
  ℕ, zero, suc, ◌*◌, ◌<◌, ◌≡◌, ◌≢◌, refl, Ordering, compare, true, Option, none, some, arith,
  is_some, inl, inr, Bool-cases, ltb, ◌↔◌,
}
use chaotic_next.Signal.Versions.{then_by, compare_epochs}
use native.Mathlib.Nat.{mul-lt-mul_of_pos_right}
use chaotic_next.Base.Number.{
  Magnitude, fraction, infinity, Number, below, from, power, compare_magnitudes, compare_numbers,
}

power_pos : (d : ℕ) → 0 < power d
power_pos zero = omega arith
power_pos (suc d) = omega (arith, power_pos d)

compare_magnitudes_self : (a : Magnitude) → compare_magnitudes a a ≡ Ordering.eq
compare_magnitudes_self (fraction n d) = ground arith
compare_magnitudes_self infinity = refl

abbrev pub flip : Ordering → Ordering
flip Ordering.lt = Ordering.gt
flip Ordering.eq = Ordering.eq
flip Ordering.gt = Ordering.lt

compare_magnitudes-flip : (a b : Magnitude) → compare_magnitudes b a ≡ flip (compare_magnitudes a b)
compare_magnitudes-flip (fraction n d) (fraction m e) = ground arith
compare_magnitudes-flip (fraction n d) infinity = refl
compare_magnitudes-flip infinity (fraction m e) = refl
compare_magnitudes-flip infinity infinity = refl

-- Both sides of a comparison times a positive number.
compare-times : (x y k : ℕ) → 0 < k → compare (x * k) (y * k) ≡ compare x y
compare-times x y k h = elim (Bool-cases (ltb x y)) [
  | inl less ↦ let xy : x < y = ground arith in ground (arith, mul-lt-mul_of_pos_right xy h)
  | inr not_less ↦ elim (Bool-cases (ltb y x)) [
    | inl less ↦ let yx : y < x = ground arith in ground (arith, mul-lt-mul_of_pos_right yx h)
    | inr equal ↦ let same : x ≡ y = ground arith in rw same (ground arith)
  ]
]

compare-chain :
    (x y z : ℕ)
    → compare x y ≢ Ordering.gt
    → compare y z ≢ Ordering.gt
    → compare x z ≡ then_by (compare x y) (compare y z)
compare-chain x y z p q = ground arith

swap_last : (n a b : ℕ) → n * a * b ≡ n * b * a
swap_last n a b = omega arith

compare_magnitudes-chain :
    (a b c : Magnitude)
    → compare_magnitudes a b ≢ Ordering.gt
    → compare_magnitudes b c ≢ Ordering.gt
    → compare_magnitudes a c ≡ then_by (compare_magnitudes a b) (compare_magnitudes b c)
compare_magnitudes-chain (fraction n d) (fraction m e) (fraction k f) p q =
    let pd = power d in
    let pe = power e in
    let pf = power f in
    let ab : compare (n * pe * pf) (m * pd * pf) ≡ compare (n * pe) (m * pd) =
      compare-times (n * pe) (m * pd) pf (power_pos f) in
    let bc : compare (m * pd * pf) (k * pe * pd) ≡ compare (m * pf) (k * pe) =
      rw (swap_last m pd pf) (compare-times (m * pf) (k * pe) pd (power_pos d)) in
    let ac : compare (n * pe * pf) (k * pe * pd) ≡ compare (n * pf) (k * pd) =
      rw (swap_last n pe pf, swap_last k pe pd)
        (compare-times (n * pf) (k * pd) pe (power_pos e)) in
    ground (arith, ab, bc, ac, compare-chain (n * pe * pf) (m * pd * pf) (k * pe * pd))
compare_magnitudes-chain (fraction n d) (fraction m e) infinity p q = ground arith
compare_magnitudes-chain (fraction n d) infinity (fraction k f) p q = ground arith
compare_magnitudes-chain (fraction n d) infinity infinity p q = ground arith
compare_magnitudes-chain infinity (fraction m e) c p q = ground arith
compare_magnitudes-chain infinity infinity (fraction k f) p q = ground arith
compare_magnitudes-chain infinity infinity infinity p q = ground arith

compare_numbers_self : (a : Number) → compare_numbers a a ≡ Ordering.eq
compare_numbers_self (below a) = compare_magnitudes_self a
compare_numbers_self (from a) = compare_magnitudes_self a

compare_numbers-flip : (a b : Number) → compare_numbers b a ≡ flip (compare_numbers a b)
compare_numbers-flip (below a) (below b) = compare_magnitudes-flip b a
compare_numbers-flip (below a) (from b) = refl
compare_numbers-flip (from a) (below b) = refl
compare_numbers-flip (from a) (from b) = compare_magnitudes-flip a b

compare_numbers-chain :
    (a b c : Number)
    → compare_numbers a b ≢ Ordering.gt
    → compare_numbers b c ≢ Ordering.gt
    → compare_numbers a c ≡ then_by (compare_numbers a b) (compare_numbers b c)
compare_numbers-chain (below a) (below b) (below c) p q =
    ground (arith, compare_magnitudes-chain c b a)
compare_numbers-chain (below a) (below b) (from c) p q = ground arith
compare_numbers-chain (below a) (from b) (below c) p q = ground arith
compare_numbers-chain (below a) (from b) (from c) p q = ground arith
compare_numbers-chain (from a) (below b) c p q = ground arith
compare_numbers-chain (from a) (from b) (below c) p q = ground arith
compare_numbers-chain (from a) (from b) (from c) p q = compare_magnitudes-chain a b c p q

-- An epoch that is a number equals itself, and one that is none does not.
pub compare_epochs-self_iff :
    (x : Option Number) → (compare_epochs x x ≡ Ordering.eq) ↔ (is_some x ≡ true)
compare_epochs-self_iff none = ground arith
compare_epochs-self_iff (some x) = ground (arith, compare_numbers_self x)

pub compare_epochs-flip :
    (x y : Option Number)
    → is_some x ≡ true
    → is_some y ≡ true
    → compare_epochs y x ≡ flip (compare_epochs x y)
compare_epochs-flip (some x) (some y) _ _ = compare_numbers-flip x y
compare_epochs-flip none y h _ = cc
compare_epochs-flip (some x) none _ h = cc

pub compare_epochs-chain :
    (x y z : Option Number)
    → is_some x ≡ true
    → is_some y ≡ true
    → is_some z ≡ true
    → compare_epochs x y ≢ Ordering.gt
    → compare_epochs y z ≢ Ordering.gt
    → compare_epochs x z ≡ then_by (compare_epochs x y) (compare_epochs y z)
compare_epochs-chain (some x) (some y) (some z) _ _ _ p q = compare_numbers-chain x y z p q
compare_epochs-chain none y z h _ _ p q = cc
compare_epochs-chain (some x) none z _ h _ p q = cc
compare_epochs-chain (some x) (some y) none _ _ h p q = cc
