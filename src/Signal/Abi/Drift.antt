-- ===== src/Signal/Abi/Drift.antt =====
-- When a vtable is compatible, and where a broken one differs.
use mathlib.Core.List.{head?}
use chaotic_next.Base.{
  ℕ, zero, suc, ◌+◌, ◌≡◌, ◌≢◌, ◌↔◌, ◌≤◌, refl, sym, ap, ◌∙◌, Bool, true, false, ◌&&◌, Option, none,
  some, List, [], ◌∷◌, ◌++◌, Text, text_eq, text_beq_iff, ◌==◌, drop, length, get_elem?,
  if◌then◌else◌, arith, inl, inr, Bool-cases, eq_self,
}
use chaotic_next.Signal.Abi.{
  compatible, broken, slot_at, all_at, first_mismatch, from_mismatch, classify_vtable_drift,
  shifted_slots,
}

abbrev is_prefix : List Text → List Text → Bool
is_prefix [] ys = true
is_prefix (x ∷ xs) [] = false
is_prefix (x ∷ xs) (y ∷ ys) = y == x && is_prefix xs ys

-- What is left of a list at an index, with the element there.
data Left (ys : List Text) (i : ℕ) : Type 0 where
  ended : drop i ys ≡ [] → get_elem? ys i ≡ none → drop (suc i) ys ≡ [] → Left ys i
  more :
      (z : Text) (zs : List Text)
      → drop i ys ≡ z ∷ zs
      → get_elem? ys i ≡ some z
      → drop (suc i) ys ≡ zs
      → Left ys i

Left-cons : {y : Text} {ys : List Text} {i : ℕ} → Left ys i → Left (y ∷ ys) (suc i)
Left-cons (ended d g t) = ended d g t
Left-cons (more z zs d g t) = more z zs d g t

left : (ys : List Text) (i : ℕ) → Left ys i
left [] zero = ended refl refl refl
left [] (suc i) = ended refl refl refl
left (y ∷ ys) zero = more y ys refl refl refl
left (y ∷ ys) (suc i) = Left-cons (left ys i)

all_at-is_prefix :
    (new : List Text) (i : ℕ) (old : List Text) → all_at new i old ≡ is_prefix old (drop i new)
unfolding all_at
all_at-is_prefix new i [] = refl
all_at-is_prefix new i (x ∷ xs) = elim (left new i) [
  | ended d g t ↦ ground arith
  | more z zs d g t ↦ ground (arith, all_at-is_prefix new (suc i) xs)
]

is_prefix-append : (xs rest : List Text) → is_prefix xs (xs ++ rest) ≡ true
is_prefix-append [] rest = refl
is_prefix-append (x ∷ xs) rest = rw (eq_self x) (is_prefix-append xs rest)

is_prefix-split :
    (xs ys : List Text) → is_prefix xs ys ≡ true → (rest : List Text) × (ys ≡ xs ++ rest)
is_prefix-split [] ys h = (ys, refl)
is_prefix-split (x ∷ xs) [] h = cc
is_prefix-split (x ∷ xs) (y ∷ ys) h =
    let (rest, e) = is_prefix-split xs ys (ground arith) in (rest, ground (arith, text_beq_iff y x))

is_prefix-length : (xs ys : List Text) → is_prefix xs ys ≡ true → length xs ≤ length ys
is_prefix-length [] ys h = omega arith
is_prefix-length (x ∷ xs) [] h = cc
is_prefix-length (x ∷ xs) (y ∷ ys) h = ground (arith, is_prefix-length xs ys)

classify-is_prefix :
    (old new : List Text)
    → classify_vtable_drift old new ≡ (if is_prefix old new then compatible else broken)
unfolding classify_vtable_drift
classify-is_prefix [] new = refl
classify-is_prefix (x ∷ xs) new =
    ground (arith, all_at-is_prefix new 0 (x ∷ xs), is_prefix-length (x ∷ xs) new)

-- A layout is compatible exactly when the new slots are the old slots with any number of slots, none
-- included, appended: two equal layouts are compatible.
pub classify_vtable_drift-compatible_iff :
    (old new : List Text)
    → (classify_vtable_drift old new ≡ compatible) ↔ ((added : List Text) × (new ≡ old ++ added))
classify_vtable_drift-compatible_iff old new = (
  λ h. is_prefix-split old new (ground (arith, classify-is_prefix old new)),
  λ r. rw (classify-is_prefix old new) (rw (r.1, is_prefix-append old r.0) refl),
)

-- The old slots up to the first that the new layout does not have in its place.
record Divergence (i : ℕ) (old new : List Text) (found : Option ℕ) : Type 0 where
  common : List Text
  slot : Text
  rest : List Text
  tail : List Text
  old_slots : old ≡ common ++ slot ∷ rest
  new_slots : new ≡ common ++ tail
  differs : head? tail ≢ some slot
  index : found ≡ some (i + length common)

Divergence-here :
    (new : List Text) (i : ℕ) (x : Text) (xs ys : List Text)
    → slot_at new i x ≡ false
    → head? ys ≢ some x
    → Divergence i (x ∷ xs) ys (first_mismatch new i (x ∷ xs))
unfolding first_mismatch
Divergence-here new i x xs ys miss d = record {
  common = [];
  slot = x;
  rest = xs;
  tail = ys;
  old_slots = refl;
  new_slots = refl;
  differs = d;
  index = ground arith;
}

Divergence-cons :
    (new : List Text) (i : ℕ) (x : Text) (xs ys : List Text)
    → slot_at new i x ≡ true
    → Divergence (suc i) xs ys (first_mismatch new (suc i) xs)
    → Divergence i (x ∷ xs) (x ∷ ys) (first_mismatch new i (x ∷ xs))
unfolding first_mismatch
Divergence-cons new i x xs ys hit d = record {
  common = x ∷ d.common;
  slot = d.slot;
  rest = d.rest;
  tail = d.tail;
  old_slots = ap (λ l. x ∷ l) d.old_slots;
  new_slots = ap (λ l. x ∷ l) d.new_slots;
  differs = d.differs;
  index = ground (arith, d.index);
}

head-ne_of_miss :
    (new : List Text) (i : ℕ) (x : Text) → slot_at new i x ≡ false → head? (drop i new) ≢ some x
head-ne_of_miss new i x miss = elim (left new i) [
  | ended d g t ↦ ground arith
  | more z zs d g t ↦ ground (arith, text_beq_iff z x)
]

first_mismatch-Divergence :
    (new : List Text) (i : ℕ) (old : List Text)
    → all_at new i old ≡ false
    → Divergence i old (drop i new) (first_mismatch new i old)
unfolding all_at
first_mismatch-Divergence new i [] h = cc
first_mismatch-Divergence new i (x ∷ xs) h = elim (Bool-cases (slot_at new i x)) [
  | inl hit ↦ elim (left new i) [
    | ended d g t ↦ absurd (ground arith)
    | more z zs d g t ↦
        let same : z ≡ x = ground (arith, text_beq_iff z x) in
        let later = rw t at (first_mismatch-Divergence new (suc i) xs (ground arith)) in
        rw (d, same) (Divergence-cons new i x xs zs hit later)
  ]
  | inr miss ↦ Divergence-here new i x xs (drop i new) miss (head-ne_of_miss new i x miss)
]

drop-length : (xs ys : List Text) → drop (length xs) (xs ++ ys) ≡ ys
drop-length [] ys = refl
drop-length (x ∷ xs) ys = drop-length xs ys

-- How a broken layout shifted: both layouts begin with the same slots, and the shifted slots are
-- the old ones behind them, at least one, the first of which is not the next of the new layout.
pub record HasShifted (old new shifted : List Text) : Type 0 where
  pub common : List Text
  pub slot : Text
  pub rest : List Text
  pub tail : List Text
  pub shifted_slots : shifted ≡ slot ∷ rest
  pub old_slots : old ≡ common ++ shifted
  pub new_slots : new ≡ common ++ tail
  pub differs : head? tail ≢ some slot

-- For a broken layout the reported slots are the old slots from the first mismatch on.
pub shifted_slots-HasShifted :
    (old new : List Text)
    → classify_vtable_drift old new ≡ broken
    → HasShifted old new (shifted_slots old new)
unfolding shifted_slots
shifted_slots-HasShifted old new h =
    let d =
      first_mismatch-Divergence new 0 old
        (ground (arith, classify-is_prefix old new, all_at-is_prefix new 0 old)) in
    let shifted : from_mismatch (first_mismatch new 0 old) old ≡ d.slot ∷ d.rest =
      ap (λ m. from_mismatch m old) d.index
      ∙ ap (λ n. drop n old) (omega arith)
      ∙ ap (λ l. drop (length d.common) l) d.old_slots
      ∙ drop-length d.common (d.slot ∷ d.rest) in
    record {
      common = d.common;
      slot = d.slot;
      rest = d.rest;
      tail = d.tail;
      shifted_slots = shifted;
      old_slots = d.old_slots ∙ ap (λ l. d.common ++ l) (sym shifted);
      new_slots = d.new_slots;
      differs = d.differs;
    }
