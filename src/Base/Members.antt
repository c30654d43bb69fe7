-- ===== src/Base/Members.antt =====
-- Membership in lists that are filtered, mapped and flattened.
use mathlib.Core.Path.{◌≡◌, refl, ap}
use mathlib.Core.Logic.{inl, inr, ◌⊎◌}
use mathlib.Core.Bool.{Bool, true, false}
use mathlib.Core.List.{List, [], ◌∷◌, map, Memᴰ}
use mathlib.Core.List.Memᴰ
use chaotic_next.Base.Tests.{if◌then◌else◌, Bool-cases}
use chaotic_next.Base.Lists.{keep, flat_map}

kept-cases {ℓ} :
    {A : Type ℓ} (hit : Bool) {x y : A} {rest : List A}
    → Memᴰ y (if hit then x ∷ rest else rest)
    → ((hit ≡ true) × (y ≡ x)) ⊎ Memᴰ y rest
kept-cases true (Memᴰ.head p) = inl (refl, p)
kept-cases true (Memᴰ.tail m) = inr m
kept-cases false m = inr m

-- A list that is passed over, and one that is there only where a test holds.
pub unless-mem {ℓ} :
    {A : Type ℓ} (skipped : Bool) {x : A} {xs : List A}
    → Memᴰ x (if skipped then [] else xs)
    → (skipped ≡ false) × Memᴰ x xs
unless-mem true m = absurd (Memᴰ.not-nil m)
unless-mem false m = (refl, m)

pub when-mem {ℓ} :
    {A : Type ℓ} (wanted : Bool) {x : A} {xs : List A}
    → Memᴰ x (if wanted then xs else [])
    → (wanted ≡ true) × Memᴰ x xs
when-mem true m = (refl, m)
when-mem false m = absurd (Memᴰ.not-nil m)

module _ {ℓ} {A : Type ℓ} where
  pub keep-mem :
      (p : A → Bool) {x : A} (xs : List A) → Memᴰ x (keep p xs) → Memᴰ x xs × (p x ≡ true)
  keep-mem p [] m = absurd (Memᴰ.not-nil m)
  keep-mem p (y ∷ xs) m = elim (kept-cases (p y) m) [
    | inl (ok, same) ↦ (Memᴰ.head same, rw same ok)
    | inr later ↦ let (n, ok) = keep-mem p xs later in (Memᴰ.tail n, ok)
  ]

  pub mem-keep : (p : A → Bool) {x : A} (xs : List A) → Memᴰ x xs → p x ≡ true → Memᴰ x (keep p xs)
  mem-keep p [] m ok = absurd (Memᴰ.not-nil m)
  mem-keep p (y ∷ xs) (Memᴰ.head same) ok = rw (← same, ok) (Memᴰ.head refl)
  mem-keep p (y ∷ xs) (Memᴰ.tail m) ok = elim (Bool-cases (p y)) [
    | inl here ↦ rw here (Memᴰ.tail (mem-keep p xs m ok))
    | inr miss ↦ rw miss (mem-keep p xs m ok)
  ]

module _ {ℓ κ} {A : Type ℓ} {B : Type κ} where
  pub map-mem :
      (f : A → B) {y : B} (xs : List A) → Memᴰ y (map f xs) → (x : A) × (Memᴰ x xs × (y ≡ f x))
  map-mem f [] m = absurd (Memᴰ.not-nil m)
  map-mem f (x ∷ xs) (Memᴰ.head p) = (x, (Memᴰ.head refl, p))
  map-mem f (x ∷ xs) (Memᴰ.tail m) = let (z, (n, p)) = map-mem f xs m in (z, (Memᴰ.tail n, p))

  pub mem-map : (f : A → B) {x : A} (xs : List A) → Memᴰ x xs → Memᴰ (f x) (map f xs)
  mem-map f [] m = absurd (Memᴰ.not-nil m)
  mem-map f (y ∷ xs) (Memᴰ.head p) = Memᴰ.head (ap f p)
  mem-map f (y ∷ xs) (Memᴰ.tail m) = Memᴰ.tail (mem-map f xs m)

  pub flat_map-mem :
      (f : A → List B) {y : B} (xs : List A)
      → Memᴰ y (flat_map f xs)
      → (x : A) × (Memᴰ x xs × Memᴰ y (f x))
  flat_map-mem f [] m = absurd (Memᴰ.not-nil m)
  flat_map-mem f (x ∷ xs) m = elim (Memᴰ.append_cases (f x) m) [
    | inl here ↦ (x, (Memᴰ.head refl, here))
    | inr later ↦ let (z, (n, h)) = flat_map-mem f xs later in (z, (Memᴰ.tail n, h))
  ]

  pub mem-flat_map :
      (f : A → List B) {x : A} {y : B} (xs : List A)
      → Memᴰ x xs
      → Memᴰ y (f x)
      → Memᴰ y (flat_map f xs)
  mem-flat_map f [] m h = absurd (Memᴰ.not-nil m)
  mem-flat_map f {x} (z ∷ xs) (Memᴰ.head p) h = Memᴰ.append_left (flat_map f xs) (rw (← p) h)
  mem-flat_map f (z ∷ xs) (Memᴰ.tail m) h = Memᴰ.append_right (f z) (mem-flat_map f xs m h)
