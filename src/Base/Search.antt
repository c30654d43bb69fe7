-- ===== src/Base/Search.antt =====
-- A loop that returns the first result that it finds, and what follows when there is none.
use mathlib.Core.Path.{◌≡◌, refl}
use mathlib.Core.Logic.{inl, inr, ◌⊎◌}
use mathlib.Core.Option.{Option, none, some, none-ne-some, some-injective}
use mathlib.Core.Option as Option
use mathlib.Core.Bool.{Bool, true, false}
use chaotic_next.Base.Tests.{if◌then◌else◌}
use mathlib.Core.List.{List, [], ◌∷◌, Memᴰ}
use mathlib.Core.List.Memᴰ

-- `a ?? b`, where both may be left out.
abbrev pub or_try {ℓ} : {A : Type ℓ} → Option A → Option A → Option A
or_try none b = b
or_try (some a) b = some a

pub or_try-cases {ℓ} :
    {A : Type ℓ} (a b : Option A) {x : A}
    → or_try a b ≡ some x
    → (a ≡ some x) ⊎ ((a ≡ none) × (b ≡ some x))
or_try-cases none b e = inr (refl, e)
or_try-cases (some y) b e = inl e

pub or_try-none {ℓ} : {A : Type ℓ} (a b : Option A) → or_try a b ≡ none → (a ≡ none) × (b ≡ none)
or_try-none none b e = (refl, e)
or_try-none (some y) b e = cc

-- A result under a test that skips it.
pub skipped-some {ℓ} :
    {A : Type ℓ} (skipped : Bool) (o : Option A) {x : A}
    → (if skipped then none else o) ≡ some x
    → (skipped ≡ false) × (o ≡ some x)
skipped-some true o e = absurd (none-ne-some _ e)
skipped-some false o e = (refl, e)

module _ {ℓ κ} {A : Type ℓ} {B : Type κ} where
  pub option_map-some :
      (f : A → B) (o : Option A) {y : B}
      → Option.map f o ≡ some y
      → (x : A) × ((o ≡ some x) × (f x ≡ y))
  option_map-some f none e = absurd (none-ne-some _ e)
  option_map-some f (some x) e = (x, (refl, some-injective _ _ e))

  abbrev pub first_some : (A → Option B) → List A → Option B
  first_some f [] = none
  first_some f (x ∷ xs) = or_try (f x) (first_some f xs)

  pub first_some-mem :
      (f : A → Option B) (xs : List A) {y : B}
      → first_some f xs ≡ some y
      → (x : A) × (Memᴰ x xs × (f x ≡ some y))
  first_some-mem f [] e = absurd (none-ne-some _ e)
  first_some-mem f (x ∷ xs) e = elim (or_try-cases (f x) (first_some f xs) e) [
    | inl here ↦ (x, (Memᴰ.head refl, here))
    | inr (miss, later) ↦ let (z, (m, h)) = first_some-mem f xs later in (z, (Memᴰ.tail m, h))
  ]

  pub first_some-none :
      (f : A → Option B) (xs : List A) {x : A} → first_some f xs ≡ none → Memᴰ x xs → f x ≡ none
  first_some-none f [] e m = absurd (Memᴰ.not-nil m)
  first_some-none f (y ∷ xs) e (Memᴰ.head p) =
      rw (p, (or_try-none (f y) (first_some f xs) e).0) refl
  first_some-none f (y ∷ xs) e (Memᴰ.tail m) =
      first_some-none f xs (or_try-none (f y) (first_some f xs) e).1 m
