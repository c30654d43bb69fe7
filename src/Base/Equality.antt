-- ===== src/Base/Equality.antt =====
-- Decidable equality as an interface, and the source's `Set` as a list without repetition.
use Prim.Native.Nat.{ℕ}
use mathlib.Core.Path.{◌≡◌, refl, sym}
use mathlib.Core.Logic.{◌↔◌, inl, inr}
use mathlib.Core.Bool.{Bool, true, false, ◌||◌, ◌&&◌}
use mathlib.Core.List.{List, [], ◌∷◌, ◌++◌, Memᴰ}
use mathlib.Core.List.Memᴰ
use native.Mathlib.Omega.{arith}
use chaotic_next.Base.Lists.{keep, any, any-intro, any-elim}
use chaotic_next.Base.Tests.{nat_beq, nat_beq_iff, if◌then◌else◌, Bool-cases}

infix 50 ◌==◌
pub record EqBy {ℓ} (A : Type ℓ) : Type ℓ where
  pub beq : A → A → Bool
  pub beq_iff : (x y : A) → (beq x y ≡ true) ↔ (x ≡ y)

abbrev pub ◌==◌ {ℓ} : {A : Type ℓ} ⦃e : EqBy A⦄ → A → A → Bool
◌==◌ ⦃e⦄ = e.beq

instance abbrev pub nat_eq : EqBy ℕ
nat_eq = record { beq = nat_beq; beq_iff = nat_beq_iff }

module _ {ℓ} {A : Type ℓ} ⦃e : EqBy A⦄ where
  pub eq_self : (a : A) → (a == a) ≡ true
  eq_self a = (e.beq_iff a a).1 refl

  -- `includes` of an array, `has` of a set.
  abbrev pub has : A → List A → Bool
  has a [] = false
  has a (x ∷ xs) = x == a || has a xs

  -- A set filled from a list: later copies are ignored, the order of first insertion is kept.
  abbrev pub dedupe_from : List A → List A → List A
  dedupe_from seen [] = seen
  dedupe_from seen (x ∷ xs) = dedupe_from (if has x seen then seen else seen ++ x ∷ []) xs

  abbrev pub dedupe : List A → List A
  dedupe xs = dedupe_from [] xs

  pub has-append : (a : A) (xs ys : List A) → has a (xs ++ ys) ≡ (has a xs || has a ys)
  has-append a [] ys = refl
  has-append a (x ∷ xs) ys = ground (arith, has-append a xs ys)

  has-add :
      (a x : A) (seen : List A)
      → has a (if has x seen then seen else seen ++ x ∷ []) ≡ (has a seen || x == a)
  has-add a x seen = ground (arith, has-append a seen (x ∷ []), e.beq_iff x a)

  pub has-dedupe_from :
      (a : A) (seen xs : List A) → has a (dedupe_from seen xs) ≡ (has a seen || has a xs)
  has-dedupe_from a seen [] = ground arith
  has-dedupe_from a seen (x ∷ xs) =
      ground (
        arith,
        has-dedupe_from a (if has x seen then seen else seen ++ x ∷ []) xs,
        has-add a x seen,
      )

  pub has-dedupe : (a : A) (xs : List A) → has a (dedupe xs) ≡ has a xs
  has-dedupe a xs = has-dedupe_from a [] xs

  pub has-mem : (a : A) (xs : List A) → has a xs ≡ true → Memᴰ a xs
  has-mem a [] h = cc
  has-mem a (x ∷ xs) h = elim (Bool-cases (x == a)) [
    | inl same ↦ Memᴰ.head (sym ((e.beq_iff x a).0 same))
    | inr other ↦ Memᴰ.tail (has-mem a xs (ground arith))
  ]

  pub mem-has : (a : A) (xs : List A) → Memᴰ a xs → has a xs ≡ true
  mem-has a [] m = absurd (Memᴰ.not-nil m)
  mem-has a (x ∷ xs) (Memᴰ.head p) = ground (arith, e.beq_iff x a)
  mem-has a (x ∷ xs) (Memᴰ.tail m) = ground (arith, mem-has a xs m)

  pub has-keep : (p : A → Bool) (a : A) (xs : List A) → has a (keep p xs) ≡ (has a xs && p a)
  has-keep p a [] = refl
  has-keep p a (x ∷ xs) = ground (arith, has-keep p a xs, e.beq_iff x a)

  -- Every element of the first list is in the second.
  abbrev pub Within : List A → List A → Type ℓ
  Within xs ys = (a : A) → has a xs ≡ true → has a ys ≡ true

  pub any-Within :
      (p : A → Bool) (xs ys : List A) → Within xs ys → any p xs ≡ true → any p ys ≡ true
  any-Within p xs ys h t =
      let (x, m, ok) = any-elim p xs t in any-intro p ys (has-mem x ys (h x (mem-has x xs m))) ok
