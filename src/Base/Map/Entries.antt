-- ===== src/Base/Map/Entries.antt =====
-- The number of entries of a map, and what holds of each of them.
use Prim.Native.Nat.{◌+◌, ◌≤◌, ◌<◌}
use mathlib.Core.Path.{◌≡◌, refl, subst}
use mathlib.Core.Option.{some, none-ne-some, some-injective}
use mathlib.Core.List.{List, [], ◌∷◌}
use mathlib.Core.Logic.{inl, inr}
use native.Mathlib.Omega.{arith}
use chaotic_next.Base.Tests.{Bool-cases}
use chaotic_next.Base.Lists.{length, All}
use chaotic_next.Base.Equality.{EqBy, ◌==◌}
use chaotic_next.Base.Map.{get, put, remove}

module _ {ℓ κ} {K : Type ℓ} {V : Type κ} ⦃e : EqBy K⦄ where
  pub length-put : (k : K) (v : V) (m : List (K × V)) → length (put k v m) ≤ length m + 1
  length-put k v [] = omega arith
  length-put k v ((j, w) ∷ m) = ground (arith, length-put k v m)

  pub length-remove : (k : K) (m : List (K × V)) → length (remove k m) ≤ length m
  length-remove k [] = omega arith
  length-remove k ((j, w) ∷ m) = ground (arith, length-remove k m)

  -- A key that is there is removed.
  pub length-remove_lt :
      (k : K) (m : List (K × V)) {v : V} → get k m ≡ some v → length (remove k m) < length m
  length-remove_lt k [] h = absurd (none-ne-some _ h)
  length-remove_lt k ((j, w) ∷ m) h = elim (Bool-cases (j == k)) [
    | inl here ↦ rw here (omega (arith, length-remove k m))
    | inr other ↦ rw other (omega (arith, length-remove_lt k m (rw other at h)))
  ]

  module _ {μ} (P : K × V → Type μ) where
    pub All-put :
        (k : K) (v : V) (m : List (K × V))
        → ((j : K) → (j ≡ k) → P (j, v))
        → All P m
        → All P (put k v m)
    All-put k v [] p h = (p k refl, tt)
    All-put k v ((j, w) ∷ m) p h = elim (Bool-cases (j == k)) [
      | inl here ↦ rw here (p j ((e.beq_iff j k).0 here), h.1)
      | inr other ↦ rw other (h.0, All-put k v m p h.1)
    ]

    pub All-remove : (k : K) (m : List (K × V)) → All P m → All P (remove k m)
    All-remove k [] h = h
    All-remove k ((j, w) ∷ m) h = elim (Bool-cases (j == k)) [
      | inl here ↦ rw here (All-remove k m h.1)
      | inr other ↦ rw other (h.0, All-remove k m h.1)
    ]

    -- An entry that is found.
    pub All-get : (k : K) (m : List (K × V)) {v : V} → All P m → get k m ≡ some v → P (k, v)
    All-get k [] h g = absurd (none-ne-some _ g)
    All-get k ((j, w) ∷ m) {v} h g = elim (Bool-cases (j == k)) [
      | inl here ↦
          subst (λ i. P (i, v)) ((e.beq_iff j k).0 here)
            (subst (λ u. P (j, u)) (some-injective _ _ (rw here at g)) h.0)
      | inr other ↦ All-get k m h.1 (rw other at g)
    ]
