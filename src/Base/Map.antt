-- ===== src/Base/Map.antt =====
-- The source's `Map` as an association list in insertion order.
pub mod Entries
use mathlib.Core.Path.{◌≡◌, refl}
use mathlib.Core.Option.{Option, none, some}
use mathlib.Core.List.{List, [], ◌∷◌}
use native.Mathlib.Omega.{arith}
use chaotic_next.Base.Tests.{if◌then◌else◌}
use mathlib.Core.Bool.{not}
use chaotic_next.Base.Lists.{keep}
use chaotic_next.Base.Equality.{EqBy, ◌==◌}

module _ {ℓ κ} {K : Type ℓ} {V : Type κ} ⦃e : EqBy K⦄ where
  abbrev pub get : K → List (K × V) → Option V
  get k [] = none
  get k ((j, v) ∷ m) = if j == k then some v else get k m

  -- `map.set`: a key keeps its place, a new key goes to the end.
  abbrev pub put : K → V → List (K × V) → List (K × V)
  put k v [] = (k, v) ∷ []
  put k v ((j, w) ∷ m) = if j == k then (j, v) ∷ m else (j, w) ∷ put k v m

  -- `map.delete`.
  abbrev pub remove : K → List (K × V) → List (K × V)
  remove k m = keep (λ entry. not (entry.0 == k)) m

  pub get-remove :
      (k j : K) (m : List (K × V)) → get j (remove k m) ≡ (if k == j then none else get j m)
  get-remove k j [] = ground arith
  get-remove k j ((i, w) ∷ m) =
      ground (arith, e.beq_iff i k, e.beq_iff i j, e.beq_iff k j, get-remove k j m)

  pub get-put :
      (k j : K) (v : V) (m : List (K × V))
      → get j (put k v m) ≡ (if k == j then some v else get j m)
  get-put k j v [] = refl
  get-put k j v ((i, w) ∷ m) =
      ground (arith, e.beq_iff i k, e.beq_iff i j, e.beq_iff k j, get-put k j v m)
