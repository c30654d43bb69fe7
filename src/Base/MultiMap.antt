-- ===== src/Base/MultiMap.antt =====
-- Maps from a key to a list, filled by `push`, as the source's indexes are:
-- `const list = map.get(k) ?? []; list.push(v); map.set(k, list)`.
use mathlib.Core.List.{append_assoc, append-nil, Memᴰ}
use mathlib.Core.List.Memᴰ
use mathlib.Core.Path.{subst}
use chaotic_next.Base.{
  ◌≡◌, refl, sym, ap, ◌∙◌, inl, inr, ◌⊎◌, true, false, List, [], ◌∷◌, ◌++◌, EqBy, ◌==◌, has,
  or_else, if◌then◌else◌, Bool, Bool-cases, arith,
}
use chaotic_next.Base.Map.{get, put, get-put}

copies-step {κ} :
    {V : Type κ} (hit : Bool) {v w : V} {rest : List V}
    → Memᴰ w (if hit then v ∷ rest else rest)
    → ((hit ≡ true) × (w ≡ v)) ⊎ Memᴰ w rest
copies-step true (Memᴰ.head p) = inl (refl, p)
copies-step true (Memᴰ.tail m) = inr m
copies-step false m = inr m

module _ {ℓ κ} {K : Type ℓ} {V : Type κ} ⦃e : EqBy K⦄ where
  abbrev pub entry : K → List (K × List V) → List V
  entry k m = or_else (get k m) []

  abbrev pub push : K → V → List (K × List V) → List (K × List V)
  push k v m = put k (entry k m ++ v ∷ []) m

  -- One value under several keys, and the values of a list each under its keys.
  unfoldable pub push_under : V → List K → List (K × List V) → List (K × List V)
  push_under v [] m = m
  push_under v (k ∷ ks) m = push_under v ks (push k v m)

  unfoldable pub fill : (V → List K) → List V → List (K × List V) → List (K × List V)
  unfolding push_under
  fill keys [] m = m
  fill keys (v ∷ vs) m = fill keys vs (push_under v (keys v) m)

  -- The value once for each time the key is among its keys.
  abbrev pub copies : K → V → List K → List V
  copies k v [] = []
  copies k v (j ∷ js) = let rest = copies k v js in if j == k then v ∷ rest else rest

  abbrev pub listed : (V → List K) → K → List V → List V
  listed keys k [] = []
  listed keys k (v ∷ vs) = copies k v (keys v) ++ listed keys k vs

  entry-put :
      (j k : K) (vs : List V) (m : List (K × List V))
      → entry k (put j vs m) ≡ (if j == k then vs else entry k m)
  entry-put j k vs m = ground (arith, get-put j k vs m)

  entry-push :
      (j k : K) (v : V) (m : List (K × List V)) (rest : List V)
      → entry k (push j v m) ++ rest ≡ entry k m ++ (if j == k then v ∷ rest else rest)
  entry-push j k v m rest = elim (Bool-cases (j == k)) [
    | inl same ↦
        rw (entry-put j k (entry j m ++ v ∷ []) m)
          (rw (same, (e.beq_iff j k).0 same) (append_assoc (entry k m) (v ∷ []) rest))
    | inr other ↦ rw (entry-put j k (entry j m ++ v ∷ []) m) (rw other)
  ]

  entry-push_under :
      (k : K) (v : V) (ks : List K) (m : List (K × List V))
      → entry k (push_under v ks m) ≡ entry k m ++ copies k v ks
  unfolding push_under
  entry-push_under k v [] m = sym (append-nil (entry k m))
  entry-push_under k v (j ∷ js) m =
      entry-push_under k v js (push j v m) ∙ entry-push j k v m (copies k v js)

  -- What is under a key of the filled map.
  pub entry-fill :
      (keys : V → List K) (k : K) (vs : List V) (m : List (K × List V))
      → entry k (fill keys vs m) ≡ entry k m ++ listed keys k vs
  unfolding fill
  entry-fill keys k [] m = sym (append-nil (entry k m))
  entry-fill keys k (v ∷ vs) m =
      entry-fill keys k vs (push_under v (keys v) m)
      ∙ ap (λ l. l ++ listed keys k vs) (entry-push_under k v (keys v) m)
      ∙ append_assoc (entry k m) (copies k v (keys v)) (listed keys k vs)

  copies-mem :
      (k : K) (v w : V) (ks : List K) → Memᴰ w (copies k v ks) → (w ≡ v) × (has k ks ≡ true)
  copies-mem k v w [] m = absurd (Memᴰ.not-nil m)
  copies-mem k v w (j ∷ js) m = elim (copies-step (j == k) m) [
    | inl (same, p) ↦ (p, ground arith)
    | inr later ↦ let (p, h) = copies-mem k v w js later in (p, ground (arith, h))
  ]

  -- A value is under a key only if it was filled in and has the key.
  pub listed-mem :
      (keys : V → List K) (k : K) (w : V) (vs : List V)
      → Memᴰ w (listed keys k vs)
      → Memᴰ w vs × (has k (keys w) ≡ true)
  listed-mem keys k w [] m = absurd (Memᴰ.not-nil m)
  listed-mem keys k w (v ∷ vs) m = elim (Memᴰ.append_cases (copies k v (keys v)) m) [
    | inl n ↦ let (p, h) = copies-mem k v w (keys v) n in (Memᴰ.head p, rw p h)
    | inr n ↦ let (later, h) = listed-mem keys k w vs n in (Memᴰ.tail later, h)
  ]

  mem-copies : (k : K) (v : V) (ks : List K) → has k ks ≡ true → Memᴰ v (copies k v ks)
  mem-copies k v [] h = cc
  mem-copies k v (j ∷ js) h = elim (Bool-cases (j == k)) [
    | inl same ↦ rw same (Memᴰ.head refl)
    | inr other ↦ rw other (mem-copies k v js (ground arith))
  ]

  pub mem-listed :
      (keys : V → List K) (k : K) (w : V) (vs : List V)
      → Memᴰ w vs
      → has k (keys w) ≡ true
      → Memᴰ w (listed keys k vs)
  mem-listed keys k w [] m h = absurd (Memᴰ.not-nil m)
  mem-listed keys k w (v ∷ vs) (Memᴰ.head p) h =
      Memᴰ.append_left (listed keys k vs)
        (rw p (mem-copies k v (keys v) (subst (λ u. has k (keys u) ≡ true) p h)))
  mem-listed keys k w (v ∷ vs) (Memᴰ.tail m) h =
      Memᴰ.append_right (copies k v (keys v)) (mem-listed keys k w vs m h)
