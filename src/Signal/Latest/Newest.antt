-- ===== src/Signal/Latest/Newest.antt =====
-- The element that the loop of `latestAnalysisByKey` keeps, and the row under a key.
use mathlib.Core.List.{Memᴰ}
use mathlib.Core.Option.{some-injective}
use mathlib.Core.Path.{subst}
use chaotic_next.Base.{
  ◌≡◌, ◌≢◌, ◌↔◌, sym, refl, Ordering, true, false, Option, none, some, List, [], ◌∷◌, Text, text_eq,
  ◌==◌, ◌⊎◌, inl, inr, if◌then◌else◌, keep, All, All-mem, ◌∙◌, arith, Bool-cases, text_beq_iff,
}
use chaotic_next.Base.Map.{get, get-put}
use chaotic_next.Signal.Versions.{compare_arch_versions}
use chaotic_next.Signal.Versions.Order.{
  HasEpoch, compare_arch_versions-flip, compare_arch_versions-self_iff, compare_arch_versions-chain,
}
use chaotic_next.Signal.Latest.{newer, keep_newer, latest_from, latest_analysis_by_key, newest_from}

infix 50 ◌≼◌
abbrev pub ◌≼◌ : Text → Text → Type 0
a ≼ b = compare_arch_versions a b ≢ Ordering.gt

≼_refl : (a : Text) → HasEpoch a → a ≼ a
≼_refl a h = ground (arith, (compare_arch_versions-self_iff a).1 h)

≼_trans : (a b c : Text) → HasEpoch a → HasEpoch b → HasEpoch c → a ≼ b → b ≼ c → a ≼ c
≼_trans a b c ha hb hc p q = ground (arith, compare_arch_versions-chain a b c ha hb hc p q)

≼_of_newer : (a b : Text) → HasEpoch a → HasEpoch b → newer a b ≡ true → b ≼ a
unfolding newer
≼_of_newer a b ha hb h = ground (arith, compare_arch_versions-flip a b ha hb)

≼_of_not_newer : (a b : Text) → newer a b ≡ false → a ≼ b
unfolding newer
≼_of_not_newer a b h = ground arith

module _ {ℓ} {T : Type ℓ} (version : T → Text) where
  -- One of the list, and none of the list is newer.
  abbrev pub IsNewest : T → List T → Type ℓ
  IsNewest r rows = Memᴰ r rows × All (λ row. version row ≼ version r) rows

  step-IsNewest :
      (n row next : T) (rows : List T) {r : T}
      → HasEpoch (version n)
      → HasEpoch (version row)
      → All (λ row. HasEpoch (version row)) rows
      → HasEpoch (version next)
      → (next ≡ n) ⊎ (next ≡ row)
      → version n ≼ version next
      → version row ≼ version next
      → IsNewest r (next ∷ rows)
      → IsNewest r (n ∷ row ∷ rows)
  step-IsNewest n row next rows {r} hn hr hs hx which up across (m, (best, bests)) =
      let hb : HasEpoch (version r) =
        All-mem (λ row. HasEpoch (version row)) (next ∷ rows) (hx, hs) m in
      (
        keep_place m which,
        (
          ≼_trans (version n) (version next) (version r) hn hx hb up best,
          (≼_trans (version row) (version next) (version r) hr hx hb across best, bests),
        ),
      )
    where
      keep_place : Memᴰ r (next ∷ rows) → (next ≡ n) ⊎ (next ≡ row) → Memᴰ r (n ∷ row ∷ rows)
      keep_place (Memᴰ.tail later) _ = Memᴰ.tail (Memᴰ.tail later)
      keep_place (Memᴰ.head e) (inl p) = Memᴰ.head (e ∙ p)
      keep_place (Memᴰ.head e) (inr p) = Memᴰ.tail (Memᴰ.head (e ∙ p))

  -- The element that the loop keeps.
  abbrev kept : T → T → T
  kept n row = if newer (version row) (version n) then row else n

  kept_bounds :
      (n row : T)
      → HasEpoch (version n)
      → HasEpoch (version row)
      → HasEpoch (version (kept n row))
        × ((kept n row ≡ n) ⊎ (kept n row ≡ row))
        × (version n ≼ version (kept n row))
        × (version row ≼ version (kept n row))
  kept_bounds n row hn hr = elim (Bool-cases (newer (version row) (version n))) [
    | inl up ↦
        rw up (hr, inr refl, ≼_of_newer (version row) (version n) hr hn up, ≼_refl (version row) hr)
    | inr down ↦
        rw down (hn, inl refl, ≼_refl (version n) hn, ≼_of_not_newer (version row) (version n) down)
  ]

  pub newest_from-IsNewest :
      (n : T) (rows : List T)
      → HasEpoch (version n)
      → All (λ row. HasEpoch (version row)) rows
      → IsNewest (newest_from version n rows) (n ∷ rows)
  unfolding newest_from
  newest_from-IsNewest n [] hn _ = (Memᴰ.head refl, (≼_refl (version n) hn, tt))
  newest_from-IsNewest n (row ∷ rows) hn (hr, hs) =
      let (hk, which, up, across) = kept_bounds n row hn hr in
      step-IsNewest n row (kept n row) rows hn hr hs hk which up across
        (newest_from-IsNewest (kept n row) rows hk hs)

abbrev newest_of {ℓ} : {T : Type ℓ} → (T → Text) → Option T → List T → Option T
newest_of version none [] = none
newest_of version none (row ∷ rows) = some (newest_from version row rows)
newest_of version (some n) rows = some (newest_from version n rows)

module _ {ℓ} {T : Type ℓ} (version : T → Text) (key_of : T → Text) where
  abbrev pub under : Text → List T → List T
  under k rows = keep (λ row. key_of row == k) rows

  get-latest_from :
      (k : Text) (latest : List (Text × T)) (rows : List T)
      → get k (latest_from version key_of latest rows)
        ≡ newest_of version (get k latest) (under k rows)
  unfolding latest_from newest_from
  get-latest_from k latest [] = ground arith
  get-latest_from k latest (row ∷ rows) = ground (
    arith,
    get-latest_from k (keep_newer version key_of row (get (key_of row) latest) latest) rows,
    get-put (key_of row) k row latest,
    text_beq_iff (key_of row) k,
  )

  -- Under each key `latestAnalysisByKey` has a row of the list with that key, and no row with that
  -- key is newer, where all versions have numeric epochs.
  pub latest_analysis_by_key-IsNewest :
      (k : Text) (rows : List T) (r : T)
      → All (λ row. HasEpoch (version row)) (under k rows)
      → get k (latest_analysis_by_key version key_of rows) ≡ some r
      → IsNewest version r (under k rows)
  unfolding latest_analysis_by_key
  latest_analysis_by_key-IsNewest k rows r h found =
      go (under k rows) h (sym (get-latest_from k [] rows) ∙ found)
    where
      go :
          (own : List T)
          → All (λ row. HasEpoch (version row)) own
          → newest_of version none own ≡ some r
          → IsNewest version r own
      go [] _ e = cc
      go (n ∷ own) (hn, hs) e =
          subst (λ x. IsNewest version x (n ∷ own)) (some-injective _ _ e)
            (newest_from-IsNewest version n own hn hs)

  -- A key is absent from the map exactly when no row has it.
  pub latest_analysis_by_key-none_iff :
      (k : Text) (rows : List T)
      → (get k (latest_analysis_by_key version key_of rows) ≡ none) ↔ (under k rows ≡ [])
  unfolding latest_analysis_by_key
  latest_analysis_by_key-none_iff k rows = rw (get-latest_from k [] rows) (go (under k rows))
    where
      go : (own : List T) → (newest_of version none own ≡ none) ↔ (own ≡ [])
      go [] = ground arith
      go (n ∷ own) = ground arith
