-- ===== src/DiffScan/Typosquat/Names.antt =====
-- The normal form of a package name, and the closest known name.
use mathlib.Core.Option.{some-injective, none-ne-some}
use mathlib.Core.List.{Memᴰ}
use mathlib.Core.List.Memᴰ
use mathlib.Core.Path.{subst}
use chaotic_next.Base.{
  ℕ, zero, suc, ◌-◌, ◌≤◌, ◌<◌, ◌≡◌, ◌≢◌, refl, sym, ap, ◌∙◌, List, [], ◌∷◌, Text, length, take,
  arith, ltb, Option, some, none, Bool-cases, inl, inr, leb→le, ends_with, Option-cases, map,
  text_eq, nat_eq, ◌==◌, text_beq_iff, nat_beq_iff, ◌↔◌, ◌⊎◌,
}
use chaotic_next.DiffScan.Typosquat.{
  strip_suffix, strip_suffixes, strip_prefix, name_prefixes, lower, max_distance_for, name_suffixes,
  normalize_package_name, known_distance, keep_closer, closest_from, closest_known_name,
  TyposquatMatch,
}
use chaotic_next.DiffScan.Typosquat.Bounded.{bounded_edit_distance-IsDistance_iff}
use chaotic_next.DiffScan.Typosquat.Edits.{IsDistance}

length-take_lt : (n : ℕ) (s : Text) → n < length s → length (take n s) ≡ n
length-take_lt zero s h = refl
length-take_lt (suc n) [] h = absurd (omega arith)
length-take_lt (suc n) (c ∷ s) h = omega (arith, length-take_lt n s (omega arith))

abbrev AllLong : List Text → Type 0
AllLong [] = Unit {0}
AllLong (suffix ∷ suffixes) = (0 < length suffix) × AllLong suffixes

strip_suffix-shorter :
    (suffixes : List Text) (name : Text) {shorter : Text}
    → AllLong suffixes
    → strip_suffix suffixes name ≡ some shorter
    → length shorter < length name
unfolding strip_suffix ends_with
strip_suffix-shorter [] name long e = absurd (none-ne-some _ e)
strip_suffix-shorter (suffix ∷ suffixes) name {shorter} long e =
    elim (Bool-cases (ends_with suffix name)) [
      | inl here ↦
          let fits : length suffix ≤ length name = leb→le _ _ (ground arith) in
          let e' : take (length name - length suffix) name ≡ shorter =
            some-injective _ _ (ground arith) in
          rw (← e') (
            omega (
              arith,
              long.0,
              length-take_lt (length name - length suffix) name (omega (arith, long.0)),
            ))
      | inr miss ↦ strip_suffix-shorter suffixes name long.1 (ground arith)
    ]

strip_suffixes-ends :
    (fuel : ℕ) (name : Text)
    → length name < fuel
    → strip_suffix name_suffixes (strip_suffixes fuel name) ≡ none
unfolding strip_suffixes
strip_suffixes-ends zero name h = absurd (omega arith)
strip_suffixes-ends (suc fuel) name h = elim (Option-cases (strip_suffix name_suffixes name)) [
  | inl end ↦ rw (end, strip_suffixes) end
  | inr (shorter, e) ↦
      rw (e, strip_suffixes)
        (strip_suffixes-ends fuel shorter
          (omega (arith, strip_suffix-shorter name_suffixes name (omega arith) e)))
]

-- The loop over the variant suffixes ends: whatever the name, no suffix is left to strip from its
-- normal form.
pub normalize_package_name-ends :
    (name : Text) → strip_suffix name_suffixes (normalize_package_name name) ≡ none
unfolding normalize_package_name
normalize_package_name-ends name =
    let stripped = strip_prefix name_prefixes (map lower name) in
    strip_suffixes-ends (suc (length stripped)) stripped (omega arith)

-- A known name that counts as resembled, at a distance.
pub record Resembles (normalized name : Text) (n : ℕ) : Type 0 where
  pub differs : normalized ≢ normalize_package_name name
  pub not_empty : length (normalize_package_name name) ≢ 0
  pub close : IsDistance normalized (normalize_package_name name) n
  pub within : n ≤ max_distance_for normalized (normalize_package_name name)

known_distance-Resembles_iff :
    (normalized name : Text) (n : ℕ)
    → (known_distance normalized name ≡ some n) ↔ Resembles normalized name n
unfolding known_distance
known_distance-Resembles_iff normalized name n =
    let known = normalize_package_name name in
    let same_iff = text_beq_iff known normalized in
    let empty_iff = nat_beq_iff (length known) 0 in
    let bound = max_distance_for normalized known in
    let iff = bounded_edit_distance-IsDistance_iff normalized known bound n in
    elim (Bool-cases (known == normalized)) [
      | inl same ↦
          rw same (λ e. absurd (none-ne-some _ e), λ r. absurd (r.differs (sym (same_iff.0 same))))
      | inr other ↦ elim (Bool-cases (length known == 0)) [
        | inl empty ↦
            rw (other, empty)
              (λ e. absurd (none-ne-some _ e), λ r. absurd (r.not_empty (empty_iff.0 empty)))
        | inr full ↦
            rw (other, full)
              (
                λ e.
                    let (d, c, w) = iff.0 e in
                    record {
                      differs = d;
                      not_empty = λ p. cc (full, empty_iff.1 p);
                      close = c;
                      within = w;
                    },
                λ r. iff.1 (r.differs, r.close, r.within),
              )
      ]
    ]

-- A match at least as close as a distance.
abbrev Closer : Option TyposquatMatch → ℕ → Type 0
Closer best n = (m : TyposquatMatch) × (best ≡ some m) × (m.distance ≤ n)

module _ (name : Text) where
  keep_closer-cases :
      (best : Option TyposquatMatch) (o : Option ℕ) {m : TyposquatMatch}
      → keep_closer best name o ≡ some m
      → (best ≡ some m) ⊎ ((m.known_name ≡ name) × (o ≡ some m.distance))
  unfolding keep_closer
  keep_closer-cases best none e = inl e
  keep_closer-cases none (some n) {m} e =
      let same = some-injective _ _ e in
      inr (
        ap (λ (r : TyposquatMatch). r.known_name) (sym same),
        ap (λ (r : TyposquatMatch). some r.distance) same,
      )
  keep_closer-cases (some b) (some n) {m} e = elim (Bool-cases (ltb n b.distance)) [
    | inl closer ↦
        let same = some-injective _ _ (rw closer at e) in
        inr (
          ap (λ (r : TyposquatMatch). r.known_name) (sym same),
          ap (λ (r : TyposquatMatch). some r.distance) same,
        )
    | inr farther ↦ inl (rw farther at e)
  ]

  keep_closer-Closer :
      (o : Option ℕ) (b : TyposquatMatch) → Closer (keep_closer (some b) name o) b.distance
  unfolding keep_closer
  keep_closer-Closer none b = (b, refl, omega arith)
  keep_closer-Closer (some n) b = elim (Bool-cases (ltb n b.distance)) [
    | inl closer ↦ rw closer (_, refl, ground arith)
    | inr farther ↦ rw farther (_, refl, omega arith)
  ]

  keep_closer-Closer_new :
      (best : Option TyposquatMatch) (n : ℕ) → Closer (keep_closer best name (some n)) n
  unfolding keep_closer
  keep_closer-Closer_new none n = (_, refl, omega arith)
  keep_closer-Closer_new (some b) n = elim (Bool-cases (ltb n b.distance)) [
    | inl closer ↦ rw closer (_, refl, omega arith)
    | inr farther ↦ rw farther (_, refl, ground arith)
  ]

module _ (normalized : Text) where
  closest_from-Closer :
      (names : List Text) (b : TyposquatMatch) (best : Option TyposquatMatch)
      → best ≡ some b
      → Closer (closest_from normalized best names) b.distance
  unfolding closest_from
  closest_from-Closer [] b best e = (b, e, omega arith)
  closest_from-Closer (name ∷ names) b best e =
      let (c, kept, le) =
        subst (λ o. Closer (keep_closer o name (known_distance normalized name)) b.distance) (sym e)
          (keep_closer-Closer name (known_distance normalized name) b) in
      let (m, found, le') = closest_from-Closer names c _ kept in (m, found, omega arith)

  closest_from-least :
      (names : List Text) (best : Option TyposquatMatch) (known : Text) (n : ℕ)
      → Memᴰ known names
      → known_distance normalized known ≡ some n
      → Closer (closest_from normalized best names) n
  unfolding closest_from
  closest_from-least [] best known n m e = absurd (Memᴰ.not-nil m)
  closest_from-least (name ∷ names) best known n (Memᴰ.head p) e =
      let e' : known_distance normalized name ≡ some n = rw (← p) e in
      let (c, kept, le) = keep_closer-Closer_new name best n in
      let (m, found, le') = closest_from-Closer names c _ (rw e' kept) in (m, found, omega arith)
  closest_from-least (name ∷ names) best known n (Memᴰ.tail m) e =
      closest_from-least names _ known n m e

  closest_from-cases :
      (names : List Text) (best : Option TyposquatMatch) (m : TyposquatMatch)
      → closest_from normalized best names ≡ some m
      → (best ≡ some m)
        ⊎ (Memᴰ m.known_name names × (known_distance normalized m.known_name ≡ some m.distance))
  unfolding closest_from
  closest_from-cases [] best m e = inl e
  closest_from-cases (name ∷ names) best m e =
      elim (closest_from-cases names (keep_closer best name (known_distance normalized name)) m e) [
        | inr (in_names, d) ↦ inr (Memᴰ.tail in_names, d)
        | inl kept ↦ elim (keep_closer-cases name best (known_distance normalized name) kept) [
          | inl before ↦ inl before
          | inr (same, d) ↦ inr (Memᴰ.head same, rw same d)
        ]
      ]

-- What a match, or none, says of the known names.
abbrev pub IsClosest : Text → List Text → Option TyposquatMatch → Type 0
IsClosest normalized names none =
    (known : Text) (n : ℕ) → Memᴰ known names → ¬ Resembles normalized known n
IsClosest normalized names (some m) =
    Memᴰ m.known_name names
    × Resembles normalized m.known_name m.distance
    × ((known : Text) (n : ℕ) → Memᴰ known names → Resembles normalized known n → m.distance ≤ n)

-- The closest known name is one of the known names, resembles the package name at the distance that
-- is reported, and no known name resembles it at a smaller distance; where there is none, no known
-- name resembles it.
pub closest_known_name-IsClosest :
    (name : Text) (names : List Text)
    → IsClosest (normalize_package_name name) names (closest_known_name name names)
unfolding closest_known_name
closest_known_name-IsClosest name names =
    let normalized = normalize_package_name name in
    let none_before : Option TyposquatMatch = none in
    let least = λ (known : Text) (n : ℕ) (m : Memᴰ known names) (r : Resembles normalized known n).
      closest_from-least normalized names none_before known n m
        ((known_distance-Resembles_iff normalized known n).1 r) in
    elim (Option-cases (closest_from normalized none_before names)) [
      | inl nothing ↦ rw nothing (λ known n m r.
          let (b, e, _) = least known n m r in absurd (none-ne-some b (sym nothing ∙ e)))
      | inr (b, found) ↦ rw found (elim (closest_from-cases normalized names none_before b found) [
        | inl before ↦ absurd (none-ne-some b before)
        | inr (m, d) ↦ (
          m,
          (known_distance-Resembles_iff normalized b.known_name b.distance).0 d,
          λ known n k r.
              let (c, e, le) = least known n k r in rw (some-injective b c (sym found ∙ e)) le,
        )
      ])
    ]
