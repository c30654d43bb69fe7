-- ===== src/Bump/Raised.antt =====
-- What a bump does to the recorded counter, and when it throws.
use chaotic_next.Base.{
  ℕ, suc, ◌≡◌, ◌≢◌, ◌↔◌, ◌⊎◌, refl, Option, some, none, List, [], ◌∷◌, ◌++◌, Text, All, All-append,
  get_elem?, split, true, false, Option-cases, inl, inr, find,
}
use chaotic_next.Bump.{
  find_index, set, insert_at, bump_key, trigger_key, source_key, has_key, bump_line_of,
  next_bump_count, ok, unknown_version, base_of, apply_package_bump, join_lines, insert_line,
  new_line,
}
use chaotic_next.Base.Splits.{Without, split-All, split-join_lines}
use chaotic_next.Bump.Lines.{
  FoundAt, find_index-FoundAt, find_index-none, find-append, set-append, get_elem?-append,
  insert_at-append,
}
use chaotic_next.Bump.Counter.{
  counter_in, recorded-bump_line_of, has_key-bump_line_of, next_bump_count-recorded,
  bump_line_of-Without, base_of-Without, append_line-found, All-left, NoKey,
}

All-right {ℓ κ} : {A : Type ℓ} (P : A → Type κ) (xs ys : List A) → All P (xs ++ ys) → All P ys
All-right P [] ys h = h
All-right P (x ∷ xs) ys h = All-right P xs ys h.1

cons-ne-nil {ℓ} : {A : Type ℓ} (xs : List A) (y : A) (ys : List A) → xs ++ (y ∷ ys) ≢ []
cons-ne-nil [] y ys e = cc
cons-ne-nil (x ∷ xs) y ys e = cc

-- Lines with a bump line behind lines of which none is one.
module _ (before after : List Text) (line : Text) (key : has_key bump_key line ≡ true)
    (first : All (λ other. has_key bump_key other ≡ false) before)
    (whole : All (Without b'\n') (before ++ (line ∷ after))) where
  lines-found :
      find (has_key bump_key) (split b'\n' (join_lines (before ++ (line ∷ after)))) ≡ some line
  lines-found =
      rw (split-join_lines b'\n' (before ++ (line ∷ after)) (cons-ne-nil before line after) whole)
        (find-append (has_key bump_key) before line after first key)

-- The lines with one of them replaced by another line, or with one more line above it.
module _ (config_text line : Text) (whole : Without b'\n' line)
    (key : has_key bump_key line ≡ true) where
  replaced-found :
      {i : ℕ} (spot : FoundAt (has_key bump_key) (split b'\n' config_text) i)
      → find (has_key bump_key) (split b'\n' (join_lines (set (split b'\n' config_text) i line)))
        ≡ some line
  replaced-found spot =
      let all = rw spot.parts at (split-All b'\n' config_text) in
      rw (spot.parts, spot.place, set-append spot.before spot.hit line spot.after)
        (lines-found spot.before spot.after line key spot.first (
          All-append _ spot.before (line ∷ spot.after) (All-left _ spot.before _ all)
            (whole, (All-right _ spot.before (spot.hit ∷ spot.after) all).1)))

  inserted-found :
      (other : Text) {i : ℕ}
      → FoundAt (has_key other) (split b'\n' config_text) i
      → NoKey config_text
      → find
          (has_key bump_key)
          (split b'\n' (join_lines (insert_at (split b'\n' config_text) i line)))
        ≡ some line
  inserted-found other spot h =
      let all = rw spot.parts at (split-All b'\n' config_text) in
      let rest = spot.hit ∷ spot.after in
      rw (spot.parts, spot.place, insert_at-append spot.before line rest)
        (lines-found spot.before rest line key (All-left _ spot.before rest (rw spot.parts at h)) (
          All-append _ spot.before (line ∷ rest) (All-left _ spot.before rest all)
            (whole, All-right _ spot.before rest all)))

  insert_line-found :
      NoKey config_text
      → find (has_key bump_key) (
          split b'\n' (
            insert_line config_text
              (split b'\n' config_text)
              line
              (find_index (has_key trigger_key) (split b'\n' config_text))
              (find_index (has_key source_key) (split b'\n' config_text))))
        ≡ some line
  insert_line-found h =
      elim (Option-cases (find_index (has_key trigger_key) (split b'\n' config_text))) [
        | inr (i, e) ↦ rw e (inserted-found trigger_key (find_index-FoundAt _ _ e) h)
        | inl e ↦ elim (Option-cases (find_index (has_key source_key) (split b'\n' config_text))) [
          | inr (j, f) ↦ rw (e, f) (inserted-found source_key (find_index-FoundAt _ _ f) h)
          | inl f ↦ rw (e, f) (append_line-found line key whole config_text h)
        ]
      ]

none_in :
    (lines : List Text)
    → All (λ line. has_key bump_key line ≡ false) lines
    → find (has_key bump_key) lines ≡ none
none_in [] h = refl
none_in (line ∷ lines) h = rw h.0 (none_in lines h.1)

find-absent :
    (config_text : Text)
    → NoKey config_text
    → find (has_key bump_key) (split b'\n' config_text) ≡ none
find-absent config_text h = none_in (split b'\n' config_text) h

-- A bump to a known version, which holds no line feed, never throws, and the counter that the first
-- bump line of the text records for that version and pkgrel is then one more than before, where a
-- text without a bump line, or with one for another base or without a number, counts as 0.
pub apply_package_bump-counter :
    (config_text version : Text) (pkgrel : ℕ)
    → Without b'\n' version
    → (out : Text) × (apply_package_bump config_text (some version) (some pkgrel) ≡ ok out)
      × (counter_in out (base_of version pkgrel)
          ≡ suc (counter_in config_text (base_of version pkgrel)))
unfolding apply_package_bump
apply_package_bump-counter config_text version pkgrel h =
    let lines = split b'\n' config_text in
    let base = base_of version pkgrel in
    let whole = λ (n : ℕ). bump_line_of-Without base n (base_of-Without version pkgrel h) in
    elim (Option-cases (find_index (has_key bump_key) lines)) [
      | inl e ↦
          let absent = find_index-none (has_key bump_key) lines e in
          let line = bump_line_of base 1 in
          let found =
            insert_line-found config_text line (whole 1) (has_key-bump_line_of base 1) absent in
          rw e
            (_, refl, rw (found, find-absent config_text absent, recorded-bump_line_of base 1) refl)
      | inr (i, e) ↦
          let spot = find_index-FoundAt (has_key bump_key) lines e in
          let read : get_elem? lines i ≡ some spot.hit =
            rw (spot.parts, spot.place) (get_elem?-append spot.before spot.hit spot.after) in
          let n = next_bump_count spot.hit base in
          let found =
            replaced-found config_text (bump_line_of base n) (whole n) (has_key-bump_line_of base n)
              spot in
          let before : find (has_key bump_key) lines ≡ some spot.hit =
            rw spot.parts (
              find-append (has_key bump_key) spot.before spot.hit spot.after spot.first
                spot.fits) in
          rw (e, read)
            (
              _,
              refl,
              rw (found, before, recorded-bump_line_of base n)
                  (next_bump_count-recorded spot.hit base),
            )
    ]

ok-ne-unknown : {out : Text} → ok out ≢ unknown_version
ok-ne-unknown e = cc e

new_line_iff :
    (config_text : Text) (lines : List Text) (version : Option Text) (pkgrel : Option ℕ)
    → NoKey config_text
    → (new_line config_text lines version pkgrel ≡ unknown_version)
      ↔ (NoKey config_text × ((version ≡ none) ⊎ (pkgrel ≡ none)))
new_line_iff config_text lines none pkgrel h = (λ _. (h, inl refl), λ _. refl)
new_line_iff config_text lines (some v) none h = (λ _. (h, inr refl), λ _. refl)
new_line_iff config_text lines (some v) (some p) h =
    (λ q. absurd (ok-ne-unknown q), λ k. elim k.1 [ inl q ↦ cc | inr q ↦ cc ])

-- A bump throws exactly where no line of the text is a bump line and the version or the pkgrel is
-- not known.
pub apply_package_bump-unknown_version_iff :
    (config_text : Text) (version : Option Text) (pkgrel : Option ℕ)
    → (apply_package_bump config_text version pkgrel ≡ unknown_version)
      ↔ (NoKey config_text × ((version ≡ none) ⊎ (pkgrel ≡ none)))
unfolding apply_package_bump
apply_package_bump-unknown_version_iff config_text version pkgrel =
    let lines = split b'\n' config_text in
    elim (Option-cases (find_index (has_key bump_key) lines)) [
      | inr (i, e) ↦
          let spot = find_index-FoundAt (has_key bump_key) lines e in
          rw e (
            λ q. absurd (ok-ne-unknown q),
            λ h.
                let all = rw spot.parts at h.0 in
                cc ((All-right _ spot.before (spot.hit ∷ spot.after) all).0, spot.fits),
          )
      | inl e ↦
          let absent = find_index-none (has_key bump_key) lines e in
          rw e (new_line_iff config_text lines version pkgrel absent)
    ]
