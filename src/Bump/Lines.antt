-- ===== src/Bump/Lines.antt =====
-- Texts taken apart into lines and put together again, and the line that `findIndex` finds.
use mathlib.Core.Option.{some-injective, none-ne-some}
use chaotic_next.Base.{
  ℕ, suc, ◌≡◌, refl, sym, ap, ◌∙◌, some, none, List, [], ◌∷◌, ◌++◌, length, All, get_elem?, nat_eq,
  arith, Bool, true, false, Bool-cases, inl, inr, Option-cases, find,
}
use chaotic_next.Bump.{find_index, set, insert_at}

module _ {ℓ} {A : Type ℓ} (p : A → Bool) where
  -- The place that `findIndex` finds.
  pub record FoundAt (xs : List A) (i : ℕ) : Type ℓ where
    pub before : List A
    pub hit : A
    pub after : List A
    pub parts : xs ≡ before ++ (hit ∷ after)
    pub place : i ≡ length before
    pub fits : p hit ≡ true
    pub first : All (λ x. p x ≡ false) before

  pub find_index-FoundAt : (xs : List A) {i : ℕ} → find_index p xs ≡ some i → FoundAt xs i
  unfolding find_index
  find_index-FoundAt [] e = absurd (none-ne-some _ e)
  find_index-FoundAt (x ∷ xs) {i} e = elim (Bool-cases (p x)) [
    | inl here ↦ record {
      before = [];
      hit = x;
      after = xs;
      parts = refl;
      place = sym (some-injective _ _ (rw here at e));
      fits = here;
      first = tt;
    }
    | inr miss ↦ elim (Option-cases (find_index p xs)) [
      | inl gone ↦ absurd (none-ne-some i (ground arith))
      | inr (j, found) ↦
          let later = find_index-FoundAt xs found in
          let i_is : suc j ≡ i = some-injective _ _ (ground arith) in
          record {
            before = x ∷ later.before;
            hit = later.hit;
            after = later.after;
            parts = ap (λ r. x ∷ r) later.parts;
            place = sym i_is ∙ ap suc later.place;
            fits = later.fits;
            first = (miss, later.first);
          }
    ]
  ]

  pub find_index-none : (xs : List A) → find_index p xs ≡ none → All (λ x. p x ≡ false) xs
  unfolding find_index
  find_index-none [] e = tt
  find_index-none (x ∷ xs) e = elim (Bool-cases (p x)) [
    | inl here ↦ absurd (none-ne-some 0 (sym (rw here at e)))
    | inr miss ↦ elim (Option-cases (find_index p xs)) [
      | inl gone ↦ (miss, find_index-none xs gone)
      | inr (j, found) ↦ absurd (none-ne-some (suc j) (ground arith))
    ]
  ]

  -- The first element that fits, behind a part where none does.
  pub find-append :
      (before : List A) (x : A) (after : List A)
      → All (λ y. p y ≡ false) before
      → p x ≡ true
      → find p (before ++ (x ∷ after)) ≡ some x
  find-append [] x after h k = rw k refl
  find-append (y ∷ before) x after h k = rw h.0 (find-append before x after h.1 k)

module _ {ℓ} {A : Type ℓ} where
  pub set-append :
      (before : List A) (x v : A) (after : List A)
      → set (before ++ (x ∷ after)) (length before) v ≡ before ++ (v ∷ after)
  unfolding set
  set-append [] x v after = refl
  set-append (y ∷ before) x v after = ap (λ r. y ∷ r) (set-append before x v after)

  pub get_elem?-append :
      (before : List A) (x : A) (after : List A)
      → get_elem? (before ++ (x ∷ after)) (length before) ≡ some x
  get_elem?-append [] x after = refl
  get_elem?-append (y ∷ before) x after = get_elem?-append before x after

  pub insert_at-append :
      (before : List A) (v : A) (after : List A)
      → insert_at (before ++ after) (length before) v ≡ before ++ (v ∷ after)
  unfolding insert_at
  insert_at-append [] v after = refl
  insert_at-append (y ∷ before) v after = ap (λ r. y ∷ r) (insert_at-append before v after)
