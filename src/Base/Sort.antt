-- ===== src/Base/Sort.antt =====
-- A stable sort, as `toSorted` and `sort` of the source's arrays: `before a b` says that `a` may
-- stand in front of `b`.
use mathlib.Core.List.{Perm}
use mathlib.Core.List.Perm
use chaotic_next.Base.{
  ◌≡◌, refl, ap, ◌∙◌, EqBy, has, ◌==◌, ◌||◌, arith, Bool, inl, inr, List, [], ◌∷◌, if◌then◌else◌,
  Bool-cases,
}

module _ {ℓ} {A : Type ℓ} (before : A → A → Bool) where
  unfoldable pub insert_sorted : A → List A → List A
  insert_sorted x [] = x ∷ []
  insert_sorted x (y ∷ ys) =
      let later = y ∷ insert_sorted x ys in if before x y then x ∷ y ∷ ys else later

  unfoldable pub sort : List A → List A
  unfolding insert_sorted
  sort [] = []
  sort (x ∷ xs) = insert_sorted x (sort xs)

  insert_sorted-perm : (x : A) (ys : List A) → Perm (insert_sorted x ys) (x ∷ ys)
  unfolding insert_sorted
  insert_sorted-perm x [] = Perm.refl (x ∷ [])
  insert_sorted-perm x (y ∷ ys) = elim (Bool-cases (before x y)) [
    | inl stop ↦ rw stop (Perm.refl (x ∷ y ∷ ys))
    | inr go ↦ rw go (Perm.trans (Perm.cons y (insert_sorted-perm x ys)) (Perm.swap x y ys))
  ]

  pub sort-perm : (xs : List A) → Perm (sort xs) xs
  unfolding sort
  sort-perm [] = Perm.refl []
  sort-perm (x ∷ xs) = Perm.trans (insert_sorted-perm x (sort xs)) (Perm.cons x (sort-perm xs))

module _ {ℓ} {A : Type ℓ} ⦃e : EqBy A⦄ (before : A → A → Bool) where
  has-insert_sorted :
      (a x : A) (ys : List A) → has a (insert_sorted before x ys) ≡ (x == a || has a ys)
  unfolding insert_sorted
  has-insert_sorted a x [] = refl
  has-insert_sorted a x (y ∷ ys) = ground (arith, has-insert_sorted a x ys)

  -- Sorting keeps the members.
  pub has-sort : (a : A) (xs : List A) → has a (sort before xs) ≡ has a xs
  unfolding sort
  has-sort a [] = refl
  has-sort a (x ∷ xs) =
      has-insert_sorted a x (sort before xs) ∙ ap (λ b. x == a || b) (has-sort a xs)
