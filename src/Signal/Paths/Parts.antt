-- ===== src/Signal/Paths/Parts.antt =====
-- A path, its parent directory, its base name and its ancestors.
use chaotic_next.Base.{
  ℕ, suc, ◌≡◌, refl, false, Option, none, some, [], ◌∷◌, ◌++◌, Text, last_index_of, has, nat_eq,
  take, drop, inl, inr, zero, arith, Option-cases,
}
use chaotic_next.Signal.Paths.{parent_directory, soname_basename}

last_index_of-none : (c : ℕ) (s : Text) → last_index_of c s ≡ none → has c s ≡ false
unfolding last_index_of
last_index_of-none c [] h = refl
last_index_of-none c (d ∷ s) h = ground (arith, last_index_of-none c s)

last_index_of-some :
    (c : ℕ) (s : Text) (i : ℕ)
    → last_index_of c s ≡ some i
    → (s ≡ take i s ++ c ∷ drop (suc i) s) × (has c (drop (suc i) s) ≡ false)
unfolding last_index_of
last_index_of-some c [] i h = ground arith
last_index_of-some c (d ∷ s) zero h = ground (arith, last_index_of-none c s)
last_index_of-some c (d ∷ s) (suc i) h = ground (arith, last_index_of-some c s i)

abbrev pub rejoin : Option Text → Text → Text
rejoin none base = base
rejoin (some parent) base = parent ++ b'/' ∷ base

-- A path is its parent directory, a slash and its base name, or the base name alone where there is
-- no parent; and the base name holds no slash.
pub parent_directory-soname_basename :
    (path : Text)
    → (path ≡ rejoin (parent_directory path) (soname_basename path))
      × (has b'/' (soname_basename path) ≡ false)
unfolding parent_directory soname_basename
parent_directory-soname_basename path = elim (Option-cases (last_index_of b'/' path)) [
  | inl absent ↦ ground (arith, last_index_of-none b'/' path absent)
  | inr (i, found) ↦ ground (arith, last_index_of-some b'/' path i found)
]
