-- ===== src/Signal/Sonames/Families.antt =====
-- The relation `sameLibraryFamily`.
use chaotic_next.Base.{
  ◌≡◌, refl, true, Option, none, some, Text, ◌==◌, text_eq, text_beq_iff, arith, eq_self,
}
use chaotic_next.Signal.Sonames.{
  library_base_name, haskell_package_name, same_name, same_library_family,
}

same_name_comm : (a b : Option Text) → same_name a b ≡ same_name b a
same_name_comm (some a) (some b) = ground (arith, text_beq_iff a b, text_beq_iff b a)
same_name_comm (some a) none = refl
same_name_comm none (some b) = refl
same_name_comm none none = refl

text_eq_comm : (a b : Text) → (a == b) ≡ (b == a)
text_eq_comm a b = ground (arith, text_beq_iff a b, text_beq_iff b a)

-- The family of a library holds the library itself.
pub same_library_family_refl : (a : Text) → same_library_family a a ≡ true
unfolding same_library_family
same_library_family_refl a = rw (eq_self (library_base_name a))

-- The order of the two libraries does not matter.
pub same_library_family_comm : (a b : Text) → same_library_family a b ≡ same_library_family b a
unfolding same_library_family
same_library_family_comm a b = ground (
  arith,
  text_eq_comm (library_base_name a) (library_base_name b),
  same_name_comm (haskell_package_name a) (haskell_package_name b),
)
