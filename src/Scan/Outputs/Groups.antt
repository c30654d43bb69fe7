-- ===== src/Scan/Outputs/Groups.antt =====
-- The groups of `groupByPkgbase` against the list of packages.
use chaotic_next.Base.{
  ◌≡◌, refl, ◌∙◌, List, [], ◌∷◌, Text, text_eq, ◌==◌, keep, inl, inr, Bool-cases,
}
use chaotic_next.Base.MultiMap.{entry, listed, entry-fill}
use chaotic_next.Scan.Records.{Package}
use chaotic_next.Scan.Outputs.{pkgbase_of, group_by_pkgbase}

listed-keep :
    (base : Text) (packages : List Package)
    → listed (λ pkg. pkgbase_of pkg ∷ []) base packages
      ≡ keep (λ pkg. pkgbase_of pkg == base) packages
listed-keep base [] = refl
listed-keep base (pkg ∷ packages) = elim (Bool-cases (pkgbase_of pkg == base)) [
  | inl same ↦ rw (same, listed-keep base packages) refl
  | inr other ↦ rw (other, listed-keep base packages) refl
]

-- The group of a base is the sublist of the packages of that base.
pub group_by_pkgbase-entry :
    (packages : List Package) (base : Text)
    → entry base (group_by_pkgbase packages) ≡ keep (λ pkg. pkgbase_of pkg == base) packages
unfolding group_by_pkgbase
group_by_pkgbase-entry packages base =
    entry-fill (λ pkg. pkgbase_of pkg ∷ []) base packages [] ∙ listed-keep base packages
