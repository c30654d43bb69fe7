-- ===== src/Scan/Outputs.antt =====
-- The outputs of a PKGBUILD: backend/src/repo-manager/scan/pkgbase-outputs.ts.
pub mod Groups
use chaotic_next.Base.{Option, none, some, List, [], ◌∷◌, Text, text_eq, or_else, map}
use chaotic_next.Base.MultiMap.{fill}
use chaotic_next.Scan.Records.{Package}

unfoldable pub pkgbase_of : Package → Text
pkgbase_of pkg = or_else pkg.pkgbase_name pkg.pkgname

unfoldable pub group_by_pkgbase : List Package → List (Text × List Package)
unfolding fill
group_by_pkgbase packages = fill (λ pkg. pkgbase_of pkg ∷ []) packages []

-- `null` where the package has no metadata.
unfoldable pub recorded_deps : Package → Option (List Text)
recorded_deps pkg = elim (pkg.metadata) [ none ↦ none | some deps ↦ some (or_else deps []) ]
