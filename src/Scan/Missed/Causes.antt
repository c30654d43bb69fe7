-- ===== src/Scan/Missed/Causes.antt =====
-- What a rebuild for a missed break rests on, and whom it blames.
use mathlib.Core.List.{Memᴰ}
use mathlib.Core.List.Memᴰ
use mathlib.Core.Path.{subst}
use mathlib.Core.Option.{some-injective, none-ne-some}
use mathlib.Core.Option as Option
use chaotic_next.Base.{
  ℕ, ◌<◌, ltb, ◌≡◌, refl, sym, ap, inl, inr, ◌⊎◌, Bool, true, false, Option, none, some, List, [],
  ◌∷◌, map, Text, text_eq, nat_eq, has, is_empty, find, find-mem, or_else, arith, Bool-cases,
}
use chaotic_next.Base.Map.{get}
use chaotic_next.Base.Search.{first_some-mem, skipped-some, option_map-some, or_try-cases}
use chaotic_next.Signal.Owners.{arch, PkgType, arch_pkg, chaotic_pkg}
use chaotic_next.Signal.Sonames.{same_library_family}
use chaotic_next.Signal.Broken.{
  BrokenDependency, missing_soname, missing_version, stale_runtime, runtime_text,
}
use chaotic_next.Scan.Records.{
  ArchlinuxPackage, Package, PackageElfAnalysis, arch_owner, chaotic_owner,
}
use chaotic_next.Scan.Triggers.{Analyses}
use chaotic_next.Scan.Missed.{
  ProviderRow, Database, MissedBreaks, missed_since, push_missed, missed_breaks_in, Culprit,
  by_arch, is_other, row_owner, owner_of_found, last_provider_of, family_owner,
  arch_family_provider_of, blame_dependency, blame_missed_break,
}

-- The analysis of a package that broke after its scan.
pub record IsMissed (analyses : Analyses) (pkg_id since : ℕ) : Type 0 where
  pub analysis : PackageElfAnalysis
  pub listed : Memᴰ (pkg_id, analysis) analyses
  pub is_broken : analysis.broken ≡ true
  pub broke : analysis.broken_since ≡ some since
  pub after_scan : analysis.scanned_at < since

missed_since-cases :
    (broken : Bool) (broken_since : Option ℕ) (scanned_at since : ℕ)
    → missed_since broken broken_since scanned_at ≡ some since
    → (broken ≡ true) × ((broken_since ≡ some since) × (scanned_at < since))
missed_since-cases true none scanned_at since e = absurd (none-ne-some _ e)
missed_since-cases true (some s) scanned_at since e = elim (Bool-cases (ltb scanned_at s)) [
  | inl later ↦
      let same : s ≡ since = some-injective _ _ (ground arith) in
      (refl, (ap some same, rw (← same) (ground arith)))
  | inr earlier ↦ absurd (none-ne-some since (ground arith))
]
missed_since-cases false broken_since scanned_at since e = absurd (none-ne-some _ e)

push_missed-cases :
    (pkg_id : ℕ) (found : Option ℕ) (rest : MissedBreaks) {row : ℕ × ℕ}
    → Memᴰ row (push_missed pkg_id found rest)
    → ((row.0 ≡ pkg_id) × (found ≡ some row.1)) ⊎ Memᴰ row rest
push_missed-cases pkg_id none rest m = inr m
push_missed-cases pkg_id (some since) rest (Memᴰ.head p) =
    inl (ap (λ r. r.0) p, ap (λ r. some r.1) (sym p))
push_missed-cases pkg_id (some since) rest (Memᴰ.tail m) = inr m

IsMissed-later :
    (row : ℕ × PackageElfAnalysis) {analyses : Analyses} {pkg_id since : ℕ}
    → IsMissed analyses pkg_id since
    → IsMissed (row ∷ analyses) pkg_id since
IsMissed-later row i = record {
  analysis = i.analysis;
  listed = Memᴰ.tail i.listed;
  is_broken = i.is_broken;
  broke = i.broke;
  after_scan = i.after_scan;
}

-- A break counts as missed only for a package that is broken since a time after its scan.
pub missed_breaks_in-IsMissed :
    (analyses : Analyses) (pkg_id since : ℕ)
    → Memᴰ (pkg_id, since) (missed_breaks_in analyses)
    → IsMissed analyses pkg_id since
unfolding missed_breaks_in
missed_breaks_in-IsMissed [] pkg_id since m = absurd (Memᴰ.not-nil m)
missed_breaks_in-IsMissed ((id, analysis) ∷ analyses) pkg_id since m =
    elim (push_missed-cases id
      (missed_since analysis.broken analysis.broken_since analysis.scanned_at) _ m) [
        | inl (same, found) ↦
            let (broken, (broke, after)) =
              missed_since-cases analysis.broken analysis.broken_since analysis.scanned_at since
                found in
            record {
              analysis = analysis;
              listed = Memᴰ.head (ap (λ i. (i, analysis)) same);
              is_broken = broken;
              broke = broke;
              after_scan = after;
            }
        | inr later ↦
            IsMissed-later (id, analysis) (missed_breaks_in-IsMissed analyses pkg_id since later)
      ]

-- The lookup by id returns the row with that id.
abbrev pub FindsById : Database → Type 0
FindsById db = (id : ℕ) (pkg : Package) → db.package_by_id id ≡ some pkg → pkg.id ≡ id

-- A culprit that is not one of the consumer's own packages.
abbrev pub IsOther : List ℕ → Culprit → Type 0
IsOther own_ids (arch_owner pkg, from) = from ≡ arch
IsOther own_ids (chaotic_owner pkg, from) = has pkg.id own_ids ≡ false

row_owner-IsOther :
    (db : Database) (own_ids : List ℕ) (type : PkgType) (id : ℕ) {culprit : Culprit}
    → FindsById db
    → is_other own_ids (record { pkg_type = type; pkg_id = id }) ≡ true
    → row_owner db (record { pkg_type = type; pkg_id = id }) ≡ some culprit
    → IsOther own_ids culprit
row_owner-IsOther db own_ids arch_pkg id finds other e =
    let (pkg, (found, same)) = option_map-some _ (db.arch_by_id id) e in
    subst (IsOther own_ids) same refl
row_owner-IsOther db own_ids chaotic_pkg id finds other e =
    let (pkg, (found, same)) = option_map-some _ (db.package_by_id id) e in
    subst (IsOther own_ids) same (rw (finds id pkg found) (ground arith))

first_row-IsOther :
    (db : Database) (own_ids : List ℕ) (rows : List ProviderRow) (found : Option ProviderRow)
    {culprit : Culprit}
    → FindsById db
    → find (is_other own_ids) rows ≡ found
    → owner_of_found db found ≡ some culprit
    → IsOther own_ids culprit
first_row-IsOther db own_ids rows none finds f e = absurd (none-ne-some _ e)
first_row-IsOther db own_ids rows (some row) finds f e =
    let (m, other) = find-mem (is_other own_ids) rows f in
    row_owner-IsOther db own_ids row.pkg_type row.pkg_id finds other e

arch_found-IsOther :
    (own_ids : List ℕ) (found : Option ArchlinuxPackage) {culprit : Culprit}
    → Option.map by_arch found ≡ some culprit
    → IsOther own_ids culprit
arch_found-IsOther own_ids found e =
    let (pkg, (here, same)) = option_map-some by_arch found e in subst (IsOther own_ids) same refl

family_owner-IsOther :
    (db : Database) (own_ids : List ℕ) (soname provided : Text) {culprit : Culprit}
    → family_owner db soname provided ≡ some culprit
    → IsOther own_ids culprit
family_owner-IsOther db own_ids soname provided {culprit} e =
    elim (Bool-cases (same_library_family provided soname)) [
      | inl same ↦
          let (name, (m, h)) =
            first_some-mem (λ pkgname. Option.map by_arch (db.active_arch_by_name pkgname))
              (or_else (get provided db.provided_by_pkgname) []) (ground arith) in
          arch_found-IsOther own_ids (db.active_arch_by_name name) h
      | inr other ↦ absurd (none-ne-some culprit (ground arith))
    ]

blame_dependency-IsOther :
    (db : Database) (own_ids : List ℕ) (dep : BrokenDependency) {culprit : Culprit}
    → FindsById db
    → blame_dependency db own_ids dep ≡ some culprit
    → IsOther own_ids culprit
unfolding blame_dependency last_provider_of arch_family_provider_of
blame_dependency-IsOther db own_ids (missing_soname soname) finds e =
    let (named, e') = skipped-some (is_empty soname) _ e in
    elim (or_try-cases (last_provider_of db soname own_ids) (arch_family_provider_of db soname)
      e') [
        | inl last ↦ first_row-IsOther db own_ids (db.providers_of soname) _ finds refl last
        | inr (nothing, family) ↦
            let (provided, (m, h)) =
              first_some-mem (family_owner db soname) db.arch_provided_sonames family in
            family_owner-IsOther db own_ids soname provided h
      ]
blame_dependency-IsOther db own_ids (missing_version soname nodes) finds e =
    absurd (none-ne-some _ e)
blame_dependency-IsOther db own_ids (stale_runtime runtime current found path) finds e =
    arch_found-IsOther own_ids (db.arch_by_name (runtime_text runtime)) e

-- Where the lookup by id returns the package with that id, a Chaotic package that is blamed for a
-- missed break is none of the outputs; every other culprit is an Arch package.
pub blame_missed_break-IsOther :
    (db : Database) (deps : List BrokenDependency) (outputs : List Package) {culprit : Culprit}
    → FindsById db
    → blame_missed_break db deps outputs ≡ some culprit
    → IsOther (map (λ (pkg : Package). pkg.id) outputs) culprit
unfolding blame_missed_break
blame_missed_break-IsOther db deps outputs finds e =
    let ids = map (λ (pkg : Package). pkg.id) outputs in
    let (dep, (m, h)) = first_some-mem (blame_dependency db ids) deps e in
    blame_dependency-IsOther db ids dep finds h
