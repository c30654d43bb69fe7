-- ===== src/Scan/Missed/Rebuilds.antt =====
-- Why `missedBreakTriggerFor` of backend/src/repo-manager/scan/trigger-detector.ts rebuilds a
-- directory.
use mathlib.Core.List.{Memᴰ}
use mathlib.Core.Path.{subst}
use mathlib.Core.Bool.{false≢true}
use mathlib.Core.Option.{some-injective, none-ne-some}
use mathlib.Core.Option as Option
use chaotic_next.Base.{
  ℕ, ◌<◌, ◌≡◌, refl, sym, inl, inr, ◌∙◌, ◌&&◌, true, false, not, Option, none, some, List, [], ◌∷◌,
  map, Text, nat_eq, has, any, any-intro, find, find-mem, is_empty, or_else, leb, nat_beq, ◌==◌,
  arith, Bool-cases, text_eq,
}
use chaotic_next.Base.Map.{get}
use chaotic_next.Base.Search.{first_some-mem, skipped-some, option_map-some, or_try-cases}
use chaotic_next.Signal.Sonames.{RuntimeName, same_library_family}
use chaotic_next.Signal.Broken.{
  BrokenDependency, missing_soname, missing_version, stale_runtime, runtime_text,
}
use chaotic_next.Signal.Broken.Reported.{IsBroken, find_broken_dependencies-IsBroken}
use chaotic_next.Signal.Fixability.{has_successor, soname_stems}
use chaotic_next.Scan.Records.{ArchlinuxPackage, Package, PackageElfAnalysis}
use chaotic_next.Scan.Triggers.{DetectedTrigger, Analyses}
use chaotic_next.Scan.Missed.{
  ProviderRow, Database, MissedBreaks, missed_breaks_in, bumped_since, bumped_id,
  current_broken_dependencies, Culprit, by_arch, is_other, row_owner, owner_of_found,
  last_provider_of, family_owner, arch_family_provider_of, blame_dependency, blame_missed_break,
  missed_trigger, rebuild_for, missed_break_trigger_for,
}
use chaotic_next.Scan.Missed.Causes.{IsMissed, missed_breaks_in-IsMissed}

-- Whom a broken dependency is blamed on: a provider of the missing soname other than the outputs, an
-- Arch package that provides a library of its family, or the Arch package of the stale runtime.
pub data IsBlamed (db : Database) (own_ids : List ℕ) : BrokenDependency → Culprit → Type 0 where
  last_provider :
      {soname : Text} {row : ProviderRow} {culprit : Culprit}
      → Memᴰ row (db.providers_of soname)
      → is_other own_ids row ≡ true
      → row_owner db row ≡ some culprit
      → IsBlamed db own_ids (missing_soname soname) culprit
  same_family :
      {soname provided pkgname : Text} {pkg : ArchlinuxPackage}
      → Memᴰ provided db.arch_provided_sonames
      → same_library_family provided soname ≡ true
      → Memᴰ pkgname (or_else (get provided db.provided_by_pkgname) [])
      → db.active_arch_by_name pkgname ≡ some pkg
      → IsBlamed db own_ids (missing_soname soname) (by_arch pkg)
  runtime :
      {name : RuntimeName} {current found path : Text} {pkg : ArchlinuxPackage}
      → db.arch_by_name (runtime_text name) ≡ some pkg
      → IsBlamed db own_ids (stale_runtime name current found path) (by_arch pkg)

-- A dependency that is broken with what is provided now.
abbrev pub IsBrokenNow : Database → PackageElfAnalysis → BrokenDependency → Type 0
IsBrokenNow db analysis =
    IsBroken analysis.needed_sonames analysis.files
      (λ soname. has soname (map (λ row. row.0) db.provided_by_pkgname) ≡ false) db.runtimes
      analysis.provided_sonames

-- Why a directory is rebuilt for a missed break: one of its outputs broke after its scan, nothing
-- was bumped since, it is broken now, a rebuild finds a successor, and somebody is to blame.
pub record MissedCause (db : Database) (pkgbase_dir : Text) (outputs : List Package)
    (analyses : Analyses) (t : DetectedTrigger) : Type 0 where
  pub output : Package
  pub listed : Memᴰ output outputs
  pub since : ℕ
  pub missed : IsMissed analyses output.id since
  pub analysis : PackageElfAnalysis
  pub analyzed : get output.id analyses ≡ some analysis
  pub not_bumped :
      (bump : ℕ × ℕ)
      → Memᴰ bump db.bumps
      → bump.0 ≡ or_else (db.pkgbase_id pkgbase_dir) output.id
      → bump.1 < since
  pub broken : List BrokenDependency
  pub all_broken : (dep : BrokenDependency) → Memᴰ dep broken → IsBrokenNow db analysis dep
  pub some_fixed :
      any
        (λ dep. has_successor dep (soname_stems (map (λ row. row.0) db.provided_by_pkgname)))
        broken
      ≡ true
  pub blamed_for : BrokenDependency
  pub among : Memᴰ blamed_for broken
  pub culprit : Culprit
  pub is_blamed : IsBlamed db (map (λ (pkg : Package). pkg.id) outputs) blamed_for culprit
  pub made : t ≡ missed_trigger broken culprit

get-listed :
    (id since : ℕ) (missed : MissedBreaks) → get id missed ≡ some since → Memᴰ (id, since) missed
get-listed id since [] e = absurd (none-ne-some _ e)
get-listed id since ((j, s) ∷ missed) e = elim (Bool-cases (j == id)) [
  | inl here ↦
      let same : s ≡ since = some-injective _ _ (rw here at e) in
      Memᴰ.head (rw (same, (nat_eq.beq_iff j id).0 here) refl)
  | inr other ↦ Memᴰ.tail (get-listed id since missed (rw other at e))
]

provider-IsBlamed :
    (db : Database) (own_ids : List ℕ) (soname : Text) (found : Option ProviderRow)
    {culprit : Culprit}
    → find (is_other own_ids) (db.providers_of soname) ≡ found
    → owner_of_found db found ≡ some culprit
    → IsBlamed db own_ids (missing_soname soname) culprit
provider-IsBlamed db own_ids soname none f e = absurd (none-ne-some _ e)
provider-IsBlamed db own_ids soname (some row) f e =
    let (m, other) = find-mem (is_other own_ids) (db.providers_of soname) f in
    last_provider m other e

family-IsBlamed :
    (db : Database) (own_ids : List ℕ) (soname provided : Text) {culprit : Culprit}
    → Memᴰ provided db.arch_provided_sonames
    → family_owner db soname provided ≡ some culprit
    → IsBlamed db own_ids (missing_soname soname) culprit
family-IsBlamed db own_ids soname provided {culprit} listed e =
    elim (Bool-cases (same_library_family provided soname)) [
      | inl same ↦
          let (name, (m, h)) =
            first_some-mem (λ pkgname. Option.map by_arch (db.active_arch_by_name pkgname))
              (or_else (get provided db.provided_by_pkgname) []) (ground arith) in
          let (pkg, (found, made)) = option_map-some by_arch (db.active_arch_by_name name) h in
          subst (IsBlamed db own_ids (missing_soname soname)) made (same_family listed same m found)
      | inr other ↦ absurd (none-ne-some culprit (ground arith))
    ]

blame_dependency-IsBlamed :
    (db : Database) (own_ids : List ℕ) (dep : BrokenDependency) {culprit : Culprit}
    → blame_dependency db own_ids dep ≡ some culprit
    → IsBlamed db own_ids dep culprit
unfolding blame_dependency last_provider_of arch_family_provider_of
blame_dependency-IsBlamed db own_ids (missing_soname soname) e =
    let (named, e') = skipped-some (is_empty soname) _ e in
    elim (or_try-cases (last_provider_of db soname own_ids) (arch_family_provider_of db soname)
      e') [
        | inl last ↦ provider-IsBlamed db own_ids soname _ refl last
        | inr (nothing, family) ↦
            let (provided, (m, h)) =
              first_some-mem (family_owner db soname) db.arch_provided_sonames family in
            family-IsBlamed db own_ids soname provided m h
      ]
blame_dependency-IsBlamed db own_ids (missing_version soname nodes) e = absurd (none-ne-some _ e)
blame_dependency-IsBlamed db own_ids (stale_runtime name current found path) e =
    let (pkg, (here, made)) = option_map-some by_arch (db.arch_by_name (runtime_text name)) e in
    subst (IsBlamed db own_ids (stale_runtime name current found path)) made (runtime here)

bumped_since-before :
    (db : Database) (id since : ℕ) (bump : ℕ × ℕ)
    → bumped_since db id since ≡ false
    → Memᴰ bump db.bumps
    → bump.0 ≡ id
    → bump.1 < since
unfolding bumped_since
bumped_since-before db id since bump none_since m same = elim (Bool-cases (leb since bump.1)) [
  | inl late ↦ absurd (
      false≢true (
        sym none_since
        ∙ any-intro (λ (b : ℕ × ℕ). nat_beq b.0 id && leb since b.1) db.bumps m
            (ground (arith, nat_eq.beq_iff bump.0 id))))
  | inr early ↦ ground arith
]

rebuild_for-MissedCause :
    (db : Database) (pkgbase_dir : Text) (outputs : List Package) (analyses : Analyses)
    (output : Package) (since : Option ℕ) (analysis : Option PackageElfAnalysis)
    {t : DetectedTrigger}
    → Memᴰ output outputs
    → get output.id (missed_breaks_in analyses) ≡ since
    → get output.id analyses ≡ analysis
    → rebuild_for db pkgbase_dir outputs output since analysis ≡ some t
    → MissedCause db pkgbase_dir outputs analyses t
unfolding rebuild_for current_broken_dependencies blame_missed_break
rebuild_for-MissedCause db dir outputs analyses output none analysis m s a e =
    absurd (none-ne-some _ e)
rebuild_for-MissedCause db dir outputs analyses output (some since) none m s a e =
    absurd (none-ne-some _ e)
rebuild_for-MissedCause db dir outputs analyses output (some since) (some analysis) m s a e =
    let (idle, e') = skipped-some (bumped_since db (bumped_id db dir output) since) _ e in
    let broken = (current_broken_dependencies db analysis).0 in
    let stems = soname_stems (map (λ row. row.0) db.provided_by_pkgname) in
    let ids = map (λ (pkg : Package). pkg.id) outputs in
    let (hope, e'') = skipped-some (not (any (λ dep. has_successor dep stems) broken)) _ e' in
    let (culprit, (blame, made)) =
      option_map-some (missed_trigger broken) (blame_missed_break db broken outputs) e'' in
    let (dep, (among, h)) = first_some-mem (blame_dependency db ids) broken blame in
    record {
      output = output;
      listed = m;
      since = since;
      missed =
          missed_breaks_in-IsMissed analyses output.id since
            (get-listed output.id since (missed_breaks_in analyses) s);
      analysis = analysis;
      analyzed = a;
      not_bumped =
          λ bump n same. bumped_since-before db (bumped_id db dir output) since bump idle n same;
      broken = broken;
      all_broken =
          find_broken_dependencies-IsBroken analysis.needed_sonames analysis.files
            (map (λ row. row.0) db.provided_by_pkgname) db.runtimes analysis.provided_sonames;
      some_fixed = ground (arith, hope);
      blamed_for = dep;
      among = among;
      culprit = culprit;
      is_blamed = blame_dependency-IsBlamed db ids dep h;
      made = sym made;
    }

-- Every rebuild for a missed break has its cause.
pub missed_break_trigger_for-MissedCause :
    (db : Database) (pkgbase_dir : Text) (outputs : List Package) (analyses : Analyses)
    {t : DetectedTrigger}
    → missed_break_trigger_for db pkgbase_dir outputs analyses (missed_breaks_in analyses) ≡ some t
    → MissedCause db pkgbase_dir outputs analyses t
unfolding missed_break_trigger_for
missed_break_trigger_for-MissedCause db dir outputs analyses e =
    let (output, (m, h)) = first_some-mem _ outputs e in
    rebuild_for-MissedCause db dir outputs analyses output _ _ m refl refl h
