-- ===== src/Scan/Providers.antt =====
-- Who provides what now: `latestActiveAnalysesByPackage` of
-- backend/src/repo-manager/scan/latest-analyses.ts, and `loadSonameProviders` and
-- `loadVersionNodeProviders` of scan/trigger-detector.ts. What a query returns is an argument.
use chaotic_next.Base.{
  ℕ, Bool, true, false, Option, none, some, List, [], ◌∷◌, ◌++◌, map, flat_map, Text, text_eq,
  nat_eq, codes, has, dedupe, any, keep, is_empty, or_else, decimal, if◌then◌else◌,
}
use chaotic_next.Base.Map.{get, put}
use chaotic_next.Base.MultiMap.{entry}
use chaotic_next.Signal.Latest.{latest_analysis_by_key}
use chaotic_next.Signal.Owners.{PkgType, arch_pkg, chaotic_pkg}
use chaotic_next.Signal.Broken.{Nodes}
use chaotic_next.Scan.Records.{ArchlinuxPackage, Package, PackageElfAnalysis}

pub record ActiveAnalysis : Type 0 where
  pub pkgname : Text
  pub analysis : PackageElfAnalysis

-- `${pkgType}:${pkgId}`.
abbrev pkg_type_code : PkgType → Text
pkg_type_code arch_pkg = codes "0"
pkg_type_code chaotic_pkg = codes "1"

unfoldable pub analysis_key : PkgType → ℕ → Text
analysis_key pkg_type pkg_id = pkg_type_code pkg_type ++ (codes ":" ++ decimal pkg_id)

abbrev key_of : PackageElfAnalysis → Text
key_of analysis = analysis_key analysis.pkg_type analysis.pkg_id

unfoldable pub latest_analyses_by_package :
    List PackageElfAnalysis → List (Text × PackageElfAnalysis)
unfolding latest_analysis_by_key analysis_key
latest_analyses_by_package rows =
    latest_analysis_by_key (λ (a : PackageElfAnalysis). a.version) key_of rows

unfoldable pub names_by_key : List (Text × Text) → List (Text × Text) → List (Text × Text)
names_by_key names [] = names
names_by_key names ((key, name) ∷ rest) = names_by_key (put key name names) rest

abbrev put_active :
    Text
    → PackageElfAnalysis
    → Option Text
    → List (Text × ActiveAnalysis)
    → List (Text × ActiveAnalysis)
put_active key analysis none active = active
put_active key analysis (some pkgname) active =
    put key (record { pkgname = pkgname; analysis = analysis }) active

unfoldable pub active_from :
    List (Text × Text)
    → List (Text × PackageElfAnalysis)
    → List (Text × ActiveAnalysis)
    → List (Text × ActiveAnalysis)
active_from names [] active = active
active_from names ((key, analysis) ∷ rest) active =
    active_from names rest (put_active key analysis (get key names) active)

unfoldable pub latest_active_analyses_by_package :
    List PackageElfAnalysis → List ArchlinuxPackage → List Package → List (Text × ActiveAnalysis)
unfolding latest_analyses_by_package names_by_key active_from analysis_key
latest_active_analyses_by_package rows arch_pkgs chaotic_pkgs =
    let arch_names =
      map (λ (p : ArchlinuxPackage). (analysis_key arch_pkg p.id, p.pkgname)) arch_pkgs in
    let chaotic_names =
      map (λ (p : Package). (analysis_key chaotic_pkg p.id, p.pkgname)) chaotic_pkgs in
    active_from (names_by_key (names_by_key [] arch_names) chaotic_names)
      (latest_analyses_by_package rows) []

-- A name added to the set under a key.
abbrev pub add_under : Text → Text → Nodes → Nodes
add_under key name m =
    let set = entry key m in put key (if has name set then set else set ++ name ∷ []) m

unfoldable pub add_provider : Text → List Text → Nodes → Nodes
add_provider pkgname [] m = m
add_provider pkgname (soname ∷ sonames) m =
    add_provider pkgname sonames (add_under soname pkgname m)

unfoldable pub providers_from : List ActiveAnalysis → Nodes → Nodes
unfolding add_provider
providers_from [] m = m
providers_from (a ∷ rest) m =
    providers_from rest (add_provider a.pkgname a.analysis.provided_sonames m)

abbrev is_arch : PkgType → Bool
is_arch arch_pkg = true
is_arch chaotic_pkg = false

abbrev arch_sonames : ActiveAnalysis → List Text
arch_sonames a = if is_arch a.analysis.pkg_type then a.analysis.provided_sonames else []

-- `providedByPkgname` and `archProvidedSonames`.
unfoldable pub load_soname_providers : List (Text × ActiveAnalysis) → Nodes × List Text
unfolding providers_from
load_soname_providers active =
    let values = map (λ (row : Text × ActiveAnalysis). row.1) active in
    (providers_from values [], dedupe (flat_map arch_sonames values))

-- The version nodes of each provider, by soname and by the provider's name.
abbrev add_nodes : Text → Text → Option (List Text) → List (Text × Nodes) → List (Text × Nodes)
add_nodes pkgname soname none by_soname = by_soname
add_nodes pkgname soname (some nodes) by_soname =
    put soname (put pkgname (dedupe nodes) (or_else (get soname by_soname) [])) by_soname

unfoldable pub row_nodes : Text → Nodes → List Text → List (Text × Nodes) → List (Text × Nodes)
row_nodes pkgname nodes [] by_soname = by_soname
row_nodes pkgname nodes (soname ∷ sonames) by_soname =
    row_nodes pkgname nodes sonames (add_nodes pkgname soname (get soname nodes) by_soname)

abbrev named_row_nodes : Option Text → Nodes → List Text → List (Text × Nodes) → List (Text × Nodes)
named_row_nodes none nodes sonames by_soname = by_soname
named_row_nodes (some pkgname) nodes sonames by_soname = row_nodes pkgname nodes sonames by_soname

unfoldable pub rows_nodes :
    List (Text × Text)
    → List Text
    → List PackageElfAnalysis
    → List (Text × Nodes)
    → List (Text × Nodes)
unfolding row_nodes analysis_key
rows_nodes names sonames [] by_soname = by_soname
rows_nodes names sonames (row ∷ rows) by_soname =
    rows_nodes names sonames rows
      (named_row_nodes (get (key_of row) names) row.provided_version_nodes sonames by_soname)

-- `rows_of` is the query of `loadVersionNodeRows`.
unfoldable pub load_version_node_providers :
    (List PackageElfAnalysis → List PackageElfAnalysis)
    → List (Text × ActiveAnalysis)
    → List Text
    → List (Text × Nodes)
unfolding names_by_key rows_nodes analysis_key
load_version_node_providers rows_of active sonames =
    let providers =
      keep (λ (a : ActiveAnalysis). any (λ s. has s sonames) a.analysis.provided_sonames)
        (map (λ (row : Text × ActiveAnalysis). row.1) active) in
    let names =
      names_by_key [] (map (λ (a : ActiveAnalysis). (key_of a.analysis, a.pkgname)) providers) in
    let found =
      rows_nodes names sonames (rows_of (map (λ (a : ActiveAnalysis). a.analysis) providers)) [] in
    if is_empty sonames then [] else found
