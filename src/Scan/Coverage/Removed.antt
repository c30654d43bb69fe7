-- ===== src/Scan/Coverage/Removed.antt =====
-- What the rows of `findRemovedProviderSonames` of backend/src/repo-manager/scan/trigger-detector.ts
-- stand for.
use mathlib.Core.Path.{subst}
use mathlib.Core.List.{Memᴰ}
use chaotic_next.Base.{
  ◌≡◌, refl, inl, inr, ℕ, true, false, Option, none, some, List, [], ◌∷◌, ◌++◌, map, Text, text_eq,
  nat_eq, has, is_some, is_empty, or_else, decimal, All, All-append, arith, Bool-cases, ◌==◌,
}
use chaotic_next.Base.Map.{get}
use chaotic_next.Base.Map.Entries.{All-put, All-get}
use chaotic_next.Base.MultiMap.{entry, push}
use chaotic_next.Signal.Broken.{Nodes}
use chaotic_next.Scan.Records.{ArchlinuxPackage}
use chaotic_next.Scan.Context.{ProvidedAnalysis}
use chaotic_next.Scan.Triggers.{Analyses}
use chaotic_next.Scan.Providers.{add_under}
use chaotic_next.Scan.Coverage.{
  ActivePackage, RemovedProviderSoname, load_removed_arch_analyses, removed_names, add_removed,
  removed_providers, needed_of, add_consumer, consumers_from, find_removed_provider_sonames,
}

append-filled {ℓ} : {A : Type ℓ} (xs : List A) (x : A) → is_empty (xs ++ x ∷ []) ≡ false
append-filled [] x = refl
append-filled (y ∷ xs) x = refl

has-filled : (k : Text) (ks : List Text) → has k ks ≡ true → is_empty ks ≡ false
has-filled k [] h = cc
has-filled k (j ∷ ks) h = refl

-- There is a value under a key, and each has what the key asks for.
abbrev AreUnder {ℓ} : (P : Text → Text → Type ℓ) → Text × List Text → Type ℓ
AreUnder P (k, vs) = (is_empty vs ≡ false) × All (P k) vs

module _ {ℓ} (P : Text → Text → Type ℓ) where
  entry-AreUnder : (k : Text) (m : Nodes) → All (AreUnder P) m → All (P k) (entry k m)
  entry-AreUnder k [] h = tt
  entry-AreUnder k ((j, vs) ∷ m) h = elim (Bool-cases (j == k)) [
    | inl here ↦ rw here (subst (λ i. All (P i) vs) ((text_eq.beq_iff j k).0 here) h.0.1)
    | inr other ↦ rw other (entry-AreUnder k m h.1)
  ]

  push-AreUnder :
      (k v : Text) (m : Nodes) → P k v → All (AreUnder P) m → All (AreUnder P) (push k v m)
  push-AreUnder k v m p h =
      All-put (AreUnder P) k (entry k m ++ v ∷ []) m
        (λ j same. rw same (
          append-filled (entry k m) v,
          All-append (P k) (entry k m) (v ∷ []) (entry-AreUnder k m h) (p, tt),
        ))
        h

  add_under-AreUnder :
      (k v : Text) (m : Nodes) → P k v → All (AreUnder P) m → All (AreUnder P) (add_under k v m)
  add_under-AreUnder k v m p h = elim (Bool-cases (has v (entry k m))) [
    | inl there ↦ rw there (
        All-put (AreUnder P) k (entry k m) m
          (λ j same. rw same (has-filled v (entry k m) there, entry-AreUnder k m h)) h)
    | inr fresh ↦ rw fresh (push-AreUnder k v m p h)
  ]

-- The soname has no active provider, and a removed package of that name provided it.
IsRemovedProvider : Nodes → List (ℕ × Text) → List ProvidedAnalysis → Text → Text → Type 0
IsRemovedProvider provided names rows soname name =
    (get soname provided ≡ none)
    × ((row : ProvidedAnalysis) × Memᴰ row rows
        × (has soname row.provided_sonames ≡ true)
        × (name ≡ or_else (get row.pkg_id names) (decimal row.pkg_id)))

get-is_some {ℓ} : {A : Type ℓ} (o : Option A) → is_some o ≡ false → o ≡ none
get-is_some none h = refl
get-is_some (some x) h = cc

add_removed-AreUnder {ℓ} :
    (P : Text → Text → Type ℓ) (provided : Nodes) (name : Text) (sonames : List Text) (m : Nodes)
    → ((soname : Text) → has soname sonames ≡ true → get soname provided ≡ none → P soname name)
    → All (AreUnder P) m
    → All (AreUnder P) (add_removed provided name sonames m)
unfolding add_removed
add_removed-AreUnder P provided name [] m p h = h
add_removed-AreUnder P provided name (s ∷ sonames) m p h =
    elim (Bool-cases (is_some (get s provided))) [
      | inl there ↦
          rw there (add_removed-AreUnder P provided name sonames m (λ t i. p t (ground arith)) h)
      | inr gone ↦ rw gone (
          add_removed-AreUnder P provided name sonames (add_under s name m)
            (λ t i. p t (ground arith))
            (add_under-AreUnder P s name m
              (p s (ground (arith, text_eq.beq_iff s s)) (get-is_some _ gone)) h))
    ]

removed_providers-AreUnder :
    (provided : Nodes) (names : List (ℕ × Text)) (all_rows rows : List ProvidedAnalysis) (m : Nodes)
    → ((row : ProvidedAnalysis) → Memᴰ row rows → Memᴰ row all_rows)
    → All (AreUnder (IsRemovedProvider provided names all_rows)) m
    → All
        (AreUnder (IsRemovedProvider provided names all_rows))
        (removed_providers provided names rows m)
unfolding removed_providers IsRemovedProvider
removed_providers-AreUnder provided names all_rows [] m sub h = h
removed_providers-AreUnder provided names all_rows (row ∷ rows) m sub h =
    removed_providers-AreUnder provided names all_rows rows _ (λ r i. sub r (Memᴰ.tail i))
      (add_removed-AreUnder (IsRemovedProvider provided names all_rows) provided _
        row.provided_sonames m (λ s i gone. (gone, (row, sub row (Memᴰ.head refl), i, refl))) h)

first-AreUnder {ℓ} :
    (P : Text → Text → Type ℓ) (row : Text × List Text) → AreUnder P row → (v : Text) × P row.0 v
first-AreUnder P (k, []) h = cc
first-AreUnder P (k, v ∷ vs) (_, (p, _)) = (v, p)

gone_under :
    (provided : Nodes) (names : List (ℕ × Text)) (rows : List ProvidedAnalysis) (m : Nodes)
    (soname : Text)
    → All (AreUnder (IsRemovedProvider provided names rows)) m
    → is_some (get soname m) ≡ true
    → get soname provided ≡ none
unfolding IsRemovedProvider
gone_under provided names rows m soname h there =
    let (vs, here) = found (get soname m) there in
    (first-AreUnder (IsRemovedProvider provided names rows) (soname, vs)
      (All-get (AreUnder (IsRemovedProvider provided names rows)) soname m h here)).1.0
  where
    found : (o : Option (List Text)) → is_some o ≡ true → (vs : List Text) × (o ≡ some vs)
    found none h = cc
    found (some vs) h = (vs, refl)

-- No active package provides the soname, and an active package of that name needs it.
IsStranded : Nodes → List ActivePackage → Analyses → Text → Text → Type 0
IsStranded provided active latest soname name =
    (get soname provided ≡ none)
    × ((a : ActivePackage) × Memᴰ a active
        × (has soname (needed_of (get a.pkg.id latest)) ≡ true)
        × (name ≡ a.pkg.pkgname))

add_consumer-AreUnder {ℓ} :
    (P : Text → Text → Type ℓ) (removed : Nodes) (name : Text) (sonames : List Text) (m : Nodes)
    → ((soname : Text)
        → has soname sonames ≡ true
        → is_some (get soname removed) ≡ true
        → P soname name)
    → All (AreUnder P) m
    → All (AreUnder P) (add_consumer removed name sonames m)
unfolding add_consumer
add_consumer-AreUnder P removed name [] m p h = h
add_consumer-AreUnder P removed name (s ∷ sonames) m p h =
    elim (Bool-cases (is_some (get s removed))) [
      | inl there ↦ rw there (
          add_consumer-AreUnder P removed name sonames (push s name m) (λ t i. p t (ground arith))
            (push-AreUnder P s name m (p s (ground (arith, text_eq.beq_iff s s)) there) h))
      | inr other ↦
          rw other (add_consumer-AreUnder P removed name sonames m (λ t i. p t (ground arith)) h)
    ]

consumers_from-AreUnder :
    (provided removed : Nodes) (everyone active : List ActivePackage) (latest : Analyses)
    (m : Nodes)
    → ((soname : Text) → is_some (get soname removed) ≡ true → get soname provided ≡ none)
    → ((a : ActivePackage) → Memᴰ a active → Memᴰ a everyone)
    → All (AreUnder (IsStranded provided everyone latest)) m
    → All (AreUnder (IsStranded provided everyone latest)) (consumers_from removed active latest m)
unfolding consumers_from IsStranded
consumers_from-AreUnder provided removed everyone [] latest m gone sub h = h
consumers_from-AreUnder provided removed everyone (a ∷ active) latest m gone sub h =
    consumers_from-AreUnder provided removed everyone active latest _ gone
      (λ b i. sub b (Memᴰ.tail i))
      (add_consumer-AreUnder (IsStranded provided everyone latest) removed a.pkg.pkgname
        (needed_of (get a.pkg.id latest)) m
        (λ s i there. (gone s there, (a, sub a (Memᴰ.head refl), i, refl))) h)

-- A row that is true of the database.
pub IsRemovedRow :
    Nodes
    → List ArchlinuxPackage
    → List ProvidedAnalysis
    → List ActivePackage
    → Analyses
    → RemovedProviderSoname
    → Type 0
IsRemovedRow provided removed_pkgs rows active latest r =
    (is_empty r.consumers ≡ false)
    × All (IsStranded provided active latest r.soname) r.consumers
    × All
        (IsRemovedProvider provided (removed_names removed_pkgs [])
          (load_removed_arch_analyses rows) r.soname)
        r.removed_providers_of

All-map {ℓ κ μ} :
    {A : Type ℓ} {B : Type κ} (P : B → Type μ) (f : A → B) (xs : List A)
    → All (λ x. P (f x)) xs
    → All P (map f xs)
All-map P f [] h = tt
All-map P f (x ∷ xs) (p, h) = (p, All-map P f xs h)

All-imply {ℓ κ μ} :
    {A : Type ℓ} (P : A → Type κ) (Q : A → Type μ) (xs : List A)
    → ((x : A) → P x → Q x)
    → All P xs
    → All Q xs
All-imply P Q [] i h = tt
All-imply P Q (x ∷ xs) i (p, h) = (i x p, All-imply P Q xs i h)

pub find_removed_provider_sonames-IsRemovedRow :
    (provided : Nodes) (removed_pkgs : List ArchlinuxPackage) (rows : List ProvidedAnalysis)
    (active : List ActivePackage) (latest : Analyses)
    → All
        (IsRemovedRow provided removed_pkgs rows active latest)
        (find_removed_provider_sonames provided removed_pkgs rows active latest)
unfolding find_removed_provider_sonames IsRemovedRow
find_removed_provider_sonames-IsRemovedRow provided removed_pkgs rows active latest =
    let names = removed_names removed_pkgs [] in
    let kept = load_removed_arch_analyses rows in
    let removed = removed_providers provided names kept [] in
    let R = IsRemovedProvider provided names kept in
    let under : All (AreUnder R) removed =
      removed_providers-AreUnder provided names kept kept [] (λ r i. i) tt in
    All-map (IsRemovedRow provided removed_pkgs rows active latest) _
      (consumers_from removed active latest [])
      (All-imply (AreUnder (IsStranded provided active latest)) _
        (consumers_from removed active latest [])
        (λ row h. (h.0, h.1, entry-AreUnder R row.0 removed under))
        (consumers_from-AreUnder provided removed active active latest []
          (λ s there. gone_under provided names kept removed s under there) (λ a i. i) tt))
