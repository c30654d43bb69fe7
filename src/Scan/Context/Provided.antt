-- ===== src/Scan/Context/Provided.antt =====
-- Which sonames count as dropped, provided and withheld.
use chaotic_next.Base.{
  ℕ, ◌≡◌, refl, ◌∙◌, inl, inr, Bool, true, false, not, ◌&&◌, ◌||◌, Option, none, some, List, [],
  ◌∷◌, ◌++◌, map, Text, text_eq, nat_eq, ◌==◌, has, any, keep, or_else, flat_map, arith, has-dedupe,
  has-append, has-keep, Bool-cases,
}
use chaotic_next.Base.Map.{get}
use chaotic_next.Signal.Broken.{Nodes}
use chaotic_next.Scan.Context.{
  BrokenDepsContext, dropped_from, find_dropped_sonames, provided_by_deps, provided_for_deps,
  deps_contains, is_withheld, withhold_unreachable_dropped_sonames,
}

has-flat_map :
    {A : Type 0} (a : Text) (f : A → List Text) (xs : List A)
    → has a (flat_map f xs) ≡ any (λ x. has a (f x)) xs
has-flat_map a f [] = refl
has-flat_map a f (x ∷ xs) = ground (arith, has-append a (f x) (flat_map f xs), has-flat_map a f xs)

-- A soname is dropped exactly when a package that provided it does not provide it now.
pub has-find_dropped_sonames :
    (soname : Text) (previous current : List (ℕ × List Text))
    → has soname (find_dropped_sonames previous current)
      ≡ any (λ row. has soname row.1 && not (has soname (or_else (get row.0 current) []))) previous
unfolding find_dropped_sonames
has-find_dropped_sonames soname previous current =
    has-dedupe soname _ ∙ has-flat_map soname _ previous ∙ any-same previous
  where
    any-same :
        (rows : List (ℕ × List Text))
        → any (λ row. has soname (dropped_from row.1 (or_else (get row.0 current) []))) rows
          ≡ any (λ row. has soname row.1 && not (has soname (or_else (get row.0 current) []))) rows
    any-same [] = refl
    any-same (row ∷ rows) = ground (
      arith,
      any-same rows,
      has-keep (λ s. not (has s (or_else (get row.0 current) []))) soname row.1,
    )

-- There is a row for the soname whose packages pass the test.
abbrev pub has_row : (List Text → Bool) → Text → Nodes → Bool
has_row passes soname [] = false
has_row passes soname ((key, packages) ∷ rows) =
    (key == soname && passes packages) || has_row passes soname rows

has-all_rows :
    (soname : Text) (rows : Nodes)
    → has soname (map (λ row. row.0) rows) ≡ has_row (λ ps. true) soname rows
has-all_rows soname [] = refl
has-all_rows soname ((key, packages) ∷ rows) = ground (arith, has-all_rows soname rows)

has-passing_rows :
    (passes : List Text → Bool) (soname : Text) (rows : Nodes)
    → has soname (map (λ row. row.0) (keep (λ row. passes row.1) rows)) ≡ has_row passes soname rows
has-passing_rows passes soname [] = refl
has-passing_rows passes soname ((key, packages) ∷ rows) = elim (Bool-cases (passes packages)) [
  | inl pass ↦ rw pass (ground (arith, has-passing_rows passes soname rows))
  | inr fail ↦ rw fail (ground (arith, has-passing_rows passes soname rows))
]

-- The packages that count as providers for a consumer with these recorded dependencies.
abbrev pub counts : Option (List Text) → List Text → Bool
counts none packages = true
counts (some deps) packages = any (deps_contains deps) packages

-- A soname counts as provided exactly when Arch provides it, or a package that counts does.
pub has-provided_for_deps :
    (soname : Text) (providers : Nodes) (deps : Option (List Text)) (arch_provided : List Text)
    → has soname (provided_for_deps providers deps arch_provided)
      ≡ (has soname arch_provided || has_row (counts deps) soname providers)
unfolding provided_for_deps
has-provided_for_deps soname providers none arch_provided = ground (
  arith,
  has-dedupe soname (arch_provided ++ provided_by_deps providers none),
  has-append soname arch_provided (provided_by_deps providers none),
  has-all_rows soname providers,
)
has-provided_for_deps soname providers (some deps) arch_provided = ground (
  arith,
  has-dedupe soname (arch_provided ++ provided_by_deps providers (some deps)),
  has-append soname arch_provided (provided_by_deps providers (some deps)),
  has-passing_rows (any (deps_contains deps)) soname providers,
)

abbrev pub withheld_from : BrokenDepsContext → List Text → Option (List Text) → Text → Bool
withheld_from ctx needed none soname = false
withheld_from ctx needed (some reachable) soname = is_withheld ctx needed reachable soname

-- The sonames left are those provided and not withheld.
pub has-withhold :
    (soname : Text) (provided needed : List Text) (reachable : Option (List Text))
    (ctx : BrokenDepsContext)
    → has soname (withhold_unreachable_dropped_sonames provided needed reachable ctx)
      ≡ (has soname provided && not (withheld_from ctx needed reachable soname))
unfolding withhold_unreachable_dropped_sonames
has-withhold soname provided needed none ctx = ground arith
has-withhold soname provided needed (some reachable) ctx =
    has-keep (λ s. not (is_withheld ctx needed reachable s)) soname provided
