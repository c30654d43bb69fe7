-- ===== src/Scan/Closure.antt =====
-- The dependency closure of backend/src/repo-manager/scan/dependency-closure.ts, with `cleanDepName`
-- of backend/src/diff-scan/srcinfo-dependency.ts. An array that is popped at its end is a stack with
-- its top first. The `while` runs on fuel: `none` is a loop that has not ended.
pub mod Loop
pub mod Walks
pub mod Reach
use chaotic_next.Base.{
  ℕ, zero, suc, ◌+◌, Bool, true, false, ◌||◌, Option, none, some, List, [], ◌∷◌, ◌++◌, map, Text,
  codes, text_eq, nat_beq, has, or_else, length, trim, if◌then◌else◌,
}
use chaotic_next.Base.MultiMap.{entry, fill}

-- `raw.split(separator)[0]`, for a separator of one character or a class of characters.
unfoldable pub before : (ℕ → Bool) → Text → Text
before is_separator [] = []
before is_separator (c ∷ cs) =
    let rest = before is_separator cs in if is_separator c then [] else c ∷ rest

abbrev is_colon : ℕ → Bool
is_colon c = nat_beq c 58

abbrev is_comparison : ℕ → Bool
is_comparison c = nat_beq c 60 || (nat_beq c 62 || nat_beq c 61)

unfoldable pub clean_dep_name : Text → Text
unfolding before
clean_dep_name raw = trim (before is_comparison (before is_colon raw))

pub record DependencyRecord : Type 0 where
  pub pkgname : Text
  pub deps : List Text
  pub provides : List Text

-- The names that a record is registered under.
abbrev pub names_of : DependencyRecord → List Text
names_of r = r.pkgname ∷ map clean_dep_name r.provides

abbrev pub wants_of : DependencyRecord → List Text
wants_of r = map clean_dep_name r.deps

abbrev pub RecordsByName : Type 0
RecordsByName = List (Text × List DependencyRecord)

unfoldable pub new_closure : List DependencyRecord → RecordsByName
unfolding fill
new_closure records = fill names_of records []

-- `stack.push(...names)`
unfoldable pub push_all : List Text → List Text → List Text
push_all [] stack = stack
push_all (name ∷ names) stack = push_all names (name ∷ stack)

-- The loop over the records of a name: the packages reached and the stack after it.
unfoldable pub visit : List Text → List Text → List DependencyRecord → List Text × List Text
unfolding push_all
visit reached stack [] = (reached, stack)
visit reached stack (r ∷ rs) =
    if has r.pkgname reached
    then visit reached stack rs
    else visit (reached ++ r.pkgname ∷ []) (push_all (wants_of r) stack) rs

unfoldable pub walk : RecordsByName → ℕ → List Text → List Text → List Text → Option (List Text)
unfolding visit
walk index fuel [] visited reached = some reached
walk index zero (name ∷ stack) visited reached = none
walk index (suc fuel) (name ∷ stack) visited reached =
    let next = visit reached stack (entry name index) in
    if has name visited
    then walk index fuel stack visited reached
    else walk index fuel next.1 (name ∷ visited) next.0

abbrev pub total_deps : List DependencyRecord → ℕ
total_deps [] = 0
total_deps (r ∷ rs) = length r.deps + total_deps rs

-- A name enters the stack once for each dependency of the caller and of a record.
unfoldable pub reachable_packages : List DependencyRecord → List Text → List Text
unfolding walk new_closure
reachable_packages records deps =
    or_else
      (walk (new_closure records) (length deps + total_deps records)
        (push_all (map clean_dep_name deps) []) [] [])
      []
