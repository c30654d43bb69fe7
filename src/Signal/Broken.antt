-- ===== src/Signal/Broken.antt =====
-- Broken dependencies: `findBrokenDependencies`, `findVersionNodeBreaks` and their helpers of
-- backend/src/repo-manager/signal/graph.ts. A `BrokenDependency` has one constructor for each
-- `kind`, with the fields that the source sets for it. A `Record` of the source is an association
-- list in its own order.
pub mod Missing
pub mod Reported
pub mod Nodes
pub mod Stale
use chaotic_next.Base.{
  ℕ, ◌+◌, Bool, true, false, not, ◌&&◌, ◌||◌, Option, none, some, List, [], ◌∷◌, ◌++◌, map, Text,
  codes, text_eq, ◌==◌, has, is_empty, dedupe, any, keep, take, starts_with, ends_with, includes,
  index_of, split, join, or_else, if◌then◌else◌, is_digit, is_space, any,
}
use chaotic_next.Base.Map.{get}
use chaotic_next.Base.Regex.{
  Re, ◌⋅◌, either, start, end, lit, group, digits, opt, is_upper, exec_group,
}
use chaotic_next.Signal.Paths.{soname_basename}
use chaotic_next.Signal.Sonames.{RuntimeName, python, perl, ruby, ghc, runtime_interpreter_prefix}
use chaotic_next.Signal.Graph.{base_system_sonames}

pub data BrokenDependency : Type 0 where
  missing_soname : Text → BrokenDependency
  missing_version : Text → List Text → BrokenDependency
  stale_runtime :
      (runtime : RuntimeName) (current_version path_version path : Text) → BrokenDependency

unfoldable pub version_key : Text → ℕ → Text
unfolding split join
version_key version segments = join (codes ".") (take segments (split b'.' version))

abbrev pub runtime_text : RuntimeName → Text
runtime_text python = codes "python"
runtime_text perl = codes "perl"
runtime_text ruby = codes "ruby"
runtime_text ghc = codes "ghc"

-- `(?:^|/)usr/lib/`, and `(?:/|$)`.
abbrev usr_lib : Re
usr_lib = either start (lit (codes "/")) ⋅ lit (codes "usr/lib/")

abbrev closed : Re
closed = either (lit (codes "/")) end

abbrev point : Re
point = lit (codes ".")

abbrev perl_kind : Re
perl_kind = either (lit (codes "site")) (either (lit (codes "vendor")) (lit (codes "core")))

abbrev runtime_pattern : RuntimeName → Re
runtime_pattern python =
    usr_lib
    ⋅ lit (codes "python")
    ⋅ group 1 (lit (codes "3.") ⋅ digits ⋅ opt (point ⋅ digits))
    ⋅ closed
runtime_pattern perl =
    usr_lib
    ⋅ lit (codes "perl5/")
    ⋅ opt (perl_kind ⋅ lit (codes "_perl/"))
    ⋅ group 1 (lit (codes "5.") ⋅ digits)
    ⋅ closed
runtime_pattern ruby =
    usr_lib
    ⋅ lit (codes "ruby/")
    ⋅ opt (either (lit (codes "gems")) (lit (codes "site_ruby")) ⋅ lit (codes "/"))
    ⋅ group 1 (digits ⋅ point ⋅ digits ⋅ opt (point ⋅ digits))
    ⋅ lit (codes "/")
runtime_pattern ghc =
    usr_lib ⋅ lit (codes "ghc-") ⋅ group 1 (digits ⋅ point ⋅ digits ⋅ point ⋅ digits) ⋅ closed

-- The version in a shipped path: the `extract` callback of each `check` call.
unfoldable pub runtime_version_in : RuntimeName → Text → Option Text
unfolding exec_group is_space
runtime_version_in runtime path = exec_group 1 (runtime_pattern runtime) path

abbrev pub Runtimes : Type 0
Runtimes = RuntimeName → Option Text

-- What `check` changes: the pushed dependencies and the set of seen keys.
abbrev pub Checked : Type 0
Checked = List BrokenDependency × List Text

abbrev seen_key : RuntimeName → Text → Text
seen_key runtime found_key = runtime_text runtime ++ (codes ":" ++ found_key)

unfoldable pub check_found : RuntimeName → Text → Text → Text → Checked → Checked
check_found runtime expected found_key file (deps, seen) =
    if found_key == expected || has (seen_key runtime found_key) seen then (deps, seen) else (
      deps ++ stale_runtime runtime expected found_key file ∷ [],
      seen ++ seen_key runtime found_key ∷ [],
    )

unfoldable pub check_file : RuntimeName → ℕ → Text → Text → Checked → Checked
check_file runtime segments expected file checked = elim (runtime_version_in runtime file) [
  | none ↦ checked
  | some found ↦
      if found == []
      then checked
      else check_found runtime expected (version_key found segments) file checked
]

unfoldable pub check_files : RuntimeName → ℕ → Text → List Text → Checked → Checked
unfolding check_file check_found
check_files runtime segments expected [] checked = checked
check_files runtime segments expected (file ∷ files) checked =
    check_files runtime segments expected files (check_file runtime segments expected file checked)

-- The package ships the interpreter's own library.
abbrev pub ships_interpreter : Option Text → List Text → Bool
ships_interpreter none provided = false
ships_interpreter (some prefix) provided = any (starts_with prefix) provided

unfoldable pub check : RuntimeName → ℕ → Runtimes → List Text → List Text → Checked → Checked
unfolding check_files
check runtime segments runtimes files self checked = elim (runtimes runtime) [
  | none ↦ checked
  | some current ↦
      if current == [] || ships_interpreter (runtime_interpreter_prefix runtime) self
      then checked
      else check_files runtime segments (version_key current segments) files checked
]

unfoldable pub stale_runtime_dependencies : List Text → Runtimes → List Text → List BrokenDependency
unfolding check
stale_runtime_dependencies files runtimes self =
    let with_python = check python 2 runtimes files self ([], []) in
    let with_perl = check perl 2 runtimes files self with_python in
    let with_ruby = check ruby 2 runtimes files self with_perl in
    (check ghc 3 runtimes files self with_ruby).0

unfoldable pub soname_version_prefix : Text → Text
unfolding index_of
soname_version_prefix soname = elim (index_of (codes ".so.") soname) [
  | none ↦ soname
  | some i ↦ take (i + 3) soname
]

unfoldable pub unversioned_resolvable : Text → List Text → Bool
unfolding ends_with
unversioned_resolvable soname provided =
    ends_with (codes ".so") soname
    && any (λ p. p == soname || starts_with (soname_version_prefix soname ++ codes ".") p) provided

unfoldable pub is_soname_satisfied : Text → Text → List Text → List Text → List Text → Bool
is_soname_satisfied soname basename shipped provided base =
    has basename shipped || has soname provided || has basename provided || has soname base

-- The argument of `findBrokenDependencies`; an optional field that is left out is `none`.
pub record Options : Type 0 where
  pub needed_sonames : List Text
  pub files : List Text
  pub provided_sonames : List Text
  pub base_sonames : Option (List Text)
  pub runtimes : Runtimes
  pub check_sonames : Option Bool
  pub self_provided_sonames : List Text

-- The two `continue`s of the loop over the needed sonames.
unfoldable pub is_resolved : List Text → List Text → List Text → Text → Bool
unfolding is_soname_satisfied unversioned_resolvable
is_resolved shipped provided base soname =
    is_soname_satisfied soname (soname_basename soname) shipped provided base
    || unversioned_resolvable soname provided

abbrev pub shipped_by : List Text → List Text
shipped_by files = dedupe (map soname_basename files)

unfoldable pub missing_sonames : Options → List Text
unfolding is_resolved
missing_sonames opts =
    let base = or_else opts.base_sonames base_system_sonames in
    let missing =
      keep (λ soname. not (is_resolved (shipped_by opts.files) opts.provided_sonames base soname))
        opts.needed_sonames in
    if or_else opts.check_sonames true then missing else []

unfoldable pub find_broken_dependencies : Options → List BrokenDependency
unfolding missing_sonames stale_runtime_dependencies
find_broken_dependencies opts =
    map missing_soname (missing_sonames opts)
    ++ stale_runtime_dependencies opts.files opts.runtimes opts.self_provided_sonames

unfoldable pub format_broken_dependency : BrokenDependency → Text
unfolding join
format_broken_dependency (missing_soname soname) = codes "missing soname " ++ soname
format_broken_dependency (missing_version soname nodes) =
    codes "missing version " ++ (join (codes ", ") nodes ++ (codes " from " ++ soname))
format_broken_dependency (stale_runtime runtime current found path) =
    runtime_text runtime
    ++ (codes " "
        ++ (found
            ++ (codes " shipped but "
                ++ (runtime_text runtime
                    ++ (codes " is " ++ (current ++ (codes " (" ++ (path ++ codes ")"))))))))

-- `/private/i`: only ASCII letters have another case that matches an ASCII letter.
abbrev lower : ℕ → ℕ
lower c = if is_upper c then c + 32 else c

unfoldable pub is_private_node : Text → Bool
unfolding includes
is_private_node node = includes (codes "private") (map lower node)

abbrev pub Nodes : Type 0
Nodes = List (Text × List Text)

unfoldable pub missing_nodes : List Text → List Text → List Text
missing_nodes provided needed =
    keep (λ node. not (has node provided) && not (is_private_node node)) (dedupe needed)

-- `if (missing.length > 0) breaks.push(…)`
abbrev pub push_break : Text → List Text → Nodes → Nodes
push_break soname missing rest = if is_empty missing then rest else (soname, missing) ∷ rest

unfoldable pub find_version_node_breaks : Nodes → Nodes → Nodes
unfolding missing_nodes
find_version_node_breaks [] provider = []
find_version_node_breaks ((soname, needed) ∷ entries) provider =
    push_break soname (missing_nodes (or_else (get soname provider) []) needed)
      (find_version_node_breaks entries provider)
