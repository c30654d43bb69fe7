-- ===== src/Scan/Attribution/Culprits.antt =====
-- When a package is blamed for a broken dependency.
use mathlib.Core.List.{Memᴰ}
use mathlib.Core.List.Memᴰ
use mathlib.Core.Path.{subst}
use mathlib.Core.Option.{some-injective, none-ne-some}
use chaotic_next.Base.{
  ℕ, ◌≡◌, ◌≢◌, ◌↔◌, sym, refl, ap, ◌∙◌, inl, inr, ◌⊎◌, true, false, not, ◌&&◌, Option, some, List,
  [], ◌∷◌, Text, text_eq, nat_eq, has, keep, arith, has-dedupe, has-keep, eq_self, Bool-cases,
}
use chaotic_next.Signal.Broken.{
  Nodes, find_version_node_breaks, missing_nodes, push_break, is_private_node,
}
use chaotic_next.Signal.Broken.Nodes.{has-missing_nodes}
use chaotic_next.Scan.Records.{ChangedOwner, owner_id, owner_name}
use chaotic_next.Scan.Context.{BrokenDepsContext}
use chaotic_next.Scan.Attribution.{
  provided_in, nodes_in, can_reach, dropped_version_nodes, version_nodes_from_other_providers,
  may_blame, breaks_of, first_break, culprit_among, find_version_node_culprit,
}

-- A node is dropped exactly when the package defined it before and does not define it now.
pub has-dropped_version_nodes :
    (node : Text) (pkg_id : ℕ) (soname : Text) (ctx : BrokenDepsContext)
    → has node (dropped_version_nodes pkg_id soname ctx) ≡ (
        has node (nodes_in ctx.previous_version_nodes pkg_id soname)
        && not (has node (nodes_in ctx.current_version_nodes pkg_id soname)))
unfolding dropped_version_nodes
has-dropped_version_nodes node pkg_id soname ctx =
    has-dedupe node _
    ∙ has-keep (λ n. not (has n (nodes_in ctx.current_version_nodes pkg_id soname))) node
        (nodes_in ctx.previous_version_nodes pkg_id soname)

-- A version node that the package took away from a consumer which needed it.
pub record IsTaken (ctx : BrokenDepsContext) (reachable : Option (List Text)) (soname : Text)
    (required : List Text) (pkg : ChangedOwner) (node : Text) : Type 0 where
  pub is_required : has node required ≡ true
  pub was_defined : has node (nodes_in ctx.previous_version_nodes (owner_id pkg) soname) ≡ true
  pub is_gone : has node (nodes_in ctx.current_version_nodes (owner_id pkg) soname) ≡ false
  pub not_elsewhere : has node (version_nodes_from_other_providers soname ctx reachable) ≡ false
  pub not_private : is_private_node node ≡ false

-- Why a package is the culprit of version nodes that are missing: it shipped the soname and ships it
-- still, the consumer can reach it, and the nodes are those that it took.
pub record IsNodeCulprit (ctx : BrokenDepsContext) (reachable : Option (List Text)) (soname : Text)
    (required : List Text) (pkg : ChangedOwner) (nodes : List Text) : Type 0 where
  pub has_changed : Memᴰ pkg ctx.changed
  pub shipped_before : provided_in ctx.previous_provided (owner_id pkg) soname ≡ true
  pub ships_now : provided_in ctx.current_provided (owner_id pkg) soname ≡ true
  pub in_reach : can_reach reachable (owner_name pkg) ≡ true
  pub some_missing : nodes ≢ []
  pub taken :
      (node : Text) → (has node nodes ≡ true) ↔ IsTaken ctx reachable soname required pkg node

push_break-one :
    (soname : Text) (missing : List Text) {found : Text × List Text}
    → Memᴰ found (push_break soname missing [])
    → (found.1 ≡ missing) × (found.1 ≢ [])
push_break-one soname [] m = absurd (Memᴰ.not-nil m)
push_break-one soname (n ∷ ns) (Memᴰ.head p) = (ap (λ f. f.1) p, λ e. cc)
push_break-one soname (n ∷ ns) (Memᴰ.tail m) = absurd (Memᴰ.not-nil m)

abbrev dropped_needed : Text → List Text → BrokenDepsContext → ChangedOwner → List Text
dropped_needed soname required ctx pkg =
    keep (λ node. has node (dropped_version_nodes (owner_id pkg) soname ctx)) required

breaks_of-missing :
    (soname : Text) (required : List Text) (ctx : BrokenDepsContext) (elsewhere : List Text)
    (pkg : ChangedOwner)
    → breaks_of soname required ctx elsewhere pkg
      ≡ push_break soname (missing_nodes elsewhere (dropped_needed soname required ctx pkg)) []
unfolding breaks_of find_version_node_breaks
breaks_of-missing soname required ctx elsewhere pkg = rw (eq_self soname) refl

breaks_of-IsTaken :
    (soname : Text) (required : List Text) (ctx : BrokenDepsContext)
    (reachable : Option (List Text)) (pkg : ChangedOwner) {found : Text × List Text}
    → Memᴰ found (
        breaks_of soname required ctx (version_nodes_from_other_providers soname ctx reachable) pkg)
    → (found.1 ≢ [])
      × ((node : Text) → (has node found.1 ≡ true) ↔ IsTaken ctx reachable soname required pkg node)
breaks_of-IsTaken soname required ctx reachable pkg {found} m =
    let elsewhere = version_nodes_from_other_providers soname ctx reachable in
    let needed = dropped_needed soname required ctx pkg in
    let dropped = dropped_version_nodes (owner_id pkg) soname ctx in
    let (same, some_missing) =
      push_break-one soname (missing_nodes elsewhere needed)
        (subst (Memᴰ found) (breaks_of-missing soname required ctx elsewhere pkg) m) in
    (
      some_missing,
      λ node.
          let why = has-missing_nodes elsewhere needed node in
          let kept = has-keep (λ n. has n dropped) node required in
          let gone = has-dropped_version_nodes node (owner_id pkg) soname ctx in
          (
            λ h.
                let in_missing = subst (λ ns. has node ns ≡ true) same h in
                record {
                  is_required = ground (arith, why, in_missing, kept);
                  was_defined = ground (arith, why, in_missing, kept, gone);
                  is_gone = ground (arith, why, in_missing, kept, gone);
                  not_elsewhere = ground (arith, why, in_missing);
                  not_private = ground (arith, why, in_missing);
                },
            λ t.
                subst (λ ns. has node ns ≡ true) (sym same)
                  (ground (
                    arith, why, kept, gone, t.is_required, t.was_defined, t.is_gone,
                    t.not_elsewhere, t.not_private,
                  )),
          ),
    )

first_break-cases :
    (pkg : ChangedOwner) (found : Nodes) (rest : Option (ChangedOwner × List Text))
    (culprit : ChangedOwner) (nodes : List Text)
    → first_break pkg found rest ≡ some (culprit, nodes)
    → ((f : Text × List Text) × (Memᴰ f found × ((pkg ≡ culprit) × (f.1 ≡ nodes))))
      ⊎ (rest ≡ some (culprit, nodes))
first_break-cases pkg [] rest culprit nodes e = inr e
first_break-cases pkg (f ∷ fs) rest culprit nodes e =
    let same = some-injective _ _ e in
    inl (f, (Memᴰ.head refl, (ap (λ r. r.0) same, ap (λ r. r.1) same)))

blames :
    (soname : Text) (required : List Text) (ctx : BrokenDepsContext)
    (reachable : Option (List Text)) (pkg : ChangedOwner) {nodes : List Text}
    → Memᴰ pkg ctx.changed
    → may_blame soname ctx reachable pkg ≡ true
    → (nodes ≢ [])
      × ((node : Text) → (has node nodes ≡ true) ↔ IsTaken ctx reachable soname required pkg node)
    → IsNodeCulprit ctx reachable soname required pkg nodes
unfolding may_blame
blames soname required ctx reachable pkg m may (some_missing, taken) = record {
  has_changed = m;
  shipped_before = ground arith;
  ships_now = ground arith;
  in_reach = ground arith;
  some_missing = some_missing;
  taken = taken;
}

-- The package that takes a version node away: one that still ships the soname.
culprit_among-IsNodeCulprit :
    (soname : Text) (required : List Text) (ctx : BrokenDepsContext)
    (reachable : Option (List Text)) (pkgs : List ChangedOwner)
    → ((pkg : ChangedOwner) → Memᴰ pkg pkgs → Memᴰ pkg ctx.changed)
    → (culprit : ChangedOwner) (nodes : List Text)
    → culprit_among soname required ctx reachable
        (version_nodes_from_other_providers soname ctx reachable)
        pkgs
      ≡ some (culprit, nodes)
    → IsNodeCulprit ctx reachable soname required culprit nodes
unfolding culprit_among
culprit_among-IsNodeCulprit soname required ctx reachable [] inside culprit nodes e =
    absurd (none-ne-some _ e)
culprit_among-IsNodeCulprit soname required ctx reachable (pkg ∷ pkgs) inside culprit nodes e =
    elim (Bool-cases (may_blame soname ctx reachable pkg)) [
      | inl may ↦
          let elsewhere = version_nodes_from_other_providers soname ctx reachable in
          let found = breaks_of soname required ctx elsewhere pkg in
          let rest = culprit_among soname required ctx reachable elsewhere pkgs in
          let e' : first_break pkg found rest ≡ some (culprit, nodes) = ground arith in
          elim (first_break-cases pkg found rest culprit nodes e') [
            | inl (f, (m, (same, same_nodes))) ↦
                subst (λ p. IsNodeCulprit ctx reachable soname required p nodes) same
                  (subst (IsNodeCulprit ctx reachable soname required pkg) same_nodes (
                    blames soname required ctx reachable pkg (inside pkg (Memᴰ.head refl)) may
                      (breaks_of-IsTaken soname required ctx reachable pkg m)))
            | inr later ↦
                culprit_among-IsNodeCulprit soname required ctx reachable pkgs
                  (λ p m. inside p (Memᴰ.tail m)) culprit nodes later
          ]
      | inr not_it ↦
          culprit_among-IsNodeCulprit soname required ctx reachable pkgs
            (λ p m. inside p (Memᴰ.tail m)) culprit nodes (ground arith)
    ]

pub find_version_node_culprit-IsNodeCulprit :
    (soname : Text) (required : List Text) (ctx : BrokenDepsContext)
    (reachable : Option (List Text)) (culprit : ChangedOwner) (nodes : List Text)
    → find_version_node_culprit soname required ctx reachable ≡ some (culprit, nodes)
    → IsNodeCulprit ctx reachable soname required culprit nodes
unfolding find_version_node_culprit
find_version_node_culprit-IsNodeCulprit soname required ctx reachable culprit nodes e =
    culprit_among-IsNodeCulprit soname required ctx reachable ctx.changed (λ p m. m) culprit nodes e
