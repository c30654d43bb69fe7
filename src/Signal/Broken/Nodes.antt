-- ===== src/Signal/Broken/Nodes.antt =====
-- Which version nodes `findVersionNodeBreaks` reports.
use mathlib.Core.List.{Memᴰ}
use mathlib.Core.List.Memᴰ
use chaotic_next.Base.{
  ◌≡◌, ◌≢◌, sym, ap, ◌⊎◌, inl, inr, refl, true, false, not, ◌&&◌, List, [], ◌∷◌, Text, text_eq, has,
  or_else, dedupe, has-dedupe, has-keep, arith,
}
use chaotic_next.Base.Map.{get}
use mathlib.Core.Path.{subst}
use chaotic_next.Signal.Broken.{
  Nodes, is_private_node, missing_nodes, push_break, find_version_node_breaks,
}

-- Missing are the needed nodes that are neither provided nor private.
pub has-missing_nodes :
    (provided needed : List Text) (node : Text)
    → has node (missing_nodes provided needed)
      ≡ (has node needed && (not (has node provided) && not (is_private_node node)))
unfolding missing_nodes
has-missing_nodes provided needed node = ground (
  arith,
  has-keep (λ n. not (has n provided) && not (is_private_node n)) node (dedupe needed),
  has-dedupe node needed,
)

abbrev pub provided_by : Nodes → Text → List Text
provided_by provider soname = or_else (get soname provider) []

-- What an entry of the result says.
pub record IsBreak (entries provider : Nodes) (found : Text × List Text) : Type 0 where
  pub needed : List Text
  pub listed : Memᴰ (found.0, needed) entries
  pub nodes : found.1 ≡ missing_nodes (provided_by provider found.0) needed
  pub some_missing : found.1 ≢ []

push_break-cases :
    (soname : Text) (missing : List Text) (rest : Nodes) {found : Text × List Text}
    → Memᴰ found (push_break soname missing rest)
    → ((found ≡ (soname, missing)) × (missing ≢ [])) ⊎ Memᴰ found rest
push_break-cases soname [] rest m = inr m
push_break-cases soname (x ∷ xs) rest (Memᴰ.head p) = inl (p, λ e. cc)
push_break-cases soname (x ∷ xs) rest (Memᴰ.tail m) = inr m

push_break-rest :
    (soname : Text) (missing : List Text) (rest : Nodes) {found : Text × List Text}
    → Memᴰ found rest
    → Memᴰ found (push_break soname missing rest)
push_break-rest soname [] rest m = m
push_break-rest soname (x ∷ xs) rest m = Memᴰ.tail m

push_break-here :
    (soname node : Text) (missing : List Text) (rest : Nodes)
    → has node missing ≡ true
    → Memᴰ (soname, missing) (push_break soname missing rest)
push_break-here soname node [] rest h = cc
push_break-here soname node (x ∷ xs) rest h = Memᴰ.head refl

IsBreak-cons :
    (entry : Text × List Text) {entries provider : Nodes} {found : Text × List Text}
    → IsBreak entries provider found
    → IsBreak (entry ∷ entries) provider found
IsBreak-cons entry b = record {
  needed = b.needed;
  listed = Memᴰ.tail b.listed;
  nodes = b.nodes;
  some_missing = b.some_missing;
}

-- Every reported entry belongs to an entry of the needed nodes and holds the nodes of it that are
-- missing, at least one.
pub find_version_node_breaks-IsBreak :
    (entries provider : Nodes) {found : Text × List Text}
    → Memᴰ found (find_version_node_breaks entries provider)
    → IsBreak entries provider found
unfolding find_version_node_breaks
find_version_node_breaks-IsBreak [] provider m = absurd (Memᴰ.not-nil m)
find_version_node_breaks-IsBreak ((soname, needed) ∷ entries) provider m =
    elim (push_break-cases soname (missing_nodes (provided_by provider soname) needed) _ m) [
      | inl (here, some_missing) ↦
          subst (IsBreak ((soname, needed) ∷ entries) provider) (sym here) (record {
            needed = needed;
            listed = Memᴰ.head refl;
            nodes = refl;
            some_missing = some_missing;
          })
      | inr later ↦
          IsBreak-cons (soname, needed) (find_version_node_breaks-IsBreak entries provider later)
    ]

-- Every needed node that is neither provided nor private is reported under its soname.
pub find_version_node_breaks_complete :
    (entries provider : Nodes) (soname node : Text) (needed : List Text)
    → Memᴰ (soname, needed) entries
    → has node needed ≡ true
    → has node (provided_by provider soname) ≡ false
    → is_private_node node ≡ false
    → (nodes : List Text) × Memᴰ (soname, nodes) (find_version_node_breaks entries provider)
      × (has node nodes ≡ true)
unfolding find_version_node_breaks
find_version_node_breaks_complete [] provider soname node needed m n p q = absurd (Memᴰ.not-nil m)
find_version_node_breaks_complete ((s, ns) ∷ entries) provider soname node needed (Memᴰ.head e) n p
      q =
    let missing = missing_nodes (provided_by provider s) ns in
    let same_s : soname ≡ s = ap (λ r. r.0) e in
    let same_n : needed ≡ ns = ap (λ r. r.1) e in
    let h : has node missing ≡ true =
      ground (arith, has-missing_nodes (provided_by provider s) ns node) in
    (
      missing,
      rw same_s (push_break-here s node missing (find_version_node_breaks entries provider) h),
      h,
    )
find_version_node_breaks_complete ((s, ns) ∷ entries) provider soname node needed (Memᴰ.tail m) n p
      q =
    let (nodes, later, h) =
      find_version_node_breaks_complete entries provider soname node needed m n p q in
    (nodes, push_break-rest s (missing_nodes (provided_by provider s) ns) _ later, h)
