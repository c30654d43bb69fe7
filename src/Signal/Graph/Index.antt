-- ===== src/Signal/Graph/Index.antt =====
-- The soname index of the graph against a scan over all nodes.
use chaotic_next.Base.{
  ◌≡◌, sym, ap, ◌∙◌, List, [], ◌∷◌, ◌++◌, Text, text_eq, ◌==◌, text_beq_iff, Bool-cases, inl, inr,
  or_else, if◌then◌else◌, arith,
}
use chaotic_next.Base.Map.{get, put, get-put}
use mathlib.Core.List.{append_assoc, append-nil}
use mathlib.Core.Path.{fun_ext}
use chaotic_next.Signal.Graph.{
  DependencyNode, Placed, SonameIndex, place_from, index_node, index_nodes, edges_by,
  build_dependency_graph,
}

-- The node once for each time it provides the soname.
abbrev offers : Placed → Text → List Text → List Placed
offers node soname [] = []
offers node soname (s ∷ ss) =
    let rest = offers node soname ss in if s == soname then node ∷ rest else rest

abbrev pub providers_of : List Placed → Text → List Placed
providers_of [] soname = []
providers_of (node ∷ nodes) soname =
    offers node soname (node.1).provided_sonames ++ providers_of nodes soname

abbrev found : SonameIndex → Text → List Placed
found index soname = or_else (get soname index) []

found-put :
    (index : SonameIndex) (s soname : Text) (nodes : List Placed)
    → found (put s nodes index) soname ≡ (if s == soname then nodes else found index soname)
found-put index s soname nodes = ground (arith, get-put s soname nodes index)

found-step :
    (node : Placed) (index : SonameIndex) (s soname : Text) (rest : List Placed)
    → found (put s (found index s ++ node ∷ []) index) soname ++ rest
      ≡ found index soname ++ (if s == soname then node ∷ rest else rest)
found-step node index s soname rest = elim (Bool-cases (s == soname)) [
  | inl same ↦ rw (found-put index s soname (found index s ++ node ∷ [])) (
      rw (same, (text_beq_iff s soname).0 same)
        (append_assoc (found index soname) (node ∷ []) rest))
  | inr other ↦ rw (found-put index s soname (found index s ++ node ∷ [])) (rw other)
]

found-index_node :
    (node : Placed) (index : SonameIndex) (ss : List Text) (soname : Text)
    → found (index_node node index ss) soname ≡ found index soname ++ offers node soname ss
unfolding index_node
found-index_node node index [] soname = sym (append-nil _)
found-index_node node index (s ∷ ss) soname =
    let later = found-index_node node (put s (found index s ++ node ∷ []) index) ss soname in
    later ∙ found-step node index s soname (offers node soname ss)

found-index_nodes :
    (index : SonameIndex) (nodes : List Placed) (soname : Text)
    → found (index_nodes index nodes) soname ≡ found index soname ++ providers_of nodes soname
unfolding index_nodes
found-index_nodes index [] soname = sym (append-nil _)
found-index_nodes index (node ∷ nodes) soname =
    found-index_nodes (index_node node index (node.1).provided_sonames) nodes soname
    ∙ ap (λ l. l ++ providers_of nodes soname)
        (found-index_node node index (node.1).provided_sonames soname)
    ∙ append_assoc (found index soname) (offers node soname (node.1).provided_sonames)
        (providers_of nodes soname)

-- The graph with its index by soname has the edges, in the same order, that a scan of all nodes
-- for the providers of each needed soname gives.
pub build_dependency_graph-providers_of :
    (nodes : List DependencyNode)
    → build_dependency_graph nodes
      ≡ edges_by (providers_of (place_from 0 nodes)) (place_from 0 nodes)
unfolding build_dependency_graph
build_dependency_graph-providers_of nodes =
    ap (λ f. edges_by f (place_from 0 nodes))
      (fun_ext (λ soname. found-index_nodes [] (place_from 0 nodes) soname))
