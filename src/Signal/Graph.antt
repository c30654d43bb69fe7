-- ===== src/Signal/Graph.antt =====
-- The dependency graph of backend/src/repo-manager/signal/graph.ts. A node of the graph is an
-- object: `provider === consumer` compares the objects, here the positions in the list of nodes.
pub mod Index
use chaotic_next.Base.{
  ℕ, zero, suc, Bool, true, false, not, List, [], ◌∷◌, ◌++◌, Text, codes, text_eq, has, or_else,
  nat_beq, flat_map, keep, if◌then◌else◌, map,
}
use chaotic_next.Base.Map.{get, put}
use chaotic_next.Signal.Owners.{PkgType}

pub record DependencyNode : Type 0 where
  pub pkg_type : PkgType
  pub pkg_id : ℕ
  pub pkgname : Text
  pub provided_sonames : List Text
  pub needed_sonames : List Text

abbrev pub Placed : Type 0
Placed = ℕ × DependencyNode

pub record DependencyEdge : Type 0 where
  pub consumer : Placed
  pub provider : Placed
  pub soname : Text

unfoldable pub base_system_sonames : List Text
base_system_sonames =
    codes "ld-linux-x86-64.so.2"
    ∷ codes "ld-linux-aarch64.so.1"
    ∷ codes "ld-linux.so.2"
    ∷ codes "libc.so.6"
    ∷ codes "libm.so.6"
    ∷ codes "libmvec.so.1"
    ∷ codes "libdl.so.2"
    ∷ codes "libpthread.so.0"
    ∷ codes "librt.so.1"
    ∷ codes "libresolv.so.2"
    ∷ codes "libutil.so.1"
    ∷ codes "libnsl.so.1"
    ∷ codes "libcrypt.so.1"
    ∷ codes "libanl.so.1"
    ∷ codes "libBrokenLocale.so.1"
    ∷ codes "libgcc_s.so.1"
    ∷ codes "libstdc++.so.6"
    ∷ codes "libz.so.1"
    ∷ codes "libzstd.so.1"
    ∷ codes "liblzma.so.5"
    ∷ codes "libbz2.so.1.0"
    ∷ codes "liblz4.so.1"
    ∷ []

abbrev pub place_from : ℕ → List DependencyNode → List Placed
place_from i [] = []
place_from i (node ∷ nodes) = (i, node) ∷ place_from (suc i) nodes

abbrev pub SonameIndex : Type 0
SonameIndex = List (Text × List Placed)

-- The two loops that fill `bySoname`.
index_node : Placed → SonameIndex → List Text → SonameIndex
index_node node index [] = index
index_node node index (soname ∷ sonames) =
    index_node node (put soname (or_else (get soname index) [] ++ node ∷ []) index) sonames

index_nodes : SonameIndex → List Placed → SonameIndex
unfolding index_node
index_nodes index [] = index
index_nodes index (node ∷ nodes) =
    index_nodes (index_node node index (node.1).provided_sonames) nodes

abbrev edges_to : Placed → Text → List Placed → List DependencyEdge
edges_to consumer soname providers =
    map (λ provider. record { consumer = consumer; provider = provider; soname = soname })
      (keep (λ provider. not (nat_beq provider.0 consumer.0)) providers)

abbrev edges_for : (Text → List Placed) → Placed → Text → List DependencyEdge
edges_for providers_of consumer soname =
    if has soname base_system_sonames then [] else edges_to consumer soname (providers_of soname)

-- The two loops over the consumers, for any way to find the providers of a soname.
pub edges_by : (Text → List Placed) → List Placed → List DependencyEdge
edges_by providers_of nodes =
    flat_map (λ consumer. flat_map (edges_for providers_of consumer) (consumer.1).needed_sonames)
      nodes

unfoldable pub build_dependency_graph : List DependencyNode → List DependencyEdge
unfolding index_nodes edges_by
build_dependency_graph nodes =
    let placed = place_from 0 nodes in
    let index = index_nodes [] placed in edges_by (λ soname. or_else (get soname index) []) placed
