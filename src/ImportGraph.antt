-- ===== src/ImportGraph.antt =====
-- pkg/tools/importgraph.go: BuildReverseImportGraph. findPackage is a parameter that gives the same
-- answer each time; the goroutines send their edges in some order, which is the order of the list
-- that `reverse_graph` takes.
pub mod Building
pub mod Edges
pub mod Examples
use go_langserver.Common.{
  Bool, Bytes, List, Option, [], beq, codes, false, if◌then◌else◌, none, some, true, ◌++◌, ◌∷◌,
}

-- importEdge
pub record ImportEdge : Type 0 where
  pub from : Bytes
  pub to : Bytes

-- The fields of build.Package that are read.
pub record BuildPackage : Type 0 where
  pub dir : Bytes
  pub imports : List Bytes
  pub test_imports : List Bytes
  pub xtest_imports : List Bytes

-- importgraph.Graph: a missing key is a nil set of edges.
abbrev pub Graph : Type 0
Graph = Bytes → Option (Bytes → Bool)

abbrev pub Memo : Type 0
Memo = List (Bytes × Bytes)

abbrev pub memoised : Memo → Bytes → Option Bytes
memoised [] path = none
memoised ((key, canon) ∷ memo) path = if beq key path then some canon else memoised memo path

-- `find path dir` is the ImportPath of findPackage with build.FindOnly, or none for a nil package.
module _ (find : Bytes → Bytes → Option Bytes) where
  abbrev pub canonical : Bytes → Bytes → Bytes
  canonical dir path = elim (find path dir) [ some import_path ↦ import_path | none ↦ path ]

  -- absolutize, with the memo that it leaves.
  unfoldable pub absolutize : Bytes → Memo → Bytes → Bytes × Memo
  absolutize dir memo path = elim (memoised memo path) [
    | some canon ↦ (canon, memo)
    | none ↦ (canonical dir path, (path, canonical dir path) ∷ memo)
  ]

  -- One loop over imports of the package `path`: the edges that it sends.
  unfoldable pub import_edges : Bytes → Bytes → Memo → List Bytes → List ImportEdge × Memo
  unfolding absolutize
  import_edges dir path memo [] = ([], memo)
  import_edges dir path memo (imp ∷ imps) =
      let (canon, memo') = absolutize dir memo imp in
      let (edges, memo'') = import_edges dir path memo' imps in
      (record { from = path; to = canon } ∷ edges, memo'')

  -- The three loops, on one memo; a nil package sends nothing.
  unfoldable pub package_edges : Bytes → Option BuildPackage → List ImportEdge
  unfolding import_edges
  package_edges path none = []
  package_edges path (some bp) =
      let (edges, memo) = import_edges bp.dir path [] bp.imports in
      let (test_edges, memo') = import_edges bp.dir path memo bp.test_imports in
      let (xtest_edges, _) = import_edges bp.dir path memo' bp.xtest_imports in
      edges ++ (test_edges ++ xtest_edges)

-- The map behind a key; a nil one has no edges.
abbrev pub edges_of : Option (Bytes → Bool) → Bytes → Bool
edges_of none p = false
edges_of (some edges) p = edges p

-- addEdge
unfoldable pub add_edge : Graph → Bytes → Bytes → Graph
add_edge g from to = λ key.
    if beq from key then some (λ p. if beq to p then true else edges_of (g from) p) else g key

-- The loop over the channel.
unfoldable pub add_edges : Graph → List ImportEdge → Graph
unfolding add_edge
add_edges g [] = g
add_edges g (e ∷ es) = add_edges (if beq e.to (codes "C") then g else add_edge g e.to e.from) es

unfoldable pub reverse_graph : List ImportEdge → Graph
unfolding add_edges
reverse_graph edges = add_edges (λ key. none) edges

-- `g[from][to]`
unfoldable pub has_edge : Graph → Bytes → Bytes → Bool
has_edge g from to = edges_of (g from) to
