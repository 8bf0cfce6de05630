-- ===== src/ImportGraph/Examples.antt =====
-- pkg/tools/importgraph.go: two packages that import each other's neighbours.
use go_langserver.Common.{
  Bytes, Option, [], any, beq, codes, if◌then◌else◌, none, not, some, ◌&&◌, ◌∷◌, ◌≡◌,
}
use go_langserver.ImportGraph.{BuildPackage, package_edges, reverse_graph, has_edge}
use go_langserver.ImportGraph.Edges.{reverses, has_edge-reverse_graph}

abbrev vendored : Bytes → Bytes → Option Bytes
vendored path dir = if beq path (codes "b") then some (codes "a/vendor/b") else none

abbrev package_a : BuildPackage
package_a = record {
  dir = codes "/src/a";
  imports = codes "b" ∷ codes "C" ∷ [];
  test_imports = codes "b" ∷ [];
  xtest_imports = [];
}

has_edge-reverse_graph_example :
    has_edge
      (reverse_graph (package_edges vendored (codes "a") (some package_a)))
      (codes "a/vendor/b")
      (codes "a")
    ≡ (not (beq (codes "a/vendor/b") (codes "C"))
        && any
            (reverses (codes "a/vendor/b") (codes "a"))
            (package_edges vendored (codes "a") (some package_a)))
has_edge-reverse_graph_example =
    has_edge-reverse_graph (package_edges vendored (codes "a") (some package_a))
      (codes "a/vendor/b") (codes "a")
