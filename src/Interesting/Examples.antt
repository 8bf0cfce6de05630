-- ===== src/Interesting/Examples.antt =====
-- langserver/ast.go: findInterestingNode on the name of a function and on unsafe.Sizeof.
use go_langserver.Common.{List, [], false, none, refl, some, true, ◌∷◌, ◌≡◌}
use go_langserver.Interesting.{
  PackageInfo, Object, function, builtin, Node, ident, func_decl, file, selector_expr, expr, Round,
  find_interesting_node,
}
use go_langserver.Interesting.Ending.{
  fuel_for, find_interesting_node_ends, find_interesting_node_builtin,
}

abbrev all_are : Object → PackageInfo
all_are o = record { uses = λ id. true; object_of = λ id. o; is_type = λ n. false }

abbrev name_path : List Node
name_path = ident 3 ∷ func_decl 3 ∷ file 0 ∷ []

find_interesting_node_ends_example :
    (r : Round) × (find_interesting_node (all_are function) (fuel_for name_path 0) name_path
      ≡ some r)
find_interesting_node_ends_example =
    find_interesting_node_ends (all_are function) name_path 0 (tt, ((cc, cc), (tt, tt)))

find_interesting_node_builtin_example :
    find_interesting_node (all_are builtin) 1000 (selector_expr 7 ∷ expr 1 ∷ []) ≡ none
find_interesting_node_builtin_example =
    find_interesting_node_builtin (all_are builtin) 1000 7 (expr 1 ∷ []) refl refl
