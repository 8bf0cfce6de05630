-- ===== src/Signature/Examples.antt =====
-- langserver/signature.go: the theorem on a call with two arguments, at the second one.
use go_langserver.Signature.{
  ident, CallExpr, CallNode, call_node, another_node, FuncSignature, DeclNode, func_decl, call_expr,
  documentation_in, documentation_of,
}
use go_langserver.Overlay.Examples.{main_go}
use go_langserver.Common.Result.{ok}
use go_langserver.Util.{is_uri}
use go_langserver.Common.{List, Option, [], codes, has_prefix, refl, some, true, ℕ, ◌∷◌, ◌≡◌}

abbrev f_call : CallExpr ℕ
f_call = record { fun = ident 1; arg_ends = 4 ∷ 9 ∷ [] }

abbrev f_signature : FuncSignature
f_signature = record {
  printed = codes "func(a int, b T)";
  params = (codes "a", codes "int") ∷ (codes "b", codes "T") ∷ [];
}

abbrev f_nodes : List (CallNode ℕ)
f_nodes = another_node ∷ call_node f_call ∷ []

abbrev f_path : ℕ → Option (List DeclNode)
f_path i = some (func_decl (some (codes "f.")) ∷ [])

is_uri-main_go : is_uri main_go ≡ true
unfolding is_uri has_prefix
is_uri-main_go = refl

f_called : call_expr f_nodes ≡ some f_call
unfolding call_expr
f_called = refl

f_documented : documentation_of f_path f_call.fun ≡ ok (codes "f.")
unfolding documentation_of documentation_in
f_documented = refl
