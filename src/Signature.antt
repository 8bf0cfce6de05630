-- ===== src/Signature.antt =====
-- langserver/signature.go: textDocument/signatureHelp. What go/types and the loader give is in the
-- arguments: the error, the nodes and the position that LangHandler.typecheck returns, the types and the
-- objects of expressions, and the path of nodes to an object.
pub mod Active
pub mod Examples
use go_langserver.Common.Result.{Result, ok, err, panics}
use go_langserver.Hover.Handle.{TypecheckError, invalid_node}
use go_langserver.Util.{is_uri}
use go_langserver.Common.{
  Bool, Bytes, List, Option, [], beq, codes, false, if◌then◌else◌, leb, map, none, not, some, suc,
  true, ℕ, ◌++◌, ◌∷◌,
}

-- call.Fun: an identifier, a selector with its identifier, or another expression.
pub data FunExpr (I : Type 0) : Type 0 where
  ident selector : I → FunExpr I
  another_fun : FunExpr I

-- ast.CallExpr, with the End of each argument
pub record CallExpr (I : Type 0) : Type 0 where
  pub fun : FunExpr I
  pub arg_ends : List ℕ

-- An ast.Node on the path to the position.
pub data CallNode (I : Type 0) : Type 0 where
  call_node : CallExpr I → CallNode I
  another_node : CallNode I

-- types.Signature: its text without packages, and the names and texts of its parameters.
pub record FuncSignature : Type 0 where
  pub printed : Bytes
  pub params : List (Bytes × Bytes)

-- A node on the path to a function: a declaration with its comment, which may be nil, or another.
pub data DeclNode : Type 0 where
  func_decl : Option Bytes → DeclNode
  another_decl : DeclNode

-- lsp.SignatureHelp with its one signature
pub record SignatureHelp : Type 0 where
  pub label : Bytes
  pub documentation : Bytes
  pub parameters : List Bytes
  pub active_parameter : ℕ

pub data SignatureError : Type 0 where
  not_in_workspace : Bytes → SignatureError
  typecheck_failed : TypecheckError → SignatureError

unfoldable pub call_expr : {I : Type 0} → List (CallNode I) → Option (CallExpr I)
call_expr [] = none
call_expr (call_node c ∷ nodes) = some c
call_expr (another_node ∷ nodes) = call_expr nodes

unfoldable pub short_param : Bytes × Bytes → Bytes
short_param (name, printed_type) = (if beq name [] then [] else name ++ codes " ") ++ printed_type

-- The loop over call.Args, which starts with their number.
unfoldable pub active_parameter : ℕ → List ℕ → ℕ
active_parameter start [] = 0
active_parameter start (arg_end ∷ ends) =
    let rest = active_parameter start ends in if leb start arg_end then 0 else suc rest

-- The loop over the path; without a comment the field stays empty.
unfoldable pub documentation_in : List DeclNode → Bytes
documentation_in [] = []
documentation_in (func_decl (some doc) ∷ path) = doc
documentation_in (func_decl none ∷ path) = documentation_in path
documentation_in (another_decl ∷ path) = documentation_in path

-- The documentation; a function without an object panics.
unfoldable pub documentation_of :
    {I : Type 0} → (I → Option (List DeclNode)) → FunExpr I → Result SignatureError Bytes
unfolding documentation_in
documentation_of path_to (ident i) = elim (path_to i) [
  | some path ↦ ok (documentation_in path)
  | none ↦ panics
]
documentation_of path_to (selector i) = elim (path_to i) [
  | some path ↦ ok (documentation_in path)
  | none ↦ panics
]
documentation_of path_to another_fun = ok []

-- `if _, ok := err.(*invalidNodeError); !ok`
abbrev pub is_fatal : Option TypecheckError → Bool
is_fatal none = false
is_fatal (some invalid_node) = false
is_fatal (some e) = true

module _ {I : Type 0} (type_of : FunExpr I → Option FuncSignature)
    (path_to : I → Option (List DeclNode)) where
  -- What is shown for a call with a signature.
  unfoldable pub help_for :
      CallExpr I → FuncSignature → ℕ → Result SignatureError (Option SignatureHelp)
  unfolding active_parameter short_param documentation_of
  help_for call signature start = elim (documentation_of path_to call.fun) [
    | err e ↦ err e
    | panics ↦ panics
    | ok doc ↦ ok (
        some (record {
          label = signature.printed;
          documentation = doc;
          parameters = map short_param signature.params;
          active_parameter = active_parameter start call.arg_ends;
        }))
  ]

  -- What follows the type checking.
  unfoldable pub signature_help :
      List (CallNode I) → ℕ → Result SignatureError (Option SignatureHelp)
  unfolding call_expr help_for
  signature_help nodes start = elim (call_expr nodes) [
    | none ↦ ok none
    | some call ↦ elim (type_of call.fun) [
      | none ↦ ok none
      | some signature ↦ help_for call signature start
    ]
  ]

  unfoldable pub handle_text_document_signature_help :
      Bytes
      → Option TypecheckError
      → List (CallNode I)
      → ℕ
      → Result SignatureError (Option SignatureHelp)
  unfolding is_uri signature_help
  handle_text_document_signature_help uri failure nodes start =
      if not (is_uri uri) then err (not_in_workspace uri) else elim failure [
        | none ↦ signature_help nodes start
        | some e ↦
            if is_fatal (some e) then err (typecheck_failed e) else signature_help nodes start
      ]
