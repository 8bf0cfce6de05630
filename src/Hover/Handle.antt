-- ===== src/Hover/Handle.antt =====
-- langserver/hover.go: handleHover without the binary package cache. What go/types and the loader
-- give is in the arguments: the outcome of LangHandler.typecheck, with the object and the type of the
-- identifier, the strings that go/types prints for them, and the path of nodes to the object.
use go_langserver.Util.{is_uri}
use go_langserver.Hover.Pretty.{pretty_print_types_string}
use go_langserver.Lsp.{Range, DocumentUri}
use go_langserver.Hover.{
  AstFile, MarkedString, package_doc, maybe_add_comments, package_statement_name, go_string,
}
use go_langserver.Common.Result.{Result, ok, err, panics}
use go_langserver.Common.{
  Bool, Bytes, List, Option, [], beq, codes, if◌then◌else◌, none, not, some, suc, zero, ℕ, ◌++◌,
  ◌∷◌,
}

pub data TypecheckError : Type 0 where
  invalid_node no_go : TypecheckError
  other_error : ℕ → TypecheckError

pub data HoverError : Type 0 where
  out_of_workspace : HoverError
  typecheck_error : TypecheckError → HoverError
  not_found : HoverError

-- What obj.Type().Underlying() is.
pub data Underlying : Type 0 where
  a_struct an_interface another : Underlying

-- The kinds of types.Object that are told apart; `imported` is the documentation files of the
-- imported package.
pub data ObjectKind : Type 0 where
  field_var : ObjectKind
  type_name_of : Underlying → ObjectKind
  pkg_name : List AstFile → ObjectKind
  other_object : ObjectKind

-- A node on the path to an object: one of the five with a Doc, which may be nil, or another.
pub data PathNode : Type 0 where
  documented : Option Bytes → PathNode
  undocumented : PathNode

-- `text` is o.String(), `unqualified` types.ObjectString and `type_text` types.TypeString of the
-- underlying type, both without packages.
pub record HoverObject : Type 0 where
  pub kind : ObjectKind
  pub name : Bytes
  pub pos_valid : Bool
  pub text : Bytes
  pub unqualified : Bytes
  pub type_text : Bytes
  pub path : List PathNode

-- The identifier at the position with its range, the files of its package, pkg.ObjectOf and the text
-- of pkg.TypeOf.
pub record Checked : Type 0 where
  pub node : ℕ
  pub name : Bytes
  pub range : Range
  pub files : List AstFile
  pub object : Option HoverObject
  pub type_of : Option Bytes

pub record HoverResult : Type 0 where
  pub contents : List MarkedString
  pub range : Range

-- The variables `s` and `extra` for an object.
unfoldable pub object_text : HoverObject → Bytes × Bytes
unfolding pretty_print_types_string
object_text o = elim o.kind [
  | field_var ↦ (codes "struct " ++ o.text, [])
  | type_name_of a_struct ↦
      (codes "type " ++ o.name ++ codes " struct", pretty_print_types_string o.type_text)
  | type_name_of an_interface ↦
      (codes "type " ++ o.name ++ codes " interface", pretty_print_types_string o.type_text)
  | type_name_of another ↦ (o.unqualified, [])
  | pkg_name files ↦ (o.unqualified, [])
  | other_object ↦ (o.unqualified, [])
]

-- The loop over the first nodes of the path, as far as the first comment.
unfoldable pub nearest_doc : ℕ → List PathNode → Bytes
nearest_doc zero ns = []
nearest_doc (suc i) [] = []
nearest_doc (suc i) (documented (some text) ∷ ns) = text
nearest_doc (suc i) (documented none ∷ ns) = nearest_doc i ns
nearest_doc (suc i) (undocumented ∷ ns) = nearest_doc i ns

unfoldable pub find_comments : Bytes → Option HoverObject → Bytes
unfolding package_doc nearest_doc
find_comments name none = []
find_comments name (some o) = elim o.kind [
  | pkg_name files ↦ package_doc files name
  | field_var ↦ nearest_doc 3 o.path
  | type_name_of u ↦ nearest_doc 3 o.path
  | other_object ↦ nearest_doc 3 o.path
]

module _ (to_markdown : Bytes → Bytes) where
  abbrev pub found : Checked → Bytes × Bytes → HoverResult
  found c (s, extra) =
      let contents =
        maybe_add_comments to_markdown (find_comments c.name c.object) (go_string s ∷ []) in
      record {
        contents = if not (beq extra []) then contents ++ go_string extra ∷ [] else contents;
        range = c.range;
      }

  -- The case without an object and a type.
  unfoldable pub package_hover : Checked → Result HoverError (Option HoverResult)
  unfolding package_statement_name maybe_add_comments package_doc
  package_hover c =
      let pkg_name = package_statement_name c.files c.node c.name in
      if not (beq pkg_name [])
      then ok (
          some (record {
            contents =
                maybe_add_comments to_markdown (package_doc c.files c.name)
                  (go_string (codes "package " ++ pkg_name) ∷ []);
            range = c.range;
          }))
      else err not_found

  unfoldable pub checked_hover : Checked → Result HoverError (Option HoverResult)
  unfolding package_hover object_text find_comments maybe_add_comments
  checked_hover c = elim c.object [
    | some o ↦ if not o.pos_valid then ok none else ok (some (found c (object_text o)))
    | none ↦ elim c.type_of [ none ↦ package_hover c | some t ↦ ok (some (found c (t, []))) ]
  ]

  unfoldable pub handle_hover :
      DocumentUri → Result TypecheckError Checked → Result HoverError (Option HoverResult)
  unfolding checked_hover
  handle_hover uri checked = if not (is_uri uri) then err out_of_workspace else elim checked [
    | err invalid_node ↦ ok none
    | err no_go ↦ ok none
    | err (other_error e) ↦ err (typecheck_error (other_error e))
    | panics ↦ panics
    | ok c ↦ checked_hover c
  ]
