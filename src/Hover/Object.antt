-- ===== src/Hover/Object.antt =====
-- langserver/hover.go: fmtDocObject, the text of a declaration and its comment. sort.Sort, the
-- printer of go/format and ToMarkdown are parameters; a syntax node is given with the text that
-- fmtNode makes of it. `none` is a panic.
pub mod Nearest
use go_langserver.Hover.{go_string, maybe_add_comments, MarkedString}
use go_langserver.Hover.Target.{TokenPosition}
use go_langserver.Common.Int.{ℤ, pos, negsuc, eqb_ℤ, ◌-ℤ◌}
use go_langserver.Common.{
  Bool, Bytes, List, Option, [], beq, codes, if◌then◌else◌, ltb, none, some, suc, trim_prefix, ℕ,
  ◌++◌, ◌||◌, ◌∷◌,
}

-- ast.ValueSpec; `printed` is fmtNode of its copy without a comment.
pub record ValueSpec : Type 0 where
  pub pos : TokenPosition
  pub doc_text : Bytes
  pub printed : Bytes

-- ast.Field of a struct or an interface.
pub record Field : Type 0 where
  pub pos : TokenPosition
  pub names : List Bytes
  pub doc_text : Bytes
  pub printed_type : Bytes

pub data TypeExpr : Type 0 where
  interface_type : List Field → Bytes → TypeExpr
  struct_type : List Field → Bytes → TypeExpr
  other_type : Bytes → TypeExpr

pub record TypeSpec : Type 0 where
  pub name : Bytes
  pub doc_text : Bytes
  pub expr : TypeExpr

-- abs of an integer
unfoldable pub abs : ℤ → ℕ
abs (pos n) = n
abs (negsuc n) = suc n

unfoldable pub distance : TokenPosition → ValueSpec → ℕ
unfolding abs ◌-ℤ◌
distance target s = abs (target.offset -ℤ s.pos.offset)

-- byDistance.Less
unfoldable pub nearer : TokenPosition → ValueSpec → ValueSpec → Bool
unfolding distance
nearer target a b = ltb (distance target a) (distance target b)

unfoldable pub fmt_node : TypeExpr → Bytes
fmt_node (interface_type fields printed) = printed
fmt_node (struct_type fields printed) = printed
fmt_node (other_type printed) = printed

unfoldable pub type_name : TypeExpr → Bytes
unfolding fmt_node
type_name (interface_type fields printed) = codes "interface"
type_name (struct_type fields printed) = codes "struct"
type_name (other_type printed) = printed

abbrev pub or_default : Bytes → Bytes → Bytes
or_default doc default = if beq doc [] then default else doc

module _ (to_markdown : Bytes → Bytes) (target : TokenPosition) where
  unfoldable pub fmt_spec : Bytes → Bytes → ValueSpec → List MarkedString
  unfolding maybe_add_comments
  fmt_spec tok doc spec =
      maybe_add_comments to_markdown (or_default spec.doc_text doc)
        (go_string (tok ++ codes " " ++ spec.printed) ∷ [])

  -- v.Decl.Specs[0]
  abbrev pub first_spec : Bytes → Bytes → List ValueSpec → Option (List MarkedString)
  first_spec tok doc [] = none
  first_spec tok doc (spec ∷ specs) = some (fmt_spec tok doc spec)

  -- The case of a *doc.Value.
  unfoldable pub fmt_value :
      ((ValueSpec → ValueSpec → Bool) → List ValueSpec → List ValueSpec)
      → Bytes
      → Bytes
      → List ValueSpec
      → Option (List MarkedString)
  unfolding nearer fmt_spec
  fmt_value sort tok doc specs = first_spec tok doc (sort (nearer target) specs)

  -- The loop over the fields, with what a match returns; field.Names[0] panics where the field is
  -- embedded. The outer `none` is that no field matches.
  unfoldable pub find_field :
      (Field → Bytes → Bytes) → List Field → Option (Option (List MarkedString))
  unfolding maybe_add_comments
  find_field text [] = none
  find_field text (f ∷ fs) =
      if eqb_ℤ f.pos.offset target.offset
      then some (elim f.names [
        | [] ↦ none
        | name ∷ _ ↦ some (maybe_add_comments to_markdown f.doc_text (go_string (text f name) ∷ []))
      ])
      else find_field text fs

  -- `func (T).name(…)`
  unfoldable pub method_text : TypeSpec → Field → Bytes → Bytes
  unfolding trim_prefix
  method_text spec f name =
      codes "func (" ++ spec.name ++ codes ")." ++ name ++ trim_prefix f.printed_type (codes "func")

  unfoldable pub field_text : Field → Bytes → Bytes
  field_text f name = codes "struct field " ++ name ++ codes " " ++ f.printed_type

  abbrev pub matching_field : TypeSpec → TypeExpr → Option (Option (List MarkedString))
  matching_field spec (interface_type fields printed) = find_field (method_text spec) fields
  matching_field spec (struct_type fields printed) = find_field field_text fields
  matching_field spec (other_type printed) = none

  unfoldable pub fmt_whole_type : Bytes → Bytes → TypeSpec → List MarkedString
  unfolding type_name maybe_add_comments fmt_node
  fmt_whole_type tok doc spec =
      let name = tok ++ codes " " ++ spec.name ++ codes " " ++ type_name spec.expr in
      let res =
        maybe_add_comments to_markdown (or_default spec.doc_text doc) (go_string name ∷ []) in
      if beq (type_name spec.expr) (codes "interface") || beq (type_name spec.expr) (codes "struct")
      then res ++ go_string (fmt_node spec.expr) ∷ []
      else res

  -- The case of a *doc.Type.
  unfoldable pub fmt_type : Bytes → Bytes → TypeSpec → Option (List MarkedString)
  unfolding find_field method_text field_text fmt_whole_type
  fmt_type tok doc spec = elim (matching_field spec spec.expr) [
    | some found ↦ found
    | none ↦ some (fmt_whole_type tok doc spec)
  ]

  -- The case of a *doc.Func.
  unfoldable pub fmt_func : Bytes → Bytes → List MarkedString
  unfolding maybe_add_comments
  fmt_func doc printed = maybe_add_comments to_markdown doc (go_string printed ∷ [])
