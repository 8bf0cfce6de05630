-- ===== src/Refs/DefInfo.antt =====
-- langserver/internal/refs/refs.go: DefInfo.
use go_langserver.Refs.{
  Def, TypesPackage, TypesObject, GoType, a_package, a_variable, another_object, pointer, named,
  basic, struct_type, interface_type, func_type, another_type, dereference_type, type_name,
  object_string, two_words, def_in,
}
use go_langserver.Refs.Receiver.{Selection, deep_recv_type}
use go_langserver.Common.Result.{Result, ok, err, panics}
use go_langserver.Common.{
  Bool, Bytes, List, Option, [], after_last, beq, codes, false, get_elem?, if◌then◌else◌, none, not,
  some, true, ℕ, ◌==◌, ◌∷◌,
}

-- ast.Ident, with the key under which types.Info has it
pub record AstIdent : Type 0 where
  pub key : ℕ
  pub name : Bytes

-- ast.SelectorExpr, likewise
pub record AstSelector : Type 0 where
  pub key : ℕ
  pub sel : AstIdent

-- The type of a composite literal: p.T, T or another; T is printed by its name.
pub data LiteralType : Type 0 where
  qualified plain : Bytes → LiteralType
  another_literal : LiteralType

-- A node on the path from an identifier to its file. An import has the path that strconv.Unquote gives,
-- if it gives one.
pub data EnclosingNode : Type 0 where
  import_node : Option Bytes → EnclosingNode
  selector_node : AstSelector → EnclosingNode
  ident_node : AstIdent → EnclosingNode
  field_node : EnclosingNode
  type_spec_node : Bytes → EnclosingNode
  literal_node : LiteralType → EnclosingNode
  plain_node : EnclosingNode

-- The errors of DefInfo.
pub data DefError : Type 0 where
  not_quoted no_identifier unknown_field no_selector_type : DefError
  not_imported : Bytes → DefError
  unidentified : AstIdent → DefError
  no_type_information : Bytes → ℕ → DefError
  not_package_level : AstIdent → DefError
  receiver_not_top_level : DefError

-- What go/types knows: types.Info, the types by their keys, the package with its imports and the key of
-- its scope, the lookup in a package's scope and in the universe, and whether LookupFieldOrMethod finds
-- a field.
pub record Known : Type 0 where
  pub defs : ℕ → Option TypesObject
  pub uses : ℕ → Option TypesObject
  pub selections : ℕ → Option Selection
  pub type_of : ℕ → GoType
  pub imports : List TypesPackage
  pub scope : ℕ
  pub scope_lookup : Bytes → Option ℕ
  pub lookup_in : TypesPackage → Bytes → Option ℕ
  pub universe_lookup : Bytes → Option ℕ
  pub has_field : ℕ → Bytes → Bool

abbrev pub is_object : Option ℕ → TypesObject → Bool
is_object none obj = false
is_object (some i) obj = i == obj.identity

-- `obj.Parent() == pkg.Scope()`
abbrev pub is_scope : Option ℕ → ℕ → Bool
is_scope none scope = false
is_scope (some p) scope = p == scope

-- `path[strings.LastIndex(path, "vendor/")+len("vendor/"):]`, behind its test
unfoldable pub after_vendor : Bytes → Bytes
after_vendor path = elim (after_last path (codes "vendor/")) [ some rest ↦ rest | none ↦ path ]

-- The loop over pkg.Imports().
unfoldable pub find_import : List TypesPackage → Bytes → Option TypesPackage
unfolding after_vendor
find_import [] path = none
find_import (p ∷ ps) path = if beq (after_vendor p.path) path then some p else find_import ps path

unfoldable pub import_info : List TypesPackage → Option Bytes → Result DefError Def
unfolding find_import
import_info imports none = err not_quoted
import_info imports (some path) = elim (find_import imports path) [
  | some p ↦ ok (record { import_path = p.path; package_name = p.name; path = [] })
  | none ↦ err (not_imported path)
]

-- A Def that is there, or a panic.
abbrev pub or_panic : Option Def → Result DefError Def
or_panic (some d) = ok d
or_panic none = panics

-- The method case: the receiver's type is asserted to be a named one.
unfoldable pub method_info : GoType → TypesObject → Bytes → Result DefError Def
unfolding def_in
method_info (named o t ms) obj name = or_panic (def_in obj (two_words o.name name))
method_info _ obj name = panics

-- `nodes[1].(*ast.Field)` with `nodes[4].(*ast.TypeSpec)`; `none` where one of them is another node.
unfoldable pub struct_field : List EnclosingNode → Result DefError (Option Bytes)
struct_field nodes = elim (get_elem? nodes 1) [
  | none ↦ panics
  | some field_node ↦ elim (get_elem? nodes 4) [
    | none ↦ panics
    | some (type_spec_node name) ↦ ok (some name)
    | some _ ↦ ok none
  ]
  | some _ ↦ ok none
]

module _ (k : Known) where
  -- The end of both halves: the name of the object's type.
  abbrev pub by_type : TypesObject → DefError → Result DefError Def
  by_type obj e = elim (type_name (dereference_type (k.type_of obj.type_key))) [
    | some d ↦ ok d
    | none ↦ err e
  ]

  -- An object that is no function, at its definition.
  unfoldable pub variable_info : List EnclosingNode → AstIdent → TypesObject → Result DefError Def
  unfolding struct_field object_string def_in type_name dereference_type
  variable_info nodes i obj =
      if is_scope obj.parent k.scope then ok (object_string obj) else elim (struct_field nodes) [
        | panics ↦ panics
        | err e ↦ err e
        | ok (some typ) ↦ or_panic (def_in obj (two_words typ obj.name))
        | ok none ↦ by_type obj (unidentified i)
      ]

  -- The half for `info.Defs[identX]`.
  unfoldable pub defined_info : List EnclosingNode → AstIdent → TypesObject → Result DefError Def
  unfolding method_info variable_info object_string dereference_type
  defined_info nodes i obj = elim (k.type_of obj.type_key) [
    | func_type none ↦ ok (object_string obj)
    | func_type (some r) ↦ method_info (dereference_type (k.type_of r.type_key)) obj i.name
    | pointer t ↦ variable_info nodes i obj
    | named o t ms ↦ variable_info nodes i obj
    | basic n ↦ variable_info nodes i obj
    | struct_type fs ↦ variable_info nodes i obj
    | interface_type q ms ↦ variable_info nodes i obj
    | another_type ↦ variable_info nodes i obj
  ]

  -- A field in a struct literal; `none` where it is not in one.
  unfoldable pub literal_info : List EnclosingNode → TypesObject → Result DefError (Option Def)
  unfolding def_in
  literal_info nodes obj = elim obj.sort [
    | a_variable true ↦ elim (get_elem? nodes 2) [
      | none ↦ panics
      | some (literal_node (qualified t)) ↦ elim (def_in obj (two_words t obj.obj_id)) [
        | some d ↦ ok (some d)
        | none ↦ panics
      ]
      | some (literal_node (plain t)) ↦ elim (def_in obj (two_words t obj.obj_id)) [
        | some d ↦ ok (some d)
        | none ↦ panics
      ]
      | some _ ↦ ok none
    ]
    | a_variable false ↦ ok none
    | a_package p ↦ ok none
    | another_object ↦ ok none
  ]

  -- An identifier without a selector.
  unfoldable pub plain_info : AstIdent → TypesObject → Result DefError Def
  unfolding object_string type_name dereference_type
  plain_info i obj =
      if is_object (k.scope_lookup i.name) obj
      then ok (object_string obj)
      else if is_object (k.universe_lookup i.name) obj
      then ok (record {
        import_path = codes "builtin";
        package_name = codes "builtin";
        path = obj.name;
      })
      else by_type obj (not_package_level i)

  -- `recv.Obj().Pkg().Scope().Lookup(recv.Obj().Name()) == recv.Obj()`, where there is a package
  abbrev pub is_top_level : TypesObject → Bool
  is_top_level o = elim o.pkg [ some p ↦ is_object (k.lookup_in p o.name) o | none ↦ false ]

  -- A selection, from the type that deepRecvType gives.
  unfoldable pub receiver_info :
      Option GoType → Selection → AstIdent → TypesObject → Result DefError Def
  unfolding object_string type_name dereference_type
  receiver_info none sel i obj = err receiver_not_top_level
  receiver_info (some t) sel i obj = elim (dereference_type t) [
    | named o u ms ↦
        if not (is_top_level o)
        then err receiver_not_top_level
        else if not (k.has_field sel.recv i.name)
        then by_type obj unknown_field
        else ok (record (object_string o) { path = two_words (object_string o).path i.name })
    | pointer u ↦ err receiver_not_top_level
    | basic n ↦ err receiver_not_top_level
    | struct_type fs ↦ err receiver_not_top_level
    | interface_type q ms ↦ err receiver_not_top_level
    | func_type r ↦ err receiver_not_top_level
    | another_type ↦ err receiver_not_top_level
  ]

  -- An identifier with a selector.
  unfoldable pub selected_info : AstSelector → AstIdent → TypesObject → Result DefError Def
  unfolding deep_recv_type receiver_info object_string
  selected_info s i obj = elim (k.selections s.key) [
    | some sel ↦ elim (deep_recv_type k.type_of sel) [
      | ok t ↦ receiver_info t sel i obj
      | err e ↦ panics
      | panics ↦ panics
    ]
    | none ↦ elim (k.uses s.sel.key) [ some o ↦ ok (object_string o) | none ↦ err no_selector_type ]
  ]

  -- The half for `info.Uses[identX]`.
  unfoldable pub used_info :
      List EnclosingNode → AstIdent → Option AstSelector → TypesObject → Result DefError Def
  unfolding literal_info plain_info selected_info
  used_info nodes i s obj = elim (literal_info nodes obj) [
    | panics ↦ panics
    | err e ↦ err e
    | ok (some d) ↦ ok d
    | ok none ↦ elim obj.sort [
      | a_package p ↦ ok (record { import_path = p.path; package_name = p.name; path = [] })
      | a_variable f ↦ elim s [ none ↦ plain_info i obj | some x ↦ selected_info x i obj ]
      | another_object ↦ elim s [ none ↦ plain_info i obj | some x ↦ selected_info x i obj ]
    ]
  ]

  -- identX and selX have been found.
  unfoldable pub ident_info :
      List EnclosingNode → AstIdent → Option AstSelector → ℕ → Result DefError Def
  unfolding defined_info used_info
  ident_info nodes i s pos = elim (k.defs i.key) [
    | some obj ↦ defined_info nodes i obj
    | none ↦ elim (k.uses i.key) [
      | none ↦ err (no_type_information i.name pos)
      | some obj ↦ used_info nodes i s obj
    ]
  ]

  -- What follows the import statements.
  unfoldable pub node_info : List EnclosingNode → ℕ → Result DefError Def
  unfolding ident_info
  node_info [] pos = panics
  node_info (selector_node s ∷ nodes) pos = ident_info (selector_node s ∷ nodes) s.sel (some s) pos
  node_info (ident_node i ∷ selector_node s ∷ nodes) pos =
      ident_info (ident_node i ∷ selector_node s ∷ nodes) i (some s) pos
  node_info (ident_node i ∷ nodes) pos = ident_info (ident_node i ∷ nodes) i none pos
  node_info _ pos = err no_identifier

  unfoldable pub def_info : List EnclosingNode → ℕ → Result DefError Def
  unfolding import_info node_info
  def_info (a ∷ import_node path ∷ c ∷ nodes) pos = import_info k.imports path
  def_info nodes pos = node_info nodes pos
