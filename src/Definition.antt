-- ===== src/Definition.antt =====
-- langserver/definition.go: textDocument/definition and textDocument/xdefinition. The outcome of
-- LangHandler.typecheck is an argument, as are what go/types knows, findPackage, and, for the binary
-- package cache, godef.
pub mod Examples
pub mod Described
use go_langserver.Refs.{Def, TypesObject}
use go_langserver.Refs.DefInfo.{AstIdent, EnclosingNode, Known, def_info}
use go_langserver.WorkspaceRefs.{DefPackage, def_symbol_descriptor}
use go_langserver.Symbol.Descriptor.{SymbolDescriptor}
use go_langserver.Position.Ranges.{LinePosition, go_range_to_lsp_location}
use go_langserver.Position.{WhyInvalid, offset_for_position}
use go_langserver.Hover.Handle.{TypecheckError, invalid_node, no_go, other_error}
use go_langserver.Overlay.Request.{ReadError}
use go_langserver.Lsp.{Location, Range, Position}
use go_langserver.Util.{Os, is_uri, path_to_uri}
use go_langserver.Common.Int.{pos}
use go_langserver.Common.Result.{Result, ok, err, panics}
use go_langserver.Common.{
  Bytes, List, Option, [], beq, codes, if◌then◌else◌, length, map, none, not, some, ℕ, ◌+◌, ◌∷◌,
}

-- symbolLocationInformation
pub record SymbolLocation : Type 0 where
  pub location : Location
  pub symbol : Option SymbolDescriptor

pub data DefinitionError : Type 0 where
  foreign_uri : Bytes → DefinitionError
  check_error : TypecheckError → DefinitionError
  definition_not_found : DefinitionError

-- What typecheck returns without an error: the identifier with its path of nodes, and what go/types
-- knows about its package. `pos_of` is the position of an object, where it is valid.
pub record CheckedIdent : Type 0 where
  pub ident : AstIdent
  pub nodes : List EnclosingNode
  pub known : Known
  pub pos_of : TypesObject → Option ℕ
  pub fset : ℕ → LinePosition

-- `pkg.Uses[node]`, and else `pkg.Defs[node]`
unfoldable pub object_of : Known → AstIdent → Option TypesObject
object_of k i = elim (k.uses i.key) [ some o ↦ some o | none ↦ k.defs i.key ]

-- The symbol of a location; errors are only logged.
unfoldable pub symbol_of :
    (Bytes → Result ℕ DefPackage) → CheckedIdent → ℕ → Option (Option SymbolDescriptor)
unfolding def_info def_symbol_descriptor
symbol_of find_package c p = elim (def_info c.known c.nodes p) [
  | panics ↦ none
  | err e ↦ some none
  | ok def ↦ elim (def_symbol_descriptor find_package def) [
    | panics ↦ none
    | err e ↦ some none
    | ok desc ↦ some (some desc)
  ]
]

module _ (os : Os) (find_package : Bytes → Result ℕ DefPackage) where
  -- What follows the type checking.
  unfoldable pub locate_definition : CheckedIdent → Result DefinitionError (List SymbolLocation)
  unfolding object_of symbol_of go_range_to_lsp_location
  locate_definition c = elim (object_of c.known c.ident) [
    | none ↦ err definition_not_found
    | some obj ↦ elim (c.pos_of obj) [
      | none ↦ ok []
      | some p ↦ elim (symbol_of find_package c p) [
        | none ↦ panics
        | some desc ↦ ok (
            record {
              location = go_range_to_lsp_location c.fset os p (p + length obj.name);
              symbol = desc;
            }
            ∷ [])
      ]
    ]
  ]

  unfoldable pub handle_x_definition :
      Bytes → Result TypecheckError CheckedIdent → Result DefinitionError (List SymbolLocation)
  unfolding is_uri locate_definition
  handle_x_definition uri checked =
      if not (is_uri uri) then err (foreign_uri uri) else elim checked [
        | err invalid_node ↦ ok []
        | err no_go ↦ err (check_error no_go)
        | err (other_error n) ↦ err (check_error (other_error n))
        | panics ↦ panics
        | ok c ↦ locate_definition c
      ]

  -- handleDefinition without the binary package cache
  unfoldable pub handle_definition :
      Bytes → Result TypecheckError CheckedIdent → Result DefinitionError (List Location)
  unfolding handle_x_definition
  handle_definition uri checked = elim (handle_x_definition uri checked) [
    | ok res ↦ ok (map (λ (li : SymbolLocation). li.location) res)
    | err e ↦ err e
    | panics ↦ panics
  ]

-- godef.Result: a package with its directory, or an interval.
pub data GodefResult : Type 0 where
  godef_package : Bytes → GodefResult
  godef_found : ℕ → ℕ → GodefResult

pub data GodefError : Type 0 where
  no_identifier_found : GodefError
  godef_failed : ℕ → GodefError
  unreadable_document : ReadError → GodefError
  bad_position : WhyInvalid → GodefError

-- lsp.Range{}
abbrev pub empty_range : Range
empty_range = record {
  start = record { line = pos 0; character = pos 0 };
  end = record { line = pos 0; character = pos 0 };
}

module _ (os : Os) (builtin_go : Bytes) (fset : ℕ → LinePosition)
    (godef : ℕ → Bytes → Result GodefError GodefResult) where
  -- The location of an interval; a builtin, which has no file, gets a phony one.
  unfoldable pub godef_location : ℕ → ℕ → Location
  unfolding go_range_to_lsp_location path_to_uri
  godef_location start end =
      let loc = go_range_to_lsp_location fset os start end in
      if beq loc.uri (codes "file://")
      then record { uri = path_to_uri os builtin_go; range = empty_range }
      else loc

  -- definitionGodef, from what is read of the document
  unfoldable pub definition_godef :
      Result ReadError Bytes → Position → Result GodefError (GodefResult × List Location)
  unfolding offset_for_position godef_location
  definition_godef panics position = panics
  definition_godef (err e) position = err (unreadable_document e)
  definition_godef (ok contents) position = elim (offset_for_position contents position) [
    | panics ↦ panics
    | err why ↦ err (bad_position why)
    | ok offset ↦ elim (godef offset contents) [
      | panics ↦ panics
      | err e ↦ err e
      | ok (godef_package dir) ↦ ok (godef_package dir, [])
      | ok (godef_found start end) ↦ ok (godef_found start end, godef_location start end ∷ [])
    ]
  ]

  -- handleDefinition with the binary package cache
  unfoldable pub handle_definition_godef :
      Result ReadError Bytes → Position → Result GodefError (List Location)
  unfolding definition_godef
  handle_definition_godef contents position = elim (definition_godef contents position) [
    | err no_identifier_found ↦ ok []
    | err e ↦ err e
    | ok (res, locs) ↦ ok locs
    | panics ↦ panics
  ]
