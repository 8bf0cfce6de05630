-- ===== src/Definition/Examples.antt =====
-- langserver/definition.go: the theorem on a use of a type T of the same package.
use go_langserver.Definition.Described.{handle_x_definition-ast_pkg_to_symbols}
use go_langserver.Definition.{CheckedIdent, handle_x_definition}
use go_langserver.Refs.{TypesPackage, TypesObject, another_object, another_type}
use go_langserver.Refs.DefInfo.{AstIdent, ident_node, plain_node, Known}
use go_langserver.Symbol.Declared.Examples.{mux, one_line, mux_doc, find_mux}
use go_langserver.Symbol.Declared.{
  to_sym, decl_name_pos, type_spec_sym, ast_pkg_to_symbols, types_symbols, type_symbols,
}
use go_langserver.Symbol.Score.{SymbolPair}
use go_langserver.Symbol.Query.{sk_class}
use go_langserver.Position.Ranges.{go_range_to_lsp_location}
use go_langserver.Overlay.Examples.{main_go}
use go_langserver.Util.{other, is_uri}
use go_langserver.Common.Words.{fields}
use go_langserver.Common.Result.{ok}
use go_langserver.Common.{In, [], codes, false, has_prefix, inl, none, refl, some, true, ◌∷◌, ◌≡◌}

abbrev mux_package : TypesPackage
mux_package = record { path = codes "m/mux"; name = codes "mux" }

abbrev t_object : TypesObject
t_object = record {
  identity = 4;
  name = codes "T";
  pkg = some mux_package;
  parent = some 0;
  type_key = 0;
  obj_id = codes "T";
  sort = another_object;
}

abbrev t_ident : AstIdent
t_ident = record { key = 1; name = codes "T" }

abbrev known_t : Known
known_t = record {
  defs = λ n. none;
  uses = λ n. some t_object;
  selections = λ n. none;
  type_of = λ n. another_type;
  imports = [];
  scope = 0;
  scope_lookup = λ n. some 4;
  lookup_in = λ p n. some 4;
  universe_lookup = λ n. none;
  has_field = λ t n. false;
}

abbrev checked_t : CheckedIdent
checked_t = record {
  ident = t_ident;
  nodes = ident_node t_ident ∷ plain_node ∷ [];
  known = known_t;
  pos_of = λ o. some 6;
  fset = one_line;
}

abbrev t_symbol : SymbolPair
t_symbol = to_sym other (λ p. p) one_line mux (codes "T") [] sk_class 6

t_declared : In t_symbol (ast_pkg_to_symbols other (λ p. p) one_line mux mux_doc)
unfolding ast_pkg_to_symbols types_symbols type_symbols to_sym decl_name_pos type_spec_sym
t_declared = inl refl

t_word : fields t_object.name ≡ t_object.name ∷ []
unfolding fields
t_word = refl

t_uri : is_uri main_go ≡ true
unfolding is_uri has_prefix
t_uri = refl

handle_x_definition-ast_pkg_to_symbols_example :
    handle_x_definition other find_mux main_go (ok checked_t)
    ≡ ok (
        record {
          location = go_range_to_lsp_location one_line other 6 7;
          symbol = some t_symbol.desc;
        }
        ∷ [])
unfolding to_sym
handle_x_definition-ast_pkg_to_symbols_example =
    handle_x_definition-ast_pkg_to_symbols other (λ p. p) one_line mux find_mux mux_doc t_symbol
      t_object mux_package main_go checked_t (plain_node ∷ []) 6 t_uri refl refl refl refl refl refl
      refl t_declared refl refl refl refl refl refl t_word
