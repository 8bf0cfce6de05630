-- ===== src/Definition/Described.antt =====
-- langserver/definition.go, symbol.go and workspace_refs.go: the symbol of a definition.
use go_langserver.Definition.{
  CheckedIdent, symbol_of, object_of, locate_definition, handle_x_definition,
}
use go_langserver.Refs.{TypesObject, TypesPackage, object_string}
use go_langserver.Refs.DefInfo.{EnclosingNode, ident_node, is_object, def_info}
use go_langserver.Refs.Agree.{is_ordinary, is_alone, def_info_plain}
use go_langserver.Symbol.Declared.{FoundPackage, DeclaredPackage, ast_pkg_to_symbols}
use go_langserver.Symbol.Declared.Described.{def_symbol_descriptor-ast_pkg_to_symbols}
use go_langserver.Symbol.Score.{SymbolPair}
use go_langserver.WorkspaceRefs.{DefPackage, def_symbol_descriptor}
use go_langserver.Position.Ranges.{LinePosition, go_range_to_lsp_location}
use go_langserver.Util.{Os, is_uri}
use go_langserver.Common.Words.{fields}
use go_langserver.Common.Result.{Result, ok}
use go_langserver.Common.{
  Bytes, In, List, [], ap, beq, length, none, some, true, ℕ, ◌+◌, ◌∙◌, ◌∷◌, ◌≡◌,
}

object_string_in :
    (obj : TypesObject) (q : TypesPackage)
    → obj.pkg ≡ some q
    → object_string obj ≡ record { import_path = q.path; package_name = q.name; path = obj.name }
unfolding object_string
object_string_in obj q e = simp (object_string, e)

module _ (os : Os) (clean : Bytes → Bytes) (declared_fset : ℕ → LinePosition) (bpkg : FoundPackage)
    (find_package : Bytes → Result ℕ DefPackage) where
  -- The descriptor of a symbol that stands at package level.
  described :
      (doc : DeclaredPackage) (s : SymbolPair) (obj : TypesObject) (q : TypesPackage)
      → In s (ast_pkg_to_symbols os clean declared_fset bpkg doc)
      → s.container_name ≡ []
      → obj.name ≡ s.name
      → obj.pkg ≡ some q
      → find_package q.path ≡ ok (record { dir = bpkg.dir; import_path = bpkg.import_path })
      → q.name ≡ bpkg.name
      → clean bpkg.import_path ≡ bpkg.import_path
      → fields obj.name ≡ obj.name ∷ []
      → def_symbol_descriptor find_package (object_string obj) ≡ ok s.desc
  unfolding beq
  described doc s obj q i top n e f m c w =
      ap (def_symbol_descriptor find_package) (object_string_in obj q e)
      ∙ def_symbol_descriptor-ast_pkg_to_symbols os clean declared_fset bpkg doc s i find_package _
          f m c (w ∙ simp (top, n))

  symbol_of_described :
      (c : CheckedIdent) (p : ℕ) (obj : TypesObject) (s : SymbolPair)
      → def_info c.known c.nodes p ≡ ok (object_string obj)
      → def_symbol_descriptor find_package (object_string obj) ≡ ok s.desc
      → symbol_of find_package c p ≡ some (some s.desc)
  unfolding symbol_of
  symbol_of_described c p obj s d h = simp (symbol_of, d, h)

  -- A request for the definition of an identifier that uses, by its name alone, an object of a package
  -- is answered by the name of that object where it is declared, and by the descriptor that the search
  -- of symbols has for a declaration of that name at package level, if findPackage finds the object's
  -- package where the search found it, under the same name, its import path is clean, and the name is a
  -- word.
  pub handle_x_definition-ast_pkg_to_symbols :
      (doc : DeclaredPackage) (s : SymbolPair) (obj : TypesObject) (q : TypesPackage) (uri : Bytes)
      (c : CheckedIdent) (nodes : List EnclosingNode) (p : ℕ)
      → is_uri uri ≡ true
      → c.nodes ≡ ident_node c.ident ∷ nodes
      → is_alone nodes ≡ true
      → c.known.defs c.ident.key ≡ none
      → c.known.uses c.ident.key ≡ some obj
      → is_object (c.known.scope_lookup c.ident.name) obj ≡ true
      → is_ordinary obj.sort ≡ true
      → c.pos_of obj ≡ some p
      → In s (ast_pkg_to_symbols os clean declared_fset bpkg doc)
      → s.container_name ≡ []
      → obj.name ≡ s.name
      → obj.pkg ≡ some q
      → find_package q.path ≡ ok (record { dir = bpkg.dir; import_path = bpkg.import_path })
      → q.name ≡ bpkg.name
      → clean bpkg.import_path ≡ bpkg.import_path
      → fields obj.name ≡ obj.name ∷ []
      → handle_x_definition os find_package uri (ok c)
        ≡ ok (
            record {
              location = go_range_to_lsp_location c.fset os p (p + length obj.name);
              symbol = some s.desc;
            }
            ∷ [])
  unfolding handle_x_definition locate_definition object_of
  handle_x_definition-ast_pkg_to_symbols doc s obj q uri c nodes p u n a d us l o at i top m e f pn
        cl w =
      let info : def_info c.known c.nodes p ≡ ok (object_string obj) =
        ap (λ x. def_info c.known x p) n ∙ def_info_plain c.known obj c.ident nodes p o a d us l in
      let symbol = symbol_of_described c p obj s info (described doc s obj q i top m e f pn cl w) in
      simp (handle_x_definition, locate_definition, object_of, u, us, at, symbol)
