-- ===== src/Symbol/Declared/Examples.antt =====
-- langserver/symbol.go and workspace_refs.go: the theorem on a method of a type.
use go_langserver.Common.Words.{fields}
use go_langserver.Common.Result.{Result, ok}
use go_langserver.Symbol.Declared.Described.{def_symbol_descriptor-ast_pkg_to_symbols}
use go_langserver.Symbol.Declared.{
  FoundPackage, DeclaredType, DeclaredPackage, type_spec, to_sym, func_symbols, value_symbols,
  type_symbols, types_symbols, ast_pkg_to_symbols, LinePosition,
}
use go_langserver.Symbol.Query.{sk_method}
use go_langserver.Symbol.Score.{SymbolPair}
use go_langserver.Refs.{Def}
use go_langserver.WorkspaceRefs.{DefPackage, def_symbol_descriptor}
use go_langserver.Util.{other}
use go_langserver.Common.Int.{pos}
use go_langserver.Common.{Bytes, In, [], beq, codes, false, inl, inr, refl, ℕ, ◌∷◌, ◌≡◌}

abbrev pub mux : FoundPackage
mux = record { import_path = codes "m/mux"; dir = codes "/src/m/mux"; name = codes "mux" }

abbrev pub one_line : ℕ → LinePosition
one_line p = record { filename = codes "/src/m/mux/a.go"; line = pos 1; column = pos p }

-- A type T with a method M.
abbrev pub t_doc : DeclaredType
t_doc = record {
  name = codes "T";
  decl = record { tok_pos = 1; specs = type_spec 6 false ∷ [] };
  funcs = [];
  methods = record { name = codes "M"; name_pos = 20 } ∷ [];
  consts = [];
  vars = [];
}

abbrev pub mux_doc : DeclaredPackage
mux_doc = record { types = t_doc ∷ []; consts = []; vars = []; funcs = [] }

abbrev m_symbol : SymbolPair
m_symbol = to_sym other (λ p. p) one_line mux (codes "M") (codes "T") sk_method 20

abbrev pub find_mux : Bytes → Result ℕ DefPackage
find_mux p = ok (record { dir = codes "/src/m/mux"; import_path = codes "m/mux" })

abbrev m_def : Def
m_def = record { import_path = codes "m/mux"; package_name = codes "mux"; path = codes "T M" }

m_declared : In m_symbol (ast_pkg_to_symbols other (λ p. p) one_line mux mux_doc)
unfolding ast_pkg_to_symbols types_symbols type_symbols func_symbols value_symbols to_sym
m_declared = inr (inl refl)

m_words : fields m_def.path ≡ codes "T" ∷ codes "M" ∷ []
unfolding fields
m_words = refl

def_symbol_descriptor-ast_pkg_to_symbols_example :
    def_symbol_descriptor find_mux m_def ≡ ok m_symbol.desc
unfolding beq to_sym
def_symbol_descriptor-ast_pkg_to_symbols_example =
    def_symbol_descriptor-ast_pkg_to_symbols other (λ p. p) one_line mux mux_doc m_symbol m_declared
      find_mux m_def refl refl refl m_words
