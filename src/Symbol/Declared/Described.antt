-- ===== src/Symbol/Declared/Described.antt =====
-- langserver/symbol.go and workspace_refs.go: the descriptors of declarations and of references.
use go_langserver.Common.Words.{fields}
use go_langserver.Common.Result.{Result, ok}
use go_langserver.Symbol.Query.{SymbolKind}
use go_langserver.Symbol.Score.{SymbolPair}
use go_langserver.Symbol.Declared.{
  FoundPackage, DocFunc, DocValue, DeclaredType, DeclaredPackage, GenDecl, to_sym, func_symbols,
  name_symbols, value_symbols, type_symbols, types_symbols, ast_pkg_to_symbols, Os, LinePosition,
}
use go_langserver.Refs.{Def}
use go_langserver.WorkspaceRefs.{DefPackage, def_symbol_descriptor}
use go_langserver.Common.{
  All, All-In, All-append, Bytes, In, List, [], ap, beq, if◌then◌else◌, refl, sym, ℕ, ◌∙◌, ◌∷◌, ◌≡◌,
}

-- The words of the path of a definition, as internal/refs gives them.
abbrev pub path_words : Bytes → Bytes → List Bytes
path_words recv name = if beq recv [] then name ∷ [] else recv ∷ name ∷ []

module _ (os : Os) (clean : Bytes → Bytes) (fset : ℕ → LinePosition) (bpkg : FoundPackage) where
  -- The descriptor is that of the name and the container.
  IsMade : SymbolPair → Type 0
  unfolding to_sym
  IsMade s = s.desc ≡ (to_sym os clean fset bpkg s.name s.container_name 0 0).desc

  to_sym-IsMade :
      (name recv : Bytes) (kind : SymbolKind) (pos : ℕ)
      → IsMade (to_sym os clean fset bpkg name recv kind pos)
  unfolding IsMade to_sym
  to_sym-IsMade name recv kind pos = refl

  func_symbols-IsMade :
      (recv : Bytes) (kind : SymbolKind) (vs : List DocFunc)
      → All IsMade (func_symbols os clean fset bpkg recv kind vs)
  unfolding func_symbols
  func_symbols-IsMade recv kind [] = tt
  func_symbols-IsMade recv kind (v ∷ vs) =
      (to_sym-IsMade v.name recv kind v.name_pos, func_symbols-IsMade recv kind vs)

  name_symbols-IsMade :
      (kind : SymbolKind) (decl : GenDecl) (names : List Bytes)
      → All IsMade (name_symbols os clean fset bpkg kind decl names)
  unfolding name_symbols
  name_symbols-IsMade kind decl [] = tt
  name_symbols-IsMade kind decl (name ∷ names) =
      (to_sym-IsMade name [] kind _, name_symbols-IsMade kind decl names)

  value_symbols-IsMade :
      (kind : SymbolKind) (vs : List DocValue)
      → All IsMade (value_symbols os clean fset bpkg kind vs)
  unfolding value_symbols
  value_symbols-IsMade kind [] = tt
  value_symbols-IsMade kind (v ∷ vs) =
      All-append IsMade _ _ (name_symbols-IsMade kind v.decl v.names) (value_symbols-IsMade kind vs)

  type_symbols-IsMade : (t : DeclaredType) → All IsMade (type_symbols os clean fset bpkg t)
  unfolding type_symbols
  type_symbols-IsMade t = (
    to_sym-IsMade t.name [] _ _,
    All-append IsMade _ _
        (All-append IsMade _ _
          (All-append IsMade _ _ (func_symbols-IsMade [] _ t.funcs)
            (func_symbols-IsMade t.name _ t.methods))
          (value_symbols-IsMade _ t.consts))
        (value_symbols-IsMade _ t.vars),
  )

  types_symbols-IsMade : (ts : List DeclaredType) → All IsMade (types_symbols os clean fset bpkg ts)
  unfolding types_symbols
  types_symbols-IsMade [] = tt
  types_symbols-IsMade (t ∷ ts) =
      All-append IsMade (type_symbols os clean fset bpkg t) _ (type_symbols-IsMade t)
        (types_symbols-IsMade ts)

  ast_pkg_to_symbols-IsMade :
      (doc : DeclaredPackage) → All IsMade (ast_pkg_to_symbols os clean fset bpkg doc)
  unfolding ast_pkg_to_symbols
  ast_pkg_to_symbols-IsMade doc =
      All-append IsMade _ _
        (All-append IsMade _ _
          (All-append IsMade _ _ (types_symbols-IsMade doc.types)
            (value_symbols-IsMade _ doc.consts))
          (value_symbols-IsMade _ doc.vars))
        (func_symbols-IsMade [] _ doc.funcs)

  same_descriptor :
      (find_package : Bytes → Result ℕ DefPackage) (def : Def) (recv name : Bytes)
      → find_package def.import_path
        ≡ ok (record { dir = bpkg.dir; import_path = bpkg.import_path })
      → def.package_name ≡ bpkg.name
      → clean bpkg.import_path ≡ bpkg.import_path
      → fields def.path ≡ path_words recv name
      → def_symbol_descriptor find_package def ≡ ok (to_sym os clean fset bpkg name recv 0 0).desc
  unfolding def_symbol_descriptor to_sym beq
  same_descriptor find_package def [] name f n c w =
      simp (def_symbol_descriptor, to_sym, f, n, c, w)
  same_descriptor find_package def (r ∷ recv) name f n c w =
      simp (def_symbol_descriptor, to_sym, f, n, c, w)

  -- A reference to a symbol that a package declares has the descriptor that the search of symbols has
  -- for it, if findPackage finds the package of the reference where the search found it, under the same
  -- name, its import path is clean, and the words of the path of the reference are the receiver, where
  -- there is one, and the name.
  pub def_symbol_descriptor-ast_pkg_to_symbols :
      (doc : DeclaredPackage) (s : SymbolPair)
      → In s (ast_pkg_to_symbols os clean fset bpkg doc)
      → (find_package : Bytes → Result ℕ DefPackage) (def : Def)
      → find_package def.import_path
        ≡ ok (record { dir = bpkg.dir; import_path = bpkg.import_path })
      → def.package_name ≡ bpkg.name
      → clean bpkg.import_path ≡ bpkg.import_path
      → fields def.path ≡ path_words s.container_name s.name
      → def_symbol_descriptor find_package def ≡ ok s.desc
  def_symbol_descriptor-ast_pkg_to_symbols doc s i find_package def f n c w =
      same_descriptor find_package def s.container_name s.name f n c w
      ∙ ap ok (sym (unfold IsMade in All-In IsMade s _ (ast_pkg_to_symbols-IsMade doc) i))
