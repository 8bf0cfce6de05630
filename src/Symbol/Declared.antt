-- ===== src/Symbol/Declared.antt =====
-- langserver/symbol.go: toSym and astPkgToSymbols, the symbols that a package declares. doc.New and
-- path.Clean are parameters.
pub mod Described
pub mod Examples
use go_langserver.Symbol.Query.{
  SymbolKind, sk_class, sk_method, sk_field, sk_function, sk_variable, sk_constant,
}
use go_langserver.Symbol.Score.{SymbolPair}
use go_langserver.Position.Ranges.{LinePosition, go_range_to_lsp_location}
use go_langserver.Util.{is_vendor_dir, Os}
use go_langserver.Common.{
  Bool, Bytes, List, Option, [], any, beq, codes, false, if◌then◌else◌, length, none, some, ℕ, ◌++◌,
  ◌+◌, ◌∷◌,
}

-- lsp.SKInterface
abbrev pub sk_interface : SymbolKind
sk_interface = 11

-- The fields of build.Package that the symbols take.
pub record FoundPackage : Type 0 where
  pub import_path : Bytes
  pub dir : Bytes
  pub name : Bytes

-- ast.Spec: the position of the name of an import, where it has one, and of its path; the names of
-- values with their positions; the position of the name of a type, and whether it is an interface.
pub data DeclSpec : Type 0 where
  import_spec : Option ℕ → ℕ → DeclSpec
  value_spec : List (Bytes × ℕ) → DeclSpec
  type_spec : ℕ → Bool → DeclSpec

-- ast.GenDecl
pub record GenDecl : Type 0 where
  pub tok_pos : ℕ
  pub specs : List DeclSpec

-- doc.Func, with the position of its name
pub record DocFunc : Type 0 where
  pub name : Bytes
  pub name_pos : ℕ

-- doc.Value
pub record DocValue : Type 0 where
  pub names : List Bytes
  pub decl : GenDecl

-- doc.Type
pub record DeclaredType : Type 0 where
  pub name : Bytes
  pub decl : GenDecl
  pub funcs : List DocFunc
  pub methods : List DocFunc
  pub consts : List DocValue
  pub vars : List DocValue

-- doc.Package
pub record DeclaredPackage : Type 0 where
  pub types : List DeclaredType
  pub consts : List DocValue
  pub vars : List DocValue
  pub funcs : List DocFunc

-- The loop over spec.Names.
abbrev pub name_pos_in : List (Bytes × ℕ) → Bytes → Option ℕ
name_pos_in [] name = none
name_pos_in ((n, pos) ∷ names) name = if beq n name then some pos else name_pos_in names name

-- The loop of declNamePos over the specs.
abbrev pub spec_name_pos : ℕ → List DeclSpec → Bytes → ℕ
spec_name_pos tok_pos [] name = tok_pos
spec_name_pos tok_pos (import_spec (some pos) path_pos ∷ specs) name = pos
spec_name_pos tok_pos (import_spec none path_pos ∷ specs) name = path_pos
spec_name_pos tok_pos (value_spec names ∷ specs) name =
    let rest = spec_name_pos tok_pos specs name in
    elim (name_pos_in names name) [ some pos ↦ pos | none ↦ rest ]
spec_name_pos tok_pos (type_spec pos is_interface ∷ specs) name = pos

unfoldable pub decl_name_pos : GenDecl → Bytes → ℕ
decl_name_pos decl name = spec_name_pos decl.tok_pos decl.specs name

-- `v.Type.(*ast.InterfaceType)` for a spec of a type
abbrev pub is_interface_spec : DeclSpec → Bool
is_interface_spec (type_spec pos is_interface) = is_interface
is_interface_spec (import_spec name_pos path_pos) = false
is_interface_spec (value_spec names) = false

unfoldable pub type_spec_sym : DeclaredType → SymbolKind
type_spec_sym t = if any is_interface_spec t.decl.specs then sk_interface else sk_class

module _ (os : Os) (clean : Bytes → Bytes) (fset : ℕ → LinePosition) (bpkg : FoundPackage) where
  unfoldable pub to_sym : Bytes → Bytes → SymbolKind → ℕ → SymbolPair
  unfolding go_range_to_lsp_location is_vendor_dir
  to_sym name recv kind pos =
      let p = clean bpkg.import_path in
      record {
        name = name;
        kind = kind;
        location = go_range_to_lsp_location fset os pos (pos + length name);
        container_name = recv;
        desc = record {
          package_path = p;
          package_name = bpkg.name;
          recv = recv;
          name = name;
          id =
              if beq recv []
              then p ++ codes "/-/" ++ name
              else p ++ codes "/-/" ++ recv ++ codes "/" ++ name;
          vendor = is_vendor_dir bpkg.dir;
        };
      }

  -- A loop over functions or methods.
  unfoldable pub func_symbols : Bytes → SymbolKind → List DocFunc → List SymbolPair
  unfolding to_sym
  func_symbols recv kind [] = []
  func_symbols recv kind (v ∷ vs) = to_sym v.name recv kind v.name_pos ∷ func_symbols recv kind vs

  -- `for _, name := range v.Names`
  unfoldable pub name_symbols : SymbolKind → GenDecl → List Bytes → List SymbolPair
  unfolding to_sym decl_name_pos
  name_symbols kind decl [] = []
  name_symbols kind decl (name ∷ names) =
      to_sym name [] kind (decl_name_pos decl name) ∷ name_symbols kind decl names

  -- A loop over constants or variables.
  unfoldable pub value_symbols : SymbolKind → List DocValue → List SymbolPair
  unfolding name_symbols
  value_symbols kind [] = []
  value_symbols kind (v ∷ vs) = name_symbols kind v.decl v.names ++ value_symbols kind vs

  -- One round of the loop over docPkg.Types.
  unfoldable pub type_symbols : DeclaredType → List SymbolPair
  unfolding to_sym type_spec_sym decl_name_pos func_symbols value_symbols
  type_symbols t =
      to_sym t.name [] (type_spec_sym t) (decl_name_pos t.decl t.name)
      ∷ (func_symbols [] sk_function t.funcs
          ++ func_symbols t.name sk_method t.methods
          ++ value_symbols sk_constant t.consts
          ++ value_symbols sk_field t.vars)

  -- The loop over docPkg.Types.
  unfoldable pub types_symbols : List DeclaredType → List SymbolPair
  unfolding type_symbols
  types_symbols [] = []
  types_symbols (t ∷ ts) = type_symbols t ++ types_symbols ts

  unfoldable pub ast_pkg_to_symbols : DeclaredPackage → List SymbolPair
  unfolding types_symbols value_symbols func_symbols
  ast_pkg_to_symbols doc =
      types_symbols doc.types
      ++ value_symbols sk_constant doc.consts
      ++ value_symbols sk_variable doc.vars
      ++ func_symbols [] sk_function doc.funcs
