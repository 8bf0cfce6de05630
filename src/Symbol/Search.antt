-- ===== src/Symbol/Search.antt =====
-- langserver/symbol.go: workspace/symbol, from the packages under the root to the results. findPackage,
-- the parser, doc.New, sort.Sort and path are parameters, and so is the value that the cache of symbols
-- gives for a package. The goroutines collect in the order of the packages.
use go_langserver.Common.Int.{ℤ}
pub mod Hits
pub mod Examples
use go_langserver.Position.Ranges.{LinePosition}
use go_langserver.Symbol.Query.{Query, FilterType, exported, unfiltered, in_dir, parse_query}
use go_langserver.Symbol.Descriptor.{
  DescriptorMap, JsonValue, find_value, text, null, compound, flag, number,
}
use go_langserver.Symbol.Score.{SymbolPair, exported_name, is_exported_filter}
use go_langserver.Symbol.Results.{ScoredSymbol, collect_all, cut_off, default_limit}
use go_langserver.Symbol.Declared.{FoundPackage, DeclaredPackage, ast_pkg_to_symbols}
use go_langserver.Common.Result.{Result, ok, err}
use go_langserver.Util.{is_uri, uri_to_path, path_equal, path_has_prefix, path_trim_prefix, Os}
use go_langserver.Common.{
  Bool, Bytes, List, Option, [], beq, codes, false, filter, has_prefix, has_suffix, if◌then◌else◌,
  inl, inr, map, none, not, some, true, ℕ, ◌&&◌, ◌||◌, ◌∷◌, ◌⊎◌,
}

unfoldable pub is_exported : SymbolPair → Bool
is_exported s =
    if beq s.container_name []
    then exported_name s.name
    else exported_name s.container_name && exported_name s.name

-- `results.Query.Filter == FilterExported && !isExported(&sym)` is its negation.
unfoldable pub is_kept : FilterType → SymbolPair → Bool
unfolding is_exported
is_kept filter s = not (is_exported_filter filter && not (is_exported s))

module _ {F : Type 0} where
  -- `pkg.Files[filename] = src`
  abbrev pub put_file : Bytes → F → List (Bytes × F) → List (Bytes × F)
  put_file filename src [] = (filename, src) ∷ []
  put_file filename src ((f, old) ∷ files) =
      if beq f filename then (f, src) ∷ files else (f, old) ∷ put_file filename src files

  -- A file is put into the package of its name, which is made where there is none.
  abbrev pub put_source :
      Bytes → Bytes → F → List (Bytes × List (Bytes × F)) → List (Bytes × List (Bytes × F))
  put_source name filename src [] = (name, (filename, src) ∷ []) ∷ []
  put_source name filename src ((n, files) ∷ pkgs) =
      if beq n name
      then (n, put_file filename src files) ∷ pkgs
      else (n, files) ∷ put_source name filename src pkgs

  abbrev pub find_ast_package : List (Bytes × List (Bytes × F)) → Bytes → Option (List (Bytes × F))
  find_ast_package [] name = none
  find_ast_package ((n, files) ∷ pkgs) name =
      if beq n name then some files else find_ast_package pkgs name

  module _ (join : Bytes → Bytes) (parse_file : Bytes → ℕ ⊎ (Bytes × F))
      (filter_file : Bytes → Bool) where
    -- One round of the loop of parseDir, for a name in the directory, with `pkgs` and `first`; `join`
    -- puts the name behind the directory, and a file is parsed to its package name and its syntax.
    unfoldable pub parse_entry :
        Bytes
        → List (Bytes × List (Bytes × F)) × Option ℕ
        → List (Bytes × List (Bytes × F)) × Option ℕ
    parse_entry d (pkgs, first) =
        if not (has_suffix d (codes ".go") && filter_file d)
        then (pkgs, first)
        else elim (parse_file (join d)) [
          | inr (name, src) ↦ (put_source name (join d) src pkgs, first)
          | inl e ↦ (pkgs, elim first [ some e' ↦ some e' | none ↦ some e ])
        ]

    unfoldable pub parse_entries :
        List Bytes
        → List (Bytes × List (Bytes × F)) × Option ℕ
        → List (Bytes × List (Bytes × F)) × Option ℕ
    unfolding parse_entry
    parse_entries [] parsed = parsed
    parse_entries (d ∷ ds) parsed = parse_entries ds (parse_entry d parsed)

    -- parseDir, from what ReadDir gives
    unfoldable pub parse_dir : ℕ ⊎ List Bytes → List (Bytes × List (Bytes × F)) × Option ℕ
    unfolding parse_entries
    parse_dir (inl e) = ([], some e)
    parse_dir (inr ds) = parse_entries ds ([], none)

  -- The function that fills the cache for a package: `none` is nil.
  unfoldable pub package_symbols :
      Os
      → (Bytes → Bytes)
      → (Bytes → ℕ → LinePosition)
      → (Bytes → Option FoundPackage)
      → (Bytes → List (Bytes × List (Bytes × F)) × Option ℕ)
      → (List (Bytes × F) → Bytes → DeclaredPackage)
      → Bytes
      → Option (List SymbolPair)
  unfolding ast_pkg_to_symbols
  package_symbols os clean fset find parse_package_dir new_doc pkg = elim (find pkg) [
    | none ↦ none
    | some bpkg ↦
        let (ast_pkgs, first) = parse_package_dir bpkg.dir in
        elim first [
          | some e ↦ none
          | none ↦ elim (find_ast_package ast_pkgs bpkg.name) [
            | none ↦ none
            | some ast_pkg ↦ some (
                ast_pkg_to_symbols os clean (fset bpkg.dir) bpkg (new_doc ast_pkg bpkg.import_path))
          ]
        ]
  ]

-- `q.Filter == FilterDir`
abbrev pub is_dir_filter : FilterType → Bool
is_dir_filter in_dir = true
is_dir_filter unfiltered = false
is_dir_filter exported = false

-- The parts of the build context and package path that the tests on packages use.
pub record SearchPaths : Type 0 where
  pub goroot : Bytes
  pub gopath : Bytes
  pub path_dir : Bytes → Bytes

unfoldable pub file_pkg_path : Os → SearchPaths → Bytes → Bytes
unfolding path_has_prefix path_trim_prefix
file_pkg_path os c file =
    let p = c.path_dir file in
    path_trim_prefix os
      (if path_has_prefix os p c.goroot
        then path_trim_prefix os p c.goroot
        else path_trim_prefix os p c.gopath)
      (codes "src")

-- The two tests that skip a package, negated.
unfoldable pub is_searched : Os → SearchPaths → Query → Bytes → Bool
unfolding file_pkg_path path_equal
is_searched os c q pkg =
    (beq q.file [] || path_equal os pkg (file_pkg_path os c q.file))
    && not (is_dir_filter q.filter && not (path_equal os pkg q.dir))

module _ (base : Bytes → Bytes) (parse_url : Bytes → Option Bytes) (os : Os) (c : SearchPaths)
    (cached : Bytes → Option (List SymbolPair)) (q : Query) (wanted : Option DescriptorMap) where
  unfoldable pub collect_from_pkg : Bytes → List ScoredSymbol → List ScoredSymbol
  unfolding collect_all is_kept
  collect_from_pkg pkg results = elim (cached pkg) [
    | none ↦ results
    | some symbols ↦ collect_all base parse_url q wanted results (filter (is_kept q.filter) symbols)
  ]

  -- The loop over the packages, each with whether the context is canceled when it is looked at.
  unfoldable pub search_packages : List (Bytes × Bool) → List ScoredSymbol → List ScoredSymbol
  unfolding is_searched collect_from_pkg
  search_packages [] results = results
  search_packages ((pkg, canceled) ∷ pkgs) results =
      let next =
        if is_searched os c q pkg && not canceled then collect_from_pkg pkg results else results in
      let rest = search_packages pkgs next in
      if is_searched os c q pkg && canceled then results else rest

  unfoldable pub handle_symbol :
      (List ScoredSymbol → List ScoredSymbol) → ℤ → List (Bytes × Bool) → List SymbolPair
  unfolding search_packages cut_off
  handle_symbol sort limit pkgs =
      map (λ (x : ScoredSymbol). x.pair) (cut_off limit (sort (search_packages pkgs [])))

-- strings.SplitN(id, "/-/", 2)[0]
unfoldable pub before_dashes : Bytes → Bytes
before_dashes [] = []
before_dashes (a ∷ s) =
    let rest = before_dashes s in if has_prefix (a ∷ s) (codes "/-/") then [] else a ∷ rest

-- The query of handleWorkspaceSymbol; `join` puts the root import path in front. An "id" that is no
-- string panics.
unfoldable pub workspace_query : (Bytes → Bytes) → Bytes → DescriptorMap → Option Query
unfolding before_dashes parse_query
workspace_query join query symbol =
    let q = parse_query query in
    let q' = if is_dir_filter q.filter then record q { dir = join q.dir } else q in
    elim (find_value symbol (codes "id")) [
      | none ↦ some q'
      | some (text id) ↦ some (record q' { dir = before_dashes id; filter = in_dir })
      | some null ↦ none
      | some compound ↦ none
      | some (flag b) ↦ none
      | some (number n) ↦ none
    ]

-- handleWorkspaceSymbol; `none` is a panic.
unfoldable pub handle_workspace_symbol :
    (Bytes → Bytes)
    → (Bytes → Option Bytes)
    → Os
    → SearchPaths
    → (Bytes → Option (List SymbolPair))
    → (List ScoredSymbol → List ScoredSymbol)
    → (Bytes → Bytes)
    → List (Bytes × Bool)
    → Bytes
    → Option DescriptorMap
    → ℤ
    → Option (List SymbolPair)
unfolding workspace_query handle_symbol default_limit
handle_workspace_symbol base parse_url os c cached sort join pkgs query symbol limit =
    elim (workspace_query join query (elim symbol [ none ↦ [] | some m ↦ m ])) [
      | none ↦ none
      | some q ↦
          some (handle_symbol base parse_url os c cached q symbol sort (default_limit limit) pkgs)
    ]

pub data DocumentSymbolError : Type 0 where
  out_of_workspace : Bytes → DocumentSymbolError
  parse_failed : ℕ → DocumentSymbolError

abbrev pub no_package : FoundPackage
no_package = record { import_path = []; dir = []; name = [] }

-- handleTextDocumentSymbol; a file is parsed and read by doc.New in one step, from its path.
unfoldable pub handle_text_document_symbol :
    Os
    → (Bytes → Bytes)
    → (ℕ → LinePosition)
    → (Bytes → Option Bytes)
    → (Bytes → ℕ ⊎ DeclaredPackage)
    → Bytes
    → Result DocumentSymbolError (List SymbolPair)
unfolding is_uri uri_to_path ast_pkg_to_symbols
handle_text_document_symbol os clean fset parse_url parse_doc uri =
    if not (is_uri uri)
    then err (out_of_workspace uri)
    else elim (parse_doc (uri_to_path parse_url uri)) [
      | inl e ↦ err (parse_failed e)
      | inr doc ↦ ok (ast_pkg_to_symbols os clean fset no_package doc)
    ]
