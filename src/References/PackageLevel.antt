-- ===== src/References/PackageLevel.antt =====
-- langserver/references.go: findReferencesPkgLevel, which looks for a package-level object by the
-- syntax of the files alone. Finding packages, reading and parsing files, strconv.Unquote and
-- ast.NewPackage are the fields of `Workspace`.
pub mod Walk
pub mod Examples
use go_langserver.Common.Result.{Result, ok, err, panics}
use go_langserver.Hover.Target.{TokenPosition}
use go_langserver.References.Syntax.{Ident, Node, Children, ident, selector, other, inspect}
use go_langserver.Util.{vendorless_import_path}
use go_langserver.Common.Int.{eqb_ℤ}
use go_langserver.Common.{
  Bool, Bytes, List, Option, [], any, beq, codes, contains, false, has_suffix, if◌then◌else◌,
  length, none, not, some, trim_suffix, true, ℕ, ◌&&◌, ◌++◌, ◌==◌, ◌||◌, ◌∷◌,
}

-- ast.ImportSpec: the literal of the path, and the name if one is given.
pub record ImportSpec : Type 0 where
  pub path : Bytes
  pub name : Option Bytes

-- The fields of build.Package that are read.
pub record PackageFiles : Type 0 where
  pub dir : Bytes
  pub go_files : List Bytes
  pub test_go_files : List Bytes
  pub cgo_files : List Bytes
  pub xtest_go_files : List Bytes

-- `new_package` gives the tree of a package, with its identifiers resolved, and the lookup in its
-- scope.
pub record Workspace : Type 0 where
  pub pkg_in_workspace : Bytes → Bool
  pub find : Bytes → Option PackageFiles
  pub is_abs_path : Bytes → Bool
  pub join_path : Bytes → Bytes → Bytes
  pub read_file : Bytes → Option Bytes
  pub parse_imports : Bytes → Bytes → Option (List ImportSpec)
  pub parse_file : Bytes → Bytes → Option Node
  pub unquote : Bytes → Option Bytes
  pub new_package : List (Bytes × Node) → Node × (Bytes → Option ℕ)

-- What is asked for: obj.Pkg().Path(), obj.Pkg().Name(), obj.Name() and its position.
pub record QueryObject : Type 0 where
  pub pkg_path : Bytes
  pub pkg_name : Bytes
  pub name : Bytes
  pub pos : TokenPosition

abbrev pub is_none : Option ℕ → Bool
is_none none = true
is_none (some o) = false

abbrev pub same_object : Option ℕ → ℕ → Bool
same_object none o = false
same_object (some p) o = p == o

-- posn == other
abbrev pub same_position : TokenPosition → TokenPosition → Bool
same_position a b = beq a.filename b.filename && eqb_ℤ a.offset b.offset

abbrev pub imported_as : List Bytes → Bytes → Bool
imported_as pkgnames x = any (λ n. beq n x) pkgnames

-- The function given to ast.Inspect for a file outside the query package.
unfoldable pub visit_user : Bytes → List Bytes → Bool → Node → List Ident × Bool
visit_user name pkgnames isdotimport (ident i) =
    if isdotimport && (is_none i.obj && beq i.name name) then (i ∷ [], false) else ([], true)
visit_user name pkgnames isdotimport (selector (ident x) sel) =
    if beq sel.name name && imported_as pkgnames x.name then (sel ∷ [], false) else ([], true)
visit_user name pkgnames isdotimport (selector x sel) = ([], true)
visit_user name pkgnames isdotimport (other ns) = ([], true)

-- The function given to ast.Inspect for the query package.
unfoldable pub visit_definer : ℕ → TokenPosition → Node → List Ident × Bool
visit_definer pkgobj objpos (ident i) =
    if same_object i.obj pkgobj && not (same_position objpos i.pos)
    then (i ∷ [], false)
    else ([], true)
visit_definer pkgobj objpos n = ([], true)

-- The loop over f.Imports, with `pkgnames` and `isdotimport`.
unfoldable pub import_names :
    (Bytes → Option Bytes) → Bytes → Bytes → List ImportSpec → List Bytes × Bool
import_names unquote defpkg defname [] = ([], false)
import_names unquote defpkg defname (imp ∷ imps) =
    let (pkgnames, isdotimport) = import_names unquote defpkg defname imps in
    elim (unquote imp.path) [
      | none ↦ (pkgnames, isdotimport)
      | some path ↦ if not (beq path defpkg) then (pkgnames, isdotimport) else elim imp.name [
        | none ↦ (defname ∷ pkgnames, isdotimport)
        | some n ↦ if beq n (codes ".") then (pkgnames, true) else (n ∷ pkgnames, isdotimport)
      ]
    ]

module _ (w : Workspace) (q : QueryObject) where
  unfoldable pub defpkg : Bytes
  unfolding vendorless_import_path trim_suffix
  defpkg = vendorless_import_path (trim_suffix q.pkg_path (codes "_test"))

  abbrev pub isxtest : Bool
  isxtest = has_suffix q.pkg_name (codes "_test")

  -- A file outside the query package, from the reading of its imports.
  unfoldable pub search_imports : Bytes → Bytes → List ImportSpec → List Ident
  unfolding import_names visit_user inspect defpkg
  search_imports file src imports =
      let (pkgnames, isdotimport) = import_names w.unquote defpkg q.pkg_name imports in
      if length pkgnames == 0 && not isdotimport then [] else elim (w.parse_file file src) [
        | none ↦ []
        | some f ↦ inspect (visit_user q.name pkgnames isdotimport) f
      ]

  abbrev pub absolute : Bytes → Bytes → Bytes
  absolute dir file = if not (w.is_abs_path file) then w.join_path dir file else file

  -- What a file is worth looking at: its path and text, if it can be read and has the name in it.
  unfoldable pub candidate : Bytes → Bytes → Option (Bytes × Bytes)
  unfolding contains
  candidate dir file = elim (w.read_file (absolute dir file)) [
    | none ↦ none
    | some src ↦ if not (contains src q.name) then none else some (absolute dir file, src)
  ]

  abbrev search_user_file : Option (Bytes × Bytes) → List Ident
  search_user_file none = []
  search_user_file (some (file, src)) = elim (w.parse_imports file src) [
    | none ↦ []
    | some imports ↦ search_imports file src imports
  ]

  -- The loop over the files of a package other than the query package.
  unfoldable pub search_user_files : Bytes → List Bytes → List Ident
  unfolding candidate search_imports
  search_user_files dir [] = []
  search_user_files dir (file ∷ files) =
      search_user_file (candidate dir file) ++ search_user_files dir files

  abbrev add_parsed : Option (Bytes × Bytes) → List (Bytes × Node) → List (Bytes × Node)
  add_parsed none rest = rest
  add_parsed (some (file, src)) rest = elim (w.parse_file file src) [
    | none ↦ rest
    | some f ↦ (file, f) ∷ rest
  ]

  -- The same loop for the query package: the files that are parsed for later.
  unfoldable pub parse_definer_files : Bytes → List Bytes → List (Bytes × Node)
  unfolding candidate
  parse_definer_files dir [] = []
  parse_definer_files dir (file ∷ files) =
      add_parsed (candidate dir file) (parse_definer_files dir files)

  -- `none` is the panic "missing defpkg object".
  unfoldable pub search_definer : List (Bytes × Node) → Option (List Ident)
  unfolding visit_definer inspect
  search_definer deffiles =
      let (pkg, lookup) = w.new_package deffiles in
      elim (lookup q.name) [
        | none ↦ none
        | some pkgobj ↦ some (inspect (visit_definer pkgobj q.pos) pkg)
      ]

  unfoldable pub files_to_search : Bool → PackageFiles → List Bytes
  files_to_search in_query_pkg p =
      (if not in_query_pkg || not isxtest then p.go_files ++ p.test_go_files ++ p.cgo_files else [])
      ++ (if not in_query_pkg || isxtest then p.xtest_go_files else [])

  -- One package, after it has been found.
  unfoldable pub search_found : Bool → PackageFiles → Option (List Ident)
  unfolding files_to_search search_user_files parse_definer_files search_definer
  search_found in_query_pkg p =
      let files = files_to_search in_query_pkg p in
      if length files == 0
      then some []
      else if in_query_pkg
      then search_definer (parse_definer_files p.dir files)
      else some (search_user_files p.dir files)

  -- `u == defpkg && isxtest == uIsXTest`
  abbrev is_query_pkg : Bytes → Bytes → Bool
  is_query_pkg user u =
      beq u defpkg
      && (if isxtest
          then has_suffix user (codes "!test")
          else not (has_suffix user (codes "!test")))

  -- One round of the loop over the users.
  unfoldable pub search_package : Bytes → Option (List Ident)
  unfolding search_found trim_suffix has_suffix
  search_package user =
      let u = trim_suffix user (codes "!test") in
      if not (w.pkg_in_workspace u)
      then some []
      else elim (w.find u) [ none ↦ some [] | some p ↦ search_found (is_query_pkg user u) p ]

  -- The loop over the users, each with the error of the context at that time: the references sent,
  -- and how the function ends.
  unfoldable pub find_references_pkg_level :
      {E : Type 0} → List (Bytes × Option E) → List Ident × Result E (Unit {0})
  unfolding search_package
  find_references_pkg_level [] = ([], ok tt)
  find_references_pkg_level ((user, some e) ∷ users) = ([], err e)
  find_references_pkg_level ((user, none) ∷ users) =
      let rest = find_references_pkg_level users in
      elim (search_package user) [ none ↦ ([], panics) | some refs ↦ (refs ++ rest.0, rest.1) ]
