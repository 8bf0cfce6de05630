-- ===== src/Loading.antt =====
-- langserver/loader.go and build_context.go: from a position in a document to the identifier there.
-- go/build, path.Join, path.Dir and the loader are parameters.
pub mod Cached
pub mod Named
pub mod Examples
use go_langserver.Overlay.{Files, Overlay}
use go_langserver.Position.{WhyInvalid, offset_for_position}
use go_langserver.Overlay.Request.{ReadError, file_path, read_file}
use go_langserver.Lsp.{DocumentUri, Position}
use go_langserver.Util.{path_has_prefix, path_trim_prefix, path_equal, Os, is_uri}
use go_langserver.Common.Result.{Result, ok, err, panics}
use go_langserver.Common.{
  Bool, Bytes, List, Option, [], any, beq, codes, has_suffix, if◌then◌else◌, ltb, none, not, some,
  trim_suffix, ℕ, ◌&&◌, ◌++◌, ◌+◌, ◌==◌, ◌∷◌,
}

-- The fields of build.Package that are read or changed.
pub record BuildPackage : Type 0 where
  pub import_path : Bytes
  pub dir : Bytes
  pub name : Bytes
  pub go_files : List Bytes
  pub cgo_files : List Bytes
  pub test_go_files : List Bytes
  pub xtest_go_files : List Bytes

-- build.MultiplePackageError: each file with its package (m.Files and m.Packages together).
abbrev pub MultiplePackageError : Type 0
MultiplePackageError = List (Bytes × Bytes)

-- The error of an import.
pub data ImportError : Type 0 where
  multiple_packages : MultiplePackageError → ImportError
  import_failed : ℕ → ImportError

-- The last entry of a file.
abbrev last_entry : MultiplePackageError → Bytes → Option Bytes
last_entry [] file = none
last_entry ((f, p) ∷ m) file = elim (last_entry m file) [
  | some q ↦ some q
  | none ↦ if beq f file then some p else none
]

-- fileToPkgName[file], empty where the map has no such key
unfoldable pub file_to_pkg_name : MultiplePackageError → Bytes → Bytes
file_to_pkg_name m file = elim (last_entry m file) [ none ↦ [] | some p ↦ p ]

-- filterToFilesInPackage
unfoldable pub files_in_package : MultiplePackageError → List Bytes → Bytes → List Bytes
unfolding file_to_pkg_name
files_in_package m [] pkg_name = []
files_in_package m (f ∷ fs) pkg_name =
    let keep = files_in_package m fs pkg_name in
    if beq (file_to_pkg_name m f) pkg_name then f ∷ keep else keep

-- nonXTestPkgName and xtestPkgName
abbrev pub test_names : Bytes → Bytes × Bytes
test_names pkg_name =
    if has_suffix pkg_name (codes "_test")
    then (trim_suffix pkg_name (codes "_test"), pkg_name)
    else (pkg_name, pkg_name ++ codes "_test")

-- `none` is the error that the package has no such file.
unfoldable pub build_package_for_named_file :
    BuildPackage → MultiplePackageError → Bytes → Option BuildPackage
unfolding file_to_pkg_name files_in_package
build_package_for_named_file bpkg m filename =
    let pkg_name = file_to_pkg_name m filename in
    let (plain_name, xtest_name) = test_names pkg_name in
    if beq pkg_name []
    then none
    else some (record bpkg {
      name = pkg_name;
      go_files = files_in_package m bpkg.go_files plain_name;
      test_go_files = files_in_package m bpkg.test_go_files plain_name;
      xtest_go_files = files_in_package m bpkg.xtest_go_files xtest_name;
    })

-- The end of ContainingPackage, from what bctx.Import returns: a package for the xtest files alone if
-- the file is one of them.
unfoldable pub munge_xtest : Bytes → BuildPackage → BuildPackage
munge_xtest base pkg =
    if any (λ f. beq f base) pkg.xtest_go_files && not (has_suffix pkg.name (codes "_test"))
    then record pkg {
      name = pkg.name ++ codes "_test";
      go_files = [];
      cgo_files = [];
      test_go_files = [];
    }
    else pkg

-- bctx, as far as ContainingPackage uses it, with the functions of "path".
pub record BuildContext : Type 0 where
  pub gopaths : List Bytes
  pub goroot : Bytes
  pub is_abs_path : Bytes → Bool
  pub is_dir : Bytes → Bool
  pub dir_of : Bytes → Bytes
  pub base_of : Bytes → Bytes
  pub join_src : Bytes → Bytes
  pub import_dir : Bytes → Bytes → Option BuildPackage × Option ImportError

-- The first GOPATH that the directory lies in.
unfoldable pub gopath_of : Os → Bytes → List Bytes → Bytes
unfolding path_has_prefix
gopath_of os pkg_dir [] = []
gopath_of os pkg_dir (g ∷ gs) = if path_has_prefix os pkg_dir g then g else gopath_of os pkg_dir gs

-- The directory of sources that a file lies under.
unfoldable pub src_dir : Os → BuildContext → Bytes → Bytes → Bytes
unfolding path_has_prefix gopath_of
src_dir os c filename pkg_dir =
    c.join_src
      (if path_has_prefix os filename c.goroot then c.goroot else gopath_of os pkg_dir c.gopaths)

-- `err` is a GOPATH that is not absolute.
unfoldable pub containing_package :
    Os → BuildContext → Bytes → Result Bytes (Option BuildPackage × Option ImportError)
unfolding src_dir munge_xtest path_trim_prefix
containing_package os c filename = elim (first_relative c.gopaths) [
  | some g ↦ err g
  | none ↦
      let pkg_dir = if not (c.is_dir filename) then c.dir_of filename else filename in
      let (pkg, e) =
        c.import_dir (path_trim_prefix os pkg_dir (src_dir os c filename pkg_dir)) pkg_dir in
      ok (elim pkg [ none ↦ none | some p ↦ some (munge_xtest (c.base_of filename) p) ], e)
]
  where
    first_relative : List Bytes → Option Bytes
    first_relative [] = none
    first_relative (g ∷ gs) = if not (c.is_abs_path g) then some g else first_relative gs

-- The files that the function typecheck loads, before they are joined with the directory.
unfoldable pub loaded_files : BuildPackage → List Bytes
loaded_files bpkg =
    bpkg.go_files
    ++ bpkg.test_go_files
    ++ (if has_suffix bpkg.name (codes "_test") then bpkg.xtest_go_files else [])

-- token.File
pub record TokenFile : Type 0 where
  pub name : Bytes
  pub base : ℕ
  pub size : ℕ

-- posForFileOffset; token.NoPos is 0, and Pos panics on an offset behind the end of the file.
unfoldable pub pos_for_file_offset : Os → List TokenFile → Bytes → ℕ → Option ℕ
unfolding path_equal
pos_for_file_offset os [] filename offset = some 0
pos_for_file_offset os (f ∷ fs) filename offset =
    if path_equal os f.name filename
    then (if ltb f.size offset then none else some (f.base + offset))
    else pos_for_file_offset os fs filename offset

pub data LoadError : Type 0 where
  out_of_workspace : DocumentUri → LoadError
  read_failed : ReadError → LoadError
  invalid_position : WhyInvalid → LoadError
  relative_gopath : Bytes → LoadError
  package_failed : ℕ → LoadError
  no_such_file : Bytes → LoadError
  check_failed : ℕ → LoadError
  invalid_location no_node invalid_node : LoadError

-- What is loaded for a package: the files of the file set, and the path of nodes that encloses a
-- position, the first of which may be an identifier (some) or not (none).
pub record Program (I : Type 0) : Type 0 where
  pub files : List TokenFile
  pub enclosing : ℕ → List (Option I)

-- The package of a file, out of several in its directory if need be.
unfoldable pub package_of : Os → BuildContext → Bytes → Result LoadError BuildPackage
unfolding containing_package build_package_for_named_file
package_of os c filename = elim (containing_package os c filename) [
  | err g ↦ err (relative_gopath g)
  | panics ↦ panics
  | ok (none, some (import_failed e)) ↦ err (package_failed e)
  | ok (some p, some (import_failed e)) ↦ err (package_failed e)
  | ok (none, some (multiple_packages m)) ↦ panics
  | ok (some p, some (multiple_packages m)) ↦
      elim (build_package_for_named_file p m (c.base_of filename)) [
        | none ↦ err (no_such_file (c.base_of filename))
        | some p' ↦ ok p'
      ]
  | ok (none, none) ↦ panics
  | ok (some p, none) ↦ ok p
]

module _ {I : Type 0} (os : Os) (program : Program I) where
  -- The identifier at an offset of a file.
  unfoldable pub identifier_at : Bytes → ℕ → Result LoadError I
  unfolding pos_for_file_offset
  identifier_at filename offset = elim (pos_for_file_offset os program.files filename offset) [
    | none ↦ panics
    | some start ↦ if start == 0 then err invalid_location else elim (program.enclosing start) [
      | [] ↦ err no_node
      | none ∷ ns ↦ err invalid_node
      | some i ∷ ns ↦ ok i
    ]
  ]

-- LangHandler.typecheck, as far as the identifier; `check` is cachedTypecheck.
module _ (os : Os) (parse_url : Bytes → Option Bytes)
    (fs : Files → Bytes → Result ReadError Bytes) where
  unfoldable pub typecheck :
      {I : Type 0}
      → BuildContext
      → (BuildPackage → Result ℕ (Program I))
      → Overlay
      → DocumentUri
      → Position
      → Result LoadError I
  unfolding file_path read_file offset_for_position package_of identifier_at
  typecheck c check o uri position =
      if not (is_uri uri) then err (out_of_workspace uri) else elim (file_path parse_url fs uri) [
        | none ↦ panics
        | some filename ↦ elim (read_file parse_url fs o uri) [
          | panics ↦ panics
          | err e ↦ err (read_failed e)
          | ok contents ↦ elim (offset_for_position contents position) [
            | panics ↦ panics
            | err why ↦ err (invalid_position why)
            | ok offset ↦ elim (package_of os c filename) [
              | panics ↦ panics
              | err e ↦ err e
              | ok bpkg ↦ elim (check bpkg) [
                | panics ↦ panics
                | err e ↦ err (check_failed e)
                | ok program ↦ identifier_at os program filename offset
              ]
            ]
          ]
        ]
      ]
