-- ===== src/DirectoryWalk.antt =====
-- pkg/tools/buildutil.go: ListPkgsUnderDir and allPackages. A directory is a tree of directories with
-- their names; a read that fails gives no entries. The walk's goroutines may send in any order: here
-- they send one after the other, and ListPkgsUnderDir sorts what arrives. path.Clean and JoinPath are
-- parameters.
pub mod Pruned
pub mod Examples
use go_langserver.Util.{path_trim_prefix, Os, path_has_prefix}
use go_langserver.Common.{
  Bool, Bytes, List, [], beq, codes, if◌then◌else◌, map, not, true, ◌++◌, ◌==◌, ◌||◌, ◌∷◌,
}

mutual
  -- A directory: its path and base name, with the entries that are directories.
  pub data Dir : Type 0 where
    dir : Bytes → Bytes → Dirs → Dir

  pub data Dirs : Type 0 where
    none_left : Dirs
    entry : Dir → Dirs → Dirs

-- .foo, _foo, testdata and the empty name
unfoldable pub is_avoided : Bytes → Bool
is_avoided [] = true
is_avoided (c ∷ base) = c == b'.' || (c == b'_' || beq (c ∷ base) (codes "testdata"))

-- The import path of a directory below the root.
unfoldable pub pkg_of : Os → Bytes → Bytes → Bytes
unfolding path_trim_prefix
pkg_of os root path = path_trim_prefix os path root

unfoldable mutual
  pub walk_dir : Os → Bytes → Dir → List Bytes
  walk_dir os root (dir path base entries) =
      let below = walk_dirs os root entries in
      let pkg = pkg_of os root path in
      if is_avoided base || beq pkg (codes "builtin")
      then []
      else (if not (beq pkg []) then pkg ∷ [] else []) ++ below

  pub walk_dirs : Os → Bytes → Dirs → List Bytes
  walk_dirs os root none_left = []
  walk_dirs os root (entry d ds) = walk_dir os root d ++ walk_dirs os root ds

-- allPackages, with path.Clean done; `tree` gives the directory at a path.
unfoldable pub all_packages : Os → (Bytes → Dir) → Bytes → Bytes → List Bytes
unfolding path_has_prefix walk_dir
all_packages os tree root start =
    let from = if path_has_prefix os root start then root else start in
    if not (path_has_prefix os from root) then [] else walk_dir os root (tree from)

abbrev pub from_roots : Os → (Bytes → Dir) → Bytes → List Bytes → List Bytes
from_roots os tree start [] = []
from_roots os tree start (root ∷ roots) =
    all_packages os tree root start ++ from_roots os tree start roots

-- ListPkgsUnderDir over ctxt.SrcDirs()
unfoldable pub list_pkgs_under_dir :
    Os
    → (List Bytes → List Bytes)
    → (Bytes → Bytes)
    → (Bytes → Dir)
    → List Bytes
    → Bytes
    → List Bytes
unfolding all_packages
list_pkgs_under_dir os sort_strings clean tree roots start =
    sort_strings (from_roots os tree (clean start) (map clean roots))
