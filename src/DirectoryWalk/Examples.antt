-- ===== src/DirectoryWalk/Examples.antt =====
-- pkg/tools/buildutil.go: the theorem on a small tree of directories.
use go_langserver.DirectoryWalk.Pruned.{walk_dir-IsOpen, IsOpen, passed_over}
use go_langserver.DirectoryWalk.{Dir, dir, none_left, entry, walk_dir, pkg_of, is_avoided}
use mathlib.Core.Bool.{true≢false}
use go_langserver.Util.{other, path_trim_prefix, with_slash, virtual_path, trim_file_prefix}
use go_langserver.Common.{
  Bool, Bytes, In, [], ap, beq, codes, false, has_prefix, has_suffix, inl, inr, refl, sym,
  trim_prefix, true, ◌∷◌, ◌≡◌, ◌≢◌,
}

abbrev src_root : Bytes
src_root = codes "/src"

-- /src with /src/a and /src/_x/b
abbrev small_tree : Dir
small_tree = dir src_root (codes "src") (
    entry (dir (codes "/src/a") (codes "a") none_left) (
      entry
        (dir (codes "/src/_x") (codes "_x")
          (entry (dir (codes "/src/_x/b") (codes "b") none_left) none_left))
        none_left))

root_passed : passed_over other src_root src_root (codes "src") ≡ false
unfolding is_avoided pkg_of path_trim_prefix beq virtual_path trim_file_prefix trim_prefix
    with_slash has_suffix has_prefix
root_passed = refl

a_passed : passed_over other src_root (codes "/src/a") (codes "a") ≡ false
unfolding is_avoided pkg_of path_trim_prefix beq virtual_path trim_file_prefix trim_prefix
    with_slash has_suffix has_prefix
a_passed = refl

a-IsOpen : IsOpen other src_root (codes "/src/a") small_tree
unfolding IsOpen
a-IsOpen = (root_passed, inr (inl (a_passed, inl refl)))

a_named : pkg_of other src_root (codes "/src/a") ≡ codes "a"
unfolding pkg_of path_trim_prefix beq virtual_path trim_file_prefix trim_prefix with_slash
    has_suffix has_prefix
a_named = refl

a_not_nil : codes "a" ≢ []
a_not_nil = λ e. true≢false (sym (ap is_nil e))
  where
    is_nil : Bytes → Bool
    is_nil [] = true
    is_nil (c ∷ cs) = false

walk_dir-IsOpen_example : In (codes "a") (walk_dir other src_root small_tree)
walk_dir-IsOpen_example =
    (walk_dir-IsOpen other src_root small_tree (codes "a")).1
      (codes "/src/a", a-IsOpen, a_named, a_not_nil)
