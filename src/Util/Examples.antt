-- ===== src/Util/Examples.antt =====
-- langserver/util/util.go: a test of PathEqual.
use go_langserver.Common.{beq, codes, has_prefix, has_suffix, refl, trim_prefix, true, ◌≡◌}
use go_langserver.Util.{
  other, path_equal, path_trim_prefix, with_slash, virtual_path, trim_file_prefix,
}

-- A path equals another one that only lacks its last slash.
slash_ignored : path_equal other (codes "/src/pkg/") (codes "/src/pkg") ≡ true
unfolding path_equal beq has_prefix has_suffix trim_prefix with_slash path_trim_prefix virtual_path
    trim_file_prefix
slash_ignored = refl
