-- ===== src/Util.antt =====
-- langserver/util/util.go with os_other.go and os_windows.go: paths, file URIs and vendored import
-- paths. `url.Parse` of the standard library is the parameter `parse_url`: the path of the URL, or
-- `none` for a URL that it refuses.
pub mod Prefix
pub mod Vendor
pub mod Examples
use go_langserver.Common.{
  Bool, Bytes, Option, [], after_last, beq, codes, contains, drop, has_prefix, has_suffix,
  if◌then◌else◌, length, map, none, some, to_lower, trim_prefix, true, ◌++◌, ◌==◌, ◌||◌,
}

-- The build tag of os_other.go or of os_windows.go.
pub data Os : Type 0 where
  other windows : Os

-- filepath.ToSlash on Windows
unfoldable pub to_slash : Bytes → Bytes
to_slash s = map (λ c. if c == b'\\' then b'/' else c) s

-- filepath.FromSlash on Windows
unfoldable pub from_slash : Bytes → Bytes
from_slash s = map (λ c. if c == b'/' then b'\\' else c) s

-- Windows: `if !strings.HasPrefix(path, "/") { path = "/" + path }`
unfoldable pub rooted : Bytes → Bytes
rooted path = if has_prefix path (codes "/") then path else codes "/" ++ path

unfoldable pub virtual_path : Os → Bytes → Bytes
unfolding to_slash rooted
virtual_path other path = path
virtual_path windows path = to_lower (rooted (to_slash path))

unfoldable pub real_path : Os → Bytes → Bytes
unfolding from_slash
real_path other path = path
real_path windows path = to_lower (from_slash (trim_prefix path (codes "/")))

unfoldable pub trim_file_prefix : Bytes → Bytes
trim_file_prefix s = trim_prefix s (codes "file://")

-- `if !strings.HasSuffix(prefix, "/") { prefix += "/" }`
unfoldable pub with_slash : Bytes → Bytes
with_slash prefix = if has_suffix prefix (codes "/") then prefix else prefix ++ codes "/"

-- The form in which the path functions compare their arguments.
abbrev pub normal : Os → Bytes → Bytes
normal os s = virtual_path os (trim_file_prefix s)

unfoldable pub path_has_prefix : Os → Bytes → Bytes → Bool
path_has_prefix os s prefix =
    let s' = normal os s in
    let p = normal os prefix in
    if beq s' p then true else beq s' (with_slash p) || has_prefix s' (with_slash p)

unfoldable pub path_trim_prefix : Os → Bytes → Bytes → Bytes
path_trim_prefix os s prefix =
    let s' = normal os s in
    let p = normal os prefix in if beq s' p then [] else trim_prefix s' (with_slash p)

unfoldable pub path_equal : Os → Bytes → Bytes → Bool
unfolding path_trim_prefix
path_equal os a b = beq (path_trim_prefix os a b) []

unfoldable pub is_vendor_dir : Bytes → Bool
is_vendor_dir dir = has_prefix dir (codes "vendor/") || contains dir (codes "/vendor/")

unfoldable pub vendorless_import_path : Bytes → Bytes
vendorless_import_path ipath = elim (after_last ipath (codes "/vendor/")) [
  | some rest ↦ rest
  | none ↦
      if has_prefix ipath (codes "vendor/") then drop (length (codes "vendor/")) ipath else ipath
]

unfoldable pub is_uri : Bytes → Bool
is_uri s = has_prefix s (codes "file:///")

unfoldable pub path_to_uri : Os → Bytes → Bytes
unfolding rooted
path_to_uri os path =
    codes "file://" ++ (if beq path [] then path else rooted (virtual_path os path))

unfoldable pub uri_to_path : (Bytes → Option Bytes) → Bytes → Bytes
uri_to_path parse_url uri = elim (parse_url uri) [ none ↦ trim_file_prefix uri | some path ↦ path ]

unfoldable pub uri_to_real_path : Os → (Bytes → Option Bytes) → Bytes → Bytes
unfolding uri_to_path
uri_to_real_path os parse_url uri = real_path os (uri_to_path parse_url uri)
