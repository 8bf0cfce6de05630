-- ===== src/Loading/Examples.antt =====
-- langserver/loader.go and build_context.go: the theorems on a package with an external test and on a
-- directory with two main packages.
use go_langserver.Loading.Named.{kind_of_file}
use go_langserver.Loading.{
  MultiplePackageError, build_package_for_named_file, file_to_pkg_name, BuildPackage,
  files_in_package,
}
use go_langserver.Loading.Cached.{TypecheckResult, cached_typecheck}
use go_langserver.Common.Result.{ok, panics}
use go_langserver.Common.{
  In, [], beq, codes, false, has_prefix, has_suffix, inl, inr, none, refl, some, ℕ, ◌∷◌, ◌≡◌,
}

abbrev small_pkg : BuildPackage
small_pkg = record {
  import_path = codes "p";
  dir = codes "/p";
  name = codes "p";
  go_files = codes "a.go" ∷ codes "b.go" ∷ [];
  cgo_files = [];
  test_go_files = [];
  xtest_go_files = codes "x_test.go" ∷ [];
}

plain_name : has_suffix small_pkg.name (codes "_test") ≡ false
unfolding has_suffix has_prefix
plain_name = refl

abbrev two_packages : MultiplePackageError
two_packages = (codes "a.go", codes "p") ∷ (codes "b.go", codes "main") ∷ []

abbrev chosen : BuildPackage
chosen = record small_pkg { name = codes "main"; go_files = codes "b.go" ∷ []; xtest_go_files = [] }

b_chosen : build_package_for_named_file small_pkg two_packages (codes "b.go") ≡ some chosen
unfolding build_package_for_named_file files_in_package file_to_pkg_name beq has_suffix has_prefix
b_chosen = refl

b_listed : In (codes "b.go") (kind_of_file small_pkg (file_to_pkg_name two_packages (codes "b.go")))
unfolding file_to_pkg_name beq has_suffix has_prefix
b_listed = inr (inl refl)

-- A check that is cached gives no diagnostics, and one that panicked makes its callers panic.
cached_without_diagnostics :
    (result : TypecheckResult ℕ)
    → cached_typecheck {D = ℕ}
        (λ d f. f)
        (λ path names. inl 1)
        (λ p. ok [])
        (some (some result))
        small_pkg
      ≡ (result, [])
unfolding cached_typecheck
cached_without_diagnostics result = refl

nil_cached :
    cached_typecheck {I = ℕ} {D = ℕ}
      (λ d f. f)
      (λ path names. inl 1)
      (λ p. ok [])
      (some none)
      small_pkg
    ≡ (panics, [])
unfolding cached_typecheck
nil_cached = refl
