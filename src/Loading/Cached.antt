-- ===== src/Loading/Cached.antt =====
-- langserver/loader.go: the function typecheck and cachedTypecheck. The loader and errsToDiagnostics are
-- parameters.
use go_langserver.Loading.{BuildPackage, Program, loaded_files}
use go_langserver.Common.Result.{Result, ok, err, panics}
use go_langserver.Common.{Bytes, List, Option, [], inl, inr, map, none, some, ℕ, ◌⊎◌}

-- A typecheckKey.
pub record TypecheckKey : Type 0 where
  pub import_path : Bytes
  pub src_dir : Bytes
  pub name : Bytes

unfoldable pub typecheck_key : BuildPackage → TypecheckKey
typecheck_key bpkg = record { import_path = bpkg.import_path; src_dir = bpkg.dir; name = bpkg.name }

-- A typecheckResult: the program or the error.
abbrev pub TypecheckResult : Type 0 → Type 0
TypecheckResult I = Result ℕ (Program I)

module _ {I D : Type 0} (join_path : Bytes → Bytes → Bytes)
    (load : Bytes → List Bytes → ℕ ⊎ (Program I × Option ℕ))
    (errs_to_diags : Program I → Result ℕ (List D)) where
  -- The function typecheck, with the diagnostics. The loader gives an error, or a program,
  -- whose errors are left to the diagnostics.
  unfoldable pub typecheck_package : BuildPackage → TypecheckResult I × List D
  unfolding loaded_files
  typecheck_package bpkg =
      elim (load bpkg.import_path (map (join_path bpkg.dir) (loaded_files bpkg))) [
        | inl e ↦ (err e, [])
        | inr (prog, e) ↦ elim (errs_to_diags prog) [
          | ok diags ↦ (ok prog, diags)
          | err e' ↦ (err e', [])
          | panics ↦ (panics, [])
        ]
      ]

  -- cachedTypecheck with what the cache has for the key: nothing, so that the package is checked now and
  -- there are diagnostics; the value of an earlier check, without diagnostics; or the nil that a check
  -- which panicked has left, for which the callers get a nil file set, which panics when they use it.
  unfoldable pub cached_typecheck :
      Option (Option (TypecheckResult I)) → BuildPackage → TypecheckResult I × List D
  unfolding typecheck_package
  cached_typecheck none bpkg = typecheck_package bpkg
  cached_typecheck (some (some result)) bpkg = (result, [])
  cached_typecheck (some none) bpkg = (panics, [])
