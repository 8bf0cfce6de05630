-- ===== src/References/Loaded.antt =====
-- langserver/references.go: findReferences, which looks at each package as the loader hands it over. The
-- calls of AfterTypeCheck are a list in the order in which they take the mutex; each says whether the
-- context is canceled by then.
pub mod Sent
pub mod Examples
use go_langserver.Hover.Target.{TokenPosition}
use go_langserver.Common.Result.{Result, ok, err}
use go_langserver.References.Answer.{Object, find_object, uses_of}
use go_langserver.Common.{
  Bool, Bytes, List, Option, [], beq, codes, false, if◌then◌else◌, none, not, some, trim_suffix,
  true, ◌&&◌, ◌++◌, ◌||◌, ◌∷◌,
}

-- loader.PackageInfo
pub record Loaded (I : Type 0) : Type 0 where
  pub path : Bytes
  pub defs : List (Option Object)
  pub implicits : List (Option Object)
  pub uses : List (I × Object)
  pub canceled : Bool

pub data FindError : Type 0 where
  context_error not_in_package not_reloaded : FindError

-- The variables `qobj` and `afterTypeCheckErr`, and what has been sent.
pub record Finding (I : Type 0) : Type 0 where
  pub qobj : Option Object
  pub after_err : Bool
  pub sent : List I

-- pkgInWorkspace, the keys of lconf.ImportPkgs at the call, defpkg and objposn.
pub record Target : Type 0 where
  pub pkg_in_workspace : Bytes → Bool
  pub import_pkgs : Bytes → Bool
  pub defpkg : Bytes
  pub objposn : TokenPosition

module _ (t : Target) where
  unfoldable pub collect_pkg : Bytes → Bool
  unfolding trim_suffix
  collect_pkg path =
      if t.import_pkgs t.defpkg
      then t.pkg_in_workspace path
      else t.pkg_in_workspace (trim_suffix path (codes "_test"))
        && not (beq (trim_suffix path (codes "_test")) t.defpkg)

  -- lconf.ImportPkgs after lconf.ImportWithTests(defpkg)
  abbrev pub imported : Bytes → Bool
  imported path = t.import_pkgs path || beq path t.defpkg

  unfoldable pub type_check_func_bodies : Bool → Bytes → Bool
  unfolding trim_suffix
  type_check_func_bodies canceled path =
      let p = trim_suffix path (codes "_test") in
      if canceled then false else imported p && (t.pkg_in_workspace p || beq p t.defpkg)

  -- The part under the mutex, for the package `pkg`.
  unfoldable pub record_object : {I : Type 0} → Bytes → Loaded I → Finding I → Finding I
  unfolding find_object
  record_object pkg info f = elim f.qobj [
    | some q ↦ f
    | none ↦
        if not (beq pkg t.defpkg)
        then f
        else elim (find_object info.defs info.implicits t.objposn) [
          | some q ↦ record f { qobj = some q }
          | none ↦ record f { after_err = true }
        ]
  ]

  unfoldable pub collect_uses : {I : Type 0} → Bytes → Loaded I → Finding I → Finding I
  unfolding uses_of collect_pkg
  collect_uses pkg info f = elim f.qobj [
    | none ↦ f
    | some q ↦ if collect_pkg pkg then record f { sent = f.sent ++ uses_of q info.uses } else f
  ]

  unfoldable pub after_type_check : {I : Type 0} → Finding I → Loaded I → Finding I
  unfolding record_object collect_uses type_check_func_bodies trim_suffix
  after_type_check f info =
      let pkg = trim_suffix info.path (codes "_test") in
      if not (type_check_func_bodies info.canceled pkg)
      then f
      else collect_uses pkg info (record_object pkg info f)

  unfoldable pub load : {I : Type 0} → Finding I → List (Loaded I) → Finding I
  unfolding after_type_check
  load f [] = f
  load f (info ∷ infos) = load (after_type_check f info) infos

  -- The result, from the error of the context at the end.
  unfoldable pub outcome : {I : Type 0} → Bool → Finding I → Result FindError (Unit {0})
  outcome ctx_err f = elim f.qobj [
    | some q ↦ ok tt
    | none ↦
        if ctx_err
        then err context_error
        else if f.after_err
        then err not_in_package
        else err not_reloaded
  ]

  abbrev pub new_finding : {I : Type 0} → Finding I
  new_finding = record { qobj = none; after_err = false; sent = [] }

  -- The two flags are the errors of the context at the start and at the end.
  unfoldable pub find_references :
      {I : Type 0} → Bool → Bool → List (Loaded I) → List I × Result FindError (Unit {0})
  unfolding load outcome
  find_references ctx_err ctx_err_after infos =
      if ctx_err
      then ([], err context_error)
      else ((load new_finding infos).sent, outcome ctx_err_after (load new_finding infos))
