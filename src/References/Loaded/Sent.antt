-- ===== src/References/Loaded/Sent.antt =====
-- langserver/references.go: the references that findReferences sends.
use go_langserver.References.Loaded.{
  Target, Loaded, Object, type_check_func_bodies, uses_of, Finding, collect_pkg,
}
use go_langserver.Common.{
  Bool, Bytes, List, [], codes, if◌then◌else◌, some, trim_suffix, ◌&&◌, ◌++◌, ◌∷◌, ◌≡◌,
}

module _ (t : Target) {I : Type 0} where
  abbrev package_path : Loaded I → Bytes
  package_path info = trim_suffix info.path (codes "_test")

  -- A package whose references count.
  abbrev pub is_wanted : Loaded I → Bool
  is_wanted info =
      type_check_func_bodies t info.canceled (package_path info)
      && collect_pkg t (package_path info)

  -- All uses of the object in the packages of interest.
  abbrev pub wanted_uses : Object → List (Loaded I) → List I
  wanted_uses q [] = []
  wanted_uses q (info ∷ infos) =
      (if is_wanted info then uses_of q info.uses else []) ++ wanted_uses q infos

  -- The object has been found, and so much has been sent.
  Has : Object → List I → Finding I → Type 0
  Has q sent f = (f.qobj ≡ some q) × (f.sent ≡ sent)
