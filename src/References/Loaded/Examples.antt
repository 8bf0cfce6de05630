-- ===== src/References/Loaded/Examples.antt =====
-- langserver/references.go: the theorem on a package that is loaded between two others.
use go_langserver.References.Answer.{Object}
use go_langserver.References.Loaded.{Target, Loaded}
use go_langserver.Common.{Bytes, List, Option, [], codes, false, none, some, true, ℕ, ◌∷◌}
use go_langserver.Common.Int.{pos}

abbrev in_p : Object
in_p = record {
  identity = 1;
  position = record { filename = codes "/p.go"; offset = pos 4 };
  imported = none;
}

abbrev search_p : Target
search_p = record {
  pkg_in_workspace = λ path. true;
  import_pkgs = λ path. true;
  defpkg = codes "p";
  objposn = record { filename = codes "/p.go"; offset = pos 4 };
}

abbrev loaded_as : Bytes → List (Option Object) → List (ℕ × Object) → Loaded ℕ
loaded_as path defs uses = record {
  path = path;
  defs = defs;
  implicits = [];
  uses = uses;
  canceled = false;
}

abbrev lib_loaded : Loaded ℕ
lib_loaded = loaded_as (codes "lib") [] []

abbrev p_loaded : Loaded ℕ
p_loaded = loaded_as (codes "p") (none ∷ some in_p ∷ []) ((10, in_p) ∷ [])

abbrev user_loaded : Loaded ℕ
user_loaded = loaded_as (codes "user") [] ((20, in_p) ∷ [])
