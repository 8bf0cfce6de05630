-- ===== src/References/Answer/Collected.antt =====
-- langserver/references.go: what textDocument/references answers.
use go_langserver.References.Answer.{
  Referenced, ReferencesError, search_failed, package_scope, Location, ReferenceParams,
}
use go_langserver.Util.{Os, path_has_prefix}
use go_langserver.Common.Result.{Result, ok, err}
use go_langserver.Common.{Bytes, List, Option, [], false, none, some, true, ℕ, ◌∷◌, ◌≡◌, ◌≢◌, ◌⊎◌}

-- An exported object that is declared in the scope of its package.
abbrev pub IsPackageLevel : Referenced → Type 0
IsPackageLevel obj = (obj.exported ≡ true) × (obj.parent ≡ package_scope)

-- The declaration alone if it is asked for and its package is in the workspace, and else nothing.
abbrev pub IsDeclared : Os → Bytes → ReferenceParams → Bytes → Referenced → List Location → Type 0
IsDeclared os root params path obj ls =
    ((params.include_declaration ≡ true)
      × (path_has_prefix os path root ≡ true)
      × (ls ≡ obj.declaration ∷ []))
    ⊎ (((params.include_declaration ≡ false) ⊎ (path_has_prefix os path root ≡ false)) × (ls ≡ []))

-- The locations without an error if there are any or no search has failed, and else its error.
abbrev pub IsReplied : List Location → Option ℕ → Result ReferencesError (List Location) → Type 0
IsReplied ls e r =
    (((ls ≢ []) ⊎ (e ≡ none)) × (r ≡ ok ls))
    ⊎ ((ls ≡ []) × (why : ℕ) × (e ≡ some why) × (r ≡ err (search_failed why)))
