-- ===== src/References/Answer.antt =====
-- langserver/references.go: handleTextDocumentReferences and classify, with findObject, usesOf and
-- sameObj. What the type checker and a search of packages give are in the arguments.
pub mod Collected
pub mod Examples
use go_langserver.References.{ref_stream_and_collect, Input}
use go_langserver.References.Users.{Graphs, references_loop, Round}
use go_langserver.Util.{Os, path_has_prefix, is_uri}
use go_langserver.Hover.Target.{TokenPosition}
use go_langserver.Lsp.{Location, DocumentUri}
use go_langserver.Common.Result.{Result, ok, err, panics}
use go_langserver.Common.Int.{ℤ, eqb_ℤ}
use go_langserver.Hover.Handle.{TypecheckError, invalid_node}
use go_langserver.Common.{
  Bool, Bytes, List, Option, [], beq, codes, false, if◌then◌else◌, none, not, some, trim_suffix,
  true, ℕ, ◌&&◌, ◌++◌, ◌==◌, ◌||◌, ◌∷◌,
}

-- obj.Parent(): nil, the scope of the package, or another.
pub data Parent : Type 0 where
  no_parent package_scope inner_scope : Parent

-- The object at the position; `pkg` is obj.Pkg().Path(), if it has a package.
pub record Referenced : Type 0 where
  pub pkg : Option Bytes
  pub builtin : Bool
  pub exported : Bool
  pub parent : Parent
  pub declaration : Location

pub data ReferencesError : Type 0 where
  out_of_workspace : DocumentUri → ReferencesError
  typecheck_failed : TypecheckError → ReferencesError
  object_not_found no_package : ReferencesError
  search_failed : ℕ → ReferencesError

pub record ReferenceParams : Type 0 where
  pub uri : DocumentUri
  pub include_declaration : Bool
  pub xlimit : ℤ

-- The results `global` and `pkglevel`.
unfoldable pub classify : Referenced → Bool × Bool
classify obj = if not obj.exported then (false, false) else elim obj.parent [
  | no_parent ↦ (true, false)
  | package_scope ↦ (true, true)
  | inner_scope ↦ (false, false)
]

-- Objects of go/types: which one it is, the file and the offset where it is declared, and for a
-- PkgName the package that it imports.
pub record Object : Type 0 where
  pub identity : ℕ
  pub position : TokenPosition
  pub imported : Option ℕ

abbrev same_imported : Option ℕ → Option ℕ → Bool
same_imported (some a) (some b) = a == b
same_imported (some a) none = false
same_imported none b = false

unfoldable pub same_obj : Object → Object → Bool
same_obj x y = x.identity == y.identity || same_imported x.imported y.imported

-- `good`
abbrev is_at : TokenPosition → Option Object → Bool
is_at objposn none = false
is_at objposn (some o) =
    beq o.position.filename objposn.filename && eqb_ℤ o.position.offset objposn.offset

abbrev first_at : TokenPosition → List (Option Object) → Option Object
first_at objposn [] = none
first_at objposn (o ∷ os) = let rest = first_at objposn os in if is_at objposn o then o else rest

-- The values of info.Defs and info.Implicits, each in the order of the iteration; one may be nil.
unfoldable pub find_object :
    List (Option Object) → List (Option Object) → TokenPosition → Option Object
find_object defs implicits objposn = elim (first_at objposn defs) [
  | some o ↦ some o
  | none ↦ first_at objposn implicits
]

-- The identifiers of info.Uses that stand for the object.
unfoldable pub uses_of : {I : Type 0} → Object → List (I × Object) → List I
unfolding same_obj
uses_of query [] = []
uses_of query ((id, obj) ∷ uses) =
    let rest = uses_of query uses in if same_obj query obj then id ∷ rest else rest

-- `if len(locs) == 0 && findRefErr != nil`
abbrev pub answer : List Location → Option ℕ → Result ReferencesError (List Location)
answer locs none = ok locs
answer [] (some e) = err (search_failed e)
answer (l ∷ ls) (some e) = ok (l ∷ ls)

module _ (os : Os) (root_import_path : Bytes) (G : Graphs) where
  -- The declaration, if it is asked for and lies in the workspace.
  unfoldable pub declaration_of : ReferenceParams → Bytes → Referenced → List Location
  unfolding path_has_prefix
  declaration_of params defpkg obj =
      if params.include_declaration && path_has_prefix os defpkg root_import_path
      then obj.declaration ∷ []
      else []

  abbrev pub searched : (List Bytes → List Location) → List (List Bytes) → List Location
  searched sent [] = []
  searched sent (b ∷ bs) = sent b ++ searched sent bs

  -- Everything that is sent to refStreamAndCollect, and findRefErr.
  unfoldable pub sent_references :
      (List Bytes → List Location)
      → List (Round G ℕ)
      → ReferenceParams
      → Bytes
      → Referenced
      → List Location × Option ℕ
  unfolding classify references_loop declaration_of trim_suffix
  sent_references sent rounds params path obj =
      let defpkg = trim_suffix path (codes "_test") in
      let (batches, find_ref_err) = references_loop G (classify obj).1 defpkg [] none rounds in
      (declaration_of params defpkg obj ++ searched sent batches, find_ref_err)

  -- `schedule` puts the ticks of the timer between the references, and `sent` is what the search of a
  -- set of packages sends.
  unfoldable pub handle_text_document_references :
      (List Location → List Input)
      → (List Bytes → List Location)
      → List (Round G ℕ)
      → ReferenceParams
      → Result TypecheckError (Option Referenced)
      → Result ReferencesError (List Location)
  unfolding sent_references ref_stream_and_collect
  handle_text_document_references schedule sent rounds params checked =
      if not (is_uri params.uri) then err (out_of_workspace params.uri) else elim checked [
        | panics ↦ panics
        | err invalid_node ↦ ok []
        | err e ↦ err (typecheck_failed e)
        | ok none ↦ err object_not_found
        | ok (some obj) ↦ elim obj.pkg [
          | none ↦ if obj.builtin then ok [] else err no_package
          | some path ↦
              let (refs, find_ref_err) = sent_references sent rounds params path obj in
              answer (ref_stream_and_collect params.xlimit (schedule refs)).locs find_ref_err
        ]
      ]
