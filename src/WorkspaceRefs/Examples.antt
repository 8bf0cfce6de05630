-- ===== src/WorkspaceRefs/Examples.antt =====
-- langserver/workspace_refs.go: the theorems on three references, a limit of two and one tick, and on one
-- reference in the package a to a function F of the package b.
use go_langserver.WorkspaceRefs.Patches.{founds, joined, stream_references-patches}
use go_langserver.Common.{
  Bytes, In, List, [], arith, codes, none, refl, some, take, true, ℕ, ◌++◌, ◌↔◌, ◌∷◌, ◌≡◌, ◌≤◌,
}
use go_langserver.WorkspaceRefs.Handle.{
  WorkspaceParams, LoadEnd, ref_emitted, ticked, load_ended, workspace_refs_typecheck,
  handle_workspace_references,
}
use go_langserver.WorkspaceRefs.Wanted.{IsWanted, handle_workspace_references-IsWanted}
use go_langserver.Refs.Inspect.{Ref}
use go_langserver.Lsp.{Location}
use go_langserver.Position.Ranges.{LinePosition}
use go_langserver.Symbol.Descriptor.{SymbolDescriptor, text}
use go_langserver.Util.{other}
use go_langserver.WorkspaceRefs.{
  DefPackage, StreamEvent, found, tick, done, stream_references, xlimit,
}
use go_langserver.Common.Result.{ok}
use go_langserver.Common.Int.{pos}

abbrev three : List (StreamEvent ℕ)
three = found 1 ∷ tick ∷ found 2 ∷ found 3 ∷ []

stream_references-patches_example :
    ((stream_references (pos 2) [] (three ++ done none ∷ [])).1
      ≡ some (ok (take (xlimit (pos 2)) (founds three ++ []))))
    × (joined (stream_references (pos 2) [] (three ++ done none ∷ [])).0.patches
        ≡ take (xlimit (pos 2)) (founds three))
stream_references-patches_example =
    stream_references-patches (pos 2) [] three (refl, (refl, (refl, (refl, tt))))

abbrev located_package : Bytes → DefPackage
located_package path = record { dir = codes "/" ++ path; import_path = path }

abbrev asks_for_f : WorkspaceParams
asks_for_f = record { query = (codes "name", text (codes "F")) ∷ []; dirs = none; limit = pos 0 }

abbrev to_f : Ref
to_f = record {
  def = record { import_path = codes "b"; package_name = codes "b"; path = codes "F" };
  start = 1;
  end = 2;
}

abbrev one_place : ℕ → LinePosition
one_place p = record { filename = codes "/a/a.go"; line = pos 1; column = pos p }

abbrev with_errors : LoadEnd
with_errors = record {
  has_program = true;
  load_error = some 1;
  context_error = none;
  diagnostics_error = none;
}

no_error : workspace_refs_typecheck with_errors ≡ none
unfolding workspace_refs_typecheck
no_error = refl

few : 2 ≤ xlimit asks_for_f.limit
unfolding xlimit
few = omega arith

handle_workspace_references-IsWanted_example :
    (answer : List (Location × SymbolDescriptor)) × ((handle_workspace_references other
        (λ p. some (located_package p))
        (λ p. ok (located_package p))
        one_place
        asks_for_f
        (codes "a" ∷ [])
        []
        (ref_emitted (codes "a") to_f ∷ ticked ∷ load_ended with_errors ∷ [])).1
      ≡ some (ok answer))
    × ((x : Location × SymbolDescriptor)
        → In x answer
          ↔ IsWanted other
              (λ p. some (located_package p))
              (λ p. ok (located_package p))
              one_place
              asks_for_f
              (codes "a" ∷ [])
              (ref_emitted (codes "a") to_f ∷ ticked ∷ [])
              x)
handle_workspace_references-IsWanted_example =
    handle_workspace_references-IsWanted other (λ p. some (located_package p))
      (λ p. ok (located_package p)) one_place asks_for_f (codes "a" ∷ []) []
      (ref_emitted (codes "a") to_f ∷ ticked ∷ []) with_errors (refl, (refl, tt)) no_error few
