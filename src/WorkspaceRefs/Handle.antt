-- ===== src/WorkspaceRefs/Handle.antt =====
-- langserver/workspace_refs.go: handleWorkspaceReferences with workspaceRefsTypecheck and
-- workspaceRefsFromPkg. The loader and Config.Refs are a list of what they do: the packages that the
-- loader has checked may be walked at the same time, so their references come in any order, with the
-- ticks of the timer in between.
use go_langserver.Refs.Inspect.{Ref}
use go_langserver.Lsp.{Location}
use go_langserver.Position.Ranges.{LinePosition, go_range_to_lsp_location}
use go_langserver.Util.{Os}
use go_langserver.Common.Result.{Result, ok, err, panics}
use go_langserver.Common.Int.{ℤ}
use go_langserver.Symbol.Descriptor.{SymbolDescriptor, DescriptorMap, descriptor_contains}
use go_langserver.WorkspaceRefs.{
  StreamEvent, found, tick, done, deadline, Stream, WorkspaceError, DefPackage, choose_packages,
  def_symbol_descriptor, stream_references,
}
use go_langserver.Common.{
  Bool, Bytes, List, Option, [], any, beq, false, if◌then◌else◌, none, not, some, true, ℕ, ◌&&◌,
  ◌∷◌,
}

-- lspext.WorkspaceReferencesParams; `dirs` is the hint of that name, a list of strings if it is there.
pub record WorkspaceParams : Type 0 where
  pub query : DescriptorMap
  pub dirs : Option (List Bytes)
  pub limit : ℤ

-- What conf.Load has returned, with the errors of the context and of errsToDiagnostics then.
pub record LoadEnd : Type 0 where
  pub has_program : Bool
  pub load_error : Option ℕ
  pub context_error : Option ℕ
  pub diagnostics_error : Option ℕ

abbrev is_error : Option ℕ → Bool
is_error none = false
is_error (some e) = true

-- The error of workspaceRefsTypecheck.
unfoldable pub workspace_refs_typecheck : LoadEnd → Option ℕ
workspace_refs_typecheck e =
    if is_error e.load_error && not e.has_program
    then e.load_error
    else if is_error e.context_error
    then e.context_error
    else e.diagnostics_error

-- Refs emits a reference in a package of this path; the timer ticks; the loading ends; the context is
-- done.
pub data WorkEvent : Type 0 where
  ref_emitted : Bytes → Ref → WorkEvent
  ticked : WorkEvent
  load_ended : LoadEnd → WorkEvent
  timed_out : WorkEvent

module _ (os : Os) (find : Bytes → Option DefPackage) (find_package : Bytes → Result ℕ DefPackage)
    (fset : ℕ → LinePosition) (params : WorkspaceParams) where
  -- The function that workspaceRefsFromPkg gives to Refs. Its panic ends the walk of the package.
  unfoldable pub workspace_refs_from_pkg : Ref → Option (Location × SymbolDescriptor)
  unfolding def_symbol_descriptor descriptor_contains go_range_to_lsp_location
  workspace_refs_from_pkg r = elim (def_symbol_descriptor find_package r.def) [
    | err e ↦ none
    | panics ↦ none
    | ok desc ↦
        if not (descriptor_contains desc params.query)
        then none
        else some (go_range_to_lsp_location fset os r.start r.end, desc)
  ]

  -- afterTypeCheck calls it for a package of interest.
  unfoldable pub after_type_check_workspace :
      List Bytes → Bytes → Ref → Option (Location × SymbolDescriptor)
  unfolding workspace_refs_from_pkg
  after_type_check_workspace unvendored path r =
      if any (beq path) unvendored then workspace_refs_from_pkg r else none

  unfoldable pub work_results : List Bytes → List WorkEvent → List (Location × SymbolDescriptor)
  unfolding after_type_check_workspace
  work_results unvendored [] = []
  work_results unvendored (ref_emitted path r ∷ es) =
      let rest = work_results unvendored es in
      elim (after_type_check_workspace unvendored path r) [ none ↦ rest | some x ↦ x ∷ rest ]
  work_results unvendored (ticked ∷ es) = work_results unvendored es
  work_results unvendored (load_ended e ∷ es) = work_results unvendored es
  work_results unvendored (timed_out ∷ es) = work_results unvendored es

  -- What the loop of the handler sees of it.
  unfoldable pub stream_events :
      List Bytes → List WorkEvent → List (StreamEvent (Location × SymbolDescriptor))
  unfolding after_type_check_workspace workspace_refs_typecheck
  stream_events unvendored [] = []
  stream_events unvendored (ref_emitted path r ∷ es) =
      let rest = stream_events unvendored es in
      elim (after_type_check_workspace unvendored path r) [ none ↦ rest | some x ↦ found x ∷ rest ]
  stream_events unvendored (ticked ∷ es) = tick ∷ stream_events unvendored es
  stream_events unvendored (load_ended e ∷ es) =
      done (workspace_refs_typecheck e) ∷ stream_events unvendored es
  stream_events unvendored (timed_out ∷ es) = deadline ∷ stream_events unvendored es

  -- The handler; `late` comes in after its last update. Without packages nothing is streamed.
  unfoldable pub handle_workspace_references :
      List Bytes
      → List WorkEvent
      → List WorkEvent
      → Option (Stream (Location × SymbolDescriptor))
        × Option (Result WorkspaceError (List (Location × SymbolDescriptor)))
  unfolding choose_packages work_results stream_events stream_references
  handle_workspace_references under_root late es =
      let (pkgs, unvendored) = choose_packages os find params.dirs under_root in
      elim pkgs [
        | [] ↦ (none, some (ok []))
        | p ∷ ps ↦
            let (stream, result) =
              stream_references params.limit (work_results unvendored late)
                (stream_events unvendored es) in
            (some stream, result)
      ]
