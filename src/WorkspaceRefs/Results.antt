-- ===== src/WorkspaceRefs/Results.antt =====
-- langserver/workspace_refs.go: what the emitted references add to the results.
use go_langserver.Refs.Inspect.{Ref}
use go_langserver.Lsp.{Location}
use go_langserver.Util.{Os}
use go_langserver.Position.Ranges.{LinePosition, go_range_to_lsp_location}
use go_langserver.Symbol.Descriptor.{SymbolDescriptor, descriptor_contains}
use go_langserver.Common.Result.{Result, Result-cases, ok}
use go_langserver.WorkspaceRefs.{
  DefPackage, StreamEvent, deadline, def_symbol_descriptor, done, found, tick,
}
use go_langserver.WorkspaceRefs.Patches.{founds, is_quiet}
use go_langserver.WorkspaceRefs.Handle.{
  WorkspaceParams, WorkEvent, LoadEnd, ref_emitted, ticked, load_ended, timed_out,
  workspace_refs_typecheck, workspace_refs_from_pkg, after_type_check_workspace, work_results,
  stream_events,
}
use mathlib.Core.Path.{subst}
use go_langserver.Common.{
  All, Bool, Bool-cases, Bytes, In, List, Option, [], any, ap, arith, beq, false, if◌then◌else◌,
  inl, inr, length, none, not, refl, some, sym, true, ℕ, ◌++◌, ◌↔◌, ◌∙◌, ◌∷◌, ◌≡◌, ◌≤◌,
}
use go_langserver.WorkspaceRefs.Chosen.{Option-cases, member_iff}

same_some : {A : Type 0} (a b : A) → some a ≡ some b → a ≡ b
same_some a b e = ap (λ o. elim o [ none ↦ a | some x ↦ x ]) e

-- Neither the end of the loading nor that of the context.
abbrev pub goes_on : WorkEvent → Bool
goes_on (ref_emitted path r) = true
goes_on ticked = true
goes_on (load_ended e) = false
goes_on timed_out = false

module _ (os : Os) (find : Bytes → Option DefPackage) (find_package : Bytes → Result ℕ DefPackage)
    (fset : ℕ → LinePosition) (params : WorkspaceParams) where
  abbrev pub from_pkg : Ref → Option (Location × SymbolDescriptor)
  from_pkg = workspace_refs_from_pkg os find find_package fset params

  -- The descriptor of the definition that a reference is to, which the query describes, and its place.
  abbrev pub IsDescribed : Ref → Location × SymbolDescriptor → Type 0
  IsDescribed r (location, desc) =
      (def_symbol_descriptor find_package r.def ≡ ok desc)
      × (descriptor_contains desc params.query ≡ true)
      × (location ≡ go_range_to_lsp_location fset os r.start r.end)

  from_pkg_ok :
      (r : Ref) (desc : SymbolDescriptor)
      → def_symbol_descriptor find_package r.def ≡ ok desc
      → from_pkg r ≡ (
          if not (descriptor_contains desc params.query)
          then none
          else some (go_range_to_lsp_location fset os r.start r.end, desc))
  unfolding workspace_refs_from_pkg
  from_pkg_ok r desc e = rw (e, workspace_refs_from_pkg)

  from_pkg-some :
      (r : Ref) (x : Location × SymbolDescriptor) → from_pkg r ≡ some x → IsDescribed r x
  unfolding workspace_refs_from_pkg
  from_pkg-some r x h = elim (Result-cases (def_symbol_descriptor find_package r.def)) [
    | inl (desc, e) ↦ elim (Bool-cases (descriptor_contains desc params.query)) [
      | inl c ↦
          let q : from_pkg r ≡ some (go_range_to_lsp_location fset os r.start r.end, desc) =
            rw (from_pkg_ok r desc e, c) in
          subst (IsDescribed r) (same_some _ x (sym q ∙ h)) (e, c, refl)
      | inr c ↦ let q : from_pkg r ≡ none = rw (from_pkg_ok r desc e, c) in let n = sym q ∙ h in cc
    ]
    | inr (inl (w, e)) ↦
        let q : from_pkg r ≡ none = rw (e, workspace_refs_from_pkg) in let n = sym q ∙ h in cc
    | inr (inr e) ↦
        let q : from_pkg r ≡ none = rw (e, workspace_refs_from_pkg) in let n = sym q ∙ h in cc
  ]

  pub from_pkg-IsDescribed :
      (r : Ref) (x : Location × SymbolDescriptor) → (from_pkg r ≡ some x) ↔ IsDescribed r x
  from_pkg-IsDescribed r x = (
    from_pkg-some r x,
    λ (e, c, l). rw (from_pkg_ok r x.1 e, c) (ap (λ k. some (k, x.1)) (sym l)),
  )

  abbrev pub after_check : List Bytes → Bytes → Ref → Option (Location × SymbolDescriptor)
  after_check = after_type_check_workspace os find find_package fset params

  pub after_check_iff :
      (unvendored : List Bytes) (path : Bytes) (r : Ref) (x : Location × SymbolDescriptor)
      → (after_check unvendored path r ≡ some x) ↔ (In path unvendored × (from_pkg r ≡ some x))
  unfolding after_type_check_workspace
  after_check_iff unvendored path r x = elim (Bool-cases (any (beq path) unvendored)) [
    | inl e ↦
        rw (e, after_type_check_workspace) (λ h. ((member_iff path unvendored).0 e, h), λ (i, h). h)
    | inr e ↦
        rw (e, after_type_check_workspace)
          (λ h. cc, λ (i, h). let e' = (member_iff path unvendored).1 i in cc)
  ]

  abbrev pub results_of : List Bytes → List WorkEvent → List (Location × SymbolDescriptor)
  results_of = work_results os find find_package fset params

  abbrev pub events_for :
      List Bytes → List WorkEvent → List (StreamEvent (Location × SymbolDescriptor))
  events_for = stream_events os find find_package fset params

  pub founds_events :
      (unvendored : List Bytes) (es : List WorkEvent)
      → founds (events_for unvendored es) ≡ results_of unvendored es
  unfolding stream_events work_results
  founds_events unvendored [] = refl
  founds_events unvendored (ref_emitted path r ∷ es) =
      elim (Option-cases (after_check unvendored path r)) [
        | inl e ↦ rw (e, stream_events, work_results) (founds_events unvendored es)
        | inr (x, e) ↦
            rw (e, stream_events, work_results) (ap (λ l. x ∷ l) (founds_events unvendored es))
      ]
  founds_events unvendored (ticked ∷ es) = founds_events unvendored es
  founds_events unvendored (load_ended e ∷ es) = founds_events unvendored es
  founds_events unvendored (timed_out ∷ es) = founds_events unvendored es

  -- One of the events is a reference whose result is this one.
  abbrev pub IsResultOf : List Bytes → List WorkEvent → Location × SymbolDescriptor → Type 0
  IsResultOf unvendored es x =
      (path : Bytes) × (r : Ref) × In (ref_emitted path r) es
      × (after_check unvendored path r ≡ some x)

  result_later :
      (unvendored : List Bytes) (e : WorkEvent) (es : List WorkEvent)
      (x : Location × SymbolDescriptor)
      → IsResultOf unvendored es x
      → IsResultOf unvendored (e ∷ es) x
  result_later unvendored e es x (path, r, i, q) = (path, r, inr i, q)

  pub results_of-IsResultOf :
      (unvendored : List Bytes) (es : List WorkEvent) (x : Location × SymbolDescriptor)
      → In x (results_of unvendored es)
      → IsResultOf unvendored es x
  unfolding work_results
  results_of-IsResultOf unvendored [] x i = absurd i
  results_of-IsResultOf unvendored (ref_emitted path r ∷ es) x i =
      let later = result_later unvendored (ref_emitted path r) es x in
      elim (Option-cases (after_check unvendored path r)) [
        | inl e ↦
            let q : results_of unvendored (ref_emitted path r ∷ es) ≡ results_of unvendored es =
              rw (e, work_results) in
            later (results_of-IsResultOf unvendored es x (subst (In x) q i))
        | inr (y, e) ↦
            let q : results_of unvendored (ref_emitted path r ∷ es) ≡ y ∷ results_of unvendored es =
              rw (e, work_results) in
            elim (subst (In x) q i) [
              | inl p ↦ (path, r, inl refl, e ∙ ap some (sym p))
              | inr j ↦ later (results_of-IsResultOf unvendored es x j)
            ]
      ]
  results_of-IsResultOf unvendored (ticked ∷ es) x i =
      result_later unvendored ticked es x (results_of-IsResultOf unvendored es x i)
  results_of-IsResultOf unvendored (load_ended e ∷ es) x i =
      result_later unvendored (load_ended e) es x (results_of-IsResultOf unvendored es x i)
  results_of-IsResultOf unvendored (timed_out ∷ es) x i =
      result_later unvendored timed_out es x (results_of-IsResultOf unvendored es x i)

  pub IsResultOf-results_of :
      (unvendored : List Bytes) (es : List WorkEvent) (x : Location × SymbolDescriptor)
      (path : Bytes) (r : Ref)
      → In (ref_emitted path r) es
      → after_check unvendored path r ≡ some x
      → In x (results_of unvendored es)
  unfolding work_results
  IsResultOf-results_of unvendored [] x path r i q = absurd i
  IsResultOf-results_of unvendored (e ∷ es) x path r (inl p) q =
      subst (λ z. In x (results_of unvendored (z ∷ es))) p (rw (q, work_results) (inl refl))
  IsResultOf-results_of unvendored (ref_emitted path' r' ∷ es) x path r (inr i) q =
      let rest = IsResultOf-results_of unvendored es x path r i q in
      elim (Option-cases (after_check unvendored path' r')) [
        | inl e ↦ rw (e, work_results) rest
        | inr (y, e) ↦ rw (e, work_results) (inr rest)
      ]
  IsResultOf-results_of unvendored (ticked ∷ es) x path r (inr i) q =
      IsResultOf-results_of unvendored es x path r i q
  IsResultOf-results_of unvendored (load_ended e ∷ es) x path r (inr i) q =
      IsResultOf-results_of unvendored es x path r i q
  IsResultOf-results_of unvendored (timed_out ∷ es) x path r (inr i) q =
      IsResultOf-results_of unvendored es x path r i q

  pub results_of-append :
      (unvendored : List Bytes) (es fs : List WorkEvent)
      → results_of unvendored (es ++ fs) ≡ results_of unvendored es ++ results_of unvendored fs
  unfolding work_results
  results_of-append unvendored [] fs = refl
  results_of-append unvendored (ref_emitted path r ∷ es) fs =
      let rest = results_of-append unvendored es fs in
      elim (Option-cases (after_check unvendored path r)) [
        | inl e ↦ rw (e, work_results) rest
        | inr (y, e) ↦ rw (e, work_results) (ap (λ l. y ∷ l) rest)
      ]
  results_of-append unvendored (ticked ∷ es) fs = results_of-append unvendored es fs
  results_of-append unvendored (load_ended e ∷ es) fs = results_of-append unvendored es fs
  results_of-append unvendored (timed_out ∷ es) fs = results_of-append unvendored es fs

  pub length-results_of :
      (unvendored : List Bytes) (es : List WorkEvent)
      → length (results_of unvendored es) ≤ length es
  unfolding work_results
  length-results_of unvendored [] = omega arith
  length-results_of unvendored (ref_emitted path r ∷ es) =
      let rest = length-results_of unvendored es in
      elim (Option-cases (after_check unvendored path r)) [
        | inl e ↦ rw (e, work_results) (omega (arith, rest))
        | inr (y, e) ↦ rw (e, work_results) (omega (arith, rest))
      ]
  length-results_of unvendored (ticked ∷ es) = omega (arith, length-results_of unvendored es)
  length-results_of unvendored (load_ended e ∷ es) = omega (arith, length-results_of unvendored es)
  length-results_of unvendored (timed_out ∷ es) = omega (arith, length-results_of unvendored es)

  pub quiet_events :
      (unvendored : List Bytes) (es : List WorkEvent)
      → All (λ e. goes_on e ≡ true) es
      → All (λ e. is_quiet e ≡ true) (events_for unvendored es)
  unfolding stream_events
  quiet_events unvendored [] h = tt
  quiet_events unvendored (ref_emitted path r ∷ es) (h, hs) =
      let rest = quiet_events unvendored es hs in
      elim (Option-cases (after_check unvendored path r)) [
        | inl e ↦ rw (e, stream_events) rest
        | inr (y, e) ↦ rw (e, stream_events) (refl, rest)
      ]
  quiet_events unvendored (ticked ∷ es) (h, hs) = (refl, quiet_events unvendored es hs)
  quiet_events unvendored (load_ended e ∷ es) (h, hs) = cc
  quiet_events unvendored (timed_out ∷ es) (h, hs) = cc

  pub events_for_end :
      (unvendored : List Bytes) (es : List WorkEvent) (e : LoadEnd)
      → events_for unvendored (es ++ load_ended e ∷ [])
        ≡ events_for unvendored es ++ done (workspace_refs_typecheck e) ∷ []
  unfolding stream_events
  events_for_end unvendored [] e = refl
  events_for_end unvendored (ref_emitted path r ∷ es) e =
      let rest = events_for_end unvendored es e in
      elim (Option-cases (after_check unvendored path r)) [
        | inl q ↦ rw (q, stream_events) rest
        | inr (y, q) ↦ rw (q, stream_events) (ap (λ l. found y ∷ l) rest)
      ]
  events_for_end unvendored (ticked ∷ es) e = ap (λ l. tick ∷ l) (events_for_end unvendored es e)
  events_for_end unvendored (load_ended f ∷ es) e =
      ap (λ l. done (workspace_refs_typecheck f) ∷ l) (events_for_end unvendored es e)
  events_for_end unvendored (timed_out ∷ es) e =
      ap (λ l. deadline ∷ l) (events_for_end unvendored es e)
