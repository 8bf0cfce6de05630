-- ===== src/WorkspaceRefs/Wanted.antt =====
-- langserver/workspace_refs.go: which references workspace/xreferences answers with.
use go_langserver.Refs.Inspect.{Ref}
use go_langserver.Lsp.{Location}
use go_langserver.Util.{Os}
use go_langserver.Position.Ranges.{LinePosition}
use go_langserver.Symbol.Descriptor.{SymbolDescriptor}
use go_langserver.Common.Result.{Result, ok}
use go_langserver.WorkspaceRefs.{
  DefPackage, WorkspaceError, choose_packages, done, xlimit, stream_references,
}
use go_langserver.WorkspaceRefs.Patches.{stream_references-patches}
use go_langserver.WorkspaceRefs.Handle.{
  WorkspaceParams, WorkEvent, LoadEnd, ref_emitted, load_ended, workspace_refs_typecheck,
  handle_workspace_references,
}
use go_langserver.Common.{
  All, Bytes, In, List, Option, [], ap, arith, inl, inr, length, length-append, none, refl, some,
  sym, take, take_all, true, ℕ, ◌++◌, ◌+◌, ◌↔◌, ◌∙◌, ◌∷◌, ◌≡◌, ◌≤◌, ◌⊎◌,
}
use go_langserver.WorkspaceRefs.Chosen.{IsOfInterest, chosen-IsOfInterest, IsOfInterest-chosen}
use go_langserver.WorkspaceRefs.Results.{
  results_of-IsResultOf, IsResultOf-results_of, results_of-append, length-results_of,
  from_pkg-IsDescribed, after_check_iff, results_of, events_for_end, events_for, founds_events,
  quiet_events, IsDescribed, goes_on,
}

List-cases : {A : Type 0} (l : List A) → (l ≡ []) ⊎ ((x : A) × (xs : List A) × (l ≡ x ∷ xs))
List-cases [] = inl refl
List-cases (x ∷ xs) = inr (x, xs, refl)

module _ (os : Os) (find : Bytes → Option DefPackage) (find_package : Bytes → Result ℕ DefPackage)
    (fset : ℕ → LinePosition) (params : WorkspaceParams) where
  -- A reference that is emitted in a package of interest, to a definition that the query describes.
  abbrev pub IsWanted : List Bytes → List WorkEvent → Location × SymbolDescriptor → Type 0
  IsWanted under_root es x =
      (path : Bytes) × (r : Ref) × In (ref_emitted path r) es
      × IsOfInterest os find params.dirs under_root path
      × IsDescribed os find find_package fset params r x

  abbrev unvendored_of : List Bytes → List Bytes
  unvendored_of under_root = (choose_packages os find params.dirs under_root).1

  results_of-IsWanted :
      (under_root : List Bytes) (es : List WorkEvent) (x : Location × SymbolDescriptor)
      → In x (results_of os find find_package fset params (unvendored_of under_root) es)
        ↔ IsWanted under_root es x
  results_of-IsWanted under_root es x =
      let unvendored = unvendored_of under_root in
      (
        λ i.
            let (path, r, j, q) =
              results_of-IsResultOf os find find_package fset params unvendored es x i in
            let (member, found_it) =
              (after_check_iff os find find_package fset params unvendored path r x).0 q in
            (
              path,
              r,
              j,
              chosen-IsOfInterest os find params.dirs under_root path member,
              (from_pkg-IsDescribed os find find_package fset params r x).0 found_it,
            ),
        λ (path, r, j, interest, described).
            IsResultOf-results_of os find find_package fset params unvendored es x path r j (
              (after_check_iff os find find_package fset params unvendored path r x).1 (
                (IsOfInterest-chosen os find params.dirs under_root path interest).0,
                (from_pkg-IsDescribed os find find_package fset params r x).1 described,
              )),
      )

  abbrev handled :
      List Bytes
      → List WorkEvent
      → List WorkEvent
      → Option (Result WorkspaceError (List (Location × SymbolDescriptor)))
  handled under_root late es =
      (handle_workspace_references os find find_package fset params under_root late es).1

  handled_nothing :
      (under_root : List Bytes) (late es : List WorkEvent)
      → (choose_packages os find params.dirs under_root).0 ≡ []
      → handled under_root late es ≡ some (ok [])
  unfolding handle_workspace_references
  handled_nothing under_root late es e = rw (e, handled, handle_workspace_references)

  handled_stream :
      (under_root : List Bytes) (late es : List WorkEvent) (p : Bytes) (ps : List Bytes)
      → (choose_packages os find params.dirs under_root).0 ≡ p ∷ ps
      → handled under_root late es
        ≡ (stream_references params.limit
            (results_of os find find_package fset params (unvendored_of under_root) late)
            (events_for os find find_package fset params (unvendored_of under_root) es)).1
  unfolding handle_workspace_references
  handled_stream under_root late es p ps e = rw (e, handled, handle_workspace_references)

  handled_results :
      (under_root : List Bytes) (late es : List WorkEvent) (e : LoadEnd) (p : Bytes)
      (ps : List Bytes)
      → (choose_packages os find params.dirs under_root).0 ≡ p ∷ ps
      → All (λ w. goes_on w ≡ true) es
      → workspace_refs_typecheck e ≡ none
      → length es + length late ≤ xlimit params.limit
      → handled under_root late (es ++ load_ended e ∷ [])
        ≡ some (
            ok
              (results_of os find find_package fset params (unvendored_of under_root) (es ++ late)))
  handled_results under_root late es e p ps c q d b =
      let unvendored = unvendored_of under_root in
      let found_before = founds_events os find find_package fset params unvendored es in
      let events =
        events_for_end os find find_package fset params unvendored es e
        ∙ ap (λ o. events_for os find find_package fset params unvendored es ++ done o ∷ []) d in
      let all = sym (results_of-append os find find_package fset params unvendored es late) in
      let streamed =
        (stream_references-patches params.limit
          (results_of os find find_package fset params unvendored late)
          (events_for os find find_package fset params unvendored es)
          (quiet_events os find find_package fset params unvendored es q)).0 in
      let small : length (
            results_of os find find_package fset params unvendored es
            ++ results_of os find find_package fset params unvendored late)
          ≤ xlimit params.limit =
        omega (
          arith,
          length-append (results_of os find find_package fset params unvendored es)
              (results_of os find find_package fset params unvendored late),
          length-results_of os find find_package fset params unvendored es,
          length-results_of os find find_package fset params unvendored late,
          b,
        ) in
      handled_stream under_root late (es ++ load_ended e ∷ []) p ps c
      ∙ ap
          (λ l.
            (stream_references params.limit
              (results_of os find find_package fset params unvendored late) l).1)
          events
      ∙ streamed
      ∙ ap
          (λ l. some (
            ok (
              take (xlimit params.limit)
                (l ++ results_of os find find_package fset params unvendored late))))
          found_before
      ∙ ap (λ l. some (ok l)) (take_all (xlimit params.limit) _ small)
      ∙ ap (λ l. some (ok l)) all

  -- Where the loading ends without an error, and no more has happened until then and after the last
  -- update than the limit allows references, workspace/xreferences answers, and a reference is in the
  -- answer exactly if it was emitted in a package of interest, which lies under the root, is found and
  -- hinted, or in its external tests, and is to a definition whose descriptor can be made and contains
  -- the query.
  pub handle_workspace_references-IsWanted :
      (under_root : List Bytes) (late es : List WorkEvent) (e : LoadEnd)
      → All (λ w. goes_on w ≡ true) es
      → workspace_refs_typecheck e ≡ none
      → length es + length late ≤ xlimit params.limit
      → (answer : List (Location × SymbolDescriptor)) × ((handle_workspace_references os find
            find_package fset params under_root late
            (es ++ load_ended e ∷ [])).1
          ≡ some (ok answer))
        × ((x : Location × SymbolDescriptor) → In x answer ↔ IsWanted under_root (es ++ late) x)
  handle_workspace_references-IsWanted under_root late es e q d b =
      elim (List-cases (choose_packages os find params.dirs under_root).0) [
        | inl c ↦ (
          [],
          handled_nothing under_root late (es ++ load_ended e ∷ []) c,
          λ x. (
            λ i. absurd i,
            λ (path, r, j, interest, described).
                absurd ((IsOfInterest-chosen os find params.dirs under_root path interest).1 c),
          ),
        )
        | inr (p, ps, c) ↦ (
          results_of os find find_package fset params (unvendored_of under_root) (es ++ late),
          handled_results under_root late es e p ps c q d b,
          results_of-IsWanted under_root (es ++ late),
        )
      ]
