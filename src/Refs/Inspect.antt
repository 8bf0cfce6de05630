-- ===== src/Refs/Inspect.antt =====
-- langserver/internal/refs/refs.go: Config.Refs over the syntax of the files. `path_at` is
-- astutil.PathEnclosingInterval for a file; `none` is a panic.
use go_langserver.Refs.{Def}
use go_langserver.Refs.DefInfo.{
  DefError, receiver_not_top_level, not_package_level, EnclosingNode, Known, def_info,
}
use go_langserver.Symbol.Score.{exported_name}
use go_langserver.Common.Result.{Result, ok, err, panics}
use go_langserver.Common.Words.{fields}
use go_langserver.Common.{
  Bool, List, Option, [], any, false, if◌then◌else◌, none, not, some, true, ℕ, ◌++◌, ◌∷◌,
}

-- refs.Ref
pub record Ref : Type 0 where
  pub def : Def
  pub start : ℕ
  pub end : ℕ

abbrev pub Interval : Type 0
Interval = ℕ × ℕ

-- The nodes that the walk tells apart, with their children: an import, a selector with the interval of
-- its Sel, a composite literal with those of its keys that are identifiers, for each element, and others.
mutual
  pub data RefNode : Type 0 where
    import_spec : Interval → RefNodes → RefNode
    selector_expr : Interval → RefNodes → RefNode
    composite_lit : List (Option Interval) → RefNodes → RefNode
    other_syntax : RefNodes → RefNode

  pub data RefNodes : Type 0 where
    no_nodes : RefNodes
    node : RefNode → RefNodes → RefNodes

-- What has been emitted, and `errs`.
pub record RefsFound : Type 0 where
  pub refs : List Ref
  pub errs : List DefError

abbrev pub nothing_found : RefsFound
nothing_found = record { refs = []; errs = [] }

abbrev pub join_refs : RefsFound → RefsFound → RefsFound
join_refs a b = record { refs = a.refs ++ b.refs; errs = a.errs ++ b.errs }

-- One part of the walk after the other.
abbrev pub join_found : Option RefsFound → Option RefsFound → Option RefsFound
join_found none b = none
join_found (some a) none = none
join_found (some a) (some b) = some (join_refs a b)

-- What the closure `ref` does with the result of DefInfo.
unfoldable pub ref_outcome : Interval → Result DefError Def → Option (List Ref × Option DefError)
unfolding fields
ref_outcome at panics = none
ref_outcome at (err receiver_not_top_level) = some ([], none)
ref_outcome at (err e) = some ([], some e)
ref_outcome (start, end) (ok d) =
    if any (λ w. not (exported_name w)) (fields d.path)
    then some ([], none)
    else some (record { def = d; start = start; end = end } ∷ [], none)

module _ (k : Known) (path_at : ℕ → List EnclosingNode) where
  -- The closure `ref`, with the error that it returns.
  unfoldable pub ref_at : Interval → Option (List Ref × Option DefError)
  unfolding def_info ref_outcome
  ref_at (start, end) = ref_outcome (start, end) (def_info k (path_at start) start)

  -- The cases of an import and of a selector, with whether the walk goes into the children.
  unfoldable pub visit_one : Interval → Option (RefsFound × Bool)
  unfolding ref_at
  visit_one at = elim (ref_at at) [
    | none ↦ none
    | some (refs, none) ↦ some (record { refs = refs; errs = [] }, true)
    | some (refs, some e) ↦ some (record { refs = refs; errs = e ∷ [] }, false)
  ]

  -- Something found in front of the rest of a loop.
  abbrev pub before_rest : List Ref → Option (RefsFound × Bool) → Option (RefsFound × Bool)
  before_rest refs none = none
  before_rest refs (some (found, go_on)) = some (record found { refs = refs ++ found.refs }, go_on)

  -- The loop over the elements of a composite literal.
  unfoldable pub visit_keys : List (Option Interval) → Option (RefsFound × Bool)
  unfolding ref_at
  visit_keys [] = some (nothing_found, true)
  visit_keys (none ∷ keys) = visit_keys keys
  visit_keys (some at ∷ keys) =
      let rest = visit_keys keys in
      elim (ref_at at) [
        | none ↦ none
        | some (refs, none) ↦ before_rest refs rest
        | some (refs, some (not_package_level i)) ↦ before_rest refs rest
        | some (refs, some e) ↦ some (record { refs = refs; errs = e ∷ [] }, false)
      ]

  -- ast.Inspect goes into the children if the visit says so.
  abbrev pub go_into : Option (RefsFound × Bool) → Option RefsFound → Option RefsFound
  go_into none inside = none
  go_into (some (found, true)) inside = join_found (some found) inside
  go_into (some (found, false)) inside = some found

  unfoldable mutual
    unfolding visit_one visit_keys

    pub walk_node : RefNode → Option RefsFound
    walk_node (import_spec at ns) = go_into (visit_one at) (walk_nodes ns)
    walk_node (selector_expr at ns) = go_into (visit_one at) (walk_nodes ns)
    walk_node (composite_lit keys ns) = go_into (visit_keys keys) (walk_nodes ns)
    walk_node (other_syntax ns) = walk_nodes ns

    pub walk_nodes : RefNodes → Option RefsFound
    walk_nodes no_nodes = some nothing_found
    walk_nodes (node n ns) = join_found (walk_node n) (walk_nodes ns)

-- c.PkgFiles, each with its paths of nodes
unfoldable pub refs_of_files : Known → List ((ℕ → List EnclosingNode) × RefNode) → Option RefsFound
unfolding walk_node
refs_of_files k [] = some nothing_found
refs_of_files k ((path_at, file) ∷ files) =
    join_found (walk_node k path_at file) (refs_of_files k files)
