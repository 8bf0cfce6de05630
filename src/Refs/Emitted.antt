-- ===== src/Refs/Emitted.antt =====
-- langserver/internal/refs/refs.go: the references that Config.Refs emits.
use go_langserver.Refs.DefInfo.{
  AstIdent, DefError, receiver_not_top_level, not_package_level, EnclosingNode, Known, def_info,
}
use go_langserver.Refs.{Def}
use go_langserver.Refs.Inspect.{
  Ref, Interval, RefNode, RefNodes, import_spec, selector_expr, composite_lit, other_syntax,
  no_nodes, node, RefsFound, ref_outcome, ref_at, visit_one, visit_keys, walk_node, walk_nodes,
  refs_of_files, join_found,
}
use go_langserver.Symbol.Score.{exported_name}
use go_langserver.Common.Result.{Result, ok, err, panics}
use go_langserver.Common.Words.{fields}
use go_langserver.Common.{
  Bool, Bool-cases, List, Option, [], any, append_assoc, false, if◌then◌else◌, inl, inr, none, not,
  refl, some, sym, true, ℕ, ◌++◌, ◌∙◌, ◌∷◌, ◌≡◌, ◌⊎◌,
}

-- The intervals of the keys.
abbrev pub key_intervals : List (Option Interval) → List Interval
key_intervals [] = []
key_intervals (none ∷ keys) = key_intervals keys
key_intervals (some at ∷ keys) = at ∷ key_intervals keys

-- All imports, selected names and keys of a syntax tree, in its order.
unfoldable mutual
  pub intervals : RefNode → List Interval
  intervals (import_spec at ns) = at ∷ intervals_in ns
  intervals (selector_expr at ns) = at ∷ intervals_in ns
  intervals (composite_lit keys ns) = key_intervals keys ++ intervals_in ns
  intervals (other_syntax ns) = intervals_in ns

  pub intervals_in : RefNodes → List Interval
  intervals_in no_nodes = []
  intervals_in (node n ns) = intervals n ++ intervals_in ns

-- The reference that a definition gives, if all its words are exported.
unfoldable pub exported_of : Interval → Result DefError Def → List Ref
exported_of (start, end) (ok d) =
    if any (λ w. not (exported_name w)) (fields d.path)
    then []
    else record { def = d; start = start; end = end } ∷ []
exported_of at (err e) = []
exported_of at panics = []

-- DefInfo gives a definition, or says that the receiver is no top-level type; at the key of a literal
-- it may also say that the identifier is nothing at package level.
abbrev pub IsNamed : Bool → Result DefError Def → Type 0
IsNamed at_key (ok d) = Unit
IsNamed at_key (err receiver_not_top_level) = Unit
IsNamed at_key (err (not_package_level i)) = at_key ≡ true
IsNamed at_key (err e) = ⊥
IsNamed at_key panics = ⊥

ref_outcome_named :
    (at : Interval) (r : Result DefError Def)
    → IsNamed false r
    → ref_outcome at r ≡ some (exported_of at r, none)
unfolding ref_outcome exported_of
ref_outcome_named (start, end) (ok d) h =
    elim (Bool-cases (any (λ w. not (exported_name w)) (fields d.path))) [
      | inl e ↦ rw e
      | inr e ↦ rw e
    ]
ref_outcome_named at (err receiver_not_top_level) h = refl
ref_outcome_named at (err (not_package_level i)) h = cc
ref_outcome_named at (err e) h = absurd h
ref_outcome_named at panics h = absurd h

-- At a key an identifier that is nothing at package level is passed over.
ref_outcome_key :
    (at : Interval) (r : Result DefError Def)
    → IsNamed true r
    → (ref_outcome at r ≡ some (exported_of at r, none))
      ⊎ ((i : AstIdent) × (ref_outcome at r ≡ some ([], some (not_package_level i)))
          × (exported_of at r ≡ []))
unfolding ref_outcome exported_of
ref_outcome_key at (ok d) h = inl (ref_outcome_named at (ok d) h)
ref_outcome_key at (err receiver_not_top_level) h = inl refl
ref_outcome_key at (err (not_package_level i)) h = inr (i, refl, refl)
ref_outcome_key at (err e) h = absurd h
ref_outcome_key at panics h = absurd h

module _ (k : Known) (path_at : ℕ → List EnclosingNode) where
  abbrev pub info_at : Interval → Result DefError Def
  info_at at = def_info k (path_at at.0) at.0

  abbrev pub exported_ref : Interval → List Ref
  exported_ref at = exported_of at (info_at at)

  abbrev pub exported_refs : List Interval → List Ref
  exported_refs [] = []
  exported_refs (at ∷ ats) = exported_ref at ++ exported_refs ats

  abbrev pub AllNamed : List (Option Interval) → Type 0
  AllNamed [] = Unit
  AllNamed (none ∷ keys) = AllNamed keys
  AllNamed (some at ∷ keys) = IsNamed true (info_at at) × AllNamed keys

  -- That holds everywhere in a syntax tree.
  unfoldable mutual
    pub NamedIn : RefNode → Type 0
    NamedIn (import_spec at ns) = IsNamed false (info_at at) × NamedInAll ns
    NamedIn (selector_expr at ns) = IsNamed false (info_at at) × NamedInAll ns
    NamedIn (composite_lit keys ns) = AllNamed keys × NamedInAll ns
    NamedIn (other_syntax ns) = NamedInAll ns

    pub NamedInAll : RefNodes → Type 0
    NamedInAll no_nodes = Unit
    NamedInAll (node n ns) = NamedIn n × NamedInAll ns

  exported_refs-append :
      (xs ys : List Interval) → exported_refs (xs ++ ys) ≡ exported_refs xs ++ exported_refs ys
  exported_refs-append [] ys = refl
  exported_refs-append (x ∷ xs) ys =
      rw (exported_refs-append xs ys)
        (sym (append_assoc (exported_ref x) (exported_refs xs) (exported_refs ys)))

  abbrev pub named_found : List Interval → RefsFound
  named_found ats = record { refs = exported_refs ats; errs = [] }

  ref_at_lem : (at : Interval) → ref_at k path_at at ≡ ref_outcome at (info_at at)
  unfolding ref_at
  ref_at_lem at = refl

  visit_one_named :
      (at : Interval)
      → IsNamed false (info_at at)
      → visit_one k path_at at ≡ some (record { refs = exported_ref at; errs = [] }, true)
  unfolding visit_one
  visit_one_named at h = rw (ref_at_lem at ∙ ref_outcome_named at (info_at at) h, visit_one)

  visit_keys_named :
      (keys : List (Option Interval))
      → AllNamed keys
      → visit_keys k path_at keys ≡ some (named_found (key_intervals keys), true)
  unfolding visit_keys
  visit_keys_named [] h = refl
  visit_keys_named (none ∷ keys) h = visit_keys_named keys h
  visit_keys_named (some at ∷ keys) (h, hs) =
      let rest = visit_keys_named keys hs in
      elim (ref_outcome_key at (info_at at) h) [
        | inl e ↦ let q = ref_at_lem at ∙ e in simp (visit_keys, q, rest)
        | inr (i, e, x) ↦ let q = ref_at_lem at ∙ e in simp (visit_keys, q, rest, x)
      ]

  joined_named :
      (xs ys : List Interval)
      → join_found (some (named_found xs)) (some (named_found ys)) ≡ some (named_found (xs ++ ys))
  joined_named xs ys = rw (exported_refs-append xs ys)

  mutual
    unfolding walk_node intervals NamedIn

    walk_node_named :
        (n : RefNode) → NamedIn n → walk_node k path_at n ≡ some (named_found (intervals n))
    walk_node_named (import_spec at ns) (h, hs) = rw (visit_one_named at h, walk_nodes_named ns hs)
    walk_node_named (selector_expr at ns) (h, hs) =
        rw (visit_one_named at h, walk_nodes_named ns hs)
    walk_node_named (composite_lit keys ns) (h, hs) =
        rw (visit_keys_named keys h, walk_nodes_named ns hs)
          (joined_named (key_intervals keys) (intervals_in ns))
    walk_node_named (other_syntax ns) hs = walk_nodes_named ns hs

    walk_nodes_named :
        (ns : RefNodes)
        → NamedInAll ns
        → walk_nodes k path_at ns ≡ some (named_found (intervals_in ns))
    walk_nodes_named no_nodes h = refl
    walk_nodes_named (node n ns) (h, hs) =
        rw (walk_node_named n h, walk_nodes_named ns hs)
          (joined_named (intervals n) (intervals_in ns))

-- That holds in all files.
abbrev pub NamedInFiles : Known → List ((ℕ → List EnclosingNode) × RefNode) → Type 0
NamedInFiles k [] = Unit
NamedInFiles k ((path_at, file) ∷ files) = NamedIn k path_at file × NamedInFiles k files

-- The references to exported definitions in the files, in their order.
abbrev pub exported_in : Known → List ((ℕ → List EnclosingNode) × RefNode) → List Ref
exported_in k [] = []
exported_in k ((path_at, file) ∷ files) =
    exported_refs k path_at (intervals file) ++ exported_in k files

-- If DefInfo names a definition for every import, every selected name and every key of a composite
-- literal in the files, but for receivers that are no top-level types and for keys that are nothing at
-- package level, Refs emits, in the order of the files and their syntax, exactly those of them whose
-- definitions are exported in all words, and returns no error.
pub refs_of_files-exported_in :
    (k : Known) (files : List ((ℕ → List EnclosingNode) × RefNode))
    → NamedInFiles k files
    → refs_of_files k files ≡ some (record { refs = exported_in k files; errs = [] })
unfolding refs_of_files
refs_of_files-exported_in k [] h = refl
refs_of_files-exported_in k ((path_at, file) ∷ files) (h, hs) =
    rw (walk_node_named k path_at file h, refs_of_files-exported_in k files hs)
