-- ===== src/ImportGraph/Edges.antt =====
-- pkg/tools/importgraph.go: the edges that are sent and those of the graph.
use mathlib.Core.Path.{ap₂}
use go_langserver.Common.{
  All, Bool, Bool-cases, Bytes, List, Option, Option-cases, [], any, ap, arith, beq, beq→eq, codes,
  false, if◌then◌else◌, inl, inr, none, not, refl, some, true, ◌&&◌, ◌++◌, ◌||◌, ◌∙◌, ◌∷◌, ◌≡◌,
}
use go_langserver.ImportGraph.{
  ImportEdge, BuildPackage, Graph, Memo, memoised, canonical, absolutize, import_edges,
  package_edges, add_edge, add_edges, reverse_graph, has_edge, edges_of,
}

-- The edge that an edge from one package to another gives the reverse graph.
abbrev pub reverses : Bytes → Bytes → ImportEdge → Bool
reverses from to e = beq e.to from && beq e.from to

has_edge-add_edge :
    (g : Graph) (from to a b : Bytes)
    → has_edge (add_edge g from to) a b ≡ (beq from a && beq to b || has_edge g a b)
unfolding has_edge add_edge
has_edge-add_edge g from to a b = elim (Bool-cases (beq from a)) [
  | inl e ↦ rw e (rw (beq→eq from a e) (joined (beq to b) (edges_of (g a) b)))
  | inr e ↦ rw e
]
  where
    joined : (x y : Bool) → (if x then true else y) ≡ (x || y)
    joined true y = refl
    joined false y = refl

has_edge-add_edges :
    (es : List ImportEdge) (g : Graph) (a b : Bytes)
    → has_edge (add_edges g es) a b
      ≡ (not (beq a (codes "C")) && any (reverses a b) es || has_edge g a b)
unfolding add_edges
has_edge-add_edges [] g a b = ground arith
has_edge-add_edges (e ∷ es) g a b = elim (Bool-cases (beq e.to (codes "C"))) [
  | inl c ↦
      rw c (has_edge-add_edges es g a b ∙ skipped (beq e.to a) (λ h. rw (beq→eq e.to a h) at c))
  | inr c ↦ rw c (
      has_edge-add_edges es (add_edge g e.to e.from) a b
      ∙ (ap (λ r. not (beq a (codes "C")) && any (reverses a b) es || r)
            (has_edge-add_edge g e.to e.from a b)
          ∙ added (beq e.to a) (λ h. rw (beq→eq e.to a h) at c)))
]
  where
    skipped :
        (here : Bool)
        → (here ≡ true → beq a (codes "C") ≡ true)
        → (not (beq a (codes "C")) && any (reverses a b) es || has_edge g a b) ≡ (
            not (beq a (codes "C")) && (here && beq e.from b || any (reverses a b) es)
            || has_edge g a b)
    skipped here h = ground (arith, h)

    added :
        (here : Bool)
        → (here ≡ true → beq a (codes "C") ≡ false)
        → (not (beq a (codes "C")) && any (reverses a b) es
            || (here && beq e.from b || has_edge g a b))
          ≡ (not (beq a (codes "C")) && (here && beq e.from b || any (reverses a b) es)
              || has_edge g a b)
    added here h = ground (arith, h)

-- In whatever order the edges arrive, the graph has exactly their reverses, without those of "C".
pub has_edge-reverse_graph :
    (edges : List ImportEdge) (a b : Bytes)
    → has_edge (reverse_graph edges) a b ≡ (not (beq a (codes "C")) && any (reverses a b) edges)
unfolding reverse_graph has_edge
has_edge-reverse_graph edges a b =
    has_edge-add_edges edges (λ key. none) a b
    ∙ plain (not (beq a (codes "C")) && any (reverses a b) edges)
  where
    plain : (x : Bool) → (x || has_edge (λ key. none) a b) ≡ x
    plain true = refl
    plain false = refl

module _ (find : Bytes → Bytes → Option Bytes) where
  -- What the memo has is what findPackage gives.
  IsSound : Bytes → Memo → Type 0
  IsSound dir = All (λ m. m.1 ≡ canonical find dir m.0)

  memoised_sound :
      (dir : Bytes) (memo : Memo) (path canon : Bytes)
      → IsSound dir memo
      → memoised memo path ≡ some canon
      → canon ≡ canonical find dir path
  unfolding IsSound
  memoised_sound dir [] path canon s h = absurd cc
  memoised_sound dir ((key, c) ∷ memo) path canon (p, s) h = elim (Bool-cases (beq key path)) [
    | inl e ↦ some_inj (rw e at h) ∙ (p ∙ ap (canonical find dir) (beq→eq key path e))
    | inr e ↦ memoised_sound dir memo path canon s (rw e at h)
  ]
    where
      some_inj : some c ≡ some canon → canon ≡ c
      some_inj k = cc

  absolutize-IsSound :
      (dir : Bytes) (memo : Memo) (path : Bytes)
      → IsSound dir memo
      → ((absolutize find dir memo path).0 ≡ canonical find dir path)
        × IsSound dir (absolutize find dir memo path).1
  unfolding IsSound absolutize
  absolutize-IsSound dir memo path s = elim (Option-cases (memoised memo path)) [
    | inl e ↦ rw (e, absolutize) (refl, (refl, s))
    | inr (canon, e) ↦ rw (e, absolutize) (memoised_sound dir memo path canon s e, s)
  ]

  unfoldable pub sent : Bytes → Bytes → List Bytes → List ImportEdge
  sent dir path [] = []
  sent dir path (imp ∷ imps) =
      record { from = path; to = canonical find dir imp } ∷ sent dir path imps

  import_edges-IsSound :
      (dir path : Bytes) (imps : List Bytes) (memo : Memo)
      → IsSound dir memo
      → ((import_edges find dir path memo imps).0 ≡ sent dir path imps)
        × IsSound dir (import_edges find dir path memo imps).1
  unfolding import_edges sent
  import_edges-IsSound dir path [] memo s = (refl, s)
  import_edges-IsSound dir path (imp ∷ imps) memo s =
      let (e, s') = absolutize-IsSound dir memo imp s in
      let (f, s'') = import_edges-IsSound dir path imps _ s' in
      (ap₂ (λ (t : Bytes) (es : List ImportEdge). record { from = path; to = t } ∷ es) e f, s'')

  -- A package sends an edge for each of its imports, those of its tests included, to the import path
  -- that findPackage gives for it, or to the import itself: the memo changes nothing.
  pub package_edges-sent :
      (path : Bytes) (bp : BuildPackage)
      → package_edges find path (some bp)
        ≡ sent bp.dir path bp.imports
          ++ (sent bp.dir path bp.test_imports ++ sent bp.dir path bp.xtest_imports)
  unfolding package_edges IsSound
  package_edges-sent path bp =
      let (e, s) = import_edges-IsSound bp.dir path bp.imports [] tt in
      let (f, s') = import_edges-IsSound bp.dir path bp.test_imports _ s in
      let (g, _) = import_edges-IsSound bp.dir path bp.xtest_imports _ s' in
      ap₂ (λ (a b : List ImportEdge). a ++ b) e (ap₂ (λ (a b : List ImportEdge). a ++ b) f g)
