-- ===== src/References/Users.antt =====
-- langserver/references.go: the loop of handleTextDocumentReferences over the import graphs. Each graph
-- comes with what the search after it gives: its error, and whether the context has been canceled by
-- then. A graph of the library is a parameter with its lookup and its Search.
pub mod Once
pub mod Examples
use go_langserver.Common.{
  Bool, Bytes, List, Option, [], any, beq, codes, if◌then◌else◌, length, ◌++◌, ◌==◌, ◌∷◌,
}

-- Whether `seen[pkg]`
abbrev pub mem : Bytes → List Bytes → Bool
mem u seen = any (λ s. beq s u) seen

-- The loop over the users, in the order of the iteration: `unseen`, and `seen` after it.
unfoldable pub take_unseen : List Bytes → List Bytes → List Bytes × List Bytes
take_unseen [] seen = ([], seen)
take_unseen (u ∷ us) seen =
    let known = take_unseen us seen in
    let (unseen, seen') = take_unseen us (u ∷ seen) in
    if mem u seen then known else (u ∷ unseen, seen')

-- An import graph of the library.
pub record Graphs : Type 1 where
  pub Graph : Type 0
  pub importers : Graph → Bytes → List Bytes
  pub search : Graph → Bytes → List Bytes

pub record Round (G : Graphs) (E : Type 0) : Type 0 where
  pub graph : G.Graph
  pub error : Option E
  pub canceled : Bool

module _ (G : Graphs) (pkg_level : Bool) (defpkg : Bytes) where
  unfoldable pub users_of : G.Graph → List Bytes
  users_of g =
      if pkg_level
      then G.importers g defpkg ++ defpkg ∷ (defpkg ++ codes "!test") ∷ []
      else G.search g defpkg

  -- The sets of packages that are searched, and findRefErr at the end.
  unfoldable pub references_loop :
      {E : Type 0} → List Bytes → Option E → List (Round G E) → List (List Bytes) × Option E
  unfolding users_of take_unseen
  references_loop seen find_ref_err [] = ([], find_ref_err)
  references_loop seen find_ref_err (r ∷ rs) =
      let (unseen, seen') = take_unseen (users_of r.graph) seen in
      let skipped = references_loop seen' find_ref_err rs in
      let (later, err) = references_loop seen' r.error rs in
      if length unseen == 0
      then skipped
      else if r.canceled
      then (unseen ∷ [], r.error)
      else (unseen ∷ later, err)
