-- ===== src/References/Users/Examples.antt =====
-- langserver/references.go: the theorem on a cached import graph and the one that is built after it.
use go_langserver.References.Users.Once.{concat, references_loop_once}
use go_langserver.References.Users.{Graphs, Round, references_loop, users_of}
use go_langserver.Common.{All, Bytes, Distinct, In, List, [], codes, false, none, true, ℕ, ◌∷◌, ◌≡◌}

-- A graph is the packages that import any package.
abbrev pub flat_graphs : Graphs
flat_graphs = record { Graph = List Bytes; importers = λ g path. g; search = λ g path. g }

abbrev pub two_rounds : {E : Type 0} → List (Round flat_graphs E)
two_rounds =
    record { graph = codes "a" ∷ []; error = none; canceled = false }
    ∷ record { graph = codes "b" ∷ codes "a" ∷ []; error = none; canceled = false }
    ∷ []

references_loop_once_example :
    Distinct (concat (references_loop flat_graphs true (codes "p") [] none (two_rounds {E = ℕ})).0)
    × ((x : Bytes)
        → In x
            (concat (references_loop flat_graphs true (codes "p") [] none (two_rounds {E = ℕ})).0)
        → (r : Round flat_graphs ℕ) × In r two_rounds
          × In x (users_of flat_graphs true (codes "p") r.graph))
    × (All (λ (r : Round flat_graphs ℕ). r.canceled ≡ false) two_rounds
        → (r : Round flat_graphs ℕ) → In r two_rounds
        → (x : Bytes) → In x (users_of flat_graphs true (codes "p") r.graph)
        → In x
            (concat (references_loop flat_graphs true (codes "p") [] none (two_rounds {E = ℕ})).0))
references_loop_once_example = references_loop_once flat_graphs true (codes "p") two_rounds
