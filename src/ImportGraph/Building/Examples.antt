-- ===== src/ImportGraph/Building/Examples.antt =====
-- langserver/references.go: the theorems on a build, and on one that a reset overtakes.
use go_langserver.ImportGraph.Building.{
  building, finished, Building, begin_build, publish, reset_graph, build_began, build_ended,
  graph_reset, BuildReach, no_build_step, and_build_step, new_building, sent_graphs,
}
use go_langserver.ImportGraph.Building.Fresh.{last_sent, sent_graphs-fresh}
use go_langserver.Common.{[], arith, false, none, refl, some, true, ℕ, ◌∷◌, ◌≡◌, ◌≢◌}

-- A build, and its end.
abbrev built : Building
built = publish (begin_build new_building 0) 0 0

built_reached : BuildReach true new_building built
unfolding begin_build
built_reached =
    and_build_step (and_build_step no_build_step (build_began new_building 0 refl (omega arith)))
      (build_ended (begin_build new_building 0) 0 0 refl)

-- A file changes when that build is done, and a build follows.
abbrev built_again : Building
built_again = publish (begin_build (reset_graph built) 1) 1 1

nothing_runs : (o v : ℕ) → built.phase o ≢ building v
unfolding begin_build publish
nothing_runs o v q = ground arith

built_again_reached : BuildReach true new_building built_again
unfolding begin_build reset_graph publish
built_again_reached =
    and_build_step
      (and_build_step (and_build_step built_reached (graph_reset built (λ e. nothing_runs)))
        (build_began (reset_graph built) 1 refl (omega arith)))
      (build_ended (begin_build (reset_graph built) 1) 1 1 refl)

sent_graphs-fresh_example :
    (built_again.phase built_again.once ≡ finished
      → last_sent (sent_graphs none (some 9) built_again) ≡ some built_again.version)
    × ((v : ℕ)
        → last_sent (sent_graphs none (some 9) built_again) ≡ some v
        → v ≡ built_again.version)
sent_graphs-fresh_example = sent_graphs-fresh built_again none (some 9) built_again_reached

-- A build, a reset while it runs, and a build after it.
abbrev overtaken : Building
overtaken = reset_graph (begin_build new_building 0)

abbrev rebuilt : Building
rebuilt = publish (begin_build overtaken 1) 1 1

rebuilt_reached : BuildReach false new_building rebuilt
unfolding begin_build reset_graph
rebuilt_reached =
    and_build_step
      (and_build_step
        (and_build_step
          (and_build_step no_build_step (build_began new_building 0 refl (omega arith)))
          (graph_reset (begin_build new_building 0) (λ e. cc)))
        (build_began overtaken 1 refl (omega arith)))
      (build_ended (begin_build overtaken 1) 1 1 refl)

rebuilt_done : rebuilt.phase rebuilt.once ≡ finished
unfolding begin_build reset_graph publish
rebuilt_done = refl

still_building : rebuilt.phase 0 ≡ building 0
unfolding begin_build reset_graph publish
still_building = refl

-- The build from the old files ends last, and its graph is sent.
overtaken_sent : sent_graphs none none (publish rebuilt 0 0) ≡ some 0 ∷ []
unfolding begin_build reset_graph publish sent_graphs
overtaken_sent = refl
