-- ===== src/ImportGraph/Building/Fresh.antt =====
-- langserver/references.go: how new the graphs are that reverseImportGraph sends.
use go_langserver.ImportGraph.Building.{
  unused, building, finished, Building, begin_build, publish, reset_graph, build_began, build_ended,
  graph_reset, BuildReach, no_build_step, and_build_step, new_building, sent_graphs,
}
use go_langserver.Common.{
  List, Option, [], arith, false, none, refl, some, suc, true, ℕ, ◌<◌, ◌∷◌, ◌≡◌, ◌≢◌, ◌≤◌,
}

-- Every build has read the files as they are, h.importGraph has been built from them, where there is one,
-- and there is one if the current sync.Once is done; one that is still to come has not been used.
record IsFresh (s : Building) : Type 0 where
  reading : (o v : ℕ) → s.phase o ≡ building v → v ≡ s.version
  shown : (v : ℕ) → s.import_graph ≡ some v → v ≡ s.version
  there : s.phase s.once ≡ finished → s.import_graph ≡ some s.version
  later : (o : ℕ) → s.once < o → s.phase o ≡ unused

begin_build-IsFresh :
    (s : Building) (o : ℕ) → s.phase o ≡ unused → o ≤ s.once → IsFresh s → IsFresh (begin_build s o)
unfolding begin_build
begin_build-IsFresh s o e h f = record {
  reading = λ p v q. ground (arith, f.reading p v);
  shown = λ v q. f.shown v q;
  there = λ q. ground (arith, f.there);
  later = λ p q. ground (arith, f.later p);
}

publish-IsFresh :
    (s : Building) (o v : ℕ) → s.phase o ≡ building v → IsFresh s → IsFresh (publish s o v)
unfolding publish
publish-IsFresh s o v e f = record {
  reading = λ p w q. ground (arith, f.reading p w);
  shown = λ w q. ground (arith, f.reading o v);
  there = λ q. ground (arith, f.reading o v);
  later = λ p q. ground (arith, f.later p, f.later o);
}

reset_graph-IsFresh :
    (s : Building) → ((o v : ℕ) → s.phase o ≢ building v) → IsFresh s → IsFresh (reset_graph s)
unfolding reset_graph
reset_graph-IsFresh s quiet f = record {
  reading = λ p w q. absurd (quiet p w q);
  shown = λ w q. ground arith;
  there = λ q. ground (arith, f.later (suc s.once));
  later = λ p q. ground (arith, f.later p);
}

BuildReach-IsFresh : {s : Building} → BuildReach true new_building s → IsFresh s
BuildReach-IsFresh no_build_step = record {
  reading = λ o v q. cc;
  shown = λ v q. cc;
  there = λ q. cc;
  later = λ o q. refl;
}
BuildReach-IsFresh (and_build_step r (build_began s o e h)) =
    begin_build-IsFresh s o e h (BuildReach-IsFresh r)
BuildReach-IsFresh (and_build_step r (build_ended s o v e)) =
    publish-IsFresh s o v e (BuildReach-IsFresh r)
BuildReach-IsFresh (and_build_step r (graph_reset s q)) =
    reset_graph-IsFresh s (q refl) (BuildReach-IsFresh r)

-- The last of the graphs that are sent.
abbrev pub last_sent : List (Option ℕ) → Option ℕ
last_sent [] = none
last_sent (g ∷ []) = g
last_sent (g ∷ h ∷ gs) = last_sent (h ∷ gs)

sent_graphs_last :
    (read cached : Option ℕ) (s : Building) → last_sent (sent_graphs read cached s) ≡ s.import_graph
unfolding sent_graphs
sent_graphs_last (some g) cached s = refl
sent_graphs_last none (some c) s = refl
sent_graphs_last none none s = refl

-- In a run in which every reset waits for the builds that are under way, whatever the order of the rest,
-- the last graph that a request sends after the build of the current sync.Once has been built from the
-- files as they are, and no build leaves another graph.
pub sent_graphs-fresh :
    (s : Building) (read cached : Option ℕ)
    → BuildReach true new_building s
    → (s.phase s.once ≡ finished → last_sent (sent_graphs read cached s) ≡ some s.version)
      × ((v : ℕ) → last_sent (sent_graphs read cached s) ≡ some v → v ≡ s.version)
sent_graphs-fresh s read cached r =
    let f = BuildReach-IsFresh r in rw (sent_graphs_last read cached s) (f.there, f.shown)

-- Where a reset has not waited, a build that has read the files before it can end after the build that
-- follows it; then every request is sent the graph of the old files, though the current sync.Once is
-- done.
sent_graphs-stale :
    (s : Building) (o v : ℕ) (read cached : Option ℕ)
    → BuildReach false new_building s
    → s.phase s.once ≡ finished
    → s.phase o ≡ building v
    → v < s.version
    → BuildReach false new_building (publish s o v)
      × ((publish s o v).phase (publish s o v).once ≡ finished)
      × (last_sent (sent_graphs read cached (publish s o v)) ≡ some v)
      × (v < (publish s o v).version)
unfolding publish
sent_graphs-stale s o v read cached r d b l = (
  and_build_step r (build_ended s o v b),
  ground arith,
  sent_graphs_last read cached (publish s o v),
  l,
)
