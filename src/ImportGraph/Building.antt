-- ===== src/ImportGraph/Building.antt =====
-- langserver/references.go: reverseImportGraph, with the part of resetCaches in langserver/handler.go that
-- it races with. A graph is the number of the resets before the files were read for it, and a sync.Once
-- the number of the resets before it was made.
pub mod Fresh
pub mod Examples
use go_langserver.Common.{
  Bool, List, Option, [], if◌then◌else◌, none, some, suc, true, ℕ, ◌==◌, ◌∷◌, ◌≡◌, ◌≢◌, ◌≤◌,
}

-- A sync.Once: its function has not been called, runs and has read the files of this version, or is done.
pub data OncePhase : Type 0 where
  unused : OncePhase
  building : ℕ → OncePhase
  finished : OncePhase

-- h.importGraph, h.importGraphOnce, all sync.Onces, and the version of the files.
pub record Building : Type 0 where
  pub import_graph : Option ℕ
  pub once : ℕ
  pub phase : ℕ → OncePhase
  pub version : ℕ

abbrev pub set_phase : (ℕ → OncePhase) → ℕ → OncePhase → ℕ → OncePhase
set_phase phase o p q = if q == o then p else phase q

-- once.Do calls its function.
unfoldable pub begin_build : Building → ℕ → Building
begin_build s o = record s { phase = set_phase s.phase o (building s.version) }

-- The function sets h.importGraph and is done.
unfoldable pub publish : Building → ℕ → ℕ → Building
publish s o v = record s { import_graph = some v; phase = set_phase s.phase o finished }

-- A file has changed: h.importGraph = nil, with a new sync.Once.
unfoldable pub reset_graph : Building → Building
reset_graph s = record s { import_graph = none; once = suc s.once; version = suc s.version }

-- What a request sends that has read the sync.Once and whether there was a graph: the cached graph on a
-- hit, and then what h.importGraph is once the function is done.
unfoldable pub sent_graphs : Option ℕ → Option ℕ → Building → List (Option ℕ)
sent_graphs read cached s = elim read [
  | some g ↦ s.import_graph ∷ []
  | none ↦ elim cached [ some c ↦ some c ∷ s.import_graph ∷ [] | none ↦ s.import_graph ∷ [] ]
]

-- The steps of all requests and of the resets; in a quiet run a reset waits for the builds.
pub data BuildStep (quiet : Bool) : Building → Building → Type 0 where
  build_began :
      (s : Building) (o : ℕ) → s.phase o ≡ unused → o ≤ s.once → BuildStep quiet s (begin_build s o)
  build_ended :
      (s : Building) (o v : ℕ) → s.phase o ≡ building v → BuildStep quiet s (publish s o v)
  graph_reset :
      (s : Building)
      → (quiet ≡ true → (o v : ℕ) → s.phase o ≢ building v)
      → BuildStep quiet s (reset_graph s)

pub data BuildReach (quiet : Bool) (s : Building) : Building → Type 0 where
  no_build_step : BuildReach quiet s s
  and_build_step :
      {t u : Building} → BuildReach quiet s t → BuildStep quiet t u → BuildReach quiet s u

abbrev pub new_building : Building
new_building = record { import_graph = none; once = 0; phase = λ o. unused; version = 0 }
