-- ===== src/Graph/Memory/Prune.antt =====
-- Prune and the readers (backend/internal/graph/memory/memory.go).
use mathlib.Core.List.{lookup}
use perspectivegraph.Base.Maps.{Map, insert, erase, keys, values, elem}
use perspectivegraph.Base.{
  ◌+◌, String, String_discrete, Bool, false, ◌||◌, none, some, List, [], ◌∷◌, foldl, Time, unix, ℤ,
  ltb_ℤ, Floats, ltb, if◌then◌else◌, ◌==◌, length,
}
use perspectivegraph.Ontology.{Props}
use perspectivegraph.Graph.Contract.{PruneStats, Snapshot, last_seen}
use perspectivegraph.Graph.Memory.State.{
  Store, EdgeKey, EdgeKey-discrete, OriginKey-discrete, Origins, edge_at, node_at,
}

pub record Pruning (F : Type 0) : Type 0 where
  pub store : Store F
  pub stats : PruneStats
  pub gone : List String

-- pruneOrigins: assertions made before the cutoff go, and an element with none left has no entry.
unfoldable pub prune_times : Time → Origins → Origins
prune_times before [] = []
prune_times before ((o, t) ∷ os) =
    let rest = prune_times before os in
    if ltb t before then erase OriginKey-discrete o rest else (o, t) ∷ rest

unfoldable pub prune_key : {K : Type 0} → Discrete K → Time → Map K Origins → K → Map K Origins
unfolding prune_times
prune_key dec before m k = elim (lookup dec k m) [
  | none ↦ m
  | some os ↦
      let rest = prune_times before os in
      if length rest == 0 then erase dec k m else insert dec k rest m
]

unfoldable pub prune_origins : {K : Type 0} → Discrete K → Time → Map K Origins → Map K Origins
unfolding prune_key
prune_origins dec before m = foldl (prune_key dec before) m (keys m)

module _ {F : Type 0} (fl : Floats F) where
  -- Last seen before the cutoff; what was never stamped is kept.
  unfoldable pub stale : ℤ → Props F → Bool
  stale cutoff props = elim (last_seen fl props) [ none ↦ false | some ls ↦ ltb_ℤ ls cutoff ]

  -- The body of the loop over the nodes.
  unfoldable pub prune_node : ℤ → Pruning F → String → Pruning F
  prune_node cutoff w id = elim (node_at w.store id) [
    | none ↦ w
    | some n ↦
        if stale cutoff n.properties
        then record w {
          store = record (w.store) {
            nodes = erase String_discrete id w.store.nodes;
            node_origins = erase String_discrete id w.store.node_origins;
          };
          stats = record (w.stats) { nodes = w.stats.nodes + 1 };
          gone = id ∷ w.gone;
        }
        else w
  ]

  -- The body of the loop over the edges.
  unfoldable pub prune_edge : ℤ → Pruning F → EdgeKey → Pruning F
  prune_edge cutoff w k = elim (edge_at w.store k) [
    | none ↦ w
    | some e ↦
        if stale cutoff e.properties
          || elem String_discrete e.from w.gone
          || elem String_discrete e.to w.gone
        then record w {
          store = record (w.store) {
            edges = erase EdgeKey-discrete k w.store.edges;
            edge_origins = erase EdgeKey-discrete k w.store.edge_origins;
          };
          stats = record (w.stats) { edges = w.stats.edges + 1 };
        }
        else w
  ]

  -- The loops over the nodes and the edges.
  unfoldable pub prune_loops : ℤ → Store F → Pruning F
  unfolding prune_node prune_edge
  prune_loops cutoff s =
      let start : Pruning F = record {
        store = s;
        stats = record { nodes = 0; edges = 0 };
        gone = [];
      } in
      let w = foldl (prune_node cutoff) start (keys s.nodes) in
      foldl (prune_edge cutoff) w (keys w.store.edges)

  -- Prune
  unfoldable pub prune : Store F → Time → Store F × PruneStats
  unfolding prune_loops prune_origins
  prune s before =
      let w = prune_loops (unix before) s in
      let t = record (w.store) {
        node_origins = prune_origins String_discrete before w.store.node_origins;
        edge_origins = prune_origins EdgeKey-discrete before w.store.edge_origins;
      } in
      (
        if ltb 0 (w.stats.nodes + w.stats.edges) then record t { removals = t.removals + 1 } else t,
        w.stats,
      )

  -- Snapshot
  unfoldable pub snapshot : Store F → Snapshot F
  snapshot s = record { nodes = values s.nodes; edges = values s.edges }
