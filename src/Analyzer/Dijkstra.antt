-- ===== src/Analyzer/Dijkstra.antt =====
-- The single-source search (backend/internal/analyzer/attackpath.go). The main loop is recursion on
-- fuel, which starts at one pop for the source and one for each out-edge, and a spare one.
pub mod Walks
pub mod Invariant
pub mod Fuel
pub mod Relax
pub mod Expand
pub mod Main
use mathlib.Core.List.{lookup}
use perspectivegraph.Base.Maps.{Map, insert, keys}
use perspectivegraph.Base.{
  ℕ, zero, suc, ◌+◌, String, String_discrete, Bool, true, Option, none, some, List, [], ◌∷◌, foldl,
  Floats, float_zero, ◌==◌, if◌then◌else◌, length,
}
use perspectivegraph.Analyzer.Weights.{Step, OutEdge, Adjacency, out_of}
use perspectivegraph.Analyzer.Heap.{HeapItem, push, pop}

-- The maps and the queue of a run.
pub record Search (F : Type 0) : Type 0 where
  pub dist : Map String F
  pub prev : Map String (Step F)
  pub queue : List (HeapItem F)

module _ {F : Type 0} where
  abbrev pub dist_at : Search F → String → Option F
  dist_at s v = lookup String_discrete v s.dist

  abbrev pub prev_at : Search F → String → Option (Step F)
  prev_at s v = lookup String_discrete v s.prev

  -- The step that an out-edge of a node makes.
  abbrev pub step_of : String → OutEdge F → Step F
  step_of u e = record {
    edge_type = e.typ;
    from = u;
    to = e.to;
    probability = e.prob;
    resolution_method = e.res_method;
    resolution_confidence = e.res_conf;
    weight_basis = e.basis;
    weight_confidence = e.basis_conf;
    evidence_count = e.evid;
    weight_cause = e.cause;
  }

  -- The number of out-edges of some nodes.
  abbrev pub out_total : Adjacency F → List String → ℕ
  out_total adj [] = 0
  out_total adj (u ∷ us) = length (out_of adj u) + out_total adj us

module _ {F : Type 0} (fl : Floats F) where
  -- `!ok || nd < old`
  abbrev pub improves : Option F → F → Bool
  improves none nd = true
  improves (some old) nd = fl.lt nd old

  -- `dist[v]`: a missing node reads as 0.
  abbrev pub known : Search F → String → F
  known s v = elim (dist_at s v) [ none ↦ float_zero fl | some d ↦ d ]

  -- The body of the loop over the out-edges.
  unfoldable pub relax : HeapItem F → Search F → OutEdge F → Search F
  relax cur s e =
      let nd = fl.add cur.d e.weight in
      if improves (dist_at s e.to) nd
      then record {
        dist = insert String_discrete e.to nd s.dist;
        prev = insert String_discrete e.to (step_of cur.node e) s.prev;
        queue = push fl s.queue (record { node = e.to; d = nd });
      }
      else s

  -- The body of the main loop once an item is popped: a stale one is skipped.
  unfoldable pub expand : Adjacency F → Search F → HeapItem F → Search F
  unfolding relax
  expand adj s cur =
      if fl.lt (known s cur.node) cur.d then s else foldl (relax cur) s (out_of adj cur.node)

  unfoldable pub run : ℕ → Adjacency F → Search F → Search F
  unfolding expand
  run zero adj s = s
  run (suc fuel) adj s =
      let (cur, q) = pop fl s.queue in
      let rest = run fuel adj (expand adj (record s { queue = q }) cur) in
      if length s.queue == 0 then s else rest

  unfoldable pub start : String → Search F
  start src = record {
    dist = insert String_discrete src (float_zero fl) [];
    prev = [];
    queue = push fl [] (record { node = src; d = float_zero fl });
  }

  unfoldable pub dijkstra : String → Adjacency F → Search F
  unfolding run start
  dijkstra src adj = run (out_total adj (keys adj) + 2) adj (start src)
