-- ===== src/Analyzer/Alternatives.antt =====
-- The graph that alternative paths are searched in (backend/internal/analyzer/kshortest.go): the graph with one
-- edge for each ordered pair of nodes, and the search on what is left of it. A set of removed nodes or
-- edges is the list of what is in it.
pub mod Rows
pub mod Sequences
pub mod Search
pub mod Shortest
pub mod Parallel
use mathlib.Core.List.{lookup, reverse}
use perspectivegraph.Base.Maps.{Map, elem, insert, keys, values}
use perspectivegraph.Base.Sorting.{sort_by, text_before}
use perspectivegraph.Base.{
  ℕ, zero, suc, ◌+◌, ◌-◌, String, String_discrete, Bool, true, false, not, ◌||◌, ◌&&◌, Option, none,
  some, List, [], ◌∷◌, ◌++◌, foldl, map, ℤ, pos, negsuc, Floats, float_zero, is_yes, ltb, ◌==◌,
  ◌>>=◌, if◌then◌else◌, length, get_or,
}
use perspectivegraph.Ontology.{Node, Edge}
use perspectivegraph.Graph.Contract.{Snapshot}
use perspectivegraph.Analyzer.Weights.{OutEdge, Adjacency, out_edge, node_of, node_by_id, Step}
use perspectivegraph.Analyzer.Heap.{HeapItem, push, pop}
use perspectivegraph.Analyzer.Dijkstra.{improves, out_total, step_of}
use perspectivegraph.Analyzer.Paths.{AttackPath, assemble_attack_path}

abbrev pub Row : Type 0 → Type 0
Row F = Map String (OutEdge F)

pub record WGraph (F : Type 0) : Type 0 where
  pub adj : Map String (Row F)
  pub nodes : Map String (Node F)

module _ {F : Type 0} where
  -- `g.adj[u]`: a missing node has no row.
  abbrev pub row_of : Map String (Row F) → String → Row F
  row_of adj u = elim (lookup String_discrete u adj) [ none ↦ [] | some row ↦ row ]

  -- `g.adj[u][v]`
  abbrev pub hop_at : WGraph F → String → String → Option (OutEdge F)
  hop_at g u v = lookup String_discrete v (row_of g.adj u)

  -- `!ok || oe.weight < cur.weight`
  abbrev pub beats : Floats F → Option (OutEdge F) → OutEdge F → Bool
  beats fl none oe = true
  beats fl (some cur) oe = fl.lt oe.weight cur.weight

  -- The body of the loop of newWGraph: of parallel edges the likeliest is kept.
  unfoldable pub add_hop :
      Floats F
      → (String → String)
      → Map String (Node F)
      → Map String (Row F)
      → Edge F
      → Map String (Row F)
  unfolding out_edge
  add_hop fl upper_trim nodes adj e =
      let oe = out_edge fl upper_trim e (node_of nodes e.from) (node_of nodes e.to) in
      let row = row_of adj e.from in
      if beats fl (lookup String_discrete e.to row) oe
      then insert String_discrete e.from (insert String_discrete e.to oe row) adj
      else adj

  unfoldable pub new_w_graph : Floats F → (String → String) → Snapshot F → WGraph F
  unfolding add_hop
  new_w_graph fl upper_trim snap =
      let nodes = node_by_id snap in
      record { adj = foldl (add_hop fl upper_trim nodes) [] snap.edges; nodes = nodes }

  -- The order of neighbors: by weight, then by id.
  abbrev pub nearer : Floats F → OutEdge F → OutEdge F → Bool
  nearer fl a b =
      if fl.lt a.weight b.weight
      then true
      else if fl.lt b.weight a.weight
      then false
      else text_before a.to b.to

-- The maps and the queue of a run of shortest.
pub record Trail (F : Type 0) : Type 0 where
  pub dist : Map String F
  pub prev : Map String String
  pub queue : List (HeapItem F)

-- `removedEdges[[2]string{u, v}]`
abbrev pub is_cut : List (String × String) → String → String → Bool
is_cut [] u v = false
is_cut ((a, b) ∷ cuts) u v =
    is_yes (String_discrete u a) && is_yes (String_discrete v b) || is_cut cuts u v

-- A node sequence and its cost.
pub record CandPath (F : Type 0) : Type 0 where
  pub nodes : List String
  pub cost : F

-- The nodes from `at` back to the source, on fuel.
unfoldable pub nodes_back : ℕ → Map String String → String → String → Option (List String)
nodes_back zero prev src at = none
nodes_back (suc fuel) prev src at =
    let up = elim (lookup String_discrete at prev) as (λ _. Option (List String)) [
      | none ↦ none
      | some p ↦ nodes_back fuel prev src p
    ] in
    if is_yes (String_discrete at src) then some (at ∷ []) else up >>= (λ seq. some (at ∷ seq))

module _ {F : Type 0} (fl : Floats F) where
  unfoldable pub neighbors : WGraph F → String → List (OutEdge F)
  unfolding sort_by
  neighbors g u = sort_by (nearer fl) (values (row_of g.adj u))

  -- What the search may use of some out-edges of a node.
  abbrev pub allowed :
      List String → List (String × String) → String → List (OutEdge F) → List (OutEdge F)
  allowed gone cuts u [] = []
  allowed gone cuts u (e ∷ es) =
      let rest = allowed gone cuts u es in
      if elem String_discrete e.to gone || is_cut cuts u e.to then rest else e ∷ rest

  -- What is left of the graph, listed for each node that had out-edges.
  abbrev pub open_rows :
      WGraph F → List String → List (String × String) → Map String (Row F) → Adjacency F
  open_rows g gone cuts [] = []
  open_rows g gone cuts ((u, row) ∷ rows) =
      (u, allowed gone cuts u (neighbors g u)) ∷ open_rows g gone cuts rows

  abbrev pub open_adjacency : WGraph F → List String → List (String × String) → Adjacency F
  open_adjacency g gone cuts = open_rows g gone cuts g.adj

  -- The body of the loop over the neighbors.
  unfoldable pub visit :
      List String → List (String × String) → HeapItem F → Trail F → OutEdge F → Trail F
  visit gone cuts cur s e =
      let nd = fl.add cur.d e.weight in
      if elem String_discrete e.to gone || is_cut cuts cur.node e.to
      then s
      else if improves fl (lookup String_discrete e.to s.dist) nd
      then record {
        dist = insert String_discrete e.to nd s.dist;
        prev = insert String_discrete e.to cur.node s.prev;
        queue = push fl s.queue (record { node = e.to; d = nd });
      }
      else s

  -- The body of the main loop once an item is popped; a missing distance reads as 0.
  unfoldable pub advance :
      WGraph F → List String → List (String × String) → Trail F → HeapItem F → Trail F
  unfolding visit neighbors
  advance g gone cuts s cur =
      let known : F = elim (lookup String_discrete cur.node s.dist) [
        | none ↦ float_zero fl
        | some d ↦ d
      ] in
      if fl.lt known cur.d then s else foldl (visit gone cuts cur) s (neighbors g cur.node)

  unfoldable pub loop : ℕ → WGraph F → List String → List (String × String) → Trail F → Trail F
  unfolding advance
  loop zero g gone cuts s = s
  loop (suc fuel) g gone cuts s =
      let (cur, q) = pop fl s.queue in
      let rest = loop fuel g gone cuts (advance g gone cuts (record s { queue = q }) cur) in
      if length s.queue == 0 then s else rest

  -- One pop for the source and for each out-edge that is left, and a spare one.
  abbrev pub pops : WGraph F → List String → List (String × String) → ℕ
  pops g gone cuts = let adj = open_adjacency g gone cuts in out_total adj (keys adj) + 2

  unfoldable pub searched : WGraph F → String → List String → List (String × String) → Trail F
  unfolding loop
  searched g src gone cuts = loop (pops g gone cuts) g gone cuts (record {
    dist = insert String_discrete src (float_zero fl) [];
    prev = [];
    queue = record { node = src; d = float_zero fl } ∷ [];
  })

  -- What is read off when the loop has ended.
  unfoldable pub read_off : ℕ → Trail F → String → String → Option (CandPath F)
  unfolding nodes_back
  read_off fuel t src dst = elim (lookup String_discrete dst t.dist) as (λ _. Option (CandPath F)) [
    | none ↦ none
    | some d ↦
        if fl.is_inf d
        then none
        else (nodes_back fuel t.prev src dst
            >>= (λ seq. some (record { nodes = reverse seq; cost = d })))
  ]

  unfoldable pub shortest :
      WGraph F → String → String → List String → List (String × String) → Option (CandPath F)
  unfolding searched read_off
  shortest g src dst gone cuts =
      let found = read_off (pops g gone cuts) (searched g src gone cuts) src dst in
      if elem String_discrete src gone || elem String_discrete dst gone then none else found

  -- pathCost from a cost on
  unfoldable pub cost_from : WGraph F → F → List String → Option F
  cost_from g c [] = some c
  cost_from g c (u ∷ us) = elim us as (λ _. Option F) [
    | [] ↦ some c
    | v ∷ _ ↦ hop_at g u v >>= (λ e. cost_from g (fl.add c e.weight) us)
  ]

  unfoldable pub path_cost : WGraph F → List String → Option F
  unfolding cost_from
  path_cost g seq = cost_from g (float_zero fl) seq
