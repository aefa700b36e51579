-- ===== src/Graph/Memory/Prunes.antt =====
-- What Prune does (backend/internal/graph/memory/memory.go): exactly what was last seen before the
-- cutoff goes, with the edges that lose an end, and the invariant stays.
use perspectivegraph.Base.Maps.{keys, elem, elem-keys, lookup-erase, range_view, foldl_inv}
use perspectivegraph.Base.{
  String, String_discrete, Bool, false, ◌||◌, Option, none, some, List, [], ◌≡◌, refl, arith, foldl,
  Time, ℤ, unix, Floats, is_yes, Option-cases, inl, inr, if◌then◌else◌,
}
use perspectivegraph.Ontology.{Node, Edge}
use perspectivegraph.Graph.Memory.State.{Store, EdgeKey, EdgeKey-discrete, node_at, edge_at}
use perspectivegraph.Graph.Memory.Prune.{Pruning, stale, prune_node, prune_edge, prune_loops, prune}
use perspectivegraph.Graph.Memory.Steps.{same}
use perspectivegraph.Graph.Memory.Consistent.{
  IsConsistent, IsSettled, SameGraph, SameGraph-IsConsistent, SameGraph-IsSettled,
}

module _ {F : Type 0} (fl : Floats F) where
  abbrev stale_node : ℤ → Option (Node F) → Bool
  stale_node cutoff none = false
  stale_node cutoff (some n) = stale fl cutoff n.properties

  abbrev pruned_node : ℤ → Option (Node F) × Bool → Option (Node F) × Bool
  pruned_node cutoff (n, gone) =
      (if stale_node cutoff n then none else n, stale_node cutoff n || gone)

  abbrev node_part : String → Pruning F → Option (Node F) × Bool
  node_part id w = (node_at w.store id, elem String_discrete id w.gone)

  node_part-prune_node :
      (cutoff : ℤ) (w : Pruning F) (j k : String)
      → node_part j (prune_node fl cutoff w k) ≡ (
          if is_yes (String_discrete j k)
          then pruned_node cutoff (node_part j w)
          else node_part j w)
  unfolding prune_node
  node_part-prune_node cutoff w j k = elim (Option-cases (node_at w.store k)) [
    | inl e ↦ rw (e, prune_node) (ground arith)
    | inr (n, e) ↦
        rw (e, prune_node) (ground (arith, lookup-erase String_discrete j k w.store.nodes))
  ]

  abbrev EdgesStand : Store F → Pruning F → Type 0
  EdgesStand s w =
      (w.store.edges ≡ s.edges)
      × (w.store.pending ≡ s.pending)
      × (w.store.pending_by_id ≡ s.pending_by_id)

  prune_node-EdgesStand :
      (cutoff : ℤ) (s : Store F) (w : Pruning F) (id : String)
      → EdgesStand s w
      → EdgesStand s (prune_node fl cutoff w id)
  unfolding prune_node
  prune_node-EdgesStand cutoff s w id h = elim (Option-cases (node_at w.store id)) [
    | inl e ↦ rw (e, prune_node) h
    | inr (n, e) ↦ rw (e, prune_node) (ground arith)
  ]

  nodes_loop_part :
      (cutoff : ℤ) (w : Pruning F) (id : String)
      → node_part id (foldl (prune_node fl cutoff) w (keys w.store.nodes))
        ≡ pruned_node cutoff (node_part id w)
  nodes_loop_part cutoff w id = ground (
    arith,
    range_view String_discrete (prune_node fl cutoff) node_part (λ _. pruned_node cutoff)
        (λ v i k h. ground (arith, node_part-prune_node cutoff v i k))
        (λ v k. ground (arith, node_part-prune_node cutoff v k k)) (λ _ (n, gone). ground arith)
        (keys w.store.nodes) w id,
    elem-keys String_discrete id w.store.nodes,
  )

  -- The loop over the edges drops an edge that is stale or lost an end.
  abbrev unfit : ℤ → List String → Option (Edge F) → Bool
  unfit cutoff gone none = false
  unfit cutoff gone (some e) =
      stale fl cutoff e.properties
      || elem String_discrete e.from gone
      || elem String_discrete e.to gone

  abbrev edge_part : EdgeKey → Pruning F → Option (Edge F) × List String
  edge_part k w = (edge_at w.store k, w.gone)

  abbrev pruned_edge : ℤ → Option (Edge F) × List String → Option (Edge F) × List String
  pruned_edge cutoff (e, gone) = (if unfit cutoff gone e then none else e, gone)

  edge_part-prune_edge :
      (cutoff : ℤ) (w : Pruning F) (j k : EdgeKey)
      → edge_part j (prune_edge fl cutoff w k)
        ≡ (if same j k then pruned_edge cutoff (edge_part j w) else edge_part j w)
  unfolding prune_edge
  edge_part-prune_edge cutoff w j k = elim (Option-cases (edge_at w.store k)) [
    | inl e ↦ rw (e, prune_edge) (ground arith)
    | inr (x, e) ↦
        rw (e, prune_edge) (ground (arith, lookup-erase EdgeKey-discrete j k w.store.edges))
  ]

  edges_loop_part :
      (cutoff : ℤ) (w : Pruning F) (j : EdgeKey)
      → edge_part j (foldl (prune_edge fl cutoff) w (keys w.store.edges))
        ≡ pruned_edge cutoff (edge_part j w)
  edges_loop_part cutoff w j = ground (
    arith,
    range_view EdgeKey-discrete (prune_edge fl cutoff) edge_part (λ _. pruned_edge cutoff)
        (λ v i k h. ground (arith, edge_part-prune_edge cutoff v i k))
        (λ v k. ground (arith, edge_part-prune_edge cutoff v k k)) (λ _ (e, gone). ground arith)
        (keys w.store.edges) w j,
    elem-keys EdgeKey-discrete j w.store.edges,
  )

  abbrev NodesStand : Store F → Pruning F → Type 0
  NodesStand s w =
      (w.store.nodes ≡ s.nodes)
      × (w.store.pending ≡ s.pending)
      × (w.store.pending_by_id ≡ s.pending_by_id)

  prune_edge-NodesStand :
      (cutoff : ℤ) (s : Store F) (w : Pruning F) (k : EdgeKey)
      → NodesStand s w
      → NodesStand s (prune_edge fl cutoff w k)
  unfolding prune_edge
  prune_edge-NodesStand cutoff s w k h = elim (Option-cases (edge_at w.store k)) [
    | inl e ↦ rw (e, prune_edge) h
    | inr (x, e) ↦ rw (e, prune_edge) (ground arith)
  ]

  abbrev stale_edge : ℤ → Option (Edge F) → Bool
  stale_edge cutoff none = false
  stale_edge cutoff (some e) = stale fl cutoff e.properties

  -- What Prune leaves, for each node, each edge and each parked edge.
  pub record Pruned (cutoff : ℤ) (s t : Store F) : Type 0 where
    pub nodes :
        (id : String)
        → node_at t id ≡ (if stale_node cutoff (node_at s id) then none else node_at s id)
    pub edges :
        (k : EdgeKey)
        → edge_at t k ≡ (
            if stale_edge cutoff (edge_at s k)
              || stale_node cutoff (node_at s k.from)
              || stale_node cutoff (node_at s k.to)
            then none
            else edge_at s k)
    pub pending : t.pending ≡ s.pending
    pub index : t.pending_by_id ≡ s.pending_by_id

  prune_loops-Pruned :
      (cutoff : ℤ) (s : Store F) → IsConsistent s → Pruned cutoff s (prune_loops fl cutoff s).store
  unfolding prune_loops
  prune_loops-Pruned cutoff s c =
      let start : Pruning F = record {
        store = s;
        stats = record { nodes = 0; edges = 0 };
        gone = [];
      } in
      let w = foldl (prune_node fl cutoff) start (keys s.nodes) in
      let edges =
        foldl_inv (EdgesStand s) (prune_node fl cutoff) (prune_node-EdgesStand cutoff s)
          (keys s.nodes) start (refl, refl, refl) in
      let nodes =
        foldl_inv (NodesStand w.store) (prune_edge fl cutoff) (prune_edge-NodesStand cutoff w.store)
          (keys w.store.edges) w (refl, refl, refl) in
      record {
        nodes = λ id. ground (arith, nodes, nodes_loop_part cutoff start id);
        edges = λ k. elim (Option-cases (edge_at s k)) [
          | inl e ↦ ground (arith, edges, edges_loop_part cutoff w k)
          | inr (x, e) ↦ ground (
            arith,
            edges,
            edges_loop_part cutoff w k,
            c.keyed k x e,
            nodes_loop_part cutoff start k.from,
            nodes_loop_part cutoff start k.to,
          )
        ];
        pending = ground (arith, edges, nodes);
        index = ground (arith, edges, nodes);
      }

  Pruned-IsConsistent :
      (cutoff : ℤ) (s t : Store F) → IsConsistent s → Pruned cutoff s t → IsConsistent t
  Pruned-IsConsistent cutoff s t c h = record {
    keyed = λ k e q. ground (arith, h.edges k, c.keyed k e);
    grounded = λ k q. ground (arith, h.edges k, h.nodes k.from, h.nodes k.to, c.grounded k);
    parked_keyed = λ k p q. ground (arith, h.pending, c.parked_keyed k p);
    indexed = λ id k. ground (arith, h.pending, h.index, c.indexed id k);
  }

  Pruned-IsSettled : (cutoff : ℤ) (s t : Store F) → IsSettled s → Pruned cutoff s t → IsSettled t
  Pruned-IsSettled cutoff s t c h k q = ground (arith, h.pending, h.nodes k.from, h.nodes k.to, c k)

  prune-SameGraph :
      (s : Store F) (before : Time)
      → SameGraph (prune_loops fl (unix before) s).store (prune fl s before).0
  unfolding prune
  prune-SameGraph s before = ground arith

  -- A prune keeps exactly the nodes that are not stale and the edges that are not stale and keep
  -- both ends, leaves what is parked, and keeps the invariant.
  pub prune_drops_stale :
      (s : Store F) (before : Time)
      → IsConsistent s
      → Pruned (unix before) s (prune fl s before).0
        × IsConsistent (prune fl s before).0
        × (IsSettled s → IsSettled (prune fl s before).0)
  prune_drops_stale s before c =
      let g = prune-SameGraph s before in
      let h = prune_loops-Pruned (unix before) s c in
      let u = (prune_loops fl (unix before) s).store in
      let t = (prune fl s before).0 in
      (
        record {
          nodes = λ id. ground (arith, g, h.nodes id);
          edges = λ k. ground (arith, g, h.edges k);
          pending = ground (arith, g, h.pending);
          index = ground (arith, g, h.index);
        },
        SameGraph-IsConsistent u t g (Pruned-IsConsistent (unix before) s u c h),
        λ q. SameGraph-IsSettled u t g (Pruned-IsSettled (unix before) s u q h),
      )
