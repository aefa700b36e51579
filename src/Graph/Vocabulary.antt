-- ===== src/Graph/Vocabulary.antt =====
-- The graph stays within the closed vocabulary, whatever events are applied (ApplyEvent in
-- backend/internal/graph/store.go).
use perspectivegraph.Base.Maps.{lookup-insert}
use perspectivegraph.Base.{
  String, String_discrete, Bool, true, ◌&&◌, Option, none, some, List, [], ◌∷◌, ◌≡◌, refl, arith,
  foldl, Time, unix, ℤ, Floats, is_yes, ◌==◌, if◌then◌else◌,
}
use perspectivegraph.Ontology.{Node, Edge, Event, is_valid_label, is_valid_edge_type}
use perspectivegraph.Graph.Contract.{Origin}
use perspectivegraph.Graph.Memory.State.{Store, EdgeKey, EdgeKey-discrete, edge_key, node_at}
use perspectivegraph.Graph.Memory.Upsert.{
  merged_node, upsert_node, note_node, batch_node, upsert_batch_from, sweep_pending,
}
use perspectivegraph.Graph.Memory.Consistent.{IsConsistent}
use perspectivegraph.Graph.Memory.Expiry.{sweep_pending-Standing}
use perspectivegraph.Graph.Memory.Batch.{
  held, listed, held-upsert_batch_locked, nodes-upsert_batch_locked,
}
use perspectivegraph.Graph.Events.{keep_nodes, dropped_ids, keep_edges, origin_of, apply_event}

module _ {F : Type 0} where
  abbrev pub labelled : Option (Node F) → Bool
  labelled none = true
  labelled (some n) = is_valid_label n.label

  -- Every node has a label of the ontology, and every edge, landed or parked, one of its types.
  pub record IsInOntology (s : Store F) : Type 0 where
    pub labels : (id : String) → labelled (node_at s id) ≡ true
    pub types : (k : EdgeKey) → held s k ≡ true → is_valid_edge_type k.typ ≡ true

  all_labelled : List (Node F) → Bool
  all_labelled [] = true
  all_labelled (n ∷ ns) = is_valid_label n.label && all_labelled ns

  all_labelled-keep_nodes : (ts : ℤ) (ns : List (Node F)) → all_labelled (keep_nodes ts ns) ≡ true
  unfolding keep_nodes all_labelled
  all_labelled-keep_nodes ts [] = refl
  all_labelled-keep_nodes ts (n ∷ ns) = ground (arith, all_labelled-keep_nodes ts ns)

  label-merged_node : (n : Node F) (o : Option (Node F)) → (merged_node n o).label ≡ n.label
  unfolding merged_node
  label-merged_node n none = refl
  label-merged_node n (some old) = refl

  node_at-batch_node :
      (o : Option Origin) (s : Store F) (n : Node F) (id : String)
      → node_at (batch_node o s n) id ≡ (
          if is_yes (String_discrete id n.id)
          then some (merged_node n (node_at s n.id))
          else node_at s id)
  unfolding batch_node upsert_node note_node
  node_at-batch_node none s n id =
      ground (arith, lookup-insert String_discrete id n.id (merged_node n (node_at s n.id)) s.nodes)
  node_at-batch_node (some o) s n id =
      ground (arith, lookup-insert String_discrete id n.id (merged_node n (node_at s n.id)) s.nodes)

  labelled-batch_nodes :
      (o : Option Origin) (ns : List (Node F)) (s : Store F) (id : String)
      → all_labelled ns ≡ true
      → labelled (node_at s id) ≡ true
      → labelled (node_at (foldl (batch_node o) s ns) id) ≡ true
  unfolding all_labelled
  labelled-batch_nodes o [] s id v h = h
  labelled-batch_nodes o (n ∷ ns) s id v h = ground (
    arith,
    labelled-batch_nodes o ns (batch_node o s n) id,
    node_at-batch_node o s n id,
    label-merged_node n (node_at s n.id),
  )

  -- The edges that stay have types of the ontology.
  listed-keep_edges :
      (ts : ℤ) (dropped : List String) (es : List (Edge F)) (k : EdgeKey)
      → listed k (keep_edges ts dropped es) ≡ true
      → is_valid_edge_type k.typ ≡ true
  unfolding keep_edges
  listed-keep_edges ts dropped [] k h = cc
  listed-keep_edges ts dropped (e ∷ es) k h = elim (EdgeKey-discrete k (edge_key e)) [
    | yes p ↦ ground (arith, listed-keep_edges ts dropped es k)
    | no p ↦ ground (arith, listed-keep_edges ts dropped es k)
  ]

  -- Applying any event keeps the graph within the ontology.
  pub apply_event-IsInOntology :
      (fl : Floats F) (s : Store F) (ev : Event F) (stamp noted now : Time)
      → IsConsistent s
      → IsInOntology s
      → IsInOntology (apply_event fl s ev stamp noted now)
  unfolding apply_event upsert_batch_from
  apply_event-IsInOntology fl s ev stamp noted now c h =
      let ts = unix (if ev.observed_at == 0 then stamp else ev.observed_at) in
      let o = some (origin_of ev.source ev.snapshot noted) in
      let ns = keep_nodes ts ev.nodes in
      let es = keep_edges ts (dropped_ids ev.nodes) ev.edges in
      record {
        labels = λ id. ground (
          arith,
          nodes-upsert_batch_locked fl s ns es o now,
          labelled-batch_nodes o ns (sweep_pending s now) id,
          all_labelled-keep_nodes ts ev.nodes,
          sweep_pending-Standing s now,
          h.labels id,
        );
        types = λ k q. ground (
          arith,
          held-upsert_batch_locked fl s ns es o now k c,
          listed-keep_edges ts (dropped_ids ev.nodes) ev.edges k,
          h.types k,
        );
      }
