-- ===== src/Graph/Memory/Upsert.antt =====
-- UpsertNode, UpsertEdge and the batches (backend/internal/graph/memory/memory.go).
use perspectivegraph.Base.Maps.{insert, erase, keys}
use perspectivegraph.Base.{
  ◌-◌, ◌*◌, String_discrete, not, Option, none, some, List, [], ◌∷◌, ◌++◌, foldl, Time, second,
  Floats, ltb, is_yes, if◌then◌else◌,
}
use perspectivegraph.Ontology.{Node, Edge}
use perspectivegraph.Graph.Contract.{
  Origin, Result, ok, err, endpoints_missing, merge_props, pending_edge_ttl,
}
use perspectivegraph.Graph.Memory.State.{
  Store, Parked, EdgeKey, EdgeKey-discrete, edge_key, node_at, parked_at, waiting_on, present,
  put_edge, land, park, unpark, note,
}

module _ {F : Type 0} where
  -- The node that upsertNodeLocked stores over what it finds.
  unfoldable pub merged_node : Node F → Option (Node F) → Node F
  merged_node n none = n
  merged_node n (some old) = record n {
    properties = merge_props old.properties n.properties;
    name = if is_yes (String_discrete n.name "") then old.name else n.name;
  }

  -- upsertNodeLocked
  unfoldable pub upsert_node : Store F → Node F → Store F
  unfolding merged_node
  upsert_node s n = record s {
    nodes = insert String_discrete n.id (merged_node n (node_at s n.id)) s.nodes;
  }

  -- UpsertEdge: an edge with a missing end is refused.
  unfoldable pub upsert_edge : Floats F → Store F → Edge F → Result (Store F)
  upsert_edge fl s e =
      if not (present s (edge_key e))
      then err (endpoints_missing e.typ e.from e.to)
      else ok (put_edge fl s e)

  -- The loop body of sweepPendingLocked.
  unfoldable pub expire : Time → Store F → EdgeKey → Store F
  expire now s k = elim (parked_at s k) [
    | none ↦ s
    | some p ↦
        if ltb pending_edge_ttl (now - p.at)
        then record (unpark s k) { edge_origins = erase EdgeKey-discrete k s.edge_origins }
        else s
  ]

  -- sweepPendingLocked
  unfoldable pub sweep_pending : Store F → Time → Store F
  unfolding expire
  sweep_pending s now =
      if ltb (now - s.pending_swept) (60 * second)
      then s
      else foldl (expire now) (record s { pending_swept = now }) (keys s.pending)

  -- takePendingLocked: the taken edges, and the store without them.
  unfoldable pub take_key : List (Parked F) × Store F → EdgeKey → List (Parked F) × Store F
  take_key (out, s) k = elim (parked_at s k) [
    | none ↦ (out, s)
    | some p ↦ (out ++ p ∷ [], unpark s k)
  ]

  unfoldable pub take_node : List (Parked F) × Store F → Node F → List (Parked F) × Store F
  unfolding take_key
  take_node (out, s) n = foldl take_key (out, s) (keys (waiting_on s n.id))

  unfoldable pub take_pending : Store F → List (Node F) → List (Parked F) × Store F
  unfolding take_node
  take_pending s nodes = foldl take_node ([], s) nodes

  unfoldable pub note_node : Option Origin → Store F → Node F → Store F
  note_node none s n = s
  note_node (some o) s n = record s { node_origins = note String_discrete s.node_origins n.id o }

  unfoldable pub note_edge : Option Origin → Store F → Edge F → Store F
  note_edge none s e = s
  note_edge (some o) s e = record s {
    edge_origins = note EdgeKey-discrete s.edge_origins (edge_key e) o;
  }

  -- The loop bodies of upsertBatchLocked.
  unfoldable pub batch_node : Option Origin → Store F → Node F → Store F
  unfolding upsert_node note_node
  batch_node o s n = note_node o (upsert_node s n) n

  unfoldable pub land_or_park : Floats F → Store F → Edge F → Time → Store F
  land_or_park fl s e at = let (s', landed) = land fl s e in if not landed then park s' e at else s'

  unfoldable pub reland : Floats F → Store F → Parked F → Store F
  unfolding land_or_park
  reland fl s p = land_or_park fl s p.edge p.at

  unfoldable pub batch_edge : Floats F → Option Origin → Time → Store F → Edge F → Store F
  unfolding land_or_park note_edge
  batch_edge fl o now s e = note_edge o (land_or_park fl s e now) e

  -- upsertBatchLocked
  unfoldable pub upsert_batch_locked :
      Floats F → Store F → List (Node F) → List (Edge F) → Option Origin → Time → Store F
  unfolding sweep_pending batch_node take_pending reland batch_edge
  upsert_batch_locked fl s nodes edges o now =
      let s₁ = foldl (batch_node o) (sweep_pending s now) nodes in
      let (taken, s₂) = take_pending s₁ nodes in
      let s₃ = foldl (reland fl) s₂ taken in foldl (batch_edge fl o now) s₃ edges

  -- UpsertBatch
  unfoldable pub upsert_batch : Floats F → Store F → List (Node F) → List (Edge F) → Time → Store F
  unfolding upsert_batch_locked
  upsert_batch fl s nodes edges now = upsert_batch_locked fl s nodes edges none now

  -- UpsertBatchFrom
  unfoldable pub upsert_batch_from :
      Floats F → Store F → Origin → List (Node F) → List (Edge F) → Time → Store F
  unfolding upsert_batch_locked
  upsert_batch_from fl s o nodes edges now = upsert_batch_locked fl s nodes edges (some o) now
