-- ===== src/Graph/Events.antt =====
-- ApplyEvent on the in-memory store (backend/internal/graph/store.go): what of an event enters the
-- graph, and under which origin. Of the three readings of the clock, one stamps the elements, one is
-- the origin's time and one is the store's own.
use perspectivegraph.Base.Maps.{elem}
use perspectivegraph.Base.{
  String, String_discrete, not, ◌||◌, Option, none, some, List, [], ◌∷◌, Time, unix, ℤ, Floats,
  is_yes, ◌==◌, if◌then◌else◌,
}
use perspectivegraph.Ontology.{Node, Edge, Event, Declaration, is_valid_label, is_valid_edge_type}
use perspectivegraph.Graph.Contract.{Origin, with_last_seen}
use perspectivegraph.Graph.Memory.State.{Store}
use perspectivegraph.Graph.Memory.Upsert.{upsert_batch_from}

-- The origin of an event's elements: a complete snapshot gives its scope and the time it was taken.
unfoldable pub origin_of : String → Option Declaration → Time → Origin
origin_of source none now = record { source = source; scope = ""; seen = now }
origin_of source (some d) now =
    if is_yes (String_discrete d.scope "")
    then record { source = source; scope = ""; seen = now }
    else record { source = source; scope = d.scope; seen = if d.taken == 0 then now else d.taken }

module _ {F : Type 0} where
  abbrev stamp_node : ℤ → Node F → Node F
  stamp_node ts n = record n { properties = with_last_seen n.properties ts }

  abbrev stamp_edge : ℤ → Edge F → Edge F
  stamp_edge ts e = record e { properties = with_last_seen e.properties ts }

  -- The first loop: the nodes that stay, and the ids of those dropped.
  unfoldable pub keep_nodes : ℤ → List (Node F) → List (Node F)
  keep_nodes ts [] = []
  keep_nodes ts (n ∷ ns) =
      let rest = keep_nodes ts ns in
      if not (is_valid_label n.label) then rest else stamp_node ts n ∷ rest

  unfoldable pub dropped_ids : List (Node F) → List String
  dropped_ids [] = []
  dropped_ids (n ∷ ns) =
      let rest = dropped_ids ns in if not (is_valid_label n.label) then n.id ∷ rest else rest

  -- The second loop: an edge to a dropped node goes with it.
  unfoldable pub keep_edges : ℤ → List String → List (Edge F) → List (Edge F)
  keep_edges ts dropped [] = []
  keep_edges ts dropped (e ∷ es) =
      let rest = keep_edges ts dropped es in
      if not (is_valid_edge_type e.typ)
        || elem String_discrete e.from dropped
        || elem String_discrete e.to dropped
      then rest
      else stamp_edge ts e ∷ rest

  unfoldable pub apply_event : Floats F → Store F → Event F → Time → Time → Time → Store F
  unfolding keep_nodes dropped_ids keep_edges origin_of upsert_batch_from
  apply_event fl s ev stamp noted now =
      let ts = unix (if ev.observed_at == 0 then stamp else ev.observed_at) in
      upsert_batch_from fl s (origin_of ev.source ev.snapshot noted) (keep_nodes ts ev.nodes)
        (keep_edges ts (dropped_ids ev.nodes) ev.edges) now
