-- ===== src/Graph/Memory/Withdrawal.antt =====
-- The loops of Sweep over the origins, read key by key (backend/internal/graph/memory/memory.go).
use mathlib.Core.List.{lookup}
use perspectivegraph.Base.Maps.{
  erase, keys, elem, elem-keys, lookup-insert, lookup-erase, range_view, foldl_inv,
}
use perspectivegraph.Base.{
  String, String_discrete, Bool, false, ◌||◌, Option, none, some, ◌≡◌, refl, arith, foldl, Time,
  is_some, is_yes, Option-cases, Bool-cases, inl, inr, if◌then◌else◌,
}
use perspectivegraph.Ontology.{Node, Edge}
use perspectivegraph.Graph.Memory.State.{
  Store, Parked, EdgeKey, EdgeKey-discrete, OriginKey, OriginKey-discrete, Origins, node_at,
  edge_at, parked_at, unpark,
}
use perspectivegraph.Graph.Memory.Sweep.{
  withdraw, Sweeping, retract_landed, retract_parked, sweep_edge, retract_node, sweep_node,
  sweeping, withdraw_all,
}
use perspectivegraph.Graph.Memory.Steps.{same, IsIndexed, unpark-IsIndexed}

-- What the sweep of one snapshot leaves of an element's origins: none where no one asserts it now.
unfoldable pub left : OriginKey → Time → Option Origins → Option Origins
left key taken none = none
left key taken (some os) =
    if (withdraw key taken os).1 then none else some (withdraw key taken os).0

-- The snapshot was the last to assert the element.
unfoldable pub withdrawn : OriginKey → Time → Option Origins → Bool
withdrawn key taken none = false
withdrawn key taken (some os) = (withdraw key taken os).1

left_idem :
    (key : OriginKey) (taken : Time) (o : Option Origins)
    → (left key taken (left key taken o) ≡ left key taken o)
      × (withdrawn key taken (left key taken o) ≡ false)
unfolding left withdrawn withdraw
left_idem key taken none = (refl, refl)
left_idem key taken (some os) = ground (arith, lookup-erase OriginKey-discrete key key os)

-- What the loops read and write for one edge.
abbrev EdgePart : Type 0 → Type 0
EdgePart F = Option (Edge F) × Option (Parked F) × Option Origins

abbrev NodePart : Type 0 → Type 0
NodePart F = Option (Node F) × Bool × Option Origins

module _ {F : Type 0} where
  abbrev edge_part : EdgeKey → Sweeping F → EdgePart F
  edge_part k w =
      (edge_at w.store k, parked_at w.store k, lookup EdgeKey-discrete k w.store.edge_origins)

  abbrev node_part : String → Sweeping F → NodePart F
  node_part id w = (
    node_at w.store id,
    elem String_discrete id w.gone,
    lookup String_discrete id w.store.node_origins,
  )

  abbrev retracted_edge : OriginKey → Time → EdgePart F → EdgePart F
  retracted_edge key taken (e, p, o) = (
    if withdrawn key taken o then none else e,
    if withdrawn key taken o then none else p,
    left key taken o,
  )

  abbrev retracted_node : OriginKey → Time → NodePart F → NodePart F
  retracted_node key taken (n, gone, o) = (
    if withdrawn key taken o then none else n,
    if withdrawn key taken o then gone || is_some n else gone,
    left key taken o,
  )

module _ {F : Type 0} where
  edge_part-retract_landed :
      (w : Sweeping F) (j k : EdgeKey)
      → edge_part j (retract_landed w k) ≡ (
        if same j k then none else edge_at w.store j,
        parked_at w.store j,
        lookup EdgeKey-discrete j w.store.edge_origins,
      )
  unfolding retract_landed
  edge_part-retract_landed w j k = ground (arith, lookup-erase EdgeKey-discrete j k w.store.edges)

  edge_part-retract_parked :
      (w : Sweeping F) (j k : EdgeKey)
      → edge_part j (retract_parked w k) ≡ (
        edge_at w.store j,
        if same j k then none else parked_at w.store j,
        lookup EdgeKey-discrete j w.store.edge_origins,
      )
  unfolding retract_parked unpark
  edge_part-retract_parked w j k = ground (arith, lookup-erase EdgeKey-discrete j k w.store.pending)

  retract_landed-IsIndexed :
      (w : Sweeping F) (k : EdgeKey) → IsIndexed w.store → IsIndexed (retract_landed w k).store
  unfolding retract_landed
  retract_landed-IsIndexed w k h = elim (Bool-cases (is_some (edge_at w.store k))) [
    | inl e ↦ rw e h
    | inr e ↦ rw e h
  ]

  retract_parked-IsIndexed :
      (w : Sweeping F) (k : EdgeKey) → IsIndexed w.store → IsIndexed (retract_parked w k).store
  unfolding retract_parked
  retract_parked-IsIndexed w k h = elim (Bool-cases (is_some (parked_at w.store k))) [
    | inl e ↦ rw e (unpark-IsIndexed w.store k h)
    | inr e ↦ rw e h
  ]

module _ {F : Type 0} (key : OriginKey) (taken : Time) where
  edge_part-sweep_edge :
      (w : Sweeping F) (j k : EdgeKey)
      → edge_part j (sweep_edge key taken w k)
        ≡ (if same j k then retracted_edge key taken (edge_part j w) else edge_part j w)
  unfolding sweep_edge left withdrawn
  edge_part-sweep_edge w j k =
      elim (Option-cases (lookup EdgeKey-discrete k w.store.edge_origins)) [
        | inl e ↦ rw (e, sweep_edge) (ground arith)
        | inr (os, e) ↦ elim (Bool-cases (withdraw key taken os).1) [
          | inl alone ↦
              let v = record w {
                store = record (w.store) {
                  edge_origins = erase EdgeKey-discrete k w.store.edge_origins;
                };
              } in
              rw (e, sweep_edge, alone)
                (ground (
                  arith,
                  edge_part-retract_parked (retract_landed v k) j k,
                  edge_part-retract_landed v j k,
                  lookup-erase EdgeKey-discrete j k w.store.edge_origins,
                ))
          | inr shared ↦
              rw (e, sweep_edge, shared)
                (ground (
                  arith,
                  lookup-insert EdgeKey-discrete j k (withdraw key taken os).0 w.store.edge_origins,
                ))
        ]
      ]

  node_part-sweep_node :
      (w : Sweeping F) (j k : String)
      → node_part j (sweep_node key taken w k) ≡ (
          if is_yes (String_discrete j k)
          then retracted_node key taken (node_part j w)
          else node_part j w)
  unfolding sweep_node retract_node left withdrawn
  node_part-sweep_node w j k = elim (Option-cases (lookup String_discrete k w.store.node_origins)) [
    | inl e ↦ rw (e, sweep_node) (ground arith)
    | inr (os, e) ↦ elim (Bool-cases (withdraw key taken os).1) [
      | inl alone ↦
          rw (e, sweep_node, alone)
            (ground (
              arith,
              lookup-erase String_discrete j k w.store.node_origins,
              lookup-erase String_discrete j k w.store.nodes,
            ))
      | inr shared ↦
          rw (e, sweep_node, shared)
            (ground (
              arith,
              lookup-insert String_discrete j k (withdraw key taken os).0 w.store.node_origins,
            ))
    ]
  ]

  -- What the loop over the edges' origins does not touch.
  abbrev NodesStand : Sweeping F → Sweeping F → Type 0
  NodesStand v w =
      (w.store.nodes ≡ v.store.nodes)
      × (w.gone ≡ v.gone)
      × (w.store.node_origins ≡ v.store.node_origins)

  sweep_edge-NodesStand :
      (v w : Sweeping F) (k : EdgeKey) → NodesStand v w → NodesStand v (sweep_edge key taken w k)
  unfolding sweep_edge retract_landed retract_parked unpark
  sweep_edge-NodesStand v w k h =
      elim (Option-cases (lookup EdgeKey-discrete k w.store.edge_origins)) [
        | inl e ↦ rw (e, sweep_edge) h
        | inr (os, e) ↦ elim (Bool-cases (withdraw key taken os).1) [
          | inl alone ↦ rw (e, sweep_edge, alone) (ground arith)
          | inr shared ↦ rw (e, sweep_edge, shared) (ground arith)
        ]
      ]

  sweep_edge-IsIndexed :
      (w : Sweeping F) (k : EdgeKey)
      → IsIndexed w.store
      → IsIndexed (sweep_edge key taken w k).store
  unfolding sweep_edge retract_landed retract_parked
  sweep_edge-IsIndexed w k h =
      elim (Option-cases (lookup EdgeKey-discrete k w.store.edge_origins)) [
        | inl e ↦ rw (e, sweep_edge) h
        | inr (os, e) ↦ elim (Bool-cases (withdraw key taken os).1) [
          | inl alone ↦
              rw (e, sweep_edge, alone)
                (retract_parked-IsIndexed _ k (retract_landed-IsIndexed _ k h))
          | inr shared ↦ rw (e, sweep_edge, shared) h
        ]
      ]

  -- What the loop over the nodes' origins does not touch.
  abbrev EdgesStand : Sweeping F → Sweeping F → Type 0
  EdgesStand v w =
      (w.store.edges ≡ v.store.edges)
      × (w.store.pending ≡ v.store.pending)
      × (w.store.pending_by_id ≡ v.store.pending_by_id)
      × (w.store.edge_origins ≡ v.store.edge_origins)

  sweep_node-EdgesStand :
      (v w : Sweeping F) (id : String) → EdgesStand v w → EdgesStand v (sweep_node key taken w id)
  unfolding sweep_node retract_node
  sweep_node-EdgesStand v w id h =
      elim (Option-cases (lookup String_discrete id w.store.node_origins)) [
        | inl e ↦ rw (e, sweep_node) h
        | inr (os, e) ↦ elim (Bool-cases (withdraw key taken os).1) [
          | inl alone ↦ rw (e, sweep_node, alone) (ground arith)
          | inr shared ↦ rw (e, sweep_node, shared) (ground arith)
        ]
      ]

  edges_loop : Store F → Sweeping F
  edges_loop s = foldl (sweep_edge key taken) (sweeping s) (keys s.edge_origins)

  edges_loop_part :
      (s : Store F) (j : EdgeKey)
      → edge_part j (edges_loop s) ≡ retracted_edge key taken (edge_part j (sweeping s))
  unfolding edges_loop left withdrawn
  edges_loop_part s j = ground (
    arith,
    range_view EdgeKey-discrete (sweep_edge key taken) edge_part (λ _. retracted_edge key taken)
        (λ w i k h. ground (arith, edge_part-sweep_edge w i k))
        (λ w k. ground (arith, edge_part-sweep_edge w k k))
        (λ _ (_, _, o). ground (arith, left_idem key taken o)) (keys s.edge_origins) (sweeping s) j,
    elem-keys EdgeKey-discrete j s.edge_origins,
  )

  nodes_loop_part :
      (w : Sweeping F) (id : String)
      → node_part id (foldl (sweep_node key taken) w (keys w.store.node_origins))
        ≡ retracted_node key taken (node_part id w)
  unfolding left withdrawn
  nodes_loop_part w id = ground (
    arith,
    range_view String_discrete (sweep_node key taken) node_part (λ _. retracted_node key taken)
        (λ v i k h. ground (arith, node_part-sweep_node v i k))
        (λ v k. ground (arith, node_part-sweep_node v k k))
        (λ _ (_, _, o). ground (arith, left_idem key taken o)) (keys w.store.node_origins) w id,
    elem-keys String_discrete id w.store.node_origins,
  )

  -- After the two loops over the origins, for each edge and each node: what only this snapshot
  -- asserted is gone, and the nodes that went are in `gone`.
  pub withdraw_all_parts :
      (s : Store F) (j : EdgeKey) (id : String)
      → let w = withdraw_all key taken s in
        (edge_part j w ≡ retracted_edge key taken (edge_part j (sweeping s)))
        × (node_part id w ≡ retracted_node key taken (node_part id (sweeping s)))
        × (IsIndexed s → IsIndexed w.store)
  unfolding withdraw_all edges_loop
  withdraw_all_parts s j id =
      let v = edges_loop s in
      let ks = keys v.store.node_origins in
      let stand =
        foldl_inv (EdgesStand v) (sweep_node key taken) (sweep_node-EdgesStand v) ks v
          (refl, refl, refl, refl) in
      let nodes =
        foldl_inv (NodesStand (sweeping s)) (sweep_edge key taken)
          (sweep_edge-NodesStand (sweeping s)) (keys s.edge_origins) (sweeping s)
          (refl, refl, refl) in
      (
        ground (arith, stand, edges_loop_part s j),
        ground (arith, nodes, nodes_loop_part v id),
        λ h i k. ground (
          arith,
          stand,
          foldl_inv (λ w. IsIndexed w.store) (sweep_edge key taken) sweep_edge-IsIndexed
              (keys s.edge_origins) (sweeping s) h i k,
        ),
      )
