-- ===== src/Graph/Memory/Batch.antt =====
-- What a batch does: it keeps the invariant, leaves nothing waiting that could land, and loses no
-- edge.
use perspectivegraph.Base.Maps.{foldl_inv}
use perspectivegraph.Graph.Memory.Consistent.{nodes-land_or_park}
use perspectivegraph.Base.{
  ◌∙◌, Bool, true, false, ◌||◌, Option, none, some, List, [], ◌∷◌, ◌≡◌, refl, arith, foldl, Time,
  Floats, is_some, if◌then◌else◌,
}
use perspectivegraph.Ontology.{Node, Edge}
use perspectivegraph.Graph.Contract.{Origin}
use perspectivegraph.Graph.Memory.State.{
  Store, Parked, EdgeKey, edge_key, edge_at, parked_at, present,
}
use perspectivegraph.Graph.Memory.Upsert.{
  upsert_node, sweep_pending, take_node, take_pending, note_node, note_edge, batch_node,
  land_or_park, reland, batch_edge, upsert_batch_locked,
}
use perspectivegraph.Graph.Memory.Steps.{same}
use perspectivegraph.Graph.Memory.Consistent.{
  IsConsistent, IsSettled, SameGraph, SameGraph-IsConsistent, SameGraph-IsSettled,
  node_at-upsert_node, upsert_node-IsConsistent, land_or_park-IsConsistent, land_or_park-IsSettled,
  parked-land_or_park, landed-land_or_park,
}
use perspectivegraph.Graph.Memory.Taking.{
  named, taken, carried, Carries, take_node-Carries, take_pending_from, Untouched,
  take_node-Untouched,
}
use perspectivegraph.Graph.Memory.Expiry.{
  sweep_pending-IsConsistent, sweep_pending-IsSettled, sweep_pending-Standing,
  parked_at-sweep_pending, due, unexpired,
}

abbrev unnamed : EdgeKey
unnamed = record { typ = ""; from = ""; to = "" }

module _ {F : Type 0} where
  -- The parked edge of a key that the look at the ages leaves.
  abbrev pub surviving : Store F → Time → EdgeKey → Option (Parked F)
  surviving s now k = if due s now then unexpired now (parked_at s k) else parked_at s k

  -- An edge is held: in the graph, or parked.
  abbrev pub held : Store F → EdgeKey → Bool
  held s k = is_some (edge_at s k) || is_some (parked_at s k)

  pub held-land_or_park :
      (fl : Floats F) (s : Store F) (e : Edge F) (at : Time) (k : EdgeKey)
      → held (land_or_park fl s e at) k ≡ (held s k || same k (edge_key e))
  held-land_or_park fl s e at k =
      ground (arith, landed-land_or_park fl s e at k, parked-land_or_park fl s e at k)

  -- The loop that lands or parks what was taken.
  reland_all :
      (fl : Floats F) (ps : List (Parked F)) (s : Store F) (k : EdgeKey)
      → held (foldl (reland fl) s ps) k ≡ (held s k || taken k ps)
  unfolding reland
  reland_all fl [] s k = ground arith
  reland_all fl (p ∷ ps) s k =
      ground (arith, reland_all fl ps (reland fl s p) k, held-land_or_park fl s p.edge p.at k)

  note_edge-SameGraph :
      (o : Option Origin) (s : Store F) (e : Edge F) → SameGraph s (note_edge o s e)
  unfolding note_edge
  note_edge-SameGraph none s e = (refl, refl, refl, refl)
  note_edge-SameGraph (some o) s e = (refl, refl, refl, refl)

  note_node-SameGraph :
      (o : Option Origin) (s : Store F) (n : Node F) → SameGraph s (note_node o s n)
  unfolding note_node
  note_node-SameGraph none s n = (refl, refl, refl, refl)
  note_node-SameGraph (some o) s n = (refl, refl, refl, refl)

  -- The edges of the batch.
  abbrev pub listed : EdgeKey → List (Edge F) → Bool
  listed k [] = false
  listed k (e ∷ es) = same k (edge_key e) || listed k es

  batch_edge-held :
      (fl : Floats F) (o : Option Origin) (now : Time) (s : Store F) (e : Edge F) (k : EdgeKey)
      → held (batch_edge fl o now s e) k ≡ (held s k || same k (edge_key e))
  unfolding batch_edge
  batch_edge-held fl o now s e k =
      let t = land_or_park fl s e now in
      ground (arith, note_edge-SameGraph o t e, held-land_or_park fl s e now k)

  batch_edges_held :
      (fl : Floats F) (o : Option Origin) (now : Time) (es : List (Edge F)) (s : Store F)
      (k : EdgeKey)
      → held (foldl (batch_edge fl o now) s es) k ≡ (held s k || listed k es)
  batch_edges_held fl o now [] s k = ground arith
  batch_edges_held fl o now (e ∷ es) s k = ground (
    arith,
    batch_edges_held fl o now es (batch_edge fl o now s e) k,
    batch_edge-held fl o now s e k,
  )

  batch_node-held :
      (o : Option Origin) (s : Store F) (n : Node F)
      → ((batch_node o s n).edges ≡ s.edges) × ((batch_node o s n).pending ≡ s.pending)
  unfolding batch_node upsert_node note_node
  batch_node-held none s n = (refl, refl)
  batch_node-held (some o) s n = (refl, refl)

  -- While the nodes of a batch are written, an edge that names none of them gains no end.
  pub batch_nodes_present :
      (o : Option Origin) (ns : List (Node F)) (s : Store F) (k : EdgeKey)
      → (named k ns ≡ false → present (foldl (batch_node o) s ns) k ≡ present s k)
        × ((foldl (batch_node o) s ns).edges ≡ s.edges)
        × ((foldl (batch_node o) s ns).pending ≡ s.pending)
  unfolding named batch_node
  batch_nodes_present o [] s k = (λ _. refl, refl, refl)
  batch_nodes_present o (n ∷ ns) s k = ground (
    arith,
    batch_nodes_present o ns (batch_node o s n) k,
    batch_node-held o s n,
    note_node-SameGraph o (upsert_node s n) n,
    node_at-upsert_node s n k.from,
    node_at-upsert_node s n k.to,
  )

  batch_node-IsConsistent :
      (o : Option Origin) (s : Store F) (n : Node F)
      → IsConsistent s
      → IsConsistent (batch_node o s n)
  unfolding batch_node
  batch_node-IsConsistent o s n c =
      SameGraph-IsConsistent (upsert_node s n) _ (note_node-SameGraph o (upsert_node s n) n)
        (upsert_node-IsConsistent s n c)

  batch_edge-IsConsistent :
      (fl : Floats F) (o : Option Origin) (now : Time) (s : Store F) (e : Edge F)
      → IsConsistent s
      → IsConsistent (batch_edge fl o now s e)
  unfolding batch_edge
  batch_edge-IsConsistent fl o now s e c =
      let t = land_or_park fl s e now in
      SameGraph-IsConsistent t _ (note_edge-SameGraph o t e)
        (land_or_park-IsConsistent fl s e now c)

  batch_edge-IsSettled :
      (fl : Floats F) (o : Option Origin) (now : Time) (s : Store F) (e : Edge F)
      → IsSettled s
      → IsSettled (batch_edge fl o now s e)
  unfolding batch_edge
  batch_edge-IsSettled fl o now s e h =
      let t = land_or_park fl s e now in
      SameGraph-IsSettled t (note_edge o t e) (note_edge-SameGraph o t e)
        (land_or_park-IsSettled fl s e now h)

  -- The store when the batch has written its nodes and taken what waited for them.
  take_stage :
      (o : Option Origin) (ns : List (Node F)) (s : Store F) (k : EdgeKey)
      → IsConsistent s
      → let w = take_pending (foldl (batch_node o) s ns) ns in
        IsConsistent w.1
        × (IsSettled s → is_some (parked_at w.1 k) ≡ true → present w.1 k ≡ false)
        × ((held w.1 k || taken k w.0) ≡ held s k)
  unfolding take_pending
  take_stage o ns s k c =
      let t = foldl (batch_node o) s ns in
      let c' = foldl_inv IsConsistent (batch_node o) (batch_node-IsConsistent o) ns s c in
      let untouched =
        foldl_inv (Untouched t) take_node (take_node-Untouched t) ns ([], t) (refl, refl) in
      let carries =
        foldl_inv (Carries k (carried k ([], t))) take_node (take_node-Carries k _) ns ([], t)
          (c', refl) in
      let (c'', left) = take_pending_from ns ([], t) k c' in
      (
        c'',
        λ h q. ground (arith, h k, left, untouched, batch_nodes_present o ns s k),
        ground (arith, carries, untouched, batch_nodes_present o ns s k),
      )

  -- A batch keeps the invariant of the store.
  pub upsert_batch_locked-IsConsistent :
      (fl : Floats F) (s : Store F) (ns : List (Node F)) (es : List (Edge F)) (o : Option Origin)
      (now : Time)
      → IsConsistent s
      → IsConsistent (upsert_batch_locked fl s ns es o now)
  unfolding upsert_batch_locked reland
  upsert_batch_locked-IsConsistent fl s ns es o now c =
      let w = take_pending (foldl (batch_node o) (sweep_pending s now) ns) ns in
      let kept =
        take_stage o ns (sweep_pending s now) unnamed (sweep_pending-IsConsistent s now c) in
      foldl_inv IsConsistent (batch_edge fl o now) (batch_edge-IsConsistent fl o now) es
        (foldl (reland fl) w.1 w.0)
        (foldl_inv IsConsistent (reland fl) (λ t p. land_or_park-IsConsistent fl t p.edge p.at) w.0
          w.1 kept.0)

  -- After a batch nothing waits that could land.
  pub upsert_batch_locked-IsSettled :
      (fl : Floats F) (s : Store F) (ns : List (Node F)) (es : List (Edge F)) (o : Option Origin)
      (now : Time)
      → IsConsistent s
      → IsSettled s
      → IsSettled (upsert_batch_locked fl s ns es o now)
  unfolding upsert_batch_locked reland
  upsert_batch_locked-IsSettled fl s ns es o now c h =
      let t = sweep_pending s now in
      let w = take_pending (foldl (batch_node o) t ns) ns in
      foldl_inv IsSettled (batch_edge fl o now) (batch_edge-IsSettled fl o now) es
        (foldl (reland fl) w.1 w.0)
        (foldl_inv IsSettled (reland fl) (λ u p. land_or_park-IsSettled fl u p.edge p.at) w.0 w.1
          (λ k.
            (take_stage o ns t k (sweep_pending-IsConsistent s now c)).1
              (sweep_pending-IsSettled s now h)))

  -- After a batch the store holds, landed or parked, exactly what it held and what has not expired,
  -- and the edges of the batch.
  pub held-upsert_batch_locked :
      (fl : Floats F) (s : Store F) (ns : List (Node F)) (es : List (Edge F)) (o : Option Origin)
      (now : Time) (k : EdgeKey)
      → IsConsistent s
      → held (upsert_batch_locked fl s ns es o now) k
        ≡ (is_some (edge_at s k) || is_some (surviving s now k) || listed k es)
  unfolding upsert_batch_locked
  held-upsert_batch_locked fl s ns es o now k c =
      let t = sweep_pending s now in
      let w = take_pending (foldl (batch_node o) t ns) ns in
      ground (
        arith,
        (take_stage o ns t k (sweep_pending-IsConsistent s now c)).2,
        batch_edges_held fl o now es (foldl (reland fl) w.1 w.0) k,
        reland_all fl w.0 w.1 k,
        sweep_pending-Standing s now,
        parked_at-sweep_pending s now k,
      )

  nodes-batch_edge :
      (fl : Floats F) (o : Option Origin) (now : Time) (s : Store F) (e : Edge F)
      → (batch_edge fl o now s e).nodes ≡ s.nodes
  unfolding batch_edge
  nodes-batch_edge fl o now s e =
      (note_edge-SameGraph o (land_or_park fl s e now) e).0 ∙ nodes-land_or_park fl s e now

  -- Only the loop over the nodes writes nodes.
  pub nodes-upsert_batch_locked :
      (fl : Floats F) (s : Store F) (ns : List (Node F)) (es : List (Edge F)) (o : Option Origin)
      (now : Time)
      → (upsert_batch_locked fl s ns es o now).nodes
        ≡ (foldl (batch_node o) (sweep_pending s now) ns).nodes
  unfolding upsert_batch_locked reland take_pending
  nodes-upsert_batch_locked fl s ns es o now =
      let t = foldl (batch_node o) (sweep_pending s now) ns in
      let w = take_pending t ns in
      let untouched =
        foldl_inv (Untouched t) take_node (take_node-Untouched t) ns ([], t) (refl, refl) in
      let same_nodes : Store F → Type 0 = λ u. u.nodes ≡ t.nodes in
      foldl_inv same_nodes (batch_edge fl o now) (λ u e h. nodes-batch_edge fl o now u e ∙ h) es
        (foldl (reland fl) w.1 w.0)
        (foldl_inv same_nodes (reland fl) (λ u p h. nodes-land_or_park fl u p.edge p.at ∙ h) w.0 w.1
          untouched.0)
