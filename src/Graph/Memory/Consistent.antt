-- ===== src/Graph/Memory/Consistent.antt =====
-- The store's invariant, and that the steps keep it.
use perspectivegraph.Base.Maps.{lookup-insert}
use perspectivegraph.Base.{
  String, String_discrete, true, false, not, ◌&&◌, ◌||◌, Option, none, some, ◌≡◌, refl, arith, Time,
  Floats, is_some, is_yes, Bool-cases, inl, inr,
}
use perspectivegraph.Ontology.{Node, Edge}
use perspectivegraph.Graph.Memory.State.{
  Store, Parked, EdgeKey, edge_key, node_at, edge_at, parked_at, present, merged, put_edge, land,
  park, unpark,
}
use perspectivegraph.Graph.Memory.Upsert.{merged_node, upsert_node, land_or_park}
use perspectivegraph.Graph.Memory.Steps.{
  same, edge_at-put_edge, parked_at-park, parked_at-unpark, IsIndexed, park-IsIndexed,
  unpark-IsIndexed,
}

-- Every edge stands under its own key with both ends in the graph, every parked edge under its own
-- key, and the index lists, for each id, exactly the parked edges that name it.
pub record IsConsistent {F : Type 0} (s : Store F) : Type 0 where
  pub keyed : (k : EdgeKey) (e : Edge F) → edge_at s k ≡ some e → edge_key e ≡ k
  pub grounded : (k : EdgeKey) → is_some (edge_at s k) ≡ true → present s k ≡ true
  pub parked_keyed : (k : EdgeKey) (p : Parked F) → parked_at s k ≡ some p → edge_key p.edge ≡ k
  pub indexed : IsIndexed s

-- No parked edge has both ends in the graph: what could land has landed.
abbrev pub IsSettled : {F : Type 0} → Store F → Type 0
IsSettled s = (k : EdgeKey) → is_some (parked_at s k) ≡ true → present s k ≡ false

module _ {F : Type 0} where
  edge_key-merged :
      (fl : Floats F) (e : Edge F) (o : Option (Edge F))
      → ((old : Edge F) → o ≡ some old → edge_key old ≡ edge_key e)
      → edge_key (merged fl e o) ≡ edge_key e
  unfolding merged
  edge_key-merged fl e none h = refl
  edge_key-merged fl e (some old) h = ground (arith, h old refl)

  pub put_edge-IsConsistent :
      (fl : Floats F) (s : Store F) (e : Edge F)
      → present s (edge_key e) ≡ true
      → IsConsistent s
      → IsConsistent (put_edge fl s e)
  put_edge-IsConsistent fl s e h c = record {
    keyed = λ k e' q. ground (
      arith,
      edge_at-put_edge fl s e k,
      c.keyed k e',
      edge_key-merged fl e (edge_at s (edge_key e)) (c.keyed (edge_key e)),
    );
    grounded = λ k q. unfold put_edge in ground (arith, edge_at-put_edge fl s e k, c.grounded k);
    parked_keyed = unfold put_edge in c.parked_keyed;
    indexed = unfold put_edge in c.indexed;
  }

  pub park-IsConsistent :
      (s : Store F) (e : Edge F) (at : Time) → IsConsistent s → IsConsistent (park s e at)
  park-IsConsistent s e at c = record {
    keyed = unfold park in c.keyed;
    grounded = unfold park in c.grounded;
    parked_keyed = λ k p q. ground (arith, parked_at-park s e at k, c.parked_keyed k p);
    indexed = park-IsIndexed s e at c.indexed;
  }

  pub unpark-IsConsistent : (s : Store F) (k : EdgeKey) → IsConsistent s → IsConsistent (unpark s k)
  unpark-IsConsistent s j c = record {
    keyed = unfold unpark in c.keyed;
    grounded = unfold unpark in c.grounded;
    parked_keyed = λ k p q. ground (arith, parked_at-unpark s j k, c.parked_keyed k p);
    indexed = unpark-IsIndexed s j c.indexed;
  }

  pub node_at-upsert_node :
      (s : Store F) (n : Node F) (id : String)
      → is_some (node_at (upsert_node s n) id)
        ≡ (is_yes (String_discrete id n.id) || is_some (node_at s id))
  unfolding upsert_node
  node_at-upsert_node s n id =
      ground (arith, lookup-insert String_discrete id n.id (merged_node n (node_at s n.id)) s.nodes)

  pub upsert_node-IsConsistent :
      (s : Store F) (n : Node F) → IsConsistent s → IsConsistent (upsert_node s n)
  upsert_node-IsConsistent s n c = record {
    keyed = unfold upsert_node in c.keyed;
    grounded = λ k q. ground (
      arith,
      node_at-upsert_node s n k.from,
      node_at-upsert_node s n k.to,
      c.grounded k (unfold upsert_node in q),
    );
    parked_keyed = unfold upsert_node in c.parked_keyed;
    indexed = unfold upsert_node in c.indexed;
  }

  pub land_or_park-IsConsistent :
      (fl : Floats F) (s : Store F) (e : Edge F) (at : Time)
      → IsConsistent s
      → IsConsistent (land_or_park fl s e at)
  unfolding land_or_park land
  land_or_park-IsConsistent fl s e at c = elim (Bool-cases (present s (edge_key e))) [
    | inl p ↦ rw (p, land_or_park) (put_edge-IsConsistent fl s e p c)
    | inr p ↦ rw (p, land_or_park) (park-IsConsistent s e at c)
  ]

  pub nodes-land_or_park :
      (fl : Floats F) (s : Store F) (e : Edge F) (at : Time)
      → (land_or_park fl s e at).nodes ≡ s.nodes
  unfolding land_or_park land put_edge park
  nodes-land_or_park fl s e at = ground arith

  -- The edge waits where an end is missing.
  pub parked-land_or_park :
      (fl : Floats F) (s : Store F) (e : Edge F) (at : Time) (k : EdgeKey)
      → is_some (parked_at (land_or_park fl s e at) k)
        ≡ (is_some (parked_at s k) || same k (edge_key e) && not (present s (edge_key e)))
  unfolding land_or_park land put_edge
  parked-land_or_park fl s e at k = ground (arith, parked_at-park s e at k)

  -- The edge is in the graph where both ends are.
  pub landed-land_or_park :
      (fl : Floats F) (s : Store F) (e : Edge F) (at : Time) (k : EdgeKey)
      → is_some (edge_at (land_or_park fl s e at) k)
        ≡ (is_some (edge_at s k) || same k (edge_key e) && present s (edge_key e))
  unfolding land_or_park land park
  landed-land_or_park fl s e at k = ground (arith, edge_at-put_edge fl s e k)

  pub land_or_park-IsSettled :
      (fl : Floats F) (s : Store F) (e : Edge F) (at : Time)
      → IsSettled s
      → IsSettled (land_or_park fl s e at)
  land_or_park-IsSettled fl s e at h k q =
      rw (nodes-land_or_park fl s e at) (ground (arith, h k, parked-land_or_park fl s e at k))

  -- What the invariant speaks of.
  abbrev pub SameGraph : Store F → Store F → Type 0
  SameGraph s t =
      (t.nodes ≡ s.nodes)
      × (t.edges ≡ s.edges)
      × (t.pending ≡ s.pending)
      × (t.pending_by_id ≡ s.pending_by_id)

  pub SameGraph-IsConsistent : (s t : Store F) → SameGraph s t → IsConsistent s → IsConsistent t
  SameGraph-IsConsistent s t (n, e, p, i) c = record {
    keyed = λ k x q. ground (arith, c.keyed k x);
    grounded = λ k q. ground (arith, c.grounded k);
    parked_keyed = λ k x q. ground (arith, c.parked_keyed k x);
    indexed = λ id k. ground (arith, c.indexed id k);
  }

  pub SameGraph-IsSettled : (s t : Store F) → SameGraph s t → IsSettled s → IsSettled t
  SameGraph-IsSettled s t (n, e, p, i) h k q = ground (arith, h k)
