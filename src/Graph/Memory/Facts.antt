-- ===== src/Graph/Memory/Facts.antt =====
-- A guess never replaces a fact (putEdgeLocked in backend/internal/graph/memory/memory.go and
-- Supersedes in backend/internal/graph/store.go).
use mathlib.Core.List.{lookup}
use text.Mathlib.TextEquality.{eq_iff}
use perspectivegraph.Base.Maps.{foldl_inv}
use perspectivegraph.Base.{
  String, Bool, true, false, not, Option, none, some, List, [], ◌∷◌, ◌≡◌, ◌≢◌, refl, arith, foldl,
  Time, ℤ, Floats, Option-cases, inl, inr,
}
use perspectivegraph.Ontology.{Node, Edge, Props, int64, read, last_seen_key, resolution_method_key}
use perspectivegraph.Graph.Contract.{
  Origin, inferred, supersedes, last_seen, merge_props, read-merge_props,
}
use perspectivegraph.Graph.Memory.State.{
  Store, EdgeKey, edge_key, edge_at, refreshed, merged, put_edge, land, park,
}
use perspectivegraph.Graph.Memory.Upsert.{
  batch_node, take_pending, land_or_park, reland, batch_edge, note_edge, upsert_batch_locked,
  sweep_pending, take_node,
}
use perspectivegraph.Graph.Memory.Steps.{edge_at-put_edge}
use perspectivegraph.Graph.Memory.Expiry.{sweep_pending-Standing}
use perspectivegraph.Graph.Memory.Batch.{batch_nodes_present}
use perspectivegraph.Graph.Memory.Taking.{Untouched, take_node-Untouched}

resolution-ne-last_seen : resolution_method_key ≢ last_seen_key
resolution-ne-last_seen = ground (arith, eq_iff resolution_method_key last_seen_key)

module _ {F : Type 0} where
  read-stamp :
      (key : String) (props : Props F) (ls : ℤ)
      → key ≢ last_seen_key
      → read key (merge_props props ((last_seen_key, int64 ls) ∷ [])) ≡ read key props
  unfolding lookup
  read-stamp key props ls h =
      ground (arith, read-merge_props key props ((last_seen_key, int64 ls) ∷ []), h)

  -- What a refresh leaves of the stored edge: all but when it was last seen.
  pub record Kept (old e : Edge F) : Type 0 where
    pub probability : e.exploit_probability ≡ old.exploit_probability
    pub key : edge_key e ≡ edge_key old
    pub properties :
        (key : String) → key ≢ last_seen_key → read key e.properties ≡ read key old.properties

  refreshed-Kept : (fl : Floats F) (e old : Edge F) → Kept old (refreshed fl e old)
  unfolding refreshed
  refreshed-Kept fl e old = elim (Option-cases (last_seen fl e.properties)) [
    | inl q ↦
        rw (q, refreshed) (record { probability = refl; key = refl; properties = λ _ _. refl })
    | inr (ls, q) ↦
        rw (q, refreshed)
          (record {
            probability = refl;
            key = refl;
            properties = λ k h. read-stamp k old.properties ls h;
          })
  ]

  -- A guess that meets a fact leaves it as it is but for when it was last seen.
  pub put_edge_keeps_fact :
      (fl : Floats F) (s : Store F) (e old : Edge F)
      → edge_at s (edge_key e) ≡ some old
      → inferred e ≡ true
      → inferred old ≡ false
      → (e' : Edge F) × (edge_at (put_edge fl s e) (edge_key e) ≡ some e') × Kept old e'
  unfolding supersedes merged
  put_edge_keeps_fact fl s e old at guess fact = (
    refreshed fl e old,
    ground (arith, edge_at-put_edge fl s e (edge_key e)),
    refreshed-Kept fl e old,
  )

  -- The edge stands in the graph as a fact.
  abbrev pub stated : Option (Edge F) → Bool
  stated none = false
  stated (some e) = not (inferred e)

  stated-merged :
      (fl : Floats F) (e : Edge F) (o : Option (Edge F))
      → stated o ≡ true
      → stated (some (merged fl e o)) ≡ true
  unfolding merged supersedes inferred
  stated-merged fl e none h = ground arith
  stated-merged fl e (some old) h =
      ground
        (arith, (refreshed-Kept fl e old).properties resolution_method_key resolution-ne-last_seen)

  abbrev IsFact : EdgeKey → Store F → Type 0
  IsFact k s = stated (edge_at s k) ≡ true

  land_or_park-IsFact :
      (fl : Floats F) (k : EdgeKey) (s : Store F) (e : Edge F) (at : Time)
      → IsFact k s
      → IsFact k (land_or_park fl s e at)
  unfolding land_or_park land park
  land_or_park-IsFact fl k s e at h =
      ground (arith, edge_at-put_edge fl s e k, stated-merged fl e (edge_at s k))

  batch_edge-IsFact :
      (fl : Floats F) (o : Option Origin) (now : Time) (k : EdgeKey) (s : Store F) (e : Edge F)
      → IsFact k s
      → IsFact k (batch_edge fl o now s e)
  unfolding batch_edge note_edge
  batch_edge-IsFact fl none now k s e h = land_or_park-IsFact fl k s e now h
  batch_edge-IsFact fl (some o) now k s e h = land_or_park-IsFact fl k s e now h

  -- An edge that is in the graph as a fact is still there as a fact after any batch.
  pub stated-upsert_batch_locked :
      (fl : Floats F) (s : Store F) (ns : List (Node F)) (es : List (Edge F)) (o : Option Origin)
      (now : Time) (k : EdgeKey)
      → stated (edge_at s k) ≡ true
      → stated (edge_at (upsert_batch_locked fl s ns es o now) k) ≡ true
  unfolding upsert_batch_locked reland take_pending
  stated-upsert_batch_locked fl s ns es o now k h =
      let t = foldl (batch_node o) (sweep_pending s now) ns in
      let w = take_pending t ns in
      let untouched =
        foldl_inv (Untouched t) take_node (take_node-Untouched t) ns ([], t) (refl, refl) in
      let kept : IsFact k w.1 = ground (
        arith,
        untouched,
        batch_nodes_present o ns (sweep_pending s now) k,
        sweep_pending-Standing s now,
      ) in
      foldl_inv (IsFact k) (batch_edge fl o now) (batch_edge-IsFact fl o now k) es
        (foldl (reland fl) w.1 w.0)
        (foldl_inv (IsFact k) (reland fl) (λ u p. land_or_park-IsFact fl k u p.edge p.at) w.0 w.1
          kept)
