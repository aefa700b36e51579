-- ===== src/Graph/Memory/Taking.antt =====
-- Taking the parked edges that name a batch's nodes (takePendingLocked in
-- backend/internal/graph/memory/memory.go): through the index, exactly those.
use perspectivegraph.Base.Maps.{keys, elem-keys, range_view, foldl_inv}
use perspectivegraph.Base.{
  Bool, false, ◌||◌, none, List, [], ◌∷◌, ◌++◌, ◌≡◌, refl, ◌∙◌, arith, foldl, is_some, Option-cases,
  inl, inr, if◌then◌else◌,
}
use perspectivegraph.Ontology.{Node}
use perspectivegraph.Graph.Memory.State.{
  Store, Parked, EdgeKey, EdgeKey-discrete, edge_key, parked_at, waiting_on, unpark,
}
use perspectivegraph.Graph.Memory.Upsert.{take_key, take_node}
use perspectivegraph.Graph.Memory.Steps.{names, same, parked_at-unpark}
use perspectivegraph.Graph.Memory.Consistent.{IsConsistent, unpark-IsConsistent}

-- The loops' variables in takePendingLocked.
abbrev pub Taking : Type 0 → Type 0
Taking F = List (Parked F) × Store F

module _ {F : Type 0} where
  take_key-IsConsistent :
      (w : Taking F) (k : EdgeKey) → IsConsistent w.1 → IsConsistent (take_key w k).1
  unfolding take_key
  take_key-IsConsistent (out, s) k c = elim (Option-cases (parked_at s k)) [
    | inl e ↦ rw (e, take_key) c
    | inr (p, e) ↦ rw (e, take_key) (unpark-IsConsistent s k c)
  ]

  take_node-IsConsistent :
      (w : Taking F) (n : Node F) → IsConsistent w.1 → IsConsistent (take_node w n).1
  unfolding take_node
  take_node-IsConsistent (out, s) n c =
      foldl_inv (λ v. IsConsistent v.1) take_key take_key-IsConsistent (keys (waiting_on s n.id))
        (out, s) c

  parked_at-take_key :
      (w : Taking F) (j k : EdgeKey)
      → parked_at (take_key w k).1 j ≡ (if same j k then none else parked_at w.1 j)
  unfolding take_key
  parked_at-take_key (out, s) j k = ground (arith, parked_at-unpark s k j)

  -- A node takes the parked edges that name it, and leaves the others.
  parked_at-take_node :
      (w : Taking F) (n : Node F) (j : EdgeKey)
      → IsConsistent w.1
      → parked_at (take_node w n).1 j ≡ (if names j n.id then none else parked_at w.1 j)
  unfolding take_node
  parked_at-take_node (out, s) n j c = ground (
    arith,
    range_view EdgeKey-discrete take_key (λ k v. parked_at v.1 k) (λ _ _. none)
        (λ v i k h. ground (arith, parked_at-take_key v i k))
        (λ v k. ground (arith, parked_at-take_key v k k)) (λ _ _. refl) (keys (waiting_on s n.id))
        (out, s) j,
    elem-keys EdgeKey-discrete j (waiting_on s n.id),
    c.indexed n.id j,
  )

  nodes-take_key : (w : Taking F) (k : EdgeKey) → (take_key w k).1.nodes ≡ w.1.nodes
  unfolding take_key unpark
  nodes-take_key (out, s) k = ground arith

  edges-take_key : (w : Taking F) (k : EdgeKey) → (take_key w k).1.edges ≡ w.1.edges
  unfolding take_key unpark
  edges-take_key (out, s) k = ground arith

  -- The nodes and the edges in the graph stay while parked edges are taken.
  abbrev pub Untouched : Store F → Taking F → Type 0
  Untouched s w = (w.1.nodes ≡ s.nodes) × (w.1.edges ≡ s.edges)

  pub take_node-Untouched :
      (s : Store F) (w : Taking F) (n : Node F) → Untouched s w → Untouched s (take_node w n)
  unfolding take_node
  take_node-Untouched s (out, t) n h =
      foldl_inv (Untouched s) take_key
        (λ v k u. (nodes-take_key v k ∙ u.0, edges-take_key v k ∙ u.1)) (keys (waiting_on t n.id))
        (out, t) h

  -- Some node of the batch is an end of the edge.
  unfoldable pub named : EdgeKey → List (Node F) → Bool
  named k [] = false
  named k (n ∷ ns) = names k n.id || named k ns

  pub take_pending_from :
      (ns : List (Node F)) (w : Taking F) (j : EdgeKey)
      → IsConsistent w.1
      → IsConsistent (foldl take_node w ns).1
        × (parked_at (foldl take_node w ns).1 j ≡ (if named j ns then none else parked_at w.1 j))
  unfolding named
  take_pending_from [] w j c = (c, refl)
  take_pending_from (n ∷ ns) w j c =
      let (c', e) = take_pending_from ns (take_node w n) j (take_node-IsConsistent w n c) in
      (c', ground (arith, e, parked_at-take_node w n j c))

  -- Taken, or still parked.
  abbrev pub taken : EdgeKey → List (Parked F) → Bool
  taken k [] = false
  taken k (p ∷ ps) = same k (edge_key p.edge) || taken k ps

  taken-append :
      (k : EdgeKey) (ps : List (Parked F)) (p : Parked F)
      → taken k (ps ++ p ∷ []) ≡ (taken k ps || same k (edge_key p.edge))
  taken-append k [] p = ground arith
  taken-append k (q ∷ ps) p = ground (arith, taken-append k ps p)

  abbrev pub carried : EdgeKey → Taking F → Bool
  carried k w = taken k w.0 || is_some (parked_at w.1 k)

  carried-take_key :
      (k : EdgeKey) (w : Taking F) (j : EdgeKey)
      → IsConsistent w.1
      → carried k (take_key w j) ≡ carried k w
  unfolding take_key
  carried-take_key k (out, s) j c = elim (Option-cases (parked_at s j)) [
    | inl e ↦ rw (e, take_key)
    | inr (p, e) ↦
        rw (e, take_key)
          (ground (arith, taken-append k out p, parked_at-unpark s j k, c.parked_keyed j p e))
  ]

  abbrev pub Carries : EdgeKey → Bool → Taking F → Type 0
  Carries k b w = IsConsistent w.1 × (carried k w ≡ b)

  pub take_node-Carries :
      (k : EdgeKey) (b : Bool) (w : Taking F) (n : Node F)
      → Carries k b w
      → Carries k b (take_node w n)
  unfolding take_node
  take_node-Carries k b (out, s) n h =
      foldl_inv (Carries k b) take_key
        (λ v j x. (take_key-IsConsistent v j x.0, carried-take_key k v j x.0 ∙ x.1))
        (keys (waiting_on s n.id)) (out, s) h
