-- ===== src/Graph/Versioned/Unchanged.antt =====
-- A version that stands still means a graph that stands still (backend/internal/graph/store.go).
use perspectivegraph.Base.Maps.{keys, foldl_inv}
use perspectivegraph.Base.{
  ℕ, ◌+◌, ◌≡◌, ◌≢◌, String, String_discrete, Bool, true, false, Option, none, some, List, [], ◌∷◌,
  refl, arith, foldl, Time, unix, ℤ, Floats, ltb, Bool-cases, Option-cases, inl, inr, length,
}
use perspectivegraph.Ontology.{Node, Edge}
use perspectivegraph.Graph.Contract.{Origin, Result, ok, err, removed}
use perspectivegraph.Graph.Memory.State.{Store, EdgeKey, OriginKey, edge_at, node_at, unpark}
use perspectivegraph.Graph.Memory.Upsert.{
  upsert_edge, upsert_batch, upsert_batch_from, upsert_batch_locked, take_pending,
}
use perspectivegraph.Graph.Memory.Expiry.{sweep_pending-Standing}
use perspectivegraph.Graph.Memory.Prune.{Pruning, prune_node, prune_edge, prune_loops, prune}
use perspectivegraph.Graph.Memory.Sweep.{
  Sweeping, sweep_edge, sweep_node, sweep_dangling, retract_landed, retract_parked, retract_node,
  withdraw_all, drop_dangling, sweep_loops, count_removal, sweep,
}
use perspectivegraph.Graph.Versioned.{
  Versioned, bump, counted, versioned_node, versioned_edge, versioned_batch, versioned_batch_from,
  versioned_prune, versioned_sweep, Call, call,
}

bump-moves : (v : ℕ) → bump v ≢ v
bump-moves v e = omega (arith, e)

module _ {F : Type 0} where
  -- The same nodes and edges.
  abbrev pub SameElements : Store F → Store F → Type 0
  SameElements s t = (t.nodes ≡ s.nodes) × (t.edges ≡ s.edges)

  -- While nothing is counted, nothing is removed.
  abbrev PruneKeeps : Store F → Pruning F → Type 0
  PruneKeeps s w = w.stats.nodes + w.stats.edges ≡ 0 → SameElements s w.store

  prune_node-PruneKeeps :
      (fl : Floats F) (cutoff : ℤ) (s : Store F) (w : Pruning F) (id : String)
      → PruneKeeps s w
      → PruneKeeps s (prune_node fl cutoff w id)
  unfolding prune_node
  prune_node-PruneKeeps fl cutoff s w id h = elim (Option-cases (node_at w.store id)) [
    | inl e ↦ rw (e, prune_node) h
    | inr (n, e) ↦ rw (e, prune_node) (λ q. ground (arith, h))
  ]

  prune_edge-PruneKeeps :
      (fl : Floats F) (cutoff : ℤ) (s : Store F) (w : Pruning F) (k : EdgeKey)
      → PruneKeeps s w
      → PruneKeeps s (prune_edge fl cutoff w k)
  unfolding prune_edge
  prune_edge-PruneKeeps fl cutoff s w k h = elim (Option-cases (edge_at w.store k)) [
    | inl e ↦ rw (e, prune_edge) h
    | inr (n, e) ↦ rw (e, prune_edge) (λ q. ground (arith, h))
  ]

  prune_loops-PruneKeeps :
      (fl : Floats F) (cutoff : ℤ) (s : Store F) → PruneKeeps s (prune_loops fl cutoff s)
  unfolding prune_loops
  prune_loops-PruneKeeps fl cutoff s =
      let first : Pruning F = record {
        store = s;
        stats = record { nodes = 0; edges = 0 };
        gone = [];
      } in
      let w = foldl (prune_node fl cutoff) first (keys s.nodes) in
      foldl_inv (PruneKeeps s) (prune_edge fl cutoff) (prune_edge-PruneKeeps fl cutoff s)
        (keys w.store.edges) w
        (foldl_inv (PruneKeeps s) (prune_node fl cutoff) (prune_node-PruneKeeps fl cutoff s)
          (keys s.nodes) first (λ _. (refl, refl)))

  abbrev SweepKeeps : Store F → Sweeping F → Type 0
  SweepKeeps s w = removed w.stats ≡ false → SameElements s w.store

  sweep_edge-SweepKeeps :
      (key : OriginKey) (taken : Time) (s : Store F) (w : Sweeping F) (k : EdgeKey)
      → SweepKeeps s w
      → SweepKeeps s (sweep_edge key taken w k)
  unfolding sweep_edge retract_landed retract_parked unpark removed
  sweep_edge-SweepKeeps key taken s w k h q = ground (arith, h)

  sweep_node-SweepKeeps :
      (key : OriginKey) (taken : Time) (s : Store F) (w : Sweeping F) (id : String)
      → SweepKeeps s w
      → SweepKeeps s (sweep_node key taken w id)
  unfolding sweep_node retract_node removed
  sweep_node-SweepKeeps key taken s w id h q = ground (arith, h)

  sweep_dangling-SweepKeeps :
      (now : Time) (s : Store F) (w : Sweeping F) (k : EdgeKey)
      → SweepKeeps s w
      → SweepKeeps s (sweep_dangling now w k)
  unfolding sweep_dangling removed
  sweep_dangling-SweepKeeps now s w k h q = ground (arith, h)

  sweep_loops-SweepKeeps :
      (key : OriginKey) (taken now : Time) (s : Store F)
      → SweepKeeps s (sweep_loops key taken now s)
  unfolding sweep_loops withdraw_all drop_dangling
  sweep_loops-SweepKeeps key taken now s =
      let first : Sweeping F = record {
        store = s;
        stats = record { nodes = 0; edges = 0; parked = 0 };
        gone = [];
      } in
      let w = foldl (sweep_edge key taken) first (keys s.edge_origins) in
      let u = foldl (sweep_node key taken) w (keys w.store.node_origins) in
      let kept =
        foldl_inv (SweepKeeps s) (sweep_node key taken) (sweep_node-SweepKeeps key taken s)
          (keys w.store.node_origins) w
          (foldl_inv (SweepKeeps s) (sweep_edge key taken) (sweep_edge-SweepKeeps key taken s)
            (keys s.edge_origins) first (λ _. (refl, refl))) in
      elim (Bool-cases (ltb 0 (length u.gone))) [
        | inl e ↦ rw e (
            foldl_inv (SweepKeeps s) (sweep_dangling now) (sweep_dangling-SweepKeeps now s)
              (keys u.store.edges) u kept)
        | inr e ↦ rw e kept
      ]

  empty_batch :
      (fl : Floats F) (s : Store F) (ns : List (Node F)) (es : List (Edge F)) (o : Option Origin)
      (now : Time)
      → ltb 0 (length ns + length es) ≡ false
      → SameElements s (upsert_batch_locked fl s ns es o now)
  unfolding upsert_batch_locked take_pending
  empty_batch fl s [] [] o now h = sweep_pending-Standing s now
  empty_batch fl s [] (e ∷ es) o now h = absurd (ground arith)
  empty_batch fl s (n ∷ ns) es o now h = absurd (ground arith)

  counted-keeps :
      (b : Bool) (v : Versioned F) (s : Store F)
      → (b ≡ false → SameElements v.store s)
      → (counted b v s).version ≡ v.version
      → SameElements v.store (counted b v s).store
  counted-keeps true v s h q = absurd (bump-moves v.version q)
  counted-keeps false v s h q = h refl

  pruned_same :
      (fl : Floats F) (v : Versioned F) (before : Time)
      → (versioned_prune fl v before).version ≡ v.version
      → SameElements v.store (versioned_prune fl v before).store
  unfolding versioned_prune prune
  pruned_same fl v before q =
      let w = prune_loops fl (unix before) v.store in
      counted-keeps (ltb 0 (w.stats.nodes + w.stats.edges)) v (prune fl v.store before).0
        (λ none_gone.
          let kept = prune_loops-PruneKeeps fl (unix before) v.store in ground (arith, kept))
        q

  swept_same :
      (v : Versioned F) (source scope : String) (taken now : Time)
      → (versioned_sweep v source scope taken now).version ≡ v.version
      → SameElements v.store (versioned_sweep v source scope taken now).store
  unfolding versioned_sweep sweep count_removal
  swept_same v source scope taken now q =
      let key : OriginKey = record { source = source; scope = scope } in
      let w = sweep_loops key taken now v.store in
      elim (String_discrete scope "") [
        | yes p ↦ ground arith
        | no p ↦ elim (Bool-cases (removed w.stats)) [
          | inl r ↦ absurd (ground (arith, bump-moves v.version))
          | inr r ↦ ground (arith, sweep_loops-SweepKeeps key taken now v.store)
        ]
      ]

  -- A call that writes and leaves the version as it was leaves the nodes and the edges of the graph as
  -- they were.
  pub same_version_same_graph :
      (fl : Floats F) (v : Versioned F) (c : Call F)
      → (call fl v c).version ≡ v.version
      → SameElements v.store (call fl v c).store
  unfolding versioned_node versioned_edge versioned_batch versioned_batch_from upsert_batch
      upsert_batch_from
  same_version_same_graph fl v (Call.node n) q = absurd (bump-moves v.version q)
  same_version_same_graph fl v (Call.edge e) q = go (upsert_edge fl v.store e) q
    where
      go :
          (r : Result (Store F))
          → let t = elim r as (λ _. Versioned F) [ err _ ↦ v | ok s ↦ counted true v s ] in
            t.version ≡ v.version → SameElements v.store t.store
      go (err x) q' = (refl, refl)
      go (ok s) q' = absurd (bump-moves v.version q')
  same_version_same_graph fl v (Call.batch ns es now) q =
      counted-keeps (ltb 0 (length ns + length es)) v _ (empty_batch fl v.store ns es none now) q
  same_version_same_graph fl v (Call.batch_from o ns es now) q =
      counted-keeps (ltb 0 (length ns + length es)) v _ (empty_batch fl v.store ns es (some o) now)
        q
  same_version_same_graph fl v (Call.prune_before before) q = pruned_same fl v before q
  same_version_same_graph fl v (Call.sweep_scope source scope taken now) q =
      swept_same v source scope taken now q
