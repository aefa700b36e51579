-- ===== src/Graph/Versioned.antt =====
-- VersionedStore over the in-memory store (backend/internal/graph/store.go): a counter of the writes
-- that changed something, by which readers skip work.
pub mod Unchanged
use perspectivegraph.Base.{
  ℕ, ◌+◌, ◌%◌, ◌^◌, String, Bool, true, false, List, Time, Floats, ltb, if◌then◌else◌, length,
}
use perspectivegraph.Ontology.{Node, Edge}
use perspectivegraph.Graph.Contract.{Origin, Error, Result, ok, err, removed}
use perspectivegraph.Graph.Memory.State.{Store}
use perspectivegraph.Graph.Memory.Upsert.{upsert_node, upsert_edge, upsert_batch, upsert_batch_from}
use perspectivegraph.Graph.Memory.Prune.{prune}
use perspectivegraph.Graph.Memory.Sweep.{sweep}

-- `version` is the 64-bit pattern of the counter.
pub record Versioned (F : Type 0) : Type 0 where
  pub store : Store F
  pub version : ℕ

-- The calls that write.
pub data Call (F : Type 0) : Type 0 where
  node : Node F → Call F
  edge : Edge F → Call F
  batch : List (Node F) → List (Edge F) → Time → Call F
  batch_from : Origin → List (Node F) → List (Edge F) → Time → Call F
  prune_before : Time → Call F
  sweep_scope : String → String → Time → Time → Call F

abbrev pub bump : ℕ → ℕ
bump v = (v + 1) % 2 ^ 64

module _ {F : Type 0} where
  -- The store after a write, and the counter if the write is to count.
  abbrev pub counted : Bool → Versioned F → Store F → Versioned F
  counted true v s = record { store = s; version = bump v.version }
  counted false v s = record { store = s; version = v.version }

  unfoldable pub versioned_node : Versioned F → Node F → Versioned F
  versioned_node v n = counted true v (upsert_node v.store n)

  unfoldable pub versioned_edge : Floats F → Versioned F → Edge F → Versioned F
  versioned_edge fl v e = elim (upsert_edge fl v.store e) [ err _ ↦ v | ok s ↦ counted true v s ]

  unfoldable pub versioned_batch :
      Floats F → Versioned F → List (Node F) → List (Edge F) → Time → Versioned F
  versioned_batch fl v nodes edges now =
      counted (ltb 0 (length nodes + length edges)) v (upsert_batch fl v.store nodes edges now)

  unfoldable pub versioned_batch_from :
      Floats F → Versioned F → Origin → List (Node F) → List (Edge F) → Time → Versioned F
  versioned_batch_from fl v o nodes edges now =
      counted (ltb 0 (length nodes + length edges)) v
        (upsert_batch_from fl v.store o nodes edges now)

  unfoldable pub versioned_prune : Floats F → Versioned F → Time → Versioned F
  versioned_prune fl v before =
      let (s, stats) = prune fl v.store before in counted (ltb 0 (stats.nodes + stats.edges)) v s

  unfoldable pub versioned_sweep : Versioned F → String → String → Time → Time → Versioned F
  unfolding removed
  versioned_sweep v source scope taken now = elim (sweep v.store source scope taken now) [
    | err _ ↦ v
    | ok (s, stats) ↦ counted (removed stats) v s
  ]

  abbrev pub call : Floats F → Versioned F → Call F → Versioned F
  call fl v (Call.node n) = versioned_node v n
  call fl v (Call.edge e) = versioned_edge fl v e
  call fl v (Call.batch ns es now) = versioned_batch fl v ns es now
  call fl v (Call.batch_from o ns es now) = versioned_batch_from fl v o ns es now
  call fl v (Call.prune_before before) = versioned_prune fl v before
  call fl v (Call.sweep_scope source scope taken now) = versioned_sweep v source scope taken now
