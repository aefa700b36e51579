-- ===== src/Graph/Memory/Runs.antt =====
-- Whatever the store is asked to do, in whatever order, its invariant holds
-- (backend/internal/graph/memory/memory.go). Each operation holds the lock, so a run is a sequence.
use mathlib.Core.List.{lookup}
use perspectivegraph.Base.{
  String, true, Option, List, ◌≡◌, refl, sym, subst, arith, Time, Floats, inl, inr,
}
use perspectivegraph.Ontology.{Node, Edge}
use perspectivegraph.Graph.Contract.{Origin, SweepStats, ok}
use perspectivegraph.Graph.Memory.State.{Store, new, edge_key, present, put_edge}
use perspectivegraph.Graph.Memory.Upsert.{upsert_node, upsert_edge, upsert_batch_locked}
use perspectivegraph.Graph.Memory.Sweep.{sweep}
use perspectivegraph.Graph.Memory.Prune.{prune}
use perspectivegraph.Graph.Memory.Consistent.{
  IsConsistent, IsSettled, put_edge-IsConsistent, upsert_node-IsConsistent,
}
use perspectivegraph.Graph.Memory.Batch.{
  upsert_batch_locked-IsConsistent, upsert_batch_locked-IsSettled,
}
use perspectivegraph.Graph.Memory.Sweeps.{sweep_retracts}
use perspectivegraph.Graph.Memory.Prunes.{prune_drops_stale}

module _ {F : Type 0} (fl : Floats F) where
  -- One call that succeeds, but for UpsertNode.
  pub data Write (s : Store F) : Store F → Type 0 where
    edge : {t : Store F} (e : Edge F) → upsert_edge fl s e ≡ ok t → Write s t
    batch :
        (ns : List (Node F)) (es : List (Edge F)) (o : Option Origin) (now : Time)
        → Write s (upsert_batch_locked fl s ns es o now)
    swept :
        {t : Store F} {st : SweepStats} (source scope : String) (taken now : Time)
        → sweep s source scope taken now ≡ ok (t, st)
        → Write s t
    pruned : (before : Time) → Write s (prune fl s before).0

  pub data Step (s : Store F) : Store F → Type 0 where
    write : {t : Store F} → Write s t → Step s t
    node : (n : Node F) → Step s (upsert_node s n)

  -- The stores that a new one can become, by any calls and by calls other than UpsertNode.
  pub data Reach : Store F → Type 0 where
    start : Reach new
    next : {s t : Store F} → Reach s → Step s t → Reach t

  pub data ReachByWrites : Store F → Type 0 where
    start : ReachByWrites new
    next : {s t : Store F} → ReachByWrites s → Write s t → ReachByWrites t

  upsert_edge_inv :
      (s t : Store F) (e : Edge F)
      → upsert_edge fl s e ≡ ok t
      → (present s (edge_key e) ≡ true) × (t ≡ put_edge fl s e)
  unfolding upsert_edge
  upsert_edge_inv s t e q = ground arith

  new-IsConsistent : IsConsistent {F = F} new
  unfolding lookup
  new-IsConsistent = record {
    keyed = λ k e q. cc;
    grounded = λ k q. cc;
    parked_keyed = λ k p q. cc;
    indexed = λ id k. refl;
  }

  new-IsSettled : IsSettled {F = F} new
  unfolding lookup
  new-IsSettled k q = cc

  abbrev Sound : Store F → Type 0
  Sound s = IsConsistent s × IsSettled s

  Write-IsConsistent : {s t : Store F} → Write s t → IsConsistent s → IsConsistent t
  Write-IsConsistent {s} {t} (edge e q) c =
      let (p, r) = upsert_edge_inv s t e q in
      subst IsConsistent (sym r) (put_edge-IsConsistent fl s e p c)
  Write-IsConsistent {s} (batch ns es o now) c = upsert_batch_locked-IsConsistent fl s ns es o now c
  Write-IsConsistent {s} {t} (swept source scope taken now q) c =
      elim (sweep_retracts s source scope taken now c) [
        | inl (_, refused) ↦ absurd (ground arith)
        | inr (u, st, r, h) ↦ subst IsConsistent (ground arith) h.consistent
      ]
  Write-IsConsistent {s} (pruned before) c = (prune_drops_stale fl s before c).1

  put_edge-IsSettled : (s : Store F) (e : Edge F) → IsSettled s → IsSettled (put_edge fl s e)
  unfolding put_edge
  put_edge-IsSettled s e h = h

  Write-IsSettled : {s t : Store F} → Write s t → IsConsistent s → IsSettled s → IsSettled t
  Write-IsSettled {s} {t} (edge e q) c h =
      let (p, r) = upsert_edge_inv s t e q in subst IsSettled (sym r) (put_edge-IsSettled s e h)
  Write-IsSettled {s} (batch ns es o now) c h = upsert_batch_locked-IsSettled fl s ns es o now c h
  Write-IsSettled {s} {t} (swept source scope taken now q) c h =
      elim (sweep_retracts s source scope taken now c) [
        | inl (_, refused) ↦ absurd (ground arith)
        | inr (u, st, r, v) ↦ subst IsSettled {x = u} {y = t} (ground arith) (v.settled h)
      ]
  Write-IsSettled {s} (pruned before) c h = (prune_drops_stale fl s before c).2 h

  -- Whatever calls were made, every edge of the store has both ends in it and stands under its own
  -- key, every parked edge stands under its own key, and the index names exactly the parked edges.
  pub Reach-IsConsistent : {s : Store F} → Reach s → IsConsistent s
  Reach-IsConsistent start = new-IsConsistent
  Reach-IsConsistent (next r (write w)) = Write-IsConsistent w (Reach-IsConsistent r)
  Reach-IsConsistent (next r (node n)) = upsert_node-IsConsistent _ n (Reach-IsConsistent r)

  by_writes-Sound : {s : Store F} → ReachByWrites s → Sound s
  by_writes-Sound start = (new-IsConsistent, new-IsSettled)
  by_writes-Sound (next r w) =
      let (c, h) = by_writes-Sound r in (Write-IsConsistent w c, Write-IsSettled w c h)

  -- With no call of UpsertNode, no edge ever waits that has both ends in the store.
  pub ReachByWrites-IsSettled : {s : Store F} → ReachByWrites s → IsSettled s
  ReachByWrites-IsSettled r = (by_writes-Sound r).1
