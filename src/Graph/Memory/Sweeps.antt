-- ===== src/Graph/Memory/Sweeps.antt =====
-- What Sweep does as a whole (backend/internal/graph/memory/memory.go): exactly what nobody asserts
-- any more goes, and the invariant stays.
use perspectivegraph.Base.{String, String_discrete, ◌≡◌, ◌⊎◌, arith, Time, inl, inr}
use perspectivegraph.Graph.Contract.{SweepStats, ok, err, empty_scope}
use perspectivegraph.Graph.Memory.State.{Store, OriginKey}
use perspectivegraph.Graph.Memory.Sweep.{Sweeping, withdraw_all, sweep_loops, count_removal, sweep}
use perspectivegraph.Graph.Memory.Consistent.{
  IsConsistent, IsSettled, SameGraph, SameGraph-IsConsistent, SameGraph-IsSettled,
}
use perspectivegraph.Graph.Memory.Withdrawal.{withdraw_all_parts}
use perspectivegraph.Graph.Memory.Assertions.{Retracted, Swept-Retracted}
use perspectivegraph.Graph.Memory.Retraction.{unnamed, Keyed, dropped, drop_dangling_part, Swept}

module _ {F : Type 0} where
  module _ (key : OriginKey) (taken now : Time) (s : Store F) (c : IsConsistent s) where
    all_Keyed : Keyed (withdraw_all key taken s)
    all_Keyed k e q = ground (arith, withdraw_all_parts key taken s k "", c.keyed k e)

    sweep_loops-Swept : Swept key taken now s (sweep_loops key taken now s).store
    unfolding sweep_loops dropped
    sweep_loops-Swept =
        let w = withdraw_all key taken s in
        record {
          nodes = λ id. ground (
            arith,
            withdraw_all_parts key taken s unnamed id,
            drop_dangling_part now w unnamed all_Keyed,
          );
          edges = λ k. ground (
            arith,
            withdraw_all_parts key taken s k k.from,
            withdraw_all_parts key taken s k k.to,
            drop_dangling_part now w k all_Keyed,
            c.grounded k,
          );
          pending = λ k. ground (
            arith,
            withdraw_all_parts key taken s k k.from,
            withdraw_all_parts key taken s k k.to,
            drop_dangling_part now w k all_Keyed,
            c.grounded k,
          );
        }

    sweep_loops-IsConsistent : IsConsistent (sweep_loops key taken now s).store
    unfolding sweep_loops
    sweep_loops-IsConsistent =
        let h = sweep_loops-Swept in
        record {
          keyed = λ k e q. ground (arith, h.edges k, c.keyed k e);
          grounded = λ k q. ground (arith, h.edges k, h.nodes k.from, h.nodes k.to, c.grounded k);
          parked_keyed = λ k p q. ground (arith, h.pending k, c.parked_keyed k p, c.keyed k p.edge);
          indexed =
              (drop_dangling_part now (withdraw_all key taken s) unnamed all_Keyed).2
                ((withdraw_all_parts key taken s unnamed "").2 c.indexed);
        }

    sweep_loops-IsSettled : IsSettled s → IsSettled (sweep_loops key taken now s).store
    sweep_loops-IsSettled settled k q =
        let h = sweep_loops-Swept in
        ground (arith, h.pending k, h.nodes k.from, h.nodes k.to, settled k)

  -- What Sweep reports and keeps when it is given a scope.
  pub record SweepResult (source scope : String) (taken now : Time) (s t : Store F) : Type 0 where
    pub retracted : Retracted (record { source = source; scope = scope }) taken now s t
    pub consistent : IsConsistent t
    pub settled : IsSettled s → IsSettled t

  count_removal-SameGraph : (w : Sweeping F) → SameGraph w.store (count_removal w)
  unfolding count_removal
  count_removal-SameGraph w = ground arith

  Swept-SameGraph :
      (key : OriginKey) (taken now : Time) (s t u : Store F)
      → SameGraph t u
      → Swept key taken now s t
      → Swept key taken now s u
  Swept-SameGraph key taken now s t u g h = record {
    nodes = λ id. ground (arith, g, h.nodes id);
    edges = λ k. ground (arith, g, h.edges k);
    pending = λ k. ground (arith, g, h.pending k);
  }

  -- A sweep of a scope takes exactly the nodes and the landed and parked edges that this source asserted
  -- in this scope, last before the snapshot was taken, and that no other source or scope asserts,
  -- and with them the landed edges that lose an end. Of those edges, the ones that someone asserts
  -- yet wait from now on, and all else that waits is kept. The invariant is kept, and so is that
  -- nothing waits that could land. With no scope the sweep is refused.
  pub sweep_retracts :
      (s : Store F) (source scope : String) (taken now : Time)
      → IsConsistent s
      → ((scope ≡ "") × (sweep s source scope taken now ≡ err empty_scope))
        ⊎ ((t : Store F) × (st : SweepStats) × (sweep s source scope taken now ≡ ok (t, st))
            × SweepResult source scope taken now s t)
  unfolding sweep
  sweep_retracts s source scope taken now c = elim (String_discrete scope "") [
    | yes e ↦ inl (e, ground arith)
    | no h ↦
        let key : OriginKey = record { source = source; scope = scope } in
        let w = sweep_loops key taken now s in
        let same_graph = count_removal-SameGraph w in
        inr (
          count_removal w,
          w.stats,
          ground arith,
          record {
            retracted = Swept-Retracted key taken now s (count_removal w) (
                Swept-SameGraph key taken now s w.store (count_removal w) same_graph
                  (sweep_loops-Swept key taken now s c));
            consistent =
                SameGraph-IsConsistent w.store (count_removal w) same_graph
                  (sweep_loops-IsConsistent key taken now s c);
            settled = λ q.
                SameGraph-IsSettled w.store (count_removal w) same_graph
                  (sweep_loops-IsSettled key taken now s c q);
          },
        )
  ]
