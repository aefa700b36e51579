-- ===== src/Graph/Memory/Sweep.antt =====
-- Sweep: what a source's complete snapshot no longer asserts is retracted
-- (backend/internal/graph/memory/memory.go).
use mathlib.Core.List.{lookup}
use perspectivegraph.Base.Maps.{insert, erase, keys, elem}
use perspectivegraph.Base.{
  ◌+◌, String, String_discrete, Bool, false, not, ◌&&◌, none, some, List, [], ◌∷◌, foldl, Time, ltb,
  is_yes, is_some, if◌then◌else◌, ◌==◌, length,
}
use perspectivegraph.Graph.Contract.{SweepStats, removed, Result, ok, err, empty_scope}
use perspectivegraph.Graph.Memory.State.{
  Store, EdgeKey, EdgeKey-discrete, OriginKey, OriginKey-discrete, Origins, or_empty, edge_at,
  parked_at, node_at, park, unpark,
}

-- The closure `withdraw`: the origins that are left, and whether nothing asserts the element now.
unfoldable pub withdraw : OriginKey → Time → Origins → Origins × Bool
withdraw key taken os = elim (lookup OriginKey-discrete key os) [
  | none ↦ (os, false)
  | some t ↦
      let rest = erase OriginKey-discrete key os in
      if ltb t taken then (rest, length rest == 0) else (os, false)
]

-- The loops' variables: the store, the counters and the set `gone`.
pub record Sweeping (F : Type 0) : Type 0 where
  pub store : Store F
  pub stats : SweepStats
  pub gone : List String

module _ {F : Type 0} where
  unfoldable pub retract_landed : Sweeping F → EdgeKey → Sweeping F
  retract_landed w k =
      if is_some (edge_at w.store k)
      then record w {
        store = record (w.store) { edges = erase EdgeKey-discrete k w.store.edges };
        stats = record (w.stats) { edges = w.stats.edges + 1 };
      }
      else w

  unfoldable pub retract_parked : Sweeping F → EdgeKey → Sweeping F
  retract_parked w k =
      if is_some (parked_at w.store k)
      then record w {
        store = unpark w.store k;
        stats = record (w.stats) { edges = w.stats.edges + 1 };
      }
      else w

  -- The body of the loop over `edgeOrigins`.
  unfoldable pub sweep_edge : OriginKey → Time → Sweeping F → EdgeKey → Sweeping F
  unfolding retract_landed retract_parked
  sweep_edge key taken w k = elim (lookup EdgeKey-discrete k w.store.edge_origins) [
    | none ↦ w
    | some os ↦
        let (rest, alone) = withdraw key taken os in
        if not alone
        then record w {
          store = record (w.store) {
            edge_origins = insert EdgeKey-discrete k rest w.store.edge_origins;
          };
        }
        else retract_parked
            (retract_landed
              (record w {
                store = record (w.store) {
                  edge_origins = erase EdgeKey-discrete k w.store.edge_origins;
                };
              })
              k)
            k
  ]

  unfoldable pub retract_node : Sweeping F → String → Sweeping F
  retract_node w id =
      if is_some (node_at w.store id)
      then record w {
        store = record (w.store) { nodes = erase String_discrete id w.store.nodes };
        gone = id ∷ w.gone;
        stats = record (w.stats) { nodes = w.stats.nodes + 1 };
      }
      else w

  -- The body of the loop over `nodeOrigins`.
  unfoldable pub sweep_node : OriginKey → Time → Sweeping F → String → Sweeping F
  unfolding retract_node
  sweep_node key taken w id = elim (lookup String_discrete id w.store.node_origins) [
    | none ↦ w
    | some os ↦
        let (rest, alone) = withdraw key taken os in
        if alone
        then retract_node
            (record w {
              store = record (w.store) {
                node_origins = erase String_discrete id w.store.node_origins;
              };
            })
            id
        else record w {
          store = record (w.store) {
            node_origins = insert String_discrete id rest w.store.node_origins;
          };
        }
  ]

  -- The body of the loop over `edges`: an edge that lost an end waits if it is still asserted.
  unfoldable pub sweep_dangling : Time → Sweeping F → EdgeKey → Sweeping F
  sweep_dangling now w k = elim (edge_at w.store k) [
    | none ↦ w
    | some e ↦
        if not (elem String_discrete k.from w.gone) && not (elem String_discrete k.to w.gone)
        then w
        else let cut = record (w.store) { edges = erase EdgeKey-discrete k w.store.edges } in
          if ltb 0 (length (or_empty (lookup EdgeKey-discrete k w.store.edge_origins)))
          then record w {
            store = park cut e now;
            stats = record (w.stats) { parked = w.stats.parked + 1 };
          }
          else record w { store = cut; stats = record (w.stats) { edges = w.stats.edges + 1 } }
  ]

  abbrev pub sweeping : Store F → Sweeping F
  sweeping s = record { store = s; stats = record { nodes = 0; edges = 0; parked = 0 }; gone = [] }

  -- The two loops over the origins.
  unfoldable pub withdraw_all : OriginKey → Time → Store F → Sweeping F
  unfolding sweep_edge sweep_node
  withdraw_all key taken s =
      let w = foldl (sweep_edge key taken) (sweeping s) (keys s.edge_origins) in
      foldl (sweep_node key taken) w (keys w.store.node_origins)

  -- `if len(gone) > 0`, the loop over the edges.
  unfoldable pub drop_dangling : Time → Sweeping F → Sweeping F
  unfolding sweep_dangling
  drop_dangling now w =
      if ltb 0 (length w.gone) then foldl (sweep_dangling now) w (keys w.store.edges) else w

  unfoldable pub sweep_loops : OriginKey → Time → Time → Store F → Sweeping F
  unfolding withdraw_all drop_dangling
  sweep_loops key taken now s = drop_dangling now (withdraw_all key taken s)

  unfoldable pub count_removal : Sweeping F → Store F
  count_removal w =
      if removed w.stats then record (w.store) { removals = w.store.removals + 1 } else w.store

  -- Sweep
  unfoldable pub sweep : Store F → String → String → Time → Time → Result (Store F × SweepStats)
  unfolding sweep_loops count_removal removed
  sweep s source scope taken now =
      if is_yes (String_discrete scope "")
      then err empty_scope
      else let w = sweep_loops (record { source = source; scope = scope }) taken now s in
        ok (count_removal w, w.stats)
