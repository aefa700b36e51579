-- ===== src/Graph/Memory/Retraction.antt =====
-- What Sweep leaves of the graph, for each node and each edge
-- (backend/internal/graph/memory/memory.go).
use mathlib.Core.List.{lookup}
use perspectivegraph.Base.Maps.{
  erase, keys, elem, elem-keys, lookup-insert, lookup-erase, range_view_inv, foldl_inv,
}
use perspectivegraph.Base.{
  String, String_discrete, Bool, false, ◌&&◌, ◌||◌, Option, none, some, List, [], ◌∷◌, ◌≡◌, refl,
  arith, Time, Option-cases, Bool-cases, inl, inr, ltb, if◌then◌else◌, length, ◌∙◌,
}
use perspectivegraph.Ontology.{Edge}
use perspectivegraph.Graph.Memory.State.{
  Store, Parked, EdgeKey, EdgeKey-discrete, OriginKey, Origins, or_empty, edge_key, node_at,
  edge_at, parked_at, park,
}
use perspectivegraph.Graph.Memory.Sweep.{Sweeping, sweep_dangling, drop_dangling}
use perspectivegraph.Graph.Memory.Steps.{same, IsIndexed, park-IsIndexed}
use perspectivegraph.Graph.Memory.Withdrawal.{left, withdrawn}

-- Someone still asserts the element.
abbrev pub asserted : Option Origins → Bool
asserted o = ltb 0 (length (or_empty o))

abbrev pub unnamed : EdgeKey
unnamed = record { typ = ""; from = ""; to = "" }

abbrev pub lost_end : List String → EdgeKey → Bool
lost_end gone k = elem String_discrete k.from gone || elem String_discrete k.to gone

lost_end_of_empty :
    (gone : List String) (k : EdgeKey) → ltb 0 (length gone) ≡ false → lost_end gone k ≡ false
lost_end_of_empty [] k h = refl
lost_end_of_empty (id ∷ gone) k h = absurd (ground arith)

-- What the loop over the edges reads and writes for one edge.
abbrev pub DanglingPart : Type 0 → Type 0
DanglingPart F = Option (Edge F) × Option (Parked F) × List String × Option Origins

module _ {F : Type 0} where
  abbrev pub dangling_part : EdgeKey → Sweeping F → DanglingPart F
  dangling_part k w = (
    edge_at w.store k,
    parked_at w.store k,
    w.gone,
    lookup EdgeKey-discrete k w.store.edge_origins,
  )

  unfoldable pub dropped : Time → EdgeKey → DanglingPart F → DanglingPart F
  dropped now k (none, p, gone, o) = (none, p, gone, o)
  dropped now k (some e, p, gone, o) =
      if lost_end gone k
      then (none, if asserted o then some (record { edge = e; at = now }) else p, gone, o)
      else (some e, p, gone, o)

  dropped_idem :
      (now : Time) (k : EdgeKey) (a : DanglingPart F)
      → dropped now k (dropped now k a) ≡ dropped now k a
  unfolding dropped
  dropped_idem now k (none, p, gone, o) = refl
  dropped_idem now k (some e, p, gone, o) = ground arith

  abbrev pub Keyed : Sweeping F → Type 0
  Keyed w = (k : EdgeKey) (e : Edge F) → edge_at w.store k ≡ some e → edge_key e ≡ k

  dangling_part-sweep_dangling :
      (now : Time) (w : Sweeping F) (j k : EdgeKey)
      → Keyed w
      → dangling_part j (sweep_dangling now w k)
        ≡ (if same j k then dropped now k (dangling_part j w) else dangling_part j w)
  unfolding sweep_dangling dropped park
  dangling_part-sweep_dangling now w j k h = elim (Option-cases (edge_at w.store k)) [
    | inl e ↦ rw (e, sweep_dangling) (ground arith)
    | inr (x, e) ↦
        rw (e, sweep_dangling)
          (ground (
            arith,
            h k x e,
            lookup-erase EdgeKey-discrete j k w.store.edges,
            lookup-insert EdgeKey-discrete j (edge_key x) (record { edge = x; at = now })
                w.store.pending,
          ))
  ]

  sweep_dangling-Keyed :
      (now : Time) (w : Sweeping F) (k : EdgeKey) → Keyed w → Keyed (sweep_dangling now w k)
  unfolding dropped
  sweep_dangling-Keyed now w k h j e q =
      ground (arith, dangling_part-sweep_dangling now w j k h, h j e)

  sweep_dangling-nodes :
      (now : Time) (w : Sweeping F) (k : EdgeKey)
      → (sweep_dangling now w k).store.nodes ≡ w.store.nodes
  unfolding sweep_dangling park
  sweep_dangling-nodes now w k = elim (Option-cases (edge_at w.store k)) [
    | inl e ↦ rw (e, sweep_dangling)
    | inr (x, e) ↦ rw (e, sweep_dangling) (ground arith)
  ]

  sweep_dangling-IsIndexed :
      (now : Time) (w : Sweeping F) (k : EdgeKey)
      → IsIndexed w.store
      → IsIndexed (sweep_dangling now w k).store
  unfolding sweep_dangling
  sweep_dangling-IsIndexed now w k h id j = elim (Option-cases (edge_at w.store k)) [
    | inl e ↦ rw (e, sweep_dangling) (h id j)
    | inr (x, e) ↦
        let cut = record (w.store) { edges = erase EdgeKey-discrete k w.store.edges } in
        rw (e, sweep_dangling) (ground (arith, h id j, park-IsIndexed cut x now h id j))
  ]

  pub drop_dangling_part :
      (now : Time) (w : Sweeping F) (k : EdgeKey)
      → Keyed w
      → (dangling_part k (drop_dangling now w) ≡ dropped now k (dangling_part k w))
        × ((drop_dangling now w).store.nodes ≡ w.store.nodes)
        × (IsIndexed w.store → IsIndexed (drop_dangling now w).store)
  unfolding drop_dangling dropped
  drop_dangling_part now w k h = elim (Bool-cases (ltb 0 (length w.gone))) [
    | inl some_gone ↦ rw some_gone (
      ground (
        arith,
        range_view_inv EdgeKey-discrete Keyed (sweep_dangling now) dangling_part (dropped now)
            (sweep_dangling-Keyed now)
            (λ v i j q p. ground (arith, dangling_part-sweep_dangling now v i j q))
            (λ v j q. ground (arith, dangling_part-sweep_dangling now v j j q)) (dropped_idem now)
            (keys w.store.edges) w k h,
        elem-keys EdgeKey-discrete k w.store.edges,
      ),
      foldl_inv (λ v. v.store.nodes ≡ w.store.nodes) (sweep_dangling now)
          (λ v j q. sweep_dangling-nodes now v j ∙ q) (keys w.store.edges) w refl,
      foldl_inv (λ v. IsIndexed v.store) (sweep_dangling now) (sweep_dangling-IsIndexed now)
          (keys w.store.edges) w,
    )
    | inr none_gone ↦
        rw none_gone (ground (arith, lost_end_of_empty w.gone k none_gone), refl, λ q. q)
  ]

  -- The snapshot was the last to assert the node or the edge.
  abbrev pub loses_node : OriginKey → Time → Store F → String → Bool
  loses_node key taken s id = withdrawn key taken (lookup String_discrete id s.node_origins)

  abbrev pub loses_edge : OriginKey → Time → Store F → EdgeKey → Bool
  loses_edge key taken s k = withdrawn key taken (lookup EdgeKey-discrete k s.edge_origins)

  abbrev pub loses_end : OriginKey → Time → Store F → EdgeKey → Bool
  loses_end key taken s k = loses_node key taken s k.from || loses_node key taken s k.to

  -- Some other snapshot, or a partial observation, asserts the edge still.
  abbrev pub keeps_origin : OriginKey → Time → Store F → EdgeKey → Bool
  keeps_origin key taken s k = asserted (left key taken (lookup EdgeKey-discrete k s.edge_origins))

  -- The parked edge of a key after a sweep.
  abbrev pub parked_after : OriginKey → Time → Time → Store F → EdgeKey → Option (Parked F)
  parked_after key taken now s k = if loses_edge key taken s k then none else elim (edge_at s k) [
    | none ↦ parked_at s k
    | some e ↦
        if loses_end key taken s k && keeps_origin key taken s k
        then some (record { edge = e; at = now })
        else parked_at s k
  ]

  -- What a sweep leaves, for each node and each edge.
  pub record Swept (key : OriginKey) (taken now : Time) (s t : Store F) : Type 0 where
    pub nodes :
        (id : String) → node_at t id ≡ (if loses_node key taken s id then none else node_at s id)
    pub edges :
        (k : EdgeKey)
        → edge_at t k
          ≡ (if loses_edge key taken s k || loses_end key taken s k then none else edge_at s k)
    pub pending : (k : EdgeKey) → parked_at t k ≡ parked_after key taken now s k
