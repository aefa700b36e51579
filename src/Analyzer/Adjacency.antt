-- ===== src/Analyzer/Adjacency.antt =====
-- What buildAdjacency lists (backend/internal/analyzer/attackpath.go).
use mathlib.Core.List.{lookup, append-nil, append_assoc}
use mathlib.Core.List.Memᴰ.{Memᴰ}
use perspectivegraph.Base.Maps.{Map, lookup-insert}
use perspectivegraph.Base.{
  String, String_discrete, true, false, List, [], ◌∷◌, ◌++◌, ◌≡◌, inl, inr, arith, foldl, Floats,
  FloatLaws, float_zero, float_one, is_yes, if◌then◌else◌, Bool-cases,
}
use perspectivegraph.Ontology.{Node, Edge}
use perspectivegraph.Analyzer.Weights.{
  OutEdge, Adjacency, out_of, node_of, clamp_prob, out_edge, add_out_edge, build_adjacency,
}
use perspectivegraph.Analyzer.Dijkstra.Walks.{NonNegative}

module _ {F : Type 0} (fl : Floats F) where
  -- A clamped probability is in (0, 1].
  pub clamp_prob_range :
      FloatLaws fl
      → (p : F)
      → (fl.lt (float_zero fl) (clamp_prob fl p) ≡ true)
        × (fl.lt (float_one fl) (clamp_prob fl p) ≡ false)
  unfolding clamp_prob
  clamp_prob_range laws p = (
    ground (arith, laws.hundredth_pos, laws.one_pos),
    ground (arith, laws.hundredth_le_one, laws.asymm (float_one fl) (float_one fl)),
  )

  module _ (upper_trim : String → String) (nodes : Map String (Node F)) where
    abbrev pub as_out : Edge F → OutEdge F
    as_out e = out_edge fl upper_trim e (node_of nodes e.from) (node_of nodes e.to)

    -- The edges that leave a node, in their order.
    abbrev pub leaving : String → List (Edge F) → List (OutEdge F)
    leaving u [] = []
    leaving u (e ∷ es) =
        let rest = leaving u es in
        if is_yes (String_discrete u e.from) then as_out e ∷ rest else rest

    out_of-add_out_edge :
        (adj : Adjacency F) (e : Edge F) (u : String)
        → out_of (add_out_edge fl upper_trim nodes adj e) u ≡ (
            if is_yes (String_discrete u e.from)
            then out_of adj u ++ as_out e ∷ []
            else out_of adj u)
    unfolding add_out_edge
    out_of-add_out_edge adj e u =
        ground
          (arith, lookup-insert String_discrete u e.from (out_of adj e.from ++ as_out e ∷ []) adj)

    out_of-adds :
        (es : List (Edge F)) (adj : Adjacency F) (u : String)
        → out_of (foldl (add_out_edge fl upper_trim nodes) adj es) u ≡ out_of adj u ++ leaving u es
    out_of-adds [] adj u = ground (arith, append-nil (out_of adj u))
    out_of-adds (e ∷ es) adj u = ground (
      arith,
      out_of-adds es (add_out_edge fl upper_trim nodes adj e) u,
      out_of-add_out_edge adj e u,
      append_assoc (out_of adj u) (as_out e ∷ []) (leaving u es),
    )

    -- The adjacency lists for each node exactly the edges that leave it, in the order of the edges.
    pub out_of-build_adjacency :
        (es : List (Edge F)) (u : String)
        → out_of (build_adjacency fl upper_trim es nodes) u ≡ leaving u es
    unfolding build_adjacency lookup
    out_of-build_adjacency es u = out_of-adds es [] u

    leaving-weight :
        FloatLaws fl
        → (u : String) (es : List (Edge F)) (o : OutEdge F) → Memᴰ o (leaving u es)
        → fl.lt o.weight (float_zero fl) ≡ false
    unfolding out_edge
    leaving-weight laws u [] o m = elim m [ ]
    leaving-weight laws u (e ∷ es) o m = elim (Bool-cases (is_yes (String_discrete u e.from))) [
      | inl h ↦ elim (rw h at m) [
        | Memᴰ.head q ↦
            let (low, high) = clamp_prob_range laws e.exploit_probability in
            ground (arith, laws.minus_log_nonneg (clamp_prob fl e.exploit_probability) low high)
        | Memᴰ.tail m' ↦ leaving-weight laws u es o m'
      ]
      | inr h ↦ leaving-weight laws u es o (rw h at m)
    ]

    -- No weight of the adjacency is negative.
    pub build_adjacency-NonNegative :
        FloatLaws fl
        → (es : List (Edge F)) → NonNegative fl (build_adjacency fl upper_trim es nodes)
    build_adjacency-NonNegative laws es u o m =
        leaving-weight laws u es o (rw (out_of-build_adjacency es u) at m)
