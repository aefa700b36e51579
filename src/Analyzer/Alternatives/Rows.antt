-- ===== src/Analyzer/Alternatives/Rows.antt =====
-- What the rows of the graph hold (backend/internal/analyzer/kshortest.go).
use mathlib.Core.List.{lookup}
use mathlib.Core.List.Memᴰ.{Memᴰ}
use perspectivegraph.Base.Maps.{Map, insert, values, lookup-insert}
use perspectivegraph.Base.Sorting.{sort_by, mem-sort_by}
use perspectivegraph.Base.{
  String, String_discrete, false, ◌||◌, none, some, List, [], ◌∷◌, ◌≡◌, inl, inr, refl, arith,
  Floats, FloatLaws, float_zero, is_yes, if◌then◌else◌, Bool-cases, if_pos, if_neg, is_some, sym,
  subst,
}
use perspectivegraph.Base.Maps.{elem, foldl_inv}
use perspectivegraph.Ontology.{Node, Edge}
use perspectivegraph.Graph.Contract.{Snapshot}
use perspectivegraph.Analyzer.Weights.{OutEdge, out_of, node_of, clamp_prob, out_edge}
use perspectivegraph.Analyzer.Adjacency.{clamp_prob_range}
use perspectivegraph.Analyzer.Dijkstra.Walks.{NonNegative}
use perspectivegraph.Analyzer.Alternatives.{
  Row, WGraph, row_of, hop_at, beats, add_hop, new_w_graph, neighbors, allowed, open_rows,
  open_adjacency, is_cut,
}

module _ {F : Type 0} (fl : Floats F) where
  -- Each entry stands under the node that it leads to, once, with a weight that is not negative.
  abbrev pub IsRow : Row F → Type 0
  IsRow [] = Unit {0}
  IsRow ((v, e) ∷ row) =
      (e.to ≡ v)
      × (fl.lt e.weight (float_zero fl) ≡ false)
      × (lookup String_discrete v row ≡ none)
      × IsRow row

  -- Every row of the graph is one.
  abbrev pub IsGraph : Map String (Row F) → Type 0
  IsGraph adj = (u : String) → IsRow (row_of adj u)

  pub row_of-insert :
      (v u : String) (row : Row F) (adj : Map String (Row F))
      → row_of (insert String_discrete v row adj) u
        ≡ (if is_yes (String_discrete u v) then row else row_of adj u)
  row_of-insert v u row adj = ground (arith, lookup-insert String_discrete u v row adj)

  insert-IsRow :
      (v : String) (e : OutEdge F) (row : Row F)
      → e.to ≡ v
      → fl.lt e.weight (float_zero fl) ≡ false
      → IsRow row
      → IsRow (insert String_discrete v e row)
  unfolding insert lookup
  insert-IsRow v e [] to low ok = (to, low, refl, tt)
  insert-IsRow v e ((w, x) ∷ row) to low (keyed, light, fresh, ok) = elim (String_discrete v w) [
    | yes p ↦ rw (if_pos _ p) (to, low, rw p fresh, ok)
    | no p ↦ rw (if_neg _ p) (
      keyed,
      light,
      ground (arith, lookup-insert String_discrete w v e row),
      insert-IsRow v e row to low ok,
    )
  ]

  pub mem-row :
      (row : Row F) (e : OutEdge F)
      → IsRow row
      → Memᴰ e (values row)
      → (lookup String_discrete e.to row ≡ some e) × (fl.lt e.weight (float_zero fl) ≡ false)
  unfolding lookup
  mem-row [] e ok m = elim m [ ]
  mem-row ((v, x) ∷ row) e (keyed, light, fresh, ok) m = elim m [
    | Memᴰ.head p ↦ rw p (ground arith, light)
    | Memᴰ.tail m' ↦ let (at, low) = mem-row row e ok m' in (ground arith, low)
  ]

  pub row-mem :
      (row : Row F) (v : String) (e : OutEdge F)
      → IsRow row
      → lookup String_discrete v row ≡ some e
      → (e.to ≡ v) × Memᴰ e (values row)
  unfolding lookup
  row-mem [] v e ok at = absurd (ground arith)
  row-mem ((w, x) ∷ row) v e (keyed, light, fresh, ok) at = elim (String_discrete v w) [
    | yes p ↦ let q : e ≡ x = ground arith in (ground arith, Memᴰ.head q)
    | no p ↦ let (to, m) = row-mem row v e ok (ground arith) in (to, Memᴰ.tail m)
  ]

  module _ (gone : List String) (cuts : List (String × String)) (u : String) where
    pub mem-allowed :
        (es : List (OutEdge F)) (e : OutEdge F)
        → Memᴰ e (allowed fl gone cuts u es)
        → Memᴰ e es × (elem String_discrete e.to gone ≡ false) × (is_cut cuts u e.to ≡ false)
    mem-allowed [] e m = elim m [ ]
    mem-allowed (x ∷ es) e m =
        elim (Bool-cases (elem String_discrete x.to gone || is_cut cuts u x.to)) [
          | inl h ↦
              let (n, here, uncut) = mem-allowed es e (rw h at m) in (Memᴰ.tail n, here, uncut)
          | inr h ↦ elim (rw h at m) [
            | Memᴰ.head p ↦ (Memᴰ.head p, rw p (ground arith), rw p (ground arith))
            | Memᴰ.tail m' ↦
                let (n, here, uncut) = mem-allowed es e m' in (Memᴰ.tail n, here, uncut)
          ]
        ]

  out_of-open_rows :
      (g : WGraph F) (gone : List String) (cuts : List (String × String))
      (rows : Map String (Row F)) (u : String)
      → lookup String_discrete u (open_rows fl g gone cuts rows) ≡ (
          if is_some (lookup String_discrete u rows)
          then some (allowed fl gone cuts u (neighbors fl g u))
          else none)
  unfolding lookup
  out_of-open_rows g gone cuts [] u = refl
  out_of-open_rows g gone cuts ((v, row) ∷ rows) u = elim (String_discrete u v) [
    | yes p ↦ rw p (ground arith)
    | no p ↦ ground (arith, out_of-open_rows g gone cuts rows u)
  ]

  -- What is left of a node's out-edges, also of a node that has none.
  pub out_of-open_adjacency :
      (g : WGraph F) (gone : List String) (cuts : List (String × String)) (u : String)
      → out_of (open_adjacency fl g gone cuts) u ≡ allowed fl gone cuts u (neighbors fl g u)
  unfolding neighbors sort_by
  out_of-open_adjacency g gone cuts u = ground (arith, out_of-open_rows g gone cuts g.adj u)

  -- An out-edge that is left leads to a node that is left, along a hop of the graph.
  pub record Hop (g : WGraph F) (gone : List String) (cuts : List (String × String)) (u : String)
      (e : OutEdge F) : Type 0 where
    pub at : hop_at g u e.to ≡ some e
    pub here : elem String_discrete e.to gone ≡ false
    pub uncut : is_cut cuts u e.to ≡ false
    pub low : fl.lt e.weight (float_zero fl) ≡ false

  pub open-Hop :
      (g : WGraph F) (gone : List String) (cuts : List (String × String)) (u : String)
      (e : OutEdge F)
      → IsGraph g.adj
      → Memᴰ e (out_of (open_adjacency fl g gone cuts) u)
      → Hop g gone cuts u e
  unfolding neighbors
  open-Hop g gone cuts u e ok m =
      let (n, here, uncut) =
        mem-allowed gone cuts u (neighbors fl g u) e
          (rw (out_of-open_adjacency g gone cuts u) at m) in
      let (at, low) =
        mem-row (row_of g.adj u) e (ok u) ((mem-sort_by _ e (values (row_of g.adj u))).0 n) in
      record { at = at; here = here; uncut = uncut; low = low }

  pub open-NonNegative :
      (g : WGraph F) (gone : List String) (cuts : List (String × String))
      → IsGraph g.adj
      → NonNegative fl (open_adjacency fl g gone cuts)
  open-NonNegative g gone cuts ok u e m = (open-Hop g gone cuts u e ok m).low

  module _ (laws : FloatLaws fl) (upper_trim : String → String) (nodes : Map String (Node F)) where
    out_edge-low :
        (e : Edge F) (a b : Node F)
        → fl.lt (out_edge fl upper_trim e a b).weight (float_zero fl) ≡ false
    unfolding out_edge
    out_edge-low e a b =
        let (low, high) = clamp_prob_range fl laws e.exploit_probability in
        laws.minus_log_nonneg (clamp_prob fl e.exploit_probability) low high

    to-out_edge : (e : Edge F) (a b : Node F) → (out_edge fl upper_trim e a b).to ≡ e.to
    unfolding out_edge
    to-out_edge e a b = refl

    add_hop-IsGraph :
        (adj : Map String (Row F)) (e : Edge F)
        → IsGraph adj
        → IsGraph (add_hop fl upper_trim nodes adj e)
    unfolding add_hop
    add_hop-IsGraph adj e ok u =
        let a = node_of nodes e.from in
        let b = node_of nodes e.to in
        let oe = out_edge fl upper_trim e a b in
        let row = row_of adj e.from in
        let longer = insert String_discrete e.to oe row in
        elim (Bool-cases (beats fl (lookup String_discrete e.to row) oe)) [
          | inr h ↦ rw h (ok u)
          | inl h ↦ rw h (
              subst IsRow (sym (row_of-insert e.from u longer adj))
                (elim (String_discrete u e.from)
                  as (λ d. IsRow (if is_yes d then longer else row_of adj u)) [
                    | yes p ↦
                        insert-IsRow e.to oe row (to-out_edge e a b) (out_edge-low e a b)
                          (ok e.from)
                    | no p ↦ ok u
                  ]))
        ]

  pub new_w_graph-IsGraph :
      FloatLaws fl
      → (upper_trim : String → String) (snap : Snapshot F)
      → IsGraph (new_w_graph fl upper_trim snap).adj
  unfolding new_w_graph lookup
  new_w_graph-IsGraph laws upper_trim snap =
      foldl_inv IsGraph (add_hop fl upper_trim _) (add_hop-IsGraph laws upper_trim _) snap.edges []
        (λ u. tt)
