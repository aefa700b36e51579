-- ===== src/Analyzer/Alternatives/Shortest.antt =====
-- What shortest finds (backend/internal/analyzer/kshortest.go): a path of least cost in what is left of
-- the graph, with no node twice.
use mathlib.Core.List.{reverse, reverse-cons}
use perspectivegraph.Base.Maps.{elem}
use perspectivegraph.Base.{
  ℕ, zero, suc, ◌<◌, ◌≤◌, String, String_discrete, true, false, Option, none, some, List, [], ◌∷◌,
  ◌++◌, ◌≡◌, inl, inr, refl, sym, subst, arith, Floats, FloatLaws, float_zero, Bool-cases,
  Option-cases,
}
use perspectivegraph.Analyzer.Weights.{Adjacency}
use perspectivegraph.Analyzer.Dijkstra.{Search, dist_at, step_of, dijkstra}
use perspectivegraph.Analyzer.Dijkstra.Walks.{NonNegative}
use perspectivegraph.Analyzer.Dijkstra.Invariant.{rank, rank-bound}
use perspectivegraph.Analyzer.Dijkstra.Main.{
  Finished, dijkstra-Finished, reached_done, dijkstra_shortest,
}
use perspectivegraph.Analyzer.Paths.Routes.{Least, Unreachable}
use perspectivegraph.Analyzer.Alternatives.{
  WGraph, hop_at, CandPath, open_adjacency, pops, nodes_back, read_off, shortest, cost_from,
  path_cost,
}
use perspectivegraph.Analyzer.Alternatives.Rows.{IsGraph, open-Hop, open-NonNegative}
use perspectivegraph.Base.Distinct.{Simple, All, All-snoc, All-map, Simple-snoc}
use perspectivegraph.Analyzer.Alternatives.Sequences.{
  first, final, final-snoc, first-snoc, not-elem-rank, cost_from-snoc,
}
use perspectivegraph.Analyzer.Alternatives.Search.{
  sources, forget, lookup-sources, searched-dijkstra,
}

module _ {F : Type 0} (fl : Floats F) where
  -- A node sequence along hops of the graph, at its cost, with no node twice and none that is gone.
  pub record IsWay (g : WGraph F) (gone : List String) (src dst : String) (us : List String) (d : F)
      : Type 0 where
    pub starts : first us ≡ some src
    pub ends : final us ≡ some dst
    pub simple : Simple us
    pub here : All (λ u. elem String_discrete u gone ≡ false) us
    pub cost : path_cost fl g us ≡ some d

module _ {F : Type 0} (fl : Floats F) (laws : FloatLaws fl) (g : WGraph F) (ok : IsGraph fl g.adj)
    (src : String) (gone : List String) (cuts : List (String × String)) where
  abbrev left : Adjacency F
  left = open_adjacency fl g gone cuts

  nn : NonNegative fl left
  nn = open-NonNegative fl g gone cuts ok

  abbrev search : Search F
  search = dijkstra fl src left

  abbrev Done : Type 0
  Done = Finished fl laws left src nn search

  -- The nodes that are read back from a node, and the way that they make.
  record Back (h : Done) (fuel : ℕ) (v : String) (d : F) : Type 0 where
    seq : List String
    eq : nodes_back fuel (sources search.prev) src v ≡ some (v ∷ seq)
    way : IsWay fl g gone src v (reverse seq ++ v ∷ []) d
    early : All (λ u. rank u h.done ≤ rank v h.done) (reverse seq ++ v ∷ [])

  Back-way :
      (h : Done) (fuel : ℕ) (v : String) (d : F)
      → elem String_discrete src gone ≡ false
      → dist_at search v ≡ some d
      → rank v h.done < fuel
      → Back h fuel v d
  unfolding nodes_back path_cost cost_from
  Back-way h zero v d kept at enough = absurd (omega (arith, enough))
  Back-way h (suc fuel) v d kept at enough = elim (String_discrete v src) [
    | yes p ↦ record {
      seq = [];
      eq = ground arith;
      way = record {
        starts = ground arith;
        ends = refl;
        simple = (refl, tt);
        here = (rw p kept, tt);
        cost = ground (arith, h.inv.source);
      };
      early = (omega arith, tt);
    }
    | no p ↦
        let parent = h.inv.tree v p (ground arith) in
        let u = parent.from in
        let sooner = parent.earlier (reached_done fl laws left src nn search h v (ground arith)) in
        let b = Back-way h fuel u parent.base kept parent.base_at (omega (arith, sooner, enough)) in
        let hop = open-Hop fl g gone cuts u parent.edge ok parent.mem in
        let hop_to = subst (λ w. hop_at g u w ≡ some parent.edge) parent.to hop.at in
        let fresh =
          not-elem-rank h.done v (rank u h.done) (reverse b.seq ++ u ∷ []) b.early sooner in
        record {
          seq = u ∷ b.seq;
          eq =
              ground
                (arith, b.eq, lookup-sources v search.prev (step_of u parent.edge) parent.prev);
          way = rw (reverse-cons u b.seq) (record {
            starts = first-snoc (reverse b.seq ++ u ∷ []) v src b.way.starts;
            ends = final-snoc (reverse b.seq ++ u ∷ []) v;
            simple = Simple-snoc (reverse b.seq ++ u ∷ []) v b.way.simple fresh;
            here =
                All-snoc (λ w. elem String_discrete w gone ≡ false) (reverse b.seq ++ u ∷ []) v
                  b.way.here (rw (← parent.to) hop.here);
            cost = ground (
              arith,
              parent.dist,
              cost_from-snoc fl g (reverse b.seq) u v parent.edge (float_zero fl) parent.base
                  b.way.cost (hop_to),
            );
          });
          early = rw (reverse-cons u b.seq) (
              All-snoc (λ w. rank w h.done ≤ rank v h.done) (reverse b.seq ++ u ∷ []) v
                (All-map (λ w. rank w h.done ≤ rank u h.done) (λ w. rank w h.done ≤ rank v h.done)
                  (reverse b.seq ++ u ∷ []) (λ w le. omega (arith, le, sooner)) b.early)
                (omega arith));
        }
  ]

  -- What a call of shortest to a node that is left hands back: nothing where no walk that is left costs
  -- a finite amount, and otherwise a way of least cost.
  abbrev pub Answers : String → Option (CandPath F) → Type 0
  Answers dst none = Unreachable fl left src dst
  Answers dst (some c) = Least fl left src dst c.cost × IsWay fl g gone src dst c.nodes c.cost

  abbrev outcome : String → Option (CandPath F)
  outcome dst = read_off fl (pops fl g gone cuts) (forget search) src dst

  shortest-outcome :
      (dst : String)
      → elem String_discrete src gone ≡ false
      → elem String_discrete dst gone ≡ false
      → shortest fl g src dst gone cuts ≡ outcome dst
  unfolding shortest
  shortest-outcome dst kept there = rw (kept, there, searched-dijkstra fl g gone cuts src) refl

  found_way :
      (dst : String) (d : F)
      → elem String_discrete src gone ≡ false
      → dist_at search dst ≡ some d
      → fl.is_inf d ≡ false
      → (c : CandPath F) × (outcome dst ≡ some c) × (c.cost ≡ d) × IsWay fl g gone src dst c.nodes d
  unfolding read_off
  found_way dst d kept at finite =
      let h = dijkstra-Finished fl laws left src nn in
      let b =
        Back-way h (pops fl g gone cuts) dst d kept at
          (omega (arith, rank-bound dst h.done, h.bound)) in
      (
        record { nodes = reverse (dst ∷ b.seq); cost = d },
        ground (arith, b.eq),
        refl,
        rw (reverse-cons dst b.seq) b.way,
      )

  nothing : (dst : String) → dist_at search dst ≡ none → outcome dst ≡ none
  unfolding read_off
  nothing dst q = ground arith

  endless :
      (dst : String) (d : F) → dist_at search dst ≡ some d → fl.is_inf d ≡ true → outcome dst ≡ none
  unfolding read_off
  endless dst d q r = ground arith

  -- Between two nodes that are left, the search always ends. It hands back a path of least cost along
  -- hops that are left, with no node twice and none of the removed ones, and its cost; where it
  -- hands back nothing, no walk that is left reaches the target at a finite least cost.
  pub shortest-Answers :
      (dst : String)
      → elem String_discrete src gone ≡ false
      → elem String_discrete dst gone ≡ false
      → Answers dst (shortest fl g src dst gone cuts)
  shortest-Answers dst kept there =
      rw (shortest-outcome dst kept there) (elim (Option-cases (dist_at search dst)) [
        | inl q ↦
            rw (nothing dst q)
              (inl (λ c w. ground (arith, (dijkstra_shortest fl laws left src nn).2 dst c w)))
        | inr (d, q) ↦
            let (_, sound, least) = dijkstra_shortest fl laws left src nn in
            let best : Least fl left src dst d = record {
              walk = sound dst d q;
              least = λ c w. ground (arith, least dst c w);
            } in
            elim (Bool-cases (fl.is_inf d)) [
              | inl r ↦ rw (endless dst d q r) (inr (d, best, r))
              | inr r ↦
                  let (c, eq, price, way) = found_way dst d kept q r in
                  rw eq (
                    subst (λ x. Least fl left src dst x) (sym price) best,
                    subst (λ x. IsWay fl g gone src dst c.nodes x) (sym price) way,
                  )
            ]
      ])
