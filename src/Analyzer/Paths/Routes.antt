-- ===== src/Analyzer/Paths/Routes.antt =====
-- The paths that are rebuilt from the search are routes of least cost
-- (backend/internal/analyzer/attackpath.go).
use mathlib.Core.List.{reverse, reverse-cons}
use mathlib.Core.List.Memᴰ.{Memᴰ}
use perspectivegraph.Base.Maps.{Map, keys}
use perspectivegraph.Base.{
  ℕ, zero, suc, ◌+◌, ◌<◌, String, String_discrete, true, false, some, List, [], ◌∷◌, ◌++◌, ◌≡◌, ◌≢◌,
  ◌⊎◌, inl, inr, refl, sym, ap, subst, arith, Floats, FloatLaws, float_zero, Bool-cases,
  Option-cases,
}
use perspectivegraph.Ontology.{Node}
use perspectivegraph.Analyzer.Weights.{Step, OutEdge, Adjacency, out_of}
use perspectivegraph.Analyzer.Dijkstra.{Search, dist_at, step_of, out_total, dijkstra}
use perspectivegraph.Analyzer.Dijkstra.Walks.{Walk, NonNegative}
use perspectivegraph.Analyzer.Dijkstra.Invariant.{rank, rank-bound}
use perspectivegraph.Analyzer.Dijkstra.Main.{
  Finished, dijkstra-Finished, reached_done, dijkstra_shortest,
}
use perspectivegraph.Analyzer.Paths.{
  AttackPath, steps_back, path_along, reconstruct, paths_to, paths_from_seed, reachable,
  assemble_attack_path,
}

module _ {F : Type 0} (fl : Floats F) (adj : Adjacency F) where
  -- Steps along out-edges from a node at a cost to a node at a cost.
  abbrev pub IsRoute : String → F → List (Step F) → String → F → Type 0
  IsRoute u c [] v d = (u ≡ v) × (c ≡ d)
  IsRoute u c (st ∷ sts) v d =
      (e : OutEdge F) × Memᴰ e (out_of adj u)
      × (st ≡ step_of u e)
      × IsRoute e.to (fl.add c e.weight) sts v d

  IsRoute-append :
      (u : String) (c : F) (sts : List (Step F)) (w : String) (b : F) (e : OutEdge F)
      → IsRoute u c sts w b
      → Memᴰ e (out_of adj w)
      → IsRoute u c (sts ++ step_of w e ∷ []) e.to (fl.add b e.weight)
  IsRoute-append u c [] w b e (p, q) m = (
    e,
    subst (λ x. Memᴰ e (out_of adj x)) (sym p) m,
    ap (λ x. step_of x e) (sym p),
    (refl, ap (λ x. fl.add x e.weight) q),
  )
  IsRoute-append u c (st ∷ sts) w b e (x, mx, px, route) m =
      (x, mx, px, IsRoute-append x.to (fl.add c x.weight) sts w b e route m)

  module _ (laws : FloatLaws fl) (src : String) (nn : NonNegative fl adj) (t : Search F)
      (h : Finished fl laws adj src nn t) where
    back-IsRoute :
        (fuel : ℕ) (v : String) (d : F)
        → dist_at t v ≡ some d
        → rank v h.done < fuel
        → (back : List (Step F)) × (steps_back fuel fl t src v ≡ some back)
          × IsRoute src (float_zero fl) (reverse back) v d
    unfolding steps_back
    back-IsRoute zero v d at enough = absurd (omega (arith, enough))
    back-IsRoute (suc fuel) v d at enough = elim (String_discrete v src) [
      | yes p ↦ ([], ground arith, (sym p, ground (arith, h.inv.source)))
      | no p ↦
          let parent = h.inv.tree v p (ground arith) in
          let (back, eq, route) = back-IsRoute fuel parent.from parent.base parent.base_at (
            omega (
              arith,
              parent.earlier (reached_done fl laws adj src nn t h v (ground arith)),
              enough,
            )) in
          let st = step_of parent.from parent.edge in
          let cost : fl.add parent.base parent.edge.weight ≡ d = ground (arith, parent.dist) in
          (
            st ∷ back,
            ground (arith, parent.prev, eq),
            rw (reverse-cons st back) (
                subst (λ c. IsRoute src (float_zero fl) (reverse back ++ st ∷ []) v c) cost
                  (subst
                    (λ w.
                      IsRoute src (float_zero fl) (reverse back ++ st ∷ []) w
                        (fl.add parent.base parent.edge.weight))
                    parent.to
                    (IsRoute-append src (float_zero fl) (reverse back) parent.from parent.base
                      parent.edge route parent.mem))),
          )
    ]

module _ {F : Type 0} (fl : Floats F) (adj : Adjacency F) (src : String) where
  -- The least cost of a walk to a node.
  pub record Least (v : String) (d : F) : Type 0 where
    pub walk : Walk fl adj src v d
    pub least : (c : F) → Walk fl adj src v c → fl.lt c d ≡ false

  -- No walk reaches the node, or the least cost is infinite.
  abbrev pub Unreachable : String → Type 0
  Unreachable v = ((c : F) → ¬ Walk fl adj src v c) ⊎ ((d : F) × Least v d × (fl.is_inf d ≡ true))

  -- The paths listed for a list of jewels: one of least cost for each that a walk reaches, but for
  -- the source itself.
  pub data PathsTo : List String → List (AttackPath F) → Type 0 where
    no_more : PathsTo [] []
    itself : {js : List String} {ps : List (AttackPath F)} → PathsTo js ps → PathsTo (src ∷ js) ps
    skipped :
        {j : String} {js : List String} {ps : List (AttackPath F)}
        → Unreachable j
        → PathsTo js ps
        → PathsTo (j ∷ js) ps
    found :
        {j : String} {d : F} {p : AttackPath F} {js : List String} {ps : List (AttackPath F)}
        → j ≢ src
        → Least j d
        → IsRoute fl adj src (float_zero fl) p.steps j d
        → PathsTo js ps
        → PathsTo (j ∷ js) (p ∷ ps)

module _ {F : Type 0} (fl : Floats F) (laws : FloatLaws fl) (adj : Adjacency F) (src : String)
    (nn : NonNegative fl adj) where
  abbrev search : Search F
  search = dijkstra fl src adj

  Least-dist : (v : String) (d : F) → dist_at search v ≡ some d → Least fl adj src v d
  Least-dist v d at =
      let (_, sound, least) = dijkstra_shortest fl laws adj src nn in
      record { walk = sound v d at; least = λ c w. ground (arith, least v c w) }

  unreachable : (v : String) → reachable fl (dist_at search v) ≡ false → Unreachable fl adj src v
  unfolding reachable
  unreachable v h = elim (Option-cases (dist_at search v)) [
    | inl q ↦ inl (λ c w. ground (arith, (dijkstra_shortest fl laws adj src nn).2 v c w))
    | inr (d, q) ↦ inr (d, Least-dist v d q, ground arith)
  ]

  steps-path_along :
      (nodes : Map String (Node F)) (back : List (Step F))
      → (path_along fl src nodes back).steps ≡ reverse back
  unfolding path_along assemble_attack_path
  steps-path_along nodes back = refl

  reconstruct-IsRoute :
      (nodes : Map String (Node F)) (v : String) (d : F)
      → dist_at search v ≡ some d
      → (p : AttackPath F) × (reconstruct (out_total adj (keys adj) + 2) fl search src v nodes
          ≡ some p)
        × IsRoute fl adj src (float_zero fl) p.steps v d
  unfolding reconstruct
  reconstruct-IsRoute nodes v d at =
      let h = dijkstra-Finished fl laws adj src nn in
      let (back, eq, route) =
        back-IsRoute fl adj laws src nn search h (out_total adj (keys adj) + 2) v d at
          (omega (arith, rank-bound v h.done, h.bound)) in
      (
        path_along fl src nodes back,
        ground (arith, eq),
        subst (λ sts. IsRoute fl adj src (float_zero fl) sts v d)
            (sym (steps-path_along nodes back)) route,
      )

  paths_to_all :
      (nodes : Map String (Node F)) (jewels : List String)
      → (ps : List (AttackPath F)) × (paths_to
            (out_total adj (keys adj) + 2)
            fl
            search
            src
            nodes
            jewels
          ≡ some ps)
        × PathsTo fl adj src jewels ps
  unfolding paths_to reachable
  paths_to_all nodes [] = ([], refl, PathsTo.no_more)
  paths_to_all nodes (j ∷ js) =
      let (ps, eq, rest) = paths_to_all nodes js in
      elim (String_discrete src j) [
        | yes p ↦ (
          ps,
          ground (arith, eq),
          subst (λ v. PathsTo fl adj src (v ∷ js) ps) p (PathsTo.itself rest),
        )
        | no p ↦ elim (Bool-cases (reachable fl (dist_at search j))) [
          | inr q ↦ (ps, ground (arith, eq), PathsTo.skipped (unreachable j q) rest)
          | inl q ↦ elim (Option-cases (dist_at search j)) [
            | inl r ↦ absurd (ground arith)
            | inr (d, r) ↦
                let (path, made, route) = reconstruct-IsRoute nodes j d r in
                (
                  path ∷ ps,
                  ground (arith, eq, made),
                  PathsTo.found (λ e. p (sym e)) (Least-dist j d r) route rest,
                )
          ]
        ]
      ]

  -- The search from a seed ends with one path for each listed jewel that a walk reaches at a finite
  -- least cost, the seed itself left out: its steps are out-edges from the seed to the jewel, and
  -- no walk to the jewel costs less than they do.
  pub paths_from_seed_least :
      (nodes : Map String (Node F)) (jewels : List String)
      → (ps : List (AttackPath F)) × (paths_from_seed fl src jewels adj nodes ≡ some ps)
        × PathsTo fl adj src jewels ps
  unfolding paths_from_seed
  paths_from_seed_least nodes jewels = paths_to_all nodes jewels
