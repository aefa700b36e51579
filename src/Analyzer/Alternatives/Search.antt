-- ===== src/Analyzer/Alternatives/Search.antt =====
-- The search of shortest is the analyzer's search on what is left of the graph, with only the node of
-- each last hop kept (backend/internal/analyzer/kshortest.go).
use mathlib.Core.List.{lookup}
use perspectivegraph.Base.Maps.{Map, insert, elem, keys}
use perspectivegraph.Base.{
  ℕ, zero, suc, ◌+◌, String, String_discrete, ◌||◌, some, List, [], ◌∷◌, ◌≡◌, inl, inr, refl, arith,
  foldl, Floats, if◌then◌else◌, Bool-cases, ◌==◌, length,
}
use perspectivegraph.Analyzer.Weights.{OutEdge, Step}
use perspectivegraph.Analyzer.Heap.{HeapItem, push, pop}
use perspectivegraph.Analyzer.Dijkstra.{
  Search, relax, expand, run, start, dijkstra, improves, dist_at, step_of, known, out_total,
}
use perspectivegraph.Analyzer.Alternatives.{
  WGraph, Trail, is_cut, allowed, neighbors, open_adjacency, visit, advance, loop, searched,
}
use perspectivegraph.Analyzer.Alternatives.Rows.{out_of-open_adjacency}

module _ {F : Type 0} where
  -- The node that each last hop comes from.
  abbrev pub sources : Map String (Step F) → Map String String
  sources [] = []
  sources ((v, st) ∷ m) = (v, st.from) ∷ sources m

  abbrev pub forget : Search F → Trail F
  forget s = record { dist = s.dist; prev = sources s.prev; queue = s.queue }

  sources-insert :
      (v : String) (st : Step F) (m : Map String (Step F))
      → sources (insert String_discrete v st m) ≡ insert String_discrete v st.from (sources m)
  unfolding insert
  sources-insert v st [] = refl
  sources-insert v st ((w, x) ∷ m) = ground (arith, sources-insert v st m)

  pub lookup-sources :
      (v : String) (m : Map String (Step F)) (st : Step F)
      → lookup String_discrete v m ≡ some st
      → lookup String_discrete v (sources m) ≡ some st.from
  unfolding lookup
  lookup-sources v [] st q = absurd (ground arith)
  lookup-sources v ((w, x) ∷ m) st q = ground (arith, lookup-sources v m st)

  module _ (fl : Floats F) (g : WGraph F) (gone : List String) (cuts : List (String × String)) where
    forget-relax :
        (cur : HeapItem F) (s : Search F) (e : OutEdge F)
        → visit fl gone cuts cur (forget s) e ≡ (
            if elem String_discrete e.to gone || is_cut cuts cur.node e.to
            then forget s
            else forget (relax fl cur s e))
    unfolding visit relax
    forget-relax cur s e =
        let shorter = improves fl (dist_at s e.to) (fl.add cur.d e.weight) in
        elim (Bool-cases (elem String_discrete e.to gone || is_cut cuts cur.node e.to)) [
          | inl h ↦ rw h refl
          | inr h ↦ elim (Bool-cases shorter) [
            | inl q ↦ rw (h, q, sources-insert e.to (step_of cur.node e) s.prev) refl
            | inr q ↦ rw (h, q) refl
          ]
        ]

    forget-relax_all :
        (cur : HeapItem F) (es : List (OutEdge F)) (s : Search F)
        → foldl (visit fl gone cuts cur) (forget s) es
          ≡ forget (foldl (relax fl cur) s (allowed fl gone cuts cur.node es))
    forget-relax_all cur [] s = refl
    forget-relax_all cur (e ∷ es) s =
        elim (Bool-cases (elem String_discrete e.to gone || is_cut cuts cur.node e.to)) [
          | inl h ↦ rw (forget-relax cur s e, h) (forget-relax_all cur es s)
          | inr h ↦ rw (forget-relax cur s e, h) (forget-relax_all cur es (relax fl cur s e))
        ]

    forget-expand :
        (s : Search F) (cur : HeapItem F)
        → advance fl g gone cuts (forget s) cur
          ≡ forget (expand fl (open_adjacency fl g gone cuts) s cur)
    unfolding advance expand
    forget-expand s cur = elim (Bool-cases (fl.lt (known fl s cur.node) cur.d)) [
      | inl h ↦ rw h refl
      | inr h ↦
          rw (h, out_of-open_adjacency fl g gone cuts cur.node)
            (forget-relax_all cur (neighbors fl g cur.node) s)
    ]

    forget-run :
        (fuel : ℕ) (s : Search F)
        → loop fl fuel g gone cuts (forget s)
          ≡ forget (run fl fuel (open_adjacency fl g gone cuts) s)
    unfolding loop run
    forget-run zero s = refl
    forget-run (suc fuel) s = elim (Bool-cases (length s.queue == 0)) [
      | inl h ↦ rw h refl
      | inr h ↦
          let (cur, q) = pop fl s.queue in
          let adj = open_adjacency fl g gone cuts in
          let popped : Search F = record s { queue = q } in
          rw (h, forget-expand popped cur) (forget-run fuel (expand fl adj popped cur))
    ]

    -- The search of shortest on what is left of the graph finds the distances that the analyzer's
    -- search finds there, and the nodes that its last hops come from.
    pub searched-dijkstra :
        (src : String)
        → searched fl g src gone cuts ≡ forget (dijkstra fl src (open_adjacency fl g gone cuts))
    unfolding searched dijkstra start push
    searched-dijkstra src =
        let adj = open_adjacency fl g gone cuts in
        forget-run (out_total adj (keys adj) + 2) (start fl src)
