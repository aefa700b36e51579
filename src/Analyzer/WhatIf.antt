-- ===== src/Analyzer/WhatIf.antt =====
-- Cutting edges out of a snapshot, the what-if of a fix (backend/internal/analyzer/kshortest.go).
use mathlib.Core.List.Memᴰ.{Memᴰ}
use perspectivegraph.Base.{
  String, String_discrete, Bool, true, false, not, ◌⊎◌, ◌↔◌, refl, subst, ◌&&◌, ◌||◌, List, [], ◌∷◌,
  ◌≡◌, inl, inr, arith, Floats, is_yes, if◌then◌else◌, Bool-cases,
}
use perspectivegraph.Ontology.{Node, Edge}
use perspectivegraph.Graph.Contract.{Snapshot}
use perspectivegraph.Analyzer.Weights.{Adjacency, OutEdge, node_by_id, build_adjacency}
use perspectivegraph.Analyzer.Adjacency.{leaving, out_of-build_adjacency}
use perspectivegraph.Analyzer.Dijkstra.Walks.{Walk}
use perspectivegraph.Analyzer.Paths.Routes.{Least}
use perspectivegraph.Base.Maps.{Map}

-- An empty type matches any edge between the two nodes.
pub record EdgeCut : Type 0 where
  pub from : String
  pub to : String
  pub typ : String

module _ {F : Type 0} where
  -- The closure `matches`.
  unfoldable pub matches : List EdgeCut → Edge F → Bool
  matches [] e = false
  matches (c ∷ cs) e =
      is_yes (String_discrete c.from e.from)
        && is_yes (String_discrete c.to e.to)
        && (is_yes (String_discrete c.typ "") || is_yes (String_discrete c.typ e.typ))
      || matches cs e

  unfoldable pub keep_uncut : List EdgeCut → List (Edge F) → List (Edge F)
  unfolding matches
  keep_uncut cs [] = []
  keep_uncut cs (e ∷ es) =
      let rest = keep_uncut cs es in if not (matches cs e) then e ∷ rest else rest

  unfoldable pub cut_edges : Snapshot F → List EdgeCut → Snapshot F
  unfolding keep_uncut
  cut_edges snap cs = record { nodes = snap.nodes; edges = keep_uncut cs snap.edges }

  mem-keep_uncut :
      (cs : List EdgeCut) (es : List (Edge F)) (e : Edge F)
      → Memᴰ e (keep_uncut cs es)
      → Memᴰ e es × (matches cs e ≡ false)
  unfolding keep_uncut
  mem-keep_uncut cs [] e m = elim m [ ]
  mem-keep_uncut cs (x ∷ es) e m = elim (Bool-cases (matches cs x)) [
    | inl h ↦ let (n, q) = mem-keep_uncut cs es e (rw h at m) in (Memᴰ.tail n, q)
    | inr h ↦ elim (rw h at m) [
      | Memᴰ.head p ↦ (Memᴰ.head p, rw p h)
      | Memᴰ.tail m' ↦ let (n, q) = mem-keep_uncut cs es e m' in (Memᴰ.tail n, q)
    ]
  ]

  keep_uncut-mem :
      (cs : List EdgeCut) (es : List (Edge F)) (e : Edge F)
      → Memᴰ e es
      → matches cs e ≡ false
      → Memᴰ e (keep_uncut cs es)
  unfolding keep_uncut
  keep_uncut-mem cs [] e m h = elim m [ ]
  keep_uncut-mem cs (x ∷ es) e m h = elim (Bool-cases (matches cs x)) [
    | inl q ↦ rw q (elim m [
      | Memᴰ.head p ↦ absurd (let r = rw p at h in ground arith)
      | Memᴰ.tail m' ↦ keep_uncut-mem cs es e m' h
    ])
    | inr q ↦ rw q (elim m [
      | Memᴰ.head p ↦ Memᴰ.head p
      | Memᴰ.tail m' ↦ Memᴰ.tail (keep_uncut-mem cs es e m' h)
    ])
  ]

  -- Some cut names both ends of the edge, and its type or none.
  pub record IsCut (cs : List EdgeCut) (e : Edge F) : Type 0 where
    pub cut : EdgeCut
    pub listed : Memᴰ cut cs
    pub same_from : cut.from ≡ e.from
    pub same_to : cut.to ≡ e.to
    pub any_type : (cut.typ ≡ "") ⊎ (cut.typ ≡ e.typ)

  matches-IsCut : (cs : List EdgeCut) (e : Edge F) → matches cs e ≡ true → IsCut cs e
  unfolding matches
  matches-IsCut [] e h = absurd (ground arith)
  matches-IsCut (c ∷ cs) e h = elim (Bool-cases (matches cs e)) [
    | inl q ↦
        let r = matches-IsCut cs e q in
        record {
          cut = r.cut;
          listed = Memᴰ.tail r.listed;
          same_from = r.same_from;
          same_to = r.same_to;
          any_type = r.any_type;
        }
    | inr q ↦ record {
      cut = c;
      listed = Memᴰ.head refl;
      same_from = ground arith;
      same_to = ground arith;
      any_type = ground arith;
    }
  ]

  IsCut-matches :
      (cs : List EdgeCut) (e : Edge F) (c : EdgeCut)
      → Memᴰ c cs
      → c.from ≡ e.from
      → c.to ≡ e.to
      → (c.typ ≡ "") ⊎ (c.typ ≡ e.typ)
      → matches cs e ≡ true
  unfolding matches
  IsCut-matches [] e c m f t y = elim m [ ]
  IsCut-matches (x ∷ cs) e c m f t y = elim m [
    | Memᴰ.tail m' ↦ let rest = IsCut-matches cs e c m' f t y in ground (arith, rest)
    | Memᴰ.head p ↦ subst (λ z. matches (z ∷ cs) e ≡ true) p (ground (arith, f, t, y))
  ]

  -- What is left of a list of edges: those that no cut names, each as often as it was there and in order.
  pub data LeftBy (cs : List EdgeCut) : List (Edge F) → List (Edge F) → Type 0 where
    no_edge : LeftBy cs [] []
    dropped :
        {e : Edge F} {es rest : List (Edge F)}
        → IsCut cs e
        → LeftBy cs es rest
        → LeftBy cs (e ∷ es) rest
    kept :
        {e : Edge F} {es rest : List (Edge F)}
        → ¬ IsCut cs e
        → LeftBy cs es rest
        → LeftBy cs (e ∷ es) (e ∷ rest)

  not_matches : (cs : List EdgeCut) (e : Edge F) → matches cs e ≡ false → ¬ IsCut cs e
  not_matches cs e q c =
      let cut = IsCut-matches cs e c.cut c.listed c.same_from c.same_to c.any_type in
      ground (arith, q, cut)

  keep_uncut-LeftBy : (cs : List EdgeCut) (es : List (Edge F)) → LeftBy cs es (keep_uncut cs es)
  unfolding keep_uncut
  keep_uncut-LeftBy cs [] = LeftBy.no_edge
  keep_uncut-LeftBy cs (e ∷ es) =
      let rest = keep_uncut-LeftBy cs es in
      elim (Bool-cases (matches cs e)) [
        | inl q ↦ rw q (LeftBy.dropped (matches-IsCut cs e q) rest)
        | inr q ↦ rw q (LeftBy.kept (not_matches cs e q) rest)
      ]

  -- Cutting edges keeps the nodes, and keeps, in their order and as often as they were there, the edges
  -- that no cut names: a cut names the edges with its two ends, each at its own side, and with its
  -- type, or with any if it has none. So an edge is there after the cut exactly where it was there and
  -- no cut names it.
  pub cut_edges_exact :
      (snap : Snapshot F) (cs : List EdgeCut) (e : Edge F)
      → ((cut_edges snap cs).nodes ≡ snap.nodes)
        × LeftBy cs snap.edges (cut_edges snap cs).edges
        × (Memᴰ e (cut_edges snap cs).edges ↔ Memᴰ e snap.edges × ¬ IsCut cs e)
  unfolding cut_edges
  cut_edges_exact snap cs e = (
    refl,
    keep_uncut-LeftBy cs snap.edges,
    (
      λ m. let (n, q) = mem-keep_uncut cs snap.edges e m in (n, not_matches cs e q),
      λ (m, none_cuts). elim (Bool-cases (matches cs e)) [
        | inl q ↦ absurd (none_cuts (matches-IsCut cs e q))
        | inr q ↦ keep_uncut-mem cs snap.edges e m q
      ],
    ),
  )

  module _ (fl : Floats F) (upper_trim : String → String) where
    leaving-keep_uncut :
        (nodes : Map String (Node F)) (cs : List EdgeCut) (u : String) (es : List (Edge F))
        (o : OutEdge F)
        → Memᴰ o (leaving fl upper_trim nodes u (keep_uncut cs es))
        → Memᴰ o (leaving fl upper_trim nodes u es)
    unfolding keep_uncut
    leaving-keep_uncut nodes cs u [] o m = m
    leaving-keep_uncut nodes cs u (e ∷ es) o m = elim (Bool-cases (matches cs e)) [
      | inl h ↦ elim (Bool-cases (is_yes (String_discrete u e.from))) [
        | inl q ↦ rw q (Memᴰ.tail (leaving-keep_uncut nodes cs u es o (rw h at m)))
        | inr q ↦ rw q (leaving-keep_uncut nodes cs u es o (rw h at m))
      ]
      | inr h ↦ elim (Bool-cases (is_yes (String_discrete u e.from))) [
        | inl q ↦ rw q (elim (rw (h, q) at m) [
          | Memᴰ.head p ↦ Memᴰ.head p
          | Memᴰ.tail m' ↦ Memᴰ.tail (leaving-keep_uncut nodes cs u es o m')
        ])
        | inr q ↦ rw q (leaving-keep_uncut nodes cs u es o (rw (h, q) at m))
      ]
    ]

    abbrev pub hops_of : Snapshot F → Adjacency F
    hops_of snap = build_adjacency fl upper_trim snap.edges (node_by_id snap)

    uncut_walk :
        (snap : Snapshot F) (cs : List EdgeCut) (s v : String) (c : F)
        → Walk fl (hops_of (cut_edges snap cs)) s v c
        → Walk fl (hops_of snap) s v c
    unfolding cut_edges node_by_id
    uncut_walk snap cs s _ _ Walk.here = Walk.here
    uncut_walk snap cs s _ _ (Walk.hop {u} {c} w e m) =
        let nodes = node_by_id snap in
        let cut =
          rw (out_of-build_adjacency fl upper_trim nodes (keep_uncut cs snap.edges) u) at m in
        Walk.hop (uncut_walk snap cs s u c w) e (
          rw (out_of-build_adjacency fl upper_trim nodes snap.edges u)
            (leaving-keep_uncut nodes cs u snap.edges e cut))

    -- A cut makes no walk and shortens none: what is reached after it was reached before it, at the same
    -- cost, and the least cost to a node after it is not less than before it.
    pub cut_edges_no_shorter :
        (snap : Snapshot F) (cs : List EdgeCut) (s v : String)
        → ((c : F) → Walk fl (hops_of (cut_edges snap cs)) s v c → Walk fl (hops_of snap) s v c)
          × ((d d' : F)
              → Least fl (hops_of snap) s v d
              → Least fl (hops_of (cut_edges snap cs)) s v d'
              → fl.lt d' d ≡ false)
    cut_edges_no_shorter snap cs s v = (
      uncut_walk snap cs s v,
      λ d d' before after. before.least d' (uncut_walk snap cs s v d' after.walk),
    )
