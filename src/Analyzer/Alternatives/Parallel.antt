-- ===== src/Analyzer/Alternatives/Parallel.antt =====
-- Keeping the likeliest of parallel edges changes no least cost (backend/internal/analyzer/kshortest.go):
-- the graph's hops are edges of the snapshot, and each edge has a hop that costs no more.
use mathlib.Core.List.{lookup}
use mathlib.Core.List.Memᴰ.{Memᴰ}
use perspectivegraph.Base.Maps.{Map, lookup-insert, insert}
use perspectivegraph.Base.{
  String, String_discrete, Bool, true, false, not, ◌&&◌, Option, none, some, List, [], ◌∷◌, ◌≡◌,
  ◌≢◌, ◌⊎◌, inl, inr, sym, subst, arith, foldl, Floats, FloatLaws, is_yes, if◌then◌else◌,
  Bool-cases,
}
use perspectivegraph.Ontology.{Node, Edge}
use perspectivegraph.Analyzer.Weights.{OutEdge, out_edge}
use perspectivegraph.Analyzer.Adjacency.{as_out, leaving}
use perspectivegraph.Analyzer.Heap.Order.{lt_irrefl}
use perspectivegraph.Analyzer.Alternatives.{Row, row_of, beats, add_hop}
use perspectivegraph.Analyzer.Alternatives.Rows.{row_of-insert}

module _ {F : Type 0} (fl : Floats F) (laws : FloatLaws fl) (upper_trim : String → String) where
  -- There is a hop, and it weighs no more than a bound.
  abbrev pub covers : F → Option (OutEdge F) → Bool
  covers w none = false
  covers w (some e) = not (fl.lt w e.weight)

  better_covers :
      (o : Option (OutEdge F)) (oe : OutEdge F) (w : F)
      → covers w o ≡ true
      → beats fl o oe ≡ true
      → covers w (some oe) ≡ true
  better_covers none oe w h q = absurd (ground arith)
  better_covers (some cur) oe w h q =
      ground (arith, laws.asymm oe.weight cur.weight, laws.trans oe.weight cur.weight w)

  lightest_covers :
      (o : Option (OutEdge F)) (oe : OutEdge F)
      → covers oe.weight (if beats fl o oe then some oe else o) ≡ true
  lightest_covers none oe = ground (arith, lt_irrefl fl laws oe.weight)
  lightest_covers (some cur) oe = ground (arith, lt_irrefl fl laws oe.weight)

  module _ (nodes : Map String (Node F)) where
    hop_at-add_hop :
        (adj : Map String (Row F)) (e : Edge F) (u v : String)
        → lookup String_discrete v (row_of (add_hop fl upper_trim nodes adj e) u) ≡ (
            if is_yes (String_discrete u e.from)
              && is_yes (String_discrete v e.to)
              && beats fl
                  (lookup String_discrete e.to (row_of adj e.from))
                  (as_out fl upper_trim nodes e)
            then some (as_out fl upper_trim nodes e)
            else lookup String_discrete v (row_of adj u))
    unfolding add_hop
    hop_at-add_hop adj e u v =
        let oe = as_out fl upper_trim nodes e in
        let row = row_of adj e.from in
        elim (Bool-cases (beats fl (lookup String_discrete e.to row) oe)) [
          | inr h ↦ ground arith
          | inl h ↦
              rw (h, row_of-insert fl e.from u (insert String_discrete e.to oe row) adj)
                (elim (String_discrete u e.from) [
                  | yes p ↦ rw p (ground (arith, lookup-insert String_discrete v e.to oe row))
                  | no p ↦ ground arith
                ])
        ]

    kept_hop :
        (adj : Map String (Row F)) (e : Edge F) (u v : String) (w : F)
        → covers w (lookup String_discrete v (row_of adj u)) ≡ true
        → covers w (lookup String_discrete v (row_of (add_hop fl upper_trim nodes adj e) u)) ≡ true
    kept_hop adj e u v w h = rw (hop_at-add_hop adj e u v) (elim (String_discrete u e.from) [
      | no p ↦ ground arith
      | yes p ↦ elim (String_discrete v e.to) [
        | no q ↦ ground arith
        | yes q ↦
            let old = lookup String_discrete e.to (row_of adj e.from) in
            let oe = as_out fl upper_trim nodes e in
            let here : covers w old ≡ true =
              subst (λ x. covers w (lookup String_discrete x (row_of adj e.from)) ≡ true) q
                (subst (λ x. covers w (lookup String_discrete v (row_of adj x)) ≡ true) p h) in
            ground (arith, better_covers old oe w here)
      ]
    ])

    new_hop :
        (adj : Map String (Row F)) (e : Edge F)
        → covers
            (as_out fl upper_trim nodes e).weight
            (lookup String_discrete e.to (row_of (add_hop fl upper_trim nodes adj e) e.from))
          ≡ true
    new_hop adj e =
        let old = lookup String_discrete e.to (row_of adj e.from) in
        rw (hop_at-add_hop adj e e.from e.to)
          (ground (arith, lightest_covers old (as_out fl upper_trim nodes e)))

    abbrev pub adds : Map String (Row F) → List (Edge F) → Map String (Row F)
    adds = foldl (add_hop fl upper_trim nodes)

    kept_hops :
        (es : List (Edge F)) (adj : Map String (Row F)) (u v : String) (w : F)
        → covers w (lookup String_discrete v (row_of adj u)) ≡ true
        → covers w (lookup String_discrete v (row_of (adds adj es) u)) ≡ true
    kept_hops [] adj u v w h = h
    kept_hops (e ∷ es) adj u v w h =
        kept_hops es (add_hop fl upper_trim nodes adj e) u v w (kept_hop adj e u v w h)

    -- Each edge that leaves a node has a hop to the same node that weighs no more.
    pub edge_covered :
        (es : List (Edge F)) (adj : Map String (Row F)) (u : String) (o : OutEdge F)
        → Memᴰ o (leaving fl upper_trim nodes u es)
        → covers o.weight (lookup String_discrete o.to (row_of (adds adj es) u)) ≡ true
    unfolding out_edge
    edge_covered [] adj u o m = elim m [ ]
    edge_covered (e ∷ es) adj u o m =
        let adj' = add_hop fl upper_trim nodes adj e in
        elim (String_discrete u e.from) [
          | no p ↦ edge_covered es adj' u o (rw (not_it p) at m)
          | yes p ↦ elim (rw (it p) at m) [
            | Memᴰ.tail m' ↦ edge_covered es adj' u o m'
            | Memᴰ.head q ↦ kept_hops es adj' u o.to o.weight (
                subst (λ x. covers x.weight (lookup String_discrete x.to (row_of adj' u)) ≡ true)
                  (sym q)
                  (subst
                    (λ x.
                      covers (as_out fl upper_trim nodes e).weight
                        (lookup String_discrete e.to (row_of adj' x))
                      ≡ true)
                    (sym p) (new_hop adj e)))
          ]
        ]
      where
        it : u ≡ e.from → is_yes (String_discrete u e.from) ≡ true
        it p = ground arith

        not_it : u ≢ e.from → is_yes (String_discrete u e.from) ≡ false
        not_it p = ground arith

    -- Each hop is an edge that leaves its node.
    pub hop_edge :
        (es : List (Edge F)) (adj : Map String (Row F)) (u v : String) (o : OutEdge F)
        → lookup String_discrete v (row_of (adds adj es) u) ≡ some o
        → (lookup String_discrete v (row_of adj u) ≡ some o)
          ⊎ Memᴰ o (leaving fl upper_trim nodes u es)
    hop_edge [] adj u v o h = inl h
    hop_edge (e ∷ es) adj u v o h =
        let oe = as_out fl upper_trim nodes e in
        let new =
          is_yes (String_discrete v e.to)
          && beats fl (lookup String_discrete e.to (row_of adj e.from)) oe in
        elim (Bool-cases (is_yes (String_discrete u e.from))) [
          | inr p ↦ rw p (elim (hop_edge es (add_hop fl upper_trim nodes adj e) u v o h) [
            | inr m ↦ inr m
            | inl q ↦ inl (ground (arith, hop_at-add_hop adj e u v))
          ])
          | inl p ↦ rw p (elim (hop_edge es (add_hop fl upper_trim nodes adj e) u v o h) [
            | inr m ↦ inr (Memᴰ.tail m)
            | inl q ↦ elim (Bool-cases new) [
              | inl n ↦ inr (Memᴰ.head (ground (arith, hop_at-add_hop adj e u v)))
              | inr n ↦ inl (ground (arith, hop_at-add_hop adj e u v))
            ]
          ])
        ]
