-- ===== src/Broker/Split.antt =====
-- A split event loses nothing, and each message fits (backend/internal/broker/batch.go).
use mathlib.Core.List.{append-nil}
use mathlib.Core.List.Memᴰ.{Memᴰ}
use perspectivegraph.Base.{
  ℕ, zero, suc, ◌+◌, ◌<◌, ◌≤◌, true, false, some, List, [], ◌∷◌, ◌≡◌, inl, inr, refl, subst, arith,
  ltb, leb, length, Bool-cases, Option-cases,
}
use perspectivegraph.Ontology.{Node, Edge, Event}
use perspectivegraph.Broker.{Json, Outcome, both, pack, part, emit, split_event}
use perspectivegraph.Broker.Packing.{emit_halves-Comes, pack-Comes}
use perspectivegraph.Broker.Messages.{
  Splits, Oversized, Nodes, Edges, no_message, one_message, join-Splits, join-Nodes, join-Edges,
}

module _ {F B : Type 0} (json : Json F B) (limit : ℕ) (ev : Event F) where
  -- A smaller part of the event is split as it should be.
  abbrev Smaller : ℕ → (Event F → Outcome B) → Type 0
  Smaller n split =
      (ns : List (Node F)) (es : List (Edge F))
      → length ns + length es < n
      → Splits json limit ev ns es (split (part ev ns es))

  lone_node :
      (ns : List (Node F)) (body : B)
      → json.event (part ev ns []) ≡ some body
      → limit < json.len body
      → length ns ≡ 1
      → Oversized json limit ev ns []
  lone_node [] body q big one = absurd (omega (arith, one))
  lone_node (n ∷ []) body q big one = inl (n, body, Memᴰ.head refl, q, big)
  lone_node (n ∷ m ∷ ns) body q big one = absurd (omega (arith, one))

  lone_edge :
      (es : List (Edge F)) (body : B)
      → json.event (part ev [] es) ≡ some body
      → limit < json.len body
      → length es ≡ 1
      → Oversized json limit ev [] es
  lone_edge [] body q big one = absurd (omega (arith, one))
  lone_edge (e ∷ []) body q big one = inr (e, body, Memᴰ.head refl, q, big)
  lone_edge (e ∷ d ∷ es) body q big one = absurd (omega (arith, one))

  emit-Nodes :
      (split : Event F → Outcome B) (n : ℕ) (ns : List (Node F))
      → Smaller n split
      → 0 < length ns
      → length ns ≤ n
      → Nodes json limit ev ns (emit json limit split ev ns [])
  unfolding emit
  emit-Nodes split n ns smaller some_node few = elim (Option-cases (json.event (part ev ns []))) [
    | inl q ↦ rw (q, emit) (ns, [], q)
    | inr (body, q) ↦ elim (Bool-cases (leb (json.len body) limit)) [
      | inl fits ↦ rw (q, emit, fits) ((one_message json limit ev) ns [] body q (ground arith))
      | inr large ↦ elim (Bool-cases (ltb 1 (length ns))) [
        | inl many ↦
            let more : leb (length ns + 0) 1 ≡ false = ground arith in
            rw (q, emit, large, more, many)
              (emit_halves-Comes (Nodes json limit ev) (no_message json limit ev)
                (join-Nodes json limit ev) ns (λ g. split (part ev g [])) (ground arith)
                (λ g less. smaller g [] (omega (arith, less, few))))
        | inr one ↦
            let alone : leb (length ns + 0) 1 ≡ true = ground arith in
            rw (q, emit, large, alone) (lone_node ns body q (ground arith) (ground arith))
      ]
    ]
  ]

  emit-Edges :
      (split : Event F → Outcome B) (n : ℕ) (es : List (Edge F))
      → Smaller n split
      → 0 < length es
      → length es ≤ n
      → Edges json limit ev es (emit json limit split ev [] es)
  unfolding emit
  emit-Edges split n es smaller some_edge few = elim (Option-cases (json.event (part ev [] es))) [
    | inl q ↦ rw (q, emit) ([], es, q)
    | inr (body, q) ↦ elim (Bool-cases (leb (json.len body) limit)) [
      | inl fits ↦ rw (q, emit, fits) ((one_message json limit ev) [] es body q (ground arith))
      | inr large ↦ elim (Bool-cases (leb (0 + length es) 1)) [
        | inr many ↦
            rw (q, emit, large, many)
              (emit_halves-Comes (Edges json limit ev) (no_message json limit ev)
                (join-Edges json limit ev) es (λ g. split (part ev [] g)) (ground arith)
                (λ g less. smaller [] g (omega (arith, less, few))))
        | inl one ↦ rw (q, emit, large, one) (lone_edge es body q (ground arith) (ground arith))
      ]
    ]
  ]

  split-Splits :
      (fuel : ℕ) (ns : List (Node F)) (es : List (Edge F))
      → length ns + length es < fuel
      → Splits json limit ev ns es (split_event json limit fuel (part ev ns es))
  unfolding split_event
  split-Splits zero ns es enough = absurd (omega (arith, enough))
  split-Splits (suc fuel) ns es enough =
      let env = json.envelope_size (part ev [] []) in
      let n = length ns + length es in
      let smaller : Smaller n (split_event json limit fuel) =
        λ ms ds less. split-Splits fuel ms ds (omega (arith, less, enough)) in
      let of_nodes = λ (g : List (Node F)). emit json limit (split_event json limit fuel) ev g [] in
      let of_edges = λ (g : List (Edge F)). emit json limit (split_event json limit fuel) ev [] g in
      let packed_nodes = pack of_nodes json.node_size limit env 0 [] ns in
      let packed_edges = pack of_edges json.edge_size limit env 0 [] es in
      let nodes =
        pack-Comes (Nodes json limit ev) (no_message json limit ev) (join-Nodes json limit ev)
          of_nodes json.node_size limit env 0 n [] ns
          (λ g some few. emit-Nodes (split_event json limit fuel) n g smaller some few)
          (omega arith) in
      let edges =
        pack-Comes (Edges json limit ev) (no_message json limit ev) (join-Edges json limit ev)
          of_edges json.edge_size limit env 0 n [] es
          (λ g some few. emit-Edges (split_event json limit fuel) n g smaller some few)
          (omega arith) in
      elim (Option-cases (json.event (part ev ns es))) [
        | inl q ↦ rw (q, split_event) (ns, es, q)
        | inr (whole, q) ↦ elim (Bool-cases (leb (json.len whole) limit)) [
          | inl fits ↦
              rw (q, split_event, fits) ((one_message json limit ev) ns es whole q (ground arith))
          | inr large ↦
              rw (q, split_event, large)
                (subst (λ l. Splits json limit ev l es (both packed_nodes packed_edges))
                  (append-nil ns)
                  ((join-Splits json limit ev) ns [] [] es packed_nodes packed_edges (inl refl)
                    nodes edges))
        ]
      ]

  -- Splitting an event always ends. Where it gives messages, each is encoded and fits the limit, they are
  -- the event but for their nodes and edges, they hold exactly its nodes and its edges, in order, and
  -- no node stands after an edge of an earlier message. It is refused as too large only where a
  -- message of one of its nodes or edges alone is over the limit, and for its encoding only where
  -- a part of it cannot be encoded.
  pub split_event_whole :
      Splits json limit ev ev.nodes ev.edges
        (split_event json limit (length ev.nodes + length ev.edges + 1) ev)
  split_event_whole =
      split-Splits (length ev.nodes + length ev.edges + 1) ev.nodes ev.edges (omega arith)
