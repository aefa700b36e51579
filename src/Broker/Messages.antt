-- ===== src/Broker/Messages.antt =====
-- The messages that an event is split into (backend/internal/broker/batch.go).
use mathlib.Core.List.{append-nil, append_assoc}
use mathlib.Core.List.Memᴰ
use mathlib.Core.List.Memᴰ.{Memᴰ}
use perspectivegraph.Base.{
  ℕ, ◌<◌, ◌≤◌, none, some, List, [], ◌∷◌, ◌++◌, ◌≡◌, ◌⊎◌, inl, inr, refl, arith,
}
use perspectivegraph.Ontology.{Node, Edge, Event}
use perspectivegraph.Broker.{Json, Outcome, ok, unencoded, too_large, starved, both, part}
use perspectivegraph.Broker.Packing.{append-eq-nil}

module _ {F B : Type 0} (json : Json F B) (limit : ℕ) (ev : Event F) where
  abbrev pub nodes_of : List (Event F) → List (Node F)
  nodes_of [] = []
  nodes_of (c ∷ cs) = c.nodes ++ nodes_of cs

  abbrev pub edges_of : List (Event F) → List (Edge F)
  edges_of [] = []
  edges_of (c ∷ cs) = c.edges ++ edges_of cs

  -- The bodies are encodings of the messages and fit, and the messages are the event but for their
  -- nodes and edges; no node stands after an edge of an earlier message.
  abbrev pub Carry : List (Event F) → List B → Type 0
  Carry [] [] = Unit {0}
  Carry [] (b ∷ bs) = ⊥
  Carry (c ∷ cs) [] = ⊥
  Carry (c ∷ cs) (b ∷ bs) =
      (json.event c ≡ some b)
      × (json.len b ≤ limit)
      × (c ≡ part ev c.nodes c.edges)
      × ((c.edges ≡ []) ⊎ (nodes_of cs ≡ []))
      × Carry cs bs

  -- The messages hold exactly the nodes and the edges, in their order.
  pub record Messages (nodes : List (Node F)) (edges : List (Edge F)) (bodies : List B)
      : Type 0 where
    pub messages : List (Event F)
    pub carried : Carry messages bodies
    pub all_nodes : nodes_of messages ≡ nodes
    pub all_edges : edges_of messages ≡ edges

  -- A message of one node or one edge alone is over the limit.
  abbrev pub Oversized : List (Node F) → List (Edge F) → Type 0
  Oversized nodes edges =
      ((n : Node F) × (b : B) × Memᴰ n nodes
        × (json.event (part ev (n ∷ []) []) ≡ some b)
        × (limit < json.len b))
      ⊎ ((e : Edge F) × (b : B) × Memᴰ e edges
          × (json.event (part ev [] (e ∷ [])) ≡ some b)
          × (limit < json.len b))

  -- What splitting some nodes and edges may come to.
  abbrev pub Splits : List (Node F) → List (Edge F) → Outcome B → Type 0
  Splits nodes edges (ok bodies) = Messages nodes edges bodies
  Splits nodes edges unencoded =
      (ns : List (Node F)) × (es : List (Edge F)) × (json.event (part ev ns es) ≡ none)
  Splits nodes edges too_large = Oversized nodes edges
  Splits nodes edges starved = ⊥

  nodes_of-append : (cs ds : List (Event F)) → nodes_of (cs ++ ds) ≡ nodes_of cs ++ nodes_of ds
  nodes_of-append [] ds = refl
  nodes_of-append (c ∷ cs) ds =
      ground (arith, nodes_of-append cs ds, append_assoc c.nodes (nodes_of cs) (nodes_of ds))

  edges_of-append : (cs ds : List (Event F)) → edges_of (cs ++ ds) ≡ edges_of cs ++ edges_of ds
  edges_of-append [] ds = refl
  edges_of-append (c ∷ cs) ds =
      ground (arith, edges_of-append cs ds, append_assoc c.edges (edges_of cs) (edges_of ds))

  abbrev Apart : List (Event F) → List (Event F) → Type 0
  Apart cs ds = (edges_of cs ≡ []) ⊎ (nodes_of ds ≡ [])

  Carry-append :
      (cs ds : List (Event F)) (xs bs : List B)
      → Apart cs ds
      → Carry cs xs
      → Carry ds bs
      → Carry (cs ++ ds) (xs ++ bs)
  Carry-append [] ds [] bs apart h k = k
  Carry-append [] ds (a ∷ xs) bs apart h k = elim h [ ]
  Carry-append (c ∷ cs) ds [] bs apart h k = elim h [ ]
  Carry-append (c ∷ cs) ds (a ∷ xs) bs apart (body, fits, same, order, h) k = elim apart [
    | inl q ↦
        let (none_here, none_on) = append-eq-nil c.edges (edges_of cs) q in
        (body, fits, same, inl none_here, Carry-append cs ds xs bs (inl none_on) h k)
    | inr q ↦ (
      body,
      fits,
      same,
      elim order [ inl r ↦ inl r | inr r ↦ inr (rw (nodes_of-append cs ds, r) q) ],
      Carry-append cs ds xs bs (inr q) h k,
    )
  ]

  pub join-Splits :
      (ns ns' : List (Node F)) (es es' : List (Edge F)) (o p : Outcome B)
      → (es ≡ []) ⊎ (ns' ≡ [])
      → Splits ns es o
      → Splits ns' es' p
      → Splits (ns ++ ns') (es ++ es') (both o p)
  join-Splits ns ns' es es' (ok xs) (ok bs) apart h k = record {
    messages = h.messages ++ k.messages;
    carried =
        Carry-append h.messages k.messages xs bs
          (elim apart [
            | inl q ↦ inl (ground (arith, h.all_edges))
            | inr q ↦ inr (ground (arith, k.all_nodes))
          ])
          h.carried k.carried;
    all_nodes = ground (arith, nodes_of-append h.messages k.messages, h.all_nodes, k.all_nodes);
    all_edges = ground (arith, edges_of-append h.messages k.messages, h.all_edges, k.all_edges);
  }
  join-Splits ns ns' es es' (ok xs) unencoded apart h k = k
  join-Splits ns ns' es es' (ok xs) too_large apart h k = elim k [
    | inl (n, b, m, eq, big) ↦ inl (n, b, Memᴰ.append_right ns m, eq, big)
    | inr (e, b, m, eq, big) ↦ inr (e, b, Memᴰ.append_right es m, eq, big)
  ]
  join-Splits ns ns' es es' (ok xs) starved apart h k = elim k [ ]
  join-Splits ns ns' es es' unencoded p apart h k = h
  join-Splits ns ns' es es' too_large p apart h k = elim h [
    | inl (n, b, m, eq, big) ↦ inl (n, b, Memᴰ.append_left ns' m, eq, big)
    | inr (e, b, m, eq, big) ↦ inr (e, b, Memᴰ.append_left es' m, eq, big)
  ]
  join-Splits ns ns' es es' starved p apart h k = elim h [ ]

  pub no_message : Splits [] [] (ok [])
  no_message = record { messages = []; carried = tt; all_nodes = refl; all_edges = refl }

  pub one_message :
      (ns : List (Node F)) (es : List (Edge F)) (body : B)
      → json.event (part ev ns es) ≡ some body
      → json.len body ≤ limit
      → Splits ns es (ok (body ∷ []))
  one_message ns es body q fits = record {
    messages = part ev ns es ∷ [];
    carried = (q, fits, refl, inr refl, tt);
    all_nodes = append-nil ns;
    all_edges = append-nil es;
  }

  abbrev pub Nodes : List (Node F) → Outcome B → Type 0
  Nodes ns o = Splits ns [] o

  abbrev pub Edges : List (Edge F) → Outcome B → Type 0
  Edges es o = Splits [] es o

  pub join-Nodes :
      (xs ys : List (Node F)) (o p : Outcome B)
      → Nodes xs o
      → Nodes ys p
      → Nodes (xs ++ ys) (both o p)
  join-Nodes xs ys o p h k = join-Splits xs ys [] [] o p (inl refl) h k

  pub join-Edges :
      (xs ys : List (Edge F)) (o p : Outcome B)
      → Edges xs o
      → Edges ys p
      → Edges (xs ++ ys) (both o p)
  join-Edges xs ys o p h k = join-Splits [] [] xs ys o p (inr refl) h k
