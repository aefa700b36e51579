-- ===== src/Broker.antt =====
-- Splitting a large event into messages (backend/internal/broker/batch.go). JSON is a parameter: the
-- body of an event, or none where it cannot be encoded, and the sizes of nodes, edges and bodies. A
-- size stands for `len` of the encoding, 0 where a node, an edge or the envelope cannot be encoded.
-- The limit is the server's max_payload less the room for headers.
pub mod Packing
pub mod Messages
pub mod Split
use perspectivegraph.Base.{
  ℕ, zero, suc, ◌+◌, ◌-◌, ◌/◌, Bool, true, false, not, ◌&&◌, Option, none, some, List, [], ◌∷◌,
  ◌++◌, ltb, leb, ◌==◌, if◌then◌else◌, length, take,
}
use perspectivegraph.Ontology.{Node, Edge, Event}

pub record Json (F B : Type 0) : Type 0 where
  pub event : Event F → Option B
  pub len : B → ℕ
  pub node_size : Node F → ℕ
  pub edge_size : Edge F → ℕ
  pub envelope_size : Event F → ℕ

-- What splitEvent returns; `starved` is a model that ran out of fuel.
pub data Outcome (B : Type 0) : Type 0 where
  ok : List B → Outcome B
  unencoded : Outcome B
  too_large : Outcome B
  starved : Outcome B

-- `a[n:]`
abbrev pub drop {ℓ} : {A : Type ℓ} → ℕ → List A → List A
drop n [] = []
drop n (y ∷ ys) = elim n [ zero ↦ y ∷ ys | suc m ↦ drop m ys ]

-- One step and, where it gave no error, the next; the bodies are appended.
abbrev pub both : {B : Type 0} → Outcome B → Outcome B → Outcome B
both (ok a) (ok b) = ok (a ++ b)
both (ok a) e = e
both unencoded o = unencoded
both too_large o = too_large
both starved o = starved

module _ {A B : Type 0} where
  -- emitHalves
  unfoldable pub emit_halves : List A → (List A → Outcome B) → Outcome B
  emit_halves xs f = let mid = length xs / 2 in both (f (take mid xs)) (f (drop mid xs))

  -- A loop over the nodes or the edges, with the group since `start` and its estimated size. The budget
  -- is the limit less the envelope, which may be negative: the envelope is added on the other side.
  unfoldable pub pack : (List A → Outcome B) → (A → ℕ) → ℕ → ℕ → ℕ → List A → List A → Outcome B
  pack emit size_of limit envelope size group [] = if length group == 0 then ok [] else emit group
  pack emit size_of limit envelope size group (x ∷ xs) =
      let grown = size + size_of x + 1 in
      let on = pack emit size_of limit envelope grown (group ++ x ∷ []) xs in
      let anew = pack emit size_of limit envelope (size_of x + 1) (x ∷ []) xs in
      if ltb limit (grown + envelope) && ltb 0 (length group) then both (emit group) anew else on

-- The event with other nodes and edges.
abbrev pub part : {F : Type 0} → Event F → List (Node F) → List (Edge F) → Event F
part ev nodes edges = record ev { nodes = nodes; edges = edges }

module _ {F B : Type 0} (json : Json F B) (limit : ℕ) where
  -- The closure `emit`, with the recursive call as `split`.
  unfoldable pub emit : (Event F → Outcome B) → Event F → List (Node F) → List (Edge F) → Outcome B
  unfolding emit_halves
  emit split ev nodes edges = elim (json.event (part ev nodes edges)) [
    | none ↦ unencoded
    | some body ↦
        if leb (json.len body) limit
        then ok (body ∷ [])
        else if leb (length nodes + length edges) 1
        then too_large
        else if ltb 1 (length nodes)
        then emit_halves nodes (λ n. split (part ev n []))
        else emit_halves edges (λ e. split (part ev [] e))
  ]

  -- splitEvent
  unfoldable pub split_event : ℕ → Event F → Outcome B
  unfolding emit pack
  split_event zero ev = starved
  split_event (suc fuel) ev =
      let env = json.envelope_size (part ev [] []) in
      let nodes =
        pack (λ n. emit (split_event fuel) ev n []) json.node_size limit env 0 [] ev.nodes in
      let edges =
        pack (λ e. emit (split_event fuel) ev [] e) json.edge_size limit env 0 [] ev.edges in
      elim (json.event ev) [
        | none ↦ unencoded
        | some whole ↦ if leb (json.len whole) limit then ok (whole ∷ []) else both nodes edges
      ]
