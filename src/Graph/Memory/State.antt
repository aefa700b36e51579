-- ===== src/Graph/Memory/State.antt =====
-- The store's state, and the steps that its operations are made of: putting, landing, parking and
-- unparking an edge (backend/internal/graph/memory/memory.go). The lock makes each operation one
-- step; the clock is an argument. A Go map is an association list, and a loop over a map visits the
-- keys in the list's order.
use mathlib.Core.List.{lookup}
use perspectivegraph.Base.Maps.{Map, insert, erase}
use perspectivegraph.Base.{
  ap, ℕ, String, String_discrete, Bool, true, false, not, ◌&&◌, Option, none, some, [], ◌∷◌, Time,
  Floats, is_some, ltb, if◌then◌else◌, ◌==◌, length,
}
use perspectivegraph.Ontology.{int64, Node, Edge, last_seen_key}
use perspectivegraph.Graph.Contract.{Origin, last_seen, supersedes, merge_props}

pub record EdgeKey : Type 0 where
  pub typ : String
  pub from : String
  pub to : String

unfoldable pub EdgeKey-discrete : Discrete EdgeKey
unfolding String_discrete
EdgeKey-discrete a b = elim (String_discrete a.typ b.typ) [
  | no h ↦ no (λ e. h (ap (λ k. k.typ) e))
  | yes p ↦ elim (String_discrete a.from b.from) [
    | no h ↦ no (λ e. h (ap (λ k. k.from) e))
    | yes q ↦ elim (String_discrete a.to b.to) [
      | no h ↦ no (λ e. h (ap (λ k. k.to) e))
      | yes r ↦ yes (λ i. record { typ = p i; from = q i; to = r i })
    ]
  ]
]

pub record OriginKey : Type 0 where
  pub source : String
  pub scope : String

unfoldable pub OriginKey-discrete : Discrete OriginKey
unfolding String_discrete
OriginKey-discrete a b = elim (String_discrete a.source b.source) [
  | no h ↦ no (λ e. h (ap (λ k. k.source) e))
  | yes p ↦ elim (String_discrete a.scope b.scope) [
    | no h ↦ no (λ e. h (ap (λ k. k.scope) e))
    | yes q ↦ yes (λ i. record { source = p i; scope = q i })
  ]
]

-- Who asserted an element, with when each last did.
abbrev pub Origins : Type 0
Origins = Map OriginKey Time

pub record Parked (F : Type 0) : Type 0 where
  pub edge : Edge F
  pub at : Time

abbrev pub KeySet : Type 0
KeySet = Map EdgeKey (Unit {0})

pub record Store (F : Type 0) : Type 0 where
  pub nodes : Map String (Node F)
  pub edges : Map EdgeKey (Edge F)
  pub pending : Map EdgeKey (Parked F)
  pub pending_by_id : Map String KeySet
  pub pending_swept : Time
  pub node_origins : Map String Origins
  pub edge_origins : Map EdgeKey Origins
  pub removals : ℕ

-- A map read at a missing key is the empty map.
abbrev pub or_empty {ℓ} : {K V : Type ℓ} → Option (Map K V) → Map K V
or_empty none = []
or_empty (some m) = m

-- An entry of the index of the parked edges: the loop bodies of parkLocked and unparkLocked.
unfoldable pub index_key : String → EdgeKey → Map String KeySet → Map String KeySet
index_key id k m =
    insert String_discrete id
      (insert EdgeKey-discrete k tt (or_empty (lookup String_discrete id m))) m

unfoldable pub unindex_key : String → EdgeKey → Map String KeySet → Map String KeySet
unindex_key id k m =
    let rest = erase EdgeKey-discrete k (or_empty (lookup String_discrete id m)) in
    if length rest == 0 then erase String_discrete id m else insert String_discrete id rest m

module _ {F : Type 0} where
  -- New
  abbrev pub new : Store F
  new = record {
    nodes = [];
    edges = [];
    pending = [];
    pending_by_id = [];
    pending_swept = 0;
    node_origins = [];
    edge_origins = [];
    removals = 0;
  }

  abbrev pub edge_key : Edge F → EdgeKey
  edge_key e = record { typ = e.typ; from = e.from; to = e.to }

  abbrev pub node_at : Store F → String → Option (Node F)
  node_at s id = lookup String_discrete id s.nodes

  abbrev pub edge_at : Store F → EdgeKey → Option (Edge F)
  edge_at s k = lookup EdgeKey-discrete k s.edges

  abbrev pub parked_at : Store F → EdgeKey → Option (Parked F)
  parked_at s k = lookup EdgeKey-discrete k s.pending

  -- The keys of the parked edges that name a node.
  abbrev pub waiting_on : Store F → String → KeySet
  waiting_on s id = or_empty (lookup String_discrete id s.pending_by_id)

  -- Both ends are in the graph.
  abbrev pub present : Store F → EdgeKey → Bool
  present s k = is_some (node_at s k.from) && is_some (node_at s k.to)

  -- The stored edge after `putEdgeLocked` met it with an edge that does not supersede it.
  unfoldable pub refreshed : Floats F → Edge F → Edge F → Edge F
  refreshed fl e old = elim (last_seen fl e.properties) [
    | none ↦ old
    | some ls ↦ record old {
      properties = merge_props old.properties ((last_seen_key, int64 ls) ∷ []);
    }
  ]

  -- What `putEdgeLocked` stores over what it finds.
  unfoldable pub merged : Floats F → Edge F → Option (Edge F) → Edge F
  unfolding refreshed
  merged fl e none = e
  merged fl e (some old) = if not (supersedes e old) then refreshed fl e old else e

  -- putEdgeLocked
  unfoldable pub put_edge : Floats F → Store F → Edge F → Store F
  put_edge fl s e =
      let k = edge_key e in
      record s { edges = insert EdgeKey-discrete k (merged fl e (edge_at s k)) s.edges }

  -- landLocked, with its flag
  unfoldable pub land : Floats F → Store F → Edge F → Store F × Bool
  land fl s e = if not (present s (edge_key e)) then (s, false) else (put_edge fl s e, true)

  -- parkLocked
  unfoldable pub park : Store F → Edge F → Time → Store F
  unfolding index_key
  park s e at =
      let k = edge_key e in
      record s {
        pending = insert EdgeKey-discrete k (record { edge = e; at = at }) s.pending;
        pending_by_id = index_key e.to k (index_key e.from k s.pending_by_id);
      }

  -- unparkLocked
  unfoldable pub unpark : Store F → EdgeKey → Store F
  unfolding unindex_key
  unpark s k = record s {
    pending = erase EdgeKey-discrete k s.pending;
    pending_by_id = unindex_key k.to k (unindex_key k.from k s.pending_by_id);
  }

-- note: the latest time at which each origin asserted the element
unfoldable pub note : {K : Type 0} → Discrete K → Map K Origins → K → Origin → Map K Origins
note dec m k o =
    let os = or_empty (lookup dec k m) in
    let key : OriginKey = record { source = o.source; scope = o.scope } in
    let at : Time = elim (lookup OriginKey-discrete key os) [ none ↦ 0 | some t ↦ t ] in
    insert dec k (if ltb at o.seen then insert OriginKey-discrete key o.seen os else os) m
