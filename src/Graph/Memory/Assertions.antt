-- ===== src/Graph/Memory/Assertions.antt =====
-- Who asserts a node or an edge, told from its origins alone (backend/internal/graph/memory/memory.go).
use mathlib.Core.List.{lookup}
use perspectivegraph.Base.Maps.{erase}
use perspectivegraph.Base.{
  String, String_discrete, Bool, true, false, not, ◌&&◌, ◌||◌, Option, none, some, [], ◌∷◌, ◌≡◌,
  refl, arith, Time, is_yes, ltb, length, if◌then◌else◌, Option-cases, inl, inr,
}
use perspectivegraph.Graph.Memory.State.{
  Store, Parked, EdgeKey, EdgeKey-discrete, OriginKey, OriginKey-discrete, Origins, node_at,
  edge_at, parked_at,
}
use perspectivegraph.Graph.Memory.Sweep.{withdraw}
use perspectivegraph.Graph.Memory.Withdrawal.{left, withdrawn}
use perspectivegraph.Graph.Memory.Retraction.{asserted, Swept}

-- The origin asserted the element, last before a time.
abbrev pub last_before : OriginKey → Time → Origins → Bool
last_before key taken os = elim (lookup OriginKey-discrete key os) [
  | none ↦ false
  | some t ↦ ltb t taken
]

-- Some other origin asserts the element.
abbrev pub any_other : OriginKey → Origins → Bool
any_other key [] = false
any_other key ((k, t) ∷ os) = not (is_yes (OriginKey-discrete key k)) || any_other key os

-- The origin alone asserted the element, last before a time.
abbrev pub alone_before : OriginKey → Time → Option Origins → Bool
alone_before key taken none = false
alone_before key taken (some os) = last_before key taken os && not (any_other key os)

-- Some origin asserts the element.
abbrev pub any_origin : Origins → Bool
any_origin [] = false
any_origin (o ∷ os) = true

-- Someone asserts the element when the origin takes back what it asserted before a time.
abbrev pub asserted_yet : OriginKey → Time → Option Origins → Bool
asserted_yet key taken none = false
asserted_yet key taken (some os) =
    if last_before key taken os then any_other key os else any_origin os

erase-length :
    (key : OriginKey) (os : Origins)
    → ltb 0 (length (erase OriginKey-discrete key os)) ≡ any_other key os
unfolding erase
erase-length key [] = refl
erase-length key ((k, t) ∷ os) = elim (OriginKey-discrete key k) [
  | yes e ↦ ground (arith, erase-length key os)
  | no n ↦ ground arith
]

withdrawn-alone_before :
    (key : OriginKey) (taken : Time) (o : Option Origins)
    → withdrawn key taken o ≡ alone_before key taken o
unfolding withdrawn withdraw
withdrawn-alone_before key taken none = refl
withdrawn-alone_before key taken (some os) =
    elim (Option-cases (lookup OriginKey-discrete key os)) [
      | inl q ↦ ground arith
      | inr (t, q) ↦ ground (arith, erase-length key os)
    ]

origins-length : (os : Origins) → ltb 0 (length os) ≡ any_origin os
origins-length [] = refl
origins-length (o ∷ os) = ground arith

asserted-left :
    (key : OriginKey) (taken : Time) (o : Option Origins)
    → asserted (left key taken o) ≡ asserted_yet key taken o
unfolding left withdraw
asserted-left key taken none = refl
asserted-left key taken (some os) = elim (Option-cases (lookup OriginKey-discrete key os)) [
  | inl q ↦ ground (arith, origins-length os)
  | inr (t, q) ↦ ground (arith, erase-length key os, origins-length os)
]

module _ {F : Type 0} (key : OriginKey) (taken now : Time) (s : Store F) where
  abbrev pub node_goes : String → Bool
  node_goes id = alone_before key taken (lookup String_discrete id s.node_origins)

  abbrev pub edge_goes : EdgeKey → Bool
  edge_goes k = alone_before key taken (lookup EdgeKey-discrete k s.edge_origins)

  abbrev pub end_goes : EdgeKey → Bool
  end_goes k = node_goes k.from || node_goes k.to

  -- The parked edge of a key: an edge that was there, lost an end and is asserted yet waits from now on.
  abbrev pub waits : EdgeKey → Option (Parked F)
  waits k = if edge_goes k then none else elim (edge_at s k) [
    | none ↦ parked_at s k
    | some e ↦
        if end_goes k && asserted_yet key taken (lookup EdgeKey-discrete k s.edge_origins)
        then some (record { edge = e; at = now })
        else parked_at s k
  ]

  -- What a sweep leaves, for each node and each edge, told from the store before it.
  pub record Retracted (t : Store F) : Type 0 where
    pub nodes : (id : String) → node_at t id ≡ (if node_goes id then none else node_at s id)
    pub edges :
        (k : EdgeKey) → edge_at t k ≡ (if edge_goes k || end_goes k then none else edge_at s k)
    pub pending : (k : EdgeKey) → parked_at t k ≡ waits k

  pub Swept-Retracted : (t : Store F) → Swept key taken now s t → Retracted t
  Swept-Retracted t h =
      let node = λ (id : String).
        withdrawn-alone_before key taken (lookup String_discrete id s.node_origins) in
      let edge = λ (k : EdgeKey).
        withdrawn-alone_before key taken (lookup EdgeKey-discrete k s.edge_origins) in
      record {
        nodes = λ id. ground (arith, h.nodes id, node id);
        edges = λ k. ground (arith, h.edges k, edge k, node k.from, node k.to);
        pending = λ k. ground (
          arith,
          h.pending k,
          edge k,
          node k.from,
          node k.to,
          asserted-left key taken (lookup EdgeKey-discrete k s.edge_origins),
        );
      }
