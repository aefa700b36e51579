-- ===== src/Graph/Memory/Steps.antt =====
-- What putting, parking and unparking an edge change, read key by key.
use mathlib.Core.List.{lookup}
use perspectivegraph.Base.Maps.{Map, insert, erase, lookup-insert, lookup-erase}
use perspectivegraph.Base.{
  String, String_discrete, Bool, true, not, ◌&&◌, ◌||◌, none, some, [], ◌∷◌, ◌≡◌, refl, ite, arith,
  Time, Floats, is_some, is_yes, length, ◌==◌,
}
use perspectivegraph.Ontology.{Edge}
use perspectivegraph.Graph.Memory.State.{
  Store, EdgeKey, EdgeKey-discrete, KeySet, or_empty, edge_key, edge_at, parked_at, merged,
  put_edge, index_key, park, unindex_key, unpark,
}

-- An id is an end of the edge.
abbrev pub names : EdgeKey → String → Bool
names k id = is_yes (String_discrete id k.from) || is_yes (String_discrete id k.to)

abbrev pub in_index : Map String KeySet → String → EdgeKey → Bool
in_index m id k = is_some (lookup EdgeKey-discrete k (or_empty (lookup String_discrete id m)))

abbrev pub same : EdgeKey → EdgeKey → Bool
same j k = is_yes (EdgeKey-discrete j k)

lookup_of_empty {ℓ} :
    {K V : Type ℓ} (dec : Discrete K) (k : K) (m : Map K V)
    → (length m == 0) ≡ true
    → lookup dec k m ≡ none
unfolding lookup
lookup_of_empty dec k [] h = refl
lookup_of_empty dec k (e ∷ m) h = absurd (ground arith)

in_index-index_key :
    (id : String) (k : EdgeKey) (m : Map String KeySet) (id' : String) (k' : EdgeKey)
    → in_index (index_key id k m) id' k'
      ≡ (is_yes (String_discrete id' id) && same k' k || in_index m id' k')
unfolding index_key
in_index-index_key id k m id' k' = ground (
  arith,
  lookup-insert String_discrete id' id
      (insert EdgeKey-discrete k tt (or_empty (lookup String_discrete id m))) m,
  lookup-insert EdgeKey-discrete k' k tt (or_empty (lookup String_discrete id m)),
)

in_index-unindex_key :
    (id : String) (k : EdgeKey) (m : Map String KeySet) (id' : String) (k' : EdgeKey)
    → in_index (unindex_key id k m) id' k'
      ≡ (not (is_yes (String_discrete id' id) && same k' k) && in_index m id' k')
unfolding unindex_key lookup
in_index-unindex_key id k m id' k' =
    let rest = erase EdgeKey-discrete k (or_empty (lookup String_discrete id m)) in
    ground (
      arith,
      lookup-insert String_discrete id' id rest m,
      lookup-erase String_discrete id' id m,
      lookup-erase EdgeKey-discrete k' k (or_empty (lookup String_discrete id m)),
      lookup_of_empty EdgeKey-discrete k' rest,
    )

module _ {F : Type 0} where
  pub edge_at-put_edge :
      (fl : Floats F) (s : Store F) (e : Edge F) (j : EdgeKey)
      → edge_at (put_edge fl s e) j
        ≡ ite
            (EdgeKey-discrete j (edge_key e))
            (some (merged fl e (edge_at s (edge_key e))))
            (edge_at s j)
  unfolding put_edge
  edge_at-put_edge fl s e j = lookup-insert EdgeKey-discrete j (edge_key e) _ s.edges

  pub parked_at-park :
      (s : Store F) (e : Edge F) (at : Time) (j : EdgeKey)
      → parked_at (park s e at) j
        ≡ ite
            (EdgeKey-discrete j (edge_key e))
            (some (record { edge = e; at = at }))
            (parked_at s j)
  unfolding park
  parked_at-park s e at j = lookup-insert EdgeKey-discrete j (edge_key e) _ s.pending

  pub in_index-park :
      (s : Store F) (e : Edge F) (at : Time) (id : String) (j : EdgeKey)
      → in_index (park s e at).pending_by_id id j
        ≡ (same j (edge_key e) && names (edge_key e) id || in_index s.pending_by_id id j)
  unfolding park
  in_index-park s e at id j = ground (
    arith,
    in_index-index_key e.to (edge_key e) (index_key e.from (edge_key e) s.pending_by_id) id j,
    in_index-index_key e.from (edge_key e) s.pending_by_id id j,
  )

  pub parked_at-unpark :
      (s : Store F) (k j : EdgeKey)
      → parked_at (unpark s k) j ≡ ite (EdgeKey-discrete j k) none (parked_at s j)
  unfolding unpark
  parked_at-unpark s k j = lookup-erase EdgeKey-discrete j k s.pending

  pub in_index-unpark :
      (s : Store F) (k : EdgeKey) (id : String) (j : EdgeKey)
      → in_index (unpark s k).pending_by_id id j
        ≡ (not (same j k && names k id) && in_index s.pending_by_id id j)
  unfolding unpark
  in_index-unpark s k id j = ground (
    arith,
    in_index-unindex_key k.to k (unindex_key k.from k s.pending_by_id) id j,
    in_index-unindex_key k.from k s.pending_by_id id j,
  )

-- The index lists, for each id, exactly the parked edges that name it.
abbrev pub IsIndexed : {F : Type 0} → Store F → Type 0
IsIndexed s =
    (id : String) (k : EdgeKey)
    → in_index s.pending_by_id id k ≡ (is_some (parked_at s k) && names k id)

module _ {F : Type 0} where
  pub park-IsIndexed :
      (s : Store F) (e : Edge F) (at : Time) → IsIndexed s → IsIndexed (park s e at)
  park-IsIndexed s e at h id k =
      ground (arith, parked_at-park s e at k, in_index-park s e at id k, h id k)

  pub unpark-IsIndexed : (s : Store F) (k : EdgeKey) → IsIndexed s → IsIndexed (unpark s k)
  unpark-IsIndexed s j h id k =
      ground (arith, parked_at-unpark s j k, in_index-unpark s j id k, h id k)
