-- ===== src/Graph/Contract.antt =====
-- What every store shares (backend/internal/graph/store.go).
use mathlib.Core.List.{lookup}
use perspectivegraph.Base.Maps.{insert, lookup-insert}
use perspectivegraph.Base.{
  ℕ, ◌+◌, ◌*◌, String, String_discrete, Bool, not, ◌||◌, Option, none, some, List, [], ◌∷◌, ◌≡◌,
  refl, arith, Time, second, ℤ, Floats, is_some, ltb,
}
use perspectivegraph.Ontology.{
  Value, int, int64, float64, Props, read, Node, Edge, last_seen_key, resolution_method_key,
}

pub record Snapshot (F : Type 0) : Type 0 where
  pub nodes : List (Node F)
  pub edges : List (Edge F)

pub record PruneStats : Type 0 where
  pub nodes : ℕ
  pub edges : ℕ

pub record SweepStats : Type 0 where
  pub nodes : ℕ
  pub edges : ℕ
  pub parked : ℕ

-- SweepStats.Removed
unfoldable pub removed : SweepStats → Bool
removed st = ltb 0 (st.nodes + st.edges + st.parked)

-- Who asserted something, the complete snapshot that it belongs to ("" for none), and when.
pub record Origin : Type 0 where
  pub source : String
  pub scope : String
  pub seen : Time

-- ErrEmptyScope, and ErrEndpointsMissing with the edge that it names.
pub data Error : Type 0 where
  empty_scope : Error
  endpoints_missing : String → String → String → Error

pub data Result {ℓ} (A : Type ℓ) : Type ℓ where
  ok : A → Result A
  err : Error → Result A

-- PendingEdgeTTL: a week.
abbrev pub pending_edge_ttl : Time
pending_edge_ttl = 7 * 24 * 3600 * second

module _ {F : Type 0} where
  last_seen_of : Floats F → Option (Value F) → Option ℤ
  last_seen_of fl (some (int64 v)) = some v
  last_seen_of fl (some (int v)) = some v
  last_seen_of fl (some (float64 v)) = some (fl.to_int64 v)
  last_seen_of fl _ = none

  -- LastSeen
  unfoldable pub last_seen : Floats F → Props F → Option ℤ
  unfolding last_seen_of
  last_seen fl props = last_seen_of fl (read last_seen_key props)

  -- A join that the normalizer guessed carries a resolution method.
  unfoldable pub inferred : Edge F → Bool
  inferred e = is_some (read resolution_method_key e.properties)

  -- A guess never replaces a fact.
  unfoldable pub supersedes : Edge F → Edge F → Bool
  supersedes incoming stored = not (inferred incoming) || inferred stored

  -- MergeProps: the entries of `b` over those of `a`.
  unfoldable pub merge_props : Props F → Props F → Props F
  merge_props a [] = a
  merge_props a (e ∷ b) = insert String_discrete e.0 e.1 (merge_props a b)

  -- withLastSeen
  unfoldable pub with_last_seen : Props F → ℤ → Props F
  with_last_seen props ts = insert String_discrete last_seen_key (int64 ts) props

  abbrev pub or_else : Option (Value F) → Option (Value F) → Option (Value F)
  or_else (some v) o = some v
  or_else none o = o

  -- Every key of `b` reads as in `b`, every other as in `a`.
  pub read-merge_props :
      (key : String) (a b : Props F)
      → read key (merge_props a b) ≡ or_else (read key b) (read key a)
  unfolding merge_props lookup
  read-merge_props key a [] = refl
  read-merge_props key a (e ∷ b) =
      ground (
        arith,
        lookup-insert String_discrete key e.0 e.1 (merge_props a b),
        read-merge_props key a b,
      )
