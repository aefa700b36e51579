-- ===== src/Analyzer/Dijkstra/Walks.antt =====
-- Walks along out-edges and what they cost, added up from the source as the search adds it
-- (backend/internal/analyzer/attackpath.go).
use mathlib.Core.List.Memᴰ.{Memᴰ}
use perspectivegraph.Base.{String, false, ◌≡◌, Floats, float_zero}
use perspectivegraph.Analyzer.Weights.{OutEdge, Adjacency, out_of}

module _ {F : Type 0} (fl : Floats F) (adj : Adjacency F) where
  -- A walk from the source to a node, of a cost.
  pub data Walk (src : String) : String → F → Type 0 where
    here : Walk src src (float_zero fl)
    hop :
        {u : String} {c : F}
        → Walk src u c
        → (e : OutEdge F) → Memᴰ e (out_of adj u)
        → Walk src e.to (fl.add c e.weight)

  -- No weight is negative.
  abbrev pub NonNegative : Type 0
  NonNegative =
      (u : String) (e : OutEdge F) → Memᴰ e (out_of adj u) → fl.lt e.weight (float_zero fl) ≡ false
