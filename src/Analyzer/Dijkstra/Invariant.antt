-- ===== src/Analyzer/Dijkstra/Invariant.antt =====
-- The invariant of the search (backend/internal/analyzer/attackpath.go). `done` lists the nodes whose
-- out-edges the search has looked at, the last one first, and `low` is the last distance popped.
use mathlib.Core.List.Memᴰ.{Memᴰ}
use perspectivegraph.Base.Maps.{elem}
use perspectivegraph.Base.{
  ℕ, ◌+◌, ◌<◌, ◌≤◌, arith, String, String_discrete, Bool, true, false, not, ◌&&◌, Option, none,
  some, List, [], ◌∷◌, ◌≡◌, ◌≢◌, ◌⊎◌, Floats, FloatLaws, float_zero, is_some, is_yes, if◌then◌else◌,
  length, count, bit,
}
use perspectivegraph.Analyzer.Weights.{OutEdge, Adjacency, out_of}
use perspectivegraph.Analyzer.Heap.{HeapItem}
use perspectivegraph.Analyzer.Heap.Order.{IsHeap}
use perspectivegraph.Analyzer.Heap.Up.{AllItems}
use perspectivegraph.Analyzer.Dijkstra.{Search, dist_at, prev_at, known, step_of}
use perspectivegraph.Analyzer.Dijkstra.Walks.{Walk}

-- When a node was looked at: 0 for not yet.
abbrev pub rank : String → List String → ℕ
rank v [] = 0
rank v (w ∷ ws) = if is_yes (String_discrete v w) then length ws + 1 else rank v ws

pub rank-bound : (v : String) (l : List String) → rank v l ≤ length l
rank-bound v [] = omega arith
rank-bound v (w ∷ ws) = ground (arith, rank-bound v ws)

abbrev pub is_done : String → List String → Bool
is_done = elem String_discrete

module _ {F : Type 0} (fl : Floats F) where
  -- There is a distance, and it is no more than a bound.
  abbrev pub within : F → Option F → Bool
  within b none = false
  within b (some d) = not (fl.lt b d)

  -- An item that the search would not skip.
  abbrev pub live : Search F → String → HeapItem F → Bool
  live s v x = is_yes (String_discrete x.node v) && not (fl.lt (known fl s v) x.d)

  -- An item of the queue is at its node's distance, or a stale one above it.
  pub record Entry (s : Search F) (low : F) (x : HeapItem F) : Type 0 where
    pub best : F
    pub at : dist_at s x.node ≡ some best
    pub order : (x.d ≡ best) ⊎ (fl.lt best x.d ≡ true)
    pub above : fl.lt x.d low ≡ false

  -- The last hop to a node, and the node that it comes from.
  pub record Parent (adj : Adjacency F) (s : Search F) (done : List String) (v : String)
      : Type 0 where
    pub from : String
    pub edge : OutEdge F
    pub base : F
    pub prev : prev_at s v ≡ some (step_of from edge)
    pub mem : Memᴰ edge (out_of adj from)
    pub to : edge.to ≡ v
    pub base_at : dist_at s from ≡ some base
    pub dist : dist_at s v ≡ some (fl.add base edge.weight)
    pub from_done : is_done from done ≡ true
    pub earlier : is_done v done ≡ true → rank from done < rank v done

  module _ (laws : FloatLaws fl) (adj : Adjacency F) (src : String) where
    pub record Inv (s : Search F) (done : List String) (low : F) : Type 0 where
      pub heap : IsHeap fl laws s.queue
      pub entries : AllItems fl (Entry s low) s.queue
      pub low_pos : fl.lt low (float_zero fl) ≡ false
      -- each node that is reached and not done has one live item, and no other node has any
      pub lives :
          (v : String)
          → count (live s v) s.queue ≡ bit (is_some (dist_at s v) && not (is_done v done))
      pub settled : (v : String) → is_done v done ≡ true → within low (dist_at s v) ≡ true
      pub sound : (v : String) (d : F) → dist_at s v ≡ some d → Walk fl adj src v d
      pub source : dist_at s src ≡ some (float_zero fl)
      pub tree : (v : String) → v ≢ src → is_some (dist_at s v) ≡ true → Parent adj s done v

    -- The out-edges of a node bound the distances of their ends.
    abbrev pub Relaxed : Search F → String → Type 0
    Relaxed s u =
        (e : OutEdge F)
        → Memᴰ e (out_of adj u)
        → within (fl.add (known fl s u) e.weight) (dist_at s e.to) ≡ true
