-- ===== src/Tests/Alternatives.antt =====
-- The k shortest paths on a small graph with two parallel edges and two ways in.
use mathlib.Core.List.{lookup}
use perspectivegraph.Base.Maps.{insert, elem}
use perspectivegraph.Base.{ℕ, ◌≡◌, refl, String, String_discrete, [], ◌∷◌, pos, swap, false}
use perspectivegraph.Ontology.{Edge}
use perspectivegraph.Graph.Contract.{Snapshot}
use perspectivegraph.Tests.Numbers.{fl, fl-FloatLaws}
use perspectivegraph.Analyzer.Weights.{
  out_edge, clamp_prob, weight_basis_of, weight_cause_of, resolution_of, node_by_id,
}
use perspectivegraph.Analyzer.Heap.{push, pop}
use perspectivegraph.Analyzer.Alternatives.{WGraph, new_w_graph, shortest, path_cost}
use perspectivegraph.Analyzer.Alternatives.Rows.{new_w_graph-IsGraph}
use perspectivegraph.Analyzer.Alternatives.Shortest.{Answers, shortest-Answers}
use perspectivegraph.Analyzer.Yen.{k_shortest}

abbrev way : String → String → ℕ → Edge ℕ
way u v p = record {
  typ = "CONNECTS_TO";
  from = u;
  to = v;
  exploit_probability = p;
  properties = [];
}

-- Of the two edges from the machine to the database the second is the likelier: it costs 80.
abbrev small : Snapshot ℕ
small = record {
  nodes = [];
  edges =
      way "web" "db" 10
      ∷ way "web" "db" 20
      ∷ way "web" "proxy" 90
      ∷ way "proxy" "db" 80
      ∷ way "proxy" "web" 50
      ∷ [];
}

abbrev unchanged : String → String
unchanged s = s

abbrev small_graph : WGraph ℕ
small_graph = new_w_graph fl unchanged small

-- The way through the proxy comes first, and there are two in all.
two_ways :
    k_shortest fl small_graph "web" "db" (pos 5)
    ≡ record { nodes = "web" ∷ "proxy" ∷ "db" ∷ []; cost = 30 }
      ∷ record { nodes = "web" ∷ "db" ∷ []; cost = 80 }
      ∷ []
unfolding k_shortest shortest path_cost new_w_graph node_by_id out_edge clamp_prob weight_basis_of
    weight_cause_of resolution_of push pop lookup insert String_discrete swap
two_ways = refl

still_there :
    (elem String_discrete "web" ("proxy" ∷ []) ≡ false)
    × (elem String_discrete "db" ("proxy" ∷ []) ≡ false)
unfolding String_discrete
still_there = (refl, refl)

shortest-Answers_example :
    Answers fl fl-FloatLaws small_graph
      (new_w_graph-IsGraph fl fl-FloatLaws unchanged small)
      "web"
      ("proxy" ∷ [])
      []
      "db"
      (shortest fl small_graph "web" "db" ("proxy" ∷ []) [])
shortest-Answers_example =
    shortest-Answers fl fl-FloatLaws small_graph
      (new_w_graph-IsGraph fl fl-FloatLaws unchanged small) "web" ("proxy" ∷ []) [] "db"
      still_there.0 still_there.1
