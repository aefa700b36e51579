-- ===== src/Analyzer/Yen/Answer.antt =====
-- The k shortest paths of a snapshot (backend/internal/analyzer/kshortest.go).
use mathlib.Core.List.Memᴰ.{Memᴰ}
use perspectivegraph.Base.{String, false, List, [], ◌∷◌, ◌≡◌, Floats, FloatLaws}
use perspectivegraph.Graph.Contract.{Snapshot}
use perspectivegraph.Analyzer.Weights.{Adjacency}
use perspectivegraph.Analyzer.Dijkstra.Walks.{Walk}
use perspectivegraph.Analyzer.Paths.Routes.{Least, Unreachable}
use perspectivegraph.Analyzer.WhatIf.{hops_of}
use perspectivegraph.Analyzer.Alternatives.{WGraph, CandPath, new_w_graph, open_adjacency}

module _ {F : Type 0} (fl : Floats F) (laws : FloatLaws fl) (upper_trim : String → String)
    (snap : Snapshot F) where
  abbrev graph : WGraph F
  graph = new_w_graph fl upper_trim snap

  abbrev whole : Adjacency F
  whole = open_adjacency fl graph [] []

  abbrev edges : Adjacency F
  edges = hops_of fl upper_trim snap

  record Cheaper (s v : String) (c : F) : Type 0 where
    cost : F
    walk : Walk fl whole s v cost
    no_more : fl.lt c cost ≡ false

  -- The first path is of least cost; with no path, the target is out of reach.
  abbrev pub LeadsBy : String → String → List (CandPath F) → Type 0
  LeadsBy src dst [] = Unreachable fl edges src dst
  LeadsBy src dst (c ∷ _) = Least fl edges src dst c.cost
