-- ===== src/Tests/Search.antt =====
-- The analyzer on a small graph: an exposed machine, a database behind it with two ways in, and a
-- bucket that nothing leads to.
use mathlib.Core.List.{lookup}
use perspectivegraph.Base.Maps.{insert}
use perspectivegraph.Base.{
  ◌↔◌, ℕ, ◌+◌, ◌≡◌, ◌⊎◌, ◌↔◌, refl, arith, String, String_discrete, Bool, true, false, none, some,
  List, [], ◌∷◌, map, count, bit, pos, swap,
}
use perspectivegraph.Ontology.{Node, Edge, bool, internet_exposed_key, crown_jewel_key}
use perspectivegraph.Graph.Contract.{Snapshot}
use mathlib.Core.List.Memᴰ.{Memᴰ}
use perspectivegraph.Analyzer.WhatIf.{
  EdgeCut, IsCut, LeftBy, cut_edges, hops_of, cut_edges_exact, cut_edges_no_shorter,
}
use perspectivegraph.Analyzer.Critical.{find_critical_paths}
use perspectivegraph.Analyzer.Critical.Answer.{IsAnswer, find_critical_paths_complete}
use perspectivegraph.Tests.Numbers.{fl, fl-FloatLaws, fl-ProductLaws}
use perspectivegraph.Analyzer.Weights.{
  Step, Adjacency, out_of, out_edge, build_adjacency, clamp_prob, weight_basis_of, weight_cause_of,
  resolution_of,
}
use perspectivegraph.Analyzer.Adjacency.{
  leaving, out_of-build_adjacency, build_adjacency-NonNegative,
}
use perspectivegraph.Analyzer.Heap.{HeapItem, push, pop}
use perspectivegraph.Analyzer.Heap.Order.{IsHeap}
use perspectivegraph.Analyzer.Heap.Queue.{push_adds, pop_takes_least}
use perspectivegraph.Analyzer.Dijkstra.{dist_at, dijkstra}
use perspectivegraph.Analyzer.Dijkstra.Walks.{Walk, NonNegative}
use perspectivegraph.Analyzer.Dijkstra.Invariant.{within}
use perspectivegraph.Analyzer.Dijkstra.Main.{dijkstra_shortest}
use perspectivegraph.Analyzer.Paths.{
  assemble_attack_path, AttackPath, paths_from_seed, hops_correlated, chain_probability,
}
use perspectivegraph.Analyzer.Paths.Routes.{Least, PathsTo, paths_from_seed_least}
use perspectivegraph.Analyzer.Paths.Bounds.{InUnit, score_at_most_bound}
use perspectivegraph.Analyzer.Paths.Correlation.{Repeated, hops_correlated_iff}
use perspectivegraph.Analyzer.Paths.Scores.{once_per_cause, chain_once_per_cause}

abbrev hop : String → String → ℕ → Edge ℕ
hop u v p = record {
  typ = "CONNECTS_TO";
  from = u;
  to = v;
  exploit_probability = p;
  properties = [];
}

-- Straight from the machine to the database costs 80, and through the proxy 10 + 20.
abbrev edges : List (Edge ℕ)
edges = hop "web" "db" 20 ∷ hop "web" "proxy" 90 ∷ hop "proxy" "db" 80 ∷ []

abbrev unchanged : String → String
unchanged s = s

abbrev adj : Adjacency ℕ
adj = build_adjacency fl unchanged edges []

adj-NonNegative : NonNegative fl adj
adj-NonNegative = build_adjacency-NonNegative fl unchanged [] fl-FloatLaws edges

search_code : Unit {0}
unfolding dijkstra build_adjacency out_edge clamp_prob weight_basis_of weight_cause_of resolution_of
    push pop lookup insert String_discrete swap chain_probability hops_correlated
search_code = tt

-- The way through the proxy is found.
through_proxy :
    (dist_at (dijkstra fl "web" adj) "db" ≡ some 30)
    × (dist_at (dijkstra fl "web" adj) "bucket" ≡ none)
unfolding search_code
through_proxy = (refl, refl)

out_of-build_adjacency_example :
    out_of (build_adjacency fl unchanged edges []) "web" ≡ leaving fl unchanged [] "web" edges
out_of-build_adjacency_example = out_of-build_adjacency fl unchanged [] edges "web"

build_adjacency-NonNegative_example : NonNegative fl (build_adjacency fl unchanged edges [])
build_adjacency-NonNegative_example = build_adjacency-NonNegative fl unchanged [] fl-FloatLaws edges

abbrev near : HeapItem ℕ
near = record { node = "proxy"; d = 10 }

abbrev far : HeapItem ℕ
far = record { node = "db"; d = 80 }

empty-IsHeap : IsHeap fl fl-FloatLaws []
empty-IsHeap k low high = absurd (omega (arith, high))

push_adds_example :
    IsHeap fl fl-FloatLaws (push fl [] far)
    × ((p : HeapItem ℕ → Bool) → count p (push fl [] far) ≡ count p [] + bit (p far))
push_adds_example = push_adds fl fl-FloatLaws [] far empty-IsHeap

near_first-IsHeap : IsHeap fl fl-FloatLaws (near ∷ far ∷ [])
unfolding search_code
near_first-IsHeap = (push_adds fl fl-FloatLaws (push fl [] far) near push_adds_example.0).0

pop_takes_least_example :
    IsHeap fl fl-FloatLaws (pop fl (near ∷ far ∷ [])).1
    × (count (λ x. fl.lt x.d (pop fl (near ∷ far ∷ [])).0.d) (near ∷ far ∷ []) ≡ 0)
    × ((p : HeapItem ℕ → Bool)
        → count p (pop fl (near ∷ far ∷ [])).1 + bit (p (pop fl (near ∷ far ∷ [])).0)
          ≡ count p (near ∷ far ∷ []))
pop_takes_least_example =
    pop_takes_least fl fl-FloatLaws (near ∷ far ∷ []) near_first-IsHeap (omega arith)

dijkstra_shortest_example :
    ((dijkstra fl "web" adj).queue ≡ [])
    × ((v : String) (d : ℕ) → dist_at (dijkstra fl "web" adj) v ≡ some d → Walk fl adj "web" v d)
    × ((v : String) (c : ℕ)
        → Walk fl adj "web" v c
        → within fl c (dist_at (dijkstra fl "web" adj) v) ≡ true)
dijkstra_shortest_example = dijkstra_shortest fl fl-FloatLaws adj "web" adj-NonNegative

paths_from_seed_least_example :
    (ps : List (AttackPath ℕ)) × (paths_from_seed fl "web" ("db" ∷ "bucket" ∷ []) adj [] ≡ some ps)
    × PathsTo fl adj "web" ("db" ∷ "bucket" ∷ []) ps
paths_from_seed_least_example =
    paths_from_seed_least fl fl-FloatLaws adj "web" adj-NonNegative [] ("db" ∷ "bucket" ∷ [])

abbrev step : String → Step ℕ
step cause = record {
  edge_type = "AFFECTS";
  from = "image";
  to = "cve";
  probability = 50;
  resolution_method = "";
  resolution_confidence = 0;
  weight_basis = "";
  weight_confidence = 0;
  evidence_count = pos 0;
  weight_cause = cause;
}

-- Two hops on one CVE are correlated.
one_cve : hops_correlated (step "CVE-2024-1" ∷ step "CVE-2024-1" ∷ []) ≡ true
unfolding search_code
one_cve = refl

abbrev on_one_cve : List (Step ℕ)
on_one_cve = step "CVE-2024-1" ∷ step "CVE-2024-1" ∷ []

hops_correlated_iff_example : (hops_correlated on_one_cve ≡ true) ↔ (
    Repeated (map (λ s. s.weight_cause) on_one_cve)
    ⊎ Repeated (map (λ s. s.weight_basis) on_one_cve))
hops_correlated_iff_example = hops_correlated_iff on_one_cve

abbrev hops : List (String × ℕ)
hops = ("", 90) ∷ ("CVE-2024-1", 50) ∷ ("CVE-2024-1", 40) ∷ []

-- 0.9 and the weaker of the two hops on the CVE, once.
score_of_hops : chain_probability fl hops ≡ 36
unfolding search_code
score_of_hops = refl

chain_once_per_cause_example : chain_probability fl hops ≡ once_per_cause fl [] hops 100
chain_once_per_cause_example = chain_once_per_cause fl hops

abbrev web : Node ℕ
web = record {
  id = "web";
  label = "VirtualMachine";
  name = "";
  properties = (internet_exposed_key, bool true) ∷ [];
}

abbrev db : Node ℕ
db = record {
  id = "db";
  label = "Database";
  name = "";
  properties = (crown_jewel_key, bool true) ∷ [];
}

abbrev estate : Snapshot ℕ
estate = record { nodes = web ∷ db ∷ web ∷ []; edges = edges }

find_critical_paths_complete_example :
    (ps : List (AttackPath ℕ)) × (find_critical_paths fl unchanged estate ≡ some ps)
    × IsAnswer fl unchanged estate ps
find_critical_paths_complete_example = find_critical_paths_complete fl unchanged estate fl-FloatLaws

abbrev cuts : List EdgeCut
cuts = record { from = "web"; to = "proxy"; typ = "" } ∷ []

cut_edges_exact_example :
    ((cut_edges estate cuts).nodes ≡ estate.nodes)
    × LeftBy cuts estate.edges (cut_edges estate cuts).edges
    × (Memᴰ (hop "web" "db" 20) (cut_edges estate cuts).edges
        ↔ Memᴰ (hop "web" "db" 20) estate.edges × ¬ IsCut cuts (hop "web" "db" 20))
cut_edges_exact_example = cut_edges_exact estate cuts (hop "web" "db" 20)

abbrev seed : String
seed = "web"

abbrev jewel : String
jewel = "db"

cut_edges_no_shorter_example :
    ((c : ℕ)
      → Walk fl (hops_of fl unchanged (cut_edges estate cuts)) seed jewel c
      → Walk fl (hops_of fl unchanged estate) seed jewel c)
    × ((d d' : ℕ)
        → Least fl (hops_of fl unchanged estate) seed jewel d
        → Least fl (hops_of fl unchanged (cut_edges estate cuts)) seed jewel d'
        → fl.lt d' d ≡ false)
cut_edges_no_shorter_example = cut_edges_no_shorter fl unchanged estate cuts seed jewel

half : (st : Step ℕ) → Memᴰ st on_one_cve → InUnit fl st.probability
half st m = elim m [
  | Memᴰ.head e ↦ ground (arith, e)
  | Memᴰ.tail m' ↦ elim m' [ Memᴰ.head e ↦ ground (arith, e) | Memᴰ.tail m'' ↦ elim m'' [ ] ]
]

score_at_most_bound_example :
    fl.lt
      (assemble_attack_path fl [] on_one_cve).score_upper_bound
      (assemble_attack_path fl [] on_one_cve).score
    ≡ false
score_at_most_bound_example = score_at_most_bound fl fl-FloatLaws fl-ProductLaws [] on_one_cve half
