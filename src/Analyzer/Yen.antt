-- ===== src/Analyzer/Yen.antt =====
-- Yen's algorithm for the k shortest paths (backend/internal/analyzer/kshortest.go). The spur nodes of a
-- path are tried in their order; `before` is the part of the path that leads up to the spur.
pub mod Spurs
pub mod Sound
pub mod Answer
use Prim.Native.String
use mathlib.Core.List.{lookup}
use perspectivegraph.Base.Sorting.{sort_by, text_before}
use perspectivegraph.Base.{
  ℕ, zero, suc, ◌+◌, ◌-◌, String, String_discrete, Bool, true, false, not, ◌||◌, ◌&&◌, Option, none,
  some, List, [], ◌∷◌, ◌++◌, map, ℤ, pos, negsuc, Floats, is_yes, ltb, leb, ltb_ℤ, ◌==◌, ◌>>=◌,
  if◌then◌else◌, length, get_or, take,
}
use perspectivegraph.Base.Maps.{elem}
use perspectivegraph.Ontology.{Node, is_seed}
use perspectivegraph.Graph.Contract.{Snapshot}
use perspectivegraph.Analyzer.Weights.{Step, node_of}
use perspectivegraph.Analyzer.Dijkstra.{step_of}
use perspectivegraph.Analyzer.Paths.{AttackPath, assemble_attack_path}
use perspectivegraph.Analyzer.Alternatives.{
  WGraph, hop_at, CandPath, new_w_graph, shortest, path_cost,
}

-- strings.Join(seq, ">")
unfoldable pub path_key : List String → String
path_key [] = ""
path_key (u ∷ us) = elim us as (λ _. String) [
  | [] ↦ u
  | _ ∷ _ ↦ String.◌++◌ u (String.◌++◌ ">" (path_key us))
]

-- equalPrefix
unfoldable pub equal_prefix : List String → List String → Bool
equal_prefix path [] = true
equal_prefix [] (x ∷ xs) = false
equal_prefix (p ∷ ps) (x ∷ xs) = is_yes (String_discrete p x) && equal_prefix ps xs

-- The rounds after the first path: a k that is not positive asks for one path.
abbrev pub rounds_for : ℤ → ℕ
rounds_for (pos k) = k - 1
rounds_for (negsuc k) = 0

module _ {F : Type 0} where
  unfoldable pub contains_path : List (CandPath F) → CandPath F → Bool
  unfolding path_key
  contains_path [] c = false
  contains_path (p ∷ ps) c =
      is_yes (String_discrete (path_key p.nodes) (path_key c.nodes)) || contains_path ps c

  -- The hop that each path found so far takes after a root of i + 1 nodes.
  unfoldable pub next_hops : List (CandPath F) → ℕ → List String → List (String × String)
  unfolding equal_prefix
  next_hops [] i root = []
  next_hops (p ∷ ps) i root =
      let rest = next_hops ps i root in
      if ltb i (length p.nodes) && equal_prefix p.nodes root
      then (get_or "" p.nodes i, get_or "" p.nodes (i + 1)) ∷ rest
      else rest

  abbrev pub cheaper : Floats F → CandPath F → CandPath F → Bool
  cheaper fl a b =
      if fl.lt a.cost b.cost
      then true
      else if fl.lt b.cost a.cost
      then false
      else text_before (path_key a.nodes) (path_key b.nodes)

  module _ (fl : Floats F) (g : WGraph F) (dst : String) where
    -- A candidate joins the list where it is in neither list yet.
    unfoldable pub propose :
        List (CandPath F) → List (CandPath F) → List String → Option F → List (CandPath F)
    unfolding contains_path
    propose a b total none = b
    propose a b total (some cost) =
        let cp : CandPath F = record { nodes = total; cost = cost } in
        if not (contains_path a cp) && not (contains_path b cp) then b ++ cp ∷ [] else b

    -- The body of the loop over the spur nodes.
    unfoldable pub try_spur :
        List (CandPath F) → List String → String → List (CandPath F) → List (CandPath F)
    unfolding next_hops propose
    try_spur a before spur b =
        let cuts = next_hops a (length before) (before ++ spur ∷ []) in
        elim (shortest fl g spur dst before cuts) [
          | none ↦ b
          | some found ↦
              let total = before ++ found.nodes in propose a b total (path_cost fl g total)
        ]

    -- The loop over the spur nodes, which stops before the last node.
    unfoldable pub try_spurs :
        List (CandPath F) → List String → List String → List (CandPath F) → List (CandPath F)
    unfolding try_spur
    try_spurs a before [] b = b
    try_spurs a before (spur ∷ more) b = elim more as (λ _. List (CandPath F)) [
      | [] ↦ b
      | _ ∷ _ ↦ try_spurs a (before ++ spur ∷ []) more (try_spur a before spur b)
    ]

    -- The main loop, with the rounds that are left and the nodes of the path found last.
    unfoldable pub yen : ℕ → List (CandPath F) → List String → List (CandPath F) → List (CandPath F)
    unfolding try_spurs
    yen zero a prev b = a
    yen (suc rounds) a prev b =
        elim (sort_by (cheaper fl) (try_spurs a [] prev b)) as (λ _. List (CandPath F)) [
          | [] ↦ a
          | best ∷ rest ↦ yen rounds (a ++ best ∷ []) best.nodes rest
        ]

  unfoldable pub k_shortest : Floats F → WGraph F → String → String → ℤ → List (CandPath F)
  unfolding yen
  k_shortest fl g src dst k = elim (shortest fl g src dst [] []) [
    | none ↦ []
    | some first ↦ yen fl g dst (rounds_for k) (first ∷ []) first.nodes []
  ]

  -- The steps of a node sequence; a hop that is not there reads as the zero out-edge.
  unfoldable pub steps_along : Floats F → WGraph F → List String → List (Step F)
  steps_along fl g [] = []
  steps_along fl g (u ∷ us) = elim us as (λ _. List (Step F)) [
    | [] ↦ []
    | v ∷ _ ↦
        elim (hop_at g u v) as (λ _. Step F) [
          | none ↦ record {
            edge_type = "";
            from = u;
            to = v;
            probability = fl.hundredths 0;
            resolution_method = "";
            resolution_confidence = fl.hundredths 0;
            weight_basis = "";
            weight_confidence = fl.hundredths 0;
            evidence_count = pos 0;
            weight_cause = "";
          }
          | some e ↦ record (step_of u e) { to = v }
        ]
        ∷ steps_along fl g us
  ]

  -- toAttackPath
  unfoldable pub to_attack_path : Floats F → WGraph F → List String → AttackPath F
  unfolding steps_along assemble_attack_path
  to_attack_path fl g seq =
      assemble_attack_path fl (map (node_of g.nodes) seq) (steps_along fl g seq)

  -- KShortestPaths
  unfoldable pub k_shortest_paths :
      Floats F → (String → String) → Snapshot F → String → String → ℤ → List (AttackPath F)
  unfolding k_shortest to_attack_path
  k_shortest_paths fl upper_trim snap src dst k =
      let g = new_w_graph fl upper_trim snap in
      map (λ c. to_attack_path fl g c.nodes) (k_shortest fl g src dst k)

  -- The seeds, each once; `listed` are the ids met before.
  unfoldable pub target_seeds : List String → List (Node F) → List String
  target_seeds listed [] = []
  target_seeds listed (n ∷ ns) =
      let rest = target_seeds (n.id ∷ listed) ns in
      if not (elem String_discrete n.id listed) && is_seed n then n.id ∷ rest else rest

  -- The loop over the seeds.
  unfoldable pub routes_from :
      Floats F → (String → String) → Snapshot F → String → ℤ → List String → List (AttackPath F)
  unfolding k_shortest_paths
  routes_from fl upper_trim snap dst k [] = []
  routes_from fl upper_trim snap dst k (s ∷ seeds) =
      let rest = routes_from fl upper_trim snap dst k seeds in
      if is_yes (String_discrete s dst)
      then rest
      else k_shortest_paths fl upper_trim snap s dst k ++ rest

  -- `if k > 0 && len(all) > k { all = all[:k] }`
  abbrev pub cap_at : ℤ → List (AttackPath F) → List (AttackPath F)
  cap_at (pos k) all = if ltb 0 k && ltb k (length all) then take k all else all
  cap_at (negsuc k) all = all

  -- KShortestToTarget
  unfoldable pub k_shortest_to_target :
      Floats F → (String → String) → Snapshot F → String → String → ℤ → List (AttackPath F)
  unfolding target_seeds routes_from sort_by
  k_shortest_to_target fl upper_trim snap from dst k =
      let seeds =
        if not (is_yes (String_discrete from "")) then from ∷ [] else target_seeds [] snap.nodes in
      cap_at k (sort_by (λ a b. fl.lt b.score a.score) (routes_from fl upper_trim snap dst k seeds))
