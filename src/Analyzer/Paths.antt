-- ===== src/Analyzer/Paths.antt =====
-- From the search to scored paths (backend/internal/analyzer/attackpath.go). Of what an attack path
-- carries, its id, the interval of its posterior and the mixture over attacker profiles are left out.
pub mod Routes
pub mod Correlation
pub mod Scores
pub mod Bounds
use mathlib.Core.List.{lookup, reverse}
use perspectivegraph.Base.Maps.{Map, elem, insert}
use perspectivegraph.Base.{
  ℕ, zero, suc, ◌+◌, ◌-◌, String, String_discrete, Bool, true, false, not, ◌||◌, ◌&&◌, Option, none,
  some, List, [], ◌∷◌, ◌++◌, foldl, map, ℤ, pos, Floats, float_zero, float_one, float_le, is_yes,
  is_some, ltb, leb, ◌==◌, ◌>>=◌, if◌then◌else◌, length,
}
use perspectivegraph.Base.Maps.{keys}
use perspectivegraph.Ontology.{
  Node, bool_prop, is_seed, held_by_attacker, runtime_alert_key, crown_jewel_key,
}
use perspectivegraph.Graph.Contract.{Snapshot}
use perspectivegraph.Analyzer.Weights.{Step, Adjacency, node_of}
use perspectivegraph.Analyzer.Dijkstra.{Search, dist_at, prev_at, out_total, dijkstra}

pub record AttackPath (F : Type 0) : Type 0 where
  pub score : F
  pub nodes : List (Node F)
  pub steps : List (Step F)
  pub runtime_confirmed : Bool
  pub confidence : F
  pub confidence_label : String
  pub score_upper_bound : F
  pub correlated_hops : Bool
  pub direct_access : Bool

-- The inner loop of chainProbability from hop j on, for a hop i: whether i is the first hop of its
-- cause, and the weakest of the cause so far.
unfoldable pub cause_scan :
    {F : Type 0} → Floats F → String → ℕ → List (String × F) → ℕ → F → Bool × F
cause_scan fl cause i [] j weakest = (true, weakest)
cause_scan fl cause i ((other, p) ∷ hops) j weakest =
    let skip = cause_scan fl cause i hops (j + 1) weakest in
    let take = cause_scan fl cause i hops (j + 1) (if fl.lt p weakest then p else weakest) in
    if not (is_yes (String_discrete other cause))
    then skip
    else if ltb j i
    then (false, weakest)
    else take

-- The outer loop, over the hops from hop i on; `hops` are all of them.
unfoldable pub chain_from :
    {F : Type 0} → Floats F → List (String × F) → List (String × F) → ℕ → F → F
unfolding cause_scan
chain_from fl hops [] i prod = prod
chain_from fl hops ((cause, p) ∷ rest) i prod =
    let (first, weakest) = cause_scan fl cause i hops 0 p in
    if is_yes (String_discrete cause "")
    then chain_from fl hops rest (i + 1) (fl.mul prod p)
    else if first
    then chain_from fl hops rest (i + 1) (fl.mul prod weakest)
    else chain_from fl hops rest (i + 1) prod

-- chainProbability: a hop is its cause and its probability.
unfoldable pub chain_probability : {F : Type 0} → Floats F → List (String × F) → F
unfolding chain_from
chain_probability fl hops = chain_from fl hops hops 0 (float_one fl)

-- A word that is not empty and stands twice: the loops of hopsCorrelated.
unfoldable pub repeats : List String → List String → Bool
repeats seen [] = false
repeats seen (w ∷ ws) =
    let skip = repeats seen ws in
    let rest = repeats (w ∷ seen) ws in
    if is_yes (String_discrete w "")
    then skip
    else if elem String_discrete w seen
    then true
    else rest

module _ {F : Type 0} where
  unfoldable pub hops_correlated : List (Step F) → Bool
  unfolding repeats
  hops_correlated steps =
      if ltb (length steps) 2
      then false
      else if repeats [] (map (λ s. s.weight_cause) steps)
      then true
      else repeats [] (map (λ s. s.weight_basis) steps)

  -- The loop of reconstruct from a node back to the seed, on fuel.
  unfoldable pub steps_back : ℕ → Floats F → Search F → String → String → Option (List (Step F))
  steps_back zero fl t seed at = none
  steps_back (suc fuel) fl t seed at =
      let st = elim (prev_at t at) as (λ _. Step F) [
        | some st ↦ st
        | none ↦ record {
          edge_type = "";
          from = "";
          to = "";
          probability = float_zero fl;
          resolution_method = "";
          resolution_confidence = float_zero fl;
          weight_basis = "";
          weight_confidence = float_zero fl;
          evidence_count = pos 0;
          weight_cause = "";
        }
      ] in
      let rest = steps_back fuel fl t seed st.from in
      if is_yes (String_discrete at seed)
      then some []
      else elim rest as (λ _. Option (List (Step F))) [ none ↦ none | some sts ↦ some (st ∷ sts) ]

  -- The weakest hop: the loop over `minP`.
  unfoldable pub weakest_hop : Floats F → List (Step F) → F
  weakest_hop fl steps =
      foldl (λ low st. if fl.lt st.probability low then st.probability else low) (float_one fl)
        steps

  unfoldable pub path_confidence : Floats F → List (Step F) → F × String
  path_confidence fl [] = (float_zero fl, "")
  path_confidence fl (st ∷ sts) =
      let steps = st ∷ sts in
      let sum = foldl (λ s x. fl.add s x.weight_confidence) (float_zero fl) steps in
      let c = fl.div sum (fl.of_int64 (pos (length steps))) in
      if float_le fl (fl.hundredths 70) c
      then (c, "high")
      else if float_le fl (fl.hundredths 45) c
      then (c, "medium")
      else (c, "low")

  any_runtime : List (Node F) → Bool
  any_runtime [] = false
  any_runtime (n ∷ ns) = bool_prop n runtime_alert_key || any_runtime ns

  -- assembleAttackPath, on at least one node.
  unfoldable pub assemble_attack_path : Floats F → List (Node F) → List (Step F) → AttackPath F
  unfolding any_runtime chain_probability hops_correlated path_confidence weakest_hop
  assemble_attack_path fl nodes steps =
      let (conf, label) = path_confidence fl steps in
      record {
        score = chain_probability fl (map (λ s. (s.weight_cause, s.probability)) steps);
        nodes = nodes;
        steps = steps;
        runtime_confirmed = any_runtime nodes;
        confidence = conf;
        confidence_label = label;
        score_upper_bound = weakest_hop fl steps;
        correlated_hops = hops_correlated steps;
        direct_access = false;
      }

  -- reconstruct, from the steps found.
  unfoldable pub path_along : Floats F → String → Map String (Node F) → List (Step F) → AttackPath F
  unfolding assemble_attack_path
  path_along fl seed nodes back =
      let steps = reverse back in
      assemble_attack_path fl (node_of nodes seed ∷ map (λ s. node_of nodes s.to) steps) steps

  unfoldable pub reconstruct :
      ℕ → Floats F → Search F → String → String → Map String (Node F) → Option (AttackPath F)
  unfolding steps_back path_along
  reconstruct fuel fl t seed jewel nodes = elim (steps_back fuel fl t seed jewel) [
    | none ↦ none
    | some back ↦ some (path_along fl seed nodes back)
  ]

  unfoldable pub reachable : Floats F → Option F → Bool
  reachable fl none = false
  reachable fl (some d) = not (fl.is_inf d)

  -- The loop of pathsFromSeed over the jewels; `none` is a loop that runs out of fuel.
  unfoldable pub paths_to :
      ℕ
      → Floats F
      → Search F
      → String
      → Map String (Node F)
      → List String
      → Option (List (AttackPath F))
  unfolding reachable reconstruct
  paths_to fuel fl t seed nodes [] = some []
  paths_to fuel fl t seed nodes (jewel ∷ jewels) =
      let rest = paths_to fuel fl t seed nodes jewels in
      if is_yes (String_discrete seed jewel)
      then rest
      else if not (reachable fl (dist_at t jewel))
      then rest
      else do path ← reconstruct fuel fl t seed jewel nodes; paths ← rest; some (path ∷ paths)

  -- pathsFromSeed
  unfoldable pub paths_from_seed :
      Floats F
      → String
      → List String
      → Adjacency F
      → Map String (Node F)
      → Option (List (AttackPath F))
  unfolding paths_to dijkstra
  paths_from_seed fl seed jewels adj nodes =
      paths_to (out_total adj (keys adj) + 2) fl (dijkstra fl seed adj) seed nodes jewels
