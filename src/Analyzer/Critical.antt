-- ===== src/Analyzer/Critical.antt =====
-- The critical paths of a snapshot (backend/internal/analyzer/attackpath.go). The workers that share
-- out the seeds fill one bucket for each seed, so the seeds are searched in order here.
pub mod Roles
pub mod Ranking
pub mod Complete
pub mod Answer
use perspectivegraph.Base.Maps.{Map, elem}
use perspectivegraph.Base.{
  ℕ, String, String_discrete, Bool, true, false, not, ◌||◌, ◌&&◌, Option, none, some, List, [], ◌∷◌,
  ◌++◌, map, Floats, ◌==◌, ◌>>=◌, if◌then◌else◌, length,
}
use perspectivegraph.Ontology.{Node, bool_prop, is_seed, held_by_attacker, crown_jewel_key}
use perspectivegraph.Graph.Contract.{Snapshot}
use perspectivegraph.Analyzer.Weights.{Adjacency, node_of, node_by_id, build_adjacency}
use perspectivegraph.Analyzer.Paths.{AttackPath, assemble_attack_path, paths_from_seed}

module _ {F : Type 0} where
  abbrev pub is_jewel : Node F → Bool
  is_jewel n = bool_prop n crown_jewel_key

  abbrev pub is_direct : Node F → Bool
  is_direct n = is_jewel n && held_by_attacker n

  -- The ids of the listed nodes that meet a test, each looked up in the index and once however often
  -- it is listed; `listed` are those met before.
  unfoldable pub ids_where :
      (Node F → Bool) → Map String (Node F) → List String → List (Node F) → List String
  ids_where test nodes listed [] = []
  ids_where test nodes listed (n ∷ ns) =
      let skip = ids_where test nodes listed ns in
      let rest = ids_where test nodes (n.id ∷ listed) ns in
      if elem String_discrete n.id listed
      then skip
      else if test (node_of nodes n.id)
      then n.id ∷ rest
      else rest

  unfoldable pub direct_access_path : Floats F → Node F → AttackPath F
  direct_access_path fl jewel = record (assemble_attack_path fl (jewel ∷ []) []) {
    direct_access = true;
    confidence = fl.hundredths 95;
    confidence_label = "high";
  }

  unfoldable pub direct_access_paths : Floats F → Snapshot F → List (AttackPath F)
  unfolding ids_where direct_access_path
  direct_access_paths fl snap =
      let nodes = node_by_id snap in
      map (λ id. direct_access_path fl (node_of nodes id)) (ids_where is_direct nodes [] snap.nodes)

  -- The buckets of the seeds, in the seeds' order.
  unfoldable pub per_seed :
      Floats F
      → Adjacency F
      → Map String (Node F)
      → List String
      → List String
      → Option (List (AttackPath F))
  per_seed fl adj nodes jewels [] = some []
  per_seed fl adj nodes jewels (seed ∷ seeds) =
      let rest = per_seed fl adj nodes jewels seeds in
      paths_from_seed fl seed jewels adj nodes >>= (λ ps. rest >>= (λ qs. some (ps ++ qs)))

  -- The order of the result: confirmed at runtime first, then by score.
  unfoldable pub ahead : Floats F → AttackPath F → AttackPath F → Bool
  ahead fl a b =
      if a.runtime_confirmed && not b.runtime_confirmed
      then true
      else if not a.runtime_confirmed && b.runtime_confirmed
      then false
      else fl.lt b.score a.score

  -- sort.SliceStable: a path goes before those that it is not behind.
  unfoldable pub insert_path : Floats F → AttackPath F → List (AttackPath F) → List (AttackPath F)
  insert_path fl p [] = p ∷ []
  insert_path fl p (q ∷ qs) =
      let rest = insert_path fl p qs in if ahead fl q p then q ∷ rest else p ∷ q ∷ qs

  unfoldable pub sort_paths : Floats F → List (AttackPath F) → List (AttackPath F)
  unfolding insert_path
  sort_paths fl [] = []
  sort_paths fl (p ∷ ps) = insert_path fl p (sort_paths fl ps)

  -- FindCriticalPaths
  unfoldable pub find_critical_paths :
      Floats F → (String → String) → Snapshot F → Option (List (AttackPath F))
  unfolding ids_where direct_access_paths per_seed sort_paths
  find_critical_paths fl upper_trim snap =
      let nodes = node_by_id snap in
      let adj = build_adjacency fl upper_trim snap.edges nodes in
      let seeds = ids_where is_seed nodes [] snap.nodes in
      let jewels = ids_where is_jewel nodes [] snap.nodes in
      let direct = direct_access_paths fl snap in
      if length seeds == 0 || length jewels == 0
      then some direct
      else per_seed fl adj nodes jewels seeds >>= (λ ps. some (sort_paths fl (direct ++ ps)))
