-- ===== src/Analyzer/Critical/Roles.antt =====
-- Which nodes are seeds and jewels (backend/internal/analyzer/attackpath.go).
use perspectivegraph.Base.Maps.{Map, elem}
use perspectivegraph.Base.{
  String, String_discrete, Bool, false, not, ◌||◌, ◌&&◌, List, [], ◌∷◌, ◌≡◌, arith, is_yes,
}
use perspectivegraph.Ontology.{Node}
use perspectivegraph.Analyzer.Weights.{node_of}
use perspectivegraph.Analyzer.Critical.{ids_where}

module _ {F : Type 0} where
  -- The snapshot lists a node of this id.
  abbrev pub lists : String → List (Node F) → Bool
  lists id [] = false
  lists id (n ∷ ns) = is_yes (String_discrete id n.id) || lists id ns

  pub elem-ids_where :
      (test : Node F → Bool) (nodes : Map String (Node F)) (ns : List (Node F))
      (listed : List String) (id : String)
      → elem String_discrete id (ids_where test nodes listed ns)
        ≡ (not (elem String_discrete id listed) && lists id ns && test (node_of nodes id))
  unfolding ids_where
  elem-ids_where test nodes [] listed id = ground arith
  elem-ids_where test nodes (n ∷ ns) listed id = elim (String_discrete id n.id) [
    | yes p ↦ rw p (
        ground (
          arith,
          elem-ids_where test nodes ns listed n.id,
          elem-ids_where test nodes ns (n.id ∷ listed) n.id,
        ))
    | no p ↦ ground (
      arith,
      elem-ids_where test nodes ns listed id,
      elem-ids_where test nodes ns (n.id ∷ listed) id,
    )
  ]
