-- ===== src/Tests/Versions.antt =====
-- A versioned store that is written to: an empty batch does not move the version, a node does.
use perspectivegraph.Base.{ℕ, [], ◌≡◌, refl}
use perspectivegraph.Ontology.{Node}
use perspectivegraph.Graph.Memory.State.{new}
use perspectivegraph.Graph.Memory.Upsert.{upsert_batch}
use perspectivegraph.Graph.Versioned.{Versioned, Call, call, versioned_node, versioned_batch}
use perspectivegraph.Graph.Versioned.Unchanged.{SameElements, same_version_same_graph}
use perspectivegraph.Tests.Numbers.{fl}

abbrev nobody : Node ℕ
nobody = record { id = "n"; label = "Database"; name = "n"; properties = [] }

abbrev at_seven : Versioned ℕ
at_seven = record { store = new; version = 7 }

node_moves : (versioned_node at_seven nobody).version ≡ 8
unfolding versioned_node
node_moves = refl

same_version_same_graph_example : SameElements new (call fl at_seven (Call.batch [] [] 5)).store
unfolding versioned_batch upsert_batch
same_version_same_graph_example = same_version_same_graph fl at_seven (Call.batch [] [] 5) refl
