-- ===== src/Tests/Messages.antt =====
-- Splitting an event of three nodes and an edge. A body here is its size: 5 for the envelope and 4 for
-- each node and edge.
use perspectivegraph.Base.{ℕ, ◌+◌, ◌*◌, ◌≡◌, refl, some, none, String, [], ◌∷◌, length}
use perspectivegraph.Ontology.{Node, Event}
use perspectivegraph.Broker.{Json, ok, too_large, split_event}
use perspectivegraph.Broker.Messages.{Splits}
use perspectivegraph.Broker.Split.{split_event_whole}

abbrev sizes : Json ℕ ℕ
sizes = record {
  event = λ ev. some (5 + 4 * (length ev.nodes + length ev.edges));
  len = λ b. b;
  node_size = λ n. 4;
  edge_size = λ e. 4;
  envelope_size = λ ev. 5;
}

abbrev node : String → Node ℕ
node id = record { id = id; label = "Container"; name = ""; properties = [] }

abbrev report : Event ℕ
report = record {
  source = "k8s";
  kind = "asset";
  observed_at = 0;
  tenant = "";
  nodes = node "a" ∷ node "b" ∷ node "c" ∷ [];
  edges =
      record { typ = "HOSTS"; from = "a"; to = "b"; exploit_probability = 50; properties = [] }
      ∷ [];
  snapshot = none;
}

-- Two nodes fit in a message, then one, then the edge.
three_messages : split_event sizes 15 5 report ≡ ok (13 ∷ 9 ∷ 9 ∷ [])
unfolding split_event
three_messages = refl

one_message : split_event sizes 21 5 report ≡ ok (21 ∷ [])
unfolding split_event
one_message = refl

nothing_fits : split_event sizes 8 5 report ≡ too_large
unfolding split_event
nothing_fits = refl

split_event_whole_example :
    Splits sizes 14 report report.nodes report.edges
      (split_event sizes 14 (length report.nodes + length report.edges + 1) report)
split_event_whole_example = split_event_whole sizes 14 report
