-- ===== src/Tests/Store.antt =====
-- The in-memory store on a small graph: an internet-facing machine and a database, an edge between
-- them, and an edge to a bucket that is not there yet.
use mathlib.Core.List.{lookup}
use perspectivegraph.Base.Maps.{insert, erase}
use perspectivegraph.Base.{
  ℕ, String, String_discrete, true, false, none, some, List, [], ◌∷◌, ◌≡◌, ◌⊎◌, refl, unix, is_some,
  ◌||◌, if◌then◌else◌,
}
use perspectivegraph.Tests.Numbers.{fl}
use perspectivegraph.Ontology.{
  Node, Edge, Event, bool, str, internet_exposed_key, resolution_method_key, is_valid_label,
  is_valid_edge_type,
}
use perspectivegraph.Graph.Contract.{
  Origin, SweepStats, ok, err, empty_scope, removed, merge_props, with_last_seen, last_seen,
  inferred, supersedes,
}
use perspectivegraph.Graph.Memory.State.{
  Store, EdgeKey-discrete, OriginKey-discrete, new, edge_key, edge_at, node_at, parked_at, merged,
  put_edge, land, park, unpark, index_key, unindex_key, note,
}
use perspectivegraph.Graph.Memory.Upsert.{
  upsert_batch_locked, upsert_batch_from, upsert_node, sweep_pending,
}
use perspectivegraph.Graph.Memory.Consistent.{IsConsistent, IsSettled}
use perspectivegraph.Graph.Memory.Batch.{held, listed, surviving, held-upsert_batch_locked}
use perspectivegraph.Graph.Memory.Runs.{
  Write, Step, Reach, ReachByWrites, Reach-IsConsistent, ReachByWrites-IsSettled,
}
use perspectivegraph.Graph.Memory.Facts.{stated, stated-upsert_batch_locked}
use perspectivegraph.Graph.Memory.Sweeps.{SweepResult, sweep_retracts}
use perspectivegraph.Graph.Memory.Prunes.{Pruned, prune_drops_stale}
use perspectivegraph.Graph.Memory.Expiry.{due, unexpired, parked_at-sweep_pending}
use perspectivegraph.Graph.Events.{apply_event}
use perspectivegraph.Graph.Vocabulary.{IsInOntology, apply_event-IsInOntology}
use perspectivegraph.Graph.Memory.Sweep.{sweep}
use perspectivegraph.Graph.Memory.Prune.{prune}

abbrev machine : Node ℕ
machine = record {
  id = "VirtualMachine:web";
  label = "VirtualMachine";
  name = "web";
  properties = (internet_exposed_key, bool true) ∷ [];
}

abbrev database : Node ℕ
database = record { id = "Database:orders"; label = "Database"; name = "orders"; properties = [] }

abbrev bucket : Node ℕ
bucket = record { id = "Bucket:backups"; label = "Bucket"; name = "backups"; properties = [] }

abbrev link : Edge ℕ
link = record {
  typ = "CONNECTS_TO";
  from = "VirtualMachine:web";
  to = "Database:orders";
  exploit_probability = 60;
  properties = [];
}

abbrev early : Edge ℕ
early = record {
  typ = "CONNECTS_TO";
  from = "Database:orders";
  to = "Bucket:backups";
  exploit_probability = 30;
  properties = [];
}

abbrev guess : Edge ℕ
guess = record link {
  exploit_probability = 90;
  properties = (resolution_method_key, str "name") ∷ [];
}

abbrev image_scope : String
image_scope = "image:web"

abbrev scanner : Origin
scanner = record { source = "trivy"; scope = image_scope; seen = 100 }

abbrev nodes : List (Node ℕ)
nodes = machine ∷ database ∷ []

abbrev edges : List (Edge ℕ)
edges = link ∷ early ∷ []

sample : Store ℕ
sample = upsert_batch_locked fl new nodes edges (some scanner) 100

store_code : Unit {0}
unfolding sample upsert_batch_locked lookup insert erase String_discrete EdgeKey-discrete
    OriginKey-discrete put_edge land merged park unpark index_key unindex_key note merge_props
    supersedes inferred last_seen with_last_seen sweep prune removed apply_event upsert_batch_from
    is_valid_label is_valid_edge_type unix
store_code = tt

sample_by_writes : ReachByWrites fl sample
unfolding sample
sample_by_writes =
    ReachByWrites.next ReachByWrites.start (Write.batch nodes edges (some scanner) 100)

sample-IsConsistent : IsConsistent sample
unfolding sample
sample-IsConsistent =
    Reach-IsConsistent fl
      (Reach.next Reach.start (Step.write (Write.batch nodes edges (some scanner) 100)))

Reach-IsConsistent_example : IsConsistent (upsert_node sample bucket)
unfolding sample
Reach-IsConsistent_example = Reach-IsConsistent fl (
    Reach.next (Reach.next Reach.start (Step.write (Write.batch nodes edges (some scanner) 100)))
      (Step.node bucket))

ReachByWrites-IsSettled_example : IsSettled sample
ReachByWrites-IsSettled_example = ReachByWrites-IsSettled fl sample_by_writes

-- The edge whose end is missing waits, and the next batch that brings the end lands it.
early_waits :
    (is_some (edge_at sample (edge_key link)) ≡ true)
    × (is_some (parked_at sample (edge_key early)) ≡ true)
unfolding store_code
early_waits = (refl, refl)

early_lands :
    edge_at (upsert_batch_locked fl sample (bucket ∷ []) [] none 200) (edge_key early) ≡ some early
unfolding store_code
early_lands = refl

held-upsert_batch_locked_example :
    held (upsert_batch_locked fl sample (bucket ∷ []) (guess ∷ []) none 200) (edge_key early) ≡ (
      is_some (edge_at sample (edge_key early))
      || is_some (surviving sample 200 (edge_key early))
      || listed (edge_key early) (guess ∷ []))
held-upsert_batch_locked_example =
    held-upsert_batch_locked fl sample (bucket ∷ []) (guess ∷ []) none 200 (edge_key early)
      sample-IsConsistent

stated-upsert_batch_locked_example :
    stated (edge_at (upsert_batch_locked fl sample [] (guess ∷ []) none 200) (edge_key link)) ≡ true
unfolding store_code
stated-upsert_batch_locked_example =
    stated-upsert_batch_locked fl sample [] (guess ∷ []) none 200 (edge_key link) refl

sweep_retracts_example :
    ((image_scope ≡ "") × (sweep sample "trivy" image_scope 150 160 ≡ err empty_scope))
    ⊎ ((t : Store ℕ) × (st : SweepStats) × (sweep sample "trivy" image_scope 150 160 ≡ ok (t, st))
        × SweepResult "trivy" image_scope 150 160 sample t)
sweep_retracts_example = sweep_retracts sample "trivy" image_scope 150 160 sample-IsConsistent

prune_drops_stale_example :
    Pruned fl (unix 300) sample (prune fl sample 300).0
    × IsConsistent (prune fl sample 300).0
    × (IsSettled sample → IsSettled (prune fl sample 300).0)
prune_drops_stale_example = prune_drops_stale fl sample 300 sample-IsConsistent

parked_at-sweep_pending_example : parked_at (sweep_pending sample 90000000000) (edge_key early) ≡ (
    if due sample 90000000000
    then unexpired 90000000000 (parked_at sample (edge_key early))
    else parked_at sample (edge_key early))
parked_at-sweep_pending_example = parked_at-sweep_pending sample 90000000000 (edge_key early)

abbrev scan_event : Event ℕ
scan_event = record {
  source = "trivy";
  kind = "scan";
  observed_at = 0;
  tenant = "";
  nodes = machine ∷ record database { label = "Spaceship" } ∷ [];
  edges = link ∷ [];
  snapshot = some (record { scope = image_scope; taken = 90 });
}

new-IsInOntology : IsInOntology {F = ℕ} new
unfolding store_code
new-IsInOntology = record { labels = λ id. refl; types = λ k h. cc }

-- The event's node of an unknown label is dropped, and its edge with it.
unknown_dropped :
    (node_at (apply_event fl new scan_event 100 101 102) "Database:orders" ≡ none)
    × (held (apply_event fl new scan_event 100 101 102) (edge_key link) ≡ false)
    × (is_some (node_at (apply_event fl new scan_event 100 101 102) "VirtualMachine:web") ≡ true)
unfolding store_code
unknown_dropped = (refl, refl, refl)

apply_event-IsInOntology_example : IsInOntology (apply_event fl new scan_event 100 101 102)
apply_event-IsInOntology_example =
    apply_event-IsInOntology fl new scan_event 100 101 102 (Reach-IsConsistent fl Reach.start)
      new-IsInOntology
