-- ===== src/Tests/Deliveries.antt =====
-- A batch of one message that is delivered twice.
use mathlib.Core.List.{lookup}
use mathlib.Core.List.Memᴰ.{Memᴰ}
use perspectivegraph.Base.Maps.{insert}
use perspectivegraph.Base.{
  ℕ, ◌≤◌, ◌*◌, String, String_discrete, true, false, some, none, [], ◌∷◌, ◌≡◌, inr, refl, second,
}
use perspectivegraph.Ontology.{Event, complete_snapshot, valid_scope, carries_pr_context}
use perspectivegraph.Tests.Numbers.{fl}
use perspectivegraph.Tests.Buckets.{Bucket, plain, plain_laws, plain_snapshots}
use perspectivegraph.Delivery.{
  Headers, Replica, track, record_snapshot, mark_applied, maybe_sweep, sweep_is_due, batch_complete,
  claim, sweeps_of, valid_id, is_int,
}
use perspectivegraph.Delivery.Status.{complete, batch_status}
use perspectivegraph.Delivery.Consumer.{ack, retry_in, consume, retry_or_dead_letter}
use perspectivegraph.Delivery.Replicas.{World, no_batch, Reach, AllReached, count_claims}
use perspectivegraph.Delivery.Once.{swept_after_all}
use perspectivegraph.Delivery.Composed.{Delivered, consume_steps}

abbrev batch_id : String
batch_id = "0123456789abcdef0123456789abcdef"

abbrev healthy : Replica
healthy = record {
  has_bucket = true;
  has_sweeper = true;
  can_record = true;
  can_mark = true;
  can_read_total = true;
  can_count = true;
  can_claim = true;
  can_list = true;
  can_read = λ key. true;
}

abbrev only : Headers
only = record { batch = batch_id; seq = "0"; snapshot = "1" }

abbrev scope_key : String → String → String → String
scope_key tenant source scope = scope

abbrev report : Event ℕ
report = record {
  source = "k8s";
  kind = "scan";
  observed_at = 5;
  tenant = "default";
  nodes = [];
  edges = [];
  snapshot = some (record { scope = "cluster"; taken = 4 });
}

announced : Bucket
unfolding track
announced = (track plain healthy (no_batch plain).bucket batch_id 1 "default").0

once_delivered : Bucket
once_delivered = (consume plain scope_key fl healthy announced only (some report) true 1 7).0

-- The first delivery sweeps, the second one does not; a third that fails is tried again.
deliveries :
    ((consume plain scope_key fl healthy announced only (some report) true 1 7) ≡ (
      once_delivered,
      ack,
      record { tenant = "default"; source = "k8s"; scope = "cluster"; taken = 4 } ∷ [],
    ))
    × ((consume plain scope_key fl healthy once_delivered only (some report) true 2 8).2 ≡ [])
    × ((consume plain scope_key fl healthy once_delivered only (some report) false 3 9)
        ≡ (once_delivered, retry_in (15 * second), []))
    × (complete (batch_status plain healthy once_delivered batch_id).0 ≡ true)
unfolding announced once_delivered consume record_snapshot mark_applied maybe_sweep sweep_is_due
    batch_complete claim sweeps_of retry_or_dead_letter valid_id is_int complete_snapshot
    valid_scope carries_pr_context batch_status lookup insert String_discrete
deliveries = (refl, refl, refl, refl)

abbrev told : World Bucket
told = record (no_batch plain) {
  bucket = (track plain healthy (no_batch plain).bucket batch_id 1 "default").0;
}

fresh : plain.total (no_batch plain).bucket batch_id ≡ none
unfolding lookup
fresh = refl

told_reached : Reach plain scope_key fl told
told_reached = Reach.tracked healthy batch_id "default" 1 fresh Reach.start

consume_steps_example :
    (v : World Bucket) × Delivered plain scope_key fl plain_laws told v healthy only
      (some report)
      true
      1
      7
consume_steps_example =
    consume_steps plain scope_key fl plain_laws plain_snapshots told healthy only (some report) true
      1 7 told_reached

abbrev applied_world : World Bucket
applied_world = record told {
  bucket = mark_applied plain healthy told.bucket only 7;
  reached = (batch_id, "0") ∷ [];
}

applied_reached : Reach plain scope_key fl applied_world
applied_reached = Reach.marked healthy only 7 (Memᴰ.head refl) (Reach.handled only told_reached)

applied_complete : complete (batch_status plain healthy applied_world.bucket batch_id).0 ≡ true
unfolding mark_applied track batch_status valid_id is_int lookup insert String_discrete
applied_complete = refl

swept_after_all_example :
    AllReached plain applied_world batch_id × (count_claims applied_world.claims batch_id ≤ 1)
swept_after_all_example =
    swept_after_all plain plain_laws scope_key fl applied_world healthy batch_id applied_reached
      (inr applied_complete)
