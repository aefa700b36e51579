-- ===== src/Delivery/Consumer.antt =====
-- The callback of Consume, and what a failed delivery has earned (backend/internal/broker/nats.go).
use perspectivegraph.Base.{
  ℕ, ◌*◌, ◌-◌, String, Bool, not, Option, none, some, List, [], ◌∷◌, Time, second, Floats, leb,
  if◌then◌else◌, length, get_or,
}
use perspectivegraph.Ontology.{Event}
use perspectivegraph.Delivery.{
  Replica, KeyValue, Headers, SnapshotRecord, mark_applied, record_snapshot, maybe_sweep,
}

-- retryOrDeadLetter and backoffFor
abbrev pub max_deliver : ℕ
max_deliver = 8

abbrev pub redelivery_backoff : List Time
redelivery_backoff = second ∷ 5 * second ∷ 15 * second ∷ 30 * second ∷ 60 * second ∷ []

abbrev pub backoff_for : ℕ → Time
backoff_for attempt =
    let i = attempt - 1 in
    get_or 0 redelivery_backoff
      (if leb (length redelivery_backoff) i then length redelivery_backoff - 1 else i)

-- What a message is told.
pub data Verdict : Type 0 where
  ack : Verdict
  retry_in : Time → Verdict
  dead_letter : Verdict

unfoldable pub retry_or_dead_letter : ℕ → Verdict
retry_or_dead_letter attempt =
    if leb max_deliver attempt then dead_letter else retry_in (backoff_for attempt)

module _ {B : Type 0} (kv : KeyValue B) (digest : String → String → String → String) {F : Type 0}
    (fl : Floats F) where
  -- The callback of Consume: the event, where the body is one, whether the handler succeeded, and the
  -- count of deliveries.
  unfoldable pub consume :
      Replica → B → Headers → Option (Event F) → Bool → ℕ → Time → B × Verdict × List SnapshotRecord
  unfolding record_snapshot mark_applied maybe_sweep retry_or_dead_letter
  consume r b h none handled attempt now = (b, dead_letter, [])
  consume r b h (some ev) handled attempt now =
      let marked = mark_applied kv r (record_snapshot kv digest fl r b h ev) h now in
      let (after, sweeps) = maybe_sweep kv r marked h in
      if not handled then (b, retry_or_dead_letter attempt, []) else (after, ack, sweeps)
