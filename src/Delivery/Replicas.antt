-- ===== src/Delivery/Replicas.antt =====
-- Replicas that share the bucket of a batch, call by call (backend/internal/broker: batch.go, snapshot.go).
-- A step is one call of the bucket, or one success of the handler, so the steps of several replicas, of
-- redelivered messages and of different batches can stand in any order.
use mathlib.Core.List.Memᴰ.{Memᴰ}
use perspectivegraph.Base.{
  ℕ, ◌+◌, ◌<◌, ◌≤◌, String, String_discrete, Bool, true, false, none, some, List, [], ◌∷◌, ◌≡◌, ◌≢◌,
  ◌||◌, Time, Floats, is_yes, if◌then◌else◌, length,
}
use perspectivegraph.Base.Maps.{elem, keys}
use perspectivegraph.Base.Distinct.{Simple}
use perspectivegraph.Ontology.{Event}
use perspectivegraph.Delivery.{
  Headers, SnapshotRecord, KeyValue, Replica, track, record_snapshot, mark_applied, sweep_is_due,
  claim,
}

-- The bucket, the messages that reached the graph, the batches that a replica found complete, and those
-- whose sweep a replica claimed.
pub record World (B : Type 0) : Type 0 where
  pub bucket : B
  pub reached : List (String × String)
  pub found : List String
  pub claims : List String

-- What a claim leaves, and whether it was won.
abbrev pub claimed : {B : Type 0} → World B → String → B × Bool → World B
claimed w id (b, won) = record w { bucket = b; claims = if won then id ∷ w.claims else w.claims }

abbrev pub no_batch : {B : Type 0} → KeyValue B → World B
no_batch kv = record { bucket = kv.fresh; reached = []; found = []; claims = [] }

-- The sweeps of a batch that were claimed.
unfoldable pub count_claims : List String → String → ℕ
count_claims [] id = 0
count_claims (x ∷ xs) id = (if is_yes (String_discrete id x) then 1 else 0) + count_claims xs id

module _ {B : Type 0} (kv : KeyValue B) where
  pub data Reach (digest : String → String → String → String) {F : Type 0} (fl : Floats F)
      : World B → Type 0 where
    start : Reach digest fl (no_batch kv)
    tracked :
        {w : World B} (r : Replica) (candidate tenant : String) (n : ℕ)
        → kv.total w.bucket candidate ≡ none
        → Reach digest fl w
        → Reach digest fl (record w { bucket = (track kv r w.bucket candidate n tenant).0 })
    handled :
        {w : World B} (h : Headers)
        → Reach digest fl w
        → Reach digest fl (record w { reached = (h.batch, h.seq) ∷ w.reached })
    recorded :
        {w : World B} (r : Replica) (h : Headers) (ev : Event F)
        → Reach digest fl w
        → Reach digest fl (record w { bucket = record_snapshot kv digest fl r w.bucket h ev })
    marked :
        {w : World B} (r : Replica) (h : Headers) (now : Time)
        → Memᴰ (h.batch, h.seq) w.reached
        → Reach digest fl w
        → Reach digest fl (record w { bucket = mark_applied kv r w.bucket h now })
    checked :
        {w : World B} (r : Replica) (h : Headers)
        → sweep_is_due kv r w.bucket h ≡ true
        → Reach digest fl w
        → Reach digest fl (record w { found = h.batch ∷ w.found })
    tried :
        {w : World B} (r : Replica) (id : String)
        → Memᴰ id w.found
        → Reach digest fl w
        → Reach digest fl (claimed w id (claim kv r w.bucket id))

  -- As many different messages of a batch reached the graph as it has, which are some.
  pub record AllReached (w : World B) (id : String) : Type 0 where
    pub messages : ℕ
    pub tenant : String
    pub total : kv.total w.bucket id ≡ some (messages, tenant)
    pub some_messages : 0 < messages
    pub seqs : List String
    pub different : Simple seqs
    pub enough : messages ≤ length seqs
    pub all_reached :
        (seq : String) → elem String_discrete seq seqs ≡ true → Memᴰ (id, seq) w.reached

  -- What the service says of its bucket: a new one is empty; Put is read back and changes no other key;
  -- Create makes a key that was not there; a listing has each key once, and Put removes none.
  pub record KeyValueLaws : Type 0 where
    pub marks_fresh : (id : String) → kv.marks kv.fresh id ≡ []
    pub total_put :
        (b : B) (id j : String) (v : ℕ × String)
        → kv.total (kv.put_total b id v) j
          ≡ (if is_yes (String_discrete j id) then some v else kv.total b j)
    pub total_mark :
        (b : B) (id seq j : String) (t : Time) → kv.total (kv.put_mark b id seq t) j ≡ kv.total b j
    pub total_snapshot :
        (b : B) (id key j : String) (rec : SnapshotRecord)
        → kv.total (kv.put_snapshot b id key rec) j ≡ kv.total b j
    pub total_swept :
        (b c : B) (id j : String) → kv.create_swept b id ≡ some c → kv.total c j ≡ kv.total b j
    pub marks_total :
        (b : B) (id j : String) (v : ℕ × String) → kv.marks (kv.put_total b id v) j ≡ kv.marks b j
    pub marks_snapshot :
        (b : B) (id key j : String) (rec : SnapshotRecord)
        → kv.marks (kv.put_snapshot b id key rec) j ≡ kv.marks b j
    pub marks_swept :
        (b c : B) (id j : String) → kv.create_swept b id ≡ some c → kv.marks c j ≡ kv.marks b j
    pub marks_there :
        (b : B) (id seq j : String) (t : Time)
        → j ≢ id
        → kv.marks (kv.put_mark b id seq t) j ≡ kv.marks b j
    pub marks_here :
        (b : B) (id seq x : String) (t : Time)
        → elem String_discrete x (keys (kv.marks (kv.put_mark b id seq t) id))
          ≡ (elem String_discrete x (keys (kv.marks b id)) || is_yes (String_discrete x seq))
    pub marks_once :
        (b : B) (id seq : String) (t : Time)
        → Simple (keys (kv.marks b id))
        → Simple (keys (kv.marks (kv.put_mark b id seq t) id))
    pub marks_grow :
        (b : B) (id seq : String) (t : Time)
        → length (kv.marks b id) ≤ length (kv.marks (kv.put_mark b id seq t) id)
    -- Whether the "swept" key of a batch is there.
    pub swept : B → String → Bool
    pub swept_total :
        (b : B) (id j : String) (v : ℕ × String) → swept (kv.put_total b id v) j ≡ swept b j
    pub swept_mark :
        (b : B) (id seq j : String) (t : Time) → swept (kv.put_mark b id seq t) j ≡ swept b j
    pub swept_snapshot :
        (b : B) (id key j : String) (rec : SnapshotRecord)
        → swept (kv.put_snapshot b id key rec) j ≡ swept b j
    pub swept_create :
        (b c : B) (id j : String)
        → kv.create_swept b id ≡ some c
        → (swept b id ≡ false) × (swept c j ≡ (is_yes (String_discrete j id) || swept b j))
