-- ===== src/Delivery.antt =====
-- Delivering the messages of a batch (backend/internal/broker: batch.go and snapshot.go). The key-value
-- bucket of NATS is the parameter `KeyValue`; which of its calls fail is an argument, and its keys do not
-- expire (they do after an hour). The cancellation of a context, metrics and log lines are left out.
pub mod Status
pub mod Consumer
pub mod Replicas
pub mod Sweeping
pub mod Once
pub mod Calls
pub mod Composed
use Prim.Native.Char.{code}
use Prim.Native.String.{len}
use mathlib.Core.List.{lookup}
use perspectivegraph.Base.Maps.{Map, elem, insert, keys, values}
use perspectivegraph.Base.{
  ℕ, zero, suc, ◌+◌, ◌*◌, ◌-◌, ◌^◌, String, String_discrete, Bool, true, false, not, ◌||◌, ◌&&◌,
  Option, none, some, List, [], ◌∷◌, foldl, Time, second, Floats, is_yes, ltb, leb, ◌==◌,
  if◌then◌else◌, length, get_or,
}
use perspectivegraph.Ontology.{Event, complete_snapshot}

-- `c >= '0' && c <= '9'`
abbrev pub is_digit : ℕ → Bool
is_digit c = leb 0x30 c && leb c 0x39

all_hex : String → Bool
all_hex String.[] = true
all_hex (String.◌∷◌ c s) =
    let rest = all_hex s in (is_digit (code c) || (leb 0x61 (code c) && leb (code c) 0x66)) && rest

-- batchIDRe.MatchString
unfoldable pub valid_id : String → Bool
unfolding all_hex
valid_id id = (len id == 32) && all_hex id

-- The digits that follow a sign or none, as a number.
digits_value : ℕ → String → Option ℕ
digits_value v String.[] = some v
digits_value v (String.◌∷◌ c s) =
    let rest = digits_value (10 * v + (code c - 0x30)) s in if is_digit (code c) then rest else none

-- A text of digits whose number is at most `most`.
in_range : ℕ → String → Bool
unfolding digits_value
in_range most s = elim (digits_value 0 s) [ none ↦ false | some v ↦ not (len s == 0) && leb v most ]

-- strconv.Atoi gives no error, on an int of 64 bits.
unfoldable pub is_int : String → Bool
unfolding in_range
is_int String.[] = false
is_int (String.◌∷◌ c s) =
    if code c == 0x2d
    then in_range (2 ^ 63) s
    else if code c == 0x2b
    then in_range (2 ^ 63 - 1) s
    else in_range (2 ^ 63 - 1) (String.◌∷◌ c s)

-- The headers of a message that its consumer reads; one that is not set is empty.
pub record Headers : Type 0 where
  pub batch : String
  pub seq : String
  pub snapshot : String

-- snapshotRecord
pub record SnapshotRecord : Type 0 where
  pub tenant : String
  pub source : String
  pub scope : String
  pub taken : Time

-- The key-value bucket that all replicas share, by the form of a key: `<id>.total`, whose value is
-- `<n>|<tenant>`, `<id>.<seq>`, `snap.<id>.<digest>` and `swept.<id>`. A listing has the keys of one
-- batch with what Get gives for them: the time of a mark, the value of a snapshot.
pub record KeyValue (B : Type 0) : Type 0 where
  pub fresh : B
  pub put_total : B → String → ℕ × String → B
  pub total : B → String → Option (ℕ × String)
  pub put_mark : B → String → String → Time → B
  pub marks : B → String → Map String Time
  pub put_snapshot : B → String → String → SnapshotRecord → B
  pub snapshots : B → String → Map String SnapshotRecord
  -- Create, which is refused where the key is there.
  pub create_swept : B → String → Option B

-- What a replica can do: whether it has the bucket and a sweeper, and which calls of the bucket succeed.
-- A record that cannot be encoded is not put, as on a Put that fails: `can_record` tells both.
pub record Replica : Type 0 where
  pub has_bucket : Bool
  pub has_sweeper : Bool
  pub can_record : Bool
  pub can_mark : Bool
  pub can_read_total : Bool
  pub can_count : Bool
  pub can_claim : Bool
  pub can_list : Bool
  pub can_read : String → Bool

-- The loop over the snapshots: those that can be read and have a scope are swept.
abbrev pub readable : Replica → Map String SnapshotRecord → List SnapshotRecord
readable r [] = []
readable r ((key, rec) ∷ m) =
    let rest = readable r m in
    if r.can_read key && not (is_yes (String_discrete rec.scope "")) then rec ∷ rest else rest

module _ {B : Type 0} (kv : KeyValue B) where
  -- The bucket's part of PublishBatch, before any message is published: the id, empty where the batch
  -- cannot be tracked, for `n` messages, which are some.
  unfoldable pub track : Replica → B → String → ℕ → String → B × String
  track r b candidate n tenant =
      if r.has_bucket && r.can_record
      then (kv.put_total b candidate (n, tenant), candidate)
      else (b, "")

  -- markApplied
  unfoldable pub mark_applied : Replica → B → Headers → Time → B
  unfolding valid_id is_int
  mark_applied r b h now =
      if not r.has_bucket || not (valid_id h.batch)
      then b
      else if not (is_int h.seq)
      then b
      else if not r.can_mark
      then b
      else kv.put_mark b h.batch h.seq now

  -- batchComplete; an error counts as not complete, as its only caller has it.
  unfoldable pub batch_complete : Replica → B → String → Bool
  batch_complete r b id = elim (kv.total b id) as (λ _. Bool) [
    | none ↦ false
    | some (n, tenant) ↦
        r.can_read_total && ltb 0 n && r.can_count && leb n (length (kv.marks b id))
  ]

  -- The first half of maybeSweep: whether the replica goes on to claim the sweep.
  unfoldable pub sweep_is_due : Replica → B → Headers → Bool
  unfolding batch_complete valid_id
  sweep_is_due r b h =
      if not r.has_sweeper
        || is_yes (String_discrete h.snapshot "")
        || not r.has_bucket
        || not (valid_id h.batch)
      then false
      else batch_complete r b h.batch

  -- kv.Create of the batch's "swept" key, and whether it succeeded.
  unfoldable pub claim : Replica → B → String → B × Bool
  claim r b id = elim (kv.create_swept b id) as (λ _. B × Bool) [
    | none ↦ (b, false)
    | some c ↦ if r.can_claim then (c, true) else (b, false)
  ]

  -- The rest of maybeSweep: the calls of the sweeper that are made.
  unfoldable pub sweeps_of : Replica → B → String → List SnapshotRecord
  sweeps_of r b id = if not r.can_list then [] else readable r (kv.snapshots b id)

  -- maybeSweep, with no other replica at work
  unfoldable pub maybe_sweep : Replica → B → Headers → B × List SnapshotRecord
  unfolding sweep_is_due claim sweeps_of
  maybe_sweep r b h =
      let (claimed, won) = claim r b h.batch in
      if not (sweep_is_due r b h)
      then (b, [])
      else if not won
      then (claimed, [])
      else (claimed, sweeps_of r claimed h.batch)

  module _ (digest : String → String → String → String) {F : Type 0} (fl : Floats F) where
    -- recordSnapshot
    unfoldable pub record_snapshot : Replica → B → Headers → Event F → B
    unfolding complete_snapshot valid_id
    record_snapshot r b h ev = elim (complete_snapshot fl ev) as (λ _. B) [
      | none ↦ b
      | some d ↦
          let rec : SnapshotRecord = record {
            tenant = ev.tenant;
            source = ev.source;
            scope = d.scope;
            taken = d.taken;
          } in
          if not r.has_sweeper || not r.has_bucket || not (valid_id h.batch)
          then b
          else if not r.can_record
          then b
          else kv.put_snapshot b h.batch (digest ev.tenant ev.source d.scope) rec
    ]
