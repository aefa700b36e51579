-- ===== src/Delivery/Calls.antt =====
-- What a delivery notes of a snapshot and which sweeps it makes (backend/internal/broker/snapshot.go,
-- recordSnapshot and maybeSweep), told from the bucket before and after it.
use mathlib.Core.List.{lookup}
use mathlib.Core.List.Memᴰ.{Memᴰ}
use perspectivegraph.Base.{
  String, String_discrete, Bool, true, false, not, ◌&&◌, Option, none, some, [], ◌∷◌, ◌≡◌, ◌≢◌, ◌↔◌,
  inl, inr, refl, arith, Time, Floats, is_yes, ltb, leb, length, if◌then◌else◌, Bool-cases,
  Option-cases,
}
use perspectivegraph.Base.Maps.{Map}
use perspectivegraph.Ontology.{Event, complete_snapshot}
use perspectivegraph.Delivery.{
  Headers, KeyValue, Replica, SnapshotRecord, valid_id, batch_complete, sweep_is_due, claim,
  sweeps_of, maybe_sweep, mark_applied, record_snapshot, readable,
}
use perspectivegraph.Delivery.Replicas.{KeyValueLaws}

-- A snapshot that can be swept: listed, readable and of a scope.
pub record IsReadable (r : Replica) (m : Map String SnapshotRecord) (rec : SnapshotRecord)
    : Type 0 where
  pub key : String
  pub listed : Memᴰ (key, rec) m
  pub can_read : r.can_read key ≡ true
  pub scoped : rec.scope ≢ ""

readable-IsReadable :
    (r : Replica) (m : Map String SnapshotRecord) (rec : SnapshotRecord)
    → Memᴰ rec (readable r m)
    → IsReadable r m rec
readable-IsReadable r [] rec h = elim h [ ]
readable-IsReadable r ((key, x) ∷ m) rec h =
    let later : Memᴰ rec (readable r m) → IsReadable r ((key, x) ∷ m) rec = λ g.
      let q = readable-IsReadable r m rec g in
      record {
        key = q.key;
        listed = Memᴰ.tail q.listed;
        can_read = q.can_read;
        scoped = q.scoped;
      } in
    elim (Bool-cases (r.can_read key && not (is_yes (String_discrete x.scope "")))) [
      | inr q ↦ later (rw q at h)
      | inl q ↦ elim (rw q at h) [
        | Memᴰ.tail g ↦ later g
        | Memᴰ.head p ↦ record {
          key = key;
          listed = Memᴰ.head (ground (arith, p));
          can_read = ground arith;
          scoped = λ e. ground (arith, p, e);
        }
      ]
    ]

IsReadable-readable :
    (r : Replica) (m : Map String SnapshotRecord) (rec : SnapshotRecord) (key : String)
    → Memᴰ (key, rec) m
    → r.can_read key ≡ true
    → rec.scope ≢ ""
    → Memᴰ rec (readable r m)
IsReadable-readable r [] rec key h c n = elim h [ ]
IsReadable-readable r ((k, x) ∷ m) rec key h c n = elim h [
  | Memᴰ.tail g ↦
      let rest = IsReadable-readable r m rec key g c n in
      elim (Bool-cases (r.can_read k && not (is_yes (String_discrete x.scope "")))) [
        | inl q ↦ rw q (Memᴰ.tail rest)
        | inr q ↦ rw q rest
      ]
  | Memᴰ.head p ↦
      let same : rec ≡ x = ground (arith, p) in
      let here : (r.can_read k && not (is_yes (String_discrete x.scope ""))) ≡ true =
        ground (arith, p, c, n) in
      rw here (Memᴰ.head same)
]

-- The record of a snapshot can be put.
abbrev pub can_be_recorded : Replica → Headers → Bool
can_be_recorded r h = r.has_sweeper && r.has_bucket && valid_id h.batch && r.can_record

module _ (digest : String → String → String → String) {F : Type 0} (fl : Floats F) where
  -- What of a message is to be recorded: the key and the record of the snapshot that it declares, where
  -- the handler succeeded on it.
  abbrev pub declared : Option (Event F) → Bool → Option (String × SnapshotRecord)
  declared none handled = none
  declared (some ev) false = none
  declared (some ev) true = elim (complete_snapshot fl ev) [
    | none ↦ none
    | some d ↦ some (
      digest ev.tenant ev.source d.scope,
      record { tenant = ev.tenant; source = ev.source; scope = d.scope; taken = d.taken },
    )
  ]

-- What is to be recorded of a batch is in the bucket.
abbrev pub IsNoted :
    {B : Type 0} → KeyValue B → B → Headers → Option (String × SnapshotRecord) → Type 0
IsNoted kv b h none = Unit {0}
IsNoted kv b h (some (key, rec)) = lookup String_discrete key (kv.snapshots b h.batch) ≡ some rec

module _ {B : Type 0} (kv : KeyValue B) (laws : KeyValueLaws kv) where
  -- What Get gives of the snapshots that were put, and that Create is refused for a key that is there
  -- and for no other.
  pub record SnapshotLaws : Type 0 where
    pub snapshot_put :
        (b : B) (id key : String) (rec : SnapshotRecord)
        → lookup String_discrete key (kv.snapshots (kv.put_snapshot b id key rec) id) ≡ some rec
    pub snapshots_mark :
        (b : B) (id seq j : String) (t : Time)
        → kv.snapshots (kv.put_mark b id seq t) j ≡ kv.snapshots b j
    pub snapshots_swept :
        (b c : B) (id j : String)
        → kv.create_swept b id ≡ some c
        → kv.snapshots c j ≡ kv.snapshots b j
    pub refused : (b : B) (id : String) → kv.create_swept b id ≡ none → laws.swept b id ≡ true

  -- Every message of a batch, which are some, is marked, and the replica can tell.
  abbrev pub all_in : Replica → B → String → Bool
  all_in r b id = elim (kv.total b id) as (λ _. Bool) [
    | none ↦ false
    | some (n, tenant) ↦
        r.can_read_total && r.can_count && ltb 0 n && leb n (length (kv.marks b id))
  ]

  -- The replica is to sweep after a message of a snapshot batch: all of the batch is marked in the
  -- bucket after it, and no one had claimed the sweep before.
  abbrev pub wins : Replica → Headers → B → B → Bool
  wins r h before after =
      r.has_sweeper
      && r.has_bucket
      && not (is_yes (String_discrete h.snapshot ""))
      && valid_id h.batch
      && all_in r after h.batch
      && r.can_claim
      && not (laws.swept before h.batch)

  pub swept-mark_applied :
      (b : B) (r : Replica) (h : Headers) (now : Time) (j : String)
      → laws.swept (mark_applied kv r b h now) j ≡ laws.swept b j
  unfolding mark_applied
  swept-mark_applied b r h now j = ground (arith, laws.swept_mark b h.batch h.seq j now)

  -- A claim changes neither the total, nor the marks, nor the snapshots.
  pub record SameBatch (b c : B) : Type 0 where
    pub total : (j : String) → kv.total c j ≡ kv.total b j
    pub marks : (j : String) → kv.marks c j ≡ kv.marks b j
    pub snapshots : (j : String) → kv.snapshots c j ≡ kv.snapshots b j

  sweep_is_due_lem :
      (r : Replica) (b : B) (h : Headers)
      → (sweep_is_due kv r b h && r.can_claim && not (laws.swept b h.batch)) ≡ wins r h b b
  unfolding sweep_is_due batch_complete
  sweep_is_due_lem r b h = ground arith

  module _ (more : SnapshotLaws) where
    pub snapshots-mark_applied :
        (b : B) (r : Replica) (h : Headers) (now : Time) (j : String)
        → kv.snapshots (mark_applied kv r b h now) j ≡ kv.snapshots b j
    unfolding mark_applied
    snapshots-mark_applied b r h now j = ground (arith, more.snapshots_mark b h.batch h.seq j now)

    pub maybe_sweep-SameBatch :
        (r : Replica) (b : B) (h : Headers) → SameBatch b (maybe_sweep kv r b h).0
    unfolding maybe_sweep claim
    maybe_sweep-SameBatch r b h =
        let kept : SameBatch b b = record {
          total = λ j. refl;
          marks = λ j. refl;
          snapshots = λ j. refl;
        } in
        elim (Option-cases (kv.create_swept b h.batch)) [
          | inl q ↦ let same : (maybe_sweep kv r b h).0 ≡ b = ground arith in rw same kept
          | inr (c, q) ↦ elim (Bool-cases (sweep_is_due kv r b h && r.can_claim)) [
            | inr d ↦ let same : (maybe_sweep kv r b h).0 ≡ b = ground arith in rw same kept
            | inl d ↦
                let same : (maybe_sweep kv r b h).0 ≡ c = ground arith in
                rw same (record {
                  total = λ j. laws.total_swept b c h.batch j q;
                  marks = λ j. laws.marks_swept b c h.batch j q;
                  snapshots = λ j. more.snapshots_swept b c h.batch j q;
                })
          ]
        ]

    -- The calls of a sweep are those for the snapshots that are readable, where the replica is to sweep.
    sweeps-maybe_sweep :
        (r : Replica) (b : B) (h : Headers)
        → (maybe_sweep kv r b h).1 ≡ (
            if wins r h b b && r.can_list
            then readable r (kv.snapshots (maybe_sweep kv r b h).0 h.batch)
            else [])
    unfolding maybe_sweep claim sweeps_of
    sweeps-maybe_sweep r b h =
        let due = sweep_is_due_lem r b h in
        elim (Option-cases (kv.create_swept b h.batch)) [
          | inl q ↦ ground (arith, due, more.refused b h.batch q)
          | inr (c, q) ↦
              let free = (laws.swept_create b c h.batch h.batch q).0 in ground (arith, due, free)
        ]

    -- The calls of the sweeper, one for each snapshot of the batch that can be read and has a scope.
    pub mem-maybe_sweep :
        (r : Replica) (b : B) (h : Headers) (rec : SnapshotRecord)
        → let (after, sweeps) = maybe_sweep kv r b h in
          Memᴰ rec sweeps
          ↔ (wins r h b after && r.can_list ≡ true) × IsReadable r (kv.snapshots after h.batch) rec
    mem-maybe_sweep r b h rec =
        let k = maybe_sweep-SameBatch r b h in
        let made = sweeps-maybe_sweep r b h in
        let same : wins r h b (maybe_sweep kv r b h).0 ≡ wins r h b b =
          ground (arith, k.total h.batch, k.marks h.batch) in
        elim (Bool-cases (wins r h b b && r.can_list)) [
          | inr q ↦ (λ m. absurd (elim (rw (made, q) at m) [ ]), λ (w, _). absurd (ground arith))
          | inl q ↦ (
            λ m. (ground arith, readable-IsReadable r _ rec (rw (made, q) at m)),
            λ (_, f). rw (made, q) (IsReadable-readable r _ rec f.key f.listed f.can_read f.scoped),
          )
        ]

  module _ (digest : String → String → String → String) {F : Type 0} (fl : Floats F) where
    pub swept-record_snapshot :
        (b : B) (r : Replica) (h : Headers) (ev : Event F) (j : String)
        → laws.swept (record_snapshot kv digest fl r b h ev) j ≡ laws.swept b j
    unfolding record_snapshot
    swept-record_snapshot b r h ev j = elim (Option-cases (complete_snapshot fl ev)) [
      | inl q ↦ rw (q, record_snapshot) refl
      | inr (d, q) ↦
          let rec : SnapshotRecord = record {
            tenant = ev.tenant;
            source = ev.source;
            scope = d.scope;
            taken = d.taken;
          } in
          rw (q, record_snapshot)
            (ground
              (arith, laws.swept_snapshot b h.batch (digest ev.tenant ev.source d.scope) j rec))
    ]

    module _ (more : SnapshotLaws) where
      pub record_snapshot-IsNoted :
          (b : B) (r : Replica) (h : Headers) (ev : Event F)
          → can_be_recorded r h ≡ true
          → IsNoted kv (record_snapshot kv digest fl r b h ev) h (declared digest fl (some ev) true)
      unfolding record_snapshot
      record_snapshot-IsNoted b r h ev able = elim (Option-cases (complete_snapshot fl ev)) [
        | inl q ↦ rw (q, declared) tt
        | inr (d, q) ↦
            let rec : SnapshotRecord = record {
              tenant = ev.tenant;
              source = ev.source;
              scope = d.scope;
              taken = d.taken;
            } in
            let put = more.snapshot_put b h.batch (digest ev.tenant ev.source d.scope) rec in
            rw (q, declared, record_snapshot) (ground (arith, put))
      ]

      pub IsNoted-kept :
          (b c : B) (h : Headers) (o : Option (String × SnapshotRecord))
          → kv.snapshots c h.batch ≡ kv.snapshots b h.batch
          → IsNoted kv b h o
          → IsNoted kv c h o
      IsNoted-kept b c h none same n = tt
      IsNoted-kept b c h (some (key, rec)) same n = rw same n
