-- ===== src/Delivery/Composed.antt =====
-- One delivery of the consumer, as steps of its replica (backend/internal/broker/nats.go, Consume).
use mathlib.Core.List.Memᴰ.{Memᴰ}
use perspectivegraph.Base.{
  ℕ, zero, suc, String_discrete, ◌&&◌, ◌∙◌, ◌*◌, ltb, if◌then◌else◌, second, String, Bool, true,
  false, ◌⊎◌, Option, none, some, List, [], ◌∷◌, ◌≡◌, ◌↔◌, sym, inl, inr, refl, arith, Time, Floats,
  Bool-cases,
}
use perspectivegraph.Base.Maps.{elem, keys}
use perspectivegraph.Ontology.{Event}
use perspectivegraph.Delivery.{
  Headers, KeyValue, Replica, sweep_is_due, claim, maybe_sweep, SnapshotRecord, mark_applied,
  record_snapshot, valid_id, is_int,
}
use perspectivegraph.Delivery.Consumer.{
  Verdict, ack, retry_in, dead_letter, retry_or_dead_letter, consume,
}
use perspectivegraph.Delivery.Calls.{
  SnapshotLaws, IsReadable, wins, can_be_recorded, declared, IsNoted, IsNoted-kept, mem-maybe_sweep,
  maybe_sweep-SameBatch, snapshots-mark_applied, swept-mark_applied, swept-record_snapshot,
  record_snapshot-IsNoted,
}
use perspectivegraph.Delivery.Replicas.{World, claimed, Reach, KeyValueLaws}

module _ {B : Type 0} (kv : KeyValue B) (digest : String → String → String → String) {F : Type 0}
    (fl : Floats F) where
  -- The worlds a replica can lead to from a bucket, and the sweeps that it makes there.
  record Leads (w : World B) (id : String) (after : B × List SnapshotRecord) : Type 0 where
    world : World B
    reach : Reach kv digest fl world
    same : world.bucket ≡ after.0
    reached : world.reached ≡ w.reached
    swept : (after.1 ≡ []) ⊎ Memᴰ id world.claims

  sweep-Leads :
      (w : World B) (r : Replica) (h : Headers)
      → Reach kv digest fl w
      → Leads w h.batch (maybe_sweep kv r w.bucket h)
  unfolding maybe_sweep
  sweep-Leads w r h reach = elim (Bool-cases (sweep_is_due kv r w.bucket h)) [
    | inr q ↦ record {
      world = w;
      reach = reach;
      same = ground arith;
      reached = refl;
      swept = inl (ground arith);
    }
    | inl q ↦
        let found = Reach.checked r h q reach in
        let tried = Reach.tried r h.batch (Memᴰ.head refl) found in
        elim (Bool-cases (claim kv r w.bucket h.batch).1) [
          | inr c ↦ record {
            world =
                claimed (record w { found = h.batch ∷ w.found }) h.batch
                  (claim kv r w.bucket h.batch);
            reach = tried;
            same = ground arith;
            reached = refl;
            swept = inl (ground arith);
          }
          | inl c ↦ record {
            world =
                claimed (record w { found = h.batch ∷ w.found }) h.batch
                  (claim kv r w.bucket h.batch);
            reach = tried;
            same = ground arith;
            reached = refl;
            swept = inr (rw c (Memᴰ.head refl));
          }
        ]
  ]

  -- The message was an event, and the handler succeeded on it.
  abbrev pub succeeded : Option (Event F) → Bool → Bool
  succeeded none handled = false
  succeeded (some ev) handled = handled

  -- The wait before a message is tried again, by how often it was delivered.
  abbrev pub wait : ℕ → Time
  wait zero = second
  wait (suc zero) = second
  wait (suc (suc zero)) = 5 * second
  wait (suc (suc (suc zero))) = 15 * second
  wait (suc (suc (suc (suc zero)))) = 30 * second
  wait (suc (suc (suc (suc (suc n))))) = 60 * second

  -- What a delivery has earned: the eighth failure is the last.
  abbrev pub earned : Option (Event F) → Bool → ℕ → Verdict
  earned none handled attempt = dead_letter
  earned (some ev) true attempt = ack
  earned (some ev) false attempt = if ltb attempt 8 then retry_in (wait attempt) else dead_letter

  retry_or_dead_letter-wait :
      (attempt : ℕ)
      → retry_or_dead_letter attempt
        ≡ (if ltb attempt 8 then retry_in (wait attempt) else dead_letter)
  unfolding retry_or_dead_letter
  retry_or_dead_letter-wait zero = refl
  retry_or_dead_letter-wait (suc zero) = refl
  retry_or_dead_letter-wait (suc (suc zero)) = refl
  retry_or_dead_letter-wait (suc (suc (suc zero))) = refl
  retry_or_dead_letter-wait (suc (suc (suc (suc zero)))) = refl
  retry_or_dead_letter-wait (suc (suc (suc (suc (suc n))))) = ground arith

  -- The mark of a message can be written.
  abbrev pub can_be_marked : Replica → Headers → Bool
  can_be_marked r h = r.has_bucket && valid_id h.batch && is_int h.seq && r.can_mark

  abbrev is_marked : B → Headers → Bool
  is_marked b h = elem String_discrete h.seq (keys (kv.marks b h.batch))

  module _ (laws : KeyValueLaws kv) where
    -- One delivery: `v` is the world after it.
    pub record Delivered (w v : World B) (r : Replica) (h : Headers) (body : Option (Event F))
        (handled : Bool) (attempt : ℕ) (now : Time) : Type 0 where
      pub reach : Reach kv digest fl v
      pub bucket : v.bucket ≡ (consume kv digest fl r w.bucket h body handled attempt now).0
      pub reached :
          v.reached ≡ (if succeeded body handled then (h.batch, h.seq) ∷ w.reached else w.reached)
      pub verdict :
          (consume kv digest fl r w.bucket h body handled attempt now).1
          ≡ earned body handled attempt
      pub idle : (succeeded body handled ≡ true) ⊎ (v.bucket ≡ w.bucket)
      pub recorded :
          (can_be_recorded r h ≡ false) ⊎ IsNoted kv v.bucket h (declared digest fl body handled)
      pub marked :
          (succeeded body handled && can_be_marked r h ≡ false) ⊎ (is_marked v.bucket h ≡ true)
      pub sweeps :
          (rec : SnapshotRecord)
          → (Memᴰ rec (consume kv digest fl r w.bucket h body handled attempt now).2
              ↔ (succeeded body handled && (wins kv laws r h w.bucket v.bucket && r.can_list)
                  ≡ true)
                × IsReadable r (kv.snapshots v.bucket h.batch) rec)
      pub claimed :
          ((consume kv digest fl r w.bucket h body handled attempt now).2 ≡ [])
          ⊎ Memᴰ h.batch v.claims

    marked_now :
        (b : B) (r : Replica) (h : Headers) (now : Time)
        → can_be_marked r h ≡ true
        → is_marked (mark_applied kv r b h now) h ≡ true
    unfolding mark_applied
    marked_now b r h now q =
        let made : mark_applied kv r b h now ≡ kv.put_mark b h.batch h.seq now = ground arith in
        rw made (elim (String_discrete h.seq h.seq) [
          | yes e ↦ ground (arith, laws.marks_here b h.batch h.seq h.seq now)
          | no n ↦ absurd (n refl)
        ])

    -- A delivery without success: nothing is done but to answer.
    idle-Delivered :
        (w : World B) (r : Replica) (h : Headers) (body : Option (Event F)) (attempt : ℕ)
        (now : Time)
        → Reach kv digest fl w
        → Delivered w w r h body false attempt now
    unfolding consume
    idle-Delivered w r h none attempt now reach = record {
      reach = reach;
      bucket = refl;
      reached = refl;
      verdict = refl;
      idle = inr refl;
      recorded = inr tt;
      marked = inl refl;
      sweeps = λ rec. (λ m. absurd (elim m [ ]), λ (q, _). absurd (ground arith));
      claimed = inl refl;
    }
    idle-Delivered w r h (some ev) attempt now reach = record {
      reach = reach;
      bucket = refl;
      reached = refl;
      verdict = retry_or_dead_letter-wait attempt;
      idle = inr refl;
      recorded = inr tt;
      marked = inl refl;
      sweeps = λ rec. (λ m. absurd (elim m [ ]), λ (q, _). absurd (ground arith));
      claimed = inl refl;
    }

    module _ (more : SnapshotLaws kv laws) where
      -- A delivery to a replica, whatever its body, its outcome and the calls of the bucket that fail, is
      -- made of steps of the replicas. A body that is no event is dead-lettered; a message on which the
      -- handler fails is tried again after 1, 5, 15, 30 and then 60 seconds, and is dead-lettered at the
      -- eighth failure: both leave the bucket as it was, sweep nothing, and count as not reached. One on
      -- which the handler succeeds is acknowledged, counts as reached, is marked where its id and number
      -- are well-formed and the mark can be written, and has the snapshot that it declares recorded
      -- where that can be written. It sweeps exactly where the message is of a snapshot batch, all of the
      -- batch is marked then, no one had claimed the sweep before, and the replica can tell, claim
      -- and list: each snapshot of the batch that can be read and has a scope. Where it sweeps, it has
      -- claimed the sweep.
      pub consume_steps :
          (w : World B) (r : Replica) (h : Headers) (body : Option (Event F)) (handled : Bool)
          (attempt : ℕ) (now : Time)
          → Reach kv digest fl w
          → (v : World B) × Delivered w v r h body handled attempt now
      unfolding consume
      consume_steps w r h none handled attempt now reach = (
        w,
        let d = idle-Delivered w r h none attempt now reach in
            record {
              reach = reach;
              bucket = refl;
              reached = refl;
              verdict = refl;
              idle = inr refl;
              recorded = inr tt;
              marked = inl refl;
              sweeps = d.sweeps;
              claimed = inl refl;
            },
      )
      consume_steps w r h (some ev) false attempt now reach =
          (w, idle-Delivered w r h (some ev) attempt now reach)
      consume_steps w r h (some ev) true attempt now reach =
          let steps =
            Reach.marked r h now (Memᴰ.head refl) (Reach.recorded r h ev (Reach.handled h reach)) in
          let l = sweep-Leads _ r h steps in
          let recorded = record_snapshot kv digest fl r w.bucket h ev in
          let marked = mark_applied kv r recorded h now in
          let kept = maybe_sweep-SameBatch kv laws more r marked h in
          let unswept : laws.swept marked h.batch ≡ laws.swept w.bucket h.batch =
            swept-mark_applied kv laws recorded r h now h.batch
            ∙ swept-record_snapshot kv laws digest fl w.bucket r h ev h.batch in
          (
            l.world,
            record {
              reach = l.reach;
              bucket = l.same;
              reached = l.reached;
              verdict = refl;
              idle = inl refl;
              recorded = elim (Bool-cases (can_be_recorded r h)) [
                | inr q ↦ inl q
                | inl q ↦ inr (
                    rw l.same (
                      IsNoted-kept kv laws digest fl more recorded (maybe_sweep kv r marked h).0 h
                        (declared digest fl (some ev) true)
                        (kept.snapshots h.batch
                          ∙ snapshots-mark_applied kv laws more recorded r h now h.batch)
                        (record_snapshot-IsNoted kv laws digest fl more w.bucket r h ev q)))
              ];
              marked = elim (Bool-cases (can_be_marked r h)) [
                | inr q ↦ inl q
                | inl q ↦ inr (rw (l.same, kept.marks h.batch) (marked_now recorded r h now q))
              ];
              sweeps = λ rec.
                  let (to, from) = mem-maybe_sweep kv laws more r marked h rec in
                  rw (l.same, sym unswept) (to, from);
              claimed = l.swept;
            },
          )
