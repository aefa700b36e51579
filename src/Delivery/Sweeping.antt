-- ===== src/Delivery/Sweeping.antt =====
-- What each call of the bucket keeps (backend/internal/broker: batch.go, snapshot.go).
use mathlib.Core.List.Memᴰ.{Memᴰ}
use perspectivegraph.Base.Maps.{elem, keys}
use perspectivegraph.Base.{
  ℕ, ◌<◌, ◌≤◌, String, String_discrete, true, ◌&&◌, none, some, List, ◌≡◌, inl, inr, sym, subst,
  arith, Time, if◌then◌else◌, length, Option-cases, Bool-cases,
}
use perspectivegraph.Base.Distinct.{Simple, length-keys}
use perspectivegraph.Delivery.{
  Headers, SnapshotRecord, KeyValue, Replica, track, batch_complete, sweep_is_due,
}
use perspectivegraph.Delivery.Replicas.{World, count_claims, AllReached, KeyValueLaws}

module _ {B : Type 0} (kv : KeyValue B) (laws : KeyValueLaws kv) where
  -- A batch with as many marks as it has messages.
  pub record Full (b : B) (id : String) : Type 0 where
    pub messages : ℕ
    pub tenant : String
    pub total : kv.total b id ≡ some (messages, tenant)
    pub some_messages : 0 < messages
    pub enough : messages ≤ length (kv.marks b id)

  -- What a call of the bucket leaves of a batch that was announced.
  pub record Grows (b c : B) : Type 0 where
    pub totals : (id : String) (x : ℕ × String) → kv.total b id ≡ some x → kv.total c id ≡ some x
    pub applied : (id : String) → length (kv.marks b id) ≤ length (kv.marks c id)

  pub Grows-Full : (b c : B) (id : String) → Grows b c → Full b id → Full c id
  Grows-Full b c id g f =
      let more = g.applied id in
      record {
        messages = f.messages;
        tenant = f.tenant;
        total = g.totals id (f.messages, f.tenant) f.total;
        some_messages = f.some_messages;
        enough = omega (arith, more, f.enough);
      }

  -- The marks of a batch are of messages that reached the graph, each once.
  pub record IsMarked (b : B) (reached : List (String × String)) (id : String) : Type 0 where
    pub simple : Simple (keys (kv.marks b id))
    pub of_reached :
        (seq : String)
        → elem String_discrete seq (keys (kv.marks b id)) ≡ true
        → Memᴰ (id, seq) reached

  pub record IsTracked (w : World B) : Type 0 where
    pub marks : (id : String) → IsMarked w.bucket w.reached id
    pub found_full : (id : String) → Memᴰ id w.found → Full w.bucket id
    pub claims_full : (id : String) → Memᴰ id w.claims → Full w.bucket id
    pub once : (id : String) → count_claims w.claims id ≤ (if laws.swept w.bucket id then 1 else 0)

  pub same-IsMarked :
      (b c : B) (reached : List (String × String)) (id : String)
      → kv.marks c id ≡ kv.marks b id
      → IsMarked b reached id
      → IsMarked c reached id
  same-IsMarked b c reached id q h = record {
    simple = rw q h.simple;
    of_reached = λ seq e. h.of_reached seq (rw⁻¹ q e);
  }

  pub call-IsTracked :
      (w : World B) (c : B)
      → IsTracked w
      → Grows w.bucket c
      → ((id : String) → laws.swept c id ≡ laws.swept w.bucket id)
      → ((id : String) → IsMarked c w.reached id)
      → IsTracked (record w { bucket = c })
  call-IsTracked w c h g swept marks = record {
    marks = marks;
    found_full = λ id m. Grows-Full w.bucket c id g (h.found_full id m);
    claims_full = λ id m. Grows-Full w.bucket c id g (h.claims_full id m);
    once = λ id. rw (swept id) (h.once id);
  }

  put_total-IsTracked :
      (w : World B) (id : String) (v : ℕ × String)
      → kv.total w.bucket id ≡ none
      → IsTracked w
      → IsTracked (record w { bucket = kv.put_total w.bucket id v })
  put_total-IsTracked w id v fresh h =
      let b = w.bucket in
      call-IsTracked w (kv.put_total b id v) h
        (record {
          totals = λ j x at.
              let put = laws.total_put b id j v in
              elim (String_discrete j id) [
                | yes e ↦
                    let there = subst (λ u. kv.total b u ≡ some x) e at in
                    absurd (ground (arith, there, fresh))
                | no n ↦ ground (arith, put)
              ];
          applied = λ j. rw (laws.marks_total b id j v) (omega arith);
        })
        (λ j. laws.swept_total b id j v)
        (λ j.
          same-IsMarked b (kv.put_total b id v) w.reached j (laws.marks_total b id j v) (h.marks j))

  pub put_snapshot-IsTracked :
      (w : World B) (id key : String) (rec : SnapshotRecord)
      → IsTracked w
      → IsTracked (record w { bucket = kv.put_snapshot w.bucket id key rec })
  put_snapshot-IsTracked w id key rec h =
      let b = w.bucket in
      let c = kv.put_snapshot b id key rec in
      call-IsTracked w c h
        (record {
          totals = λ j x at. rw (laws.total_snapshot b id key j rec) at;
          applied = λ j. rw (laws.marks_snapshot b id key j rec) (omega arith);
        })
        (λ j. laws.swept_snapshot b id key j rec)
        (λ j. same-IsMarked b c w.reached j (laws.marks_snapshot b id key j rec) (h.marks j))

  mark-IsMarked :
      (b : B) (reached : List (String × String)) (id seq j : String) (now : Time)
      → Memᴰ (id, seq) reached
      → IsMarked b reached j
      → IsMarked (kv.put_mark b id seq now) reached j
  mark-IsMarked b reached id seq j now mem h = elim (String_discrete j id) [
    | no n ↦
        same-IsMarked b (kv.put_mark b id seq now) reached j (laws.marks_there b id seq j now n) h
    | yes e ↦ subst (IsMarked (kv.put_mark b id seq now) reached) (sym e) (
        let old = subst (IsMarked b reached) e h in
        record {
          simple = laws.marks_once b id seq now old.simple;
          of_reached = λ x q.
              let here = laws.marks_here b id seq x now in
              elim (String_discrete x seq) [
                | yes p ↦ subst (λ y. Memᴰ (id, y) reached) (sym p) mem
                | no p ↦ old.of_reached x (ground (arith, here))
              ];
        })
  ]

  mark-Grows : (b : B) (id seq : String) (now : Time) → Grows b (kv.put_mark b id seq now)
  mark-Grows b id seq now = record {
    totals = λ j x at. rw (laws.total_mark b id seq j now) at;
    applied = λ j. elim (String_discrete j id) [
      | no n ↦ rw (laws.marks_there b id seq j now n) (omega arith)
      | yes e ↦
          subst (λ u. length (kv.marks b u) ≤ length (kv.marks (kv.put_mark b id seq now) u))
            (sym e) (laws.marks_grow b id seq now)
    ];
  }

  pub put_mark-IsTracked :
      (w : World B) (id seq : String) (now : Time)
      → Memᴰ (id, seq) w.reached
      → IsTracked w
      → IsTracked (record w { bucket = kv.put_mark w.bucket id seq now })
  put_mark-IsTracked w id seq now mem h =
      call-IsTracked w (kv.put_mark w.bucket id seq now) h (mark-Grows w.bucket id seq now)
        (λ j. laws.swept_mark w.bucket id seq j now)
        (λ j. mark-IsMarked w.bucket w.reached id seq j now mem (h.marks j))

  pub track-IsTracked :
      (w : World B) (r : Replica) (candidate tenant : String) (n : ℕ)
      → kv.total w.bucket candidate ≡ none
      → IsTracked w
      → IsTracked (record w { bucket = (track kv r w.bucket candidate n tenant).0 })
  unfolding track
  track-IsTracked w r candidate tenant n fresh h =
      elim (Bool-cases (r.has_bucket && r.can_record)) [
        | inl q ↦ rw q (put_total-IsTracked w candidate (n, tenant) fresh h)
        | inr q ↦ rw q h
      ]

  -- A batch that is found complete.
  complete-Full : (r : Replica) (b : B) (id : String) → batch_complete kv r b id ≡ true → Full b id
  unfolding batch_complete
  complete-Full r b id h = elim (Option-cases (kv.total b id)) [
    | inl q ↦ absurd (ground arith)
    | inr ((n, tenant), q) ↦ record {
      messages = n;
      tenant = tenant;
      total = q;
      some_messages = ground arith;
      enough = ground arith;
    }
  ]

  pub due-Full : (r : Replica) (b : B) (h : Headers) → sweep_is_due kv r b h ≡ true → Full b h.batch
  unfolding sweep_is_due
  due-Full r b h q = complete-Full r b h.batch (ground arith)

  pub Full-reached :
      (w : World B) (id : String) → IsTracked w → Full w.bucket id → AllReached kv w id
  Full-reached w id h f =
      let same = length-keys (kv.marks w.bucket id) in
      record {
        messages = f.messages;
        tenant = f.tenant;
        total = f.total;
        some_messages = f.some_messages;
        seqs = keys (kv.marks w.bucket id);
        different = (h.marks id).simple;
        enough = omega (arith, same, f.enough);
        all_reached = (h.marks id).of_reached;
      }
