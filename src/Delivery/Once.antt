-- ===== src/Delivery/Once.antt =====
-- The result on the replicas of a batch (backend/internal/broker: batch.go, snapshot.go).
use mathlib.Core.List.Memᴰ.{Memᴰ}
use perspectivegraph.Base.{
  ◌≤◌, String, String_discrete, true, false, not, ◌||◌, ◌⊎◌, some, ◌∷◌, ◌≡◌, inl, inr, sym, subst,
  arith, Time, Floats, Option-cases, Bool-cases,
}
use perspectivegraph.Ontology.{Event, complete_snapshot}
use perspectivegraph.Delivery.{
  Headers, KeyValue, Replica, record_snapshot, mark_applied, sweep_is_due, claim, valid_id, is_int,
}
use perspectivegraph.Delivery.Status.{complete, batch_status}
use perspectivegraph.Delivery.Replicas.{
  World, no_batch, claimed, Reach, count_claims, AllReached, KeyValueLaws,
}
use perspectivegraph.Delivery.Sweeping.{
  Full, Grows, Grows-Full, same-IsMarked, IsTracked, put_snapshot-IsTracked, put_mark-IsTracked,
  track-IsTracked, due-Full, Full-reached,
}

module _ {B : Type 0} (kv : KeyValue B) (laws : KeyValueLaws kv) where
  start-IsTracked : IsTracked kv laws (no_batch kv)
  unfolding count_claims
  start-IsTracked = record {
    marks = λ id. record {
      simple = rw (laws.marks_fresh id) tt;
      of_reached = λ seq q. absurd (ground (arith, laws.marks_fresh id));
    };
    found_full = λ id m. elim m [ ];
    claims_full = λ id m. elim m [ ];
    once = λ id. omega arith;
  }

  handle-IsTracked :
      (w : World B) (m : String × String)
      → IsTracked kv laws w
      → IsTracked kv laws (record w { reached = m ∷ w.reached })
  handle-IsTracked w m h = record {
    marks = λ id. record {
      simple = (h.marks id).simple;
      of_reached = λ seq q. Memᴰ.tail ((h.marks id).of_reached seq q);
    };
    found_full = h.found_full;
    claims_full = h.claims_full;
    once = h.once;
  }

  mark-IsTracked :
      (w : World B) (r : Replica) (hd : Headers) (now : Time)
      → Memᴰ (hd.batch, hd.seq) w.reached
      → IsTracked kv laws w
      → IsTracked kv laws (record w { bucket = mark_applied kv r w.bucket hd now })
  unfolding mark_applied
  mark-IsTracked w r hd now mem h =
      let written = put_mark-IsTracked kv laws w hd.batch hd.seq now mem h in
      elim (Bool-cases (not r.has_bucket || not (valid_id hd.batch))) [
        | inl p ↦ rw p h
        | inr p ↦ rw p (elim (Bool-cases (is_int hd.seq)) [
          | inr q ↦ rw q h
          | inl q ↦ rw q (elim (Bool-cases r.can_mark) [ inr c ↦ rw c h | inl c ↦ rw c written ])
        ])
      ]

  check-IsTracked :
      (w : World B) (r : Replica) (hd : Headers)
      → sweep_is_due kv r w.bucket hd ≡ true
      → IsTracked kv laws w
      → IsTracked kv laws (record w { found = hd.batch ∷ w.found })
  check-IsTracked w r hd q h = record {
    marks = h.marks;
    found_full = λ id m. elim m [
      | Memᴰ.head e ↦
          subst (λ u. Full kv laws w.bucket u) (sym e) (due-Full kv laws r w.bucket hd q)
      | Memᴰ.tail m' ↦ h.found_full id m'
    ];
    claims_full = h.claims_full;
    once = h.once;
  }

  won-IsTracked :
      (w : World B) (id : String) (c : B)
      → Memᴰ id w.found
      → kv.create_swept w.bucket id ≡ some c
      → IsTracked kv laws w
      → IsTracked kv laws (record w { bucket = c; claims = id ∷ w.claims })
  unfolding count_claims
  won-IsTracked w id c mem made h =
      let grows : Grows kv laws w.bucket c = record {
        totals = λ j x at. rw (laws.total_swept w.bucket c id j made) at;
        applied = λ j. rw (laws.marks_swept w.bucket c id j made) (omega arith);
      } in
      let full : (j : String) → Full kv laws w.bucket j → Full kv laws c j =
        λ j f. Grows-Full kv laws w.bucket c j grows f in
      record {
        marks = λ j.
            same-IsMarked kv laws w.bucket c w.reached j (laws.marks_swept w.bucket c id j made)
              (h.marks j);
        found_full = λ j m. full j (h.found_full j m);
        claims_full = λ j m. elim m [
          | Memᴰ.head e ↦
              full j (subst (λ u. Full kv laws w.bucket u) (sym e) (h.found_full id mem))
          | Memᴰ.tail m' ↦ full j (h.claims_full j m')
        ];
        once = λ j.
            let (free, now_there) = laws.swept_create w.bucket c id j made in
            let before = h.once j in
            elim (String_discrete j id) [
              | yes e ↦
                  let none_yet = subst (λ u. laws.swept w.bucket u ≡ false) (sym e) free in
                  ground (arith, before, none_yet, now_there)
              | no e ↦ ground (arith, before, now_there)
            ];
      }

  claim-IsTracked :
      (w : World B) (r : Replica) (id : String)
      → Memᴰ id w.found
      → IsTracked kv laws w
      → IsTracked kv laws (claimed w id (claim kv r w.bucket id))
  unfolding claim
  claim-IsTracked w r id mem h = elim (Option-cases (kv.create_swept w.bucket id)) [
    | inl q ↦ rw (q, claim) h
    | inr (c, q) ↦ elim (Bool-cases r.can_claim) [
      | inl p ↦ rw (q, p, claim) (won-IsTracked w id c mem q h)
      | inr p ↦ rw (q, p, claim) h
    ]
  ]

  status-Full :
      (r : Replica) (b : B) (id : String)
      → complete (batch_status kv r b id).0 ≡ true
      → Full kv laws b id
  unfolding batch_status
  status-Full r b id h =
      elim (Bool-cases (not r.has_bucket || not (valid_id id) || not r.can_read_total)) [
        | inl p ↦ absurd (ground arith)
        | inr p ↦ elim (Option-cases (kv.total b id)) [
          | inl q ↦ absurd (ground arith)
          | inr ((n, tenant), q) ↦ elim (Bool-cases r.can_count) [
            | inr c ↦ absurd (ground arith)
            | inl c ↦ record {
              messages = n;
              tenant = tenant;
              total = q;
              some_messages = ground arith;
              enough = ground arith;
            }
          ]
        ]
      ]

  module _ (digest : String → String → String → String) {F : Type 0} (fl : Floats F) where
    snapshot-IsTracked :
        (w : World B) (r : Replica) (hd : Headers) (ev : Event F)
        → IsTracked kv laws w
        → IsTracked kv laws (record w { bucket = record_snapshot kv digest fl r w.bucket hd ev })
    unfolding record_snapshot
    snapshot-IsTracked w r hd ev h = elim (Option-cases (complete_snapshot fl ev)) [
      | inl q ↦ rw (q, record_snapshot) h
      | inr (d, q) ↦
          rw (q, record_snapshot)
            (elim (Bool-cases (not r.has_sweeper || not r.has_bucket || not (valid_id hd.batch))) [
              | inl p ↦ rw p h
              | inr p ↦ rw p (elim (Bool-cases r.can_record) [
                | inr t ↦ rw t h
                | inl t ↦ rw t (
                    put_snapshot-IsTracked kv laws w hd.batch (digest ev.tenant ev.source d.scope)
                      (record {
                        tenant = ev.tenant;
                        source = ev.source;
                        scope = d.scope;
                        taken = d.taken;
                      })
                      h)
              ])
            ])
    ]

    Reach-IsTracked : (w : World B) → Reach kv digest fl w → IsTracked kv laws w
    Reach-IsTracked w Reach.start = start-IsTracked
    Reach-IsTracked w (Reach.tracked {w = v} r candidate tenant n fresh reach) =
        track-IsTracked kv laws v r candidate tenant n fresh (Reach-IsTracked v reach)
    Reach-IsTracked w (Reach.handled {w = v} h reach) =
        handle-IsTracked v (h.batch, h.seq) (Reach-IsTracked v reach)
    Reach-IsTracked w (Reach.recorded {w = v} r h ev reach) =
        snapshot-IsTracked v r h ev (Reach-IsTracked v reach)
    Reach-IsTracked w (Reach.marked {w = v} r h now mem reach) =
        mark-IsTracked v r h now mem (Reach-IsTracked v reach)
    Reach-IsTracked w (Reach.checked {w = v} r h due reach) =
        check-IsTracked v r h due (Reach-IsTracked v reach)
    Reach-IsTracked w (Reach.tried {w = v} r id mem reach) =
        claim-IsTracked v r id mem (Reach-IsTracked v reach)

    -- In whatever order the replicas handle, record, mark, check and claim, with redelivered messages and
    -- calls of the bucket that fail, where no two batches have the same id and the bucket does what
    -- `KeyValueLaws` says: the sweep of a batch is claimed at most once, and where it was claimed, or
    -- where BatchStatus gives a complete batch, as many different messages of the batch have reached
    -- the graph as it has, and it has some.
    pub swept_after_all :
        (w : World B) (r : Replica) (id : String)
        → Reach kv digest fl w
        → Memᴰ id w.claims ⊎ (complete (batch_status kv r w.bucket id).0 ≡ true)
        → AllReached kv w id × (count_claims w.claims id ≤ 1)
    swept_after_all w r id reach taken =
        let h = Reach-IsTracked w reach in
        let once = h.once id in
        (
          Full-reached kv laws w id h
              (elim taken [ inl m ↦ h.claims_full id m | inr q ↦ status-Full r w.bucket id q ]),
          ground (arith, once),
        )
