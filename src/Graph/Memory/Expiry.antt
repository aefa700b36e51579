-- ===== src/Graph/Memory/Expiry.antt =====
-- What waits too long is dropped (sweepPendingLocked in backend/internal/graph/memory/memory.go).
use perspectivegraph.Base.Maps.{keys, elem-keys, range_view, foldl_inv}
use perspectivegraph.Base.{
  ◌-◌, ◌*◌, Bool, true, false, Option, none, some, ◌≡◌, refl, arith, Time, second, Option-cases,
  Bool-cases, inl, inr, ltb, if◌then◌else◌,
}
use perspectivegraph.Graph.Contract.{pending_edge_ttl}
use perspectivegraph.Graph.Memory.State.{
  Store, Parked, EdgeKey, EdgeKey-discrete, parked_at, unpark,
}
use perspectivegraph.Graph.Memory.Upsert.{expire, sweep_pending}
use perspectivegraph.Graph.Memory.Steps.{parked_at-unpark}
use perspectivegraph.Graph.Memory.Consistent.{
  IsConsistent, IsSettled, SameGraph-IsConsistent, unpark-IsConsistent,
}

module _ {F : Type 0} where
  expire-IsConsistent :
      (now : Time) (s : Store F) (k : EdgeKey) → IsConsistent s → IsConsistent (expire now s k)
  unfolding expire
  expire-IsConsistent now s k c = elim (Option-cases (parked_at s k)) [
    | inl e ↦ rw (e, expire) c
    | inr (p, e) ↦ elim (Bool-cases (ltb pending_edge_ttl (now - p.at))) [
      | inl old ↦
          rw (e, expire, old)
            (SameGraph-IsConsistent (unpark s k) _ (refl, refl, refl, refl)
              (unpark-IsConsistent s k c))
      | inr fresh ↦ rw (e, expire, fresh) c
    ]
  ]

  pub sweep_pending-IsConsistent :
      (s : Store F) (now : Time) → IsConsistent s → IsConsistent (sweep_pending s now)
  unfolding sweep_pending
  sweep_pending-IsConsistent s now c =
      elim (Bool-cases (ltb (now - s.pending_swept) (60 * second))) [
        | inl soon ↦ rw soon c
        | inr due ↦ rw due (
            foldl_inv IsConsistent (expire now) (expire-IsConsistent now) (keys s.pending) _
              (SameGraph-IsConsistent s _ (refl, refl, refl, refl) c))
      ]

  -- What becomes of a parked edge when its age is looked at.
  abbrev pub unexpired : Time → Option (Parked F) → Option (Parked F)
  unexpired now none = none
  unexpired now (some p) = if ltb pending_edge_ttl (now - p.at) then none else some p

  unexpired_idem :
      (now : Time) (o : Option (Parked F)) → unexpired now (unexpired now o) ≡ unexpired now o
  unexpired_idem now none = refl
  unexpired_idem now (some p) = ground arith

  parked_at-expire :
      (now : Time) (s : Store F) (j k : EdgeKey)
      → parked_at (expire now s k) j ≡ (elim (EdgeKey-discrete j k) as (λ _. Option (Parked F)) [
        | yes _ ↦ unexpired now (parked_at s j)
        | no _ ↦ parked_at s j
      ])
  unfolding expire
  parked_at-expire now s j k = ground (arith, parked_at-unpark s k j)

  abbrev Standing : Store F → Store F → Type 0
  Standing s t = (t.nodes ≡ s.nodes) × (t.edges ≡ s.edges)

  expire-Standing :
      (now : Time) (s t : Store F) (k : EdgeKey) → Standing s t → Standing s (expire now t k)
  unfolding expire unpark
  expire-Standing now s t k h = ground arith

  -- The minute has passed since parked edges were last looked at.
  abbrev pub due : Store F → Time → Bool
  due s now = if ltb (now - s.pending_swept) (60 * second) then false else true

  -- When a minute has passed, exactly the edges parked for longer than the TTL are dropped; before
  -- that none is.
  pub parked_at-sweep_pending :
      (s : Store F) (now : Time) (k : EdgeKey)
      → parked_at (sweep_pending s now) k
        ≡ (if due s now then unexpired now (parked_at s k) else parked_at s k)
  unfolding sweep_pending
  parked_at-sweep_pending s now k = ground (
    arith,
    range_view EdgeKey-discrete (expire now) (λ j t. parked_at t j) (λ _. unexpired now)
        (λ t i j h. ground (arith, parked_at-expire now t i j))
        (λ t j. ground (arith, parked_at-expire now t j j)) (λ _. unexpired_idem now)
        (keys s.pending) (record s { pending_swept = now }) k,
    elem-keys EdgeKey-discrete k s.pending,
  )

  pub sweep_pending-Standing :
      (s : Store F) (now : Time)
      → ((sweep_pending s now).nodes ≡ s.nodes) × ((sweep_pending s now).edges ≡ s.edges)
  unfolding sweep_pending
  sweep_pending-Standing s now = ground (
    arith,
    foldl_inv (Standing s) (expire now) (expire-Standing now s) (keys s.pending)
        (record s { pending_swept = now }) (refl, refl),
  )

  pub sweep_pending-IsSettled :
      (s : Store F) (now : Time) → IsSettled s → IsSettled (sweep_pending s now)
  sweep_pending-IsSettled s now h k q =
      ground (arith, h k, sweep_pending-Standing s now, parked_at-sweep_pending s now k)
