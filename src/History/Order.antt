-- ===== src/History/Order.antt =====
-- The order of the times of a record, and that a pass keeps it (backend/internal/history/history.go).
use perspectivegraph.Base.{
  ◌≤◌, String, Bool, true, false, Option, none, some, ◌≡◌, inl, inr, refl, subst, arith, Time,
  Bool-cases,
}
use perspectivegraph.History.{Observation, PathRecord, seen_again, gone}
use perspectivegraph.History.Lifecycle.{aged}

-- What says when a path was resolved fits whether it is open.
abbrev pub Settled : Time → Bool → Time → Option Time → Type 0
Settled clock true last none = Unit {0}
Settled clock true last (some t) = ⊥
Settled clock false last none = ⊥
Settled clock false last (some t) = (last ≤ t) × (t ≤ clock)

Settled-later :
    (then' now : Time) (b : Bool) (last : Time) (o : Option Time)
    → then' ≤ now
    → Settled then' b last o
    → Settled now b last o
Settled-later then' now true last none le h = tt
Settled-later then' now true last (some t) le h = h
Settled-later then' now false last none le h = h
Settled-later then' now false last (some t) le h = omega (arith, h, le)

-- An open path has not been resolved.
open-Settled :
    (clock : Time) (b : Bool) (last last' : Time) (o : Option Time)
    → b ≡ true
    → Settled clock b last o
    → Settled clock b last' o
open-Settled clock true last last' none q h = tt
open-Settled clock true last last' (some t) q h = h
open-Settled clock false last last' o q h = absurd (ground arith)

module _ {F : Type 0} where
  -- A record of its path, whose times are in order: first seen, last seen and, exactly where the path is
  -- not open, resolved, none of them in the future.
  pub record InOrder (clock : Time) (id : String) (r : PathRecord F) : Type 0 where
    pub own : r.id ≡ id
    pub started : r.first_seen ≤ r.last_seen
    pub past : r.last_seen ≤ clock
    pub settled : Settled clock r.is_open r.last_seen r.resolved_at

  pub later-InOrder :
      (then' now : Time) (id : String) (r : PathRecord F)
      → then' ≤ now
      → InOrder then' id r
      → InOrder now id r
  later-InOrder then' now id r le h = record {
    own = h.own;
    started = h.started;
    past = omega (arith, h.past, le);
    settled = Settled-later then' now r.is_open r.last_seen r.resolved_at le h.settled;
  }

  seen_again-InOrder :
      (then' now : Time) (tenant id : String) (o : Observation F) (old : Option (PathRecord F))
      → then' ≤ now
      → o.id ≡ id
      → ((r : PathRecord F) → old ≡ some r → InOrder then' id r)
      → InOrder now id (seen_again tenant now o old)
  seen_again-InOrder then' now tenant id o none le own was = record {
    own = own;
    started = omega arith;
    past = omega arith;
    settled = tt;
  }
  seen_again-InOrder then' now tenant id o (some r) le own was =
      let h = was r refl in
      elim (Bool-cases r.is_open) [
        | inr q ↦
            rw q (record { own = h.own; started = omega arith; past = omega arith; settled = tt })
        | inl q ↦ rw q (record {
          own = h.own;
          started = omega (arith, h.started, h.past, le);
          past = omega arith;
          settled =
              subst (λ b. Settled now b now r.resolved_at) q
                (open-Settled now r.is_open r.last_seen now r.resolved_at q
                  (Settled-later then' now r.is_open r.last_seen r.resolved_at le h.settled));
        })
      ]

  gone-InOrder :
      (then' now : Time) (id : String) (r : PathRecord F)
      → then' ≤ now
      → InOrder then' id r
      → InOrder now id (gone now r)
  gone-InOrder then' now id r le h = elim (Bool-cases r.is_open) [
    | inr q ↦
        let same : r ≡ gone now r = ground arith in
        subst (InOrder now id) same (later-InOrder then' now id r le h)
    | inl q ↦ rw q (record {
      own = h.own;
      started = h.started;
      past = omega (arith, h.past, le);
      settled = (omega (arith, h.past, le), omega arith);
    })
  ]

  pub aged-InOrder :
      (then' now : Time) (tenant id : String) (o : Option (Observation F))
      (old : Option (PathRecord F)) (r : PathRecord F)
      → then' ≤ now
      → ((x : Observation F) → o ≡ some x → x.id ≡ id)
      → ((r' : PathRecord F) → old ≡ some r' → InOrder then' id r')
      → aged tenant now o old ≡ some r
      → InOrder now id r
  aged-InOrder then' now tenant id (some o) old r le own was q =
      subst (InOrder now id) (cc) (seen_again-InOrder then' now tenant id o old le (own o refl) was)
  aged-InOrder then' now tenant id none none r le own was q = absurd (ground arith)
  aged-InOrder then' now tenant id none (some r') r le own was q =
      subst (InOrder now id) (cc) (gone-InOrder then' now id r' le (was r' refl))
