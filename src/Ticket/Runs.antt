-- ===== src/Ticket/Runs.antt =====
-- Whatever calls were made, the tickets are in order (backend/internal/ticket/ticket.go).
use mathlib.Core.List.{lookup}
use perspectivegraph.Base.{
  String, String_discrete, Bool, Option, [], ◌≡◌, inl, inr, arith, Time, Option-cases,
}
use perspectivegraph.Ticket.{
  Ticket, ok, Codec, Store, tenant_key, tenant_of, open_ticket, put_ticket, opened, closed, saved,
  persist, open_new, create, close, new, by_id, all_tickets,
}
use perspectivegraph.Base.Sorting.{sort_by}
use perspectivegraph.Ticket.Ledger.{count_open, IsLedger, write, opened-IsLedger, closed-IsLedger}

module _ {B : Type 0} (codec : Codec B) where
  pub by_tenant-saved :
      {A : Type 0} (s : Store B) (a : A) (writable : Bool)
      → (saved s a (persist codec s writable)).1.by_tenant ≡ s.by_tenant
  unfolding persist
  by_tenant-saved s a writable =
      elim (Option-cases (codec.encode (sort_by by_id (all_tickets s.by_tenant)))) [
        | inl q ↦ ground arith
        | inr (b, q) ↦ ground arith
      ]

  -- The stores that a new one without tickets in its file can become.
  pub data Reach : Store B → Type 0 where
    started :
        {s : Store B} (has_file : Bool) (file : Option B)
        → new codec has_file file ≡ ok s
        → s.by_tenant ≡ []
        → Reach s
    created :
        {s : Store B} (t : Ticket) (random : String) (now : Time) (w : Bool)
        → Reach s
        → Reach (create codec s t random now w).1
    shut :
        {s : Store B} (tenant id : String) (now : Time) (w : Bool)
        → Reach s
        → Reach (close codec s tenant id now w).1

  create-IsLedger :
      (s : Store B) (t : Ticket) (random : String) (now : Time) (w : Bool)
      → IsLedger s.by_tenant
      → IsLedger (create codec s t random now w).1.by_tenant
  unfolding create open_new
  create-IsLedger s t random now w h =
      let kept : ((create codec s t random now w).1 ≡ s)
          → IsLedger (create codec s t random now w).1.by_tenant =
        λ q. rw q h in
      elim (String_discrete t.path_id "") [
        | yes e ↦ kept (ground arith)
        | no path ↦ elim (String_discrete t.owner "") [
          | yes e ↦ kept (ground arith)
          | no owner ↦
              elim (Option-cases
                (open_ticket (tenant_of s.by_tenant (tenant_key t.tenant)) t.path_id)) [
                  | inr (x, q) ↦ kept (ground arith)
                  | inl q ↦
                      let n = opened t random now in
                      let u : Store B = record s { by_tenant = put_ticket s.by_tenant n } in
                      let made : (create codec s t random now w).1
                          ≡ (saved u n (persist codec u w)).1 =
                        ground arith in
                      rw (made, by_tenant-saved u n w)
                        (opened-IsLedger s.by_tenant t random now h owner path q)
                ]
        ]
      ]

  close-IsLedger :
      (s : Store B) (tenant id : String) (now : Time) (w : Bool)
      → IsLedger s.by_tenant
      → IsLedger (close codec s tenant id now w).1.by_tenant
  unfolding close
  close-IsLedger s tenant id now w h =
      let row = tenant_of s.by_tenant (tenant_key tenant) in
      elim (Option-cases (lookup String_discrete id row)) [
        | inl q ↦ rw (q, close) h
        | inr (t, q) ↦
            rw
              (
                q,
                close,
                by_tenant-saved
                    (record s {
                      by_tenant = write s.by_tenant (tenant_key tenant) id (closed t now);
                    })
                    (closed t now) w,
              )
              (closed-IsLedger s.by_tenant (tenant_key tenant) id t now h q)
      ]

  -- In every store that calls of Create and Close lead to from one with no tickets, also where a write of
  -- the file failed or two random ids were the same, a tenant has at most one open ticket for a
  -- path, and each ticket stands under its own tenant and id, has an owner and a path, and has a time
  -- of closing where it is closed and only there.
  pub Reach-IsLedger : (s : Store B) → Reach s → IsLedger s.by_tenant
  unfolding count_open lookup
  Reach-IsLedger s (Reach.started has_file file h empty) =
      rw empty (record {
        once = λ tenant path. omega arith;
        filed = λ tenant id t q. absurd (ground arith);
      })
  Reach-IsLedger s (Reach.created {s = u} t random now w reach) =
      create-IsLedger u t random now w (Reach-IsLedger u reach)
  Reach-IsLedger s (Reach.shut {s = u} tenant id now w reach) =
      close-IsLedger u tenant id now w (Reach-IsLedger u reach)
