-- ===== src/Ticket/Again.antt =====
-- A repeated Create (backend/internal/ticket/ticket.go).
use perspectivegraph.Base.Maps.{Map, insert}
use perspectivegraph.Base.{
  String, String_discrete, Bool, true, none, some, [], ◌∷◌, ◌≡◌, ◌≢◌, inl, inr, refl, arith, Time,
  Option-cases, Bool-cases,
}
use perspectivegraph.Ticket.{
  Ticket, ok, Codec, Store, tenant_key, tenant_of, is_open_for, open_ticket, put_ticket, opened,
  saved, persist, open_new, create, open_for_path,
}
use perspectivegraph.Ticket.Ledger.{here}
use perspectivegraph.Ticket.Runs.{by_tenant-saved}

open_ticket-insert :
    (id path : String) (t : Ticket) (m : Map String Ticket)
    → is_open_for path t ≡ true
    → open_ticket m path ≡ none
    → open_ticket (insert String_discrete id t m) path ≡ some t
unfolding open_ticket insert
open_ticket-insert id path t [] own h = ground arith
open_ticket-insert id path t ((k, x) ∷ m) own h = elim (Bool-cases (is_open_for path x)) [
  | inl e ↦ absurd (ground arith)
  | inr e ↦
      let rest = open_ticket-insert id path t m own (ground arith) in
      elim (String_discrete id k) [ yes q ↦ ground arith | no q ↦ ground (arith, rest) ]
]

module _ {B : Type 0} (codec : Codec B) where
  created_open :
      (s : Store B) (t : Ticket) (random : String) (now : Time) (w : Bool)
      → t.path_id ≢ ""
      → t.owner ≢ ""
      → (x : Ticket) × (open_for_path codec (create codec s t random now w).1 t.tenant t.path_id
          ≡ some x)
  unfolding create open_new open_for_path put_ticket
  created_open s t random now w path owner =
      let row = tenant_of s.by_tenant (tenant_key t.tenant) in
      elim (Option-cases (open_ticket row t.path_id)) [
        | inr (x, q) ↦
            let same : (create codec s t random now w).1 ≡ s = ground arith in (x, rw same q)
        | inl q ↦
            let n = opened t random now in
            let u : Store B = record s { by_tenant = put_ticket s.by_tenant n } in
            let made : (create codec s t random now w).1 ≡ (saved u n (persist codec u w)).1 =
              ground arith in
            let own : is_open_for t.path_id n ≡ true = ground arith in
            (
              n,
              rw (made, by_tenant-saved codec u n w, here s.by_tenant n.tenant n.id n n.tenant refl)
                  (open_ticket-insert n.id t.path_id n row own q),
            )
      ]

  found_again :
      (s : Store B) (t x : Ticket) (random : String) (now : Time) (w : Bool)
      → t.path_id ≢ ""
      → t.owner ≢ ""
      → open_for_path codec s t.tenant t.path_id ≡ some x
      → create codec s t random now w ≡ (ok x, s)
  unfolding create open_for_path
  found_again s t x random now w path owner q = ground arith

  -- After a request that names a path and an owner, the path has an open ticket, and any further request for
  -- that tenant and path that names an owner is answered with that ticket and changes neither the
  -- store nor its file. This holds also where the first request was answered with an error, because the
  -- file could not be written: the next one then succeeds although nothing was saved.
  pub create_again :
      (s : Store B) (t u : Ticket) (random random' : String) (now now' : Time) (w w' : Bool)
      → t.path_id ≢ ""
      → t.owner ≢ ""
      → u.owner ≢ ""
      → u.path_id ≡ t.path_id
      → tenant_key u.tenant ≡ tenant_key t.tenant
      → (x : Ticket) × (open_for_path codec (create codec s t random now w).1 t.tenant t.path_id
          ≡ some x)
        × (create codec (create codec s t random now w).1 u random' now' w'
            ≡ (ok x, (create codec s t random now w).1))
  unfolding open_for_path
  create_again s t u random random' now now' w w' path owner owner' same tenant =
      let (x, q) = created_open s t random now w path owner in
      let s' = (create codec s t random now w).1 in
      let at : open_for_path codec s' u.tenant u.path_id ≡ some x = rw (same, tenant) q in
      (x, q, found_again s' u x random' now' w' (rw same path) owner' at)
