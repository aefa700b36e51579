-- ===== src/Ticket/Ledger.antt =====
-- What holds of every store of tickets that calls lead to (backend/internal/ticket/ticket.go).
use mathlib.Core.List.{lookup}
use perspectivegraph.Base.Maps.{Map, insert, lookup-insert}
use perspectivegraph.Base.{
  ℕ, ◌+◌, ◌≤◌, String, String_discrete, true, false, none, some, [], ◌∷◌, ◌≡◌, ◌≢◌, inl, inr, refl,
  sym, subst, arith, Time, is_some, if◌then◌else◌, Bool-cases,
}
use perspectivegraph.Ticket.{
  is_open, is_closed, Ticket, ByTenant, tenant_key, tenant_of, is_open_for, open_ticket, put_ticket,
  opened, closed,
}

-- The open tickets for a path among a tenant's.
unfoldable pub count_open : Map String Ticket → String → ℕ
count_open [] path = 0
count_open ((id, t) ∷ m) path = (if is_open_for path t then 1 else 0) + count_open m path

count_open-insert :
    (id path : String) (t : Ticket) (m : Map String Ticket)
    → count_open (insert String_discrete id t m) path
      ≤ count_open m path + (if is_open_for path t then 1 else 0)
unfolding count_open insert
count_open-insert id path t [] = ground arith
count_open-insert id path t ((k, x) ∷ m) =
    let rest = count_open-insert id path t m in
    elim (String_discrete id k) [ yes e ↦ ground arith | no e ↦ ground (arith, rest) ]

none_open :
    (path : String) (m : Map String Ticket) → open_ticket m path ≡ none → count_open m path ≡ 0
unfolding count_open open_ticket
none_open path [] h = refl
none_open path ((k, x) ∷ m) h = elim (Bool-cases (is_open_for path x)) [
  | inl e ↦ absurd (ground arith)
  | inr e ↦ let rest = none_open path m (ground arith) in ground (arith, rest)
]

-- A ticket stands under its own id and tenant, has an owner and a path, and a time of closing where it is
-- closed and only there.
pub record IsFiled (tenant id : String) (t : Ticket) : Type 0 where
  pub own_id : t.id ≡ id
  pub own_tenant : t.tenant ≡ tenant
  pub has_owner : t.owner ≢ ""
  pub has_path : t.path_id ≢ ""
  pub stamped : is_some t.closed_at ≡ elim t.status [ is_open ↦ false | is_closed ↦ true ]

pub record IsLedger (m : ByTenant) : Type 0 where
  pub once : (tenant path : String) → count_open (tenant_of m tenant) path ≤ 1
  pub filed :
      (tenant id : String) (t : Ticket)
      → lookup String_discrete id (tenant_of m tenant) ≡ some t
      → IsFiled tenant id t

-- A write of one ticket under a tenant and an id.
abbrev pub write : ByTenant → String → String → Ticket → ByTenant
write m tenant id t =
    insert String_discrete tenant (insert String_discrete id t (tenant_of m tenant)) m

module _ (m : ByTenant) (tenant id : String) (t : Ticket) where
  abbrev row : Map String Ticket
  row = insert String_discrete id t (tenant_of m tenant)

  pub here : (u : String) → u ≡ tenant → tenant_of (write m tenant id t) u ≡ row
  here u e = ground (arith, lookup-insert String_discrete u tenant row m)

  elsewhere : (u : String) → u ≢ tenant → tenant_of (write m tenant id t) u ≡ tenant_of m u
  elsewhere u n = ground (arith, lookup-insert String_discrete u tenant row m)

  IsFiled-row :
      (i : String) (x : Ticket)
      → IsLedger m
      → IsFiled tenant id t
      → lookup String_discrete i row ≡ some x
      → IsFiled tenant i x
  IsFiled-row i x h own q =
      let put = lookup-insert String_discrete i id t (tenant_of m tenant) in
      elim (String_discrete i id) [
        | yes e ↦
            let same : t ≡ x = ground (arith, put) in
            subst (λ y. IsFiled tenant i y) same (subst (λ j. IsFiled tenant j t) (sym e) own)
        | no n ↦ h.filed tenant i x (ground (arith, put))
      ]

  pub write-IsLedger :
      IsLedger m
      → IsFiled tenant id t
      → ((path : String)
          → count_open (tenant_of m tenant) path + (if is_open_for path t then 1 else 0) ≤ 1)
      → IsLedger (write m tenant id t)
  write-IsLedger h own room = record {
    once = λ u path. elim (String_discrete u tenant) [
      | yes e ↦
          let more = count_open-insert id path t (tenant_of m tenant) in
          rw (here u e) (omega (arith, more, room path))
      | no n ↦ rw (elsewhere u n) (h.once u path)
    ];
    filed = λ u i x q. elim (String_discrete u tenant) [
      | yes e ↦
          let at : lookup String_discrete i row ≡ some x = rw⁻¹ (here u e) q in
          subst (λ v. IsFiled v i x) (sym e) (IsFiled-row i x h own at)
      | no n ↦ h.filed u i x (rw⁻¹ (elsewhere u n) q)
    ];
  }

-- A ticket that is opened where the path has none open.
pub opened-IsLedger :
    (m : ByTenant) (t : Ticket) (random : String) (now : Time)
    → IsLedger m
    → t.owner ≢ ""
    → t.path_id ≢ ""
    → open_ticket (tenant_of m (tenant_key t.tenant)) t.path_id ≡ none
    → IsLedger (put_ticket m (opened t random now))
unfolding put_ticket
opened-IsLedger m t random now h owner path free =
    let n = opened t random now in
    let empty = none_open t.path_id (tenant_of m (tenant_key t.tenant)) free in
    write-IsLedger m n.tenant n.id n h
      (record {
        own_id = refl;
        own_tenant = refl;
        has_owner = owner;
        has_path = path;
        stamped = refl;
      })
      (λ p. elim (String_discrete t.path_id p) [
        | yes e ↦
            let none_here =
              subst (λ v. count_open (tenant_of m (tenant_key t.tenant)) v ≡ 0) e empty in
            ground (arith, none_here)
        | no e ↦ let one = h.once (tenant_key t.tenant) p in ground (arith, one)
      ])

-- A ticket that is closed.
pub closed-IsLedger :
    (m : ByTenant) (tenant id : String) (t : Ticket) (now : Time)
    → IsLedger m
    → lookup String_discrete id (tenant_of m tenant) ≡ some t
    → IsLedger (write m tenant id (closed t now))
closed-IsLedger m tenant id t now h q =
    let f = h.filed tenant id t q in
    write-IsLedger m tenant id (closed t now) h
      (record {
        own_id = f.own_id;
        own_tenant = f.own_tenant;
        has_owner = f.has_owner;
        has_path = f.has_path;
        stamped = refl;
      })
      (λ p. let one = h.once tenant p in ground (arith, one))
