-- ===== src/Ticket.antt =====
-- Tickets for attack paths in the file-backed store (backend/internal/ticket/ticket.go). JSON and the
-- sealer are the parameter `Codec`. The clock, the random part of an id, and whether the file can
-- be written are arguments of a call, and the lock makes what a call does to the map one step. The
-- tracker that is told of a ticket has no say in what is stored, so dispatch is left out, as are a nil
-- store, the options and the text of an error.
pub mod Ledger
pub mod Runs
pub mod Again
use mathlib.Core.List.{lookup}
use Prim.Native.String
use perspectivegraph.Base.Maps.{Map, insert, values}
use perspectivegraph.Base.Sorting.{sort_by, text_before}
use perspectivegraph.Base.{
  ℕ, String, String_discrete, Bool, true, false, not, ◌&&◌, Option, none, some, List, [], ◌∷◌, ◌++◌,
  foldl, Time, is_yes, ltb, if◌then◌else◌,
}

pub data Status : Type 0 where
  is_open : Status
  is_closed : Status

pub record Ticket : Type 0 where
  pub id : String
  pub tenant : String
  pub path_id : String
  pub title : String
  pub route : String
  pub owner : String
  pub status : Status
  pub external_url : String
  pub created_at : Time
  pub closed_at : Option Time

pub data Error : Type 0 where
  missing_path_id : Error
  missing_owner : Error
  not_found : Error
  not_saved : Error
  not_readable : Error

pub data Result {ℓ} (A : Type ℓ) : Type ℓ where
  ok : A → Result A
  err : Error → Result A

-- tenantKey
abbrev pub tenant_key : String → String
tenant_key t = if is_yes (String_discrete t "") then "default" else t

-- Encoding and sealing the tickets, and the way back; none is an error of one of the two.
pub record Codec (B : Type 0) : Type 0 where
  pub encode : List Ticket → Option B
  pub decode : B → Option (List Ticket)
  -- `len(b) == 0`
  pub is_empty : B → Bool

abbrev pub ByTenant : Type 0
ByTenant = Map String (Map String Ticket)

-- The store, and the content of its file: none is a file that is not there.
pub record Store (B : Type 0) : Type 0 where
  pub has_file : Bool
  pub by_tenant : ByTenant
  pub file : Option B

-- `s.byTenant[tenant]`: a missing tenant has no tickets.
abbrev pub tenant_of : ByTenant → String → Map String Ticket
tenant_of m t = elim (lookup String_discrete t m) [ none ↦ [] | some ts ↦ ts ]

-- `t.PathID == pathID && t.Status == StatusOpen`
abbrev pub is_open_for : String → Ticket → Bool
is_open_for path t =
    is_yes (String_discrete t.path_id path) && elim t.status [ is_open ↦ true | is_closed ↦ false ]

-- openForPath
unfoldable pub open_ticket : Map String Ticket → String → Option Ticket
open_ticket [] path = none
open_ticket ((id, t) ∷ m) path =
    let rest = open_ticket m path in if is_open_for path t then some t else rest

-- The write of a ticket under its tenant and id.
unfoldable pub put_ticket : ByTenant → Ticket → ByTenant
put_ticket m t =
    insert String_discrete t.tenant (insert String_discrete t.id t (tenant_of m t.tenant)) m

-- What Create makes of a ticket for a path that has none open.
abbrev pub opened : Ticket → String → Time → Ticket
opened t random now = record t {
  id = String.◌++◌ "tk-" random;
  tenant = tenant_key t.tenant;
  status = is_open;
  created_at = now;
  closed_at = none;
  title =
      if is_yes (String_discrete t.title "")
      then String.◌++◌ "Remediate attack path " t.path_id
      else t.title;
}

-- What Close makes of a ticket.
abbrev pub closed : Ticket → Time → Ticket
closed t now = record t { status = is_closed; closed_at = some now }

unfoldable pub all_tickets : ByTenant → List Ticket
all_tickets [] = []
all_tickets ((t, ts) ∷ m) = values ts ++ all_tickets m

abbrev pub by_id : Ticket → Ticket → Bool
by_id a b =
    if is_yes (String_discrete a.tenant b.tenant)
    then text_before a.id b.id
    else text_before a.tenant b.tenant

-- What a call answers once it has tried to write the file, and the store that it leaves.
abbrev pub saved : {A B : Type 0} → Store B → A → Result (Store B) → Result A × Store B
saved s answer (ok t) = (ok answer, t)
saved s answer (err e) = (err e, s)

module _ {B : Type 0} (codec : Codec B) where
  unfoldable pub persist : Store B → Bool → Result (Store B)
  unfolding all_tickets sort_by
  persist s writable =
      if not s.has_file
      then ok s
      else elim (codec.encode (sort_by by_id (all_tickets s.by_tenant)))
          as (λ _. Result (Store B)) [
            | none ↦ err not_saved
            | some b ↦ if writable then ok (record s { file = some b }) else err not_saved
          ]

  -- The second half of Create, where the path has no open ticket.
  unfoldable pub open_new : Store B → Ticket → Bool → Result Ticket × Store B
  unfolding put_ticket persist
  open_new s t writable =
      let u : Store B = record s { by_tenant = put_ticket s.by_tenant t } in
      saved u t (persist u writable)

  -- Create
  unfoldable pub create : Store B → Ticket → String → Time → Bool → Result Ticket × Store B
  unfolding open_ticket open_new
  create s t random now writable =
      if is_yes (String_discrete t.path_id "")
      then (err missing_path_id, s)
      else if is_yes (String_discrete t.owner "")
      then (err missing_owner, s)
      else elim (open_ticket (tenant_of s.by_tenant (tenant_key t.tenant)) t.path_id)
          as (λ _. Result Ticket × Store B) [
            | some existing ↦ (ok existing, s)
            | none ↦ open_new s (opened t random now) writable
          ]

  -- Close
  unfoldable pub close : Store B → String → String → Time → Bool → Result Ticket × Store B
  unfolding persist
  close s tenant id now writable =
      let row = tenant_of s.by_tenant (tenant_key tenant) in
      elim (lookup String_discrete id row) as (λ _. Result Ticket × Store B) [
        | none ↦ (err not_found, s)
        | some t ↦
            let u : Store B = record s {
              by_tenant =
                  insert String_discrete (tenant_key tenant)
                    (insert String_discrete id (closed t now) row) s.by_tenant;
            } in
            saved u (closed t now) (persist u writable)
      ]

  -- List
  unfoldable pub list : Store B → String → List Ticket
  unfolding sort_by
  list s tenant =
      sort_by (λ a b. ltb b.created_at a.created_at)
        (values (tenant_of s.by_tenant (tenant_key tenant)))

  -- OpenForPath
  unfoldable pub open_for_path : Store B → String → String → Option Ticket
  unfolding open_ticket
  open_for_path s tenant path = open_ticket (tenant_of s.by_tenant (tenant_key tenant)) path

  -- load, of the content of the file
  unfoldable pub load : Store B → Result (Store B)
  unfolding put_ticket
  load s = elim s.file [
    | none ↦ ok s
    | some b ↦ if codec.is_empty b then ok s else elim (codec.decode b) as (λ _. Result (Store B)) [
      | none ↦ err not_readable
      | some ts ↦ ok (record s { by_tenant = foldl put_ticket s.by_tenant ts })
    ]
  ]

  -- New, on a path or none
  unfoldable pub new : Bool → Option B → Result (Store B)
  unfolding load
  new has_file file =
      let s : Store B = record { has_file = has_file; by_tenant = []; file = file } in
      if not has_file then ok s else load s
