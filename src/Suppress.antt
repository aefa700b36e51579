-- ===== src/Suppress.antt =====
-- Suppressions of attack paths in the file-backed store (backend/internal/suppress/suppress.go). JSON and
-- the sealer are the parameter `Codec`; whether the file can be written is an argument of a call, and
-- the lock makes a call one step. A nil store, the options and the text of an error are left out.
pub mod Table
pub mod Refine
pub mod Promise
pub mod Saved
use mathlib.Core.List.{lookup}
use perspectivegraph.Base.Maps.{Map, insert, erase, values}
use perspectivegraph.Base.Sorting.{sort_by, text_before}
use perspectivegraph.Base.{
  ℕ, String, String_discrete, Bool, true, false, not, ◌&&◌, ◌||◌, Option, none, some, List, [], ◌∷◌,
  ◌++◌, foldl, Time, is_yes, ltb, ◌==◌, if◌then◌else◌,
}

-- A zero `created_at` is one that is not set.
pub record Record : Type 0 where
  pub path_id : String
  pub tenant : String
  pub reason : String
  pub owner : String
  pub note : String
  pub created_at : Time
  pub expires_at : Option Time

pub data Error : Type 0 where
  missing_path_id : Error
  missing_owner : Error
  invalid_reason : Error
  not_saved : Error
  not_readable : Error

pub data Result {ℓ} (A : Type ℓ) : Type ℓ where
  ok : A → Result A
  err : Error → Result A

-- ValidReason
abbrev pub valid_reason : String → Bool
valid_reason r =
    is_yes (String_discrete r "accept-risk")
    || is_yes (String_discrete r "false-positive")
    || is_yes (String_discrete r "mitigating-control")
    || is_yes (String_discrete r "duplicate")

-- tenantKey
abbrev pub tenant_key : String → String
tenant_key t = if is_yes (String_discrete t "") then "default" else t

-- Active
abbrev pub active : Record → Time → Bool
active r t = elim r.expires_at [ none ↦ true | some e ↦ ltb t e ]

-- normalize; a time is the same in UTC.
unfoldable pub normalize : Record → Time → Result Record
normalize r now =
    if is_yes (String_discrete r.path_id "")
    then err missing_path_id
    else if is_yes (String_discrete r.owner "")
    then err missing_owner
    else if not (valid_reason r.reason)
    then err invalid_reason
    else ok (record r {
      tenant = tenant_key r.tenant;
      created_at = if r.created_at == 0 then now else r.created_at;
    })

-- Encoding and sealing the records, and the way back; none is an error of one of the two.
pub record Codec (B : Type 0) : Type 0 where
  pub encode : List Record → Option B
  pub decode : B → Option (List Record)
  -- `len(b) == 0`
  pub is_empty : B → Bool

abbrev pub ByTenant : Type 0
ByTenant = Map String (Map String Record)

-- The store, and the content of its file: none is a file that is not there.
pub record Store (B : Type 0) : Type 0 where
  pub has_file : Bool
  pub by_tenant : ByTenant
  pub file : Option B

-- `s.byTenant[t]`: a missing tenant has no records.
abbrev pub tenant_of : ByTenant → String → Map String Record
tenant_of m t = elim (lookup String_discrete t m) [ none ↦ [] | some rs ↦ rs ]

-- `s.byTenant[t][p]`
abbrev pub held : ByTenant → String → String → Option Record
held m t p = lookup String_discrete p (tenant_of m t)

-- The write of Put, and of the loop of load.
unfoldable pub keep : ByTenant → Record → ByTenant
keep m r =
    insert String_discrete r.tenant (insert String_discrete r.path_id r (tenant_of m r.tenant)) m

unfoldable pub all_records : ByTenant → List Record
all_records [] = []
all_records ((t, rs) ∷ m) = values rs ++ all_records m

abbrev pub by_path : Record → Record → Bool
by_path a b =
    if is_yes (String_discrete a.tenant b.tenant)
    then text_before a.path_id b.path_id
    else text_before a.tenant b.tenant

-- The order of List: newest first.
abbrev pub newest : Record → Record → Bool
newest a b =
    if a.created_at == b.created_at
    then text_before a.path_id b.path_id
    else ltb b.created_at a.created_at

abbrev pub active_of : Time → Map String Record → Map String Record
active_of now [] = []
active_of now ((id, r) ∷ m) =
    let rest = active_of now m in if active r now then (id, r) ∷ rest else rest

-- The removal of Delete: a tenant with no records stays without.
unfoldable pub drop_path : ByTenant → String → String → ByTenant
drop_path m tenant path = elim (lookup String_discrete tenant m) [
  | none ↦ m
  | some rs ↦ insert String_discrete tenant (erase String_discrete path rs) m
]

-- What a call answers once it has tried to write the file, and the store that it leaves.
abbrev pub saved : {A B : Type 0} → Store B → A → Result (Store B) → Result A × Store B
saved s answer (ok t) = (ok answer, t)
saved s answer (err e) = (err e, s)

module _ {B : Type 0} (codec : Codec B) where
  -- persist, where the file can be written or not.
  unfoldable pub persist : Store B → Bool → Result (Store B)
  unfolding all_records sort_by
  persist s writable =
      if not s.has_file
      then ok s
      else elim (codec.encode (sort_by by_path (all_records s.by_tenant)))
          as (λ _. Result (Store B)) [
            | none ↦ err not_saved
            | some b ↦ if writable then ok (record s { file = some b }) else err not_saved
          ]

  -- Put
  unfoldable pub put : Store B → Record → Time → Bool → Result Record × Store B
  unfolding normalize keep persist
  put s r now writable = elim (normalize r now) [
    | err e ↦ (err e, s)
    | ok n ↦
        let t : Store B = record s { by_tenant = keep s.by_tenant n } in
        saved t n (persist t writable)
  ]

  -- Delete
  unfoldable pub delete : Store B → String → String → Bool → Result (Unit {0}) × Store B
  unfolding drop_path persist
  delete s tenant path writable =
      let t : Store B = record s { by_tenant = drop_path s.by_tenant (tenant_key tenant) path } in
      saved t tt (persist t writable)

  -- Get
  unfoldable pub get : Store B → String → String → Time → Option Record
  get s tenant path now = elim (held s.by_tenant (tenant_key tenant) path) [
    | none ↦ none
    | some r ↦ if not (active r now) then none else some r
  ]

  -- List
  unfoldable pub list : Store B → String → List Record
  unfolding sort_by
  list s tenant = sort_by newest (values (tenant_of s.by_tenant (tenant_key tenant)))

  -- ActiveSet
  unfoldable pub active_set : Store B → String → Time → Map String Record
  active_set s tenant now = active_of now (tenant_of s.by_tenant (tenant_key tenant))

  -- load, of the content of the file
  unfoldable pub load : Store B → Result (Store B)
  unfolding keep
  load s = elim s.file [
    | none ↦ ok s
    | some b ↦ if codec.is_empty b then ok s else elim (codec.decode b) as (λ _. Result (Store B)) [
      | none ↦ err not_readable
      | some rs ↦ ok (record s { by_tenant = foldl keep s.by_tenant rs })
    ]
  ]

  -- New, on a path or none
  unfoldable pub new : Bool → Option B → Result (Store B)
  unfolding load
  new has_file file =
      let s : Store B = record { has_file = has_file; by_tenant = []; file = file } in
      if not has_file then ok s else load s
