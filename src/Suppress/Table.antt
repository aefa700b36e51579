-- ===== src/Suppress/Table.antt =====
-- The table of records by tenant and path, and what a write does to it
-- (backend/internal/suppress/suppress.go).
use mathlib.Core.List.{lookup}
use perspectivegraph.Base.Maps.{Map, insert, erase, lookup-insert, lookup-erase}
use perspectivegraph.Base.{
  String, String_discrete, ◌&&◌, none, some, [], ◌∷◌, ◌≡◌, inl, inr, refl, sym, subst, arith,
  is_yes, if◌then◌else◌, if_pos, if_neg, Option-cases,
}
use perspectivegraph.Suppress.{Record, ByTenant, tenant_of, held, keep, drop_path}

-- Each record stands under its own path, once, among those of its tenant.
abbrev pub IsRow : String → Map String Record → Type 0
IsRow t [] = Unit {0}
IsRow t ((id, r) ∷ m) =
    (r.path_id ≡ id) × (r.tenant ≡ t) × (lookup String_discrete id m ≡ none) × IsRow t m

abbrev pub IsTable : ByTenant → Type 0
IsTable [] = Unit {0}
IsTable ((t, rs) ∷ m) = IsRow t rs × (lookup String_discrete t m ≡ none) × IsTable m

insert-IsRow :
    (t : String) (r : Record) (m : Map String Record)
    → r.tenant ≡ t
    → IsRow t m
    → IsRow t (insert String_discrete r.path_id r m)
unfolding insert lookup
insert-IsRow t r [] own h = (refl, own, refl, tt)
insert-IsRow t r ((id, x) ∷ m) own (key, kept, fresh, h) = elim (String_discrete r.path_id id) [
  | yes p ↦ rw (if_pos _ p) (refl, own, rw p fresh, h)
  | no p ↦ rw (if_neg _ p) (
    key,
    kept,
    ground (arith, lookup-insert String_discrete id r.path_id r m),
    insert-IsRow t r m own h,
  )
]

erase-IsRow :
    (t p : String) (m : Map String Record) → IsRow t m → IsRow t (erase String_discrete p m)
unfolding erase
erase-IsRow t p [] h = tt
erase-IsRow t p ((id, x) ∷ m) (key, kept, fresh, h) = elim (String_discrete p id) [
  | yes q ↦ rw (if_pos _ q) (erase-IsRow t p m h)
  | no q ↦
      rw (if_neg _ q)
        (key, kept, ground (arith, lookup-erase String_discrete id p m), erase-IsRow t p m h)
]

insert-IsTable :
    (t : String) (rs : Map String Record) (m : ByTenant)
    → IsRow t rs
    → IsTable m
    → IsTable (insert String_discrete t rs m)
unfolding insert lookup
insert-IsTable t rs [] row h = (row, refl, tt)
insert-IsTable t rs ((u, x) ∷ m) row (old, fresh, h) = elim (String_discrete t u) [
  | yes p ↦ rw (if_pos _ p) (row, rw p fresh, h)
  | no p ↦
      rw (if_neg _ p)
        (old, ground (arith, lookup-insert String_discrete u t rs m), insert-IsTable t rs m row h)
]

lookup-IsRow :
    (m : ByTenant) (t : String) (rs : Map String Record)
    → IsTable m
    → lookup String_discrete t m ≡ some rs
    → IsRow t rs
unfolding lookup
lookup-IsRow [] t rs h q = absurd (ground arith)
lookup-IsRow ((u, x) ∷ m) t rs (row, fresh, h) q = elim (String_discrete t u) [
  | yes p ↦
      subst (λ y. IsRow t y) (let e : x ≡ rs = ground arith in e)
        (subst (λ v. IsRow v x) (sym p) row)
  | no p ↦ lookup-IsRow m t rs h (ground arith)
]

pub tenant_of-IsRow : (m : ByTenant) (t : String) → IsTable m → IsRow t (tenant_of m t)
tenant_of-IsRow m t h = elim (Option-cases (lookup String_discrete t m)) [
  | inl q ↦ let e : tenant_of m t ≡ [] = ground arith in rw e tt
  | inr (rs, q) ↦ let e : tenant_of m t ≡ rs = ground arith in rw e (lookup-IsRow m t rs h q)
]

pub keep-IsTable : (m : ByTenant) (r : Record) → IsTable m → IsTable (keep m r)
unfolding keep
keep-IsTable m r h =
    insert-IsTable r.tenant _ m
      (insert-IsRow r.tenant r (tenant_of m r.tenant) refl (tenant_of-IsRow m r.tenant h)) h

pub drop_path-IsTable : (m : ByTenant) (t p : String) → IsTable m → IsTable (drop_path m t p)
unfolding drop_path
drop_path-IsTable m t p h = elim (Option-cases (lookup String_discrete t m)) [
  | inl q ↦ rw (q, drop_path) h
  | inr (rs, q) ↦
      rw (q, drop_path)
        (insert-IsTable t (erase String_discrete p rs) m
          (erase-IsRow t p rs (lookup-IsRow m t rs h q)) h)
]

pub held-keep :
    (m : ByTenant) (r : Record) (t p : String)
    → held (keep m r) t p ≡ (
        if is_yes (String_discrete t r.tenant) && is_yes (String_discrete p r.path_id)
        then some r
        else held m t p)
unfolding keep
held-keep m r t p =
    let row = insert String_discrete r.path_id r (tenant_of m r.tenant) in
    let put = lookup-insert String_discrete t r.tenant row m in
    elim (String_discrete t r.tenant) [
      | no q ↦ ground (arith, put)
      | yes q ↦
          let same : tenant_of m t ≡ tenant_of m r.tenant = rw q refl in
          ground
            (arith, put, same, lookup-insert String_discrete p r.path_id r (tenant_of m r.tenant))
    ]

pub held-drop_path :
    (m : ByTenant) (u x t p : String)
    → held (drop_path m u x) t p
      ≡ (if is_yes (String_discrete t u) && is_yes (String_discrete p x) then none else held m t p)
unfolding drop_path lookup
held-drop_path m u x t p =
    let same : (t ≡ u) → tenant_of m t ≡ tenant_of m u = λ q. rw q refl in
    elim (Option-cases (lookup String_discrete u m)) [
      | inl e ↦
          rw (e, drop_path)
            (elim (String_discrete t u) [
              | yes q ↦ let k = same q in ground arith
              | no q ↦ ground arith
            ])
      | inr (rs, e) ↦
          let put = lookup-insert String_discrete t u (erase String_discrete x rs) m in
          rw (e, drop_path)
            (elim (String_discrete t u) [
              | yes q ↦ let k = same q in ground (arith, put, lookup-erase String_discrete p x rs)
              | no q ↦ ground (arith, put)
            ])
    ]
