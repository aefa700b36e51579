-- ===== src/Suppress/Refine.antt =====
-- The store is a map from a tenant and a path to a record (backend/internal/suppress/suppress.go).
use mathlib.Core.List.{lookup}
use mathlib.Core.List.Memᴰ.{Memᴰ}
use perspectivegraph.Base.Maps.{Map, values, foldl_inv}
use perspectivegraph.Base.Sorting.{sort_by}
use perspectivegraph.Base.{
  String, String_discrete, Bool, not, ◌&&◌, ◌||◌, ◌⊎◌, Option, none, some, [], ◌∷◌, ◌≡◌, inl, inr,
  refl, arith, foldl, Time, is_yes, is_some, if◌then◌else◌, Option-cases, Bool-cases,
}
use perspectivegraph.Suppress.{
  Record, Error, Result, ok, err, not_saved, saved, by_path, all_records, drop_path, Codec, Store,
  tenant_key, held, keep, normalize, active, active_of, persist, put, delete, load, new,
}
use perspectivegraph.Suppress.Table.{
  IsRow, IsTable, keep-IsTable, drop_path-IsTable, held-keep, held-drop_path,
}

-- A record that is in force.
abbrev pub in_force : Time → Option Record → Option Record
in_force now none = none
in_force now (some r) = if active r now then some r else none

-- What a call of Put makes of the map.
abbrev pub after_put :
    (String → String → Option Record) → Result Record → String → String → Option Record
after_put f (err e) t p = f t p
after_put f (ok n) t p =
    if is_yes (String_discrete t n.tenant) && is_yes (String_discrete p n.path_id)
    then some n
    else f t p

pub lookup-active_of :
    (now : Time) (t id : String) (m : Map String Record)
    → IsRow t m
    → lookup String_discrete id (active_of now m) ≡ in_force now (lookup String_discrete id m)
unfolding lookup
lookup-active_of now t id [] h = refl
lookup-active_of now t id ((k, r) ∷ m) (key, own, fresh, h) =
    let rest = lookup-active_of now t id m h in
    elim (String_discrete id k) [
      | yes p ↦
          let same : lookup String_discrete id m ≡ lookup String_discrete k m = rw p refl in
          ground (arith, rest, same)
      | no p ↦ ground (arith, rest)
    ]

pub mem-values :
    (t : String) (m : Map String Record) (r : Record)
    → IsRow t m
    → (Memᴰ r (values m) → lookup String_discrete r.path_id m ≡ some r)
      × (lookup String_discrete r.path_id m ≡ some r → Memᴰ r (values m))
unfolding lookup
mem-values t [] r h = (λ m. elim m [ ], λ q. absurd (ground arith))
mem-values t ((k, x) ∷ m) r (key, own, fresh, h) =
    let (to, from) = mem-values t m r h in
    (
      λ mem. elim mem [
        | Memᴰ.head p ↦ rw p (ground arith)
        | Memᴰ.tail mem' ↦
            let at = to mem' in
            elim (String_discrete r.path_id k) [
              | yes p ↦ absurd (let e = rw p at at in ground arith)
              | no p ↦ ground (arith, at)
            ]
      ],
      λ q. elim (String_discrete r.path_id k) [
        | yes p ↦ Memᴰ.head (let e : r ≡ x = ground arith in e)
        | no p ↦ Memᴰ.tail (from (ground arith))
      ],
    )

Result-cases : (r : Result Record) → ((n : Record) × (r ≡ ok n)) ⊎ ((e : Error) × (r ≡ err e))
Result-cases (ok n) = inl (n, refl)
Result-cases (err e) = inr (e, refl)

module _ {B : Type 0} (codec : Codec B) where
  -- The file is not used, or the records can be encoded and the file written.
  abbrev pub could_save : Store B → Bool → Bool
  could_save s writable =
      not s.has_file
      || (is_some (codec.encode (sort_by by_path (all_records s.by_tenant))) && writable)

  pub by_tenant-saved :
      {A : Type 0} (t : Store B) (a : A) (writable : Bool)
      → (saved t a (persist codec t writable)).1.by_tenant ≡ t.by_tenant
  unfolding persist
  by_tenant-saved t a writable =
      elim (Option-cases (codec.encode (sort_by by_path (all_records t.by_tenant)))) [
        | inl q ↦ ground arith
        | inr (b, q) ↦ ground arith
      ]

  answer-saved :
      {A : Type 0} (t : Store B) (a : A) (writable : Bool)
      → (saved t a (persist codec t writable)).0
        ≡ (if could_save t writable then ok a else err not_saved)
  unfolding persist
  answer-saved t a writable =
      elim (Option-cases (codec.encode (sort_by by_path (all_records t.by_tenant)))) [
        | inl q ↦ ground arith
        | inr (b, q) ↦ ground arith
      ]

  abbrev pub kept : Store B → Record → Store B
  kept s n = record s { by_tenant = keep s.by_tenant n }

  pub held-put :
      (s : Store B) (r : Record) (now : Time) (w : Bool) (t p : String)
      → held (put codec s r now w).1.by_tenant t p
        ≡ after_put (held s.by_tenant) (normalize r now) t p
  unfolding put
  held-put s r now w t p = elim (Result-cases (normalize r now)) [
    | inl (n, q) ↦ rw (q, put, by_tenant-saved (kept s n) n w, held-keep s.by_tenant n t p) refl
    | inr (e, q) ↦ rw (q, put) refl
  ]

  pub put-answer :
      (s : Store B) (r : Record) (now : Time) (w : Bool)
      → (put codec s r now w).0 ≡ elim (normalize r now) as (λ _. Result Record) [
        | err e ↦ err e
        | ok n ↦ if could_save (kept s n) w then ok n else err not_saved
      ]
  unfolding put
  put-answer s r now w = elim (Result-cases (normalize r now)) [
    | inl (n, q) ↦ rw (q, put, answer-saved (kept s n) n w) refl
    | inr (e, q) ↦ rw (q, put) refl
  ]

  pub held-delete :
      (s : Store B) (tenant path : String) (w : Bool) (t p : String)
      → held (delete codec s tenant path w).1.by_tenant t p ≡ (
          if is_yes (String_discrete t (tenant_key tenant)) && is_yes (String_discrete p path)
          then none
          else held s.by_tenant t p)
  unfolding delete
  held-delete s tenant path w t p =
      let dropped : Store B = record s {
        by_tenant = drop_path s.by_tenant (tenant_key tenant) path;
      } in
      rw (by_tenant-saved dropped tt w) (held-drop_path s.by_tenant (tenant_key tenant) path t p)

  -- The stores that a new one can become.
  pub data Reach : Store B → Type 0 where
    started :
        {s : Store B} (has_file : Bool) (file : Option B) → new codec has_file file ≡ ok s → Reach s
    put_in :
        {s : Store B} (r : Record) (now : Time) (w : Bool) → Reach s → Reach (put codec s r now w).1
    deleted :
        {s : Store B} (tenant path : String) (w : Bool)
        → Reach s
        → Reach (delete codec s tenant path w).1

  new-IsTable :
      (s : Store B) (has_file : Bool) (file : Option B)
      → new codec has_file file ≡ ok s
      → IsTable s.by_tenant
  unfolding new load
  new-IsTable s has_file none h = let e : s.by_tenant ≡ [] = ground arith in rw e tt
  new-IsTable s has_file (some b) h = elim (Option-cases (codec.decode b)) [
    | inl q ↦ let e : s.by_tenant ≡ [] = ground arith in rw e tt
    | inr (rs, q) ↦
        let all = foldl_inv IsTable keep keep-IsTable rs [] tt in
        elim (Bool-cases (not has_file || codec.is_empty b)) [
          | inl p ↦ let e : s.by_tenant ≡ [] = ground arith in rw e tt
          | inr p ↦ let e : s.by_tenant ≡ foldl keep [] rs = ground arith in rw e all
        ]
  ]

  pub Reach-IsTable : {s : Store B} → Reach s → IsTable s.by_tenant
  unfolding put delete
  Reach-IsTable (Reach.started {s} has_file file h) = new-IsTable s has_file file h
  Reach-IsTable (Reach.put_in {s} r now w reach) = elim (Result-cases (normalize r now)) [
    | inl (n, q) ↦
        rw (q, put, by_tenant-saved (kept s n) n w)
          (keep-IsTable s.by_tenant n (Reach-IsTable reach))
    | inr (e, q) ↦ rw (q, put) (Reach-IsTable reach)
  ]
  Reach-IsTable (Reach.deleted {s} tenant path w reach) =
      let dropped : Store B = record s {
        by_tenant = drop_path s.by_tenant (tenant_key tenant) path;
      } in
      rw (by_tenant-saved dropped tt w)
        (drop_path-IsTable s.by_tenant (tenant_key tenant) path (Reach-IsTable reach))
