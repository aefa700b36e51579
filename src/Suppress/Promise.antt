-- ===== src/Suppress/Promise.antt =====
-- What the store promises its callers, on every store that calls can lead to
-- (backend/internal/suppress/suppress.go).
use mathlib.Core.List.{lookup}
use mathlib.Core.List.Memᴰ.{Memᴰ}
use perspectivegraph.Base.Maps.{values}
use perspectivegraph.Base.Sorting.{mem-sort_by}
use perspectivegraph.Base.{
  String, String_discrete, Bool, ◌&&◌, Option, none, some, ◌≡◌, inl, inr, arith, Time, is_yes,
  if◌then◌else◌, Option-cases,
}
use perspectivegraph.Suppress.{
  Record, Result, ok, err, not_saved, Codec, Store, tenant_key, tenant_of, held, normalize, newest,
  put, delete, get, list, active_set,
}
use perspectivegraph.Suppress.Table.{tenant_of-IsRow}
use perspectivegraph.Suppress.Refine.{
  in_force, after_put, lookup-active_of, mem-values, could_save, kept, held-put, put-answer,
  held-delete, Reach, Reach-IsTable,
}

module _ {B : Type 0} (codec : Codec B) where
  -- The store seen as a map from a tenant and a path to a record.
  abbrev pub decisions : Store B → String → String → Option Record
  decisions s t p = held s.by_tenant t p

  pub record IsMap (s : Store B) : Type 0 where
    pub puts :
        (r : Record) (now : Time) (w : Bool) (t p : String)
        → decisions (put codec s r now w).1 t p ≡ after_put (decisions s) (normalize r now) t p
    pub put_answers :
        (r : Record) (now : Time) (w : Bool)
        → (put codec s r now w).0 ≡ elim (normalize r now) as (λ _. Result Record) [
          | err e ↦ err e
          | ok n ↦ if could_save codec (kept codec s n) w then ok n else err not_saved
        ]
    pub deletes :
        (tenant path : String) (w : Bool) (t p : String)
        → decisions (delete codec s tenant path w).1 t p ≡ (
            if is_yes (String_discrete t (tenant_key tenant)) && is_yes (String_discrete p path)
            then none
            else decisions s t p)
    pub gets :
        (tenant path : String) (now : Time)
        → get codec s tenant path now ≡ in_force now (decisions s (tenant_key tenant) path)
    pub actives :
        (tenant path : String) (now : Time)
        → lookup String_discrete path (active_set codec s tenant now)
          ≡ in_force now (decisions s (tenant_key tenant) path)
    pub lists :
        (tenant : String) (r : Record)
        → (Memᴰ r (list codec s tenant) → decisions s (tenant_key tenant) r.path_id ≡ some r)
          × (decisions s (tenant_key tenant) r.path_id ≡ some r → Memᴰ r (list codec s tenant))

  get-in_force :
      (s : Store B) (tenant path : String) (now : Time)
      → get codec s tenant path now ≡ in_force now (decisions s (tenant_key tenant) path)
  unfolding get
  get-in_force s tenant path now = elim (Option-cases (held s.by_tenant (tenant_key tenant) path)) [
    | inl q ↦ ground arith
    | inr (r, q) ↦ ground arith
  ]

  -- Whatever calls were made, the store is a map from a tenant, the empty one being the default one, and
  -- a path to a record. Put sets one entry, also where the file cannot be written and the answer is
  -- an error, and a record that is refused changes nothing; Delete clears one entry; Get and
  -- ActiveSet read the records that are in force, and List gives exactly those of a tenant.
  pub Reach-IsMap : (s : Store B) → Reach codec s → IsMap s
  unfolding active_set list
  Reach-IsMap s reach =
      let row = λ (t : String). tenant_of-IsRow s.by_tenant t (Reach-IsTable codec reach) in
      record {
        puts = held-put codec s;
        put_answers = put-answer codec s;
        deletes = held-delete codec s;
        gets = get-in_force s;
        actives = λ tenant path now.
            lookup-active_of now (tenant_key tenant) path
              (tenant_of s.by_tenant (tenant_key tenant)) (row (tenant_key tenant));
        lists = λ tenant r.
            let rs = tenant_of s.by_tenant (tenant_key tenant) in
            let (to, from) = mem-values (tenant_key tenant) rs r (row (tenant_key tenant)) in
            let (out, into) = mem-sort_by newest r (values rs) in
            (λ m. to (out m), λ q. into (from q));
      }
