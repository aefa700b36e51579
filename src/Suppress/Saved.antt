-- ===== src/Suppress/Saved.antt =====
-- What is saved is read back (backend/internal/suppress/suppress.go).
use mathlib.Core.List.{lookup}
use mathlib.Core.List.Memᴰ
use mathlib.Core.List.Memᴰ.{Memᴰ}
use perspectivegraph.Base.Maps.{Map, values}
use perspectivegraph.Base.Sorting.{sort_by, mem-sort_by}
use perspectivegraph.Base.{
  String, String_discrete, true, false, ◌&&◌, Option, none, some, List, [], ◌∷◌, ◌≡◌, ◌≢◌, ◌∙◌, inl,
  inr, refl, sym, subst, arith, foldl, is_yes, if◌then◌else◌, Option-cases,
}
use perspectivegraph.Suppress.{
  Record, ok, Codec, Store, ByTenant, held, keep, all_records, by_path, persist, load, new,
}
use perspectivegraph.Suppress.Table.{IsRow, IsTable, held-keep}
use perspectivegraph.Suppress.Refine.{mem-values, Reach, Reach-IsTable}
use perspectivegraph.Suppress.Promise.{decisions}

-- The last record of a tenant and a path.
abbrev find : List Record → String → String → Option Record
find [] t p = none
find (r ∷ rs) t p = elim (find rs t p) [
  | some x ↦ some x
  | none ↦
      if is_yes (String_discrete t r.tenant) && is_yes (String_discrete p r.path_id)
      then some r
      else none
]

abbrev or_else : Option Record → Option Record → Option Record
or_else none o = o
or_else (some r) o = some r

from_none : (o : Option Record) → or_else o none ≡ o
from_none none = refl
from_none (some r) = refl

held-keeps :
    (rs : List Record) (m : ByTenant) (t p : String)
    → held (foldl keep m rs) t p ≡ or_else (find rs t p) (held m t p)
held-keeps [] m t p = refl
held-keeps (r ∷ rs) m t p = elim (Option-cases (find rs t p)) [
  | inl q ↦ ground (arith, held-keeps rs (keep m r) t p, held-keep m r t p)
  | inr (x, q) ↦ ground (arith, held-keeps rs (keep m r) t p, held-keep m r t p)
]

find-mem :
    (rs : List Record) (t p : String) (r : Record)
    → find rs t p ≡ some r
    → Memᴰ r rs × (r.tenant ≡ t) × (r.path_id ≡ p)
find-mem [] t p r h = absurd (ground arith)
find-mem (x ∷ rs) t p r h = elim (Option-cases (find rs t p)) [
  | inr (y, q) ↦ let (m, a, b) = find-mem rs t p r (ground arith) in (Memᴰ.tail m, a, b)
  | inl q ↦ elim (String_discrete t x.tenant) [
    | no n ↦ absurd (ground arith)
    | yes e ↦ elim (String_discrete p x.path_id) [
      | no n ↦ absurd (ground arith)
      | yes f ↦ let same : r ≡ x = ground arith in (Memᴰ.head same, ground arith, ground arith)
    ]
  ]
]

mem-find : (rs : List Record) (r : Record) → Memᴰ r rs → find rs r.tenant r.path_id ≢ none
mem-find [] r m h = elim m [ ]
mem-find (x ∷ rs) r m h = elim (Option-cases (find rs r.tenant r.path_id)) [
  | inr (y, q) ↦ absurd (ground arith)
  | inl q ↦ elim m [
    | Memᴰ.tail m' ↦ mem-find rs r m' q
    | Memᴰ.head e ↦
        let here : find (r ∷ rs) r.tenant r.path_id ≡ none =
          subst (λ y. find (y ∷ rs) r.tenant r.path_id ≡ none) (sym e) h in
        ground arith
  ]
]

row-own :
    (t p : String) (m : Map String Record) (r : Record)
    → IsRow t m
    → lookup String_discrete p m ≡ some r
    → (r.tenant ≡ t) × (r.path_id ≡ p)
unfolding lookup
row-own t p [] r h q = absurd (ground arith)
row-own t p ((k, x) ∷ m) r (key, own, fresh, h) q = elim (String_discrete p k) [
  | yes e ↦ let same : r ≡ x = ground arith in rw same (own, ground arith)
  | no e ↦ row-own t p m r h (ground arith)
]

held-mem :
    (m : ByTenant) (t p : String) (r : Record)
    → IsTable m
    → held m t p ≡ some r
    → Memᴰ r (all_records m) × (r.tenant ≡ t) × (r.path_id ≡ p)
unfolding all_records lookup
held-mem [] t p r h q = absurd (ground arith)
held-mem ((u, rs) ∷ m) t p r (row, fresh, h) q = elim (String_discrete t u) [
  | yes e ↦
      let at : lookup String_discrete p rs ≡ some r = ground arith in
      let (own, path) = row-own u p rs r row at in
      let (_, from) = mem-values u rs r row in
      (
        Memᴰ.append_left (all_records m)
            (from (subst (λ v. lookup String_discrete v rs ≡ some r) (sym path) at)),
        ground arith,
        path,
      )
  | no e ↦
      let (mem, own, path) = held-mem m t p r h (ground arith) in
      (Memᴰ.append_right (values rs) mem, own, path)
]

mem-held :
    (m : ByTenant) (r : Record)
    → IsTable m
    → Memᴰ r (all_records m)
    → held m r.tenant r.path_id ≡ some r
unfolding all_records lookup
mem-held [] r h mem = elim mem [ ]
mem-held ((u, rs) ∷ m) r (row, fresh, h) mem = elim (Memᴰ.append_cases (values rs) mem) [
  | inl here ↦
      let (to, _) = mem-values u rs r row in
      let at = to here in let (own, _) = row-own u r.path_id rs r row at in ground (arith, at, own)
  | inr later ↦
      let at = mem-held m r h later in
      elim (String_discrete r.tenant u) [
        | no e ↦ ground (arith, at)
        | yes e ↦
            let none_there : lookup String_discrete r.tenant m ≡ none = rw e fresh in
            absurd (ground (arith, at, none_there))
      ]
]

find-sorted :
    (m : ByTenant) (t p : String)
    → IsTable m
    → find (sort_by by_path (all_records m)) t p ≡ held m t p
find-sorted m t p h =
    let rows = all_records m in
    let sorted = sort_by by_path rows in
    elim (Option-cases (find sorted t p)) [
      | inr (x, q) ↦
          let (mem, own, path) = find-mem sorted t p x q in
          let (out, _) = mem-sort_by by_path x rows in
          let at = mem-held m x h (out mem) in
          q
          ∙ sym (
              subst (λ u. held m u p ≡ some x) own
                (subst (λ v. held m x.tenant v ≡ some x) path at))
      | inl q ↦ elim (Option-cases (held m t p)) [
        | inl e ↦ q ∙ sym e
        | inr (r, e) ↦
            let (mem, own, path) = held-mem m t p r h e in
            let (_, into) = mem-sort_by by_path r rows in
            absurd (
              mem-find sorted r (into mem) (
                subst (λ u. find sorted u r.path_id ≡ none) (sym own)
                  (subst (λ v. find sorted t v ≡ none) (sym path) q)))
      ]
    ]

module _ {B : Type 0} (codec : Codec B) where
  -- What is written is not empty, and reads back as it was written.
  pub record CodecLaws : Type 0 where
    pub reads_back :
        (rs : List Record) (b : B) → codec.encode rs ≡ some b → codec.decode b ≡ some rs
    pub not_empty : (rs : List Record) (b : B) → codec.encode rs ≡ some b → codec.is_empty b ≡ false

  reopen :
      (file : Option B) (b : B) (rs : List Record)
      → file ≡ some b
      → codec.is_empty b ≡ false
      → codec.decode b ≡ some rs
      → new codec true file
        ≡ ok (record { has_file = true; by_tenant = foldl keep [] rs; file = some b })
  unfolding new load
  reopen none b rs f e d = absurd (ground arith)
  reopen (some c) b rs f e d =
      let same : c ≡ b = ground arith in
      subst
        (λ y.
          new codec true (some c)
          ≡ ok (record { has_file = true; by_tenant = foldl keep [] rs; file = some y }))
        same
        (let full = subst (λ y. codec.is_empty y ≡ false) (sym same) e in
          let read = subst (λ y. codec.decode y ≡ some rs) (sym same) d in rw (full, read) refl)

  -- Where persist succeeds on a store with a file, and what the codec writes reads back, New on that file
  -- opens a store with the same records, for every tenant and path.
  pub saved_reopens :
      (s t : Store B)
      → CodecLaws
      → Reach codec s
      → s.has_file ≡ true
      → persist codec s true ≡ ok t
      → (u : Store B) × (new codec true t.file ≡ ok u)
        × ((tenant path : String) → decisions codec u tenant path ≡ decisions codec s tenant path)
  unfolding persist lookup
  saved_reopens s t laws reach has p =
      let rs = sort_by by_path (all_records s.by_tenant) in
      elim (Option-cases (codec.encode rs)) [
        | inl q ↦ absurd (ground arith)
        | inr (b, q) ↦
            let wrote : t.file ≡ some b = ground arith in
            (
              record { has_file = true; by_tenant = foldl keep [] rs; file = some b },
              reopen t.file b rs wrote (laws.not_empty rs b q) (laws.reads_back rs b q),
              λ tenant path.
                  held-keeps rs [] tenant path
                  ∙ from_none (find rs tenant path)
                  ∙ find-sorted s.by_tenant tenant path (Reach-IsTable codec reach),
            )
      ]
