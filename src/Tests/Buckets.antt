-- ===== src/Tests/Buckets.antt =====
-- A key-value bucket of maps, which does what the service says.
use mathlib.Core.List.{lookup}
use perspectivegraph.Base.Maps.{Map, elem, insert, lookup-insert}
use perspectivegraph.Base.{
  ℕ, String, String_discrete, false, none, some, List, [], ◌∷◌, ◌≡◌, ◌≢◌, inl, inr, refl, arith,
  Time, if◌then◌else◌, Bool-cases,
}
use perspectivegraph.Base.Distinct.{elem-insert, insert-Simple, length-insert}
use perspectivegraph.Delivery.{SnapshotRecord, KeyValue}
use perspectivegraph.Delivery.Calls.{SnapshotLaws}
use perspectivegraph.Delivery.Replicas.{KeyValueLaws}

pub record Bucket : Type 0 where
  pub totals : Map String (ℕ × String)
  pub applied : Map String (Map String Time)
  pub snaps : Map String (Map String SnapshotRecord)
  pub swept_ids : List String

abbrev row : {V : Type 0} → Map String (Map String V) → String → Map String V
row m id = elim (lookup String_discrete id m) [ none ↦ [] | some vs ↦ vs ]

abbrev pub plain : KeyValue Bucket
plain = record {
  fresh = record { totals = []; applied = []; snaps = []; swept_ids = [] };
  put_total = λ b id v. record b { totals = insert String_discrete id v b.totals };
  total = λ b id. lookup String_discrete id b.totals;
  put_mark = λ b id seq t. record b {
    applied = insert String_discrete id (insert String_discrete seq t (row b.applied id)) b.applied;
  };
  marks = λ b id. row b.applied id;
  put_snapshot = λ b id key rec. record b {
    snaps = insert String_discrete id (insert String_discrete key rec (row b.snaps id)) b.snaps;
  };
  snapshots = λ b id. row b.snaps id;
  create_swept = λ b id.
      if elem String_discrete id b.swept_ids
      then none
      else some (record b { swept_ids = id ∷ b.swept_ids });
}

row_here :
    (b : Bucket) (id seq : String) (t : Time)
    → plain.marks (plain.put_mark b id seq t) id ≡ insert String_discrete seq t (plain.marks b id)
row_here b id seq t =
    let r = insert String_discrete seq t (row b.applied id) in
    elim (String_discrete id id) [
      | yes e ↦ ground (arith, lookup-insert String_discrete id id r b.applied)
      | no n ↦ absurd (n refl)
    ]

row_there :
    (b : Bucket) (id seq j : String) (t : Time)
    → j ≢ id
    → plain.marks (plain.put_mark b id seq t) j ≡ plain.marks b j
row_there b id seq j t n =
    let r = insert String_discrete seq t (row b.applied id) in
    elim (String_discrete j id) [
      | yes e ↦ absurd (n e)
      | no m ↦ ground (arith, lookup-insert String_discrete j id r b.applied)
    ]

row_has :
    (b : Bucket) (id key : String) (rec : SnapshotRecord)
    → lookup String_discrete key (plain.snapshots (plain.put_snapshot b id key rec) id) ≡ some rec
row_has b id key rec =
    let r = insert String_discrete key rec (row b.snaps id) in
    let outer = lookup-insert String_discrete id id r b.snaps in
    let inner = lookup-insert String_discrete key key rec (row b.snaps id) in
    elim (String_discrete id id) [
      | no n ↦ absurd (n refl)
      | yes e ↦ elim (String_discrete key key) [
        | no n ↦ absurd (n refl)
        | yes f ↦ ground (arith, outer, inner)
      ]
    ]

made :
    (b c : Bucket) (id : String)
    → plain.create_swept b id ≡ some c
    → (elem String_discrete id b.swept_ids ≡ false)
      × (c ≡ record b { swept_ids = id ∷ b.swept_ids })
made b c id q = elim (Bool-cases (elem String_discrete id b.swept_ids)) [
  | inl e ↦ absurd (ground arith)
  | inr e ↦ (e, ground arith)
]

pub plain_laws : KeyValueLaws plain
unfolding lookup
plain_laws = record {
  marks_fresh = λ id. refl;
  total_put = λ b id j v. ground (arith, lookup-insert String_discrete j id v b.totals);
  total_mark = λ b id seq j t. refl;
  total_snapshot = λ b id key j rec. refl;
  total_swept = λ b c id j q. rw (made b c id q).1 refl;
  marks_total = λ b id j v. refl;
  marks_snapshot = λ b id key j rec. refl;
  marks_swept = λ b c id j q. rw (made b c id q).1 refl;
  marks_there = row_there;
  marks_here = λ b id seq x t. rw (row_here b id seq t) (elem-insert x seq t (plain.marks b id));
  marks_once = λ b id seq t h. rw (row_here b id seq t) (insert-Simple seq t (plain.marks b id) h);
  marks_grow = λ b id seq t. rw (row_here b id seq t) (length-insert seq t (plain.marks b id));
  swept = λ b j. elem String_discrete j b.swept_ids;
  swept_total = λ b id j v. refl;
  swept_mark = λ b id seq j t. refl;
  swept_snapshot = λ b id key j rec. refl;
  swept_create = λ b c id j q. let (free, same) = made b c id q in (free, rw same refl);
}

pub plain_snapshots : SnapshotLaws plain plain_laws
unfolding lookup plain_laws
plain_snapshots = record {
  snapshot_put = λ b id key rec. row_has b id key rec;
  snapshots_mark = λ b id seq j t. refl;
  snapshots_swept = λ b c id j q. rw (made b c id q).1 refl;
  refused = λ b id q. elim (Bool-cases (elem String_discrete id b.swept_ids)) [
    | inl e ↦ e
    | inr e ↦ absurd (ground arith)
  ];
}
