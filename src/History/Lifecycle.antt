-- ===== src/History/Lifecycle.antt =====
-- What one pass makes of each path's record, and that every record stays in order
-- (backend/internal/history/history.go).
use mathlib.Core.List.{lookup}
use perspectivegraph.Base.Maps.{Map, elem, keys, lookup-insert, elem-keys, range_view}
use perspectivegraph.Base.{
  ℕ, ◌+◌, String, String_discrete, Bool, true, false, Bool-cases, Option, none, some, List, [], ◌∷◌,
  ◌≡◌, inl, inr, refl, arith, foldl, Time, is_yes, is_some, if◌then◌else◌, Option-cases, length,
}
use perspectivegraph.History.{
  PosturePoint, append_posture, Observation, PathRecord, TenantHistory, Store, history_of,
  put_history, tenant_key, path_at, seen_again, gone, ids_of, observe, resolve, observe_paths,
  observe_pass, get,
}

module _ {F : Type 0} where
  -- The last observation of a path.
  abbrev pub sighting : List (Observation F) → String → Option (Observation F)
  sighting [] id = none
  sighting (o ∷ os) id = elim (sighting os id) [
    | none ↦ if is_yes (String_discrete id o.id) then some o else none
    | some x ↦ some x
  ]

  -- What a pass makes of a record: a path that is seen is opened, opened again or aged, one that is
  -- not is resolved.
  abbrev pub aged :
      String → Time → Option (Observation F) → Option (PathRecord F) → Option (PathRecord F)
  aged tenant now (some o) old = some (seen_again tenant now o old)
  aged tenant now none none = none
  aged tenant now none (some r) = some (gone now r)

  pub sighting-id :
      (os : List (Observation F)) (id : String) (o : Observation F)
      → sighting os id ≡ some o
      → o.id ≡ id
  sighting-id [] id o h = absurd (ground arith)
  sighting-id (x ∷ os) id o h = elim (Option-cases (sighting os id)) [
    | inr (y, q) ↦ sighting-id os id o (ground arith)
    | inl q ↦ elim (String_discrete id x.id) [ yes p ↦ ground arith | no p ↦ absurd (ground arith) ]
  ]

  elem-ids_of :
      (os : List (Observation F)) (id : String)
      → elem String_discrete id (ids_of os) ≡ is_some (sighting os id)
  elem-ids_of [] id = refl
  elem-ids_of (o ∷ os) id = ground (arith, elem-ids_of os id)

  module _ (tenant : String) (now : Time) where
    -- Seen twice in one pass is seen once, as it was seen last.
    seen_again_twice :
        (o p : Observation F) (old : Option (PathRecord F))
        → o.id ≡ p.id
        → seen_again tenant now p (some (seen_again tenant now o old)) ≡ seen_again tenant now p old
    seen_again_twice o p none h = ground arith
    seen_again_twice o p (some r) h = ground arith

    path_at-observe :
        (m : Map String (PathRecord F)) (o : Observation F) (id : String)
        → path_at (observe tenant now m o) id ≡ (
            if is_yes (String_discrete id o.id)
            then some (seen_again tenant now o (path_at m o.id))
            else path_at m id)
    unfolding observe
    path_at-observe m o id =
        ground (
          arith,
          lookup-insert String_discrete id o.id (seen_again tenant now o (path_at m o.id)) m,
        )

    abbrev seen_by : Option (Observation F) → Option (PathRecord F) → Option (PathRecord F)
    seen_by none old = old
    seen_by (some o) old = some (seen_again tenant now o old)

    path_at-observes :
        (os : List (Observation F)) (m : Map String (PathRecord F)) (id : String)
        → path_at (foldl (observe tenant now) m os) id ≡ seen_by (sighting os id) (path_at m id)
    path_at-observes [] m id = refl
    path_at-observes (o ∷ os) m id =
        let m' = observe tenant now m o in
        let on = path_at-observes os m' id in
        let one = path_at-observe m o id in
        elim (String_discrete id o.id) [
          | yes p ↦
              let same : path_at m id ≡ path_at m o.id = rw p refl in
              elim (Option-cases (sighting os id)) [
                | inl q ↦ ground (arith, on, one, same, q)
                | inr (x, q) ↦
                    let eq : o.id ≡ x.id = ground (arith, sighting-id os id x q) in
                    ground (arith, on, one, same, q, seen_again_twice o x (path_at m o.id) eq)
              ]
          | no p ↦ elim (Option-cases (sighting os id)) [
            | inl q ↦ ground (arith, on, one, q)
            | inr (x, q) ↦ ground (arith, on, one, q)
          ]
        ]

  -- A record that the pass did not see.
  abbrev left_by : List String → Time → String → Option (PathRecord F) → Option (PathRecord F)
  left_by seen now id none = none
  left_by seen now id (some r) = if elem String_discrete id seen then some r else some (gone now r)

  path_at-resolve :
      (seen : List String) (now : Time) (m : Map String (PathRecord F)) (j id : String)
      → path_at (resolve seen now m id) j ≡ (
          if is_yes (String_discrete j id) then left_by seen now id (path_at m id) else path_at m j)
  unfolding resolve
  path_at-resolve seen now m j id = elim (Option-cases (path_at m id)) [
    | inl q ↦ elim (String_discrete j id) [
      | yes p ↦ let same : path_at m j ≡ path_at m id = rw p refl in ground (arith, same)
      | no p ↦ ground arith
    ]
    | inr (r, q) ↦
        let put = lookup-insert String_discrete j id (gone now r) m in
        elim (String_discrete j id) [
          | yes p ↦ let same : path_at m j ≡ path_at m id = rw p refl in ground (arith, same, put)
          | no p ↦ ground (arith, put)
        ]
  ]

  left_by-twice :
      (seen : List String) (now : Time) (id : String) (a : Option (PathRecord F))
      → left_by seen now id (left_by seen now id a) ≡ left_by seen now id a
  left_by-twice seen now id none = refl
  left_by-twice seen now id (some r) = ground arith

  path_at-resolves :
      (seen : List String) (now : Time) (m : Map String (PathRecord F)) (j : String)
      → path_at (foldl (resolve seen now) m (keys m)) j ≡ left_by seen now j (path_at m j)
  path_at-resolves seen now m j = ground (
    arith,
    range_view String_discrete (resolve seen now) (λ i k. path_at k i) (left_by seen now)
        (λ k i id h. ground (arith, path_at-resolve seen now k i id))
        (λ k id. ground (arith, path_at-resolve seen now k id id)) (left_by-twice seen now) (keys m)
        m j,
    elem-keys String_discrete j m,
  )

  -- Over all the records, what a pass makes of each.
  pub path_at-observe_paths :
      (tenant : String) (now : Time) (os : List (Observation F)) (m : Map String (PathRecord F))
      (id : String)
      → path_at (observe_paths tenant now os m) id ≡ aged tenant now (sighting os id) (path_at m id)
  unfolding observe_paths
  path_at-observe_paths tenant now os m id = ground (
    arith,
    path_at-resolves (ids_of os) now (foldl (observe tenant now) m os) id,
    path_at-observes tenant now os m id,
    elem-ids_of os id,
  )

  pub get-put_history :
      (s : Store F) (tenant other id : String) (th : TenantHistory F)
      → get (put_history s tenant th) other id ≡ (
          if is_yes (String_discrete (tenant_key other) (tenant_key tenant))
          then path_at th.paths id
          else get s other id)
  unfolding get
  get-put_history s tenant other id th =
      ground
        (arith, lookup-insert String_discrete (tenant_key other) (tenant_key tenant) th s.by_tenant)

  pub get-history_of :
      (s : Store F) (tenant id : String) → path_at (history_of s tenant).paths id ≡ get s tenant id
  unfolding get lookup
  get-history_of s tenant id = ground arith

  get-same_tenant :
      (s : Store F) (a b id : String) → tenant_key a ≡ tenant_key b → get s a id ≡ get s b id
  unfolding get
  get-same_tenant s a b id p = rw (p, get) refl

  paths-append_posture :
      (s : Store F) (th : TenantHistory F) (pt : PosturePoint F)
      → (append_posture s th pt).0.paths ≡ th.paths
  unfolding append_posture
  paths-append_posture s th pt = refl

  -- The record of a path after a pass, field by field. What is said of the record before is said of
  -- none by its first argument.
  abbrev before : {A : Type 0} → A → (PathRecord F → A) → Option (PathRecord F) → A
  before a f none = a
  before a f (some r) = f r

  -- A record that is open goes on; one that is not, and a path without one, start anew.
  abbrev goes_on : Option (PathRecord F) → Bool
  goes_on old = before false (λ r. r.is_open) old

  -- The times a path was resolved and came back.
  abbrev times_back : Option (PathRecord F) → ℕ
  times_back none = 0
  times_back (some r) = if r.is_open then r.reopens else r.reopens + 1

  abbrev pub lived :
      String → Time → Option (Observation F) → Option (PathRecord F) → Option (PathRecord F)
  lived tenant now none none = none
  lived tenant now none (some r) = some (record {
    id = r.id;
    tenant = r.tenant;
    route = r.route;
    score = r.score;
    first_seen = r.first_seen;
    last_seen = r.last_seen;
    is_open = false;
    resolved_at = if r.is_open then some now else r.resolved_at;
    reopens = r.reopens;
  })
  lived tenant now (some o) old = some (record {
    id = before o.id (λ r. r.id) old;
    tenant = before tenant (λ r. r.tenant) old;
    route = o.route;
    score = o.score;
    first_seen = if goes_on old then before now (λ r. r.first_seen) old else now;
    last_seen = now;
    is_open = true;
    resolved_at = if goes_on old then before none (λ r. r.resolved_at) old else none;
    reopens = times_back old;
  })

  aged-lived :
      (tenant : String) (now : Time) (o : Option (Observation F)) (old : Option (PathRecord F))
      → aged tenant now o old ≡ lived tenant now o old
  aged-lived tenant now none none = refl
  aged-lived tenant now none (some r) = elim (Bool-cases r.is_open) [
    | inl q ↦ ground arith
    | inr q ↦ ground arith
  ]
  aged-lived tenant now (some o) none = refl
  aged-lived tenant now (some o) (some r) = elim (Bool-cases r.is_open) [
    | inl q ↦ ground arith
    | inr q ↦ ground arith
  ]

  -- A pass over a tenant changes each of its paths' records by the last observation of the path. Where
  -- there is one, the record takes its route and score, is open and last seen now; a record that was
  -- open keeps when it was first seen, one that was not is first seen now, is not resolved and counts
  -- one more reopening, and a path without a record gets one that was never reopened. Where there is none, a record that was open is resolved now. Nothing
  -- else in the tenant's records changes, and the other tenants' records stay as they are.
  pub get-observe_pass :
      (s : Store F) (tenant other id : String) (os : List (Observation F)) (risk : F) (now : Time)
      → get (observe_pass s tenant os risk now) other id ≡ (
          if is_yes (String_discrete (tenant_key other) (tenant_key tenant))
          then lived tenant now (sighting os id) (get s other id)
          else get s other id)
  unfolding observe_pass
  get-observe_pass s tenant other id os risk now =
      let th = history_of s tenant in
      let older : TenantHistory F = record th { paths = observe_paths tenant now os th.paths } in
      let pt : PosturePoint F = record { at = now; critical_paths = length os; risk_pct = risk } in
      let put = get-put_history s tenant other id (append_posture s older pt).0 in
      let paths = paths-append_posture s older pt in
      elim (String_discrete (tenant_key other) (tenant_key tenant)) [
        | no p ↦ ground (arith, put)
        | yes p ↦ ground (
          arith,
          put,
          paths,
          path_at-observe_paths tenant now os th.paths id,
          get-history_of s tenant id,
          get-same_tenant s other tenant id p,
          aged-lived tenant now (sighting os id) (get s other id),
        )
      ]
