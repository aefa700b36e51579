-- ===== src/History.antt =====
-- The lifecycle of paths and the trend of the exposure (backend/internal/history/history.go). A nil
-- store, the file and the locks are left out: each call is one step at the time that it reads.
pub mod Lifecycle
pub mod Trend
pub mod Runs
pub mod Order
pub mod Statistics
pub mod Panel
use mathlib.Core.List.{lookup}
use perspectivegraph.Base.Maps.{Map, elem, insert, keys}
use perspectivegraph.Base.Sorting.{sort_by, text_before}
use perspectivegraph.Base.{
  ℕ, zero, suc, ◌+◌, ◌-◌, ◌*◌, ◌/◌, ◌%◌, String, String_discrete, Bool, true, false, not, ◌&&◌,
  Option, none, some, List, [], ◌∷◌, ◌++◌, foldl, map, ℤ, pos, negsuc, Time, second, sub_ℕ, Floats,
  float_zero, is_yes, is_some, ltb, leb, ◌==◌, if◌then◌else◌, length,
}

-- One open attack path seen on a pass.
pub record Observation (F : Type 0) : Type 0 where
  pub id : String
  pub route : String
  pub score : F

pub record PathRecord (F : Type 0) : Type 0 where
  pub id : String
  pub tenant : String
  pub route : String
  pub score : F
  pub first_seen : Time
  pub last_seen : Time
  pub is_open : Bool
  pub resolved_at : Option Time
  pub reopens : ℕ

pub record PosturePoint (F : Type 0) : Type 0 where
  pub at : Time
  pub critical_paths : ℕ
  pub risk_pct : F

pub record CalibrationSample (F : Type 0) : Type 0 where
  pub at : Time
  pub brier : F
  pub ece : F
  pub samples : ℕ

pub record Stats (F : Type 0) : Type 0 where
  pub open_paths : ℕ
  pub resolved_paths : ℕ
  pub mttr_seconds : F
  pub mttr_count : ℕ
  pub oldest_open_since : Option Time

pub record TenantHistory (F : Type 0) : Type 0 where
  pub paths : Map String (PathRecord F)
  pub posture : List (PosturePoint F)
  pub calibration : List (CalibrationSample F)

pub record Store (F : Type 0) : Type 0 where
  pub by_tenant : Map String (TenantHistory F)
  pub sample_every : ℕ
  pub max_points : ℕ

abbrev pub default_sample_every : ℕ
default_sample_every = 60 * second

abbrev pub default_max_points : ℕ
default_max_points = 2000

-- tenantKey
abbrev pub tenant_key : String → String
tenant_key t = if is_yes (String_discrete t "") then "default" else t

-- `a[n:]`
abbrev pub drop {ℓ} : {A : Type ℓ} → ℕ → List A → List A
drop n [] = []
drop n (y ∷ ys) = elim n [ zero ↦ y ∷ ys | suc m ↦ drop m ys ]

abbrev pub last_of : {P : Type 0} → P → List P → P
last_of p [] = p
last_of p (q ∷ qs) = last_of q qs

abbrev pub init_of : {P : Type 0} → P → List P → List P
init_of p [] = []
init_of p (q ∷ qs) = p ∷ init_of q qs

-- A list with a sample at its end: one within the window of the last one renews it, under the last
-- one's time, by `renew`; otherwise it is appended, and the oldest go where there are too many.
unfoldable pub append_sample :
    {P : Type 0} → (P → Time) → (P → P → P) → ℕ → ℕ → List P → P → List P × Bool
append_sample at_of renew every most [] pt =
    let longer = pt ∷ [] in
    (if ltb most (length longer) then drop (length longer - most) longer else longer, true)
append_sample at_of renew every most (p ∷ ps) pt =
    let last = last_of p ps in
    let longer = (p ∷ ps) ++ pt ∷ [] in
    if ltb (at_of pt) (at_of last + every)
    then (init_of p ps ++ renew last pt ∷ [], false)
    else (if ltb most (length longer) then drop (length longer - most) longer else longer, true)

-- The newest of a list, where a limit is asked for.
abbrev pub latest : {P : Type 0} → ℕ → List P → List P
latest limit pts =
    if ltb 0 limit && ltb limit (length pts) then drop (length pts - limit) pts else pts

module _ {F : Type 0} where
  -- New, with nothing to load
  abbrev pub new_store : Store F
  new_store = record {
    by_tenant = [];
    sample_every = default_sample_every;
    max_points = default_max_points;
  }

  abbrev pub new_history : TenantHistory F
  new_history = record { paths = []; posture = []; calibration = [] }

  -- `s.tenant(t)`: what is written back is put under the same key.
  abbrev pub history_of : Store F → String → TenantHistory F
  history_of s t = elim (lookup String_discrete (tenant_key t) s.by_tenant) [
    | none ↦ new_history
    | some th ↦ th
  ]

  abbrev pub put_history : Store F → String → TenantHistory F → Store F
  put_history s t th = record s { by_tenant = insert String_discrete (tenant_key t) th s.by_tenant }

  -- The switch of ObservePass on the record there is.
  abbrev pub seen_again : String → Time → Observation F → Option (PathRecord F) → PathRecord F
  seen_again tenant now o none = record {
    id = o.id;
    tenant = tenant;
    route = o.route;
    score = o.score;
    first_seen = now;
    last_seen = now;
    is_open = true;
    resolved_at = none;
    reopens = 0;
  }
  seen_again tenant now o (some r) =
      if not r.is_open
      then record r {
        is_open = true;
        resolved_at = none;
        first_seen = now;
        last_seen = now;
        route = o.route;
        score = o.score;
        reopens = r.reopens + 1;
      }
      else record r { last_seen = now; route = o.route; score = o.score }

  abbrev pub path_at : Map String (PathRecord F) → String → Option (PathRecord F)
  path_at m id = lookup String_discrete id m

  -- The body of the loop over the observations.
  unfoldable pub observe :
      String → Time → Map String (PathRecord F) → Observation F → Map String (PathRecord F)
  observe tenant now m o = insert String_discrete o.id (seen_again tenant now o (path_at m o.id)) m

  abbrev pub ids_of : List (Observation F) → List String
  ids_of [] = []
  ids_of (o ∷ os) = o.id ∷ ids_of os

  -- What a pass that does not list a path makes of its record.
  abbrev pub gone : Time → PathRecord F → PathRecord F
  gone now r = if r.is_open then record r { is_open = false; resolved_at = some now } else r

  -- The body of the loop over the records, by their keys.
  unfoldable pub resolve :
      List String → Time → Map String (PathRecord F) → String → Map String (PathRecord F)
  resolve seen now m id = elim (path_at m id) [
    | none ↦ m
    | some r ↦
        if r.is_open && not (elem String_discrete id seen)
        then insert String_discrete id (record r { is_open = false; resolved_at = some now }) m
        else m
  ]

  unfoldable pub observe_paths :
      String → Time → List (Observation F) → Map String (PathRecord F) → Map String (PathRecord F)
  unfolding observe resolve
  observe_paths tenant now os m =
      let seen = foldl (observe tenant now) m os in foldl (resolve (ids_of os) now) seen (keys seen)

  -- appendPosture: a point in the window keeps the window's start.
  unfoldable pub append_posture :
      Store F → TenantHistory F → PosturePoint F → TenantHistory F × Bool
  unfolding append_sample
  append_posture s th pt =
      let (posture, appended) =
        append_sample (λ p. p.at)
          (λ p q. record p { critical_paths = q.critical_paths; risk_pct = q.risk_pct })
          s.sample_every s.max_points th.posture pt in
      (record th { posture = posture }, appended)

  -- ObservePass
  unfoldable pub observe_pass : Store F → String → List (Observation F) → F → Time → Store F
  unfolding observe_paths append_posture
  observe_pass s tenant os risk now =
      let th = history_of s tenant in
      let aged : TenantHistory F = record th { paths = observe_paths tenant now os th.paths } in
      let pt : PosturePoint F = record { at = now; critical_paths = length os; risk_pct = risk } in
      put_history s tenant (append_posture s aged pt).0

  -- SampleTrend
  unfoldable pub sample_trend : Store F → String → ℕ → F → Time → Store F
  unfolding append_posture
  sample_trend s tenant critical risk now =
      let pt : PosturePoint F = record { at = now; critical_paths = critical; risk_pct = risk } in
      put_history s tenant (append_posture s (history_of s tenant) pt).0

  -- SampleCalibration
  unfoldable pub sample_calibration : Store F → String → F → F → ℕ → Time → Store F
  unfolding append_sample
  sample_calibration s tenant brier ece samples now =
      let th = history_of s tenant in
      let pt : CalibrationSample F = record {
        at = now;
        brier = brier;
        ece = ece;
        samples = samples;
      } in
      let (calibration, _) =
        append_sample (λ p. p.at)
          (λ p q. record p { brier = q.brier; ece = q.ece; samples = q.samples }) s.sample_every
          s.max_points th.calibration pt in
      put_history s tenant (record th { calibration = calibration })

  -- Get
  unfoldable pub get : Store F → String → String → Option (PathRecord F)
  get s tenant id = elim (lookup String_discrete (tenant_key tenant) s.by_tenant) [
    | none ↦ none
    | some th ↦ path_at th.paths id
  ]

  -- Trend
  unfoldable pub trend : Store F → String → ℕ → List (PosturePoint F)
  trend s tenant limit = elim (lookup String_discrete (tenant_key tenant) s.by_tenant) [
    | none ↦ []
    | some th ↦ latest limit th.posture
  ]

  -- CalibrationTrend
  unfoldable pub calibration_trend : Store F → String → ℕ → List (CalibrationSample F)
  calibration_trend s tenant limit = elim (lookup String_discrete (tenant_key tenant) s.by_tenant) [
    | none ↦ []
    | some th ↦ latest limit th.calibration
  ]
