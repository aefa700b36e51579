-- ===== src/History/Runs.antt =====
-- Whatever calls were made, the history is in order (backend/internal/history/history.go).
use mathlib.Core.List.{lookup}
use perspectivegraph.Base.Maps.{lookup-insert}
use perspectivegraph.Base.{
  ℕ, ◌≤◌, String, String_discrete, some, List, ◌≡◌, inl, inr, refl, arith, Time, is_yes,
  if◌then◌else◌, Bool-cases, length,
}
use perspectivegraph.History.{
  Observation, PathRecord, PosturePoint, CalibrationSample, TenantHistory, Store,
  default_sample_every, default_max_points, new_store, history_of, put_history, tenant_key, path_at,
  append_sample, append_posture, observe_paths, observe_pass, sample_trend, sample_calibration, get,
}
use perspectivegraph.History.Lifecycle.{
  sighting, sighting-id, get-put_history, get-history_of, path_at-observe_paths,
}
use perspectivegraph.History.Order.{InOrder, later-InOrder, aged-InOrder}
use perspectivegraph.History.Trend.{IsTrend, append_sample-IsTrend}

module _ {F : Type 0} where
  -- The stores that a new one can become while the clock does not go back.
  pub data Reach : Store F → Time → Type 0 where
    start : (now : Time) → Reach new_store now
    passed :
        {s : Store F} {then' : Time} (tenant : String) (os : List (Observation F)) (risk : F)
        (now : Time)
        → Reach s then'
        → then' ≤ now
        → Reach (observe_pass s tenant os risk now) now
    sampled :
        {s : Store F} {then' : Time} (tenant : String) (critical : ℕ) (risk : F) (now : Time)
        → Reach s then'
        → then' ≤ now
        → Reach (sample_trend s tenant critical risk now) now
    calibrated :
        {s : Store F} {then' : Time} (tenant : String) (brier ece : F) (samples : ℕ) (now : Time)
        → Reach s then'
        → then' ≤ now
        → Reach (sample_calibration s tenant brier ece samples now) now

  abbrev pub PostureTrend : List (PosturePoint F) → Type 0
  PostureTrend = IsTrend (λ p. p.at) default_sample_every default_max_points

  abbrev pub CalibrationTrend : List (CalibrationSample F) → Type 0
  CalibrationTrend = IsTrend (λ p. p.at) default_sample_every default_max_points

  pub record IsOrderly (clock : Time) (s : Store F) : Type 0 where
    pub records :
        (tenant id : String) (r : PathRecord F) → get s tenant id ≡ some r → InOrder clock id r
    pub window : s.sample_every ≡ default_sample_every
    pub most : s.max_points ≡ default_max_points
    pub posture : (tenant : String) → PostureTrend (history_of s tenant).posture
    pub calibration : (tenant : String) → CalibrationTrend (history_of s tenant).calibration

  history_of-put_history :
      (s : Store F) (tenant other : String) (th : TenantHistory F)
      → history_of (put_history s tenant th) other ≡ (
          if is_yes (String_discrete (tenant_key other) (tenant_key tenant))
          then th
          else history_of s other)
  history_of-put_history s tenant other th =
      ground
        (arith, lookup-insert String_discrete (tenant_key other) (tenant_key tenant) th s.by_tenant)

  -- A write of a tenant's history that ages its records and keeps its series.
  put-IsOrderly :
      (then' now : Time) (s : Store F) (tenant : String) (th : TenantHistory F)
      → then' ≤ now
      → IsOrderly then' s
      → ((id : String) (r : PathRecord F) → path_at th.paths id ≡ some r → InOrder now id r)
      → PostureTrend th.posture
      → CalibrationTrend th.calibration
      → IsOrderly now (put_history s tenant th)
  put-IsOrderly then' now s tenant th le h records posture calibration = record {
    records = λ other id r q.
        let put = get-put_history s tenant other id th in
        elim (Bool-cases (is_yes (String_discrete (tenant_key other) (tenant_key tenant)))) [
          | inl p ↦ records id r (ground (arith, put))
          | inr p ↦ later-InOrder then' now id r le (h.records other id r (ground (arith, put)))
        ];
    window = h.window;
    most = h.most;
    posture = λ other.
        let put = history_of-put_history s tenant other th in
        elim (Bool-cases (is_yes (String_discrete (tenant_key other) (tenant_key tenant)))) [
          | inl p ↦ rw (put, p) posture
          | inr p ↦ rw (put, p) (h.posture other)
        ];
    calibration = λ other.
        let put = history_of-put_history s tenant other th in
        elim (Bool-cases (is_yes (String_discrete (tenant_key other) (tenant_key tenant)))) [
          | inl p ↦ rw (put, p) calibration
          | inr p ↦ rw (put, p) (h.calibration other)
        ];
  }

  append_posture-Trend :
      (clock : Time) (s : Store F) (th : TenantHistory F) (pt : PosturePoint F)
      → IsOrderly clock s
      → PostureTrend th.posture
      → PostureTrend (append_posture s th pt).0.posture
  unfolding append_posture
  append_posture-Trend clock s th pt h old =
      rw (h.window, h.most)
        (append_sample-IsTrend (λ p. p.at) default_sample_every
          (λ p q. record p { critical_paths = q.critical_paths; risk_pct = q.risk_pct })
          (λ p q. refl) default_max_points th.posture pt old)

  append_posture_rest :
      (s : Store F) (th : TenantHistory F) (pt : PosturePoint F)
      → ((append_posture s th pt).0.paths ≡ th.paths)
        × ((append_posture s th pt).0.calibration ≡ th.calibration)
  unfolding append_posture
  append_posture_rest s th pt = (refl, refl)

  new-IsOrderly : (now : Time) → IsOrderly now (new_store {F = F})
  unfolding get lookup
  new-IsOrderly now = record {
    records = λ tenant id r q. absurd (ground arith);
    window = refl;
    most = refl;
    posture = λ tenant. (omega arith, tt);
    calibration = λ tenant. (omega arith, tt);
  }

  observe_pass-IsOrderly :
      (then' now : Time) (s : Store F) (tenant : String) (os : List (Observation F)) (risk : F)
      → then' ≤ now
      → IsOrderly then' s
      → IsOrderly now (observe_pass s tenant os risk now)
  unfolding observe_pass
  observe_pass-IsOrderly then' now s tenant os risk le h =
      let th = history_of s tenant in
      let older : TenantHistory F = record th { paths = observe_paths tenant now os th.paths } in
      let pt : PosturePoint F = record { at = now; critical_paths = length os; risk_pct = risk } in
      let (paths, calibration) = append_posture_rest s older pt in
      put-IsOrderly then' now s tenant (append_posture s older pt).0 le h
        (λ id r q.
          aged-InOrder then' now tenant id (sighting os id) (get s tenant id) r le
            (sighting-id os id) (h.records tenant id)
            (ground (
              arith,
              paths,
              path_at-observe_paths tenant now os th.paths id,
              get-history_of s tenant id,
            )))
        (append_posture-Trend then' s older pt h (h.posture tenant))
        (rw calibration (h.calibration tenant))

  kept_records :
      (then' now : Time) (s : Store F) (tenant : String) (th : TenantHistory F)
      → then' ≤ now
      → IsOrderly then' s
      → th.paths ≡ (history_of s tenant).paths
      → (id : String) (r : PathRecord F) → path_at th.paths id ≡ some r
      → InOrder now id r
  kept_records then' now s tenant th le h same id r q =
      later-InOrder then' now id r le
        (h.records tenant id r (ground (arith, same, get-history_of s tenant id)))

  sample_trend-IsOrderly :
      (then' now : Time) (s : Store F) (tenant : String) (critical : ℕ) (risk : F)
      → then' ≤ now
      → IsOrderly then' s
      → IsOrderly now (sample_trend s tenant critical risk now)
  unfolding sample_trend
  sample_trend-IsOrderly then' now s tenant critical risk le h =
      let th = history_of s tenant in
      let pt : PosturePoint F = record { at = now; critical_paths = critical; risk_pct = risk } in
      let (paths, calibration) = append_posture_rest s th pt in
      put-IsOrderly then' now s tenant (append_posture s th pt).0 le h
        (kept_records then' now s tenant (append_posture s th pt).0 le h paths)
        (append_posture-Trend then' s th pt h (h.posture tenant))
        (rw calibration (h.calibration tenant))

  sample_calibration-IsOrderly :
      (then' now : Time) (s : Store F) (tenant : String) (brier ece : F) (samples : ℕ)
      → then' ≤ now
      → IsOrderly then' s
      → IsOrderly now (sample_calibration s tenant brier ece samples now)
  unfolding sample_calibration
  sample_calibration-IsOrderly then' now s tenant brier ece samples le h =
      let th = history_of s tenant in
      let pt : CalibrationSample F = record {
        at = now;
        brier = brier;
        ece = ece;
        samples = samples;
      } in
      let renew = λ (p q : CalibrationSample F).
        let renewed : CalibrationSample F = record p {
          brier = q.brier;
          ece = q.ece;
          samples = q.samples;
        } in
        renewed in
      let series : List (CalibrationSample F) =
        (append_sample (λ p. p.at) renew s.sample_every s.max_points th.calibration pt).0 in
      put-IsOrderly then' now s tenant (record th { calibration = series }) le h
        (λ id r q.
          later-InOrder then' now id r le
            (h.records tenant id r (ground (arith, q, get-history_of s tenant id))))
        (h.posture tenant)
        (rw (h.window, h.most)
          (append_sample-IsTrend (λ p. p.at) default_sample_every renew (λ p q. refl)
            default_max_points th.calibration pt (h.calibration tenant)))

  -- Whatever calls were made while the clock did not go back, each record is that of its path, its times
  -- are in order and none is in the future, it says when the path was resolved exactly where the
  -- path is not open, and both series of each tenant hold no more samples than they may, each at
  -- least a window after the one before.
  pub Reach-IsOrderly : {s : Store F} {now : Time} → Reach s now → IsOrderly now s
  Reach-IsOrderly (Reach.start now) = new-IsOrderly now
  Reach-IsOrderly (Reach.passed {s} {then'} tenant os risk now r le) =
      observe_pass-IsOrderly then' now s tenant os risk le (Reach-IsOrderly r)
  Reach-IsOrderly (Reach.sampled {s} {then'} tenant critical risk now r le) =
      sample_trend-IsOrderly then' now s tenant critical risk le (Reach-IsOrderly r)
  Reach-IsOrderly (Reach.calibrated {s} {then'} tenant brier ece samples now r le) =
      sample_calibration-IsOrderly then' now s tenant brier ece samples le (Reach-IsOrderly r)
