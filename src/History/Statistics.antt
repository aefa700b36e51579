-- ===== src/History/Statistics.antt =====
-- The panel of the history: Stats and statsOf (backend/internal/history/history.go).
use mathlib.Core.List.{lookup}
use perspectivegraph.Base.Maps.{Map, keys}
use perspectivegraph.Base.Sorting.{sort_by, text_before}
use perspectivegraph.Base.{
  ℕ, ◌+◌, ◌-◌, ◌/◌, ◌%◌, String, String_discrete, Option, none, some, List, [], ◌∷◌, foldl, pos,
  Time, second, sub_ℕ, Floats, float_zero, ltb, leb, if◌then◌else◌,
}
use perspectivegraph.History.{PathRecord, Stats, Store, tenant_key, path_at}

module _ {F : Type 0} where
  -- `m[id]` for each id
  unfoldable pub records_at : Map String (PathRecord F) → List String → List (PathRecord F)
  records_at m [] = []
  records_at m (id ∷ ids) =
      let rest = records_at m ids in
      elim (path_at m id) as (λ _. List (PathRecord F)) [ none ↦ rest | some r ↦ r ∷ rest ]

  unfoldable pub sorted_paths : Map String (PathRecord F) → List (PathRecord F)
  unfolding records_at sort_by
  sorted_paths m = records_at m (sort_by text_before (keys m))

module _ {F : Type 0} (fl : Floats F) where
  -- `a.Sub(b).Seconds()`: whole seconds, and nanoseconds of either sign.
  abbrev pub seconds_between : Time → Time → F
  seconds_between a b =
      let n = if leb b a then a - b else b - a in
      let signed = λ (k : ℕ). if leb b a then pos k else sub_ℕ 0 k in
      fl.add (fl.of_int64 (signed (n / second)))
        (fl.div (fl.of_int64 (signed (n % second))) (fl.of_int64 (pos second)))

  -- `st.OldestOpenSince == nil || rec.FirstSeen.Before(*st.OldestOpenSince)`
  abbrev pub older : Option Time → Time → Option Time
  older none t = some t
  older (some o) t = if ltb t o then some t else some o

  -- The sum of the times to resolution and the statistics so far.
  abbrev pub Rolling : Type 0
  Rolling = Stats F × F

  abbrev pub count_open : Rolling → PathRecord F → Rolling
  count_open (st, total) r = (
    record st {
      open_paths = st.open_paths + 1;
      oldest_open_since = older st.oldest_open_since r.first_seen;
    },
    total,
  )

  abbrev pub count_resolved : Rolling → PathRecord F → Rolling
  count_resolved (st, total) r = elim r.resolved_at as (λ _. Rolling) [
    | none ↦ (st, total)
    | some t ↦ (
      record st { resolved_paths = st.resolved_paths + 1; mttr_count = st.mttr_count + 1 },
      fl.add total (seconds_between t r.first_seen),
    )
  ]

  -- The body of the loop of Stats, which skips the rest for an open path.
  unfoldable pub stats_step : Rolling → PathRecord F → Rolling
  stats_step st r = if r.is_open then count_open st r else count_resolved st r

  -- The body of the loop of statsOf.
  unfoldable pub stats_of_step : Rolling → PathRecord F → Rolling
  stats_of_step st r = count_resolved (if r.is_open then count_open st r else st) r

  abbrev pub no_stats : Rolling
  no_stats = (
    record {
      open_paths = 0;
      resolved_paths = 0;
      mttr_seconds = float_zero fl;
      mttr_count = 0;
      oldest_open_since = none;
    },
    float_zero fl,
  )

  abbrev pub mean : Rolling → Stats F
  mean (st, total) =
      if ltb 0 st.mttr_count
      then record st { mttr_seconds = fl.div total (fl.of_int64 (pos st.mttr_count)) }
      else st

  -- statsOf
  unfoldable pub stats_of : List (PathRecord F) → Stats F
  unfolding stats_of_step
  stats_of rs = mean (foldl stats_of_step no_stats rs)

  -- Stats
  unfoldable pub stats : Store F → String → Stats F
  unfolding stats_step sorted_paths
  stats s tenant = elim (lookup String_discrete (tenant_key tenant) s.by_tenant) [
    | none ↦ no_stats.0
    | some th ↦ mean (foldl stats_step no_stats (sorted_paths th.paths))
  ]
