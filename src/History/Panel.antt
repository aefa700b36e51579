-- ===== src/History/Panel.antt =====
-- The two computations of the panel agree (backend/internal/history/history.go).
use mathlib.Core.List.{lookup}
use perspectivegraph.Base.Maps.{Map, keys}
use perspectivegraph.Base.Sorting.{sort_by, text_before}
use perspectivegraph.Base.{
  String, String_discrete, Bool, true, false, Option, none, some, List, [], ◌∷◌, ◌≡◌, ◌∙◌, ap, inl,
  inr, refl, arith, foldl, Time, Floats, Option-cases, Bool-cases,
}
use perspectivegraph.History.{PathRecord, Store, new_history, history_of, tenant_key, path_at}
use perspectivegraph.History.Statistics.{
  Rolling, stats_step, stats_of_step, stats_of, records_at, no_stats, mean, sorted_paths, stats,
}
use perspectivegraph.History.Lifecycle.{get-history_of}
use perspectivegraph.History.Order.{Settled, InOrder}
use perspectivegraph.History.Runs.{Reach, Reach-IsOrderly}

module _ {F : Type 0} (fl : Floats F) where
  -- An open path has no time of resolution.
  abbrev Clean : PathRecord F → Type 0
  Clean r = r.is_open ≡ true → r.resolved_at ≡ none

  InOrder-Clean : (clock : Time) (id : String) (r : PathRecord F) → InOrder clock id r → Clean r
  InOrder-Clean clock id r h q =
      open_unresolved clock r.is_open r.last_seen r.resolved_at q h.settled
    where
      open_unresolved :
          (c : Time) (b : Bool) (last : Time) (o : Option Time)
          → b ≡ true
          → Settled c b last o
          → o ≡ none
      open_unresolved c true last none e k = refl
      open_unresolved c true last (some t) e k = elim k [ ]
      open_unresolved c false last o e k = absurd (ground arith)

  same_step :
      (st : Rolling fl) (r : PathRecord F) → Clean r → stats_step fl st r ≡ stats_of_step fl st r
  unfolding stats_step stats_of_step
  same_step st r clean = elim (Bool-cases r.is_open) [
    | inl q ↦ let e = clean q in ground arith
    | inr q ↦ ground arith
  ]

  abbrev AllClean : List (PathRecord F) → Type 0
  AllClean [] = Unit {0}
  AllClean (r ∷ rs) = Clean r × AllClean rs

  same_steps :
      (rs : List (PathRecord F)) (st : Rolling fl)
      → AllClean rs
      → foldl (stats_step fl) st rs ≡ foldl (stats_of_step fl) st rs
  same_steps [] st h = refl
  same_steps (r ∷ rs) st (clean, h) =
      rw (same_step st r clean) (same_steps rs (stats_of_step fl st r) h)

  records_at-AllClean :
      (m : Map String (PathRecord F)) (ids : List String)
      → ((id : String) (r : PathRecord F) → path_at m id ≡ some r → Clean r)
      → AllClean (records_at m ids)
  unfolding records_at
  records_at-AllClean m [] clean = tt
  records_at-AllClean m (id ∷ ids) clean = elim (Option-cases (path_at m id)) [
    | inl q ↦ rw (q, records_at) (records_at-AllClean m ids clean)
    | inr (r, q) ↦ rw (q, records_at) (clean id r q, records_at-AllClean m ids clean)
  ]

  stats_sorted :
      (s : Store F) (tenant : String)
      → stats fl s tenant
        ≡ mean fl (foldl (stats_step fl) (no_stats fl) (sorted_paths (history_of s tenant).paths))
  unfolding stats sorted_paths sort_by records_at
  stats_sorted s tenant =
      elim (Option-cases (lookup String_discrete (tenant_key tenant) s.by_tenant)) [
        | inl q ↦
            let e : history_of s tenant ≡ new_history = ground arith in rw (q, stats) (rw e refl)
        | inr (th, q) ↦ let e : history_of s tenant ≡ th = ground arith in rw (q, stats) (rw e refl)
      ]

  sorted_clean :
      (m : Map String (PathRecord F))
      → AllClean (records_at m (sort_by text_before (keys m)))
      → AllClean (sorted_paths m)
  unfolding sorted_paths
  sorted_clean m h = h

  mean_of_all :
      (m : Map String (PathRecord F))
      → mean fl (foldl (stats_of_step fl) (no_stats fl) (sorted_paths m))
        ≡ stats_of fl (sorted_paths m)
  unfolding stats_of
  mean_of_all m = refl

  -- In every history that calls can lead to while the clock does not go back, the panel that Stats
  -- computes for a tenant is the one that statsOf, which the database's store uses, computes from the
  -- tenant's records in the order of their ids.
  pub stats-stats_of :
      (s : Store F) (now : Time) (tenant : String)
      → Reach s now
      → stats fl s tenant ≡ stats_of fl (sorted_paths (history_of s tenant).paths)
  stats-stats_of s now tenant reach =
      let orderly = Reach-IsOrderly reach in
      let m = (history_of s tenant).paths in
      let clean = records_at-AllClean m (sort_by text_before (keys m)) (λ id r q.
        InOrder-Clean now id r
          (orderly.records tenant id r (ground (arith, get-history_of s tenant id)))) in
      stats_sorted s tenant
      ∙ ap (mean fl) (same_steps (sorted_paths m) (no_stats fl) (sorted_clean m clean))
      ∙ mean_of_all m
