-- ===== src/Tests/Past.antt =====
-- A history of two passes: a path that comes and goes.
use mathlib.Core.List.{lookup}
use perspectivegraph.Base.Maps.{insert}
use perspectivegraph.Base.{
  ℕ, ◌*◌, ◌≡◌, refl, arith, String_discrete, some, [], ◌∷◌, second, is_yes, if◌then◌else◌,
}
use perspectivegraph.Base.Sorting.{text_before}
use perspectivegraph.Tests.Numbers.{fl}
use perspectivegraph.History.{
  Observation, Store, new_store, history_of, tenant_key, observe_pass, get, trend,
}
use perspectivegraph.History.Lifecycle.{sighting, lived, get-observe_pass}
use perspectivegraph.History.Runs.{Reach, IsOrderly, Reach-IsOrderly}
use perspectivegraph.History.Statistics.{stats, stats_of, sorted_paths}
use perspectivegraph.History.Panel.{stats-stats_of}

abbrev open_path : Observation ℕ
open_path = record { id = "p1"; route = "web > db"; score = 36 }

abbrev other_path : Observation ℕ
other_path = record { id = "p2"; route = "web > bucket"; score = 12 }

abbrev empty : Store ℕ
empty = new_store

one_pass : Store ℕ
one_pass = observe_pass empty "" (open_path ∷ other_path ∷ []) 40 (100 * second)

two_passes : Store ℕ
two_passes = observe_pass one_pass "default" (other_path ∷ []) 10 (130 * second)

two_passes_reached : Reach two_passes (130 * second)
unfolding one_pass two_passes
two_passes_reached =
    Reach.passed "default" (other_path ∷ []) 10 (130 * second)
      (Reach.passed "" (open_path ∷ other_path ∷ []) 40 (100 * second) (Reach.start 0)
        (omega arith))
      (omega arith)

-- The path that is gone took half a minute, and the second sample falls in the first one's window.
after_two_passes :
    (stats fl two_passes "" ≡ record {
      open_paths = 1;
      resolved_paths = 1;
      mttr_seconds = 30;
      mttr_count = 1;
      oldest_open_since = some (100 * second);
    })
    × (trend two_passes "" 0 ≡ record { at = 100 * second; critical_paths = 1; risk_pct = 10 } ∷ [])
unfolding one_pass two_passes observe_pass stats trend lookup insert String_discrete text_before
after_two_passes = (refl, refl)

get-observe_pass_example :
    get (observe_pass one_pass "default" (other_path ∷ []) 10 (130 * second)) "" "p1" ≡ (
      if is_yes (String_discrete (tenant_key "") (tenant_key "default"))
      then lived "default" (130 * second) (sighting (other_path ∷ []) "p1") (get one_pass "" "p1")
      else get one_pass "" "p1")
get-observe_pass_example =
    get-observe_pass one_pass "default" "" "p1" (other_path ∷ []) 10 (130 * second)

Reach-IsOrderly_example : IsOrderly (130 * second) two_passes
Reach-IsOrderly_example = Reach-IsOrderly two_passes_reached

stats-stats_of_example :
    stats fl two_passes "" ≡ stats_of fl (sorted_paths (history_of two_passes "").paths)
stats-stats_of_example = stats-stats_of fl two_passes (130 * second) "" two_passes_reached
