-- ===== src/Tests/Limits.antt =====
-- A limiter of one client, asked from two addresses. A bucket here is the number of requests left.
use perspectivegraph.Base.{
  ℕ, zero, suc, String, Bool, true, false, ◌≡◌, ◌≢◌, refl, arith, if◌then◌else◌,
}
use text.Mathlib.TextEquality.{eq_iff}
use perspectivegraph.Ratelimit.{
  Buckets, Limiter, client_at, new_limiter, with_max_clients, sweep_due, allow,
}
use perspectivegraph.Ratelimit.Table.{IsBounded, Reach, unless_idle, Reach-IsBounded, allow_apart}

abbrev first : String
first = "10.0.0.1"

abbrev second_address : String
second_address = "10.0.0.2"

abbrev three : Buckets ℕ
three = record {
  full = 3;
  request = λ now b. elim b as (λ _. Bool × ℕ) [ zero ↦ (false, 0) | suc n ↦ (true, n) ];
}

small : Limiter ℕ
small = with_max_clients (new_limiter three 0) 1

asked : Limiter ℕ
unfolding small
asked = (allow three small first 1).1

asked_reached : Reach three asked
unfolding small asked
asked_reached = Reach.requested first 1 (Reach.configured 1 (Reach.start 0) refl)

Reach-IsBounded_example : IsBounded (allow three asked second_address 2).1
Reach-IsBounded_example = Reach-IsBounded three (Reach.requested second_address 2 asked_reached)

apart : first ≢ second_address
apart e = ground (arith, eq_iff first second_address)

allow_apart_example :
    client_at (allow three asked second_address 2).1 first
    ≡ (if sweep_due asked 2 then unless_idle 2 (client_at asked first) else client_at asked first)
allow_apart_example = allow_apart three asked second_address first 2 apart
