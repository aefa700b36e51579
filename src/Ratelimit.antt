-- ===== src/Ratelimit.antt =====
-- The limit on requests by address (backend/internal/ratelimit/ratelimit.go). The token bucket of
-- golang.org/x/time/rate is a parameter: a full bucket, and a request at a time. A `Limiter` that is
-- nil, the middleware's HTTP answer and the address of a request are left out.
pub mod Table
use mathlib.Core.List.{lookup}
use perspectivegraph.Base.Maps.{Map, insert, erase, keys}
use perspectivegraph.Base.{
  ℕ, ◌-◌, ◌*◌, String, String_discrete, Bool, true, false, not, ◌&&◌, ◌||◌, Option, none, some,
  List, [], ◌∷◌, foldl, Time, second, is_some, ltb, leb, if◌then◌else◌, length,
}

pub record Buckets (B : Type 0) : Type 0 where
  pub full : B
  pub request : Time → B → Bool × B

pub record Client (B : Type 0) : Type 0 where
  pub lim : B
  pub seen : Time

pub record Limiter (B : Type 0) : Type 0 where
  pub max_clients : ℕ
  pub overflow : B
  pub clients : Map String (Client B)
  pub last_gc : Time

-- Ten minutes.
abbrev pub ttl : Time
ttl = 600 * second

abbrev pub default_max_clients : ℕ
default_max_clients = 100000

module _ {B : Type 0} where
  abbrev pub client_at : Limiter B → String → Option (Client B)
  client_at l ip = lookup String_discrete ip l.clients

  -- New, at a time
  abbrev pub new_limiter : Buckets B → Time → Limiter B
  new_limiter bs now = record {
    max_clients = default_max_clients;
    overflow = bs.full;
    clients = [];
    last_gc = now;
  }

  -- WithMaxClients
  unfoldable pub with_max_clients : Limiter B → ℕ → Limiter B
  with_max_clients l n = if ltb 0 n then record l { max_clients = n } else l

  -- The body of the loop that drops idle clients.
  unfoldable pub drop_idle : Time → Limiter B → String → Limiter B
  drop_idle now l ip = elim (client_at l ip) [
    | none ↦ l
    | some c ↦
        if ltb ttl (now - c.seen)
        then record l { clients = erase String_discrete ip l.clients }
        else l
  ]

  abbrev pub sweep_due : Limiter B → Time → Bool
  sweep_due l now = ltb ttl (now - l.last_gc) || ltb l.max_clients (length l.clients)

  unfoldable pub collect : Limiter B → Time → Limiter B
  unfolding drop_idle
  collect l now =
      if sweep_due l now
      then record (foldl (drop_idle now) l (keys l.clients)) { last_gc = now }
      else l

  abbrev pub bucket_of : Buckets B → Option (Client B) → B
  bucket_of bs none = bs.full
  bucket_of bs (some c) = c.lim

  unfoldable pub allow : Buckets B → Limiter B → String → Time → Bool × Limiter B
  unfolding collect
  allow bs l ip now =
      let t = collect l now in
      let (over, rest) = bs.request now t.overflow in
      let (ok, left) = bs.request now (bucket_of bs (client_at t ip)) in
      if not (is_some (client_at t ip)) && leb t.max_clients (length t.clients)
      then (over, record t { overflow = rest })
      else (
        ok,
        record t {
          clients = insert String_discrete ip (record { lim = left; seen = now }) t.clients;
        },
      )
