-- ===== src/Ratelimit/Table.antt =====
-- The table of clients stays bounded, and a client's budget is its own
-- (backend/internal/ratelimit/ratelimit.go).
use mathlib.Core.List.{lookup}
use perspectivegraph.Base.Maps.{
  Map, insert, erase, keys, lookup-insert, lookup-erase, elem-keys, range_view, foldl_inv,
}
use perspectivegraph.Base.{
  ℕ, ◌+◌, ◌-◌, ◌≤◌, ◌<◌, String, String_discrete, Option, none, some, [], ◌∷◌, ◌≡◌, ◌≢◌, inl, inr,
  refl, arith, Time, is_some, is_yes, ltb, if◌then◌else◌, length, Option-cases,
}
use perspectivegraph.Ratelimit.{
  Buckets, Client, Limiter, ttl, client_at, new_limiter, with_max_clients, drop_idle, sweep_due,
  collect, bucket_of, allow,
}

module _ {V : Type 0} where
  length-insert :
      (k : String) (v : V) (m : Map String V)
      → length (insert String_discrete k v m)
        ≡ (if is_some (lookup String_discrete k m) then length m else length m + 1)
  unfolding insert lookup
  length-insert k v [] = refl
  length-insert k v (e ∷ m) = ground (arith, length-insert k v m)

  length-erase : (k : String) (m : Map String V) → length (erase String_discrete k m) ≤ length m
  unfolding erase
  length-erase k [] = omega arith
  length-erase k (e ∷ m) = ground (arith, length-erase k m)

module _ {B : Type 0} where
  -- The table holds no more clients than it may.
  abbrev pub IsBounded : Limiter B → Type 0
  IsBounded l = (0 < l.max_clients) × (length l.clients ≤ l.max_clients)

  drop_idle-IsBounded :
      (now : Time) (l : Limiter B) (ip : String) → IsBounded l → IsBounded (drop_idle now l ip)
  unfolding drop_idle
  drop_idle-IsBounded now l ip h = elim (Option-cases (client_at l ip)) [
    | inl e ↦ rw (e, drop_idle) h
    | inr (c, e) ↦ rw (e, drop_idle) (ground (arith, h, length-erase ip l.clients))
  ]

  collect-IsBounded : (l : Limiter B) (now : Time) → IsBounded l → IsBounded (collect l now)
  unfolding collect
  collect-IsBounded l now h =
      let swept =
        foldl_inv IsBounded (drop_idle now) (drop_idle-IsBounded now) (keys l.clients) l h in
      ground (arith, h, swept)

  -- A client that has been idle for longer than the TTL.
  abbrev pub unless_idle : Time → Option (Client B) → Option (Client B)
  unless_idle now none = none
  unless_idle now (some c) = if ltb ttl (now - c.seen) then none else some c

  client_at-drop_idle :
      (now : Time) (l : Limiter B) (j ip : String)
      → client_at (drop_idle now l ip) j
        ≡ (if is_yes (String_discrete j ip) then unless_idle now (client_at l j) else client_at l j)
  unfolding drop_idle
  client_at-drop_idle now l j ip = ground (arith, lookup-erase String_discrete j ip l.clients)

  unless_idle_idem :
      (now : Time) (o : Option (Client B)) → unless_idle now (unless_idle now o) ≡ unless_idle now o
  unless_idle_idem now none = refl
  unless_idle_idem now (some c) = ground arith

  client_at-collect :
      (l : Limiter B) (now : Time) (j : String)
      → client_at (collect l now) j
        ≡ (if sweep_due l now then unless_idle now (client_at l j) else client_at l j)
  unfolding collect
  client_at-collect l now j = ground (
    arith,
    range_view String_discrete (drop_idle now) (λ i k. client_at k i) (λ _. unless_idle now)
        (λ k i ip h. ground (arith, client_at-drop_idle now k i ip))
        (λ k ip. ground (arith, client_at-drop_idle now k ip ip)) (λ _. unless_idle_idem now)
        (keys l.clients) l j,
    elem-keys String_discrete j l.clients,
  )

  module _ (bs : Buckets B) where
    allow-IsBounded :
        (l : Limiter B) (ip : String) (now : Time) → IsBounded l → IsBounded (allow bs l ip now).1
    unfolding allow
    allow-IsBounded l ip now h =
        let t = collect l now in
        let (_, left) = bs.request now (bucket_of bs (client_at t ip)) in
        ground (
          arith,
          collect-IsBounded l now h,
          length-insert ip (record { lim = left; seen = now }) t.clients,
        )

    -- The limiters that a new one can become, configured before they serve a request.
    pub data Reach : Limiter B → Type 0 where
      start : (now : Time) → Reach (new_limiter bs now)
      configured : {l : Limiter B} (n : ℕ) → Reach l → l.clients ≡ [] → Reach (with_max_clients l n)
      requested : {l : Limiter B} (ip : String) (now : Time) → Reach l → Reach (allow bs l ip now).1

    -- However many addresses ask, the table never holds more clients than the limiter may track.
    pub Reach-IsBounded : {l : Limiter B} → Reach l → IsBounded l
    unfolding with_max_clients
    Reach-IsBounded (Reach.start now) = (omega arith, omega arith)
    Reach-IsBounded (Reach.configured n r q) = ground (arith, Reach-IsBounded r, q)
    Reach-IsBounded (Reach.requested {l} ip now r) = allow-IsBounded l ip now (Reach-IsBounded r)

    -- A request from one address changes no other client's bucket: the other client stays as it was, or
    -- goes because a sweep is due and it has been idle for longer than the TTL.
    pub allow_apart :
        (l : Limiter B) (ip j : String) (now : Time)
        → j ≢ ip
        → client_at (allow bs l ip now).1 j
          ≡ (if sweep_due l now then unless_idle now (client_at l j) else client_at l j)
    unfolding allow
    allow_apart l ip j now ne =
        let t = collect l now in
        let (_, left) = bs.request now (bucket_of bs (client_at t ip)) in
        ground (
          arith,
          client_at-collect l now j,
          lookup-insert String_discrete j ip (record { lim = left; seen = now }) t.clients,
        )
