-- ===== src/History/Trend.antt =====
-- A series of samples stays short, and its samples apart (backend/internal/history/history.go).
use perspectivegraph.Base.{
  ℕ, zero, suc, ◌+◌, ◌-◌, ◌≤◌, List, [], ◌∷◌, ◌++◌, ◌≡◌, inl, inr, refl, arith, Time, ltb,
  if◌then◌else◌, length, Bool-cases,
}
use perspectivegraph.History.{drop, last_of, init_of, append_sample}

module _ {P : Type 0} where
  length-drop : (n : ℕ) (ps : List P) → length (drop n ps) ≡ length ps - n
  length-drop n [] = omega arith
  length-drop zero (p ∷ ps) = omega arith
  length-drop (suc n) (p ∷ ps) = omega (arith, length-drop n ps)

  length-init_of : (p : P) (ps : List P) (q : P) → length (init_of p ps ++ q ∷ []) ≡ length (p ∷ ps)
  length-init_of p [] q = refl
  length-init_of p (x ∷ ps) q = omega (arith, length-init_of x ps q)

module _ {P : Type 0} (at_of : P → Time) (every : ℕ) where
  abbrev pub Follows : P → List P → Type 0
  Follows p [] = Unit {0}
  Follows p (q ∷ qs) = at_of p + every ≤ at_of q

  -- Each sample is at least a window after the one before it.
  abbrev pub Spaced : List P → Type 0
  Spaced [] = Unit {0}
  Spaced (p ∷ ps) = Follows p ps × Spaced ps

  -- The series is short and its samples apart.
  abbrev pub IsTrend : ℕ → List P → Type 0
  IsTrend most ps = (length ps ≤ most) × Spaced ps

  drop-Spaced : (n : ℕ) (ps : List P) → Spaced ps → Spaced (drop n ps)
  drop-Spaced n [] h = tt
  drop-Spaced zero (p ∷ ps) h = h
  drop-Spaced (suc n) (p ∷ ps) (f, h) = drop-Spaced n ps h

  snoc-Spaced :
      (p : P) (ps : List P) (q : P)
      → Spaced (p ∷ ps)
      → at_of (last_of p ps) + every ≤ at_of q
      → Spaced (p ∷ ps ++ q ∷ [])
  snoc-Spaced p [] q h far = (far, (tt, tt))
  snoc-Spaced p (x ∷ ps) q (f, h) far = (f, snoc-Spaced x ps q h far)

  module _ (renew : P → P → P) (keeps : (p q : P) → at_of (renew p q) ≡ at_of p) where
    renew-Follows :
        (o p : P) (ps : List P) (q : P)
        → Follows o (p ∷ ps)
        → Follows o (init_of p ps ++ renew (last_of p ps) q ∷ [])
    renew-Follows o p [] q f = ground (arith, keeps p q)
    renew-Follows o p (x ∷ ps) q f = f

    renew-Spaced :
        (p : P) (ps : List P) (q : P)
        → Spaced (p ∷ ps)
        → Spaced (init_of p ps ++ renew (last_of p ps) q ∷ [])
    renew-Spaced p [] q h = (tt, tt)
    renew-Spaced p (x ∷ ps) q (f, h) = (renew-Follows p x ps q f, renew-Spaced x ps q h)

    trim-IsTrend :
        (most : ℕ) (ps : List P)
        → Spaced ps
        → IsTrend most (if ltb most (length ps) then drop (length ps - most) ps else ps)
    trim-IsTrend most ps h = elim (Bool-cases (ltb most (length ps))) [
      | inl q ↦
          rw q
            (ground (arith, length-drop (length ps - most) ps), drop-Spaced (length ps - most) ps h)
      | inr q ↦ rw q (ground arith, h)
    ]

    pub append_sample-IsTrend :
        (most : ℕ) (ps : List P) (q : P)
        → IsTrend most ps
        → IsTrend most (append_sample at_of renew every most ps q).0
    unfolding append_sample
    append_sample-IsTrend most [] q h = trim-IsTrend most (q ∷ []) (tt, tt)
    append_sample-IsTrend most (p ∷ ps) q (few, h) =
        elim (Bool-cases (ltb (at_of q) (at_of (last_of p ps) + every))) [
          | inl r ↦ rw r (
            omega (arith, few, length-init_of p ps (renew (last_of p ps) q)),
            renew-Spaced p ps q h,
          )
          | inr r ↦
              rw r (trim-IsTrend most (p ∷ ps ++ q ∷ []) (snoc-Spaced p ps q h (ground arith)))
        ]
