-- ===== src/Analyzer/Alternatives/Sequences.antt =====
-- Sequences of nodes: their ends, that no node is there twice, and what they cost
-- (backend/internal/analyzer/kshortest.go).
use perspectivegraph.Base.Maps.{elem}
use perspectivegraph.Base.Distinct.{yes_sym, Simple, All, All-map}
use perspectivegraph.Base.{
  ℕ, ◌<◌, ◌≤◌, String, String_discrete, true, false, ◌||◌, Option, none, some, List, [], ◌∷◌, ◌++◌,
  ◌≡◌, inl, inr, refl, arith, Floats, Option-cases,
}
use perspectivegraph.Analyzer.Weights.{OutEdge}
use perspectivegraph.Analyzer.Dijkstra.Invariant.{rank}
use perspectivegraph.Analyzer.Alternatives.{WGraph, hop_at, cost_from}

abbrev pub first : List String → Option String
first [] = none
first (u ∷ us) = some u

abbrev pub final : List String → Option String
final [] = none
final (u ∷ us) = elim us as (λ _. Option String) [ [] ↦ some u | _ ∷ _ ↦ final us ]

pub final-snoc : (us : List String) (v : String) → final (us ++ v ∷ []) ≡ some v
final-snoc [] v = refl
final-snoc (u ∷ []) v = refl
final-snoc (u ∷ w ∷ us) v = final-snoc (w ∷ us) v

pub first-snoc :
    (us : List String) (v w : String) → first us ≡ some w → first (us ++ v ∷ []) ≡ some w
first-snoc [] v w h = absurd (ground arith)
first-snoc (u ∷ us) v w h = h

pub Simple-prefix : (us vs : List String) → Simple (us ++ vs) → Simple us
Simple-prefix [] vs h = tt
Simple-prefix (u ∷ us) vs (q, h) = (not-elem-prefix u us vs q, Simple-prefix us vs h)
  where
    not-elem-prefix :
        (w : String) (xs ys : List String)
        → elem String_discrete w (xs ++ ys) ≡ false
        → elem String_discrete w xs ≡ false
    not-elem-prefix w [] ys e = refl
    not-elem-prefix w (x ∷ xs) ys e = ground (arith, not-elem-prefix w xs ys)

elem-append :
    (w : String) (us vs : List String)
    → elem String_discrete w (us ++ vs) ≡ (elem String_discrete w us || elem String_discrete w vs)
elem-append w [] vs = refl
elem-append w (u ∷ us) vs = ground (arith, elem-append w us vs)

-- A node that none of the others is.
pub not-elem-All :
    (u : String) (us vs : List String)
    → All (λ w. elem String_discrete w (u ∷ us) ≡ false) vs
    → elem String_discrete u vs ≡ false
not-elem-All u us [] h = refl
not-elem-All u us (v ∷ vs) (q, h) = ground (arith, yes_sym u v, not-elem-All u us vs h)

pub Simple-append :
    (us vs : List String)
    → Simple us
    → Simple vs
    → All (λ w. elem String_discrete w us ≡ false) vs
    → Simple (us ++ vs)
Simple-append [] vs h k a = k
Simple-append (u ∷ us) vs (q, h) k a = (
  ground (arith, elem-append u us vs, not-elem-All u us vs a),
  Simple-append us vs h k (
      All-map (λ w. elem String_discrete w (u ∷ us) ≡ false)
        (λ w. elem String_discrete w us ≡ false) vs (λ w e. ground arith) a),
)

final-mem : (us : List String) (d : String) → final us ≡ some d → elem String_discrete d us ≡ true
final-mem [] d h = absurd (ground arith)
final-mem (u ∷ []) d h = ground arith
final-mem (u ∷ w ∷ us) d h = ground (arith, final-mem (w ∷ us) d h)

pub final-append :
    (us vs : List String) (d : String) → final vs ≡ some d → final (us ++ vs) ≡ some d
final-append [] vs d h = h
final-append (u ∷ []) [] d h = absurd (ground arith)
final-append (u ∷ []) (v ∷ vs) d h = h
final-append (u ∷ w ∷ us) vs d h = final-append (w ∷ us) vs d h

-- What the sequence ends in, or goes on with, is not in the part before.
pub Simple-apart :
    (us vs : List String) (w : String)
    → Simple (us ++ vs)
    → elem String_discrete w vs ≡ true
    → elem String_discrete w us ≡ false
Simple-apart [] vs w h m = refl
Simple-apart (u ∷ us) vs w (q, h) m = elim (String_discrete w u) [
  | yes p ↦ absurd (
      let r : elem String_discrete w (us ++ vs) ≡ false = rw p q in
      ground (arith, elem-append w us vs))
  | no p ↦ ground (arith, Simple-apart us vs w h m)
]

pub final-apart :
    (us vs : List String) (d : String)
    → Simple (us ++ vs)
    → final vs ≡ some d
    → elem String_discrete d us ≡ false
final-apart us vs d h q = Simple-apart us vs d h (final-mem vs d q)

pub first-append :
    (us vs ws : List String) → first vs ≡ first ws → first (us ++ vs) ≡ first (us ++ ws)
first-append [] vs ws h = h
first-append (u ∷ us) vs ws h = refl

-- No node is in an empty set.
pub none_gone : (us : List String) → All (λ u. elem String_discrete u [] ≡ false) us
none_gone [] = tt
none_gone (u ∷ us) = (refl, none_gone us)

-- Nodes of a bounded rank are not a node of a higher one.
pub not-elem-rank :
    (done : List String) (v : String) (n : ℕ) (us : List String)
    → All (λ u. rank u done ≤ n) us
    → n < rank v done
    → elem String_discrete v us ≡ false
not-elem-rank done v n [] h q = refl
not-elem-rank done v n (u ∷ us) (le, h) q = elim (String_discrete v u) [
  | yes p ↦ absurd (let r : rank u done ≡ rank v done = rw p refl in omega (arith, le, q, r))
  | no p ↦ ground (arith, not-elem-rank done v n us h q)
]

module _ {F : Type 0} (fl : Floats F) (g : WGraph F) where
  -- One more hop costs its weight more.
  pub cost_from-snoc :
      (us : List String) (u v : String) (e : OutEdge F) (c b : F)
      → cost_from fl g c (us ++ u ∷ []) ≡ some b
      → hop_at g u v ≡ some e
      → cost_from fl g c ((us ++ u ∷ []) ++ v ∷ []) ≡ some (fl.add b e.weight)
  unfolding cost_from
  cost_from-snoc [] u v e c b at hop = ground arith
  cost_from-snoc (x ∷ []) u v e c b at hop = elim (Option-cases (hop_at g x u)) [
    | inl q ↦ absurd (ground arith)
    | inr (d, q) ↦
        rw (q, cost_from)
          (cost_from-snoc [] u v e (fl.add c d.weight) b (rw (q, cost_from) at at) hop)
  ]
  cost_from-snoc (x ∷ y ∷ us) u v e c b at hop = elim (Option-cases (hop_at g x y)) [
    | inl q ↦ absurd (ground arith)
    | inr (d, q) ↦
        rw (q, cost_from)
          (cost_from-snoc (y ∷ us) u v e (fl.add c d.weight) b (rw (q, cost_from) at at) hop)
  ]
