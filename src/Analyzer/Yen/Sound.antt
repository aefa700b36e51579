-- ===== src/Analyzer/Yen/Sound.antt =====
-- What Yen's algorithm hands back (backend/internal/analyzer/kshortest.go).
use perspectivegraph.Base.Maps.{elem}
use perspectivegraph.Base.Sorting.{sort_by}
use perspectivegraph.Base.{
  ℕ, zero, suc, ◌+◌, ◌≤◌, String, String_discrete, false, List, [], ◌∷◌, ◌++◌, ◌≡◌, inl, inr, refl,
  sym, subst, arith, ℤ, Floats, FloatLaws, is_yes, length, length-append, Option-cases, List-cases,
}
use perspectivegraph.Analyzer.Paths.Routes.{Least, Unreachable}
use perspectivegraph.Analyzer.Alternatives.{WGraph, CandPath, shortest, open_adjacency}
use perspectivegraph.Analyzer.Alternatives.Rows.{IsGraph}
use perspectivegraph.Base.Distinct.{yes_sym, Simple, All, All-snoc, Simple-snoc}
use perspectivegraph.Analyzer.Alternatives.Shortest.{shortest-Answers}
use perspectivegraph.Analyzer.Yen.{cheaper, try_spurs, yen, rounds_for, k_shortest}
use perspectivegraph.Analyzer.Yen.Spurs.{
  key_of, keys_of, keys_of-snoc, sort_by-All, sort_by-Simple, IsFound, Held, try_spurs-Held,
}

module _ {F : Type 0} (fl : Floats F) (g : WGraph F) (src dst : String) where
  -- The paths handed back.
  pub record Listed (n : ℕ) (out : List (CandPath F)) : Type 0 where
    pub found : All (IsFound fl g src dst) out
    pub once : Simple (keys_of out)
    pub few : length out ≤ n

  -- What the first path is: of least cost; with no path, the target is out of reach.
  abbrev pub Leads : List (CandPath F) → Type 0
  Leads [] = Unreachable fl (open_adjacency fl g [] []) src dst
  Leads (c ∷ _) = Least fl (open_adjacency fl g [] []) src dst c.cost

module _ {F : Type 0} (fl : Floats F) (laws : FloatLaws fl) (g : WGraph F) (ok : IsGraph fl g.adj)
    (src dst : String) where
  abbrev Holds : List (CandPath F) → List (CandPath F) → Type 0
  Holds = Held fl g src dst

  abbrev Found : CandPath F → Type 0
  Found = IsFound fl g src dst

  sort-Held : (a b : List (CandPath F)) → Holds a b → Holds a (sort_by (cheaper fl) b)
  sort-Held a b h = record {
    found = h.found;
    candidates = sort_by-All (cheaper fl) Found b h.candidates;
    once = h.once;
    candidates_once = sort_by-Simple (cheaper fl) b h.candidates_once;
    apart =
        sort_by-All (cheaper fl) (λ c. elem String_discrete (key_of c) (keys_of a) ≡ false) b
          h.apart;
  }

  elem-keys_of-snoc :
      (k : String) (a : List (CandPath F)) (c : CandPath F)
      → elem String_discrete k (keys_of a) ≡ false
      → is_yes (String_discrete k (key_of c)) ≡ false
      → elem String_discrete k (keys_of (a ++ c ∷ [])) ≡ false
  elem-keys_of-snoc k [] c h q = ground arith
  elem-keys_of-snoc k (x ∷ a) c h q = ground (arith, elem-keys_of-snoc k a c)

  apart-snoc :
      (a : List (CandPath F)) (best : CandPath F) (rest : List (CandPath F))
      → elem String_discrete (key_of best) (keys_of rest) ≡ false
      → All (λ c. elem String_discrete (key_of c) (keys_of a) ≡ false) rest
      → All (λ c. elem String_discrete (key_of c) (keys_of (a ++ best ∷ [])) ≡ false) rest
  apart-snoc a best [] h q = tt
  apart-snoc a best (c ∷ cs) h (q, qs) = (
    elem-keys_of-snoc (key_of c) a best q (ground (arith, yes_sym (key_of c) (key_of best))),
    apart-snoc a best cs (ground arith) qs,
  )

  take-Held :
      (a : List (CandPath F)) (best : CandPath F) (rest : List (CandPath F))
      → Holds a (best ∷ rest)
      → Holds (a ++ best ∷ []) rest
  take-Held a best rest h = record {
    found = All-snoc Found a best h.found h.candidates.0;
    candidates = h.candidates.1;
    once = rw (keys_of-snoc a best) (Simple-snoc (keys_of a) (key_of best) h.once h.apart.0);
    candidates_once = h.candidates_once.1;
    apart = apart-snoc a best rest h.candidates_once.0 h.apart.1;
  }

  yen-Listed :
      (rounds : ℕ) (a : List (CandPath F)) (last : CandPath F) (b : List (CandPath F))
      → Holds a b
      → Found last
      → Listed fl g src dst (length a + rounds) (yen fl g dst rounds a last.nodes b)
        × ((c : CandPath F) (cs : List (CandPath F))
            → a ≡ c ∷ cs
            → (more : List (CandPath F)) × (yen fl g dst rounds a last.nodes b ≡ c ∷ more))
  unfolding yen
  yen-Listed zero a last b h way =
      (record { found = h.found; once = h.once; few = omega arith }, λ c cs q. (cs, q))
  yen-Listed (suc rounds) a last b h way =
      let spurred =
        try_spurs-Held fl laws g ok src dst a last.nodes [] b h way.starts way.simple way.ends in
      let held = sort-Held a (try_spurs fl g dst a [] last.nodes b) spurred in
      elim (List-cases (sort_by (cheaper fl) (try_spurs fl g dst a [] last.nodes b))) [
        | inl q ↦
            rw (q, yen)
              (record { found = h.found; once = h.once; few = omega arith }, λ c cs e. (cs, e))
        | inr (best, rest, q) ↦
            let held' = rw q at held in
            let (out, lead) =
              yen-Listed rounds (a ++ best ∷ []) best rest (take-Held a best rest held')
                held'.candidates.0 in
            rw (q, yen)
              (
                record {
                  found = out.found;
                  once = out.once;
                  few = omega (arith, out.few, length-append a (best ∷ []));
                },
                λ c cs e. lead c (cs ++ best ∷ []) (rw e refl),
              )
      ]

  pub k_shortest-Listed :
      (k : ℤ)
      → Listed fl g src dst (rounds_for k + 1) (k_shortest fl g src dst k)
        × Leads fl g src dst (k_shortest fl g src dst k)
  unfolding k_shortest
  k_shortest-Listed k =
      let answer = shortest-Answers fl laws g ok src [] [] dst refl refl in
      elim (Option-cases (shortest fl g src dst [] [])) [
        | inl q ↦
            rw (q, k_shortest) (record { found = tt; once = tt; few = omega arith }, rw q at answer)
        | inr (c, q) ↦
            let (least, way) = rw q at answer in
            let (out, lead) =
              yen-Listed (rounds_for k) (c ∷ []) c []
                (record {
                  found = (way, tt);
                  candidates = tt;
                  once = (refl, tt);
                  candidates_once = tt;
                  apart = tt;
                })
                way in
            let (more, eq) = lead c [] refl in
            rw (q, k_shortest)
              (
                record { found = out.found; once = out.once; few = omega (arith, out.few) },
                subst (Leads fl g src dst) (sym eq) least,
              )
      ]
