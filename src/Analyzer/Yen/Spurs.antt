-- ===== src/Analyzer/Yen/Spurs.antt =====
-- The paths and candidates that Yen's algorithm holds, and one path's spurs
-- (backend/internal/analyzer/kshortest.go).
use mathlib.Core.List.{append_assoc}
use perspectivegraph.Base.Maps.{elem}
use perspectivegraph.Base.Sorting.{insert_by, sort_by}
use perspectivegraph.Base.{
  String, String_discrete, Bool, false, not, ◌&&◌, some, List, [], ◌∷◌, ◌++◌, ◌≡◌, inl, inr, refl,
  arith, Floats, FloatLaws, length, Bool-cases, Option-cases,
}
use perspectivegraph.Analyzer.Alternatives.{WGraph, CandPath, shortest, path_cost}
use perspectivegraph.Analyzer.Alternatives.Rows.{IsGraph}
use perspectivegraph.Base.Distinct.{yes_sym, Simple, All, All-snoc, Simple-snoc}
use perspectivegraph.Analyzer.Alternatives.Sequences.{
  first, final, Simple-prefix, Simple-append, final-append, Simple-apart, final-apart, first-append,
  none_gone,
}
use perspectivegraph.Analyzer.Alternatives.Shortest.{IsWay, shortest-Answers}
use perspectivegraph.Analyzer.Yen.{path_key, contains_path, next_hops, propose, try_spur, try_spurs}

module _ {F : Type 0} where
  abbrev pub key_of : CandPath F → String
  key_of c = path_key c.nodes

  abbrev pub keys_of : List (CandPath F) → List String
  keys_of [] = []
  keys_of (c ∷ cs) = key_of c ∷ keys_of cs

  pub keys_of-snoc :
      (cs : List (CandPath F)) (c : CandPath F)
      → keys_of (cs ++ c ∷ []) ≡ keys_of cs ++ key_of c ∷ []
  keys_of-snoc [] c = refl
  keys_of-snoc (x ∷ cs) c = ground (arith, keys_of-snoc cs c)

  contains_path-elem :
      (cs : List (CandPath F)) (c : CandPath F)
      → contains_path cs c ≡ elem String_discrete (key_of c) (keys_of cs)
  unfolding contains_path
  contains_path-elem [] c = refl
  contains_path-elem (x ∷ cs) c =
      ground (arith, yes_sym (key_of x) (key_of c), contains_path-elem cs c)

  module _ (less : CandPath F → CandPath F → Bool) (P : CandPath F → Type 0) where
    insert_by-All :
        (x : CandPath F) (cs : List (CandPath F)) → P x → All P cs → All P (insert_by less x cs)
    unfolding insert_by
    insert_by-All x [] p h = (p, tt)
    insert_by-All x (y ∷ ys) p (q, h) = elim (Bool-cases (less y x)) [
      | inl e ↦ rw e (q, insert_by-All x ys p h)
      | inr e ↦ rw e (p, (q, h))
    ]

    pub sort_by-All : (cs : List (CandPath F)) → All P cs → All P (sort_by less cs)
    unfolding sort_by
    sort_by-All [] h = tt
    sort_by-All (c ∷ cs) (p, h) = insert_by-All c (sort_by less cs) p (sort_by-All cs h)

  module _ (less : CandPath F → CandPath F → Bool) where
    elem-insert_by :
        (k : String) (x : CandPath F) (cs : List (CandPath F))
        → elem String_discrete k (keys_of (insert_by less x cs))
          ≡ elem String_discrete k (keys_of (x ∷ cs))
    unfolding insert_by
    elem-insert_by k x [] = refl
    elem-insert_by k x (y ∷ ys) = ground (arith, elem-insert_by k x ys)

    elem-sort_by :
        (k : String) (cs : List (CandPath F))
        → elem String_discrete k (keys_of (sort_by less cs)) ≡ elem String_discrete k (keys_of cs)
    unfolding sort_by
    elem-sort_by k [] = refl
    elem-sort_by k (c ∷ cs) =
        ground (arith, elem-insert_by k c (sort_by less cs), elem-sort_by k cs)

    insert_by-Simple :
        (x : CandPath F) (cs : List (CandPath F))
        → elem String_discrete (key_of x) (keys_of cs) ≡ false
        → Simple (keys_of cs)
        → Simple (keys_of (insert_by less x cs))
    unfolding insert_by
    insert_by-Simple x [] q h = (refl, tt)
    insert_by-Simple x (y ∷ ys) q (r, h) = elim (Bool-cases (less y x)) [
      | inr e ↦ rw e (q, (r, h))
      | inl e ↦ rw e (
        ground (arith, yes_sym (key_of y) (key_of x), elem-insert_by (key_of y) x ys),
        insert_by-Simple x ys (ground arith) h,
      )
    ]

    pub sort_by-Simple :
        (cs : List (CandPath F)) → Simple (keys_of cs) → Simple (keys_of (sort_by less cs))
    unfolding sort_by
    sort_by-Simple [] h = tt
    sort_by-Simple (c ∷ cs) (q, h) =
        insert_by-Simple c (sort_by less cs) (ground (arith, elem-sort_by (key_of c) cs))
          (sort_by-Simple cs h)

module _ {F : Type 0} (fl : Floats F) (g : WGraph F) (src dst : String) where
  -- A way from the source to the target that meets no node twice, at its cost.
  abbrev pub IsFound : CandPath F → Type 0
  IsFound c = IsWay fl g [] src dst c.nodes c.cost

  -- What is held between two steps: ways, no two with one key.
  pub record Held (a b : List (CandPath F)) : Type 0 where
    pub found : All IsFound a
    pub candidates : All IsFound b
    pub once : Simple (keys_of a)
    pub candidates_once : Simple (keys_of b)
    pub apart : All (λ c. elem String_discrete (key_of c) (keys_of a) ≡ false) b

module _ {F : Type 0} (fl : Floats F) (laws : FloatLaws fl) (g : WGraph F) (ok : IsGraph fl g.adj)
    (src dst : String) where
  abbrev Holds : List (CandPath F) → List (CandPath F) → Type 0
  Holds = Held fl g src dst

  abbrev Found : CandPath F → Type 0
  Found = IsFound fl g src dst

  propose-Held :
      (a b : List (CandPath F)) (total : List String)
      → Holds a b
      → ((cost : F) → path_cost fl g total ≡ some cost → IsWay fl g [] src dst total cost)
      → Holds a (propose fl g dst a b total (path_cost fl g total))
  unfolding propose
  propose-Held a b total h way = elim (Option-cases (path_cost fl g total)) [
    | inl q ↦ rw (q, propose) h
    | inr (cost, q) ↦
        let cp : CandPath F = record { nodes = total; cost = cost } in
        elim (Bool-cases (not (contains_path a cp) && not (contains_path b cp))) [
          | inr old ↦ rw (q, propose, old) h
          | inl new ↦
              rw (q, propose, new)
                (record {
                  found = h.found;
                  candidates = All-snoc Found b cp h.candidates (way cost q);
                  once = h.once;
                  candidates_once = rw (keys_of-snoc b cp) (
                      Simple-snoc (keys_of b) (key_of cp) h.candidates_once
                        (ground (arith, contains_path-elem b cp)));
                  apart =
                      All-snoc (λ c. elem String_discrete (key_of c) (keys_of a) ≡ false) b cp
                        h.apart (ground (arith, contains_path-elem a cp));
                })
        ]
  ]

  -- A root and a way on from its last node, away from the root's other nodes.
  rooted :
      (before : List String) (spur : String) (more us : List String) (d cost : F)
      → IsWay fl g before spur dst us d
      → first (before ++ spur ∷ more) ≡ some src
      → Simple (before ++ spur ∷ more)
      → path_cost fl g (before ++ us) ≡ some cost
      → IsWay fl g [] src dst (before ++ us) cost
  rooted before spur more us d cost way starts simple priced = record {
    starts = rw (first-append before us (spur ∷ more) way.starts) starts;
    ends = final-append before us dst way.ends;
    simple =
        Simple-append before us (Simple-prefix before (spur ∷ more) simple) way.simple way.here;
    here = none_gone (before ++ us);
    cost = priced;
  }

  try_spur-Held :
      (a b : List (CandPath F)) (before : List String) (spur : String) (more : List String)
      → Holds a b
      → first (before ++ spur ∷ more) ≡ some src
      → Simple (before ++ spur ∷ more)
      → final more ≡ some dst
      → Holds a (try_spur fl g dst a before spur b)
  unfolding try_spur
  try_spur-Held a b before spur more h starts simple ends =
      let cuts = next_hops a (length before) (before ++ spur ∷ []) in
      let answer =
        shortest-Answers fl laws g ok spur before cuts dst
          (Simple-apart before (spur ∷ more) spur simple (ground arith))
          (final-apart before (spur ∷ more) dst simple (final-append (spur ∷ []) more dst ends)) in
      elim (Option-cases (shortest fl g spur dst before cuts)) [
        | inl q ↦ rw (q, try_spur) h
        | inr (c, q) ↦
            let (_, way) = rw q at answer in
            rw (q, try_spur)
              (propose-Held a b (before ++ c.nodes) h (λ cost priced.
                rooted before spur more c.nodes c.cost cost way starts simple priced))
      ]

  -- The spurs of a path add only ways that are not held yet.
  pub try_spurs-Held :
      (a : List (CandPath F)) (rest before : List String) (b : List (CandPath F))
      → Holds a b
      → first (before ++ rest) ≡ some src
      → Simple (before ++ rest)
      → final rest ≡ some dst
      → Holds a (try_spurs fl g dst a before rest b)
  unfolding try_spurs
  try_spurs-Held a [] before b h starts simple ends = h
  try_spurs-Held a (spur ∷ []) before b h starts simple ends = h
  try_spurs-Held a (spur ∷ next ∷ more) before b h starts simple ends =
      let same = append_assoc before (spur ∷ []) (next ∷ more) in
      try_spurs-Held a (next ∷ more) (before ++ spur ∷ []) (try_spur fl g dst a before spur b)
        (try_spur-Held a b before spur (next ∷ more) h starts simple ends) (rw same starts)
        (rw same simple) ends
