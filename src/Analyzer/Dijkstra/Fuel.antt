-- ===== src/Analyzer/Dijkstra/Fuel.antt =====
-- How many out-edges the search still has before it (backend/internal/analyzer/attackpath.go).
use perspectivegraph.Base.Maps.{elem, keys, elem-keys}
use perspectivegraph.Base.{
  ℕ, ◌+◌, ◌≤◌, String, String_discrete, true, false, List, [], ◌∷◌, ◌≡◌, inl, inr, refl, arith,
  if◌then◌else◌, length, Bool-cases,
}
use perspectivegraph.Analyzer.Weights.{Adjacency, out_of}
use perspectivegraph.Analyzer.Dijkstra.{out_total}
use perspectivegraph.Analyzer.Dijkstra.Invariant.{is_done}

module _ {F : Type 0} (adj : Adjacency F) where
  -- The out-edges of some nodes that are not done.
  abbrev pub left : List String → List String → ℕ
  left done [] = 0
  left done (u ∷ us) = (if is_done u done then 0 else length (out_of adj u)) + left done us

  pub left-total : (us : List String) → left [] us ≡ out_total adj us
  left-total [] = refl
  left-total (u ∷ us) = ground (arith, left-total us)

  left-done_more : (x : String) (done us : List String) → left (x ∷ done) us ≤ left done us
  left-done_more x done [] = omega arith
  left-done_more x done (u ∷ us) = ground (arith, left-done_more x done us)

  left-done :
      (x : String) (done us : List String)
      → is_done x done ≡ false
      → elem String_discrete x us ≡ true
      → left (x ∷ done) us + length (out_of adj x) ≤ left done us
  left-done x done [] h q = absurd (ground arith)
  left-done x done (u ∷ us) h q = elim (String_discrete x u) [
    | yes p ↦
        let r : length (out_of adj u) ≡ length (out_of adj x) = rw p refl in
        ground (arith, left-done_more x done us, r)
    | no p ↦ ground (arith, left-done x done us)
  ]

  no_out : (x : String) → elem String_discrete x (keys adj) ≡ false → length (out_of adj x) ≡ 0
  no_out x h = ground (arith, elem-keys String_discrete x adj)

  pub left-keys :
      (x : String) (done : List String)
      → is_done x done ≡ false
      → left (x ∷ done) (keys adj) + length (out_of adj x) ≤ left done (keys adj)
  left-keys x done h = elim (Bool-cases (elem String_discrete x (keys adj))) [
    | inl e ↦ left-done x done (keys adj) h e
    | inr e ↦ omega (arith, no_out x e, left-done_more x done (keys adj))
  ]
