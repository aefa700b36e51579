-- ===== src/Analyzer/Critical/Complete.antt =====
-- The critical paths are all there are, and no others (backend/internal/analyzer/attackpath.go).
use mathlib.Core.List.Memᴰ.{Memᴰ}
use mathlib.Core.List.Memᴰ as Memᴰ
use perspectivegraph.Base.Maps.{Map, elem}
use perspectivegraph.Base.{
  String, String_discrete, true, false, some, List, [], ◌∷◌, ◌++◌, ◌≡◌, ◌≢◌, ◌⊎◌, inl, inr, refl,
  sym, subst, arith, Floats, FloatLaws, float_zero,
}
use perspectivegraph.Ontology.{Node}
use perspectivegraph.Analyzer.Weights.{Adjacency}
use perspectivegraph.Analyzer.Dijkstra.Walks.{Walk, NonNegative}
use perspectivegraph.Analyzer.Paths.{AttackPath}
use perspectivegraph.Analyzer.Paths.Routes.{IsRoute, Least, PathsTo, paths_from_seed_least}
use perspectivegraph.Analyzer.Critical.{per_seed}

module _ {F : Type 0} (fl : Floats F) (adj : Adjacency F) where
  -- The steps of a path lead from a seed to a jewel at the least cost of a walk.
  pub record Routed (seed jewel : String) (p : AttackPath F) : Type 0 where
    pub cost : F
    pub least : Least fl adj seed jewel cost
    pub route : IsRoute fl adj seed (float_zero fl) p.steps jewel cost

  -- No least cost of a walk to a node is infinite.
  abbrev pub FiniteTo : String → String → Type 0
  FiniteTo seed jewel = (d : F) → Least fl adj seed jewel d → fl.is_inf d ≡ false

  pub path_to :
      {seed : String} {js : List String} {ps : List (AttackPath F)} (j : String) (c : F)
      → PathsTo fl adj seed js ps
      → elem String_discrete j js ≡ true
      → j ≢ seed
      → Walk fl adj seed j c
      → FiniteTo seed j
      → (p : AttackPath F) × Memᴰ p ps × Routed seed j p
  path_to j c PathsTo.no_more h apart w finite = absurd (ground arith)
  path_to j c (PathsTo.itself rest) h apart w finite =
      path_to j c rest (ground arith) apart w finite
  path_to {seed = seed} j c (PathsTo.skipped {j = k} un rest) h apart w finite =
      elim (String_discrete j k) [
        | yes p ↦ elim un [
          | inl never ↦ absurd (never c (subst (λ v. Walk fl adj seed v c) p w))
          | inr (d, least, inf) ↦
              absurd (
                let f = finite d (subst (λ v. Least fl adj seed v d) (sym p) least) in ground arith)
        ]
        | no p ↦ path_to j c rest (ground arith) apart w finite
      ]
  path_to {seed = seed} j c (PathsTo.found {j = k} {d = d} {p = path} ne least route rest) h apart w
        finite =
      elim (String_discrete j k) [
        | yes p ↦ (
          path,
          Memᴰ.head refl,
          record {
            cost = d;
            least = subst (λ v. Least fl adj seed v d) (sym p) least;
            route = subst (λ v. IsRoute fl adj seed (float_zero fl) path.steps v d) (sym p) route;
          },
        )
        | no p ↦
            let (q, m, r) = path_to j c rest (ground arith) apart w finite in (q, Memᴰ.tail m, r)
      ]

  pub path_of :
      {seed : String} {js : List String} {ps : List (AttackPath F)} (p : AttackPath F)
      → PathsTo fl adj seed js ps
      → Memᴰ p ps
      → (j : String) × (elem String_discrete j js ≡ true) × (j ≢ seed) × Routed seed j p
  path_of p PathsTo.no_more m = elim m [ ]
  path_of p (PathsTo.itself rest) m =
      let (j, h, ne, r) = path_of p rest m in (j, ground arith, ne, r)
  path_of p (PathsTo.skipped un rest) m =
      let (j, h, ne, r) = path_of p rest m in (j, ground arith, ne, r)
  path_of {seed = seed} p (PathsTo.found {j = k} {d = d} {p = path} ne least route rest) m =
      elim m [
        | Memᴰ.head e ↦ (
          k,
          ground arith,
          ne,
          record {
            cost = d;
            least = least;
            route = subst (λ x. IsRoute fl adj seed (float_zero fl) x.steps k d) (sym e) route;
          },
        )
        | Memᴰ.tail m' ↦ let (j, h, apart, r) = path_of p rest m' in (j, ground arith, apart, r)
      ]

  module _ (laws : FloatLaws fl) (nn : NonNegative fl adj) (nodes : Map String (Node F))
      (jewels : List String) where
    -- The buckets of some seeds, put together.
    pub record Buckets (seeds : List String) (ps : List (AttackPath F)) : Type 0 where
      pub has :
          (s : String)
          → elem String_discrete s seeds ≡ true
          → (qs : List (AttackPath F)) × PathsTo fl adj s jewels qs
            × ((p : AttackPath F) → Memᴰ p qs → Memᴰ p ps)
      pub only :
          (p : AttackPath F)
          → Memᴰ p ps
          → (s : String) × (elem String_discrete s seeds ≡ true)
            × (qs : List (AttackPath F)) × PathsTo fl adj s jewels qs
            × Memᴰ p qs

    pub mem_append :
        (p : AttackPath F) (ps qs : List (AttackPath F)) → Memᴰ p (ps ++ qs) → Memᴰ p ps ⊎ Memᴰ p qs
    mem_append p [] qs m = inr m
    mem_append p (x ∷ ps) qs m = elim m [
      | Memᴰ.head e ↦ inl (Memᴰ.head e)
      | Memᴰ.tail m' ↦ elim (mem_append p ps qs m') [ inl n ↦ inl (Memᴰ.tail n) | inr n ↦ inr n ]
    ]

    pub per_seed-Buckets :
        (seeds : List String)
        → (ps : List (AttackPath F)) × (per_seed fl adj nodes jewels seeds ≡ some ps)
          × Buckets seeds ps
    unfolding per_seed
    per_seed-Buckets [] =
        ([], refl, record { has = λ s h. absurd (ground arith); only = λ p m. elim m [ ] })
    per_seed-Buckets (seed ∷ seeds) =
        let (ps, one, paths) = paths_from_seed_least fl laws adj seed nn nodes jewels in
        let (qs, more, rest) = per_seed-Buckets seeds in
        (
          ps ++ qs,
          ground (arith, one, more),
          record {
            has = λ s h. elim (String_discrete s seed) [
              | yes p ↦ (
                ps,
                subst (λ v. PathsTo fl adj v jewels ps) (sym p) paths,
                λ x m. Memᴰ.append_left qs m,
              )
              | no p ↦
                  let (rs, to, sub) = rest.has s (ground arith) in
                  (rs, to, λ x m. Memᴰ.append_right ps (sub x m))
            ];
            only = λ x m. elim (mem_append x ps qs m) [
              | inl n ↦ (seed, ground arith, ps, paths, n)
              | inr n ↦ let (s, h, rs, to, n') = rest.only x n in (s, ground arith, rs, to, n')
            ];
          },
        )
