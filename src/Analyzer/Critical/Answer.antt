-- ===== src/Analyzer/Critical/Answer.antt =====
-- What FindCriticalPaths answers (backend/internal/analyzer/attackpath.go).
use mathlib.Core.List.Memᴰ.{Memᴰ}
use mathlib.Core.List.Memᴰ as Memᴰ
use perspectivegraph.Base.Maps.{Map, elem}
use perspectivegraph.Base.{
  String, String_discrete, Bool, true, false, ◌||◌, some, List, [], ◌∷◌, ◌++◌, ◌≡◌, ◌≢◌, ◌⊎◌, inl,
  inr, refl, arith, map, Floats, FloatLaws, ◌==◌, length, Bool-cases, List-cases,
}
use perspectivegraph.Ontology.{Node, is_seed, held-is_seed}
use perspectivegraph.Graph.Contract.{Snapshot}
use perspectivegraph.Analyzer.Weights.{Adjacency, node_of, node_by_id, build_adjacency}
use perspectivegraph.Analyzer.Adjacency.{build_adjacency-NonNegative}
use perspectivegraph.Analyzer.Dijkstra.Walks.{Walk, NonNegative}
use perspectivegraph.Analyzer.Paths.{AttackPath}
use perspectivegraph.Analyzer.Critical.{
  is_jewel, is_direct, ids_where, direct_access_path, direct_access_paths, sort_paths,
  find_critical_paths,
}
use perspectivegraph.Analyzer.Critical.Roles.{lists, elem-ids_where}
use perspectivegraph.Analyzer.Critical.Ranking.{
  IsRanked, sort_paths-keeps, mem-sort_paths, sort_paths-IsRanked,
}
use perspectivegraph.Analyzer.Critical.Complete.{
  Routed, FiniteTo, path_to, path_of, Buckets, per_seed-Buckets, mem_append,
}

module _ {F : Type 0} (fl : Floats F) (upper_trim : String → String) (snap : Snapshot F) where
  abbrev pub index : Map String (Node F)
  index = node_by_id snap

  abbrev pub hops : Adjacency F
  hops = build_adjacency fl upper_trim snap.edges index

  -- The snapshot lists a node of the id, and the node that it stands for meets a test.
  abbrev pub Has : (Node F → Bool) → String → Type 0
  Has test id = (lists id snap.nodes ≡ true) × (test (node_of index id) ≡ true)

  abbrev pub direct_to : String → AttackPath F
  direct_to id = direct_access_path fl (node_of index id)

  -- An answer: it is ranked; it has a path of least cost for each seed and each other jewel that a
  -- walk reaches, and the direct path of each jewel that the attacker holds; and it has no others.
  pub record IsAnswer (ps : List (AttackPath F)) : Type 0 where
    pub ranked : IsRanked fl ps
    pub complete :
        (s j : String) (c : F)
        → Has is_seed s
        → Has is_jewel j
        → j ≢ s
        → Walk fl hops s j c
        → FiniteTo fl hops s j
        → (p : AttackPath F) × Memᴰ p ps × Routed fl hops s j p
    pub direct : (j : String) → Has is_direct j → Memᴰ (direct_to j) ps
    pub sound :
        (p : AttackPath F)
        → Memᴰ p ps
        → ((j : String) × Has is_direct j × (p ≡ direct_to j))
          ⊎ ((s : String) × (j : String) × Has is_seed s
              × Has is_jewel j
              × (j ≢ s)
              × Routed fl hops s j p)

  abbrev role : (Node F → Bool) → List String
  role test = ids_where test index [] snap.nodes

  Has-role :
      (test : Node F → Bool) (id : String)
      → elem String_discrete id (role test) ≡ true
      → Has test id
  Has-role test id h = (
    ground (arith, elem-ids_where test index snap.nodes [] id),
    ground (arith, elem-ids_where test index snap.nodes [] id),
  )

  role-Has :
      (test : Node F → Bool) (id : String)
      → Has test id
      → elem String_discrete id (role test) ≡ true
  role-Has test id (listed, met) = ground (arith, elem-ids_where test index snap.nodes [] id)

  mem-directs :
      (ids : List String) (id : String)
      → elem String_discrete id ids ≡ true
      → Memᴰ (direct_to id) (map direct_to ids)
  mem-directs [] id h = absurd (ground arith)
  mem-directs (x ∷ ids) id h = elim (String_discrete id x) [
    | yes p ↦ Memᴰ.head (rw p refl)
    | no p ↦ Memᴰ.tail (mem-directs ids id (ground arith))
  ]

  directs-mem :
      (ids : List String) (p : AttackPath F)
      → Memᴰ p (map direct_to ids)
      → (id : String) × (elem String_discrete id ids ≡ true) × (p ≡ direct_to id)
  directs-mem [] p m = elim m [ ]
  directs-mem (x ∷ ids) p m = elim m [
    | Memᴰ.head e ↦ (x, ground arith, e)
    | Memᴰ.tail m' ↦ let (id, h, e) = directs-mem ids p m' in (id, ground arith, e)
  ]

  abbrev directs : List (AttackPath F)
  directs = map direct_to (role is_direct)

  directs-eq : direct_access_paths fl snap ≡ directs
  unfolding direct_access_paths
  directs-eq = refl

  no_ids : (ids : List String) → ((id : String) → elem String_discrete id ids ≡ false) → ids ≡ []
  no_ids [] h = refl
  no_ids (x ∷ ids) h = absurd (ground (arith, h x))

  -- With no seed or no jewel there is no direct path: a held jewel is both.
  none_direct : (length (role is_seed) == 0 || length (role is_jewel) == 0) ≡ true → directs ≡ []
  none_direct h =
      let empty = no_ids (role is_direct) (λ id.
        elim (Bool-cases (elem String_discrete id (role is_direct))) [
          | inr e ↦ e
          | inl e ↦
              let (listed, met) = Has-role is_direct id e in
              let seed =
                role-Has is_seed id (listed, held-is_seed (node_of index id) (ground arith)) in
              let jewel = role-Has is_jewel id (listed, ground arith) in
              elim (List-cases (role is_seed)) [
                | inl q ↦ absurd (ground arith)
                | inr (x, xs, q) ↦ elim (List-cases (role is_jewel)) [
                  | inl r ↦ absurd (ground arith)
                  | inr (y, ys, r) ↦ absurd (ground arith)
                ]
              ]
        ]) in
      rw empty refl

  module _ (laws : FloatLaws fl) where
    nn : NonNegative fl hops
    nn = build_adjacency-NonNegative fl upper_trim index laws snap.edges

    empty-IsAnswer :
        (length (role is_seed) == 0 || length (role is_jewel) == 0) ≡ true → IsAnswer directs
    empty-IsAnswer h = rw (none_direct h) (record {
      ranked = tt;
      complete = λ s j c seed jewel apart w finite.
          let a = role-Has is_seed s seed in
          let b = role-Has is_jewel j jewel in
          elim (List-cases (role is_seed)) [
            | inl q ↦ absurd (ground arith)
            | inr (x, xs, q) ↦ elim (List-cases (role is_jewel)) [
              | inl r ↦ absurd (ground arith)
              | inr (y, ys, r) ↦ absurd (ground arith)
            ]
          ];
      direct = λ j held.
          let e = none_direct h in
          rw e at (mem-directs (role is_direct) j (role-Has is_direct j held));
      sound = λ p m. elim m [ ];
    })

    sorted-IsAnswer :
        (ps : List (AttackPath F))
        → Buckets fl hops laws nn index (role is_jewel) (role is_seed) ps
        → IsAnswer (sort_paths fl (directs ++ ps))
    sorted-IsAnswer ps b = record {
      ranked = sort_paths-IsRanked fl laws (directs ++ ps);
      complete = λ s j c seed jewel apart w finite.
          let (qs, to, sub) = b.has s (role-Has is_seed s seed) in
          let (p, m, r) = path_to fl hops j c to (role-Has is_jewel j jewel) apart w finite in
          (p, sort_paths-keeps fl p (directs ++ ps) (Memᴰ.append_right directs (sub p m)), r);
      direct = λ j held.
          sort_paths-keeps fl (direct_to j) (directs ++ ps)
            (Memᴰ.append_left ps (mem-directs (role is_direct) j (role-Has is_direct j held)));
      sound = λ p m.
          elim (mem_append fl hops laws nn index (role is_jewel) p directs ps
            (mem-sort_paths fl p (directs ++ ps) m)) [
              | inl n ↦
                  let (j, h, e) = directs-mem (role is_direct) p n in
                  inl (j, Has-role is_direct j h, e)
              | inr n ↦
                  let (s, h, qs, to, n') = b.only p n in
                  let (j, g, apart, r) = path_of fl hops p to n' in
                  inr (s, j, Has-role is_seed s h, Has-role is_jewel j g, apart, r)
            ];
    }

    -- The search over all seeds ends with a ranked list (confirmed at runtime first, then by falling
    -- score). For each seed and each other crown jewel that a walk reaches at a finite least cost it
    -- has a path along edges of the snapshot at that cost; for each crown jewel that the attacker
    -- holds it has the direct path; and every path in it is one of these.
    pub find_critical_paths_complete :
        (ps : List (AttackPath F)) × (find_critical_paths fl upper_trim snap ≡ some ps)
        × IsAnswer ps
    unfolding find_critical_paths
    find_critical_paths_complete =
        let (ps, eq, b) = per_seed-Buckets fl hops laws nn index (role is_jewel) (role is_seed) in
        elim (Bool-cases (length (role is_seed) == 0 || length (role is_jewel) == 0)) [
          | inl e ↦ (directs, ground (arith, directs-eq), empty-IsAnswer e)
          | inr e ↦
              (sort_paths fl (directs ++ ps), ground (arith, eq, directs-eq), sorted-IsAnswer ps b)
        ]
