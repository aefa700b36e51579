-- ===== src/Analyzer/Critical/Ranking.antt =====
-- The order of the critical paths (backend/internal/analyzer/attackpath.go).
use mathlib.Core.List.Memᴰ.{Memᴰ}
use perspectivegraph.Base.{
  ◌+◌, Bool, true, false, List, [], ◌∷◌, ◌≡◌, ◌⊎◌, inl, inr, refl, sym, subst, arith, Floats,
  FloatLaws, Bool-cases, count, bit,
}
use perspectivegraph.Analyzer.Paths.{AttackPath}
use perspectivegraph.Analyzer.Critical.{ahead, insert_path, sort_paths}

module _ {F : Type 0} (fl : Floats F) where
  -- No path is ahead of one that stands before it.
  abbrev pub IsRanked : List (AttackPath F) → Type 0
  IsRanked [] = Unit {0}
  IsRanked (p ∷ ps) = ((q : AttackPath F) → Memᴰ q ps → ahead fl q p ≡ false) × IsRanked ps

  count-insert_path :
      (test : AttackPath F → Bool) (p : AttackPath F) (ps : List (AttackPath F))
      → count test (insert_path fl p ps) ≡ bit (test p) + count test ps
  unfolding insert_path
  count-insert_path test p [] = omega arith
  count-insert_path test p (q ∷ qs) = ground (arith, count-insert_path test p qs)

  pub count-sort_paths :
      (test : AttackPath F → Bool) (ps : List (AttackPath F))
      → count test (sort_paths fl ps) ≡ count test ps
  unfolding sort_paths
  count-sort_paths test [] = refl
  count-sort_paths test (p ∷ ps) =
      omega (arith, count-insert_path test p (sort_paths fl ps), count-sort_paths test ps)

  -- What an insertion holds: the new path and the old ones.
  mem-insert_path :
      (p q : AttackPath F) (ps : List (AttackPath F))
      → Memᴰ q (insert_path fl p ps)
      → (q ≡ p) ⊎ Memᴰ q ps
  unfolding insert_path
  mem-insert_path p q [] m = elim m [ Memᴰ.head e ↦ inl e | Memᴰ.tail m' ↦ inr m' ]
  mem-insert_path p q (x ∷ xs) m = elim (Bool-cases (ahead fl x p)) [
    | inl h ↦ elim (rw h at m) [
      | Memᴰ.head e ↦ inr (Memᴰ.head e)
      | Memᴰ.tail m' ↦ elim (mem-insert_path p q xs m') [
        | inl e ↦ inl e
        | inr n ↦ inr (Memᴰ.tail n)
      ]
    ]
    | inr h ↦ elim (rw h at m) [ Memᴰ.head e ↦ inl e | Memᴰ.tail m' ↦ inr m' ]
  ]

  insert_path-new : (p : AttackPath F) (ps : List (AttackPath F)) → Memᴰ p (insert_path fl p ps)
  unfolding insert_path
  insert_path-new p [] = Memᴰ.head refl
  insert_path-new p (x ∷ xs) = elim (Bool-cases (ahead fl x p)) [
    | inl h ↦ rw h (Memᴰ.tail (insert_path-new p xs))
    | inr h ↦ rw h (Memᴰ.head refl)
  ]

  insert_path-old :
      (p q : AttackPath F) (ps : List (AttackPath F)) → Memᴰ q ps → Memᴰ q (insert_path fl p ps)
  unfolding insert_path
  insert_path-old p q [] m = elim m [ ]
  insert_path-old p q (x ∷ xs) m = elim (Bool-cases (ahead fl x p)) [
    | inl h ↦ rw h (elim m [
      | Memᴰ.head e ↦ Memᴰ.head e
      | Memᴰ.tail m' ↦ Memᴰ.tail (insert_path-old p q xs m')
    ])
    | inr h ↦ rw h (Memᴰ.tail m)
  ]

  pub sort_paths-keeps :
      (q : AttackPath F) (ps : List (AttackPath F)) → Memᴰ q ps → Memᴰ q (sort_paths fl ps)
  unfolding sort_paths
  sort_paths-keeps q [] m = elim m [ ]
  sort_paths-keeps q (p ∷ ps) m = elim m [
    | Memᴰ.head e ↦
        subst (λ x. Memᴰ x (insert_path fl p (sort_paths fl ps))) (sym e)
          (insert_path-new p (sort_paths fl ps))
    | Memᴰ.tail m' ↦ insert_path-old p q (sort_paths fl ps) (sort_paths-keeps q ps m')
  ]

  pub mem-sort_paths :
      (q : AttackPath F) (ps : List (AttackPath F)) → Memᴰ q (sort_paths fl ps) → Memᴰ q ps
  unfolding sort_paths
  mem-sort_paths q [] m = m
  mem-sort_paths q (p ∷ ps) m = elim (mem-insert_path p q (sort_paths fl ps) m) [
    | inl e ↦ Memᴰ.head e
    | inr m' ↦ Memᴰ.tail (mem-sort_paths q ps m')
  ]

  module _ (laws : FloatLaws fl) where
    ahead_trans :
        (a b c : AttackPath F) → ahead fl b a ≡ false → ahead fl c b ≡ false → ahead fl c a ≡ false
    unfolding ahead
    ahead_trans a b c p q = ground (arith, laws.trans c.score b.score a.score)

    ahead_asymm : (a b : AttackPath F) → ahead fl a b ≡ true → ahead fl b a ≡ false
    unfolding ahead
    ahead_asymm a b p = ground (arith, laws.asymm b.score a.score)

    insert_path-IsRanked :
        (p : AttackPath F) (ps : List (AttackPath F)) → IsRanked ps → IsRanked (insert_path fl p ps)
    unfolding insert_path
    insert_path-IsRanked p [] h = (λ q m. elim m [ ], tt)
    insert_path-IsRanked p (x ∷ xs) (first, rest) = elim (Bool-cases (ahead fl x p)) [
      | inl h ↦ rw h (
        λ q m. elim (mem-insert_path p q xs m) [
          | inl e ↦ rw e (ahead_asymm x p h)
          | inr n ↦ first q n
        ],
        insert_path-IsRanked p xs rest,
      )
      | inr h ↦ rw h (
        λ q m. elim m [ Memᴰ.head e ↦ rw e h | Memᴰ.tail n ↦ ahead_trans p x q h (first q n) ],
        (first, rest),
      )
    ]

    pub sort_paths-IsRanked : (ps : List (AttackPath F)) → IsRanked (sort_paths fl ps)
    unfolding sort_paths
    sort_paths-IsRanked [] = tt
    sort_paths-IsRanked (p ∷ ps) =
        insert_path-IsRanked p (sort_paths fl ps) (sort_paths-IsRanked ps)
