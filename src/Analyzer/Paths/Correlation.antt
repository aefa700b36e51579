-- ===== src/Analyzer/Paths/Correlation.antt =====
-- When the hops of a path are called correlated (backend/internal/analyzer/attackpath.go).
use perspectivegraph.Base.Maps.{elem}
use perspectivegraph.Base.{
  ℕ, ◌<◌, ◌≤◌, String, String_discrete, true, List, [], ◌∷◌, ◌≡◌, ◌≢◌, ◌⊎◌, ◌↔◌, inl, inr, refl,
  arith, map, is_yes, length, count, Bool-cases,
}
use perspectivegraph.Analyzer.Weights.{Step}
use perspectivegraph.Analyzer.Paths.{repeats, hops_correlated}

-- How often a word stands in a list.
abbrev pub times : String → List String → ℕ
times w ws = count (λ x. is_yes (String_discrete x w)) ws

-- A word that is not empty stands twice.
abbrev pub Repeated : List String → Type 0
Repeated ws = (w : String) × (w ≢ "") × (1 < times w ws)

elem-times : (w : String) (ws : List String) → (elem String_discrete w ws ≡ true) ↔ (0 < times w ws)
elem-times w [] = ground arith
elem-times w (x ∷ ws) = elim (String_discrete w x) [
  | yes p ↦ (λ _. ground arith, λ _. ground arith)
  | no p ↦ ground (arith, elem-times w ws)
]

abbrev Found : List String → List String → Type 0
Found seen ws =
    (w : String) × (w ≢ "")
    × ((1 < times w ws) ⊎ ((elem String_discrete w seen ≡ true) × (0 < times w ws)))

repeats_finds : (ws seen : List String) → repeats seen ws ≡ true → Found seen ws
unfolding repeats
repeats_finds [] seen h = absurd (ground arith)
repeats_finds (x ∷ ws) seen h = elim (String_discrete x "") [
  | yes p ↦ let (w, ne, n) = repeats_finds ws seen (ground arith) in (w, ne, ground arith)
  | no p ↦ elim (Bool-cases (elem String_discrete x seen)) [
    | inl e ↦ (x, p, inr (e, ground arith))
    | inr e ↦
        let (w, ne, n) = repeats_finds ws (x ∷ seen) (ground arith) in
        (w, ne, elim (String_discrete w x) [ yes q ↦ inl (ground arith) | no q ↦ ground arith ])
  ]
]

finds_repeats : (ws seen : List String) → Found seen ws → repeats seen ws ≡ true
unfolding repeats
finds_repeats [] seen (w, ne, n) = absurd (ground arith)
finds_repeats (x ∷ ws) seen (w, ne, n) = elim (String_discrete x "") [
  | yes p ↦ let rest = finds_repeats ws seen (w, ne, ground arith) in ground arith
  | no p ↦ elim (Bool-cases (elem String_discrete x seen)) [
    | inl e ↦ ground arith
    | inr e ↦
        let rest = finds_repeats ws (x ∷ seen) (
          w,
          ne,
          elim (String_discrete w x) [
            | yes q ↦ ground (arith, elem-times w ws)
            | no q ↦ ground arith
          ],
        ) in
        ground arith
  ]
]

pub repeats_iff : (ws : List String) → (repeats [] ws ≡ true) ↔ Repeated ws
repeats_iff ws = (
  λ h. let (w, ne, n) = repeats_finds ws [] h in (w, ne, ground arith),
  λ (w, ne, n). finds_repeats ws [] (w, ne, inl n),
)

few_words : (ws : List String) (w : String) → times w ws ≤ length ws
few_words [] w = omega arith
few_words (x ∷ ws) w = ground (arith, few_words ws w)

length-map : {A B : Type 0} (f : A → B) (xs : List A) → length (map f xs) ≡ length xs
length-map f [] = refl
length-map f (x ∷ xs) = ground (arith, length-map f xs)

module _ {F : Type 0} where
  -- A path's hops are called correlated exactly when two of them share a cause that is named, or
  -- two of them share a basis that is named.
  pub hops_correlated_iff :
      (steps : List (Step F))
      → (hops_correlated steps ≡ true)
        ↔ (Repeated (map (λ s. s.weight_cause) steps) ⊎ Repeated (map (λ s. s.weight_basis) steps))
  unfolding hops_correlated
  hops_correlated_iff steps =
      let causes = map (λ (s : Step F). s.weight_cause) steps in
      let bases = map (λ (s : Step F). s.weight_basis) steps in
      (
        λ h. elim (Bool-cases (repeats [] causes)) [
          | inl e ↦ inl ((repeats_iff causes).0 e)
          | inr e ↦ inr ((repeats_iff bases).0 (ground arith))
        ],
        λ either. elim either [
          | inl (w, ne, n) ↦ ground (
            arith,
            finds_repeats causes [] (w, ne, inl n),
            few_words causes w,
            length-map (λ (s : Step F). s.weight_cause) steps,
          )
          | inr (w, ne, n) ↦ ground (
            arith,
            finds_repeats bases [] (w, ne, inl n),
            few_words bases w,
            length-map (λ (s : Step F). s.weight_basis) steps,
          )
        ],
      )
