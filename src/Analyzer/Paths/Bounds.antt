-- ===== src/Analyzer/Paths/Bounds.antt =====
-- The score is no more than its upper bound (backend/internal/analyzer/attackpath.go).
use mathlib.Core.List.Memᴰ.{Memᴰ}
use perspectivegraph.Base.Maps.{elem}
use perspectivegraph.Base.{
  String, String_discrete, false, List, [], ◌∷◌, ◌≡◌, ◌⊎◌, inr, refl, subst, arith, map, foldl,
  Floats, FloatLaws, float_zero, float_one, if◌then◌else◌,
}
use perspectivegraph.Ontology.{Node}
use perspectivegraph.Analyzer.Weights.{Step}
use perspectivegraph.Analyzer.Paths.{weakest_hop, assemble_attack_path}
use perspectivegraph.Analyzer.Paths.Scores.{weakest_of, once_per_cause, chain_once_per_cause}

module _ {F : Type 0} (fl : Floats F) where
  -- A number in [0, 1].
  abbrev pub InUnit : F → Type 0
  InUnit p = (fl.lt p (float_zero fl) ≡ false) × (fl.lt (float_one fl) p ≡ false)

  -- A product of numbers in [0, 1] is one, and is no more than either.
  pub record ProductLaws : Type 0 where
    pub unit : (a b : F) → InUnit a → InUnit b → InUnit (fl.mul a b)
    pub left : (a b : F) → InUnit a → InUnit b → fl.lt a (fl.mul a b) ≡ false
    pub right : (a b : F) → InUnit a → InUnit b → fl.lt b (fl.mul a b) ≡ false
    pub one : InUnit (float_one fl)

  abbrev AllUnit : List (String × F) → Type 0
  AllUnit [] = Unit {0}
  AllUnit (h ∷ hops) = InUnit h.1 × AllUnit hops

  module _ (laws : FloatLaws fl) (products : ProductLaws) where
    weakest-bound :
        (cause : String) (low : F) (hops : List (String × F))
        → InUnit low
        → AllUnit hops
        → InUnit (weakest_of fl cause low hops) × (fl.lt low (weakest_of fl cause low hops) ≡ false)
    weakest-bound cause low [] u all = (u, ground (arith, laws.asymm low low))
    weakest-bound cause low ((other, p) ∷ hops) u (v, all) = ground (
      arith,
      weakest-bound cause low hops u all,
      weakest-bound cause p hops v all,
      laws.asymm p low,
      laws.trans (weakest_of fl cause p hops) p low,
    )

    weakest-hop :
        (cause : String) (p low : F) (hops : List (String × F))
        → InUnit low
        → AllUnit hops
        → Memᴰ (cause, p) hops
        → fl.lt p (weakest_of fl cause low hops) ≡ false
    weakest-hop cause p low [] u all m = elim m [ ]
    weakest-hop cause p low ((other, q) ∷ hops) u (v, all) m = elim m [
      | Memᴰ.head e ↦ ground (
        arith,
        e,
        weakest-bound cause low hops u all,
        weakest-bound cause q hops v all,
        laws.trans (weakest_of fl cause low hops) low q,
      )
      | Memᴰ.tail m' ↦
          ground (arith, weakest-hop cause p low hops u all m', weakest-hop cause p q hops v all m')
    ]

    once-bound :
        (met : List String) (hops : List (String × F)) (prod : F)
        → AllUnit hops
        → InUnit prod
        → fl.lt prod (once_per_cause fl met hops prod) ≡ false
    once-bound met [] prod all u = ground (arith, laws.asymm prod prod)
    once-bound met ((cause, p) ∷ hops) prod (v, all) u =
        let w = weakest_of fl cause p hops in
        let (uw, _) = weakest-bound cause p hops v all in
        let r₁ = once_per_cause fl met hops (fl.mul prod p) in
        let r₂ = once_per_cause fl (cause ∷ met) hops (fl.mul prod w) in
        ground (
          arith,
          once-bound met hops (fl.mul prod p) all (products.unit prod p u v),
          once-bound met hops prod all u,
          once-bound (cause ∷ met) hops (fl.mul prod w) all (products.unit prod w u uw),
          products.left prod p u v,
          products.left prod w u uw,
          laws.trans r₁ (fl.mul prod p) prod,
          laws.trans r₂ (fl.mul prod w) prod,
        )

    once-hop :
        (met : List String) (hops : List (String × F)) (prod : F) (c : String) (p : F)
        → AllUnit hops
        → InUnit prod
        → (c ≡ "") ⊎ (elem String_discrete c met ≡ false)
        → Memᴰ (c, p) hops
        → fl.lt p (once_per_cause fl met hops prod) ≡ false
    once-hop met [] prod c p all u free m = elim m [ ]
    once-hop met ((cause, q) ∷ hops) prod c p (v, all) u free m =
        let w = weakest_of fl cause q hops in
        let (uw, low) = weakest-bound cause q hops v all in
        let r₁ = once_per_cause fl met hops (fl.mul prod q) in
        let r₂ = once_per_cause fl (cause ∷ met) hops (fl.mul prod w) in
        let b₁ = once-bound met hops (fl.mul prod q) all (products.unit prod q u v) in
        let b₂ = once-bound (cause ∷ met) hops (fl.mul prod w) all (products.unit prod w u uw) in
        let to_w = laws.trans r₂ (fl.mul prod w) w b₂ (products.right prod w u uw) in
        elim m [
          | Memᴰ.head e ↦ ground (
            arith,
            e,
            laws.trans r₁ (fl.mul prod q) q b₁ (products.right prod q u v),
            laws.trans r₂ w q to_w low,
          )
          | Memᴰ.tail m' ↦ elim (String_discrete c cause) [
            | yes same ↦
                let hop =
                  weakest-hop cause p q hops v all (subst (λ x. Memᴰ (x, p) hops) same m') in
                ground (
                  arith,
                  once-hop met hops (fl.mul prod q) c p all (products.unit prod q u v) free m',
                  laws.trans r₂ w p to_w hop,
                )
            | no apart ↦ ground (
              arith,
              once-hop met hops (fl.mul prod q) c p all (products.unit prod q u v) free m',
              once-hop met hops prod c p all u free m',
              once-hop (cause ∷ met) hops (fl.mul prod w) c p all (products.unit prod w u uw)
                  (ground arith) m',
            )
          ]
        ]

    below_fold :
        (r : F) (steps : List (Step F)) (low : F)
        → fl.lt low r ≡ false
        → ((st : Step F) → Memᴰ st steps → fl.lt st.probability r ≡ false)
        → fl.lt (foldl (λ l st. if fl.lt st.probability l then st.probability else l) low steps) r
          ≡ false
    below_fold r [] low h all = h
    below_fold r (st ∷ steps) low h all =
        below_fold r steps (if fl.lt st.probability low then st.probability else low)
          (let first = all st (Memᴰ.head refl) in ground arith) (λ x m. all x (Memᴰ.tail m))

    abbrev cause_of : Step F → String × F
    cause_of st = (st.weight_cause, st.probability)

    mem-causes :
        (st : Step F) (steps : List (Step F))
        → Memᴰ st steps
        → Memᴰ (cause_of st) (map cause_of steps)
    mem-causes st [] m = elim m [ ]
    mem-causes st (x ∷ steps) m = elim m [
      | Memᴰ.head e ↦ Memᴰ.head (rw e refl)
      | Memᴰ.tail m' ↦ Memᴰ.tail (mem-causes st steps m')
    ]

    all_unit :
        (steps : List (Step F))
        → ((st : Step F) → Memᴰ st steps → InUnit st.probability)
        → AllUnit (map cause_of steps)
    all_unit [] h = tt
    all_unit (st ∷ steps) h = (h st (Memᴰ.head refl), all_unit steps (λ x m. h x (Memᴰ.tail m)))

    -- On hops with probabilities in [0, 1], an assembled path's score is no more than its upper
    -- bound, the probability of its weakest hop.
    pub score_at_most_bound :
        (nodes : List (Node F)) (steps : List (Step F))
        → ((st : Step F) → Memᴰ st steps → InUnit st.probability)
        → fl.lt
            (assemble_attack_path fl nodes steps).score_upper_bound
            (assemble_attack_path fl nodes steps).score
          ≡ false
    unfolding assemble_attack_path weakest_hop
    score_at_most_bound nodes steps h =
        let hops = map cause_of steps in
        let all = all_unit steps h in
        rw (chain_once_per_cause fl hops) (
          below_fold (once_per_cause fl [] hops (float_one fl)) steps (float_one fl)
            (once-bound [] hops (float_one fl) all products.one)
            (λ st m.
              once-hop [] hops (float_one fl) st.weight_cause st.probability all products.one
                (inr refl) (mem-causes st steps m)))
