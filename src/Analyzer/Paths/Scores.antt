-- ===== src/Analyzer/Paths/Scores.antt =====
-- The score that the loops over a path's hops compute (backend/internal/analyzer/attackpath.go).
use mathlib.Core.List.{append_assoc}
use perspectivegraph.Base.Maps.{elem}
use perspectivegraph.Base.{
  ℕ, ◌+◌, ◌≤◌, String, String_discrete, true, false, ◌||◌, List, [], ◌∷◌, ◌++◌, ◌≡◌, ◌≢◌, inl, inr,
  refl, sym, arith, map, Floats, float_one, is_yes, if◌then◌else◌, length, length-append,
  Bool-cases,
}
use perspectivegraph.Analyzer.Paths.{cause_scan, chain_from, chain_probability}

module _ {F : Type 0} (fl : Floats F) where
  -- The weakest of a cause's hops.
  abbrev pub weakest_of : String → F → List (String × F) → F
  weakest_of cause low [] = low
  weakest_of cause low ((other, p) ∷ hops) =
      if is_yes (String_discrete other cause)
      then weakest_of cause (if fl.lt p low then p else low) hops
      else weakest_of cause low hops

  -- The score in one pass: a hop with no cause counts, and a cause counts once, where it is first
  -- met, with the weakest of its hops.
  abbrev pub once_per_cause : List String → List (String × F) → F → F
  once_per_cause met [] prod = prod
  once_per_cause met ((cause, p) ∷ hops) prod =
      let alone = once_per_cause met hops (fl.mul prod p) in
      let again = once_per_cause met hops prod in
      let first = once_per_cause (cause ∷ met) hops (fl.mul prod (weakest_of cause p hops)) in
      if is_yes (String_discrete cause "")
      then alone
      else if elem String_discrete cause met
      then again
      else first

  scan_rest :
      (cause : String) (i j : ℕ) (hops : List (String × F)) (low : F)
      → i ≤ j
      → cause_scan fl cause i hops j low ≡ (true, weakest_of cause low hops)
  unfolding cause_scan
  scan_rest cause i j [] low h = refl
  scan_rest cause i j ((other, p) ∷ hops) low h = ground (
    arith,
    scan_rest cause i (j + 1) hops low,
    scan_rest cause i (j + 1) hops (if fl.lt p low then p else low),
  )

  causes : List (String × F) → List String
  causes = map (λ h. h.0)

  -- The scan of the hops before hop i, and then of the rest.
  scan_split :
      (cause : String) (i j : ℕ) (before rest : List (String × F)) (low : F)
      → i ≡ j + length before
      → (elem String_discrete cause (causes before) ≡ true
          → (cause_scan fl cause i (before ++ rest) j low).0 ≡ false)
        × (elem String_discrete cause (causes before) ≡ false
            → cause_scan fl cause i (before ++ rest) j low ≡ (true, weakest_of cause low rest))
  unfolding cause_scan causes
  scan_split cause i j [] rest low h =
      (λ q. absurd (ground arith), λ q. scan_rest cause i j rest low (omega (arith, h)))
  scan_split cause i j ((other, p) ∷ before) rest low h =
      let (hit, miss) = scan_split cause i (j + 1) before rest low (omega (arith, h)) in
      elim (String_discrete cause other) [ yes q ↦ ground arith | no q ↦ ground (arith, hit, miss) ]

  elem-causes_append :
      (c : String) (before : List (String × F)) (h : String × F)
      → elem String_discrete c (causes (before ++ h ∷ []))
        ≡ (elem String_discrete c (causes before) || is_yes (String_discrete c h.0))
  unfolding causes
  elem-causes_append c [] h = ground arith
  elem-causes_append c (x ∷ before) h = ground (arith, elem-causes_append c before h)

  same_min : (p : F) → (if fl.lt p p then p else p) ≡ p
  same_min p = ground arith

  chain_rest :
      (before rest : List (String × F)) (met : List String) (prod : F)
      → ((c : String)
          → c ≢ ""
          → elem String_discrete c met ≡ elem String_discrete c (causes before))
      → chain_from fl (before ++ rest) rest (length before) prod ≡ once_per_cause met rest prod
  unfolding chain_from
  chain_rest before [] met prod same = refl
  chain_rest before ((cause, p) ∷ rest) met prod same =
      let before' = before ++ (cause, p) ∷ [] in
      let next : (m : List String) (x : F)
          → ((c : String)
              → c ≢ ""
              → elem String_discrete c m ≡ elem String_discrete c (causes before'))
          → chain_from fl (before ++ (cause, p) ∷ rest) rest (length before + 1) x
            ≡ once_per_cause m rest x =
        λ m x q.
          rw
            (
              sym (append_assoc before ((cause, p) ∷ []) rest),
              sym (length-append before ((cause, p) ∷ [])),
            )
            (chain_rest before' rest m x q) in
      let (hit, miss) =
        scan_split cause (length before) 0 before ((cause, p) ∷ rest) p (omega arith) in
      elim (String_discrete cause "") [
        | yes q ↦ ground (
          arith,
          next met (fl.mul prod p)
              (λ c ne. ground (arith, same c, elem-causes_append c before (cause, p))),
        )
        | no q ↦ elim (Bool-cases (elem String_discrete cause met)) [
          | inl e ↦ ground (
            arith,
            hit,
            same cause,
            next met prod (λ c ne. elim (String_discrete c cause) [
              | yes r ↦ rw r (ground (arith, elem-causes_append cause before (cause, p), e))
              | no r ↦ ground (arith, same c, elem-causes_append c before (cause, p))
            ]),
          )
          | inr e ↦ ground (
            arith,
            miss,
            same cause,
            same_min p,
            next (cause ∷ met) (fl.mul prod (weakest_of cause p rest))
                (λ c ne. ground (arith, same c, elem-causes_append c before (cause, p))),
          )
        ]
      ]

  -- The score that the nested loops compute is the one-pass score, in which each named cause counts
  -- once, where it is first met, with its weakest hop.
  pub chain_once_per_cause :
      (hops : List (String × F)) → chain_probability fl hops ≡ once_per_cause [] hops (float_one fl)
  unfolding chain_probability causes
  chain_once_per_cause hops = chain_rest [] hops [] (float_one fl) (λ c ne. refl)
