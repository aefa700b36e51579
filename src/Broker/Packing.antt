-- ===== src/Broker/Packing.antt =====
-- Groups of items under a size, and halves (backend/internal/broker/batch.go).
use mathlib.Core.List.{append-nil, append_assoc}
use perspectivegraph.Base.{
  ℕ, zero, suc, ◌+◌, ◌/◌, ◌<◌, ◌≤◌, ◌&&◌, List, [], ◌∷◌, ◌++◌, ◌≡◌, inl, inr, refl, subst, arith,
  ltb, length, length-append, length-take, take, Bool-cases,
}
use perspectivegraph.Broker.{Outcome, ok, drop, both, emit_halves, pack}

module _ {A : Type 0} where
  pub take-drop : (n : ℕ) (xs : List A) → take n xs ++ drop n xs ≡ xs
  take-drop n [] = refl
  take-drop zero (x ∷ xs) = refl
  take-drop (suc n) (x ∷ xs) = ground (arith, take-drop n xs)

  pub append-eq-nil : (xs ys : List A) → xs ++ ys ≡ [] → (xs ≡ []) × (ys ≡ [])
  append-eq-nil [] ys h = (refl, h)
  append-eq-nil (x ∷ xs) ys h = absurd (ground arith)

-- What a list of items may come to, kept when two lists are put one after the other.
module _ {A B : Type 0} (Comes : List A → Outcome B → Type 0) (nothing : Comes [] (ok []))
    (joins : (xs ys : List A) (o p : Outcome B)
      → Comes xs o
      → Comes ys p
      → Comes (xs ++ ys) (both o p)) where
  pub emit_halves-Comes :
      (xs : List A) (f : List A → Outcome B)
      → 1 < length xs
      → ((ys : List A) → length ys < length xs → Comes ys (f ys))
      → Comes xs (emit_halves xs f)
  unfolding emit_halves
  emit_halves-Comes xs f many each =
      let mid = length xs / 2 in
      let short : length (take mid xs) ≡ mid = length-take mid xs (omega arith) in
      let whole = take-drop mid xs in
      let total = length-append (take mid xs) (drop mid xs) in
      let same : length (take mid xs ++ drop mid xs) ≡ length xs = rw whole refl in
      subst (λ ys. Comes ys (emit_halves xs f)) whole
        (joins (take mid xs) (drop mid xs) (f (take mid xs)) (f (drop mid xs))
          (each (take mid xs) (omega arith)) (each (drop mid xs) (omega arith)))

  pub pack-Comes :
      (emit_group : List A → Outcome B) (size_of : A → ℕ) (limit envelope size n : ℕ)
      (group xs : List A)
      → ((g : List A) → 0 < length g → length g ≤ n → Comes g (emit_group g))
      → length group + length xs ≤ n
      → Comes (group ++ xs) (pack emit_group size_of limit envelope size group xs)
  unfolding pack
  pack-Comes emit_group size_of limit envelope size n [] [] each few = nothing
  pack-Comes emit_group size_of limit envelope size n (y ∷ group) [] each few =
      rw (append-nil (y ∷ group)) (ground (arith, each (y ∷ group) (omega arith) (omega arith)))
  pack-Comes emit_group size_of limit envelope size n group (x ∷ xs) each few =
      let grown = size + size_of x + 1 in
      let on =
        pack-Comes emit_group size_of limit envelope grown n (group ++ x ∷ []) xs each
          (omega (arith, length-append group (x ∷ []), few)) in
      let anew =
        pack-Comes emit_group size_of limit envelope (size_of x + 1) n (x ∷ []) xs each
          (omega (arith, few)) in
      elim (Bool-cases (ltb limit (grown + envelope) && ltb 0 (length group))) [
        | inr h ↦ rw h (rw (← append_assoc group (x ∷ []) xs) on)
        | inl h ↦ rw h (
            joins group (x ∷ xs) (emit_group group) _
              (each group (ground arith) (omega (arith, few))) anew)
      ]
