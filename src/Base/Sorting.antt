-- ===== src/Base/Sorting.antt =====
-- sort.Slice, and the order of texts.
use Prim.Native.Nat.{Ordering}
use Prim.Native.String
use mathlib.Core.Bool.{Bool, true, false}
use mathlib.Core.Logic.{inl, inr}
use mathlib.Core.List.{List, [], ◌∷◌}
use mathlib.Core.List.Memᴰ.{Memᴰ}
use perspectivegraph.Base.Tests.{if◌then◌else◌, Bool-cases}

-- `a < b` of texts: the order of the code points is that of the UTF-8 bytes.
unfoldable pub text_before : String.String → String.String → Bool
text_before a b = elim (String.compare a b) [ Ordering.lt ↦ true | _ ↦ false ]

-- sort.Slice under an order that tells any two of the items apart.
unfoldable pub insert_by : {A : Type 0} → (A → A → Bool) → A → List A → List A
insert_by less x [] = x ∷ []
insert_by less x (y ∷ ys) =
    let rest = insert_by less x ys in if less y x then y ∷ rest else x ∷ y ∷ ys

unfoldable pub sort_by : {A : Type 0} → (A → A → Bool) → List A → List A
unfolding insert_by
sort_by less [] = []
sort_by less (x ∷ xs) = insert_by less x (sort_by less xs)

module _ {A : Type 0} (less : A → A → Bool) where
  -- Sorting keeps the items.
  mem-insert_by :
      (x y : A) (ys : List A)
      → (Memᴰ x (insert_by less y ys) → Memᴰ x (y ∷ ys))
        × (Memᴰ x (y ∷ ys) → Memᴰ x (insert_by less y ys))
  unfolding insert_by
  mem-insert_by x y [] = (λ m. m, λ m. m)
  mem-insert_by x y (z ∷ zs) =
      let (from, to) = mem-insert_by x y zs in
      elim (Bool-cases (less z y)) [
        | inr h ↦ rw h (λ m. m, λ m. m)
        | inl h ↦ rw h (
          λ m. elim m [
            | Memᴰ.head p ↦ Memᴰ.tail (Memᴰ.head p)
            | Memᴰ.tail n ↦ elim (from n) [
              | Memᴰ.head p ↦ Memᴰ.head p
              | Memᴰ.tail n' ↦ Memᴰ.tail (Memᴰ.tail n')
            ]
          ],
          λ m. elim m [
            | Memᴰ.head p ↦ Memᴰ.tail (to (Memᴰ.head p))
            | Memᴰ.tail n ↦ elim n [
              | Memᴰ.head p ↦ Memᴰ.head p
              | Memᴰ.tail n' ↦ Memᴰ.tail (to (Memᴰ.tail n'))
            ]
          ],
        )
      ]

  pub mem-sort_by :
      (x : A) (xs : List A)
      → (Memᴰ x (sort_by less xs) → Memᴰ x xs) × (Memᴰ x xs → Memᴰ x (sort_by less xs))
  unfolding sort_by
  mem-sort_by x [] = (λ m. m, λ m. m)
  mem-sort_by x (y ∷ ys) =
      let (from, to) = mem-sort_by x ys in
      let (out, into) = mem-insert_by x y (sort_by less ys) in
      (
        λ m. elim (out m) [ Memᴰ.head p ↦ Memᴰ.head p | Memᴰ.tail n ↦ Memᴰ.tail (from n) ],
        λ m. elim m [ Memᴰ.head p ↦ into (Memᴰ.head p) | Memᴰ.tail n ↦ into (Memᴰ.tail (to n)) ],
      )
