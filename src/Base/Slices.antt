-- ===== src/Base/Slices.antt =====
-- Slices of a Go program: a list under native indices. A read out of range, which panics in Go,
-- gives the default `d`; no code that is modelled makes one.
use Prim.Native.Nat.{ℕ, zero, suc, ◌+◌, ◌<◌, ◌≤◌}
use mathlib.Core.Bool.{Bool, true, false}
use mathlib.Core.Path.{◌≡◌, refl}
use mathlib.Core.List.{List, [], ◌∷◌, ◌++◌}
use native.Mathlib.Omega.{arith}
use perspectivegraph.Base.Tests.{◌==◌, if◌then◌else◌, ltb}
use perspectivegraph.Base.Lists.{length}

abbrev pub bit : Bool → ℕ
bit true = 1
bit false = 0

module _ {ℓ} {A : Type ℓ} where
  abbrev pub count : (A → Bool) → List A → ℕ
  count p [] = 0
  count p (x ∷ a) = bit (p x) + count p a

  -- `a[n] = w`
  abbrev pub set : List A → ℕ → A → List A
  set [] _ w = []
  set (y ∷ ys) n w = elim n [ zero ↦ w ∷ ys | suc m ↦ y ∷ set ys m w ]

  pub length-set : (ys : List A) (n : ℕ) (w : A) → length (set ys n w) ≡ length ys
  length-set [] n w = refl
  length-set (y ∷ ys) zero w = omega arith
  length-set (y ∷ ys) (suc m) w = omega (arith, length-set ys m w)

  -- `a[:n]`
  abbrev pub take : ℕ → List A → List A
  take n [] = []
  take n (y ∷ ys) = elim n [ zero ↦ [] | suc m ↦ y ∷ take m ys ]

  pub length-take : (n : ℕ) (ys : List A) → n ≤ length ys → length (take n ys) ≡ n
  length-take n [] h = omega (arith, h)
  length-take zero (y ∷ ys) h = refl
  length-take (suc n) (y ∷ ys) h = ground (arith, length-take n ys)

  pub count-append : (p : A → Bool) (a b : List A) → count p (a ++ b) ≡ count p a + count p b
  count-append p [] b = omega arith
  count-append p (x ∷ a) b = omega (arith, count-append p a b)

  pub count-none : (p : A → Bool) (a : List A) → ((x : A) → p x ≡ false) → count p a ≡ 0
  count-none p [] h = refl
  count-none p (x ∷ a) h = ground (arith, h x, count-none p a h)

  pub count-same : (p q : A → Bool) (a : List A) → ((x : A) → p x ≡ q x) → count p a ≡ count q a
  count-same p q [] h = refl
  count-same p q (x ∷ a) h = ground (arith, h x, count-same p q a h)

module _ {ℓ} {A : Type ℓ} (d : A) where
  abbrev pub get_or : List A → ℕ → A
  get_or [] _ = d
  get_or (y ∷ ys) n = elim n [ zero ↦ y | suc m ↦ get_or ys m ]

  -- `a[i], a[j] = a[j], a[i]`
  unfoldable pub swap : List A → ℕ → ℕ → List A
  swap a i j = let x = get_or a i in let y = get_or a j in set (set a i y) j x

  pub get_or-set :
      (ys : List A) (n k : ℕ) (w : A)
      → n < length ys
      → get_or (set ys n w) k ≡ (if n == k then w else get_or ys k)
  get_or-set [] n k w inside = absurd (omega (arith, inside))
  get_or-set (y ∷ ys) n zero w inside = ground arith
  get_or-set (y ∷ ys) zero (suc m) w inside = ground arith
  get_or-set (y ∷ ys) (suc n) (suc m) w inside = ground (arith, get_or-set ys n m w)

  pub get_or-append :
      (a : List A) (x : A) (i : ℕ)
      → get_or (a ++ x ∷ []) i
        ≡ (if ltb i (length a) then get_or a i else if i == length a then x else d)
  get_or-append [] x zero = ground arith
  get_or-append [] x (suc i) = ground arith
  get_or-append (y ∷ a) x zero = ground arith
  get_or-append (y ∷ a) x (suc i) = ground (arith, get_or-append a x i)

  pub get_or-take : (n : ℕ) (ys : List A) (k : ℕ) → k < n → get_or (take n ys) k ≡ get_or ys k
  get_or-take n [] k below = refl
  get_or-take zero (y ∷ ys) k below = absurd (omega (arith, below))
  get_or-take (suc n) (y ∷ ys) zero below = refl
  get_or-take (suc n) (y ∷ ys) (suc k) below = get_or-take n ys k (omega (arith, below))

  pub get_or-swap :
      (a : List A) (i j k : ℕ)
      → i < length a
      → j < length a
      → get_or (swap a i j) k
        ≡ (if j == k then get_or a i else if i == k then get_or a j else get_or a k)
  unfolding swap
  get_or-swap a i j k p q = ground (
    arith,
    get_or-set (set a i (get_or a j)) j k (get_or a i),
    get_or-set a i k (get_or a j),
    length-set a i (get_or a j),
  )

  pub length-swap : (a : List A) (i j : ℕ) → length (swap a i j) ≡ length a
  unfolding swap
  length-swap a i j =
      ground (arith, length-set (set a i (get_or a j)) j (get_or a i), length-set a i (get_or a j))

  count-set :
      (p : A → Bool) (a : List A) (i : ℕ) (v : A)
      → i < length a
      → count p (set a i v) + bit (p (get_or a i)) ≡ count p a + bit (p v)
  count-set p [] i v h = absurd (omega arith)
  count-set p (x ∷ a) zero v h = omega arith
  count-set p (x ∷ a) (suc i) v h = omega (arith, count-set p a i v)

  pub count-swap :
      (p : A → Bool) (a : List A) (i j : ℕ)
      → i < length a
      → j < length a
      → count p (swap a i j) ≡ count p a
  unfolding swap
  count-swap p a i j h k = ground (
    arith,
    count-set p (set a i (get_or a j)) j (get_or a i),
    count-set p a i (get_or a j),
    length-set a i (get_or a j),
    get_or-set a i j (get_or a j),
  )

  -- Nothing is counted where no index holds one.
  pub count_at_none :
      (p : A → Bool) (a : List A)
      → ((k : ℕ) → k < length a → p (get_or a k) ≡ false)
      → count p a ≡ 0
  count_at_none p [] h = refl
  count_at_none p (x ∷ a) h =
      let rest = count_at_none p a (λ k q. h (suc k) (omega (arith, q))) in
      ground (arith, h 0, rest)

  pub count_at :
      (p : A → Bool) (a : List A) (k : ℕ) → count p a ≡ 0 → k < length a → p (get_or a k) ≡ false
  count_at p [] k h q = absurd (omega arith)
  count_at p (x ∷ a) zero h q = ground arith
  count_at p (x ∷ a) (suc k) h q = ground (arith, count_at p a k)

  -- All but the last, when the last is taken off.
  pub count-take :
      (p : A → Bool) (n : ℕ) (a : List A)
      → length a ≡ suc n
      → count p (take n a) + bit (p (get_or a n)) ≡ count p a
  count-take p n [] h = absurd (omega arith)
  count-take p zero (x ∷ []) h = omega arith
  count-take p zero (x ∷ y ∷ a) h = absurd (omega arith)
  count-take p (suc n) (x ∷ a) h = omega (arith, count-take p n a)
