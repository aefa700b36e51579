-- ===== src/Analyzer/Heap/Up.antt =====
-- What the loop of push does (backend/internal/analyzer/attackpath.go).
use perspectivegraph.Base.{
  ℕ, zero, suc, ◌≡◌, ◌<◌, ◌≢◌, Bool, true, false, not, ◌||◌, List, arith, Floats, FloatLaws, length,
  Bool-cases, inl, inr, ◌==◌, refl, swap, get_or-swap, length-swap, count-swap, count,
  if◌then◌else◌,
}
use perspectivegraph.Analyzer.Heap.{HeapItem, no_item, item, less, parent, sift_up}
use perspectivegraph.Analyzer.Heap.Order.{IsHeap}

module _ {F : Type 0} (fl : Floats F) where
  -- The loop goes on from index j.
  abbrev rises : List (HeapItem F) → ℕ → Bool
  rises a j = not (parent fl j == j || not (less fl a j (parent fl j)))

  pub length-sift_up :
      (fuel : ℕ) (a : List (HeapItem F)) (j : ℕ) → length (sift_up fl fuel a j) ≡ length a
  unfolding sift_up
  length-sift_up zero a j = refl
  length-sift_up (suc fuel) a j = ground (
    arith,
    length-sift_up fuel (swap (no_item fl) a (parent fl j) j) (parent fl j),
    length-swap (no_item fl) a (parent fl j) j,
  )

  pub count-sift_up :
      (p : HeapItem F → Bool) (fuel : ℕ) (a : List (HeapItem F)) (j : ℕ)
      → j < length a
      → count p (sift_up fl fuel a j) ≡ count p a
  unfolding sift_up
  count-sift_up p zero a j h = refl
  count-sift_up p (suc fuel) a j h = ground (
    arith,
    count-sift_up p fuel (swap (no_item fl) a (parent fl j) j) (parent fl j),
    count-swap (no_item fl) p a (parent fl j) j,
    length-swap (no_item fl) a (parent fl j) j,
  )

  -- A property of every item.
  abbrev pub AllItems : (HeapItem F → Type 0) → List (HeapItem F) → Type 0
  AllItems Q a = (k : ℕ) → k < length a → Q (item fl a k)

  pub swap-AllItems :
      (Q : HeapItem F → Type 0) (a : List (HeapItem F)) (i j : ℕ)
      → i < length a
      → j < length a
      → AllItems Q a
      → AllItems Q (swap (no_item fl) a i j)
  swap-AllItems Q a i j p q h k r =
      let at = get_or-swap (no_item fl) a i j k p q in
      let len = length-swap (no_item fl) a i j in
      elim (Bool-cases (j == k)) [
        | inl e ↦ rw (at, e) (h i p)
        | inr e ↦ elim (Bool-cases (i == k)) [
          | inl f ↦ rw (at, e, f) (h j q)
          | inr f ↦ rw (at, e, f) (h k (omega (arith, r, len)))
        ]
      ]

  pub sift_up-AllItems :
      (Q : HeapItem F → Type 0) (fuel : ℕ) (a : List (HeapItem F)) (j : ℕ)
      → j < length a
      → AllItems Q a
      → AllItems Q (sift_up fl fuel a j)
  unfolding sift_up
  sift_up-AllItems Q zero a j p h = h
  sift_up-AllItems Q (suc fuel) a j p h =
      let i = parent fl j in
      elim (Bool-cases (i == j || not (less fl a j i))) [
        | inl e ↦ rw e h
        | inr e ↦ rw e (
            sift_up-AllItems Q fuel (swap (no_item fl) a i j) i
              (omega (arith, length-swap (no_item fl) a i j))
              (swap-AllItems Q a i j (omega arith) p h))
      ]

  module _ (laws : FloatLaws fl) where
    -- A heap but for the item at j, which may be less than its parent.
    pub record Rising (a : List (HeapItem F)) (j : ℕ) : Type 0 where
      pub elsewhere : (k : ℕ) → 0 < k → k < length a → k ≢ j → less fl a k (parent fl k) ≡ false
      pub below :
          (k : ℕ)
          → 0 < k
          → k < length a
          → 0 < j
          → parent fl k ≡ j
          → less fl a k (parent fl j) ≡ false

    swap-Rising :
        (a : List (HeapItem F)) (j : ℕ)
        → j < length a
        → Rising a j
        → parent fl j ≢ j
        → less fl a j (parent fl j) ≡ true
        → Rising (swap (no_item fl) a (parent fl j) j) (parent fl j)
    swap-Rising a j q h ne s =
        let i = parent fl j in
        let at : (k : ℕ)
            → item fl (swap (no_item fl) a i j) k
              ≡ (if j == k then item fl a i else if i == k then item fl a j else item fl a k) =
          λ k. get_or-swap (no_item fl) a i j k (omega arith) q in
        record {
          elsewhere = λ k pos inside apart. ground (
            arith,
            at k,
            at (parent fl k),
            length-swap (no_item fl) a i j,
            h.elsewhere k,
            h.below k,
            laws.asymm (item fl a j).d (item fl a i).d,
            laws.trans (item fl a j).d (item fl a i).d (item fl a k).d,
          );
          below = λ k pos inside top child. ground (
            arith,
            at k,
            at (parent fl i),
            length-swap (no_item fl) a i j,
            h.elsewhere k,
            h.elsewhere i,
            laws.trans (item fl a (parent fl i)).d (item fl a i).d (item fl a k).d,
          );
        }

    pub sift_up-IsHeap :
        (fuel : ℕ) (a : List (HeapItem F)) (j : ℕ)
        → j < fuel
        → j < length a
        → Rising a j
        → IsHeap fl laws (sift_up fl fuel a j)
    unfolding sift_up
    sift_up-IsHeap zero a j p q h = absurd (omega arith)
    sift_up-IsHeap (suc fuel) a j p q h =
        let i = parent fl j in
        elim (Bool-cases (i == j || not (less fl a j i))) [
          | inl e ↦ rw e (λ k pos inside. elim (Bool-cases (k == j)) [
            | inl f ↦ ground arith
            | inr f ↦ h.elsewhere k pos inside (ground arith)
          ])
          | inr e ↦ rw e (
              let ne : i ≢ j = ground arith in
              sift_up-IsHeap fuel (swap (no_item fl) a i j) i (omega (arith, ne))
                (omega (arith, length-swap (no_item fl) a i j))
                (swap-Rising a j q h ne (ground arith)))
        ]
