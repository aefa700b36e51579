-- ===== src/Analyzer/Heap/Down.antt =====
-- What the loop of pop does (backend/internal/analyzer/attackpath.go).
use perspectivegraph.Base.{
  ℕ, zero, suc, ◌+◌, ◌*◌, ◌≡◌, ◌<◌, ◌≤◌, ◌≢◌, Bool, true, false, not, ◌||◌, List, arith, Floats,
  FloatLaws, length, Bool-cases, inl, inr, leb, ◌==◌, refl, swap, get_or-swap, length-swap,
  count-swap, count, if◌then◌else◌,
}
use perspectivegraph.Analyzer.Heap.{HeapItem, no_item, item, less, parent, least_child, sift_down}
use perspectivegraph.Analyzer.Heap.Order.{IsHeapTo, lt_irrefl}
use perspectivegraph.Analyzer.Heap.Up.{AllItems, swap-AllItems}

module _ {F : Type 0} (fl : Floats F) where
  child_bounds :
      (a : List (HeapItem F)) (n i : ℕ)
      → 2 * i + 1 < n
      → (i < least_child fl a n i)
        × (least_child fl a n i < n)
        × (parent fl (least_child fl a n i) ≡ i)
  unfolding least_child
  child_bounds a n i h = ground arith

  pub length-sift_down :
      (fuel : ℕ) (a : List (HeapItem F)) (n i : ℕ) → length (sift_down fl fuel a n i) ≡ length a
  unfolding sift_down
  length-sift_down zero a n i = refl
  length-sift_down (suc fuel) a n i = ground (
    arith,
    length-sift_down fuel (swap (no_item fl) a i (least_child fl a n i)) n (least_child fl a n i),
    length-swap (no_item fl) a i (least_child fl a n i),
  )

  pub count-sift_down :
      (p : HeapItem F → Bool) (fuel : ℕ) (a : List (HeapItem F)) (n i : ℕ)
      → n ≤ length a
      → count p (sift_down fl fuel a n i) ≡ count p a
  unfolding sift_down
  count-sift_down p zero a n i h = refl
  count-sift_down p (suc fuel) a n i h = ground (
    arith,
    count-sift_down p fuel (swap (no_item fl) a i (least_child fl a n i)) n (least_child fl a n i),
    count-swap (no_item fl) p a i (least_child fl a n i),
    length-swap (no_item fl) a i (least_child fl a n i),
    child_bounds a n i,
  )

  -- Only the first n items are moved.
  pub item-sift_down :
      (fuel : ℕ) (a : List (HeapItem F)) (n i k : ℕ)
      → n ≤ length a
      → n ≤ k
      → item fl (sift_down fl fuel a n i) k ≡ item fl a k
  unfolding sift_down
  item-sift_down zero a n i k h q = refl
  item-sift_down (suc fuel) a n i k h q = ground (
    arith,
    item-sift_down fuel (swap (no_item fl) a i (least_child fl a n i)) n (least_child fl a n i) k,
    get_or-swap (no_item fl) a i (least_child fl a n i) k,
    length-swap (no_item fl) a i (least_child fl a n i),
    child_bounds a n i,
  )

  pub sift_down-AllItems :
      (Q : HeapItem F → Type 0) (fuel : ℕ) (a : List (HeapItem F)) (n i : ℕ)
      → n ≤ length a
      → AllItems fl Q a
      → AllItems fl Q (sift_down fl fuel a n i)
  unfolding sift_down
  sift_down-AllItems Q zero a n i p h = h
  sift_down-AllItems Q (suc fuel) a n i p h =
      let j = least_child fl a n i in
      elim (Bool-cases (leb n (2 * i + 1) || not (less fl a j i))) [
        | inl e ↦ rw e h
        | inr e ↦ rw e (
            let inside : 2 * i + 1 < n = ground arith in
            let bounds = child_bounds a n i inside in
            sift_down-AllItems Q fuel (swap (no_item fl) a i j) n j
              (omega (arith, length-swap (no_item fl) a i j, p))
              (swap-AllItems fl Q a i j (omega (arith, p, inside)) (omega (arith, p, bounds)) h))
      ]

  module _ (laws : FloatLaws fl) where
    -- A heap among the first n but for the item at i, which may be greater than its children.
    pub record Sinking (a : List (HeapItem F)) (n i : ℕ) : Type 0 where
      pub elsewhere : (k : ℕ) → 0 < k → k < n → parent fl k ≢ i → less fl a k (parent fl k) ≡ false
      pub below :
          (k : ℕ) → 0 < k → k < n → 0 < i → parent fl k ≡ i → less fl a k (parent fl i) ≡ false

    -- No child is less than the one that is looked at.
    least_child_least :
        (a : List (HeapItem F)) (n i k : ℕ)
        → 0 < k
        → k < n
        → parent fl k ≡ i
        → less fl a k (least_child fl a n i) ≡ false
    unfolding least_child
    least_child_least a n i k pos inside child = ground (
      arith,
      lt_irrefl fl laws (item fl a k).d,
      laws.asymm (item fl a (2 * i + 2)).d (item fl a (2 * i + 1)).d,
    )

    swap-Sinking :
        (a : List (HeapItem F)) (n i : ℕ)
        → n ≤ length a
        → Sinking a n i
        → 2 * i + 1 < n
        → less fl a (least_child fl a n i) i ≡ true
        → Sinking (swap (no_item fl) a i (least_child fl a n i)) n (least_child fl a n i)
    swap-Sinking a n i q h inside s =
        let j = least_child fl a n i in
        let bounds = child_bounds a n i inside in
        let at : (k : ℕ)
            → item fl (swap (no_item fl) a i j) k
              ≡ (if j == k then item fl a i else if i == k then item fl a j else item fl a k) =
          λ k.
            get_or-swap (no_item fl) a i j k (omega (arith, q, inside))
              (omega (arith, q, bounds)) in
        record {
          elsewhere = λ k pos within apart. ground (
            arith,
            bounds,
            at k,
            at (parent fl k),
            h.elsewhere k,
            h.below j,
            least_child_least a n i k,
            laws.asymm (item fl a j).d (item fl a i).d,
          );
          below = λ k pos within top child. ground (arith, bounds, at k, at i, h.elsewhere k);
        }

    pub sift_down-IsHeapTo :
        (fuel : ℕ) (a : List (HeapItem F)) (n i : ℕ)
        → n ≤ i + fuel
        → n ≤ length a
        → Sinking a n i
        → IsHeapTo fl laws n (sift_down fl fuel a n i)
    unfolding sift_down
    sift_down-IsHeapTo zero a n i p q h =
        λ k pos inside. h.elsewhere k pos inside (omega (arith, p, inside))
    sift_down-IsHeapTo (suc fuel) a n i p q h =
        let j = least_child fl a n i in
        elim (Bool-cases (leb n (2 * i + 1) || not (less fl a j i))) [
          | inl e ↦ rw e (λ k pos inside. elim (Bool-cases (parent fl k == i)) [
            | inl f ↦ ground (
              arith,
              least_child_least a n i k,
              laws.trans (item fl a i).d (item fl a j).d (item fl a k).d,
            )
            | inr f ↦ h.elsewhere k pos inside (ground arith)
          ])
          | inr e ↦ rw e (
              let inside : 2 * i + 1 < n = ground arith in
              let bounds = child_bounds a n i inside in
              sift_down-IsHeapTo fuel (swap (no_item fl) a i j) n j (omega (arith, p, bounds))
                (omega (arith, length-swap (no_item fl) a i j, q))
                (swap-Sinking a n i q h inside (ground arith)))
        ]
