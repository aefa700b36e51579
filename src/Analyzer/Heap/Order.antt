-- ===== src/Analyzer/Heap/Order.antt =====
-- The order of distances and the heap order (backend/internal/analyzer/attackpath.go).
use perspectivegraph.Base.{
  ℕ, zero, suc, ◌≡◌, ◌<◌, true, false, List, arith, Floats, FloatLaws, length,
}
use perspectivegraph.Analyzer.Heap.{HeapItem, item, less, parent}

module _ {F : Type 0} (fl : Floats F) (laws : FloatLaws fl) where
  pub lt_irrefl : (a : F) → fl.lt a a ≡ false
  lt_irrefl a = ground (arith, laws.asymm a a)

  -- a < b <= c
  pub lt_le : (a b c : F) → fl.lt a b ≡ true → fl.lt c b ≡ false → fl.lt a c ≡ true
  lt_le a b c p q = ground (arith, laws.trans b c a q)

  -- a <= b < c
  pub le_lt : (a b c : F) → fl.lt b a ≡ false → fl.lt b c ≡ true → fl.lt a c ≡ true
  le_lt a b c p q = ground (arith, laws.trans c a b)

  pub lt_trans : (a b c : F) → fl.lt a b ≡ true → fl.lt b c ≡ true → fl.lt a c ≡ true
  lt_trans a b c p q = lt_le a b c p (laws.asymm b c q)

  -- No item is less than its parent, among the first n.
  abbrev pub IsHeapTo : ℕ → List (HeapItem F) → Type 0
  IsHeapTo n a = (k : ℕ) → 0 < k → k < n → less fl a k (parent fl k) ≡ false

  abbrev pub IsHeap : List (HeapItem F) → Type 0
  IsHeap a = IsHeapTo (length a) a

  least_to :
      (n : ℕ) (a : List (HeapItem F))
      → IsHeapTo n a
      → (fuel k : ℕ) → k < fuel
      → k < n
      → less fl a k 0 ≡ false
  least_to n a h zero k p q = absurd (omega (arith, p))
  least_to n a h (suc fuel) zero p q = lt_irrefl (item fl a 0).d
  least_to n a h (suc fuel) (suc k) p q =
      let up = parent fl (suc k) in
      let rest = least_to n a h fuel up (omega arith) (omega arith) in
      laws.trans (item fl a 0).d (item fl a up).d (item fl a (suc k)).d rest
        (h (suc k) (omega arith) q)

  -- The first item of a heap is a least one.
  pub first_least :
      (n : ℕ) (a : List (HeapItem F)) → IsHeapTo n a → (k : ℕ) → k < n → less fl a k 0 ≡ false
  first_least n a h k q = least_to n a h (suc k) k (omega arith) q
