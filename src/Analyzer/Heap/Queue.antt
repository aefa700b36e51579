-- ===== src/Analyzer/Heap/Queue.antt =====
-- What push and pop promise the searches (backend/internal/analyzer/attackpath.go).
use perspectivegraph.Base.{
  ◌+◌, ◌-◌, ◌≡◌, ◌<◌, Bool, true, List, [], ◌∷◌, ◌++◌, arith, Floats, FloatLaws, length,
  length-append, Bool-cases, inl, inr, ltb, ◌==◌, swap, get_or-swap, get_or-append, get_or-take,
  length-swap, length-take, count-swap, count, count-append, count-take, count_at_none, bit,
}
use perspectivegraph.Analyzer.Heap.{HeapItem, no_item, item, parent, sift_down, push, pop}
use perspectivegraph.Analyzer.Heap.Order.{IsHeap, first_least}
use perspectivegraph.Analyzer.Heap.Up.{
  AllItems, swap-AllItems, Rising, sift_up-IsHeap, count-sift_up, length-sift_up, sift_up-AllItems,
}
use perspectivegraph.Analyzer.Heap.Down.{
  Sinking, sift_down-IsHeapTo, count-sift_down, length-sift_down, item-sift_down,
  sift_down-AllItems,
}

module _ {F : Type 0} (fl : Floats F) where
  pub length-push : (q : List (HeapItem F)) (it : HeapItem F) → length (push fl q it) ≡ length q + 1
  unfolding push
  length-push q it =
      omega (
        arith,
        length-sift_up fl (length q + 1) (q ++ it ∷ []) (length q),
        length-append q (it ∷ []),
      )

  pub count-push :
      (p : HeapItem F → Bool) (q : List (HeapItem F)) (it : HeapItem F)
      → count p (push fl q it) ≡ count p q + bit (p it)
  unfolding push
  count-push p q it = ground (
    arith,
    count-sift_up fl p (length q + 1) (q ++ it ∷ []) (length q),
    length-append q (it ∷ []),
    count-append p q (it ∷ []),
  )

  pub push-AllItems :
      (Q : HeapItem F → Type 0) (q : List (HeapItem F)) (it : HeapItem F)
      → AllItems fl Q q
      → Q it
      → AllItems fl Q (push fl q it)
  unfolding push
  push-AllItems Q q it h new =
      sift_up-AllItems fl Q (length q + 1) (q ++ it ∷ []) (length q)
        (omega (arith, length-append q (it ∷ [])))
        (λ k inside. elim (Bool-cases (ltb k (length q))) [
          | inl e ↦ rw (get_or-append (no_item fl) q it k, e) (h k (ground arith))
          | inr e ↦
              let last : (k == length q) ≡ true = ground (arith, length-append q (it ∷ [])) in
              rw (get_or-append (no_item fl) q it k, e, last) new
        ])

  pub length-pop : (q : List (HeapItem F)) → length (pop fl q).1 ≡ length q - 1
  unfolding pop
  length-pop q =
      let n = length q - 1 in
      let a = swap (no_item fl) q 0 n in
      ground (
        arith,
        length-take n (sift_down fl n a n 0),
        length-sift_down fl n a n 0,
        length-swap (no_item fl) q 0 n,
      )

  -- What pop hands back stood first.
  pub top-pop : (q : List (HeapItem F)) → 0 < length q → (pop fl q).0 ≡ item fl q 0
  unfolding pop
  top-pop q h =
      let n = length q - 1 in
      let a = swap (no_item fl) q 0 n in
      ground (
        arith,
        item-sift_down fl n a n 0 n,
        length-swap (no_item fl) q 0 n,
        get_or-swap (no_item fl) q 0 n n,
      )

  pub count-pop :
      (p : HeapItem F → Bool) (q : List (HeapItem F))
      → 0 < length q
      → count p (pop fl q).1 + bit (p (pop fl q).0) ≡ count p q
  unfolding pop
  count-pop p q h =
      let n = length q - 1 in
      let a = swap (no_item fl) q 0 n in
      ground (
        arith,
        count-take (no_item fl) p n (sift_down fl n a n 0),
        length-sift_down fl n a n 0,
        length-swap (no_item fl) q 0 n,
        count-sift_down fl p n a n 0,
        count-swap (no_item fl) p q 0 n,
      )

  pub pop-AllItems :
      (Q : HeapItem F → Type 0) (q : List (HeapItem F))
      → 0 < length q
      → AllItems fl Q q
      → AllItems fl Q (pop fl q).1
  unfolding pop
  pop-AllItems Q q h all k inside =
      let n = length q - 1 in
      let a = swap (no_item fl) q 0 n in
      let sifted = length-sift_down fl n a n 0 in
      let swapped = length-swap (no_item fl) q 0 n in
      let len = length-take n (sift_down fl n a n 0) (omega (arith, sifted, swapped)) in
      rw (get_or-take (no_item fl) n (sift_down fl n a n 0) k (omega (arith, inside, len))) (
        sift_down-AllItems fl Q n a n 0 (omega (arith, swapped))
          (swap-AllItems fl Q q 0 n h (omega (arith, h)) all) k
          (omega (arith, sifted, swapped, inside, len)))

  module _ (laws : FloatLaws fl) where
    push-Rising :
        (q : List (HeapItem F)) (it : HeapItem F)
        → IsHeap fl laws q
        → Rising fl laws (q ++ it ∷ []) (length q)
    push-Rising q it h = record {
      elsewhere = λ k pos inside apart. ground (
        arith,
        h k,
        length-append q (it ∷ []),
        get_or-append (no_item fl) q it k,
        get_or-append (no_item fl) q it (parent fl k),
      );
      below = λ k pos inside top child.
          absurd (omega (arith, inside, length-append q (it ∷ []), child, pos));
    }

    -- push keeps the heap order, and adds one item to those there are: of the items that meet any
    -- test there are as many as before, and one more where the new item meets it.
    pub push_adds :
        (q : List (HeapItem F)) (it : HeapItem F)
        → IsHeap fl laws q
        → IsHeap fl laws (push fl q it)
          × ((p : HeapItem F → Bool) → count p (push fl q it) ≡ count p q + bit (p it))
    unfolding push
    push_adds q it h = (
      sift_up-IsHeap fl laws (length q + 1) (q ++ it ∷ []) (length q) (omega arith)
          (omega (arith, length-append q (it ∷ []))) (push-Rising q it h),
      λ p. count-push p q it,
    )

    pop-Sinking :
        (q : List (HeapItem F))
        → IsHeap fl laws q
        → 0 < length q
        → Sinking fl laws (swap (no_item fl) q 0 (length q - 1)) (length q - 1) 0
    pop-Sinking q h some_item =
        let n = length q - 1 in
        record {
          elsewhere = λ k pos inside apart. ground (
            arith,
            h k,
            get_or-swap (no_item fl) q 0 n k,
            get_or-swap (no_item fl) q 0 n (parent fl k),
          );
          below = λ k pos inside top child. absurd (omega (arith, top));
        }

    pub pop-IsHeap :
        (q : List (HeapItem F)) → IsHeap fl laws q → 0 < length q → IsHeap fl laws (pop fl q).1
    unfolding pop
    pop-IsHeap q h some_item k pos inside =
        let n = length q - 1 in
        let a = swap (no_item fl) q 0 n in
        let len = length-swap (no_item fl) q 0 n in
        let sorted =
          sift_down-IsHeapTo fl laws n a n 0 (omega arith) (omega (arith, len))
            (pop-Sinking q h some_item) in
        ground (
          arith,
          sorted k,
          len,
          length-sift_down fl n a n 0,
          length-take n (sift_down fl n a n 0),
          get_or-take (no_item fl) n (sift_down fl n a n 0) k,
          get_or-take (no_item fl) n (sift_down fl n a n 0) (parent fl k),
        )

    -- pop on a heap that is not empty takes off one item, than which none is less, and keeps the
    -- heap order.
    pub pop_takes_least :
        (q : List (HeapItem F))
        → IsHeap fl laws q
        → 0 < length q
        → IsHeap fl laws (pop fl q).1
          × (count (λ x. fl.lt x.d (pop fl q).0.d) q ≡ 0)
          × ((p : HeapItem F → Bool) → count p (pop fl q).1 + bit (p (pop fl q).0) ≡ count p q)
    pop_takes_least q h some_item = (
      pop-IsHeap q h some_item,
      rw (top-pop q some_item) (
          count_at_none (no_item fl) (λ x. fl.lt x.d (item fl q 0).d) q
            (λ k inside. first_least fl laws (length q) q h k inside)),
      λ p. count-pop p q some_item,
    )
