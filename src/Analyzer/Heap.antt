-- ===== src/Analyzer/Heap.antt =====
-- The priority queue of the path searches: the binary heap in backend/internal/analyzer/attackpath.go.
-- A sift is a loop, here recursion on fuel that its index bounds.
pub mod Order
pub mod Up
pub mod Down
pub mod Queue
use perspectivegraph.Base.{
  ℕ, zero, suc, ◌+◌, ◌-◌, ◌*◌, ◌/◌, String, Bool, true, false, not, ◌||◌, ◌&&◌, List, [], ◌∷◌, ◌++◌,
  Floats, float_zero, ltb, leb, ◌==◌, if◌then◌else◌, length, get_or, swap, take,
}

pub record HeapItem (F : Type 0) : Type 0 where
  pub node : String
  pub d : F

module _ {F : Type 0} (fl : Floats F) where
  abbrev pub no_item : HeapItem F
  no_item = record { node = ""; d = float_zero fl }

  -- `a[i]`
  abbrev pub item : List (HeapItem F) → ℕ → HeapItem F
  item = get_or no_item

  -- `a[j].d < a[i].d`
  abbrev pub less : List (HeapItem F) → ℕ → ℕ → Bool
  less a j i = fl.lt (item a j).d (item a i).d

  abbrev pub parent : ℕ → ℕ
  parent j = (j - 1) / 2

  -- The loop of push, from index j.
  unfoldable pub sift_up : ℕ → List (HeapItem F) → ℕ → List (HeapItem F)
  unfolding swap
  sift_up zero a j = a
  sift_up (suc fuel) a j =
      let rest = sift_up fuel (swap no_item a (parent j) j) (parent j) in
      if parent j == j || not (less a j (parent j)) then a else rest

  unfoldable pub push : List (HeapItem F) → HeapItem F → List (HeapItem F)
  unfolding sift_up
  push q it = sift_up (length q + 1) (q ++ it ∷ []) (length q)

  -- The child that the loop of pop looks at: the right one where it is strictly less.
  unfoldable pub least_child : List (HeapItem F) → ℕ → ℕ → ℕ
  least_child a n i =
      let j1 = 2 * i + 1 in if ltb (j1 + 1) n && less a (j1 + 1) j1 then j1 + 1 else j1

  -- The loop of pop over the first n items, from index i.
  unfoldable pub sift_down : ℕ → List (HeapItem F) → ℕ → ℕ → List (HeapItem F)
  unfolding least_child swap
  sift_down zero a n i = a
  sift_down (suc fuel) a n i =
      let j = least_child a n i in
      let rest = sift_down fuel (swap no_item a i j) n j in
      if leb n (2 * i + 1) || not (less a j i) then a else rest

  -- The item that pop hands back, and the queue without it.
  unfoldable pub pop : List (HeapItem F) → HeapItem F × List (HeapItem F)
  unfolding sift_down
  pop q =
      let n = length q - 1 in let a = sift_down n (swap no_item q 0 n) n 0 in (item a n, take n a)
