-- ===== src/Analyzer/Dijkstra/Expand.antt =====
-- Popping an item and looking at all out-edges of its node (backend/internal/analyzer/attackpath.go).
use mathlib.Core.List.Memᴰ.{Memᴰ}
use perspectivegraph.Base.{
  ℕ, ◌+◌, ◌<◌, ◌≤◌, String, String_discrete, true, false, not, ◌&&◌, some, List, [], ◌∷◌, ◌≡◌, ◌≢◌,
  inl, inr, refl, arith, foldl, Floats, FloatLaws, float_zero, is_some, is_yes, length, count, bit,
  count-same, count_at, Bool-cases, Option-cases,
}
use perspectivegraph.Analyzer.Weights.{OutEdge, Adjacency, out_of}
use perspectivegraph.Analyzer.Heap.{HeapItem, no_item, item, pop}
use perspectivegraph.Analyzer.Heap.Order.{lt_irrefl}
use perspectivegraph.Analyzer.Heap.Queue.{
  pop_takes_least, pop-IsHeap, pop-AllItems, count-pop, top-pop,
}
use perspectivegraph.Analyzer.Dijkstra.{Search, dist_at, known, relax}
use perspectivegraph.Analyzer.Dijkstra.Walks.{NonNegative}
use perspectivegraph.Analyzer.Dijkstra.Invariant.{
  rank-bound, is_done, within, live, Entry, Parent, Inv,
}
use perspectivegraph.Analyzer.Dijkstra.Relax.{Looked, relax-Looked}

module _ {F : Type 0} (fl : Floats F) (laws : FloatLaws fl) (adj : Adjacency F) (src : String)
    (nn : NonNegative fl adj) where
  -- The loop over some of the out-edges.
  pub relax_all :
      (cur : HeapItem F) (done : List String) (es : List (OutEdge F)) (s : Search F)
      → Inv fl laws adj src s done cur.d
      → dist_at s cur.node ≡ some cur.d
      → is_done cur.node done ≡ true
      → ((e : OutEdge F) → Memᴰ e es → Memᴰ e (out_of adj cur.node))
      → Looked fl laws adj src nn cur done s (foldl (relax fl cur) s es)
        × ((e : OutEdge F)
            → Memᴰ e es
            → within fl (fl.add cur.d e.weight) (dist_at (foldl (relax fl cur) s es) e.to) ≡ true)
        × (length (foldl (relax fl cur) s es).queue ≤ length s.queue + length es)
  relax_all cur done [] s inv at cur_done sub = (
    record { inv = inv; kept = λ v h. refl; closer = λ b v h. h },
    λ e m. elim m [ ],
    omega arith,
  )
  relax_all cur done (e ∷ es) s inv at cur_done sub =
      let t = relax fl cur s e in
      let (one, bound, len) =
        relax-Looked fl laws adj src nn cur s e done inv at cur_done (sub e (Memᴰ.head refl)) in
      let (all, bounds, lens) =
        relax_all cur done es t one.inv (ground (arith, one.kept cur.node)) cur_done
          (λ x m. sub x (Memᴰ.tail m)) in
      (
        record {
          inv = all.inv;
          kept = λ v h. ground (arith, one.kept v, all.kept v);
          closer = λ b v h. all.closer b v (one.closer b v h);
        },
        λ x m. elim m [
          | Memᴰ.head p ↦ ground (arith, all.closer (fl.add cur.d e.weight) e.to bound)
          | Memᴰ.tail m' ↦ bounds x m'
        ],
        omega (arith, len, lens),
      )

  module _ (s : Search F) (done : List String) (low : F) (inv : Inv fl laws adj src s done low)
      (some_item : 0 < length s.queue) where
    abbrev cur : HeapItem F
    cur = (pop fl s.queue).0

    abbrev popped : Search F
    popped = record s { queue = (pop fl s.queue).1 }

    cur-Entry : Entry fl s low cur
    cur-Entry = rw (top-pop fl s.queue some_item) (inv.entries 0 some_item)

    -- A stale item is taken off, and the invariant stays.
    pub stale-Inv : fl.lt (known fl s cur.node) cur.d ≡ true → Inv fl laws adj src popped done low
    stale-Inv stale = record {
      heap = pop-IsHeap fl laws s.queue inv.heap some_item;
      entries = λ k inside.
          let h = pop-AllItems fl (Entry fl s low) s.queue some_item inv.entries k inside in
          record { best = h.best; at = h.at; order = h.order; above = h.above };
      low_pos = inv.low_pos;
      lives = λ v. ground (
        arith,
        inv.lives v,
        count-pop fl (live fl s v) s.queue some_item,
        count-same (live fl popped v) (live fl s v) (pop fl s.queue).1 (λ x. refl),
      );
      settled = inv.settled;
      sound = inv.sound;
      source = inv.source;
      tree = λ v apart q.
          let h = inv.tree v apart q in
          record {
            from = h.from;
            edge = h.edge;
            base = h.base;
            prev = h.prev;
            mem = h.mem;
            to = h.to;
            base_at = h.base_at;
            dist = h.dist;
            from_done = h.from_done;
            earlier = h.earlier;
          };
    }

    module _ (fresh : fl.lt (known fl s cur.node) cur.d ≡ false) where
      pub cur_at : dist_at s cur.node ≡ some cur.d
      cur_at = ground (arith, cur-Entry.at, cur-Entry.order)

      pub cur_not_done : is_done cur.node done ≡ false
      cur_not_done = ground (
        arith,
        inv.lives cur.node,
        cur_at,
        count-pop fl (live fl s cur.node) s.queue some_item,
        lt_irrefl fl laws cur.d,
      )

      abbrev done' : List String
      done' = cur.node ∷ done

      Entry-popped :
          (k : ℕ) → k < length popped.queue → Entry fl popped cur.d (item fl popped.queue k)
      Entry-popped k inside =
          let h = pop-AllItems fl (Entry fl s low) s.queue some_item inv.entries k inside in
          let less_than = λ (x : HeapItem F). fl.lt x.d cur.d in
          let none_less : count less_than popped.queue ≡ 0 = ground (
            arith,
            (pop_takes_least fl laws s.queue inv.heap some_item).1,
            count-pop fl less_than s.queue some_item,
          ) in
          record {
            best = h.best;
            at = h.at;
            order = h.order;
            above = count_at (no_item fl) less_than popped.queue k none_less inside;
          }

      lives-popped :
          (v : String)
          → count (live fl popped v) popped.queue
            ≡ bit (is_some (dist_at popped v) && not (is_done v done'))
      lives-popped v = elim (Bool-cases (is_yes (String_discrete v cur.node))) [
        | inl same ↦
            let p : v ≡ cur.node = ground arith in
            rw p (
              ground (
                arith,
                inv.lives cur.node,
                cur_at,
                cur_not_done,
                count-pop fl (live fl s cur.node) s.queue some_item,
                count-same (live fl popped cur.node) (live fl s cur.node) popped.queue (λ x. refl),
                lt_irrefl fl laws cur.d,
              ))
        | inr other ↦ ground (
          arith,
          inv.lives v,
          count-pop fl (live fl s v) s.queue some_item,
          count-same (live fl popped v) (live fl s v) popped.queue (λ x. refl),
        )
      ]

      tree-popped :
          (v : String) → v ≢ src → is_some (dist_at popped v) ≡ true → Parent fl adj popped done' v
      tree-popped v apart q =
          let h = inv.tree v apart q in
          record {
            from = h.from;
            edge = h.edge;
            base = h.base;
            prev = h.prev;
            mem = h.mem;
            to = h.to;
            base_at = h.base_at;
            dist = h.dist;
            from_done = ground (arith, h.from_done);
            earlier = λ finished.
                ground (arith, h.from_done, h.earlier, cur_not_done, rank-bound h.from done);
          }

      -- The invariant, with the popped node done.
      pub fresh-Inv : Inv fl laws adj src popped done' cur.d
      fresh-Inv = record {
        heap = pop-IsHeap fl laws s.queue inv.heap some_item;
        entries = Entry-popped;
        low_pos = laws.trans (float_zero fl) low cur.d inv.low_pos cur-Entry.above;
        lives = lives-popped;
        settled = λ v h. elim (Option-cases (dist_at s v)) [
          | inl q ↦ ground (arith, inv.settled v, cur_at)
          | inr (d, q) ↦ ground (
            arith,
            inv.settled v,
            cur_at,
            lt_irrefl fl laws cur.d,
            cur-Entry.above,
            laws.trans d low cur.d,
          )
        ];
        sound = inv.sound;
        source = inv.source;
        tree = tree-popped;
      }
