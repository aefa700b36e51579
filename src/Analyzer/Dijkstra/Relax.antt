-- ===== src/Analyzer/Dijkstra/Relax.antt =====
-- Looking at one out-edge keeps the search's invariant (backend/internal/analyzer/attackpath.go).
use mathlib.Core.List.Memᴰ.{Memᴰ}
use perspectivegraph.Base.Maps.{insert, lookup-insert}
use perspectivegraph.Base.{
  ◌+◌, ◌≤◌, String, String_discrete, true, false, not, ◌&&◌, some, List, ◌≡◌, ◌≢◌, inl, inr, refl,
  subst, arith, Floats, FloatLaws, float_zero, is_some, is_yes, if◌then◌else◌, length, count, bit,
  count-same, count_at_none, Bool-cases, Option-cases,
}
use perspectivegraph.Analyzer.Weights.{OutEdge, Adjacency, out_of}
use perspectivegraph.Analyzer.Heap.{HeapItem, no_item, item, push}
use perspectivegraph.Analyzer.Heap.Order.{lt_irrefl, lt_trans}
use perspectivegraph.Analyzer.Heap.Queue.{push_adds, push-AllItems, count-push, length-push}
use perspectivegraph.Analyzer.Dijkstra.{Search, dist_at, prev_at, step_of, improves, relax}
use perspectivegraph.Analyzer.Dijkstra.Walks.{Walk, NonNegative}
use perspectivegraph.Analyzer.Dijkstra.Invariant.{is_done, within, live, Entry, Parent, Inv}

module _ {F : Type 0} (fl : Floats F) where
  -- The search after an out-edge has improved the distance of its end.
  abbrev improved : HeapItem F → Search F → OutEdge F → Search F
  improved cur s e =
      let nd = fl.add cur.d e.weight in
      record {
        dist = insert String_discrete e.to nd s.dist;
        prev = insert String_discrete e.to (step_of cur.node e) s.prev;
        queue = push fl s.queue (record { node = e.to; d = nd });
      }

  dist_at-improved :
      (cur : HeapItem F) (s : Search F) (e : OutEdge F) (v : String)
      → dist_at (improved cur s e) v
        ≡ (if is_yes (String_discrete v e.to) then some (fl.add cur.d e.weight) else dist_at s v)
  dist_at-improved cur s e v =
      ground (arith, lookup-insert String_discrete v e.to (fl.add cur.d e.weight) s.dist)

  prev_at-improved :
      (cur : HeapItem F) (s : Search F) (e : OutEdge F) (v : String)
      → prev_at (improved cur s e) v
        ≡ (if is_yes (String_discrete v e.to) then some (step_of cur.node e) else prev_at s v)
  prev_at-improved cur s e v =
      ground (arith, lookup-insert String_discrete v e.to (step_of cur.node e) s.prev)

  module _ (laws : FloatLaws fl) (adj : Adjacency F) (src : String) (nn : NonNegative fl adj) where
    module _ (cur : HeapItem F) (s : Search F) (e : OutEdge F) (done : List String)
        (inv : Inv fl laws adj src s done cur.d) (at : dist_at s cur.node ≡ some cur.d)
        (cur_done : is_done cur.node done ≡ true) (mem : Memᴰ e (out_of adj cur.node))
        (better : improves fl (dist_at s e.to) (fl.add cur.d e.weight) ≡ true) where
      abbrev nd : F
      nd = fl.add cur.d e.weight

      abbrev after : Search F
      after = improved cur s e

      grown : fl.lt nd cur.d ≡ false
      grown = laws.add_grows cur.d e.weight (nn cur.node e mem)

      -- What is done is not improved.
      not_done : is_done e.to done ≡ false
      not_done = elim (Option-cases (dist_at s e.to)) [
        | inl q ↦ ground (arith, inv.settled e.to)
        | inr (d, q) ↦ ground (arith, inv.settled e.to, laws.trans d cur.d nd, grown)
      ]

      not_source : e.to ≢ src
      not_source p =
          ground (arith, inv.source, inv.low_pos, grown, laws.trans (float_zero fl) cur.d nd)

      Entry-improved : (x : HeapItem F) → Entry fl s cur.d x → Entry fl after cur.d x
      Entry-improved x h = elim (Bool-cases (is_yes (String_discrete x.node e.to))) [
        | inl same ↦
            let at' : dist_at s e.to ≡ some h.best = ground (arith, h.at) in
            record {
              best = nd;
              at = ground (arith, dist_at-improved cur s e x.node);
              order = inr (ground (arith, h.order, lt_trans fl laws nd h.best x.d));
              above = h.above;
            }
        | inr other ↦ record {
          best = h.best;
          at = ground (arith, dist_at-improved cur s e x.node, h.at);
          order = h.order;
          above = h.above;
        }
      ]

      none_live : count (live fl after e.to) s.queue ≡ 0
      none_live = count_at_none (no_item fl) (live fl after e.to) s.queue (λ k inside.
          let x = item fl s.queue k in
          let h = inv.entries k inside in
          ground
            (arith, h.at, h.order, dist_at-improved cur s e e.to, lt_trans fl laws nd h.best x.d))

      lives-improved :
          (v : String)
          → count (live fl after v) after.queue
            ≡ bit (is_some (dist_at after v) && not (is_done v done))
      lives-improved v = elim (Bool-cases (is_yes (String_discrete v e.to))) [
        | inl same ↦
            let p : v ≡ e.to = ground arith in
            rw p (
              ground (
                arith,
                count-push fl (live fl after e.to) s.queue (record { node = e.to; d = nd }),
                none_live,
                not_done,
                dist_at-improved cur s e e.to,
                lt_irrefl fl laws nd,
              ))
        | inr other ↦ ground (
          arith,
          count-push fl (live fl after v) s.queue (record { node = e.to; d = nd }),
          count-same (live fl after v) (live fl s v) s.queue
              (λ x. ground (arith, dist_at-improved cur s e v)),
          inv.lives v,
          dist_at-improved cur s e v,
        )
      ]

      sound-improved : (v : String) (d : F) → dist_at after v ≡ some d → Walk fl adj src v d
      sound-improved v d q = elim (Bool-cases (is_yes (String_discrete v e.to))) [
        | inl same ↦
            let p : e.to ≡ v = ground arith in
            let r : nd ≡ d = ground (arith, dist_at-improved cur s e v) in
            subst (λ c. Walk fl adj src v c) r
              (subst (λ u. Walk fl adj src u nd) p (Walk.hop (inv.sound cur.node cur.d at) e mem))
        | inr other ↦ inv.sound v d (ground (arith, dist_at-improved cur s e v))
      ]

      tree-improved :
          (v : String) → v ≢ src → is_some (dist_at after v) ≡ true → Parent fl adj after done v
      tree-improved v apart q = elim (Bool-cases (is_yes (String_discrete v e.to))) [
        | inl same ↦ record {
          from = cur.node;
          edge = e;
          base = cur.d;
          prev = ground (arith, prev_at-improved cur s e v);
          mem = mem;
          to = ground arith;
          base_at = ground (arith, dist_at-improved cur s e cur.node, at, cur_done, not_done);
          dist = ground (arith, dist_at-improved cur s e v);
          from_done = cur_done;
          earlier = λ finished. absurd (ground (arith, not_done));
        }
        | inr other ↦
            let h = inv.tree v apart (ground (arith, dist_at-improved cur s e v)) in
            record {
              from = h.from;
              edge = h.edge;
              base = h.base;
              prev = ground (arith, prev_at-improved cur s e v, h.prev);
              mem = h.mem;
              to = h.to;
              base_at =
                  ground (arith, dist_at-improved cur s e h.from, h.base_at, h.from_done, not_done);
              dist = ground (arith, dist_at-improved cur s e v, h.dist);
              from_done = h.from_done;
              earlier = h.earlier;
            }
      ]

      Inv-improved : Inv fl laws adj src after done cur.d
      Inv-improved = record {
        heap = (push_adds fl laws s.queue (record { node = e.to; d = nd }) inv.heap).0;
        entries =
            push-AllItems fl (Entry fl after cur.d) s.queue (record { node = e.to; d = nd })
              (λ k inside. Entry-improved (item fl s.queue k) (inv.entries k inside))
              (record {
                best = nd;
                at = ground (arith, dist_at-improved cur s e e.to);
                order = inl refl;
                above = grown;
              });
        low_pos = inv.low_pos;
        lives = lives-improved;
        settled = λ v h. ground (arith, dist_at-improved cur s e v, inv.settled v, not_done);
        sound = sound-improved;
        source = ground (arith, dist_at-improved cur s e src, inv.source, not_source);
        tree = tree-improved;
      }

    -- What one look at an out-edge of a done node leaves: the invariant, the distances of what is
    -- done, no greater distances, a distance for the end, and at most one more item.
    pub record Looked (cur : HeapItem F) (done : List String) (s t : Search F) : Type 0 where
      pub inv : Inv fl laws adj src t done cur.d
      pub kept : (v : String) → is_done v done ≡ true → dist_at t v ≡ dist_at s v
      pub closer :
          (b : F) (v : String) → within fl b (dist_at s v) ≡ true → within fl b (dist_at t v) ≡ true

    pub relax-Looked :
        (cur : HeapItem F) (s : Search F) (e : OutEdge F) (done : List String)
        → Inv fl laws adj src s done cur.d
        → dist_at s cur.node ≡ some cur.d
        → is_done cur.node done ≡ true
        → Memᴰ e (out_of adj cur.node)
        → Looked cur done s (relax fl cur s e)
          × (within fl (fl.add cur.d e.weight) (dist_at (relax fl cur s e) e.to) ≡ true)
          × (length (relax fl cur s e).queue ≤ length s.queue + 1)
    unfolding relax
    relax-Looked cur s e done inv at cur_done mem =
        let nd = fl.add cur.d e.weight in
        elim (Bool-cases (improves fl (dist_at s e.to) nd)) [
          | inl better ↦
              rw (better, relax)
                (
                  record {
                    inv = Inv-improved cur s e done inv at cur_done mem better;
                    kept = λ v h. ground (
                      arith,
                      dist_at-improved cur s e v,
                      not_done cur s e done inv at cur_done mem better,
                    );
                    closer = λ b v h. elim (Option-cases (dist_at s v)) [
                      | inl q ↦ absurd (ground arith)
                      | inr (d, q) ↦
                          ground (arith, dist_at-improved cur s e v, lt_trans fl laws b nd d)
                    ];
                  },
                  ground (arith, dist_at-improved cur s e e.to, lt_irrefl fl laws nd),
                  omega (arith, length-push fl s.queue (record { node = e.to; d = nd })),
                )
          | inr worse ↦
              rw (worse, relax)
                (
                  record { inv = inv; kept = λ v h. refl; closer = λ b v h. h },
                  elim (Option-cases (dist_at s e.to)) [
                    | inl q ↦ absurd (ground arith)
                    | inr (d, q) ↦ ground arith
                  ],
                  omega arith,
                )
        ]
