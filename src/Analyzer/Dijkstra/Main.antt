-- ===== src/Analyzer/Dijkstra/Main.antt =====
-- The search as a whole (backend/internal/analyzer/attackpath.go): it ends, and finds for each node
-- the least cost of a walk to it.
use mathlib.Core.List.Memᴰ.{Memᴰ}
use mathlib.Core.List.{lookup}
use perspectivegraph.Base.Maps.{keys, lookup-insert}
use perspectivegraph.Base.{
  ℕ, zero, suc, ◌+◌, ◌<◌, ◌≤◌, String, String_discrete, true, none, some, List, [], ◌∷◌, ◌≡◌, inl,
  inr, refl, sym, subst, arith, Floats, FloatLaws, float_zero, is_some, is_yes, if◌then◌else◌, ◌==◌,
  length, Bool-cases, Option-cases, List-cases,
}
use perspectivegraph.Analyzer.Weights.{Adjacency, out_of}
use perspectivegraph.Analyzer.Heap.{HeapItem, pop}
use perspectivegraph.Analyzer.Heap.Order.{lt_irrefl}
use perspectivegraph.Analyzer.Heap.Queue.{
  length-pop, length-push, count-push, push_adds, push-AllItems,
}
use perspectivegraph.Analyzer.Dijkstra.{
  Search, dist_at, known, expand, run, out_total, start, dijkstra,
}
use perspectivegraph.Analyzer.Dijkstra.Walks.{Walk, NonNegative}
use perspectivegraph.Analyzer.Dijkstra.Fuel.{left, left-total, left-keys}
use perspectivegraph.Analyzer.Dijkstra.Invariant.{is_done, within, live, Entry, Inv, Relaxed}
use perspectivegraph.Analyzer.Dijkstra.Expand.{
  relax_all, stale-Inv, fresh-Inv, cur_at, cur_not_done,
}

module _ {F : Type 0} (fl : Floats F) (laws : FloatLaws fl) (adj : Adjacency F) (src : String)
    (nn : NonNegative fl adj) where
  abbrev AllRelaxed : Search F → List String → Type 0
  AllRelaxed s done = (u : String) → is_done u done ≡ true → Relaxed fl laws adj src s u

  abbrev fuel_for : Search F → List String → ℕ
  fuel_for s done = length s.queue + left adj done (keys adj)

  -- One turn of the main loop: the invariant again, and less to do.
  record Turn (s t : Search F) (done : List String) : Type 0 where
    done' : List String
    low' : F
    inv : Inv fl laws adj src t done' low'
    relaxed : AllRelaxed t done'
    less : fuel_for t done' < fuel_for s done
    spent : fuel_for t done' + length done' ≤ fuel_for s done + length done

  expand-Turn :
      (s : Search F) (done : List String) (low : F)
      → Inv fl laws adj src s done low
      → AllRelaxed s done
      → 0 < length s.queue
      → Turn s (expand fl adj (record s { queue = (pop fl s.queue).1 }) (pop fl s.queue).0) done
  unfolding expand
  expand-Turn s done low inv relaxed some_item =
      let cur = (pop fl s.queue).0 in
      let popped : Search F = record s { queue = (pop fl s.queue).1 } in
      let len = length-pop fl s.queue in
      elim (Bool-cases (fl.lt (known fl s cur.node) cur.d)) [
        | inl stale ↦
            rw (stale, expand)
              (record {
                done' = done;
                low' = low;
                inv = stale-Inv fl laws adj src nn s done low inv some_item stale;
                relaxed = relaxed;
                less = omega (arith, len, some_item);
                spent = omega (arith, len, some_item);
              })
        | inr fresh ↦
            let at = cur_at fl laws adj src nn s done low inv some_item fresh in
            let new = cur_not_done fl laws adj src nn s done low inv some_item fresh in
            let (all, bounds, lens) =
              relax_all fl laws adj src nn cur (cur.node ∷ done) (out_of adj cur.node) popped
                (fresh-Inv fl laws adj src nn s done low inv some_item fresh) at (ground arith)
                (λ e m. m) in
            rw (fresh, expand)
              (record {
                done' = cur.node ∷ done;
                low' = cur.d;
                inv = all.inv;
                relaxed = λ u h e m. elim (String_discrete u cur.node) [
                  | yes p ↦ ground (
                    arith,
                    all.kept cur.node,
                    at,
                    bounds e (subst (λ w. Memᴰ e (out_of adj w)) p m),
                  )
                  | no p ↦
                      let old = relaxed u (ground arith) e m in
                      ground
                        (arith, all.kept u, all.closer (fl.add (known fl s u) e.weight) e.to old)
                ];
                less = omega (arith, len, lens, some_item, left-keys adj cur.node done new);
                spent = omega (arith, len, lens, some_item, left-keys adj cur.node done new);
              })
      ]

  -- The search with nothing left to do.
  pub record Finished (t : Search F) : Type 0 where
    pub done : List String
    pub low : F
    pub empty : t.queue ≡ []
    pub inv : Inv fl laws adj src t done low
    pub relaxed : AllRelaxed t done
    pub bound : length done ≤ out_total adj (keys adj) + 1

  run-Finished :
      (fuel : ℕ) (s : Search F) (done : List String) (low : F)
      → Inv fl laws adj src s done low
      → AllRelaxed s done
      → fuel_for s done < fuel
      → fuel_for s done + length done ≤ out_total adj (keys adj) + 1
      → Finished (run fl fuel adj s)
  unfolding run
  run-Finished zero s done low inv relaxed enough few = absurd (omega (arith, enough))
  run-Finished (suc fuel) s done low inv relaxed enough few =
      elim (Bool-cases (length s.queue == 0)) [
        | inl e ↦
            rw (e, run)
              (record {
                done = done;
                low = low;
                empty = elim (List-cases s.queue) [
                  | inl q ↦ q
                  | inr (x, rest, q) ↦ absurd (ground arith)
                ];
                inv = inv;
                relaxed = relaxed;
                bound = omega (arith, few);
              })
        | inr e ↦
            let t = expand-Turn s done low inv relaxed (ground arith) in
            rw (e, run)
              (run-Finished fuel _ t.done' t.low' t.inv t.relaxed (omega (arith, t.less, enough))
                (omega (arith, t.spent, few)))
      ]

  abbrev first_item : HeapItem F
  first_item = record { node = src; d = float_zero fl }

  dist_at-start :
      (v : String)
      → dist_at (start fl src) v
        ≡ (if is_yes (String_discrete v src) then some (float_zero fl) else none)
  unfolding start lookup
  dist_at-start v = ground (arith, lookup-insert String_discrete v src (float_zero fl) [])

  start-Inv : Inv fl laws adj src (start fl src) [] (float_zero fl)
  unfolding start
  start-Inv = record {
    heap = (push_adds fl laws [] first_item (λ k pos inside. absurd (omega (arith, inside)))).0;
    entries =
        push-AllItems fl (Entry fl (start fl src) (float_zero fl)) [] first_item
          (λ k inside. absurd (omega (arith, inside)))
          (record {
            best = float_zero fl;
            at = ground (arith, dist_at-start src);
            order = inl refl;
            above = lt_irrefl fl laws (float_zero fl);
          });
    low_pos = lt_irrefl fl laws (float_zero fl);
    lives = λ v. ground (
      arith,
      dist_at-start v,
      count-push fl (live fl (start fl src) v) [] first_item,
      lt_irrefl fl laws (float_zero fl),
    );
    settled = λ v h. absurd (ground arith);
    sound = λ v d q. elim (String_discrete v src) [
      | yes p ↦
          let r : float_zero fl ≡ d = ground (arith, dist_at-start v) in
          subst (λ c. Walk fl adj src v c) r
            (subst (λ u. Walk fl adj src u (float_zero fl)) (sym p) Walk.here)
      | no p ↦ absurd (ground (arith, dist_at-start v))
    ];
    source = ground (arith, dist_at-start src);
    tree = λ v apart q. absurd (ground (arith, dist_at-start v));
  }

  length-start : length (start fl src).queue ≡ 1
  unfolding start
  length-start = length-push fl [] first_item

  pub dijkstra-Finished : Finished (dijkstra fl src adj)
  unfolding dijkstra
  dijkstra-Finished =
      run-Finished (out_total adj (keys adj) + 2) (start fl src) [] (float_zero fl) start-Inv
        (λ u h. absurd (ground arith)) (omega (arith, length-start, left-total adj (keys adj)))
        (omega (arith, length-start, left-total adj (keys adj)))

  pub reached_done :
      (t : Search F) (h : Finished t) (v : String)
      → is_some (dist_at t v) ≡ true
      → is_done v h.done ≡ true
  reached_done t h v q = ground (arith, h.inv.lives v, h.empty)

  no_less :
      (t : Search F)
      → Finished t
      → (v : String) (c : F) → Walk fl adj src v c
      → within fl c (dist_at t v) ≡ true
  no_less t h _ _ Walk.here = ground (arith, h.inv.source, lt_irrefl fl laws (float_zero fl))
  no_less t h _ _ (Walk.hop {u} {c} w e m) =
      let rest = no_less t h u c w in
      elim (Option-cases (dist_at t u)) [
        | inl q ↦ absurd (ground arith)
        | inr (du, q) ↦
            let near = h.relaxed u (reached_done t h u (ground arith)) e m in
            elim (Option-cases (dist_at t e.to)) [
              | inl r ↦ absurd (ground arith)
              | inr (d, r) ↦ ground (
                arith,
                near,
                laws.add_mono du c e.weight,
                laws.trans d (fl.add du e.weight) (fl.add c e.weight),
              )
            ]
      ]

  -- With no negative weight, the main loop ends with nothing left in the queue; each distance that
  -- it leaves is the cost of a walk from the source, and no walk to the node costs less; a node
  -- that a walk reaches has a distance.
  pub dijkstra_shortest :
      ((dijkstra fl src adj).queue ≡ [])
      × ((v : String) (d : F) → dist_at (dijkstra fl src adj) v ≡ some d → Walk fl adj src v d)
      × ((v : String) (c : F)
          → Walk fl adj src v c
          → within fl c (dist_at (dijkstra fl src adj) v) ≡ true)
  dijkstra_shortest =
      let h = dijkstra-Finished in (h.empty, h.inv.sound, no_less (dijkstra fl src adj) h)
