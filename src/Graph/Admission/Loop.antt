-- ===== src/Graph/Admission/Loop.antt =====
-- core/crates/client-evm/src/kernel/blocks_graph.rs: the two loops of `promote_reachable`, with
-- their invariant and fuel.
use armchair_analyst.Prelude.{
  ℕ, nat_eq, zero, suc, ◌≤◌, ◌≡◌, refl, Option, List, [], ◌∷◌, Map, arith, nat_beq_iff, subst, sym,
}
use armchair_analyst.Pools.Keys.{BlockHash}
use armchair_analyst.Graph.Types.{Node, count_pending}
use armchair_analyst.Graph.Admission.Rooted.{Entry}
use armchair_analyst.Graph.Admission.Promotion.{
  Promoting, promote_child-step, child-Promoting, pending_children-parent,
  pending_children_complete, pending_children-Distinct,
}
use armchair_analyst.Graph.Admission.{pending_children, promote_children, promote_loop}

weaken :
    (top : BlockHash) (view : BlockHash → Option Entry) (budget : ℕ) (last : BlockHash)
    (nodes : Map BlockHash Node)
    → Promoting top view budget nodes [] last []
    → Promoting top view (suc budget) nodes [] last []
weaken top view budget last nodes p = record {
  unique = p.unique;
  no_anchor = p.no_anchor;
  anchored = p.anchored;
  awaited = p.awaited;
  waiting = p.waiting;
  distinct = p.distinct;
  linked = p.linked;
  grown = p.grown;
  budgeted = omega (arith, p.budgeted);
  shown = p.shown;
}

module _ (top : BlockHash) (view : BlockHash → Option Entry) where
  -- The inner loop promotes all of the children that it was given.
  promote_children-Promoting :
      (budget : ℕ) (current : BlockHash) (rest : List BlockHash) (nodes : Map BlockHash Node)
      (frontier : List BlockHash)
      → Promoting top view budget nodes frontier current rest
      → let (nodes', frontier') = promote_children current rest nodes frontier in
        Promoting top view budget nodes' frontier' current []
  unfolding promote_children
  promote_children-Promoting budget current [] nodes frontier p = p
  promote_children-Promoting budget current (child ∷ rest) nodes frontier p =
      let (node, found, up) = p.waiting child (ground (arith, nat_beq_iff child child)) in
      subst
        (λ (s : Map BlockHash Node × List BlockHash).
          let (nodes', frontier') = promote_children current rest s.0 s.1 in
          Promoting top view budget nodes' frontier' current [])
        (sym (promote_child-step top view current child nodes frontier node found))
        (promote_children-Promoting budget current rest _ _
          (child-Promoting top view budget nodes frontier current child rest p node found up))

  -- One hash leaves the frontier, and its children come before the inner loop.
  pop-Promoting :
      (budget : ℕ) (nodes : Map BlockHash Node) (frontier : List BlockHash) (hash : BlockHash)
      (current : BlockHash)
      → Promoting top view (suc budget) nodes (hash ∷ frontier) current []
      → Promoting top view budget nodes frontier hash (pending_children hash nodes)
  pop-Promoting budget nodes frontier hash current p = record {
    unique = p.unique;
    no_anchor = p.no_anchor;
    anchored = p.anchored;
    awaited = λ x n h.
        let (low, waits) = p.awaited x n h in
        (
          low,
          λ c. ground (
            arith,
            waits c,
            pending_children_complete hash x nodes n h,
            nat_beq_iff hash n.parent,
          ),
        );
    waiting = λ x h. pending_children-parent hash x nodes p.unique h;
    distinct = pending_children-Distinct hash nodes p.unique;
    linked = p.grown hash (ground (arith, nat_beq_iff hash hash));
    grown = λ x h. p.grown x (ground (arith, h));
    budgeted = omega (arith, p.budgeted);
    shown = p.shown;
  }

  -- With fuel for all of the budget the frontier ends empty, under the same view.
  pub promote_loop-Promoting :
      (fuel : ℕ) (nodes : Map BlockHash Node) (frontier : List BlockHash) (current : BlockHash)
      → Promoting top view fuel nodes frontier current []
      → (last : BlockHash) × Promoting top view fuel (promote_loop fuel nodes frontier).0 [] last []
        × ((promote_loop fuel nodes frontier).1 ≡ [])
  unfolding promote_loop
  promote_loop-Promoting fuel nodes [] current p = (current, p, refl)
  promote_loop-Promoting zero nodes (hash ∷ frontier) current p = absurd (omega (arith, p.budgeted))
  promote_loop-Promoting (suc fuel) nodes (hash ∷ frontier) current p =
      let (nodes', frontier') =
        promote_children hash (pending_children hash nodes) nodes frontier in
      let (last, q, ended) = promote_loop-Promoting fuel nodes' frontier' hash (
        promote_children-Promoting fuel hash (pending_children hash nodes) nodes frontier
          (pop-Promoting fuel nodes frontier hash current p)) in
      (last, weaken top view fuel last _ q, ended)

  -- A loop that starts with a hash on the frontier leaves no more pending nodes than there were.
  pub promote_loop-count :
      (fuel : ℕ) (nodes : Map BlockHash Node) (frontier : List BlockHash) (hash current : BlockHash)
      → Promoting top view (suc fuel) nodes (hash ∷ frontier) current []
      → count_pending (promote_loop (suc fuel) nodes (hash ∷ frontier)).0 ≤ fuel
  unfolding promote_loop
  promote_loop-count fuel nodes frontier hash current p =
      let (nodes', frontier') =
        promote_children hash (pending_children hash nodes) nodes frontier in
      let (last, q, _) = promote_loop-Promoting fuel nodes' frontier' hash (
        promote_children-Promoting fuel hash (pending_children hash nodes) nodes frontier
          (pop-Promoting fuel nodes frontier hash current p)) in
      omega (arith, q.budgeted)
