-- ===== src/Graph/Admission/Invariant.antt =====
-- core/crates/client-evm/src/kernel/blocks_graph.rs: the contract of the graph, and a block that
-- enters.
use armchair_analyst.Prelude.{
  nat_eq, suc, ◌≤◌, ◌≡◌, ◌≢◌, ◌⊎◌, inl, inr, true, false, Option, none, some, [], ◌∷◌, ◌==◌, Map,
  UniqueKeys, lookup, insert, contains, lookup-insert, insert-UniqueKeys, if◌then◌else◌, arith,
  Bool-cases, nat_beq_iff, subst,
}
use armchair_analyst.Pools.Keys.{BlockHash}
use armchair_analyst.Graph.Types.{
  BlockData, ConnectedNode, PendingNode, Node, connected, pending, BlocksGraph,
  connected_parent_hash, node_parent_hash, is_connected_node, count_pending, pending_count,
}
use armchair_analyst.Graph.Admission.Rooted.{
  Anchored, root, step, Keeps, Anchored-mono, connected_of_test, Entry, view_of,
}
use armchair_analyst.Graph.Admission.Promotion.{
  Promoting, count_pending-insert, count_pending-insert_pending,
}
use armchair_analyst.Graph.Admission.Loop.{promote_loop-Promoting, promote_loop-count}
use armchair_analyst.Graph.Admission.{promote_reachable, connects, parent_ref, admit_new}

abbrev pub view : BlocksGraph → BlockHash → Option Entry
view g = view_of g.anchor.hash g.nodes

-- The topology contract, all of it but the head: the anchor is no node, every connected node reaches
-- the anchor through connected nodes, and no pending node has a connected parent.
pub record IsTree (g : BlocksGraph) : Type 0 where
  pub unique : UniqueKeys g.nodes
  pub no_anchor : lookup g.anchor.hash g.nodes ≡ none
  pub anchored :
      (hash : BlockHash) (node : ConnectedNode)
      → lookup hash g.nodes ≡ some (connected node)
      → Anchored g.nodes hash
  pub awaited :
      (hash : BlockHash) (node : PendingNode)
      → lookup hash g.nodes ≡ some (pending node)
      → (node.parent ≢ g.anchor.hash) × (is_connected_node (lookup node.parent g.nodes) ≡ false)

-- The view with one more block.
abbrev pub with_entry : (BlockHash → Option Entry) → BlockHash → Entry → BlockHash → Option Entry
with_entry v hash entry x = if hash == x then some entry else v x

module _ (g : BlocksGraph) (hash parent : BlockHash) (payload : BlockData) (t : IsTree g)
    (fresh : lookup hash g.nodes ≡ none) (other : (hash == parent) ≡ false)
    (below : (hash == g.anchor.hash) ≡ false) where
  abbrev view' : BlockHash → Option Entry
  view' = with_entry (view g) hash (parent, payload)

  abbrev new_node : ConnectedNode
  new_node = record { parent = parent_ref g parent; payload = payload }

  abbrev nodes' : Map BlockHash Node
  nodes' = insert hash (connected new_node) g.nodes

  look :
      (x : BlockHash)
      → lookup x nodes' ≡ (if hash == x then some (connected new_node) else lookup x g.nodes)
  look x = lookup-insert x hash (connected new_node) g.nodes

  new-Keeps : Keeps g.nodes nodes'
  new-Keeps x n h = ground (arith, look x, nat_beq_iff hash x)

  module _ (c : connects g parent ≡ true) where
    new-Anchored : Anchored nodes' hash
    unfolding connects parent_ref
    new-Anchored = elim (Bool-cases (parent == g.anchor.hash)) [
      | inl top ↦
          root new_node (ground (arith, look hash, nat_beq_iff hash hash)) (ground (arith, top))
      | inr up ↦
          let (n, at) = connected_of_test (lookup parent g.nodes) (ground (arith, c, up)) in
          step new_node parent (ground (arith, look hash, nat_beq_iff hash hash))
            (ground (arith, up)) (Anchored-mono new-Keeps (t.anchored parent n at))
    ]

    start-Anchored :
        (x : BlockHash) (n : ConnectedNode)
        → lookup x nodes' ≡ some (connected n)
        → Anchored nodes' x
    start-Anchored x n h = elim (Bool-cases (hash == x)) [
      | inl here ↦ subst (Anchored nodes') ((nat_beq_iff hash x).0 here) new-Anchored
      | inr there ↦ Anchored-mono new-Keeps (t.anchored x n (ground (arith, look x, there)))
    ]

    start-awaited :
        (x : BlockHash) (n : PendingNode)
        → lookup x nodes' ≡ some (pending n)
        → (n.parent ≢ g.anchor.hash)
          × (is_connected_node (lookup n.parent nodes') ≡ true
              → (contains n.parent (hash ∷ []) ≡ true)
                ⊎ ((n.parent ≡ hash) × (contains x [] ≡ true)))
    start-awaited x n h =
        let old : lookup x g.nodes ≡ some (pending n) = ground (arith, look x) in
        let (low, waits) = t.awaited x n old in (low, λ e. ground (arith, waits, look n.parent))

    start-shown : (x : BlockHash) → view_of g.anchor.hash nodes' x ≡ view' x
    unfolding node_parent_hash connected_parent_hash parent_ref
    start-shown x = ground (arith, look x, nat_beq_iff parent g.anchor.hash)

    start-Promoting :
        Promoting g.anchor.hash view' (suc (count_pending nodes')) nodes' (hash ∷ []) hash []
    start-Promoting = record {
      unique = insert-UniqueKeys hash (connected new_node) g.nodes t.unique;
      no_anchor = ground (arith, look g.anchor.hash, t.no_anchor, below);
      anchored = start-Anchored;
      awaited = start-awaited;
      waiting = λ x h. absurd (cc);
      distinct = tt;
      linked = ground (arith, look hash, nat_beq_iff hash hash);
      grown = λ x h. ground (arith, look x, h);
      budgeted = omega arith;
      shown = start-shown;
    }

    connected-IsTree : IsTree (admit_new g hash parent payload)
    unfolding admit_new promote_reachable pending_count
    connected-IsTree =
        let (last, p, _) =
          promote_loop-Promoting g.anchor.hash view' (suc (count_pending nodes')) nodes' (hash ∷ [])
            hash start-Promoting in
        rw (c, admit_new)
          (record {
            unique = p.unique;
            no_anchor = p.no_anchor;
            anchored = p.anchored;
            awaited = λ x n h. let (low, waits) = p.awaited x n h in (low, ground (arith, waits));
          })

    connected-view : (x : BlockHash) → view (admit_new g hash parent payload) x ≡ view' x
    unfolding admit_new promote_reachable pending_count
    connected-view x =
        let (last, p, _) =
          promote_loop-Promoting g.anchor.hash view' (suc (count_pending nodes')) nodes' (hash ∷ [])
            hash start-Promoting in
        rw (c, admit_new) (p.shown x)

  module _ (c : connects g parent ≡ false) where
    waiting_node : PendingNode
    waiting_node = record { parent = parent; payload = payload }

    pending-IsTree : IsTree (admit_new g hash parent payload)
    unfolding admit_new connects waiting_node
    pending-IsTree =
        let look = λ (x : BlockHash). lookup-insert x hash (pending waiting_node) g.nodes in
        rw (c, admit_new)
          (record {
            unique = insert-UniqueKeys hash (pending waiting_node) g.nodes t.unique;
            no_anchor = ground (arith, look g.anchor.hash, t.no_anchor, below);
            anchored = λ x n h.
                Anchored-mono (λ y m found. ground (arith, look y, nat_beq_iff hash y))
                  (t.anchored x n (ground (arith, look x)));
            awaited = λ x n h. ground (
              arith,
              look x,
              look n.parent,
              t.awaited x n,
              c,
              other,
              nat_beq_iff hash n.parent,
              nat_beq_iff parent g.anchor.hash,
            );
          })

    pending-view : (x : BlockHash) → view (admit_new g hash parent payload) x ≡ view' x
    unfolding admit_new node_parent_hash waiting_node
    pending-view x =
        rw (c, admit_new) (ground (arith, lookup-insert x hash (pending waiting_node) g.nodes))

  pub admit_new-IsTree : IsTree (admit_new g hash parent payload)
  admit_new-IsTree = elim (Bool-cases (connects g parent)) [
    | inl c ↦ connected-IsTree c
    | inr c ↦ pending-IsTree c
  ]

  pub admit_new-view : (x : BlockHash) → view (admit_new g hash parent payload) x ≡ view' x
  admit_new-view x = elim (Bool-cases (connects g parent)) [
    | inl c ↦ connected-view c x
    | inr c ↦ pending-view c x
  ]

  -- The block itself is the only one that may become pending.
  pub admit_new-pending_count :
      pending_count (admit_new g hash parent payload)
      ≤ (if connects g parent then pending_count g else suc (pending_count g))
  unfolding admit_new promote_reachable pending_count waiting_node
  admit_new-pending_count = elim (Bool-cases (connects g parent)) [
    | inl c ↦
        rw (c, admit_new)
          (omega (
            arith,
            promote_loop-count g.anchor.hash view' (count_pending nodes') nodes' [] hash hash
                (start-Promoting c),
            count_pending-insert hash g.nodes new_node fresh,
          ))
    | inr c ↦
        rw (c, admit_new)
          (omega (
            arith,
            count_pending-insert_pending hash g.nodes
                (record { parent = parent; payload = payload }) fresh,
          ))
  ]
