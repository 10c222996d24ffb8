-- ===== src/Graph/Logs/Ladder.antt =====
-- core/crates/client-evm/src/kernel/blocks_graph.rs: log updates, the tree, and the order unknown,
-- streamed, complete of the logs of a block.
use armchair_analyst.Prelude.{
  ℕ, nat_eq, ◌≡◌, ◌≢◌, ◌∙◌, Map, UniqueKeys, inl, inr, refl, true, false, Option, none, some, List,
  ◌==◌, SortedMap, lookup, lookup-insert, insert-UniqueKeys, lookup-extend_sorted, is_some,
  if◌then◌else◌, arith, Bool-cases, Option-cases, nat_beq_iff, subst,
}
use armchair_analyst.Pools.Keys.{BlockHash}
use armchair_analyst.Pools.Events.{PoolLog}
use armchair_analyst.Graph.Types.{
  BlockLogs, unknown, streamed, complete, BlockData, ConnectedNode, PendingNode, Node, connected,
  pending, BlocksGraph, node_payload, node_parent_hash, is_connected_node, key_by_log_index,
}
use armchair_analyst.Graph.Admission.Rooted.{Anchored, root, step, connected_of_test}
use armchair_analyst.Graph.Admission.Invariant.{IsTree}
use armchair_analyst.Graph.Logs.{
  with_payload, update_nodes, update_block_data, merge_streamed, with_streamed_logs,
  with_complete_logs,
}

module _ (g : BlocksGraph) (hash : BlockHash) (change : BlockData → BlockData) where
  -- The node at a hash, before and after.
  abbrev pub changed : BlockHash → Option Node
  changed x = elim (lookup x g.nodes) [
    | none ↦ none
    | some node ↦ some (if hash == x then with_payload node (change (node_payload node)) else node)
  ]

  pub lookup-update_block_data :
      (x : BlockHash) → lookup x (update_block_data g hash change).nodes ≡ changed x
  unfolding update_block_data
  lookup-update_block_data x = elim (Option-cases (lookup hash g.nodes)) [
    | inl absent ↦ rw (absent, update_nodes) (ground (arith, absent, nat_beq_iff hash x))
    | inr (node, found) ↦
        rw (found, update_nodes)
          (ground (
            arith,
            found,
            nat_beq_iff hash x,
            lookup-insert x hash (with_payload node (change (node_payload node))) g.nodes,
          ))
  ]

  update-Anchored :
      {x : BlockHash} → Anchored g.nodes x → Anchored (update_block_data g hash change).nodes x
  update-Anchored (root {hash = x} node found top) =
      root (record node { payload = if hash == x then change node.payload else node.payload })
        (ground (arith, lookup-update_block_data x, found)) top
  update-Anchored (step {hash = x} node parent found up rest) =
      step (record node { payload = if hash == x then change node.payload else node.payload })
        parent (ground (arith, lookup-update_block_data x, found)) up (update-Anchored rest)

  update_unique : IsTree g → UniqueKeys (update_block_data g hash change).nodes
  unfolding update_block_data
  update_unique t = elim (Option-cases (lookup hash g.nodes)) [
    | inl absent ↦ rw (absent, update_nodes) t.unique
    | inr (node, found) ↦ rw (found, update_nodes) (insert-UniqueKeys hash _ g.nodes t.unique)
  ]

  abbrev nodes' : Map BlockHash Node
  nodes' = (update_block_data g hash change).nodes

  -- A change of payload keeps each block connected, or pending, under its parent.
  pub update-is_connected :
      (x : BlockHash)
      → is_connected_node (lookup x (update_block_data g hash change).nodes)
        ≡ is_connected_node (lookup x g.nodes)
  update-is_connected x = ground (arith, lookup-update_block_data x)

  old_connected :
      (x : BlockHash) (n : ConnectedNode)
      → lookup x nodes' ≡ some (connected n)
      → (m : ConnectedNode) × (lookup x g.nodes ≡ some (connected m))
  old_connected x n h = connected_of_test (lookup x g.nodes) (ground (arith, update-is_connected x))

  old_pending :
      (x : BlockHash) (n : PendingNode)
      → lookup x nodes' ≡ some (pending n)
      → (m : PendingNode) × (lookup x g.nodes ≡ some (pending m)) × (m.parent ≡ n.parent)
  old_pending x n h = elim (Option-cases (lookup x g.nodes)) [
    | inl absent ↦ absurd (ground (arith, absent, lookup-update_block_data x))
    | inr (node, found) ↦ go node found
  ]
    where
      go :
          (node : Node)
          → lookup x g.nodes ≡ some node
          → (m : PendingNode) × (lookup x g.nodes ≡ some (pending m)) × (m.parent ≡ n.parent)
      go (connected m) found = absurd (ground (arith, found, h, lookup-update_block_data x))
      go (pending m) found = (m, found, ground (arith, found, h, lookup-update_block_data x))

  -- No change of a payload touches the tree.
  pub update_block_data-IsTree : IsTree g → IsTree (update_block_data g hash change)
  unfolding update_block_data
  update_block_data-IsTree t = record {
    unique = update_unique t;
    no_anchor = ground (arith, lookup-update_block_data g.anchor.hash, t.no_anchor);
    anchored = λ x n h. let (m, at) = old_connected x n h in update-Anchored (t.anchored x m at);
    awaited = λ x n h.
        let (m, at, same) = old_pending x n h in
        let (low, waits) = t.awaited x m at in
        (
          subst (λ p. p ≢ g.anchor.hash) same low,
          update-is_connected n.parent
              ∙ subst (λ p. is_connected_node (lookup p g.nodes) ≡ false) same waits,
        );
  }

-- The authority of a block's logs: `Unknown`, then `Streamed` with ever more indices, then `Complete`.
abbrev pub Advances : BlockLogs → BlockLogs → Type 0
Advances unknown after = Unit {0}
Advances (streamed before) unknown = ⊥
Advances (streamed before) (streamed after) =
    (i : ℕ) → is_some (lookup i before) ≡ true → is_some (lookup i after) ≡ true
Advances (streamed before) (complete after) = Unit {0}
Advances (complete before) unknown = ⊥
Advances (complete before) (streamed after) = ⊥
Advances (complete before) (complete after) = Unit {0}

Advances-refl : (logs : BlockLogs) → Advances logs logs
Advances-refl unknown = tt
Advances-refl (streamed m) = λ i h. h
Advances-refl (complete m) = tt

merge_streamed-Advances :
    (logs : List PoolLog) (before : BlockLogs) → Advances before (merge_streamed logs before)
unfolding merge_streamed
merge_streamed-Advances logs unknown = tt
merge_streamed-Advances logs (complete m) = tt
merge_streamed-Advances logs (streamed m) =
    λ i h. ground (arith, h, lookup-extend_sorted i (key_by_log_index logs) m)

complete-Advances :
    (logs : SortedMap PoolLog) (before : BlockLogs) → Advances before (complete logs)
complete-Advances logs unknown = tt
complete-Advances logs (streamed m) = tt
complete-Advances logs (complete m) = tt

-- Every present block is still present, with the same parent, number and bloom, and its logs advance.
abbrev pub LogsAdvance : BlocksGraph → BlocksGraph → Type 0
LogsAdvance g g' =
    (x : BlockHash) (node : Node)
    → lookup x g.nodes ≡ some node
    → (node' : Node) × (lookup x g'.nodes ≡ some node')
      × (node_parent_hash g.anchor.hash node' ≡ node_parent_hash g.anchor.hash node)
      × ((node_payload node').number ≡ (node_payload node).number)
      × ((node_payload node').logs_bloom ≡ (node_payload node).logs_bloom)
      × Advances (node_payload node).logs (node_payload node').logs

with_payload-parent :
    (top : BlockHash) (node : Node) (d : BlockData)
    → node_parent_hash top (with_payload node d) ≡ node_parent_hash top node
unfolding node_parent_hash
with_payload-parent top (connected n) d = refl
with_payload-parent top (pending n) d = refl

node_payload-with_payload : (node : Node) (d : BlockData) → node_payload (with_payload node d) ≡ d
node_payload-with_payload (connected n) d = refl
node_payload-with_payload (pending n) d = refl

update-LogsAdvance :
    (g : BlocksGraph) (hash : BlockHash) (change : BlockLogs → BlockLogs)
    → ((logs : BlockLogs) → Advances logs (change logs))
    → LogsAdvance g (update_block_data g hash (λ d. record d { logs = change d.logs }))
update-LogsAdvance g hash change up x node found =
    let swap = λ (d : BlockData). record d { logs = change d.logs } in
    elim (Bool-cases (hash == x)) [
      | inl here ↦
          let node' = with_payload node (swap (node_payload node)) in
          let e = node_payload-with_payload node (swap (node_payload node)) in
          (
            node',
            ground (arith, lookup-update_block_data g hash swap x, found, here),
            with_payload-parent g.anchor.hash node (swap (node_payload node)),
            rw e refl,
            rw e refl,
            rw e (up (node_payload node).logs),
          )
      | inr there ↦ (
        node,
        ground (arith, lookup-update_block_data g hash swap x, found, there),
        refl,
        refl,
        refl,
        Advances-refl (node_payload node).logs,
      )
    ]

-- Streamed logs keep the tree, and move no block's logs backward: `Unknown` becomes `Streamed`, streamed
-- indices only grow, and `Complete` stands.
pub with_streamed_logs_monotone :
    (g : BlocksGraph) (hash : BlockHash) (logs : List PoolLog)
    → IsTree g
    → IsTree (with_streamed_logs g hash logs) × LogsAdvance g (with_streamed_logs g hash logs)
unfolding with_streamed_logs
with_streamed_logs_monotone g hash logs t = (
  update_block_data-IsTree g hash (λ d. record d { logs = merge_streamed logs d.logs }) t,
  update-LogsAdvance g hash (merge_streamed logs) (merge_streamed-Advances logs),
)

-- So do authoritative logs, which make a present block `Complete`.
pub with_complete_logs_monotone :
    (g : BlocksGraph) (hash : BlockHash) (logs : List PoolLog)
    → IsTree g
    → IsTree (with_complete_logs g hash logs).0 × LogsAdvance g (with_complete_logs g hash logs).0
unfolding with_complete_logs
with_complete_logs_monotone g hash logs t = (
  update_block_data-IsTree g hash (λ d. record d { logs = complete (key_by_log_index logs) }) t,
  update-LogsAdvance g hash (λ _. complete (key_by_log_index logs))
      (complete-Advances (key_by_log_index logs)),
)
