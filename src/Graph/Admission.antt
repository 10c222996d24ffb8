-- ===== src/Graph/Admission.antt =====
-- core/crates/client-evm/src/kernel/blocks_graph.rs: how a block enters the graph. A block whose
-- parent is the anchor or a connected block is connected, and pulls the pending blocks that wait for
-- it into the tree; any other is pending, up to a cap.
pub mod Rooted
pub mod Promotion
pub mod Loop
pub mod Invariant
pub mod Refine
pub mod Order
pub mod Seed
use armchair_analyst.Prelude.{
  ℕ, nat_eq, zero, suc, Bool, true, false, not, ◌&&◌, ◌||◌, Option, none, some, List, [], ◌∷◌, ◌==◌,
  leb, Map, lookup, insert, remove, contains_key, length, if◌then◌else◌,
}
use armchair_analyst.Pools.Keys.{BlockHash, Bloom}
use armchair_analyst.Pools.Events.{PoolLog}
use armchair_analyst.Graph.Types.{
  AnchoredRef, anchor, block, BlockLogs, unknown, complete, BlockData, Node, connected, pending,
  BlocksGraph, new, node_parent_hash, is_connected_node, pending_count, key_by_log_index,
}

pub data Admission : Type 0 where
  admitted self_parent anchor_readmit duplicate_block conflicting_parent : Admission
  pending_buffer_full : Admission

-- The keys of the pending nodes whose parent is `parent`, in the order of the map.
unfoldable pub pending_children : BlockHash → Map BlockHash Node → List BlockHash
pending_children parent [] = []
pending_children parent ((child, connected node) ∷ nodes) = pending_children parent nodes
pending_children parent ((child, pending node) ∷ nodes) =
    if node.parent == parent
    then child ∷ pending_children parent nodes
    else pending_children parent nodes

-- The body of the inner loop, on the node map and the stack `frontier` (its top first).
unfoldable pub promote_child :
    BlockHash
    → Map BlockHash Node
    → List BlockHash
    → BlockHash
    → Map BlockHash Node × List BlockHash
promote_child parent nodes frontier child = elim (lookup child nodes) [
  | none ↦ (remove child nodes, frontier)
  | some (connected node) ↦ (remove child nodes, frontier)
  | some (pending node) ↦ (
    insert child (connected (record { parent = block parent; payload = node.payload }))
        (remove child nodes),
    child ∷ frontier,
  )
]

unfoldable pub promote_children :
    BlockHash
    → List BlockHash
    → Map BlockHash Node
    → List BlockHash
    → Map BlockHash Node × List BlockHash
unfolding promote_child
promote_children parent [] nodes frontier = (nodes, frontier)
promote_children parent (child ∷ children) nodes frontier =
    let (nodes', frontier') = promote_child parent nodes frontier child in
    promote_children parent children nodes' frontier'

-- The outer loop. What is left of the frontier is returned too: it is empty when the fuel sufficed.
unfoldable pub promote_loop :
    ℕ → Map BlockHash Node → List BlockHash → Map BlockHash Node × List BlockHash
unfolding promote_children pending_children
promote_loop fuel nodes [] = (nodes, [])
promote_loop zero nodes (hash ∷ frontier) = (nodes, hash ∷ frontier)
promote_loop (suc fuel) nodes (hash ∷ frontier) =
    let (nodes', frontier') = promote_children hash (pending_children hash nodes) nodes frontier in
    promote_loop fuel nodes' frontier'

-- Each round takes one hash off the frontier, and each hash but the first enters it by a promotion,
-- so the pending nodes and one more bound the rounds.
unfoldable pub promote_reachable : BlocksGraph → BlockHash → BlocksGraph
unfolding promote_loop
promote_reachable g newly_connected = record g {
  nodes = (promote_loop (suc (pending_count g)) g.nodes (newly_connected ∷ [])).0;
}

-- Whether a block with this parent would be connected.
unfoldable pub connects : BlocksGraph → BlockHash → Bool
connects g parent = parent == g.anchor.hash || is_connected_node (lookup parent g.nodes)

unfoldable pub parent_ref : BlocksGraph → BlockHash → AnchoredRef
parent_ref g parent = if parent == g.anchor.hash then anchor else block parent

-- The block enters as a node, connected or pending.
unfoldable pub admit_new : BlocksGraph → BlockHash → BlockHash → BlockData → BlocksGraph
unfolding parent_ref connects promote_reachable
admit_new g hash parent payload =
    if connects g parent
    then promote_reachable
        (record g {
          nodes =
              insert hash (connected (record { parent = parent_ref g parent; payload = payload }))
                g.nodes;
        })
        hash
    else record g {
      nodes = insert hash (pending (record { parent = parent; payload = payload })) g.nodes;
    }

unfoldable pub with_data_capped :
    BlocksGraph → BlockHash → BlockHash → BlockData → ℕ → BlocksGraph × Admission
unfolding admit_new connects
with_data_capped g hash parent payload max_pending =
    if hash == parent
    then (g, self_parent)
    else if hash == g.anchor.hash
    then (g, anchor_readmit)
    else elim (lookup hash g.nodes) [
      | some existing ↦
          if node_parent_hash g.anchor.hash existing == parent
          then (g, duplicate_block)
          else (g, conflicting_parent)
      | none ↦
          if not (connects g parent) && leb max_pending (pending_count g)
          then (g, pending_buffer_full)
          else (admit_new g hash parent payload, admitted)
    ]

-- Admission of a block from a header: its bloom is known and its logs are not.
unfoldable pub with_block_capped :
    BlocksGraph → BlockHash → BlockHash → ℕ → Bloom → ℕ → BlocksGraph × Admission
with_block_capped g hash parent number bloom max_pending =
    with_data_capped g hash parent
      (record { number = number; logs_bloom = some bloom; logs = unknown }) max_pending

abbrev pub max_pending_blocks : ℕ
max_pending_blocks = 1024

-- One block of the bootstrap window: hash, parent, number and logs.
abbrev pub SeedBlock : Type 0
SeedBlock = BlockHash × BlockHash × ℕ × List PoolLog

unfoldable pub with_seed_blocks : BlocksGraph → List SeedBlock → BlocksGraph
with_seed_blocks g [] = g
with_seed_blocks g ((hash, parent, number, logs) ∷ blocks) =
    with_seed_blocks
      (with_data_capped g hash parent
        (record { number = number; logs_bloom = none; logs = complete (key_by_log_index logs) })
        max_pending_blocks).0
      blocks

unfoldable pub from_seed : BlockHash → ℕ → List SeedBlock → BlocksGraph
unfolding with_seed_blocks
from_seed anchor_hash anchor_number blocks = with_seed_blocks (new anchor_hash anchor_number) blocks

-- The head moves to a block that is the anchor or present, and to no other.
unfoldable pub with_observed_head : BlocksGraph → BlockHash → BlocksGraph
with_observed_head g hash =
    if hash == g.anchor.hash || contains_key hash g.nodes
    then record g { observed_head = hash }
    else g
