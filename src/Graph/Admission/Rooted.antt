-- ===== src/Graph/Admission/Rooted.antt =====
-- core/crates/client-evm/src/kernel/blocks_graph.rs: paths of connected nodes to the anchor, and the
-- abstract view of a node map: the parent hash and the payload of each block.
use armchair_analyst.Prelude.{
  nat_eq, ◌≡◌, refl, true, Option, none, some, ◌==◌, Map, lookup, insert, remove, lookup-insert,
  lookup-remove, if◌then◌else◌, arith,
}
use armchair_analyst.Pools.Keys.{BlockHash}
use armchair_analyst.Graph.Types.{
  anchor, block, BlockData, ConnectedNode, Node, connected, pending, node_parent_hash, node_payload,
  is_connected_node,
}

-- `hash` is connected, and so is each ancestor down to a child of the anchor.
pub data Anchored (nodes : Map BlockHash Node) : BlockHash → Type 0 where
  root :
      {hash : BlockHash} (node : ConnectedNode)
      → lookup hash nodes ≡ some (connected node)
      → node.parent ≡ anchor
      → Anchored nodes hash
  step :
      {hash : BlockHash} (node : ConnectedNode) (parent : BlockHash)
      → lookup hash nodes ≡ some (connected node)
      → node.parent ≡ block parent
      → Anchored nodes parent
      → Anchored nodes hash

-- Every connected node of one map is in the other, unchanged.
abbrev pub Keeps : Map BlockHash Node → Map BlockHash Node → Type 0
Keeps nodes nodes' =
    (hash : BlockHash) (node : ConnectedNode)
    → lookup hash nodes ≡ some (connected node)
    → lookup hash nodes' ≡ some (connected node)

pub Anchored-mono :
    {nodes nodes' : Map BlockHash Node} {hash : BlockHash}
    → Keeps nodes nodes'
    → Anchored nodes hash
    → Anchored nodes' hash
Anchored-mono k (root {hash} node found top) = root node (k hash node found) top
Anchored-mono k (step {hash} node parent found up rest) =
    step node parent (k hash node found) up (Anchored-mono k rest)

pub connected_of_test :
    (o : Option Node)
    → is_connected_node o ≡ true
    → (node : ConnectedNode) × (o ≡ some (connected node))
connected_of_test none h = absurd (cc)
connected_of_test (some (connected node)) h = (node, refl)
connected_of_test (some (pending node)) h = absurd (cc)

-- The parent hash and the payload of a node, forgetting whether it is connected.
abbrev pub Entry : Type 0
Entry = BlockHash × BlockData

abbrev pub entry_of : BlockHash → Option Node → Option Entry
entry_of top none = none
entry_of top (some node) = some (node_parent_hash top node, node_payload node)

-- The view of a node map whose anchor is `top`.
abbrev pub view_of : BlockHash → Map BlockHash Node → BlockHash → Option Entry
view_of top nodes hash = entry_of top (lookup hash nodes)

-- The entry of a hash is replaced.
pub lookup-replace :
    (x hash : BlockHash) (node : Node) (nodes : Map BlockHash Node)
    → lookup x (insert hash node (remove hash nodes))
      ≡ (if hash == x then some node else lookup x nodes)
lookup-replace x hash node nodes =
    ground (arith, lookup-insert x hash node (remove hash nodes), lookup-remove x hash nodes)
