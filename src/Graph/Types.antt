-- ===== src/Graph/Types.antt =====
-- core/crates/client-evm/src/kernel/blocks_graph.rs: the data of the blocks graph. A `ConnectedHash`
-- is a plain newtype, so it is the hash itself; `Anchor` and `Block` refer into the connected tree.
use armchair_analyst.Prelude.{
  ℕ, nat_eq, suc, Bool, true, false, Option, none, some, List, [], ◌∷◌, Map, SortedMap, lookup,
  contains_key, extend_sorted, if◌then◌else◌,
}
use armchair_analyst.Pools.Keys.{BlockHash, Bloom}
use armchair_analyst.Pools.Events.{PoolLog}

pub record AnchorId : Type 0 where
  pub hash : BlockHash
  pub number : ℕ

pub data AnchoredRef : Type 0 where
  anchor : AnchoredRef
  block : BlockHash → AnchoredRef

pub data BlockLogs : Type 0 where
  unknown : BlockLogs
  streamed complete : SortedMap PoolLog → BlockLogs

pub record BlockData : Type 0 where
  pub number : ℕ
  pub logs_bloom : Option Bloom
  pub logs : BlockLogs

pub record ConnectedNode : Type 0 where
  pub parent : AnchoredRef
  pub payload : BlockData

pub record PendingNode : Type 0 where
  pub parent : BlockHash
  pub payload : BlockData

pub data Node : Type 0 where
  connected : ConnectedNode → Node
  pending : PendingNode → Node

pub record BlocksGraph : Type 0 where
  pub anchor : AnchorId
  pub nodes : Map BlockHash Node
  pub observed_head : BlockHash

-- `BlocksGraph::new`.
unfoldable pub new : BlockHash → ℕ → BlocksGraph
new hash number = record {
  anchor = record { hash = hash; number = number };
  nodes = [];
  observed_head = hash;
}

unfoldable pub connected_parent_hash : AnchoredRef → BlockHash → BlockHash
connected_parent_hash anchor root = root
connected_parent_hash (block hash) root = hash

-- The raw parent hash of a node, under the anchor `root`.
unfoldable pub node_parent_hash : BlockHash → Node → BlockHash
unfolding connected_parent_hash
node_parent_hash root (connected node) = connected_parent_hash node.parent root
node_parent_hash root (pending node) = node.parent

abbrev pub node_payload : Node → BlockData
node_payload (connected node) = node.payload
node_payload (pending node) = node.payload

abbrev pub connected_of : Option Node → Option ConnectedNode
connected_of none = none
connected_of (some (connected node)) = some node
connected_of (some (pending node)) = none

-- `BlocksGraph::connected`, on the node map.
unfoldable pub connected_in : BlockHash → Map BlockHash Node → Option ConnectedNode
connected_in hash nodes = connected_of (lookup hash nodes)

abbrev pub is_connected_node : Option Node → Bool
is_connected_node none = false
is_connected_node (some (connected node)) = true
is_connected_node (some (pending node)) = false

abbrev pub is_pending_node : Option Node → Bool
is_pending_node none = false
is_pending_node (some (connected node)) = false
is_pending_node (some (pending node)) = true

-- `BlocksGraph::connected_hash`: the hash as a proof of connection.
unfoldable pub connected_hash : BlocksGraph → BlockHash → Option BlockHash
connected_hash g hash = if is_connected_node (lookup hash g.nodes) then some hash else none

-- The number of pending nodes.
unfoldable pub count_pending : Map BlockHash Node → ℕ
count_pending [] = 0
count_pending ((hash, connected node) ∷ nodes) = count_pending nodes
count_pending ((hash, pending node) ∷ nodes) = suc (count_pending nodes)

unfoldable pub pending_count : BlocksGraph → ℕ
unfolding count_pending
pending_count g = count_pending g.nodes

unfoldable pub contains_block : BlocksGraph → BlockHash → Bool
contains_block g hash = contains_key hash g.nodes

unfoldable pub is_pending : BlocksGraph → BlockHash → Bool
is_pending g hash = is_pending_node (lookup hash g.nodes)

-- The logs as pairs of their index and themselves, which is how they enter a sorted map.
abbrev pub indexed : List PoolLog → List (ℕ × PoolLog)
indexed [] = []
indexed (log ∷ logs) = (log.log_index, log) ∷ indexed logs

unfoldable pub key_by_log_index : List PoolLog → SortedMap PoolLog
unfolding extend_sorted
key_by_log_index logs = extend_sorted [] (indexed logs)
