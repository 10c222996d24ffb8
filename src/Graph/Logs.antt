-- ===== src/Graph/Logs.antt =====
-- core/crates/client-evm/src/kernel/blocks_graph.rs: the logs of a block. Streamed logs accumulate, and
-- the authoritative set replaces whatever was there.
pub mod Ladder
pub mod Streams
pub mod Miss
use armchair_analyst.Prelude.{
  ℕ, nat_eq, nat_beq, Bool, true, false, not, ◌&&◌, Option, none, some, List, [], ◌∷◌, ◌==◌, Map,
  SortedMap, lookup, insert, extend_sorted, keys,
}
use armchair_analyst.Pools.Keys.{BlockHash}
use armchair_analyst.Pools.Events.{PoolLog}
use armchair_analyst.Graph.Types.{
  BlockLogs, unknown, streamed, complete, BlockData, Node, connected, pending, BlocksGraph,
  node_payload, indexed, key_by_log_index,
}

abbrev pub with_payload : Node → BlockData → Node
with_payload (connected node) data' = connected (record node { payload = data' })
with_payload (pending node) data' = pending (record node { payload = data' })

-- What a caller of `block_data_mut` does: the payload of a present block is changed in place.
unfoldable pub update_nodes :
    BlockHash → (BlockData → BlockData) → Map BlockHash Node → Map BlockHash Node
update_nodes hash change nodes = elim (lookup hash nodes) [
  | none ↦ nodes
  | some node ↦ insert hash (with_payload node (change (node_payload node))) nodes
]

unfoldable pub update_block_data : BlocksGraph → BlockHash → (BlockData → BlockData) → BlocksGraph
unfolding update_nodes
update_block_data g hash change = record g { nodes = update_nodes hash change g.nodes }

unfoldable pub merge_streamed : List PoolLog → BlockLogs → BlockLogs
unfolding key_by_log_index
merge_streamed logs (complete existing) = complete existing
merge_streamed logs (streamed existing) = streamed (extend_sorted existing (key_by_log_index logs))
merge_streamed logs unknown = streamed (key_by_log_index logs)

unfoldable pub with_streamed_logs : BlocksGraph → BlockHash → List PoolLog → BlocksGraph
unfolding update_block_data merge_streamed
with_streamed_logs g hash logs =
    update_block_data g hash (λ d. record d { logs = merge_streamed logs d.logs })

-- Ascending sets of indices.
abbrev pub IndexSet : Type 0
IndexSet = SortedMap (Unit {0})

abbrev pub index_entries : List PoolLog → List (ℕ × Unit {0})
index_entries [] = []
index_entries (log ∷ logs) = (log.log_index, tt) ∷ index_entries logs

abbrev pub key_entries : SortedMap PoolLog → List (ℕ × Unit {0})
key_entries [] = []
key_entries ((k, log) ∷ m) = (k, tt) ∷ key_entries m

abbrev pub same_keys : List ℕ → List ℕ → Bool
same_keys [] [] = true
same_keys [] (y ∷ ys) = false
same_keys (x ∷ xs) [] = false
same_keys (x ∷ xs) (y ∷ ys) = nat_beq x y && same_keys xs ys

unfoldable pub index_set : List PoolLog → IndexSet
unfolding extend_sorted
index_set logs = extend_sorted [] (index_entries logs)

unfoldable pub key_set : SortedMap PoolLog → IndexSet
unfolding extend_sorted
key_set m = extend_sorted [] (key_entries m)

abbrev pub logs_mismatch : List PoolLog → BlockLogs → Bool
logs_mismatch logs (streamed existing) =
    not (same_keys (keys (key_set existing)) (keys (index_set logs)))
logs_mismatch logs unknown = false
logs_mismatch logs (complete existing) = false

unfoldable pub streamed_log_mismatch : BlocksGraph → BlockHash → List PoolLog → Bool
unfolding key_set index_set
streamed_log_mismatch g hash logs = elim (lookup hash g.nodes) [
  | none ↦ false
  | some node ↦ logs_mismatch logs (node_payload node).logs
]

unfoldable pub with_complete_logs : BlocksGraph → BlockHash → List PoolLog → BlocksGraph × Bool
unfolding update_block_data streamed_log_mismatch key_by_log_index
with_complete_logs g hash logs = (
  update_block_data g hash (λ d. record d { logs = complete (key_by_log_index logs) }),
  streamed_log_mismatch g hash logs,
)
