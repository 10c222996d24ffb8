-- ===== src/Kernel.antt =====
-- core/crates/client-evm/src/kernel/mod.rs: the state of one chain and the feeds of its events into it. The
-- schedulers that run afterwards are in Schedule, the events in Transition.
pub mod Schedule
pub mod Transition
pub mod Reads
pub mod Staging
pub mod Commute
pub mod Examples
pub mod Runs
use armchair_analyst.Prelude.{
  ℕ, nat_eq, ◌+◌, ◌%◌, ◌^◌, Bool, true, false, not, ◌&&◌, Option, none, some, List, [], ◌∷◌, ◌==◌,
  leb, Map, SortedMap, lookup, insert, remove, contains_key, length, values, extend_sorted,
  if◌then◌else◌,
}
use armchair_analyst.Pools.Keys.{Address, ChainKey, BlockHash, Bloom, PoolRef}
use armchair_analyst.Pools.Events.{PoolLog}
use armchair_analyst.Graph.Types.{BlocksGraph, new, contains_block, key_by_log_index}
use armchair_analyst.Graph.Admission.{
  Admission, admitted, self_parent, anchor_readmit, duplicate_block, conflicting_parent,
  pending_buffer_full, with_block_capped, with_observed_head,
}
use armchair_analyst.Graph.Logs.{with_streamed_logs, with_complete_logs}
use armchair_analyst.Graph.Walks.{node_hashes}
use armchair_analyst.Graph.Fold.{BloomApi, Snapshot}
use armchair_analyst.Graph.Finality.{finalized_to}
use armchair_analyst.Requests.Tick.{Tick, initial}
use armchair_analyst.Requests.Pending.{PendingRequests, no_requests, retaining_block_targets}
use armchair_analyst.Market.Registries.{
  TrustedPoolRegistry, empty_pools, verified_pools, TokenRegistry, empty_tokens,
}

pub record Blocks : Type 0 where
  pub graph : BlocksGraph
  pub finalized_snapshot : Snapshot

abbrev pub Staged : Type 0
Staged = Map BlockHash (SortedMap PoolLog)

pub record State : Type 0 where
  pub pending_requests : PendingRequests
  pub pool_registry : TrustedPoolRegistry
  pub token_registry : TokenRegistry
  pub tick : Tick
  pub streamed_logs : Staged
  pub blocks : Blocks
  pub ws_miss_count : ℕ

abbrev pub max_streamed_log_blocks : ℕ
max_streamed_log_blocks = 1024

-- `State::init`.
unfoldable pub init : BlockHash → ℕ → State
unfolding new no_requests empty_pools empty_tokens initial
init finalized_hash finalized_number = record {
  pending_requests = no_requests;
  pool_registry = empty_pools;
  token_registry = empty_tokens;
  tick = initial;
  streamed_logs = [];
  blocks = record { graph = new finalized_hash finalized_number; finalized_snapshot = [] };
  ws_miss_count = 0;
}

abbrev pub or_empty : Option (SortedMap PoolLog) → SortedMap PoolLog
or_empty none = []
or_empty (some logs) = logs

unfoldable pub with_streamed_logs_buffered : State → BlockHash → List PoolLog → State
unfolding key_by_log_index
with_streamed_logs_buffered s block_hash logs =
    if leb max_streamed_log_blocks (length s.streamed_logs)
      && not (contains_key block_hash s.streamed_logs)
    then s
    else record s {
      streamed_logs =
          insert block_hash
            (extend_sorted (or_empty (lookup block_hash s.streamed_logs)) (key_by_log_index logs))
            s.streamed_logs;
    }

unfoldable pub map_graph : (BlocksGraph → BlocksGraph) → State → State
map_graph f s = record s {
  blocks = record { graph = f s.blocks.graph; finalized_snapshot = s.blocks.finalized_snapshot };
}

unfoldable pub with_log_streamed : State → BlockHash → List PoolLog → State
unfolding map_graph
with_log_streamed s block_hash logs = map_graph (λ g. with_streamed_logs g block_hash logs) s

unfoldable pub with_streamed_logs_drained : State → BlockHash → State
unfolding with_log_streamed
with_streamed_logs_drained s block_hash =
    if not (contains_block s.blocks.graph block_hash)
    then s
    else elim (lookup block_hash s.streamed_logs) [
      | none ↦ s
      | some logs ↦
          with_log_streamed (record s { streamed_logs = remove block_hash s.streamed_logs })
            block_hash (values logs)
    ]

-- The head after an admission: a self-parent leaves it alone.
abbrev pub head_after : Admission → BlockHash → BlocksGraph → BlocksGraph
head_after self_parent hash g = g
head_after _ hash g = with_observed_head g hash

unfoldable pub with_log_head_observed :
    State → BlockHash → BlockHash → ℕ → Bloom → ℕ → State × Admission
unfolding with_streamed_logs_drained map_graph
with_log_head_observed s hash parent number bloom max_pending =
    let (g, admission) = with_block_capped s.blocks.graph hash parent number bloom max_pending in
    (with_streamed_logs_drained (map_graph (λ _. head_after admission hash g) s) hash, admission)

unfoldable pub with_log_header_received : State → BlockHash → BlockHash → ℕ → Bloom → ℕ → State
unfolding with_streamed_logs_drained map_graph
with_log_header_received s hash parent number bloom max_pending =
    with_streamed_logs_drained
      (map_graph (λ g. (with_block_capped g hash parent number bloom max_pending).0) s) hash

-- `ws_miss_count` is a `u64`.
unfoldable pub with_log_complete : State → BlockHash → List PoolLog → State
with_log_complete s block_hash logs =
    let (g, ws_miss) = with_complete_logs s.blocks.graph block_hash logs in
    record s {
      blocks = record { graph = g; finalized_snapshot = s.blocks.finalized_snapshot };
      ws_miss_count = if ws_miss then (s.ws_miss_count + 1) % 2 ^ 64 else s.ws_miss_count;
    }

-- The manager of Uniswap v4 on the chain is a constant of the chain.
unfoldable pub with_finalized_block_observed :
    BloomApi → State → ChainKey → Option Address → BlockHash → State
unfolding retaining_block_targets verified_pools node_hashes
with_finalized_block_observed api s chain v4_manager block_hash =
    let verified = verified_pools s.pool_registry chain in
    let (g, snapshot) =
      finalized_to api s.blocks.graph block_hash s.blocks.finalized_snapshot verified v4_manager in
    let blocks' : Blocks = record { graph = g; finalized_snapshot = snapshot } in
    if not (g.anchor.hash == s.blocks.graph.anchor.hash)
    then record s {
      pending_requests = retaining_block_targets s.pending_requests (node_hashes g);
      streamed_logs = [];
      blocks = blocks';
    }
    else record s { blocks = blocks' }

-- What `LogObserved` does to the state before the schedulers run.
unfoldable pub log_observed : State → BlockHash → List PoolLog → State
unfolding with_log_streamed with_streamed_logs_buffered
log_observed s block_hash logs =
    if contains_block s.blocks.graph block_hash
    then with_log_streamed s block_hash logs
    else with_streamed_logs_buffered s block_hash logs
