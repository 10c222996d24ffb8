-- ===== src/Lib.antt =====
-- The EVM client of armchair-analyst (core/crates/client-evm) keeps, for each chain, a tree of recent
-- blocks above the last finalized one, collects the logs of the pools in it, and folds them into pool states
-- on demand. This library models its core data structures and what they promise.
--
-- The parts, and how they interact. The kernel admits observed blocks to the blocks graph
-- (core/crates/client-evm/src/kernel/blocks_graph.rs), attaches to them the logs that a subscription
-- streams and the authoritative logs that it fetches, and asks the graph what is still missing. Every fetch
-- is a request in flight (request_tracking.rs, kernel/pending_requests.rs), which a clock (tick.rs) expires
-- and retries. Candidates that the logs name are validated, and the answers enter the registries
-- (kernel/pool_registry.rs, kernel/token_registry.rs). The graph folds the logs along the path to a block
-- with the fold of pool_log.rs, and when a block is finalized it moves its anchor up and prunes. A chain
-- starts with a bootstrap (bootstrap/mod.rs) that fetches an anchor, scans for logs and validates what it
-- found; its outcome seeds the kernel. The kernel of several chains (multi_chain_kernel.rs) routes events,
-- buffers what a subscription delivers during a bootstrap, and dispatches the optimizer.
--
--   Prelude          shared names; Prelude/Tests: Boolean tests and the interface of keys; Prelude/Lists;
--                    Prelude/Assoc: hash maps as association lists; Prelude/Sorted: B-tree maps as
--                    ascending association lists; Prelude/Int: signed integers
--   Pools/Keys       PoolRef, ProtocolPoolKey (pool_state.rs), ChainKey (chain.rs), TokenAddress
--   Pools/Events     PoolState, PoolLogEvent, derive_pool_state, apply_liquidity_delta (pool_log.rs)
--   Pools/Chains     the constants of each chain, the slugs and their inverse (chain.rs), the deployments of
--                    Uniswap v4 (uniswap_v4.rs)
--   Pools/Fold, Pools/Bounds, Pools/Accounts   theorems on derive_pool_state
--   Graph/Types      the data of kernel/blocks_graph.rs. A ConnectedHash is the hash it wraps
--   Graph/Admission  with_data_capped, with_block_capped, promote_reachable, from_seed,
--                    with_observed_head; below it Rooted and Invariant (the contract of the graph and its
--                    abstract view: a partial map from hashes to parents and payloads), Promotion and Loop
--                    (the promotion of waiting blocks), Refine, Order and Seed (theorems)
--   Graph/Logs       with_streamed_logs, with_complete_logs, streamed_log_mismatch; below it Ladder,
--                    Streams and Miss (theorems)
--   Graph/Walks      connected_oldest_to_newest, canonical_oldest_to_newest, present_chain_from_head,
--                    distance_from_head, connected_path_data; below it Chain and Present (theorems)
--   Graph/Fold       foldable_frontier, folded_overlay, folded_pool_states, projected_pool_states and
--                    projected_pool_states_if_changed; below it Buckets, Overlay and Frontier (theorems)
--   Graph/Finality   connected_descends_from, reanchored_to, canonical_connected_target, finalized_to;
--                    below it Descends, Reroot and Advance (theorems)
--   Graph/Queries    missing_parents, unknown_log_hole_hashes, pool_log_candidates_from_head,
--                    missing_complete_ranges, missing_complete_ranges_to; below it Parents, Holes and
--                    Ranges (theorems)
--   Requests         Tick (tick.rs), Tracking (request_tracking.rs), Pending
--                    (kernel/pending_requests.rs); Retry, Ids, Retained, Entered, Retried, Held, Counts,
--                    Rounds, Listed and Lossless (theorems)
--   Market           Metadata and Registries (kernel/pool_registry.rs, kernel/token_registry.rs,
--                    kernel/metadata_catalog.rs); Results (theorems)
--   Graph/Reachable  every graph that a sequence of these operations reaches on a chain, with its cap of
--                    waiting blocks; below it Connects
--   Kernel           the state of one chain and the feeds of its events (kernel/mod.rs: State, Blocks,
--                    with_log_head_observed, with_log_header_received, with_log_streamed,
--                    with_log_complete, with_finalized_block_observed, the staging of early logs); below it
--                    Staging and Commute (theorems)
--   Kernel/Schedule  the schedulers, and with_request, by which each of them enters a request; below it
--                    Issues and Wanted (theorems)
--   Kernel/Transition   transition_outcome and transition, one event at a time, and activate_from_seed;
--                    below it Feeds, Keeps, Life, Tracks, Unsolicited and Answers (theorems)
--   Kernel/Reads     the reads of a state and the policy of finalized refreshes
--   Bootstrap/Window from_window, the seed of the graph inferred from a scan (bootstrap/mod.rs); below it
--                    Linked
--   Bootstrap/Requests   bootstrap/pending_requests.rs
--   Bootstrap/Machine    the phases and the transition of bootstrap/mod.rs; below it Sole, Idle, Ended,
--                    Fits, Waits, Steps, Sequential, Seeded and Deadline (theorems)
--   Bootstrap/Activation the activation of a kernel with the outcome of a bootstrap
--   Multi            the lifecycles and the reads of multi_chain_kernel.rs; Multi/Policy, Multi/Reserves and
--                    Multi/Machine: its policies, its projection of reserves (with optimization/src/
--                    pool_reserves.rs) and its transition; Keyed, Grown, Lives, Isolation, Ticks,
--                    Sorted and Replay, with Events and Delivered below it (theorems)
--   Mailbox          the mailbox of one cell between a producer and the optimizer's worker
--                    (core/crates/aa-client-core/src/latest_slot.rs); below it Wakeup and Order
--   */Examples, Graph/Runs, Kernel/Runs   concrete runs
--
-- How the code is read. Addresses, hashes and blooms are the numbers that their bytes spell; the code uses
-- only their equality and, to sort, the order of hashes. A hash map is an association list in one of the
-- orders that its iteration may take. A set is a list. A mutable borrow is
-- the new value that it leaves behind. A 64-bit id or tick wraps, and u128 liquidity is checked; the walks
-- of the graph count in unbounded numbers, as their counts are bounded by the nodes in memory.
-- The hash of a filler block of a seed is a parameter, as a library computes it. The numbers of the
-- optimizer are f32, a type that stays a parameter, and with it the values of one pool
-- (pool_reserve_values) and the verdict on a plan (verify_plan), which are computed on it. Names that the
-- source declares in several modules (State, Event, transition) carry their module's word in a later one:
-- bootstrap_transition, multi_transition.
--
-- Bounds and fuel. The connected walk runs on the number of nodes: it meets a node at most once. The
-- promotion runs on the number of waiting blocks and one more: each round takes one connected block from
-- the frontier, and each but the first entered it by a promotion. The walks along raw parents and the
-- descent test run on the number of nodes and two more, as each round but the last visits one more node.
--
-- The bloom filters are those of the alloy library: a theorem that needs one holds for every pattern of an
-- address and every test of a bloom.
--
-- Not modelled: the decoding of logs, RPC and subscriptions, serialisation, the arithmetic of reserves and
-- ticks (pool_state.rs, tick_math.rs), the replay of a plan, the rest of the chain-independent client
-- (aa-client-core), the optimizer, the server and the user interfaces.
pub mod Prelude
pub mod Pools
pub mod Graph
pub mod Requests
pub mod Kernel
pub mod Market
pub mod Bootstrap
pub mod Multi
pub mod Mailbox
