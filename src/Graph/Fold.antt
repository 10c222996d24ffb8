-- ===== src/Graph/Fold.antt =====
-- core/crates/client-evm/src/kernel/blocks_graph.rs: pool states folded on demand over the connected path,
-- and the frontier up to which the fold may go. Blooms are those of the alloy library: what the code asks of
-- them is the pattern of an address and whether a bloom contains a pattern.
pub mod Buckets
pub mod Overlay
pub mod Frontier
use armchair_analyst.Prelude.{
  ℕ, nat_eq, Bool, true, false, not, ◌&&◌, Option, none, some, List, [], ◌∷◌, ◌++◌, ◌==◌, Map,
  SortedMap, lookup, insert, contains_key, contains, any_by, map, is_some, values, if◌then◌else◌,
}
use armchair_analyst.Pools.Keys.{
  Address, BlockHash, Bloom, ProtocolPoolKey, uniswap_v3, uniswap_v4, pool_key_eq, PoolRef,
  pool_ref_eq,
}
use armchair_analyst.Pools.Events.{PoolState, PoolLogEvent, PoolLog, derive_pool_state}
use armchair_analyst.Graph.Types.{
  BlockLogs, unknown, streamed, complete, BlockData, ConnectedNode, Node, BlocksGraph, connected_of,
  connected_hash,
}
use armchair_analyst.Graph.Walks.{connected_oldest_to_newest, connected_path_data}

-- `Bloom::accrue` of one address into an empty bloom, and `Bloom::contains`.
pub record BloomApi : Type 0 where
  pub pattern_of : Address → Bloom
  pub covers : Bloom → Bloom → Bool

pub data Authority : Type 0 where
  require_complete allow_streamed : Authority

-- `BloomPatterns::of`.
unfoldable pub bloom_patterns : BloomApi → List Address → List Bloom
bloom_patterns api addresses = map api.pattern_of addresses

unfoldable pub bloom_may_touch : BloomApi → Option Bloom → List Bloom → Bool
bloom_may_touch api bloom [] = false
bloom_may_touch api none (pattern' ∷ watched) = true
bloom_may_touch api (some bloom) (pattern' ∷ watched) =
    any_by (λ p. api.covers bloom p) (pattern' ∷ watched)

unfoldable pub readable_logs : BlockLogs → Authority → Option (SortedMap PoolLog)
readable_logs (complete logs) authority = some logs
readable_logs (streamed logs) allow_streamed = some logs
readable_logs (streamed logs) require_complete = none
readable_logs unknown authority = none

-- `HashSet::insert`.
abbrev pub set_insert : Address → List Address → List Address
set_insert address addresses = if contains address addresses then addresses else address ∷ addresses

abbrev pub extend_option : List Address → Option Address → List Address
extend_option addresses none = addresses
extend_option addresses (some address) = set_insert address addresses

abbrev watch_pool : List Address → ProtocolPoolKey → Option Address → List Address
watch_pool watched (uniswap_v3 address) v4_manager = set_insert address watched
watch_pool watched (uniswap_v4 pool_id) v4_manager = extend_option watched v4_manager

unfoldable pub watched_from : List Address → List PoolRef → Option Address → List Address
watched_from watched [] v4_manager = watched
watched_from watched (pool ∷ verified) v4_manager =
    watched_from (watch_pool watched pool.key v4_manager) verified v4_manager

unfoldable pub watched_addresses : List PoolRef → Option Address → List Address
unfolding watched_from
watched_addresses verified v4_manager = watched_from [] verified v4_manager

-- Whether a block stops a fold of this authority.
unfoldable pub blocks_fold : BloomApi → Authority → List Bloom → BlockData → Bool
blocks_fold api authority watched d =
    not (is_some (readable_logs d.logs authority)) && bloom_may_touch api d.logs_bloom watched

-- The loop of `foldable_frontier`.
unfoldable pub frontier_walk :
    BloomApi → Authority → List Bloom → Map BlockHash Node → BlockHash → List BlockHash → BlockHash
unfolding blocks_fold
frontier_walk api authority watched nodes frontier [] = frontier
frontier_walk api authority watched nodes frontier (hash ∷ hashes) =
    elim (connected_of (lookup hash nodes)) [
      | none ↦ frontier
      | some node ↦ elim (blocks_fold api authority watched node.payload) [
        | true ↦ frontier
        | false ↦ frontier_walk api authority watched nodes hash hashes
      ]
    ]

unfoldable pub foldable_frontier :
    BloomApi → BlocksGraph → BlockHash → List Bloom → Authority → BlockHash
unfolding frontier_walk
foldable_frontier api g target watched authority =
    frontier_walk api authority watched g.nodes g.anchor.hash (connected_oldest_to_newest g target)

abbrev pub Buckets : Type 0
Buckets = Map ProtocolPoolKey (List PoolLogEvent)

abbrev pub or_default : Option (List PoolLogEvent) → List PoolLogEvent
or_default none = []
or_default (some run) = run

-- `buckets.entry(key).or_default().push(event)`.
unfoldable pub push_event : ProtocolPoolKey → PoolLogEvent → Buckets → Buckets
push_event key event buckets = insert key (or_default (lookup key buckets) ++ event ∷ []) buckets

unfoldable pub push_logs : List PoolLog → Buckets → Buckets
unfolding push_event
push_logs [] buckets = buckets
push_logs (log ∷ logs) buckets = push_logs logs (push_event log.pool log.event buckets)

unfoldable pub bucket_path : Authority → List BlockData → Buckets → Buckets
unfolding push_logs
bucket_path authority [] buckets = buckets
bucket_path authority (d ∷ path) buckets = elim (readable_logs d.logs authority) [
  | none ↦ bucket_path authority path buckets
  | some logs ↦ bucket_path authority path (push_logs (values logs) buckets)
]

abbrev pub Snapshot : Type 0
Snapshot = Map PoolRef PoolState

-- One pool's entry, if it has a run of logs and the run derives a state.
unfoldable pub overlay_pool : Buckets → PoolRef → Option PoolState → Snapshot → Snapshot
overlay_pool buckets pool base overlay = elim (lookup pool.key buckets) [
  | none ↦ overlay
  | some run ↦ elim (derive_pool_state base run) [
    | none ↦ overlay
    | some folded ↦ insert pool folded overlay
  ]
]

unfoldable pub overlay_base : Buckets → Snapshot → Snapshot → Snapshot
unfolding overlay_pool
overlay_base buckets [] overlay = overlay
overlay_base buckets ((pool, state) ∷ base) overlay =
    overlay_base buckets base (overlay_pool buckets pool (some state) overlay)

unfoldable pub overlay_verified : Buckets → Snapshot → List PoolRef → Snapshot → Snapshot
unfolding overlay_pool
overlay_verified buckets base [] overlay = overlay
overlay_verified buckets base (pool ∷ verified) overlay =
    overlay_verified buckets base verified
      (if contains_key pool base then overlay else overlay_pool buckets pool none overlay)

unfoldable pub folded_overlay :
    BlocksGraph → Snapshot → List PoolRef → BlockHash → Authority → Snapshot
unfolding bucket_path overlay_base overlay_verified
folded_overlay g base verified target authority =
    let buckets = bucket_path authority (connected_path_data g target) [] in
    overlay_verified buckets base verified (overlay_base buckets base [])

-- `HashMap::extend`.
unfoldable pub extend_snapshot : Snapshot → Snapshot → Snapshot
extend_snapshot base [] = base
extend_snapshot base ((pool, state) ∷ overlay) = extend_snapshot (insert pool state base) overlay

unfoldable pub folded_pool_states :
    BlocksGraph → Snapshot → List PoolRef → BlockHash → Authority → Snapshot
unfolding folded_overlay extend_snapshot
folded_pool_states g base verified target authority =
    extend_snapshot base (folded_overlay g base verified target authority)

unfoldable pub projected_fold_frontier :
    BloomApi → BlocksGraph → List PoolRef → Option Address → Option BlockHash
unfolding connected_hash foldable_frontier bloom_patterns watched_addresses
projected_fold_frontier api g verified v4_manager = elim (connected_hash g g.observed_head) [
  | none ↦ none
  | some head ↦ some (
      foldable_frontier api g head (bloom_patterns api (watched_addresses verified v4_manager))
        allow_streamed)
]

unfoldable pub projected_pool_states :
    BloomApi → BlocksGraph → Snapshot → List PoolRef → Option Address → Snapshot × BlockHash
unfolding projected_fold_frontier folded_overlay
projected_pool_states api g base verified v4_manager =
    elim (projected_fold_frontier api g verified v4_manager) [
      | none ↦ ([], g.anchor.hash)
      | some frontier ↦ (folded_overlay g base verified frontier allow_streamed, frontier)
    ]

abbrev pub is_dispatched : Option BlockHash → BlockHash → Bool
is_dispatched none frontier = false
is_dispatched (some hash) frontier = hash == frontier

unfoldable pub projected_pool_states_if_changed :
    BloomApi
    → BlocksGraph
    → Snapshot
    → List PoolRef
    → Option Address
    → Option BlockHash
    → Option (Snapshot × BlockHash)
unfolding projected_fold_frontier folded_overlay
projected_pool_states_if_changed api g base verified v4_manager last_dispatched =
    elim (projected_fold_frontier api g verified v4_manager) [
      | none ↦
          if is_dispatched last_dispatched g.anchor.hash then none else some ([], g.anchor.hash)
      | some frontier ↦
          if is_dispatched last_dispatched frontier
          then none
          else some (folded_overlay g base verified frontier allow_streamed, frontier)
    ]
