-- ===== src/Kernel/Schedule.antt =====
-- core/crates/client-evm/src/kernel/mod.rs: the schedulers, which derive from the state what to request
-- next. `Effect` has the one constructor `Request`, so an effect is the issued request itself. A set is
-- the list of its elements in some order.
pub mod Issues
pub mod Wanted
use armchair_analyst.Prelude.{
  ℕ, nat_eq, zero, suc, ◌+◌, ◌^◌, Bool, true, false, not, ◌&&◌, Option, none, some, List, [], ◌∷◌,
  ◌++◌, ◌==◌, leb, ltb, contains, contains_key, filter_by, if◌then◌else◌,
}
use armchair_analyst.Pools.Keys.{
  Address, ChainKey, BlockHash, PoolRef, pool_ref_eq, ProtocolPoolKey, uniswap_v3, uniswap_v4,
  pool_key_eq, TokenAddress, token_eq, chain_index,
}
use armchair_analyst.Pools.Chains.{pool_manager_address}
use armchair_analyst.Graph.Types.{is_pending}
use armchair_analyst.Graph.Fold.{BloomApi}
use armchair_analyst.Graph.Queries.{
  MissingRange, missing_parents, unknown_log_hole_hashes, missing_complete_ranges_to,
  pool_log_candidates_from_head,
}
use armchair_analyst.Requests.Tracking.{RequestStore, IssuedRequest}
use armchair_analyst.Requests.Pending.{
  PendingRequests, GetPoolMetadata, GetTokenMetadata, range_of_missing, header_store, log_store,
  pool_metadata_store, token_metadata_store, pool_data_store, logs_range_store,
  canonical_header_store, AnyIssuedRequest, block_header_issued, block_log_issued,
  pool_metadata_request_issued, token_metadata_request_issued, pool_data_request_issued,
  logs_range_request_issued, canonical_header_request_issued, with_new_request,
  has_pending_finality_probe, pending_block_log_hashes, has_pending_header_request,
  pending_pool_metadata_candidates, pending_token_metadata_tokens, pending_pool_data_pools,
  pending_log_range_numbers, has_pending_block_backfill,
}
use armchair_analyst.Market.Metadata.{PoolMetadata}
use armchair_analyst.Market.Registries.{
  TrustedPoolRegistry, verified_pools, verified_addresses, verified_pool, verified_pool_metadata,
  is_known_pool, TokenRegistry, is_known_token,
}
use armchair_analyst.Kernel.{State}

abbrev pub Effect : Type 0
Effect = AnyIssuedRequest

abbrev pub Scheduled : Type 0
Scheduled = State × List Effect

-- The steps that every scheduler repeats: the request enters the store under the clock of the state, and
-- is handed out as an effect.
unfoldable pub with_request :
    {R : Type 0} ⦃m : RequestStore PendingRequests R⦄
    → (IssuedRequest R → AnyIssuedRequest)
    → R
    → Scheduled
    → Scheduled
unfolding with_new_request
with_request wrap payload (s, effects) =
    let (pending, id) = with_new_request s.pending_requests payload s.tick in
    (
      record s { pending_requests = pending },
      effects ++ wrap (record { request_id = id; request_payload = payload }) ∷ [],
    )

abbrev pub stream_settle_depth : ℕ
stream_settle_depth = 2

abbrev pub finalized_pool_seed_chunk : ℕ
finalized_pool_seed_chunk = 100

-- `request_missing_header`, with its effects appended.
unfoldable pub request_missing_header : BlockHash → Scheduled → Scheduled
unfolding has_pending_header_request with_request
request_missing_header hash (s, effects) =
    if has_pending_header_request s.pending_requests hash
    then (s, effects)
    else with_request block_header_issued (record { block_hash = hash }) (s, effects)

unfoldable pub request_headers : List BlockHash → Scheduled → Scheduled
unfolding request_missing_header
request_headers [] r = r
request_headers (hash ∷ hashes) r = request_headers hashes (request_missing_header hash r)

unfoldable pub schedule_missing_header_requests : Scheduled → Scheduled
unfolding request_headers missing_parents
schedule_missing_header_requests (s, effects) =
    request_headers (missing_parents s.blocks.graph) (s, effects)

abbrev pub insert_address : Address → List Address → List Address
insert_address address addresses =
    if contains address addresses then addresses else address ∷ addresses

-- The addresses whose logs matter on a chain: the verified pools' own, and the manager of Uniswap v4.
unfoldable pub trusted_addresses : ChainKey → TrustedPoolRegistry → List Address
unfolding verified_addresses pool_manager_address
trusted_addresses chain r = elim (pool_manager_address chain) [
  | none ↦ verified_addresses r chain
  | some manager ↦ insert_address manager (verified_addresses r chain)
]

unfoldable pub request_logs : List BlockHash → Scheduled → Scheduled
unfolding with_request
request_logs [] r = r
request_logs (hash ∷ hashes) r =
    request_logs hashes (with_request block_log_issued (record { block_hash = hash }) r)

unfoldable pub schedule_unknown_canonical_log_requests : BloomApi → ChainKey → Scheduled → Scheduled
unfolding request_logs trusted_addresses unknown_log_hole_hashes pending_block_log_hashes
schedule_unknown_canonical_log_requests api chain (s, effects) =
    request_logs
      (unknown_log_hole_hashes api s.blocks.graph (trusted_addresses chain s.pool_registry)
        (pending_block_log_hashes s.pending_requests) stream_settle_depth)
      (s, effects)

unfoldable pub request_ranges : List MissingRange → Scheduled → Scheduled
unfolding with_request range_of_missing
request_ranges [] r = r
request_ranges (range ∷ ranges) r =
    request_ranges ranges (with_request logs_range_request_issued (range_of_missing range) r)

unfoldable pub schedule_missing_log_range_requests :
    BloomApi → ChainKey → BlockHash → Scheduled → Scheduled
unfolding request_ranges missing_complete_ranges_to pending_log_range_numbers verified_pools
    pool_manager_address
schedule_missing_log_range_requests api chain target (s, effects) =
    request_ranges
      (missing_complete_ranges_to api s.blocks.graph target (verified_pools s.pool_registry chain)
        (pool_manager_address chain) (pending_log_range_numbers s.pending_requests))
      (s, effects)

-- The candidates of one block that no registry entry and no request covers.
unfoldable pub unknown_candidates :
    ChainKey
    → TrustedPoolRegistry
    → List ProtocolPoolKey
    → List ProtocolPoolKey
    → List ProtocolPoolKey
unfolding is_known_pool
unknown_candidates chain r unavailable candidates =
    filter_by
      (λ candidate. not (is_known_pool r chain candidate) && not (contains candidate unavailable))
      candidates

unfoldable pub request_candidates :
    ChainKey
    → List (BlockHash × List ProtocolPoolKey)
    → List ProtocolPoolKey
    → Scheduled
    → Scheduled
unfolding unknown_candidates with_request
request_candidates chain [] unavailable r = r
request_candidates chain ((hash, candidates) ∷ blocks) unavailable (s, effects) =
    let wanted = unknown_candidates chain s.pool_registry unavailable candidates in
    let requested : GetPoolMetadata = record { block_at = hash; candidates = wanted } in
    elim wanted as (λ _. Scheduled) [
      | [] ↦ request_candidates chain blocks unavailable (s, effects)
      | pool ∷ pools ↦
          request_candidates chain blocks (wanted ++ unavailable)
            (with_request pool_metadata_request_issued requested (s, effects))
    ]

unfoldable pub schedule_unknown_canonical_pool_metadata_requests :
    ChainKey → List (BlockHash × List ProtocolPoolKey) → Scheduled → Scheduled
unfolding request_candidates pending_pool_metadata_candidates
schedule_unknown_canonical_pool_metadata_requests chain candidates_from_head (s, effects) =
    request_candidates chain candidates_from_head
      (pending_pool_metadata_candidates s.pending_requests) (s, effects)

abbrev pub insert_token : TokenAddress → List TokenAddress → List TokenAddress
insert_token token tokens = if contains token tokens then tokens else token ∷ tokens

abbrev pub verified_metadata_of :
    ChainKey → TrustedPoolRegistry → ProtocolPoolKey → Option PoolMetadata
unfolding verified_pool verified_pool_metadata
verified_metadata_of chain r candidate = elim (verified_pool r chain candidate) [
  | none ↦ none
  | some pool ↦ verified_pool_metadata r pool
]

-- A token enters the set if the registry does not know it and no request covers it.
abbrev pub insert_unknown :
    TokenRegistry → List TokenAddress → TokenAddress → List TokenAddress → List TokenAddress
unfolding is_known_token
insert_unknown r unavailable token tokens =
    if not (is_known_token r token) && not (contains token unavailable)
    then insert_token token tokens
    else tokens

-- The tokens of the verified pools among the candidates.
unfoldable pub unknown_tokens_of :
    ChainKey
    → TrustedPoolRegistry
    → TokenRegistry
    → List TokenAddress
    → List ProtocolPoolKey
    → List TokenAddress
unfolding verified_pool verified_pool_metadata is_known_token
unknown_tokens_of chain pools tokens unavailable [] = []
unknown_tokens_of chain pools tokens unavailable (candidate ∷ candidates) =
    let rest = unknown_tokens_of chain pools tokens unavailable candidates in
    elim (verified_metadata_of chain pools candidate) [
      | none ↦ rest
      | some metadata ↦
          insert_unknown tokens unavailable (record { address = metadata.token0; chain = chain })
            (insert_unknown tokens unavailable (record { address = metadata.token1; chain = chain })
              rest)
    ]

unfoldable pub request_tokens :
    ChainKey → List (BlockHash × List ProtocolPoolKey) → List TokenAddress → Scheduled → Scheduled
unfolding unknown_tokens_of with_request
request_tokens chain [] unavailable r = r
request_tokens chain ((hash, candidates) ∷ blocks) unavailable (s, effects) =
    let wanted = unknown_tokens_of chain s.pool_registry s.token_registry unavailable candidates in
    let requested : GetTokenMetadata = record { block_at = hash; tokens = wanted } in
    elim wanted as (λ _. Scheduled) [
      | [] ↦ request_tokens chain blocks unavailable (s, effects)
      | token ∷ tokens ↦
          request_tokens chain blocks (wanted ++ unavailable)
            (with_request token_metadata_request_issued requested (s, effects))
    ]

unfoldable pub schedule_unknown_canonical_token_metadata_requests :
    ChainKey → List (BlockHash × List ProtocolPoolKey) → Scheduled → Scheduled
unfolding request_tokens pending_token_metadata_tokens
schedule_unknown_canonical_token_metadata_requests chain candidates_from_head (s, effects) =
    request_tokens chain candidates_from_head (pending_token_metadata_tokens s.pending_requests)
      (s, effects)

-- The derived order of pools: by protocol, by the number of the key, by chain.
abbrev pub pool_key_leb : ProtocolPoolKey → ProtocolPoolKey → Bool
pool_key_leb (uniswap_v3 a) (uniswap_v3 b) = leb a b
pool_key_leb (uniswap_v3 a) (uniswap_v4 b) = true
pool_key_leb (uniswap_v4 a) (uniswap_v3 b) = false
pool_key_leb (uniswap_v4 a) (uniswap_v4 b) = leb a b

unfoldable pub pool_ref_leb : PoolRef → PoolRef → Bool
pool_ref_leb a b =
    if a.key == b.key
    then leb (chain_index a.chain) (chain_index b.chain)
    else pool_key_leb a.key b.key

-- `sort_unstable`.
unfoldable pub insert_pool : PoolRef → List PoolRef → List PoolRef
unfolding pool_ref_leb
insert_pool pool [] = pool ∷ []
insert_pool pool (x ∷ xs) = if pool_ref_leb pool x then pool ∷ x ∷ xs else x ∷ insert_pool pool xs

unfoldable pub sort_pools : List PoolRef → List PoolRef
unfolding insert_pool
sort_pools [] = []
sort_pools (x ∷ xs) = insert_pool x (sort_pools xs)

-- `Vec::truncate`.
unfoldable pub truncate : {A : Type 0} → ℕ → List A → List A
truncate zero xs = []
truncate (suc n) [] = []
truncate (suc n) (x ∷ xs) = x ∷ truncate n xs

-- The verified pools that neither the snapshot nor a request covers.
unfoldable pub uncovered_pools : ChainKey → State → List PoolRef
unfolding verified_pools pending_pool_data_pools
uncovered_pools chain s =
    filter_by
      (λ pool.
        not (contains_key pool s.blocks.finalized_snapshot)
        && not (contains pool (pending_pool_data_pools s.pending_requests)))
      (verified_pools s.pool_registry chain)

unfoldable pub schedule_finalized_pool_seed_requests : ChainKey → Scheduled → Scheduled
unfolding uncovered_pools has_pending_block_backfill sort_pools truncate with_request
schedule_finalized_pool_seed_requests chain (s, effects) =
    if has_pending_block_backfill s.pending_requests
    then (s, effects)
    else elim (uncovered_pools chain s) [
      | [] ↦ (s, effects)
      | pool ∷ pools ↦
          with_request pool_data_request_issued
            (record {
              block_at = s.blocks.graph.anchor.hash;
              pools = truncate finalized_pool_seed_chunk (sort_pools (pool ∷ pools));
            })
            (s, effects)
    ]

unfoldable pub schedule_unknown_canonical_requests : BloomApi → ChainKey → Scheduled → Scheduled
unfolding schedule_missing_header_requests schedule_unknown_canonical_log_requests
    schedule_unknown_canonical_pool_metadata_requests
    schedule_unknown_canonical_token_metadata_requests schedule_finalized_pool_seed_requests
schedule_unknown_canonical_requests api chain r0 =
    let r1 = schedule_missing_header_requests r0 in
    let r2 = schedule_unknown_canonical_log_requests api chain r1 in
    let candidates_from_head = pool_log_candidates_from_head r2.0.blocks.graph in
    let r3 = schedule_unknown_canonical_pool_metadata_requests chain candidates_from_head r2 in
    let r4 = schedule_unknown_canonical_token_metadata_requests chain candidates_from_head r3 in
    schedule_finalized_pool_seed_requests chain r4

-- `saturating_add(1)` on a `u64`.
abbrev pub saturating_suc : ℕ → ℕ
saturating_suc n = if ltb (n + 1) (2 ^ 64) then n + 1 else n

unfoldable pub orphan_suspected : State → BlockHash → ℕ → Bool
unfolding is_pending has_pending_finality_probe
orphan_suspected s admitted_hash number =
    leb number (saturating_suc s.blocks.graph.anchor.number)
    && is_pending s.blocks.graph admitted_hash
    && not (has_pending_finality_probe s.pending_requests)

unfoldable pub with_finality_probe_if_orphan_suspected : BlockHash → ℕ → Scheduled → Scheduled
unfolding orphan_suspected with_request
with_finality_probe_if_orphan_suspected admitted_hash number (s, effects) =
    if orphan_suspected s admitted_hash number
    then with_request canonical_header_request_issued
        (record { number = s.blocks.graph.anchor.number }) (s, effects)
    else (s, effects)
