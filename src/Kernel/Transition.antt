-- ===== src/Kernel/Transition.antt =====
-- core/crates/client-evm/src/kernel/mod.rs: the transition of the kernel, one event at a time.
pub mod Feeds
pub mod Keeps
pub mod Life
pub mod Answers
pub mod Tracks
pub mod Unsolicited
use armchair_analyst.Prelude.{
  ℕ, nat_eq, not, ◌&&◌, Option, none, some, ◌⊎◌, inl, inr, List, [], ◌∷◌, ◌==◌, Map, insert,
  contains, retain, if◌then◌else◌,
}
use armchair_analyst.Pools.Keys.{
  ChainKey, BlockHash, Bloom, ProtocolPoolKey, pool_key_eq, PoolRef, pool_ref_eq, TokenAddress,
  token_eq,
}
use armchair_analyst.Pools.Chains.{max_pending_of, pool_manager_address}
use armchair_analyst.Pools.Events.{PoolState, PoolLog}
use armchair_analyst.Graph.Types.{contains_block}
use armchair_analyst.Graph.Admission.{Admission, self_parent, duplicate_block, SeedBlock, from_seed}
use armchair_analyst.Graph.Fold.{BloomApi, Snapshot}
use armchair_analyst.Graph.Queries.{missing_parents}
use armchair_analyst.Requests.Tick.{initial, next}
use armchair_analyst.Requests.Tracking.{RequestId, PendingPayload}
use armchair_analyst.Requests.Pending.{
  PendingRequests, no_requests, GetBlockHeader, GetBlockLogs, GetPoolMetadata, GetTokenMetadata,
  GetPoolData, GetLogsRange, GetCanonicalHeaderAtHeight, header_store, log_store,
  pool_metadata_store, token_metadata_store, pool_data_store, logs_range_store,
  canonical_header_store, AnyRequestId, AnyIssuedRequest, block_header_issued, take, retry,
  retry_expired,
}
use armchair_analyst.Market.Metadata.{PoolMetadataResult, TokenMetadataResult}
use armchair_analyst.Market.Registries.{
  TrustedPoolRegistry, with_pool_results, TokenRegistry, with_token_results,
}
use armchair_analyst.Kernel.{
  Blocks, State, with_log_head_observed, with_log_header_received, with_log_streamed,
  with_streamed_logs_buffered, with_log_complete, with_finalized_block_observed,
}
use armchair_analyst.Kernel.Schedule.{
  Effect, Scheduled, with_request, request_missing_header, schedule_unknown_canonical_requests,
  schedule_missing_log_range_requests, with_finality_probe_if_orphan_suspected,
}

pub data PoolDataCall : Type 0 where
  slot0 liquidity : PoolDataCall

pub data PoolDataFailure : Type 0 where
  call_failed decode_failed missing_response : PoolDataCall → PoolDataFailure

-- `Result`, its error on the right.
abbrev pub PoolDataResult : Type 0
PoolDataResult = PoolState ⊎ PoolDataFailure

unfoldable pub with_seed_results : Map PoolRef PoolDataResult → Snapshot → Snapshot
with_seed_results [] snapshot = snapshot
with_seed_results ((pool, inl pool_state) ∷ results) snapshot =
    with_seed_results results (insert pool pool_state snapshot)
with_seed_results ((pool, inr failure) ∷ results) snapshot = with_seed_results results snapshot

-- `Blocks::with_finalized_pool_seeds`.
unfoldable pub with_pool_seeds : Blocks → BlockHash → Map PoolRef PoolDataResult → Blocks
unfolding with_seed_results
with_pool_seeds blocks block_at results =
    if not (block_at == blocks.graph.anchor.hash) then blocks else record {
      graph = blocks.graph;
      finalized_snapshot = with_seed_results results blocks.finalized_snapshot;
    }

unfoldable pub with_finalized_pool_seeds : State → BlockHash → Map PoolRef PoolDataResult → State
unfolding with_pool_seeds
with_finalized_pool_seeds s block_at results = record s {
  blocks = with_pool_seeds s.blocks block_at results;
}

-- The state that `activate_from_seed` starts its requests from.
unfoldable pub seeded_state :
    BlockHash → ℕ → Snapshot → TrustedPoolRegistry → TokenRegistry → List SeedBlock → State
unfolding from_seed no_requests initial
seeded_state finalized_hash finalized_number snapshots pools tokens seed_blocks = record {
  pending_requests = no_requests;
  pool_registry = pools;
  token_registry = tokens;
  tick = initial;
  streamed_logs = [];
  blocks = record {
    graph = from_seed finalized_hash finalized_number seed_blocks;
    finalized_snapshot = snapshots;
  };
  ws_miss_count = 0;
}

unfoldable pub issue_headers : List BlockHash → Scheduled → Scheduled
unfolding with_request
issue_headers [] r = r
issue_headers (hash ∷ hashes) r =
    issue_headers hashes (with_request block_header_issued (record { block_hash = hash }) r)

unfoldable pub activate_from_seed :
    BlockHash → ℕ → Snapshot → TrustedPoolRegistry → TokenRegistry → List SeedBlock → Scheduled
unfolding seeded_state issue_headers missing_parents
activate_from_seed finalized_hash finalized_number snapshots pools tokens seed_blocks =
    let s = seeded_state finalized_hash finalized_number snapshots pools tokens seed_blocks in
    issue_headers (missing_parents s.blocks.graph) (s, [])

pub data Event : Type 0 where
  head_observed : (hash parent : BlockHash) (logs_bloom : Bloom) (number : ℕ) → Event
  finalized_block_observed : (block_hash : BlockHash) (number : ℕ) → Event
  block_header_received :
      (request_id : RequestId) (hash parent : BlockHash) (logs_bloom : Bloom) (number : ℕ) → Event
  block_header_not_found : (request_id : RequestId) → Event
  canonical_header_received : (request_id : RequestId) (hash : BlockHash) (number : ℕ) → Event
  block_logs_received : (request_id : RequestId) (logs : List PoolLog) → Event
  block_logs_range_received :
      (request_id : RequestId) (blocks : List (BlockHash × List PoolLog)) → Event
  logs_observed : (block_hash : BlockHash) (logs : List PoolLog) → Event
  pool_metadata_received :
      (request_id : RequestId) (metadata : Map ProtocolPoolKey PoolMetadataResult) → Event
  token_metadata_received :
      (request_id : RequestId) (metadata : Map TokenAddress TokenMetadataResult) → Event
  pool_data_received : (request_id : RequestId) (pools : Map PoolRef PoolDataResult) → Event
  request_failed : (request_id : AnyRequestId) → Event
  ticked : Event

pub data TransitionOutcome : Type 0 where
  inert : State → TransitionOutcome
  progressed : Scheduled → TransitionOutcome

-- A response that is not the requested block: the request is issued again.
unfoldable pub reissue_mismatched :
    BlockHash → Option (PendingPayload GetBlockHeader) → State → Scheduled
unfolding with_request
reissue_mismatched hash none s = (s, [])
reissue_mismatched hash (some p) s =
    if not (p.request.block_hash == hash)
    then with_request block_header_issued p.request (s, [])
    else (s, [])

unfoldable pub with_blocks_complete : List (BlockHash × List PoolLog) → State → State
unfolding with_log_complete
with_blocks_complete [] s = s
with_blocks_complete ((hash, logs) ∷ blocks) s =
    with_blocks_complete blocks (with_log_complete s hash logs)

abbrev pub hashes_of : List (BlockHash × List PoolLog) → List BlockHash
hashes_of [] = []
hashes_of ((hash, logs) ∷ blocks) = hash ∷ hashes_of blocks

-- The covered blocks that the response does not name have no logs.
unfoldable pub with_absent_complete : List BlockHash → List BlockHash → State → State
unfolding with_log_complete
with_absent_complete [] responded s = s
with_absent_complete (hash ∷ covered) responded s =
    with_absent_complete covered responded
      (if not (contains hash responded) then with_log_complete s hash [] else s)

unfoldable pub with_range_complete : GetLogsRange → List (BlockHash × List PoolLog) → State → State
unfolding with_blocks_complete with_absent_complete
with_range_complete payload blocks s =
    with_absent_complete payload.covered (hashes_of blocks) (with_blocks_complete blocks s)

abbrev pub effect_of : Option AnyIssuedRequest → List Effect
effect_of none = []
effect_of (some issued) = issued ∷ []

abbrev pub flatten : TransitionOutcome → Scheduled
flatten (inert s) = (s, [])
flatten (progressed r) = r

unfoldable pub on_canonical_header_received : State → RequestId → BlockHash → ℕ → Scheduled
unfolding take activate_from_seed
on_canonical_header_received s0 id hash number =
    let (pending, payload) = take {R = GetCanonicalHeaderAtHeight} s0.pending_requests id in
    let s : State = record s0 { pending_requests = pending } in
    if number == s.blocks.graph.anchor.number && not (hash == s.blocks.graph.anchor.hash)
    then activate_from_seed hash number [] s.pool_registry s.token_registry []
    else (s, [])

unfoldable pub apply_logs : List PoolLog → GetBlockLogs → State → State
unfolding with_log_complete
apply_logs logs payload s = with_log_complete s payload.block_hash logs

unfoldable pub apply_pool_metadata :
    ChainKey → Map ProtocolPoolKey PoolMetadataResult → GetPoolMetadata → State → State
unfolding with_pool_results
apply_pool_metadata chain metadata payload s = record s {
  pool_registry =
      with_pool_results chain s.pool_registry
        (retain (λ candidate result. contains candidate payload.candidates) metadata);
}

unfoldable pub apply_token_metadata :
    Map TokenAddress TokenMetadataResult → GetTokenMetadata → State → State
unfolding with_token_results
apply_token_metadata metadata payload s = record s {
  token_registry =
      with_token_results s.token_registry
        (retain (λ token result. contains token payload.tokens) metadata);
}

unfoldable pub apply_pool_data : Map PoolRef PoolDataResult → GetPoolData → State → State
unfolding with_finalized_pool_seeds
apply_pool_data results payload s = with_finalized_pool_seeds s payload.block_at results

module _ (api : BloomApi) (chain : ChainKey) where
  -- What follows an admission without a shortcut.
  unfoldable pub scheduled_head : BlockHash → ℕ → State → Scheduled
  unfolding schedule_unknown_canonical_requests with_finality_probe_if_orphan_suspected
  scheduled_head hash number s =
      with_finality_probe_if_orphan_suspected hash number
        (schedule_unknown_canonical_requests api chain (s, []))

  unfoldable pub head_outcome :
      Admission → (head_before hash : BlockHash) → ℕ → State → TransitionOutcome
  unfolding request_missing_header scheduled_head
  head_outcome self_parent head_before hash number s =
      progressed (request_missing_header hash (s, []))
  head_outcome duplicate_block head_before hash number s =
      if hash == head_before then inert s else progressed (scheduled_head hash number s)
  head_outcome _ head_before hash number s = progressed (scheduled_head hash number s)

  unfoldable pub on_head_observed : State → BlockHash → BlockHash → Bloom → ℕ → TransitionOutcome
  unfolding with_log_head_observed max_pending_of head_outcome
  on_head_observed s0 hash parent bloom number =
      let (s, admission) =
        with_log_head_observed s0 hash parent number bloom (max_pending_of chain) in
      head_outcome admission s0.blocks.graph.observed_head hash number s

  unfoldable pub on_block_header_received :
      State → RequestId → BlockHash → BlockHash → Bloom → ℕ → Scheduled
  unfolding with_log_header_received max_pending_of take reissue_mismatched
      schedule_unknown_canonical_requests with_finality_probe_if_orphan_suspected
  on_block_header_received s0 id hash parent bloom number =
      let s = with_log_header_received s0 hash parent number bloom (max_pending_of chain) in
      let (pending, payload) = take {R = GetBlockHeader} s.pending_requests id in
      with_finality_probe_if_orphan_suspected hash number (
        schedule_unknown_canonical_requests api chain
          (reissue_mismatched hash payload (record s { pending_requests = pending })))

  -- The shape of the responses that a request must await: what is taken is applied and followed by the
  -- schedulers, and a response without a request only removes its id.
  unfoldable pub on_response :
      {R : Type 0}
      → (R → State → State)
      → State
      → PendingRequests × Option (PendingPayload R)
      → Scheduled
  unfolding schedule_unknown_canonical_requests
  on_response apply s (pending, none) = (record s { pending_requests = pending }, [])
  on_response apply s (pending, some p) =
      schedule_unknown_canonical_requests api chain
        (apply p.request (record s { pending_requests = pending }), [])

  unfoldable pub transition_outcome : State → Event → TransitionOutcome
  unfolding on_head_observed on_block_header_received on_canonical_header_received on_response
      with_finalized_block_observed pool_manager_address schedule_missing_log_range_requests take
      with_range_complete contains_block with_log_streamed schedule_unknown_canonical_requests
      with_streamed_logs_buffered retry retry_expired next
  transition_outcome s (head_observed hash parent bloom number) =
      on_head_observed s hash parent bloom number
  transition_outcome s (finalized_block_observed hash number) = progressed (
      schedule_missing_log_range_requests api chain hash
        (with_finalized_block_observed api s chain (pool_manager_address chain) hash, []))
  transition_outcome s (block_header_received id hash parent bloom number) =
      progressed (on_block_header_received s id hash parent bloom number)
  transition_outcome s (block_header_not_found id) =
      progressed
        (record s { pending_requests = (take {R = GetBlockHeader} s.pending_requests id).0 }, [])
  transition_outcome s (canonical_header_received id hash number) =
      progressed (on_canonical_header_received s id hash number)
  transition_outcome s (block_logs_received id logs) =
      progressed (on_response (apply_logs logs) s (take s.pending_requests id))
  transition_outcome s (block_logs_range_received id blocks) =
      progressed
        (on_response (λ payload. with_range_complete payload blocks) s (take s.pending_requests id))
  transition_outcome s (logs_observed hash logs) =
      if contains_block s.blocks.graph hash
      then progressed
          (schedule_unknown_canonical_requests api chain (with_log_streamed s hash logs, []))
      else progressed (with_streamed_logs_buffered s hash logs, [])
  transition_outcome s (pool_metadata_received id metadata) =
      progressed (on_response (apply_pool_metadata chain metadata) s (take s.pending_requests id))
  transition_outcome s (token_metadata_received id metadata) =
      progressed (on_response (apply_token_metadata metadata) s (take s.pending_requests id))
  transition_outcome s (pool_data_received id pools) =
      progressed (on_response (apply_pool_data pools) s (take s.pending_requests id))
  transition_outcome s (request_failed id) =
      let (pending, issued) = retry s.pending_requests id s.tick in
      progressed (record s { pending_requests = pending }, effect_of issued)
  transition_outcome s ticked =
      let tick = next s.tick in
      let (pending, issued) = retry_expired s.pending_requests tick in
      progressed (record s { pending_requests = pending; tick = tick }, issued)

  unfoldable pub transition : State → Event → Scheduled
  unfolding transition_outcome
  transition s event = flatten (transition_outcome s event)
