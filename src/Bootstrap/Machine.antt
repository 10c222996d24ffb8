-- ===== src/Bootstrap/Machine.antt =====
-- core/crates/client-evm/src/bootstrap/mod.rs: the phases of a bootstrap, one event at a time. A hash set is
-- the list of its elements in some order; the map of a snapshot is an association list.
pub mod Sole
pub mod Idle
pub mod Ended
pub mod Fits
pub mod Waits
pub mod Steps
pub mod Sequential
pub mod Seeded
pub mod Deadline
use armchair_analyst.Prelude.{
  ℕ, nat_eq, Bool, true, false, not, ◌&&◌, ◌||◌, Option, none, some, inl, inr, List, [], ◌∷◌, ◌++◌,
  leb, Map, contains, is_some, if◌then◌else◌,
}
use armchair_analyst.Pools.Keys.{
  BlockHash, ChainKey, ProtocolPoolKey, pool_key_eq, TokenAddress, token_eq,
}
use armchair_analyst.Pools.Events.{PoolLog}
use armchair_analyst.Graph.Admission.{SeedBlock}
use armchair_analyst.Graph.Fold.{Snapshot}
use armchair_analyst.Requests.Tick.{Tick, initial, next, elapsed_since}
use armchair_analyst.Requests.Tracking.{
  RequestId, RequestStore, IssuedRequest, issue_request, take_request,
}
use armchair_analyst.Requests.Pending.{GetPoolMetadata, GetTokenMetadata}
use armchair_analyst.Market.Metadata.{PoolMetadataResult, TokenMetadataResult}
use armchair_analyst.Market.Registries.{
  TrustedPoolRegistry, empty_pools, with_pool_results, TokenRegistry, empty_tokens,
  with_token_results, insert_candidate,
}
use armchair_analyst.Bootstrap.Window.{RangeLogBlock, FinalizedAnchor, from_window}
use armchair_analyst.Bootstrap.Requests.{
  GetFinalizedHeader, get_finalized_header, GetPoolCandidatesInRange, AnyBootstrapId,
  AnyBootstrapIssued, finalized_header_issued, pool_candidates_issued, validation_issued,
  resolution_issued, BootstrapRequests, no_bootstrap_requests, finalized_header_store,
  pool_candidates_store, validation_store, resolution_store, retry_bootstrap,
  retry_bootstrap_expired, option_list,
}

pub record BootstrapPolicy : Type 0 where
  pub tip_trim : ℕ
  pub deadline_ticks : ℕ

-- `VerifiedPools`.
abbrev pub VerifiedPools : Type 0
VerifiedPools = Map ProtocolPoolKey PoolMetadataResult

abbrev pub insert_address : TokenAddress → List TokenAddress → List TokenAddress
insert_address token tokens = if contains token tokens then tokens else token ∷ tokens

unfoldable pub referenced_tokens : VerifiedPools → ChainKey → List TokenAddress
referenced_tokens [] chain = []
referenced_tokens ((key, inl metadata) ∷ verified) chain =
    insert_address (record { address = metadata.token0; chain = chain })
      (insert_address (record { address = metadata.token1; chain = chain })
        (referenced_tokens verified chain))
referenced_tokens ((key, inr failure) ∷ verified) chain = referenced_tokens verified chain

unfoldable pub into_registry : VerifiedPools → ChainKey → TrustedPoolRegistry
unfolding with_pool_results empty_pools
into_registry verified chain = with_pool_results chain empty_pools verified

pub record BootstrapOutcome : Type 0 where
  pub anchor : FinalizedAnchor
  pub pool_snapshots : Snapshot
  pub pool_registry : TrustedPoolRegistry
  pub token_registry : TokenRegistry
  pub seed_blocks : List SeedBlock

pub data Completion : Type 0 where
  activated : BootstrapOutcome → Completion
  dropped : Completion

pub data Phase : Type 0 where
  anchoring_chain : Phase
  discovering : FinalizedAnchor → (blocks : List RangeLogBlock) → Phase
  validating_pools : FinalizedAnchor → (seed : List SeedBlock) → Phase
  resolving_tokens : FinalizedAnchor → (seed : List SeedBlock) → VerifiedPools → Phase
  ready : BootstrapOutcome → Phase
  abandoned : Phase

pub record BootstrapState : Type 0 where
  pub pending : BootstrapRequests
  pub phase : Phase
  pub policy : BootstrapPolicy
  pub started_at : Tick
  pub tick : Tick

pub data BootstrapEvent : Type 0 where
  finalized_header_received : (request_id : RequestId) → FinalizedAnchor → BootstrapEvent
  pool_candidates_received :
      (request_id : RequestId) (blocks : List RangeLogBlock) (scan_tip : ℕ) (next_from : Option ℕ)
      → BootstrapEvent
  pools_validated :
      (request_id : RequestId) → Map ProtocolPoolKey PoolMetadataResult → BootstrapEvent
  tokens_resolved : (request_id : RequestId) → Map TokenAddress TokenMetadataResult → BootstrapEvent
  bootstrap_request_failed : AnyBootstrapId → BootstrapEvent
  bootstrap_tick : BootstrapEvent

abbrev pub BootstrapStep : Type 0
BootstrapStep = BootstrapState × List AnyBootstrapIssued

-- `init`.
unfoldable pub bootstrap_init : BootstrapPolicy → BootstrapStep
unfolding issue_request no_bootstrap_requests initial
bootstrap_init policy =
    let (pending, id) = issue_request no_bootstrap_requests get_finalized_header initial in
    (
      record {
        pending = pending;
        phase = anchoring_chain;
        policy = policy;
        started_at = initial;
        tick = initial;
      },
      finalized_header_issued (record { request_id = id; request_payload = get_finalized_header })
          ∷ [],
    )

unfoldable pub completion : BootstrapState → Option Completion
completion s = elim s.phase [
  | ready outcome ↦ some (activated outcome)
  | abandoned ↦ some dropped
  | _ ↦ none
]

-- `rebuild`, in a state with the policy and the clock of another.
abbrev pub rebuild : BootstrapState → BootstrapRequests → Phase → BootstrapState
rebuild s pending phase = record s { pending = pending; phase = phase }

-- A new request, and the phase that waits for it (the calls of `with_new_request`, `rebuild` and `issued`).
unfoldable pub advanced :
    {R : Type 0} ⦃m : RequestStore BootstrapRequests R⦄
    → (IssuedRequest R → AnyBootstrapIssued)
    → BootstrapState
    → BootstrapRequests
    → R
    → Phase
    → BootstrapStep
unfolding issue_request
advanced wrap s pending payload phase =
    let (pending', id) = issue_request pending payload s.tick in
    (rebuild s pending' phase, wrap (record { request_id = id; request_payload = payload }) ∷ [])

unfoldable pub candidates_of : List PoolLog → List ProtocolPoolKey
candidates_of [] = []
candidates_of (log ∷ logs) = insert_candidate log.pool (candidates_of logs)

abbrev pub all_logs : List RangeLogBlock → List PoolLog
all_logs [] = []
all_logs (block ∷ blocks) = block.logs ++ all_logs blocks

-- The outcome with nothing resolved.
abbrev pub unresolved : FinalizedAnchor → TrustedPoolRegistry → List SeedBlock → BootstrapOutcome
unresolved anchor pools seed = record {
  anchor = anchor;
  pool_snapshots = [];
  pool_registry = pools;
  token_registry = empty_tokens;
  seed_blocks = seed;
}

abbrev pub is_terminal : Phase → Bool
is_terminal (ready outcome) = true
is_terminal abandoned = true
is_terminal _ = false

module _ (filler_hash : BlockHash → BlockHash → BlockHash) where
  unfoldable pub degraded : ChainKey → Phase → ℕ → Phase
  unfolding from_window empty_pools into_registry
  degraded chain anchoring_chain tip_trim = abandoned
  degraded chain (discovering anchor blocks) tip_trim =
      ready (unresolved anchor empty_pools (from_window filler_hash blocks anchor tip_trim))
  degraded chain (validating_pools anchor seed) tip_trim =
      ready (unresolved anchor empty_pools seed)
  degraded chain (resolving_tokens anchor seed verified) tip_trim =
      ready (unresolved anchor (into_registry verified chain) seed)
  degraded chain (ready outcome) tip_trim = ready outcome
  degraded chain abandoned tip_trim = abandoned

  -- The arms of the answers, with whether the answer's request was in flight.
  unfoldable pub on_finalized_header :
      BootstrapState → BootstrapRequests → Bool → FinalizedAnchor → BootstrapStep
  unfolding advanced
  on_finalized_header s pending false anchor = (rebuild s pending s.phase, [])
  on_finalized_header s pending true anchor = elim s.phase [
    | anchoring_chain ↦
        advanced pool_candidates_issued s pending
          (record { from_block = anchor.number; scan_tip = none }) (discovering anchor [])
    | phase ↦ (rebuild s pending phase, [])
  ]

  unfoldable pub on_pool_candidates :
      BootstrapState → BootstrapRequests → Bool → List RangeLogBlock → ℕ → Option ℕ → BootstrapStep
  unfolding advanced candidates_of from_window
  on_pool_candidates s pending false blocks scan_tip next_from = (rebuild s pending s.phase, [])
  on_pool_candidates s pending true blocks scan_tip next_from = elim s.phase [
    | discovering anchor found ↦
        let accumulated = found ++ blocks in
        elim next_from [
          | some from_block ↦
              advanced pool_candidates_issued s pending
                (record { from_block = from_block; scan_tip = some scan_tip })
                (discovering anchor accumulated)
          | none ↦
              advanced validation_issued s pending
                (record {
                  block_at = anchor.hash;
                  candidates = candidates_of (all_logs accumulated);
                })
                (validating_pools anchor
                  (from_window filler_hash accumulated anchor s.policy.tip_trim))
        ]
    | phase ↦ (rebuild s pending phase, [])
  ]

  unfoldable pub on_pools_validated :
      ChainKey
      → BootstrapState
      → BootstrapRequests
      → Bool
      → Map ProtocolPoolKey PoolMetadataResult
      → BootstrapStep
  unfolding advanced referenced_tokens
  on_pools_validated chain s pending false metadata = (rebuild s pending s.phase, [])
  on_pools_validated chain s pending true metadata = elim s.phase [
    | validating_pools anchor seed ↦
        advanced resolution_issued s pending
          (record { block_at = anchor.hash; tokens = referenced_tokens metadata chain })
          (resolving_tokens anchor seed metadata)
    | phase ↦ (rebuild s pending phase, [])
  ]

  unfoldable pub on_tokens_resolved :
      ChainKey
      → BootstrapState
      → BootstrapRequests
      → Bool
      → Map TokenAddress TokenMetadataResult
      → BootstrapStep
  unfolding into_registry with_token_results empty_tokens
  on_tokens_resolved chain s pending false metadata = (rebuild s pending s.phase, [])
  on_tokens_resolved chain s pending true metadata = elim s.phase [
    | resolving_tokens anchor seed verified ↦ (
      rebuild s pending (
          ready (record {
            anchor = anchor;
            pool_snapshots = [];
            pool_registry = into_registry verified chain;
            token_registry = with_token_results empty_tokens metadata;
            seed_blocks = seed;
          })),
      [],
    )
    | phase ↦ (rebuild s pending phase, [])
  ]

  unfoldable pub on_bootstrap_tick : ChainKey → BootstrapState → BootstrapStep
  unfolding next elapsed_since degraded retry_bootstrap_expired
  on_bootstrap_tick chain s =
      let tick = next s.tick in
      if is_terminal s.phase
      then (record s { tick = tick }, [])
      else if leb s.policy.deadline_ticks (elapsed_since tick s.started_at)
      then (record s { tick = tick; phase = degraded chain s.phase s.policy.tip_trim }, [])
      else (let (pending, issued) = retry_bootstrap_expired s.pending tick in
          (record s { tick = tick; pending = pending }, issued))

  -- `transition`.
  unfoldable pub bootstrap_transition : ChainKey → BootstrapState → BootstrapEvent → BootstrapStep
  unfolding take_request on_finalized_header on_pool_candidates on_pools_validated
      on_tokens_resolved retry_bootstrap on_bootstrap_tick
  bootstrap_transition chain s (finalized_header_received id anchor) =
      let (pending, taken) = take_request {R = GetFinalizedHeader} s.pending id in
      on_finalized_header s pending (is_some taken) anchor
  bootstrap_transition chain s (pool_candidates_received id blocks scan_tip next_from) =
      let (pending, taken) = take_request {R = GetPoolCandidatesInRange} s.pending id in
      on_pool_candidates s pending (is_some taken) blocks scan_tip next_from
  bootstrap_transition chain s (pools_validated id metadata) =
      let (pending, taken) = take_request {R = GetPoolMetadata} s.pending id in
      on_pools_validated chain s pending (is_some taken) metadata
  bootstrap_transition chain s (tokens_resolved id metadata) =
      let (pending, taken) = take_request {R = GetTokenMetadata} s.pending id in
      on_tokens_resolved chain s pending (is_some taken) metadata
  bootstrap_transition chain s (bootstrap_request_failed id) =
      let (pending, issued) = retry_bootstrap s.pending id s.tick in
      (record s { pending = pending }, option_list issued)
  bootstrap_transition chain s bootstrap_tick = on_bootstrap_tick chain s

  -- The events in their order.
  unfoldable pub bootstrap_run : ChainKey → BootstrapState → List BootstrapEvent → BootstrapState
  unfolding bootstrap_transition
  bootstrap_run chain s [] = s
  bootstrap_run chain s (event ∷ events) =
      bootstrap_run chain (bootstrap_transition chain s event).0 events
