-- ===== src/Multi.antt =====
-- core/crates/client-evm/src/multi_chain_kernel.rs: the chains side by side, each in its bootstrap or under its
-- kernel. The numbers of the optimizer are `f32`, a type that stays a parameter, and its results and plans are
-- of another crate: their types are parameters too. The map of the chains is the list of its entries in the
-- order of the chains.
pub mod Policy
pub mod Reserves
pub mod Machine
pub mod Keyed
pub mod Grown
pub mod Lives
pub mod Isolation
pub mod Ticks
pub mod Sorted
pub mod Replay
mod Examples
use armchair_analyst.Prelude.{
  ℕ, Bool, Option, none, some, List, [], ◌∷◌, ◌++◌, ◌==◌, ltb, Map, lookup, length, if◌then◌else◌,
}
use armchair_analyst.Pools.Keys.{
  BlockHash, Bloom, ChainKey, chain_eq, chain_index, PoolRef, TokenAddress,
}
use armchair_analyst.Pools.Events.{PoolLog}
use armchair_analyst.Kernel.{State}
use armchair_analyst.Kernel.Schedule.{Effect}
use armchair_analyst.Kernel.Transition.{Event, head_observed, logs_observed}
use armchair_analyst.Kernel.Reads.{
  verified_pool_count, blocks_behind, canonical_path_len_from_finalized, in_flight_request_count,
}
use armchair_analyst.Bootstrap.Requests.{AnyBootstrapIssued}
use armchair_analyst.Bootstrap.Machine.{BootstrapState, BootstrapEvent}

pub data SubscriptionData : Type 0 where
  new_head : (hash parent : BlockHash) (logs_bloom : Bloom) (number : ℕ) → SubscriptionData
  pool_log : (block_hash : BlockHash) (logs : List PoolLog) → SubscriptionData

unfoldable pub into_kernel_event : SubscriptionData → Event
into_kernel_event (new_head hash parent logs_bloom number) =
    head_observed hash parent logs_bloom number
into_kernel_event (pool_log block_hash logs) = logs_observed block_hash logs

pub data ChainLifecycle : Type 0 where
  bootstrapping : BootstrapState → (buffered : List SubscriptionData) → ChainLifecycle
  active : State → ChainLifecycle

-- `BTreeMap::insert`, by the order of the chains.
unfoldable pub insert_chain : {V : Type 0} → ChainKey → V → Map ChainKey V → Map ChainKey V
insert_chain chain v [] = (chain, v) ∷ []
insert_chain chain v ((other, w) ∷ chains) =
    if ltb (chain_index chain) (chain_index other)
    then (chain, v) ∷ (other, w) ∷ chains
    else if chain == other
    then (chain, v) ∷ chains
    else (other, w) ∷ insert_chain chain v chains

pub record VirtualReserveValues (F : Type 0) : Type 0 where
  pub token_0 : F
  pub token_1 : F
  pub fee_multiplier : F
  pub max_swap_0 : F
  pub max_swap_1 : F

pub record PoolReserves (F : Type 0) : Type 0 where
  pub token0 : TokenAddress
  pub token1 : TokenAddress
  pub pool_id : PoolRef
  pub value : VirtualReserveValues F

pub record ChainPoolReserves (F : Type 0) : Type 0 where
  pub block_hash : BlockHash
  pub reserves : List (PoolReserves F)

pub record OptimizationPoolReserves (F : Type 0) : Type 0 where
  pub block_hashes : Map ChainKey BlockHash
  pub reserves : List (PoolReserves F)

-- `State`: `R` stands for a result of the optimizer and `V` for the verdict on its plan.
pub record MultiState (R V : Type 0) : Type 0 where
  pub chains : Map ChainKey ChainLifecycle
  pub latest_optimization_result : Option R
  pub latest_plan_verification : Option V
  pub last_optimized_block : Map ChainKey BlockHash

pub data MultiEvent (R P : Type 0) : Type 0 where
  finalized_header_refreshed : ChainKey → BlockHash → (number : ℕ) → MultiEvent R P
  finalized_header_unavailable : ChainKey → MultiEvent R P
  subscription_delivered : ChainKey → SubscriptionData → MultiEvent R P
  chain_moved : ChainKey → Event → MultiEvent R P
  bootstrap_moved : ChainKey → BootstrapEvent → MultiEvent R P
  optimization_step_completed : R → (plan : Option P) → MultiEvent R P
  clock_ticked : MultiEvent R P

pub data MultiEffect (F : Type 0) : Type 0 where
  fetch_finalized_header : ChainKey → MultiEffect F
  chain_effect : ChainKey → Effect → MultiEffect F
  bootstrap_effect : ChainKey → AnyBootstrapIssued → MultiEffect F
  run_optimization : OptimizationPoolReserves F → MultiEffect F

pub data ChainStatus : Type 0 where
  initializing_chain active_chain : ChainStatus

abbrev pub status_of : ChainLifecycle → ChainStatus
status_of (bootstrapping s buffered) = initializing_chain
status_of (active s) = active_chain

unfoldable pub chain_status : {R V : Type 0} → MultiState R V → ChainKey → Option ChainStatus
unfolding lookup
chain_status s chain = elim (lookup chain s.chains) [
  | none ↦ none
  | some lifecycle ↦ some (status_of lifecycle)
]

pub record ChainProgress : Type 0 where
  pub verified_pools : ℕ
  pub blocks_behind_tip : Option ℕ
  pub canonical_window : Option ℕ
  pub in_flight_requests : ℕ
  pub ws_misses : ℕ

pub data ChainObservation : Type 0 where
  initializing : (buffered_events : ℕ) → ChainObservation
  progress : ChainProgress → ChainObservation

unfoldable pub observe_chain : ChainLifecycle → Option BlockHash → ChainObservation
unfolding verified_pool_count blocks_behind canonical_path_len_from_finalized
    in_flight_request_count
observe_chain (bootstrapping s buffered) last_optimized = initializing (length buffered)
observe_chain (active s) last_optimized = progress (record {
  verified_pools = verified_pool_count s;
  blocks_behind_tip = elim last_optimized [
    | none ↦ none
    | some reference ↦ blocks_behind s reference
  ];
  canonical_window = canonical_path_len_from_finalized s;
  in_flight_requests = in_flight_request_count s;
  ws_misses = s.ws_miss_count;
})

unfoldable pub observe_from :
    Map ChainKey BlockHash → Map ChainKey ChainLifecycle → List (ChainKey × ChainObservation)
unfolding observe_chain lookup
observe_from last_optimized [] = []
observe_from last_optimized ((chain, lifecycle) ∷ chains) =
    (chain, observe_chain lifecycle (lookup chain last_optimized))
    ∷ observe_from last_optimized chains

unfoldable pub observe : {R V : Type 0} → MultiState R V → List (ChainKey × ChainObservation)
unfolding observe_from
observe s = observe_from s.last_optimized_block s.chains
