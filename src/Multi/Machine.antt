-- ===== src/Multi/Machine.antt =====
-- core/crates/client-evm/src/multi_chain_kernel.rs: the transition of the chains side by side. The hash of a
-- filler block, the values of a pool (`f32`) and the verdict on a plan (`verify_plan`, a replay on `f32` amounts)
-- are parameters.
use armchair_analyst.Prelude.{
  ℕ, nat_eq, Option, none, some, ◌⊎◌, inl, List, [], ◌∷◌, ◌++◌, map, Map, lookup, remove,
  if◌then◌else◌,
}
use armchair_analyst.Pools.Keys.{BlockHash, ChainKey, chain_eq, PoolRef}
use armchair_analyst.Pools.Events.{PoolState}
use armchair_analyst.Graph.Fold.{BloomApi}
use armchair_analyst.Kernel.{State}
use armchair_analyst.Kernel.Schedule.{Effect, Scheduled}
use armchair_analyst.Kernel.Transition.{
  Event, finalized_block_observed, ticked, inert, progressed, activate_from_seed,
  transition_outcome, transition, TransitionOutcome,
}
use armchair_analyst.Kernel.Reads.{
  OptimizationStateUpdate, should_fetch_finalized_header, canonical_path_len_from_finalized,
  optimization_update_if_changed,
}
use armchair_analyst.Bootstrap.Requests.{AnyBootstrapIssued}
use armchair_analyst.Bootstrap.Machine.{
  BootstrapOutcome, BootstrapState, BootstrapEvent, Completion, activated, dropped, bootstrap_tick,
  bootstrap_init, completion, bootstrap_transition,
}
use armchair_analyst.Multi.{
  SubscriptionData, into_kernel_event, ChainLifecycle, bootstrapping, active, insert_chain,
  VirtualReserveValues, ChainPoolReserves, OptimizationPoolReserves, MultiState, MultiEvent,
  finalized_header_refreshed, finalized_header_unavailable, subscription_delivered, chain_moved,
  bootstrap_moved, optimization_step_completed, clock_ticked, MultiEffect, fetch_finalized_header,
  chain_effect, bootstrap_effect, run_optimization,
}
use armchair_analyst.Multi.Policy.{finalized_refresh_policy, bootstrap_policy}
use armchair_analyst.Multi.Reserves.{
  ProjectionMetadata, pool_reserves_for_optimization, merged_optimization_reserves,
}

abbrev pub Chains : Type 0
Chains = Map ChainKey ChainLifecycle

abbrev pub chain_effects : {F : Type 0} → ChainKey → List Effect → List (MultiEffect F)
chain_effects chain effects = map (chain_effect chain) effects

abbrev pub wrap_bootstrap_effects :
    {F : Type 0} → ChainKey → List AnyBootstrapIssued → List (MultiEffect F)
wrap_bootstrap_effects chain effects = map (bootstrap_effect chain) effects

-- A chain that is dropped is none.
abbrev pub LifecycleStep : Type 0 → Type 0
LifecycleStep F = Option ChainLifecycle × List (MultiEffect F)

-- The insertion of a chain after its removal.
unfoldable pub reinserted : ChainKey → Option ChainLifecycle → Chains → Chains
unfolding insert_chain
reinserted chain none chains = chains
reinserted chain (some lifecycle) chains = insert_chain chain lifecycle chains

unfoldable pub with_chain_lifecycle :
    {R V F : Type 0}
    → MultiState R V
    → ChainKey
    → (ChainLifecycle → LifecycleStep F)
    → MultiState R V × List (MultiEffect F)
unfolding reinserted lookup remove
with_chain_lifecycle s chain f = elim (lookup chain s.chains) [
  | none ↦ (s, [])
  | some lifecycle ↦
      let (next, effects) = f lifecycle in
      (record s { chains = reinserted chain next (remove chain s.chains) }, effects)
]

unfoldable pub activate_bootstrap_outcome : BootstrapOutcome → Scheduled
unfolding activate_from_seed
activate_bootstrap_outcome outcome =
    activate_from_seed outcome.anchor.hash outcome.anchor.number outcome.pool_snapshots
      outcome.pool_registry outcome.token_registry outcome.seed_blocks

module _ {R V P F Failure : Type 0} (api : BloomApi)
    (filler_hash : BlockHash → BlockHash → BlockHash)
    (values : PoolRef → PoolState → ProjectionMetadata → VirtualReserveValues F ⊎ Failure)
    (verify_plan : MultiState R V → P → V) where
  unfoldable pub multi_init_from :
      List ChainKey → Chains → List (MultiEffect F) → Chains × List (MultiEffect F)
  unfolding bootstrap_init bootstrap_policy insert_chain
  multi_init_from [] chains effects = (chains, effects)
  multi_init_from (chain ∷ rest) chains effects =
      let (s, issued) = bootstrap_init (bootstrap_policy chain) in
      multi_init_from rest (insert_chain chain (bootstrapping s []) chains)
        (effects ++ wrap_bootstrap_effects chain issued)

  -- `State::init`.
  unfoldable pub multi_init : List ChainKey → MultiState R V × List (MultiEffect F)
  unfolding multi_init_from
  multi_init chain_keys =
      let (chains, effects) = multi_init_from chain_keys [] [] in
      (
        record {
          chains = chains;
          latest_optimization_result = none;
          latest_plan_verification = none;
          last_optimized_block = [];
        },
        effects,
      )

  unfoldable pub replay_buffered :
      ChainKey → State → List SubscriptionData → List (MultiEffect F) → State × List (MultiEffect F)
  unfolding transition into_kernel_event
  replay_buffered chain s [] effects = (s, effects)
  replay_buffered chain s (delivered ∷ buffered) effects =
      let (s', issued) = transition api chain s (into_kernel_event delivered) in
      replay_buffered chain s' buffered (effects ++ chain_effects chain issued)

  -- The completion of a bootstrap on the lifecycle.
  unfoldable pub completed :
      ChainKey
      → BootstrapState
      → List SubscriptionData
      → List (MultiEffect F)
      → Option Completion
      → LifecycleStep F
  unfolding activate_bootstrap_outcome replay_buffered
  completed chain s buffered effects none = (some (bootstrapping s buffered), effects)
  completed chain s buffered effects (some dropped) = (none, effects)
  completed chain s buffered effects (some (activated outcome)) =
      let (seeded, issued) = activate_bootstrap_outcome outcome in
      let (replayed, replay_effects) = replay_buffered chain seeded buffered [] in
      (some (active replayed), effects ++ chain_effects chain issued ++ replay_effects)

  unfoldable pub advance_bootstrap :
      ChainKey → BootstrapState → List SubscriptionData → BootstrapEvent → LifecycleStep F
  unfolding bootstrap_transition completed completion
  advance_bootstrap chain s buffered event =
      let (s', issued) = bootstrap_transition filler_hash chain s event in
      completed chain s' buffered (wrap_bootstrap_effects chain issued) (completion s')

  unfoldable pub on_bootstrap_event : ChainKey → BootstrapEvent → ChainLifecycle → LifecycleStep F
  unfolding advance_bootstrap
  on_bootstrap_event chain event (bootstrapping s buffered) =
      advance_bootstrap chain s buffered event
  on_bootstrap_event chain event (active s) = (some (active s), [])

  unfoldable pub on_finalized_header_refreshed :
      ChainKey → BlockHash → ℕ → ChainLifecycle → LifecycleStep F
  unfolding transition
  on_finalized_header_refreshed chain hash number (bootstrapping s buffered) =
      (some (bootstrapping s buffered), [])
  on_finalized_header_refreshed chain hash number (active s) =
      let (s', issued) = transition api chain s (finalized_block_observed hash number) in
      (some (active s'), chain_effects chain issued)

  unfoldable pub buffer_subscription_data : SubscriptionData → ChainLifecycle → LifecycleStep F
  buffer_subscription_data delivered (bootstrapping s buffered) =
      (some (bootstrapping s (buffered ++ delivered ∷ [])), [])
  buffer_subscription_data delivered (active s) = (some (active s), [])

  -- An input without reserves is not run.
  unfoldable pub with_run : List (MultiEffect F) → OptimizationPoolReserves F → List (MultiEffect F)
  with_run effects input = elim input.reserves [
    | [] ↦ effects
    | reserve ∷ rest ↦ effects ++ run_optimization input ∷ []
  ]

  unfoldable pub dispatch_ready :
      ChainKey
      → MultiState R V
      → List (MultiEffect F)
      → BlockHash
      → Option (ChainPoolReserves F) ⊎ Failure
      → MultiState R V × List (MultiEffect F)
  unfolding merged_optimization_reserves insert_chain with_run
  dispatch_ready chain s effects block_hash (inl (some reserves)) = (
    record s { last_optimized_block = insert_chain chain block_hash s.last_optimized_block },
    with_run effects (merged_optimization_reserves api values s.chains chain reserves),
  )
  dispatch_ready chain s effects block_hash _ = (s, effects)

  -- The dispatch of the optimizer: only where the chain's frontier advanced and its projection is ready.
  unfoldable pub dispatched :
      ChainKey
      → MultiState R V
      → List (MultiEffect F)
      → Option OptimizationStateUpdate
      → MultiState R V × List (MultiEffect F)
  unfolding pool_reserves_for_optimization dispatch_ready
  dispatched chain s effects none = (s, effects)
  dispatched chain s effects (some update) =
      dispatch_ready chain s effects update.block_hash
        (pool_reserves_for_optimization api values s.chains chain update)

  -- What follows a transition of an active chain; an inert one is only put back.
  unfoldable pub chain_outcome :
      ChainKey
      → MultiState R V
      → Option ℕ
      → TransitionOutcome
      → MultiState R V × List (MultiEffect F)
  unfolding insert_chain remove canonical_path_len_from_finalized finalized_refresh_policy
      should_fetch_finalized_header optimization_update_if_changed lookup dispatched
  chain_outcome chain s before_len (inert moved) =
      (record s { chains = insert_chain chain (active moved) (remove chain s.chains) }, [])
  chain_outcome chain s before_len (progressed (moved, issued)) =
      let after_len = canonical_path_len_from_finalized moved in
      let policy = finalized_refresh_policy chain in
      let should_fetch =
        should_fetch_finalized_header before_len after_len policy.target_len policy.retry_stride in
      let effects =
        if should_fetch
        then chain_effects chain issued ++ fetch_finalized_header chain ∷ []
        else chain_effects chain issued in
      dispatched chain
        (record s { chains = insert_chain chain (active moved) (remove chain s.chains) }) effects
        (optimization_update_if_changed api moved chain (lookup chain s.last_optimized_block))

  unfoldable pub chain_event :
      MultiState R V → ChainKey → Event → MultiState R V × List (MultiEffect F)
  unfolding lookup remove insert_chain chain_outcome canonical_path_len_from_finalized
      transition_outcome
  chain_event s chain event = elim (lookup chain s.chains) [
    | none ↦ (s, [])
    | some (bootstrapping b buffered) ↦ (
      record s { chains = insert_chain chain (bootstrapping b buffered) (remove chain s.chains) },
      [],
    )
    | some (active before) ↦
        chain_outcome chain s (canonical_path_len_from_finalized before)
          (transition_outcome api chain before event)
  ]

  unfoldable pub subscription_data :
      MultiState R V → ChainKey → SubscriptionData → MultiState R V × List (MultiEffect F)
  unfolding lookup with_chain_lifecycle buffer_subscription_data chain_event into_kernel_event
  subscription_data s chain delivered = elim (lookup chain s.chains) [
    | none ↦ chain_event s chain (into_kernel_event delivered)
    | some (active before) ↦ chain_event s chain (into_kernel_event delivered)
    | some (bootstrapping b buffered) ↦
        with_chain_lifecycle s chain (buffer_subscription_data delivered)
  ]

  unfoldable pub on_clock_ticked : ChainKey → ChainLifecycle → LifecycleStep F
  unfolding advance_bootstrap transition
  on_clock_ticked chain (bootstrapping s buffered) =
      advance_bootstrap chain s buffered bootstrap_tick
  on_clock_ticked chain (active s) =
      let (s', issued) = transition api chain s ticked in
      (some (active s'), chain_effects chain issued)

  -- The fold over the chains, which builds the map anew.
  unfoldable pub tick_chains :
      Chains → Chains → List (MultiEffect F) → Chains × List (MultiEffect F)
  unfolding on_clock_ticked reinserted
  tick_chains [] chains effects = (chains, effects)
  tick_chains ((chain, lifecycle) ∷ rest) chains effects =
      let (next, issued) = on_clock_ticked chain lifecycle in
      tick_chains rest (reinserted chain next chains) (effects ++ issued)

  -- `transition`.
  unfoldable pub multi_transition :
      MultiState R V → MultiEvent R P → MultiState R V × List (MultiEffect F)
  unfolding with_chain_lifecycle on_finalized_header_refreshed subscription_data chain_event
      on_bootstrap_event tick_chains
  multi_transition s (finalized_header_refreshed chain hash number) =
      with_chain_lifecycle s chain (on_finalized_header_refreshed chain hash number)
  multi_transition s (finalized_header_unavailable chain) = (s, [])
  multi_transition s (subscription_delivered chain delivered) = subscription_data s chain delivered
  multi_transition s (chain_moved chain event) = chain_event s chain event
  multi_transition s (bootstrap_moved chain event) =
      with_chain_lifecycle s chain (on_bootstrap_event chain event)
  multi_transition s (optimization_step_completed result plan) = (
    record s {
      latest_optimization_result = some result;
      latest_plan_verification = elim plan [ none ↦ none | some p ↦ some (verify_plan s p) ];
    },
    [],
  )
  multi_transition s clock_ticked =
      let (chains, effects) = tick_chains s.chains [] [] in (record s { chains = chains }, effects)

  -- The events in their order.
  unfoldable pub multi_run : MultiState R V → List (MultiEvent R P) → MultiState R V
  unfolding multi_transition
  multi_run s [] = s
  multi_run s (event ∷ events) = multi_run (multi_transition s event).0 events
