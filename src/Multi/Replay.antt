-- ===== src/Multi/Replay.antt =====
-- core/crates/client-evm/src/multi_chain_kernel.rs: what is delivered during a bootstrap is replayed at its end.
pub mod Events
pub mod Delivered
use armchair_analyst.Prelude.{
  ℕ, nat_eq, ◌≡◌, ◌∙◌, refl, sym, ap, none, some, ◌⊎◌, List, [], ◌∷◌, ◌++◌, ◌==◌, lookup, remove,
  UniqueKeys, if◌then◌else◌,
}
use armchair_analyst.Pools.Keys.{BlockHash, ChainKey, chain_eq, chain_beq_iff, PoolRef}
use armchair_analyst.Pools.Events.{PoolState}
use armchair_analyst.Graph.Fold.{BloomApi}
use armchair_analyst.Kernel.{State}
use armchair_analyst.Kernel.Transition.{Event, transition}
use armchair_analyst.Bootstrap.Machine.{
  BootstrapOutcome, BootstrapState, BootstrapEvent, bootstrap_tick, activated, completion,
  bootstrap_transition,
}
use armchair_analyst.Multi.{
  SubscriptionData, into_kernel_event, ChainLifecycle, bootstrapping, active, insert_chain,
  VirtualReserveValues, MultiState, MultiEvent, finalized_header_refreshed, subscription_delivered,
  chain_moved, bootstrap_moved, clock_ticked, MultiEffect,
}
use armchair_analyst.Multi.Reserves.{ProjectionMetadata}
use armchair_analyst.Multi.Machine.{
  Chains, LifecycleStep, reinserted, with_chain_lifecycle, activate_bootstrap_outcome,
  replay_buffered, completed, advance_bootstrap, on_bootstrap_event, on_finalized_header_refreshed,
  buffer_subscription_data, chain_event, subscription_data, on_clock_ticked, multi_transition,
}
use armchair_analyst.Multi.Keyed.{lookup-insert_chain}
use armchair_analyst.Multi.Ticks.{tick_chains_found}

module _ {R V P F Failure : Type 0} (api : BloomApi)
    (filler_hash : BlockHash → BlockHash → BlockHash)
    (values : PoolRef → PoolState → ProjectionMetadata → VirtualReserveValues F ⊎ Failure)
    (verify_plan : MultiState R V → P → V) where
  -- The deliveries as transitions of an active chain, in their order.
  abbrev pub fed : ChainKey → State → List SubscriptionData → State
  fed chain s [] = s
  fed chain s (delivered ∷ later) =
      fed chain (transition api chain s (into_kernel_event delivered)).0 later

  replayed-fed :
      (chain : ChainKey) (buffered : List SubscriptionData) (s : State)
      (effects : List (MultiEffect F))
      → (replay_buffered api filler_hash values verify_plan chain s buffered effects).0
        ≡ fed chain s buffered
  unfolding replay_buffered
  replayed-fed chain [] s effects = refl
  replayed-fed chain (delivered ∷ buffered) s effects = replayed-fed chain buffered _ _

  inserted_self :
      (chain : ChainKey) (lifecycle : ChainLifecycle) (m : Chains)
      → lookup chain (insert_chain chain lifecycle m) ≡ some lifecycle
  inserted_self chain lifecycle m =
      lookup-insert_chain chain chain lifecycle m
      ∙ ap (λ b. if b then some lifecycle else lookup chain m) ((chain_beq_iff chain chain).1 refl)

  pub advanced_running :
      (chain : ChainKey) (b : BootstrapState) (buffered : List SubscriptionData)
      (event : BootstrapEvent)
      → completion (bootstrap_transition filler_hash chain b event).0 ≡ none
      → (advance_bootstrap api filler_hash values verify_plan chain b buffered event).0
        ≡ some (bootstrapping (bootstrap_transition filler_hash chain b event).0 buffered)
  unfolding advance_bootstrap completed
  advanced_running chain b buffered event runs = rw (runs, completed, advance_bootstrap) refl

  pub advanced_activated :
      (chain : ChainKey) (b : BootstrapState) (buffered : List SubscriptionData)
      (event : BootstrapEvent) (outcome : BootstrapOutcome)
      → completion (bootstrap_transition filler_hash chain b event).0 ≡ some (activated outcome)
      → (advance_bootstrap api filler_hash values verify_plan chain b buffered event).0
        ≡ some (active (fed chain (activate_bootstrap_outcome outcome).0 buffered))
  unfolding advance_bootstrap completed
  advanced_activated chain b buffered event outcome ended =
      rw (ended, completed, advance_bootstrap)
        (ap (λ k. some (active k)) (replayed-fed chain buffered _ []))

  -- The chain's new lifecycle is what its map holds.
  lifecycle_self :
      (s : MultiState R V) (chain : ChainKey) (f : ChainLifecycle → LifecycleStep F)
      (old new : ChainLifecycle)
      → lookup chain s.chains ≡ some old
      → (f old).0 ≡ some new
      → lookup chain (with_chain_lifecycle s chain f).0.chains ≡ some new
  unfolding with_chain_lifecycle reinserted
  lifecycle_self s chain f old new found next =
      rw (found, with_chain_lifecycle)
        (ap (λ o. lookup chain (reinserted chain o (remove chain s.chains))) next
          ∙ inserted_self chain new (remove chain s.chains))

  pub moved_self :
      (s : MultiState R V) (chain : ChainKey) (b : BootstrapState)
      (buffered : List SubscriptionData) (event : BootstrapEvent) (new : ChainLifecycle)
      → lookup chain s.chains ≡ some (bootstrapping b buffered)
      → (advance_bootstrap api filler_hash values verify_plan chain b buffered event).0 ≡ some new
      → lookup chain
          (multi_transition api filler_hash values verify_plan s
            (bootstrap_moved chain event)).0.chains
        ≡ some new
  unfolding multi_transition on_bootstrap_event
  moved_self s chain b buffered event new found next =
      lifecycle_self s chain (on_bootstrap_event api filler_hash values verify_plan chain event)
        (bootstrapping b buffered) new found next

  pub ticked_self :
      (s : MultiState R V) (chain : ChainKey) (b : BootstrapState)
      (buffered : List SubscriptionData) (new : ChainLifecycle)
      → UniqueKeys s.chains
      → lookup chain s.chains ≡ some (bootstrapping b buffered)
      → (advance_bootstrap api filler_hash values verify_plan chain b buffered bootstrap_tick).0
        ≡ some new
      → lookup chain (multi_transition api filler_hash values verify_plan s clock_ticked).0.chains
        ≡ some new
  unfolding multi_transition on_clock_ticked
  ticked_self s chain b buffered new unique found next =
      tick_chains_found api filler_hash values verify_plan chain s.chains [] []
        (bootstrapping b buffered) new unique found next

  pub buffered_chain :
      (s : MultiState R V) (chain : ChainKey) (b : BootstrapState)
      (buffered : List SubscriptionData) (delivered : SubscriptionData)
      → lookup chain s.chains ≡ some (bootstrapping b buffered)
      → lookup chain
          (multi_transition api filler_hash values verify_plan s
            (subscription_delivered chain delivered)).0.chains
        ≡ some (bootstrapping b (buffered ++ delivered ∷ []))
  unfolding multi_transition subscription_data with_chain_lifecycle buffer_subscription_data
      reinserted
  buffered_chain s chain b buffered delivered found =
      rw (found, subscription_data)
        (rw (found, with_chain_lifecycle) (inserted_self chain _ (remove chain s.chains)))

  pub refreshed_chain :
      (s : MultiState R V) (chain : ChainKey) (b : BootstrapState)
      (buffered : List SubscriptionData) (hash : BlockHash) (number : ℕ)
      → lookup chain s.chains ≡ some (bootstrapping b buffered)
      → lookup chain
          (multi_transition api filler_hash values verify_plan s
            (finalized_header_refreshed chain hash number)).0.chains
        ≡ some (bootstrapping b buffered)
  unfolding multi_transition on_finalized_header_refreshed
  refreshed_chain s chain b buffered hash number found =
      lifecycle_self s chain
        (on_finalized_header_refreshed api filler_hash values verify_plan chain hash number)
        (bootstrapping b buffered) (bootstrapping b buffered) found refl

  pub event_chain :
      (s : MultiState R V) (chain : ChainKey) (b : BootstrapState)
      (buffered : List SubscriptionData) (event : Event)
      → lookup chain s.chains ≡ some (bootstrapping b buffered)
      → lookup chain
          (multi_transition api filler_hash values verify_plan s (chain_moved chain event)).0.chains
        ≡ some (bootstrapping b buffered)
  unfolding multi_transition chain_event
  event_chain s chain b buffered event found =
      rw (found, chain_event) (inserted_self chain _ (remove chain s.chains))
