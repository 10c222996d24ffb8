-- ===== src/Multi/Lives.antt =====
-- core/crates/client-evm/src/multi_chain_kernel.rs: what the chains of the kernel are, in every state that it reaches.
use armchair_analyst.Prelude.{
  ℕ, nat_eq, ◌≡◌, refl, sym, subst, Option, none, some, ◌⊎◌, inl, inr, List, [], ◌∷◌, lookup,
  remove, Option-cases,
}
use armchair_analyst.Pools.Keys.{BlockHash, ChainKey, chain_eq, PoolRef}
use armchair_analyst.Pools.Events.{PoolState}
use armchair_analyst.Graph.Fold.{BloomApi}
use armchair_analyst.Kernel.{State}
use armchair_analyst.Kernel.Transition.{
  Event, finalized_block_observed, ticked, inert, progressed, transition_outcome, transition,
  TransitionOutcome, flatten,
}
use armchair_analyst.Kernel.Transition.Life.{Lives-IsCoherent}
use armchair_analyst.Kernel.Transition.Feeds.{IsCoherent}
use armchair_analyst.Kernel.Reads.{OptimizationStateUpdate, canonical_path_len_from_finalized}
use armchair_analyst.Bootstrap.Machine.{
  BootstrapState, BootstrapEvent, Completion, activated, dropped, bootstrap_tick, bootstrap_init,
  completion, bootstrap_transition,
}
use armchair_analyst.Multi.{
  SubscriptionData, into_kernel_event, ChainLifecycle, bootstrapping, active, insert_chain,
  VirtualReserveValues, ChainPoolReserves, MultiState, MultiEvent, finalized_header_refreshed,
  finalized_header_unavailable, subscription_delivered, chain_moved, bootstrap_moved,
  optimization_step_completed, clock_ticked, MultiEffect,
}
use armchair_analyst.Multi.Policy.{bootstrap_policy}
use armchair_analyst.Multi.Reserves.{ProjectionMetadata, pool_reserves_for_optimization}
use armchair_analyst.Multi.Keyed.{All, remove-All, insert_chain-All, All-lookup}
use armchair_analyst.Multi.Machine.{
  Chains, LifecycleStep, with_chain_lifecycle, activate_bootstrap_outcome, multi_init_from,
  multi_init, replay_buffered, completed, advance_bootstrap, on_bootstrap_event,
  on_finalized_header_refreshed, buffer_subscription_data, dispatch_ready, dispatched,
  chain_outcome, chain_event, subscription_data, on_clock_ticked, tick_chains, multi_transition,
  multi_run,
}
use armchair_analyst.Multi.Grown.{
  Ran, Grown, Known, KnownOption, Grown-Lives, Ran-init, Ran-next, reinserted-Known,
}

module _ {R V P F Failure : Type 0} (api : BloomApi)
    (filler_hash : BlockHash → BlockHash → BlockHash)
    (values : PoolRef → PoolState → ProjectionMetadata → VirtualReserveValues F ⊎ Failure)
    (verify_plan : MultiState R V → P → V) where
  abbrev KnownHere : ChainKey → ChainLifecycle → Type 0
  KnownHere = Known api filler_hash

  abbrev KnownStep : ChainKey → Option ChainLifecycle → Type 0
  KnownStep = KnownOption api filler_hash

  with_chain_lifecycle-Known :
      (s : MultiState R V) (chain : ChainKey) (f : ChainLifecycle → LifecycleStep F)
      → ((lifecycle : ChainLifecycle) → KnownHere chain lifecycle → KnownStep chain (f lifecycle).0)
      → All KnownHere s.chains
      → All KnownHere (with_chain_lifecycle s chain f).0.chains
  unfolding with_chain_lifecycle
  with_chain_lifecycle-Known s chain f keeps h = elim (Option-cases (lookup chain s.chains)) [
    | inl absent ↦ rw (absent, with_chain_lifecycle) h
    | inr (lifecycle, found) ↦
        rw (found, with_chain_lifecycle)
          (reinserted-Known api filler_hash chain (f lifecycle).0 (remove chain s.chains)
            (keeps lifecycle (All-lookup KnownHere chain lifecycle s.chains h found))
            (remove-All KnownHere chain s.chains h))
  ]

  replay_buffered-Grown :
      (chain : ChainKey) (buffered : List SubscriptionData) (s : State)
      (effects : List (MultiEffect F))
      → Grown api filler_hash chain s
      → Grown api filler_hash chain
          (replay_buffered api filler_hash values verify_plan chain s buffered effects).0
  unfolding replay_buffered
  replay_buffered-Grown chain [] s effects g = g
  replay_buffered-Grown chain (delivered ∷ buffered) s effects g =
      replay_buffered-Grown chain buffered _ _ (Grown.moved s (into_kernel_event delivered) g refl)

  completed-Known :
      (chain : ChainKey) (s : BootstrapState) (buffered : List SubscriptionData)
      (effects : List (MultiEffect F)) (o : Option Completion)
      → Ran api filler_hash chain s
      → completion s ≡ o
      → KnownStep chain (completed api filler_hash values verify_plan chain s buffered effects o).0
  unfolding completed
  completed-Known chain s buffered effects none r e = r
  completed-Known chain s buffered effects (some dropped) r e = tt
  completed-Known chain s buffered effects (some (activated outcome)) r e =
      replay_buffered-Grown chain buffered (activate_bootstrap_outcome outcome).0 []
        (Grown.started s outcome r e refl)

  advance_bootstrap-Known :
      (chain : ChainKey) (s : BootstrapState) (buffered : List SubscriptionData)
      (event : BootstrapEvent)
      → Ran api filler_hash chain s
      → KnownStep chain
          (advance_bootstrap api filler_hash values verify_plan chain s buffered event).0
  unfolding advance_bootstrap
  advance_bootstrap-Known chain s buffered event r =
      let next = (bootstrap_transition filler_hash chain s event).0 in
      completed-Known chain next buffered _ (completion next)
        (Ran-next api filler_hash chain s event r) refl

  on_bootstrap_event-Known :
      (chain : ChainKey) (event : BootstrapEvent) (lifecycle : ChainLifecycle)
      → KnownHere chain lifecycle
      → KnownStep chain
          (on_bootstrap_event api filler_hash values verify_plan chain event lifecycle).0
  unfolding on_bootstrap_event
  on_bootstrap_event-Known chain event (bootstrapping s buffered) k =
      advance_bootstrap-Known chain s buffered event k
  on_bootstrap_event-Known chain event (active s) k = k

  on_finalized_header_refreshed-Known :
      (chain : ChainKey) (hash : BlockHash) (number : ℕ) (lifecycle : ChainLifecycle)
      → KnownHere chain lifecycle
      → KnownStep chain
          (on_finalized_header_refreshed api filler_hash values verify_plan chain hash number
            lifecycle).0
  unfolding on_finalized_header_refreshed
  on_finalized_header_refreshed-Known chain hash number (bootstrapping s buffered) k = k
  on_finalized_header_refreshed-Known chain hash number (active s) k =
      Grown.moved s (finalized_block_observed hash number) k refl

  on_clock_ticked-Known :
      (chain : ChainKey) (lifecycle : ChainLifecycle)
      → KnownHere chain lifecycle
      → KnownStep chain (on_clock_ticked api filler_hash values verify_plan chain lifecycle).0
  unfolding on_clock_ticked
  on_clock_ticked-Known chain (bootstrapping s buffered) k =
      advance_bootstrap-Known chain s buffered bootstrap_tick k
  on_clock_ticked-Known chain (active s) k = Grown.moved s ticked k refl

  buffer-Known :
      (chain : ChainKey) (delivered : SubscriptionData) (lifecycle : ChainLifecycle)
      → KnownHere chain lifecycle
      → KnownStep chain
          (buffer_subscription_data api filler_hash values verify_plan delivered lifecycle).0
  unfolding buffer_subscription_data
  buffer-Known chain delivered (bootstrapping s buffered) k = k
  buffer-Known chain delivered (active s) k = k

  tick_chains-Known :
      (rest chains : Chains) (effects : List (MultiEffect F))
      → All KnownHere rest
      → All KnownHere chains
      → All KnownHere (tick_chains api filler_hash values verify_plan rest chains effects).0
  unfolding tick_chains
  tick_chains-Known [] chains effects h hs = hs
  tick_chains-Known ((chain, lifecycle) ∷ rest) chains effects (k, h) hs =
      tick_chains-Known rest _ _ h (
        reinserted-Known api filler_hash chain _ chains (on_clock_ticked-Known chain lifecycle k)
          hs)

  ready_chains :
      (chain : ChainKey) (s : MultiState R V) (effects : List (MultiEffect F))
      (block_hash : BlockHash) (o : Option (ChainPoolReserves F) ⊎ Failure)
      → (dispatch_ready api filler_hash values verify_plan chain s effects block_hash o).0.chains
        ≡ s.chains
  unfolding dispatch_ready
  ready_chains chain s effects block_hash (inl (some reserves)) = refl
  ready_chains chain s effects block_hash (inl none) = refl
  ready_chains chain s effects block_hash (inr failure) = refl

  pub dispatched_chains :
      (chain : ChainKey) (s : MultiState R V) (effects : List (MultiEffect F))
      (o : Option OptimizationStateUpdate)
      → (dispatched api filler_hash values verify_plan chain s effects o).0.chains ≡ s.chains
  unfolding dispatched
  dispatched_chains chain s effects none = refl
  dispatched_chains chain s effects (some update) =
      ready_chains chain s effects update.block_hash
        (pool_reserves_for_optimization api values s.chains chain update)

  -- The map of the chains after a transition of an active one.
  pub chain_outcome_chains :
      (chain : ChainKey) (s : MultiState R V) (before_len : Option ℕ) (o : TransitionOutcome)
      → (chain_outcome api filler_hash values verify_plan chain s before_len o).0.chains
        ≡ insert_chain chain (active (flatten o).0) (remove chain s.chains)
  unfolding chain_outcome
  chain_outcome_chains chain s before_len (inert kept) = refl
  chain_outcome_chains chain s before_len (progressed (next, issued)) =
      dispatched_chains chain _ _ _

  chain_event-Known :
      (s : MultiState R V) (chain : ChainKey) (event : Event)
      → All KnownHere s.chains
      → All KnownHere (chain_event api filler_hash values verify_plan s chain event).0.chains
  unfolding chain_event transition
  chain_event-Known s chain event h = elim (Option-cases (lookup chain s.chains)) [
    | inl absent ↦ rw (absent, chain_event) h
    | inr (lifecycle, found) ↦ rw (found, chain_event) (present lifecycle found)
  ]
    where
      present :
          (lifecycle : ChainLifecycle)
          → lookup chain s.chains ≡ some lifecycle
          → All KnownHere
              (elim lifecycle as (λ _. MultiState R V × List (MultiEffect F)) [
                | bootstrapping b buffered ↦ (
                  record s {
                    chains = insert_chain chain (bootstrapping b buffered) (remove chain s.chains);
                  },
                  [],
                )
                | active before ↦
                    chain_outcome api filler_hash values verify_plan chain s
                      (canonical_path_len_from_finalized before)
                      (transition_outcome api chain before event)
              ]).0.chains
      present (bootstrapping b buffered) found =
          insert_chain-All KnownHere chain (bootstrapping b buffered) (remove chain s.chains)
            (All-lookup KnownHere chain (bootstrapping b buffered) s.chains h found)
            (remove-All KnownHere chain s.chains h)
      present (active before) found =
          subst (All KnownHere)
            (sym (
              chain_outcome_chains chain s (canonical_path_len_from_finalized before)
                (transition_outcome api chain before event)))
            (insert_chain-All KnownHere chain _ (remove chain s.chains)
              (Grown.moved before event
                (All-lookup KnownHere chain (active before) s.chains h found) refl)
              (remove-All KnownHere chain s.chains h))

  subscription_data-Known :
      (s : MultiState R V) (chain : ChainKey) (delivered : SubscriptionData)
      → All KnownHere s.chains
      → All KnownHere
          (subscription_data api filler_hash values verify_plan s chain delivered).0.chains
  unfolding subscription_data
  subscription_data-Known s chain delivered h = elim (Option-cases (lookup chain s.chains)) [
    | inl absent ↦
        rw (absent, subscription_data) (chain_event-Known s chain (into_kernel_event delivered) h)
    | inr (active before, found) ↦
        rw (found, subscription_data) (chain_event-Known s chain (into_kernel_event delivered) h)
    | inr (bootstrapping b buffered, found) ↦
        rw (found, subscription_data)
          (with_chain_lifecycle-Known s chain _ (buffer-Known chain delivered) h)
  ]

  multi_transition-Known :
      (s : MultiState R V) (event : MultiEvent R P)
      → All KnownHere s.chains
      → All KnownHere (multi_transition api filler_hash values verify_plan s event).0.chains
  unfolding multi_transition
  multi_transition-Known s (finalized_header_refreshed chain hash number) h =
      with_chain_lifecycle-Known s chain _ (on_finalized_header_refreshed-Known chain hash number) h
  multi_transition-Known s (finalized_header_unavailable chain) h = h
  multi_transition-Known s (subscription_delivered chain delivered) h =
      subscription_data-Known s chain delivered h
  multi_transition-Known s (chain_moved chain event) h = chain_event-Known s chain event h
  multi_transition-Known s (bootstrap_moved chain event) h =
      with_chain_lifecycle-Known s chain _ (on_bootstrap_event-Known chain event) h
  multi_transition-Known s (optimization_step_completed result plan) h = h
  multi_transition-Known s clock_ticked h = tick_chains-Known s.chains [] [] h tt

  multi_init_from-Known :
      (chain_keys : List ChainKey) (chains : Chains) (effects : List (MultiEffect F))
      → All KnownHere chains
      → All KnownHere
          (multi_init_from api filler_hash values verify_plan chain_keys chains effects).0
  unfolding multi_init_from
  multi_init_from-Known [] chains effects h = h
  multi_init_from-Known (chain ∷ rest) chains effects h = multi_init_from-Known rest _ _ (
      insert_chain-All KnownHere chain
        (bootstrapping (bootstrap_init (bootstrap_policy chain)).0 []) chains
        (Ran-init api filler_hash chain) h)

  run-Known :
      (events : List (MultiEvent R P)) (s : MultiState R V)
      → All KnownHere s.chains
      → All KnownHere (multi_run api filler_hash values verify_plan s events).chains
  unfolding multi_run
  run-Known [] s h = h
  run-Known (event ∷ events) s h = run-Known events _ (multi_transition-Known s event h)

  -- Whatever events reach the kernel of several chains, and in whatever order, each chain that is active has a
  -- state that its own kernel reaches from the outcome of a bootstrap of that chain, with the contract of its
  -- graph, and each chain that is not has a state that its bootstrap reaches.
  pub multi_run-Grown :
      (chain_keys : List ChainKey) (events : List (MultiEvent R P)) (chain : ChainKey)
      → let s =
          multi_run api filler_hash values verify_plan
            (multi_init api filler_hash values verify_plan chain_keys).0
            events in
        ((k : State)
          → lookup chain s.chains ≡ some (active k)
          → Grown api filler_hash chain k × IsCoherent chain k)
        × ((b : BootstrapState) (buffered : List SubscriptionData)
            → lookup chain s.chains ≡ some (bootstrapping b buffered)
            → Ran api filler_hash chain b)
  unfolding multi_init
  multi_run-Grown chain_keys events chain =
      let s =
        multi_run api filler_hash values verify_plan
          (multi_init api filler_hash values verify_plan chain_keys).0 events in
      let h : All KnownHere s.chains =
        run-Known events _ (multi_init_from-Known chain_keys [] [] tt) in
      (
        λ k found.
            let g = All-lookup KnownHere chain (active k) s.chains h found in
            (g, Lives-IsCoherent (Grown-Lives api filler_hash g)),
        λ b buffered found. All-lookup KnownHere chain (bootstrapping b buffered) s.chains h found,
      )
