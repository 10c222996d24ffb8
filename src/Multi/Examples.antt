-- ===== src/Multi/Examples.antt =====
-- core/crates/client-evm/src/multi_chain_kernel.rs: two chains, of which one is activated while a head waits.
use armchair_analyst.Prelude.{
  ℕ, ◌≡◌, refl, none, some, ◌⊎◌, inr, List, [], ◌∷◌, ◌++◌, arith, nat_eq, lookup, insert, remove,
  contains_key,
}
use armchair_analyst.Pools.Keys.{ChainKey, chain_eq, ethereum, base, PoolRef}
use armchair_analyst.Pools.Events.{PoolState}
use armchair_analyst.Graph.Runs.{equal_blooms}
use armchair_analyst.Graph.Types.{new, node_parent_hash}
use armchair_analyst.Graph.Admission.{with_block_capped, with_data_capped, with_observed_head}
use armchair_analyst.Graph.Queries.{pool_log_candidates_from_head}
use armchair_analyst.Graph.Walks.{present_chain_from_head}
use armchair_analyst.Kernel.{State}
use armchair_analyst.Kernel.Transition.{ticked}
use armchair_analyst.Kernel.Transition.Feeds.{IsCoherent}
use armchair_analyst.Bootstrap.Examples.{filler, finalized, window}
use armchair_analyst.Bootstrap.Machine.{
  BootstrapState, BootstrapEvent, BootstrapOutcome, activated, finalized_header_received,
  pool_candidates_received, pools_validated, tokens_resolved, bootstrap_init, bootstrap_run,
  bootstrap_transition, completion,
}
use armchair_analyst.Multi.{
  SubscriptionData, new_head, bootstrapping, active, VirtualReserveValues, MultiState, MultiEvent,
  subscription_delivered, chain_moved, bootstrap_moved, chain_status, active_chain,
}
use armchair_analyst.Multi.Policy.{bootstrap_policy}
use armchair_analyst.Multi.Reserves.{ProjectionMetadata}
use armchair_analyst.Multi.Machine.{
  activate_bootstrap_outcome, multi_init, multi_run, multi_transition,
}
use armchair_analyst.Multi.Grown.{Ran, Grown}
use armchair_analyst.Multi.Lives.{multi_run-Grown}
use armchair_analyst.Multi.Isolation.{multi_transition-About}
use armchair_analyst.Multi.Replay.{fed}
use armchair_analyst.Multi.Replay.Events.{bootstrap_events}
use armchair_analyst.Multi.Replay.Delivered.{multi_run-fed}

-- Reserves of natural numbers, of which there are none, and plans that are their own verdicts.
abbrev no_values : PoolRef → PoolState → ProjectionMetadata → VirtualReserveValues ℕ ⊎ ℕ
no_values pool pool_state metadata = inr 0

abbrev plan_itself : MultiState ℕ ℕ → ℕ → ℕ
plan_itself s plan = plan

abbrev chains : List ChainKey
chains = base ∷ ethereum ∷ []

abbrev to_tokens : List BootstrapEvent
to_tokens =
    finalized_header_received 1 finalized
    ∷ pool_candidates_received 2 window 15 none
    ∷ pools_validated 3 []
    ∷ []

abbrev waiting : BootstrapState
waiting = bootstrap_run filler base (bootstrap_init (bootstrap_policy base)).0 to_tokens

abbrev start : MultiState ℕ ℕ
start = record {
  chains =
      (ethereum, bootstrapping (bootstrap_init (bootstrap_policy ethereum)).0 [])
      ∷ (base, bootstrapping waiting [])
      ∷ [];
  latest_optimization_result = none;
  latest_plan_verification = none;
  last_optimized_block = [];
}

abbrev head : SubscriptionData
head = new_head 111 110 0 11

abbrev resolved : MultiEvent ℕ ℕ
resolved = bootstrap_moved base (tokens_resolved 4 [])

abbrev events : List (MultiEvent ℕ ℕ)
events = subscription_delivered base head ∷ resolved ∷ subscription_delivered base head ∷ []

abbrev outcome : BootstrapOutcome
outcome = record {
  anchor = finalized;
  pool_snapshots = [];
  pool_registry = record { verified = []; rejected = [] };
  token_registry = record { verified = []; unsupported = [] };
  seed_blocks = [];
}

waiting_test : lookup base start.chains ≡ some (bootstrapping waiting [])
unfolding lookup
waiting_test = refl

status_test :
    chain_status (multi_run equal_blooms filler no_values plan_itself start events) base
    ≡ some active_chain
unfolding chain_status multi_run bootstrap_run bootstrap_init with_block_capped with_data_capped
    bootstrap_policy new pool_log_candidates_from_head present_chain_from_head contains_key
    with_observed_head node_parent_hash
status_test = refl

-- A head for each of the chains and two events of the bootstrap, before its last answer.
abbrev meanwhile : List (MultiEvent ℕ ℕ)
meanwhile =
    subscription_delivered base head
    ∷ subscription_delivered ethereum (new_head 7 6 0 3)
    ∷ bootstrap_moved base (tokens_resolved 3 [])
    ∷ chain_moved base ticked
    ∷ []

meanwhile_test :
    completion (bootstrap_run filler base waiting (bootstrap_events base meanwhile)) ≡ none
unfolding completion bootstrap_run bootstrap_init bootstrap_transition insert remove
    bootstrap_policy
meanwhile_test = refl

resolved_test :
    completion
      (bootstrap_run filler base waiting (bootstrap_events base (meanwhile ++ resolved ∷ [])))
    ≡ some (activated outcome)
unfolding completion bootstrap_run bootstrap_init bootstrap_transition insert remove
    bootstrap_policy
resolved_test = refl

multi_run-fed_example :
    lookup base
      (multi_run equal_blooms filler no_values plan_itself start
        (meanwhile ++ resolved ∷ [])).chains
    ≡ some (
        active (
          fed equal_blooms filler no_values plan_itself base
            (activate_bootstrap_outcome outcome).0
            (head ∷ [])))
multi_run-fed_example =
    multi_run-fed equal_blooms filler no_values plan_itself base meanwhile resolved start waiting []
      outcome ((omega arith, tt), (tt, tt)) waiting_test meanwhile_test resolved_test

multi_transition-About_example :
    lookup ethereum
      (multi_transition equal_blooms filler no_values plan_itself start resolved).0.chains
    ≡ lookup ethereum start.chains
multi_transition-About_example =
    multi_transition-About equal_blooms filler no_values plan_itself base ethereum refl start
      resolved refl

multi_run-Grown_example :
    let s =
      multi_run equal_blooms filler no_values plan_itself
        (multi_init equal_blooms filler no_values plan_itself chains).0
        events in
    ((k : State)
      → lookup base s.chains ≡ some (active k)
      → Grown equal_blooms filler base k × IsCoherent base k)
    × ((b : BootstrapState) (buffered : List SubscriptionData)
        → lookup base s.chains ≡ some (bootstrapping b buffered)
        → Ran equal_blooms filler base b)
multi_run-Grown_example =
    multi_run-Grown equal_blooms filler no_values plan_itself chains events base
