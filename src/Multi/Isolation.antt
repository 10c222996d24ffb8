-- ===== src/Multi/Isolation.antt =====
-- core/crates/client-evm/src/multi_chain_kernel.rs: an event of one chain leaves the others alone.
use armchair_analyst.Prelude.{
  nat_eq, ◌≡◌, ◌∙◌, refl, sym, ap, subst, Option, none, some, ◌⊎◌, inl, inr, Map, lookup, remove,
  Option-cases,
}
use armchair_analyst.Pools.Keys.{BlockHash, ChainKey, chain_eq, PoolRef}
use armchair_analyst.Pools.Events.{PoolState}
use armchair_analyst.Graph.Fold.{BloomApi}
use armchair_analyst.Kernel.Transition.{Event, transition_outcome}
use armchair_analyst.Kernel.Reads.{canonical_path_len_from_finalized}
use armchair_analyst.Multi.{
  SubscriptionData, into_kernel_event, ChainLifecycle, bootstrapping, active, insert_chain,
  VirtualReserveValues, MultiState, MultiEvent, finalized_header_refreshed,
  finalized_header_unavailable, subscription_delivered, chain_moved, bootstrap_moved,
  optimization_step_completed, clock_ticked,
}
use armchair_analyst.Multi.Reserves.{ProjectionMetadata}
use armchair_analyst.Multi.Machine.{
  Chains, LifecycleStep, reinserted, with_chain_lifecycle, on_bootstrap_event,
  on_finalized_header_refreshed, chain_event, subscription_data, multi_transition,
}
use armchair_analyst.Multi.Keyed.{lookup-insert_chain}
use armchair_analyst.Multi.Lives.{chain_outcome_chains}
use armchair_analyst.Prelude.{false, ◌==◌, lookup-remove}

-- The chain that an event is about; a tick is about all of them, and a step of the optimizer about none.
abbrev pub About : {R P : Type 0} → ChainKey → MultiEvent R P → Type 0
About chain (finalized_header_refreshed c hash number) = c ≡ chain
About chain (finalized_header_unavailable c) = c ≡ chain
About chain (subscription_delivered c delivered) = c ≡ chain
About chain (chain_moved c event) = c ≡ chain
About chain (bootstrap_moved c event) = c ≡ chain
About chain (optimization_step_completed result plan) = Unit {0}
About chain clock_ticked = ⊥

removed-other :
    {V : Type 0} (c d : ChainKey) (m : Map ChainKey V)
    → (c == d) ≡ false
    → lookup d (remove c m) ≡ lookup d m
removed-other c d m other = lookup-remove d c m ∙ rw other refl

inserted-other :
    {V : Type 0} (c d : ChainKey) (v : V) (m : Map ChainKey V)
    → (c == d) ≡ false
    → lookup d (insert_chain c v m) ≡ lookup d m
inserted-other c d v m other = lookup-insert_chain d c v m ∙ rw other refl

replaced-other :
    (c d : ChainKey) (o : Option ChainLifecycle) (m : Chains)
    → (c == d) ≡ false
    → lookup d (reinserted c o (remove c m)) ≡ lookup d m
unfolding reinserted
replaced-other c d none m other = removed-other c d m other
replaced-other c d (some v) m other =
    inserted-other c d v (remove c m) other ∙ removed-other c d m other

module _ {R V P F Failure : Type 0} (api : BloomApi)
    (filler_hash : BlockHash → BlockHash → BlockHash)
    (values : PoolRef → PoolState → ProjectionMetadata → VirtualReserveValues F ⊎ Failure)
    (verify_plan : MultiState R V → P → V) (c d : ChainKey) (other : (c == d) ≡ false) where
  lifecycle-other :
      (s : MultiState R V) (f : ChainLifecycle → LifecycleStep F)
      → lookup d (with_chain_lifecycle s c f).0.chains ≡ lookup d s.chains
  unfolding with_chain_lifecycle
  lifecycle-other s f = elim (Option-cases (lookup c s.chains)) [
    | inl absent ↦ rw (absent, with_chain_lifecycle) refl
    | inr (lifecycle, found) ↦
        rw (found, with_chain_lifecycle) (replaced-other c d (f lifecycle).0 s.chains other)
  ]

  chain_event-other :
      (s : MultiState R V) (event : Event)
      → lookup d (chain_event api filler_hash values verify_plan s c event).0.chains
        ≡ lookup d s.chains
  unfolding chain_event
  chain_event-other s event = elim (Option-cases (lookup c s.chains)) [
    | inl absent ↦ rw (absent, chain_event) refl
    | inr (bootstrapping b buffered, found) ↦
        rw (found, chain_event)
          (inserted-other c d (bootstrapping b buffered) (remove c s.chains) other
            ∙ removed-other c d s.chains other)
    | inr (active before, found) ↦
        rw (found, chain_event)
          (ap (lookup d) (
              chain_outcome_chains api filler_hash values verify_plan c s
                (canonical_path_len_from_finalized before) (transition_outcome api c before event))
            ∙ inserted-other c d _ (remove c s.chains) other
            ∙ removed-other c d s.chains other)
  ]

  subscription_data-other :
      (s : MultiState R V) (delivered : SubscriptionData)
      → lookup d (subscription_data api filler_hash values verify_plan s c delivered).0.chains
        ≡ lookup d s.chains
  unfolding subscription_data
  subscription_data-other s delivered = elim (Option-cases (lookup c s.chains)) [
    | inl absent ↦
        rw (absent, subscription_data) (chain_event-other s (into_kernel_event delivered))
    | inr (active before, found) ↦
        rw (found, subscription_data) (chain_event-other s (into_kernel_event delivered))
    | inr (bootstrapping b buffered, found) ↦ rw (found, subscription_data) (lifecycle-other s _)
  ]

  -- An event about one chain leaves every other chain as it was, whatever its state: a chain is neither
  -- moved, dropped nor activated by the events of another.
  pub multi_transition-About :
      (s : MultiState R V) (event : MultiEvent R P)
      → About c event
      → lookup d (multi_transition api filler_hash values verify_plan s event).0.chains
        ≡ lookup d s.chains
  unfolding multi_transition
  multi_transition-About s (finalized_header_refreshed k hash number) e =
      subst
        (λ x.
          lookup d
            (with_chain_lifecycle s x (
              on_finalized_header_refreshed api filler_hash values verify_plan x hash
                number)).0.chains
          ≡ lookup d s.chains)
        (sym e)
        (lifecycle-other s
          (on_finalized_header_refreshed api filler_hash values verify_plan c hash number))
  multi_transition-About s (finalized_header_unavailable k) e = refl
  multi_transition-About s (subscription_delivered k delivered) e =
      subst
        (λ x.
          lookup d (subscription_data api filler_hash values verify_plan s x delivered).0.chains
          ≡ lookup d s.chains)
        (sym e) (subscription_data-other s delivered)
  multi_transition-About s (chain_moved k event) e =
      subst
        (λ x.
          lookup d (chain_event api filler_hash values verify_plan s x event).0.chains
          ≡ lookup d s.chains)
        (sym e) (chain_event-other s event)
  multi_transition-About s (bootstrap_moved k event) e =
      subst
        (λ x.
          lookup d
            (with_chain_lifecycle s x
              (on_bootstrap_event api filler_hash values verify_plan x event)).0.chains
          ≡ lookup d s.chains)
        (sym e) (lifecycle-other s (on_bootstrap_event api filler_hash values verify_plan c event))
  multi_transition-About s (optimization_step_completed result plan) e = refl
  multi_transition-About s clock_ticked e = absurd e
