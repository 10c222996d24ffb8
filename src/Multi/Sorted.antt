-- ===== src/Multi/Sorted.antt =====
-- core/crates/client-evm/src/multi_chain_kernel.rs: the map of the chains stays in the order of its keys.
use armchair_analyst.Prelude.{
  nat_eq, ◌<◌, ◌≡◌, refl, sym, subst, false, Option, none, some, ◌⊎◌, inl, inr, List, [], ◌∷◌, ◌==◌,
  ltb, arith, Map, lookup, remove, UniqueKeys, Bool-cases, Option-cases, nat_beq_iff,
}
use armchair_analyst.Pools.Keys.{BlockHash, ChainKey, chain_eq, chain_beq_iff, chain_index, PoolRef}
use armchair_analyst.Pools.Events.{PoolState}
use armchair_analyst.Graph.Fold.{BloomApi}
use armchair_analyst.Kernel.Transition.{Event, transition_outcome}
use armchair_analyst.Kernel.Reads.{canonical_path_len_from_finalized}
use armchair_analyst.Multi.{
  SubscriptionData, into_kernel_event, ChainLifecycle, bootstrapping, active, insert_chain,
  VirtualReserveValues, MultiState, MultiEvent, MultiEffect, finalized_header_refreshed,
  finalized_header_unavailable, subscription_delivered, chain_moved, bootstrap_moved,
  optimization_step_completed, clock_ticked,
}
use armchair_analyst.Multi.Reserves.{ProjectionMetadata}
use armchair_analyst.Multi.Machine.{
  Chains, LifecycleStep, reinserted, with_chain_lifecycle, chain_event, subscription_data,
  tick_chains, multi_transition,
}
use armchair_analyst.Multi.Keyed.{All, remove-All, insert_chain-All}
use armchair_analyst.Multi.Lives.{chain_outcome_chains}

later_key :
    (k j : ChainKey)
    → ltb (chain_index k) (chain_index j) ≡ false
    → (k == j) ≡ false
    → chain_index j < chain_index k
later_key k j l d = ground (arith, l, d, nat_beq_iff (chain_index k) (chain_index j))

module _ {V : Type 0} where
  -- Every key stands after one chain.
  abbrev pub After : ChainKey → ChainKey → V → Type 0
  After k j v = chain_index k < chain_index j

  -- The keys of a `BTreeMap` in their order.
  abbrev pub Sorted : Map ChainKey V → Type 0
  Sorted [] = Unit {0}
  Sorted ((k, v) ∷ m) = All (After k) m × Sorted m

  After-trans :
      (k j : ChainKey) (m : Map ChainKey V)
      → chain_index k < chain_index j
      → All (After j) m
      → All (After k) m
  After-trans k j [] l h = tt
  After-trans k j ((i, v) ∷ m) l (h, hs) = (omega (arith, l, h), After-trans k j m l hs)

  After-absent : (k : ChainKey) (m : Map ChainKey V) → All (After k) m → lookup k m ≡ none
  unfolding lookup
  After-absent k [] h = refl
  After-absent k ((j, v) ∷ m) (h, hs) = elim (Bool-cases (j == k)) [
    | inl same ↦ absurd (omega (arith, h, (nat_beq_iff (chain_index j) (chain_index k)).0 same))
    | inr other ↦ rw other (After-absent k m hs)
  ]

  pub Sorted-UniqueKeys : (m : Map ChainKey V) → Sorted m → UniqueKeys m
  Sorted-UniqueKeys [] h = tt
  Sorted-UniqueKeys ((k, v) ∷ m) (h, hs) = (After-absent k m h, Sorted-UniqueKeys m hs)

  pub remove-Sorted : (k : ChainKey) (m : Map ChainKey V) → Sorted m → Sorted (remove k m)
  unfolding remove
  remove-Sorted k [] h = tt
  remove-Sorted k ((j, v) ∷ m) (h, hs) = elim (Bool-cases (j == k)) [
    | inl same ↦ rw same (remove-Sorted k m hs)
    | inr other ↦ rw other (remove-All (After j) k m h, remove-Sorted k m hs)
  ]

  pub insert_chain-Sorted :
      (k : ChainKey) (v : V) (m : Map ChainKey V) → Sorted m → Sorted (insert_chain k v m)
  unfolding insert_chain
  insert_chain-Sorted k v [] h = (tt, tt)
  insert_chain-Sorted k v ((j, w) ∷ m) (h, hs) =
      elim (Bool-cases (ltb (chain_index k) (chain_index j))) [
        | inl below ↦
            let l : chain_index k < chain_index j = ground (arith, below) in
            rw below ((l, After-trans k j m l h), (h, hs))
        | inr above ↦ elim (Bool-cases (k == j)) [
          | inl same ↦
              rw (above, same)
                (subst (λ x. All (After x) m) (sym ((chain_beq_iff k j).0 same)) h, hs)
          | inr other ↦
              rw (above, other)
                (
                  insert_chain-All (After j) k v m (later_key k j above other) h,
                  insert_chain-Sorted k v m hs,
                )
        ]
      ]

reinserted-Sorted :
    (chain : ChainKey) (o : Option ChainLifecycle) (m : Chains)
    → Sorted m
    → Sorted (reinserted chain o m)
unfolding reinserted
reinserted-Sorted chain none m h = h
reinserted-Sorted chain (some v) m h = insert_chain-Sorted chain v m h

module _ {R V P F Failure : Type 0} (api : BloomApi)
    (filler_hash : BlockHash → BlockHash → BlockHash)
    (values : PoolRef → PoolState → ProjectionMetadata → VirtualReserveValues F ⊎ Failure)
    (verify_plan : MultiState R V → P → V) where
  lifecycle-Sorted :
      (s : MultiState R V) (chain : ChainKey) (f : ChainLifecycle → LifecycleStep F)
      → Sorted s.chains
      → Sorted (with_chain_lifecycle s chain f).0.chains
  unfolding with_chain_lifecycle
  lifecycle-Sorted s chain f h = elim (Option-cases (lookup chain s.chains)) [
    | inl absent ↦ rw (absent, with_chain_lifecycle) h
    | inr (lifecycle, found) ↦
        rw (found, with_chain_lifecycle)
          (reinserted-Sorted chain (f lifecycle).0 _ (remove-Sorted chain s.chains h))
  ]

  chain_event-Sorted :
      (s : MultiState R V) (chain : ChainKey) (event : Event)
      → Sorted s.chains
      → Sorted (chain_event api filler_hash values verify_plan s chain event).0.chains
  unfolding chain_event
  chain_event-Sorted s chain event h = elim (Option-cases (lookup chain s.chains)) [
    | inl absent ↦ rw (absent, chain_event) h
    | inr (bootstrapping b buffered, found) ↦
        rw (found, chain_event) (insert_chain-Sorted chain _ _ (remove-Sorted chain s.chains h))
    | inr (active before, found) ↦
        rw (found, chain_event)
          (subst Sorted
            (sym (
              chain_outcome_chains api filler_hash values verify_plan chain s
                (canonical_path_len_from_finalized before)
                (transition_outcome api chain before event)))
            (insert_chain-Sorted chain _ _ (remove-Sorted chain s.chains h)))
  ]

  subscription_data-Sorted :
      (s : MultiState R V) (chain : ChainKey) (delivered : SubscriptionData)
      → Sorted s.chains
      → Sorted (subscription_data api filler_hash values verify_plan s chain delivered).0.chains
  unfolding subscription_data
  subscription_data-Sorted s chain delivered h = elim (Option-cases (lookup chain s.chains)) [
    | inl absent ↦
        rw (absent, subscription_data) (chain_event-Sorted s chain (into_kernel_event delivered) h)
    | inr (active before, found) ↦
        rw (found, subscription_data) (chain_event-Sorted s chain (into_kernel_event delivered) h)
    | inr (bootstrapping b buffered, found) ↦
        rw (found, subscription_data) (lifecycle-Sorted s chain _ h)
  ]

  tick_chains-Sorted :
      (rest chains : Chains) (effects : List (MultiEffect F))
      → Sorted chains
      → Sorted (tick_chains api filler_hash values verify_plan rest chains effects).0
  unfolding tick_chains
  tick_chains-Sorted [] chains effects h = h
  tick_chains-Sorted ((chain, lifecycle) ∷ rest) chains effects h =
      tick_chains-Sorted rest _ _ (reinserted-Sorted chain _ chains h)

  pub multi_transition-Sorted :
      (s : MultiState R V) (event : MultiEvent R P)
      → Sorted s.chains
      → Sorted (multi_transition api filler_hash values verify_plan s event).0.chains
  unfolding multi_transition
  multi_transition-Sorted s (finalized_header_refreshed chain hash number) h =
      lifecycle-Sorted s chain _ h
  multi_transition-Sorted s (finalized_header_unavailable chain) h = h
  multi_transition-Sorted s (subscription_delivered chain delivered) h =
      subscription_data-Sorted s chain delivered h
  multi_transition-Sorted s (chain_moved chain event) h = chain_event-Sorted s chain event h
  multi_transition-Sorted s (bootstrap_moved chain event) h = lifecycle-Sorted s chain _ h
  multi_transition-Sorted s (optimization_step_completed result plan) h = h
  multi_transition-Sorted s clock_ticked h = tick_chains-Sorted s.chains [] [] tt
