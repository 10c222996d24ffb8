-- ===== src/Multi/Ticks.antt =====
-- core/crates/client-evm/src/multi_chain_kernel.rs: a tick moves every chain once, and the map of the chains
-- holds each of them once.
use armchair_analyst.Prelude.{
  nat_eq, ◌≡◌, ◌∙◌, refl, ap, subst, true, false, Option, none, some, ◌⊎◌, inl, inr, List, [], ◌∷◌,
  ◌==◌, arith, lookup, UniqueKeys, Bool-cases, eq_of_some,
}
use armchair_analyst.Pools.Keys.{BlockHash, ChainKey, chain_eq, chain_beq_iff, PoolRef}
use armchair_analyst.Pools.Events.{PoolState}
use armchair_analyst.Graph.Fold.{BloomApi}
use armchair_analyst.Multi.{
  ChainLifecycle, insert_chain, VirtualReserveValues, MultiState, MultiEffect,
}
use armchair_analyst.Multi.Reserves.{ProjectionMetadata}
use armchair_analyst.Multi.Machine.{Chains, reinserted, on_clock_ticked, tick_chains}
use armchair_analyst.Multi.Keyed.{lookup-insert_chain}

inserted_at :
    (chain d : ChainKey) (lifecycle : ChainLifecycle) (m : Chains)
    → (chain == d) ≡ true
    → lookup d (insert_chain chain lifecycle m) ≡ some lifecycle
inserted_at chain d lifecycle m same = lookup-insert_chain d chain lifecycle m ∙ rw same refl

reinserted_other :
    (c d : ChainKey) (o : Option ChainLifecycle) (m : Chains)
    → (c == d) ≡ false
    → lookup d (reinserted c o m) ≡ lookup d m
unfolding reinserted
reinserted_other c d none m other = refl
reinserted_other c d (some v) m other = lookup-insert_chain d c v m ∙ rw other refl

module _ {R V P F Failure : Type 0} (api : BloomApi)
    (filler_hash : BlockHash → BlockHash → BlockHash)
    (values : PoolRef → PoolState → ProjectionMetadata → VirtualReserveValues F ⊎ Failure)
    (verify_plan : MultiState R V → P → V) (d : ChainKey) where
  tick_chains_absent :
      (rest chains : Chains) (effects : List (MultiEffect F))
      → lookup d rest ≡ none
      → lookup d (tick_chains api filler_hash values verify_plan rest chains effects).0
        ≡ lookup d chains
  unfolding tick_chains lookup
  tick_chains_absent [] chains effects absent = refl
  tick_chains_absent ((c, lifecycle) ∷ rest) chains effects absent = elim (Bool-cases (c == d)) [
    | inl same ↦ absurd (ground (arith, absent, same))
    | inr other ↦
        tick_chains_absent rest _ _ (ground (arith, absent, other))
        ∙ reinserted_other c d _ chains other
  ]

  -- The chain's lifecycle after a tick is the one that its own tick leads to.
  pub tick_chains_found :
      (rest chains : Chains) (effects : List (MultiEffect F)) (old new : ChainLifecycle)
      → UniqueKeys rest
      → lookup d rest ≡ some old
      → (on_clock_ticked api filler_hash values verify_plan d old).0 ≡ some new
      → lookup d (tick_chains api filler_hash values verify_plan rest chains effects).0 ≡ some new
  unfolding tick_chains lookup reinserted
  tick_chains_found [] chains effects old new unique found next = absurd (ground (arith, found))
  tick_chains_found ((c, lifecycle) ∷ rest) chains effects old new (fresh, unique) found next =
      elim (Bool-cases (c == d)) [
        | inl same ↦
            let key = (chain_beq_iff c d).0 same in
            let here : lifecycle ≡ old = eq_of_some (rw same at found) in
            let moved : (on_clock_ticked api filler_hash values verify_plan c lifecycle).0
                ≡ some new =
              ap (λ x. (on_clock_ticked api filler_hash values verify_plan x lifecycle).0) key
              ∙ ap (λ l. (on_clock_ticked api filler_hash values verify_plan d l).0) here
              ∙ next in
            tick_chains_absent rest _ _ (subst (λ x. lookup x rest ≡ none) key fresh)
            ∙ ap (λ o. lookup d (reinserted c o chains)) moved
            ∙ inserted_at c d new chains same
        | inr other ↦ tick_chains_found rest _ _ old new unique (rw other at found) next
      ]
