-- ===== src/Multi/Reserves.antt =====
-- core/crates/client-evm/src/multi_chain_kernel.rs: the reserves that the optimizer is run on. The values of one
-- pool (`pool_reserve_values`) are computed on `f32`: they are a parameter, a result that may fail.
use armchair_analyst.Prelude.{
  Option, none, some, ◌⊎◌, inl, inr, List, [], ◌∷◌, ◌++◌, ◌==◌, Map, lookup, insert, if◌then◌else◌,
}
use armchair_analyst.Pools.Keys.{ChainKey, chain_eq, PoolRef, pool_ref_eq, TokenAddress}
use armchair_analyst.Pools.Events.{PoolState}
use armchair_analyst.Graph.Fold.{BloomApi, Snapshot}
use armchair_analyst.Market.Metadata.{PoolFee, TokenDecimals}
use armchair_analyst.Market.Registries.{verified_pool_metadata, verified_token_metadata}
use armchair_analyst.Kernel.{State}
use armchair_analyst.Kernel.Schedule.{pool_ref_leb}
use armchair_analyst.Kernel.Reads.{OptimizationStateUpdate, optimization_update}
use armchair_analyst.Multi.{
  ChainLifecycle, bootstrapping, active, insert_chain, VirtualReserveValues, PoolReserves,
  ChainPoolReserves, OptimizationPoolReserves,
}

-- `Invertible::inverse`.
unfoldable pub inverse_values : {F : Type 0} → VirtualReserveValues F → VirtualReserveValues F
inverse_values v = record {
  token_0 = v.token_1;
  token_1 = v.token_0;
  fee_multiplier = v.fee_multiplier;
  max_swap_0 = v.max_swap_1;
  max_swap_1 = v.max_swap_0;
}

unfoldable pub inverse_reserves : {F : Type 0} → PoolReserves F → PoolReserves F
unfolding inverse_values
inverse_reserves r = record {
  token0 = r.token1;
  token1 = r.token0;
  pool_id = r.pool_id;
  value = inverse_values r.value;
}

-- `extend` of the finalized states by those of the update.
unfoldable pub overlaid : Snapshot → Snapshot → Snapshot
unfolding insert
overlaid finalized [] = finalized
overlaid finalized ((pool, pool_state) ∷ update) =
    overlaid (insert pool pool_state finalized) update

-- `sort_by_key`.
unfoldable pub insert_state : PoolRef → PoolState → Snapshot → Snapshot
unfolding pool_ref_leb
insert_state pool pool_state [] = (pool, pool_state) ∷ []
insert_state pool pool_state ((other, w) ∷ pool_states) =
    if pool_ref_leb pool other
    then (pool, pool_state) ∷ (other, w) ∷ pool_states
    else (other, w) ∷ insert_state pool pool_state pool_states

unfoldable pub sort_states : Snapshot → Snapshot
unfolding insert_state
sort_states [] = []
sort_states ((pool, pool_state) ∷ pool_states) =
    insert_state pool pool_state (sort_states pool_states)

unfoldable pub sorted_pool_states_for_projection : Snapshot → Snapshot → Snapshot
unfolding overlaid sort_states
sorted_pool_states_for_projection finalized update = sort_states (overlaid finalized update)

pub record ProjectionMetadata : Type 0 where
  pub token0 : TokenAddress
  pub token1 : TokenAddress
  pub fee : PoolFee
  pub token0_decimals : TokenDecimals
  pub token1_decimals : TokenDecimals

unfoldable pub projection_metadata : State → ChainKey → PoolRef → Option ProjectionMetadata
unfolding verified_pool_metadata verified_token_metadata
projection_metadata s chain pool = elim (verified_pool_metadata s.pool_registry pool) [
  | none ↦ none
  | some metadata ↦
      let token0 : TokenAddress = record { address = metadata.token0; chain = chain } in
      let token1 : TokenAddress = record { address = metadata.token1; chain = chain } in
      elim (verified_token_metadata s.token_registry token0) [
        | none ↦ none
        | some metadata0 ↦ elim (verified_token_metadata s.token_registry token1) [
          | none ↦ none
          | some metadata1 ↦ some (record {
            token0 = token0;
            token1 = token1;
            fee = metadata.fee;
            token0_decimals = metadata0.decimals;
            token1_decimals = metadata1.decimals;
          })
        ]
      ]
]

module _ {F Failure : Type 0} (api : BloomApi)
    (values : PoolRef → PoolState → ProjectionMetadata → VirtualReserveValues F ⊎ Failure) where
  -- The loop over the pools: a pool without metadata makes the chain not ready, one that fails fails it.
  unfoldable pub project_pools :
      State → ChainKey → Snapshot → Option (List (PoolReserves F)) ⊎ Failure
  unfolding projection_metadata inverse_reserves
  project_pools s chain [] = inl (some [])
  project_pools s chain ((pool, pool_state) ∷ pool_states) =
      let rest = project_pools s chain pool_states in
      elim (projection_metadata s chain pool) [
        | none ↦ inl none
        | some m ↦ elim (values pool pool_state m) [
          | inr failure ↦ inr failure
          | inl value ↦
              let reserve : PoolReserves F = record {
                token0 = m.token0;
                token1 = m.token1;
                pool_id = pool;
                value = value;
              } in
              elim rest [
                | inr failure ↦ inr failure
                | inl none ↦ inl none
                | inl (some reserves) ↦ inl (some (reserve ∷ inverse_reserves reserve ∷ reserves))
              ]
        ]
      ]

  unfoldable pub pool_reserves_for_optimization :
      Map ChainKey ChainLifecycle
      → ChainKey
      → OptimizationStateUpdate
      → Option (ChainPoolReserves F) ⊎ Failure
  unfolding lookup sorted_pool_states_for_projection project_pools
  pool_reserves_for_optimization chains chain update = elim (lookup chain chains) [
    | none ↦ inl none
    | some (bootstrapping s buffered) ↦ inl none
    | some (active s) ↦
        elim (project_pools s chain
          (sorted_pool_states_for_projection s.blocks.finalized_snapshot update.pool_states)) [
            | inr failure ↦ inr failure
            | inl none ↦ inl none
            | inl (some reserves) ↦
                inl (some (record { block_hash = update.block_hash; reserves = reserves }))
          ]
  ]

  -- One chain is spliced in; one that is not ready, or fails, contributes nothing.
  unfoldable pub contributed :
      ChainKey
      → Option (ChainPoolReserves F) ⊎ Failure
      → OptimizationPoolReserves F
      → OptimizationPoolReserves F
  unfolding insert_chain
  contributed chain (inl (some r)) merged = record {
    block_hashes = insert_chain chain r.block_hash merged.block_hashes;
    reserves = merged.reserves ++ r.reserves;
  }
  contributed chain _ merged = merged

  unfoldable pub merged_from :
      Map ChainKey ChainLifecycle
      → ChainKey
      → ChainPoolReserves F
      → Map ChainKey ChainLifecycle
      → OptimizationPoolReserves F
      → OptimizationPoolReserves F
  unfolding pool_reserves_for_optimization optimization_update contributed
  merged_from all precomputed_chain precomputed [] merged = merged
  merged_from all precomputed_chain precomputed ((chain, bootstrapping s buffered) ∷ chains)
        merged =
      merged_from all precomputed_chain precomputed chains merged
  merged_from all precomputed_chain precomputed ((chain, active s) ∷ chains) merged =
      merged_from all precomputed_chain precomputed chains (
        if chain == precomputed_chain
        then contributed chain (inl (some precomputed)) merged
        else contributed chain
            (pool_reserves_for_optimization all chain (optimization_update api s chain)) merged)

  unfoldable pub merged_optimization_reserves :
      Map ChainKey ChainLifecycle → ChainKey → ChainPoolReserves F → OptimizationPoolReserves F
  unfolding merged_from
  merged_optimization_reserves chains precomputed_chain precomputed =
      merged_from chains precomputed_chain precomputed chains
        (record { block_hashes = []; reserves = [] })
