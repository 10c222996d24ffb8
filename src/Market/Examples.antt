-- ===== src/Market/Examples.antt =====
-- A registry with one verified pool, and a batch that fails it, verifies a second and rejects a third.
use armchair_analyst.Prelude.{
  nat_eq, ◌≡◌, ◌||◌, refl, inl, inr, [], ◌∷◌, Map, lookup, contains_key, contains,
}
use armchair_analyst.Pools.Keys.{
  ethereum, ProtocolPoolKey, uniswap_v3, uniswap_v4, pool_key_eq, pool_ref_eq, TokenAddress,
  token_eq,
}
use armchair_analyst.Market.Metadata.{
  PoolMetadata, PoolMetadataResult, tiered, fee500, dynamic_fee, factory_returned_zero,
  TokenMetadataResult, token_call_failed, decimals_call,
}
use armchair_analyst.Market.Registries.{
  TrustedPoolRegistry, pool_on, with_pool_results, empty_tokens, with_token_results, is_known_token,
}
use armchair_analyst.Market.Results

abbrev sample : PoolMetadata
sample = record { token0 = 1; token1 = 2; fee = tiered fee500 }

abbrev registry : TrustedPoolRegistry
registry = record {
  verified = (pool_on ethereum (uniswap_v3 7), sample) ∷ [];
  rejected = uniswap_v3 8 ∷ [];
}

abbrev batch : Map ProtocolPoolKey PoolMetadataResult
batch =
    (uniswap_v3 7, inr factory_returned_zero)
    ∷ (uniswap_v3 8, inl sample)
    ∷ (uniswap_v4 9, inr dynamic_fee)
    ∷ []

with_pool_results-lem_example :
    (lookup (pool_on ethereum (uniswap_v4 9)) (with_pool_results ethereum registry batch).verified
      ≡ Results.pool_after
          (lookup (uniswap_v4 9) batch)
          (lookup (pool_on ethereum (uniswap_v4 9)) registry.verified))
    × (contains (uniswap_v4 9) (with_pool_results ethereum registry batch).rejected
        ≡ Results.rejected_after
            (lookup (uniswap_v4 9) batch)
            (contains_key (pool_on ethereum (uniswap_v4 9)) registry.verified)
            (contains (uniswap_v4 9) registry.rejected))
unfolding lookup
with_pool_results-lem_example =
    Results.with_pool_results-lem ethereum batch registry (uniswap_v4 9) (refl, (refl, (refl, tt)))

abbrev token : TokenAddress
token = record { address = 5; chain = ethereum }

abbrev token_batch : Map TokenAddress TokenMetadataResult
token_batch = (token, inr (token_call_failed decimals_call)) ∷ []

with_token_results_known_example :
    is_known_token (with_token_results empty_tokens token_batch) token
    ≡ (is_known_token empty_tokens token || contains_key token token_batch)
with_token_results_known_example = Results.with_token_results_known token_batch empty_tokens token
