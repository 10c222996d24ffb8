-- ===== src/Market/Registries.antt =====
-- What is known of pools and tokens (core/crates/client-evm/src/kernel/pool_registry.rs, token_registry.rs,
-- metadata_catalog.rs): results of validations arrive in a map, whose iteration order is any order.
use armchair_analyst.Prelude.{
  ℕ, nat_beq, Bool, not, ◌||◌, Option, none, some, inl, inr, List, [], ◌∷◌, ◌==◌, Map, lookup,
  insert, remove, keys, contains_key, contains, is_some, length, if◌then◌else◌,
}
use armchair_analyst.Pools.Keys.{
  Address, ChainKey, chain_eq, ProtocolPoolKey, pool_key_eq, uniswap_v3_address, PoolRef,
  pool_ref_eq, TokenAddress, token_eq,
}
use armchair_analyst.Market.Metadata.{
  PoolMetadata, PoolMetadataResult, TokenMetadata, TokenMetadataFailure, TokenMetadataResult,
}

-- `HashSet::remove` and `HashSet::insert` of candidates.
unfoldable pub remove_candidate : ProtocolPoolKey → List ProtocolPoolKey → List ProtocolPoolKey
remove_candidate candidate [] = []
remove_candidate candidate (x ∷ xs) =
    if x == candidate then remove_candidate candidate xs else x ∷ remove_candidate candidate xs

abbrev pub insert_candidate : ProtocolPoolKey → List ProtocolPoolKey → List ProtocolPoolKey
insert_candidate candidate xs = if contains candidate xs then xs else candidate ∷ xs

pub record TrustedPoolRegistry : Type 0 where
  pub verified : Map PoolRef PoolMetadata
  pub rejected : List ProtocolPoolKey

unfoldable pub empty_pools : TrustedPoolRegistry
empty_pools = record { verified = []; rejected = [] }

abbrev pub pool_on : ChainKey → ProtocolPoolKey → PoolRef
pool_on chain candidate = record { key = candidate; chain = chain }

-- One round of the loop of `TrustedPoolRegistry::with_metadata_results`.
unfoldable pub with_pool_result :
    ChainKey → TrustedPoolRegistry → ProtocolPoolKey → PoolMetadataResult → TrustedPoolRegistry
unfolding remove_candidate
with_pool_result chain r candidate (inl metadata) = record {
  verified = insert (pool_on chain candidate) metadata r.verified;
  rejected = remove_candidate candidate r.rejected;
}
with_pool_result chain r candidate (inr failure) =
    if contains_key (pool_on chain candidate) r.verified
    then r
    else record r { rejected = insert_candidate candidate r.rejected }

unfoldable pub with_pool_results :
    ChainKey → TrustedPoolRegistry → Map ProtocolPoolKey PoolMetadataResult → TrustedPoolRegistry
unfolding with_pool_result
with_pool_results chain r [] = r
with_pool_results chain r ((candidate, result) ∷ results) =
    with_pool_results chain (with_pool_result chain r candidate result) results

unfoldable pub verified_pool_metadata : TrustedPoolRegistry → PoolRef → Option PoolMetadata
verified_pool_metadata r pool = lookup pool r.verified

unfoldable pub verified_size : TrustedPoolRegistry → ℕ
verified_size r = length r.verified

unfoldable pub pools_on : ChainKey → List PoolRef → List PoolRef
pools_on chain [] = []
pools_on chain (pool ∷ pools) =
    if pool.chain == chain then pool ∷ pools_on chain pools else pools_on chain pools

unfoldable pub verified_pools : TrustedPoolRegistry → ChainKey → List PoolRef
unfolding pools_on
verified_pools r chain = pools_on chain (keys r.verified)

unfoldable pub addresses_of : List PoolRef → List Address
unfolding uniswap_v3_address
addresses_of [] = []
addresses_of (pool ∷ pools) = elim (uniswap_v3_address pool.key) [
  | none ↦ addresses_of pools
  | some address ↦ address ∷ addresses_of pools
]

unfoldable pub verified_addresses : TrustedPoolRegistry → ChainKey → List Address
unfolding verified_pools addresses_of
verified_addresses r chain = addresses_of (verified_pools r chain)

unfoldable pub verified_pool : TrustedPoolRegistry → ChainKey → ProtocolPoolKey → Option PoolRef
verified_pool r chain candidate =
    if contains_key (pool_on chain candidate) r.verified
    then some (pool_on chain candidate)
    else none

unfoldable pub is_rejected : TrustedPoolRegistry → ProtocolPoolKey → Bool
is_rejected r candidate = contains candidate r.rejected

unfoldable pub is_known_pool : TrustedPoolRegistry → ChainKey → ProtocolPoolKey → Bool
unfolding verified_pool is_rejected
is_known_pool r chain candidate =
    is_some (verified_pool r chain candidate) || is_rejected r candidate

pub record TokenRegistry : Type 0 where
  pub verified : Map TokenAddress TokenMetadata
  pub unsupported : Map TokenAddress TokenMetadataFailure

unfoldable pub empty_tokens : TokenRegistry
empty_tokens = record { verified = []; unsupported = [] }

unfoldable pub with_token_result :
    TokenRegistry → TokenAddress → TokenMetadataResult → TokenRegistry
with_token_result r token (inl metadata) = record {
  verified = insert token metadata r.verified;
  unsupported = remove token r.unsupported;
}
with_token_result r token (inr failure) =
    if contains_key token r.verified
    then r
    else record r { unsupported = insert token failure r.unsupported }

unfoldable pub with_token_results :
    TokenRegistry → Map TokenAddress TokenMetadataResult → TokenRegistry
unfolding with_token_result
with_token_results r [] = r
with_token_results r ((token, result) ∷ results) =
    with_token_results (with_token_result r token result) results

-- The native currency has the zero address on every chain.
abbrev pub native_metadata : TokenMetadata
native_metadata = record { decimals = record { count = 18 } }

unfoldable pub verified_token_metadata : TokenRegistry → TokenAddress → Option TokenMetadata
verified_token_metadata r token =
    if nat_beq token.address 0 then some native_metadata else lookup token r.verified

unfoldable pub unsupported_failure : TokenRegistry → TokenAddress → Option TokenMetadataFailure
unsupported_failure r token = lookup token r.unsupported

unfoldable pub is_unsupported : TokenRegistry → TokenAddress → Bool
is_unsupported r token = contains_key token r.unsupported

unfoldable pub is_known_token : TokenRegistry → TokenAddress → Bool
unfolding verified_token_metadata is_unsupported
is_known_token r token = is_some (verified_token_metadata r token) || is_unsupported r token

unfoldable pub unknown_tokens : TokenRegistry → List TokenAddress → List TokenAddress
unfolding is_known_token
unknown_tokens r [] = []
unknown_tokens r (token ∷ tokens) =
    if not (is_known_token r token)
    then token ∷ unknown_tokens r tokens
    else unknown_tokens r tokens

pub record MetadataCatalog : Type 0 where
  pub pools : Map PoolRef PoolMetadata
  pub tokens : Map TokenAddress TokenMetadata

-- `MetadataCatalog::from_views` of the two views of the registries.
unfoldable pub from_views : TrustedPoolRegistry → TokenRegistry → MetadataCatalog
from_views pools tokens = record { pools = pools.verified; tokens = tokens.verified }

unfoldable pub catalog_token_metadata : MetadataCatalog → TokenAddress → Option TokenMetadata
catalog_token_metadata c token = lookup token c.tokens

unfoldable pub pool_count : MetadataCatalog → ℕ
pool_count c = length c.pools
