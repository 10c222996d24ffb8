-- ===== src/Pools/Keys.antt =====
-- Identities (core/crates/client-evm/src/pool_state.rs, chain.rs, kernel/token_registry.rs). A
-- 160-bit address, a 256-bit block hash or PoolId, and a 2048-bit bloom are the numbers that their
-- bytes spell; only equality, and for hashes the order, is ever used of them.
use armchair_analyst.Prelude.{
  ℕ, ◌≡◌, ◌↔◌, Bool, true, false, ◌&&◌, Option, none, some, arith, KeyEq, nat_beq, nat_eq,
}

abbrev pub Address : Type 0
Address = ℕ

abbrev pub PoolId : Type 0
PoolId = ℕ

abbrev pub BlockHash : Type 0
BlockHash = ℕ

abbrev pub Bloom : Type 0
Bloom = ℕ

pub data ChainKey : Type 0 where
  ethereum arbitrum base optimism polygon bnb avalanche : ChainKey

abbrev pub chain_index : ChainKey → ℕ
chain_index ethereum = 0
chain_index arbitrum = 1
chain_index base = 2
chain_index optimism = 3
chain_index polygon = 4
chain_index bnb = 5
chain_index avalanche = 6

abbrev pub chain_beq : ChainKey → ChainKey → Bool
chain_beq a b = nat_beq (chain_index a) (chain_index b)

pub chain_beq_iff : (a b : ChainKey) → (chain_beq a b ≡ true) ↔ (a ≡ b)
chain_beq_iff a b = ground arith

instance abbrev pub chain_eq : KeyEq ChainKey
chain_eq = record { beq = chain_beq; beq_iff = chain_beq_iff }

pub data ProtocolPoolKey : Type 0 where
  uniswap_v3 : Address → ProtocolPoolKey
  uniswap_v4 : PoolId → ProtocolPoolKey

abbrev pub pool_key_beq : ProtocolPoolKey → ProtocolPoolKey → Bool
pool_key_beq (uniswap_v3 a) (uniswap_v3 b) = nat_beq a b
pool_key_beq (uniswap_v3 a) (uniswap_v4 b) = false
pool_key_beq (uniswap_v4 a) (uniswap_v3 b) = false
pool_key_beq (uniswap_v4 a) (uniswap_v4 b) = nat_beq a b

pub pool_key_beq_iff : (a b : ProtocolPoolKey) → (pool_key_beq a b ≡ true) ↔ (a ≡ b)
pool_key_beq_iff a b = ground arith

instance abbrev pub pool_key_eq : KeyEq ProtocolPoolKey
pool_key_eq = record { beq = pool_key_beq; beq_iff = pool_key_beq_iff }

unfoldable pub uniswap_v3_address : ProtocolPoolKey → Option Address
uniswap_v3_address (uniswap_v3 address) = some address
uniswap_v3_address (uniswap_v4 pool_id) = none

pub record PoolRef : Type 0 where
  pub key : ProtocolPoolKey
  pub chain : ChainKey

abbrev pub pool_ref_beq : PoolRef → PoolRef → Bool
pool_ref_beq a b = pool_key_beq a.key b.key && chain_beq a.chain b.chain

pub pool_ref_beq_iff : (a b : PoolRef) → (pool_ref_beq a b ≡ true) ↔ (a ≡ b)
pool_ref_beq_iff a b = ground (arith, pool_key_beq_iff a.key b.key, chain_beq_iff a.chain b.chain)

instance abbrev pub pool_ref_eq : KeyEq PoolRef
pool_ref_eq = record { beq = pool_ref_beq; beq_iff = pool_ref_beq_iff }

pub record TokenAddress : Type 0 where
  pub address : Address
  pub chain : ChainKey

abbrev pub token_beq : TokenAddress → TokenAddress → Bool
token_beq a b = nat_beq a.address b.address && chain_beq a.chain b.chain

pub token_beq_iff : (a b : TokenAddress) → (token_beq a b ≡ true) ↔ (a ≡ b)
token_beq_iff a b = ground (arith, chain_beq_iff a.chain b.chain)

instance abbrev pub token_eq : KeyEq TokenAddress
token_eq = record { beq = token_beq; beq_iff = token_beq_iff }
