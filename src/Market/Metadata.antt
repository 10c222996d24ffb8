-- ===== src/Market/Metadata.antt =====
-- Metadata of pools and tokens (core/crates/client-evm/src/kernel/pool_registry.rs, token_registry.rs).
-- Amounts of pips are `u32`, spacings `u16` and `i32`, decimals `u8`.
use armchair_analyst.Prelude.{
  ℕ, nat_beq, leb, Option, none, some, ◌⊎◌, inl, inr, ℤ, if◌then◌else◌, ◌%◌, ◌^◌,
}
use armchair_analyst.Pools.Keys.{Address}

pub data UniswapV3Fee : Type 0 where
  fee100 fee500 fee3000 fee10000 : UniswapV3Fee

unfoldable pub try_from_pips : ℕ → Option UniswapV3Fee
try_from_pips fee =
    if nat_beq fee 100
    then some fee100
    else if nat_beq fee 500
    then some fee500
    else if nat_beq fee 3000
    then some fee3000
    else if nat_beq fee 10000
    then some fee10000
    else none

unfoldable pub tier_pips : UniswapV3Fee → ℕ
tier_pips fee100 = 100
tier_pips fee500 = 500
tier_pips fee3000 = 3000
tier_pips fee10000 = 10000

unfoldable pub tier_tick_spacing : UniswapV3Fee → ℕ
tier_tick_spacing fee100 = 1
tier_tick_spacing fee500 = 10
tier_tick_spacing fee3000 = 60
tier_tick_spacing fee10000 = 200

pub data PoolFee : Type 0 where
  tiered : UniswapV3Fee → PoolFee
  static_fee : (pips tick_spacing : ℕ) → PoolFee

unfoldable pub pips : PoolFee → ℕ
unfolding tier_pips
pips (tiered tier) = tier_pips tier
pips (static_fee p s) = p

-- The cast `as u16` of a tier's spacing.
unfoldable pub tick_spacing : PoolFee → ℕ
unfolding tier_tick_spacing
tick_spacing (tiered tier) = tier_tick_spacing tier % 2 ^ 16
tick_spacing (static_fee p s) = s

pub record PoolMetadata : Type 0 where
  pub token0 : Address
  pub token1 : Address
  pub fee : PoolFee

pub data PoolMetadataCall : Type 0 where
  token0_call token1_call fee_call factory_get_pool : PoolMetadataCall

pub data PoolMetadataFailure : Type 0 where
  call_failed decode_failed missing_response : PoolMetadataCall → PoolMetadataFailure
  unsupported_fee : ℕ → PoolMetadataFailure
  factory_returned_zero : PoolMetadataFailure
  factory_mismatch : (returned : Address) → PoolMetadataFailure
  dynamic_fee : PoolMetadataFailure
  hooked_pool : (hooks : Address) → PoolMetadataFailure
  pool_id_mismatch : PoolMetadataFailure
  invalid_tick_spacing : (spacing : ℤ) → PoolMetadataFailure
  token_not_whitelisted : (token : Address) → PoolMetadataFailure

-- `Result`, its error on the right.
abbrev pub PoolMetadataResult : Type 0
PoolMetadataResult = PoolMetadata ⊎ PoolMetadataFailure

pub record TokenDecimals : Type 0 where
  pub count : ℕ

abbrev pub max_supported : ℕ
max_supported = 36

pub data TokenMetadataCall : Type 0 where
  decimals_call : TokenMetadataCall

pub data TokenMetadataFailure : Type 0 where
  token_call_failed token_decode_failed token_missing_response :
      TokenMetadataCall → TokenMetadataFailure
  unsupported_decimals : ℕ → TokenMetadataFailure

pub record TokenMetadata : Type 0 where
  pub decimals : TokenDecimals

abbrev pub TokenMetadataResult : Type 0
TokenMetadataResult = TokenMetadata ⊎ TokenMetadataFailure

-- `TokenDecimals::try_from_u256`; a value that passes the bound fits in a `u8`.
unfoldable pub try_from_u256 : ℕ → TokenDecimals ⊎ TokenMetadataFailure
try_from_u256 value =
    if leb value max_supported
    then inl (record { count = value % 2 ^ 8 })
    else inr (unsupported_decimals value)
