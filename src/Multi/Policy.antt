-- ===== src/Multi/Policy.antt =====
-- core/crates/client-evm/src/multi_chain_kernel.rs: the policies of each chain.
use armchair_analyst.Prelude.{ℕ, ◌+◌}
use armchair_analyst.Pools.Keys.{
  ChainKey, ethereum, arbitrum, base, optimism, polygon, bnb, avalanche,
}
use armchair_analyst.Pools.Chains.{approx_finalized_block_age}
use armchair_analyst.Bootstrap.Machine.{BootstrapPolicy}

pub record FinalizedRefreshPolicy : Type 0 where
  pub target_len : ℕ
  pub retry_stride : ℕ

abbrev retention_margin : ChainKey → ℕ
retention_margin ethereum = 8
retention_margin arbitrum = 64
retention_margin base = 32
retention_margin optimism = 32
retention_margin polygon = 64
retention_margin bnb = 32
retention_margin avalanche = 16

abbrev refresh_stride : ChainKey → ℕ
refresh_stride ethereum = 8
refresh_stride arbitrum = 32
refresh_stride base = 16
refresh_stride optimism = 16
refresh_stride polygon = 32
refresh_stride bnb = 16
refresh_stride avalanche = 8

unfoldable pub finalized_refresh_policy : ChainKey → FinalizedRefreshPolicy
unfolding approx_finalized_block_age
finalized_refresh_policy chain = record {
  target_len = approx_finalized_block_age chain + retention_margin chain;
  retry_stride = refresh_stride chain;
}

abbrev bootstrap_tip_trim : ChainKey → ℕ
bootstrap_tip_trim ethereum = 4
bootstrap_tip_trim arbitrum = 8
bootstrap_tip_trim base = 8
bootstrap_tip_trim optimism = 8
bootstrap_tip_trim polygon = 16
bootstrap_tip_trim bnb = 12
bootstrap_tip_trim avalanche = 6

abbrev bootstrap_deadline_ticks : ℕ
bootstrap_deadline_ticks = 180

unfoldable pub bootstrap_policy : ChainKey → BootstrapPolicy
bootstrap_policy chain = record {
  tip_trim = bootstrap_tip_trim chain;
  deadline_ticks = bootstrap_deadline_ticks;
}
