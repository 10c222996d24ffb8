-- ===== src/Pools/Events.antt =====
-- core/crates/client-evm/src/pool_log.rs: the decoded log events of a pool, and the fold that turns
-- an ordered run of them into the state of the pool after the run. Decoding itself is the work of
-- the alloy library. Ticks are signed, and a liquidity is a `u128`.
use armchair_analyst.Prelude.{
  ℕ, ◌+◌, ◌-◌, ◌^◌, Bool, ◌&&◌, Option, none, some, List, [], ◌∷◌, ℤ, ltb_ℤ, leb_ℤ, ltb, leb,
  if◌then◌else◌,
}
use armchair_analyst.Pools.Keys.{ProtocolPoolKey}

pub record PoolState : Type 0 where
  pub sqrt_price_x96 : ℕ
  pub tick : ℤ
  pub liquidity : ℕ

pub data PoolLogEvent : Type 0 where
  initialize : (sqrt_price_x96 : ℕ) (tick : ℤ) → PoolLogEvent
  swap : (sqrt_price_x96 : ℕ) (tick : ℤ) (liquidity : ℕ) → PoolLogEvent
  mint burn : (tick_lower tick_upper : ℤ) (amount : ℕ) → PoolLogEvent

pub record PoolLog : Type 0 where
  pub pool : ProtocolPoolKey
  pub log_index : ℕ
  pub event : PoolLogEvent

-- `u128::checked_add`.
unfoldable pub checked_add : ℕ → ℕ → Option ℕ
checked_add l amount = if ltb (l + amount) (2 ^ 128) then some (l + amount) else none

-- `u128::checked_sub`.
unfoldable pub checked_sub : ℕ → ℕ → Option ℕ
checked_sub l amount = if leb amount l then some (l - amount) else none

unfoldable pub active : PoolState → ℤ → ℤ → Bool
active s tick_lower tick_upper = leb_ℤ tick_lower s.tick && ltb_ℤ s.tick tick_upper

unfoldable pub apply_liquidity_delta : PoolState → ℤ → ℤ → (ℕ → Option ℕ) → Option PoolState
apply_liquidity_delta current tick_lower tick_upper delta =
    if active current tick_lower tick_upper
    then elim (delta current.liquidity) [
      | none ↦ none
      | some l ↦ some (record current { liquidity = l })
    ]
    else some current

-- One round of the loop on the running state: the outer `none` is the early return.
unfoldable pub fold_event : Option PoolState → PoolLogEvent → Option (Option PoolState)
unfolding apply_liquidity_delta
fold_event running (swap price tick liquidity) =
    some (some (record { sqrt_price_x96 = price; tick = tick; liquidity = liquidity }))
fold_event running (initialize price tick) =
    some (some (record { sqrt_price_x96 = price; tick = tick; liquidity = 0 }))
fold_event none (mint lo hi amount) = some none
fold_event (some current) (mint lo hi amount) =
    elim (apply_liquidity_delta current lo hi (λ l. checked_add l amount)) [
      | none ↦ none
      | some s ↦ some (some s)
    ]
fold_event none (burn lo hi amount) = some none
fold_event (some current) (burn lo hi amount) =
    elim (apply_liquidity_delta current lo hi (λ l. checked_sub l amount)) [
      | none ↦ none
      | some s ↦ some (some s)
    ]

unfoldable pub fold_events : Option PoolState → List PoolLogEvent → Option (Option PoolState)
unfolding fold_event
fold_events running [] = some running
fold_events running (event ∷ rest) = elim (fold_event running event) [
  | none ↦ none
  | some next ↦ fold_events next rest
]

unfoldable pub derive_pool_state : Option PoolState → List PoolLogEvent → Option PoolState
unfolding fold_events
derive_pool_state base ordered = elim (fold_events base ordered) [
  | none ↦ none
  | some running ↦ running
]
