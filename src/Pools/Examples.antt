-- ===== src/Pools/Examples.antt =====
-- A run of events on one pool: 100 of liquidity at the tick 3, a mint and a burn around it.
use armchair_analyst.Prelude.{◌≡◌, refl, some, List, [], ◌∷◌, pos}
use armchair_analyst.Pools.Events.{
  PoolState, PoolLogEvent, mint, burn, checked_add, checked_sub, active, fold_events,
  derive_pool_state,
}
use armchair_analyst.Pools.Accounts

abbrev start : PoolState
start = record { sqrt_price_x96 = 8; tick = pos 3; liquidity = 100 }

abbrev grown : PoolState
grown = record { sqrt_price_x96 = 8; tick = pos 3; liquidity = 95 }

abbrev deltas : List PoolLogEvent
deltas = mint (pos 3) (pos 9) 5 ∷ burn (pos 0) (pos 4) 10 ∷ mint (pos 0) (pos 3) 7 ∷ []

deltas-run : fold_events (some start) deltas ≡ some (some grown)
unfolding fold_events checked_add checked_sub active
deltas-run = refl

deltas-derives : derive_pool_state (some start) deltas ≡ some grown
unfolding derive_pool_state fold_events checked_add checked_sub active
deltas-derives = refl

derive-Accounts_example : Accounts.Accounts start deltas grown
unfolding derive_pool_state fold_events checked_add checked_sub active
derive-Accounts_example = Accounts.derive-Accounts start grown deltas (tt, (tt, (tt, tt))) refl
