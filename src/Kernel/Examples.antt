-- ===== src/Kernel/Examples.antt =====
-- A fresh state at the block 1, and the block 10 with two logs, of which the second comes first.
use armchair_analyst.Prelude.{nat_eq, ◌≡◌, refl, List, [], ◌∷◌, lookup, contains_key, arith}
use armchair_analyst.Pools.Events.{PoolLog}
use armchair_analyst.Graph.Types.{new, contains_block}
use armchair_analyst.Graph.Examples.{swap_log}
use armchair_analyst.Kernel.{State, init, with_log_head_observed, log_observed}
use armchair_analyst.Kernel.Commute

abbrev start : State
start = init 1 100

abbrev logs : List PoolLog
logs = swap_log 5 9 ∷ swap_log 2 8 ∷ []

log_head_observed_commute_example :
    ((with_log_head_observed (log_observed start 10 logs) 10 1 101 3 8).0
      ≡ log_observed (with_log_head_observed start 10 1 101 3 8).0 10 logs)
    × ((with_log_head_observed (log_observed start 10 logs) 10 1 101 3 8).1
        ≡ (with_log_head_observed start 10 1 101 3 8).1)
unfolding init new contains_block contains_key lookup
log_head_observed_commute_example =
    Commute.log_head_observed_commute start 10 logs refl refl (omega arith) 1 101 3 8
