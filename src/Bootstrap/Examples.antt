-- ===== src/Bootstrap/Examples.antt =====
-- core/crates/client-evm/src/bootstrap/mod.rs: a bootstrap of three answered requests and a stale answer, one
-- that runs out of time, and the seed of a scan with a gap.
use armchair_analyst.Prelude.{
  ℕ, nat_eq, ◌+◌, ◌≡◌, refl, none, some, List, [], ◌∷◌, ◌++◌, is_some, true, arith, insert, remove,
}
use armchair_analyst.Pools.Keys.{BlockHash, base}
use armchair_analyst.Requests.Tick.{is_expired_since}
use armchair_analyst.Graph.Admission.{SeedBlock}
use armchair_analyst.Graph.Types.{pending_count}
use armchair_analyst.Kernel.Transition.{activate_from_seed}
use armchair_analyst.Bootstrap.Window.{RangeLogBlock, FinalizedAnchor, from_window}
use armchair_analyst.Bootstrap.Window.Linked.{Linked, Holds, from_window-Linked}
use armchair_analyst.Bootstrap.Requests.{finalized_header_request}
use armchair_analyst.Bootstrap.Machine.{
  BootstrapPolicy, BootstrapOutcome, activated, dropped, BootstrapEvent, finalized_header_received,
  pool_candidates_received, pools_validated, tokens_resolved, bootstrap_request_failed,
  bootstrap_tick, bootstrap_init, completion, unresolved, bootstrap_transition, bootstrap_run,
}
use armchair_analyst.Bootstrap.Machine.Sequential.{bootstrap_run-Announces}
use armchair_analyst.Bootstrap.Machine.Fits.{Announces}
use armchair_analyst.Bootstrap.Machine.Deadline.{bootstrap_run-completion}
use armchair_analyst.Bootstrap.Activation.{bootstrap_run-activate_from_seed}

abbrev pub filler : BlockHash → BlockHash → BlockHash
filler lower upper = lower + upper + 1000

abbrev pub scanned : BlockHash → ℕ → RangeLogBlock
scanned hash number = record { hash = hash; number = number; logs = [] }

abbrev pub window : List RangeLogBlock
window = scanned 115 15 ∷ scanned 109 9 ∷ scanned 111 11 ∷ scanned 113 13 ∷ scanned 999 11 ∷ []

abbrev pub finalized : FinalizedAnchor
finalized = record { hash = 110; number = 10 }

abbrev seed : List SeedBlock
seed = (111, 110, 11, []) ∷ (1224, 111, 12, []) ∷ (113, 1224, 13, []) ∷ []

from_window_test : from_window filler window finalized 2 ≡ seed
unfolding from_window
from_window_test = refl

from_window-Linked_example :
    Linked 110 10 (from_window filler window finalized 2)
    × Holds 11 (scanned 111 11) (from_window filler window finalized 2)
from_window-Linked_example =
    from_window-Linked filler window finalized 2 11 15 (scanned 111 11) (scanned 115 15)
      (omega arith) refl refl (omega arith)

abbrev policy : BootstrapPolicy
policy = record { tip_trim = 2; deadline_ticks = 2 }

-- A stale answer, a retry, and a scan in two windows.
abbrev events : List BootstrapEvent
events =
    finalized_header_received 9 finalized
    ∷ bootstrap_request_failed (finalized_header_request 1)
    ∷ finalized_header_received 2 finalized
    ∷ pool_candidates_received 3 window 15 (some 16)
    ∷ pool_candidates_received 4 [] 15 none
    ∷ bootstrap_tick
    ∷ pools_validated 5 []
    ∷ tokens_resolved 6 []
    ∷ []

abbrev outcome : BootstrapOutcome
outcome = unresolved finalized (record { verified = []; rejected = [] }) seed

completion_test :
    completion (bootstrap_run filler base (bootstrap_init policy).0 events)
    ≡ some (activated outcome)
unfolding completion bootstrap_run bootstrap_init insert remove is_expired_since
completion_test = refl

dropped_test :
    completion
      (bootstrap_run filler base (bootstrap_init policy).0 (bootstrap_tick ∷ bootstrap_tick ∷ []))
    ≡ some dropped
unfolding completion bootstrap_run bootstrap_init
dropped_test = refl

bootstrap_run-Announces_example : Announces base (events ++ bootstrap_tick ∷ []) (
    bootstrap_transition filler base
      (bootstrap_run filler base (bootstrap_init policy).0 events)
      bootstrap_tick)
bootstrap_run-Announces_example = bootstrap_run-Announces filler base policy events bootstrap_tick

bootstrap_run-completion_example :
    is_some (
      completion (
        bootstrap_run filler base
          (bootstrap_init policy).0
          (bootstrap_tick ∷ finalized_header_received 1 finalized ∷ bootstrap_tick ∷ [])))
    ≡ true
bootstrap_run-completion_example =
    bootstrap_run-completion filler base policy
      (bootstrap_tick ∷ finalized_header_received 1 finalized ∷ bootstrap_tick ∷ []) (omega arith)
      (omega arith) (omega arith)

bootstrap_run-activate_from_seed_example :
    let (s, effects) =
      activate_from_seed 110 10 [] outcome.pool_registry outcome.token_registry seed in
    (pending_count s.blocks.graph ≡ 0) × (effects ≡ [])
bootstrap_run-activate_from_seed_example =
    bootstrap_run-activate_from_seed filler base policy events outcome completion_test
