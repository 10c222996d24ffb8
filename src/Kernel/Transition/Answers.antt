-- ===== src/Kernel/Transition/Answers.antt =====
-- core/crates/client-evm/src/kernel/mod.rs: what the answer to a ranged log request, and to a read of pools,
-- does to the state.
use armchair_analyst.Prelude.{
  nat_eq, ◌≡◌, ◌∙◌, refl, subst, not, ◌&&◌, Option, none, some, inl, inr, List, [], ◌∷◌, ◌==◌,
  lookup, lookup-insert, insert, contains, UniqueKeys, Map, is_some, arith, Bool-cases, nat_beq_iff,
  if◌then◌else◌,
}
use armchair_analyst.Pools.Keys.{BlockHash, PoolRef, pool_ref_eq, pool_ref_beq_iff}
use armchair_analyst.Pools.Events.{PoolLog, PoolState}
use armchair_analyst.Graph.Types.{BlockLogs, complete, BlocksGraph, node_payload, key_by_log_index}
use armchair_analyst.Graph.Logs.{with_complete_logs}
use armchair_analyst.Graph.Logs.Ladder.{lookup-update_block_data}
use armchair_analyst.Graph.Fold.{Snapshot}
use armchair_analyst.Requests.Pending.{GetLogsRange}
use armchair_analyst.Kernel.{State, Blocks, with_log_complete}
use armchair_analyst.Kernel.Transition.{
  PoolDataResult, with_seed_results, with_pool_seeds, with_blocks_complete, hashes_of,
  with_absent_complete, with_range_complete,
}

-- The logs of a block, if the graph holds it.
abbrev pub logs_at : BlocksGraph → BlockHash → Option BlockLogs
logs_at g hash = elim (lookup hash g.nodes) [
  | none ↦ none
  | some node ↦ some (node_payload node).logs
]

-- The last logs that a response names for a block.
abbrev pub answered : BlockHash → List (BlockHash × List PoolLog) → Option (List PoolLog)
answered hash [] = none
answered hash ((x, logs) ∷ blocks) = elim (answered hash blocks) [
  | some later ↦ some later
  | none ↦ if x == hash then some logs else none
]

-- What the logs of a block of the graph become.
abbrev pub after_answer : Option (List PoolLog) → Option BlockLogs → Option BlockLogs
after_answer none before = before
after_answer (some logs) none = none
after_answer (some logs) (some before) = some (complete (key_by_log_index logs))

abbrev pub settled : List BlockHash → BlockHash → Option (List PoolLog) → Option (List PoolLog)
settled covered hash (some logs) = some logs
settled covered hash none = if contains hash covered then some [] else none

complete-logs_at :
    (s : State) (hash : BlockHash) (logs : List PoolLog) (x : BlockHash)
    → logs_at (with_log_complete s hash logs).blocks.graph x ≡ (
        if hash == x
        then after_answer (some logs) (logs_at s.blocks.graph x)
        else logs_at s.blocks.graph x)
unfolding with_log_complete with_complete_logs
complete-logs_at s hash logs x = ground (
  arith,
  lookup-update_block_data s.blocks.graph hash
      (λ d. record d { logs = complete (key_by_log_index logs) }) x,
)

blocks-logs_at :
    (blocks : List (BlockHash × List PoolLog)) (s : State) (x : BlockHash)
    → logs_at (with_blocks_complete blocks s).blocks.graph x
      ≡ after_answer (answered x blocks) (logs_at s.blocks.graph x)
unfolding with_blocks_complete
blocks-logs_at [] s x = refl
blocks-logs_at ((hash, logs) ∷ blocks) s x =
    ground (
      arith,
      blocks-logs_at blocks (with_log_complete s hash logs) x,
      complete-logs_at s hash logs x,
    )

absent-logs_at :
    (covered responded : List BlockHash) (s : State) (x : BlockHash)
    → logs_at (with_absent_complete covered responded s).blocks.graph x
      ≡ after_answer
          (if contains x covered && not (contains x responded) then some [] else none)
          (logs_at s.blocks.graph x)
unfolding with_absent_complete
absent-logs_at [] responded s x = refl
absent-logs_at (hash ∷ covered) responded s x = elim (Bool-cases (contains hash responded)) [
  | inl named ↦
      rw (named, with_absent_complete)
        (ground (arith, named, absent-logs_at covered responded s x, nat_beq_iff hash x))
  | inr silent ↦
      rw (silent, with_absent_complete)
        (ground (
          arith,
          silent,
          absent-logs_at covered responded (with_log_complete s hash []) x,
          complete-logs_at s hash [] x,
          nat_beq_iff hash x,
        ))
]

answered-contains :
    (x : BlockHash) (blocks : List (BlockHash × List PoolLog))
    → is_some (answered x blocks) ≡ contains x (hashes_of blocks)
answered-contains x [] = refl
answered-contains x ((hash, logs) ∷ blocks) = ground (arith, answered-contains x blocks)

-- After the answer to a ranged request every block of the graph that the answer names has exactly the last
-- logs that it names, complete; every other block that the request covers is complete without logs; and all
-- others have the logs that they had.
pub with_range_complete-logs :
    (payload : GetLogsRange) (blocks : List (BlockHash × List PoolLog)) (s : State) (x : BlockHash)
    → logs_at (with_range_complete payload blocks s).blocks.graph x
      ≡ after_answer (settled payload.covered x (answered x blocks)) (logs_at s.blocks.graph x)
unfolding with_range_complete
with_range_complete-logs payload blocks s x =
    absent-logs_at payload.covered (hashes_of blocks) (with_blocks_complete blocks s) x
    ∙ ground (arith, blocks-logs_at blocks s x, answered-contains x blocks)

-- The state that a read of a pool yields, if the read succeeded.
abbrev pub read_state : Option PoolDataResult → Option PoolState → Option PoolState
read_state none before = before
read_state (some (inl pool_state)) before = some pool_state
read_state (some (inr failure)) before = before

lookup-seed_results :
    (results : Map PoolRef PoolDataResult) (snapshot : Snapshot) (pool : PoolRef)
    → UniqueKeys results
    → lookup pool (with_seed_results results snapshot)
      ≡ read_state (lookup pool results) (lookup pool snapshot)
unfolding with_seed_results lookup
lookup-seed_results [] snapshot pool u = refl
lookup-seed_results ((p, inl pool_state) ∷ results) snapshot pool (fresh, u) =
    lookup-seed_results results (insert p pool_state snapshot) pool u
    ∙ elim (Bool-cases (p == pool)) [
      | inl here ↦
          let absent =
            subst (λ q. lookup q results ≡ none) ((pool_ref_beq_iff p pool).0 here) fresh in
          ground (arith, here, absent, lookup-insert pool p pool_state snapshot)
      | inr there ↦ ground (arith, there, lookup-insert pool p pool_state snapshot)
    ]
lookup-seed_results ((p, inr failure) ∷ results) snapshot pool (fresh, u) =
    lookup-seed_results results snapshot pool u ∙ elim (Bool-cases (p == pool)) [
      | inl here ↦
          let absent =
            subst (λ q. lookup q results ≡ none) ((pool_ref_beq_iff p pool).0 here) fresh in
          ground (arith, here, absent)
      | inr there ↦ ground (arith, there)
    ]

-- A read of pools that was made at the anchor enters each state that it read, and leaves alone the pools
-- whose read failed or that it does not name; one made at any other block changes nothing.
pub with_pool_seeds-lem :
    (blocks : Blocks) (block_at : BlockHash) (results : Map PoolRef PoolDataResult) (pool : PoolRef)
    → UniqueKeys results
    → let blocks' = with_pool_seeds blocks block_at results in
      (blocks'.graph ≡ blocks.graph)
      × (lookup pool blocks'.finalized_snapshot ≡ (
          if block_at == blocks.graph.anchor.hash
          then read_state (lookup pool results) (lookup pool blocks.finalized_snapshot)
          else lookup pool blocks.finalized_snapshot))
unfolding with_pool_seeds
with_pool_seeds-lem blocks block_at results pool u =
    elim (Bool-cases (block_at == blocks.graph.anchor.hash)) [
      | inl here ↦
          rw (here, with_pool_seeds)
            (refl, lookup-seed_results results blocks.finalized_snapshot pool u)
      | inr stale ↦ rw (stale, with_pool_seeds) (refl, refl)
    ]
