-- ===== src/Graph/Runs.antt =====
-- Finalization and the queries on the small graph of the examples. The blooms of these runs are sets of
-- addresses that are equal or not.
use armchair_analyst.Prelude.{
  nat_eq, nat_beq, ◌≡◌, ◌≢◌, ◌⊎◌, ◌↔◌, refl, true, false, not, ◌&&◌, none, List, [], ◌∷◌, lookup,
  contains, if◌then◌else◌, arith,
}
use armchair_analyst.Pools.Chains.{max_pending_of, approx_finalized_block_age}
use armchair_analyst.Pools.Keys.{ethereum, BlockHash, pool_ref_eq}
use armchair_analyst.Graph.Types.{BlocksGraph, is_connected_node}
use armchair_analyst.Graph.Admission.{
  admitted, with_data_capped, with_block_capped, with_observed_head,
}
use armchair_analyst.Graph.Reachable
use armchair_analyst.Graph.Admission.Invariant.{view, with_entry}
use armchair_analyst.Graph.Admission.Refine
use armchair_analyst.Graph.Reachable.Connects
use armchair_analyst.Graph.Logs.{with_streamed_logs, with_complete_logs}
use armchair_analyst.Graph.Walks.{connected_oldest_to_newest}
use armchair_analyst.Graph.Walks.Chain
use armchair_analyst.Graph.Fold.{BloomApi, bloom_may_touch, require_complete, foldable_frontier}
use armchair_analyst.Graph.Fold.Frontier
use armchair_analyst.Graph.Finality.{reroot, finalized_to}
use armchair_analyst.Graph.Finality.Reroot
use armchair_analyst.Graph.Finality.Advance
use armchair_analyst.Graph.Queries.{
  missing_parents, missing_complete_ranges, unknown_log_hole_hashes, is_hole,
}
use armchair_analyst.Graph.Queries.Parents
use armchair_analyst.Graph.Queries.Holes
use armchair_analyst.Graph.Queries.Ranges
use armchair_analyst.Graph.Examples.{
  pool, empty_block, chain, chain-IsTree, headed, headed-IsTree, swap_log, streaming,
}

abbrev pub equal_blooms : BloomApi
equal_blooms = record { pattern_of = λ a. a; covers = nat_beq }

foldable_frontier-Frontier_example :
    Frontier.Frontier equal_blooms require_complete
      (7 ∷ [])
      headed.nodes
      headed.anchor.hash
      (connected_oldest_to_newest headed 11)
      (foldable_frontier equal_blooms headed 11 (7 ∷ []) require_complete)
foldable_frontier-Frontier_example =
    Frontier.foldable_frontier-Frontier equal_blooms headed 11 (7 ∷ []) require_complete

finalized_to-Finalized_example :
    Advance.Finalized equal_blooms headed 10 []
      (pool ∷ [])
      none
      (finalized_to equal_blooms headed 10 [] (pool ∷ []) none)
finalized_to-Finalized_example =
    Advance.finalized_to-Finalized equal_blooms headed 10 [] (pool ∷ []) none

reroot-view_example :
    ((is_connected_node (lookup 11 headed.nodes) ≡ false) × (view (reroot headed 10 101) 11 ≡ none))
    ⊎ ((hashes : List BlockHash) × Chain.Chain headed.nodes 11 hashes
        × (view (reroot headed 10 101) 11
            ≡ (if not (nat_beq 11 10) && contains 10 hashes then view headed 11 else none)))
reroot-view_example = Reroot.reroot-view headed 10 101 headed-IsTree 11

missing_parents-Awaited_example :
    Parents.StrictlyAscending (missing_parents chain)
    × ((hash : BlockHash)
        → (contains hash (missing_parents chain) ≡ true)
          ↔ Parents.Awaited chain.anchor.hash chain.nodes chain.nodes hash)
missing_parents-Awaited_example = Parents.missing_parents-Awaited chain chain-IsTree.unique

missing_complete_ranges-covered_example :
    (Ranges.covered (missing_complete_ranges equal_blooms streaming 10 (7 ∷ []) [])
      ≡ Ranges.path_holes equal_blooms
          (7 ∷ [])
          []
          streaming.nodes
          (connected_oldest_to_newest streaming 10))
    × Ranges.AllClosed (missing_complete_ranges equal_blooms streaming 10 (7 ∷ []) [])
unfolding connected_oldest_to_newest Ranges.path_holes lookup is_hole bloom_may_touch
missing_complete_ranges-covered_example =
    Ranges.missing_complete_ranges-covered equal_blooms streaming 10 (7 ∷ []) [] (omega arith, tt)

unknown_log_hole_hashes_served_example :
    (contains 10 (
        unknown_log_hole_hashes equal_blooms
          (with_streamed_logs headed 10 (swap_log 4 9 ∷ []))
          (7 ∷ [])
          []
          0)
      ≡ false)
    × (contains 10 (
          unknown_log_hole_hashes equal_blooms
            (with_complete_logs headed 10 (swap_log 4 9 ∷ [])).0
            (7 ∷ [])
            []
            0)
        ≡ false)
unknown_log_hole_hashes_served_example =
    Holes.unknown_log_hole_hashes_served equal_blooms headed (7 ∷ []) [] 0 10 (swap_log 4 9 ∷ [])

-- Seeded, with the head moved to 11, block 10 finalized, and a header that waits.
Reachable-Contract_example :
    Reachable.Contract 1024
      (with_block_capped
        (finalized_to equal_blooms (with_observed_head chain 11) 10 [] (pool ∷ []) none).0
        15
        14
        105
        3
        512).0
unfolding max_pending_of approx_finalized_block_age
Reachable-Contract_example = Reachable.Reachable-Contract {chain = ethereum} (
    Reachable.header _ 15 14 105 3
      (Reachable.finalized equal_blooms (with_observed_head chain 11) 10 [] (pool ∷ []) none
        (Reachable.head chain 11 (Reachable.seeded 1 100 _ refl) refl) refl)
      refl)

-- Block 20 waits for 13, and 13 arrives.
abbrev waiting : BlocksGraph
waiting = (with_block_capped chain 20 13 104 3 512).0

with_data_capped-Rooted_example :
    let (g', outcome) = with_data_capped waiting 13 11 (empty_block 103) 512 in
    ((outcome ≡ admitted)
      × ((x : BlockHash)
          → (is_connected_node (lookup x g'.nodes) ≡ true)
            ↔ Refine.Rooted waiting.anchor.hash
                (with_entry (view waiting) 13 (11, empty_block 103))
                x))
    ⊎ ((outcome ≢ admitted)
        × (g' ≡ waiting)
        × ((x : BlockHash)
            → (is_connected_node (lookup x g'.nodes) ≡ true)
              ↔ Refine.Rooted waiting.anchor.hash (view waiting) x))
unfolding max_pending_of approx_finalized_block_age
with_data_capped-Rooted_example =
    Connects.with_data_capped-Rooted {chain = ethereum} waiting 13 11 (empty_block 103) 512
      (Reachable.header chain 20 13 104 3 (Reachable.seeded 1 100 _ refl) refl)
