-- ===== src/Graph/Examples.antt =====
-- A small graph: block 10 under the anchor 1, its child 11 with two streamed logs, and block 13, which
-- waits for 12.
use mathlib.Core.List.{reverse}
use armchair_analyst.Prelude.{
  ℕ, nat_eq, ◌≡◌, ◌≢◌, ◌⊎◌, ◌↔◌, refl, subst, false, Option, none, some, List, [], ◌∷◌, lookup,
  is_some, insert, remove, length, contains, last_of, eq_of_some, arith, pos,
}
use armchair_analyst.Pools.Keys.{BlockHash, uniswap_v3, ethereum, PoolRef, pool_ref_eq}
use armchair_analyst.Pools.Events.{swap, PoolLog}
use armchair_analyst.Graph.Types.{
  anchor, unknown, streamed, BlockData, BlocksGraph, new, Node, connected, node_payload,
  is_connected_node, pending_count, indexed,
}
use armchair_analyst.Graph.Admission.{from_seed, with_data_capped, SeedBlock, admitted}
use armchair_analyst.Graph.Admission.Invariant.{IsTree, view, with_entry}
use armchair_analyst.Graph.Admission.Refine
use armchair_analyst.Graph.Admission.Order
use armchair_analyst.Graph.Admission.Seed
use armchair_analyst.Graph.Logs.{with_streamed_logs, with_complete_logs}
use armchair_analyst.Graph.Logs.Streams
use armchair_analyst.Graph.Logs.Miss
use armchair_analyst.Graph.Walks.{
  connected_oldest_to_newest, canonical_oldest_to_newest, connected_path_data, present_walk,
  walk_fuel, present_chain_from_head, distance_walk, distance_from_head,
}
use armchair_analyst.Graph.Walks.Chain
use armchair_analyst.Graph.Walks.Present
use armchair_analyst.Graph.Fold.{require_complete, folded_overlay}
use armchair_analyst.Graph.Fold.Buckets
use armchair_analyst.Graph.Fold.Overlay

abbrev pub pool : PoolRef
pool = record { key = uniswap_v3 7; chain = ethereum }

abbrev pub swap_log : ℕ → ℕ → PoolLog
swap_log index price = record {
  pool = uniswap_v3 7;
  log_index = index;
  event = swap price (pos 3) 50;
}

abbrev seed : List SeedBlock
seed = (10, 1, 101, swap_log 0 8 ∷ []) ∷ (13, 12, 103, []) ∷ (11, 10, 102, []) ∷ []

abbrev pub chain : BlocksGraph
chain = from_seed 1 100 seed

pub chain-IsTree : IsTree chain
chain-IsTree = Seed.from_seed-IsTree 1 100 seed

abbrev pub empty_block : ℕ → BlockData
empty_block number = record { number = number; logs_bloom = none; logs = unknown }

with_data_capped-view_example :
    let (g', outcome) = with_data_capped chain 12 11 (empty_block 103) 8 in
    ((outcome ≡ admitted)
      × (view chain 12 ≡ none)
      × ((x : BlockHash) → view g' x ≡ with_entry (view chain) 12 (11, empty_block 103) x))
    ⊎ ((outcome ≢ admitted) × (g' ≡ chain))
with_data_capped-view_example =
    Refine.with_data_capped-view chain 12 11 (empty_block 103) 8 chain-IsTree

-- The parent 12 of the waiting block 13, and a block 15 that waits: in either order.
with_data_capped_order_example :
    let both =
      with_data_capped
        (with_data_capped chain 12 11 (empty_block 103) 8).0
        15
        14
        (empty_block 105)
        8 in
    let swapped =
      with_data_capped
        (with_data_capped chain 15 14 (empty_block 105) 8).0
        12
        11
        (empty_block 103)
        8 in
    (view both.0 13 ≡ view swapped.0 13)
    × (is_connected_node (lookup 13 both.0.nodes) ≡ is_connected_node (lookup 13 swapped.0.nodes))
unfolding from_seed new with_data_capped insert remove lookup pending_count
with_data_capped_order_example =
    Order.with_data_capped_order chain 12 11 15 14 (empty_block 103) (empty_block 105) 8
      chain-IsTree refl refl refl refl 13

-- The chain with its head at 11.
abbrev pub headed : BlocksGraph
headed = record chain { observed_head = 11 }

pub headed-IsTree : IsTree headed
headed-IsTree = record {
  unique = chain-IsTree.unique;
  no_anchor = chain-IsTree.no_anchor;
  anchored = chain-IsTree.anchored;
  awaited = chain-IsTree.awaited;
}

-- A block whose log 4 was streamed.
abbrev streaming_block : Node
streaming_block = connected (record {
  parent = anchor;
  payload = record { number = 101; logs_bloom = none; logs = streamed ((4, swap_log 4 8) ∷ []) };
})

abbrev pub streaming : BlocksGraph
streaming = record {
  anchor = record { hash = 1; number = 100 };
  nodes = (10, streaming_block) ∷ [];
  observed_head = 10;
}

with_streamed_logs-swap_example :
    with_streamed_logs (with_streamed_logs streaming 10 (swap_log 2 9 ∷ [])) 10 (swap_log 6 7 ∷ [])
    ≡ with_streamed_logs
        (with_streamed_logs streaming 10 (swap_log 6 7 ∷ []))
        10
        (swap_log 2 9 ∷ [])
unfolding lookup last_of
with_streamed_logs-swap_example =
    Streams.with_streamed_logs-swap streaming 10 (swap_log 2 9 ∷ []) (swap_log 6 7 ∷ [])
      (λ i a b p q. ground (arith, p, q))
      (λ node e.
        subst (λ (n : Node). Streams.SortedLogs (node_payload n).logs) (eq_of_some e) (tt, tt))

with_complete_logs-miss_example :
    ((with_complete_logs streaming 10 (swap_log 4 8 ∷ swap_log 5 8 ∷ [])).1 ≡ false) ↔ (
      (i : ℕ)
      → is_some (lookup i ((4, swap_log 4 8) ∷ []))
        ≡ is_some (last_of i (indexed (swap_log 4 8 ∷ swap_log 5 8 ∷ []))))
unfolding lookup
with_complete_logs-miss_example =
    Miss.with_complete_logs-miss streaming 10 (swap_log 4 8 ∷ swap_log 5 8 ∷ []) streaming_block
      ((4, swap_log 4 8) ∷ []) refl refl (tt, tt)

connected_oldest_to_newest-Chain_example :
    Chain.Chain chain.nodes 11 (reverse (connected_oldest_to_newest chain 11))
unfolding from_seed new with_data_capped insert remove lookup pending_count
connected_oldest_to_newest-Chain_example =
    Chain.connected_oldest_to_newest-Chain chain 11 chain-IsTree refl

present_chain-canonical_example :
    (Present.hashes_of (present_chain_from_head headed)
      ≡ reverse (canonical_oldest_to_newest headed))
    × (distance_from_head headed 1 ≡ some (length (reverse (canonical_oldest_to_newest headed))))
unfolding from_seed new with_data_capped insert remove lookup pending_count
present_chain-canonical_example = Present.present_chain-canonical headed headed-IsTree refl

raw_walks_return_example :
    ((path : List (BlockHash × BlockData)) × (present_walk (walk_fuel headed) headed 11 [] []
        ≡ some path)
      × (present_chain_from_head headed ≡ path))
    × ((d : Option ℕ) × (distance_walk (walk_fuel headed) headed 10 11 [] 0 ≡ some d)
        × (distance_from_head headed 10 ≡ d))
raw_walks_return_example = Present.raw_walks_return headed 10

lookup-folded_overlay_example :
    lookup pool (folded_overlay headed [] (pool ∷ []) 11 require_complete)
    ≡ Overlay.pool_entry
        (lookup pool [])
        (contains pool (pool ∷ []))
        (Buckets.path_events require_complete pool.key (connected_path_data headed 11))
lookup-folded_overlay_example =
    Overlay.lookup-folded_overlay headed [] (pool ∷ []) 11 require_complete pool tt
