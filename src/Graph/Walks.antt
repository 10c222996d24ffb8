-- ===== src/Graph/Walks.antt =====
-- core/crates/client-evm/src/kernel/blocks_graph.rs: the walks along parents. The connected walk meets
-- each node at most once, so the number of nodes bounds its rounds; the walks that follow raw parents
-- carry the set of visited hashes, as the code does.
pub mod Chain
pub mod Present
use mathlib.Core.List.{reverse}
use armchair_analyst.Prelude.{
  ℕ, nat_eq, zero, suc, ◌+◌, Bool, true, false, Option, none, some, List, [], ◌∷◌, ◌++◌, ◌==◌, Map,
  lookup, keys, contains, length,
}
use armchair_analyst.Pools.Keys.{BlockHash}
use armchair_analyst.Graph.Types.{
  AnchoredRef, anchor, block, BlockData, ConnectedNode, Node, connected, pending, BlocksGraph,
  node_payload, node_parent_hash, connected_of, connected_hash,
}

-- The loop of the connected walk, newest first.
unfoldable pub connected_walk : ℕ → Map BlockHash Node → BlockHash → List BlockHash
connected_walk zero nodes current = []
connected_walk (suc fuel) nodes current = elim (lookup current nodes) [
  | none ↦ []
  | some (pending node) ↦ []
  | some (connected node) ↦ elim node.parent [
    | anchor ↦ current ∷ []
    | block parent ↦ current ∷ connected_walk fuel nodes parent
  ]
]

unfoldable pub connected_oldest_to_newest : BlocksGraph → BlockHash → List BlockHash
unfolding connected_walk
connected_oldest_to_newest g target = reverse (connected_walk (length g.nodes) g.nodes target)

unfoldable pub canonical_oldest_to_newest : BlocksGraph → List BlockHash
unfolding connected_oldest_to_newest connected_hash
canonical_oldest_to_newest g = elim (connected_hash g g.observed_head) [
  | none ↦ []
  | some head ↦ connected_oldest_to_newest g head
]

-- The payloads of a list of hashes that are connected.
unfoldable pub connected_data : Map BlockHash Node → List BlockHash → List BlockData
connected_data nodes [] = []
connected_data nodes (hash ∷ hashes) = elim (connected_of (lookup hash nodes)) [
  | none ↦ connected_data nodes hashes
  | some node ↦ node.payload ∷ connected_data nodes hashes
]

unfoldable pub connected_path_data : BlocksGraph → BlockHash → List BlockData
unfolding connected_oldest_to_newest connected_data
connected_path_data g target = connected_data g.nodes (connected_oldest_to_newest g target)

-- The loop of the present walk, with what it has pushed so far; `none` is a loop out of fuel.
unfoldable pub present_walk :
    ℕ
    → BlocksGraph
    → BlockHash
    → List BlockHash
    → List (BlockHash × BlockData)
    → Option (List (BlockHash × BlockData))
present_walk zero g current visited chain = none
present_walk (suc fuel) g current visited chain = elim (current == g.anchor.hash) [
  | true ↦ some chain
  | false ↦ elim (contains current visited) [
    | true ↦ some []
    | false ↦ elim (lookup current g.nodes) [
      | none ↦ some chain
      | some node ↦
          present_walk fuel g (node_parent_hash g.anchor.hash node) (current ∷ visited)
            (chain ++ (current, node_payload node) ∷ [])
    ]
  ]
]

-- Each round but the last visits one more node.
abbrev pub walk_fuel : BlocksGraph → ℕ
walk_fuel g = suc (suc (length g.nodes))

unfoldable pub present_chain_from_head : BlocksGraph → List (BlockHash × BlockData)
unfolding present_walk
present_chain_from_head g = elim (present_walk (walk_fuel g) g g.observed_head [] []) [
  | none ↦ []
  | some chain ↦ chain
]

-- The loop of `distance_from_head`: the outer `none` is a loop out of fuel, the inner one is the code's.
unfoldable pub distance_walk :
    ℕ → BlocksGraph → BlockHash → BlockHash → List BlockHash → ℕ → Option (Option ℕ)
distance_walk zero g reference current visited distance = none
distance_walk (suc fuel) g reference current visited distance = elim (current == reference) [
  | true ↦ some (some distance)
  | false ↦ elim (contains current visited) [
    | true ↦ some none
    | false ↦ elim (lookup current g.nodes) [
      | none ↦ some none
      | some node ↦
          distance_walk fuel g reference (node_parent_hash g.anchor.hash node) (current ∷ visited)
            (distance + 1)
    ]
  ]
]

unfoldable pub distance_from_head : BlocksGraph → BlockHash → Option ℕ
unfolding distance_walk
distance_from_head g reference =
    elim (distance_walk (walk_fuel g) g reference g.observed_head [] 0) [
      | none ↦ none
      | some distance ↦ distance
    ]

unfoldable pub node_hashes : BlocksGraph → List BlockHash
node_hashes g = keys g.nodes
