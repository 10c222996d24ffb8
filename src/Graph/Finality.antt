-- ===== src/Graph/Finality.antt =====
-- core/crates/client-evm/src/kernel/blocks_graph.rs: the anchor advances over the foldable prefix of the
-- canonical chain, folds it into the snapshot and prunes what no longer descends from it.
pub mod Descends
pub mod Reroot
pub mod Pruned
pub mod Advance
use armchair_analyst.Prelude.{
  ℕ, nat_eq, zero, suc, Bool, true, false, not, ◌&&◌, ◌||◌, Option, none, some, List, [], ◌∷◌, ◌==◌,
  Map, lookup, retain, contains_key, contains, length, if◌then◌else◌,
}
use armchair_analyst.Pools.Keys.{Address, BlockHash, PoolRef}
use armchair_analyst.Graph.Types.{
  AnchoredRef, anchor, block, ConnectedNode, Node, connected, pending, BlocksGraph, connected_of,
  is_connected_node,
}
use armchair_analyst.Graph.Walks.{walk_fuel, canonical_oldest_to_newest}
use armchair_analyst.Graph.Fold.{
  BloomApi, require_complete, bloom_patterns, watched_addresses, foldable_frontier, Snapshot,
  folded_pool_states,
}

-- The loop of `connected_descends_from`; `none` is a loop out of fuel.
unfoldable pub descends_walk :
    ℕ → Map BlockHash Node → BlockHash → BlockHash → List BlockHash → Option Bool
descends_walk zero nodes ancestor current visited = none
descends_walk (suc fuel) nodes ancestor current visited = elim (current == ancestor) [
  | true ↦ some true
  | false ↦ elim (contains current visited) [
    | true ↦ some false
    | false ↦ elim (lookup current nodes) [
      | none ↦ some false
      | some (pending node) ↦ some false
      | some (connected node) ↦ elim node.parent [
        | anchor ↦ some false
        | block parent ↦ descends_walk fuel nodes ancestor parent (current ∷ visited)
      ]
    ]
  ]
]

unfoldable pub connected_descends_from : Map BlockHash Node → BlockHash → BlockHash → Bool
unfolding descends_walk
connected_descends_from nodes start ancestor =
    elim (descends_walk (suc (suc (length nodes))) nodes ancestor start []) [
      | none ↦ false
      | some b ↦ b
    ]

-- The hashes that survive a re-root at `new_anchor`: a loop over the entries of `nodes`.
unfoldable pub retained_from : Map BlockHash Node → BlockHash → Map BlockHash Node → List BlockHash
retained_from nodes new_anchor [] = []
retained_from nodes new_anchor ((hash, node) ∷ rest) =
    if is_connected_node (some node)
      && not (hash == new_anchor)
      && connected_descends_from nodes hash new_anchor
    then hash ∷ retained_from nodes new_anchor rest
    else retained_from nodes new_anchor rest

abbrev pub reclassify_parent : BlockHash → AnchoredRef → AnchoredRef
reclassify_parent new_anchor anchor = anchor
reclassify_parent new_anchor (block parent) = if parent == new_anchor then anchor else block parent

-- A direct child of the new anchor now refers to the root.
abbrev pub reclassify : BlockHash → Node → Node
reclassify new_anchor (connected node) =
    connected (record node { parent = reclassify_parent new_anchor node.parent })
reclassify new_anchor (pending node) = pending node

unfoldable pub map_nodes : (Node → Node) → Map BlockHash Node → Map BlockHash Node
map_nodes f [] = []
map_nodes f ((hash, node) ∷ nodes) = (hash, f node) ∷ map_nodes f nodes

unfoldable pub rerooted_nodes : Map BlockHash Node → BlockHash → Map BlockHash Node
unfolding retained_from map_nodes retain
rerooted_nodes nodes new_anchor =
    let retained = retained_from nodes new_anchor nodes in
    map_nodes (reclassify new_anchor) (retain (λ hash _. contains hash retained) nodes)

unfoldable pub reroot : BlocksGraph → BlockHash → ℕ → BlocksGraph
unfolding rerooted_nodes
reroot g new_anchor number =
    let nodes = rerooted_nodes g.nodes new_anchor in
    record {
      anchor = record { hash = new_anchor; number = number };
      nodes = nodes;
      observed_head =
          if g.observed_head == new_anchor || contains_key g.observed_head nodes
          then g.observed_head
          else new_anchor;
    }

unfoldable pub reanchored_to :
    BlocksGraph → BlockHash → Snapshot → List PoolRef → BlocksGraph × Snapshot
unfolding reroot
reanchored_to g new_anchor base verified =
    if new_anchor == g.anchor.hash
    then (g, base)
    else elim (connected_of (lookup new_anchor g.nodes)) [
      | none ↦ (g, base)
      | some node ↦ (
        reroot g new_anchor node.payload.number,
        folded_pool_states g base verified new_anchor require_complete,
      )
    ]

-- `Iterator::find` of one hash.
abbrev pub find_hash : BlockHash → List BlockHash → Option BlockHash
find_hash target [] = none
find_hash target (hash ∷ hashes) = if hash == target then some hash else find_hash target hashes

unfoldable pub canonical_connected_target : BlocksGraph → BlockHash → Option BlockHash
canonical_connected_target g target = elim (connected_of (lookup target g.nodes)) [
  | none ↦ none
  | some node ↦ find_hash target (canonical_oldest_to_newest g)
]

unfoldable pub finalized_to :
    BloomApi
    → BlocksGraph
    → BlockHash
    → Snapshot
    → List PoolRef
    → Option Address
    → BlocksGraph × Snapshot
unfolding canonical_connected_target reanchored_to
finalized_to api g target base verified v4_manager = elim (canonical_connected_target g target) [
  | none ↦ (g, base)
  | some target' ↦
      let watched = bloom_patterns api (watched_addresses verified v4_manager) in
      reanchored_to g (foldable_frontier api g target' watched require_complete) base verified
]
