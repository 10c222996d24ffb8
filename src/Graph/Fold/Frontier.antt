-- ===== src/Graph/Fold/Frontier.antt =====
-- core/crates/client-evm/src/kernel/blocks_graph.rs: `foldable_frontier` and the reads that use it.
use armchair_analyst.Prelude.{
  ◌≡◌, refl, ap, true, false, Option, none, some, List, [], ◌∷◌, ◌++◌, nat_eq, Map, lookup,
  if◌then◌else◌, arith, Bool-cases, Option-cases, inl, inr,
}
use armchair_analyst.Pools.Keys.{Address, Bloom, BlockHash, PoolRef}
use armchair_analyst.Graph.Types.{ConnectedNode, Node, BlocksGraph, connected_of}
use armchair_analyst.Graph.Walks.{connected_oldest_to_newest}
use armchair_analyst.Graph.Fold.{
  BloomApi, Authority, blocks_fold, frontier_walk, foldable_frontier, Snapshot,
  projected_fold_frontier, projected_pool_states, is_dispatched, projected_pool_states_if_changed,
}

-- The last of a list, or else what stands before it.
abbrev pub last_or : BlockHash → List BlockHash → BlockHash
last_or before [] = before
last_or before (hash ∷ hashes) = last_or hash hashes

module _ (api : BloomApi) (authority : Authority) (watched : List Bloom)
    (nodes : Map BlockHash Node) where
  -- Every block is connected, and either its logs are readable or its bloom clears all that is watched.
  abbrev pub AllFoldable : List BlockHash → Type 0
  AllFoldable [] = Unit {0}
  AllFoldable (hash ∷ hashes) =
      ((node : ConnectedNode) × (connected_of (lookup hash nodes) ≡ some node)
        × (blocks_fold api authority watched node.payload ≡ false))
      × AllFoldable hashes

  -- There is no next block, or it stops the fold.
  abbrev pub Stops : List BlockHash → Type 0
  Stops [] = Unit {0}
  Stops (hash ∷ hashes) =
      (node : ConnectedNode)
      → connected_of (lookup hash nodes) ≡ some node
      → blocks_fold api authority watched node.payload ≡ true

  -- The path is cut where the fold stops.
  pub record Frontier (start : BlockHash) (path : List BlockHash) (frontier : BlockHash)
      : Type 0 where
    pub folded : List BlockHash
    pub rest : List BlockHash
    pub split : path ≡ folded ++ rest
    pub ends : frontier ≡ last_or start folded
    pub foldable : AllFoldable folded
    pub stops : Stops rest

  frontier_walk-Frontier :
      (start : BlockHash) (path : List BlockHash)
      → Frontier start path (frontier_walk api authority watched nodes start path)
  unfolding frontier_walk
  frontier_walk-Frontier start [] = record {
    folded = [];
    rest = [];
    split = refl;
    ends = refl;
    foldable = tt;
    stops = tt;
  }
  frontier_walk-Frontier start (hash ∷ hashes) =
      let later = frontier_walk-Frontier hash hashes in
      elim (Option-cases (connected_of (lookup hash nodes))) [
        | inl gone ↦ record {
          folded = [];
          rest = hash ∷ hashes;
          split = refl;
          ends = rw (gone, frontier_walk) refl;
          foldable = tt;
          stops = λ node at. absurd (cc);
        }
        | inr (node, at) ↦ elim (Bool-cases (blocks_fold api authority watched node.payload)) [
          | inl blocked ↦ record {
            folded = [];
            rest = hash ∷ hashes;
            split = refl;
            ends = rw (at, frontier_walk) (rw (blocked, frontier_walk) refl);
            foldable = tt;
            stops = λ other at'. ground (arith, at, at', blocked);
          }
          | inr clear ↦ record {
            folded = hash ∷ later.folded;
            rest = later.rest;
            split = ap (λ l. hash ∷ l) later.split;
            ends = rw (at, frontier_walk) (rw (clear, frontier_walk) later.ends);
            foldable = ((node, at, clear), later.foldable);
            stops = later.stops;
          }
        ]
      ]

-- The frontier of a fold to `target` cuts the path from the anchor in two: every block up to the frontier
-- has logs that the fold may read or a bloom that clears every watched address, and the block after it,
-- if there is one, has neither.
pub foldable_frontier-Frontier :
    (api : BloomApi) (g : BlocksGraph) (target : BlockHash) (watched : List Bloom)
    (authority : Authority)
    → Frontier api authority watched g.nodes g.anchor.hash
        (connected_oldest_to_newest g target)
        (foldable_frontier api g target watched authority)
unfolding foldable_frontier
foldable_frontier-Frontier api g target watched authority =
    frontier_walk-Frontier api authority watched g.nodes g.anchor.hash
      (connected_oldest_to_newest g target)

-- The read that skips an unchanged frontier returns nothing exactly when the frontier is the dispatched
-- one, and otherwise what the plain read returns.
pub projected_if_changed-projected :
    (api : BloomApi) (g : BlocksGraph) (base : Snapshot) (verified : List PoolRef)
    (v4_manager : Option Address) (last_dispatched : Option BlockHash)
    → projected_pool_states_if_changed api g base verified v4_manager last_dispatched ≡ (
        if is_dispatched last_dispatched (projected_pool_states api g base verified v4_manager).1
        then none
        else some (projected_pool_states api g base verified v4_manager))
unfolding projected_pool_states_if_changed projected_pool_states
projected_if_changed-projected api g base verified v4_manager last_dispatched =
    elim (Option-cases (projected_fold_frontier api g verified v4_manager)) [
      | inl no_head ↦ rw (no_head, projected_pool_states, projected_pool_states_if_changed) refl
      | inr (frontier, head) ↦
          rw (head, projected_pool_states, projected_pool_states_if_changed) refl
    ]
