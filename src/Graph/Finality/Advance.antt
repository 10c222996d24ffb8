-- ===== src/Graph/Finality/Advance.antt =====
-- core/crates/client-evm/src/kernel/blocks_graph.rs: one call of `finalized_to`, its possible
-- results, and the observed head.
use armchair_analyst.Prelude.{
  ℕ, nat_eq, ◌≡◌, ◌∙◌, ap, subst, refl, true, ◌||◌, ◌⊎◌, Option, none, some, false, List, Map, [],
  ◌∷◌, ◌==◌, lookup, contains, contains_key, arith, Bool-cases, Option-cases, inl, inr, nat_beq_iff,
}
use armchair_analyst.Pools.Keys.{Address, Bloom, BlockHash, PoolRef}
use armchair_analyst.Graph.Types.{BlocksGraph, ConnectedNode, Node, connected_of}
use armchair_analyst.Graph.Admission.Invariant.{IsTree}
use armchair_analyst.Graph.Walks.{connected_oldest_to_newest, canonical_oldest_to_newest}
use armchair_analyst.Graph.Fold.{
  BloomApi, Authority, require_complete, bloom_patterns, watched_addresses, foldable_frontier,
  Snapshot, folded_pool_states,
}
use armchair_analyst.Graph.Fold.Frontier.{
  last_or, AllFoldable, Frontier, foldable_frontier-Frontier,
}
use armchair_analyst.Graph.Finality.Reroot.{reroot-IsTree}
use armchair_analyst.Graph.Finality.{
  rerooted_nodes, reroot, reanchored_to, find_hash, canonical_connected_target, finalized_to,
}

-- The observed head is the anchor or a block of the graph.
abbrev pub HeadPresent : BlocksGraph → Type 0
HeadPresent g = (g.observed_head == g.anchor.hash || contains_key g.observed_head g.nodes) ≡ true

reroot-HeadPresent :
    (g : BlocksGraph) (a : BlockHash) (number : ℕ) → HeadPresent (reroot g a number)
unfolding reroot
reroot-HeadPresent g a number =
    elim (Bool-cases
      (g.observed_head == a || contains_key g.observed_head (rerooted_nodes g.nodes a))) [
        | inl kept ↦ rw (kept, reroot) kept
        | inr lost ↦ rw (lost, reroot) (ground (arith, nat_beq_iff a a))
      ]

module _ (g : BlocksGraph) (a : BlockHash) (base : Snapshot) (verified : List PoolRef) where
  -- The graph is re-rooted at a connected block other than the anchor, with its number, and the prefix is
  -- folded; at any other hash nothing changes.
  reanchored_to-cases :
      ((reanchored_to g a base verified ≡ (g, base))
        × ((a ≡ g.anchor.hash) ⊎ (connected_of (lookup a g.nodes) ≡ none)))
      ⊎ ((node : ConnectedNode) × (connected_of (lookup a g.nodes) ≡ some node)
          × ((a == g.anchor.hash) ≡ false)
          × (reanchored_to g a base verified ≡ (
            reroot g a node.payload.number,
            folded_pool_states g base verified a require_complete,
          )))
  unfolding reanchored_to
  reanchored_to-cases = elim (Bool-cases (a == g.anchor.hash)) [
    | inl same ↦ inl (rw (same, reanchored_to) refl, inl ((nat_beq_iff a g.anchor.hash).0 same))
    | inr other ↦ elim (Option-cases (connected_of (lookup a g.nodes))) [
      | inl gone ↦ inl (rw (other, reanchored_to) (rw (gone, reanchored_to) refl), inr gone)
      | inr (node, at) ↦
          inr (node, at, other, rw (other, reanchored_to) (rw (at, reanchored_to) refl))
    ]
  ]

find_hash_lem :
    (target found : BlockHash) (hashes : List BlockHash)
    → find_hash target hashes ≡ some found
    → (found ≡ target) × (contains target hashes ≡ true)
find_hash_lem target found [] h = absurd (cc)
find_hash_lem target found (x ∷ hashes) h =
    ground (arith, find_hash_lem target found hashes, nat_beq_iff x target)

find_hash-none :
    (target : BlockHash) (hashes : List BlockHash)
    → find_hash target hashes ≡ none
    → contains target hashes ≡ false
find_hash-none target [] h = refl
find_hash-none target (x ∷ hashes) h = ground (arith, find_hash-none target hashes, h)

-- The last block of a foldable prefix is connected.
foldable_last :
    (api : BloomApi) (authority : Authority) (watched : List Bloom) (nodes : Map BlockHash Node)
    (first : BlockHash) (folded : List BlockHash)
    → AllFoldable api authority watched nodes folded
    → connected_of (lookup (last_or first folded) nodes) ≡ none
    → last_or first folded ≡ first
foldable_last api authority watched nodes first [] h gone = refl
foldable_last api authority watched nodes first (x ∷ []) ((node, at, clear), h) gone =
    absurd (ground (arith, at, gone))
foldable_last api authority watched nodes first (x ∷ y ∷ ys) (h, hs) gone =
    absurd (unlast y ys hs gone)
  where
    unlast :
        (y : BlockHash) (ys : List BlockHash)
        → AllFoldable api authority watched nodes (y ∷ ys)
        → connected_of (lookup (last_or y ys) nodes) ≡ none
        → ⊥
    unlast y [] ((node, at, clear), h) gone = ground (arith, at, gone)
    unlast y (z ∷ zs) (h, hs) gone = unlast z zs hs gone

-- A frontier that is not a connected block is the anchor.
on_anchor :
    (api : BloomApi) (g : BlocksGraph) (target : BlockHash) (watched : List Bloom) (a : BlockHash)
    → Frontier api require_complete watched g.nodes g.anchor.hash
        (connected_oldest_to_newest g target)
        a
    → (a ≡ g.anchor.hash) ⊎ (connected_of (lookup a g.nodes) ≡ none)
    → Frontier api require_complete watched g.nodes g.anchor.hash
        (connected_oldest_to_newest g target)
        g.anchor.hash
on_anchor api g target watched a f why =
    subst
      (Frontier api require_complete watched g.nodes g.anchor.hash
        (connected_oldest_to_newest g target))
      (same why) f
  where
    same : (a ≡ g.anchor.hash) ⊎ (connected_of (lookup a g.nodes) ≡ none) → a ≡ g.anchor.hash
    same (inl e) = e
    same (inr gone) =
        f.ends
        ∙ foldable_last api require_complete watched g.nodes g.anchor.hash f.folded f.foldable
            (subst (λ x. connected_of (lookup x g.nodes) ≡ none) f.ends gone)

-- What a finalization returns. Nothing changes where the finalized block is not connected or not canonical, or
-- where the first block of the path to it may not be folded. Otherwise the graph is re-rooted at the frontier
-- of that path, a connected block that is not the anchor, with the number of that block, and the prefix up to
-- it is folded.
pub data Finalized (api : BloomApi) (g : BlocksGraph) (target : BlockHash) (base : Snapshot)
    (verified : List PoolRef) (v4_manager : Option Address) : BlocksGraph × Snapshot → Type 0 where
  unreached :
      {r : BlocksGraph × Snapshot}
      → (connected_of (lookup target g.nodes) ≡ none)
        ⊎ (contains target (canonical_oldest_to_newest g) ≡ false)
      → r ≡ (g, base)
      → Finalized api g target base verified v4_manager r
  stalled :
      {r : BlocksGraph × Snapshot}
      → contains target (canonical_oldest_to_newest g) ≡ true
      → Frontier api require_complete
          (bloom_patterns api (watched_addresses verified v4_manager))
          g.nodes
          g.anchor.hash
          (connected_oldest_to_newest g target)
          g.anchor.hash
      → r ≡ (g, base)
      → Finalized api g target base verified v4_manager r
  advanced :
      {r : BlocksGraph × Snapshot} (a : BlockHash) (node : ConnectedNode)
      → contains target (canonical_oldest_to_newest g) ≡ true
      → Frontier api require_complete
          (bloom_patterns api (watched_addresses verified v4_manager))
          g.nodes
          g.anchor.hash
          (connected_oldest_to_newest g target)
          a
      → (a == g.anchor.hash) ≡ false
      → connected_of (lookup a g.nodes) ≡ some node
      → r ≡ (reroot g a node.payload.number, folded_pool_states g base verified a require_complete)
      → Finalized api g target base verified v4_manager r

-- A finalization leaves graph and snapshot alone exactly where the finalized block is not a connected block of
-- the canonical chain, or the frontier of the path to it is the anchor itself; otherwise the anchor becomes that
-- frontier (each block up to which has complete logs or a clear bloom) with the number of its block, and the
-- snapshot is folded up to it.
pub finalized_to-Finalized :
    (api : BloomApi) (g : BlocksGraph) (target : BlockHash) (base : Snapshot)
    (verified : List PoolRef) (v4_manager : Option Address)
    → Finalized api g target base verified v4_manager
        (finalized_to api g target base verified v4_manager)
unfolding finalized_to canonical_connected_target
finalized_to-Finalized api g target base verified v4_manager =
    elim (Option-cases (connected_of (lookup target g.nodes))) [
      | inl gone ↦ unreached (inl gone) (rw (gone, finalized_to, canonical_connected_target) refl)
      | inr (node, at) ↦ elim (Option-cases (find_hash target (canonical_oldest_to_newest g))) [
        | inl off ↦ unreached (inr (find_hash-none target _ off)) (
            rw (at, finalized_to, canonical_connected_target)
              (rw (off, finalized_to, canonical_connected_target) refl))
        | inr (found, on) ↦
            let (same, there) = find_hash_lem target found (canonical_oldest_to_newest g) on in
            let here : find_hash target (canonical_oldest_to_newest g) ≡ some target =
              on ∙ ap some same in
            let watched = bloom_patterns api (watched_addresses verified v4_manager) in
            let a = foldable_frontier api g target watched require_complete in
            let front = foldable_frontier-Frontier api g target watched require_complete in
            let runs : finalized_to api g target base verified v4_manager
                ≡ reanchored_to g a base verified =
              rw (at, finalized_to, canonical_connected_target)
                (rw (here, finalized_to, canonical_connected_target) refl) in
            elim (reanchored_to-cases g a base verified) [
              | inl (e, why) ↦ stalled there (on_anchor api g target watched a front why) (runs ∙ e)
              | inr (block, at', other, e) ↦ advanced a block there front other at' (runs ∙ e)
            ]
      ]
    ]

-- A finalization keeps the contract of the graph, the observed head included.
pub finalized_to-IsTree :
    (api : BloomApi) (g : BlocksGraph) (target : BlockHash) (base : Snapshot)
    (verified : List PoolRef) (v4_manager : Option Address)
    → IsTree g
    → HeadPresent g
    → IsTree (finalized_to api g target base verified v4_manager).0
      × HeadPresent (finalized_to api g target base verified v4_manager).0
finalized_to-IsTree api g target base verified v4_manager t h =
    kept (finalized_to-Finalized api g target base verified v4_manager)
  where
    kept :
        {r : BlocksGraph × Snapshot}
        → Finalized api g target base verified v4_manager r
        → IsTree r.0 × HeadPresent r.0
    kept (unreached why e) = rw e (t, h)
    kept (stalled c f e) = rw e (t, h)
    kept (advanced a node c f other at e) =
        rw e (reroot-IsTree g a node.payload.number t, reroot-HeadPresent g a node.payload.number)
