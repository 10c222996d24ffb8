-- ===== src/Graph/Reachable.antt =====
-- core/crates/client-evm/src/kernel/blocks_graph.rs: the life of a graph, from its seed through any sequence
-- of the operations that the kernel calls on it.
pub mod Connects
use armchair_analyst.Prelude.{
  ℕ, nat_eq, ◌≤◌, ◌≡◌, sym, subst, ◌||◌, leb, if◌then◌else◌, Option, none, some, inl, inr, List, [],
  ◌∷◌, ◌==◌, Map, lookup, insert, contains_key, is_some, arith, Bool-cases, Option-cases,
  nat_beq_iff,
}
use armchair_analyst.Pools.Keys.{Address, ChainKey, BlockHash, Bloom, PoolRef}
use armchair_analyst.Pools.Chains.{max_pending_of, approx_finalized_block_age}
use armchair_analyst.Pools.Events.{PoolLog}
use armchair_analyst.Graph.Types.{
  unknown, complete, BlockData, Node, connected, pending, BlocksGraph, new, node_payload,
  count_pending, pending_count, key_by_log_index,
}
use armchair_analyst.Graph.Admission.{
  with_data_capped, with_block_capped, max_pending_blocks, SeedBlock, with_seed_blocks, from_seed,
  with_observed_head,
}
use armchair_analyst.Graph.Admission.Invariant.{IsTree, view}
use armchair_analyst.Graph.Admission.Refine.{with_data_capped-IsTree, with_data_capped-view}
use armchair_analyst.Graph.Admission.Order.{with_data_capped_frame, with_data_capped-pending_count}
use armchair_analyst.Graph.Admission.Seed.{new-IsTree}
use armchair_analyst.Graph.Logs.{
  with_payload, update_nodes, update_block_data, merge_streamed, with_streamed_logs,
  with_complete_logs,
}
use armchair_analyst.Graph.Logs.Ladder.{lookup-update_block_data, update_block_data-IsTree}
use armchair_analyst.Graph.Fold.{BloomApi, Snapshot}
use armchair_analyst.Graph.Finality.{finalized_to}
use armchair_analyst.Graph.Finality.Pruned.{reroot-count_pending}
use armchair_analyst.Graph.Finality.Advance.{
  HeadPresent, Finalized, unreached, stalled, advanced, finalized_to-Finalized, finalized_to-IsTree,
}

-- The most blocks that wait on a chain: the seed has its own cap, and each header that of the chain.
abbrev pub pending_bound : ChainKey → ℕ
pending_bound chain =
    if leb (max_pending_of chain) max_pending_blocks
    then max_pending_blocks
    else max_pending_of chain

-- A graph that the operations can reach on a chain.
pub data Reachable (chain : ChainKey) : BlocksGraph → Type 0 where
  seeded :
      {g : BlocksGraph} (hash : BlockHash) (number : ℕ) (blocks : List SeedBlock)
      → g ≡ from_seed hash number blocks
      → Reachable chain g
  header :
      {g' : BlocksGraph} (g : BlocksGraph) (hash parent : BlockHash) (number : ℕ) (bloom : Bloom)
      → Reachable chain g
      → g' ≡ (with_block_capped g hash parent number bloom (max_pending_of chain)).0
      → Reachable chain g'
  head :
      {g' : BlocksGraph} (g : BlocksGraph) (hash : BlockHash)
      → Reachable chain g
      → g' ≡ with_observed_head g hash
      → Reachable chain g'
  stream :
      {g' : BlocksGraph} (g : BlocksGraph) (hash : BlockHash) (logs : List PoolLog)
      → Reachable chain g
      → g' ≡ with_streamed_logs g hash logs
      → Reachable chain g'
  fetched :
      {g' : BlocksGraph} (g : BlocksGraph) (hash : BlockHash) (logs : List PoolLog)
      → Reachable chain g
      → g' ≡ (with_complete_logs g hash logs).0
      → Reachable chain g'
  finalized :
      {g' : BlocksGraph} (api : BloomApi) (g : BlocksGraph) (target : BlockHash) (base : Snapshot)
      (verified : List PoolRef) (v4_manager : Option Address)
      → Reachable chain g
      → g' ≡ (finalized_to api g target base verified v4_manager).0
      → Reachable chain g'

-- The whole contract: the tree, the head, and the bound on the blocks that wait.
pub record Contract (bound : ℕ) (g : BlocksGraph) : Type 0 where
  pub tree : IsTree g
  pub head_present : HeadPresent g
  pub bounded : pending_count g ≤ bound

contains_key-view : (g : BlocksGraph) (x : BlockHash) → contains_key x g.nodes ≡ is_some (view g x)
unfolding contains_key
contains_key-view g x = ground arith

with_data_capped-HeadPresent :
    (g : BlocksGraph) (hash parent : BlockHash) (payload : BlockData) (max_pending : ℕ)
    → IsTree g
    → HeadPresent g
    → HeadPresent (with_data_capped g hash parent payload max_pending).0
with_data_capped-HeadPresent g hash parent payload max_pending t h =
    let g' = (with_data_capped g hash parent payload max_pending).0 in
    let (same_anchor, same_head) = with_data_capped_frame g hash parent payload max_pending in
    elim (with_data_capped-view g hash parent payload max_pending t) [
      | inr (_, e) ↦ subst HeadPresent (sym e) h
      | inl (_, _, shows) ↦
          rw (same_head, same_anchor)
            (ground (
              arith,
              h,
              contains_key-view g g.observed_head,
              contains_key-view g' g.observed_head,
              shows g.observed_head,
            ))
    ]

with_data_capped-Contract :
    {bound : ℕ} (g : BlocksGraph) (hash parent : BlockHash) (payload : BlockData) (max_pending : ℕ)
    → max_pending ≤ bound
    → Contract bound g
    → Contract bound (with_data_capped g hash parent payload max_pending).0
with_data_capped-Contract g hash parent payload max_pending cap c = record {
  tree = with_data_capped-IsTree g hash parent payload max_pending c.tree;
  head_present =
      with_data_capped-HeadPresent g hash parent payload max_pending c.tree c.head_present;
  bounded = with_data_capped-pending_count g hash parent payload max_pending _ c.tree cap c.bounded;
}

with_seed_blocks-Contract :
    {bound : ℕ} (blocks : List SeedBlock) (g : BlocksGraph)
    → max_pending_blocks ≤ bound
    → Contract bound g
    → Contract bound (with_seed_blocks g blocks)
unfolding with_seed_blocks
with_seed_blocks-Contract [] g cap c = c
with_seed_blocks-Contract ((hash, parent, number, logs) ∷ blocks) g cap c =
    let d : BlockData = record {
      number = number;
      logs_bloom = none;
      logs = complete (key_by_log_index logs);
    } in
    with_seed_blocks-Contract blocks (with_data_capped g hash parent d max_pending_blocks).0 cap
      (with_data_capped-Contract g hash parent d max_pending_blocks cap c)

pub from_seed-Contract :
    {bound : ℕ} (hash : BlockHash) (number : ℕ) (blocks : List SeedBlock)
    → max_pending_blocks ≤ bound
    → Contract bound (from_seed hash number blocks)
unfolding from_seed new pending_count
from_seed-Contract hash number blocks cap =
    with_seed_blocks-Contract blocks (new hash number) cap (record {
      tree = new-IsTree hash number;
      head_present = ground (arith, nat_beq_iff hash hash);
      bounded = omega arith;
    })

pub head-Contract :
    {bound : ℕ} (g : BlocksGraph) (hash : BlockHash)
    → Contract bound g
    → Contract bound (with_observed_head g hash)
unfolding with_observed_head pending_count
head-Contract g hash c = elim (Bool-cases (hash == g.anchor.hash || contains_key hash g.nodes)) [
  | inr absent ↦ rw (absent, with_observed_head) c
  | inl present ↦
      rw (present, with_observed_head)
        (record {
          tree = record {
            unique = c.tree.unique;
            no_anchor = c.tree.no_anchor;
            anchored = c.tree.anchored;
            awaited = c.tree.awaited;
          };
          head_present = present;
          bounded = c.bounded;
        })
]

count_pending-update :
    (hash : BlockHash) (node : Node) (change : BlockData → BlockData) (nodes : Map BlockHash Node)
    → lookup hash nodes ≡ some node
    → count_pending (insert hash (with_payload node (change (node_payload node))) nodes)
      ≡ count_pending nodes
unfolding lookup insert count_pending
count_pending-update hash node change [] h = absurd (ground (arith, h))
count_pending-update hash (connected n) change ((j, connected m) ∷ nodes) h =
    ground (arith, h, count_pending-update hash (connected n) change nodes)
count_pending-update hash (connected n) change ((j, pending m) ∷ nodes) h =
    ground (arith, h, count_pending-update hash (connected n) change nodes)
count_pending-update hash (pending n) change ((j, connected m) ∷ nodes) h =
    ground (arith, h, count_pending-update hash (pending n) change nodes)
count_pending-update hash (pending n) change ((j, pending m) ∷ nodes) h =
    ground (arith, h, count_pending-update hash (pending n) change nodes)

pub update-Contract :
    {bound : ℕ} (g : BlocksGraph) (hash : BlockHash) (change : BlockData → BlockData)
    → Contract bound g
    → Contract bound (update_block_data g hash change)
unfolding update_block_data update_nodes pending_count contains_key
update-Contract g hash change c = record {
  tree = update_block_data-IsTree g hash change c.tree;
  head_present =
      ground (arith, c.head_present, lookup-update_block_data g hash change g.observed_head);
  bounded = elim (Option-cases (lookup hash g.nodes)) [
    | inl absent ↦ rw (absent, update_nodes) c.bounded
    | inr (node, found) ↦
        rw (found, update_nodes)
          (omega (arith, count_pending-update hash node change g.nodes found, c.bounded))
  ];
}

pub finalized-Contract :
    {bound : ℕ} (api : BloomApi) (g : BlocksGraph) (target : BlockHash) (base : Snapshot)
    (verified : List PoolRef) (v4_manager : Option Address)
    → Contract bound g
    → Contract bound (finalized_to api g target base verified v4_manager).0
finalized-Contract {bound} api g target base verified v4_manager c =
    let (t, h) = finalized_to-IsTree api g target base verified v4_manager c.tree c.head_present in
    record {
      tree = t;
      head_present = h;
      bounded = kept (finalized_to-Finalized api g target base verified v4_manager);
    }
  where
    kept :
        {r : BlocksGraph × Snapshot}
        → Finalized api g target base verified v4_manager r
        → pending_count r.0 ≤ bound
    kept (unreached why e') = rw e' c.bounded
    kept (stalled o f e') = rw e' c.bounded
    kept (advanced a node o f other at e') =
        rw e' (omega (arith, c.bounded, reroot-count_pending g a node.payload.number c.tree))

pub header-Contract :
    {bound : ℕ} (g : BlocksGraph) (hash parent : BlockHash) (number : ℕ) (bloom : Bloom)
    (max_pending : ℕ)
    → max_pending ≤ bound
    → Contract bound g
    → Contract bound (with_block_capped g hash parent number bloom max_pending).0
unfolding with_block_capped
header-Contract g hash parent number bloom max_pending cap c =
    with_data_capped-Contract g hash parent
      (record { number = number; logs_bloom = some bloom; logs = unknown }) max_pending cap c

pub seed_bound : (chain : ChainKey) → max_pending_blocks ≤ pending_bound chain
unfolding max_pending_of approx_finalized_block_age
seed_bound chain = ground arith

pub header_bound : (chain : ChainKey) → max_pending_of chain ≤ pending_bound chain
unfolding max_pending_of approx_finalized_block_age
header_bound chain = ground arith

-- Every graph that the kernel can reach, by whatever sequence of headers, heads, logs and finalizations, is a
-- tree above its anchor, holds its observed head, and has at most 1024 blocks that wait, or as many as the
-- cap of the chain if that is more.
pub Reachable-Contract :
    {chain : ChainKey} {g : BlocksGraph} → Reachable chain g → Contract (pending_bound chain) g
unfolding with_streamed_logs with_complete_logs
Reachable-Contract {chain} (seeded hash number blocks e) =
    subst (Contract _) (sym e) (from_seed-Contract hash number blocks (seed_bound chain))
Reachable-Contract {chain} (header g hash parent number bloom r e) =
    subst (Contract _) (sym e)
      (header-Contract g hash parent number bloom _ (header_bound chain) (Reachable-Contract r))
Reachable-Contract (head g hash r e) =
    subst (Contract _) (sym e) (head-Contract g hash (Reachable-Contract r))
Reachable-Contract (stream g hash logs r e) = subst (Contract _) (sym e) (
    update-Contract g hash (λ d. record d { logs = merge_streamed logs d.logs })
      (Reachable-Contract r))
Reachable-Contract (fetched g hash logs r e) = subst (Contract _) (sym e) (
    update-Contract g hash (λ d. record d { logs = complete (key_by_log_index logs) })
      (Reachable-Contract r))
Reachable-Contract (finalized api g target base verified v4_manager r e) =
    subst (Contract _) (sym e)
      (finalized-Contract api g target base verified v4_manager (Reachable-Contract r))
