-- ===== src/Graph/Admission/Seed.antt =====
-- core/crates/client-evm/src/kernel/blocks_graph.rs: the graphs of `from_seed`.
use armchair_analyst.Prelude.{ℕ, nat_eq, refl, none, List, [], ◌∷◌, lookup}
use armchair_analyst.Pools.Keys.{BlockHash}
use armchair_analyst.Graph.Types.{BlockData, BlocksGraph, new, complete, key_by_log_index}
use armchair_analyst.Graph.Admission.Invariant.{IsTree}
use armchair_analyst.Graph.Admission.Refine.{with_data_capped-IsTree}
use armchair_analyst.Graph.Admission.{
  with_data_capped, max_pending_blocks, SeedBlock, with_seed_blocks, from_seed,
}

pub new-IsTree : (hash : BlockHash) (number : ℕ) → IsTree (new hash number)
unfolding new lookup
new-IsTree hash number = record {
  unique = tt;
  no_anchor = refl;
  anchored = λ x n h. absurd (cc);
  awaited = λ x n h. absurd (cc);
}

with_seed_blocks-IsTree :
    (blocks : List SeedBlock) (g : BlocksGraph) → IsTree g → IsTree (with_seed_blocks g blocks)
unfolding with_seed_blocks
with_seed_blocks-IsTree [] g t = t
with_seed_blocks-IsTree ((hash, parent, number, logs) ∷ blocks) g t =
    let d : BlockData = record {
      number = number;
      logs_bloom = none;
      logs = complete (key_by_log_index logs);
    } in
    with_seed_blocks-IsTree blocks (with_data_capped g hash parent d max_pending_blocks).0
      (with_data_capped-IsTree g hash parent d max_pending_blocks t)

-- Whatever blocks the bootstrap window holds, in whatever order, the seeded graph keeps the contract.
pub from_seed-IsTree :
    (anchor_hash : BlockHash) (anchor_number : ℕ) (blocks : List SeedBlock)
    → IsTree (from_seed anchor_hash anchor_number blocks)
unfolding from_seed
from_seed-IsTree anchor_hash anchor_number blocks =
    with_seed_blocks-IsTree blocks (new anchor_hash anchor_number)
      (new-IsTree anchor_hash anchor_number)
