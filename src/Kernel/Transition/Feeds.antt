-- ===== src/Kernel/Transition/Feeds.antt =====
-- core/crates/client-evm/src/kernel/mod.rs: what each feed keeps of the state.
use armchair_analyst.Prelude.{
  ℕ, nat_eq, ◌≡◌, refl, sym, subst, false, not, Option, none, some, inl, inr, List, [], ◌∷◌, ◌==◌,
  lookup, contains_key, contains, values, arith, Bool-cases, Option-cases, Map,
}
use armchair_analyst.Pools.Keys.{Address, ChainKey, BlockHash, Bloom, PoolRef}
use armchair_analyst.Pools.Chains.{max_pending_of}
use armchair_analyst.Pools.Events.{PoolLog}
use armchair_analyst.Graph.Types.{BlocksGraph, complete, contains_block, key_by_log_index}
use armchair_analyst.Graph.Admission.{
  Admission, admitted, self_parent, anchor_readmit, duplicate_block, conflicting_parent,
  pending_buffer_full, with_block_capped, SeedBlock,
}
use armchair_analyst.Graph.Logs.{merge_streamed, with_streamed_logs, with_complete_logs}
use armchair_analyst.Graph.Fold.{BloomApi, Snapshot}
use armchair_analyst.Graph.Finality.{finalized_to}
use armchair_analyst.Graph.Finality.Pruned.{reroot_absent}
use armchair_analyst.Graph.Finality.Advance.{
  Finalized, unreached, stalled, advanced, finalized_to-Finalized,
}
use armchair_analyst.Graph.Reachable.{
  pending_bound, Contract, head-Contract, update-Contract, header-Contract, finalized-Contract,
  from_seed-Contract, seed_bound, header_bound,
}
use armchair_analyst.Requests.Pending.{
  PendingRequests, GetBlockHeader, GetLogsRange, header_store, with_new_request, log_store,
  pool_metadata_store, token_metadata_store, pool_data_store, logs_range_store,
  canonical_header_store,
}
use armchair_analyst.Requests.Tracking.{PendingPayload}
use armchair_analyst.Kernel.{
  State, map_graph, with_log_streamed, with_streamed_logs_drained, head_after,
  with_log_head_observed, with_log_header_received, with_log_complete, with_streamed_logs_buffered,
  with_finalized_block_observed, log_observed,
}
use armchair_analyst.Market.Registries.{verified_pools, TrustedPoolRegistry, TokenRegistry}
use armchair_analyst.Graph.Queries.{missing_parents}
use armchair_analyst.Requests.Entered.{header_of}
use armchair_analyst.Kernel.Staging.{StagedApart, feeds-StagedApart}
use armchair_analyst.Kernel.Schedule.{Scheduled, with_request}
use armchair_analyst.Kernel.Schedule.Issues.{
  Issues, Issues-idle, Issues-frame, Issues-trans, with_pending,
}
use armchair_analyst.Kernel.Transition.{
  with_pool_seeds, seeded_state, issue_headers, activate_from_seed, reissue_mismatched,
  with_blocks_complete, with_absent_complete, with_range_complete, PoolDataResult,
  with_finalized_pool_seeds,
}

-- What holds of a state between two events: the contract of its graph, and that no block has logs staged
-- while the graph holds it.
pub record IsCoherent (chain : ChainKey) (s : State) : Type 0 where
  pub contract : Contract (pending_bound chain) s.blocks.graph
  pub apart : StagedApart s

pub issue_headers-Issues :
    (hashes : List BlockHash) (r : Scheduled) → Issues r (issue_headers hashes r)
unfolding issue_headers with_request with_new_request
issue_headers-Issues [] r = Issues-idle r
issue_headers-Issues (hash ∷ hashes) r =
    Issues-trans (header_of (record { block_hash = hash }) ∷ [], refl)
      (issue_headers-Issues hashes _)

pub reissue-Issues :
    (hash : BlockHash) (payload : Option (PendingPayload GetBlockHeader)) (s : State)
    → Issues (s, []) (reissue_mismatched hash payload s)
unfolding reissue_mismatched with_request with_new_request
reissue-Issues hash none s = Issues-idle _
reissue-Issues hash (some p) s = elim (Bool-cases (not (p.request.block_hash == hash))) [
  | inl other ↦ rw (other, reissue_mismatched) (header_of p.request ∷ [], refl)
  | inr same ↦ rw (same, reissue_mismatched) (Issues-idle _)
]

module _ (chain : ChainKey) where
  -- The requests do not matter to it.
  pub pending_kept :
      (s : State) (p : PendingRequests) → IsCoherent chain s → IsCoherent chain (with_pending p s)
  pending_kept s p k = record { contract = k.contract; apart = k.apart }

  pub Issues-kept : {r r' : Scheduled} → Issues r r' → IsCoherent chain r.0 → IsCoherent chain r'.0
  Issues-kept {r} {r'} i k =
      subst (IsCoherent chain) (sym (Issues-frame i)) (pending_kept r.0 r'.0.pending_requests k)

  streamed_kept :
      (g : BlocksGraph) (hash : BlockHash) (logs : List PoolLog)
      → Contract (pending_bound chain) g
      → Contract (pending_bound chain) (with_streamed_logs g hash logs)
  unfolding with_streamed_logs
  streamed_kept g hash logs c =
      update-Contract g hash (λ d. record d { logs = merge_streamed logs d.logs }) c

  drained_kept :
      (s : State) (hash : BlockHash)
      → Contract (pending_bound chain) s.blocks.graph
      → Contract (pending_bound chain) (with_streamed_logs_drained s hash).blocks.graph
  unfolding with_streamed_logs_drained with_log_streamed map_graph
  drained_kept s hash c = elim (Bool-cases (contains_block s.blocks.graph hash)) [
    | inr gone ↦ rw (gone, with_streamed_logs_drained) c
    | inl there ↦ elim (Option-cases (lookup hash s.streamed_logs)) [
      | inl e ↦ rw (there, with_streamed_logs_drained) (rw (e, with_streamed_logs_drained) c)
      | inr (logs, e) ↦
          rw (there, with_streamed_logs_drained)
            (rw (e, with_streamed_logs_drained) (streamed_kept s.blocks.graph hash (values logs) c))
    ]
  ]

  head_after_kept :
      (a : Admission) (hash : BlockHash) (g : BlocksGraph)
      → Contract (pending_bound chain) g
      → Contract (pending_bound chain) (head_after a hash g)
  head_after_kept self_parent hash g c = c
  head_after_kept admitted hash g c = head-Contract g hash c
  head_after_kept anchor_readmit hash g c = head-Contract g hash c
  head_after_kept duplicate_block hash g c = head-Contract g hash c
  head_after_kept conflicting_parent hash g c = head-Contract g hash c
  head_after_kept pending_buffer_full hash g c = head-Contract g hash c

  pub head_kept :
      (s : State) (hash parent : BlockHash) (number : ℕ) (bloom : Bloom)
      → IsCoherent chain s
      → IsCoherent chain
          (with_log_head_observed s hash parent number bloom (max_pending_of chain)).0
  unfolding with_log_head_observed map_graph
  head_kept s hash parent number bloom k =
      let cap = max_pending_of chain in
      let r = with_block_capped s.blocks.graph hash parent number bloom cap in
      record {
        contract = drained_kept (map_graph (λ _. head_after r.1 hash r.0) s) hash (
            head_after_kept r.1 hash r.0 (
              header-Contract s.blocks.graph hash parent number bloom cap (header_bound chain)
                k.contract));
        apart = (feeds-StagedApart s k.contract.tree k.apart hash parent number bloom cap []).0;
      }

  pub header_kept :
      (s : State) (hash parent : BlockHash) (number : ℕ) (bloom : Bloom)
      → IsCoherent chain s
      → IsCoherent chain
          (with_log_header_received s hash parent number bloom (max_pending_of chain))
  unfolding with_log_header_received map_graph
  header_kept s hash parent number bloom k =
      let cap = max_pending_of chain in
      let g = (with_block_capped s.blocks.graph hash parent number bloom cap).0 in
      record {
        contract = drained_kept (map_graph (λ _. g) s) hash (
            header-Contract s.blocks.graph hash parent number bloom cap (header_bound chain)
              k.contract);
        apart = (feeds-StagedApart s k.contract.tree k.apart hash parent number bloom cap []).1;
      }

  pub complete_kept :
      (s : State) (hash : BlockHash) (logs : List PoolLog)
      → IsCoherent chain s
      → IsCoherent chain (with_log_complete s hash logs)
  unfolding with_log_complete with_complete_logs
  complete_kept s hash logs k = record {
    contract =
        update-Contract s.blocks.graph hash
          (λ d. record d { logs = complete (key_by_log_index logs) }) k.contract;
    apart = (feeds-StagedApart s k.contract.tree k.apart hash hash 0 0 0 logs).3;
  }

  pub observed_kept :
      (s : State) (hash : BlockHash) (logs : List PoolLog)
      → IsCoherent chain s
      → IsCoherent chain (log_observed s hash logs)
  unfolding log_observed with_log_streamed with_streamed_logs_buffered map_graph
  observed_kept s hash logs k = record {
    contract = elim (Bool-cases (contains_block s.blocks.graph hash)) [
      | inl there ↦ rw (there, log_observed) (streamed_kept s.blocks.graph hash logs k.contract)
      | inr gone ↦
          rw (gone, log_observed) (subst (Contract (pending_bound chain)) (same gone) k.contract)
    ];
    apart = (feeds-StagedApart s k.contract.tree k.apart hash hash 0 0 0 logs).2;
  }
    where
      same :
          contains_block s.blocks.graph hash ≡ false
          → s.blocks.graph ≡ (with_streamed_logs_buffered s hash logs).blocks.graph
      same gone = ground arith

  pub blocks_kept :
      (blocks : List (BlockHash × List PoolLog)) (s : State)
      → IsCoherent chain s
      → IsCoherent chain (with_blocks_complete blocks s)
  unfolding with_blocks_complete
  blocks_kept [] s k = k
  blocks_kept ((hash, logs) ∷ blocks) s k =
      blocks_kept blocks (with_log_complete s hash logs) (complete_kept s hash logs k)

  absent_kept :
      (covered responded : List BlockHash) (s : State)
      → IsCoherent chain s
      → IsCoherent chain (with_absent_complete covered responded s)
  unfolding with_absent_complete
  absent_kept [] responded s k = k
  absent_kept (hash ∷ covered) responded s k =
      absent_kept covered responded _ (elim (Bool-cases (not (contains hash responded))) [
        | inl silent ↦ rw silent (complete_kept s hash [] k)
        | inr named ↦ rw named k
      ])

  pub range_kept :
      (payload : GetLogsRange) (blocks : List (BlockHash × List PoolLog)) (s : State)
      → IsCoherent chain s
      → IsCoherent chain (with_range_complete payload blocks s)
  unfolding with_range_complete
  range_kept payload blocks s k =
      absent_kept payload.covered _ (with_blocks_complete blocks s) (blocks_kept blocks s k)

  Finalized-absent :
      {api : BloomApi} {g : BlocksGraph} {target : BlockHash} {base : Snapshot}
      {verified : List PoolRef} {v4_manager : Option Address} {r : BlocksGraph × Snapshot}
      → Contract (pending_bound chain) g
      → Finalized api g target base verified v4_manager r
      → (x : BlockHash) → contains_block g x ≡ false
      → contains_block r.0 x ≡ false
  unfolding contains_block contains_key
  Finalized-absent c (unreached why e) x h = rw e h
  Finalized-absent c (stalled o f e) x h = rw e h
  Finalized-absent {g = g} c (advanced a node o f other at e) x h =
      rw e (ground (arith, h, reroot_absent g a node.payload.number x c.tree.unique))

  pub finalized_kept :
      (api : BloomApi) (s : State) (v4_manager : Option Address) (hash : BlockHash)
      → IsCoherent chain s
      → IsCoherent chain (with_finalized_block_observed api s chain v4_manager hash)
  unfolding with_finalized_block_observed contains_key
  finalized_kept api s v4_manager hash k =
      let verified = verified_pools s.pool_registry chain in
      let base = s.blocks.finalized_snapshot in
      let r = finalized_to api s.blocks.graph hash base verified v4_manager in
      let c = finalized-Contract api s.blocks.graph hash base verified v4_manager k.contract in
      let gone =
        Finalized-absent k.contract
          (finalized_to-Finalized api s.blocks.graph hash base verified v4_manager) in
      elim (Bool-cases (not (r.0.anchor.hash == s.blocks.graph.anchor.hash))) [
        | inl moved ↦
            rw (moved, with_finalized_block_observed)
              (record { contract = c; apart = λ x h. absurd (ground (arith, h)) })
        | inr same ↦
            rw (same, with_finalized_block_observed)
              (record { contract = c; apart = λ x h. gone x (k.apart x h) })
      ]

  pub seeded_kept :
      (hash : BlockHash) (number : ℕ) (snapshots : Snapshot) (pools : TrustedPoolRegistry)
      (tokens : TokenRegistry) (blocks : List SeedBlock)
      → IsCoherent chain (activate_from_seed hash number snapshots pools tokens blocks).0
  unfolding activate_from_seed seeded_state contains_key lookup
  seeded_kept hash number snapshots pools tokens blocks =
      let s = seeded_state hash number snapshots pools tokens blocks in
      Issues-kept (issue_headers-Issues (missing_parents s.blocks.graph) (s, [])) (record {
        contract = from_seed-Contract hash number blocks (seed_bound chain);
        apart = λ x h. absurd (ground (arith, h));
      })

  pub seeds_kept :
      (s : State) (block_at : BlockHash) (results : Map PoolRef PoolDataResult)
      → IsCoherent chain s
      → IsCoherent chain (with_finalized_pool_seeds s block_at results)
  unfolding with_finalized_pool_seeds with_pool_seeds
  seeds_kept s block_at results k =
      elim (Bool-cases (not (block_at == s.blocks.graph.anchor.hash))) [
        | inl stale ↦
            rw (stale, with_pool_seeds) (record { contract = k.contract; apart = k.apart })
        | inr fresh ↦
            rw (fresh, with_pool_seeds) (record { contract = k.contract; apart = k.apart })
      ]
