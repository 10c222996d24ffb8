-- ===== src/Kernel/Transition/Keeps.antt =====
-- core/crates/client-evm/src/kernel/mod.rs: what each event keeps of the state.
use armchair_analyst.Prelude.{
  ℕ, nat_eq, not, ◌&&◌, Option, none, some, inl, inr, [], ◌==◌, Bool-cases,
}
use armchair_analyst.Pools.Keys.{ChainKey, BlockHash, Bloom}
use armchair_analyst.Pools.Chains.{max_pending_of, pool_manager_address}
use armchair_analyst.Graph.Types.{contains_block}
use armchair_analyst.Graph.Admission.{
  Admission, admitted, self_parent, anchor_readmit, duplicate_block, conflicting_parent,
  pending_buffer_full,
}
use armchair_analyst.Graph.Fold.{BloomApi}
use armchair_analyst.Requests.Pending.{
  PendingRequests, GetBlockHeader, header_store, take, log_store, pool_metadata_store,
  token_metadata_store, pool_data_store, logs_range_store, canonical_header_store,
}
use armchair_analyst.Requests.Tracking.{PendingPayload, RequestId}
use armchair_analyst.Kernel.{State, with_log_head_observed, with_log_header_received, log_observed}
use armchair_analyst.Kernel.Schedule.{
  schedule_unknown_canonical_requests, with_finality_probe_if_orphan_suspected,
}
use armchair_analyst.Kernel.Schedule.Issues.{
  Issues-trans, with_pending, schedulers-Issues, probe-Issues, header-Issues,
  missing_log_ranges-Issues,
}
use armchair_analyst.Kernel.Transition.{
  Event, head_observed, finalized_block_observed, block_header_received, block_header_not_found,
  canonical_header_received, block_logs_received, block_logs_range_received, logs_observed,
  pool_metadata_received, token_metadata_received, pool_data_received, request_failed, ticked,
  with_range_complete, on_head_observed, on_block_header_received, on_canonical_header_received,
  on_response, apply_logs, apply_pool_metadata, apply_token_metadata, apply_pool_data, head_outcome,
  scheduled_head, transition_outcome, flatten, transition,
}
use armchair_analyst.Kernel.Transition.Feeds.{
  IsCoherent, pending_kept, Issues-kept, head_kept, header_kept, complete_kept, observed_kept,
  range_kept, finalized_kept, seeded_kept, seeds_kept, reissue-Issues,
}

module _ (chain : ChainKey) (api : BloomApi) where
  response_kept :
      {R : Type 0} (apply : R → State → State)
      → ((q : R) (s : State) → IsCoherent chain s → IsCoherent chain (apply q s))
      → (s : State) (taken : PendingRequests × Option (PendingPayload R)) → IsCoherent chain s
      → IsCoherent chain (on_response api chain apply s taken).0
  unfolding on_response
  response_kept apply f s (pending, none) k = pending_kept chain s pending k
  response_kept apply f s (pending, some p) k =
      Issues-kept chain (schedulers-Issues api chain _)
        (f p.request (with_pending pending s) (pending_kept chain s pending k))

  progressed_kept :
      (hash : BlockHash) (number : ℕ) (s : State)
      → IsCoherent chain s
      → IsCoherent chain
          (with_finality_probe_if_orphan_suspected hash number
            (schedule_unknown_canonical_requests api chain (s, []))).0
  progressed_kept hash number s k =
      Issues-kept chain
        (Issues-trans (schedulers-Issues api chain (s, [])) (probe-Issues hash number _)) k

  head_outcome_kept :
      (a : Admission) (head_before hash : BlockHash) (number : ℕ) (s : State)
      → IsCoherent chain s
      → IsCoherent chain (flatten (head_outcome api chain a head_before hash number s)).0
  unfolding head_outcome scheduled_head
  head_outcome_kept self_parent head_before hash number s k =
      Issues-kept chain (header-Issues hash (s, [])) k
  head_outcome_kept duplicate_block head_before hash number s k =
      elim (Bool-cases (hash == head_before)) [
        | inl same ↦ rw (same, head_outcome) k
        | inr moved ↦ rw (moved, head_outcome) (progressed_kept hash number s k)
      ]
  head_outcome_kept admitted head_before hash number s k = progressed_kept hash number s k
  head_outcome_kept anchor_readmit head_before hash number s k = progressed_kept hash number s k
  head_outcome_kept conflicting_parent head_before hash number s k = progressed_kept hash number s k
  head_outcome_kept pending_buffer_full head_before hash number s k =
      progressed_kept hash number s k

  on_header_kept :
      (s : State) (id : RequestId) (hash parent : BlockHash) (bloom : Bloom) (number : ℕ)
      → IsCoherent chain s
      → IsCoherent chain (on_block_header_received api chain s id hash parent bloom number).0
  unfolding on_block_header_received
  on_header_kept s0 id hash parent bloom number k =
      let s = with_log_header_received s0 hash parent number bloom (max_pending_of chain) in
      let t = take {R = GetBlockHeader} s.pending_requests id in
      Issues-kept chain
        (Issues-trans (reissue-Issues hash t.1 (with_pending t.0 s))
          (Issues-trans (schedulers-Issues api chain _) (probe-Issues hash number _)))
        (pending_kept chain s t.0 (header_kept chain s0 hash parent number bloom k))

  on_canonical_kept :
      (s : State) (id : RequestId) (hash : BlockHash) (number : ℕ)
      → IsCoherent chain s
      → IsCoherent chain (on_canonical_header_received s id hash number).0
  unfolding on_canonical_header_received take
  on_canonical_kept s id hash number k =
      elim (Bool-cases
        (number == s.blocks.graph.anchor.number && not (hash == s.blocks.graph.anchor.hash))) [
          | inl orphaned ↦
              rw (orphaned, on_canonical_header_received)
                (seeded_kept chain hash number [] s.pool_registry s.token_registry [])
          | inr firm ↦ rw (firm, on_canonical_header_received) (pending_kept chain s _ k)
        ]

  -- Every event, whatever it carries, keeps the state coherent: the graph keeps its contract, and no block
  -- of the graph has logs staged.
  pub transition-IsCoherent :
      (s : State) (event : Event)
      → IsCoherent chain s
      → IsCoherent chain (transition api chain s event).0
  unfolding transition transition_outcome on_head_observed log_observed apply_pool_metadata
      apply_token_metadata apply_pool_data apply_logs
  transition-IsCoherent s (head_observed hash parent bloom number) k =
      let r = with_log_head_observed s hash parent number bloom (max_pending_of chain) in
      head_outcome_kept r.1 s.blocks.graph.observed_head hash number r.0
        (head_kept chain s hash parent number bloom k)
  transition-IsCoherent s (finalized_block_observed hash number) k =
      Issues-kept chain (missing_log_ranges-Issues api chain hash _)
        (finalized_kept chain api s (pool_manager_address chain) hash k)
  transition-IsCoherent s (block_header_received id hash parent bloom number) k =
      on_header_kept s id hash parent bloom number k
  transition-IsCoherent s (block_header_not_found id) k = pending_kept chain s _ k
  transition-IsCoherent s (canonical_header_received id hash number) k =
      on_canonical_kept s id hash number k
  transition-IsCoherent s (block_logs_received id logs) k =
      response_kept (apply_logs logs) (λ q t j. complete_kept chain t q.block_hash logs j) s
        (take s.pending_requests id) k
  transition-IsCoherent s (block_logs_range_received id blocks) k =
      response_kept (λ q. with_range_complete q blocks) (λ q t j. range_kept chain q blocks t j) s
        (take s.pending_requests id) k
  transition-IsCoherent s (logs_observed hash logs) k =
      let seen = observed_kept chain s hash logs k in
      elim (Bool-cases (contains_block s.blocks.graph hash)) [
        | inl there ↦
            rw (there, transition_outcome)
              (Issues-kept chain (schedulers-Issues api chain _) (rw (there, log_observed) at seen))
        | inr gone ↦ rw (gone, transition_outcome) (rw (gone, log_observed) at seen)
      ]
  transition-IsCoherent s (pool_metadata_received id metadata) k =
      response_kept (apply_pool_metadata chain metadata)
        (λ q t j. record { contract = j.contract; apart = j.apart }) s (take s.pending_requests id)
        k
  transition-IsCoherent s (token_metadata_received id metadata) k =
      response_kept (apply_token_metadata metadata)
        (λ q t j. record { contract = j.contract; apart = j.apart }) s (take s.pending_requests id)
        k
  transition-IsCoherent s (pool_data_received id pools) k =
      response_kept (apply_pool_data pools) (λ q t j. seeds_kept chain t q.block_at pools j) s
        (take s.pending_requests id) k
  transition-IsCoherent s (request_failed id) k = pending_kept chain s _ k
  transition-IsCoherent s ticked k = record { contract = k.contract; apart = k.apart }
