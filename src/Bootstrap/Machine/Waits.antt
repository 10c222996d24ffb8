-- ===== src/Bootstrap/Machine/Waits.antt =====
-- core/crates/client-evm/src/bootstrap/mod.rs: what the answer to the request of a phase leads to.
use armchair_analyst.Prelude.{
  ℕ, nat_eq, nat_beq, refl, Option, none, some, inl, inr, List, [], ◌++◌, lookup, remove, insert,
  Map, Bool-cases,
}
use armchair_analyst.Pools.Keys.{BlockHash, ChainKey, ProtocolPoolKey, TokenAddress}
use armchair_analyst.Market.Metadata.{PoolMetadataResult, TokenMetadataResult}
use armchair_analyst.Bootstrap.Window.{RangeLogBlock, FinalizedAnchor}
use armchair_analyst.Requests.Tick.{Tick}
use armchair_analyst.Requests.Tracking.{RequestId, next_id, take_request, issue_request}
use armchair_analyst.Bootstrap.Requests.{
  AnyBootstrapIssued, finalized_header_issued, pool_candidates_issued, validation_issued,
  resolution_issued, BootstrapRequests,
}
use armchair_analyst.Bootstrap.Machine.{
  BootstrapPolicy, referenced_tokens, Phase, anchoring_chain, discovering, validating_pools,
  resolving_tokens, BootstrapState, BootstrapEvent, finalized_header_received,
  pool_candidates_received, pools_validated, tokens_resolved, advanced, candidates_of, all_logs,
  on_finalized_header, on_pool_candidates, on_pools_validated, on_tokens_resolved,
  bootstrap_transition,
}
use armchair_analyst.Bootstrap.Machine.Sole.{sole, one_found, one_kept}
use armchair_analyst.Bootstrap.Machine.Fits.{Heard, Fits, Announces}

module _ (filler_hash : BlockHash → BlockHash → BlockHash) (chain : ChainKey)
    (policy : BootstrapPolicy) (started_at tick : Tick) (heard : List BootstrapEvent) where
  abbrev pub at_rest : BootstrapRequests → Phase → BootstrapState
  at_rest pending phase = record {
    pending = pending;
    phase = phase;
    policy = policy;
    started_at = started_at;
    tick = tick;
  }

  pub kept :
      (phase : Phase) (e : AnyBootstrapIssued) (sent : Tick) (last : RequestId)
      → Fits chain heard phase e
      → Announces chain heard (at_rest (sole e sent last) phase, [])
  kept phase e sent last h =
      inr (e, record { sent = sent; last = last; fits = inr h; one = refl }, inl refl)

  pub finalized_header_answered :
      (phase : Phase) (e : AnyBootstrapIssued) (sent : Tick) (last : RequestId) (id : RequestId)
      (new_anchor : FinalizedAnchor)
      → Fits chain heard phase e
      → Announces chain heard (
          bootstrap_transition filler_hash chain
            (at_rest (sole e sent last) phase)
            (finalized_header_received id new_anchor))
  unfolding bootstrap_transition take_request on_finalized_header advanced issue_request lookup
      remove insert next_id
  finalized_header_answered anchoring_chain (finalized_header_issued i) sent last id new_anchor h =
      elim (Bool-cases (nat_beq i.request_id id)) [
        | inl same ↦
            let (found, gone) = one_found i sent id same in
            rw (found, gone)
              (inr (
                pool_candidates_issued (record {
                  request_id = next_id last;
                  request_payload = record { from_block = new_anchor.number; scan_tip = none };
                }),
                record {
                  sent = tick;
                  last = next_id last;
                  fits = inr (inl (refl, refl));
                  one = refl;
                },
                inr refl,
              ))
        | inr other ↦
            let (absent, there) = one_kept i sent id other in
            rw (absent, there) (kept anchoring_chain (finalized_header_issued i) sent last h)
      ]
  finalized_header_answered (discovering anchor blocks) (pool_candidates_issued i) sent last id
        new_anchor h =
      kept (discovering anchor blocks) (pool_candidates_issued i) sent last h
  finalized_header_answered (validating_pools anchor seed) (validation_issued i) sent last id
        new_anchor h =
      kept (validating_pools anchor seed) (validation_issued i) sent last h
  finalized_header_answered (resolving_tokens anchor seed verified) (resolution_issued i) sent last
        id new_anchor h =
      kept (resolving_tokens anchor seed verified) (resolution_issued i) sent last h
  finalized_header_answered _ _ sent last id new_anchor h = absurd h

  pub pool_candidates_answered :
      (phase : Phase) (e : AnyBootstrapIssued) (sent : Tick) (last : RequestId) (id : RequestId)
      (found_blocks : List RangeLogBlock) (scan_tip : ℕ) (next_from : Option ℕ)
      → Heard (pool_candidates_received id found_blocks scan_tip next_from) heard
      → Fits chain heard phase e
      → Announces chain heard (
          bootstrap_transition filler_hash chain
            (at_rest (sole e sent last) phase)
            (pool_candidates_received id found_blocks scan_tip next_from))
  unfolding bootstrap_transition take_request on_pool_candidates advanced issue_request lookup
      remove insert next_id
  pool_candidates_answered anchoring_chain (finalized_header_issued i) sent last id found_blocks
        scan_tip next_from arrived h =
      kept anchoring_chain (finalized_header_issued i) sent last h
  pool_candidates_answered (discovering anchor blocks) (pool_candidates_issued i) sent last id
        found_blocks scan_tip none arrived h =
      elim (Bool-cases (nat_beq i.request_id id)) [
        | inl same ↦
            let (found, gone) = one_found i sent id same in
            rw (found, gone)
              (inr (
                validation_issued (record {
                  request_id = next_id last;
                  request_payload = record {
                    block_at = anchor.hash;
                    candidates = candidates_of (all_logs (blocks ++ found_blocks));
                  };
                }),
                record { sent = tick; last = next_id last; fits = inr refl; one = refl },
                inr refl,
              ))
        | inr other ↦
            let (absent, there) = one_kept i sent id other in
            rw (absent, there)
              (kept (discovering anchor blocks) (pool_candidates_issued i) sent last h)
      ]
  pool_candidates_answered (discovering anchor blocks) (pool_candidates_issued i) sent last id
        found_blocks scan_tip (some from_block) arrived h =
      elim (Bool-cases (nat_beq i.request_id id)) [
        | inl same ↦
            let (found, gone) = one_found i sent id same in
            rw (found, gone)
              (inr (
                pool_candidates_issued (record {
                  request_id = next_id last;
                  request_payload = record { from_block = from_block; scan_tip = some scan_tip };
                }),
                record {
                  sent = tick;
                  last = next_id last;
                  fits =
                      inr
                        (inr (id, blocks, found_blocks, scan_tip, from_block, arrived, refl, refl));
                  one = refl;
                },
                inr refl,
              ))
        | inr other ↦
            let (absent, there) = one_kept i sent id other in
            rw (absent, there)
              (kept (discovering anchor blocks) (pool_candidates_issued i) sent last h)
      ]
  pool_candidates_answered (validating_pools anchor seed) (validation_issued i) sent last id
        found_blocks scan_tip next_from arrived h =
      kept (validating_pools anchor seed) (validation_issued i) sent last h
  pool_candidates_answered (resolving_tokens anchor seed verified) (resolution_issued i) sent last
        id found_blocks scan_tip next_from arrived h =
      kept (resolving_tokens anchor seed verified) (resolution_issued i) sent last h
  pool_candidates_answered _ _ sent last id found_blocks scan_tip next_from arrived h = absurd h

  pub pools_answered :
      (phase : Phase) (e : AnyBootstrapIssued) (sent : Tick) (last : RequestId) (id : RequestId)
      (metadata : Map ProtocolPoolKey PoolMetadataResult)
      → Fits chain heard phase e
      → Announces chain heard (
          bootstrap_transition filler_hash chain
            (at_rest (sole e sent last) phase)
            (pools_validated id metadata))
  unfolding bootstrap_transition take_request on_pools_validated advanced issue_request lookup
      remove insert next_id
  pools_answered anchoring_chain (finalized_header_issued i) sent last id metadata h =
      kept anchoring_chain (finalized_header_issued i) sent last h
  pools_answered (discovering anchor blocks) (pool_candidates_issued i) sent last id metadata h =
      kept (discovering anchor blocks) (pool_candidates_issued i) sent last h
  pools_answered (validating_pools anchor seed) (validation_issued i) sent last id metadata h =
      elim (Bool-cases (nat_beq i.request_id id)) [
        | inl same ↦
            let (found, gone) = one_found i sent id same in
            rw (found, gone)
              (inr (
                resolution_issued (record {
                  request_id = next_id last;
                  request_payload = record {
                    block_at = anchor.hash;
                    tokens = referenced_tokens metadata chain;
                  };
                }),
                record { sent = tick; last = next_id last; fits = inr refl; one = refl },
                inr refl,
              ))
        | inr other ↦
            let (absent, there) = one_kept i sent id other in
            rw (absent, there)
              (kept (validating_pools anchor seed) (validation_issued i) sent last h)
      ]
  pools_answered (resolving_tokens anchor seed verified) (resolution_issued i) sent last id metadata
        h =
      kept (resolving_tokens anchor seed verified) (resolution_issued i) sent last h
  pools_answered _ _ sent last id metadata h = absurd h

  pub tokens_answered :
      (phase : Phase) (e : AnyBootstrapIssued) (sent : Tick) (last : RequestId) (id : RequestId)
      (metadata : Map TokenAddress TokenMetadataResult)
      → Fits chain heard phase e
      → Announces chain heard (
          bootstrap_transition filler_hash chain
            (at_rest (sole e sent last) phase)
            (tokens_resolved id metadata))
  unfolding bootstrap_transition take_request on_tokens_resolved advanced issue_request lookup
      remove insert next_id
  tokens_answered anchoring_chain (finalized_header_issued i) sent last id metadata h =
      kept anchoring_chain (finalized_header_issued i) sent last h
  tokens_answered (discovering anchor blocks) (pool_candidates_issued i) sent last id metadata h =
      kept (discovering anchor blocks) (pool_candidates_issued i) sent last h
  tokens_answered (validating_pools anchor seed) (validation_issued i) sent last id metadata h =
      kept (validating_pools anchor seed) (validation_issued i) sent last h
  tokens_answered (resolving_tokens anchor seed verified) (resolution_issued i) sent last id
        metadata h =
      elim (Bool-cases (nat_beq i.request_id id)) [
        | inl same ↦
            let (found, gone) = one_found i sent id same in
            rw (found, gone) (inl (record { last = last; ended = refl; empty = refl }, refl))
        | inr other ↦
            let (absent, there) = one_kept i sent id other in
            rw (absent, there)
              (kept (resolving_tokens anchor seed verified) (resolution_issued i) sent last h)
      ]
  tokens_answered _ _ sent last id metadata h = absurd h
