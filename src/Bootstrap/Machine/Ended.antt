-- ===== src/Bootstrap/Machine/Ended.antt =====
-- core/crates/client-evm/src/bootstrap/mod.rs: a bootstrap that has ended.
use armchair_analyst.Prelude.{
  arith, ℕ, nat_eq, ◌≡◌, ap, refl, [], Bool, true, false, Option, List, Map,
}
use armchair_analyst.Pools.Keys.{BlockHash, ChainKey, ProtocolPoolKey, TokenAddress}
use armchair_analyst.Market.Metadata.{PoolMetadataResult, TokenMetadataResult}
use armchair_analyst.Bootstrap.Window.{RangeLogBlock, FinalizedAnchor}
use armchair_analyst.Requests.Tracking.{take_request}
use armchair_analyst.Bootstrap.Requests.{BootstrapRequests}
use armchair_analyst.Bootstrap.Machine.{
  Phase, ready, abandoned, BootstrapState, BootstrapEvent, finalized_header_received,
  pool_candidates_received, pools_validated, tokens_resolved, bootstrap_request_failed,
  bootstrap_tick, is_terminal, on_finalized_header, on_pool_candidates, on_pools_validated,
  on_tokens_resolved, on_bootstrap_tick, bootstrap_transition,
}

-- An ended bootstrap only takes what is answered out of its ledger: it keeps its phase and sends nothing.
module _ (filler_hash : BlockHash → BlockHash → BlockHash) (chain : ChainKey) where
  pub finalized_header_ended :
      (s : BootstrapState) (phase : Phase) (pending : BootstrapRequests) (taken : Bool)
      (new_anchor : FinalizedAnchor)
      → is_terminal phase ≡ true
      → on_finalized_header filler_hash (record s { phase = phase }) pending taken new_anchor
        ≡ (record s { pending = pending; phase = phase }, [])
  unfolding on_finalized_header
  finalized_header_ended s (ready outcome) pending false new_anchor h = refl
  finalized_header_ended s (ready outcome) pending true new_anchor h = refl
  finalized_header_ended s abandoned pending false new_anchor h = refl
  finalized_header_ended s abandoned pending true new_anchor h = refl
  finalized_header_ended s _ pending taken new_anchor h = absurd (ground (arith, h))

  pub pool_candidates_ended :
      (s : BootstrapState) (phase : Phase) (pending : BootstrapRequests) (taken : Bool)
      (found : List RangeLogBlock) (scan_tip : ℕ) (next_from : Option ℕ)
      → is_terminal phase ≡ true
      → on_pool_candidates filler_hash
          (record s { phase = phase })
          pending
          taken
          found
          scan_tip
          next_from
        ≡ (record s { pending = pending; phase = phase }, [])
  unfolding on_pool_candidates
  pool_candidates_ended s (ready outcome) pending false found scan_tip next_from h = refl
  pool_candidates_ended s (ready outcome) pending true found scan_tip next_from h = refl
  pool_candidates_ended s abandoned pending false found scan_tip next_from h = refl
  pool_candidates_ended s abandoned pending true found scan_tip next_from h = refl
  pool_candidates_ended s _ pending taken found scan_tip next_from h = absurd (ground (arith, h))

  pub pools_ended :
      (s : BootstrapState) (phase : Phase) (pending : BootstrapRequests) (taken : Bool)
      (metadata : Map ProtocolPoolKey PoolMetadataResult)
      → is_terminal phase ≡ true
      → on_pools_validated filler_hash chain (record s { phase = phase }) pending taken metadata
        ≡ (record s { pending = pending; phase = phase }, [])
  unfolding on_pools_validated
  pools_ended s (ready outcome) pending false metadata h = refl
  pools_ended s (ready outcome) pending true metadata h = refl
  pools_ended s abandoned pending false metadata h = refl
  pools_ended s abandoned pending true metadata h = refl
  pools_ended s _ pending taken metadata h = absurd (ground (arith, h))

  pub tokens_ended :
      (s : BootstrapState) (phase : Phase) (pending : BootstrapRequests) (taken : Bool)
      (metadata : Map TokenAddress TokenMetadataResult)
      → is_terminal phase ≡ true
      → on_tokens_resolved filler_hash chain (record s { phase = phase }) pending taken metadata
        ≡ (record s { pending = pending; phase = phase }, [])
  unfolding on_tokens_resolved
  tokens_ended s (ready outcome) pending false metadata h = refl
  tokens_ended s (ready outcome) pending true metadata h = refl
  tokens_ended s abandoned pending false metadata h = refl
  tokens_ended s abandoned pending true metadata h = refl
  tokens_ended s _ pending taken metadata h = absurd (ground (arith, h))

  pub ended_phase :
      (s : BootstrapState) (event : BootstrapEvent)
      → is_terminal s.phase ≡ true
      → (bootstrap_transition filler_hash chain s event).0.phase ≡ s.phase
  unfolding bootstrap_transition take_request on_bootstrap_tick
  ended_phase s (finalized_header_received id anchor) h =
      ap (λ r. r.0.phase) (finalized_header_ended s s.phase _ _ anchor h)
  ended_phase s (pool_candidates_received id blocks scan_tip next_from) h =
      ap (λ r. r.0.phase) (pool_candidates_ended s s.phase _ _ blocks scan_tip next_from h)
  ended_phase s (pools_validated id metadata) h =
      ap (λ r. r.0.phase) (pools_ended s s.phase _ _ metadata h)
  ended_phase s (tokens_resolved id metadata) h =
      ap (λ r. r.0.phase) (tokens_ended s s.phase _ _ metadata h)
  ended_phase s (bootstrap_request_failed id) h = refl
  ended_phase s bootstrap_tick h = rw (h, on_bootstrap_tick) refl
