-- ===== src/Bootstrap/Machine/Seeded.antt =====
-- core/crates/client-evm/src/bootstrap/mod.rs: the seed that a bootstrap carries.
use armchair_analyst.Prelude.{
  ℕ, nat_eq, ◌≡◌, subst, Bool, true, false, Option, none, some, List, [], ◌∷◌, ◌++◌, leb, Map,
  Bool-cases, inl, inr, arith,
}
use armchair_analyst.Pools.Keys.{BlockHash, ChainKey, ProtocolPoolKey, TokenAddress}
use armchair_analyst.Market.Metadata.{PoolMetadataResult, TokenMetadataResult}
use armchair_analyst.Requests.Tick.{next, elapsed_since}
use armchair_analyst.Requests.Tracking.{take_request}
use armchair_analyst.Bootstrap.Window.{RangeLogBlock, FinalizedAnchor}
use armchair_analyst.Bootstrap.Window.Linked.{Linked, seed_chain}
use armchair_analyst.Bootstrap.Requests.{BootstrapRequests}
use armchair_analyst.Bootstrap.Machine.{
  BootstrapPolicy, BootstrapOutcome, activated, Phase, anchoring_chain, discovering,
  validating_pools, resolving_tokens, ready, abandoned, BootstrapState, BootstrapEvent,
  finalized_header_received, pool_candidates_received, pools_validated, tokens_resolved,
  bootstrap_request_failed, bootstrap_tick, bootstrap_init, completion, advanced, is_terminal,
  degraded, on_finalized_header, on_pool_candidates, on_pools_validated, on_tokens_resolved,
  on_bootstrap_tick, bootstrap_transition, bootstrap_run,
}

-- The seed is one chain on the anchor.
abbrev pub Rooted : Phase → Type 0
Rooted (validating_pools anchor seed) = Linked anchor.hash anchor.number seed
Rooted (resolving_tokens anchor seed verified) = Linked anchor.hash anchor.number seed
Rooted (ready outcome) = Linked outcome.anchor.hash outcome.anchor.number outcome.seed_blocks
Rooted _ = Unit {0}

module _ (filler_hash : BlockHash → BlockHash → BlockHash) (chain : ChainKey) where
  degraded-Rooted :
      (phase : Phase) (tip_trim : ℕ)
      → Rooted phase
      → Rooted (degraded filler_hash chain phase tip_trim)
  unfolding degraded
  degraded-Rooted anchoring_chain tip_trim h = tt
  degraded-Rooted (discovering anchor blocks) tip_trim h =
      seed_chain filler_hash blocks anchor tip_trim
  degraded-Rooted (validating_pools anchor seed) tip_trim h = h
  degraded-Rooted (resolving_tokens anchor seed verified) tip_trim h = h
  degraded-Rooted (ready outcome) tip_trim h = h
  degraded-Rooted abandoned tip_trim h = tt

  finalized_header-Rooted :
      (s : BootstrapState) (phase : Phase) (pending : BootstrapRequests) (taken : Bool)
      (new_anchor : FinalizedAnchor)
      → Rooted phase
      → Rooted
          (on_finalized_header filler_hash
            (record s { phase = phase })
            pending
            taken
            new_anchor).0.phase
  unfolding on_finalized_header advanced
  finalized_header-Rooted s phase pending false new_anchor h = h
  finalized_header-Rooted s anchoring_chain pending true new_anchor h = tt
  finalized_header-Rooted s (discovering anchor blocks) pending true new_anchor h = h
  finalized_header-Rooted s (validating_pools anchor seed) pending true new_anchor h = h
  finalized_header-Rooted s (resolving_tokens anchor seed verified) pending true new_anchor h = h
  finalized_header-Rooted s (ready outcome) pending true new_anchor h = h
  finalized_header-Rooted s abandoned pending true new_anchor h = h

  pool_candidates-Rooted :
      (s : BootstrapState) (phase : Phase) (pending : BootstrapRequests) (taken : Bool)
      (found : List RangeLogBlock) (scan_tip : ℕ) (next_from : Option ℕ)
      → Rooted phase
      → Rooted
          (on_pool_candidates filler_hash
            (record s { phase = phase })
            pending
            taken
            found
            scan_tip
            next_from).0.phase
  unfolding on_pool_candidates advanced
  pool_candidates-Rooted s phase pending false found scan_tip next_from h = h
  pool_candidates-Rooted s anchoring_chain pending true found scan_tip next_from h = h
  pool_candidates-Rooted s (discovering anchor blocks) pending true found scan_tip none h =
      seed_chain filler_hash (blocks ++ found) anchor s.policy.tip_trim
  pool_candidates-Rooted s (discovering anchor blocks) pending true found scan_tip (some from_block)
        h =
      tt
  pool_candidates-Rooted s (validating_pools anchor seed) pending true found scan_tip next_from h =
      h
  pool_candidates-Rooted s (resolving_tokens anchor seed verified) pending true found scan_tip
        next_from h =
      h
  pool_candidates-Rooted s (ready outcome) pending true found scan_tip next_from h = h
  pool_candidates-Rooted s abandoned pending true found scan_tip next_from h = h

  pools-Rooted :
      (s : BootstrapState) (phase : Phase) (pending : BootstrapRequests) (taken : Bool)
      (metadata : Map ProtocolPoolKey PoolMetadataResult)
      → Rooted phase
      → Rooted
          (on_pools_validated filler_hash chain
            (record s { phase = phase })
            pending
            taken
            metadata).0.phase
  unfolding on_pools_validated advanced
  pools-Rooted s phase pending false metadata h = h
  pools-Rooted s anchoring_chain pending true metadata h = h
  pools-Rooted s (discovering anchor blocks) pending true metadata h = h
  pools-Rooted s (validating_pools anchor seed) pending true metadata h = h
  pools-Rooted s (resolving_tokens anchor seed verified) pending true metadata h = h
  pools-Rooted s (ready outcome) pending true metadata h = h
  pools-Rooted s abandoned pending true metadata h = h

  tokens-Rooted :
      (s : BootstrapState) (phase : Phase) (pending : BootstrapRequests) (taken : Bool)
      (metadata : Map TokenAddress TokenMetadataResult)
      → Rooted phase
      → Rooted
          (on_tokens_resolved filler_hash chain
            (record s { phase = phase })
            pending
            taken
            metadata).0.phase
  unfolding on_tokens_resolved advanced
  tokens-Rooted s phase pending false metadata h = h
  tokens-Rooted s anchoring_chain pending true metadata h = h
  tokens-Rooted s (discovering anchor blocks) pending true metadata h = h
  tokens-Rooted s (validating_pools anchor seed) pending true metadata h = h
  tokens-Rooted s (resolving_tokens anchor seed verified) pending true metadata h = h
  tokens-Rooted s (ready outcome) pending true metadata h = h
  tokens-Rooted s abandoned pending true metadata h = h

  bootstrap_transition-Rooted :
      (s : BootstrapState) (event : BootstrapEvent)
      → Rooted s.phase
      → Rooted (bootstrap_transition filler_hash chain s event).0.phase
  unfolding bootstrap_transition take_request on_bootstrap_tick
  bootstrap_transition-Rooted s (finalized_header_received id anchor) h =
      finalized_header-Rooted s s.phase _ _ anchor h
  bootstrap_transition-Rooted s (pool_candidates_received id blocks scan_tip next_from) h =
      pool_candidates-Rooted s s.phase _ _ blocks scan_tip next_from h
  bootstrap_transition-Rooted s (pools_validated id metadata) h =
      pools-Rooted s s.phase _ _ metadata h
  bootstrap_transition-Rooted s (tokens_resolved id metadata) h =
      tokens-Rooted s s.phase _ _ metadata h
  bootstrap_transition-Rooted s (bootstrap_request_failed id) h = h
  bootstrap_transition-Rooted s bootstrap_tick h = elim (Bool-cases (is_terminal s.phase)) [
    | inl ended ↦ rw (ended, on_bootstrap_tick) h
    | inr runs ↦
        elim (Bool-cases (leb s.policy.deadline_ticks (elapsed_since (next s.tick) s.started_at))) [
          | inl late ↦
              rw (runs, late, on_bootstrap_tick) (degraded-Rooted s.phase s.policy.tip_trim h)
          | inr early ↦ rw (runs, early, on_bootstrap_tick) h
        ]
  ]

  bootstrap_run-Rooted :
      (events : List BootstrapEvent) (s : BootstrapState)
      → Rooted s.phase
      → Rooted (bootstrap_run filler_hash chain s events).phase
  unfolding bootstrap_run
  bootstrap_run-Rooted [] s h = h
  bootstrap_run-Rooted (event ∷ events) s h =
      bootstrap_run-Rooted events _ (bootstrap_transition-Rooted s event h)

  completed-Rooted :
      (phase : Phase) (outcome : BootstrapOutcome) (s : BootstrapState)
      → completion (record s { phase = phase }) ≡ some (activated outcome)
      → Rooted phase
      → Linked outcome.anchor.hash outcome.anchor.number outcome.seed_blocks
  unfolding completion
  completed-Rooted (ready made) outcome s c h =
      let same : made ≡ outcome = cc in
      subst (λ o. Linked o.anchor.hash o.anchor.number o.seed_blocks) same h
  completed-Rooted _ outcome s c h = absurd (ground (arith, c))

  -- The seed that a chain is activated with, after any events and whether the bootstrap went through or ran
  -- out of time, is one chain of blocks on the anchor.
  pub completion-Linked :
      (policy : BootstrapPolicy) (events : List BootstrapEvent) (outcome : BootstrapOutcome)
      → completion (bootstrap_run filler_hash chain (bootstrap_init policy).0 events)
        ≡ some (activated outcome)
      → Linked outcome.anchor.hash outcome.anchor.number outcome.seed_blocks
  unfolding bootstrap_init
  completion-Linked policy events outcome c =
      let s = bootstrap_run filler_hash chain (bootstrap_init policy).0 events in
      completed-Rooted s.phase outcome s c
        (bootstrap_run-Rooted events (bootstrap_init policy).0 tt)
