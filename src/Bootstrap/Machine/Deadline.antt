-- ===== src/Bootstrap/Machine/Deadline.antt =====
-- core/crates/client-evm/src/bootstrap/mod.rs: the deadline of a bootstrap.
use armchair_analyst.Prelude.{
  ℕ, zero, suc, nat_eq, ◌+◌, ◌^◌, ◌<◌, ◌≤◌, ◌≡◌, ◌∙◌, refl, sym, ap, subst, Bool, true, false, ◌⊎◌,
  inl, inr, Option, none, some, List, [], ◌∷◌, leb, Bool-cases, arith, is_some, Map,
}
use armchair_analyst.Pools.Keys.{BlockHash, ChainKey, ProtocolPoolKey, TokenAddress}
use armchair_analyst.Market.Metadata.{PoolMetadataResult, TokenMetadataResult}
use armchair_analyst.Requests.Tick.{Tick, initial, next, after, elapsed_since, elapsed_since-after}
use armchair_analyst.Requests.Tracking.{take_request}
use armchair_analyst.Bootstrap.Window.{RangeLogBlock, FinalizedAnchor}
use armchair_analyst.Bootstrap.Requests.{BootstrapRequests}
use armchair_analyst.Bootstrap.Machine.Ended.{ended_phase}
use armchair_analyst.Bootstrap.Machine.{
  BootstrapPolicy, Phase, anchoring_chain, discovering, validating_pools, resolving_tokens, ready,
  abandoned, BootstrapState, BootstrapEvent, finalized_header_received, pool_candidates_received,
  pools_validated, tokens_resolved, bootstrap_request_failed, bootstrap_tick, bootstrap_init,
  completion, advanced, is_terminal, degraded, on_finalized_header, on_pool_candidates,
  on_pools_validated, on_tokens_resolved, on_bootstrap_tick, bootstrap_transition, bootstrap_run,
}

-- The ticks among the events.
abbrev pub ticks_in : List BootstrapEvent → ℕ
ticks_in [] = zero
ticks_in (bootstrap_tick ∷ events) = suc (ticks_in events)
ticks_in (_ ∷ events) = ticks_in events

-- The clock after some ticks; a bootstrap that has not ended is before its deadline.
record Clocked (policy : BootstrapPolicy) (ticks : ℕ) (s : BootstrapState) : Type 0 where
  pub governed : s.policy ≡ policy
  pub started : s.started_at ≡ initial
  pub now : s.tick ≡ after ticks initial
  pub early : (is_terminal s.phase ≡ true) ⊎ (ticks ≡ 0) ⊎ (ticks < policy.deadline_ticks)

elapsed_of :
    (tick start : Tick) (n : ℕ)
    → tick ≡ after n initial
    → start ≡ initial
    → n < 2 ^ 64
    → elapsed_since tick start ≡ n
unfolding initial
elapsed_of tick start n at_n at_start room =
    rw (at_n, at_start) (elapsed_since-after n initial (omega arith) room)

not_yet : (a b : ℕ) → leb a b ≡ false → b < a
not_yet a b h = ground arith

abbrev SameClock : BootstrapState → BootstrapState → Type 0
SameClock s t = (t.policy ≡ s.policy) × (t.started_at ≡ s.started_at) × (t.tick ≡ s.tick)

module _ (filler_hash : BlockHash → BlockHash → BlockHash) (chain : ChainKey) where
  finalized_header_clock :
      (s : BootstrapState) (phase : Phase) (pending : BootstrapRequests) (taken : Bool)
      (new_anchor : FinalizedAnchor)
      → SameClock s
          (on_finalized_header filler_hash (record s { phase = phase }) pending taken new_anchor).0
  unfolding on_finalized_header advanced
  finalized_header_clock s phase pending false new_anchor = (refl, refl, refl)
  finalized_header_clock s anchoring_chain pending true new_anchor = (refl, refl, refl)
  finalized_header_clock s (discovering anchor blocks) pending true new_anchor = (refl, refl, refl)
  finalized_header_clock s (validating_pools anchor seed) pending true new_anchor =
      (refl, refl, refl)
  finalized_header_clock s (resolving_tokens anchor seed verified) pending true new_anchor =
      (refl, refl, refl)
  finalized_header_clock s (ready outcome) pending true new_anchor = (refl, refl, refl)
  finalized_header_clock s abandoned pending true new_anchor = (refl, refl, refl)

  pool_candidates_clock :
      (s : BootstrapState) (phase : Phase) (pending : BootstrapRequests) (taken : Bool)
      (found : List RangeLogBlock) (scan_tip : ℕ) (next_from : Option ℕ)
      → SameClock s
          (on_pool_candidates filler_hash
            (record s { phase = phase })
            pending
            taken
            found
            scan_tip
            next_from).0
  unfolding on_pool_candidates advanced
  pool_candidates_clock s phase pending false found scan_tip next_from = (refl, refl, refl)
  pool_candidates_clock s anchoring_chain pending true found scan_tip next_from = (refl, refl, refl)
  pool_candidates_clock s (discovering anchor blocks) pending true found scan_tip none =
      (refl, refl, refl)
  pool_candidates_clock s (discovering anchor blocks) pending true found scan_tip
        (some from_block) =
      (refl, refl, refl)
  pool_candidates_clock s (validating_pools anchor seed) pending true found scan_tip next_from =
      (refl, refl, refl)
  pool_candidates_clock s (resolving_tokens anchor seed verified) pending true found scan_tip
        next_from =
      (refl, refl, refl)
  pool_candidates_clock s (ready outcome) pending true found scan_tip next_from = (refl, refl, refl)
  pool_candidates_clock s abandoned pending true found scan_tip next_from = (refl, refl, refl)

  pools_clock :
      (s : BootstrapState) (phase : Phase) (pending : BootstrapRequests) (taken : Bool)
      (metadata : Map ProtocolPoolKey PoolMetadataResult)
      → SameClock s
          (on_pools_validated filler_hash chain
            (record s { phase = phase })
            pending
            taken
            metadata).0
  unfolding on_pools_validated advanced
  pools_clock s phase pending false metadata = (refl, refl, refl)
  pools_clock s anchoring_chain pending true metadata = (refl, refl, refl)
  pools_clock s (discovering anchor blocks) pending true metadata = (refl, refl, refl)
  pools_clock s (validating_pools anchor seed) pending true metadata = (refl, refl, refl)
  pools_clock s (resolving_tokens anchor seed verified) pending true metadata = (refl, refl, refl)
  pools_clock s (ready outcome) pending true metadata = (refl, refl, refl)
  pools_clock s abandoned pending true metadata = (refl, refl, refl)

  tokens_clock :
      (s : BootstrapState) (phase : Phase) (pending : BootstrapRequests) (taken : Bool)
      (metadata : Map TokenAddress TokenMetadataResult)
      → SameClock s
          (on_tokens_resolved filler_hash chain
            (record s { phase = phase })
            pending
            taken
            metadata).0
  unfolding on_tokens_resolved advanced
  tokens_clock s phase pending false metadata = (refl, refl, refl)
  tokens_clock s anchoring_chain pending true metadata = (refl, refl, refl)
  tokens_clock s (discovering anchor blocks) pending true metadata = (refl, refl, refl)
  tokens_clock s (validating_pools anchor seed) pending true metadata = (refl, refl, refl)
  tokens_clock s (resolving_tokens anchor seed verified) pending true metadata = (refl, refl, refl)
  tokens_clock s (ready outcome) pending true metadata = (refl, refl, refl)
  tokens_clock s abandoned pending true metadata = (refl, refl, refl)

  unticked :
      (policy : BootstrapPolicy) (ticks : ℕ) (s : BootstrapState) (event : BootstrapEvent)
      → Clocked policy ticks s
      → SameClock s (bootstrap_transition filler_hash chain s event).0
      → Clocked policy ticks (bootstrap_transition filler_hash chain s event).0
  unticked policy ticks s event c (same_policy, same_start, same_tick) = record {
    governed = same_policy ∙ c.governed;
    started = same_start ∙ c.started;
    now = same_tick ∙ c.now;
    early = elim c.early [
      | inl ended ↦ inl (
          subst (λ p. is_terminal p ≡ true) (sym (ended_phase filler_hash chain s event ended))
            ended)
      | inr before ↦ inr before
    ];
  }

  degraded-terminal :
      (phase : Phase) (tip_trim : ℕ)
      → is_terminal (degraded filler_hash chain phase tip_trim) ≡ true
  unfolding degraded
  degraded-terminal anchoring_chain tip_trim = refl
  degraded-terminal (discovering anchor blocks) tip_trim = refl
  degraded-terminal (validating_pools anchor seed) tip_trim = refl
  degraded-terminal (resolving_tokens anchor seed verified) tip_trim = refl
  degraded-terminal (ready outcome) tip_trim = refl
  degraded-terminal abandoned tip_trim = refl

  ticked :
      (policy : BootstrapPolicy) (ticks : ℕ) (s : BootstrapState)
      → ticks + 1 < 2 ^ 64
      → Clocked policy ticks s
      → Clocked policy (suc ticks) (bootstrap_transition filler_hash chain s bootstrap_tick).0
  unfolding bootstrap_transition on_bootstrap_tick after
  ticked policy ticks s room c =
      let later : next s.tick ≡ after (suc ticks) initial = ap next c.now in
      elim (Bool-cases (is_terminal s.phase)) [
        | inl ended ↦
            rw (ended, on_bootstrap_tick)
              (record {
                governed = c.governed;
                started = c.started;
                now = later;
                early = inl ended;
              })
        | inr runs ↦
            let gone : elapsed_since (next s.tick) s.started_at ≡ suc ticks =
              elapsed_of (next s.tick) s.started_at (suc ticks) later c.started
                (omega (arith, room)) in
            elim (Bool-cases
              (leb s.policy.deadline_ticks (elapsed_since (next s.tick) s.started_at))) [
                | inl late ↦
                    rw (runs, late, on_bootstrap_tick)
                      (record {
                        governed = c.governed;
                        started = c.started;
                        now = later;
                        early = inl (degraded-terminal s.phase s.policy.tip_trim);
                      })
                | inr soon ↦
                    rw (runs, soon, on_bootstrap_tick)
                      (record {
                        governed = c.governed;
                        started = c.started;
                        now = later;
                        early = inr (
                            inr (
                              let past = not_yet s.policy.deadline_ticks _ soon in
                              let limit : s.policy.deadline_ticks ≡ policy.deadline_ticks =
                                ap (λ q. q.deadline_ticks) c.governed in
                              omega (arith, past, gone, limit)));
                      })
              ]
      ]

  stepped :
      (policy : BootstrapPolicy) (ticks : ℕ) (s : BootstrapState) (event : BootstrapEvent)
      (events : List BootstrapEvent)
      → ticks + ticks_in (event ∷ events) < 2 ^ 64
      → Clocked policy ticks s
      → (now : ℕ) × (now + ticks_in events ≡ ticks + ticks_in (event ∷ events))
        × Clocked policy now (bootstrap_transition filler_hash chain s event).0
  unfolding bootstrap_transition take_request
  stepped policy ticks s (finalized_header_received id anchor) events room c = (
    ticks,
    refl,
    unticked policy ticks s (finalized_header_received id anchor) c
        (finalized_header_clock s s.phase _ _ anchor),
  )
  stepped policy ticks s (pool_candidates_received id blocks scan_tip next_from) events room c = (
    ticks,
    refl,
    unticked policy ticks s (pool_candidates_received id blocks scan_tip next_from) c
        (pool_candidates_clock s s.phase _ _ blocks scan_tip next_from),
  )
  stepped policy ticks s (pools_validated id metadata) events room c = (
    ticks,
    refl,
    unticked policy ticks s (pools_validated id metadata) c (pools_clock s s.phase _ _ metadata),
  )
  stepped policy ticks s (tokens_resolved id metadata) events room c = (
    ticks,
    refl,
    unticked policy ticks s (tokens_resolved id metadata) c (tokens_clock s s.phase _ _ metadata),
  )
  stepped policy ticks s (bootstrap_request_failed id) events room c =
      (ticks, refl, unticked policy ticks s (bootstrap_request_failed id) c (refl, refl, refl))
  stepped policy ticks s bootstrap_tick events room c =
      (suc ticks, omega arith, ticked policy ticks s (omega (arith, room)) c)

  run-Clocked :
      (policy : BootstrapPolicy) (events : List BootstrapEvent) (ticks : ℕ) (s : BootstrapState)
      → ticks + ticks_in events < 2 ^ 64
      → Clocked policy ticks s
      → Clocked policy (ticks + ticks_in events) (bootstrap_run filler_hash chain s events)
  unfolding bootstrap_run
  run-Clocked policy [] ticks s room c = subst (λ n. Clocked policy n s) (omega arith) c
  run-Clocked policy (event ∷ events) ticks s room c =
      let (now, same, c') = stepped policy ticks s event events room c in
      subst (λ n. Clocked policy n (bootstrap_run filler_hash chain s (event ∷ events))) same
        (run-Clocked policy events now _ (omega (arith, same, room)) c')

  terminal-completion :
      (s : BootstrapState) (phase : Phase)
      → is_terminal phase ≡ true
      → is_some (completion (record s { phase = phase })) ≡ true
  unfolding completion
  terminal-completion s (ready outcome) h = refl
  terminal-completion s abandoned h = refl
  terminal-completion s _ h = absurd (ground (arith, h))

  -- Whatever arrives, and in whatever order, a bootstrap has ended once its deadline of ticks has gone by, if
  -- these are at least one and fewer than all 64-bit ticks: it then reports a completion.
  pub bootstrap_run-completion :
      (policy : BootstrapPolicy) (events : List BootstrapEvent)
      → 1 ≤ ticks_in events
      → policy.deadline_ticks ≤ ticks_in events
      → ticks_in events < 2 ^ 64
      → is_some (completion (bootstrap_run filler_hash chain (bootstrap_init policy).0 events))
        ≡ true
  unfolding bootstrap_init after
  bootstrap_run-completion policy events some_tick late room =
      let s = bootstrap_run filler_hash chain (bootstrap_init policy).0 events in
      let c =
        run-Clocked policy events zero (bootstrap_init policy).0 (omega (arith, room))
          (record { governed = refl; started = refl; now = refl; early = inr (inl refl) }) in
      elim c.early [
        | inl ended ↦ terminal-completion s s.phase ended
        | inr (inl none_yet) ↦ absurd (omega (arith, none_yet, some_tick))
        | inr (inr before) ↦ absurd (omega (arith, before, late))
      ]
