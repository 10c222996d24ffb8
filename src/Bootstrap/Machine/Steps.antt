-- ===== src/Bootstrap/Machine/Steps.antt =====
-- core/crates/client-evm/src/bootstrap/mod.rs: one event of a bootstrap, by what is in flight.
use armchair_analyst.Prelude.{
  nat_eq, ◌≡◌, refl, sym, subst, true, inl, inr, List, [], is_some, leb, remove, Bool-cases,
}
use armchair_analyst.Pools.Keys.{BlockHash, ChainKey}
use armchair_analyst.Requests.Tick.{Tick, next, elapsed_since}
use armchair_analyst.Requests.Tracking.{RequestId, next_id, take_request}
use armchair_analyst.Requests.Pending.{GetPoolMetadata, GetTokenMetadata}
use armchair_analyst.Bootstrap.Requests.{
  GetFinalizedHeader, GetPoolCandidatesInRange, finalized_header_store, pool_candidates_store,
  validation_store, resolution_store, BootstrapRequests, AnyBootstrapId, AnyBootstrapIssued,
}
use armchair_analyst.Bootstrap.Machine.{
  BootstrapPolicy, Phase, anchoring_chain, discovering, validating_pools, resolving_tokens, ready,
  abandoned, BootstrapState, BootstrapEvent, finalized_header_received, pool_candidates_received,
  pools_validated, tokens_resolved, bootstrap_request_failed, bootstrap_tick, is_terminal, degraded,
  on_bootstrap_tick, bootstrap_transition,
}
use armchair_analyst.Bootstrap.Machine.Ended.{
  finalized_header_ended, pool_candidates_ended, pools_ended, tokens_ended,
}
use armchair_analyst.Bootstrap.Machine.Idle.{
  idle, Left, take_finalized_header, take_pool_candidates, take_pool_metadata, take_token_metadata,
  retry-idle,
}
use armchair_analyst.Bootstrap.Machine.Sole.{sole, reissued, retry-sole, retry_expired-sole}
use armchair_analyst.Bootstrap.Machine.Fits.{
  Heard, Fits, FitsOrEnded, Waits, Announces, Fits-reissued,
}
use armchair_analyst.Bootstrap.Machine.Waits.{
  at_rest, finalized_header_answered, pool_candidates_answered, pools_answered, tokens_answered,
}

module _ (filler_hash : BlockHash → BlockHash → BlockHash) (chain : ChainKey)
    (policy : BootstrapPolicy) (started_at tick : Tick) (heard : List BootstrapEvent) where
  renewed_fits :
      (phase : Phase) (e : AnyBootstrapIssued) (id : RequestId)
      → FitsOrEnded chain heard phase e
      → FitsOrEnded chain heard phase (reissued id e)
  renewed_fits phase e id (inl ended) = inl ended
  renewed_fits phase e id (inr h) = inr (Fits-reissued chain heard phase e id h)

  -- Nothing is sent, and the same request is in flight, or was at the end.
  remains :
      (pending : BootstrapRequests) (phase : Phase) (now : Tick) (e : AnyBootstrapIssued)
      (sent : Tick) (last : RequestId)
      → is_terminal phase ≡ true
      → Left e sent last pending
      → Announces chain heard (
        record (at_rest filler_hash chain policy started_at tick heard pending phase) {
          tick = now;
        },
        [],
      )
  remains pending phase now e sent last ended (inl same) =
      inr (e, record { sent = sent; last = last; fits = inl ended; one = same }, inl refl)
  remains pending phase now e sent last ended (inr gone) =
      inl (record { last = last; ended = ended; empty = gone }, refl)

  again :
      (phase : Phase) (e : AnyBootstrapIssued) (last : RequestId) (now : Tick)
      → FitsOrEnded chain heard phase e
      → Waits chain heard
          (record (at_rest filler_hash chain policy started_at tick heard
            (sole (reissued (next_id last) e) now (next_id last))
            phase) { tick = now })
          (reissued (next_id last) e)
  again phase e last now h = record {
    sent = now;
    last = next_id last;
    fits = renewed_fits phase e (next_id last) h;
    one = refl;
  }

  failed :
      (phase : Phase) (e : AnyBootstrapIssued) (sent : Tick) (last : RequestId)
      (id : AnyBootstrapId)
      → FitsOrEnded chain heard phase e
      → Announces chain heard (
          bootstrap_transition filler_hash chain
            (at_rest filler_hash chain policy started_at tick heard (sole e sent last) phase)
            (bootstrap_request_failed id))
  unfolding bootstrap_transition
  failed phase e sent last id h = elim (retry-sole e sent tick last id) [
    | inl same ↦
        rw same (inr (e, record { sent = sent; last = last; fits = h; one = refl }, inl refl))
    | inr renewed ↦
        rw renewed (inr (reissued (next_id last) e, again phase e last tick h, inr refl))
  ]

  degraded-terminal :
      (phase : Phase) → is_terminal (degraded filler_hash chain phase policy.tip_trim) ≡ true
  unfolding degraded
  degraded-terminal anchoring_chain = refl
  degraded-terminal (discovering anchor blocks) = refl
  degraded-terminal (validating_pools anchor seed) = refl
  degraded-terminal (resolving_tokens anchor seed verified) = refl
  degraded-terminal (ready outcome) = refl
  degraded-terminal abandoned = refl

  ticked :
      (phase : Phase) (e : AnyBootstrapIssued) (sent : Tick) (last : RequestId)
      → FitsOrEnded chain heard phase e
      → Announces chain heard (
          bootstrap_transition filler_hash chain
            (at_rest filler_hash chain policy started_at tick heard (sole e sent last) phase)
            bootstrap_tick)
  unfolding bootstrap_transition on_bootstrap_tick
  ticked phase e sent last h = elim (Bool-cases (is_terminal phase)) [
    | inl ended ↦
        rw (ended, on_bootstrap_tick)
          (inr (e, record { sent = sent; last = last; fits = h; one = refl }, inl refl))
    | inr runs ↦
        elim (Bool-cases (leb policy.deadline_ticks (elapsed_since (next tick) started_at))) [
          | inl late ↦
              rw (runs, late, on_bootstrap_tick)
                (remains (sole e sent last) _ (next tick) e sent last (degraded-terminal phase)
                  (inl refl))
          | inr early ↦ elim (retry_expired-sole e sent (next tick) last) [
            | inl same ↦
                rw (runs, early, same, on_bootstrap_tick)
                  (inr (e, record { sent = sent; last = last; fits = h; one = refl }, inl refl))
            | inr renewed ↦
                rw (runs, early, renewed, on_bootstrap_tick)
                  (inr (reissued (next_id last) e, again phase e last (next tick) h, inr refl))
          ]
        ]
  ]

  abbrev rest : BootstrapRequests → Phase → BootstrapState
  rest pending phase = at_rest filler_hash chain policy started_at tick heard pending phase

  -- An answer in a terminal phase may take the last request out, and nothing new is asked for.
  pub ended_waiting :
      (phase : Phase) (e : AnyBootstrapIssued) (sent : Tick) (last : RequestId)
      (event : BootstrapEvent)
      → is_terminal phase ≡ true
      → Announces chain heard (
          bootstrap_transition filler_hash chain
            (at_rest filler_hash chain policy started_at tick heard (sole e sent last) phase)
            event)
  unfolding bootstrap_transition
  ended_waiting phase e sent last (finalized_header_received id anchor) h =
      subst (Announces chain heard)
        (sym (
          finalized_header_ended filler_hash chain (rest (sole e sent last) phase) phase _ _ anchor
            h))
        (remains _ phase tick e sent last h (take_finalized_header sent last id e))
  ended_waiting phase e sent last (pool_candidates_received id blocks scan_tip next_from) h =
      subst (Announces chain heard)
        (sym (
          pool_candidates_ended filler_hash chain (rest (sole e sent last) phase) phase _ _ blocks
            scan_tip next_from h))
        (remains _ phase tick e sent last h (take_pool_candidates sent last id e))
  ended_waiting phase e sent last (pools_validated id metadata) h =
      subst (Announces chain heard)
        (sym (pools_ended filler_hash chain (rest (sole e sent last) phase) phase _ _ metadata h))
        (remains _ phase tick e sent last h (take_pool_metadata sent last id e))
  ended_waiting phase e sent last (tokens_resolved id metadata) h =
      subst (Announces chain heard)
        (sym (tokens_ended filler_hash chain (rest (sole e sent last) phase) phase _ _ metadata h))
        (remains _ phase tick e sent last h (take_token_metadata sent last id e))
  ended_waiting phase e sent last (bootstrap_request_failed id) h =
      failed phase e sent last id (inl h)
  ended_waiting phase e sent last bootstrap_tick h = ticked phase e sent last (inl h)

  idle_rest :
      (phase : Phase) (last : RequestId) (now : Tick)
      → is_terminal phase ≡ true
      → Announces chain heard (
        record (at_rest filler_hash chain policy started_at tick heard (idle last) phase) {
          tick = now;
        },
        [],
      )
  idle_rest phase last now h = inl (record { last = last; ended = h; empty = refl }, refl)

  -- With nothing in flight, nothing is sent.
  pub ended_idle :
      (phase : Phase) (last : RequestId) (event : BootstrapEvent)
      → is_terminal phase ≡ true
      → Announces chain heard (
          bootstrap_transition filler_hash chain
            (at_rest filler_hash chain policy started_at tick heard (idle last) phase)
            event)
  unfolding bootstrap_transition take_request remove on_bootstrap_tick
  ended_idle phase last (finalized_header_received id anchor) h =
      subst (Announces chain heard)
        (sym (
          finalized_header_ended filler_hash chain (rest (idle last) phase) phase (idle last)
            (is_some (take_request {R = GetFinalizedHeader} (idle last) id).1) anchor h))
        (idle_rest phase last tick h)
  ended_idle phase last (pool_candidates_received id blocks scan_tip next_from) h =
      subst (Announces chain heard)
        (sym (
          pool_candidates_ended filler_hash chain (rest (idle last) phase) phase (idle last)
            (is_some (take_request {R = GetPoolCandidatesInRange} (idle last) id).1) blocks scan_tip
            next_from h))
        (idle_rest phase last tick h)
  ended_idle phase last (pools_validated id metadata) h =
      subst (Announces chain heard)
        (sym (
          pools_ended filler_hash chain (rest (idle last) phase) phase (idle last)
            (is_some (take_request {R = GetPoolMetadata} (idle last) id).1) metadata h))
        (idle_rest phase last tick h)
  ended_idle phase last (tokens_resolved id metadata) h =
      subst (Announces chain heard)
        (sym (
          tokens_ended filler_hash chain (rest (idle last) phase) phase (idle last)
            (is_some (take_request {R = GetTokenMetadata} (idle last) id).1) metadata h))
        (idle_rest phase last tick h)
  ended_idle phase last (bootstrap_request_failed id) h =
      rw (retry-idle last id tick) (idle_rest phase last tick h)
  ended_idle phase last bootstrap_tick h =
      rw (h, on_bootstrap_tick) (idle_rest phase last (next tick) h)

  pub answered :
      (phase : Phase) (e : AnyBootstrapIssued) (sent : Tick) (last : RequestId)
      (event : BootstrapEvent)
      → Heard event heard
      → Fits chain heard phase e
      → Announces chain heard (
          bootstrap_transition filler_hash chain
            (at_rest filler_hash chain policy started_at tick heard (sole e sent last) phase)
            event)
  answered phase e sent last (finalized_header_received id anchor) arrived h =
      finalized_header_answered filler_hash chain policy started_at tick heard phase e sent last id
        anchor h
  answered phase e sent last (pool_candidates_received id blocks scan_tip next_from) arrived h =
      pool_candidates_answered filler_hash chain policy started_at tick heard phase e sent last id
        blocks scan_tip next_from arrived h
  answered phase e sent last (pools_validated id metadata) arrived h =
      pools_answered filler_hash chain policy started_at tick heard phase e sent last id metadata h
  answered phase e sent last (tokens_resolved id metadata) arrived h =
      tokens_answered filler_hash chain policy started_at tick heard phase e sent last id metadata h
  answered phase e sent last (bootstrap_request_failed id) arrived h =
      failed phase e sent last id (inr h)
  answered phase e sent last bootstrap_tick arrived h = ticked phase e sent last (inr h)
