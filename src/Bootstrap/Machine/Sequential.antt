-- ===== src/Bootstrap/Machine/Sequential.antt =====
-- core/crates/client-evm/src/bootstrap/mod.rs: a bootstrap that has not ended waits for one request, its phase's.
use armchair_analyst.Prelude.{
  nat_eq, ◌≡◌, refl, sym, subst, true, ◌⊎◌, inl, inr, List, [], ◌∷◌, ◌++◌, insert,
}
use mathlib.Core.List.{append_assoc, append-nil}
use armchair_analyst.Pools.Keys.{BlockHash, ChainKey}
use armchair_analyst.Requests.Tick.{initial}
use armchair_analyst.Requests.Tracking.{next_id, issue_request}
use armchair_analyst.Bootstrap.Requests.{
  finalized_header_store, pool_candidates_store, validation_store, resolution_store,
  get_finalized_header, no_bootstrap_requests, AnyBootstrapIssued, finalized_header_issued,
}
use armchair_analyst.Bootstrap.Machine.{
  BootstrapPolicy, Phase, BootstrapState, BootstrapEvent, BootstrapStep, bootstrap_init,
  is_terminal, bootstrap_transition, bootstrap_run,
}
use armchair_analyst.Bootstrap.Machine.Sole.{sole}
use armchair_analyst.Bootstrap.Machine.Fits.{
  Heard-last, Fits, FitsOrEnded, Fits_later, Sequential, Announces,
}
use armchair_analyst.Bootstrap.Machine.Steps.{answered, ended_waiting, ended_idle}

module _ (filler_hash : BlockHash → BlockHash → BlockHash) (chain : ChainKey) where
  later :
      (heard : List BootstrapEvent) (event : BootstrapEvent) (phase : Phase)
      (e : AnyBootstrapIssued)
      → FitsOrEnded chain heard phase e
      → (is_terminal phase ≡ true) ⊎ Fits chain (heard ++ event ∷ []) phase e
  later heard event phase e (inl ended) = inl ended
  later heard event phase e (inr h) = inr (Fits_later chain heard event phase e h)

  pub bootstrap_transition-Sequential :
      (heard : List BootstrapEvent) (s : BootstrapState) (event : BootstrapEvent)
      → Sequential chain heard s
      → Announces chain (heard ++ event ∷ []) (bootstrap_transition filler_hash chain s event)
  bootstrap_transition-Sequential heard s event (inl k) =
      subst
        (λ pending.
          Announces chain (heard ++ event ∷ [])
            (bootstrap_transition filler_hash chain (record s { pending = pending }) event))
        (sym k.empty)
        (ended_idle filler_hash chain s.policy s.started_at s.tick (heard ++ event ∷ []) s.phase
          k.last event k.ended)
  bootstrap_transition-Sequential heard s event (inr (e, w)) =
      subst
        (λ pending.
          Announces chain (heard ++ event ∷ [])
            (bootstrap_transition filler_hash chain (record s { pending = pending }) event))
        (sym w.one) (step (later heard event s.phase e w.fits))
    where
      step :
          FitsOrEnded chain (heard ++ event ∷ []) s.phase e
          → Announces chain (heard ++ event ∷ []) (
              bootstrap_transition filler_hash chain
                (record s { pending = sole e w.sent w.last })
                event)
      step (inl ended) =
          ended_waiting filler_hash chain s.policy s.started_at s.tick (heard ++ event ∷ []) s.phase
            e w.sent w.last event ended
      step (inr h) =
          answered filler_hash chain s.policy s.started_at s.tick (heard ++ event ∷ []) s.phase e
            w.sent w.last event (Heard-last event heard) h

  settle :
      (heard : List BootstrapEvent) (r : BootstrapStep)
      → Announces chain heard r
      → Sequential chain heard r.0
  settle heard r (inl (k, _)) = inl k
  settle heard r (inr (e, w, _)) = inr (e, w)

  run-Sequential :
      (events heard : List BootstrapEvent) (s : BootstrapState)
      → Sequential chain heard s
      → Sequential chain (heard ++ events) (bootstrap_run filler_hash chain s events)
  unfolding bootstrap_run
  run-Sequential [] heard s h = subst (λ l. Sequential chain l s) (sym (append-nil heard)) h
  run-Sequential (event ∷ events) heard s h =
      let s' = bootstrap_transition filler_hash chain s event in
      subst (λ l. Sequential chain l (bootstrap_run filler_hash chain s'.0 events))
        (append_assoc heard (event ∷ []) events)
        (run-Sequential events (heard ++ event ∷ []) s'.0
          (settle (heard ++ event ∷ []) s' (bootstrap_transition-Sequential heard s event h)))

  init-Sequential : (policy : BootstrapPolicy) → Sequential chain [] (bootstrap_init policy).0
  unfolding bootstrap_init issue_request insert no_bootstrap_requests
  init-Sequential policy = inr (
    finalized_header_issued
        (record { request_id = next_id 0; request_payload = get_finalized_header }),
    record { sent = initial; last = next_id 0; fits = inr tt; one = refl },
  )

  -- After any events, one more event leaves at most one request in flight, and sends nothing or that request.
  -- Until the bootstrap has ended there is one, and it is its phase's: the first window of the scan starts at
  -- the anchor, every later one at the block and with the scan tip that the answer named whose blocks were
  -- found last, and metadata is asked for at the anchor, that of the tokens for those that the verified pools
  -- name.
  pub bootstrap_run-Announces :
      (policy : BootstrapPolicy) (events : List BootstrapEvent) (event : BootstrapEvent)
      → Announces chain (events ++ event ∷ []) (
          bootstrap_transition filler_hash chain
            (bootstrap_run filler_hash chain (bootstrap_init policy).0 events)
            event)
  bootstrap_run-Announces policy events event =
      bootstrap_transition-Sequential events
        (bootstrap_run filler_hash chain (bootstrap_init policy).0 events) event
        (run-Sequential events [] (bootstrap_init policy).0 (init-Sequential policy))
