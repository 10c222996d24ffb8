-- ===== src/Multi/Replay/Delivered.antt =====
-- core/crates/client-evm/src/multi_chain_kernel.rs: a chain from the middle of its bootstrap to its activation,
-- whatever else happens meanwhile.
use armchair_analyst.Prelude.{
  nat_eq, ◌≡◌, ◌∙◌, refl, sym, ap, subst, false, Option, none, some, ◌⊎◌, inl, inr, List, [], ◌∷◌,
  ◌++◌, ◌==◌, lookup, Bool-cases,
}
use mathlib.Core.List.{append_assoc, append-nil}
use armchair_analyst.Pools.Keys.{BlockHash, ChainKey, chain_eq, chain_beq_iff, PoolRef}
use armchair_analyst.Pools.Events.{PoolState}
use armchair_analyst.Graph.Fold.{BloomApi}
use armchair_analyst.Bootstrap.Machine.{
  BootstrapOutcome, BootstrapState, BootstrapEvent, bootstrap_tick, Completion, activated, dropped,
  completion, bootstrap_transition, bootstrap_run,
}
use armchair_analyst.Multi.{
  SubscriptionData, ChainLifecycle, bootstrapping, active, VirtualReserveValues, MultiState,
  MultiEvent, finalized_header_refreshed, finalized_header_unavailable, subscription_delivered,
  chain_moved, bootstrap_moved, optimization_step_completed, clock_ticked,
}
use armchair_analyst.Multi.Reserves.{ProjectionMetadata}
use armchair_analyst.Multi.Machine.{
  activate_bootstrap_outcome, advance_bootstrap, multi_transition, multi_run,
}
use armchair_analyst.Multi.Isolation.{About, multi_transition-About}
use armchair_analyst.Multi.Sorted.{Sorted, Sorted-UniqueKeys, multi_transition-Sorted}
use armchair_analyst.Multi.Replay.{
  fed, moved_self, ticked_self, buffered_chain, refreshed_chain, event_chain, advanced_running,
  advanced_activated,
}
use armchair_analyst.Multi.Replay.Events.{
  delivered_to, bootstrap_events, running_start, bootstrap_run-append, bootstrap_events-cons,
  delivered_to-cons,
}

module _ {R V P F Failure : Type 0} (api : BloomApi)
    (filler_hash : BlockHash → BlockHash → BlockHash)
    (values : PoolRef → PoolState → ProjectionMetadata → VirtualReserveValues F ⊎ Failure)
    (verify_plan : MultiState R V → P → V) (chain : ChainKey) where
  -- What becomes of a chain in its bootstrap, by the completion of that.
  abbrev Became :
      Option ChainLifecycle → BootstrapState → List SubscriptionData → Option Completion → Type 0
  Became l b buffered none = l ≡ some (bootstrapping b buffered)
  Became l b buffered (some dropped) = Unit {0}
  Became l b buffered (some (activated outcome)) =
      l
      ≡ some (
          active (
            fed api filler_hash values verify_plan chain (activate_bootstrap_outcome outcome).0
              buffered))

  stays :
      (l : Option ChainLifecycle) (b : BootstrapState) (buffered : List SubscriptionData)
      → completion b ≡ none
      → l ≡ some (bootstrapping b buffered)
      → Became l b buffered (completion b)
  stays l b buffered runs e = subst (Became l b buffered) (sym runs) e

  advances :
      (l : Option ChainLifecycle) (b : BootstrapState) (buffered : List SubscriptionData)
      (event : BootstrapEvent) (c : Option Completion)
      → completion (bootstrap_transition filler_hash chain b event).0 ≡ c
      → ((new : ChainLifecycle)
          → (advance_bootstrap api filler_hash values verify_plan chain b buffered event).0
            ≡ some new
          → l ≡ some new)
      → Became l (bootstrap_transition filler_hash chain b event).0 buffered c
  advances l b buffered event none e f =
      f _ (advanced_running api filler_hash values verify_plan chain b buffered event e)
  advances l b buffered event (some dropped) e f = tt
  advances l b buffered event (some (activated outcome)) e f =
      f _ (advanced_activated api filler_hash values verify_plan chain b buffered event outcome e)

  module _ (s : MultiState R V) (b : BootstrapState) (buffered : List SubscriptionData)
      (sorted : Sorted s.chains) (found : lookup chain s.chains ≡ some (bootstrapping b buffered))
      (runs : completion b ≡ none) where
    abbrev after : MultiEvent R P → Option ChainLifecycle
    after event =
        lookup chain (multi_transition api filler_hash values verify_plan s event).0.chains

    -- An event that neither delivers anything to the chain nor moves its bootstrap.
    abbrev Unmoved : MultiEvent R P → Type 0
    Unmoved event = after event ≡ some (bootstrapping b buffered)

    elsewhere :
        (c : ChainKey) (event : MultiEvent R P)
        → (c == chain) ≡ false
        → About c event
        → Unmoved event
    elsewhere c event other about =
        multi_transition-About api filler_hash values verify_plan c chain other s event about
        ∙ found

    idle_event :
        (event : MultiEvent R P)
        → Unmoved event
        → Became (after event) b (buffered ++ []) (completion b)
    idle_event event e =
        subst (λ l. Became (after event) b l (completion b)) (sym (append-nil buffered))
          (stays (after event) b buffered runs e)

    moved_event :
        (event : MultiEvent R P) (move : BootstrapEvent)
        → ((new : ChainLifecycle)
            → (advance_bootstrap api filler_hash values verify_plan chain b buffered move).0
              ≡ some new
            → after event ≡ some new)
        → Became
            (after event)
            (bootstrap_transition filler_hash chain b move).0
            (buffered ++ [])
            (completion (bootstrap_transition filler_hash chain b move).0)
    moved_event event move f =
        let b' = (bootstrap_transition filler_hash chain b move).0 in
        subst (λ l. Became (after event) b' l (completion b')) (sym (append-nil buffered))
          (advances (after event) b buffered move (completion b') refl f)

    unavailable : (c : ChainKey) → Unmoved (finalized_header_unavailable c)
    unfolding multi_transition
    unavailable c = found

    optimized : (result : R) (plan : Option P) → Unmoved (optimization_step_completed result plan)
    unfolding multi_transition
    optimized result plan = found

    -- One event, whichever it is.
    one_event :
        (event : MultiEvent R P)
        → let b' = bootstrap_run filler_hash chain b (bootstrap_events chain (event ∷ [])) in
          Became (after event) b' (buffered ++ delivered_to chain (event ∷ [])) (completion b')
    unfolding bootstrap_run
    one_event (finalized_header_refreshed c hash number) =
        idle_event _ (elim (Bool-cases (c == chain)) [
          | inl same ↦
              subst (λ k. Unmoved (finalized_header_refreshed k hash number))
                (sym ((chain_beq_iff c chain).0 same))
                (refreshed_chain api filler_hash values verify_plan s chain b buffered hash number
                  found)
          | inr other ↦ elsewhere c _ other refl
        ])
    one_event (finalized_header_unavailable c) = idle_event _ (unavailable c)
    one_event (chain_moved c event) = idle_event _ (elim (Bool-cases (c == chain)) [
      | inl same ↦
          subst (λ k. Unmoved (chain_moved k event)) (sym ((chain_beq_iff c chain).0 same))
            (event_chain api filler_hash values verify_plan s chain b buffered event found)
      | inr other ↦ elsewhere c _ other refl
    ])
    one_event (optimization_step_completed result plan) = idle_event _ (optimized result plan)
    one_event (subscription_delivered c delivered) = elim (Bool-cases (c == chain)) [
      | inl same ↦ rw same (
          stays _ b (buffered ++ delivered ∷ []) runs (
            subst
              (λ k.
                after (subscription_delivered k delivered)
                ≡ some (bootstrapping b (buffered ++ delivered ∷ [])))
              (sym ((chain_beq_iff c chain).0 same))
              (buffered_chain api filler_hash values verify_plan s chain b buffered delivered
                found)))
      | inr other ↦ rw other (idle_event _ (elsewhere c _ other refl))
    ]
    one_event (bootstrap_moved c event) = elim (Bool-cases (c == chain)) [
      | inl same ↦ rw same (
          moved_event (bootstrap_moved c event) event λ new next.
            subst (λ k. after (bootstrap_moved k event) ≡ some new)
              (sym ((chain_beq_iff c chain).0 same))
              (moved_self api filler_hash values verify_plan s chain b buffered event new found
                next))
      | inr other ↦ rw other (idle_event _ (elsewhere c _ other refl))
    ]
    one_event clock_ticked = moved_event clock_ticked bootstrap_tick λ new next.
        ticked_self api filler_hash values verify_plan s chain b buffered new
          (Sorted-UniqueKeys s.chains sorted) found next

  -- Whatever events arrive while a chain's bootstrap runs, of this chain, of others and of the clock, the chain
  -- that the last of them activates, be it an answer or the deadline, is in the state that the transitions
  -- for everything delivered to it since then (after what was buffered already), each once and in the order of
  -- delivery, lead to from the outcome of the bootstrap, if the map of the chains is in the order of its keys.
  pub multi_run-fed :
      (events : List (MultiEvent R P)) (closing : MultiEvent R P) (s : MultiState R V)
      (b : BootstrapState) (buffered : List SubscriptionData) (outcome : BootstrapOutcome)
      → Sorted s.chains
      → lookup chain s.chains ≡ some (bootstrapping b buffered)
      → completion (bootstrap_run filler_hash chain b (bootstrap_events chain events)) ≡ none
      → completion
          (bootstrap_run filler_hash chain b (bootstrap_events chain (events ++ closing ∷ [])))
        ≡ some (activated outcome)
      → lookup chain
          (multi_run api filler_hash values verify_plan s (events ++ closing ∷ [])).chains
        ≡ some (
            active (
              fed api filler_hash values verify_plan chain
                (activate_bootstrap_outcome outcome).0
                (buffered ++ delivered_to chain (events ++ closing ∷ []))))
  unfolding multi_run bootstrap_run
  multi_run-fed [] closing s b buffered outcome sorted found runs ended =
      subst (Became _ _ _) ended (one_event s b buffered sorted found runs closing)
  multi_run-fed (event ∷ events) closing s b buffered outcome sorted found runs ended =
      let one = bootstrap_events chain (event ∷ []) in
      let b' = bootstrap_run filler_hash chain b one in
      let all = events ++ closing ∷ [] in
      let split : (xs : List (MultiEvent R P))
          → bootstrap_run filler_hash chain b (bootstrap_events chain (event ∷ xs))
            ≡ bootstrap_run filler_hash chain b' (bootstrap_events chain xs) =
        λ xs.
          ap (bootstrap_run filler_hash chain b) (bootstrap_events-cons chain event xs)
          ∙ bootstrap_run-append filler_hash chain one (bootstrap_events chain xs) b in
      let runs' = ap completion (sym (split events)) ∙ runs in
      let before =
        running_start filler_hash chain one b
          (running_start filler_hash chain (bootstrap_events chain events) b' runs') in
      multi_run-fed events closing (multi_transition api filler_hash values verify_plan s event).0
        b' (buffered ++ delivered_to chain (event ∷ [])) outcome
        (multi_transition-Sorted api filler_hash values verify_plan s event sorted)
        (subst (Became _ _ _)
          (running_start filler_hash chain (bootstrap_events chain events) b' runs')
          (one_event s b buffered sorted found before event))
        runs' (ap completion (sym (split all)) ∙ ended)
      ∙ ap
          (λ l. some (
            active (
              fed api filler_hash values verify_plan chain (activate_bootstrap_outcome outcome).0
                l)))
          (append_assoc buffered (delivered_to chain (event ∷ [])) (delivered_to chain all)
            ∙ ap (λ l. buffered ++ l) (sym (delivered_to-cons chain event all)))
