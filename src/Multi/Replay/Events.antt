-- ===== src/Multi/Replay/Events.antt =====
-- core/crates/client-evm/src/multi_chain_kernel.rs: the events of one chain in a sequence of events.
use armchair_analyst.Prelude.{
  nat_eq, ◌≡◌, refl, true, none, some, inl, inr, List, [], ◌∷◌, ◌++◌, ◌==◌, arith, Bool-cases,
  Option-cases, if◌then◌else◌,
}
use armchair_analyst.Pools.Keys.{BlockHash, ChainKey, chain_eq}
use armchair_analyst.Bootstrap.Machine.{
  Phase, ready, abandoned, BootstrapState, BootstrapEvent, bootstrap_tick, Completion, completion,
  is_terminal, bootstrap_transition, bootstrap_run,
}
use armchair_analyst.Bootstrap.Machine.Ended.{ended_phase}
use armchair_analyst.Multi.{
  SubscriptionData, MultiEvent, subscription_delivered, bootstrap_moved, clock_ticked,
}

module _ {R P : Type 0} (chain : ChainKey) where
  -- What a sequence of events delivers to the chain, and the events of its bootstrap in it.
  abbrev pub delivered_to : List (MultiEvent R P) → List SubscriptionData
  delivered_to [] = []
  delivered_to (subscription_delivered c delivered ∷ events) =
      if c == chain then delivered ∷ delivered_to events else delivered_to events
  delivered_to (_ ∷ events) = delivered_to events

  abbrev pub bootstrap_events : List (MultiEvent R P) → List BootstrapEvent
  bootstrap_events [] = []
  bootstrap_events (bootstrap_moved c event ∷ events) =
      if c == chain then event ∷ bootstrap_events events else bootstrap_events events
  bootstrap_events (clock_ticked ∷ events) = bootstrap_tick ∷ bootstrap_events events
  bootstrap_events (_ ∷ events) = bootstrap_events events

module _ (filler_hash : BlockHash → BlockHash → BlockHash) (chain : ChainKey) where
  phase_completion :
      (phase : Phase) (c : Completion) (s : BootstrapState)
      → s.phase ≡ phase
      → completion s ≡ some c
      → is_terminal phase ≡ true
  unfolding completion
  phase_completion (ready outcome) c s e h = refl
  phase_completion abandoned c s e h = refl
  phase_completion _ c s e h = absurd (ground (arith, e, h))

  -- A bootstrap that is running was running before.
  running_before :
      (b : BootstrapState) (event : BootstrapEvent)
      → completion (bootstrap_transition filler_hash chain b event).0 ≡ none
      → completion b ≡ none
  unfolding completion
  running_before b event h = elim (Option-cases (completion b)) [
    | inl runs ↦ runs
    | inr (c, ended) ↦
        let same =
          ended_phase filler_hash chain b event (phase_completion b.phase c b refl ended) in
        absurd (ground (arith, h, ended, same))
  ]

  pub running_start :
      (events : List BootstrapEvent) (b : BootstrapState)
      → completion (bootstrap_run filler_hash chain b events) ≡ none
      → completion b ≡ none
  unfolding bootstrap_run
  running_start [] b h = h
  running_start (event ∷ events) b h = running_before b event (running_start events _ h)

  pub bootstrap_run-append :
      (xs ys : List BootstrapEvent) (b : BootstrapState)
      → bootstrap_run filler_hash chain b (xs ++ ys)
        ≡ bootstrap_run filler_hash chain (bootstrap_run filler_hash chain b xs) ys
  unfolding bootstrap_run
  bootstrap_run-append [] ys b = refl
  bootstrap_run-append (x ∷ xs) ys b = bootstrap_run-append xs ys _

module _ {R P : Type 0} (chain : ChainKey) where
  pub bootstrap_events-cons :
      (event : MultiEvent R P) (events : List (MultiEvent R P))
      → bootstrap_events chain (event ∷ events)
        ≡ bootstrap_events chain (event ∷ []) ++ bootstrap_events chain events
  bootstrap_events-cons (bootstrap_moved c e) events = elim (Bool-cases (c == chain)) [
    | inl same ↦ rw same refl
    | inr other ↦ rw other refl
  ]
  bootstrap_events-cons clock_ticked events = refl
  bootstrap_events-cons _ events = refl

  pub delivered_to-cons :
      (event : MultiEvent R P) (events : List (MultiEvent R P))
      → delivered_to chain (event ∷ events)
        ≡ delivered_to chain (event ∷ []) ++ delivered_to chain events
  delivered_to-cons (subscription_delivered c delivered) events = elim (Bool-cases (c == chain)) [
    | inl same ↦ rw same refl
    | inr other ↦ rw other refl
  ]
  delivered_to-cons _ events = refl
